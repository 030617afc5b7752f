-- ===== src/Upload/Pipe/Fifo.antt =====
-- services/streaming_pipe.py: what the reader gets of what the writer put, in every interleaving.
use immich_adapter.Prelude.{
  ℕ, ◌≡◌, refl, ◌∙◌, ◌⊎◌, inl, inr, true, false, Option, none, some, List, [], ◌∷◌, ◌++◌,
  append_assoc, subst, is_some, All, All-append, Error, arith,
}
use immich_adapter.Upload.Pipe.Content.{content, is_ended, pending}
use immich_adapter.Upload.Pipe.Flow.{
  Flow, IsMarked, Flow-write, Flow-fail, advance_writer-queue, advance_failing-same,
}
use immich_adapter.Upload.Pipe.Flow.Reads.{Flow-read}
use immich_adapter.Upload.Pipe.{
  Bytes, Pipe, Failing, store, drain, signal, signalled, advance_failing, Reader, read_check,
  read_leftover, read_get, read_take, did_read, advance_reader,
}
use immich_adapter.Upload.Pipe.Runs.{
  System, IsReading, Moves, starts_put, starts_close, starts_read, starts_error, writes, reads,
  fails, Reaches, here, next, new_system,
}

-- What holds in a run: the flow of bytes, and that an error under way is stored.
abbrev IsSound : System → Type 0
IsSound s = Flow s.pipe s.reader s.sent s.delivered × All (λ f. IsMarked s.pipe.error f) s.failing

IsMarked-kept :
    (e x : Option Error) (fs : List Failing)
    → (is_some e ≡ true → is_some x ≡ true)
    → All (λ f. IsMarked e f) fs
    → All (λ f. IsMarked x f) fs
IsMarked-kept e x [] keep h = tt
IsMarked-kept e x (store y ∷ fs) keep (h, hs) = (tt, IsMarked-kept e x fs keep hs)
IsMarked-kept e x (drain ∷ fs) keep (h, hs) = (keep h, IsMarked-kept e x fs keep hs)
IsMarked-kept e x (signal t ∷ fs) keep (h, hs) = (keep h, IsMarked-kept e x fs keep hs)
IsMarked-kept e x (signalled ∷ fs) keep (h, hs) = (tt, IsMarked-kept e x fs keep hs)

advance_reader-error : (r : Reader) (p : Pipe) → (advance_reader r p).1.error ≡ p.error
unfolding advance_reader
advance_reader-error (read_check n) p = ground arith
advance_reader-error (read_leftover n) p = ground arith
advance_reader-error (read_get n) p = ground arith
advance_reader-error (read_take n none) p = ground arith
advance_reader-error (read_take n (some chunk)) p = ground arith
advance_reader-error (did_read x) p = refl

-- A call that starts has nothing in hand.
Flow-start :
    (p : Pipe) (n : ℕ) (r : Reader) (sent : List (Option Bytes)) (delivered : Bytes)
    → ¬ IsReading r
    → Flow p r sent delivered
    → Flow p (read_check n) sent delivered
Flow-start p n (did_read x) sent d m h = h
Flow-start p n (read_check k) sent d m h = absurd (m tt)
Flow-start p n (read_leftover k) sent d m h = absurd (m tt)
Flow-start p n (read_get k) sent d m h = absurd (m tt)
Flow-start p n (read_take k item) sent d m h = absurd (m tt)

All-split :
    (e : Option Error) (before after : List Failing) (f : Failing)
    → All (λ g. IsMarked e g) (before ++ f ∷ after)
    → All (λ g. IsMarked e g) before × IsMarked e f × All (λ g. IsMarked e g) after
All-split e [] after f (h, hs) = (tt, h, hs)
All-split e (g ∷ before) after f (h, hs) =
    let (x, y, z) = All-split e before after f hs in ((h, x), y, z)

Moves-IsSound : {s t : System} → Moves s t → IsSound s → IsSound t
Moves-IsSound (starts_put s r chunk e) (h, m) = (h, m)
Moves-IsSound (starts_close s r e) (h, m) = (h, m)
Moves-IsSound (starts_read s r n e) (h, m) =
    (Flow-start s.pipe n s.reader s.sent s.delivered (λ i. subst IsReading e i) h, m)
Moves-IsSound (starts_error s e) (h, m) = (h, (tt, m))
Moves-IsSound (writes s) (h, m) = (
  Flow-write s.writer s.pipe s.reader s.sent s.delivered h,
  rw (advance_writer-queue s.writer s.pipe).1 m,
)
Moves-IsSound (reads s i) (h, m) =
    (Flow-read s.pipe s.reader s.sent s.delivered i h, rw (advance_reader-error s.reader s.pipe) m)
Moves-IsSound (fails s before after f e) (h, m) =
    let (x, y, z) =
      All-split s.pipe.error before after f (subst (All (λ g. IsMarked s.pipe.error g)) e m) in
    let (ks, km, kl, kf, kc) = advance_failing-same f s.pipe y in
    let now = (advance_failing f s.pipe).1.error in
    (
      Flow-fail f s.pipe s.reader s.sent s.delivered y h,
      All-append (λ g. IsMarked now g) before ((advance_failing f s.pipe).0 ∷ after)
          (IsMarked-kept s.pipe.error now before ks x)
          (km, IsMarked-kept s.pipe.error now after ks z),
    )

Reaches-IsSound : {n : ℕ} {t : System} → Reaches (new_system n) t → IsSound t
Reaches-IsSound here = (inr (inl (refl, tt, refl, refl, refl)), tt)
Reaches-IsSound (next r m) = Moves-IsSound m (Reaches-IsSound r)

-- What the reader has got: all that the writer put before its end of the file, where the reader has seen
-- the end; without an error, all but the leftover, the item just taken and the queue; and with one, a
-- start of it.
abbrev pub IsDelivered : System → Type 0
IsDelivered t =
    ((t.pipe.eof ≡ true) × (content t.sent ≡ t.delivered) × (is_ended t.sent ≡ true))
    ⊎ (((t.pipe.eof ≡ false)
          × (t.pipe.error ≡ none)
          × (content t.sent
              ≡ (t.delivered ++ t.pipe.leftover) ++ content (pending t.reader t.pipe.queue)))
        ⊎ ((t.pipe.eof ≡ false)
            × (is_some t.pipe.error ≡ true)
            × ((rest : Bytes) × (content t.sent ≡ t.delivered ++ rest))))

-- In every run of a writer, a reader and threads that set errors, nothing of what the writer puts before
-- its end of the file is lost, repeated or out of order: the reader has returned all of it where it has
-- seen the end, which the writer then did put; else, where no error is stored, all but what is in the
-- leftover, in the item just taken and in the queue; and with an error a start of it.
pub run-IsDelivered : {n : ℕ} {t : System} → Reaches (new_system n) t → IsDelivered t
run-IsDelivered {n} {t} r = elim (Reaches-IsSound r).0 [
  | inl (e, c, i, a) ↦ inl (e, c, i)
  | inr (inl (e, y, f, c, i)) ↦ inr (inl (e, f, c))
  | inr (inr (e, y, f, cut)) ↦
      let (rest, c) = cut in
      inr (inr (e, f, (t.pipe.leftover ++ rest, c ∙ append_assoc t.delivered t.pipe.leftover rest)))
]
