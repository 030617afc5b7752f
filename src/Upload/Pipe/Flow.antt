-- ===== src/Upload/Pipe/Flow.antt =====
-- services/streaming_pipe.py: where the bytes of the writer are while a run goes on, and the steps of
-- the writer and of a thread that sets an error.
pub mod Reads
use immich_adapter.Prelude.{
  ℕ, suc, ◌≡◌, refl, sym, ap, ◌∙◌, ◌⊎◌, inl, inr, Bool, true, false, ◌||◌, Option, none, some, List,
  [], ◌∷◌, ◌++◌, append-nil, append_assoc, subst, if◌then◌else◌, ltb, leb, length, take, drop,
  is_some, All, All-append, Error, timeout, zero, ok, err, Bool-cases, Option-cases, arith,
}
use immich_adapter.Sync.Fetch.Batches.{take-append-drop}
use immich_adapter.Upload.Pipe.Content.{
  content, is_ended, pending, content-append, is_ended-append, content-ended, content-after,
  is_ended-after, pending-append,
}
use immich_adapter.Upload.Pipe.{
  Bytes, Pipe, new_pipe, is_full, enqueue, Writer, put_check, put_enqueue, put_recheck, close_begin,
  close_check, close_enqueue, written, advance_writer, Failing, store, drain, signal, signalled,
  advance_failing, Reader, read_check, read_leftover, read_get, read_take, did_read, take_data,
  advance_reader,
}
use immich_adapter.Upload.Pipe.Runs.{
  System, entering, returned, move_writer, move_reader, move_failing, IsReading, Moves, starts_put,
  starts_close, starts_read, starts_error, writes, reads, fails, Reaches, here, next, new_system,
}

-- A reader that goes to the queue has no leftover.
abbrev pub HasEmptyHands : Reader → Bytes → Type 0
HasEmptyHands (read_get n) left = left ≡ []
HasEmptyHands (read_take n item) left = left ≡ []
HasEmptyHands r left = Unit {0}

abbrev pub IsAway : Reader → Type 0
IsAway (read_get n) = ⊥
IsAway (read_take n item) = ⊥
IsAway r = Unit {0}

-- After the end all is delivered; before it, without an error, what was sent is what was delivered, the
-- leftover, and what is pending; with an error, what was delivered is at least the start of it.
abbrev AtEnd : Pipe → Reader → List (Option Bytes) → Bytes → Type 0
AtEnd p r sent delivered =
    (p.eof ≡ true) × (content sent ≡ delivered) × (is_ended sent ≡ true) × IsAway r

abbrev pub InFlow : Pipe → Reader → List (Option Bytes) → Bytes → Type 0
InFlow p r sent delivered =
    (p.eof ≡ false)
    × HasEmptyHands r p.leftover
    × (p.error ≡ none)
    × (content sent ≡ (delivered ++ p.leftover) ++ content (pending r p.queue))
    × (is_ended sent ≡ is_ended (pending r p.queue))

abbrev Cut : Pipe → Reader → List (Option Bytes) → Bytes → Type 0
Cut p r sent delivered =
    (p.eof ≡ false)
    × HasEmptyHands r p.leftover
    × (is_some p.error ≡ true)
    × ((rest : Bytes) × (content sent ≡ (delivered ++ p.leftover) ++ rest))

abbrev pub Flow : Pipe → Reader → List (Option Bytes) → Bytes → Type 0
Flow p r sent delivered =
    AtEnd p r sent delivered ⊎ (InFlow p r sent delivered ⊎ Cut p r sent delivered)

-- The writer's step changes of the reader's side just the end of the queue.
pub advance_writer-queue :
    (w : Writer) (p : Pipe)
    → ((advance_writer w p).1.queue ≡ p.queue ++ entering w p)
      × ((advance_writer w p).1.error ≡ p.error)
      × ((advance_writer w p).1.leftover ≡ p.leftover)
      × ((advance_writer w p).1.eof ≡ p.eof)
      × ((advance_writer w p).1.maxsize ≡ p.maxsize)
unfolding advance_writer
advance_writer-queue (put_check c t) p = ground (arith, append-nil p.queue)
advance_writer-queue (put_enqueue c t) p = ground (arith, append-nil p.queue)
advance_writer-queue put_recheck p = ground (arith, append-nil p.queue)
advance_writer-queue close_begin p = ground (arith, append-nil p.queue)
advance_writer-queue (close_check t) p = ground (arith, append-nil p.queue)
advance_writer-queue (close_enqueue t) p = ground (arith, append-nil p.queue)
advance_writer-queue (written r) p = ground (arith, append-nil p.queue)

-- The writer's step
pub Flow-write :
    (w : Writer) (p : Pipe) (r : Reader) (sent : List (Option Bytes)) (delivered : Bytes)
    → Flow p r sent delivered
    → Flow (advance_writer w p).1 r (sent ++ entering w p) delivered
Flow-write w p r sent d h =
    let (kq, ke, kl, kf, km) = advance_writer-queue w p in
    let more = entering w p in
    elim h [
      | inl (f, c, i, a) ↦
          inl (kf ∙ f, content-ended sent more i ∙ c, is_ended-append sent more ∙ rw i refl, a)
      | inr (inl (f, e, n, c, i)) ↦ inr (
          inl (
            kf ∙ f,
            rw kl e,
            ke ∙ n,
            rw (kl, kq, pending-append r p.queue more)
                (content-after (d ++ p.leftover) sent more (pending r p.queue) c i),
            rw (kq, pending-append r p.queue more) (is_ended-after sent more (pending r p.queue) i),
          ))
      | inr (inr (f, e, n, cut)) ↦
          let (rest, c) = cut in
          inr (
            inr (
              kf ∙ f,
              rw kl e,
              rw ke n,
              (
                rest ++ (if is_ended sent then [] else content more),
                content-append sent more
                    ∙ rw (c, kl)
                        (append_assoc (d ++ p.leftover) rest
                          (if is_ended sent then [] else content more)),
              ),
            ))
    ]

-- A step of a call that sets an error, where the error is set already or is being set now
abbrev pub IsMarked : Option Error → Failing → Type 0
IsMarked e (store x) = Unit {0}
IsMarked e drain = is_some e ≡ true
IsMarked e (signal t) = is_some e ≡ true
IsMarked e signalled = Unit {0}

pub advance_failing-same :
    (f : Failing) (p : Pipe)
    → IsMarked p.error f
    → (is_some p.error ≡ true → is_some (advance_failing f p).1.error ≡ true)
      × IsMarked (advance_failing f p).1.error (advance_failing f p).0
      × ((advance_failing f p).1.leftover ≡ p.leftover)
      × ((advance_failing f p).1.eof ≡ p.eof)
      × ((is_some (advance_failing f p).1.error ≡ true) ⊎ ((advance_failing f p).1 ≡ p))
unfolding advance_failing
advance_failing-same (store e) p h = ground arith
advance_failing-same drain p h = ground arith
advance_failing-same (signal t) p h = ground arith
advance_failing-same signalled p h = ground arith

pub Flow-fail :
    (f : Failing) (p : Pipe) (r : Reader) (sent : List (Option Bytes)) (delivered : Bytes)
    → IsMarked p.error f
    → Flow p r sent delivered
    → Flow (advance_failing f p).1 r sent delivered
Flow-fail f p r sent d m h =
    let (ks, km, kl, kf, kc) = advance_failing-same f p m in
    elim kc [
      | inr same ↦ rw same h
      | inl set ↦ elim h [
        | inl (e, c, i, a) ↦ inl (kf ∙ e, c, i, a)
        | inr (inl (e, y, n, c, i)) ↦
            inr (inr (kf ∙ e, rw kl y, set, (content (pending r p.queue), rw kl c)))
        | inr (inr (e, y, n, cut)) ↦ inr (inr (kf ∙ e, rw kl y, set, rw kl cut))
      ]
    ]
