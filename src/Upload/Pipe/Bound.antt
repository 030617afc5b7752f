-- ===== src/Upload/Pipe/Bound.antt =====
-- services/streaming_pipe.py: the number of chunks that the pipe and its reader hold.
use immich_adapter.Prelude.{
  ℕ, ◌+◌, ◌∙◌, ◌≤◌, ◌<◌, ◌≡◌, refl, none, some, [], ◌∷◌, length, length-append, arith,
}
use immich_adapter.Upload.Pipe.{
  Bytes, Pipe, Writer, put_check, put_enqueue, put_recheck, close_begin, close_check, close_enqueue,
  written, advance_writer, Failing, store, drain, signal, signalled, advance_failing, Reader,
  read_check, read_leftover, read_get, read_take, did_read, advance_reader,
}
use immich_adapter.Upload.Pipe.Runs.{
  System, Moves, starts_put, starts_close, starts_read, starts_error, writes, reads, fails, Reaches,
  here, next, new_system,
}

-- whether a part of a chunk is left over
abbrev pub rest_count : Bytes → ℕ
rest_count [] = 0
rest_count (x ∷ xs) = 1

-- the chunk that `readinto` has taken out of the queue and not yet copied
abbrev pub taken_count : Reader → ℕ
taken_count (read_take n (some chunk)) = 1
taken_count r = 0

-- the chunks that the pipe and its reader hold; what is left over of a chunk counts as one
abbrev pub held : Reader → Pipe → ℕ
held r p = length p.queue + rest_count p.leftover + taken_count r

-- A reader that goes to the queue has found nothing left over.
abbrev IsEmptyHanded : Reader → Pipe → Type 0
IsEmptyHanded (read_get n) p = p.leftover ≡ []
IsEmptyHanded (read_take n item) p = p.leftover ≡ []
IsEmptyHanded r p = Unit

-- The queue is within the bound that the pipe was made with.
abbrev IsWithin : ℕ → Pipe → Type 0
IsWithin n p = (p.maxsize ≡ n) × (length p.queue ≤ n)

writer-leftover : (w : Writer) (p : Pipe) → (advance_writer w p).1.leftover ≡ p.leftover
unfolding advance_writer
writer-leftover w p = ground arith

failing-leftover : (f : Failing) (p : Pipe) → (advance_failing f p).1.leftover ≡ p.leftover
unfolding advance_failing
failing-leftover f p = ground arith

IsEmptyHanded-same :
    (r : Reader) (p q : Pipe) → q.leftover ≡ p.leftover → IsEmptyHanded r p → IsEmptyHanded r q
IsEmptyHanded-same (read_get n) p q e h = e ∙ h
IsEmptyHanded-same (read_take n item) p q e h = e ∙ h
IsEmptyHanded-same (read_check n) p q e h = tt
IsEmptyHanded-same (read_leftover n) p q e h = tt
IsEmptyHanded-same (did_read x) p q e h = tt

IsEmptyHanded-reader :
    (r : Reader) (p : Pipe)
    → IsEmptyHanded r p
    → IsEmptyHanded (advance_reader r p).0 (advance_reader r p).1
unfolding advance_reader
IsEmptyHanded-reader r p h = ground arith

held_of_empty_handed :
    (r : Reader) (p : Pipe) → IsEmptyHanded r p → rest_count p.leftover + taken_count r ≤ 1
held_of_empty_handed r p h = ground arith

module _ (n : ℕ) (some_room : 0 < n) where
  IsWithin-writer : (w : Writer) (p : Pipe) → IsWithin n p → IsWithin n (advance_writer w p).1
  unfolding advance_writer
  IsWithin-writer (put_check c t) p h = ground arith
  IsWithin-writer (put_enqueue c t) p h = ground (arith, length-append p.queue (some c ∷ []))
  IsWithin-writer put_recheck p h = ground arith
  IsWithin-writer close_begin p h = ground arith
  IsWithin-writer (close_check t) p h = ground arith
  IsWithin-writer (close_enqueue t) p h = ground (arith, length-append p.queue (none ∷ []))
  IsWithin-writer (written r) p h = h

  IsWithin-failing : (f : Failing) (p : Pipe) → IsWithin n p → IsWithin n (advance_failing f p).1
  unfolding advance_failing
  IsWithin-failing (store e) p h = h
  IsWithin-failing drain p h = ground arith
  IsWithin-failing (signal t) p h = ground (arith, length-append p.queue (none ∷ []))
  IsWithin-failing signalled p h = h

  IsWithin-reader : (r : Reader) (p : Pipe) → IsWithin n p → IsWithin n (advance_reader r p).1
  unfolding advance_reader
  IsWithin-reader (read_check k) p h = ground arith
  IsWithin-reader (read_leftover k) p h = ground arith
  IsWithin-reader (read_get k) p h = ground arith
  IsWithin-reader (read_take k none) p h = ground arith
  IsWithin-reader (read_take k (some chunk)) p h = ground arith
  IsWithin-reader (did_read x) p h = h

  IsWithin-Moves : {s t : System} → Moves s t → IsWithin n s.pipe → IsWithin n t.pipe
  IsWithin-Moves (starts_put s r chunk e) h = h
  IsWithin-Moves (starts_close s r e) h = h
  IsWithin-Moves (starts_read s r k e) h = h
  IsWithin-Moves (starts_error s e) h = h
  IsWithin-Moves (writes s) h = IsWithin-writer s.writer s.pipe h
  IsWithin-Moves (reads s i) h = IsWithin-reader s.reader s.pipe h
  IsWithin-Moves (fails s before after f e) h = IsWithin-failing f s.pipe h

  IsWithin-Reaches : {t : System} → Reaches (new_system n) t → IsWithin n t.pipe
  IsWithin-Reaches here = (refl, omega arith)
  IsWithin-Reaches (next r m) = IsWithin-Moves m (IsWithin-Reaches r)

IsEmptyHanded-Moves :
    {s t : System} → Moves s t → IsEmptyHanded s.reader s.pipe → IsEmptyHanded t.reader t.pipe
IsEmptyHanded-Moves (starts_put s r chunk e) h = h
IsEmptyHanded-Moves (starts_close s r e) h = h
IsEmptyHanded-Moves (starts_read s r k e) h = tt
IsEmptyHanded-Moves (starts_error s e) h = h
IsEmptyHanded-Moves (writes s) h =
    IsEmptyHanded-same s.reader s.pipe (advance_writer s.writer s.pipe).1
      (writer-leftover s.writer s.pipe) h
IsEmptyHanded-Moves (reads s i) h = IsEmptyHanded-reader s.reader s.pipe h
IsEmptyHanded-Moves (fails s before after f e) h =
    IsEmptyHanded-same s.reader s.pipe (advance_failing f s.pipe).1 (failing-leftover f s.pipe) h

IsEmptyHanded-Reaches :
    {n : ℕ} {t : System} → Reaches (new_system n) t → IsEmptyHanded t.reader t.pipe
IsEmptyHanded-Reaches here = tt
IsEmptyHanded-Reaches (next r m) = IsEmptyHanded-Moves m (IsEmptyHanded-Reaches r)

-- In any run of a pipe made with a bound above 0, the queue never has more entries than the bound, and
-- the pipe with its reader never holds more than one chunk beyond it: the queue's entries, a chunk that
-- the reader has taken and not yet copied, and what is left over of a chunk that was read in part.
pub queue-bounded :
    {n : ℕ} {t : System}
    → 0 < n
    → Reaches (new_system n) t
    → (length t.pipe.queue ≤ n) × (held t.reader t.pipe ≤ n + 1)
queue-bounded {n} {t} h r =
    let queued = (IsWithin-Reaches n h r).1 in
    let other = held_of_empty_handed t.reader t.pipe (IsEmptyHanded-Reaches r) in
    (queued, omega (arith, queued, other))
