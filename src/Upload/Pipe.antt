-- ===== src/Upload/Pipe.antt =====
-- services/streaming_pipe.py: the pipe between the parser's thread and the upload's thread. The
-- methods are programs of atomic steps, so that the steps of several threads can be interleaved: a
-- step touches the queue or the stored error once. A call that waits on the queue is one step, taken
-- when the wait ends; `queue.Full` and `queue.Empty` are its outcomes where the queue is then still
-- full or empty.
pub mod Runs
pub mod Content
pub mod Flow
pub mod Fifo
pub mod Bound
pub mod Waits
use immich_adapter.Prelude.{
  ℕ, zero, suc, ◌+◌, Bool, true, false, ◌&&◌, Option, none, some, List, [], ◌∷◌, ◌++◌, ltb, leb,
  if◌then◌else◌, length, take, drop, Error, Result, ok, err, timeout,
}

abbrev pub Bytes : Type 0
Bytes = List ℕ

abbrev pub stall_timeout_seconds : ℕ
stall_timeout_seconds = 300

-- `None` in the queue is the writer's end of the file, or the wake-up of `set_error`.
pub record Pipe : Type 0 where
  pub maxsize : ℕ
  pub queue : List (Option Bytes)
  pub error : Option Error
  pub leftover : Bytes
  pub writer_closed : Bool
  pub eof : Bool

abbrev pub new_pipe : ℕ → Pipe
new_pipe n = record {
  maxsize = n;
  queue = [];
  error = none;
  leftover = [];
  writer_closed = false;
  eof = false;
}

-- `Queue.full`; a queue of maxsize 0 has no bound.
abbrev pub is_full : Pipe → Bool
is_full p = ltb 0 p.maxsize && leb p.maxsize (length p.queue)

abbrev pub enqueue : Option Bytes → Pipe → Pipe
enqueue item p = record p { queue = p.queue ++ item ∷ [] }

-- where a thread stands in `put` or `close_writer`, with the seconds waited so far
pub data Writer : Type 0 where
  put_check put_enqueue : Bytes → ℕ → Writer
  put_recheck close_begin : Writer
  close_check close_enqueue : ℕ → Writer
  written : Result (Unit {0}) → Writer

-- `elapsed += 1` after a wait, and the test of the limit
abbrev pub waited {ℓ} : {A : Type ℓ} → ℕ → A → A → A
waited elapsed again stalled = if leb stall_timeout_seconds (elapsed + 1) then stalled else again

unfoldable pub start_put : Bytes → Writer
start_put [] = written (ok tt)
start_put (x ∷ xs) = put_check (x ∷ xs) 0

unfoldable pub advance_writer : Writer → Pipe → Writer × Pipe
advance_writer (put_check chunk elapsed) p = elim p.error [
  | some e ↦ (written (err e), p)
  | none ↦ (put_enqueue chunk elapsed, p)
]
advance_writer (put_enqueue chunk elapsed) p =
    if is_full p
    then (waited elapsed (put_check chunk (suc elapsed)) (written (err timeout)), p)
    else (put_recheck, enqueue (some chunk) p)
advance_writer put_recheck p = elim p.error [
  | some e ↦ (written (err e), p)
  | none ↦ (written (ok tt), p)
]
advance_writer close_begin p =
    if p.writer_closed
    then (written (ok tt), p)
    else (close_check 0, record p { writer_closed = true })
advance_writer (close_check elapsed) p = elim p.error [
  | some e ↦ (written (ok tt), p)
  | none ↦ (close_enqueue elapsed, p)
]
advance_writer (close_enqueue elapsed) p =
    if is_full p
    then (waited elapsed (close_check (suc elapsed)) (written (err timeout)), p)
    else (written (ok tt), enqueue none p)
advance_writer (written r) p = (written r, p)

-- where a thread stands in `set_error`
pub data Failing : Type 0 where
  store : Error → Failing
  drain : Failing
  signal : ℕ → Failing
  signalled : Failing

unfoldable pub advance_failing : Failing → Pipe → Failing × Pipe
advance_failing (store e) p = (drain, record p { error = some e })
advance_failing drain p = elim p.queue [
  | [] ↦ (signal 0, p)
  | item ∷ rest ↦ (drain, record p { queue = rest })
]
advance_failing (signal elapsed) p =
    if is_full p
    then (waited elapsed (signal (suc elapsed)) signalled, p)
    else (signalled, enqueue none p)
advance_failing signalled p = (signalled, p)

-- where a thread stands in `readinto` with a buffer of so many bytes; what was read is the part of the
-- buffer that the returned count covers
pub data Reader : Type 0 where
  read_check read_leftover read_get : ℕ → Reader
  read_take : ℕ → Option Bytes → Reader
  did_read : Result Bytes → Reader

abbrev pub take_data : ℕ → Option Bytes → Pipe → Reader × Pipe
take_data n none p = (did_read (ok []), record p { eof = true })
take_data n (some chunk) p =
    if ltb n (length chunk)
    then (did_read (ok (take n chunk)), record p { leftover = drop n chunk })
    else (did_read (ok (take n chunk)), p)

unfoldable pub advance_reader : Reader → Pipe → Reader × Pipe
advance_reader (read_check n) p = elim p.error [
  | some e ↦ (did_read (err e), p)
  | none ↦ (read_leftover n, p)
]
advance_reader (read_leftover n) p = if p.eof then (did_read (ok []), p) else elim p.leftover [
  | [] ↦ (read_get n, p)
  | x ∷ xs ↦ (did_read (ok (take n (x ∷ xs))), record p { leftover = drop n (x ∷ xs) })
]
advance_reader (read_get n) p = elim p.queue [
  | [] ↦ (did_read (err timeout), p)
  | item ∷ rest ↦ (read_take n item, record p { queue = rest })
]
advance_reader (read_take n item) p = elim p.error [
  | some e ↦ (did_read (err e), p)
  | none ↦ take_data n item p
]
advance_reader (did_read r) p = (did_read r, p)
