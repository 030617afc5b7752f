-- ===== src/Upload/Pipe/Runs.antt =====
-- services/streaming_pipe.py: runs of one writing thread, one reading thread and any number of threads
-- that set an error, in any interleaving of their steps.
use immich_adapter.Prelude.{
  ℕ, ◌≡◌, Option, none, some, List, [], ◌∷◌, ◌++◌, if◌then◌else◌, Error, Result, ok,
}
use immich_adapter.Upload.Pipe.{
  Bytes, Pipe, new_pipe, is_full, Writer, put_enqueue, close_enqueue, close_begin, written,
  start_put, advance_writer, Failing, store, advance_failing, Reader, read_check, did_read,
  advance_reader,
}

-- `sent` is what the writer has put into the queue and `delivered` what the reader has returned, from
-- the start.
pub record System : Type 0 where
  pub pipe : Pipe
  pub writer : Writer
  pub reader : Reader
  pub failing : List Failing
  pub sent : List (Option Bytes)
  pub delivered : Bytes

-- what the writer's next step puts into the queue
abbrev pub entering : Writer → Pipe → List (Option Bytes)
entering (put_enqueue chunk elapsed) p = if is_full p then [] else some chunk ∷ []
entering (close_enqueue elapsed) p = if is_full p then [] else none ∷ []
entering w p = []

-- what a reader that has just moved there returns
abbrev pub returned : Reader → Bytes
returned (did_read (ok chunk)) = chunk
returned r = []

abbrev pub move_writer : System → System
move_writer s = record s {
  writer = (advance_writer s.writer s.pipe).0;
  pipe = (advance_writer s.writer s.pipe).1;
  sent = s.sent ++ entering s.writer s.pipe;
}

abbrev pub move_reader : System → System
move_reader s = record s {
  reader = (advance_reader s.reader s.pipe).0;
  pipe = (advance_reader s.reader s.pipe).1;
  delivered = s.delivered ++ returned (advance_reader s.reader s.pipe).0;
}

abbrev pub move_failing : List Failing → Failing → List Failing → System → System
move_failing before f after s = record s {
  failing = before ++ (advance_failing f s.pipe).0 ∷ after;
  pipe = (advance_failing f s.pipe).1;
}

abbrev pub IsReading : Reader → Type 0
IsReading (did_read r) = ⊥
IsReading r = Unit {0}

-- What the pipe's threads may do next. The writer and the reader each make one call at a time; an
-- error may be set by any thread at any time.
pub data Moves : System → System → Type 0 where
  starts_put :
      (s : System) (r : Result (Unit {0})) (chunk : Bytes)
      → s.writer ≡ written r
      → Moves s (record s { writer = start_put chunk })
  starts_close :
      (s : System) (r : Result (Unit {0}))
      → s.writer ≡ written r
      → Moves s (record s { writer = close_begin })
  starts_read :
      (s : System) (r : Result Bytes) (n : ℕ)
      → s.reader ≡ did_read r
      → Moves s (record s { reader = read_check n })
  starts_error : (s : System) (e : Error) → Moves s (record s { failing = store e ∷ s.failing })
  writes : (s : System) → Moves s (move_writer s)
  reads : (s : System) → IsReading s.reader → Moves s (move_reader s)
  fails :
      (s : System) (before after : List Failing) (f : Failing)
      → s.failing ≡ before ++ f ∷ after
      → Moves s (move_failing before f after s)

pub data Reaches (s : System) : System → Type 0 where
  here : Reaches s s
  next : {t u : System} → Reaches s t → Moves t u → Reaches s u

-- a new pipe, before any call
abbrev pub new_system : ℕ → System
new_system n = record {
  pipe = new_pipe n;
  writer = written (ok tt);
  reader = did_read (ok []);
  failing = [];
  sent = [];
  delivered = [];
}
