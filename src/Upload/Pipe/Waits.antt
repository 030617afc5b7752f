-- ===== src/Upload/Pipe/Waits.antt =====
-- services/streaming_pipe.py: how long a call of a thread can take, whatever the other threads do.
use immich_adapter.Prelude.{
  length, ℕ, suc, ◌+◌, ◌-◌, ◌*◌, ◌≤◌, ◌≡◌, true, List, [], ◌∷◌, is_some, ok, err, arith,
}
use immich_adapter.Upload.Pipe.{
  Pipe, Writer, put_check, put_enqueue, put_recheck, close_begin, close_check, close_enqueue,
  written, advance_writer, Reader, read_check, read_leftover, read_get, read_take, did_read,
  advance_reader,
}

-- the writer's own steps, each on the pipe as the other threads have left it
abbrev pub writes_on : List Pipe → Writer → Writer
writes_on [] w = w
writes_on (p ∷ ps) w = writes_on ps (advance_writer w p).0

abbrev pub reads_on : List Pipe → Reader → Reader
reads_on [] r = r
reads_on (p ∷ ps) r = reads_on ps (advance_reader r p).0

abbrev pub IsWritten : Writer → Type 0
IsWritten (written r) = Unit {0}
IsWritten w = ⊥

-- a bound for the steps that the writer has left
abbrev writes_left : Writer → ℕ
writes_left (put_check c t) = suc (2 + 2 * (300 - t))
writes_left (put_enqueue c t) = 2 + 2 * (300 - t)
writes_left put_recheck = 1
writes_left close_begin = 604
writes_left (close_check t) = suc (2 + 2 * (300 - t))
writes_left (close_enqueue t) = 2 + 2 * (300 - t)
writes_left (written r) = 0

advance_writer-left :
    (w : Writer) (p : Pipe) → writes_left (advance_writer w p).0 ≤ writes_left w - 1
unfolding advance_writer
advance_writer-left (put_check c t) p = ground arith
advance_writer-left (put_enqueue c t) p = ground arith
advance_writer-left put_recheck p = ground arith
advance_writer-left close_begin p = ground arith
advance_writer-left (close_check t) p = ground arith
advance_writer-left (close_enqueue t) p = ground arith
advance_writer-left (written r) p = ground arith

writes_left-zero : (w : Writer) → writes_left w ≤ 0 → IsWritten w
writes_left-zero (put_check c t) h = absurd (omega (arith, h))
writes_left-zero (put_enqueue c t) h = absurd (omega (arith, h))
writes_left-zero put_recheck h = absurd (omega (arith, h))
writes_left-zero close_begin h = absurd (omega (arith, h))
writes_left-zero (close_check t) h = absurd (omega (arith, h))
writes_left-zero (close_enqueue t) h = absurd (omega (arith, h))
writes_left-zero (written r) h = tt

writes_on-left :
    (ps : List Pipe) (w : Writer) → writes_left (writes_on ps w) ≤ writes_left w - length ps
writes_on-left [] w = omega arith
writes_on-left (p ∷ ps) w =
    omega (arith, writes_on-left ps (advance_writer w p).0, advance_writer-left w p)

writes_left_bound : (w : Writer) → writes_left w ≤ 604
writes_left_bound (put_check c t) = omega arith
writes_left_bound (put_enqueue c t) = omega arith
writes_left_bound put_recheck = omega arith
writes_left_bound close_begin = omega arith
writes_left_bound (close_check t) = omega arith
writes_left_bound (close_enqueue t) = omega arith
writes_left_bound (written r) = omega arith

-- A `put` or `close_writer` has returned or raised after 604 steps of its thread, wherever it stands
-- and whatever the other threads make of the pipe between its steps.
pub writes_on-IsWritten :
    (ps : List Pipe) (w : Writer) → 604 ≤ length ps → IsWritten (writes_on ps w)
writes_on-IsWritten ps w h =
    writes_left-zero (writes_on ps w) (omega (arith, h, writes_on-left ps w, writes_left_bound w))

-- where the writer stands in a `put`
abbrev pub IsPutting : Writer → Type 0
IsPutting (put_check c t) = Unit {0}
IsPutting (put_enqueue c t) = Unit {0}
IsPutting put_recheck = Unit {0}
IsPutting w = ⊥

abbrev pub HasRaised : Writer → Type 0
HasRaised (written (err e)) = Unit {0}
HasRaised w = ⊥

-- where the reader stands in a `readinto`, with nothing to serve but what comes from the queue
abbrev pub IsAwaiting : Reader → Type 0
IsAwaiting (read_check n) = Unit {0}
IsAwaiting (read_get n) = Unit {0}
IsAwaiting (read_take n item) = Unit {0}
IsAwaiting r = ⊥

abbrev pub HasFailed : Reader → Type 0
HasFailed (did_read (err e)) = Unit {0}
HasFailed r = ⊥

abbrev pub HasError : Pipe → Type 0
HasError p = is_some p.error ≡ true

HasRaised-advance_writer : (w : Writer) (p : Pipe) → HasRaised w → HasRaised (advance_writer w p).0
unfolding advance_writer
HasRaised-advance_writer (written (err e)) p h = tt
HasRaised-advance_writer (put_check c t) p h = absurd h
HasRaised-advance_writer (put_enqueue c t) p h = absurd h
HasRaised-advance_writer put_recheck p h = absurd h
HasRaised-advance_writer close_begin p h = absurd h
HasRaised-advance_writer (close_check t) p h = absurd h
HasRaised-advance_writer (close_enqueue t) p h = absurd h
HasRaised-advance_writer (written (ok x)) p h = absurd h

HasRaised-writes_on : (ps : List Pipe) (w : Writer) → HasRaised w → HasRaised (writes_on ps w)
HasRaised-writes_on [] w h = h
HasRaised-writes_on (p ∷ ps) w h =
    HasRaised-writes_on ps (advance_writer w p).0 (HasRaised-advance_writer w p h)

HasFailed-advance_reader : (r : Reader) (p : Pipe) → HasFailed r → HasFailed (advance_reader r p).0
unfolding advance_reader
HasFailed-advance_reader (did_read (err e)) p h = tt
HasFailed-advance_reader (read_check n) p h = absurd h
HasFailed-advance_reader (read_leftover n) p h = absurd h
HasFailed-advance_reader (read_get n) p h = absurd h
HasFailed-advance_reader (read_take n item) p h = absurd h
HasFailed-advance_reader (did_read (ok x)) p h = absurd h

HasFailed-reads_on : (ps : List Pipe) (r : Reader) → HasFailed r → HasFailed (reads_on ps r)
HasFailed-reads_on [] r h = h
HasFailed-reads_on (p ∷ ps) r h =
    HasFailed-reads_on ps (advance_reader r p).0 (HasFailed-advance_reader r p h)

writer_raises :
    (p q : Pipe) (w : Writer)
    → HasError p
    → HasError q
    → IsPutting w
    → HasRaised (writes_on (p ∷ q ∷ []) w)
unfolding advance_writer
writer_raises p q (put_check c t) hp hq k = ground arith
writer_raises p q (put_enqueue c t) hp hq k = ground arith
writer_raises p q put_recheck hp hq k = ground arith
writer_raises p q close_begin hp hq k = absurd k
writer_raises p q (close_check t) hp hq k = absurd k
writer_raises p q (close_enqueue t) hp hq k = absurd k
writer_raises p q (written x) hp hq k = absurd k

reader_raises :
    (p q : Pipe) (r : Reader)
    → HasError p
    → HasError q
    → IsAwaiting r
    → HasFailed (reads_on (p ∷ q ∷ []) r)
unfolding advance_reader
reader_raises p q (read_check n) hp hq k = ground arith
reader_raises p q (read_get n) hp hq k = ground arith
reader_raises p q (read_take n item) hp hq k = ground arith
reader_raises p q (read_leftover n) hp hq k = absurd k
reader_raises p q (did_read x) hp hq k = absurd k

-- Where the pipe has an error from a thread's next step on, a writer in a `put` raises within two of
-- its steps, and so does a reader that waits for the queue or begins to read; neither returns.
pub error-unblocks :
    (p q : Pipe) (ps : List Pipe) (w : Writer) (r : Reader)
    → HasError p
    → HasError q
    → IsPutting w
    → IsAwaiting r
    → HasRaised (writes_on (p ∷ q ∷ ps) w) × HasFailed (reads_on (p ∷ q ∷ ps) r)
error-unblocks p q ps w r hp hq hw hr = (
  HasRaised-writes_on ps (writes_on (p ∷ q ∷ []) w) (writer_raises p q w hp hq hw),
  HasFailed-reads_on ps (reads_on (p ∷ q ∷ []) r) (reader_raises p q r hp hq hr),
)
