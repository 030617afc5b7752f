-- ===== src/Tests/Uploads.antt =====
-- The theorems of the streamed upload, at concrete inputs.
use immich_adapter.Prelude.{
  ℕ, zero, suc, ◌≤◌, ◌+◌, ◌≡◌, refl, String, true, Option, none, some, List, [], ◌∷◌, ◌++◌, length,
  if◌then◌else◌, ◌==◌, string_eq, number_eq, ok, transport, arith,
}
use immich_adapter.Upload.Pipe.{
  Bytes, Pipe, new_pipe, put_enqueue, close_begin, Reader, read_get, start_put, advance_reader,
  advance_writer,
}
use immich_adapter.Upload.Pipe.Runs.{
  System, new_system, move_writer, move_reader, starts_put, starts_read, writes, reads, Reaches,
  here, next,
}
use immich_adapter.Upload.Pipe.Fifo.{IsDelivered, run-IsDelivered}
use immich_adapter.Upload.Pipe.Bound.{held, queue-bounded}
use immich_adapter.Upload.Pipe.Waits.{
  writes_on, reads_on, IsWritten, HasRaised, HasFailed, writes_on-IsWritten, error-unblocks,
}
use immich_adapter.Upload.Form.{
  Codecs, PipeCalls, new_form, run_callbacks, run_parser, lacks_required,
}
use immich_adapter.Upload.Form.Keeps.{Ends, run_parser-Ends}
use immich_adapter.Upload.Form.Parts.{Part, calls_of_all, view, accept_all, seen_as}
use immich_adapter.Upload.Form.Parts.Whole.{run-parts}

-- two bytes are put, and the reader reads one of them
abbrev s0 : System
s0 = new_system 2

abbrev s1 : System
s1 = record s0 { writer = start_put (7 ∷ 8 ∷ []) }

abbrev s2 : System
s2 = move_writer (move_writer (move_writer s1))

abbrev s3 : System
s3 = record s2 { reader = Reader.read_check 1 }

abbrev s4 : System
s4 = move_reader (move_reader (move_reader (move_reader s3)))

one_read : Reaches (new_system 2) s4
unfolding start_put advance_reader advance_writer
one_read =
    next
      (next
        (next
          (next
            (next
              (next
                (next (next (next here (starts_put s0 (ok tt) (7 ∷ 8 ∷ []) refl)) (writes s1))
                  (writes (move_writer s1)))
                (writes (move_writer (move_writer s1))))
              (starts_read s2 (ok []) 1 refl))
            (reads s3 tt))
          (reads (move_reader s3) tt))
        (reads (move_reader (move_reader s3)) tt))
      (reads (move_reader (move_reader (move_reader s3))) tt)

one_byte_read : s4.delivered ≡ 7 ∷ []
unfolding start_put advance_reader advance_writer
one_byte_read = refl

run-IsDelivered_example : IsDelivered s4
run-IsDelivered_example = run-IsDelivered {n = 2} {t = s4} one_read

queue-bounded_example : (length s4.pipe.queue ≤ 2) × (held s4.reader s4.pipe ≤ 2 + 1)
queue-bounded_example = queue-bounded {n = 2} {t = s4} (omega arith) one_read

abbrev times : ℕ → Pipe → List Pipe
times zero p = []
times (suc n) p = p ∷ times n p

length-times : (n : ℕ) (p : Pipe) → length (times n p) ≡ n
length-times zero p = refl
length-times (suc n) p = omega (arith, length-times n p)

-- a pipe of one chunk that is full
abbrev full_pipe : Pipe
full_pipe = record (new_pipe 1) { queue = some (1 ∷ []) ∷ [] }

writes_on-IsWritten_example : IsWritten (writes_on (times 604 full_pipe) close_begin)
writes_on-IsWritten_example =
    writes_on-IsWritten (times 604 full_pipe) close_begin
      (omega (arith, length-times 604 full_pipe))

abbrev failed_pipe : Pipe
failed_pipe = record (new_pipe 1) { error = some transport }

error-unblocks_example :
    HasRaised (writes_on (failed_pipe ∷ failed_pipe ∷ []) (put_enqueue (1 ∷ []) 0))
    × HasFailed (reads_on (failed_pipe ∷ failed_pipe ∷ []) (read_get 5))
error-unblocks_example =
    error-unblocks failed_pipe failed_pipe [] (put_enqueue (1 ∷ []) 0) (read_get 5) refl refl tt tt

-- a pipe that keeps what is put into it
abbrev kept : PipeCalls (List (Option Bytes))
kept = record {
  put = λ c w. (ok tt, w ++ some c ∷ []);
  close_writer = λ w. (ok tt, w ++ none ∷ []);
  set_error = λ e w. [];
}

abbrev text_of : Bytes → String
text_of [] = ""
text_of (b ∷ bs) =
    if b == 1
    then "content-disposition"
    else if b == 2
    then "field"
    else if b == 3
    then "file"
    else if b == 4
    then "fileCreatedAt"
    else if b == 5
    then "assetData"
    else "photo.jpg"

-- texts of one byte
abbrev codecs : Codecs
codecs = record {
  latin1 = text_of;
  latin1_bytes = λ s. if s == "file" then 3 ∷ [] else 2 ∷ [];
  utf8_bytes = λ s. [];
  utf8 = text_of;
  lower = λ s. s;
  options = λ b.
      if text_of b == "file"
      then ("name", 5 ∷ []) ∷ ("filename", 6 ∷ []) ∷ []
      else ("name", 4 ∷ []) ∷ [];
}

abbrev parts : List Part
parts =
    record { lines = (1 ∷ [], 2 ∷ []) ∷ []; chunks = (6 ∷ []) ∷ [] }
    ∷ record { lines = (1 ∷ [], 3 ∷ []) ∷ []; chunks = (1 ∷ 2 ∷ []) ∷ [] ∷ (3 ∷ []) ∷ [] }
    ∷ []

both_pieces :
    (accept_all codecs kept parts (view new_form, [])).1.1
    ≡ some (1 ∷ 2 ∷ []) ∷ some (3 ∷ []) ∷ none ∷ []
unfolding lacks_required
both_pieces = refl

run-parts_example :
    seen_as codecs kept (run_callbacks codecs kept (calls_of_all parts) (new_form, []))
    ≡ accept_all codecs kept parts (view new_form, [])
run-parts_example = run-parts codecs kept parts new_form []

run_parser-Ends_example :
    ((run_parser codecs kept (calls_of_all parts) (ok tt) (new_form, [])).1.1.headers_ready ≡ true)
    × Ends codecs kept (run_parser codecs kept (calls_of_all parts) (ok tt) (new_form, []))
run_parser-Ends_example = run_parser-Ends codecs kept (calls_of_all parts) (ok tt) []
