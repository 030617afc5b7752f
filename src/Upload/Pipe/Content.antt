-- ===== src/Upload/Pipe/Content.antt =====
-- services/streaming_pipe.py: the bytes that a queue of chunks and ends of the file holds.
use immich_adapter.Prelude.{
  ◌≡◌, refl, sym, ap, ◌∙◌, Bool, true, false, ◌||◌, Option, none, some, List, [], ◌∷◌, ◌++◌,
  append-nil, append_assoc, if◌then◌else◌, ℕ, zero, suc, ltb, length, take, drop, arith,
}
use immich_adapter.Sync.Fetch.Batches.{take-append-drop}
use immich_adapter.Upload.Pipe.{
  Bytes, Reader, read_check, read_leftover, read_get, read_take, did_read,
}

-- the bytes before the first end of the file
abbrev pub content : List (Option Bytes) → Bytes
content [] = []
content (none ∷ items) = []
content (some chunk ∷ items) = chunk ++ content items

abbrev pub is_ended : List (Option Bytes) → Bool
is_ended [] = false
is_ended (none ∷ items) = true
is_ended (some chunk ∷ items) = is_ended items

-- Items that come after an end of the file are not read.
pub content-append :
    (xs ys : List (Option Bytes))
    → content (xs ++ ys) ≡ content xs ++ (if is_ended xs then [] else content ys)
content-append [] ys = refl
content-append (none ∷ xs) ys = refl
content-append (some c ∷ xs) ys =
    ap (λ b. c ++ b) (content-append xs ys)
    ∙ sym (append_assoc c (content xs) (if is_ended xs then [] else content ys))

pub is_ended-append :
    (xs ys : List (Option Bytes)) → is_ended (xs ++ ys) ≡ (is_ended xs || is_ended ys)
is_ended-append [] ys = refl
is_ended-append (none ∷ xs) ys = refl
is_ended-append (some c ∷ xs) ys = is_ended-append xs ys

-- what is still to be read of the queue, with the item that the reader has just taken
abbrev pub pending : Reader → List (Option Bytes) → List (Option Bytes)
pending (read_take n item) queue = item ∷ queue
pending r queue = queue

-- Bytes that end at an earlier end of the file stay as they are when items are added.
pub content-ended :
    (xs ys : List (Option Bytes)) → is_ended xs ≡ true → content (xs ++ ys) ≡ content xs
content-ended xs ys h = content-append xs ys ∙ rw h (append-nil (content xs))

pub content-after :
    (front : Bytes) (sent more queue : List (Option Bytes))
    → content sent ≡ front ++ content queue
    → is_ended sent ≡ is_ended queue
    → content (sent ++ more) ≡ front ++ content (queue ++ more)
content-after front sent more queue h k =
    content-append sent more
    ∙ rw (h, k, content-append queue more)
        (append_assoc front (content queue) (if is_ended queue then [] else content more))

pub is_ended-after :
    (sent more queue : List (Option Bytes))
    → is_ended sent ≡ is_ended queue
    → is_ended (sent ++ more) ≡ is_ended (queue ++ more)
is_ended-after sent more queue k =
    rw (is_ended-append sent more, is_ended-append queue more, k) refl

pub pending-append :
    (r : Reader) (queue more : List (Option Bytes))
    → pending r (queue ++ more) ≡ pending r queue ++ more
pending-append (read_check n) queue more = refl
pending-append (read_leftover n) queue more = refl
pending-append (read_get n) queue more = refl
pending-append (read_take n item) queue more = refl
pending-append (did_read x) queue more = refl

-- A part served and its rest are the bytes that were there.
pub served :
    (n : ℕ) (d left rest : Bytes)
    → ((d ++ take n left) ++ drop n left) ++ rest ≡ (d ++ left) ++ rest
served n d left rest =
    ap (λ b. b ++ rest)
      (append_assoc d (take n left) (drop n left) ∙ ap (λ b. d ++ b) (take-append-drop n left))

-- A buffer that is large enough takes all.
pub take-all : (n : ℕ) (xs : Bytes) → ltb n (length xs) ≡ false → take n xs ≡ xs
take-all zero [] h = refl
take-all zero (x ∷ xs) h = ground arith
take-all (suc n) [] h = refl
take-all (suc n) (x ∷ xs) h = ap (λ r. x ∷ r) (take-all n xs (ground arith))
