-- ===== src/Upload/Pipe/Flow/Reads.antt =====
-- services/streaming_pipe.py: where the bytes of the writer are, at each step of the reader.
use immich_adapter.Prelude.{
  ℕ, ◌≡◌, refl, sym, ap, ◌∙◌, ◌⊎◌, inl, inr, true, false, Option, none, some, List, [], ◌∷◌, ◌++◌,
  append-nil, append_assoc, ltb, length, take, drop, Error, timeout, ok, err, Bool-cases,
  Option-cases, arith,
}
use immich_adapter.Upload.Pipe.Content.{served, take-all, content, is_ended}
use immich_adapter.Upload.Pipe.Flow.{InFlow, Flow}
use immich_adapter.Upload.Pipe.{
  Bytes, Pipe, Reader, read_check, read_leftover, read_get, read_take, did_read, take_data,
  advance_reader,
}
use immich_adapter.Upload.Pipe.Runs.{returned, IsReading}

List-cases {ℓ} :
    {A : Type ℓ} (xs : List A) → (xs ≡ []) ⊎ ((x : A) × (rest : List A) × (xs ≡ x ∷ rest))
List-cases [] = inl refl
List-cases (x ∷ xs) = inr (x, xs, refl)

-- The reader's step
check_moves :
    (n : ℕ) (p : Pipe)
    → ((e : Error) × (advance_reader (read_check n) p ≡ (did_read (err e), p)))
      ⊎ (advance_reader (read_check n) p ≡ (read_leftover n, p))
unfolding advance_reader
check_moves n p = elim (Option-cases p.error) [
  | inl k ↦ inr (rw k refl)
  | inr (e, k) ↦ inl (e, rw k refl)
]

Flow-check :
    (p : Pipe) (n : ℕ) (sent : List (Option Bytes)) (delivered : Bytes)
    → Flow p (read_check n) sent delivered
    → Flow
        (advance_reader (read_check n) p).1
        (advance_reader (read_check n) p).0
        sent
        (delivered ++ returned (advance_reader (read_check n) p).0)
Flow-check p n sent d h = elim (check_moves n p) [
  | inl (e, k) ↦ rw (k, append-nil d) h
  | inr k ↦ rw (k, append-nil d) h
]

-- An empty leftover lets the reader go on to the queue.
Flow-empty :
    (p : Pipe) (n : ℕ) (sent : List (Option Bytes)) (delivered : Bytes)
    → p.eof ≡ false
    → p.leftover ≡ []
    → Flow p (read_leftover n) sent delivered
    → Flow p (read_get n) sent delivered
Flow-empty p n sent d f l h = elim h [
  | inl (e, c, i, a) ↦ cc
  | inr (inl (e, y, k, c, i)) ↦ inr (inl (e, l, k, c, i))
  | inr (inr (e, y, k, cut)) ↦ inr (inr (e, l, k, cut))
]

-- A leftover is served in part, and the rest of it stays.
Flow-serve :
    (p : Pipe) (n : ℕ) (sent : List (Option Bytes)) (delivered : Bytes)
    → p.eof ≡ false
    → Flow p (read_leftover n) sent delivered
    → Flow
        (record p { leftover = drop n p.leftover })
        (did_read (ok (take n p.leftover)))
        sent
        (delivered ++ take n p.leftover)
Flow-serve p n sent d f h = elim h [
  | inl (e, c, i, a) ↦ cc
  | inr (inl (e, y, k, c, i)) ↦
      inr (inl (e, tt, k, c ∙ sym (served n d p.leftover (content p.queue)), i))
  | inr (inr (e, y, k, cut)) ↦
      let (rest, c) = cut in inr (inr (e, tt, k, (rest, c ∙ sym (served n d p.leftover rest))))
]

leftover_moves :
    (n : ℕ) (p : Pipe)
    → ((p.eof ≡ true) × (advance_reader (read_leftover n) p ≡ (did_read (ok []), p)))
      ⊎ ((p.eof ≡ false)
          × (p.leftover ≡ [])
          × (advance_reader (read_leftover n) p ≡ (read_get n, p)))
      ⊎ ((p.eof ≡ false)
          × (advance_reader (read_leftover n) p
              ≡ (did_read (ok (take n p.leftover)), record p { leftover = drop n p.leftover })))
unfolding advance_reader
leftover_moves n p = elim (Bool-cases p.eof) [
  | inl e ↦ inl (e, rw e refl)
  | inr e ↦ elim (List-cases p.leftover) [
    | inl l ↦ inr (inl (e, l, simp (e, l)))
    | inr (x, xs, l) ↦ inr (inr (e, simp (e, l)))
  ]
]

Flow-leftover :
    (p : Pipe) (n : ℕ) (sent : List (Option Bytes)) (delivered : Bytes)
    → Flow p (read_leftover n) sent delivered
    → Flow
        (advance_reader (read_leftover n) p).1
        (advance_reader (read_leftover n) p).0
        sent
        (delivered ++ returned (advance_reader (read_leftover n) p).0)
Flow-leftover p n sent d h = elim (leftover_moves n p) [
  | inl (e, k) ↦ rw (k, append-nil d) h
  | inr (inl (e, l, k)) ↦ rw (k, append-nil d) (Flow-empty p n sent d e l h)
  | inr (inr (e, k)) ↦ rw k (Flow-serve p n sent d e h)
]

get_moves :
    (n : ℕ) (p : Pipe)
    → (advance_reader (read_get n) p ≡ (did_read (err timeout), p))
      ⊎ ((item : Option Bytes) × (rest : List (Option Bytes)) × (p.queue ≡ item ∷ rest)
          × (advance_reader (read_get n) p ≡ (read_take n item, record p { queue = rest })))
unfolding advance_reader
get_moves n p = elim (List-cases p.queue) [
  | inl l ↦ inl (rw l refl)
  | inr (item, rest, l) ↦ inr (item, rest, l, rw l refl)
]

Flow-get :
    (p : Pipe) (n : ℕ) (sent : List (Option Bytes)) (delivered : Bytes)
    → Flow p (read_get n) sent delivered
    → Flow
        (advance_reader (read_get n) p).1
        (advance_reader (read_get n) p).0
        sent
        (delivered ++ returned (advance_reader (read_get n) p).0)
Flow-get p n sent d h = elim (get_moves n p) [
  | inl k ↦
      rw (k, append-nil d)
        (elim h [
          | inl (e, c, i, a) ↦ absurd a
          | inr (inl (e, y, f, c, i)) ↦ inr (inl (e, tt, f, c, i))
          | inr (inr (e, y, f, cut)) ↦ inr (inr (e, tt, f, cut))
        ])
  | inr (item, rest, q, k) ↦
      rw (k, append-nil d)
        (elim h [
          | inl (e, c, i, a) ↦ absurd a
          | inr (inl (e, y, f, c, i)) ↦
              inr (inl (e, y, f, c ∙ ap (λ x. (d ++ p.leftover) ++ content x) q, i ∙ ap is_ended q))
          | inr (inr (e, y, f, cut)) ↦ inr (inr (e, y, f, cut))
        ])
]

take_moves :
    (n : ℕ) (item : Option Bytes) (p : Pipe)
    → ((e : Error) × (p.error ≡ some e)
        × (advance_reader (read_take n item) p ≡ (did_read (err e), p)))
      ⊎ ((p.error ≡ none) × (advance_reader (read_take n item) p ≡ take_data n item p))
unfolding advance_reader
take_moves n item p = elim (Option-cases p.error) [
  | inl k ↦ inr (k, rw k refl)
  | inr (e, k) ↦ inl (e, k, rw k refl)
]

-- The reader hands out what it took from a pipe without an error.
Flow-take_data :
    (p : Pipe) (n : ℕ) (item : Option Bytes) (sent : List (Option Bytes)) (delivered : Bytes)
    → InFlow p (read_take n item) sent delivered
    → Flow
        (take_data n item p).1
        (take_data n item p).0
        sent
        (delivered ++ returned (take_data n item p).0)
Flow-take_data p n none sent d (e, y, f, c, i) = inl (refl, c ∙ rw y (append-nil (d ++ [])), i, tt)
Flow-take_data p n (some chunk) sent d (e, y, f, c, i) = elim (Bool-cases (ltb n (length chunk))) [
  | inl more ↦ rw more (
      inr (
        inl (
          e,
          tt,
          f,
          c
              ∙ rw (y, append-nil d)
                  (sym (append_assoc d chunk (content p.queue))
                    ∙ sym (served n d chunk (content p.queue))),
          i,
        )))
  | inr fits ↦
      rw (fits, take-all n chunk fits)
        (inr (
          inl (
            e,
            tt,
            f,
            c
                ∙ rw (y, append-nil d, append-nil (d ++ chunk))
                    (sym (append_assoc d chunk (content p.queue))),
            i,
          )))
]

Flow-take :
    (p : Pipe) (n : ℕ) (item : Option Bytes) (sent : List (Option Bytes)) (delivered : Bytes)
    → Flow p (read_take n item) sent delivered
    → Flow
        (advance_reader (read_take n item) p).1
        (advance_reader (read_take n item) p).0
        sent
        (delivered ++ returned (advance_reader (read_take n item) p).0)
Flow-take p n item sent d h = elim (take_moves n item p) [
  | inl (x, set, k) ↦
      rw (k, append-nil d)
        (elim h [
          | inl (e, c, i, a) ↦ absurd a
          | inr (inl (e, y, f, c, i)) ↦ cc
          | inr (inr (e, y, f, cut)) ↦ inr (inr (e, tt, f, cut))
        ])
  | inr (clear, k) ↦ rw k (elim h [
    | inl (e, c, i, a) ↦ absurd a
    | inr (inl (e, y, f, c, i)) ↦ Flow-take_data p n item sent d (e, y, f, c, i)
    | inr (inr (e, y, f, cut)) ↦ absurd (ground arith)
  ])
]

pub Flow-read :
    (p : Pipe) (r : Reader) (sent : List (Option Bytes)) (delivered : Bytes)
    → IsReading r
    → Flow p r sent delivered
    → Flow
        (advance_reader r p).1
        (advance_reader r p).0
        sent
        (delivered ++ returned (advance_reader r p).0)
Flow-read p (read_check n) sent d m h = Flow-check p n sent d h
Flow-read p (read_leftover n) sent d m h = Flow-leftover p n sent d h
Flow-read p (read_get n) sent d m h = Flow-get p n sent d h
Flow-read p (read_take n item) sent d m h = Flow-take p n item sent d h
Flow-read p (did_read x) sent d m h = absurd m
