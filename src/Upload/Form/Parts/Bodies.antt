-- ===== src/Upload/Form/Parts/Bodies.antt =====
-- services/streaming_form_parser.py: the callbacks of a part's header lines and of its body.
use immich_adapter.Prelude.{
  ◌⊎◌, ℕ, ◌+◌, ◌≤◌, ◌<◌, ◌≡◌, refl, ◌∙◌, String, true, false, List, [], ◌∷◌, ◌++◌, length,
  length-append, append_assoc, append-nil, ltb, if◌then◌else◌, string_eq, Dict, insert, Result, ok,
  err, value_error, resume, Bool-cases, inl, inr, arith, Result-cases,
}
use immich_adapter.Sync.Fetch.Batches.{concat}
use immich_adapter.Upload.Pipe.{Bytes}
use immich_adapter.Upload.Form.{
  Codecs, PipeCalls, Form, Callback, part_end, max_field_bytes, on_header_end, on_part_data,
  on_part_end, callback, run_callbacks, on_pipe,
}
use immich_adapter.Upload.Form.Parts.{
  Upload, view, line_calls, data_calls, headers_of, put_pieces, put_file, accept_field, seen_as,
}

is_within : (n : ℕ) → n ≤ 65536 → ltb max_field_bytes n ≡ false
is_within n h = ground arith

is_over : (n : ℕ) → 65536 < n → ltb max_field_bytes n ≡ true
is_over n h = ground arith

le_or_gt : (m n : ℕ) → (m ≤ n) ⊎ (n < m)
le_or_gt m n = ground arith

module _ (C : Codecs) where
  module _ {W : Type 0} (pipe : PipeCalls W) where
    pub run-append :
        (xs ys : List Callback) (s : Form × W)
        → run_callbacks C pipe (xs ++ ys) s
          ≡ resume
              (run_callbacks C pipe xs s).0
              (λ u. run_callbacks C pipe ys)
              (run_callbacks C pipe xs s).1
    unfolding run_callbacks
    run-append [] ys s = refl
    run-append (x ∷ xs) ys s = elim (Result-cases (callback C pipe x s).0) [
      | inl (u, k) ↦ rw k (run-append xs ys (callback C pipe x s).1)
      | inr (e, k) ↦ rw k refl
    ]

    -- What is seen after an exception is what is seen when it is raised.
    after_error :
        (cs : List Callback) (r : Result (Unit {0}) × (Form × W)) (u : Upload) (w : W)
        → seen_as C pipe r ≡ (err value_error, (u, w))
        → seen_as C pipe (resume r.0 (λ x. run_callbacks C pipe cs) r.1) ≡ (err value_error, (u, w))
    after_error cs (ok x, s) u w h = absurd (ground arith)
    after_error cs (err e, s) u w h = h

    -- a part's header lines
    abbrev pub with_headers : Dict String String → Form → Form
    with_headers headers f = record f { header_name = []; header_value = []; headers = headers }

    pub run-line_calls :
        (lines : List (Bytes × Bytes)) (found : Dict String String) (f : Form) (w : W)
        → run_callbacks C pipe (line_calls lines) (with_headers found f, w)
          ≡ (ok tt, (with_headers (headers_of C lines found) f, w))
    unfolding run_callbacks callback on_header_end
    run-line_calls [] found f w = refl
    run-line_calls ((name, value) ∷ lines) found f w =
        run-line_calls lines (insert (C.lower (C.latin1 name)) (C.latin1 value) found) f w

    on_part_data-file :
        (x : ℕ) (xs : Bytes) (f : Form) (w : W)
        → f.is_file ≡ true
        → on_part_data C pipe (x ∷ xs) (f, w) ≡ on_pipe C pipe (pipe.put (x ∷ xs)) (f, w)
    unfolding on_part_data
    on_part_data-file x xs f w h = simp h

    -- a file's pieces
    run-file_calls :
        (chunks : List Bytes) (f : Form) (w : W)
        → f.is_file ≡ true
        → run_callbacks C pipe (data_calls chunks) (f, w)
          ≡ ((put_pieces C pipe chunks w).0, (f, (put_pieces C pipe chunks w).1))
    unfolding run_callbacks callback on_part_data
    run-file_calls [] f w h = refl
    run-file_calls ([] ∷ chunks) f w h = run-file_calls chunks f w h
    run-file_calls ((x ∷ xs) ∷ chunks) f w h =
        rw (on_part_data-file x xs f w h) (elim (Result-cases (pipe.put (x ∷ xs) w).0) [
          | inl (u, k) ↦ rw k (run-file_calls chunks f (pipe.put (x ∷ xs) w).1 h)
          | inr (e, k) ↦ rw k refl
        ])

    abbrev with_data : Bytes → Form → Form
    with_data body f = record f { field_data = body }

    on_part_data-field :
        (x : ℕ) (xs body : Bytes) (f : Form) (w : W)
        → f.is_file ≡ false
        → on_part_data C pipe (x ∷ xs) (with_data body f, w) ≡ (
            if ltb max_field_bytes (length body + length (x ∷ xs))
            then (err value_error, (with_data body f, w))
            else (ok tt, (with_data (body ++ x ∷ xs) f, w)))
    unfolding on_part_data
    on_part_data-field x xs body f w h = simp h

    -- the pieces of a field that together are within the limit
    run-field_calls :
        (chunks : List Bytes) (body : Bytes) (f : Form) (w : W)
        → f.is_file ≡ false
        → length body + length (concat chunks) ≤ 65536
        → run_callbacks C pipe (data_calls chunks) (with_data body f, w)
          ≡ (ok tt, (with_data (body ++ concat chunks) f, w))
    unfolding run_callbacks callback on_part_data
    run-field_calls [] body f w h k = rw (append-nil body) refl
    run-field_calls ([] ∷ chunks) body f w h k = run-field_calls chunks body f w h k
    run-field_calls ((x ∷ xs) ∷ chunks) body f w h k =
        rw
          (
            on_part_data-field x xs body f w h,
            is_within (length body + length (x ∷ xs))
                (omega (arith, k, length-append (x ∷ xs) (concat chunks))),
          )
          (run-field_calls chunks (body ++ x ∷ xs) f w h (
              omega (arith, k, length-append (x ∷ xs) (concat chunks), length-append body (x ∷ xs)))
            ∙ rw (append_assoc body (x ∷ xs) (concat chunks)) refl)

    -- the pieces of a field that together are over the limit
    run-field_calls-long :
        (chunks : List Bytes) (body : Bytes) (f : Form) (w : W)
        → f.is_file ≡ false
        → length body ≤ 65536
        → 65536 < length body + length (concat chunks)
        → seen_as C pipe (run_callbacks C pipe (data_calls chunks) (with_data body f, w))
          ≡ (err value_error, (view f, w))
    unfolding run_callbacks callback on_part_data
    run-field_calls-long [] body f w h l k = absurd (omega (arith, l, k))
    run-field_calls-long ([] ∷ chunks) body f w h l k = run-field_calls-long chunks body f w h l k
    run-field_calls-long ((x ∷ xs) ∷ chunks) body f w h l k =
        elim (Bool-cases (ltb max_field_bytes (length body + length (x ∷ xs)))) [
          | inl over ↦ rw (on_part_data-field x xs body f w h, over) refl
          | inr within ↦
              rw (on_part_data-field x xs body f w h, within)
                (run-field_calls-long chunks (body ++ x ∷ xs) f w h
                  (ground (arith, length-append body (x ∷ xs)))
                  (omega (
                    arith,
                    k,
                    length-append (x ∷ xs) (concat chunks),
                    length-append body (x ∷ xs),
                  )))
        ]

    pub run-field :
        (chunks : List Bytes) (f : Form) (w : W)
        → f.is_file ≡ false
        → seen_as C pipe
            (run_callbacks C pipe (data_calls chunks ++ part_end ∷ []) (with_data [] f, w))
          ≡ accept_field C pipe f.field_name (concat chunks) (view f, w)
    unfolding run_callbacks callback on_part_end
    run-field chunks f w h = elim (le_or_gt (length (concat chunks)) 65536) [
      | inl fits ↦
          rw
            (
              run-append (data_calls chunks) (part_end ∷ []) (with_data [] f, w),
              run-field_calls chunks [] f w h (omega (arith, fits)),
              is_within (length (concat chunks)) fits,
            )
            (simp h)
      | inr long ↦
          rw
            (
              run-append (data_calls chunks) (part_end ∷ []) (with_data [] f, w),
              is_over (length (concat chunks)) long,
            )
            (after_error (part_end ∷ [])
              (run_callbacks C pipe (data_calls chunks) (with_data [] f, w)) (view f) w
              (run-field_calls-long chunks [] f w h (omega arith) (omega (arith, long))))
    ]

    close-file :
        (f : Form) (w : W)
        → f.is_file ≡ true
        → seen_as C pipe (run_callbacks C pipe (part_end ∷ []) (f, w))
          ≡ ((pipe.close_writer w).0, (view f, (pipe.close_writer w).1))
    unfolding run_callbacks callback on_part_end
    close-file f w h = elim (Result-cases (pipe.close_writer w).0) [
      | inl (u, k) ↦ simp (h, k)
      | inr (e, k) ↦ simp (h, k)
    ]

    pub run-file :
        (chunks : List Bytes) (f : Form) (w : W)
        → f.is_file ≡ true
        → seen_as C pipe (run_callbacks C pipe (data_calls chunks ++ part_end ∷ []) (f, w))
          ≡ ((put_file C pipe chunks w).0, (view f, (put_file C pipe chunks w).1))
    unfolding run_callbacks callback on_part_end
    run-file chunks f w h =
        rw (run-append (data_calls chunks) (part_end ∷ []) (f, w), run-file_calls chunks f w h)
          (elim (Result-cases (put_pieces C pipe chunks w).0) [
            | inl (u, k) ↦ rw k (close-file f (put_pieces C pipe chunks w).1 h)
            | inr (e, k) ↦ rw k refl
          ])
