-- ===== src/Upload/Form/Keeps.antt =====
-- services/streaming_form_parser.py: what holds of the parser's state between its callbacks.
use immich_adapter.Prelude.{
  ◌≤◌, ◌≡◌, refl, String, Bool, true, false, not, Option, none, some, List, [], ◌∷◌, length,
  length-append, ◌==◌, string_eq, Dict, insert, lookup-insert, is_some, Result, ok, err, ◌⊎◌,
  resume_keeps, Result-cases, Bool-cases, inl, inr, arith, Error, value_error,
}
use immich_adapter.Upload.Form.{
  Codecs, PipeCalls, Form, new_form, Callback, part_begin, header_end, headers_finished, part_end,
  header_field, header_value_part, part_data, is_missing, on_part_begin, on_header_end,
  on_headers_finished, on_part_data, on_part_end, callback, run_callbacks, mark_finalized,
  finish_run, run_parser, lacks_required,
}

abbrev has_name : Option String → Bool
has_name none = false
has_name (some name) = not (name == "")

-- A field is within its limit, only a part that was taken as the file is a file, and where there is
-- one, it has a name and a type, the upload may start, and the fields that it needs are there.
abbrev pub IsReady : Form → Type 0
IsReady f =
    (length f.field_data ≤ 65536)
    × (f.is_file ≡ true → f.file_seen ≡ true)
    × (f.file_seen ≡ true
        → (f.headers_ready ≡ true)
          × (has_name f.filename ≡ true)
          × (is_some f.content_type ≡ true)
          × (is_missing f.form_fields "fileCreatedAt" ≡ false))

is_missing-insert :
    (fields : Dict String String) (name value key : String)
    → is_missing fields key ≡ false
    → is_missing (insert name value fields) key ≡ false
is_missing-insert fields name value key h = ground (arith, lookup-insert name key value fields)

module _ (C : Codecs) where
  on_headers_finished-IsReady : (f : Form) → IsReady f → IsReady (on_headers_finished C f).1
  unfolding on_headers_finished lacks_required
  on_headers_finished-IsReady f h = ground arith

  module _ {W : Type 0} (pipe : PipeCalls W) where
    callback-IsReady :
        (c : Callback) (s : Form × W) → IsReady s.0 → IsReady (callback C pipe c s).1.0
    unfolding callback on_part_begin on_header_end on_part_data on_part_end
    callback-IsReady part_begin (f, w) h = ground arith
    callback-IsReady (header_field b) (f, w) h = h
    callback-IsReady (header_value_part b) (f, w) h = h
    callback-IsReady header_end (f, w) h = h
    callback-IsReady headers_finished (f, w) h = on_headers_finished-IsReady f h
    callback-IsReady (part_data []) (f, w) h = h
    callback-IsReady (part_data (x ∷ xs)) (f, w) h =
        ground (arith, length-append f.field_data (x ∷ xs))
    callback-IsReady part_end (f, w) h =
        ground (
          arith,
          is_missing-insert f.form_fields f.field_name (C.utf8 f.field_data) "fileCreatedAt",
        )

    -- Any callbacks, in any order and also where one raises, keep the parser's state sound.
    pub run-IsReady :
        (cs : List Callback) (s : Form × W) → IsReady s.0 → IsReady (run_callbacks C pipe cs s).1.0
    unfolding run_callbacks
    run-IsReady [] s h = h
    run-IsReady (c ∷ cs) s h =
        resume_keeps (λ t. IsReady t.0) (callback C pipe c s).0 (λ x. run_callbacks C pipe cs)
          (λ a e t k. run-IsReady cs t k) (callback C pipe c s).1 (callback-IsReady c s h)

    -- How reading an upload ends: with the file's name and type and the required fields there, or with
    -- an error that the upload sees on the pipe.
    abbrev pub Ends : Result (Unit {0}) × (Option Error × Form × W) → Type 0
    Ends (r, (e, f, w)) =
        ((r ≡ ok tt)
          × (e ≡ none)
          × (f.file_seen ≡ true)
          × (has_name f.filename ≡ true)
          × (is_some f.content_type ≡ true)
          × (is_missing f.form_fields "fileCreatedAt" ≡ false))
        ⊎ ((x : Error) × (v : W) × (w ≡ pipe.set_error x v)
            × (((r ≡ err x) × (e ≡ some x)) ⊎ ((f.file_seen ≡ false) × (x ≡ value_error))))

    finish_run-Ends :
        (reading : Result (Unit {0})) (s : Form × W)
        → IsReady s.0
        → ((finish_run C pipe reading s).1.1.headers_ready ≡ true)
          × Ends (finish_run C pipe reading s)
    unfolding mark_finalized
    finish_run-Ends (err e) (f, w) h = (refl, inr (e, w, refl, inl (refl, refl)))
    finish_run-Ends (ok x) (f, w) (l, i, k) = elim (Bool-cases f.file_seen) [
      | inl seen ↦ let (a, b, c, d) = k seen in rw seen (a, inl (refl, refl, refl, b, c, d))
      | inr unseen ↦ rw unseen (refl, inr (value_error, w, refl, inr (refl, refl)))
    ]

    run_parser-Ends_from :
        (cs : List Callback) (reading : Result (Unit {0})) (s : Form × W)
        → IsReady s.0
        → ((run_parser C pipe cs reading s).1.1.headers_ready ≡ true)
          × Ends (run_parser C pipe cs reading s)
    unfolding run_parser
    run_parser-Ends_from cs reading s h = elim (Result-cases (run_callbacks C pipe cs s).0) [
      | inl (a, k) ↦
          rw (k, run_parser)
            (finish_run-Ends reading (run_callbacks C pipe cs s).1 (run-IsReady cs s h))
      | inr (e, k) ↦
          rw (k, run_parser)
            (finish_run-Ends (err e) (run_callbacks C pipe cs s).1 (run-IsReady cs s h))
    ]

    -- However the request's body parses, and wherever it breaks off, reading it with a new parser ends
    -- with the signal that the upload waits for. Then the file's name, type and required fields are
    -- there, or an error is on the pipe: the one that was raised, or that no file came.
    pub run_parser-Ends :
        (cs : List Callback) (reading : Result (Unit {0})) (w : W)
        → ((run_parser C pipe cs reading (new_form, w)).1.1.headers_ready ≡ true)
          × Ends (run_parser C pipe cs reading (new_form, w))
    run_parser-Ends cs reading w =
        run_parser-Ends_from cs reading (new_form, w) (omega arith, (λ h. cc), (λ h. cc))
