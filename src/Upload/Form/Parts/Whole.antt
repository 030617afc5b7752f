-- ===== src/Upload/Form/Parts/Whole.antt =====
-- services/streaming_form_parser.py: the callbacks of whole parts, one after the other.
use immich_adapter.Prelude.{
  ◌≡◌, refl, ap, sym, ◌∙◌, String, true, false, some, List, [], ◌∷◌, ◌++◌, ◌==◌, string_eq, Dict,
  Result, ok, err, resume, Bool-cases, inl, inr,
}
use immich_adapter.Upload.Form.{
  Codecs, PipeCalls, Form, headers_finished, part_end, lacks_required, get_or, on_part_begin,
  on_headers_finished, callback, run_callbacks, parameter, start_file,
}
use immich_adapter.Upload.Form.Parts.{
  Part, Upload, view, line_calls, data_calls, calls_of, calls_of_all, headers_of, put_file, accept,
  accept_all, seen_as,
}
use immich_adapter.Upload.Form.Parts.Bodies.{run-append, run-line_calls, run-field, run-file}

module _ (C : Codecs) where
  module _ {W : Type 0} (pipe : PipeCalls W) where
    -- the state after a part's headers
    abbrev begun : Dict String String → Form → Form
    begun headers f = record f {
      headers = headers;
      header_name = [];
      header_value = [];
      is_file = false;
      field_name = "";
      field_data = [];
    }

    run-headers :
        (p : Part) (f : Form) (w : W)
        → run_callbacks C pipe (calls_of p) (f, w)
          ≡ run_callbacks C pipe
              (headers_finished ∷ (data_calls p.chunks ++ part_end ∷ []))
              (begun (headers_of C p.lines []) f, w)
    unfolding run_callbacks callback on_part_begin
    run-headers p f w =
        rw
          (
            run-append C pipe (line_calls p.lines)
                (headers_finished ∷ (data_calls p.chunks ++ part_end ∷ [])) (begun [] f, w),
            run-line_calls C pipe p.lines [] (begun [] f) w,
          )
          refl

    -- a part that is taken as the upload's file
    headers-file :
        (g : Form)
        → (parameter C "filename" g.headers == "") ≡ false
        → g.file_seen ≡ false
        → (parameter C "name" g.headers == "assetData") ≡ true
        → lacks_required g.form_fields ≡ false
        → on_headers_finished C g ≡ (
          ok tt,
          start_file C (parameter C "name" g.headers) (parameter C "filename" g.headers) g,
        )
    unfolding on_headers_finished
    headers-file g given first named there = simp (given, first, named, there)

    accept-file :
        (p : Part) (u : Upload) (w : W)
        → (parameter C "filename" (headers_of C p.lines []) == "") ≡ false
        → u.file_seen ≡ false
        → (parameter C "name" (headers_of C p.lines []) == "assetData") ≡ true
        → lacks_required u.fields ≡ false
        → accept C pipe p (u, w) ≡ (
          (put_file C pipe p.chunks w).0,
          (
            record u {
              file_seen = true;
              filename = some (parameter C "filename" (headers_of C p.lines []));
              content_type =
                  some (get_or "application/octet-stream" "content-type" (headers_of C p.lines []));
            },
            (put_file C pipe p.chunks w).1,
          ),
        )
    accept-file p u w given first named there = simp (given, first, named, there)

    run-part :
        (p : Part) (f : Form) (w : W)
        → seen_as C pipe (run_callbacks C pipe (calls_of p) (f, w)) ≡ accept C pipe p (view f, w)
    unfolding run_callbacks callback on_headers_finished
    run-part p f w =
        let headers = headers_of C p.lines [] in
        let name = parameter C "name" headers in
        let file = parameter C "filename" headers in
        let g = begun headers f in
        rw (run-headers p f w) (elim (Bool-cases (file == "")) [
          | inl none_given ↦
              rw none_given (run-field C pipe p.chunks (record g { field_name = name }) w refl)
          | inr given ↦ elim (Bool-cases f.file_seen) [
            | inl twice ↦ simp (given, twice)
            | inr first ↦ elim (Bool-cases (name == "assetData")) [
              | inr other ↦ simp (given, first, other)
              | inl named ↦ elim (Bool-cases (lacks_required f.form_fields)) [
                | inl missing ↦ simp (given, first, named, missing)
                | inr there ↦
                    ap
                      (λ h. seen_as C pipe (
                        resume h.0
                          (λ u. run_callbacks C pipe (data_calls p.chunks ++ part_end ∷ []))
                          (h.1, w)))
                      (headers-file g given first named there)
                    ∙ run-file C pipe p.chunks (start_file C name file g) w refl
                    ∙ sym (accept-file p (view f) w given first named there)
              ]
            ]
          ]
        ])

    accept_all-same :
        (parts : List Part) (r : Result (Unit {0}) × (Form × W))
        (t : Result (Unit {0}) × (Upload × W))
        → ((s : Form × W)
            → seen_as C pipe (run_callbacks C pipe (calls_of_all parts) s)
              ≡ accept_all C pipe parts (view s.0, s.1))
        → seen_as C pipe r ≡ t
        → seen_as C pipe (resume r.0 (λ u. run_callbacks C pipe (calls_of_all parts)) r.1)
          ≡ resume t.0 (λ u. accept_all C pipe parts) t.1
    accept_all-same parts (ok u, s) t h k =
        h s ∙ ap (λ x. resume x.0 (λ u. accept_all C pipe parts) x.1) k
    accept_all-same parts (err e, s) t h k =
        ap (λ x. resume x.0 (λ u. accept_all C pipe parts) x.1) k

    -- Whatever parts an upload has and in whatever pieces their bodies come, the callbacks of the parts
    -- end as the parts taken as wholes do, error or not: with the same fields, the same file, and the
    -- same puts into the pipe, the pieces of the file in order and then its end.
    pub run-parts :
        (parts : List Part) (f : Form) (w : W)
        → seen_as C pipe (run_callbacks C pipe (calls_of_all parts) (f, w))
          ≡ accept_all C pipe parts (view f, w)
    unfolding run_callbacks
    run-parts [] f w = refl
    run-parts (p ∷ ps) f w = rw (run-append C pipe (calls_of p) (calls_of_all ps) (f, w)) (
        accept_all-same ps (run_callbacks C pipe (calls_of p) (f, w)) (accept C pipe p (view f, w))
          (λ s. run-parts ps s.0 s.1) (run-part p f w))
