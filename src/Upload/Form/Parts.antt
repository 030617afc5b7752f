-- ===== src/Upload/Form/Parts.antt =====
-- services/streaming_form_parser.py: what the callbacks of an upload's parts come to, against a
-- description of the upload that takes each part as a whole.
pub mod Bodies
pub mod Whole
use immich_adapter.Prelude.{
  ◌⊎◌, ℕ, ◌+◌, ◌≤◌, ◌<◌, ◌≡◌, refl, ap, sym, ◌∙◌, String, Bool, true, false, not, Option, some,
  List, [], ◌∷◌, ◌++◌, length, length-append, append_assoc, append-nil, ltb, if◌then◌else◌, ◌==◌,
  string_eq, Dict, insert, Result, ok, err, value_error, Exec, resume, Bool-cases, inl, inr, arith,
  Result-cases,
}
use immich_adapter.Sync.Fetch.Batches.{concat}
use immich_adapter.Upload.Pipe.{Bytes}
use immich_adapter.Upload.Form.{
  Codecs, PipeCalls, Form, Callback, part_begin, header_end, headers_finished, part_end,
  header_field, header_value_part, part_data, lacks_required, get_or, max_field_bytes,
  on_part_begin, on_header_end, on_headers_finished, on_part_data, on_part_end, callback,
  run_callbacks, parameter, start_file, on_pipe,
}

-- A part as it is sent: its header lines, and its body in the pieces in which it arrives.
pub record Part : Type 0 where
  pub lines : List (Bytes × Bytes)
  pub chunks : List Bytes

abbrev pub line_calls : List (Bytes × Bytes) → List Callback
line_calls [] = []
line_calls ((name, value) ∷ lines) =
    header_field name ∷ header_value_part value ∷ header_end ∷ line_calls lines

abbrev pub data_calls : List Bytes → List Callback
data_calls [] = []
data_calls (chunk ∷ chunks) = part_data chunk ∷ data_calls chunks

-- the callbacks of a part
abbrev pub calls_of : Part → List Callback
calls_of p =
    part_begin ∷ (line_calls p.lines ++ headers_finished ∷ (data_calls p.chunks ++ part_end ∷ []))

abbrev pub calls_of_all : List Part → List Callback
calls_of_all [] = []
calls_of_all (p ∷ ps) = calls_of p ++ calls_of_all ps

-- What is known of an upload: its fields, and its file's name and type, where one has come.
pub record Upload : Type 0 where
  pub fields : Dict String String
  pub file_seen : Bool
  pub filename : Option String
  pub content_type : Option String

abbrev pub view : Form → Upload
view f = record {
  fields = f.form_fields;
  file_seen = f.file_seen;
  filename = f.filename;
  content_type = f.content_type;
}

module _ (C : Codecs) where
  abbrev pub headers_of : List (Bytes × Bytes) → Dict String String → Dict String String
  headers_of [] found = found
  headers_of ((name, value) ∷ lines) found =
      headers_of lines (insert (C.lower (C.latin1 name)) (C.latin1 value) found)

  module _ {W : Type 0} (pipe : PipeCalls W) where
    -- the pieces that are not empty, put into the pipe in order
    abbrev pub put_pieces : List Bytes → Exec W (Unit {0})
    put_pieces [] w = (ok tt, w)
    put_pieces ([] ∷ chunks) w = put_pieces chunks w
    put_pieces ((x ∷ xs) ∷ chunks) w =
        resume (pipe.put (x ∷ xs) w).0 (λ u. put_pieces chunks) (pipe.put (x ∷ xs) w).1

    abbrev pub put_file : List Bytes → Exec W (Unit {0})
    put_file chunks w =
        resume (put_pieces chunks w).0 (λ u. pipe.close_writer) (put_pieces chunks w).1

    -- a part without a file name
    abbrev pub accept_field : String → Bytes → Exec (Upload × W) (Unit {0})
    accept_field name body (u, w) =
        if ltb max_field_bytes (length body)
        then (err value_error, (u, w))
        else (ok tt, (record u { fields = insert name (C.utf8 body) u.fields }, w))

    -- a part with a file name
    abbrev pub accept_file : String → String → String → List Bytes → Exec (Upload × W) (Unit {0})
    accept_file name file type chunks (u, w) =
        if u.file_seen
        then (err value_error, (u, w))
        else if not (name == "assetData")
        then (err value_error, (u, w))
        else if lacks_required u.fields
        then (err value_error, (u, w))
        else (
          (put_file chunks w).0,
          (
            record u { file_seen = true; filename = some file; content_type = some type },
            (put_file chunks w).1,
          ),
        )

    abbrev pub accept : Part → Exec (Upload × W) (Unit {0})
    accept p s =
        let headers = headers_of p.lines [] in
        let name = parameter C "name" headers in
        let file = parameter C "filename" headers in
        if file == ""
        then accept_field name (concat p.chunks) s
        else accept_file name file (get_or "application/octet-stream" "content-type" headers)
            p.chunks s

    abbrev pub accept_all : List Part → Exec (Upload × W) (Unit {0})
    accept_all [] s = (ok tt, s)
    accept_all (p ∷ ps) s = resume (accept p s).0 (λ u. accept_all ps) (accept p s).1

    abbrev pub seen_as : Result (Unit {0}) × (Form × W) → Result (Unit {0}) × (Upload × W)
    seen_as (r, (f, w)) = (r, (view f, w))
