-- ===== src/Upload/Form.antt =====
-- services/streaming_form_parser.py, and `_run_parser` of services/streaming_upload.py: the callbacks
-- that a multipart parser makes while it reads an upload.
pub mod Keeps
pub mod Parts
use immich_adapter.Prelude.{
  ℕ, ◌+◌, ◌*◌, String, Bool, true, false, not, Option, none, some, List, [], ◌∷◌, ◌++◌, ltb, keep,
  if◌then◌else◌, length, ◌==◌, string_eq, Dict, lookup, insert, Error, value_error, Result, ok, err,
  Exec, resume,
}
use immich_adapter.Upload.Pipe.{Bytes}

-- What the parser takes from Python and python_multipart: the codecs, `str.lower`, and the parameters
-- that `parse_options_header` finds in a header value.
pub record Codecs : Type 0 where
  pub latin1 : Bytes → String
  pub latin1_bytes : String → Bytes
  pub utf8 : Bytes → String
  pub utf8_bytes : String → Bytes
  pub lower : String → String
  pub options : Bytes → Dict String Bytes

-- The pipe as the parser uses it; a `put` or a `close_writer` may raise.
pub record PipeCalls (W : Type 0) : Type 0 where
  pub put : Bytes → Exec W (Unit {0})
  pub close_writer : Exec W (Unit {0})
  pub set_error : Error → W → W

abbrev pub max_field_bytes : ℕ
max_field_bytes = 65536

abbrev pub required_fields : List String
required_fields = "fileCreatedAt" ∷ []

-- the parser's state
pub record Form : Type 0 where
  pub header_name : Bytes
  pub header_value : Bytes
  pub headers : Dict String String
  pub is_file : Bool
  pub field_name : String
  pub field_data : Bytes
  pub filename : Option String
  pub content_type : Option String
  pub file_seen : Bool
  pub form_fields : Dict String String
  pub headers_ready : Bool

abbrev pub new_form : Form
new_form = record {
  header_name = [];
  header_value = [];
  headers = [];
  is_file = false;
  field_name = "";
  field_data = [];
  filename = none;
  content_type = none;
  file_seen = false;
  form_fields = [];
  headers_ready = false;
}

-- the calls of a multipart parser
pub data Callback : Type 0 where
  part_begin header_end headers_finished part_end : Callback
  header_field header_value_part part_data : Bytes → Callback

-- `d.get(key, default)`
abbrev pub get_or {ℓ} : {A : Type ℓ} → A → String → Dict String A → A
get_or default key d = elim (lookup key d) [ none ↦ default | some v ↦ v ]

abbrev pub is_missing : Dict String String → String → Bool
is_missing fields key = elim (lookup key fields) [ none ↦ true | some v ↦ false ]

abbrev pub is_nil {ℓ} : {A : Type ℓ} → List A → Bool
is_nil [] = true
is_nil (x ∷ xs) = false

-- `missing`, as the test of it
unfoldable pub lacks_required : Dict String String → Bool
lacks_required fields = not (is_nil (keep (is_missing fields) required_fields))

unfoldable pub on_part_begin : Form → Form
on_part_begin f = record f {
  headers = [];
  header_name = [];
  header_value = [];
  is_file = false;
  field_name = "";
  field_data = [];
}

module _ (C : Codecs) where
  unfoldable pub on_header_end : Form → Form
  on_header_end f = record f {
    headers = insert (C.lower (C.latin1 f.header_name)) (C.latin1 f.header_value) f.headers;
    header_name = [];
    header_value = [];
  }

  -- the boundary that `create_parser` makes a parser for
  pub create_parser : String → Result Bytes
  create_parser content_type =
      let boundary = get_or [] "boundary" (C.options (C.utf8_bytes content_type)) in
      if is_nil boundary then err value_error else ok boundary

  -- the parameter of the part's Content-Disposition header, decoded
  abbrev pub parameter : String → Dict String String → String
  parameter key headers =
      C.utf8 (get_or [] key (C.options (C.latin1_bytes (get_or "" "content-disposition" headers))))

  abbrev pub start_file : String → String → Form → Form
  start_file name file f = record f {
    field_name = name;
    is_file = true;
    file_seen = true;
    filename = some file;
    content_type = some (get_or "application/octet-stream" "content-type" f.headers);
    headers_ready = true;
  }

  unfoldable pub on_headers_finished : Exec Form (Unit {0})
  unfolding lacks_required
  on_headers_finished f =
      let name = parameter "name" f.headers in
      let file = parameter "filename" f.headers in
      let named = record f { field_name = name } in
      if file == ""
      then (ok tt, named)
      else if f.file_seen
      then (err value_error, named)
      else if not (name == "assetData")
      then (err value_error, named)
      else if lacks_required f.form_fields
      then (err value_error, named)
      else (ok tt, start_file name file f)

  module _ {W : Type 0} (pipe : PipeCalls W) where
    -- a call of the pipe that leaves the parser's state as it is
    abbrev pub on_pipe : Exec W (Unit {0}) → Exec (Form × W) (Unit {0})
    on_pipe action (f, w) = ((action w).0, (f, (action w).1))

    unfoldable pub on_part_data : Bytes → Exec (Form × W) (Unit {0})
    on_part_data [] s = (ok tt, s)
    on_part_data (x ∷ xs) (f, w) =
        if f.is_file
        then on_pipe (pipe.put (x ∷ xs)) (f, w)
        else if ltb max_field_bytes (length f.field_data + length (x ∷ xs))
        then (err value_error, (f, w))
        else (ok tt, (record f { field_data = f.field_data ++ x ∷ xs }, w))

    unfoldable pub on_part_end : Exec (Form × W) (Unit {0})
    on_part_end (f, w) = if f.is_file then on_pipe pipe.close_writer (f, w) else (
      ok tt,
      (record f { form_fields = insert f.field_name (C.utf8 f.field_data) f.form_fields }, w),
    )

    unfoldable pub callback : Callback → Exec (Form × W) (Unit {0})
    unfolding on_part_begin on_header_end on_headers_finished on_part_data on_part_end
    callback part_begin (f, w) = (ok tt, (on_part_begin f, w))
    callback (header_field part) (f, w) =
        (ok tt, (record f { header_name = f.header_name ++ part }, w))
    callback (header_value_part part) (f, w) =
        (ok tt, (record f { header_value = f.header_value ++ part }, w))
    callback header_end (f, w) = (ok tt, (on_header_end f, w))
    callback headers_finished (f, w) = ((on_headers_finished f).0, ((on_headers_finished f).1, w))
    callback (part_data chunk) s = on_part_data chunk s
    callback part_end s = on_part_end s

    -- the callbacks in turn, up to the first that raises
    unfoldable pub run_callbacks : List Callback → Exec (Form × W) (Unit {0})
    unfolding callback
    run_callbacks [] s = (ok tt, s)
    run_callbacks (c ∷ cs) s = resume (callback c s).0 (λ x. run_callbacks cs) (callback c s).1

    unfoldable pub mark_finalized : Form × W → Form × W
    mark_finalized (f, w) =
        if f.file_seen
        then (f, w)
        else (record f { headers_ready = true }, pipe.set_error value_error w)

    -- `_parse_error` beside the parser's state and the pipe
    abbrev pub Run : Type 0
    Run = Option Error × Form × W

    abbrev pub finish_run : Result (Unit {0}) → Form × W → Result (Unit {0}) × Run
    finish_run (ok x) s = let (f, w) = mark_finalized s in (ok tt, (none, f, w))
    finish_run (err e) (f, w) =
        (err e, (some e, record f { headers_ready = true }, pipe.set_error e w))

    -- The callbacks that the parser makes of the request's chunks, and how reading them ends: an
    -- exception of the parser, or of the wait for a chunk, comes after the callbacks.
    unfoldable pub run_parser :
        List Callback → Result (Unit {0}) → Form × W → Result (Unit {0}) × Run
    unfolding run_callbacks mark_finalized
    run_parser cs reading s = elim (run_callbacks cs s).0 [
      | ok x ↦ finish_run reading (run_callbacks cs s).1
      | err e ↦ finish_run (err e) (run_callbacks cs s).1
    ]
