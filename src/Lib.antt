-- ===== src/Lib.antt =====
-- The immich adapter answers an Immich client from the Gumnut API. This library models its sync
-- protocol, the two stores in Redis that the protocol keeps its progress in, the ids and
-- acknowledgements that it exchanges, the streamed upload of large files, the stacks of burst photos with
-- their collapse in the timeline, the bulk calls by which albums gain and lose assets, and the middleware
-- that turns a request's credential into a token of the Gumnut API.
--
-- The parts and their files:
--
--  Ids             routers/utils/gumnut_id_conversion.py. A UUID is its integer; Kind and prefix are the
--                  six pairs of functions that differ in the prefix alone.
--  Sync.EntityType, Sync.RequestType
--                  SyncEntityType and SyncRequestType of routers/immich_models.py, with their values.
--  Sync.Ack        to_ack_string of routers/api/sync/events.py and _parse_ack of
--                  routers/api/sync/routes.py.
--  Sync.Entities   the events and entities of the Gumnut SDK, by the fields that the sync code reads, and
--                  the lines of a stream. A line is its type, model and acknowledgement; its JSON text is
--                  not modelled, and of a model only the ids are.
--  Sync.Fields     the conversions of dates and numbers for the rows of an asset: routers/utils/datetime_utils.py
--                  and routers/utils/asset_conversion.py, and _format_exposure_time of
--                  routers/api/sync/converters.py.
--  Sync.Convert    routers/api/sync/converters.py and convert_entity_to_sync_event.
--  Sync.Deletes    make_delete_sync_event of routers/api/sync/events.py.
--  Sync.Fk         routers/api/sync/fk_integrity.py.
--  Sync.Fetch      routers/api/sync/entity_fetch.py.
--  Sync.Overrides  the overrides of an upsert event in _stream_entity_type of
--                  routers/api/sync/stream.py.
--  Sync.Stream     _stream_entity_type of routers/api/sync/stream.py: pages is its while loop, round and
--                  process_page are the body, process_event is the loop over the events of a page.
--  Sync.DeleteBuffer
--                  _yield_buffered_deletes of the same file.
--  Sync.Generate   generate_sync_stream and generate_reset_stream of the same file, and their tables.
--  Sync.Routes     the handlers of routers/api/sync/routes.py.
--  Checkpoint      services/checkpoint_store.py.
--  SessionFields, Session
--                  services/session_store.py: the session with its stored fields, and the store.
--  Jwt             utils/jwt_encryption.py.
--  GumnutClient    routers/utils/gumnut_client.py: the holder of a refreshed token and its hook.
--  Auth            routers/middleware/auth_middleware.py. look_up is the try block of dispatch, after_response
--                  what follows call_next, which is a parameter.
--  Upload.Pipe     services/streaming_pipe.py. advance_writer has the steps of put and close_writer,
--                  advance_reader those of readinto, advance_failing those of set_error; Upload.Pipe.Runs
--                  interleaves the steps of threads.
--  Upload.Form     services/streaming_form_parser.py, and _run_parser of services/streaming_upload.py.
--  Stacks          routers/utils/stack_conversion.py up to build_asset_stack_summary, and
--                  routers/utils/concurrency.py.
--  Stacks.Timeline the collapsed timeline of routers/utils/stack_conversion.py, and the part of
--                  get_time_bucket of routers/api/timeline.py that uses it. resolve_ids is the body of
--                  resolve_timeline_stacks, decide one round of its last loop.
--  Stacks.Routes   routers/api/stacks.py. admit is the loop of search_stacks.
--  Bulk            routers/utils/bulk.py, and classify_bulk_item_error of
--                  routers/utils/error_mapping.py.
--  Albums          add_assets_to_album, add_assets_to_albums, _add_assets_to_one_album and
--                  remove_asset_from_album of routers/api/albums.py.
--  Errors          routers/utils/error_mapping.py, the handler of config/exceptions.py, and the statuses of
--                  _sync_upload of services/streaming_upload.py.
--  Outside         what the repository calls and does not hold: Redis, the Gumnut SDK, shortuuid and the
--                  text forms of dates and UUIDs, each a record of operations and, where something rests
--                  on it, a record of the laws that it documents.
--  Prelude         names and lemmas that all parts share. Prelude.Effects has the exceptions as values
--                  and actions that change a state and may raise, Prelude.Values Python's floats and datetimes.
--  Tests           instances of the records of Outside, and the results at concrete inputs.
--
-- How the parts interact: a route reads the session's token, the session store and the checkpoint store,
-- and starts a stream with the checkpoints that it loaded. The stream runs a pass per requested type over
-- the events of the SDK, with the statistics and the buffer of deletes as shared state, and yields lines.
-- The client sends the acknowledgements of the lines back to a route, which stores their cursors, and the
-- next stream starts behind them.
--
-- The middleware runs before every route: it reads the session store for the token of the request, and after
-- the route it puts the token that the backend refreshed into that session.
--
-- An upload's request is read by the form parser in one thread, which puts the file's bytes into the pipe,
-- and sent to the Gumnut API by another thread, which reads them from the pipe. The timeline's route reads
-- a month's assets, has the stacks resolve the covers, and leaves out the frames that a cover stands for.
-- The albums' routes call the API through the bulk helpers, and several albums through the gathering of
-- calls that the stacks use too.
--
-- State: a stream's state is the world behind the SDK, the lines yielded so far, the statistics and the
-- buffer. What was yielded before an exception stays yielded. Redis is any type with the operations of
-- Outside.Redis; keys are kept apart by their form and not by their text, and an expiry in Redis is not
-- modelled. Times are microseconds, and a call gets the time of its clock as an argument.
--
-- The pipe's state is its queue with its flags; a step of a thread touches the queue or the stored error
-- once, so every interleaving of the threads is a sequence of steps. A wait on the queue is one step, at
-- the moment at which it ends, and the seconds that a call has waited are counted as the code does. The
-- gathered calls run one after the other, in the order of their list.
--
-- Bounds and fuel: the loop over pages is on fuel, which is enough where it exceeds the pages that are
-- left behind the first cursor; the hypothesis on the SDK is that cursors advance. The slices of a list
-- are on fuel for its length. All else is structural recursion.
--
-- Not modelled: log records and tracing spans, the JSON text of lines, the fields of models that are no
-- ids (of dates and numbers only whether their conversion raises), the validation of the models, the
-- multipart parser itself (its callbacks are the input of the form parser), the POST of an upload, and the
-- routes outside routers/api/sync but those named above. The fields of the SDK have the types that it
-- declares. A walk over all stacks is taken as one read to the end of its pages, also where the loop over
-- it ends early.
mod Prelude
pub mod Outside
pub mod Ids
pub mod Sync
pub mod Checkpoint
pub mod Jwt
pub mod SessionFields
pub mod Session
pub mod Upload
pub mod Stacks
pub mod Bulk
pub mod Albums
pub mod Auth
pub mod GumnutClient
pub mod Errors
pub mod Tests
