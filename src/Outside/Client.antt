-- ===== src/Outside/Client.antt =====
-- The calls of the Gumnut SDK that a sync stream makes. Each answers or raises, and changes the
-- world `W` behind the API, so two calls with one argument may answer differently.
use immich_adapter.Prelude.{ℕ, String, Bool, Option, List, Exec}
use immich_adapter.Sync.Entities.{Event, Entity}

pub record EventsQuery : Type 0 where
  pub created_at_lt : ℕ
  pub entity_types : String
  pub limit : ℕ
  pub after_cursor : Option String

pub record EventsPage : Type 0 where
  pub events : List Event
  pub has_more : Bool

-- The bulk reads take the ids of a chunk; `limit` is the chunk's length. `list_assets` also takes
-- whether `state="all"` is passed.
pub record Client (W : Type 0) : Type 0 where
  pub get_events : EventsQuery → Exec W EventsPage
  pub list_assets : Bool → List String → Exec W (List Entity)
  pub list_albums : List String → Exec W (List Entity)
  pub list_people : List String → Exec W (List Entity)
  pub list_faces : List String → Exec W (List Entity)
  pub list_album_assets : List String → Exec W (List Entity)
