-- ===== src/Outside/Formats.antt =====
-- `datetime.isoformat`, `datetime.fromisoformat`, `str(UUID)` and `UUID(text)`. An aware time stands
-- as its microseconds, a UUID as its integer.
use immich_adapter.Prelude.{ℕ, String, ◌≡◌, false, Option, some, has_pipe, some-inj, sym, ap, ◌∙◌}

pub record Formats : Type 0 where
  pub isoformat : ℕ → String
  pub fromisoformat : String → Option ℕ
  pub uuid_text : ℕ → String
  pub uuid_of : String → Option ℕ

pub record IsFormats (F : Formats) : Type 0 where
  pub read_time : (t : ℕ) → F.fromisoformat (F.isoformat t) ≡ some t
  pub time_no_pipe : (t : ℕ) → has_pipe (F.isoformat t) ≡ false
  pub read_uuid : (u : ℕ) → F.uuid_of (F.uuid_text u) ≡ some u

pub uuid_text-injective :
    {F : Formats} → IsFormats F → (u v : ℕ) → F.uuid_text u ≡ F.uuid_text v → u ≡ v
uuid_text-injective {F} laws u v h =
    some-inj (sym (laws.read_uuid u) ∙ ap F.uuid_of h ∙ laws.read_uuid v)
