-- ===== src/Ids/Raises.antt =====
-- routers/utils/gumnut_id_conversion.py: the exceptions of reading an id.
use immich_adapter.Prelude.{
  String, Error, value_error, Raises, ◌⧺◌, after_prefix, Option-cases, inl, inr,
}
use immich_adapter.Outside.ShortUuid.{ShortUuid}
use immich_adapter.Ids.{Kind, prefix, safe_uuid_from_gumnut_id, safe_uuid_from}

pub safe_uuid_from-Raises :
    (P : Error → Type 0) (S : ShortUuid) (kind : Kind) (id : String)
    → P value_error
    → Raises P (safe_uuid_from S kind id)
unfolding safe_uuid_from safe_uuid_from_gumnut_id
safe_uuid_from-Raises P S kind id v = elim (Option-cases (after_prefix (prefix kind ⧺ "_") id)) [
  | inl e ↦ rw (e, Raises, safe_uuid_from, safe_uuid_from_gumnut_id) v
  | inr (short, e) ↦ elim (Option-cases (S.decode short)) [
    | inl f ↦ rw (e, f, Raises, safe_uuid_from, safe_uuid_from_gumnut_id) v
    | inr (u, f) ↦ rw (e, f, Raises, safe_uuid_from, safe_uuid_from_gumnut_id) tt
  ]
]
