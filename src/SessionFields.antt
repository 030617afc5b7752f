-- ===== src/SessionFields.antt =====
-- services/session_store.py, `Session`: a session and the fields of its Redis hash.
use immich_adapter.Prelude.{
  ℕ, String, Bool, Option, none, some, [], ◌∷◌, ◌==◌, string_eq, if◌then◌else◌, Dict, lookup,
  Result, ok, err, session_data, and_then,
}
use immich_adapter.Outside.Formats.{Formats}

pub record Session : Type 0 where
  pub id : ℕ
  pub user_id : String
  pub library_id : String
  pub stored_jwt : String
  pub device_type : String
  pub device_os : String
  pub app_version : String
  pub created_at : ℕ
  pub updated_at : ℕ
  pub is_pending_sync_reset : Bool

-- "1" if flag else "0"
abbrev pub flag_text : Bool → String
flag_text b = if b then "1" else "0"

-- a field that `from_dict` needs; a missing one is SessionDataError
abbrev pub needed : String → Dict String String → Result String
needed name fields = elim (lookup name fields) [ none ↦ err session_data | some v ↦ ok v ]

-- a malformed text is ValueError, which `from_dict` turns into SessionDataError
abbrev pub or_malformed : Option ℕ → Result ℕ
or_malformed none = err session_data
or_malformed (some t) = ok t

module _ (F : Formats) where
  unfoldable pub to_dict : Session → Dict String String
  to_dict s =
      ("user_id", s.user_id)
      ∷ ("library_id", s.library_id)
      ∷ ("stored_jwt", s.stored_jwt)
      ∷ ("device_type", s.device_type)
      ∷ ("device_os", s.device_os)
      ∷ ("app_version", s.app_version)
      ∷ ("created_at", F.isoformat s.created_at)
      ∷ ("updated_at", F.isoformat s.updated_at)
      ∷ ("is_pending_sync_reset", flag_text s.is_pending_sync_reset)
      ∷ []

  unfoldable pub from_dict : ℕ → Dict String String → Result Session
  from_dict id fields = and_then (needed "user_id" fields) (λ user_id.
      and_then (needed "library_id" fields) (λ library_id.
        and_then (needed "stored_jwt" fields) (λ stored_jwt.
          and_then (needed "device_type" fields) (λ device_type.
            and_then (needed "device_os" fields) (λ device_os.
              and_then (needed "app_version" fields) (λ app_version.
                and_then (needed "created_at" fields) (λ created.
                  and_then (needed "updated_at" fields) (λ updated.
                    and_then (needed "is_pending_sync_reset" fields) (λ pending.
                      and_then (or_malformed (F.fromisoformat created)) (λ created_at.
                        and_then (or_malformed (F.fromisoformat updated)) (λ updated_at.
                          ok (record {
                            id = id;
                            user_id = user_id;
                            library_id = library_id;
                            stored_jwt = stored_jwt;
                            device_type = device_type;
                            device_os = device_os;
                            app_version = app_version;
                            created_at = created_at;
                            updated_at = updated_at;
                            is_pending_sync_reset = pending == "1";
                          }))))))))))))
