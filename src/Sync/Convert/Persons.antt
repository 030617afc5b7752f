-- ===== src/Sync/Convert/Persons.antt =====
-- routers/api/sync/converters.py: the person that a converted row refers to.
use immich_adapter.Prelude.{
  ℕ, String, ◌≡◌, refl, Bool, true, false, Option, none, some, Result, ok, err, and_then, map_ok,
  string_eq, ◌==◌, if◌then◌else◌,
}
use immich_adapter.Outside.ShortUuid.{ShortUuid}
use immich_adapter.Ids.{Kind, safe_uuid_from}
use immich_adapter.Sync.EntityType.{SyncEntityType, same}
use immich_adapter.Sync.Fields.{
  resolve_file_created_at, resolve_file_modified_at, format_duration, optional_utc,
  format_exposure_time, normalize_rating,
}
use immich_adapter.Sync.Entities.{
  Entity, asset, album, album_asset, person, face, get_attribute, Model, album_row, face_row,
}
use immich_adapter.Sync.Convert.{
  required, optional, gumnut_asset_to_sync_asset, gumnut_metadata_to_sync_exif_v1,
  gumnut_person_to_sync_person_v1, gumnut_album_to_sync_album_v1, drop_owner,
  gumnut_album_to_sync_album_v2, gumnut_album_to_sync_album_user_v1, gumnut_face_to_sync_face,
  gumnut_album_asset_to_sync_album_to_asset_v1, convert_entity,
}

-- the person that a row of the client's tables refers to
abbrev pub person_of : Model → Option ℕ
person_of (face_row id asset_id person_id) = person_id
person_of _ = none

-- What a conversion answers with, if it answers, refers to no person.
abbrev pub HasNoPerson : Result Model → Type 0
HasNoPerson (ok model) = person_of model ≡ none
HasNoPerson (err e) = Unit

no_person-if :
    (b : Bool) (x y : Result Model)
    → HasNoPerson x
    → HasNoPerson y
    → HasNoPerson (if b then x else y)
no_person-if true x y h k = h
no_person-if false x y h k = k

no_person-map_ok :
    {A : Type 0} (f : A → Model) (r : Result A)
    → ((a : A) → person_of (f a) ≡ none)
    → HasNoPerson (map_ok f r)
no_person-map_ok f (ok a) h = h a
no_person-map_ok f (err e) h = tt

no_person-and_then :
    {A : Type 0} (r : Result A) (f : A → Result Model)
    → ((a : A) → r ≡ ok a → HasNoPerson (f a))
    → HasNoPerson (and_then r f)
no_person-and_then (ok a) f h = h a refl
no_person-and_then (err e) f h = tt

module _ (S : ShortUuid) where
  no_person-asset : (e : Entity) (owner : ℕ) → HasNoPerson (gumnut_asset_to_sync_asset S e owner)
  unfolding gumnut_asset_to_sync_asset
  no_person-asset (asset id f m) owner = no_person-and_then (resolve_file_created_at f) _ (λ c e.
      no_person-and_then (resolve_file_modified_at f m) _ (λ t g.
        no_person-and_then (safe_uuid_from S Kind.asset id) _
          (λ u h. no_person-map_ok _ (format_duration f.duration) (λ x. refl))))
  no_person-asset _ owner = tt

  no_person-exif : (e : Entity) → HasNoPerson (gumnut_metadata_to_sync_exif_v1 S e)
  unfolding gumnut_metadata_to_sync_exif_v1
  no_person-exif (asset id f none) = tt
  no_person-exif (asset id f (some m)) =
      no_person-and_then (optional_utc m.original_datetime) _ (λ c e.
        no_person-and_then (optional_utc m.modified_datetime) _ (λ t g.
          no_person-and_then (safe_uuid_from S Kind.asset m.asset_id) _ (λ u h.
            no_person-and_then (format_exposure_time m.exposure_time) _
              (λ x k. no_person-map_ok _ (normalize_rating m.rating) (λ r. refl)))))
  no_person-exif _ = tt

  no_person-person :
      (e : Entity) (owner : ℕ) → HasNoPerson (gumnut_person_to_sync_person_v1 S e owner)
  unfolding gumnut_person_to_sync_person_v1
  no_person-person (person id) owner =
      no_person-map_ok _ (safe_uuid_from S Kind.person id) (λ u. refl)
  no_person-person _ owner = tt

  no_person-album : (e : Entity) (owner : ℕ) → HasNoPerson (gumnut_album_to_sync_album_v1 S e owner)
  unfolding gumnut_album_to_sync_album_v1
  no_person-album (album id cover) owner =
      no_person-and_then (optional S Kind.asset cover) _
        (λ t e. no_person-map_ok _ (safe_uuid_from S Kind.album id) (λ u. refl))
  no_person-album _ owner = tt

  no_person-drop_owner :
      (model : Model) → person_of model ≡ none → person_of (drop_owner S model) ≡ none
  unfolding drop_owner
  no_person-drop_owner (album_row id owner t) h = refl
  no_person-drop_owner _ h = h

  no_person-v2 : (r : Result Model) → HasNoPerson r → HasNoPerson (map_ok (drop_owner S) r)
  no_person-v2 (ok model) h = no_person-drop_owner model h
  no_person-v2 (err e) h = tt

  no_person-album_user :
      (e : Entity) (owner : ℕ) → HasNoPerson (gumnut_album_to_sync_album_user_v1 S e owner)
  unfolding gumnut_album_to_sync_album_user_v1
  no_person-album_user (album id cover) owner =
      no_person-map_ok _ (safe_uuid_from S Kind.album id) (λ u. refl)
  no_person-album_user _ owner = tt

  no_person-face :
      (e : Entity) → get_attribute e "person_id" ≡ none → HasNoPerson (gumnut_face_to_sync_face S e)
  unfolding gumnut_face_to_sync_face get_attribute optional
  no_person-face (face id a none) h =
      no_person-and_then (safe_uuid_from S Kind.face id) _
        (λ u e. no_person-map_ok _ (required S Kind.asset a) (λ x. refl))
  no_person-face (face id a (some p)) h = cc
  no_person-face _ h = tt

  no_person-album_asset :
      (e : Entity) → HasNoPerson (gumnut_album_asset_to_sync_album_to_asset_v1 S e)
  unfolding gumnut_album_asset_to_sync_album_to_asset_v1
  no_person-album_asset (album_asset id al a) =
      no_person-and_then (required S Kind.album al) _
        (λ u e. no_person-map_ok _ (required S Kind.asset a) (λ x. refl))
  no_person-album_asset _ = tt

  pub no_person-convert :
      (type : String) (e : Entity) (owner : ℕ) (t : SyncEntityType)
      → get_attribute e "person_id" ≡ none
      → HasNoPerson (convert_entity S type e owner t)
  unfolding convert_entity gumnut_album_to_sync_album_v2
  no_person-convert type e owner t h =
      no_person-if (type == "asset") _ _ (no_person-asset e owner) (
        no_person-if (type == "album") _ _
          (no_person-if (same t SyncEntityType.album_user_v1) _ _ (no_person-album_user e owner) (
            no_person-if (same t SyncEntityType.album_v2) _ _
              (no_person-v2 _ (no_person-album e owner)) (no_person-album e owner)))
          (no_person-if (type == "person") _ _ (no_person-person e owner) (
            no_person-if (type == "album_asset") _ _ (no_person-album_asset e) (
              no_person-if (type == "face") _ _ (no_person-face e h)
                (no_person-if (type == "metadata") _ _ (no_person-exif e) tt)))))
