-- ===== src/Sync/EntityType.antt =====
-- routers/immich_models.py, `SyncEntityType`: the types of the lines of a sync stream.
use immich_adapter.Prelude.{
  String, ◌≡◌, refl, ◌↔◌, Bool, true, Option, some, List, [], ◌∷◌, find, find_sound, Eq, ◌==◌,
  string_eq, ap, ◌∙◌, sym, some-inj,
}

pub data SyncEntityType : Type 0 where
  auth_user_v1 user_v1 user_delete_v1 asset_v1 asset_v2 asset_delete_v1 asset_exif_v1 :
      SyncEntityType
  asset_edit_v1 asset_edit_delete_v1 asset_metadata_v1 asset_metadata_delete_v1 asset_ocr_v1 :
      SyncEntityType
  asset_ocr_delete_v1 partner_v1 partner_delete_v1 partner_asset_v1 partner_asset_v2 :
      SyncEntityType
  partner_asset_backfill_v1 partner_asset_backfill_v2 partner_asset_delete_v1 : SyncEntityType
  partner_asset_exif_v1 partner_asset_exif_backfill_v1 partner_stack_backfill_v1 : SyncEntityType
  partner_stack_delete_v1 partner_stack_v1 album_v1 album_v2 album_delete_v1 album_user_v1 :
      SyncEntityType
  album_user_backfill_v1 album_user_delete_v1 album_asset_create_v1 album_asset_create_v2 :
      SyncEntityType
  album_asset_update_v1 album_asset_update_v2 album_asset_backfill_v1 album_asset_backfill_v2 :
      SyncEntityType
  album_asset_exif_create_v1 album_asset_exif_update_v1 album_asset_exif_backfill_v1 :
      SyncEntityType
  album_to_asset_v1 album_to_asset_delete_v1 album_to_asset_backfill_v1 memory_v1 : SyncEntityType
  memory_delete_v1 memory_to_asset_v1 memory_to_asset_delete_v1 stack_v1 stack_delete_v1 :
      SyncEntityType
  person_v1 person_delete_v1 asset_face_v1 asset_face_v2 asset_face_delete_v1 user_metadata_v1 :
      SyncEntityType
  user_metadata_delete_v1 sync_ack_v1 sync_reset_v1 sync_complete_v1 : SyncEntityType

-- the enum member's value
unfoldable pub value : SyncEntityType → String
value auth_user_v1 = "AuthUserV1"
value user_v1 = "UserV1"
value user_delete_v1 = "UserDeleteV1"
value asset_v1 = "AssetV1"
value asset_v2 = "AssetV2"
value asset_delete_v1 = "AssetDeleteV1"
value asset_exif_v1 = "AssetExifV1"
value asset_edit_v1 = "AssetEditV1"
value asset_edit_delete_v1 = "AssetEditDeleteV1"
value asset_metadata_v1 = "AssetMetadataV1"
value asset_metadata_delete_v1 = "AssetMetadataDeleteV1"
value asset_ocr_v1 = "AssetOcrV1"
value asset_ocr_delete_v1 = "AssetOcrDeleteV1"
value partner_v1 = "PartnerV1"
value partner_delete_v1 = "PartnerDeleteV1"
value partner_asset_v1 = "PartnerAssetV1"
value partner_asset_v2 = "PartnerAssetV2"
value partner_asset_backfill_v1 = "PartnerAssetBackfillV1"
value partner_asset_backfill_v2 = "PartnerAssetBackfillV2"
value partner_asset_delete_v1 = "PartnerAssetDeleteV1"
value partner_asset_exif_v1 = "PartnerAssetExifV1"
value partner_asset_exif_backfill_v1 = "PartnerAssetExifBackfillV1"
value partner_stack_backfill_v1 = "PartnerStackBackfillV1"
value partner_stack_delete_v1 = "PartnerStackDeleteV1"
value partner_stack_v1 = "PartnerStackV1"
value album_v1 = "AlbumV1"
value album_v2 = "AlbumV2"
value album_delete_v1 = "AlbumDeleteV1"
value album_user_v1 = "AlbumUserV1"
value album_user_backfill_v1 = "AlbumUserBackfillV1"
value album_user_delete_v1 = "AlbumUserDeleteV1"
value album_asset_create_v1 = "AlbumAssetCreateV1"
value album_asset_create_v2 = "AlbumAssetCreateV2"
value album_asset_update_v1 = "AlbumAssetUpdateV1"
value album_asset_update_v2 = "AlbumAssetUpdateV2"
value album_asset_backfill_v1 = "AlbumAssetBackfillV1"
value album_asset_backfill_v2 = "AlbumAssetBackfillV2"
value album_asset_exif_create_v1 = "AlbumAssetExifCreateV1"
value album_asset_exif_update_v1 = "AlbumAssetExifUpdateV1"
value album_asset_exif_backfill_v1 = "AlbumAssetExifBackfillV1"
value album_to_asset_v1 = "AlbumToAssetV1"
value album_to_asset_delete_v1 = "AlbumToAssetDeleteV1"
value album_to_asset_backfill_v1 = "AlbumToAssetBackfillV1"
value memory_v1 = "MemoryV1"
value memory_delete_v1 = "MemoryDeleteV1"
value memory_to_asset_v1 = "MemoryToAssetV1"
value memory_to_asset_delete_v1 = "MemoryToAssetDeleteV1"
value stack_v1 = "StackV1"
value stack_delete_v1 = "StackDeleteV1"
value person_v1 = "PersonV1"
value person_delete_v1 = "PersonDeleteV1"
value asset_face_v1 = "AssetFaceV1"
value asset_face_v2 = "AssetFaceV2"
value asset_face_delete_v1 = "AssetFaceDeleteV1"
value user_metadata_v1 = "UserMetadataV1"
value user_metadata_delete_v1 = "UserMetadataDeleteV1"
value sync_ack_v1 = "SyncAckV1"
value sync_reset_v1 = "SyncResetV1"
value sync_complete_v1 = "SyncCompleteV1"

abbrev pub members : List SyncEntityType
members =
    auth_user_v1 ∷ user_v1 ∷ user_delete_v1 ∷ asset_v1 ∷ asset_v2 ∷ asset_delete_v1 ∷ asset_exif_v1
    ∷ asset_edit_v1 ∷ asset_edit_delete_v1 ∷ asset_metadata_v1 ∷ asset_metadata_delete_v1
    ∷ asset_ocr_v1 ∷ asset_ocr_delete_v1 ∷ partner_v1 ∷ partner_delete_v1 ∷ partner_asset_v1
    ∷ partner_asset_v2 ∷ partner_asset_backfill_v1 ∷ partner_asset_backfill_v2
    ∷ partner_asset_delete_v1 ∷ partner_asset_exif_v1 ∷ partner_asset_exif_backfill_v1
    ∷ partner_stack_backfill_v1 ∷ partner_stack_delete_v1 ∷ partner_stack_v1 ∷ album_v1 ∷ album_v2
    ∷ album_delete_v1 ∷ album_user_v1 ∷ album_user_backfill_v1 ∷ album_user_delete_v1
    ∷ album_asset_create_v1 ∷ album_asset_create_v2 ∷ album_asset_update_v1 ∷ album_asset_update_v2
    ∷ album_asset_backfill_v1 ∷ album_asset_backfill_v2 ∷ album_asset_exif_create_v1
    ∷ album_asset_exif_update_v1 ∷ album_asset_exif_backfill_v1 ∷ album_to_asset_v1
    ∷ album_to_asset_delete_v1 ∷ album_to_asset_backfill_v1 ∷ memory_v1 ∷ memory_delete_v1
    ∷ memory_to_asset_v1 ∷ memory_to_asset_delete_v1 ∷ stack_v1 ∷ stack_delete_v1 ∷ person_v1
    ∷ person_delete_v1 ∷ asset_face_v1 ∷ asset_face_v2 ∷ asset_face_delete_v1 ∷ user_metadata_v1
    ∷ user_metadata_delete_v1 ∷ sync_ack_v1 ∷ sync_reset_v1 ∷ sync_complete_v1 ∷ []

-- `SyncEntityType(text)`: the member with that value; `none` is its ValueError
unfoldable pub of_value : String → Option SyncEntityType
unfolding value
of_value text = find (λ t. value t == text) members

-- Reading the value of a member back gives the member.
pub of_value-value : (t : SyncEntityType) → of_value (value t) ≡ some t
unfolding of_value value
of_value-value auth_user_v1 = refl
of_value-value user_v1 = refl
of_value-value user_delete_v1 = refl
of_value-value asset_v1 = refl
of_value-value asset_v2 = refl
of_value-value asset_delete_v1 = refl
of_value-value asset_exif_v1 = refl
of_value-value asset_edit_v1 = refl
of_value-value asset_edit_delete_v1 = refl
of_value-value asset_metadata_v1 = refl
of_value-value asset_metadata_delete_v1 = refl
of_value-value asset_ocr_v1 = refl
of_value-value asset_ocr_delete_v1 = refl
of_value-value partner_v1 = refl
of_value-value partner_delete_v1 = refl
of_value-value partner_asset_v1 = refl
of_value-value partner_asset_v2 = refl
of_value-value partner_asset_backfill_v1 = refl
of_value-value partner_asset_backfill_v2 = refl
of_value-value partner_asset_delete_v1 = refl
of_value-value partner_asset_exif_v1 = refl
of_value-value partner_asset_exif_backfill_v1 = refl
of_value-value partner_stack_backfill_v1 = refl
of_value-value partner_stack_delete_v1 = refl
of_value-value partner_stack_v1 = refl
of_value-value album_v1 = refl
of_value-value album_v2 = refl
of_value-value album_delete_v1 = refl
of_value-value album_user_v1 = refl
of_value-value album_user_backfill_v1 = refl
of_value-value album_user_delete_v1 = refl
of_value-value album_asset_create_v1 = refl
of_value-value album_asset_create_v2 = refl
of_value-value album_asset_update_v1 = refl
of_value-value album_asset_update_v2 = refl
of_value-value album_asset_backfill_v1 = refl
of_value-value album_asset_backfill_v2 = refl
of_value-value album_asset_exif_create_v1 = refl
of_value-value album_asset_exif_update_v1 = refl
of_value-value album_asset_exif_backfill_v1 = refl
of_value-value album_to_asset_v1 = refl
of_value-value album_to_asset_delete_v1 = refl
of_value-value album_to_asset_backfill_v1 = refl
of_value-value memory_v1 = refl
of_value-value memory_delete_v1 = refl
of_value-value memory_to_asset_v1 = refl
of_value-value memory_to_asset_delete_v1 = refl
of_value-value stack_v1 = refl
of_value-value stack_delete_v1 = refl
of_value-value person_v1 = refl
of_value-value person_delete_v1 = refl
of_value-value asset_face_v1 = refl
of_value-value asset_face_v2 = refl
of_value-value asset_face_delete_v1 = refl
of_value-value user_metadata_v1 = refl
of_value-value user_metadata_delete_v1 = refl
of_value-value sync_ack_v1 = refl
of_value-value sync_reset_v1 = refl
of_value-value sync_complete_v1 = refl

pub of_value_sound : (text : String) (t : SyncEntityType) → of_value text ≡ some t → value t ≡ text
unfolding of_value
of_value_sound text t h = (string_eq.beq_iff _ _).0 (find_sound (λ u. value u == text) members t h)

pub value-injective : (a b : SyncEntityType) → value a ≡ value b → a ≡ b
value-injective a b h = some-inj (sym (of_value-value a) ∙ ap of_value h ∙ of_value-value b)

unfoldable pub same : SyncEntityType → SyncEntityType → Bool
same a b = value a == value b

pub same_iff : (a b : SyncEntityType) → (same a b ≡ true) ↔ (a ≡ b)
unfolding same
same_iff a b = (
  λ h. value-injective a b ((string_eq.beq_iff _ _).0 h),
  λ p. (string_eq.beq_iff _ _).1 (ap value p),
)

instance abbrev pub entity_type_eq : Eq SyncEntityType
entity_type_eq = record { beq = same; beq_iff = same_iff }
