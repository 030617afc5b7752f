-- ===== src/Sync/RequestType.antt =====
-- routers/immich_models.py, `SyncRequestType`: what a client asks a sync stream for.
use immich_adapter.Prelude.{
  String, ◌≡◌, refl, ◌↔◌, Bool, true, Option, some, List, [], ◌∷◌, find, find_sound, Eq, ◌==◌,
  string_eq, ap, ◌∙◌, sym, some-inj,
}

pub data SyncRequestType : Type 0 where
  albums_v1 albums_v2 album_users_v1 album_to_assets_v1 album_assets_v1 album_assets_v2 :
      SyncRequestType
  album_asset_exifs_v1 assets_v1 assets_v2 asset_exifs_v1 asset_edits_v1 asset_metadata_v1 :
      SyncRequestType
  asset_ocr_v1 auth_users_v1 memories_v1 memory_to_assets_v1 partners_v1 partner_assets_v1 :
      SyncRequestType
  partner_assets_v2 partner_asset_exifs_v1 partner_stacks_v1 stacks_v1 users_v1 people_v1 :
      SyncRequestType
  asset_faces_v1 asset_faces_v2 user_metadata_v1 : SyncRequestType

-- the enum member's value
unfoldable pub value : SyncRequestType → String
value albums_v1 = "AlbumsV1"
value albums_v2 = "AlbumsV2"
value album_users_v1 = "AlbumUsersV1"
value album_to_assets_v1 = "AlbumToAssetsV1"
value album_assets_v1 = "AlbumAssetsV1"
value album_assets_v2 = "AlbumAssetsV2"
value album_asset_exifs_v1 = "AlbumAssetExifsV1"
value assets_v1 = "AssetsV1"
value assets_v2 = "AssetsV2"
value asset_exifs_v1 = "AssetExifsV1"
value asset_edits_v1 = "AssetEditsV1"
value asset_metadata_v1 = "AssetMetadataV1"
value asset_ocr_v1 = "AssetOcrV1"
value auth_users_v1 = "AuthUsersV1"
value memories_v1 = "MemoriesV1"
value memory_to_assets_v1 = "MemoryToAssetsV1"
value partners_v1 = "PartnersV1"
value partner_assets_v1 = "PartnerAssetsV1"
value partner_assets_v2 = "PartnerAssetsV2"
value partner_asset_exifs_v1 = "PartnerAssetExifsV1"
value partner_stacks_v1 = "PartnerStacksV1"
value stacks_v1 = "StacksV1"
value users_v1 = "UsersV1"
value people_v1 = "PeopleV1"
value asset_faces_v1 = "AssetFacesV1"
value asset_faces_v2 = "AssetFacesV2"
value user_metadata_v1 = "UserMetadataV1"

abbrev pub members : List SyncRequestType
members =
    albums_v1 ∷ albums_v2 ∷ album_users_v1 ∷ album_to_assets_v1 ∷ album_assets_v1 ∷ album_assets_v2
    ∷ album_asset_exifs_v1 ∷ assets_v1 ∷ assets_v2 ∷ asset_exifs_v1 ∷ asset_edits_v1
    ∷ asset_metadata_v1 ∷ asset_ocr_v1 ∷ auth_users_v1 ∷ memories_v1 ∷ memory_to_assets_v1
    ∷ partners_v1 ∷ partner_assets_v1 ∷ partner_assets_v2 ∷ partner_asset_exifs_v1
    ∷ partner_stacks_v1 ∷ stacks_v1 ∷ users_v1 ∷ people_v1 ∷ asset_faces_v1 ∷ asset_faces_v2
    ∷ user_metadata_v1 ∷ []

-- `SyncRequestType(text)`: the member with that value; `none` is its ValueError
unfoldable pub of_value : String → Option SyncRequestType
unfolding value
of_value text = find (λ t. value t == text) members

-- Reading the value of a member back gives the member.
pub of_value-value : (t : SyncRequestType) → of_value (value t) ≡ some t
unfolding of_value value
of_value-value albums_v1 = refl
of_value-value albums_v2 = refl
of_value-value album_users_v1 = refl
of_value-value album_to_assets_v1 = refl
of_value-value album_assets_v1 = refl
of_value-value album_assets_v2 = refl
of_value-value album_asset_exifs_v1 = refl
of_value-value assets_v1 = refl
of_value-value assets_v2 = refl
of_value-value asset_exifs_v1 = refl
of_value-value asset_edits_v1 = refl
of_value-value asset_metadata_v1 = refl
of_value-value asset_ocr_v1 = refl
of_value-value auth_users_v1 = refl
of_value-value memories_v1 = refl
of_value-value memory_to_assets_v1 = refl
of_value-value partners_v1 = refl
of_value-value partner_assets_v1 = refl
of_value-value partner_assets_v2 = refl
of_value-value partner_asset_exifs_v1 = refl
of_value-value partner_stacks_v1 = refl
of_value-value stacks_v1 = refl
of_value-value users_v1 = refl
of_value-value people_v1 = refl
of_value-value asset_faces_v1 = refl
of_value-value asset_faces_v2 = refl
of_value-value user_metadata_v1 = refl

pub of_value_sound : (text : String) (t : SyncRequestType) → of_value text ≡ some t → value t ≡ text
unfolding of_value
of_value_sound text t h = (string_eq.beq_iff _ _).0 (find_sound (λ u. value u == text) members t h)

pub value-injective : (a b : SyncRequestType) → value a ≡ value b → a ≡ b
value-injective a b h = some-inj (sym (of_value-value a) ∙ ap of_value h ∙ of_value-value b)

unfoldable pub same : SyncRequestType → SyncRequestType → Bool
same a b = value a == value b

pub same_iff : (a b : SyncRequestType) → (same a b ≡ true) ↔ (a ≡ b)
unfolding same
same_iff a b = (
  λ h. value-injective a b ((string_eq.beq_iff _ _).0 h),
  λ p. (string_eq.beq_iff _ _).1 (ap value p),
)

instance abbrev pub request_type_eq : Eq SyncRequestType
request_type_eq = record { beq = same; beq_iff = same_iff }
