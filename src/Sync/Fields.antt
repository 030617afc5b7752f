-- ===== src/Sync/Fields.antt =====
-- routers/utils/datetime_utils.py, routers/utils/asset_conversion.py and _format_exposure_time of
-- routers/api/sync/converters.py: the conversions of dates and numbers that the sync rows of an asset
-- need. Of a text that is made of a number only whether it can be made is kept.
pub mod Raises
use immich_adapter.Prelude.{
  ℕ, Bool, true, false, Option, none, some, leb, ltb, nat_eq, ◌&&◌, ◌/◌, if◌then◌else◌, Result, ok,
  err, value_error, overflow_error, and_then, map_ok, Float, nan, infinite, finite, overflows,
  to_float, times, to_int_raises, Datetime, as_utc, utc,
}
use immich_adapter.Sync.Entities.{AssetFields, Metadata}

unfoldable pub to_actual_utc : Datetime → Result Datetime
to_actual_utc dt = elim dt.offset [ none ↦ ok (utc dt.wall) | some o ↦ as_utc dt.wall o ]

-- `to_actual_utc` of a value that may be None
unfoldable pub optional_utc : Option Datetime → Result (Option Datetime)
optional_utc none = ok none
optional_utc (some dt) = map_ok some (to_actual_utc dt)

unfoldable pub resolve_file_created_at : AssetFields → Result Datetime
resolve_file_created_at fields = to_actual_utc fields.local_datetime

abbrev pub metadata_modified : Option Metadata → Option Datetime
metadata_modified none = none
metadata_modified (some m) = m.modified_datetime

-- `a or b`, where `b` may raise; a datetime is always true
abbrev pub or_date : Option Datetime → Result Datetime → Result Datetime
or_date none other = other
or_date (some dt) other = ok dt

unfoldable pub resolve_file_modified_at : AssetFields → Option Metadata → Result Datetime
resolve_file_modified_at fields metadata =
    and_then (optional_utc (metadata_modified metadata)) (λ exif. or_date exif (
      and_then (optional_utc fields.file_modified_at)
        (λ file. or_date file (resolve_file_created_at fields))))

-- `format_duration`. `duration_ms` raises nothing that it does not.
unfoldable pub format_duration : Option Float → Result (Unit {0})
format_duration none = ok tt
format_duration (some seconds) =
    and_then (to_float seconds) (λ x. to_int_raises (times x 1_000_000))

unfoldable pub format_exposure_time : Option Float → Result (Unit {0})
format_exposure_time none = ok tt
format_exposure_time (some nan) = err value_error
format_exposure_time (some (infinite negative)) = ok tt
format_exposure_time (some (finite true n d)) = ok tt
format_exposure_time (some (finite false n d)) =
    if nat_eq n 0
    then ok tt
    else if leb d n
    then ok tt
    else if overflows d n
    then err overflow_error
    else ok tt

-- `value if 1 <= value <= 5 else None`
abbrev pub in_rating_range : ℕ → Option ℕ
in_rating_range value = if leb 1 value && leb value 5 then some value else none

abbrev pub bounded_rating : Float → Option ℕ
bounded_rating (finite false n d) = in_rating_range (n / d)
bounded_rating x = none

unfoldable pub normalize_rating : Option Float → Result (Option ℕ)
normalize_rating none = ok none
normalize_rating (some rating) =
    and_then (to_float rating) (λ x. map_ok (λ _. bounded_rating x) (to_int_raises x))
