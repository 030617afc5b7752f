-- ===== src/Sync/Fields/Raises.antt =====
-- routers/utils/datetime_utils.py and asset_conversion.py: the exceptions of converting dates and numbers.
use immich_adapter.Prelude.{
  ℕ, true, false, Option, none, some, Error, value_error, overflow_error, Raises, Raises-and_then,
  Raises-map_ok, Raises-if, leb, ltb, nat_eq, Result, Float, nan, infinite, finite, overflows,
  to_float, times, to_int_raises, Datetime, Offset, east, west, as_utc, end_of_years, Option-cases,
  inl, inr, ◌+◌,
}
use immich_adapter.Sync.Entities.{AssetFields, Metadata}
use immich_adapter.Sync.Fields.{
  to_actual_utc, optional_utc, resolve_file_created_at, resolve_file_modified_at, metadata_modified,
  or_date, format_duration, format_exposure_time, normalize_rating,
}

module _ (P : Error → Type 0) (v : P value_error) (o : P overflow_error) where
  as_utc-Raises : (wall : ℕ) (offset : Offset) → Raises P (as_utc wall offset)
  unfolding as_utc
  as_utc-Raises wall (east n) = Raises-if P (ltb wall n) _ _ o tt
  as_utc-Raises wall (west n) = Raises-if P (leb end_of_years (wall + n)) _ _ o tt

  to_actual_utc-Raises : (dt : Datetime) → Raises P (to_actual_utc dt)
  unfolding to_actual_utc
  to_actual_utc-Raises dt = elim (Option-cases dt.offset) [
    | inl e ↦ rw e tt
    | inr (offset, e) ↦ rw e (as_utc-Raises dt.wall offset)
  ]

  pub optional_utc-Raises : (dt : Option Datetime) → Raises P (optional_utc dt)
  unfolding optional_utc
  optional_utc-Raises none = tt
  optional_utc-Raises (some dt) = Raises-map_ok P some _ (to_actual_utc-Raises dt)

  pub resolve_file_created_at-Raises : (f : AssetFields) → Raises P (resolve_file_created_at f)
  unfolding resolve_file_created_at
  resolve_file_created_at-Raises f = to_actual_utc-Raises f.local_datetime

  or_date-Raises :
      (dt : Option Datetime) (other : Result Datetime)
      → Raises P other
      → Raises P (or_date dt other)
  or_date-Raises none other h = h
  or_date-Raises (some dt) other h = tt

  pub resolve_file_modified_at-Raises :
      (f : AssetFields) (m : Option Metadata) → Raises P (resolve_file_modified_at f m)
  unfolding resolve_file_modified_at
  resolve_file_modified_at-Raises f m =
      Raises-and_then P _ _ (optional_utc-Raises (metadata_modified m)) (λ exif.
        or_date-Raises exif _ (
          Raises-and_then P _ _ (optional_utc-Raises f.file_modified_at)
            (λ file. or_date-Raises file _ (resolve_file_created_at-Raises f))))

  to_float-Raises : (x : Float) → Raises P (to_float x)
  unfolding to_float
  to_float-Raises nan = tt
  to_float-Raises (infinite negative) = tt
  to_float-Raises (finite negative n d) = Raises-if P (overflows n d) _ _ o tt

  to_int-Raises : (x : Float) → Raises P (to_int_raises x)
  unfolding to_int_raises
  to_int-Raises nan = v
  to_int-Raises (infinite negative) = o
  to_int-Raises (finite negative n d) = tt

  pub format_duration-Raises : (seconds : Option Float) → Raises P (format_duration seconds)
  unfolding format_duration
  format_duration-Raises none = tt
  format_duration-Raises (some x) =
      Raises-and_then P _ _ (to_float-Raises x) (λ y. to_int-Raises (times y 1_000_000))

  pub format_exposure_time-Raises : (x : Option Float) → Raises P (format_exposure_time x)
  unfolding format_exposure_time
  format_exposure_time-Raises none = tt
  format_exposure_time-Raises (some nan) = v
  format_exposure_time-Raises (some (infinite negative)) = tt
  format_exposure_time-Raises (some (finite true n d)) = tt
  format_exposure_time-Raises (some (finite false n d)) =
      Raises-if P (nat_eq n 0) _ _ tt
        (Raises-if P (leb d n) _ _ tt (Raises-if P (overflows d n) _ _ o tt))

  pub normalize_rating-Raises : (x : Option Float) → Raises P (normalize_rating x)
  unfolding normalize_rating
  normalize_rating-Raises none = tt
  normalize_rating-Raises (some x) =
      Raises-and_then P _ _ (to_float-Raises x) (λ y. Raises-map_ok P _ _ (to_int-Raises y))
