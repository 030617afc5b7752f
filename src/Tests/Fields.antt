-- ===== src/Tests/Fields.antt =====
-- The conversions of dates and numbers, at the ends of their ranges.
use immich_adapter.Prelude.{
  ◌-◌, ◌^◌, ◌≡◌, refl, true, false, none, some, ok, err, value_error, overflow_error, nan, infinite,
  finite, overflows, to_float, times, to_int_raises, east, west, as_utc, utc, end_of_years,
}
use immich_adapter.Sync.Fields.{
  to_actual_utc, format_duration, format_exposure_time, normalize_rating,
}

first_hour : to_actual_utc (record { wall = 5; offset = some (east 6) }) ≡ err overflow_error
unfolding to_actual_utc as_utc
first_hour = refl

last_hour :
    to_actual_utc (record { wall = end_of_years - 1; offset = some (west 1) }) ≡ err overflow_error
unfolding to_actual_utc as_utc
last_hour = refl

within_range : to_actual_utc (record { wall = 9; offset = some (east 6) }) ≡ ok (utc 3)
unfolding to_actual_utc as_utc
within_range = refl

exposure : format_exposure_time (some (finite false 1 66)) ≡ ok tt
unfolding format_exposure_time overflows
exposure = refl

smallest_exposure : format_exposure_time (some (finite false 1 (2 ^ 1074))) ≡ err overflow_error
unfolding format_exposure_time overflows
smallest_exposure = refl

endless : format_duration (some (infinite false)) ≡ err overflow_error
unfolding format_duration to_float times to_int_raises
endless = refl

no_number : format_duration (some nan) ≡ err value_error
unfolding format_duration to_float times to_int_raises
no_number = refl

ratings : normalize_rating (some (finite false 9 2)) ≡ ok (some 4)
unfolding normalize_rating to_float to_int_raises overflows
ratings = refl

unrated : normalize_rating (some (finite true 1 1)) ≡ ok none
unfolding normalize_rating to_float to_int_raises overflows
unrated = refl
