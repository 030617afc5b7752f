-- ===== src/Prelude/Values.antt =====
-- Python's floats and datetimes, as far as converting them may raise. A finite float is its sign with a
-- fraction, since every double is one; an int stands so too, over 1. A datetime is the microseconds of
-- its wall clock since the year 1, and its offset from UTC where it has one.
use Prim.Native.Nat.{ℕ, ◌+◌, ◌-◌, ◌*◌, ◌^◌}
use mathlib.Core.Bool.{Bool}
use mathlib.Core.Option.{Option, some}
use immich_adapter.Prelude.Tests.{if◌then◌else◌, ltb, leb}
use immich_adapter.Prelude.Effects.{Result, ok, err, value_error, overflow_error}

pub data Float : Type 0 where
  nan : Float
  infinite : (is_negative : Bool) → Float
  finite : (is_negative : Bool) → (numerator denominator : ℕ) → Float

-- A quotient `n / d` rounds to infinity as a double from here on: half a step above the largest one.
unfoldable pub overflows : ℕ → ℕ → Bool
overflows n d = leb ((2 ^ 1024 - 2 ^ 970) * d) n

-- `float(x)`, which raises OverflowError for an int that is too large
unfoldable pub to_float : Float → Result Float
to_float (finite negative n d) =
    if overflows n d then err overflow_error else ok (finite negative n d)
to_float x = ok x

-- `x * k` for an int `k`
unfoldable pub times : Float → ℕ → Float
times (finite negative n d) k =
    if overflows (n * k) d then infinite negative else finite negative (n * k) d
times x k = x

-- `round(x)` or `int(x)`, as far as it raises
unfoldable pub to_int_raises : Float → Result (Unit {0})
to_int_raises nan = err value_error
to_int_raises (infinite negative) = err overflow_error
to_int_raises (finite negative n d) = ok tt

-- a `timedelta` before or after UTC, in microseconds
pub data Offset : Type 0 where
  east west : ℕ → Offset

pub record Datetime : Type 0 where
  pub wall : ℕ
  pub offset : Option Offset

-- the first microsecond behind the year 9999
abbrev pub end_of_years : ℕ
end_of_years = 3_652_059 * 86_400_000_000

abbrev pub utc : ℕ → Datetime
utc t = record { wall = t; offset = some (east 0) }

-- `dt.astimezone(timezone.utc)`: OverflowError where the time is outside the years 1 to 9999
unfoldable pub as_utc : ℕ → Offset → Result Datetime
as_utc wall (east n) = if ltb wall n then err overflow_error else ok (utc (wall - n))
as_utc wall (west n) =
    if leb end_of_years (wall + n) then err overflow_error else ok (utc (wall + n))
