-- ===== src/Common/Stdlib.antt =====
-- What the code uses of Python's standard library, and of the database for times, as the parameters
-- of the definitions that use it; and `int` arguments.
use Prim.Native.Nat.{ℕ}
use Prim.Native.String.{String}
use mathlib.Core.Bool.{Bool, true, false}
use mathlib.Core.Option.{Option}
use rh_reclaw.Common.Json.{Json}

-- A `datetime`: without a time zone, or a moment in microseconds.
pub data Datetime : Type 0 where
  naive : ℕ → Datetime
  aware : ℕ → Datetime

pub record Stdlib : Type 0 where
  -- `repr(value)`
  pub repr : Json → String
  -- `uuid.UUID(value)`, and `str` of a UUID
  pub parse_uuid : String → Option ℕ
  pub uuid_text : ℕ → String
  -- `datetime.fromisoformat(value)`, and `isoformat` of a moment
  pub fromisoformat : String → Option Datetime
  pub isoformat : ℕ → String
  -- the moment of a `datetime` without a zone, in the time zone of the database session
  pub zoned : ℕ → ℕ
  -- `round(ms, 1)` of a duration in microseconds
  pub round : ℕ → Json

-- `negsuc n` is -(n + 1).
pub data ℤ : Type 0 where
  pos : ℕ → ℤ
  negsuc : ℕ → ℤ

abbrev pub is_negative : ℤ → Bool
is_negative (pos n) = false
is_negative (negsuc n) = true

-- `max(0, n)`
abbrev pub to_nat : ℤ → ℕ
to_nat (pos n) = n
to_nat (negsuc n) = 0
