-- ===== src/Task/Duration.antt =====
-- crates/nxr-task/src/duration.rs: durations such as `500ms` and `10m`, as numbers of milliseconds.
pub mod Suffix
use nxr.Base.{ℕ, ◌*◌, Bool, true, false, ◌||◌, Option, none, some, String, leb, if◌then◌else◌}
use nxr.Base.Order.{string_ord, eqb}
use nxr.Base.Words.{u64_max}
use nxr.Base.Texts.{is_nothing, trim, split_digits, number_from}

pub data DurationParseError : Type 0 where
  empty : DurationParseError
  invalid : (value : String) → DurationParseError

pub data Parsed {ℓ} (A : Type ℓ) : Type ℓ where
  ok : A → Parsed A
  err : DurationParseError → Parsed A

abbrev pub saturating_mul : ℕ → ℕ → ℕ
saturating_mul a b = if leb (a * b) u64_max then a * b else u64_max

pub data TimeUnit : Type 0 where
  milliseconds seconds minutes hours : TimeUnit

unfoldable pub unit_of : String → Option TimeUnit
unit_of unit =
    if eqb unit ""
      || eqb unit "s"
      || eqb unit "sec"
      || eqb unit "secs"
      || eqb unit "second"
      || eqb unit "seconds"
    then some seconds
    else if eqb unit "ms" || eqb unit "millis" || eqb unit "millisecond" || eqb unit "milliseconds"
    then some milliseconds
    else if eqb unit "m"
        || eqb unit "min"
        || eqb unit "mins"
        || eqb unit "minute"
        || eqb unit "minutes"
    then some minutes
    else if eqb unit "h" || eqb unit "hr" || eqb unit "hrs" || eqb unit "hour" || eqb unit "hours"
    then some hours
    else none

-- The milliseconds of an amount. The seconds of minutes and hours saturate at 64 bits.
unfoldable pub millis : TimeUnit → ℕ → ℕ
millis milliseconds amount = amount
millis seconds amount = amount * 1000
millis minutes amount = saturating_mul amount 60 * 1000
millis hours amount = saturating_mul amount 3600 * 1000

unfoldable pub split_number_unit : String → Option (String × String)
split_number_unit value =
    let parts = split_digits value in
    if is_nothing parts.0 then none else some (parts.0, trim parts.1)

-- A number that 64 bits do not hold is invalid.
unfoldable pub parse_amount : String → String × String → Parsed ℕ
parse_amount value (number, unit) =
    if leb (number_from 0 number) u64_max
    then elim (unit_of unit) [
      | none ↦ err (invalid value)
      | some u ↦ ok (millis u (number_from 0 number))
    ]
    else err (invalid value)

unfoldable pub parse_duration : String → Parsed ℕ
parse_duration raw =
    let value = trim raw in
    if is_nothing value then err empty else elim (split_number_unit value) [
      | none ↦ err (invalid value)
      | some parts ↦ parse_amount value parts
    ]
