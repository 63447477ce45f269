-- ===== src/Task/Memory.antt =====
-- crates/nxr-task/src/memory.rs: memory quantities such as `512MiB`.
pub mod RoundTrip
use nxr.Base.{
  ℕ, ◌*◌, ◌^◌, Bool, true, false, ◌||◌, Option, none, some, String, leb, ◌==◌, if◌then◌else◌,
}
use nxr.Base.Order.{string_ord, eqb}
use nxr.Base.Words.{u64_max, checked_mul}
use nxr.Base.Texts.{is_nothing, trim, split_digits, number_from}

-- The messages of the source, by what they say.
pub data MemoryParseError : Type 0 where
  empty : MemoryParseError
  invalid_quantity : (raw : String) → MemoryParseError
  zero_quantity : MemoryParseError
  unknown_unit : (unit raw : String) → MemoryParseError
  overflow : (raw : String) → MemoryParseError

pub data Parsed {ℓ} (A : Type ℓ) : Type ℓ where
  ok : A → Parsed A
  err : MemoryParseError → Parsed A

unfoldable pub multiplier : String → Option ℕ
multiplier unit =
    if eqb unit "" || eqb unit "B"
    then some 1
    else if eqb unit "K" || eqb unit "KB" || eqb unit "KiB"
    then some 1024
    else if eqb unit "M" || eqb unit "MB" || eqb unit "MiB"
    then some 1048576
    else if eqb unit "G" || eqb unit "GB" || eqb unit "GiB"
    then some 1073741824
    else if eqb unit "T" || eqb unit "TB" || eqb unit "TiB"
    then some 1099511627776
    else none

-- The value and its unit are known.
unfoldable pub scale : String → ℕ → String → Parsed ℕ
scale raw value unit = elim (multiplier unit) [
  | none ↦ err (unknown_unit unit raw)
  | some m ↦ elim (checked_mul u64_max value m) [
    | none ↦ err (overflow raw)
    | some bytes ↦ ok bytes
  ]
]

unfoldable pub parse_parts : (raw trimmed : String) → String × String → Parsed ℕ
parse_parts raw trimmed (digits, unit) =
    if is_nothing digits
    then err (invalid_quantity trimmed)
    else if leb (number_from 0 digits) u64_max
    then (if number_from 0 digits == 0
        then err zero_quantity
        else scale raw (number_from 0 digits) unit)
    else err (invalid_quantity raw)

unfoldable pub parse_memory : String → Parsed ℕ
parse_memory raw =
    if is_nothing (trim raw)
    then err empty
    else parse_parts raw (trim raw) (split_digits (trim raw))
