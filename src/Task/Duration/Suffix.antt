-- ===== src/Task/Duration/Suffix.antt =====
-- crates/nxr-task/src/duration.rs: an amount with each of the short suffixes is read.
use Prim.Native.String.{◌++◌ as str_append}
use Prim.Native.Nat.{min}
use nxr.Base.{ap, ◌∙◌, ◌*◌, ℕ, ◌≤◌, ◌≡◌, refl, true, false, some, String, leb, arith}
use nxr.Base.Order.{string_ord}
use nxr.Base.Words.{u64_max}
use nxr.Base.Texts.{is_whitespace, is_nothing, trim, trim_start, trim_end, split_digits}
use nxr.Base.Decimal.{decimal}
use nxr.Base.Decimal.Read.{
  decimal_reads, split_digits-append, trim_start-digits, trim_end-append, nothing-append,
  append_empty,
}
use nxr.Task.Duration.{
  ok, TimeUnit, milliseconds, seconds, minutes, hours, unit_of, millis, split_number_unit,
  parse_amount, parse_duration,
}

abbrev pub suffix : TimeUnit → String
suffix milliseconds = "ms"
suffix seconds = "s"
suffix minutes = "m"
suffix hours = "h"

-- The milliseconds of a unit, and the longest duration of a number of seconds that fits 64 bits.
abbrev pub worth : TimeUnit → ℕ
worth milliseconds = 1
worth seconds = 1000
worth minutes = 60000
worth hours = 3600000

abbrev pub longest : ℕ
longest = 18446744073709551615 * 1000

record IsSuffix (text : String) (u : TimeUnit) : Type 0 where
  pub known : unit_of text ≡ some u
  pub trimmed_end : trim_end text ≡ text
  pub trimmed : trim text ≡ text
  pub something : is_nothing text ≡ false
  pub apart : split_digits text ≡ ("", text)

suffix-IsSuffix : (u : TimeUnit) → IsSuffix (suffix u) u
unfolding unit_of trim trim_start trim_end is_whitespace split_digits
suffix-IsSuffix milliseconds = record {
  known = refl;
  trimmed_end = refl;
  trimmed = refl;
  something = refl;
  apart = refl;
}
suffix-IsSuffix seconds = record {
  known = refl;
  trimmed_end = refl;
  trimmed = refl;
  something = refl;
  apart = refl;
}
suffix-IsSuffix minutes = record {
  known = refl;
  trimmed_end = refl;
  trimmed = refl;
  something = refl;
  apart = refl;
}
suffix-IsSuffix hours = record {
  known = refl;
  trimmed_end = refl;
  trimmed = refl;
  something = refl;
  apart = refl;
}

module _ (n : ℕ) (text : String) (u : TimeUnit) (i : IsSuffix text u) where
  trim-written : trim (str_append (decimal n) text) ≡ str_append (decimal n) text
  unfolding trim
  trim-written =
      let (r, a, k) = decimal_reads n in
      rw (trim_start-digits (decimal n) text a k)
        (trim_end-append (decimal n) text i.trimmed_end i.something)

  split-written : split_number_unit (str_append (decimal n) text) ≡ some (decimal n, text)
  unfolding split_number_unit
  split-written =
      let (r, a, k) = decimal_reads n in
      rw (split_digits-append (decimal n) text a, i.apart, append_empty (decimal n), k, i.trimmed)
        refl

  amount-written :
      (value : String) → n ≤ u64_max → parse_amount value (decimal n, text) ≡ ok (millis u n)
  unfolding parse_amount
  amount-written value h =
      let (r, a, k) = decimal_reads n in
      let fits : leb n u64_max ≡ true = ground (arith, h) in rw (r, fits) (ground (arith, i.known))

  parse-written : n ≤ u64_max → parse_duration (str_append (decimal n) text) ≡ ok (millis u n)
  unfolding parse_duration
  parse-written h =
      let all = str_append (decimal n) text in
      rw (trim-written, nothing-append (decimal n) text i.something)
        (ground (arith, split-written, amount-written (trim all) h))

millis_lem : (n : ℕ) (u : TimeUnit) → n ≤ u64_max → millis u n ≡ min (n * worth u) longest
unfolding millis
millis_lem n milliseconds h = ground (arith, h)
millis_lem n seconds h = ground (arith, h)
millis_lem n minutes h = ground (arith, h)
millis_lem n hours h = ground (arith, h)

-- A number that fits 64 bits, written before `ms`, `s`, `m` or `h`, is read as that number of
-- milliseconds, seconds, minutes or hours, counting 1, 1000, 60000 and 3600000 milliseconds; a result
-- of more than 2 ^ 64 - 1 seconds is cut to that.
pub parse_duration_lem :
    (n : ℕ) (u : TimeUnit)
    → n ≤ u64_max
    → parse_duration (str_append (decimal n) (suffix u)) ≡ ok (min (n * worth u) longest)
parse_duration_lem n u h =
    parse-written n (suffix u) u (suffix-IsSuffix u) h ∙ ap ok (millis_lem n u h)
