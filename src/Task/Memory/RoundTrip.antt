-- ===== src/Task/Memory/RoundTrip.antt =====
-- crates/nxr-task/src/memory.rs and scheduler.rs: a printed quantity is parsed back.
use Prim.Native.String.{◌++◌ as str_append}
use nxr.Base.{
  ℕ, ◌*◌, ◌/◌, ◌%◌, ◌≤◌, ◌≡◌, ap, ◌∙◌, refl, true, false, ◌&&◌, some, String, leb, ◌==◌, arith,
  Bool-cases, inl, inr,
}
use nxr.Base.Order.{string_ord}
use nxr.Base.Words.{u64_max}
use nxr.Base.Texts.{is_whitespace, is_nothing, trim, trim_end, split_digits}
use nxr.Base.Decimal.{decimal}
use nxr.Base.Decimal.Read.{
  decimal_reads, split_digits-append, trim_start-digits, trim_end-append, nothing-append,
  append_empty,
}
use nxr.Task.Memory.{ok, multiplier, scale, parse_parts, parse_memory}
use nxr.Task.Scheduler.State.{format_memory_bytes}

-- A unit that `format_memory_bytes` prints.
record IsUnit (unit : String) (m : ℕ) : Type 0 where
  pub known : multiplier unit ≡ some m
  pub trimmed : trim_end unit ≡ unit
  pub something : is_nothing unit ≡ false
  pub apart : split_digits unit ≡ ("", unit)

module _ (n m : ℕ) (unit : String) (i : IsUnit unit m) where
  trim-printed : trim (str_append (decimal n) unit) ≡ str_append (decimal n) unit
  unfolding trim
  trim-printed =
      let (r, a, k) = decimal_reads n in
      rw (trim_start-digits (decimal n) unit a k)
        (trim_end-append (decimal n) unit i.trimmed i.something)

  split-printed : split_digits (str_append (decimal n) unit) ≡ (decimal n, unit)
  split-printed =
      let (r, a, k) = decimal_reads n in
      rw (split_digits-append (decimal n) unit a, i.apart, append_empty (decimal n)) refl

  scale-unit : (raw : String) → n * m ≤ u64_max → scale raw n unit ≡ ok (n * m)
  unfolding scale
  scale-unit raw t = ground (arith, i.known, t)

  parse-printed :
      1 ≤ n
      → n ≤ u64_max
      → n * m ≤ u64_max
      → parse_memory (str_append (decimal n) unit) ≡ ok (n * m)
  unfolding parse_memory parse_parts
  parse-printed l s t =
      let (r, a, k) = decimal_reads n in
      let fits : leb n u64_max ≡ true = ground (arith, s) in
      let positive : (n == 0) ≡ false = ground (arith, l) in
      rw
        (
          trim-printed,
          nothing-append (decimal n) unit i.something,
          split-printed,
          k,
          r,
          fits,
          positive,
        )
        (scale-unit (str_append (decimal n) unit) t)

gib-IsUnit : IsUnit "GiB" 1073741824
unfolding multiplier trim_end is_whitespace split_digits
gib-IsUnit = record { known = refl; trimmed = refl; something = refl; apart = refl }

mib-IsUnit : IsUnit "MiB" 1048576
unfolding multiplier trim_end is_whitespace split_digits
mib-IsUnit = record { known = refl; trimmed = refl; something = refl; apart = refl }

kib-IsUnit : IsUnit "KiB" 1024
unfolding multiplier trim_end is_whitespace split_digits
kib-IsUnit = record { known = refl; trimmed = refl; something = refl; apart = refl }

byte-IsUnit : IsUnit "B" 1
unfolding multiplier trim_end is_whitespace split_digits
byte-IsUnit = record { known = refl; trimmed = refl; something = refl; apart = refl }

mul_one : (n : ℕ) → n * 1 ≡ n
mul_one n = omega arith

-- A quantity that its unit Divides.
Divides : ℕ → ℕ → Type 0
Divides m n = (1 ≤ n / m) × (n / m ≤ n) × ((n / m) * m ≡ n)

printed :
    (m : ℕ) (unit : String)
    → IsUnit unit m
    → (bytes : ℕ) → bytes ≤ u64_max
    → Divides m bytes
    → parse_memory (str_append (decimal (bytes / m)) unit) ≡ ok bytes
unfolding Divides
printed m unit i bytes h (l, s, e) =
    parse-printed (bytes / m) m unit i l (omega (arith, h, s)) (omega (arith, h, e)) ∙ ap ok e

gib-Divides : (n : ℕ) → (leb 1073741824 n && n % 1073741824 == 0) ≡ true → Divides 1073741824 n
unfolding Divides
gib-Divides n h = ground (arith, h)

mib-Divides : (n : ℕ) → (leb 1048576 n && n % 1048576 == 0) ≡ true → Divides 1048576 n
unfolding Divides
mib-Divides n h = ground (arith, h)

kib-Divides : (n : ℕ) → (leb 1024 n && n % 1024 == 0) ≡ true → Divides 1024 n
unfolding Divides
kib-Divides n h = ground (arith, h)

-- A positive number of bytes, printed as the scheduler prints it, is parsed back.
pub parse_memory-format_memory_bytes :
    (bytes : ℕ) → 1 ≤ bytes → bytes ≤ u64_max → parse_memory (format_memory_bytes bytes) ≡ ok bytes
unfolding format_memory_bytes
parse_memory-format_memory_bytes bytes l h =
    elim (Bool-cases (leb 1073741824 bytes && bytes % 1073741824 == 0)) [
      | inl e ↦ rw e (printed 1073741824 "GiB" gib-IsUnit bytes h (gib-Divides bytes e))
      | inr e ↦ elim (Bool-cases (leb 1048576 bytes && bytes % 1048576 == 0)) [
        | inl f ↦ rw (e, f) (printed 1048576 "MiB" mib-IsUnit bytes h (mib-Divides bytes f))
        | inr f ↦ elim (Bool-cases (leb 1024 bytes && bytes % 1024 == 0)) [
          | inl g ↦ rw (e, f, g) (printed 1024 "KiB" kib-IsUnit bytes h (kib-Divides bytes g))
          | inr g ↦
              rw (e, f, g)
                (parse-printed bytes 1 "B" byte-IsUnit l h (omega (arith, h))
                  ∙ ap ok (mul_one bytes))
        ]
      ]
    ]
