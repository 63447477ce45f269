-- ===== src/Base/Decimal/Read.antt =====
-- Decimal digits read back.
use Prim.Native.Nat.{ℕ, zero, suc, ◌+◌, ◌-◌, ◌*◌, ◌/◌, ◌%◌, ◌<◌, ◌≤◌}
use Prim.Native.Char.{Char, code}
use Prim.Native.String.{String, [], ◌∷◌, ◌++◌}
use mathlib.Core.Path.{◌≡◌, refl, ◌∙◌}
use mathlib.Core.Bool.{Bool, true, false, ◌&&◌}
use mathlib.Core.Logic.{inl, inr}
use native.Mathlib.Omega.{arith}
use nxr.Base.Tests.{ltb, Bool-cases}
use nxr.Base.Texts.{
  is_whitespace, is_nothing, trim_start, trim_end, is_ascii_digit, split_digits, number_from,
}
use Prim.Native.String.append.{nil, cons}
use nxr.Base.Decimal.{digit, print, decimal}

pub append_nil : (t : String) → [] ++ t ≡ t
append_nil t = λ i. nil t i

pub append_cons : (c : Char) (s t : String) → (c ∷ s) ++ t ≡ c ∷ (s ++ t)
append_cons c s t = λ i. cons c s t i

pub append_empty : (s : String) → s ++ [] ≡ s
append_empty [] = rw (append_nil []) refl
append_empty (c ∷ s) = rw (append_cons c s [], append_empty s) refl

pub number_from-append :
    (n : ℕ) (s t : String) → number_from n (s ++ t) ≡ number_from (number_from n s) t
unfolding number_from
number_from-append n [] t = rw (append_nil t) refl
number_from-append n (c ∷ s) t =
    rw (append_cons c s t) (number_from-append (n * 10 + (code c - 48)) s t)

abbrev pub all_digits : String → Bool
all_digits [] = true
all_digits (c ∷ s) = is_ascii_digit c && all_digits s

all_digits-append : (s t : String) → all_digits (s ++ t) ≡ (all_digits s && all_digits t)
all_digits-append [] t = rw (append_nil t) refl
all_digits-append (c ∷ s) t = rw (append_cons c s t) (ground (arith, all_digits-append s t))

is_nothing-append : (s t : String) → is_nothing s ≡ false → is_nothing (s ++ t) ≡ false
is_nothing-append [] t h = cc
is_nothing-append (c ∷ s) t h = rw (append_cons c s t) refl

pub nothing-append : (s t : String) → is_nothing t ≡ false → is_nothing (s ++ t) ≡ false
nothing-append [] t h = rw (append_nil t) h
nothing-append (c ∷ s) t h = rw (append_cons c s t) refl

pub split_digits-append :
    (s t : String)
    → all_digits s ≡ true
    → split_digits (s ++ t) ≡ (s ++ (split_digits t).0, (split_digits t).1)
unfolding split_digits
split_digits-append [] t h = rw (append_nil t, append_nil (split_digits t).0) refl
split_digits-append (c ∷ s) t h =
    rw (append_cons c s t, append_cons c s (split_digits t).0)
      (ground (arith, h, split_digits-append s t))

digit_nonblank : (c : Char) → is_ascii_digit c ≡ true → is_whitespace c ≡ false
unfolding is_whitespace
digit_nonblank c h = ground (arith, h)

pub trim_start-digits :
    (s t : String) → all_digits s ≡ true → is_nothing s ≡ false → trim_start (s ++ t) ≡ s ++ t
unfolding trim_start
trim_start-digits [] t h k = cc
trim_start-digits (c ∷ s) t h k = rw (append_cons c s t) (ground (arith, h, digit_nonblank c))

pub trim_end-append :
    (s t : String) → trim_end t ≡ t → is_nothing t ≡ false → trim_end (s ++ t) ≡ s ++ t
unfolding trim_end
trim_end-append [] t e k = rw (append_nil t) e
trim_end-append (c ∷ s) t e k =
    let rest = trim_end-append s t e k in
    rw (append_cons c s t) (ground (arith, rest, nothing-append s t k))

below_ten :
    (P : ℕ → Type 0)
    → P 0
    → P 1
    → P 2
    → P 3
    → P 4
    → P 5
    → P 6
    → P 7
    → P 8
    → P 9
    → (d : ℕ) → d < 10
    → P d
below_ten P p0 p1 p2 p3 p4 p5 p6 p7 p8 p9 zero h = p0
below_ten P p0 p1 p2 p3 p4 p5 p6 p7 p8 p9 (suc zero) h = p1
below_ten P p0 p1 p2 p3 p4 p5 p6 p7 p8 p9 (suc (suc zero)) h = p2
below_ten P p0 p1 p2 p3 p4 p5 p6 p7 p8 p9 (suc (suc (suc zero))) h = p3
below_ten P p0 p1 p2 p3 p4 p5 p6 p7 p8 p9 (suc (suc (suc (suc zero)))) h = p4
below_ten P p0 p1 p2 p3 p4 p5 p6 p7 p8 p9 (suc (suc (suc (suc (suc zero))))) h = p5
below_ten P p0 p1 p2 p3 p4 p5 p6 p7 p8 p9 (suc (suc (suc (suc (suc (suc zero)))))) h = p6
below_ten P p0 p1 p2 p3 p4 p5 p6 p7 p8 p9 (suc (suc (suc (suc (suc (suc (suc zero))))))) h = p7
below_ten P p0 p1 p2 p3 p4 p5 p6 p7 p8 p9 (suc (suc (suc (suc (suc (suc (suc (suc zero)))))))) h =
    p8
below_ten P p0 p1 p2 p3 p4 p5 p6 p7 p8 p9 (suc (suc (suc (suc (suc (suc (suc (suc (suc zero)))))))))
      h =
    p9
below_ten P p0 p1 p2 p3 p4 p5 p6 p7 p8 p9
      (suc (suc (suc (suc (suc (suc (suc (suc (suc (suc d)))))))))) h =
    absurd (omega (arith, h))

number_from-digit : (n d : ℕ) → d < 10 → number_from n (digit d) ≡ n * 10 + d
unfolding number_from digit
number_from-digit n =
    below_ten (λ d. number_from n (digit d) ≡ n * 10 + d) refl refl refl refl refl refl refl refl
      refl refl

all_digits-digit : (d : ℕ) → d < 10 → all_digits (digit d) ≡ true
unfolding digit
all_digits-digit =
    below_ten (λ d. all_digits (digit d) ≡ true) refl refl refl refl refl refl refl refl refl refl

digit_something : (d : ℕ) → d < 10 → is_nothing (digit d) ≡ false
unfolding digit
digit_something =
    below_ten (λ d. is_nothing (digit d) ≡ false) refl refl refl refl refl refl refl refl refl refl

front_less : (n : ℕ) → 10 ≤ n → n / 10 < n
front_less n h = omega (arith, h)

print_reads :
    (fuel n : ℕ)
    → n < fuel
    → (number_from 0 (print fuel n) ≡ n)
      × (all_digits (print fuel n) ≡ true)
      × (is_nothing (print fuel n) ≡ false)
unfolding print
print_reads zero n h = absurd (omega (arith, h))
print_reads (suc fuel) n h = elim (Bool-cases (ltb n 10)) [
  | inl e ↦
      let small : n < 10 = ground (arith, e) in
      let read : number_from 0 (digit n) ≡ n = omega (arith, number_from-digit 0 n small) in
      rw e (read, all_digits-digit n small, digit_something n small)
  | inr e ↦
      let front = n / 10 in
      let last = n % 10 in
      let (r, a, k) = print_reads fuel front (ground (arith, h, e, front_less n)) in
      let small : last < 10 = omega arith in
      let read : number_from 0 (print fuel front ++ digit last) ≡ n =
        number_from-append 0 (print fuel front) (digit last)
        ∙ number_from-digit (number_from 0 (print fuel front)) last small
        ∙ omega (arith, r) in
      rw e (
        read,
        ground (
          arith,
          a,
          all_digits-append (print fuel front) (digit last),
          all_digits-digit last small,
        ),
        is_nothing-append (print fuel front) (digit last) k,
      )
]

-- A printed number is digits, at least one, that read back as the number.
pub decimal_reads :
    (n : ℕ)
    → (number_from 0 (decimal n) ≡ n)
      × (all_digits (decimal n) ≡ true)
      × (is_nothing (decimal n) ≡ false)
unfolding decimal
decimal_reads n = print_reads (suc n) n (omega arith)
