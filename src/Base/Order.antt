-- ===== src/Base/Order.antt =====
-- `Ord` of the keys of a `BTreeMap`: a comparison with the laws of a strict total order, and the
-- instance for strings. Rust compares the UTF-8 bytes, which is the order of the code points.
use Prim.Native.Nat.{ℕ, compare as compare_ℕ, Ordering}
use Prim.Native.Char.{code}
use Prim.Native.String.compare as clause
use Prim.Native.String.{String, [], ◌∷◌, compare, then}
use mathlib.Core.Path.{◌≡◌, refl, sym, ◌∙◌}
use mathlib.Core.Logic.{◌↔◌}
use mathlib.Core.Bool.{Bool, true, false}
use native.Mathlib.Omega.{arith}
use text.Mathlib.TextEquality.{path_by_compare}

pub record Ord {ℓ} (K : Type ℓ) : Type ℓ where
  pub cmp : K → K → Ordering
  pub cmp_eq : (a b : K) → cmp a b ≡ Ordering.eq → a ≡ b
  pub cmp_self : (a : K) → cmp a a ≡ Ordering.eq
  pub cmp_trans :
      (a b c : K) → cmp a b ≡ Ordering.lt → cmp b c ≡ Ordering.lt → cmp a c ≡ Ordering.lt
  pub cmp_swap : (a b : K) → cmp a b ≡ Ordering.gt → cmp b a ≡ Ordering.lt

module _ {ℓ} {K : Type ℓ} ⦃o : Ord K⦄ where
  abbrev pub eqb : K → K → Bool
  eqb a b = elim (o.cmp a b) [ Ordering.eq ↦ true | _ ↦ false ]

  pub eqb_iff : (a b : K) → (eqb a b ≡ true) ↔ (a ≡ b)
  eqb_iff a b = (λ h. o.cmp_eq a b (ground arith), λ h. rw (h, eqb, o.cmp_self b))

  pub eqb_self : (a : K) → eqb a a ≡ true
  eqb_self a = (eqb_iff a a).1 refl

  pub eqb_symm : (a b : K) → eqb a b ≡ eqb b a
  eqb_symm a b = ground (arith, eqb_iff a b, eqb_iff b a)

  pub lt-ne : (a b : K) → o.cmp a b ≡ Ordering.lt → eqb a b ≡ false
  lt-ne a b h = rw (h, eqb)

  pub gt-ne : (a b : K) → o.cmp a b ≡ Ordering.gt → eqb a b ≡ false
  gt-ne a b h = rw (h, eqb)

pub number_self : (n : ℕ) → compare_ℕ n n ≡ Ordering.eq
number_self n = ground arith

pub number_trans :
    (a b c : ℕ)
    → compare_ℕ a b ≡ Ordering.lt
    → compare_ℕ b c ≡ Ordering.lt
    → compare_ℕ a c ≡ Ordering.lt
number_trans a b c p q = ground arith

number_eq_lt : (a b c : ℕ) → compare_ℕ a b ≡ Ordering.eq → compare_ℕ b c ≡ compare_ℕ a c
number_eq_lt a b c p = ground arith

number_lt_eq : (a b c : ℕ) → compare_ℕ b c ≡ Ordering.eq → compare_ℕ a b ≡ compare_ℕ a c
number_lt_eq a b c p = ground arith

pub number_swap : (a b : ℕ) → compare_ℕ a b ≡ Ordering.gt → compare_ℕ b a ≡ Ordering.lt
number_swap a b p = ground arith

pub number_eq : (a b : ℕ) → compare_ℕ a b ≡ Ordering.eq → a ≡ b
number_eq a b p = ground arith

number_eq_swap : (a b : ℕ) → compare_ℕ a b ≡ Ordering.eq → compare_ℕ b a ≡ Ordering.eq
number_eq_swap a b p = ground arith

instance abbrev pub number_ord : Ord ℕ
number_ord = record {
  cmp = compare_ℕ;
  cmp_eq = number_eq;
  cmp_self = number_self;
  cmp_trans = number_trans;
  cmp_swap = number_swap;
}

pub string_self : (s : String) → compare s s ≡ Ordering.eq
string_self [] = clause.nil-nil
string_self (c ∷ s) =
    let self = string_self s in clause.cons-cons c c s s ∙ ground (arith, number_self (code c))

then_trans :
    (c d e : ℕ) (o p r : Ordering)
    → (o ≡ Ordering.lt → p ≡ Ordering.lt → r ≡ Ordering.lt)
    → then (compare_ℕ c d) o ≡ Ordering.lt
    → then (compare_ℕ d e) p ≡ Ordering.lt
    → then (compare_ℕ c e) r ≡ Ordering.lt
then_trans c d e o p r ih h k =
    ground (arith, number_trans c d e, number_eq_lt c d e, number_lt_eq c d e)

then_swap :
    (c d : ℕ) (o p : Ordering)
    → (o ≡ Ordering.gt → p ≡ Ordering.lt)
    → then (compare_ℕ c d) o ≡ Ordering.gt
    → then (compare_ℕ d c) p ≡ Ordering.lt
then_swap c d o p ih h = ground (arith, number_swap c d, number_eq_swap c d)

pub string_trans :
    (s t u : String)
    → compare s t ≡ Ordering.lt
    → compare t u ≡ Ordering.lt
    → compare s u ≡ Ordering.lt
string_trans [] [] u p q = cc
string_trans [] (d ∷ t) [] p q = cc (clause.cons-nil d t)
string_trans [] (d ∷ t) (e ∷ u) p q = clause.nil-cons e u
string_trans (c ∷ s) [] u p q = cc (clause.cons-nil c s)
string_trans (c ∷ s) (d ∷ t) [] p q = cc (clause.cons-nil d t)
string_trans (c ∷ s) (d ∷ t) (e ∷ u) p q =
    clause.cons-cons c e s u
    ∙ then_trans (code c) (code d) (code e) (compare s t) (compare t u) (compare s u)
        (string_trans s t u) (sym (clause.cons-cons c d s t) ∙ p)
        (sym (clause.cons-cons d e t u) ∙ q)

pub string_swap : (s t : String) → compare s t ≡ Ordering.gt → compare t s ≡ Ordering.lt
string_swap [] [] p = cc
string_swap [] (d ∷ t) p = cc (clause.nil-cons d t)
string_swap (c ∷ s) [] p = clause.nil-cons c s
string_swap (c ∷ s) (d ∷ t) p =
    clause.cons-cons d c t s
    ∙ then_swap (code c) (code d) (compare s t) (compare t s) (string_swap s t)
        (sym (clause.cons-cons c d s t) ∙ p)

instance abbrev pub string_ord : Ord String
string_ord = record {
  cmp = compare;
  cmp_eq = path_by_compare;
  cmp_self = string_self;
  cmp_trans = string_trans;
  cmp_swap = string_swap;
}
