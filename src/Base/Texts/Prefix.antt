-- ===== src/Base/Texts/Prefix.antt =====
-- `strip_prefix` takes off what concatenation puts on.
use Prim.Native.Nat.{Ordering}
use Prim.Native.String.{String, [], ◌∷◌, ◌++◌, compare}
use Prim.Native.String.compare as clause
use nxr.Base.{◌≡◌, refl, ◌∙◌, none, some, arith}
use nxr.Base.Order.{string_ord, string_self}
use nxr.Base.Decimal.Read.{append_nil, append_cons}
use nxr.Base.Texts.{strip_prefix}

pub strip_prefix-append : (p s : String) → strip_prefix (p ++ s) p ≡ some s
unfolding strip_prefix
strip_prefix-append [] s = rw (append_nil s) refl
strip_prefix-append (c ∷ p) s = rw (append_cons c p s) (ground (arith, strip_prefix-append p s))

compare-stripped : (s p r : String) → strip_prefix s p ≡ some r → compare s (p ++ r) ≡ Ordering.eq
unfolding strip_prefix
compare-stripped [] [] r h =
    let same : r ≡ [] = ground (arith, h) in rw (append_nil r, same) (string_self [])
compare-stripped (d ∷ s) [] r h =
    let same : r ≡ d ∷ s = ground (arith, h) in rw (append_nil r, same) (string_self (d ∷ s))
compare-stripped [] (c ∷ p) r h = cc
compare-stripped (d ∷ s) (c ∷ p) r h =
    rw (append_cons c p r)
      (clause.cons-cons d c s (p ++ r) ∙ ground (arith, h, compare-stripped s p r))

pub strip_prefix-some : (s p r : String) → strip_prefix s p ≡ some r → s ≡ p ++ r
strip_prefix-some s p r h = string_ord.cmp_eq s (p ++ r) (compare-stripped s p r h)

pub strip_prefix-none : (p r : String) → strip_prefix (p ++ r) p ≡ none → ⊥
strip_prefix-none p r h = ground (arith, h, strip_prefix-append p r)
