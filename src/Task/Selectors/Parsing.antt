-- ===== src/Task/Selectors/Parsing.antt =====
-- crates/nxr-task/src/selectors.rs: `parse_selector` tells what a token means.
use Prim.Native.Char.{code}
use Prim.Native.String.{String, [], ◌∷◌, ◌++◌}
use nxr.Base.{
  ◌≡◌, ◌≢◌, refl, sym, ap, ◌∙◌, Bool, true, false, not, none, some, arith, ◌==◌, Bool-cases,
  Option-cases, inl, inr,
}
use nxr.Base.Order.{string_ord, eqb, eqb_iff}
use nxr.Base.Decimal.Read.{append_cons}
use nxr.Base.Texts.{strip_prefix}
use nxr.Base.Texts.Prefix.{strip_prefix-append, strip_prefix-some}
use nxr.Task.Selectors.{ParsedSelector, category, changed, task, app, bare, parse_selector}
use nxr.Task.Selectors.Meaning.{Reads}

-- Two prefixes that begin differently.
abbrev clash : String → String → Bool
clash [] q = false
clash (c ∷ p) [] = false
clash (c ∷ p) (d ∷ q) = not (code d == code c)

strip_prefix-clash : (p q s : String) → clash p q ≡ true → strip_prefix (p ++ s) q ≡ none
unfolding strip_prefix
strip_prefix-clash [] q s h = cc
strip_prefix-clash (c ∷ p) [] s h = cc
strip_prefix-clash (c ∷ p) (d ∷ q) s h = rw (append_cons c p s) (ground (arith, h))

-- A token that a prefix does not fit does not begin with it.
unfit : (token p : String) → strip_prefix token p ≡ none → (s : String) → token ≢ p ++ s
unfit token p h s e = ground (arith, h, strip_prefix-append p s, ap (λ t. strip_prefix t p) e)

fit : (token p : String) → ((s : String) → token ≢ p ++ s) → strip_prefix token p ≡ none
fit token p h = elim (Option-cases (strip_prefix token p)) [
  | inl e ↦ e
  | inr (s, e) ↦ absurd (h s (strip_prefix-some token p s e))
]

pub parse_selector-Reads : (token : String) → Reads token (parse_selector token)
unfolding parse_selector
parse_selector-Reads token = elim (Bool-cases (eqb token "changed")) [
  | inl e ↦ rw (e, parse_selector) ((eqb_iff token "changed").0 e)
  | inr e ↦ elim (Option-cases (strip_prefix token "category:")) [
    | inr (c, f) ↦ rw (e, f, parse_selector) (strip_prefix-some token "category:" c f)
    | inl f ↦ elim (Option-cases (strip_prefix token "task:")) [
      | inr (n, g) ↦ rw (e, f, g, parse_selector) (strip_prefix-some token "task:" n g)
      | inl g ↦ elim (Option-cases (strip_prefix token "app:")) [
        | inr (n, h) ↦ rw (e, f, g, h, parse_selector) (strip_prefix-some token "app:" n h)
        | inl h ↦
            rw (e, f, g, h, parse_selector)
              (
                refl,
                (λ q. ground (arith, e, q, eqb_iff token "changed")),
                unfit token "category:" f,
                unfit token "task:" g,
                unfit token "app:" h,
              )
      ]
    ]
  ]
]

not_changed :
    (token p s : String)
    → strip_prefix "changed" p ≡ none
    → token ≡ p ++ s
    → eqb token "changed" ≡ false
not_changed token p s h e = elim (Bool-cases (eqb token "changed")) [
  | inr q ↦ q
  | inl q ↦
      let same : token ≡ "changed" = (eqb_iff token "changed").0 q in
      absurd (unfit "changed" p h s (sym same ∙ e))
]

pub Reads-parse_selector :
    (token : String) (p : ParsedSelector) → Reads token p → parse_selector token ≡ p
unfolding parse_selector strip_prefix
Reads-parse_selector token changed e = rw e refl
Reads-parse_selector token (category c) e =
    let f : strip_prefix token "category:" ≡ some c = rw e (strip_prefix-append "category:" c) in
    ground (arith, not_changed token "category:" c refl e, f)
Reads-parse_selector token (task n) e =
    let f : strip_prefix token "category:" ≡ none =
      rw e (strip_prefix-clash "task:" "category:" n refl) in
    let g : strip_prefix token "task:" ≡ some n = rw e (strip_prefix-append "task:" n) in
    ground (arith, not_changed token "task:" n refl e, f, g)
Reads-parse_selector token (app n) e =
    let f : strip_prefix token "category:" ≡ none =
      rw e (strip_prefix-clash "app:" "category:" n refl) in
    let g : strip_prefix token "task:" ≡ none = rw e (strip_prefix-clash "app:" "task:" n refl) in
    let h : strip_prefix token "app:" ≡ some n = rw e (strip_prefix-append "app:" n) in
    ground (arith, not_changed token "app:" n refl e, f, g, h)
Reads-parse_selector token (bare n) (e, a, b, c, d) =
    let plain : eqb token "changed" ≡ false = elim (Bool-cases (eqb token "changed")) [
      | inl q ↦ absurd (a ((eqb_iff token "changed").0 q))
      | inr q ↦ q
    ] in
    ground (arith, plain, e, fit token "category:" b, fit token "task:" c, fit token "app:" d)
