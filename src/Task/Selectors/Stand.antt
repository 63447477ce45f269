-- ===== src/Task/Selectors/Stand.antt =====
-- crates/nxr-task/src/selectors.rs: the tasks that are selected are those that the tokens stand for.
use nxr.Base.{
  ◌≡◌, refl, sym, ap, ◌∙◌, ◌↔◌, true, List, [], ◌∷◌, String, arith, Bool-cases, inl, inr,
}
use nxr.Base.Order.{string_ord, eqb, eqb_iff, eqb_self}
use nxr.Base.Set.{contains}
use nxr.Base.Map
use nxr.Task.Schema.{Tasks}
use nxr.Task.Resolve
use nxr.Task.Resolve.{resolve_task_name}
use nxr.Task.Selectors.{ParsedSelector, category, changed, task, app, bare, parse_selector}
use nxr.Task.Selectors.Meaning.{Reads, Called, Stands}
use nxr.Task.Selectors.Parsing.{parse_selector-Reads, Reads-parse_selector}
use nxr.Task.Selectors.Named.{resolve_task_name-Called, listable_iff}
use nxr.Task.Selectors.Chosen.{names_task, selects, any_selects, is_changed, any_changed}

-- Some token stands for the task.
abbrev pub Selected : Tasks → List String → String → Type 0
Selected doc tokens n =
    (token : String) × (p : ParsedSelector) × (contains token tokens ≡ true)
    × Reads token p
    × Stands doc p n

names_task_iff :
    (r : Resolve.Result String) (n : String) → (names_task r n ≡ true) ↔ (r ≡ Resolve.ok n)
names_task_iff (Resolve.ok c) n =
    ((λ h. ap Resolve.ok (sym ((eqb_iff n c).0 h))), (λ h. ground (arith, h, eqb_self n)))
names_task_iff (Resolve.err e) n = ((λ h. cc), (λ h. cc))

module _ (doc : Tasks) (s : Map.IsSorted doc) where
  named_iff :
      (name n : String) → (names_task (resolve_task_name doc name) n ≡ true) ↔ Called doc name n
  named_iff name n =
      let (to, back) = names_task_iff (resolve_task_name doc name) n in
      let (called, resolved) = resolve_task_name-Called doc name n s in
      ((λ h. called (to h)), (λ c. back (resolved c)))

  pub selects_iff : (p : ParsedSelector) (n : String) → (selects doc p n ≡ true) ↔ Stands doc p n
  selects_iff changed n = ((λ h. absurd (ground (arith, h))), (λ h. absurd h))
  selects_iff (app name) n = ((λ h. absurd (ground (arith, h))), (λ h. absurd h))
  selects_iff (category c) n = listable_iff n c doc s
  selects_iff (task name) n = named_iff name n
  selects_iff (bare name) n = named_iff name n

  any_selects-Selected :
      (tokens : List String) (n : String) → any_selects doc tokens n ≡ true → Selected doc tokens n
  any_selects-Selected [] n h = cc
  any_selects-Selected (t ∷ tokens) n h = elim (Bool-cases (selects doc (parse_selector t) n)) [
    | inl e ↦ (
      t,
      parse_selector t,
      ground (arith, eqb_self t),
      parse_selector-Reads t,
      (selects_iff (parse_selector t) n).0 e,
    )
    | inr e ↦
        let (token, p, c, r, stands) = any_selects-Selected tokens n (ground (arith, h, e)) in
        (token, p, ground (arith, c), r, stands)
  ]

  Selected-any_selects :
      (tokens : List String) (n : String) → Selected doc tokens n → any_selects doc tokens n ≡ true
  Selected-any_selects [] n (token, p, c, r, stands) = cc
  Selected-any_selects (t ∷ tokens) n (token, p, c, r, stands) = elim (Bool-cases (eqb token t)) [
    | inl e ↦
        let same : token ≡ t = (eqb_iff token t).0 e in
        let parsed : parse_selector t ≡ p =
          ap parse_selector (sym same) ∙ Reads-parse_selector token p r in
        let here : selects doc (parse_selector t) n ≡ true =
          ap (λ q. selects doc q n) parsed ∙ (selects_iff p n).1 stands in
        ground (arith, here)
    | inr e ↦
        let rest = Selected-any_selects tokens n (token, p, ground (arith, c, e), r, stands) in
        ground (arith, rest)
  ]

  pub any_selects_iff :
      (tokens : List String) (n : String)
      → (any_selects doc tokens n ≡ true) ↔ Selected doc tokens n
  any_selects_iff tokens n = (any_selects-Selected tokens n, Selected-any_selects tokens n)

changed_read :
    (token : String) (p : ParsedSelector) → Reads token p → is_changed p ≡ true → token ≡ "changed"
changed_read token changed r h = r
changed_read token (category c) r h = cc
changed_read token (task n) r h = cc
changed_read token (app n) r h = cc
changed_read token (bare n) r h = cc

is_changed_eq : (token : String) → is_changed (parse_selector token) ≡ eqb "changed" token
is_changed_eq token = elim (Bool-cases (eqb "changed" token)) [
  | inl e ↦
      let same : token ≡ "changed" = sym ((eqb_iff "changed" token).0 e) in
      rw (Reads-parse_selector token changed same) (sym e)
  | inr e ↦ elim (Bool-cases (is_changed (parse_selector token))) [
    | inr f ↦ f ∙ sym e
    | inl f ↦
        let same = changed_read token (parse_selector token) (parse_selector-Reads token) f in
        absurd (ground (arith, e, same, eqb_self token))
  ]
]

pub any_changed_eq : (tokens : List String) → any_changed tokens ≡ contains "changed" tokens
any_changed_eq [] = refl
any_changed_eq (t ∷ tokens) = ground (arith, is_changed_eq t, any_changed_eq tokens)
