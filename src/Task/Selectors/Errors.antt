-- ===== src/Task/Selectors/Errors.antt =====
-- crates/nxr-task/src/selectors.rs: when tokens cannot be resolved.
use nxr.Base.{
  ◌↔◌, sym, ap, ◌∙◌, Bool-cases, List-cases, ◌≡◌, refl, Bool, true, false, ◌||◌, List, [], ◌∷◌,
  some, String, arith, inl, inr,
}
use nxr.Base.Order.{string_ord, eqb, eqb_iff, eqb_self}
use nxr.Task.Schema.{Tasks}
use nxr.Task.Resolve
use nxr.Task.Resolve.{
  ResolveTaskError, keys_of, owners_of, resolve_alias, resolve_task_name, in_category,
  listable_tasks_filtered, listable_tasks,
}
use nxr.Task.Selectors.{
  ParsedSelector, category, changed, task, app, bare, Result, ok, err, parse_selector, Targets,
  add_category, add_named, add_selector, add_tokens, no_targets, resolve_task_targets,
}
use nxr.Base.Set.{contains}
use nxr.Base.Map
use nxr.Task.Selectors.Meaning.{Reads, Called, Stands}
use nxr.Task.Selectors.Parsing.{parse_selector-Reads, Reads-parse_selector}
use nxr.Task.Selectors.Named.{resolve_task_name-Called, listable_iff}
use nxr.Task.Selectors.Chosen.{step-cases, resolved-cases}

-- Whether the code refuses a selector.
abbrev is_none {ℓ} : {A : Type ℓ} → List A → Bool
is_none [] = true
is_none (_ ∷ _) = false

abbrev is_unresolved : Resolve.Result String → Bool
is_unresolved (Resolve.ok _) = false
is_unresolved (Resolve.err _) = true

abbrev fails : Tasks → ParsedSelector → Bool
fails doc changed = false
fails doc (app _) = true
fails doc (category c) = is_none (keys_of (listable_tasks doc (some c)))
fails doc (task name) = is_unresolved (resolve_task_name doc name)
fails doc (bare name) = is_unresolved (resolve_task_name doc name)

abbrev any_fails : Tasks → List String → Bool
any_fails doc [] = false
any_fails doc (token ∷ tokens) = fails doc (parse_selector token) || any_fails doc tokens

abbrev pub is_error {ℓ} : {A : Type ℓ} → Result A → Bool
is_error (ok _) = false
is_error (err _) = true

add_named-error :
    (doc : Tasks) (token name : String) (s : Targets)
    → is_error (add_named doc token name s) ≡ is_unresolved (resolve_task_name doc name)
unfolding add_named
add_named-error doc token name s = ground arith

add_category-error :
    (doc : Tasks) (c : String) (s : Targets)
    → is_error (add_category doc c s) ≡ is_none (keys_of (listable_tasks doc (some c)))
unfolding add_category
add_category-error doc c s = ground arith

add_selector-error :
    (doc : Tasks) (token : String) (p : ParsedSelector) (s : Targets)
    → is_error (add_selector doc token p s) ≡ fails doc p
unfolding add_selector
add_selector-error doc token changed s = refl
add_selector-error doc token (app name) s = refl
add_selector-error doc token (category c) s = add_category-error doc c s
add_selector-error doc token (task name) s = add_named-error doc token name s
add_selector-error doc token (bare name) s = add_named-error doc token name s

add_tokens-error :
    (doc : Tasks) (tokens : List String) (s : Targets)
    → is_error (add_tokens doc tokens s) ≡ any_fails doc tokens
unfolding add_tokens
add_tokens-error doc [] s = refl
add_tokens-error doc (token ∷ tokens) s =
    let first = add_selector-error doc token (parse_selector token) s in
    elim (step-cases (add_selector doc token (parse_selector token) s)) [
      | inr (e, r) ↦ ground (arith, first, r)
      | inl (next, r) ↦ ground (arith, first, r, add_tokens-error doc tokens next)
    ]

emptied : (xs : List String) (n : String) → is_none xs ≡ true → contains n xs ≡ true → ⊥
emptied [] n h c = cc
emptied (x ∷ xs) n h c = cc

-- A token cannot be expanded if it is not `changed` and stands for no task.
abbrev pub Fails : Tasks → ParsedSelector → Type 0
Fails doc changed = ⊥
Fails doc (app name) = (n : String) → Stands doc (app name) n → ⊥
Fails doc (category c) = (n : String) → Stands doc (category c) n → ⊥
Fails doc (task name) = (n : String) → Stands doc (task name) n → ⊥
Fails doc (bare name) = (n : String) → Stands doc (bare name) n → ⊥

module _ (doc : Tasks) (s : Map.IsSorted doc) where
  category_iff :
      (c : String)
      → (is_none (keys_of (listable_tasks doc (some c))) ≡ true) ↔ Fails doc (category c)
  category_iff c = (
    (λ h n stands.
        absurd (
          emptied (keys_of (listable_tasks doc (some c))) n h ((listable_iff n c doc s).1 stands))),
    (λ none_stands. elim (List-cases (keys_of (listable_tasks doc (some c)))) [
      | inl e ↦ rw e refl
      | inr (first, rest, e) ↦
          absurd
            (none_stands first ((listable_iff first c doc s).0 (ground (arith, e, eqb_self first))))
    ]),
  )

  name_iff :
      (name : String)
      → (is_unresolved (resolve_task_name doc name) ≡ true) ↔ ((n : String) → Called doc name n → ⊥)
  name_iff name = elim (resolved-cases (resolve_task_name doc name)) [
    | inl (c, r) ↦ (
      (λ h. absurd (ground (arith, h, r))),
      (λ none_called. absurd (none_called c ((resolve_task_name-Called doc name c s).0 r))),
    )
    | inr (e, r) ↦ (
      (λ h n called. absurd (ground (arith, r, (resolve_task_name-Called doc name n s).1 called))),
      (λ none_called. rw r refl),
    )
  ]

  fails_iff : (p : ParsedSelector) → (fails doc p ≡ true) ↔ Fails doc p
  fails_iff changed = ((λ h. absurd (ground (arith, h))), (λ h. absurd h))
  fails_iff (app name) = ((λ h n stands. stands), (λ h. refl))
  fails_iff (category c) = category_iff c
  fails_iff (task name) = name_iff name
  fails_iff (bare name) = name_iff name

  any_fails-Fails :
      (tokens : List String)
      → any_fails doc tokens ≡ true
      → (token : String) × (p : ParsedSelector) × (contains token tokens ≡ true)
        × Reads token p
        × Fails doc p
  any_fails-Fails [] h = cc
  any_fails-Fails (t ∷ tokens) h = elim (Bool-cases (fails doc (parse_selector t))) [
    | inl e ↦ (
      t,
      parse_selector t,
      ground (arith, eqb_self t),
      parse_selector-Reads t,
      (fails_iff (parse_selector t)).0 e,
    )
    | inr e ↦
        let (token, p, c, r, f) = any_fails-Fails tokens (ground (arith, h, e)) in
        (token, p, ground (arith, c), r, f)
  ]

  Fails-any_fails :
      (tokens : List String)
      → (token : String) × (p : ParsedSelector) × (contains token tokens ≡ true)
        × Reads token p
        × Fails doc p
      → any_fails doc tokens ≡ true
  Fails-any_fails [] (token, p, c, r, f) = cc
  Fails-any_fails (t ∷ tokens) (token, p, c, r, f) = elim (Bool-cases (eqb token t)) [
    | inl e ↦
        let same : token ≡ t = (eqb_iff token t).0 e in
        let parsed : parse_selector t ≡ p =
          ap parse_selector (sym same) ∙ Reads-parse_selector token p r in
        let here : fails doc (parse_selector t) ≡ true =
          ap (fails doc) parsed ∙ (fails_iff p).1 f in
        ground (arith, here)
    | inr e ↦
        let rest = Fails-any_fails tokens (token, p, ground (arith, c, e), r, f) in
        ground (arith, rest)
  ]

-- Against a sorted document an error is returned just where some token is not `changed` and stands for no
-- task: it has the prefix `app:`; or it is `category:c` and every task of the category `c` is hidden; or
-- it is `task:n`, or a bare `n`, where no task is named `n` and not just one has the alias `n`.
pub resolve_task_targets-error :
    (doc : Tasks) (tokens : List String)
    → Map.IsSorted doc
    → (is_error (resolve_task_targets doc tokens) ≡ true) ↔ (
        (token : String) × (p : ParsedSelector) × (contains token tokens ≡ true)
        × Reads token p
        × Fails doc p)
unfolding resolve_task_targets
resolve_task_targets-error doc tokens s = (
  (λ h. any_fails-Fails doc s tokens (ground (arith, h, add_tokens-error doc tokens no_targets))),
  (λ f. ground (arith, Fails-any_fails doc s tokens f, add_tokens-error doc tokens no_targets)),
)
