-- ===== src/Task/Selectors/Chosen.antt =====
-- crates/nxr-task/src/selectors.rs: the tasks that selectors stand for.
use nxr.Base.{
  ◌≡◌, refl, ◌∙◌, Bool, true, false, ◌||◌, List, [], ◌∷◌, ◌++◌, some, String, arith, Bool-cases,
  List-cases, ◌⊎◌, inl, inr,
}
use nxr.Base.Order.{string_ord, eqb, eqb_iff}
use nxr.Base.Set
use nxr.Base.Set.{contains}
use nxr.Task.Schema.{Tasks}
use nxr.Task.Graph.Expand.{contains-append}
use nxr.Task.Resolve
use nxr.Task.Resolve.{
  ResolveTaskError, keys_of, owners_of, resolve_alias, resolve_task_name, in_category,
  listable_tasks_filtered, listable_tasks,
}
use nxr.Task.Selectors.{
  ParsedSelector, category, changed, task, app, bare, SelectorError, Result, ok, err,
  parse_selector, Targets, add_target, add_targets, add_category, add_named, add_selector,
  add_tokens,
}

abbrev pub names_task : Resolve.Result String → String → Bool
names_task (Resolve.ok canonical) n = eqb n canonical
names_task (Resolve.err _) n = false

-- Whether a selector stands for a task.
abbrev pub selects : Tasks → ParsedSelector → String → Bool
selects doc changed n = false
selects doc (app _) n = false
selects doc (category c) n = contains n (keys_of (listable_tasks doc (some c)))
selects doc (task name) n = names_task (resolve_task_name doc name) n
selects doc (bare name) n = names_task (resolve_task_name doc name) n

abbrev pub any_selects : Tasks → List String → String → Bool
any_selects doc [] n = false
any_selects doc (token ∷ tokens) n =
    selects doc (parse_selector token) n || any_selects doc tokens n

abbrev pub is_changed : ParsedSelector → Bool
is_changed changed = true
is_changed (category _) = false
is_changed (task _) = false
is_changed (app _) = false
is_changed (bare _) = false

abbrev pub any_changed : List String → Bool
any_changed [] = false
any_changed (token ∷ tokens) = is_changed (parse_selector token) || any_changed tokens

-- What was seen is what was added, once each.
pub record IsTargets (s : Targets) : Type 0 where
  pub same : (n : String) → contains n s.seen ≡ contains n s.tasks
  pub distinct : Set.Distinct s.tasks

Distinct-snoc :
    (x : String) (xs : List String)
    → contains x xs ≡ false
    → Set.Distinct xs
    → Set.Distinct (xs ++ (x ∷ []))
Distinct-snoc x [] h d = (refl, tt)
Distinct-snoc x (y ∷ ys) h d = (
  ground (arith, h, d.0, contains-append y ys (x ∷ []), eqb_iff x y, eqb_iff y x),
  Distinct-snoc x ys (ground (arith, h)) d.1,
)

add_target-IsTargets :
    (name : String) (s : Targets)
    → IsTargets s
    → IsTargets (add_target name s)
      × ((n : String) → contains n (add_target name s).tasks ≡ (contains n s.tasks || eqb n name))
      × ((add_target name s).use_affected ≡ s.use_affected)
unfolding add_target
add_target-IsTargets name s v = elim (Bool-cases (contains name s.seen)) [
  | inl e ↦ rw (e, add_target) (v, (λ n. ground (arith, e, v.same name, eqb_iff n name)), refl)
  | inr e ↦
      rw (e, add_target)
        (
          record {
            same = λ n. ground (
              arith,
              v.same n,
              Set.contains-insert name n s.seen,
              contains-append n s.tasks (name ∷ []),
              eqb_iff n name,
            );
            distinct = Distinct-snoc name s.tasks (ground (arith, e, v.same name)) v.distinct;
          },
          (λ n. ground (arith, contains-append n s.tasks (name ∷ []), eqb_iff n name)),
          refl,
        )
]

add_targets-IsTargets :
    (names : List String) (s : Targets)
    → IsTargets s
    → IsTargets (add_targets names s)
      × ((n : String)
          → contains n (add_targets names s).tasks ≡ (contains n s.tasks || contains n names))
      × ((add_targets names s).use_affected ≡ s.use_affected)
unfolding add_targets
add_targets-IsTargets [] s v = (v, (λ n. ground arith), refl)
add_targets-IsTargets (name ∷ names) s v =
    let (w, here, kept) = add_target-IsTargets name s v in
    let (u, all, kept') = add_targets-IsTargets names (add_target name s) w in
    (u, (λ n. ground (arith, here n, all n)), kept' ∙ kept)

-- What a step of the loop does: the selector's tasks are added.
pub record Added (chosen : String → Bool) (flag : Bool) (s next : Targets) : Type 0 where
  pub targets : IsTargets next
  pub more : (n : String) → contains n next.tasks ≡ (contains n s.tasks || chosen n)
  pub asked : next.use_affected ≡ (s.use_affected || flag)

pub resolved-cases :
    (r : Resolve.Result String)
    → ((c : String) × (r ≡ Resolve.ok c)) ⊎ ((e : ResolveTaskError) × (r ≡ Resolve.err e))
resolved-cases (Resolve.ok c) = inl (c, refl)
resolved-cases (Resolve.err e) = inr (e, refl)

add_named-Added :
    (doc : Tasks) (token name : String) (s next : Targets)
    → IsTargets s
    → add_named doc token name s ≡ ok next
    → Added (names_task (resolve_task_name doc name)) false s next
unfolding add_named
add_named-Added doc token name s next v h = elim (resolved-cases (resolve_task_name doc name)) [
  | inr (e, r) ↦ absurd (ground (arith, h, r))
  | inl (c, r) ↦
      let (w, here, kept) = add_target-IsTargets c s v in
      let same : next ≡ add_target c s = ground (arith, h, r) in
      rw (same, r) (record { targets = w; more = here; asked = ground (arith, kept) })
]

add_category-Added :
    (doc : Tasks) (c : String) (s next : Targets)
    → IsTargets s
    → add_category doc c s ≡ ok next
    → Added (λ n. contains n (keys_of (listable_tasks doc (some c)))) false s next
unfolding add_category
add_category-Added doc c s next v h =
    let names = keys_of (listable_tasks doc (some c)) in
    elim (List-cases names) [
      | inl e ↦ absurd (ground (arith, h, e))
      | inr (first, rest, e) ↦
          let (w, all, kept) = add_targets-IsTargets (first ∷ rest) s v in
          let same : next ≡ add_targets (first ∷ rest) s = ground (arith, h, e) in
          rw (same, e) (record { targets = w; more = all; asked = ground (arith, kept) })
    ]

add_selector-Added :
    (doc : Tasks) (token : String) (p : ParsedSelector) (s next : Targets)
    → IsTargets s
    → add_selector doc token p s ≡ ok next
    → Added (selects doc p) (is_changed p) s next
unfolding add_selector
add_selector-Added doc token changed s next v h =
    let same : next ≡ record s { use_affected = true } = ground (arith, h) in
    rw same (record {
      targets = record { same = v.same; distinct = v.distinct };
      more = λ n. ground arith;
      asked = ground arith;
    })
add_selector-Added doc token (app name) s next v h = cc
add_selector-Added doc token (category c) s next v h = add_category-Added doc c s next v h
add_selector-Added doc token (task name) s next v h = add_named-Added doc token name s next v h
add_selector-Added doc token (bare name) s next v h = add_named-Added doc token name s next v h

pub step-cases :
    (r : Result Targets) → ((s : Targets) × (r ≡ ok s)) ⊎ ((e : SelectorError) × (r ≡ err e))
step-cases (ok s) = inl (s, refl)
step-cases (err e) = inr (e, refl)

pub add_tokens-Added :
    (doc : Tasks) (tokens : List String) (s last : Targets)
    → IsTargets s
    → add_tokens doc tokens s ≡ ok last
    → Added (any_selects doc tokens) (any_changed tokens) s last
unfolding add_tokens
add_tokens-Added doc [] s last v h =
    let same : last ≡ s = ground (arith, h) in
    rw same (record { targets = v; more = λ n. ground arith; asked = ground arith })
add_tokens-Added doc (token ∷ tokens) s last v h =
    elim (step-cases (add_selector doc token (parse_selector token) s)) [
      | inr (e, r) ↦ absurd (ground (arith, h, r))
      | inl (next, r) ↦
          let a = add_selector-Added doc token (parse_selector token) s next v r in
          let b = add_tokens-Added doc tokens next last a.targets (ground (arith, h, r)) in
          record {
            targets = b.targets;
            more = λ n. ground (arith, a.more n, b.more n);
            asked = ground (arith, a.asked, b.asked);
          }
    ]
