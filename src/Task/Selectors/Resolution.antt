-- ===== src/Task/Selectors/Resolution.antt =====
-- crates/nxr-task/src/selectors.rs and resolve.rs: what tokens are resolved to.
use nxr.Base.{
  ◌↔◌, ◌≡◌, refl, true, List, [], ◌∷◌, Option, none, some, String, arith, Option-cases, List-cases,
  inl, inr,
}
use nxr.Base.Order.{string_ord, eqb_iff}
use nxr.Base.Set
use nxr.Base.Set.{contains}
use nxr.Base.Map
use nxr.Base.Map.{get}
use nxr.Task.Schema.{Tasks}
use nxr.Task.Graph.Defs.{has_task}
use nxr.Task.Resolve.{
  keys_of, owners_of, resolve_alias, resolve_task_name, listable_tasks_filtered, listable_tasks,
}
use nxr.Task.Selectors.{
  ParsedSelector, category, changed, task, app, bare, ok, TaskTargetResolution, parse_selector,
  add_tokens, no_targets, resolve_task_targets,
}
use nxr.Task.Selectors.Stand.{Selected, any_selects_iff, any_changed_eq}
use nxr.Task.Selectors.Chosen.{names_task, selects, any_selects, step-cases, add_tokens-Added}

listed-declared :
    (n : String) (cat : Option String) (doc : Tasks)
    → contains n (keys_of (listable_tasks_filtered doc cat none)) ≡ true
    → has_task n doc ≡ true
unfolding keys_of listable_tasks_filtered get
listed-declared n cat [] h = cc
listed-declared n cat ((name, d) ∷ doc) h =
    ground (arith, h, listed-declared n cat doc, eqb_iff n name)

owner-declared :
    (n name : String) (doc : Tasks) → contains n (owners_of name doc) ≡ true → has_task n doc ≡ true
unfolding owners_of get
owner-declared n name [] h = cc
owner-declared n name ((canonical, d) ∷ doc) h =
    ground (arith, h, owner-declared n name doc, eqb_iff n canonical)

resolve_alias-declared :
    (doc : Tasks) (name n : String)
    → names_task (resolve_alias doc name) n ≡ true
    → has_task n doc ≡ true
unfolding resolve_alias
resolve_alias-declared doc name n h = elim (List-cases (owners_of name doc)) [
  | inl e ↦ absurd (ground (arith, h, e))
  | inr (owner, others, e) ↦ elim (List-cases others) [
    | inr (second, rest, o) ↦ absurd (ground (arith, h, e, o))
    | inl o ↦ owner-declared n name doc (ground (arith, h, e, o))
  ]
]

resolved-declared :
    (doc : Tasks) (name n : String)
    → names_task (resolve_task_name doc name) n ≡ true
    → has_task n doc ≡ true
unfolding resolve_task_name
resolved-declared doc name n h = elim (Option-cases (get name doc)) [
  | inr (d, e) ↦ ground (arith, h, e, eqb_iff n name)
  | inl e ↦ resolve_alias-declared doc name n (ground (arith, h, e))
]

selected-declared :
    (doc : Tasks) (p : ParsedSelector) (n : String) → selects doc p n ≡ true → has_task n doc ≡ true
unfolding listable_tasks
selected-declared doc changed n h = cc
selected-declared doc (app _) n h = cc
selected-declared doc (category c) n h = listed-declared n (some c) doc h
selected-declared doc (task name) n h = resolved-declared doc name n h
selected-declared doc (bare name) n h = resolved-declared doc name n h

any-declared :
    (doc : Tasks) (tokens : List String) (n : String)
    → any_selects doc tokens n ≡ true
    → has_task n doc ≡ true
any-declared doc [] n h = cc
any-declared doc (token ∷ tokens) n h =
    ground (arith, h, selected-declared doc (parse_selector token) n, any-declared doc tokens n)

-- What the tokens are resolved to.
pub record IsResolution (doc : Tasks) (tokens : List String) (r : TaskTargetResolution)
    : Type 0 where
  pub selected : (n : String) → (contains n r.tasks ≡ true) ↔ Selected doc tokens n
  pub distinct : Set.Distinct r.tasks
  pub declared : (n : String) → contains n r.tasks ≡ true → has_task n doc ≡ true
  pub affected : r.use_affected ≡ contains "changed" tokens

-- Tokens that are resolved against a sorted document give just the tasks that some token stands for, each
-- once and each of them declared: `category:c` stands for the tasks of the category `c` that are not
-- hidden; `task:n`, and a token `n` that is not `changed` and has none of the prefixes, for the task `n`,
-- or where there is none for the task that has the alias `n`, if no other has it. The affected tasks are
-- asked for where one of the tokens is `changed`.
pub resolve_task_targets-IsResolution :
    (doc : Tasks) (tokens : List String) (r : TaskTargetResolution)
    → Map.IsSorted doc
    → resolve_task_targets doc tokens ≡ ok r
    → IsResolution doc tokens r
unfolding resolve_task_targets
resolve_task_targets-IsResolution doc tokens r s h =
    elim (step-cases (add_tokens doc tokens no_targets)) [
      | inr (e, q) ↦ absurd (ground (arith, h, q))
      | inl (last, q) ↦
          let a =
            add_tokens-Added doc tokens no_targets last (record { same = λ n. refl; distinct = tt })
              q in
          let same : r ≡ record { tasks = last.tasks; use_affected = last.use_affected } =
            ground (arith, h, q) in
          rw same (record {
            selected = λ n.
                let (to, back) = any_selects_iff doc s tokens n in
                ((λ c. to (ground (arith, c, a.more n))), (λ c. ground (arith, back c, a.more n)));
            distinct = a.targets.distinct;
            declared = λ n c. any-declared doc tokens n (ground (arith, c, a.more n));
            affected = ground (arith, a.asked, any_changed_eq tokens);
          })
    ]
