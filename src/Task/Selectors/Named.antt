-- ===== src/Task/Selectors/Named.antt =====
-- crates/nxr-task/src/resolve.rs: the name that is resolved is that of the task that is called so, and the
-- listable tasks of a category.
use nxr.Base.{
  ◌≡◌, refl, ap, ◌∙◌, ◌↔◌, Bool, true, false, not, ◌&&◌, List, [], ◌∷◌, Option, none, some, String,
  arith, Option-cases, List-cases, inl, inr,
}
use nxr.Base.Order.{string_ord, eqb_iff, eqb_self}
use nxr.Base.Set
use nxr.Base.Set.{contains}
use nxr.Base.Map
use nxr.Base.Map.{get}
use nxr.Task.Schema.{TaskDefinition, Tasks}
use nxr.Task.Resolve.{
  ok, keys_of, owners_of, resolve_alias, resolve_task_name, in_category, listable_tasks_filtered,
  listable_tasks,
}
use nxr.Task.Selectors.Meaning.{Called}

abbrev has_alias : String → Option TaskDefinition → Bool
has_alias name none = false
has_alias name (some d) = contains name d.aliases

contains-owners :
    (n name : String) (doc : Tasks)
    → Map.IsSorted doc
    → contains n (owners_of name doc) ≡ has_alias name (get n doc)
unfolding owners_of get
contains-owners n name [] s = refl
contains-owners n name ((k, d) ∷ doc) s =
    ground (arith, contains-owners n name doc s.1, eqb_iff n k, Map.Before-get k doc s.0)

owners-Distinct :
    (name : String) (doc : Tasks) → Map.IsSorted doc → Set.Distinct (owners_of name doc)
unfolding owners_of
owners-Distinct name [] s = tt
owners-Distinct name ((k, d) ∷ doc) s =
    ground (
      arith,
      owners-Distinct name doc s.1,
      contains-owners k name doc s.1,
      Map.Before-get k doc s.0,
    )

only_one :
    (n : String) (xs : List String)
    → Set.Distinct xs
    → contains n xs ≡ true
    → ((m : String) → contains m xs ≡ true → m ≡ n)
    → xs ≡ n ∷ []
only_one n [] d c h = cc
only_one n (x ∷ []) d c h =
    let same : x ≡ n = h x (ground (arith, eqb_self x)) in ap (λ y. y ∷ []) same
only_one n (x ∷ y ∷ ys) d c h =
    let first : x ≡ n = h x (ground (arith, eqb_self x)) in
    let second : y ≡ n = h y (ground (arith, eqb_self y)) in
    absurd (ground (arith, d.0, first, second, eqb_self n, eqb_iff x y))

alias_found :
    (n name : String) (doc : Tasks)
    → has_alias name (get n doc) ≡ true
    → (d : TaskDefinition) × (get n doc ≡ some d) × (contains name d.aliases ≡ true)
alias_found n name doc h = elim (Option-cases (get n doc)) [
  | inl e ↦ absurd (ground (arith, h, e))
  | inr (d, e) ↦ (d, e, ground (arith, h, e))
]

alias-Called :
    (doc : Tasks) (name n : String)
    → Map.IsSorted doc
    → get name doc ≡ none
    → resolve_alias doc name ≡ ok n
    → Called doc name n
unfolding resolve_alias
alias-Called doc name n s g h = elim (List-cases (owners_of name doc)) [
  | inl e ↦ absurd (ground (arith, h, e))
  | inr (owner, others, e) ↦ elim (List-cases others) [
    | inr (second, rest, o) ↦ absurd (ground (arith, h, e, o))
    | inl o ↦
        let same : owner ≡ n = ground (arith, h, e, o) in
        inr (
          ground (arith, g),
          alias_found n name doc
              (ground (arith, contains-owners n name doc s, e, same, eqb_self n)),
          λ m d f a.
              (eqb_iff m n).0 (ground (arith, contains-owners m name doc s, e, o, same, f, a)),
        )
  ]
]

Called-alias :
    (doc : Tasks) (name n : String)
    → Map.IsSorted doc
    → (d : TaskDefinition) × (get n doc ≡ some d) × (contains name d.aliases ≡ true)
    → ((m : String) (e : TaskDefinition)
        → get m doc ≡ some e
        → contains name e.aliases ≡ true
        → m ≡ n)
    → resolve_alias doc name ≡ ok n
unfolding resolve_alias
Called-alias doc name n s (d, g, a) unique =
    let one : owners_of name doc ≡ n ∷ [] =
      only_one n (owners_of name doc) (owners-Distinct name doc s)
        (ground (arith, contains-owners n name doc s, g, a))
        (λ m c.
          let (e, f, b) =
            alias_found m name doc (ground (arith, c, contains-owners m name doc s)) in
          unique m e f b) in
    ground (arith, one)

-- A name is resolved to the task that is called so.
pub resolve_task_name-Called :
    (doc : Tasks) (name n : String)
    → Map.IsSorted doc
    → (resolve_task_name doc name ≡ ok n) ↔ Called doc name n
unfolding resolve_task_name
resolve_task_name-Called doc name n s = elim (Option-cases (get name doc)) [
  | inr (d, e) ↦ (
    (λ h. inl (ground (arith, e), ground (arith, h, e))),
    (λ c. elim c [
      | inl (w, same) ↦ rw (e, same, resolve_task_name) refl
      | inr (w, found, unique) ↦ absurd (ground (arith, w, e))
    ]),
  )
  | inl e ↦ (
    (λ h. alias-Called doc name n s e (ground (arith, h, e))),
    (λ c. elim c [
      | inl (w, same) ↦ absurd (ground (arith, w, e))
      | inr (w, found, unique) ↦ rw (e, resolve_task_name) (Called-alias doc name n s found unique)
    ]),
  )
]

abbrev is_listable : String → Option TaskDefinition → Bool
is_listable c none = false
is_listable c (some d) = not d.hidden && in_category (some c) d

contains-listable :
    (n c : String) (doc : Tasks)
    → Map.IsSorted doc
    → contains n (keys_of (listable_tasks_filtered doc (some c) none)) ≡ is_listable c (get n doc)
unfolding keys_of listable_tasks_filtered get
contains-listable n c [] s = refl
contains-listable n c ((k, d) ∷ doc) s =
    ground (arith, contains-listable n c doc s.1, eqb_iff n k, Map.Before-get k doc s.0)

in_category_iff :
    (c : String) (d : TaskDefinition) → (in_category (some c) d ≡ true) ↔ (d.category ≡ some c)
unfolding in_category
in_category_iff c d = elim (Option-cases d.category) [
  | inl e ↦ ((λ h. absurd (ground (arith, h, e))), (λ h. absurd (ground (arith, h, e))))
  | inr (other, e) ↦ (
    (λ h. e ∙ ap some ((eqb_iff other c).0 (ground (arith, h, e)))),
    (λ h. rw (e, in_category) ((eqb_iff other c).1 (ground (arith, h, e)))),
  )
]

-- The listable tasks of a category are its tasks that are not hidden.
pub listable_iff :
    (n c : String) (doc : Tasks)
    → Map.IsSorted doc
    → (contains n (keys_of (listable_tasks doc (some c))) ≡ true)
      ↔ ((d : TaskDefinition) × (get n doc ≡ some d) × (d.hidden ≡ false) × (d.category ≡ some c))
unfolding listable_tasks
listable_iff n c doc s = (
  (λ h. elim (Option-cases (get n doc)) [
    | inl e ↦ absurd (ground (arith, h, e, contains-listable n c doc s))
    | inr (d, e) ↦ (
      d,
      e,
      ground (arith, h, e, contains-listable n c doc s),
      (in_category_iff c d).0 (ground (arith, h, e, contains-listable n c doc s)),
    )
  ]),
  (λ (d, g, shown, cat).
      ground (arith, g, shown, (in_category_iff c d).1 cat, contains-listable n c doc s)),
)
