-- ===== src/Task/Matrix/Ids.antt =====
-- crates/nxr-task/src/matrix.rs: the ids of the matrix entries.
use nxr.Base.{
  ◌≡◌, refl, List, [], ◌∷◌, none, some, String, arith, Bool-cases, Option-cases, ◌⊎◌, inl, inr,
}
use nxr.Base.Order.{string_ord, eqb, eqb_iff, eqb_self, lt-ne}
use nxr.Base.Map
use nxr.Base.Map.{get}
use nxr.Task.Schema.{TaskMatrix, TaskDefinition, Tasks}
use nxr.Task.Matrix.{Result, ok, err, ◌>>=◌, matrix_ids, collect_ids}

pub bind-ok :
    {A B : Type 0} (r : Result A) (f : A → Result B) (b : B)
    → (r >>= f) ≡ ok b
    → (a : A) × (r ≡ ok a) × (f a ≡ ok b)
bind-ok (ok a) f b h = (a, refl, h)
bind-ok (err e) f b h = cc

abbrev pub Ids : Type 0
Ids = List (String × List String)

-- A task without a matrix has no ids, and one with a matrix has those of its entries.
abbrev pub HasIds : String → TaskDefinition → Ids → Type 0
HasIds name definition m =
    ((definition.matrix ≡ none) × (get name m ≡ none))
    ⊎ ((matrix : TaskMatrix) × (ids : List String) × (definition.matrix ≡ some matrix)
        × (matrix_ids name matrix ≡ ok ids)
        × (get name m ≡ some ids))

collect_head :
    (name : String) (definition : TaskDefinition) (tasks : Tasks) (m : Ids)
    → collect_ids ((name, definition) ∷ tasks) ≡ ok m
    → ((definition.matrix ≡ none) × (collect_ids tasks ≡ ok m))
      ⊎ ((matrix : TaskMatrix) × (ids : List String) × (rest : Ids) × (definition.matrix
            ≡ some matrix)
          × (matrix_ids name matrix ≡ ok ids)
          × (collect_ids tasks ≡ ok rest)
          × (m ≡ Map.insert name ids rest))
unfolding collect_ids
collect_head name definition tasks m h = elim (Option-cases definition.matrix) [
  | inl e ↦ inl (e, ground (arith, h, e))
  | inr (matrix, e) ↦
      let (ids, i, h') =
        bind-ok (matrix_ids name matrix)
          (λ ids. collect_ids tasks >>= λ rest. ok (Map.insert name ids rest)) m
          (ground (arith, h, e)) in
      let (rest, r, h'') =
        bind-ok (collect_ids tasks) (λ rest. ok (Map.insert name ids rest)) m h' in
      inr (matrix, ids, rest, e, i, r, ground (arith, h''))
]

collect-absent :
    (name : String) (tasks : Tasks) (m : Ids)
    → Map.Before name tasks
    → collect_ids tasks ≡ ok m
    → get name m ≡ none
unfolding collect_ids get
collect-absent name [] m b h = ground (arith, h)
collect-absent name ((n, definition) ∷ tasks) m b h = elim (collect_head n definition tasks m h) [
  | inl (e, r) ↦ collect-absent name tasks m b.1 r
  | inr (matrix, ids, rest, e, i, r, k) ↦ ground (
    arith,
    k,
    lt-ne name n b.0,
    collect-absent name tasks rest b.1 r,
    Map.get-insert n name ids rest,
  )
]

pub collect_ids-HasIds :
    (tasks : Tasks) (m : Ids) (name : String) (definition : TaskDefinition)
    → Map.IsSorted tasks
    → collect_ids tasks ≡ ok m
    → get name tasks ≡ some definition
    → HasIds name definition m
unfolding get
collect_ids-HasIds [] m name definition s h g = cc
collect_ids-HasIds ((n, d) ∷ tasks) m name definition s h g = elim (Bool-cases (eqb name n)) [
  | inl e ↦
      let same : d ≡ definition = ground (arith, g, e) in
      let named : name ≡ n = (eqb_iff name n).0 e in
      elim (collect_head n d tasks m h) [
        | inl (w, r) ↦ inl (ground (arith, w, same), rw named (collect-absent n tasks m s.0 r))
        | inr (matrix, ids, rest, w, i, r, k) ↦ inr (
          matrix,
          ids,
          ground (arith, w, same),
          rw named i,
          rw (named, k) (ground (arith, eqb_self n, Map.get-insert n n ids rest)),
        )
      ]
  | inr e ↦ elim (collect_head n d tasks m h) [
    | inl (w, r) ↦ collect_ids-HasIds tasks m name definition s.1 r (ground (arith, g, e))
    | inr (matrix, ids, rest, w, i, r, k) ↦
        elim (collect_ids-HasIds tasks rest name definition s.1 r (ground (arith, g, e))) [
          | inl (x, y) ↦ inl (x, rw k (ground (arith, y, e, Map.get-insert n name ids rest)))
          | inr (x, y, z, t, u) ↦
              inr (x, y, z, t, rw k (ground (arith, u, e, Map.get-insert n name ids rest)))
        ]
  ]
]
