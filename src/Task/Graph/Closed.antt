-- ===== src/Task/Graph/Closed.antt =====
-- crates/nxr-task/src/graph.rs: the tasks that the subgraph's loop reaches.
use mathlib.Core.List.{reverse}
use nxr.Base.{
  ℕ, zero, suc, ◌+◌, ◌≤◌, ◌<◌, ◌≡◌, refl, true, ◌||◌, List, [], ◌∷◌, ◌++◌, String, arith, length,
  Bool-cases, inl, inr, length-append,
}
use nxr.Base.Order.{string_ord, eqb_iff, eqb_self}
use nxr.Base.Set
use nxr.Base.Set.{contains}
use nxr.Base.Map
use nxr.Base.Map.{get}
use nxr.Task.Schema.{Tasks}
use nxr.Task.Graph.Defs.{Result, ok, err, ◌>>=◌, has_task, expand, explore}
use nxr.Task.Graph.Expand.{
  depends_on, contains-reverse_aux, length-reverse_aux, contains-append, undefined_in-none,
  expand-cases, unread, unread-insert,
}

pub bind-ok :
    {A B : Type 0} (r : Result A) (f : A → Result B) (b : B)
    → (r >>= f) ≡ ok b
    → (a : A) × (r ≡ ok a) × (f a ≡ ok b)
bind-ok (ok a) f b h = (a, refl, h)
bind-ok (err e) f b h = cc

contains-pushed :
    (n : String) (deps stack : List String)
    → contains n (reverse deps ++ stack) ≡ (contains n deps || contains n stack)
contains-pushed n deps stack =
    ground (arith, contains-append n (reverse deps) stack, contains-reverse_aux n deps [])

-- The reached tasks, the ones still on the stack being left: `holds` is any property that a task's
-- dependencies inherit from it.
pub record Reaching (tasks : Tasks) (holds : String → Type 0) (stack reachable : List String)
    : Type 0 where
  pub sorted : Set.IsSorted reachable
  pub closed :
      (n d : String)
      → contains n reachable ≡ true
      → contains d (depends_on tasks n) ≡ true
      → (contains d reachable || contains d stack) ≡ true
  pub known :
      (n : String) → (contains n reachable || contains n stack) ≡ true → has_task n tasks ≡ true
  pub least : (n : String) → (contains n reachable || contains n stack) ≡ true → holds n

module _ (tasks : Tasks) (so : Map.IsSorted tasks) (holds : String → Type 0)
    (inherits : (n d : String) → holds n → contains d (depends_on tasks n) ≡ true → holds d) where
  expand-Reaching :
      (name : String) (stack reachable : List String) (next : List String × List String)
      → Reaching tasks holds (name ∷ stack) reachable
      → expand tasks name stack reachable ≡ ok next
      → Reaching tasks holds next.0 next.1
        × (length next.0 + unread next.1 tasks ≤ length stack + unread reachable tasks)
        × ((n : String)
            → (contains n reachable || contains n (name ∷ stack)) ≡ true
            → (contains n next.1 || contains n next.0) ≡ true)
  expand-Reaching name stack reachable next v h =
      elim (expand-cases tasks name stack reachable next h) [
        | inl (c, e) ↦ rw e (
          record {
            sorted = v.sorted;
            closed = λ n d i j. ground (arith, v.closed n d i j, c, eqb_iff d name);
            known = λ n i. v.known n (ground (arith, i));
            least = λ n i. v.least n (ground (arith, i));
          },
          ground arith,
          λ n i. ground (arith, i, c, eqb_iff n name),
        )
        | inr x ↦
            let deps = x.task.depends_on in
            let row : depends_on tasks name ≡ deps = rw (x.found, depends_on) refl in
            let pushed = λ (n : String). contains-pushed n deps stack in
            rw (x.pushed) (
              record {
                sorted = Set.insert-IsSorted name reachable v.sorted;
                closed = λ n d i j. ground (
                  arith,
                  i,
                  j,
                  v.closed n d,
                  row,
                  pushed d,
                  eqb_iff n name,
                  eqb_iff d name,
                  Set.contains-insert name n reachable,
                  Set.contains-insert name d reachable,
                );
                known = λ n i. ground (
                  arith,
                  i,
                  v.known n,
                  pushed n,
                  eqb_iff n name,
                  Set.contains-insert name n reachable,
                  undefined_in-none tasks deps n x.defined,
                );
                least = λ n i. elim (Bool-cases (contains n deps)) [
                  | inl c ↦
                      inherits name n (v.least name (ground (arith, eqb_self name)))
                        (ground (arith, row, c))
                  | inr c ↦ v.least n (
                      ground (
                        arith,
                        i,
                        c,
                        pushed n,
                        eqb_iff n name,
                        Set.contains-insert name n reachable,
                      ))
                ];
              },
              omega (
                arith,
                unread-insert name x.task reachable tasks so x.fresh x.found,
                length-append (reverse deps) stack,
                length-reverse_aux deps [],
              ),
              λ n i.
                  ground (arith, i, pushed n, eqb_iff n name, Set.contains-insert name n reachable),
            )
      ]

  pub explore-Reaching :
      (fuel : ℕ) (stack reachable result : List String)
      → length stack + unread reachable tasks < fuel
      → Reaching tasks holds stack reachable
      → explore fuel tasks stack reachable ≡ ok result
      → Reaching tasks holds [] result
        × ((n : String)
            → (contains n reachable || contains n stack) ≡ true
            → contains n result ≡ true)
  unfolding explore
  explore-Reaching zero stack reachable result f v h = absurd (omega (arith, f))
  explore-Reaching (suc fuel) [] reachable result f v h =
      let e : result ≡ reachable = ground (arith, h) in rw e (v, λ n i. ground (arith, i))
  explore-Reaching (suc fuel) (name ∷ stack) reachable result f v h =
      let (next, first, rest) =
        bind-ok (expand tasks name stack reachable) (λ next. explore fuel tasks next.0 next.1)
          result h in
      let (v', less, more) = expand-Reaching name stack reachable next v first in
      let (v'', all) =
        explore-Reaching fuel next.0 next.1 result (omega (arith, f, less)) v' rest in
      (v'', λ n i. all n (more n i))
