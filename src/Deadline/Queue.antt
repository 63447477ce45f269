-- ===== src/Deadline/Queue.antt =====
-- crates/nxr-process/src/deadline.rs: the queue and its operations. The heap is the list of its entries
-- in the order in which they are popped; a time is a number of nanoseconds.
use nxr.Base.{
  ℕ, ◌-◌, Bool, true, false, ◌&&◌, ◌||◌, List, [], ◌∷◌, Option, none, some, ltb, ◌==◌,
  if◌then◌else◌,
}
use nxr.Base.Order.{number_ord}
use nxr.Base.Set
use nxr.Base.Set.{contains}

abbrev pub Entry : Type 0
Entry = ℕ × ℕ

pub record DeadlineQueue : Type 0 where
  pub heap : List Entry
  pub cancelled : List ℕ
  pub scheduled : List ℕ

abbrev pub new : DeadlineQueue
new = record { heap = []; cancelled = []; scheduled = [] }

-- Entries are ordered by their deadline, and then by their node.
abbrev pub comes_before : Entry → Entry → Bool
comes_before e f = ltb e.0 f.0 || (e.0 == f.0 && ltb e.1 f.1)

unfoldable pub heap_push : Entry → List Entry → List Entry
heap_push e [] = e ∷ []
heap_push e (f ∷ heap) =
    let rest = heap_push e heap in if comes_before f e then f ∷ rest else e ∷ f ∷ heap

unfoldable pub insert : DeadlineQueue → ℕ → ℕ → DeadlineQueue
insert q node deadline = record {
  heap = heap_push (deadline, node) q.heap;
  cancelled = Set.remove node q.cancelled;
  scheduled = Set.insert node q.scheduled;
}

unfoldable pub cancel : DeadlineQueue → ℕ → DeadlineQueue
cancel q node =
    if contains node q.scheduled then record q { cancelled = Set.insert node q.cancelled } else q

-- Each round takes the first entry, as long as it is due.
unfoldable pub pop_loop : ℕ → List Entry → List ℕ → List ℕ → List ℕ × DeadlineQueue
pop_loop now [] cancelled scheduled =
    ([], record { heap = []; cancelled = cancelled; scheduled = scheduled })
pop_loop now ((deadline, node) ∷ heap) cancelled scheduled =
    let skipped = pop_loop now heap (Set.remove node cancelled) (Set.remove node scheduled) in
    let taken = pop_loop now heap cancelled (Set.remove node scheduled) in
    if ltb now deadline
    then (
      [],
      record { heap = (deadline, node) ∷ heap; cancelled = cancelled; scheduled = scheduled },
    )
    else if contains node cancelled
    then skipped
    else (node ∷ taken.0, taken.1)

unfoldable pub pop_expired : DeadlineQueue → ℕ → List ℕ × DeadlineQueue
pop_expired q now = pop_loop now q.heap q.cancelled q.scheduled

-- Cancelled entries are dropped up to the first that is live.
unfoldable pub next_loop : ℕ → List Entry → List ℕ → List ℕ → Option ℕ × DeadlineQueue
next_loop now [] cancelled scheduled =
    (none, record { heap = []; cancelled = cancelled; scheduled = scheduled })
next_loop now ((deadline, node) ∷ heap) cancelled scheduled =
    let skipped = next_loop now heap (Set.remove node cancelled) (Set.remove node scheduled) in
    if contains node cancelled then skipped else (
      some (deadline - now),
      record { heap = (deadline, node) ∷ heap; cancelled = cancelled; scheduled = scheduled },
    )

unfoldable pub time_until_next : DeadlineQueue → ℕ → Option ℕ × DeadlineQueue
time_until_next q now = next_loop now q.heap q.cancelled q.scheduled

unfoldable pub is_empty : DeadlineQueue → Bool
is_empty q = elim q.scheduled [ [] ↦ true | _ ∷ _ ↦ false ]
