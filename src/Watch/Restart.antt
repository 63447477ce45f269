-- ===== src/Watch/Restart.antt =====
-- crates/nxr-watch/src/restart.rs and change.rs: the debouncer, the generation counter, and the merging of
-- the classes of changes. A clock reading is an argument, in milliseconds.
use nxr.Base.{ℕ, ◌-◌, Bool, true, false, List, [], ◌∷◌, Option, none, some, ltb, if◌then◌else◌}
use nxr.Base.Words.{saturating_add, u64_max}

pub record Debouncer : Type 0 where
  pub window : ℕ
  pub dirty_at : Option ℕ

unfoldable pub new : ℕ → Debouncer
new window = record { window = window; dirty_at = none }

unfoldable pub mark_dirty : ℕ → Debouncer → Debouncer
mark_dirty now d = record d { dirty_at = some now }

unfoldable pub time_until_ready : ℕ → Debouncer → Option ℕ
time_until_ready now d = elim d.dirty_at [
  | none ↦ none
  | some dirty_at ↦ some (d.window - (now - dirty_at))
]

unfoldable pub take_ready : ℕ → Debouncer → Debouncer × Bool
take_ready now d = elim d.dirty_at [
  | none ↦ (d, false)
  | some dirty_at ↦
      if ltb (now - dirty_at) d.window then (d, false) else (record d { dirty_at = none }, true)
]

abbrev pub Generation : Type 0
Generation = ℕ

unfoldable pub bump : Generation → Generation × ℕ
bump generation = let next = saturating_add u64_max generation 1 in (next, next)

pub data ChangeClass : Type 0 where
  metadata source ignored : ChangeClass

unfoldable pub merge_from : Bool → List ChangeClass → Option ChangeClass
merge_from saw_source [] = if saw_source then some source else none
merge_from saw_source (metadata ∷ classes) = some metadata
merge_from saw_source (source ∷ classes) = merge_from true classes
merge_from saw_source (ignored ∷ classes) = merge_from saw_source classes

unfoldable pub merge_change_classes : List ChangeClass → Option ChangeClass
merge_change_classes classes = merge_from false classes
