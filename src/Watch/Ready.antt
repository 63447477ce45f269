-- ===== src/Watch/Ready.antt =====
-- crates/nxr-watch/src/restart.rs and change.rs: when a burst of changes is ready, and the strongest class.
use nxr.Base.{
  ℕ, ◌+◌, ◌-◌, ◌≤◌, ◌<◌, ◌≡◌, refl, Bool, true, false, ◌||◌, List, [], ◌∷◌, ◌++◌, none, some, arith,
  ltb, if◌then◌else◌,
}
use nxr.Watch.Restart.{
  Debouncer, mark_dirty, take_ready, ChangeClass, metadata, source, ignored, merge_from,
  merge_change_classes,
}

abbrev pub mark_all : List ℕ → Debouncer → Debouncer
mark_all [] d = d
mark_all (now ∷ times) d = mark_all times (mark_dirty now d)

mark_all-last :
    (times : List ℕ) (last : ℕ) (d : Debouncer)
    → mark_all (times ++ (last ∷ [])) d ≡ record { window = d.window; dirty_at = some last }
unfolding mark_dirty
mark_all-last [] last d = refl
mark_all-last (now ∷ times) last d = mark_all-last times last (mark_dirty now d)

-- After any marks, the last one at `last`: at a time before the window has passed nothing is ready and
-- nothing changes; at a time when it has passed the burst is ready, and it is not ready a second time.
pub ready_once :
    (times : List ℕ) (last before now later : ℕ) (d : Debouncer)
    → last ≤ before
    → before < last + d.window
    → last + d.window ≤ now
    → let marked = mark_all (times ++ (last ∷ [])) d in
      (take_ready before marked ≡ (marked, false))
      × ((take_ready now marked).1 ≡ true)
      × ((take_ready later (take_ready now marked).0).1 ≡ false)
unfolding take_ready
ready_once times last before now later d a b c =
    let early : ltb (before - last) d.window ≡ true = ground (arith, a, b) in
    let late : ltb (now - last) d.window ≡ false = ground (arith, c) in
    rw (mark_all-last times last d) (rw early refl, rw late refl, rw late refl)

abbrev pub is_metadata : ChangeClass → Bool
is_metadata metadata = true
is_metadata source = false
is_metadata ignored = false

abbrev pub is_source : ChangeClass → Bool
is_source metadata = false
is_source source = true
is_source ignored = false

abbrev pub any_class : (ChangeClass → Bool) → List ChangeClass → Bool
any_class p [] = false
any_class p (c ∷ classes) = p c || any_class p classes

merge_from_lem :
    (saw : Bool) (classes : List ChangeClass)
    → merge_from saw classes ≡ (
        if any_class is_metadata classes
        then some metadata
        else if saw || any_class is_source classes
        then some source
        else none)
unfolding merge_from
merge_from_lem saw [] = ground arith
merge_from_lem saw (metadata ∷ classes) = refl
merge_from_lem saw (source ∷ classes) = ground (arith, merge_from_lem true classes)
merge_from_lem saw (ignored ∷ classes) = merge_from_lem saw classes

-- The merged class of some changes is metadata where one of them is, else source where one of them is, and
-- there is no class where all are ignored or there is no change.
pub merge_change_classes_lem :
    (classes : List ChangeClass)
    → merge_change_classes classes ≡ (
        if any_class is_metadata classes
        then some metadata
        else if any_class is_source classes
        then some source
        else none)
unfolding merge_change_classes
merge_change_classes_lem classes = merge_from_lem false classes
