-- ===== src/Watch/Tests.antt =====
-- crates/nxr-watch/src/restart.rs and change.rs: small runs.
use nxr.Base.{◌≡◌, refl, true, false, List, [], ◌∷◌, ◌++◌, some, arith, if◌then◌else◌, none}
use nxr.Watch.Restart.{
  Debouncer, take_ready, bump, ChangeClass, metadata, source, ignored, merge_change_classes,
}
use nxr.Watch.Ready.{
  mark_all, ready_once, is_metadata, is_source, any_class, merge_change_classes_lem,
}

second-generation : (bump (bump 0).0).1 ≡ 2
unfolding bump
second-generation = refl

abbrev idle : Debouncer
idle = record { window = 40; dirty_at = none }

ready_once_example :
    let marked = mark_all ((10 ∷ []) ++ (20 ∷ [])) idle in
    (take_ready 50 marked ≡ (marked, false))
    × ((take_ready 60 marked).1 ≡ true)
    × ((take_ready 99 (take_ready 60 marked).0).1 ≡ false)
ready_once_example = ready_once (10 ∷ []) 20 50 60 99 idle (omega arith) (omega arith) (omega arith)

abbrev batch : List ChangeClass
batch = ignored ∷ source ∷ metadata ∷ []

merge_change_classes_lem_example : merge_change_classes batch ≡ (
    if any_class is_metadata batch
    then some metadata
    else if any_class is_source batch
    then some source
    else none)
merge_change_classes_lem_example = merge_change_classes_lem batch
