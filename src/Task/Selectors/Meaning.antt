-- ===== src/Task/Selectors/Meaning.antt =====
-- crates/nxr-task/src/selectors.rs and resolve.rs: what a token means, and which tasks it stands for.
use Prim.Native.String.{◌++◌ as str_append}
use nxr.Base.{◌≡◌, ◌≢◌, true, false, some, String, ◌⊎◌}
use nxr.Base.Order.{string_ord}
use nxr.Base.Set.{contains}
use nxr.Base.Map.{get}
use nxr.Task.Schema.{TaskDefinition, Tasks}
use nxr.Task.Graph.Defs.{has_task}
use nxr.Task.Selectors.{ParsedSelector, category, changed, task, app, bare}

-- A token is `changed`, has one of the prefixes, or is a bare name.
abbrev pub Reads : String → ParsedSelector → Type 0
Reads token changed = token ≡ "changed"
Reads token (category c) = token ≡ str_append "category:" c
Reads token (task name) = token ≡ str_append "task:" name
Reads token (app name) = token ≡ str_append "app:" name
Reads token (bare name) =
    (name ≡ token)
    × (token ≢ "changed")
    × ((s : String) → token ≢ str_append "category:" s)
    × ((s : String) → token ≢ str_append "task:" s)
    × ((s : String) → token ≢ str_append "app:" s)

-- A name is that of the task itself, or, where no task has it, an alias of this task and of no other.
abbrev pub Called : Tasks → String → String → Type 0
Called doc name n =
    ((has_task name doc ≡ true) × (n ≡ name))
    ⊎ ((has_task name doc ≡ false)
        × ((d : TaskDefinition) × (get n doc ≡ some d) × (contains name d.aliases ≡ true))
        × ((m : String) (e : TaskDefinition)
            → get m doc ≡ some e
            → contains name e.aliases ≡ true
            → m ≡ n))

-- A category stands for its tasks that are not hidden, and a name for the task that is called so.
abbrev pub Stands : Tasks → ParsedSelector → String → Type 0
Stands doc changed n = ⊥
Stands doc (app name) n = ⊥
Stands doc (category c) n =
    (d : TaskDefinition) × (get n doc ≡ some d) × (d.hidden ≡ false) × (d.category ≡ some c)
Stands doc (task name) n = Called doc name n
Stands doc (bare name) n = Called doc name n
