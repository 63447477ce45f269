-- ===== src/Affected/Graph.antt =====
-- crates/nxr-affected/src/graph.rs: the graph of the apps and tasks.
use Prim.Native.String.{◌++◌ as str_append}
use nxr.Base.{Bool, ◌||◌, List, [], ◌∷◌, ◌++◌, Option, none, some, String, if◌then◌else◌}
use nxr.Base.Order.{string_ord, eqb}
use nxr.Base.Set
use nxr.Base.Set.{contains}
use nxr.Base.Map
use nxr.Base.Map.{get}
use nxr.Task.Schema.{
  JsonValue, null, bool, number, string, array, object, JsonItems, no_item, item, TaskDefinition,
  Tasks,
}
use nxr.Task.Rows.{Dependents, children}
use nxr.Affected.Paths.{normalize_relative_path}

-- An app of crates/nxr-core/src/model.rs.
pub record App : Type 0 where
  pub name : String
  pub attr_path : String
  pub flake_ref : String
  pub system : String
  pub description : Option String
  pub is_default : Bool
  pub metadata : List (String × JsonValue)

pub data NodeKind : Type 0 where
  app task : NodeKind

pub record GraphNode : Type 0 where
  pub kind : NodeKind
  pub name : String
  pub path_roots : List String
  pub depends_on : List String
  pub app_name : Option String

abbrev pub Nodes : Type 0
Nodes = List (String × GraphNode)

pub record AffectedGraph : Type 0 where
  pub nodes : Nodes
  pub dependents : Dependents

unfoldable pub node_key : NodeKind → String → String
node_key app name = str_append "app:" name
node_key task name = str_append "task:" name

unfoldable pub string_items : JsonItems → List String
string_items no_item = []
string_items (item (string path) rest) = normalize_relative_path path ∷ string_items rest
string_items (item null rest) = string_items rest
string_items (item (bool _) rest) = string_items rest
string_items (item (number _) rest) = string_items rest
string_items (item (array _) rest) = string_items rest
string_items (item (object _) rest) = string_items rest

unfoldable pub as_paths : JsonValue → List String
as_paths (array items) = string_items items
as_paths null = []
as_paths (bool _) = []
as_paths (number _) = []
as_paths (string _) = []
as_paths (object _) = []

unfoldable pub paths_from_metadata : List (String × JsonValue) → List String
paths_from_metadata metadata = elim (get "paths" metadata) [
  | none ↦ []
  | some value ↦ as_paths value
]

-- The normalized paths that were not seen before.
unfoldable pub dedupe_from : List String → List String → List String
dedupe_from seen [] = []
dedupe_from seen (path ∷ paths) =
    let normalized = normalize_relative_path path in
    let rest = dedupe_from (Set.insert normalized seen) paths in
    if contains normalized seen then rest else normalized ∷ rest

unfoldable pub dedupe_paths : List String → List String
dedupe_paths paths = dedupe_from [] paths

unfoldable pub working_directory_root : Option String → List String
working_directory_root none = []
working_directory_root (some value) =
    if eqb value "invocation" || eqb value "flake-root"
    then []
    else normalize_relative_path value ∷ []

unfoldable pub task_path_roots : TaskDefinition → Option (List String) → List String
task_path_roots definition app_roots = dedupe_paths (
    definition.paths
    ++ working_directory_root definition.working_directory
    ++ (elim app_roots [ none ↦ [] | some roots ↦ roots ]))

unfoldable pub add_apps :
    List App → Nodes × List (String × List String) → Nodes × List (String × List String)
add_apps [] acc = acc
add_apps (a ∷ apps) (nodes, app_paths) =
    let roots = paths_from_metadata a.metadata in
    add_apps apps (
      Map.insert (node_key app a.name)
          (record {
            kind = app;
            name = a.name;
            path_roots = roots;
            depends_on = [];
            app_name = none;
          })
          nodes,
      Map.insert a.name roots app_paths,
    )

unfoldable pub task_node : List (String × List String) → String → TaskDefinition → GraphNode
task_node app_paths name definition = record {
  kind = task;
  name = name;
  path_roots = task_path_roots definition (get definition.app app_paths);
  depends_on = definition.depends_on;
  app_name = some definition.app;
}

unfoldable pub add_tasks : List (String × List String) → Tasks → Nodes → Nodes
add_tasks app_paths [] nodes = nodes
add_tasks app_paths ((name, definition) ∷ tasks) nodes =
    add_tasks app_paths tasks
      (Map.insert (node_key task name) (task_node app_paths name definition) nodes)

-- `entry(dependency).or_default().insert(key)`.
unfoldable pub add_dependent : String → String → Dependents → Dependents
add_dependent key dependency dependents =
    Map.insert dependency (Set.insert key (children dependents dependency)) dependents

unfoldable pub add_dependencies : String → List String → Dependents → Dependents
add_dependencies key [] dependents = dependents
add_dependencies key (dep ∷ deps) dependents =
    add_dependencies key deps (add_dependent key (node_key task dep) dependents)

unfoldable pub add_app : String → Option String → Dependents → Dependents
add_app key none dependents = dependents
add_app key (some name) dependents = add_dependent key (node_key app name) dependents

unfoldable pub add_nodes : Nodes → Dependents → Dependents
add_nodes [] dependents = dependents
add_nodes ((key, node) ∷ nodes) dependents =
    add_nodes nodes (add_app key node.app_name (add_dependencies key node.depends_on dependents))

unfoldable pub reverse_dependencies : Nodes → Dependents
reverse_dependencies nodes = add_nodes nodes []

unfoldable pub build_graph : List App → Tasks → AffectedGraph
build_graph apps tasks =
    let started = add_apps apps ([], []) in
    let nodes = add_tasks started.1 tasks started.0 in
    record { nodes = nodes; dependents = reverse_dependencies nodes }
