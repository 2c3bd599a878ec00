-- ===== src/Graph.antt =====
-- internal/db/graph.go: the knowledge graph of the store's records.
--
-- `json.Unmarshal`, `strings.ToLower` and `strings.Contains` are parameters (`Texts`); a map is an
-- association list, gone through in its order. The lock is left out, and so is the field `edges`,
-- which no function fills.
pub mod Implementations
mod Tests
use vector_mcp_go.Base.{
  Bool, true, false, ◌&&◌, ◌||◌, not, Option, none, some, List, [], ◌∷◌, ◌++◌, map, drop, any, keep,
  if◌then◌else◌,
}
use vector_mcp_go.Base.Maps.{find, has, put}
use vector_mcp_go.Base.Text.{Text, codes, text_eq, text_dec, has_prefix}
use vector_mcp_go.Lexical.{or_else}
use vector_mcp_go.Store.{Metadata, field, Document}

pub record Texts : Type 0 where
  -- `json.Unmarshal` into a map: `none` where it fails.
  pub parse_map : Text → Option Metadata
  pub to_lower : Text → Text
  pub contains : Text → Text → Bool

pub record EntityNode : Type 0 where
  pub name : Text
  pub node_type : Text
  pub path : Text
  pub docstring : Text
  pub metadata : Metadata

pub record KnowledgeGraph : Type 0 where
  pub nodes : List (Text × EntityNode)
  pub impls : List (Text × List Text)

abbrev pub Interfaces : Type 0
Interfaces = List (Text × Metadata)

abbrev pub new_knowledge_graph : KnowledgeGraph
new_knowledge_graph = record { nodes = []; impls = [] }

abbrev pub method_key : Text → Text
method_key method = codes "method:" ++ method

-- The loop that collects the methods of an interface.
unfoldable pub methods_of : Metadata → Metadata
methods_of [] = []
methods_of ((key, value) ∷ m) =
    let rest = methods_of m in
    if has_prefix key (codes "method:") then put text_dec (drop 7 key) value rest else rest

unfoldable pub is_interface : Text → Bool
is_interface node_type =
    text_eq node_type (codes "interface_type") || text_eq node_type (codes "interface")

unfoldable pub is_struct : Text → Bool
is_struct node_type =
    text_eq node_type (codes "struct_type")
    || (text_eq node_type (codes "struct") || text_eq node_type (codes "class"))

-- The loop that looks for a method that is missing, and the interface has one.
unfoldable pub implements : EntityNode → Metadata → Bool
implements node methods =
    not (any (λ m. not (has text_dec (method_key m.0) node.metadata)) methods)
    && not (elim methods [ [] ↦ true | _ ↦ false ])

-- `g.impls[interfaceName]`, which is empty where it is missing.
abbrev pub ids_of : Text → List (Text × List Text) → List Text
ids_of name impls = or_else (find text_dec name impls) []

-- The inner loop of the second pass.
unfoldable pub add_impls :
    Text → EntityNode → Interfaces → List (Text × List Text) → List (Text × List Text)
unfolding implements
add_impls id node [] impls = impls
add_impls id node ((name, methods) ∷ interfaces) impls =
    let added = put text_dec name (ids_of name impls ++ id ∷ []) impls in
    add_impls id node interfaces (if implements node methods then added else impls)

-- The second pass.
unfoldable pub link :
    List (Text × EntityNode) → Interfaces → List (Text × List Text) → List (Text × List Text)
unfolding add_impls is_struct
link [] interfaces impls = impls
link ((id, node) ∷ nodes) interfaces impls =
    link nodes interfaces
      (if is_struct node.node_type then add_impls id node interfaces impls else impls)

module _ (texts : Texts) where
  open texts use {parse_map, to_lower, contains}

  -- `structMeta`: `none` where the metadata is corrupted.
  struct_meta : Metadata → Option Metadata
  struct_meta m = elim (find text_dec (codes "structural_metadata") m) [
    | none ↦ some []
    | some raw ↦ parse_map raw
  ]

  unfoldable build_node : Metadata → Option Metadata → Option EntityNode
  build_node m none = none
  build_node m (some meta) = some (record {
    name = field (codes "name") m;
    node_type = field (codes "type") m;
    path = field (codes "path") m;
    docstring = field (codes "docstring") m;
    metadata = meta;
  })

  -- The node of a record; none for a record without a name or with corrupted metadata.
  unfoldable pub node_of : Metadata → Option EntityNode
  unfolding struct_meta build_node
  node_of m =
      let built = build_node m (struct_meta m) in
      if text_eq (field (codes "name") m) [] then none else built

  -- One record of the first pass.
  abbrev pub add_node :
      Text
      → Option EntityNode
      → List (Text × EntityNode) × Interfaces
      → List (Text × EntityNode) × Interfaces
  add_node id none (nodes, interfaces) = (nodes, interfaces)
  add_node id (some node) (nodes, interfaces) = (
    put text_dec id node nodes,
    if is_interface node.node_type
        then put text_dec node.name (methods_of node.metadata) interfaces
        else interfaces,
  )

  -- The first pass.
  unfoldable pub collect :
      {V : Type 0}
      → List (Document V)
      → List (Text × EntityNode) × Interfaces
      → List (Text × EntityNode) × Interfaces
  unfolding node_of
  collect [] acc = acc
  collect (r ∷ rs) acc = collect rs (add_node r.id (node_of r.metadata) acc)

  -- `Populate`, which clears what the graph held.
  unfoldable pub populate : {V : Type 0} → List (Document V) → KnowledgeGraph → KnowledgeGraph
  unfolding collect link
  populate records g =
      let (nodes, interfaces) = collect records ([], []) in
      record { nodes = nodes; impls = link nodes interfaces [] }

  abbrev pub zero_node : EntityNode
  zero_node = record { name = []; node_type = []; path = []; docstring = []; metadata = [] }

  unfoldable pub get_implementations : Text → KnowledgeGraph → List EntityNode
  get_implementations name g =
      map (λ id. or_else (find text_dec id g.nodes) zero_node) (ids_of name g.impls)

  unfoldable pub find_usage : Text → KnowledgeGraph → List EntityNode
  find_usage field_name g =
      map (λ n. n.1) (keep (λ n. has text_dec (codes "field:" ++ field_name) n.1.metadata) g.nodes)

  unfoldable pub get_node_by_id : Text → KnowledgeGraph → Option EntityNode
  get_node_by_id id g = find text_dec id g.nodes

  unfoldable pub search_by_name : Text → KnowledgeGraph → List EntityNode
  search_by_name name g =
      map (λ n. n.1) (keep (λ n. contains (to_lower n.1.name) (to_lower name)) g.nodes)
