-- ===== src/Graph/Implementations.antt =====
-- internal/db/graph.go: which nodes the graph lists for an interface.
use vector_mcp_go.Base.{
  ℕ, suc, if_same, ◌≡◌, refl, sym, ap, ◌∙◌, Bool, true, false, ◌&&◌, ◌||◌, not, Option, none, some,
  List, [], ◌∷◌, ◌++◌, map, any, if◌then◌else◌, Bool-cases, inl, inr,
}
use vector_mcp_go.Base.Maps.{find, has, put, find-put}
use vector_mcp_go.Base.Text.{Text, codes, text_eq, text_eq→eq, text_dec, does-text_dec}
use vector_mcp_go.Graph.{
  Texts, method_key, EntityNode, KnowledgeGraph, Interfaces, is_interface, is_struct, implements,
  ids_of, add_impls, link, struct_meta, build_node, node_of, add_node, collect, populate,
  get_implementations, zero_node,
}
use vector_mcp_go.Indexer.{
  Host, FileFacts, chunk_records, embeddings, prepare_records, create_chunk_record,
  create_file_meta_record, add_file_meta_only,
}
use vector_mcp_go.Chunk.{Chunk}
use vector_mcp_go.Lexical.{or_else}
use vector_mcp_go.Store.{Metadata, field, Document, Collection, status_record}

any_append : {A : Type 0} (p : A → Bool) (xs ys : List A) → any p (xs ++ ys) ≡ any p xs || any p ys
any_append p [] ys = refl
any_append p (x ∷ xs) ys = elim (Bool-cases (p x)) [
  | inl e ↦ rw e refl
  | inr e ↦ rw e (any_append p xs ys)
]

or_assoc : (a b c : Bool) → ((a || b) || c) ≡ (a || (b || c))
or_assoc true b c = refl
or_assoc false b c = refl

or_false : (a : Bool) → (a || false) ≡ a
or_false true = refl
or_false false = refl

and_false : (a : Bool) → (a && false) ≡ false
and_false true = refl
and_false false = refl

or_once : (a b : Bool) → (a || (b || false)) ≡ (a || (b && true))
or_once true b = refl
or_once false true = refl
or_once false false = refl

add_one : (l i o f : Bool) → ((l || (i && o)) || (i && f)) ≡ (l || (i && ((o && true) || f)))
add_one true i o f = refl
add_one false true true f = refl
add_one false true false f = refl
add_one false false o f = refl

skip_one : (l i o f : Bool) → (l || (i && f)) ≡ (l || (i && ((o && false) || f)))
skip_one true i o f = refl
skip_one false true true f = refl
skip_one false true false f = refl
skip_one false false o f = refl

-- Whether the code finds that the node implements an interface of this name.
abbrev satisfies : Text → Interfaces → EntityNode → Bool
satisfies name interfaces node = any (λ i. text_eq i.0 name && implements node i.1) interfaces

-- Whether a node has a method, whether it has every method of a list, and whether there is one.
abbrev pub has_method : EntityNode → Text → Bool
has_method node method = any (λ e. text_eq e.0 (codes "method:" ++ method)) node.metadata

abbrev pub has_every : EntityNode → Metadata → Bool
has_every node [] = true
has_every node ((method, _) ∷ methods) = has_method node method && has_every node methods

abbrev pub has_some : Metadata → Bool
has_some [] = false
has_some (m ∷ methods) = true

-- Whether the node has every method of one of the interfaces of this name, and that has a method.
abbrev pub fits : Text → Interfaces → EntityNode → Bool
fits name interfaces node =
    any (λ i. text_eq i.0 name && (has_every node i.1 && has_some i.1)) interfaces

-- Whether the type is that of a struct or a class.
abbrev pub is_class : Text → Bool
is_class node_type =
    any (text_eq node_type) (codes "struct_type" ∷ codes "struct" ∷ codes "class" ∷ [])

if_or : (a b : Bool) → (if a then true else b) ≡ (a || b)
if_or true b = refl
if_or false b = refl

has-any :
    {V : Type 0} (k : Text) (m : List (Text × V)) → has text_dec k m ≡ any (λ e. text_eq e.0 k) m
has-any k [] = refl
has-any k ((j, v) ∷ m) = rw (does-text_dec j k, has-any k m) (if_or (text_eq j k) _)

not_and : (a b : Bool) → not (not a || b) ≡ (a && not b)
not_and true b = refl
not_and false b = refl

missing-has_every :
    (node : EntityNode) (methods : Metadata)
    → not (any (λ m. not (has text_dec (method_key m.0) node.metadata)) methods)
      ≡ has_every node methods
missing-has_every node [] = refl
missing-has_every node ((method, v) ∷ methods) = rw (has-any (method_key method) node.metadata) (
    not_and (has_method node method) _
    ∙ ap (λ b. has_method node method && b) (missing-has_every node methods))

implements-has_every :
    (node : EntityNode) (methods : Metadata)
    → implements node methods ≡ has_every node methods && has_some methods
unfolding implements
implements-has_every node [] = refl
implements-has_every node (m ∷ methods) = ap (λ b. b && true) (missing-has_every node (m ∷ methods))

is_struct-is_class : (node_type : Text) → is_struct node_type ≡ is_class node_type
unfolding is_struct
is_struct-is_class node_type = λ i.
    text_eq node_type (codes "struct_type")
    || (text_eq node_type (codes "struct") || sym (or_false (text_eq node_type (codes "class"))) i)

satisfies-fits :
    (name : Text) (interfaces : Interfaces) (node : EntityNode)
    → satisfies name interfaces node ≡ fits name interfaces node
satisfies-fits name interfaces node i =
    any (λ j. text_eq j.0 name && implements-has_every node j.1 i) interfaces

module _ (name q : Text) where
  -- Whether the node is listed for the interface.
  abbrev listed : List (Text × List Text) → Bool
  listed impls = any (text_eq q) (ids_of name impls)

  listed-put :
      (other id : Text) (impls : List (Text × List Text))
      → listed (put text_dec other (ids_of other impls ++ id ∷ []) impls)
        ≡ listed impls || (text_eq q id && text_eq other name)
  listed-put other id impls = elim (Bool-cases (text_eq other name)) [
    | inl e ↦
        rw
          (
            find-put text_dec other name (ids_of other impls ++ id ∷ []) impls,
            does-text_dec other name,
            e,
          )
          (any_append (text_eq q) (ids_of other impls) (id ∷ [])
            ∙ ap (λ n. any (text_eq q) (ids_of n impls) || (text_eq q id || false))
                (text_eq→eq other name e)
            ∙ or_once (listed impls) (text_eq q id))
    | inr e ↦
        rw
          (
            find-put text_dec other name (ids_of other impls ++ id ∷ []) impls,
            does-text_dec other name,
            e,
          )
          (sym (rw (and_false (text_eq q id)) (or_false (listed impls))))
  ]

  add_impls-listed :
      (id : Text) (node : EntityNode) (interfaces : Interfaces) (impls : List (Text × List Text))
      → listed (add_impls id node interfaces impls)
        ≡ listed impls || (text_eq q id && satisfies name interfaces node)
  unfolding add_impls
  add_impls-listed id node [] impls = sym (rw (and_false (text_eq q id)) (or_false (listed impls)))
  add_impls-listed id node ((other, methods) ∷ interfaces) impls =
      elim (Bool-cases (implements node methods)) [
        | inl e ↦ rw e (
            add_impls-listed id node interfaces
              (put text_dec other (ids_of other impls ++ id ∷ []) impls)
            ∙ ap (λ b. b || (text_eq q id && satisfies name interfaces node))
                (listed-put other id impls)
            ∙ add_one (listed impls) (text_eq q id) (text_eq other name)
                (satisfies name interfaces node))
        | inr e ↦ rw e (
            add_impls-listed id node interfaces impls
            ∙ skip_one (listed impls) (text_eq q id) (text_eq other name)
                (satisfies name interfaces node))
      ]

  -- What the second pass adds to the listing.
  pub link-listed :
      (nodes : List (Text × EntityNode)) (interfaces : Interfaces) (impls : List (Text × List Text))
      → listed (link nodes interfaces impls)
        ≡ listed impls
          || any
              (λ n. text_eq q n.0 && (is_struct n.1.node_type && satisfies name interfaces n.1))
              nodes
  unfolding link
  link-listed [] interfaces impls = sym (or_false (listed impls))
  link-listed ((id, node) ∷ nodes) interfaces impls = elim (Bool-cases (is_struct node.node_type)) [
    | inl e ↦ rw e (
        link-listed nodes interfaces (add_impls id node interfaces impls)
        ∙ ap
            (λ b.
              b
              || any
                  (λ n. text_eq q n.0 && (is_struct n.1.node_type && satisfies name interfaces n.1))
                  nodes)
            (add_impls-listed id node interfaces impls)
        ∙ or_assoc (listed impls) (text_eq q id && satisfies name interfaces node) _)
    | inr e ↦ rw (e, and_false (text_eq q id)) (link-listed nodes interfaces impls)
  ]

-- A record of a type that is written to the store while a project is indexed: a chunk, the record of a
-- file, or the project's status.
abbrev pub has_indexed_type : {V : Type 0} → Document V → Bool
has_indexed_type d =
    text_eq (field (codes "type") d.metadata) (codes "chunk")
    || (text_eq (field (codes "type") d.metadata) (codes "file_meta")
        || text_eq (field (codes "type") d.metadata) (codes "project_status"))

link-nil :
    (nodes : List (Text × EntityNode)) (impls : List (Text × List Text))
    → link nodes [] impls ≡ impls
unfolding link add_impls
link-nil [] impls = refl
link-nil ((id, node) ∷ nodes) impls =
    rw (if_same (is_struct node.node_type) impls) (link-nil nodes impls)

unless :
    {A : Type 0} (b : Bool) (o : Option A) (a : A) → (if b then none else o) ≡ some a → o ≡ some a
unless true o a h = cc
unless false o a h = h

or_rest : (a b : Bool) → a ≡ false → (a || b) ≡ true → b ≡ true
or_rest true b h k = cc
or_rest false b h k = k

or_none_rest : (a b : Bool) → (a || b) ≡ false → b ≡ false
or_none_rest true b h = cc
or_none_rest false b h = h

kept : (a b : Bool) → (not a || b) ≡ false → a ≡ true
kept true b h = refl
kept false b h = cc

module _ (texts : Texts) where
  module _ {V : Type 0} where
    -- The nodes and the interfaces that the first pass collects from the records.
    abbrev pub nodes_of : List (Document V) → List (Text × EntityNode)
    nodes_of records = (collect texts records ([], [])).0

    abbrev pub interfaces_of : List (Document V) → Interfaces
    interfaces_of records = (collect texts records ([], [])).1

    -- After `Populate`, whatever the graph held before, a name is listed for an interface exactly
    -- where it is the name of a struct or class node that has every method of an interface of that
    -- name, and the interface has one.
    pub populate-listed :
        (records : List (Document V)) (g : KnowledgeGraph) (name q : Text)
        → any (text_eq q) (ids_of name (populate texts records g).impls)
          ≡ any
              (λ n.
                text_eq q n.0 && (is_class n.1.node_type && fits name (interfaces_of records) n.1))
              (nodes_of records)
    unfolding populate
    populate-listed records g name q =
        link-listed name q (nodes_of records) (interfaces_of records) [] ∙ (λ i.
          any
            (λ n.
              text_eq q n.0
              && (is_struct-is_class n.1.node_type i
                  && satisfies-fits name (interfaces_of records) n.1 i))
            (nodes_of records))

  build_node-type :
      (m : Metadata) (meta : Option Metadata) (node : EntityNode)
      → build_node texts m meta ≡ some node
      → node.node_type ≡ field (codes "type") m
  unfolding build_node
  build_node-type m none node h = cc
  build_node-type m (some meta) node h = ap node_type_of (sym h)
    where
      node_type_of : Option EntityNode → Text
      node_type_of none = []
      node_type_of (some n) = n.node_type

  node_of-type :
      (m : Metadata) (node : EntityNode)
      → node_of texts m ≡ some node
      → node.node_type ≡ field (codes "type") m
  unfolding node_of
  node_of-type m node h = build_node-type m (struct_meta texts m) node (
      unless (text_eq (field (codes "name") m) []) (build_node texts m (struct_meta texts m)) node
        h)

  module _ {V : Type 0} where
    indexed-is_interface :
        (d : Document V)
        → has_indexed_type d ≡ true
        → is_interface (field (codes "type") d.metadata) ≡ false
    unfolding is_interface
    indexed-is_interface d h =
        elim (Bool-cases (text_eq (field (codes "type") d.metadata) (codes "chunk"))) [
          | inl e ↦ rw (text_eq→eq (field (codes "type") d.metadata) (codes "chunk") e) refl
          | inr e ↦
              elim (Bool-cases (text_eq (field (codes "type") d.metadata) (codes "file_meta"))) [
                | inl k ↦
                    rw (text_eq→eq (field (codes "type") d.metadata) (codes "file_meta") k) refl
                | inr k ↦
                    rw
                      (text_eq→eq (field (codes "type") d.metadata) (codes "project_status")
                        (or_rest _ _ k (or_rest _ _ e h)))
                      refl
              ]
        ]

    add_node-interfaces :
        (d : Document V) (o : Option EntityNode) (nodes : List (Text × EntityNode))
        → node_of texts d.metadata ≡ o
        → has_indexed_type d ≡ true
        → (add_node texts d.id o (nodes, [])).1 ≡ []
    add_node-interfaces d none nodes e h = refl
    add_node-interfaces d (some node) nodes e h =
        rw (node_of-type d.metadata node e, indexed-is_interface d h) refl

    collect-interfaces :
        (records : List (Document V)) (nodes : List (Text × EntityNode))
        → any (λ d. not (has_indexed_type d)) records ≡ false
        → (collect texts records (nodes, [])).1 ≡ []
    unfolding collect
    collect-interfaces [] nodes h = refl
    collect-interfaces (d ∷ ds) nodes h =
        ap
          (λ interfaces.
            (collect texts ds
              ((add_node texts d.id (node_of texts d.metadata) (nodes, [])).0, interfaces)).1)
          (add_node-interfaces d (node_of texts d.metadata) nodes refl
            (kept (has_indexed_type d) _ h))
        ∙ collect-interfaces ds (add_node texts d.id (node_of texts d.metadata) (nodes, [])).0
            (or_none_rest (not (has_indexed_type d)) _ h)

    -- From records of the types that are written while a project is indexed, those of its chunks, its
    -- files and its status, the graph finds no implementation of any interface, whatever their
    -- structural metadata says.
    pub get_implementations-indexed :
        (records : List (Document V)) (g : KnowledgeGraph) (name : Text)
        → any (λ d. not (has_indexed_type d)) records ≡ false
        → get_implementations texts name (populate texts records g) ≡ []
    unfolding get_implementations populate
    get_implementations-indexed records g name h =
        ap
          (λ impls.
            map (λ id. or_else (find text_dec id (nodes_of records)) (zero_node texts))
              (ids_of name impls))
          (ap (λ interfaces. link (nodes_of records) interfaces [])
              (collect-interfaces records [] h)
            ∙ link-nil (nodes_of records) [])

module _ (col : Collection) (host : Host col) where
  open col use {Vector, floats}
  open floats use {F}

  -- The record of a project's status is of one of those types.
  pub status_record-indexed :
      (project_id status : Text) → has_indexed_type (status_record col project_id status) ≡ true
  status_record-indexed project_id status = refl

  chunk_records-indexed :
      (facts : FileFacts col host) (i : ℕ) (chunks : List (Chunk F)) (embs : List Vector)
      → any (λ d. not (has_indexed_type d)) (chunk_records col host facts i chunks embs) ≡ false
  unfolding chunk_records create_chunk_record
  chunk_records-indexed facts i [] embs = refl
  chunk_records-indexed facts i (c ∷ chunks) [] = refl
  chunk_records-indexed facts i (c ∷ chunks) (emb ∷ embs) =
      chunk_records-indexed facts (suc i) chunks embs

  -- All records that the indexer makes of a file are of those types.
  pub prepare_records-indexed :
      (facts : FileFacts col host) (chunks : List (Chunk F))
      → any (λ d. not (has_indexed_type d)) (prepare_records col host facts chunks) ≡ false
  unfolding prepare_records add_file_meta_only create_file_meta_record
  prepare_records-indexed facts [] = refl
  prepare_records-indexed facts (c ∷ chunks) =
      any_append (λ d. not (has_indexed_type d))
        (chunk_records col host facts 0 (c ∷ chunks)
          (embeddings col host (map (λ c. c.contextual_string) (c ∷ chunks))))
        _
      ∙ rw
          (chunk_records-indexed facts 0 (c ∷ chunks)
            (embeddings col host (map (λ c. c.contextual_string) (c ∷ chunks))))
          refl
