-- ===== src/Graph/Tests.antt =====
-- internal/db/graph.go at three records, and its theorems there.
use vector_mcp_go.Base.{◌≡◌, refl, Bool, true, ◌&&◌, some, List, [], ◌∷◌, ◌++◌, any}
use vector_mcp_go.Base.Text.{Text, codes, text_eq}
use vector_mcp_go.Graph.{Texts, new_knowledge_graph, ids_of, populate, get_implementations}
use vector_mcp_go.Graph.Implementations.{
  is_class, fits, nodes_of, interfaces_of, populate-listed, get_implementations-indexed,
}
use vector_mcp_go.Store.{Document}

-- All metadata is readable: a method of that name.
abbrev plain : Texts
plain = record {
  parse_map = λ text. some ((codes "method:" ++ text, []) ∷ []);
  to_lower = λ text. text;
  contains = λ text part. text_eq text part;
}

abbrev entity : Text → Text → Text → Document Bool
entity id node_type name = record {
  id = id;
  content = [];
  embedding = true;
  metadata =
      (codes "name", name)
      ∷ (codes "type", node_type)
      ∷ (codes "structural_metadata", codes "Read")
      ∷ [];
}

abbrev reader_and_file : List (Document Bool)
reader_and_file =
    entity (codes "1") (codes "interface_type") (codes "Reader")
    ∷ entity (codes "2") (codes "struct_type") (codes "File")
    ∷ entity (codes "2") (codes "struct_type") (codes "Socket")
    ∷ []

populate-listed_example :
    any
      (text_eq (codes "2"))
      (ids_of (codes "Reader") (populate plain reader_and_file new_knowledge_graph).impls)
    ≡ any
        (λ n.
          text_eq (codes "2") n.0
          && (is_class n.1.node_type
              && fits (codes "Reader") (interfaces_of plain reader_and_file) n.1))
        (nodes_of plain reader_and_file)
populate-listed_example =
    populate-listed plain reader_and_file new_knowledge_graph (codes "Reader") (codes "2")

abbrev chunks_only : List (Document Bool)
chunks_only =
    entity (codes "1") (codes "chunk") (codes "Reader")
    ∷ entity (codes "2") (codes "chunk") (codes "File")
    ∷ entity (codes "status:app") (codes "project_status") []
    ∷ []

get_implementations-indexed_example :
    get_implementations plain (codes "Reader") (populate plain chunks_only new_knowledge_graph) ≡ []
get_implementations-indexed_example =
    get_implementations-indexed plain chunks_only new_knowledge_graph (codes "Reader") refl
