-- ===== src/Daemon/Tests.antt =====
-- internal/daemon/daemon.go at a master with one record, and its theorems there.
use vector_mcp_go.Base.{ℕ, ◌≡◌, false, none, List, [], ◌∷◌}
use vector_mcp_go.Base.Int.{ℤ, pos}
use vector_mcp_go.Base.Text.{Text, codes}
use vector_mcp_go.Daemon.{Wire, Service}
use vector_mcp_go.Daemon.Agreement.{holding, lifted, local_store, remote_store-agrees}
use vector_mcp_go.Daemon.Remote.{remote_store}
use vector_mcp_go.Store.Listed.{listed}
use vector_mcp_go.Store.{ok, failed, Document, Store}

abbrev plain : Wire listed
plain = record {
  describe = λ e. codes "error";
  describe_search = λ e. codes "error";
  ranking = record {
    has_code_like_identifiers = λ q. false;
    now = pos 0;
    parse_int = λ t. none;
    of_ℤ = λ z. 0;
    neg = λ x. x;
    pow = λ x y. 1;
  };
}

abbrev master : Service listed
master = record {
  embedder = record {
    embed = λ t. ok 1;
    embed_batch = λ ts. ok [];
    rerank_batch = λ q ts. failed (codes "no reranker");
  };
  index_queue = codes "/a" ∷ [];
  capacity = 2;
  store = none;
  progress_map = none;
}

abbrev one_record : Store listed
one_record = record {
  collection = (record { id = codes "1"; content = codes "x"; embedding = 1; metadata = [] }) ∷ [];
  bm25 = record { postings = []; doc_len = []; doc_count = 0; avg_len = 0 };
}

remote_store-agrees_example :
    ((e : ℕ) (n : ℤ) (ids : List Text) (category : Text)
      → (remote_store listed plain none).search e n ids category
          (holding listed plain master one_record)
        ≡ lifted listed plain master
            ((local_store listed plain).search e n ids category one_record))
    × ((e : ℕ) (n : ℤ) (ids : List Text) (category : Text)
        → (remote_store listed plain none).search_with_score e n ids category
            (holding listed plain master one_record)
          ≡ lifted listed plain master
              ((local_store listed plain).search_with_score e n ids category one_record))
    × ((q : Text) (e : ℕ) (n : ℤ) (ids : List Text) (category : Text)
        → (remote_store listed plain none).hybrid_search q e n ids category
            (holding listed plain master one_record)
          ≡ lifted listed plain master
              ((local_store listed plain).hybrid_search q e n ids category one_record))
    × ((q : Text) (n : ℤ) (ids : List Text) (category : Text)
        → (remote_store listed plain none).lexical_search q n ids category
            (holding listed plain master one_record)
          ≡ lifted listed plain master
              ((local_store listed plain).lexical_search q n ids category one_record))
    × ((records : List (Document ℕ))
        → (remote_store listed plain none).insert records (holding listed plain master one_record)
          ≡ lifted listed plain master ((local_store listed plain).insert records one_record))
    × ((prefix project_id : Text)
        → (remote_store listed plain none).delete_by_prefix prefix project_id
            (holding listed plain master one_record)
          ≡ lifted listed plain master
              ((local_store listed plain).delete_by_prefix prefix project_id one_record))
    × ((project_id : Text)
        → (remote_store listed plain none).clear_project project_id
            (holding listed plain master one_record)
          ≡ lifted listed plain master
              ((local_store listed plain).clear_project project_id one_record))
    × ((project_id : Text)
        → (remote_store listed plain none).get_status project_id
            (holding listed plain master one_record)
          ≡ lifted listed plain master
              ((local_store listed plain).get_status project_id one_record))
    × ((remote_store listed plain none).get_all_statuses (holding listed plain master one_record)
        ≡ lifted listed plain master ((local_store listed plain).get_all_statuses one_record))
    × ((project_id : Text)
        → (remote_store listed plain none).get_path_hash_mapping project_id
            (holding listed plain master one_record)
          ≡ lifted listed plain master
              ((local_store listed plain).get_path_hash_mapping project_id one_record))
    × ((remote_store listed plain none).get_all_records (holding listed plain master one_record)
        ≡ lifted listed plain master ((local_store listed plain).get_all_records one_record))
    × ((remote_store listed plain none).get_all_metadata (holding listed plain master one_record)
        ≡ lifted listed plain master ((local_store listed plain).get_all_metadata one_record))
    × ((path project_id : Text)
        → (remote_store listed plain none).get_by_path path project_id
            (holding listed plain master one_record)
          ≡ lifted listed plain master
              ((local_store listed plain).get_by_path path project_id one_record))
    × ((prefix project_id : Text)
        → (remote_store listed plain none).get_by_prefix prefix project_id
            (holding listed plain master one_record)
          ≡ lifted listed plain master
              ((local_store listed plain).get_by_prefix prefix project_id one_record))
    × ((remote_store listed plain none).count (holding listed plain master one_record)
        ≡ lifted listed plain master ((local_store listed plain).count one_record))
    × ((project_id text : Text)
        → (remote_store listed plain none).set_status project_id text
            (holding listed plain master one_record)
          ≡ (holding listed plain master one_record, none))
remote_store-agrees_example = remote_store-agrees listed plain master one_record
