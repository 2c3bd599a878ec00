-- ===== src/Daemon/Agreement.antt =====
-- internal/daemon/daemon.go and internal/db/store.go: a client of the master and a client of the
-- store see the same.
use vector_mcp_go.Base.{
  ◌≡◌, refl, ap, Option, none, some, List, [], ◌==◌, ◌++◌, Bool-cases, inl, inr,
}
use vector_mcp_go.Base.Int.{ℤ, pos, negsuc}
use vector_mcp_go.Base.Text.{Text, codes}
use vector_mcp_go.Daemon.{
  Wire, Service, described, not_initialized, success, unless_error, with_store, with_writing,
  search, search_hybrid, search_lexical, count_records, insert_records, delete_prefix, clear,
  status, all_statuses, path_hash_mapping, all_records, all_metadata, by_path, by_prefix,
}
use vector_mcp_go.Daemon.Remote.{
  StoreApi, answer, error_of, call, ask, tell, ask_count, remote_set_status, remote_store,
}
use vector_mcp_go.Store.Hybrid.{hybrid_search}
use vector_mcp_go.Store.Readers.{
  get_path_hash_mapping, get_all_statuses, get_by_path, get_by_prefix, get_all_records,
  get_all_metadata, map_reply,
}
use vector_mcp_go.Store.Search.{search_with_score, search_vectors, lexical_search}
use vector_mcp_go.Store.{
  Document, Reply, failed, ok, Collection, Store, Found, insert, delete_by_prefix, clear_project,
  get_status, set_status,
}

module _ (col : Collection) (wire : Wire col) where
  open col use {floats, Vector, Err}
  open wire use {describe, describe_search, ranking}

  -- A read of the store, with its error as a text.
  abbrev reads :
      {A : Type 0} → A → (Store col → Reply Text A) → Store col → Store col × (A × Option Text)
  reads zero read s = (s, answer zero (read s))

  abbrev writes : (Store col → Store col × Option Err) → Store col → Store col × Option Text
  writes write s = ((write s).0, error_of (success col wire (write s).1))

  -- The methods of `Store` itself.
  abbrev pub local_store : StoreApi col (Store col)
  local_store = record {
    search = λ e n ids category.
        reads [] (λ s. described describe (search_vectors col e n ids category s));
    search_with_score = λ e n ids category.
        reads ([], []) (λ s. described describe (search_with_score col e n ids category s));
    hybrid_search = λ query e n ids category.
        reads []
          (λ s. described describe_search (hybrid_search col ranking query e n ids category s));
    lexical_search = λ query n ids category.
        reads [] (λ s. described describe (lexical_search col query n ids category s));
    insert = λ records. writes (insert col records);
    delete_by_prefix = λ prefix project_id. writes (delete_by_prefix col prefix project_id);
    clear_project = λ project_id. writes (clear_project col project_id);
    get_status = λ project_id. reads [] (λ s. unless_error col wire (get_status col project_id s));
    get_all_statuses = reads [] (λ s. described describe (get_all_statuses col s));
    get_path_hash_mapping =
        λ project_id. reads [] (λ s. described describe (get_path_hash_mapping col project_id s));
    get_all_records = reads [] (λ s. described describe (get_all_records col s));
    get_all_metadata = reads [] (λ s. described describe (get_all_metadata col s));
    get_by_path =
        λ path project_id. reads [] (λ s. described describe (get_by_path col path project_id s));
    get_by_prefix = λ prefix project_id.
        reads [] (λ s. described describe (get_by_prefix col prefix project_id s));
    count = λ s. (s, col.count s.collection);
    set_status = λ project_id status. writes (set_status col project_id status);
  }

  -- The master's service with this store.
  abbrev pub holding : Service col → Store col → Service col
  holding svc s = record svc { store = some s }

  -- What a method of the store returns, on the master that holds the store.
  abbrev pub lifted : {A : Type 0} → Service col → Store col × A → Service col × A
  lifted svc (s, a) = (holding svc s, a)

  abbrev remote : StoreApi col (Service col)
  unfolding remote_store
  remote = remote_store col wire none

  same_reply :
      {A : Type 0} (r : Reply Text A)
      → (elim r as (λ _. Reply Text A) [ failed e ↦ failed e | ok a ↦ ok a ]) ≡ r
  same_reply (failed e) = refl
  same_reply (ok a) = refl

  ask-reads :
      {A : Type 0} (read : Store col → Reply Text A) (zero : A) (svc : Service col) (s : Store col)
      → ask col wire none (with_store col wire read) (λ r. r) zero (holding svc s)
        ≡ lifted svc (s, answer zero (read s))
  unfolding ask call with_store
  ask-reads read zero svc s = ap (λ r. (holding svc s, answer zero r)) (same_reply (read s))

  first_reply :
      (r : Reply Err (List (Found col) × List floats.F))
      → (elim (described describe r) as (λ _. Reply Text (List (Found col))) [
        | failed e ↦ failed e
        | ok a ↦ ok a.0
      ])
        ≡ described describe (map_reply col (λ found. found.0) r)
  first_reply (failed e) = refl
  first_reply (ok a) = refl

  search-reply :
      (e : Vector) (n : ℤ) (ids : List Text) (category : Text) (s : Store col)
      → (elim (described describe (search_with_score col e n ids category s))
          as (λ _. Reply Text (List (Found col))) [ failed e ↦ failed e | ok a ↦ ok a.0 ])
        ≡ described describe (search_vectors col e n ids category s)
  unfolding search_with_score search_vectors
  search-reply e (negsuc n) ids category s = refl
  search-reply e (pos n) ids category s = elim (Bool-cases (n == 0)) [
    | inl z ↦ rw z refl
    | inr z ↦ rw z (first_reply _)
  ]

  -- A client that reaches a master that holds a store sees what a client of the store itself sees,
  -- by every method but `SetStatus`: the same records, scores, texts, counts and errors, and the
  -- master holds the store that the method leaves. `RemoteStore.Search` asks the master for the
  -- search with scores, and still returns what `Store.Search` returns. `RemoteStore.SetStatus` reports
  -- success and leaves the master's store as it was.
  pub remote_store-agrees :
      (svc : Service col) (s : Store col)
      → ((e : Vector) (n : ℤ) (ids : List Text) (category : Text)
          → (remote_store col wire none).search e n ids category (holding svc s)
            ≡ lifted svc (local_store.search e n ids category s))
        × ((e : Vector) (n : ℤ) (ids : List Text) (category : Text)
            → (remote_store col wire none).search_with_score e n ids category (holding svc s)
              ≡ lifted svc (local_store.search_with_score e n ids category s))
        × ((q : Text) (e : Vector) (n : ℤ) (ids : List Text) (category : Text)
            → (remote_store col wire none).hybrid_search q e n ids category (holding svc s)
              ≡ lifted svc (local_store.hybrid_search q e n ids category s))
        × ((q : Text) (n : ℤ) (ids : List Text) (category : Text)
            → (remote_store col wire none).lexical_search q n ids category (holding svc s)
              ≡ lifted svc (local_store.lexical_search q n ids category s))
        × ((records : List (Document Vector))
            → (remote_store col wire none).insert records (holding svc s)
              ≡ lifted svc (local_store.insert records s))
        × ((prefix project_id : Text)
            → (remote_store col wire none).delete_by_prefix prefix project_id (holding svc s)
              ≡ lifted svc (local_store.delete_by_prefix prefix project_id s))
        × ((project_id : Text)
            → (remote_store col wire none).clear_project project_id (holding svc s)
              ≡ lifted svc (local_store.clear_project project_id s))
        × ((project_id : Text)
            → (remote_store col wire none).get_status project_id (holding svc s)
              ≡ lifted svc (local_store.get_status project_id s))
        × ((remote_store col wire none).get_all_statuses (holding svc s)
            ≡ lifted svc (local_store.get_all_statuses s))
        × ((project_id : Text)
            → (remote_store col wire none).get_path_hash_mapping project_id (holding svc s)
              ≡ lifted svc (local_store.get_path_hash_mapping project_id s))
        × ((remote_store col wire none).get_all_records (holding svc s)
            ≡ lifted svc (local_store.get_all_records s))
        × ((remote_store col wire none).get_all_metadata (holding svc s)
            ≡ lifted svc (local_store.get_all_metadata s))
        × ((path project_id : Text)
            → (remote_store col wire none).get_by_path path project_id (holding svc s)
              ≡ lifted svc (local_store.get_by_path path project_id s))
        × ((prefix project_id : Text)
            → (remote_store col wire none).get_by_prefix prefix project_id (holding svc s)
              ≡ lifted svc (local_store.get_by_prefix prefix project_id s))
        × ((remote_store col wire none).count (holding svc s) ≡ lifted svc (local_store.count s))
        × ((project_id text : Text)
            → (remote_store col wire none).set_status project_id text (holding svc s)
              ≡ (holding svc s, none))
  unfolding remote_store ask tell ask_count call search search_hybrid search_lexical count_records
      insert_records delete_prefix clear status all_statuses path_hash_mapping all_records
      all_metadata by_path by_prefix with_store with_writing remote_set_status
  remote_store-agrees svc s = (
    λ e n ids category. ap (λ r. (holding svc s, answer [] r)) (search-reply e n ids category s),
    λ e n ids category.
        ask-reads (λ x. described describe (search_with_score col e n ids category x)) ([], []) svc
          s,
    λ q e n ids category.
        ask-reads (λ x. described describe_search (hybrid_search col ranking q e n ids category x))
          [] svc s,
    λ q n ids category.
        ask-reads (λ x. described describe (lexical_search col q n ids category x)) [] svc s,
    λ records. refl,
    λ prefix project_id. refl,
    λ project_id. refl,
    λ project_id. ask-reads (λ x. unless_error col wire (get_status col project_id x)) [] svc s,
    ask-reads (λ x. described describe (get_all_statuses col x)) [] svc s,
    λ project_id.
        ask-reads (λ x. described describe (get_path_hash_mapping col project_id x)) [] svc s,
    ask-reads (λ x. described describe (get_all_records col x)) [] svc s,
    ask-reads (λ x. described describe (get_all_metadata col x)) [] svc s,
    λ path project_id.
        ask-reads (λ x. described describe (get_by_path col path project_id x)) [] svc s,
    λ prefix project_id.
        ask-reads (λ x. described describe (get_by_prefix col prefix project_id x)) [] svc s,
    refl,
    λ project_id text. refl,
  )

  -- A master that cannot be reached, or one that has no store yet.
  abbrev pub unavailable : Option Text → Service col → Service col
  unavailable none svc = record svc { store = none }
  unavailable (some err) svc = svc

  -- The error that each method then returns.
  abbrev pub reason : Option Text → Text
  reason none = not_initialized col wire
  reason (some err) = codes "failed to connect to master daemon: " ++ err
