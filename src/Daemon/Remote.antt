-- ===== src/Daemon/Remote.antt =====
-- internal/daemon/daemon.go: `RemoteStore`, `RemoteEmbedder` and `Client`.
use vector_mcp_go.Base.{ℕ, Option, none, some, List, [], ◌++◌}
use vector_mcp_go.Base.Int.{ℤ}
use vector_mcp_go.Base.Text.{Text, codes}
use vector_mcp_go.Daemon.{
  Wire, Service, Handler, embed, embed_batch, rerank_batch, index_project, search, search_hybrid,
  search_lexical, count_records, insert_records, delete_prefix, clear, status, all_statuses,
  path_hash_mapping, all_records, all_metadata, by_path, by_prefix, progress,
}
use vector_mcp_go.Store.{Metadata, Document, Reply, failed, ok, Collection, Found}

-- What ends the wait of a `select`: the answer, the context's error, or the timeout.
pub data Waited : Type 0 where
  answered : Waited
  cancelled : Text → Waited
  timed_out : Waited

-- The response, zero where there is an error, beside the error.
abbrev pub answer : {A : Type 0} → A → Reply Text A → A × Option Text
answer zero (failed e) = (zero, some e)
answer zero (ok a) = (a, none)

-- A response of which only the error is returned.
abbrev pub error_of : {A : Type 0} → Reply Text A → Option Text
error_of (failed e) = some e
error_of (ok a) = none

module _ (col : Collection) (wire : Wire col) where
  open col use {floats, Vector}
  open floats use {F}

  -- `rpc.Dial` and the call, the connection's error as it is.
  unfoldable pub dial_and_call :
      {A : Type 0} → Option Text → Handler col wire A → Handler col wire A
  dial_and_call (some e) method svc = (svc, failed e)
  dial_and_call none method svc = method svc

  -- `RemoteStore.call`: the connection's error with a prefix.
  unfoldable pub call : {A : Type 0} → Option Text → Handler col wire A → Handler col wire A
  call (some e) method svc = (svc, failed (codes "failed to connect to master daemon: " ++ e))
  call none method svc = method svc

  unfoldable pub wait :
      {A : Type 0} → Text → Waited → Service col × Reply Text A → Service col × Reply Text A
  wait timeout answered (svc, reply) = (svc, reply)
  wait timeout (cancelled e) (svc, reply) = (svc, failed e)
  wait timeout timed_out (svc, reply) = (svc, failed timeout)

  -- The error of `rpc.Dial`, where there is one.
  module _ (dialled : Option Text) where
    unfoldable pub trigger_index : Text → Service col → Service col × Option Text
    unfolding dial_and_call
    trigger_index path svc =
        let (after, reply) = dial_and_call dialled (index_project col wire path) svc in
        (after, error_of reply)

    unfoldable pub get_progress : Service col → Service col × (Metadata × Option Text)
    unfolding dial_and_call
    get_progress svc =
        let (after, reply) = dial_and_call dialled (progress col wire) svc in
        (after, answer [] reply)

    unfoldable pub remote_embed : Waited → Text → Handler col wire Vector
    unfolding call wait
    remote_embed waited text =
        call dialled (λ s. wait (codes "embedding RPC timeout") waited (embed col wire text s))

    unfoldable pub remote_embed_batch : Waited → List Text → Handler col wire (List Vector)
    unfolding call wait
    remote_embed_batch waited texts =
        call dialled
          (λ s. wait (codes "embedding batch RPC timeout") waited (embed_batch col wire texts s))

    unfoldable pub remote_rerank_batch : Waited → Text → List Text → Handler col wire (List F)
    unfolding call wait
    remote_rerank_batch waited query texts =
        call dialled (λ s.
          wait (codes "rerank batch RPC timeout") waited (rerank_batch col wire query texts s))

-- The store as the tools use it, over a state of type `S`: the methods of `RemoteStore`, which are
-- those of `Store`.
pub record StoreApi (col : Collection) (S : Type 0) : Type 0 where
  pub search : col.Vector → ℤ → List Text → Text → S → S × (List (Found col) × Option Text)
  pub search_with_score :
      col.Vector
      → ℤ
      → List Text
      → Text
      → S
      → S × ((List (Found col) × List col.floats.F) × Option Text)
  pub hybrid_search :
      Text → col.Vector → ℤ → List Text → Text → S → S × (List (Found col) × Option Text)
  pub lexical_search : Text → ℤ → List Text → Text → S → S × (List (Found col) × Option Text)
  pub insert : List (Document col.Vector) → S → S × Option Text
  pub delete_by_prefix : Text → Text → S → S × Option Text
  pub clear_project : Text → S → S × Option Text
  pub get_status : Text → S → S × (Text × Option Text)
  pub get_all_statuses : S → S × (Metadata × Option Text)
  pub get_path_hash_mapping : Text → S → S × (Metadata × Option Text)
  pub get_all_records : S → S × (List (Document col.Vector) × Option Text)
  pub get_all_metadata : S → S × (List (Text × Metadata) × Option Text)
  pub get_by_path : Text → Text → S → S × (List (Document col.Vector) × Option Text)
  pub get_by_prefix : Text → Text → S → S × (List (Document col.Vector) × Option Text)
  pub count : S → S × ℕ
  pub set_status : Text → Text → S → S × Option Text

module _ (col : Collection) (wire : Wire col) (dialled : Option Text) where
  -- `err := rs.call(…, &resp); return resp.…, err`
  unfoldable pub ask :
      {A B : Type 0}
      → Handler col wire A
      → (A → B)
      → B
      → Service col
      → Service col × (B × Option Text)
  unfolding call
  ask method response zero svc =
      let (after, reply) = call col wire dialled method svc in
      (after, answer zero (elim reply [ failed e ↦ failed e | ok a ↦ ok (response a) ]))

  -- `return rs.call(…, &resp)`
  unfoldable pub tell : {A : Type 0} → Handler col wire A → Service col → Service col × Option Text
  unfolding call
  tell method svc = let (after, reply) = call col wire dialled method svc in (after, error_of reply)

  -- `RemoteStore.Count`: 0 where there is an error.
  unfoldable pub ask_count : Service col → Service col × ℕ
  unfolding call
  ask_count svc =
      let (after, reply) = call col wire dialled (count_records col wire) svc in
      (after, elim reply [ failed _ ↦ 0 | ok n ↦ n ])

  -- `RemoteStore.SetStatus`, which does nothing.
  unfoldable pub remote_set_status : Text → Text → Service col → Service col × Option Text
  remote_set_status project_id status svc = (svc, none)

  -- `RemoteStore`
  unfoldable pub remote_store : StoreApi col (Service col)
  unfolding ask tell ask_count remote_set_status
  remote_store = record {
    search = λ e n ids category. ask (search col wire e n ids category) (λ r. r.0) [];
    search_with_score =
        λ e n ids category. ask (search col wire e n ids category) (λ r. r) ([], []);
    hybrid_search =
        λ query e n ids category. ask (search_hybrid col wire query e n ids category) (λ r. r) [];
    lexical_search =
        λ query n ids category. ask (search_lexical col wire query n ids category) (λ r. r) [];
    insert = λ records. tell (insert_records col wire records);
    delete_by_prefix = λ prefix project_id. tell (delete_prefix col wire prefix project_id);
    clear_project = λ project_id. tell (clear col wire project_id);
    get_status = λ project_id. ask (status col wire project_id) (λ r. r) [];
    get_all_statuses = ask (all_statuses col wire) (λ r. r) [];
    get_path_hash_mapping = λ project_id. ask (path_hash_mapping col wire project_id) (λ r. r) [];
    get_all_records = ask (all_records col wire) (λ r. r) [];
    get_all_metadata = ask (all_metadata col wire) (λ r. r) [];
    get_by_path = λ path project_id. ask (by_path col wire path project_id) (λ r. r) [];
    get_by_prefix = λ prefix project_id. ask (by_prefix col wire prefix project_id) (λ r. r) [];
    count = ask_count;
    set_status = remote_set_status;
  }
