-- ===== src/Cache/Typed.antt =====
-- internal/cache/lru.go: `EmbeddingCache` and `SearchResultCache`, which keep values of their own
-- types in an `LRUCache` under hashed keys. The hash, which takes the bytes that are written to it
-- one after the other, is a parameter; keys are of any type with decidable equality.
use mathlib.Core.List.{flatten}
use vector_mcp_go.Base.{ℕ, suc, ◌+◌, ◌<◌, ◌≡◌, ap, false, Option, none, some, List, ◌++◌, length}
use vector_mcp_go.Base.Int.{ℤ, pos, ◌+ℤ◌}
use vector_mcp_go.Base.Text.{Text}
use vector_mcp_go.Cache.{LruCache, new_lru_cache, get, set, clear, after, effective_ttl}
use vector_mcp_go.Cache.Laws.{IsValid}
use vector_mcp_go.Cache.Recency.{get-set}

-- `CachedResult`
pub record CachedResult (K R : Type 0) : Type 0 where
  pub query_hash : K
  pub results : R
  pub created_at : ℤ

-- What the two caches put behind `any`.
pub data Value (K V R : Type 0) : Type 0 where
  embedding : V → Value K V R
  cached : CachedResult K R → Value K V R

module _ {K : Type 0} (hash : Text → K) where
  -- `hashQuery`: the query and the projects are written one after the other.
  unfoldable pub hash_query : Text → List Text → K
  hash_query query project_ids = hash (query ++ flatten project_ids)

module _ {K V R : Type 0} (dec : Discrete K) (hash : Text → K) where
  -- `NewEmbeddingCache`: ten minutes, in nanoseconds.
  abbrev pub new_embedding_cache : ℤ → LruCache K (Value K V R)
  new_embedding_cache max_size = new_lru_cache max_size (pos 600000000000) false

  -- `NewSearchResultCache`
  abbrev pub new_search_result_cache : ℤ → ℤ → LruCache K (Value K V R)
  new_search_result_cache max_size default_ttl = new_lru_cache max_size default_ttl false

  abbrev pub as_embedding : Option (Value K V R) → Option V
  as_embedding none = none
  as_embedding (some (embedding e)) = some e
  as_embedding (some (cached r)) = none

  abbrev pub as_results : Option (Value K V R) → Option R
  as_results none = none
  as_results (some (embedding e)) = none
  as_results (some (cached r)) = some r.results

  -- `GetEmbedding`
  unfoldable pub get_embedding :
      ℤ → Text → LruCache K (Value K V R) → LruCache K (Value K V R) × Option V
  get_embedding now text c =
      ((get dec now (hash text) c).0, as_embedding (get dec now (hash text) c).1)

  -- `SetEmbedding`
  unfoldable pub set_embedding :
      ℕ → ℤ → Text → V → LruCache K (Value K V R) → Option (LruCache K (Value K V R))
  set_embedding fuel now text e c = set dec fuel now (hash text) (embedding e) (pos 0) c

  -- `SearchResultCache.Get`
  unfoldable pub get_results :
      ℤ → Text → List Text → LruCache K (Value K V R) → LruCache K (Value K V R) × Option R
  get_results now query project_ids c =
      let key = hash_query hash query project_ids in
      ((get dec now key c).0, as_results (get dec now key c).1)

  -- `SearchResultCache.Set`
  unfoldable pub set_results :
      ℕ → ℤ → Text → List Text → R → LruCache K (Value K V R) → Option (LruCache K (Value K V R))
  set_results fuel now query project_ids results c =
      let key = hash_query hash query project_ids in
      set dec fuel now key
        (cached (record { query_hash = key; results = results; created_at = now })) (pos 0) c

  -- `InvalidateByProject` clears the whole cache, whichever project it is called for.
  unfoldable pub invalidate_by_project : Text → LruCache K (Value K V R) → LruCache K (Value K V R)
  invalidate_by_project project_id c = clear dec c

  -- Storing an embedding in a valid cache of a positive size ends, given more rounds of fuel than
  -- one for each entry and one more, and the embedding is read back until the default time to live
  -- is over.
  pub get_embedding-set_embedding :
      (fuel n : ℕ) (now now' : ℤ) (text : Text) (e : V) (c : LruCache K (Value K V R))
      → IsValid dec (suc n) c
      → length c.evict_list + 1 < fuel
      → after now' (now +ℤ effective_ttl (pos 0) c) ≡ false
      → (d : LruCache K (Value K V R)) × (set_embedding fuel now text e c ≡ some d)
        × ((get_embedding now' text d).1 ≡ some e)
  unfolding set_embedding get_embedding
  get_embedding-set_embedding fuel n now now' text e c val enough live =
      let (d, runs, read) =
        get-set dec fuel n now now' (pos 0) (hash text) (embedding e) c val enough live in
      (d, runs, ap as_embedding read)

  -- Results that are stored in a valid cache of a positive size, with fuel for its entries, are
  -- read back, until the default time to live is over, by every query whose text, followed by its
  -- projects, is the same text: where the query ends and the projects begin makes no difference to
  -- the key.
  pub get_results-set_results :
      (fuel n : ℕ) (now now' : ℤ) (query other : Text) (ids others : List Text) (r : R)
      (c : LruCache K (Value K V R))
      → IsValid dec (suc n) c
      → length c.evict_list + 1 < fuel
      → after now' (now +ℤ effective_ttl (pos 0) c) ≡ false
      → query ++ flatten ids ≡ other ++ flatten others
      → (d : LruCache K (Value K V R)) × (set_results fuel now query ids r c ≡ some d)
        × ((get_results now' other others d).1 ≡ some r)
  unfolding set_results get_results hash_query
  get_results-set_results fuel n now now' query other ids others r c val enough live same =
      let key = hash (query ++ flatten ids) in
      let value : Value K V R =
        cached (record { query_hash = key; results = r; created_at = now }) in
      let (d, runs, read) = get-set dec fuel n now now' (pos 0) key value c val enough live in
      (d, runs, rw (← same) (ap as_results read))
