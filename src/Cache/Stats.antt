-- ===== src/Cache/Stats.antt =====
-- internal/cache/lru.go: `StatsCache`, a wrapper that counts the hits and misses of any `Cache`.
use vector_mcp_go.Base.{ℕ, ◌+◌, ◌%◌, ◌^◌, ◌≡◌, Option, none, some, List, [], ◌∷◌, length, arith}

-- The interface `Cache` of the wrapped cache, whose `Get` may change its state.
pub record CacheOps (S K V : Type 0) : Type 0 where
  pub get : K → S → S × Option V
  pub size : S → ℕ

-- A counter is the bit pattern of an `int64`.
pub record StatsCache (S : Type 0) : Type 0 where
  pub cache : S
  pub hits : ℕ
  pub misses : ℕ

module _ {S K V : Type 0} (ops : CacheOps S K V) where
  count : S → Option V → StatsCache S → StatsCache S
  count s none c = record c { cache = s; misses = (c.misses + 1) % 2 ^ 64 }
  count s (some v) c = record c { cache = s; hits = (c.hits + 1) % 2 ^ 64 }

  -- `StatsCache.Get`
  unfoldable pub stats_get : K → StatsCache S → StatsCache S × Option V
  unfolding count
  stats_get key c = let (s, val) = ops.get key c.cache in (count s val c, val)

  unfoldable pub get_all : List K → StatsCache S → StatsCache S
  get_all [] c = c
  get_all (key ∷ keys) c = get_all keys (stats_get key c).0

  -- Every read is counted once, as a hit or as a miss: the two counters together advance by the
  -- number of reads, modulo the 64 bits that they wrap at.
  pub get_all-total :
      (keys : List K) (c : StatsCache S)
      → ((get_all keys c).hits + (get_all keys c).misses) % 2 ^ 64
        ≡ (c.hits + c.misses + length keys) % 2 ^ 64
  unfolding get_all stats_get
  get_all-total [] c = omega arith
  get_all-total (key ∷ keys) c = ground (arith, get_all-total keys (stats_get key c).0)
