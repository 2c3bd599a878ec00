-- ===== src/Cache.antt =====
-- internal/cache/lru.go: `LRUCache`, and the wrapper `StatsCache`.
--
-- A list element is named by the key of its entry, so `items` maps a key to the key that names its
-- element. Times and durations are nanoseconds; the clock's reading is an argument. The mutex makes
-- each operation one step. `evicted` records the calls of `onEvict`, in order.
pub mod Sync
pub mod Laws
pub mod Recency
pub mod Stats
pub mod Typed
mod Tests
use vector_mcp_go.Base.{
  ℕ, zero, suc, ◌+◌, Bool, true, false, Option, none, some, List, [], ◌∷◌, ◌++◌, ◌&&◌, length,
  if◌then◌else◌, does,
}
use vector_mcp_go.Base.Int.{ℤ, pos, negsuc, ltb_ℤ, ◌+ℤ◌}
use vector_mcp_go.Base.Maps.{find, has, del, put}

pub record LruCache {ℓ} (K V : Type ℓ) : Type ℓ where
  pub max_size : ℤ
  pub items : List (K × K)
  pub evict_list : List (K × V)
  pub ttls : List (K × ℤ)
  pub default_ttl : ℤ
  pub on_evict : Bool
  pub evicted : List (K × V)

-- `NewLRUCache`, with its options applied.
unfoldable pub new_lru_cache {ℓ} : {K V : Type ℓ} → ℤ → ℤ → Bool → LruCache K V
new_lru_cache max_size default_ttl on_evict = record {
  max_size = max_size;
  items = [];
  evict_list = [];
  ttls = [];
  default_ttl = default_ttl;
  on_evict = on_evict;
  evicted = [];
}

-- `evictList.Back()`
unfoldable pub back {ℓ κ} : {K : Type ℓ} {V : Type κ} → List (K × V) → Option (K × V)
back [] = none
back (e ∷ []) = some e
back (e ∷ f ∷ l) = back (f ∷ l)

-- `now.After(exp)`
unfoldable pub after : ℤ → ℤ → Bool
after now exp = ltb_ℤ exp now

-- A zero `ttl` stands for the default.
abbrev pub effective_ttl {ℓ} : {K V : Type ℓ} → ℤ → LruCache K V → ℤ
effective_ttl (pos zero) c = c.default_ttl
effective_ttl (pos (suc n)) c = pos (suc n)
effective_ttl (negsuc n) c = negsuc n

module _ {ℓ} {K V : Type ℓ} (dec : Discrete K) where
  -- `MoveToFront(elem)`, which leaves the list alone if the element is not in it.
  unfoldable pub move_to_front : K → List (K × V) → List (K × V)
  move_to_front elem l = elim (find dec elem l) [ none ↦ l | some v ↦ (elem, v) ∷ del dec elem l ]

  notify : LruCache K V → K → Option V → List (K × V)
  notify c key none = c.evicted
  notify c key (some v) = if c.on_evict then c.evicted ++ (key, v) ∷ [] else c.evicted

  -- `removeElement` and `removeElementLocked`, whose bodies are the same.
  unfoldable pub remove_element : K → LruCache K V → LruCache K V
  unfolding notify
  remove_element key c = elim (find dec key c.items) [
    | none ↦ c
    | some elem ↦ record c {
      evict_list = del dec elem c.evict_list;
      items = del dec key c.items;
      ttls = del dec key c.ttls;
      evicted = notify c key (find dec elem c.evict_list);
    }
  ]

  unfoldable pub is_expired : ℤ → K → LruCache K V → Bool
  is_expired now key c = elim (find dec key c.ttls) [ none ↦ false | some exp ↦ after now exp ]

  -- `Get`
  unfoldable pub get : ℤ → K → LruCache K V → LruCache K V × Option V
  get now key c =
      if is_expired now key c then (remove_element key c, none) else elim (find dec key c.items) [
        | none ↦ (c, none)
        | some elem ↦
            (record c { evict_list = move_to_front elem c.evict_list }, find dec elem c.evict_list)
      ]

  unfoldable pub evict_oldest : LruCache K V → LruCache K V
  evict_oldest c = elim (back c.evict_list) [ none ↦ c | some e ↦ remove_element e.0 c ]

  -- `for len(c.items) > c.maxSize { c.evictOldest() }`; `none` means that the fuel ran out.
  unfoldable pub evict_loop : ℕ → LruCache K V → Option (LruCache K V)
  evict_loop zero c = none
  evict_loop (suc fuel) c =
      let rest = evict_loop fuel (evict_oldest c) in
      if ltb_ℤ c.max_size (pos (length c.items)) then rest else some c

  unfoldable pub overwrite : ℤ → K → K → V → ℤ → LruCache K V → LruCache K V
  overwrite now key elem value ttl c = record c {
    evict_list = (elem, value) ∷ del dec elem c.evict_list;
    ttls = put dec key (now +ℤ ttl) c.ttls;
  }

  unfoldable pub push_front : ℤ → K → V → ℤ → LruCache K V → LruCache K V
  push_front now key value ttl c = record c {
    evict_list = (key, value) ∷ c.evict_list;
    items = put dec key key c.items;
    ttls = put dec key (now +ℤ ttl) c.ttls;
  }

  -- `Set`, with fuel for its loop.
  unfoldable pub set : ℕ → ℤ → K → V → ℤ → LruCache K V → Option (LruCache K V)
  set fuel now key value ttl c =
      let t = effective_ttl ttl c in
      elim (find dec key c.items) [
        | some elem ↦ some (overwrite now key elem value t c)
        | none ↦ evict_loop fuel (push_front now key value t c)
      ]

  -- `Delete`
  unfoldable pub delete : K → LruCache K V → LruCache K V
  unfolding remove_element
  delete key c = remove_element key c

  unfoldable pub remove_all : List (K × K) → LruCache K V → LruCache K V
  remove_all [] c = c
  remove_all ((key, _) ∷ rest) c = remove_all rest (remove_element key c)

  -- `Clear`
  unfoldable pub clear : LruCache K V → LruCache K V
  unfolding remove_all
  clear c = remove_all c.items c

  unfoldable pub sweep : ℤ → List (K × ℤ) → LruCache K V → LruCache K V
  sweep now [] c = c
  sweep now ((key, exp) ∷ rest) c =
      sweep now rest (if after now exp then remove_element key c else c)

  -- One tick of `cleanupExpired`.
  unfoldable pub cleanup_expired : ℤ → LruCache K V → LruCache K V
  unfolding sweep
  cleanup_expired now c = sweep now c.ttls c

-- `Size`
abbrev pub size {ℓ} : {K V : Type ℓ} → LruCache K V → ℕ
size c = length c.items

-- What a test has to see through.
unfoldable pub set_code : Unit {0}
unfolding set evict_loop push_front evict_oldest back remove_element
set_code = tt
