-- ===== src/Cache/Tests.antt =====
-- Runs of internal/cache/lru.go on small caches, and its theorems at them.
use vector_mcp_go.Base.{ℕ, ◌≡◌, refl, false, none, some, [], ◌∷◌, length, arith, ℕ_discrete}
use vector_mcp_go.Base.Int.{pos, negsuc, ◌+ℤ◌}
use vector_mcp_go.Cache.{LruCache, set_code, get, set, after}
use vector_mcp_go.Base.Text.{Text, codes}
use mathlib.Core.List.{flatten}
use vector_mcp_go.Cache.Typed.{Value, set_results, get_results, get_results-set_results}
use vector_mcp_go.Cache.Sync.{InSync}
use vector_mcp_go.Cache.Laws.{IsValid, SetPost, set-SetPost, set-negative}
use vector_mcp_go.Cache.Recency.{get_lem, get-set}
use vector_mcp_go.Cache.Stats.{CacheOps, StatsCache}

-- Key 2 is the least recently used, and has expired from time 5 on.
abbrev two_items : LruCache ℕ ℕ
two_items = record {
  max_size = pos 2;
  items = (1, 1) ∷ (2, 2) ∷ [];
  evict_list = (1, 10) ∷ (2, 20) ∷ [];
  ttls = (1, pos 100) ∷ (2, pos 5) ∷ [];
  default_ttl = pos 60;
  on_evict = false;
  evicted = [];
}

two_items-InSync : InSync ℕ_discrete two_items
unfolding ℕ_discrete
two_items-InSync = record {
  distinct_items = (refl, (refl, tt));
  distinct_list = (refl, (refl, tt));
  distinct_ttls = (refl, (refl, tt));
  named = (refl, (refl, tt));
  same_list = λ q. refl;
  same_ttls = λ q. refl;
  same_length = refl;
}

two_items-IsValid : IsValid ℕ_discrete 2 two_items
unfolding ℕ_discrete
two_items-IsValid = record { sync = two_items-InSync; max_size = refl; bounded = omega arith }

-- A third key takes the place of the least recently used one.
set_third :
    (elim (set ℕ_discrete 9 (pos 3) 7 70 (pos 0) two_items) [ none ↦ [] | some d ↦ d.evict_list ])
    ≡ (7, 70) ∷ (1, 10) ∷ []
unfolding set set_code ℕ_discrete
set_third = refl

set-SetPost_example :
    (d : LruCache ℕ ℕ) × (set ℕ_discrete 9 (pos 3) 7 70 (pos 0) two_items ≡ some d)
    × SetPost ℕ_discrete 2 (pos 3) 7 70 (pos 0) two_items d
set-SetPost_example =
    set-SetPost ℕ_discrete 9 2 (pos 3) (pos 0) 7 70 two_items two_items-IsValid (omega arith)

abbrev unbounded : LruCache ℕ ℕ
unbounded = record two_items { max_size = negsuc 0 }

set-negative_example : set ℕ_discrete 50 (pos 3) 7 70 (pos 0) unbounded ≡ none
unfolding ℕ_discrete
set-negative_example = set-negative ℕ_discrete 50 0 (pos 3) (pos 0) 7 70 unbounded refl refl

get_lem_example :
    ((get ℕ_discrete (pos 9) 2 two_items).1 ≡ none)
    × ((get ℕ_discrete (pos 9) 2 two_items).0.evict_list ≡ (1, 10) ∷ [])
unfolding ℕ_discrete
get_lem_example = get_lem ℕ_discrete 2 (pos 9) 2 two_items two_items-IsValid

get-set_example :
    (d : LruCache ℕ ℕ) × (set ℕ_discrete 9 (pos 3) 7 70 (pos 0) two_items ≡ some d)
    × ((get ℕ_discrete (pos 62) 7 d).1 ≡ some 70)
unfolding ℕ_discrete ◌+ℤ◌
get-set_example =
    get-set ℕ_discrete 9 1 (pos 3) (pos 62) (pos 0) 7 70 two_items two_items-IsValid (omega arith)
      (unfold after in refl)

abbrev two_item_ops : CacheOps (LruCache ℕ ℕ) ℕ ℕ
two_item_ops = record { get = λ k c. get ℕ_discrete (pos 9) k c; size = λ c. length c.evict_list }

abbrev counted : StatsCache (LruCache ℕ ℕ)
counted = record { cache = two_items; hits = 4; misses = 2 }

-- A cache of two, with nothing in it; the hash of a text is its length.
abbrev no_values : LruCache ℕ (Value ℕ Text ℕ)
no_values = record {
  max_size = pos 2;
  items = [];
  evict_list = [];
  ttls = [];
  default_ttl = pos 60;
  on_evict = false;
  evicted = [];
}

no_values-IsValid : IsValid ℕ_discrete 2 no_values
no_values-IsValid = record {
  sync = record {
    distinct_items = tt;
    distinct_list = tt;
    distinct_ttls = tt;
    named = tt;
    same_list = λ q. refl;
    same_ttls = λ q. refl;
    same_length = refl;
  };
  max_size = refl;
  bounded = omega arith;
}

-- The results for "a" in the project "bc" are served for "ab" in the project "c".
get_results-set_results_example :
    (d : LruCache ℕ (Value ℕ Text ℕ)) × (set_results ℕ_discrete
        (λ t. length t)
        2
        (pos 3)
        (codes "a")
        (codes "bc" ∷ [])
        9
        no_values
      ≡ some d)
    × ((get_results ℕ_discrete (λ t. length t) (pos 62) (codes "ab") (codes "c" ∷ []) d).1 ≡ some 9)
unfolding ◌+ℤ◌
get_results-set_results_example =
    get_results-set_results ℕ_discrete (λ t. length t) 2 1 (pos 3) (pos 62) (codes "a") (codes "ab")
      (codes "bc" ∷ []) (codes "c" ∷ []) 9 no_values no_values-IsValid (omega arith)
      (unfold after in refl) (unfold flatten in refl)
