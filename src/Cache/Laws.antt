-- ===== src/Cache/Laws.antt =====
-- The eviction loop of `Set`, and what each operation of `LRUCache` does to the cache.
use vector_mcp_go.Base.{
  ℕ, zero, suc, ◌+◌, ◌-◌, ◌≤◌, ◌<◌, ◌≡◌, refl, sym, inl, inr, true, false, none, some, List, [],
  ◌∷◌, arith, length, take, if◌then◌else◌, Option-cases, Bool-cases, ltb, ap, ◌∙◌,
  take_of_length-le, length-take,
}
use vector_mcp_go.Base.Int.{ℤ, pos, negsuc, ◌+ℤ◌}
use vector_mcp_go.Base.Maps.{
  find, has, del, has-del, del-absent, length-del, Distinct-put, find-none, All-del,
}
use vector_mcp_go.Cache.{
  LruCache, back, evict_oldest, evict_loop, effective_ttl, overwrite, push_front, set,
}
use vector_mcp_go.Cache.Sync.{
  InSync, Evicts, items-cases, remove_element-settings, evict_oldest-Evicts, take-take,
}

module _ {ℓ} {K V : Type ℓ} (dec : Discrete K) where
  Evicts-refl :
      (n : ℕ) (c : LruCache K V) → InSync dec c → length c.evict_list ≤ n → Evicts dec n c c
  Evicts-refl n c s h = record {
    sync = s;
    max_size = refl;
    default_ttl = refl;
    list = sym (take_of_length-le n c.evict_list h);
    ttls = λ q _. refl;
  }

  Evicts-trans :
      (n m : ℕ) (c d e : LruCache K V)
      → n ≤ m
      → Evicts dec m c d
      → Evicts dec n d e
      → ((q : K) → has dec q e.items ≡ true → has dec q d.items ≡ true)
      → Evicts dec n c e
  Evicts-trans n m c d e h p r sub = record {
    sync = r.sync;
    max_size = r.max_size ∙ p.max_size;
    default_ttl = r.default_ttl ∙ p.default_ttl;
    list = r.list ∙ ap (take n) p.list ∙ take-take dec n m c.evict_list h;
    ttls = λ q t. r.ttls q t ∙ p.ttls q (sub q t);
  }

  has-take : (q : K) (n : ℕ) (l : List (K × V)) → has dec q (take n l) ≡ true → has dec q l ≡ true
  has-take q zero l h = cc
  has-take q (suc n) [] h = h
  has-take q (suc n) (e ∷ l) h = ground (arith, has-take q n l)

  Evicts-items :
      (n : ℕ) (c d : LruCache K V)
      → InSync dec c
      → Evicts dec n c d
      → (q : K) → has dec q d.items ≡ true
      → has dec q c.items ≡ true
  Evicts-items n c d s p q h =
      s.same_list q
      ∙ has-take q n c.evict_list (ap (has dec q) (sym p.list) ∙ sym (p.sync.same_list q) ∙ h)

  -- With a nonnegative `maxSize` and a round for each entry, the loop ends; it has cut the list
  -- down to `maxSize` entries.
  pub evict_loop-Evicts :
      (fuel n : ℕ) (c : LruCache K V)
      → InSync dec c
      → c.max_size ≡ pos n
      → length c.evict_list < fuel
      → (d : LruCache K V) × (evict_loop dec fuel c ≡ some d) × Evicts dec n c d
  unfolding evict_loop
  evict_loop-Evicts zero n c s m h = absurd (omega arith)
  evict_loop-Evicts (suc fuel) n c s m h = elim (Bool-cases (ltb n (length c.items))) [
    | inl more ↦
        let k = length c.evict_list - 1 in
        let big : n < length c.items = ground arith in
        let e : length c.evict_list ≡ suc k = omega (arith, s.same_length) in
        let step = evict_oldest-Evicts dec c k s e in
        let len : length (evict_oldest dec c).evict_list ≡ k =
          ap length step.list ∙ omega (arith, length-take k c.evict_list) in
        let (d, runs, p) =
          evict_loop-Evicts fuel n (evict_oldest dec c) step.sync (step.max_size ∙ m)
            (omega arith) in
        (
          d,
          ground arith,
          Evicts-trans n k c (evict_oldest dec c) d (omega (arith, s.same_length)) step p
              (Evicts-items n (evict_oldest dec c) d step.sync p),
        )
    | inr stop ↦ (c, ground arith, Evicts-refl n c s (ground (arith, s.same_length)))
  ]

  evict_oldest-max_size : (c : LruCache K V) → (evict_oldest dec c).max_size ≡ c.max_size
  unfolding evict_oldest
  evict_oldest-max_size c = elim (Option-cases (back c.evict_list)) [
    | inl e ↦ rw (e, evict_oldest) refl
    | inr (x, e) ↦ rw (e, evict_oldest) ((remove_element-settings dec x.0 c).0)
  ]

  evict_loop-negative :
      (fuel n : ℕ) (c : LruCache K V) → c.max_size ≡ negsuc n → evict_loop dec fuel c ≡ none
  unfolding evict_loop
  evict_loop-negative zero n c m = refl
  evict_loop-negative (suc fuel) n c m =
      ground (arith, evict_loop-negative fuel n (evict_oldest dec c), evict_oldest-max_size c)

  -- A cache of a nonnegative `maxSize` that its operations have built.
  pub record IsValid (n : ℕ) (c : LruCache K V) : Type ℓ where
    pub sync : InSync dec c
    pub max_size : c.max_size ≡ pos n
    pub bounded : length c.evict_list ≤ n

  overwrite-InSync :
      (now t : ℤ) (k : K) (v : V) (c : LruCache K V)
      → InSync dec c
      → has dec k c.items ≡ true
      → InSync dec (overwrite dec now k k v t c)
  unfolding overwrite
  overwrite-InSync now t k v c s h = record {
    distinct_items = s.distinct_items;
    distinct_list = Distinct-put dec k v c.evict_list s.distinct_list;
    distinct_ttls = Distinct-put dec k (now +ℤ t) c.ttls s.distinct_ttls;
    named = s.named;
    same_list = λ q. ground (arith, s.same_list q, has-del dec k q c.evict_list);
    same_ttls = λ q. ground (arith, s.same_ttls q, has-del dec k q c.ttls);
    same_length =
        ground (arith, length-del dec k c.evict_list s.distinct_list, s.same_list k, s.same_length);
  }

  push_front-InSync :
      (now t : ℤ) (k : K) (v : V) (c : LruCache K V)
      → InSync dec c
      → has dec k c.items ≡ false
      → InSync dec (push_front dec now k v t c)
  unfolding push_front
  push_front-InSync now t k v c s h = record {
    distinct_items = Distinct-put dec k k c.items s.distinct_items;
    distinct_list = (sym (s.same_list k) ∙ h, s.distinct_list);
    distinct_ttls = Distinct-put dec k (now +ℤ t) c.ttls s.distinct_ttls;
    named = (refl, All-del dec (λ e. e.0 ≡ e.1) k c.items s.named);
    same_list = λ q. ground (arith, s.same_list q, has-del dec k q c.items);
    same_ttls = λ q. ground (arith, s.same_ttls q, has-del dec k q c.items, has-del dec k q c.ttls);
    same_length = ground (arith, del-absent dec k c.items h, s.same_length);
  }

  -- What `Set` promises: a valid cache whose entries, most recent first, are the new one and the
  -- old ones, cut at `maxSize`; the entry just written has its expiry time.
  pub record SetPost (n : ℕ) (now : ℤ) (k : K) (v : V) (ttl : ℤ) (c d : LruCache K V) : Type ℓ where
    pub valid : IsValid n d
    pub list : d.evict_list ≡ take n ((k, v) ∷ del dec k c.evict_list)
    pub default_ttl : d.default_ttl ≡ c.default_ttl
    pub expiry :
        find dec k d.ttls ≡ (if has dec k d.items then some (now +ℤ effective_ttl ttl c) else none)

  set-SetPost_old :
      (n : ℕ) (now ttl : ℤ) (k : K) (v : V) (c : LruCache K V)
      → IsValid n c
      → has dec k c.items ≡ true
      → SetPost n now k v ttl c (overwrite dec now k k v (effective_ttl ttl c) c)
  unfolding overwrite
  set-SetPost_old n now ttl k v c val h =
      let s = overwrite-InSync now (effective_ttl ttl c) k v c val.sync h in
      let small : length ((k, v) ∷ del dec k c.evict_list) ≤ n =
        ground
          (arith, length-del dec k c.evict_list val.sync.distinct_list, val.sync.same_list k) in
      record {
        valid = record { sync = unfold overwrite in s; max_size = val.max_size; bounded = small };
        list = sym (take_of_length-le n ((k, v) ∷ del dec k c.evict_list) small);
        default_ttl = refl;
        expiry = ground (arith, val.sync.same_ttls k);
      }

  set-SetPost_new :
      (n : ℕ) (now ttl : ℤ) (k : K) (v : V) (c d : LruCache K V)
      → IsValid n c
      → has dec k c.items ≡ false
      → Evicts dec n (push_front dec now k v (effective_ttl ttl c) c) d
      → SetPost n now k v ttl c d
  unfolding push_front
  set-SetPost_new n now ttl k v c d val h p = record {
    valid = record {
      sync = p.sync;
      max_size = p.max_size ∙ val.max_size;
      bounded = rw p.list (omega (arith, length-take n ((k, v) ∷ c.evict_list)));
    };
    list =
        p.list
        ∙ ap (λ l. take n ((k, v) ∷ l))
            (sym (del-absent dec k c.evict_list (sym (val.sync.same_list k) ∙ h)));
    default_ttl = p.default_ttl;
    expiry = elim (Bool-cases (has dec k d.items)) [
      | inl t ↦ rw t (p.ttls k t ∙ ground arith)
      | inr f ↦ rw f (find-none dec k d.ttls (sym (p.sync.same_ttls k) ∙ f))
    ];
  }

  -- Given more rounds of fuel than one for each entry and one for the new entry, `Set` ends on
  -- every valid cache. The cache it leaves is valid; its entries, most recent first, are the new
  -- one and the old ones without that key, cut at `maxSize`; the default time to live is kept; and
  -- the key, if it is still stored, expires at the current time and the time to live.
  pub set-SetPost :
      (fuel n : ℕ) (now ttl : ℤ) (k : K) (v : V) (c : LruCache K V)
      → IsValid n c
      → length c.evict_list + 1 < fuel
      → (d : LruCache K V) × (set dec fuel now k v ttl c ≡ some d) × SetPost n now k v ttl c d
  unfolding set
  set-SetPost fuel n now ttl k v c val h = elim (items-cases dec k c val.sync) [
    | inl (e, f) ↦
        let t = effective_ttl ttl c in
        let (d, runs, p) =
          evict_loop-Evicts fuel n (push_front dec now k v t c)
            (push_front-InSync now t k v c val.sync f) (unfold push_front in val.max_size)
            (unfold push_front in h') in
        (d, rw (e, set) runs, set-SetPost_new n now ttl k v c d val f p)
    | inr (e, t) ↦ (
      overwrite dec now k k v (effective_ttl ttl c) c,
      rw (e, set) refl,
      set-SetPost_old n now ttl k v c val t,
    )
  ]
    where
      h' : suc (length c.evict_list) < fuel
      h' = omega arith

  -- With a negative `maxSize` a `Set` of a key that is not stored never returns: its loop runs for
  -- ever, at any fuel.
  pub set-negative :
      (fuel n : ℕ) (now ttl : ℤ) (k : K) (v : V) (c : LruCache K V)
      → c.max_size ≡ negsuc n
      → find dec k c.items ≡ none
      → set dec fuel now k v ttl c ≡ none
  unfolding set push_front
  set-negative fuel n now ttl k v c m e =
      rw (e, set) (evict_loop-negative fuel n (push_front dec now k v (effective_ttl ttl c) c) m)
