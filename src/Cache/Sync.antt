-- ===== src/Cache/Sync.antt =====
-- The three structures of the cache stay in step: `items`, `evictList` and `ttls`.
use vector_mcp_go.Base.{
  ℕ, zero, suc, ◌≤◌, ◌≡◌, refl, sym, ◌⊎◌, inl, inr, true, false, none, some, List, [], ◌∷◌, arith,
  length, take, All, if◌then◌else◌, does, Option-cases, Bool-cases, ap, ◌∙◌,
}
use vector_mcp_go.Base.Maps.{
  find, has, del, Distinct, find-del, has-del, del-absent, length-del, Distinct-del, find-has,
  has-of_find, All-del,
}
use vector_mcp_go.Cache.{LruCache, back, remove_element, evict_oldest}

-- Every element of the map is named by its own key.
abbrev pub Named {ℓ} : {K : Type ℓ} → List (K × K) → Type ℓ
Named = All (λ e. e.0 ≡ e.1)

module _ {ℓ} {K : Type ℓ} (dec : Discrete K) where
  find-Named :
      (k : K) (m : List (K × K)) → Named m → (find dec k m ≡ none) ⊎ (find dec k m ≡ some k)
  find-Named k [] h = inl refl
  find-Named k ((j, e) ∷ m) h =
      elim (dec j k)
        as (λ d.
          ((if does d then some e else find dec k m) ≡ none)
          ⊎ ((if does d then some e else find dec k m) ≡ some k)) [
            | yes p ↦ inr (ap some (sym h.0 ∙ p))
            | no _ ↦ find-Named k m h.1
          ]

module _ {ℓ} {K V : Type ℓ} (dec : Discrete K) where
  pub record InSync (c : LruCache K V) : Type ℓ where
    pub distinct_items : Distinct dec c.items
    pub distinct_list : Distinct dec c.evict_list
    pub distinct_ttls : Distinct dec c.ttls
    pub named : Named c.items
    pub same_list : (q : K) → has dec q c.items ≡ has dec q c.evict_list
    pub same_ttls : (q : K) → has dec q c.items ≡ has dec q c.ttls
    pub same_length : length c.items ≡ length c.evict_list

  -- The map's entry for a key is its own element, and the element is in the list.
  pub items-cases :
      (k : K) (c : LruCache K V)
      → InSync c
      → ((find dec k c.items ≡ none) × (has dec k c.items ≡ false))
        ⊎ ((find dec k c.items ≡ some k) × (has dec k c.items ≡ true))
  items-cases k c s = elim (find-Named dec k c.items s.named) [
    | inl e ↦ elim (Bool-cases (has dec k c.items)) [
      | inl t ↦ absurd (let (v, f) = find-has dec k c.items t in ground arith)
      | inr f ↦ inl (e, f)
    ]
    | inr e ↦ inr (e, has-of_find dec k c.items k e)
  ]

  pub remove_element-InSync :
      (k : K) (c : LruCache K V) → InSync c → InSync (remove_element dec k c)
  unfolding remove_element
  remove_element-InSync k c s = elim (items-cases k c s) [
    | inl (e, f) ↦ rw (e, remove_element) s
    | inr (e, t) ↦
        rw (e, remove_element)
          (record {
            distinct_items = Distinct-del dec k c.items s.distinct_items;
            distinct_list = Distinct-del dec k c.evict_list s.distinct_list;
            distinct_ttls = Distinct-del dec k c.ttls s.distinct_ttls;
            named = All-del dec (λ p. p.0 ≡ p.1) k c.items s.named;
            same_list = λ q.
                ground
                  (arith, has-del dec k q c.items, has-del dec k q c.evict_list, s.same_list q);
            same_ttls =
                λ q. ground (arith, has-del dec k q c.items, has-del dec k q c.ttls, s.same_ttls q);
            same_length = ground (
              arith,
              length-del dec k c.items s.distinct_items,
              length-del dec k c.evict_list s.distinct_list,
              s.same_list k,
            );
          })
  ]

  -- What remains after a removal.
  pub remove_element-evict_list :
      (k : K) (c : LruCache K V)
      → InSync c
      → (remove_element dec k c).evict_list ≡ del dec k c.evict_list
  unfolding remove_element
  remove_element-evict_list k c s = elim (items-cases k c s) [
    | inl (e, f) ↦
        rw (e, remove_element) (sym (del-absent dec k c.evict_list (sym (s.same_list k) ∙ f)))
    | inr (e, t) ↦ rw (e, remove_element) refl
  ]

  -- The entry that `Back` finds is the last: to delete its key is to drop one entry.
  del-back :
      (l : List (K × V))
      → Distinct dec l
      → (n : ℕ) → length l ≡ suc n
      → (e : K × V) × (back l ≡ some e) × (has dec e.0 l ≡ true) × (del dec e.0 l ≡ take n l)
  unfolding back
  del-back [] d n h = absurd (omega arith)
  del-back (e ∷ []) d zero h = (e, refl, ground arith, ground arith)
  del-back (e ∷ []) d (suc n) h = absurd (omega arith)
  del-back (e ∷ f ∷ l) d zero h = absurd (omega arith)
  del-back (e ∷ f ∷ l) d (suc n) h =
      let (x, last, there, cut) = del-back (f ∷ l) d.1 n (omega arith) in
      (x, last, ground arith, ground arith)

  -- What an eviction keeps: the first `n` entries, in step, and the expiry times of what is left.
  pub record Evicts (n : ℕ) (c c' : LruCache K V) : Type ℓ where
    pub sync : InSync c'
    pub max_size : c'.max_size ≡ c.max_size
    pub default_ttl : c'.default_ttl ≡ c.default_ttl
    pub list : c'.evict_list ≡ take n c.evict_list
    pub ttls : (q : K) → has dec q c'.items ≡ true → find dec q c'.ttls ≡ find dec q c.ttls

  pub take-take : (n m : ℕ) (l : List (K × V)) → n ≤ m → take n (take m l) ≡ take n l
  take-take zero m l h = refl
  take-take (suc n) zero l h = absurd (omega arith)
  take-take (suc n) (suc m) [] h = refl
  take-take (suc n) (suc m) (e ∷ l) h = ap (◌∷◌ e) (take-take n m l (omega arith))

  pub remove_element-ttls :
      (k q : K) (c : LruCache K V)
      → has dec q (remove_element dec k c).items ≡ true
      → find dec q (remove_element dec k c).ttls ≡ find dec q c.ttls
  unfolding remove_element
  remove_element-ttls k q c h = elim (Option-cases (find dec k c.items)) [
    | inl e ↦ rw (e, remove_element) refl
    | inr (elem, e) ↦ rw (e, remove_element) (find-del-ne k q c (rw (e, remove_element) at h))
  ]
    where
      find-del-ne :
          (k q : K) (c : LruCache K V)
          → has dec q (del dec k c.items) ≡ true
          → find dec q (del dec k c.ttls) ≡ find dec q c.ttls
      find-del-ne k q c h = ground (arith, has-del dec k q c.items, find-del dec k q c.ttls)

  pub remove_element-settings :
      (k : K) (c : LruCache K V)
      → ((remove_element dec k c).max_size ≡ c.max_size)
        × ((remove_element dec k c).default_ttl ≡ c.default_ttl)
  unfolding remove_element
  remove_element-settings k c = ground arith

  pub remove_element-items :
      (k q : K) (c : LruCache K V)
      → InSync c
      → has dec q (remove_element dec k c).items ≡ true
      → has dec q c.items ≡ true
  unfolding remove_element
  remove_element-items k q c s h = elim (items-cases k c s) [
    | inl (e, f) ↦ rw (e, remove_element) at h
    | inr (e, t) ↦ ground (arith, has-del dec k q c.items)
  ]

  -- `evictOldest` drops exactly the last entry.
  pub evict_oldest-Evicts :
      (c : LruCache K V) (n : ℕ)
      → InSync c
      → length c.evict_list ≡ suc n
      → Evicts n c (evict_oldest dec c)
  unfolding evict_oldest
  evict_oldest-Evicts c n s h =
      let (x, last, there, cut) = del-back c.evict_list s.distinct_list n h in
      rw (last, evict_oldest)
        (record {
          sync = remove_element-InSync x.0 c s;
          max_size = (remove_element-settings x.0 c).0;
          default_ttl = (remove_element-settings x.0 c).1;
          list = remove_element-evict_list x.0 c s ∙ cut;
          ttls = λ q. remove_element-ttls x.0 q c;
        })
