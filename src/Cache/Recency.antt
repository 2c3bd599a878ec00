-- ===== src/Cache/Recency.antt =====
-- What can be read from the cache after `Get`, `Set`, `Clear` and the periodic clean-up.
use vector_mcp_go.Base.{
  ℕ, suc, ◌+◌, ◌<◌, ◌≤◌, ◌≡◌, refl, sym, inl, inr, Bool, true, false, Option, none, some, List, [],
  ◌∷◌, arith, length, if◌then◌else◌, does, Option-cases, Bool-cases, ◌∙◌, ◌&&◌,
}
use vector_mcp_go.Base.Int.{ℤ, ltb_ℤ, ◌+ℤ◌}
use vector_mcp_go.Base.Maps.{
  find, has, del, del-absent, has-none, Distinct, find-del, has-del, length-del, Distinct-put,
  find-none, has-of_find, nil_of_has,
}
use vector_mcp_go.Cache.{
  LruCache, after, move_to_front, remove_element, remove_all, get, set, is_expired, effective_ttl,
  clear, sweep, cleanup_expired,
}
use vector_mcp_go.Cache.Laws.{IsValid, SetPost, set-SetPost}
use vector_mcp_go.Cache.Sync.{
  InSync, items-cases, remove_element-InSync, remove_element-evict_list, remove_element-settings,
}

module _ {ℓ} {K : Type ℓ} (dec : Discrete K) where
  stale : ℤ → K → List (K × ℤ) → Bool
  stale now q l = elim (find dec q l) [ none ↦ false | some exp ↦ after now exp ]

  stale-absent : (now : ℤ) (q : K) (l : List (K × ℤ)) → has dec q l ≡ false → stale now q l ≡ false
  unfolding stale
  stale-absent now q l h = rw (find-none dec q l h, stale)

  stale-cons :
      (now exp : ℤ) (k q : K) (l : List (K × ℤ))
      → stale now q ((k, exp) ∷ l) ≡ (if does (dec k q) then after now exp else stale now q l)
  unfolding stale
  stale-cons now exp k q l = ground arith

module _ {ℓ} {K V : Type ℓ} (dec : Discrete K) where
  move_to_front-InSync :
      (k : K) (c : LruCache K V)
      → InSync dec c
      → InSync dec (record c { evict_list = move_to_front dec k c.evict_list })
  unfolding move_to_front
  move_to_front-InSync k c s = elim (Option-cases (find dec k c.evict_list)) [
    | inl e ↦ rw (e, move_to_front) s
    | inr (v, e) ↦
        rw (e, move_to_front)
          (record {
            distinct_items = s.distinct_items;
            distinct_list = Distinct-put dec k v c.evict_list s.distinct_list;
            distinct_ttls = s.distinct_ttls;
            named = s.named;
            same_list = λ q. ground (
              arith,
              s.same_list q,
              has-del dec k q c.evict_list,
              has-of_find dec k c.evict_list v,
            );
            same_ttls = s.same_ttls;
            same_length = ground (
              arith,
              length-del dec k c.evict_list s.distinct_list,
              has-of_find dec k c.evict_list v,
              s.same_length,
            );
          })
  ]

  find-move_to_front :
      (k q : K) (l : List (K × V)) → find dec q (move_to_front dec k l) ≡ find dec q l
  unfolding move_to_front
  find-move_to_front k q l = ground (arith, find-del dec k q l)

  length-move_to_front :
      (k : K) (l : List (K × V)) → Distinct dec l → length (move_to_front dec k l) ≡ length l
  unfolding move_to_front
  length-move_to_front k l d = elim (Option-cases (find dec k l)) [
    | inl e ↦ rw (e, move_to_front) refl
    | inr (v, e) ↦
        rw (e, move_to_front) (ground (arith, length-del dec k l d, has-of_find dec k l v e))
  ]

  length-del-le : (k : K) (l : List (K × V)) → length (del dec k l) ≤ length l
  length-del-le k [] = omega arith
  length-del-le k ((j, v) ∷ l) = ground (arith, length-del-le k l)

  remove_element-IsValid :
      (n : ℕ) (k : K) (c : LruCache K V) → IsValid dec n c → IsValid dec n (remove_element dec k c)
  remove_element-IsValid n k c val = record {
    sync = remove_element-InSync dec k c val.sync;
    max_size = (remove_element-settings dec k c).0 ∙ val.max_size;
    bounded =
        rw (remove_element-evict_list dec k c val.sync)
          (omega (arith, length-del-le k c.evict_list, val.bounded));
  }

  -- On a valid cache, `Get` keeps the three structures in step and the number of entries within the
  -- bound.
  pub get-IsValid :
      (n : ℕ) (now : ℤ) (k : K) (c : LruCache K V)
      → IsValid dec n c
      → IsValid dec n (get dec now k c).0
  unfolding get
  get-IsValid n now k c val = elim (Bool-cases (is_expired dec now k c)) [
    | inl e ↦ rw e (remove_element-IsValid n k c val)
    | inr e ↦ elim (items-cases dec k c val.sync) [
      | inl (f, g) ↦ rw (e, f, get) val
      | inr (f, g) ↦
          rw (e, f, get)
            (record {
              sync = move_to_front-InSync k c val.sync;
              max_size = val.max_size;
              bounded =
                  omega (
                    arith,
                    length-move_to_front k c.evict_list val.sync.distinct_list,
                    val.bounded,
                  );
            })
    ]
  ]

  find-absent :
      (k : K) (c : LruCache K V)
      → InSync dec c
      → has dec k c.items ≡ false
      → find dec k c.evict_list ≡ none
  find-absent k c s h = find-none dec k c.evict_list (sym (s.same_list k) ∙ h)

  pub found-get :
      (n : ℕ) (now : ℤ) (k q : K) (c : LruCache K V)
      → IsValid dec n c
      → ((get dec now k c).1 ≡ (if is_expired dec now k c then none else find dec k c.evict_list))
        × (find dec q (get dec now k c).0.evict_list
            ≡ (if is_expired dec now k c && does (dec k q) then none else find dec q c.evict_list))
  unfolding get
  found-get n now k q c val = elim (Bool-cases (is_expired dec now k c)) [
    | inl e ↦
        rw e (refl, rw (remove_element-evict_list dec k c val.sync) (find-del dec k q c.evict_list))
    | inr e ↦ elim (items-cases dec k c val.sync) [
      | inl (f, g) ↦ rw (e, f, get) (sym (find-absent k c val.sync g), refl)
      | inr (f, g) ↦ rw (e, f, get) (refl, find-move_to_front k q c.evict_list)
    ]
  ]

  -- What a cache holds for a key at a time: nothing once its expiry time has passed.
  abbrev pub live : ℤ → K → LruCache K V → Option V
  live now k c = elim (find dec k c.ttls) [
    | none ↦ find dec k c.evict_list
    | some exp ↦ if ltb_ℤ exp now then none else find dec k c.evict_list
  ]

  -- The entries, the last used one first, after the value of a key was looked up.
  abbrev pub used : K → Option V → List (K × V) → List (K × V)
  used k none l = del dec k l
  used k (some v) l = (k, v) ∷ del dec k l

  live-is_expired :
      (now : ℤ) (k : K) (c : LruCache K V)
      → live now k c ≡ (if is_expired dec now k c then none else find dec k c.evict_list)
  unfolding is_expired after
  live-is_expired now k c = elim (Option-cases (find dec k c.ttls)) [
    | inl e ↦ rw (e, live, is_expired) refl
    | inr (exp, e) ↦ rw (e, live, is_expired) refl
  ]

  move_to_front-used : (k : K) (l : List (K × V)) → move_to_front dec k l ≡ used k (find dec k l) l
  unfolding move_to_front
  move_to_front-used k l = elim (Option-cases (find dec k l)) [
    | inl e ↦ rw (e, move_to_front) (sym (del-absent dec k l (has-none dec k l e)))
    | inr (v, e) ↦ rw (e, move_to_front) refl
  ]

  get-used :
      (n : ℕ) (now : ℤ) (k : K) (c : LruCache K V)
      → IsValid dec n c
      → (get dec now k c).0.evict_list
        ≡ used k (if is_expired dec now k c then none else find dec k c.evict_list) c.evict_list
  unfolding get
  get-used n now k c val = elim (Bool-cases (is_expired dec now k c)) [
    | inl e ↦ rw e (remove_element-evict_list dec k c val.sync)
    | inr e ↦ elim (items-cases dec k c val.sync) [
      | inl (f, g) ↦
          rw (e, f, get, find-absent k c val.sync g)
            (sym (del-absent dec k c.evict_list (sym (val.sync.same_list k) ∙ g)))
      | inr (f, g) ↦ rw (e, f, get) (move_to_front-used k c.evict_list)
    ]
  ]

  -- On a valid cache, `Get` returns the stored value, unless the expiry time of the key has passed,
  -- and makes its entry the first of the list, the others in their order behind it; where it returns
  -- nothing, the key's entry is gone and all others stay in their order.
  pub get_lem :
      (n : ℕ) (now : ℤ) (k : K) (c : LruCache K V)
      → IsValid dec n c
      → ((get dec now k c).1 ≡ live now k c)
        × ((get dec now k c).0.evict_list ≡ used k (live now k c) c.evict_list)
  get_lem n now k c val =
      rw (live-is_expired now k c) ((found-get n now k k c val).0, get-used n now k c val)

  get-SetPost :
      (n : ℕ) (now now' ttl : ℤ) (k : K) (v : V) (c d : LruCache K V)
      → SetPost dec (suc n) now k v ttl c d
      → after now' (now +ℤ effective_ttl ttl c) ≡ false
      → (get dec now' k d).1 ≡ some v
  unfolding is_expired
  get-SetPost n now now' ttl k v c d p live =
      let head : find dec k d.evict_list ≡ some v = rw p.list (ground arith) in
      let there : has dec k d.items ≡ true =
        p.valid.sync.same_list k ∙ has-of_find dec k d.evict_list v head in
      let fresh : is_expired dec now' k d ≡ false = rw (p.expiry, there, is_expired) live in
      (found-get (suc n) now' k k d p.valid).0 ∙ rw fresh head

  -- In a valid cache of a positive size, given more rounds of fuel than one for each entry and one
  -- for the new entry, `Set` ends, and a `Get` of the key in the cache that it leaves returns the
  -- value, until the expiry time has passed.
  pub get-set :
      (fuel n : ℕ) (now now' ttl : ℤ) (k : K) (v : V) (c : LruCache K V)
      → IsValid dec (suc n) c
      → length c.evict_list + 1 < fuel
      → after now' (now +ℤ effective_ttl ttl c) ≡ false
      → (d : LruCache K V) × (set dec fuel now k v ttl c ≡ some d) × ((get dec now' k d).1 ≡ some v)
  get-set fuel n now now' ttl k v c val enough live =
      let (d, runs, p) = set-SetPost dec fuel (suc n) now ttl k v c val enough in
      (d, runs, get-SetPost n now now' ttl k v c d p live)

  has-remove_element :
      (k q : K) (c : LruCache K V)
      → InSync dec c
      → has dec q (remove_element dec k c).items
        ≡ (if does (dec k q) then false else has dec q c.items)
  has-remove_element k q c s =
      (remove_element-InSync dec k c s).same_list q
      ∙ rw (remove_element-evict_list dec k c s)
          (has-del dec k q c.evict_list ∙ ground (arith, s.same_list q))

  remove_all-InSync :
      (l : List (K × K)) (c : LruCache K V) → InSync dec c → InSync dec (remove_all dec l c)
  unfolding remove_all
  remove_all-InSync [] c s = s
  remove_all-InSync ((k, e) ∷ l) c s =
      remove_all-InSync l (remove_element dec k c) (remove_element-InSync dec k c s)

  has-remove_all :
      (l : List (K × K)) (q : K) (c : LruCache K V)
      → InSync dec c
      → has dec q (remove_all dec l c).items ≡ (if has dec q l then false else has dec q c.items)
  unfolding remove_all
  has-remove_all [] q c s = refl
  has-remove_all ((k, e) ∷ l) q c s =
      has-remove_all l q (remove_element dec k c) (remove_element-InSync dec k c s)
      ∙ ground (arith, has-remove_element k q c s)

  -- Where the three structures agree, `Clear` leaves no element, no list entry and no expiry time.
  pub clear-empty :
      (c : LruCache K V)
      → InSync dec c
      → ((clear dec c).items ≡ []) × ((clear dec c).evict_list ≡ []) × ((clear dec c).ttls ≡ [])
  unfolding clear
  clear-empty c s = (
    nil_of_has dec _ gone,
    nil_of_has dec _ (λ q. sym (sync.same_list q) ∙ gone q),
    nil_of_has dec _ (λ q. sym (sync.same_ttls q) ∙ gone q),
  )
    where
      sync : InSync dec (remove_all dec c.items c)
      sync = remove_all-InSync c.items c s

      gone : (q : K) → has dec q (remove_all dec c.items c).items ≡ false
      gone q = has-remove_all c.items q c s ∙ ground arith

  sweep-InSync :
      (now : ℤ) (l : List (K × ℤ)) (c : LruCache K V)
      → InSync dec c
      → InSync dec (sweep dec now l c)
  unfolding sweep
  sweep-InSync now [] c s = s
  sweep-InSync now ((k, exp) ∷ l) c s = elim (Bool-cases (after now exp)) [
    | inl e ↦ rw e (sweep-InSync now l (remove_element dec k c) (remove_element-InSync dec k c s))
    | inr e ↦ rw e (sweep-InSync now l c s)
  ]

  find-sweep :
      (now : ℤ) (l : List (K × ℤ)) (q : K) (c : LruCache K V)
      → InSync dec c
      → Distinct dec l
      → find dec q (sweep dec now l c).evict_list
        ≡ (if stale dec now q l then none else find dec q c.evict_list)
  unfolding sweep
  find-sweep now [] q c s d = unfold stale in refl
  find-sweep now ((k, exp) ∷ l) q c s d = elim (Bool-cases (after now exp)) [
    | inl e ↦
        rw (e, sweep)
          (find-sweep now l q (remove_element dec k c) (remove_element-InSync dec k c s) d.1
            ∙ rw (remove_element-evict_list dec k c s) (
                ground (
                  arith,
                  find-del dec k q c.evict_list,
                  stale-cons dec now exp k q l,
                  stale-absent dec now q l,
                )))
    | inr e ↦
        rw (e, sweep)
          (find-sweep now l q c s d.1
            ∙ ground (arith, stale-cons dec now exp k q l, stale-absent dec now q l))
  ]

  -- Where the three structures agree, a tick of the clean-up removes exactly the entries that have
  -- expired, keeps every other entry with its value, and leaves the structures in agreement.
  pub find-cleanup_expired :
      (now : ℤ) (q : K) (c : LruCache K V)
      → InSync dec c
      → InSync dec (cleanup_expired dec now c)
        × (find dec q (cleanup_expired dec now c).evict_list
            ≡ (if is_expired dec now q c then none else find dec q c.evict_list))
  unfolding cleanup_expired is_expired stale
  find-cleanup_expired now q c s =
      (sweep-InSync now c.ttls c s, find-sweep now c.ttls q c s s.distinct_ttls)
