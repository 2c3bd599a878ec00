-- ===== src/RateLimit/Clients.antt =====
-- The keys of clients, and which buckets the clean-up keeps.
use vector_mcp_go.Base.{
  ℕ, ◌-◌, ◌≡◌, refl, ap, false, Option, none, some, List, [], ◌∷◌, ◌++◌, arith, ltb, ◌==◌,
  if◌then◌else◌, Bool-cases, inl, inr, ◌⊎◌,
}
use vector_mcp_go.Base.Maps.{find, has, Distinct}
use vector_mcp_go.Base.Text.{Text, Lacks}
use vector_mcp_go.RateLimit.{
  Amounts, TokenBucket, Request, first_in_chain, default_key_func, Middleware, keep_recent, cleanup,
}

-- A bucket, if it was used recently enough.
abbrev pub recent :
    {amounts : Amounts} → ℕ → ℕ → Option (TokenBucket amounts) → Option (TokenBucket amounts)
recent now max_age none = none
recent now max_age (some b) = if ltb max_age (now - b.last_update) then none else some b

module _ (amounts : Amounts) {K : Type 0} (dec : Discrete K) where
  has-keep_recent :
      (now max_age : ℕ) (q : K) (l : List (K × TokenBucket amounts))
      → has dec q l ≡ false
      → find dec q (keep_recent amounts now max_age l) ≡ none
  unfolding keep_recent
  has-keep_recent now max_age q [] h = refl
  has-keep_recent now max_age q ((k, b) ∷ l) h = ground (arith, has-keep_recent now max_age q l)

  find-keep_recent :
      (now max_age : ℕ) (q : K) (l : List (K × TokenBucket amounts))
      → Distinct dec l
      → find dec q (keep_recent amounts now max_age l) ≡ recent now max_age (find dec q l)
  unfolding keep_recent
  find-keep_recent now max_age q [] d = refl
  find-keep_recent now max_age q ((k, b) ∷ l) d =
      ground (arith, find-keep_recent now max_age q l, has-keep_recent now max_age q l)

module _ (amounts : Amounts) {R K : Type 0} (dec : Discrete K) where
  -- Where no key has two buckets, `Cleanup` removes exactly the buckets that have not been used for
  -- longer than the given age, and leaves every other as it is.
  pub find-cleanup :
      (now max_age : ℕ) (q : K) (m : Middleware amounts R K)
      → Distinct dec m.buckets
      → find dec q (cleanup amounts now max_age m).buckets
        ≡ recent now max_age (find dec q m.buckets)
  unfolding cleanup
  find-cleanup now max_age q m d = find-keep_recent amounts dec now max_age q m.buckets d

first_in_chain_lem :
    (s : Text)
    → Lacks b',' (first_in_chain s)
      × ((first_in_chain s ≡ s) ⊎ ((rest : Text) × (s ≡ first_in_chain s ++ b',' ∷ rest)))
unfolding first_in_chain
first_in_chain_lem [] = (tt, inl refl)
first_in_chain_lem (c ∷ s) = elim (Bool-cases (c == b',')) [
  | inl e ↦ rw e (tt, inr (s, ground arith))
  | inr e ↦ rw e (
    (ground arith, (first_in_chain_lem s).0),
    elim ((first_in_chain_lem s).1) [
      | inl whole ↦ inl (ap (◌∷◌ c) whole)
      | inr (rest, cut) ↦ inr (rest, ap (◌∷◌ c) cut)
    ],
  )
]

-- With a forwarding header the key is what stands in front of its first comma, or all of it; with
-- none, the remote address.
pub default_key_func_lem :
    (r : Request)
    → ((r.x_forwarded_for ≡ []) × (default_key_func r ≡ r.remote_addr))
      ⊎ (Lacks b',' (default_key_func r)
          × ((default_key_func r ≡ r.x_forwarded_for)
              ⊎ ((rest : Text) × (r.x_forwarded_for ≡ default_key_func r ++ b',' ∷ rest))))
unfolding default_key_func
default_key_func_lem r = go r.x_forwarded_for refl
  where
    go :
        (x : Text)
        → r.x_forwarded_for ≡ x
        → ((r.x_forwarded_for ≡ []) × (default_key_func r ≡ r.remote_addr))
          ⊎ (Lacks b',' (default_key_func r)
              × ((default_key_func r ≡ r.x_forwarded_for)
                  ⊎ ((rest : Text) × (r.x_forwarded_for ≡ default_key_func r ++ b',' ∷ rest))))
    go [] e = inl (e, rw (e, default_key_func) refl)
    go (c ∷ s) e = inr (rw (e, default_key_func) (first_in_chain_lem (c ∷ s)))
