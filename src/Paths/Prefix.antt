-- ===== src/Paths/Prefix.antt =====
-- A text test for "below a directory" and the elements of the paths.
use vector_mcp_go.Base.{
  Bool, true, false, List, [], ◌∷◌, ◌++◌, ◌==◌, if◌then◌else◌, ◌≡◌, ◌≢◌, ◌↔◌, refl, ap, ◌∙◌, arith,
  All, append_assoc,
}
use vector_mcp_go.Base.Text.{Text, has_prefix, Lacks}
use vector_mcp_go.Paths.{separator, is_abs, join_path, segments, clean}
use vector_mcp_go.Paths.Segments.{IsElement, segments-IsElement}

-- Every element with a separator behind it.
abbrev pub closed : List Text → Text
closed [] = []
closed (s ∷ ss) = s ++ separator ∷ closed ss

-- `strings.HasSuffix(p, "/")`
unfoldable pub ends_in_separator : Text → Bool
ends_in_separator [] = false
ends_in_separator (c ∷ []) = c == separator
ends_in_separator (c ∷ d ∷ p) = ends_in_separator (d ∷ p)

-- `if !strings.HasSuffix(p, "/") { p += "/" }`
unfoldable pub close : Text → Text
unfolding ends_in_separator
close p = if ends_in_separator p then p else p ++ separator ∷ []

has_prefix-append : (s t p : Text) → has_prefix (s ++ t) (s ++ p) ≡ has_prefix t p
has_prefix-append [] t p = refl
has_prefix-append (c ∷ s) t p = ground (arith, has_prefix-append s t p)

-- Up to the first separator the two texts agree.
has_prefix-element :
    (s b t p : Text)
    → Lacks separator s
    → Lacks separator b
    → has_prefix (s ++ separator ∷ t) (b ++ separator ∷ p) ≡ true
    → (s ≡ b) × (has_prefix t p ≡ true)
has_prefix-element [] [] t p hs hb h = (refl, ground arith)
has_prefix-element [] (d ∷ b) t p hs hb h = absurd (ground arith)
has_prefix-element (c ∷ s) [] t p hs hb h = absurd (ground arith)
has_prefix-element (c ∷ s) (d ∷ b) t p hs hb h =
    let (e, r) = has_prefix-element s b t p hs.1 hb.1 (ground arith) in (ground arith, r)

-- `bs` is where `ps` begins.
abbrev pub Extends : List Text → List Text → Type 0
Extends ps bs = (rest : List Text) × (ps ≡ bs ++ rest)

closed-Extends :
    (ps bs : List Text)
    → All IsElement ps
    → All IsElement bs
    → has_prefix (closed ps) (closed bs) ≡ true
    → Extends ps bs
closed-Extends ps [] hp hb h = (ps, refl)
closed-Extends [] ([] ∷ bs) hp hb h = absurd (hb.0.0 refl)
closed-Extends [] ((c ∷ b) ∷ bs) hp hb h = cc
closed-Extends (s ∷ ps) (b ∷ bs) hp hb h =
    let (e, r) = has_prefix-element s b (closed ps) (closed bs) hp.0.1 hb.0.1 h in
    let (rest, f) = closed-Extends ps bs hp.1 hb.1 r in (rest, cc)

Extends-closed : (ps bs : List Text) → Extends ps bs → has_prefix (closed ps) (closed bs) ≡ true
Extends-closed ps [] h = refl
Extends-closed ps (b ∷ bs) (rest, e) = rw e (
    has_prefix-append b (separator ∷ closed (bs ++ rest)) (separator ∷ closed bs)
    ∙ ground (arith, Extends-closed (bs ++ rest) bs (rest, refl)))

ends-Lacks : (s : Text) → Lacks separator s → ends_in_separator s ≡ false
unfolding ends_in_separator
ends-Lacks [] h = refl
ends-Lacks (c ∷ []) h = ground arith
ends-Lacks (c ∷ d ∷ s) h = ends-Lacks (d ∷ s) h.1

ends-append : (x t : Text) → t ≢ [] → ends_in_separator (x ++ t) ≡ ends_in_separator t
unfolding ends_in_separator
ends-append [] t h = refl
ends-append (c ∷ []) [] h = absurd (h refl)
ends-append (c ∷ []) (d ∷ t) h = refl
ends-append (c ∷ d ∷ x) t h = ends-append (d ∷ x) t h

pub join_path-ne-nil : (s : Text) (ss : List Text) → s ≢ [] → join_path (s ∷ ss) ≢ []
unfolding join_path
join_path-ne-nil [] ss h = absurd (h refl)
join_path-ne-nil (c ∷ s) [] h = cc
join_path-ne-nil (c ∷ s) (t ∷ ss) h = cc

ends-join_path :
    (s : Text) (ss : List Text)
    → IsElement s
    → All IsElement ss
    → ends_in_separator (join_path (s ∷ ss)) ≡ false
unfolding join_path
ends-join_path s [] h hs = ends-Lacks s h.1
ends-join_path s (t ∷ ss) h hs =
    ends-append s (separator ∷ join_path (t ∷ ss)) (cc)
    ∙ ends-append (separator ∷ []) (join_path (t ∷ ss)) (join_path-ne-nil t ss hs.0.0)
    ∙ ends-join_path t ss hs.0 hs.1

join_path-closed :
    (s : Text) (ss : List Text) → join_path (s ∷ ss) ++ separator ∷ [] ≡ closed (s ∷ ss)
unfolding join_path
join_path-closed s [] = refl
join_path-closed s (t ∷ ss) =
    append_assoc s (separator ∷ join_path (t ∷ ss)) (separator ∷ [])
    ∙ ap (λ l. s ++ separator ∷ l) (join_path-closed t ss)

-- A rooted path, closed by a separator, is the root and each element with a separator behind it.
close-join_path :
    (ss : List Text) → All IsElement ss → close (separator ∷ join_path ss) ≡ separator ∷ closed ss
unfolding close
close-join_path [] h = unfold join_path in refl
close-join_path (s ∷ ss) h =
    rw
      (
        ends-append (separator ∷ []) (join_path (s ∷ ss)) (join_path-ne-nil s ss h.0.0),
        ends-join_path s ss h.0 h.1,
      )
      (ap (◌∷◌ separator) (join_path-closed s ss))

pub close-clean : (p : Text) → is_abs p ≡ true → close (clean p) ≡ separator ∷ closed (segments p)
unfolding clean
close-clean p h = rw h (close-join_path (segments p) (segments-IsElement p))

-- For rooted paths the test on the closed texts decides whether the elements of one extend those
-- of the other.
pub has_prefix-Extends :
    (p b : Text)
    → is_abs p ≡ true
    → is_abs b ≡ true
    → (has_prefix (close (clean p)) (close (clean b)) ≡ true) ↔ Extends (segments p) (segments b)
has_prefix-Extends p b hp hb =
    rw (close-clean p hp, close-clean b hb)
      (
        (λ h.
            closed-Extends (segments p) (segments b) (segments-IsElement p) (segments-IsElement b)
              (ground arith)),
        (λ e. ground (arith, Extends-closed (segments p) (segments b) e)),
      )
