-- ===== src/PathGuard/Filename.antt =====
-- internal/security/pathguard/sanitizer.go: `SanitizeFilename`, over the bytes of the name.
use vector_mcp_go.Base.{
  ℕ, zero, suc, ◌≤◌, false, [], ◌∷◌, map, ◌==◌, ltb, if◌then◌else◌, ◌≡◌, ◌≢◌, refl, arith, All,
  Bool-cases, inl, inr, length, take, length-take, keep, not, All-take,
}
use vector_mcp_go.Base.Text.{Text, codes}

-- `strings.ReplaceAll` of one byte by one other
replace_byte : ℕ → ℕ → Text → Text
replace_byte old new = map (λ c. if c == old then new else c)

-- `strings.ReplaceAll(name, "\x00", "")`
remove_byte : ℕ → Text → Text
remove_byte old = keep (λ c. not (c == old))

-- `for strings.HasPrefix(name, ".") { name = strings.TrimPrefix(name, ".") }`
trim_dots : Text → Text
trim_dots [] = []
trim_dots (c ∷ s) = let rest = trim_dots s in if c == b'.' then rest else c ∷ s

or_unnamed : Text → Text
or_unnamed [] = codes "unnamed"
or_unnamed (c ∷ s) = c ∷ s

-- `SanitizeFilename`
unfoldable pub sanitize_filename : Text → Text
unfolding replace_byte remove_byte trim_dots or_unnamed
sanitize_filename name =
    let flat = replace_byte b'\\' b'_' (replace_byte b'/' b'_' name) in
    let bare = trim_dots (remove_byte 0 flat) in
    or_unnamed (if ltb 255 (length bare) then take 255 bare else bare)

-- A byte that a sanitised name may hold.
abbrev pub IsPlain : ℕ → Type 0
IsPlain c = (c ≢ b'/') × (c ≢ b'\\') × (c ≢ 0)

-- The first byte is there, and is no dot.
abbrev pub StartsPlain : Text → Type 0
StartsPlain [] = ⊥
StartsPlain (c ∷ s) = c ≢ b'.'

pub record IsSafeName (s : Text) : Type 0 where
  pub plain : All IsPlain s
  pub starts : StartsPlain s
  pub short : length s ≤ 255

scrub-IsPlain :
    (s : Text) → All IsPlain (remove_byte 0 (replace_byte b'\\' b'_' (replace_byte b'/' b'_' s)))
unfolding remove_byte replace_byte
scrub-IsPlain [] = tt
scrub-IsPlain (c ∷ s) = ground (arith, scrub-IsPlain s)

trim_dots-IsPlain : (s : Text) → All IsPlain s → All IsPlain (trim_dots s)
unfolding trim_dots
trim_dots-IsPlain [] h = tt
trim_dots-IsPlain (c ∷ s) h = elim (Bool-cases (c == b'.')) [
  | inl e ↦ rw e (trim_dots-IsPlain s h.1)
  | inr e ↦ rw e h
]

abbrev OffDot : Text → Type 0
OffDot [] = Unit
OffDot (c ∷ s) = c ≢ b'.'

trim_dots-OffDot : (s : Text) → OffDot (trim_dots s)
unfolding trim_dots
trim_dots-OffDot [] = tt
trim_dots-OffDot (c ∷ s) = elim (Bool-cases (c == b'.')) [
  | inl e ↦ rw e (trim_dots-OffDot s)
  | inr e ↦ rw e (ground arith)
]

cut-OffDot : (n : ℕ) (s : Text) → OffDot s → OffDot (take n s)
cut-OffDot zero s h = tt
cut-OffDot (suc n) [] h = tt
cut-OffDot (suc n) (c ∷ s) h = h

or_unnamed-IsSafeName :
    (s : Text) → All IsPlain s → OffDot s → length s ≤ 255 → IsSafeName (or_unnamed s)
unfolding or_unnamed
or_unnamed-IsSafeName [] hp hd hl = omega arith
or_unnamed-IsSafeName (c ∷ s) hp hd hl = record { plain = hp; starts = hd; short = hl }

-- Every sanitised name is safe: it holds no separator of either kind and no NUL, it is not empty,
-- does not begin with a dot, and has at most 255 bytes.
pub sanitize_filename-IsSafeName : (name : Text) → IsSafeName (sanitize_filename name)
unfolding sanitize_filename
sanitize_filename-IsSafeName name = elim (Bool-cases (ltb 255 (length bare))) [
  | inl e ↦ rw e (
      or_unnamed-IsSafeName (take 255 bare) (All-take IsPlain 255 bare plain)
        (cut-OffDot 255 bare start) (omega (arith, length-take 255 bare)))
  | inr e ↦ rw e (or_unnamed-IsSafeName bare plain start (ground arith))
]
  where
    bare : Text
    bare = trim_dots (remove_byte 0 (replace_byte b'\\' b'_' (replace_byte b'/' b'_' name)))

    plain : All IsPlain bare
    plain =
        trim_dots-IsPlain (remove_byte 0 (replace_byte b'\\' b'_' (replace_byte b'/' b'_' name)))
          (scrub-IsPlain name)

    start : OffDot bare
    start = trim_dots-OffDot (remove_byte 0 (replace_byte b'\\' b'_' (replace_byte b'/' b'_' name)))

scrub_id :
    (s : Text)
    → All IsPlain s
    → remove_byte 0 (replace_byte b'\\' b'_' (replace_byte b'/' b'_' s)) ≡ s
unfolding remove_byte replace_byte
scrub_id [] h = refl
scrub_id (c ∷ s) h = ground (arith, scrub_id s h.1)

trim_dots_id : (c : ℕ) (s : Text) → c ≢ b'.' → trim_dots (c ∷ s) ≡ c ∷ s
unfolding trim_dots
trim_dots_id c s h = ground arith

short-ltb : (n : ℕ) → n ≤ 255 → ltb 255 n ≡ false
short-ltb n h = ground arith

-- A safe name, such as `SanitizeFilename` returns, is left as it is.
pub sanitize_filename_of_IsSafeName : (s : Text) → IsSafeName s → sanitize_filename s ≡ s
unfolding sanitize_filename
sanitize_filename_of_IsSafeName [] h = absurd h.starts
sanitize_filename_of_IsSafeName (c ∷ s) h =
    rw (scrub_id (c ∷ s) h.plain, trim_dots_id c s h.starts, short-ltb (length (c ∷ s)) h.short)
      refl
