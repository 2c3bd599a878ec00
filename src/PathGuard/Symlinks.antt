-- ===== src/PathGuard/Symlinks.antt =====
-- Which paths `checkSymlinks` looks at.
use vector_mcp_go.Base.{false, List, [], ◌∷◌, ◌≡◌, refl, ◌∙◌, arith, All}
use vector_mcp_go.Base.Text.{Text, Lacks}
use vector_mcp_go.Paths.{separator, is_abs, split_path, join}
use vector_mcp_go.Paths.Segments.{split_path-Lacks}
use vector_mcp_go.PathGuard.{FileSystem, check_parts, check_symlinks}
use vector_mcp_go.PathGuard.Within.{is_abs-clean}

is_abs-join_part : (a b : Text) → is_abs a ≡ false → Lacks separator b → is_abs (join a b) ≡ false
unfolding join
is_abs-join_part [] [] h l = h
is_abs-join_part [] (d ∷ b) h l = is_abs-clean (d ∷ b) ∙ unfold is_abs in ground arith
is_abs-join_part (c ∷ a) [] h l = is_abs-clean (c ∷ a) ∙ h
is_abs-join_part (c ∷ a) (d ∷ b) h l = is_abs-clean _ ∙ unfold is_abs in h

module _ (fs gs : FileSystem) (same : (p : Text) → is_abs p ≡ false → fs.lstat p ≡ gs.lstat p) where
  check_parts-relative :
      (current : Text) (parts : List Text)
      → is_abs current ≡ false
      → All (Lacks separator) parts
      → check_parts fs current parts ≡ check_parts gs current parts
  unfolding check_parts
  check_parts-relative current [] h hs = refl
  check_parts-relative current (part ∷ parts) h hs =
      let next = is_abs-join_part current part h hs.0 in
      ground (
        arith,
        same (join current part) next,
        check_parts-relative current parts h hs.1,
        check_parts-relative (join current part) parts next hs.1,
      )

  -- Two file systems that agree on the relative paths pass `checkSymlinks` alike, on every path:
  -- the components of an absolute path are looked up relative to the working directory.
  pub check_symlinks-relative : (path : Text) → check_symlinks fs path ≡ check_symlinks gs path
  unfolding check_symlinks
  check_symlinks-relative path =
      check_parts-relative [] (split_path path) (unfold is_abs in refl) (split_path-Lacks path)
