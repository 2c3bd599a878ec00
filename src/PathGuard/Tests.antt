-- ===== src/PathGuard/Tests.antt =====
-- Runs of internal/security/pathguard/sanitizer.go on a file system without links, and on one that
-- answers otherwise on absolute paths.
use vector_mcp_go.Base.{
  ◌≤◌, ◌≡◌, ◌≢◌, refl, true, false, some, List, ◌++◌, All, length, arith, if◌then◌else◌, ◌⊎◌,
}
use vector_mcp_go.Base.Text.{Text, codes}
use vector_mcp_go.Paths.{is_abs, segments, dot_dot, paths_code}
use vector_mcp_go.Paths.Prefix.{close}
use vector_mcp_go.PathGuard.{
  FileSystem, symlink, other, directory, granted, Validator, validate_path, guard_code,
  check_symlinks,
}
use vector_mcp_go.PathGuard.Within.{validate_path-within}
use vector_mcp_go.PathGuard.Symlinks.{check_symlinks-relative}
use vector_mcp_go.PathGuard.Filename.{IsSafeName, sanitize_filename, sanitize_filename-IsSafeName}

abbrev plain_files : FileSystem
plain_files = record {
  cwd = codes "/srv";
  lstat = λ p. other;
  stat = λ p. directory;
  eval_symlinks = λ p. some p;
}

-- Absolute paths are symbolic links here.
abbrev linked_files : FileSystem
linked_files = record plain_files { lstat = λ p. if is_abs p then symlink else other }

abbrev project : Validator
project = record {
  base_path = codes "/srv/app";
  options = record { allow_symlinks = false; max_path_depth = 20; allow_absolute = true };
}

accepts_inside :
    validate_path plain_files project (codes "src/./x.go") ≡ granted (codes "/srv/app/src/x.go")
unfolding validate_path guard_code paths_code is_abs close
accepts_inside = refl

validate_path-within_example :
    (is_abs (codes "/srv/app/src/x.go") ≡ true)
    × ((rest : List Text) × (segments (codes "/srv/app/src/x.go")
          ≡ segments (codes "/srv/app") ++ rest)
        × ((project.options.max_path_depth ≡ 0) ⊎ (length rest ≤ 20)))
    × All (λ s. s ≢ dot_dot) (segments (codes "/srv/app/src/x.go"))
validate_path-within_example =
    validate_path-within plain_files project (codes "src/./x.go") (codes "/srv/app/src/x.go")
      (unfold is_abs in refl) keeps_absolute accepts_inside
  where
    keeps_absolute : (p q : Text) → is_abs p ≡ true → some p ≡ some q → is_abs q ≡ true
    keeps_absolute p q h e = cc

agree : (p : Text) → is_abs p ≡ false → linked_files.lstat p ≡ plain_files.lstat p
agree p h = rw h refl

-- No link is found in an absolute path, although each of its prefixes is one.
check_symlinks-relative_example :
    check_symlinks linked_files (codes "/srv/app") ≡ check_symlinks plain_files (codes "/srv/app")
check_symlinks-relative_example =
    check_symlinks-relative linked_files plain_files agree (codes "/srv/app")

sanitize_filename-IsSafeName_example : IsSafeName (sanitize_filename (codes "../etc/passwd"))
sanitize_filename-IsSafeName_example = sanitize_filename-IsSafeName (codes "../etc/passwd")

safe_name : IsSafeName (codes "a.go")
safe_name = record {
  plain = (
    (omega arith, omega arith, omega arith),
    (
      (omega arith, omega arith, omega arith),
      ((omega arith, omega arith, omega arith), ((omega arith, omega arith, omega arith), tt)),
    ),
  );
  starts = omega arith;
  short = omega arith;
}
