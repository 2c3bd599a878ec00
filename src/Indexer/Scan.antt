-- ===== src/Indexer/Scan.antt =====
-- internal/indexer/scanner.go: the files of a project, `ScanFiles` and the tests that it makes.
--
-- `filepath.Walk` is a walk through a tree: an entry that cannot be read ends it with the error,
-- a directory for which the callback returns `SkipDir` is left out.
use vector_mcp_go.Base.{
  ◌-◌, ◌≡◌, refl, sym, ap, ◌∙◌, Bool, true, false, ◌&&◌, ◌||◌, not, Option, none, some, List, [],
  ◌∷◌, ◌++◌, map, length, drop, any, keep, leb, if◌then◌else◌, Bool-cases, inl, inr,
}
use vector_mcp_go.Base.Text.{Text, codes, text_eq}
use vector_mcp_go.Indexer.{Entry, file, dir, unreadable, Entries, end, and_then, Host}
use vector_mcp_go.Lexical.{or_else}
use vector_mcp_go.Store.{Reply, failed, ok, Collection}

abbrev pub allow_exts : List Text
allow_exts =
    codes ".ts"
    ∷ codes ".tsx"
    ∷ codes ".js"
    ∷ codes ".jsx"
    ∷ codes ".prisma"
    ∷ codes ".json"
    ∷ codes ".css"
    ∷ codes ".html"
    ∷ codes ".md"
    ∷ codes ".env"
    ∷ codes ".yml"
    ∷ codes ".yaml"
    ∷ codes ".go"
    ∷ codes ".py"
    ∷ codes ".rs"
    ∷ codes ".sh"
    ∷ codes ".txt"
    ∷ codes ".pdf"
    ∷ []

abbrev ignored_dirs : List Text
ignored_dirs =
    codes "node_modules"
    ∷ codes ".git"
    ∷ codes ".next"
    ∷ codes ".turbo"
    ∷ codes "dist"
    ∷ codes "build"
    ∷ codes "generated"
    ∷ codes "coverage"
    ∷ codes "out"
    ∷ codes "vendor"
    ∷ codes ".vector-db"
    ∷ codes ".data"
    ∷ []

abbrev ignored_exact_files : List Text
ignored_exact_files =
    codes "package-lock.json" ∷ codes "pnpm-lock.yaml" ∷ codes "yarn.lock" ∷ codes "go.sum" ∷ []

abbrev ignored_suffixes : List Text
ignored_suffixes =
    codes ".map"
    ∷ codes ".min.js"
    ∷ codes ".svg"
    ∷ codes ".png"
    ∷ codes ".jpg"
    ∷ codes ".jpeg"
    ∷ codes ".gif"
    ∷ codes ".ico"
    ∷ codes ".pdf"
    ∷ []

-- A file and the directories above it, each with its name and its path.
pub record Place : Type 0 where
  pub above : List (Text × Text)
  pub name : Text
  pub path : Text

-- What a walk hands back: the files so far, and the error that ended it.
abbrev pub Walked : Type 0
Walked = List Text × Option Text

abbrev pub then_walk : Walked → Walked → Walked
then_walk (files, some e) rest = (files, some e)
then_walk (files, none) rest = (files ++ rest.0, rest.1)

module _ (col : Collection) (host : Host col) where
  open host use {root, filepath_rel, ext, join, equal_fold, listing, exists, compile_ignore_file}

  unfoldable pub is_ignored_dir : Text → Bool
  is_ignored_dir name = any (text_eq name) ignored_dirs

  -- `len(name) >= len(s)` and the end of the name equal to `s` but for case.
  ends_folded : Text → Text → Bool
  ends_folded name s =
      leb (length s) (length name) && equal_fold (drop (length name - length s) name) s

  unfoldable pub is_ignored_file : Text → Bool
  unfolding ends_folded
  is_ignored_file name =
      any (equal_fold name) ignored_exact_files || any (ends_folded name) ignored_suffixes

  unfoldable pub init_ignorer : Option (Text → Bool)
  init_ignorer =
      if exists (join root (codes ".vector-ignore"))
      then compile_ignore_file (join root (codes ".vector-ignore"))
      else if exists (join root (codes ".gitignore"))
      then compile_ignore_file (join root (codes ".gitignore"))
      else none

  module _ (ignorer : Option (Text → Bool)) where
    -- `ignorer != nil && ignorer.MatchesPath(relPath)`
    unfoldable pub matches_path : Text → Bool
    matches_path path = elim ignorer [
      | none ↦ false
      | some ignores ↦ ignores (or_else (filepath_rel root path) [])
    ]

    unfoldable pub skips_dir : Text → Text → Bool
    skips_dir name path = is_ignored_dir name || matches_path path

    unfoldable pub takes_file : Text → Text → Bool
    takes_file name path =
        if is_ignored_file name || matches_path path
        then false
        else any (text_eq (ext path)) allow_exts

    unfoldable mutual
      -- The callback of `walkFiles` at an entry of the directory `path`, and what lies under it.
      pub walk_entry : Text → Entry → Walked
      walk_entry path (file name) =
          if takes_file name (join path name) then (join path name ∷ [], none) else ([], none)
      walk_entry path (dir name entries) =
          let under = walk_entries (join path name) entries in
          if skips_dir name (join path name) then ([], none) else under
      walk_entry path (unreadable e) = ([], some e)

      pub walk_entries : Text → Entries → Walked
      walk_entries path end = ([], none)
      walk_entries path (and_then entry entries) =
          then_walk (walk_entry path entry) (walk_entries path entries)

    unfoldable walk_listing : Reply Text Entries → Walked
    unfolding walk_entries walk_entry
    walk_listing (failed e) = ([], some e)
    walk_listing (ok entries) = walk_entries root entries

    unfoldable pub walk_files : Walked
    unfolding walk_listing
    walk_files = walk_listing listing

    -- Every file of a tree, whatever the callback says of it.
    unfoldable mutual
      pub places_entry : List (Text × Text) → Text → Entry → List Place
      places_entry above path (file name) =
          (record { above = above; name = name; path = join path name }) ∷ []
      places_entry above path (dir name entries) =
          places ((name, join path name) ∷ above) (join path name) entries
      places_entry above path (unreadable e) = []

      pub places : List (Text × Text) → Text → Entries → List Place
      places above path end = []
      places above path (and_then entry entries) =
          places_entry above path entry ++ places above path entries

    abbrev pub is_skipped : List (Text × Text) → Bool
    is_skipped above = any (λ d. skips_dir d.0 d.1) above

    -- A file to index: no directory above it is skipped, and the callback takes it.
    abbrev is_wanted : Place → Bool
    is_wanted p = not (is_skipped p.above) && takes_file p.name p.path

    -- The same, written out: no directory above the file is ignored by its name or its path, and
    -- the file is neither, and has an allowed extension.
    abbrev pub is_indexable : Place → Bool
    is_indexable p =
        not (any (λ d. is_ignored_dir d.0 || matches_path d.1) p.above)
        && (not (is_ignored_file p.name)
            && (not (matches_path p.path) && any (text_eq (ext p.path)) allow_exts))

    unless_ignored :
        (a i m e : Bool) → (a && (if i || m then false else e)) ≡ (a && (not i && (not m && e)))
    unless_ignored a true m e = refl
    unless_ignored a false true e = refl
    unless_ignored a false false e = refl

    wanted-indexable : (p : Place) → is_wanted p ≡ is_indexable p
    unfolding skips_dir takes_file
    wanted-indexable p =
        unless_ignored (not (any (λ d. is_ignored_dir d.0 || matches_path d.1) p.above))
          (is_ignored_file p.name) (matches_path p.path) (any (text_eq (ext p.path)) allow_exts)

    or_true : (b : Bool) → (b || true) ≡ true
    or_true true = refl
    or_true false = refl

    keep_append :
        (ps qs : List Place) → keep is_wanted (ps ++ qs) ≡ keep is_wanted ps ++ keep is_wanted qs
    keep_append [] qs = refl
    keep_append (p ∷ ps) qs = elim (Bool-cases (is_wanted p)) [
      | inl e ↦ rw (e, keep_append ps qs) refl
      | inr e ↦ rw e (keep_append ps qs)
    ]

    mutual
      unfolding places places_entry

      places-skipped_entry :
          (above : List (Text × Text)) (path : Text) (entry : Entry)
          → is_skipped above ≡ true
          → keep is_wanted (places_entry above path entry) ≡ []
      places-skipped_entry above path (file name) h = rw h refl
      places-skipped_entry above path (dir name entries) h =
          places-skipped ((name, join path name) ∷ above) (join path name) entries
            (rw h (or_true (skips_dir name (join path name))))
      places-skipped_entry above path (unreadable e) h = refl

      places-skipped :
          (above : List (Text × Text)) (path : Text) (entries : Entries)
          → is_skipped above ≡ true
          → keep is_wanted (places above path entries) ≡ []
      places-skipped above path end h = refl
      places-skipped above path (and_then entry entries) h =
          rw
            (
              keep_append (places_entry above path entry) (places above path entries),
              places-skipped_entry above path entry h,
              places-skipped above path entries h,
            )
            refl

    then_walk-ok : (w v : Walked) → (then_walk w v).1 ≡ none → (w.1 ≡ none) × (v.1 ≡ none)
    then_walk-ok (files, some e) v h = cc
    then_walk-ok (files, none) v h = (refl, h)

    then_walk-files : (w v : Walked) → w.1 ≡ none → (then_walk w v).0 ≡ w.0 ++ v.0
    then_walk-files (files, some e) v h = cc
    then_walk-files (files, none) v h = refl

    map_append :
        (ps qs : List Place)
        → map (λ p. p.path) (ps ++ qs) ≡ map (λ p. p.path) ps ++ map (λ p. p.path) qs
    map_append [] qs = refl
    map_append (p ∷ ps) qs = ap (◌∷◌ p.path) (map_append ps qs)

    walk_entry-dir :
        (path name : Text) (entries : Entries)
        → skips_dir name (join path name) ≡ false
        → walk_entry path (dir name entries) ≡ walk_entries (join path name) entries
    unfolding walk_entry walk_entries
    walk_entry-dir path name entries h = rw h refl

    mutual
      unfolding places places_entry walk_entry walk_entries

      walk_entry-places :
          (above : List (Text × Text)) (path : Text) (entry : Entry)
          → is_skipped above ≡ false
          → (walk_entry path entry).1 ≡ none
          → (walk_entry path entry).0
            ≡ map (λ p. p.path) (keep is_wanted (places_entry above path entry))
      walk_entry-places above path (file name) h e =
          elim (Bool-cases (takes_file name (join path name))) [
            | inl k ↦ rw (h, k) refl
            | inr k ↦ rw (h, k) refl
          ]
      walk_entry-places above path (dir name entries) h e =
          elim (Bool-cases (skips_dir name (join path name))) [
            | inl k ↦
                rw
                  (
                    k,
                    places-skipped ((name, join path name) ∷ above) (join path name) entries
                        (rw k refl),
                  )
                  refl
            | inr k ↦
                ap (λ w. w.0) (walk_entry-dir path name entries k)
                ∙ walk_entries-places ((name, join path name) ∷ above) (join path name) entries
                    (rw (k, h) refl) (sym (ap (λ w. w.1) (walk_entry-dir path name entries k)) ∙ e)
          ]
      walk_entry-places above path (unreadable err) h e = cc

      walk_entries-places :
          (above : List (Text × Text)) (path : Text) (entries : Entries)
          → is_skipped above ≡ false
          → (walk_entries path entries).1 ≡ none
          → (walk_entries path entries).0
            ≡ map (λ p. p.path) (keep is_wanted (places above path entries))
      walk_entries-places above path end h e = refl
      walk_entries-places above path (and_then entry entries) h e =
          let oks = then_walk-ok (walk_entry path entry) (walk_entries path entries) e in
          rw
            (
              then_walk-files (walk_entry path entry) (walk_entries path entries) oks.0,
              keep_append (places_entry above path entry) (places above path entries),
              map_append (keep is_wanted (places_entry above path entry))
                  (keep is_wanted (places above path entries)),
              walk_entry-places above path entry h oks.0,
              walk_entries-places above path entries h oks.1,
            )
            refl

    -- Where the walk ends without an error, it hands back, in order, the paths of exactly the files
    -- that it should index: every file of the tree above which no directory is ignored by its name
    -- or its path, which is not itself ignored, and which has an allowed extension.
    pub walk_files-places :
        (entries : Entries)
        → listing ≡ ok entries
        → walk_files.1 ≡ none
        → walk_files.0 ≡ map (λ p. p.path) (keep is_indexable (places [] root entries))
    unfolding walk_files walk_listing
    walk_files-places entries h e =
        ap (λ l. (walk_listing l).0) h
        ∙ walk_entries-places [] root entries refl (sym (ap (λ l. (walk_listing l).1) h) ∙ e)
        ∙ ap (λ p. map (λ q. q.path) (keep p (places [] root entries)))
            (λ i p. wanted-indexable p i)
