-- ===== src/Indexer/Fresh.antt =====
-- internal/indexer/scanner.go: after a run, the store knows every file by the hash that it has.
use mathlib.Core.Bool.{true≢false}
use vector_mcp_go.Base.{
  ◌≡◌, refl, sym, ap, ◌∙◌, Bool, true, false, ◌&&◌, not, ◌⊎◌, inl, inr, Option, none, some, List,
  [], ◌∷◌, map, any, keep, length, Bool-cases,
}
use vector_mcp_go.Base.Maps.{find}
use vector_mcp_go.Base.Text.{Text, text_eq, text_eq→eq, text_eq_refl, text_dec}
use vector_mcp_go.Indexer.Collected.{collect_results-IsCurrent}
use vector_mcp_go.Indexer.Discovery.{discover_files_to_index_lem}
use vector_mcp_go.Indexer.Held.{
  IsCurrent, any-keep_none, or_none, or_none_head, or_none_tail, or_true, delete_by_path-outdated,
  delete_by_path-stored, set_status-outdated, set_status-stored,
}
use vector_mcp_go.Indexer.Made.{is_spoilt, is_own, process_file-spoilt, process_file-path}
use vector_mcp_go.Indexer.Mapping.{or_left_or}
use vector_mcp_go.Indexer.Run.{
  Task, Summary, start, is_up_to_date, discover_files_to_index, delete_stale, cleanup_stale_files,
  process_indexing, mapping_of, index_found, index_files,
}
use vector_mcp_go.Indexer.Unique.{IsUnique, find-IsCurrent, and_intro}
use vector_mcp_go.Indexer.{Host, FileResult, get_relative_path, current_hash, process_file}
use vector_mcp_go.Store.Filters.{any-keep, any-map}
use vector_mcp_go.Store.{Metadata, Collection, IsCollection, Store, delete_by_path}

-- What a run needs of the channel of results: each sent result arrives, and no other.
pub record IsArrival {V : Type 0} (arrive : List (FileResult V) → List (FileResult V))
    : Type 0 where
  pub any-arrive :
      (p : FileResult V → Bool) (rs : List (FileResult V)) → any p (arrive rs) ≡ any p rs

module _ {A : Type 0} (p q : A → Bool) where
  any_none_by :
      ((x : A) → q x ≡ false → p x ≡ false) → (xs : List A) → any q xs ≡ false → any p xs ≡ false
  any_none_by f [] h = refl
  any_none_by f (x ∷ xs) h =
      or_none (p x) (any p xs) (f x (or_none_head (q x) (any q xs) h))
        (any_none_by f xs (or_none_tail (q x) (any q xs) h))

  any_mono : ((x : A) → p x ≡ true → q x ≡ true) → (xs : List A) → any p xs ≡ true → any q xs ≡ true
  any_mono f [] h = h
  any_mono f (x ∷ xs) h = elim (or_left_or (p x) (any p xs) h) [
    | inl e ↦ rw (f x e) refl
    | inr e ↦ rw (any_mono f xs e) (or_true (q x))
  ]

-- Another file of the same relative path and with another hash.
abbrev pub is_clash : (col : Collection) → Host col → Text → Text → Bool
is_clash col host file other =
    text_eq (get_relative_path col host other) (get_relative_path col host file)
    && not (text_eq (current_hash col host other) (current_hash col host file))

module _ (col : Collection) (host : Host col) (laws : IsCollection col) where
  open col use {Vector, docs}
  open host use {root}

  abbrev results : List Task → List (FileResult Vector)
  results tasks = map (λ task. process_file col host task.0 task.1) tasks

  module _ (path hash : Text) where
    other_path :
        (present : List Text) (q : Text)
        → any (text_eq path) present ≡ true
        → any (text_eq q) present ≡ false
        → text_eq q path ≡ false
    other_path present q h k = elim (Bool-cases (text_eq q path)) [
      | inl e ↦
          absurd
            (true≢false (sym h ∙ sym (ap (λ t. any (text_eq t) present) (text_eq→eq q path e)) ∙ k))
      | inr e ↦ e
    ]

    delete_stale-IsCurrent :
        (present : List Text) (mapping : Metadata) (store : Store col) (summary : Summary)
        → any (text_eq path) present ≡ true
        → IsCurrent col host path hash (docs store.collection)
        → IsCurrent col host path hash
            (docs (delete_stale col host present mapping (store, summary)).0.collection)
    unfolding delete_stale
    delete_stale-IsCurrent present [] store summary h c = c
    delete_stale-IsCurrent present ((q, k) ∷ mapping) store summary h c =
        elim (Bool-cases (any (text_eq q) present)) [
          | inl e ↦ rw e (delete_stale-IsCurrent present mapping store summary h c)
          | inr e ↦ rw e (
              delete_stale-IsCurrent present mapping (delete_by_path col q root store).0 _ h (
                delete_by_path-outdated col host path hash laws q store c.0,
                delete_by_path-stored col host path hash laws q store (other_path present q h e)
                    ∙ c.1,
              ))
        ]

    index_found-IsCurrent :
        (arrive : List (FileResult Vector) → List (FileResult Vector))
        → IsArrival arrive
        → (tasks : List Task) (store : Store col) (summary : Summary) (progress : Option Metadata)
        → any (is_spoilt col host path hash) (results tasks) ≡ false
        → (IsCurrent col host path hash (docs store.collection))
          ⊎ (any (is_own col host path hash) (results tasks) ≡ true)
        → IsCurrent col host path hash
            (docs (index_found col host arrive tasks (store, summary) progress).store.collection)
    unfolding index_found process_indexing
    index_found-IsCurrent arrive ar [] store summary progress h (inl c) = (
      set_status-outdated col host path hash laws _ store c.0,
      set_status-stored col host path hash laws _ store c.1,
    )
    index_found-IsCurrent arrive ar [] store summary progress h (inr e) = cc
    index_found-IsCurrent arrive ar (task ∷ tasks) store summary progress h c =
        collect_results-IsCurrent col host path hash laws _ 0 (arrive (results (task ∷ tasks)))
          (record { store = store; summary = summary; progress = progress }) [] refl
          (ar.any-arrive _ (results (task ∷ tasks)) ∙ h)
          (elim c [ inl k ↦ inl k | inr k ↦ inr (ar.any-arrive _ (results (task ∷ tasks)) ∙ k) ])

  module _ (file : Text) where
    abbrev rel : Text
    rel = get_relative_path col host file

    abbrev hash_now : Text
    hash_now = current_hash col host file

    abbrev task_of : Text → Task
    task_of path = (path, current_hash col host path)

    any_file :
        (p : Text → Bool) (files : List Text)
        → any (text_eq file) files ≡ true
        → p file ≡ true
        → any p files ≡ true
    any_file p files h e =
        any_mono (text_eq file) p (λ x k. sym (ap p (text_eq→eq file x k)) ∙ e) files h

    up_to_date-find :
        (o : Option Text)
        → (elim o [ none ↦ false | some existing ↦ text_eq existing hash_now ]) ≡ true
        → o ≡ some hash_now
    up_to_date-find none h = cc
    up_to_date-find (some existing) h = ap some (text_eq→eq existing hash_now h)

    is_up_to_date-find :
        (mapping : Metadata)
        → is_up_to_date col host mapping file ≡ true
        → find text_dec rel mapping ≡ some hash_now
    unfolding is_up_to_date
    is_up_to_date-find mapping h = up_to_date-find (find text_dec rel mapping) h

    pub find-is_up_to_date :
        (mapping : Metadata)
        → find text_dec rel mapping ≡ some hash_now
        → is_up_to_date col host mapping file ≡ true
    unfolding is_up_to_date
    find-is_up_to_date mapping h =
        ap (λ o. elim o [ none ↦ false | some existing ↦ text_eq existing hash_now ]) h
        ∙ text_eq_refl hash_now

    results-spoilt :
        (files : List Text) (mapping : Metadata)
        → any (is_clash col host file) files ≡ false
        → any
            (is_spoilt col host rel hash_now)
            (results (discover_files_to_index col host files mapping).0)
          ≡ false
    results-spoilt files mapping h =
        ap (λ tasks. any (is_spoilt col host rel hash_now) (results tasks))
          (discover_files_to_index_lem col host files mapping).0
        ∙ any-map (λ task. process_file col host task.0 task.1) (is_spoilt col host rel hash_now)
            (map task_of (keep (λ path. not (is_up_to_date col host mapping path)) files))
        ∙ any-map task_of
            (λ task. is_spoilt col host rel hash_now (process_file col host task.0 task.1))
            (keep (λ path. not (is_up_to_date col host mapping path)) files)
        ∙ any-keep_none
            (λ path.
              is_spoilt col host rel hash_now
                (process_file col host path (current_hash col host path)))
            (λ path. not (is_up_to_date col host mapping path)) files
            (any_none_by _ (is_clash col host file)
              (λ g e. process_file-spoilt col host rel hash_now g (current_hash col host g) e) files
              h)

    -- A file that is not up to date is among the results.
    results-own :
        (files : List Text) (mapping : Metadata)
        → any (text_eq file) files ≡ true
        → is_up_to_date col host mapping file ≡ false
        → (process_file col host file hash_now).indexed ≡ true
        → any
            (is_own col host rel hash_now)
            (results (discover_files_to_index col host files mapping).0)
          ≡ true
    results-own files mapping h e k =
        ap (λ tasks. any (is_own col host rel hash_now) (results tasks))
          (discover_files_to_index_lem col host files mapping).0
        ∙ any-map (λ task. process_file col host task.0 task.1) (is_own col host rel hash_now)
            (map task_of (keep (λ path. not (is_up_to_date col host mapping path)) files))
        ∙ any-map task_of
            (λ task. is_own col host rel hash_now (process_file col host task.0 task.1))
            (keep (λ path. not (is_up_to_date col host mapping path)) files)
        ∙ any-keep
            (λ path.
              is_own col host rel hash_now
                (process_file col host path (current_hash col host path)))
            (λ path. not (is_up_to_date col host mapping path)) files
        ∙ any_file _ files h (
            and_intro _ _ (rw e refl) (
              and_intro (process_file col host file hash_now).indexed _ k (
                ap (λ t. text_eq t rel) (process_file-path col host file hash_now k)
                ∙ text_eq_refl rel)))

    -- After a run over files that include this one, which could be indexed, the store knows it by
    -- its current hash, where no other file has its relative path and another hash and the run
    -- found each file record of the project under its own name.
    pub index_files-IsCurrent :
        (arrive : List (FileResult Vector) → List (FileResult Vector))
        → IsArrival arrive
        → (files : List Text) (store : Store col) (progress : Option Metadata)
        → IsUnique col host (docs store.collection)
        → any (text_eq file) files ≡ true
        → any (is_clash col host file) files ≡ false
        → (process_file col host file hash_now).indexed ≡ true
        → IsCurrent col host rel hash_now
            (docs (index_files col host arrive files store progress).store.collection)
    unfolding index_files cleanup_stale_files
    index_files-IsCurrent arrive ar files store progress u h c k =
        let mapping = mapping_of col host store in
        let (tasks, skipped) = discover_files_to_index col host files mapping in
        let found : Summary = record (start col host) {
          files_processed = length files;
          files_skipped = skipped;
        } in
        let (cleaned, summary) = cleanup_stale_files col host files mapping (store, found) in
        index_found-IsCurrent rel hash_now arrive ar tasks cleaned summary progress
          (results-spoilt files mapping c)
          (elim (Bool-cases (is_up_to_date col host mapping file)) [
            | inl e ↦ inl (
                delete_stale-IsCurrent rel hash_now (map (get_relative_path col host) files) mapping
                  store found
                  (any-map (get_relative_path col host) (text_eq rel) files
                    ∙ any_file (λ g. text_eq rel (get_relative_path col host g)) files h
                        (text_eq_refl rel))
                  (find-IsCurrent col host rel hash_now laws store u
                    (is_up_to_date-find mapping e)))
            | inr e ↦ inr (results-own files mapping h e k)
          ])
