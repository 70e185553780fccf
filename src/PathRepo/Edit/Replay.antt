-- ===== src/PathRepo/Edit/Replay.antt =====
-- path_repo_commit_log() of src/path_repo.c, with pr_fetch_paths(): a revision is committed from its
-- log, and not from the delta editor.
pub mod Meaning
pub mod Added
pub mod Kept
use rsvndump.Base.{
  ℕ, zero, suc, ◌+◌, Text, ℤ, Bool, true, false, not, ◌&&◌, ◌||◌, ltb, ◌==◌, if◌then◌else◌, Option,
  none, some, List, [], ◌∷◌, ◌++◌, length, drop, Status, success, failure, ◌>>=◌,
}
use rsvndump.Apr.{AprHash, AprStrings}
use rsvndump.Critbit.{Critbit}
use rsvndump.Snappy.{Snappy}
use rsvndump.Log.{ChangedPath, LogRevision}
use rsvndump.Options.{DumpOptions}
use rsvndump.Ra.{Ra, NodeKind, node_file, node_dir, node_other}
use rsvndump.Utils.{utils_sort}
use rsvndump.Delta.CopyFrom.{delta_get_local_copyfrom_path, delta_get_local_copyfrom_rev}
use rsvndump.PathRepo.Codec.{pr_tree_to_array}
use rsvndump.PathRepo.{PathRepo, pr_tree}
use rsvndump.PathRepo.Edit.{path_repo_add, path_repo_delete, path_repo_commit}

-- the path of an entry of a directory
pub sub_path : Text → Text → Text
sub_path path entry = if ltb 0 (length path) then path ++ (b'/' ∷ entry) else entry

module _ ⦃ra : Ra⦄ where
  -- the loop of pr_fetch_paths_rec(); `below` is what the call for a subdirectory pushes
  pub fetch_entries : (Text → List Text) → Text → List (Text × NodeKind) → List Text
  unfolding sub_path
  fetch_entries below path [] = []
  fetch_entries below path ((entry, kind) ∷ l) =
      let rest = fetch_entries below path l in
      let subpath = sub_path path entry in
      elim kind [
        | node_file ↦ subpath ∷ rest
        | node_dir ↦ subpath ∷ (below subpath ++ rest)
        | node_other ↦ rest
      ]

  -- What a subdirectory answers is not looked at: the paths found before an error stay.
  pub pr_fetch_paths_rec : ℕ → Text → ℤ → Status × List Text
  unfolding fetch_entries
  pr_fetch_paths_rec zero path rev = (success, [])
  pr_fetch_paths_rec (suc depth) path rev = elim (ra.get_dir path rev) [
    | none ↦ (failure, [])
    | some dirents ↦ (success, fetch_entries (λ p. (pr_fetch_paths_rec depth p rev).1) path dirents)
  ]

  pub pr_fetch_paths : Text → ℤ → Status × List Text
  unfolding pr_fetch_paths_rec
  pr_fetch_paths path rev = elim (ra.stat path rev) [
    | none ↦ (failure, [])
    | some none ↦ (success, [])
    | some (some node_file) ↦ (success, path ∷ [])
    | some (some kind) ↦ let (s, l) = pr_fetch_paths_rec ra.depth path rev in (s, path ∷ l)
  ]

module _ ⦃apr : AprHash⦄ where
  -- the paths of the log, in order
  unfoldable pub changed_keys : List (Text × ChangedPath) → List Text
  changed_keys [] = []
  changed_keys ((key, v) ∷ l) = key ∷ changed_keys l

  unfoldable pub source_of :
      Text → DumpOptions → List LogRevision → ChangedPath → Option (Option Text × ℤ)
  source_of prefix opts logs info = info.copyfrom_path >>= λ p. some (
    delta_get_local_copyfrom_path prefix p,
    delta_get_local_copyfrom_rev info.copyfrom_rev opts logs,
  )

module _ ⦃apr : AprHash⦄ ⦃cb : Critbit⦄ where
  -- for (j = 0; ...) path_repo_add(...), whose answer is not looked at
  pub add_paths : PathRepo → List Text → PathRepo
  add_paths repo [] = repo
  add_paths repo (p ∷ l) = add_paths (path_repo_add repo p).1 l

-- the paths of a copy: the source is cut off and the target put before
pub moved_paths : Text → ℕ → List Text → List Text
moved_paths path source_len [] = []
moved_paths path source_len (p ∷ l) = (path ++ drop source_len p) ∷ moved_paths path source_len l

-- Where a single path is copied, it is the target. No path at all breaks an assertion.
pub copied_paths : Text → ℕ → List Text → Option (List Text)
unfolding moved_paths
copied_paths path source_len [] = none
copied_paths path source_len (p ∷ []) = some (path ∷ [])
copied_paths path source_len (p ∷ q ∷ l) = some (moved_paths path source_len (p ∷ q ∷ l))

module _ ⦃apr : AprHash⦄ ⦃strings : AprStrings⦄ ⦃cb : Critbit⦄ ⦃sn : Snappy⦄ ⦃ra : Ra⦄ where
  -- A copy from outside the prefix: the paths are fetched.
  pub add_fetched : PathRepo → Text → ℤ → Status × PathRepo
  unfolding pr_fetch_paths add_paths
  add_fetched repo path rev =
      let (s, paths) = pr_fetch_paths path rev in
      elim s [ failure ↦ (failure, repo) | success ↦ (success, add_paths repo paths) ]

  -- A copy from inside the prefix: the paths are those of the tree of the source's revision.
  pub add_copied : PathRepo → Text → Text → ℤ → Status × PathRepo
  unfolding copied_paths add_paths
  add_copied repo path copyfrom_path copyfrom_rev =
      let (found, repo') = pr_tree repo copyfrom_rev in
      elim found [
        | none ↦ (failure, repo')
        | some tree ↦
            elim (copied_paths path (length copyfrom_path) (pr_tree_to_array tree copyfrom_path)) [
              | none ↦ (failure, repo')
              | some paths ↦ (success, add_paths repo' paths)
            ]
      ]

  -- What 'A' and 'R' add. `source` is the copy source in the session, and its revision in the dump.
  unfoldable pub add_change : PathRepo → Text → ℤ → Option (Option Text × ℤ) → Status × PathRepo
  unfolding add_fetched add_copied
  add_change repo path rev none = (success, (path_repo_add repo path).1)
  add_change repo path rev (some (none, r)) = add_fetched repo path rev
  add_change repo path rev (some (some copyfrom_path, r)) = add_copied repo path copyfrom_path r

  -- one round of the loop over the sorted paths
  unfoldable pub replay_change :
      PathRepo → Text → ℤ → Option (Option Text × ℤ) → ChangedPath → Status × PathRepo
  unfolding add_change
  replay_change repo path rev source info =
      let repo' =
        if (info.action == b'D') || (info.action == b'R')
        then (path_repo_delete repo path).1
        else repo in
      elim ((info.action == b'A') || (info.action == b'R')) [
        | false ↦ (success, repo')
        | true ↦ add_change repo' path rev source
      ]

  -- the loop; a path that has no entry, which cannot be, is a failure
  unfoldable pub replay :
      PathRepo
      → Text
      → DumpOptions
      → List LogRevision
      → ℤ
      → apr.Hash ChangedPath
      → List Text
      → Status × PathRepo
  unfolding replay_change source_of
  replay repo prefix opts logs rev changed [] = (success, repo)
  replay repo prefix opts logs rev changed (path ∷ l) = elim (apr.get changed path) [
    | none ↦ (failure, repo)
    | some info ↦
        let (s, repo') = replay_change repo path rev (source_of prefix opts logs info) info in
        elim s [
          | failure ↦ (failure, repo')
          | success ↦ replay repo' prefix opts logs rev changed l
        ]
  ]

  pub path_repo_commit_log :
      PathRepo → Text → DumpOptions → LogRevision → ℤ → List LogRevision → Status × PathRepo
  unfolding replay changed_keys
  path_repo_commit_log repo prefix opts log revision logs = elim log.changed_paths [
    | none ↦ path_repo_commit repo revision
    | some changed ↦
        let (s, repo') =
          replay repo prefix opts logs log.revision changed
            (utils_sort (changed_keys (apr.entries changed))) in
        elim s [ failure ↦ (failure, repo') | success ↦ path_repo_commit repo' revision ]
  ]
