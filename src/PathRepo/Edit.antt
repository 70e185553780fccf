-- ===== src/PathRepo/Edit.antt =====
-- The global functions of src/path_repo.c on one repository: path_repo_add(), path_repo_delete(),
-- path_repo_commit(), path_repo_discard(), path_repo_exists() and path_repo_check_parent().
pub mod Schedule
pub mod Commit
pub mod Query
pub mod Stale
pub mod Replay
use rsvndump.Base.{
  leb, ℕ, zero, suc, ◌+◌, Text, ℤ, pos, negsuc, Bool, true, false, not, ◌&&◌, Option, none, some,
  List, [], ◌∷◌, ◌++◌, length, take, ◌==◌, if◌then◌else◌, Status, success, failure,
}
use rsvndump.Apr.{AprHash, AprStrings}
use rsvndump.Critbit.{Critbit}
use rsvndump.Snappy.{Snappy}
use rsvndump.Mukv.{Mukv, mukv_store}
use rsvndump.PathRepo.Codec.{DeltaEntry, pr_tree_to_array, pr_encode, encode_entries}
use rsvndump.PathRepo.{
  PathRepo, Answer, present, absent, unknown, is_snapshot, pr_reconstruct, pr_tree,
}

module _ ⦃apr : AprHash⦄ ⦃cb : Critbit⦄ where
  -- The delta has the path even where cb_tree_insert() does not insert it.
  unfoldable pub path_repo_add : PathRepo → Text → Status × PathRepo
  path_repo_add repo path =
      let (inserted, t) = cb.insert repo.tree path in
      (
        if inserted == 0 then success else failure,
        record repo {
          delta = repo.delta ++ record { action = b'+'; path = path } ∷ [];
          delta_len = repo.delta_len + (2 + length path);
          tree = t;
        },
      )

  -- the body of the loop in path_repo_delete()
  pub delete_path : PathRepo → Text → PathRepo
  delete_path repo p = record repo {
    delta = repo.delta ++ record { action = b'-'; path = p } ∷ [];
    delta_len = repo.delta_len + (2 + length p);
    tree = (cb.delete repo.tree p).1;
  }

  unfoldable pub delete_paths : PathRepo → List Text → PathRepo
  unfolding delete_path
  delete_paths repo [] = repo
  delete_paths repo (p ∷ l) = delete_paths (delete_path repo p) l

  unfoldable pub path_repo_delete : PathRepo → Text → Status × PathRepo
  unfolding delete_paths
  path_repo_delete repo path = (success, delete_paths repo (pr_tree_to_array repo.tree path))

module _ ⦃apr : AprHash⦄ ⦃strings : AprStrings⦄ ⦃cb : Critbit⦄ ⦃sn : Snappy⦄ where
  -- `val` before compression, with its `dsize`: the delta, or the whole tree for a snapshot.
  unfoldable pub revision_data : PathRepo → Bool → Text × ℕ
  revision_data repo snapshot =
      if snapshot then pr_encode repo.tree else (encode_entries repo.delta, repo.delta_len)

  -- snappy_compress() of the data; a read past its end counts as an error.
  unfoldable pub compressed : Text × ℕ → Option Text
  compressed (dptr, dsize) = if leb dsize (length dptr) then sn.compress (take dsize dptr) else none

  -- mukv_store() and what follows it; `c` is the compressed data
  unfoldable pub store_revision : PathRepo → ℤ → Text → Status × PathRepo
  store_revision repo revision c =
      let (s, db) = mukv_store repo.db (strings.itoa revision) c in
      elim s [
        | failure ↦ (failure, record repo { db = db })
        | success ↦ (success, record repo { db = db; head = revision; delta_len = 0; delta = [] })
      ]

  unfoldable pub commit_data : PathRepo → ℤ → Option Text → Status × PathRepo
  unfolding store_revision
  commit_data repo revision none = (failure, repo)
  commit_data repo revision (some c) = store_revision repo revision c

  unfoldable pub path_repo_commit : PathRepo → ℤ → Status × PathRepo
  unfolding commit_data revision_data compressed
  path_repo_commit repo revision =
      let snapshot = is_snapshot revision in
      if (repo.delta_len == 0) && not snapshot
      then (success, record repo { head = revision })
      else commit_data repo revision (compressed (revision_data repo snapshot))

  pub path_repo_discard : PathRepo → Status × PathRepo
  path_repo_discard repo =
      let (s, t, db) = pr_reconstruct repo.db (cb.tree_clear repo.tree) repo.head in
      (s, record repo { delta_len = 0; delta = []; tree = t; db = db })

  -- what both queries do with the tree of a revision that is not negative
  pub answer : Option cb.Tree → Text → Answer
  answer none path = unknown
  answer (some tree) path = if cb.contains tree path then present else absent

  pub query : PathRepo → Text → ℤ → Answer × PathRepo
  unfolding answer
  query repo path (negsuc n) = (absent, repo)
  query repo path (pos n) = let (t, repo') = pr_tree repo (pos n) in (answer t path, repo')

  pub path_repo_exists : PathRepo → Text → ℤ → Answer × PathRepo
  unfolding query
  path_repo_exists repo path revision = query repo path revision

  -- The path is put together by "%s/%s".
  pub path_repo_check_parent : PathRepo → Text → Text → ℤ → Answer × PathRepo
  unfolding query
  path_repo_check_parent repo parent child revision = query repo (parent ++ (b'/' ∷ child)) revision
