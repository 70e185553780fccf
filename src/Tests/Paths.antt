-- ===== src/Tests/Paths.antt =====
-- The path repository, on an empty file.
use rsvndump.Base.{
  text_eq_iff, ℕ, Text, text_eq, IsText, pos, negsuc, ◌≡◌, ◌↔◌, refl, subst, true, false, not, ◌&&◌,
  ◌||◌, some, List, [], ◌∷◌, codes, length, arith, success, failure,
}
use rsvndump.Samples.{list_hash, byte_strings, list_tree, copying, new_file}
use rsvndump.Stdio.{File}
use rsvndump.Mukv.{mukv_open, mukv_store}
use rsvndump.Tests.Store.{store_on}
use rsvndump.Mukv.View.{Fits}
use rsvndump.Critbit.{elem}
use rsvndump.PathRepo.{PathRepo, CacheEntry, path_repo_create, pr_reconstruct, is_snapshot}
use rsvndump.PathRepo.Codec.{
  DeltaEntry, encode_entries, pr_tree_to_array, pr_delta_apply, pr_encode,
}
use rsvndump.PathRepo.Codec.RoundTrip.{
  PathSet, after, IsDelta, Shows, pr_delta_apply-encode_entries,
}
use rsvndump.PathRepo.Codec.Children.{below, elem-pr_tree_to_array}
use rsvndump.PathRepo.Codec.Snapshot.{Encodes, pr_encode-Encodes}
use rsvndump.PathRepo.Rebuild.{no_paths, Rebuilt, pr_reconstruct-Rebuilt}
use rsvndump.PathRepo.History.{IsHistory, latest, path_repo_create-IsHistory}
use rsvndump.PathRepo.Edit.{
  path_repo_add, path_repo_delete, path_repo_commit, path_repo_discard, path_repo_exists,
  path_repo_check_parent, revision_data, commit_data, store_revision,
}
use rsvndump.PathRepo.Edit.Schedule.{path_repo_add-IsHistory, path_repo_delete-IsHistory}
use rsvndump.PathRepo.Edit.Query.{shown, path_repo_exists-hist}
use rsvndump.PathRepo.Edit.Stale.{path_repo_exists_stale}
use rsvndump.PathRepo.Edit.Commit.{next}
use rsvndump.PathRepo.Edit.Commit.Outcome.{
  payload, path_repo_commit-IsHistory, Untouched, path_repo_commit_failed-Untouched,
  path_repo_discard-IsHistory,
}

abbrev pub nothing : ℕ → PathSet
nothing _ = no_paths

path_repo_create-IsHistory_example :
    (repo : PathRepo) × (path_repo_create (some new_file) ≡ some repo) × IsHistory repo nothing 1
path_repo_create-IsHistory_example = path_repo_create-IsHistory new_file 1 refl (omega arith)

abbrev pub vacant : CacheEntry
vacant = record { revision = negsuc 0; tree = [] }

-- On a device with room for so many bytes.
abbrev pub file_of : ℕ → File
file_of room = record new_file { room = room }

abbrev pub fresh_repo : ℕ → PathRepo
fresh_repo room = record {
  db = store_on (file_of room);
  delta = [];
  delta_len = 0;
  tree = [];
  head = pos 0;
  cache = vacant ∷ vacant ∷ vacant ∷ vacant ∷ [];
  cache_index = 0;
}

fresh_repo-created : (room : ℕ) → path_repo_create (some (file_of room)) ≡ some (fresh_repo room)
unfolding path_repo_create mukv_open
fresh_repo-created room = refl

pub fresh_repo-IsHistory : (room : ℕ) → IsHistory (fresh_repo room) nothing 1
fresh_repo-IsHistory room =
    let (repo, made, i) = path_repo_create-IsHistory (file_of room) 1 refl (omega arith) in
    let same : repo ≡ fresh_repo room = cc (made, fresh_repo-created room) in
    subst (λ (x : PathRepo). IsHistory x nothing 1) same i

a-IsText : IsText (codes "a")
a-IsText = omega arith

abbrev added : ℕ → PathRepo
added room = (path_repo_add (fresh_repo room) (codes "a")).1

added-IsHistory : (room : ℕ) → IsHistory (added room) nothing 1
added-IsHistory room =
    (path_repo_add-IsHistory (fresh_repo room) nothing 1 (codes "a") (fresh_repo-IsHistory room)
      a-IsText).0

payload-added : (room : ℕ) → payload (added room) 1 ≡ b'+' ∷ b'a' ∷ 0 ∷ []
unfolding revision_data is_snapshot path_repo_add encode_entries
payload-added room = refl

path_repo_add-IsHistory_example :
    IsHistory (added 99) nothing 1
    × ((q : Text) → elem q (added 99).tree ≡ text_eq (codes "a") q || elem q (fresh_repo 99).tree)
    × (((path_repo_add (fresh_repo 99) (codes "a")).0 ≡ success)
        ↔ (elem (codes "a") (fresh_repo 99).tree ≡ false))
path_repo_add-IsHistory_example =
    path_repo_add-IsHistory (fresh_repo 99) nothing 1 (codes "a") (fresh_repo-IsHistory 99) a-IsText

path_repo_delete-IsHistory_example :
    IsHistory (path_repo_delete (added 99) (codes "a")).1 nothing 1
    × ((q : Text)
        → IsText q
        → elem q (path_repo_delete (added 99) (codes "a")).1.tree
          ≡ elem q (added 99).tree && not (below (codes "a") q))
    × ((path_repo_delete (added 99) (codes "a")).0 ≡ success)
path_repo_delete-IsHistory_example =
    path_repo_delete-IsHistory (added 99) nothing 1 (codes "a") (added-IsHistory 99)

added-Fits : Fits (added 99).db (payload (added 99) 1)
unfolding revision_data is_snapshot path_repo_add encode_entries
added-Fits = omega arith

abbrev committed_once : PathRepo
committed_once = (path_repo_commit (added 99) (pos 1)).1

path_repo_commit-IsHistory_example :
    ((path_repo_commit (added 99) (pos 1)).0 ≡ success)
    × IsHistory committed_once (next (added 99) nothing 1) 2
path_repo_commit-IsHistory_example =
    path_repo_commit-IsHistory (added 99) nothing 1 (payload (added 99) 1) (added-IsHistory 99) refl
      added-Fits

-- The commit does not fit on the device.
added_commit_fails : (path_repo_commit (added 1) (pos 1)).0 ≡ failure
unfolding path_repo_commit commit_data store_revision revision_data is_snapshot path_repo_add
    encode_entries mukv_store
added_commit_fails = refl

path_repo_commit_failed-Untouched_example :
    Untouched (added 1) nothing 1 (path_repo_commit (added 1) (pos 1)).1
path_repo_commit_failed-Untouched_example =
    path_repo_commit_failed-Untouched (added 1) nothing 1 (added-IsHistory 1) added_commit_fails

path_repo_discard-IsHistory_example :
    ((path_repo_discard (added 99)).0 ≡ success)
    × IsHistory (path_repo_discard (added 99)).1 nothing 1
    × Shows (path_repo_discard (added 99)).1.tree no_paths
    × ((path_repo_discard (added 99)).1.delta ≡ [])
path_repo_discard-IsHistory_example =
    path_repo_discard-IsHistory (added 99) nothing 0 (added-IsHistory 99)

committed_once-IsHistory : IsHistory committed_once (next (added 99) nothing 1) 2
committed_once-IsHistory =
    (path_repo_commit-IsHistory (added 99) nothing 1 (payload (added 99) 1) (added-IsHistory 99)
      refl added-Fits).1

path_repo_exists-hist_example :
    ((path_repo_exists committed_once (codes "a") (pos 1)).0
      ≡ shown (next (added 99) nothing 1 1 (codes "a")))
    × IsHistory
        (path_repo_exists committed_once (codes "a") (pos 1)).1
        (next (added 99) nothing 1)
        2
    × ((path_repo_check_parent committed_once (codes "a") (codes "b") (pos 1)).0
        ≡ shown (next (added 99) nothing 1 1 (codes "a/b")))
    × IsHistory
        (path_repo_check_parent committed_once (codes "a") (codes "b") (pos 1)).1
        (next (added 99) nothing 1)
        2
path_repo_exists-hist_example =
    path_repo_exists-hist committed_once (next (added 99) nothing 1) 2 1 (codes "a") (codes "a")
      (codes "b") committed_once-IsHistory (omega arith)

plain_one : is_snapshot (pos 1) ≡ false
unfolding is_snapshot
plain_one = refl

abbrev asked_early : PathRepo
asked_early = (path_repo_exists (fresh_repo 99) (codes "a") (pos 1)).1

abbrev edited_late : PathRepo
edited_late = (path_repo_add asked_early (codes "a")).1

add_keeps_cache : (repo : PathRepo) (p : Text) → (path_repo_add repo p).1.cache ≡ repo.cache
unfolding path_repo_add
add_keeps_cache repo p = refl

path_repo_exists_stale_example :
    (path_repo_exists (path_repo_commit edited_late (pos 1)).1 (codes "a") (pos 1)).0
    ≡ shown (latest nothing 1 (codes "a"))
path_repo_exists_stale_example =
    path_repo_exists_stale (fresh_repo 99) edited_late nothing 1 (codes "a") (codes "a")
      (fresh_repo-IsHistory 99) plain_one (add_keeps_cache asked_early (codes "a"))

pr_reconstruct-Rebuilt_example :
    Rebuilt
      (pr_reconstruct committed_once.db [] (pos 1))
      committed_once.db
      (next (added 99) nothing 1 1)
pr_reconstruct-Rebuilt_example =
    pr_reconstruct-Rebuilt committed_once.db [] (next (added 99) nothing 1) 2 1
      committed_once-IsHistory.db_valid committed_once-IsHistory.records (omega arith) (λ q. refl)

abbrev two_actions : List DeltaEntry
two_actions =
    record { action = b'+'; path = codes "a" } ∷ record { action = b'-'; path = codes "b" } ∷ []

two_actions-IsDelta : IsDelta two_actions
two_actions-IsDelta = omega arith

abbrev only_b : List Text
only_b = codes "b" ∷ []

pr_delta_apply-encode_entries_example :
    (t : List Text) × (pr_delta_apply only_b
        (encode_entries two_actions)
        (length (encode_entries two_actions))
      ≡ some t)
    × Shows t (after two_actions (λ q. elem q only_b))
pr_delta_apply-encode_entries_example =
    pr_delta_apply-encode_entries two_actions only_b (λ q. elem q only_b) two_actions-IsDelta
      (λ q. refl)

only_b_texts : (q : Text) → elem q only_b ≡ true → IsText q
only_b_texts q e =
    let same : codes "b" ≡ q = ground (arith, text_eq_iff (codes "b") q) in
    subst (λ (x : Text). IsText x) same (omega arith)

pr_encode-Encodes_example : Encodes (pr_encode only_b) (λ _. false) (λ q. elem q only_b)
pr_encode-Encodes_example = pr_encode-Encodes only_b only_b_texts

elem-pr_tree_to_array_example :
    elem (codes "b") (pr_tree_to_array only_b []) ≡ elem (codes "b") only_b && below [] (codes "b")
elem-pr_tree_to_array_example = elem-pr_tree_to_array only_b [] (codes "b") (omega arith)
