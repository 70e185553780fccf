-- ===== src/Tests/Replays.antt =====
-- Sorting, and a revision committed from its log.
use rsvndump.Base.{
  starts_with, Text, text_eq, text_eq_iff, IsText, pos, ◌≡◌, refl, subst, true, none, some, List,
  [], ◌∷◌, codes, arith, success, Bool-cases, inl, inr,
}
use rsvndump.Samples.{
  list_hash, byte_strings, list_tree, copying, first_ones, with_prefix, list_insert,
}
use rsvndump.Critbit.{elem}
use rsvndump.Log.{ChangedPath, LogRevision}
use rsvndump.Options.{dump_options_create}
use rsvndump.Ra.{Ra}
use rsvndump.Utils.{utils_sort, insert_text, text_le}
use rsvndump.Utils.Sorted.{InOrder, SameTexts, less, swap, utils_sort-InOrder}
use rsvndump.PathRepo.History.{IsHistory, extend}
use rsvndump.PathRepo.Edit.Replay.{
  changed_keys, source_of, path_repo_commit_log, replay, replay_change, add_change,
}
use rsvndump.PathRepo.Edit.Replay.Meaning.{changes}
use rsvndump.Mukv.View.{Fits}
use rsvndump.PathRepo.Edit.Commit.Outcome.{payload}
use rsvndump.PathRepo.{PathRepo, is_snapshot}
use rsvndump.PathRepo.Edit.{revision_data, path_repo_add, path_repo_delete, delete_paths}
use rsvndump.PathRepo.Codec.{encode_entries, pr_tree_to_array, keep_children}
use rsvndump.PathRepo.Edit.Replay.Added.{IsLocal}
use rsvndump.PathRepo.Edit.Replay.Kept.{replayed, path_repo_commit_log-IsHistory}
use rsvndump.Tests.Paths.{nothing, fresh_repo, fresh_repo-IsHistory}

instance abbrev nobody : Ra
nobody = record { stat = λ p r. none; get_dir = λ p r. none; depth = 0 }

abbrev added_a : ChangedPath
added_a = record { action = b'A'; copyfrom_path = none; copyfrom_rev = pos 0 }

-- "a" is added, and "c" is replaced.
abbrev replaced_c : ChangedPath
replaced_c = record { action = b'R'; copyfrom_path = none; copyfrom_rev = pos 0 }

abbrev two_changes : List (Text × ChangedPath)
two_changes = (codes "c", replaced_c) ∷ (codes "a", added_a) ∷ []

abbrev log_two : LogRevision
log_two = record {
  revision = pos 5;
  author = none;
  date = none;
  message = none;
  changed_paths = some two_changes;
}

utils_sort-InOrder_example :
    InOrder (utils_sort (codes "b" ∷ codes "a" ∷ codes "b" ∷ []))
    × SameTexts
        (utils_sort (codes "b" ∷ codes "a" ∷ codes "b" ∷ []))
        (codes "b" ∷ codes "a" ∷ codes "b" ∷ [])
    × ((m : List Text)
        → InOrder m
        → SameTexts m (codes "b" ∷ codes "a" ∷ codes "b" ∷ [])
        → m ≡ utils_sort (codes "b" ∷ codes "a" ∷ codes "b" ∷ []))
utils_sort-InOrder_example = utils_sort-InOrder (codes "b" ∷ codes "a" ∷ codes "b" ∷ [])

keys-texts : (q : Text) → elem q (codes "c" ∷ codes "a" ∷ []) ≡ true → IsText q
keys-texts q e = elim (Bool-cases (text_eq (codes "c") q)) [
  | inl h ↦ subst IsText ((text_eq_iff (codes "c") q).0 h) (omega arith)
  | inr h ↦ subst IsText ((text_eq_iff (codes "a") q).0 (ground (arith, e, h))) (omega arith)
]

two_changes-texts :
    (q : Text) → elem q (changed_keys (list_hash.entries two_changes)) ≡ true → IsText q
unfolding changed_keys first_ones text_eq
two_changes-texts = keys-texts

two_changes-IsLocal :
    (path : Text) (info : ChangedPath)
    → list_hash.get two_changes path ≡ some info
    → IsLocal nothing 1 (source_of [] dump_options_create [] info)
unfolding source_of
two_changes-IsLocal path info e = elim (Bool-cases (text_eq (codes "c") path)) [
  | inl h ↦
      let same : replaced_c ≡ info = ground (arith, h, e) in
      subst (λ (x : ChangedPath). IsLocal nothing 1 (source_of [] dump_options_create [] x)) same tt
  | inr g ↦ elim (Bool-cases (text_eq (codes "a") path)) [
    | inl h ↦
        let same : added_a ≡ info = ground (arith, g, h, e) in
        subst (λ (x : ChangedPath). IsLocal nothing 1 (source_of [] dump_options_create [] x)) same
          tt
    | inr h ↦ absurd (ground (arith, g, h, e))
  ]
]

a_before_c : InOrder (codes "a" ∷ codes "c" ∷ [])
a_before_c = (less b'a' b'c' [] [] (omega arith), tt)

same_keys : SameTexts (codes "a" ∷ codes "c" ∷ []) (changed_keys (list_hash.entries two_changes))
unfolding changed_keys first_ones text_eq
same_keys = swap (codes "a") (codes "c") []

abbrev replayed_two : PathRepo
replayed_two = (replayed (fresh_repo 99) [] dump_options_create log_two [] two_changes).1

replayed_two-Fits : Fits replayed_two.db (payload replayed_two 1)
unfolding revision_data is_snapshot replay replay_change add_change source_of path_repo_add
    path_repo_delete delete_paths encode_entries utils_sort insert_text text_le text_eq changed_keys
    first_ones pr_tree_to_array keep_children with_prefix list_insert starts_with
replayed_two-Fits = omega arith

path_repo_commit_log-IsHistory_example :
    ((path_repo_commit_log (fresh_repo 99) [] dump_options_create log_two (pos 1) []).0 ≡ success)
    × IsHistory
        (path_repo_commit_log (fresh_repo 99) [] dump_options_create log_two (pos 1) []).1
        (extend nothing 1 (
          changes nothing [] dump_options_create [] two_changes
            (codes "a" ∷ codes "c" ∷ [])
            (λ q. elem q (fresh_repo 99).tree)))
        2
path_repo_commit_log-IsHistory_example =
    path_repo_commit_log-IsHistory (fresh_repo 99) nothing 1 [] dump_options_create log_two
      two_changes [] (codes "a" ∷ codes "c" ∷ []) (payload replayed_two 1) (fresh_repo-IsHistory 99)
      refl a_before_c same_keys two_changes-texts two_changes-IsLocal refl replayed_two-Fits
