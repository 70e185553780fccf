-- ===== src/PathRepo/Edit/Replay/Kept.antt =====
-- Committing from a log makes the next revision of the history.
use mathlib.Core.Path.{fun_ext}
use rsvndump.Base.{
  text_eq, ℕ, ◌+◌, Text, IsText, ℤ, pos, ◌≡◌, refl, sym, ◌∙◌, Bool, true, false, ◌||◌, ◌==◌,
  if◌then◌else◌, Option, some, List, [], ◌∷◌, Status, success, All, arith, inl, inr, Bool-cases,
}
use rsvndump.Apr.{find, AprHash, AprStrings}
use rsvndump.Critbit.{Critbit, elem}
use rsvndump.Snappy.{Snappy}
use rsvndump.Log.{ChangedPath, LogRevision}
use rsvndump.Options.{DumpOptions}
use rsvndump.Ra.{Ra}
use rsvndump.Utils.{utils_sort}
use rsvndump.Utils.Sorted.{InOrder, SameTexts, elem-utils_sort, utils_sort-InOrder}
use rsvndump.PathRepo.Codec.RoundTrip.{PathSet, Shows}
use rsvndump.PathRepo.Codec.Children.{All-of_elem}
use rsvndump.PathRepo.{PathRepo}
use rsvndump.PathRepo.History.{IsHistory, extend}
use rsvndump.PathRepo.Edit.{path_repo_delete}
use rsvndump.PathRepo.Edit.Schedule.{path_repo_delete-IsHistory, contains-path_repo_delete}
use rsvndump.Mukv.View.{Fits}
use rsvndump.PathRepo.Edit.Commit.Outcome.{payload, path_repo_commit-IsHistory}
use rsvndump.PathRepo.Edit.Replay.Meaning.{removed, changed_by, changes, changed_by_lem}
use rsvndump.PathRepo.Edit.Replay.{
  changed_keys, source_of, replay_change, replay, path_repo_commit_log,
}
use rsvndump.PathRepo.Edit.Replay.Added.{IsLocal, Made, Made-add_change}

module _ ⦃apr : AprHash⦄ ⦃strings : AprStrings⦄ ⦃cb : Critbit⦄ ⦃sn : Snappy⦄ ⦃ra : Ra⦄ where
  deleted-IsHistory :
      (repo : PathRepo) (hist : ℕ → PathSet) (n : ℕ) (path : Text) (s : PathSet) (b : Bool)
      → IsHistory repo hist n
      → Shows repo.tree s
      → IsHistory (if b then (path_repo_delete repo path).1 else repo) hist n
        × Shows
            (if b then (path_repo_delete repo path).1 else repo).tree
            (if b then removed path s else s)
  deleted-IsHistory repo hist n path s true i sh = (
    (path_repo_delete-IsHistory repo hist n path i).0,
    λ q. contains-path_repo_delete repo path q i.texts ∙ rw (sh q) refl,
  )
  deleted-IsHistory repo hist n path s false i sh = (i, sh)

  Made-replay_change :
      (repo : PathRepo) (hist : ℕ → PathSet) (n : ℕ) (path : Text) (rev : ℤ)
      (source : Option (Option Text × ℤ)) (info : ChangedPath) (s : PathSet)
      → IsHistory repo hist n
      → Shows repo.tree s
      → IsText path
      → IsLocal hist n source
      → Made hist n
          (changed_by hist path source info.action s)
          (replay_change repo path rev source info)
  unfolding replay_change
  Made-replay_change repo hist n path rev source info s i sh t loc =
      let b = (info.action == b'D') || (info.action == b'R') in
      let (j, shown) = deleted-IsHistory repo hist n path s b i sh in
      rw (← changed_by_lem hist path source info.action s)
        (elim (Bool-cases ((info.action == b'A') || (info.action == b'R'))) [
          | inl e ↦
              rw (replay_change, e)
                (Made-add_change _ hist n path rev source (if b then removed path s else s) j shown
                  t loc)
          | inr e ↦ rw (replay_change, e) (record { done = refl; kept = j; shows = shown })
        ])

  Made-replay :
      (hist : ℕ → PathSet) (n : ℕ) (prefix : Text) (opts : DumpOptions) (logs : List LogRevision)
      (rev : ℤ) (changed : apr.Hash ChangedPath) (l : List Text) (repo : PathRepo) (s : PathSet)
      → IsHistory repo hist n
      → Shows repo.tree s
      → All IsText l
      → All (λ p. (info : ChangedPath) × (apr.get changed p ≡ some info)) l
      → ((path : Text) (info : ChangedPath)
          → apr.get changed path ≡ some info
          → IsLocal hist n (source_of prefix opts logs info))
      → Made hist n
          (changes hist prefix opts logs changed l s)
          (replay repo prefix opts logs rev changed l)
  unfolding replay
  Made-replay hist n prefix opts logs rev changed [] repo s i sh t there loc = record {
    done = refl;
    kept = i;
    shows = sh;
  }
  Made-replay hist n prefix opts logs rev changed (path ∷ l) repo s i sh t there loc =
      let (info, e) = there.0 in
      let source = source_of prefix opts logs info in
      let m = Made-replay_change repo hist n path rev source info s i sh t.0 (loc path info e) in
      rw (replay, e)
        (rw m.done (
          Made-replay hist n prefix opts logs rev changed l
            (replay_change repo path rev source info).1 (changed_by hist path source info.action s)
            m.kept m.shows t.1 there.1 loc))

  -- The repository after the loop, before the commit.
  abbrev pub replayed :
      PathRepo
      → Text
      → DumpOptions
      → LogRevision
      → List LogRevision
      → apr.Hash ChangedPath
      → Status × PathRepo
  replayed repo prefix opts log logs changed =
      replay repo prefix opts logs log.revision changed
        (utils_sort (changed_keys (apr.entries changed)))

  -- A path of the log has an entry.
  found_key :
      (l : List (Text × ChangedPath)) (q : Text)
      → elem q (changed_keys l) ≡ true
      → (info : ChangedPath) × (find q l ≡ some info)
  unfolding changed_keys
  found_key [] q e = absurd (ground arith)
  found_key ((key, v) ∷ l) q e = elim (Bool-cases (text_eq key q)) [
    | inl h ↦ (v, rw h refl)
    | inr h ↦ rw h (found_key l q (ground (arith, e, h)))
  ]

  -- `l` has the paths of the log in the order of strcmp(). Of a log whose paths are C strings, and
  -- whose copies come from paths below the prefix that are there in committed revisions of the dump,
  -- with data that compresses to what the device has room for, path_repo_commit_log() succeeds. The
  -- next revision of the history has the current paths after the changes at the paths of `l`, one
  -- after another: 'D' takes a path out with what lies below it, 'A' adds it, or the copy of its
  -- source with what lies below that, and 'R' does both.
  pub path_repo_commit_log-IsHistory :
      (repo : PathRepo) (hist : ℕ → PathSet) (n : ℕ) (prefix : Text) (opts : DumpOptions)
      (log : LogRevision) (changed : apr.Hash ChangedPath) (logs : List LogRevision) (l : List Text)
      (c : Text)
      → IsHistory repo hist n
      → log.changed_paths ≡ some changed
      → InOrder l
      → SameTexts l (changed_keys (apr.entries changed))
      → ((q : Text) → elem q (changed_keys (apr.entries changed)) ≡ true → IsText q)
      → ((path : Text) (info : ChangedPath)
          → apr.get changed path ≡ some info
          → IsLocal hist n (source_of prefix opts logs info))
      → sn.compress (payload (replayed repo prefix opts log logs changed).1 n) ≡ some c
      → Fits (replayed repo prefix opts log logs changed).1.db c
      → ((path_repo_commit_log repo prefix opts log (pos n) logs).0 ≡ success)
        × IsHistory
            (path_repo_commit_log repo prefix opts log (pos n) logs).1
            (extend hist n (changes hist prefix opts logs changed l (cb.contains repo.tree)))
            (n + 1)
  unfolding path_repo_commit_log
  path_repo_commit_log-IsHistory repo hist n prefix opts log changed logs l c i some_paths ordered
        same texts loc z fits =
      let keys = changed_keys (apr.entries changed) in
      let sorted : l ≡ utils_sort keys = (utils_sort-InOrder keys).2 l ordered same in
      let in_log =
        λ (q : Text) (e : elem q (utils_sort keys) ≡ true). sym (elem-utils_sort keys q) ∙ e in
      let s = changes hist prefix opts logs changed (utils_sort keys) (cb.contains repo.tree) in
      let m =
        Made-replay hist n prefix opts logs log.revision changed (utils_sort keys) repo
          (cb.contains repo.tree) i (λ q. refl)
          (All-of_elem IsText (utils_sort keys) (λ q e. texts q (in_log q e)))
          (All-of_elem (λ p. (info : ChangedPath) × (apr.get changed p ≡ some info))
            (utils_sort keys)
            (λ q e.
              let (info, f) = found_key (apr.entries changed) q (in_log q e) in
              (info, sym (apr.find-entries changed q) ∙ f)))
          loc in
      let r = (replayed repo prefix opts log logs changed).1 in
      let committed = path_repo_commit-IsHistory r hist n c m.kept z fits in
      let set : cb.contains r.tree ≡ s = fun_ext m.shows in
      rw (path_repo_commit_log, some_paths) (rw (m.done, sorted, ← set) committed)
