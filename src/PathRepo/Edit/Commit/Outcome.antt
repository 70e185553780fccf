-- ===== src/PathRepo/Edit/Commit/Outcome.antt =====
-- The outcomes of path_repo_commit() and path_repo_discard().
use native.Mathlib.Nat.{le_refl}
use native.Mathlib.Decide.{dec_le}
use rsvndump.Base.{
  leb, ℕ, suc, ◌+◌, ◌-◌, Text, text_eq_refl, take_all, pos, ◌≡◌, refl, ap, sym, subst, ◌∙◌, Bool,
  true, false, not, ◌&&◌, none, some, [], length, take, ◌==◌, arith, success, failure, Bool-cases,
  Option-cases, inl, inr,
}
use rsvndump.Apr.{AprHash, AprStrings}
use rsvndump.Critbit.{Critbit}
use rsvndump.Snappy.{Snappy}
use rsvndump.Mukv.{Mukv, mukv_store}
use rsvndump.Mukv.View.{IsValid, Fits, view, mukv_store-view, mukv_store-view_full}
use rsvndump.PathRepo.Codec.RoundTrip.{PathSet, after, Shows}
use rsvndump.PathRepo.{PathRepo, is_snapshot, pr_reconstruct}
use rsvndump.PathRepo.Rebuild.{
  start, Recorded, changed, unchanged, Records-same, pr_reconstruct-Rebuilt,
}
use rsvndump.PathRepo.History.{IsHistory, latest}
use rsvndump.PathRepo.Edit.{
  compressed, revision_data, store_revision, commit_data, path_repo_commit, path_repo_discard,
}
use rsvndump.PathRepo.Edit.Commit.{
  start_latest, delta_size_nil, revision_data-Encodes, other_key, committed, committed-IsHistory,
  next,
}

module _ ⦃apr : AprHash⦄ ⦃strings : AprStrings⦄ ⦃cb : Critbit⦄ ⦃sn : Snappy⦄ where
  -- There is nothing to store: no action is scheduled, and no snapshot is due.
  abbrev idle : PathRepo → ℕ → Bool
  idle repo n = (repo.delta_len == 0) && not (is_snapshot (pos n))

  -- The bytes that path_repo_commit() compresses.
  abbrev pub payload : PathRepo → ℕ → Text
  payload repo n = let d = revision_data repo (is_snapshot (pos n)) in take d.1 d.0

  commit_idle :
      (repo : PathRepo) (hist : ℕ → PathSet) (n : ℕ)
      → IsHistory repo hist n
      → idle repo n ≡ true
      → path_repo_commit repo (pos n) ≡ (success, committed repo repo.db n)
  unfolding path_repo_commit
  commit_idle repo hist n i e =
      let zero_len : repo.delta_len ≡ 0 = ground arith in
      let empty : repo.delta ≡ [] = delta_size_nil repo.delta (omega (arith, i.counted)) in
      rw e (λ k. (success, record repo { head = pos n; delta_len = zero_len k; delta = empty k }))

  idle-Recorded :
      (repo : PathRepo) (hist : ℕ → PathSet) (n : ℕ)
      → IsHistory repo hist n
      → idle repo n ≡ true
      → Recorded (view repo.db (strings.itoa (pos n))) (start hist n) (cb.contains repo.tree)
  idle-Recorded repo hist n i e =
      let empty : repo.delta ≡ [] = delta_size_nil repo.delta (ground (arith, i.counted)) in
      let shows : Shows repo.tree (after [] (latest hist n)) =
        subst (λ d. Shows repo.tree (after d (latest hist n))) empty i.pending in
      unchanged (i.unborn n (le_refl n)) (rw (start_latest hist n (ground arith)) shows)

  -- No byte past the data is read.
  compressed-payload :
      (repo : PathRepo) (hist : ℕ → PathSet) (n : ℕ)
      → IsHistory repo hist n
      → compressed (revision_data repo (is_snapshot (pos n))) ≡ sn.compress (payload repo n)
  unfolding compressed
  compressed-payload repo hist n i =
      let x = revision_data-Encodes repo hist n (is_snapshot (pos n)) i refl in
      let d = revision_data repo (is_snapshot (pos n)) in
      let inside : leb d.1 (length d.0) ≡ true = ground (arith, x.counted) in
      rw (compressed, inside) refl

  commit_payload :
      (repo : PathRepo) (hist : ℕ → PathSet) (n : ℕ) (c : Text)
      → IsHistory repo hist n
      → idle repo n ≡ false
      → sn.compress (payload repo n) ≡ some c
      → path_repo_commit repo (pos n) ≡ store_revision repo (pos n) c
  unfolding path_repo_commit commit_data
  commit_payload repo hist n c i e z = rw (e, compressed-payload repo hist n i, z, commit_data)

  store-IsHistory :
      (repo : PathRepo) (hist : ℕ → PathSet) (n : ℕ) (c : Text)
      → IsHistory repo hist n
      → sn.compress (payload repo n) ≡ some c
      → Fits repo.db c
      → ((store_revision repo (pos n) c).0 ≡ success)
        × IsHistory (store_revision repo (pos n) c).1 (next repo hist n) (n + 1)
  unfolding store_revision
  store-IsHistory repo hist n c i z fits =
      let key = strings.itoa (pos n) in
      let (ok, valid, views) = mukv_store-view repo.db key c i.db_valid fits in
      let x = revision_data-Encodes repo hist n (is_snapshot (pos n)) i refl in
      let db = (mukv_store repo.db key c).1 in
      let whole_data = (revision_data repo (is_snapshot (pos n))).0 in
      let whole : payload repo n ≡ whole_data = take_all _ whole_data (omega (arith, x.counted)) in
      rw (ok, store_revision)
        (
          refl,
          committed-IsHistory repo hist n db i
              (changed x.entries c x.is_delta (rw (views key, text_eq_refl))
                (rw (← x.encoded) (subst (λ d. sn.compress d ≡ some c) whole z)) x.leads)
              (λ r h. rw (views (strings.itoa (pos r)), other_key r n h)) valid,
        )

  -- A revision that compresses to data for which the device has room is committed: the status is
  -- success, and the current set of paths is the next revision of the history.
  pub path_repo_commit-IsHistory :
      (repo : PathRepo) (hist : ℕ → PathSet) (n : ℕ) (c : Text)
      → IsHistory repo hist n
      → sn.compress (payload repo n) ≡ some c
      → Fits repo.db c
      → ((path_repo_commit repo (pos n)).0 ≡ success)
        × IsHistory (path_repo_commit repo (pos n)).1 (next repo hist n) (n + 1)
  path_repo_commit-IsHistory repo hist n c i z fits = elim (Bool-cases (idle repo n)) [
    | inl e ↦ rw (commit_idle repo hist n i e) (
      refl,
      committed-IsHistory repo hist n repo.db i (idle-Recorded repo hist n i e) (λ r h. refl)
          i.db_valid,
    )
    | inr e ↦ rw (commit_payload repo hist n c i e z) (store-IsHistory repo hist n c i z fits)
  ]

  -- A database with the same records serves as well.
  same-IsHistory :
      (repo : PathRepo) (hist : ℕ → PathSet) (n : ℕ) (db : Mukv)
      → IsHistory repo hist n
      → IsValid db
      → ((j : Text) → view db j ≡ view repo.db j)
      → IsHistory (record repo { db = db }) hist n
  same-IsHistory repo hist n db i v same = record {
    db_valid = v;
    head = i.head;
    records = Records-same repo.db db hist n same i.records;
    unborn = λ r h. same _ ∙ i.unborn r h;
    is_delta = i.is_delta;
    counted = i.counted;
    pending = i.pending;
    texts = i.texts;
    named = i.named;
    cached = i.cached;
    indexed = i.indexed;
  }

  -- The history, the current set of paths and the scheduled actions are as they were.
  pub record Untouched (repo : PathRepo) (hist : ℕ → PathSet) (n : ℕ) (repo' : PathRepo)
      : Type 0 where
    pub is_history : IsHistory repo' hist n
    pub tree : repo'.tree ≡ repo.tree
    pub delta : repo'.delta ≡ repo.delta
    pub delta_len : repo'.delta_len ≡ repo.delta_len

  Untouched-store_full :
      (repo : PathRepo) (hist : ℕ → PathSet) (n : ℕ) (c : Text)
      → IsHistory repo hist n
      → ¬ (Fits repo.db c)
      → Untouched repo hist n (store_revision repo (pos n) c).1
  unfolding store_revision
  Untouched-store_full repo hist n c i full =
      let (bad, valid, views, bytes) =
        mukv_store-view_full repo.db (strings.itoa (pos n)) c i.db_valid full in
      rw (bad, store_revision)
        (record {
          is_history = same-IsHistory repo hist n _ i valid views;
          tree = refl;
          delta = refl;
          delta_len = refl;
        })

  commit_uncompressed :
      (repo : PathRepo) (hist : ℕ → PathSet) (n : ℕ)
      → IsHistory repo hist n
      → idle repo n ≡ false
      → sn.compress (payload repo n) ≡ none
      → path_repo_commit repo (pos n) ≡ (failure, repo)
  unfolding path_repo_commit commit_data
  commit_uncompressed repo hist n i e z = rw (e, compressed-payload repo hist n i, z, commit_data)

  -- A commit that fails leaves the history, the current set of paths and the scheduled actions as
  -- they were.
  pub path_repo_commit_failed-Untouched :
      (repo : PathRepo) (hist : ℕ → PathSet) (n : ℕ)
      → IsHistory repo hist n
      → (path_repo_commit repo (pos n)).0 ≡ failure
      → Untouched repo hist n (path_repo_commit repo (pos n)).1
  path_repo_commit_failed-Untouched repo hist n i bad = elim (Bool-cases (idle repo n)) [
    | inl e ↦ cc (commit_idle repo hist n i e)
    | inr e ↦ elim (Option-cases (sn.compress (payload repo n))) [
      | inl z ↦
          rw (commit_uncompressed repo hist n i e z)
            (record { is_history = i; tree = refl; delta = refl; delta_len = refl })
      | inr (c, z) ↦ elim (dec_le (length c) (repo.db.file.room - length repo.db.file.bytes)) [
        | yes fits ↦ cc (bad, (path_repo_commit-IsHistory repo hist n c i z fits).0)
        | no full ↦
            rw (commit_payload repo hist n c i e z) (Untouched-store_full repo hist n c i full)
      ]
    ]
  ]

  -- path_repo_discard() succeeds: the current set of paths is that of the last committed revision
  -- again, nothing is scheduled, and the history stays.
  pub path_repo_discard-IsHistory :
      (repo : PathRepo) (hist : ℕ → PathSet) (n : ℕ)
      → IsHistory repo hist (suc n)
      → ((path_repo_discard repo).0 ≡ success)
        × IsHistory (path_repo_discard repo).1 hist (suc n)
        × Shows (path_repo_discard repo).1.tree (hist n)
        × ((path_repo_discard repo).1.delta ≡ [])
  unfolding path_repo_discard
  path_repo_discard-IsHistory repo hist n i =
      let b =
        pr_reconstruct-Rebuilt repo.db (cb.tree_clear repo.tree) hist (suc n) n i.db_valid i.records
          (omega arith) (cb.contains-tree_clear repo.tree) in
      let (s, t, db) = pr_reconstruct repo.db (cb.tree_clear repo.tree) (pos n) in
      let at : repo.head ≡ pos n = i.head ∙ ap pos (omega arith) in
      rw (path_repo_discard, at)
        (
          b.status,
          record {
            db_valid = b.valid;
            head = ap pos (omega arith);
            records = Records-same repo.db db hist (suc n) b.same i.records;
            unborn = λ r h. b.same _ ∙ i.unborn r h;
            is_delta = tt;
            counted = refl;
            pending = b.shows;
            texts = λ q e. i.named n q (omega arith) (sym (b.shows q) ∙ e);
            named = i.named;
            cached = i.cached;
            indexed = i.indexed;
          },
          b.shows,
          refl,
        )
