-- ===== src/PathRepo/Edit/Commit.antt =====
-- path_repo_commit() makes the current set of paths the next revision; path_repo_discard() goes
-- back to the last one.
pub mod Outcome
use native.Mathlib.Nat.{le_refl}
use native.Mathlib.Numerals.{add-one}
use rsvndump.Base.{
  ℕ, zero, suc, ◌+◌, ◌-◌, ◌%◌, ◌≤◌, ◌<◌, Text, text_eq, text_eq_iff, text_eq_refl, IsText,
  starts_with, ℤ, pos, negsuc, ◌≡◌, ◌≢◌, refl, ap, sym, subst, ◌∙◌, Bool, true, false, not, ◌&&◌,
  ◌||◌, Option, none, some, List, [], ◌∷◌, ◌++◌, All, length, take, take_all, ltb, ◌==◌,
  if◌then◌else◌, arith, Status, success, failure, Bool-cases, Option-cases, inl, inr,
}
use rsvndump.Apr.{AprHash, AprStrings}
use rsvndump.Critbit.{Critbit, elem}
use rsvndump.Snappy.{Snappy}
use rsvndump.Mukv.{Mukv, mukv_store}
use rsvndump.Mukv.View.{IsValid, Fits, view, mukv_store-view, mukv_store-view_full}
use rsvndump.PathRepo.Codec.{DeltaEntry, encode_entries, pr_encode}
use rsvndump.PathRepo.Codec.RoundTrip.{
  PathSet, after, IsDelta, Shows, delta_size, length-encode_entries,
}
use rsvndump.PathRepo.Codec.Snapshot.{Encodes, pr_encode-Encodes}
use rsvndump.PathRepo.{PathRepo, CacheEntry, is_snapshot, snapshot_interval, pr_reconstruct}
use rsvndump.PathRepo.Rebuild.{
  no_paths, start, Recorded, changed, unchanged, Records, Records-same, pr_reconstruct-Rebuilt,
}
use rsvndump.PathRepo.History.{IsHistory, IsFresh, AllFresh, latest, extend}
use rsvndump.PathRepo.Edit.{
  revision_data, store_revision, commit_data, path_repo_commit, path_repo_discard,
}

pub extend_old : (hist : ℕ → PathSet) (n r : ℕ) (s : PathSet) → r < n → extend hist n s r ≡ hist r
extend_old hist n r s h = let off : (r == n) ≡ false = ground arith in rw off

pub extend_new : (hist : ℕ → PathSet) (n : ℕ) (s : PathSet) → extend hist n s n ≡ s
extend_new hist n s = let hit : (n == n) ≡ true = ground arith in rw hit

pub start_extend :
    (hist : ℕ → PathSet) (n r : ℕ) (s : PathSet) → r ≤ n → start (extend hist n s) r ≡ start hist r
start_extend hist n r s h = elim (Bool-cases (r % snapshot_interval == 0)) [
  | inl at ↦ rw at
  | inr off ↦ rw off (extend_old hist n (r - 1) s (ground arith))
]

pub start_latest :
    (hist : ℕ → PathSet) (n : ℕ) → is_snapshot (pos n) ≡ false → start hist n ≡ latest hist n
unfolding is_snapshot
start_latest hist zero h = refl
start_latest hist (suc n) h =
    let off : (suc n % snapshot_interval == 0) ≡ false = ground arith in
    rw (off) (ap hist (omega arith))

pub delta_size_nil : (es : List DeltaEntry) → delta_size es ≡ 0 → es ≡ []
delta_size_nil [] h = refl
delta_size_nil (e ∷ es) h = absurd (omega arith)

module _ ⦃apr : AprHash⦄ ⦃strings : AprStrings⦄ ⦃cb : Critbit⦄ ⦃sn : Snappy⦄ where
  -- What path_repo_commit() serializes leads from where the record starts to the current tree.
  pub revision_data-Encodes :
      (repo : PathRepo) (hist : ℕ → PathSet) (n : ℕ) (b : Bool)
      → IsHistory repo hist n
      → is_snapshot (pos n) ≡ b
      → Encodes (revision_data repo b) (start hist n) (cb.contains repo.tree)
  unfolding revision_data
  revision_data-Encodes repo hist n true i e =
      let at : (n % snapshot_interval == 0) ≡ true = (unfold is_snapshot in ground arith) in
      rw at (pr_encode-Encodes repo.tree i.texts)
  revision_data-Encodes repo hist n false i e = rw (start_latest hist n e) (record {
    entries = repo.delta;
    is_delta = i.is_delta;
    counted = i.counted ∙ sym (length-encode_entries repo.delta);
    encoded = refl;
    leads = i.pending;
  })

  pub other_key : (r n : ℕ) → r ≢ n → text_eq (strings.itoa (pos n)) (strings.itoa (pos r)) ≡ false
  other_key r n h = elim (Bool-cases (text_eq (strings.itoa (pos n)) (strings.itoa (pos r)))) [
    | inl e ↦
        let same : pos n ≡ pos r = strings.itoa_injective _ _ ((text_eq_iff _ _).0 e) in
        absurd (h (cc))
    | inr e ↦ e
  ]

  -- What is left of a repository once the revision is in its database.
  abbrev pub committed : PathRepo → Mukv → ℕ → PathRepo
  committed repo db n = record repo { db = db; head = pos n; delta_len = 0; delta = [] }

  -- The history with the current set of paths as the revision `n`.
  abbrev pub next : PathRepo → (ℕ → PathSet) → ℕ → ℕ → PathSet
  next repo hist n = extend hist n (cb.contains repo.tree)

  module _ (repo : PathRepo) (hist : ℕ → PathSet) (n : ℕ) (db : Mukv) (i : IsHistory repo hist n)
      (recorded : Recorded (view db (strings.itoa (pos n))) (start hist n) (cb.contains repo.tree))
      (others : (r : ℕ)
        → r ≢ n
        → view db (strings.itoa (pos r)) ≡ view repo.db (strings.itoa (pos r))) where
    Records-next : Records db (next repo hist n) (n + 1)
    Records-next r h = elim (Bool-cases (r == n)) [
      | inl same ↦
          let e : r ≡ n = ground arith in
          rw
            (
              e,
              extend_new hist n (cb.contains repo.tree),
              start_extend hist n n (cb.contains repo.tree) (le_refl n),
            )
            recorded
      | inr other ↦
          rw
            (
              extend_old hist n r (cb.contains repo.tree) (ground arith),
              start_extend hist n r (cb.contains repo.tree) (ground arith),
              others r (ground arith),
            )
            (i.records r (ground arith))
    ]

    named_next : (r : ℕ) (q : Text) → r < n + 1 → next repo hist n r q ≡ true → IsText q
    named_next r q h e = elim (Bool-cases (r == n)) [
      | inl same ↦ i.texts q (ground (arith, e, same))
      | inr other ↦ i.named r q (ground (arith, other)) (ground (arith, e, other))
    ]

    cached_next : (l : List CacheEntry) → AllFresh hist n l → AllFresh (next repo hist n) (n + 1) l
    cached_next [] h = tt
    cached_next (e ∷ l) h = (
      λ r x.
          let (lt, shows) = h.0 r x in
          (omega arith, rw (extend_old hist n r (cb.contains repo.tree) lt) shows),
      cached_next l h.1,
    )

    pub committed-IsHistory :
        IsValid db → IsHistory (committed repo db n) (next repo hist n) (n + 1)
    committed-IsHistory v = record {
      db_valid = v;
      head = ap pos (omega arith);
      records = Records-next;
      unborn = λ r h. others r (ground arith) ∙ i.unborn r (omega arith);
      is_delta = tt;
      counted = refl;
      pending = λ q. rw (add-one, extend_new hist n (cb.contains repo.tree));
      texts = i.texts;
      named = named_next;
      cached = cached_next repo.cache i.cached;
      indexed = i.indexed;
    }
