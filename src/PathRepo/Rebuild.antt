-- ===== src/PathRepo/Rebuild.antt =====
-- pr_reconstruct() gives the tree of a revision, if the database holds a record of every revision
-- up to it.
use rsvndump.Base.{
  ℕ, zero, suc, ◌+◌, ◌-◌, ◌%◌, ◌<◌, Text, pos, ◌≡◌, refl, sym, subst, ◌∙◌, true, false, Option,
  none, some, List, ◌==◌, if◌then◌else◌, arith, Status, success,
}
use native.Mathlib.Nat.{add-zero}
use native.Mathlib.Numerals.{add-one}
use rsvndump.Apr.{AprHash, AprStrings}
use rsvndump.Critbit.{Critbit}
use rsvndump.Snappy.{Snappy}
use rsvndump.Mukv.{Mukv}
use rsvndump.Mukv.View.{IsValid, view, mukv_fetch-view, mukv_exists-view}
use rsvndump.PathRepo.Codec.{DeltaEntry, encode_entries}
use rsvndump.PathRepo.Codec.RoundTrip.{
  PathSet, after, IsDelta, Shows, pr_delta_apply-encode_entries,
}
use rsvndump.PathRepo.{
  snapshot_interval, apply_data, apply_revision, apply_revisions, pr_reconstruct,
}

abbrev pub no_paths : PathSet
no_paths q = false

-- What the record of a revision is applied to: nothing at a snapshot, else the revision before.
abbrev pub start : (ℕ → PathSet) → ℕ → PathSet
start hist r = if r % snapshot_interval == 0 then no_paths else hist (r - 1)

module _ ⦃sn : Snappy⦄ where
  -- The data of a revision turns one set of paths into another; no data leaves the set.
  pub data Recorded (o : Option Text) (s t : PathSet) : Type 0 where
    unchanged : o ≡ none → ((q : Text) → t q ≡ s q) → Recorded o s t
    changed :
        (es : List DeltaEntry) (c : Text)
        → IsDelta es
        → o ≡ some c
        → sn.compress (encode_entries es) ≡ some c
        → ((q : Text) → t q ≡ after es s q)
        → Recorded o s t

module _ ⦃cb : Critbit⦄ ⦃sn : Snappy⦄ where
  apply_data-Shows :
      (t : cb.Tree) (es : List DeltaEntry) (c : Text) (s : PathSet)
      → IsDelta es
      → sn.compress (encode_entries es) ≡ some c
      → Shows t s
      → ((apply_data t (some c)).0 ≡ success) × Shows (apply_data t (some c)).1 (after es s)
  unfolding apply_data
  apply_data-Shows t es c s h e sh =
      let (t', run, sh') = pr_delta_apply-encode_entries es t s h sh in
      rw (apply_data, sn.uncompressed_length-compress _ c e, sn.uncompress-compress _ c e, run)
        (refl, sh')

module _ ⦃apr : AprHash⦄ ⦃strings : AprStrings⦄ ⦃cb : Critbit⦄ ⦃sn : Snappy⦄ where
  -- The database has the record of each of the first `n` revisions.
  abbrev pub Records : Mukv → (ℕ → PathSet) → ℕ → Type 0
  Records db hist n =
      (r : ℕ) → r < n → Recorded (view db (strings.itoa (pos r))) (start hist r) (hist r)

  -- A reconstruction that went well, with the database as it was but for its file offset.
  pub record Rebuilt (x : Status × cb.Tree × Mukv) (db : Mukv) (s : PathSet) : Type 0 where
    pub status : x.0 ≡ success
    pub shows : Shows x.1 s
    pub valid : IsValid x.2
    pub same : (j : Text) → view x.2 j ≡ view db j

  revision_unchanged :
      (db : Mukv) (t : cb.Tree) (r : ℕ) (s u : PathSet)
      → IsValid db
      → view db (strings.itoa (pos r)) ≡ none
      → ((q : Text) → u q ≡ s q)
      → Shows t s
      → Rebuilt (apply_revision db t (pos r)) db u
  unfolding apply_revision
  revision_unchanged db t r s u v e same sh =
      rw (mukv_exists-view db (strings.itoa (pos r)), e)
        (record { status = refl; shows = λ q. sh q ∙ sym (same q); valid = v; same = λ j. refl })

  revision_changed :
      (db : Mukv) (t : cb.Tree) (r : ℕ) (s : PathSet) (es : List DeltaEntry) (c : Text)
      → IsValid db
      → IsDelta es
      → view db (strings.itoa (pos r)) ≡ some c
      → sn.compress (encode_entries es) ≡ some c
      → Shows t s
      → Rebuilt (apply_revision db t (pos r)) db (after es s)
  unfolding apply_revision
  revision_changed db t r s es c v h e z sh =
      let (got, valid, same) = mukv_fetch-view db (strings.itoa (pos r)) v in
      let (ok, shows) = apply_data-Shows t es c s h z sh in
      rw (mukv_exists-view db (strings.itoa (pos r)), e)
        (record { status = rw (got, e) ok; shows = rw (got, e) shows; valid = valid; same = same })

  Shows-ext :
      (x : Status × cb.Tree × Mukv) (db : Mukv) (s u : PathSet)
      → Rebuilt x db s
      → ((q : Text) → u q ≡ s q)
      → Rebuilt x db u
  Shows-ext x db s u b e = record {
    status = b.status;
    shows = λ q. b.shows q ∙ sym (e q);
    valid = b.valid;
    same = b.same;
  }

  revision-Rebuilt :
      (db : Mukv) (t : cb.Tree) (r : ℕ) (s u : PathSet)
      → IsValid db
      → Recorded (view db (strings.itoa (pos r))) s u
      → Shows t s
      → Rebuilt (apply_revision db t (pos r)) db u
  revision-Rebuilt db t r s u v (unchanged e same) sh = revision_unchanged db t r s u v e same sh
  revision-Rebuilt db t r s u v (changed es c h e z eq) sh =
      Shows-ext _ db (after es s) u (revision_changed db t r s es c v h e z sh) eq

  -- Records are looked up in the view alone.
  pub Records-same :
      (db db' : Mukv) (hist : ℕ → PathSet) (n : ℕ)
      → ((j : Text) → view db' j ≡ view db j)
      → Records db hist n
      → Records db' hist n
  Records-same db db' hist n same recs r h =
      subst (λ o. Recorded o (start hist r) (hist r)) (sym (same (strings.itoa (pos r)))) (recs r h)

  revisions-cons :
      (n : ℕ) (db : Mukv) (t : cb.Tree) (r : ℕ)
      → (apply_revision db t (pos r)).0 ≡ success
      → apply_revisions (suc n) db t (pos r)
        ≡ apply_revisions n
            (apply_revision db t (pos r)).2
            (apply_revision db t (pos r)).1
            (pos (r + 1))
  unfolding apply_revisions
  revisions-cons n db t r e = rw (e, apply_revisions)

  start_next :
      (hist : ℕ → PathSet) (r : ℕ)
      → r % snapshot_interval + 1 < snapshot_interval
      → start hist (r + 1) ≡ hist r
  start_next hist r h =
      let back : r + 1 - 1 ≡ r = omega arith in
      let off : ((r + 1) % snapshot_interval == 0) ≡ false = ground arith in rw (off, back)

  -- The loop from `r` on, over revisions of which none but the first may be a snapshot.
  revisions-Rebuilt :
      (n : ℕ) (db : Mukv) (t : cb.Tree) (hist : ℕ → PathSet) (r k : ℕ)
      → IsValid db
      → Records db hist k
      → r + n < k
      → r % snapshot_interval + n < snapshot_interval
      → Shows t (start hist r)
      → Rebuilt (apply_revisions (suc n) db t (pos r)) db (hist (r + n))
  revisions-Rebuilt zero db t hist r k v recs h blk sh =
      let b = revision-Rebuilt db t r (start hist r) (hist r) v (recs r (omega arith)) sh in
      rw (revisions-cons zero db t r b.status, add-zero)
        (unfold apply_revisions in
          record { status = refl; shows = b.shows; valid = b.valid; same = b.same })
  revisions-Rebuilt (suc n) db t hist r k v recs h blk sh =
      let b = revision-Rebuilt db t r (start hist r) (hist r) v (recs r (omega arith)) sh in
      let (status, t', db') = apply_revision db t (pos r) in
      let next : (start hist (r + 1) ≡ hist r) = start_next hist r (omega arith) in
      let later : r + 1 + n ≡ r + suc n = omega arith in
      let rest =
        revisions-Rebuilt n db' t' hist (r + 1) k b.valid (Records-same db db' hist k b.same recs)
          (omega arith) (omega arith) (rw next b.shows) in
      rw (revisions-cons (suc n) db t r b.status, ← later)
        (record {
          status = rest.status;
          shows = rest.shows;
          valid = rest.valid;
          same = λ j. rest.same j ∙ b.same j;
        })

  -- From a database that is valid and has the records of the first `n` revisions, pr_reconstruct()
  -- of any of them builds, in an empty tree, exactly its paths. It does not fail, and leaves the
  -- database valid, with the same records.
  pub pr_reconstruct-Rebuilt :
      (db : Mukv) (t : cb.Tree) (hist : ℕ → PathSet) (n r : ℕ)
      → IsValid db
      → Records db hist n
      → r < n
      → Shows t no_paths
      → Rebuilt (pr_reconstruct db t (pos r)) db (hist r)
  unfolding pr_reconstruct
  pr_reconstruct-Rebuilt db t hist n r v recs h sh =
      let base = r - r % snapshot_interval in
      let m = r % snapshot_interval in
      let at_base : (base % snapshot_interval == 0) ≡ true = ground arith in
      let top : base + m ≡ r = omega arith in
      rw add-one (
        subst (λ k. Rebuilt (apply_revisions (suc m) db t (pos base)) db (hist k)) top
          (revisions-Rebuilt m db t hist base n v recs (omega arith) (omega arith) (rw at_base sh)))
