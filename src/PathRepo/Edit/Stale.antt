-- ===== src/PathRepo/Edit/Stale.antt =====
-- A revision that is asked for before it is committed. de_close_edit() of src/delta.c asks so, and
-- the answer stays in the cache.
use native.Mathlib.Nat.{le_refl}
use rsvndump.Base.{
  ℕ, zero, suc, ◌+◌, ◌<◌, Text, ℤ, pos, eqz, eqz_iff, ◌≡◌, refl, false, Option, none, some, List,
  [], ◌∷◌, length, set, ◌==◌, arith, Bool-cases, inl, inr,
}
use rsvndump.Apr.{AprHash, AprStrings}
use rsvndump.Critbit.{Critbit}
use rsvndump.Snappy.{Snappy}
use rsvndump.PathRepo.Codec.RoundTrip.{PathSet, Shows}
use rsvndump.PathRepo.{
  PathRepo, CacheEntry, is_snapshot, find_cached, cleared, fill_slot, pr_reconstruct, pr_tree,
}
use rsvndump.PathRepo.Rebuild.{unchanged, Records, pr_reconstruct-Rebuilt}
use rsvndump.PathRepo.History.{IsHistory, AllFresh, latest, extend}
use rsvndump.PathRepo.Edit.{
  answer, query, path_repo_exists, path_repo_commit, store_revision, commit_data,
}
use rsvndump.PathRepo.Edit.Query.{shown, cleared-Shows, get_elem?-lt}
use rsvndump.PathRepo.Edit.Commit.{extend_old, extend_new, start_extend, start_latest}

module _ ⦃cb : Critbit⦄ where
  unborn_uncached :
      (hist : ℕ → PathSet) (n : ℕ) (l : List CacheEntry)
      → AllFresh hist n l
      → find_cached l (pos n) ≡ none
  unfolding find_cached
  unborn_uncached hist n [] h = refl
  unborn_uncached hist n (e ∷ l) h = elim (Bool-cases (eqz e.revision (pos n))) [
    | inl hit ↦ absurd (omega (arith, (h.0 n ((eqz_iff _ _).0 hit)).0))
    | inr miss ↦ rw miss (unborn_uncached hist n l h.1)
  ]

  find_cached-set :
      (l : List CacheEntry) (i n : ℕ) (t : cb.Tree)
      → find_cached l (pos n) ≡ none
      → i < length l
      → find_cached (set l i (record { revision = pos n; tree = t })) (pos n) ≡ some t
  unfolding find_cached
  find_cached-set [] i n t h lt = absurd (omega arith)
  find_cached-set (e ∷ l) zero n t h lt = ground arith
  find_cached-set (e ∷ l) (suc i) n t h lt = elim (Bool-cases (eqz e.revision (pos n))) [
    | inl hit ↦ absurd (ground (arith, hit, h))
    | inr miss ↦ rw miss (find_cached-set l i n t (ground (arith, miss, h)) (omega arith))
  ]

module _ ⦃apr : AprHash⦄ ⦃strings : AprStrings⦄ ⦃cb : Critbit⦄ ⦃sn : Snappy⦄ where
  cache-store_revision :
      (repo : PathRepo) (r : ℤ) (c : Text) → (store_revision repo r c).1.cache ≡ repo.cache
  unfolding store_revision
  cache-store_revision repo r c = ground arith

  cache-commit_data :
      (repo : PathRepo) (r : ℤ) (o : Option Text) → (commit_data repo r o).1.cache ≡ repo.cache
  unfolding commit_data
  cache-commit_data repo r none = refl
  cache-commit_data repo r (some c) = cache-store_revision repo r c

  cache-path_repo_commit :
      (repo : PathRepo) (r : ℤ) → (path_repo_commit repo r).1.cache ≡ repo.cache
  unfolding path_repo_commit
  cache-path_repo_commit repo r = ground (arith, cache-commit_data repo r)

  -- The tree that the cache holds for a revision after a query of it.
  record Kept (repo : PathRepo) (s : PathSet) (n : ℕ) : Type 0 where
    tree : cb.Tree
    held : find_cached repo.cache (pos n) ≡ some tree
    shows : Shows tree s

  unborn-Records :
      (repo : PathRepo) (hist : ℕ → PathSet) (n : ℕ)
      → IsHistory repo hist n
      → is_snapshot (pos n) ≡ false
      → Records repo.db (extend hist n (latest hist n)) (n + 1)
  unborn-Records repo hist n i plain r h = elim (Bool-cases (r == n)) [
    | inl same ↦
        let e : r ≡ n = ground arith in
        rw
          (
            e,
            extend_new hist n (latest hist n),
            start_extend hist n n (latest hist n) (le_refl n),
            start_latest hist n plain,
          )
          (unchanged (i.unborn n (le_refl n)) (λ q. refl))
    | inr other ↦
        rw
          (
            extend_old hist n r (latest hist n) (ground arith),
            start_extend hist n r (latest hist n) (ground arith),
          )
          (i.records r (ground arith))
  ]

  fill_slot-Kept :
      (repo : PathRepo) (hist : ℕ → PathSet) (n : ℕ) (slot : CacheEntry)
      → IsHistory repo hist n
      → is_snapshot (pos n) ≡ false
      → Kept (fill_slot repo (pos n) slot).1 (latest hist n) n
  unfolding fill_slot
  fill_slot-Kept repo hist n slot i plain =
      let b =
        pr_reconstruct-Rebuilt repo.db (cleared slot.tree) (extend hist n (latest hist n)) (n + 1) n
          i.db_valid (unborn-Records repo hist n i plain) (omega arith) (cleared-Shows slot.tree) in
      let t = (pr_reconstruct repo.db (cleared slot.tree) (pos n)).1 in
      rw (b.status, fill_slot)
        (record {
          tree = t;
          held =
              find_cached-set repo.cache repo.cache_index n t
                (unborn_uncached hist n repo.cache i.cached) i.indexed;
          shows = rw (← extend_new hist n (latest hist n)) b.shows;
        })

  exists-Kept :
      (repo : PathRepo) (hist : ℕ → PathSet) (n : ℕ) (q : Text)
      → IsHistory repo hist n
      → is_snapshot (pos n) ≡ false
      → Kept (path_repo_exists repo q (pos n)).1 (latest hist n) n
  unfolding path_repo_exists query pr_tree
  exists-Kept repo hist n q i plain =
      let (slot, at) = get_elem?-lt repo.cache repo.cache_index i.indexed in
      rw (pr_tree, unborn_uncached hist n repo.cache i.cached, at)
        (fill_slot-Kept repo hist n slot i plain)

  Kept-answer :
      (repo : PathRepo) (s : PathSet) (n : ℕ) (p : Text)
      → Kept repo s n
      → (path_repo_exists repo p (pos n)).0 ≡ shown (s p)
  unfolding path_repo_exists query answer pr_tree
  Kept-answer repo s n p k = rw (pr_tree, k.held) (ground (arith, k.shows p))

  -- If path_repo_exists() is asked about the next revision, no snapshot, before it is committed,
  -- then its answers about that revision after the commit are those of the revision before,
  -- whatever paths were added or deleted in between, as long as the cache is the one it left.
  pub path_repo_exists_stale :
      (repo edited : PathRepo) (hist : ℕ → PathSet) (n : ℕ) (q p : Text)
      → IsHistory repo hist n
      → is_snapshot (pos n) ≡ false
      → edited.cache ≡ (path_repo_exists repo q (pos n)).1.cache
      → (path_repo_exists (path_repo_commit edited (pos n)).1 p (pos n)).0 ≡ shown (latest hist n p)
  path_repo_exists_stale repo edited hist n q p i plain same =
      let k = exists-Kept repo hist n q i plain in
      Kept-answer (path_repo_commit edited (pos n)).1 (latest hist n) n p (record {
        tree = k.tree;
        held = rw (cache-path_repo_commit edited (pos n), same) k.held;
        shows = k.shows;
      })
