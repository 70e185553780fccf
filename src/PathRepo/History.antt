-- ===== src/PathRepo/History.antt =====
-- The specification of the path repository: a set of paths for each committed revision, and the
-- set that is being edited; and how a repository represents it.
use rsvndump.Base.{
  ℕ, zero, suc, ◌-◌, ◌≤◌, ◌<◌, Text, IsText, pos, ◌≡◌, refl, ap, true, none, some, List, [], All,
  length, ◌==◌, if◌then◌else◌, arith,
}
use rsvndump.Apr.{AprHash, AprStrings}
use rsvndump.Critbit.{Critbit}
use rsvndump.Snappy.{Snappy}
use rsvndump.Stdio.{File}
use rsvndump.Mukv.{Mukv}
use rsvndump.Mukv.View.{IsValid, view, view-mukv_open}
use rsvndump.PathRepo.Codec.RoundTrip.{PathSet, after, IsDelta, Shows, delta_size}
use rsvndump.PathRepo.{PathRepo, CacheEntry, cache_entries, cache_size, path_repo_create}
use rsvndump.PathRepo.Rebuild.{no_paths, unchanged, Records}

-- The paths of the last of `n` committed revisions.
abbrev pub latest : (ℕ → PathSet) → ℕ → PathSet
latest hist zero = no_paths
latest hist (suc n) = hist n

-- The history with one more revision.
abbrev pub extend : (ℕ → PathSet) → ℕ → PathSet → ℕ → PathSet
extend hist n s r = if r == n then s else hist r

module _ ⦃cb : Critbit⦄ where
  -- A cached tree of a revision is that of a committed revision, as it was committed.
  abbrev pub IsFresh : (ℕ → PathSet) → ℕ → CacheEntry → Type 0
  IsFresh hist n e = (r : ℕ) → e.revision ≡ pos r → (r < n) × Shows e.tree (hist r)

  abbrev pub AllFresh : (ℕ → PathSet) → ℕ → List CacheEntry → Type 0
  AllFresh hist n = All (IsFresh hist n)

module _ ⦃apr : AprHash⦄ ⦃strings : AprStrings⦄ ⦃cb : Critbit⦄ ⦃sn : Snappy⦄ where
  -- The revisions below `n` are committed, with the paths of `hist`, and the scheduled actions lead
  -- from the last of them to the current tree.
  pub record IsHistory (repo : PathRepo) (hist : ℕ → PathSet) (n : ℕ) : Type 0 where
    pub db_valid : IsValid repo.db
    pub head : repo.head ≡ pos (n - 1)
    pub records : Records repo.db hist n
    pub unborn : (r : ℕ) → n ≤ r → view repo.db (strings.itoa (pos r)) ≡ none
    pub is_delta : IsDelta repo.delta
    pub counted : repo.delta_len ≡ delta_size repo.delta
    pub pending : Shows repo.tree (after repo.delta (latest hist n))
    pub texts : (q : Text) → cb.contains repo.tree q ≡ true → IsText q
    pub named : (r : ℕ) (q : Text) → r < n → hist r q ≡ true → IsText q
    pub cached : AllFresh hist n repo.cache
    pub indexed : repo.cache_index < length repo.cache

  created-Records :
      (db : Mukv) (n : ℕ) → ((k : Text) → view db k ≡ none) → n ≤ 1 → Records db (λ _. no_paths) n
  created-Records db n e h zero lt = unchanged (e _) (λ q. refl)
  created-Records db n e h (suc r) lt = absurd (omega arith)

  cache_entries-AllFresh : (hist : ℕ → PathSet) (n k : ℕ) → AllFresh hist n (cache_entries k)
  unfolding cache_entries
  cache_entries-AllFresh hist n zero = tt
  cache_entries-AllFresh hist n (suc k) = ((λ r e. cc), cache_entries-AllFresh hist n k)

  latest_none : (n : ℕ) → latest (λ _. no_paths) n ≡ no_paths
  latest_none zero = refl
  latest_none (suc n) = refl

  -- A new repository, on a file that can be positioned, has no path: whether revision 0 is taken as
  -- committed, empty, or not.
  pub path_repo_create-IsHistory :
      (f : File) (n : ℕ)
      → f.seekable ≡ true
      → n ≤ 1
      → (repo : PathRepo) × (path_repo_create (some f) ≡ some repo)
        × IsHistory repo (λ _. no_paths) n
  unfolding path_repo_create
  path_repo_create-IsHistory f n h small =
      let (db, opened, valid, empty) = view-mukv_open f h in
      (
        record {
          db = db;
          delta = [];
          delta_len = 0;
          tree = cb.tree_make;
          head = pos 0;
          cache = cache_entries cache_size;
          cache_index = 0;
        },
        rw (opened, path_repo_create),
        record {
          db_valid = valid;
          head = ap pos (omega arith);
          records = created-Records db n empty small;
          unborn = λ r _. empty _;
          is_delta = tt;
          counted = refl;
          pending = λ q. rw (latest_none n) (cb.contains-tree_make q);
          texts = λ q e. cc (cb.contains-tree_make q);
          named = λ r q lt e. cc;
          cached = cache_entries-AllFresh _ n cache_size;
          indexed = unfold cache_entries in omega arith;
        },
      )
