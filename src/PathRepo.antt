-- ===== src/PathRepo.antt =====
-- src/path_repo.c: the paths of every revision, stored as deltas and snapshots, with a small cache
-- of whole trees. A function that changes `*repo` returns the new repository beside its status.
pub mod Codec
pub mod Edit
pub mod Rebuild
pub mod History
use rsvndump.Base.{
  ℕ, zero, suc, ◌+◌, ◌-◌, ◌*◌, ◌/◌, ◌%◌, Text, ℤ, pos, negsuc, incz, eqz, lez, Bool, true, false,
  not, ◌&&◌, ◌||◌, Option, none, some, List, [], ◌∷◌, ◌++◌, length, set, get_elem?, ltb, leb, ◌==◌,
  if◌then◌else◌, Status, success, failure, codes,
}
use rsvndump.Apr.{AprHash, AprStrings}
use rsvndump.Critbit.{Critbit}
use rsvndump.Snappy.{Snappy}
use rsvndump.Stdio.{File}
use rsvndump.Mukv.{Mukv, mukv_open, mukv_store, mukv_fetch, mukv_exists}
use rsvndump.PathRepo.Codec.{
  DeltaEntry, pr_tree_to_array, pr_encode, encode_entries, pr_delta_apply,
}

-- SNAPSHOT_INTERVAL and CACHE_SIZE
abbrev pub snapshot_interval : ℕ
snapshot_interval = 1024

abbrev pub cache_size : ℕ
cache_size = 4

-- What path_repo_exists() and path_repo_check_parent() answer: 1, 0 or -1.
pub data Answer : Type 0 where
  present absent unknown : Answer

module _ ⦃cb : Critbit⦄ where
  -- pr_cache_entry_t
  pub record CacheEntry : Type 0 where
    pub revision : ℤ
    pub tree : cb.Tree

module _ ⦃apr : AprHash⦄ ⦃cb : Critbit⦄ where
  -- path_repo_t
  pub record PathRepo : Type 0 where
    pub db : Mukv
    pub delta : List DeltaEntry
    pub delta_len : ℕ
    pub tree : cb.Tree
    pub head : ℤ
    pub cache : List CacheEntry
    pub cache_index : ℕ

  -- the rounds of the loop in pr_cache_init()
  cache_entries : ℕ → List CacheEntry
  cache_entries zero = []
  cache_entries (suc n) = record { revision = negsuc 0; tree = cb.tree_make } ∷ cache_entries n

  -- pr_cache_init() in path_repo_create(). The argument is what mukv_open() opens.
  unfoldable pub path_repo_create : Option File → Option PathRepo
  unfolding cache_entries
  path_repo_create file = elim (mukv_open file) [
    | none ↦ none
    | some db ↦ some (record {
      db = db;
      delta = [];
      delta_len = 0;
      tree = cb.tree_make;
      head = pos 0;
      cache = cache_entries cache_size;
      cache_index = 0;
    })
  ]

-- revision & ~(SNAPSHOT_INTERVAL-1), and the rounds from there to the revision
pub snapshot_base : ℤ → ℤ
snapshot_base (pos n) = pos (n - n % snapshot_interval)
snapshot_base (negsuc n) = negsuc (n - n % snapshot_interval + (snapshot_interval - 1))

pub rounds : ℤ → ℕ
rounds (pos n) = n % snapshot_interval + 1
rounds (negsuc n) = snapshot_interval - n % snapshot_interval

-- revision > 0 && revision % SNAPSHOT_INTERVAL == 0
unfoldable pub is_snapshot : ℤ → Bool
is_snapshot (pos n) = ltb 0 n && n % snapshot_interval == 0
is_snapshot (negsuc n) = false

module _ ⦃cb : Critbit⦄ ⦃sn : Snappy⦄ where
  -- What is done with the compressed data of a revision. A read past the data counts as a failure.
  pub apply_data : cb.Tree → Option Text → Status × cb.Tree
  apply_data tree none = (failure, tree)
  apply_data tree (some val) = elim (sn.uncompressed_length val) [
    | none ↦ (failure, tree)
    | some dsize ↦ elim (sn.uncompress val) [
      | none ↦ (failure, tree)
      | some dptr ↦ elim (pr_delta_apply tree dptr dsize) [
        | none ↦ (failure, tree)
        | some t ↦ (success, t)
      ]
    ]
  ]

pub next_index : ℕ → ℕ → ℕ
next_index i n = if leb n (i + 1) then 0 else i + 1

module _ ⦃cb : Critbit⦄ where
  -- the first entry of the cache with that revision
  pub find_cached : List CacheEntry → ℤ → Option cb.Tree
  find_cached [] revision = none
  find_cached (e ∷ es) revision =
      if eqz e.revision revision then some e.tree else find_cached es revision

  -- The tree of a slot is cleared before it is built anew.
  pub cleared : cb.Tree → cb.Tree
  cleared t = if cb.rooted t then cb.tree_clear t else t

module _ ⦃apr : AprHash⦄ ⦃strings : AprStrings⦄ ⦃cb : Critbit⦄ ⦃sn : Snappy⦄ where
  -- one round of pr_reconstruct()
  pub apply_revision : Mukv → cb.Tree → ℤ → Status × cb.Tree × Mukv
  unfolding apply_data
  apply_revision db tree r =
      if mukv_exists db (strings.itoa r)
      then (let (val, db') = mukv_fetch db (strings.itoa r) in
          let (s, t) = apply_data tree val in (s, t, db'))
      else (success, tree, db)

  -- the loop: `r` goes up while it is not beyond the revision
  pub apply_revisions : ℕ → Mukv → cb.Tree → ℤ → Status × cb.Tree × Mukv
  unfolding apply_revision
  apply_revisions zero db tree r = (success, tree, db)
  apply_revisions (suc n) db tree r =
      let (s, t, db') = apply_revision db tree r in
      elim s [ failure ↦ (failure, t, db') | success ↦ apply_revisions n db' t (incz r) ]

  pub pr_reconstruct : Mukv → cb.Tree → ℤ → Status × cb.Tree × Mukv
  unfolding apply_revisions snapshot_base rounds
  pr_reconstruct db tree revision =
      apply_revisions (rounds revision) db tree (snapshot_base revision)

  -- The slot at `cache_index` is built anew. Where that fails, it keeps its old revision.
  pub fill_slot : PathRepo → ℤ → CacheEntry → Option cb.Tree × PathRepo
  unfolding pr_reconstruct cleared next_index
  fill_slot repo revision slot =
      let (s, t, db) = pr_reconstruct repo.db (cleared slot.tree) revision in
      elim s [
        | failure ↦ (
          none,
          record repo {
            db = db;
            cache = set repo.cache repo.cache_index (record slot { tree = t });
          },
        )
        | success ↦ (
          some t,
          record repo {
            db = db;
            cache = set repo.cache repo.cache_index (record { revision = revision; tree = t });
            cache_index = next_index repo.cache_index (length repo.cache);
          },
        )
      ]

  -- `none` is NULL. An index outside the cache, which no caller sets, counts as NULL too.
  pub pr_tree : PathRepo → ℤ → Option cb.Tree × PathRepo
  unfolding find_cached fill_slot
  pr_tree repo revision = elim (find_cached repo.cache revision) [
    | some tree ↦ (some tree, repo)
    | none ↦ elim (get_elem? repo.cache repo.cache_index) [
      | none ↦ (none, repo)
      | some slot ↦ fill_slot repo revision slot
    ]
  ]
