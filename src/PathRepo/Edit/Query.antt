-- ===== src/PathRepo/Edit/Query.antt =====
-- path_repo_exists() and path_repo_check_parent() answer from the history, through the cache.
use rsvndump.Base.{
  Status-cases, ℤ, ℕ, zero, suc, ◌<◌, Text, pos, eqz, eqz_iff, ◌≡◌, refl, ap, subst, ◌∙◌, Bool,
  true, false, Option, none, some, List, [], ◌∷◌, ◌++◌, length, set, get_elem?, arith, Bool-cases,
  Option-cases, inl, inr,
}
use rsvndump.Apr.{AprHash, AprStrings}
use rsvndump.Critbit.{Critbit}
use rsvndump.Snappy.{Snappy}
use rsvndump.PathRepo.Codec.RoundTrip.{PathSet, Shows}
use rsvndump.PathRepo.{
  PathRepo, CacheEntry, Answer, present, absent, find_cached, cleared, fill_slot, next_index,
  pr_reconstruct, pr_tree,
}
use rsvndump.PathRepo.Rebuild.{no_paths, Records-same, pr_reconstruct-Rebuilt}
use rsvndump.PathRepo.History.{IsHistory, IsFresh, AllFresh}
use rsvndump.PathRepo.Edit.{answer, query, path_repo_exists, path_repo_check_parent}

length-set {ℓ} : {A : Type ℓ} (l : List A) (i : ℕ) (v : A) → length (set l i v) ≡ length l
length-set [] i v = refl
length-set (x ∷ l) zero v = refl
length-set (x ∷ l) (suc i) v = ap suc (length-set l i v)

pub get_elem?-lt {ℓ} :
    {A : Type ℓ} (l : List A) (i : ℕ) → i < length l → (a : A) × (get_elem? l i ≡ some a)
get_elem?-lt [] i h = absurd (omega arith)
get_elem?-lt (x ∷ l) zero h = (x, refl)
get_elem?-lt (x ∷ l) (suc i) h = get_elem?-lt l i (omega arith)

next_index-lt : (i n : ℕ) → 0 < n → next_index i n < n
unfolding next_index
next_index-lt i n h = ground arith

abbrev pub shown : Bool → Answer
shown true = present
shown false = absent

module _ ⦃cb : Critbit⦄ where
  set-AllFresh :
      (hist : ℕ → PathSet) (n : ℕ) (l : List CacheEntry) (i : ℕ) (e : CacheEntry)
      → AllFresh hist n l
      → IsFresh hist n e
      → AllFresh hist n (set l i e)
  set-AllFresh hist n [] i e h f = tt
  set-AllFresh hist n (x ∷ l) zero e h f = (f, h.1)
  set-AllFresh hist n (x ∷ l) (suc i) e h f = (h.0, set-AllFresh hist n l i e h.1 f)

  find_cached-Shows :
      (hist : ℕ → PathSet) (n : ℕ) (l : List CacheEntry) (r : ℕ) (t : cb.Tree)
      → AllFresh hist n l
      → find_cached l (pos r) ≡ some t
      → Shows t (hist r)
  unfolding find_cached
  find_cached-Shows hist n [] r t h e = cc
  find_cached-Shows hist n (x ∷ l) r t h e = elim (Bool-cases (eqz x.revision (pos r))) [
    | inl hit ↦
        let same : x.tree ≡ t = ground (arith, e, hit) in
        subst (λ (u : cb.Tree). Shows u (hist r)) same (h.0 r ((eqz_iff _ _).0 hit)).1
    | inr miss ↦ find_cached-Shows hist n l r t h.1 (ground (arith, e, miss))
  ]

  pub cleared-Shows : (t : cb.Tree) → Shows (cleared t) no_paths
  unfolding cleared
  cleared-Shows t q = ground (arith, cb.contains-tree_clear t q, cb.contains_rooted t q)

module _ ⦃apr : AprHash⦄ ⦃strings : AprStrings⦄ ⦃cb : Critbit⦄ ⦃sn : Snappy⦄ where
  -- What a query of the history gives and leaves.
  pub record Served (x : Option cb.Tree × PathRepo) (hist : ℕ → PathSet) (n r : ℕ) : Type 0 where
    pub tree : cb.Tree
    pub found : x.0 ≡ some tree
    pub shows : Shows tree (hist r)
    pub kept : IsHistory x.1 hist n

  fill_slot-Served :
      (repo : PathRepo) (hist : ℕ → PathSet) (n r : ℕ) (slot : CacheEntry)
      → IsHistory repo hist n
      → r < n
      → Served (fill_slot repo (pos r) slot) hist n r
  unfolding fill_slot
  fill_slot-Served repo hist n r slot i h =
      let b =
        pr_reconstruct-Rebuilt repo.db (cleared slot.tree) hist n r i.db_valid i.records h
          (cleared-Shows slot.tree) in
      let (s, t, db) = pr_reconstruct repo.db (cleared slot.tree) (pos r) in
      rw (b.status, fill_slot)
        (record {
          tree = t;
          found = refl;
          shows = b.shows;
          kept = record {
            db_valid = b.valid;
            head = i.head;
            records = Records-same repo.db db hist n b.same i.records;
            unborn = λ k hk. b.same _ ∙ i.unborn k hk;
            is_delta = i.is_delta;
            counted = i.counted;
            pending = i.pending;
            texts = i.texts;
            named = i.named;
            cached = set-AllFresh hist n repo.cache repo.cache_index _ i.cached (λ k e.
                let same : r ≡ k = cc in subst (λ m. (m < n) × Shows t (hist m)) same (h, b.shows));
            indexed = rw length-set (next_index-lt _ _ (omega (arith, i.indexed)));
          };
        })

  found-Served :
      (repo : PathRepo) (hist : ℕ → PathSet) (n r : ℕ) (t : cb.Tree)
      → IsHistory repo hist n
      → find_cached repo.cache (pos r) ≡ some t
      → Served (pr_tree repo (pos r)) hist n r
  unfolding pr_tree
  found-Served repo hist n r t i e =
      rw (e, pr_tree)
        (record {
          tree = t;
          found = refl;
          shows = find_cached-Shows hist n repo.cache r t i.cached e;
          kept = i;
        })

  missed-Served :
      (repo : PathRepo) (hist : ℕ → PathSet) (n r : ℕ)
      → IsHistory repo hist n
      → r < n
      → find_cached repo.cache (pos r) ≡ none
      → Served (pr_tree repo (pos r)) hist n r
  unfolding pr_tree
  missed-Served repo hist n r i h e =
      let (slot, at) = get_elem?-lt repo.cache repo.cache_index i.indexed in
      rw (e, at, pr_tree) (fill_slot-Served repo hist n r slot i h)

  -- For a committed revision pr_tree() gives a tree with exactly its paths, cached or built anew,
  -- and keeps the history.
  pub pr_tree-Served :
      (repo : PathRepo) (hist : ℕ → PathSet) (n r : ℕ)
      → IsHistory repo hist n
      → r < n
      → Served (pr_tree repo (pos r)) hist n r
  pr_tree-Served repo hist n r i h = elim (Option-cases (find_cached repo.cache (pos r))) [
    | inl e ↦ missed-Served repo hist n r i h e
    | inr (t, e) ↦ found-Served repo hist n r t i e
  ]

  -- The current set of paths is not touched.
  pub tree-pr_tree : (repo : PathRepo) (r : ℤ) → (pr_tree repo r).1.tree ≡ repo.tree
  unfolding pr_tree fill_slot
  tree-pr_tree repo r = elim (Option-cases (find_cached repo.cache r)) [
    | inr (t, e) ↦ rw (e, pr_tree) refl
    | inl e ↦ elim (Option-cases (get_elem? repo.cache repo.cache_index)) [
      | inl f ↦ rw (e, f, pr_tree) refl
      | inr (slot, f) ↦ elim (Status-cases (pr_reconstruct repo.db (cleared slot.tree) r).0) [
        | inl g ↦ rw (e, f, pr_tree) (rw (g, fill_slot) refl)
        | inr g ↦ rw (e, f, pr_tree) (rw (g, fill_slot) refl)
      ]
    ]
  ]

  pub query_lem :
      (repo : PathRepo) (hist : ℕ → PathSet) (n r : ℕ) (p : Text)
      → IsHistory repo hist n
      → r < n
      → ((query repo p (pos r)).0 ≡ shown (hist r p)) × IsHistory (query repo p (pos r)).1 hist n
  unfolding query answer
  query_lem repo hist n r p i h =
      let s = pr_tree-Served repo hist n r i h in (rw s.found (ground (arith, s.shows p)), s.kept)

  -- For a committed revision path_repo_exists() says whether the path was there, and
  -- path_repo_check_parent() whether the path "parent/child" was. Both keep the history.
  pub path_repo_exists-hist :
      (repo : PathRepo) (hist : ℕ → PathSet) (n r : ℕ) (p parent child : Text)
      → IsHistory repo hist n
      → r < n
      → ((path_repo_exists repo p (pos r)).0 ≡ shown (hist r p))
        × IsHistory (path_repo_exists repo p (pos r)).1 hist n
        × ((path_repo_check_parent repo parent child (pos r)).0
            ≡ shown (hist r (parent ++ (b'/' ∷ child))))
        × IsHistory (path_repo_check_parent repo parent child (pos r)).1 hist n
  unfolding path_repo_exists path_repo_check_parent
  path_repo_exists-hist repo hist n r p parent child i h =
      let a = query_lem repo hist n r p i h in
      let b = query_lem repo hist n r (parent ++ (b'/' ∷ child)) i h in (a.0, a.1, b.0, b.1)
