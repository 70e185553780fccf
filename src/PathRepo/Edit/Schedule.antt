-- ===== src/PathRepo/Edit/Schedule.antt =====
-- path_repo_add() and path_repo_delete() edit the current set of paths and keep the history.
use rsvndump.Base.{
  ℕ, ◌+◌, Text, text_eq, text_eq_iff, IsText, ◌≡◌, ◌↔◌, refl, subst, ◌∙◌, true, false, not, ◌||◌,
  ◌&&◌, List, [], ◌∷◌, ◌++◌, All, All-append, length, arith, success, Bool-cases, inl, inr,
}
use rsvndump.Apr.{AprHash, AprStrings}
use rsvndump.Critbit.{Critbit, elem}
use rsvndump.Snappy.{Snappy}
use rsvndump.PathRepo.Codec.{DeltaEntry, pr_tree_to_array}
use rsvndump.PathRepo.Codec.RoundTrip.{PathSet, after_action, after, delta_size}
use rsvndump.PathRepo.Codec.Children.{below, elem-pr_tree_to_array, All-of_elem, contains_of_elem}
use rsvndump.PathRepo.{PathRepo}
use rsvndump.PathRepo.Edit.{path_repo_add, path_repo_delete, delete_path, delete_paths}
use rsvndump.PathRepo.History.{IsHistory}

after-append :
    (es : List DeltaEntry) (e : DeltaEntry) (s : PathSet) (q : Text)
    → after (es ++ e ∷ []) s q ≡ after_action e.action e.path (after es s) q
after-append [] e s q = refl
after-append (d ∷ es) e s q = after-append es e (after_action d.action d.path s) q

delta_size-append :
    (es : List DeltaEntry) (e : DeltaEntry)
    → delta_size (es ++ e ∷ []) ≡ delta_size es + (2 + length e.path)
delta_size-append [] e = omega arith
delta_size-append (d ∷ es) e = omega (arith, delta_size-append es e)

module _ ⦃apr : AprHash⦄ ⦃strings : AprStrings⦄ ⦃cb : Critbit⦄ ⦃sn : Snappy⦄ where
  scheduled_texts :
      (repo : PathRepo) (a : ℕ) (p : Text) (t : cb.Tree)
      → ((q : Text) → cb.contains repo.tree q ≡ true → IsText q)
      → IsText p
      → ((q : Text) → cb.contains t q ≡ after_action a p (cb.contains repo.tree) q)
      → (q : Text) → cb.contains t q ≡ true
      → IsText q
  scheduled_texts repo a p t old hp sh q e = elim (Bool-cases (text_eq p q)) [
    | inl same ↦ subst IsText ((text_eq_iff p q).0 same) hp
    | inr other ↦ old q (ground (arith, sh q))
  ]

  -- A repository where one action is scheduled and carried out on the tree.
  scheduled-IsHistory :
      (repo : PathRepo) (hist : ℕ → PathSet) (n : ℕ) (a : ℕ) (p : Text) (t : cb.Tree)
      → IsHistory repo hist n
      → IsText p
      → ((q : Text) → cb.contains t q ≡ after_action a p (cb.contains repo.tree) q)
      → IsHistory
          (record repo {
            delta = repo.delta ++ record { action = a; path = p } ∷ [];
            delta_len = repo.delta_len + (2 + length p);
            tree = t;
          })
          hist
          n
  scheduled-IsHistory repo hist n a p t i hp sh = record {
    db_valid = i.db_valid;
    head = i.head;
    records = i.records;
    unborn = i.unborn;
    is_delta = All-append _ repo.delta _ i.is_delta (hp, tt);
    counted = rw (delta_size-append, i.counted);
    pending = λ q. rw (sh q, after-append, i.pending q);
    texts = λ q e. scheduled_texts repo a p t i.texts hp sh q e;
    named = i.named;
    cached = i.cached;
    indexed = i.indexed;
  }

  -- path_repo_add() of a path makes it a path of the current tree and keeps all others and the
  -- history. It succeeds exactly where the path was not there.
  pub path_repo_add-IsHistory :
      (repo : PathRepo) (hist : ℕ → PathSet) (n : ℕ) (p : Text)
      → IsHistory repo hist n
      → IsText p
      → IsHistory (path_repo_add repo p).1 hist n
        × ((q : Text)
            → cb.contains (path_repo_add repo p).1.tree q ≡ text_eq p q || cb.contains repo.tree q)
        × (((path_repo_add repo p).0 ≡ success) ↔ (cb.contains repo.tree p ≡ false))
  unfolding path_repo_add
  path_repo_add-IsHistory repo hist n p i hp = (
    scheduled-IsHistory repo hist n b'+' p _ i hp
        (λ q. ground (arith, cb.contains-insert repo.tree p q)),
    cb.contains-insert repo.tree p,
    ground (arith, cb.insert_status repo.tree p),
  )

  delete_path-IsHistory :
      (repo : PathRepo) (hist : ℕ → PathSet) (n : ℕ) (p : Text)
      → IsHistory repo hist n
      → IsText p
      → IsHistory (delete_path repo p) hist n
  unfolding delete_path
  delete_path-IsHistory repo hist n p i hp =
      scheduled-IsHistory repo hist n b'-' p _ i hp
        (λ q. ground (arith, cb.contains-delete repo.tree p q))

  delete_paths-IsHistory :
      (repo : PathRepo) (hist : ℕ → PathSet) (n : ℕ) (l : List Text)
      → IsHistory repo hist n
      → All IsText l
      → IsHistory (delete_paths repo l) hist n
  unfolding delete_paths
  delete_paths-IsHistory repo hist n [] i h = i
  delete_paths-IsHistory repo hist n (p ∷ l) i h =
      delete_paths-IsHistory (delete_path repo p) hist n l
        (delete_path-IsHistory repo hist n p i h.0) h.1

  contains-delete_paths :
      (repo : PathRepo) (l : List Text) (q : Text)
      → cb.contains (delete_paths repo l).tree q ≡ cb.contains repo.tree q && not (elem q l)
  unfolding delete_paths delete_path
  contains-delete_paths repo [] q = ground arith
  contains-delete_paths repo (p ∷ l) q =
      contains-delete_paths (delete_path repo p) l q
      ∙ ground (arith, cb.contains-delete repo.tree p q)

  -- what path_repo_delete() takes out, of any text
  pub contains-path_repo_delete :
      (repo : PathRepo) (p q : Text)
      → ((x : Text) → cb.contains repo.tree x ≡ true → IsText x)
      → cb.contains (path_repo_delete repo p).1.tree q ≡ cb.contains repo.tree q && not (below p q)
  unfolding path_repo_delete
  contains-path_repo_delete repo p q texts =
      let gone = contains-delete_paths repo (pr_tree_to_array repo.tree p) q in
      elim (Bool-cases (cb.contains repo.tree q)) [
        | inl e ↦
            let listed = elem-pr_tree_to_array repo.tree p q (texts q e) in
            ground (arith, gone, e, listed)
        | inr e ↦ ground (arith, gone, e)
      ]

  -- path_repo_delete() of a path takes it and all that lies below it out of the current tree, keeps
  -- all other paths and the history, and succeeds.
  pub path_repo_delete-IsHistory :
      (repo : PathRepo) (hist : ℕ → PathSet) (n : ℕ) (p : Text)
      → IsHistory repo hist n
      → IsHistory (path_repo_delete repo p).1 hist n
        × ((q : Text)
            → IsText q
            → cb.contains (path_repo_delete repo p).1.tree q
              ≡ cb.contains repo.tree q && not (below p q))
        × ((path_repo_delete repo p).0 ≡ success)
  unfolding path_repo_delete
  path_repo_delete-IsHistory repo hist n p i =
      let l = pr_tree_to_array repo.tree p in
      (
        delete_paths-IsHistory repo hist n l i
            (All-of_elem IsText l (λ q e. i.texts q (contains_of_elem repo.tree p q e))),
        λ q hq.
            ground (arith, contains-delete_paths repo l q, elem-pr_tree_to_array repo.tree p q hq),
        refl,
      )
