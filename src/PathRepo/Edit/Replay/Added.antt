-- ===== src/PathRepo/Edit/Replay/Added.antt =====
-- What the actions that add a path make of the current set of paths.
use rsvndump.Base.{
  ◌&&◌, text_eq_refl, starts_with, ℕ, zero, suc, ◌<◌, Text, IsText, ℤ, pos, ◌≡◌, refl, ◌∙◌, true,
  ◌||◌, Option, none, some, List, [], ◌∷◌, length, drop, Status, success, All, All-append, arith,
  inl, inr, Bool-cases,
}
use rsvndump.Apr.{AprHash, AprStrings}
use rsvndump.Critbit.{Critbit, elem}
use rsvndump.Snappy.{Snappy}
use rsvndump.Ra.{Ra}
use rsvndump.PathRepo.Codec.{pr_tree_to_array}
use rsvndump.PathRepo.Codec.RoundTrip.{PathSet, Shows}
use rsvndump.PathRepo.Codec.Children.{
  below, elem-pr_tree_to_array, All-of_elem, contains_of_elem, starts_with_of_elem,
}
use rsvndump.PathRepo.{PathRepo, pr_tree}
use rsvndump.PathRepo.History.{IsHistory}
use rsvndump.PathRepo.Edit.{path_repo_add}
use rsvndump.PathRepo.Edit.Schedule.{path_repo_add-IsHistory}
use rsvndump.PathRepo.Edit.Query.{pr_tree-Served, tree-pr_tree}
use rsvndump.PathRepo.Edit.Replay.Meaning.{
  original, with_copy, added, copied_paths-moved_paths, elem-moved_paths,
}
use rsvndump.PathRepo.Edit.Replay.{add_paths, moved_paths, add_copied, add_change}

IsText-drop : (k : ℕ) (p : Text) → IsText p → IsText (drop k p)
IsText-drop zero p h = h
IsText-drop (suc k) [] h = tt
IsText-drop (suc k) (c ∷ p) h = IsText-drop k p h.1

moved_texts :
    (path : Text) (k : ℕ) (l : List Text)
    → IsText path
    → All IsText l
    → All IsText (moved_paths path k l)
unfolding moved_paths
moved_texts path k [] t h = tt
moved_texts path k (p ∷ l) t h =
    (All-append _ path (drop k p) t (IsText-drop k p h.0), moved_texts path k l t h.1)

-- A copy comes from a path of the session that is there in one of the first `n` revisions.
abbrev pub IsLocal : (ℕ → PathSet) → ℕ → Option (Option Text × ℤ) → Type 0
IsLocal hist n none = Unit
IsLocal hist n (some (none, r)) = ⊥
IsLocal hist n (some (some path, r)) = (k : ℕ) × (r ≡ pos k) × (k < n) × (hist k path ≡ true)

module _ ⦃apr : AprHash⦄ ⦃strings : AprStrings⦄ ⦃cb : Critbit⦄ ⦃sn : Snappy⦄ ⦃ra : Ra⦄ where
  -- A step that succeeds and keeps the history, with a set of paths as the current one.
  pub record Made (hist : ℕ → PathSet) (n : ℕ) (s : PathSet) (x : Status × PathRepo) : Type 0 where
    pub done : x.0 ≡ success
    pub kept : IsHistory x.1 hist n
    pub shows : Shows x.1.tree s

  add_paths-IsHistory :
      (repo : PathRepo) (hist : ℕ → PathSet) (n : ℕ) (l : List Text)
      → IsHistory repo hist n
      → All IsText l
      → IsHistory (add_paths repo l) hist n
        × Shows (add_paths repo l).tree (λ q. cb.contains repo.tree q || elem q l)
  unfolding add_paths
  add_paths-IsHistory repo hist n [] i h = (i, λ q. ground arith)
  add_paths-IsHistory repo hist n (p ∷ l) i h =
      let (j, there, _) = path_repo_add-IsHistory repo hist n p i h.0 in
      let (k, rest) = add_paths-IsHistory (path_repo_add repo p).1 hist n l j h.1 in
      (k, λ q. rest q ∙ ground (arith, there q))

  elem-served :
      (t : cb.Tree) (source q : Text) (old : PathSet)
      → Shows t old
      → ((x : Text) → old x ≡ true → IsText x)
      → elem q (pr_tree_to_array t source) ≡ old q && below source q
  elem-served t source q old h texts = elim (Bool-cases (old q)) [
    | inl e ↦ ground (arith, elem-pr_tree_to_array t source q (texts q e), h q, e)
    | inr e ↦ ground (arith, contains_of_elem t source q, h q, e)
  ]

  below_self : (p : Text) → below p p ≡ true
  below_self [] = refl
  below_self (c ∷ p) = ground (arith, text_eq_refl (c ∷ p))

  Made-add_copied :
      (repo : PathRepo) (hist : ℕ → PathSet) (n k : ℕ) (path source : Text) (s : PathSet)
      → IsHistory repo hist n
      → Shows repo.tree s
      → k < n
      → hist k source ≡ true
      → IsText path
      → Made hist n (with_copy (hist k) source path s) (add_copied repo path source (pos k))
  unfolding add_copied
  Made-add_copied repo hist n k path source s i sh h there t =
      let v = pr_tree-Served repo hist n k i h in
      let arr = pr_tree_to_array v.tree source in
      let moved = moved_paths path (length source) arr in
      let listed =
        λ (q : Text). elem-served v.tree source q (hist k) v.shows (λ x. i.named k x h) in
      let first : elem source arr ≡ true =
        listed source ∙ ground (arith, there, below_self source) in
      let texts : All IsText arr =
        All-of_elem IsText arr
          (λ q e. i.named k q h (ground (arith, v.shows q, contains_of_elem v.tree source q e))) in
      let starts : All (λ x. starts_with source x ≡ true) arr =
        All-of_elem (λ x. starts_with source x ≡ true) arr (starts_with_of_elem v.tree source) in
      let (j, shown) =
        add_paths-IsHistory (pr_tree repo (pos k)).1 hist n moved v.kept
          (moved_texts path (length source) arr t texts) in
      rw (add_copied, v.found)
        (rw (copied_paths-moved_paths source path arr first) (record {
          done = refl;
          kept = j;
          shows = λ q.
              shown q
              ∙ rw
                  (
                    tree-pr_tree repo (pos k),
                    sh q,
                    elem-moved_paths source path q arr starts,
                    listed (original source path q),
                  )
                  refl;
        }))

  pub Made-add_change :
      (repo : PathRepo) (hist : ℕ → PathSet) (n : ℕ) (path : Text) (rev : ℤ)
      (source : Option (Option Text × ℤ)) (s : PathSet)
      → IsHistory repo hist n
      → Shows repo.tree s
      → IsText path
      → IsLocal hist n source
      → Made hist n (added hist path source s) (add_change repo path rev source)
  unfolding add_change
  Made-add_change repo hist n path rev none s i sh t loc =
      let (j, there, _) = path_repo_add-IsHistory repo hist n path i t in
      record { done = refl; kept = j; shows = λ q. there q ∙ rw (sh q) refl }
  Made-add_change repo hist n path rev (some (none, r)) s i sh t loc = absurd loc
  Made-add_change repo hist n path rev (some (some source, r)) s i sh t (k, e, h, there) =
      rw e (Made-add_copied repo hist n k path source s i sh h there t)
