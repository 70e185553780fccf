-- ===== src/Critbit.antt =====
-- The critbit tree of lib/critbit89, a library of its own: a parameter of the model.
use rsvndump.Base.{
  ℕ, Text, text_eq, starts_with, ◌≡◌, ◌↔◌, Bool, false, ◌||◌, ◌&&◌, List, [], ◌∷◌, if◌then◌else◌,
}

abbrev pub elem : Text → List Text → Bool
elem q [] = false
elem q (p ∷ l) = text_eq p q || elem q l

-- cb_tree_insert() is 0 if it inserts, and not 0 if the text is there already; memory does not run
-- out. `rooted` is `tree.root != NULL`. `walk_prefixed` lists the calls of its callback.
pub record Critbit : Type 1 where
  pub Tree : Type 0
  pub tree_make : Tree
  pub tree_clear : Tree → Tree
  pub rooted : Tree → Bool
  pub contains : Tree → Text → Bool
  pub insert : Tree → Text → ℕ × Tree
  pub delete : Tree → Text → ℕ × Tree
  pub walk_prefixed : Tree → Text → List Text
  pub contains-tree_make : (p : Text) → contains tree_make p ≡ false
  pub contains-tree_clear : (t : Tree) (p : Text) → contains (tree_clear t) p ≡ false
  pub contains_rooted : (t : Tree) (p : Text) → rooted t ≡ false → contains t p ≡ false
  pub insert_status : (t : Tree) (p : Text) → ((insert t p).0 ≡ 0) ↔ (contains t p ≡ false)
  pub contains-insert :
      (t : Tree) (p q : Text) → contains (insert t p).1 q ≡ text_eq p q || contains t q
  pub contains-delete :
      (t : Tree) (p q : Text)
      → contains (delete t p).1 q ≡ (if text_eq p q then false else contains t q)
  pub elem-walk_prefixed :
      (t : Tree) (p q : Text) → elem q (walk_prefixed t p) ≡ contains t q && starts_with p q
