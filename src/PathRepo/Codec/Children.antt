-- ===== src/PathRepo/Codec/Children.antt =====
-- pr_tree_to_array() lists a path of the tree and what lies below it.
use rsvndump.Base.{
  ℕ, Text, text_eq, text_eq_iff, text_eq_refl, IsText, starts_with, ◌≡◌, refl, Bool, true, ◌||◌,
  ◌&&◌, List, [], ◌∷◌, ◌++◌, All, length, ◌==◌, arith,
}
use rsvndump.Critbit.{Critbit, elem}
use rsvndump.PathRepo.Codec.{char_at, is_child, keep_children, pr_tree_to_array}

-- The path itself, or one that goes on with a slash; everything is below the empty path.
abbrev pub below : Text → Text → Bool
below [] q = true
below (c ∷ p) q = text_eq (c ∷ p) q || starts_with ((c ∷ p) ++ b'/' ∷ []) q

-- The callback's test, at a string that has the prefix.
ends_or_slash :
    (p q : Text)
    → IsText q
    → starts_with p q && (char_at q (length p) == 0 || char_at q (length p) == b'/')
      ≡ text_eq p q || starts_with (p ++ b'/' ∷ []) q
unfolding starts_with text_eq char_at
ends_or_slash [] [] h = refl
ends_or_slash [] (d ∷ q) h = ground arith
ends_or_slash (c ∷ p) [] h = refl
ends_or_slash (c ∷ p) (d ∷ q) h = ground (arith, ends_or_slash p q h.1)

prefix-below : (p q : Text) → IsText q → starts_with p q && is_child (length p) q ≡ below p q
unfolding is_child starts_with
prefix-below [] q h = refl
prefix-below (c ∷ p) q h = ground (arith, ends_or_slash (c ∷ p) q h)

elem-keep_children :
    (n : ℕ) (l : List Text) (q : Text) → elem q (keep_children n l) ≡ elem q l && is_child n q
unfolding keep_children
elem-keep_children n [] q = refl
elem-keep_children n (p ∷ l) q = ground (arith, elem-keep_children n l q, text_eq_iff p q)

pub All-of_elem {ℓ} :
    (P : Text → Type ℓ) (l : List Text) → ((q : Text) → elem q l ≡ true → P q) → All P l
All-of_elem P [] h = tt
All-of_elem P (p ∷ l) h =
    (h p (rw text_eq_refl), All-of_elem P l (λ q e. h q (rw e (ground (arith, text_eq_iff p q)))))

module _ ⦃cb : Critbit⦄ where
  -- pr_tree_to_array() lists exactly the paths of the tree that are the given path or lie below it.
  pub elem-pr_tree_to_array :
      (t : cb.Tree) (p q : Text)
      → IsText q
      → elem q (pr_tree_to_array t p) ≡ cb.contains t q && below p q
  unfolding pr_tree_to_array
  elem-pr_tree_to_array t p q h =
      rw elem-keep_children (ground (arith, cb.elem-walk_prefixed t p q, prefix-below p q h))

  pub starts_with_of_elem :
      (t : cb.Tree) (p q : Text) → elem q (pr_tree_to_array t p) ≡ true → starts_with p q ≡ true
  unfolding pr_tree_to_array
  starts_with_of_elem t p q e = ground (
    arith,
    e,
    elem-keep_children (length p) (cb.walk_prefixed t p) q,
    cb.elem-walk_prefixed t p q,
  )

  pub contains_of_elem :
      (t : cb.Tree) (p q : Text) → elem q (pr_tree_to_array t p) ≡ true → cb.contains t q ≡ true
  unfolding pr_tree_to_array
  contains_of_elem t p q e = ground (
    arith,
    e,
    elem-keep_children (length p) (cb.walk_prefixed t p) q,
    cb.elem-walk_prefixed t p q,
  )
