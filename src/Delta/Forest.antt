-- ===== src/Delta/Forest.antt =====
-- The shape of the arena of src/delta.c's nodes: a child comes after its parent.
use rsvndump.Base.{
  ℕ, zero, suc, ◌<◌, ◌≡◌, refl, ap, ◌∙◌, subst, some, List, [], ◌∷◌, ◌++◌, length, set, get_elem?,
  All, All-append, length-append, arith, ◌⊎◌, inl, inr,
}
use rsvndump.Apr.{AprHash}
use rsvndump.Delta.Node.{Node}

module _ ⦃apr : AprHash⦄ where
  -- the children of the node at an address; none where no node is
  abbrev pub kids : List Node → ℕ → List ℕ
  kids [] a = []
  kids (n ∷ l) zero = n.children
  kids (n ∷ l) (suc a) = kids l a

  -- The children of each node are nodes of the arena, at addresses after it.
  pub IsForest : List Node → Type 0
  IsForest l = (a : ℕ) → All (λ c. (a < c) × (c < length l)) (kids l a)

  pub IsForest-empty : IsForest []
  unfolding IsForest
  IsForest-empty a = tt

  -- The nodes may differ, but not in their children.
  pub record SameTree (l m : List Node) : Type 0 where
    pub size : length l ≡ length m
    pub same : (a : ℕ) → kids l a ≡ kids m a

  pub SameTree-refl : (l : List Node) → SameTree l l
  SameTree-refl l = record { size = refl; same = λ a. refl }

  pub SameTree-trans : (l m k : List Node) → SameTree l m → SameTree m k → SameTree l k
  SameTree-trans l m k h i = record { size = h.size ∙ i.size; same = λ a. h.same a ∙ i.same a }

  pub SameTree-IsForest : (l m : List Node) → SameTree l m → IsForest l → IsForest m
  unfolding IsForest
  SameTree-IsForest l m s h a =
      subst (λ (n : ℕ). All (λ c. (a < c) × (c < n)) (kids m a)) s.size
        (subst (λ (cs : List ℕ). All (λ c. (a < c) × (c < length l)) cs) (s.same a) (h a))

  kids-get_elem? :
      (l : List Node) (a : ℕ) (n : Node) → get_elem? l a ≡ some n → kids l a ≡ n.children
  kids-get_elem? [] a n h = cc
  kids-get_elem? (x ∷ l) zero n h = ground (arith, h)
  kids-get_elem? (x ∷ l) (suc a) n h = kids-get_elem? l a n h

  pub IsForest-at :
      (l : List Node) (a : ℕ) (n : Node)
      → IsForest l
      → get_elem? l a ≡ some n
      → All (λ c. (a < c) × (c < length l)) n.children
  unfolding IsForest
  IsForest-at l a n h e =
      subst (λ (cs : List ℕ). All (λ c. (a < c) × (c < length l)) cs) (kids-get_elem? l a n e) (h a)

  -- A node is put in place of one with the same children.
  pub SameTree-set :
      (l : List Node) (a : ℕ) (n m : Node)
      → get_elem? l a ≡ some n
      → m.children ≡ n.children
      → SameTree l (set l a m)
  SameTree-set [] a n m e h = cc
  SameTree-set (x ∷ l) zero n m e h = record {
    size = refl;
    same = elim [ zero ↦ ground (arith, e, h) | suc b ↦ refl ];
  }
  SameTree-set (x ∷ l) (suc a) n m e h =
      let s = SameTree-set l a n m e h in
      record { size = ap suc s.size; same = elim [ zero ↦ refl | suc b ↦ s.same b ] }

  -- Only the node at the address is different.
  kids-set :
      (l : List Node) (a b : ℕ) (m : Node)
      → ((a ≡ b) × (kids (set l a m) b ≡ m.children)) ⊎ (kids (set l a m) b ≡ kids l b)
  kids-set [] a b m = inr refl
  kids-set (x ∷ l) zero zero m = inl (refl, refl)
  kids-set (x ∷ l) zero (suc b) m = inr refl
  kids-set (x ∷ l) (suc a) zero m = inr refl
  kids-set (x ∷ l) (suc a) (suc b) m = elim (kids-set l a b m) [
    | inl h ↦ inl (ap suc h.0, h.1)
    | inr h ↦ inr h
  ]

  -- A node without children at the end.
  kids-append :
      (l : List Node) (x : Node) (b : ℕ) → x.children ≡ [] → kids (l ++ x ∷ []) b ≡ kids l b
  kids-append [] x zero h = h
  kids-append [] x (suc b) h = refl
  kids-append (y ∷ l) x zero h = refl
  kids-append (y ∷ l) x (suc b) h = kids-append l x b h

  All-grow :
      (a n : ℕ) (cs : List ℕ)
      → All (λ c. (a < c) × (c < n)) cs
      → All (λ c. (a < c) × (c < suc n)) cs
  All-grow a n [] h = tt
  All-grow a n (c ∷ cs) h = ((h.0.0, omega (arith, h.0.1)), All-grow a n cs h.1)

  length-set : (l : List Node) (a : ℕ) (m : Node) → length (set l a m) ≡ length l
  length-set [] a m = refl
  length-set (x ∷ l) zero m = refl
  length-set (x ∷ l) (suc a) m = ap suc (length-set l a m)

  get_elem?-lt : (l : List Node) (a : ℕ) (n : Node) → get_elem? l a ≡ some n → a < length l
  get_elem?-lt [] a n h = cc
  get_elem?-lt (x ∷ l) zero n h = omega arith
  get_elem?-lt (x ∷ l) (suc a) n h = omega (arith, get_elem?-lt l a n h)

  pub get_elem?-end : (l : List Node) (x : Node) → get_elem? (l ++ x ∷ []) (length l) ≡ some x
  get_elem?-end [] x = refl
  get_elem?-end (y ∷ l) x = get_elem?-end l x

  pub get_elem?-last :
      (l : List Node) (a : ℕ) (m x : Node) → get_elem? (set l a m ++ x ∷ []) (length l) ≡ some x
  get_elem?-last [] a m x = refl
  get_elem?-last (y ∷ l) zero m x = get_elem?-end l x
  get_elem?-last (y ∷ l) (suc a) m x = get_elem?-last l a m x

  -- A node without children is added at the end.
  pub IsForest-append :
      (l : List Node) (x : Node) → x.children ≡ [] → IsForest l → IsForest (l ++ x ∷ [])
  unfolding IsForest
  IsForest-append l x empty h b =
      let size : length (l ++ x ∷ []) ≡ suc (length l) = omega (arith, length-append l (x ∷ [])) in
      rw (size, kids-append l x b empty) (All-grow b (length l) (kids l b) (h b))

  -- A node gets the address after the last as a child.
  IsForest-set :
      (l : List Node) (a : ℕ) (p : Node)
      → get_elem? l a ≡ some p
      → IsForest l
      → (b : ℕ)
      → All
          (λ c. (b < c) × (c < suc (length l)))
          (kids (set l a (record p { children = p.children ++ length l ∷ [] })) b)
  IsForest-set l a p e h b =
      elim (kids-set l a b (record p { children = p.children ++ length l ∷ [] })) [
        | inl (same, k) ↦
            let lt = get_elem?-lt l a p e in
            let new : b < length l = subst (λ (i : ℕ). i < length l) same lt in
            let old =
              subst (λ (i : ℕ). All (λ c. (i < c) × (c < length l)) p.children) same
                (IsForest-at l a p h e) in
            rw k (
              All-append (λ c. (b < c) × (c < suc (length l))) p.children (length l ∷ [])
                (All-grow b (length l) p.children old) ((new, omega arith), tt))
        | inr k ↦ rw k (All-grow b (length l) (kids l b) (unfold IsForest in h b))
      ]

  -- What delta_create_node() does to the arena.
  pub IsForest-register :
      (l : List Node) (a : ℕ) (p x : Node)
      → get_elem? l a ≡ some p
      → x.children ≡ []
      → IsForest l
      → IsForest (set l a (record p { children = p.children ++ length l ∷ [] }) ++ x ∷ [])
  unfolding IsForest
  IsForest-register l a p x e empty h b =
      let m = record p { children = p.children ++ length l ∷ [] } in
      let size : length (set l a m ++ x ∷ []) ≡ suc (length l) =
        omega (arith, length-append (set l a m) (x ∷ []), length-set l a m) in
      rw (size, kids-append (set l a m) x b empty) (IsForest-set l a p e h b)
