-- ===== src/Utils/Sorted.antt =====
-- What utils_sort() of src/utils.c gives, by the contract of qsort() and the order of strcmp().
use rsvndump.Base.{
  ltb, ℕ, ◌<◌, Text, text_eq, ◌≡◌, refl, ap, sym, ◌∙◌, true, false, ◌||◌, List, [], ◌∷◌, arith,
  Bool-cases, inl, inr, subst,
}
use rsvndump.Critbit.{elem}
use rsvndump.Utils.{text_le, insert_text, utils_sort}

-- The order of strcmp(): a text ends, or has the lesser byte where the two first differ.
pub data AtMost : Text → Text → Type 0 where
  ends : (t : Text) → AtMost [] t
  less : (c d : ℕ) (s t : Text) → c < d → AtMost (c ∷ s) (d ∷ t)
  same : (c : ℕ) (s t : Text) → AtMost s t → AtMost (c ∷ s) (c ∷ t)

-- Each text is at most the next one.
abbrev pub InOrder : List Text → Type 0
InOrder [] = Unit
InOrder (x ∷ []) = Unit
InOrder (x ∷ y ∷ l) = AtMost x y × InOrder (y ∷ l)

-- The same texts, each as often, in another order.
pub data SameTexts : List Text → List Text → Type 0 where
  nil : SameTexts [] []
  cons : {l m : List Text} (x : Text) → SameTexts l m → SameTexts (x ∷ l) (x ∷ m)
  swap : (x y : Text) (l : List Text) → SameTexts (x ∷ y ∷ l) (y ∷ x ∷ l)
  trans : {l m k : List Text} → SameTexts l m → SameTexts m k → SameTexts l k

unmoved : (l : List Text) → SameTexts l l
unmoved [] = nil
unmoved (x ∷ l) = cons x (unmoved l)

AtMost-text_le : (a b : Text) → text_le a b ≡ true → AtMost a b
unfolding text_le
AtMost-text_le [] t e = ends t
AtMost-text_le (c ∷ s) [] e = absurd (ground arith)
AtMost-text_le (c ∷ s) (d ∷ t) e = elim (Bool-cases (ltb c d)) [
  | inl lt ↦ less c d s t (ground (arith, lt))
  | inr ge ↦
      let eq : c ≡ d = ground (arith, e, ge) in
      let rest : text_le s t ≡ true = ground (arith, e, ge) in
      subst (λ x. AtMost (c ∷ s) (x ∷ t)) eq (same c s t (AtMost-text_le s t rest))
]

text_le-AtMost : {a b : Text} → AtMost a b → text_le a b ≡ true
unfolding text_le
text_le-AtMost (ends t) = refl
text_le-AtMost (less c d s t h) = ground (arith, h)
text_le-AtMost (same c s t h) = ground (arith, text_le-AtMost h)

text_le_total : (a b : Text) → text_le a b ≡ false → text_le b a ≡ true
unfolding text_le
text_le_total [] t e = absurd (ground arith)
text_le_total (c ∷ s) [] e = refl
text_le_total (c ∷ s) (d ∷ t) e = ground (arith, e, text_le_total s t)

text_le_trans : (a b c : Text) → text_le a b ≡ true → text_le b c ≡ true → text_le a c ≡ true
unfolding text_le
text_le_trans [] b c h k = refl
text_le_trans (x ∷ a) [] c h k = absurd (ground arith)
text_le_trans (x ∷ a) (y ∷ b) [] h k = absurd (ground arith)
text_le_trans (x ∷ a) (y ∷ b) (z ∷ c) h k = ground (arith, h, k, text_le_trans a b c)

text_le_antisym : (a b : Text) → text_le a b ≡ true → text_le b a ≡ true → a ≡ b
unfolding text_le
text_le_antisym [] [] h k = refl
text_le_antisym [] (y ∷ b) h k = absurd (ground arith)
text_le_antisym (x ∷ a) [] h k = absurd (ground arith)
text_le_antisym (x ∷ a) (y ∷ b) h k =
    let first : x ≡ y = ground (arith, h, k) in
    let rest : a ≡ b = text_le_antisym a b (ground (arith, h, k)) (ground (arith, h, k)) in
    rw (first, rest) refl

elem-insert_text : (q x : Text) (l : List Text) → elem q (insert_text x l) ≡ text_eq x q || elem q l
unfolding insert_text
elem-insert_text q x [] = refl
elem-insert_text q x (y ∷ l) = ground (arith, elem-insert_text q x l)

pub elem-utils_sort : (l : List Text) (q : Text) → elem q (utils_sort l) ≡ elem q l
unfolding utils_sort
elem-utils_sort [] q = refl
elem-utils_sort (x ∷ l) q = rw (← elem-utils_sort l q) (elem-insert_text q x (utils_sort l))

-- A text goes before the first one that is not less, and after those that are.
insert_first : (x y : Text) (l : List Text) → text_le x y ≡ true → insert_text x (y ∷ l) ≡ x ∷ y ∷ l
unfolding insert_text
insert_first x y l e = rw e refl

insert_later :
    (x z : Text) (l : List Text) → text_le x z ≡ false → insert_text x (z ∷ l) ≡ z ∷ insert_text x l
unfolding insert_text
insert_later x z l e = rw e refl

insert_text-InOrder : (x : Text) (l : List Text) → InOrder l → InOrder (insert_text x l)
unfolding insert_text
insert_text-InOrder x [] h = tt
insert_text-InOrder x (y ∷ []) h = elim (Bool-cases (text_le x y)) [
  | inl e ↦ rw e (AtMost-text_le x y e, tt)
  | inr e ↦ rw e (AtMost-text_le y x (text_le_total x y e), tt)
]
insert_text-InOrder x (y ∷ z ∷ l) h = elim (Bool-cases (text_le x y)) [
  | inl e ↦ rw e (AtMost-text_le x y e, h)
  | inr e ↦ elim (Bool-cases (text_le x z)) [
    | inl f ↦ rw e (rw f (AtMost-text_le y x (text_le_total x y e), (AtMost-text_le x z f, h.1)))
    | inr f ↦ rw e (
        rw f (
          h.0,
          subst (λ (t : List Text). InOrder t) (insert_later x z l f)
              (insert_text-InOrder x (z ∷ l) h.1),
        ))
  ]
]

utils_sort-ordered : (l : List Text) → InOrder (utils_sort l)
unfolding utils_sort
utils_sort-ordered [] = tt
utils_sort-ordered (x ∷ l) = insert_text-InOrder x (utils_sort l) (utils_sort-ordered l)

insert_text-perm : (x : Text) (l : List Text) → SameTexts (insert_text x l) (x ∷ l)
unfolding insert_text
insert_text-perm x [] = cons x nil
insert_text-perm x (y ∷ l) = elim (Bool-cases (text_le x y)) [
  | inl e ↦ rw e (unmoved (x ∷ y ∷ l))
  | inr e ↦ rw e (trans (cons _ (insert_text-perm x l)) (swap y x _))
]

utils_sort-perm : (l : List Text) → SameTexts (utils_sort l) l
unfolding utils_sort
utils_sort-perm [] = nil
utils_sort-perm (x ∷ l) = trans (insert_text-perm x (utils_sort l)) (cons _ (utils_sort-perm l))

-- It does not matter which of two texts is inserted first.
insert_before :
    (x y z : Text) (l : List Text)
    → text_le y z ≡ true
    → text_le x z ≡ false
    → insert_text x (insert_text y (z ∷ l)) ≡ insert_text y (insert_text x (z ∷ l))
insert_before x y z l e f =
    let g : text_le x y ≡ false = ground (arith, text_le_trans x y z, e, f) in
    ap (insert_text x) (insert_first y z l e)
    ∙ insert_later x y (z ∷ l) g
    ∙ ap (λ t. y ∷ t) (insert_later x z l f)
    ∙ sym (ap (insert_text y) (insert_later x z l f) ∙ insert_first y z (insert_text x l) e)

insert_heads :
    (x y : Text) (l : List Text)
    → insert_text x l ≡ x ∷ l
    → insert_text y l ≡ y ∷ l
    → insert_text x (insert_text y l) ≡ insert_text y (insert_text x l)
insert_heads x y l hx hy = elim (Bool-cases (text_le x y)) [
  | inl e ↦ elim (Bool-cases (text_le y x)) [
    | inl f ↦ let eq = text_le_antisym x y e f in rw eq refl
    | inr f ↦
        ap (insert_text x) hy
        ∙ insert_first x y l e
        ∙ sym (ap (insert_text y) hx ∙ insert_later y x l f ∙ ap (λ t. x ∷ t) hy)
  ]
  | inr e ↦
      ap (insert_text x) hy
      ∙ insert_later x y l e
      ∙ ap (λ t. y ∷ t) hx
      ∙ sym (ap (insert_text y) hx ∙ insert_first y x l (text_le_total x y e))
]

insert_text_swap :
    (x y : Text) (l : List Text) → insert_text x (insert_text y l) ≡ insert_text y (insert_text x l)
unfolding insert_text
insert_text_swap x y [] = insert_heads x y [] refl refl
insert_text_swap x y (z ∷ l) = elim (Bool-cases (text_le x z)) [
  | inl e ↦ elim (Bool-cases (text_le y z)) [
    | inl f ↦ insert_heads x y (z ∷ l) (insert_first x z l e) (insert_first y z l f)
    | inr f ↦ sym (insert_before y x z l e f)
  ]
  | inr e ↦ elim (Bool-cases (text_le y z)) [
    | inl f ↦ insert_before x y z l f e
    | inr f ↦
        ap (insert_text x) (insert_later y z l f)
        ∙ insert_later x z (insert_text y l) e
        ∙ ap (λ t. z ∷ t) (insert_text_swap x y l)
        ∙ sym (ap (insert_text y) (insert_later x z l e) ∙ insert_later y z (insert_text x l) f)
  ]
]

utils_sort_same : {l m : List Text} → SameTexts l m → utils_sort l ≡ utils_sort m
unfolding utils_sort
utils_sort_same nil = refl
utils_sort_same (cons x p) = ap (insert_text x) (utils_sort_same p)
utils_sort_same (swap x y l) = insert_text_swap x y (utils_sort l)
utils_sort_same (trans p q) = utils_sort_same p ∙ utils_sort_same q

utils_sort_ordered_lem : (l : List Text) → InOrder l → utils_sort l ≡ l
unfolding utils_sort insert_text
utils_sort_ordered_lem [] h = refl
utils_sort_ordered_lem (x ∷ []) h = refl
utils_sort_ordered_lem (x ∷ y ∷ l) h =
    ap (insert_text x) (utils_sort_ordered_lem (y ∷ l) h.1)
    ∙ insert_first x y l (text_le-AtMost h.0)

-- utils_sort() gives the texts as often as they are there, in the order of strcmp(). By what
-- qsort() promises there is no other result: any list in that order with the same texts, each as
-- often, is the one that utils_sort() gives.
pub utils_sort-InOrder :
    (l : List Text)
    → InOrder (utils_sort l)
      × SameTexts (utils_sort l) l
      × ((m : List Text) → InOrder m → SameTexts m l → m ≡ utils_sort l)
utils_sort-InOrder l = (
  utils_sort-ordered l,
  utils_sort-perm l,
  λ m h p. sym (utils_sort_ordered_lem m h) ∙ utils_sort_same p,
)
