-- ===== src/PathRepo/Edit/Replay/Meaning.antt =====
-- What the changes of a log mean for a set of paths, apart from how src/path_repo.c makes them.
use rsvndump.Base.{
  ℕ, Text, text_eq, text_eq_iff, starts_with, ℤ, pos, negsuc, ◌≡◌, refl, ap, sym, ◌∙◌, true, false,
  not, ◌&&◌, ◌||◌, ◌==◌, if◌then◌else◌, Option, none, some, List, [], ◌∷◌, ◌++◌, length, drop,
  drop_all, append-nil, All, arith, Bool-cases, inl, inr,
}
use rsvndump.Apr.{AprHash}
use rsvndump.Critbit.{elem}
use rsvndump.Log.{ChangedPath, LogRevision}
use rsvndump.Options.{DumpOptions}
use rsvndump.PathRepo.Codec.RoundTrip.{PathSet}
use rsvndump.PathRepo.Codec.Children.{below}
use rsvndump.PathRepo.Edit.Replay.{moved_paths, copied_paths, source_of}

-- The set without a path and what lies below it, and with a path.
abbrev pub removed : Text → PathSet → PathSet
removed p s q = s q && not (below p q)

abbrev pub with_path : Text → PathSet → PathSet
with_path p s q = text_eq p q || s q

-- A path where the source stands in place of the target.
abbrev pub original : Text → Text → Text → Text
original source p q = source ++ drop (length p) q

-- The set with a copy of the source, and of what lies below it, in the old set.
abbrev pub with_copy : PathSet → Text → Text → PathSet → PathSet
with_copy old source p s q =
    s q || (starts_with p q && (old (original source p q) && below source (original source p q)))

-- What is added at a path: the path alone, or a copy from a revision.
abbrev pub added : (ℕ → PathSet) → Text → Option (Option Text × ℤ) → PathSet → PathSet
added hist p none s = with_path p s
added hist p (some (none, r)) s = s
added hist p (some (some source, pos k)) s = with_copy (hist k) source p s
added hist p (some (some source, negsuc k)) s = s

-- 'A' adds, 'D' deletes, 'R' replaces, and other actions leave the paths.
abbrev pub changed_by : (ℕ → PathSet) → Text → Option (Option Text × ℤ) → ℕ → PathSet → PathSet
changed_by hist p source action s =
    if action == b'A'
    then added hist p source s
    else if action == b'R'
    then added hist p source (removed p s)
    else if action == b'D'
    then removed p s
    else s

module _ ⦃apr : AprHash⦄ where
  -- the changes at some paths, one after another
  abbrev pub changes :
      (ℕ → PathSet)
      → Text
      → DumpOptions
      → List LogRevision
      → apr.Hash ChangedPath
      → List Text
      → PathSet
      → PathSet
  changes hist prefix opts logs changed [] s = s
  changes hist prefix opts logs changed (p ∷ l) s =
      changes hist prefix opts logs changed l (elim (apr.get changed p) [
        | none ↦ s
        | some info ↦ changed_by hist p (source_of prefix opts logs info) info.action s
      ])

-- A deletion where the action says so, and after it an addition.
pub changed_by_lem :
    (hist : ℕ → PathSet) (p : Text) (source : Option (Option Text × ℤ)) (c : ℕ) (s : PathSet)
    → (if (c == b'A') || (c == b'R')
        then added hist p source (if (c == b'D') || (c == b'R') then removed p s else s)
        else (if (c == b'D') || (c == b'R') then removed p s else s))
      ≡ changed_by hist p source c s
changed_by_lem hist p source c s = elim (Bool-cases (c == b'A')) [
  | inl a ↦
      let r : (c == b'R') ≡ false = ground (arith, a) in
      let d : (c == b'D') ≡ false = ground (arith, a) in rw (a, r, d) refl
  | inr a ↦ elim (Bool-cases (c == b'R')) [
    | inl r ↦ let d : (c == b'D') ≡ false = ground (arith, r) in rw (a, r, d) refl
    | inr r ↦ elim (Bool-cases (c == b'D')) [
      | inl d ↦ rw (a, r, d) refl
      | inr d ↦ rw (a, r, d) refl
    ]
  ]
]

text_eq-append : (p r t : Text) → text_eq (p ++ r) (p ++ t) ≡ text_eq r t
unfolding text_eq
text_eq-append [] r t = refl
text_eq-append (c ∷ p) r t = ground (arith, text_eq-append p r t)

text_eq-prefix :
    (p r q : Text) → text_eq (p ++ r) q ≡ starts_with p q && text_eq r (drop (length p) q)
unfolding text_eq starts_with
text_eq-prefix [] r q = refl
text_eq-prefix (c ∷ p) r [] = refl
text_eq-prefix (c ∷ p) r (d ∷ q) = ground (arith, text_eq-prefix p r q)

starts_with-split : (p q : Text) → starts_with p q ≡ true → q ≡ p ++ drop (length p) q
unfolding starts_with
starts_with-split [] q h = refl
starts_with-split (c ∷ p) [] h = absurd (ground arith)
starts_with-split (c ∷ p) (d ∷ q) h =
    let first : c ≡ d = ground (arith, h) in
    let rest : q ≡ p ++ drop (length p) q = starts_with-split p q (ground (arith, h)) in
    ap (λ x. x ∷ q) (sym first) ∙ ap (λ t. c ∷ t) rest

-- A moved path is the copy of the one that it comes from.
moved_path :
    (source p x q : Text)
    → starts_with source x ≡ true
    → text_eq (p ++ drop (length source) x) q ≡ starts_with p q && text_eq x (original source p q)
moved_path source p x q h =
    let rest = drop (length source) x in
    let same : text_eq x (original source p q) ≡ text_eq rest (drop (length p) q) =
      ap (λ t. text_eq t (original source p q)) (starts_with-split source x h)
      ∙ text_eq-append source rest (drop (length p) q) in
    text_eq-prefix p rest q ∙ ap (λ b. starts_with p q && b) (sym same)

pub elem-moved_paths :
    (source p q : Text) (l : List Text)
    → All (λ x. starts_with source x ≡ true) l
    → elem q (moved_paths p (length source) l) ≡ starts_with p q && elem (original source p q) l
unfolding moved_paths
elem-moved_paths source p q [] h = ground arith
elem-moved_paths source p q (x ∷ l) h =
    ground (arith, moved_path source p x q h.0, elem-moved_paths source p q l h.1)

-- With the source among them, the copied paths are all moved; if it is the only one, to the target.
pub copied_paths-moved_paths :
    (source p : Text) (l : List Text)
    → elem source l ≡ true
    → copied_paths p (length source) l ≡ some (moved_paths p (length source) l)
unfolding copied_paths moved_paths
copied_paths-moved_paths source p [] h = absurd (ground arith)
copied_paths-moved_paths source p (x ∷ []) h =
    let same : x ≡ source = (text_eq_iff x source).0 (ground (arith, h)) in
    rw (same, drop_all (length source) source (omega arith), append-nil) refl
copied_paths-moved_paths source p (x ∷ y ∷ l) h = refl
