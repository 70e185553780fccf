-- ===== src/Dump/Records/UserPrefix.antt =====
-- The prefix of the user, without the slashes that name nothing, and its directories.
use rsvndump.Base.{
  ℕ, zero, suc, ◌<◌, Text, ◌≡◌, refl, ap, ◌∙◌, Bool, true, false, ◌==◌, if◌then◌else◌, Option, none,
  some, List, [], ◌∷◌, ◌++◌, length, length-append, append_assoc, append-nil, arith, All,
  Option-cases, Bool-cases, ◌⊎◌, inl, inr,
}
use rsvndump.Svn.{DumpNames}
use rsvndump.Options.{DumpOptions}
use rsvndump.Dump.Records.{split_slash, prefix_node, prefix_rounds, dump_create_user_prefix}

-- The text without a slash at its start or right after another.
abbrev pub squeeze : Bool → Text → Text
squeeze after_slash [] = []
squeeze after_slash (c ∷ s) =
    let kept = squeeze true s in
    let more = squeeze false s in
    if c == b'/' then if after_slash then kept else c ∷ kept else c ∷ more

-- What stands before each slash.
abbrev pub parents : Text → Text → List Text
parents before [] = []
parents before (c ∷ s) =
    let more = parents (before ++ c ∷ []) s in if c == b'/' then before ∷ more else more

abbrev Plain : Text → Type 0
Plain = All (λ c. (c == b'/') ≡ false)

split_slash-none : (s : Text) → split_slash s ≡ none → Plain s
unfolding split_slash
split_slash-none [] e = tt
split_slash-none (c ∷ s) e = elim (Option-cases (split_slash s)) [
  | inl none_left ↦ (ground (arith, e), split_slash-none s none_left)
  | inr ((a, b), some_left) ↦ absurd (ground (arith, e, some_left))
]

-- The texts around the first slash, one byte further to the left.
slash_cons :
    (c : ℕ) (s a b : Text)
    → (o : Option (Text × Text)) → split_slash s ≡ o
    → split_slash (c ∷ s) ≡ some (a, b)
    → (((c == b'/') ≡ true) × (a ≡ []) × (s ≡ b))
      ⊎ ((t : Text) × ((c == b'/') ≡ false) × (a ≡ c ∷ t) × (o ≡ some (t, b)))
unfolding split_slash
slash_cons c s a b none f e = inl (ground (arith, f, e))
slash_cons c s a b (some (t, u)) f e = elim (Bool-cases (c == b'/')) [
  | inl y ↦ inl (ground (arith, f, e))
  | inr n ↦ inr (t, n, ground (arith, f, e), ground (arith, f, e))
]

split_slash-some : (s a b : Text) → split_slash s ≡ some (a, b) → Plain a × (s ≡ a ++ b'/' ∷ b)
split_slash-some [] a b e = absurd (unfold split_slash in ground arith)
split_slash-some (c ∷ s) a b e = elim (slash_cons c s a b (split_slash s) refl e) [
  | inl (y, nil, same) ↦ rw (nil, same) (tt, ground arith)
  | inr (t, n, longer, f) ↦ let (p, q) = split_slash-some s t b f in rw (longer, q) ((n, p), refl)
]

squeeze-Plain : (f : Bool) (s : Text) → Plain s → squeeze f s ≡ s
squeeze-Plain f [] h = refl
squeeze-Plain f (c ∷ s) h = rw h.0 (ap (λ t. c ∷ t) (squeeze-Plain false s h.1))

squeeze-append : (a b : Text) → Plain a → squeeze false (a ++ b'/' ∷ b) ≡ a ++ b'/' ∷ squeeze true b
squeeze-append [] b h = refl
squeeze-append (c ∷ a) b h = rw h.0 (ap (λ t. c ∷ t) (squeeze-append a b h.1))

parents-Plain : (p s : Text) → Plain s → parents p s ≡ []
parents-Plain p [] h = refl
parents-Plain p (c ∷ s) h = rw h.0 (parents-Plain (p ++ c ∷ []) s h.1)

parents-append :
    (p a b : Text)
    → Plain a
    → parents p (a ++ b'/' ∷ b) ≡ (p ++ a) ∷ parents (p ++ (a ++ b'/' ∷ [])) b
parents-append p [] b h = rw (append-nil p) refl
parents-append p (c ∷ a) b h =
    rw h.0 (parents-append (p ++ c ∷ []) a b h.1 ∙ simp (append_assoc) refl)

module _ ⦃names : DumpNames⦄ where
  pub nodes : List Text → Text
  nodes [] = []
  nodes (p ∷ l) = prefix_node p ++ nodes l

  -- What the loop makes of the rest of the prefix, in front of which there is `made`.
  prefix_rounds-squeeze :
      (fuel : ℕ) (made s : Text)
      → length s < fuel
      → prefix_rounds fuel made s ≡ (nodes (parents made (squeeze true s)), made ++ squeeze true s)
  unfolding prefix_rounds nodes
  prefix_rounds-squeeze zero made s h = absurd (omega arith)
  prefix_rounds-squeeze (suc fuel) made s h = elim (Option-cases (split_slash s)) [
    | inl e ↦
        let p = split_slash-none s e in
        rw (prefix_rounds, e, squeeze-Plain true s p, parents-Plain made s p) refl
    | inr (([], b), e) ↦
        let (p, q) = split_slash-some s [] b e in
        let shorter : length b < fuel = omega (arith, ap length q) in
        rw (prefix_rounds, e) (rw q (prefix_rounds-squeeze fuel made b shorter))
    | inr ((c ∷ a, b), e) ↦
        let (p, q) = split_slash-some s (c ∷ a) b e in
        let shorter : length b < fuel = omega (arith, ap length q, length-append a (b'/' ∷ b)) in
        let ih = prefix_rounds-squeeze fuel (made ++ (c ∷ a ++ b'/' ∷ [])) b shorter in
        rw (prefix_rounds, e)
          (rw
            (
              q,
              ih,
              p.0,
              squeeze-append a b p.1,
              p.0,
              parents-append (made ++ c ∷ []) a (squeeze true b) p.1,
            )
            (simp (append_assoc) refl))
  ]

  -- dump_create_user_prefix() makes of a prefix the one without the slashes at its start and those
  -- that follow another, prints a directory record for what stands before each slash of the new
  -- prefix, in order, and changes no other option.
  pub dump_create_user_prefix-squeeze :
      (opts : DumpOptions) (old : Text)
      → opts.prefix ≡ some old
      → dump_create_user_prefix opts
        ≡ (nodes (parents [] (squeeze true old)), record opts { prefix = some (squeeze true old) })
  unfolding dump_create_user_prefix
  dump_create_user_prefix-squeeze opts old e =
      rw (dump_create_user_prefix, e, prefix_rounds-squeeze (suc (length old)) [] old (omega arith))
        refl
