-- ===== src/Session/Names/Fresh.antt =====
-- What a made-up name of src/session.c looks like, and when one is found.
use rsvndump.Base.{
  ℕ, zero, suc, ◌+◌, ◌%◌, ◌≤◌, ◌<◌, Text, ◌≡◌, refl, ap, true, false, Option, some, List, [], ◌∷◌,
  length, All, arith, Bool-cases, inl, inr, leb,
}
use rsvndump.Apr.{AprHash}
use rsvndump.Session.Names.{
  Rand, rchars, probs, pick, make_chars, make_round, is_taken, take_name, make_rounds,
  session_make_obfuscated,
}

abbrev pub IsLetter : ℕ → Type 0
IsLetter c = (b'a' ≤ c) × (c ≤ b'z')

-- the last probability
abbrev final : List ℕ → ℕ
final [] = 0
final (p ∷ []) = p
final (p ∷ q ∷ ps) = final (q ∷ ps)

-- A number that is not above the last probability stops the loop at one of the characters.
pick-All :
    (P : ℕ → Type 0) (n p c : ℕ) (ps : List ℕ) (cs : Text)
    → length cs ≡ length ps
    → All P (c ∷ cs)
    → n ≤ final (p ∷ ps)
    → P (pick n (p ∷ ps) (c ∷ cs))
unfolding pick
pick-All P n p c [] [] same h le = let stops : leb n p ≡ true = ground (arith, le) in rw stops h.0
pick-All P n p c [] (d ∷ cs) same h le = absurd (omega (arith, same))
pick-All P n p c (q ∷ ps) [] same h le = absurd (omega (arith, same))
pick-All P n p c (q ∷ ps) (d ∷ cs) same h le = elim (Bool-cases (leb n p)) [
  | inl e ↦ rw e h.0
  | inr e ↦ rw e (pick-All P n q d ps cs (omega (arith, same)) h.1 le)
]

rchars-letters : All IsLetter rchars
rchars-letters = omega arith

pick-IsLetter : (n : ℕ) → IsLetter (pick (n % 1000) probs rchars)
pick-IsLetter n = pick-All IsLetter (n % 1000) _ _ _ _ refl rchars-letters (omega arith)

module _ ⦃random : Rand⦄ where
  make_chars-letters :
      (len : ℕ) (seed : random.Seed)
      → All IsLetter (make_chars len seed).0 × (length (make_chars len seed).0 ≡ len)
  unfolding make_chars
  make_chars-letters zero seed = (tt, refl)
  make_chars-letters (suc len) seed =
      let (n, seed') = random.rand seed in
      let h = make_chars-letters len seed' in ((pick-IsLetter n, h.0), ap suc h.1)

  -- A name of letters, with at least three of them and fewer than `most`.
  pub record IsName (most : ℕ) (name : Text) : Type 0 where
    pub letters : All IsLetter name
    pub long : 3 ≤ length name
    pub short : length name < most

  make_round-IsName :
      (lfac : ℕ) (seed : random.Seed) → 0 < lfac → IsName (3 + lfac) (make_round lfac seed).0
  unfolding make_round
  make_round-IsName lfac seed h =
      let (n, seed') = random.rand seed in
      let c = make_chars-letters (3 + n % lfac) seed' in
      let rem : n % lfac < lfac = omega (arith, h) in
      record { letters = c.0; long = omega (arith, c.1); short = omega (arith, c.1, rem) }

  -- the name of a round, counted from 0
  unfoldable pub round_name : ℕ → ℕ → random.Seed → Text
  round_name zero lfac seed = (make_round lfac seed).0
  round_name (suc k) lfac seed = round_name k (suc lfac) (make_round lfac seed).1

module _ ⦃apr : AprHash⦄ ⦃random : Rand⦄ where
  -- A name that was not taken is found, and is taken afterwards.
  pub record Found (most : ℕ) (taken : Option (apr.Hash Text))
      (x : Option (Text × Option (apr.Hash Text) × random.Seed)) : Type 0 where
    pub name : Text
    pub seed : random.Seed
    pub found : x ≡ some (name, take_name taken name, seed)
    pub is_name : IsName most name
    pub unused : is_taken taken name ≡ false

  IsName-grow : (m n : ℕ) (name : Text) → m ≤ n → IsName m name → IsName n name
  IsName-grow m n name le h = record {
    letters = h.letters;
    long = h.long;
    short = omega (arith, le, h.short);
  }

  Found-grow :
      (m n : ℕ) (taken : Option (apr.Hash Text))
      (x : Option (Text × Option (apr.Hash Text) × random.Seed))
      → m ≤ n
      → Found m taken x
      → Found n taken x
  Found-grow m n taken x le h = record {
    name = h.name;
    seed = h.seed;
    found = h.found;
    is_name = IsName-grow m n h.name le h.is_name;
    unused = h.unused;
  }

  -- Where the first round's name is taken, the free one comes later.
  later :
      (k lfac : ℕ) (seed : random.Seed) (taken : Option (apr.Hash Text))
      → is_taken taken (make_round lfac seed).0 ≡ true
      → is_taken taken (round_name k lfac seed) ≡ false
      → (j : ℕ) × (k ≡ suc j)
        × (is_taken taken (round_name j (suc lfac) (make_round lfac seed).1) ≡ false)
  unfolding round_name
  later zero lfac seed taken e free = cc
  later (suc k) lfac seed taken e free = (k, refl, free)

  Found-make_rounds :
      (fuel k lfac : ℕ) (seed : random.Seed) (taken : Option (apr.Hash Text))
      → 0 < lfac
      → k < fuel
      → is_taken taken (round_name k lfac seed) ≡ false
      → Found (3 + lfac + k) taken (make_rounds fuel lfac seed taken)
  unfolding make_rounds round_name
  Found-make_rounds zero k lfac seed taken h lt free = absurd (omega (arith, lt))
  Found-make_rounds (suc fuel) k lfac seed taken h lt free =
      let (obf, seed') = make_round lfac seed in
      elim (Bool-cases (is_taken taken obf)) [
        | inr e ↦
            rw (e, make_rounds)
              (record {
                name = obf;
                seed = seed';
                found = refl;
                is_name =
                    IsName-grow (3 + lfac) (3 + lfac + k) obf (omega arith)
                      (make_round-IsName lfac seed h);
                unused = e;
              })
        | inl e ↦
            let (j, same, free') = later k lfac seed taken e free in
            rw (e, make_rounds)
              (Found-grow (3 + suc lfac + j) (3 + lfac + k) taken _ (omega (arith, same)) (
                Found-make_rounds fuel j (suc lfac) seed' taken (omega arith)
                  (omega (arith, same, lt)) free'))
      ]

  -- Of the names that the generator would make in the rounds, that of round `k` is not taken. With
  -- fuel for that round, session_make_obfuscated() ends with a name: letters from 'a' to 'z', at
  -- least three and fewer than 11 + k, that were not taken and are put into the table.
  pub session_make_obfuscated-Found :
      (k fuel : ℕ) (seed : random.Seed) (taken : Option (apr.Hash Text))
      → k < fuel
      → is_taken taken (round_name k 8 seed) ≡ false
      → Found (11 + k) taken (session_make_obfuscated fuel seed taken)
  unfolding session_make_obfuscated
  session_make_obfuscated-Found k fuel seed taken lt free =
      Found-make_rounds fuel k 8 seed taken (omega arith) lt free
