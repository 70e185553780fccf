-- ===== src/Session/Names.antt =====
-- session_make_obfuscated() and session_obfuscate_rec() of src/session.c: names that are made up by
-- rand().
pub mod Fresh
use rsvndump.Base.{
  ℕ, zero, suc, ◌+◌, ◌%◌, Text, text_eq, Bool, true, false, not, ◌&&◌, ◌||◌, ◌==◌, leb,
  if◌then◌else◌, Option, none, some, List, [], ◌∷◌, ◌++◌, length, codes, ◌>>=◌,
}
use rsvndump.Apr.{AprHash}
use rsvndump.Utils.{utils_path_split, utils_path_join}

-- rand(), a parameter of the model.
pub record Rand : Type 1 where
  pub Seed : Type 0
  pub rand : Seed → ℕ × Seed

abbrev pub rchars : Text
rchars = codes "abcdefghijklmnopqrstuvwxyz"

abbrev pub probs : List ℕ
probs =
    81 ∷ 96 ∷ 124 ∷ 156 ∷ 283 ∷ 305 ∷ 325 ∷ 386 ∷ 456 ∷ 458 ∷ 466 ∷ 506 ∷ 530 ∷ 597 ∷ 672 ∷ 691
    ∷ 692 ∷ 752 ∷ 815 ∷ 906 ∷ 934 ∷ 944 ∷ 968 ∷ 970 ∷ 999 ∷ 1000 ∷ []

-- The loop over j: the character where the loop stops, which is the NUL of `rchars` where no
-- probability is high enough.
unfoldable pub pick : ℕ → List ℕ → Text → ℕ
pick n [] chars = 0
pick n (p ∷ ps) [] = 0
pick n (p ∷ ps) (c ∷ cs) = let rest = pick n ps cs in if leb n p then c else rest

module _ ⦃random : Rand⦄ where
  -- the loop over i
  unfoldable pub make_chars : ℕ → random.Seed → Text × random.Seed
  unfolding pick
  make_chars zero seed = ([], seed)
  make_chars (suc len) seed =
      let (n, seed') = random.rand seed in
      let (rest, seed'') = make_chars len seed' in (pick (n % 1000) probs rchars ∷ rest, seed'')

  -- a round: `lfac` is what it is before the round
  unfoldable pub make_round : ℕ → random.Seed → Text × random.Seed
  unfolding make_chars
  make_round lfac seed = let (n, seed') = random.rand seed in make_chars (3 + n % lfac) seed'

module _ ⦃apr : AprHash⦄ where
  -- taken && apr_hash_get(taken, obf) != NULL
  unfoldable pub is_taken : Option (apr.Hash Text) → Text → Bool
  is_taken none obf = false
  is_taken (some taken) obf = elim (apr.get taken obf) [ none ↦ false | some t ↦ true ]

  unfoldable pub take_name : Option (apr.Hash Text) → Text → Option (apr.Hash Text)
  take_name none obf = none
  take_name (some taken) obf = some (apr.put taken obf (some obf))

module _ ⦃apr : AprHash⦄ ⦃random : Rand⦄ where
  -- The fuel bounds the rounds; `none` is out of fuel.
  unfoldable pub make_rounds :
      ℕ
      → ℕ
      → random.Seed
      → Option (apr.Hash Text)
      → Option (Text × Option (apr.Hash Text) × random.Seed)
  unfolding make_round is_taken take_name
  make_rounds zero lfac seed taken = none
  make_rounds (suc fuel) lfac seed taken =
      let (obf, seed') = make_round lfac seed in
      let rest = make_rounds fuel (suc lfac) seed' taken in
      if is_taken taken obf then rest else some (obf, take_name taken obf, seed')

  unfoldable pub session_make_obfuscated :
      ℕ
      → random.Seed
      → Option (apr.Hash Text)
      → Option (Text × Option (apr.Hash Text) × random.Seed)
  unfolding make_rounds
  session_make_obfuscated fuel seed taken = make_rounds fuel 8 seed taken

  -- what session_obfuscate_rec() changes: the names given, the names taken, and the seed
  pub record Named : Type 0 where
    pub obf_hash : apr.Hash Text
    pub obf_taken : apr.Hash Text
    pub seed : random.Seed

  -- the name of a component: the one it has, or a new one
  unfoldable pub name_base : ℕ → Named → Text → Option (Text × Named)
  unfolding session_make_obfuscated
  name_base rounds st base = elim (apr.get st.obf_hash base) [
    | some obf ↦ some (obf, st)
    | none ↦ session_make_obfuscated rounds st.seed (some st.obf_taken) >>= λ made. some (
      made.0,
      record {
        obf_hash = apr.put st.obf_hash base (some made.0);
        obf_taken = elim made.1 [ none ↦ st.obf_taken | some t ↦ t ];
        seed = made.2;
      },
    )
  ]

  unfoldable pub join_named : Text → Text × Named → Text × Named
  join_named [] (obf, st) = (obf, st)
  join_named (c ∷ dir) (obf, st) = (utils_path_join (c ∷ dir) obf, st)

  -- `depth` bounds how deep a path is nested, which is less than its length; `rounds` is the fuel
  -- for each name.
  unfoldable pub session_obfuscate_rec : ℕ → ℕ → Named → Text → Option (Text × Named)
  unfolding name_base join_named
  session_obfuscate_rec zero rounds st path = none
  session_obfuscate_rec (suc depth) rounds st path =
      let (dir, base) = utils_path_split path in
      let above =
        if text_eq dir (codes "/") || length dir == 0
        then some (dir, st)
        else session_obfuscate_rec depth rounds st dir in
      above >>= λ d.
      if length base == 0
      then some ([], d.1)
      else name_base rounds d.1 base >>= λ named. some (join_named d.0 named)
