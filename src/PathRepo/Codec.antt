-- ===== src/PathRepo/Codec.antt =====
-- The serialized trees of src/path_repo.c: pr_tree_to_array(), pr_encode(), pr_delta_apply().
pub mod RoundTrip
pub mod Children
pub mod Snapshot
use rsvndump.Base.{
  ℕ, zero, suc, ◌+◌, ◌-◌, ◌≤◌, Text, text_eq, IsText, ◌≡◌, ◌≢◌, refl, ap, Bool, true, false, ◌||◌,
  Option, none, some, List, [], ◌∷◌, ◌++◌, All, length, length-append, ◌==◌, if◌then◌else◌, arith,
  get_elem?,
}
use rsvndump.Critbit.{Critbit}

-- pr_delta_entry_t
pub record DeltaEntry : Type 0 where
  pub action : ℕ
  pub path : Text

-- s[i], which is the NUL at the end of the string
pub char_at : Text → ℕ → ℕ
char_at [] i = 0
char_at (c ∷ s) zero = c
char_at (c ∷ s) (suc i) = char_at s i

-- pr_tree_to_array_cb(): whether the callback keeps the element
pub is_child : ℕ → Text → Bool
unfolding char_at
is_child path_len elem =
    path_len == 0 || (char_at elem path_len == 0 || char_at elem path_len == b'/')

unfoldable pub keep_children : ℕ → List Text → List Text
keep_children path_len [] = []
keep_children path_len (p ∷ l) =
    let rest = keep_children path_len l in if is_child path_len p then p ∷ rest else rest

-- the loop of path_repo_commit() over the delta
unfoldable pub encode_entries : List DeltaEntry → Text
encode_entries [] = []
encode_entries (e ∷ es) = e.action ∷ (e.path ++ (0 ∷ encode_entries es))

-- the loops of pr_encode(): the size of the buffer, and what is written to it
pub encoded_len : List Text → ℕ
encoded_len [] = 0
encoded_len (p ∷ l) = (2 + length p) + encoded_len l

pub encode_paths : List Text → Text
encode_paths [] = []
encode_paths (p ∷ l) = b'+' ∷ (p ++ (0 ∷ encode_paths l))

-- The string that starts here, and what follows its NUL; `none` if there is no NUL.
pub cstring : Text → Option (Text × Text)
cstring [] = none
cstring (zero ∷ s) = some ([], s)
cstring (suc c ∷ s) = elim (cstring s) [ none ↦ none | some (p, rest) ↦ some (suc c ∷ p, rest) ]

module _ ⦃cb : Critbit⦄ where
  unfoldable pub pr_tree_to_array : cb.Tree → Text → List Text
  unfolding keep_children is_child
  pr_tree_to_array tree path = keep_children (length path) (cb.walk_prefixed tree path)

  -- the data, and its computed length
  pub pr_encode : cb.Tree → Text × ℕ
  pr_encode tree = let arr = pr_tree_to_array tree [] in (encode_paths arr, encoded_len arr)

  pub apply_action : cb.Tree → ℕ → Text → cb.Tree
  apply_action tree c p = if c == b'+' then (cb.insert tree p).1 else (cb.delete tree p).1

  -- The loop of pr_delta_apply(), with `len - (dptr - data)` bytes left. `none` is a read past the
  -- data, or fuel that runs out.
  pub apply_from : ℕ → cb.Tree → Text → ℕ → Option cb.Tree
  unfolding cstring apply_action
  apply_from fuel tree dptr zero = some tree
  apply_from zero tree dptr (suc left) = none
  apply_from (suc fuel) tree [] (suc left) = none
  apply_from (suc fuel) tree (c ∷ s) (suc left) = elim (cstring s) [
    | none ↦ none
    | some (p, rest) ↦ apply_from fuel (apply_action tree c p) rest (suc left - (2 + length p))
  ]

  -- Each round takes two bytes or more, so `len` rounds are enough.
  pub pr_delta_apply : cb.Tree → Text → ℕ → Option cb.Tree
  unfolding apply_from
  pr_delta_apply tree dptr len = apply_from len tree dptr len
