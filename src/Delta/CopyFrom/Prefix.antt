-- ===== src/Delta/CopyFrom/Prefix.antt =====
-- Which paths delta_get_local_copyfrom_path() takes as lying under the prefix of the session.
use rsvndump.Base.{
  ℕ, zero, suc, Text, starts_with, starts_with-append, ◌≡◌, ◌≢◌, refl, ap, sym, ◌∙◌, true, some, [],
  ◌∷◌, ◌++◌, length, drop, drop-append, ◌==◌, arith, inl, inr, Bool-cases,
}
use rsvndump.Delta.CopyFrom.{skip_slashes, delta_get_local_copyfrom_path}

-- k slashes
abbrev pub slashes : ℕ → Text
slashes zero = []
slashes (suc k) = b'/' ∷ slashes k

-- The text does not begin with a slash.
abbrev pub Bare : Text → Type 0
Bare [] = Unit
Bare (c ∷ s) = c ≢ b'/'

skip_slashes-Bare : (s : Text) → Bare s → skip_slashes s ≡ s
unfolding skip_slashes
skip_slashes-Bare [] h = refl
skip_slashes-Bare (c ∷ s) h = ground arith

skip_slashes-slashes : (k : ℕ) (s : Text) → Bare s → skip_slashes (slashes k ++ s) ≡ s
unfolding skip_slashes
skip_slashes-slashes zero s h = skip_slashes-Bare s h
skip_slashes-slashes (suc k) s h = skip_slashes-slashes k s h

-- Of a path that begins with the prefix, what follows it and the slashes after it is the local
-- path. This is so whether or not a slash follows: the sibling "trunk2" of a prefix "trunk" is
-- taken as the path "2" in it.
pub delta_get_local_copyfrom_path-append :
    (prefix s : Text) (k : ℕ)
    → Bare s
    → delta_get_local_copyfrom_path prefix (prefix ++ (slashes k ++ s)) ≡ some s
unfolding delta_get_local_copyfrom_path
delta_get_local_copyfrom_path-append prefix s k h = rw (
  starts_with-append prefix (slashes k ++ s),
  drop-append prefix (slashes k ++ s),
  skip_slashes-slashes k s h,
)

starts_with-drop : (p s : Text) → starts_with p s ≡ true → p ++ drop (length p) s ≡ s
unfolding starts_with
starts_with-drop [] s h = refl
starts_with-drop (c ∷ p) [] h = cc
starts_with-drop (c ∷ p) (d ∷ s) h = ground (arith, starts_with-drop p s)

split_slashes : (s : Text) → (k : ℕ) × (s ≡ slashes k ++ skip_slashes s) × Bare (skip_slashes s)
unfolding skip_slashes
split_slashes [] = (0, refl, tt)
split_slashes (c ∷ s) = elim (Bool-cases (c == b'/')) [
  | inl e ↦
      let (k, eq, bare) = split_slashes s in
      let slash : c ≡ b'/' = ground arith in rw (e) (suc k, ground (arith, eq, slash), bare)
  | inr e ↦ rw e (0, refl, ground arith)
]

-- A path that is given a local path begins with the prefix; what lies between is slashes, and the
-- local path begins with none.
pub delta_get_local_copyfrom_path_sound :
    (prefix path s : Text)
    → delta_get_local_copyfrom_path prefix path ≡ some s
    → (k : ℕ) × (path ≡ prefix ++ (slashes k ++ s)) × Bare s
unfolding delta_get_local_copyfrom_path
delta_get_local_copyfrom_path_sound prefix path s h = elim (Bool-cases (starts_with prefix path)) [
  | inr e ↦ cc (rw e at h)
  | inl e ↦
      let (k, eq, bare) = split_slashes (drop (length prefix) path) in
      let found : skip_slashes (drop (length prefix) path) ≡ s = ground (arith, h, e) in
      (
        k,
        rw (← found) (sym (starts_with-drop prefix path e) ∙ ap (λ t. prefix ++ t) eq),
        rw (← found) bare,
      )
]
