-- ===== src/PathRepo/Codec/RoundTrip.antt =====
-- A serialized delta, applied, is the sequence of its actions on the set of paths.
use rsvndump.Base.{
  ℕ, zero, suc, ◌+◌, ◌-◌, ◌≤◌, Text, text_eq, IsText, ◌≡◌, refl, Bool, some, List, [], ◌∷◌, ◌++◌,
  All, length, length-append, ◌==◌, if◌then◌else◌, arith, ◌∙◌,
}
use rsvndump.Critbit.{Critbit}
use rsvndump.PathRepo.Codec.{
  DeltaEntry, encode_entries, encoded_len, encode_paths, cstring, apply_action, apply_from,
  pr_delta_apply,
}

-- The set of paths after an action, and after a list of them.
abbrev pub PathSet : Type 0
PathSet = Text → Bool

abbrev pub after_action : ℕ → Text → PathSet → PathSet
after_action c p s q = if text_eq p q then c == b'+' else s q

abbrev pub after : List DeltaEntry → PathSet → PathSet
after [] s = s
after (e ∷ es) s = after es (after_action e.action e.path s)

-- The paths of a delta are C strings.
abbrev pub IsDelta : List DeltaEntry → Type 0
IsDelta = All (λ e. IsText e.path)

pub cstring-append : (p rest : Text) → IsText p → cstring (p ++ 0 ∷ rest) ≡ some (p, rest)
unfolding cstring
cstring-append [] rest h = refl
cstring-append (zero ∷ p) rest h = absurd (h.0 refl)
cstring-append (suc c ∷ p) rest h = rw (cstring-append p rest h.1)

-- What the delta adds up to in `repo->delta_len`.
abbrev pub delta_size : List DeltaEntry → ℕ
delta_size [] = 0
delta_size (e ∷ es) = (2 + length e.path) + delta_size es

pub length-encode_entries : (es : List DeltaEntry) → length (encode_entries es) ≡ delta_size es
unfolding encode_entries
length-encode_entries [] = refl
length-encode_entries (e ∷ es) =
    omega (arith, length-append e.path (0 ∷ encode_entries es), length-encode_entries es)

pub length-encode_paths : (l : List Text) → length (encode_paths l) ≡ encoded_len l
unfolding encode_paths encoded_len
length-encode_paths [] = refl
length-encode_paths (p ∷ l) =
    omega (arith, length-append p (0 ∷ encode_paths l), length-encode_paths l)

module _ ⦃cb : Critbit⦄ where
  -- The tree has exactly the paths of the set.
  abbrev pub Shows : cb.Tree → PathSet → Type 0
  Shows t s = (q : Text) → cb.contains t q ≡ s q

  pub run_entries : List DeltaEntry → cb.Tree → cb.Tree
  run_entries [] t = t
  run_entries (e ∷ es) t = run_entries es (apply_action t e.action e.path)

  pub apply_action-Shows :
      (t : cb.Tree) (s : PathSet) (c : ℕ) (p : Text)
      → Shows t s
      → Shows (apply_action t c p) (after_action c p s)
  unfolding apply_action
  apply_action-Shows t s c p h q =
      ground (arith, h q, cb.contains-insert t p q, cb.contains-delete t p q)

  pub run_entries-Shows :
      (es : List DeltaEntry) (t : cb.Tree) (s : PathSet)
      → Shows t s
      → Shows (run_entries es t) (after es s)
  unfolding run_entries
  run_entries-Shows [] t s h = h
  run_entries-Shows (e ∷ es) t s h =
      run_entries-Shows es (apply_action t e.action e.path) (after_action e.action e.path s)
        (apply_action-Shows t s e.action e.path h)

  -- One round of the loop reads one action.
  apply_from-cons :
      (fuel : ℕ) (t : cb.Tree) (c : ℕ) (p rest : Text) (n : ℕ)
      → IsText p
      → apply_from (suc fuel) t (c ∷ (p ++ (0 ∷ rest))) ((2 + length p) + n)
        ≡ apply_from fuel (apply_action t c p) rest n
  unfolding apply_from
  apply_from-cons fuel t c p rest n h =
      let more : (2 + length p) + n ≡ suc (length p + n + 1) = omega arith in
      let left : suc (length p + n + 1) - (2 + length p) ≡ n = omega arith in
      rw more (ground (arith, cstring-append p rest h, left))

  pub apply_from-encode_entries :
      (fuel : ℕ) (es : List DeltaEntry) (t : cb.Tree)
      → IsDelta es
      → delta_size es ≤ fuel
      → apply_from fuel t (encode_entries es) (delta_size es) ≡ some (run_entries es t)
  unfolding encode_entries run_entries
  apply_from-encode_entries fuel [] t h enough = unfold apply_from in refl
  apply_from-encode_entries zero (e ∷ es) t h enough = absurd (omega arith)
  apply_from-encode_entries (suc fuel) (e ∷ es) t h enough =
      apply_from-cons fuel t e.action e.path (encode_entries es) (delta_size es) h.0
      ∙ apply_from-encode_entries fuel es (apply_action t e.action e.path) h.1 (omega arith)

  -- Applying the serialized form of a delta carries out its actions, whatever the tree.
  pub pr_delta_apply-encode_entries :
      (es : List DeltaEntry) (t : cb.Tree) (s : PathSet)
      → IsDelta es
      → Shows t s
      → (t' : cb.Tree) × (pr_delta_apply t (encode_entries es) (length (encode_entries es))
          ≡ some t')
        × Shows t' (after es s)
  unfolding pr_delta_apply
  pr_delta_apply-encode_entries es t s h sh = (
    run_entries es t,
    rw length-encode_entries (apply_from-encode_entries (delta_size es) es t h (omega arith)),
    run_entries-Shows es t s sh,
  )
