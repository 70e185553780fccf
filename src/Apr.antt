-- ===== src/Apr.antt =====
-- The Apache Portable Runtime, as far as the program uses it: a parameter of the model.
use rsvndump.Base.{Text, text_eq, ℤ, ◌≡◌, Option, none, some, List, [], ◌∷◌, if◌then◌else◌}

-- The first entry under a key, in the order of iteration.
abbrev pub find {ℓ} : {V : Type ℓ} → Text → List (Text × V) → Option V
find k [] = none
find k ((j, v) ∷ l) = if text_eq j k then some v else find k l

-- No key comes twice.
abbrev pub Distinct {ℓ} : {V : Type ℓ} → List (Text × V) → Type ℓ
Distinct [] = Unit
Distinct ((k, v) ∷ l) = (find k l ≡ none) × Distinct l

-- apr_hash_t, with byte strings for keys. `put h k none` is apr_hash_set() with NULL. `entries` is
-- what apr_hash_first(), apr_hash_next() and apr_hash_this() run through, in their order.
pub record AprHash : Type 1 where
  pub Hash : Type 0 → Type 0
  pub make : {V : Type 0} → Hash V
  pub get : {V : Type 0} → Hash V → Text → Option V
  pub put : {V : Type 0} → Hash V → Text → Option V → Hash V
  pub entries : {V : Type 0} → Hash V → List (Text × V)
  pub get-make : {V : Type 0} (k : Text) → get (make {V = V}) k ≡ none
  pub get-put :
      {V : Type 0} (h : Hash V) (k j : Text) (o : Option V)
      → get (put h k o) j ≡ (if text_eq k j then o else get h j)
  pub Distinct-entries : {V : Type 0} (h : Hash V) → Distinct (entries h)
  pub find-entries : {V : Type 0} (h : Hash V) (k : Text) → find k (entries h) ≡ get h k

-- apr_itoa(), which prints different numbers differently.
pub record AprStrings : Type 0 where
  pub itoa : ℤ → Text
  pub itoa_injective : (a b : ℤ) → itoa a ≡ itoa b → a ≡ b
