-- ===== src/Property/Serial/RoundTrip.antt =====
-- What is packed is as long as computed, and is unpacked to the same properties.
use rsvndump.Base.{
  ℕ, zero, suc, ◌+◌, ◌*◌, ◌/◌, ◌%◌, ◌^◌, ◌<◌, ◌≤◌, Text, text_eq_iff, IsText, ◌≡◌, refl, ap, ◌∙◌,
  false, ◌==◌, Option, none, some, List, [], ◌∷◌, ◌++◌, length, length-append, append_assoc,
  take-append, drop-append, ◌>>=◌, All, arith,
}
use rsvndump.Apr.{AprHash, find, Distinct}
use rsvndump.Property.Serial.{
  put_int, get_int, fits, entries_len, put_counted, put_entries, before_nul, get_bytes, get_counted,
  prop_hash_serialize, get_entries, prop_hash_reconstruct,
}

-- The key is a C string that is not empty, and both lengths fit into an `int`.
abbrev pub IsProperty : Text × Text → Type 0
IsProperty e = IsText e.0 × (0 < length e.0) × (length e.0 < 2 ^ 31) × (length e.1 < 2 ^ 31)

abbrev counted : Text → Text
counted s = put_int (length s) ++ s

abbrev packed : List (Text × Text) → Text
packed [] = put_int 0
packed ((k, v) ∷ l) = counted k ++ (counted v ++ packed l)

get_int-put_int : (n : ℕ) (s : Text) → n < 2 ^ 31 → get_int (put_int n ++ s) ≡ some (n, s)
unfolding get_int put_int
get_int-put_int n s h =
    let e : n % 256
          + (n / 256 % 256 * 256 + (n / 65536 % 256 * 65536 + n / 16777216 % 256 * 16777216))
        ≡ n =
      omega arith in
    ap (λ m. some (m, s)) e

put_counted-some : (s : Text) → length s < 2 ^ 31 → put_counted s ≡ some (counted s)
unfolding put_counted fits
put_counted-some s h = ground arith

put_entries-packed : (l : List (Text × Text)) → All IsProperty l → put_entries l ≡ some (packed l)
unfolding put_entries
put_entries-packed [] h = refl
put_entries-packed ((k, v) ∷ l) h =
    rw (put_counted-some k h.0.2, put_counted-some v h.0.3, put_entries-packed l h.1) refl

length-packed : (l : List (Text × Text)) → length (packed l) ≡ entries_len l
unfolding entries_len put_int
length-packed [] = refl
length-packed ((k, v) ∷ l) =
    omega
      (arith, length-packed l, length-append k (counted v ++ packed l), length-append v (packed l))

get_bytes-append : (s t : Text) → length s < 2 ^ 31 → get_bytes (length s) (s ++ t) ≡ some (s, t)
unfolding get_bytes fits
get_bytes-append s t h = rw (take-append s t, drop-append s t) (ground (arith, length-append s t))

get_counted-counted : (s t : Text) → length s < 2 ^ 31 → get_counted (counted s ++ t) ≡ some (s, t)
unfolding get_counted
get_counted-counted s t h =
    rw (append_assoc (put_int (length s)) s t, get_int-put_int (length s) (s ++ t) h)
      (get_bytes-append s t h)

get_int-counted :
    (s t : Text) → length s < 2 ^ 31 → get_int (counted s ++ t) ≡ some (length s, s ++ t)
get_int-counted s t h =
    rw (append_assoc (put_int (length s)) s t) (get_int-put_int (length s) (s ++ t) h)

before_nul-IsText : (s : Text) → IsText s → before_nul s ≡ s
unfolding before_nul
before_nul-IsText [] h = refl
before_nul-IsText (c ∷ s) h = ground (arith, before_nul-IsText s h.1, h.0)

bind_some : {A B : Type 0} (o : Option A) (a : A) (f : A → Option B) → o ≡ some a → (o >>= f) ≡ f a
bind_some o a f e = rw e refl

module _ ⦃apr : AprHash⦄ where
  put_all : apr.Hash Text → List (Text × Text) → apr.Hash Text
  put_all h [] = h
  put_all h ((k, v) ∷ l) = put_all (apr.put h k (some v)) l

  get-put_all :
      (h : apr.Hash Text) (l : List (Text × Text)) (k : Text)
      → Distinct l
      → apr.get (put_all h l) k ≡ elim (find k l) [ none ↦ apr.get h k | some v ↦ some v ]
  unfolding put_all
  get-put_all h [] k d = refl
  get-put_all h ((j, v) ∷ l) k d = ground (
    arith,
    get-put_all (apr.put h j (some v)) l k d.1,
    apr.get-put h j k (some v),
    text_eq_iff j k,
    d.0,
  )

  get_entries-packed :
      (fuel : ℕ) (h : apr.Hash Text) (l : List (Text × Text))
      → All IsProperty l
      → length (packed l) ≤ fuel
      → get_entries fuel h (packed l) ≡ some (put_all h l)
  unfolding get_entries put_all
  get_entries-packed zero h [] p enough = absurd (unfold put_int in omega arith)
  get_entries-packed zero h ((k, v) ∷ l) p enough = absurd (unfold put_int in omega arith)
  get_entries-packed (suc fuel) h [] p enough = unfold get_int put_int in refl
  get_entries-packed (suc fuel) h ((k, v) ∷ l) p enough =
      let (text, nonempty, kn, vn) = p.0 in
      let nonzero : (length k == 0) ≡ false = ground (arith, nonempty) in
      let enough' : length (packed l) ≤ fuel =
        unfold put_int in
        omega
          (arith, enough, length-append k (counted v ++ packed l), length-append v (packed l)) in
      bind_some (get_int (packed ((k, v) ∷ l))) _ _ (get_int-counted k (counted v ++ packed l) kn)
      ∙ rw nonzero (
          bind_some (get_counted (packed ((k, v) ∷ l))) _ _
            (get_counted-counted k (counted v ++ packed l) kn)
          ∙ bind_some (get_counted (counted v ++ packed l)) _ _
              (get_counted-counted v (packed l) vn)
          ∙ rw (before_nul-IsText k text)
              (get_entries-packed fuel (apr.put h k (some v)) l p.1 enough'))

  found_or : (o p d : Option Text) → d ≡ none → o ≡ p → elim o [ none ↦ d | some v ↦ some v ] ≡ p
  found_or none p d f e = f ∙ e
  found_or (some v) p d f e = e

  -- Properties whose keys are C strings, not empty, and whose lengths fit into an `int` are packed
  -- into a buffer of exactly the computed length, and unpacked from it, into a new hash, to the
  -- same properties.
  pub prop_hash_reconstruct-prop_hash_serialize :
      (props : apr.Hash Text)
      → All IsProperty (apr.entries props)
      → (d : Text) × (h : apr.Hash Text) × (prop_hash_serialize props ≡ some (d, length d))
        × (prop_hash_reconstruct apr.make d ≡ some h)
        × ((k : Text) → apr.get h k ≡ apr.get props k)
  unfolding prop_hash_serialize prop_hash_reconstruct
  prop_hash_reconstruct-prop_hash_serialize props p =
      let l = apr.entries props in
      (
        packed l,
        put_all apr.make l,
        rw (put_entries-packed l p, length-packed l) refl,
        get_entries-packed (length (packed l)) apr.make l p (omega arith),
        (λ k.
            get-put_all apr.make l k (apr.Distinct-entries props)
            ∙ found_or (find k l) (apr.get props k) (apr.get apr.make k) (apr.get-make k)
                (apr.find-entries props k)),
      )
