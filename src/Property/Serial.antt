-- ===== src/Property/Serial.antt =====
-- prop_hash_serialize() and prop_hash_reconstruct() of src/property.c, on a machine whose `int` has
-- four bytes, the lowest first. A property is a key and an svn_string_t.
pub mod RoundTrip
use rsvndump.Base.{
  not, ◌&&◌, ℕ, zero, suc, ◌+◌, ◌*◌, ◌/◌, ◌%◌, ◌^◌, Text, Bool, true, false, ltb, ◌==◌,
  if◌then◌else◌, Option, none, some, List, [], ◌∷◌, ◌++◌, length, take, drop, ◌>>=◌,
}
use rsvndump.Apr.{AprHash}

-- *(int *)bptr = n, and *(int *)bptr with what follows it; `none` is a read past the data.
unfoldable pub put_int : ℕ → Text
put_int n = n % 256 ∷ (n / 256 % 256 ∷ (n / 65536 % 256 ∷ (n / 16777216 % 256 ∷ [])))

unfoldable pub get_int : Text → Option (ℕ × Text)
get_int [] = none
get_int (a ∷ []) = none
get_int (a ∷ b ∷ []) = none
get_int (a ∷ b ∷ c ∷ []) = none
get_int (a ∷ b ∷ c ∷ d ∷ s) = some (a + (b * 256 + (c * 65536 + d * 16777216)), s)

-- A length that an `int` holds. With a greater one the loops would move `bptr` backwards.
unfoldable pub fits : ℕ → Bool
fits n = ltb n (2 ^ 31)

-- the first loop: the size of the buffer
unfoldable pub entries_len : List (Text × Text) → ℕ
entries_len [] = 4
entries_len ((key, value) ∷ l) = 8 + (length key + length value) + entries_len l

-- one step of the second loop: a length, and the bytes
unfoldable pub put_counted : Text → Option Text
unfolding put_int fits
put_counted s = if fits (length s) then some (put_int (length s) ++ s) else none

-- the second loop
unfoldable pub put_entries : List (Text × Text) → Option Text
unfolding put_counted
put_entries [] = some (put_int 0)
put_entries ((key, value) ∷ l) = put_counted key >>= λ k.
    put_counted value >>= λ v. put_entries l >>= λ rest. some (k ++ (v ++ rest))

-- apr_pstrndup() copies no further than a NUL.
unfoldable pub before_nul : Text → Text
before_nul [] = []
before_nul (c ∷ s) = let rest = before_nul s in if c == 0 then [] else c ∷ rest

-- a length, and as many bytes; `none` is a read past the data
get_bytes : ℕ → Text → Option (Text × Text)
unfolding fits
get_bytes n s = if fits n && not (ltb (length s) n) then some (take n s, drop n s) else none

get_counted : Text → Option (Text × Text)
unfolding get_int get_bytes
get_counted s = get_int s >>= λ r. get_bytes r.0 r.1

module _ ⦃apr : AprHash⦄ where
  -- `none` is a length that does not fit; the data comes with its computed length
  unfoldable pub prop_hash_serialize : apr.Hash Text → Option (Text × ℕ)
  unfolding put_entries entries_len
  prop_hash_serialize props =
      put_entries (apr.entries props) >>= λ d. some (d, entries_len (apr.entries props))

  -- The loop: a zero ends it. Each round takes eight bytes or more.
  pub get_entries : ℕ → apr.Hash Text → Text → Option (apr.Hash Text)
  unfolding get_counted before_nul
  get_entries zero props s = none
  get_entries (suc fuel) props s = get_int s >>= λ r. elim (r.0 == 0) [
    | true ↦ some props
    | false ↦ get_counted s >>= λ k.
        get_counted k.1 >>= λ v. get_entries fuel (apr.put props (before_nul k.0) (some v.0)) v.1
  ]

  pub prop_hash_reconstruct : apr.Hash Text → Text → Option (apr.Hash Text)
  unfolding get_entries
  prop_hash_reconstruct props s = get_entries (length s) props s
