-- ===== src/Rhash.antt =====
-- src/rhash.c: a hash table that owns copies of its keys and values. The copies are made and freed
-- on the heap; here a table holds the copies themselves.
use rsvndump.Base.{
  ℕ, Text, text_eq, text_eq_iff, ◌≡◌, refl, Option, none, some, arith, length, if◌then◌else◌,
}
use rsvndump.Apr.{AprHash}

-- entry_t
pub record Entry (V : Type 0) : Type 0 where
  pub key : Text
  pub val : V

-- rhash_t
abbrev pub Rhash : ⦃apr : AprHash⦄ → Type 0 → Type 0
Rhash ⦃apr⦄ V = apr.Hash (Entry V)

module _ ⦃apr : AprHash⦄ {V : Type 0} where
  -- The tests of rhash_set() on the new value and on the entry that is there.
  put_entry : Rhash V → Text → Option V → Option (Entry V) → Rhash V
  put_entry ht key none none = ht
  put_entry ht key none (some entry) = apr.put ht key none
  put_entry ht key (some val) (some entry) = apr.put ht key (some (record entry { val = val }))
  put_entry ht key (some val) none = apr.put ht key (some (record { key = key; val = val }))

  pub rhash_set : Rhash V → Text → Option V → Rhash V
  unfolding put_entry
  rhash_set ht key val = put_entry ht key val (apr.get ht key)

  entry_val : Option (Entry V) → Option V
  entry_val none = none
  entry_val (some e) = some e.val

  pub rhash_get : Rhash V → Text → Option V
  unfolding entry_val
  rhash_get ht key = entry_val (apr.get ht key)

  unfoldable pub rhash_count : Rhash V → ℕ
  rhash_count ht = length (apr.entries ht)

  -- The caller's `key` and `val` after rhash_this(). The assignment `val = &e->val` is to the
  -- parameter, so what `val` points to stays.
  unfoldable pub rhash_this : Text × Entry V → Option V → Text × Option V
  rhash_this hi val = (hi.0, val)

  put_entry-get :
      (ht : Rhash V) (k j : Text) (o : Option V) (e : Option (Entry V))
      → apr.get ht k ≡ e
      → entry_val (apr.get (put_entry ht k o e) j)
        ≡ (if text_eq k j then o else entry_val (apr.get ht j))
  unfolding put_entry entry_val
  put_entry-get ht k j none none h = ground (arith, text_eq_iff k j)
  put_entry-get ht k j none (some e) h = ground (arith, apr.get-put ht k j none)
  put_entry-get ht k j (some v) none h =
      ground (arith, apr.get-put ht k j (some (record { key = k; val = v })))
  put_entry-get ht k j (some v) (some e) h =
      ground (arith, apr.get-put ht k j (some (record e { val = v })))

  -- After rhash_set() of a value, or of NULL, the key has that value, or none; every other key
  -- has what it had.
  pub rhash_get-rhash_set :
      (ht : Rhash V) (k j : Text) (o : Option V)
      → rhash_get (rhash_set ht k o) j ≡ (if text_eq k j then o else rhash_get ht j)
  unfolding rhash_get rhash_set
  rhash_get-rhash_set ht k j o = put_entry-get ht k j o (apr.get ht k) refl

module _ ⦃apr : AprHash⦄ where
  unfoldable pub rhash_make : (V : Type 0) → Rhash V
  rhash_make V = apr.make

  -- The entries are freed, and the table is emptied.
  unfoldable pub rhash_clear : (V : Type 0) → Rhash V → Rhash V
  rhash_clear V ht = apr.make

  pub rhash_get-rhash_make : (V : Type 0) (k : Text) → rhash_get (rhash_make V) k ≡ none
  unfolding rhash_get rhash_make entry_val
  rhash_get-rhash_make V k = ground (arith, apr.get-make {V = Entry V} k)
