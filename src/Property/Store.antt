-- ===== src/Property/Store.antt =====
-- property_storage_t of src/property.c and its operations. The prop_ref_t are shared by pointers, so
-- they stand on a heap: an address is an index, and `none` is freed memory. malloc() does not fail.
pub mod Load
pub mod Delete
use rsvndump.Base.{
  ℕ, zero, suc, ◌+◌, Text, ℤ, pos, negsuc, incz, decz, lez, Bool, true, false, ◌==◌, if◌then◌else◌,
  Option, none, some, List, [], ◌∷◌, ◌++◌, length, take, get_elem?, set, Status, success, failure,
  ◌>>=◌,
}
use rsvndump.Apr.{AprHash}
use rsvndump.Snappy.{Snappy}
use rsvndump.Stdio.{File}
use rsvndump.Mukv.{Mukv, mukv_open, mukv_store, mukv_fetch, mukv_delete}
use rsvndump.Property.Serial.{prop_hash_serialize, prop_hash_reconstruct}

-- apr_md5(), a parameter of the model: `none` is a call that fails.
pub record Md5 : Type 0 where
  pub md5 : Text → Option Text

-- prop_ref_t and prop_entry_t
pub record PropRef : Type 0 where
  pub id : Text
  pub count : ℤ

pub record PropEntry : Type 0 where
  pub path : Text
  pub ref : ℕ

module _ ⦃apr : AprHash⦄ where
  pub record PropertyStorage : Type 0 where
    pub refs : apr.Hash ℕ
    pub entries : apr.Hash PropEntry
    pub db : Mukv
    pub gc : apr.Hash ℕ
    pub heap : List (Option PropRef)

  -- The argument is what mukv_open() opens.
  pub property_storage_create : Option File → Option PropertyStorage
  property_storage_create file = mukv_open file >>= λ db.
      some (record { refs = apr.make; entries = apr.make; db = db; gc = apr.make; heap = [] })

-- what the pointer shows; `none` where nothing is allocated
unfoldable pub deref : List (Option PropRef) → ℕ → Option PropRef
deref heap a = get_elem? heap a >>= λ r. r

change_count : (ℤ → ℤ) → List (Option PropRef) → ℕ → List (Option PropRef)
unfolding deref
change_count f heap a = elim (deref heap a) [
  | none ↦ heap
  | some r ↦ set heap a (some (record r { count = f r.count }))
]

module _ ⦃apr : AprHash⦄ where
  -- The key in `gc` is the first eight bytes that the pointer shows, so those of the id. Where it
  -- is there already, apr_hash_set() keeps the key's pointer, the one that the cleanup reads.
  mark : apr.Hash ℕ → Text → ℕ → apr.Hash ℕ
  mark gc id a = elim (apr.get gc (take 8 id)) [
    | some b ↦ gc
    | none ↦ apr.put gc (take 8 id) (some a)
  ]

  mark_if_unused : apr.Hash ℕ → Option PropRef → ℕ → apr.Hash ℕ
  unfolding mark
  mark_if_unused gc none a = gc
  mark_if_unused gc (some r) a = if lez r.count (pos 0) then mark gc r.id a else gc

  -- the end of property_load() and of property_delete()
  pub remove_entry : PropertyStorage → Text → ℕ → PropertyStorage
  unfolding change_count mark_if_unused deref
  remove_entry store path a =
      let heap = change_count decz store.heap a in
      record store {
        entries = apr.put store.entries path none;
        heap = heap;
        gc = mark_if_unused store.gc (deref heap a) a;
      }

  pub property_delete : PropertyStorage → Text → Status × PropertyStorage
  unfolding remove_entry
  property_delete store path = elim (apr.get store.entries path) [
    | none ↦ (success, store)
    | some e ↦ (success, remove_entry store path e.ref)
  ]

  pub reused : Option PropEntry → Text → ℕ → PropEntry
  reused none path a = record { path = path; ref = a }
  reused (some e) path a = record e { ref = a }

  -- "Add entry": an old entry of the path is used again, and its `path` stays.
  pub add_entry : PropertyStorage → Text → ℕ → PropertyStorage
  unfolding change_count reused
  add_entry store path a = record store {
    entries = apr.put store.entries path (some (reused (apr.get store.entries path) path a));
    heap = change_count incz store.heap a;
  }

module _ ⦃apr : AprHash⦄ ⦃sn : Snappy⦄ where
  -- The reference to an id that is new. It is in `refs` before its data is in the database.
  unfoldable pub new_ref : PropertyStorage → Text → Text → Status × ℕ × PropertyStorage
  new_ref store id d =
      let a = length store.heap in
      let known = record store {
        heap = store.heap ++ some (record { id = id; count = pos 0 }) ∷ [];
        refs = apr.put store.refs id (some a);
      } in
      elim (sn.compress d) [
        | none ↦ (failure, a, known)
        | some c ↦ let (s, db) = mukv_store store.db id c in (s, a, record known { db = db })
      ]

  pub find_ref : PropertyStorage → Text → Text → Status × ℕ × PropertyStorage
  unfolding new_ref
  find_ref store id d = elim (apr.get store.refs id) [
    | some a ↦ (success, a, store)
    | none ↦ new_ref store id d
  ]

  pub store_data : PropertyStorage → Text → Text → Text → Status × PropertyStorage
  unfolding find_ref add_entry
  store_data store path id d =
      let (s, a, store') = find_ref store id d in
      elim s [ failure ↦ (failure, store') | success ↦ (success, add_entry store' path a) ]

  pub property_store :
      ⦃md : Md5⦄ → PropertyStorage → Text → apr.Hash Text → Status × PropertyStorage
  unfolding store_data
  property_store ⦃md⦄ store path props =
      if length (apr.entries props) == 0
      then (success, record store { entries = apr.put store.entries path none })
      else elim (prop_hash_serialize props) [
        | none ↦ (failure, store)
        | some (d, len) ↦ elim (md.md5 (take len d)) [
          | none ↦ (failure, store)
          | some id ↦ store_data store path id (take len d)
        ]
      ]

  -- from the compressed data to the properties
  pub unpack : apr.Hash Text → Text → Option (apr.Hash Text)
  unpack props value = sn.uncompressed_length value >>= λ dsize.
      sn.uncompress value >>= λ dptr. prop_hash_reconstruct props (take dsize dptr)

  pub load_ref :
      PropertyStorage
      → Text
      → apr.Hash Text
      → ℕ
      → Option PropRef
      → Status × apr.Hash Text × PropertyStorage
  unfolding unpack remove_entry
  load_ref store path props a none = (failure, props, store)
  load_ref store path props a (some r) =
      let (value, db) = mukv_fetch store.db r.id in
      elim (value >>= unpack props) [
        | none ↦ (failure, props, record store { db = db })
        | some h ↦ (success, h, remove_entry (record store { db = db }) path a)
      ]

  pub property_load :
      PropertyStorage → Text → apr.Hash Text → Status × apr.Hash Text × PropertyStorage
  unfolding load_ref deref
  property_load store path props = elim (apr.get store.entries path) [
    | none ↦ (success, props, store)
    | some e ↦ load_ref store path props e.ref (deref store.heap e.ref)
  ]

module _ ⦃apr : AprHash⦄ where
  -- The loop of property_storage_cleanup() over the addresses in `gc`. A reference that is still in
  -- use is left alone; a freed one counts as a failure.
  unfoldable pub sweep : PropertyStorage → List (Text × ℕ) → Status × PropertyStorage
  unfolding deref
  sweep store [] = (success, store)
  sweep store ((k, a) ∷ l) = elim (deref store.heap a) [
    | none ↦ (failure, store)
    | some r ↦ elim (lez r.count (pos 0)) [
      | false ↦ sweep store l
      | true ↦
          let (s, db) = mukv_delete store.db r.id in
          let store' = record store { refs = apr.put store.refs r.id none; db = db } in
          elim s [
            | failure ↦ (failure, store')
            | success ↦ sweep (record store' { heap = set store'.heap a none }) l
          ]
    ]
  ]

  unfoldable pub property_storage_cleanup : PropertyStorage → Status × PropertyStorage
  unfolding sweep
  property_storage_cleanup store =
      if length (apr.entries store.gc) == 0
      then (success, store)
      else (let (s, store') = sweep store (apr.entries store.gc) in
          elim s [
            | failure ↦ (failure, store')
            | success ↦ (success, record store' { gc = apr.make })
          ])
