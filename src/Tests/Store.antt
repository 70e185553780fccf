-- ===== src/Tests/Store.antt =====
-- The key-value store of src/mukv.c and the tables of src/rhash.c.
use rsvndump.Base.{
  take, ◌++◌, [], ℕ, Text, text_eq, ◌≡◌, refl, true, none, some, codes, if◌then◌else◌, arith,
  success, failure,
}
use rsvndump.Samples.{list_hash, new_file}
use rsvndump.Stdio.{File}
use rsvndump.Rhash.{rhash_get, rhash_set, rhash_make, rhash_get-rhash_set, rhash_get-rhash_make}
use rsvndump.Mukv.{Place, Mukv, mukv_store, mukv_fetch, mukv_delete}
use rsvndump.Mukv.View.{
  IsValid, view, mukv_fetch-view, mukv_store-view, mukv_store-view_full, mukv_delete-view,
}

abbrev pub store_on : File → Mukv
store_on f = record { index = rhash_make Place; file = f }

pub store_on-IsValid : (f : File) → f.seekable ≡ true → IsValid (store_on f)
store_on-IsValid f h = record {
  seekable = h;
  within = λ k p e. cc (e, rhash_get-rhash_make Place k);
}

-- A device with room for two bytes.
abbrev small_file : File
small_file = record new_file { room = 2 }

-- The store with one record, and after it a record that did not fit.
abbrev one_record : Mukv
one_record = (mukv_store (store_on new_file) (codes "k") (codes "value")).1

one_record-IsValid : IsValid one_record
one_record-IsValid =
    (mukv_store-view (store_on new_file) (codes "k") (codes "value")
      (store_on-IsValid new_file refl) (omega arith)).1

rhash_get-rhash_set_example :
    rhash_get (rhash_set (rhash_make ℕ) (codes "a") (some 7)) (codes "b")
    ≡ (if text_eq (codes "a") (codes "b") then some 7 else rhash_get (rhash_make ℕ) (codes "b"))
rhash_get-rhash_set_example = rhash_get-rhash_set (rhash_make ℕ) (codes "a") (codes "b") (some 7)

mukv_fetch-view_example :
    ((mukv_fetch one_record (codes "k")).0 ≡ view one_record (codes "k"))
    × IsValid (mukv_fetch one_record (codes "k")).1
    × ((j : Text) → view (mukv_fetch one_record (codes "k")).1 j ≡ view one_record j)
mukv_fetch-view_example = mukv_fetch-view one_record (codes "k") one_record-IsValid

mukv_store-view_example :
    ((mukv_store (store_on new_file) (codes "k") (codes "value")).0 ≡ success)
    × IsValid (mukv_store (store_on new_file) (codes "k") (codes "value")).1
    × ((j : Text)
        → view (mukv_store (store_on new_file) (codes "k") (codes "value")).1 j
          ≡ (if text_eq (codes "k") j then some (codes "value") else view (store_on new_file) j))
mukv_store-view_example =
    mukv_store-view (store_on new_file) (codes "k") (codes "value") (store_on-IsValid new_file refl)
      (omega arith)

mukv_store-view_full_example :
    ((mukv_store (store_on small_file) (codes "k") (codes "value")).0 ≡ failure)
    × IsValid (mukv_store (store_on small_file) (codes "k") (codes "value")).1
    × ((j : Text)
        → view (mukv_store (store_on small_file) (codes "k") (codes "value")).1 j
          ≡ view (store_on small_file) j)
    × ((mukv_store (store_on small_file) (codes "k") (codes "value")).1.file.bytes
        ≡ [] ++ take 2 (codes "value"))
mukv_store-view_full_example =
    mukv_store-view_full (store_on small_file) (codes "k") (codes "value")
      (store_on-IsValid small_file refl) (omega arith)

mukv_delete-view_example :
    ((mukv_delete one_record (codes "k")).0 ≡ success)
    × IsValid (mukv_delete one_record (codes "k")).1
    × ((j : Text)
        → view (mukv_delete one_record (codes "k")).1 j
          ≡ (if text_eq (codes "k") j then none else view one_record j))
mukv_delete-view_example = mukv_delete-view one_record (codes "k") one_record-IsValid
