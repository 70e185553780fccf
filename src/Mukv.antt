-- ===== src/Mukv.antt =====
-- src/mukv.c: a key-value store that appends its records to a file and keeps their places in an
-- index.
pub mod View
use rsvndump.Base.{
  ℕ, ◌+◌, Text, Bool, true, false, Option, none, some, length, ◌==◌, if◌then◌else◌, Status, success,
  failure,
}
use rsvndump.Apr.{AprHash}
use rsvndump.Rhash.{Rhash, rhash_make, rhash_set, rhash_get, rhash_clear}
use rsvndump.Stdio.{File, fseek_set, fseek_end, ftell, fwrite, fread}

-- entry_t
pub record Place : Type 0 where
  pub off : ℕ
  pub size : ℕ

module _ ⦃apr : AprHash⦄ where
  -- mukv_t
  pub record Mukv : Type 0 where
    pub index : Rhash Place
    pub file : File

  -- The argument is what fopen(path, "w+") gives.
  unfoldable pub mukv_open : Option File → Option Mukv
  mukv_open none = none
  mukv_open (some f) = some (record { index = rhash_make Place; file = f })

  -- The index entry is made only where the whole record is in the file.
  append_record : Mukv → Text → Text → Option File → Status × Mukv
  append_record kv key val none = (failure, kv)
  append_record kv key val (some f) =
      let (n, f') = fwrite f val in
      if n == length val
      then (
        success,
        record {
          index = rhash_set kv.index key (some (record { off = ftell f; size = length val }));
          file = f';
        },
      )
      else (failure, record kv { file = f' })

  unfoldable pub mukv_store : Mukv → Text → Text → Status × Mukv
  unfolding append_record
  mukv_store kv key val = append_record kv key val (fseek_end kv.file)

  read_record : Mukv → ℕ → Option File → Option Text × Mukv
  read_record kv size none = (none, kv)
  read_record kv size (some f) =
      let (d, f') = fread f size in
      (if length d == size then some d else none, record kv { file = f' })

  fetch_place : Mukv → Option Place → Option Text × Mukv
  unfolding read_record
  fetch_place kv none = (none, kv)
  fetch_place kv (some place) =
      if ftell kv.file == place.off
      then read_record kv place.size (some kv.file)
      else read_record kv place.size (fseek_set kv.file place.off)

  -- `none` is a datum whose `dptr` is NULL.
  pub mukv_fetch : Mukv → Text → Option Text × Mukv
  unfolding fetch_place
  mukv_fetch kv key = fetch_place kv (rhash_get kv.index key)

  -- From the index, not from the file.
  pub mukv_delete : Mukv → Text → Status × Mukv
  mukv_delete kv key = elim (rhash_get kv.index key) [
    | some place ↦ (success, record kv { index = rhash_set kv.index key none })
    | none ↦ (success, kv)
  ]

  pub mukv_exists : Mukv → Text → Bool
  mukv_exists kv key = elim (rhash_get kv.index key) [ some place ↦ true | none ↦ false ]

  -- `closed` and `unlinked` say whether fclose() and unlink() succeed.
  unfoldable pub mukv_close : Mukv → Bool → Bool → Status × Mukv
  mukv_close kv closed unlinked = (
    if closed then (if unlinked then success else failure) else failure,
    record kv { index = rhash_clear Place kv.index },
  )
