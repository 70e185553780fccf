-- ===== src/Mukv/View.antt =====
-- What mukv_fetch() finds under each key, and how the other functions change it.
use Prim.Native.Nat.{min}
use rsvndump.Base.{
  ℕ, ◌+◌, ◌-◌, ◌≤◌, Text, text_eq, text_eq_iff, ◌≡◌, refl, ap, Bool, true, false, Option, none,
  some, ◌++◌, length, take, drop, if◌then◌else◌, arith, success, failure, Option-cases, inl, inr,
  take-append_le, drop-append_le, drop-append, length-append, length-drop, length-take_le, take_all,
  drop_all, append-nil,
}
use rsvndump.Apr.{AprHash}
use rsvndump.Rhash.{rhash_make, rhash_set, rhash_get, rhash_get-rhash_set, rhash_get-rhash_make}
use rsvndump.Stdio.{File}
use rsvndump.Mukv.{Place, Mukv, mukv_open, mukv_store, mukv_fetch, mukv_delete, mukv_exists}

-- The record at a place of the file.
abbrev pub cut : Text → Place → Text
cut bytes p = take p.size (drop p.off bytes)

abbrev pub cut? : Text → Option Place → Option Text
cut? bytes none = none
cut? bytes (some p) = some (cut bytes p)

module _ ⦃apr : AprHash⦄ where
  -- The file can be positioned, and every place that the index names lies in it.
  pub record IsValid (kv : Mukv) : Type 0 where
    pub seekable : kv.file.seekable ≡ true
    pub within :
        (k : Text) (p : Place)
        → rhash_get kv.index k ≡ some p
        → p.off + p.size ≤ length kv.file.bytes

  abbrev pub view : Mukv → Text → Option Text
  view kv k = cut? kv.file.bytes (rhash_get kv.index k)

  fetch_some :
      (kv : Mukv) (k : Text) (p : Place)
      → IsValid kv
      → rhash_get kv.index k ≡ some p
      → mukv_fetch kv k ≡ (
        some (cut kv.file.bytes p),
        record kv { file = record kv.file { offset = p.off + p.size } },
      )
  unfolding mukv_fetch
  fetch_some kv k p v e =
      let full : length (cut kv.file.bytes p) ≡ p.size =
        length-take_le p.size (drop p.off kv.file.bytes)
          (omega (arith, length-drop p.off kv.file.bytes, v.within k p e)) in
      ground (arith, e, v.seekable, full)

  fetch_none : (kv : Mukv) (k : Text) → rhash_get kv.index k ≡ none → mukv_fetch kv k ≡ (none, kv)
  unfolding mukv_fetch
  fetch_none kv k e = rw e

  -- In a valid store mukv_fetch() gives the record of the key, or NULL if there is none. It leaves
  -- the store valid, with the same records.
  pub mukv_fetch-view :
      (kv : Mukv) (k : Text)
      → IsValid kv
      → ((mukv_fetch kv k).0 ≡ view kv k)
        × IsValid (mukv_fetch kv k).1
        × ((j : Text) → view (mukv_fetch kv k).1 j ≡ view kv j)
  mukv_fetch-view kv k v = elim (Option-cases (rhash_get kv.index k)) [
    | inl e ↦ rw (fetch_none kv k e, e) (refl, v, λ j. refl)
    | inr (p, e) ↦
        rw (fetch_some kv k p v e, e)
          (refl, record { seekable = v.seekable; within = v.within }, λ j. refl)
  ]

  -- A key exists where it has a record.
  pub mukv_exists-view :
      (kv : Mukv) (k : Text) → mukv_exists kv k ≡ elim (view kv k) [ none ↦ false | some _ ↦ true ]
  unfolding mukv_exists
  mukv_exists-view kv k = ground arith

  fwrite_end :
      (b d : Text) (n : ℕ)
      → take (length b) b ++ (take n d ++ drop (length b + n) b) ≡ b ++ take n d
  fwrite_end b d n =
      rw (take_all (length b) b (omega arith), drop_all (length b + n) b (omega arith), append-nil)

  cut_append : (b d : Text) (p : Place) → p.off + p.size ≤ length b → cut (b ++ d) p ≡ cut b p
  cut_append b d p h =
      rw (drop-append_le p.off b d (omega arith))
        (take-append_le p.size (drop p.off b) d (omega (arith, length-drop p.off b)))

  cut?_append :
      (b d : Text) (o : Option Place)
      → ((p : Place) → o ≡ some p → p.off + p.size ≤ length b)
      → cut? (b ++ d) o ≡ cut? b o
  cut?_append b d none h = refl
  cut?_append b d (some p) h = ap some (cut_append b d p (h p refl))

  cut_last : (b d : Text) → cut (b ++ d) (record { off = length b; size = length d }) ≡ d
  cut_last b d = rw (drop-append b d) (take_all (length d) d (omega arith))

  -- The device has room for the record at the end of the file.
  abbrev pub Fits : Mukv → Text → Type 0
  Fits kv val = length val ≤ kv.file.room - length kv.file.bytes

  -- What mukv_store() leaves in the file and in the index.
  stored : Mukv → Text → Text → Mukv
  stored kv key val = record {
    index =
        rhash_set kv.index key (some (record { off = length kv.file.bytes; size = length val }));
    file = record kv.file {
      bytes = kv.file.bytes ++ val;
      offset = length kv.file.bytes + length val;
    };
  }

  store-Fits :
      (kv : Mukv) (key val : Text)
      → IsValid kv
      → Fits kv val
      → mukv_store kv key val ≡ (success, stored kv key val)
  unfolding mukv_store stored
  store-Fits kv key val v h =
      let e : min (length val) (kv.file.room - length kv.file.bytes) ≡ length val = omega arith in
      rw v.seekable (
        ground (
          arith,
          e,
          fwrite_end kv.file.bytes val (length val),
          take_all (length val) val (omega arith),
        ))

  cut-stored :
      (kv : Mukv) (key val : Text) (j : Text) (same : Bool)
      → IsValid kv
      → cut? (kv.file.bytes ++ val) (
          if same
          then some (record { off = length kv.file.bytes; size = length val })
          else rhash_get kv.index j)
        ≡ (if same then some val else view kv j)
  cut-stored kv key val j true v = ap some (cut_last kv.file.bytes val)
  cut-stored kv key val j false v =
      cut?_append kv.file.bytes val (rhash_get kv.index j) (v.within j)

  stored-within :
      (kv : Mukv) (val : Text) (j : Text) (same : Bool) (p : Place)
      → IsValid kv
      → (if same
          then some (record { off = length kv.file.bytes; size = length val })
          else rhash_get kv.index j)
        ≡ some p
      → p.off + p.size ≤ length kv.file.bytes + length val
  stored-within kv val j true p v e = ground arith
  stored-within kv val j false p v e = omega (arith, v.within j p e)

  -- Where the device has room, mukv_store() succeeds: the key has the new record, the other keys
  -- have theirs, and the store stays valid.
  pub mukv_store-view :
      (kv : Mukv) (key val : Text)
      → IsValid kv
      → Fits kv val
      → ((mukv_store kv key val).0 ≡ success)
        × IsValid (mukv_store kv key val).1
        × ((j : Text)
            → view (mukv_store kv key val).1 j ≡ (if text_eq key j then some val else view kv j))
  unfolding stored
  mukv_store-view kv key val v h = rw (store-Fits kv key val v h) (
    refl,
    record {
      seekable = v.seekable;
      within = λ j p e.
          rw length-append
            (stored-within kv val j (text_eq key j) p v (rw rhash_get-rhash_set at e));
    },
    λ j. rw rhash_get-rhash_set (cut-stored kv key val j (text_eq key j) v),
  )

  -- What a write that did not fit leaves behind.
  torn : Mukv → Text → Mukv
  torn kv val =
      let n = min (length val) (kv.file.room - length kv.file.bytes) in
      record kv {
        file = record kv.file {
          bytes = kv.file.bytes ++ take n val;
          offset = length kv.file.bytes + n;
        };
      }

  store_torn :
      (kv : Mukv) (key val : Text)
      → IsValid kv
      → ¬ (Fits kv val)
      → mukv_store kv key val ≡ (failure, torn kv val)
  unfolding mukv_store torn
  store_torn kv key val v h =
      let n = min (length val) (kv.file.room - length kv.file.bytes) in
      rw v.seekable (ground (arith, fwrite_end kv.file.bytes val n))

  -- Where the device has no room, mukv_store() fails, and every key keeps its record. The file has
  -- grown by as much of the new record as the device has room for.
  pub mukv_store-view_full :
      (kv : Mukv) (key val : Text)
      → IsValid kv
      → ¬ (Fits kv val)
      → ((mukv_store kv key val).0 ≡ failure)
        × IsValid (mukv_store kv key val).1
        × ((j : Text) → view (mukv_store kv key val).1 j ≡ view kv j)
        × ((mukv_store kv key val).1.file.bytes
            ≡ kv.file.bytes ++ take (kv.file.room - length kv.file.bytes) val)
  unfolding torn
  mukv_store-view_full kv key val v h = rw (store_torn kv key val v h) (
    refl,
    record {
      seekable = v.seekable;
      within = λ j p e. omega (arith, v.within j p e, length-append {0} kv.file.bytes);
    },
    λ j. cut?_append kv.file.bytes _ (rhash_get kv.index j) (v.within j),
    ap (λ n. kv.file.bytes ++ take n val) (omega (arith, h)),
  )

  delete_none :
      (kv : Mukv) (key : Text) → rhash_get kv.index key ≡ none → mukv_delete kv key ≡ (success, kv)
  unfolding mukv_delete
  delete_none kv key e = ground (arith, e)

  delete_some :
      (kv : Mukv) (key : Text) (p : Place)
      → rhash_get kv.index key ≡ some p
      → mukv_delete kv key ≡ (success, record kv { index = rhash_set kv.index key none })
  unfolding mukv_delete
  delete_some kv key p e = ground (arith, e)

  cut?-if :
      (b : Text) (same : Bool) (o : Option Place)
      → cut? b (if same then none else o) ≡ (if same then none else cut? b o)
  cut?-if b true o = refl
  cut?-if b false o = refl

  if_some :
      (same : Bool) (o : Option Place) (p : Place)
      → (if same then none else o) ≡ some p
      → o ≡ some p
  if_some same o p h = ground arith

  -- mukv_delete() succeeds; the key has no record any more, the other keys keep theirs, and the
  -- store stays valid.
  pub mukv_delete-view :
      (kv : Mukv) (key : Text)
      → IsValid kv
      → ((mukv_delete kv key).0 ≡ success)
        × IsValid (mukv_delete kv key).1
        × ((j : Text) → view (mukv_delete kv key).1 j ≡ (if text_eq key j then none else view kv j))
  mukv_delete-view kv key v = elim (Option-cases (rhash_get kv.index key)) [
    | inl e ↦ rw (delete_none kv key e) (refl, v, λ j. ground (arith, e, text_eq_iff key j))
    | inr (p, e) ↦ rw (delete_some kv key p e) (
      refl,
      record {
        seekable = v.seekable;
        within = λ j q x. v.within j q (if_some (text_eq key j) _ q (rw rhash_get-rhash_set at x));
      },
      λ j. rw rhash_get-rhash_set (cut?-if kv.file.bytes (text_eq key j) (rhash_get kv.index j)),
    )
  ]

  -- mukv_open() of a file that can be positioned gives a valid store with no record.
  pub view-mukv_open :
      (f : File)
      → f.seekable ≡ true
      → (kv : Mukv) × (mukv_open (some f) ≡ some kv) × IsValid kv × ((k : Text) → view kv k ≡ none)
  unfolding mukv_open
  view-mukv_open f h = (
    record { index = rhash_make Place; file = f },
    refl,
    record { seekable = h; within = λ k p e. cc (e, rhash_get-rhash_make Place k) },
    λ k. rw rhash_get-rhash_make,
  )
