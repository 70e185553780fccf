-- ===== src/Property/Store/Load.antt =====
-- What property_store() saves, property_load() gives back.
use rsvndump.Base.{
  ℕ, zero, suc, ◌<◌, Text, text_eq_refl, ℤ, pos, incz, ◌≡◌, refl, ap, sym, ◌∙◌, false, ◌==◌, Option,
  none, some, List, [], ◌∷◌, ◌++◌, length, take, take_all, set, success, All, arith, Option-cases,
  Bool-cases, ==_iff, inl, inr, subst,
}
use rsvndump.Apr.{AprHash}
use rsvndump.Snappy.{Snappy}
use rsvndump.Mukv.View.{IsValid, view, Fits, mukv_fetch-view, mukv_store-view}
use rsvndump.Property.Serial.{prop_hash_serialize, prop_hash_reconstruct}
use rsvndump.Property.Serial.RoundTrip.{IsProperty, prop_hash_reconstruct-prop_hash_serialize}
use rsvndump.Property.Store.{
  Md5, PropRef, PropEntry, PropertyStorage, deref, change_count, add_entry, reused, new_ref,
  find_ref, store_data, property_store, unpack, load_ref, property_load,
}

-- The reference at the address has this id.
abbrev HasId : List (Option PropRef) → ℕ → Text → Type 0
HasId heap a id = (r : PropRef) × (deref heap a ≡ some r) × (r.id ≡ id)

deref-new :
    (heap : List (Option PropRef)) (r : PropRef)
    → deref (heap ++ some r ∷ []) (length heap) ≡ some r
unfolding deref
deref-new [] r = refl
deref-new (x ∷ heap) r = deref-new heap r

deref-older :
    (heap : List (Option PropRef)) (x : Option PropRef) (a : ℕ) (r : PropRef)
    → deref heap a ≡ some r
    → deref (heap ++ x ∷ []) a ≡ some r
unfolding deref
deref-older [] x a r h = absurd (ground arith)
deref-older (y ∷ heap) x zero r h = h
deref-older (y ∷ heap) x (suc a) r h = deref-older heap x a r h

deref-set_same :
    (heap : List (Option PropRef)) (a : ℕ) (r s : PropRef)
    → deref heap a ≡ some r
    → deref (set heap a (some s)) a ≡ some s
unfolding deref
deref-set_same [] a r s h = absurd (ground arith)
deref-set_same (x ∷ heap) zero r s h = refl
deref-set_same (x ∷ heap) (suc a) r s h = deref-set_same heap a r s h

deref-set_other :
    (heap : List (Option PropRef)) (a b : ℕ) (v : Option PropRef)
    → (a == b) ≡ false
    → deref (set heap a v) b ≡ deref heap b
unfolding deref
deref-set_other [] a b v h = refl
deref-set_other (x ∷ heap) zero zero v h = absurd (ground (arith, h))
deref-set_other (x ∷ heap) zero (suc b) v h = refl
deref-set_other (x ∷ heap) (suc a) zero v h = refl
deref-set_other (x ∷ heap) (suc a) (suc b) v h = deref-set_other heap a b v (ground (arith, h))

HasId-change_count :
    (f : ℤ → ℤ) (heap : List (Option PropRef)) (a b : ℕ) (id : Text)
    → HasId heap b id
    → HasId (change_count f heap a) b id
unfolding change_count
HasId-change_count f heap a b id (r, at, e) = elim (Option-cases (deref heap a)) [
  | inl nothing ↦ rw (change_count, nothing) (r, at, e)
  | inr (s, found) ↦
      rw (change_count, found)
        (elim (Bool-cases (a == b)) [
          | inl same ↦
              let e' : a ≡ b = (==_iff a b).0 same in
              let there : some s ≡ some r = sym found ∙ ap (deref heap) e' ∙ at in
              let id_of : s.id ≡ id = cc (there, e) in
              let t = record s { count = f s.count } in
              subst (λ (x : ℕ). HasId (set heap a (some t)) x id) e'
                (t, deref-set_same heap a s t found, id_of)
          | inr other ↦
              (r, deref-set_other heap a b (some (record s { count = f s.count })) other ∙ at, e)
        ])
]

module _ ⦃apr : AprHash⦄ ⦃sn : Snappy⦄ ⦃md : Md5⦄ where
  -- Each id in `refs` is that of a reference, and the database has the data of which it is the
  -- checksum, compressed.
  abbrev pub Keeps : PropertyStorage → Type 0
  Keeps store =
      (id : Text) (a : ℕ)
      → apr.get store.refs id ≡ some a
      → HasId store.heap a id
        × ((d c : Text) → md.md5 d ≡ some id → sn.compress d ≡ some c → view store.db id ≡ some c)

  -- The reference at `a` leads to the compressed data.
  record Ready (store : PropertyStorage) (a : ℕ) (id c : Text) : Type 0 where
    has_id : HasId store.heap a id
    valid : IsValid store.db
    record_of : view store.db id ≡ some c

  find_ref-Ready :
      (store : PropertyStorage) (id d c : Text)
      → IsValid store.db
      → Keeps store
      → md.md5 d ≡ some id
      → sn.compress d ≡ some c
      → Fits store.db c
      → ((find_ref store id d).0 ≡ success)
        × Ready (find_ref store id d).2 (find_ref store id d).1 id c
  unfolding find_ref new_ref
  find_ref-Ready store id d c v keeps m z fits = elim (Option-cases (apr.get store.refs id)) [
    | inl e ↦
        let s = mukv_store-view store.db id c v fits in
        rw (find_ref, e, new_ref, z)
          (
            s.0,
            record {
              has_id = (record { id = id; count = pos 0 }, deref-new store.heap _, refl);
              valid = s.1;
              record_of = s.2 id ∙ rw (text_eq_refl id) refl;
            },
          )
    | inr (a, e) ↦
        let k = keeps id a e in
        rw (find_ref, e) (refl, record { has_id = k.0; valid = v; record_of = k.1 d c m z })
  ]

  unpack-compress :
      (props : apr.Hash Text) (d c : Text)
      → sn.compress d ≡ some c
      → unpack props c ≡ prop_hash_reconstruct props d
  unfolding unpack
  unpack-compress props d c z =
      rw
        (
          sn.uncompressed_length-compress d c z,
          sn.uncompress-compress d c z,
          take_all (length d) d (omega arith),
        )
        refl

  -- Loading from an entry whose reference is ready.
  load_ref-Ready :
      (store : PropertyStorage) (path : Text) (a : ℕ) (r : PropRef) (c : Text) (h : apr.Hash Text)
      → IsValid store.db
      → view store.db r.id ≡ some c
      → unpack apr.make c ≡ some h
      → ((load_ref store path apr.make a (some r)).0 ≡ success)
        × ((load_ref store path apr.make a (some r)).1 ≡ h)
  unfolding load_ref
  load_ref-Ready store path a r c h v e u =
      let f = mukv_fetch-view store.db r.id v in rw (load_ref, f.0, e) (rw u (refl, refl))

  ref-reused : (o : Option PropEntry) (path : Text) (a : ℕ) → (reused o path a).ref ≡ a
  unfolding reused
  ref-reused none path a = refl
  ref-reused (some e) path a = refl

  get-add_entry :
      (store : PropertyStorage) (path : Text) (a : ℕ)
      → apr.get (add_entry store path a).entries path
        ≡ some (reused (apr.get store.entries path) path a)
  unfolding add_entry
  get-add_entry store path a = apr.get-put store.entries path path _ ∙ rw (text_eq_refl path) refl

  -- Loading right after an entry is added whose reference is ready.
  load-add_entry :
      (store : PropertyStorage) (path : Text) (a : ℕ) (id c : Text) (h : apr.Hash Text)
      → Ready store a id c
      → unpack apr.make c ≡ some h
      → ((property_load (add_entry store path a) path apr.make).0 ≡ success)
        × ((property_load (add_entry store path a) path apr.make).1 ≡ h)
  unfolding property_load
  load-add_entry store path a id c h ready u =
      let (r, at, e) = HasId-change_count incz store.heap a a id ready.has_id in
      let o = apr.get store.entries path in
      let found : deref (change_count incz store.heap a) (reused o path a).ref ≡ some r =
        ap (deref (change_count incz store.heap a)) (ref-reused o path a) ∙ at in
      rw (property_load, get-add_entry store path a)
        (unfold add_entry in
          rw found (
            load_ref-Ready (add_entry store path a) path (reused o path a).ref r c h ready.valid
              (ap (view store.db) e ∙ ready.record_of) u))

  store_data-load :
      (store : PropertyStorage) (path id d c : Text) (h : apr.Hash Text)
      → IsValid store.db
      → Keeps store
      → md.md5 d ≡ some id
      → sn.compress d ≡ some c
      → Fits store.db c
      → unpack apr.make c ≡ some h
      → ((store_data store path id d).0 ≡ success)
        × ((property_load (store_data store path id d).1 path apr.make).0 ≡ success)
        × ((property_load (store_data store path id d).1 path apr.make).1 ≡ h)
  unfolding store_data
  store_data-load store path id d c h v keeps m z fits u =
      let (ok, ready) = find_ref-Ready store id d c v keeps m z fits in
      let l = load-add_entry (find_ref store id d).2 path (find_ref store id d).1 id c h ready u in
      rw (store_data, ok) (refl, l.0, l.1)

  -- Properties that are not empty, with keys that are C strings and lengths that fit, are saved by
  -- property_store(), and property_load() of the path gives the same properties into a new hash, if
  -- the checksum and the compression do not fail, the device has room, and the storage has for each
  -- checksum the data of which it is the checksum.
  pub property_load-property_store :
      (store : PropertyStorage) (path : Text) (props : apr.Hash Text) (d id c : Text)
      → IsValid store.db
      → Keeps store
      → All IsProperty (apr.entries props)
      → 0 < length (apr.entries props)
      → prop_hash_serialize props ≡ some (d, length d)
      → md.md5 d ≡ some id
      → sn.compress d ≡ some c
      → Fits store.db c
      → ((property_store store path props).0 ≡ success)
        × ((property_load (property_store store path props).1 path apr.make).0 ≡ success)
        × ((k : Text)
            → apr.get (property_load (property_store store path props).1 path apr.make).1 k
              ≡ apr.get props k)
  unfolding property_store
  property_load-property_store store path props d id c v keeps p some_left s m z fits =
      let (d', h, packed, unpacked, same) = prop_hash_reconstruct-prop_hash_serialize props p in
      let same_data : d' ≡ d = ground (arith, s, packed) in
      let u : unpack apr.make c ≡ some h =
        unpack-compress apr.make d c z ∙ rw (← same_data) unpacked in
      let full : (length (apr.entries props) == 0) ≡ false = ground (arith, some_left) in
      let whole : take (length d) d ≡ d = take_all (length d) d (omega arith) in
      let l = store_data-load store path id d c h v keeps m z fits u in
      rw (property_store, full, s)
        (rw (whole, m)
          (rw whole (l.0, l.1, λ k. ap (λ (t : apr.Hash Text). apr.get t k) l.2 ∙ same k)))
