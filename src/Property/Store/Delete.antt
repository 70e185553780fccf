-- ===== src/Property/Store/Delete.antt =====
-- What property_delete() removes.
use rsvndump.Base.{
  Text, text_eq, text_eq_iff, text_eq_refl, ◌≡◌, refl, ap, sym, ◌∙◌, if◌then◌else◌, none, success,
  Option-cases, Bool-cases, inl, inr,
}
use rsvndump.Apr.{AprHash}
use rsvndump.Snappy.{Snappy}
use rsvndump.Property.Store.{PropertyStorage, remove_entry, property_delete, property_load}

module _ ⦃apr : AprHash⦄ where
  entries-property_delete :
      (store : PropertyStorage) (path q : Text)
      → apr.get (property_delete store path).1.entries q
        ≡ (if text_eq path q then none else apr.get store.entries q)
  unfolding property_delete remove_entry
  entries-property_delete store path q = elim (Option-cases (apr.get store.entries path)) [
    | inr (e, found) ↦ rw (property_delete, found) (apr.get-put store.entries path q none)
    | inl e ↦
        rw (property_delete, e)
          (elim (Bool-cases (text_eq path q)) [
            | inl same ↦
                rw same (ap (apr.get store.entries) (sym ((text_eq_iff path q).0 same)) ∙ e)
            | inr other ↦ rw other refl
          ])
  ]

module _ ⦃apr : AprHash⦄ ⦃sn : Snappy⦄ where
  load_nothing :
      (store : PropertyStorage) (path : Text) (props : apr.Hash Text)
      → apr.get store.entries path ≡ none
      → property_load store path props ≡ (success, props, store)
  unfolding property_load
  load_nothing store path props e = rw (property_load, e) refl

  -- After property_delete() of a path, property_load() of it succeeds and changes neither the hash
  -- nor the storage, and every other path has the entry that it had.
  pub property_load-property_delete :
      (store : PropertyStorage) (path q : Text) (props : apr.Hash Text)
      → (property_load (property_delete store path).1 path props
          ≡ (success, props, (property_delete store path).1))
        × (apr.get (property_delete store path).1.entries q
            ≡ (if text_eq path q then none else apr.get store.entries q))
  property_load-property_delete store path q props = (
    load_nothing (property_delete store path).1 path props
        (entries-property_delete store path path ∙ rw (text_eq_refl path) refl),
    entries-property_delete store path q,
  )
