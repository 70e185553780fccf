-- ===== src/Delta/Record/Blocks.antt =====
-- The property sections of a node of src/delta.c, as a reader of the dump sees them.
use rsvndump.Base.{
  ℕ, ◌+◌, Text, ◌≡◌, refl, false, ◌==◌, if◌then◌else◌, none, some, List, [], ◌∷◌, ◌++◌, length,
  length-append, arith,
}
use rsvndump.Apr.{AprHash}
use rsvndump.Options.{DumpOptions}
use rsvndump.Property.Serial.{before_nul}
use rsvndump.Property.Format.{property_dump, property_del_dump}
use rsvndump.Property.Format.Reading.{property_strlen-property_dump}
use rsvndump.Dump.Records.{props_end, props_end_len}
use rsvndump.Dump.Records.Announced.{Properties, dumps, length-dumps, read_block, read_block-dumps}
use rsvndump.Delta.Node.{Node, is_some}
use rsvndump.Delta.Print.{
  properties_len, dump_properties, deleted_len, dump_deleted, node_props_len, node_props,
}

module _ ⦃apr : AprHash⦄ where
  -- The properties that are not deleted, each value up to its first NUL.
  pub printed : apr.Hash ℕ → List (Text × Text) → Properties
  printed deleted [] = []
  printed deleted ((key, value) ∷ l) =
      let rest = printed deleted l in
      if is_some (apr.get deleted key) then rest else (key, before_nul value) ∷ rest

  pub dump_properties-printed :
      (deleted : apr.Hash ℕ) (l : List (Text × Text))
      → dump_properties deleted l ≡ dumps (printed deleted l)
  unfolding dump_properties printed dumps
  dump_properties-printed deleted [] = refl
  dump_properties-printed deleted ((key, value) ∷ l) =
      ground (arith, dump_properties-printed deleted l)

  pub properties_len-dump_properties :
      (deleted : apr.Hash ℕ) (l : List (Text × Text))
      → length (dump_properties deleted l) ≡ properties_len deleted l
  unfolding dump_properties properties_len
  properties_len-dump_properties deleted [] = refl
  properties_len-dump_properties deleted ((key, value) ∷ l) =
      let p = property_dump (some key) (some (before_nul value)) in
      ground (
        arith,
        properties_len-dump_properties deleted l,
        length-append p (dump_properties deleted l),
        (property_strlen-property_dump (some key) (some (before_nul value))).0,
      )

deleted_len-dump_deleted : (l : List (Text × ℕ)) → length (dump_deleted l) ≡ deleted_len l
unfolding dump_deleted deleted_len
deleted_len-dump_deleted [] = refl
deleted_len-dump_deleted ((key, v) ∷ l) = omega (
  arith,
  length-append (property_del_dump (some key)) (dump_deleted l),
  (property_strlen-property_dump (some key) none).1,
  deleted_len-dump_deleted l,
)

pub no_room : (l : Properties) → length (dumps l) ≡ 0 → l ≡ []
no_room [] h = refl
no_room ((k, v) ∷ l) h = absurd (omega (arith, h, length-dumps k v l))

module _ ⦃apr : AprHash⦄ where
  -- the deletions of a record of format 3
  deletions : DumpOptions → Node → Text
  deletions opts n =
      if opts.dump_format == 3 then dump_deleted (apr.entries n.del_properties) else []

  length-deletions :
      (opts : DumpOptions) (n : Node)
      → length (deletions opts n)
        ≡ (if opts.dump_format == 3 then deleted_len (apr.entries n.del_properties) else 0)
  unfolding deletions
  length-deletions opts n = ground (arith, deleted_len-dump_deleted (apr.entries n.del_properties))

  pub length-node_props :
      (opts : DumpOptions) (n : Node)
      → length (node_props opts n) ≡ node_props_len opts n + props_end_len
  unfolding node_props node_props_len
  length-node_props opts n =
      let l = apr.entries n.properties in
      let kept = dump_properties n.del_properties l in
      let rest = length-deletions opts n in
      unfold deletions in
      omega (
        arith,
        length-append kept (deletions opts n ++ props_end),
        length-append (deletions opts n) props_end,
        properties_len-dump_properties n.del_properties l,
        rest,
      )

  -- In a format other than 3, a reader of the properties gets those that are not deleted.
  pub read_block-node_props :
      (opts : DumpOptions) (n : Node)
      → (opts.dump_format == 3) ≡ false
      → read_block (node_props opts n) ≡ some (printed n.del_properties (apr.entries n.properties))
  unfolding node_props
  read_block-node_props opts n old =
      rw (old, dump_properties-printed n.del_properties (apr.entries n.properties))
        (read_block-dumps (printed n.del_properties (apr.entries n.properties)))
