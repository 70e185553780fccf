-- ===== src/Delta/Print.antt =====
-- What delta_dump_node() and delta_dump_replace() of src/delta.c print about a node, but for the
-- contents of a file.
use rsvndump.Base.{
  ℕ, ◌+◌, Text, Bool, false, not, ◌&&◌, ◌||◌, ◌==◌, if◌then◌else◌, Option, none, some, List, [],
  ◌∷◌, ◌++◌, codes, decimal, print_int,
}
use rsvndump.Apr.{AprHash}
use rsvndump.Svn.{DumpNames, SvnCalls}
use rsvndump.Options.{DumpOptions}
use rsvndump.Property.Serial.{before_nul}
use rsvndump.Property.Format.{
  line, property_strlen, property_dump, property_del_strlen, property_del_dump,
}
use rsvndump.Dump.Records.{field, props_end, props_end_len}
use rsvndump.Delta.Node.{Node, copied, is_file, is_dir, is_some}

-- "%s%s" of the user prefix and the path
unfoldable pub prefixed : DumpOptions → Text → Text
prefixed opts path = elim opts.prefix [ none ↦ path | some p ↦ p ++ path ]

-- The words that the switch prints; of another action, none.
unfoldable pub action_word : ℕ → Text
action_word action =
    if action == b'M'
    then codes "change\n"
    else if action == b'A'
    then codes "add\n"
    else if action == b'D'
    then codes "delete\n"
    else if action == b'R'
    then codes "replace\n"
    else []

module _ ⦃apr : AprHash⦄ where
  -- The loops over the properties that are not deleted. The value is passed on as a C string.
  unfoldable pub properties_len : apr.Hash ℕ → List (Text × Text) → ℕ
  properties_len deleted [] = 0
  properties_len deleted ((key, value) ∷ l) =
      let rest = properties_len deleted l in
      if is_some (apr.get deleted key)
      then rest
      else property_strlen (some key) (some (before_nul value)) + rest

  unfoldable pub dump_properties : apr.Hash ℕ → List (Text × Text) → Text
  dump_properties deleted [] = []
  dump_properties deleted ((key, value) ∷ l) =
      let rest = dump_properties deleted l in
      if is_some (apr.get deleted key)
      then rest
      else property_dump (some key) (some (before_nul value)) ++ rest

-- the loops over the deleted properties
unfoldable pub deleted_len : List (Text × ℕ) → ℕ
deleted_len [] = 0
deleted_len ((key, v) ∷ l) = property_del_strlen (some key) + deleted_len l

unfoldable pub dump_deleted : List (Text × ℕ) → Text
dump_deleted [] = []
dump_deleted ((key, v) ∷ l) = property_del_dump (some key) ++ dump_deleted l

module _ ⦃apr : AprHash⦄ where
  unfoldable pub node_props_len : DumpOptions → Node → ℕ
  unfolding properties_len deleted_len
  node_props_len opts n =
      properties_len n.del_properties (apr.entries n.properties)
      + (if opts.dump_format == 3 then deleted_len (apr.entries n.del_properties) else 0)

  -- "Dump properties", with the end mark
  unfoldable pub node_props : DumpOptions → Node → Text
  unfolding dump_properties dump_deleted
  node_props opts n =
      dump_properties n.del_properties (apr.entries n.properties)
      ++ ((if opts.dump_format == 3 then dump_deleted (apr.entries n.del_properties) else [])
          ++ props_end)

  -- Whether `n` is not to be dumped: the four tests at the start of delta_dump_node().
  unfoldable pub skips : DumpOptions → Node → Bool
  unfolding copied
  skips opts n =
      not n.dump_needed
      || (opts.flags.initial_dry_run
          || (((n.action == b'M') && (is_dir n.kind && not n.props_changed))
              || (copied n.cp_info && ((n.action == b'A') && not (is_some n.copyfrom_path)))))

module _ ⦃names : DumpNames⦄ ⦃apr : AprHash⦄ where
  -- what delta_dump_replace() prints
  unfoldable pub delete_record : DumpOptions → Node → Text
  unfolding prefixed
  delete_record opts n =
      field names.node_path (prefixed opts n.path)
      ++ (field names.node_action (codes "delete") ++ codes "\n\n")

  -- the path, the kind and the action
  unfoldable pub node_fields : DumpOptions → Node → Text
  unfolding prefixed action_word
  node_fields opts n =
      field names.node_path (prefixed opts n.path)
      ++ ((if n.action == b'D'
            then []
            else field names.node_kind (if is_file n.kind then codes "file" else codes "dir"))
          ++ (names.node_action ++ (codes ": " ++ action_word n.action)))

  unfoldable pub copy_fields : DumpOptions → Node → Text → Text
  unfolding prefixed
  copy_fields opts n path =
      field names.node_copyfrom_rev (print_int n.copyfrom_rev_local)
      ++ field names.node_copyfrom_path (prefixed opts path)

  unfoldable pub props_fields : DumpOptions → ℕ → Text
  props_fields opts prop_len =
      (if opts.dump_format == 3 then field names.prop_delta (codes "true") else [])
      ++ field names.prop_content_length (decimal prop_len)

  -- *md5sum != 0x00
  unfoldable pub sum_set : Text → Bool
  sum_set [] = false
  sum_set (c ∷ s) = not (c == 0)

  unfoldable pub content_fields : ⦃svn : SvnCalls⦄ → DumpOptions → Node → ℕ → Text
  unfolding sum_set
  content_fields ⦃svn⦄ opts n content_len =
      (if opts.flags.use_deltas then field names.text_delta (codes "true") else [])
      ++ (field names.text_content_length (decimal content_len)
          ++ (if sum_set n.md5sum then field names.text_content_md5 (svn.digest n.md5sum) else []))

  -- The printing from "Dump content size" to "Dump properties": the node's contents have the
  -- length, or are not dumped. `props` is dump_props.
  unfoldable pub section_text : ⦃svn : SvnCalls⦄ → DumpOptions → Node → Bool → Option ℕ → Text
  unfolding node_props_len node_props content_fields
  section_text opts n props content_len =
      let prop_len = node_props_len opts n + (if props then props_end_len else 0) in
      elim content_len [
        | none ↦ line (field names.content_length (decimal prop_len))
        | some len ↦
            content_fields opts n len
            ++ line (field names.content_length (decimal (prop_len + len)))
      ]
      ++ (if props then node_props opts n else [])
