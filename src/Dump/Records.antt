-- ===== src/Dump/Records.antt =====
-- dump_revision_header(), dump_padding_revision() and dump_create_user_prefix() of src/dump.c, and
-- PROPS_END of src/main.h. What they print is their result.
pub mod Announced
pub mod UserPrefix
use rsvndump.Base.{
  ℕ, zero, suc, ◌+◌, Text, ℤ, Bool, true, false, ltb, ◌==◌, if◌then◌else◌, Option, none, some, List,
  [], ◌∷◌, ◌++◌, length, codes, decimal, print_int,
}
use rsvndump.Apr.{AprHash}
use rsvndump.Svn.{DumpNames}
use rsvndump.Log.{LogRevision}
use rsvndump.Options.{DumpOptions}
use rsvndump.Property.Format.{line, property_strlen, property_dump}

abbrev pub props_end : Text
props_end = codes "PROPS-END\n"

-- sizeof(PROPS_END)-1
abbrev pub props_end_len : ℕ
props_end_len = 10

-- "%s: %s\n"
abbrev pub field : Text → Text → Text
field name value = line (name ++ (codes ": " ++ value))

-- `if (value != NULL) props_length += property_strlen(...)`, and the same for property_dump()
pub strlen_if : Text → Option Text → ℕ
strlen_if key none = 0
strlen_if key (some value) = property_strlen (some key) (some value)

pub dump_if : Text → Option Text → Text
dump_if key none = []
dump_if key (some value) = property_dump (some key) (some value)

-- the three header lines
pub header_lines : ⦃names : DumpNames⦄ → ℤ → ℕ → Text
header_lines ⦃names⦄ rev props_length =
    field names.revision_number (print_int rev)
    ++ (field names.prop_content_length (decimal props_length)
        ++ line (field names.content_length (decimal props_length)))

module _ ⦃apr : AprHash⦄ where
  pub props_length : LogRevision → ℕ
  unfolding strlen_if
  props_length revision =
      let n =
        strlen_if (codes "svn:log") revision.message
        + (strlen_if (codes "svn:author") revision.author
            + strlen_if (codes "svn:date") revision.date) in
      if ltb 0 n then n + props_end_len else n

  pub revision_properties : LogRevision → Text
  unfolding dump_if
  revision_properties revision =
      dump_if (codes "svn:log") revision.message
      ++ (dump_if (codes "svn:author") revision.author ++ dump_if (codes "svn:date") revision.date)

module _ ⦃names : DumpNames⦄ ⦃apr : AprHash⦄ where
  pub dump_revision_header : LogRevision → ℤ → Text
  unfolding props_length revision_properties header_lines
  dump_revision_header revision local_revnum =
      header_lines local_revnum (props_length revision)
      ++ (if ltb 0 (props_length revision)
          then revision_properties revision ++ line props_end
          else [])

abbrev pub padding_message : Text
padding_message = codes "This is an empty revision for padding."

pub dump_padding_revision : ⦃names : DumpNames⦄ → ℤ → Text
unfolding header_lines
dump_padding_revision rev =
    header_lines rev
      (property_strlen (some (codes "svn:log")) (some padding_message) + props_end_len)
    ++ (property_dump (some (codes "svn:log")) (some padding_message) ++ line props_end)

-- strchr(s, '/'): what is before the slash and what is after it
pub split_slash : Text → Option (Text × Text)
split_slash [] = none
split_slash (c ∷ s) =
    let rest = split_slash s in
    if c == b'/'
    then some ([], s)
    else elim rest [ none ↦ none | some (before, after) ↦ some (c ∷ before, after) ]

module _ ⦃names : DumpNames⦄ where
  -- the record of one directory of the prefix
  pub prefix_node : Text → Text
  prefix_node path =
      field names.node_path path
      ++ (field names.node_kind (codes "dir") ++ line (field names.node_action (codes "add")))

  -- The loop: `s` is what is left of the old prefix, `made` the new one so far. Each round takes a
  -- byte or more off `s`, so its length and one more rounds are enough.
  pub prefix_rounds : ℕ → Text → Text → Text × Text
  unfolding split_slash prefix_node
  prefix_rounds zero made s = ([], made ++ s)
  prefix_rounds (suc fuel) made s = elim (split_slash s) [
    | none ↦ ([], made ++ s)
    | some ([], after) ↦ prefix_rounds fuel made after
    | some (c ∷ before, after) ↦
        let (out, prefix) = prefix_rounds fuel (made ++ (c ∷ before ++ b'/' ∷ [])) after in
        (prefix_node (made ++ (c ∷ before)) ++ out, prefix)
  ]

  unfoldable pub dump_create_user_prefix : DumpOptions → Text × DumpOptions
  unfolding prefix_rounds
  dump_create_user_prefix opts = elim opts.prefix [
    | none ↦ ([], opts)
    | some old ↦
        let (out, prefix) = prefix_rounds (suc (length old)) [] old in
        (out, record opts { prefix = some prefix })
  ]
