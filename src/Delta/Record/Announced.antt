-- ===== src/Delta/Record/Announced.antt =====
-- The lengths that delta_dump_node() of src/delta.c announces for the properties and the contents of
-- a node, and what a reader gets from them.
use native.Mathlib.Numerals.{unary_clauses}
use rsvndump.Base.{
  ◌+◌, Text, ◌≡◌, refl, ap, sym, ◌∙◌, Bool, true, false, ◌||◌, ltb, ◌==◌, if◌then◌else◌, Option,
  none, some, [], ◌++◌, length, append_assoc, append-nil, decimal, success, failure, arith,
  Option-cases, inl, inr,
}
use rsvndump.Apr.{AprHash, AprStrings}
use rsvndump.Critbit.{Critbit}
use rsvndump.Snappy.{Snappy}
use rsvndump.Svn.{DumpNames, SvnCalls}
use rsvndump.Files.{Files}
use rsvndump.Session.{Obfuscation}
use rsvndump.Options.{DumpOptions}
use rsvndump.Property.Format.{line}
use rsvndump.Dump.Records.{field, props_end_len}
use rsvndump.Dump.Records.Announced.{read_block}
use rsvndump.Delta.Node.{Node, Editor, is_some}
use rsvndump.Delta.Print.{
  properties_len, node_props_len, node_props, props_fields, content_fields, section_text,
}
use rsvndump.Delta.Record.{
  read_file, file_size, content_file, delta_cat_file, dump_contents, dump_sections,
}
use rsvndump.Delta.Record.Blocks.{
  printed, dump_properties-printed, properties_len-dump_properties, no_room, length-node_props,
  read_block-node_props,
}

abbrev pub text_of : Option Text → Text
text_of none = []
text_of (some t) = t

module _ ⦃names : DumpNames⦄ ⦃apr : AprHash⦄ ⦃svn : SvnCalls⦄ where
  -- A record whose properties are `b`, if it has any, and whose contents are `d`, if it has any:
  -- the fields announce how long they are.
  abbrev pub announced : DumpOptions → Node → Option Text → Option Text → Text
  announced opts n b d =
      (elim b [ none ↦ [] | some b ↦ props_fields opts (length b) ])
      ++ ((elim d [ none ↦ [] | some d ↦ content_fields opts n (length d) ])
          ++ (line (field names.content_length (decimal (length (text_of b) + length (text_of d))))
              ++ (text_of b ++ text_of d)))

  -- the block, where there is one
  abbrev block_if : DumpOptions → Node → Bool → Option Text
  block_if opts n props = if props then some (node_props opts n) else none

  section_text-announced :
      (opts : DumpOptions) (n : Node) (props : Bool) (d : Option Text)
      → (props ≡ false → node_props_len opts n ≡ 0)
      → (if props then props_fields opts (node_props_len opts n + props_end_len) else [])
          ++ (section_text opts n props (elim d [ none ↦ none | some d ↦ some (length d) ])
              ++ text_of d)
        ≡ announced opts n (block_if opts n props) d
  unfolding section_text
  section_text-announced opts n true none h =
      simp (unary_clauses, append_assoc, append-nil, length-node_props opts n) refl
  section_text-announced opts n true (some d) h = simp (append_assoc, length-node_props opts n) refl
  section_text-announced opts n false none h =
      simp (unary_clauses, append_assoc, append-nil, h refl) refl
  section_text-announced opts n false (some d) h =
      simp (unary_clauses, append_assoc, append-nil, h refl) refl

  -- Where the properties take no room, none is printed.
  printed_none :
      (n : Node)
      → properties_len n.del_properties (apr.entries n.properties) ≡ 0
      → printed n.del_properties (apr.entries n.properties) ≡ []
  printed_none n h =
      let l = apr.entries n.properties in
      no_room (printed n.del_properties l) (
        ap length (sym (dump_properties-printed n.del_properties l))
        ∙ properties_len-dump_properties n.del_properties l
        ∙ h)

  read_block-block_if :
      (opts : DumpOptions) (n : Node) (props : Bool)
      → (opts.dump_format == 3) ≡ false
      → (props ≡ false → node_props_len opts n ≡ 0)
      → read_block (text_of (block_if opts n props))
        ≡ some (printed n.del_properties (apr.entries n.properties))
  read_block-block_if opts n true old h = read_block-node_props opts n old
  read_block-block_if opts n false old h =
      let zero_len : properties_len n.del_properties (apr.entries n.properties) ≡ 0 =
        unfold node_props_len in omega (arith, h refl) in
      rw (printed_none n zero_len) (unfold read_block in refl)

module _ ⦃names : DumpNames⦄ ⦃apr : AprHash⦄ ⦃strings : AprStrings⦄ ⦃cb : Critbit⦄ ⦃sn : Snappy⦄
    ⦃obf : Obfuscation⦄ ⦃files : Files⦄ ⦃svn : SvnCalls⦄ where
  -- What is printed of a node after its header fields: `b` is the block with its properties, and
  -- `d` its contents.
  pub record Announced (ed : Editor) (n : Node) (content props : Bool) : Type 0 where
    pub b : Option Text
    pub d : Option Text
    pub out : (dump_sections ed n content props).1.out ≡ ed.out ++ announced ed.opts n b d
    pub has_block : props ≡ true → is_some b ≡ true
    pub has_content : is_some d ≡ content
    pub content_read : content ≡ true → d ≡ read_file ed.fs (content_file ed.opts n)
    pub properties_read :
        (ed.opts.dump_format == 3) ≡ false
        → read_block (text_of b) ≡ some (printed n.del_properties (apr.entries n.properties))

  Announced-of :
      (ed : Editor) (n : Node) (content props : Bool) (d : Option Text)
      → is_some d ≡ content
      → (content ≡ true → d ≡ read_file ed.fs (content_file ed.opts n))
      → (dump_sections ed n content props).1.out
        ≡ ed.out
          ++ ((if props || ltb 0 (node_props_len ed.opts n)
                then props_fields ed.opts (node_props_len ed.opts n + props_end_len)
                else [])
              ++ (section_text ed.opts n
                    (props || ltb 0 (node_props_len ed.opts n))
                    (elim d [ none ↦ none | some d ↦ some (length d) ])
                  ++ text_of d))
      → Announced ed n content props
  Announced-of ed n content props d has from text =
      let hb = props || ltb 0 (node_props_len ed.opts n) in
      let empty : hb ≡ false → node_props_len ed.opts n ≡ 0 = λ e. ground (arith, e) in
      record {
        b = block_if ed.opts n hb;
        d = d;
        out = text ∙ ap (λ t. ed.out ++ t) (section_text-announced ed.opts n hb d empty);
        has_block = λ e. ground (arith, e);
        has_content = has;
        content_read = from;
        properties_read = λ old. read_block-block_if ed.opts n hb old empty;
      }

  size-read_file :
      (fs : files.Fs) (name : Option Text) (d : Text)
      → read_file fs name ≡ some d
      → file_size fs name ≡ some (length d)
  unfolding read_file file_size
  size-read_file fs none d h = cc
  size-read_file fs (some name) d h = files.size-read fs name d h

  dump_contents-out :
      (ed : Editor) (n : Node) (d : Text)
      → read_file ed.fs (content_file ed.opts n) ≡ some d
      → (dump_contents ed n).1.out ≡ ed.out ++ d
  unfolding dump_contents delta_cat_file
  dump_contents-out ed n d h = rw (h, dump_contents) (ground arith)

  dump_contents-none :
      (ed : Editor) (n : Node)
      → read_file ed.fs (content_file ed.opts n) ≡ none
      → (dump_contents ed n).0 ≡ failure
  unfolding dump_contents delta_cat_file
  dump_contents-none ed n h = rw (h, dump_contents) refl

  dump_sections-none :
      (ed : Editor) (n : Node) (props : Bool)
      → read_file ed.fs (content_file ed.opts n) ≡ none
      → (dump_sections ed n true props).0 ≡ failure
  unfolding dump_sections
  dump_sections-none ed n props h = elim (Option-cases (file_size ed.fs (content_file ed.opts n))) [
    | inl e ↦ rw (e, dump_sections) refl
    | inr (size, e) ↦ rw (e, dump_sections) (dump_contents-none _ n h)
  ]

  dump_sections-out :
      (ed : Editor) (n : Node) (props : Bool) (d : Text)
      → read_file ed.fs (content_file ed.opts n) ≡ some d
      → (dump_sections ed n true props).1.out
        ≡ ed.out
          ++ ((if props || ltb 0 (node_props_len ed.opts n)
                then props_fields ed.opts (node_props_len ed.opts n + props_end_len)
                else [])
              ++ (section_text ed.opts n
                    (props || ltb 0 (node_props_len ed.opts n))
                    (some (length d))
                  ++ d))
  unfolding dump_sections
  dump_sections-out ed n props d h =
      rw (size-read_file ed.fs (content_file ed.opts n) d h, dump_sections)
        (dump_contents-out _ n d h ∙ simp (append_assoc) refl)

  -- Where dump_sections() succeeds, it prints a record whose fields announce exactly the lengths of
  -- its block and of its contents: the contents are what the file holds, and a reader of the block
  -- gets, in a format other than 3, the properties of the node that are not deleted, each value up
  -- to its first NUL. A block is there at least where it is asked for, and contents just there.
  pub dump_sections-Announced :
      (ed : Editor) (n : Node) (content props : Bool)
      → (dump_sections ed n content props).0 ≡ success
      → Announced ed n content props
  unfolding dump_sections
  dump_sections-Announced ed n false props ok =
      Announced-of ed n false props none refl (λ e. cc) (simp (append_assoc, append-nil) refl)
  dump_sections-Announced ed n true props ok =
      elim (Option-cases (read_file ed.fs (content_file ed.opts n))) [
        | inl e ↦ let bad = dump_sections-none ed n props e in absurd (ground (arith, bad, ok))
        | inr (d, e) ↦
            Announced-of ed n true props (some d) refl (λ t. sym e)
              (dump_sections-out ed n props d e)
      ]
