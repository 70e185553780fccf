-- ===== src/Dump/Records/Announced.antt =====
-- The lengths that the records of the dump file announce, and what a reader gets from the block
-- that they announce.
use rsvndump.Base.{
  ℕ, zero, suc, ◌+◌, ◌<◌, ◌≤◌, Text, ℤ, ◌≡◌, refl, ap, sym, ◌∙◌, false, ltb, starts_with,
  if◌then◌else◌, Option, none, some, List, [], ◌∷◌, ◌++◌, length, length-append, append_assoc,
  append-nil, codes, decimal, put_digits, ◌>>=◌, arith,
}
use rsvndump.Apr.{AprHash}
use rsvndump.Svn.{DumpNames}
use rsvndump.Log.{LogRevision}
use rsvndump.Property.Format.{line, format_property, property_strlen, property_dump}
use rsvndump.Property.Format.Reading.{
  read_property, read_property-property_dump, property_strlen-property_dump,
}
use rsvndump.Dump.Records.{
  props_end, props_end_len, header_lines, strlen_if, dump_if, props_length, revision_properties,
  dump_revision_header, padding_message, dump_padding_revision,
}

-- The properties of a block, in their order, by the description of the format; nothing but the end
-- mark ends a block that is not empty.
abbrev pub Properties : Type 0
Properties = List (Text × Text)

unfoldable pub read_more : ℕ → Text → Option Properties
read_more zero s = none
read_more (suc fuel) s =
    if starts_with props_end s
    then some []
    else read_property s >>= λ r. read_more fuel r.2 >>= λ l. some ((r.0, r.1) ∷ l)

unfoldable pub read_block : Text → Option Properties
unfolding read_more
read_block [] = some []
read_block (c ∷ s) = read_more (suc (length s)) (c ∷ s)

-- A property that is there, in front of others.
abbrev pub keep : Text → Option Text → Properties → Properties
keep key none l = l
keep key (some v) l = (key, v) ∷ l

unfoldable pub dumps : Properties → Text
dumps [] = []
dumps ((k, v) ∷ l) = property_dump (some k) (some v) ++ dumps l

block : Properties → Text
unfolding dumps
block [] = []
block (p ∷ l) = dumps (p ∷ l) ++ props_end

dumps-keep :
    (key : Text) (o : Option Text) (l : Properties)
    → dump_if key o ++ dumps l ≡ dumps (keep key o l)
unfolding dump_if dumps
dumps-keep key none l = refl
dumps-keep key (some v) l = refl

length-keep :
    (key : Text) (o : Option Text) (l : Properties)
    → strlen_if key o + length (dumps l) ≡ length (dumps (keep key o l))
unfolding strlen_if dumps
length-keep key none l = omega arith
length-keep key (some v) l = omega (
  arith,
  length-append (property_dump (some key) (some v)) (dumps l),
  (property_strlen-property_dump (some key) (some v)).0,
)

-- A property takes up room, and does not start like the end mark.
length-property_dump : (k v : Text) → 1 ≤ length (property_dump (some k) (some v))
unfolding property_dump
length-property_dump k v = omega arith

property_dump-starts :
    (k v s : Text) → starts_with props_end (property_dump (some k) (some v) ++ s) ≡ false
unfolding property_dump starts_with
property_dump-starts k v s = refl

read_more-dumps :
    (fuel : ℕ) (l : Properties)
    → length (dumps l) < fuel
    → read_more fuel (dumps l ++ props_end) ≡ some l
unfolding read_more dumps
read_more-dumps zero l h = absurd (omega arith)
read_more-dumps (suc fuel) [] h = unfold starts_with in refl
read_more-dumps (suc fuel) ((k, v) ∷ l) h =
    let p = property_dump (some k) (some v) in
    let rest = dumps l ++ props_end in
    let enough : length (dumps l) < fuel =
      omega (arith, length-append p (dumps l), length-property_dump k v, h) in
    rw
      (
        append_assoc p (dumps l) props_end,
        property_dump-starts k v rest,
        read_property-property_dump k (some v) rest,
        read_more-dumps fuel l enough,
      )
      refl

read_block-block : (l : Properties) → read_block (block l) ≡ some l
unfolding read_block block
read_block-block [] = refl
read_block-block ((k, v) ∷ l) =
    unfold dumps property_dump in
    read_more-dumps (length (dumps ((k, v) ∷ l) ++ props_end)) ((k, v) ∷ l)
      (omega (arith, length-append (dumps ((k, v) ∷ l)) props_end))

-- A block with its end mark, even where no property is in it.
pub read_block-dumps : (l : Properties) → read_block (dumps l ++ props_end) ≡ some l
unfolding dumps
read_block-dumps [] = unfold read_block read_more starts_with in refl
read_block-dumps ((k, v) ∷ l) = unfold block in read_block-block ((k, v) ∷ l)

-- How long a block is, and that it is not empty where there is a property.
announced : ℕ → ℕ
announced n = if ltb 0 n then n + props_end_len else n

pub length-dumps : (k v : Text) (l : Properties) → 1 ≤ length (dumps ((k, v) ∷ l))
unfolding dumps
length-dumps k v l =
    omega
      (arith, length-append (property_dump (some k) (some v)) (dumps l), length-property_dump k v)

length-block : (l : Properties) → length (block l) ≡ announced (length (dumps l))
unfolding block announced
length-block [] = unfold dumps in refl
length-block ((k, v) ∷ l) =
    ground (arith, length-append (dumps ((k, v) ∷ l)) props_end, length-dumps k v l)

line-block :
    (l : Properties)
    → (if ltb 0 (length (block l)) then dumps l ++ line props_end else [])
      ≡ (if ltb 0 (length (block l)) then line (block l) else [])
unfolding block
line-block [] = refl
line-block ((k, v) ∷ l) = rw (append_assoc (dumps ((k, v) ∷ l)) props_end (b'\n' ∷ [])) refl

module _ ⦃apr : AprHash⦄ where
  -- The properties of a revision that are there, in the order of their printing.
  abbrev pub present : LogRevision → Properties
  present r =
      keep (codes "svn:log") r.message
        (keep (codes "svn:author") r.author (keep (codes "svn:date") r.date []))

  revision_properties-present : (r : LogRevision) → revision_properties r ≡ dumps (present r)
  unfolding revision_properties
  revision_properties-present r =
      let date = keep (codes "svn:date") r.date [] in
      let author = keep (codes "svn:author") r.author date in
      let e1 : dump_if (codes "svn:date") r.date ≡ dumps date =
        sym (append-nil (dump_if (codes "svn:date") r.date))
        ∙ unfold dumps in dumps-keep (codes "svn:date") r.date [] in
      rw
        (
          e1,
          dumps-keep (codes "svn:author") r.author date,
          dumps-keep (codes "svn:log") r.message author,
        )
        refl

  props_length-present : (r : LogRevision) → props_length r ≡ length (block (present r))
  unfolding props_length announced
  props_length-present r =
      let date = keep (codes "svn:date") r.date [] in
      let author = keep (codes "svn:author") r.author date in
      let none_left : length (dumps []) ≡ 0 = unfold dumps in refl in
      let n : length (dumps (present r))
          ≡ strlen_if (codes "svn:log") r.message
            + (strlen_if (codes "svn:author") r.author + strlen_if (codes "svn:date") r.date) =
        omega (
          arith,
          none_left,
          length-keep (codes "svn:date") r.date [],
          length-keep (codes "svn:author") r.author date,
          length-keep (codes "svn:log") r.message author,
        ) in
      rw (length-block (present r), n) refl

module _ ⦃names : DumpNames⦄ ⦃apr : AprHash⦄ where
  -- dump_revision_header() prints its header lines and then, unless it is empty, a block of exactly
  -- the announced length with a line feed. A reader of the block gets the message, the author and
  -- the date, in this order, as far as the revision has them.
  pub dump_revision_header-present :
      (revision : LogRevision) (local_revnum : ℤ)
      → (b : Text) × (dump_revision_header revision local_revnum
          ≡ header_lines local_revnum (length b) ++ (if ltb 0 (length b) then line b else []))
        × (read_block b ≡ some (present revision))
  unfolding dump_revision_header
  dump_revision_header-present revision local_revnum = (
    block (present revision),
    rw (revision_properties-present revision, props_length-present revision)
        (ap (λ t. header_lines local_revnum (length (block (present revision))) ++ t)
          (line-block (present revision))),
    read_block-block (present revision),
  )

  -- dump_padding_revision() prints a revision that has only a message.
  pub dump_padding_revision-dump_revision_header :
      (r : LogRevision) (rev : ℤ)
      → dump_padding_revision rev
        ≡ dump_revision_header
            (record r { message = some padding_message; author = none; date = none })
            rev
  unfolding dump_padding_revision dump_revision_header props_length strlen_if revision_properties
      dump_if property_strlen format_property decimal put_digits property_dump
  dump_padding_revision-dump_revision_header r rev = refl
