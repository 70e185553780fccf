-- ===== src/Property/Format/Reading.antt =====
-- The announced lengths are those of what is printed, and a reader of the dump format gets back
-- what was printed.
use rsvndump.Base.{
  ℕ, Text, starts_with, starts_with-append, ◌≡◌, refl, ap, Option, none, some, [], ◌∷◌, ◌++◌,
  length, append_assoc, take, drop, take-append, drop-append, codes, decimal, scan, scan-decimal,
  put_digits, ◌>>=◌, if◌then◌else◌,
}
use rsvndump.Property.Format.{
  format_property, property_strlen, property_del_strlen, dump_value, property_dump,
  property_del_dump,
}

-- A reader by the description of the format: a letter and the length of a text on a line, then as
-- many bytes, then a line feed.
abbrev pub expect : Text → Text → Option Text
expect p s = if starts_with p s then some (drop (length p) s) else none

abbrev pub read_counted : ℕ × Text → Option (Text × Text)
read_counted (n, s) = expect (codes "\n") (drop n s) >>= λ rest. some (take n s, rest)

unfoldable pub read_field : Text → Text → Option (Text × Text)
read_field tag s = expect tag s >>= λ t. scan t 0 >>= read_counted

abbrev pub read_value : Text × Text → Option (Text × Text × Text)
read_value (key, t) = read_field (codes "V ") t >>= λ r. some (key, r.0, r.1)

unfoldable pub read_property : Text → Option (Text × Text × Text)
read_property s = read_field (codes "K ") s >>= read_value

-- A missing value counts as the empty one.
abbrev pub value_or_empty : Option Text → Text
value_or_empty none = []
value_or_empty (some v) = v

expect-append : (p s : Text) → expect p (p ++ s) ≡ some s
expect-append p s = rw (starts_with-append p s, drop-append p s) refl

read_counted-append : (v s : Text) → read_counted (length v, v ++ b'\n' ∷ s) ≡ some (v, s)
read_counted-append v s =
    rw (drop-append v (b'\n' ∷ s), take-append v (b'\n' ∷ s), expect-append (codes "\n") s) refl

pub read_field-append :
    (tag v s : Text)
    → read_field tag (tag ++ (decimal (length v) ++ b'\n' ∷ (v ++ b'\n' ∷ s))) ≡ some (v, s)
unfolding read_field
read_field-append tag v s =
    rw
      (
        expect-append tag (decimal (length v) ++ b'\n' ∷ (v ++ b'\n' ∷ s)),
        scan-decimal (length v) (v ++ b'\n' ∷ s),
        read_counted-append v s,
      )
      refl

-- What is printed of a property, in one piece, with what follows it.
dump_value-field :
    (value : Option Text) (s : Text)
    → dump_value value ++ s
      ≡ codes "V "
        ++ (decimal (length (value_or_empty value)) ++ b'\n' ∷ (value_or_empty value ++ b'\n' ∷ s))
unfolding dump_value
dump_value-field none s = unfold decimal put_digits in refl
dump_value-field (some v) s = simp (append_assoc) refl

property_dump-fields :
    (key : Text) (value : Option Text) (s : Text)
    → property_dump (some key) value ++ s
      ≡ codes "K " ++ (decimal (length key) ++ b'\n' ∷ (key ++ b'\n' ∷ (dump_value value ++ s)))
unfolding property_dump
property_dump-fields key value s = simp (append_assoc) refl

-- A reader of the dump format, at what property_dump() prints and whatever follows, gets the key,
-- the value (empty where it is missing) and what follows.
pub read_property-property_dump :
    (key : Text) (value : Option Text) (s : Text)
    → read_property (property_dump (some key) value ++ s) ≡ some (key, value_or_empty value, s)
unfolding read_property
read_property-property_dump key value s =
    rw
      (
        property_dump-fields key value s,
        read_field-append (codes "K ") key (dump_value value ++ s),
        dump_value-field value s,
        read_field-append (codes "V ") (value_or_empty value) s,
      )
      refl

format_property-dump :
    (key : Text) (value : Option Text) → format_property key value ≡ property_dump (some key) value
unfolding format_property property_dump dump_value
format_property-dump key none = simp (append_assoc) refl
format_property-dump key (some v) = simp (append_assoc) refl

format_deletion-dump :
    (key : Text)
    → codes "D " ++ (decimal (length key) ++ (codes "\n" ++ (key ++ codes "\n")))
      ≡ property_del_dump (some key)
unfolding property_del_dump
format_deletion-dump key = simp (append_assoc) refl

-- property_strlen() and property_del_strlen() are the numbers of bytes that property_dump() and
-- property_del_dump() print, for every key and value and for NULL.
pub property_strlen-property_dump :
    (key value : Option Text)
    → (property_strlen key value ≡ length (property_dump key value))
      × (property_del_strlen key ≡ length (property_del_dump key))
unfolding property_strlen property_del_strlen property_del_dump property_dump
property_strlen-property_dump none value = (refl, refl)
property_strlen-property_dump (some key) value =
    (ap length (format_property-dump key value), ap length (format_deletion-dump key))
