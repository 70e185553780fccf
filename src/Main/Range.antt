-- ===== src/Main/Range.antt =====
-- parse_revnum() of src/main.c. A number has no bound here; the caller's two revision numbers may be
-- the same variable.
pub mod Reading
pub mod Printed
use rsvndump.Base.{
  ℕ, zero, suc, ◌+◌, ◌*◌, ◌-◌, Text, text_eq, ℤ, pos, negsuc, decz, lez, Bool, true, false, not,
  ◌&&◌, ◌||◌, ltb, leb, ◌==◌, if◌then◌else◌, Option, none, some, List, [], ◌∷◌, codes, ◌>>=◌,
  Status, success, failure,
}

-- isspace(c), isdigit(c)
unfoldable pub is_space : ℕ → Bool
is_space c = (c == 32) || (leb 9 c && leb c 13)

unfoldable pub is_digit : ℕ → Bool
is_digit c = leb b'0' c && leb c b'9'

-- sscanf(): a directive gives what it reads and what follows it; `none` is a failed match.
unfoldable pub skip_space : Text → Text
unfolding is_space
skip_space [] = []
skip_space (c ∷ s) = let rest = skip_space s in if is_space c then rest else c ∷ s

unfoldable pub take_word : ℕ → Text → Text × Text
unfolding is_space
take_word zero s = ([], s)
take_word (suc n) [] = ([], [])
take_word (suc n) (c ∷ s) =
    let (word, rest) = take_word n s in if is_space c then ([], c ∷ s) else (c ∷ word, rest)

unfoldable pub some_word : Text × Text → Option (Text × Text)
some_word ([], rest) = none
some_word (c ∷ word, rest) = some (c ∷ word, rest)

-- "%4s"
unfoldable pub scan_word : Text → Option (Text × Text)
unfolding skip_space take_word some_word
scan_word s = some_word (take_word 4 (skip_space s))

-- the digits of a number, of which `n` is read
unfoldable pub digits : ℕ → Text → ℕ × Text
unfolding is_digit
digits n [] = (n, [])
digits n (c ∷ s) =
    let rest = digits (n * 10 + (c - b'0')) s in if is_digit c then rest else (n, c ∷ s)

unfoldable pub scan_digits : Text → Option (ℕ × Text)
unfolding digits is_digit
scan_digits [] = none
scan_digits (c ∷ s) = if is_digit c then some (digits 0 (c ∷ s)) else none

unfoldable pub negated : ℕ → ℤ
negated zero = pos 0
negated (suc n) = negsuc n

unfoldable pub scan_signed : Text → Option (ℤ × Text)
unfolding scan_digits negated
scan_signed [] = none
scan_signed (c ∷ s) =
    if c == b'-'
    then (scan_digits s >>= λ r. some (negated r.0, r.1))
    else if c == b'+'
    then (scan_digits s >>= λ r. some (pos r.0, r.1))
    else (scan_digits (c ∷ s) >>= λ r. some (pos r.0, r.1))

-- "%ld"
unfoldable pub scan_long : Text → Option (ℤ × Text)
unfolding scan_signed skip_space
scan_long s = scan_signed (skip_space s)

-- ":"
unfoldable pub scan_colon : Text → Option Text
scan_colon [] = none
scan_colon (c ∷ s) = if c == b':' then some s else none

-- A "%c" after the last directive that finds no character.
unfoldable pub at_end : Text → Bool
at_end [] = true
at_end (c ∷ s) = false

-- !strcasecmp(word, "HEAD")
unfoldable pub lower : Text → Text
lower [] = []
lower (c ∷ s) = (if leb b'A' c && leb c b'Z' then c + 32 else c) ∷ lower s

unfoldable pub is_head : Text → Bool
unfolding lower
is_head word = text_eq (lower word) (codes "head")

-- "%4s%c" that reads the word HEAD and nothing after it
unfoldable pub ends_in_head : Text → Bool
unfolding scan_word is_head at_end
ends_in_head s = elim (scan_word s) [ none ↦ false | some (w, rest) ↦ is_head w && at_end rest ]

-- where the caller has the revision numbers
pub record Revisions : Type 0 where
  pub start : ℤ
  pub end : ℤ

pub data Cell : Type 0 where
  start_cell end_cell : Cell

unfoldable pub read_cell : Cell → Revisions → ℤ
read_cell start_cell r = r.start
read_cell end_cell r = r.end

unfoldable pub write_cell : Cell → ℤ → Revisions → Revisions
write_cell start_cell n r = record r { start = n }
write_cell end_cell n r = record r { end = n }

-- What a "%ld" assigns, where it matches.
unfoldable pub assign : Cell → Option (ℤ × Text) → Revisions → Revisions
unfolding write_cell
assign p none r = r
assign p (some (n, rest)) r = write_cell p n r

abbrev pub negative : ℤ → Bool
negative n = not (lez (pos 0) n)

-- A scheme that does not match leaves it to the next, with what it has assigned.
abbrev pub Attempt : Type 0
Attempt = Option Status × Revisions

unfoldable pub or_else : Attempt → (Revisions → Status × Revisions) → Status × Revisions
or_else (none, r) next = next r
or_else (some s, r) next = (s, r)

-- "%4s:%4s%c"
unfoldable pub two_heads : Text → Bool
unfolding scan_word scan_colon ends_in_head is_head
two_heads str = elim (scan_word str) [
  | none ↦ false
  | some (w, rest) ↦
      is_head w && (elim (scan_colon rest) [ none ↦ false | some s ↦ ends_in_head s ])
]

unfoldable pub set_heads : Cell → Cell → Revisions → Revisions
unfolding write_cell
set_heads p q r = write_cell q (negsuc 0) (write_cell p (negsuc 0) r)

-- after a number: whether ":" and HEAD follow, and what follows ":"
unfoldable pub after_colon : Option (ℤ × Text) → Option Text
unfolding scan_colon
after_colon none = none
after_colon (some (n, rest)) = scan_colon rest

unfoldable pub then_head : Option Text → Bool
unfolding ends_in_head
then_head none = false
then_head (some s) = ends_in_head s

unfoldable pub then_number : Option Text → Option (ℤ × Text)
unfolding scan_long
then_number none = none
then_number (some s) = scan_long s

unfoldable pub then_end : Option (ℤ × Text) → Bool
unfolding at_end
then_end none = false
then_end (some (n, rest)) = at_end rest

-- "%ld:%4s%c"
unfoldable pub number_head : Text → Cell → Cell → Revisions → Attempt
unfolding scan_long assign read_cell write_cell after_colon then_head
number_head str p q r =
    let r' = assign p (scan_long str) r in
    if then_head (after_colon (scan_long str))
    then (if negative (read_cell p r')
        then (some failure, r')
        else (some success, write_cell q (negsuc 0) r'))
    else (none, r')

-- "%ld:%ld%c"
unfoldable pub two_numbers : Text → Cell → Cell → Revisions → Attempt
unfolding scan_long assign read_cell after_colon then_number then_end
two_numbers str p q r =
    let second = then_number (after_colon (scan_long str)) in
    let r' = assign q second (assign p (scan_long str) r) in
    let start = read_cell p r' in
    let end = read_cell q r' in
    if then_end second
    then (
      some (if negative start || (negative end || not (lez start end)) then failure else success),
      r',
    )
    else (none, r')

-- "%ld%c"
unfoldable pub one_number : Text → Cell → Cell → Revisions → Attempt
unfolding scan_long assign read_cell write_cell then_end
one_number str p q r =
    let r' = assign q (scan_long str) r in
    if then_end (scan_long str)
    then (if not (lez (pos 1) (read_cell q r'))
        then (some failure, r')
        else (some success, write_cell p (decz (read_cell q r')) r'))
    else (none, r')

-- "%4s%c"
unfoldable pub one_head : Text → Cell → Cell → Revisions → Status × Revisions
unfolding ends_in_head set_heads
one_head str p q r = if ends_in_head str then (success, set_heads p q r) else (failure, r)

-- `p` is `start`, and `q` is `end`.
unfoldable pub parse_revnum : Text → Cell → Cell → Revisions → Status × Revisions
unfolding two_heads set_heads number_head two_numbers one_number one_head or_else
parse_revnum str p q r =
    if two_heads str
    then (success, set_heads p q r)
    else or_else (number_head str p q r) λ r1.
      or_else (two_numbers str p q r1) λ r2. or_else (one_number str p q r2) (one_head str p q)
