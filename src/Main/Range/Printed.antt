-- ===== src/Main/Range/Printed.antt =====
-- What parse_revnum() of src/main.c makes of printed numbers.
use rsvndump.Base.{
  ℕ, suc, Text, pos, negsuc, lez, decz, not, ◌≡◌, refl, ap, sym, ◌∙◌, subst, true, leb,
  if◌then◌else◌, none, some, [], ◌∷◌, ◌++◌, codes, decimal, append-nil, text_eq, Status, success,
  failure, arith,
}
use rsvndump.Main.Range.{
  is_space, is_digit, skip_space, take_word, some_word, scan_word, scan_long, scan_colon, at_end,
  lower, is_head, ends_in_head, Revisions, negative, Cell, start_cell, end_cell, read_cell,
  write_cell, assign, or_else, after_colon, then_head, then_number, then_end, number_head,
  two_numbers, one_number, one_head, parse_revnum,
}
use rsvndump.Main.Range.Reading.{
  Numeric, Unnumbered, Numeric-decimal, scan_long-decimal, two_heads-Numeric, ends_in_head-Numeric,
}

-- What follows the number in a range.
scan_colon-cons : (s : Text) → scan_colon (b':' ∷ s) ≡ some s
unfolding scan_colon
scan_colon-cons s = refl

head_ends : ends_in_head (codes "HEAD") ≡ true
unfolding ends_in_head scan_word skip_space take_word some_word is_head lower at_end is_space
    text_eq
head_ends = refl

colon-Unnumbered : (s : Text) → Unnumbered (b':' ∷ s)
unfolding is_digit
colon-Unnumbered s = refl

decimal-append-nil : (n : ℕ) → scan_long (decimal n) ≡ some (pos n, [])
decimal-append-nil n = ap scan_long (sym (append-nil (decimal n))) ∙ scan_long-decimal n [] tt

alone : (n : ℕ) → Numeric (decimal n)
alone n = subst Numeric (append-nil (decimal n)) (Numeric-decimal n [])

-- The schemes on a single number; with those before it, only assignments are left.
one_alone :
    (n : ℕ) (p q : Cell) (r : Revisions)
    → parse_revnum (decimal n) p q r
      ≡ or_else
          (one_number (decimal n) p q (write_cell p (pos n) (write_cell p (pos n) r)))
          (one_head (decimal n) p q)
unfolding parse_revnum number_head two_numbers assign
one_alone n p q r =
    rw (two_heads-Numeric (decimal n) (alone n), decimal-append-nil n)
      (unfold after_colon then_head then_number then_end scan_colon or_else in refl)

one_number-alone :
    (n : ℕ) (p q : Cell) (r : Revisions)
    → one_number (decimal n) p q r ≡ (
        if not (lez (pos 1) (read_cell q (write_cell q (pos n) r)))
        then (some failure, write_cell q (pos n) r)
        else (
          some success,
          write_cell p (decz (read_cell q (write_cell q (pos n) r))) (write_cell q (pos n) r),
        ))
unfolding one_number assign
one_number-alone n p q r = rw (decimal-append-nil n) (unfold then_end at_end in refl)

-- "a:" and something
number_head-range :
    (a : ℕ) (s : Text) (p q : Cell) (r : Revisions)
    → number_head (decimal a ++ (b':' ∷ s)) p q r ≡ (
        if ends_in_head s
        then (if negative (read_cell p (write_cell p (pos a) r))
            then (some failure, write_cell p (pos a) r)
            else (some success, write_cell q (negsuc 0) (write_cell p (pos a) r)))
        else (none, write_cell p (pos a) r))
unfolding number_head assign
number_head-range a s p q r =
    rw (scan_long-decimal a (b':' ∷ s) (colon-Unnumbered s))
      (unfold after_colon scan_colon then_head in refl)

two_numbers-range :
    (a b : ℕ) (r : Revisions)
    → two_numbers (decimal a ++ (b':' ∷ decimal b)) start_cell end_cell r
      ≡ (some (if leb a b then success else failure), record { start = pos a; end = pos b })
unfolding two_numbers assign
two_numbers-range a b r =
    rw (scan_long-decimal a (b':' ∷ decimal b) (colon-Unnumbered (decimal b))) (
      unfold after_colon scan_colon then_number in
      rw (decimal-append-nil b) (unfold then_end at_end read_cell write_cell in ground arith))

range :
    (a b : ℕ) (r : Revisions)
    → parse_revnum (decimal a ++ (b':' ∷ decimal b)) start_cell end_cell r
      ≡ (if leb a b then success else failure, record { start = pos a; end = pos b })
unfolding parse_revnum
range a b r =
    rw
      (
        two_heads-Numeric (decimal a ++ (b':' ∷ decimal b)) (Numeric-decimal a (b':' ∷ decimal b)),
        number_head-range a (decimal b) start_cell end_cell r,
        ends_in_head-Numeric (decimal b) (alone b),
        two_numbers-range a b,
      )
      (unfold or_else in refl)

to_head :
    (a : ℕ) (r : Revisions)
    → parse_revnum (decimal a ++ (b':' ∷ codes "HEAD")) start_cell end_cell r
      ≡ (success, record { start = pos a; end = negsuc 0 })
unfolding parse_revnum
to_head a r =
    rw
      (
        two_heads-Numeric (decimal a ++ (b':' ∷ codes "HEAD"))
            (Numeric-decimal a (b':' ∷ codes "HEAD")),
        number_head-range a (codes "HEAD") start_cell end_cell r,
        head_ends,
      )
      (unfold or_else read_cell write_cell in ground arith)

-- A printed number alone is taken as the end, which has to be 1 or more; the start is the revision
-- before it. If both are the same variable, that is what is left in it. "a:b" is the range, which
-- has to be in order, and in "a:HEAD" the end is -1.
pub parse_revnum-decimal :
    (a b : ℕ) (r : Revisions)
    → (parse_revnum (decimal (suc b)) start_cell end_cell r
        ≡ (success, record { start = pos b; end = pos (suc b) }))
      × (parse_revnum (decimal (suc b)) end_cell end_cell r ≡ (success, record r { end = pos b }))
      × ((parse_revnum (decimal 0) start_cell end_cell r).0 ≡ failure)
      × (parse_revnum (decimal a ++ (b':' ∷ decimal b)) start_cell end_cell r
          ≡ (if leb a b then success else failure, record { start = pos a; end = pos b }))
      × (parse_revnum (decimal a ++ (b':' ∷ codes "HEAD")) start_cell end_cell r
          ≡ (success, record { start = pos a; end = negsuc 0 }))
parse_revnum-decimal a b r = (
  one_alone (suc b) start_cell end_cell r
      ∙ rw (one_number-alone (suc b) start_cell end_cell _)
          (unfold read_cell write_cell or_else in ground arith),
  one_alone (suc b) end_cell end_cell r
      ∙ rw (one_number-alone (suc b) end_cell end_cell _)
          (unfold read_cell write_cell or_else in ground arith),
  ap (λ (x : Status × Revisions). x.0) (one_alone 0 start_cell end_cell r)
      ∙ rw (one_number-alone 0 start_cell end_cell _) (unfold read_cell write_cell or_else in refl),
  range a b r,
  to_head a r,
)
