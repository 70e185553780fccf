-- ===== src/Main/Range/Reading.antt =====
-- What the directives of parse_revnum() of src/main.c read of a text that begins with a number.
use native.Mathlib.Decide.{dec_lt}
use rsvndump.Base.{
  ℕ, zero, suc, ◌+◌, ◌*◌, ◌-◌, ◌/◌, ◌%◌, ◌≤◌, ◌<◌, Text, pos, ◌≡◌, refl, ap, ◌∙◌, true, false, ◌==◌,
  some, [], ◌∷◌, ◌++◌, decimal, put_digits, put_digits-append, put_digits_last, put_digits_more,
  text_eq, arith,
}
use rsvndump.Main.Range.{
  is_space, is_digit, skip_space, take_word, some_word, scan_word, digits, scan_digits, scan_signed,
  scan_long, lower, is_head, ends_in_head, two_heads,
}

abbrev IsDigit : ℕ → Type 0
IsDigit c = (b'0' ≤ c) × (c ≤ b'9')

-- The text begins with a digit.
pub record Numeric (s : Text) : Type 0 where
  pub first : ℕ
  pub rest : Text
  pub split : s ≡ first ∷ rest
  pub digit : IsDigit first

-- The text does not begin with a digit.
abbrev pub Unnumbered : Text → Type 0
Unnumbered [] = Unit
Unnumbered (c ∷ s) = is_digit c ≡ false

Numeric-cons : (d : ℕ) (out : Text) → d < 10 → Numeric ((b'0' + d) ∷ out)
Numeric-cons d out h = record {
  first = b'0' + d;
  rest = out;
  split = refl;
  digit = (omega arith, omega (arith, h));
}

Numeric-put_digits : (fuel n : ℕ) (out : Text) → Numeric out → Numeric (put_digits fuel n out)
Numeric-put_digits zero n out h = unfold put_digits in h
Numeric-put_digits (suc fuel) n out h = elim (dec_lt n 10) [
  | yes small ↦ rw (put_digits_last fuel n out small) (Numeric-cons n out small)
  | no big ↦
      rw (put_digits_more fuel n out (omega arith))
        (Numeric-put_digits fuel (n / 10) _ (Numeric-cons (n % 10) out (omega arith)))
]

Numeric-printed : (fuel n : ℕ) (s : Text) → Numeric (put_digits (suc fuel) n s)
Numeric-printed fuel n s = elim (dec_lt n 10) [
  | yes small ↦ rw (put_digits_last fuel n s small) (Numeric-cons n s small)
  | no big ↦
      rw (put_digits_more fuel n s (omega arith))
        (Numeric-put_digits fuel (n / 10) _ (Numeric-cons (n % 10) s (omega arith)))
]

digits-digit :
    (d m : ℕ) (out : Text) → d < 10 → digits m ((b'0' + d) ∷ out) ≡ digits (m * 10 + d) out
unfolding digits is_digit
digits-digit d m out h =
    let value : m * 10 + (b'0' + d - b'0') ≡ m * 10 + d = omega arith in ground arith

digits-put_digits :
    (fuel n : ℕ) (out : Text) → n < fuel → digits 0 (put_digits fuel n out) ≡ digits n out
digits-put_digits zero n out h = absurd (omega arith)
digits-put_digits (suc fuel) n out h = elim (dec_lt n 10) [
  | yes small ↦
      let value : 0 * 10 + n ≡ n = omega arith in
      rw (put_digits_last fuel n out small)
        (digits-digit n 0 out small ∙ ap (λ m. digits m out) value)
  | no big ↦
      let value : n / 10 * 10 + n % 10 ≡ n = omega arith in
      rw (put_digits_more fuel n out (omega arith)) (
        digits-put_digits fuel (n / 10) ((b'0' + n % 10) ∷ out) (omega arith)
        ∙ digits-digit (n % 10) (n / 10) out (omega arith)
        ∙ ap (λ m. digits m out) value)
]

digits-Unnumbered : (n : ℕ) (s : Text) → Unnumbered s → digits n s ≡ (n, s)
unfolding digits
digits-Unnumbered n [] h = refl
digits-Unnumbered n (c ∷ s) h = rw h refl

-- "%ld" on a text that begins with a digit
scan_long-Numeric : (s : Text) → Numeric s → scan_long s ≡ some (pos (digits 0 s).0, (digits 0 s).1)
unfolding scan_long
scan_long-Numeric s h =
    let start : is_space h.first ≡ false =
      unfold is_space in ground (arith, h.digit.0, h.digit.1) in
    let numeric : is_digit h.first ≡ true =
      unfold is_digit in ground (arith, h.digit.0, h.digit.1) in
    let minus : (h.first == b'-') ≡ false = ground (arith, h.digit.0) in
    let plus : (h.first == b'+') ≡ false = ground (arith, h.digit.0) in
    rw (h.split)
      (unfold skip_space scan_signed scan_digits in rw (start, minus, plus, numeric) refl)

put_digits-decimal : (n : ℕ) (s : Text) → decimal n ++ s ≡ put_digits (suc n) n s
unfolding decimal
put_digits-decimal n s =
    let more : n + 1 ≡ suc n = omega arith in
    put_digits-append (n + 1) n [] s ∙ ap (λ k. put_digits k n s) more

pub Numeric-decimal : (n : ℕ) (s : Text) → Numeric (decimal n ++ s)
Numeric-decimal n s = rw (put_digits-decimal n s) (Numeric-printed n n s)

-- "%ld" on a printed number
pub scan_long-decimal :
    (n : ℕ) (s : Text) → Unnumbered s → scan_long (decimal n ++ s) ≡ some (pos n, s)
scan_long-decimal n s h =
    let read : digits 0 (put_digits (suc n) n s) ≡ (n, s) =
      digits-put_digits (suc n) n s (omega arith) ∙ digits-Unnumbered n s h in
    rw (put_digits-decimal n s) (
      scan_long-Numeric (put_digits (suc n) n s) (Numeric-printed n n s)
      ∙ ap (λ (x : ℕ × Text). some (pos x.0, x.1)) read)

-- A word that begins with a digit is not HEAD.
is_head-digit : (c : ℕ) (w : Text) → IsDigit c → is_head (c ∷ w) ≡ false
unfolding is_head lower text_eq
is_head-digit c w h = ground (arith, h.0, h.1)

-- "%4s" on a text that begins with a digit
scan_word-Numeric :
    (s : Text) (h : Numeric s)
    → (w : Text) × (rest : Text) × (scan_word s ≡ some (h.first ∷ w, rest))
unfolding scan_word
scan_word-Numeric s h =
    let start : is_space h.first ≡ false =
      unfold is_space in ground (arith, h.digit.0, h.digit.1) in
    let (w, rest) = take_word 3 h.rest in
    (
      w,
      rest,
      ap (λ t. some_word (take_word 4 (skip_space t))) h.split
          ∙ unfold skip_space in rw start (unfold take_word in rw start (unfold some_word in refl)),
    )

pub two_heads-Numeric : (s : Text) → Numeric s → two_heads s ≡ false
unfolding two_heads
two_heads-Numeric s h =
    let (w, rest, e) = scan_word-Numeric s h in
    rw (e, two_heads) (rw (is_head-digit h.first w h.digit) refl)

pub ends_in_head-Numeric : (s : Text) → Numeric s → ends_in_head s ≡ false
unfolding ends_in_head
ends_in_head-Numeric s h =
    let (w, rest, e) = scan_word-Numeric s h in
    rw (e, ends_in_head) (rw (is_head-digit h.first w h.digit) refl)
