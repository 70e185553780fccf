-- ===== src/Base/Decimal.antt =====
-- Numbers in decimal, as printf() prints them by "%lu", "%d" and "%ld".
use Prim.Native.Nat.{ℕ, zero, suc, ◌+◌, ◌*◌, ◌-◌, ◌/◌, ◌%◌, ◌≤◌, ◌<◌}
use mathlib.Core.Path.{◌≡◌, refl, ap, ◌∙◌}
use mathlib.Core.Bool.{◌||◌}
use mathlib.Core.List.{[], ◌∷◌, ◌++◌}
use mathlib.Core.Option.{Option, none, some}
use native.Mathlib.Omega.{arith}
use native.Mathlib.Decide.{dec_lt}
use rsvndump.Base.Cond.{ltb, ◌==◌, if◌then◌else◌}
use rsvndump.Base.Str.{Text}
use rsvndump.Base.Int.{ℤ, pos, negsuc}

-- The digits of the number in front of a text. A number has fewer digits than the rounds it is
-- given by `decimal`.
unfoldable pub put_digits : ℕ → ℕ → Text → Text
put_digits zero n out = out
put_digits (suc fuel) n out =
    let more = put_digits fuel (n / 10) ((b'0' + n % 10) ∷ out) in
    if ltb n 10 then (b'0' + n) ∷ out else more

unfoldable pub decimal : ℕ → Text
unfolding put_digits
decimal n = put_digits (n + 1) n []

unfoldable pub print_int : ℤ → Text
print_int (pos n) = decimal n
print_int (negsuc n) = b'-' ∷ decimal (n + 1)

-- A number and the line feed after it, read; the second argument is what was read before.
unfoldable pub scan : Text → ℕ → Option (ℕ × Text)
scan [] n = none
scan (c ∷ s) n =
    let rest = scan s (n * 10 + (c - b'0')) in
    if c == b'\n' then some (n, s) else if ltb c b'0' || ltb b'9' c then none else rest

pub put_digits-append :
    (fuel n : ℕ) (out s : Text) → put_digits fuel n out ++ s ≡ put_digits fuel n (out ++ s)
unfolding put_digits
put_digits-append zero n out s = refl
put_digits-append (suc fuel) n out s =
    ground (arith, put_digits-append fuel (n / 10) ((b'0' + n % 10) ∷ out) s)

scan-digit : (d m : ℕ) (out : Text) → d < 10 → scan ((b'0' + d) ∷ out) m ≡ scan out (m * 10 + d)
unfolding scan
scan-digit d m out h =
    let value : m * 10 + (b'0' + d - b'0') ≡ m * 10 + d = omega arith in ground arith

pub put_digits_last :
    (fuel n : ℕ) (out : Text) → n < 10 → put_digits (suc fuel) n out ≡ (b'0' + n) ∷ out
unfolding put_digits
put_digits_last fuel n out h = ground arith

pub put_digits_more :
    (fuel n : ℕ) (out : Text)
    → 10 ≤ n
    → put_digits (suc fuel) n out ≡ put_digits fuel (n / 10) ((b'0' + n % 10) ∷ out)
unfolding put_digits
put_digits_more fuel n out h = ground arith

scan-put_digits : (fuel n : ℕ) (out : Text) → n < fuel → scan (put_digits fuel n out) 0 ≡ scan out n
scan-put_digits zero n out h = absurd (omega arith)
scan-put_digits (suc fuel) n out h = elim (dec_lt n 10) [
  | yes small ↦
      let value : 0 * 10 + n ≡ n = omega arith in
      rw (put_digits_last fuel n out small) (scan-digit n 0 out small ∙ ap (scan out) value)
  | no big ↦
      let value : n / 10 * 10 + n % 10 ≡ n = omega arith in
      rw (put_digits_more fuel n out (omega arith)) (
        scan-put_digits fuel (n / 10) ((b'0' + n % 10) ∷ out) (omega arith)
        ∙ scan-digit (n % 10) (n / 10) out (omega arith)
        ∙ ap (scan out) value)
]

-- What is printed is read back.
pub scan-decimal : (n : ℕ) (s : Text) → scan (decimal n ++ b'\n' ∷ s) 0 ≡ some (n, s)
unfolding decimal scan
scan-decimal n s = rw put_digits-append (scan-put_digits (n + 1) n (b'\n' ∷ s) (omega arith))
