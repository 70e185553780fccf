-- ===== src/Base/Int.antt =====
-- Signed numbers over the native naturals: what a `long` holds. `negsuc n` is -(n + 1).
use Prim.Native.Nat.{ℕ, zero, suc, ◌+◌}
use mathlib.Core.Path.{◌≡◌}
use mathlib.Core.Logic.{◌↔◌}
use mathlib.Core.Bool.{Bool, true, false}
use native.Mathlib.Omega.{arith}
use rsvndump.Base.Cond.{leb, ◌==◌}

pub data ℤ : Type 0 where
  pos : ℕ → ℤ
  negsuc : ℕ → ℤ

abbrev pub eqz : ℤ → ℤ → Bool
eqz (pos a) (pos b) = a == b
eqz (pos a) (negsuc b) = false
eqz (negsuc a) (pos b) = false
eqz (negsuc a) (negsuc b) = a == b

abbrev pub lez : ℤ → ℤ → Bool
lez (pos a) (pos b) = leb a b
lez (pos a) (negsuc b) = false
lez (negsuc a) (pos b) = true
lez (negsuc a) (negsuc b) = leb b a

abbrev pub incz : ℤ → ℤ
incz (pos a) = pos (a + 1)
incz (negsuc zero) = pos 0
incz (negsuc (suc a)) = negsuc a

abbrev pub decz : ℤ → ℤ
decz (pos zero) = negsuc 0
decz (pos (suc a)) = pos a
decz (negsuc a) = negsuc (a + 1)

pub eqz_iff : (a b : ℤ) → (eqz a b ≡ true) ↔ (a ≡ b)
eqz_iff (pos a) (pos b) = ground arith
eqz_iff (pos a) (negsuc b) = ((λ h. cc), (λ h. cc))
eqz_iff (negsuc a) (pos b) = ((λ h. cc), (λ h. cc))
eqz_iff (negsuc a) (negsuc b) = ground arith
