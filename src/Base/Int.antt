-- ===== src/Base/Int.antt =====
-- Signed integers: `negsuc n` is -(n + 1).
use Prim.Native.Nat.{ℕ}
use mathlib.Core.Path.{◌≡◌, refl}
use mathlib.Core.Bool.{Bool, true, false}
use native.Mathlib.Omega.{arith}
use ma_sinafadavi_gpt.Base.Tests.{leb}

pub data ℤ : Type 0 where
  pos negsuc : ℕ → ℤ

-- `a <= b`
unfoldable pub lez : ℤ → ℤ → Bool
lez (pos a) (pos b) = leb a b
lez (pos a) (negsuc b) = false
lez (negsuc a) (pos b) = true
lez (negsuc a) (negsuc b) = leb b a

pub lez_refl : (a : ℤ) → lez a a ≡ true
unfolding lez
lez_refl (pos a) = ground arith
lez_refl (negsuc a) = ground arith

pub lez_trans : (a b c : ℤ) → lez a b ≡ true → lez b c ≡ true → lez a c ≡ true
unfolding lez
lez_trans (pos a) (pos b) (pos c) h k = ground arith
lez_trans (pos a) (pos b) (negsuc c) h k = absurd (cc)
lez_trans (pos a) (negsuc b) c h k = absurd (cc)
lez_trans (negsuc a) (pos b) (pos c) h k = refl
lez_trans (negsuc a) (pos b) (negsuc c) h k = absurd (cc)
lez_trans (negsuc a) (negsuc b) (pos c) h k = refl
lez_trans (negsuc a) (negsuc b) (negsuc c) h k = ground arith
