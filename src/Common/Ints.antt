-- ===== src/Common/Ints.antt =====
-- Python's unbounded `int`: `negsuc n` is -(n + 1).
use Prim.Native.Nat.{ℕ, zero, suc, ◌+◌}
use mathlib.Core.Path.{◌≡◌}
use mathlib.Core.Logic.{◌↔◌}
use mathlib.Core.Bool.{Bool, true, false}
use native.Mathlib.Omega.{arith}
use codex_python_sdk_unoffic.Common.Tests.{ltb, leb, nat_beq}

pub data ℤ : Type 0 where
  pos : ℕ → ℤ
  negsuc : ℕ → ℤ

abbrev pub int_beq : ℤ → ℤ → Bool
int_beq (pos a) (pos b) = nat_beq a b
int_beq (negsuc a) (negsuc b) = nat_beq a b
int_beq _ _ = false

abbrev pub int_leb : ℤ → ℤ → Bool
int_leb (pos a) (pos b) = leb a b
int_leb (negsuc a) (negsuc b) = leb b a
int_leb (negsuc a) (pos b) = true
int_leb (pos a) (negsuc b) = false

abbrev pub int_ltb : ℤ → ℤ → Bool
int_ltb (pos a) (pos b) = ltb a b
int_ltb (negsuc a) (negsuc b) = ltb b a
int_ltb (negsuc a) (pos b) = true
int_ltb (pos a) (negsuc b) = false

-- `n + 1`
abbrev pub int_suc : ℤ → ℤ
int_suc (pos n) = pos (n + 1)
int_suc (negsuc zero) = pos 0
int_suc (negsuc (suc n)) = negsuc n

pub int_beq_iff : (a b : ℤ) → (int_beq a b ≡ true) ↔ (a ≡ b)
int_beq_iff (pos a) (pos b) = ground arith
int_beq_iff (negsuc a) (negsuc b) = ground arith
int_beq_iff (pos a) (negsuc b) = ground arith
int_beq_iff (negsuc a) (pos b) = ground arith

pub int_leb_refl : (a : ℤ) → int_leb a a ≡ true
int_leb_refl a = ground arith

pub int_leb_trans : (a b c : ℤ) → int_leb a b ≡ true → int_leb b c ≡ true → int_leb a c ≡ true
int_leb_trans a b c p q = ground arith

pub int_leb_suc : (a b : ℤ) → int_leb a b ≡ true → int_leb a (int_suc b) ≡ true
int_leb_suc a (pos n) p = ground arith
int_leb_suc a (negsuc zero) p = ground arith
int_leb_suc a (negsuc (suc n)) p = ground arith

pub int_suc_above : (a : ℤ) → int_leb (int_suc a) a ≡ false
int_suc_above (pos n) = ground arith
int_suc_above (negsuc zero) = ground arith
int_suc_above (negsuc (suc n)) = ground arith

pub int_le_of_not_lt : (a b : ℤ) → int_ltb b a ≡ false → int_leb a b ≡ true
int_le_of_not_lt a b p = ground arith

pub int_le_of_lt : (a b : ℤ) → int_ltb a b ≡ true → int_leb a b ≡ true
int_le_of_lt a b p = ground arith
