-- ===== src/Prelude/Int.antt =====
-- Go's signed integers, without their bounds.
use Prim.Native.Nat.{ℕ, zero, suc}
use mathlib.Core.Path.{◌≡◌}
use mathlib.Core.Logic.{◌↔◌}
use mathlib.Core.Bool.{Bool, true, false}
use native.Mathlib.Omega.{arith}
use proof_forge.Prelude.Tests.{ltb, ◌==◌}

-- `negsuc n` is -(n + 1).
pub data ℤ : Type 0 where
  pos negsuc : ℕ → ℤ

-- a < b
abbrev pub less : ℤ → ℤ → Bool
less (pos a) (pos b) = ltb a b
less (pos a) (negsuc b) = false
less (negsuc a) (pos b) = true
less (negsuc a) (negsuc b) = ltb b a

-- a = b
abbrev pub same_int : ℤ → ℤ → Bool
same_int (pos a) (pos b) = a == b
same_int (negsuc a) (negsuc b) = a == b
same_int _ _ = false

-- a + 1
abbrev pub next_int : ℤ → ℤ
next_int (pos a) = pos (suc a)
next_int (negsuc zero) = pos 0
next_int (negsuc (suc a)) = negsuc a

pub less-next_int : (a : ℤ) → less a (next_int a) ≡ true
less-next_int (pos a) = ground arith
less-next_int (negsuc zero) = ground arith
less-next_int (negsuc (suc a)) = ground arith

pub less_trans : (a b c : ℤ) → less a b ≡ true → less b c ≡ true → less a c ≡ true
less_trans (pos a) (pos b) (pos c) h k = ground arith
less_trans (pos a) (pos b) (negsuc c) h k = ground arith
less_trans (pos a) (negsuc b) c h k = ground arith
less_trans (negsuc a) (pos b) (pos c) h k = ground arith
less_trans (negsuc a) (pos b) (negsuc c) h k = ground arith
less_trans (negsuc a) (negsuc b) (pos c) h k = ground arith
less_trans (negsuc a) (negsuc b) (negsuc c) h k = ground arith

-- What is not above `a` is below its successor.
pub less-next_of_not : (a b : ℤ) → less a b ≡ false → less b (next_int a) ≡ true
less-next_of_not (pos a) (pos b) h = ground arith
less-next_of_not (pos a) (negsuc b) h = ground arith
less-next_of_not (negsuc zero) (pos b) h = ground arith
less-next_of_not (negsuc (suc a)) (pos b) h = ground arith
less-next_of_not (negsuc zero) (negsuc b) h = ground arith
less-next_of_not (negsuc (suc a)) (negsuc b) h = ground arith

pub less_irrefl : (a : ℤ) → less a a ≡ false
less_irrefl (pos a) = ground arith
less_irrefl (negsuc a) = ground arith

pub less-co_trans : (a b c : ℤ) → less b a ≡ false → less c b ≡ false → less c a ≡ false
less-co_trans (pos a) (pos b) (pos c) h k = ground arith
less-co_trans (pos a) (pos b) (negsuc c) h k = ground arith
less-co_trans (pos a) (negsuc b) c h k = ground arith
less-co_trans (negsuc a) (pos b) (pos c) h k = ground arith
less-co_trans (negsuc a) (pos b) (negsuc c) h k = ground arith
less-co_trans (negsuc a) (negsuc b) (pos c) h k = ground arith
less-co_trans (negsuc a) (negsuc b) (negsuc c) h k = ground arith

pub less-asym : (a b : ℤ) → less a b ≡ true → less b a ≡ false
less-asym (pos a) (pos b) h = ground arith
less-asym (pos a) (negsuc b) h = ground arith
less-asym (negsuc a) (pos b) h = ground arith
less-asym (negsuc a) (negsuc b) h = ground arith

pub same_int_iff : (a b : ℤ) → (same_int a b ≡ true) ↔ (a ≡ b)
same_int_iff (pos a) (pos b) = ground arith
same_int_iff (pos a) (negsuc b) = ground arith
same_int_iff (negsuc a) (pos b) = ground arith
same_int_iff (negsuc a) (negsuc b) = ground arith

-- Neither is below the other only when they are the same.
pub less-total : (a b : ℤ) → same_int a b ≡ false → less a b ≡ false → less b a ≡ true
less-total (pos a) (pos b) e h = ground arith
less-total (pos a) (negsuc b) e h = ground arith
less-total (negsuc a) (pos b) e h = ground arith
less-total (negsuc a) (negsuc b) e h = ground arith
