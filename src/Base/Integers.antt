-- ===== src/Base/Integers.antt =====
-- Go's signed integers, as far as the program compares them.
use Prim.Native.Nat.{ℕ}
use mathlib.Core.Path.{◌≡◌}
use mathlib.Core.Logic.{◌↔◌, dite}
use mathlib.Core.Bool.{Bool, true, false, Bool-discrete}
use native.Mathlib.Omega.{arith}
use infra_operator.Base.Tests.{Eq, ◌==◌, ltb, nat_eq}

pub data ℤ : Type 0 where
  pos : ℕ → ℤ
  negsuc : ℕ → ℤ

unfoldable pub ltz : ℤ → ℤ → Bool
ltz (pos a) (pos b) = ltb a b
ltz (pos a) (negsuc b) = false
ltz (negsuc a) (pos b) = true
ltz (negsuc a) (negsuc b) = ltb b a

unfoldable pub int_beq : ℤ → ℤ → Bool
int_beq (pos a) (pos b) = a == b
int_beq (negsuc a) (negsuc b) = a == b
int_beq _ _ = false

pub int_beq_iff : (a b : ℤ) → (int_beq a b ≡ true) ↔ (a ≡ b)
unfolding int_beq
int_beq_iff a b = ground arith

instance unfoldable pub int_eq : Eq ℤ
int_eq = record {
  dec = λ a b.
      dite (Bool-discrete (int_beq a b) true) (λ same. yes ((int_beq_iff a b).0 same))
        (λ differ. no (λ p. differ ((int_beq_iff a b).1 p)));
}

pub ltz_irreflexive : (a : ℤ) → ltz a a ≡ false
unfolding ltz
ltz_irreflexive (pos a) = ground arith
ltz_irreflexive (negsuc a) = ground arith

pub ltz_trans : (a b c : ℤ) → ltz a b ≡ true → ltz b c ≡ true → ltz a c ≡ true
unfolding ltz
ltz_trans a b c p q = ground arith

-- Of two integers one is below the other, or they are equal.
pub ltz_total : (a b : ℤ) → ltz a b ≡ false → ltz b a ≡ false → a ≡ b
unfolding ltz
ltz_total a b p q = ground arith
