-- ===== src/Netip.antt =====
-- What the program uses of Go's `net/netip`: addresses, their order, `Next`, and the tests on bytes.
-- Parsing and printing are parameters of the modules that call them.
use Prim.Native.String.{compare}
use text.Mathlib.Text.{is_le}
use text.Mathlib.TextPositions.{eq_refl}
use mathlib.Core.Logic.{dite}
use mathlib.Core.Bool.{Bool-discrete}
use infra_operator.Base.{
  ℕ, ◌+◌, ◌-◌, ◌/◌, ◌%◌, ◌^◌, ◌<◌, String, ◌≡◌, ◌↔◌, ◌⊎◌, refl, Bool, true, false, ◌&&◌, ◌||◌,
  arith, Eq, ◌==◌, nat_eq, string_eq, ltb, leb, if◌then◌else◌,
}

-- `netip.Addr`: the zero value, an IPv4 address, or an IPv6 address with its zone ("" for none).
pub data Addr : Type 0 where
  invalid : Addr
  v4 : ℕ → Addr
  v6 : ℕ → String → Addr

-- `IsValid`
unfoldable pub is_valid : Addr → Bool
is_valid invalid = false
is_valid (v4 a) = true
is_valid (v6 a z) = true

-- `ip.Compare(other) <= 0`: by bit length, then by number, then by zone.
unfoldable pub addr_le : Addr → Addr → Bool
addr_le invalid b = true
addr_le (v4 a) invalid = false
addr_le (v4 a) (v4 b) = leb a b
addr_le (v4 a) (v6 b z) = true
addr_le (v6 a y) invalid = false
addr_le (v6 a y) (v4 b) = false
addr_le (v6 a y) (v6 b z) = ltb a b || (a == b && is_le (compare y z))

-- `Next`: behind the last address of a family comes the zero `Addr`.
unfoldable pub next : Addr → Addr
next invalid = invalid
next (v4 a) = if ltb (a + 1) (2 ^ 32) then v4 (a + 1) else invalid
next (v6 a z) = if ltb (a + 1) (2 ^ 128) then v6 (a + 1) z else invalid

-- Byte i of the address, counted from the last one.
abbrev pub byte : ℕ → ℕ → ℕ
byte i a = a / 256 ^ i % 256

unfoldable pub addr_beq : Addr → Addr → Bool
addr_beq invalid invalid = true
addr_beq (v4 a) (v4 b) = a == b
addr_beq (v6 a y) (v6 b z) = a == b && y == z
addr_beq _ _ = false

pub addr_beq_iff : (a b : Addr) → (addr_beq a b ≡ true) ↔ (a ≡ b)
unfolding addr_beq
addr_beq_iff a b = ground arith

-- `==`, as Go's maps with `netip.Addr` keys use it.
instance unfoldable pub addr_eq : Eq Addr
unfolding addr_beq nat_eq string_eq
addr_eq = record {
  dec = λ a b.
      dite (Bool-discrete (addr_beq a b) true) (λ same. yes ((addr_beq_iff a b).0 same))
        (λ differ. no (λ p. differ ((addr_beq_iff a b).1 p)));
}

-- How often `Next` can be taken before the zero `Addr` and one more.
unfoldable pub steps_left : Addr → ℕ
steps_left invalid = 1
steps_left (v4 a) = 2 ^ 32 - a + 2
steps_left (v6 a z) = 2 ^ 128 - a + 2

-- `Next` makes progress, until the zero `Addr`.
pub steps_left-next : (a : Addr) → is_valid a ≡ true → steps_left (next a) < steps_left a
unfolding steps_left next is_valid
steps_left-next a h = ground arith

pub steps_left_pos : (a : Addr) → 0 < steps_left a
unfolding steps_left
steps_left_pos a = ground arith

-- What is at most the next address is at most this one, unless the family ends here.
pub addr_le-next :
    (a b : Addr) → addr_le (next a) b ≡ true → (addr_le a b ≡ true) ⊎ (next a ≡ invalid)
unfolding addr_le next
addr_le-next a b h = ground arith

pub next-v4 : (a : ℕ) → a + 1 < 2 ^ 32 → next (v4 a) ≡ v4 (a + 1)
unfolding next
next-v4 a h = ground arith

pub next-v6 : (a : ℕ) (z : String) → a + 1 < 2 ^ 128 → next (v6 a z) ≡ v6 (a + 1) z
unfolding next
next-v6 a z h = ground arith

pub addr_le-v4 : (a b : ℕ) → addr_le (v4 a) (v4 b) ≡ leb a b
unfolding addr_le
addr_le-v4 a b = refl

is_le_self : (z : String) → is_le (compare z z) ≡ true
is_le_self z = ground (arith, eq_refl z)

pub addr_le-v6 : (a b : ℕ) (z : String) → addr_le (v6 a z) (v6 b z) ≡ leb a b
unfolding addr_le
addr_le-v6 a b z = ground (arith, is_le_self z)

pub addr_le_self : (a : Addr) → addr_le a a ≡ true
unfolding addr_le
addr_le_self invalid = refl
addr_le_self (v4 a) = ground arith
addr_le_self (v6 a z) = ground (arith, is_le_self z)
