-- ===== src/Inet.antt =====
-- What the program uses of Go's `net`: addresses as the 16 bytes that `ParseIP` returns, and the blocks
-- that `ParseCIDR` returns. Parsing is a parameter of the modules that call it.
use native.Mathlib.Nat.{le-div_iff_mul-le, div-mul-le_self, one-le-pow}
use infra_operator.Base.{
  ℕ, ◌-◌, ◌/◌, ◌%◌, ◌^◌, ◌≤◌, ◌<◌, ◌≡◌, Bool, true, ◌&&◌, not, ◌==◌, nat_eq, if◌then◌else◌, arith,
}

-- `IP.To4() != nil`: the number of an IPv4 address stands behind ten zero bytes and two of 255.
unfoldable pub is_v4 : ℕ → Bool
is_v4 ip = ip / 2 ^ 32 == 65535

-- An `IPNet`: the network number, of 4 or of 16 bytes, and the mask's length.
pub record Block : Type 0 where
  pub four : Bool
  pub number : ℕ
  pub bits : ℕ

-- How many addresses a block holds.
abbrev pub size : Block → ℕ
size b = if b.four then 2 ^ (32 - b.bits) else 2 ^ (128 - b.bits)

-- The bytes that are compared with a block's.
abbrev pub significant : Block → ℕ → ℕ
significant b ip = if b.four then ip % 2 ^ 32 else ip

-- `IPNet.Contains`
unfoldable pub holds : Block → ℕ → Bool
holds b ip =
    (if b.four then is_v4 ip else not (is_v4 ip)) && significant b ip / size b == b.number / size b

div_mono : (d x y : ℕ) → x ≤ y → 0 < d → x / d ≤ y / d
div_mono d x y p pos = (le-div_iff_mul-le pos).1 (omega (arith, div-mul-le_self x d))

-- Numbers between two of one quotient have that quotient.
div_between : (d x y z : ℕ) → x ≤ y → y ≤ z → 0 < d → x / d ≡ z / d → y / d ≡ x / d
div_between d x y z p q pos e = omega (arith, div_mono d x y p pos, div_mono d y z q pos)

size_pos : (b : Block) → 0 < size b
size_pos b =
    ground
      (arith, one-le-pow (32 - b.bits) 2 (omega arith), one-le-pow (128 - b.bits) 2 (omega arith))

significant_between :
    (b : Block) (x y z : ℕ)
    → x ≤ y
    → y ≤ z
    → holds b x ≡ true
    → holds b z ≡ true
    → is_v4 y ≡ is_v4 x
    → (significant b x ≤ significant b y) × (significant b y ≤ significant b z)
unfolding holds is_v4
significant_between b x y z p q hx hz same = (ground arith, ground arith)

-- Addresses between two that a block holds, and of their family, are in the block.
pub holds_between :
    (b : Block) (x y z : ℕ)
    → x ≤ y
    → y ≤ z
    → holds b x ≡ true
    → holds b z ≡ true
    → is_v4 y ≡ is_v4 x
    → holds b y ≡ true
unfolding holds
holds_between b x y z p q hx hz same =
    let (lower, upper) = significant_between b x y z p q hx hz same in
    ground (
      arith,
      div_between (size b) (significant b x) (significant b y) (significant b z) lower upper
          (size_pos b),
    )
