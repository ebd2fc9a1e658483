-- ===== src/Ipam/Search.antt =====
-- The inner loop of `iterateForAssignment` (internal/ipam/funcs.go): it ends, it returns an address
-- of the range that nothing bars, and the first such one.
use infra_operator.Base.{
  ℕ, zero, suc, ◌+◌, ◌^◌, ◌≤◌, ◌<◌, String, ◌≡◌, ◌≢◌, refl, true, false, inl, inr, ◌⊎◌, arith, leb,
  Bool-cases,
}
use native.Mathlib.Decide.{dec_lt}
use infra_operator.Netip.{
  Addr, invalid, v4, v6, is_valid, addr_le, next, steps_left, steps_left-next, steps_left_pos,
  addr_le-next, addr_le_self, next-v4, next-v6, addr_le-v4, addr_le-v6,
}
use infra_operator.Ipam.{
  AssignIpDetails, skips, SearchEnd, found, exhausted, unfinished, search_range,
}

valid-cases : (ip : Addr) → (ip ≡ invalid) ⊎ (is_valid ip ≡ true)
unfolding is_valid
valid-cases ip = ground arith

-- The loop ends within `steps_left` rounds, when the zero address is in neither set.
pub search_range-finishes :
    (a : AssignIpDetails) (fuel : ℕ) (ip last : Addr)
    → skips a invalid ≡ false
    → steps_left ip ≤ fuel
    → search_range a fuel ip last ≢ unfinished
unfolding search_range
search_range-finishes a zero ip last h enough = absurd (omega (arith, steps_left_pos ip))
search_range-finishes a (suc fuel) ip last h enough = elim (valid-cases ip) [
  | inl e ↦ ground arith
  | inr v ↦ ground (arith, steps_left-next ip v, search_range-finishes a fuel (next ip) last h)
]

-- The address is not barred, and not above the end.
pub found-unbarred :
    (a : AssignIpDetails) (fuel : ℕ) (ip last x : Addr)
    → search_range a fuel ip last ≡ found x
    → (skips a x ≡ false) × (addr_le x last ≡ true)
unfolding search_range
found-unbarred a zero ip last x h = cc
found-unbarred a (suc fuel) ip last x h = ground (arith, found-unbarred a fuel (next ip) last x)

-- Behind the end of its family the loop can only return the zero address.
found-of_invalid :
    (a : AssignIpDetails) (fuel : ℕ) (last x : Addr)
    → search_range a fuel invalid last ≡ found x
    → x ≡ invalid
unfolding search_range next addr_le
found-of_invalid a zero last x h = cc
found-of_invalid a (suc fuel) last x h = ground (arith, found-of_invalid a fuel last x)

found-of_next :
    (a : AssignIpDetails) (fuel : ℕ) (ip last x : Addr)
    → next ip ≡ invalid
    → search_range a fuel (next ip) last ≡ found x
    → x ≡ invalid
found-of_next a fuel ip last x e h = found-of_invalid a fuel last x (rw e at h)

-- The address comes from the range: it is not below the start.
pub found-from :
    (a : AssignIpDetails) (fuel : ℕ) (ip last x : Addr)
    → search_range a fuel ip last ≡ found x
    → (addr_le ip x ≡ true) ⊎ (x ≡ invalid)
unfolding search_range
found-from a zero ip last x h = cc
found-from a (suc fuel) ip last x h = ground (
  arith,
  addr_le_self ip,
  addr_le-next ip x,
  found-from a fuel (next ip) last x,
  λ (e : next ip ≡ invalid). found-of_next a fuel ip last x e,
)

-- The family of a range: how its numbers become addresses, and which is its last.
pub record IsFamily (mk : ℕ → Addr) (top : ℕ) : Type 0 where
  pub next-mk : (x : ℕ) → x + 1 < top → next (mk x) ≡ mk (x + 1)
  pub le-mk : (x y : ℕ) → addr_le (mk x) (mk y) ≡ leb x y

-- What the loop returns of the range lo .. hi: the first address that is not barred, if any.
abbrev pub IsFirstFree : AssignIpDetails → (ℕ → Addr) → ℕ → ℕ → SearchEnd → Type 0
IsFirstFree a mk lo hi (found x) =
    (n : ℕ) × (x ≡ mk n)
    × (lo ≤ n)
    × (n ≤ hi)
    × (skips a (mk n) ≡ false)
    × ((m : ℕ) → lo ≤ m → m < n → skips a (mk m) ≡ true)
IsFirstFree a mk lo hi exhausted = (m : ℕ) → lo ≤ m → m ≤ hi → skips a (mk m) ≡ true
IsFirstFree a mk lo hi unfinished = Unit

module _ (a : AssignIpDetails) (mk : ℕ → Addr) (top : ℕ) (fam : IsFamily mk top) where
  -- One round of the loop keeps the specification, if the rest of the range has it.
  IsFirstFree-step :
      (lo hi : ℕ) (r : SearchEnd)
      → lo ≤ hi
      → skips a (mk lo) ≡ true
      → IsFirstFree a mk (lo + 1) hi r
      → IsFirstFree a mk lo hi r
  IsFirstFree-step lo hi (found x) le s (n, e, ge, up, free, least) =
      (n, e, omega arith, up, free, λ m p q. before m p q (dec_lt lo m))
    where
      before : (m : ℕ) → lo ≤ m → m < n → Dec (lo < m) → skips a (mk m) ≡ true
      before m p q (yes l) = least m (omega arith) q
      before m p q (no l) = let e' : m ≡ lo = omega arith in rw e' s
  IsFirstFree-step lo hi exhausted le s all = λ m p q. before m p q (dec_lt lo m)
    where
      before : (m : ℕ) → lo ≤ m → m ≤ hi → Dec (lo < m) → skips a (mk m) ≡ true
      before m p q (yes l) = all m (omega arith) q
      before m p q (no l) = let e' : m ≡ lo = omega arith in rw e' s
  IsFirstFree-step lo hi unfinished le s u = tt

  -- Of a range inside its family the loop returns the first free address, or says that none is.
  pub search_range-IsFirstFree :
      (fuel lo hi : ℕ) → hi + 1 < top → IsFirstFree a mk lo hi (search_range a fuel (mk lo) (mk hi))
  unfolding search_range
  search_range-IsFirstFree zero lo hi h = tt
  search_range-IsFirstFree (suc fuel) lo hi h = elim (Bool-cases (leb lo hi)) [
    | inl le ↦ elim (Bool-cases (skips a (mk lo))) [
      | inl s ↦
          rw (fam.le-mk, le, s, fam.next-mk lo (ground arith))
            (IsFirstFree-step lo hi _ (ground arith) s
              (search_range-IsFirstFree fuel (lo + 1) hi h))
      | inr f ↦
          rw (fam.le-mk, le, f)
            (lo, refl, omega arith, ground arith, f, λ m p q. absurd (omega arith))
    ]
    | inr gt ↦ rw (fam.le-mk, gt) (λ m p q. absurd (ground arith))
  ]

abbrev pub v4-IsFamily : IsFamily v4 (2 ^ 32)
v4-IsFamily = record { next-mk = next-v4; le-mk = addr_le-v4 }

abbrev pub v6-IsFamily : (z : String) → IsFamily (λ x. v6 x z) (2 ^ 128)
v6-IsFamily z = record { next-mk = λ x. next-v6 x z; le-mk = λ x y. addr_le-v6 x y z }
