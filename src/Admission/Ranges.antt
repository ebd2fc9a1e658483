-- ===== src/Admission/Ranges.antt =====
-- The checks of addresses and of allocation ranges (netconfig_webhook.go): when they report nothing.
use infra_operator.Base.{
  append_nil, ℕ, suc, ◌≤◌, ◌<◌, String, ◌≡◌, ◌↔◌, inl, inr, true, none, some, List, [], ◌∷◌, arith,
  All, Option-cases,
}
use infra_operator.Inet.{Block, is_v4, holds, holds_between}
use infra_operator.Ipam.{AllocationRange, Subnet}
use infra_operator.Admission.{FieldPath, Checks, is_ipv4, is_ipv6, valiate_address}
use infra_operator.Admission.Networks.{
  check_range, valiate_allocation_range, valiate_ranges, valiate_members,
}

module _ (c : Checks) where
  -- The address is of the block's family, if that is known, and in the block.
  abbrev pub IsMember : Block → ℕ → Type 0
  IsMember block ip =
      (is_ipv4 (c.cidr_family block) ≡ true → is_ipv4 (c.family ip) ≡ true)
      × (is_ipv6 (c.cidr_family block) ≡ true → is_ipv6 (c.family ip) ≡ true)
      × (holds block ip ≡ true)

  -- Both ends are addresses of the block, in order.
  abbrev pub IsRangeOf : Block → AllocationRange → Type 0
  IsRangeOf block r =
      (first : ℕ) × (last : ℕ) × (c.parse_ip r.start ≡ some first)
      × (c.parse_ip r.end ≡ some last)
      × IsMember block first
      × IsMember block last
      × (first < last)

  pub valiate_address_iff :
      (s : String) (block : Block) (p : FieldPath)
      → (valiate_address c s block p ≡ [])
        ↔ ((ip : ℕ) × (c.parse_ip s ≡ some ip) × IsMember block ip)
  unfolding valiate_address
  valiate_address_iff s block p = elim (Option-cases (c.parse_ip s)) [
    | inl e ↦ ground arith
    | inr (ip, e) ↦ (λ h. (ip, e, ground arith), λ (ip', q, m). ground arith)
  ]

  -- The check of an allocation range reports nothing exactly if both ends are addresses, of the
  -- block's family and in the block, and the first is below the last.
  pub valiate_allocation_range_iff :
      (r : AllocationRange) (block : Block) (p : FieldPath)
      → (valiate_allocation_range c r block p ≡ []) ↔ IsRangeOf block r
  unfolding valiate_allocation_range check_range
  valiate_allocation_range_iff r block p = elim (Option-cases (c.parse_ip r.start)) [
    | inl e ↦ elim (Option-cases (c.parse_ip r.end)) [
      | inl f ↦ ground arith
      | inr (last, f) ↦ ground arith
    ]
    | inr (first, e) ↦ elim (Option-cases (c.parse_ip r.end)) [
      | inl f ↦ ground arith
      | inr (last, f) ↦ (
        λ h. (first, last, e, f, ground arith, ground arith, ground arith),
        λ (first', last', q, t, m, n, below). ground arith,
      )
    ]
  ]

  -- Of an allocation range that the check admits, every address between the ends that is of the form
  -- of the first one, IPv4 or not, is in the subnet's block.
  pub valiate_allocation_range-holds :
      (r : AllocationRange) (block : Block) (p : FieldPath) (x y z : ℕ)
      → valiate_allocation_range c r block p ≡ []
      → c.parse_ip r.start ≡ some x
      → c.parse_ip r.end ≡ some z
      → x ≤ y
      → y ≤ z
      → is_v4 y ≡ is_v4 x
      → holds block y ≡ true
  valiate_allocation_range-holds r block p x y z h s t lower upper same =
      let (x', z', s', t', m, n, below) = (valiate_allocation_range_iff r block p).0 h in
      holds_between block x y z lower upper (ground arith) (ground arith) same

  valiate_ranges_sound :
      (rs : List AllocationRange) (i : ℕ) (block : Block) (p : FieldPath)
      → valiate_ranges c rs i block p ≡ []
      → All (IsRangeOf block) rs
  unfolding valiate_ranges
  valiate_ranges_sound [] i block p h = tt
  valiate_ranges_sound (r ∷ rs) i block p h =
      let (first, rest) = append_nil _ _ h in
      (
        (valiate_allocation_range_iff r block _).0 first,
        valiate_ranges_sound rs (suc i) block p rest,
      )

  -- Where the members of a subnet are admitted, its allocation ranges are ranges of its block.
  pub valiate_members-IsRangeOf :
      (s : Subnet) (block : Block) (p : FieldPath)
      → valiate_members c s block p ≡ []
      → All (IsRangeOf block) s.allocation_ranges
  unfolding valiate_members
  valiate_members-IsRangeOf s block p h =
      valiate_ranges_sound s.allocation_ranges 0 block p
        (append_nil _ _
          (append_nil (elim s.gateway [ none ↦ [] | some g ↦ valiate_address c g block _ ]) _
            h).1).0
