-- ===== src/Ipam/Complete.antt =====
-- When `AssignIP` succeeds (internal/ipam/funcs.go): an address that is free and in a range is found,
-- the lowest first; the search ends; and what happens at the end of an address family.
use infra_operator.Base.{
  ℕ, zero, suc, ◌+◌, ◌-◌, ◌^◌, ◌≤◌, ◌<◌, String, ◌≡◌, ◌≢◌, refl, true, false, inl, inr, Option,
  some, List, [], ◌∷◌, arith, All, contains, Option-cases,
}
use infra_operator.Netip.{Addr, invalid, v4, addr_le, addr_eq, next, steps_left}
use infra_operator.Ipam.{
  AllocationRange, Subnet, ReservationMap, lookup, out_of_steps, err, AssignIpDetails, is_in, skips,
  ends_in_zero, found, search_range, collect_excluded, collect_reserved, build_excluded,
  build_reserved, fixed_ip_exists, iterate_ranges, iterate_for_assignment, assign_ip,
}
use infra_operator.Ipam.Search.{search_range-finishes}
use infra_operator.Ipam.Assign.{IsUnreserved, IsFree, request, prepared}

-- A range that reaches the last IPv4 address and has nothing free goes on to the zero address.
pub search_range-top :
    (a : AssignIpDetails) (fuel lo : ℕ)
    → lo < 2 ^ 32
    → steps_left (v4 lo) ≤ fuel
    → skips a invalid ≡ false
    → ((m : ℕ) → lo ≤ m → m < 2 ^ 32 → skips a (v4 m) ≡ true)
    → search_range a fuel (v4 lo) (v4 (2 ^ 32 - 1)) ≡ found invalid
unfolding search_range steps_left next addr_le
search_range-top a zero lo h enough z all = absurd (omega arith)
search_range-top a (suc zero) lo h enough z all = absurd (omega arith)
search_range-top a (suc (suc fuel)) lo h enough z all = ground (
  arith,
  all lo,
  search_range-top a (suc fuel) (lo + 1),
  λ (m : ℕ) (p : lo + 1 ≤ m) (q : m < 2 ^ 32). all m (omega arith) q,
)

module _ (parse : String → Option Addr) (print : Addr → String) where
  collect_excluded_complete :
      (x : Addr) (ss : List String) (set : List Addr)
      → All (λ s. parse s ≢ some x) ss
      → contains set x ≡ false
      → contains (collect_excluded parse print ss set).0 x ≡ false
  unfolding collect_excluded
  collect_excluded_complete x [] set h e = e
  collect_excluded_complete x (s ∷ ss) set h e = elim (Option-cases (parse s)) [
    | inl p ↦ ground arith
    | inr (y, p) ↦ ground (arith, collect_excluded_complete x ss (y ∷ set))
  ]

  collect_reserved_complete :
      (x : Addr) (net : String) (ms : List ReservationMap) (set : List Addr)
      → All (IsUnreserved parse print net x) ms
      → contains set x ≡ false
      → contains (collect_reserved parse print net ms set).0 x ≡ false
  unfolding collect_reserved
  collect_reserved_complete x net [] set h e = e
  collect_reserved_complete x net (m ∷ ms) set h e = elim (Option-cases (lookup net m)) [
    | inl p ↦ ground (arith, collect_reserved_complete x net ms set h.1 e)
    | inr (r, p) ↦ elim (Option-cases (parse r.address)) [
      | inl q ↦ ground arith
      | inr (y, q) ↦ ground (arith, h.0 r p, collect_reserved_complete x net ms (y ∷ set))
    ]
  ]

  module _ (a : AssignIpDetails) where
    pub unbarred_of_free :
        (x : Addr)
        → IsFree parse print a x
        → ends_in_zero x ≡ false
        → skips (prepared parse print a) x ≡ false
    unfolding skips is_in
    unbarred_of_free x h z = ground (
      arith,
      collect_excluded_complete x a.subnet.exclude_addresses [] h.0 refl,
      collect_reserved_complete x a.net_name a.reservelist [] h.1 refl,
    )

  -- No element is parsed to the zero address, as `netip.ParseAddr` promises.
  abbrev pub ParsesValid : Type 0
  ParsesValid = (s : String) → parse s ≢ some invalid

  pub zero_unbarred :
      ParsesValid → (a : AssignIpDetails) → skips (prepared parse print a) invalid ≡ false
  unfolding ends_in_zero
  zero_unbarred valid a =
      unbarred_of_free a invalid
        (none_excluded a.subnet.exclude_addresses, none_reserved a.reservelist) refl
    where
      none_excluded : (ss : List String) → All (λ s. parse s ≢ some invalid) ss
      none_excluded [] = tt
      none_excluded (s ∷ ss) = (valid s, none_excluded ss)

      none_reserved :
          (ms : List ReservationMap) → All (IsUnreserved parse print a.net_name invalid) ms
      none_reserved [] = tt
      none_reserved (m ∷ ms) = ((λ res p. valid res.address), none_reserved ms)

  iterate_ranges-ne-out_of_steps :
      (a : AssignIpDetails) (rs : List AllocationRange)
      → skips a invalid ≡ false
      → iterate_ranges parse print a rs ≢ err out_of_steps
  unfolding iterate_ranges
  iterate_ranges-ne-out_of_steps a [] z h = cc
  iterate_ranges-ne-out_of_steps a (r ∷ rs) z h = elim (Option-cases (parse r.start)) [
    | inl p ↦ ground arith
    | inr (first, p) ↦ elim (Option-cases (parse r.end)) [
      | inl q ↦ ground arith
      | inr (last, q) ↦ ground (
        arith,
        search_range-finishes a (steps_left first) first last z,
        iterate_ranges-ne-out_of_steps a rs z,
      )
    ]
  ]

  collect_excluded-ne-out_of_steps :
      (ss : List String) (set : List Addr)
      → (collect_excluded parse print ss set).1 ≢ some out_of_steps
  unfolding collect_excluded
  collect_excluded-ne-out_of_steps [] set h = cc
  collect_excluded-ne-out_of_steps (s ∷ ss) set h = elim (Option-cases (parse s)) [
    | inl p ↦ ground arith
    | inr (y, p) ↦ ground (arith, collect_excluded-ne-out_of_steps ss (y ∷ set))
  ]

  collect_reserved-ne-out_of_steps :
      (net : String) (ms : List ReservationMap) (set : List Addr)
      → (collect_reserved parse print net ms set).1 ≢ some out_of_steps
  unfolding collect_reserved
  collect_reserved-ne-out_of_steps net [] set h = cc
  collect_reserved-ne-out_of_steps net (m ∷ ms) set h = elim (Option-cases (lookup net m)) [
    | inl p ↦ ground (arith, collect_reserved-ne-out_of_steps net ms set)
    | inr (r, p) ↦ elim (Option-cases (parse r.address)) [
      | inl q ↦ ground arith
      | inr (y, q) ↦ ground (arith, collect_reserved-ne-out_of_steps net ms (y ∷ set))
    ]
  ]

  module _ (ip_set net : String) (subnet : Subnet) (reservelist : List ReservationMap)
      (fixed : Addr) where
    abbrev a : AssignIpDetails
    a = request parse print ip_set net subnet reservelist fixed

    -- When no text is parsed to the zero address, the loops of `AssignIP` end within the fuel.
    pub assign_ip-ne-out_of_steps :
        ParsesValid
        → (assign_ip parse print (request parse print ip_set net subnet reservelist fixed)).1
          ≢ err out_of_steps
    unfolding assign_ip build_excluded build_reserved fixed_ip_exists iterate_for_assignment
    assign_ip-ne-out_of_steps valid h = ground (
      arith,
      collect_excluded-ne-out_of_steps subnet.exclude_addresses [],
      collect_reserved-ne-out_of_steps net reservelist [],
      iterate_ranges-ne-out_of_steps (prepared parse print a) subnet.allocation_ranges
          (zero_unbarred valid a),
    )
