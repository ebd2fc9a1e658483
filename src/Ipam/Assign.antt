-- ===== src/Ipam/Assign.antt =====
-- `AssignIP` as a whole (internal/ipam/funcs.go): what an address that it returns satisfies, when it
-- fails, and that it returns.
use infra_operator.Base.{
  String, ◌≡◌, ◌≢◌, refl, true, false, inl, inr, ◌⊎◌, Option, none, some, List, [], ◌∷◌, arith,
  if◌then◌else◌, All, contains, Bool-cases, Option-cases,
}
use infra_operator.Netip.{Addr, invalid, is_valid, addr_le, addr_eq, steps_left}
use infra_operator.Ipam.{
  AllocationRange, Subnet, IpAddress, ReservationMap, lookup, Result, ok, SearchEnd,
  AssignIpDetails, is_in, skips, ends_in_zero, found, exhausted, unfinished, search_range,
  collect_excluded, collect_reserved, build_excluded, build_reserved, ip_address, fixed_ip_exists,
  iterate_ranges, iterate_for_assignment, assign_ip,
}
use infra_operator.Ipam.Search.{found-unbarred, found-from}

abbrev pub Any {ℓ} : {A : Type ℓ} → (A → Type 0) → List A → Type 0
Any P [] = ⊥
Any P (x ∷ xs) = P x ⊎ Any P xs

pub pair_eq {ℓ κ} : {A : Type ℓ} {B : Type κ} {p : A × B} {b : B} → p.1 ≡ b → p ≡ (p.0, b)
pair_eq {p} e = λ i. (p.0, e i)

pub SearchEnd-cases :
    (r : SearchEnd) → ((x : Addr) × (r ≡ found x)) ⊎ ((r ≡ exhausted) ⊎ (r ≡ unfinished))
SearchEnd-cases (found x) = inl (x, refl)
SearchEnd-cases exhausted = inr (inl refl)
SearchEnd-cases unfinished = inr (inr refl)

module _ (parse : String → Option Addr) (print : Addr → String) where
  -- x lies in the allocation range, or is the zero address.
  abbrev pub Within : Addr → AllocationRange → Type 0
  Within x r =
      (first : Addr) × (last : Addr) × (parse r.start ≡ some first)
      × (parse r.end ≡ some last)
      × (addr_le x last ≡ true)
      × ((addr_le first x ≡ true) ⊎ (x ≡ invalid))

  -- No reservation of the network holds x.
  abbrev pub IsUnreserved : String → Addr → ReservationMap → Type 0
  IsUnreserved net x m = (res : IpAddress) → lookup net m ≡ some res → parse res.address ≢ some x

  abbrev pub IsFree : AssignIpDetails → Addr → Type 0
  IsFree a x =
      All (λ s. parse s ≢ some x) a.subnet.exclude_addresses
      × All (IsUnreserved a.net_name x) a.reservelist

  pub collect_excluded_sound :
      (x : Addr) (ss : List String) (set full : List Addr)
      → collect_excluded parse print ss set ≡ (full, none)
      → contains full x ≡ false
      → All (λ s. parse s ≢ some x) ss × (contains set x ≡ false)
  unfolding collect_excluded
  collect_excluded_sound x [] set full e h = ground arith
  collect_excluded_sound x (s ∷ ss) set full e h = elim (Option-cases (parse s)) [
    | inl p ↦ ground arith
    | inr (y, p) ↦ ground (arith, collect_excluded_sound x ss (y ∷ set) full)
  ]

  pub collect_reserved_sound :
      (x : Addr) (net : String) (ms : List ReservationMap) (set full : List Addr)
      → collect_reserved parse print net ms set ≡ (full, none)
      → contains full x ≡ false
      → All (IsUnreserved net x) ms × (contains set x ≡ false)
  unfolding collect_reserved
  collect_reserved_sound x net [] set full e h = ground arith
  collect_reserved_sound x net (m ∷ ms) set full e h = elim (Option-cases (lookup net m)) [
    | inl p ↦
        let rest = collect_reserved_sound x net ms set full (ground arith) h in
        ((λ res q. cc, rest.0), rest.1)
    | inr (r, p) ↦ elim (Option-cases (parse r.address)) [
      | inl q ↦ ground arith
      | inr (y, q) ↦
          let rest = collect_reserved_sound x net ms (y ∷ set) full (ground arith) h in
          ((λ res t. ground arith, rest.0), ground arith)
    ]
  ]

  iterate_ranges_sound :
      (a : AssignIpDetails) (rs : List AllocationRange) (ip : IpAddress)
      → iterate_ranges parse print a rs ≡ ok ip
      → (x : Addr) × (ip ≡ ip_address parse print a x) × (skips a x ≡ false) × Any (Within x) rs
  unfolding iterate_ranges
  iterate_ranges_sound a [] ip h = cc
  iterate_ranges_sound a (r ∷ rs) ip h = elim (Option-cases (parse r.start)) [
    | inl p ↦ ground arith
    | inr (first, p) ↦ elim (Option-cases (parse r.end)) [
      | inl q ↦ ground arith
      | inr (last, q) ↦ elim (SearchEnd-cases (search_range a (steps_left first) first last)) [
        | inl (x, f) ↦
            let (free, below) = found-unbarred a _ first last x f in
            (x, ground arith, free, inl (first, last, p, q, below, found-from a _ first last x f))
        | inr (inl f) ↦
            let (x, e, free, at_range) = iterate_ranges_sound a rs ip (ground arith) in
            (x, e, free, inr at_range)
        | inr (inr f) ↦ ground arith
      ]
    ]
  ]

  -- The details as the reconciler makes them, with both sets still to build.
  abbrev pub details : String → String → Subnet → List ReservationMap → Addr → AssignIpDetails
  details ip_set net subnet reservelist fixed = record {
    ip_set = ip_set;
    net_name = net;
    subnet = subnet;
    reservelist = reservelist;
    fixed_ip = fixed;
    excluded = none;
    reserved = none;
  }

  -- The details once both sets are built.
  abbrev pub prepared : AssignIpDetails → AssignIpDetails
  prepared a = record a {
    excluded = some (collect_excluded parse print a.subnet.exclude_addresses []).0;
    reserved = some (collect_reserved parse print a.net_name a.reservelist []).0;
  }

  module _ (ip_set net : String) (subnet : Subnet) (reservelist : List ReservationMap)
      (fixed : Addr) where
    abbrev pub request : AssignIpDetails
    request = details ip_set net subnet reservelist fixed

    abbrev answer : Result IpAddress
    answer = (assign_ip parse print request).1

    -- Both sets are built without an error, and the address is chosen from them.
    abbrev pub Chosen : Result IpAddress → Type 0
    Chosen r =
        ((collect_excluded parse print subnet.exclude_addresses []).1 ≡ none)
        × ((collect_reserved parse print net reservelist []).1 ≡ none)
        × ((if is_valid fixed
              then fixed_ip_exists parse print (prepared request)
              else iterate_for_assignment parse print (prepared request))
            ≡ r)

    pub assign_ip-Chosen : (ip : IpAddress) → answer ≡ ok ip → Chosen (ok ip)
    unfolding assign_ip build_excluded build_reserved
    assign_ip-Chosen ip h = ground arith

    -- How the address was found: the one asked for, or by a search of the allocation ranges.
    abbrev pub IsFound : Addr → Type 0
    IsFound x =
        ((is_valid fixed ≡ true) × (x ≡ fixed))
        ⊎ ((is_valid fixed ≡ false)
            × (ends_in_zero x ≡ false)
            × Any (Within x) subnet.allocation_ranges)

    IsFree-of_sets :
        (x : Addr) (r : Result IpAddress)
        → Chosen r
        → is_in (prepared request).excluded x ≡ false
        → is_in (prepared request).reserved x ≡ false
        → IsFree request x
    unfolding is_in
    IsFree-of_sets x r (e, s, c) he hr = (
      (collect_excluded_sound x subnet.exclude_addresses [] _ (pair_eq e) he).0,
      (collect_reserved_sound x net reservelist [] _ (pair_eq s) hr).0,
    )

    -- An address that `AssignIP` returns is free: no excluded address, and no address that the
    -- reservations hold for this network. It is the fixed address if a valid one was asked for. Else
    -- it does not end in zero, and lies in an allocation range, or is the zero address.
    pub assign_ip-IsFree :
        (ip : IpAddress)
        → (assign_ip parse print request).1 ≡ ok ip
        → (x : Addr) × (ip ≡ ip_address parse print request x) × IsFree request x × IsFound x
    unfolding fixed_ip_exists iterate_for_assignment skips
    assign_ip-IsFree ip h = elim (Bool-cases (is_valid fixed)) [
      | inl v ↦
          let c = assign_ip-Chosen ip h in
          (
            fixed,
            ground arith,
            IsFree-of_sets fixed (ok ip) c (ground arith) (ground arith),
            inl (v, refl),
          )
      | inr v ↦
          let c = assign_ip-Chosen ip h in
          let (x, e, s, w) =
            iterate_ranges_sound (prepared request) subnet.allocation_ranges ip (rw v at c.2) in
          (x, e, IsFree-of_sets x (ok ip) c (ground arith) (ground arith), inr (v, ground arith, w))
    ]
