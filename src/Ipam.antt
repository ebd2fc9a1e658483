-- ===== src/Ipam.antt =====
-- internal/ipam/funcs.go: the choice of an address for a network, and the API types that it reads
-- (apis/network/v1beta1/netconfig_types.go, reservation_types.go).
pub mod Search
pub mod Assign
pub mod Complete
pub mod Lowest
mod Tests
use infra_operator.Base.{
  ℕ, zero, suc, String, ◌≡◌, Bool, true, false, ◌&&◌, ◌||◌, Option, none, some, List, [], ◌∷◌, ◌==◌,
  nat_eq, string_eq, contains, if◌then◌else◌,
}
use infra_operator.Netip.{Addr, invalid, v4, v6, is_valid, addr_le, next, byte, addr_eq, steps_left}

pub record Route : Type 0 where
  pub destination : String
  pub nexthop : String

pub record AllocationRange : Type 0 where
  pub start : String
  pub end : String

pub record Subnet : Type 0 where
  pub name : String
  pub cidr : String
  pub dns_domain : Option String
  pub vlan : Option ℕ
  pub allocation_ranges : List AllocationRange
  pub exclude_addresses : List String
  pub gateway : Option String
  pub routes : List Route

pub record IpAddress : Type 0 where
  pub network : String
  pub subnet : String
  pub address : String

-- `map[string]IPAddress`, a network name's first entry counts.
abbrev pub ReservationMap : Type 0
ReservationMap = List (String × IpAddress)

unfoldable pub lookup : String → ReservationMap → Option IpAddress
lookup k [] = none
lookup k ((j, ip) ∷ m) = if j == k then some ip else lookup k m

-- The errors of `AssignIP`, named for what went wrong. `out_of_steps` is the model's own.
pub data IpamError : Type 0 where
  bad_exclude bad_reservation bad_start bad_end : String → IpamError
  fixed_excluded fixed_reserved : Addr → IpamError
  no_address : String → String → IpamError
  out_of_steps : IpamError

pub data Result {ℓ} (A : Type ℓ) : Type ℓ where
  ok : A → Result A
  err : IpamError → Result A

-- `excluded` and `reserved` are Go maps that are nil (`none`) until they are built.
pub record AssignIpDetails : Type 0 where
  pub ip_set : String
  pub net_name : String
  pub subnet : Subnet
  pub reservelist : List ReservationMap
  pub fixed_ip : Addr
  pub excluded : Option (List Addr)
  pub reserved : Option (List Addr)

-- `_, ok := m[ip]`
unfoldable pub is_in : Option (List Addr) → Addr → Bool
is_in none ip = false
is_in (some m) ip = contains m ip

-- The three `continue`s of the loop in `iterateForAssignment`.
unfoldable pub ends_in_zero : Addr → Bool
ends_in_zero invalid = false
ends_in_zero (v4 a) = byte 0 a == 0
ends_in_zero (v6 a z) = byte 1 a == 0 && byte 0 a == 0

unfoldable pub skips : AssignIpDetails → Addr → Bool
unfolding ends_in_zero
skips a ip = ends_in_zero ip || is_in a.excluded ip || is_in a.reserved ip

-- How the inner loop ends: it returns an address, passes the range's end, or uses up the fuel.
pub data SearchEnd : Type 0 where
  found : Addr → SearchEnd
  exhausted unfinished : SearchEnd

-- `for ip := firstip; ip.Compare(lastip) <= 0; ip = ip.Next()`
unfoldable pub search_range : AssignIpDetails → ℕ → Addr → Addr → SearchEnd
search_range a zero ip last = unfinished
search_range a (suc fuel) ip last =
    let rest = search_range a fuel (next ip) last in
    if addr_le ip last then (if skips a ip then rest else found ip) else exhausted

module _ (parse : String → Option Addr) (print : Addr → String) where
  -- The loops of `buildExcluded` and `buildReserved`: the set so far stays when one fails.
  unfoldable pub collect_excluded : List String → List Addr → List Addr × Option IpamError
  collect_excluded [] set = (set, none)
  collect_excluded (s ∷ ss) set = elim (parse s) [
    | some ip ↦ collect_excluded ss (ip ∷ set)
    | none ↦ (set, some (bad_exclude s))
  ]

  unfoldable pub collect_reserved :
      String → List ReservationMap → List Addr → List Addr × Option IpamError
  collect_reserved net [] set = (set, none)
  collect_reserved net (r ∷ rs) set = elim (lookup net r) [
    | none ↦ collect_reserved net rs set
    | some res ↦ elim (parse res.address) [
      | some ip ↦ collect_reserved net rs (ip ∷ set)
      | none ↦ (set, some (bad_reservation res.address))
    ]
  ]

  unfoldable pub build_excluded : AssignIpDetails → AssignIpDetails × Option IpamError
  build_excluded a = elim a.excluded [
    | some set ↦ (a, none)
    | none ↦
        let (set, e) = collect_excluded a.subnet.exclude_addresses [] in
        (record a { excluded = some set }, e)
  ]

  unfoldable pub build_reserved : AssignIpDetails → AssignIpDetails × Option IpamError
  build_reserved a = elim a.reserved [
    | some set ↦ (a, none)
    | none ↦
        let (set, e) = collect_reserved a.net_name a.reservelist [] in
        (record a { reserved = some set }, e)
  ]

  abbrev pub ip_address : AssignIpDetails → Addr → IpAddress
  ip_address a ip = record { network = a.net_name; subnet = a.subnet.name; address = print ip }

  unfoldable pub fixed_ip_exists : AssignIpDetails → Result IpAddress
  fixed_ip_exists a =
      if is_in a.excluded a.fixed_ip
      then err (fixed_excluded a.fixed_ip)
      else if is_in a.reserved a.fixed_ip
      then err (fixed_reserved a.fixed_ip)
      else ok (ip_address a a.fixed_ip)

  -- `iterateForAssignment`, with the fuel that `search_range-finishes` shows to be enough.
  unfoldable pub iterate_ranges : AssignIpDetails → List AllocationRange → Result IpAddress
  iterate_ranges a [] = err (no_address a.ip_set a.subnet.name)
  iterate_ranges a (r ∷ rs) = elim (parse r.start) [
    | none ↦ err (bad_start r.start)
    | some first ↦ elim (parse r.end) [
      | none ↦ err (bad_end r.end)
      | some last ↦ elim (search_range a (steps_left first) first last) [
        | found ip ↦ ok (ip_address a ip)
        | exhausted ↦ iterate_ranges a rs
        | unfinished ↦ err out_of_steps
      ]
    ]
  ]

  unfoldable pub iterate_for_assignment : AssignIpDetails → Result IpAddress
  unfolding iterate_ranges
  iterate_for_assignment a = iterate_ranges a a.subnet.allocation_ranges

  abbrev checked :
      AssignIpDetails × Option IpamError
      → (AssignIpDetails → AssignIpDetails × Result IpAddress)
      → AssignIpDetails × Result IpAddress
  checked (a, none) go = go a
  checked (a, some e) go = (a, err e)

  unfoldable pub assign_ip : AssignIpDetails → AssignIpDetails × Result IpAddress
  assign_ip a = checked (build_excluded a) λ b.
      checked (build_reserved b)
        λ c. (c, if is_valid c.fixed_ip then fixed_ip_exists c else iterate_for_assignment c)
