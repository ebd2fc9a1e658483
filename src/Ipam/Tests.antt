-- ===== src/Ipam/Tests.antt =====
-- A small subnet, and the address choice on it (internal/ipam/funcs.go).
use infra_operator.Base.{
  false, ◌≡◌, ◌≢◌, refl, ℕ, String, Option, none, some, [], ◌∷◌, ◌==◌, string_eq, nat_eq,
  if◌then◌else◌, arith, ◌≤◌, ◌<◌, ◌⊎◌, true,
}
use infra_operator.Netip.{
  Addr, invalid, v4, addr_eq, addr_beq_iff, steps_left, addr_le, next, is_valid,
}
use infra_operator.Ipam.{
  Subnet, ReservationMap, AssignIpDetails, ok, err, out_of_steps, lookup, ends_in_zero, assign_ip,
  ip_address, build_excluded, build_reserved, collect_excluded, collect_reserved, is_in, skips,
  search_range, iterate_for_assignment,
}
use infra_operator.Ipam.Assign.{IsFree, IsFound, request, prepared, assign_ip-IsFree}
use infra_operator.Ipam.Lowest.{IsWellFormed, assign_ip-zero_address, assign_ip-lowest}
use infra_operator.Ipam.Complete.{ParsesValid, assign_ip-ne-out_of_steps}

abbrev parse : String → Option Addr
parse s =
    if s == "10.0.0.1"
    then some (v4 167772161)
    else if s == "10.0.0.2"
    then some (v4 167772162)
    else if s == "10.0.0.9"
    then some (v4 167772169)
    else if s == "255.255.255.255"
    then some (v4 4294967295)
    else none

abbrev print : Addr → String
print invalid = "invalid IP"
print _ = "an address"

abbrev subnet : Subnet
subnet = record {
  name = "subnet1";
  cidr = "10.0.0.0/24";
  dns_domain = none;
  vlan = none;
  allocation_ranges = record { start = "10.0.0.1"; end = "10.0.0.9" } ∷ [];
  exclude_addresses = "10.0.0.1" ∷ [];
  gateway = none;
  routes = [];
}

abbrev held : ReservationMap
held =
    ("internalapi", record { network = "internalapi"; subnet = "subnet1"; address = "10.0.0.2" })
    ∷ []

abbrev asked : AssignIpDetails
asked = request parse print "edpm0" "internalapi" subnet (held ∷ []) invalid

-- The first address is excluded and the second reserved.
third : (assign_ip parse print asked).1 ≡ ok (ip_address parse print asked (v4 167772163))
unfolding assign_ip build_excluded build_reserved collect_excluded collect_reserved lookup is_in
    skips search_range iterate_for_assignment addr_le next addr_eq steps_left is_valid string_eq
    nat_eq
third = refl

assign_ip-IsFree_example :
    (x : Addr) × (ip_address parse print asked (v4 167772163) ≡ ip_address parse print asked x)
    × IsFree parse print asked x
    × IsFound parse print "edpm0" "internalapi" subnet (held ∷ []) invalid x
assign_ip-IsFree_example =
    assign_ip-IsFree parse print "edpm0" "internalapi" subnet (held ∷ []) invalid
      (ip_address parse print asked (v4 167772163)) third

parse_valid : ParsesValid parse print
parse_valid s = ground (arith, string_eq)

assign_ip-ne-out_of_steps_example : (assign_ip parse print asked).1 ≢ err out_of_steps
assign_ip-ne-out_of_steps_example =
    assign_ip-ne-out_of_steps parse print "edpm0" "internalapi" subnet (held ∷ []) invalid
      parse_valid

abbrev second : Addr
second = v4 167772162

-- Nothing is reserved in this one.
well_formed : IsWellFormed parse print (request parse print "edpm0" "internalapi" subnet [] invalid)
unfolding string_eq
well_formed = (((v4 167772161, refl), tt), tt)

second-IsFree :
    IsFree parse print (request parse print "edpm0" "internalapi" subnet [] invalid) second
unfolding string_eq
second-IsFree = ((λ e. ground (arith, addr_beq_iff (v4 167772161) second), tt), tt)

assign_ip-lowest_example :
    (m : ℕ) × ((assign_ip parse print
        (request parse print "edpm0" "internalapi" subnet [] invalid)).1
      ≡ ok (ip_address parse print asked (v4 m)))
    × (167772161 ≤ m)
    × (m ≤ 167772162)
    × (ends_in_zero (v4 m) ≡ false)
    × IsFree parse print (request parse print "edpm0" "internalapi" subnet [] invalid) (v4 m)
    × ((k : ℕ)
        → 167772161 ≤ k
        → k < m
        → (ends_in_zero (v4 k) ≡ true)
          ⊎ ¬ IsFree parse print
              (request parse print "edpm0" "internalapi" subnet [] invalid)
              (v4 k))
unfolding string_eq is_valid ends_in_zero nat_eq
assign_ip-lowest_example =
    assign_ip-lowest parse print "edpm0" "internalapi" subnet [] invalid refl well_formed
      (record { start = "10.0.0.1"; end = "10.0.0.9" }) [] 167772161 167772169 refl refl refl
      parse_valid (omega arith) 167772162 (omega arith) (omega arith) refl second-IsFree

-- The range is the last address, which is excluded.
abbrev last_subnet : Subnet
last_subnet = record subnet {
  allocation_ranges = record { start = "255.255.255.255"; end = "255.255.255.255" } ∷ [];
  exclude_addresses = "255.255.255.255" ∷ [];
}

abbrev last_asked : AssignIpDetails
last_asked = request parse print "edpm0" "internalapi" last_subnet [] invalid

last-IsWellFormed : IsWellFormed parse print last_asked
unfolding string_eq
last-IsWellFormed = (((v4 4294967295, refl), tt), tt)

last_barred : skips (prepared parse print last_asked) (v4 4294967295) ≡ true
unfolding skips collect_excluded is_in addr_eq string_eq
last_barred = refl

only_last :
    (m : ℕ)
    → 4294967295 ≤ m
    → m ≤ 4294967295
    → skips (prepared parse print last_asked) (v4 m) ≡ true
only_last m p q = let e : m ≡ 4294967295 = omega arith in rw e last_barred

assign_ip-zero_address_example :
    (assign_ip parse print last_asked).1 ≡ ok (ip_address parse print last_asked invalid)
unfolding string_eq is_valid
assign_ip-zero_address_example =
    assign_ip-zero_address parse print "edpm0" "internalapi" last_subnet [] invalid refl
      last-IsWellFormed (record { start = "255.255.255.255"; end = "255.255.255.255" }) []
      4294967295 4294967295 refl refl refl parse_valid (omega arith) (omega arith) only_last
