-- ===== src/IpSet/Tests.antt =====
-- One network and an IPSet that asks for an address in it (ipset_controller.go).
use infra_operator.Base.{
  ℕ, Bool, ◌≡◌, ◌⊎◌, inr, refl, ap, ◌<>◌, String, true, false, Option, none, some, List, [], ◌∷◌,
  ◌==◌, string_eq, nat_eq, All, if◌then◌else◌,
}
use infra_operator.Base.StringMap.{StringMap, empty, set}
use infra_operator.Netip.{Addr, invalid, v4, v6, addr_eq, steps_left, addr_le, next, is_valid}
use infra_operator.Ipam.{
  Subnet, IpAddress, ReservationMap, lookup, assign_ip, build_excluded, build_reserved,
  collect_excluded, collect_reserved, is_in, skips, search_range, iterate_for_assignment,
}
use infra_operator.NetConfig.{no_network, Network, get_net, find_subnet, get_net_and_subnet}
use infra_operator.IpSet.{
  lookup_failed, IpSetReservation, Functions, IpSetNetwork, Progress, insert, parse_fixed_ip,
  new_address, add_network, add_networks, got, not_found, ensure_reservation, status_entry,
  ipam_label_key,
}
use infra_operator.IpSet.Stable.{HasAddress, add_networks-HasAddress, ensure_reservation-keeps}
use infra_operator.IpSet.Reconcile.{is_unknown, is_false, reservation_mismatch, reconcile_normal}
use infra_operator.IpSet.Mismatch.{reconcile_normal-reports_mismatch}
use infra_operator.IpSet.Fresh.{IsNew, ensure_reservation-IsKeptOrNew}
use infra_operator.IpSet.Deletion.{
  reservation, updated, IsReleasedBehind, reconcile_delete, reconcile_delete-IsReleasedBehind,
}

abbrev parse : String → Option Addr
parse s =
    if s == "10.0.0.1"
    then some (v4 167772161)
    else if s == "10.0.0.2"
    then some (v4 167772162)
    else if s == "10.0.0.9"
    then some (v4 167772169)
    else none

abbrev print : Addr → String
print invalid = "invalid IP"
print (v4 a) = if a == 167772161 then "10.0.0.1" else "10.0.0.2"
print (v6 a z) = "another address"

abbrev functions : Functions
functions = record {
  parse = parse;
  print = print;
  equal_fold = λ s t. s == t;
  to_lower = λ s. s;
  is_ipv6 = λ s. false;
  merge = λ m n k. elim (m k) [ none ↦ n k | some v ↦ some v ];
}

abbrev subnet : Subnet
subnet = record {
  name = "subnet1";
  cidr = "10.0.0.0/24";
  dns_domain = none;
  vlan = none;
  allocation_ranges = record { start = "10.0.0.1"; end = "10.0.0.9" } ∷ [];
  exclude_addresses = [];
  gateway = none;
  routes = [];
}

abbrev network : Network
network = record {
  name = "internalapi";
  dns_domain = "internalapi.example.com";
  mtu = 1500;
  subnets = subnet ∷ [];
  service_network = "";
}

abbrev wanted : IpSetNetwork
wanted = record {
  name = "internalapi";
  subnet_name = "subnet1";
  fixed_ip = none;
  default_route = none;
}

abbrev entry : String → IpAddress
entry s = record { network = "internalapi"; subnet = "subnet1"; address = s }

-- Another IPSet holds the first address.
abbrev other : ReservationMap
other = ("internalapi", entry "10.0.0.1") ∷ []

abbrev accept : StringMap → ReservationMap → String ⊎ ReservationMap
accept labels m = inr m

abbrev start : ReservationMap → Progress
start m = record { spec = m; labels = empty; status = [] }

abbrev others : List ReservationMap
others = other ∷ []

abbrev config : List Network
config = network ∷ []

abbrev asked : List IpSetNetwork
asked = wanted ∷ []

allocates : add_networks functions "edpm0" others config asked (start []) ≡ (
  record {
    spec = ("internalapi", entry "10.0.0.2") ∷ [];
    labels = set (ipam_label_key <> ("/" <> "internalapi")) "subnet1" empty;
    status = status_entry functions wanted network subnet (entry "10.0.0.2") ∷ [];
  },
  none,
)
unfolding add_networks add_network get_net_and_subnet get_net find_subnet insert new_address
    parse_fixed_ip assign_ip build_excluded build_reserved collect_excluded collect_reserved lookup
    is_in skips search_range iterate_for_assignment addr_le next addr_eq steps_left is_valid
    string_eq nat_eq
allocates = refl

add_networks-HasAddress_example :
    All
      (HasAddress functions "edpm0" others config
        (add_networks functions "edpm0" others config asked (start [])).0.spec)
      asked
add_networks-HasAddress_example =
    add_networks-HasAddress functions "edpm0" others config asked (start [])
      (ap (λ r. r.1) allocates)

abbrev kept : ReservationMap
kept = ("internalapi", entry "10.0.0.9") ∷ []

ensure_reservation-keeps_example :
    (labels : StringMap) × (sent : ReservationMap) × ((ensure_reservation functions accept "edpm0"
        others config asked []
        (got kept)).sent
      ≡ some (labels, sent))
    × (lookup "internalapi" sent ≡ some (entry "10.0.0.9"))
unfolding lookup string_eq
ensure_reservation-keeps_example =
    ensure_reservation-keeps functions accept "edpm0" others config asked [] kept "internalapi"
      (entry "10.0.0.9") refl

ensure_reservation-IsKeptOrNew_example :
    (lookup "internalapi" [] ≡ some (entry "10.0.0.2"))
    ⊎ IsNew functions others "internalapi" (entry "10.0.0.2")
unfolding ensure_reservation lookup string_eq
ensure_reservation-IsKeptOrNew_example =
    ensure_reservation-IsKeptOrNew functions others "edpm0" config accept asked [] (got [])
      (("internalapi", entry "10.0.0.2") ∷ [])
      (set (ipam_label_key <> ("/" <> "internalapi")) "subnet1" empty) "internalapi"
      (entry "10.0.0.2") (ap (λ r. some (r.0.labels, r.0.spec)) allocates) refl

-- A request for a network that is not configured.
abbrev unknown : IpSetNetwork
unknown = record wanted { name = "storage" }

not_configured :
    (add_networks functions "edpm0" others config (unknown ∷ []) (start [])).1
    ≡ some (lookup_failed (no_network "storage"))
unfolding add_networks add_network get_net_and_subnet get_net string_eq
not_configured = refl

abbrev no_sort :
    (IpSetReservation → IpSetReservation → Bool) → List IpSetReservation → List IpSetReservation
no_sort less rs = rs

reconcile_normal-reports_mismatch_example :
    let done =
      reconcile_normal functions accept no_sort "edpm0"
        (unknown ∷ [])
        (inr (config ∷ []))
        (inr others)
        not_found in
    (done.result ≡ none)
    × ((n : ℕ) × (done.conditions.reservation_ready ≡ is_false (reservation_mismatch n 1)))
    × (done.conditions.ready ≡ is_unknown)
reconcile_normal-reports_mismatch_example =
    reconcile_normal-reports_mismatch functions accept no_sort (λ l m. refl) "edpm0" (unknown ∷ [])
      config [] others (lookup_failed (no_network "storage")) not_configured

-- Functions on the finalizers, where one alone is known.
abbrev with_finalizer : List String → List String × Bool
with_finalizer fs = ("ipset" ∷ fs, true)

abbrev without_finalizers : List String → List String × Bool
without_finalizers fs = ([], true)

reconcile_delete-IsReleasedBehind_example :
    IsReleasedBehind with_finalizer without_finalizers
      (λ fs. updated)
      ("ipset" ∷ [])
      (reservation ("ipset" ∷ []))
      (reconcile_delete with_finalizer without_finalizers
        (λ fs. updated)
        ("ipset" ∷ [])
        (reservation ("ipset" ∷ [])))
reconcile_delete-IsReleasedBehind_example =
    reconcile_delete-IsReleasedBehind with_finalizer without_finalizers (λ fs. updated)
      ("ipset" ∷ []) (reservation ("ipset" ∷ []))
