-- ===== src/Admission/Tests.antt =====
-- One NetConfig and two IPSets at the webhooks (netconfig_webhook.go, ipset_webhook.go).
use infra_operator.Base.{
  ℕ, ◌+◌, ◌*◌, ◌^◌, String, ◌≡◌, ◌≢◌, ◌↔◌, inr, refl, true, false, Option, none, some, List, [],
  ◌∷◌, ◌==◌, string_eq, nat_eq, if◌then◌else◌, All,
}
use native.Mathlib.Decide.{ℕ_discrete}
use infra_operator.Netip.{Addr, invalid, v4, v6, is_valid, addr_le, next, addr_eq, steps_left}
use infra_operator.Inet.{Block, is_v4, holds}
use infra_operator.Ipam.{
  AllocationRange, Subnet, ReservationMap, fixed_reserved, lookup, assign_ip, build_excluded,
  build_reserved, collect_excluded, collect_reserved, is_in, skips, search_range,
  iterate_for_assignment, fixed_ip_exists,
}
use infra_operator.Base.StringMap.{empty}
use infra_operator.NetConfig.{Network, get_net, find_subnet, get_net_and_subnet}
use infra_operator.IpSet.{
  IpSetNetwork, Functions, Progress, ip_failed, insert, parse_fixed_ip, new_address, add_network,
  add_networks,
}
use infra_operator.Admission.{
  Family, ipv4, ipv6, unknown, Checks, NetConfigItem, admitted, valiate_uniq_element, position,
  valiate_address, get_net_config, no_errors, FieldPath, child,
}
use infra_operator.Admission.Names.{validate_dns_domain, is_label, is_top_level, split_points}
use infra_operator.Admission.Networks.{
  check_range, valiate_allocation_range, valiate_ranges, valiate_exclusions, valiate_routes,
  valiate_subnet_domain, valiate_members, valiate_subnet,
}
use infra_operator.Admission.NetConfigs
use infra_operator.Admission.NetConfigs.{
  spec_path, valiate_subnets, valiate_network, valiate_all, valiate_networks, changed_subnets,
  changed_from, valiate_networks_changed, same_vlan,
}
use infra_operator.Admission.IpSets
use infra_operator.Admission.IpSets.{
  IpSetItem, validate_network, validate_on_subnet, validate_address, validate_default_route,
  validate_rounds, validate_ip_set_network, multiple_routes, count_up, validate_ip_set_changed,
  changed_rounds, changed_parts, element, same_text, same_flag, same_network, same_networks,
}
use infra_operator.Admission.Ranges.{IsRangeOf, valiate_allocation_range_iff}
use infra_operator.Admission.Unique.{are_distinct, network_keys, all_cidrs}
use infra_operator.Admission.Kept.{
  KeepsNetwork, validate_create-are_distinct, validate_update-KeepsNetwork,
}
use infra_operator.Admission.Places.{IsIpamError, validate_create-IsIpamError}
use infra_operator.Admission.Changes.{IsKept, validate_ip_set_changed_iff, validate_update_returns}

abbrev parse : String → Option Addr
parse s =
    if s == "10.0.0.1"
    then some (v4 167772161)
    else if s == "10.0.0.9"
    then some (v4 167772169)
    else none

abbrev as_16 : Option Addr → Option ℕ
as_16 (some (v4 a)) = some (65535 * 2 ^ 32 + a)
as_16 _ = none

abbrev block : Block
block = record { four = true; number = 167772160; bits = 24 }

abbrev checks : Checks
checks = record {
  parse_ip = λ s. as_16 (parse s);
  parse_cidr = λ s. if s == "10.0.0.0/24" then some block else none;
  family = λ ip. if is_v4 ip then ipv4 else ipv6;
  cidr_family = λ b. if b.four then ipv4 else ipv6;
  equal_fold = λ s t. s == t;
}

abbrev allocation : AllocationRange
allocation = record { start = "10.0.0.1"; end = "10.0.0.9" }

abbrev subnet : Subnet
subnet = record {
  name = "subnet1";
  cidr = "10.0.0.0/24";
  dns_domain = none;
  vlan = some 20;
  allocation_ranges = allocation ∷ [];
  exclude_addresses = [];
  gateway = some "10.0.0.1";
  routes = [];
}

abbrev network : Network
network = record {
  name = "ctlplane";
  dns_domain = "ctlplane.example.com";
  mtu = 1500;
  subnets = subnet ∷ [];
  service_network = "ctlplane";
}

abbrev config : NetConfigItem
config = record { name = "netconfig"; networks = network ∷ [] }

abbrev wanted : IpSetNetwork
wanted = record {
  name = "ctlplane";
  subnet_name = "subnet1";
  fixed_ip = some "10.0.0.9";
  default_route = some true;
}

abbrev ip_set : IpSetItem
ip_set = record { networks = wanted ∷ []; immutable = false; deleted = false }

abbrev order : ℕ → List Family
order i = ipv4 ∷ ipv6 ∷ unknown ∷ []

config-admitted : NetConfigs.validate_create checks (inr []) config ≡ admitted
unfolding NetConfigs.validate_create get_net_config no_errors valiate_networks valiate_all
    valiate_network valiate_subnets valiate_subnet valiate_uniq_element position valiate_members
    valiate_address valiate_ranges valiate_allocation_range check_range valiate_exclusions
    valiate_routes valiate_subnet_domain validate_dns_domain is_label is_top_level split_points
    is_v4 holds string_eq nat_eq ℕ_discrete
config-admitted = refl

ip_set-admitted : IpSets.validate_create checks order (inr (config ∷ [])) ip_set ≡ admitted
unfolding IpSets.validate_create get_net_config no_errors validate_ip_set_network validate_rounds
    valiate_uniq_element position validate_network validate_on_subnet validate_address
    validate_default_route valiate_address multiple_routes count_up is_v4 holds string_eq nat_eq
    ℕ_discrete
ip_set-admitted = refl

-- There is an IPSet.
abbrev some_ip_set : String
some_ip_set = "edpm0"

-- The update that changes nothing.
same-admitted :
    NetConfigs.validate_update checks (inr (some_ip_set ∷ [])) config (some config) ≡ admitted
unfolding NetConfigs.validate_update no_errors valiate_networks_changed changed_from changed_subnets
    same_vlan valiate_networks valiate_all valiate_network valiate_subnets valiate_subnet
    valiate_uniq_element position valiate_members valiate_address valiate_ranges
    valiate_allocation_range check_range valiate_exclusions valiate_routes valiate_subnet_domain
    validate_dns_domain is_label is_top_level split_points is_v4 holds string_eq nat_eq ℕ_discrete
same-admitted = refl

abbrev range_path : FieldPath
range_path = child "spec" ∷ []

abbrev first : ℕ
first = 65535 * 2 ^ 32 + 167772161

abbrev last : ℕ
last = 65535 * 2 ^ 32 + 167772169

range-admitted : valiate_allocation_range checks allocation block range_path ≡ []
unfolding valiate_allocation_range check_range is_v4 holds string_eq nat_eq ℕ_discrete
range-admitted = refl

parsed_first : checks.parse_ip allocation.start ≡ some first
unfolding string_eq
parsed_first = refl

parsed_last : checks.parse_ip allocation.end ≡ some last
unfolding string_eq
parsed_last = refl

valiate_allocation_range_iff_example :
    (valiate_allocation_range checks allocation block range_path ≡ [])
    ↔ IsRangeOf checks block allocation
valiate_allocation_range_iff_example =
    valiate_allocation_range_iff checks allocation block range_path

same_form : is_v4 (65535 * 2 ^ 32 + 167772165) ≡ is_v4 first
unfolding is_v4 nat_eq ℕ_discrete
same_form = refl

abbrev no_items : List NetConfigItem
no_items = []

validate_create-are_distinct_example :
    (no_items ≡ [])
    × (are_distinct (network_keys config.networks) ≡ true)
    × (are_distinct (all_cidrs config.networks) ≡ true)
validate_create-are_distinct_example =
    validate_create-are_distinct checks no_items config config-admitted

validate_update-KeepsNetwork_example : All (KeepsNetwork config.networks) config.networks
validate_update-KeepsNetwork_example =
    validate_update-KeepsNetwork checks some_ip_set [] config config same-admitted

validate_ip_set_changed_iff_example :
    (validate_ip_set_changed (wanted ∷ []) (wanted ∷ []) spec_path ≡ some [])
    ↔ All (IsKept (wanted ∷ [])) (wanted ∷ [])
validate_ip_set_changed_iff_example =
    validate_ip_set_changed_iff (wanted ∷ []) (wanted ∷ []) spec_path

-- The networks of the new object are all gone.
validate_update_returns_example :
    IpSets.validate_update checks order
      (inr (config ∷ []))
      (record ip_set { networks = [] })
      (some ip_set)
    ≢ none
validate_update_returns_example =
    validate_update_returns checks order config ip_set (record ip_set { networks = [] })
      (inr (config ∷ [])) ip_set-admitted

abbrev functions : Functions
functions = record {
  parse = parse;
  print = λ a. "10.0.0.9";
  equal_fold = λ s t. s == t;
  to_lower = λ s. s;
  is_ipv6 = λ s. false;
  merge = λ m n. m;
}

abbrev start : Progress
start = record { spec = []; labels = empty; status = [] }

-- Another IPSet of the namespace has the address that is asked for.
abbrev taken : List ReservationMap
taken =
    (("ctlplane", record { network = "ctlplane"; subnet = "subnet1"; address = "10.0.0.9" }) ∷ [])
    ∷ []

agree :
    (s : String) (ip : ℕ) (o : Option Addr)
    → parse s ≡ o
    → as_16 o ≡ some ip
    → (a : Addr) × (parse s ≡ some a) × (is_valid a ≡ true)
unfolding is_valid
agree s ip none e h = cc
agree s ip (some invalid) e h = cc
agree s ip (some (v4 a)) e h = (v4 a, e, refl)
agree s ip (some (v6 a z)) e h = cc

loop_fails :
    (add_networks functions "edpm0" taken config.networks ip_set.networks start).1
    ≡ some (ip_failed (fixed_reserved (v4 167772169)))
unfolding add_networks add_network get_net_and_subnet get_net find_subnet insert new_address
    parse_fixed_ip assign_ip build_excluded build_reserved collect_excluded collect_reserved lookup
    fixed_ip_exists is_in skips search_range iterate_for_assignment addr_le next addr_eq steps_left
    is_valid string_eq nat_eq
loop_fails = refl

validate_create-IsIpamError_example : IsIpamError (ip_failed (fixed_reserved (v4 167772169)))
validate_create-IsIpamError_example =
    validate_create-IsIpamError checks functions refl (λ s ip. agree s ip (parse s) refl) order
      config ip_set "edpm0" taken start (ip_failed (fixed_reserved (v4 167772169))) ip_set-admitted
      loop_fails
