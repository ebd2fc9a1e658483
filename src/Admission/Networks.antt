-- ===== src/Admission/Networks.antt =====
-- apis/network/v1beta1/netconfig_webhook.go: which NetConfigs the webhook admits.
use infra_operator.Base.{
  ℕ, suc, String, Bool, true, false, ◌&&◌, not, Option, none, some, List, [], ◌∷◌, ◌++◌, ◌==◌,
  string_eq, nat_eq, ltb, if◌then◌else◌,
}
use infra_operator.Inet.{Block, holds}
use infra_operator.Ipam.{AllocationRange, Route, Subnet}
use infra_operator.NetConfig.{Network, to_default_service_network}
use infra_operator.Admission.{
  child, index, FieldPath, ◌!◌, not_ip_addr, invalid_cidr, mixed_address_family, not_in_cidr,
  invalid_range, dupe_network_name, dupe_cidr, dupe_dns_domain, invalid_dns_domain, range,
  FieldError, error, is_ipv4, is_ipv6, Checks, Elements, valiate_uniq_element, valiate_address,
}
use infra_operator.Admission.Names.{validate_dns_domain}

-- The service networks that `Default` fills in.
unfoldable pub default_networks : (String → String) → List Network → List Network
default_networks to_lower [] = []
default_networks to_lower (n ∷ ns) =
    (if n.service_network == ""
      then record n { service_network = to_default_service_network to_lower n.name }
      else n)
    ∷ default_networks to_lower ns

-- `slices.IndexFunc`, and the element at the index.
abbrev pub find {ℓ} : {A : Type ℓ} → (A → Bool) → List A → Option A
find p [] = none
find p (x ∷ xs) = if p x then some x else find p xs

-- `subnetNames`, `netCIDR` and the errors.
pub record Subnets : Type 0 where
  pub names : Elements
  pub cidrs : Elements
  pub errors : List FieldError

module _ (c : Checks) where
  -- Both ends are addresses.
  unfoldable pub check_range : AllocationRange → ℕ → ℕ → Block → FieldPath → List FieldError
  check_range r first last block p =
      (if is_ipv4 (c.cidr_family block) && not (is_ipv4 (c.family first) && is_ipv4 (c.family last))
        then record { path = p; value = range r; detail = mixed_address_family } ∷ []
        else [])
      ++ ((if is_ipv6 (c.cidr_family block)
              && not (is_ipv6 (c.family first) && is_ipv6 (c.family last))
            then record { path = p; value = range r; detail = mixed_address_family } ∷ []
            else [])
          ++ ((if holds block first
                then []
                else error (p ! child "start") r.start (not_in_cidr block))
              ++ ((if holds block last
                    then []
                    else error (p ! child "end") r.end (not_in_cidr block))
                  ++ (if ltb first last
                      then []
                      else error (p ! child "start") r.start (invalid_range r.start r.end)
                        ++ error (p ! child "end") r.end (invalid_range r.start r.end)))))

  unfoldable pub valiate_allocation_range : AllocationRange → Block → FieldPath → List FieldError
  valiate_allocation_range r block p =
      let no_start = error (p ! child "start") r.start not_ip_addr in
      let no_end = error (p ! child "end") r.end not_ip_addr in
      elim (c.parse_ip r.start) [
        | none ↦ elim (c.parse_ip r.end) [ none ↦ no_start ++ no_end | some last ↦ no_start ]
        | some first ↦ elim (c.parse_ip r.end) [
          | none ↦ no_end
          | some last ↦ check_range r first last block p
        ]
      ]

  unfoldable pub valiate_ranges : List AllocationRange → ℕ → Block → FieldPath → List FieldError
  valiate_ranges [] i block p = []
  valiate_ranges (r ∷ rs) i block p =
      valiate_allocation_range r block (p ! child "allocationRanges" ! index i)
      ++ valiate_ranges rs (suc i) block p

  unfoldable pub valiate_exclusions : List String → ℕ → Block → FieldPath → List FieldError
  valiate_exclusions [] i block p = []
  valiate_exclusions (s ∷ ss) i block p =
      valiate_address c s block (p ! child "excludeAddresses" ! index i)
      ++ valiate_exclusions ss (suc i) block p

  -- The loop over the routes, and whether it returned from the whole check.
  unfoldable pub valiate_routes : List Route → ℕ → Block → FieldPath → List FieldError × Bool
  valiate_routes [] i block p = ([], false)
  valiate_routes (r ∷ rs) i block p =
      let q = p ! child "routes" ! index i in
      elim (c.parse_cidr r.destination) [
        | none ↦ (error (q ! child "destination") r.destination invalid_cidr, true)
        | some d ↦
            let (es, stopped) = valiate_routes rs (suc i) block p in
            (valiate_address c r.nexthop block (q ! child "nexthop") ++ es, stopped)
      ]

  -- The subnet's domain, behind the routes.
  unfoldable pub valiate_subnet_domain :
      Option String → Elements → FieldPath → Elements × List FieldError
  valiate_subnet_domain none names p = (names, [])
  valiate_subnet_domain (some d) names p =
      let (after, es) = valiate_uniq_element names d p "dnsDomain" dupe_dns_domain in
      (
        after,
        (if validate_dns_domain d
              then []
              else error (p ! child "dnsDomain" ! child "dnsDomain") d (invalid_dns_domain d))
            ++ es,
      )

  -- The gateway, the ranges and the exclusions, in the subnet's block.
  unfoldable pub valiate_members : Subnet → Block → FieldPath → List FieldError
  valiate_members s block p =
      elim s.gateway [ none ↦ [] | some g ↦ valiate_address c g block (p ! child "gateway") ]
      ++ (valiate_ranges s.allocation_ranges 0 block p
          ++ valiate_exclusions s.exclude_addresses 0 block p)

  unfoldable pub valiate_subnet : Subnet → Elements → Elements → FieldPath → Subnets
  valiate_subnet s names cidrs p =
      let (names', twice) = valiate_uniq_element names s.name p "name" dupe_network_name in
      let (cidrs', again) = valiate_uniq_element cidrs s.cidr p "name" dupe_cidr in
      elim (c.parse_cidr s.cidr) [
        | none ↦ record {
          names = names';
          cidrs = cidrs';
          errors = twice ++ (again ++ error (p ! child "cidr") s.cidr invalid_cidr);
        }
        | some block ↦
            let (routes, stopped) = valiate_routes s.routes 0 block p in
            let so_far = twice ++ (again ++ (valiate_members s block p ++ routes)) in
            let (names'', domain) = valiate_subnet_domain s.dns_domain names' p in
            if stopped
            then record { names = names'; cidrs = cidrs'; errors = so_far }
            else record { names = names''; cidrs = cidrs'; errors = so_far ++ domain }
      ]
