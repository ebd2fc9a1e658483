-- ===== src/Admission/NetConfigs.antt =====
-- apis/network/v1beta1/netconfig_webhook.go: the handlers of the webhook of NetConfigs, and the
-- checks of all networks and against the previous object.
use infra_operator.Base.{
  ℕ, suc, String, Bool, true, false, Option, none, some, List, [], ◌∷◌, ◌++◌, ◌==◌, string_eq,
  nat_eq, length, ltb, if◌then◌else◌, ◌⊎◌, inl, inr,
}
use infra_operator.Ipam.{Subnet}
use infra_operator.NetConfig.{Network}
use infra_operator.Admission.{
  child, index, FieldPath, ◌!◌, dupe_network_name, dupe_dns_domain, invalid_dns_domain,
  network_changed, subnet_parameter_changed, vlan_changed, FieldError, error, Checks, Elements,
  valiate_uniq_element, NetConfigItem, already_there, unable_to_convert, still_in_use, Verdict,
  admitted, refused, get_net_config, get_ip_sets, no_errors,
}
use infra_operator.Admission.Names.{validate_dns_domain}
use infra_operator.Admission.Networks.{find, Subnets, valiate_subnet}

module _ (c : Checks) where
  unfoldable pub valiate_subnets : List Subnet → ℕ → Elements → Elements → FieldPath → Subnets
  valiate_subnets [] i names cidrs p = record { names = names; cidrs = cidrs; errors = [] }
  valiate_subnets (s ∷ ss) i names cidrs p =
      let r = valiate_subnet c s names cidrs (p ! index i) in
      let rest = valiate_subnets ss (suc i) r.names r.cidrs p in
      record rest { errors = r.errors ++ rest.errors }

  -- One round of the loop: `netNames`, `netCIDR` and the errors.
  unfoldable pub valiate_network : Network → Elements → Elements → FieldPath → Subnets
  valiate_network n names cidrs p =
      let (names', twice) = valiate_uniq_element names n.name p "name" dupe_network_name in
      let domain =
        if validate_dns_domain n.dns_domain
        then []
        else error (p ! child "dnsDomain" ! child "dnsDomain") n.dns_domain
            (invalid_dns_domain n.dns_domain) in
      let (names'', again) =
        valiate_uniq_element names' n.dns_domain p "dnsDomain" dupe_dns_domain in
      let r = valiate_subnets n.subnets 0 [] cidrs (p ! child "subnets") in
      record { names = names''; cidrs = r.cidrs; errors = twice ++ (domain ++ (again ++ r.errors)) }

  unfoldable pub valiate_all : List Network → ℕ → Elements → Elements → FieldPath → List FieldError
  valiate_all [] i names cidrs p = []
  valiate_all (n ∷ ns) i names cidrs p =
      let r = valiate_network n names cidrs (p ! child "networks" ! index i) in
      r.errors ++ valiate_all ns (suc i) r.names r.cidrs p

  unfoldable pub valiate_networks : List Network → FieldPath → List FieldError
  valiate_networks ns p = valiate_all ns 0 [] [] p

unfoldable pub same_vlan : Option ℕ → Option ℕ → Bool
same_vlan none none = true
same_vlan (some v) (some w) = v == w
same_vlan _ _ = false

-- The loop over the subnets of an old network, and whether it returned from the whole check.
unfoldable pub changed_subnets :
    String → List Subnet → List Subnet → ℕ → FieldPath → List FieldError × Bool
changed_subnets net subnets [] i p = ([], false)
changed_subnets net subnets (o ∷ os) i p =
    let q = p ! index i in
    let rest = changed_subnets net subnets os (suc i) p in
    elim (find (λ s. s.name == o.name) subnets) [
      | none ↦ (error (q ! child "name") net (subnet_parameter_changed "name" o.name), true)
      | some s ↦ (
        (if o.cidr == s.cidr
              then []
              else error (q ! child "cidr") net (subnet_parameter_changed "cidr" o.cidr))
            ++ ((if same_vlan o.vlan s.vlan
                  then []
                  else error (q ! child "vlan") net (vlan_changed o.vlan))
                ++ rest.0),
        rest.1,
      )
    ]

unfoldable pub changed_from : List Network → List Network → ℕ → FieldPath → List FieldError
changed_from networks [] i p = []
changed_from networks (o ∷ os) i p =
    let q = p ! child "networks" ! index i in
    let rest = changed_from networks os (suc i) p in
    elim (find (λ n. n.name == o.name) networks) [
      | none ↦ error (q ! child "name") o.name (network_changed o.name)
      | some n ↦
          let (es, stopped) = changed_subnets o.name n.subnets o.subnets 0 (q ! child "subnets") in
          if stopped then es else es ++ rest
    ]

unfoldable pub valiate_networks_changed : List Network → List Network → FieldPath → List FieldError
valiate_networks_changed networks old p = changed_from networks old 0 p

abbrev pub spec_path : FieldPath
spec_path = child "spec" ∷ []

module _ (c : Checks) where
  unfoldable pub validate_create : String ⊎ List NetConfigItem → NetConfigItem → Verdict
  validate_create listed r = elim (get_net_config listed) [
    | inl e ↦ refused e
    | inr (some other) ↦ refused (already_there other.name)
    | inr none ↦ no_errors (valiate_networks c r.networks spec_path)
  ]

  -- The old object is none where it is no NetConfig.
  unfoldable pub validate_update {ℓ} :
      {A : Type ℓ} → String ⊎ List A → NetConfigItem → Option NetConfigItem → Verdict
  validate_update ipsets r none = refused unable_to_convert
  validate_update ipsets r (some old) = elim (get_ip_sets ipsets) [
    | inl e ↦ refused e
    | inr items ↦ no_errors (
        valiate_networks c r.networks spec_path
        ++ (if ltb 0 (length items)
            then valiate_networks_changed r.networks old.networks spec_path
            else []))
  ]

unfoldable pub validate_delete {ℓ} : {A : Type ℓ} → String ⊎ List A → Verdict
validate_delete ipsets = elim (get_ip_sets ipsets) [
  | inl e ↦ refused e
  | inr items ↦ if ltb 0 (length items) then refused (still_in_use (length items)) else admitted
]
