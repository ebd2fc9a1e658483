-- ===== src/Admission/IpSets.antt =====
-- apis/network/v1beta1/ipset_webhook.go: which IPSets the webhook admits. The order in which Go
-- iterates over its map of counts is a parameter, one for each round.
use infra_operator.Base.{
  ℕ, zero, suc, String, Bool, true, false, not, ◌&&◌, ◌||◌, Option, none, some, List, [], ◌∷◌, ◌++◌,
  ◌==◌, string_eq, ltb, if◌then◌else◌, ◌⊎◌, inl, inr,
}
use infra_operator.Inet.{Block}
use infra_operator.Ipam.{Subnet}
use infra_operator.NetConfig.{Network}
use infra_operator.IpSet.{IpSetNetwork}
use infra_operator.Admission.{
  child, index, FieldPath, ◌!◌, Family, ipv4, ipv6, unknown, invalid_cidr, dupe_network_name,
  network_not_found, subnet_not_in_network, network_changed, subnet_changed, fixed_ip_changed,
  default_route_changed, multi_default_route, no_default_route, FieldError, error, Checks, Elements,
  valiate_uniq_element, valiate_address, NetConfigItem, not_there, unable_to_convert,
  networks_immutable, Verdict, admitted, refused, get_net_config, no_errors,
}
use infra_operator.Admission.Networks.{find}
use infra_operator.Admission.NetConfigs.{spec_path}

-- `defaultRouteCount`
abbrev pub Counts : Type 0
Counts = Family → ℕ

unfoldable pub count_up : Family → Counts → Counts
count_up ipv4 n ipv4 = suc (n ipv4)
count_up ipv4 n ipv6 = n ipv6
count_up ipv4 n unknown = n unknown
count_up ipv6 n ipv4 = n ipv4
count_up ipv6 n ipv6 = suc (n ipv6)
count_up ipv6 n unknown = n unknown
count_up unknown n ipv4 = n ipv4
count_up unknown n ipv6 = n ipv6
count_up unknown n unknown = suc (n unknown)

-- The families that more than one network asks a default route of.
unfoldable pub multiple_routes : String → FieldPath → List Family → Counts → List FieldError
multiple_routes net p [] count = []
multiple_routes net p (fam ∷ fams) count =
    (if ltb 1 (count fam)
      then error (p ! child "defaultRoute") net (multi_default_route fam)
      else [])
    ++ multiple_routes net p fams count

abbrev pub is_requested : Option Bool → Bool
is_requested none = false
is_requested (some b) = b

abbrev pub is_set {ℓ} : {A : Type ℓ} → Option A → Bool
is_set none = false
is_set (some x) = true

-- `Gateway == nil || *Gateway == ""`
abbrev pub no_gateway : Option String → Bool
no_gateway none = true
no_gateway (some g) = g == ""

-- What one round of the loop does to the counts, its errors, and whether it returns.
pub record Round : Type 0 where
  pub count : Counts
  pub errors : List FieldError
  pub stops : Bool

module _ (c : Checks) where
  unfoldable pub validate_address : IpSetNetwork → Block → FieldPath → List FieldError
  validate_address n block p = elim n.fixed_ip [
    | none ↦ []
    | some ip ↦ valiate_address c ip block (p ! child "fixedIP")
  ]

  unfoldable pub validate_default_route :
      IpSetNetwork → Subnet → Family → List Family → Counts → FieldPath → Counts × List FieldError
  validate_default_route n s fam order count p =
      let after = count_up fam count in
      if is_requested n.default_route
      then (
        after,
        multiple_routes n.name p order after
            ++ (if no_gateway s.gateway
                then error (p ! child "defaultRoute") n.name (no_default_route s.name)
                else []),
      )
      else (count, [])

  unfoldable pub validate_on_subnet :
      IpSetNetwork → Subnet → List Family → Counts → FieldPath → Round
  validate_on_subnet n s order count p =
      if is_set n.fixed_ip || is_set n.default_route
      then (elim (c.parse_cidr s.cidr) [
        | none ↦ record {
          count = count;
          errors = error (p ! child "cidr") s.cidr invalid_cidr;
          stops = true;
        }
        | some block ↦
            let (after, routes) = validate_default_route n s (c.cidr_family block) order count p in
            record { count = after; errors = validate_address n block p ++ routes; stops = false }
      ])
      else record { count = count; errors = []; stops = false }

  unfoldable pub validate_network :
      List Network → IpSetNetwork → List Family → Counts → FieldPath → Round
  validate_network netcfg n order count p = elim (find (λ m. c.equal_fold m.name n.name) netcfg) [
    | none ↦ record {
      count = count;
      errors = error (p ! child "name") n.name (network_not_found n.name);
      stops = false;
    }
    | some m ↦ elim (find (λ s. c.equal_fold s.name n.subnet_name) m.subnets) [
      | some s ↦ validate_on_subnet n s order count p
      | none ↦ record {
        count = count;
        errors =
            error (p ! child "subnetName") n.subnet_name
              (subnet_not_in_network n.subnet_name n.name);
        stops = false;
      }
    ]
  ]

  unfoldable pub validate_rounds :
      (ℕ → List Family)
      → List Network
      → List IpSetNetwork
      → ℕ
      → Elements
      → Counts
      → FieldPath
      → List FieldError
  validate_rounds order netcfg [] i names count p = []
  validate_rounds order netcfg (n ∷ ns) i names count p =
      let q = p ! child "networks" ! index i in
      let (names', twice) = valiate_uniq_element names n.name q "name" dupe_network_name in
      let r = validate_network netcfg n (order i) count q in
      let rest = validate_rounds order netcfg ns (suc i) names' r.count p in
      twice ++ (r.errors ++ (if r.stops then [] else rest))

  unfoldable pub validate_ip_set_network :
      (ℕ → List Family) → List Network → List IpSetNetwork → FieldPath → List FieldError
  validate_ip_set_network order netcfg ns p = validate_rounds order netcfg ns 0 [] (λ fam. 0) p

unfoldable pub same_text : Option String → Option String → Bool
same_text none none = true
same_text (some s) (some t) = s == t
same_text _ _ = false

unfoldable pub same_flag : Option Bool → Option Bool → Bool
same_flag none none = true
same_flag (some true) (some true) = true
same_flag (some false) (some false) = true
same_flag _ _ = false

-- `networks[i]`; it panics behind the end.
unfoldable pub element {ℓ} : {A : Type ℓ} → List A → ℕ → Option A
element [] i = none
element (x ∷ xs) zero = some x
element (x ∷ xs) (suc i) = element xs i

-- The fixed address and the default route, behind the subnet.
abbrev pub fixed_parts : IpSetNetwork → IpSetNetwork → FieldPath → List FieldError
fixed_parts o n p =
    (if same_text o.fixed_ip n.fixed_ip
      then []
      else error (p ! child "fixedIP") o.name fixed_ip_changed)
    ++ (if same_flag o.default_route n.default_route
        then []
        else error (p ! child "defaultRoute") o.name default_route_changed)

-- The errors of one old network against the new one of its name. None is a panic.
unfoldable pub changed_parts :
    List IpSetNetwork → IpSetNetwork → IpSetNetwork → ℕ → FieldPath → Option (List FieldError)
changed_parts networks o n i p =
    if o.subnet_name == n.subnet_name
    then some (fixed_parts o n p)
    else (elim (element networks i) [
      | none ↦ none
      | some m ↦ some (
          error (p ! child "subnetName") o.name (subnet_changed o.subnet_name m.subnet_name)
          ++ fixed_parts o n p)
    ])

unfoldable pub changed_rounds :
    List IpSetNetwork → List IpSetNetwork → ℕ → FieldPath → Option (List FieldError)
changed_rounds networks [] i p = some []
changed_rounds networks (o ∷ os) i p =
    let q = p ! child "networks" ! index i in
    let rest = changed_rounds networks os (suc i) p in
    elim (find (λ n. n.name == o.name) networks) [
      | none ↦ some (error (q ! child "name") o.name (network_changed o.name))
      | some n ↦ elim (changed_parts networks o n i q) [
        | none ↦ none
        | some es ↦ elim rest [ none ↦ none | some fs ↦ some (es ++ fs) ]
      ]
    ]

unfoldable pub validate_ip_set_changed :
    List IpSetNetwork → List IpSetNetwork → FieldPath → Option (List FieldError)
validate_ip_set_changed networks old p = changed_rounds networks old 0 p

-- `Semantic.DeepEqual` on `Spec.Networks`.
unfoldable pub same_network : IpSetNetwork → IpSetNetwork → Bool
same_network m n =
    m.name == n.name
    && m.subnet_name == n.subnet_name
    && same_text m.fixed_ip n.fixed_ip
    && same_flag m.default_route n.default_route

unfoldable pub same_networks : List IpSetNetwork → List IpSetNetwork → Bool
same_networks [] [] = true
same_networks (m ∷ ms) (n ∷ ns) = same_network m n && same_networks ms ns
same_networks _ _ = false

-- The IPSet, as far as its webhook reads it.
pub record IpSetItem : Type 0 where
  pub networks : List IpSetNetwork
  pub immutable : Bool
  pub deleted : Bool

module _ (c : Checks) (order : ℕ → List Family) where
  unfoldable pub validate_create : String ⊎ List NetConfigItem → IpSetItem → Verdict
  validate_create listed r = elim (get_net_config listed) [
    | inl e ↦ refused e
    | inr none ↦ refused not_there
    | inr (some cfg) ↦ no_errors (validate_ip_set_network c order cfg.networks r.networks spec_path)
  ]

  -- None is a panic. The old object is none where it is no IPSet.
  unfoldable pub validate_update :
      String ⊎ List NetConfigItem → IpSetItem → Option IpSetItem → Option Verdict
  validate_update listed r none = some (refused unable_to_convert)
  validate_update listed r (some old) =
      if old.immutable && not (same_networks old.networks r.networks)
      then some (refused networks_immutable)
      else if r.deleted
      then some admitted
      else (elim (get_net_config listed) [
        | inl e ↦ some (refused e)
        | inr none ↦ some (refused not_there)
        | inr (some cfg) ↦ elim (validate_ip_set_changed r.networks old.networks spec_path) [
          | none ↦ none
          | some es ↦
              some (
                no_errors (validate_ip_set_network c order cfg.networks r.networks spec_path ++ es))
        ]
      ])

-- `ValidateDelete`
unfoldable pub validate_delete : Verdict
validate_delete = admitted
