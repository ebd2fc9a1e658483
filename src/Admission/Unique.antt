-- ===== src/Admission/Unique.antt =====
-- `valiateUniqElement` over the loops of the webhooks: what admission says of names and CIDRs.
use infra_operator.Base.{
  append_nil, ℕ, suc, String, ◌≡◌, ◌↔◌, inl, inr, refl, Bool, true, false, not, ◌&&◌, none, List,
  [], ◌∷◌, ◌++◌, arith, string_eq, contains, Option-cases, Bool-cases,
}
use infra_operator.Ipam.{Subnet}
use infra_operator.NetConfig.{Network}
use infra_operator.IpSet.{IpSetNetwork}
use infra_operator.Admission.{
  FieldPath, Detail, Checks, Elements, position, valiate_uniq_element, dupe_network_name, dupe_cidr,
  dupe_dns_domain, ◌!◌, child, index, Family,
}
use infra_operator.Admission.Networks.{find, valiate_subnet, valiate_routes}
use infra_operator.Admission.NetConfigs.{
  valiate_subnets, valiate_network, valiate_all, valiate_networks,
}
use infra_operator.Admission.IpSets.{
  validate_on_subnet, validate_default_route, Counts, validate_rounds, validate_network,
  validate_ip_set_network,
}

-- The keys of a map of elements.
abbrev pub keys : Elements → List String
keys [] = []
keys ((n, p) ∷ es) = n ∷ keys es

-- No name of the list is a key, and none is there twice.
abbrev pub are_new : List String → List String → Bool
are_new known [] = true
are_new known (n ∷ ns) = not (contains known n) && are_new (n ∷ known) ns

-- A list without repetition.
abbrev pub are_distinct : List String → Bool
are_distinct ns = are_new [] ns

position_iff :
    (es : Elements) (n : String) → (position es n ≡ none) ↔ (contains (keys es) n ≡ false)
unfolding position
position_iff [] n = ground arith
position_iff ((m, p) ∷ es) n = ground (arith, position_iff es n)

-- Nothing is reported exactly of a new name, which then is a key.
pub valiate_uniq_element_sound :
    (es : Elements) (n : String) (p : FieldPath) (k : String) (t : String → FieldPath → Detail)
    → (valiate_uniq_element es n p k t).1 ≡ []
    → (contains (keys es) n ≡ false) × (keys (valiate_uniq_element es n p k t).0 ≡ n ∷ keys es)
unfolding valiate_uniq_element
valiate_uniq_element_sound es n p k t h = elim (Option-cases (position es n)) [
  | inl e ↦ ((position_iff es n).0 e, ground arith)
  | inr (q, e) ↦ ground arith
]

-- The names and the domains of networks, in the order in which they become keys.
abbrev pub network_keys : List Network → List String
network_keys [] = []
network_keys (n ∷ ns) = n.name ∷ n.dns_domain ∷ network_keys ns

abbrev pub cidrs_of : List Subnet → List String
cidrs_of [] = []
cidrs_of (s ∷ ss) = s.cidr ∷ cidrs_of ss

abbrev pub all_cidrs : List Network → List String
all_cidrs [] = []
all_cidrs (n ∷ ns) = cidrs_of n.subnets ++ all_cidrs ns

abbrev pub names_of : List IpSetNetwork → List String
names_of [] = []
names_of (n ∷ ns) = n.name ∷ names_of ns

module _ (c : Checks) where
  valiate_network-keys :
      (n : Network) (names cidrs : Elements) (p : FieldPath)
      → (valiate_network c n names cidrs p).errors ≡ []
      → (contains (keys names) n.name ≡ false)
        × (contains (n.name ∷ keys names) n.dns_domain ≡ false)
        × (keys (valiate_network c n names cidrs p).names ≡ n.dns_domain ∷ n.name ∷ keys names)
        × ((valiate_subnets c n.subnets 0 [] cidrs (p ! child "subnets")).errors ≡ [])
  unfolding valiate_network
  valiate_network-keys n names cidrs p h =
      let (twice, e) = append_nil _ _ h in
      let (domain, e) = append_nil _ _ e in
      let (again, rest) = append_nil _ _ e in
      let (new, after) = valiate_uniq_element_sound names n.name p "name" dupe_network_name twice in
      let (new', after') =
        valiate_uniq_element_sound (valiate_uniq_element names n.name p "name" dupe_network_name).0
          n.dns_domain p "dnsDomain" dupe_dns_domain again in
      (new, rw after at new', rw after at after', rest)

  valiate_all-keys :
      (ns : List Network) (i : ℕ) (names cidrs : Elements) (p : FieldPath)
      → valiate_all c ns i names cidrs p ≡ []
      → are_new (keys names) (network_keys ns) ≡ true
  unfolding valiate_all
  valiate_all-keys [] i names cidrs p h = refl
  valiate_all-keys (n ∷ ns) i names cidrs p h =
      let q = p ! child "networks" ! index i in
      let (e, rest) = append_nil _ _ h in
      let (new, new', after, _) = valiate_network-keys n names cidrs q e in
      let r = valiate_network c n names cidrs q in
      let ih = valiate_all-keys ns (suc i) r.names r.cidrs p rest in ground arith

  valiate_subnet_cidrs :
      (s : Subnet) (names cidrs : Elements) (p : FieldPath)
      → (valiate_subnet c s names cidrs p).errors ≡ []
      → (contains (keys cidrs) s.cidr ≡ false)
        × (keys (valiate_subnet c s names cidrs p).cidrs ≡ s.cidr ∷ keys cidrs)
  unfolding valiate_subnet
  valiate_subnet_cidrs s names cidrs p h = elim (Option-cases (c.parse_cidr s.cidr)) [
    | inl e ↦
        let again = (append_nil _ _ (append_nil _ _ (rw (valiate_subnet, e) at h)).1).0 in
        rw (valiate_subnet, e) (valiate_uniq_element_sound cidrs s.cidr p "name" dupe_cidr again)
    | inr (block, e) ↦ elim (Bool-cases (valiate_routes c s.routes 0 block p).1) [
      | inl t ↦
          let again = (append_nil _ _ (append_nil _ _ (rw (valiate_subnet, e, t) at h)).1).0 in
          rw (valiate_subnet, e, t)
            (valiate_uniq_element_sound cidrs s.cidr p "name" dupe_cidr again)
      | inr t ↦
          let so_far = (append_nil _ _ (rw (valiate_subnet, e, t) at h)).0 in
          let again = (append_nil _ _ (append_nil _ _ so_far).1).0 in
          rw (valiate_subnet, e, t)
            (valiate_uniq_element_sound cidrs s.cidr p "name" dupe_cidr again)
    ]
  ]

  -- What the loop over the subnets leaves to the CIDRs of the networks behind.
  valiate_subnets_cidrs :
      (ss : List Subnet) (i : ℕ) (names cidrs : Elements) (p : FieldPath) (rest : List String)
      → (valiate_subnets c ss i names cidrs p).errors ≡ []
      → are_new (keys (valiate_subnets c ss i names cidrs p).cidrs) rest ≡ true
      → are_new (keys cidrs) (cidrs_of ss ++ rest) ≡ true
  unfolding valiate_subnets
  valiate_subnets_cidrs [] i names cidrs p rest h new = new
  valiate_subnets_cidrs (s ∷ ss) i names cidrs p rest h new =
      let r = valiate_subnet c s names cidrs (p ! index i) in
      let (e, es) = append_nil r.errors _ h in
      let (fresh, after) = valiate_subnet_cidrs s names cidrs (p ! index i) e in
      let ih = valiate_subnets_cidrs ss (suc i) r.names r.cidrs p rest es new in ground arith

  valiate_all_cidrs :
      (ns : List Network) (i : ℕ) (names cidrs : Elements) (p : FieldPath)
      → valiate_all c ns i names cidrs p ≡ []
      → are_new (keys cidrs) (all_cidrs ns) ≡ true
  unfolding valiate_all valiate_network
  valiate_all_cidrs [] i names cidrs p h = refl
  valiate_all_cidrs (n ∷ ns) i names cidrs p h =
      let q = p ! child "networks" ! index i in
      let r = valiate_network c n names cidrs q in
      let (e, rest) = append_nil r.errors _ h in
      let (_, _, _, es) = valiate_network-keys n names cidrs q e in
      valiate_subnets_cidrs n.subnets 0 [] cidrs _ (all_cidrs ns) es
        (valiate_all_cidrs ns (suc i) r.names r.cidrs p rest)

  -- Of networks that the webhook admits, the names and DNS domains are all different, and so are the
  -- CIDRs of all subnets.
  pub valiate_networks-are_distinct :
      (ns : List Network) (p : FieldPath)
      → valiate_networks c ns p ≡ []
      → (are_distinct (network_keys ns) ≡ true) × (are_distinct (all_cidrs ns) ≡ true)
  unfolding valiate_networks
  valiate_networks-are_distinct ns p h =
      (valiate_all-keys ns 0 [] [] p h, valiate_all_cidrs ns 0 [] [] p h)

  -- A round that returns has reported something.
  pub validate_network-stops :
      (netcfg : List Network) (n : IpSetNetwork) (order : List Family) (count : Counts)
      (p : FieldPath)
      → (validate_network c netcfg n order count p).errors ≡ []
      → (validate_network c netcfg n order count p).stops ≡ false
  unfolding validate_network validate_on_subnet validate_default_route
  validate_network-stops netcfg n order count p h =
      elim (Option-cases (find (λ m. c.equal_fold m.name n.name) netcfg)) [
        | inl e ↦ ground arith
        | inr (m, e) ↦
            elim (Option-cases (find (λ s. c.equal_fold s.name n.subnet_name) m.subnets)) [
              | inl f ↦ ground arith
              | inr (s, f) ↦ elim (Option-cases (c.parse_cidr s.cidr)) [
                | inl g ↦ ground arith
                | inr (block, g) ↦ ground arith
              ]
            ]
      ]

  -- What a loop that reports nothing says of its first round and of the others.
  pub validate_rounds-parts :
      (order : ℕ → List Family) (netcfg : List Network) (n : IpSetNetwork) (ns : List IpSetNetwork)
      (i : ℕ) (names : Elements) (count : Counts) (p : FieldPath)
      → validate_rounds c order netcfg (n ∷ ns) i names count p ≡ []
      → let q = p ! child "networks" ! index i in
        let r = validate_network c netcfg n (order i) count q in
        let (names', twice) = valiate_uniq_element names n.name q "name" dupe_network_name in
        (twice ≡ [])
        × (r.errors ≡ [])
        × (validate_rounds c order netcfg ns (suc i) names' r.count p ≡ [])
  unfolding validate_rounds
  validate_rounds-parts order netcfg n ns i names count p h =
      let q = p ! child "networks" ! index i in
      let r = validate_network c netcfg n (order i) count q in
      let (twice, e) =
        append_nil (valiate_uniq_element names n.name q "name" dupe_network_name).1 _ h in
      let (none_there, rest) = append_nil r.errors _ e in
      let goes_on = validate_network-stops netcfg n (order i) count q none_there in
      (twice, none_there, rw goes_on at rest)

  validate_rounds_names :
      (order : ℕ → List Family) (netcfg : List Network) (ns : List IpSetNetwork) (i : ℕ)
      (names : Elements) (count : Counts) (p : FieldPath)
      → validate_rounds c order netcfg ns i names count p ≡ []
      → are_new (keys names) (names_of ns) ≡ true
  validate_rounds_names order netcfg [] i names count p h = refl
  validate_rounds_names order netcfg (n ∷ ns) i names count p h =
      let q = p ! child "networks" ! index i in
      let r = validate_network c netcfg n (order i) count q in
      let (twice, none_there, rest) = validate_rounds-parts order netcfg n ns i names count p h in
      let (fresh, after) =
        valiate_uniq_element_sound names n.name q "name" dupe_network_name twice in
      let names' = (valiate_uniq_element names n.name q "name" dupe_network_name).0 in
      let ih = validate_rounds_names order netcfg ns (suc i) names' r.count p rest in ground arith

  -- An IPSet's networks that the webhook admits have different names.
  pub validate_ip_set_network-are_distinct :
      (order : ℕ → List Family) (netcfg : List Network) (ns : List IpSetNetwork) (p : FieldPath)
      → validate_ip_set_network c order netcfg ns p ≡ []
      → are_distinct (names_of ns) ≡ true
  unfolding validate_ip_set_network
  validate_ip_set_network-are_distinct order netcfg ns p h =
      validate_rounds_names order netcfg ns 0 [] (λ fam. 0) p h
