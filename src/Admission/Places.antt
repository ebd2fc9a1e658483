-- ===== src/Admission/Places.antt =====
-- An IPSet that its webhook admits against the IPSet controller: every network and subnet is found,
-- and every fixed address is parsed.
use infra_operator.Base.{
  append_nil, Sum-cases, ℕ, suc, String, ◌≡◌, ◌⊎◌, inl, inr, refl, Bool, true, Option, none, some,
  List, [], ◌∷◌, arith, All, Option-cases,
}
use infra_operator.Netip.{Addr, is_valid}
use infra_operator.Inet.{Block}
use infra_operator.Ipam.{ReservationMap, lookup, IpamError, Subnet, Result, ok, err, assign_ip}
use infra_operator.Ipam.Assign.{request}
use infra_operator.NetConfig.{Network, present, get_net, find_subnet, get_net_and_subnet}
use infra_operator.IpSet.{
  IpSetError, IpSetNetwork, Functions, Progress, parse_fixed_ip, new_address, add_network,
  add_networks, ip_failed,
}
use infra_operator.Admission.{
  ◌!◌, child, index, FieldPath, FieldError, Checks, Elements, Family, valiate_uniq_element,
  dupe_network_name, NetConfigItem, admitted, no_errors, get_net_config,
}
use infra_operator.Admission.Networks.{find}
use infra_operator.Admission.NetConfigs.{spec_path}
use infra_operator.Admission.IpSets.{
  Counts, IpSetItem, validate_address, validate_on_subnet, validate_network, validate_rounds,
  validate_ip_set_network, validate_create,
}
use infra_operator.Admission.Ranges.{IsMember, valiate_address_iff}
use infra_operator.Admission.Unique.{validate_rounds-parts}

pub no_errors-admitted : (es : List FieldError) → no_errors es ≡ admitted → es ≡ []
unfolding no_errors
no_errors-admitted [] h = refl
no_errors-admitted (e ∷ es) h = cc

Answer-cases :
    {A : Type 0} (r : Result A) → ((a : A) × (r ≡ ok a)) ⊎ ((e : IpamError) × (r ≡ err e))
Answer-cases (ok a) = inl (a, refl)
Answer-cases (err e) = inr (e, refl)

module _ (equal_fold : String → String → Bool) where
  find-get_net :
      (ns : List Network) (name : String) (m : Network)
      → find (λ n. equal_fold n.name name) ns ≡ some m
      → get_net equal_fold ns name ≡ present m
  unfolding get_net
  find-get_net [] name m h = cc
  find-get_net (n ∷ ns) name m h = ground (arith, find-get_net ns name m)

  find-find_subnet :
      (net : Network) (ss : List Subnet) (name : String) (s : Subnet)
      → find (λ t. equal_fold t.name name) ss ≡ some s
      → find_subnet equal_fold net ss name ≡ present (net, s)
  unfolding find_subnet
  find-find_subnet net [] name s h = cc
  find-find_subnet net (t ∷ ss) name s h = ground (arith, find-find_subnet net ss name s)

  find-get_net_and_subnet :
      (ns : List Network) (name sub : String) (m : Network) (s : Subnet)
      → find (λ n. equal_fold n.name name) ns ≡ some m
      → find (λ t. equal_fold t.name sub) m.subnets ≡ some s
      → get_net_and_subnet equal_fold ns name sub ≡ present (m, s)
  unfolding get_net_and_subnet
  find-get_net_and_subnet ns name sub m s h k =
      rw (get_net_and_subnet, find-get_net ns name m h, find-find_subnet m m.subnets sub s k)

module _ (c : Checks) where
  -- A fixed address is an address in the subnet's block.
  abbrev pub HasMember : Option String → Subnet → Type 0
  HasMember none s = Unit
  HasMember (some t) s =
      (block : Block) × (ip : ℕ) × (c.parse_cidr s.cidr ≡ some block)
      × (c.parse_ip t ≡ some ip)
      × IsMember c block ip

  -- The controller's lookup finds the network and the subnet that are asked for.
  abbrev pub HasPlace : List Network → IpSetNetwork → Type 0
  HasPlace netcfg n =
      (m : Network) × (s : Subnet) × (get_net_and_subnet c.equal_fold netcfg n.name n.subnet_name
        ≡ present (m, s))
      × HasMember n.fixed_ip s

  HasMember-of_subnet :
      (n : IpSetNetwork) (fixed : Option String) (s : Subnet) (order : List Family) (count : Counts)
      (p : FieldPath)
      → n.fixed_ip ≡ fixed
      → (validate_on_subnet c n s order count p).errors ≡ []
      → HasMember fixed s
  unfolding validate_on_subnet validate_address
  HasMember-of_subnet n none s order count p f h = tt
  HasMember-of_subnet n (some t) s order count p f h = elim (Option-cases (c.parse_cidr s.cidr)) [
    | inl e ↦ ground arith
    | inr (block, e) ↦
        let good =
          (append_nil (validate_address c n block p) _ (rw (validate_on_subnet, f, e) at h)).0 in
        let (ip, q, m) =
          (valiate_address_iff c t block (p ! child "fixedIP")).0
            (rw (validate_address, f) at good) in
        (block, ip, e, q, m)
  ]

  HasPlace-of_network :
      (netcfg : List Network) (n : IpSetNetwork) (order : List Family) (count : Counts)
      (p : FieldPath)
      → (validate_network c netcfg n order count p).errors ≡ []
      → HasPlace netcfg n
  unfolding validate_network
  HasPlace-of_network netcfg n order count p h =
      elim (Option-cases (find (λ m. c.equal_fold m.name n.name) netcfg)) [
        | inl e ↦ ground arith
        | inr (m, e) ↦
            elim (Option-cases (find (λ s. c.equal_fold s.name n.subnet_name) m.subnets)) [
              | inl f ↦ ground arith
              | inr (s, f) ↦ (
                m,
                s,
                find-get_net_and_subnet c.equal_fold netcfg n.name n.subnet_name m s e f,
                HasMember-of_subnet n n.fixed_ip s order count p refl
                    (rw (validate_network, e, f) at h),
              )
            ]
      ]

  validate_rounds-HasPlace :
      (order : ℕ → List Family) (netcfg : List Network) (ns : List IpSetNetwork) (i : ℕ)
      (names : Elements) (count : Counts) (p : FieldPath)
      → validate_rounds c order netcfg ns i names count p ≡ []
      → All (HasPlace netcfg) ns
  unfolding validate_rounds
  validate_rounds-HasPlace order netcfg [] i names count p h = tt
  validate_rounds-HasPlace order netcfg (n ∷ ns) i names count p h =
      let q = p ! child "networks" ! index i in
      let r = validate_network c netcfg n (order i) count q in
      let (_, none_there, rest) = validate_rounds-parts c order netcfg n ns i names count p h in
      (
        HasPlace-of_network netcfg n (order i) count q none_there,
        validate_rounds-HasPlace order netcfg ns (suc i)
            (valiate_uniq_element names n.name q "name" dupe_network_name).0 r.count p rest,
      )

  -- Of an IPSet that is admitted at its creation, the controller's lookup finds every network and
  -- subnet that is asked for, and every fixed address is an address of the subnet's block.
  pub validate_create-HasPlace :
      (order : ℕ → List Family) (cfg : NetConfigItem) (r : IpSetItem)
      → validate_create c order (inr (cfg ∷ [])) r ≡ admitted
      → All (HasPlace cfg.networks) r.networks
  unfolding validate_create validate_ip_set_network get_net_config
  validate_create-HasPlace order cfg r h =
      validate_rounds-HasPlace order cfg.networks r.networks 0 [] (λ fam. 0) spec_path
        (no_errors-admitted _ h)

-- The error of a loop whose networks are found and whose fixed addresses are parsed.
abbrev pub IsIpamError : IpSetError → Type 0
IsIpamError e = (x : IpamError) × (e ≡ ip_failed x)

module _ (c : Checks) (f : Functions) (folds : f.equal_fold ≡ c.equal_fold)
    (parses : (s : String) (ip : ℕ)
      → c.parse_ip s ≡ some ip
      → (a : Addr) × (f.parse s ≡ some a) × (is_valid a ≡ true)) where
  HasMember-parse_fixed_ip :
      (o : Option String) (s : Subnet)
      → HasMember c o s
      → (a : Addr) × (parse_fixed_ip f o ≡ some a)
  unfolding parse_fixed_ip
  HasMember-parse_fixed_ip none s m = (_, refl)
  HasMember-parse_fixed_ip (some t) s (block, ip, q, e, m) =
      let (a, parsed, valid) = parses t ip e in (a, rw (parse_fixed_ip, parsed, valid))

  new_address-IsIpamError :
      (ipset : String) (reservations : List ReservationMap) (n : IpSetNetwork) (m : Network)
      (s : Subnet) (a : Addr) (e : IpSetError)
      → parse_fixed_ip f n.fixed_ip ≡ some a
      → new_address f ipset reservations n m s ≡ inl e
      → IsIpamError e
  unfolding new_address
  new_address-IsIpamError ipset reservations n m s a e q h =
      elim (Answer-cases
        (assign_ip f.parse f.print (request f.parse f.print ipset m.name s reservations a)).1) [
          | inl (ip, r) ↦ ground arith
          | inr (x, r) ↦ (x, ground arith)
        ]

  add_network-IsIpamError :
      (ipset : String) (reservations : List ReservationMap) (netcfg : List Network)
      (n : IpSetNetwork) (p : Progress) (e : IpSetError)
      → HasPlace c netcfg n
      → (add_network f ipset reservations netcfg n p).1 ≡ some e
      → IsIpamError e
  unfolding add_network
  add_network-IsIpamError ipset reservations netcfg n p e (m, s, place, fixed) h =
      let there : get_net_and_subnet f.equal_fold netcfg n.name n.subnet_name ≡ present (m, s) =
        rw folds place in
      let (a, parsed) = HasMember-parse_fixed_ip n.fixed_ip s fixed in
      elim (Option-cases (lookup m.name p.spec)) [
        | inr (ip, q) ↦ ground arith
        | inl q ↦ elim (Sum-cases (new_address f ipset reservations n m s)) [
          | inl (x, r) ↦
              let (y, z) = new_address-IsIpamError ipset reservations n m s a x parsed r in
              (y, ground arith)
          | inr (ip, r) ↦ ground arith
        ]
      ]

  add_networks-IsIpamError :
      (ipset : String) (reservations : List ReservationMap) (netcfg : List Network)
      (ns : List IpSetNetwork) (p : Progress) (e : IpSetError)
      → All (HasPlace c netcfg) ns
      → (add_networks f ipset reservations netcfg ns p).1 ≡ some e
      → IsIpamError e
  unfolding add_networks
  add_networks-IsIpamError ipset reservations netcfg [] p e places h = ground arith
  add_networks-IsIpamError ipset reservations netcfg (n ∷ ns) p e (place, places) h =
      let q = (add_network f ipset reservations netcfg n p).0 in
      elim (Option-cases (add_network f ipset reservations netcfg n p).1) [
        | inl r ↦
            add_networks-IsIpamError ipset reservations netcfg ns q e places
              (rw (add_networks, r) at h)
        | inr (x, r) ↦
            let (y, z) = add_network-IsIpamError ipset reservations netcfg n p x place r in
            (y, ground arith)
      ]

  -- For an IPSet that is admitted at its creation, the controller's loop over its networks fails only
  -- where `AssignIP` fails: neither the lookup of a subnet nor a fixed address is an error. This needs
  -- that both compare names alike, and that an address that `net.ParseIP` reads is one for `netip`.
  pub validate_create-IsIpamError :
      (order : ℕ → List Family) (cfg : NetConfigItem) (r : IpSetItem) (ipset : String)
      (reservations : List ReservationMap) (p : Progress) (e : IpSetError)
      → validate_create c order (inr (cfg ∷ [])) r ≡ admitted
      → (add_networks f ipset reservations cfg.networks r.networks p).1 ≡ some e
      → IsIpamError e
  validate_create-IsIpamError order cfg r ipset reservations p e h =
      add_networks-IsIpamError ipset reservations cfg.networks r.networks p e
        (validate_create-HasPlace c order cfg r h)
