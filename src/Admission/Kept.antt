-- ===== src/Admission/Kept.antt =====
-- The check of a NetConfig against the previous object (netconfig_webhook.go), and what its handlers
-- admit.
use infra_operator.Base.{
  append_nil, ℕ, suc, String, ◌≡◌, ◌↔◌, inl, inr, refl, true, false, Option, none, some, List, [],
  ◌∷◌, arith, ◌==◌, string_eq, nat_eq, ltb, length, All, Option-cases,
}
use infra_operator.Ipam.{Subnet}
use infra_operator.NetConfig.{Network}
use infra_operator.Admission.{
  child, index, FieldPath, ◌!◌, Checks, NetConfigItem, admitted, get_net_config,
}
use infra_operator.Admission.Networks.{find}
use infra_operator.Admission.NetConfigs.{
  spec_path, same_vlan, changed_subnets, changed_from, valiate_networks, valiate_networks_changed,
  validate_create, validate_update,
}
use infra_operator.Admission.Unique.{
  are_distinct, network_keys, all_cidrs, valiate_networks-are_distinct,
}
use infra_operator.Admission.Places.{no_errors-admitted}

same_vlan_iff : (a b : Option ℕ) → (same_vlan a b ≡ true) ↔ (a ≡ b)
unfolding same_vlan
same_vlan_iff none none = ground arith
same_vlan_iff none (some b) = ground arith
same_vlan_iff (some a) none = ground arith
same_vlan_iff (some a) (some b) = ground arith

-- The first of the new subnets that has the old one's name has its CIDR and VLAN.
abbrev pub KeepsSubnet : List Subnet → Subnet → Type 0
KeepsSubnet subnets o =
    (s : Subnet) × (find (λ t. t.name == o.name) subnets ≡ some s)
    × (o.cidr ≡ s.cidr)
    × (o.vlan ≡ s.vlan)

-- There is a new network of the old one's name, and the first keeps every subnet.
abbrev pub KeepsNetwork : List Network → Network → Type 0
KeepsNetwork networks o =
    (n : Network) × (find (λ m. m.name == o.name) networks ≡ some n)
    × All (KeepsSubnet n.subnets) o.subnets

changed_subnets-KeepsSubnet :
    (net : String) (subnets old : List Subnet) (i : ℕ) (p : FieldPath)
    → (changed_subnets net subnets old i p).0 ≡ []
    → All (KeepsSubnet subnets) old × ((changed_subnets net subnets old i p).1 ≡ false)
unfolding changed_subnets
changed_subnets-KeepsSubnet net subnets [] i p h = (tt, refl)
changed_subnets-KeepsSubnet net subnets (o ∷ os) i p h =
    let ih = changed_subnets-KeepsSubnet net subnets os (suc i) p in
    elim (Option-cases (find (λ t. t.name == o.name) subnets)) [
      | inl e ↦ ground arith
      | inr (s, e) ↦
          let (kept, goes_on) = ih (ground arith) in
          (((s, e, ground arith, ground (arith, same_vlan_iff o.vlan s.vlan)), kept), ground arith)
    ]

changed_from-KeepsNetwork :
    (networks old : List Network) (i : ℕ) (p : FieldPath)
    → changed_from networks old i p ≡ []
    → All (KeepsNetwork networks) old
unfolding changed_from
changed_from-KeepsNetwork networks [] i p h = tt
changed_from-KeepsNetwork networks (o ∷ os) i p h =
    let q = p ! child "networks" ! index i in
    let ih = changed_from-KeepsNetwork networks os (suc i) p in
    elim (Option-cases (find (λ m. m.name == o.name) networks)) [
      | inl e ↦ ground arith
      | inr (n, e) ↦
          let reported = changed_subnets o.name n.subnets o.subnets 0 (q ! child "subnets") in
          let (kept, goes_on) =
            changed_subnets-KeepsSubnet o.name n.subnets o.subnets 0 (q ! child "subnets")
              (ground arith) in
          (
            (n, e, kept),
            ih (ground (arith, append_nil reported.0 (changed_from networks os (suc i) p))),
          )
    ]

in_use : (n : ℕ) → ltb 0 (suc n) ≡ true
in_use n = ground arith

module _ (c : Checks) where
  -- A NetConfig is admitted at its creation only if there is none, its networks' names and DNS domains
  -- are all different, and so are the CIDRs of all subnets.
  pub validate_create-are_distinct :
      (listed : List NetConfigItem) (r : NetConfigItem)
      → validate_create c (inr listed) r ≡ admitted
      → (listed ≡ [])
        × (are_distinct (network_keys r.networks) ≡ true)
        × (are_distinct (all_cidrs r.networks) ≡ true)
  unfolding validate_create get_net_config
  validate_create-are_distinct [] r h =
      let (keys, cidrs) =
        valiate_networks-are_distinct c r.networks spec_path (no_errors-admitted _ h) in
      (refl, keys, cidrs)
  validate_create-are_distinct (m ∷ []) r h = cc
  validate_create-are_distinct (m ∷ n ∷ ns) r h = cc

  -- An update of a NetConfig that is admitted while there are IPSets keeps every network and subnet of
  -- the old object by its name, with its CIDR and VLAN.
  pub validate_update-KeepsNetwork {ℓ} :
      {A : Type ℓ} (ipset : A) (ipsets : List A) (r old : NetConfigItem)
      → validate_update c (inr (ipset ∷ ipsets)) r (some old) ≡ admitted
      → All (KeepsNetwork r.networks) old.networks
  unfolding validate_update valiate_networks_changed
  validate_update-KeepsNetwork ipset ipsets r old h =
      let some_there = in_use (length ipsets) in
      let opened = rw some_there at h in
      changed_from-KeepsNetwork r.networks old.networks 0 spec_path
        (append_nil (valiate_networks c r.networks spec_path) _ (no_errors-admitted _ opened)).1
