-- ===== src/NetConfig.antt =====
-- apis/network/v1beta1/netconfig_types.go: the networks of a deployment and how one is looked up.
-- `strings.EqualFold` and `strings.ToLower` are parameters.
use infra_operator.Base.{ℕ, String, Bool, List, [], ◌∷◌, string_eq, if◌then◌else◌}
use infra_operator.Ipam.{Subnet}

pub record Network : Type 0 where
  pub name : String
  pub dns_domain : String
  pub mtu : ℕ
  pub subnets : List Subnet
  pub service_network : String

pub data LookupError : Type 0 where
  no_network : String → LookupError
  no_subnet : String → String → LookupError

pub data Lookup (A : Type 0) : Type 0 where
  present : A → Lookup A
  missing : LookupError → Lookup A

-- `ToDefaultServiceNetwork`
unfoldable pub to_default_service_network : (String → String) → String → String
to_default_service_network to_lower n = to_lower n

module _ (equal_fold : String → String → Bool) where
  unfoldable pub get_net : List Network → String → Lookup Network
  get_net [] name = missing (no_network name)
  get_net (n ∷ ns) name = if equal_fold n.name name then present n else get_net ns name

  unfoldable pub find_subnet : Network → List Subnet → String → Lookup (Network × Subnet)
  find_subnet net [] subnet_name = missing (no_subnet subnet_name net.name)
  find_subnet net (s ∷ ss) subnet_name =
      if equal_fold s.name subnet_name then present (net, s) else find_subnet net ss subnet_name

  unfoldable pub get_net_and_subnet : List Network → String → String → Lookup (Network × Subnet)
  unfolding find_subnet
  get_net_and_subnet networks name subnet_name = elim (get_net networks name) [
    | missing e ↦ missing e
    | present net ↦ find_subnet net net.subnets subnet_name
  ]
