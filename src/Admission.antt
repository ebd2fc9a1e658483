-- ===== src/Admission.antt =====
-- What the webhooks of apis/network/v1beta1 share: field paths and errors, the messages of
-- common_webhook.go, and the checks of netconfig_webhook.go that other files call.
pub mod Names
pub mod Networks
pub mod NetConfigs
pub mod IpSets
pub mod Ranges
pub mod Unique
pub mod Places
pub mod Changes
pub mod Kept
mod Tests
use infra_operator.Base.{
  ℕ, String, Bool, true, false, ◌&&◌, not, Option, none, some, List, [], ◌∷◌, ◌++◌, ◌==◌, string_eq,
  if◌then◌else◌, ◌⊎◌, inl, inr,
}
use infra_operator.Inet.{Block, holds}
use infra_operator.Ipam.{AllocationRange}
use infra_operator.NetConfig.{Network}

-- A step of a `field.Path`, and a path from its root on.
pub data Step : Type 0 where
  child : String → Step
  index : ℕ → Step

abbrev pub FieldPath : Type 0
FieldPath = List Step

infixl 60 ◌!◌
abbrev pub ◌!◌ : FieldPath → Step → FieldPath
p ! s = p ++ (s ∷ [])

-- `k8snet.IPFamily`
pub data Family : Type 0 where
  ipv4 ipv6 unknown : Family

-- The messages, with what is printed into them.
pub data Detail : Type 0 where
  not_ip_addr invalid_cidr mixed_address_family fixed_ip_changed default_route_changed : Detail
  not_in_cidr : Block → Detail
  invalid_range : String → String → Detail
  dupe_network_name dupe_cidr dupe_dns_domain : String → FieldPath → Detail
  invalid_dns_domain network_not_found network_changed no_default_route : String → Detail
  subnet_not_in_network subnet_changed subnet_parameter_changed : String → String → Detail
  vlan_changed : Option ℕ → Detail
  multi_default_route : Family → Detail

-- `BadValue`
pub data Value : Type 0 where
  text : String → Value
  range : AllocationRange → Value

pub record FieldError : Type 0 where
  pub path : FieldPath
  pub value : Value
  pub detail : Detail

abbrev pub error : FieldPath → String → Detail → List FieldError
error p v d = record { path = p; value = text v; detail = d } ∷ []

abbrev pub is_ipv4 : Family → Bool
is_ipv4 ipv4 = true
is_ipv4 _ = false

abbrev pub is_ipv6 : Family → Bool
is_ipv6 ipv6 = true
is_ipv6 _ = false

-- The functions of `net` and of k8s.io/utils/net that the checks call: the parsers, and the families
-- of addresses and of blocks.
pub record Checks : Type 0 where
  pub parse_ip : String → Option ℕ
  pub parse_cidr : String → Option Block
  pub family : ℕ → Family
  pub cidr_family : Block → Family
  pub equal_fold : String → String → Bool

-- The NetConfig of a namespace, as far as the webhooks read it.
pub record NetConfigItem : Type 0 where
  pub name : String
  pub networks : List Network

-- The errors that a webhook returns.
pub data Refusal : Type 0 where
  list_failed : String → Refusal
  more_than_one : Refusal
  already_there : String → Refusal
  not_there : Refusal
  unable_to_convert : Refusal
  still_in_use : ℕ → Refusal
  networks_immutable : Refusal
  not_valid : List FieldError → Refusal

-- What a webhook returns: nil, or an error.
pub data Verdict : Type 0 where
  admitted : Verdict
  refused : Refusal → Verdict

-- `getNetConfig`, with the client's answer.
unfoldable pub get_net_config : String ⊎ List NetConfigItem → Refusal ⊎ Option NetConfigItem
get_net_config (inl e) = inl (list_failed e)
get_net_config (inr []) = inr none
get_net_config (inr (n ∷ [])) = inr (some n)
get_net_config (inr (n ∷ m ∷ ns)) = inl more_than_one

-- `getIPSets`, with the client's answer.
abbrev pub get_ip_sets {ℓ} : {A : Type ℓ} → String ⊎ List A → Refusal ⊎ List A
get_ip_sets (inl e) = inl (list_failed e)
get_ip_sets (inr items) = inr items

-- `apierrors.NewInvalid`, unless there is nothing to report.
unfoldable pub no_errors : List FieldError → Verdict
no_errors [] = admitted
no_errors (e ∷ es) = refused (not_valid (e ∷ es))

-- A `map[string]field.Path`.
abbrev pub Elements : Type 0
Elements = List (String × FieldPath)

unfoldable pub position : Elements → String → Option FieldPath
position [] name = none
position ((n, p) ∷ es) name = if n == name then some p else position es name

unfoldable pub valiate_uniq_element :
    Elements
    → String
    → FieldPath
    → String
    → (String → FieldPath → Detail)
    → Elements × List FieldError
valiate_uniq_element es name p child_name template = elim (position es name) [
  | none ↦ ((name, p ! child child_name) ∷ es, [])
  | some exist_path ↦ (es, error (p ! child child_name) name (template name exist_path))
]

module _ (c : Checks) where
  unfoldable pub valiate_address : String → Block → FieldPath → List FieldError
  valiate_address s block p = elim (c.parse_ip s) [
    | none ↦ error p s not_ip_addr
    | some ip ↦
        (if is_ipv4 (c.cidr_family block) && not (is_ipv4 (c.family ip))
          then error p s mixed_address_family
          else [])
        ++ ((if is_ipv6 (c.cidr_family block) && not (is_ipv6 (c.family ip))
              then error p s mixed_address_family
              else [])
            ++ (if holds block ip then [] else error p s (not_in_cidr block)))
  ]
