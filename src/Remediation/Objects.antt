-- ===== src/Remediation/Objects.antt =====
-- The Kubernetes objects, with the fields that the PodRemediator controller reads, and the annotation
-- keys and consent test of apis/remediation/v1beta1/annotations.go.
use infra_operator.Base.{
  ℕ, String, Bool, true, false, ◌&&◌, not, Option, none, some, List, [], ◌∷◌, ◌==◌, string_eq,
  nat_eq, any,
}
use infra_operator.Base.StringMap.{StringMap, get, delete_all}

pub record ObjectKey : Type 0 where
  pub namespace : String
  pub name : String

-- A timestamp is nil or a number of seconds; the zero time is 0.
abbrev pub is_zero : Option ℕ → Bool
is_zero none = true
is_zero (some t) = t == 0

abbrev pub is_nil {ℓ} : {A : Type ℓ} → Option A → Bool
is_nil none = true
is_nil (some a) = false

pub record Pvc : Type 0 where
  pub name : String
  pub namespace : String
  pub uid : String
  pub resource_version : String
  pub annotations : StringMap
  pub deletion_timestamp : Option ℕ
  pub volume_name : String

-- `client.ObjectKeyFromObject`
abbrev pub pvc_key : Pvc → ObjectKey
pvc_key p = record { namespace = p.namespace; name = p.name }

-- A volume's claim name, if it is a claim.
pub record Pod : Type 0 where
  pub name : String
  pub namespace : String
  pub uid : String
  pub resource_version : String
  pub node_name : String
  pub volumes : List (Option String)
  pub deletion_timestamp : Option ℕ
  pub deletion_grace_period : Option ℕ

pub record ConfigMap : Type 0 where
  pub name : String
  pub namespace : String
  pub uid : String
  pub resource_version : String
  pub annotations : StringMap

pub record NodeCondition : Type 0 where
  pub kind : String
  pub status : String

pub record Node : Type 0 where
  pub name : String
  pub uid : String
  pub creation_timestamp : ℕ
  pub labels : StringMap
  pub conditions : List NodeCondition

-- A SelfNodeRemediation. `phase` is `none` where `status.phase` is no string.
pub record Snr : Type 0 where
  pub name : String
  pub uid : String
  pub annotations : StringMap
  pub labels : StringMap
  pub creation_timestamp : ℕ
  pub deletion_timestamp : Option ℕ
  pub phase : Option String

pub record Expression : Type 0 where
  pub key : String
  pub operator : String
  pub values : List String

pub record Term : Type 0 where
  pub match_fields : List Expression
  pub match_expressions : List Expression

pub record Pv : Type 0 where
  pub name : String
  pub has_local : Bool
  pub has_csi : Bool
  pub has_host_path : Bool
  pub required_terms : Option (List Term)

-- A `time.Duration` in nanoseconds, which may be negative.
pub data Duration : Type 0 where
  lasting : ℕ → Duration
  minus : ℕ → Duration

pub record PodRemediator : Type 0 where
  pub name : String
  pub namespace : String
  pub uid : String
  pub disabled : Bool
  pub remediation_paused : Bool
  pub namespaces : List String
  pub consent_poll_interval : Option Duration
  pub periodic_poll_interval : Option Duration

abbrev pub pvc_stuck_on_node : String
pvc_stuck_on_node = "remediation.openstack.org/pvc-stuck-on-node"

abbrev pub safe_to_delete : String
safe_to_delete = "remediation.openstack.org/safe-to-delete"

abbrev pub request_id : String
request_id = "remediation.openstack.org/request-id"

abbrev pub consent_id : String
consent_id = "remediation.openstack.org/consent-id"

abbrev pub remediator_uid : String
remediator_uid = "remediation.openstack.org/remediator-uid"

abbrev pub fencing_node_uid : String
fencing_node_uid = "remediation.openstack.org/fencing-node-uid"

abbrev pub pvc_deletion_committed : String
pvc_deletion_committed = "remediation.openstack.org/pvc-deletion-committed"

unfoldable pub has_remediation_consent : StringMap → Bool
has_remediation_consent a =
    not (get a request_id == "")
    && get a safe_to_delete == "true"
    && get a consent_id == get a request_id

abbrev pub remediation_annotation_keys : List String
remediation_annotation_keys =
    pvc_stuck_on_node ∷ safe_to_delete ∷ request_id ∷ consent_id ∷ remediator_uid ∷ fencing_node_uid
    ∷ []

unfoldable pub has_remediation_annotations : StringMap → Bool
has_remediation_annotations a = any (λ k. not (get a k == "")) remediation_annotation_keys

unfoldable pub clear_remediation_annotations : StringMap → StringMap
clear_remediation_annotations = delete_all remediation_annotation_keys

-- `observedDeleteOptions`, and the grace period that a force deletion adds.
pub record DeleteOptions : Type 0 where
  pub uid : String
  pub resource_version : String
  pub grace_period : Option ℕ

unfoldable pub observed : String → String → DeleteOptions
observed uid rv = record { uid = uid; resource_version = rv; grace_period = none }
