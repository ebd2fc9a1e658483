-- ===== src/Messaging.antt =====
-- The controllers of RabbitMQ users, vhosts, policies and TransportURLs in internal/controller/rabbitmq:
-- the objects that they read and write (apis/rabbitmq/v1beta1). A condition is kept without its message,
-- a label map as a function.
pub mod Calls
pub mod Finalizers
pub mod Programs
pub mod Readiness
pub mod Rules
pub mod Creation
pub mod Release
pub mod Passes
pub mod Watches
pub mod Vhosts
pub mod Policies
pub mod Standing
pub mod Quiet
pub mod Protected
pub mod Claims
pub mod ReleasedVhosts
pub mod Released
pub mod VhostClaims
pub mod VhostRelease
pub mod HeldVhosts
pub mod Urls
pub mod Rotation
pub mod Legacy
pub mod Shared
pub mod Transport
pub mod TransportPasses
pub mod Rotated
mod Tests
use infra_operator.Base.{ℕ, String, Bool, true, false, Option, List}
use infra_operator.Base.StringMap.{StringMap}
use infra_operator.RabbitMq.Users.{CredentialSelectors, RabbitMqUserPermissions, SecretData}

-- A condition: unknown behind Init, met, false with one of lib-common's reasons.
pub data Condition : Type 0 where
  unset is_met requested in_error deleting : Condition

pub data Error : Type 0 where
  not_found already_exists nil_dereference username_empty password_key_not_found no_ca
        malformed_definition :
      Error
  failed : String → Error
  key_not_found : String → Error
  wrapped : Error → Error

-- `k8s_errors.IsNotFound`
unfoldable pub is_not_found : Error → Bool
is_not_found not_found = true
is_not_found (wrapped e) = is_not_found e
is_not_found _ = false

-- `k8s_errors.IsAlreadyExists`
unfoldable pub is_already_exists : Error → Bool
is_already_exists already_exists = true
is_already_exists (wrapped e) = is_already_exists e
is_already_exists _ = false

pub data Result {ℓ} (A : Type ℓ) : Type ℓ where
  ok : A → Result A
  err : Error → Result A

-- A `RabbitMQUser`: metadata, spec, status.
pub record User : Type 0 where
  pub name : String
  pub uid : String
  pub deleted : Bool
  pub labels : StringMap
  pub finalizers : List String
  pub owners : List String
  pub generation : ℕ
  pub rabbitmq_cluster_name : String
  pub vhost_ref : String
  pub username : String
  pub secret : Option String
  pub credential_selectors : Option CredentialSelectors
  pub tags : List String
  pub permissions : RabbitMqUserPermissions
  pub status_secret_name : String
  pub status_username : String
  pub status_vhost_ref : String
  pub status_vhost : String
  pub observed_generation : ℕ
  pub user_ready : Condition
  pub ready : Condition

-- A `RabbitMQVhost`; times are nanoseconds.
pub record Vhost : Type 0 where
  pub name : String
  pub deletion_time : Option ℕ
  pub finalizers : List String
  pub owners : List String
  pub generation : ℕ
  pub rabbitmq_cluster_name : String
  pub vhost_name : String
  pub observed_generation : ℕ
  pub vhost_ready : Condition
  pub ready : Condition

-- A `RabbitMQPolicy`.
pub record Policy : Type 0 where
  pub name : String
  pub deleted : Bool
  pub finalizers : List String
  pub generation : ℕ
  pub rabbitmq_cluster_name : String
  pub vhost_ref : String
  pub policy_name : String
  pub pattern : String
  pub definition : String
  pub priority : ℕ
  pub apply_to : String
  pub status_vhost : String
  pub status_policy_name : String
  pub observed_generation : ℕ
  pub policy_ready : Condition
  pub ready : Condition

-- A `RabbitMq`: the default user is nil, has no reference to a Secret, or has one.
pub record Cluster : Type 0 where
  pub name : String
  pub deleted : Bool
  pub ready_count : ℕ
  pub default_user : Option (Option String)
  pub tls_secret_name : String
  pub ca_secret_name : String
  pub service_hostnames : List String
  pub queue_type : Option String
  pub status_queue_type : String

-- A Secret, with the UIDs of its owners.
pub record Secret : Type 0 where
  pub name : String
  pub data_map : SecretData
  pub owners : List String
  pub finalizers : List String
  pub immutable : Bool

-- A `TransportURL`; it is new while it has no conditions at all.
pub record TransportUrl : Type 0 where
  pub name : String
  pub uid : String
  pub deleted : Bool
  pub is_new : Bool
  pub annotations : StringMap
  pub finalizers : List String
  pub generation : ℕ
  pub rabbitmq_cluster_name : String
  pub username : String
  pub vhost : String
  pub user_ref : String
  pub status_cluster_name : String
  pub status_username : String
  pub status_vhost : String
  pub status_user_ref : String
  pub previous_user_ref : String
  pub secret_name : String
  pub secret_hash : String
  pub previous_secret_name : String
  pub status_queue_type : String
  pub observed_generation : ℕ
  pub url_ready : Condition
  pub ready : Condition
