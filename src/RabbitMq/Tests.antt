-- ===== src/RabbitMq/Tests.antt =====
-- A cluster that is upgraded from 3.9 to 4.2, and a user (rabbitmq_webhook.go, rabbitmquser_webhook.go).
use native.Mathlib.Decide.{ℕ_discrete}
use infra_operator.Base.{
  ◌+◌, ◌≤◌, String, ◌≡◌, ◌≢◌, inr, refl, true, false, Option, none, some, [], ◌∷◌, ◌==◌, string_eq,
  nat_eq, any, if◌then◌else◌, arith,
}
use infra_operator.Base.Integers.{pos, ltz, int_eq, int_beq}
use infra_operator.Admission.{FieldPath, child}
use infra_operator.Admission.Names.{codes, all}
use infra_operator.RabbitMq.Versions.{
  Texts, version_lt, parse_patch, parse_parts, parse_rabbit_mq_version, is3x_to4x_upgrade,
  is_version4_or_later, requires_storage_wipe,
}
use infra_operator.RabbitMq.Clusters
use infra_operator.RabbitMq.Clusters.{
  Tls, RabbitMqSpecCore, RabbitMqSpec, RabbitMqItem, Libraries, targets4, default_spec,
  default_core, running_version, replicas_of, compare_versions, validate_version_change,
  validate_scale_down, validate_queue_type, validate_topology, validate_override,
}
use infra_operator.RabbitMq.Users
use infra_operator.RabbitMq.Users.{
  CredentialSelectors, RabbitMqUser, Client, no_secret, secret, nil_dereference, byte_count,
  user_vhost_finalizer_prefix, transport_url_finalizer_prefix, max_finalizer_length,
  max_username_length, is_name_code, validate_rabbit_mq_name, username_problems, validate_username,
  has_prefix, is_conflict, find_conflict, first_error, old_username, changes,
  validate_unique_username, validate_permissions, validate_secret_and_extract_credentials,
}
use infra_operator.RabbitMq.Order.{
  KeepsVersion, validate_update-IsNotBelow, is3x_to4x_upgrade-requires_storage_wipe,
}
use infra_operator.RabbitMq.Upgrade.{
  StatefulSet, Cluster, no_phase, no_reason, given, has_wipe_container, reconcile,
}
use infra_operator.RabbitMq.Wiping.{here}
use infra_operator.RabbitMq.Completing.{
  all_well, waits, reconcile-has_wipe_container, upgrade_completes,
}
use infra_operator.RabbitMq.UserRules.{validate_username-fits, validate_update_keeps}

abbrev texts : Texts
texts = record {
  split = λ s. if s == "3.9" then "3" ∷ "9" ∷ [] else "4" ∷ "2" ∷ [];
  atoi = λ s.
      if s == "3"
      then some (pos 3)
      else if s == "9"
      then some (pos 9)
      else if s == "4"
      then some (pos 4)
      else some (pos 2);
}

abbrev libraries : Libraries
libraries = record { decodes = λ s. true; label_errors = λ s. [] }

abbrev core : String → Option String → RabbitMqSpecCore
core version queue_type = record {
  tls = record { secret_name = "certs"; ca_secret_name = ""; disable_non_tls_listeners = false };
  replicas = some (pos 3);
  queue_type = queue_type;
  target_version = some version;
  termination_grace_period_seconds = some (pos 604800);
  topology_ref = none;
  override = none;
}

abbrev cluster : String → Option String → RabbitMqItem
cluster version queue_type = record {
  name = "rabbitmq";
  namespace = "openstack";
  spec = record { container_image = ""; core = core version queue_type };
  status_queue_type = "Mirrored";
  current_version = "3.9";
}

abbrev old_cluster : RabbitMqItem
old_cluster = cluster "3.9" (some "Mirrored")

abbrev new_cluster : RabbitMqItem
new_cluster = cluster "4.2" (some "Quorum")

admits : (Clusters.validate_update texts libraries new_cluster (some old_cluster)).1 ≡ []
unfolding Clusters.validate_update validate_topology validate_override validate_queue_type targets4
    is_version4_or_later validate_version_change running_version compare_versions
    validate_scale_down version_lt parse_rabbit_mq_version parse_parts parse_patch ltz int_eq
    int_beq string_eq nat_eq ℕ_discrete
admits = refl

set_text : (s : String) → (s == "") ≡ false → s ≢ ""
set_text s h = ground arith

abbrev target : String
target = "4.2"

target_set : (target == "") ≡ false
unfolding string_eq
target_set = refl

running_set : (running_version texts old_cluster == "") ≡ false
unfolding running_version string_eq
running_set = refl

validate_update-IsNotBelow_example :
    (ltz (replicas_of new_cluster.spec.core.replicas) (replicas_of old_cluster.spec.core.replicas)
      ≡ false)
    × KeepsVersion texts new_cluster old_cluster
validate_update-IsNotBelow_example =
    validate_update-IsNotBelow texts libraries new_cluster old_cluster admits

abbrev spec_path : FieldPath
spec_path = child "spec" ∷ []

crosses : is3x_to4x_upgrade texts "3.9" "4.2" ≡ true
unfolding is3x_to4x_upgrade parse_rabbit_mq_version parse_parts parse_patch ltz int_eq int_beq
    string_eq nat_eq ℕ_discrete
crosses = refl

-- The version is set to 4.2 and no queue type is given; the object that is there has Mirrored.
abbrev asked : RabbitMqItem
asked = cluster "4.2" none

abbrev user : String → RabbitMqUser
user name = record {
  name = name;
  rabbitmq_cluster_name = "rabbitmq";
  vhost_ref = "";
  username = name;
  secret = none;
  credential_selectors = none;
  permissions = record { configure = ".*"; write = ".*"; read = ".*" };
  status_username = "";
  deleted = false;
  owner_kinds = [];
  finalizers = "turl.openstack.org/t-nova" ∷ [];
}

abbrev client : Client
client = record {
  get_secret = λ s. no_secret;
  has_vhost = λ s. false;
  list_users = inr (user "nova" ∷ []);
  compiles = λ s. true;
}

updates_user : Users.validate_update client (user "nova") (some (user "nova")) ≡ none
unfolding Users.validate_update changes first_error validate_secret_and_extract_credentials
    validate_username username_problems validate_rabbit_mq_name max_username_length byte_count
    validate_permissions validate_unique_username find_conflict is_conflict string_eq nat_eq
    ℕ_discrete
updates_user = refl

validate_update_keeps_example :
    ((user "nova").rabbitmq_cluster_name ≡ (user "nova").rabbitmq_cluster_name)
    × ((user "nova").username ≡ old_username (user "nova"))
    × (any
            (λ f. has_prefix (codes f) (codes transport_url_finalizer_prefix))
            (user "nova").finalizers
          ≡ true
        → (user "nova").permissions ≡ (user "nova").permissions)
validate_update_keeps_example =
    validate_update_keeps client (user "nova") (user "nova") updates_user

named : validate_username (user "nova") ≡ none
unfolding validate_username username_problems validate_rabbit_mq_name max_username_length byte_count
    string_eq nat_eq ℕ_discrete
named = refl

validate_username-fits_example :
    ((user "nova").username ≢ "")
    × (all is_name_code (codes (user "nova").username) ≡ true)
    × (byte_count (codes user_vhost_finalizer_prefix) + byte_count (codes (user "nova").username)
        ≤ max_finalizer_length)
validate_username-fits_example = validate_username-fits (user "nova") named

-- A Secret is named, and no selectors are.
abbrev stored : RabbitMqUser
stored = record (user "nova") { secret = some "credentials" }

abbrev old_set : StatefulSet
old_set = record { version = "3.9"; wipes_data = false }

-- The cluster of 3.9 with mirrored queues, that is to become one of 4.2.
abbrev running : Cluster
running = record {
  spec_queue_type = some "Quorum";
  target_version = some "4.2";
  replicas = some (pos 3);
  current_version = "3.9";
  queue_type = "Mirrored";
  upgrade_phase = no_phase;
  wipe_reason = no_reason;
  proxy_required = "";
  stateful_set = some old_set;
}

asks_target : given running.target_version ≡ some target
unfolding given string_eq
asks_target = refl

wipe_needed : requires_storage_wipe texts running.current_version target ≡ inr true
wipe_needed = is3x_to4x_upgrade-requires_storage_wipe texts "3.9" "4.2" crosses

upgrade_completes_example :
    let done =
      reconcile texts all_well
        (waits texts 3 (reconcile texts all_well (reconcile texts all_well running))) in
    (done.current_version ≡ target)
    × (done.upgrade_phase ≡ no_phase)
    × (done.wipe_reason ≡ no_reason)
    × (done.stateful_set ≡ some (record { version = target; wipes_data = true }))
upgrade_completes_example = upgrade_completes texts running target 2 refl asks_target wipe_needed

reconcile-has_wipe_container_example :
    has_wipe_container (reconcile texts all_well running).stateful_set ≡ false
reconcile-has_wipe_container_example =
    reconcile-has_wipe_container texts running running all_well old_set (here running) refl refl
      refl
