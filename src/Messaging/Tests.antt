-- ===== src/Messaging/Tests.antt =====
-- The controllers of RabbitMQ users and vhosts at concrete objects, with functions on finalizers that do
-- what controllerutil documents.
use infra_operator.Base.{
  ℕ, String, ◌≡◌, refl, Bool, true, false, Option, none, some, List, [], ◌∷◌, ◌++◌, ◌<>◌, ◌==◌,
  string_eq, nat_eq, contains, arith, if◌then◌else◌, Bool-cases, inl, inr,
}
use infra_operator.Base.StringMap.{empty}
use infra_operator.Messaging.{unset, is_met, ok, User, Vhost, Cluster, TransportUrl}
use infra_operator.Messaging.Calls.{Library}
use infra_operator.Messaging.Programs.{Obeys}
use infra_operator.Messaging.Creation.{user_finalizer, reconcile_live}
use infra_operator.Messaging.Release
use infra_operator.Messaging.Vhosts
use infra_operator.Messaging.Standing.{Adds, creation_rules}
use infra_operator.Messaging.Protected.{reconcile_live-Obeys}
use infra_operator.Messaging.Finalizers.{
  transport_url_finalizer_for, find_transport_urls_from_finalizers,
  find_transport_urls_from_finalizers-contains,
}
use infra_operator.Messaging.Rotation.{try_release_pending_user}
use infra_operator.Messaging.Rotated.{IsOrderlyRelease, try_release_pending_user-IsOrderlyRelease}
use infra_operator.Messaging.HeldVhosts.{IsHeldVhostDeletion, reconcile_delete-IsHeldVhostDeletion}
use infra_operator.Messaging.VhostRelease.{IsVhostDeletion, reconcile_delete-IsVhostDeletion}

abbrev add : List String → String → List String × Bool
add fs f = if contains fs f then (fs, false) else (fs ++ (f ∷ []), true)

abbrev without : List String → String → List String
without [] f = []
without (g ∷ gs) f = if g == f then without gs f else g ∷ without gs f

abbrev controllerutil : Library
controllerutil = record {
  add_finalizer = add;
  remove_finalizer = λ fs f. (without fs f, contains fs f);
  contains_finalizer = contains;
  check_owner_ref_exist = λ uid owners. contains owners uid;
  mirror = λ c. c;
  unmarshals = λ d. true;
  digest = λ s. "0a1b2c3d";
  hash = λ d. ok "0123456789abcdef";
  set_owner = λ owner owners. ok (owner ∷ owners);
  all_met = λ c. true;
  join_host_port = λ h p. h <> ":" <> p;
  query_escape = λ s. s;
  show = λ n. "0";
}

contains-last : (fs : List String) (f : String) → contains (fs ++ (f ∷ [])) f ≡ true
contains-last [] f = ground arith
contains-last (g ∷ gs) f = ground (arith, contains-last gs f)

controllerutil-Adds : Adds controllerutil
controllerutil-Adds = record {
  added = λ fs f. elim (Bool-cases (contains fs f)) [
    | inl there ↦ rw there there
    | inr missing ↦ rw missing (contains-last fs f)
  ];
  kept = λ fs f same. ground arith;
}

abbrev nova : User
nova = record {
  name = "nova-user";
  uid = "u1";
  deleted = false;
  labels = empty;
  finalizers = user_finalizer ∷ [];
  owners = [];
  generation = 1;
  rabbitmq_cluster_name = "rabbitmq";
  vhost_ref = "cells";
  username = "nova";
  secret = none;
  credential_selectors = none;
  tags = [];
  permissions = record { configure = ".*"; write = ".*"; read = ".*" };
  status_secret_name = "";
  status_username = "";
  status_vhost_ref = "";
  status_vhost = "";
  observed_generation = 0;
  user_ready = unset;
  ready = unset;
}

abbrev cells : List String → Option ℕ → Vhost
cells fs deletion = record {
  name = "cells";
  deletion_time = deletion;
  finalizers = fs;
  owners = [];
  generation = 1;
  rabbitmq_cluster_name = "rabbitmq";
  vhost_name = "cell1";
  observed_generation = 0;
  vhost_ready = unset;
  ready = unset;
}

abbrev cluster : Cluster
cluster = record {
  name = "rabbitmq";
  deleted = false;
  ready_count = 3;
  default_user = some (some "rabbitmq-default-user");
  tls_secret_name = "";
  ca_secret_name = "";
  service_hostnames = [];
  queue_type = none;
  status_queue_type = "";
}

unset-ne-is_met : ¬ (unset ≡ is_met)
unset-ne-is_met = ground arith

reconcile_live-Obeys_example :
    Obeys (creation_rules nova) (λ h y. Unit {0}) [] (reconcile_live controllerutil nova)
reconcile_live-Obeys_example =
    reconcile_live-Obeys controllerutil controllerutil-Adds nova unset-ne-is_met

reconcile_delete-IsVhostDeletion_example :
    IsVhostDeletion controllerutil (cells ("rmquser.openstack.org/u-nova" ∷ []) (some 0)) (
      Vhosts.reconcile_delete controllerutil (cells ("rmquser.openstack.org/u-nova" ∷ []) (some 0)))
reconcile_delete-IsVhostDeletion_example =
    reconcile_delete-IsVhostDeletion controllerutil
      (cells ("rmquser.openstack.org/u-nova" ∷ []) (some 0))

abbrev rotating : TransportUrl
rotating = record {
  name = "nova";
  uid = "t1";
  deleted = false;
  is_new = false;
  annotations = empty;
  finalizers = [];
  generation = 2;
  rabbitmq_cluster_name = "rabbitmq";
  username = "nova2";
  vhost = "";
  user_ref = "";
  status_cluster_name = "rabbitmq";
  status_username = "nova1";
  status_vhost = "/";
  status_user_ref = "nova1-0a1b2c3d";
  previous_user_ref = "nova1-0a1b2c3d";
  secret_name = "rabbitmq-transport-url-nova";
  secret_hash = "";
  previous_secret_name = "";
  status_queue_type = "";
  observed_generation = 1;
  url_ready = unset;
  ready = unset;
}

try_release_pending_user-IsOrderlyRelease_example :
    IsOrderlyRelease rotating (try_release_pending_user controllerutil rotating)
try_release_pending_user-IsOrderlyRelease_example =
    try_release_pending_user-IsOrderlyRelease rotating controllerutil

nova-ne-nil : ¬ (nova.username ≡ "")
nova-ne-nil e = cc e

reconcile_delete-IsHeldVhostDeletion_example :
    IsHeldVhostDeletion controllerutil (cells ("rmquser.openstack.org/u-nova" ∷ []) (some 0)) (
      Vhosts.reconcile_delete controllerutil (cells ("rmquser.openstack.org/u-nova" ∷ []) (some 0)))
reconcile_delete-IsHeldVhostDeletion_example =
    reconcile_delete-IsHeldVhostDeletion controllerutil nova
      (cells ("rmquser.openstack.org/u-nova" ∷ []) (some 0)) nova-ne-nil (ground arith)

find_transport_urls_from_finalizers-contains_example :
    contains
      (find_transport_urls_from_finalizers ("other" ∷ "turl.openstack.org/t-nova" ∷ []))
      "nova"
    ≡ true
unfolding transport_url_finalizer_for
find_transport_urls_from_finalizers-contains_example =
    find_transport_urls_from_finalizers-contains (λ s. "0a1b2c3d") "nova"
      ("other" ∷ "turl.openstack.org/t-nova" ∷ []) refl (ground arith)
