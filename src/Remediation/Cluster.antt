-- ===== src/Remediation/Cluster.antt =====
-- A cluster in memory with one claim stuck on a fenced node, for the tests
-- (internal/controller/remediation).
use infra_operator.Remediation.Objects
use infra_operator.Base.{
  String, false, Option, none, some, List, [], ◌∷◌, ◌==◌, string_eq, nat_eq, if◌then◌else◌,
}
use infra_operator.Base.StringMap.{empty, set}
use infra_operator.Remediation.Objects.{
  ObjectKey, Pvc, Pod, ConfigMap, Node, Snr, Pv, PodRemediator, pvc_stuck_on_node, safe_to_delete,
  consent_id, remediator_uid, fencing_node_uid, has_remediation_consent,
  has_remediation_annotations, clear_remediation_annotations, observed,
}
use infra_operator.Remediation.Commit.{
  DeletionCommit, phase_prepared, phase_committed, deletion_commit_state,
}
use infra_operator.Remediation.Api.{
  not_found, Result, ok, err, Request, get_pvc, get_commit, get_remediator, get_node, get_pv,
  list_pods, list_pvcs, list_commits, list_snrs, list_nodes, list_health_checks, list_snr_templates,
  random_token, patch_pvc, create_commit, update_commit, delete_commit, delete_pod, delete_pvc,
  Reply, Env, State,
}
use infra_operator.Remediation.Objects.{Duration, lasting}
use infra_operator.Remediation.Objects.{observed, pvc_deletion_committed}

pub record Cluster : Type 0 where
  pub claim : Option Pvc
  pub commit : Option ConfigMap
  pub pods : List Pod

abbrev pub request : String
request = "remediator-uid:pvc-uid:snr-uid"

abbrev pub claim : Pvc
claim = record {
  name = "mysql-db";
  namespace = "openstack";
  uid = "pvc-uid";
  resource_version = "7";
  annotations = set pvc_stuck_on_node "node1" (
      set safe_to_delete "true" (
        set Objects.request_id request (
          set consent_id request
            (set remediator_uid "remediator-uid" (set fencing_node_uid "node-uid" empty)))));
  deletion_timestamp = none;
  volume_name = "pv1";
}

abbrev pub user : Pod
user = record {
  name = "galera-0";
  namespace = "openstack";
  uid = "pod-uid";
  resource_version = "5";
  node_name = "node1";
  volumes = some "mysql-db" ∷ [];
  deletion_timestamp = none;
  deletion_grace_period = none;
}

abbrev pub remediator : PodRemediator
remediator = record {
  name = "remediator";
  namespace = "openstack";
  uid = "remediator-uid";
  disabled = false;
  remediation_paused = false;
  namespaces = [];
  consent_poll_interval = none;
  periodic_poll_interval = none;
}

abbrev pub node : Node
node = record {
  name = "node1";
  uid = "node-uid";
  creation_timestamp = 10;
  labels = empty;
  conditions = record { kind = "Ready"; status = "Unknown" } ∷ [];
}

abbrev pub snr : Snr
snr = record {
  name = "node1";
  uid = "snr-uid";
  annotations = empty;
  labels = empty;
  creation_timestamp = 20;
  deletion_timestamp = none;
  phase = some "Fencing-Completed";
}

abbrev pub record_in : String → DeletionCommit
record_in phase = record {
  pvc_name = "mysql-db";
  pvc_uid = "pvc-uid";
  pvc_resource_version = "7";
  request_id = request;
  remediator_uid = "remediator-uid";
  node = "node1";
  token = "token";
  phase = phase;
  pods = record { name = "galera-0"; uid = "pod-uid" } ∷ [];
}

abbrev pub stored : ConfigMap
stored = record {
  name = "podremediator-deletion-pvc-uid";
  namespace = "openstack";
  uid = "commit-uid";
  resource_version = "3";
  annotations = set deletion_commit_state phase_committed empty;
}

abbrev pub or_missing : {A : Type 0} → Option A → Result A
or_missing none = err not_found
or_missing (some a) = ok a

abbrev pub as_list : {A : Type 0} → Option A → List A
as_list none = []
as_list (some a) = a ∷ []

abbrev pub answer : (q : Request) → Cluster → Reply q × Cluster
answer (get_pvc k) w = (or_missing w.claim, w)
answer (get_commit k) w = (or_missing w.commit, w)
answer (get_remediator k) w = (ok remediator, w)
answer (get_node n) w = (ok node, w)
answer (get_pv n) w = (err not_found, w)
answer (list_pods n) w = (ok w.pods, w)
answer (list_pvcs n) w = (ok (as_list w.claim), w)
answer (list_commits n) w = (ok (as_list w.commit), w)
answer list_nodes w = (ok (node ∷ []), w)
answer list_health_checks w = (ok ("check" ∷ []), w)
answer list_snr_templates w = (ok ("template" ∷ []), w)
answer list_snrs w = (ok (snr ∷ []), w)
answer random_token w = (ok "token", w)
answer (patch_pvc old new) w = (ok new, record w { claim = some new })
answer (create_commit c) w = (ok c, record w { commit = some c })
answer (update_commit c) w = (ok c, record w { commit = some c })
answer (delete_commit c o) w = (ok tt, record w { commit = none })
answer (delete_pod p o) w = (ok tt, record w { pods = [] })
answer (delete_pvc p o) w = (ok tt, record w { claim = none })

abbrev pub env : Env
env = record {
  World = Cluster;
  reply = answer;
  digest = λ s. s;
  marshal = λ s. some s.phase;
  unmarshal = λ s.
      if s == phase_prepared
      then some (record_in phase_prepared)
      else if s == phase_committed
      then some (record_in phase_committed)
      else none;
}

abbrev pub cluster : Cluster
cluster = record { claim = some claim; commit = none; pods = user ∷ [] }

abbrev pub start : State Cluster
start = record { world = cluster; trace = [] }
