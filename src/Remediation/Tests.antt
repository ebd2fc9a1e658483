-- ===== src/Remediation/Tests.antt =====
-- The theorems on the PodRemediator (internal/controller/remediation) at concrete objects.
use infra_operator.Base.{◌≡◌, ◌↔◌, refl, true, false, none, some, [], ◌∷◌, string_eq, nat_eq, arith}
use infra_operator.Base.StringMap.{empty, set, get}
use infra_operator.Remediation.Objects.{
  Pvc, PodRemediator, pvc_stuck_on_node, has_remediation_consent, observed,
}
use infra_operator.Remediation.Commit.{
  phase_committed, deletion_commit_state, committed_pvc_deletion_value, prepared_commit_matches_pvc,
  finalized_commit_matches_pvc, pvc_deletion_consent_matches, deletion_commit_name,
  decode_deletion_commit, valid,
}
use infra_operator.Remediation.Api.{run, ok, get_pvc, list_pods, delete_commit, delete_pvc}
use text.Mathlib.TextEquality.{eq_iff}
use infra_operator.Remediation.Fencing.{
  snr_node_name, is_completed, scan_snr, scan_snrs, fenced_nodes,
}
use infra_operator.Remediation.Calls.{start_request_annotations, users, annotate}
use infra_operator.Remediation.Resume.{resume_committed_pvc_deletion}
use infra_operator.Remediation.Delete.{delete_pvc_and_pods}
use infra_operator.Remediation.Trace.{Obeys}
use infra_operator.Remediation.Sanction.{IsSanctioned}
use infra_operator.Remediation.Authority.{IsAuthorized, resume-IsAuthorized}
use infra_operator.Remediation.Transaction.{delete_pvc_and_pods-IsSanctioned}
use infra_operator.Remediation.Handshake.{grant, start_request-consent}
use infra_operator.Remediation.Decoding.{IsComplete, decode_deletion_commit_iff}
use infra_operator.Remediation.Evidence.{IsListed, IsEvidence, count_active, fenced_nodes_sound}
use infra_operator.Remediation.Objects.{Duration, lasting}
use infra_operator.Remediation.Recover.{ResumeResult}
use infra_operator.Remediation.Scan.{Outcome}
use infra_operator.Remediation.Verdict.{build_scan_result}
use infra_operator.Remediation.Reconcile.{reconcile_normal, reconcile_delete}
use infra_operator.Remediation.Namespaces.{
  pod_remediator_namespaces, pod_remediator_watches_namespace, IsDistinct,
  pod_remediator_namespaces-exact,
}
use infra_operator.Remediation.Modes.{
  IsActive, IsIdle, IsMaintenance, reconcile_normal-IsActive, reconcile_normal-IsIdle,
  reconcile-IsMaintenance,
}
use infra_operator.Remediation.Requeue.{IsRetried, build_scan_result-IsRetried}
use infra_operator.Remediation.Completion.{resume_committed_pvc_deletion-completes}
use infra_operator.Remediation.Objects.{observed, pvc_deletion_committed}
use infra_operator.Remediation.Commit.{deletion_commit_token, deletion_commit_finalized}
use infra_operator.Remediation.Cluster.{
  Cluster, request, claim, remediator, snr, record_in, stored, env,
}

resume-IsAuthorized_example :
    Obeys
      (IsAuthorized claim (record_in phase_committed))
      []
      (resume_committed_pvc_deletion env claim stored (record_in phase_committed))
resume-IsAuthorized_example = resume-IsAuthorized env claim stored (record_in phase_committed)

delete_pvc_and_pods-IsSanctioned_example :
    Obeys
      (IsSanctioned remediator claim "node1" env)
      []
      (delete_pvc_and_pods env remediator claim "node1")
delete_pvc_and_pods-IsSanctioned_example =
    delete_pvc_and_pods-IsSanctioned env remediator claim "node1"

start_request-consent_example :
    let a = start_request_annotations remediator claim.annotations "node1" "node-uid" request in
    (has_remediation_consent a ≡ false)
    × (pvc_deletion_consent_matches
          (annotate claim (grant request a))
          "remediator-uid"
          "node1"
          request
        ≡ true)
    × (has_remediation_consent (grant "stale" a) ≡ false)
start_request-consent_example =
    start_request-consent remediator claim "node1" "node-uid" request "stale"
      (ground (arith, eq_iff request "")) (ground (arith, eq_iff "node-uid" ""))
      (ground (arith, eq_iff "stale" request))

-- The claim before its owner has consented.
abbrev unconsented : Pvc
unconsented = record claim { annotations = set pvc_stuck_on_node "node1" empty }

decode_deletion_commit_iff_example :
    (decode_deletion_commit env.digest env.unmarshal stored ≡ valid (record_in phase_committed)) ↔ (
      (env.unmarshal (get stored.annotations deletion_commit_state)
        ≡ some (record_in phase_committed))
      × IsComplete (record_in phase_committed)
      × (stored.name ≡ deletion_commit_name env.digest env.unmarshal "pvc-uid"))
decode_deletion_commit_iff_example =
    decode_deletion_commit_iff env.digest env.unmarshal stored (record_in phase_committed)

fenced_nodes_sound_example :
    IsListed snr (snr ∷ []) × IsEvidence "node1" snr × (count_active "node1" (snr ∷ []) ≡ 1)
unfolding fenced_nodes scan_snrs scan_snr is_completed snr_node_name string_eq nat_eq
fenced_nodes_sound_example = fenced_nodes_sound (snr ∷ []) "node1" snr refl

abbrev minutes : Duration
minutes = lasting 120000000000

reconcile_normal-IsActive_example :
    Obeys (IsActive env remediator) [] (reconcile_normal env minutes minutes remediator)
reconcile_normal-IsActive_example = reconcile_normal-IsActive env remediator minutes minutes

abbrev on_hold : PodRemediator
on_hold = record remediator { remediation_paused = true }

reconcile_normal-IsIdle_example :
    Obeys (IsIdle env on_hold) [] (reconcile_normal env minutes minutes on_hold)
reconcile_normal-IsIdle_example = reconcile_normal-IsIdle env on_hold minutes minutes refl

reconcile-IsMaintenance_example :
    Obeys
      (IsMaintenance env "remediator-uid")
      []
      (reconcile_normal env minutes minutes (record remediator { disabled = true }))
    × Obeys (IsMaintenance env "remediator-uid") [] (reconcile_delete env remediator)
reconcile-IsMaintenance_example = reconcile-IsMaintenance env remediator minutes minutes

abbrev several : PodRemediator
several = record remediator { namespaces = "openstack" ∷ "" ∷ "database" ∷ "openstack" ∷ [] }

pod_remediator_namespaces-exact_example :
    IsDistinct (pod_remediator_namespaces several)
    × (pod_remediator_watches_namespace several "database" ≡ true)
unfolding string_eq
pod_remediator_namespaces-exact_example = pod_remediator_namespaces-exact several "database"

abbrev outcome : Outcome
outcome = record {
  had_error = false;
  pending_committed_deletion = true;
  blocked_by_replacement_pod = "";
  waiting_for_consent = 1;
  waiting_for_fencing = 0;
  paused_requests = 0;
}

abbrev resumed : ResumeResult
resumed = record {
  pending = true;
  blocked_by_replacement_pod = "";
  blocked_by_invalid_commit = "";
  pending_pvc_uids = "pvc-uid" ∷ [];
  blocked_pvc_uids = [];
  aborted_pvc_uids = [];
}

build_scan_result-IsRetried_example :
    IsRetried (build_scan_result remediator outcome resumed minutes minutes)
build_scan_result-IsRetried_example =
    build_scan_result-IsRetried remediator outcome resumed minutes minutes refl refl

-- The claim with the marker and the finalized token of its record.
abbrev committed_claim : Pvc
committed_claim = record claim {
  annotations = set deletion_commit_finalized "token" (
      set deletion_commit_token "token"
        (set pvc_deletion_committed "v1|node1|pvc-uid|remediator-uid" empty));
}

abbrev before : Cluster
before = record { claim = some committed_claim; commit = some stored; pods = [] }

resume_committed_pvc_deletion-completes_example :
    run env
      (resume_committed_pvc_deletion env committed_claim stored (record_in phase_committed))
      (record { world = before; trace = [] })
    ≡ (
      ok (record { pending = false; aborted = false; blocked = ""; pvc = committed_claim }),
      record {
        world = record { claim = none; commit = none; pods = [] };
        trace =
            delete_commit stored (observed "commit-uid" "3")
            ∷ get_pvc (record { namespace = "openstack"; name = "mysql-db" })
            ∷ delete_pvc committed_claim (observed "pvc-uid" "7")
            ∷ list_pods "openstack"
            ∷ list_pods "openstack"
            ∷ [];
      },
    )
unfolding finalized_commit_matches_pvc prepared_commit_matches_pvc committed_pvc_deletion_value
    users string_eq
resume_committed_pvc_deletion-completes_example =
    resume_committed_pvc_deletion-completes env committed_claim stored (record_in phase_committed)
      [] before (record { claim = none; commit = some stored; pods = [] })
      (record { claim = none; commit = none; pods = [] }) [] refl refl refl refl refl refl refl
