-- ===== src/Remediation/Scenario.antt =====
-- A run of `deletePVCAndPods` (internal/controller/remediation) on the cluster in memory.
use infra_operator.Base.{◌≡◌, refl, none, [], string_eq, nat_eq}
use infra_operator.Remediation.Objects.{
  has_remediation_consent, has_remediation_annotations, clear_remediation_annotations, observed,
}
use infra_operator.Remediation.Commit.{
  has_deletion_commit_annotations, committed_pvc_deletion_value, committed_deletion,
  prepared_commit_matches_pvc, finalized_commit_matches_pvc, pvc_deletion_consent_matches,
  pod_uses_pvc, remediation_request_id, has_unnamed_pod, deletion_commit_name, check_commit,
  decode_deletion_commit,
}
use infra_operator.Remediation.Api.{
  ok, is_not_found, is_already_exists, is_rejected, ◌>>=◌, pure, fail, on, on_some, ask, when, wrap,
  attempt, on_decoded, run,
}
use infra_operator.Remediation.Fencing.{
  snr_node_name, fencing_matches_node, is_node_unhealthy, is_completed, scan_snr, scan_snrs,
  fenced_nodes, pv_has_local_node_affinity, is_local_pv_node_topology_key,
  resolve_pv_topology_requirement, sole_value, resolve_expressions, resolve_terms,
  resolve_local_pv_node_name, direct_terms, get_direct_local_pv_node_name,
}
use infra_operator.Remediation.Calls.{
  clear_aborted_annotations, start_request_annotations, users, checked, read_pvc, patch_annotations,
  start_request, clear_aborted_pvc, pods_using_pvc, delete_the_commit, discard_prepared,
  is_remediation_paused, get_fenced_nodes, fencing_without_node, deletion_fencing_current,
}
use infra_operator.Remediation.Resume.{
  replacement_pod_blocking_message, authorized, is_stranger, first_stranger, is_force_deleted,
  delete_pods, stop_for_stranger, confirm_deletion, delete_claim, clean_up,
  resume_committed_pvc_deletion,
}
use infra_operator.Remediation.Recover.{
  pvc_by_commit_name, reject_prepared, adopt_promoted, promote_prepared, recover_invalid,
  continue_cleanup, abandon_prepared, abandon_committed, recover_valid, recover_commit,
  recover_commits, scrub, recover_namespace, recover_namespaces, resume_committed_pvc_deletions,
}
use infra_operator.Remediation.Prepare.{
  select_pods, is_conflicting, is_stale, mark_annotations, finalized, adopt_commit, create_or_adopt,
  verify_marker, ensure_provisional_marker, verify_finalized, finalize_prepared, settled,
}
use infra_operator.Remediation.Delete.{
  finish, resume_adopted, promote_and_finish, finalize_and_finish, commit_deletion,
  select_and_commit, delete_pvc_and_pods,
}
use infra_operator.Remediation.Objects.{observed}
use infra_operator.Remediation.Cluster.{claim, remediator, env, start}

-- The whole transaction on this cluster: the Pod, the claim and the record are gone.
deletes :
    let (r, s) = run env (delete_pvc_and_pods env remediator claim "node1") start in
    (r ≡ ok settled) × (s.world ≡ record { claim = none; commit = none; pods = [] })
unfolding has_remediation_consent has_remediation_annotations clear_remediation_annotations observed
    has_deletion_commit_annotations committed_pvc_deletion_value committed_deletion
    prepared_commit_matches_pvc finalized_commit_matches_pvc pvc_deletion_consent_matches
    pod_uses_pvc remediation_request_id has_unnamed_pod deletion_commit_name check_commit
    decode_deletion_commit snr_node_name fencing_matches_node is_node_unhealthy is_completed
    scan_snr scan_snrs fenced_nodes pv_has_local_node_affinity is_local_pv_node_topology_key
    resolve_pv_topology_requirement sole_value resolve_expressions resolve_terms
    resolve_local_pv_node_name direct_terms get_direct_local_pv_node_name is_not_found
    is_already_exists is_rejected ◌>>=◌ pure fail on on_some ask when wrap attempt on_decoded
    clear_aborted_annotations start_request_annotations users checked read_pvc patch_annotations
    start_request clear_aborted_pvc pods_using_pvc delete_the_commit discard_prepared
    is_remediation_paused get_fenced_nodes fencing_without_node deletion_fencing_current
    replacement_pod_blocking_message authorized is_stranger first_stranger is_force_deleted
    delete_pods stop_for_stranger confirm_deletion delete_claim clean_up
    resume_committed_pvc_deletion pvc_by_commit_name reject_prepared adopt_promoted promote_prepared
    recover_invalid continue_cleanup abandon_prepared abandon_committed recover_valid recover_commit
    recover_commits scrub recover_namespace recover_namespaces resume_committed_pvc_deletions
    select_pods is_conflicting is_stale mark_annotations finalized adopt_commit create_or_adopt
    verify_marker ensure_provisional_marker verify_finalized finalize_prepared finish resume_adopted
    promote_and_finish finalize_and_finish commit_deletion select_and_commit delete_pvc_and_pods run
    string_eq nat_eq
deletes = (refl, refl)
