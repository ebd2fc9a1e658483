-- ===== src/Remediation/Reconcile.antt =====
-- One reconciliation of a PodRemediator: `reconcileNormal`, `reconcileDelete`, `cleanupAnnotations`
-- and `checkNHCAndSNR` of podremediator_controller.go (internal/controller/remediation).
use infra_operator.Base.{
  String, Bool, true, false, ◌&&◌, ◌||◌, not, Option, none, some, List, [], ◌∷◌, ◌==◌, string_eq,
  nat_eq, ltb, length, any, contains, if◌then◌else◌,
}
use infra_operator.Base.StringMap.{get}
use infra_operator.Remediation.Objects.{
  Pvc, Node, Snr, PodRemediator, Duration, remediator_uid, pvc_stuck_on_node,
  has_remediation_annotations, clear_remediation_annotations,
}
use infra_operator.Remediation.Fencing.{is_node_unhealthy, fencing_matches_node}
use infra_operator.Remediation.Api.{
  Result, failed, is_not_found, list_pvcs, list_nodes, list_health_checks, list_snr_templates, Env,
  M, ◌>>=◌, pure, fail, on, ask, when, wrap, attempt,
}
use infra_operator.Remediation.Calls.{checked, patch_annotations, is_no_match, get_fenced_nodes}
use infra_operator.Remediation.Recover.{ResumeResult, resume_committed_pvc_deletions}
use infra_operator.Remediation.Namespaces.{pod_remediator_namespaces}
use infra_operator.Remediation.Scan.{Snapshot, Outcome, failing, process_existing, process_new}
use infra_operator.Remediation.Verdict.{
  Condition, ready, not_ready, input_ready, input_not_ready, Reconciled, requeued, erring, second,
  default_consent_poll_interval, default_periodic_poll_interval, is_below, effective_interval,
  invalid_pvc_deletion_commit_reason, error_reason, pending_deletion_condition, build_scan_result,
}

abbrev pub nhc_not_found_reason : String
nhc_not_found_reason = "NHC/SNRNotFound"

abbrev pub nhc_required_message : String
nhc_required_message =
    "Node Health Check (NHC) and Self Node Remediation (SNR) are required; controller cannot proceed without them"

-- The handshake of the claim is this owner's, or nobody's where those count.
unfoldable pub is_cleaned : String → Bool → Pvc → Bool
is_cleaned owner legacy p =
    let holder = get p.annotations remediator_uid in
    (holder == owner || (holder == "" && legacy)) && has_remediation_annotations p.annotations

abbrev pub node_named : List Node → String → Bool
node_named ns name = any (λ n. n.name == name) ns

abbrev pub unhealthy_named : List Node → String → Bool
unhealthy_named ns name = any (λ n. n.name == name && is_node_unhealthy n) ns

-- `nodeUIDByName[name]`: of two nodes with one name the later counts.
unfoldable pub uid_named : List Node → String → String
uid_named [] name = ""
uid_named (n ∷ ns) name =
    let rest = uid_named ns name in
    if node_named ns name then rest else if n.name == name then n.uid else ""

-- A node of that name is there to which the SNR does not belong.
unfoldable pub has_mismatch : List Node → Snr → String → Bool
has_mismatch ns snr name =
    any (λ n. n.name == name && not (fencing_matches_node (some snr) (some n))) ns

unfoldable pub live_fencing : List Node → (String → Option Snr) → String → Option Snr
live_fencing ns fenced name = elim (fenced name) [
  | none ↦ none
  | some snr ↦ if has_mismatch ns snr name then none else some snr
]

unfoldable pub snapshot : PodRemediator → List Node → (String → Option Snr) → Snapshot
snapshot r ns fenced = record {
  instance = r;
  nodes = ns;
  is_unhealthy = unhealthy_named ns;
  is_known = node_named ns;
  has_unhealthy = any is_node_unhealthy ns;
  node_uid = uid_named ns;
  fenced = live_fencing ns fenced;
}

-- The claims that the scan passes over: recovery has handled them, or another owner holds them.
unfoldable pub is_passed_over : PodRemediator → ResumeResult → Pvc → Bool
is_passed_over r resumed p =
    contains resumed.pending_pvc_uids p.uid
    || contains resumed.aborted_pvc_uids p.uid
    || contains resumed.blocked_pvc_uids p.uid
    || (not (get p.annotations remediator_uid == "")
        && not (get p.annotations remediator_uid == r.uid))

module _ (e : Env) where
  unfoldable pub clean_claims : String → Bool → List Pvc → Bool → M Bool
  clean_claims owner legacy [] bad = pure bad
  clean_claims owner legacy (p ∷ ps) bad =
      when (not (is_cleaned owner legacy p)) (clean_claims owner legacy ps bad) (do
        r ← attempt (patch_annotations e p (clear_remediation_annotations p.annotations))
        on r (λ _. clean_claims owner legacy ps bad) λ _. clean_claims owner legacy ps true)

  unfoldable pub clean_namespaces : String → Bool → List String → Bool → M Bool
  clean_namespaces owner legacy [] bad = pure bad
  clean_namespaces owner legacy (n ∷ ns) bad = do
    r ← ask e (list_pvcs n)
    on r
        (λ pvcs. do
          worse ← clean_claims owner legacy pvcs bad
          clean_namespaces owner legacy ns worse)
        λ _. clean_namespaces owner legacy ns true

  unfoldable pub cleanup_annotations : List String → String → Bool → M (Unit {0})
  cleanup_annotations namespaces owner legacy = do
    bad ← clean_namespaces owner legacy namespaces false
    when bad (fail (failed "annotation cleanup had errors; requeueing to retry")) (pure tt)

  -- `listDynamicOptional` on the two kinds that the controller depends on.
  abbrev pub found : Result (List String) → M Bool
  found r =
      on r (λ xs. pure (ltb 0 (length xs)))
        λ x. when (is_no_match x || is_not_found x) (pure false) (fail x)

  unfoldable pub check_nhc_and_snr : M Bool
  check_nhc_and_snr = do
    r ← ask e list_health_checks
    has_checks ← found r
    when (not has_checks) (pure false) (ask e list_snr_templates >>= λ t. found t)

  unfoldable pub scan_claim : Snapshot → ResumeResult → Pvc → Outcome → M Outcome
  scan_claim scan resumed p o = when (is_passed_over scan.instance resumed p) (pure o) (
      let stuck = get p.annotations pvc_stuck_on_node in
      when (not (stuck == "")) (process_existing e scan p stuck o) (process_new e scan p o))

  unfoldable pub scan_claims : Snapshot → ResumeResult → List Pvc → Outcome → M Outcome
  scan_claims scan resumed [] o = pure o
  scan_claims scan resumed (p ∷ ps) o =
      scan_claim scan resumed p o >>= λ q. scan_claims scan resumed ps q

  unfoldable pub scan_namespaces : Snapshot → ResumeResult → List String → Outcome → M Outcome
  scan_namespaces scan resumed [] o = pure o
  scan_namespaces scan resumed (n ∷ ns) o = do
    r ← ask e (list_pvcs n)
    on r (λ pvcs. do q ← scan_claims scan resumed pvcs o; scan_namespaces scan resumed ns q)
        λ _. scan_namespaces scan resumed ns (failing o)

  -- From the list of nodes on.
  unfoldable pub scan_cluster : PodRemediator → List String → ResumeResult → M Outcome
  scan_cluster r namespaces resumed = do
    nodes ← wrap "list nodes" (checked e (ask e list_nodes))
    fenced ← wrap "list SelfNodeRemediation CRs" (get_fenced_nodes e)
    scan_namespaces (snapshot r nodes fenced) resumed namespaces (record {
      had_error = false;
      pending_committed_deletion = resumed.pending;
      blocked_by_replacement_pod = resumed.blocked_by_replacement_pod;
      waiting_for_consent = 0;
      waiting_for_fencing = 0;
      paused_requests = 0;
    })

  abbrev available : Condition
  available = input_ready "NHC and SNR are available"

  -- Behind the check of the dependencies.
  unfoldable pub monitor :
      PodRemediator → List String → ResumeResult → Duration → Duration → M Reconciled
  monitor r namespaces resumed consent_poll periodic_poll =
      when r.disabled
        (pure (requeued (available ∷ ready "PVC remediation is disabled" [] ∷ []) periodic_poll))
        (do
          scanned ← attempt (scan_cluster r namespaces resumed)
          on scanned
              (λ o.
                let built = build_scan_result r o resumed consent_poll periodic_poll in
                pure (record built { conditions = available ∷ built.conditions }))
              λ x. pure (erring (available ∷ []) x))

  -- Behind maintenance: intervals and dependencies.
  unfoldable pub check_and_monitor :
      PodRemediator → List String → ResumeResult → Duration → Duration → M Reconciled
  check_and_monitor r namespaces resumed consent_poll periodic_poll =
      when (is_below consent_poll second || is_below periodic_poll second)
        (pure (record {
          conditions =
              not_ready error_reason true
                "Invalid poll interval (consentPollInterval=%s periodicPollInterval=%s): must be >= 1s"
              ∷ [];
          requeue_after = if resumed.pending then some default_consent_poll_interval else none;
          error = none;
          finalizer_removed = false;
        }))
        (do
          there ← attempt check_nhc_and_snr
          on there
              (λ both. when both (monitor r namespaces resumed consent_poll periodic_poll) (
                pure (
                  requeued
                    (input_not_ready nhc_not_found_reason true nhc_required_message
                      ∷ not_ready nhc_not_found_reason true nhc_required_message
                      ∷ [])
                    (if resumed.pending then default_consent_poll_interval else periodic_poll))))
              λ x. pure (
                erring
                  (input_not_ready error_reason true "NHC/SNR check failed"
                    ∷ not_ready error_reason true nhc_required_message
                    ∷ [])
                  x))

  -- Maintenance, while remediation is disabled.
  unfoldable pub maintain : PodRemediator → List String → ResumeResult → M Reconciled → M Reconciled
  maintain r namespaces resumed rest = when (not r.disabled) rest (do
    cleaned ← attempt (cleanup_annotations namespaces r.uid true)
    on cleaned
        (λ _.
          when (not (length resumed.blocked_pvc_uids == 0))
            (pure (
              requeued
                (not_ready invalid_pvc_deletion_commit_reason false
                    resumed.blocked_by_invalid_commit
                  ∷ [])
                default_consent_poll_interval))
            (when resumed.pending
              (pure (
                requeued (pending_deletion_condition "" resumed.blocked_by_replacement_pod ∷ [])
                  default_consent_poll_interval))
              rest))
        λ x. pure (erring (not_ready error_reason false "%s" ∷ []) x))

  -- The two arguments before the last are the reconciler's intervals from the environment.
  unfoldable pub reconcile_normal : Duration → Duration → PodRemediator → M Reconciled
  reconcile_normal consent_default periodic_default r = do
    let consent_poll =
        effective_interval r.consent_poll_interval consent_default default_consent_poll_interval
    let periodic_poll =
        effective_interval r.periodic_poll_interval periodic_default default_periodic_poll_interval
    let namespaces = pod_remediator_namespaces r
    resumed ← attempt (resume_committed_pvc_deletions e namespaces r.uid)
    on resumed
        (λ result.
          maintain r namespaces result
            (check_and_monitor r namespaces result consent_poll periodic_poll))
        λ x. pure (erring (not_ready error_reason false "%s" ∷ []) x)

  unfoldable pub reconcile_delete : PodRemediator → M Reconciled
  reconcile_delete r = do
    let namespaces = pod_remediator_namespaces r
    resumed ← attempt (resume_committed_pvc_deletions e namespaces r.uid)
    on resumed
        (λ result.
          when (result.pending || not (length result.blocked_pvc_uids == 0))
            (pure (
              requeued
                (pending_deletion_condition result.blocked_by_invalid_commit
                    result.blocked_by_replacement_pod
                  ∷ [])
                default_consent_poll_interval))
            (do
              cleaned ← attempt (cleanup_annotations namespaces r.uid true)
              on cleaned
                  (λ _. pure (record {
                    conditions = [];
                    requeue_after = none;
                    error = none;
                    finalizer_removed = true;
                  }))
                  λ x. pure (erring [] x)))
        λ x. pure (erring [] x)
