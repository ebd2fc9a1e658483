-- ===== src/Remediation/Verdict.antt =====
-- How the outcome of a scan becomes a condition and a requeue interval: `buildScanResult`,
-- `setPendingDeletionCondition` and `effectiveInterval` of podremediator_controller.go
-- (internal/controller/remediation).
use infra_operator.Base.{
  ℕ, String, Bool, true, false, ◌||◌, not, Option, none, some, List, [], ◌∷◌, ◌==◌, string_eq,
  nat_eq, ltb, length, if◌then◌else◌,
}
use infra_operator.Remediation.Objects.{PodRemediator, Duration, lasting, minus}
use infra_operator.Remediation.Api.{Error, failed}
use infra_operator.Remediation.Recover.{ResumeResult}
use infra_operator.Remediation.Scan.{Outcome}

-- A change of the Ready or the InputReady condition: a message's format and its numbers, or a reason,
-- whether the severity is "Error", and a message.
pub data Condition : Type 0 where
  ready : String → List ℕ → Condition
  not_ready : String → Bool → String → Condition
  input_ready : String → Condition
  input_not_ready : String → Bool → String → Condition

-- What a reconciliation returns: the conditions it set, in order, `RequeueAfter` (`none` for an empty
-- result), its error, and whether it removed the finalizer.
pub record Reconciled : Type 0 where
  pub conditions : List Condition
  pub requeue_after : Option Duration
  pub error : Option Error
  pub finalizer_removed : Bool

abbrev pub second : ℕ
second = 1000000000

abbrev pub default_consent_poll_interval : Duration
default_consent_poll_interval = lasting 120000000000

abbrev pub default_periodic_poll_interval : Duration
default_periodic_poll_interval = lasting 300000000000

abbrev pub is_positive : Duration → Bool
is_positive (lasting n) = ltb 0 n
is_positive (minus n) = false

abbrev pub is_below : Duration → ℕ → Bool
is_below (lasting n) m = ltb n m
is_below (minus n) m = true

abbrev pub min_duration : Duration → Duration → Duration
min_duration (lasting n) (lasting m) = if ltb m n then lasting m else lasting n
min_duration (lasting n) (minus m) = minus m
min_duration (minus n) (lasting m) = minus n
min_duration (minus n) (minus m) = if ltb n m then minus m else minus n

unfoldable pub effective_interval : Option Duration → Duration → Duration → Duration
effective_interval (some d) reconciler fallback = d
effective_interval none reconciler fallback =
    if is_positive reconciler then reconciler else fallback

abbrev pub invalid_pvc_deletion_commit_reason : String
invalid_pvc_deletion_commit_reason = "InvalidPVCDeletionCommit"

abbrev pub replacement_pod_blocks_pvc_deletion_reason : String
replacement_pod_blocks_pvc_deletion_reason = "ReplacementPodBlocksPVCDeletion"

abbrev pub error_reason : String
error_reason = "Error"

unfoldable pub pending_deletion_condition : String → String → Condition
pending_deletion_condition invalid_message replacement_message =
    if not (invalid_message == "")
    then not_ready invalid_pvc_deletion_commit_reason false invalid_message
    else if not (replacement_message == "")
    then not_ready replacement_pod_blocks_pvc_deletion_reason false replacement_message
    else ready "Completing a previously committed PVC deletion" []

abbrev pub requeued : List Condition → Duration → Reconciled
requeued cs d = record {
  conditions = cs;
  requeue_after = some d;
  error = none;
  finalizer_removed = false;
}

abbrev pub erring : List Condition → Error → Reconciled
erring cs x = record {
  conditions = cs;
  requeue_after = none;
  error = some x;
  finalizer_removed = false;
}

-- A claim waits for its fencing or for its owner's consent.
abbrev pub is_waiting : Outcome → Bool
is_waiting o = ltb 0 o.waiting_for_consent || ltb 0 o.waiting_for_fencing

unfoldable pub paused_result : Outcome → Duration → Duration → Reconciled
paused_result o consent_poll periodic_poll =
    requeued
      ((if ltb 0 o.paused_requests
          then ready "PVC remediation is paused; %d request(s) retained" (o.paused_requests ∷ [])
          else ready "PVC remediation is paused" [])
        ∷ [])
      (if ltb 0 o.paused_requests || is_waiting o then consent_poll else periodic_poll)

unfoldable pub build_scan_result :
    PodRemediator → Outcome → ResumeResult → Duration → Duration → Reconciled
build_scan_result instance o resumed consent_poll periodic_poll =
    if o.had_error
    then erring
        (not_ready error_reason false
            "Partial scan: errors listing PVCs or fetching PVs; will retry"
          ∷ [])
        (failed "partial scan errors during PVC remediation; requeueing")
    else if o.pending_committed_deletion
    then requeued (pending_deletion_condition "" o.blocked_by_replacement_pod ∷ []) (
        if is_waiting o
        then min_duration default_consent_poll_interval consent_poll
        else default_consent_poll_interval)
    else if not (length resumed.blocked_pvc_uids == 0)
    then requeued
        (not_ready invalid_pvc_deletion_commit_reason false resumed.blocked_by_invalid_commit ∷ [])
        default_consent_poll_interval
    else if instance.remediation_paused
    then paused_result o consent_poll periodic_poll
    else if ltb 0 o.waiting_for_fencing
    then requeued
        (ready "%d PVC(s) waiting for SNR fencing confirmation; %d waiting for consent"
            (o.waiting_for_fencing ∷ o.waiting_for_consent ∷ [])
          ∷ [])
        consent_poll
    else if ltb 0 o.waiting_for_consent
    then requeued
        (ready "%d PVC(s) waiting for app-operator safe-to-delete consent"
            (o.waiting_for_consent ∷ [])
          ∷ [])
        consent_poll
    else requeued (ready "Monitoring; remediating PVCs on unhealthy nodes as authorized" [] ∷ [])
        periodic_poll
