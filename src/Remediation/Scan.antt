-- ===== src/Remediation/Scan.antt =====
-- internal/controller/remediation/pvc_scan.go: one claim's step in the consent handshake. The scan
-- reads a snapshot of the cluster and adds up what it found.
use infra_operator.Base.{
  ℕ, suc, String, Bool, true, ◌&&◌, ◌||◌, not, Option, some, ◌==◌, string_eq, List, if◌then◌else◌,
}
use infra_operator.Base.StringMap.{StringMap, get, delete}
use infra_operator.Remediation.Objects.{
  Pvc, Node, Snr, Pv, PodRemediator, safe_to_delete, consent_id, request_id, remediator_uid,
  fencing_node_uid, clear_remediation_annotations, has_remediation_consent,
}
use infra_operator.Remediation.Commit.{remediation_request_id}
use infra_operator.Remediation.Fencing.{resolve_local_pv_node_name, get_direct_local_pv_node_name}
use infra_operator.Remediation.Api.{
  is_not_found, is_paused, get_pv, Env, M, ◌>>=◌, pure, on, on_some, ask, when, attempt,
}
use infra_operator.Remediation.Calls.{annotate, patch_annotations, start_request}
use infra_operator.Remediation.Prepare.{Deletion}
use infra_operator.Remediation.Delete.{delete_pvc_and_pods}

-- What `pvcRemediationScan` holds of the cluster.
pub record Snapshot : Type 0 where
  pub instance : PodRemediator
  pub nodes : List Node
  pub is_unhealthy : String → Bool
  pub is_known : String → Bool
  pub has_unhealthy : Bool
  pub node_uid : String → String
  pub fenced : String → Option Snr

-- What `pvcRemediationScan` adds up.
pub record Outcome : Type 0 where
  pub had_error : Bool
  pub pending_committed_deletion : Bool
  pub blocked_by_replacement_pod : String
  pub waiting_for_consent : ℕ
  pub waiting_for_fencing : ℕ
  pub paused_requests : ℕ

abbrev pub failing : Outcome → Outcome
failing o = record o { had_error = true }

abbrev pub await_consent : Outcome → Outcome
await_consent o = record o { waiting_for_consent = suc o.waiting_for_consent }

abbrev pub await_fencing : Outcome → Outcome
await_fencing o = record o { waiting_for_fencing = suc o.waiting_for_fencing }

abbrev pub count_paused : Outcome → Outcome
count_paused o = record o { paused_requests = suc o.paused_requests }

-- The result of a deletion that has begun.
abbrev pub add_deletion : Deletion → Outcome → Outcome
add_deletion d o =
    if d.pending
    then record o {
      pending_committed_deletion = true;
      blocked_by_replacement_pod =
          if d.blocked == "" then o.blocked_by_replacement_pod else d.blocked;
    }
    else o

-- A consent without a request is dropped.
unfoldable pub drop_consent : StringMap → StringMap
drop_consent a = delete consent_id (delete safe_to_delete a)

-- The node that the claim's volume is pinned to, as `deleteConsentedPVC` sees it.
unfoldable pub pinned_node : Snapshot → Pvc → Pv → String → String → String
pinned_node scan p pv stuck request =
    let resolved = resolve_local_pv_node_name pv scan.nodes in
    if resolved == ""
      && not (scan.is_known stuck)
      && get p.annotations remediator_uid == scan.instance.uid
      && get p.annotations request_id == request
      && not (get p.annotations fencing_node_uid == "")
      && get_direct_local_pv_node_name pv == stuck
    then stuck
    else resolved

-- The request is another fault's, or another owner's.
unfoldable pub is_outdated : Snapshot → Pvc → String → Bool
is_outdated scan p request =
    not (get p.annotations request_id == request)
    || not (get p.annotations remediator_uid == scan.instance.uid)

module _ (e : Env) (scan : Snapshot) where
  -- `deleteConsentedPVC`
  unfoldable pub delete_consented : Pvc → String → String → Outcome → M Outcome
  delete_consented p stuck request o = when (p.volume_name == "") (pure o) (do
    r ← ask e (get_pv p.volume_name)
    on r
        (λ pv. when (not (pinned_node scan p pv stuck request == stuck)) (pure o) (do
          d ← attempt (delete_pvc_and_pods e scan.instance p stuck)
          on d (λ deletion. pure (add_deletion deletion o))
              λ x. when (is_paused x) (pure (count_paused o)) (pure (failing o))))
        λ x. when (is_not_found x) (pure o) (pure (failing o)))

  -- Fencing of the node is confirmed by this SNR.
  unfoldable pub continue_request : Pvc → String → Snr → Outcome → M Outcome
  continue_request p stuck snr o =
      let request = remediation_request_id scan.instance p (some snr) in
      when (request == "") (pure (failing o)) (
        when (is_outdated scan p request)
          (do
            r ← attempt (start_request e scan.instance p stuck (scan.node_uid stuck) request)
            on r (λ _. pure (await_consent o)) λ _. pure (await_consent (failing o)))
          (when scan.instance.remediation_paused (pure (count_paused o)) (
            when (has_remediation_consent p.annotations) (delete_consented p stuck request o)
              (pure (await_consent o)))))

  -- `processExistingPVCHandshake`
  unfoldable pub process_existing : Pvc → String → Outcome → M Outcome
  process_existing p stuck o =
      when (not (scan.is_unhealthy stuck) && scan.is_known stuck)
        (do
          r ← attempt (patch_annotations e p (clear_remediation_annotations p.annotations))
          on r (λ _. pure o) λ _. pure (failing o))
        (on_some (scan.fenced stuck) (λ snr. continue_request p stuck snr o)
          (pure (await_fencing o)))

  unfoldable pub request_consent : Pvc → String → Snr → Outcome → M Outcome
  request_consent p node snr o =
      let request = remediation_request_id scan.instance p (some snr) in
      when (request == "") (pure (failing o)) (do
        r ← attempt (start_request e scan.instance p node (scan.node_uid node) request)
        on r (λ _. when scan.instance.remediation_paused (pure (count_paused o)) (pure o))
            λ _. pure (failing o))

  -- Behind the orphaned consent: the claim's volume must be pinned to an unhealthy, fenced node.
  unfoldable pub find_request : Pvc → Outcome → M Outcome
  find_request p o = when (p.volume_name == "") (pure o) (do
    r ← ask e (get_pv p.volume_name)
    on r
        (λ pv.
          let node = resolve_local_pv_node_name pv scan.nodes in
          when (node == "" || not (scan.is_unhealthy node)) (pure o) (
            on_some (scan.fenced node) (λ snr. request_consent p node snr o)
              (pure (await_fencing o))))
        λ x. when (is_not_found x) (pure o) (pure (failing o)))

  -- `processNewPVCHandshake`; after a failed patch the claim in memory keeps the change.
  unfoldable pub process_new : Pvc → Outcome → M Outcome
  process_new p o =
      when (not scan.has_unhealthy && not (get p.annotations safe_to_delete == ""))
        (do
          let dropped = drop_consent p.annotations
          r ← attempt (patch_annotations e p dropped)
          on r (λ q. find_request q o) λ _. find_request (annotate p dropped) (failing o))
        (find_request p o)
