-- ===== src/Remediation/Calls.antt =====
-- The controller's single steps against the API server (safety_helpers.go, deletion_commit_prepare.go,
-- deletion_commit_resume.go and podremediator_controller.go of internal/controller/remediation). A
-- function that changes an object through a pointer returns the object.
use infra_operator.Base.{
  String, Bool, true, false, ◌&&◌, ◌||◌, not, Option, some, List, [], ◌∷◌, ◌==◌, string_eq,
  if◌then◌else◌,
}
use infra_operator.Base.StringMap.{StringMap, get, set, delete, delete_all}
use infra_operator.Remediation.Objects.{
  Pvc, pvc_key, Pod, ConfigMap, Snr, PodRemediator, is_nil, pvc_stuck_on_node, safe_to_delete,
  request_id, consent_id, remediator_uid, fencing_node_uid, clear_remediation_annotations, observed,
}
use infra_operator.Remediation.Commit.{
  deletion_commit_annotation_keys, pod_uses_pvc, remediation_request_id,
}
use infra_operator.Remediation.Fencing.{
  fenced_nodes, fencing_matches_node, is_node_unhealthy, get_direct_local_pv_node_name,
}
use infra_operator.Remediation.Api.{
  Error, no_match, failed, wrapped, is_not_found, Result, get_pvc, get_remediator, get_node, get_pv,
  list_pods, list_snrs, patch_pvc, delete_commit, Env, M, ◌>>=◌, pure, fail, on, ask, when, wrap,
}

-- The request of `patchPVC` for the changed annotations.
abbrev pub annotate : Pvc → StringMap → Pvc
annotate p a = record p { annotations = a }

unfoldable pub clear_aborted_annotations : StringMap → StringMap
clear_aborted_annotations a =
    delete_all deletion_commit_annotation_keys (clear_remediation_annotations a)

unfoldable pub start_request_annotations :
    PodRemediator → StringMap → String → String → String → StringMap
start_request_annotations r a node node_uid request = delete consent_id (
    delete safe_to_delete (
      set fencing_node_uid node_uid
        (set remediator_uid r.uid (set request_id request (set pvc_stuck_on_node node a)))))

abbrev pub is_no_match : Error → Bool
is_no_match no_match = true
is_no_match _ = false

unfoldable pub users : List Pod → String → List Pod
users [] claim = []
users (p ∷ ps) claim = let rest = users ps claim in if pod_uses_pvc p claim then p ∷ rest else rest

module _ (e : Env) where
  -- A call whose error is returned as it is.
  unfoldable pub checked : {A : Type 0} → M (Result A) → M A
  checked m = m >>= λ r. on r pure fail

  unfoldable pub read_pvc : Pvc → M (Result Pvc)
  read_pvc p = ask e (get_pvc (pvc_key p))

  -- `patchPVC`: on success the object is the server's, and a missing object is no error.
  unfoldable pub patch_annotations : Pvc → StringMap → M Pvc
  patch_annotations p a = do
    r ← ask e (patch_pvc p (annotate p a))
    on r pure λ x. when (is_not_found x) (pure (annotate p a)) (fail x)

  unfoldable pub start_request : PodRemediator → Pvc → String → String → String → M Pvc
  start_request r p node node_uid request =
      when (request == "" || node_uid == "")
        (fail (failed "cannot start remediation request without fencing and node identity"))
        (do
          let new = start_request_annotations r p.annotations node node_uid request
          a ← ask e (patch_pvc p (annotate p new))
          on a pure fail)

  unfoldable pub clear_aborted_pvc : Pvc → M Pvc
  clear_aborted_pvc p = when (not (is_nil p.deletion_timestamp)) (pure p) (
      wrap "clear aborted PVC remediation"
        (patch_annotations p (clear_aborted_annotations p.annotations)))

  unfoldable pub pods_using_pvc : Pvc → M (List Pod)
  pods_using_pvc p = do
    r ← ask e (list_pods p.namespace)
    on r (λ ps. pure (users ps p.name)) λ x. fail (wrapped "list pods for PVC" x)

  unfoldable pub delete_the_commit : ConfigMap → M (Unit {0})
  delete_the_commit c = do
    r ← ask e (delete_commit c (observed c.uid c.resource_version))
    on r pure λ x. when (is_not_found x) (pure tt) (fail x)

  -- `discardPreparedDeletionCommit`
  unfoldable pub discard_prepared : ConfigMap → M (Unit {0})
  discard_prepared c = wrap "remove rejected provisional PVC deletion commit" (delete_the_commit c)

  unfoldable pub is_remediation_paused : PodRemediator → M Bool
  is_remediation_paused r = do
    a ← ask e (get_remediator (record { namespace = r.namespace; name = r.name }))
    on a (λ c. pure c.remediation_paused) fail

  -- `listDynamicOptional` and the loop of `getNodesWithFencedSNR`.
  unfoldable pub get_fenced_nodes : M (String → Option Snr)
  get_fenced_nodes = do
    r ← ask e list_snrs
    on r (λ snrs. pure (fenced_nodes snrs))
        λ x. when (is_no_match x || is_not_found x) (pure (fenced_nodes [])) (fail x)

  -- `deletionFencingCurrent`: with the node gone, the volume must name it directly.
  unfoldable pub fencing_without_node : Pvc → String → M Bool
  fencing_without_node p node =
      when (p.volume_name == "" || get p.annotations fencing_node_uid == "") (pure false) (do
        r ← ask e (get_pv p.volume_name)
        on r (λ pv. pure (get_direct_local_pv_node_name pv == node))
            λ x.
              when (is_not_found x) (pure false)
                (fail (wrapped "revalidate PV after Node removal" x)))

  unfoldable pub deletion_fencing_current : PodRemediator → Pvc → String → M Bool
  unfolding fencing_without_node
  deletion_fencing_current r p node = do
    fenced ← wrap "revalidate SNR fencing for PVC" get_fenced_nodes
    let snr = fenced node
    when (is_nil snr || not (get p.annotations request_id == remediation_request_id r p snr))
        (pure false)
        (do
          a ← ask e (get_node node)
          on a
              (λ n. pure (
                is_node_unhealthy n
                && n.uid == get p.annotations fencing_node_uid
                && fencing_matches_node snr (some n)))
              λ x.
                when (is_not_found x) (fencing_without_node p node)
                  (fail (wrapped "revalidate Node before PVC deletion" x)))
