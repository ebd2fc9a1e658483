-- ===== src/Remediation/Prepare.antt =====
-- internal/controller/remediation/deletion_commit_prepare.go: a claim's deletion up to the finalized
-- token, which is the point of no return, and on into the cleanup.
use infra_operator.Base.{
  String, Bool, false, ◌&&◌, ◌||◌, not, List, [], ◌∷◌, ◌==◌, string_eq, if◌then◌else◌,
}
use infra_operator.Base.StringMap.{set}
use infra_operator.Remediation.Objects.{Pvc, Pod, ConfigMap, PodRemediator, pvc_deletion_committed}
use infra_operator.Remediation.Commit.{
  DeletionCommit, CommittedPod, deletion_commit_token, deletion_commit_finalized,
  committed_pvc_deletion_value, committed_deletion, prepared_commit_matches_pvc,
  finalized_commit_matches_pvc, pvc_deletion_consent_matches,
}
use infra_operator.Remediation.Api.{
  Error, rejected, failed, wrapped, is_not_found, is_already_exists, get_commit, patch_pvc,
  create_commit, Env, M, ◌>>=◌, ◌>>◌, pure, fail, on, on_decoded, ask, when, wrap,
}
use infra_operator.Remediation.Calls.{
  annotate, checked, read_pvc, discard_prepared, deletion_fencing_current,
}
use infra_operator.Remediation.Recover.{decode, reject_prepared}

-- The `pending` and `blocked` results of `deletePVCAndPods`.
pub record Deletion : Type 0 where
  pub pending : Bool
  pub blocked : String

abbrev pub settled : Deletion
settled = record { pending = false; blocked = "" }

-- The loop over the Pods: all are selected, unless one runs elsewhere or has no UID.
pub data Selection : Type 0 where
  selected : List CommittedPod → Selection
  elsewhere unidentified : Pod → Selection

abbrev add_pod : CommittedPod → Selection → Selection
add_pod p (selected ps) = selected (p ∷ ps)
add_pod p (elsewhere pod) = elsewhere pod
add_pod p (unidentified pod) = unidentified pod

unfoldable pub select_pods : String → List Pod → Selection
select_pods node [] = selected []
select_pods node (p ∷ ps) =
    let rest = add_pod (record { name = p.name; uid = p.uid }) (select_pods node ps) in
    if not (p.node_name == "") && not (p.node_name == node)
    then elsewhere p
    else if p.uid == ""
    then unidentified p
    else rest

-- `storedState` describes another deletion.
unfoldable pub is_conflicting : DeletionCommit → DeletionCommit → Bool
is_conflicting stored s =
    not (stored.pvc_uid == s.pvc_uid)
    || not (stored.remediator_uid == s.remediator_uid)
    || not (stored.pvc_name == s.pvc_name)
    || not (stored.node == s.node)

unfoldable pub is_stale : DeletionCommit → Pvc → String → Bool
is_stale stored p request =
    not (committed_deletion stored)
    && (not (stored.pvc_resource_version == p.resource_version)
        || not (stored.request_id == request))

-- The claim with the provisional marker.
unfoldable pub mark_annotations : Pvc → DeletionCommit → Pvc
mark_annotations p s = annotate p (
    set deletion_commit_token s.token (
      set pvc_deletion_committed (committed_pvc_deletion_value s.pvc_uid s.remediator_uid s.node)
        p.annotations))

-- The claim with the finalized token.
unfoldable pub finalized : Pvc → DeletionCommit → Pvc
finalized p s = annotate p (set deletion_commit_finalized s.token p.annotations)

abbrev pub Held : Type 0
Held = ConfigMap × DeletionCommit

module _ (e : Env) where
  unfoldable pub adopt_commit : ConfigMap → DeletionCommit → Pvc → String → M Held
  adopt_commit c s p request = do
    stored ← checked e (ask e (get_commit (record { namespace = c.namespace; name = c.name })))
    let conflict = fail (failed "PVC has a conflicting deletion commit")
    on_decoded (decode e stored)
        (λ t. when (is_conflicting t s) conflict (
          when (is_stale t p request)
            (fail (failed "PVC has a conflicting provisional deletion commit")) (pure (stored, t))))
        conflict

  -- `createOrAdoptDeletionCommit`
  unfoldable pub create_or_adopt : ConfigMap → DeletionCommit → Pvc → String → M Held
  create_or_adopt c s p request = do
    r ← ask e (create_commit c)
    on r (λ created. pure (created, s))
        λ x.
          when (is_already_exists x) (adopt_commit c s p request)
            (fail (wrapped "prepare PVC deletion commit" x))

  -- After a failed write of the marker: another writer may have put the same one.
  unfoldable pub verify_marker : Pvc → ConfigMap → DeletionCommit → Error → M Pvc
  verify_marker p c s x = do
    r ← read_pvc e p
    let lost = (do discard_prepared e c; fail (wrapped "conditionally mark PVC deletion" x))
    on r (λ latest. when (prepared_commit_matches_pvc latest s) (pure latest) lost)
        λ y.
          when (is_not_found y) lost
            (fail (wrapped "conditionally mark PVC deletion and verify commit" x))

  -- `ensureProvisionalMarker`
  unfoldable pub ensure_provisional_marker : Pvc → Pvc → ConfigMap → DeletionCommit → M Pvc
  ensure_provisional_marker p current c s =
      when (prepared_commit_matches_pvc current s) (pure current) (
        when
          (not (current.resource_version == s.pvc_resource_version)
            || not (pvc_deletion_consent_matches current s.remediator_uid s.node s.request_id))
          (do
            discard_prepared e c
            fail (failed "PVC changed after deletion consent was validated"))
          (do
            r ← ask e (patch_pvc p (mark_annotations p s))
            on r
                (λ _. do
                  refreshed ← wrap "read committed PVC" (checked e (read_pvc e p))
                  when (prepared_commit_matches_pvc refreshed s) (pure refreshed) (do
                    discard_prepared e c
                    fail (failed "PVC lost its provisional deletion marker before commit")))
                (verify_marker p c s)))

  abbrev pub reject : Pvc → ConfigMap → DeletionCommit → M Pvc
  reject p c s = do
    q ← reject_prepared e p c s
    fail (wrapped "PVC deletion rejected before commitment" rejected)

  -- After a failed write of the finalized token.
  unfoldable pub verify_finalized : Pvc → ConfigMap → DeletionCommit → Error → M Pvc
  verify_finalized p c s x = do
    latest ← wrap "finalize PVC deletion and read current PVC" (checked e (read_pvc e p))
    when (finalized_commit_matches_pvc latest s) (pure latest) (
        when
          (not (latest.resource_version == p.resource_version)
            || not (pvc_deletion_consent_matches latest s.remediator_uid s.node s.request_id))
          (reject latest c s) (fail (wrapped "conditionally finalize PVC deletion" x)))

  -- `finalizePreparedDeletionCommit`
  unfoldable pub finalize_prepared : PodRemediator → Pvc → ConfigMap → DeletionCommit → M Pvc
  finalize_prepared instance p c s = when (finalized_commit_matches_pvc p s) (pure p) (
      when
        (not (prepared_commit_matches_pvc p s)
          || not (pvc_deletion_consent_matches p s.remediator_uid s.node s.request_id))
        (reject p c s)
        (do
          fenced ← deletion_fencing_current e instance p s.node
          when (not fenced) (reject p c s) (do
            r ← ask e (patch_pvc p (finalized p s))
            on r
                (λ _. do
                  current ← wrap "read finalized PVC" (checked e (read_pvc e p))
                  when (finalized_commit_matches_pvc current s) (pure current)
                      (fail (failed "PVC lost its finalized deletion token")))
                (verify_finalized p c s))))
