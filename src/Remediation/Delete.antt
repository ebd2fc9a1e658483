-- ===== src/Remediation/Delete.antt =====
-- `deletePVCAndPods` of internal/controller/remediation/deletion_commit_prepare.go: the whole
-- transaction, from the checks of identity and consent to the cleanup.
use infra_operator.Base.{String, Bool, true, ◌||◌, not, List, ◌==◌, string_eq}
use infra_operator.Base.StringMap.{get, set, empty}
use infra_operator.Remediation.Objects.{Pvc, ConfigMap, PodRemediator, request_id}
use infra_operator.Remediation.Commit.{
  DeletionCommit, CommittedPod, phase_prepared, deletion_commit_state,
  has_deletion_commit_annotations, committed_deletion, pvc_deletion_consent_matches,
  deletion_commit_name,
}
use infra_operator.Remediation.Api.{
  paused, failed, is_not_found, is_rejected, random_token, Env, M, ◌>>=◌, ◌>>◌, pure, fail, on,
  on_some, ask, when, wrap, attempt,
}
use infra_operator.Remediation.Calls.{
  checked, read_pvc, clear_aborted_pvc, pods_using_pvc, delete_the_commit, discard_prepared,
  is_remediation_paused,
}
use infra_operator.Remediation.Resume.{resume_committed_pvc_deletion}
use infra_operator.Remediation.Recover.{promote_prepared}
use infra_operator.Remediation.Prepare.{
  Deletion, settled, Selection, selected, elsewhere, unidentified, select_pods, create_or_adopt,
  ensure_provisional_marker, finalize_prepared,
}

abbrev new_commit : PodRemediator → Pvc → String → String → List CommittedPod → DeletionCommit
new_commit instance p node token pods = record {
  pvc_name = p.name;
  pvc_uid = p.uid;
  pvc_resource_version = p.resource_version;
  request_id = get p.annotations request_id;
  remediator_uid = instance.uid;
  node = node;
  token = token;
  phase = phase_prepared;
  pods = pods;
}

abbrev is_unidentified : PodRemediator → Pvc → String → Bool
is_unidentified instance p node = p.uid == "" || instance.uid == "" || node == ""

module _ (e : Env) where
  unfoldable pub finish : Pvc → ConfigMap → DeletionCommit → M Deletion
  finish p c s = do
    r ← resume_committed_pvc_deletion e p c s
    pure (record { pending = r.pending; blocked = r.blocked })

  -- An adopted record that is committed already.
  unfoldable pub resume_adopted : Pvc → ConfigMap → DeletionCommit → M Deletion
  resume_adopted p c s = do
    r ← read_pvc e p
    on r
        (λ current.
          when (not (current.uid == p.uid)) (delete_the_commit e c >> pure settled)
            (finish current c s))
        λ x. when (is_not_found x) (delete_the_commit e c >> pure settled) (fail x)

  -- Behind the finalized token: promote the record, and clean up.
  unfoldable pub promote_and_finish : Pvc → ConfigMap → DeletionCommit → M Deletion
  promote_and_finish p c s = do
    (d, t) ← promote_prepared e c s
    r ← read_pvc e p
    on r (λ current. finish current d t)
        λ x. when (is_not_found x) (delete_the_commit e d >> pure settled) (fail x)

  -- From a prepared record to the finalized token.
  unfoldable pub finalize_and_finish : PodRemediator → Pvc → ConfigMap → DeletionCommit → M Deletion
  finalize_and_finish instance p c s = do
    r ← read_pvc e p
    on r
        (λ current.
          when (not (current.uid == s.pvc_uid))
            (discard_prepared e c >> fail (failed "PVC changed identity before committed cleanup"))
            (do
              marked ← ensure_provisional_marker e p current c s
              f ← attempt (finalize_prepared e instance marked c s)
              on f (λ _. promote_and_finish p c s)
                  λ x. when (is_rejected x) (pure settled) (fail x)))
        λ x. when (is_not_found x) (discard_prepared e c >> fail x) (fail x)

  unfoldable pub commit_deletion :
      PodRemediator → Pvc → String → String → List CommittedPod → M Deletion
  commit_deletion instance p node token pods =
      let s = new_commit instance p node token pods in
      on_some (e.marshal s)
        (λ encoded.
          let c : ConfigMap = record {
            name = deletion_commit_name e.digest e.unmarshal s.pvc_uid;
            namespace = p.namespace;
            uid = "";
            resource_version = "";
            annotations = set deletion_commit_state encoded empty;
          } in
          do
            (d, t) ← create_or_adopt e c s p s.request_id
            when (committed_deletion t) (resume_adopted p d t) (finalize_and_finish instance p d t))
        (fail (failed "encode PVC deletion commit"))

  -- The Pods that use the claim are selected, or the deletion is given up.
  unfoldable pub select_and_commit : PodRemediator → Pvc → String → String → Selection → M Deletion
  select_and_commit instance p node token (selected pods) =
      commit_deletion instance p node token pods
  select_and_commit instance p node token (elsewhere pod) = clear_aborted_pvc e p >> pure settled
  select_and_commit instance p node token (unidentified pod) =
      fail (failed "cannot commit PVC deletion with unidentified Pod")

  unfoldable pub delete_pvc_and_pods : PodRemediator → Pvc → String → M Deletion
  delete_pvc_and_pods instance p node =
      when (is_unidentified instance p node)
        (fail (failed "cannot commit PVC deletion without PVC, PodRemediator, and node identity"))
        (when (p.resource_version == "")
          (fail (failed "cannot commit PVC deletion without its resource version"))
          (when
            (not (pvc_deletion_consent_matches p instance.uid node (get p.annotations request_id)))
            (fail (failed "cannot commit PVC deletion without matching owner-bound consent"))
            (do
              is_paused ←
                  wrap "check PodRemediator pause before deleting PVC"
                    (is_remediation_paused e instance)
              when is_paused (fail paused) (
                  when (has_deletion_commit_annotations p)
                    (pure (record { pending = true; blocked = "" }))
                    (do
                      pods ← pods_using_pvc e p
                      token ← checked e (ask e random_token)
                      select_and_commit instance p node token (select_pods node pods))))))
