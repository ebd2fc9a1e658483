-- ===== src/Remediation/Transaction.antt =====
-- `deletePVCAndPods` asks only for what its sanction allows (deletion_commit_prepare.go).
use infra_operator.Base.{
  String, ◌≡◌, inl, inr, refl, false, not, ◌||◌, some, List, [], arith, string_eq,
}
use infra_operator.Base.StringMap.{set, empty}
use infra_operator.Remediation.Objects.{Pvc, pvc_key, ObjectKey, ConfigMap, PodRemediator}
use infra_operator.Remediation.Commit.{
  DeletionCommit, deletion_commit_state, CommittedPod, prepared_commit_matches_pvc,
  pvc_deletion_consent_matches,
}
use infra_operator.Remediation.Api.{
  Error, get_pvc, get_commit, random_token, patch_pvc, create_commit, Env, ◌>>=◌, pure, fail,
}
use infra_operator.Remediation.Calls.{discard_prepared, delete_the_commit}
use infra_operator.Remediation.Prepare.{
  Selection, selected, elsewhere, unidentified, is_conflicting, adopt_commit, create_or_adopt,
  mark_annotations, reject, settled, verify_marker, ensure_provisional_marker, verify_finalized,
  finalized, finalize_prepared,
}
use infra_operator.Remediation.Delete.{
  finish, resume_adopted, promote_and_finish, finalize_and_finish, commit_deletion,
  select_and_commit, delete_pvc_and_pods,
}
use infra_operator.Remediation.Trace.{
  Event, Rules, under, learn, Obeys, Obeys-of_Emits, Emits, Whatever, emits_pure, emits_fail,
  emits_bind, emits_on, emits_on_some, emits_on_decoded, emits_if, emits_wrap, emits_ask,
  emits_attempt,
}
use infra_operator.Remediation.Steps.{
  Permits, read-emits, checked-emits, read_pvc-emits, delete_the_commit-emits,
  discard_prepared-emits, clear_aborted_pvc-emits, pods_using_pvc-emits,
  is_remediation_paused-emits, deletion_fencing_current-emits, reject_prepared-emits,
  promote_prepared-emits,
}
use infra_operator.Remediation.Authority.{resume-emits}
use infra_operator.Remediation.Sanction.{
  IsOurs, IsOurRecord, IsCommitted, IsFinal, IsSanctioned, steps, cleanup,
}

module _ (instance : PodRemediator) (p : Pvc) (node : String) (e : Env) (K : Event → Type 0) where
  abbrev P : Rules
  P = under K (IsSanctioned instance p node e K)

  abbrev OursOf : DeletionCommit → Type 0
  OursOf = IsOurRecord instance p node e K

  permits : Permits P
  permits = steps instance p node e K

  adopt_commit-emits :
      (c : ConfigMap) (s : DeletionCommit) (request : String)
      → IsOurs instance p node s
      → Emits P (adopt_commit e c s p request) (λ h. OursOf h.1)
  unfolding adopt_commit is_conflicting
  adopt_commit-emits c s request ours =
      let key : ObjectKey = record { namespace = c.namespace; name = c.name } in
      emits_bind (checked-emits e permits (read-emits e permits (get_commit key) tt))
        λ stored known.
          emits_on_decoded
            (λ t decoded.
              emits_if (λ _. emits_fail _)
                λ same.
                  emits_if (λ _. emits_fail _)
                    (λ _.
                      emits_pure (stored, t)
                        (ground arith, inl (stored, decoded, inl (key, known)))))
            (emits_fail _)

  create_or_adopt-emits :
      (c : ConfigMap) (s : DeletionCommit) (request encoded : String)
      → IsOurs instance p node s
      → e.marshal s ≡ some encoded
      → c.annotations ≡ set deletion_commit_state encoded empty
      → Emits P (create_or_adopt e c s p request) (λ h. OursOf h.1)
  unfolding create_or_adopt
  create_or_adopt-emits c s request encoded ours marshalled holds =
      emits_bind (emits_ask e (create_commit c) tt) λ r known.
        emits_on
          (λ created is_created.
            emits_pure (created, s)
              (
                ours,
                inr (
                  c,
                  created,
                  encoded,
                  learn P (create_commit c) is_created known,
                  marshalled,
                  holds,
                ),
              ))
          λ x _. emits_if (λ _. adopt_commit-emits c s request ours) (λ _. emits_fail _)

  give_up-emits :
      {A : Type 0} (c : ConfigMap) (x : Error)
      → Emits P (discard_prepared e c >>= λ _. fail {A = A} x) Whatever
  give_up-emits c x = emits_bind (discard_prepared-emits e permits c) (λ _ _. emits_fail x)

  verify_marker-emits :
      (q : Pvc) (c : ConfigMap) (s : DeletionCommit) (x : Error)
      → Emits P (verify_marker e q c s x) Whatever
  unfolding verify_marker
  verify_marker-emits q c s x = emits_bind (read_pvc-emits e permits q) λ r _.
      emits_on (λ latest _. emits_if (λ _. emits_pure _ tt) (λ _. give_up-emits c _))
        λ y _. emits_if (λ _. give_up-emits c _) (λ _. emits_fail _)

  ensure_provisional_marker-emits :
      (q current : Pvc) (c : ConfigMap) (s : DeletionCommit)
      → OursOf s
      → Emits P (ensure_provisional_marker e q current c s) Whatever
  unfolding ensure_provisional_marker
  ensure_provisional_marker-emits q current c s ours =
      emits_if (λ _. emits_pure _ tt)
        λ _.
          emits_if (λ _. give_up-emits c _)
            λ _.
              emits_bind
                (emits_ask e (patch_pvc q (mark_annotations q s)) (inr (inl (s, ours, refl))))
                λ r _.
                  emits_on
                    (λ _ _.
                      emits_bind
                        (emits_wrap _ (checked-emits e permits (read_pvc-emits e permits q)))
                        λ refreshed _. emits_if (λ _. emits_pure _ tt) (λ _. give_up-emits c _))
                    (λ x _. verify_marker-emits q c s x)

  reject-emits : (q : Pvc) (c : ConfigMap) (s : DeletionCommit) → Emits P (reject e q c s) Whatever
  reject-emits q c s = emits_bind (reject_prepared-emits e permits q c s) (λ _ _. emits_fail _)

  verify_finalized-emits :
      (q : Pvc) (c : ConfigMap) (s : DeletionCommit) (x : Error)
      → Emits P (verify_finalized e q c s x) Whatever
  unfolding verify_finalized
  verify_finalized-emits q c s x =
      emits_bind (emits_wrap _ (checked-emits e permits (read_pvc-emits e permits q))) λ latest _.
        emits_if (λ _. emits_pure _ tt)
          λ _. emits_if (λ _. reject-emits latest c s) (λ _. emits_fail _)

  consented :
      (q : Pvc) (s : DeletionCommit)
      → OursOf s
      → (not (prepared_commit_matches_pvc q s)
          || not (pvc_deletion_consent_matches q s.remediator_uid s.node s.request_id))
        ≡ false
      → IsFinal instance p node e K q (finalized q s)
  consented q s ((u, r, n), held) h =
      (s, ((u, r, n), held), refl, ground arith, rw (← r, ← n) (ground arith))

  finalize_prepared-emits :
      (q : Pvc) (c : ConfigMap) (s : DeletionCommit)
      → OursOf s
      → Emits P (finalize_prepared e instance q c s) Whatever
  unfolding finalize_prepared
  finalize_prepared-emits q c s ours =
      emits_if (λ _. emits_pure _ tt)
        λ _.
          emits_if (λ _. reject-emits q c s)
            λ consent.
              emits_bind (deletion_fencing_current-emits e permits instance q s.node) λ fenced _.
                emits_if (λ _. reject-emits q c s)
                  λ _.
                    emits_bind
                      (emits_ask e (patch_pvc q (finalized q s))
                        (inr (inr (consented q s ours consent))))
                      λ r _.
                        emits_on
                          (λ _ _.
                            emits_bind
                              (emits_wrap _ (checked-emits e permits (read_pvc-emits e permits q)))
                              λ current _. emits_if (λ _. emits_pure _ tt) (λ _. emits_fail _))
                          (λ x _. verify_finalized-emits q c s x)

  finish-emits :
      (q : Pvc) (c : ConfigMap) (s : DeletionCommit)
      → IsCommitted instance p node e K q s
      → Emits P (finish e q c s) Whatever
  unfolding finish
  finish-emits q c s committed =
      emits_bind (resume-emits e (cleanup instance p node e K q s committed) c)
        (λ r _. emits_pure _ tt)

  forget-emits : (c : ConfigMap) → Emits P (delete_the_commit e c >>= λ _. pure settled) Whatever
  forget-emits c = emits_bind (delete_the_commit-emits e permits c) (λ _ _. emits_pure _ tt)

  resume_adopted-emits :
      (c : ConfigMap) (s : DeletionCommit) → OursOf s → Emits P (resume_adopted e p c s) Whatever
  unfolding resume_adopted
  resume_adopted-emits c s ours = emits_bind (read_pvc-emits e permits p) λ r known.
      emits_on
        (λ current is_read.
          emits_if (λ _. forget-emits c)
            (λ _.
              finish-emits current c s
                (learn P (get_pvc (pvc_key p)) is_read known, (s, ours, inl (inl refl)))))
        λ x _. emits_if (λ _. forget-emits c) (λ _. emits_fail x)

  promote_and_finish-emits :
      (c : ConfigMap) (s : DeletionCommit)
      → OursOf s
      → Emits P (promote_and_finish e p c s) Whatever
  unfolding promote_and_finish
  promote_and_finish-emits c s ours = emits_bind (promote_prepared-emits e permits c s) λ d held.
      emits_bind (read_pvc-emits e permits p) λ r known.
        emits_on
          (λ current is_read.
            finish-emits current d.0 d.1
              (learn P (get_pvc (pvc_key p)) is_read known, (s, ours, held)))
          λ x _. emits_if (λ _. forget-emits d.0) (λ _. emits_fail x)

  finalize_and_finish-emits :
      (c : ConfigMap) (s : DeletionCommit)
      → OursOf s
      → Emits P (finalize_and_finish e instance p c s) Whatever
  unfolding finalize_and_finish
  finalize_and_finish-emits c s ours = emits_bind (read_pvc-emits e permits p) λ r _.
      emits_on
        (λ current _.
          emits_if (λ _. give_up-emits c _)
            λ _. emits_bind (ensure_provisional_marker-emits p current c s ours) λ marked _.
              emits_bind (emits_attempt (finalize_prepared-emits marked c s ours)) λ f _.
                emits_on (λ _ _. promote_and_finish-emits c s ours)
                  λ x _. emits_if (λ _. emits_pure _ tt) (λ _. emits_fail x))
        λ x _. emits_if (λ _. give_up-emits c x) (λ _. emits_fail x)

  commit_deletion-emits :
      (token : String) (pods : List CommittedPod)
      → Emits P (commit_deletion e instance p node token pods) Whatever
  unfolding commit_deletion
  commit_deletion-emits token pods =
      emits_on_some
        (λ encoded marshalled.
          emits_bind (create_or_adopt-emits _ _ _ encoded (refl, refl, refl) marshalled refl)
            λ h ours.
              emits_if (λ _. resume_adopted-emits h.0 h.1 ours)
                (λ _. finalize_and_finish-emits h.0 h.1 ours))
        (λ _. emits_fail _)

  select_and_commit-emits :
      (token : String) (sel : Selection)
      → Emits P (select_and_commit e instance p node token sel) Whatever
  unfolding select_and_commit
  select_and_commit-emits token (selected pods) = commit_deletion-emits token pods
  select_and_commit-emits token (elsewhere pod) =
      emits_bind (clear_aborted_pvc-emits e permits p) (λ _ _. emits_pure _ tt)
  select_and_commit-emits token (unidentified pod) = emits_fail _

  pub delete_pvc_and_pods-emits : Emits P (delete_pvc_and_pods e instance p node) Whatever
  unfolding delete_pvc_and_pods
  delete_pvc_and_pods-emits =
      emits_if (λ _. emits_fail _)
        λ _.
          emits_if (λ _. emits_fail _)
            λ _.
              emits_if (λ _. emits_fail _)
                λ _.
                  emits_bind (emits_wrap _ (is_remediation_paused-emits e permits instance))
                    λ is_paused _.
                      emits_if (λ _. emits_fail _)
                        λ _.
                          emits_if (λ _. emits_pure _ tt)
                            λ _. emits_bind (pods_using_pvc-emits e permits p) λ pods _.
                              emits_bind
                                (checked-emits e permits (read-emits e permits random_token tt))
                                λ token _. select_and_commit-emits token _

-- Whatever the API server answers to the calls, `deletePVCAndPods` writes no finalized token but on a
-- claim that carries the marker of a record for this claim, owner and node that it has created or
-- decoded from an answer, and the owner's consent for the record's request. Behind the answers that
-- it has had, it deletes a claim only if it has read it under the given claim's name, and only under
-- the finalized token of a record for this claim, owner and node that it has created or decoded from
-- an answer, or of one that has taken that record's place with its token; and a Pod only if such a
-- record names it and an answer has it as a user of such a claim. Any other write of a claim sets the
-- marker of such a record, or removes handshake and markers.
pub delete_pvc_and_pods-IsSanctioned :
    (e : Env) (instance : PodRemediator) (p : Pvc) (node : String)
    → Obeys (IsSanctioned instance p node e) [] (delete_pvc_and_pods e instance p node)
delete_pvc_and_pods-IsSanctioned e instance p node =
    Obeys-of_Emits (IsSanctioned instance p node e) [] _
      (λ K all. delete_pvc_and_pods-emits instance p node e K)
