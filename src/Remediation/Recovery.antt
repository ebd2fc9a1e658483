-- ===== src/Remediation/Recovery.antt =====
-- `resumeCommittedPVCDeletions` cleans up, and commits to nothing new (deletion_commit_resume.go).
use infra_operator.Base.{String, ◌≡◌, inl, inr, refl, List, [], ◌∷◌, All, arith, string_eq}
use infra_operator.Remediation.Objects.{Pvc, ObjectKey, ConfigMap}
use infra_operator.Remediation.Commit.{DeletionCommit}
use infra_operator.Remediation.Api.{
  Request, ok, get_pvc, list_pvcs, list_commits, patch_pvc, create_commit, delete_commit,
  delete_pod, delete_pvc, Env, ◌>>=◌, pure,
}
use infra_operator.Remediation.Calls.{delete_the_commit}
use infra_operator.Remediation.Recover.{
  Progress, ResumeResult, recover_invalid, continue_cleanup, abandon_prepared, abandon_committed,
  recover_valid, recover_commit, recover_commits, scrub, recover_namespace, recover_namespaces,
  resume_committed_pvc_deletions,
}
use infra_operator.Remediation.Trace.{
  All-of_IsIn, Event, Rules, under, learn, Emits, Whatever, emits_pure, emits_fail, emits_bind,
  emits_on, emits_on_some, emits_on_decoded, emits_if, emits_wrap,
}
use infra_operator.Remediation.Steps.{
  IsRead, IsStored, IsCommitRead, Permits, read-emits, checked-emits, delete_the_commit-emits,
  discard_prepared-emits, clear_aborted_pvc-emits, reject_prepared-emits, promote_prepared-emits,
}
use infra_operator.Remediation.Authority.{PermitsCleanup, resume-emits}
use infra_operator.Remediation.Sanction.{IsCleanup, IsRecoverable, IsRecovery}

pub IsRead-IsCleanup :
    (C : Pvc → DeletionCommit → Type 0) (K : Event → Type 0) (q : Request)
    → IsRead q
    → IsCleanup C K q
IsRead-IsCleanup C K (delete_pvc q o) r = elim r [ ]
IsRead-IsCleanup C K (delete_pod pod o) r = elim r [ ]
IsRead-IsCleanup C K (delete_commit c o) r = elim r [ ]
IsRead-IsCleanup C K (patch_pvc old new) r = elim r [ ]
IsRead-IsCleanup C K (create_commit c) r = elim r [ ]
IsRead-IsCleanup C K _ r = tt

module _ (e : Env) (owner : String) (K : Event → Type 0) where
  abbrev P : Rules
  P = under K (IsRecovery e owner K)

  abbrev IsOwned : DeletionCommit → Type 0
  IsOwned t = IsStored e K t × (t.remediator_uid ≡ owner)

  steps : Permits P
  steps = record {
    reads = IsRead-IsCleanup (IsRecoverable e K owner) K;
    resets = λ q. refl;
    discards = λ c. refl;
    updates = λ c. tt;
  }

  cleanup : (q : Pvc) (s : DeletionCommit) → IsRecoverable e K owner q s → PermitsCleanup q s P
  cleanup q s recoverable = record {
    steps = steps;
    pods = λ pod sel uses_it f. (q, s, recoverable, f, sel, uses_it, refl);
    claim = λ f. (s, recoverable, f, refl);
  }

  recover_invalid-emits :
      (pvcs : List Pvc) (c : ConfigMap) (a : Progress)
      → Emits P (recover_invalid e owner pvcs c a) Whatever
  unfolding recover_invalid
  recover_invalid-emits pvcs c a =
      emits_on_some
        (λ p _.
          emits_if (λ _. emits_pure _ tt)
            λ _.
              emits_if (λ _. emits_pure _ tt)
                λ _.
                  emits_bind (emits_wrap _ (delete_the_commit-emits e steps c))
                    λ _ _. emits_bind (clear_aborted_pvc-emits e steps p) (λ q _. emits_pure _ tt))
        (λ _. emits_pure a tt)

  continue_cleanup-emits :
      (p : Pvc) (c : ConfigMap) (s : DeletionCommit) (a : Progress)
      → IsRecoverable e K owner p s
      → Emits P (continue_cleanup e p c s a) Whatever
  unfolding continue_cleanup
  continue_cleanup-emits p c s a recoverable =
      emits_bind (resume-emits e (cleanup p s recoverable) c) (λ r _. emits_pure _ tt)

  abandon_prepared-emits :
      (p : Pvc) (c : ConfigMap) (s : DeletionCommit) (a : Progress)
      → Emits P (abandon_prepared e p c s a) Whatever
  unfolding abandon_prepared
  abandon_prepared-emits p c s a = emits_bind (reject_prepared-emits e steps p c s) λ q _.
      emits_if (λ _. emits_bind (clear_aborted_pvc-emits e steps q) (λ r _. emits_pure _ tt))
        (λ _. emits_pure _ tt)

  abandon_committed-emits :
      (p : Pvc) (c : ConfigMap) (s : DeletionCommit) (a : Progress)
      → Emits P (abandon_committed e p c s a) Whatever
  unfolding abandon_committed
  abandon_committed-emits p c s a =
      emits_if (λ _. emits_pure _ tt)
        λ _.
          emits_bind (discard_prepared-emits e steps c)
            λ _ _. emits_bind (clear_aborted_pvc-emits e steps p) (λ q _. emits_pure _ tt)

  forget-emits :
      (c : ConfigMap) (a : Progress) → Emits P (delete_the_commit e c >>= λ _. pure a) Whatever
  forget-emits c a = emits_bind (delete_the_commit-emits e steps c) (λ _ _. emits_pure a tt)

  recover_valid-emits :
      (namespace : String) (c : ConfigMap) (s : DeletionCommit) (a : Progress)
      → IsOwned s
      → Emits P (recover_valid e namespace c s a) Whatever
  unfolding recover_valid
  recover_valid-emits namespace c s a owned =
      let key : ObjectKey = record { namespace = namespace; name = s.pvc_name } in
      emits_bind (read-emits e steps (get_pvc key) tt) λ r known.
        emits_on
          (λ p is_read.
            let there : (k : ObjectKey) × K (get_pvc k, ok p) =
              (key, learn P (get_pvc key) is_read known) in
            emits_if (λ _. forget-emits c a)
              λ _.
                emits_if
                  (λ _.
                    emits_if (λ _. abandon_prepared-emits p c s a)
                      λ _.
                        emits_bind (promote_prepared-emits e steps c s)
                          (λ d held. continue_cleanup-emits p d.0 d.1 a (there, (s, owned, held))))
                  (λ _.
                    emits_if (λ _. abandon_committed-emits p c s a)
                      (λ _. continue_cleanup-emits p c s a (there, (s, owned, inl (inl refl))))))
          λ x _. emits_if (λ _. forget-emits c a) (λ _. emits_fail x)

  recover_commit-emits :
      (namespace : String) (pvcs : List Pvc) (c : ConfigMap) (a : Progress)
      → IsCommitRead K c
      → Emits P (recover_commit e namespace owner pvcs c a) Whatever
  unfolding recover_commit
  recover_commit-emits namespace pvcs c a there =
      emits_if (λ _. emits_pure a tt)
        λ _.
          emits_on_decoded
            (λ s decoded.
              emits_if (λ _. emits_pure _ tt)
                (λ ours. recover_valid-emits namespace c s a ((c, decoded, there), ground arith)))
            (recover_invalid-emits pvcs c a)

  recover_commits-emits :
      (namespace : String) (pvcs : List Pvc) (cs : List ConfigMap) (a : Progress)
      → All (IsCommitRead K) cs
      → Emits P (recover_commits e namespace owner pvcs cs a) Whatever
  unfolding recover_commits
  recover_commits-emits namespace pvcs [] a there = emits_pure a tt
  recover_commits-emits namespace pvcs (c ∷ cs) a (this, there) =
      emits_bind (recover_commit-emits namespace pvcs c a this)
        (λ b _. recover_commits-emits namespace pvcs cs b there)

  scrub-emits : (pvcs : List Pvc) (active : List String) → Emits P (scrub e pvcs active) Whatever
  unfolding scrub
  scrub-emits [] active = emits_pure tt tt
  scrub-emits (p ∷ ps) active =
      emits_if (λ _. emits_bind (clear_aborted_pvc-emits e steps p) (λ _ _. scrub-emits ps active))
        (λ _. scrub-emits ps active)

  recover_namespace-emits :
      (namespace : String) (result : ResumeResult)
      → Emits P (recover_namespace e owner namespace result) Whatever
  unfolding recover_namespace
  recover_namespace-emits namespace result =
      emits_bind (checked-emits e steps (read-emits e steps (list_pvcs namespace) tt)) λ pvcs _.
        emits_bind
          (emits_wrap _ (checked-emits e steps (read-emits e steps (list_commits namespace) tt)))
          λ commits known.
            emits_bind
              (recover_commits-emits namespace pvcs commits _
                (All-of_IsIn (IsCommitRead K) commits (λ c i. inr (namespace, commits, known, i))))
              λ a _. emits_bind (scrub-emits pvcs a.active) (λ _ _. emits_pure _ tt)

  recover_namespaces-emits :
      (namespaces : List String) (result : ResumeResult)
      → Emits P (recover_namespaces e owner namespaces result) Whatever
  unfolding resume_committed_pvc_deletions
  recover_namespaces-emits [] result = emits_pure result tt
  recover_namespaces-emits (n ∷ ns) result =
      emits_bind (recover_namespace-emits n result) (λ r _. recover_namespaces-emits ns r)

  pub resume_committed_pvc_deletions-emits :
      (namespaces : List String)
      → Emits P (resume_committed_pvc_deletions e namespaces owner) Whatever
  unfolding resume_committed_pvc_deletions
  resume_committed_pvc_deletions-emits namespaces = recover_namespaces-emits namespaces _
