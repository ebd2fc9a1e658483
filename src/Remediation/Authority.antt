-- ===== src/Remediation/Authority.antt =====
-- What a cleanup may ask of the API server, whatever the server answers: only the claim with the
-- finalized token is deleted, with only the recorded Pods.
use infra_operator.Base.{◌≡◌, ◌⊎◌, refl, true, none, List, [], ◌∷◌, arith, string_eq, All}
use infra_operator.Base.StringMap.{get, empty}
use infra_operator.Remediation.Objects.{Pvc, Pod, ConfigMap, observed}
use infra_operator.Remediation.Commit.{DeletionCommit, finalized_commit_matches_pvc}
use infra_operator.Remediation.Api.{Request, delete_pod, delete_pvc, Env}
use infra_operator.Remediation.Resume.{
  authorized, is_stranger, first_stranger, force, delete_pods, stop_for_stranger, confirm_deletion,
  delete_claim, clean_up, resume_committed_pvc_deletion,
}
use infra_operator.Remediation.Trace.{
  IsIn, All-of_IsIn, Event, Rules, under, Obeys, Obeys-of_Emits, Emits, Whatever, emits_pure,
  emits_fail, emits_bind, emits_on, emits_on_some, emits_if, emits_ask,
}
use infra_operator.Remediation.Steps.{
  IsRead, AreUsers, Permits, read_pvc-emits, delete_the_commit-emits, clear_aborted_pvc-emits,
  pods_using_pvc-emits,
}

-- The Pod is recorded, by name and UID, and runs on the record's node or on none.
abbrev pub IsSelected : DeletionCommit → Pod → Type 0
IsSelected s pod =
    (get (authorized s.pods empty) pod.name ≡ pod.uid)
    × ((pod.node_name ≡ "") ⊎ (pod.node_name ≡ s.node))

-- The Pod was in an answer, as one of the namespace that uses the claim.
abbrev pub IsUser : (Event → Type 0) → Pvc → Pod → Type 0
IsUser K p pod = (pods : List Pod) × AreUsers K p pods × IsIn pod pods

first_stranger-none :
    (s : DeletionCommit) (pods : List Pod) → first_stranger s pods ≡ none → All (IsSelected s) pods
unfolding first_stranger is_stranger
first_stranger-none s [] h = tt
first_stranger-none s (pod ∷ pods) h = (ground arith, first_stranger-none s pods (ground arith))

-- The deletions that a record permits, on top of the common steps.
pub record PermitsCleanup (p : Pvc) (s : DeletionCommit) (P : Rules) : Type 0 where
  pub steps : Permits P
  pub pods :
      (pod : Pod)
      → IsSelected s pod
      → IsUser P.known p pod
      → finalized_commit_matches_pvc p s ≡ true
      → P.allowed (delete_pod pod (force (observed pod.uid pod.resource_version)))
  pub claim :
      finalized_commit_matches_pvc p s ≡ true
      → P.allowed (delete_pvc p (observed p.uid p.resource_version))

module _ (e : Env) {p : Pvc} {s : DeletionCommit} {P : Rules} (h : PermitsCleanup p s P) where
  delete_pods-emits :
      finalized_commit_matches_pvc p s ≡ true
      → (pods : List Pod) → All (IsSelected s) pods
      → All (IsUser P.known p) pods
      → Emits P (delete_pods e pods) Whatever
  unfolding delete_pods
  delete_pods-emits f [] sel use_it = emits_pure tt tt
  delete_pods-emits f (pod ∷ pods) (this, sel) (uses_it, use_it) =
      let rest = delete_pods-emits f pods sel use_it in
      emits_if (λ _. rest)
        λ _.
          emits_bind
            (emits_ask e (delete_pod pod (force (observed pod.uid pod.resource_version)))
              (h.pods pod this uses_it f))
            λ r _. emits_on (λ _ _. rest) λ x _. emits_if (λ _. rest) (λ _. emits_fail _)

  stop_for_stranger-emits :
      (c : ConfigMap) (pod : Pod) → Emits P (stop_for_stranger e p c pod) Whatever
  unfolding stop_for_stranger
  stop_for_stranger-emits c pod =
      emits_if (λ _. emits_pure _ tt)
        λ _.
          emits_bind (delete_the_commit-emits e h.steps c)
            λ _ _. emits_bind (clear_aborted_pvc-emits e h.steps p) λ q _. emits_pure _ tt

  confirm_deletion-emits : (c : ConfigMap) → Emits P (confirm_deletion e p c s) Whatever
  unfolding confirm_deletion
  confirm_deletion-emits c = emits_bind (read_pvc-emits e h.steps p) λ r _.
      emits_on
        (λ current _.
          emits_if
            (λ _.
              emits_bind (pods_using_pvc-emits e h.steps current)
                λ pods _. emits_on_some (λ pod _. emits_pure _ tt) (λ _. emits_pure _ tt))
            (λ _. emits_pure _ tt))
        λ x _.
          emits_if (λ _. emits_bind (delete_the_commit-emits e h.steps c) λ _ _. emits_pure _ tt)
            (λ _. emits_fail x)

  delete_claim-emits : finalized_commit_matches_pvc p s ≡ true → Emits P (delete_claim e p) Whatever
  unfolding delete_claim
  delete_claim-emits f =
      emits_if
        (λ _.
          emits_bind (emits_ask e (delete_pvc p (observed p.uid p.resource_version)) (h.claim f))
            λ r _.
              emits_on (λ a _. emits_pure a tt)
                λ x _. emits_if (λ _. emits_pure tt tt) (λ _. emits_fail _))
        (λ _. emits_pure tt tt)

  clean_up-emits :
      finalized_commit_matches_pvc p s ≡ true
      → (c : ConfigMap) (pods : List Pod) → All (IsSelected s) pods
      → All (IsUser P.known p) pods
      → Emits P (clean_up e p c s pods) Whatever
  unfolding clean_up
  clean_up-emits f c pods sel use_it = emits_bind (delete_pods-emits f pods sel use_it) λ _ _.
      emits_bind (pods_using_pvc-emits e h.steps p) λ remaining _.
        emits_if (λ _. emits_bind (delete_claim-emits f) λ _ _. confirm_deletion-emits c)
          (λ _. emits_pure _ tt)

  pub resume-emits : (c : ConfigMap) → Emits P (resume_committed_pvc_deletion e p c s) Whatever
  unfolding resume_committed_pvc_deletion
  resume-emits c =
      emits_if
        (λ f. emits_bind (pods_using_pvc-emits e h.steps p) λ pods known.
          emits_on_some (λ pod _. stop_for_stranger-emits c pod)
            λ n.
              clean_up-emits f c pods (first_stranger-none s pods n)
                (All-of_IsIn (IsUser P.known p) pods (λ pod i. (pods, known, i))))
        (λ _. emits_fail _)

-- What a cleanup for the claim p and the record s may ask for.
abbrev pub IsAuthorized : Pvc → DeletionCommit → (Event → Type 0) → Request → Type 0
IsAuthorized p s K (delete_pvc q o) =
    (q ≡ p) × (finalized_commit_matches_pvc p s ≡ true) × (o ≡ observed p.uid p.resource_version)
IsAuthorized p s K (delete_pod pod o) =
    IsSelected s pod
    × IsUser K p pod
    × (finalized_commit_matches_pvc p s ≡ true)
    × (o ≡ force (observed pod.uid pod.resource_version))
IsAuthorized p s K _ = Unit

IsAuthorized-Permits :
    (p : Pvc) (s : DeletionCommit) (K : Event → Type 0)
    → PermitsCleanup p s (under K (IsAuthorized p s K))
IsAuthorized-Permits p s K = record {
  steps = record { reads = reads; resets = λ q. tt; discards = λ c. tt; updates = λ c. tt };
  pods = λ pod sel uses_it f. (sel, uses_it, f, refl);
  claim = λ f. (refl, f, refl);
}
  where
    reads : (q : Request) → IsRead q → IsAuthorized p s K q
    reads (delete_pvc q o) r = elim r [ ]
    reads (delete_pod pod o) r = elim r [ ]
    reads _ r = tt

-- Whatever the API server answers to the calls, the cleanup for a claim p and a record s asks for no
-- deletion of a claim but p's, and for no deletion of a Pod but those that the record names and whose
-- node is the record's or not set, which were in an answer before as users of the claim. It asks for
-- either only if p carries the finalized token of s, and under the UID and resource version that it has
-- read.
pub resume-IsAuthorized :
    (e : Env) (p : Pvc) (c : ConfigMap) (s : DeletionCommit)
    → Obeys (IsAuthorized p s) [] (resume_committed_pvc_deletion e p c s)
resume-IsAuthorized e p c s =
    Obeys-of_Emits (IsAuthorized p s) [] _ (λ K all. resume-emits e (IsAuthorized-Permits p s K) c)
