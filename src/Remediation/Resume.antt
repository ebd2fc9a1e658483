-- ===== src/Remediation/Resume.antt =====
-- internal/controller/remediation/deletion_commit_resume.go: the cleanup that a finalized record
-- authorizes (`resumeCommittedPVCDeletion`).
use infra_operator.Base.{
  String, ◌<>◌, Bool, true, false, ◌&&◌, ◌||◌, not, Option, none, some, List, [], ◌∷◌, ◌==◌,
  string_eq, nat_eq, length, if◌then◌else◌,
}
use infra_operator.Base.StringMap.{StringMap, get, set, empty}
use infra_operator.Remediation.Objects.{Pvc, Pod, ConfigMap, is_zero, observed, DeleteOptions}
use infra_operator.Remediation.Commit.{DeletionCommit, CommittedPod, finalized_commit_matches_pvc}
use infra_operator.Remediation.Api.{
  failed, wrapped, is_not_found, delete_pod, delete_pvc, Env, M, ◌>>=◌, ◌>>◌, pure, fail, on,
  on_some, ask, when,
}
use infra_operator.Remediation.Calls.{
  read_pvc, clear_aborted_pvc, pods_using_pvc, delete_the_commit,
}

unfoldable pub replacement_pod_blocking_message : Pvc → Pod → String
replacement_pod_blocking_message p pod =
    "PVC "
    <> (p.namespace
        <> ("/"
            <> (p.name
                <> (" is terminating while replacement Pod "
                    <> (pod.namespace
                        <> ("/"
                            <> (pod.name
                                <> (" (UID "
                                    <> (pod.uid
                                        <> ") uses it; workload operator must pause recreation and release that Pod to finish committed cleanup")))))))))

-- The map from the recorded Pods' names to their UIDs.
unfoldable pub authorized : List CommittedPod → StringMap → StringMap
authorized [] m = m
authorized (p ∷ ps) m = authorized ps (set p.name p.uid m)

-- A Pod on another node, or one that is not recorded.
unfoldable pub is_stranger : DeletionCommit → Pod → Bool
is_stranger s pod =
    (not (pod.node_name == "") && not (pod.node_name == s.node))
    || not (get (authorized s.pods empty) pod.name == pod.uid)

unfoldable pub first_stranger : DeletionCommit → List Pod → Option Pod
first_stranger s [] = none
first_stranger s (p ∷ ps) = if is_stranger s p then some p else first_stranger s ps

-- A force deletion of the Pod has been accepted already.
unfoldable pub is_force_deleted : Pod → Bool
is_force_deleted pod =
    not (is_zero pod.deletion_timestamp)
    && elim pod.deletion_grace_period [ none ↦ false | some g ↦ g == 0 ]

pub record Resumed : Type 0 where
  pub pending : Bool
  pub aborted : Bool
  pub blocked : String
  pub pvc : Pvc

abbrev pub force : DeleteOptions → DeleteOptions
force o = record o { grace_period = some 0 }

module _ (e : Env) where
  unfoldable pub delete_pods : List Pod → M (Unit {0})
  delete_pods [] = pure tt
  delete_pods (pod ∷ pods) =
      let rest = delete_pods pods in
      when (is_force_deleted pod) rest (do
        r ← ask e (delete_pod pod (force (observed pod.uid pod.resource_version)))
        on r (λ _. rest)
            λ x.
              when (is_not_found x) rest
                (fail (wrapped "conditionally force-delete committed Pod" x)))

  -- A Pod outside the record uses the claim: wait if the claim is going, and else give up.
  unfoldable pub stop_for_stranger : Pvc → ConfigMap → Pod → M Resumed
  stop_for_stranger p c pod =
      when (not (is_zero p.deletion_timestamp))
        (pure (record {
          pending = true;
          aborted = false;
          blocked = replacement_pod_blocking_message p pod;
          pvc = p;
        }))
        (do
          delete_the_commit e c
          q ← clear_aborted_pvc e p
          pure (record { pending = false; aborted = true; blocked = ""; pvc = q }))

  abbrev waiting : Pvc → String → Resumed
  waiting p blocked = record { pending = true; aborted = false; blocked = blocked; pvc = p }

  -- Behind the claim's deletion: is it gone, and does a new Pod hold it?
  unfoldable pub confirm_deletion : Pvc → ConfigMap → DeletionCommit → M Resumed
  confirm_deletion p c s = do
    r ← read_pvc e p
    on r
        (λ current.
          when (current.uid == p.uid && not (is_zero current.deletion_timestamp))
            (do
              pods ← pods_using_pvc e current
              on_some (first_stranger s pods)
                  (λ pod. pure (waiting p (replacement_pod_blocking_message current pod)))
                  (pure (waiting p "")))
            (pure (waiting p "")))
        λ x.
          when (is_not_found x)
            (do
              delete_the_commit e c
              pure (record { pending = false; aborted = false; blocked = ""; pvc = p }))
            (fail x)

  unfoldable pub delete_claim : Pvc → M (Unit {0})
  delete_claim p =
      when (is_zero p.deletion_timestamp)
        (do
          r ← ask e (delete_pvc p (observed p.uid p.resource_version))
          on r pure λ x.
              when (is_not_found x) (pure tt)
                (fail (wrapped "conditionally delete committed PVC" x)))
        (pure tt)

  unfoldable pub clean_up : Pvc → ConfigMap → DeletionCommit → List Pod → M Resumed
  clean_up p c s pods = do
    delete_pods pods
    remaining ← pods_using_pvc e p
    when (length remaining == 0) (do delete_claim p; confirm_deletion p c s) (pure (waiting p ""))

  unfoldable pub resume_committed_pvc_deletion : Pvc → ConfigMap → DeletionCommit → M Resumed
  resume_committed_pvc_deletion p c s =
      when (finalized_commit_matches_pvc p s)
        (do
          pods ← pods_using_pvc e p
          on_some (first_stranger s pods) (stop_for_stranger p c) (clean_up p c s pods))
        (fail (failed "PVC has a committed deletion record without its matching finalized token"))
