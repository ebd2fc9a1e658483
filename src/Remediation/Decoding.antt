-- ===== src/Remediation/Decoding.antt =====
-- `decodeDeletionCommit` accepts exactly the complete records (deletion_commit.go).
use infra_operator.Base.{
  String, ◌≡◌, ◌≢◌, ◌⊎◌, ◌↔◌, inl, inr, refl, ap, ◌∙◌, Option, some, List, [], ◌∷◌, arith,
  string_eq, All, false, Option-cases,
}
use text.Mathlib.TextEquality.{eq_iff}
use mathlib.Core.Path.{subst}
use infra_operator.Base.StringMap.{get}
use infra_operator.Remediation.Objects.{ConfigMap}
use infra_operator.Remediation.Commit.{
  CommittedPod, DeletionCommit, phase_prepared, phase_committed, deletion_commit_state,
  deletion_commit_name, has_unnamed_pod, valid, check_commit, decode_deletion_commit,
}

-- Every field that the transaction relies on is there, and the phase is one of the two.
pub record IsComplete (s : DeletionCommit) : Type 0 where
  pub pvc_name : s.pvc_name ≢ ""
  pub pvc_uid : s.pvc_uid ≢ ""
  pub remediator_uid : s.remediator_uid ≢ ""
  pub node : s.node ≢ ""
  pub phase : (s.phase ≡ phase_prepared) ⊎ (s.phase ≡ phase_committed)
  pub pvc_resource_version : s.pvc_resource_version ≢ ""
  pub request_id : s.request_id ≢ ""
  pub token : s.token ≢ ""
  pub pods : All (λ p. (p.name ≢ "") × (p.uid ≢ "")) s.pods

named_pods :
    (ps : List CommittedPod)
    → has_unnamed_pod ps ≡ false
    → All (λ p. (p.name ≢ "") × (p.uid ≢ "")) ps
unfolding has_unnamed_pod
named_pods [] h = tt
named_pods (p ∷ ps) h = (ground arith, named_pods ps (ground arith))

unnamed_pods :
    (ps : List CommittedPod)
    → All (λ p. (p.name ≢ "") × (p.uid ≢ "")) ps
    → has_unnamed_pod ps ≡ false
unfolding has_unnamed_pod
unnamed_pods [] h = refl
unnamed_pods (p ∷ ps) (this, rest) = ground (arith, unnamed_pods ps rest)

prepared-ne-empty : phase_prepared ≢ ""
prepared-ne-empty = ground (arith, eq_iff phase_prepared "")

committed-ne-empty : phase_committed ≢ ""
committed-ne-empty = ground (arith, eq_iff phase_committed "")

module _ (digest : String → String) (unmarshal : String → Option DeletionCommit)
    (c : ConfigMap) where
  check_commit-IsComplete :
      (s t : DeletionCommit)
      → check_commit digest unmarshal c.name s ≡ valid t
      → (s ≡ t) × IsComplete s × (c.name ≡ deletion_commit_name digest unmarshal s.pvc_uid)
  unfolding check_commit
  check_commit-IsComplete s t h = ground (arith, named_pods s.pods)

  IsComplete-check_commit :
      (s : DeletionCommit)
      → IsComplete s
      → c.name ≡ deletion_commit_name digest unmarshal s.pvc_uid
      → check_commit digest unmarshal c.name s ≡ valid s
  unfolding check_commit
  IsComplete-check_commit s h n =
      ground (arith, unnamed_pods s.pods h.pods, prepared-ne-empty, committed-ne-empty)

  -- A ConfigMap is accepted exactly if its annotation holds a complete record and its name is the one
  -- derived from the record's claim.
  pub decode_deletion_commit_iff :
      (s : DeletionCommit)
      → (decode_deletion_commit digest unmarshal c ≡ valid s) ↔ (
          (unmarshal (get c.annotations deletion_commit_state) ≡ some s)
          × IsComplete s
          × (c.name ≡ deletion_commit_name digest unmarshal s.pvc_uid))
  unfolding decode_deletion_commit
  decode_deletion_commit_iff s = (
    λ h. elim (Option-cases (unmarshal (get c.annotations deletion_commit_state))) [
      | inl e ↦ ground arith
      | inr (t, e) ↦
          let (same, complete, named) = check_commit-IsComplete t s (ground arith) in
          (
            e ∙ ap some same,
            subst IsComplete same complete,
            named ∙ ap (λ u. deletion_commit_name digest unmarshal u.pvc_uid) same,
          )
    ],
    λ (e, complete, named).
        rw (e, decode_deletion_commit) (IsComplete-check_commit s complete named),
  )
