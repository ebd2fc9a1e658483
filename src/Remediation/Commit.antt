-- ===== src/Remediation/Commit.antt =====
-- internal/controller/remediation/deletion_commit.go: the durable record of a claim's deletion, the
-- tests that bind it to the claim, and its decoding. Hashing and JSON are parameters.
use infra_operator.Base.{
  String, ◌<>◌, Bool, false, ◌&&◌, ◌||◌, not, Option, none, some, List, [], ◌∷◌, ◌==◌, string_eq,
  any, if◌then◌else◌,
}
use infra_operator.Base.StringMap.{get}
use infra_operator.Remediation.Objects
use infra_operator.Remediation.Objects.{
  Pvc, Pod, ConfigMap, PodRemediator, Snr, pvc_stuck_on_node, remediator_uid, fencing_node_uid,
  pvc_deletion_committed, has_remediation_consent,
}

abbrev pub deletion_commit_prefix : String
deletion_commit_prefix = "podremediator-deletion-"

abbrev pub deletion_commit_state : String
deletion_commit_state = "remediation.openstack.org/deletion-commit-state"

abbrev pub deletion_commit_token : String
deletion_commit_token = "remediation.openstack.org/pvc-deletion-commit-token"

abbrev pub deletion_commit_finalized : String
deletion_commit_finalized = "remediation.openstack.org/pvc-deletion-commit-finalized"

abbrev pub deletion_commit_annotation_keys : List String
deletion_commit_annotation_keys =
    pvc_deletion_committed ∷ deletion_commit_token ∷ deletion_commit_finalized ∷ []

unfoldable pub has_deletion_commit_annotations : Pvc → Bool
has_deletion_commit_annotations p =
    any (λ k. not (get p.annotations k == "")) deletion_commit_annotation_keys

abbrev pub phase_prepared : String
phase_prepared = "prepared"

abbrev pub phase_committed : String
phase_committed = "committed"

pub record CommittedPod : Type 0 where
  pub name : String
  pub uid : String

pub record DeletionCommit : Type 0 where
  pub pvc_name : String
  pub pvc_uid : String
  pub pvc_resource_version : String
  pub request_id : String
  pub remediator_uid : String
  pub node : String
  pub token : String
  pub phase : String
  pub pods : List CommittedPod

unfoldable pub committed_pvc_deletion_value : String → String → String → String
committed_pvc_deletion_value pvc_uid remediator node =
    "v1|" <> (node <> ("|" <> (pvc_uid <> ("|" <> remediator))))

unfoldable pub committed_deletion : DeletionCommit → Bool
committed_deletion s = s.phase == phase_committed

unfoldable pub prepared_commit_matches_pvc : Pvc → DeletionCommit → Bool
prepared_commit_matches_pvc p s =
    p.uid == s.pvc_uid
    && get p.annotations pvc_deletion_committed
      == committed_pvc_deletion_value s.pvc_uid s.remediator_uid s.node
    && get p.annotations deletion_commit_token == s.token

unfoldable pub finalized_commit_matches_pvc : Pvc → DeletionCommit → Bool
finalized_commit_matches_pvc p s =
    prepared_commit_matches_pvc p s && get p.annotations deletion_commit_finalized == s.token

unfoldable pub pvc_deletion_consent_matches : Pvc → String → String → String → Bool
pvc_deletion_consent_matches p owner node request =
    has_remediation_consent p.annotations
    && get p.annotations pvc_stuck_on_node == node
    && get p.annotations remediator_uid == owner
    && not (get p.annotations fencing_node_uid == "")
    && get p.annotations Objects.request_id == request

abbrev is_claim : String → Option String → Bool
is_claim claim none = false
is_claim claim (some name) = name == claim

unfoldable pub pod_uses_pvc : Pod → String → Bool
pod_uses_pvc pod claim = any (λ v. is_claim claim v) pod.volumes

-- `remediationRequestID`
unfoldable pub remediation_request_id : PodRemediator → Pvc → Option Snr → String
remediation_request_id r p none = ""
remediation_request_id r p (some snr) =
    if r.uid == "" || p.uid == "" || snr.uid == ""
    then ""
    else r.uid <> (":" <> (p.uid <> (":" <> snr.uid)))

-- The reasons for which `decodeDeletionCommit` refuses a record.
pub data DecodeError : Type 0 where
  malformed legacy bad_phase incomplete bad_pod : DecodeError

pub data Decoded : Type 0 where
  valid : DeletionCommit → Decoded
  invalid : DecodeError → Decoded

unfoldable pub has_unnamed_pod : List CommittedPod → Bool
has_unnamed_pod = any (λ p. p.name == "" || p.uid == "")

module _ (digest : String → String) (unmarshal : String → Option DeletionCommit) where
  unfoldable pub deletion_commit_name : String → String
  deletion_commit_name pvc_uid = deletion_commit_prefix <> digest pvc_uid

  unfoldable pub check_commit : String → DeletionCommit → Decoded
  check_commit name s =
      if s.pvc_name == ""
        || s.pvc_uid == ""
        || s.remediator_uid == ""
        || s.node == ""
        || not (name == deletion_commit_name s.pvc_uid)
      then invalid malformed
      else if s.phase == ""
      then invalid legacy
      else if not (s.phase == phase_prepared) && not (s.phase == phase_committed)
      then invalid bad_phase
      else if s.pvc_resource_version == "" || s.request_id == "" || s.token == ""
      then invalid incomplete
      else if has_unnamed_pod s.pods
      then invalid bad_pod
      else valid s

  unfoldable pub decode_deletion_commit : ConfigMap → Decoded
  unfolding check_commit
  decode_deletion_commit c = elim (unmarshal (get c.annotations deletion_commit_state)) [
    | none ↦ invalid malformed
    | some s ↦ check_commit c.name s
  ]
