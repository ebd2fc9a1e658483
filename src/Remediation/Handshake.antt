-- ===== src/Remediation/Handshake.antt =====
-- The consent handshake on a claim's annotations (safety_helpers.go, deletion_commit.go,
-- deletion_commit_resume.go of internal/controller/remediation, and annotations.go of
-- apis/remediation/v1beta1).
use infra_operator.Base.{
  String, ◌≡◌, ◌≢◌, refl, ◌∙◌, true, false, not, ◌&&◌, ◌||◌, none, List, [], ◌∷◌, arith, ◌==◌,
  string_eq, contains, if◌then◌else◌,
}
use infra_operator.Base.StringMap.{StringMap, get, set, delete, delete_all}
use infra_operator.Remediation.Objects.{
  Pvc, PodRemediator, pvc_stuck_on_node, safe_to_delete, request_id, consent_id, remediator_uid,
  fencing_node_uid, remediation_annotation_keys, has_remediation_consent,
  has_remediation_annotations, clear_remediation_annotations,
}
use infra_operator.Remediation.Commit.{
  deletion_commit_annotation_keys, has_deletion_commit_annotations, pvc_deletion_consent_matches,
}
use infra_operator.Remediation.Calls.{
  annotate, clear_aborted_annotations, start_request_annotations,
}

delete_all-at :
    (ks : List String) (m : StringMap) (j : String)
    → delete_all ks m j ≡ (if contains ks j then none else m j)
delete_all-at [] m j = refl
delete_all-at (k ∷ ks) m j = ground (arith, delete_all-at ks (delete k m) j)

-- A reset removes the six handshake annotations and the three deletion markers of a claim, and every
-- other annotation keeps its value.
pub clear_aborted_annotations-exact :
    (a : StringMap) (j : String)
    → clear_aborted_annotations a j ≡ (
        if contains remediation_annotation_keys j || contains deletion_commit_annotation_keys j
        then none
        else a j)
unfolding clear_aborted_annotations clear_remediation_annotations
clear_aborted_annotations-exact a j = ground (
  arith,
  delete_all-at deletion_commit_annotation_keys (delete_all remediation_annotation_keys a) j,
  delete_all-at remediation_annotation_keys a j,
)

-- After a reset a claim counts as one with no handshake and no deletion under way.
pub clear_aborted_annotations-none :
    (p : Pvc)
    → let q = annotate p (clear_aborted_annotations p.annotations) in
      (has_remediation_annotations q.annotations ≡ false)
      × (has_deletion_commit_annotations q ≡ false)
unfolding clear_aborted_annotations clear_remediation_annotations has_remediation_annotations
    has_deletion_commit_annotations string_eq
clear_aborted_annotations-none p = (refl, refl)

-- What the application operator writes to consent.
abbrev pub grant : String → StringMap → StringMap
grant request a = set consent_id request (set safe_to_delete "true" a)

has_remediation_consent-at :
    (a : StringMap) (q v c : String)
    → get a request_id ≡ q
    → get a safe_to_delete ≡ v
    → get a consent_id ≡ c
    → has_remediation_consent a ≡ (not (q == "") && v == "true" && c == q)
unfolding has_remediation_consent
has_remediation_consent-at a q v c e f g = rw (e, f, g)

pvc_deletion_consent_matches-at :
    (p : Pvc) (owner node request n o f q : String)
    → has_remediation_consent p.annotations ≡ true
    → get p.annotations pvc_stuck_on_node ≡ n
    → get p.annotations remediator_uid ≡ o
    → get p.annotations fencing_node_uid ≡ f
    → get p.annotations request_id ≡ q
    → pvc_deletion_consent_matches p owner node request
      ≡ (n == node && o == owner && not (f == "") && q == request)
unfolding pvc_deletion_consent_matches
pvc_deletion_consent_matches-at p owner node request n o f q h a b c d = rw (h, a, b, c, d)

module _ (r : PodRemediator) (a : StringMap) (node node_uid request : String) where
  abbrev started : StringMap
  started = start_request_annotations r a node node_uid request

  started-consent : has_remediation_consent started ≡ false
  started-consent =
      has_remediation_consent-at started request "" ""
        (unfold start_request_annotations string_eq in refl)
        (unfold start_request_annotations string_eq in refl)
        (unfold start_request_annotations string_eq in refl)
      ∙ ground arith

  granted-consent :
      (answer : String)
      → has_remediation_consent (grant answer started)
        ≡ (not (request == "") && true && answer == request)
  granted-consent answer =
      has_remediation_consent-at (grant answer started) request "true" answer
        (unfold start_request_annotations string_eq in refl)
        (unfold start_request_annotations string_eq in refl)
        (unfold start_request_annotations string_eq in refl)
      ∙ ground arith

-- A new request withdraws every earlier consent. If its identifier and the node's UID are not empty, a
-- grant of the identifier is then consent for this owner, node and request, and a grant of another
-- identifier is none.
pub start_request-consent :
    (r : PodRemediator) (p : Pvc) (node node_uid request other : String)
    → request ≢ ""
    → node_uid ≢ ""
    → other ≢ request
    → let a = start_request_annotations r p.annotations node node_uid request in
      (has_remediation_consent a ≡ false)
      × (pvc_deletion_consent_matches (annotate p (grant request a)) r.uid node request ≡ true)
      × (has_remediation_consent (grant other a) ≡ false)
start_request-consent r p node node_uid request other h u o =
    let a = started r p.annotations node node_uid request in
    let q = annotate p (grant request a) in
    let given : has_remediation_consent q.annotations ≡ true =
      granted-consent r p.annotations node node_uid request request ∙ ground arith in
    (
      started-consent r p.annotations node node_uid request,
      pvc_deletion_consent_matches-at q r.uid node request node r.uid node_uid request given
            (unfold start_request_annotations string_eq in refl)
            (unfold start_request_annotations string_eq in refl)
            (unfold start_request_annotations string_eq in refl)
            (unfold start_request_annotations string_eq in refl)
          ∙ ground arith,
      granted-consent r p.annotations node node_uid request other ∙ ground arith,
    )
