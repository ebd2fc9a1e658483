-- ===== src/Remediation/Handshaking.antt =====
-- What the scan of the claims asks of the API server (pvc_scan.go of internal/controller/remediation):
-- reads, changes of the handshake, and the deletion transaction.
use infra_operator.Base.{
  String, ◌≡◌, ◌≢◌, Bool, true, false, refl, All, List, [], ◌∷◌, arith, string_eq,
}
use infra_operator.Base.StringMap.{StringMap, get}
use infra_operator.Remediation.Objects.{
  Pvc, Snr, PodRemediator, pvc_stuck_on_node, clear_remediation_annotations,
}
use infra_operator.Remediation.Api.{Request, ok, get_pv, list_pvcs, patch_pvc, Env}
use infra_operator.Remediation.Calls.{
  annotate, patch_annotations, start_request, start_request_annotations,
}
use infra_operator.Remediation.Recover.{ResumeResult}
use infra_operator.Remediation.Delete.{delete_pvc_and_pods}
use infra_operator.Remediation.Scan.{
  Snapshot, Outcome, drop_consent, delete_consented, continue_request, process_existing,
  request_consent, find_request, process_new,
}
use infra_operator.Remediation.Reconcile.{
  clean_claims, clean_namespaces, cleanup_annotations, scan_claim, scan_claims, scan_namespaces,
}
use infra_operator.Remediation.Trace.{
  IsIn, All-of_IsIn, Event, Rules, learn, Emits, Whatever, emits_pure, emits_fail, emits_bind,
  emits_on, emits_on_some, emits_attempt, emits_if, emits_ask,
}
use infra_operator.Remediation.Steps.{IsRead}

-- P allows reads and the removal of handshakes.
pub record PermitsClearing (P : Rules) : Type 0 where
  pub reads : (q : Request) → IsRead q → P.allowed q
  pub clears :
      (p : Pvc) → P.allowed (patch_pvc p (annotate p (clear_remediation_annotations p.annotations)))

module _ (e : Env) {P : Rules} (h : PermitsClearing P) where
  pub patch_annotations-emits :
      (p : Pvc) (a : StringMap)
      → P.allowed (patch_pvc p (annotate p a))
      → Emits P (patch_annotations e p a) Whatever
  unfolding patch_annotations
  patch_annotations-emits p a allowed =
      emits_bind (emits_ask e (patch_pvc p (annotate p a)) allowed) λ r _.
        emits_on (λ q _. emits_pure q tt) λ x _. emits_if (λ _. emits_pure _ tt) (λ _. emits_fail x)

  clean_claims-emits :
      (owner : String) (legacy : Bool) (ps : List Pvc) (bad : Bool)
      → Emits P (clean_claims e owner legacy ps bad) Whatever
  unfolding clean_claims
  clean_claims-emits owner legacy [] bad = emits_pure bad tt
  clean_claims-emits owner legacy (p ∷ ps) bad =
      emits_if (λ _. clean_claims-emits owner legacy ps bad)
        λ _. emits_bind (emits_attempt (patch_annotations-emits p _ (h.clears p))) λ r _.
          emits_on (λ _ _. clean_claims-emits owner legacy ps bad)
            (λ _ _. clean_claims-emits owner legacy ps true)

  clean_namespaces-emits :
      (owner : String) (legacy : Bool) (ns : List String) (bad : Bool)
      → Emits P (clean_namespaces e owner legacy ns bad) Whatever
  unfolding clean_namespaces
  clean_namespaces-emits owner legacy [] bad = emits_pure bad tt
  clean_namespaces-emits owner legacy (n ∷ ns) bad =
      emits_bind (emits_ask e (list_pvcs n) (h.reads (list_pvcs n) tt)) λ r _.
        emits_on
          (λ pvcs _.
            emits_bind (clean_claims-emits owner legacy pvcs bad)
              (λ worse _. clean_namespaces-emits owner legacy ns worse))
          (λ _ _. clean_namespaces-emits owner legacy ns true)

  pub cleanup_annotations-emits :
      (namespaces : List String) (owner : String) (legacy : Bool)
      → Emits P (cleanup_annotations e namespaces owner legacy) Whatever
  unfolding cleanup_annotations
  cleanup_annotations-emits namespaces owner legacy =
      emits_bind (clean_namespaces-emits owner legacy namespaces false)
        (λ bad _. emits_if (λ _. emits_fail _) (λ _. emits_pure tt tt))

-- The claim was in an answer, and is stuck on the node that it names.
abbrev pub IsScanned : (Event → Type 0) → Pvc → String → Type 0
IsScanned K p stuck =
    (n : String) × (ps : List Pvc) × K (list_pvcs n, ok ps)
    × IsIn p ps
    × (stuck ≡ get p.annotations pvc_stuck_on_node)

-- P allows the handshake of this owner, and its deletions unless they are paused.
pub record PermitsScan (e : Env) (r : PodRemediator) (P : Rules) : Type 0 where
  pub clearing : PermitsClearing P
  pub drops : (p : Pvc) → P.allowed (patch_pvc p (annotate p (drop_consent p.annotations)))
  pub requests :
      (p : Pvc) (node uid request : String)
      → request ≢ ""
      → uid ≢ ""
      → P.allowed
          (patch_pvc p (annotate p (start_request_annotations r p.annotations node uid request)))
  pub deletes :
      (p : Pvc) (stuck : String)
      → r.remediation_paused ≡ false
      → IsScanned P.known p stuck
      → Emits P (delete_pvc_and_pods e r p stuck) Whatever

module _ (e : Env) (scan : Snapshot) {P : Rules} (h : PermitsScan e scan.instance P) where
  start_request-emits :
      (p : Pvc) (node uid request : String)
      → Emits P (start_request e scan.instance p node uid request) Whatever
  unfolding start_request
  start_request-emits p node uid request =
      emits_if (λ _. emits_fail _)
        λ given.
          let new = start_request_annotations scan.instance p.annotations node uid request in
          emits_bind
            (emits_ask e (patch_pvc p (annotate p new))
              (h.requests p node uid request (ground arith) (ground arith)))
            λ r _. emits_on (λ q _. emits_pure q tt) (λ x _. emits_fail x)

  delete_consented-emits :
      (p : Pvc) (stuck request : String) (o : Outcome)
      → scan.instance.remediation_paused ≡ false
      → IsScanned P.known p stuck
      → Emits P (delete_consented e scan p stuck request o) Whatever
  unfolding delete_consented
  delete_consented-emits p stuck request o active scanned =
      emits_if (λ _. emits_pure o tt)
        λ _.
          emits_bind
            (emits_ask e (get_pv p.volume_name) (h.clearing.reads (get_pv p.volume_name) tt))
            λ r _.
              emits_on
                (λ pv _.
                  emits_if (λ _. emits_pure o tt)
                    λ _. emits_bind (emits_attempt (h.deletes p stuck active scanned)) λ d _.
                      emits_on (λ _ _. emits_pure _ tt)
                        λ x _. emits_if (λ _. emits_pure _ tt) (λ _. emits_pure _ tt))
                λ x _. emits_if (λ _. emits_pure o tt) (λ _. emits_pure _ tt)

  continue_request-emits :
      (p : Pvc) (stuck : String) (snr : Snr) (o : Outcome)
      → IsScanned P.known p stuck
      → Emits P (continue_request e scan p stuck snr o) Whatever
  unfolding continue_request
  continue_request-emits p stuck snr o scanned =
      emits_if (λ _. emits_pure _ tt)
        λ _.
          emits_if
            (λ _.
              emits_bind (emits_attempt (start_request-emits p stuck _ _))
                λ r _. emits_on (λ _ _. emits_pure _ tt) (λ _ _. emits_pure _ tt))
            λ _.
              emits_if (λ _. emits_pure _ tt)
                λ active.
                  emits_if (λ _. delete_consented-emits p stuck _ o active scanned)
                    (λ _. emits_pure _ tt)

  process_existing-emits :
      (p : Pvc) (stuck : String) (o : Outcome)
      → IsScanned P.known p stuck
      → Emits P (process_existing e scan p stuck o) Whatever
  unfolding process_existing
  process_existing-emits p stuck o scanned =
      emits_if
        (λ _.
          emits_bind
            (emits_attempt (patch_annotations-emits e h.clearing p _ (h.clearing.clears p)))
            λ r _. emits_on (λ _ _. emits_pure o tt) (λ _ _. emits_pure _ tt))
        λ _.
          emits_on_some (λ snr _. continue_request-emits p stuck snr o scanned)
            (λ _. emits_pure _ tt)

  request_consent-emits :
      (p : Pvc) (node : String) (snr : Snr) (o : Outcome)
      → Emits P (request_consent e scan p node snr o) Whatever
  unfolding request_consent
  request_consent-emits p node snr o =
      emits_if (λ _. emits_pure _ tt)
        λ _. emits_bind (emits_attempt (start_request-emits p node _ _)) λ r _.
          emits_on (λ _ _. emits_if (λ _. emits_pure _ tt) (λ _. emits_pure o tt))
            (λ _ _. emits_pure _ tt)

  find_request-emits : (p : Pvc) (o : Outcome) → Emits P (find_request e scan p o) Whatever
  unfolding find_request
  find_request-emits p o =
      emits_if (λ _. emits_pure o tt)
        λ _.
          emits_bind
            (emits_ask e (get_pv p.volume_name) (h.clearing.reads (get_pv p.volume_name) tt))
            λ r _.
              emits_on
                (λ pv _.
                  emits_if (λ _. emits_pure o tt)
                    λ _.
                      emits_on_some (λ snr _. request_consent-emits p _ snr o)
                        (λ _. emits_pure _ tt))
                λ x _. emits_if (λ _. emits_pure o tt) (λ _. emits_pure _ tt)

  process_new-emits : (p : Pvc) (o : Outcome) → Emits P (process_new e scan p o) Whatever
  unfolding process_new
  process_new-emits p o =
      emits_if
        (λ _.
          emits_bind (emits_attempt (patch_annotations-emits e h.clearing p _ (h.drops p)))
            λ r _. emits_on (λ q _. find_request-emits q o) (λ _ _. find_request-emits _ _))
        (λ _. find_request-emits p o)

  scan_claims-emits :
      (resumed : ResumeResult) (ps : List Pvc) (o : Outcome)
      → All (λ p. IsScanned P.known p (get p.annotations pvc_stuck_on_node)) ps
      → Emits P (scan_claims e scan resumed ps o) Whatever
  unfolding scan_claims scan_claim
  scan_claims-emits resumed [] o scanned = emits_pure o tt
  scan_claims-emits resumed (p ∷ ps) o (this, scanned) =
      emits_bind
        (emits_if (λ _. emits_pure o tt)
          λ _. emits_if (λ _. process_existing-emits p _ o this) (λ _. process_new-emits p o))
        (λ q _. scan_claims-emits resumed ps q scanned)

  pub scan_namespaces-emits :
      (resumed : ResumeResult) (ns : List String) (o : Outcome)
      → Emits P (scan_namespaces e scan resumed ns o) Whatever
  unfolding scan_namespaces
  scan_namespaces-emits resumed [] o = emits_pure o tt
  scan_namespaces-emits resumed (n ∷ ns) o =
      emits_bind (emits_ask e (list_pvcs n) (h.clearing.reads (list_pvcs n) tt)) λ r known.
        emits_on
          (λ pvcs is_read.
            emits_bind
              (scan_claims-emits resumed pvcs o (
                All-of_IsIn _ pvcs
                  (λ p i. (n, pvcs, learn P (list_pvcs n) is_read known, i, refl))))
              (λ q _. scan_namespaces-emits resumed ns q))
          (λ _ _. scan_namespaces-emits resumed ns _)
