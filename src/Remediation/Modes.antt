-- ===== src/Remediation/Modes.antt =====
-- What a whole reconciliation may ask of the API server in each mode: active, paused, disabled and
-- on deletion of the PodRemediator (podremediator_controller.go of internal/controller/remediation).
use infra_operator.Base.{String, ◌≡◌, ◌≢◌, ◌⊎◌, inl, inr, refl, sym, ◌∙◌, true, false, List, []}
use mathlib.Core.Bool.{true≢false as true-ne-false}
use infra_operator.Remediation.Objects.{
  Pvc, PodRemediator, Duration, observed, clear_remediation_annotations,
}
use infra_operator.Remediation.Api.{
  Request, Result, list_nodes, list_health_checks, list_snr_templates, patch_pvc, delete_commit,
  update_commit, Env, M,
}
use infra_operator.Remediation.Calls.{
  annotate, clear_aborted_annotations, start_request_annotations,
}
use infra_operator.Remediation.Recover.{ResumeResult}
use infra_operator.Remediation.Scan.{drop_consent}
use infra_operator.Remediation.Verdict.{Reconciled}
use infra_operator.Remediation.Reconcile.{
  snapshot, found, check_nhc_and_snr, scan_cluster, monitor, check_and_monitor, maintain,
  reconcile_normal, reconcile_delete,
}
use infra_operator.Remediation.Trace.{
  Event, Rules, under, Obeys, Obeys-of_Emits, Emits, Whatever, emits_pure, emits_fail, emits_bind,
  emits_on, emits_attempt, emits_if, emits_wrap, emits_mono,
}
use infra_operator.Remediation.Steps.{
  IsRead, Permits, read-emits, checked-emits, get_fenced_nodes-emits,
}
use infra_operator.Remediation.Sanction.{IsRecoverable, IsRecovery, IsSanctioned}
use infra_operator.Remediation.Transaction.{delete_pvc_and_pods-emits}
use infra_operator.Remediation.Recovery.{IsRead-IsCleanup, resume_committed_pvc_deletions-emits}
use infra_operator.Remediation.Handshaking.{
  IsScanned, PermitsClearing, PermitsScan, cleanup_annotations-emits, scan_namespaces-emits,
}

-- What recovery may ask for, or the removal of a claim's six handshake annotations.
abbrev IsClearing : Request → Type 0
IsClearing (patch_pvc old new) = new ≡ annotate old (clear_remediation_annotations old.annotations)
IsClearing _ = ⊥

abbrev pub IsMaintenance : Env → String → (Event → Type 0) → Request → Type 0
IsMaintenance e owner K q = IsRecovery e owner K q ⊎ IsClearing q

-- A claim's consent is dropped, or a request of this owner is written to it without consent.
abbrev pub IsHandshake : PodRemediator → Request → Type 0
IsHandshake r (patch_pvc old new) =
    (new ≡ annotate old (drop_consent old.annotations))
    ⊎ ((node : String) × (uid : String) × (request : String) × (request ≢ "")
        × (uid ≢ "")
        × (new ≡ annotate old (start_request_annotations r old.annotations node uid request)))
IsHandshake r _ = ⊥

abbrev pub IsIdle : Env → PodRemediator → (Event → Type 0) → Request → Type 0
IsIdle e r K q = IsMaintenance e r.uid K q ⊎ IsHandshake r q

-- Beside these, a request of the transaction for a claim that a list in an answer has, and for the node
-- that this claim is stuck on.
abbrev pub IsActive : Env → PodRemediator → (Event → Type 0) → Request → Type 0
IsActive e r K q =
    IsIdle e r K q
    ⊎ ((p : Pvc) × (node : String) × IsScanned K p node × IsSanctioned r p node e K q)

record PermitsRecovery (e : Env) (owner : String) (K : Event → Type 0) (A : Request → Type 0)
    : Type 0 where
  recovers : (q : Request) → IsRecovery e owner K q → A q
  clearing : PermitsClearing (under K A)

module _ (e : Env) (r : PodRemediator) {K : Event → Type 0} {A : Request → Type 0}
    (h : PermitsRecovery e r.uid K A) where
  abbrev P : Rules
  P = under K A

  permits : Permits P
  permits = record {
    reads = h.clearing.reads;
    resets =
        λ p. h.recovers (patch_pvc p (annotate p (clear_aborted_annotations p.annotations))) refl;
    discards = λ c. h.recovers (delete_commit c (observed c.uid c.resource_version)) refl;
    updates = λ c. h.recovers (update_commit c) tt;
  }

  found-emits : (a : Result (List String)) → Emits P (found e a) Whatever
  found-emits a =
      emits_on (λ _ _. emits_pure _ tt) λ x _. emits_if (λ _. emits_pure _ tt) (λ _. emits_fail x)

  check_nhc_and_snr-emits : Emits P (check_nhc_and_snr e) Whatever
  unfolding check_nhc_and_snr
  check_nhc_and_snr-emits = emits_bind (read-emits e permits list_health_checks tt) λ a _.
      emits_bind (found-emits a) λ both _.
        emits_if (λ _. emits_pure _ tt)
          λ _. emits_bind (read-emits e permits list_snr_templates tt) (λ b _. found-emits b)

  module _ (scan : r.disabled ≡ false → PermitsScan e r P) where
    scan_cluster-emits :
        (namespaces : List String) (resumed : ResumeResult)
        → r.disabled ≡ false
        → Emits P (scan_cluster e r namespaces resumed) Whatever
    unfolding scan_cluster snapshot
    scan_cluster-emits namespaces resumed active =
        emits_bind (emits_wrap _ (checked-emits e permits (read-emits e permits list_nodes tt)))
          λ nodes _.
            emits_bind (emits_wrap _ (get_fenced_nodes-emits e permits))
              λ fenced _. scan_namespaces-emits e _ (scan active) resumed namespaces _

    monitor-emits :
        (namespaces : List String) (resumed : ResumeResult) (c d : Duration)
        → Emits P (monitor e r namespaces resumed c d) Whatever
    unfolding monitor
    monitor-emits namespaces resumed c d =
        emits_if (λ _. emits_pure _ tt)
          λ active.
            emits_bind (emits_attempt (scan_cluster-emits namespaces resumed active))
              λ s _. emits_on (λ o _. emits_pure _ tt) (λ x _. emits_pure _ tt)

    check_and_monitor-emits :
        (namespaces : List String) (resumed : ResumeResult) (c d : Duration)
        → Emits P (check_and_monitor e r namespaces resumed c d) Whatever
    unfolding check_and_monitor
    check_and_monitor-emits namespaces resumed c d =
        emits_if (λ _. emits_pure _ tt)
          λ _. emits_bind (emits_attempt check_nhc_and_snr-emits) λ s _.
            emits_on
              (λ both _.
                emits_if (λ _. monitor-emits namespaces resumed c d) (λ _. emits_pure _ tt))
              (λ x _. emits_pure _ tt)

    maintain-emits :
        (namespaces : List String) (resumed : ResumeResult) {rest : M Reconciled}
        → Emits P rest Whatever
        → Emits P (maintain e r namespaces resumed rest) Whatever
    unfolding maintain
    maintain-emits namespaces resumed hr =
        emits_if (λ _. hr)
          λ _.
            emits_bind
              (emits_attempt (cleanup_annotations-emits e h.clearing namespaces r.uid true))
              λ s _.
                emits_on
                  (λ _ _.
                    emits_if (λ _. emits_pure _ tt) λ _. emits_if (λ _. emits_pure _ tt) (λ _. hr))
                  (λ x _. emits_pure _ tt)

    reconcile_normal-emits : (c d : Duration) → Emits P (reconcile_normal e c d r) Whatever
    unfolding reconcile_normal
    reconcile_normal-emits c d =
        emits_bind
          (emits_attempt (emits_mono (resume_committed_pvc_deletions-emits e r.uid K _) h.recovers))
          λ s _.
            emits_on (λ resumed _. maintain-emits _ resumed (check_and_monitor-emits _ resumed _ _))
              (λ x _. emits_pure _ tt)

  reconcile_delete-emits : Emits P (reconcile_delete e r) Whatever
  unfolding reconcile_delete
  reconcile_delete-emits =
      emits_bind
        (emits_attempt (emits_mono (resume_committed_pvc_deletions-emits e r.uid K _) h.recovers))
        λ s _.
          emits_on
            (λ resumed _.
              emits_if (λ _. emits_pure _ tt)
                λ _.
                  emits_bind (emits_attempt (cleanup_annotations-emits e h.clearing _ r.uid true))
                    λ t _. emits_on (λ _ _. emits_pure _ tt) (λ x _. emits_pure _ tt))
            (λ x _. emits_pure _ tt)

module _ (e : Env) (r : PodRemediator) (K : Event → Type 0) where
  reads : (q : Request) → IsRead q → IsRecovery e r.uid K q
  reads = IsRead-IsCleanup (IsRecoverable e K r.uid) K

  IsMaintenance-recovery : PermitsRecovery e r.uid K (IsMaintenance e r.uid K)
  IsMaintenance-recovery = record {
    recovers = λ q c. inl c;
    clearing = record { reads = λ q i. inl (reads q i); clears = λ p. inr refl };
  }

  IsIdle-recovery : PermitsRecovery e r.uid K (IsIdle e r K)
  IsIdle-recovery = record {
    recovers = λ q c. inl (inl c);
    clearing = record { reads = λ q i. inl (inl (reads q i)); clears = λ p. inl (inr refl) };
  }

  IsActive-recovery : PermitsRecovery e r.uid K (IsActive e r K)
  IsActive-recovery = record {
    recovers = λ q c. inl (inl (inl c));
    clearing = record {
      reads = λ q i. inl (inl (inl (reads q i)));
      clears = λ p. inl (inl (inr refl));
    };
  }

-- Whatever the API server answers, a reconciliation asks for nothing but what recovery may ask for,
-- changes of the consent handshake, and sanctioned requests of the deletion of a claim that a list in an
-- answer had, from the node that this claim names as the one that it is stuck on. What recovery and the
-- deletion may ask for depends on the answers that came before.
pub reconcile_normal-IsActive :
    (e : Env) (r : PodRemediator) (c d : Duration)
    → Obeys (IsActive e r) [] (reconcile_normal e c d r)
reconcile_normal-IsActive e r c d = Obeys-of_Emits (IsActive e r) [] _ λ K all.
    reconcile_normal-emits e r (IsActive-recovery e r K)
      (λ _. record {
        clearing = (IsActive-recovery e r K).clearing;
        drops = λ p. inl (inr (inl refl));
        requests = λ p node uid request g u. inl (inr (inr (node, uid, request, g, u, refl)));
        deletes = λ p stuck _ scanned.
            emits_mono (delete_pvc_and_pods-emits r p stuck e K)
              (λ q s. inr (p, stuck, scanned, s));
      })
      c d

-- While remediation is paused, a reconciliation begins no deletion: it writes no marker and no
-- finalized token, and asks for nothing but what recovery may ask for and changes of the consent
-- handshake.
pub reconcile_normal-IsIdle :
    (e : Env) (r : PodRemediator) (c d : Duration)
    → r.remediation_paused ≡ true
    → Obeys (IsIdle e r) [] (reconcile_normal e c d r)
reconcile_normal-IsIdle e r c d paused = Obeys-of_Emits (IsIdle e r) [] _ λ K all.
    reconcile_normal-emits e r (IsIdle-recovery e r K)
      (λ _. record {
        clearing = (IsIdle-recovery e r K).clearing;
        drops = λ p. inr (inl refl);
        requests = λ p node uid request g u. inr (inr (node, uid, request, g, u, refl));
        deletes = λ p stuck active _. absurd (true-ne-false (sym paused ∙ active));
      })
      c d

-- A reconciliation with remediation disabled, and one of a PodRemediator in deletion, disabled or not,
-- ask for nothing but what recovery may ask for and the removal of handshakes.
pub reconcile-IsMaintenance :
    (e : Env) (r : PodRemediator) (c d : Duration)
    → Obeys (IsMaintenance e r.uid) [] (reconcile_normal e c d (record r { disabled = true }))
      × Obeys (IsMaintenance e r.uid) [] (reconcile_delete e r)
reconcile-IsMaintenance e r c d =
    let off = record r { disabled = true } in
    (
      Obeys-of_Emits (IsMaintenance e r.uid) [] _ (λ K all.
          reconcile_normal-emits e off (IsMaintenance-recovery e off K)
            (λ active. absurd (true-ne-false active)) c d),
      Obeys-of_Emits (IsMaintenance e r.uid) [] _
          (λ K all. reconcile_delete-emits e r (IsMaintenance-recovery e r K)),
    )
