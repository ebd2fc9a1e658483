-- ===== src/Remediation/Sanction.antt =====
-- The requests that the transaction and the recovery may make of the API server, behind the answers that
-- it has given.
use infra_operator.Base.{String, ◌≡◌, ◌⊎◌, inl, refl, true}
use infra_operator.Base.StringMap.{set, empty}
use infra_operator.Remediation.Objects.{Pvc, pvc_key, ObjectKey, ConfigMap, PodRemediator, observed}
use infra_operator.Remediation.Commit.{
  DeletionCommit, deletion_commit_state, prepared_commit_matches_pvc, finalized_commit_matches_pvc,
  pvc_deletion_consent_matches,
}
use infra_operator.Remediation.Api.{
  Request, ok, get_pvc, patch_pvc, create_commit, delete_commit, delete_pod, delete_pvc, Env,
}
use infra_operator.Base.{some}
use infra_operator.Remediation.Calls.{annotate, clear_aborted_annotations}
use infra_operator.Remediation.Resume.{force}
use infra_operator.Remediation.Prepare.{mark_annotations, finalized}
use infra_operator.Remediation.Trace.{Event, under}
use infra_operator.Remediation.Steps.{IsRead, Permits, IsStored, IsPromoted}
use infra_operator.Remediation.Authority.{IsSelected, IsUser, PermitsCleanup}

-- A claim's handshake and deletion markers are removed, and nothing else changes.
abbrev pub IsReset : Pvc → Pvc → Type 0
IsReset old new = new ≡ annotate old (clear_aborted_annotations old.annotations)

-- Deletions and resets alone. A claim is deleted only if it and its record are such that C holds, and
-- under the record's finalized token; a Pod only for such a claim and record, as a user of the claim
-- that was in an answer and that the record names. Each under the UID and version that was read.
abbrev pub IsCleanup : (Pvc → DeletionCommit → Type 0) → (Event → Type 0) → Request → Type 0
IsCleanup C K (delete_pvc q o) =
    (s : DeletionCommit) × C q s
    × (finalized_commit_matches_pvc q s ≡ true)
    × (o ≡ observed q.uid q.resource_version)
IsCleanup C K (delete_pod pod o) =
    (q : Pvc) × (s : DeletionCommit) × C q s
    × (finalized_commit_matches_pvc q s ≡ true)
    × IsSelected s pod
    × IsUser K q pod
    × (o ≡ force (observed pod.uid pod.resource_version))
IsCleanup C K (patch_pvc old new) = IsReset old new
IsCleanup C K (delete_commit c o) = o ≡ observed c.uid c.resource_version
IsCleanup C K (create_commit c) = ⊥
IsCleanup C K _ = Unit

module _ (e : Env) (K : Event → Type 0) where
  -- The record is one of which B holds, or that with the committed phase, or another writer's with its
  -- token, decoded from an answer.
  abbrev pub IsHeld : (DeletionCommit → Type 0) → DeletionCommit → Type 0
  IsHeld B s =
      (t : DeletionCommit) × B t × (IsPromoted t s ⊎ (IsStored e K s × (s.token ≡ t.token)))

  -- The API server has accepted a new ConfigMap that holds the record.
  abbrev pub IsCreated : DeletionCommit → Type 0
  IsCreated s =
      (c : ConfigMap) × (d : ConfigMap) × (encoded : String) × K (create_commit c, ok d)
      × (e.marshal s ≡ some encoded)
      × (c.annotations ≡ set deletion_commit_state encoded empty)

  -- The claim was in an answer, and the record is the owner's and was decoded from an answer.
  abbrev pub IsRecoverable : String → Pvc → DeletionCommit → Type 0
  IsRecoverable owner q s =
      ((k : ObjectKey) × K (get_pvc k, ok q))
      × IsHeld (λ t. IsStored e K t × (t.remediator_uid ≡ owner)) s

-- What recovery may ask for.
abbrev pub IsRecovery : Env → String → (Event → Type 0) → Request → Type 0
IsRecovery e owner K = IsCleanup (IsRecoverable e K owner) K

module _ (instance : PodRemediator) (p : Pvc) (node : String) where
  -- The record is for this claim, owner and node.
  abbrev pub IsOurs : DeletionCommit → Type 0
  IsOurs s = (s.pvc_uid ≡ p.uid) × (s.remediator_uid ≡ instance.uid) × (s.node ≡ node)

  module _ (e : Env) (K : Event → Type 0) where
    -- The record is for this claim, owner and node, and was decoded from an answer, or created.
    abbrev pub IsOurRecord : DeletionCommit → Type 0
    IsOurRecord t = IsOurs t × (IsStored e K t ⊎ IsCreated e K t)

    -- The write of the finalized token, on a claim that carries the record's marker and the owner's
    -- consent for the record's request.
    abbrev pub IsFinal : Pvc → Pvc → Type 0
    IsFinal old new =
        (s : DeletionCommit) × IsOurRecord s
        × (new ≡ finalized old s)
        × (prepared_commit_matches_pvc old s ≡ true)
        × (pvc_deletion_consent_matches old instance.uid node s.request_id ≡ true)

    abbrev pub IsMark : Pvc → Pvc → Type 0
    IsMark old new = (s : DeletionCommit) × IsOurRecord s × (new ≡ mark_annotations old s)

    -- The claim was read under p's name, and the record is ours.
    abbrev pub IsCommitted : Pvc → DeletionCommit → Type 0
    IsCommitted q s = K (get_pvc (pvc_key p), ok q) × IsHeld e K IsOurRecord s

    abbrev pub IsSanctioned : Request → Type 0
    IsSanctioned (patch_pvc old new) = IsReset old new ⊎ (IsMark old new ⊎ IsFinal old new)
    IsSanctioned (create_commit c) = Unit
    IsSanctioned q = IsCleanup IsCommitted K q

    reads : (q : Request) → IsRead q → IsSanctioned q
    reads (delete_pvc q o) r = elim r [ ]
    reads (delete_pod pod o) r = elim r [ ]
    reads (delete_commit c o) r = elim r [ ]
    reads (patch_pvc old new) r = elim r [ ]
    reads _ r = tt

    pub steps : Permits (under K IsSanctioned)
    steps = record {
      reads = reads;
      resets = λ q. inl refl;
      discards = λ c. refl;
      updates = λ c. tt;
    }

    pub cleanup :
        (q : Pvc) (s : DeletionCommit) → IsCommitted q s → PermitsCleanup q s (under K IsSanctioned)
    cleanup q s committed = record {
      steps = steps;
      pods = λ pod sel uses_it f. (q, s, committed, f, sel, uses_it, refl);
      claim = λ f. (s, committed, f, refl);
    }
