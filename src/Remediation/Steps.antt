-- ===== src/Remediation/Steps.antt =====
-- The single steps ask for nothing but reads, removals of records, and resets of a claim's handshake.
use mathlib.Core.Path.{subst}
use infra_operator.Base.{String, ◌≡◌, ◌⊎◌, inl, inr, refl, List, arith, string_eq}
use infra_operator.Base.StringMap.{set}
use infra_operator.Remediation.Objects.{
  Pvc, Pod, ObjectKey, pvc_key, ConfigMap, PodRemediator, observed,
}
use infra_operator.Remediation.Commit.{
  DeletionCommit, valid, phase_committed, deletion_commit_state,
}
use infra_operator.Remediation.Api.{
  Request, Result, ok, list_commits, get_pvc, get_commit, get_remediator, get_node, get_pv,
  list_pods, list_snrs, patch_pvc, create_commit, update_commit, delete_commit, delete_pod,
  delete_pvc, Env, M, ask,
}
use infra_operator.Remediation.Calls.{
  annotate, users, checked, clear_aborted_annotations, read_pvc, patch_annotations,
  clear_aborted_pvc, pods_using_pvc, delete_the_commit, discard_prepared, is_remediation_paused,
  get_fenced_nodes, fencing_without_node, deletion_fencing_current,
}
use infra_operator.Remediation.Recover.{decode, reject_prepared, adopt_promoted, promote_prepared}
use infra_operator.Remediation.Trace.{
  IsIn, Event, Rules, learn, emits_weaken, Emits, Whatever, emits_pure, emits_fail, emits_bind,
  emits_on, emits_on_some, emits_on_decoded, emits_if, emits_wrap, emits_ask,
}

-- A request that changes nothing.
abbrev pub IsRead : Request → Type 0
IsRead (patch_pvc old new) = ⊥
IsRead (create_commit c) = ⊥
IsRead (update_commit c) = ⊥
IsRead (delete_commit c o) = ⊥
IsRead (delete_pod p o) = ⊥
IsRead (delete_pvc p o) = ⊥
IsRead q = Unit

-- The Pods are those of a list of the claim's namespace that use the claim.
abbrev pub AreUsers : (Event → Type 0) → Pvc → List Pod → Type 0
AreUsers K p pods = (ps : List Pod) × K (list_pods p.namespace, ok ps) × (pods ≡ users ps p.name)

-- The ConfigMap was in an answer.
abbrev pub IsCommitRead : (Event → Type 0) → ConfigMap → Type 0
IsCommitRead K c =
    ((k : ObjectKey) × K (get_commit k, ok c))
    ⊎ ((n : String) × (cs : List ConfigMap) × K (list_commits n, ok cs) × IsIn c cs)

-- The record was decoded from a ConfigMap that was in an answer.
abbrev pub IsStored : Env → (Event → Type 0) → DeletionCommit → Type 0
IsStored e K t = (c : ConfigMap) × (decode e c ≡ valid t) × IsCommitRead K c

-- The same record, or with the committed phase.
abbrev pub IsPromoted : DeletionCommit → DeletionCommit → Type 0
IsPromoted t s = (s ≡ t) ⊎ (s ≡ record t { phase = phase_committed })

-- P allows the steps that every part of the transaction takes.
pub record Permits (P : Rules) : Type 0 where
  pub reads : (q : Request) → IsRead q → P.allowed q
  pub resets :
      (p : Pvc) → P.allowed (patch_pvc p (annotate p (clear_aborted_annotations p.annotations)))
  pub discards : (c : ConfigMap) → P.allowed (delete_commit c (observed c.uid c.resource_version))
  pub updates : (c : ConfigMap) → P.allowed (update_commit c)

module _ (e : Env) {P : Rules} (h : Permits P) where
  pub read-emits : (q : Request) → IsRead q → Emits P (ask e q) (λ r. P.known (q, r))
  read-emits q r = emits_ask e q (h.reads q r)

  pub checked-emits :
      {A : Type 0} {m : M (Result A)} {Q : Result A → Type 0}
      → Emits P m Q
      → Emits P (checked e m) (λ a. Q (ok a))
  unfolding checked
  checked-emits {Q} hm =
      emits_bind hm λ r q. emits_on (λ a e. emits_pure a (subst Q e q)) (λ x _. emits_fail x)

  pub read_pvc-emits : (p : Pvc) → Emits P (read_pvc e p) (λ r. P.known (get_pvc (pvc_key p), r))
  unfolding read_pvc
  read_pvc-emits p = read-emits (get_pvc (pvc_key p)) tt

  pub delete_the_commit-emits : (c : ConfigMap) → Emits P (delete_the_commit e c) Whatever
  unfolding delete_the_commit
  delete_the_commit-emits c =
      emits_bind (emits_ask e (delete_commit c (observed c.uid c.resource_version)) (h.discards c))
        λ r _.
          emits_on (λ a _. emits_pure a tt)
            λ x _. emits_if (λ _. emits_pure tt tt) (λ _. emits_fail x)

  pub discard_prepared-emits : (c : ConfigMap) → Emits P (discard_prepared e c) Whatever
  unfolding discard_prepared
  discard_prepared-emits c = emits_wrap _ (delete_the_commit-emits c)

  pub clear_aborted_pvc-emits : (p : Pvc) → Emits P (clear_aborted_pvc e p) Whatever
  unfolding clear_aborted_pvc patch_annotations
  clear_aborted_pvc-emits p =
      emits_if (λ _. emits_pure p tt)
        λ _. emits_wrap _ (
          emits_bind
            (emits_ask e (patch_pvc p (annotate p (clear_aborted_annotations p.annotations)))
              (h.resets p))
            λ r _.
              emits_on (λ a _. emits_pure a tt)
                λ x _. emits_if (λ _. emits_pure _ tt) (λ _. emits_fail x))

  pub pods_using_pvc-emits :
      (p : Pvc) → Emits P (pods_using_pvc e p) (λ pods. AreUsers P.known p pods)
  unfolding pods_using_pvc
  pods_using_pvc-emits p = emits_bind (read-emits (list_pods p.namespace) tt) λ r known.
      emits_on (λ a e. emits_pure _ (a, learn P (list_pods p.namespace) e known, refl))
        (λ x _. emits_fail _)

  pub is_remediation_paused-emits :
      (r : PodRemediator) → Emits P (is_remediation_paused e r) Whatever
  unfolding is_remediation_paused
  is_remediation_paused-emits r =
      emits_bind
        (read-emits (get_remediator (record { namespace = r.namespace; name = r.name })) tt)
        λ a _. emits_on (λ c _. emits_pure _ tt) (λ x _. emits_fail x)

  pub get_fenced_nodes-emits : Emits P (get_fenced_nodes e) Whatever
  unfolding get_fenced_nodes
  get_fenced_nodes-emits = emits_bind (read-emits list_snrs tt) λ r _.
      emits_on (λ snrs _. emits_pure _ tt)
        λ x _. emits_if (λ _. emits_pure _ tt) (λ _. emits_fail x)

  fencing_without_node-emits :
      (p : Pvc) (node : String) → Emits P (fencing_without_node e p node) Whatever
  unfolding fencing_without_node
  fencing_without_node-emits p node =
      emits_if (λ _. emits_pure _ tt)
        λ _. emits_bind (read-emits (get_pv p.volume_name) tt) λ r _.
          emits_on (λ pv _. emits_pure _ tt)
            λ x _. emits_if (λ _. emits_pure _ tt) (λ _. emits_fail _)

  pub deletion_fencing_current-emits :
      (r : PodRemediator) (p : Pvc) (node : String)
      → Emits P (deletion_fencing_current e r p node) Whatever
  unfolding deletion_fencing_current
  deletion_fencing_current-emits r p node =
      emits_bind (emits_wrap _ get_fenced_nodes-emits) λ fenced _.
        emits_if (λ _. emits_pure _ tt)
          λ _. emits_bind (read-emits (get_node node) tt) λ a _.
            emits_on (λ n _. emits_pure _ tt)
              λ x _. emits_if (λ _. fencing_without_node-emits p node) (λ _. emits_fail _)

  pub reject_prepared-emits :
      (p : Pvc) (c : ConfigMap) (s : DeletionCommit) → Emits P (reject_prepared e p c s) Whatever
  unfolding reject_prepared
  reject_prepared-emits p c s =
      emits_bind (discard_prepared-emits c)
        λ _ _. emits_if (λ _. clear_aborted_pvc-emits p) (λ _. emits_pure p tt)

  adopt_promoted-emits :
      (c : ConfigMap) (s : DeletionCommit)
      → Emits P (adopt_promoted e c s) (λ d. IsStored e P.known d.1 × (d.1.token ≡ s.token))
  unfolding adopt_promoted
  adopt_promoted-emits c s =
      let key : ObjectKey = record { namespace = c.namespace; name = c.name } in
      emits_bind (read-emits (get_commit key) tt) λ r known.
        emits_on
          (λ latest e1.
            emits_on_decoded
              (λ t e2.
                emits_if
                  (λ same.
                    emits_pure _
                      ((latest, e2, inl (key, learn P (get_commit key) e1 known)), ground arith))
                  (λ _. emits_fail _))
              (emits_fail _))
          (λ x _. emits_fail _)

  pub promote_prepared-emits :
      (c : ConfigMap) (s : DeletionCommit)
      → Emits P
          (promote_prepared e c s)
          (λ d. IsPromoted s d.1 ⊎ (IsStored e P.known d.1 × (d.1.token ≡ s.token)))
  unfolding promote_prepared
  promote_prepared-emits c s =
      emits_if (λ _. emits_pure _ (inl (inl refl)))
        λ _.
          emits_on_some
            (λ encoded _.
              emits_bind
                (emits_ask e (update_commit (promoted encoded)) (h.updates (promoted encoded)))
                λ r _.
                  emits_on (λ d _. emits_pure _ (inl (inr refl)))
                    (λ x _.
                      emits_weaken (adopt_promoted-emits c (record s { phase = phase_committed }))
                        (λ d k. inr k)))
            (λ _. emits_fail _)
    where
      promoted : String → ConfigMap
      promoted encoded = record c { annotations = set deletion_commit_state encoded c.annotations }
