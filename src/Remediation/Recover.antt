-- ===== src/Remediation/Recover.antt =====
-- internal/controller/remediation/deletion_commit_resume.go: the recovery of all records after a
-- restart (`resumeCommittedPVCDeletions`), and from deletion_commit_prepare.go the two steps that it
-- shares with the preparation: promotion and rejection of a prepared record.
use text.Mathlib.Text.{starts_with}
use infra_operator.Base.{
  String, ◌<>◌, Bool, false, ◌&&◌, ◌||◌, not, Option, none, some, List, [], ◌∷◌, ◌==◌, string_eq,
  contains, if◌then◌else◌,
}
use infra_operator.Base.StringMap.{get, set}
use infra_operator.Remediation.Objects.{Pvc, ConfigMap, is_zero, remediator_uid}
use infra_operator.Remediation.Commit.{
  DeletionCommit, Decoded, phase_prepared, phase_committed, deletion_commit_prefix,
  deletion_commit_state, deletion_commit_token, deletion_commit_finalized,
  has_deletion_commit_annotations, committed_deletion, finalized_commit_matches_pvc,
  deletion_commit_name, decode_deletion_commit,
}
use infra_operator.Remediation.Api.{
  failed, is_not_found, get_pvc, get_commit, list_pvcs, list_commits, update_commit, Env, M, ◌>>=◌,
  ◌>>◌, pure, fail, on, on_some, on_decoded, ask, when, wrap,
}
use infra_operator.Remediation.Calls.{
  checked, clear_aborted_pvc, delete_the_commit, discard_prepared,
}
use infra_operator.Remediation.Resume.{Resumed, resume_committed_pvc_deletion}

-- `committedPVCDeletionResumeResult`; the sets are lists of UIDs.
pub record ResumeResult : Type 0 where
  pub pending : Bool
  pub blocked_by_replacement_pod : String
  pub blocked_by_invalid_commit : String
  pub pending_pvc_uids : List String
  pub blocked_pvc_uids : List String
  pub aborted_pvc_uids : List String

-- The result so far, and the `active` UIDs of the namespace.
pub record Progress : Type 0 where
  pub result : ResumeResult
  pub active : List String

abbrev activate : String → Progress → Progress
activate uid a = record a { active = uid ∷ a.active }

abbrev block : String → String → Progress → Progress
block uid message a = record {
  result = record (a.result) {
    blocked_by_invalid_commit = message;
    blocked_pvc_uids = uid ∷ a.result.blocked_pvc_uids;
  };
  active = uid ∷ a.active;
}

abbrev abort : String → Progress → Progress
abort uid a = record {
  result = record (a.result) { aborted_pvc_uids = uid ∷ a.result.aborted_pvc_uids };
  active = uid ∷ a.active;
}

-- What the loop does with the result of `resumeCommittedPVCDeletion`.
abbrev account : String → Resumed → Progress → Progress
account uid r a = record a {
  result = record (a.result) {
    pending = a.result.pending || r.pending;
    pending_pvc_uids =
        if r.pending then uid ∷ a.result.pending_pvc_uids else a.result.pending_pvc_uids;
    blocked_by_replacement_pod =
        if r.blocked == "" then a.result.blocked_by_replacement_pod else r.blocked;
    aborted_pvc_uids =
        if r.aborted then r.pvc.uid ∷ a.result.aborted_pvc_uids else a.result.aborted_pvc_uids;
  };
}

-- `pvcByCommitName[name]`: of two claims with one name the later counts.
unfoldable pub pvc_by_commit_name : (String → String) → List Pvc → String → Option Pvc
pvc_by_commit_name commit_name [] name = none
pvc_by_commit_name commit_name (p ∷ ps) name = elim (pvc_by_commit_name commit_name ps name) [
  | some q ↦ some q
  | none ↦ if commit_name p.uid == name then some p else none
]

-- The claim is being deleted, or carries a finalized token.
abbrev is_past_boundary : Pvc → Bool
is_past_boundary p =
    not (is_zero p.deletion_timestamp) || not (get p.annotations deletion_commit_finalized == "")

module _ (e : Env) where
  abbrev pub decode : ConfigMap → Decoded
  decode = decode_deletion_commit e.digest e.unmarshal

  -- `rejectPreparedDeletionCommit`
  unfoldable pub reject_prepared : Pvc → ConfigMap → DeletionCommit → M Pvc
  reject_prepared p c s = do
    discard_prepared e c
    when (get p.annotations deletion_commit_token == s.token) (clear_aborted_pvc e p) (pure p)

  -- The record of another controller may have won the write.
  unfoldable pub adopt_promoted : ConfigMap → DeletionCommit → M (ConfigMap × DeletionCommit)
  adopt_promoted c s = do
    let lost = fail (failed "promote PVC deletion commit")
    r ← ask e (get_commit (record { namespace = c.namespace; name = c.name }))
    on r
        (λ latest.
          on_decoded (decode latest)
            (λ t. when (committed_deletion t && t.token == s.token) (pure (latest, t)) lost) lost)
        λ _. lost

  unfoldable pub promote_prepared : ConfigMap → DeletionCommit → M (ConfigMap × DeletionCommit)
  promote_prepared c s = when (committed_deletion s) (pure (c, s)) (do
    let t = record s { phase = phase_committed }
    on_some (e.marshal t)
        (λ encoded. do
          r ← ask e (
              update_commit
                (record c { annotations = set deletion_commit_state encoded c.annotations }))
          on r (λ promoted. pure (promoted, t)) λ _. adopt_promoted c t)
        (fail (failed "encode PVC deletion commit")))

  -- A record that cannot be decoded.
  unfoldable pub recover_invalid : String → List Pvc → ConfigMap → Progress → M Progress
  recover_invalid owner pvcs c a =
      on_some (pvc_by_commit_name (deletion_commit_name e.digest e.unmarshal) pvcs c.name)
        (λ p.
          when
            (not (get p.annotations remediator_uid == "")
              && not (get p.annotations remediator_uid == owner))
            (pure (activate p.uid a))
            (when (is_past_boundary p)
              (pure (
                block p.uid
                  ("PVC "
                    <> (p.namespace
                        <> ("/"
                            <> (p.name
                                <> " has an invalid deletion commit record; preserve the PVC and repair or remove the record before cleanup can continue"))))
                  a))
              (do
                wrap "remove invalid PVC deletion commit" (delete_the_commit e c)
                q ← clear_aborted_pvc e p
                pure (abort p.uid a))))
        (pure a)

  unfoldable pub continue_cleanup : Pvc → ConfigMap → DeletionCommit → Progress → M Progress
  continue_cleanup p c s a = do
    r ← resume_committed_pvc_deletion e p c s
    pure (account s.pvc_uid r (activate s.pvc_uid a))

  -- A prepared record whose claim has no finalized token is given up.
  unfoldable pub abandon_prepared : Pvc → ConfigMap → DeletionCommit → Progress → M Progress
  abandon_prepared p c s a = do
    q ← reject_prepared p c s
    when (has_deletion_commit_annotations q)
        (do r ← clear_aborted_pvc e q; pure (abort s.pvc_uid a)) (pure (abort s.pvc_uid a))

  unfoldable pub abandon_committed : Pvc → ConfigMap → DeletionCommit → Progress → M Progress
  abandon_committed p c s a =
      when (is_past_boundary p)
        (pure (
          block s.pvc_uid
            ("PVC "
              <> (p.namespace
                  <> ("/"
                      <> (p.name
                          <> " has a committed deletion record without its matching finalized PVC token"))))
            a))
        (do discard_prepared e c; q ← clear_aborted_pvc e p; pure (abort s.pvc_uid a))

  unfoldable pub recover_valid : String → ConfigMap → DeletionCommit → Progress → M Progress
  recover_valid namespace c s a = do
    r ← ask e (get_pvc (record { namespace = namespace; name = s.pvc_name }))
    on r
        (λ p.
          when (not (p.uid == s.pvc_uid)) (do delete_the_commit e c; pure a)
            (when (s.phase == phase_prepared)
              (when (not (finalized_commit_matches_pvc p s)) (abandon_prepared p c s a)
                (do (d, t) ← promote_prepared c s; continue_cleanup p d t a))
              (when (not (finalized_commit_matches_pvc p s)) (abandon_committed p c s a)
                (continue_cleanup p c s a))))
        λ x. when (is_not_found x) (do delete_the_commit e c; pure a) (fail x)

  unfoldable pub recover_commit : String → String → List Pvc → ConfigMap → Progress → M Progress
  recover_commit namespace owner pvcs c a =
      when (not (starts_with c.name deletion_commit_prefix)) (pure a) (
        on_decoded (decode c)
          (λ s.
            when (not (s.remediator_uid == owner)) (pure (activate s.pvc_uid a))
              (recover_valid namespace c s a))
          (recover_invalid owner pvcs c a))

  unfoldable pub recover_commits :
      String → String → List Pvc → List ConfigMap → Progress → M Progress
  recover_commits namespace owner pvcs [] a = pure a
  recover_commits namespace owner pvcs (c ∷ cs) a =
      recover_commit namespace owner pvcs c a >>= λ b. recover_commits namespace owner pvcs cs b

  -- Markers on claims that no record accounts for are removed.
  unfoldable pub scrub : List Pvc → List String → M (Unit {0})
  scrub [] active = pure tt
  scrub (p ∷ ps) active =
      let rest = scrub ps active in
      when (has_deletion_commit_annotations p && not (contains active p.uid))
        (clear_aborted_pvc e p >> rest) rest

  unfoldable pub recover_namespace : String → String → ResumeResult → M ResumeResult
  recover_namespace owner namespace result = do
    pvcs ← checked e (ask e (list_pvcs namespace))
    commits ← wrap "list PVC deletion commits" (checked e (ask e (list_commits namespace)))
    a ← recover_commits namespace owner pvcs commits (record { result = result; active = [] })
    scrub pvcs a.active
    pure a.result

  unfoldable pub recover_namespaces : String → List String → ResumeResult → M ResumeResult
  recover_namespaces owner [] result = pure result
  recover_namespaces owner (n ∷ ns) result =
      recover_namespace owner n result >>= λ r. recover_namespaces owner ns r

  unfoldable pub resume_committed_pvc_deletions : List String → String → M ResumeResult
  unfolding recover_namespaces
  resume_committed_pvc_deletions namespaces owner = recover_namespaces owner namespaces (record {
    pending = false;
    blocked_by_replacement_pod = "";
    blocked_by_invalid_commit = "";
    pending_pvc_uids = [];
    blocked_pvc_uids = [];
    aborted_pvc_uids = [];
  })
