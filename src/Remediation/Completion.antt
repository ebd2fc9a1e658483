-- ===== src/Remediation/Completion.antt =====
-- A finalized cleanup comes to its end (`resumeCommittedPVCDeletion` of deletion_commit_resume.go,
-- internal/controller/remediation).
use infra_operator.Base.{◌≡◌, true, false, none, List, [], ◌∷◌, arith, string_eq, nat_eq}
use infra_operator.Remediation.Objects.{Pvc, pvc_key, Pod, ConfigMap, observed}
use infra_operator.Remediation.Commit.{DeletionCommit, finalized_commit_matches_pvc}
use infra_operator.Remediation.Api.{
  not_found, ok, err, Request, list_pods, get_pvc, delete_pvc, delete_commit, Env, State, ◌>>=◌,
  pure, fail, on, on_some, ask, when, is_not_found, run,
}
use infra_operator.Remediation.Calls.{users, pods_using_pvc, read_pvc, delete_the_commit}
use infra_operator.Remediation.Resume.{
  resume_committed_pvc_deletion, first_stranger, delete_pods, delete_claim, confirm_deletion,
  clean_up,
}

module _ (e : Env) (p : Pvc) (c : ConfigMap) (s : DeletionCommit) (pods : List Pod)
    (w gone forgot : e.World) (trace : List Request)
    (final : finalized_commit_matches_pvc p s ≡ true) (live : p.deletion_timestamp ≡ none)
    (unused : users pods p.name ≡ []) (listed : e.reply (list_pods p.namespace) w ≡ (ok pods, w))
    (deleted : e.reply (delete_pvc p (observed p.uid p.resource_version)) w ≡ (ok tt, gone))
    (absent : e.reply (get_pvc (pvc_key p)) gone ≡ (err not_found, gone))
    (forgotten : e.reply (delete_commit c (observed c.uid c.resource_version)) gone
      ≡ (ok tt, forgot)) where
  abbrev start : State e.World
  start = record { world = w; trace = trace }

  -- When no Pod uses a live claim with the finalized token, and the API server deletes the claim and
  -- then the record, the cleanup ends: nothing is pending, and it has made these five requests.
  pub resume_committed_pvc_deletion-completes :
      run e (resume_committed_pvc_deletion e p c s) start ≡ (
        ok (record { pending = false; aborted = false; blocked = ""; pvc = p }),
        record {
          world = forgot;
          trace =
              delete_commit c (observed c.uid c.resource_version)
              ∷ get_pvc (pvc_key p)
              ∷ delete_pvc p (observed p.uid p.resource_version)
              ∷ list_pods p.namespace
              ∷ list_pods p.namespace
              ∷ trace;
        },
      )
  unfolding resume_committed_pvc_deletion clean_up delete_claim confirm_deletion pods_using_pvc
      delete_the_commit read_pvc delete_pods first_stranger ◌>>=◌ pure fail on on_some ask when
      is_not_found run
  resume_committed_pvc_deletion-completes =
      ground (arith, final, live, unused, listed, deleted, absent, forgotten)
