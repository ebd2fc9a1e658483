-- ===== src/Messaging/TransportPasses.antt =====
-- internal/controller/rabbitmq/transporturl_controller.go: reconcileDelete of a TransportURL, Reconcile
-- behind the read of the object, and its other watches.
use infra_operator.Base.{
  String, false, ◌&&◌, ◌||◌, not, List, [], ◌∷◌, ◌==◌, string_eq, any, if◌then◌else◌,
}
use infra_operator.Base.StringMap.{delete, set}
use infra_operator.Messaging.{unset, Result, err, TransportUrl}
use infra_operator.Messaging.Calls.{get_user, update_user, patch_transport_url, Outcome, Library}
use infra_operator.Messaging.Programs.{
  Program, leave, pure, call, ◌>>=◌, ◌>>◌, stop, when, on, choose,
}
use infra_operator.Messaging.Finalizers.{canonical_user_name, canonical_vhost_name}
use infra_operator.Messaging.Creation.{orphaned_label, is_orphaned}
use infra_operator.Messaging.Release.{is_consumer}
use infra_operator.Messaging.Passes.{summary, after_patch}
use infra_operator.Messaging.Watches.{requests}
use infra_operator.Messaging.Rotation.{
  Fallible, as_value, settle, finalizer_of, release_user_finalizer, cleanup_old_transport_secret,
  without_pending,
}
use infra_operator.Messaging.Legacy.{
  spec_vhost, remove_finalizer_from_vhost, cleanup_legacy_owned_resources,
}
use infra_operator.Messaging.Shared.{Step, try}
use infra_operator.Messaging.Transport.{reconcile_normal}

abbrev pub own_finalizer : String
own_finalizer = "transporturl.rabbitmq.openstack.org"

module _ (lib : Library) where
  unfoldable pub release_pending_at_deletion : TransportUrl → Step TransportUrl
  release_pending_at_deletion t = choose (t.previous_user_ref == "") (pure t) (do
    try t (release_user_finalizer lib t.previous_user_ref (finalizer_of lib t))
    try t (cleanup_old_transport_secret lib t.previous_secret_name)
    pure (without_pending lib t))

  -- The finalizer is taken off the shared user, and its label set to what is left.
  unfoldable pub release_shared_user : TransportUrl → Fallible (Unit {0})
  release_shared_user t =
      let name =
        canonical_user_name lib.digest t.rabbitmq_cluster_name (spec_vhost lib t) t.username in
      call (get_user name) λ r.
        on r
          (λ u.
            let (fs, removed) = lib.remove_finalizer u.finalizers (finalizer_of lib t) in
            let orphaned = not u.deleted && not (any is_consumer fs) && not (is_orphaned u) in
            let reclaimed = not u.deleted && any is_consumer fs && is_orphaned u in
            let u' = record u {
              finalizers = fs;
              labels =
                  if orphaned
                  then set orphaned_label "true" u.labels
                  else if reclaimed
                  then delete orphaned_label u.labels
                  else u.labels;
            } in
            when (removed || orphaned || reclaimed) (call (update_user u') settle))
          λ e. settle {A = Unit {0}} (err e)

  unfoldable pub reconcile_delete : TransportUrl → Step ⊥
  reconcile_delete t = do
    t' ← release_pending_at_deletion t
    when (not (t'.username == "")) (do
      try t' (release_shared_user t')
      when (not (spec_vhost lib t' == "/")) (
          try t' (
            remove_finalizer_from_vhost lib t'
              (canonical_vhost_name lib.digest t'.rabbitmq_cluster_name (spec_vhost lib t'))
              (finalizer_of lib t'))))
    as_value (cleanup_legacy_owned_resources lib t')
    leave (record t' { finalizers = (lib.remove_finalizer t'.finalizers own_finalizer).0 }) stop

  unfoldable pub transport_url_pass : TransportUrl → Step ⊥
  transport_url_pass t = do
    when t.is_new (leave (record t { is_new = false }) stop)
    choose t.deleted (reconcile_delete t) (do
      let (fs, changed) = lib.add_finalizer t.finalizers own_finalizer
      when changed (leave (record t { finalizers = fs }) stop)
      reconcile_normal lib t)

  unfoldable pub finish_transport_url : TransportUrl → Step ⊥ → Program (Unit {0}) Outcome
  finish_transport_url before (leave t r) =
      call (patch_transport_url before (record t { ready = summary lib t.ready t.url_ready }))
        λ d. pure (after_patch (λ e. false) r d)
  finish_transport_url before (pure a) = absurd a
  finish_transport_url before (call q k) = call q (λ r. finish_transport_url before (k r))

  -- `Reconcile` of a TransportURL that was read.
  unfoldable pub reconcile_transport_url : TransportUrl → Program (Unit {0}) Outcome
  reconcile_transport_url t = finish_transport_url t (
      transport_url_pass
        (record t { url_ready = unset; ready = unset; observed_generation = t.generation }))

-- Of those listed, the TransportURLs whose user is still to be released.
unfoldable pub find_transport_urls_with_pending_release : Result (List TransportUrl) → List String
find_transport_urls_with_pending_release urls =
    requests (λ (t : TransportUrl). not (t.previous_user_ref == "")) (λ (t : TransportUrl). t.name)
      urls

-- `transportURLToVhostMapFunc` of rabbitmqvhost_controller.go.
unfoldable pub transport_url_to_vhost_map_func : (String → String) → TransportUrl → List String
transport_url_to_vhost_map_func digest t =
    let vhost = if t.vhost == "" then t.status_vhost else t.vhost in
    if not (vhost == "") && not (vhost == "/") && not (t.rabbitmq_cluster_name == "")
    then canonical_vhost_name digest t.rabbitmq_cluster_name vhost ∷ []
    else []
