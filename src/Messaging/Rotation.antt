-- ===== src/Messaging/Rotation.antt =====
-- internal/controller/rabbitmq/transporturl_controller.go: how a TransportURL lets go of the user that a
-- rotation of credentials replaced, and of the Secret with its URL. A helper that returns an error
-- leaves with it; `as_value` hands it to the caller.
use infra_operator.Base.{
  String, Bool, true, false, ◌&&◌, ◌||◌, not, Option, none, some, ◌==◌, string_eq, any,
  if◌then◌else◌,
}
use infra_operator.Base.StringMap.{set}
use infra_operator.Messaging.{Error, wrapped, is_not_found, Result, ok, err, TransportUrl}
use infra_operator.Messaging.Calls.{
  get_user, get_secret, update_user, update_secret, delete_secret, have_node_sets,
  secret_hashes_in_sync, Library,
}
use infra_operator.Messaging.Programs.{
  Program, leave, pure, call, ◌>>=◌, ◌>>◌, stop, when, on, choose,
}
use infra_operator.Messaging.Finalizers.{transport_url_finalizer_for}
use infra_operator.Messaging.Creation.{orphaned_label, is_orphaned}
use infra_operator.Messaging.Release.{is_consumer}
use infra_operator.Messaging.Urls.{has_transport_consumer_finalizer}

abbrev pub protection_finalizer : String
protection_finalizer = "openstack.org/transport-secret-protection"

-- A function that returns an error.
abbrev pub Fallible : Type 0 → Type 0
Fallible A = Program Error A

abbrev pub raise : {A : Type 0} → Error → Fallible A
raise e = leave e stop

unfoldable pub as_value : {O A : Type 0} → Fallible A → Program O (Result A)
as_value (leave e r) = pure (err e)
as_value (pure a) = pure (ok a)
as_value (call q k) = call q (λ r. as_value (k r))

-- `err != nil && !IsNotFound(err)`
unfoldable pub settle : {A : Type 0} → Result A → Fallible (Unit {0})
settle (ok a) = pure tt
settle (err e) = choose (is_not_found e) (pure tt) (raise (wrapped e))

abbrev pub finalizer_of : Library → TransportUrl → String
finalizer_of lib t = transport_url_finalizer_for lib.digest t.name

module _ (lib : Library) where
  -- `cleanupOldTransportSecret`
  unfoldable pub cleanup_old_transport_secret : String → Fallible (Unit {0})
  cleanup_old_transport_secret name = when (not (name == "")) (
      call (get_secret name) λ r.
        on r
          (λ s.
            let (fs, changed) = lib.remove_finalizer s.finalizers protection_finalizer in
            choose changed
              (call (update_secret (record s { finalizers = fs }))
                λ d. on d (λ s'. call (delete_secret s') settle) λ e. settle {A = Unit {0}} (err e))
              (call (delete_secret s) settle))
          λ e. settle {A = Unit {0}} (err e))

  -- `releaseUserFinalizer`
  unfoldable pub release_user_finalizer : String → String → Fallible (Unit {0})
  release_user_finalizer ref finalizer = call (get_user ref) λ r.
      on r
        (λ u.
          let (fs, updated) = lib.remove_finalizer u.finalizers finalizer in
          let orphaned = not u.deleted && not (any is_consumer fs) && not (is_orphaned u) in
          let u' = record u {
            finalizers = fs;
            labels = if orphaned then set orphaned_label "true" u.labels else u.labels;
          } in
          when (updated || orphaned) (call (update_user u') settle))
        λ e. settle {A = Unit {0}} (err e)

  abbrev pub without_pending : TransportUrl → TransportUrl
  without_pending t = record t { previous_user_ref = ""; previous_secret_name = "" }

  -- `releasePendingUser`
  unfoldable pub release_pending_user : TransportUrl → Fallible TransportUrl
  release_pending_user t = do
    release_user_finalizer t.previous_user_ref (finalizer_of lib t)
    cleanup_old_transport_secret t.previous_secret_name
    pure (without_pending t)

-- Whether no consumer keeps the previous Secret.
unfoldable pub is_secret_released : TransportUrl → Fallible Bool
is_secret_released t = choose (t.previous_secret_name == "") (pure true) (
    call (get_secret t.previous_secret_name) λ r.
      on r (λ s. pure (not (has_transport_consumer_finalizer s)))
        λ e. choose (is_not_found e) (pure true) (raise e))

-- Whether the nodes, if there are any, run on the present Secrets; an error counts as no.
unfoldable pub are_nodes_current : Fallible Bool
are_nodes_current = call have_node_sets λ r.
    on r
      (λ have.
        choose have (call secret_hashes_in_sync λ s. on s (λ in_sync. pure in_sync) λ e. pure false)
          (pure true))
      λ e. pure false

-- `tryReleasePendingUser`: none where the user is kept.
unfoldable pub try_release_pending_user : Library → TransportUrl → Fallible (Option TransportUrl)
try_release_pending_user lib t = do
  free ← is_secret_released t
  choose free
      (do
        current ← are_nodes_current
        choose current (do t' ← release_pending_user lib t; pure (some t')) (pure none))
      (pure none)
