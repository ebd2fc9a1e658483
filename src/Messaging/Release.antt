-- ===== src/Messaging/Release.antt =====
-- internal/controller/rabbitmq/rabbitmquser_controller.go: reconcileDelete and deleteOrphanedVhost, the
-- whole of Reconcile with its deferred patch, and the watches; IsInternalFinalizer of
-- apis/rabbitmq/v1beta1/rabbitmquser_types.go.
use infra_operator.Base.{
  String, ◌<>◌, Bool, false, ◌&&◌, ◌||◌, not, none, some, ◌==◌, string_eq, any, if◌then◌else◌,
}
use infra_operator.RabbitMq.Users.{
  user_vhost_finalizer_prefix, transport_url_finalizer_prefix, has_secret,
}
use infra_operator.Messaging.{is_met, deleting, nil_dereference, wrapped, is_not_found, User}
use infra_operator.Messaging.Calls.{
  get_vhost, get_cluster, get_secret, list_users, update_vhost, delete_vhost, delete_secret,
  context_error, broker_delete_permissions, broker_delete_user, Library,
}
use infra_operator.Messaging.Finalizers.{starts_with}
use infra_operator.Messaging.Programs.{
  Program, leave, pure, call, ◌>>=◌, ◌>>◌, stop, fail, retry, or_leave, when, on, on_some, choose,
}
use infra_operator.Messaging.Readiness.{open_client}
use infra_operator.Messaging.Creation.{
  user_finalizer, cleanup_blocked_finalizer, vhost_finalizer_of,
}

abbrev pub legacy_user_finalizer : String
legacy_user_finalizer = "rabbitmquser.rabbitmq.openstack.org/finalizer"

abbrev pub transport_url_finalizer : String
transport_url_finalizer = "transporturl.rabbitmq.openstack.org/finalizer"

-- `IsInternalFinalizer`
unfoldable pub is_internal_finalizer : String → Bool
is_internal_finalizer f =
    f == legacy_user_finalizer
    || f == transport_url_finalizer
    || f == user_finalizer
    || f == cleanup_blocked_finalizer
    || starts_with f transport_url_finalizer_prefix
    || starts_with f user_vhost_finalizer_prefix

abbrev pub is_consumer : String → Bool
is_consumer f = starts_with f transport_url_finalizer_prefix

abbrev pub is_external : String → Bool
is_external f = not (is_internal_finalizer f)

-- What keeps a vhost that no one has asked to delete: a consumer's or a user's finalizer.
unfoldable pub claims_vhost : String → Bool
claims_vhost f = is_consumer f || starts_with f user_vhost_finalizer_prefix

unfoldable pub delete_orphaned_vhost : User → String → Program User (Unit {0})
delete_orphaned_vhost u name = call (get_vhost name) λ r.
    on r
      (λ v.
        when (elim v.deletion_time [ none ↦ not (any claims_vhost v.finalizers) | some t ↦ false ])
          (call (delete_vhost v) λ d.
            on d (λ done. pure tt)
              λ e. choose (is_not_found e) (pure tt) (leave u (fail (wrapped e)))))
      λ e. choose (is_not_found e) (pure tt) (leave u (fail (wrapped e)))

-- Another user object that lives and has this one's name in the same cluster.
unfoldable pub manages_same_user : User → User → Bool
manages_same_user u other =
    not (other.name == u.name)
    && other.username == u.username
    && other.rabbitmq_cluster_name == u.rabbitmq_cluster_name
    && not other.deleted

-- The reference that the deletion releases: the status', or else the spec's.
abbrev pub released_ref : User → String
released_ref u = if u.status_vhost_ref == "" then u.vhost_ref else u.status_vhost_ref

abbrev pub name_in_broker : User → String
name_in_broker u = if u.status_username == "" then u.username else u.status_username

-- Waiting for TransportURLs and for the finalizers of others.
unfoldable pub await_consumers : Library → User → Program User (Unit {0})
await_consumers lib u = do
  let waiting = record u { user_ready = deleting }
  when (lib.contains_finalizer u.finalizers transport_url_finalizer) (leave waiting (retry 2))
  when (any is_consumer u.finalizers) (leave waiting stop)
  when (any is_external u.finalizers) (leave waiting (retry 2))

-- The vhost that holds the permissions, as far as it is known.
unfoldable pub broker_vhost_of : User → Program User String
broker_vhost_of u = choose (not (u.status_vhost == "")) (pure u.status_vhost) (
    choose (u.vhost_ref == "") (pure "/") (
      call (get_vhost u.vhost_ref)
        λ r. on r (λ v. pure (if v.vhost_name == "" then "/" else v.vhost_name)) λ e. pure "/"))

-- The user and its permissions are deleted from RabbitMQ, unless another object manages the user.
unfoldable pub delete_from_broker : User → String → Program User (Unit {0})
delete_from_broker u vhost_name = do
  users ← call list_users λ r. or_leave r λ e. leave u (fail (wrapped e))
  when (not (any (manages_same_user u) users)) (do
    call (broker_delete_permissions vhost_name (name_in_broker u))
        λ d. or_leave d λ e. leave u (fail (wrapped e))
    call (broker_delete_user (name_in_broker u)) λ d. or_leave d λ e. leave u (fail (wrapped e))
    pure tt)

module _ (lib : Library) where
  -- The finalizer is taken off the vhost, and the vhost deleted if nothing claims it any more.
  unfoldable pub release_vhost : User → String → Program User (Unit {0})
  release_vhost u ref = call (get_vhost ref) λ r. call context_error λ c.
      on_some c (λ e. leave u (fail e))
        (on r
          (λ v. do
            let (fs, changed) = lib.remove_finalizer v.finalizers (vhost_finalizer_of u)
            when changed (
                call (update_vhost (record v { finalizers = fs })) λ d.
                  on d (λ v'. pure tt)
                    λ e. choose (is_not_found e) (pure tt) (leave u (fail (wrapped e))))
            delete_orphaned_vhost u ref)
          λ e. choose (is_not_found e) (pure tt) (leave u (fail (wrapped e))))

  -- A generated Secret goes with its owner; failures are logged.
  unfoldable pub delete_generated_secret : User → Program User (Unit {0})
  delete_generated_secret u = when (not (has_secret u.secret)) (
      call (get_secret ("rabbitmq-user-" <> u.name)) λ r.
        on r
          (λ s.
            when (lib.check_owner_ref_exist u.uid s.owners) (call (delete_secret s) λ d. pure tt))
          λ e. pure tt)

  abbrev pub without_finalizer : User → User
  without_finalizer u = record u {
    finalizers = (lib.remove_finalizer u.finalizers user_finalizer).0;
  }

  -- A cluster that is gone or going needs no cleanup. Where the default user has no Secret, the
  -- pointer to it is read all the same.
  unfoldable pub clean_broker : User → String → Program User (Unit {0})
  clean_broker u vhost_name =
      let skipped = without_finalizer (record u { user_ready = is_met }) in
      call (get_cluster u.rabbitmq_cluster_name) λ r.
        on r
          (λ rabbit. choose rabbit.deleted (leave skipped stop) (
            on_some rabbit.default_user
              (λ reference.
                on_some reference
                  (λ admin. do open_client rabbit admin u u u; delete_from_broker u vhost_name)
                  (leave u (fail nil_dereference)))
              (leave u (retry 10))))
          λ e. choose (is_not_found e) (leave skipped stop) (leave u (fail e))

  unfoldable pub reconcile_delete : User → Program User ⊥
  reconcile_delete u = do
    await_consumers lib u
    let u' = record u { user_ready = is_met }
    when (not (released_ref u' == "")) (release_vhost u' (released_ref u'))
    vhost_name ← broker_vhost_of u'
    clean_broker u' vhost_name
    delete_generated_secret u'
    leave (without_finalizer u') stop
