-- ===== src/Messaging/Creation.antt =====
-- internal/controller/rabbitmq/rabbitmquser_controller.go: Reconcile and reconcileNormal of a
-- RabbitMQUser, with the deferred patch. Every handler ends by leaving.
use infra_operator.Base.{ℕ, String, ◌<>◌, Bool, true, false, ◌&&◌, not, none, some, ◌==◌, string_eq}
use infra_operator.Base.StringMap.{get}
use infra_operator.RabbitMq.Users.{
  user_vhost_finalizer_prefix, text_or, datum, has_secret, selectors_or_default,
}
use infra_operator.Messaging.{
  is_met, requested, in_error, Error, username_empty, password_key_not_found, wrapped, is_not_found,
  User, Vhost, Cluster,
}
use infra_operator.Messaging.Calls.{
  get_user, get_vhost, get_cluster, get_secret, update_vhost, delete_user, write_secret,
  generate_password, broker_put_user, broker_set_permissions, broker_delete_permissions, Library,
}
use infra_operator.Messaging.Programs.{
  Program, leave, pure, call, ◌>>=◌, ◌>>◌, stop, fail, retry, or_leave, when, on, choose,
}
use infra_operator.Messaging.Readiness.{
  is_ready, is_waiting, being_deleted, check_cluster_readiness, open_client,
}

-- `userFinalizer`, on the user itself.
abbrev pub user_finalizer : String
user_finalizer = "rabbitmquser.openstack.org/finalizer"

abbrev pub cleanup_blocked_finalizer : String
cleanup_blocked_finalizer = "rabbitmq.openstack.org/cleanup-blocked"

abbrev pub orphaned_label : String
orphaned_label = "rabbitmq.openstack.org/orphaned"

-- The user's finalizer on its vhost.
abbrev pub vhost_finalizer_of : User → String
vhost_finalizer_of u = user_vhost_finalizer_prefix <> u.username

abbrev pub is_orphaned : User → Bool
is_orphaned u = get u.labels orphaned_label == "true"

-- The condition set to an error, and the error returned.
abbrev pub give_up : {A : Type 0} → User → Error → Program User A
give_up u e = leave (record u { user_ready = in_error }) (fail e)

-- What the credentials branch yields: the user, the name of the Secret, and the password.
pub record Credentials : Type 0 where
  pub user : User
  pub secret_name : String
  pub password : String

unfoldable pub await_cluster : User → Program User (Cluster × String)
await_cluster u = do
  rabbit ← call (get_cluster u.rabbitmq_cluster_name) λ r. or_leave r (give_up u)
  elim (check_cluster_readiness rabbit) [
    | is_ready name ↦ pure (rabbit, name)
    | is_waiting ↦ leave (record u { user_ready = requested }) (retry 10)
    | being_deleted ↦ leave (record u { user_ready = in_error }) (retry 10)
  ]

-- The password in the user's own Secret.
unfoldable pub given_credentials : User → String → Program User Credentials
given_credentials u name = do
  s ← call (get_secret name) λ r. or_leave r (give_up u)
  let selectors = selectors_or_default u.credential_selectors
  let u' = record u { credential_selectors = some selectors }
  elim (datum s.data_map selectors.password) [
    | none ↦ give_up u' password_key_not_found
    | some password ↦ pure (record { user = u'; secret_name = name; password = password })
  ]

-- The password that is kept in a Secret of the controller, made where there is none.
unfoldable pub generated_credentials : User → Program User Credentials
generated_credentials u = do
  let name = "rabbitmq-user-" <> u.name
  password ← call (get_secret name) λ r.
      on r (λ s. pure (text_or "" (datum s.data_map "password")))
        λ e.
          choose (is_not_found e) (call (generate_password 32) λ p. or_leave p (give_up u))
            (give_up u e)
  call (write_secret name u.username password) λ d. or_leave d (give_up u)
  pure (record { user = u; secret_name = name; password = password })

unfoldable pub credentials : User → Program User Credentials
credentials u =
    choose (has_secret u.secret) (given_credentials u (text_or "" u.secret))
      (generated_credentials u)

-- The permissions in the vhost that the status names are deleted; a failure is remembered.
unfoldable pub drop_old_permissions : User → String → Program User Bool
drop_old_permissions u vhost_name =
    choose (not (u.status_vhost == vhost_name) && not (u.status_vhost == ""))
      (call (broker_delete_permissions u.status_vhost u.username)
        λ d. on d (λ done. pure true) λ e. pure false)
      (pure true)

-- The end of reconcileNormal: user, permissions, and the status' vhost.
unfoldable pub establish : User → String → String → Program User ⊥
establish u vhost_name password = do
  dropped ← drop_old_permissions u vhost_name
  call (broker_put_user u.username password u.tags) λ d. or_leave d (give_up u)
  call (broker_set_permissions vhost_name u.username u.permissions) λ d. or_leave d (give_up u)
  choose dropped
      (leave
        (record u {
          status_vhost = vhost_name;
          user_ready = is_met;
          ready = is_met;
          observed_generation = u.generation;
        })
        stop)
      (leave (record u { user_ready = in_error }) (retry 10))

module _ (lib : Library) where
  -- The finalizer of the user is taken off the vhost that the status names.
  unfoldable pub release_old_vhost : User → Program User (Unit {0})
  release_old_vhost u =
      when (not (u.status_vhost_ref == "") && not (u.status_vhost_ref == u.vhost_ref)) (
        call (get_vhost u.status_vhost_ref) λ r.
          on r
            (λ v.
              let (fs, changed) = lib.remove_finalizer v.finalizers (vhost_finalizer_of u) in
              when changed (
                call (update_vhost (record v { finalizers = fs })) λ d.
                  on d (λ v'. pure tt)
                    λ e.
                      leave u
                        (record { requeue_after = 2; requeue = false; error = some (wrapped e) })))
            λ e. choose (is_not_found e) (pure tt) (leave u (fail (wrapped e))))

  -- The vhost of the spec is read, and the user's finalizer put on it.
  unfoldable pub protect_vhost : User → ℕ → Program User Vhost
  protect_vhost u seconds = do
    v ← call (get_vhost u.vhost_ref) λ r. or_leave r (give_up u)
    let (fs, changed) = lib.add_finalizer v.finalizers (vhost_finalizer_of u)
    when changed (
        call (update_vhost (record v { finalizers = fs })) λ d.
          on d (λ v'. pure tt)
            λ e.
              leave u
                (record { requeue_after = seconds; requeue = false; error = some (wrapped e) }))
    pure v

  -- A user marked as orphaned is deleted, unless a fresh read shows it reclaimed.
  unfoldable pub delete_orphan : User → Program User (Unit {0})
  delete_orphan u = do
    let u' = record u {
      finalizers = (lib.remove_finalizer u.finalizers cleanup_blocked_finalizer).0;
    }
    fresh ← call (get_user u.name) λ r. or_leave r λ e. leave u' (fail e)
    when (not (is_orphaned fresh)) (leave u' stop)
    call (delete_user u') λ d.
        on d (λ done. leave u' stop)
          λ e. choose (is_not_found e) (leave u' stop) (leave u' (fail (wrapped e)))

  -- `vhostName`: "/" without a reference.
  unfoldable pub vhost_of : User → Program User String
  vhost_of u = choose (u.vhost_ref == "") (pure "/") (do v ← protect_vhost u 2; pure v.vhost_name)

  abbrev pub with_status : Credentials → User
  with_status c = record c.user {
    status_secret_name = c.secret_name;
    status_username = c.user.username;
    status_vhost_ref = c.user.vhost_ref;
  }

  unfoldable pub reconcile_normal : User → Program User ⊥
  reconcile_normal u = do
    release_old_vhost u
    when (is_orphaned u) (delete_orphan u)
    vhost_name ← vhost_of u
    (rabbit, admin) ← await_cluster u
    c ← credentials u
    open_client rabbit admin (record (with_status c) { user_ready = in_error })
        (record (with_status c) { user_ready = in_error }) (with_status c)
    establish (with_status c) vhost_name c.password

  -- Two phases: the user's own finalizer in a pass of its own, then that of its vhost.
  unfoldable pub reconcile_live : User → Program User ⊥
  reconcile_live u = do
    let (fs, changed) = lib.add_finalizer u.finalizers user_finalizer
    when changed (leave (record u { finalizers = fs }) stop)
    when (not (u.vhost_ref == ""))
        (do when (u.username == "") (give_up u username_empty); protect_vhost u 0; pure tt)
    reconcile_normal u
