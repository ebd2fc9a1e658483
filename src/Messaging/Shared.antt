-- ===== src/Messaging/Shared.antt =====
-- internal/controller/rabbitmq/transporturl_controller.go: the first half of reconcileNormal of a
-- TransportURL, up to its credentials. A failed CreateOrUpdate of a shared object, an update or a read
-- leaves with its error.
use infra_operator.Base.{String, ◌&&◌, not, ◌==◌, string_eq, if◌then◌else◌}
use infra_operator.Base.StringMap.{delete}
use infra_operator.RabbitMq.Users.{datum}
use infra_operator.Messaging.{
  requested, in_error, Error, key_not_found, is_not_found, Result, ok, err, User, Vhost, Cluster,
  Secret, TransportUrl,
}
use infra_operator.Messaging.Calls.{
  get_user, get_cluster, get_secret, create_or_update_vhost, create_or_update_user, Library,
}
use infra_operator.Messaging.Programs.{
  Program, leave, pure, call, ◌>>=◌, ◌>>◌, fail, retry, or_leave, when, on_some, choose,
}
use infra_operator.Messaging.Readiness.{
  is_ready, is_waiting, being_deleted, check_cluster_readiness,
}
use infra_operator.Messaging.Finalizers.{canonical_user_name, canonical_vhost_name}
use infra_operator.Messaging.Creation.{orphaned_label}
use infra_operator.Messaging.Rotation.{Fallible, as_value, finalizer_of, release_pending_user}
use infra_operator.Messaging.Legacy.{
  spec_vhost, delete_unclaimed_vhost, remove_finalizer_from_vhost,
}

abbrev pub Step : Type 0 → Type 0
Step A = Program TransportUrl A

abbrev pub give_up : {A : Type 0} → TransportUrl → Error → Step A
give_up t e = leave (record t { url_ready = in_error }) (fail e)

abbrev pub wait : {A : Type 0} → TransportUrl → Step A
wait t = leave (record t { url_ready = requested }) (retry 10)

-- A helper whose error ends the pass.
abbrev pub try : {A : Type 0} → TransportUrl → Fallible A → Step A
try t m = as_value m >>= λ r. or_leave r λ e. leave t (fail e)

-- A key of a Secret that must be there.
abbrev pub required : TransportUrl → Secret → String → Step String
required t s key = on_some (datum s.data_map key) (λ v. pure v) (give_up t (key_not_found key))

-- The cluster, and what its admin's Secret holds.
pub record Endpoint : Type 0 where
  pub cluster : Cluster
  pub admin : Secret
  pub port : String
  pub login : String
  pub password : String

unfoldable pub endpoint : TransportUrl → Step Endpoint
endpoint t = do
  rabbit ← call (get_cluster t.rabbitmq_cluster_name) λ r. or_leave r λ e. leave t (fail e)
  name ← elim (check_cluster_readiness rabbit) [
    | is_ready name ↦ pure name
    | is_waiting ↦ wait t
    | being_deleted ↦ wait t
  ]
  s ← call (get_secret name) λ r. or_leave r λ e.
      choose (is_not_found e) (leave (record t { url_ready = in_error }) (retry 10)) (give_up t e)
  port ← required t s "port"
  login ← required t s "username"
  password ← required t s "password"
  pure (record { cluster = rabbit; admin = s; port = port; login = login; password = password })

-- The name, the password, and the vhost: the user's, or the admin's in "/".
unfoldable pub obtain : TransportUrl → String → Endpoint → Step (String × String × String)
obtain t user_ref x = choose (user_ref == "") (pure (x.login, x.password, "/")) (do
  u ← call (get_user user_ref) λ r. or_leave r λ e. choose (is_not_found e) (wait t) (give_up t e)
  when (u.status_secret_name == "") (wait t)
  when (not (t.vhost == "") && not (t.vhost == u.status_vhost)) (wait t)
  s ← call (get_secret u.status_secret_name) λ r. or_leave r (give_up t)
  username ← required t s "username"
  password ← required t s "password"
  pure (username, password, if u.status_vhost == "" then "/" else u.status_vhost))

module _ (lib : Library) where
  -- What CreateOrUpdate does to the shared vhost.
  unfoldable pub claim_vhost : TransportUrl → Cluster → Vhost → Result Vhost
  claim_vhost t rabbit v = elim (lib.set_owner rabbit.name v.owners) [
    | err e ↦ err e
    | ok owners ↦ ok (record v {
      finalizers = (lib.add_finalizer v.finalizers (finalizer_of lib t)).0;
      owners = owners;
      rabbitmq_cluster_name = t.rabbitmq_cluster_name;
      vhost_name = spec_vhost lib t;
    })
  ]

  -- What CreateOrUpdate does to the shared user: the label of an orphan goes.
  unfoldable pub claim_user : TransportUrl → Cluster → String → User → Result User
  claim_user t rabbit vhost_ref u = elim (lib.set_owner rabbit.name u.owners) [
    | err e ↦ err e
    | ok owners ↦ ok (record u {
      finalizers = (lib.add_finalizer u.finalizers (finalizer_of lib t)).0;
      labels = delete orphaned_label u.labels;
      owners = owners;
      rabbitmq_cluster_name = t.rabbitmq_cluster_name;
      username = t.username;
      vhost_ref = vhost_ref;
      permissions = record { configure = ".*"; write = ".*"; read = ".*" };
    })
  ]

  -- The names of the user and of the vhost; empty where there is none.
  unfoldable pub claim_shared : TransportUrl → Cluster → Step (String × String)
  claim_shared t rabbit = choose (not (t.user_ref == "")) (pure (t.user_ref, "")) (
      choose (t.username == "") (pure ("", "")) (do
        vhost_ref ← choose (spec_vhost lib t == "/") (pure "") (do
          let name = canonical_vhost_name lib.digest t.rabbitmq_cluster_name (spec_vhost lib t)
          call (create_or_update_vhost name (claim_vhost t rabbit)) λ d. or_leave d (give_up t)
          pure name)
        let name =
            canonical_user_name lib.digest t.rabbitmq_cluster_name (spec_vhost lib t) t.username
        call (create_or_update_user name (claim_user t rabbit vhost_ref))
            λ d. or_leave d (give_up t)
        pure (name, vhost_ref)))

  -- A change of the user is remembered; one that is still pending is released at once.
  unfoldable pub detect_rotation : TransportUrl → String → Step TransportUrl
  detect_rotation t user_ref =
      choose (not (t.status_user_ref == "") && not (t.status_user_ref == user_ref))
        (do
          t' ←
              choose
                (not (t.previous_user_ref == "") && not (t.previous_user_ref == t.status_user_ref))
                (try t (release_pending_user lib t)) (pure t)
          pure (record t' { previous_user_ref = t'.status_user_ref }))
        (pure t)

  abbrev pub old_vhost_ref : TransportUrl → String
  old_vhost_ref t =
      canonical_vhost_name lib.digest
        (if t.status_cluster_name == "" then t.rabbitmq_cluster_name else t.status_cluster_name)
        t.status_vhost

  unfoldable pub release_old_vhost : TransportUrl → String → Step (Unit {0})
  release_old_vhost t vhost_ref =
      when
        (not (t.status_vhost == "")
          && not (t.status_vhost == "/")
          && not (old_vhost_ref t == vhost_ref))
        (do
          try t (remove_finalizer_from_vhost lib t (old_vhost_ref t) (finalizer_of lib t))
          try t (delete_unclaimed_vhost (old_vhost_ref t)))
