-- ===== src/Messaging/Transport.antt =====
-- internal/controller/rabbitmq/transporturl_controller.go: reconcileNormal of a TransportURL, in its
-- order. A failed CreateOrUpdate of a shared object, an update or a read leaves with its error.
use Prim.Native.String.{len, slice}
use infra_operator.Base.{
  String, ◌<>◌, Bool, true, false, ◌&&◌, not, Option, none, some, List, [], ◌∷◌, ◌==◌, string_eq,
  ltb, if◌then◌else◌,
}
use infra_operator.Base.StringMap.{set}
use infra_operator.Messaging.{
  is_met, requested, wrapped, is_not_found, is_already_exists, Cluster, Secret, TransportUrl,
}
use infra_operator.Messaging.Calls.{
  get_cluster, get_secret, create_secret, create_or_patch_secret, time_now, Library,
}
use infra_operator.Messaging.Programs.{
  leave, pure, call, ◌>>=◌, ◌>>◌, stop, fail, retry, or_leave, when, on, on_some, choose,
}
use infra_operator.Messaging.Finalizers.{max_transport_url_direct_name}
use infra_operator.Messaging.Urls.{
  UrlParts, create_transport_url_secret, has_transport_consumer_finalizer,
}
use infra_operator.Messaging.Rotation.{
  as_value, protection_finalizer, cleanup_old_transport_secret, try_release_pending_user,
}
use infra_operator.Messaging.Legacy.{cleanup_legacy_owned_resources, delete_legacy_owned_resources}
use infra_operator.Messaging.Shared.{
  Step, give_up, try, required, endpoint, obtain, claim_shared, detect_rotation, release_old_vhost,
}

-- The cluster's object again; none where it is not found.
unfoldable pub find_cluster : TransportUrl → Step (Option Cluster)
find_cluster t = call (get_cluster t.rabbitmq_cluster_name) λ r.
    on r (λ c. pure (some c)) λ e. choose (is_not_found e) (pure none) (leave t (fail (wrapped e)))

-- The hosts of the status, or the one of the Secret.
unfoldable pub hosts_of : TransportUrl → Option Cluster → Secret → Step (List String)
hosts_of t none s = do h ← required t s "host"; pure (h ∷ [])
hosts_of t (some c) s = elim c.service_hostnames [
  | [] ↦ do h ← required t s "host"; pure (h ∷ [])
  | h ∷ hs ↦ pure (h ∷ hs)
]

-- The spec's queue type, or else the status'.
unfoldable pub quorum_of : Option Cluster → Bool
quorum_of none = false
quorum_of (some c) = elim c.queue_type [
  | some q ↦ q == "Quorum"
  | none ↦ c.status_queue_type == "Quorum"
]

module _ (lib : Library) where
  unfoldable pub follow_queue_type : TransportUrl → Option Cluster → Step TransportUrl
  follow_queue_type t none = pure t
  follow_queue_type t (some c) = choose (c.status_queue_type == t.status_queue_type) (pure t) (
      call time_now λ now. pure (record t {
        status_queue_type = c.status_queue_type;
        annotations =
            set "rabbitmq.openstack.org/queuetype-hash"
              (c.status_queue_type <> ("-" <> lib.show now)) t.annotations;
      }))

  -- `createImmutableTransportSecret`, the name and the hash.
  unfoldable pub create_immutable_transport_secret :
      TransportUrl → UrlParts → Step (String × String)
  create_immutable_transport_secret t x =
      let template = create_transport_url_secret lib t x in
      on (lib.hash template.data_map)
        (λ hash.
          let name = "rabbitmq-transport-url-" <> (t.name <> ("-" <> slice hash 0 8)) in
          on (lib.set_owner t.uid [])
            (λ owners.
              call
                (create_secret (record template {
                  name = name;
                  owners = owners;
                  finalizers = protection_finalizer ∷ [];
                  immutable = true;
                }))
                λ d.
                  on d (λ done. pure (name, hash))
                    λ e.
                      choose (is_already_exists e)
                        (call (get_secret name)
                          λ r. on r (λ s. pure (s.name, hash)) λ e'. give_up t (wrapped e'))
                        (give_up t (wrapped e)))
            λ e. give_up t (wrapped e))
        λ e. give_up t (wrapped e)

  -- Whether the status keeps the name of an immutable Secret whose content is still right.
  unfoldable pub keeps_name : TransportUrl → Secret → Step Bool
  keeps_name t s =
      choose (not (t.secret_name == "") && not (t.secret_name == s.name))
        (on (lib.hash s.data_map) (λ hash. pure (t.secret_hash == hash))
          λ e. leave t (fail (wrapped e)))
        (pure false)

  unfoldable pub patch_secret : TransportUrl → UrlParts → Step TransportUrl
  patch_secret t x = do
    let s = create_transport_url_secret lib t x
    keep ← keeps_name t s
    (hash, written) ← call (create_or_patch_secret s) λ r. or_leave r (give_up t)
    when written (leave (record t { url_ready = requested }) (retry 5))
    let previous =
        if not (t.secret_name == "") && not (t.secret_name == s.name)
        then t.secret_name
        else t.previous_secret_name
    pure (
        if keep
        then t
        else record t { previous_secret_name = previous; secret_name = s.name; secret_hash = hash })

  -- A new Secret where a rotation begins, none while it goes on, else the standing one.
  unfoldable pub write_secret_of : TransportUrl → UrlParts → Step TransportUrl
  write_secret_of t x = choose (not (t.previous_secret_name == "")) (pure t) (
      choose (t.previous_user_ref == "") (patch_secret t x) (do
        (name, hash) ← create_immutable_transport_secret t x
        pure (record t {
          previous_secret_name = t.secret_name;
          secret_name = name;
          secret_hash = hash;
        })))

  -- The pending user is released, or the pass is repeated in a minute.
  unfoldable pub release_pending : TransportUrl → Step TransportUrl
  release_pending t = choose (t.previous_user_ref == "") (pure t) (do
    released ← try t (try_release_pending_user lib t)
    on_some released (λ t'. pure t') (leave t (retry 60)))

  -- A Secret that is left from a finished rotation is deleted once no consumer holds it.
  unfoldable pub drop_previous_secret : TransportUrl → Step TransportUrl
  drop_previous_secret t =
      choose (not (t.previous_secret_name == "") && t.previous_user_ref == "")
        (call (get_secret t.previous_secret_name) λ r. do
          held ←
              on r (λ s. pure (has_transport_consumer_finalizer s))
                λ e. choose (is_not_found e) (pure false) (leave t (fail e))
          when held (leave t (retry 60))
          try t (cleanup_old_transport_secret lib t.previous_secret_name)
          pure (record t { previous_secret_name = "" }))
        (pure t)

  abbrev pub with_actual : TransportUrl → String → String → String → TransportUrl
  with_actual t username vhost user_ref = record t {
    status_cluster_name = t.rabbitmq_cluster_name;
    status_username = username;
    status_vhost = vhost;
    status_user_ref = user_ref;
    url_ready = is_met;
    ready = if lib.all_met is_met then is_met else t.ready;
  }

  unfoldable pub reconcile_normal : TransportUrl → Step ⊥
  reconcile_normal t = do
    x ← endpoint t
    try t (cleanup_legacy_owned_resources lib t)
    (user_ref, vhost_ref) ← claim_shared lib t x.cluster
    as_value (delete_legacy_owned_resources lib t)
    t1 ← detect_rotation lib t user_ref
    release_old_vhost lib t1 vhost_ref
    (username, password, vhost) ← obtain t1 user_ref x
    found ← find_cluster t1
    hosts ← hosts_of t1 found x.admin
    t2 ← follow_queue_type t1 found
    t3 ← write_secret_of t2 (record {
      username = username;
      password = password;
      hosts = hosts;
      port = x.port;
      vhost = vhost;
      tls_enabled = not (x.cluster.tls_secret_name == "");
      quorum = quorum_of found;
    })
    t4 ← release_pending (with_actual t3 username vhost user_ref)
    t5 ← drop_previous_secret t4
    leave t5 (if ltb max_transport_url_direct_name (len t5.name) then retry 300 else stop)
