-- ===== src/Messaging/Vhosts.antt =====
-- internal/controller/rabbitmq/rabbitmqvhost_controller.go: reconcileNormal and reconcileDelete of a
-- RabbitMQVhost.
use infra_operator.Base.{
  ℕ, String, ◌<>◌, ◌-◌, Bool, true, false, ◌&&◌, not, Option, none, some, List, [], ◌∷◌, ◌==◌,
  string_eq, ltb, any, if◌then◌else◌,
}
use infra_operator.RabbitMq.Users.{user_vhost_finalizer_prefix}
use infra_operator.Messaging.{
  is_met, requested, in_error, Error, nil_dereference, wrapped, is_not_found, User, Vhost,
}
use infra_operator.Messaging.Calls.{
  get_cluster, list_users, list_vhosts, update_vhost, time_now, broker_put_vhost,
  broker_delete_vhost, Library,
}
use infra_operator.Messaging.Programs.{
  Program, leave, pure, call, ◌>>=◌, ◌>>◌, stop, fail, retry, or_leave, when, on, on_some, choose,
}
use infra_operator.Messaging.Readiness.{
  is_ready, is_waiting, being_deleted, check_cluster_readiness, open_client,
}
use infra_operator.Messaging.Finalizers.{starts_with}
use infra_operator.Messaging.Release.{is_consumer, transport_url_finalizer}

abbrev pub vhost_finalizer : String
vhost_finalizer = "rabbitmqvhost.openstack.org/finalizer"

-- Ten minutes.
abbrev pub orphaned_finalizer_timeout : ℕ
orphaned_finalizer_timeout = 600000000000

abbrev pub give_up : {A : Type 0} → Vhost → Error → Program Vhost A
give_up v e = leave (record v { vhost_ready = in_error }) (fail e)

abbrev pub name_or_root : Vhost → String
name_or_root v = if v.vhost_name == "" then "/" else v.vhost_name

unfoldable pub reconcile_normal : Vhost → Program Vhost ⊥
reconcile_normal v = do
  rabbit ← call (get_cluster v.rabbitmq_cluster_name) λ r. or_leave r (give_up v)
  admin ← elim (check_cluster_readiness rabbit) [
    | is_ready name ↦ pure name
    | is_waiting ↦ leave (record v { vhost_ready = requested }) (retry 10)
    | being_deleted ↦ leave (record v { vhost_ready = in_error }) (retry 10)
  ]
  open_client rabbit admin (record v { vhost_ready = in_error })
      (record v { vhost_ready = in_error }) v
  when (not (name_or_root v == "/"))
      (call (broker_put_vhost (name_or_root v)) λ d. or_leave d (give_up v))
  leave (record v { vhost_ready = is_met; ready = is_met; observed_generation = v.generation }) stop

-- A user's finalizer: the prefix with a name behind it.
unfoldable pub is_user_finalizer : String → Bool
is_user_finalizer f =
    starts_with f user_vhost_finalizer_prefix && not (f == user_vhost_finalizer_prefix)

-- The first user whose finalizer this is: the name behind the prefix is its username.
unfoldable pub find_user : String → List User → Option User
find_user f [] = none
find_user f (u ∷ us) =
    if f == user_vhost_finalizer_prefix <> u.username then some u else find_user f us

-- Longer than the timeout in deletion.
abbrev pub is_overdue : Vhost → ℕ → Bool
is_overdue v now = elim v.deletion_time [
  | none ↦ false
  | some t ↦ ltb orphaned_finalizer_timeout (now - t)
]

-- The loop over the finalizers: those without a user are collected once they are overdue; any other
-- finalizer of a user ends the pass.
unfoldable pub collect_orphaned : Vhost → List User → List String → Program Vhost (List String)
collect_orphaned v users [] = pure []
collect_orphaned v users (f ∷ fs) =
    choose (is_user_finalizer f)
      (on_some (find_user f users) (λ u. leave (record v { vhost_ready = requested }) stop)
        (call time_now λ now.
          choose (is_overdue v now) (do found ← collect_orphaned v users fs; pure (f ∷ found))
            (leave v (retry 2))))
      (collect_orphaned v users fs)

-- Another vhost object that lives and stands for the same vhost of the cluster.
unfoldable pub manages_same_vhost : Vhost → Vhost → Bool
manages_same_vhost v other =
    not (other.name == v.name)
    && other.vhost_name == v.vhost_name
    && other.rabbitmq_cluster_name == v.rabbitmq_cluster_name
    && elim other.deletion_time [ none ↦ true | some t ↦ false ]

unfoldable pub delete_from_broker : Vhost → Program Vhost (Unit {0})
delete_from_broker v = when (not (name_or_root v == "/")) (do
  vhosts ← call list_vhosts λ r. or_leave r λ e. leave v (fail (wrapped e))
  when (not (any (manages_same_vhost v) vhosts))
      (call (broker_delete_vhost (name_or_root v)) λ d. or_leave d λ e. leave v (fail (wrapped e))))

module _ (lib : Library) where
  unfoldable pub remove_all : List String → List String → List String
  remove_all fs [] = fs
  remove_all fs (g ∷ gs) = remove_all (lib.remove_finalizer fs g).0 gs

  -- The collected finalizers are removed in one update, behind which the pass ends.
  unfoldable pub remove_orphaned : Vhost → List String → Program Vhost (Unit {0})
  remove_orphaned v [] = pure tt
  remove_orphaned v (g ∷ gs) =
      let v' = record v { finalizers = remove_all v.finalizers (g ∷ gs) } in
      call (update_vhost v') λ d.
        on d (λ written. leave written (record { requeue_after = 0; requeue = true; error = none }))
          λ e. leave v' (fail (wrapped e))

  abbrev pub without_finalizer : Vhost → Vhost
  without_finalizer v = record v {
    finalizers = (lib.remove_finalizer v.finalizers vhost_finalizer).0;
  }

  unfoldable pub clean_broker : Vhost → Program Vhost (Unit {0})
  clean_broker v = call (get_cluster v.rabbitmq_cluster_name) λ r.
      on r
        (λ rabbit. choose rabbit.deleted (leave (without_finalizer v) stop) (
          on_some rabbit.default_user
            (λ reference.
              on_some reference
                (λ admin. do
                  open_client rabbit admin v (record v { vhost_ready = in_error }) v
                  delete_from_broker v)
                (leave v (fail nil_dereference)))
            (leave v (retry 10))))
        λ e. choose (is_not_found e) (leave (without_finalizer v) stop) (leave v (fail e))

  unfoldable pub reconcile_delete : Vhost → Program Vhost ⊥
  reconcile_delete v = do
    when (lib.contains_finalizer v.finalizers transport_url_finalizer) (leave v stop)
    when (any is_consumer v.finalizers) (leave v stop)
    users ← call list_users λ r. or_leave r λ e. leave v (fail (wrapped e))
    found ← collect_orphaned v users v.finalizers
    remove_orphaned v found
    clean_broker v
    leave (without_finalizer v) stop

  unfoldable pub reconcile_live : Vhost → Program Vhost ⊥
  reconcile_live v = do
    let (fs, changed) = lib.add_finalizer v.finalizers vhost_finalizer
    when changed (leave (record v { finalizers = fs }) stop)
    reconcile_normal v
