-- ===== src/Messaging/Policies.antt =====
-- internal/controller/rabbitmq/rabbitmqpolicy_controller.go: reconcileNormal and reconcileDelete of a
-- RabbitMQPolicy.
use infra_operator.Base.{String, not, ◌==◌, string_eq, if◌then◌else◌}
use infra_operator.Messaging.{
  is_met, requested, in_error, Error, malformed_definition, nil_dereference, is_not_found, Policy,
}
use infra_operator.Messaging.Calls.{
  get_vhost, get_cluster, broker_put_policy, broker_delete_policy, Library,
}
use infra_operator.Messaging.Programs.{
  Program, leave, pure, call, ◌>>=◌, ◌>>◌, stop, fail, retry, or_leave, when, on, on_some, choose,
}
use infra_operator.Messaging.Readiness.{
  is_ready, is_waiting, being_deleted, check_cluster_readiness, open_client,
}

abbrev pub policy_finalizer : String
policy_finalizer = "rabbitmqpolicy.openstack.org/finalizer"

abbrev pub give_up : {A : Type 0} → Policy → Error → Program Policy A
give_up p e = leave (record p { policy_ready = in_error }) (fail e)

-- The names under which the policy stands in RabbitMQ: the status', or else those of the spec.
abbrev pub name_in_broker : Policy → String
name_in_broker p =
    if p.status_policy_name == ""
    then (if p.policy_name == "" then p.name else p.policy_name)
    else p.status_policy_name

unfoldable pub broker_vhost_of : Policy → Program Policy String
broker_vhost_of p = choose (not (p.status_vhost == "")) (pure p.status_vhost) (
    choose (p.vhost_ref == "") (pure "/") (
      call (get_vhost p.vhost_ref)
        λ r. on r (λ v. pure (if v.vhost_name == "" then "/" else v.vhost_name)) λ e. pure "/"))

-- The vhost of the spec, "/" without a reference.
unfoldable pub vhost_of : Policy → Program Policy String
vhost_of p =
    choose (p.vhost_ref == "") (pure "/")
      (do v ← call (get_vhost p.vhost_ref) λ r. or_leave r (give_up p); pure v.vhost_name)

module _ (lib : Library) where
  unfoldable pub reconcile_normal : Policy → Program Policy ⊥
  reconcile_normal p = do
    vhost_name ← vhost_of p
    rabbit ← call (get_cluster p.rabbitmq_cluster_name) λ r. or_leave r (give_up p)
    admin ← elim (check_cluster_readiness rabbit) [
      | is_ready name ↦ pure name
      | is_waiting ↦ leave (record p { policy_ready = requested }) (retry 10)
      | being_deleted ↦ leave (record p { policy_ready = in_error }) (retry 10)
    ]
    open_client rabbit admin (record p { policy_ready = in_error })
        (record p { policy_ready = in_error }) p
    when (not (lib.unmarshals p.definition)) (give_up p (malformed_definition))
    call (broker_put_policy vhost_name p) λ d. or_leave d (give_up p)
    leave
        (record p {
          status_vhost = vhost_name;
          status_policy_name = p.policy_name;
          policy_ready = is_met;
          ready = is_met;
          observed_generation = p.generation;
        })
        stop

  abbrev pub without_finalizer : Policy → Policy
  without_finalizer p = record p {
    finalizers = (lib.remove_finalizer p.finalizers policy_finalizer).0;
  }

  unfoldable pub clean_broker : Policy → String → Program Policy (Unit {0})
  clean_broker p vhost_name = call (get_cluster p.rabbitmq_cluster_name) λ r.
      on r
        (λ rabbit. choose rabbit.deleted (leave (without_finalizer p) stop) (
          on_some rabbit.default_user
            (λ reference.
              on_some reference
                (λ admin. do
                  open_client rabbit admin p (record p { policy_ready = in_error }) p
                  call (broker_delete_policy vhost_name (name_in_broker p))
                      λ d. or_leave d λ e. leave p (fail e))
                (leave p (fail nil_dereference)))
            (leave p (retry 10))))
        λ e. choose (is_not_found e) (leave (without_finalizer p) stop) (leave p (fail e))

  unfoldable pub reconcile_delete : Policy → Program Policy ⊥
  reconcile_delete p = do
    vhost_name ← broker_vhost_of p
    clean_broker p vhost_name
    leave (without_finalizer p) stop

  unfoldable pub reconcile_live : Policy → Program Policy ⊥
  reconcile_live p = do
    let (fs, changed) = lib.add_finalizer p.finalizers policy_finalizer
    when changed (leave (record p { finalizers = fs }) stop)
    reconcile_normal p
