-- ===== src/RabbitMq/Policies.antt =====
-- The webhook of policies: apis/rabbitmq/v1beta1/rabbitmqpolicy_webhook.go.
use infra_operator.Base.{
  String, Bool, not, Option, none, some, ◌==◌, string_eq, ◌≡◌, if◌then◌else◌, arith, Option-cases,
  inl, inr,
}
use infra_operator.RabbitMq.Vhosts.{
  VhostError, not_convertible, cluster_changed, name_changed, invalid_pattern, check_name,
}

-- A `RabbitMQPolicy`: the object's name, and its spec.
pub record RabbitMqPolicy : Type 0 where
  pub name : String
  pub rabbitmq_cluster_name : String
  pub policy_name : String
  pub pattern : String

-- `regexp.Compile` is a parameter.
module _ (compiles : String → Bool) where
  unfoldable pub default : RabbitMqPolicy → RabbitMqPolicy
  default r = if r.policy_name == "" then record r { policy_name = r.name } else r

  unfoldable pub validate_pattern : RabbitMqPolicy → Option VhostError
  validate_pattern r = if compiles r.pattern then none else some invalid_pattern

  unfoldable pub validate_create : RabbitMqPolicy → Option VhostError
  validate_create r = elim (check_name r.policy_name) [
    | some e ↦ some e
    | none ↦ validate_pattern r
  ]

  unfoldable pub validate_update : RabbitMqPolicy → Option RabbitMqPolicy → Option VhostError
  validate_update r none = some not_convertible
  validate_update r (some old) =
      if not (r.rabbitmq_cluster_name == old.rabbitmq_cluster_name)
      then some cluster_changed
      else if not (r.policy_name == old.policy_name)
      then some name_changed
      else validate_pattern r

  -- What is admitted by an update of a policy that would be admitted at its creation, would be too.
  validate_update_admits :
      (r old : RabbitMqPolicy)
      → validate_create old ≡ none
      → validate_update r (some old) ≡ none
      → validate_create r ≡ none
  unfolding validate_create validate_update
  validate_update_admits r old h u = elim (Option-cases (check_name old.policy_name)) [
    | inl e ↦ ground arith
    | inr (x, e) ↦ ground arith
  ]
