-- ===== src/RabbitMq/Vhosts.antt =====
-- The webhook of vhosts: apis/rabbitmq/v1beta1/rabbitmqvhost_webhook.go, with the errors that the one of
-- policies shares.
use infra_operator.Base.{
  String, not, Option, none, some, [], ◌∷◌, ◌==◌, string_eq, ◌≡◌, if◌then◌else◌, arith,
}
use infra_operator.RabbitMq.Users.{NameProblem, validate_rabbit_mq_name}

-- A `RabbitMQVhost`.
pub record RabbitMqVhost : Type 0 where
  pub rabbitmq_cluster_name : String
  pub vhost_name : String

pub data VhostError : Type 0 where
  not_convertible cluster_changed name_changed invalid_pattern : VhostError
  invalid_name : NameProblem → VhostError

-- The first problem with a name.
unfoldable pub check_name : String → Option VhostError
check_name name = elim (validate_rabbit_mq_name name) [ [] ↦ none | p ∷ ps ↦ some (invalid_name p) ]

unfoldable pub default : RabbitMqVhost → RabbitMqVhost
default r = if r.vhost_name == "" then record r { vhost_name = "/" } else r

unfoldable pub validate_create : RabbitMqVhost → Option VhostError
validate_create r = if r.vhost_name == "/" then none else check_name r.vhost_name

unfoldable pub validate_update : RabbitMqVhost → Option RabbitMqVhost → Option VhostError
validate_update r none = some not_convertible
validate_update r (some old) =
    if not (r.rabbitmq_cluster_name == old.rabbitmq_cluster_name)
    then some cluster_changed
    else if not (r.vhost_name == old.vhost_name)
    then some name_changed
    else none

-- What is admitted by an update of a vhost that would be admitted at its creation, would be too.
validate_update_admits :
    (r old : RabbitMqVhost)
    → validate_create old ≡ none
    → validate_update r (some old) ≡ none
    → validate_create r ≡ none
unfolding validate_create validate_update
validate_update_admits r old h u = ground arith
