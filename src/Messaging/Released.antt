-- ===== src/Messaging/Released.antt =====
-- The deletion of a user keeps to its rules (reconcileDelete of rabbitmquser_controller.go).
use infra_operator.Base.{String, string_eq}
use infra_operator.Messaging.{User}
use infra_operator.Messaging.Calls.{Library}
use infra_operator.Messaging.Programs.{History}
use infra_operator.Messaging.Claims.{IsVhostFree, IsBrokerVhost, IsBrokerFree}

module _ (lib : Library) (u : User) where
  -- The name of the vhost is known, and the release stands.
  abbrev Named : History → String → Type 0
  Named h name = IsVhostFree lib u h × IsBrokerVhost lib u h name

  -- Behind the vhost's release and the cleanup.
  abbrev Clean : History → Unit {0} → Type 0
  Clean h y = IsVhostFree lib u h × IsBrokerFree lib u h
