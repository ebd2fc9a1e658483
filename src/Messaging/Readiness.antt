-- ===== src/Messaging/Readiness.antt =====
-- internal/controller/rabbitmq/helpers.go: whether a cluster takes requests, the URL of its management
-- API, and the client for it.
use infra_operator.Base.{
  String, ◌<>◌, not, Option, none, some, ◌==◌, string_eq, nat_eq, if◌then◌else◌,
}
use infra_operator.RabbitMq.Users.{datum, text_or}
use infra_operator.Messaging.{Error, no_ca, wrapped, Cluster, Secret}
use infra_operator.Messaging.Calls.{get_secret, new_client}
use infra_operator.Messaging.Programs.{
  Program, leave, pure, call, ◌>>=◌, fail, or_leave, on, on_some, choose,
}

-- `getManagementURL`
unfoldable pub get_management_url : Cluster → Secret → String
get_management_url rabbit s =
    let tls_enabled = not (rabbit.tls_secret_name == "") in
    let protocol = if tls_enabled then "https" else "http" in
    let port =
      text_or (if tls_enabled then "15671" else "15672") (datum s.data_map "management-port") in
    let host =
      text_or (text_or "" (datum s.data_map "host")) (datum s.data_map "management-host") in
    protocol <> "://" <> host <> ":" <> port

-- `ClusterReadinessError`: waiting, or deleted.
pub data Readiness : Type 0 where
  is_ready : String → Readiness
  is_waiting being_deleted : Readiness

-- `checkClusterReadiness`; a ready cluster comes with the name of its admin's Secret.
unfoldable pub check_cluster_readiness : Cluster → Readiness
check_cluster_readiness rabbit =
    if rabbit.deleted
    then being_deleted
    else if rabbit.ready_count == 0
    then is_waiting
    else (elim rabbit.default_user [
      | none ↦ is_waiting
      | some none ↦ is_waiting
      | some (some name) ↦ is_ready name
    ])

module _ {O : Type 0} where
  -- `getTLSCACert`, with the caller's way to leave.
  unfoldable pub get_tls_ca_cert :
      Cluster → (Error → Program O (Option String)) → Program O (Option String)
  get_tls_ca_cert rabbit refuse = choose (rabbit.ca_secret_name == "") (pure none) (
      call (get_secret rabbit.ca_secret_name) λ r.
        on r (λ ca. on_some (datum ca.data_map "ca.crt") (λ cert. pure (some cert)) (refuse no_ca))
          refuse)

  -- The admin's Secret, the CA and the client, as the handlers open them one after the other, with the
  -- object to leave with where each of the three fails.
  unfoldable pub open_client : Cluster → String → O → O → O → Program O (Unit {0})
  open_client rabbit name for_secret for_ca o = do
    s ← call (get_secret name) λ r. or_leave r λ e. leave for_secret (fail e)
    cert ← get_tls_ca_cert rabbit λ e. leave for_ca (fail e)
    call
        (new_client (record {
          base_url = get_management_url rabbit s;
          login = datum s.data_map "username";
          login_password = datum s.data_map "password";
          tls_enabled = not (rabbit.tls_secret_name == "");
          ca_cert = cert;
        }))
        λ r. or_leave r λ e. leave o (fail (wrapped e))
