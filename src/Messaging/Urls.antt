-- ===== src/Messaging/Urls.antt =====
-- internal/controller/rabbitmq/transporturl_controller.go: the Secret with the URL of
-- createTransportURLSecret, and hasTransportConsumerFinalizer.
use Prim.Native.String.{len, slice}
use infra_operator.Base.{
  ◌-◌, String, ◌<>◌, Bool, false, ◌&&◌, List, [], ◌∷◌, ◌==◌, string_eq, leb, any, if◌then◌else◌,
}
use infra_operator.Messaging.{Secret, TransportUrl}
use infra_operator.Messaging.Calls.{Library}
use infra_operator.Messaging.Finalizers.{starts_with}

-- `strings.HasSuffix`
unfoldable pub ends_with : String → String → Bool
ends_with s p = leb (len p) (len s) && slice s (len s - len p) (len s) == p

unfoldable pub has_transport_consumer_finalizer : Secret → Bool
has_transport_consumer_finalizer s =
    any (λ f. ends_with f "-transport-consumer" && starts_with f "openstack.org/") s.finalizers

-- `strings.Join` with a comma.
unfoldable pub join : List String → String
join [] = ""
join (s ∷ []) = s
join (s ∷ t ∷ ts) = s <> ("," <> join (t ∷ ts))

-- With a leading slash.
unfoldable pub slashed : String → String
slashed vhost = if vhost == "" then "/" else if starts_with vhost "/" then vhost else "/" <> vhost

-- What the URL is made of.
pub record UrlParts : Type 0 where
  pub username : String
  pub password : String
  pub hosts : List String
  pub port : String
  pub vhost : String
  pub tls_enabled : Bool
  pub quorum : Bool

module _ (lib : Library) where
  unfoldable pub host_parts : UrlParts → List String → List String
  host_parts x [] = []
  host_parts x (host ∷ hosts) =
      (lib.query_escape x.username
        <> (":" <> (lib.query_escape x.password <> ("@" <> lib.join_host_port host x.port))))
      ∷ host_parts x hosts

  unfoldable pub transport_url : UrlParts → String
  transport_url x =
      "rabbit://"
      <> (join (host_parts x x.hosts)
          <> (slashed x.vhost <> (if x.tls_enabled then "?ssl=1" else "?ssl=0")))

  unfoldable pub create_transport_url_secret : TransportUrl → UrlParts → Secret
  create_transport_url_secret t x = record {
    name = "rabbitmq-transport-url-" <> t.name;
    data_map =
        ("transport_url", transport_url x)
        ∷ (if x.quorum then ("quorumqueues", "true") ∷ [] else []);
    owners = [];
    finalizers = [];
    immutable = false;
  }
