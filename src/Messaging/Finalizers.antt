-- ===== src/Messaging/Finalizers.antt =====
-- The names that tie shared users and vhosts to those who need them: TransportURLFinalizerFor of
-- apis/rabbitmq/v1beta1/conditions.go, CanonicalUserName and CanonicalVhostName of rabbitmquser_types.go
-- and rabbitmqvhost_types.go, and the way back of findTransportURLsFromFinalizers in
-- internal/controller/rabbitmq/transporturl_controller.go. Lengths are in bytes. The first four bytes of
-- SHA-256 in hexadecimal are a parameter.
use Prim.Native.String.{len, slice}
use text.Mathlib.Text
use text.Mathlib.TextPositions.{len-append, slice-append_right, starts_with-append}
use infra_operator.Base.{
  ℕ, ◌-◌, String, ◌<>◌, ◌≡◌, refl, ap, ◌∙◌, Bool, true, Option, none, some, List, [], ◌∷◌,
  string_eq, leb, arith, contains, sym, if◌then◌else◌,
}
use infra_operator.RabbitMq.Users.{transport_url_finalizer_prefix, user_vhost_finalizer_prefix}

-- `strings.HasPrefix`
abbrev pub starts_with : String → String → Bool
starts_with s p = Text.starts_with s p

abbrev pub max_transport_url_direct_name : ℕ
max_transport_url_direct_name = 63 - len "t-"

module _ (digest : String → String) where
  unfoldable pub transport_url_finalizer_for : String → String
  transport_url_finalizer_for name =
      if leb (len name) max_transport_url_direct_name
      then transport_url_finalizer_prefix <> name
      else transport_url_finalizer_prefix
        <> (slice name 0 (max_transport_url_direct_name - len (digest name)) <> digest name)

  abbrev pub canonical_vhost_name : String → String → String
  canonical_vhost_name cluster vhost = vhost <> ("-" <> digest cluster)

  abbrev pub canonical_user_name : String → String → String → String
  canonical_user_name cluster vhost username =
      username <> ("-" <> digest (cluster <> ("/" <> vhost)))

-- The name behind the prefix of one finalizer.
unfoldable pub transport_url_of : String → Option String
transport_url_of f =
    if starts_with f transport_url_finalizer_prefix
    then some (slice f (len transport_url_finalizer_prefix) (len f))
    else none

-- `findTransportURLsFromFinalizers`, the names of the requests.
unfoldable pub find_transport_urls_from_finalizers : List String → List String
find_transport_urls_from_finalizers [] = []
find_transport_urls_from_finalizers (f ∷ fs) =
    let rest = find_transport_urls_from_finalizers fs in
    elim (transport_url_of f) [ none ↦ rest | some name ↦ name ∷ rest ]

-- What stands behind a prefix is found there.
slice_behind : (p s : String) → slice (p <> s) (len p) (len (p <> s)) ≡ s
slice_behind p s = ap (λ k. slice (p <> s) (len p) k) (len-append p s) ∙ slice-append_right p s

-- The watch finds the TransportURL again: the finalizer of a TransportURL whose name has at most 61 bytes
-- is read back as that name.
pub transport_url_of-transport_url_finalizer_for :
    (digest : String → String) (name : String)
    → leb (len name) max_transport_url_direct_name ≡ true
    → transport_url_of (transport_url_finalizer_for digest name) ≡ some name
unfolding transport_url_of transport_url_finalizer_for
transport_url_of-transport_url_finalizer_for digest name short = rw (
  short,
  starts_with-append transport_url_finalizer_prefix name,
  slice_behind transport_url_finalizer_prefix name,
)

-- A change of a shared object is a request for every TransportURL whose finalizer is on it and whose name
-- has at most 61 bytes.
pub find_transport_urls_from_finalizers-contains :
    (digest : String → String) (name : String) (fs : List String)
    → leb (len name) max_transport_url_direct_name ≡ true
    → contains fs (transport_url_finalizer_for digest name) ≡ true
    → contains (find_transport_urls_from_finalizers fs) name ≡ true
unfolding find_transport_urls_from_finalizers
find_transport_urls_from_finalizers-contains digest name (f ∷ fs) short there = ground (
  arith,
  find_transport_urls_from_finalizers-contains digest name fs short,
  λ (same : f ≡ transport_url_finalizer_for digest name).
      ap transport_url_of same ∙ transport_url_of-transport_url_finalizer_for digest name short,
)
find_transport_urls_from_finalizers-contains digest name [] short there = cc

-- The finalizer of a user with a name is one of a user.
pub user_finalizer_known :
    (name : String)
    → ¬ (name ≡ "")
    → (starts_with (user_vhost_finalizer_prefix <> name) user_vhost_finalizer_prefix ≡ true)
      × ¬ (user_vhost_finalizer_prefix <> name ≡ user_vhost_finalizer_prefix)
user_finalizer_known name named = (
  starts_with-append user_vhost_finalizer_prefix name,
  λ same. named (
      sym (slice_behind user_vhost_finalizer_prefix name)
      ∙ ap (λ s. slice s (len user_vhost_finalizer_prefix) (len s)) same
      ∙ refl),
)
