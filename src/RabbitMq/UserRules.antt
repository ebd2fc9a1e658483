-- ===== src/RabbitMq/UserRules.antt =====
-- What the webhook of RabbitMQUsers guarantees (rabbitmquser_webhook.go).
use infra_operator.Base.{
  ◌+◌, ◌≤◌, String, ◌≡◌, ◌≢◌, ◌⊎◌, inl, inr, refl, Bool, true, ◌&&◌, not, none, some, List, [], ◌∷◌,
  string_eq, nat_eq, All, arith, any, Option-cases,
}
use infra_operator.Admission.Names.{codes, all}
use infra_operator.RabbitMq.Users.{
  CredentialSelectors, selectors_or_default, list_failed, RabbitMqUser, Client, SecretReply, secret,
  no_secret, secret_failed, SecretData, UserError, Check, first_error, byte_count,
  user_vhost_finalizer_prefix, transport_url_finalizer_prefix, max_finalizer_length,
  max_username_length, is_name_code, validate_rabbit_mq_name, username_problems, validate_username,
  has_prefix, is_legacy, find_conflict, nil_dereference, validate_unique_username,
  validate_secret_and_extract_credentials, validate_secret, validate_keys, validate_permissions,
  validate_not_default_user, default, has_secret, validate_create, old_username, changes,
  validate_update,
}

-- A run of checks returns nil only if each does.
first_error-nil :
    (c : Check) (cs : List Check)
    → first_error (c ∷ cs) ≡ none
    → (c ≡ none) × (first_error cs ≡ none)
unfolding first_error
first_error-nil none cs h = (refl, h)
first_error-nil (some e) cs h = cc

-- A live user whose key another may not have: cluster, vhost and username.
abbrev pub is_live : RabbitMqUser → Bool
is_live u = not u.deleted && not (is_legacy u)

-- u is not live, or the users have different names or different keys.
abbrev pub AreApart : RabbitMqUser → RabbitMqUser → Type 0
AreApart r u =
    (u.name ≢ r.name)
    → (is_live u ≡ true)
    → (u.rabbitmq_cluster_name ≡ r.rabbitmq_cluster_name)
    → (u.vhost_ref ≡ r.vhost_ref)
    → u.username ≢ r.username

-- One of the users is not live, or they have different names or different keys.
abbrev pub AreCompatible : RabbitMqUser → RabbitMqUser → Type 0
AreCompatible r u = is_live r ≡ true → AreApart r u

-- No two live users of the list are in conflict.
abbrev pub IsConsistent : List RabbitMqUser → Type 0
IsConsistent [] = Unit
IsConsistent (u ∷ us) = All (AreCompatible u) us × IsConsistent us

max_username_length_is : max_username_length ≡ 39
unfolding max_username_length byte_count nat_eq
max_username_length_is = refl

prefix_length : byte_count (codes user_vhost_finalizer_prefix) ≡ 24
unfolding byte_count
prefix_length = refl

-- A username that is admitted has the characters of the pattern, and with its prefix is a finalizer of
-- at most 63 bytes.
pub validate_username-fits :
    (r : RabbitMqUser)
    → validate_username r ≡ none
    → (r.username ≢ "")
      × (all is_name_code (codes r.username) ≡ true)
      × (byte_count (codes user_vhost_finalizer_prefix) + byte_count (codes r.username)
          ≤ max_finalizer_length)
unfolding validate_username username_problems validate_rabbit_mq_name
validate_username-fits r h = ground (arith, max_username_length_is, prefix_length)

SecretReply-cases :
    (a : SecretReply)
    → (a ≡ no_secret) ⊎ ((a ≡ secret_failed) ⊎ ((entries : SecretData) × (a ≡ secret entries)))
SecretReply-cases no_secret = inl refl
SecretReply-cases secret_failed = inr (inl refl)
SecretReply-cases (secret entries) = inr (inr (entries, refl))

module _ (c : Client) where
  -- An update that is admitted keeps the cluster and the username, the one of the status where it is
  -- known; and the permissions, while a finalizer of a TransportURL is on the user.
  pub validate_update_keeps :
      (r old : RabbitMqUser)
      → validate_update c r (some old) ≡ none
      → (r.rabbitmq_cluster_name ≡ old.rabbitmq_cluster_name)
        × (r.username ≡ old_username old)
        × (any (λ f. has_prefix (codes f) (codes transport_url_finalizer_prefix)) r.finalizers
              ≡ true
            → r.permissions ≡ old.permissions)
  unfolding validate_update changes
  validate_update_keeps r old h =
      let (_, rest) = first_error-nil (validate_secret_and_extract_credentials c r) _ h in
      let (cluster, rest) = first_error-nil _ _ rest in
      let (username, rest) = first_error-nil _ _ rest in
      let (_, rest) = first_error-nil _ _ rest in
      let (_, rest) = first_error-nil (validate_username r) _ rest in
      let (_, rest) = first_error-nil (validate_permissions c r) _ rest in
      let (_, rest) = first_error-nil _ _ rest in
      let (_, rest) = first_error-nil _ _ rest in
      let (permissions, _) = first_error-nil _ _ rest in (ground arith, ground arith, ground arith)

  first_error-avoids :
      (e : UserError) (cs : List Check) → All (λ x. x ≢ some e) cs → first_error cs ≢ some e
  unfolding first_error
  first_error-avoids e [] h = λ p. cc
  first_error-avoids e (none ∷ cs) (x, h) = first_error-avoids e cs h
  first_error-avoids e (some f ∷ cs) (x, h) = x

  validate_username-no_dereference : (r : RabbitMqUser) → validate_username r ≢ some nil_dereference
  unfolding validate_username
  validate_username-no_dereference r h = ground arith

  validate_keys-no_dereference :
      (r : RabbitMqUser) (entries : SecretData) (s : CredentialSelectors)
      → r.credential_selectors ≡ some s
      → validate_keys c r entries ≢ some nil_dereference
  unfolding validate_keys first_error
  validate_keys-no_dereference r entries s e h = ground (arith, validate_username-no_dereference r)

  validate_secret-no_dereference :
      (r : RabbitMqUser) (s : CredentialSelectors)
      → (has_secret r.secret ≡ true → r.credential_selectors ≡ some s)
      → validate_secret_and_extract_credentials c r ≢ some nil_dereference
  unfolding validate_secret_and_extract_credentials validate_secret has_secret
  validate_secret-no_dereference r s e h = elim (Option-cases r.secret) [
    | inl none_given ↦ ground (arith, validate_username-no_dereference r)
    | inr (name, given) ↦ elim (SecretReply-cases (c.get_secret name)) [
      | inl q ↦ ground (arith, validate_username-no_dereference r)
      | inr (inl q) ↦ ground (arith, validate_username-no_dereference r)
      | inr (inr (entries, q)) ↦
          ground
            (arith, validate_username-no_dereference r, validate_keys-no_dereference r entries s)
    ]
  ]

  permissions-no_dereference : (r : RabbitMqUser) → validate_permissions c r ≢ some nil_dereference
  unfolding validate_permissions
  permissions-no_dereference r h = ground arith

  not_default_user-no_dereference :
      (r : RabbitMqUser) → validate_not_default_user c r ≢ some nil_dereference
  unfolding validate_not_default_user
  not_default_user-no_dereference r h = ground arith

  find_conflict-no_dereference :
      (r : RabbitMqUser) (username : String) (us : List RabbitMqUser)
      → find_conflict r username us ≢ some nil_dereference
  unfolding find_conflict
  find_conflict-no_dereference r username [] h = cc
  find_conflict-no_dereference r username (u ∷ us) h =
      ground (arith, find_conflict-no_dereference r username us)

  unique_username-no_dereference :
      (r : RabbitMqUser) (username : String)
      → validate_unique_username c r username ≢ some nil_dereference
  unfolding validate_unique_username
  unique_username-no_dereference r username =
      elim c.list_users
        as (λ x.
          elim x [ inl e ↦ some list_failed | inr users ↦ find_conflict r username users ]
          ≢ some nil_dereference) [
            | inl e ↦ λ h. cc
            | inr us ↦ find_conflict-no_dereference r username us
          ]

  -- Behind the defaults, the check of a user at its creation never reads selectors that are nil.
  pub default-validate_create :
      (r : RabbitMqUser) → validate_create c (default c r) ≢ some nil_dereference
  unfolding validate_create default
  default-validate_create r =
      let u = default c r in
      first_error-avoids nil_dereference _ (
        validate_secret-no_dereference u (selectors_or_default r.credential_selectors)
            (λ given. ground arith),
        (
          permissions-no_dereference u,
          (
            (λ h. ground arith),
            (not_default_user-no_dereference u, (unique_username-no_dereference u u.username, tt)),
          ),
        ),
      )
