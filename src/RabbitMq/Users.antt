-- ===== src/RabbitMq/Users.antt =====
-- apis/rabbitmq/v1beta1/rabbitmquser_webhook.go: defaults and validation of a RabbitMQUser. What the
-- client answers is a parameter of the handlers; the checks are run in order up to the first error.
use infra_operator.Base.{
  ℕ, ◌+◌, ◌-◌, String, ◌<>◌, Bool, true, false, ◌&&◌, ◌||◌, not, Option, none, some, List, [], ◌∷◌,
  ◌++◌, ◌==◌, string_eq, nat_eq, ◌⊎◌, inl, inr, ltb, if◌then◌else◌, any,
}
use infra_operator.Admission.Names.{codes, is_alphanumeric, all}

pub record CredentialSelectors : Type 0 where
  pub username : String
  pub password : String

pub record RabbitMqUserPermissions : Type 0 where
  pub configure : String
  pub write : String
  pub read : String

-- A `RabbitMQUser`: the kinds of its owners stand for the owner references.
pub record RabbitMqUser : Type 0 where
  pub name : String
  pub rabbitmq_cluster_name : String
  pub vhost_ref : String
  pub username : String
  pub secret : Option String
  pub credential_selectors : Option CredentialSelectors
  pub permissions : RabbitMqUserPermissions
  pub status_username : String
  pub deleted : Bool
  pub owner_kinds : List String
  pub finalizers : List String

-- The data of a Secret, and the client's answer to its read.
abbrev pub SecretData : Type 0
SecretData = List (String × String)

pub data SecretReply : Type 0 where
  secret : SecretData → SecretReply
  no_secret : SecretReply
  secret_failed : SecretReply

unfoldable pub datum : SecretData → String → Option String
datum [] key = none
datum ((k, v) ∷ entries) key = if k == key then some v else datum entries key

-- The client, and whether `regexp.Compile` takes a pattern.
pub record Client : Type 0 where
  pub get_secret : String → SecretReply
  pub has_vhost : String → Bool
  pub list_users : String ⊎ List RabbitMqUser
  pub compiles : String → Bool

pub data NameProblem : Type 0 where
  empty_name invalid_characters too_long : NameProblem

pub data UserError : Type 0 where
  not_a_user nil_dereference secret_name_reserved secret_does_not_exist : UserError
  username_key_not_found password_key_not_found : String → UserError
  invalid_username : List NameProblem → UserError
  invalid_permissions : List String → UserError
  vhost_does_not_exist default_user_failed list_failed : UserError
  default_user_conflict : UserError
  username_exists : String → UserError
  cluster_changed username_changed vhost_ref_changed permissions_changed : UserError

-- A check returns nil, or an error.
abbrev pub Check : Type 0
Check = Option UserError

unfoldable pub first_error : List Check → Check
first_error [] = none
first_error (some e ∷ cs) = some e
first_error (none ∷ cs) = first_error cs

abbrev pub refuse_if : Bool → UserError → Check
refuse_if b e = if b then some e else none

-- `len` of a string: its bytes.
abbrev pub bytes_of : ℕ → ℕ
bytes_of c = if ltb c 128 then 1 else if ltb c 2048 then 2 else if ltb c 65536 then 3 else 4

unfoldable pub byte_count : List ℕ → ℕ
byte_count [] = 0
byte_count (c ∷ cs) = bytes_of c + byte_count cs

abbrev pub user_vhost_finalizer_prefix : String
user_vhost_finalizer_prefix = "rmquser.openstack.org/u-"

abbrev pub transport_url_finalizer_prefix : String
transport_url_finalizer_prefix = "turl.openstack.org/t-"

abbrev pub max_finalizer_length : ℕ
max_finalizer_length = 63

unfoldable pub max_username_length : ℕ
max_username_length = max_finalizer_length - byte_count (codes user_vhost_finalizer_prefix)

-- `[-_.:A-Za-z0-9]`
abbrev pub is_name_code : ℕ → Bool
is_name_code c = is_alphanumeric c || c == 45 || c == 95 || c == 46 || c == 58

-- `validateRabbitMQName`
unfoldable pub validate_rabbit_mq_name : String → List NameProblem
validate_rabbit_mq_name name =
    if name == ""
    then empty_name ∷ []
    else if all is_name_code (codes name)
    then []
    else invalid_characters ∷ []

unfoldable pub username_problems : String → List NameProblem
username_problems name =
    validate_rabbit_mq_name name
    ++ (if ltb max_username_length (byte_count (codes name)) then too_long ∷ [] else [])

unfoldable pub validate_username : RabbitMqUser → Check
validate_username r = elim (username_problems r.username) [
  | [] ↦ none
  | p ∷ ps ↦ some (invalid_username (p ∷ ps))
]

-- `strings.HasPrefix`
unfoldable pub has_prefix : List ℕ → List ℕ → Bool
has_prefix s [] = true
has_prefix [] (p ∷ ps) = false
has_prefix (c ∷ cs) (p ∷ ps) = c == p && has_prefix cs ps

abbrev pub is_legacy : RabbitMqUser → Bool
is_legacy r = any (λ kind. kind == "TransportURL") r.owner_kinds

-- `validateUniqueUsername`, the conditions of the loop: another live user with this one's key.
unfoldable pub is_conflict : RabbitMqUser → String → RabbitMqUser → Bool
is_conflict r username user =
    not (user.name == r.name)
    && not user.deleted
    && not (is_legacy user)
    && user.rabbitmq_cluster_name == r.rabbitmq_cluster_name
    && user.vhost_ref == r.vhost_ref
    && username == user.username

unfoldable pub find_conflict : RabbitMqUser → String → List RabbitMqUser → Check
find_conflict r username [] = none
find_conflict r username (user ∷ users) =
    if is_conflict r username user
    then some (username_exists user.name)
    else find_conflict r username users

abbrev pub same_permissions : RabbitMqUserPermissions → RabbitMqUserPermissions → Bool
same_permissions p q = p.configure == q.configure && p.write == q.write && p.read == q.read

unfoldable pub has_secret : Option String → Bool
has_secret none = false
has_secret (some s) = not (s == "")

unfoldable pub selectors_or_default : Option CredentialSelectors → CredentialSelectors
selectors_or_default none = record { username = "username"; password = "password" }
selectors_or_default (some s) = s

abbrev pub text_or : String → Option String → String
text_or s none = s
text_or s (some t) = t

abbrev pub old_username : RabbitMqUser → String
old_username old = if old.status_username == "" then old.username else old.status_username

unfoldable pub changes : RabbitMqUser → RabbitMqUser → List Check
changes r old =
    refuse_if (not (r.rabbitmq_cluster_name == old.rabbitmq_cluster_name)) cluster_changed
    ∷ refuse_if (not (r.username == old_username old)) username_changed
    ∷ refuse_if (r.deleted && not (r.vhost_ref == old.vhost_ref)) vhost_ref_changed
    ∷ []

module _ (c : Client) where
  unfoldable pub validate_unique_username : RabbitMqUser → String → Check
  validate_unique_username r username = elim c.list_users [
    | inl e ↦ some list_failed
    | inr users ↦ find_conflict r username users
  ]

  unfoldable pub validate_not_default_user : RabbitMqUser → Check
  validate_not_default_user r = elim (c.get_secret (r.rabbitmq_cluster_name <> "-default-user")) [
    | no_secret ↦ none
    | secret_failed ↦ some default_user_failed
    | secret entries ↦
        refuse_if (r.username == text_or "" (datum entries "username")) default_user_conflict
  ]

  abbrev pub pattern_problem : String → String → List String
  pattern_problem field pattern = if c.compiles pattern then [] else field ∷ []

  unfoldable pub validate_permissions : RabbitMqUser → Check
  validate_permissions r =
      elim (pattern_problem "configure" r.permissions.configure
        ++ (pattern_problem "write" r.permissions.write
            ++ pattern_problem "read" r.permissions.read)) [
              | [] ↦ none
              | f ∷ fs ↦ some (invalid_permissions (f ∷ fs))
            ]

  -- The keys of the Secret, behind its read.
  unfoldable pub validate_keys : RabbitMqUser → SecretData → Check
  validate_keys r entries = elim r.credential_selectors [
    | none ↦ some nil_dereference
    | some s ↦ first_error (
        elim (datum entries s.username) [
          | none ↦ some (username_key_not_found s.username)
          | some v ↦ none
        ]
        ∷ elim (datum entries s.password) [
          | none ↦ some (password_key_not_found s.password)
          | some v ↦ none
        ]
        ∷ validate_username r
        ∷ [])
  ]

  unfoldable pub validate_secret : RabbitMqUser → String → Check
  validate_secret r name =
      if name == "rabbitmq-user-" <> r.name
      then some secret_name_reserved
      else (elim (c.get_secret name) [
        | no_secret ↦ some secret_does_not_exist
        | secret_failed ↦ some secret_does_not_exist
        | secret entries ↦ validate_keys r entries
      ])

  -- `validateSecretAndExtractCredentials`
  unfoldable pub validate_secret_and_extract_credentials : RabbitMqUser → Check
  validate_secret_and_extract_credentials r = elim r.secret [
    | none ↦ validate_username r
    | some name ↦ if name == "" then validate_username r else validate_secret r name
  ]

  abbrev pub validate_vhost : RabbitMqUser → Check
  validate_vhost r =
      refuse_if (not (r.vhost_ref == "") && not (c.has_vhost r.vhost_ref)) vhost_does_not_exist

  -- The username that the Secret holds, if it is read and has the key.
  unfoldable pub stored_username : Option String → String → Option String
  stored_username none key = none
  stored_username (some name) key = elim (c.get_secret name) [
    | secret entries ↦ datum entries key
    | no_secret ↦ none
    | secret_failed ↦ none
  ]

  unfoldable pub default : RabbitMqUser → RabbitMqUser
  default r =
      let selectors = selectors_or_default r.credential_selectors in
      let username = text_or r.username (stored_username r.secret selectors.username) in
      if has_secret r.secret
      then record r {
        credential_selectors = some selectors;
        username = if username == "" then r.name else username;
      }
      else record r { username = if r.username == "" then r.name else r.username }

  unfoldable pub validate_create : RabbitMqUser → Check
  validate_create r = first_error (
      validate_secret_and_extract_credentials r
      ∷ validate_permissions r
      ∷ validate_vhost r
      ∷ validate_not_default_user r
      ∷ validate_unique_username r r.username
      ∷ [])

  -- The old object is none where it is no RabbitMQUser.
  unfoldable pub validate_update : RabbitMqUser → Option RabbitMqUser → Check
  validate_update r none = some not_a_user
  validate_update r (some old) = first_error (
      validate_secret_and_extract_credentials r
      ∷ (changes r old
          ++ (validate_username r
              ∷ validate_permissions r
              ∷ (if r.deleted then none else validate_vhost r)
              ∷ (if is_legacy r then none else validate_unique_username r r.username)
              ∷ refuse_if
                  (not (same_permissions old.permissions r.permissions)
                    && any (λ f. has_prefix (codes f) (codes transport_url_finalizer_prefix))
                        r.finalizers)
                  permissions_changed
              ∷ [])))
