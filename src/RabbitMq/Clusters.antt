-- ===== src/RabbitMq/Clusters.antt =====
-- apis/rabbitmq/v1beta1/rabbitmq_webhook.go: defaults and validation of a RabbitMq object.
use infra_operator.Base.{
  String, Bool, true, false, ◌&&◌, ◌||◌, not, Option, none, some, List, [], ◌∷◌, ◌++◌, ◌==◌,
  string_eq, inl, inr, if◌then◌else◌,
}
use infra_operator.Base.Integers.{ℤ, pos, ltz, int_eq}
use infra_operator.Admission.{FieldPath, child, ◌!◌}
use infra_operator.RabbitMq.Versions.{
  Texts, VersionError, version_lt, parse_rabbit_mq_version, is_version4_or_later,
}

pub record Tls : Type 0 where
  pub secret_name : String
  pub ca_secret_name : String
  pub disable_non_tls_listeners : Bool

pub record TopoRef : Type 0 where
  pub name : String
  pub namespace : String

-- `RabbitMqSpecCore`, as far as the webhook reads it; `override` is the raw text of the StatefulSet's.
pub record RabbitMqSpecCore : Type 0 where
  pub tls : Tls
  pub replicas : Option ℤ
  pub queue_type : Option String
  pub target_version : Option String
  pub termination_grace_period_seconds : Option ℤ
  pub topology_ref : Option TopoRef
  pub override : Option String

pub record RabbitMqSpec : Type 0 where
  pub container_image : String
  pub core : RabbitMqSpecCore

pub record RabbitMqItem : Type 0 where
  pub name : String
  pub namespace : String
  pub spec : RabbitMqSpec
  pub status_queue_type : String
  pub current_version : String

abbrev pub queue_type_mirrored : String
queue_type_mirrored = "Mirrored"

abbrev pub queue_type_quorum : String
queue_type_quorum = "Quorum"

-- `p == nil || *p == ""`
unfoldable pub is_empty : Option String → Bool
is_empty none = true
is_empty (some s) = s == ""

-- The client's answer to the read of the existing object.
pub data Existing : Type 0 where
  found : RabbitMqItem → Existing
  not_found : Existing
  failed : Existing

pub data Complaint : Type 0 where
  namespace_not_supported invalid_override : Complaint
  invalid_label : String → Complaint
  queue_type_not_supported : String → Complaint
  mirrored_not_supported : String → Complaint
  cannot_parse_current : String → VersionError → Complaint
  cannot_parse_target : VersionError → Complaint
  downgrade scale_down_forbidden : Complaint

abbrev pub Complaints : Type 0
Complaints = List (FieldPath × Complaint)

abbrev pub is_mirrored : Option String → Bool
is_mirrored none = false
is_mirrored (some q) = q == queue_type_mirrored

abbrev pub default_tls : Tls → Tls
default_tls tls = if tls.secret_name == "" then tls else record {
  secret_name = tls.secret_name;
  ca_secret_name = if tls.ca_secret_name == "" then tls.secret_name else tls.ca_secret_name;
  disable_non_tls_listeners = true;
}

abbrev pub default_grace : Option ℤ → Option ℤ
default_grace none = none
default_grace (some n) = if n == pos 604800 then some (pos 60) else some n

-- What `Default` puts into the queue type before the defaults of the spec, and whether the object
-- counts as new. None is no client.
unfoldable pub adopt_queue_type : Option Existing → Option String → Bool × Option String
adopt_queue_type none q = (true, q)
adopt_queue_type (some answer) q =
    if is_empty q
    then (elim answer [
      | failed ↦ (false, some queue_type_mirrored)
      | not_found ↦ (true, q)
      | found existing ↦ (
        false,
        if is_empty existing.spec.core.queue_type
            then some (
                if existing.status_queue_type == ""
                then queue_type_mirrored
                else existing.status_queue_type)
            else existing.spec.core.queue_type,
      )
    ])
    else (false, q)

module _ (t : Texts) where
  -- `*TargetVersion` is set and of RabbitMQ 4 or later.
  unfoldable pub targets4 : Option String → Bool
  targets4 none = false
  targets4 (some v) = not (v == "") && is_version4_or_later t v

  -- The queue type: Quorum for a new cluster that has none, and in place of Mirrored from 4 on.
  abbrev pub default_queue_type : Bool → Option String → Option String → Option String
  default_queue_type is_new target q =
      let chosen = if is_new && is_empty q then some queue_type_quorum else q in
      if is_mirrored chosen && targets4 target then some queue_type_quorum else chosen

  unfoldable pub default_core : Bool → RabbitMqSpecCore → RabbitMqSpecCore
  default_core is_new s = record s {
    tls = default_tls s.tls;
    queue_type = default_queue_type is_new s.target_version s.queue_type;
    termination_grace_period_seconds = default_grace s.termination_grace_period_seconds;
  }

  unfoldable pub default_spec : String → Bool → RabbitMqSpec → RabbitMqSpec
  default_spec image is_new s = record {
    container_image = if s.container_image == "" then image else s.container_image;
    core = default_core is_new s.core;
  }

  unfoldable pub default : String → Option Existing → RabbitMqItem → RabbitMqItem
  default image client r =
      let (is_new, q) = adopt_queue_type client r.spec.core.queue_type in
      let adopted = record r.spec { core = record r.spec.core { queue_type = q } } in
      if r.name == "" || r.namespace == ""
      then record r { spec = default_spec image true r.spec }
      else record r { spec = default_spec image is_new adopted }

  unfoldable pub validate_queue_type : RabbitMqSpecCore → FieldPath → Complaints
  validate_queue_type s p = elim s.queue_type [
    | none ↦ []
    | some q ↦
        (if not (q == queue_type_mirrored) && not (q == queue_type_quorum)
          then (p ! child "queueType", queue_type_not_supported q) ∷ []
          else [])
        ++ (if q == queue_type_mirrored && targets4 s.target_version
            then (p ! child "queueType", mirrored_not_supported q) ∷ []
            else [])
  ]

  -- The comparison of two versions that are set.
  unfoldable pub compare_versions : Bool → String → String → FieldPath → Complaints
  compare_versions reports current_version target_version p =
      elim (parse_rabbit_mq_version t current_version) [
        | inl e ↦
            if reports
            then (p ! child "targetVersion", cannot_parse_current current_version e) ∷ []
            else []
        | inr current ↦ elim (parse_rabbit_mq_version t target_version) [
          | inl e ↦ (p ! child "targetVersion", cannot_parse_target e) ∷ []
          | inr target ↦
              if version_lt target current then (p ! child "targetVersion", downgrade) ∷ [] else []
        ]
      ]

  -- The version that is taken for the running one.
  unfoldable pub running_version : RabbitMqItem → String
  running_version old =
      if old.current_version == ""
      then (elim old.spec.core.target_version [ none ↦ "" | some v ↦ v ])
      else old.current_version

  unfoldable pub validate_version_change : RabbitMqItem → RabbitMqItem → FieldPath → Complaints
  validate_version_change r old p = elim r.spec.core.target_version [
    | none ↦ []
    | some target ↦
        if target == "" || running_version old == ""
        then []
        else compare_versions true (running_version old) target p
  ]

  unfoldable pub validate_version_downgrade :
      RabbitMqSpecCore → RabbitMqSpecCore → FieldPath → Complaints
  validate_version_downgrade s old p = elim s.target_version [
    | none ↦ []
    | some target ↦ elim old.target_version [
      | none ↦ []
      | some current ↦
          if target == "" || current == "" then [] else compare_versions false current target p
    ]
  ]

abbrev pub replicas_of : Option ℤ → ℤ
replicas_of none = pos 1
replicas_of (some n) = n

unfoldable pub validate_scale_down : RabbitMqSpecCore → RabbitMqSpecCore → FieldPath → Complaints
validate_scale_down s old p =
    if ltz (replicas_of s.replicas) (replicas_of old.replicas)
    then (p ! child "replicas", scale_down_forbidden) ∷ []
    else []

-- `ValidateTopologyRef`
unfoldable pub validate_topology : RabbitMqSpecCore → FieldPath → String → Complaints
validate_topology s p namespace = elim s.topology_ref [
  | none ↦ []
  | some ref ↦
      if not (ref.namespace == "") && not (ref.namespace == namespace)
      then (p ! child "topologyRef" ! child "namespace", namespace_not_supported) ∷ []
      else []
]

-- `json.Decoder` reads the override, and the errors of lib-common's check of names.
pub record Libraries : Type 0 where
  pub decodes : String → Bool
  pub label_errors : String → Complaints

module _ (t : Texts) (l : Libraries) where
  -- Whether there is a warning, and the errors.
  unfoldable pub validate_override : RabbitMqSpecCore → FieldPath → Bool × Complaints
  validate_override s p = elim s.override [
    | none ↦ (false, [])
    | some raw ↦
        if l.decodes raw then (true, []) else (false, (p ! child "override", invalid_override) ∷ [])
  ]

  unfoldable pub validate_create_core : RabbitMqSpecCore → FieldPath → String → Bool × Complaints
  validate_create_core s p namespace =
      let (warn, errs) = validate_override s p in
      (warn, validate_topology s p namespace ++ (errs ++ validate_queue_type t s p))

  unfoldable pub validate_update_core :
      RabbitMqSpecCore → RabbitMqSpecCore → FieldPath → String → Bool × Complaints
  validate_update_core s old p namespace =
      let (warn, errs) = validate_create_core s p namespace in
      (warn, errs ++ (validate_scale_down s old p ++ validate_version_downgrade t s old p))

  -- The errors of `ValidateCreate`; with none the object is admitted.
  unfoldable pub validate_create : RabbitMqItem → Bool × Complaints
  validate_create r =
      let p : FieldPath = child "spec" ∷ [] in
      let (warn, errs) = validate_override r.spec.core p in
      (
        warn,
        validate_topology r.spec.core p r.namespace
            ++ (errs ++ (l.label_errors r.name ++ validate_queue_type t r.spec.core p)),
      )

  -- The old object is none where it is no RabbitMq.
  unfoldable pub validate_update : RabbitMqItem → Option RabbitMqItem → Bool × Complaints
  validate_update r old =
      let p : FieldPath = child "spec" ∷ [] in
      let (warn, errs) = validate_override r.spec.core p in
      (
        warn,
        validate_topology r.spec.core p r.namespace
            ++ (errs
                ++ (validate_queue_type t r.spec.core p ++ elim old [
                  | none ↦ []
                  | some o ↦
                      validate_version_change t r o p
                      ++ validate_scale_down r.spec.core o.spec.core p
                ])),
      )
