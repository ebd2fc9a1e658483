-- ===== src/RabbitMq/Versions.antt =====
-- RabbitMQ's versions: apis/rabbitmq/v1beta1/version.go and RequiresStorageWipe of
-- internal/rabbitmq/cluster.go.
use infra_operator.Base.{
  String, Bool, false, ◌&&◌, ◌||◌, not, Option, none, some, List, [], ◌∷◌, ◌==◌, string_eq, ◌⊎◌,
  inl, inr, if◌then◌else◌,
}
use infra_operator.Base.Integers.{ℤ, pos, ltz, int_eq}

pub record Version : Type 0 where
  pub major : ℤ
  pub minor : ℤ
  pub patch : ℤ

-- `strings.Split` at the points, and `strconv.Atoi`.
pub record Texts : Type 0 where
  pub split : String → List String
  pub atoi : String → Option ℤ

pub data VersionError : Type 0 where
  invalid_format invalid_major invalid_minor invalid_patch : String → VersionError

-- A test below a version, on the parts in order.
unfoldable pub version_lt : Version → Version → Bool
version_lt target current =
    ltz target.major current.major
    || (target.major == current.major && ltz target.minor current.minor)
    || (target.major == current.major
        && target.minor == current.minor
        && ltz target.patch current.patch)

module _ (t : Texts) where
  -- The patch level: the third part, if there is one.
  unfoldable pub parse_patch : List String → VersionError ⊎ ℤ
  parse_patch [] = inr (pos 0)
  parse_patch (s ∷ ss) = elim (t.atoi s) [ none ↦ inl (invalid_patch s) | some n ↦ inr n ]

  unfoldable pub parse_parts : String → List String → VersionError ⊎ Version
  parse_parts text [] = inl (invalid_format text)
  parse_parts text (a ∷ []) = inl (invalid_format text)
  parse_parts text (a ∷ b ∷ rest) = elim (t.atoi a) [
    | none ↦ inl (invalid_major a)
    | some major ↦ elim (t.atoi b) [
      | none ↦ inl (invalid_minor b)
      | some minor ↦ elim (parse_patch rest) [
        | inl e ↦ inl e
        | inr patch ↦ inr (record { major = major; minor = minor; patch = patch })
      ]
    ]
  ]

  unfoldable pub parse_rabbit_mq_version : String → VersionError ⊎ Version
  parse_rabbit_mq_version text = parse_parts text (t.split text)

  unfoldable pub is3x_to4x_upgrade : String → String → Bool
  is3x_to4x_upgrade current_version target_version =
      elim (parse_rabbit_mq_version current_version) [
        | inl e ↦ false
        | inr current ↦ elim (parse_rabbit_mq_version target_version) [
          | inl e ↦ false
          | inr target ↦ current.major == pos 3 && not (ltz target.major (pos 4))
        ]
      ]

  unfoldable pub is_version4_or_later : String → Bool
  is_version4_or_later text = elim (parse_rabbit_mq_version text) [
    | inl e ↦ false
    | inr v ↦ not (ltz v.major (pos 4))
  ]

  unfoldable pub requires_storage_wipe : String → String → VersionError ⊎ Bool
  requires_storage_wipe from_text to_text =
      if from_text == to_text then inr false else (elim (parse_rabbit_mq_version from_text) [
        | inl e ↦ inl e
        | inr from ↦ elim (parse_rabbit_mq_version to_text) [
          | inl e ↦ inl e
          | inr to ↦ inr (not (from.major == to.major && from.minor == to.minor))
        ]
      ])
