-- ===== src/RabbitMq/Order.antt =====
-- The order of versions, and what the checks against the previous object mean by it
-- (rabbitmq_webhook.go, cluster.go).
use infra_operator.Base.{
  append_nil, Sum-cases, String, ◌≡◌, ◌↔◌, true, false, some, [], ◌∷◌, ◌==◌, string_eq, ◌⊎◌, inl,
  inr, none, Option-cases, arith, Bool-cases,
}
use infra_operator.Base.Integers.{ltz, int_eq, int_beq, ltz_irreflexive, ltz_trans, ltz_total}
use infra_operator.Admission.{FieldPath, child}
use infra_operator.RabbitMq.Versions.{
  Version, Texts, version_lt, parse_rabbit_mq_version, is3x_to4x_upgrade, requires_storage_wipe,
}
use infra_operator.RabbitMq.Clusters.{
  RabbitMqSpecCore, RabbitMqItem, Libraries, compare_versions, running_version, replicas_of,
  validate_version_change, validate_scale_down, validate_override, validate_topology,
  validate_queue_type, validate_update,
}

-- No version is below itself, and of two different ones one is below the other.
version_lt_irreflexive : (v : Version) → version_lt v v ≡ false
unfolding version_lt
version_lt_irreflexive v =
    ground (arith, ltz_irreflexive v.major, ltz_irreflexive v.minor, ltz_irreflexive v.patch)

pub version_lt_total : (v w : Version) → version_lt v w ≡ false → version_lt w v ≡ false → v ≡ w
unfolding version_lt
version_lt_total v w p q =
    ground (arith, ltz_total v.major w.major, ltz_total v.minor w.minor, ltz_total v.patch w.patch)

pub version_lt_trans :
    (u v w : Version) → version_lt u v ≡ true → version_lt v w ≡ true → version_lt u w ≡ true
unfolding version_lt
version_lt_trans u v w p q = ground (
  arith,
  ltz_trans u.major v.major w.major,
  ltz_trans u.minor v.minor w.minor,
  ltz_trans u.patch v.patch w.patch,
)

module _ (t : Texts) where
  -- The target is a version that is not below the running one.
  abbrev pub IsNotBelow : String → String → Type 0
  IsNotBelow current target =
      (v : Version) × (w : Version) × (parse_rabbit_mq_version t current ≡ inr v)
      × (parse_rabbit_mq_version t target ≡ inr w)
      × (version_lt w v ≡ false)

  compare_versions_iff :
      (current target : String) (p : FieldPath)
      → (compare_versions t true current target p ≡ []) ↔ IsNotBelow current target
  unfolding compare_versions
  compare_versions_iff current target p = elim (Sum-cases (parse_rabbit_mq_version t current)) [
    | inl (e, q) ↦ ground arith
    | inr (v, q) ↦ elim (Sum-cases (parse_rabbit_mq_version t target)) [
      | inl (e, r) ↦ ground arith
      | inr (w, r) ↦ (λ h. (v, w, q, r, ground arith), λ (v', w', q', r', below). ground arith)
    ]
  ]

  -- `validateVersionChange` reports nothing exactly if no target is set, no running version is known,
  -- or both are versions and the target is not below the running one.
  pub validate_version_change_iff :
      (r old : RabbitMqItem) (target : String) (p : FieldPath)
      → r.spec.core.target_version ≡ some target
      → (validate_version_change t r old p ≡ []) ↔ (
          (target ≡ "")
          ⊎ ((running_version t old ≡ "") ⊎ IsNotBelow (running_version t old) target))
  unfolding validate_version_change
  validate_version_change_iff r old target p e =
      let (sound, complete) = compare_versions_iff (running_version t old) target p in
      elim (Bool-cases (target == "")) [
        | inl q ↦ ground arith
        | inr q ↦ elim (Bool-cases (running_version t old == "")) [
          | inl r' ↦ ground arith
          | inr r' ↦ (
            λ h. inr (inr (sound (ground arith))),
            λ f. elim f [
              | inl x ↦ ground arith
              | inr (inl x) ↦ ground arith
              | inr (inr x) ↦ let done = complete x in ground arith
            ],
          )
        ]
      ]

  -- A change of the storage's format: an upgrade from 3 to 4 or later always wipes it.
  pub is3x_to4x_upgrade-requires_storage_wipe :
      (current target : String)
      → is3x_to4x_upgrade t current target ≡ true
      → requires_storage_wipe t current target ≡ inr true
  unfolding is3x_to4x_upgrade requires_storage_wipe ltz int_beq int_eq
  is3x_to4x_upgrade-requires_storage_wipe current target h =
      elim (Sum-cases (parse_rabbit_mq_version t current)) [
        | inl (e, q) ↦ ground arith
        | inr (v, q) ↦ elim (Sum-cases (parse_rabbit_mq_version t target)) [
          | inl (e, r) ↦ ground arith
          | inr (w, r) ↦ elim (Bool-cases (current == target)) [
            | inl same ↦ ground arith
            | inr differ ↦ ground arith
          ]
        ]
      ]

  validate_scale_down-ltz :
      (s old : RabbitMqSpecCore) (p : FieldPath)
      → validate_scale_down s old p ≡ []
      → ltz (replicas_of s.replicas) (replicas_of old.replicas) ≡ false
  unfolding validate_scale_down
  validate_scale_down-ltz s old p h = ground arith

  -- The target version is not set or empty, the running one is not known, or both are versions and the
  -- target is not below the running one.
  abbrev pub KeepsVersion : RabbitMqItem → RabbitMqItem → Type 0
  KeepsVersion r old =
      (r.spec.core.target_version ≡ none)
      ⊎ ((target : String) × (r.spec.core.target_version ≡ some target)
          × ((target ≡ "")
              ⊎ ((running_version t old ≡ "") ⊎ IsNotBelow (running_version t old) target)))

  -- An update of a RabbitMq object without errors does not lower the number of replicas, whatever its
  -- versions; and where a target version is given and the running version is known, both are versions,
  -- and the target is not below the running one.
  pub validate_update-IsNotBelow :
      (l : Libraries) (r old : RabbitMqItem)
      → (validate_update t l r (some old)).1 ≡ []
      → (ltz (replicas_of r.spec.core.replicas) (replicas_of old.spec.core.replicas) ≡ false)
        × KeepsVersion r old
  unfolding validate_update
  validate_update-IsNotBelow l r old h =
      let p : FieldPath = child "spec" ∷ [] in
      let (_, rest) = append_nil (validate_topology r.spec.core p r.namespace) _ h in
      let (_, rest) = append_nil (validate_override t l r.spec.core p).1 _ rest in
      let (_, rest) = append_nil (validate_queue_type t r.spec.core p) _ rest in
      let (change, down) = append_nil (validate_version_change t r old p) _ rest in
      let kept : ltz (replicas_of r.spec.core.replicas) (replicas_of old.spec.core.replicas)
          ≡ false =
        validate_scale_down-ltz r.spec.core old.spec.core p down in
      (
        kept,
        elim (Option-cases r.spec.core.target_version) [
          | inl e ↦ inl e
          | inr (target, e) ↦
              inr (target, e, (validate_version_change_iff r old target p e).0 change)
        ],
      )
