-- ===== src/RabbitMq/Upgrade.antt =====
-- The storage wipe of internal/controller/rabbitmq/rabbitmq_controller.go: a pass of the reconciler over
-- the upgrade's phases, of an object that is not deleted and has its current version. The other objects
-- that a pass writes are left out; where one of those writes fails, it ends like one that does nothing.
use infra_operator.Base.{
  String, Bool, true, false, ◌&&◌, ◌||◌, not, Option, none, some, ◌==◌, string_eq, ◌⊎◌, inl, inr,
  if◌then◌else◌,
}
use infra_operator.Base.Integers.{ℤ, pos, ltz}
use infra_operator.RabbitMq.Versions.{Texts, VersionError, is3x_to4x_upgrade, requires_storage_wipe}
use infra_operator.RabbitMq.Clusters.{replicas_of, queue_type_mirrored, queue_type_quorum}

-- `UpgradePhase`
pub data UpgradePhase : Type 0 where
  no_phase deleting_resources waiting_for_cluster : UpgradePhase

-- `WipeReason`
pub data WipeReason : Type 0 where
  no_reason version_upgrade queue_type_migration : WipeReason

-- The StatefulSet: the version that it is configured for, and whether it has the init container
-- wipe-data.
pub record StatefulSet : Type 0 where
  pub version : String
  pub wipes_data : Bool

-- The fields of a RabbitMq object that the wipe reads and writes, and the cluster's StatefulSet.
pub record Cluster : Type 0 where
  pub spec_queue_type : Option String
  pub target_version : Option String
  pub replicas : Option ℤ
  pub current_version : String
  pub queue_type : String
  pub upgrade_phase : UpgradePhase
  pub wipe_reason : WipeReason
  pub proxy_required : String
  pub stateful_set : Option StatefulSet

-- What the calls of a pass return: whether the policy is applied, and deleted, the pods are labelled,
-- the old StatefulSet is deleted, the new one is written, and is ready, and the services are written.
pub record Answers : Type 0 where
  pub policy_applied : Bool
  pub policy_deleted : Bool
  pub pods_labelled : Bool
  pub set_deleted : Bool
  pub set_written : Bool
  pub set_ready : Bool
  pub services_written : Bool

abbrev pub default_rabbit_mq_version : String
default_rabbit_mq_version = "4.2"

-- `*p` where p is not nil and not empty.
unfoldable pub given : Option String → Option String
given none = none
given (some s) = if s == "" then none else some s

abbrev pub is_quorum : Option String → Bool
is_quorum none = false
is_quorum (some q) = q == queue_type_quorum

-- The version that the StatefulSet is configured for.
unfoldable pub config_version : Cluster → String
config_version s = elim (given s.target_version) [
  | some v ↦ v
  | none ↦ if s.current_version == "" then default_rabbit_mq_version else s.current_version
]

abbrev pub has_wipe_container : Option StatefulSet → Bool
has_wipe_container none = false
has_wipe_container (some set) = set.wipes_data

abbrev pub in_upgrade : UpgradePhase → Bool
in_upgrade no_phase = false
in_upgrade deleting_resources = true
in_upgrade waiting_for_cluster = true

abbrev pub is_migration : WipeReason → Bool
is_migration queue_type_migration = true
is_migration _ = false

-- `CreateOrPatch` of the StatefulSet.
unfoldable pub write_set : Cluster → Cluster
write_set s = record s {
  stateful_set = some (record {
    version = config_version s;
    wipes_data = in_upgrade s.upgrade_phase || has_wipe_container s.stateful_set;
  });
}

-- The end of the wipe, once the cluster is ready.
unfoldable pub complete_wipe : Cluster → Cluster
complete_wipe s = elim s.upgrade_phase [
  | no_phase ↦ s
  | deleting_resources ↦ s
  | waiting_for_cluster ↦ record s {
    upgrade_phase = no_phase;
    wipe_reason = no_reason;
    current_version = elim (given s.target_version) [ none ↦ s.current_version | some v ↦ v ];
  }
]

-- The queue type of the status, with the policy of mirrored queues.
unfoldable pub sync_queue_type : Answers → Cluster → Cluster
sync_queue_type a s = elim s.spec_queue_type [
  | none ↦ s
  | some q ↦
      if q == queue_type_mirrored
      then if s.queue_type == queue_type_mirrored
          || not (ltz (pos 1) (replicas_of s.replicas))
          || a.policy_applied
        then record s { queue_type = queue_type_mirrored }
        else s
      else if s.queue_type == queue_type_mirrored && not a.policy_deleted
      then s
      else if q == queue_type_quorum
      then record s { queue_type = queue_type_quorum }
      else s
]

unfoldable pub finish : Answers → Cluster → Cluster
finish a s = if a.services_written then sync_queue_type a s else s

unfoldable pub reconcile_set : Answers → Cluster → Cluster
reconcile_set a s =
    if not a.set_written
    then s
    else if a.set_ready
    then finish a (complete_wipe (write_set s))
    else write_set s

module _ (t : Texts) where
  -- Whether the target version needs a wipe.
  unfoldable pub version_wipe : Cluster → VersionError ⊎ Bool
  version_wipe s = elim (given s.target_version) [
    | none ↦ inr false
    | some target ↦ requires_storage_wipe t s.current_version target
  ]

  -- Whether a wipe is required, and the object with its reason.
  unfoldable pub decide_wipe : Cluster → VersionError ⊎ (Bool × Cluster)
  decide_wipe s = if in_upgrade s.upgrade_phase then inr (true, s) else (elim (version_wipe s) [
    | inl e ↦ inl e
    | inr true ↦ inr (true, record s { wipe_reason = version_upgrade })
    | inr false ↦ inr (
        if is_quorum s.spec_queue_type && s.queue_type == queue_type_mirrored
        then (true, record s { wipe_reason = queue_type_migration })
        else (false, s))
  ])

  -- The target is set, and an upgrade from 3 to 4.
  unfoldable pub migrates_version : Cluster → Bool
  migrates_version s = elim (given s.target_version) [
    | none ↦ false
    | some target ↦ is3x_to4x_upgrade t s.current_version target
  ]

  -- What the phase writes into the status, behind the deletion.
  unfoldable pub record_wipe : Cluster → Cluster
  record_wipe s = record s {
    proxy_required =
        if is_quorum s.spec_queue_type && (migrates_version s || is_migration s.wipe_reason)
        then "True"
        else s.proxy_required;
    queue_type = elim s.spec_queue_type [ none ↦ s.queue_type | some q ↦ q ];
    upgrade_phase = waiting_for_cluster;
    stateful_set = none;
  }

  -- The deletion of the StatefulSet. On an error nothing of it is written.
  unfoldable pub delete_set : Answers → Cluster → Cluster
  delete_set a s =
      if s.queue_type == queue_type_mirrored && not a.policy_deleted
      then s
      else if not a.pods_labelled || not a.set_deleted
      then s
      else record_wipe s

  -- The phases behind the decision.
  unfoldable pub run_phase : Answers → Bool → Cluster → Cluster
  run_phase a false s = reconcile_set a s
  run_phase a true s = elim s.upgrade_phase [
    | no_phase ↦ record s { upgrade_phase = deleting_resources }
    | deleting_resources ↦ delete_set a s
    | waiting_for_cluster ↦ reconcile_set a s
  ]

  -- One pass; on an error of the versions the object stays as it is.
  unfoldable pub reconcile : Answers → Cluster → Cluster
  reconcile a s = elim (decide_wipe s) [ inl e ↦ s | inr (required, r) ↦ run_phase a required r ]
