-- ===== src/RabbitMq/Wiping.antt =====
-- The phases of the storage wipe (rabbitmq_controller.go): what holds in every state that passes and
-- changes of the spec reach, and that an upgrade ends.
use mathlib.Core.Path.{subst}
use infra_operator.Base.{
  Sum-cases, String, ◌≡◌, ◌≢◌, ◌⊎◌, inl, inr, refl, Bool, true, false, ◌&&◌, ◌||◌, not, Option,
  none, ◌==◌, string_eq, arith, Bool-cases,
}
use infra_operator.Base.Integers.{ℤ}
use infra_operator.RabbitMq.Versions.{Texts}
use infra_operator.RabbitMq.Clusters.{queue_type_mirrored}
use infra_operator.RabbitMq.Upgrade.{
  UpgradePhase, no_phase, deleting_resources, waiting_for_cluster, WipeReason, no_reason,
  version_upgrade, queue_type_migration, StatefulSet, Cluster, Answers, is_quorum,
  has_wipe_container, in_upgrade, version_wipe, decide_wipe, record_wipe, delete_set, write_set,
  complete_wipe, sync_queue_type, finish, reconcile_set, run_phase, reconcile,
}

-- While the reconciler waits for the cluster, the StatefulSet is gone or new, with its wipe container;
-- and a wipe that runs has a reason.
abbrev pub Sound : UpgradePhase → Option StatefulSet → WipeReason → Type 0
Sound phase set r =
    (phase ≡ waiting_for_cluster → (set ≡ none) ⊎ (has_wipe_container set ≡ true))
    × (in_upgrade phase ≡ true → r ≢ no_reason)

abbrev pub IsSound : Cluster → Type 0
IsSound s = Sound s.upgrade_phase s.stateful_set s.wipe_reason

pub UpgradePhase-cases :
    (p : UpgradePhase) → (p ≡ no_phase) ⊎ ((p ≡ deleting_resources) ⊎ (p ≡ waiting_for_cluster))
UpgradePhase-cases no_phase = inl refl
UpgradePhase-cases deleting_resources = inr (inl refl)
UpgradePhase-cases waiting_for_cluster = inr (inr refl)

-- Without a phase there is nothing to hold.
pub Sound-no_phase : (set : Option StatefulSet) (r : WipeReason) → Sound no_phase set r
Sound-no_phase set r = ((λ e. cc), (λ e. cc))

-- The end of a pass changes the queue type alone.
pub finish_keeps :
    (a : Answers) (s : Cluster)
    → ((finish a s).upgrade_phase ≡ s.upgrade_phase)
      × ((finish a s).stateful_set ≡ s.stateful_set)
      × ((finish a s).wipe_reason ≡ s.wipe_reason)
unfolding finish sync_queue_type
finish_keeps a s = ground arith

IsSound-finish : (a : Answers) (s : Cluster) → IsSound s → IsSound (finish a s)
IsSound-finish a s h = let (p, set, r) = finish_keeps a s in rw (p, set, r) h

IsSound-write_set : (s : Cluster) → IsSound s → IsSound (write_set s)
unfolding write_set
IsSound-write_set s h = ((λ e. inr (rw e)), h.1)

IsSound-complete_wipe : (s : Cluster) → IsSound s → IsSound (complete_wipe s)
unfolding complete_wipe
IsSound-complete_wipe s h = elim (UpgradePhase-cases s.upgrade_phase) [
  | inl e ↦ rw (complete_wipe, e) h
  | inr (inl e) ↦ rw (complete_wipe, e) h
  | inr (inr e) ↦ rw (complete_wipe, e) (Sound-no_phase s.stateful_set no_reason)
]

IsSound-reconcile_set : (a : Answers) (s : Cluster) → IsSound s → IsSound (reconcile_set a s)
unfolding reconcile_set finish sync_queue_type
IsSound-reconcile_set a s h = elim (Bool-cases a.set_written) [
  | inr e ↦ rw e h
  | inl e ↦ elim (Bool-cases a.set_ready) [
    | inr f ↦ rw (e, f) (IsSound-write_set s h)
    | inl f ↦
        rw (e, f)
          (IsSound-finish a (complete_wipe (write_set s))
            (IsSound-complete_wipe (write_set s) (IsSound-write_set s h)))
  ]
]

module _ (t : Texts) where
  IsSound-record_wipe : (s : Cluster) → s.wipe_reason ≢ no_reason → IsSound (record_wipe t s)
  unfolding record_wipe
  IsSound-record_wipe s h = ((λ e. inl refl), (λ e. h))

  IsSound-delete_set :
      (a : Answers) (s : Cluster)
      → IsSound s
      → s.wipe_reason ≢ no_reason
      → IsSound (delete_set t a s)
  unfolding delete_set
  IsSound-delete_set a s h r =
      elim (Bool-cases (s.queue_type == queue_type_mirrored && not a.policy_deleted)) [
        | inl e ↦ rw e h
        | inr e ↦ elim (Bool-cases (not a.pods_labelled || not a.set_deleted)) [
          | inl f ↦ rw (e, f) h
          | inr f ↦ rw (e, f) (IsSound-record_wipe s r)
        ]
      ]

  IsSound-run_phase :
      (a : Answers) (required : Bool) (s : Cluster)
      → IsSound s
      → (required ≡ true → s.wipe_reason ≢ no_reason)
      → IsSound (run_phase t a required s)
  unfolding run_phase
  IsSound-run_phase a false s h r = IsSound-reconcile_set a s h
  IsSound-run_phase a true s h r = elim (UpgradePhase-cases s.upgrade_phase) [
    | inl e ↦ rw (run_phase, e) ((λ f. cc), (λ f. r refl))
    | inr (inl e) ↦ rw (run_phase, e) (IsSound-delete_set a s h (r refl))
    | inr (inr e) ↦ rw (run_phase, e) (IsSound-reconcile_set a s h)
  ]

  abbrev Decided : Bool → Cluster → Type 0
  Decided required r = IsSound r × (required ≡ true → r.wipe_reason ≢ no_reason)

  -- What the decision leaves.
  decide_wipe-IsSound :
      (s r : Cluster) (required : Bool)
      → IsSound s
      → decide_wipe t s ≡ inr (required, r)
      → IsSound r × (required ≡ true → r.wipe_reason ≢ no_reason)
  unfolding decide_wipe
  decide_wipe-IsSound s r required h e = elim (Bool-cases (in_upgrade s.upgrade_phase)) [
    | inl f ↦
        let opened = rw (decide_wipe, f) at e in
        let same : s ≡ r = cc in subst (Decided required) same (h, λ x. h.1 f)
    | inr f ↦ elim (Sum-cases (version_wipe t s)) [
      | inl (x, q) ↦ ground arith
      | inr (true, q) ↦
          let opened = rw (decide_wipe, f, q) at e in
          let same : record s { wipe_reason = version_upgrade } ≡ r = cc in
          subst (Decided required) same ((h.0, λ x. λ y. cc), λ x. λ y. cc)
      | inr (false, q) ↦
          elim (Bool-cases (is_quorum s.spec_queue_type && s.queue_type == queue_type_mirrored)) [
            | inl k ↦
                let opened = rw (decide_wipe, f, q, k) at e in
                let same : record s { wipe_reason = queue_type_migration } ≡ r = cc in
                subst (Decided required) same ((h.0, λ x. λ y. cc), λ x. λ y. cc)
            | inr k ↦
                let opened = rw (decide_wipe, f, q, k) at e in
                let same : s ≡ r = cc in
                let no : required ≡ false = cc in subst (Decided required) same (h, λ x. cc)
          ]
    ]
  ]

  IsSound-reconcile : (a : Answers) (s : Cluster) → IsSound s → IsSound (reconcile t a s)
  unfolding reconcile
  IsSound-reconcile a s h = elim (Sum-cases (decide_wipe t s)) [
    | inl (x, q) ↦ rw (reconcile, q) h
    | inr ((required, r), q) ↦
        let (sound, reason) = decide_wipe-IsSound s r required h q in
        rw (reconcile, q) (IsSound-run_phase a required r sound reason)
  ]

  -- What happens to a cluster: passes of the reconciler, and changes of its spec.
  pub data Steps : Cluster → Cluster → Type 0 where
    here : (s : Cluster) → Steps s s
    pass : (a : Answers) (s r : Cluster) → Steps s r → Steps s (reconcile t a r)
    change :
        (s r : Cluster) (q target : Option String) (n : Option ℤ)
        → Steps s r
        → Steps s (record r { spec_queue_type = q; target_version = target; replicas = n })

  pub Steps-IsSound : (s r : Cluster) → Steps s r → IsSound s → IsSound r
  Steps-IsSound _ _ (here s) h = h
  Steps-IsSound _ _ (pass a s r st) h = IsSound-reconcile a r (Steps-IsSound s r st h)
  Steps-IsSound _ _ (change s r q target n st) h = Steps-IsSound s r st h
