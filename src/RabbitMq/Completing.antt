-- ===== src/RabbitMq/Completing.antt =====
-- What the passes of the storage wipe do to the StatefulSet (rabbitmq_controller.go), and that an upgrade
-- comes to its end.
use infra_operator.Base.{
  ℕ, zero, suc, Sum-cases, String, ◌≡◌, inl, inr, refl, ap, ◌∙◌, Bool, true, false, some, string_eq,
  arith, Bool-cases,
}
use infra_operator.RabbitMq.Versions.{Texts, requires_storage_wipe}
use infra_operator.RabbitMq.Upgrade.{
  no_phase, deleting_resources, waiting_for_cluster, no_reason, version_upgrade, StatefulSet,
  Cluster, Answers, given, config_version, has_wipe_container, in_upgrade, version_wipe,
  decide_wipe, record_wipe, delete_set, write_set, complete_wipe, sync_queue_type, finish,
  reconcile_set, run_phase, reconcile,
}
use infra_operator.RabbitMq.Wiping.{
  Steps, Steps-IsSound, UpgradePhase-cases, finish_keeps, Sound-no_phase,
}

complete_wipe-stateful_set : (s : Cluster) → (complete_wipe s).stateful_set ≡ s.stateful_set
unfolding complete_wipe
complete_wipe-stateful_set s = elim (UpgradePhase-cases s.upgrade_phase) [
  | inl e ↦ rw (complete_wipe, e)
  | inr (inl e) ↦ rw (complete_wipe, e)
  | inr (inr e) ↦ rw (complete_wipe, e)
]

-- Outside of an upgrade a StatefulSet without the container is written without it.
reconcile_set-container :
    (a : Answers) (s : Cluster)
    → in_upgrade s.upgrade_phase ≡ false
    → has_wipe_container s.stateful_set ≡ false
    → has_wipe_container (reconcile_set a s).stateful_set ≡ false
unfolding reconcile_set write_set
reconcile_set-container a s p h =
    let written : has_wipe_container (write_set s).stateful_set ≡ false = rw (p, h) in
    let (_, kept, _) = finish_keeps a (complete_wipe (write_set s)) in
    let ended : has_wipe_container (finish a (complete_wipe (write_set s))).stateful_set ≡ false =
      rw (kept, complete_wipe-stateful_set (write_set s)) written in
    elim (Bool-cases a.set_written) [
      | inr e ↦ ground arith
      | inl e ↦ elim (Bool-cases a.set_ready) [ inr f ↦ ground arith | inl f ↦ ground arith ]
    ]

-- The calls of a pass that all succeed, with a StatefulSet that was there before and is ready.
abbrev pub all_well : Answers
all_well = record {
  policy_applied = true;
  policy_deleted = true;
  pods_labelled = true;
  set_deleted = true;
  set_written = true;
  set_ready = true;
  services_written = true;
}

-- The same while the StatefulSet is not ready, as it is where the pass has just created it: the object
-- that `CreateOrPatch` returns has an empty status.
abbrev pub not_ready : Answers
not_ready = record all_well { set_ready = false }

module _ (t : Texts) where
  -- A number of passes that find the StatefulSet not ready.
  unfoldable pub waits : ℕ → Cluster → Cluster
  waits zero s = s
  waits (suc n) s = waits n (reconcile t not_ready s)

  delete_set-container :
      (a : Answers) (s : Cluster)
      → has_wipe_container s.stateful_set ≡ false
      → has_wipe_container (delete_set t a s).stateful_set ≡ false
  unfolding delete_set record_wipe
  delete_set-container a s h = ground arith

  decide_wipe_keeps :
      (s r : Cluster) (required : Bool)
      → decide_wipe t s ≡ inr (required, r)
      → (r.stateful_set ≡ s.stateful_set) × (r.upgrade_phase ≡ s.upgrade_phase)
  unfolding decide_wipe
  decide_wipe_keeps s r required e = ground arith

  run_phase-container :
      (a : Answers) (required : Bool) (s : Cluster)
      → s.upgrade_phase ≡ no_phase
      → has_wipe_container s.stateful_set ≡ false
      → has_wipe_container (run_phase t a required s).stateful_set ≡ false
  unfolding run_phase
  run_phase-container a false s p h = reconcile_set-container a s (rw p) h
  run_phase-container a true s p h = rw (run_phase, p) h

  goes_on :
      (a : Answers) (s : Cluster)
      → in_upgrade s.upgrade_phase ≡ true
      → reconcile t a s ≡ run_phase t a true s
  unfolding reconcile decide_wipe
  goes_on a s e = rw (reconcile, decide_wipe, e)

  -- The second pass of a wipe.
  deletes :
      (a : Answers) (s : Cluster)
      → s.upgrade_phase ≡ deleting_resources
      → reconcile t a s ≡ delete_set t a s
  unfolding run_phase
  deletes a s p = goes_on a s (rw p) ∙ simp (run_phase, p)

  -- In every state that passes and changes of the spec reach from one without an upgrade, a pass does
  -- not put the wipe container into a StatefulSet that is there without it: the old one is deleted first.
  pub reconcile-has_wipe_container :
      (s r : Cluster) (a : Answers) (set : StatefulSet)
      → Steps t s r
      → s.upgrade_phase ≡ no_phase
      → r.stateful_set ≡ some set
      → set.wipes_data ≡ false
      → has_wipe_container (reconcile t a r).stateful_set ≡ false
  unfolding reconcile decide_wipe run_phase
  reconcile-has_wipe_container s r a set st start e no_wipe =
      let (waits, _) =
        Steps-IsSound t s r st (rw start (Sound-no_phase s.stateful_set s.wipe_reason)) in
      let without : has_wipe_container r.stateful_set ≡ false = rw (e, no_wipe) in
      elim (UpgradePhase-cases r.upgrade_phase) [
        | inl p ↦ elim (Sum-cases (decide_wipe t r)) [
          | inl (x, q) ↦ rw (reconcile, q) without
          | inr ((required, r'), q) ↦
              let (same_set, same_phase) = decide_wipe_keeps r r' required q in
              rw (reconcile, q)
                (run_phase-container a required r' (same_phase ∙ p) (rw same_set without))
        ]
        | inr (inl p) ↦
            ap (λ x. has_wipe_container x.stateful_set) (deletes a r p)
            ∙ delete_set-container a r without
        | inr (inr p) ↦ elim (waits p) [ inl x ↦ cc | inr x ↦ ground arith ]
      ]

  begins :
      (s : Cluster) (target : String)
      → s.upgrade_phase ≡ no_phase
      → given s.target_version ≡ some target
      → requires_storage_wipe t s.current_version target ≡ inr true
      → reconcile t all_well s
        ≡ record s { wipe_reason = version_upgrade; upgrade_phase = deleting_resources }
  unfolding reconcile decide_wipe version_wipe run_phase
  begins s target p g w =
      let needed : version_wipe t s ≡ inr true = rw (version_wipe, g, w) in
      let idle : in_upgrade s.upgrade_phase ≡ false = rw p in
      let decided : decide_wipe t s ≡ inr (true, record s { wipe_reason = version_upgrade }) =
        rw (decide_wipe, idle, needed) in
      rw (reconcile, decided, run_phase, p)

  -- The pass that wipes, with answers that are all well.
  wipes :
      (s : Cluster)
      → s.upgrade_phase ≡ deleting_resources
      → reconcile t all_well s ≡ record_wipe t s
  unfolding delete_set
  wipes s p = deletes all_well s p ∙ ground arith

  -- A pass that waits for the cluster writes the StatefulSet, and nothing else.
  waits_once :
      (s : Cluster) → s.upgrade_phase ≡ waiting_for_cluster → reconcile t not_ready s ≡ write_set s
  unfolding run_phase reconcile_set
  waits_once s p = goes_on not_ready s (rw p) ∙ simp (run_phase, p)

  write_set_twice : (s : Cluster) → write_set (write_set s) ≡ write_set s
  unfolding write_set config_version
  write_set_twice s = ground arith

  write_set-upgrade_phase : (s : Cluster) → (write_set s).upgrade_phase ≡ s.upgrade_phase
  unfolding write_set
  write_set-upgrade_phase s = refl

  -- The first pass behind the wipe creates the StatefulSet; further ones leave it as it is.
  waits_long :
      (n : ℕ) (s : Cluster) → s.upgrade_phase ≡ waiting_for_cluster → waits (suc n) s ≡ write_set s
  unfolding waits
  waits_long zero s p = waits_once s p
  waits_long (suc n) s p =
      let phase = write_set-upgrade_phase s ∙ p in
      ap (λ x. waits (suc n) x) (waits_once s p)
      ∙ (waits_long n (write_set s) phase ∙ write_set_twice s)

  -- The pass that ends the wipe.
  ends :
      (s : Cluster)
      → s.upgrade_phase ≡ waiting_for_cluster
      → reconcile t all_well s ≡ finish all_well (complete_wipe (write_set s))
  unfolding run_phase reconcile_set
  ends s p = goes_on all_well s (rw p) ∙ simp (run_phase, p)

  finish-current_version : (s : Cluster) → (finish all_well s).current_version ≡ s.current_version
  unfolding finish sync_queue_type
  finish-current_version s = ground arith

  -- From a state without an upgrade, with a target version that requires a wipe, and with calls that
  -- succeed: one pass begins the wipe, one deletes the old StatefulSet, any positive number of passes
  -- finds the new one not ready, the first of them as it creates it, and the pass that finds it ready
  -- ends the upgrade. Then the current version is the target, no phase and no reason are left, and the
  -- StatefulSet is new, for the target and with the wipe container.
  pub upgrade_completes :
      (s : Cluster) (target : String) (n : ℕ)
      → s.upgrade_phase ≡ no_phase
      → given s.target_version ≡ some target
      → requires_storage_wipe t s.current_version target ≡ inr true
      → let done =
          reconcile t all_well (waits (suc n) (reconcile t all_well (reconcile t all_well s))) in
        (done.current_version ≡ target)
        × (done.upgrade_phase ≡ no_phase)
        × (done.wipe_reason ≡ no_reason)
        × (done.stateful_set ≡ some (record { version = target; wipes_data = true }))
  unfolding complete_wipe write_set record_wipe config_version
  upgrade_completes s target n p g w =
      let first = record s { wipe_reason = version_upgrade; upgrade_phase = deleting_resources } in
      let second = record_wipe t first in
      let third = write_set second in
      let last = complete_wipe (write_set third) in
      let begun = ap (reconcile t all_well) (begins s target p g w) ∙ wipes first refl in
      let path : reconcile t all_well
            (waits (suc n) (reconcile t all_well (reconcile t all_well s)))
          ≡ finish all_well last =
        ap (λ x. reconcile t all_well (waits (suc n) x)) begun
        ∙ (ap (reconcile t all_well) (waits_long n second refl) ∙ ends third refl) in
      let (phase, set, reason) = finish_keeps all_well last in
      let version = finish-current_version last in
      (
        ap (λ x. x.current_version) path ∙ (version ∙ ground arith),
        ap (λ x. x.upgrade_phase) path ∙ phase,
        ap (λ x. x.wipe_reason) path ∙ reason,
        ap (λ x. x.stateful_set) path ∙ (set ∙ ground arith),
      )
