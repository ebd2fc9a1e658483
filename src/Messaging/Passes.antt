-- ===== src/Messaging/Passes.antt =====
-- Reconcile of rabbitmquser_controller.go, rabbitmqvhost_controller.go and rabbitmqpolicy_controller.go:
-- the read of the object, the fresh conditions, the way to the handler, and the deferred patch. The
-- calls of a vhost's and a policy's pass start behind the read that the watch asked for.
use infra_operator.Base.{Bool, false, ◌&&◌, none, some, if◌then◌else◌, String}
use infra_operator.Messaging.{
  Condition, unset, is_met, requested, in_error, deleting, Error, is_not_found, Result, ok, err,
  User, Vhost, Policy,
}
use infra_operator.Messaging.Calls.{
  get_user, patch_user, patch_vhost, patch_policy, Outcome, Library,
}
use infra_operator.Messaging.Programs.{Program, leave, pure, call, on, choose, stop, fail}
use infra_operator.Messaging.Creation
use infra_operator.Messaging.Release
use infra_operator.Messaging.Vhosts
use infra_operator.Messaging.Policies

-- Where the overall condition is unknown it becomes lib-common's summary of the other one.
abbrev pub summary : Library → Condition → Condition → Condition
summary lib ready own = elim ready [
  | unset ↦ lib.mirror own
  | is_met ↦ is_met
  | requested ↦ requested
  | in_error ↦ in_error
  | deleting ↦ deleting
]

-- The error of the patch replaces that of the pass, unless it is forgiven.
abbrev pub after_patch : (Error → Bool) → Outcome → Result (Unit {0}) → Outcome
after_patch forgiven r (ok d) = r
after_patch forgiven r (err e) = if forgiven e then r else record r { error = some e }

module _ (lib : Library) where
  unfoldable pub finish_user : User → Program User ⊥ → Program (Unit {0}) Outcome
  finish_user before (leave u r) =
      call (patch_user before (record u { ready = summary lib u.ready u.user_ready }))
        λ d. pure (after_patch (λ e. u.deleted && is_not_found e) r d)
  finish_user before (pure a) = absurd a
  finish_user before (call q k) = call q (λ r. finish_user before (k r))

  unfoldable pub finish_vhost : Vhost → Program Vhost ⊥ → Program (Unit {0}) Outcome
  finish_vhost before (leave v r) =
      call (patch_vhost before (record v { ready = summary lib v.ready v.vhost_ready }))
        λ d. pure (after_patch (λ e. false) r d)
  finish_vhost before (pure a) = absurd a
  finish_vhost before (call q k) = call q (λ r. finish_vhost before (k r))

  unfoldable pub finish_policy : Policy → Program Policy ⊥ → Program (Unit {0}) Outcome
  finish_policy before (leave p r) =
      call (patch_policy before (record p { ready = summary lib p.ready p.policy_ready }))
        λ d. pure (after_patch (λ e. false) r d)
  finish_policy before (pure a) = absurd a
  finish_policy before (call q k) = call q (λ r. finish_policy before (k r))

  unfoldable pub user_pass : User → Program User ⊥
  user_pass u = choose u.deleted (Release.reconcile_delete lib u) (Creation.reconcile_live lib u)

  -- `Reconcile` of a user.
  unfoldable pub reconcile_user : String → Program (Unit {0}) Outcome
  reconcile_user name = call (get_user name) λ r.
      on r (λ u. finish_user u (user_pass (record u { user_ready = unset; ready = unset })))
        λ e. pure (if is_not_found e then stop else fail e)

  unfoldable pub vhost_pass : Vhost → Program Vhost ⊥
  vhost_pass v = elim v.deletion_time [
    | none ↦ Vhosts.reconcile_live lib v
    | some t ↦ Vhosts.reconcile_delete lib v
  ]

  -- `Reconcile` of a vhost that was read.
  unfoldable pub reconcile_vhost : Vhost → Program (Unit {0}) Outcome
  reconcile_vhost v = finish_vhost v (vhost_pass (record v { vhost_ready = unset; ready = unset }))

  unfoldable pub policy_pass : Policy → Program Policy ⊥
  policy_pass p = choose p.deleted (Policies.reconcile_delete lib p) (Policies.reconcile_live lib p)

  -- `Reconcile` of a policy that was read.
  unfoldable pub reconcile_policy : Policy → Program (Unit {0}) Outcome
  reconcile_policy p =
      finish_policy p (policy_pass (record p { policy_ready = unset; ready = unset }))
