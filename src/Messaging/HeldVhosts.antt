-- ===== src/Messaging/HeldVhosts.antt =====
-- What the user controller's finalizer on a vhost is worth: rabbitmquser_controller.go against
-- rabbitmqvhost_controller.go.
use infra_operator.Base.{
  ◌≡◌, ◌⊎◌, inl, inr, Bool, true, String, List, [], ◌∷◌, string_eq, contains, any, if◌then◌else◌,
  ap, ◌∙◌, arith,
}
use infra_operator.Messaging.{User, Vhost}
use infra_operator.Messaging.Claims.{is_read}
use infra_operator.Messaging.Calls.{Request, update_vhost, broker_delete_vhost, Library}
use infra_operator.Messaging.Finalizers.{user_finalizer_known}
use infra_operator.Messaging.Programs.{Program, History, Rules, Obeys, Obeys-weaken}
use infra_operator.Messaging.Creation.{vhost_finalizer_of}
use infra_operator.Messaging.Vhosts.{is_user_finalizer, reconcile_delete}
use infra_operator.Messaging.VhostClaims.{IsTrimmed, IsUnheld, IsUpdateEnd, vhost_rules}
use infra_operator.Messaging.VhostRelease.{reconcile_delete-IsVhostDeletion}

is_user_finalizer_own :
    (u : User) → ¬ (u.username ≡ "") → is_user_finalizer (vhost_finalizer_of u) ≡ true
unfolding is_user_finalizer
is_user_finalizer_own u named = ground (arith, user_finalizer_known u.username named)

any_of_contains :
    (p : String → Bool) (fs : List String) (f : String)
    → p f ≡ true
    → contains fs f ≡ true
    → any p fs ≡ true
any_of_contains p [] f holds there = cc
any_of_contains p (g ∷ gs) f holds there =
    ground (arith, any_of_contains p gs f holds, λ (same : g ≡ f). ap p same ∙ holds)

-- The only write that a held vhost's deletion may make: the update without orphaned finalizers.
abbrev pub HeldChecked : Library → Vhost → History → Request → Type 0
HeldChecked lib v h (update_vhost w) = IsTrimmed lib v h w
HeldChecked lib v h _ = ⊥

-- Those of a held vhost's deletion: nothing is deleted, and the pass leaves the vhost's finalizers, or
-- what such an update made of the vhost.
abbrev pub held_rules : Library → Vhost → Rules Vhost
held_rules lib v = record {
  Allowed = λ h q. if is_read q then Unit else HeldChecked lib v h q;
  Left = λ h o r. (o.finalizers ≡ v.finalizers) ⊎ IsUpdateEnd lib v h o r;
}

abbrev pub IsHeldVhostDeletion : Library → Vhost → Program Vhost ⊥ → Type 0
IsHeldVhostDeletion lib v m = Obeys (held_rules lib v) (λ h y. Unit {0}) [] m

-- Of the calls that a vhost's deletion may make, one that deletes the vhost needs it unheld.
HeldChecked-of :
    (lib : Library) (v : Vhost)
    → ¬ IsUnheld lib v
    → (h : History) (q : Request) → (vhost_rules lib v).Allowed h q
    → (held_rules lib v).Allowed h q
HeldChecked-of lib v held h (update_vhost w) allowed = allowed
HeldChecked-of lib v held h (broker_delete_vhost name) allowed = absurd (held allowed.0)
HeldChecked-of lib v held h _ allowed = allowed

-- The finalizer that a user with a name put on a vhost holds it: no pass of the vhost's deletion deletes
-- the vhost from RabbitMQ, or writes anything but updates of the vhost without finalizers of users of
-- which none is listed, more than ten minutes behind the deletion. The pass leaves all finalizers, the
-- controller's own included, or what the server returned to such an update, or the object that it sent
-- together with the update's error.
pub reconcile_delete-IsHeldVhostDeletion :
    (lib : Library) (u : User) (v : Vhost)
    → ¬ (u.username ≡ "")
    → contains v.finalizers (vhost_finalizer_of u) ≡ true
    → IsHeldVhostDeletion lib v (reconcile_delete lib v)
reconcile_delete-IsHeldVhostDeletion lib u v named there =
    Obeys-weaken (vhost_rules lib v) (held_rules lib v) (λ h y. Unit {0}) [] _
      (HeldChecked-of lib v held)
      (λ h o r left. elim left [
        | inl same ↦ inl same
        | inr (inl sent) ↦ inr sent
        | inr (inr (unheld, clean)) ↦ absurd (held unheld)
      ])
      (reconcile_delete-IsVhostDeletion lib v)
  where
    held : ¬ IsUnheld lib v
    held unheld = ground (
      arith,
      any_of_contains is_user_finalizer v.finalizers (vhost_finalizer_of u)
          (is_user_finalizer_own u named) there,
      unheld.2,
    )
