-- ===== src/RabbitMq/Defaults.antt =====
-- The defaults of a RabbitMq object (rabbitmq_webhook.go): they can be applied again, and their queue
-- type passes the check.
use native.Mathlib.Decide.{ℕ_discrete}
use infra_operator.Base.{
  String, ◌≡◌, refl, Bool, false, Option, none, some, ◌==◌, nat_eq, ◌⊎◌, inl, inr, arith,
  Bool-cases,
}
use infra_operator.Base.Integers.{ℤ, pos, int_eq, int_beq}
use infra_operator.RabbitMq.Versions.{Texts}
use infra_operator.RabbitMq.Clusters.{
  Tls, RabbitMqSpec, Existing, found, not_found, failed, queue_type_mirrored, queue_type_quorum,
  is_empty, targets4, default_tls, default_grace, default_queue_type, default_core, default_spec,
}

default_tls_again : (s : Tls) → default_tls (default_tls s) ≡ default_tls s
default_tls_again s = ground arith

apart : (pos 60 == pos 604800) ≡ false
unfolding int_eq int_beq nat_eq ℕ_discrete
apart = refl

default_grace_again : (n : Option ℤ) → default_grace (default_grace n) ≡ default_grace n
default_grace_again none = refl
default_grace_again (some n) = elim (Bool-cases (n == pos 604800)) [
  | inl e ↦ rw (e, apart)
  | inr e ↦ ground arith
]

module _ (t : Texts) where
  default_queue_type_again :
      (is_new : Bool) (target q : Option String)
      → default_queue_type t is_new target (default_queue_type t is_new target q)
        ≡ default_queue_type t is_new target q
  unfolding is_empty
  default_queue_type_again is_new target none = ground arith
  default_queue_type_again is_new target (some q) = ground arith

  -- The defaults of the spec are those of the defaulted spec.
  pub default_spec_idempotent :
      (image : String) (is_new : Bool) (s : RabbitMqSpec)
      → default_spec t image is_new (default_spec t image is_new s) ≡ default_spec t image is_new s
  unfolding default_spec default_core
  default_spec_idempotent image is_new s = ground (
    arith,
    default_tls_again s.core.tls,
    default_grace_again s.core.termination_grace_period_seconds,
    default_queue_type_again is_new s.core.target_version s.core.queue_type,
  )

  -- The two queue types that are allowed.
  abbrev pub IsAllowed : String → Type 0
  IsAllowed q = (q ≡ queue_type_mirrored) ⊎ (q ≡ queue_type_quorum)

  -- It is empty or allowed.
  abbrev pub MayBe : Option String → Type 0
  MayBe none = Unit
  MayBe (some q) = (q ≡ "") ⊎ IsAllowed q

  -- It is an allowed queue type, and not Mirrored where the target is RabbitMQ 4 or later.
  abbrev pub IsFit : Option String → Option String → Type 0
  IsFit target q =
      (x : String) × (q ≡ some x)
      × IsAllowed x
      × ((x ≡ queue_type_mirrored) → targets4 t target ≡ false)

  -- What a cluster that is there has, is allowed; its status may be empty.
  abbrev pub HasAllowed : Existing → Type 0
  HasAllowed failed = Unit
  HasAllowed not_found = Unit
  HasAllowed (found r) = MayBe r.spec.core.queue_type × MayBe (some r.status_queue_type)
