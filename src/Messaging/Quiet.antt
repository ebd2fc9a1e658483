-- ===== src/Messaging/Quiet.antt =====
-- The parts of a pass over a live user that change nothing in RabbitMQ (rabbitmquser_controller.go), and
-- that of helpers.go which opens the client.
use infra_operator.Base.{String, ◌≡◌, refl, string_eq, arith}
use infra_operator.Messaging.{is_met, User}
use infra_operator.Messaging.Calls.{Library}
use infra_operator.Messaging.Programs.{◌>>=◌, or_leave, on, choose, Emits, Emits->>=}
use infra_operator.Messaging.Rules.{Emits-choose, Emits-or_leave, Emits-on, Emits-when}
use infra_operator.Messaging.Readiness.{check_cluster_readiness}
use infra_operator.Messaging.Creation.{
  release_old_vhost, delete_orphan, await_cluster, given_credentials, generated_credentials,
  credentials,
}
use infra_operator.Messaging.Standing.{IsQuiet, IsUnmoved, Same}

module _ (u : User) where
  pub await_cluster-Emits : Emits IsQuiet (λ o r. IsUnmoved u o) (λ x. Unit {0}) (await_cluster u)
  unfolding await_cluster ◌>>=◌ or_leave check_cluster_readiness
  await_cluster-Emits = ground arith

  given_credentials-Emits :
      (name : String)
      → Emits IsQuiet (λ o r. IsUnmoved u o) (λ x. Same u x.user) (given_credentials u name)
  unfolding given_credentials ◌>>=◌ or_leave
  given_credentials-Emits name = ground arith

  generated_credentials-Emits :
      Emits IsQuiet (λ o r. IsUnmoved u o) (λ x. Same u x.user) (generated_credentials u)
  unfolding generated_credentials ◌>>=◌ or_leave on choose
  generated_credentials-Emits = ground arith

  pub credentials-Emits : Emits IsQuiet (λ o r. IsUnmoved u o) (λ x. Same u x.user) (credentials u)
  unfolding credentials
  credentials-Emits =
      Emits-choose IsQuiet (λ o r. IsUnmoved u o) (λ x. Same u x.user) _ _ _
        (given_credentials-Emits _) generated_credentials-Emits

module _ (lib : Library) (u : User) (fresh : ¬ (u.user_ready ≡ is_met)) where
  pub release_old_vhost-Emits :
      Emits IsQuiet (λ o r. IsUnmoved u o) (λ x. Unit {0}) (release_old_vhost lib u)
  unfolding release_old_vhost
  release_old_vhost-Emits =
      Emits-when IsQuiet (λ o r. IsUnmoved u o) _ _
        (
          refl,
          λ r.
              Emits-on IsQuiet (λ o r. IsUnmoved u o) (λ x. Unit {0}) r _ _
                (λ v.
                  Emits-when IsQuiet (λ o r. IsUnmoved u o) _ _
                    (
                      refl,
                      λ d.
                          Emits-on IsQuiet (λ o r. IsUnmoved u o) (λ x. Unit {0}) d _ _ (λ v'. tt)
                            λ e. (refl, fresh),
                    ))
                λ e.
                  Emits-choose IsQuiet (λ o r. IsUnmoved u o) (λ x. Unit {0}) _ _ _ tt
                    (refl, fresh),
        )

  pub delete_orphan-Emits :
      Emits IsQuiet (λ o r. IsUnmoved u o) (λ x. Unit {0}) (delete_orphan lib u)
  unfolding delete_orphan
  delete_orphan-Emits =
      Emits->>= IsQuiet (λ o r. IsUnmoved u o) (λ x. Unit {0}) (λ x. Unit {0}) _ _
        (
          refl,
          λ r.
              Emits-or_leave IsQuiet (λ o r. IsUnmoved u o) (λ x. Unit {0}) r _ (λ x. tt)
                λ e. (refl, fresh),
        )
        λ again t.
          Emits->>= IsQuiet (λ o r. IsUnmoved u o) (λ x. Unit {0}) (λ x. Unit {0}) _ _
            (Emits-when IsQuiet (λ o r. IsUnmoved u o) _ _ (refl, fresh))
            λ x y. (
              refl,
              λ d.
                  Emits-on IsQuiet (λ o r. IsUnmoved u o) (λ x. Unit {0}) d _ _ (λ x. (refl, fresh))
                    λ e.
                      Emits-choose IsQuiet (λ o r. IsUnmoved u o) (λ x. Unit {0}) _ _ _
                        (refl, fresh) (refl, fresh),
            )
