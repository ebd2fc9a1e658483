-- ===== src/Messaging/ReleasedVhosts.antt =====
-- The deletion of a user keeps to its rules where it releases the vhost (rabbitmquser_controller.go).
use infra_operator.Base.{refl, inl, inr, ◌∷◌, string_eq, arith}
use infra_operator.Messaging.{User}
use infra_operator.Messaging.Calls.{get_vhost, delete_vhost, Library}
use infra_operator.Messaging.Programs.{History, Reply-event, Rules, Obeys, Obeys->>=}
use infra_operator.Messaging.Rules.{Obeys-on, Obeys-on_some, Obeys-choose, Obeys-when}
use infra_operator.Messaging.Release.{delete_orphaned_vhost, released_ref, release_vhost}
use infra_operator.Messaging.Claims.{IsVhostFree, release_rules, met, IsVhostFree-later}

module _ (lib : Library) (u : User) where
  abbrev pub rules : Rules User
  rules = release_rules lib u

  abbrev pub Free : History → Unit {0} → Type 0
  Free h y = IsVhostFree lib u h

  delete_orphaned_vhost-Obeys :
      (h : History)
      → IsVhostFree lib u h
      → Obeys rules Free h (delete_orphaned_vhost (met lib u) (released_ref u))
  unfolding delete_orphaned_vhost
  delete_orphaned_vhost-Obeys h free = (
    tt,
    λ r.
        let once = IsVhostFree-later lib u (get_vhost (released_ref u), r) h free in
        Obeys-on rules Free _ r _ _
          (λ v e.
            Obeys-when rules Free _ _ _
              (λ unclaimed. (
                (ground arith, ground arith, inl (Reply-event _ _ _ e)),
                λ d.
                    let twice =
                      IsVhostFree-later lib u (delete_vhost v, d)
                        ((get_vhost (released_ref u), r) ∷ h) once in
                    Obeys-on rules Free _ d _ _ (λ done e'. twice)
                      λ x e'. Obeys-choose rules Free _ _ _ _ (λ gone. twice) λ other. inl refl,
              ))
              λ claimed. once)
          λ x e. Obeys-choose rules Free _ _ _ _ (λ gone. once) λ other. inl refl,
  )

  pub release_vhost-Obeys :
      (h : History) → Obeys rules Free h (release_vhost lib (met lib u) (released_ref u))
  unfolding release_vhost
  release_vhost-Obeys h = (
    tt,
    λ r. (
      tt,
      λ c.
          Obeys-on_some rules Free _ c _ _ (λ x e. inl refl)
            λ running.
              Obeys-on rules Free _ r _ _
                (λ v e.
                  Obeys->>= rules Free Free _ _ _
                    (Obeys-when rules Free _ _ _
                      (λ changed. (
                        (v, refl, inr (inl (Reply-event _ _ _ e))),
                        λ d.
                            Obeys-on rules Free _ d _ _
                              (λ v' e'. inr (
                                inr (
                                  v,
                                  inr (inr (inl (Reply-event _ _ _ e))),
                                  inr (d, rw e' refl, inl refl),
                                )))
                              λ x e'.
                                Obeys-choose rules Free _ _ _ _
                                  (λ gone. inr (
                                    inr (
                                      v,
                                      inr (inr (inl (Reply-event _ _ _ e))),
                                      inr (d, rw e' gone, inl refl),
                                    )))
                                  λ other. inl refl,
                      ))
                      λ same. inr (inr (v, inr (inl (Reply-event _ _ _ e)), inl same)))
                    λ h' y free. delete_orphaned_vhost-Obeys h' free)
                λ x e.
                  Obeys-choose rules Free _ _ _ _
                    (λ gone. inr (inl (x, gone, inr (inl (Reply-event _ _ _ e)))))
                    λ other. inl refl,
    ),
  )
