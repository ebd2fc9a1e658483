-- ===== src/Messaging/VhostRelease.antt =====
-- The deletion of a vhost (reconcileDelete of rabbitmqvhost_controller.go): what it is held to, and that
-- it keeps to it.
use infra_operator.Base.{
  String, ◌≡◌, refl, inl, inr, false, List, [], ◌∷◌, string_eq, arith, any, All,
}
use infra_operator.Messaging.{ok, User, Vhost}
use infra_operator.Messaging.Calls.{list_users, list_vhosts, update_vhost, time_now, Library}
use infra_operator.Messaging.Programs.{
  Program, History, Event, Has, Reply-event, Obeys, Obeys->>=, Obeys-mono, Obeys-of_Emits,
}
use infra_operator.Messaging.Rules.{
  Obeys-or_leave, Obeys-on, Obeys-on_some, Obeys-choose, Obeys-when, open_client-Emits,
}
use infra_operator.Messaging.Release.{is_consumer, transport_url_finalizer}
use infra_operator.Messaging.Claims.{IsRead}
use infra_operator.Messaging.Vhosts.{
  is_user_finalizer, collect_orphaned, remove_all, remove_orphaned, delete_from_broker,
  clean_broker, reconcile_delete,
}
use infra_operator.Messaging.VhostClaims.{
  IsOrphan, IsTrimmed, IsBrokerVhostFree, IsUnheld, vhost_rules,
}

module _ (lib : Library) (v : Vhost) where
  All-later :
      (users : List User) (e : Event) (h : History) (fs : List String)
      → All (IsOrphan lib v users h) fs
      → All (IsOrphan lib v users (e ∷ h)) fs
  All-later users e h [] x = tt
  All-later users e h (f ∷ fs) ((mine, alone, (now, read, late)), rest) =
      ((mine, alone, (now, inr read, late)), All-later users e h fs rest)

  -- What the loop found: orphans alone, and nothing only where no finalizer is a user's. F is what was
  -- known of the history.
  abbrev Found : List User → List String → (History → Type 0) → History → List String → Type 0
  Found users fs F h found =
      F h × All (IsOrphan lib v users h) found × (found ≡ [] → any is_user_finalizer fs ≡ false)

  collect_orphaned-Obeys :
      (users : List User) (fs : List String) (F : History → Type 0) (h : History)
      → ((e : Event) (h : History) → F h → F (e ∷ h))
      → F h
      → Obeys (vhost_rules lib v) (Found users fs F) h (collect_orphaned v users fs)
  unfolding collect_orphaned
  collect_orphaned-Obeys users [] F h grow known = (known, tt, λ e. refl)
  collect_orphaned-Obeys users (f ∷ fs) F h grow known =
      Obeys-choose (vhost_rules lib v) _ h _ _ _
        (λ mine.
          Obeys-on_some (vhost_rules lib v) _ h _ _ _ (λ u e. inl refl)
            λ alone. (
              tt,
              λ now.
                  Obeys-choose (vhost_rules lib v) _ _ _ _ _
                    (λ late.
                      Obeys->>= (vhost_rules lib v)
                        (Found users fs (λ h'. F h' × Has h' time_now now)) _ _ _ _
                        (collect_orphaned-Obeys users fs (λ h'. F h' × Has h' time_now now) _
                          (λ e h' k. (grow e h' k.0, inr k.1)) (grow _ h known, inl refl))
                        λ h' found k. (
                          k.0.0,
                          ((mine, alone, (now, k.0.1, late)), k.1),
                          λ (e : f ∷ found ≡ []). cc,
                        ))
                    λ early. inl refl,
            ))
        λ other.
          Obeys-mono (vhost_rules lib v) (Found users fs F) _ h _
            (collect_orphaned-Obeys users fs F h grow known)
            λ h' found k. (k.0, k.1, λ e. let e' = k.2 e in ground arith)

  remove_orphaned-Obeys :
      (users : List User) (found : List String) (h : History)
      → Has h list_users (ok users)
      → Found users v.finalizers (λ h'. Unit {0}) h found
      → Obeys
          (vhost_rules lib v)
          (λ h' y. any is_user_finalizer v.finalizers ≡ false)
          h
          (remove_orphaned lib v found)
  unfolding remove_orphaned
  remove_orphaned-Obeys users [] h there k = k.2 refl
  remove_orphaned-Obeys users (f ∷ fs) h there k = (
    (users, f ∷ fs, there, refl, k.1),
    λ d.
        let w = record v { finalizers = remove_all lib v.finalizers (f ∷ fs) } in
        let event : Event = (update_vhost w, d) in
        let trimmed : IsTrimmed lib v (event ∷ h) w =
          (users, f ∷ fs, inr there, refl, All-later users event h (f ∷ fs) k.1) in
        Obeys-on (vhost_rules lib v) _ _ d _ _
          (λ written e. inr (inl (w, d, inl refl, trimmed, rw e refl)))
          λ x e. inr (inl (w, d, inl refl, trimmed, rw e (refl, refl))),
  )

  abbrev BrokerFree : History → Unit {0} → Type 0
  BrokerFree h y = IsBrokerVhostFree lib v h

  delete_from_broker-Obeys :
      (h : History) → IsUnheld lib v → Obeys (vhost_rules lib v) BrokerFree h (delete_from_broker v)
  unfolding delete_from_broker
  delete_from_broker-Obeys h unheld =
      Obeys-when (vhost_rules lib v) BrokerFree h _ _
        (λ named.
          Obeys->>= (vhost_rules lib v) (λ h' vhosts. Has h' list_vhosts (ok vhosts)) BrokerFree h _
            _
            (
              tt,
              λ r.
                  Obeys-or_leave (vhost_rules lib v) (λ h' vhosts. Has h' list_vhosts (ok vhosts)) _
                    r _ (λ vhosts e. inl (Reply-event _ _ _ e)) λ x e. inl refl,
            )
            λ h1 vhosts there.
              Obeys-when (vhost_rules lib v) BrokerFree h1 _ _
                (λ alone. (
                  (unheld, refl, ground arith, (vhosts, there, ground arith)),
                  λ d.
                      Obeys-or_leave (vhost_rules lib v) BrokerFree _ d _
                        (λ done e. inr (inr (inr (inr (inl (Reply-event _ _ _ e))))))
                        λ x e. inl refl,
                ))
                λ shared. inr (inr (inr (inl (vhosts, there, ground arith)))))
        λ root. inr (inr (inl (ground arith)))

  clean_broker-Obeys :
      (h : History) → IsUnheld lib v → Obeys (vhost_rules lib v) BrokerFree h (clean_broker lib v)
  unfolding clean_broker
  clean_broker-Obeys h unheld = (
    tt,
    λ r.
        Obeys-on (vhost_rules lib v) BrokerFree _ r _ _
          (λ rabbit e.
            Obeys-choose (vhost_rules lib v) BrokerFree _ _ _ _
              (λ going. inr (inr (unheld, inr (inl (rabbit, going, inl (Reply-event _ _ _ e))))))
              λ alive.
                Obeys-on_some (vhost_rules lib v) BrokerFree _ _ _ _
                  (λ reference e1.
                    Obeys-on_some (vhost_rules lib v) BrokerFree _ _ _ _
                      (λ admin e2.
                        Obeys->>= (vhost_rules lib v) (λ h' y. Unit {0} × Unit {0}) BrokerFree _ _ _
                          (Obeys-of_Emits (vhost_rules lib v) IsRead
                            (λ o r. o.finalizers ≡ v.finalizers) (λ y. Unit {0}) (λ h'. Unit {0})
                            (λ e h' k. tt) (λ h' q e. rw e tt) (λ h' o r k same. inl same) _ _ tt
                            (open_client-Emits IsRead _ (λ n. refl) (λ x. refl) rabbit admin _ _ _
                              (λ r. refl) (λ r. refl) λ r. refl))
                          λ h' y k. delete_from_broker-Obeys h' unheld)
                      λ e2. inl refl)
                  λ e1. inl refl)
          λ x e.
            Obeys-choose (vhost_rules lib v) BrokerFree _ _ _ _
              (λ gone. inr (inr (unheld, inl (x, gone, inl (Reply-event _ _ _ e)))))
              λ other. inl refl,
  )

  abbrev pub IsVhostDeletion : Program Vhost ⊥ → Type 0
  IsVhostDeletion m = Obeys (vhost_rules lib v) (λ h y. Unit {0}) [] m

  -- A vhost in deletion waits for its users: whatever is answered to the calls of reconcileDelete, it
  -- keeps its finalizers, or it is left as an update made it, or no finalizer of a TransportURL, neither
  -- its own nor the older common one, and no user's is on it and the cluster was gone or in deletion, it
  -- is "/", another live object stands for the vhost, or the vhost was deleted from RabbitMQ. An update
  -- takes off only finalizers of users of which none is listed, and only if the clock was read more than
  -- ten minutes behind the deletion; behind it, the pass leaves what the server returned, or the object
  -- sent together with the error. A vhost is deleted from RabbitMQ only if none of these finalizers is on
  -- it, it is not "/", and no other live object stands for it.
  pub reconcile_delete-IsVhostDeletion : IsVhostDeletion (reconcile_delete lib v)
  unfolding reconcile_delete
  reconcile_delete-IsVhostDeletion =
      Obeys->>= (vhost_rules lib v)
        (λ h y. lib.contains_finalizer v.finalizers transport_url_finalizer ≡ false) _ [] _ _
        (Obeys-when (vhost_rules lib v)
          (λ h y. lib.contains_finalizer v.finalizers transport_url_finalizer ≡ false) [] _ _
          (λ legacy. inl refl) λ new. new)
        λ h1 y new.
          Obeys->>= (vhost_rules lib v) (λ h y. any is_consumer v.finalizers ≡ false) _ h1 _ _
            (Obeys-when (vhost_rules lib v) (λ h y. any is_consumer v.finalizers ≡ false) h1 _ _
              (λ used. inl refl) λ unused. unused)
            λ h2 y unused.
              Obeys->>= (vhost_rules lib v) (λ h users. Has h list_users (ok users)) _ h2 _ _
                (
                  tt,
                  λ r.
                      Obeys-or_leave (vhost_rules lib v) (λ h users. Has h list_users (ok users)) _
                        r _ (λ users e. inl (Reply-event _ _ _ e)) λ x e. inl refl,
                )
                λ h3 users there.
                  Obeys->>= (vhost_rules lib v)
                    (Found users v.finalizers (λ h. Has h list_users (ok users))) _ h3 _ _
                    (collect_orphaned-Obeys users v.finalizers (λ h. Has h list_users (ok users)) h3
                      (λ e h k. inr k) there)
                    λ h4 found k.
                      Obeys->>= (vhost_rules lib v)
                        (λ h y. any is_user_finalizer v.finalizers ≡ false) _ h4 _ _
                        (remove_orphaned-Obeys users found h4 k.0 (tt, k.1, k.2))
                        λ h5 y free.
                          Obeys->>= (vhost_rules lib v) BrokerFree _ h5 _ _
                            (clean_broker-Obeys h5 (new, unused, free))
                            λ h6 y clean. inr (inr ((new, unused, free), clean))
