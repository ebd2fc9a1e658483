-- ===== src/Messaging/Protected.antt =====
-- A pass over a live user keeps to its rules (rabbitmquser_controller.go).
use mathlib.Core.Path.{subst}
use infra_operator.Base.{ℕ, String, ◌≡◌, refl, inl, inr, Option, [], ◌∷◌, string_eq, arith}
use infra_operator.RabbitMq.Users
use infra_operator.Messaging.{is_met, in_error, ok, User, Cluster}
use infra_operator.Messaging.Calls.{broker_set_permissions, Library}
use infra_operator.Messaging.Programs.{
  Program, ◌>>◌, History, Event, Has, Reply-event, Obeys, Obeys->>=, Obeys-of_Emits, Emits,
}
use infra_operator.Messaging.Rules.{
  Obeys-or_leave, Obeys-on, Obeys-choose, Obeys-when, Emits-when, open_client-Emits,
}
use infra_operator.Messaging.Readiness.{open_client}
use infra_operator.Messaging.Creation.{
  protect_vhost, vhost_of, drop_old_permissions, establish, reconcile_normal, reconcile_live,
}
use infra_operator.Messaging.Standing.{
  Adds, IsQuiet, IsUnmoved, Same, own, WasRead, WasHeld, Holds, DroppedFor, WasPut, later,
  DroppedFor-later, creation_rules, IsQuiet-Permitted,
}
use infra_operator.Messaging.Quiet.{
  await_cluster-Emits, credentials-Emits, release_old_vhost-Emits, delete_orphan-Emits,
}

module _ (lib : Library) (laws : Adds lib) (u : User) (fresh : ¬ (u.user_ready ≡ is_met)) where
  protect_vhost-Obeys :
      (seconds : ℕ) (h : History)
      → Obeys (creation_rules u) (λ h' v. WasHeld u h' v) h (protect_vhost lib u seconds)
  unfolding protect_vhost
  protect_vhost-Obeys seconds h =
      Obeys->>= (creation_rules u) (WasRead u) (WasHeld u) h _ _
        (
          tt,
          λ r.
              Obeys-or_leave (creation_rules u) (WasRead u) _ r _ (λ v e. inl (Reply-event _ _ _ e))
                (λ e e'. inl (ground arith)),
        )
        λ h' v hv.
          Obeys->>= (creation_rules u) (λ h'' x. WasHeld u h'' v) (WasHeld u) h' _ _
            (Obeys-when (creation_rules u) (λ h'' x. WasHeld u h'' v) h' _ _
              (λ changed. (
                tt,
                λ d.
                    Obeys-on (creation_rules u) (λ h'' x. WasHeld u h'' v) _ d _ _
                      (λ v' e. (
                        inr hv,
                        inr (_, v', laws.added v.finalizers (own u), inl (Reply-event _ _ _ e)),
                      ))
                      (λ e e'. inl (ground arith)),
              ))
              (λ same. (hv, inl (laws.kept _ _ same))))
            λ h'' x held. held

  vhost_of-Obeys : (h : History) → Obeys (creation_rules u) (Holds u) h (vhost_of lib u)
  unfolding vhost_of
  vhost_of-Obeys h =
      Obeys-choose (creation_rules u) (Holds u) h _ _ _ (λ none_given. inl (ground arith, refl))
        λ given.
          Obeys->>= (creation_rules u) (WasHeld u) (Holds u) h _ _ (protect_vhost-Obeys 2 h)
            λ h' v held. inr (v, refl, held)

  -- The user as the status is set, whatever the selectors and the name of the Secret.
  abbrev with_secret : Option Users.CredentialSelectors → String → User
  with_secret x s = record u {
    credential_selectors = x;
    status_secret_name = s;
    status_username = u.username;
    status_vhost_ref = u.vhost_ref;
  }

  drop_old_permissions-Obeys :
      (x : Option Users.CredentialSelectors) (s name : String) (h : History)
      → Holds u h name
      → Obeys (creation_rules u) (DroppedFor u name) h (drop_old_permissions (with_secret x s) name)
  unfolding drop_old_permissions
  drop_old_permissions-Obeys x s name h held =
      Obeys-choose (creation_rules u) (DroppedFor u name) h _ _ _
        (λ moved. (
          tt,
          λ d.
              Obeys-on (creation_rules u) (DroppedFor u name) _ d _ _
                (λ done e.
                  (later u (_, d) h name held, λ yes'. inr (inr (inl (Reply-event _ _ _ e)))))
                (λ e e'. (later u (_, d) h name held, ground arith)),
        ))
        λ unmoved. (held, λ yes'. ground arith)

  establish-Obeys :
      (x : Option Users.CredentialSelectors) (s name password : String) (h : History)
      → Holds u h name
      → Obeys (creation_rules u) (λ h' y. Unit {0}) h (establish (with_secret x s) name password)
  unfolding establish
  establish-Obeys x s name password h held =
      Obeys->>= (creation_rules u) (DroppedFor u name) _ h _ _
        (drop_old_permissions-Obeys x s name h held)
        λ h1 dropped known.
          Obeys->>= (creation_rules u) (λ h' y. WasPut u name dropped password h') _ h1 _ _
            (
              tt,
              λ d.
                  Obeys-or_leave (creation_rules u) (λ h' y. WasPut u name dropped password h') _ d
                    _
                    (λ done e.
                      (DroppedFor-later u (_, d) h1 name dropped known, inl (Reply-event _ _ _ e)))
                    λ e e'. inl (ground arith),
            )
            λ h2 y put.
              Obeys->>= (creation_rules u)
                (λ h' y.
                  WasPut u name dropped password h'
                  × Has h' (broker_set_permissions name u.username u.permissions) (ok tt))
                _ h2 _ _
                (
                  (refl, refl, put.0.0),
                  λ d.
                      Obeys-or_leave (creation_rules u)
                        (λ h' y.
                          WasPut u name dropped password h'
                          × Has h' (broker_set_permissions name u.username u.permissions) (ok tt))
                        _ d _
                        (λ done e. (
                          (DroppedFor-later u (_, d) h2 name dropped put.0, inr put.1),
                          inl (Reply-event _ _ _ e),
                        ))
                        λ e e'. inl (ground arith),
                )
                λ h3 y set.
                  Obeys-choose (creation_rules u) _ h3 dropped _ _
                    (λ yes'. inr ((password, set.0.1), set.1, set.0.0.1 yes'))
                    λ no'. inl (ground arith)

  quiet-Obeys :
      {A : Type 0} (Q : A → Type 0) (F : History → Type 0)
      → ((e : Event) (h : History) → F h → F (e ∷ h))
      → (h : History) (m : Program User A) → F h
      → Emits IsQuiet (λ o r. IsUnmoved u o) Q m
      → Obeys (creation_rules u) (λ h' a. F h' × Q a) h m
  quiet-Obeys Q F grow =
      Obeys-of_Emits (creation_rules u) IsQuiet (λ o r. IsUnmoved u o) Q F grow
        (IsQuiet-Permitted u) λ h o r known unmoved. inl unmoved

  -- The last part, once the credentials are known.
  connect-Obeys :
      (rabbit : Cluster) (admin s name password : String) (x : Option Users.CredentialSelectors)
      (h : History)
      → Holds u h name
      → Obeys
          (creation_rules u)
          (λ h' y. Unit {0})
          h
          (open_client rabbit admin
              (record (with_secret x s) { user_ready = in_error })
              (record (with_secret x s) { user_ready = in_error })
              (with_secret x s)
            >> establish (with_secret x s) name password)
  connect-Obeys rabbit admin s name password x h held =
      Obeys->>= (creation_rules u) (λ h' y. Holds u h' name × Unit {0}) _ h _ _
        (quiet-Obeys (λ y. Unit {0}) (λ h'. Holds u h' name) (λ e h'. later u e h' name) h _ held
          (open_client-Emits IsQuiet (λ o r. IsUnmoved u o) (λ n. refl) (λ y. refl) rabbit admin _ _
            _ (λ r. ground arith) (λ r. ground arith) λ r. ground arith))
        λ h' y known. establish-Obeys x s name password h' known.0

  with_credentials-Obeys :
      (rabbit : Cluster) (admin s name password : String) (o : User) (h : History)
      → Same u o
      → Holds u h name
      → Obeys
          (creation_rules u)
          (λ h' y. Unit {0})
          h
          (let o' = record o {
            status_secret_name = s;
            status_username = o.username;
            status_vhost_ref = o.vhost_ref;
          } in
            open_client rabbit admin
              (record o' { user_ready = in_error })
              (record o' { user_ready = in_error })
              o'
            >> establish o' name password)
  with_credentials-Obeys rabbit admin s name password o h same held =
      subst
        (λ (o : User).
          Obeys (creation_rules u) (λ h' y. Unit {0}) h
            (let o' = record o {
              status_secret_name = s;
              status_username = o.username;
              status_vhost_ref = o.vhost_ref;
            } in
              open_client rabbit admin (record o' { user_ready = in_error })
                (record o' { user_ready = in_error }) o'
              >> establish o' name password))
        same (connect-Obeys rabbit admin s name password o.credential_selectors h held)

  reconcile_normal-Obeys :
      (h : History) → Obeys (creation_rules u) (λ h' y. Unit {0}) h (reconcile_normal lib u)
  unfolding reconcile_normal
  reconcile_normal-Obeys h =
      Obeys->>= (creation_rules u) (λ h' y. Unit {0} × Unit {0}) _ h _ _
        (quiet-Obeys (λ y. Unit {0}) (λ h'. Unit {0}) (λ e h' k. tt) h _ tt
          (release_old_vhost-Emits lib u fresh))
        λ h1 y k.
          Obeys->>= (creation_rules u) (λ h' y. Unit {0} × Unit {0}) _ h1 _ _
            (quiet-Obeys (λ y. Unit {0}) (λ h'. Unit {0}) (λ e h' k. tt) h1 _ tt
              (Emits-when IsQuiet (λ o r. IsUnmoved u o) _ _ (delete_orphan-Emits lib u fresh)))
            λ h2 y k.
              Obeys->>= (creation_rules u) (Holds u) _ h2 _ _ (vhost_of-Obeys h2) λ h3 name held.
                Obeys->>= (creation_rules u) (λ h' y. Holds u h' name × Unit {0}) _ h3 _ _
                  (quiet-Obeys (λ y. Unit {0}) (λ h'. Holds u h' name) (λ e h'. later u e h' name)
                    h3 _ held (await_cluster-Emits u))
                  λ h4 (rabbit, admin) known.
                    Obeys->>= (creation_rules u) (λ h' c. Holds u h' name × Same u c.user) _ h4 _ _
                      (quiet-Obeys (λ c. Same u c.user) (λ h'. Holds u h' name)
                        (λ e h'. later u e h' name) h4 _ known.0 (credentials-Emits u))
                      λ h5 c found.
                        with_credentials-Obeys rabbit admin c.secret_name name c.password c.user h5
                          found.1 found.0

  -- No user's finalizer on the vhost, no permissions in it. Let AddFinalizer put the finalizer on, and
  -- the user's condition not be met yet. Whatever is answered to the calls of a pass over a live user,
  -- permissions are set for the user's name alone, as they are in its spec, in a vhost that was read under
  -- the spec's reference and had the user's finalizer or was given it in the pass, or in "/" without a
  -- reference. And the pass leaves the status' vhost as it was and reports no success, or user and
  -- permissions were accepted and the permissions in another vhost that the status named were deleted.
  pub reconcile_live-Obeys : Obeys (creation_rules u) (λ h' y. Unit {0}) [] (reconcile_live lib u)
  unfolding reconcile_live
  reconcile_live-Obeys =
      Obeys->>= (creation_rules u) (λ h' y. Unit {0} × Unit {0}) _ [] _ _
        (quiet-Obeys (λ y. Unit {0}) (λ h'. Unit {0}) (λ e h' k. tt) [] _ tt
          (Emits-when IsQuiet (λ o r. IsUnmoved u o) _ _ (refl, fresh)))
        λ h1 y k.
          Obeys->>= (creation_rules u) (λ h' y. Unit {0}) _ h1 _ _
            (Obeys-when (creation_rules u) (λ h' y. Unit {0}) h1 _ _
              (λ given.
                Obeys->>= (creation_rules u) (λ h' y. Unit {0}) _ h1 _ _
                  (Obeys-when (creation_rules u) (λ h' y. Unit {0}) h1 _ _
                    (λ unnamed. inl (ground arith)) λ named. tt)
                  λ h' y k.
                    Obeys->>= (creation_rules u) (WasHeld u) _ h' _ _ (protect_vhost-Obeys 0 h')
                      λ h'' v held. tt)
              λ none_given. tt)
            λ h2 y k. reconcile_normal-Obeys h2
