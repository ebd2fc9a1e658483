-- ===== src/Messaging/Rotated.antt =====
-- When the user that a rotation replaced is let go (tryReleasePendingUser of transporturl_controller.go).
use infra_operator.Base.{
  ◌≡◌, ◌⊎◌, inl, inr, ap, ◌∙◌, Bool, true, false, Option, [], ◌∷◌, string_eq, arith, if◌then◌else◌,
}
use infra_operator.Messaging.{Error, ok, err, Secret, TransportUrl, is_not_found}
use infra_operator.Messaging.Calls.{get_secret, have_node_sets, secret_hashes_in_sync, Library}
use infra_operator.Messaging.Programs.{
  Program, leave, pure, call, History, Event, Has, Reply-event, Rules, Obeys, Obeys->>=,
}
use infra_operator.Messaging.Rules.{Obeys-on, Obeys-choose}
use infra_operator.Messaging.Claims.{is_read}
use infra_operator.Messaging.Urls.{has_transport_consumer_finalizer}
use infra_operator.Messaging.Rotation.{
  is_secret_released, are_nodes_current, try_release_pending_user,
}

module _ (t : TransportUrl) where
  -- There is no previous Secret, or it is gone, or no consumer's finalizer is on it.
  abbrev pub IsSecretFree : History → Type 0
  IsSecretFree h =
      (t.previous_secret_name ≡ "")
      ⊎ ((e : Error) × (is_not_found e ≡ true) × Has h (get_secret t.previous_secret_name) (err e))
      ⊎ ((s : Secret) × (has_transport_consumer_finalizer s ≡ false)
          × Has h (get_secret t.previous_secret_name) (ok s))

  -- There are no nodes, or they run on the present Secrets.
  abbrev pub AreNodesFree : History → Type 0
  AreNodesFree h = Has h have_node_sets (ok false) ⊎ Has h secret_hashes_in_sync (ok true)

  -- Nothing is written before both are known.
  abbrev pub rotation_rules : Rules Error
  rotation_rules = record {
    Allowed = λ h q. if is_read q then Unit else (IsSecretFree h × AreNodesFree h);
    Left = λ h e r. Unit {0};
  }

  IsSecretFree-later : (e : Event) (h : History) → IsSecretFree h → IsSecretFree (e ∷ h)
  IsSecretFree-later e h (inl none_left) = inl none_left
  IsSecretFree-later e h (inr (inl (x, gone, there))) = inr (inl (x, gone, inr there))
  IsSecretFree-later e h (inr (inr (s, free, there))) = inr (inr (s, free, inr there))

  AreNodesFree-later : (e : Event) (h : History) → AreNodesFree h → AreNodesFree (e ∷ h)
  AreNodesFree-later e h (inl x) = inl (inr x)
  AreNodesFree-later e h (inr x) = inr (inr x)

  abbrev Gate : History → Type 0
  Gate h = IsSecretFree h × AreNodesFree h

  permitted : (b : Bool) (h : History) → Gate h → if b then Unit {0} else Gate h
  permitted true h gate = tt
  permitted false h gate = gate

  -- Behind the gate, any program keeps to the rules.
  free-Obeys :
      {A : Type 0} (h : History) (m : Program Error A)
      → Gate h
      → Obeys rotation_rules (λ h' a. Unit {0}) h m
  free-Obeys h (leave e r) gate = tt
  free-Obeys h (pure a) gate = tt
  free-Obeys h (call q k) gate = (
    permitted (is_read q) h gate,
    λ r.
        free-Obeys ((q, r) ∷ h) (k r)
          (IsSecretFree-later (q, r) h gate.0, AreNodesFree-later (q, r) h gate.1),
  )

  is_secret_released-Obeys :
      Obeys rotation_rules (λ h free. free ≡ true → IsSecretFree h) [] (is_secret_released t)
  unfolding is_secret_released
  is_secret_released-Obeys =
      Obeys-choose rotation_rules (λ h free. free ≡ true → IsSecretFree h) _ _ _ _
        (λ none_left free. inl (ground arith))
        λ some_left. (
          tt,
          λ r.
              Obeys-on rotation_rules (λ h free. free ≡ true → IsSecretFree h) _ r _ _
                (λ s e free. inr (inr (s, ground arith, inl (Reply-event _ _ _ e))))
                λ x e.
                  Obeys-choose rotation_rules (λ h free. free ≡ true → IsSecretFree h) _ _ _ _
                    (λ gone free. inr (inl (x, gone, inl (Reply-event _ _ _ e)))) λ other. tt,
        )

  are_nodes_current-Obeys :
      (h : History)
      → IsSecretFree h
      → Obeys rotation_rules
          (λ h' current. IsSecretFree h' × (current ≡ true → AreNodesFree h'))
          h
          are_nodes_current
  unfolding are_nodes_current
  are_nodes_current-Obeys h free = (
    tt,
    λ r.
        let once = IsSecretFree-later (have_node_sets, r) h free in
        Obeys-on rotation_rules _ _ r _ _
          (λ have e.
            Obeys-choose rotation_rules _ _ have _ _
              (λ some_nodes. (
                tt,
                λ d.
                    let twice =
                      IsSecretFree-later (secret_hashes_in_sync, d) ((have_node_sets, r) ∷ h)
                        once in
                    Obeys-on rotation_rules _ _ d _ _
                      (λ in_sync e'.
                        (twice, λ yes'. inr (inl (Reply-event _ _ _ (e' ∙ ap ok yes')))))
                      λ x e'. (twice, λ no'. ground arith),
              ))
              λ no_nodes. (once, λ yes'. inl (inl (Reply-event _ _ _ (e ∙ ap ok no_nodes)))))
          λ x e. (once, λ no'. ground arith),
  )

  abbrev pub IsOrderlyRelease : Program Error (Option TransportUrl) → Type 0
  IsOrderlyRelease m = Obeys rotation_rules (λ h x. Unit {0}) [] m

  -- The user that a rotation replaced stays usable while it is used: whatever is answered,
  -- tryReleasePendingUser writes and deletes nothing before it has found that the previous Secret is gone,
  -- unnamed or free of consumers' finalizers, and that there are no node sets or all run on the present
  -- Secrets.
  pub try_release_pending_user-IsOrderlyRelease :
      (lib : Library) → IsOrderlyRelease (try_release_pending_user lib t)
  unfolding try_release_pending_user
  try_release_pending_user-IsOrderlyRelease lib =
      Obeys->>= rotation_rules (λ h free. free ≡ true → IsSecretFree h) _ [] _ _
        is_secret_released-Obeys
        λ h1 free known.
          Obeys-choose rotation_rules _ h1 free _ _
            (λ yes'.
              Obeys->>= rotation_rules
                (λ h' current. IsSecretFree h' × (current ≡ true → AreNodesFree h')) _ h1 _ _
                (are_nodes_current-Obeys h1 (known yes'))
                λ h2 current gate.
                  Obeys-choose rotation_rules _ h2 current _ _
                    (λ yes''. free-Obeys h2 _ (gate.0, gate.1 yes'')) λ no'. tt)
            λ no'. tt
