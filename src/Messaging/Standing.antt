-- ===== src/Messaging/Standing.antt =====
-- What a pass over a live user is held to (rabbitmquser_controller.go): permissions only in a vhost that
-- holds the user's finalizer, and the status' vhost moves only behind the deletion of the old
-- permissions. The law of controllerutil that it needs.
use infra_operator.Base.{
  String, ◌≡◌, ◌⊎◌, inl, inr, Bool, true, false, ◌∷◌, string_eq, contains, List, if◌then◌else◌,
}
use infra_operator.Messaging.{is_met, ok, User, Vhost}
use infra_operator.Messaging.Calls.{
  Request, get_user, get_vhost, get_cluster, get_secret, update_vhost, delete_user, write_secret,
  generate_password, new_client, broker_put_user, broker_set_permissions, broker_delete_permissions,
  Library,
}
use infra_operator.Messaging.Programs.{History, Event, Has, Rules}
use infra_operator.Messaging.Creation.{vhost_finalizer_of}

-- controllerutil.AddFinalizer: behind it the finalizer is there, also where nothing was changed.
pub record Adds (lib : Library) : Type 0 where
  pub added : (fs : List String) (f : String) → contains (lib.add_finalizer fs f).0 f ≡ true
  pub kept :
      (fs : List String) (f : String) → (lib.add_finalizer fs f).1 ≡ false → contains fs f ≡ true

-- The calls that change nothing in RabbitMQ.
abbrev pub is_quiet : Request → Bool
is_quiet (get_user n) = true
is_quiet (get_vhost n) = true
is_quiet (get_cluster n) = true
is_quiet (get_secret n) = true
is_quiet (update_vhost v) = true
is_quiet (delete_user u) = true
is_quiet (write_secret n v p) = true
is_quiet (generate_password n) = true
is_quiet (new_client a) = true
is_quiet _ = false

abbrev pub IsQuiet : Request → Type 0
IsQuiet q = is_quiet q ≡ true

module _ (u : User) where
  -- The pass has not reported success, and the status' vhost is what it was.
  abbrev pub IsUnmoved : User → Type 0
  IsUnmoved o = (o.status_vhost ≡ u.status_vhost) × ¬ (o.user_ready ≡ is_met)

  -- The credential selectors are all that may have changed.
  abbrev pub Same : User → Type 0
  Same o = record u { credential_selectors = o.credential_selectors } ≡ o

  abbrev pub own : String
  own = vhost_finalizer_of u

  -- The vhost was read under the spec's reference, and had the user's finalizer or was given it.
  abbrev pub WasRead : History → Vhost → Type 0
  WasRead h v = Has h (get_vhost u.vhost_ref) (ok v)

  abbrev pub WasHeld : History → Vhost → Type 0
  WasHeld h v =
      Has h (get_vhost u.vhost_ref) (ok v)
      × ((contains v.finalizers own ≡ true)
          ⊎ ((fs : List String) × (v' : Vhost) × (contains fs own ≡ true)
              × Has h (update_vhost (record v { finalizers = fs })) (ok v')))

  -- The name is that of such a vhost, or "/" without a reference.
  abbrev pub Holds : History → String → Type 0
  Holds h name =
      ((u.vhost_ref ≡ "") × (name ≡ "/")) ⊎ ((v : Vhost) × (v.vhost_name ≡ name) × WasHeld h v)

  abbrev pub Granted : History → Request → Type 0
  Granted h (broker_set_permissions name login permissions) =
      (login ≡ u.username) × (permissions ≡ u.permissions) × Holds h name
  Granted h _ = Unit

  -- Permissions are granted in such a vhost alone.
  abbrev pub Permitted : History → Request → Type 0
  Permitted h q = if is_quiet q then Unit else Granted h q

  -- The old permissions need no deletion any more.
  abbrev pub IsDropped : String → History → Type 0
  IsDropped name h =
      (u.status_vhost ≡ name)
      ⊎ (u.status_vhost ≡ "")
      ⊎ Has h (broker_delete_permissions u.status_vhost u.username) (ok tt)

  -- Behind the deletion of the old permissions, as it went.
  abbrev pub DroppedFor : String → History → Bool → Type 0
  DroppedFor name h dropped = Holds h name × (dropped ≡ true → IsDropped name h)

  -- Behind the creation of the user in RabbitMQ.
  abbrev pub WasPut : String → Bool → String → History → Type 0
  WasPut name dropped password h =
      DroppedFor name h dropped × Has h (broker_put_user u.username password u.tags) (ok tt)

  -- What was known stays known.
  pub WasHeld-later : (e : Event) (h : History) (v : Vhost) → WasHeld h v → WasHeld (e ∷ h) v
  WasHeld-later e h v (read, inl there) = (inr read, inl there)
  WasHeld-later e h v (read, inr (fs, v', on_it, written)) =
      (inr read, inr (fs, v', on_it, inr written))

  pub later : (e : Event) (h : History) (name : String) → Holds h name → Holds (e ∷ h) name
  later e h name (inl root) = inl root
  later e h name (inr (v, same, held)) = inr (v, same, WasHeld-later e h v held)

  pub DroppedFor-later :
      (e : Event) (h : History) (name : String) (b : Bool)
      → DroppedFor name h b
      → DroppedFor name (e ∷ h) b
  DroppedFor-later e h name b (held, dropped) = (
    later e h name held,
    λ yes'. elim (dropped yes') [
      | inl same ↦ inl same
      | inr (inl none_yet) ↦ inr (inl none_yet)
      | inr (inr there) ↦ inr (inr (inr there))
    ],
  )

  -- The user and its permissions were accepted, the old ones deleted where the status named another
  -- vhost.
  abbrev pub IsEstablished : History → User → Type 0
  IsEstablished h o =
      ((password : String) × Has h (broker_put_user u.username password u.tags) (ok tt))
      × Has h (broker_set_permissions o.status_vhost u.username u.permissions) (ok tt)
      × IsDropped o.status_vhost h

  abbrev pub creation_rules : Rules User
  creation_rules = record { Allowed = Permitted; Left = λ h o r. IsUnmoved o ⊎ IsEstablished h o }

  pub IsQuiet-Permitted : (h : History) (q : Request) → IsQuiet q → Permitted h q
  IsQuiet-Permitted h q e = rw e tt
