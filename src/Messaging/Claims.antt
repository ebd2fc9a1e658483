-- ===== src/Messaging/Claims.antt =====
-- What the deletion of a user is held to (reconcileDelete of rabbitmquser_controller.go): every write
-- behind the reads that allow it, and the finalizer taken off last.
use infra_operator.Base.{
  String, ◌<>◌, ◌≡◌, ◌⊎◌, inl, inr, Bool, true, false, none, ◌∷◌, ◌==◌, string_eq, List,
  if◌then◌else◌, any,
}
use infra_operator.RabbitMq.Users.{has_secret}
use infra_operator.Messaging.{is_met, Error, Result, ok, err, User, Vhost, Cluster, is_not_found}
use infra_operator.Messaging.Calls.{
  Request, get_user, get_vhost, get_cluster, get_secret, list_users, list_vhosts, update_vhost,
  delete_vhost, delete_secret, generate_password, new_client, context_error, have_node_sets,
  secret_hashes_in_sync, time_now, broker_delete_user, broker_delete_permissions, Library,
}
use infra_operator.Messaging.Programs.{
  Program, History, Event, Has, Rules, Obeys, Obeys-of_Emits, Emits,
}
use infra_operator.Messaging.Creation.{vhost_finalizer_of}
use infra_operator.Messaging.Release.{
  transport_url_finalizer, is_consumer, is_external, claims_vhost, manages_same_user, released_ref,
  name_in_broker,
}

-- The calls that only read.
abbrev pub is_read : Request → Bool
is_read (get_user n) = true
is_read (get_vhost n) = true
is_read (get_cluster n) = true
is_read (get_secret n) = true
is_read list_users = true
is_read list_vhosts = true
is_read context_error = true
is_read have_node_sets = true
is_read secret_hashes_in_sync = true
is_read time_now = true
is_read (generate_password n) = true
is_read (new_client a) = true
is_read _ = false

abbrev pub IsRead : Request → Type 0
IsRead q = is_read q ≡ true

-- Accepted, or the object was gone already.
abbrev pub is_settled {ℓ} : {A : Type ℓ} → Result A → Bool
is_settled (ok a) = true
is_settled (err e) = is_not_found e

module _ (lib : Library) (u : User) where
  abbrev pub released : Vhost → Vhost
  released v = record v {
    finalizers = (lib.remove_finalizer v.finalizers (vhost_finalizer_of u)).0;
  }

  -- The user's vhost holds its finalizer no longer: there is none, or it has been taken off.
  abbrev pub IsVhostFree : History → Type 0
  IsVhostFree h =
      (released_ref u ≡ "")
      ⊎ ((e : Error) × (is_not_found e ≡ true) × Has h (get_vhost (released_ref u)) (err e))
      ⊎ ((v : Vhost) × Has h (get_vhost (released_ref u)) (ok v)
          × (((lib.remove_finalizer v.finalizers (vhost_finalizer_of u)).1 ≡ false)
              ⊎ ((d : Result Vhost) × (is_settled d ≡ true) × Has h (update_vhost (released v)) d)))

  -- The vhost of the user's permissions: the status', or else the one read under the spec's reference,
  -- and "/" where there is no reference, the object cannot be read, or it has no name.
  abbrev pub IsBrokerVhost : History → String → Type 0
  IsBrokerVhost h name =
      (¬ (u.status_vhost ≡ "") × (name ≡ u.status_vhost))
      ⊎ ((u.status_vhost ≡ "")
          × (((u.vhost_ref ≡ "") × (name ≡ "/"))
              ⊎ ((v : Vhost) × Has h (get_vhost u.vhost_ref) (ok v)
                  × (name ≡ (if v.vhost_name == "" then "/" else v.vhost_name)))
              ⊎ ((e : Error) × Has h (get_vhost u.vhost_ref) (err e) × (name ≡ "/"))))

  abbrev pub WerePermissionsDeleted : History → Type 0
  WerePermissionsDeleted h =
      (name : String) × IsBrokerVhost h name
      × Has h (broker_delete_permissions name (name_in_broker u)) (ok tt)

  -- RabbitMQ has no user of this object any more: the cluster is gone or going, another object manages
  -- the user, or permissions and user were deleted.
  abbrev pub IsBrokerFree : History → Type 0
  IsBrokerFree h =
      ((e : Error) × (is_not_found e ≡ true) × Has h (get_cluster u.rabbitmq_cluster_name) (err e))
      ⊎ ((rabbit : Cluster) × (rabbit.deleted ≡ true)
          × Has h (get_cluster u.rabbitmq_cluster_name) (ok rabbit))
      ⊎ ((users : List User) × Has h list_users (ok users)
          × ((any (manages_same_user u) users ≡ true)
              ⊎ (WerePermissionsDeleted h × Has h (broker_delete_user (name_in_broker u)) (ok tt))))

  abbrev pub IsUnclaimed : Type 0
  IsUnclaimed =
      (lib.contains_finalizer u.finalizers transport_url_finalizer ≡ false)
      × (any is_consumer u.finalizers ≡ false)
      × (any is_external u.finalizers ≡ false)

  -- What a write needs: an update of the vhost read, a vhost without claims, a user that no other object
  -- manages and whose permissions were deleted, the user's own generated Secret.
  abbrev pub Checked : History → Request → Type 0
  Checked h (update_vhost w) =
      (v : Vhost) × (w ≡ released v) × Has h (get_vhost (released_ref u)) (ok v)
  Checked h (delete_vhost v) =
      (v.deletion_time ≡ none)
      × (any claims_vhost v.finalizers ≡ false)
      × Has h (get_vhost (released_ref u)) (ok v)
  Checked h (broker_delete_permissions name login) =
      (login ≡ name_in_broker u)
      × IsBrokerVhost h name
      × ((users : List User) × (any (manages_same_user u) users ≡ false)
          × Has h list_users (ok users))
  Checked h (broker_delete_user login) = (login ≡ name_in_broker u) × WerePermissionsDeleted h
  Checked h (delete_secret s) =
      (has_secret u.secret ≡ false)
      × (lib.check_owner_ref_exist u.uid s.owners ≡ true)
      × Has h (get_secret ("rabbitmq-user-" <> u.name)) (ok s)
  Checked h _ = ⊥

  abbrev pub release_rules : Rules User
  release_rules = record {
    Allowed = λ h q. if is_read q then Unit else Checked h q;
    Left = λ h o r. (o.finalizers ≡ u.finalizers) ⊎ (IsUnclaimed × IsVhostFree h × IsBrokerFree h);
  }

  abbrev pub met : User
  met = record u { user_ready = is_met }

  pub read-Obeys :
      {A : Type 0} (Q : A → Type 0) (F : History → Type 0)
      → ((e : Event) (h : History) → F h → F (e ∷ h))
      → (h : History) (m : Program User A) → F h
      → Emits IsRead (λ o r. o.finalizers ≡ u.finalizers) Q m
      → Obeys release_rules (λ h' a. F h' × Q a) h m
  read-Obeys Q F grow =
      Obeys-of_Emits release_rules IsRead (λ o r. o.finalizers ≡ u.finalizers) Q F grow
        (λ h q e. rw e tt) λ h o r known same. inl same

  pub IsVhostFree-later : (e : Event) (h : History) → IsVhostFree h → IsVhostFree (e ∷ h)
  IsVhostFree-later e h (inl root) = inl root
  IsVhostFree-later e h (inr (inl (x, gone, there))) = inr (inl (x, gone, inr there))
  IsVhostFree-later e h (inr (inr (v, there, inl same))) = inr (inr (v, inr there, inl same))
  IsVhostFree-later e h (inr (inr (v, there, inr (d, settled, written)))) =
      inr (inr (v, inr there, inr (d, settled, inr written)))

  pub IsBrokerVhost-later :
      (e : Event) (h : History) (name : String) → IsBrokerVhost h name → IsBrokerVhost (e ∷ h) name
  IsBrokerVhost-later e h name (inl known) = inl known
  IsBrokerVhost-later e h name (inr (empty, inl root)) = inr (empty, inl root)
  IsBrokerVhost-later e h name (inr (empty, inr (inl (v, there, same)))) =
      inr (empty, inr (inl (v, inr there, same)))
  IsBrokerVhost-later e h name (inr (empty, inr (inr (x, there, same)))) =
      inr (empty, inr (inr (x, inr there, same)))

  pub IsBrokerFree-later : (e : Event) (h : History) → IsBrokerFree h → IsBrokerFree (e ∷ h)
  IsBrokerFree-later e h (inl (x, gone, there)) = inl (x, gone, inr there)
  IsBrokerFree-later e h (inr (inl (x, gone, there))) = inr (inl (x, gone, inr there))
  IsBrokerFree-later e h (inr (inr (us, there, inl other))) = inr (inr (us, inr there, inl other))
  IsBrokerFree-later e h (inr (inr (us, there, inr ((name, its, was), deleted)))) =
      inr
        (inr (us, inr there, inr ((name, IsBrokerVhost-later e h name its, inr was), inr deleted)))
