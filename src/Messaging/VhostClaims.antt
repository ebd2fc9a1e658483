-- ===== src/Messaging/VhostClaims.antt =====
-- What the deletion of a vhost is held to (reconcileDelete of rabbitmqvhost_controller.go).
use infra_operator.Base.{
  ℕ, String, ◌≡◌, ◌⊎◌, true, false, none, some, List, string_eq, if◌then◌else◌, any, All,
}
use infra_operator.Messaging.{Error, Result, ok, err, wrapped, User, Vhost, Cluster, is_not_found}
use infra_operator.Messaging.Calls.{
  Request, Outcome, get_cluster, list_users, list_vhosts, update_vhost, time_now,
  broker_delete_vhost, Library,
}
use infra_operator.Messaging.Programs.{History, Has, Rules}
use infra_operator.Messaging.Release.{is_consumer, transport_url_finalizer}
use infra_operator.Messaging.Claims.{is_read}
use infra_operator.Messaging.Vhosts.{
  name_or_root, is_user_finalizer, find_user, is_overdue, manages_same_vhost, remove_all,
}

module _ (lib : Library) (v : Vhost) where
  -- A user's finalizer without a user of its name among those listed, on a vhost whose deletion is
  -- overdue.
  abbrev pub IsOrphan : List User → History → String → Type 0
  IsOrphan users h f =
      (is_user_finalizer f ≡ true)
      × (find_user f users ≡ none)
      × ((now : ℕ) × Has h time_now now × (is_overdue v now ≡ true))

  abbrev pub IsTrimmed : History → Vhost → Type 0
  IsTrimmed h w =
      (users : List User) × (found : List String) × Has h list_users (ok users)
      × (w ≡ record v { finalizers = remove_all lib v.finalizers found })
      × All (IsOrphan users h) found

  -- No TransportURL, by its own finalizer or by the older common one, and no user holds it.
  abbrev pub IsUnheld : Type 0
  IsUnheld =
      (lib.contains_finalizer v.finalizers transport_url_finalizer ≡ false)
      × (any is_consumer v.finalizers ≡ false)
      × (any is_user_finalizer v.finalizers ≡ false)

  abbrev pub VhostChecked : History → Request → Type 0
  VhostChecked h (update_vhost w) = IsTrimmed h w
  VhostChecked h (broker_delete_vhost name) =
      IsUnheld
      × (name ≡ name_or_root v)
      × ¬ (name ≡ "/")
      × ((vhosts : List Vhost) × Has h list_vhosts (ok vhosts)
          × (any (manages_same_vhost v) vhosts ≡ false))
  VhostChecked h _ = ⊥

  -- RabbitMQ has no vhost of this object any more.
  abbrev pub IsBrokerVhostFree : History → Type 0
  IsBrokerVhostFree h =
      ((e : Error) × (is_not_found e ≡ true) × Has h (get_cluster v.rabbitmq_cluster_name) (err e))
      ⊎ ((rabbit : Cluster) × (rabbit.deleted ≡ true)
          × Has h (get_cluster v.rabbitmq_cluster_name) (ok rabbit))
      ⊎ (name_or_root v ≡ "/")
      ⊎ ((vhosts : List Vhost) × Has h list_vhosts (ok vhosts)
          × (any (manages_same_vhost v) vhosts ≡ true))
      ⊎ Has h (broker_delete_vhost (name_or_root v)) (ok tt)

  -- What the pass leaves behind an update: the object that the server returned, or, with the error of
  -- the update, the object that was sent.
  abbrev pub LeavesUpdate : Vhost → Result Vhost → Vhost → Outcome → Type 0
  LeavesUpdate w (ok written) o r = o ≡ written
  LeavesUpdate w (err e) o r = (o ≡ w) × (r.error ≡ some (wrapped e))

  abbrev pub IsUpdateEnd : History → Vhost → Outcome → Type 0
  IsUpdateEnd h o r =
      (w : Vhost) × (d : Result Vhost) × Has h (update_vhost w) d
      × IsTrimmed h w
      × LeavesUpdate w d o r

  -- The finalizers are those that it had, or an update without the orphaned ones was sent and the object
  -- is what that update made of it, or nothing holds the vhost.
  abbrev pub vhost_rules : Rules Vhost
  vhost_rules = record {
    Allowed = λ h q. if is_read q then Unit else VhostChecked h q;
    Left = λ h o r.
        (o.finalizers ≡ v.finalizers) ⊎ IsUpdateEnd h o r ⊎ (IsUnheld × IsBrokerVhostFree h);
  }
