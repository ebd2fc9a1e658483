-- ===== src/Messaging/Legacy.antt =====
-- internal/controller/rabbitmq/transporturl_controller.go: the users and vhosts that earlier releases
-- made for a single TransportURL (cleanupLegacyOwnedResources, deleteLegacyOwnedResources), and the old
-- vhost (removeFinalizerFromCR and deleteOrphanedCR for a RabbitMQVhost).
use infra_operator.Base.{
  String, ◌<>◌, Bool, true, false, ◌&&◌, ◌||◌, not, none, some, List, [], ◌∷◌, ◌==◌, string_eq, any,
  if◌then◌else◌,
}
use infra_operator.RabbitMq.Users.{datum}
use infra_operator.Messaging.{wrapped, is_not_found, err, User, Vhost, Secret, TransportUrl}
use infra_operator.Messaging.Calls.{
  get_vhost, get_secret, list_users, list_vhosts, update_user, update_vhost, delete_user,
  delete_vhost, create_secret, Library,
}
use infra_operator.Messaging.Programs.{pure, call, ◌>>=◌, ◌>>◌, or_leave, when, on, on_some, choose}
use infra_operator.Messaging.Finalizers.{canonical_user_name}
use infra_operator.Messaging.Creation.{cleanup_blocked_finalizer}
use infra_operator.Messaging.Release.{claims_vhost, transport_url_finalizer}
use infra_operator.Messaging.Rotation.{Fallible, raise, settle}

abbrev pub lives : Vhost → Bool
lives v = elim v.deletion_time [ none ↦ true | some d ↦ false ]

-- `deleteOrphanedCR`
unfoldable pub delete_unclaimed_vhost : String → Fallible (Unit {0})
delete_unclaimed_vhost name = call (get_vhost name) λ r.
    on r (λ v. when (lives v && not (any claims_vhost v.finalizers)) (call (delete_vhost v) settle))
      λ e. settle {A = Unit {0}} (err e)

-- The Secret with the legacy user's credentials under the canonical name, if there is none; failures
-- are logged.
unfoldable pub copy_credentials : Secret → String → Fallible (Unit {0})
copy_credentials legacy name =
    on_some (datum legacy.data_map "username")
      (λ username.
        on_some (datum legacy.data_map "password")
          (λ password. call (get_secret name) λ r.
            on r (λ s. pure tt)
              λ e. when (is_not_found e) (
                call
                  (create_secret (record {
                    name = name;
                    data_map = ("username", username) ∷ ("password", password) ∷ [];
                    owners = [];
                    finalizers = [];
                    immutable = false;
                  }))
                  λ d. pure tt))
          (pure tt))
      (pure tt)

module _ (lib : Library) (t : TransportUrl) where
  abbrev pub spec_vhost : String
  spec_vhost = if t.vhost == "" then "/" else t.vhost

  -- `removeFinalizerFromCR`
  unfoldable pub remove_finalizer_from_vhost : String → String → Fallible (Unit {0})
  remove_finalizer_from_vhost name finalizer = call (get_vhost name) λ r.
      on r
        (λ v.
          let (fs, changed) = lib.remove_finalizer v.finalizers finalizer in
          when changed (call (update_vhost (record v { finalizers = fs })) settle))
        λ e. settle {A = Unit {0}} (err e)

  unfoldable pub migrate_credentials : User → Fallible (Unit {0})
  migrate_credentials u =
      let name =
        "rabbitmq-user-"
        <> canonical_user_name lib.digest t.rabbitmq_cluster_name spec_vhost u.username in
      when (not (u.status_secret_name == "") && not (u.status_secret_name == name)) (
        call (get_secret u.status_secret_name)
          λ r. on r (λ legacy. copy_credentials legacy name) λ e. pure tt)

  unfoldable pub cleanup_user : User → Fallible (Unit {0})
  cleanup_user u = do
    let (fs, first) = lib.remove_finalizer u.finalizers transport_url_finalizer
    let (gs, second) = lib.remove_finalizer fs cleanup_blocked_finalizer
    let changed = record u { finalizers = gs }
    u' ←
        choose (first || second)
          (call (update_user changed)
            λ d. on d (λ written. pure written) λ e. settle {A = Unit {0}} (err e) >> pure changed)
          (pure u)
    migrate_credentials u'

  unfoldable pub cleanup_vhost : Vhost → Fallible (Unit {0})
  cleanup_vhost v =
      let (fs, changed) = lib.remove_finalizer v.finalizers transport_url_finalizer in
      when changed (call (update_vhost (record v { finalizers = fs })) settle)

  -- A step for each of the listed objects that the TransportURL owns.
  unfoldable pub for_owned_users : (User → Fallible (Unit {0})) → List User → Fallible (Unit {0})
  for_owned_users step [] = pure tt
  for_owned_users step (u ∷ us) = do
    when (lib.check_owner_ref_exist t.uid u.owners) (step u)
    for_owned_users step us

  unfoldable pub for_owned_vhosts : (Vhost → Fallible (Unit {0})) → List Vhost → Fallible (Unit {0})
  for_owned_vhosts step [] = pure tt
  for_owned_vhosts step (v ∷ vs) = do
    when (lib.check_owner_ref_exist t.uid v.owners) (step v)
    for_owned_vhosts step vs

  unfoldable pub for_owned :
      (User → Fallible (Unit {0})) → (Vhost → Fallible (Unit {0})) → Fallible (Unit {0})
  for_owned on_user on_vhost = do
    users ← call list_users λ r. or_leave r λ e. raise (wrapped e)
    for_owned_users on_user users
    vhosts ← call list_vhosts λ r. or_leave r λ e. raise (wrapped e)
    for_owned_vhosts on_vhost vhosts

  unfoldable pub cleanup_legacy_owned_resources : Fallible (Unit {0})
  cleanup_legacy_owned_resources = for_owned cleanup_user cleanup_vhost

  unfoldable pub delete_legacy_owned_resources : Fallible (Unit {0})
  delete_legacy_owned_resources =
      for_owned (λ u. when (not u.deleted) (call (delete_user u) settle))
        λ v. when (lives v) (call (delete_vhost v) settle)
