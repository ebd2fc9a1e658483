-- ===== src/Messaging/Calls.antt =====
-- The calls of the API server and of RabbitMQ's management API that the controllers of
-- internal/controller/rabbitmq make, what is answered, the outcome of a pass, and the libraries.
use infra_operator.Base.{ℕ, String, Bool, Option, List}
use infra_operator.RabbitMq.Users.{RabbitMqUserPermissions, SecretData}
use infra_operator.Messaging.{
  Condition, Error, Result, User, Vhost, Policy, Cluster, Secret, TransportUrl,
}

-- What `rabbitmqapi.NewClient` is given.
pub record Access : Type 0 where
  pub base_url : String
  pub login : Option String
  pub login_password : Option String
  pub tls_enabled : Bool
  pub ca_cert : Option String

-- The calls. A patch carries the object before and after; CreateOrUpdate, the function that changes the
-- object; CreateOrPatchSecret answers with the hash and whether anything was written.
pub data Request : Type 0 where
  get_user : String → Request
  get_vhost : String → Request
  get_cluster : String → Request
  get_secret : String → Request
  list_users list_vhosts : Request
  update_vhost : Vhost → Request
  delete_user : User → Request
  delete_vhost : Vhost → Request
  delete_secret : Secret → Request
  write_secret : String → String → String → Request
  patch_user : User → User → Request
  patch_vhost : Vhost → Vhost → Request
  patch_policy : Policy → Policy → Request
  patch_transport_url : TransportUrl → TransportUrl → Request
  update_user : User → Request
  update_secret : Secret → Request
  create_secret : Secret → Request
  create_or_update_vhost : String → (Vhost → Result Vhost) → Request
  create_or_update_user : String → (User → Result User) → Request
  create_or_patch_secret : Secret → Request
  have_node_sets secret_hashes_in_sync : Request
  context_error : Request
  time_now : Request
  generate_password : ℕ → Request
  new_client : Access → Request
  broker_put_user : String → String → List String → Request
  broker_set_permissions : String → String → RabbitMqUserPermissions → Request
  broker_delete_permissions : String → String → Request
  broker_delete_user : String → Request
  broker_put_vhost : String → Request
  broker_delete_vhost : String → Request
  broker_put_policy : String → Policy → Request
  broker_delete_policy : String → String → Request

abbrev pub Done : Type 0
Done = Result (Unit {0})

abbrev pub Reply : Request → Type 0
Reply (get_user n) = Result User
Reply (get_vhost n) = Result Vhost
Reply (get_cluster n) = Result Cluster
Reply (get_secret n) = Result Secret
Reply list_users = Result (List User)
Reply list_vhosts = Result (List Vhost)
Reply (update_vhost v) = Result Vhost
Reply (delete_user u) = Done
Reply (delete_vhost v) = Done
Reply (delete_secret s) = Done
Reply (write_secret n u p) = Done
Reply (patch_user a b) = Done
Reply (patch_vhost a b) = Done
Reply (patch_policy a b) = Done
Reply (patch_transport_url a b) = Done
Reply (update_user u) = Result User
Reply (update_secret s) = Result Secret
Reply (create_secret s) = Done
Reply (create_or_update_vhost n f) = Done
Reply (create_or_update_user n f) = Done
Reply (create_or_patch_secret s) = Result (String × Bool)
Reply have_node_sets = Result Bool
Reply secret_hashes_in_sync = Result Bool
Reply context_error = Option Error
Reply time_now = ℕ
Reply (generate_password n) = Result String
Reply (new_client a) = Done
Reply (broker_put_user n p t) = Done
Reply (broker_set_permissions v n p) = Done
Reply (broker_delete_permissions v n) = Done
Reply (broker_delete_user n) = Done
Reply (broker_put_vhost v) = Done
Reply (broker_delete_vhost v) = Done
Reply (broker_put_policy v p) = Done
Reply (broker_delete_policy v n) = Done

-- `ctrl.Result` with the error: the seconds until the next pass, 0 for none.
pub record Outcome : Type 0 where
  pub requeue_after : ℕ
  pub requeue : Bool
  pub error : Option Error

-- The libraries: controllerutil's functions on finalizers, which return the list and whether it was
-- changed, lib-common's test of the owners and its overall condition, and whether the JSON decoder takes
-- a policy's definition. For the URLs: SHA-256's first four bytes in hexadecimal, lib-common's hash of a
-- Secret, its owners, and whether all conditions are met; Go's net, url and fmt.
pub record Library : Type 0 where
  pub add_finalizer : List String → String → List String × Bool
  pub remove_finalizer : List String → String → List String × Bool
  pub contains_finalizer : List String → String → Bool
  pub check_owner_ref_exist : String → List String → Bool
  pub mirror : Condition → Condition
  pub unmarshals : String → Bool
  pub digest : String → String
  pub hash : SecretData → Result String
  pub set_owner : String → List String → Result (List String)
  pub all_met : Condition → Bool
  pub join_host_port : String → String → String
  pub query_escape : String → String
  pub show : ℕ → String
