-- ===== src/Messaging/Watches.antt =====
-- What is taken up again when another object changes: the map functions of rabbitmquser_controller.go,
-- rabbitmqvhost_controller.go and rabbitmqpolicy_controller.go, from the answer to their list. The
-- names of the requests; the namespace is the changed object's.
use infra_operator.Base.{String, Bool, ◌||◌, List, [], ◌∷◌, ◌==◌, string_eq, if◌then◌else◌}
use infra_operator.Messaging.{Result, ok, err, User, Vhost, Policy}

-- The names of the listed objects that pass a test.
abbrev pub names_where {ℓ} : {A : Type ℓ} → (A → Bool) → (A → String) → List A → List String
names_where test name [] = []
names_where test name (a ∷ as') =
    if test a then name a ∷ names_where test name as' else names_where test name as'

abbrev pub requests {ℓ} : {A : Type ℓ} → (A → Bool) → (A → String) → Result (List A) → List String
requests test name (ok as') = names_where test name as'
requests test name (err e) = []

-- The status' vhost is the name in RabbitMQ, compared with the object's.
unfoldable pub vhost_to_user_map_func : Result (List User) → Vhost → List String
vhost_to_user_map_func users v =
    requests (λ (u : User). u.vhost_ref == v.name || u.status_vhost == v.name)
      (λ (u : User). u.name) users

unfoldable pub cluster_to_user_map_func : Result (List User) → String → List String
cluster_to_user_map_func users cluster =
    requests (λ (u : User). u.rabbitmq_cluster_name == cluster) (λ (u : User). u.name) users

unfoldable pub user_to_vhost_map_func : User → List String
user_to_vhost_map_func u = if u.vhost_ref == "" then [] else u.vhost_ref ∷ []

unfoldable pub cluster_to_vhost_map_func : Result (List Vhost) → String → List String
cluster_to_vhost_map_func vhosts cluster =
    requests (λ (v : Vhost). v.rabbitmq_cluster_name == cluster) (λ (v : Vhost). v.name) vhosts

unfoldable pub cluster_to_policy_map_func : Result (List Policy) → String → List String
cluster_to_policy_map_func policies cluster =
    requests (λ (p : Policy). p.rabbitmq_cluster_name == cluster) (λ (p : Policy). p.name) policies
