-- ===== src/Remediation/Api.antt =====
-- The API server, and the programs that call it. A program goes on for every answer of the server, so
-- that other writers may act between any two calls; a run records what the program asks, in order.
use infra_operator.Base.{String, Bool, true, false, Option, none, some, List, ◌∷◌, if◌then◌else◌}
use infra_operator.Remediation.Objects.{
  ObjectKey, Pvc, Pod, ConfigMap, Node, Snr, Pv, PodRemediator, DeleteOptions,
}
use infra_operator.Remediation.Commit.{DeletionCommit, Decoded, valid, invalid}

-- An error: the server's, one of the two that the controller compares, or one that it makes.
pub data Error : Type 0 where
  not_found already_exists no_match rejected paused : Error
  failed : String → Error
  wrapped : String → Error → Error

-- `k8s_errors.IsNotFound` and its kin look through what wraps an error; so does `errors.Is`.
unfoldable pub is_not_found : Error → Bool
is_not_found not_found = true
is_not_found (wrapped m e) = is_not_found e
is_not_found _ = false

unfoldable pub is_already_exists : Error → Bool
is_already_exists already_exists = true
is_already_exists (wrapped m e) = is_already_exists e
is_already_exists _ = false

unfoldable pub is_paused : Error → Bool
is_paused paused = true
is_paused (wrapped m e) = is_paused e
is_paused _ = false

unfoldable pub is_rejected : Error → Bool
is_rejected rejected = true
is_rejected (wrapped m e) = is_rejected e
is_rejected _ = false

pub data Result {ℓ} (A : Type ℓ) : Type ℓ where
  ok : A → Result A
  err : Error → Result A

-- The calls. A patch carries the object before and after; a delete, the preconditions.
pub data Request : Type 0 where
  get_pvc : ObjectKey → Request
  get_commit : ObjectKey → Request
  get_remediator : ObjectKey → Request
  get_node : String → Request
  get_pv : String → Request
  list_pods : String → Request
  list_pvcs : String → Request
  list_commits : String → Request
  list_nodes list_snrs list_health_checks list_snr_templates : Request
  random_token : Request
  patch_pvc : Pvc → Pvc → Request
  create_commit : ConfigMap → Request
  update_commit : ConfigMap → Request
  delete_commit : ConfigMap → DeleteOptions → Request
  delete_pod : Pod → DeleteOptions → Request
  delete_pvc : Pvc → DeleteOptions → Request

abbrev pub Reply : Request → Type 0
Reply (get_pvc k) = Result Pvc
Reply (get_commit k) = Result ConfigMap
Reply (get_remediator k) = Result PodRemediator
Reply (get_node n) = Result Node
Reply (get_pv n) = Result Pv
Reply (list_pods n) = Result (List Pod)
Reply (list_pvcs n) = Result (List Pvc)
Reply (list_commits n) = Result (List ConfigMap)
Reply list_nodes = Result (List Node)
Reply list_snrs = Result (List Snr)
Reply list_health_checks = Result (List String)
Reply list_snr_templates = Result (List String)
Reply random_token = Result String
Reply (patch_pvc old new) = Result Pvc
Reply (create_commit c) = Result ConfigMap
Reply (update_commit c) = Result ConfigMap
Reply (delete_commit c o) = Result (Unit {0})
Reply (delete_pod p o) = Result (Unit {0})
Reply (delete_pvc p o) = Result (Unit {0})

-- The server and the libraries: SHA-256 in hexadecimal, and JSON.
pub record Env : Type 1 where
  pub World : Type 0
  pub reply : (q : Request) → World → Reply q × World
  pub digest : String → String
  pub marshal : DeletionCommit → Option String
  pub unmarshal : String → Option DeletionCommit

-- The world, and the requests made so far, the latest first.
pub record State (W : Type 0) : Type 0 where
  pub world : W
  pub trace : List Request

-- A program: it has ended, or it makes a call and goes on with the answer.
pub data M (A : Type 0) : Type 0 where
  done : Result A → M A
  call : (q : Request) → (Reply q → M A) → M A

module _ {A B : Type 0} where
  infixl 10 ◌>>=◌ ◌>>◌
  unfoldable pub ◌>>=◌ : M A → (A → M B) → M B
  done (ok a) >>= f = f a
  done (err e) >>= f = done (err e)
  call q k >>= f = call q (λ r. k r >>= f)

  abbrev pub ◌>>◌ : M A → M B → M B
  m >> n = m >>= λ _. n

module _ {A : Type 0} where
  unfoldable pub pure : A → M A
  pure a = done (ok a)

  unfoldable pub fail : Error → M A
  fail e = done (err e)

  -- A run against the server.
  unfoldable pub run : (e : Env) → M A → State e.World → Result A × State e.World
  run e (done r) s = (r, s)
  run e (call q k) s =
      run e (k (e.reply q s.world).0)
        (record { world = (e.reply q s.world).1; trace = q ∷ s.trace })

-- `if err != nil { … }`: both ways on from a result.
unfoldable pub on : {A B : Type 0} → Result A → (A → M B) → (Error → M B) → M B
on (ok a) f g = f a
on (err e) f g = g e

-- `if x != nil { … }` for a value that may be missing.
unfoldable pub on_some : {A B : Type 0} → Option A → (A → M B) → M B → M B
on_some none f m = m
on_some (some a) f m = f a

-- A call, with its error as a value.
unfoldable pub ask : (e : Env) (q : Request) → M (Reply q)
ask e q = call q (λ r. done (ok r))

-- `if b { m } else { n }` between two programs.
unfoldable pub when : {A : Type 0} → Bool → M A → M A → M A
when b m n = if b then m else n

abbrev pub wrap_result {ℓ} : {A : Type ℓ} → String → Result A → Result A
wrap_result message (ok a) = ok a
wrap_result message (err e) = err (wrapped message e)

-- `fmt.Errorf("…: %w", err)` on the error of a program.
unfoldable pub wrap : {A : Type 0} → String → M A → M A
wrap message (done r) = done (wrap_result message r)
wrap message (call q k) = call q (λ r. wrap message (k r))

-- The error of a program as a value, for a caller that looks at it.
unfoldable pub attempt : {A : Type 0} → M A → M (Result A)
attempt (done r) = done (ok r)
attempt (call q k) = call q (λ r. attempt (k r))

-- The two ways on from a decoded record.
unfoldable pub on_decoded : {A : Type 0} → Decoded → (DeletionCommit → M A) → M A → M A
on_decoded (valid s) f m = f s
on_decoded (invalid x) f m = m
