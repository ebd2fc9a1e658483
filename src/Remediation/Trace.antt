-- ===== src/Remediation/Trace.antt =====
-- What a program asks of the API server, and what it returns: rules for the programs of `Api`, whatever
-- the server answers.
use infra_operator.Base.{
  String, ◌≡◌, ◌⊎◌, inl, inr, refl, ap, Bool, true, false, Option, none, some, List, [], ◌∷◌, All,
}
use mathlib.Core.Path.{subst}
use infra_operator.Remediation.Commit.{DeletionCommit, Decoded, valid, invalid}
use infra_operator.Remediation.Api.{
  Error, Result, ok, err, Request, Reply, Env, M, done, call, ◌>>=◌, pure, fail, on, on_some, when,
  ask, wrap, attempt, on_decoded,
}

abbrev pub IsIn : {A : Type 0} → A → List A → Type 0
IsIn x [] = ⊥
IsIn x (y ∷ l) = (x ≡ y) ⊎ IsIn x l

pub All-of_IsIn : {A : Type 0} (P : A → Type 0) (l : List A) → ((x : A) → IsIn x l → P x) → All P l
All-of_IsIn P [] k = tt
All-of_IsIn P (x ∷ l) k = (k x (inl refl), All-of_IsIn P l (λ y i. k y (inr i)))

-- A call with its answer.
abbrev pub Event : Type 0
Event = (q : Request) × Reply q

-- What holds of each call with its answer, and what a call needs.
pub record Rules : Type 1 where
  pub known : Event → Type 0
  pub allowed : Request → Type 0

abbrev pub under : (Event → Type 0) → (Request → Type 0) → Rules
under K A = record { known = K; allowed = A }

-- The answer, where it is known which one it is.
pub learn : (P : Rules) (q : Request) {r a : Reply q} → r ≡ a → P.known (q, r) → P.known (q, a)
learn P q e k = subst P.known (ap (λ x. (q, x)) e) k

-- What holds of the value, if the program returns one.
abbrev pub Returns {ℓ} : {A : Type ℓ} → (A → Type 0) → Result A → Type 0
Returns Q (ok a) = Q a
Returns Q (err e) = Unit

abbrev Holds : {A : Type 0} → Rules → M A → (A → Type 0) → Type 0
Holds P (done r) Q = Returns Q r
Holds P (call q k) Q = P.allowed q × ((r : Reply q) → P.known (q, r) → Holds P (k r) Q)

-- All calls of m are allowed, whatever the server answers of which something is known, and a returned
-- value satisfies Q.
pub record Emits {A : Type 0} (P : Rules) (m : M A) (Q : A → Type 0) : Type 0 where
  pub holds : Holds P m Q

-- Any value at all.
abbrev pub Whatever {ℓ} : {A : Type ℓ} → A → Type 0
Whatever a = Unit

-- Every call satisfies C of the calls and answers before it.
abbrev pub Obeys : {A : Type 0} → ((Event → Type 0) → Request → Type 0) → List Event → M A → Type 0
Obeys C h (done r) = Unit
Obeys C h (call q k) = C (λ x. IsIn x h) q × ((r : Reply q) → Obeys C ((q, r) ∷ h) (k r))

-- What holds whatever is known of the answers, holds of the answers that there were.
pub Obeys-of_Emits :
    {A : Type 0} (C : (Event → Type 0) → Request → Type 0) (h : List Event) (m : M A)
    → ((K : Event → Type 0) → All K h → Emits (under K (C K)) m Whatever)
    → Obeys C h m
Obeys-of_Emits C h (done r) k = tt
Obeys-of_Emits C h (call q f) k = (
  (k (λ x. IsIn x h) (All-of_IsIn (λ x. IsIn x h) h (λ x i. i))).holds.0,
  λ r.
      Obeys-of_Emits C ((q, r) ∷ h) (f r) (λ K all. record { holds = (k K all.1).holds.1 r all.0 }),
)

Holds-bind :
    {A B : Type 0} (P : Rules) (R : A → Type 0) (Q : B → Type 0) (m : M A) (f : A → M B)
    → Holds P m R
    → ((a : A) → R a → Emits P (f a) Q)
    → Holds P (m >>= f) Q
unfolding ◌>>=◌
Holds-bind P R Q (done (ok a)) f h k = (k a h).holds
Holds-bind P R Q (done (err e)) f h k = tt
Holds-bind P R Q (call q g) f h k = (h.0, λ r known. Holds-bind P R Q (g r) f (h.1 r known) k)

Holds-mono :
    {A : Type 0} (P P' : Rules) (R Q : A → Type 0) (m : M A)
    → ((x : Event) → P'.known x → P.known x)
    → ((q : Request) → P.allowed q → P'.allowed q)
    → ((a : A) → R a → Q a)
    → Holds P m R
    → Holds P' m Q
Holds-mono P P' R Q (done (ok a)) l k j h = j a h
Holds-mono P P' R Q (done (err e)) l k j h = tt
Holds-mono P P' R Q (call q g) l k j h =
    (k q h.0, λ r known. Holds-mono P P' R Q (g r) l k j (h.1 r (l (q, r) known)))

Holds-attempt :
    {A : Type 0} (P : Rules) (Q : A → Type 0) (m : M A)
    → Holds P m Q
    → Holds P (attempt m) (λ r. Returns Q r)
unfolding attempt
Holds-attempt P Q (done r) h = h
Holds-attempt P Q (call q g) h = (h.0, λ r known. Holds-attempt P Q (g r) (h.1 r known))

Holds-wrap :
    {A : Type 0} (P : Rules) (Q : A → Type 0) (t : String) (m : M A)
    → Holds P m Q
    → Holds P (wrap t m) Q
unfolding wrap
Holds-wrap P Q t (done (ok a)) h = h
Holds-wrap P Q t (done (err e)) h = tt
Holds-wrap P Q t (call q g) h = (h.0, λ r known. Holds-wrap P Q t (g r) (h.1 r known))

module _ {P : Rules} where
  pub emits_pure : {A : Type 0} (a : A) {Q : A → Type 0} → Q a → Emits P (pure a) Q
  unfolding pure
  emits_pure a q = record { holds = q }

  pub emits_fail : {A : Type 0} (e : Error) {Q : A → Type 0} → Emits {A = A} P (fail e) Q
  unfolding fail
  emits_fail e = record { holds = tt }

  pub emits_bind :
      {A B : Type 0} {m : M A} {f : A → M B} {R : A → Type 0} {Q : B → Type 0}
      → Emits P m R
      → ((a : A) → R a → Emits P (f a) Q)
      → Emits P (m >>= f) Q
  emits_bind {m} {f} {R} {Q} hm hf = record { holds = Holds-bind P R Q m f hm.holds hf }

  pub emits_on :
      {A B : Type 0} {r : Result A} {f : A → M B} {g : Error → M B} {Q : B → Type 0}
      → ((a : A) → r ≡ ok a → Emits P (f a) Q)
      → ((e : Error) → r ≡ err e → Emits P (g e) Q)
      → Emits P (on r f g) Q
  unfolding on
  emits_on {r = ok a} hf hg = hf a refl
  emits_on {r = err e} hf hg = hg e refl

  pub emits_on_some :
      {A B : Type 0} {o : Option A} {f : A → M B} {m : M B} {Q : B → Type 0}
      → ((a : A) → o ≡ some a → Emits P (f a) Q)
      → (o ≡ none → Emits P m Q)
      → Emits P (on_some o f m) Q
  unfolding on_some
  emits_on_some {o = none} hf hm = hm refl
  emits_on_some {o = some a} hf hm = hf a refl

  pub emits_on_decoded :
      {A : Type 0} {d : Decoded} {f : DeletionCommit → M A} {m : M A} {Q : A → Type 0}
      → ((s : DeletionCommit) → d ≡ valid s → Emits P (f s) Q)
      → Emits P m Q
      → Emits P (on_decoded d f m) Q
  unfolding on_decoded
  emits_on_decoded {d = valid s} hf hm = hf s refl
  emits_on_decoded {d = invalid x} hf hm = hm

  pub emits_attempt :
      {A : Type 0} {m : M A} {Q : A → Type 0} → Emits P m Q → Emits P (attempt m) (λ r. Returns Q r)
  emits_attempt {m} {Q} hm = record { holds = Holds-attempt P Q m hm.holds }

  pub emits_if :
      {A : Type 0} {b : Bool} {m n : M A} {Q : A → Type 0}
      → (b ≡ true → Emits P m Q)
      → (b ≡ false → Emits P n Q)
      → Emits P (when b m n) Q
  unfolding when
  emits_if {b = true} hm hn = hm refl
  emits_if {b = false} hm hn = hn refl

  pub emits_wrap :
      {A : Type 0} {m : M A} {Q : A → Type 0} (t : String) → Emits P m Q → Emits P (wrap t m) Q
  emits_wrap {m} {Q} t hm = record { holds = Holds-wrap P Q t m hm.holds }

  pub emits_ask : (e : Env) (q : Request) → P.allowed q → Emits P (ask e q) (λ r. P.known (q, r))
  unfolding ask
  emits_ask e q p = record { holds = (p, λ r known. known) }

pub emits_weaken :
    {A : Type 0} {P : Rules} {m : M A} {R Q : A → Type 0}
    → Emits P m R
    → ((a : A) → R a → Q a)
    → Emits P m Q
emits_weaken {P} {m} {R} {Q} hm k = record {
  holds = Holds-mono P P R Q m (λ x i. i) (λ q i. i) k hm.holds;
}

pub emits_mono :
    {A : Type 0} {K : Event → Type 0} {C C' : Request → Type 0} {m : M A} {Q : A → Type 0}
    → Emits (under K C) m Q
    → ((q : Request) → C q → C' q)
    → Emits (under K C') m Q
emits_mono {K} {C} {C'} {m} {Q} hm k = record {
  holds = Holds-mono (under K C) (under K C') Q Q m (λ x i. i) k (λ a q. q) hm.holds;
}
