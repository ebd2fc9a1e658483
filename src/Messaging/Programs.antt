-- ===== src/Messaging/Programs.antt =====
-- Programs that call the API server and RabbitMQ, and may leave the handler with the object as it is to
-- be written and the outcome of the pass. What is answered is left open: any answer, at every call.
use infra_operator.Base.{◌⊎◌, ℕ, ◌≡◌, ap, Bool, true, false, Option, none, some, List, [], ◌∷◌}
use infra_operator.Messaging.{Error, Result, ok, err}
use infra_operator.Messaging.Calls.{Request, Reply, Outcome}

pub data Program (O : Type 0) (A : Type 0) : Type 0 where
  leave : O → Outcome → Program O A
  pure : A → Program O A
  call : (q : Request) → (Reply q → Program O A) → Program O A

module _ {O A B : Type 0} where
  infixl 10 ◌>>=◌ ◌>>◌
  unfoldable pub ◌>>=◌ : Program O A → (A → Program O B) → Program O B
  leave o r >>= f = leave o r
  pure a >>= f = f a
  call q k >>= f = call q (λ r. k r >>= f)

  abbrev pub ◌>>◌ : Program O A → Program O B → Program O B
  m >> n = m >>= λ _. n

-- The outcomes: no error, an error, and a retry after some seconds.
abbrev pub stop : Outcome
stop = record { requeue_after = 0; requeue = false; error = none }

abbrev pub fail : Error → Outcome
fail e = record { requeue_after = 0; requeue = false; error = some e }

abbrev pub retry : ℕ → Outcome
retry n = record { requeue_after = n; requeue = false; error = none }

-- A call whose error makes the handler leave.
unfoldable pub or_leave : {O A : Type 0} → Result A → (Error → Program O A) → Program O A
or_leave (ok a) f = pure a
or_leave (err e) f = f e

-- `if b { … }` around a part that may leave.
unfoldable pub when : {O : Type 0} → Bool → Program O (Unit {0}) → Program O (Unit {0})
when true m = m
when false m = pure tt

-- An answer, and both ways on.
unfoldable pub on :
    {O A B : Type 0} → Result A → (A → Program O B) → (Error → Program O B) → Program O B
on (ok a) f g = f a
on (err e) f g = g e

unfoldable pub on_some : {O A B : Type 0} → Option A → (A → Program O B) → Program O B → Program O B
on_some (some a) f m = f a
on_some none f m = m

unfoldable pub choose : {O A : Type 0} → Bool → Program O A → Program O A → Program O A
choose true m n = m
choose false m n = n

-- The calls so far with their answers, the latest first.
abbrev pub Event : Type 0
Event = (q : Request) × Reply q

abbrev pub History : Type 0
History = List Event

abbrev pub Has : History → (q : Request) → Reply q → Type 0
Has [] q r = ⊥
Has (e ∷ h) q r = (e ≡ (q, r)) ⊎ Has h q r

pub Reply-event : (q : Request) (r a : Reply q) → r ≡ a → ◌≡◌ {A = Event} (q, r) (q, a)
Reply-event q r a e = ap (λ x. (q, x)) e

-- The rules that a program is held to: which call may be made behind which history, and what is true
-- where the handler leaves.
pub record Rules (O : Type 0) : Type 1 where
  pub Allowed : History → Request → Type 0
  pub Left : History → O → Outcome → Type 0

module _ {O A : Type 0} where
  -- Every call is allowed, whatever the answers; Q holds where the handler goes on.
  abbrev pub Obeys : Rules O → (History → A → Type 0) → History → Program O A → Type 0
  Obeys p Q h (leave o r) = p.Left h o r
  Obeys p Q h (pure a) = Q h a
  Obeys p Q h (call q k) = p.Allowed h q × ((r : Reply q) → Obeys p Q ((q, r) ∷ h) (k r))

  -- The same without the history.
  abbrev pub Emits :
      (Request → Type 0) → (O → Outcome → Type 0) → (A → Type 0) → Program O A → Type 0
  Emits C L Q (leave o r) = L o r
  Emits C L Q (pure a) = Q a
  Emits C L Q (call q k) = C q × ((r : Reply q) → Emits C L Q (k r))

module _ {O : Type 0} (p : Rules O) where
  -- What a part establishes, the rest may use.
  pub Obeys->>= :
      {A B : Type 0} (Q : History → A → Type 0) (R : History → B → Type 0) (h : History)
      (m : Program O A) (f : A → Program O B)
      → Obeys p Q h m
      → ((h' : History) (a : A) → Q h' a → Obeys p R h' (f a))
      → Obeys p R h (m >>= f)
  unfolding ◌>>=◌
  Obeys->>= Q R h (leave o r) f x k = x
  Obeys->>= Q R h (pure a) f x k = k h a x
  Obeys->>= Q R h (call q g) f x k = (x.0, λ r. Obeys->>= Q R ((q, r) ∷ h) (g r) f (x.1 r) k)

  pub Obeys-mono :
      {A : Type 0} (Q R : History → A → Type 0) (h : History) (m : Program O A)
      → Obeys p Q h m
      → ((h' : History) (a : A) → Q h' a → R h' a)
      → Obeys p R h m
  Obeys-mono Q R h (leave o r) x k = x
  Obeys-mono Q R h (pure a) x k = k h a x
  Obeys-mono Q R h (call q g) x k = (x.0, λ r. Obeys-mono Q R ((q, r) ∷ h) (g r) (x.1 r) k)

  -- A part whose calls are allowed at any time keeps what is known of the history.
  pub Obeys-of_Emits :
      {A : Type 0} (C : Request → Type 0) (L : O → Outcome → Type 0) (Q : A → Type 0)
      (F : History → Type 0)
      → ((e : Event) (h : History) → F h → F (e ∷ h))
      → ((h : History) (q : Request) → C q → p.Allowed h q)
      → ((h : History) (o : O) (r : Outcome) → F h → L o r → p.Left h o r)
      → (h : History) (m : Program O A) → F h
      → Emits C L Q m
      → Obeys p (λ h' a. F h' × Q a) h m
  Obeys-of_Emits C L Q F grow admit quit h (leave o r) known x = quit h o r known x
  Obeys-of_Emits C L Q F grow admit quit h (pure a) known x = (known, x)
  Obeys-of_Emits C L Q F grow admit quit h (call q g) known x = (
    admit h q x.0,
    λ r. Obeys-of_Emits C L Q F grow admit quit ((q, r) ∷ h) (g r) (grow (q, r) h known) (x.1 r),
  )

-- Rules may be weakened.
pub Obeys-weaken :
    {O A : Type 0} (p p' : Rules O) (Q : History → A → Type 0) (h : History) (m : Program O A)
    → ((h' : History) (q : Request) → p.Allowed h' q → p'.Allowed h' q)
    → ((h' : History) (o : O) (r : Outcome) → p.Left h' o r → p'.Left h' o r)
    → Obeys p Q h m
    → Obeys p' Q h m
Obeys-weaken p p' Q h (leave o r) admit quit x = quit h o r x
Obeys-weaken p p' Q h (pure a) admit quit x = x
Obeys-weaken p p' Q h (call q g) admit quit x =
    (admit h q x.0, λ r. Obeys-weaken p p' Q ((q, r) ∷ h) (g r) admit quit (x.1 r))

module _ {O : Type 0} (C : Request → Type 0) (L : O → Outcome → Type 0) where
  pub Emits->>= :
      {A B : Type 0} (Q : A → Type 0) (R : B → Type 0) (m : Program O A) (f : A → Program O B)
      → Emits C L Q m
      → ((a : A) → Q a → Emits C L R (f a))
      → Emits C L R (m >>= f)
  unfolding ◌>>=◌
  Emits->>= Q R (leave o r) f x k = x
  Emits->>= Q R (pure a) f x k = k a x
  Emits->>= Q R (call q g) f x k = (x.0, λ r. Emits->>= Q R (g r) f (x.1 r) k)

-- A run against fixed answers: the calls in order, and how it ended.
pub data End (O A : Type 0) : Type 0 where
  left : O → Outcome → End O A
  returned : A → End O A

unfoldable pub run :
    {O A : Type 0} → ((q : Request) → Reply q) → Program O A → List Request × End O A
run answer (leave o r) = ([], left o r)
run answer (pure a) = ([], returned a)
run answer (call q k) = let (qs, end) = run answer (k (answer q)) in (q ∷ qs, end)
