-- ===== src/Messaging/Rules.antt =====
-- The two predicates on programs, through the ways on that the handlers use: a result, an optional
-- value, a test.
use infra_operator.Base.{String, ◌≡◌, refl, Bool, true, false, Option, none, some}
use infra_operator.Messaging.{Error, Result, ok, err, Cluster}
use infra_operator.Messaging.Calls.{Request, get_secret, new_client, Access, Outcome}
use infra_operator.Messaging.Programs.{
  Program, or_leave, when, on, on_some, choose, History, Rules, Obeys, Emits, Emits->>=,
}
use infra_operator.Messaging.Readiness.{open_client, get_tls_ca_cert}

module _ {O A : Type 0} (p : Rules O) (Q : History → A → Type 0) (h : History) where
  pub Obeys-or_leave :
      (r : Result A) (f : Error → Program O A)
      → ((a : A) → r ≡ ok a → Q h a)
      → ((e : Error) → r ≡ err e → Obeys p Q h (f e))
      → Obeys p Q h (or_leave r f)
  unfolding or_leave
  Obeys-or_leave (ok a) f x y = x a refl
  Obeys-or_leave (err e) f x y = y e refl

  pub Obeys-on :
      {B : Type 0} (r : Result B) (f : B → Program O A) (g : Error → Program O A)
      → ((b : B) → r ≡ ok b → Obeys p Q h (f b))
      → ((e : Error) → r ≡ err e → Obeys p Q h (g e))
      → Obeys p Q h (on r f g)
  unfolding on
  Obeys-on (ok a) f g x y = x a refl
  Obeys-on (err e) f g x y = y e refl

  pub Obeys-on_some :
      {B : Type 0} (o : Option B) (f : B → Program O A) (m : Program O A)
      → ((b : B) → o ≡ some b → Obeys p Q h (f b))
      → (o ≡ none → Obeys p Q h m)
      → Obeys p Q h (on_some o f m)
  unfolding on_some
  Obeys-on_some (some a) f m x y = x a refl
  Obeys-on_some none f m x y = y refl

  pub Obeys-choose :
      (b : Bool) (m n : Program O A)
      → (b ≡ true → Obeys p Q h m)
      → (b ≡ false → Obeys p Q h n)
      → Obeys p Q h (choose b m n)
  unfolding choose
  Obeys-choose true m n x y = x refl
  Obeys-choose false m n x y = y refl

module _ {O : Type 0} (p : Rules O) (Q : History → Unit {0} → Type 0) (h : History) where
  pub Obeys-when :
      (b : Bool) (m : Program O (Unit {0}))
      → (b ≡ true → Obeys p Q h m)
      → (b ≡ false → Q h tt)
      → Obeys p Q h (when b m)
  unfolding when
  Obeys-when true m x y = x refl
  Obeys-when false m x y = y refl

module _ {O A : Type 0} (C : Request → Type 0) (L : O → Outcome → Type 0) (Q : A → Type 0) where
  pub Emits-or_leave :
      (r : Result A) (f : Error → Program O A)
      → ((a : A) → Q a)
      → ((e : Error) → Emits C L Q (f e))
      → Emits C L Q (or_leave r f)
  unfolding or_leave
  Emits-or_leave (ok a) f x y = x a
  Emits-or_leave (err e) f x y = y e

  pub Emits-choose :
      (b : Bool) (m n : Program O A) → Emits C L Q m → Emits C L Q n → Emits C L Q (choose b m n)
  unfolding choose
  Emits-choose true m n x y = x
  Emits-choose false m n x y = y

  pub Emits-on :
      {B : Type 0} (r : Result B) (f : B → Program O A) (g : Error → Program O A)
      → ((b : B) → Emits C L Q (f b))
      → ((e : Error) → Emits C L Q (g e))
      → Emits C L Q (on r f g)
  unfolding on
  Emits-on (ok a) f g x y = x a
  Emits-on (err e) f g x y = y e

  pub Emits-on_some :
      {B : Type 0} (o : Option B) (f : B → Program O A) (m : Program O A)
      → ((b : B) → Emits C L Q (f b))
      → Emits C L Q m
      → Emits C L Q (on_some o f m)
  unfolding on_some
  Emits-on_some (some a) f m x y = x a
  Emits-on_some none f m x y = y

module _ {O : Type 0} (C : Request → Type 0) (L : O → Outcome → Type 0) where
  pub Emits-when :
      (b : Bool) (m : Program O (Unit {0}))
      → Emits C L (λ x. Unit {0}) m
      → Emits C L (λ x. Unit {0}) (when b m)
  unfolding when
  Emits-when true m x = x
  Emits-when false m x = tt

-- The client is opened by reads of Secrets and its construction.
module _ {O : Type 0} (C : Request → Type 0) (L : O → Outcome → Type 0) where
  pub open_client-Emits :
      ((n : String) → C (get_secret n))
      → ((x : Access) → C (new_client x))
      → (rabbit : Cluster) (admin : String) (a b c : O) → ((r : Outcome) → L a r)
      → ((r : Outcome) → L b r)
      → ((r : Outcome) → L c r)
      → Emits C L (λ x. Unit {0}) (open_client rabbit admin a b c)
  unfolding open_client get_tls_ca_cert
  open_client-Emits secrets clients rabbit admin a b c ha hb hc =
      Emits->>= C L (λ x. Unit {0}) (λ x. Unit {0}) _ _
        (secrets admin, λ r. Emits-or_leave C L (λ x. Unit {0}) r _ (λ s. tt) λ e. ha _)
        λ s t.
          Emits->>= C L (λ x. Unit {0}) (λ x. Unit {0}) _ _
            (Emits-choose C L (λ x. Unit {0}) _ _ _ tt
              (
                secrets _,
                λ r.
                    Emits-on C L (λ x. Unit {0}) r _ _
                      (λ ca. Emits-on_some C L (λ x. Unit {0}) _ _ _ (λ cert. tt) (hb _)) λ e. hb _,
              ))
            λ cert t. (clients _, λ r. Emits-or_leave C L (λ x. Unit {0}) r _ (λ s. tt) λ e. hc _)
