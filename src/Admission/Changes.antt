-- ===== src/Admission/Changes.antt =====
-- The check of an IPSet against the previous object (ipset_webhook.go): when it reports nothing, and
-- that its index into the new networks is in range.
use infra_operator.Base.{
  Sum-cases, ℕ, zero, suc, ◌≤◌, ◌<◌, String, ◌≡◌, ◌≢◌, ◌↔◌, ◌⊎◌, inl, inr, refl, ap, Bool, true,
  false, not, ◌&&◌, Option, none, some, List, [], ◌∷◌, arith, ◌==◌, string_eq, length, contains,
  if◌then◌else◌, All, Option-cases,
}
use infra_operator.IpSet.{IpSetNetwork}
use infra_operator.Admission.{
  child, index, FieldPath, ◌!◌, FieldError, Checks, Family, NetConfigItem, admitted, get_net_config,
}
use infra_operator.Admission.Networks.{find}
use infra_operator.Admission.NetConfigs.{spec_path}
use infra_operator.Admission.IpSets.{
  IpSetItem, same_text, same_flag, fixed_parts, element, changed_parts, changed_rounds,
  validate_ip_set_changed, validate_create, validate_update,
}
use infra_operator.Admission.Unique.{
  are_new, are_distinct, names_of, validate_ip_set_network-are_distinct,
}
use infra_operator.Admission.Places.{no_errors-admitted}

same_text_iff : (a b : Option String) → (same_text a b ≡ true) ↔ (a ≡ b)
unfolding same_text
same_text_iff none none = ground arith
same_text_iff none (some b) = ground arith
same_text_iff (some a) none = ground arith
same_text_iff (some a) (some b) = ground arith

same_flag_iff : (a b : Option Bool) → (same_flag a b ≡ true) ↔ (a ≡ b)
unfolding same_flag
same_flag_iff none none = ground arith
same_flag_iff none (some b) = ground arith
same_flag_iff (some true) none = ground arith
same_flag_iff (some false) none = ground arith
same_flag_iff (some true) (some true) = ground arith
same_flag_iff (some true) (some false) = ground arith
same_flag_iff (some false) (some true) = ground arith
same_flag_iff (some false) (some false) = ground arith

find-name :
    (ns : List IpSetNetwork) (name : String) (n : IpSetNetwork)
    → find (λ m. m.name == name) ns ≡ some n
    → (n.name ≡ name) × (contains (names_of ns) name ≡ true)
find-name [] name n h = cc
find-name (m ∷ ms) name n h = ground (arith, find-name ms name n)

fixed_parts_iff :
    (o n : IpSetNetwork) (p : FieldPath)
    → (fixed_parts o n p ≡ []) ↔ ((o.fixed_ip ≡ n.fixed_ip) × (o.default_route ≡ n.default_route))
fixed_parts_iff o n p =
    ground
      (arith, same_text_iff o.fixed_ip n.fixed_ip, same_flag_iff o.default_route n.default_route)

-- The first of the new networks that has the old one's name is the old one.
abbrev pub IsKept : List IpSetNetwork → IpSetNetwork → Type 0
IsKept networks o = find (λ n. n.name == o.name) networks ≡ some o

changed_parts_iff :
    (networks : List IpSetNetwork) (o n : IpSetNetwork) (i : ℕ) (p : FieldPath)
    → n.name ≡ o.name
    → (changed_parts networks o n i p ≡ some []) ↔ (n ≡ o)
unfolding changed_parts
changed_parts_iff networks o n i p e = ground (arith, fixed_parts_iff o n p)

changed_rounds_iff :
    (networks old : List IpSetNetwork) (i : ℕ) (p : FieldPath)
    → (changed_rounds networks old i p ≡ some []) ↔ All (IsKept networks) old
unfolding changed_rounds
changed_rounds_iff networks [] i p = ground arith
changed_rounds_iff networks (o ∷ os) i p =
    let q = p ! child "networks" ! index i in
    let ih = changed_rounds_iff networks os (suc i) p in
    elim (Option-cases (find (λ n. n.name == o.name) networks)) [
      | inl e ↦ ground arith
      | inr (n, e) ↦
          let parts = changed_parts_iff networks o n i q (find-name networks o.name n e).0 in
          ground arith
    ]

-- The check against the previous object reports nothing exactly if of every old network, the first new
-- one of its name is the same: in its subnet, its fixed address and its default route.
pub validate_ip_set_changed_iff :
    (networks old : List IpSetNetwork) (p : FieldPath)
    → (validate_ip_set_changed networks old p ≡ some []) ↔ All (IsKept networks) old
unfolding validate_ip_set_changed
validate_ip_set_changed_iff networks old p = changed_rounds_iff networks old 0 p

abbrev no_repeat : List String → Bool
no_repeat [] = true
no_repeat (n ∷ ns) = not (contains ns n) && no_repeat ns

abbrev remove : String → List String → List String
remove n [] = []
remove n (m ∷ ms) = if m == n then ms else m ∷ remove n ms

length-remove :
    (n : String) (ms : List String) → contains ms n ≡ true → length ms ≡ suc (length (remove n ms))
length-remove n [] h = ground arith
length-remove n (m ∷ ms) h = ground (arith, length-remove n ms)

contains-remove :
    (n z : String) (ms : List String)
    → contains ms z ≡ true
    → z ≢ n
    → contains (remove n ms) z ≡ true
contains-remove n z [] h d = ground arith
contains-remove n z (m ∷ ms) h d = ground (arith, contains-remove n z ms)

contains-apart :
    (x z : String) (xs : List String) → contains xs x ≡ false → contains xs z ≡ true → z ≢ x
contains-apart x z xs h k e = cc

-- Different names that are all in a list are not more than its elements.
length_le :
    (ns ms : List String)
    → no_repeat ns ≡ true
    → ((z : String) → contains ns z ≡ true → contains ms z ≡ true)
    → length ns ≤ length ms
length_le [] ms d h = omega arith
length_le (n ∷ ns) ms d h =
    let there : contains ms n ≡ true = h n (ground arith) in
    let ih = length_le ns (remove n ms) (ground arith) (λ z k.
      contains-remove n z ms (h z (ground arith)) (contains-apart n z ns (ground arith) k)) in
    let e = length-remove n ms there in omega arith

names_of-length : (ns : List IpSetNetwork) → length (names_of ns) ≡ length ns
names_of-length [] = refl
names_of-length (n ∷ ns) = ap suc (names_of-length ns)

element_in_range :
    {A : Type 0} (xs : List A) (i : ℕ) → i < length xs → (x : A) × (element xs i ≡ some x)
unfolding element
element_in_range [] i h = absurd (omega arith)
element_in_range (x ∷ xs) zero h = (x, refl)
element_in_range (x ∷ xs) (suc i) h = element_in_range xs i (omega arith)

changed_parts_returns :
    (networks : List IpSetNetwork) (o n : IpSetNetwork) (i : ℕ) (p : FieldPath)
    → i < length networks
    → changed_parts networks o n i p ≢ none
unfolding changed_parts
changed_parts_returns networks o n i p h =
    let (m, e) = element_in_range networks i h in ground arith

-- The names of the rounds before are different ones of the new networks, and so is this round's.
changed_rounds_returns :
    (networks old : List IpSetNetwork) (i : ℕ) (p : FieldPath) (before : List String)
    → length before ≡ i
    → no_repeat before ≡ true
    → ((z : String) → contains before z ≡ true → contains (names_of networks) z ≡ true)
    → are_new before (names_of old) ≡ true
    → changed_rounds networks old i p ≢ none
unfolding changed_rounds
changed_rounds_returns networks [] i p before l d sub new = ground arith
changed_rounds_returns networks (o ∷ os) i p before l d sub new =
    let q = p ! child "networks" ! index i in
    elim (Option-cases (find (λ n. n.name == o.name) networks)) [
      | inl e ↦ ground arith
      | inr (n, e) ↦
          let now : List String = o.name ∷ before in
          let d' : no_repeat now ≡ true = ground arith in
          let sub' : (z : String) → contains now z ≡ true → contains (names_of networks) z ≡ true =
            λ z k. ground (arith, find-name networks o.name n e, sub z) in
          let fits = length_le now (names_of networks) d' sub' in
          let lengths = names_of-length networks in
          let rest =
            changed_rounds_returns networks os (suc i) p now (ap suc l) d' sub' (ground arith) in
          let parts = changed_parts_returns networks o n i q (omega arith) in
          elim (Option-cases (changed_parts networks o n i q)) [
            | inl t ↦ absurd (parts t)
            | inr (es, t) ↦ elim (Option-cases (changed_rounds networks os (suc i) p)) [
              | inl u ↦ absurd (rest u)
              | inr (fs, u) ↦ ground arith
            ]
          ]
    ]

-- The index into the new networks is in range: the check against the networks of an old object with
-- different names returns.
pub validate_ip_set_changed_returns :
    (networks old : List IpSetNetwork) (p : FieldPath)
    → are_distinct (names_of old) ≡ true
    → validate_ip_set_changed networks old p ≢ none
unfolding validate_ip_set_changed
validate_ip_set_changed_returns networks old p d =
    changed_rounds_returns networks old 0 p [] refl refl (λ z k. ground arith) d

module _ (c : Checks) (order : ℕ → List Family) where
  validate_create_names :
      (cfg : NetConfigItem) (r : IpSetItem)
      → validate_create c order (inr (cfg ∷ [])) r ≡ admitted
      → are_distinct (names_of r.networks) ≡ true
  unfolding validate_create get_net_config
  validate_create_names cfg r h =
      validate_ip_set_network-are_distinct c order cfg.networks r.networks spec_path
        (no_errors-admitted _ h)

  -- The update of an IPSet that was admitted at its creation returns, whatever the new one is and the
  -- client answers: the handler does not panic at its index into the new networks.
  pub validate_update_returns :
      (cfg : NetConfigItem) (old r : IpSetItem) (listed : String ⊎ List NetConfigItem)
      → validate_create c order (inr (cfg ∷ [])) old ≡ admitted
      → validate_update c order listed r (some old) ≢ none
  unfolding validate_update
  validate_update_returns cfg old r listed h =
      let go : (l : String ⊎ List NetConfigItem) (es : List FieldError)
          → validate_ip_set_changed r.networks old.networks spec_path ≡ some es
          → validate_update c order l r (some old) ≢ none =
        λ l es e. elim (Sum-cases (get_net_config l)) [
          | inl (x, q) ↦ ground arith
          | inr (o, q) ↦ elim (Option-cases o) [
            | inl t ↦ ground arith
            | inr (cfg', t) ↦ ground arith
          ]
        ] in
      let returns =
        validate_ip_set_changed_returns r.networks old.networks spec_path
          (validate_create_names cfg old h) in
      elim (Option-cases (validate_ip_set_changed r.networks old.networks spec_path)) [
        | inl e ↦ absurd (returns e)
        | inr (es, e) ↦ go listed es e
      ]
