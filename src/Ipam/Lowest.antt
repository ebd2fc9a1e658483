-- ===== src/Ipam/Lowest.antt =====
-- Which address `AssignIP` returns from the first allocation range (internal/ipam/funcs.go).
use infra_operator.Base.{
  ℕ, ◌+◌, ◌-◌, ◌^◌, ◌≤◌, ◌<◌, String, ◌≡◌, ◌≢◌, refl, sym, ap, ◌∙◌, true, false, inl, inr, ◌⊎◌,
  Option, none, some, List, [], ◌∷◌, arith, All, Bool-cases, Option-cases,
}
use mathlib.Core.Bool.{true≢false as true-ne-false}
use native.Mathlib.Decide.{dec_lt}
use infra_operator.Netip.{Addr, invalid, v4, is_valid, steps_left}
use infra_operator.Ipam.{
  AllocationRange, Subnet, IpAddress, ReservationMap, lookup, ok, AssignIpDetails, is_in, skips,
  ends_in_zero, SearchEnd, found, exhausted, unfinished, search_range, collect_excluded,
  collect_reserved, build_excluded, build_reserved, ip_address, iterate_ranges,
  iterate_for_assignment, assign_ip,
}
use infra_operator.Ipam.Search.{
  search_range-finishes, IsFirstFree, search_range-IsFirstFree, v4-IsFamily,
}
use infra_operator.Ipam.Assign.{
  IsFree, request, prepared, pair_eq, collect_excluded_sound, collect_reserved_sound,
}
use infra_operator.Ipam.Complete.{search_range-top, unbarred_of_free, zero_unbarred, ParsesValid}

module _ (parse : String → Option Addr) (print : Addr → String) where
  abbrev Parses : String → Type 0
  Parses s = (x : Addr) × (parse s ≡ some x)

  -- The excluded addresses and the network's reservations are addresses.
  abbrev pub IsWellFormed : AssignIpDetails → Type 0
  IsWellFormed a =
      All Parses a.subnet.exclude_addresses
      × All (λ m. (res : IpAddress) → lookup a.net_name m ≡ some res → Parses res.address)
          a.reservelist

  collect_excluded-none :
      (ss : List String) (set : List Addr)
      → All Parses ss
      → (collect_excluded parse print ss set).1 ≡ none
  unfolding collect_excluded
  collect_excluded-none [] set h = refl
  collect_excluded-none (s ∷ ss) set ((x, p), h) =
      ground (arith, collect_excluded-none ss (x ∷ set) h)

  collect_reserved-none :
      (net : String) (ms : List ReservationMap) (set : List Addr)
      → All (λ m. (res : IpAddress) → lookup net m ≡ some res → Parses res.address) ms
      → (collect_reserved parse print net ms set).1 ≡ none
  unfolding collect_reserved
  collect_reserved-none net [] set h = refl
  collect_reserved-none net (m ∷ ms) set (f, h) = elim (Option-cases (lookup net m)) [
    | inl p ↦ ground (arith, collect_reserved-none net ms set h)
    | inr (r, p) ↦ let (x, q) = f r p in ground (arith, collect_reserved-none net ms (x ∷ set) h)
  ]

  module _ (ip_set net : String) (subnet : Subnet) (reservelist : List ReservationMap)
      (fixed : Addr) (dynamic : is_valid fixed ≡ false)
      (well_formed : IsWellFormed (request parse print ip_set net subnet reservelist fixed)) where
    abbrev pub a : AssignIpDetails
    a = request parse print ip_set net subnet reservelist fixed

    assign_ip-iterate_ranges :
        (assign_ip parse print a).1
        ≡ iterate_ranges parse print (prepared parse print a) subnet.allocation_ranges
    unfolding assign_ip build_excluded build_reserved iterate_for_assignment
    assign_ip-iterate_ranges = ground (
      arith,
      collect_excluded-none subnet.exclude_addresses [] well_formed.0,
      collect_reserved-none net reservelist [] well_formed.1,
    )

    unbarred-IsFree :
        (x : Addr)
        → skips (prepared parse print a) x ≡ false
        → (ends_in_zero x ≡ false) × IsFree parse print a x
    unfolding skips is_in
    unbarred-IsFree x h = (
      ground arith,
      (
        (collect_excluded_sound parse print x subnet.exclude_addresses [] _
            (pair_eq (collect_excluded-none subnet.exclude_addresses [] well_formed.0))
            (ground arith)).0,
        (collect_reserved_sound parse print x net reservelist [] _
            (pair_eq (collect_reserved-none net reservelist [] well_formed.1)) (ground arith)).0,
      ),
    )

    module _ (r : AllocationRange) (rs : List AllocationRange) (lo hi : ℕ)
        (ranges : subnet.allocation_ranges ≡ r ∷ rs) (starts : parse r.start ≡ some (v4 lo))
        (ends : parse r.end ≡ some (v4 hi)) where
      first_range :
          (x : Addr)
          → search_range (prepared parse print a) (steps_left (v4 lo)) (v4 lo) (v4 hi) ≡ found x
          → (assign_ip parse print a).1 ≡ ok (ip_address parse print a x)
      unfolding iterate_ranges
      first_range x f = rw (assign_ip-iterate_ranges, ranges) (ground arith)

      -- No fixed address is asked for, all exclusions and reservations are addresses, and no text is
      -- parsed to the zero address. If the first range ends at 255.255.255.255, and all its
      -- addresses are skipped, `AssignIP` hands out the zero address and no error.
      pub assign_ip-zero_address :
          ParsesValid parse print
          → lo ≤ hi
          → hi + 1 ≡ 2 ^ 32
          → ((m : ℕ) → lo ≤ m → m ≤ hi → skips (prepared parse print a) (v4 m) ≡ true)
          → (assign_ip parse print a).1 ≡ ok (ip_address parse print a invalid)
      assign_ip-zero_address valid le top barred =
          let e : hi ≡ 2 ^ 32 - 1 = omega arith in
          first_range invalid (
            rw e (
              search_range-top (prepared parse print a) (steps_left (v4 lo)) lo (omega arith)
                (omega arith) (zero_unbarred parse print valid a)
                (λ m p q. barred m p (omega arith))))

      -- Whatever stands between is barred: it ends in zero or is not free.
      IsBarred : ℕ → Type 0
      IsBarred k = (ends_in_zero (v4 k) ≡ true) ⊎ ¬ IsFree parse print a (v4 k)

      lowest_of_search :
          (n : ℕ) (s : SearchEnd)
          → s ≢ unfinished
          → IsFirstFree (prepared parse print a) v4 lo hi s
          → lo ≤ n
          → n ≤ hi
          → skips (prepared parse print a) (v4 n) ≡ false
          → (m : ℕ) × (s ≡ found (v4 m))
            × (lo ≤ m)
            × (m ≤ n)
            × (skips (prepared parse print a) (v4 m) ≡ false)
            × ((k : ℕ) → lo ≤ k → k < m → skips (prepared parse print a) (v4 k) ≡ true)
      lowest_of_search n (found x) d (m, e, ge, le, free, least) p q f = (
        m,
        ap found e,
        ge,
        elim (dec_lt n m) [
          | yes l ↦ absurd (true-ne-false (sym (least n p l) ∙ f))
          | no l ↦ omega arith
        ],
        free,
        least,
      )
      lowest_of_search n exhausted d all p q f = absurd (true-ne-false (sym (all n p q) ∙ f))
      lowest_of_search n unfinished d u p q f = absurd (d refl)

      IsBarred-of_skips : (k : ℕ) → skips (prepared parse print a) (v4 k) ≡ true → IsBarred k
      unfolding IsBarred
      IsBarred-of_skips k s = elim (Bool-cases (ends_in_zero (v4 k))) [
        | inl z ↦ inl z
        | inr z ↦ inr (λ f. true-ne-false (sym s ∙ unbarred_of_free parse print a (v4 k) f z))
      ]

      -- No fixed address is asked for, all exclusions and reservations are addresses, and no text is
      -- parsed to the zero address. If the first range is of IPv4, ends below 255.255.255.255 and
      -- holds a free address that does not end in zero, `AssignIP` succeeds with the lowest address
      -- of the range that no exclusion, reservation or ending bars: that address is free and does not
      -- end in zero, and every lower one of the range ends in zero or is not free.
      pub assign_ip-lowest :
          ParsesValid parse print
          → hi + 1 < 2 ^ 32
          → (n : ℕ) → lo ≤ n
          → n ≤ hi
          → ends_in_zero (v4 n) ≡ false
          → IsFree parse print a (v4 n)
          → (m : ℕ) × ((assign_ip parse print a).1 ≡ ok (ip_address parse print a (v4 m)))
            × (lo ≤ m)
            × (m ≤ n)
            × (ends_in_zero (v4 m) ≡ false)
            × IsFree parse print a (v4 m)
            × ((k : ℕ)
                → lo ≤ k
                → k < m
                → (ends_in_zero (v4 k) ≡ true) ⊎ ¬ IsFree parse print a (v4 k))
      unfolding IsBarred
      assign_ip-lowest valid below n p q z free =
          let b = prepared parse print a in
          let s = search_range b (steps_left (v4 lo)) (v4 lo) (v4 hi) in
          let (m, e, ge, le, passed, least) =
            lowest_of_search n s
              (search_range-finishes b _ (v4 lo) (v4 hi) (zero_unbarred parse print valid a)
                (omega arith))
              (search_range-IsFirstFree b v4 (2 ^ 32) v4-IsFamily _ lo hi below) p q
              (unbarred_of_free parse print a (v4 n) free z) in
          let (ending, unheld) = unbarred-IsFree (v4 m) passed in
          (
            m,
            first_range (v4 m) e,
            ge,
            le,
            ending,
            unheld,
            λ k u v. IsBarred-of_skips k (least k u v),
          )
