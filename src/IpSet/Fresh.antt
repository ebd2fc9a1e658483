-- ===== src/IpSet/Fresh.antt =====
-- The addresses that `ensureReservation` adds are free: no reservation in the namespace holds them.
use infra_operator.Base.{
  String, ◌≡◌, ◌≢◌, ◌⊎◌, inl, inr, refl, ap, true, Option, none, some, List, [], ◌∷◌, arith, ◌==◌,
  string_eq, All, Option-cases, Bool-cases,
}
use mathlib.Core.Path.{subst₂}
use infra_operator.Netip.{Addr}
use infra_operator.Base.StringMap.{StringMap, empty}
use infra_operator.Ipam.{Subnet, IpAddress, ReservationMap, lookup, Result, ok, err, assign_ip}
use infra_operator.Ipam.Assign.{IsUnreserved, request, assign_ip-IsFree}
use infra_operator.NetConfig.{Network}
use infra_operator.IpSet.{
  Functions, IpSetNetwork, IpSetReservation, Progress, new_address, parse_fixed_ip, add_network,
  add_networks, GetReply, failed, not_found, got, ensure_reservation,
}
use infra_operator.IpSet.Stable.{lookup-insert, IsRound, add_network-IsRound}

Result-cases : {A : Type 0} (r : Result A) → ((a : A) × (r ≡ ok a)) ⊎ ((a : A) → r ≢ ok a)
Result-cases (ok a) = inl (a, refl)
Result-cases (err e) = inr (λ a h. cc)

module _ (f : Functions) (reservations : List ReservationMap) where
  -- The entry's address is printed from one that no reservation of the network holds.
  abbrev pub IsNew : String → IpAddress → Type 0
  IsNew k v =
      (x : Addr) × (v.address ≡ f.print x) × All (IsUnreserved f.parse f.print k x) reservations

  module _ (ipset : String) (netcfg : List Network) where
    new_address-IsNew :
        (n : IpSetNetwork) (net : Network) (s : Subnet) (ip : IpAddress)
        → new_address f ipset reservations n net s ≡ inr ip
        → IsNew net.name ip
    unfolding new_address
    new_address-IsNew n net s ip h = elim (Option-cases (parse_fixed_ip f n.fixed_ip)) [
      | inl e ↦ ground arith
      | inr (fixed, e) ↦
          let a = request f.parse f.print ipset net.name s reservations fixed in
          elim (Result-cases (assign_ip f.parse f.print a).1) [
            | inr no_ip ↦ ground (arith, no_ip ip)
            | inl (ip', r) ↦
                let (x, p, free, _) =
                  assign_ip-IsFree f.parse f.print ipset net.name s reservations fixed ip
                    (ground arith) in
                (x, ap (λ i. i.address) p, free.1)
          ]
    ]

    -- Every entry of the new map was there, or is new.
    abbrev pub IsKeptOrNew : ReservationMap → ReservationMap → Type 0
    IsKeptOrNew old now =
        (k : String) (v : IpAddress) → lookup k now ≡ some v → (lookup k old ≡ some v) ⊎ IsNew k v

    IsKeptOrNew-round :
        (n : IpSetNetwork) (p q : Progress)
        → IsRound f ipset reservations netcfg n p q
        → IsKeptOrNew p.spec q.spec
    IsKeptOrNew-round n p q (inl e) k v h = inl (rw e at h)
    IsKeptOrNew-round n p q (inr (net, s, ip, g, a, e)) k v h = elim (Bool-cases (net.name == k)) [
      | inl same ↦
          let new = new_address-IsNew n net s ip a in
          inr (subst₂ IsNew (name_eq _ _ same) (entry same) new)
      | inr differ ↦ inl (ground (arith, lookup-insert net.name k ip p.spec))
    ]
      where
        name_eq : (i j : String) → (i == j) ≡ true → i ≡ j
        name_eq i j c = ground arith

        entry : (net.name == k) ≡ true → ip ≡ v
        entry c = ground (arith, lookup-insert net.name k ip p.spec)

    add_networks-IsKeptOrNew :
        (ns : List IpSetNetwork) (p : Progress)
        → IsKeptOrNew p.spec (add_networks f ipset reservations netcfg ns p).0.spec
    unfolding add_networks
    add_networks-IsKeptOrNew [] p k v = λ h. inl h
    add_networks-IsKeptOrNew (n ∷ ns) p k v =
        let q = (add_network f ipset reservations netcfg n p).0 in
        let first = IsKeptOrNew-round n p q (add_network-IsRound f ipset reservations netcfg n p) in
        elim (Option-cases (add_network f ipset reservations netcfg n p).1) [
          | inl e ↦
              rw (e, add_networks)
                λ h. elim (add_networks-IsKeptOrNew ns q k v h) [
                  | inl g ↦ first k v g
                  | inr g ↦ inr g
                ]
          | inr (x, e) ↦ rw (e, add_networks) (first k v)
        ]

    module _ (patch : StringMap → ReservationMap → String ⊎ ReservationMap)
        (networks : List IpSetNetwork) (status : List IpSetReservation) where
      -- The entries of the Reservation that the client found: none where there is none.
      abbrev pub held : GetReply → ReservationMap
      held (got spec) = spec
      held not_found = []
      held (failed x) = []

      from_start :
          (spec sent : ReservationMap) (labels : StringMap) (k : String) (v : IpAddress)
          → (let p =
                (add_networks f ipset reservations netcfg networks
                  (record { spec = spec; labels = empty; status = status })).0 in
              ◌≡◌ {A = Option (StringMap × ReservationMap)}
                (some (p.labels, p.spec))
                (some (labels, sent)))
          → lookup k sent ≡ some v
          → (lookup k spec ≡ some v) ⊎ IsNew k v
      from_start spec sent labels k v e h =
          let start : Progress = record { spec = spec; labels = empty; status = status } in
          let same = ap (λ o. elim o [ none ↦ spec | some r ↦ r.1 ]) e in
          add_networks-IsKeptOrNew networks start k v (rw same h)

      -- Each entry of the map that is sent, in a patch or in a new Reservation, was in the Reservation
      -- before, or its address is printed from one that no reservation in the list holds for that
      -- network.
      pub ensure_reservation-IsKeptOrNew :
          (reply : GetReply) (sent : ReservationMap) (labels : StringMap) (k : String)
          (v : IpAddress)
          → (ensure_reservation f patch ipset reservations netcfg networks status reply).sent
            ≡ some (labels, sent)
          → lookup k sent ≡ some v
          → (lookup k (held reply) ≡ some v) ⊎ IsNew k v
      unfolding ensure_reservation
      ensure_reservation-IsKeptOrNew (got spec) sent labels k v e h =
          from_start spec sent labels k v e h
      ensure_reservation-IsKeptOrNew not_found sent labels k v e h =
          from_start [] sent labels k v e h
      ensure_reservation-IsKeptOrNew (failed x) sent labels k v e h = cc
