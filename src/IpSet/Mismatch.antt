-- ===== src/IpSet/Mismatch.antt =====
-- What a pass of the IPSet controller says where its loop over the networks fails.
use infra_operator.Base.{
  ℕ, suc, ◌+◌, ◌≤◌, ◌<◌, String, ◌≡◌, ◌⊎◌, inl, inr, refl, Bool, false, none, some, List, [], ◌∷◌,
  ◌==◌, string_eq, nat_eq, length, arith, Option-cases,
}
use infra_operator.Base.StringMap.{StringMap, empty}
use infra_operator.Ipam.{IpAddress, ReservationMap}
use infra_operator.NetConfig.{Network}
use infra_operator.IpSet.{
  IpSetNetwork, IpSetReservation, Functions, IpSetError, Progress, insert, add_network,
  add_networks, not_found, ensure_reservation, send,
}
use infra_operator.IpSet.Stable.{add_network-IsRound}
use infra_operator.IpSet.Reconcile.{
  reservation_mismatch, is_unknown, is_false, conclude, reconcile_normal,
}

length-insert :
    (k : String) (v : IpAddress) (m : ReservationMap) → length (insert k v m) ≤ suc (length m)
unfolding insert
length-insert k v [] = omega arith
length-insert k v ((j, w) ∷ m) = ground (arith, length-insert k v m)

module _ (f : Functions) (ipset : String) (reservations : List ReservationMap)
    (cfg : List Network) where
  length-add_network :
      (n : IpSetNetwork) (p : Progress)
      → length (add_network f ipset reservations cfg n p).0.spec ≤ suc (length p.spec)
  length-add_network n p = elim (add_network-IsRound f ipset reservations cfg n p) [
    | inl e ↦ rw e (omega arith)
    | inr (net, s, ip, g, a, e) ↦ rw e (length-insert net.name ip p.spec)
  ]

  -- A round that fails adds no address.
  add_network-spec :
      (n : IpSetNetwork) (p : Progress) (x : IpSetError)
      → (add_network f ipset reservations cfg n p).1 ≡ some x
      → (add_network f ipset reservations cfg n p).0.spec ≡ p.spec
  unfolding add_network
  add_network-spec n p x h = ground arith

  -- A loop that fails leaves fewer addresses than there are networks, and those before.
  length-add_networks :
      (ns : List IpSetNetwork) (p : Progress) (x : IpSetError)
      → (add_networks f ipset reservations cfg ns p).1 ≡ some x
      → length (add_networks f ipset reservations cfg ns p).0.spec < length p.spec + length ns
  unfolding add_networks
  length-add_networks [] p x h = ground arith
  length-add_networks (n ∷ ns) p x h =
      let q = (add_network f ipset reservations cfg n p).0 in
      let step = length-add_network n p in
      elim (Option-cases (add_network f ipset reservations cfg n p).1) [
        | inl e ↦
            let rest = length-add_networks ns q x (rw (add_networks, e) at h) in
            rw (add_networks, e) (omega arith)
        | inr (y, e) ↦
            let same = add_network-spec n p y e in rw (add_networks, e, same) (omega arith)
      ]

module _ (f : Functions) (patch : StringMap → ReservationMap → String ⊎ ReservationMap)
    (sort : (IpSetReservation → IpSetReservation → Bool)
      → List IpSetReservation
      → List IpSetReservation)
    (accepts : (labels : StringMap) (m : ReservationMap) → patch labels m ≡ inr m) where
  -- For an IPSet without a Reservation, if the client accepts the write: where the loop over the
  -- networks fails, the pass returns no error, and the Reservation's condition is the mismatch of the
  -- numbers; the IPSet is not ready.
  pub reconcile_normal-reports_mismatch :
      (ipset : String) (networks : List IpSetNetwork) (cfg : List Network)
      (cfgs : List (List Network)) (reservations : List ReservationMap) (x : IpSetError)
      → (add_networks f ipset reservations cfg networks
          (record { spec = []; labels = empty; status = [] })).1
        ≡ some x
      → let done =
          reconcile_normal f patch sort ipset networks
            (inr (cfg ∷ cfgs))
            (inr reservations)
            not_found in
        (done.result ≡ none)
        × ((n : ℕ) × (done.conditions.reservation_ready
              ≡ is_false (reservation_mismatch n (length networks))))
        × (done.conditions.ready ≡ is_unknown)
  unfolding reconcile_normal conclude ensure_reservation send
  reconcile_normal-reports_mismatch ipset networks cfg cfgs reservations x h =
      let start : Progress = record { spec = []; labels = empty; status = [] } in
      let end = (add_networks f ipset reservations cfg networks start).0 in
      let fewer = length-add_networks f ipset reservations cfg networks start x h in
      let written = accepts end.labels end.spec in
      let differ : (length end.spec == length networks) ≡ false = ground arith in
      rw (conclude, send, written, differ) (refl, (_, refl), refl)
