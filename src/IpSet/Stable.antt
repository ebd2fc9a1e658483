-- ===== src/IpSet/Stable.antt =====
-- `ensureReservation` keeps the addresses that an IPSet already has, and gives one to every network.
use infra_operator.Base.{
  Sum-cases, String, ◌≡◌, ◌≢◌, ◌⊎◌, inl, inr, refl, sym, ap, ◌∙◌, none, some, List, [], ◌∷◌, arith,
  ◌==◌, string_eq, if◌then◌else◌, All, Option-cases,
}
use mathlib.Core.Path.{subst}
use mathlib.Core.Option.{none-ne-some}
use infra_operator.Base.StringMap.{StringMap, empty}
use infra_operator.Ipam.{Subnet, IpAddress, ReservationMap, lookup}
use infra_operator.NetConfig.{Network, LookupError, Lookup, present, missing, get_net_and_subnet}
use infra_operator.IpSet.{
  Functions, IpSetError, IpSetNetwork, IpSetReservation, Progress, insert, new_address, add_network,
  add_networks, GetReply, got, not_found, failed, ensure_reservation,
}

pub lookup-insert :
    (net asked : String) (added : IpAddress) (spec : ReservationMap)
    → lookup asked (insert net added spec)
      ≡ (if net == asked then some added else lookup asked spec)
unfolding lookup insert
lookup-insert net asked added [] = refl
lookup-insert net asked added ((name, held) ∷ rest) =
    ground (arith, lookup-insert net asked added rest)

Lookup-cases :
    {A : Type 0} (r : Lookup A)
    → ((e : LookupError) × (r ≡ missing e)) ⊎ ((a : A) × (r ≡ present a))
Lookup-cases (missing e) = inl (e, refl)
Lookup-cases (present a) = inr (a, refl)

module _ (f : Functions) (ipset : String) (reservations : List ReservationMap)
    (netcfg : List Network) where
  -- A round leaves the map alone, or adds an address for a network that had none.
  abbrev pub IsRound : IpSetNetwork → Progress → Progress → Type 0
  IsRound n p q =
      (q.spec ≡ p.spec)
      ⊎ ((net : Network) × (s : Subnet) × (ip : IpAddress) × (lookup net.name p.spec ≡ none)
          × (new_address f ipset reservations n net s ≡ inr ip)
          × (q.spec ≡ insert net.name ip p.spec))

  pub add_network-IsRound :
      (n : IpSetNetwork) (p : Progress)
      → IsRound n p (add_network f ipset reservations netcfg n p).0
  unfolding add_network
  add_network-IsRound n p =
      elim (Lookup-cases (get_net_and_subnet f.equal_fold netcfg n.name n.subnet_name)) [
        | inl (e, h) ↦ rw (h, add_network) (inl refl)
        | inr ((net, s), h) ↦ elim (Option-cases (lookup net.name p.spec)) [
          | inr (ip, g) ↦ rw (h, g, add_network) (inl refl)
          | inl g ↦ elim (Sum-cases (new_address f ipset reservations n net s)) [
            | inl (e, a) ↦ rw (h, g, a, add_network) (inl refl)
            | inr (ip, a) ↦ rw (h, g, a, add_network) (inr (net, s, ip, g, a, refl))
          ]
        ]
      ]

  add_network-keeps :
      (n : IpSetNetwork) (p : Progress) (k : String) (v : IpAddress)
      → lookup k p.spec ≡ some v
      → lookup k (add_network f ipset reservations netcfg n p).0.spec ≡ some v
  add_network-keeps n p k v h = elim (add_network-IsRound n p) [
    | inl e ↦ rw e h
    | inr (net, s, ip, g, _, e) ↦ rw (e, lookup-insert) (ground arith)
  ]

  pub add_networks-keeps :
      (ns : List IpSetNetwork) (p : Progress) (k : String) (v : IpAddress)
      → lookup k p.spec ≡ some v
      → lookup k (add_networks f ipset reservations netcfg ns p).0.spec ≡ some v
  unfolding add_networks
  add_networks-keeps [] p k v h = h
  add_networks-keeps (n ∷ ns) p k v h =
      elim (Option-cases (add_network f ipset reservations netcfg n p).1) [
        | inl e ↦ rw (e, add_networks) (add_networks-keeps ns _ k v (add_network-keeps n p k v h))
        | inr (x, e) ↦ rw (e, add_networks) (add_network-keeps n p k v h)
      ]

  -- The network of a request has an address in the map.
  abbrev pub HasAddress : ReservationMap → IpSetNetwork → Type 0
  HasAddress spec n =
      (net : Network) × (s : Subnet) × (ip : IpAddress) × (get_net_and_subnet f.equal_fold netcfg
          n.name n.subnet_name
        ≡ present (net, s))
      × (lookup net.name spec ≡ some ip)

  add_network-HasAddress :
      (n : IpSetNetwork) (p : Progress)
      → (add_network f ipset reservations netcfg n p).1 ≡ none
      → HasAddress (add_network f ipset reservations netcfg n p).0.spec n
  unfolding add_network
  add_network-HasAddress n p =
      elim (Lookup-cases (get_net_and_subnet f.equal_fold netcfg n.name n.subnet_name)) [
        | inl (e, h) ↦ rw (h, add_network) (λ x. cc)
        | inr ((net, s), h) ↦ elim (Option-cases (lookup net.name p.spec)) [
          | inr (ip, g) ↦ rw (h, g, add_network) (λ _. (net, s, ip, refl, g))
          | inl g ↦ elim (Sum-cases (new_address f ipset reservations n net s)) [
            | inl (e, a) ↦ rw (h, g, a, add_network) (λ x. cc)
            | inr (ip, a) ↦
                rw (h, g, a, add_network) (λ _. (net, s, ip, refl, rw lookup-insert (ground arith)))
          ]
        ]
      ]

  add_networks-cons :
      (n : IpSetNetwork) (ns : List IpSetNetwork) (p : Progress)
      → (add_network f ipset reservations netcfg n p).1 ≡ none
      → add_networks f ipset reservations netcfg ns (add_network f ipset reservations netcfg n p).0
        ≡ add_networks f ipset reservations netcfg (n ∷ ns) p
  unfolding add_networks
  add_networks-cons n ns p e = rw (e, add_networks)

  add_networks-cons_error :
      (n : IpSetNetwork) (ns : List IpSetNetwork) (p : Progress) (x : IpSetError)
      → (add_network f ipset reservations netcfg n p).1 ≡ some x
      → (add_networks f ipset reservations netcfg (n ∷ ns) p).1 ≡ some x
  unfolding add_networks
  add_networks-cons_error n ns p x e = rw (e, add_networks)

  -- If the loop ends without an error, every requested network has an address in the map.
  pub add_networks-HasAddress :
      (ns : List IpSetNetwork) (p : Progress)
      → (add_networks f ipset reservations netcfg ns p).1 ≡ none
      → All (HasAddress (add_networks f ipset reservations netcfg ns p).0.spec) ns
  add_networks-HasAddress [] p h = tt
  add_networks-HasAddress (n ∷ ns) p h =
      elim (Option-cases (add_network f ipset reservations netcfg n p).1) [
        | inr (x, e) ↦ absurd (none-ne-some x (sym h ∙ add_networks-cons_error n ns p x e))
        | inl e ↦
            let q = (add_network f ipset reservations netcfg n p).0 in
            let (net, s, ip, g, l) = add_network-HasAddress n p e in
            let c = add_networks-cons n ns p e in
            subst (λ r. All (HasAddress r.0.spec) (n ∷ ns)) c
              (
                (net, s, ip, g, add_networks-keeps ns q net.name ip l),
                add_networks-HasAddress ns q (ap (λ r. r.1) c ∙ h),
              )
      ]

module _ (f : Functions) (patch : StringMap → ReservationMap → String ⊎ ReservationMap)
    (ipset : String) (reservations : List ReservationMap) (netcfg : List Network)
    (networks : List IpSetNetwork) (status : List IpSetReservation) where
  -- Every address that the Reservation holds is in the map that is sent, unchanged.
  pub ensure_reservation-keeps :
      (spec : ReservationMap) (k : String) (v : IpAddress)
      → lookup k spec ≡ some v
      → (labels : StringMap) × (sent : ReservationMap) × ((ensure_reservation f patch ipset
            reservations netcfg networks status
            (got spec)).sent
          ≡ some (labels, sent))
        × (lookup k sent ≡ some v)
  unfolding ensure_reservation
  ensure_reservation-keeps spec k v h =
      (_, _, refl, add_networks-keeps f ipset reservations netcfg networks _ k v h)

  -- If the read of the Reservation does not fail, or finds none, and the client accepts every write,
  -- `ensureReservation` reports success, also where its loop stopped with an error.
  pub ensure_reservation-masks_errors :
      (reply : GetReply)
      → ((x : String) → reply ≢ failed x)
      → ((l : StringMap) (m : ReservationMap) → patch l m ≡ inr m)
      → (m : ReservationMap) × ((ensure_reservation f patch ipset reservations netcfg networks
            status reply).result
          ≡ inr m)
  unfolding ensure_reservation
  ensure_reservation-masks_errors (failed x) h p = absurd (h x refl)
  ensure_reservation-masks_errors not_found h p =
      let q =
        add_networks f ipset reservations netcfg networks
          (record { spec = []; labels = empty; status = status }) in
      (q.0.spec, rw (p q.0.labels q.0.spec))
  ensure_reservation-masks_errors (got spec) h p =
      let q =
        add_networks f ipset reservations netcfg networks
          (record { spec = spec; labels = empty; status = status }) in
      (q.0.spec, rw (p q.0.labels q.0.spec))
