-- ===== src/IpSet.antt =====
-- The reconciliation of an IPSet's addresses: `ensureReservation` of
-- internal/controller/network/ipset_controller.go with the types of apis/network/v1beta1/ipset_types.go.
-- The Kubernetes client's answers and the functions of other libraries are parameters.
pub mod Stable
pub mod Fresh
pub mod Reconcile
pub mod Deletion
pub mod Mismatch
mod Tests
use infra_operator.Base.{
  ℕ, String, ◌<>◌, ◌≡◌, ◌⊎◌, inl, inr, Bool, true, false, ◌&&◌, Option, none, some, List, [], ◌∷◌,
  ◌++◌, ◌==◌, string_eq, if◌then◌else◌,
}
use infra_operator.Base.StringMap
use infra_operator.Base.StringMap.{StringMap}
use infra_operator.Netip.{Addr, invalid, is_valid}
use infra_operator.Ipam.{
  Route, Subnet, IpAddress, ReservationMap, lookup, IpamError, Result, ok, err, AssignIpDetails,
  assign_ip,
}
use infra_operator.NetConfig.{
  Network, LookupError, Lookup, present, missing, get_net_and_subnet, to_default_service_network,
}

pub record IpSetNetwork : Type 0 where
  pub name : String
  pub subnet_name : String
  pub fixed_ip : Option String
  pub default_route : Option Bool

pub record IpSetReservation : Type 0 where
  pub network : String
  pub subnet : String
  pub address : String
  pub mtu : ℕ
  pub cidr : String
  pub vlan : Option ℕ
  pub gateway : Option String
  pub routes : List Route
  pub dns_domain : String
  pub service_network : String

-- The functions of the standard library and of k8s.io/utils that the loop calls.
pub record Functions : Type 0 where
  pub parse : String → Option Addr
  pub print : Addr → String
  pub equal_fold : String → String → Bool
  pub to_lower : String → String
  pub is_ipv6 : String → Bool
  pub merge : StringMap → StringMap → StringMap

-- `m[k] = v` on the reservation map.
unfoldable pub insert : String → IpAddress → ReservationMap → ReservationMap
insert net added [] = (net, added) ∷ []
insert net added ((name, held) ∷ spec) =
    if name == net then (net, added) ∷ spec else (name, held) ∷ insert net added spec

pub data IpSetError : Type 0 where
  lookup_failed : LookupError → IpSetError
  bad_fixed_ip : String → IpSetError
  ip_failed : IpamError → IpSetError
  get_failed patch_failed : String → IpSetError

-- The variables that the loop over the requested networks changes.
pub record Progress : Type 0 where
  pub spec : ReservationMap
  pub labels : StringMap
  pub status : List IpSetReservation

abbrev pub ipam_label_key : String
ipam_label_key = "ipam.network.openstack.org"

-- `*p` where p is not nil.
abbrev text : Option String → String
text none = ""
text (some s) = s

abbrev pub is_true : Option Bool → Bool
is_true none = false
is_true (some b) = b

module _ (f : Functions) where
  -- The fixed address of a request: none asked for is the zero `Addr`.
  unfoldable pub parse_fixed_ip : Option String → Option Addr
  parse_fixed_ip none = some invalid
  parse_fixed_ip (some s) = elim (f.parse s) [
    | none ↦ none
    | some ip ↦ if is_valid ip then some ip else none
  ]

  -- The default route through the subnet's gateway, if it is requested and there is one.
  unfoldable pub with_default_route : IpSetNetwork → Subnet → IpSetReservation → IpSetReservation
  with_default_route n s r = elim s.gateway [
    | none ↦ r
    | some gw ↦
        if is_true n.default_route
        then record r {
          gateway = s.gateway;
          routes =
              r.routes
              ++ (record {
                destination = if f.is_ipv6 r.address then "::/0" else "0.0.0.0/0";
                nexthop = gw;
              }
                  ∷ []);
        }
        else r
  ]

  unfoldable pub status_entry : IpSetNetwork → Network → Subnet → IpAddress → IpSetReservation
  unfolding with_default_route to_default_service_network
  status_entry n net s ip =
      let service =
        if net.service_network == ""
        then to_default_service_network f.to_lower net.name
        else net.service_network in
      let r : IpSetReservation = record {
        network = net.name;
        subnet = s.name;
        address = ip.address;
        mtu = net.mtu;
        cidr = s.cidr;
        vlan = s.vlan;
        gateway = s.gateway;
        routes = s.routes;
        dns_domain = net.dns_domain;
        service_network = service;
      } in
      let routed = with_default_route n s r in
      elim s.dns_domain [ none ↦ routed | some d ↦ record routed { dns_domain = d } ]

  -- A new address for the network, from `AssignIP` on fresh details.
  unfoldable pub new_address :
      String → List ReservationMap → IpSetNetwork → Network → Subnet → IpSetError ⊎ IpAddress
  new_address ipset reservations n net s = elim (parse_fixed_ip n.fixed_ip) [
    | none ↦ inl (bad_fixed_ip (text n.fixed_ip))
    | some fixed ↦
        elim (assign_ip f.parse f.print (record {
          ip_set = ipset;
          net_name = net.name;
          subnet = s;
          reservelist = reservations;
          fixed_ip = fixed;
          excluded = none;
          reserved = none;
        })).1 [ ok ip ↦ inr ip | err e ↦ inl (ip_failed e) ]
  ]

  -- One round of the loop. What it has changed stays changed when it returns an error.
  unfoldable pub add_network :
      String
      → List ReservationMap
      → List Network
      → IpSetNetwork
      → Progress
      → Progress × Option IpSetError
  add_network ipset reservations netcfg n p =
      elim (get_net_and_subnet f.equal_fold netcfg n.name n.subnet_name) [
        | missing e ↦ (p, some (lookup_failed e))
        | present (net, s) ↦
            let label =
              StringMap.set (ipam_label_key <> ("/" <> net.name)) s.name StringMap.empty in
            let q = record p { labels = f.merge p.labels label } in
            elim (lookup net.name p.spec) [
              | some ip ↦ (record q { status = p.status ++ (status_entry n net s ip ∷ []) }, none)
              | none ↦ elim (new_address ipset reservations n net s) [
                | inl e ↦ (q, some e)
                | inr ip ↦ (
                  record q {
                    spec = insert net.name ip p.spec;
                    status = p.status ++ (status_entry n net s ip ∷ []);
                  },
                  none,
                )
              ]
            ]
      ]

  unfoldable pub add_networks :
      String
      → List ReservationMap
      → List Network
      → List IpSetNetwork
      → Progress
      → Progress × Option IpSetError
  add_networks ipset reservations netcfg [] p = (p, none)
  add_networks ipset reservations netcfg (n ∷ ns) p =
      let (q, e) = add_network ipset reservations netcfg n p in
      elim e [ none ↦ add_networks ipset reservations netcfg ns q | some x ↦ (q, some x) ]

-- What the client's read of the Reservation returns.
pub data GetReply : Type 0 where
  got : ReservationMap → GetReply
  not_found : GetReply
  failed : String → GetReply

-- What reconciliation did: the write that it sent, the status that it built, its result.
pub record Ensured : Type 0 where
  pub sent : Option (StringMap × ReservationMap)
  pub status : List IpSetReservation
  pub result : IpSetError ⊎ ReservationMap

module _ (f : Functions) (patch : StringMap → ReservationMap → String ⊎ ReservationMap) where
  -- The deferred call sends the map on every way out, and what it assigns to the named results
  -- replaces the loop's error.
  send : Progress × Option IpSetError → Ensured
  send (p, e) = record {
    sent = some (p.labels, p.spec);
    status = p.status;
    result = elim (patch p.labels p.spec) [ inl x ↦ inl (patch_failed x) | inr m ↦ inr m ];
  }

  unfoldable pub ensure_reservation :
      String
      → List ReservationMap
      → List Network
      → List IpSetNetwork
      → List IpSetReservation
      → GetReply
      → Ensured
  unfolding send
  ensure_reservation ipset reservations netcfg networks status (failed x) = record {
    sent = none;
    status = status;
    result = inl (get_failed x);
  }
  ensure_reservation ipset reservations netcfg networks status not_found = send (
      add_networks f ipset reservations netcfg networks
        (record { spec = []; labels = StringMap.empty; status = status }))
  ensure_reservation ipset reservations netcfg networks status (got spec) = send (
      add_networks f ipset reservations netcfg networks
        (record { spec = spec; labels = StringMap.empty; status = status }))
