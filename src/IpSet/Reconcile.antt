-- ===== src/IpSet/Reconcile.antt =====
-- `reconcileNormal` of internal/controller/network/ipset_controller.go: the conditions that it sets and
-- its result. The answers of the client and `sort.Slice` are parameters.
use infra_operator.Base.{
  ℕ, String, Bool, ◌&&◌, not, Option, none, some, List, [], ◌∷◌, ◌==◌, nat_eq, length, ◌⊎◌, inl,
  inr, if◌then◌else◌,
}
use infra_operator.Base.StringMap.{StringMap}
use infra_operator.Ipam.{ReservationMap}
use infra_operator.NetConfig.{Network}
use infra_operator.IpSet.{
  IpSetNetwork, IpSetReservation, Functions, IpSetError, GetReply, Ensured, ensure_reservation,
}

-- Why a condition is false.
pub data Reason : Type 0 where
  net_config_error reservation_list_error : String → Reason
  net_config_missing : Reason
  reservation_error : IpSetError → Reason
  reservation_mismatch : ℕ → ℕ → Reason

pub data Condition : Type 0 where
  is_unknown is_true : Condition
  is_false : Reason → Condition

pub record Conditions : Type 0 where
  pub input_ready : Condition
  pub reservation_ready : Condition
  pub ready : Condition

-- The errors that a pass returns.
pub data PassError : Type 0 where
  list_failed : String → PassError
  ensure_failed : IpSetError → PassError

pub record Pass : Type 0 where
  pub conditions : Conditions
  pub status : List IpSetReservation
  pub result : Option PassError

abbrev pub initial : Conditions
initial = record { input_ready = is_unknown; reservation_ready = is_unknown; ready = is_unknown }

abbrev pub ctl_plane_network : String
ctl_plane_network = "ctlplane"

-- The order of the status: the control plane's network first.
abbrev pub is_before : (String → String → Bool) → IpSetReservation → IpSetReservation → Bool
is_before equal_fold x y =
    equal_fold x.service_network ctl_plane_network
    && not (equal_fold y.service_network ctl_plane_network)

module _ (f : Functions) (patch : StringMap → ReservationMap → String ⊎ ReservationMap)
    (sort : (IpSetReservation → IpSetReservation → Bool)
      → List IpSetReservation
      → List IpSetReservation) where
  -- Behind `ensureReservation`; both inputs are there.
  unfoldable pub conclude : List IpSetNetwork → Ensured → Pass
  conclude networks e = elim e.result [
    | inl x ↦ record {
      conditions = record initial {
        input_ready = is_true;
        reservation_ready = is_false (reservation_error x);
      };
      status = e.status;
      result = some (ensure_failed x);
    }
    | inr m ↦
        if length m == length networks
        then record {
          conditions = record {
            input_ready = is_true;
            reservation_ready = is_true;
            ready = is_true;
          };
          status = sort (is_before f.equal_fold) e.status;
          result = none;
        }
        else record {
          conditions = record initial {
            input_ready = is_true;
            reservation_ready = is_false (reservation_mismatch (length e.status) (length networks));
          };
          status = e.status;
          result = none;
        }
  ]

  abbrev pub input_fails : Reason → Option PassError → Pass
  input_fails r e = record {
    conditions = record initial { input_ready = is_false r };
    status = [];
    result = e;
  }

  unfoldable pub reconcile_normal :
      String
      → List IpSetNetwork
      → String ⊎ List (List Network)
      → String ⊎ List ReservationMap
      → GetReply
      → Pass
  reconcile_normal ipset networks (inl x) reservations reply =
      input_fails (net_config_error x) (some (list_failed x))
  reconcile_normal ipset networks (inr []) reservations reply = input_fails net_config_missing none
  reconcile_normal ipset networks (inr (cfg ∷ cfgs)) (inl x) reply =
      input_fails (reservation_list_error x) (some (list_failed x))
  reconcile_normal ipset networks (inr (cfg ∷ cfgs)) (inr reservations) reply =
      conclude networks (ensure_reservation f patch ipset reservations cfg networks [] reply)
