-- ===== src/IpSet/Deletion.antt =====
-- `Reconcile` and `reconcileDelete` of internal/controller/network/ipset_controller.go: the finalizers of
-- an IPSet and of its Reservation. controllerutil's functions on finalizers, which return the list and
-- whether it was changed, and the answers of the client are parameters.
use infra_operator.Base.{
  String, ◌≡◌, refl, ◌⊎◌, inl, inr, Bool, false, ◌||◌, Option, none, some, List, if◌then◌else◌,
  arith, Bool-cases,
}

-- What is read of an IPSet; it is new while it has no conditions.
pub record IpSetMeta : Type 0 where
  pub deleted : Bool
  pub is_new : Bool
  pub finalizers : List String

-- The answer to `getReservation`, with the finalizers that are on it, and to an update.
pub data ReservationReply : Type 0 where
  reservation : List String → ReservationReply
  no_reservation : ReservationReply
  read_failed : String → ReservationReply

pub data UpdateReply : Type 0 where
  updated already_gone : UpdateReply
  update_failed : String → UpdateReply

-- What a pass of the deletion leaves: the IPSet's finalizers, those sent for the Reservation, the error.
pub record DeletePass : Type 0 where
  pub finalizers : List String
  pub sent : Option (List String)
  pub error : Option String

-- Where a pass goes on: it registers the finalizer and ends, deletes, or does its work.
pub data Way : Type 0 where
  registers : List String → Way
  deletes : DeletePass → Way
  works : Way

-- Behind the update of the Reservation: with an error the IPSet keeps its finalizers.
unfoldable pub behind_update : List String → List String → List String → UpdateReply → DeletePass
behind_update ours done left updated = record { finalizers = done; sent = some left; error = none }
behind_update ours done left already_gone = record {
  finalizers = done;
  sent = some left;
  error = none;
}
behind_update ours done left (update_failed e) = record {
  finalizers = ours;
  sent = some left;
  error = some e;
}

module _ (add remove : List String → List String × Bool) (answer : List String → UpdateReply) where
  unfoldable pub release_reservation : List String → List String → DeletePass
  release_reservation ours theirs =
      let (left, changed) = remove theirs in
      if changed
      then behind_update ours (remove ours).0 left (answer left)
      else record { finalizers = (remove ours).0; sent = none; error = none }

  unfoldable pub reconcile_delete : List String → ReservationReply → DeletePass
  reconcile_delete ours (reservation theirs) = release_reservation ours theirs
  reconcile_delete ours no_reservation = record {
    finalizers = (remove ours).0;
    sent = none;
    error = none;
  }
  reconcile_delete ours (read_failed e) = record { finalizers = ours; sent = none; error = some e }

  unfoldable pub reconcile_ip_set : IpSetMeta → ReservationReply → Way
  reconcile_ip_set m reply =
      let (fs, changed) = if m.deleted then (m.finalizers, false) else add m.finalizers in
      if changed || m.is_new
      then registers fs
      else if m.deleted
      then deletes (reconcile_delete m.finalizers reply)
      else works

  -- What holds of the IPSet and its Reservation behind a pass.
  abbrev pub IsReleasedBehind : List String → ReservationReply → DeletePass → Type 0
  IsReleasedBehind ours reply p =
      ((p.finalizers ≡ ours) × ¬ (p.error ≡ none))
      ⊎ ((p.error ≡ none)
          × ((reply ≡ no_reservation)
              ⊎ ((theirs : List String) × (reply ≡ reservation theirs)
                  × (((remove theirs).1 ≡ false) ⊎ (p.sent ≡ some (remove theirs).0)))))

  behind_update-IsReleasedBehind :
      (ours theirs : List String) (a : UpdateReply)
      → IsReleasedBehind ours
          (reservation theirs)
          (behind_update ours (remove ours).0 (remove theirs).0 a)
  unfolding behind_update
  behind_update-IsReleasedBehind ours theirs updated = inr (refl, inr (theirs, refl, inr refl))
  behind_update-IsReleasedBehind ours theirs already_gone = inr (refl, inr (theirs, refl, inr refl))
  behind_update-IsReleasedBehind ours theirs (update_failed e) = inl (refl, λ x. cc x)

  -- The Reservation is released before its IPSet: a pass of the deletion ends with an error and the
  -- IPSet's finalizers as they were, or without one, and the Reservation was not there, its finalizers
  -- were without that of the IPSet's controller, or they were sent without it.
  pub reconcile_delete-IsReleasedBehind :
      (ours : List String) (reply : ReservationReply)
      → IsReleasedBehind ours reply (reconcile_delete ours reply)
  unfolding reconcile_delete release_reservation
  reconcile_delete-IsReleasedBehind ours no_reservation = inr (refl, inl refl)
  reconcile_delete-IsReleasedBehind ours (read_failed e) = inl (refl, λ x. cc x)
  reconcile_delete-IsReleasedBehind ours (reservation theirs) =
      elim (Bool-cases (remove theirs).1) [
        | inl changed ↦
            rw changed (behind_update-IsReleasedBehind ours theirs (answer (remove theirs).0))
        | inr same ↦ rw same (inr (refl, inr (theirs, refl, inl same)))
      ]

  -- A live IPSet is worked on only with its finalizer on.
  reconcile_ip_set-works :
      (m : IpSetMeta) (reply : ReservationReply)
      → reconcile_ip_set m reply ≡ works
      → (m.deleted ≡ false) × ((add m.finalizers).1 ≡ false)
  unfolding reconcile_ip_set
  reconcile_ip_set-works m reply e = ground arith
