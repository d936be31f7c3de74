-- ===== src/Room/Reservations.antt =====
-- Reservations of seats (src/rooms.rs, `sweep_reservations` and `active_reservation`).
use bridge_table_service.Bridge.{Direction, direction_beq_iff, direction_eq}
use bridge_table_service.Prelude.{
  List, [], arith, contains, contains-filter, filter, if◌then◌else◌, leb, none, refl, true, ℕ, ◌∙◌,
  ◌∷◌, ◌≡◌, ◌≤◌,
}
use bridge_table_service.Room.{Reservation, RoomInner, SeatMap}
use bridge_table_service.Room.Seats.{
  active_reservation, entry_is, filter_seats, remove_all, remove_at, sweep_reservations,
}

-- Removing a list of seats removes their entries, and no other.
remove_all_lem :
    (seats : List Direction) (m : SeatMap Reservation) (d : Direction)
    → remove_all seats m d ≡ (if contains seats d then none else m d)
unfolding remove_all remove_at
remove_all_lem [] m d = refl
remove_all_lem (s ∷ seats) m d =
    ground
      (arith, remove_all_lem seats (remove_at s m) d, direction_beq_iff s d, direction_beq_iff d s)

-- A sweep removes exactly the reservations whose time has come. `order` is the order in which the map is
-- walked, and lists every seat.
sweep_reservations-entry :
    (order : List Direction) (r : RoomInner) (now : ℕ) (d : Direction)
    → contains order d ≡ true
    → (sweep_reservations order r now).0.reservations d
      ≡ (if entry_is (λ v. leb v.expires_at now) (r.reservations d) then none else r.reservations d)
unfolding sweep_reservations filter_seats
sweep_reservations-entry order r now d listed =
    let expired : List Direction =
      filter (λ e. entry_is (λ v. leb v.expires_at now) (r.reservations e)) order in
    remove_all_lem expired r.reservations d
    ∙ (rw
        (
          contains-filter (λ d. entry_is (λ v. leb v.expires_at now) (r.reservations d)) order d,
          listed,
        )
        refl)

-- What is active after a sweep is what was active before it: at the time of the sweep and at any later
-- time, a sweep changes no seat's active reservation. `order`, in
-- which the map is walked, lists every seat.
pub active_reservation-sweep :
    (order : List Direction) (r : RoomInner) (now later : ℕ) (d : Direction)
    → ((e : Direction) → contains order e ≡ true)
    → now ≤ later
    → active_reservation (sweep_reservations order r now).0 d later ≡ active_reservation r d later
unfolding active_reservation entry_is
active_reservation-sweep order r now later d lists le =
    let e = sweep_reservations-entry order r now d (lists d) in ground (arith, e)
