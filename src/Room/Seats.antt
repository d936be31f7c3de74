-- ===== src/Room/Seats.antt =====
-- The seats of a room and their reservations (src/rooms.rs, `impl RoomInner`).
use mathlib.Core.Option
use bridge_table_service.Bridge.{Direction, direction_eq, east, north, south, west}
use bridge_table_service.Prelude.{
  Bool, List, Option, String, [], false, filter, find, if◌then◌else◌, is_some, leb, ltb, none, not,
  some, string_eq, true, ℕ, ◌&&◌, ◌==◌, ◌||◌, ◌∷◌,
}
use bridge_table_service.Room.{Occupant, Reservation, RoomInner, SeatMap}

module _ {V : Type 0} where
  -- `map.insert(seat, v)`
  unfoldable pub insert_at : Direction → V → SeatMap V → SeatMap V
  insert_at seat v m d = if d == seat then some v else m d

  -- `map.remove(&seat)`
  unfoldable pub remove_at : Direction → SeatMap V → SeatMap V
  remove_at seat m d = if d == seat then none else m d

  -- Whether the entry at a seat passes a test.
  unfoldable pub entry_is : (V → Bool) → Option V → Bool
  entry_is p none = false
  entry_is p (some v) = p v

  -- `map.iter().find(..)`, which gives the seat, by the order of iteration
  unfoldable pub find_seat : List Direction → (V → Bool) → SeatMap V → Option Direction
  unfolding entry_is
  find_seat order p m = find (λ d. entry_is p (m d)) order

  -- `map.iter().filter(..)`, collected as seats
  unfoldable pub filter_seats : List Direction → (V → Bool) → SeatMap V → List Direction
  unfolding entry_is
  filter_seats order p m = filter (λ d. entry_is p (m d)) order

-- `set.insert(seat)` and `set.remove(&seat)` on `no_bot`
unfoldable pub add_seat : Direction → (Direction → Bool) → Direction → Bool
add_seat seat s d = d == seat || s d

unfoldable pub drop_seat : Direction → (Direction → Bool) → Direction → Bool
drop_seat seat s d = not (d == seat) && s d

-- The occupant of a ticket that has just been shown.
unfoldable pub arrival : String → String → Occupant
arrival sub name = record { sub = sub; name = name; connected = true; disconnected_at = none }

-- `RoomInner::try_place`
unfoldable pub try_place : RoomInner → Direction → Occupant → RoomInner × Bool
unfolding insert_at drop_seat
try_place r seat occ = elim (r.seats seat) [
  | none ↦ (record r { seats = insert_at seat occ r.seats; no_bot = drop_seat seat r.no_bot }, true)
  | some o ↦ (r, false)
]

-- `RoomInner::try_seat`
unfoldable pub try_seat : RoomInner → Direction → String → String → RoomInner × Bool
unfolding try_place arrival
try_seat r seat sub name = try_place r seat (arrival sub name)

-- The reconnection of an occupant: `occ.connected = true; occ.disconnected_at = None; occ.name = name`.
unfoldable pub rebound : String → Occupant → Occupant
rebound name o = record o { connected = true; disconnected_at = none; name = name }

-- `seats.get_mut(&seat)`, changed by `change`
unfoldable pub update_at : Direction → (Occupant → Occupant) → SeatMap Occupant → SeatMap Occupant
update_at seat change m d = if d == seat then Option.map change (m d) else m d

-- The loop `for seat in [North, South, West, East]` of `seat_or_rebind`.
unfoldable pub first_vacant :
    RoomInner → List Direction → String → String → RoomInner × Option Direction
unfolding insert_at drop_seat arrival
first_vacant r [] sub name = (r, none)
first_vacant r (seat ∷ order) sub name =
    let rest = first_vacant r order sub name in
    elim (r.seats seat) [
      | none ↦ (
        record r {
          seats = insert_at seat (arrival sub name) r.seats;
          no_bot = drop_seat seat r.no_bot;
        },
        some seat,
      )
      | some o ↦ rest
    ]

-- `RoomInner::seat_or_rebind`
unfoldable pub seat_or_rebind :
    List Direction → RoomInner → String → String → RoomInner × Option Direction
unfolding find_seat update_at rebound first_vacant
seat_or_rebind order r sub name = elim (find_seat order (λ o. o.sub == sub) r.seats) [
  | some seat ↦ (record r { seats = update_at seat (rebound name) r.seats }, some seat)
  | none ↦ first_vacant r (north ∷ south ∷ west ∷ east ∷ []) sub name
]

-- `RoomInner::set_empty`
unfoldable pub set_empty : RoomInner → Direction → RoomInner
unfolding add_seat
set_empty r seat = record r { no_bot = add_seat seat r.no_bot }

-- `RoomInner::set_bot`
unfoldable pub set_bot : RoomInner → Direction → RoomInner
unfolding drop_seat
set_bot r seat = record r { no_bot = drop_seat seat r.no_bot }

-- `RoomInner::vacate`
unfoldable pub vacate : RoomInner → Direction → RoomInner × Option Occupant
unfolding remove_at
vacate r seat = (record r { seats = remove_at seat r.seats }, r.seats seat)

-- `RoomInner::mark_disconnected` at the time `now`
unfoldable pub mark_disconnected : RoomInner → String → ℕ → RoomInner
mark_disconnected r sub now = record r {
  seats = λ d.
      Option.map
        (λ o.
          if o.sub == sub then record o { connected = false; disconnected_at = some now } else o)
        (r.seats d);
}

-- `RoomInner::active_reservation`
unfoldable pub active_reservation : RoomInner → Direction → ℕ → Option Reservation
active_reservation r seat now = elim (r.reservations seat) [
  | none ↦ none
  | some v ↦ if ltb now v.expires_at then some v else none
]

-- `RoomInner::try_reserve`
unfoldable pub try_reserve : RoomInner → Direction → String → String → ℕ → RoomInner × Bool
unfolding insert_at drop_seat
try_reserve r seat sub name expires_at = elim (r.seats seat) [
  | some o ↦ (r, false)
  | none ↦ (
    record r {
      no_bot = drop_seat seat r.no_bot;
      reservations =
          insert_at seat (record { sub = sub; name = name; expires_at = expires_at })
            r.reservations;
    },
    true,
  )
]

-- `RoomInner::cancel_reservation`
unfoldable pub cancel_reservation : RoomInner → Direction → RoomInner × Bool
unfolding remove_at
cancel_reservation r seat =
    (record r { reservations = remove_at seat r.reservations }, is_some (r.reservations seat))

-- The loop of `sweep_reservations` over the expired seats.
unfoldable pub remove_all : List Direction → SeatMap Reservation → SeatMap Reservation
unfolding remove_at
remove_all [] m = m
remove_all (seat ∷ seats) m = remove_all seats (remove_at seat m)

-- `RoomInner::sweep_reservations`
unfoldable pub sweep_reservations : List Direction → RoomInner → ℕ → RoomInner × List Direction
unfolding filter_seats remove_all
sweep_reservations order r now =
    let expired = filter_seats order (λ v. leb v.expires_at now) r.reservations in
    (record r { reservations = remove_all expired r.reservations }, expired)

-- `RoomInner::reserved_seat_for`
unfoldable pub reserved_seat_for : List Direction → RoomInner → String → ℕ → Option Direction
unfolding find_seat
reserved_seat_for order r sub now =
    find_seat order (λ v. v.sub == sub && ltb now v.expires_at) r.reservations
