-- ===== src/Session/Arrivals.antt =====
-- Placing an arriving participant (src/sessions.rs, `place_seat`). Placement holds the lock `seating`, so
-- that `rooms`, the snapshot of `place_seat`, is the rooms that the session has.
use bridge_table_service.Bridge.{Direction, east, north, south, west}
use bridge_table_service.Prelude.{
  List, Option, Result, String, [], err, false, get_elem?, if◌then◌else◌, length, nat_eq, none, ok,
  some, suc, zero, ℕ, ◌%◌, ◌++◌, ◌+◌, ◌==◌, ◌>>=◌, ◌∷◌,
}
use bridge_table_service.Room.{RoomInner, Side}
use bridge_table_service.Room.Seats.{try_seat}
use bridge_table_service.Session.{
  Failure, Placement, SeatPolicy, Session, SessionRoom, add_room, first_free, manual, one_per_seat,
  out_of_bounds, pairs,
}
use bridge_table_service.Session.Policy.{seats_of_side}
use bridge_table_service.Table.{BoardSetup}

module _ {A : Type 0} (try_room : SessionRoom → RoomInner × Option A) where
  -- A loop `for room in rooms` that returns from the first room that gives an answer.
  unfoldable pub first_room : List SessionRoom → List SessionRoom × Option (ℕ × A)
  first_room [] = ([], none)
  first_room (x ∷ rooms) =
      let rest = first_room rooms in
      let (inner, answer) = try_room x in
      elim answer [
        | some a ↦ (record x { inner = inner } ∷ rooms, some (x.id, a))
        | none ↦ (record x { inner = inner } ∷ rest.0, rest.1)
      ]

-- A loop over seats that stops at the first that `try_seat` takes.
unfoldable pub try_seats :
    List Direction → RoomInner → String → String → RoomInner × Option Direction
unfolding try_seat
try_seats [] r sub name = (r, none)
try_seats (seat ∷ seats) r sub name =
    let rest = try_seats seats (try_seat r seat sub name).0 sub name in
    if (try_seat r seat sub name).1 then ((try_seat r seat sub name).0, some seat) else rest

-- `rooms[i]`, replaced
unfoldable pub set_room : List SessionRoom → ℕ → RoomInner → List SessionRoom
set_room [] i inner = []
set_room (x ∷ rooms) zero inner = record x { inner = inner } ∷ rooms
set_room (x ∷ rooms) (suc i) inner = x ∷ set_room rooms i inner

-- `rooms[i]`, replaced by the whole room
unfoldable pub replace_room : List SessionRoom → ℕ → SessionRoom → List SessionRoom
replace_room [] i y = []
replace_room (x ∷ rooms) zero y = y ∷ rooms
replace_room (x ∷ rooms) (suc i) y = x ∷ replace_room rooms i y

module _ (rooms : List SessionRoom) (cursor : ℕ) (seats : List Direction) (sub name : String) where
  -- The loop of `seat_round_robin`, from `offset` for so many rounds.
  unfoldable pub round_robin_from : ℕ → ℕ → List SessionRoom × Option (ℕ × Direction)
  unfolding try_seats set_room
  round_robin_from offset zero = (rooms, none)
  round_robin_from offset (suc n) =
      let rest = round_robin_from (offset + 1) n in
      let i = (cursor + offset) % length rooms in
      elim (get_elem? rooms i) [
        | none ↦ (rooms, none)
        | some x ↦ (elim (try_seats seats x.inner sub name).1 [
          | some seat ↦ (set_room rooms i (try_seats seats x.inner sub name).0, some (x.id, seat))
          | none ↦ rest
        ])
      ]

  -- `Session::seat_round_robin`
  unfoldable pub seat_round_robin : List SessionRoom × Option (ℕ × Direction)
  unfolding round_robin_from
  seat_round_robin = if length rooms == 0 then (rooms, none) else round_robin_from 0 (length rooms)

-- `FILL_ORDER`
pub fill_order : List Direction
fill_order = south ∷ west ∷ north ∷ east ∷ []

-- The two inner loops of the arm for pairs: the seats of the sides, side by side.
pub seats_of_sides : List Side → List Direction
unfolding seats_of_side
seats_of_sides [] = []
seats_of_sides (side ∷ sides) = seats_of_side side ++ seats_of_sides sides

-- `seat_round_robin` from the cursor, which moves on.
unfoldable pub round_robin :
    Session → List Direction → String → String → Session × Option (ℕ × Direction)
unfolding seat_round_robin
round_robin s seats sub name =
    let (rooms, placed) = seat_round_robin s.rooms s.next_arrival seats sub name in
    (record s { rooms = rooms; next_arrival = s.next_arrival + 1 }, placed)

-- `Session::try_seat_existing`
unfoldable pub try_seat_existing :
    Session → SeatPolicy → String → String → Session × Option (ℕ × Direction)
unfolding round_robin first_room try_seats seats_of_sides fill_order
try_seat_existing s manual sub name = (s, none)
try_seat_existing s (one_per_seat seats) sub name = round_robin s seats sub name
try_seat_existing s (pairs sides) sub name =
    let (rooms, placed) =
      first_room (λ (x : SessionRoom). try_seats (seats_of_sides sides) x.inner sub name) s.rooms in
    (record s { rooms = rooms }, placed)
try_seat_existing s first_free sub name = round_robin s fill_order sub name

-- `Session::first_seat_of`, where `seats[0]` and `sides[0]` panic on nothing
unfoldable pub first_seat_of : SeatPolicy → Result Failure Direction
unfolding seats_of_side
first_seat_of (one_per_seat []) = err out_of_bounds
first_seat_of (one_per_seat (seat ∷ seats)) = ok seat
first_seat_of (pairs []) = err out_of_bounds
first_seat_of (pairs (Side.ns ∷ sides)) = ok south
first_seat_of (pairs (Side.ew ∷ sides)) = ok west
first_seat_of manual = ok south
first_seat_of first_free = ok south

-- `Session::bulk_shape`
unfoldable pub bulk_shape : Session → SeatPolicy
bulk_shape s = elim s.seat_policy [
  | manual ↦ first_free
  | first_free ↦ first_free
  | one_per_seat seats ↦ one_per_seat seats
  | pairs sides ↦ pairs sides
]

-- The room of index `i`, on which `change` is run under its lock.
unfoldable pub at_room : {A : Type 0} → Session → ℕ → (RoomInner → RoomInner × A) → A → Session × A
unfolding set_room
at_room s i change absent = elim (get_elem? s.rooms i) [
  | none ↦ (s, absent)
  | some x ↦ (record s { rooms = set_room s.rooms i (change x.inner).0 }, (change x.inner).1)
]

module _ (placeholder : BoardSetup) where
  -- `Session::seat_one`; the new table is the last.
  unfoldable pub seat_one :
      Session → SeatPolicy → String → String → Result Failure (Session × (ℕ × Direction))
  unfolding try_seat_existing add_room first_seat_of at_room try_seat
  seat_one s shape sub name =
      let (s1, placed) = try_seat_existing s shape sub name in
      elim placed [
        | some p ↦ ok (s1, p)
        | none ↦ do
          (s2, x) ← add_room placeholder s1
          seat ← first_seat_of shape
          ok ((at_room s2 (length s1.rooms) (λ r. try_seat r seat sub name) false).0, (x.id, seat))
      ]

  -- `Session::watch_table`: the first table, which is made if there is none.
  unfoldable pub watch_table : Session → Result Failure (Session × ℕ)
  unfolding add_room
  watch_table s = elim s.rooms [
    | x ∷ rooms ↦ ok (s, x.id)
    | [] ↦ do (s1, x) ← add_room placeholder s; ok (s1, x.id)
  ]

  -- `Session::try_seat_specific`; the table to watch is the first.
  unfoldable pub try_seat_specific :
      Session → Direction → String → String → Result Failure (Session × Option Placement)
  unfolding watch_table at_room try_seat
  try_seat_specific s seat sub name = do
    (s1, id) ← watch_table s
    let (s2, seated) = at_room s1 0 (λ r. try_seat r seat sub name) false
    ok (s2, (if seated then some (record { room = id; seat = some seat }) else none))
