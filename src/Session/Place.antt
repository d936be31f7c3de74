-- ===== src/Session/Place.antt =====
-- `place_seat` (src/sessions.rs), step by step. A step gives the session that it leaves, and the placement
-- if it returns from the function.
use mathlib.Core.Option
use bridge_table_service.Bridge.{Direction, south}
use bridge_table_service.Prelude.{
  Bool, List, Option, Result, String, [], false, find, if◌then◌else◌, map, nat_eq, none, not, ok,
  some, string_eq, true, ℕ, ◌&&◌, ◌==◌, ◌>>=◌, ◌∷◌,
}
use bridge_table_service.Room.{Occupant, RoomInner}
use bridge_table_service.Room.Seats.{
  cancel_reservation, filter_seats, find_seat, rebound, reserved_seat_for, try_seat, update_at,
  vacate,
}
use bridge_table_service.Session.{
  Failure, Kibitzer, Placement, SeatPolicy, Session, SessionRoom, adhoc, manual, teacher_set,
}
use bridge_table_service.Session.Arrivals.{first_room, seat_one, try_seat_specific, watch_table}
use bridge_table_service.Session.Maps.{get, update}
use bridge_table_service.Session.Members.{add_lobby}
use bridge_table_service.Table.{BoardSetup}

-- Step 0 for one room: every seat whose occupant is not connected is vacated.
unfoldable pub free_ghosts : List Direction → RoomInner → RoomInner
unfolding vacate
free_ghosts [] r = r
free_ghosts (seat ∷ ghosts) r = free_ghosts ghosts (vacate r seat).0

module _ (order : SessionRoom → List Direction) where
  -- The ghosts of a room.
  unfoldable pub ghosts_of : SessionRoom → List Direction
  unfolding filter_seats
  ghosts_of x = filter_seats (order x) (λ (o : Occupant). not o.connected) x.inner.seats

  -- Step 0, the loop over the rooms.
  unfoldable pub without_ghosts : Session → Session
  unfolding free_ghosts ghosts_of
  without_ghosts s = record s {
    rooms =
        map (λ (x : SessionRoom). record x { inner = free_ghosts (ghosts_of x) x.inner }) s.rooms;
  }

  -- Step 1 for one room.
  unfoldable pub reconnect : String → String → SessionRoom → RoomInner × Option Direction
  unfolding find_seat update_at rebound
  reconnect sub name x = elim (find_seat (order x) (λ (o : Occupant). o.sub == sub) x.inner.seats) [
    | none ↦ (x.inner, none)
    | some seat ↦
        (record x.inner { seats = update_at seat (rebound name) x.inner.seats }, some seat)
  ]

  -- Step 1.5 for one room, at the time `now`.
  unfoldable pub redeem : ℕ → String → String → SessionRoom → RoomInner × Option Direction
  unfolding reserved_seat_for cancel_reservation try_seat
  redeem now sub name x = elim (reserved_seat_for (order x) x.inner sub now) [
    | none ↦ (x.inner, none)
    | some seat ↦
        let (inner, seated) = try_seat (cancel_reservation x.inner seat).0 seat sub name in
        (inner, (if seated then some seat else none))
  ]

  -- Step 2.5 for one room.
  unfoldable pub reclaim : String → String → SessionRoom → RoomInner × Option Direction
  unfolding find_seat update_at
  reclaim sub name x =
      elim (find_seat (order x) (λ (o : Occupant). not o.connected && o.name == name)
        x.inner.seats) [
          | none ↦ (x.inner, none)
          | some seat ↦ (
            record x.inner {
              seats =
                  update_at seat
                    (λ (o : Occupant). record o {
                      sub = sub;
                      connected = true;
                      disconnected_at = none;
                    })
                    x.inner.seats;
            },
            some seat,
          )
        ]

-- A loop over the rooms as a step.
unfoldable pub by_room :
    (SessionRoom → RoomInner × Option Direction) → Session → Session × Option Placement
unfolding first_room
by_room try_room s =
    let (rooms, placed) = first_room try_room s.rooms in
    (
      record s { rooms = rooms },
      Option.map (λ (p : ℕ × Direction). record { room = p.0; seat = some p.1 }) placed,
    )

-- `owner` and its kind: the test of step 0.
pub is_host_of_adhoc : Session → String → Bool
is_host_of_adhoc s sub = elim s.kind [ teacher_set ↦ false | adhoc ↦ sub == s.owner_sub ]

-- `matches!(policy, SeatPolicy::Manual)`
pub is_manual : SeatPolicy → Bool
is_manual manual = true
is_manual _ = false

-- The next step, unless this one has returned.
unfoldable pub or_then :
    Session × Option Placement
    → (Session → Result Failure (Session × Placement))
    → Result Failure (Session × Placement)
or_then (s, some p) next = ok (s, p)
or_then (s, none) next = next s

-- `room_id.and_then(|id| .. r.id == id)`
pub watches : Option ℕ → ℕ → Bool
watches none id = false
watches (some i) id = id == i

module _ (placeholder : BoardSetup) where
  -- Step 2: the name is brought up to date, and the room is the one that was watched, if it is there.
  unfoldable pub returns : Session → String → String → Result Failure (Session × Option Placement)
  unfolding get update watch_table watches
  returns s sub name = elim (get sub s.kibitzers) [
    | none ↦ ok (s, none)
    | some k ↦
        let s1 : Session = record s {
          kibitzers = update sub (λ (k : Kibitzer). record k { name = name }) s.kibitzers;
        } in
        elim (find (λ (x : SessionRoom). watches k.room_id x.id) s.rooms) [
          | some x ↦ ok (s1, some (record { room = x.id; seat = none }))
          | none ↦ do
            (s2, id) ← watch_table placeholder s1
            ok (s2, some (record { room = id; seat = none }))
        ]
  ]

  -- Step 2.75.
  unfoldable pub takes_requested :
      Session → String → String → Option Direction → Result Failure (Session × Option Placement)
  unfolding try_seat_specific is_manual
  takes_requested s sub name none = ok (s, none)
  takes_requested s sub name (some seat) =
      if is_manual s.seat_policy
      then try_seat_specific placeholder s seat sub name
      else ok (s, none)

  -- Step 3, seated at once.
  unfoldable pub seats_itself : Session → String → String → Result Failure (Session × Placement)
  unfolding seat_one
  seats_itself s sub name = do
    (s1, p) ← seat_one placeholder s s.seat_policy sub name
    ok (s1, record { room = p.0; seat = some p.1 })

  -- Step 3, in the lobby.
  unfoldable pub waits_in_lobby : Session → String → String → Result Failure (Session × Placement)
  unfolding watch_table add_lobby
  waits_in_lobby s sub name = do
    (s1, id) ← watch_table placeholder s
    ok (add_lobby s1 sub name (some id) false, record { room = id; seat = none })

  -- Step 3.
  unfoldable pub arrives : Session → String → String → Result Failure (Session × Placement)
  unfolding seats_itself waits_in_lobby is_manual
  arrives s sub name =
      if not s.wait_to_seat && not (is_manual s.seat_policy)
      then seats_itself s sub name
      else waits_in_lobby s sub name

module _ (placeholder : BoardSetup) (order : SessionRoom → List Direction) where
  -- Step 0.
  unfoldable pub host_resumes :
      Session → String → String → Result Failure (Session × Option Placement)
  unfolding is_host_of_adhoc without_ghosts try_seat_specific
  host_resumes s sub name =
      if is_host_of_adhoc s sub
      then try_seat_specific placeholder (without_ghosts order s) south sub name
      else ok (s, none)

  -- `Session::place_seat`, at the time `now`
  unfoldable pub place_seat :
      Session → String → String → Option Direction → ℕ → Result Failure (Session × Placement)
  unfolding host_resumes by_room reconnect redeem returns reclaim takes_requested arrives or_then
  place_seat s sub name requested now = do
    resumed ← host_resumes s sub name
    or_then resumed λ s1. or_then (by_room (reconnect order sub name) s1) λ s2.
        or_then (by_room (redeem order now sub name) s2) λ s3. do
          returned ← returns placeholder s3 sub name
          or_then returned λ s4. or_then (by_room (reclaim order sub name) s4) λ s5. do
            taken ← takes_requested placeholder s5 sub name requested
            or_then taken λ s6. arrives placeholder s6 sub name

  -- `Session::place`
  pub place : Session → String → String → ℕ → Result Failure (Session × Placement)
  unfolding place_seat
  place s sub name now = place_seat s sub name none now
