-- ===== src/Session/Control.antt =====
-- The host's control of the seats of a session (src/sessions.rs): reservations, seating the lobby,
-- `assign_seat` and `kick`. A list of numbers is the rooms whose seats changed.
use bridge_table_service.Bridge.{Direction, direction_eq}
use bridge_table_service.Prelude.{
  Bool, List, Option, Result, String, [], contains, err, expect, false, filter, if◌then◌else◌,
  is_empty, is_some, map, nat_eq, none, not, ok, some, string_eq, suc, true, ℕ, ◌&&◌, ◌++◌, ◌==◌,
  ◌>>=◌, ◌||◌, ◌∷◌,
}
use bridge_table_service.Room.{Occupant, RoomInner}
use bridge_table_service.Room.Seats.{
  arrival, cancel_reservation, entry_is, set_bot, set_empty, try_place, try_reserve, vacate,
}
use bridge_table_service.Session.{ConnMeta, Failure, Kibitzer, SeatPolicy, Session, SessionRoom}
use bridge_table_service.Session.Arrivals.{at_room, bulk_shape, seat_one, set_room, watch_table}
use bridge_table_service.Session.Maps.{remove, retain}
use bridge_table_service.Session.Members.{add_lobby, conn_meta, held_in, remove_kibitzer, seats_of}
use bridge_table_service.Table.{BoardSetup}

-- The errors of `assign_seat` and `kick`.
pub data ControlError : Type 0 where
  unknown_table : ℕ → ControlError
  seat_is_empty : Direction → ControlError
  unknown_token : String → ControlError
  no_tables seat_is_occupied nothing_to_assign : ControlError

-- `a != b` on Booleans
unfoldable pub differ : Bool → Bool → Bool
differ true b = not b
differ false b = b

-- `rooms.iter().find(|r| r.id == id)`, with the index
unfoldable pub find_room : List SessionRoom → ℕ → Option (ℕ × SessionRoom)
find_room [] id = none
find_room (x ∷ rooms) id =
    let rest = find_room rooms id in
    if x.id == id
    then some (0, x)
    else (elim rest [ none ↦ none | some found ↦ some (suc found.0, found.1) ])

-- The table that `assign_seat` is about.
unfoldable pub table_named : Session → Option ℕ → Result ControlError (ℕ × SessionRoom)
unfolding find_room
table_named s (some id) = expect (find_room s.rooms id) (unknown_table id)
table_named s none = elim s.rooms [ [] ↦ err no_tables | x ∷ rooms ↦ ok (0, x) ]

-- The room of index `i`, changed.
unfoldable pub with_inner : Session → ℕ → RoomInner → Session
unfolding set_room
with_inner s i inner = record s { rooms = set_room s.rooms i inner }

module _ (placeholder : BoardSetup) where
  -- `Session::reserve_seat`; the room to watch is the first.
  pub reserve_seat :
      Session → Direction → String → String → ℕ → Result Failure (Session × Result ControlError ℕ)
  unfolding watch_table at_room try_reserve
  reserve_seat s seat sub name expires_at = do
    (s1, id) ← watch_table placeholder s
    let (s2, held) = at_room s1 0 (λ r. try_reserve r seat sub name expires_at) false
    ok (s2, (if held then ok id else err seat_is_occupied))

  -- `Session::cancel_reservation`
  pub cancel_held : Session → Direction → Result Failure (Session × ℕ × Bool)
  unfolding watch_table at_room cancel_reservation
  cancel_held s seat = do
    (s1, id) ← watch_table placeholder s
    let (s2, removed) = at_room s1 0 (λ r. cancel_reservation r seat) false
    ok (s2, id, removed)

  -- The loop of `seat_students`.
  unfoldable pub seat_all :
      Session → SeatPolicy → List (String × String) → List ℕ → Result Failure (Session × List ℕ)
  unfolding seat_one remove_kibitzer
  seat_all s shape [] changed = ok (s, changed)
  seat_all s shape ((sub, name) ∷ waiting) changed = do
    (s1, p) ← seat_one placeholder s shape sub name
    seat_all (remove_kibitzer s1 sub) shape waiting
        (if contains changed p.0 then changed else changed ++ p.0 ∷ [])

  -- `Session::seat_students`
  unfoldable pub seat_students : Session → Result Failure (Session × List ℕ)
  unfolding seat_all bulk_shape retain
  seat_students s =
      let waiting =
        map (λ (e : String × Kibitzer). (e.0, e.1.name))
          (retain (λ sub (k : Kibitzer). not k.parked) s.kibitzers) in
      seat_all s (bulk_shape s) waiting []

-- The room after a move from `f` to `t`, where `f` is held by `from_occ`.
unfoldable pub moved : RoomInner → Direction → Direction → Occupant → RoomInner
unfolding vacate try_place
moved r f t from_occ = elim (r.seats t) [
  | some target_occ ↦
      (try_place (try_place (vacate (vacate r f).0 t).0 t from_occ).0 f target_occ).0
  | none ↦ (try_place (vacate r f).0 t from_occ).0
]

-- The arm for moving and swapping.
unfoldable pub move_seat :
    Session → ℕ → SessionRoom → Direction → Direction → Result ControlError (Session × List ℕ)
unfolding moved with_inner
move_seat s i x f t = if f == t then ok (s, []) else (elim (x.inner.seats f) [
  | none ↦ err (seat_is_empty f)
  | some from_occ ↦ ok (with_inner s i (moved x.inner f t from_occ), x.id ∷ [])
])

-- The room after a connection has sat down at `t`.
unfoldable pub seated_at : RoomInner → Direction → String → String → RoomInner
unfolding vacate try_place arrival
seated_at r t sub name = elim (r.seats t) [
  | some d ↦ (try_place (vacate r t).0 t (arrival sub name)).0
  | none ↦ (try_place r t (arrival sub name)).0
]

-- `kick`, the loop over the seats that are held in a room
unfoldable pub free_seats : List Direction → RoomInner → RoomInner
unfolding vacate set_bot
free_seats [] r = r
free_seats (seat ∷ held) r = free_seats held (set_bot (vacate r seat).0 seat)

module _ (order : SessionRoom → List Direction) where
  -- The occupant that lost a seat of the table `id` goes to the lobby, unless seated elsewhere.
  unfoldable pub bench : Session → ℕ → Option Occupant → Session
  unfolding seats_of add_lobby
  bench s id none = s
  bench s id (some occ) =
      if occ.connected && is_empty (seats_of order s.rooms occ.sub)
      then add_lobby s occ.sub occ.name (some id) true
      else s

  -- The arm for vacating a seat.
  unfoldable pub vacate_seat : Session → ℕ → SessionRoom → Direction → Bool → Session × List ℕ
  unfolding vacate set_bot set_empty with_inner bench differ
  vacate_seat s i x f seat_bot =
      let (emptied, removed) = vacate x.inner f in
      let inner = if seat_bot then set_bot emptied f else set_empty emptied f in
      let changed = is_some removed || differ (x.inner.no_bot f) (inner.no_bot f) in
      (bench (with_inner s i inner) x.id removed, (if changed then x.id ∷ [] else []))

  -- The arm for seating a connection.
  unfoldable pub sit_down :
      Session → ℕ → SessionRoom → Direction → String → Result ControlError (Session × List ℕ)
  unfolding conn_meta entry_is remove_kibitzer seated_at with_inner bench
  sit_down s i x t token = elim (conn_meta s token) [
    | none ↦ err (unknown_token token)
    | some (sub, name) ↦
        if entry_is (λ (o : Occupant). o.sub == sub) (x.inner.seats t)
        then ok (s, [])
        else ok (
          bench (with_inner (remove_kibitzer s sub) i (seated_at x.inner t sub name)) x.id
              (x.inner.seats t),
          x.id ∷ [],
        )
  ]

  -- The dispatch of `assign_seat`, at the table of index `i`.
  unfoldable pub assign_at :
      Session
      → ℕ
      → SessionRoom
      → Option Direction
      → Option Direction
      → Option String
      → Bool
      → Result ControlError (Session × List ℕ)
  unfolding vacate_seat move_seat sit_down
  assign_at s i x none (some f) token seat_bot = ok (vacate_seat s i x f seat_bot)
  assign_at s i x (some t) (some f) token seat_bot = move_seat s i x f t
  assign_at s i x (some t) none (some token) seat_bot = sit_down s i x t token
  assign_at s i x (some t) none none seat_bot = err nothing_to_assign
  assign_at s i x none none token seat_bot = err nothing_to_assign

  -- `Session::assign_seat`: the table, the target, the origin, the token, and whether a bot sits down
  unfoldable pub assign_seat :
      Session
      → Option ℕ
      → Option Direction
      → Option Direction
      → Option String
      → Bool
      → Result ControlError (Session × List ℕ)
  unfolding table_named assign_at
  assign_seat s table_id target from token seat_bot = do
    (i, x) ← table_named s table_id
    assign_at s i x target from token seat_bot

  -- `kick`, the session without the participant
  unfoldable pub without : Session → String → Session
  unfolding free_seats held_in remove retain
  without s sub = record s {
    rooms =
        map (λ (x : SessionRoom). record x { inner = free_seats (held_in order x sub) x.inner })
          s.rooms;
    kibitzers = remove sub s.kibitzers;
    connections = retain (λ t (m : ConnMeta). not (m.sub == sub)) s.connections;
  }

  -- `Session::kick`
  unfoldable pub kick : Session → String → Result ControlError (Session × List ℕ)
  unfolding conn_meta without held_in
  kick s token = elim (conn_meta s token) [
    | none ↦ err (unknown_token token)
    | some (sub, name) ↦ ok (
      without s sub,
      map (λ (x : SessionRoom). x.id)
          (filter (λ (x : SessionRoom). not (is_empty (held_in order x sub))) s.rooms),
    )
  ]
