-- ===== src/Session/Members.antt =====
-- The participants of a session (src/sessions.rs): the connections, the lobby, who sits where, and the
-- settings of the console.

use mathlib.Core.Option
use bridge_table_service.Bridge.{Direction, all_directions}
use bridge_table_service.Prelude.{
  Bool, List, Option, String, [], false, filter, filter_map, find, if◌then◌else◌, is_empty, map,
  nat_eq, none, not, some, starts_with, string_eq, true, ℕ, ◌&&◌, ◌++◌, ◌==◌, ◌||◌, ◌∷◌,
}
use bridge_table_service.Room.{BotMode, Occupant, Side}
use bridge_table_service.Room.Seats.{entry_is, filter_seats, find_seat}
use bridge_table_service.Session.{ConnMeta, SeatPolicy, Session, SessionRoom}
use bridge_table_service.Session.Maps.{get, insert, remove, retain, update}

module _ (order : SessionRoom → List Direction) where
  -- `Session::find_seated`; `order` is the order in which a room's seats are walked.
  unfoldable pub find_seated : List SessionRoom → String → Option (ℕ × Direction)
  unfolding find_seat
  find_seated [] sub = none
  find_seated (x ∷ rooms) sub = elim (find_seat (order x) (λ o. o.sub == sub) x.inner.seats) [
    | some seat ↦ some (x.id, seat)
    | none ↦ find_seated rooms sub
  ]

  -- The inner loop of `find_all_seated`, and what `kick` collects of a room.
  unfoldable pub held_in : SessionRoom → String → List Direction
  unfolding filter_seats
  held_in x sub = filter_seats (order x) (λ o. o.sub == sub) x.inner.seats

  -- `Session::find_all_seated`
  unfoldable pub find_all_seated : List SessionRoom → String → List (ℕ × Direction)
  unfolding held_in
  find_all_seated [] sub = []
  find_all_seated (x ∷ rooms) sub =
      map (λ d. (x.id, d)) (held_in x sub) ++ find_all_seated rooms sub

  -- `Session::seats_of`
  unfoldable pub seats_of : List SessionRoom → String → List Direction
  unfolding find_all_seated
  seats_of rooms sub = map (λ (x : ℕ × Direction). x.1) (find_all_seated rooms sub)

-- `Session::room_by_id`
pub room_by_id : Session → ℕ → Option SessionRoom
room_by_id s id = find (λ (x : SessionRoom). x.id == id) s.rooms

-- `Session::register_conn`
unfoldable pub register_conn : Session → String → String → String → Session
unfolding retain insert
register_conn s token sub name = record s {
  connections =
      insert token (record { sub = sub; name = name; connected = true })
        (retain (λ t (m : ConnMeta). t == token || not (m.sub == sub)) s.connections);
}

-- `Session::mark_conn_disconnected`
unfoldable pub mark_conn_disconnected : Session → String → Session
unfolding update
mark_conn_disconnected s token = record s {
  connections = update token (λ (m : ConnMeta). record m { connected = false }) s.connections;
}

-- `Session::remove_conn`
unfoldable pub remove_conn : Session → String → Session
unfolding remove
remove_conn s token = record s { connections = remove token s.connections }

-- `Session::conn_meta`
unfoldable pub conn_meta : Session → String → Option (String × String)
unfolding get
conn_meta s token = Option.map (λ (m : ConnMeta). (m.sub, m.name)) (get token s.connections)

-- `account_id_of`
pub account_id_of : String → Option String
account_id_of sub = if starts_with sub "guest-" then none else some sub

-- An entry of the roster: token, name, connected, seats, account.
pub record RosterEntry : Type 0 where
  pub token : String
  pub name : String
  pub connected : Bool
  pub seats : List Direction
  pub account_id : Option String

-- The seats that `seats_by_sub` has for a participant, in the order of `Direction::ALL`.
pub roster_seats : List SessionRoom → String → List Direction
unfolding entry_is
roster_seats [] sub = []
roster_seats (x ∷ rooms) sub =
    filter (λ d. entry_is (λ (o : Occupant). o.sub == sub) (x.inner.seats d)) all_directions
    ++ roster_seats rooms sub

-- The closure of `filter_map` in `roster_json`, but for the sorting of the seats.
pub roster_entry : List SessionRoom → String → ConnMeta → Option RosterEntry
unfolding roster_seats account_id_of
roster_entry rooms token m =
    let seats = roster_seats rooms m.sub in
    if not m.connected && is_empty seats
    then none
    else some (record {
      token = token;
      name = m.name;
      connected = m.connected;
      seats = seats;
      account_id = account_id_of m.sub;
    })

-- `Session::roster_json`, before it is sorted
pub roster : Session → List RosterEntry
unfolding roster_entry
roster s = filter_map (λ (e : String × ConnMeta). roster_entry s.rooms e.0 e.1) s.connections

-- `Session::add_lobby`
unfoldable pub add_lobby : Session → String → String → Option ℕ → Bool → Session
unfolding insert
add_lobby s sub name room_id parked = record s {
  kibitzers = insert sub (record { name = name; room_id = room_id; parked = parked }) s.kibitzers;
}

-- `Session::remove_kibitzer`
unfoldable pub remove_kibitzer : Session → String → Session
unfolding remove
remove_kibitzer s sub = record s { kibitzers = remove sub s.kibitzers }

-- `Session::set_wait_to_seat`
unfoldable pub set_wait_to_seat : Session → Bool → Session
set_wait_to_seat s on = record s { wait_to_seat = on }

-- `Session::set_seat_policy`
unfoldable pub set_seat_policy : Session → SeatPolicy → Session
set_seat_policy s p = record s { seat_policy = p }

-- `Session::set_bot_mode`, with the tables whose bots it kicks
unfoldable pub set_bot_mode : Session → BotMode → Session × List ℕ
set_bot_mode s mode = (
  record s {
    bot_mode = mode;
    rooms = map (λ (x : SessionRoom). record x { bot_mode = mode }) s.rooms;
  },
  (if s.bots_paused then [] else map (λ (x : SessionRoom). x.id) s.rooms),
)

-- `Session::set_bots_paused`, with the tables whose bots it kicks
unfoldable pub set_bots_paused : Session → Bool → Session × List ℕ
set_bots_paused s on =
    (record s { bots_paused = on }, (if on then [] else map (λ (x : SessionRoom). x.id) s.rooms))

-- `Session::set_pass_sides`
unfoldable pub set_pass_sides : Session → (Side → Bool) → Session
set_pass_sides s sides = record s {
  rooms =
      map (λ (x : SessionRoom). record x { inner = record x.inner { pass_sides = sides } }) s.rooms;
}
