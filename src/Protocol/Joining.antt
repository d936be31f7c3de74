-- ===== src/Protocol/Joining.antt =====
-- How a connection begins and ends (src/routes/ws.rs): the hello, the routing, rebinding after the host
-- has reseated someone, and leaving. What is sent is not modelled.
use bridge_table_service.Auth.{Codec, Ticket, verify_ticket_at, ℤ}
use bridge_table_service.Bridge.{Direction, direction_eq, east, north, south, west}
use bridge_table_service.Prelude.{
  Bool, List, Option, Result, String, [], all, contains, err, expect, false, filter, guard,
  if◌then◌else◌, is_empty, is_some, map, nat_eq, none, not, ok, some, string_eq, true, unwrap_or, ℕ,
  ◌&&◌, ◌==◌, ◌>>=◌, ◌>>◌, ◌||◌, ◌∷◌,
}
use bridge_table_service.Protocol.{Reader, direction_at, text_at}
use bridge_table_service.Room.{BotMode, RoomInner, parse_bot_mode}
use bridge_table_service.Room.Seats.{mark_disconnected, vacate}
use bridge_table_service.Session.{Failure, Session, SessionRoom}
use bridge_table_service.Session.Members.{
  find_all_seated, find_seated, mark_conn_disconnected, register_conn, remove_conn, remove_kibitzer,
}
use bridge_table_service.Session.Place.{place_seat}
use bridge_table_service.Table.{BoardSetup}

-- The frame that a socket gives first.
pub data FirstFrame (V : Type 0) : Type 0 where
  parsed : V → FirstFrame V
  not_json not_text : FirstFrame V

-- `Hello`
pub record Hello : Type 0 where
  pub ticket : Ticket
  pub bot_override : Option BotMode
  pub as_player : Bool
  pub requested_seat : Option Direction

-- Where `handle` sends a connection.
pub data Route : Type 0 where
  teacher player demo unknown_session : Route

-- `v["t"] == "hello"`
pub is_hello : {V : Type 0} → Reader V → V → Bool
unfolding text_at
is_hello rd v = elim (text_at rd v "t") [ none ↦ false | some t ↦ t == "hello" ]

-- `wait_for_hello`, on a socket that gave a frame; an error is its code.
pub wait_for_hello :
    {V : Type 0} → Reader V → Codec → String → ℤ → FirstFrame V → Result String Hello
unfolding text_at direction_at verify_ticket_at is_hello
wait_for_hello rd c secret now not_text = err "expected_hello"
wait_for_hello rd c secret now not_json = err "bad_json"
wait_for_hello rd c secret now (parsed v) = do
  guard (is_hello rd v) "expected_hello"
  token ← expect (text_at rd v "ticket") "no_ticket"
  elim (verify_ticket_at c token secret now) [
    | err e ↦ err "bad_ticket"
    | ok ticket ↦ ok (record {
      ticket = ticket;
      bot_override = elim (text_at rd v "bot") [ none ↦ none | some s ↦ parse_bot_mode s ];
      as_player = unwrap_or false (rd.json.as_bool (rd.json.member v "as_player"));
      requested_seat = direction_at rd v "seat";
    })
  ]

-- `is_controller` and `is_host`
pub is_host : Session → Ticket → Bool
is_host s ticket = ticket.sub == s.owner_sub || ticket.role == "teacher"

-- The routing of `handle`, by the session that the ticket names, if there is one.
pub route : Option Session → Hello → Route
unfolding is_host
route (some s) hello = if is_host s hello.ticket && not hello.as_player then teacher else player
route none hello = if hello.ticket.session_id == "demo" then demo else unknown_session

-- The bot mode of a hello, on the room of the placement.
unfoldable pub with_override : Option BotMode → ℕ → Session → Session
with_override none id s = s
with_override (some mode) id s = record s {
  rooms = map (λ (x : SessionRoom). if x.id == id then record x { bot_mode = mode } else x) s.rooms;
}

module _ (placeholder : BoardSetup) (order : SessionRoom → List Direction) where
  -- `handle_player` before its loop: the session, the table and the seats of the connection.
  unfoldable pub join_player :
      Session → Hello → String → ℕ → Result Failure (Session × ℕ × List Direction)
  unfolding place_seat register_conn with_override
  join_player s hello token now = do
    let ticket = hello.ticket
    (s1, p) ← place_seat placeholder order s ticket.sub ticket.name hello.requested_seat now
    ok (
      with_override hello.bot_override p.room (register_conn s1 token ticket.sub ticket.name),
      p.room,
      (elim p.seat [ none ↦ [] | some seat ↦ seat ∷ [] ]),
    )

-- `sort_by_key(|d| d.to_char())`: E, N, S, W
unfoldable pub sorted_seats : List Direction → List Direction
sorted_seats seats = filter (λ d. contains seats d) (east ∷ north ∷ south ∷ west ∷ [])

-- `resolve_seats`: the session, the table and the seats, and whether they changed. A participant holds
-- a seat of a table once, so that sorting a list of seats is going through them in order.
unfoldable pub resolve_seats :
    (SessionRoom → List Direction)
    → Session
    → String
    → ℕ
    → List Direction
    → Session × ℕ × List Direction × Bool
unfolding find_all_seated sorted_seats remove_kibitzer
resolve_seats order s sub room seats = elim (find_all_seated order s.rooms sub) [
  | [] ↦ if is_empty seats then (s, room, seats, false) else (s, room, [], true)
  | (target, d) ∷ others ↦
      let held =
        map (λ (p : ℕ × Direction). p.1)
          (filter (λ (p : ℕ × Direction). p.0 == target) ((target, d) ∷ others)) in
      if target == room && all (λ d. contains held d) seats && all (λ d. contains seats d) held
      then (s, room, seats, false)
      else (remove_kibitzer s sub, target, sorted_seats held, true)
]

-- The loop of `leave` over the seats of the connection.
unfoldable pub vacate_all : List Direction → RoomInner → RoomInner
unfolding vacate
vacate_all [] r = r
vacate_all (seat ∷ seats) r = vacate_all seats (vacate r seat).0

-- The rooms with the number `id`, changed; only one has it.
unfoldable pub change_rooms : ℕ → (RoomInner → RoomInner) → Session → Session
change_rooms id change s = record s {
  rooms =
      map (λ (x : SessionRoom). if x.id == id then record x { inner = change x.inner } else x)
        s.rooms;
}

-- The frame `leave`.
unfoldable pub leave : Session → ℕ → List Direction → Session
unfolding vacate_all change_rooms
leave s id seats = change_rooms id (vacate_all seats) s

-- The end of `handle_player`, when the socket is gone.
unfoldable pub disconnect :
    (SessionRoom → List Direction) → Session → String → String → ℕ → ℕ → Session
unfolding find_seated mark_conn_disconnected change_rooms mark_disconnected remove_conn
    remove_kibitzer
disconnect order s token sub id now =
    if is_some (find_seated order s.rooms sub)
    then change_rooms id (λ r. mark_disconnected r sub now) (mark_conn_disconnected s token)
    else remove_kibitzer (remove_conn s token) sub
