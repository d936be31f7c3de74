-- ===== src/Tests/Seating.antt =====
-- Tests and witnesses for the participants of a session (src/sessions.rs).
use bridge_table_service.Bridge.{Direction, direction_beq, direction_eq, east, north, south, west}
use bridge_table_service.Prelude.{
  List, [], contains, false, inl, none, ok, refl, some, true, ℕ, ◌↔◌, ◌∷◌, ◌≡◌,
}
use bridge_table_service.Protocol.Joining.{resolve_seats}
use bridge_table_service.Protocol.Rebinding.{SitsAt, resolve_seats-SitsAt}
use bridge_table_service.Room.{default_grace, new_room, rules}
use bridge_table_service.Room.Seats.{
  add_seat, arrival, drop_seat, insert_at, set_empty, try_place, try_seat, vacate,
}
use bridge_table_service.Session.{Session, SessionRoom, grace_of, new_session, seeded}
use bridge_table_service.Session.Arrivals.{first_seat_of, set_room}
use bridge_table_service.Session.Assigned.{assign_seat-Present}
use bridge_table_service.Session.Control.{
  assign_at, assign_seat, differ, kick, moved, table_named, vacate_seat, with_inner,
}
use bridge_table_service.Session.Kicked.{Removed, kick-Removed}
use bridge_table_service.Session.Maps.{get}
use bridge_table_service.Session.Place.{place_seat}
use bridge_table_service.Session.Placed.{Done, Sound}
use bridge_table_service.Session.Placing.{place_seat-Done}
use bridge_table_service.Session.Present.{LiveIn, Present, PresentLive}
use bridge_table_service.Session.Range.{SessionReach-IsInRange}
use bridge_table_service.Tests.{sample_board}
use bridge_table_service.Tests.Sessions.{two_boards, two_boards-SessionReach}

-- A participant at the first of two tables, with a connection.
abbrev with_ann : Session
with_ann = record two_boards {
  rooms =
      set_room two_boards.rooms 0
        (try_seat (new_room sample_board default_grace) south "ann" "Ann").0;
  connections = ("tok", record { sub = "ann"; name = "Ann"; connected = true }) ∷ [];
}

abbrev any_order : SessionRoom → List Direction
any_order x = west ∷ north ∷ south ∷ east ∷ []

lists_all : (x : SessionRoom) (d : Direction) → contains (any_order x) d ≡ true
unfolding direction_beq
lists_all x north = refl
lists_all x east = refl
lists_all x south = refl
lists_all x west = refl

two_boards-Sound : Sound two_boards
unfolding new_session first_seat_of
two_boards-Sound = record {
  in_range = SessionReach-IsInRange sample_board two_boards two_boards-SessionReach;
  first_seat = (south, refl);
}

place_seat-Done_example :
    Done "bob" two_boards (place_seat sample_board any_order two_boards "bob" "Bob" none 0)
place_seat-Done_example =
    place_seat-Done sample_board any_order "bob" "Bob" two_boards none 0 two_boards-Sound

kick-Removed_example :
    (s' : Session) × (changed : List ℕ) × (kick any_order with_ann "tok" ≡ ok (s', changed))
    × Removed "ann" with_ann s'
unfolding get new_session
kick-Removed_example =
    kick-Removed any_order lists_all with_ann "tok"
      (record { sub = "ann"; name = "Ann"; connected = true }) refl

-- The session after the host has taken South away from her.
abbrev benched : Session
benched =
    (vacate_seat any_order with_ann 0
      (record {
        id = 1;
        inner = (try_seat (new_room sample_board default_grace) south "ann" "Ann").0;
        bba_cache = none;
        bot_mode = rules;
      })
      south false).0

assign_seat-Present_example : Present "ann" benched
unfolding assign_seat table_named assign_at vacate_seat vacate differ set_empty add_seat new_session
    seeded set_room try_seat try_place insert_at drop_seat new_room PresentLive LiveIn grace_of
    direction_beq arrival with_inner
assign_seat-Present_example =
    assign_seat-Present any_order with_ann benched none none (some south) none false (1 ∷ []) "ann"
      refl (inl (0, _, refl, (south, arrival "ann" "Ann", refl, refl, refl)))

-- The connection of a participant who sits South still has North.
resolve_seats-SitsAt_example :
    let (s', room', seats', moved) = resolve_seats any_order with_ann "ann" 1 (north ∷ []) in
    (contains seats' south ≡ true) ↔ SitsAt "ann" room' south with_ann.rooms
resolve_seats-SitsAt_example =
    resolve_seats-SitsAt any_order lists_all "ann" with_ann 1 (north ∷ []) south
