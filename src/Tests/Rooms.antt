-- ===== src/Tests/Rooms.antt =====
-- Tests and witnesses for src/rooms.rs.
use bridge_table_service.Bridge.{
  Direction, all_directions, direction_beq, direction_eq, east, north, south, west,
}
use bridge_table_service.Prelude.{
  arith, contains, false, none, ok, refl, some, true, ℕ, ◌≡◌, ◌≤◌, ◌⊎◌,
}
use bridge_table_service.Room.{Occupant, RoomInner, default_grace, new_room}
use bridge_table_service.Room.Boards.{rotate_board}
use bridge_table_service.Room.Control.{actor, last_human_action_seq, seat_bot_controlled}
use bridge_table_service.Room.Reservations.{active_reservation-sweep}
use bridge_table_service.Room.Rotation.{rotate_board_lem, round_by}
use bridge_table_service.Room.Seating.{IsFullFor, SeatedAt, seat_or_rebind_lem}
use bridge_table_service.Room.Seats.{
  active_reservation, arrival, entry_is, find_seat, insert_at, mark_disconnected, rebound,
  seat_or_rebind, sweep_reservations, try_place, try_reserve, try_seat, update_at,
}
use bridge_table_service.Room.Steps.{
  IsTidy, RoomReach, RoomReach-IsTidy, drop, fresh, sit, then_step,
}
use bridge_table_service.Room.Takeover.{BotMayAct, seat_or_rebind-controls, takeover_comes}
use bridge_table_service.Room.Undo.{Every, LastHuman, last_human_action_seq_lem}
use bridge_table_service.Table.Apply.{undo_to}
use bridge_table_service.Tests.{in_play, reference_types, sample_board}

lists_all : (d : Direction) → contains all_directions d ≡ true
unfolding direction_beq
lists_all north = refl
lists_all east = refl
lists_all south = refl
lists_all west = refl

-- A room in which Alice sits North.
abbrev with_alice : RoomInner
with_alice = (try_seat (new_room sample_board default_grace) north "u1" "Alice").0

with_alice-RoomReach : RoomReach sample_board default_grace with_alice
with_alice-RoomReach = then_step fresh (sit north "u1" "Alice")

-- Alice went away at the time 1000.
abbrev alice_away : RoomInner
alice_away = mark_disconnected with_alice "u1" 1000

alice_away-RoomReach : RoomReach sample_board default_grace alice_away
alice_away-RoomReach = then_step with_alice-RoomReach (drop "u1" 1000)

seat_or_rebind_lem_example :
    ((d : Direction) × (r' : RoomInner) × (seat_or_rebind all_directions alice_away "u2" "Bob"
        ≡ (r', some d))
      × SeatedAt alice_away r' d "u2" "Bob")
    ⊎ ((seat_or_rebind all_directions alice_away "u2" "Bob" ≡ (alice_away, none))
        × IsFullFor "u2" alice_away)
seat_or_rebind_lem_example = seat_or_rebind_lem all_directions alice_away "u2" "Bob" lists_all

RoomReach-IsTidy_example : IsTidy alice_away
RoomReach-IsTidy_example =
    RoomReach-IsTidy sample_board default_grace alice_away alice_away-RoomReach

abbrev alice_gone : Occupant
alice_gone = record { sub = "u1"; name = "Alice"; connected = false; disconnected_at = some 1000 }

takeover_comes_example :
    (t : ℕ) × ((now : ℕ) → t ≤ now → seat_bot_controlled alice_away north true now ≡ true)
unfolding try_seat try_place arrival new_room mark_disconnected insert_at direction_beq
takeover_comes_example =
    takeover_comes sample_board default_grace alice_away north alice_gone true alice_away-RoomReach
      refl refl

abbrev alice_back : RoomInner
alice_back = (seat_or_rebind all_directions alice_away "u1" "Alice").0

seat_or_rebind-controls_example : seat_bot_controlled alice_back north true 99000 ≡ false
unfolding seat_or_rebind find_seat entry_is update_at rebound try_seat try_place arrival new_room
    mark_disconnected insert_at direction_beq
seat_or_rebind-controls_example =
    seat_or_rebind-controls all_directions alice_away alice_back "u1" "Alice" north true 99000
      lists_all refl

-- The table in play, with Alice at North.
abbrev room_in_play : RoomInner
room_in_play = record with_alice { table = in_play }

last_human_action_seq_lem_example :
    ((i : ℕ) × (last_human_action_seq room_in_play 5000 ≡ some i)
      × (s : LastHuman room_in_play 5000 i) × (undo_to in_play i
          ≡ ok (record in_play { actions = s.before }, i)))
    ⊎ ((last_human_action_seq room_in_play 5000 ≡ none)
        × Every (λ a. BotMayAct room_in_play (actor a) true 5000) in_play.actions)
last_human_action_seq_lem_example = last_human_action_seq_lem room_in_play 5000

-- East is held for a friend until the time 9000.
abbrev east_held : RoomInner
east_held = (try_reserve with_alice east "u3" "Cam" 9000).0

active_reservation-sweep_example :
    active_reservation (sweep_reservations all_directions east_held 8000).0 east 8500
    ≡ active_reservation east_held east 8500
active_reservation-sweep_example =
    active_reservation-sweep all_directions east_held 8000 8500 east lists_all (omega arith)

rotate_board_lem_example :
    ((rotate_board reference_types 3 sample_board).deal
        (round_by 2 (rotate_board reference_types 3 sample_board).dealer)
      ≡ sample_board.deal (round_by 2 sample_board.dealer))
    × ((rotate_board reference_types 3 sample_board).dealer ≡ round_by 3 sample_board.dealer)
    × ((rotate_board reference_types 3 sample_board).number ≡ sample_board.number)
    × ((rotate_board reference_types 3 sample_board).vulnerable ≡ sample_board.vulnerable)
rotate_board_lem_example = rotate_board_lem reference_types (λ d. refl) 3 sample_board 2
