-- ===== src/Protocol/Teacher.antt =====
-- The dispatch of the control messages of a host (src/routes/ws.rs, `handle_teacher_msg`). A message
-- changes the session, answers with the code of an error, or panics with a `Failure`.
use bridge_table_service.Bridge.{BridgeTypes, Direction}
use bridge_table_service.Claim.{SolverAnswer, SolverRequest}
use bridge_table_service.Prelude.{
  Bool, List, Option, Result, String, [], false, get_elem?, if◌then◌else◌, max, min, none, ok, some,
  string_eq, true, unwrap_or, ℕ, ◌==◌, ◌>>=◌,
}
use bridge_table_service.Protocol.{Reader, number_at, text_at}
use bridge_table_service.Protocol.Dealing.{DealSource}
use bridge_table_service.Protocol.Host.{
  handle_assign_seat, handle_claim_ruling, handle_force_advance, handle_goto_board, handle_kick,
  handle_load_boards, handle_open_boards, handle_set_board_mode, handle_set_bot_mode,
  handle_set_pass_sides, handle_set_seat_policy, if_loaded,
}
use bridge_table_service.Protocol.Player.{handle_client_msg}
use bridge_table_service.Session.{Failure, Session, SessionRoom, add_tables}
use bridge_table_service.Session.Arrivals.{replace_room}
use bridge_table_service.Session.Control.{seat_students}
use bridge_table_service.Session.Decks.{next_board, prev_board}
use bridge_table_service.Session.Members.{set_bots_paused, set_wait_to_seat}
use bridge_table_service.Table.{BoardSetup}

module _ {V : Type 0} (bt : BridgeTypes) (rd : Reader V) (outside : DealSource)
    (solve : SolverRequest → SolverAnswer) (verify : Bool) (placeholder : BoardSetup)
    (order : SessionRoom → List Direction) where
  -- The arm for `undo`, at the table of index `kibitz` that the host watches.
  unfoldable pub handle_host_undo : Session → Option ℕ → String → V → ℕ → Session × Option String
  unfolding handle_client_msg replace_room
  handle_host_undo s none name v now = (s, some "no_table")
  handle_host_undo s (some i) name v now = elim (get_elem? s.rooms i) [
    | none ↦ (s, some "no_table")
    | some x ↦
        let h = handle_client_msg bt rd outside solve verify x (some s) name [] v now in
        (record s { rooms = replace_room s.rooms i h.room }, h.error)
  ]

  -- The match on the type of the frame.
  unfoldable pub host_typed :
      String → Session → Option ℕ → String → V → ℕ → Result Failure (Session × Option String)
  unfolding handle_open_boards handle_load_boards handle_set_board_mode handle_goto_board if_loaded
      handle_force_advance handle_claim_ruling handle_set_seat_policy handle_set_bot_mode
      handle_assign_seat handle_kick handle_set_pass_sides handle_host_undo seat_students
      set_wait_to_seat add_tables set_bots_paused next_board prev_board number_at
  host_typed t s kibitz name v now =
      let on = rd.json.as_bool (rd.json.member v "on") in
      if t == "pong"
      then ok (s, none)
      else if t == "open_boards"
      then ok (handle_open_boards rd s v)
      else if t == "load_boards"
      then ok (handle_load_boards rd outside.read_pbn s v)
      else if t == "set_board_mode"
      then ok (handle_set_board_mode rd s v)
      else if t == "goto_board"
      then handle_goto_board rd s v
      else if t == "next_board"
      then if_loaded s (next_board s)
      else if t == "prev_board"
      then if_loaded s (prev_board s)
      else if t == "force_advance"
      then ok (handle_force_advance rd s v)
      else if t == "claim_ruling"
      then ok (handle_claim_ruling rd bt solve verify s v)
      else if t == "seat_students"
      then (do seated ← seat_students placeholder s; ok (seated.0, none))
      else if t == "wait_to_seat"
      then ok (set_wait_to_seat s (unwrap_or false on), none)
      else if t == "add_tables"
      then (do
        grown ← add_tables placeholder s (min (max (unwrap_or 1 (number_at rd v "count")) 1) 20)
        ok (grown.0, none))
      else if t == "set_seat_policy"
      then ok (handle_set_seat_policy rd s v)
      else if t == "set_bot_mode"
      then ok (handle_set_bot_mode rd s v)
      else if t == "pause_bots"
      then ok ((set_bots_paused s (unwrap_or true on)).0, none)
      else if t == "assign_seat"
      then ok (handle_assign_seat rd order false s v)
      else if t == "boot"
      then ok (handle_assign_seat rd order true s v)
      else if t == "kick"
      then ok (handle_kick rd order s v)
      else if t == "set_pass_sides"
      then ok (handle_set_pass_sides rd s v)
      else if t == "undo"
      then ok (handle_host_undo s kibitz name v now)
      else ok (s, some "unknown")

  -- `handle_teacher_msg`
  unfoldable pub handle_teacher_msg :
      Session → Option ℕ → String → V → ℕ → Result Failure (Session × Option String)
  unfolding text_at host_typed
  handle_teacher_msg s kibitz name v now = elim (text_at rd v "t") [
    | none ↦ ok (s, some "unknown")
    | some t ↦ host_typed t s kibitz name v now
  ]
