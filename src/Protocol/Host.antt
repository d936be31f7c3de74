-- ===== src/Protocol/Host.antt =====
-- The control messages of a host, arm by arm (src/routes/ws.rs, `handle_teacher_msg`), less what is sent to
-- others. An arm gives the session and the code of an error.
use bridge_table_service.Bridge.{BridgeTypes, Direction}
use bridge_table_service.Claim.{ClaimRequest, SolverAnswer, SolverRequest, make_claim}
use bridge_table_service.Prelude.{
  Bool, List, Option, Result, String, [], contains, err, false, filter_map, if◌then◌else◌, is_empty,
  map, none, not, ok, some, string_eq, true, unwrap_or, ℕ, ◌∷◌,
}
use bridge_table_service.Protocol.{Reader, claim_numbers, direction_at, number_at, text_at}
use bridge_table_service.Protocol.Player.{refusal_code}
use bridge_table_service.Room.{BoardMode, Side, parse_board_mode, parse_bot_mode}
use bridge_table_service.Session.{Failure, Session, SessionRoom}
use bridge_table_service.Session.Arrivals.{replace_room}
use bridge_table_service.Session.Control.{assign_seat, find_room, kick, with_inner}
use bridge_table_service.Session.Decks.{
  advance, goto_board, load_boards, open_boards_to, set_board_mode,
}
use bridge_table_service.Session.Members.{set_bot_mode, set_pass_sides, set_seat_policy}
use bridge_table_service.Session.Policy.{
  PbnBoard, parse_boards, policy_of_key, side_key, side_of_key,
}

-- `Session::loaded`
pub loaded : Session → Bool
loaded s = not (is_empty s.deck.boards)

-- A board operation on a session that has boards.
unfoldable pub if_loaded :
    Session → Result Failure (Session × ℕ) → Result Failure (Session × Option String)
unfolding loaded
if_loaded s (err e) = if loaded s then err e else ok (s, some "no_set")
if_loaded s (ok (t, n)) = if loaded s then ok (t, none) else ok (s, some "no_set")

module _ {V : Type 0} (rd : Reader V) where
  -- The table that `force_advance` and `claim_ruling` name, or the first, with its index.
  unfoldable pub table_at : Session → V → Option (ℕ × SessionRoom)
  unfolding text_at find_room
  table_at s v = elim (text_at rd v "table") [
    | none ↦ (elim s.rooms [ [] ↦ none | x ∷ rooms ↦ some (0, x) ])
    | some text ↦ (elim (rd.table_no text) [ none ↦ none | some id ↦ find_room s.rooms id ])
  ]

  -- The arm for `open_boards`.
  unfoldable pub handle_open_boards : Session → V → Session × Option String
  unfolding number_at open_boards_to
  handle_open_boards s v = elim (number_at rd v "count") [
    | none ↦ (s, some "bad_count")
    | some count ↦ ((open_boards_to s count).0, none)
  ]

  -- The arm for `load_boards`.
  unfoldable pub handle_load_boards :
      (String → Option (List PbnBoard)) → Session → V → Session × Option String
  unfolding text_at parse_boards load_boards
  handle_load_boards read_pbn s v = elim (text_at rd v "boards_pbn") [
    | none ↦ (s, some "bad_pbn")
    | some pbn ↦ elim (parse_boards (read_pbn pbn)) [
      | err e ↦ (s, some "bad_pbn")
      | ok boards ↦
          let mode : Option BoardMode = elim (text_at rd v "mode") [
            | none ↦ none
            | some m ↦ parse_board_mode m
          ] in
          elim (load_boards s boards (text_at rd v "label") mode) [
            | err e ↦ (s, some "rejected")
            | ok (t, n) ↦ (t, none)
          ]
    ]
  ]

  -- The arm for `set_board_mode`.
  unfoldable pub handle_set_board_mode : Session → V → Session × Option String
  unfolding text_at set_board_mode
  handle_set_board_mode s v = elim (text_at rd v "mode") [
    | none ↦ (s, some "bad_mode")
    | some m ↦ (elim (parse_board_mode m) [
      | none ↦ (s, some "bad_mode")
      | some mode ↦ (set_board_mode s mode, none)
    ])
  ]

  -- The arm for `goto_board`.
  unfoldable pub handle_goto_board : Session → V → Result Failure (Session × Option String)
  unfolding number_at if_loaded goto_board
  handle_goto_board s v = elim (number_at rd v "index") [
    | none ↦ ok (s, some "bad_index")
    | some n ↦ if_loaded s (goto_board s n)
  ]

  -- The arm for `force_advance`.
  unfoldable pub handle_force_advance : Session → V → Session × Option String
  unfolding table_at advance replace_room
  handle_force_advance s v = elim (table_at s v) [
    | none ↦ (s, some "bad_table")
    | some (i, x) ↦
        let (y, on_next) = advance s x in
        if on_next
        then (record s { rooms = replace_room s.rooms i y }, none)
        else (s, some "rejected")
  ]

  -- The arm for `claim_ruling`.
  unfoldable pub handle_claim_ruling :
      BridgeTypes → (SolverRequest → SolverAnswer) → Bool → Session → V → Session × Option String
  unfolding table_at direction_at claim_numbers with_inner refusal_code
  handle_claim_ruling bt solve verify s v = elim (table_at s v) [
    | none ↦ (s, some "bad_table")
    | some (i, x) ↦ elim (direction_at rd v "seat") [
      | none ↦ (s, some "bad_claim")
      | some seat ↦ elim (claim_numbers rd v) [
        | none ↦ (s, some "bad_claim")
        | some (tricks, seen) ↦
            let req : ClaimRequest = record {
              seat = seat;
              tricks = tricks;
              plays_seen = seen;
              ruling = true;
            } in
            elim (make_claim bt solve verify x.inner x.inner req) [
              | err e ↦ (s, some (refusal_code e))
              | ok (inner, n) ↦ (with_inner s i inner, none)
            ]
      ]
    ]
  ]

  -- The arm for `set_seat_policy`.
  unfoldable pub handle_set_seat_policy : Session → V → Session × Option String
  unfolding text_at policy_of_key set_seat_policy
  handle_set_seat_policy s v = elim (text_at rd v "policy") [
    | none ↦ (s, some "bad_policy")
    | some key ↦ (elim (policy_of_key key) [
      | none ↦ (s, some "bad_policy")
      | some p ↦ (set_seat_policy s p, none)
    ])
  ]

  -- The arm for `set_bot_mode`.
  unfoldable pub handle_set_bot_mode : Session → V → Session × Option String
  unfolding text_at set_bot_mode
  handle_set_bot_mode s v = elim (text_at rd v "mode") [
    | none ↦ (s, some "bad_mode")
    | some m ↦ (elim (parse_bot_mode m) [
      | none ↦ (s, some "bad_mode")
      | some mode ↦ ((set_bot_mode s mode).0, none)
    ])
  ]

  -- The table that `assign_seat` names; a text that is no table's id names none that there is.
  pub table_for_assign : V → Result (Unit {0}) (Option ℕ)
  unfolding text_at
  table_for_assign v = elim (text_at rd v "table") [
    | none ↦ ok none
    | some text ↦ (elim (rd.table_no text) [ none ↦ err tt | some id ↦ ok (some id) ])
  ]

  -- The arm for `assign_seat` and `boot`.
  unfoldable pub handle_assign_seat :
      (SessionRoom → List Direction) → Bool → Session → V → Session × Option String
  unfolding text_at direction_at assign_seat table_for_assign
  handle_assign_seat order is_boot s v =
      let target : Option Direction = if is_boot then none else direction_at rd v "seat" in
      let from : Option Direction = direction_at rd v (if is_boot then "seat" else "from") in
      let token : Option String = if is_boot then none else text_at rd v "token" in
      let seat_bot = unwrap_or false (rd.json.as_bool (rd.json.member v "bot")) in
      elim (table_for_assign v) [
        | err e ↦ (s, some "rejected")
        | ok table ↦ elim (assign_seat order s table target from token seat_bot) [
          | err e ↦ (s, some "rejected")
          | ok (t, listed) ↦ (t, none)
        ]
      ]

  -- The arm for `kick`.
  unfoldable pub handle_kick :
      (SessionRoom → List Direction) → Session → V → Session × Option String
  unfolding text_at kick
  handle_kick order s v = elim (text_at rd v "token") [
    | none ↦ (s, some "bad_kick")
    | some token ↦ elim (kick order s token) [
      | err e ↦ (s, some "rejected")
      | ok (t, listed) ↦ (t, none)
    ]
  ]

  -- `s.as_str().and_then(Side::from_key)`
  pub side_named : V → Option Side
  unfolding side_of_key
  side_named w = elim (rd.json.as_str w) [ none ↦ none | some key ↦ side_of_key key ]

  -- The sides of `set_pass_sides`.
  pub sides_at : V → Side → Bool
  unfolding side_named side_key
  sides_at v side =
      contains
        (map side_key
          (filter_map side_named (unwrap_or [] (rd.json.as_array (rd.json.member v "sides")))))
        (side_key side)

  -- The arm for `set_pass_sides`; every table drops its cached auction.
  unfoldable pub handle_set_pass_sides : Session → V → Session × Option String
  unfolding set_pass_sides sides_at
  handle_set_pass_sides s v =
      let t = set_pass_sides s (sides_at v) in
      (record t { rooms = map (λ (x : SessionRoom). record x { bba_cache = none }) t.rooms }, none)
