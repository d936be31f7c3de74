-- ===== src/Protocol.antt =====
-- src/routes/ws.rs: the messages of a connection. An error frame is its code; the texts of the frames are
-- not modelled, and an event is the data that it prints.
pub mod Seats
pub mod Dealing
pub mod Player
pub mod Host
pub mod Teacher
pub mod Joining
pub mod Accounted
pub mod Moves
pub mod Messages
pub mod Rules
pub mod Orders
pub mod Refusals
pub mod Rebinding
pub mod Run
use bridge_table_service.Bridge.{Call, Card, Direction, Suit}
use bridge_table_service.Prelude.{
  Bool, List, Option, Result, String, [], contains, err, false, if◌then◌else◌, ltb, none, ok, some,
  string_eq, ℕ, ◌∷◌,
}
use bridge_table_service.Room.Control.{RoomResult}
use bridge_table_service.Session.{SessionRoom}
use bridge_table_service.Session.Policy.{Json}

-- What the handlers call of the crates, to read a frame: the parsed JSON, characters as code points, and
-- the readings of `bridge-types`.
pub record Reader (V : Type 0) : Type 0 where
  pub json : Json V
  pub chars : String → List ℕ
  -- `Direction::from_char`
  pub direction_of : ℕ → Option Direction
  -- `Suit::from_char`
  pub suit_of : ℕ → Option Suit
  -- `Rank::from_char`
  pub rank_of : ℕ → Option ℕ
  -- `Call::from_pbn`
  pub call_of : String → Option Call
  -- The number n of a text `<session>-t<n>`.
  pub table_no : String → Option ℕ

-- What is sent to the table, to the lobby and to the bots.
pub data Notice : Type 0 where
  bid_made : ℕ → Direction → Call → Option Direction → Notice
  card_played : ℕ → Direction → Card → Option Direction → Option Direction → ℕ → ℕ → Notice
  board_complete : RoomResult → Notice
  rewound : ℕ → String → Notice
  board_advanced : ℕ → String → String → Notice
  resync lobby_refresh bots_kicked : Notice

-- What a handler leaves: the room, what is sent to others, and the error that is sent back.
pub record Handled : Type 0 where
  pub room : SessionRoom
  pub notices : List Notice
  pub error : Option String

-- An early return of an error, or the room and what is sent. The last call of an arm that may fail is `apply`,
-- `undo_to` or `make_claim`, which change the table only if they succeed, so that an arm that returns an
-- error has not touched the room, nor sent anything.
pub answered : SessionRoom → Result String (SessionRoom × List Notice) → Handled
answered x (err code) = record { room = x; notices = []; error = some code }
answered x (ok (y, notices)) = record { room = y; notices = notices; error = none }

module _ {V : Type 0} (rd : Reader V) where
  -- `v[key].as_str()`
  unfoldable pub text_at : V → String → Option String
  text_at v key = rd.json.as_str (rd.json.member v key)

  -- `v[key].as_u64()`
  pub number_at : V → String → Option ℕ
  number_at v key = rd.json.as_u64 (rd.json.member v key)

  -- `s.chars().next().and_then(Direction::from_char)`
  pub first_direction : String → Option Direction
  first_direction s = elim (rd.chars s) [ [] ↦ none | c ∷ cs ↦ rd.direction_of c ]

  -- `parse_dir`
  pub direction_at : V → String → Option Direction
  unfolding text_at first_direction
  direction_at v key = elim (text_at v key) [ none ↦ none | some s ↦ first_direction s ]

  -- `claim_numbers`; a `usize` has 64 bits.
  pub claim_numbers : V → Option (ℕ × ℕ)
  unfolding number_at
  claim_numbers v = elim (number_at v "tricks") [
    | none ↦ none
    | some tricks ↦
        if ltb tricks 256
        then (elim (number_at v "plays_seen") [ none ↦ none | some n ↦ some (tricks, n) ])
        else none
  ]

  -- The body of `parse_card`, on the characters.
  pub card_of : List ℕ → Option Card
  card_of (s ∷ r ∷ []) = elim (rd.suit_of s) [
    | none ↦ none
    | some suit ↦ (elim (rd.rank_of r) [
      | none ↦ none
      | some rank ↦ some (record { suit = suit; rank = rank })
    ])
  ]
  card_of _ = none

  -- `parse_card`
  pub parse_card : String → Option Card
  unfolding card_of
  parse_card s = card_of (rd.chars s)

  -- `is_host_control`
  pub is_host_control : V → Bool
  unfolding text_at
  is_host_control v = elim (text_at v "t") [
    | none ↦ false
    | some t ↦
        contains
          ("load_boards" ∷ "goto_board" ∷ "next_board" ∷ "prev_board" ∷ "open_boards"
            ∷ "force_advance" ∷ "claim_ruling" ∷ "seat_students" ∷ "wait_to_seat" ∷ "add_tables"
            ∷ "set_seat_policy" ∷ "set_bot_mode" ∷ "set_board_mode" ∷ "pause_bots" ∷ "assign_seat"
            ∷ "boot" ∷ "kick" ∷ "set_pass_sides" ∷ [])
          t
  ]
