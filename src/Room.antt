-- ===== src/Room.antt =====
-- src/rooms.rs: the state of one table's room. Times are in milliseconds. A `HashMap` keyed by seats
-- is a function, and where the source walks one, its unspecified order is an argument `order`.
pub mod Seats
pub mod Control
pub mod Boards
pub mod Seating
pub mod Steps
pub mod Takeover
pub mod Undo
pub mod Reservations
pub mod Rotation
use bridge_table_service.Bridge.{Direction, east, north, south, west}
use bridge_table_service.Prelude.{
  Bool, Option, String, false, if◌then◌else◌, nat_eq, none, some, string_eq, true, ℕ, ◌==◌,
}
use bridge_table_service.Table.{BoardSetup, TableState, new_table}

-- `Side` (src/sessions.rs)
pub data Side : Type 0 where
  ns ew : Side

-- `Side::of`
pub side_of : Direction → Side
side_of north = Side.ns
side_of south = Side.ns
side_of east = Side.ew
side_of west = Side.ew

-- `TakeoverGrace`
pub record TakeoverGrace : Type 0 where
  pub on_turn : ℕ
  pub off_turn : ℕ

-- `TakeoverGrace::DEFAULT`: `TAKEOVER_AFTER_ON_TURN` and `TAKEOVER_AFTER`.
abbrev pub default_grace : TakeoverGrace
default_grace = record { on_turn = 20000; off_turn = 60000 }

-- `TakeoverGrace::FAST`
abbrev pub fast_grace : TakeoverGrace
fast_grace = record { on_turn = 3000; off_turn = 3000 }

-- `BotMode`
pub data BotMode : Type 0 where
  real random rules slow : BotMode

-- `BotMode::parse`
pub parse_bot_mode : String → Option BotMode
parse_bot_mode s =
    if s == "real"
    then some real
    else if s == "random"
    then some random
    else if s == "rules"
    then some rules
    else if s == "slow"
    then some slow
    else none

-- `BotMode::as_str`
pub show_bot_mode : BotMode → String
show_bot_mode real = "real"
show_bot_mode random = "random"
show_bot_mode rules = "rules"
show_bot_mode slow = "slow"

-- `mode as u8`, by the discriminants of the declaration
pub bot_mode_code : BotMode → ℕ
bot_mode_code real = 0
bot_mode_code random = 1
bot_mode_code rules = 2
bot_mode_code slow = 3

-- `BotMode::from_u8`
pub bot_mode_of : ℕ → BotMode
bot_mode_of v = if v == 1 then random else if v == 2 then rules else if v == 3 then slow else real

-- `BoardMode`
pub data BoardMode : Type 0 where
  bid_and_play bid_only play_only : BoardMode

-- `BoardMode::parse`
pub parse_board_mode : String → Option BoardMode
parse_board_mode s =
    if s == "bid-and-play"
    then some bid_and_play
    else if s == "bid-only"
    then some bid_only
    else if s == "play-only"
    then some play_only
    else none

-- `BoardMode::as_str`
pub show_board_mode : BoardMode → String
show_board_mode bid_and_play = "bid-and-play"
show_board_mode bid_only = "bid-only"
show_board_mode play_only = "play-only"

-- `mode as u8`
pub board_mode_code : BoardMode → ℕ
board_mode_code bid_and_play = 0
board_mode_code bid_only = 1
board_mode_code play_only = 2

-- `BoardMode::from_u8`
pub board_mode_of : ℕ → BoardMode
board_mode_of v = if v == 1 then bid_only else if v == 2 then play_only else bid_and_play

-- `board_mode == BoardMode::BidOnly`, and so for the other modes
unfoldable pub is_bid_only : BoardMode → Bool
is_bid_only bid_only = true
is_bid_only _ = false

unfoldable pub is_play_only : BoardMode → Bool
is_play_only play_only = true
is_play_only _ = false

-- `Occupant`
pub record Occupant : Type 0 where
  pub sub : String
  pub name : String
  pub connected : Bool
  pub disconnected_at : Option ℕ

-- `Reservation`
pub record Reservation : Type 0 where
  pub sub : String
  pub name : String
  pub expires_at : ℕ

-- `HashMap<Direction, V>`
abbrev pub SeatMap : Type 0 → Type 0
SeatMap V = Direction → Option V

-- `RoomInner`
pub record RoomInner : Type 0 where
  pub table : TableState
  pub seats : SeatMap Occupant
  pub board_index : ℕ
  pub board_mode : BoardMode
  pub takeover : TakeoverGrace
  pub no_bot : Direction → Bool
  pub reservations : SeatMap Reservation
  pub pass_sides : Side → Bool

-- The state that `Room::new` starts from.
unfoldable pub new_room : BoardSetup → TakeoverGrace → RoomInner
unfolding new_table
new_room board takeover = record {
  table = new_table board;
  seats = λ d. none;
  board_index = 0;
  board_mode = bid_and_play;
  takeover = takeover;
  no_bot = λ d. false;
  reservations = λ d. none;
  pass_sides = λ s. false;
}
