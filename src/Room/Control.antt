-- ===== src/Room/Control.antt =====
-- Who controls a seat, and what a room reports (src/rooms.rs, `impl RoomInner`).
use mathlib.Core.Option
use bridge_table_service.Auction.{ContractOutcome}
use bridge_table_service.Bridge.{BridgeTypes, Direction}
use bridge_table_service.Prelude.{
  Bool, List, Option, String, [], false, if◌then◌else◌, leb, length, none, not, reverse, some, true,
  ℕ, ◌&&◌, ◌-◌, ◌==◌, ◌∷◌,
}
use bridge_table_service.Room.{Occupant, RoomInner, TakeoverGrace, is_bid_only}
use bridge_table_service.Room.Seats.{active_reservation}
use bridge_table_service.Table.{Action, Phase, phase_eq}
use bridge_table_service.Table.Fold.{fold}
use bridge_table_service.Table.View.{BoardResult, board_result}

-- The end of `seat_bot_controlled`, for a seat that somebody holds.
unfoldable pub occupant_bot_controlled : TakeoverGrace → Occupant → Bool → ℕ → Bool
occupant_bot_controlled grace occ on_turn now =
    if occ.connected then false else (elim occ.disconnected_at [
      | none ↦ false
      | some t ↦ leb (if on_turn then grace.on_turn else grace.off_turn) (now - t)
    ])

-- `RoomInner::seat_bot_controlled`; `duration_since` stops at zero, as `-` does.
unfoldable pub seat_bot_controlled : RoomInner → Direction → Bool → ℕ → Bool
unfolding occupant_bot_controlled
seat_bot_controlled r seat on_turn now = elim (r.seats seat) [
  | none ↦ not (r.no_bot seat)
  | some occ ↦ occupant_bot_controlled r.takeover occ on_turn now
]

-- `RoomInner::declarer_side_controller`
pub declarer_side_controller : BridgeTypes → RoomInner → Direction → Bool → ℕ → Direction
declarer_side_controller bt r declarer on_turn now =
    if not (seat_bot_controlled r declarer on_turn now)
    then declarer
    else if not (seat_bot_controlled r (bt.partner declarer) on_turn now)
    then bt.partner declarer
    else declarer

-- The seat of an action.
pub actor : Action → Direction
actor (Action.call seat c) = seat
actor (Action.play seat card) = seat
actor (Action.claim seat tricks ruling) = seat

-- The loop of `last_human_action_seq`, over the log with the latest action first.
unfoldable pub last_human_from : RoomInner → ℕ → List Action → Option ℕ
unfolding actor
last_human_from r now [] = none
last_human_from r now (a ∷ earlier) =
    if not (seat_bot_controlled r (actor a) true now)
    then some (length earlier)
    else last_human_from r now earlier

-- `RoomInner::last_human_action_seq`
unfoldable pub last_human_action_seq : RoomInner → ℕ → Option ℕ
unfolding last_human_from
last_human_action_seq r now = last_human_from r now (reverse r.table.actions)

-- The payload of `RoomInner::result_json`: a bid-only board, or the table's own result.
pub data RoomResult : Type 0 where
  bid_only_result : ContractOutcome → RoomResult
  table_result : BoardResult → RoomResult

-- `RoomInner::result_json`; `none` inside stands for the failed `expect`.
pub result_json : BridgeTypes → RoomInner → Option RoomResult
unfolding is_bid_only
result_json bt r =
    let f = fold bt r.table in
    if is_bid_only r.board_mode && f.phase == Phase.play
    then Option.map bid_only_result f.outcome
    else Option.map table_result (board_result bt r.table)

-- An entry of `seats_json`.
pub data SeatShown : Type 0 where
  human : String → Bool → SeatShown
  reserved : String → SeatShown
  open_seat bot : SeatShown

-- `RoomInner::seats_json` at the time `now`, seat by seat
pub seat_shown : RoomInner → ℕ → Direction → SeatShown
seat_shown r now seat = elim (r.seats seat) [
  | some o ↦ human o.name o.connected
  | none ↦ elim (active_reservation r seat now) [
    | some v ↦ reserved v.name
    | none ↦ if r.no_bot seat then open_seat else bot
  ]
]
