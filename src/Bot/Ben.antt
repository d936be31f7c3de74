-- ===== src/Bot/Ben.antt =====
-- src/bots/ben.rs: which seat an answer of BEN is for.
use bridge_table_service.Auction.{turns}
use bridge_table_service.Bridge.{BridgeTypes, Direction}
use bridge_table_service.Prelude.{ℕ, ◌%◌, ◌+◌}

-- `player_to_seat`
pub player_to_seat : BridgeTypes → ℕ → Direction → Direction
player_to_seat bt player declarer = turns bt ((player + 1) % 4) declarer
