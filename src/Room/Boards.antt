-- ===== src/Room/Boards.antt =====
-- Where boards come from (src/rooms.rs): the vulnerability cycle and the rotation of a deal.
use bridge_table_service.Bridge.{
  BridgeTypes, Deal, Direction, Vulnerability, both, direction_eq, east, east_west, nobody, north,
  north_south, south, west,
}
use bridge_table_service.Prelude.{
  List, Option, [], get_elem?, if◌then◌else◌, max, none, suc, zero, ℕ, ◌%◌, ◌-◌, ◌==◌, ◌∷◌,
}
use bridge_table_service.Table.{BoardSetup}

-- `CYCLE` in `vulnerability_for`
pub vulnerability_cycle : List Vulnerability
vulnerability_cycle =
    nobody ∷ north_south ∷ east_west ∷ both ∷ north_south ∷ east_west ∷ both ∷ nobody ∷ east_west
    ∷ both ∷ nobody ∷ north_south ∷ both ∷ nobody ∷ north_south ∷ east_west ∷ []

-- `vulnerability_for`; `none` would be an index out of bounds.
pub vulnerability_for : ℕ → Option Vulnerability
unfolding vulnerability_cycle
vulnerability_for number = get_elem? vulnerability_cycle ((max number 1 - 1) % 16)

module _ (bt : BridgeTypes) where
  -- One `deal.set_hand(seat.next(), b.deal.hand(seat).clone())`
  unfoldable pub set_next_hand : Deal → Direction → Deal → Deal
  set_next_hand old seat new d = if d == bt.next seat then old seat else new d

  -- The loop `for seat in Direction::ALL` from `Deal::new()`, whose hands are empty.
  unfoldable pub rotate_deal : Deal → Deal
  unfolding set_next_hand
  rotate_deal old =
      set_next_hand old west
        (set_next_hand old south (set_next_hand old east (set_next_hand old north (λ d. []))))

  -- `rotate_board_one`
  unfoldable pub rotate_board_one : BoardSetup → BoardSetup
  unfolding rotate_deal
  rotate_board_one b = record {
    number = b.number;
    dealer = bt.next b.dealer;
    vulnerable = b.vulnerable;
    deal = rotate_deal b.deal;
    play_line = none;
  }

  -- The loop `for _ in 0..(rotate % 4)` of `board_from_pbn`.
  unfoldable pub rotate_board : ℕ → BoardSetup → BoardSetup
  rotate_board zero b = b
  rotate_board (suc n) b = rotate_board n (rotate_board_one b)
