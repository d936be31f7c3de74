-- ===== src/Room/Rotation.antt =====
-- Rotating a board (src/rooms.rs, `rotate_board_one` and `board_from_pbn`).
use bridge_table_service.Bridge.{
  BridgeTypes, Deal, Direction, clockwise, direction_beq, east, north, south, west,
}
use bridge_table_service.Prelude.{ap, arith, refl, suc, zero, ℕ, ◌∙◌, ◌≡◌}
use bridge_table_service.Room.Boards.{rotate_board, rotate_board_one, rotate_deal, set_next_hand}
use bridge_table_service.Table.{BoardSetup}

-- The seat before a seat, clockwise.
pub anticlockwise : Direction → Direction
anticlockwise d = clockwise (clockwise (clockwise d))

-- The seat so many places round from a seat.
pub round_by : ℕ → Direction → Direction
round_by zero d = d
round_by (suc k) d = clockwise (round_by k d)

module _ (bt : BridgeTypes) (next_clockwise : (d : Direction) → bt.next d ≡ clockwise d) where
  -- Every seat holds the hand of the seat before it.
  rotate_deal_lem : (old : Deal) (d : Direction) → rotate_deal bt old d ≡ old (anticlockwise d)
  unfolding rotate_deal set_next_hand direction_beq anticlockwise
  rotate_deal_lem old d =
      let n = next_clockwise in rw (n west, n south, n east, n north) (ground arith)

  anticlockwise-clockwise : (d : Direction) → anticlockwise (clockwise d) ≡ d
  unfolding anticlockwise
  anticlockwise-clockwise north = refl
  anticlockwise-clockwise east = refl
  anticlockwise-clockwise south = refl
  anticlockwise-clockwise west = refl

  round_by-clockwise : (k : ℕ) (d : Direction) → round_by k (clockwise d) ≡ clockwise (round_by k d)
  unfolding round_by
  round_by-clockwise zero d = refl
  round_by-clockwise (suc k) d = ap clockwise (round_by-clockwise k d)

  rotate_board_one-relative :
      (b : BoardSetup) (k : ℕ)
      → (rotate_board_one bt b).deal (round_by k (rotate_board_one bt b).dealer)
        ≡ b.deal (round_by k b.dealer)
  unfolding rotate_board_one
  rotate_board_one-relative b k =
      rotate_deal_lem b.deal (round_by k (bt.next b.dealer))
      ∙ ap b.deal (
          ap (λ d. anticlockwise (round_by k d)) (next_clockwise b.dealer)
          ∙ ap anticlockwise (round_by-clockwise k b.dealer)
          ∙ anticlockwise-clockwise (round_by k b.dealer))

  -- A rotation keeps what every player holds relative to the dealer, the board's number and its
  -- vulnerability: the hand `k` seats round from the new dealer is the one `k` seats round from the old.
  -- `next` is assumed to go clockwise.
  pub rotate_board_lem :
      (n : ℕ) (b : BoardSetup) (k : ℕ)
      → ((rotate_board bt n b).deal (round_by k (rotate_board bt n b).dealer)
          ≡ b.deal (round_by k b.dealer))
        × ((rotate_board bt n b).dealer ≡ round_by n b.dealer)
        × ((rotate_board bt n b).number ≡ b.number)
        × ((rotate_board bt n b).vulnerable ≡ b.vulnerable)
  unfolding rotate_board rotate_board_one round_by
  rotate_board_lem zero b k = (refl, refl, refl, refl)
  rotate_board_lem (suc n) b k =
      let (hands, dealer, number, vul) = rotate_board_lem n (rotate_board_one bt b) k in
      (
        hands ∙ rotate_board_one-relative b k,
        dealer ∙ ap (round_by n) (next_clockwise b.dealer) ∙ round_by-clockwise n b.dealer,
        number,
        vul,
      )
