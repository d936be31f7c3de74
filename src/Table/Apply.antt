-- ===== src/Table/Apply.antt =====
-- `TableState::apply`, `undo_to` and `remaining` (src/table.rs).
use bridge_table_service.Auction.{is_legal}
use bridge_table_service.Bridge.{BridgeTypes, Call, Card, Direction, Suit, card_eq, direction_eq}
use bridge_table_service.Play.{is_legal_play}
use bridge_table_service.Prelude.{
  Bool, List, Option, Result, [], false, filter, first, guard, if◌then◌else◌, leb, none, not, ok,
  some, take, ℕ, ◌++◌, ◌==◌, ◌>>◌, ◌∷◌,
}
use bridge_table_service.Table.{Action, Folded, Phase, TableState, phase_eq, seq, tricks_left}
use bridge_table_service.Table.Fold.{fold}

-- The `Err` strings of `apply` and `undo_to`, with what they are formatted from.
pub data Refusal : Type 0 where
  auction_over not_in_play no_claim_now undo_forward : Refusal
  not_turn_to_call not_turn_to_play : Direction → Refusal
  illegal_call : Call → Refusal
  illegal_card : Card → Refusal
  too_many_tricks : ℕ → ℕ → Refusal

-- The loop of `remaining`: each card that `seat` has played is taken out.
unfoldable pub without_played : Direction → List (Direction × Card) → List Card → List Card
without_played seat [] cards = cards
without_played seat ((s, c) ∷ played) cards =
    without_played seat played (if s == seat then filter (λ x. not (x == c)) cards else cards)

-- `TableState::remaining`
unfoldable pub remaining : TableState → Direction → Folded → List Card
unfolding without_played
remaining t seat f = without_played seat f.played (t.board.deal seat)

-- `f.next_to_act == Some(seat)`
unfoldable pub is_turn : Folded → Direction → Bool
is_turn f seat = elim f.next_to_act [ none ↦ false | some d ↦ d == seat ]

-- `current_lead_suit`: the suit of the first card of the current trick.
unfoldable pub current_lead_suit : Folded → Option Suit
current_lead_suit f = elim f.current_trick [
  | none ↦ none
  | some (leader, plays) ↦ elim (first plays) [ none ↦ none | some (s, c) ↦ some c.suit ]
]

-- The checks of `apply`, arm by arm.
unfoldable pub check : TableState → Folded → Action → Result Refusal (Unit {0})
unfolding is_turn
check t f (Action.call seat c) = do
  guard (f.phase == Phase.bidding) auction_over
  guard (is_turn f seat) (not_turn_to_call seat)
  guard (is_legal t.board.dealer f.calls c) (illegal_call c)
check t f (Action.play seat card) = do
  guard (f.phase == Phase.play) not_in_play
  guard (is_turn f seat) (not_turn_to_play seat)
  guard (is_legal_play card (remaining t seat f) (current_lead_suit f)) (illegal_card card)
check t f (Action.claim seat tricks ruling) = do
  guard (f.phase == Phase.play) no_claim_now
  guard (leb tricks (tricks_left f)) (too_many_tricks tricks (tricks_left f))

-- `self.actions.push(action)`
unfoldable pub push : TableState → Action → TableState
push t a = record t { actions = t.actions ++ a ∷ [] }

-- `TableState::apply`: the new table and its sequence number, or the refusal of an unchanged table.
unfoldable pub apply : BridgeTypes → TableState → Action → Result Refusal (TableState × ℕ)
unfolding push seq
apply bt t a = do check t (fold bt t) a; ok (push t a, seq (push t a))

-- `TableState::undo_to`
unfoldable pub undo_to : TableState → ℕ → Result Refusal (TableState × ℕ)
unfolding seq
undo_to t to_seq = do
  guard (leb to_seq (seq t)) undo_forward
  let t' = record t { actions = take to_seq t.actions }
  ok (t', seq t')
