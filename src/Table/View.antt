-- ===== src/Table/View.antt =====
-- What the service reports of a table (src/table.rs): `board_result_json`, `snapshot` and
-- `claim_json`. A JSON object is a record with the same members.
use mathlib.Core.Option
use bridge_table_service.Auction.{ContractOutcome}
use bridge_table_service.Bridge.{BridgeTypes, Call, Card, Deal, Direction, Vulnerability}
use bridge_table_service.Play.{legal_cards}
use bridge_table_service.Prelude.{
  Bool, List, Option, if◌then◌else◌, is_some, leb, map, none, not, some, ℕ, ◌&&◌, ◌+◌, ◌-◌, ◌==◌,
  ◌||◌,
}
use bridge_table_service.Table.{ClaimRecord, Folded, Phase, TableState, phase_eq, seq}
use bridge_table_service.Table.Apply.{current_lead_suit, remaining}
use bridge_table_service.Table.Fold.{fold, is_ns}

-- `declarer_tricks as i16 - (c.level as i16 + 6)`: `up n` is n, `down n` is -(n + 1).
pub data Made : Type 0 where
  up down : ℕ → Made

pub made_of : ℕ → ℕ → Made
made_of taken level =
    if leb (level + 6) taken then up (taken - (level + 6)) else down (level + 6 - taken - 1)

-- The member `contract` of the result.
pub record ContractResult : Type 0 where
  pub contract_text : ContractOutcome
  pub declarer : Direction
  pub declarer_tricks : ℕ
  pub made : Made

-- The payload of `board_result_json`.
pub record BoardResult : Type 0 where
  pub board_no : ℕ
  pub passed_out : Bool
  pub contract_result : Option ContractResult
  pub ns : ℕ
  pub ew : ℕ
  pub claim_shown : Option ClaimRecord

pub contract_result_of : Folded → ContractOutcome → ContractResult
unfolding is_ns made_of
contract_result_of f c =
    let taken = if is_ns c.declarer then f.tricks_ns else f.tricks_ew in
    record {
      contract_text = c;
      declarer = c.declarer;
      declarer_tricks = taken;
      made = made_of taken c.level;
    }

-- The member `legal` of a snapshot: nothing, the seat that calls, or the seat that plays with its
-- legal cards.
pub data LegalActions : Type 0 where
  no_action : LegalActions
  to_call : Direction → LegalActions
  to_play : Direction → List Card → LegalActions

-- `let complete = ..` in `snapshot`
pub shown_complete : Bool → Folded → Bool
shown_complete bid_only f = f.phase == Phase.complete || (bid_only && f.phase == Phase.play)

-- The hands of a snapshot: the original ones on a complete board, else what is left of them.
pub shown_hand : Bool → TableState → Folded → Direction → List Card
unfolding shown_complete
shown_hand bid_only t f seat =
    if shown_complete bid_only f then t.board.deal seat else remaining t seat f

-- `let legal_actions = ..`
pub legal_actions : Bool → TableState → Folded → LegalActions
unfolding shown_complete
legal_actions bid_only t f = elim f.next_to_act [
  | none ↦ no_action
  | some seat ↦
      if f.phase == Phase.bidding
      then to_call seat
      else if f.phase == Phase.play && not (shown_complete bid_only f)
      then to_play seat (legal_cards (remaining t seat f) (current_lead_suit f))
      else no_action
]

-- The payload of `snapshot`.
pub record Snapshot : Type 0 where
  pub seq_no : ℕ
  pub board_no : ℕ
  pub dealer : Direction
  pub vulnerable : Vulnerability
  pub shown_phase : Phase
  pub auction : List Call
  pub contract_shown : Option ContractOutcome
  pub on_turn : Option Direction
  pub current : Option (Direction × List (Direction × Card))
  pub ns : ℕ
  pub ew : ℕ
  pub deal : Deal
  pub plays : List Card
  pub claim_shown : Option ClaimRecord
  pub hands : Direction → List Card
  pub legal : LegalActions

module _ (bt : BridgeTypes) where
  -- `TableState::board_result_json`
  pub board_result : TableState → Option BoardResult
  unfolding contract_result_of
  board_result t =
      let f = fold bt t in
      if f.phase == Phase.complete
      then some (record {
        board_no = t.board.number;
        passed_out = not (is_some f.outcome);
        contract_result = Option.map (contract_result_of f) f.outcome;
        ns = f.tricks_ns;
        ew = f.tricks_ew;
        claim_shown = f.claimed;
      })
      else none

  -- `TableState::snapshot`
  pub snapshot : TableState → Bool → Snapshot
  unfolding shown_hand legal_actions
  snapshot t bid_only =
      let f = fold bt t in
      record {
        seq_no = seq t;
        board_no = t.board.number;
        dealer = t.board.dealer;
        vulnerable = t.board.vulnerable;
        shown_phase = if shown_complete bid_only f then Phase.complete else f.phase;
        auction = f.calls;
        contract_shown = f.outcome;
        on_turn = f.next_to_act;
        current = f.current_trick;
        ns = f.tricks_ns;
        ew = f.tricks_ew;
        deal = t.board.deal;
        plays = map (λ p. p.1) f.played;
        claim_shown = f.claimed;
        hands = shown_hand bid_only t f;
        legal = legal_actions bid_only t f;
      }
