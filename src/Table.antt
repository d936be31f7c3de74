-- ===== src/Table.antt =====
-- src/table.rs: a table is a board and an append-only log of actions. Everything else is a fold of
-- the log; undo truncates it. Error messages are constructors, and JSON payloads are records. The
-- functions are in the children `Fold`, `Apply` and `View`.
pub mod Fold
pub mod Apply
pub mod Line
pub mod View
pub mod Tricks
pub mod Cases
pub mod Log
pub mod Bounds
pub mod Shares
pub mod Cards
pub mod Book
pub mod Rules
pub mod Bidding
pub mod Claims
use bridge_table_service.Auction.{ContractOutcome}
use bridge_table_service.Bridge.{Call, Card, Deal, Direction, Vulnerability}
use bridge_table_service.Play.{FourCards}
use bridge_table_service.Prelude.{
  Bool, List, Option, PartialEq, [], arith, as_u8, eqb, if◌then◌else◌, length, sub_u8, true, ℕ,
  ◌==◌, ◌↔◌, ◌≡◌,
}

-- `Action`
pub data Action : Type 0 where
  call : Direction → Call → Action
  play : Direction → Card → Action
  claim : Direction → ℕ → Bool → Action

-- `ClaimRecord`
pub record ClaimRecord : Type 0 where
  pub seat : Direction
  pub tricks : ℕ
  pub ruling : Bool
  pub at_trick : ℕ
  pub at_card : ℕ

-- `PlayLine`; its array is indexed by seats.
pub record PlayLine : Type 0 where
  pub by_seat : Direction → List Card

-- `BoardSetup`
pub record BoardSetup : Type 0 where
  pub number : ℕ
  pub dealer : Direction
  pub vulnerable : Vulnerability
  pub deal : Deal
  pub play_line : Option PlayLine

-- `Phase`
pub data Phase : Type 0 where
  bidding play complete : Phase

abbrev phase_index : Phase → ℕ
phase_index Phase.bidding = 0
phase_index Phase.play = 1
phase_index Phase.complete = 2

unfoldable pub phase_beq : Phase → Phase → Bool
phase_beq a b = eqb (phase_index a) (phase_index b)

pub phase_beq_iff : (a b : Phase) → (phase_beq a b ≡ true) ↔ (a ≡ b)
unfolding phase_beq
phase_beq_iff a b = ground arith

instance abbrev pub phase_eq : PartialEq Phase
phase_eq = record { same = phase_beq; beq_iff = phase_beq_iff }

-- An element of `completed_tricks`: (leader, four cards, winner).
pub record CompletedTrick : Type 0 where
  pub leader : Direction
  pub cards : FourCards
  pub winner : Direction

-- `Folded`
pub record Folded : Type 0 where
  pub phase : Phase
  pub calls : List Call
  pub outcome : Option ContractOutcome
  pub played : List (Direction × Card)
  pub completed_tricks : List CompletedTrick
  pub current_trick : Option (Direction × List (Direction × Card))
  pub tricks_ns : ℕ
  pub tricks_ew : ℕ
  pub next_to_act : Option Direction
  pub opening_lead_made : Bool
  pub claimed : Option ClaimRecord

-- `Folded::tricks_left`
unfoldable pub tricks_left : Folded → ℕ
tricks_left f =
    if f.phase == Phase.complete then 0 else sub_u8 13 (as_u8 (length f.completed_tricks))

-- `TableState`
pub record TableState : Type 0 where
  pub board : BoardSetup
  pub actions : List Action

-- `TableState::new`
unfoldable pub new_table : BoardSetup → TableState
new_table b = record { board = b; actions = [] }

-- `TableState::seq`
unfoldable pub seq : TableState → ℕ
seq t = length t.actions
