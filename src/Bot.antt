-- ===== src/Bot.antt =====
-- src/bots.rs: what a bot decides from and chooses with. The two HTTP services and the `bridge-rulebot`
-- crate are not part of this repository: `Clients` and `Rulebot` hold what they answer, and the texts
-- that the requests print are left as the data that they print.
pub mod Bba
pub mod Ben
pub mod Choose
pub mod Driver
pub mod Loop
pub mod Alone
pub mod Choices
pub mod Cards
pub mod Safety
pub mod Acts
use bridge_table_service.Auction.{ContractOutcome}
use bridge_table_service.Bridge.{Call, Card, Direction, Vulnerability, card_eq, pass}
use bridge_table_service.Prelude.{Bool, List, Option, contains, some, true, ℕ, ◌≡◌}
use bridge_table_service.Table.{BoardSetup, PlayLine, seq}
use bridge_table_service.Table.Apply.{remaining}

-- `PlayPending`. `hand_pbn`, `dummy_pbn` and `contract_pbn` are what `hand`, `dummy_cards` and `outcome`
-- print as, `ctx` and `played` what `calls` and `played_pairs` do.
pub record PlayPending : Type 0 where
  pub seat : Direction
  pub seq : ℕ
  pub legal : List Card
  pub opening_lead : Bool
  pub decision_maker : Direction
  pub declarer : Direction
  pub hand : List Card
  pub dealer : Direction
  pub vul : Vulnerability
  pub remaining : List Card
  pub dummy_cards : List Card
  pub calls : List Call
  pub played_pairs : List (Direction × Card)
  pub outcome : ContractOutcome
  pub line : Option PlayLine

-- `Pending::Bid`
pub record BidPending : Type 0 where
  pub seat : Direction
  pub seq : ℕ
  pub board : BoardSetup
  pub calls : List Call
  pub pass : Bool

-- `Pending`
pub data Pending : Type 0 where
  pending_bid : BidPending → Pending
  pending_play : PlayPending → Pending

-- The answers of BBA and BEN; `none` is a failed request or an answer that does not parse. BBA's is the
-- list of the calls of its `auction`, BEN's a card, for `/play` with the number of `player`.
pub record Clients : Type 0 where
  pub auction : BoardSetup → List Call → Option (List Call)
  pub ben_lead : PlayPending → Option Card
  pub ben_play : PlayPending → Option (Card × Option ℕ)

-- The decisions of `bridge_rulebot`; `none` is its error.
pub record Rulebot : Type 0 where
  pub choose_opening_lead : PlayPending → Option Card
  pub choose_card : PlayPending → Option Card

-- The documented behaviour of `bridge_rulebot`: it only ever returns a member of `legal`.
pub record OnlyLegal (rb : Rulebot) : Type 0 where
  pub lead_among :
      (p : PlayPending) (c : Card) → rb.choose_opening_lead p ≡ some c → contains p.legal c ≡ true
  pub card_among :
      (p : PlayPending) (c : Card) → rb.choose_card p ≡ some c → contains p.legal c ≡ true
