-- ===== src/Table/Fold.antt =====
-- `TableState::fold` (src/table.rs): the derived state of a log, loop by loop.
use bridge_table_service.Auction.{
  ContractOutcome, contract, is_complete, next_caller, opening_leader,
}
use bridge_table_service.Bridge.{BridgeTypes, Call, Card, Direction, Suit, east, north, south, west}
use bridge_table_service.Play.{FourCards, trick_winner, trump_of}
use bridge_table_service.Prelude.{
  Bool, List, Option, [], add_u8, as_u8, eqb, false, if◌then◌else◌, is_empty, is_some, last, length,
  min, none, not, some, sub_u8, true, ℕ, ◌&&◌, ◌++◌, ◌+◌, ◌||◌, ◌∷◌,
}
use bridge_table_service.Table.{Action, ClaimRecord, CompletedTrick, Folded, Phase, TableState}

-- The claim as the first loop of `fold` keeps it: seat, tricks, ruling, cards played before it.
abbrev pub RawClaim : Type 0
RawClaim = Direction × ℕ × Bool × ℕ

-- The variables of the first loop of `fold`.
pub record Gathered : Type 0 where
  pub calls : List Call
  pub played : List (Direction × Card)
  pub raw : Option RawClaim

-- One round of that loop.
unfoldable pub gather_one : Gathered → Action → Gathered
gather_one g (Action.call seat c) = record g { calls = g.calls ++ c ∷ [] }
gather_one g (Action.play seat card) = record g { played = g.played ++ (seat, card) ∷ [] }
gather_one g (Action.claim seat tricks ruling) = record g {
  raw = some (seat, tricks, ruling, length g.played);
}

-- That loop.
unfoldable pub gather_from : Gathered → List Action → Gathered
gather_from g [] = g
gather_from g (a ∷ actions) = gather_from (gather_one g a) actions

unfoldable pub gather : List Action → Gathered
unfolding gather_from
gather actions = gather_from (record { calls = []; played = []; raw = none }) actions

-- `matches!(seat, Direction::North | Direction::South)`
unfoldable pub is_ns : Direction → Bool
is_ns north = true
is_ns east = false
is_ns south = true
is_ns west = false

-- The variables of the loop of `fold` over the plays.
pub record Tally : Type 0 where
  pub completed : List CompletedTrick
  pub leader : Direction
  pub trick : List (Direction × Card)
  pub ns : ℕ
  pub ew : ℕ

-- `if trick.len() == 4 { let cards = [trick[0].1, ..]; .. }`: the four cards, when there are four.
unfoldable pub four_cards : List (Direction × Card) → Option FourCards
four_cards ((s1, a) ∷ (s2, b) ∷ (s3, c) ∷ (s4, d) ∷ []) =
    some (record { first = a; second = b; third = c; fourth = d })
four_cards _ = none

module _ (bt : BridgeTypes) where
  -- The body of that `if`.
  unfoldable pub close_trick : Option Suit → Tally → FourCards → Tally
  unfolding is_ns
  close_trick trump y cards =
      let winner = trick_winner bt y.leader cards trump in
      record {
        completed =
            y.completed ++ record { leader = y.leader; cards = cards; winner = winner } ∷ [];
        leader = winner;
        trick = [];
        ns = if is_ns winner then add_u8 y.ns 1 else y.ns;
        ew = if is_ns winner then y.ew else add_u8 y.ew 1;
      }

  -- One round of the loop: the trick with the card pushed, closed if it has four cards.
  unfoldable pub tally_pushed : Option Suit → Tally → Tally
  unfolding four_cards close_trick
  tally_pushed trump y = elim (four_cards y.trick) [
    | none ↦ y
    | some cards ↦ close_trick trump y cards
  ]

  unfoldable pub tally_one : Option Suit → Tally → Direction × Card → Tally
  unfolding tally_pushed
  tally_one trump y p = tally_pushed trump (record y { trick = y.trick ++ p ∷ [] })

  -- `for (seat, card) in &played { .. }`
  unfoldable pub tally_from : Option Suit → Tally → List (Direction × Card) → Tally
  tally_from trump y [] = y
  tally_from trump y (p ∷ played) = tally_from trump (tally_one trump y p) played

  -- The tally of all the plays of a contract.
  unfoldable pub tally : ContractOutcome → List (Direction × Card) → Tally
  unfolding tally_from
  tally c played =
      tally_from (trump_of c.strain)
        (record { completed = []; leader = opening_leader bt c; trick = []; ns = 0; ew = 0 }) played

  -- The closure of `claim.map(..)`: the tricks of both sides after the claim, and its record.
  unfoldable pub settle_claim : Tally → RawClaim → ℕ × ℕ × ClaimRecord
  unfolding is_ns
  settle_claim y (seat, tricks, ruling, at_card) =
      let left = sub_u8 13 (as_u8 (length y.completed)) in
      let taken = min tricks left in
      let rest = sub_u8 left taken in
      (
        add_u8 y.ns (if is_ns seat then taken else rest),
        add_u8 y.ew (if is_ns seat then rest else taken),
        record {
          seat = seat;
          tricks = taken;
          ruling = ruling;
          at_trick = length y.completed + 1;
          at_card = at_card;
        },
      )

  -- The tricks and the claim with which `fold` ends.
  unfoldable pub settled : Tally → Option RawClaim → ℕ × ℕ × Option ClaimRecord
  unfolding settle_claim
  settled y none = (y.ns, y.ew, none)
  settled y (some raw) = let (ns, ew, r) = settle_claim y raw in (ns, ew, some r)

  -- `if let Some((last_seat, _)) = trick.last() { last_seat.next() } else { leader }`
  unfoldable pub turn_of : Tally → Direction
  turn_of y = elim (last y.trick) [ none ↦ y.leader | some (seat, card) ↦ bt.next seat ]

  -- `let play_done = completed.len() == 13 || claim.is_some();`
  unfoldable pub play_done : Tally → Option RawClaim → Bool
  play_done y raw = eqb (length y.completed) 13 || is_some raw

  -- The result of `fold` once there is a contract.
  unfoldable pub fold_play : ContractOutcome → Gathered → Folded
  unfolding settled turn_of play_done
  fold_play c g =
      let y = tally c g.played in
      let done = play_done y g.raw in
      let (ns, ew, claimed) = settled y g.raw in
      record {
        phase = if done then Phase.complete else Phase.play;
        calls = g.calls;
        outcome = some c;
        played = g.played;
        completed_tricks = y.completed;
        current_trick = if is_empty y.trick && done then none else some (y.leader, y.trick);
        tricks_ns = ns;
        tricks_ew = ew;
        next_to_act = if done then none else some (turn_of y);
        opening_lead_made = not (is_empty g.played);
        claimed = claimed;
      }

  -- The early returns of `fold`: bidding, and passed out.
  unfoldable pub fold_without_play : Phase → Option Direction → Gathered → Folded
  fold_without_play phase turn g = record {
    phase = phase;
    calls = g.calls;
    outcome = none;
    played = g.played;
    completed_tricks = [];
    current_trick = none;
    tricks_ns = 0;
    tricks_ew = 0;
    next_to_act = turn;
    opening_lead_made = false;
    claimed = none;
  }

  -- `fold` after its first loop.
  unfoldable pub fold_gathered : Direction → Gathered → Folded
  fold_gathered dealer g =
      if is_complete g.calls
      then (elim (contract bt dealer g.calls) [
        | none ↦ fold_without_play Phase.complete none g
        | some c ↦ fold_play c g
      ])
      else fold_without_play Phase.bidding (some (next_caller bt dealer g.calls)) g

  -- `TableState::fold`
  unfoldable pub fold : TableState → Folded
  unfolding fold_gathered
  fold t = fold_gathered t.board.dealer (gather t.actions)
