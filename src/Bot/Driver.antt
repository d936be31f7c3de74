-- ===== src/Bot/Driver.antt =====
-- `act_once` of src/bots.rs in its three phases: decide under the lock, choose without it, and land under
-- the lock again, on a room that may have changed. The events that it
-- broadcasts are not modelled.
use mathlib.Core.Option
use bridge_table_service.Auction.{ContractOutcome, dummy}
use bridge_table_service.Bot.{
  BidPending, Clients, Pending, PlayPending, Rulebot, pending_bid, pending_play,
}
use bridge_table_service.Bot.Choose.{choose_call, choose_card, line_card, pick, rules_card}
use bridge_table_service.Bridge.{BridgeTypes, Call, Card, Direction, direction_eq, pass}
use bridge_table_service.Play.{legal_cards}
use bridge_table_service.Prelude.{
  Bool, List, Option, String, err, false, if◌then◌else◌, is_empty, nat_eq, none, not, ok, some,
  true, ℕ, ◌&&◌, ◌==◌, ◌||◌,
}
use bridge_table_service.Room.{
  BotMode, RoomInner, is_bid_only, is_play_only, random, real, rules, side_of, slow,
}
use bridge_table_service.Room.Control.{declarer_side_controller, seat_bot_controlled}
use bridge_table_service.Table.{Action, Folded, Phase, phase_eq, seq}
use bridge_table_service.Table.Apply.{Refusal, apply, current_lead_suit, remaining}
use bridge_table_service.Table.Fold.{fold}
use bridge_table_service.Table.Log.{at}

-- `mode_allows_bot`
unfoldable pub mode_allows_bot : RoomInner → Folded → Bool
mode_allows_bot r f = not (is_bid_only r.board_mode && f.phase == Phase.play)

-- `mode_forces_bot`
unfoldable pub mode_forces_bot : RoomInner → Folded → Bool
mode_forces_bot r f = is_play_only r.board_mode && f.phase == Phase.bidding

-- The variable `controller` of `is_bot_seat`, at the time `now`.
unfoldable pub controller_of : BridgeTypes → RoomInner → Folded → Direction → ℕ → Direction
controller_of bt r f seat now = elim f.outcome [
  | none ↦ seat
  | some c ↦
      if seat == dummy bt c || seat == c.declarer
      then declarer_side_controller bt r c.declarer true now
      else seat
]

-- `is_bot_seat`, whose second look at the clock is `later`.
unfoldable pub is_bot_seat : BridgeTypes → RoomInner → Folded → Direction → ℕ → ℕ → Bool
unfolding controller_of
is_bot_seat bt r f seat now later = seat_bot_controlled r (controller_of bt r f seat now) true later

-- `bot_turn_pending`
unfoldable pub bot_turn_pending : BridgeTypes → RoomInner → ℕ → ℕ → Bool
unfolding mode_allows_bot is_bot_seat
bot_turn_pending bt r now later =
    let f = fold bt r.table in
    elim f.next_to_act [
      | none ↦ false
      | some seat ↦ mode_allows_bot r f && is_bot_seat bt r f seat now later
    ]

-- The arm for `Phase::Bidding`.
unfoldable pub bid_pending : RoomInner → Folded → Direction → BidPending
bid_pending r f seat = record {
  seat = seat;
  seq = seq r.table;
  board = r.table.board;
  calls = f.calls;
  pass = r.pass_sides (side_of seat);
}

-- What the arm for `Phase::Play` captures, once there are legal cards.
unfoldable pub captured :
    BridgeTypes → RoomInner → Folded → Direction → ContractOutcome → PlayPending
captured bt r f seat c =
    let held = remaining r.table seat f in
    let maker = if seat == c.declarer || seat == dummy bt c then c.declarer else seat in
    record {
      seat = seat;
      seq = seq r.table;
      legal = legal_cards held (current_lead_suit f);
      opening_lead = is_empty f.played;
      decision_maker = maker;
      declarer = c.declarer;
      hand = r.table.board.deal maker;
      dealer = r.table.board.dealer;
      vul = r.table.board.vulnerable;
      remaining = held;
      dummy_cards = r.table.board.deal (dummy bt c);
      calls = f.calls;
      played_pairs = f.played;
      outcome = c;
      line = r.table.board.play_line;
    }

-- The arm for `Phase::Play`; a missing contract would be the failed `expect`.
unfoldable pub play_pending : BridgeTypes → RoomInner → Folded → Direction → Option Pending
unfolding captured
play_pending bt r f seat =
    if is_empty (legal_cards (remaining r.table seat f) (current_lead_suit f))
    then none
    else (elim f.outcome [ none ↦ none | some c ↦ some (pending_play (captured bt r f seat c)) ])

-- `match f.phase`
unfoldable pub pending_in : BridgeTypes → RoomInner → Folded → Direction → Option Pending
unfolding bid_pending play_pending
pending_in bt r f seat = elim f.phase [
  | Phase.bidding ↦ some (pending_bid (bid_pending r f seat))
  | Phase.play ↦ play_pending bt r f seat
  | Phase.complete ↦ none
]

-- Phase A: `none` where `act_once` returns `false` at once.
unfoldable pub decide : BridgeTypes → RoomInner → ℕ → ℕ → Option Pending
unfolding mode_allows_bot mode_forces_bot is_bot_seat pending_in
decide bt r now later =
    let f = fold bt r.table in
    elim f.next_to_act [
      | none ↦ none
      | some seat ↦
          if not (mode_allows_bot r f)
          then none
          else if not (mode_forces_bot r f) && not (is_bot_seat bt r f seat now later)
          then none
          else pending_in bt r f seat
    ]

-- What phase B hands on, with the cache afterwards.
pub record Suggestion : Type 0 where
  pub seq : ℕ
  pub action : Action
  pub via : String
  pub opening_lead : Bool
  pub cache : Option (List Call)

module _ (bt : BridgeTypes) (clients : Option Clients) (rb : Rulebot) where
  -- The arm for `Pending::Bid`; every mode bids by `choose_call`.
  unfoldable pub suggest_call : Option (List Call) → BidPending → Suggestion
  suggest_call cache p =
      if p.pass
      then record {
        seq = p.seq;
        action = Action.call p.seat pass;
        via = "passbot";
        opening_lead = false;
        cache = cache;
      }
      else (let c = choose_call clients cache p.board p.calls in
          record {
            seq = p.seq;
            action = Action.call p.seat c.chosen;
            via = c.via;
            opening_lead = false;
            cache = c.cache;
          })

  -- The match on the mode in the arm for `Pending::Play`; the time that `Slow` waits changes no state.
  unfoldable pub bot_card_off : BotMode → PlayPending → Option (Card × String)
  bot_card_off real p = choose_card bt clients rb p
  bot_card_off random p = Option.map (λ c. (c, "random")) (pick p.legal p.seq)
  bot_card_off rules p = Option.map (λ c. (c, "rules")) (rules_card rb p)
  bot_card_off slow p = Option.map (λ c. (c, "rules")) (rules_card rb p)

  -- The card of the arm for `Pending::Play`.
  unfoldable pub bot_card : BotMode → PlayPending → Option (Card × String)
  unfolding bot_card_off
  bot_card mode p = elim (line_card p) [
    | some card ↦ some (card, "line")
    | none ↦ bot_card_off mode p
  ]

  -- Phase B; `none` stands for the panic of `pick` on no options.
  unfoldable pub suggest : BotMode → Option (List Call) → Pending → Option Suggestion
  unfolding suggest_call bot_card
  suggest mode cache (pending_bid p) = some (suggest_call cache p)
  suggest mode cache (pending_play p) =
      Option.map
        (λ (card, via). record {
          seq = p.seq;
          action = Action.play p.seat card;
          via = via;
          opening_lead = p.opening_lead;
          cache = cache;
        })
        (bot_card mode p)

-- How a suggestion ends; `bot_claim` is the arm that only logs an error.
pub data Landing : Type 0 where
  stale bot_claim : Landing
  rejected : Refusal → Landing
  landed : ℕ → Landing

-- What `act_once` returns for it.
pub acted : Landing → Bool
acted stale = true
acted bot_claim = false
acted (rejected e) = false
acted (landed n) = true

-- The match on the action after `apply`.
pub landing_of : Action → ℕ → Landing
landing_of (Action.call seat c) n = landed n
landing_of (Action.play seat card) n = landed n
landing_of (Action.claim seat tricks ruling) n = bot_claim

-- Phase C, on the room as it is then.
unfoldable pub land : BridgeTypes → RoomInner → ℕ → Action → RoomInner × Landing
unfolding landing_of
land bt r at action =
    if not (seq r.table == at) then (r, stale) else (elim (apply bt r.table action) [
      | err e ↦ (r, rejected e)
      | ok (t, n) ↦ (record r { table = t }, landing_of action n)
    ])
