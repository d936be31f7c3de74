-- ===== src/Bot/Safety.antt =====
-- When the driver acts (src/bots.rs, `act_once`, the decision under the lock).
use bridge_table_service.Auction.{ContractOutcome}
use bridge_table_service.Bot.{Pending, pending_bid, pending_play}
use bridge_table_service.Bot.Driver.{
  bid_pending, captured, controller_of, decide, is_bot_seat, mode_allows_bot, mode_forces_bot,
  pending_in, play_pending,
}
use bridge_table_service.Bridge.{BridgeTypes, Direction}
use bridge_table_service.Play.{legal_cards}
use bridge_table_service.Prelude.{
  Bool-cases, Option-cases, ap, arith, false, inl, inr, is_empty, nat_eq, none, refl, some,
  some-injective, subst, sym, true, ℕ, ◌∙◌, ◌≡◌, ◌⊎◌,
}
use bridge_table_service.Room.{RoomInner, is_bid_only, is_play_only}
use bridge_table_service.Room.Takeover.{BotMayAct, seat_bot_controlled_iff}
use bridge_table_service.Table.{Folded, Phase, phase_beq_iff, seq}
use bridge_table_service.Table.Apply.{current_lead_suit, remaining}
use bridge_table_service.Table.Fold.{fold}

-- The seat that a decision is about, and the length of the log that it was made on.
abbrev pub seat_of : Pending → Direction
seat_of (pending_bid p) = p.seat
seat_of (pending_play p) = p.seat

abbrev pub seq_of : Pending → ℕ
seq_of (pending_bid p) = p.seq
seq_of (pending_play p) = p.seq

-- What a decision to act rests on.
pub record MayAct (bt : BridgeTypes) (r : RoomInner) (now later : ℕ) (p : Pending) : Type 0 where
  pub is_on_turn : (fold bt r.table).next_to_act ≡ some (seat_of p)
  pub is_current : seq_of p ≡ seq r.table
  pub cardplay_allowed : is_bid_only r.board_mode ≡ true → (fold bt r.table).phase ≡ Phase.bidding
  pub by_right :
      ((is_play_only r.board_mode ≡ true) × ((fold bt r.table).phase ≡ Phase.bidding))
      ⊎ BotMayAct r (controller_of bt r (fold bt r.table) (seat_of p) now) true later

-- What is captured for a card: there is a contract, and the seat has a legal card.
pub play_pending-ok :
    (bt : BridgeTypes) (r : RoomInner) (f : Folded) (seat : Direction) (p : Pending)
    → play_pending bt r f seat ≡ some p
    → (c : ContractOutcome) × (p ≡ pending_play (captured bt r f seat c))
      × (is_empty (legal_cards (remaining r.table seat f) (current_lead_suit f)) ≡ false)
unfolding play_pending
play_pending-ok bt r f seat p h =
    elim (Bool-cases (is_empty (legal_cards (remaining r.table seat f) (current_lead_suit f)))) [
      | inl bare ↦ absurd (ground arith)
      | inr some_left ↦ elim (Option-cases f.outcome) [
        | inl e ↦ absurd (ground arith)
        | inr (c, e) ↦
            (let h' : some (pending_play (captured bt r f seat c)) ≡ some p =
                rw (play_pending, some_left, e) at h in
              (c, sym (some-injective _ p h'), some_left))
      ]
    ]

pub phase_cases : (p : Phase) → (p ≡ Phase.bidding) ⊎ (p ≡ Phase.play) ⊎ (p ≡ Phase.complete)
phase_cases Phase.bidding = inl refl
phase_cases Phase.play = inr (inl refl)
phase_cases Phase.complete = inr (inr refl)

pending_in-seat :
    (bt : BridgeTypes) (r : RoomInner) (seat : Direction) (p : Pending)
    → pending_in bt r (fold bt r.table) seat ≡ some p
    → (seat_of p ≡ seat)
      × (seq_of p ≡ seq r.table)
      × (((fold bt r.table).phase ≡ Phase.bidding) ⊎ ((fold bt r.table).phase ≡ Phase.play))
unfolding pending_in bid_pending captured
pending_in-seat bt r seat p h =
    let f = fold bt r.table in
    elim (phase_cases f.phase) [
      | inl e ↦
          (let h' : some (pending_bid (bid_pending r f seat)) ≡ some p = rw (pending_in, e) at h in
            let same = some-injective (pending_bid (bid_pending r f seat)) p h' in
            (
              subst (λ x. seat_of x ≡ seat) same refl,
              subst (λ x. seq_of x ≡ seq r.table) same refl,
              inl e,
            ))
      | inr (inl e) ↦
          (let (c, same, _) = play_pending-ok bt r f seat p (rw (pending_in, e) at h) in
            (ap seat_of same, ap seq_of same, inr e))
      | inr (inr e) ↦ absurd (let h' : none ≡ some p = rw (pending_in, e) at h in cc)
    ]

pub decide_lem :
    (bt : BridgeTypes) (r : RoomInner) (now later : ℕ) (p : Pending)
    → decide bt r now later ≡ some p
    → (seat : Direction) × ((fold bt r.table).next_to_act ≡ some seat)
      × (mode_allows_bot r (fold bt r.table) ≡ true)
      × ((mode_forces_bot r (fold bt r.table) ≡ true)
          ⊎ (is_bot_seat bt r (fold bt r.table) seat now later ≡ true))
      × (pending_in bt r (fold bt r.table) seat ≡ some p)
unfolding decide
decide_lem bt r now later p h = elim (Option-cases (fold bt r.table).next_to_act) [
  | inl e ↦ absurd (ground arith)
  | inr (seat, e) ↦ elim (Bool-cases (mode_forces_bot r (fold bt r.table))) [
    | inl forced ↦ (seat, e, ground arith, inl forced, ground arith)
    | inr unforced ↦ (seat, e, ground arith, inr (ground arith), ground arith)
  ]
]

-- A decision to act is for the seat on turn, on the log as it is; there is no cardplay on a bid-only board;
-- and it is the auction of a play-only board, or the one who controls the seat is a seat that is vacant and
-- not kept empty, or whose occupant has been away for the on-turn grace period.
pub decide-MayAct :
    (bt : BridgeTypes) (r : RoomInner) (now later : ℕ) (p : Pending)
    → decide bt r now later ≡ some p
    → MayAct bt r now later p
unfolding is_bot_seat mode_allows_bot mode_forces_bot
decide-MayAct bt r now later p h =
    let f = fold bt r.table in
    let (seat, e, allowed, right, pending) = decide_lem bt r now later p h in
    let (same, current, phase) = pending_in-seat bt r seat p pending in
    record {
      is_on_turn = e ∙ ap some (sym same);
      is_current = current;
      cardplay_allowed = λ bid_only. elim phase [
        | inl bids ↦ bids
        | inr plays ↦ absurd (ground (arith, phase_beq_iff f.phase Phase.play))
      ];
      by_right = elim right [
        | inl forced ↦ inl (ground arith, ground (arith, phase_beq_iff f.phase Phase.bidding))
        | inr own ↦ inr (
            subst (λ d. BotMayAct r (controller_of bt r f d now) true later) (sym same)
              ((seat_bot_controlled_iff r (controller_of bt r f seat now) true later).0 own))
      ];
    }
