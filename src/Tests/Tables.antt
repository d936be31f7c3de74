-- ===== src/Tests/Tables.antt =====
-- Tests and witnesses for src/table.rs.
use bridge_table_service.Auction.{
  bid_is_legal, call_is_legal, caller_at, contract, is_complete, is_legal, last_bid, last_bid_rev,
  next_caller, opening_leader, outbids, outcome_of, strain_rank, turns,
}
use bridge_table_service.Auction.Bids.{EachCall, IsUnder}
use bridge_table_service.Bridge.{
  Suit, bid, card_beq, direction_beq, east, no_trump, north, pass, south, suit_beq, west,
}
use bridge_table_service.Play.{is_legal_play, legal_cards, or_any, trump_of}
use bridge_table_service.Play.Following.{Among, Follows, IsVoid}
use bridge_table_service.Prelude.{
  [], add_u8, as_u8, false, is_ok, ok, refl, some, sub_u8, take, true, ℕ, ◌++◌, ◌↔◌, ◌∷◌, ◌≡◌, ◌≤◌,
  ◌⊎◌,
}
use bridge_table_service.Table.{Action, Phase, TableState, new_table, phase_beq, seq, tricks_left}
use bridge_table_service.Table.Apply.{
  apply, check, current_lead_suit, is_turn, push, remaining, undo_to, without_played,
}
use bridge_table_service.Table.Bidding.{bid-accepted_iff}
use bridge_table_service.Table.Bounds.{seq-Reach}
use bridge_table_service.Table.Cards.{IsHonest, Reach-IsHonest}
use bridge_table_service.Table.Claims.{Ended, apply-claim}
use bridge_table_service.Table.Fold.{
  close_trick, fold, fold_play, fold_without_play, four_cards, gather, gather_from, gather_one,
  is_ns, play_done, settled, tally, tally_from, tally_one, tally_pushed, turn_of,
}
use bridge_table_service.Table.Log.{Log, Reach, Reach-Log, applied, start}
use bridge_table_service.Table.Rules.{play-accepted_iff, undo_to-apply}
use bridge_table_service.Table.Shares.{IsShared, Reach-IsShared}
use bridge_table_service.Tests.{card, in_play, reference_types, sample_board}

-- What the tests of this file compute with.
unfoldable pub computing : Unit {0}
unfolding fold gather gather_from gather_one is_complete contract outcome_of last_bid last_bid_rev
    strain_rank fold_play fold_without_play tally tally_from tally_one tally_pushed four_cards
    close_trick play_done turn_of settled opening_leader next_caller caller_at turns check apply
    push seq undo_to new_table is_legal call_is_legal bid_is_legal outbids phase_beq direction_beq
    card_beq suit_beq is_legal_play legal_cards or_any remaining without_played current_lead_suit
    is_turn tricks_left trump_of sub_u8 as_u8 add_u8 is_ns
computing = tt

abbrev after : ℕ → TableState
after n = record in_play { actions = take n in_play.actions }

in_play-phase : (fold reference_types in_play).phase ≡ Phase.play
unfolding computing
in_play-phase = refl

pub in_play-Reach : Reach reference_types sample_board in_play
unfolding computing
in_play-Reach =
    applied {t = after 4} {n = 5} (Action.play east (card Suit.hearts 12))
      (applied {t = after 3} {n = 4} (Action.call west pass)
        (applied {t = after 2} {n = 3} (Action.call south pass)
          (applied {t = after 1} {n = 2} (Action.call east pass)
            (applied {n = 1} (Action.call north (bid 1 no_trump)) start refl) refl)
          refl)
        refl)
      refl

seq-Reach_example : seq in_play ≤ 371
seq-Reach_example = seq-Reach reference_types in_play-Reach

Reach-IsHonest_example : IsHonest sample_board (fold reference_types in_play).played
Reach-IsHonest_example = Reach-IsHonest reference_types in_play-Reach

Reach-IsShared_example : IsShared (fold reference_types in_play)
Reach-IsShared_example = Reach-IsShared reference_types in_play-Reach

Reach-Log_example :
    (in_play.board ≡ sample_board) × Log reference_types sample_board in_play.actions
Reach-Log_example = Reach-Log reference_types in_play-Reach

-- North claims nine of the thirteen tricks.
abbrev pub claimed_nine : TableState
claimed_nine = record in_play { actions = in_play.actions ++ Action.claim north 9 false ∷ [] }

apply-claim_example :
    Ended north 9 false (fold reference_types in_play) (fold reference_types claimed_nine)
unfolding computing
apply-claim_example =
    apply-claim reference_types north 9 false {t' = claimed_nine} {n = 6} in_play-Reach refl

play-accepted_iff_example :
    (is_ok (apply reference_types in_play (Action.play south (card Suit.diamonds 3))) ≡ true) ↔ (
      ((fold reference_types in_play).phase ≡ Phase.play)
      × ((fold reference_types in_play).next_to_act ≡ some south)
      × Among (card Suit.diamonds 3) (remaining in_play south (fold reference_types in_play))
      × (Follows (current_lead_suit (fold reference_types in_play)) (card Suit.diamonds 3)
          ⊎ IsVoid
              (current_lead_suit (fold reference_types in_play))
              (remaining in_play south (fold reference_types in_play))))
play-accepted_iff_example = play-accepted_iff reference_types in_play south (card Suit.diamonds 3)

undo_to-apply_example : undo_to claimed_nine (seq in_play) ≡ ok (in_play, seq in_play)
unfolding computing
undo_to-apply_example =
    undo_to-apply reference_types in_play (Action.claim north 9 false) {t' = claimed_nine} {n = 6}
      refl

after_one-Reach : Reach reference_types sample_board (after 1)
unfolding computing
after_one-Reach = applied {n = 1} (Action.call north (bid 1 no_trump)) start refl

bid-accepted_iff_example :
    (is_ok (apply reference_types (after 1) (Action.call east (bid 2 no_trump))) ≡ true) ↔ (
      ((fold reference_types (after 1)).phase ≡ Phase.bidding)
      × ((fold reference_types (after 1)).next_to_act ≡ some east)
      × (1 ≤ 2)
      × (2 ≤ 7)
      × EachCall (IsUnder 2 no_trump) (fold reference_types (after 1)).calls)
bid-accepted_iff_example =
    bid-accepted_iff reference_types {board = sample_board} {t = after 1} east 2 no_trump
      after_one-Reach
