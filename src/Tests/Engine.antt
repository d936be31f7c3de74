-- ===== src/Tests/Engine.antt =====
-- Tests and witnesses for src/engine/.
use bridge_table_service.Auction.{
  bid_is_legal, call_is_legal, is_complete_rev, last_bid_rev, outbids, turns,
}
use bridge_table_service.Auction.Bounds.{length-IsLegalAuction}
use bridge_table_service.Auction.Legal.{IsLegalAuction}
use bridge_table_service.Bridge.{Card, Suit, east, north, suit_beq, west}
use bridge_table_service.Play.{
  FourCards, beats, card_at, challenge, is_legal_play, is_trump, trick_winner, winner_index,
}
use bridge_table_service.Play.Following.{Among, Follows, IsVoid, is_legal_play_iff}
use bridge_table_service.Play.Winner.{NotAbove, standing, trick_winner-best}
use bridge_table_service.Prelude.{
  List, [], length, refl, some, true, ℕ, ◌<◌, ◌↔◌, ◌∷◌, ◌≡◌, ◌≤◌, ◌⊎◌,
}
use bridge_table_service.Tests.{card, reference_types, sample_calls}

sample_calls-legal : IsLegalAuction north sample_calls
unfolding is_complete_rev call_is_legal bid_is_legal outbids last_bid_rev
sample_calls-legal = (refl, refl, (refl, refl, (refl, refl, (refl, refl, tt))))

length-IsLegalAuction_example : length sample_calls ≤ 319
length-IsLegalAuction_example = length-IsLegalAuction north sample_calls sample_calls-legal

-- West's ruff beats the king that East led.
ruffed : FourCards
ruffed = record {
  first = card Suit.hearts 11;
  second = card Suit.hearts 3;
  third = card Suit.spades 0;
  fourth = card Suit.hearts 12;
}

trick_winner-ruffed : trick_winner reference_types east ruffed (some Suit.spades) ≡ west
unfolding trick_winner turns ruffed beats suit_beq is_trump card_at challenge winner_index
trick_winner-ruffed = refl

trick_winner-best_example :
    (k : ℕ) × (k < 4)
    × (trick_winner reference_types east ruffed (some Suit.spades) ≡ turns reference_types k east)
    × (1 ≤ standing ruffed.first.suit (some Suit.spades) (card_at ruffed k))
    × ((i : ℕ)
        → NotAbove ruffed.first.suit (some Suit.spades) (card_at ruffed k) (card_at ruffed i))
trick_winner-best_example = trick_winner-best reference_types east ruffed (some Suit.spades)

two_suits : List Card
two_suits = card Suit.spades 12 ∷ card Suit.hearts 3 ∷ []

is_legal_play_iff_example :
    (is_legal_play (card Suit.hearts 3) two_suits (some Suit.spades) ≡ true) ↔ (
      Among (card Suit.hearts 3) two_suits
      × (Follows (some Suit.spades) (card Suit.hearts 3) ⊎ IsVoid (some Suit.spades) two_suits))
is_legal_play_iff_example = is_legal_play_iff (card Suit.hearts 3) two_suits (some Suit.spades)
