-- ===== src/Play.antt =====
-- src/engine/play.rs: which cards may be played to a trick, and who wins it.
pub mod Following
pub mod Winner
use bridge_table_service.Auction.{turns}
use bridge_table_service.Bridge.{
  BridgeTypes, Card, Direction, Strain, Suit, card_eq, no_trump, suit_eq,
}
use bridge_table_service.Prelude.{
  Bool, List, Option, [], contains, false, filter, first, if◌then◌else◌, ltb, none, not, some, suc,
  true, zero, ℕ, ◌&&◌, ◌==◌, ◌∷◌,
}

-- `trump_of`
unfoldable pub trump_of : Strain → Option Suit
trump_of Strain.clubs = some Suit.clubs
trump_of Strain.diamonds = some Suit.diamonds
trump_of Strain.hearts = some Suit.hearts
trump_of Strain.spades = some Suit.spades
trump_of no_trump = none

-- `if of_suit.is_empty() { remaining.to_vec() } else { of_suit }`
unfoldable pub or_any : List Card → List Card → List Card
or_any [] remaining = remaining
or_any (c ∷ of_suit) remaining = c ∷ of_suit

-- `legal_cards`
unfoldable pub legal_cards : List Card → Option Suit → List Card
unfolding or_any
legal_cards remaining none = remaining
legal_cards remaining (some lead) = or_any (filter (λ c. c.suit == lead) remaining) remaining

-- `is_legal_play`
unfoldable pub is_legal_play : Card → List Card → Option Suit → Bool
is_legal_play card remaining lead_suit = contains (legal_cards remaining lead_suit) card

-- `trump == Some(card.suit)`
unfoldable pub is_trump : Option Suit → Card → Bool
is_trump none c = false
is_trump (some t) c = t == c.suit

-- `beats`
unfoldable pub beats : Card → Card → Suit → Option Suit → Bool
unfolding is_trump
beats a b lead_suit trump =
    let a_trump = is_trump trump a in
    let b_trump = is_trump trump b in
    if a_trump && not b_trump
    then true
    else if not a_trump && b_trump
    then false
    else if a_trump && b_trump
    then ltb b.rank a.rank
    else if a.suit == lead_suit && not (b.suit == lead_suit)
    then true
    else if not (a.suit == lead_suit) && b.suit == lead_suit
    then false
    else if a.suit == lead_suit && b.suit == lead_suit
    then ltb b.rank a.rank
    else false

-- `[Card; 4]`
pub record FourCards : Type 0 where
  pub first : Card
  pub second : Card
  pub third : Card
  pub fourth : Card

-- `plays[i]`; the indices that the loop uses are below 4.
unfoldable pub card_at : FourCards → ℕ → Card
card_at p zero = p.first
card_at p (suc zero) = p.second
card_at p (suc (suc zero)) = p.third
card_at p (suc (suc (suc i))) = p.fourth

-- One round of the loop of `trick_winner`.
unfoldable pub challenge : FourCards → Option Suit → ℕ → ℕ → ℕ
unfolding card_at
challenge plays trump i winner =
    if beats (card_at plays i) (card_at plays winner) plays.first.suit trump then i else winner

-- The loop over `plays.iter().enumerate().skip(1)`.
unfoldable pub winner_index : FourCards → Option Suit → ℕ
unfolding challenge
winner_index plays trump =
    challenge plays trump 3 (challenge plays trump 2 (challenge plays trump 1 0))

-- `trick_winner`; its last loop calls `next` as often as the index says.
unfoldable pub trick_winner : BridgeTypes → Direction → FourCards → Option Suit → Direction
unfolding winner_index
trick_winner bt leader plays trump = turns bt (winner_index plays trump) leader
