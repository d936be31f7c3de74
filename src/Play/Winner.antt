-- ===== src/Play/Winner.antt =====
-- Who wins a trick, said without the code (src/engine/play.rs, `trick_winner`).
use bridge_table_service.Auction.{turns}
use bridge_table_service.Bridge.{BridgeTypes, Card, Direction, Suit, suit_beq_iff, suit_eq}
use bridge_table_service.Play.{
  FourCards, beats, card_at, challenge, is_trump, trick_winner, winner_index,
}
use bridge_table_service.Prelude.{
  Bool-cases, List, Option, [], arith, eqb, false, if◌then◌else◌, inl, inr, leb, ltb, refl, subst,
  suc, sym, true, zero, ℕ, ◌&&◌, ◌<◌, ◌==◌, ◌||◌, ◌∷◌, ◌≡◌, ◌≤◌, ◌⊎◌,
}

module _ (lead : Suit) (trump : Option Suit) where
  -- 2 for a trump, 1 for a card of the suit led, 0 for a discard.
  pub standing : Card → ℕ
  standing c = if is_trump trump c then 2 else if c.suit == lead then 1 else 0

  -- `c` does not rank above `w`: its standing is lower, or equal with no higher rank.
  abbrev pub NotAbove : Card → Card → Type 0
  NotAbove w c = (standing c < standing w) ⊎ ((standing c ≡ standing w) × (c.rank ≤ w.rank))

  abbrev pub AllBelow : Card → List Card → Type 0
  AllBelow w [] = Unit {0}
  AllBelow w (c ∷ cs) = NotAbove w c × AllBelow w cs

  beats_lem :
      (a b : Card)
      → beats a b lead trump ≡ (
          ltb (standing b) (standing a)
          || eqb (standing a) (standing b) && leb 1 (standing a) && ltb b.rank a.rank)
  unfolding beats standing
  beats_lem a b = ground arith

  NotAbove-trans : (a w c : Card) → beats a w lead trump ≡ true → NotAbove w c → NotAbove a c
  NotAbove-trans a w c h (inl low) = ground (arith, beats_lem a w)
  NotAbove-trans a w c h (inr same) = ground (arith, beats_lem a w)

  AllBelow-trans :
      (a w : Card) (cs : List Card) → beats a w lead trump ≡ true → AllBelow w cs → AllBelow a cs
  AllBelow-trans a w [] h b = tt
  AllBelow-trans a w (c ∷ cs) h b = (NotAbove-trans a w c h b.0, AllBelow-trans a w cs h b.1)

  -- `w` is of the suit led or a trump, and nothing among `cs` ranks above it.
  abbrev pub IsBest : Card → List Card → Type 0
  IsBest w cs = (1 ≤ standing w) × AllBelow w cs

  beaten-IsBest :
      (a w : Card) (cs : List Card) → beats a w lead trump ≡ true → IsBest w cs → IsBest a (a ∷ cs)
  beaten-IsBest a w cs up (pos, below) =
      (ground (arith, beats_lem a w), (inr (refl, omega arith), AllBelow-trans a w cs up below))

  unbeaten-IsBest :
      (a w : Card) (cs : List Card) → beats a w lead trump ≡ false → IsBest w cs → IsBest w (a ∷ cs)
  unbeaten-IsBest a w cs stays (pos, below) = (pos, (ground (arith, beats_lem a w), below))

module _ (plays : FourCards) (trump : Option Suit) where
  -- The card at index `w` is the best of `cs`.
  abbrev BestAt : ℕ → List Card → Type 0
  BestAt w cs = IsBest plays.first.suit trump (card_at plays w) cs

  challenge_cases :
      (i w : ℕ)
      → ((beats (card_at plays i) (card_at plays w) plays.first.suit trump ≡ true)
          × (challenge plays trump i w ≡ i))
        ⊎ ((beats (card_at plays i) (card_at plays w) plays.first.suit trump ≡ false)
            × (challenge plays trump i w ≡ w))
  unfolding challenge
  challenge_cases i w =
      elim (Bool-cases (beats (card_at plays i) (card_at plays w) plays.first.suit trump)) [
        | inl up ↦ inl (up, rw up)
        | inr stays ↦ inr (stays, rw stays)
      ]

  challenge-BestAt :
      (i w : ℕ) (cs : List Card)
      → BestAt w cs
      → BestAt (challenge plays trump i w) (card_at plays i ∷ cs)
  challenge-BestAt i w cs best = elim (challenge_cases i w) [
    | inl (up, e) ↦
        subst (λ k. BestAt k (card_at plays i ∷ cs)) (sym e) (beaten-IsBest _ _ _ _ cs up best)
    | inr (stays, e) ↦
        subst (λ k. BestAt k (card_at plays i ∷ cs)) (sym e) (unbeaten-IsBest _ _ _ _ cs stays best)
  ]

  challenge-lt : (i w : ℕ) → i < 4 → w < 4 → challenge plays trump i w < 4
  challenge-lt i w hi hw = ground (arith, challenge_cases i w)

  lead-BestAt : BestAt 0 (card_at plays 0 ∷ [])
  unfolding card_at standing
  lead-BestAt = ground (arith, suit_beq_iff plays.first.suit plays.first.suit)

  winner_index-BestAt :
      BestAt
        (winner_index plays trump)
        (card_at plays 3 ∷ card_at plays 2 ∷ card_at plays 1 ∷ card_at plays 0 ∷ [])
  unfolding winner_index
  winner_index-BestAt =
      let c0 = card_at plays 0 in
      let c1 = card_at plays 1 in
      let w1 = challenge plays trump 1 0 in
      challenge-BestAt 3 (challenge plays trump 2 w1) (card_at plays 2 ∷ c1 ∷ c0 ∷ [])
        (challenge-BestAt 2 w1 (c1 ∷ c0 ∷ []) (challenge-BestAt 1 0 (c0 ∷ []) lead-BestAt))

  winner_index-lt : winner_index plays trump < 4
  unfolding winner_index
  winner_index-lt =
      challenge-lt 3 _ (omega arith)
        (challenge-lt 2 _ (omega arith) (challenge-lt 1 0 (omega arith) (omega arith)))

  below-card_at :
      (w : Card)
      → AllBelow plays.first.suit trump w
          (card_at plays 3 ∷ card_at plays 2 ∷ card_at plays 1 ∷ card_at plays 0 ∷ [])
      → (i : ℕ) → NotAbove plays.first.suit trump w (card_at plays i)
  unfolding card_at
  below-card_at w (h3, (h2, (h1, (h0, _)))) zero = h0
  below-card_at w (h3, (h2, (h1, (h0, _)))) (suc zero) = h1
  below-card_at w (h3, (h2, (h1, (h0, _)))) (suc (suc zero)) = h2
  below-card_at w (h3, (h2, (h1, (h0, _)))) (suc (suc (suc i))) = h3

-- The trick goes to a seat at most three places after the leader, whose card is a trump or of the
-- suit led, and no card of the trick ranks above that card: none has a higher standing (trump, suit
-- led, discard), and none of the same standing has a higher rank.
pub trick_winner-best :
    (bt : BridgeTypes) (leader : Direction) (plays : FourCards) (trump : Option Suit)
    → (k : ℕ) × (k < 4)
      × (trick_winner bt leader plays trump ≡ turns bt k leader)
      × (1 ≤ standing plays.first.suit trump (card_at plays k))
      × ((i : ℕ) → NotAbove plays.first.suit trump (card_at plays k) (card_at plays i))
unfolding trick_winner
trick_winner-best bt leader plays trump = (
  winner_index plays trump,
  winner_index-lt plays trump,
  refl,
  (winner_index-BestAt plays trump).0,
  below-card_at plays trump _ (winner_index-BestAt plays trump).1,
)
