-- ===== src/Table/Tricks.antt =====
-- How the loop of `fold` over the plays groups them into tricks, and how it counts the tricks.
use bridge_table_service.Auction.{ContractOutcome}
use bridge_table_service.Bridge.{BridgeTypes, Card, Direction, Suit}
use bridge_table_service.Play.{FourCards, trick_winner, trump_of}
use bridge_table_service.Prelude.{
  List, Option, Option-cases, [], add_u8, arith, inl, inr, is_some, length, length-append, none,
  refl, subst, suc, true, ℕ, ◌*◌, ◌+◌, ◌∷◌, ◌≡◌, ◌≢◌, ◌≤◌, ◌⊎◌,
}
use bridge_table_service.Table.{CompletedTrick}
use bridge_table_service.Table.Fold.{
  Tally, close_trick, four_cards, tally, tally_from, tally_one, tally_pushed,
}

four_cards_cases :
    (l : List (Direction × Card))
    → ((length l ≡ 4) × (is_some (four_cards l) ≡ true)) ⊎ ((length l ≢ 4) × (four_cards l ≡ none))
unfolding four_cards
four_cards_cases [] = inr ((λ e. omega arith), refl)
four_cards_cases (a ∷ []) = inr ((λ e. omega arith), refl)
four_cards_cases (a ∷ b ∷ []) = inr ((λ e. omega arith), refl)
four_cards_cases (a ∷ b ∷ c ∷ []) = inr ((λ e. omega arith), refl)
four_cards_cases (a ∷ b ∷ c ∷ d ∷ []) = inl (refl, refl)
four_cards_cases (a ∷ b ∷ c ∷ d ∷ e ∷ l) = inr ((λ h. omega arith), refl)

-- The tally of `n` cards.
pub record Counts (n : ℕ) (y : Tally) : Type 0 where
  pub grouped : 4 * length y.completed + length y.trick ≡ n
  pub partial_trick : length y.trick ≤ 3
  pub shared : n ≤ 52 → y.ns + y.ew ≡ length y.completed

module _ (bt : BridgeTypes) (trump : Option Suit) where
  close_trick-Counts :
      (n : ℕ) (y : Tally) (cards : FourCards)
      → 4 * length y.completed + 4 ≡ n
      → (n ≤ 52 → y.ns + y.ew ≡ length y.completed)
      → Counts n (close_trick bt trump y cards)
  unfolding close_trick add_u8
  close_trick-Counts n y cards grouped shared =
      let winner = trick_winner bt y.leader cards trump in
      let entry : CompletedTrick = record { leader = y.leader; cards = cards; winner = winner } in
      let grown = length-append y.completed (entry ∷ []) in
      record {
        grouped = omega (arith, grown);
        partial_trick = omega arith;
        shared = λ h. ground (arith, grown, shared h);
      }

  tally_pushed-Counts :
      (n : ℕ) (y : Tally)
      → 4 * length y.completed + length y.trick ≡ n
      → length y.trick ≤ 4
      → (n ≤ 52 → y.ns + y.ew ≡ length y.completed)
      → Counts n (tally_pushed bt trump y)
  unfolding tally_pushed
  tally_pushed-Counts n y grouped le shared = elim (four_cards_cases y.trick) [
    | inr (ne, e) ↦
        rw (e, tally_pushed)
          (record { grouped = grouped; partial_trick = omega arith; shared = shared })
    | inl (four, found) ↦ elim (Option-cases (four_cards y.trick)) [
      | inl e ↦ absurd (ground arith)
      | inr (cards, e) ↦ rw (e, tally_pushed) (close_trick-Counts n y cards (omega arith) shared)
    ]
  ]

  tally_one-Counts :
      (n : ℕ) (y : Tally) (p : Direction × Card)
      → Counts n y
      → Counts (suc n) (tally_one bt trump y p)
  unfolding tally_one
  tally_one-Counts n y p k =
      tally_pushed-Counts (suc n) _ (omega (arith, length-append y.trick (p ∷ []), k.grouped))
        (omega (arith, length-append y.trick (p ∷ []), k.partial_trick))
        (λ h. k.shared (omega arith))

  tally_from-Counts :
      (n : ℕ) (y : Tally) (played : List (Direction × Card))
      → Counts n y
      → Counts (n + length played) (tally_from bt trump y played)
  unfolding tally_from
  tally_from-Counts n y [] k = subst (λ m. Counts m y) (omega arith) k
  tally_from-Counts n y (p ∷ played) k =
      subst (λ m. Counts m (tally_from bt trump (tally_one bt trump y p) played)) (omega arith)
        (tally_from-Counts (suc n) (tally_one bt trump y p) played (tally_one-Counts n y p k))

pub tally-Counts :
    (bt : BridgeTypes) (c : ContractOutcome) (played : List (Direction × Card))
    → Counts (length played) (tally bt c played)
unfolding tally
tally-Counts bt c played =
    subst (λ m. Counts m (tally bt c played)) (omega arith)
      (tally_from-Counts bt (trump_of c.strain) 0 _ played
        (record { grouped = omega arith; partial_trick = omega arith; shared = λ h. omega arith }))
