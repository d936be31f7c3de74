-- ===== src/Table/Line.antt =====
-- `PlayLine` (src/table.rs): a recorded line of play, followed while the play matches it.
use bridge_table_service.Bridge.{Card, Direction, all_directions, card_eq, direction_eq}
use bridge_table_service.Prelude.{
  Bool, List, Option, [], all, false, get_elem?, if◌then◌else◌, is_empty, none, some, suc, true, ℕ,
  ◌++◌, ◌==◌, ◌∷◌,
}
use bridge_table_service.Table.{PlayLine}

-- One trick of `bridge_types::PlaySequence`: its four cards and `player_at`.
pub record RecordedTrick : Type 0 where
  pub cards : ℕ → Option Card
  pub player_at : ℕ → Direction

-- `by_seat[player].push(card)`
pub push_card : (Direction → List Card) → Direction → Card → Direction → List Card
push_card q d c seat = if d == seat then q seat ++ c ∷ [] else q seat

-- One round of the inner loop of `from_sequence`.
pub queue_position : RecordedTrick → (Direction → List Card) → ℕ → Direction → List Card
unfolding push_card
queue_position t q pos = elim (t.cards pos) [
  | none ↦ q
  | some card ↦ push_card q (t.player_at pos) card
]

-- The inner loop, `for pos in 0..4`.
pub queue_trick : RecordedTrick → (Direction → List Card) → Direction → List Card
unfolding queue_position
queue_trick t q =
    queue_position t (queue_position t (queue_position t (queue_position t q 0) 1) 2) 3

-- The outer loop.
pub queue_tricks : (Direction → List Card) → List RecordedTrick → Direction → List Card
unfolding queue_trick
queue_tricks q [] = q
queue_tricks q (t ∷ tricks) = queue_tricks (queue_trick t q) tricks

-- `PlayLine::from_sequence`
pub from_sequence : Option (List RecordedTrick) → Option PlayLine
unfolding queue_tricks
from_sequence none = none
from_sequence (some tricks) =
    let q = queue_tricks (λ seat. []) tricks in
    if all (λ seat. is_empty (q seat)) all_directions then none else some (record { by_seat = q })

-- `PlayLine::card_for`
pub card_for : PlayLine → Direction → ℕ → Option Card
card_for line seat i = get_elem? (line.by_seat seat) i

-- The loop of `diverged`, with its counters by seat.
unfoldable pub diverged_from : PlayLine → (Direction → ℕ) → List (Direction × Card) → Bool
diverged_from line counts [] = false
diverged_from line counts ((seat, card) ∷ played) =
    let rest = diverged_from line (λ d. if d == seat then suc (counts d) else counts d) played in
    elim (get_elem? (line.by_seat seat) (counts seat)) [
      | none ↦ true
      | some expected ↦ if expected == card then rest else true
    ]

-- `PlayLine::diverged`
unfoldable pub diverged : PlayLine → List (Direction × Card) → Bool
unfolding diverged_from
diverged line played = diverged_from line (λ d. 0) played
