-- ===== src/Table/Book.antt =====
-- When a play is on a recorded line (src/table.rs, `PlayLine::diverged`).
use bridge_table_service.Bridge.{Card, Direction, card_beq_iff, direction_beq_iff, direction_eq}
use bridge_table_service.Prelude.{
  Bool-cases, List, Option-cases, [], ap, arith, false, first, get_elem?, if◌then◌else◌, inl, inr,
  refl, some, some-injective, subst, suc, sym, true, zero, ℕ, ◌++◌, ◌==◌, ◌↔◌, ◌∙◌, ◌∷◌, ◌≡◌, ◌⊎◌,
}
use bridge_table_service.Table.{PlayLine}
use bridge_table_service.Table.Cards.{hand_played}
use bridge_table_service.Table.Line.{diverged, diverged_from}

-- The list without its first so many elements.
drop : ℕ → List Card → List Card
drop zero cs = cs
drop (suc n) [] = []
drop (suc n) (c ∷ cs) = drop n cs

drop_next :
    (n : ℕ) (cs : List Card) (c : Card) → get_elem? cs n ≡ some c → drop n cs ≡ c ∷ drop (suc n) cs
unfolding drop
drop_next n [] c h = absurd (cc)
drop_next zero (x ∷ cs) c h = ap (λ y. y ∷ cs) (some-injective x c h)
drop_next (suc n) (x ∷ cs) c h = drop_next n cs c h

first-drop : (n : ℕ) (cs : List Card) → get_elem? cs n ≡ first (drop n cs)
unfolding drop
first-drop zero [] = refl
first-drop (suc n) [] = refl
first-drop zero (c ∷ cs) = refl
first-drop (suc n) (c ∷ cs) = first-drop n cs

direction_cases :
    (a b : Direction)
    → ((a ≡ b) × ((a == b) ≡ true) × ((b == a) ≡ true)) ⊎ (((a == b) ≡ false) × ((b == a) ≡ false))
direction_cases a b = elim (Bool-cases (a == b)) [
  | inl e ↦
      (let same = (direction_beq_iff a b).0 e in
        inl (same, e, (direction_beq_iff b a).1 (sym same)))
  | inr e ↦ inr (e, ground (arith, direction_beq_iff a b, direction_beq_iff b a))
]

-- What each seat has played is what its recorded cards start with, from its count on.
IsAhead : PlayLine → (Direction → ℕ) → List (Direction × Card) → Type 0
IsAhead line counts played =
    (seat : Direction)
    → (rest : List Card) × (drop (counts seat) (line.by_seat seat)
        ≡ hand_played seat played ++ rest)

-- The counts after `seat` has played.
abbrev bump : (Direction → ℕ) → Direction → Direction → ℕ
bump counts seat d = if d == seat then suc (counts d) else counts d

diverged_from-cons :
    (line : PlayLine) (counts : Direction → ℕ) (s : Direction) (c : Card)
    (played : List (Direction × Card))
    → (diverged_from line counts ((s, c) ∷ played) ≡ false) ↔ (
        (get_elem? (line.by_seat s) (counts s) ≡ some c)
        × (diverged_from line (bump counts s) played ≡ false))
unfolding diverged_from
diverged_from-cons line counts s c played =
    elim (Option-cases (get_elem? (line.by_seat s) (counts s))) [
      | inl e ↦ rw (diverged_from, e) ((λ h. absurd (cc)), (λ h. absurd (cc)))
      | inr (x, e) ↦
          ((λ h. ground (arith, card_beq_iff x c)), (λ h. ground (arith, card_beq_iff x c)))
    ]

IsAhead-to :
    (line : PlayLine) (counts : Direction → ℕ) (s : Direction) (c : Card)
    (played : List (Direction × Card))
    → get_elem? (line.by_seat s) (counts s) ≡ some c
    → IsAhead line (bump counts s) played
    → IsAhead line counts ((s, c) ∷ played)
unfolding IsAhead hand_played
IsAhead-to line counts s c played e ahead seat = elim (direction_cases seat s) [
  | inl (same, there, back) ↦
      (let (rest, ih) = ahead seat in
        let e' : get_elem? (line.by_seat seat) (counts seat) ≡ some c =
          subst (λ d. get_elem? (line.by_seat d) (counts d) ≡ some c) (sym same) e in
        (
          rest,
          rw back (drop_next (counts seat) (line.by_seat seat) c e' ∙ ap (◌∷◌ c) (rw there at ih)),
        ))
  | inr (there, back) ↦ (let (rest, ih) = ahead seat in (rest, rw back (rw there at ih)))
]

IsAhead-from :
    (line : PlayLine) (counts : Direction → ℕ) (s : Direction) (c : Card)
    (played : List (Direction × Card))
    → IsAhead line counts ((s, c) ∷ played)
    → (get_elem? (line.by_seat s) (counts s) ≡ some c) × IsAhead line (bump counts s) played
unfolding IsAhead hand_played
IsAhead-from line counts s c played ahead = (here, then_on)
  where
    here : get_elem? (line.by_seat s) (counts s) ≡ some c
    here =
        let (rest, e) = ahead s in
        first-drop (counts s) (line.by_seat s)
        ∙ ap first e
        ∙ (rw ((direction_beq_iff s s).1 refl) refl)

    then_on :
        (seat : Direction)
        → (rest : List Card) × (drop (bump counts s seat) (line.by_seat seat)
            ≡ hand_played seat played ++ rest)
    then_on seat = elim (direction_cases seat s) [
      | inl (same, there, back) ↦
          (let (rest, e) = ahead seat in
            let e' : get_elem? (line.by_seat seat) (counts seat) ≡ some c =
              subst (λ d. get_elem? (line.by_seat d) (counts d) ≡ some c) (sym same) here in
            let whole : c ∷ drop (suc (counts seat)) (line.by_seat seat)
                ≡ c ∷ (hand_played seat played ++ rest) =
              sym (drop_next (counts seat) (line.by_seat seat) c e') ∙ (rw back at e) in
            (rest, rw there (ground arith)))
      | inr (there, back) ↦ (let (rest, e) = ahead seat in (rest, rw there (rw back at e)))
    ]

diverged_from_iff :
    (line : PlayLine) (counts : Direction → ℕ) (played : List (Direction × Card))
    → (diverged_from line counts played ≡ false) ↔ IsAhead line counts played
unfolding diverged_from IsAhead hand_played
diverged_from_iff line counts [] =
    ((λ h seat. (drop (counts seat) (line.by_seat seat), refl)), (λ h. refl))
diverged_from_iff line counts ((s, c) ∷ played) =
    let ih = diverged_from_iff line (bump counts s) played in
    let head = diverged_from-cons line counts s c played in
    (
      (λ h. let (e, rest) = head.0 h in IsAhead-to line counts s c played e (ih.0 rest)),
      (λ h. let (e, rest) = IsAhead-from line counts s c played h in head.1 (e, ih.1 rest)),
    )

-- A play has not diverged from a recorded line exactly when every seat has played, in order, the cards
-- that its recorded ones start with.
pub diverged_iff :
    (line : PlayLine) (played : List (Direction × Card))
    → (diverged line played ≡ false) ↔ (
        (seat : Direction)
        → (rest : List Card) × (line.by_seat seat ≡ hand_played seat played ++ rest))
unfolding diverged IsAhead drop
diverged_iff line played = diverged_from_iff line (λ d. 0) played
