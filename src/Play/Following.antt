-- ===== src/Play/Following.antt =====
-- Which cards are legal, said without the code (src/engine/play.rs, `legal_cards`).
use bridge_table_service.Bridge.{Card, Suit, card_eq, suit_beq_iff, suit_eq}
use bridge_table_service.Play.{is_legal_play, legal_cards, or_any}
use bridge_table_service.Prelude.{
  List, Option, [], all, ap, arith, contains, contains-filter, filter, inl, inr, none,
  not-contains-nil, refl, some, true, ◌==◌, ◌↔◌, ◌∷◌, ◌≡◌, ◌≢◌, ◌⊎◌,
}

-- `c` is among the cards.
abbrev pub Among : Card → List Card → Type 0
Among c cards = contains cards c ≡ true

-- `c` follows the suit led.
abbrev pub Follows : Option Suit → Card → Type 0
Follows none c = Unit {0}
Follows (some lead) c = c.suit ≡ lead

-- The suit led cannot be followed from these cards.
abbrev pub IsVoid : Option Suit → List Card → Type 0
IsVoid none cards = Unit {0}
IsVoid (some lead) cards = (c : Card) → Among c cards → c.suit ≢ lead

filter-nil :
    (lead : Suit) (cards : List Card)
    → filter (λ x. x.suit == lead) cards ≡ []
    → IsVoid (some lead) cards
filter-nil lead cards e c held same = ground (
  arith,
  contains-filter (λ (x : Card). x.suit == lead) cards c,
  ap (λ xs. contains xs c) e,
  suit_beq_iff c.suit lead,
)

or_any-cases :
    (of_suit remaining : List Card)
    → ((of_suit ≡ []) × (or_any of_suit remaining ≡ remaining))
      ⊎ ((of_suit ≢ []) × (or_any of_suit remaining ≡ of_suit))
unfolding or_any
or_any-cases [] remaining = inl (refl, refl)
or_any-cases (c ∷ of_suit) remaining = inr ((λ e. cc), refl)

void-filter :
    (lead : Suit) (cards : List Card)
    → IsVoid (some lead) cards
    → filter (λ x. x.suit == lead) cards ≡ []
void-filter lead cards v = not-contains-nil _ λ c.
    ground
      (arith, contains-filter (λ (x : Card). x.suit == lead) cards c, v c, suit_beq_iff c.suit lead)

-- The legal cards are exactly the held cards that follow suit, or any held card if none can.
pub is_legal_play_iff :
    (card : Card) (remaining : List Card) (lead : Option Suit)
    → (is_legal_play card remaining lead ≡ true)
      ↔ (Among card remaining × (Follows lead card ⊎ IsVoid lead remaining))
unfolding is_legal_play legal_cards
is_legal_play_iff card remaining none = ((λ h. (h, inl tt)), (λ h. h.0))
is_legal_play_iff card remaining (some lead) =
    let of_suit : List Card = filter (λ x. x.suit == lead) remaining in
    let held = contains-filter (λ (x : Card). x.suit == lead) remaining card in
    elim (or_any-cases of_suit remaining) [
      | inl (e, all) ↦ ((λ h. (rw all at h, inr (filter-nil lead remaining e))), (λ h. rw all h.0))
      | inr (ne, own) ↦ rw own (
        (λ h. ground (arith, held, suit_beq_iff card.suit lead)),
        (λ h. elim h.1 [
          | inl same ↦ ground (arith, held, h.0, suit_beq_iff card.suit lead)
          | inr v ↦ absurd (ne (void-filter lead remaining v))
        ]),
      )
    ]

-- A player who holds a card always has a legal one.
pub legal_cards-ne-nil :
    (remaining : List Card) (lead : Option Suit) → remaining ≢ [] → legal_cards remaining lead ≢ []
unfolding legal_cards
legal_cards-ne-nil remaining none h = h
legal_cards-ne-nil remaining (some lead) h =
    elim (or_any-cases (filter (λ x. x.suit == lead) remaining) remaining) [
      | inl (e, all) ↦ rw all h
      | inr (ne, own) ↦ rw own ne
    ]
