-- ===== src/Bot/Cards.antt =====
-- The cards that a bot chooses (src/bots.rs).
use mathlib.Core.Option
use bridge_table_service.Bot.{Clients, OnlyLegal, PlayPending, Rulebot}
use bridge_table_service.Bot.Choose.{
  ask_ben, choose_card, is_mismatched, line_card, pick, rules_card, rules_instead,
}
use bridge_table_service.Bot.Driver.{bot_card, bot_card_off}
use bridge_table_service.Bridge.{BridgeTypes, Card, card_beq, card_beq_iff, card_eq, suit_beq}
use bridge_table_service.Prelude.{
  Bool-cases, List, Option, Option-cases, String, [], arith, contains, false, get_elem?,
  if◌then◌else◌, inl, inr, is_empty, length, none, refl, some, suc, true, zero, ℕ, ◌%◌, ◌*◌, ◌<◌,
  ◌∷◌, ◌≡◌,
}
use bridge_table_service.Room.{BotMode, random, real, rules, slow}
use bridge_table_service.Table.{seq}

get_elem-contains :
    (cards : List Card) (i : ℕ)
    → i < length cards
    → (c : Card) × (get_elem? cards i ≡ some c) × (contains cards c ≡ true)
unfolding card_beq suit_beq
get_elem-contains [] i h = absurd (omega arith)
get_elem-contains (x ∷ xs) zero h = (x, refl, ground (arith, card_beq_iff x x))
get_elem-contains (x ∷ xs) (suc i) h =
    let (c, e, held) = get_elem-contains xs i (omega arith) in (c, e, ground arith)

-- `pick` gives one of the options whenever there is one.
pick_lem :
    (cards : List Card) (seq : ℕ)
    → is_empty cards ≡ false
    → (c : Card) × (pick cards seq ≡ some c) × (contains cards c ≡ true)
unfolding pick
pick_lem [] seq h = absurd (cc)
pick_lem (x ∷ xs) seq h =
    get_elem-contains (x ∷ xs) (seq * 2654435761 % 18446744073709551616 % length (x ∷ xs))
      (omega arith)

module _ (rb : Rulebot) (doc : OnlyLegal rb) where
  rules_card_lem :
      (p : PlayPending)
      → is_empty p.legal ≡ false
      → (c : Card) × (rules_card rb p ≡ some c) × (contains p.legal c ≡ true)
  unfolding rules_card
  rules_card_lem p h =
      elim (Option-cases (if p.opening_lead then rb.choose_opening_lead p else rb.choose_card p)) [
        | inl e ↦
            (let (c, found, held) = pick_lem p.legal p.seq h in (c, rw (rules_card, e) found, held))
        | inr (c, e) ↦ (
          c,
          rw (rules_card, e) refl,
          elim (Bool-cases p.opening_lead) [
            | inl lead ↦ doc.lead_among p c (ground arith)
            | inr later ↦ doc.card_among p c (ground arith)
          ],
        )
      ]

  -- A card of the acting seat's legal ones is chosen.
  IsChosen : PlayPending → Option (Card × String) → Type 0
  IsChosen p o = (c : Card) × (via : String) × (o ≡ some (c, via)) × (contains p.legal c ≡ true)

  rules-IsChosen :
      (p : PlayPending) (via : String)
      → is_empty p.legal ≡ false
      → IsChosen p (Option.map (λ c. (c, via)) (rules_card rb p))
  unfolding IsChosen
  rules-IsChosen p via h =
      let (c, found, held) = rules_card_lem p h in (c, via, rw found refl, held)

  choose_card-IsChosen :
      (bt : BridgeTypes) (clients : Option Clients) (p : PlayPending)
      → is_empty p.legal ≡ false
      → IsChosen p (choose_card bt clients rb p)
  unfolding choose_card IsChosen rules_instead
  choose_card-IsChosen bt none p h = rules-IsChosen p "rules" h
  choose_card-IsChosen bt (some clients) p h = elim (Option-cases (ask_ben clients p)) [
    | inl e ↦ rw (choose_card, e) (rules-IsChosen p "rules" h)
    | inr ((card, player), e) ↦ elim (Bool-cases (is_mismatched bt p player)) [
      | inl wrong ↦ rw (choose_card, e, wrong) (rules-IsChosen p "rules" h)
      | inr right ↦ elim (Bool-cases (contains p.legal card)) [
        | inl held ↦ (card, "ben", rw (choose_card, e, right, held) refl, held)
        | inr alien ↦ rw (choose_card, e, right, alien) (rules-IsChosen p "rules" h)
      ]
    ]
  ]

  line_card-contains :
      (p : PlayPending) (c : Card) → line_card p ≡ some c → contains p.legal c ≡ true
  unfolding line_card
  line_card-contains p c h = ground arith

  -- Whatever BEN answers, or with no client at all, in every bot mode, on the recorded line and off it, the
  -- bot has a card to play, and it is one of the legal ones: the rulebot is assumed to give legal cards
  -- only, and there is a legal card.
  pub bot_card_lem :
      (bt : BridgeTypes) (clients : Option Clients) (mode : BotMode) (p : PlayPending)
      → is_empty p.legal ≡ false
      → (c : Card) × (via : String) × (bot_card bt clients rb mode p ≡ some (c, via))
        × (contains p.legal c ≡ true)
  unfolding bot_card IsChosen bot_card_off
  bot_card_lem bt clients mode p h = elim (Option-cases (line_card p)) [
    | inr (c, e) ↦ (c, "line", rw (bot_card, e) refl, line_card-contains p c e)
    | inl e ↦ (let (c, via, found, held) = off_book mode in (c, via, rw (bot_card, e) found, held))
  ]
    where
      off_book : (m : BotMode) → IsChosen p (bot_card_off bt clients rb m p)
      off_book real = choose_card-IsChosen bt clients p h
      off_book random =
          (let (c, found, held) = pick_lem p.legal p.seq h in (c, "random", rw found refl, held))
      off_book rules = rules-IsChosen p "rules" h
      off_book slow = rules-IsChosen p "rules" h
