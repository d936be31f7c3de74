-- ===== src/Bot/Choose.antt =====
-- The choices of a bot (src/bots.rs): the fallbacks, and what is checked of an answer before it is used.
use mathlib.Core.Option
use bridge_table_service.Auction.{is_legal}
use bridge_table_service.Bot.{Clients, PlayPending, Rulebot}
use bridge_table_service.Bot.Bba.{continuation, generate}
use bridge_table_service.Bot.Ben.{player_to_seat}
use bridge_table_service.Bridge.{BridgeTypes, Call, Card, Direction, card_eq, direction_eq, pass}
use bridge_table_service.Prelude.{
  Bool, List, Option, String, contains, false, filter, get_elem?, if◌then◌else◌, length, none, not,
  some, ℕ, ◌%◌, ◌&&◌, ◌*◌, ◌==◌,
}
use bridge_table_service.Table.{BoardSetup, seq}
use bridge_table_service.Table.Line.{card_for, diverged}

-- `pick`, with the 64-bit wrap-around of `wrapping_mul`; `none` stands for the panic on no options.
unfoldable pub pick {ℓ} : {A : Type ℓ} → List A → ℕ → Option A
pick options seq = get_elem? options (seq * 2654435761 % 18446744073709551616 % length options)

-- `self.played_pairs.iter().filter(|(s, _)| *s == self.seat).count()`
pub count_of : Direction → List (Direction × Card) → ℕ
count_of seat played = length (filter (λ (s, c). s == seat) played)

-- `PlayPending::line_card`
unfoldable pub line_card : PlayPending → Option Card
unfolding count_of
line_card p = elim p.line [
  | none ↦ none
  | some line ↦
      if diverged line p.played_pairs
      then none
      else (elim (card_for line p.seat (count_of p.seat p.played_pairs)) [
        | none ↦ none
        | some card ↦ if contains p.legal card then some card else none
      ])
]

-- `rules_card`
unfoldable pub rules_card : Rulebot → PlayPending → Option Card
unfolding pick
rules_card rb p = elim (if p.opening_lead then rb.choose_opening_lead p else rb.choose_card p) [
  | none ↦ pick p.legal p.seq
  | some card ↦ some card
]

-- The answer of BEN in `choose_card`: `/lead` names no player.
pub ask_ben : Clients → PlayPending → Option (Card × Option ℕ)
ask_ben clients p =
    if p.opening_lead then Option.map (λ c. (c, none)) (clients.ben_lead p) else clients.ben_play p

-- `mismatched.is_some()`
pub is_mismatched : BridgeTypes → PlayPending → Option ℕ → Bool
is_mismatched bt p none = false
is_mismatched bt p (some player) =
    let s = player_to_seat bt player p.declarer in not (s == p.seat) && not (s == p.decision_maker)

-- The end of `choose_card`.
unfoldable pub rules_instead : Rulebot → PlayPending → Option (Card × String)
unfolding rules_card
rules_instead rb p = Option.map (λ c. (c, "rules")) (rules_card rb p)

-- `choose_card`
unfoldable pub choose_card :
    BridgeTypes → Option Clients → Rulebot → PlayPending → Option (Card × String)
unfolding rules_instead ask_ben is_mismatched
choose_card bt none rb p = rules_instead rb p
choose_card bt (some clients) rb p = elim (ask_ben clients p) [
  | none ↦ rules_instead rb p
  | some (card, player) ↦
      if is_mismatched bt p player
      then rules_instead rb p
      else if contains p.legal card
      then some (card, "ben")
      else rules_instead rb p
]

-- What `choose_call` gives: the call, where it comes from, and the cache afterwards.
pub record ChosenCall : Type 0 where
  pub chosen : Call
  pub via : String
  pub cache : Option (List Call)

-- The continuation of a cache, if the engine accepts it.
unfoldable pub legal_continuation : BoardSetup → Option (List Call) → List Call → Option Call
legal_continuation board cache calls = elim (continuation cache calls) [
  | none ↦ none
  | some c ↦ if is_legal board.dealer calls c then some c else none
]

-- The second half of `choose_call`, which asks BBA.
unfoldable pub ask_bba : Option Clients → Option (List Call) → BoardSetup → List Call → ChosenCall
unfolding legal_continuation
ask_bba none cache board calls = record { chosen = pass; via = "fallback"; cache = cache }
ask_bba (some clients) cache board calls = elim (generate clients board calls) [
  | none ↦ record { chosen = pass; via = "fallback"; cache = cache }
  | some predicted ↦ elim (legal_continuation board (some predicted) calls) [
    | none ↦ record { chosen = pass; via = "fallback"; cache = some predicted }
    | some c ↦ record { chosen = c; via = "bba"; cache = some predicted }
  ]
]

-- `choose_call`
unfoldable pub choose_call :
    Option Clients → Option (List Call) → BoardSetup → List Call → ChosenCall
unfolding ask_bba
choose_call clients cache board calls = elim (continuation cache calls) [
  | none ↦ ask_bba clients cache board calls
  | some c ↦
      if is_legal board.dealer calls c
      then record { chosen = c; via = "bba"; cache = cache }
      else ask_bba clients none board calls
]
