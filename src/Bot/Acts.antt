-- ===== src/Bot/Acts.antt =====
-- From the decision to act to the landing on an unchanged room (src/bots.rs, `act_once`).
use bridge_table_service.Bot.{BidPending, Clients, OnlyLegal, Pending, Rulebot, pending_bid}
use bridge_table_service.Bot.Cards.{bot_card_lem}
use bridge_table_service.Bot.Choices.{choose_call-is_legal, is_legal-pass}
use bridge_table_service.Bot.Choose.{choose_call}
use bridge_table_service.Bot.Driver.{
  Suggestion, bid_pending, captured, decide, land, landing_of, pending_in, play_pending, stale,
  suggest, suggest_call,
}
use bridge_table_service.Bot.Safety.{decide_lem, phase_cases, play_pending-ok}
use bridge_table_service.Bridge.{BridgeTypes, Call, Card, Direction, card_eq, pass}
use bridge_table_service.Play.{is_legal_play, legal_cards}
use bridge_table_service.Play.Following.{is_legal_play_iff}
use bridge_table_service.Prelude.{
  Bool-cases, List, Option, Result-cases, [], ap, arith, contains, false, inl, inr, is_ok, length,
  length-append, nat_eq, none, ok, refl, some, some-injective, subst, sym, true, ℕ, ◌+◌, ◌<◌, ◌==◌,
  ◌∙◌, ◌∷◌, ◌≡◌, ◌⊎◌,
}
use bridge_table_service.Room.{BotMode, RoomInner, side_of}
use bridge_table_service.Table.{Action, Phase, TableState, seq}
use bridge_table_service.Table.Apply.{apply, current_lead_suit, push, remaining}
use bridge_table_service.Table.Bidding.{bidding-going}
use bridge_table_service.Table.Fold.{fold}
use bridge_table_service.Table.Log.{apply-ok, at}
use bridge_table_service.Table.Rules.{call-accepted_iff, play-accepted_iff}

lands :
    (bt : BridgeTypes) (r : RoomInner) (a : Action)
    → is_ok (apply bt r.table a) ≡ true
    → (n : ℕ) × (land bt r (seq r.table) a ≡ (record r { table = push r.table a }, landing_of a n))
unfolding land
lands bt r a h = elim (Result-cases (apply bt r.table a)) [
  | inr (e, bad) ↦ absurd (ground arith)
  | inl ((t, n), good) ↦
      (let (_, pushed, _) = apply-ok bt r.table a good in
        let here : (seq r.table == seq r.table) ≡ true = ground arith in
        (n, rw (land, here, good, pushed) refl))
]

-- A table after actions that `apply` accepted one after the other, and no undo.
pub data Grown (bt : BridgeTypes) (t : TableState) : TableState → Type 0 where
  unchanged : Grown bt t t
  one_more_action :
      {t' t'' : TableState} {n : ℕ} (a : Action)
      → Grown bt t t'
      → apply bt t' a ≡ ok (t'', n)
      → Grown bt t t''

seq-Grown : (bt : BridgeTypes) (t t' : TableState) → Grown bt t t' → (t' ≡ t) ⊎ (seq t < seq t')
unfolding seq push
seq-Grown bt t t' unchanged = inl refl
seq-Grown bt t t' (one_more_action {t' = t1} a grown h) =
    let (_, pushed, _) = apply-ok bt t1 a h in
    let longer = length-append t1.actions (a ∷ []) in
    let there : length t'.actions ≡ length t1.actions + 1 =
      ap (λ (x : TableState). length x.actions) pushed ∙ longer in
    elim (seq-Grown bt t t1 grown) [
      | inl same ↦
          (let length' = ap (λ (x : TableState). length x.actions) same in
            inr (omega (arith, there, length')))
      | inr less ↦ inr (omega (arith, there, less))
    ]

module _ (bt : BridgeTypes) (clients : Option Clients) (rb : Rulebot) (doc : OnlyLegal rb) where
  suggest_call-ok :
      (r : RoomInner) (cache : Option (List Call)) (seat : Direction)
      → (fold bt r.table).phase ≡ Phase.bidding
      → (fold bt r.table).next_to_act ≡ some seat
      → is_ok (
          apply bt r.table
            (suggest_call bt clients rb cache (bid_pending r (fold bt r.table) seat)).action)
        ≡ true
  unfolding suggest_call bid_pending
  suggest_call-ok r cache seat phase turn =
      let going = bidding-going bt r.table phase in
      let calls = (fold bt r.table).calls in
      elim (Bool-cases (r.pass_sides (side_of seat))) [
        | inl passing ↦
            rw (suggest_call, passing)
              ((call-accepted_iff bt r.table seat pass).1
                (phase, turn, is_legal-pass r.table.board.dealer calls going))
        | inr bids ↦
            rw (suggest_call, bids)
              ((call-accepted_iff bt r.table seat
                  (choose_call clients cache r.table.board calls).chosen).1
                (phase, turn, choose_call-is_legal clients cache r.table.board calls going))
      ]

  play-ok :
      (r : RoomInner) (seat : Direction) (card : Card)
      → (fold bt r.table).phase ≡ Phase.play
      → (fold bt r.table).next_to_act ≡ some seat
      → contains
          (legal_cards
            (remaining r.table seat (fold bt r.table))
            (current_lead_suit (fold bt r.table)))
          card
        ≡ true
      → is_ok (apply bt r.table (Action.play seat card)) ≡ true
  unfolding is_legal_play
  play-ok r seat card phase turn legal =
      let f = fold bt r.table in
      let (held, suit) =
        (is_legal_play_iff card (remaining r.table seat f) (current_lead_suit f)).0 legal in
      (play-accepted_iff bt r.table seat card).1 (phase, turn, held, suit)

  IsAccepted : RoomInner → BotMode → Option (List Call) → Pending → Type 0
  IsAccepted r mode cache p =
      (s : Suggestion) × (suggest bt clients rb mode cache p ≡ some s)
      × (s.seq ≡ seq r.table)
      × (is_ok (apply bt r.table s.action) ≡ true)

  play-IsAccepted :
      (r : RoomInner) (mode : BotMode) (cache : Option (List Call)) (seat : Direction) (p : Pending)
      → (fold bt r.table).phase ≡ Phase.play
      → (fold bt r.table).next_to_act ≡ some seat
      → play_pending bt r (fold bt r.table) seat ≡ some p
      → IsAccepted r mode cache p
  unfolding IsAccepted suggest captured
  play-IsAccepted r mode cache seat p phase turn h =
      let f = fold bt r.table in
      let (c, same, any) = play_pending-ok bt r f seat p h in
      let q = captured bt r f seat c in
      let (card, via, found, legal) = bot_card_lem rb doc bt clients mode q any in
      (
        record {
          seq = seq r.table;
          action = Action.play seat card;
          via = via;
          opening_lead = q.opening_lead;
          cache = cache;
        },
        rw (same, suggest, found) refl,
        refl,
        play-ok r seat card phase turn legal,
      )

  suggest_call-seq :
      (cache : Option (List Call)) (p : BidPending)
      → (suggest_call bt clients rb cache p).seq ≡ p.seq
  unfolding suggest_call
  suggest_call-seq cache p = elim (Bool-cases p.pass) [
    | inl passing ↦ rw (suggest_call, passing) refl
    | inr bids ↦ rw (suggest_call, bids) refl
  ]

  pending-IsAccepted :
      (r : RoomInner) (mode : BotMode) (cache : Option (List Call)) (seat : Direction) (p : Pending)
      → (fold bt r.table).next_to_act ≡ some seat
      → pending_in bt r (fold bt r.table) seat ≡ some p
      → IsAccepted r mode cache p
  unfolding pending_in IsAccepted suggest suggest_call bid_pending
  pending-IsAccepted r mode cache seat p turn h = elim (phase_cases (fold bt r.table).phase) [
    | inl e ↦
        (let f = fold bt r.table in
          let q = bid_pending r f seat in
          let h' : some (pending_bid q) ≡ some p = rw (pending_in, e) at h in
          (
            suggest_call bt clients rb cache q,
            rw⁻¹ (some-injective (pending_bid q) p h') refl,
            suggest_call-seq cache q,
            suggest_call-ok r cache seat e turn,
          ))
    | inr (inl e) ↦ play-IsAccepted r mode cache seat p e turn (rw (pending_in, e) at h)
    | inr (inr e) ↦ (let h' : none ≡ some p = rw (pending_in, e) at h in absurd (cc))
  ]

  -- Whenever the driver decides that a bot acts, there is a suggestion in every bot mode, and if the room
  -- has not changed it is accepted: the action is added to the table. The rulebot is assumed to give
  -- legal cards only; of BBA and BEN nothing is assumed, and they may be missing.
  pub decide-lands :
      (r : RoomInner) (now later : ℕ) (mode : BotMode) (cache : Option (List Call)) (p : Pending)
      → decide bt r now later ≡ some p
      → (s : Suggestion) × (n : ℕ) × (suggest bt clients rb mode cache p ≡ some s)
        × (land bt r s.seq s.action
            ≡ (record r { table = push r.table s.action }, landing_of s.action n))
  unfolding IsAccepted
  decide-lands r now later mode cache p h =
      let (seat, turn, _, _, pending) = decide_lem bt r now later p h in
      let (s, found, at, good) = pending-IsAccepted r mode cache seat p turn pending in
      let (n, e) = lands bt r s.action good in (s, n, found, rw at e)

  -- What becomes of a suggestion if, between the decision and the landing, the table has only grown by
  -- actions that `apply` accepted: if there was none the bot's action is added to the table, and if there
  -- was any the suggestion is dropped and the room stays as it is. Whatever else of the room has changed does not
  -- matter. The rulebot is assumed to give legal cards only.
  pub suggestion-lands :
      (r0 r : RoomInner) (now later : ℕ) (mode : BotMode) (cache : Option (List Call)) (p : Pending)
      (s : Suggestion)
      → decide bt r0 now later ≡ some p
      → suggest bt clients rb mode cache p ≡ some s
      → Grown bt r0.table r.table
      → ((r.table ≡ r0.table)
          × (n : ℕ) × (land bt r s.seq s.action
              ≡ (record r { table = push r0.table s.action }, landing_of s.action n)))
        ⊎ ((seq r0.table < seq r.table) × (land bt r s.seq s.action ≡ (r, stale)))
  unfolding IsAccepted land
  suggestion-lands r0 r now later mode cache p s h given grown =
      let (seat, turn, _, _, pending) = decide_lem bt r0 now later p h in
      let (s', found, at', good') = pending-IsAccepted r0 mode cache seat p turn pending in
      let same_s : s' ≡ s = some-injective s' s (sym found ∙ given) in
      let at : s.seq ≡ seq r0.table = subst (λ (x : Suggestion). x.seq ≡ seq r0.table) same_s at' in
      let good : is_ok (apply bt r0.table s.action) ≡ true =
        subst (λ (x : Suggestion). is_ok (apply bt r0.table x.action) ≡ true) same_s good' in
      elim (seq-Grown bt r0.table r.table grown) [
        | inl same ↦
            (let (n, e) =
                lands bt r s.action
                  (subst (λ x. is_ok (apply bt x s.action) ≡ true) (sym same) good) in
              inl (
                same,
                n,
                rw (at, sym (ap seq same))
                    (e
                      ∙ ap
                          (λ (x : TableState).
                            (record r { table = push x s.action }, landing_of s.action n))
                          same),
              ))
        | inr less ↦
            (let moved : (seq r.table == s.seq) ≡ false = ground (arith, at, less) in
              inr (less, rw (land, moved) refl))
      ]
