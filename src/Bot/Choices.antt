-- ===== src/Bot/Choices.antt =====
-- The calls that a bot chooses (src/bots.rs, src/bots/bba.rs).
use bridge_table_service.Auction.{call_is_legal, is_complete, is_legal}
use bridge_table_service.Bot.{Clients}
use bridge_table_service.Bot.Bba.{continuation, generate, same_calls}
use bridge_table_service.Bot.Choose.{ask_bba, choose_call, legal_continuation}
use bridge_table_service.Bridge.{Call, Direction, call_beq_iff, pass}
use bridge_table_service.Prelude.{
  Bool-cases, List, Option, Option-cases, [], ap, arith, false, inl, inr, none, refl, some, subst,
  sym, true, ◌++◌, ◌↔◌, ◌∙◌, ◌∷◌, ◌≡◌,
}
use bridge_table_service.Table.{BoardSetup}

same_calls_iff : (xs ys : List Call) → (same_calls xs ys ≡ true) ↔ (xs ≡ ys)
unfolding same_calls
same_calls_iff [] [] = ((λ h. refl), (λ h. refl))
same_calls_iff [] (y ∷ ys) = ((λ h. absurd (cc)), (λ h. absurd (cc)))
same_calls_iff (x ∷ xs) [] = ((λ h. absurd (cc)), (λ h. absurd (cc)))
same_calls_iff (x ∷ xs) (y ∷ ys) = (
  (λ h. ground (arith, same_calls_iff xs ys, call_beq_iff x y)),
  (λ h. ground (arith, same_calls_iff xs ys, call_beq_iff x y)),
)

continuation-to :
    (predicted calls : List Call) (c : Call)
    → continuation (some predicted) calls ≡ some c
    → (rest : List Call) × (predicted ≡ calls ++ c ∷ rest)
unfolding continuation same_calls
continuation-to [] [] c h = absurd (cc)
continuation-to [] (d ∷ ds) c h = absurd (ground arith)
continuation-to (p ∷ ps) [] c h = (ps, ap (λ x. x ∷ ps) (ground arith))
continuation-to (p ∷ ps) (d ∷ ds) c h =
    let (rest, e) = continuation-to ps ds c (ground arith) in
    let same : p ≡ d = ground (arith, call_beq_iff p d) in
    (rest, ap (◌∷◌ p) e ∙ ap (λ x. x ∷ ds ++ c ∷ rest) same)

continuation-from :
    (calls : List Call) (c : Call) (rest : List Call)
    → continuation (some (calls ++ c ∷ rest)) calls ≡ some c
unfolding continuation same_calls
continuation-from [] c rest = ground arith
continuation-from (d ∷ ds) c rest = ground (arith, continuation-from ds c rest, call_beq_iff d d)

-- A prediction continues the calls by `c` exactly when it starts with the calls and then `c`.
pub continuation_iff :
    (predicted calls : List Call) (c : Call)
    → (continuation (some predicted) calls ≡ some c)
      ↔ ((rest : List Call) × (predicted ≡ calls ++ c ∷ rest))
continuation_iff predicted calls c = (
  continuation-to predicted calls c,
  (λ (rest, e).
      subst (λ x. continuation (some x) calls ≡ some c) (sym e) (continuation-from calls c rest)),
)

-- Passing is legal in every auction that is not over.
pub is_legal-pass :
    (dealer : Direction) (calls : List Call)
    → is_complete calls ≡ false
    → is_legal dealer calls pass ≡ true
unfolding is_legal call_is_legal
is_legal-pass dealer calls going = ground arith

legal_continuation-is_legal :
    (board : BoardSetup) (cache : Option (List Call)) (calls : List Call) (c : Call)
    → legal_continuation board cache calls ≡ some c
    → is_legal board.dealer calls c ≡ true
unfolding legal_continuation
legal_continuation-is_legal board cache calls c h = ground arith

ask_bba-is_legal :
    (clients : Option Clients) (cache : Option (List Call)) (board : BoardSetup) (calls : List Call)
    → is_complete calls ≡ false
    → is_legal board.dealer calls (ask_bba clients cache board calls).chosen ≡ true
unfolding ask_bba
ask_bba-is_legal none cache board calls going = is_legal-pass board.dealer calls going
ask_bba-is_legal (some clients) cache board calls going =
    elim (Option-cases (generate clients board calls)) [
      | inl e ↦ rw (ask_bba, e) (is_legal-pass board.dealer calls going)
      | inr (predicted, e) ↦ elim (Option-cases (legal_continuation board (some predicted) calls)) [
        | inl e' ↦ rw (ask_bba, e, e') (is_legal-pass board.dealer calls going)
        | inr (c, e') ↦
            rw (ask_bba, e, e') (legal_continuation-is_legal board (some predicted) calls c e')
      ]
    ]

-- Whatever is cached and whatever BBA answers, or with no client at all, `choose_call` gives a call that
-- the engine accepts, in every auction that is not over.
pub choose_call-is_legal :
    (clients : Option Clients) (cache : Option (List Call)) (board : BoardSetup) (calls : List Call)
    → is_complete calls ≡ false
    → is_legal board.dealer calls (choose_call clients cache board calls).chosen ≡ true
unfolding choose_call
choose_call-is_legal clients cache board calls going =
    elim (Option-cases (continuation cache calls)) [
      | inl e ↦ rw (choose_call, e) (ask_bba-is_legal clients cache board calls going)
      | inr (c, e) ↦ elim (Bool-cases (is_legal board.dealer calls c)) [
        | inl good ↦ rw (choose_call, e, good) good
        | inr bad ↦ rw (choose_call, e, bad) (ask_bba-is_legal clients none board calls going)
      ]
    ]
