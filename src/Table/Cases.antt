-- ===== src/Table/Cases.antt =====
-- Case lemmas for `fold` and `check`: which arm was taken, and what its guards say.
use bridge_table_service.Auction.{ContractOutcome, contract, is_complete, is_legal, next_caller}
use bridge_table_service.Bridge.{BridgeTypes, Call, Card, Direction}
use bridge_table_service.Play.{is_legal_play}
use bridge_table_service.Prelude.{
  Bool, Bool-cases, List, Option-cases, [], ap, arith, false, inl, inr, length, none, ok, refl,
  some, sym, true, ℕ, ◌++◌, ◌∙◌, ◌∷◌, ◌≡◌, ◌≢◌, ◌≤◌, ◌⊎◌,
}
use bridge_table_service.Table.{Action, Folded, Phase, TableState, phase_beq_iff, tricks_left}
use bridge_table_service.Table.Apply.{check, current_lead_suit, is_turn, remaining}
use bridge_table_service.Table.Fold.{
  Gathered, fold, fold_gathered, fold_play, fold_without_play, gather, gather_from, gather_one,
  play_done, tally,
}

pub fold_lem :
    (bt : BridgeTypes) (t : TableState)
    → fold bt t ≡ fold_gathered bt t.board.dealer (gather t.actions)
unfolding fold
fold_lem bt t = refl

pub gather_from-snoc :
    (g : Gathered) (actions : List Action) (a : Action)
    → gather_from g (actions ++ a ∷ []) ≡ gather_one (gather_from g actions) a
unfolding gather_from
gather_from-snoc g [] a = refl
gather_from-snoc g (b ∷ actions) a = gather_from-snoc (gather_one g b) actions a

pub gather-snoc :
    (actions : List Action) (a : Action)
    → gather (actions ++ a ∷ []) ≡ gather_one (gather actions) a
unfolding gather
gather-snoc actions a = gather_from-snoc _ actions a

-- The three ends of `fold`: the auction is open, it was passed out, or there is a contract.
pub fold_gathered_cases :
    (bt : BridgeTypes) (dealer : Direction) (g : Gathered)
    → ((is_complete g.calls ≡ false)
        × (fold_gathered bt dealer g
            ≡ fold_without_play bt Phase.bidding (some (next_caller bt dealer g.calls)) g))
      ⊎ ((is_complete g.calls ≡ true)
          × (contract bt dealer g.calls ≡ none)
          × (fold_gathered bt dealer g ≡ fold_without_play bt Phase.complete none g))
      ⊎ ((c : ContractOutcome) × (is_complete g.calls ≡ true)
          × (contract bt dealer g.calls ≡ some c)
          × (fold_gathered bt dealer g ≡ fold_play bt c g))
unfolding fold_gathered
fold_gathered_cases bt dealer g = elim (Bool-cases (is_complete g.calls)) [
  | inr going ↦ inl (going, rw going)
  | inl over ↦ elim (Option-cases (contract bt dealer g.calls)) [
    | inl e ↦ inr (inl (over, e, rw (over, e)))
    | inr (c, e) ↦ inr (inr (c, over, e, rw (over, e)))
  ]
]

pub check-call :
    (t : TableState) (f : Folded) (seat : Direction) (c : Call)
    → check t f (Action.call seat c) ≡ ok tt
    → (f.phase ≡ Phase.bidding)
      × (is_turn f seat ≡ true)
      × (is_legal t.board.dealer f.calls c ≡ true)
unfolding check
check-call t f seat c h = ground (arith, phase_beq_iff f.phase Phase.bidding)

pub check-play :
    (t : TableState) (f : Folded) (seat : Direction) (card : Card)
    → check t f (Action.play seat card) ≡ ok tt
    → (f.phase ≡ Phase.play)
      × (is_turn f seat ≡ true)
      × (is_legal_play card (remaining t seat f) (current_lead_suit f) ≡ true)
unfolding check
check-play t f seat card h = ground (arith, phase_beq_iff f.phase Phase.play)

pub check-claim :
    (t : TableState) (f : Folded) (seat : Direction) (tricks : ℕ) (ruling : Bool)
    → check t f (Action.claim seat tricks ruling) ≡ ok tt
    → (f.phase ≡ Phase.play) × (tricks ≤ tricks_left f)
unfolding check
check-claim t f seat tricks ruling h = ground (arith, phase_beq_iff f.phase Phase.play)

-- While the phase is the play, there is a contract, and neither thirteen tricks nor a claim.
pub fold_gathered-play :
    (bt : BridgeTypes) (dealer : Direction) (g : Gathered)
    → (fold_gathered bt dealer g).phase ≡ Phase.play
    → (c : ContractOutcome) × (is_complete g.calls ≡ true)
      × (contract bt dealer g.calls ≡ some c)
      × (fold_gathered bt dealer g ≡ fold_play bt c g)
      × (length (tally bt c g.played).completed ≢ 13)
      × (g.raw ≡ none)
unfolding fold_without_play fold_play play_done
fold_gathered-play bt dealer g h = elim (fold_gathered_cases bt dealer g) [
  | inl (going, e) ↦ absurd (cc (ap (λ (f : Folded). f.phase) e))
  | inr (inl (over, n, e)) ↦ absurd (cc (ap (λ (f : Folded). f.phase) e))
  | inr (inr (c, over, s, e)) ↦
      let p : (fold_play bt c g).phase ≡ Phase.play = ap (λ (f : Folded). f.phase) (sym e) ∙ h in
      (c, over, s, e, ground arith, ground arith)
]

pub fold_gathered-bidding :
    (bt : BridgeTypes) (dealer : Direction) (g : Gathered)
    → (fold_gathered bt dealer g).phase ≡ Phase.bidding
    → (is_complete g.calls ≡ false)
      × ((fold_gathered bt dealer g).next_to_act ≡ some (next_caller bt dealer g.calls))
unfolding fold_without_play fold_play
fold_gathered-bidding bt dealer g h = elim (fold_gathered_cases bt dealer g) [
  | inl (going, e) ↦ (going, ap (λ (f : Folded). f.next_to_act) e)
  | inr (inl (over, n, e)) ↦ absurd (cc (ap (λ (f : Folded). f.phase) e))
  | inr (inr (c, over, s, e)) ↦
      let p : (fold_play bt c g).phase ≡ Phase.bidding = ap (λ (f : Folded). f.phase) (sym e) ∙ h in
      absurd (ground arith)
]

pub calls-fold_gathered :
    (bt : BridgeTypes) (dealer : Direction) (g : Gathered)
    → ((fold_gathered bt dealer g).calls ≡ g.calls)
      × ((fold_gathered bt dealer g).played ≡ g.played)
unfolding fold_without_play fold_play
calls-fold_gathered bt dealer g = elim (fold_gathered_cases bt dealer g) [
  | inl (going, e) ↦ rw e (refl, refl)
  | inr (inl (over, n, e)) ↦ rw e (refl, refl)
  | inr (inr (c, over, s, e)) ↦ rw e (refl, refl)
]
