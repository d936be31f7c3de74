-- ===== src/Table/Bounds.antt =====
-- What holds of every log that a table reaches, and its length (src/table.rs).
use bridge_table_service.Auction.{is_complete, is_legal}
use bridge_table_service.Auction.Bounds.{length-IsLegalAuction}
use bridge_table_service.Auction.Legal.{IsLegalAuction, snoc-IsLegalAuction}
use bridge_table_service.Bridge.{BridgeTypes, Call, Card, Direction}
use bridge_table_service.Prelude.{
  Bool, List, Option, [], ap, arith, false, length, length-append, none, ok, refl, some, subst, sym,
  true, ℕ, ◌++◌, ◌+◌, ◌∙◌, ◌∷◌, ◌≡◌, ◌≤◌,
}
use bridge_table_service.Table.{Action, BoardSetup, Folded, Phase, TableState, seq}
use bridge_table_service.Table.Apply.{check}
use bridge_table_service.Table.Cases.{
  calls-fold_gathered, check-call, check-claim, check-play, fold_gathered-bidding,
  fold_gathered-play, gather-snoc,
}
use bridge_table_service.Table.Fold.{
  Gathered, RawClaim, fold, fold_gathered, gather, gather_from, gather_one,
}
use bridge_table_service.Table.Log.{Log, Reach, Reach-Log, at, empty, more}
use bridge_table_service.Table.Tricks.{tally-Counts}

-- 1 if the log has a claim.
abbrev pub claims : Option RawClaim → ℕ
claims none = 0
claims (some raw) = 1

pub record IsSound (board : BoardSetup) (actions : List Action) (g : Gathered) : Type 0 where
  -- The calls form an auction in which every call was legal.
  pub legal : IsLegalAuction board.dealer g.calls
  -- Nobody plays or claims before the auction is over.
  pub unplayed : is_complete g.calls ≡ false → (g.played ≡ []) × (g.raw ≡ none)
  -- At most 52 cards, and a claim only while one is left.
  pub dealt : length g.played + claims g.raw ≤ 52
  pub counted : length actions ≡ length g.calls + length g.played + claims g.raw

module _ (bt : BridgeTypes) (board : BoardSetup) (actions : List Action) where
  abbrev state : Folded
  state = fold bt (at board actions)

  state-gathered : state ≡ fold_gathered bt board.dealer (gather actions)
  unfolding fold
  state-gathered = refl

  room_to_play :
      IsSound board actions (gather actions)
      → state.phase ≡ Phase.play
      → (is_complete (gather actions).calls ≡ true)
        × (length (gather actions).played ≤ 51)
        × ((gather actions).raw ≡ none)
  room_to_play s h =
      let g = gather actions in
      let (c, over, _, _, open_tricks, unclaimed) =
        fold_gathered-play bt board.dealer g
          (ap (λ (f : Folded). f.phase) (sym state-gathered) ∙ h) in
      let k = tally-Counts bt c g.played in
      (over, omega (arith, k.grouped, k.partial_trick, s.dealt), unclaimed)

  call-IsSound :
      (seat : Direction) (c : Call)
      → IsSound board actions (gather actions)
      → check (at board actions) state (Action.call seat c) ≡ ok tt
      → IsSound board
          (actions ++ Action.call seat c ∷ [])
          (gather_one (gather actions) (Action.call seat c))
  unfolding gather_one
  call-IsSound seat c s done =
      let g = gather actions in
      let (phase, _, fits) = check-call _ state seat c done in
      let same = (calls-fold_gathered bt board.dealer g).0 in
      let (going, _) =
        fold_gathered-bidding bt board.dealer g
          (ap (λ (f : Folded). f.phase) (sym state-gathered) ∙ phase) in
      record {
        legal = snoc-IsLegalAuction board.dealer g.calls c s.legal (
            subst (λ cs. is_legal board.dealer cs c ≡ true)
              (ap (λ (f : Folded). f.calls) state-gathered ∙ same) fits);
        unplayed = λ _. s.unplayed going;
        dealt = s.dealt;
        counted = omega (
          arith,
          s.counted,
          length-append actions (Action.call seat c ∷ []),
          length-append g.calls (c ∷ []),
        );
      }

  play-IsSound :
      (seat : Direction) (card : Card)
      → IsSound board actions (gather actions)
      → check (at board actions) state (Action.play seat card) ≡ ok tt
      → IsSound board
          (actions ++ Action.play seat card ∷ [])
          (gather_one (gather actions) (Action.play seat card))
  unfolding gather_one
  play-IsSound seat card s done =
      let g = gather actions in
      let (over, room, unclaimed) = room_to_play s (check-play _ state seat card done).0 in
      let grown = length-append g.played ((seat, card) ∷ []) in
      let claims0 : claims g.raw ≡ 0 = ap claims unclaimed in
      record {
        legal = s.legal;
        unplayed = λ going. absurd (cc);
        dealt = omega (arith, grown);
        counted =
            omega (arith, s.counted, length-append actions (Action.play seat card ∷ []), grown);
      }

  claim-IsSound :
      (seat : Direction) (tricks : ℕ) (ruling : Bool)
      → IsSound board actions (gather actions)
      → check (at board actions) state (Action.claim seat tricks ruling) ≡ ok tt
      → IsSound board
          (actions ++ Action.claim seat tricks ruling ∷ [])
          (gather_one (gather actions) (Action.claim seat tricks ruling))
  unfolding gather_one
  claim-IsSound seat tricks ruling s done =
      let g = gather actions in
      let (over, room, unclaimed) =
        room_to_play s (check-claim _ state seat tricks ruling done).0 in
      let claims0 : claims g.raw ≡ 0 = ap claims unclaimed in
      record {
        legal = s.legal;
        unplayed = λ going. absurd (cc);
        dealt = omega arith;
        counted =
            omega (arith, s.counted, length-append actions (Action.claim seat tricks ruling ∷ []));
      }

  step-IsSound :
      (a : Action)
      → IsSound board actions (gather actions)
      → check (at board actions) state a ≡ ok tt
      → IsSound board (actions ++ a ∷ []) (gather (actions ++ a ∷ []))
  step-IsSound (Action.call seat c) s done = rw (gather-snoc actions _) (call-IsSound seat c s done)
  step-IsSound (Action.play seat card) s done =
      rw (gather-snoc actions _) (play-IsSound seat card s done)
  step-IsSound (Action.claim seat tricks ruling) s done =
      rw (gather-snoc actions _) (claim-IsSound seat tricks ruling s done)

pub Log-IsSound :
    (bt : BridgeTypes) (board : BoardSetup) {actions : List Action}
    → Log bt board actions
    → IsSound board actions (gather actions)
unfolding gather gather_from
Log-IsSound bt board empty = record {
  legal = tt;
  unplayed = λ _. (refl, refl);
  dealt = omega arith;
  counted = omega arith;
}
Log-IsSound bt board (more {actions = before} a l done e) =
    rw e (step-IsSound bt board before a (Log-IsSound bt board l) done)

pub Reach-IsSound :
    (bt : BridgeTypes) {board : BoardSetup} {t : TableState}
    → Reach bt board t
    → IsSound board t.actions (gather t.actions)
Reach-IsSound bt {board} r = Log-IsSound bt board (Reach-Log bt r).1

-- Whatever is bid, played, claimed and undone, the log never has more than 371 actions.
pub seq-Reach :
    (bt : BridgeTypes) {board : BoardSetup} {t : TableState} → Reach bt board t → seq t ≤ 371
unfolding seq
seq-Reach bt {board} {t} r =
    let s = Reach-IsSound bt r in
    omega (
      arith,
      s.counted,
      s.dealt,
      length-IsLegalAuction board.dealer (gather t.actions).calls s.legal,
    )
