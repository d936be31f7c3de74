-- ===== src/Table/Bidding.antt =====
-- The bids that `apply` accepts (src/table.rs with src/engine/auction.rs).
use bridge_table_service.Auction.{is_complete}
use bridge_table_service.Auction.Bids.{EachCall, IsUnder, bid-is_legal_iff}
use bridge_table_service.Auction.Legal.{IsLegalAuction}
use bridge_table_service.Bridge.{BridgeTypes, Direction, Strain, bid}
use bridge_table_service.Prelude.{ap, false, is_ok, some, subst, sym, true, ℕ, ◌↔◌, ◌∙◌, ◌≡◌, ◌≤◌}
use bridge_table_service.Table.{Action, BoardSetup, Folded, Phase, TableState}
use bridge_table_service.Table.Apply.{apply}
use bridge_table_service.Table.Bounds.{Reach-IsSound}
use bridge_table_service.Table.Cases.{calls-fold_gathered, fold_gathered-bidding, fold_lem}
use bridge_table_service.Table.Fold.{fold, fold_gathered, gather}
use bridge_table_service.Table.Log.{Reach, Reach-Log}
use bridge_table_service.Table.Rules.{call-accepted_iff}

pub bidding-going :
    (bt : BridgeTypes) (t : TableState)
    → (fold bt t).phase ≡ Phase.bidding
    → is_complete (fold bt t).calls ≡ false
bidding-going bt t h =
    let g = gather t.actions in
    let e = fold_lem bt t in
    let h' : (fold_gathered bt t.board.dealer g).phase ≡ Phase.bidding =
      ap (λ (f : Folded). f.phase) (sym e) ∙ h in
    let (going, _) = fold_gathered-bidding bt t.board.dealer g h' in
    let calls : (fold bt t).calls ≡ g.calls =
      ap (λ (f : Folded). f.calls) e ∙ (calls-fold_gathered bt t.board.dealer g).0 in
    ap is_complete calls ∙ going

-- On a table that accepted actions and undos reach, a bid is accepted exactly when the auction is open, the
-- seat is on turn, the level is one to seven, and the bid is higher than every bid made before: of a
-- higher level, or of the same level in a higher strain.
pub bid-accepted_iff :
    (bt : BridgeTypes) {board : BoardSetup} {t : TableState} (seat : Direction) (level : ℕ)
    (strain : Strain)
    → Reach bt board t
    → (is_ok (apply bt t (Action.call seat (bid level strain))) ≡ true) ↔ (
        ((fold bt t).phase ≡ Phase.bidding)
        × ((fold bt t).next_to_act ≡ some seat)
        × (1 ≤ level)
        × (level ≤ 7)
        × EachCall (IsUnder level strain) (fold bt t).calls)
bid-accepted_iff bt {board} {t} seat level strain reached =
    let f = fold bt t in
    let calls : f.calls ≡ (gather t.actions).calls =
      ap (λ (f : Folded). f.calls) (fold_lem bt t)
      ∙ (calls-fold_gathered bt t.board.dealer (gather t.actions)).0 in
    let same_board = (Reach-Log bt reached).0 in
    let legal : IsLegalAuction t.board.dealer f.calls =
      subst (λ (b : BoardSetup). IsLegalAuction b.dealer f.calls) (sym same_board)
        (subst (IsLegalAuction board.dealer) (sym calls) (Reach-IsSound bt reached).legal) in
    let (to, from) = call-accepted_iff bt t seat (bid level strain) in
    (
      (λ h.
          let (phase, turn, fits) = to h in
          let (low, high, under) =
            (bid-is_legal_iff t.board.dealer f.calls level strain legal
                (bidding-going bt t phase)).0
              fits in
          (phase, turn, low, high, under)),
      (λ (phase, turn, low, high, under). from (
        phase,
        turn,
        (bid-is_legal_iff t.board.dealer f.calls level strain legal (bidding-going bt t phase)).1
            (low, high, under),
      )),
    )
