-- ===== src/Table/Shares.antt =====
-- How `fold` shares the thirteen tricks between the sides, with and without a claim (src/table.rs).
use bridge_table_service.Auction.{ContractOutcome}
use bridge_table_service.Bridge.{BridgeTypes, Direction}
use bridge_table_service.Prelude.{
  Bool-cases, Option, add_u8, ap, arith, as_u8, inl, inr, is_some, length, none, refl, some, sub_u8,
  true, ◌+◌, ◌∙◌, ◌≡◌, ◌≤◌,
}
use bridge_table_service.Table.{BoardSetup, Folded, Phase, TableState}
use bridge_table_service.Table.Bounds.{Reach-IsSound, claims}
use bridge_table_service.Table.Cases.{fold_gathered_cases}
use bridge_table_service.Table.Fold.{
  Gathered, RawClaim, Tally, fold, fold_play, fold_without_play, gather, is_ns, play_done,
  settle_claim, settled, tally,
}
use bridge_table_service.Table.Log.{Reach}
use bridge_table_service.Table.Tricks.{tally-Counts}

pub settled-none : (y : Tally) (bt : BridgeTypes) → settled bt y none ≡ (y.ns, y.ew, none)
unfolding settled
settled-none y bt = refl

-- A claim shares out exactly the tricks that are left.
settled-some :
    (bt : BridgeTypes) (y : Tally) (raw : RawClaim)
    → length y.completed ≤ 13
    → y.ns + y.ew ≡ length y.completed
    → (settled bt y (some raw)).0 + (settled bt y (some raw)).1 ≡ 13
unfolding settled settle_claim add_u8 sub_u8 as_u8
settled-some bt y (seat, tricks, ruling, at_card) le total = elim (Bool-cases (is_ns seat)) [
  | inl e ↦ rw e (omega arith)
  | inr e ↦ rw e (omega arith)
]

-- The tricks that a fold reports: thirteen on a played-out or claimed board, else those completed.
pub record IsShared (f : Folded) : Type 0 where
  pub while_playing : f.phase ≡ Phase.play → f.tricks_ns + f.tricks_ew ≡ length f.completed_tricks
  pub at_the_end :
      f.phase ≡ Phase.complete → is_some f.outcome ≡ true → f.tricks_ns + f.tricks_ew ≡ 13

completed-le :
    (bt : BridgeTypes) (c : ContractOutcome) (g : Gathered)
    → length g.played + claims g.raw ≤ 52
    → (length (tally bt c g.played).completed ≤ 13)
      × ((tally bt c g.played).ns + (tally bt c g.played).ew
          ≡ length (tally bt c g.played).completed)
completed-le bt c g dealt =
    let k = tally-Counts bt c g.played in (omega (arith, k.grouped), k.shared (omega arith))

fold_play-IsShared :
    (bt : BridgeTypes) (c : ContractOutcome) (g : Gathered)
    → length g.played + claims g.raw ≤ 52
    → IsShared (fold_play bt c g)
unfolding fold_play play_done
fold_play-IsShared bt c g dealt = go g.raw refl
  where
    y : Tally
    y = tally bt c g.played

    few : (length y.completed ≤ 13) × (y.ns + y.ew ≡ length y.completed)
    few = completed-le bt c g dealt

    go : (raw : Option RawClaim) → g.raw ≡ raw → IsShared (fold_play bt c g)
    go none e =
        let s = ap (settled bt y) e ∙ settled-none y bt in
        let total : (settled bt y g.raw).0 + (settled bt y g.raw).1 ≡ length y.completed =
          rw s few.1 in
        record { while_playing = λ h. total; at_the_end = λ h _. total ∙ ground (arith, e) }
    go (some raw) e = record {
      while_playing = λ h. absurd (ground (arith, e));
      at_the_end = λ h _. rw e (settled-some bt y raw few.0 few.1);
    }

fold_without_play-IsShared :
    (bt : BridgeTypes) (phase : Phase) (turn : Option Direction) (g : Gathered)
    → IsShared (fold_without_play bt phase turn g)
unfolding fold_without_play
fold_without_play-IsShared bt phase turn g = record {
  while_playing = λ h. omega arith;
  at_the_end = λ h s. absurd (cc);
}

-- On every board that a table can reach, the tricks of the two sides add up to the tricks completed
-- while the play goes on, and to thirteen when a board with a contract is complete, played out or
-- claimed.
pub Reach-IsShared :
    (bt : BridgeTypes) {board : BoardSetup} {t : TableState}
    → Reach bt board t
    → IsShared (fold bt t)
unfolding fold
Reach-IsShared bt {t = t} r =
    let g = gather t.actions in
    elim (fold_gathered_cases bt t.board.dealer g) [
      | inl (going, e) ↦ rw e (fold_without_play-IsShared bt _ _ g)
      | inr (inl (over, n, e)) ↦ rw e (fold_without_play-IsShared bt _ _ g)
      | inr (inr (c, over, s, e)) ↦ rw e (fold_play-IsShared bt c g (Reach-IsSound bt r).dealt)
    ]
