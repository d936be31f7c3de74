-- ===== src/Table/Claims.antt =====
-- What an accepted claim does to the result (src/table.rs, `fold` and `apply`).
use bridge_table_service.Auction.{ContractOutcome, contract, is_complete}
use bridge_table_service.Bridge.{BridgeTypes, Direction}
use bridge_table_service.Prelude.{
  Bool, Bool-cases, add_u8, ap, arith, as_u8, if◌then◌else◌, inl, inr, length, min, none, ok, refl,
  some, sub_u8, subst, sym, true, ℕ, ◌+◌, ◌-◌, ◌∙◌, ◌≡◌, ◌≤◌,
}
use bridge_table_service.Table.{
  Action, BoardSetup, Folded, Phase, TableState, phase_beq_iff, tricks_left,
}
use bridge_table_service.Table.Apply.{apply, push}
use bridge_table_service.Table.Bounds.{Reach-IsSound}
use bridge_table_service.Table.Cases.{check-claim, fold_gathered-play, fold_lem, gather-snoc}
use bridge_table_service.Table.Fold.{
  Gathered, RawClaim, Tally, fold, fold_gathered, fold_play, gather, gather_one, is_ns, play_done,
  settle_claim, settled, tally,
}
use bridge_table_service.Table.Log.{Reach, apply-ok}
use bridge_table_service.Table.Shares.{settled-none}
use bridge_table_service.Table.Tricks.{tally-Counts}

-- The tricks of the side of `seat`.
pub side_tricks : Direction → Folded → ℕ
side_tricks seat f = if is_ns seat then f.tricks_ns else f.tricks_ew

pub other_tricks : Direction → Folded → ℕ
other_tricks seat f = if is_ns seat then f.tricks_ew else f.tricks_ns

settle_claim-shares :
    (bt : BridgeTypes) (y : Tally) (seat : Direction) (tricks : ℕ) (ruling : Bool) (at_card : ℕ)
    → length y.completed ≤ 13
    → y.ns + y.ew ≡ length y.completed
    → tricks ≤ 13 - length y.completed
    → let (ns, ew, r) = settled bt y (some (seat, tricks, ruling, at_card)) in
      ((if is_ns seat then ns else ew) ≡ (if is_ns seat then y.ns else y.ew) + tricks)
      × ((if is_ns seat then ew else ns)
          ≡ (if is_ns seat then y.ew else y.ns) + (13 - length y.completed - tricks))
      × (r
          ≡ some (record {
            seat = seat;
            tricks = tricks;
            ruling = ruling;
            at_trick = length y.completed + 1;
            at_card = at_card;
          }))
unfolding settled settle_claim add_u8 sub_u8 as_u8
settle_claim-shares bt y seat tricks ruling at_card le total fits =
    let n = length y.completed in
    let left : sub_u8 13 (as_u8 n) ≡ 13 - n = omega arith in
    let all : min tricks (sub_u8 13 (as_u8 n)) ≡ tricks = omega (arith, left) in
    elim (Bool-cases (is_ns seat)) [
      | inl e ↦ rw e (omega arith, omega arith, rw all)
      | inr e ↦ rw e (omega arith, omega arith, rw all)
    ]

-- How a claim of `tricks` by `seat` turns the fold `f` into the fold `f'`: the play is over, nobody is
-- on turn, the claimer's side gets the tricks claimed and the other side the rest of those left, the
-- claim is on record with its place in the play, and the cards played stay as they were.
pub record Ended (seat : Direction) (tricks : ℕ) (ruling : Bool) (f f' : Folded) : Type 0 where
  pub over : f'.phase ≡ Phase.complete
  pub nobody : f'.next_to_act ≡ none
  pub own : side_tricks seat f' ≡ side_tricks seat f + tricks
  pub others : other_tricks seat f' ≡ other_tricks seat f + (tricks_left f - tricks)
  pub same_play : f'.played ≡ f.played
  pub recorded :
      f'.claimed
      ≡ some (record {
        seat = seat;
        tricks = tricks;
        ruling = ruling;
        at_trick = length f.completed_tricks + 1;
        at_card = length f.played;
      })

-- While the play goes on, the tricks left are those of the thirteen that are not completed.
pub tricks_left-play :
    (f : Folded)
    → f.phase ≡ Phase.play
    → length f.completed_tricks ≤ 13
    → tricks_left f ≡ 13 - length f.completed_tricks
unfolding tricks_left sub_u8 as_u8
tricks_left-play f h le = ground (arith, phase_beq_iff f.phase Phase.complete)

fold_gathered-contract :
    (bt : BridgeTypes) (dealer : Direction) (g : Gathered) (c : ContractOutcome)
    → is_complete g.calls ≡ true
    → contract bt dealer g.calls ≡ some c
    → fold_gathered bt dealer g ≡ fold_play bt c g
unfolding fold_gathered
fold_gathered-contract bt dealer g c over e = rw (over, e)

module _ (bt : BridgeTypes) (c : ContractOutcome) (g : Gathered) (unclaimed : g.raw ≡ none) where
  abbrev with_claim : RawClaim → Gathered
  with_claim r = record g { raw = some r }

  fold_play-Ended :
      (seat : Direction) (tricks : ℕ) (ruling : Bool)
      → length g.played ≤ 52
      → (fold_play bt c g).phase ≡ Phase.play
      → tricks ≤ tricks_left (fold_play bt c g)
      → Ended seat tricks ruling
          (fold_play bt c g)
          (fold_play bt c (with_claim (seat, tricks, ruling, length g.played)))
  unfolding fold_play play_done side_tricks other_tricks
  fold_play-Ended seat tricks ruling dealt playing fits =
      let y = tally bt c g.played in
      let k = tally-Counts bt c g.played in
      let still : settled bt y g.raw ≡ (y.ns, y.ew, none) = rw unclaimed (settled-none y bt) in
      let few : length y.completed ≤ 13 = omega (arith, k.grouped) in
      let left : tricks_left (fold_play bt c g) ≡ 13 - length y.completed =
        tricks_left-play _ playing few in
      let (own, others, rec) =
        settle_claim-shares bt y seat tricks ruling (length g.played) few (k.shared dealt)
          (omega arith) in
      record {
        over = ground arith;
        nobody = ground arith;
        own = rw still own;
        others = rw (left, still) others;
        same_play = refl;
        recorded = rec;
      }

-- An accepted claim ends the play with the tricks shared as claimed.
pub apply-claim :
    (bt : BridgeTypes) {board : BoardSetup} {t : TableState} (seat : Direction) (tricks : ℕ)
    (ruling : Bool) {t' : TableState} {n : ℕ}
    → Reach bt board t
    → apply bt t (Action.claim seat tricks ruling) ≡ ok (t', n)
    → Ended seat tricks ruling (fold bt t) (fold bt t')
unfolding push gather_one
apply-claim bt {t = t} seat tricks ruling {t' = t'} r h =
    let (done, e, _) = apply-ok bt t _ h in
    let (playing, fits) = check-claim t (fold bt t) seat tricks ruling done in
    let g = gather t.actions in
    let dealer = t.board.dealer in
    let (c, over, named, same, _, unclaimed) =
      fold_gathered-play bt dealer g
        (ap (λ (f : Folded). f.phase) (sym (fold_lem bt t)) ∙ playing) in
    let before : fold bt t ≡ fold_play bt c g = fold_lem bt t ∙ same in
    let after : fold bt t'
        ≡ fold_play bt c (record g { raw = some (seat, tricks, ruling, length g.played) }) =
      ap (fold bt) e
      ∙ fold_lem bt (push t (Action.claim seat tricks ruling))
      ∙ ap (fold_gathered bt dealer) (gather-snoc t.actions (Action.claim seat tricks ruling))
      ∙ fold_gathered-contract bt dealer
          (record g { raw = some (seat, tricks, ruling, length g.played) }) c over named in
    let s = Reach-IsSound bt r in
    rw (before, after)
      (fold_play-Ended bt c g unclaimed seat tricks ruling (omega (arith, s.dealt))
        (ap (λ (f : Folded). f.phase) (sym before) ∙ playing)
        (subst (λ f. tricks ≤ tricks_left f) before fits))
