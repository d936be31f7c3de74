-- ===== src/Claim/Made.antt =====
-- What a claim that was made has gone through (src/claims.rs, `make_claim`).
use bridge_table_service.Auction.{ContractOutcome}
use bridge_table_service.Bridge.{BridgeTypes}
use bridge_table_service.Claim.{
  ClaimRefused, ClaimRequest, SolverAnswer, SolverRequest, after_check, before_check, check_claim,
  judge, judged, make_claim, moved_on, not_json, panicked, refused_by_apply, response, solver_error,
  solver_request, what_to_ask,
}
use bridge_table_service.Prelude.{
  Bool, Bool-cases, Option, Option-cases, Path, Result, Result-cases, ap, arith, bind-ok, err,
  false, first, inl, inr, length, nat_eq, none, ok, refl, some, string_eq, subst, sym, true, ℕ,
  ◌==◌, ◌∙◌, ◌≡◌, ◌⊎◌,
}
use bridge_table_service.Room.{RoomInner, is_bid_only}
use bridge_table_service.Table.{Action, BoardSetup}
use bridge_table_service.Table.Apply.{apply, push}
use bridge_table_service.Table.Claims.{Ended, apply-claim}
use bridge_table_service.Table.Fold.{fold}
use bridge_table_service.Table.Log.{Reach, apply-ok}

-- A claim was made: `first` is the room when it was checked, `second` the room when it was applied, `made`
-- the room afterwards.
pub record IsMade (bt : BridgeTypes) (solve : SolverRequest → SolverAnswer) (verify : Bool)
    (first second made : RoomInner) (req : ClaimRequest) : Type 0 where
  pub with_cardplay : is_bid_only first.board_mode ≡ false
  pub seen_first : length (fold bt first.table).played ≡ req.plays_seen
  pub seen_second : length (fold bt second.table).played ≡ req.plays_seen
  pub is_judged :
      (req.ruling ≡ true)
      ⊎ (verify ≡ false)
      ⊎ ((c : ContractOutcome) × ((fold bt first.table).outcome ≡ some c)
          × (solve (solver_request bt first.table (fold bt first.table) c req)
              ≡ response (some "valid")))
  pub changed :
      made
      ≡ record second { table = push second.table (Action.claim req.seat req.tricks req.ruling) }
  pub ended : Ended req.seat req.tricks req.ruling (fold bt second.table) (fold bt made.table)

module _ (bt : BridgeTypes) (solve : SolverRequest → SolverAnswer) (verify : Bool) where
  before_check-ok :
      (r : RoomInner) (req : ClaimRequest) (q : Option SolverRequest)
      → before_check bt verify r req ≡ ok q
      → (is_bid_only r.board_mode ≡ false)
        × (length (fold bt r.table).played ≡ req.plays_seen)
        × (what_to_ask bt verify r.table (fold bt r.table) req ≡ ok q)
  unfolding before_check
  before_check-ok r req q h = ground arith

  judged-valid :
      (a : SolverAnswer) → judged bt (check_claim a) ≡ ok tt → a ≡ response (some "valid")
  unfolding judged check_claim
  judged-valid (response (some verdict)) h =
      ap (λ v. response (some v)) ((string_eq.beq_iff verdict "valid").0 (ground arith))
  judged-valid (response none) h = absurd (ground arith)
  judged-valid not_json h = absurd (cc)
  judged-valid (solver_error text) h = absurd (cc)
  judged-valid panicked h = absurd (cc)

  judged-ok :
      (r : RoomInner) (req : ClaimRequest) (q : Option SolverRequest)
      → what_to_ask bt verify r.table (fold bt r.table) req ≡ ok q
      → judge bt solve q ≡ ok tt
      → (req.ruling ≡ true)
        ⊎ (verify ≡ false)
        ⊎ ((c : ContractOutcome) × ((fold bt r.table).outcome ≡ some c)
            × (solve (solver_request bt r.table (fold bt r.table) c req) ≡ response (some "valid")))
  unfolding what_to_ask judge judged
  judged-ok r req q asked said = elim (Bool-cases req.ruling) [
    | inl ruled ↦ inl ruled
    | inr own ↦ elim (Bool-cases verify) [
      | inr off ↦ inr (inl off)
      | inl on ↦ elim (Option-cases (fold bt r.table).outcome) [
        | inl e ↦ absurd (ground arith)
        | inr (c, e) ↦
            (let request = solver_request bt r.table (fold bt r.table) c req in
              let same : some request ≡ q = ground arith in
              let valid : judged bt (check_claim (solve request)) ≡ ok tt =
                subst (λ x. judge bt solve x ≡ ok tt) (sym same) said in
              inr (inr (c, e, judged-valid (solve request) valid)))
      ]
    ]
  ]

  pub after_check-ok :
      (r : RoomInner) (req : ClaimRequest) (made : RoomInner) (n : ℕ)
      → after_check bt r req ≡ ok (made, n)
      → (length (fold bt r.table).played ≡ req.plays_seen)
        × (apply bt r.table (Action.claim req.seat req.tricks req.ruling) ≡ ok (made.table, n))
        × (made ≡ record r { table = made.table })
  unfolding after_check
  after_check-ok r req made n h =
      elim (Bool-cases (length (fold bt r.table).played == req.plays_seen)) [
        | inr moved ↦
            (let h' : Path (Result ClaimRefused (RoomInner × ℕ)) (err moved_on) (ok (made, n)) =
                rw (after_check, moved) at h in
              absurd (cc))
        | inl same ↦
            elim (Result-cases (apply bt r.table (Action.claim req.seat req.tricks req.ruling))) [
              | inr (e, bad) ↦
                  (let h' : Path (Result ClaimRefused (RoomInner × ℕ)) (err (refused_by_apply e))
                        (ok (made, n)) =
                      rw (after_check, same, bad) at h in
                    absurd (cc))
              | inl ((t, m), good) ↦
                  (let h' : Path (Result ClaimRefused (RoomInner × ℕ))
                        (ok (record r { table = t }, m)) (ok (made, n)) =
                      rw (after_check, same, good) at h in
                    let room : record r { table = t } ≡ made = ground (arith, h') in
                    let count : m ≡ n = ground (arith, h') in
                    (
                      ground arith,
                      subst
                          (λ (x : RoomInner).
                            apply bt r.table (Action.claim req.seat req.tricks req.ruling)
                            ≡ ok (x.table, n))
                          room
                          (subst
                            (λ x.
                              apply bt r.table (Action.claim req.seat req.tricks req.ruling)
                              ≡ ok (t, x))
                            count good),
                      subst (λ (x : RoomInner). x ≡ record r { table = x.table }) room refl,
                    ))
            ]
      ]

  -- A claim that is made on a table that the calls reach was checked on a board with cardplay, at the number of cards that the client saw,
  -- and that number of cards was played when it was applied. It is a ruling, or verification is off, or
  -- the solver said `valid` of it at the first lock. All that changes of the room is that the claim is
  -- added to the table, which ends the play with the tricks shared as claimed.
  pub make_claim-IsMade :
      {board : BoardSetup} (first second made : RoomInner) (req : ClaimRequest) (n : ℕ)
      → Reach bt board second.table
      → make_claim bt solve verify first second req ≡ ok (made, n)
      → IsMade bt solve verify first second made req
  unfolding make_claim
  make_claim-IsMade first second made req n reached h =
      let (q, before, rest) = bind-ok (before_check bt verify first req) _ (made, n) h in
      let (_, said, after) = bind-ok (judge bt solve q) _ (made, n) rest in
      let (cardplay, seen, asked) = before_check-ok first req q before in
      let (seen', applied', changed) = after_check-ok second req made n after in
      let (_, pushed, _) = apply-ok bt second.table _ applied' in
      record {
        with_cardplay = cardplay;
        seen_first = seen;
        seen_second = seen';
        is_judged = judged-ok first req q asked said;
        changed = changed ∙ ap (λ t. record second { table = t }) pushed;
        ended = apply-claim bt req.seat req.tricks req.ruling reached applied';
      }
