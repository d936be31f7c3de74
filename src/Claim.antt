-- ===== src/Claim.antt =====
-- src/claims.rs: a claim is checked under the lock, judged without it, and applied under the lock again.
-- `bridge_solver` is not part of this repository: what it answers is a parameter. The events
-- that are broadcast are not modelled.
pub mod Made
use bridge_table_service.Auction.{ContractOutcome, opening_leader}
use bridge_table_service.Bridge.{BridgeTypes, Card, Deal, Direction, Strain}
use bridge_table_service.Prelude.{
  Bool, List, Option, Result, String, add_u8, err, false, first, guard, if◌then◌else◌, leb, length,
  map, nat_eq, none, not, ok, some, string_eq, true, unwrap_or, ℕ, ◌==◌, ◌>>=◌, ◌>>◌, ◌||◌,
}
use bridge_table_service.Room.{RoomInner, is_bid_only}
use bridge_table_service.Table.{Action, Folded, Phase, TableState, phase_eq, tricks_left}
use bridge_table_service.Table.Apply.{Refusal, apply}
use bridge_table_service.Table.Fold.{fold, is_ns}

-- `ClaimRequest`
pub record ClaimRequest : Type 0 where
  pub seat : Direction
  pub tricks : ℕ
  pub plays_seen : ℕ
  pub ruling : Bool

-- `ClaimRefused`, by its code; what `apply` refused is kept.
pub data ClaimRefused : Type 0 where
  bid_only_board not_in_play_now claim_stale moved_on no_contract check_failed checker_failed :
      ClaimRefused
  too_many : ℕ → ℕ → ClaimRefused
  claim_rejected : String → ClaimRefused
  refused_by_apply : Refusal → ClaimRefused

-- The request to the solver; the deal and the cards stand as they are, not printed.
pub record SolverRequest : Type 0 where
  pub deal : Deal
  pub trump : Strain
  pub declarer : Direction
  pub leader : Direction
  pub plays : List Card
  pub claimer : Direction
  pub total_tricks : ℕ

-- What comes of `bridge_solver::json_api::check_claim` on a blocking thread: JSON, with its `verdict` if
-- that is a text, a text that is no JSON, an error, or a panic.
pub data SolverAnswer : Type 0 where
  response : Option String → SolverAnswer
  not_json panicked : SolverAnswer
  solver_error : String → SolverAnswer

-- `check_claim`, on what the solver answers
pub check_claim : SolverAnswer → Result ClaimRefused String
check_claim (response verdict) = ok (unwrap_or "undecided" verdict)
check_claim not_json = err check_failed
check_claim (solver_error text) = err check_failed
check_claim panicked = err checker_failed

module _ (bt : BridgeTypes) where
  -- The `json!` of the request; `u8` addition.
  unfoldable pub solver_request :
      TableState → Folded → ContractOutcome → ClaimRequest → SolverRequest
  solver_request t f c req = record {
    deal = t.board.deal;
    trump = c.strain;
    declarer = c.declarer;
    leader = opening_leader bt c;
    plays = map (λ (s, card). card) f.played;
    claimer = req.seat;
    total_tricks = add_u8 (if is_ns req.seat then f.tricks_ns else f.tricks_ew) req.tricks;
  }

  -- The last `if` of the first block.
  unfoldable pub what_to_ask :
      Bool → TableState → Folded → ClaimRequest → Result ClaimRefused (Option SolverRequest)
  unfolding solver_request
  what_to_ask verify t f req = if req.ruling || not verify then ok none else (elim f.outcome [
    | none ↦ err no_contract
    | some c ↦ ok (some (solver_request t f c req))
  ])

  -- The first block of `make_claim`, under the lock.
  unfoldable pub before_check :
      Bool → RoomInner → ClaimRequest → Result ClaimRefused (Option SolverRequest)
  unfolding is_bid_only what_to_ask
  before_check verify r req =
      let f = fold bt r.table in
      do
        guard (not (is_bid_only r.board_mode)) bid_only_board
        guard (f.phase == Phase.play) not_in_play_now
        guard (req.plays_seen == length f.played) claim_stale
        guard (leb req.tricks (tricks_left f)) (too_many req.tricks (tricks_left f))
        what_to_ask verify r.table f req

  -- `if verdict != "valid"`
  unfoldable pub judged : Result ClaimRefused String → Result ClaimRefused (Unit {0})
  judged (err e) = err e
  judged (ok verdict) = guard (verdict == "valid") (claim_rejected verdict)

  -- The middle of `make_claim`, without the lock.
  unfoldable pub judge :
      (SolverRequest → SolverAnswer) → Option SolverRequest → Result ClaimRefused (Unit {0})
  unfolding judged check_claim
  judge solve none = ok tt
  judge solve (some request) = judged (check_claim (solve request))

  -- The end of `make_claim`, on the room as it is when the lock is taken again.
  unfoldable pub after_check : RoomInner → ClaimRequest → Result ClaimRefused (RoomInner × ℕ)
  after_check r req = elim (length (fold bt r.table).played == req.plays_seen) [
    | false ↦ err moved_on
    | true ↦ elim (apply bt r.table (Action.claim req.seat req.tricks req.ruling)) [
      | err e ↦ err (refused_by_apply e)
      | ok (t, n) ↦ ok (record r { table = t }, n)
    ]
  ]

  -- `make_claim`, whose rooms under the first and the second lock are `first` and `second`.
  unfoldable pub make_claim :
      (SolverRequest → SolverAnswer)
      → Bool
      → RoomInner
      → RoomInner
      → ClaimRequest
      → Result ClaimRefused (RoomInner × ℕ)
  unfolding before_check judge after_check
  make_claim solve verify first second req = do
    request ← before_check verify first req
    judge solve request
    after_check second req
