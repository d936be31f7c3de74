-- ===== src/Auction.antt =====
-- src/engine/auction.rs: whose turn it is to call, which call is legal, and when the auction is
-- over. Calls are in chronological order, as in the source; what the source reads by
-- `iter().rev()` reads `reverse calls`, and an index into `calls` is the number of calls before it.
pub mod Legal
pub mod Bids
pub mod Bounds
use mathlib.Core.Option
use bridge_table_service.Bridge.{
  BridgeTypes, Call, Direction, FinalContract, Strain, bid, blank, continue_, double, no_trump,
  pass, redouble,
}
use bridge_table_service.Prelude.{
  Bool, List, Option, [], all, eqb, false, if◌then◌else◌, leb, length, ltb, none, not, reverse,
  some, suc, take, true, zero, ℕ, ◌%◌, ◌&&◌, ◌||◌, ◌∷◌,
}

-- `strain_rank`
unfoldable pub strain_rank : Strain → ℕ
strain_rank Strain.clubs = 0
strain_rank Strain.diamonds = 1
strain_rank Strain.hearts = 2
strain_rank Strain.spades = 3
strain_rank no_trump = 4

-- `Call::is_pass`, by its name
abbrev pub is_pass : Call → Bool
is_pass pass = true
is_pass _ = false

-- `is_complete`, on the calls with the latest first.
unfoldable pub is_complete_rev : List Call → Bool
is_complete_rev r = leb 4 (length r) && all is_pass (take 3 r)

-- `is_complete`
unfoldable pub is_complete : List Call → Bool
unfolding is_complete_rev
is_complete calls = is_complete_rev (reverse calls)

-- Level, strain and index of the last bid: `last_bid`, on the calls with the latest first.
unfoldable pub last_bid_rev : List Call → Option (ℕ × Strain × ℕ)
last_bid_rev [] = none
last_bid_rev (bid level strain ∷ r) = some (level, strain, length r)
last_bid_rev (_ ∷ r) = last_bid_rev r

-- `last_bid`
unfoldable pub last_bid : List Call → Option (ℕ × Strain × ℕ)
last_bid calls = last_bid_rev (reverse calls)

pub data LastAction : Type 0 where
  a_bid a_double : LastAction

-- `last_action`, on the calls with the latest first.
pub last_action_rev : List Call → Option (ℕ × LastAction)
last_action_rev [] = none
last_action_rev (bid level strain ∷ r) = some (length r, a_bid)
last_action_rev (double ∷ r) = some (length r, a_double)
last_action_rev (redouble ∷ r) = none
last_action_rev (_ ∷ r) = last_action_rev r

-- `last_action`
pub last_action : List Call → Option (ℕ × LastAction)
last_action calls = last_action_rev (reverse calls)

-- `is_opponent`
pub is_opponent : Direction → ℕ → ℕ → Bool
is_opponent dealer current_idx target_idx = not (eqb (current_idx % 2) (target_idx % 2))

-- `(level, rank) > (last_level, last_rank)` on Rust's tuples
abbrev pub pair_gt : ℕ → ℕ → ℕ → ℕ → Bool
pair_gt level rank last_level last_rank =
    ltb last_level level || (eqb level last_level && ltb last_rank rank)

-- The `match last_bid(calls)` of `is_legal`.
unfoldable pub outbids : Option (ℕ × Strain × ℕ) → ℕ → Strain → Bool
unfolding strain_rank
outbids none level strain = true
outbids (some (last_level, last_strain, i)) level strain =
    pair_gt level (strain_rank strain) last_level (strain_rank last_strain)

-- The arm of `is_legal` for a bid.
unfoldable pub bid_is_legal : List Call → ℕ → Strain → Bool
bid_is_legal r level strain =
    if leb 1 level && leb level 7 then outbids (last_bid_rev r) level strain else false

-- The arm for a double.
pub double_is_legal : Direction → List Call → Bool
double_is_legal dealer r = elim (last_action_rev r) [
  | none ↦ false
  | some (idx, kind) ↦ elim kind [ a_bid ↦ is_opponent dealer (length r) idx | a_double ↦ false ]
]

-- The arm for a redouble.
pub redouble_is_legal : Direction → List Call → Bool
redouble_is_legal dealer r = elim (last_action_rev r) [
  | none ↦ false
  | some (idx, kind) ↦ elim kind [ a_bid ↦ false | a_double ↦ is_opponent dealer (length r) idx ]
]

-- The `match call` of `is_legal`.
unfoldable pub call_is_legal : Direction → List Call → Call → Bool
call_is_legal dealer r pass = true
call_is_legal dealer r (bid level strain) = bid_is_legal r level strain
call_is_legal dealer r double = double_is_legal dealer r
call_is_legal dealer r redouble = redouble_is_legal dealer r
call_is_legal dealer r continue_ = false
call_is_legal dealer r blank = false

-- `is_legal`
unfoldable pub is_legal : Direction → List Call → Call → Bool
unfolding is_complete
is_legal dealer calls call =
    if is_complete calls then false else call_is_legal dealer (reverse calls) call

-- `ContractOutcome`
pub record ContractOutcome : Type 0 where
  pub level : ℕ
  pub strain : Strain
  pub doubled : Bool
  pub redoubled : Bool
  pub declarer : Direction

-- `.map(|fc| ContractOutcome { .. })`
unfoldable pub outcome_of : FinalContract → ContractOutcome
outcome_of fc = record {
  level = fc.level;
  strain = fc.strain;
  doubled = fc.doubled;
  redoubled = fc.redoubled;
  declarer = fc.declarer;
}

module _ (bt : BridgeTypes) where
  -- The loop of `caller_at`.
  unfoldable pub turns : ℕ → Direction → Direction
  turns zero d = d
  turns (suc n) d = turns n (bt.next d)

  -- `caller_at`
  unfoldable pub caller_at : Direction → ℕ → Direction
  unfolding turns
  caller_at dealer index = turns (index % 4) dealer

  -- `next_caller`
  unfoldable pub next_caller : Direction → List Call → Direction
  next_caller dealer calls = caller_at dealer (length calls)

  -- `contract`
  unfoldable pub contract : Direction → List Call → Option ContractOutcome
  contract dealer calls =
      if is_complete calls then Option.map outcome_of (bt.final_contract dealer calls) else none

  -- `ContractOutcome::opening_leader`
  unfoldable pub opening_leader : ContractOutcome → Direction
  opening_leader c = bt.next c.declarer

  -- `ContractOutcome::dummy`
  unfoldable pub dummy : ContractOutcome → Direction
  dummy c = bt.partner c.declarer
