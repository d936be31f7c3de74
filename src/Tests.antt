-- ===== src/Tests.antt =====
-- Concrete values for the tests and witnesses: an instance of the `bridge-types` functions, the
-- placeholder board of src/rooms.rs, on which every seat holds one suit, and a table in play on it.
pub mod Engine
pub mod Tables
pub mod Rooms
pub mod Bots
pub mod Sessions
pub mod Seating
pub mod Messages
use bridge_table_service.Auction.{last_bid, strain_rank}
use bridge_table_service.Bridge.{
  BridgeTypes, Call, Card, Deal, Direction, FinalContract, Strain, Suit, bid, clockwise, east,
  no_trump, nobody, north, pass, south, west,
}
use bridge_table_service.Prelude.{
  List, Option, [], eqb, false, if◌then◌else◌, none, some, suc, zero, ℕ, ◌%◌, ◌&&◌, ◌++◌, ◌∷◌,
}
use bridge_table_service.Table.{Action, BoardSetup, TableState}

-- The declarer: the first caller of the side of call `i` to name the strain, by its place.
abbrev first_naming : Strain → ℕ → List Call → ℕ → ℕ
first_naming s i [] k = i
first_naming s i (bid level t ∷ cs) k =
    let rest = first_naming s i cs (suc k) in
    if eqb (strain_rank s) (strain_rank t) && eqb (i % 2) (k % 2) then k else rest
first_naming s i (_ ∷ cs) k = first_naming s i cs (suc k)

abbrev rounds : ℕ → Direction → Direction
rounds zero d = d
rounds (suc n) d = rounds n (clockwise d)

abbrev reference_contract : Direction → List Call → Option FinalContract
reference_contract dealer calls = elim (last_bid calls) [
  | none ↦ none
  | some (level, strain, i) ↦ some (record {
    level = level;
    strain = strain;
    doubled = false;
    redoubled = false;
    declarer = rounds (first_naming strain i calls 0) dealer;
  })
]

abbrev pub reference_types : BridgeTypes
reference_types = record {
  next = clockwise;
  partner = λ d. clockwise (clockwise d);
  final_contract = reference_contract;
}

abbrev pub suit_hand : Suit → ℕ → List Card
suit_hand s zero = []
suit_hand s (suc n) = record { suit = s; rank = n } ∷ suit_hand s n

abbrev pub one_suit_each : Deal
one_suit_each north = suit_hand Suit.spades 13
one_suit_each east = suit_hand Suit.hearts 13
one_suit_each south = suit_hand Suit.diamonds 13
one_suit_each west = suit_hand Suit.clubs 13

abbrev pub sample_board : BoardSetup
sample_board = record {
  number = 0;
  dealer = north;
  vulnerable = nobody;
  deal = one_suit_each;
  play_line = none;
}

abbrev pub one_no_trump : List Action
one_no_trump =
    Action.call north (bid 1 no_trump)
    ∷ Action.call east pass
    ∷ Action.call south pass
    ∷ Action.call west pass
    ∷ []

abbrev pub sample_calls : List Call
sample_calls = bid 1 no_trump ∷ pass ∷ pass ∷ pass ∷ []

abbrev pub card : Suit → ℕ → Card
card s n = record { suit = s; rank = n }

-- North plays one no trump; East has led a heart.
abbrev pub in_play : TableState
in_play = record {
  board = sample_board;
  actions = one_no_trump ++ Action.play east (card Suit.hearts 12) ∷ [];
}
