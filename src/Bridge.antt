-- ===== src/Bridge.antt =====
-- The vocabulary that the service takes from the `bridge-types` crate, which is not part of this
-- repository. The enums are those that the service matches on exhaustively, with the names that it
-- uses; a rank stands for its place in the crate's derived order. The crate's functions are the
-- fields of `BridgeTypes`.
use bridge_table_service.Prelude.{
  Bool, List, Option, PartialEq, [], arith, eqb, false, true, ℕ, ◌&&◌, ◌↔◌, ◌∷◌, ◌≡◌,
}

-- `bridge_types::Direction`
pub data Direction : Type 0 where
  north east south west : Direction

-- `bridge_types::Suit`
pub data Suit : Type 0 where
  clubs diamonds hearts spades : Suit

-- `bridge_types::Strain`
pub data Strain : Type 0 where
  clubs diamonds hearts spades no_trump : Strain

-- `bridge_types::Vulnerability`
pub data Vulnerability : Type 0 where
  nobody north_south east_west both : Vulnerability

-- `bridge_types::Card`
pub record Card : Type 0 where
  pub suit : Suit
  pub rank : ℕ

-- `bridge_types::Call`
pub data Call : Type 0 where
  pass double redouble continue_ blank : Call
  bid : ℕ → Strain → Call

-- What `Auction::final_contract` returns.
pub record FinalContract : Type 0 where
  pub level : ℕ
  pub strain : Strain
  pub doubled : Bool
  pub redoubled : Bool
  pub declarer : Direction

-- `Deal`: the service reads only `deal.hand(seat).cards()`.
abbrev pub Deal : Type 0
Deal = Direction → List Card

-- The functions of the crate that the service calls.
pub record BridgeTypes : Type 0 where
  -- `Direction::next`
  pub next : Direction → Direction
  -- `Direction::partner`
  pub partner : Direction → Direction
  -- `Auction::new(dealer)`, `add_call` for each call, `final_contract()`
  pub final_contract : Direction → List Call → Option FinalContract

-- Clockwise round the table.
abbrev pub clockwise : Direction → Direction
clockwise north = east
clockwise east = south
clockwise south = west
clockwise west = north

abbrev direction_index : Direction → ℕ
direction_index north = 0
direction_index east = 1
direction_index south = 2
direction_index west = 3

abbrev suit_index : Suit → ℕ
suit_index clubs = 0
suit_index diamonds = 1
suit_index hearts = 2
suit_index spades = 3

abbrev strain_index : Strain → ℕ
strain_index clubs = 0
strain_index diamonds = 1
strain_index hearts = 2
strain_index spades = 3
strain_index no_trump = 4

unfoldable pub direction_beq : Direction → Direction → Bool
direction_beq a b = eqb (direction_index a) (direction_index b)

pub direction_beq_iff : (a b : Direction) → (direction_beq a b ≡ true) ↔ (a ≡ b)
unfolding direction_beq
direction_beq_iff a b = ground arith

unfoldable pub suit_beq : Suit → Suit → Bool
suit_beq a b = eqb (suit_index a) (suit_index b)

pub suit_beq_iff : (a b : Suit) → (suit_beq a b ≡ true) ↔ (a ≡ b)
unfolding suit_beq
suit_beq_iff a b = ground arith

abbrev strain_beq : Strain → Strain → Bool
strain_beq a b = eqb (strain_index a) (strain_index b)

unfoldable pub card_beq : Card → Card → Bool
unfolding suit_beq
card_beq a b = suit_beq a.suit b.suit && eqb a.rank b.rank

pub card_beq_iff : (a b : Card) → (card_beq a b ≡ true) ↔ (a ≡ b)
unfolding card_beq
card_beq_iff a b = ground arith

pub call_beq : Call → Call → Bool
call_beq pass pass = true
call_beq double double = true
call_beq redouble redouble = true
call_beq continue_ continue_ = true
call_beq blank blank = true
call_beq (bid n s) (bid m t) = eqb n m && strain_beq s t
call_beq _ _ = false

pub call_beq_iff : (a b : Call) → (call_beq a b ≡ true) ↔ (a ≡ b)
unfolding call_beq
call_beq_iff a b = ground arith

instance abbrev pub direction_eq : PartialEq Direction
direction_eq = record { same = direction_beq; beq_iff = direction_beq_iff }

instance abbrev pub suit_eq : PartialEq Suit
suit_eq = record { same = suit_beq; beq_iff = suit_beq_iff }

instance abbrev pub card_eq : PartialEq Card
card_eq = record { same = card_beq; beq_iff = card_beq_iff }

instance abbrev pub call_eq : PartialEq Call
call_eq = record { same = call_beq; beq_iff = call_beq_iff }

-- `Direction::ALL`
abbrev pub all_directions : List Direction
all_directions = north ∷ east ∷ south ∷ west ∷ []
