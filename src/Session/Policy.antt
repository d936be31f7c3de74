-- ===== src/Session/Policy.antt =====
-- Kinds of session, seat policies and the boards of a PBN text (src/sessions.rs): what is parsed. A
-- JSON value and a PBN text are read by crates, whose functions are parameters.
use bridge_table_service.Bridge.{Deal, Direction, Vulnerability, east, north, south, west}
use bridge_table_service.Prelude.{
  Bool, List, Option, Result, String, [], collect, err, expect, guard, if◌then◌else◌, is_empty,
  nat_eq, none, not, ok, some, string_eq, unwrap_or, ℕ, ◌%◌, ◌+◌, ◌-◌, ◌==◌, ◌>>=◌, ◌>>◌, ◌^◌, ◌∷◌,
}
use bridge_table_service.Room.{Side}
use bridge_table_service.Session.{
  SeatPolicy, SessionKind, adhoc, first_free, manual, one_per_seat, pairs, teacher_set,
}
use bridge_table_service.Table.{BoardSetup}
use bridge_table_service.Table.Line.{RecordedTrick, from_sequence}

-- The functions of `serde_json::Value` that the service calls on a value.
pub record Json (V : Type 0) : Type 0 where
  pub is_null : V → Bool
  -- `v["key"]`
  pub member : V → String → V
  pub as_str : V → Option String
  pub as_array : V → Option (List V)
  pub as_u64 : V → Option ℕ
  pub as_bool : V → Option Bool

-- The errors of `SessionKind::parse` and `SeatPolicy::from_value`.
pub data PolicyError (V : Type 0) : Type 0 where
  seats_required no_seats sides_required no_sides : PolicyError V
  bad_seat bad_side : V → PolicyError V
  unknown_pattern unknown_mode : String → PolicyError V

-- `SessionKind::parse`
pub parse_kind : String → Option SessionKind
parse_kind s =
    if s == "teacher_set" then some teacher_set else if s == "adhoc" then some adhoc else none

-- `Side::seats`
unfoldable pub seats_of_side : Side → List Direction
seats_of_side Side.ns = south ∷ north ∷ []
seats_of_side Side.ew = west ∷ east ∷ []

-- `Side::from_key`
unfoldable pub side_of_key : String → Option Side
side_of_key key = if key == "NS" then some Side.ns else if key == "EW" then some Side.ew else none

-- `Side::key`
unfoldable pub side_key : Side → String
side_key Side.ns = "NS"
side_key Side.ew = "EW"

-- `SeatPolicy::from_key`
unfoldable pub policy_of_key : String → Option SeatPolicy
policy_of_key key =
    if key == "first_free"
    then some first_free
    else if key == "one_per_south"
    then some (one_per_seat (south ∷ []))
    else if key == "two_per_ns"
    then some (one_per_seat (south ∷ north ∷ []))
    else if key == "pairs_ns"
    then some (pairs (Side.ns ∷ []))
    else if key == "manual"
    then some manual
    else none

-- `SeatPolicy::key`
pub policy_key : SeatPolicy → String
policy_key first_free = "first_free"
policy_key manual = "manual"
policy_key (one_per_seat (south ∷ [])) = "one_per_south"
policy_key (one_per_seat (south ∷ north ∷ [])) = "two_per_ns"
policy_key (pairs (Side.ns ∷ [])) = "pairs_ns"
policy_key _ = "custom"

module _ {V : Type 0} (json : Json V) (first_direction : String → Option Direction) where
  -- The closure on an element of `seats`; `first_direction` is the crate's reading of the first character.
  pub parse_seat : V → Result (PolicyError V) Direction
  parse_seat v = elim (json.as_str v) [
    | none ↦ err (bad_seat v)
    | some s ↦ (elim (first_direction s) [ none ↦ err (bad_seat v) | some d ↦ ok d ])
  ]

  -- The closure on an element of `sides`.
  pub parse_side : V → Result (PolicyError V) Side
  unfolding side_of_key
  parse_side v = elim (json.as_str v) [
    | none ↦ err (bad_side v)
    | some s ↦ (elim (side_of_key s) [ none ↦ err (bad_side v) | some side ↦ ok side ])
  ]

  -- The arm for `one_per_seat`.
  pub parse_seats : V → Result (PolicyError V) SeatPolicy
  unfolding parse_seat
  parse_seats v = do
    listed ← expect (json.as_array (json.member v "seats")) seats_required
    seats ← collect parse_seat listed
    guard (not (is_empty seats)) no_seats
    ok (one_per_seat seats)

  -- The arm for `pairs`.
  pub parse_sides : V → Result (PolicyError V) SeatPolicy
  unfolding parse_side
  parse_sides v = do
    listed ← expect (json.as_array (json.member v "sides")) sides_required
    sides ← collect parse_side listed
    guard (not (is_empty sides)) no_sides
    ok (pairs sides)

  -- The arm for `auto`, by the pattern.
  pub parse_pattern : V → String → Result (PolicyError V) SeatPolicy
  unfolding parse_seats parse_sides
  parse_pattern v pattern_ =
      if pattern_ == "first_free"
      then ok first_free
      else if pattern_ == "one_per_seat"
      then parse_seats v
      else if pattern_ == "pairs"
      then parse_sides v
      else err (unknown_pattern pattern_)

  -- `SeatPolicy::from_value`
  pub parse_policy : V → Result (PolicyError V) SeatPolicy
  unfolding parse_pattern
  parse_policy v =
      let mode = unwrap_or "auto" (json.as_str (json.member v "mode")) in
      if json.is_null v
      then ok first_free
      else if mode == "manual"
      then ok manual
      else if mode == "auto"
      then parse_pattern v (unwrap_or "first_free" (json.as_str (json.member v "pattern")))
      else err (unknown_mode mode)

-- `standard_dealer`, on a `u32`
pub standard_dealer : ℕ → Direction
standard_dealer n =
    let turn = (n + (2 ^ 32 - 1)) % 2 ^ 32 % 4 in
    if turn == 0 then north else if turn == 1 then east else if turn == 2 then south else west

-- What `read_pbn` gives for a board, and `deal.total_cards()`.
pub record PbnBoard : Type 0 where
  pub number : Option ℕ
  pub dealer : Option Direction
  pub vulnerable : Vulnerability
  pub deal : Deal
  pub total_cards : ℕ
  pub play : Option (List RecordedTrick)

-- The errors of `parse_boards`.
pub data BoardsError : Type 0 where
  bad_pbn no_boards : BoardsError
  wrong_size : ℕ → ℕ → BoardsError

-- A round of the loop of `parse_boards`, on the board of index `i`; `i as u32` wraps.
pub board_of_pbn : ℕ → PbnBoard → BoardSetup
unfolding standard_dealer
board_of_pbn i b =
    let number = unwrap_or ((i % 2 ^ 32 + 1) % 2 ^ 32) b.number in
    record {
      number = number;
      dealer = unwrap_or (standard_dealer number) b.dealer;
      vulnerable = b.vulnerable;
      deal = b.deal;
      play_line = from_sequence b.play;
    }

-- The loop of `parse_boards`, from the board of index `i`.
pub collect_boards : ℕ → List PbnBoard → Result BoardsError (List BoardSetup)
unfolding board_of_pbn
collect_boards i [] = ok []
collect_boards i (b ∷ boards) = do
  guard (b.total_cards == 52) (wrong_size (i + 1) b.total_cards)
  rest ← collect_boards (i + 1) boards
  ok (board_of_pbn i b ∷ rest)

-- `parse_boards`, on what `read_pbn` gave; `none` stands for its error.
unfoldable pub parse_boards : Option (List PbnBoard) → Result BoardsError (List BoardSetup)
unfolding collect_boards
parse_boards read = do
  boards ← expect read bad_pbn
  out ← collect_boards 0 boards
  guard (not (is_empty out)) no_boards
  ok out
