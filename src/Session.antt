-- ===== src/Session.antt =====
-- src/sessions.rs: a session, with its boards, its tables and its participants. `Err` and the panic of
-- an index out of bounds are failures.
pub mod Decks
pub mod Policy
pub mod Maps
pub mod Members
pub mod Arrivals
pub mod Place
pub mod Control
pub mod Range
pub mod Keeping
pub mod Seated
pub mod Rebound
pub mod Placed
pub mod Specific
pub mod Steps
pub mod Placing
pub mod Entries
pub mod Kicked
pub mod Present
pub mod Moved
pub mod Assigned
pub mod Orderly
pub mod Arranged
pub mod Ordered
pub mod Governed
pub mod Commanded
use bridge_table_service.Bridge.{Call, Direction}
use bridge_table_service.Prelude.{
  Bool, List, Option, Result, String, [], err, false, get_elem?, if◌then◌else◌, is_empty, length,
  min, nat_eq, none, ok, some, suc, zero, ℕ, ◌++◌, ◌+◌, ◌>>=◌, ◌>>◌, ◌∷◌,
}
use bridge_table_service.Room.{
  BoardMode, BotMode, RoomInner, Side, TakeoverGrace, bid_and_play, default_grace, fast_grace,
  new_room, rules,
}
use bridge_table_service.Table.{BoardSetup}

-- `SessionKind`
pub data SessionKind : Type 0 where
  teacher_set adhoc : SessionKind

-- `SeatPolicy`
pub data SeatPolicy : Type 0 where
  manual first_free : SeatPolicy
  one_per_seat : List Direction → SeatPolicy
  pairs : List Side → SeatPolicy

-- `Deck`
pub record Deck : Type 0 where
  pub boards : List BoardSetup
  pub label : Option String
  pub index : ℕ

-- What of a `Room` outlives a board; `id` is the number n of the id `<session>-t<n>`.
pub record SessionRoom : Type 0 where
  pub id : ℕ
  pub inner : RoomInner
  pub bba_cache : Option (List Call)
  pub bot_mode : BotMode

-- `Kibitzer`
pub record Kibitzer : Type 0 where
  pub name : String
  pub room_id : Option ℕ
  pub parked : Bool

-- `ConnMeta`
pub record ConnMeta : Type 0 where
  pub sub : String
  pub name : String
  pub connected : Bool

-- `Placement`
pub record Placement : Type 0 where
  pub room : ℕ
  pub seat : Option Direction

-- `Session`. A `HashMap` keyed by strings is an association list, in the order in which it is walked.
pub record Session : Type 0 where
  pub kind : SessionKind
  pub owner_sub : String
  pub seat_policy : SeatPolicy
  pub bot_mode : BotMode
  pub board_mode : BoardMode
  pub bots_paused : Bool
  pub deck : Deck
  pub rooms : List SessionRoom
  pub next_table_no : ℕ
  pub wait_to_seat : Bool
  pub open_boards : ℕ
  pub next_arrival : ℕ
  pub kibitzers : List (String × Kibitzer)
  pub connections : List (String × ConnMeta)

pub data Failure : Type 0 where
  no_boards_to_load out_of_bounds : Failure

-- The choice of `grace` by the kind.
unfoldable pub grace_of : SessionKind → TakeoverGrace
grace_of teacher_set = default_grace
grace_of adhoc = fast_grace

module _ (placeholder : BoardSetup) where
  -- `boards.first().cloned().unwrap_or_else(placeholder_board)`
  pub seed_of : List BoardSetup → BoardSetup
  seed_of [] = placeholder
  seed_of (b ∷ boards) = b

  -- The rooms of `Session::new`: so many, numbered from `i`.
  unfoldable pub seeded : TakeoverGrace → BoardSetup → ℕ → ℕ → List SessionRoom
  seeded grace seed i zero = []
  seeded grace seed i (suc n) =
      record { id = i; inner = new_room seed grace; bba_cache = none; bot_mode = rules }
      ∷ seeded grace seed (i + 1) n

  -- `Session::new`; the default modes are `Rules` and `BidAndPlay`.
  unfoldable pub new_session : SessionKind → String → SeatPolicy → List BoardSetup → ℕ → Session
  unfolding grace_of seed_of seeded
  new_session kind owner_sub seat_policy boards table_count = record {
    kind = kind;
    owner_sub = owner_sub;
    seat_policy = seat_policy;
    bot_mode = rules;
    board_mode = bid_and_play;
    deck = record { boards = boards; label = none; index = 0 };
    bots_paused = false;
    rooms = seeded (grace_of kind) (seed_of boards) 1 table_count;
    next_table_no = table_count;
    wait_to_seat = false;
    next_arrival = 0;
    kibitzers = [];
    connections = [];
    open_boards = elim kind [ teacher_set ↦ min (length boards) 1 | adhoc ↦ length boards ];
  }

  -- The variable `board` of `add_room`.
  pub board_for_new : Deck → Result Failure BoardSetup
  board_for_new d =
      if is_empty d.boards
      then ok placeholder
      else (elim (get_elem? d.boards d.index) [ none ↦ err out_of_bounds | some b ↦ ok b ])

  -- The new room: it takes the next number, and the modes of the session.
  pub room_for_new : Session → BoardSetup → SessionRoom
  unfolding grace_of
  room_for_new s board = record {
    id = s.next_table_no + 1;
    inner = record (new_room board (grace_of s.kind)) { board_mode = s.board_mode };
    bba_cache = none;
    bot_mode = s.bot_mode;
  }

  -- The new room, pushed.
  pub with_room : Session → SessionRoom → Session
  with_room s x = record s { rooms = s.rooms ++ x ∷ []; next_table_no = s.next_table_no + 1 }

  -- `Session::add_room`, less the notifications
  pub add_room : Session → Result Failure (Session × SessionRoom)
  unfolding board_for_new room_for_new with_room
  add_room s = do
    board ← board_for_new s.deck
    ok (with_room s (room_for_new s board), room_for_new s board)

  -- `Session::add_tables`, with the count of tables that it returns
  unfoldable pub add_tables : Session → ℕ → Result Failure (Session × ℕ)
  unfolding add_room
  add_tables s zero = ok (s, length s.rooms)
  add_tables s (suc n) = do added ← add_room s; add_tables added.0 n
