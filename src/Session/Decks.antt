-- ===== src/Session/Decks.antt =====
-- The board set of a session, the pointer into it, and the modes of the tables (src/sessions.rs).
-- `Session::set_board_mode`
use bridge_table_service.Prelude.{
  Bool, List, Option, Result, String, err, false, get_elem?, guard, if◌then◌else◌, is_empty, length,
  map, max, min, nat_eq, none, not, ok, some, true, ℕ, ◌+◌, ◌-◌, ◌==◌, ◌>>=◌, ◌>>◌,
}
use bridge_table_service.Room.{BoardMode}
use bridge_table_service.Session.{Failure, Session, SessionRoom, no_boards_to_load, out_of_bounds}
use bridge_table_service.Table.{BoardSetup, new_table}

unfoldable pub set_board_mode : Session → BoardMode → Session
set_board_mode s mode = record s {
  board_mode = mode;
  rooms =
      map (λ (x : SessionRoom). record x { inner = record x.inner { board_mode = mode } }) s.rooms;
}

-- `Session::open_boards_to`, with the count that it returns
unfoldable pub open_boards_to : Session → ℕ → Session × ℕ
open_boards_to s count =
    let clamped = min count (length s.deck.boards) in
    (record s { open_boards = max s.open_boards clamped }, max s.open_boards clamped)

-- One round of the loop of `deal_index_to_all`.
unfoldable pub deal_to_room : ℕ → BoardSetup → SessionRoom → SessionRoom
deal_to_room idx board x = record x {
  inner = record x.inner { board_index = idx; table = new_table board };
  bba_cache = none;
}

-- `Session::deal_index_to_all`
unfoldable pub deal_index_to_all : Session → ℕ → Result Failure (Session × ℕ)
unfolding deal_to_room
deal_index_to_all s index =
    let idx = min index (length s.deck.boards - 1) in
    if is_empty s.deck.boards then ok (s, 0) else (elim (get_elem? s.deck.boards idx) [
      | none ↦ err out_of_bounds
      | some board ↦ ok (
        record s {
          deck = record s.deck { index = idx };
          rooms = map (deal_to_room idx board) s.rooms;
        },
        idx + 1,
      )
    ])

-- `Session::goto_board`
unfoldable pub goto_board : Session → ℕ → Result Failure (Session × ℕ)
unfolding deal_index_to_all
goto_board s one_based = deal_index_to_all s (one_based - 1)

-- `Session::next_board`
unfoldable pub next_board : Session → Result Failure (Session × ℕ)
unfolding deal_index_to_all
next_board s = deal_index_to_all s (s.deck.index + 1)

-- `Session::prev_board`
unfoldable pub prev_board : Session → Result Failure (Session × ℕ)
unfolding deal_index_to_all
prev_board s = deal_index_to_all s (s.deck.index - 1)

-- The deck of `load_boards`, and the mode that came with it.
unfoldable pub with_boards : Session → List BoardSetup → Option String → Option BoardMode → Session
unfolding set_board_mode
with_boards s boards label mode =
    let loaded = record s { deck = record { boards = boards; label = label; index = 0 } } in
    let moded : Session = elim mode [ none ↦ loaded | some m ↦ set_board_mode loaded m ] in
    record moded { open_boards = length boards }

-- `Session::load_boards`
unfoldable pub load_boards :
    Session → List BoardSetup → Option String → Option BoardMode → Result Failure (Session × ℕ)
unfolding with_boards deal_index_to_all
load_boards s boards label mode = do
  guard (not (is_empty boards)) no_boards_to_load
  dealt ← deal_index_to_all (with_boards s boards label mode) 0
  ok (dealt.0, length boards)

-- `Session::advance`, on one room of the session
unfoldable pub advance : Session → SessionRoom → SessionRoom × Bool
advance s x = elim (get_elem? s.deck.boards (x.inner.board_index + 1)) [
  | none ↦ (x, false)
  | some board ↦ (
    record x {
      inner = record x.inner { board_index = x.inner.board_index + 1; table = new_table board };
      bba_cache = none;
    },
    true,
  )
]

-- `Session::deck_status`
pub deck_status : Session → Option String × ℕ × ℕ
deck_status s =
    let total = length s.deck.boards in
    (s.deck.label, (if total == 0 then 0 else s.deck.index + 1), total)
