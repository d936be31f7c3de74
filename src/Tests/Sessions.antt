-- ===== src/Tests/Sessions.antt =====
-- Tests and witnesses for src/sessions.rs and the recorded lines of src/table.rs.
use bridge_table_service.Bridge.{Card, Direction, Suit, east, north}
use bridge_table_service.Prelude.{
  List, [], false, get_elem?, is_ok, map, ok, refl, some, true, ◌++◌, ◌+◌, ◌↔◌, ◌∷◌, ◌≡◌,
}
use bridge_table_service.Session.{
  Session, SessionRoom, add_room, first_free, new_session, teacher_set,
}
use bridge_table_service.Session.Decks.{
  deal_index_to_all, deal_to_room, goto_board, next_board, prev_board,
}
use bridge_table_service.Session.Range.{
  IsInRange, SessionReach, SessionReach-IsInRange, add_room-board, created, dealt,
  operations_succeed,
}
use bridge_table_service.Table.{BoardSetup, PlayLine, new_table}
use bridge_table_service.Table.Book.{diverged_iff}
use bridge_table_service.Table.Cards.{hand_played}
use bridge_table_service.Table.Line.{diverged}
use bridge_table_service.Tests.{card, sample_board}

-- Two boards at two tables.
abbrev pub two_boards : Session
two_boards =
    new_session sample_board teacher_set "owner" first_free (sample_board ∷ sample_board ∷ []) 2

pub two_boards-SessionReach : SessionReach sample_board two_boards
two_boards-SessionReach =
    created teacher_set "owner" first_free (sample_board ∷ sample_board ∷ []) 2

SessionReach-IsInRange_example : IsInRange two_boards
SessionReach-IsInRange_example =
    SessionReach-IsInRange sample_board two_boards two_boards-SessionReach

operations_succeed_example :
    (is_ok (add_room sample_board two_boards) ≡ true)
    × (is_ok (goto_board two_boards 5) ≡ true)
    × (is_ok (next_board two_boards) ≡ true)
    × (is_ok (prev_board two_boards) ≡ true)
operations_succeed_example = operations_succeed sample_board two_boards 5 two_boards-SessionReach

-- A line on which North has two spades and East a heart.
abbrev short_line : PlayLine
short_line = record {
  by_seat = λ d. elim d [
    | north ↦ card Suit.spades 12 ∷ card Suit.spades 3 ∷ []
    | east ↦ card Suit.hearts 2 ∷ []
    | _ ↦ []
  ];
}

abbrev two_played : List (Direction × Card)
two_played = (north, card Suit.spades 12) ∷ (east, card Suit.hearts 2) ∷ []

diverged_iff_example : (diverged short_line two_played ≡ false) ↔ (
    (seat : Direction)
    → (rest : List Card) × (short_line.by_seat seat ≡ hand_played seat two_played ++ rest))
diverged_iff_example = diverged_iff short_line two_played

-- The session with the pointer on its second board.
abbrev on_second : Session
on_second = record two_boards {
  deck = record two_boards.deck { index = 1 };
  rooms = map (deal_to_room 1 sample_board) two_boards.rooms;
}

on_second-SessionReach : SessionReach sample_board on_second
unfolding new_session deal_index_to_all deal_to_room
on_second-SessionReach = dealt {n = 2} 1 two_boards-SessionReach refl

add_room-board_example :
    (board : BoardSetup) × (room : SessionRoom) × (add_room sample_board on_second
      ≡ ok (
        record on_second {
          rooms = on_second.rooms ++ room ∷ [];
          next_table_no = on_second.next_table_no + 1;
        },
        room,
      ))
    × (get_elem? on_second.deck.boards on_second.deck.index ≡ some board)
    × (room.inner.table ≡ new_table board)
    × (room.inner.board_index ≡ 0)
unfolding new_session
add_room-board_example = add_room-board sample_board on_second on_second-SessionReach refl
