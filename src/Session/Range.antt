-- ===== src/Session/Range.antt =====
-- The range of the pointer into a session's boards (src/sessions.rs).
use bridge_table_service.Prelude.{
  Bool-cases, List, Option, Path, Result, String, [], ap, arith, bind-ok, false, get_elem?,
  get_elem_in_range, guard, inl, inr, is_empty, is_ok, length, map, min, none, not, ok,
  ok-injective, refl, some, subst, sym, true, ℕ, ◌++◌, ◌+◌, ◌-◌, ◌<◌, ◌∙◌, ◌∷◌, ◌≡◌, ◌≤◌,
}
use bridge_table_service.Room.{BoardMode, new_room}
use bridge_table_service.Session.{
  Failure, SeatPolicy, Session, SessionKind, SessionRoom, add_room, adhoc, board_for_new,
  new_session, no_boards_to_load, room_for_new, teacher_set, with_room,
}
use bridge_table_service.Session.Decks.{
  deal_index_to_all, deal_to_room, goto_board, load_boards, next_board, open_boards_to, prev_board,
  set_board_mode, with_boards,
}
use bridge_table_service.Table.{BoardSetup, new_table}

-- Sessions that the operations reach. `changed` is
-- whatever leaves the boards alone: what happens at the tables, and to the participants.
pub data SessionReach (placeholder : BoardSetup) : Session → Type 0 where
  created :
      (kind : SessionKind) (owner_sub : String) (seat_policy : SeatPolicy)
      (boards : List BoardSetup) (table_count : ℕ)
      → SessionReach placeholder
          (new_session placeholder kind owner_sub seat_policy boards table_count)
  added :
      {s s' : Session} {x : SessionRoom}
      → SessionReach placeholder s
      → add_room placeholder s ≡ ok (s', x)
      → SessionReach placeholder s'
  dealt :
      {s s' : Session} {n : ℕ} (index : ℕ)
      → SessionReach placeholder s
      → deal_index_to_all s index ≡ ok (s', n)
      → SessionReach placeholder s'
  loaded :
      {s s' : Session} {n : ℕ} (boards : List BoardSetup) (label : Option String)
      (mode : Option BoardMode)
      → SessionReach placeholder s
      → load_boards s boards label mode ≡ ok (s', n)
      → SessionReach placeholder s'
  moded :
      {s : Session} (mode : BoardMode)
      → SessionReach placeholder s
      → SessionReach placeholder (set_board_mode s mode)
  opened :
      {s : Session} (count : ℕ)
      → SessionReach placeholder s
      → SessionReach placeholder (open_boards_to s count).0
  changed :
      {s s' : Session}
      → SessionReach placeholder s
      → s'.deck ≡ s.deck
      → s'.open_boards ≡ s.open_boards
      → SessionReach placeholder s'

-- The pointer is on a board of the set unless there is none, and no more boards are open than there are.
pub record IsInRange (s : Session) : Type 0 where
  pub on_a_board : is_empty s.deck.boards ≡ false → s.deck.index < length s.deck.boards
  pub open_le : s.open_boards ≤ length s.deck.boards

nonempty : (boards : List BoardSetup) → is_empty boards ≡ false → 0 < length boards
nonempty [] h = absurd (cc)
nonempty (b ∷ boards) h = omega arith

-- Dealing board `index` puts every table on the board of that place, or on the last one if there are
-- fewer, and gives its number, counted from one; it fails for no index.
pub deal_index_to_all_lem :
    (s : Session) (index : ℕ)
    → is_empty s.deck.boards ≡ false
    → (board : BoardSetup) × (get_elem? s.deck.boards (min index (length s.deck.boards - 1))
        ≡ some board)
      × (deal_index_to_all s index
          ≡ ok (
            record s {
              deck = record s.deck { index = min index (length s.deck.boards - 1) };
              rooms = map (deal_to_room (min index (length s.deck.boards - 1)) board) s.rooms;
            },
            min index (length s.deck.boards - 1) + 1,
          ))
unfolding deal_index_to_all
deal_index_to_all_lem s index some_left =
    let more = nonempty s.deck.boards some_left in
    let (board, e) =
      get_elem_in_range s.deck.boards (min index (length s.deck.boards - 1))
        (omega (arith, more)) in
    (board, e, rw (deal_index_to_all, some_left, e) refl)

deal-IsInRange :
    (s : Session) (index : ℕ) (s' : Session) (n : ℕ)
    → deal_index_to_all s index ≡ ok (s', n)
    → s.open_boards ≤ length s.deck.boards
    → IsInRange s'
unfolding deal_index_to_all
deal-IsInRange s index s' n h le = elim (Bool-cases (is_empty s.deck.boards)) [
  | inl bare ↦
      (let h' : Path (Result Failure (Session × ℕ)) (ok (s, 0)) (ok (s', n)) =
          rw (deal_index_to_all, bare) at h in
        let same : s ≡ s' = ap (λ (x : Session × ℕ). x.0) (ok-injective (s, 0) (s', n) h') in
        subst IsInRange same (record { on_a_board = λ e. absurd (cc (e, bare)); open_le = le }))
  | inr some_left ↦
      (let more = nonempty s.deck.boards some_left in
        let (board, _, e) = deal_index_to_all_lem s index some_left in
        let same = ap (λ (x : Session × ℕ). x.0) (ok-injective _ (s', n) (sym e ∙ h)) in
        subst IsInRange same (record { on_a_board = λ _. omega (arith, more); open_le = le }))
]

board_for_new-ok :
    (placeholder : BoardSetup) (s : Session)
    → IsInRange s
    → (board : BoardSetup) × (board_for_new placeholder s.deck ≡ ok board)
unfolding board_for_new
board_for_new-ok placeholder s r = elim (Bool-cases (is_empty s.deck.boards)) [
  | inl bare ↦ (placeholder, rw (board_for_new, bare) refl)
  | inr some_left ↦
      (let (board, e) = get_elem_in_range s.deck.boards s.deck.index (r.on_a_board some_left) in
        (board, rw (board_for_new, some_left, e) refl))
]

pub add_room-ok :
    (placeholder : BoardSetup) (s : Session)
    → IsInRange s
    → (board : BoardSetup) × (add_room placeholder s
        ≡ ok (
          with_room placeholder s (room_for_new placeholder s board),
          room_for_new placeholder s board,
        ))
unfolding add_room
add_room-ok placeholder s r =
    let (board, e) = board_for_new-ok placeholder s r in (board, rw (add_room, e) refl)

pub same_boards-IsInRange :
    (s s' : Session)
    → s'.deck ≡ s.deck
    → s'.open_boards ≡ s.open_boards
    → IsInRange s
    → IsInRange s'
same_boards-IsInRange s s' e o r = record {
  on_a_board = λ h. rw e (r.on_a_board (rw (sym e) h));
  open_le = rw (e, o) r.open_le;
}

with_boards-opened :
    (s : Session) (boards : List BoardSetup) (label : Option String) (mode : Option BoardMode)
    → (with_boards s boards label mode).open_boards
      ≤ length (with_boards s boards label mode).deck.boards
unfolding with_boards set_board_mode
with_boards-opened s boards label none = omega arith
with_boards-opened s boards label (some m) = omega arith

-- In every session that the operations reach, the pointer is on a board of the set, if there is one, and
-- no more boards are open than the set has.
pub SessionReach-IsInRange :
    (placeholder : BoardSetup) (s : Session) → SessionReach placeholder s → IsInRange s
unfolding new_session set_board_mode open_boards_to load_boards with_room
SessionReach-IsInRange placeholder s (created teacher_set owner policy boards n) = record {
  on_a_board = nonempty boards;
  open_le = omega arith;
}
SessionReach-IsInRange placeholder s (created adhoc owner policy boards n) = record {
  on_a_board = nonempty boards;
  open_le = omega arith;
}
SessionReach-IsInRange placeholder s (added {s = s0} {x = x} reached e) =
    let before = SessionReach-IsInRange placeholder s0 reached in
    let (board, e') = add_room-ok placeholder s0 before in
    let same = ap (λ (r : Session × SessionRoom). r.0) (ok-injective _ (s, x) (sym e' ∙ e)) in
    subst IsInRange same (same_boards-IsInRange s0 _ refl refl before)
SessionReach-IsInRange placeholder s (dealt {s = s0} {n = n} index reached e) =
    deal-IsInRange s0 index s n e (SessionReach-IsInRange placeholder s0 reached).open_le
SessionReach-IsInRange placeholder s (loaded {s = s0} {n = n} boards label mode reached e) =
    let (_, _, rest) = bind-ok (guard (not (is_empty boards)) no_boards_to_load) _ (s, n) e in
    let ((s1, k), put, end) =
      bind-ok (deal_index_to_all (with_boards s0 boards label mode) 0) _ (s, n) rest in
    let same = ap (λ (x : Session × ℕ). x.0) (ok-injective (s1, length boards) (s, n) end) in
    subst IsInRange same (
      deal-IsInRange (with_boards s0 boards label mode) 0 s1 k put
        (with_boards-opened s0 boards label mode))
SessionReach-IsInRange placeholder s (moded {s = s0} mode reached) =
    let before = SessionReach-IsInRange placeholder s0 reached in
    record { on_a_board = before.on_a_board; open_le = before.open_le }
SessionReach-IsInRange placeholder s (opened {s = s0} count reached) =
    let before = SessionReach-IsInRange placeholder s0 reached in
    record { on_a_board = before.on_a_board; open_le = omega (arith, before.open_le) }
SessionReach-IsInRange placeholder s (changed {s = s0} reached e o) =
    same_boards-IsInRange s0 s e o (SessionReach-IsInRange placeholder s0 reached)

deal-succeeds : (s : Session) (index : ℕ) → is_ok (deal_index_to_all s index) ≡ true
unfolding deal_index_to_all
deal-succeeds s index = elim (Bool-cases (is_empty s.deck.boards)) [
  | inl bare ↦ rw (deal_index_to_all, bare) refl
  | inr some_left ↦ (let (_, _, e) = deal_index_to_all_lem s index some_left in ap is_ok e)
]

-- In every session that the operations reach, adding a table succeeds, and so does going to any board
-- number, to the next board and to the one before.
pub operations_succeed :
    (placeholder : BoardSetup) (s : Session) (number : ℕ)
    → SessionReach placeholder s
    → (is_ok (add_room placeholder s) ≡ true)
      × (is_ok (goto_board s number) ≡ true)
      × (is_ok (next_board s) ≡ true)
      × (is_ok (prev_board s) ≡ true)
unfolding goto_board next_board prev_board
operations_succeed placeholder s number reached =
    let (board, e) = add_room-ok placeholder s (SessionReach-IsInRange placeholder s reached) in
    (
      ap is_ok e,
      deal-succeeds s (number - 1),
      deal-succeeds s (s.deck.index + 1),
      deal-succeeds s (s.deck.index - 1),
    )

-- A table added to a session with boards, reached by the operations, gets the board that the pointer is
-- on, but the board index 0, wherever the pointer is.
pub add_room-board :
    (placeholder : BoardSetup) (s : Session)
    → SessionReach placeholder s
    → is_empty s.deck.boards ≡ false
    → (board : BoardSetup) × (room : SessionRoom) × (add_room placeholder s
        ≡ ok (record s { rooms = s.rooms ++ room ∷ []; next_table_no = s.next_table_no + 1 }, room))
      × (get_elem? s.deck.boards s.deck.index ≡ some board)
      × (room.inner.table ≡ new_table board)
      × (room.inner.board_index ≡ 0)
unfolding add_room board_for_new with_room room_for_new new_room
add_room-board placeholder s reached some_left =
    let r = SessionReach-IsInRange placeholder s reached in
    let (board, e) = get_elem_in_range s.deck.boards s.deck.index (r.on_a_board some_left) in
    (
      board,
      room_for_new placeholder s board,
      rw (add_room, board_for_new, some_left, e) refl,
      e,
      refl,
      refl,
    )
