-- ===== src/Protocol/Orders.antt =====
-- The host's messages keep the tables in order (src/routes/ws.rs, `handle_teacher_msg`).
use bridge_table_service.Bridge.{BridgeTypes, Direction}
use bridge_table_service.Claim.{ClaimRequest, SolverAnswer, SolverRequest, make_claim}
use bridge_table_service.Prelude.{
  Bool, Bool-cases, List, List-cases, Option, Option-cases, Path, Result, String, [], err, false,
  get_elem?, inl, inr, map, max, min, none, ok, refl, some, some-injective, string_eq, subst, true,
  unwrap_or, ℕ, ◌==◌, ◌>>=◌, ◌∷◌, ◌≡◌,
}
use bridge_table_service.Protocol.{Reader, claim_numbers, direction_at, number_at, text_at}
use bridge_table_service.Protocol.Dealing.{DealSource}
use bridge_table_service.Protocol.Host.{
  handle_assign_seat, handle_claim_ruling, handle_force_advance, handle_goto_board, handle_kick,
  handle_load_boards, handle_open_boards, handle_set_board_mode, handle_set_bot_mode,
  handle_set_pass_sides, handle_set_seat_policy, if_loaded, loaded, sides_at, table_at,
  table_for_assign,
}
use bridge_table_service.Protocol.Rules.{make_claim-Rooted, message-IsOrderly}
use bridge_table_service.Protocol.Teacher.{handle_host_undo, handle_teacher_msg, host_typed}
use bridge_table_service.Room.{RoomInner, parse_board_mode, parse_bot_mode}
use bridge_table_service.Session.{Failure, Session, SessionRoom, add_tables}
use bridge_table_service.Session.Commanded.{assign_seat-IsOrderly, kick-IsOrderly}
use bridge_table_service.Session.Control.{assign_seat, kick, seat_students, with_inner}
use bridge_table_service.Session.Decks.{
  advance, goto_board, load_boards, next_board, open_boards_to, prev_board,
}
use bridge_table_service.Session.Governed.{
  add_tables-IsOrderly, advance-Rooted, deal_index_to_all-IsOrderly, load_boards-IsOrderly,
  seat_students-IsOrderly, set_board_mode-IsOrderly,
}
use bridge_table_service.Session.Members.{
  set_bot_mode, set_bots_paused, set_pass_sides, set_seat_policy, set_wait_to_seat,
}
use bridge_table_service.Session.Orderly.{
  AllOk, IsOrderly, Rooted, any_ok, bind-AllOk, if-AllOk, map-Orderly, option-Holds,
  replace_room-Orderly, result-Holds, same_table-Rooted, set_room-Orderly,
}
use bridge_table_service.Session.Policy.{PbnBoard, parse_boards, policy_of_key}
use bridge_table_service.Session.Present.{find_room-get}
use bridge_table_service.Table.{BoardSetup}

-- The session of an answer has its tables in order.
abbrev pub Kept : BridgeTypes → Session × Option String → Type 0
Kept bt r = IsOrderly bt r.0

module _ {V : Type 0} (bt : BridgeTypes) (rd : Reader V) where
  if_loaded-Kept :
      (s : Session) (r : Result Failure (Session × ℕ))
      → IsOrderly bt s
      → AllOk (λ (p : Session × ℕ). IsOrderly bt p.0) r
      → AllOk (Kept bt) (if_loaded s r)
  unfolding if_loaded
  if_loaded-Kept s (err e) o p = if-AllOk (Kept bt) (loaded s) _ _ tt o
  if_loaded-Kept s (ok (t, n)) o p = if-AllOk (Kept bt) (loaded s) _ _ p o

  table_at-get :
      (s : Session) (v : V) (i : ℕ) (x : SessionRoom)
      → table_at rd s v ≡ some (i, x)
      → get_elem? s.rooms i ≡ some x
  unfolding table_at
  table_at-get s v i x h = elim (Option-cases (text_at rd v "table")) [
    | inr (text, e) ↦ elim (Option-cases (rd.table_no text)) [
      | inl e1 ↦ absurd (
          let bad : Path (Option (ℕ × SessionRoom)) none (some (i, x)) =
            rw (table_at, e, e1) at h in
          cc)
      | inr (id, e1) ↦ find_room-get s.rooms id i x (rw (table_at, e, e1) at h)
    ]
    | inl e ↦ elim (List-cases s.rooms) [
      | inl e1 ↦ absurd (
          let bad : Path (Option (ℕ × SessionRoom)) none (some (i, x)) =
            rw (table_at, e, e1) at h in
          cc)
      | inr (y, rooms, e1) ↦
          let same : Path (Option (ℕ × SessionRoom)) (some (0, y)) (some (i, x)) =
            rw (table_at, e, e1) at h in
          rw e1 (
            subst (λ (p : ℕ × SessionRoom). get_elem? (y ∷ rooms) p.0 ≡ some p.1)
              (some-injective (0, y) (i, x) same) refl)
    ]
  ]

  handle_load_boards-Kept :
      (read_pbn : String → Option (List PbnBoard)) (s : Session) (v : V)
      → IsOrderly bt s
      → Kept bt (handle_load_boards rd read_pbn s v)
  unfolding handle_load_boards
  handle_load_boards-Kept read_pbn s v o =
      option-Holds (Kept bt) (text_at rd v "boards_pbn") _ _ o λ pbn e.
        result-Holds (λ boards. Unit {0}) (Kept bt) (parse_boards (read_pbn pbn)) _ _
          (any_ok (parse_boards (read_pbn pbn))) (λ e. o)
          λ boards u.
            result-Holds (λ (p : Session × ℕ). IsOrderly bt p.0) (Kept bt)
              (load_boards s boards (text_at rd v "label") _) _ _
              (load_boards-IsOrderly bt s boards (text_at rd v "label") _ o) (λ e. o) λ p q. q

  handle_set_board_mode-Kept :
      (s : Session) (v : V) → IsOrderly bt s → Kept bt (handle_set_board_mode rd s v)
  unfolding handle_set_board_mode
  handle_set_board_mode-Kept s v o = option-Holds (Kept bt) (text_at rd v "mode") _ _ o λ m e.
      option-Holds (Kept bt) (parse_board_mode m) _ _ o
        λ mode e. set_board_mode-IsOrderly bt s mode o

  handle_goto_board-Kept :
      (s : Session) (v : V) → IsOrderly bt s → AllOk (Kept bt) (handle_goto_board rd s v)
  unfolding handle_goto_board goto_board
  handle_goto_board-Kept s v o =
      option-Holds (AllOk (Kept bt)) (number_at rd v "index") _ _ o
        λ n e. if_loaded-Kept s (goto_board s n) o (deal_index_to_all-IsOrderly bt s _ o)

  handle_force_advance-Kept :
      (s : Session) (v : V) → IsOrderly bt s → Kept bt (handle_force_advance rd s v)
  unfolding handle_force_advance IsOrderly
  handle_force_advance-Kept s v o = elim (Option-cases (table_at rd s v)) [
    | inl e ↦ rw (handle_force_advance, e) o
    | inr ((i, x), e) ↦
        let (same, rooted) = advance-Rooted bt s x in
        elim (Bool-cases (advance s x).1) [
          | inl e1 ↦
              rw (handle_force_advance, e, e1)
                (replace_room-Orderly bt 1 s.rooms _ i x (advance s x).0 (table_at-get s v i x e)
                  same rooted o)
          | inr e1 ↦ rw (handle_force_advance, e, e1) o
        ]
  ]

  handle_claim_ruling-Kept :
      (solve : SolverRequest → SolverAnswer) (verify : Bool) (s : Session) (v : V)
      → IsOrderly bt s
      → Kept bt (handle_claim_ruling rd bt solve verify s v)
  unfolding handle_claim_ruling with_inner IsOrderly
  handle_claim_ruling-Kept solve verify s v o =
      option-Holds (Kept bt) (table_at rd s v) _ _ o λ (p : ℕ × SessionRoom) e.
        option-Holds (Kept bt) (direction_at rd v "seat") _ _ o λ seat e1.
          option-Holds (Kept bt) (claim_numbers rd v) _ _ o λ (q : ℕ × ℕ) e2.
            let req : ClaimRequest = record {
              seat = seat;
              tricks = q.0;
              plays_seen = q.1;
              ruling = true;
            } in
            result-Holds (λ (made : RoomInner × ℕ). Rooted bt p.1.inner → Rooted bt made.0)
              (Kept bt) (make_claim bt solve verify p.1.inner p.1.inner req) _ _
              (make_claim-Rooted bt solve verify p.1.inner req) (λ code. o)
              λ made rooted.
                set_room-Orderly bt 1 s.rooms _ p.0 p.1 made.0 (table_at-get s v p.0 p.1 e) rooted o

  handle_set_seat_policy-Kept :
      (s : Session) (v : V) → IsOrderly bt s → Kept bt (handle_set_seat_policy rd s v)
  unfolding handle_set_seat_policy set_seat_policy IsOrderly
  handle_set_seat_policy-Kept s v o =
      option-Holds (Kept bt) (text_at rd v "policy") _ _ o
        λ key e. option-Holds (Kept bt) (policy_of_key key) _ _ o λ p e. o

  handle_set_bot_mode-Kept :
      (s : Session) (v : V) → IsOrderly bt s → Kept bt (handle_set_bot_mode rd s v)
  unfolding handle_set_bot_mode set_bot_mode IsOrderly
  handle_set_bot_mode-Kept s v o = option-Holds (Kept bt) (text_at rd v "mode") _ _ o λ m e.
      option-Holds (Kept bt) (parse_bot_mode m) _ _ o
        λ mode e. map-Orderly bt _ (λ x. refl) (λ x r. r) 1 s.rooms _ o

  handle_open_boards-Kept :
      (s : Session) (v : V) → IsOrderly bt s → Kept bt (handle_open_boards rd s v)
  unfolding handle_open_boards open_boards_to IsOrderly
  handle_open_boards-Kept s v o = option-Holds (Kept bt) (number_at rd v "count") _ _ o λ count e. o

  handle_set_pass_sides-Kept :
      (s : Session) (v : V) → IsOrderly bt s → Kept bt (handle_set_pass_sides rd s v)
  unfolding handle_set_pass_sides set_pass_sides IsOrderly
  handle_set_pass_sides-Kept s v o =
      let passing : SessionRoom → SessionRoom =
        λ x. record x { inner = record x.inner { pass_sides = sides_at rd v } } in
      map-Orderly bt _ (λ x. refl) (λ x r. r) 1 (map passing s.rooms) _
        (map-Orderly bt passing (λ x. refl) (λ x. same_table-Rooted bt x.inner _ refl) 1 s.rooms _
          o)

module _ {V : Type 0} (bt : BridgeTypes) (rd : Reader V)
    (order : SessionRoom → List Direction) where
  handle_assign_seat-Kept :
      (is_boot : Bool) (s : Session) (v : V)
      → IsOrderly bt s
      → Kept bt (handle_assign_seat rd order is_boot s v)
  unfolding handle_assign_seat
  handle_assign_seat-Kept is_boot s v o =
      result-Holds (λ table. Unit {0}) (Kept bt) (table_for_assign rd v) _ _
        (any_ok (table_for_assign rd v)) (λ e. o)
        λ table u.
          result-Holds (λ (p : Session × List ℕ). IsOrderly bt p.0) (Kept bt)
            (assign_seat order s table _ _ _ _) _ _
            (assign_seat-IsOrderly bt order s table _ _ _ _ o) (λ e. o) λ p q. q

  handle_kick-Kept : (s : Session) (v : V) → IsOrderly bt s → Kept bt (handle_kick rd order s v)
  unfolding handle_kick
  handle_kick-Kept s v o = option-Holds (Kept bt) (text_at rd v "token") _ _ o λ token e.
      result-Holds (λ (p : Session × List ℕ). IsOrderly bt p.0) (Kept bt) (kick order s token) _ _
        (kick-IsOrderly bt order s token o) (λ e. o) λ p q. q

module _ {V : Type 0} (bt : BridgeTypes) (rd : Reader V) (outside : DealSource)
    (solve : SolverRequest → SolverAnswer) (verify : Bool) (placeholder : BoardSetup)
    (order : SessionRoom → List Direction) where
  handle_host_undo-Kept :
      (s : Session) (kibitz : Option ℕ) (name : String) (v : V) (now : ℕ)
      → IsOrderly bt s
      → Kept bt (handle_host_undo bt rd outside solve verify placeholder order s kibitz name v now)
  unfolding handle_host_undo
  handle_host_undo-Kept s none name v now o = o
  handle_host_undo-Kept s (some i) name v now o =
      option-Holds (Kept bt) (get_elem? s.rooms i) _ _ o
        λ x e. message-IsOrderly bt rd outside solve verify [] now s i x name v e o

  counted-Kept :
      {A : Type 0} (r : Result Failure (Session × A))
      → AllOk (λ (p : Session × A). IsOrderly bt p.0) r
      → AllOk (Kept bt) (r >>= λ (p : Session × A). ok (p.0, none))
  counted-Kept {A = A} r o =
      bind-AllOk (λ (p : Session × A). IsOrderly bt p.0) (Kept bt) r _ o λ p q. q

  host_typed-Kept :
      (t : String) (s : Session) (kibitz : Option ℕ) (name : String) (v : V) (now : ℕ)
      → IsOrderly bt s
      → AllOk
          (Kept bt)
          (host_typed bt rd outside solve verify placeholder order t s kibitz name v now)
  unfolding host_typed next_board prev_board set_wait_to_seat set_bots_paused IsOrderly
  host_typed-Kept t s kibitz name v now o = if-AllOk (Kept bt) (t == "pong") _ _ o (
      if-AllOk (Kept bt) (t == "open_boards") _ _ (handle_open_boards-Kept bt rd s v o) (
        if-AllOk (Kept bt) (t == "load_boards") _ _
          (handle_load_boards-Kept bt rd outside.read_pbn s v o)
          (if-AllOk (Kept bt) (t == "set_board_mode") _ _ (handle_set_board_mode-Kept bt rd s v o) (
            if-AllOk (Kept bt) (t == "goto_board") _ _ (handle_goto_board-Kept bt rd s v o) (
              if-AllOk (Kept bt) (t == "next_board") _ _
                (if_loaded-Kept bt rd s (next_board s) o (deal_index_to_all-IsOrderly bt s _ o))
                (if-AllOk (Kept bt) (t == "prev_board") _ _
                  (if_loaded-Kept bt rd s (prev_board s) o (deal_index_to_all-IsOrderly bt s _ o))
                  (if-AllOk (Kept bt) (t == "force_advance") _ _
                    (handle_force_advance-Kept bt rd s v o)
                    (if-AllOk (Kept bt) (t == "claim_ruling") _ _
                      (handle_claim_ruling-Kept bt rd solve verify s v o)
                      (if-AllOk (Kept bt) (t == "seat_students") _ _
                        (counted-Kept (seat_students placeholder s)
                          (seat_students-IsOrderly bt placeholder s o))
                        (if-AllOk (Kept bt) (t == "wait_to_seat") _ _ o (
                          if-AllOk (Kept bt) (t == "add_tables") _ _
                            (counted-Kept
                              (add_tables placeholder s
                                (min (max (unwrap_or 1 (number_at rd v "count")) 1) 20))
                              (add_tables-IsOrderly bt placeholder s _ o))
                            (if-AllOk (Kept bt) (t == "set_seat_policy") _ _
                              (handle_set_seat_policy-Kept bt rd s v o)
                              (if-AllOk (Kept bt) (t == "set_bot_mode") _ _
                                (handle_set_bot_mode-Kept bt rd s v o)
                                (if-AllOk (Kept bt) (t == "pause_bots") _ _ o (
                                  if-AllOk (Kept bt) (t == "assign_seat") _ _
                                    (handle_assign_seat-Kept bt rd order false s v o)
                                    (if-AllOk (Kept bt) (t == "boot") _ _
                                      (handle_assign_seat-Kept bt rd order true s v o)
                                      (if-AllOk (Kept bt) (t == "kick") _ _
                                        (handle_kick-Kept bt rd order s v o)
                                        (if-AllOk (Kept bt) (t == "set_pass_sides") _ _
                                          (handle_set_pass_sides-Kept bt rd s v o)
                                          (if-AllOk (Kept bt) (t == "undo") _ _
                                            (handle_host_undo-Kept s kibitz name v now o)
                                            o)))))))))))))))))))

  -- Whatever the host sends, the tables stay in order.
  pub handle_teacher_msg-Kept :
      (s : Session) (kibitz : Option ℕ) (name : String) (v : V) (now : ℕ)
      → IsOrderly bt s
      → AllOk
          (Kept bt)
          (handle_teacher_msg bt rd outside solve verify placeholder order s kibitz name v now)
  unfolding handle_teacher_msg
  handle_teacher_msg-Kept s kibitz name v now o =
      option-Holds (AllOk (Kept bt)) (text_at rd v "t") _ _ o
        λ t e. host_typed-Kept t s kibitz name v now o
