-- ===== src/Session/Governed.antt =====
-- Dealing the boards and the control of the seats leave the tables in order (src/sessions.rs).
use bridge_table_service.Bridge.{BridgeTypes, Direction}
use bridge_table_service.Prelude.{
  Bool, List, Option, String, [], get_elem?, guard, is_empty, length, min, none, not, refl, some,
  suc, zero, ℕ, ◌+◌, ◌-◌, ◌∷◌, ◌≡◌,
}
use bridge_table_service.Room.{BoardMode}
use bridge_table_service.Session.{
  SeatPolicy, Session, SessionRoom, add_room, add_tables, no_boards_to_load,
}
use bridge_table_service.Session.Arranged.{seat_one-IsOrderly}
use bridge_table_service.Session.Arrivals.{bulk_shape, seat_one}
use bridge_table_service.Session.Control.{seat_all, seat_students}
use bridge_table_service.Session.Decks.{
  advance, deal_index_to_all, deal_to_room, load_boards, set_board_mode, with_boards,
}
use bridge_table_service.Session.Members.{remove_kibitzer}
use bridge_table_service.Session.Orderly.{
  AllOk, IsOrderly, Rooted, add_room-IsOrderly, any_ok, bind-AllOk, if-AllOk, map-Orderly,
  new_table-Rooted, option-Holds, same_table-Rooted,
}
use bridge_table_service.Table.{BoardSetup}

module _ (bt : BridgeTypes) where
  pub set_board_mode-IsOrderly :
      (s : Session) (mode : BoardMode) → IsOrderly bt s → IsOrderly bt (set_board_mode s mode)
  unfolding set_board_mode IsOrderly
  set_board_mode-IsOrderly s mode o =
      map-Orderly bt _ (λ x. refl) (λ x. same_table-Rooted bt x.inner _ refl) 1 s.rooms _ o

  pub deal_index_to_all-IsOrderly :
      (s : Session) (index : ℕ)
      → IsOrderly bt s
      → AllOk (λ (r : Session × ℕ). IsOrderly bt r.0) (deal_index_to_all s index)
  unfolding deal_index_to_all deal_to_room IsOrderly
  deal_index_to_all-IsOrderly s index o =
      if-AllOk (λ (r : Session × ℕ). IsOrderly bt r.0) (is_empty s.deck.boards) _ _ o
        (option-Holds (AllOk (λ (r : Session × ℕ). IsOrderly bt r.0))
          (get_elem? s.deck.boards (min index (length s.deck.boards - 1))) _ _ tt
          λ board e.
            map-Orderly bt _ (λ x. refl) (λ x r. new_table-Rooted bt _ board refl) 1 s.rooms _ o)

  with_boards-IsOrderly :
      (s : Session) (boards : List BoardSetup) (label : Option String) (mode : Option BoardMode)
      → IsOrderly bt s
      → IsOrderly bt (with_boards s boards label mode)
  unfolding with_boards IsOrderly
  with_boards-IsOrderly s boards label none o = o
  with_boards-IsOrderly s boards label (some mode) o =
      let stocked : Session = record s {
        deck = record { boards = boards; label = label; index = 0 };
      } in
      set_board_mode-IsOrderly stocked mode o

  pub load_boards-IsOrderly :
      (s : Session) (boards : List BoardSetup) (label : Option String) (mode : Option BoardMode)
      → IsOrderly bt s
      → AllOk (λ (r : Session × ℕ). IsOrderly bt r.0) (load_boards s boards label mode)
  unfolding load_boards
  load_boards-IsOrderly s boards label mode o =
      bind-AllOk (λ u. Unit {0}) (λ (r : Session × ℕ). IsOrderly bt r.0)
        (guard (not (is_empty boards)) no_boards_to_load) _ (any_ok _)
        λ u p.
          bind-AllOk (λ (r : Session × ℕ). IsOrderly bt r.0) (λ (r : Session × ℕ). IsOrderly bt r.0)
            (deal_index_to_all (with_boards s boards label mode) 0) _
            (deal_index_to_all-IsOrderly _ 0 (with_boards-IsOrderly s boards label mode o)) λ r q. q

  pub add_tables-IsOrderly :
      (placeholder : BoardSetup) (s : Session) (n : ℕ)
      → IsOrderly bt s
      → AllOk (λ (r : Session × ℕ). IsOrderly bt r.0) (add_tables placeholder s n)
  unfolding add_tables
  add_tables-IsOrderly placeholder s zero o = o
  add_tables-IsOrderly placeholder s (suc n) o =
      bind-AllOk (λ (r : Session × SessionRoom). IsOrderly bt r.0)
        (λ (r : Session × ℕ). IsOrderly bt r.0) (add_room placeholder s) _
        (add_room-IsOrderly bt placeholder s o) λ r p. add_tables-IsOrderly placeholder r.0 n p

  seat_all-IsOrderly :
      (placeholder : BoardSetup) (s : Session) (shape : SeatPolicy)
      (waiting : List (String × String)) (listed : List ℕ)
      → IsOrderly bt s
      → AllOk
          (λ (r : Session × List ℕ). IsOrderly bt r.0)
          (seat_all placeholder s shape waiting listed)
  unfolding seat_all remove_kibitzer IsOrderly
  seat_all-IsOrderly placeholder s shape [] listed o = o
  seat_all-IsOrderly placeholder s shape ((sub, name) ∷ waiting) listed o =
      bind-AllOk (λ (r : Session × (ℕ × Direction)). IsOrderly bt r.0)
        (λ (r : Session × List ℕ). IsOrderly bt r.0) (seat_one placeholder s shape sub name) _
        (seat_one-IsOrderly bt placeholder s shape sub name o)
        λ r p. seat_all-IsOrderly placeholder (remove_kibitzer r.0 sub) shape waiting _ p

  pub seat_students-IsOrderly :
      (placeholder : BoardSetup) (s : Session)
      → IsOrderly bt s
      → AllOk (λ (r : Session × List ℕ). IsOrderly bt r.0) (seat_students placeholder s)
  unfolding seat_students
  seat_students-IsOrderly placeholder s o = seat_all-IsOrderly placeholder s (bulk_shape s) _ [] o

  pub advance-Rooted :
      (s : Session) (x : SessionRoom)
      → ((advance s x).0.id ≡ x.id) × (Rooted bt x.inner → Rooted bt (advance s x).0.inner)
  unfolding advance
  advance-Rooted s x =
      option-Holds
        (λ (r : SessionRoom × Bool). (r.0.id ≡ x.id) × (Rooted bt x.inner → Rooted bt r.0.inner))
        (get_elem? s.deck.boards (x.inner.board_index + 1)) _ _ (refl, λ r. r)
        λ board e. (refl, λ r. new_table-Rooted bt _ board refl)
