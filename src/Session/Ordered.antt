-- ===== src/Session/Ordered.antt =====
-- `place_seat` leaves the tables in order (src/sessions.rs).
use bridge_table_service.Bridge.{BridgeTypes, Direction, south}
use bridge_table_service.Prelude.{
  List, Option, Option-cases, Result, String, false, find, inl, inr, none, not, refl, some, ℕ, ◌&&◌,
  ◌>>=◌, ◌≡◌,
}
use bridge_table_service.Room.{RoomInner}
use bridge_table_service.Room.Seats.{try_seat}
use bridge_table_service.Session.{Failure, Kibitzer, Placement, Session, SessionRoom}
use bridge_table_service.Session.Arranged.{
  at_room-IsOrderly, free_ghosts-table, reclaim-table, reconnect-table, redeem-table,
  seat_one-IsOrderly, try_seat-table, watch_table-IsOrderly,
}
use bridge_table_service.Session.Arrivals.{seat_one, try_seat_specific, watch_table}
use bridge_table_service.Session.Maps.{get, update}
use bridge_table_service.Session.Members.{add_lobby}
use bridge_table_service.Session.Orderly.{
  AllOk, IsOrderly, bind-AllOk, first_room-Orderly, if-AllOk, map-Orderly, same_table-Rooted,
}
use bridge_table_service.Session.Place.{
  arrives, by_room, ghosts_of, host_resumes, is_host_of_adhoc, is_manual, or_then, place_seat,
  reclaim, reconnect, redeem, returns, seats_itself, takes_requested, waits_in_lobby, watches,
  without_ghosts,
}
use bridge_table_service.Table.{BoardSetup}

module _ (bt : BridgeTypes) (placeholder : BoardSetup) where
  try_seat_specific-IsOrderly :
      (s : Session) (seat : Direction) (sub name : String)
      → IsOrderly bt s
      → AllOk
          (λ (r : Session × Option Placement). IsOrderly bt r.0)
          (try_seat_specific placeholder s seat sub name)
  unfolding try_seat_specific
  try_seat_specific-IsOrderly s seat sub name o =
      bind-AllOk (λ (r : Session × ℕ). IsOrderly bt r.0)
        (λ (r : Session × Option Placement). IsOrderly bt r.0) (watch_table placeholder s) _
        (watch_table-IsOrderly bt placeholder s o)
        λ r o1.
          at_room-IsOrderly bt r.0 0 (λ r. try_seat r seat sub name) false
            (λ r. try_seat-table r seat sub name) o1

  or_then-IsOrderly :
      (r : Session × Option Placement) (next : Session → Result Failure (Session × Placement))
      → IsOrderly bt r.0
      → ((s : Session)
          → IsOrderly bt s
          → AllOk (λ (p : Session × Placement). IsOrderly bt p.0) (next s))
      → AllOk (λ (p : Session × Placement). IsOrderly bt p.0) (or_then r next)
  unfolding or_then
  or_then-IsOrderly (s, some p) next o rest = o
  or_then-IsOrderly (s, none) next o rest = rest s o

  run-IsOrderly :
      (m : Result Failure (Session × Option Placement))
      (next : Session → Result Failure (Session × Placement))
      → AllOk (λ (r : Session × Option Placement). IsOrderly bt r.0) m
      → ((s : Session)
          → IsOrderly bt s
          → AllOk (λ (p : Session × Placement). IsOrderly bt p.0) (next s))
      → AllOk
          (λ (p : Session × Placement). IsOrderly bt p.0)
          (m >>= λ (r : Session × Option Placement). or_then r next)
  run-IsOrderly m next o rest =
      bind-AllOk (λ (r : Session × Option Placement). IsOrderly bt r.0)
        (λ (p : Session × Placement). IsOrderly bt p.0) m _ o
        λ r o1. or_then-IsOrderly r next o1 rest

  by_room-IsOrderly :
      (try_room : SessionRoom → RoomInner × Option Direction) (s : Session)
      → ((x : SessionRoom) → (try_room x).0.table ≡ x.inner.table)
      → IsOrderly bt s
      → IsOrderly bt (by_room try_room s).0
  unfolding by_room IsOrderly
  by_room-IsOrderly try_room s same o = first_room-Orderly bt try_room same 1 s.rooms _ o

  without_ghosts-IsOrderly :
      (order : SessionRoom → List Direction) (s : Session)
      → IsOrderly bt s
      → IsOrderly bt (without_ghosts order s)
  unfolding without_ghosts IsOrderly
  without_ghosts-IsOrderly order s o =
      map-Orderly bt _ (λ x. refl)
        (λ x. same_table-Rooted bt x.inner _ (free_ghosts-table (ghosts_of order x) x.inner)) 1
        s.rooms _ o

  host_resumes-IsOrderly :
      (order : SessionRoom → List Direction) (s : Session) (sub name : String)
      → IsOrderly bt s
      → AllOk
          (λ (r : Session × Option Placement). IsOrderly bt r.0)
          (host_resumes placeholder order s sub name)
  unfolding host_resumes
  host_resumes-IsOrderly order s sub name o =
      if-AllOk (λ (r : Session × Option Placement). IsOrderly bt r.0) (is_host_of_adhoc s sub) _ _
        (try_seat_specific-IsOrderly (without_ghosts order s) south sub name
          (without_ghosts-IsOrderly order s o))
        o

  returns-IsOrderly :
      (s : Session) (sub name : String)
      → IsOrderly bt s
      → AllOk
          (λ (r : Session × Option Placement). IsOrderly bt r.0)
          (returns placeholder s sub name)
  unfolding returns IsOrderly
  returns-IsOrderly s sub name o = elim (Option-cases (get sub s.kibitzers)) [
    | inl e ↦ rw (returns, e) o
    | inr (k, e) ↦
        elim (Option-cases (find (λ (x : SessionRoom). watches k.room_id x.id) s.rooms)) [
          | inr (x, e1) ↦ rw (returns, e, e1) o
          | inl e1 ↦
              let s1 : Session = record s {
                kibitzers = update sub (λ (k : Kibitzer). record k { name = name }) s.kibitzers;
              } in
              rw (returns, e, e1)
                (bind-AllOk (λ (r : Session × ℕ). IsOrderly bt r.0)
                  (λ (r : Session × Option Placement). IsOrderly bt r.0)
                  (watch_table placeholder s1) _ (watch_table-IsOrderly bt placeholder s1 o)
                  λ r p. p)
        ]
  ]

  takes_requested-IsOrderly :
      (s : Session) (sub name : String) (requested : Option Direction)
      → IsOrderly bt s
      → AllOk
          (λ (r : Session × Option Placement). IsOrderly bt r.0)
          (takes_requested placeholder s sub name requested)
  unfolding takes_requested
  takes_requested-IsOrderly s sub name none o = o
  takes_requested-IsOrderly s sub name (some seat) o =
      if-AllOk (λ (r : Session × Option Placement). IsOrderly bt r.0) (is_manual s.seat_policy) _ _
        (try_seat_specific-IsOrderly s seat sub name o) o

  arrives-IsOrderly :
      (s : Session) (sub name : String)
      → IsOrderly bt s
      → AllOk (λ (r : Session × Placement). IsOrderly bt r.0) (arrives placeholder s sub name)
  unfolding arrives seats_itself waits_in_lobby add_lobby IsOrderly
  arrives-IsOrderly s sub name o =
      if-AllOk (λ (r : Session × Placement). IsOrderly bt r.0)
        (not s.wait_to_seat && not (is_manual s.seat_policy)) _ _
        (bind-AllOk (λ (r : Session × (ℕ × Direction)). IsOrderly bt r.0)
          (λ (r : Session × Placement). IsOrderly bt r.0)
          (seat_one placeholder s s.seat_policy sub name) _
          (seat_one-IsOrderly bt placeholder s s.seat_policy sub name o) λ r p. p)
        (bind-AllOk (λ (r : Session × ℕ). IsOrderly bt r.0)
          (λ (r : Session × Placement). IsOrderly bt r.0) (watch_table placeholder s) _
          (watch_table-IsOrderly bt placeholder s o) λ r p. p)

  pub place_seat-IsOrderly :
      (order : SessionRoom → List Direction) (s : Session) (sub name : String)
      (requested : Option Direction) (now : ℕ)
      → IsOrderly bt s
      → AllOk
          (λ (r : Session × Placement). IsOrderly bt r.0)
          (place_seat placeholder order s sub name requested now)
  unfolding place_seat
  place_seat-IsOrderly order s sub name requested now o =
      run-IsOrderly (host_resumes placeholder order s sub name) _
        (host_resumes-IsOrderly order s sub name o)
        λ s1 o1.
          or_then-IsOrderly (by_room (reconnect order sub name) s1) _
            (by_room-IsOrderly (reconnect order sub name) s1 (reconnect-table order sub name) o1)
            λ s2 o2.
              or_then-IsOrderly (by_room (redeem order now sub name) s2) _
                (by_room-IsOrderly (redeem order now sub name) s2 (redeem-table order now sub name)
                  o2)
                λ s3 o3.
                  run-IsOrderly (returns placeholder s3 sub name) _
                    (returns-IsOrderly s3 sub name o3)
                    λ s4 o4.
                      or_then-IsOrderly (by_room (reclaim order sub name) s4) _
                        (by_room-IsOrderly (reclaim order sub name) s4
                          (reclaim-table order sub name) o4)
                        λ s5 o5.
                          run-IsOrderly (takes_requested placeholder s5 sub name requested) _
                            (takes_requested-IsOrderly s5 sub name requested o5)
                            λ s6 o6. arrives-IsOrderly s6 sub name o6
