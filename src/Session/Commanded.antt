-- ===== src/Session/Commanded.antt =====
-- The control of the seats leaves the tables in order (src/sessions.rs, `assign_seat` and `kick`).
use bridge_table_service.Bridge.{BridgeTypes, Direction, direction_eq}
use bridge_table_service.Prelude.{
  Bool, Bool-cases, List, Option, Result-cases, String, [], false, get_elem?, if◌then◌else◌, inl,
  inr, is_empty, none, refl, some, string_eq, true, ℕ, ◌&&◌, ◌==◌, ◌∙◌, ◌∷◌, ◌≡◌,
}
use bridge_table_service.Room.{Occupant, RoomInner}
use bridge_table_service.Room.Seats.{arrival, entry_is, set_bot, set_empty, try_place, vacate}
use bridge_table_service.Session.{Session, SessionRoom}
use bridge_table_service.Session.Arranged.{try_place-table}
use bridge_table_service.Session.Control.{
  assign_at, assign_seat, bench, free_seats, kick, move_seat, moved, seated_at, sit_down,
  table_named, vacate_seat, with_inner, without,
}
use bridge_table_service.Session.Members.{add_lobby, conn_meta, held_in, remove_kibitzer, seats_of}
use bridge_table_service.Session.Orderly.{
  AllOk, IsOrderly, if-AllOk, map-Orderly, option-Holds, same_table-Rooted, set_room-Orderly,
}
use bridge_table_service.Session.Present.{table_named-get}

vacated_table :
    (r : RoomInner) (f : Direction) (b : Bool)
    → (if b then set_bot (vacate r f).0 f else set_empty (vacate r f).0 f).table ≡ r.table
unfolding vacate set_bot set_empty
vacated_table r f true = refl
vacated_table r f false = refl

moved-table : (r : RoomInner) (f t : Direction) (o : Occupant) → (moved r f t o).table ≡ r.table
unfolding moved vacate
moved-table r f t o =
    option-Holds (λ (q : RoomInner). q.table ≡ r.table) (r.seats t) _ _
      (try_place-table (vacate r f).0 t o)
      λ target e.
        try_place-table (try_place (vacate (vacate r f).0 t).0 t o).0 f target
        ∙ try_place-table (vacate (vacate r f).0 t).0 t o

seated_at-table :
    (r : RoomInner) (t : Direction) (sub name : String) → (seated_at r t sub name).table ≡ r.table
unfolding seated_at vacate
seated_at-table r t sub name =
    option-Holds (λ (q : RoomInner). q.table ≡ r.table) (r.seats t) _ _
      (try_place-table r t (arrival sub name))
      λ d e. try_place-table (vacate r t).0 t (arrival sub name)

free_seats-table : (held : List Direction) (r : RoomInner) → (free_seats held r).table ≡ r.table
unfolding free_seats vacate set_bot
free_seats-table [] r = refl
free_seats-table (seat ∷ held) r = free_seats-table held (set_bot (vacate r seat).0 seat)

module _ (bt : BridgeTypes) where
  pub with_inner-IsOrderly :
      (s : Session) (i : ℕ) (x : SessionRoom) (inner : RoomInner)
      → get_elem? s.rooms i ≡ some x
      → inner.table ≡ x.inner.table
      → IsOrderly bt s
      → IsOrderly bt (with_inner s i inner)
  unfolding with_inner IsOrderly
  with_inner-IsOrderly s i x inner h same o =
      set_room-Orderly bt 1 s.rooms _ i x inner h (same_table-Rooted bt x.inner inner same) o

module _ (bt : BridgeTypes) (order : SessionRoom → List Direction) where
  bench-IsOrderly :
      (s : Session) (id : ℕ) (lost : Option Occupant)
      → IsOrderly bt s
      → IsOrderly bt (bench order s id lost)
  unfolding bench add_lobby IsOrderly
  bench-IsOrderly s id none o = o
  bench-IsOrderly s id (some occ) o =
      elim (Bool-cases (occ.connected && is_empty (seats_of order s.rooms occ.sub))) [
        | inl e ↦ rw (bench, e) o
        | inr e ↦ rw (bench, e) o
      ]

  sit_down-IsOrderly :
      (s : Session) (i : ℕ) (x : SessionRoom) (t : Direction) (token : String)
      → get_elem? s.rooms i ≡ some x
      → IsOrderly bt s
      → AllOk (λ (r : Session × List ℕ). IsOrderly bt r.0) (sit_down order s i x t token)
  unfolding sit_down remove_kibitzer IsOrderly
  sit_down-IsOrderly s i x t token h o =
      option-Holds (AllOk (λ (r : Session × List ℕ). IsOrderly bt r.0)) (conn_meta s token) _ _ tt
        λ (m : String × String) e.
          if-AllOk (λ (r : Session × List ℕ). IsOrderly bt r.0)
            (entry_is (λ (o : Occupant). o.sub == m.0) (x.inner.seats t)) _ _ o
            (bench-IsOrderly (with_inner (remove_kibitzer s m.0) i (seated_at x.inner t m.0 m.1))
              x.id (x.inner.seats t)
              (with_inner-IsOrderly bt (remove_kibitzer s m.0) i x (seated_at x.inner t m.0 m.1) h
                (seated_at-table x.inner t m.0 m.1) o))

  move_seat-IsOrderly :
      (s : Session) (i : ℕ) (x : SessionRoom) (f t : Direction)
      → get_elem? s.rooms i ≡ some x
      → IsOrderly bt s
      → AllOk (λ (r : Session × List ℕ). IsOrderly bt r.0) (move_seat s i x f t)
  unfolding move_seat
  move_seat-IsOrderly s i x f t h o =
      if-AllOk (λ (r : Session × List ℕ). IsOrderly bt r.0) (f == t) _ _ o
        (option-Holds (AllOk (λ (r : Session × List ℕ). IsOrderly bt r.0)) (x.inner.seats f) _ _ tt
          λ occ e.
            with_inner-IsOrderly bt s i x (moved x.inner f t occ) h (moved-table x.inner f t occ) o)

  assign_at-IsOrderly :
      (s : Session) (i : ℕ) (x : SessionRoom) (target from : Option Direction)
      (token : Option String) (seat_bot : Bool)
      → get_elem? s.rooms i ≡ some x
      → IsOrderly bt s
      → AllOk
          (λ (r : Session × List ℕ). IsOrderly bt r.0)
          (assign_at order s i x target from token seat_bot)
  unfolding assign_at vacate_seat vacate
  assign_at-IsOrderly s i x none (some f) token seat_bot h o =
      bench-IsOrderly
        (with_inner s i
          (if seat_bot then set_bot (vacate x.inner f).0 f else set_empty (vacate x.inner f).0 f))
        x.id (x.inner.seats f)
        (with_inner-IsOrderly bt s i x _ h (vacated_table x.inner f seat_bot) o)
  assign_at-IsOrderly s i x (some t) (some f) token seat_bot h o = move_seat-IsOrderly s i x f t h o
  assign_at-IsOrderly s i x (some t) none (some token) seat_bot h o =
      sit_down-IsOrderly s i x t token h o
  assign_at-IsOrderly s i x (some t) none none seat_bot h o = tt
  assign_at-IsOrderly s i x none none token seat_bot h o = tt

  pub assign_seat-IsOrderly :
      (s : Session) (table_id : Option ℕ) (target from : Option Direction) (token : Option String)
      (seat_bot : Bool)
      → IsOrderly bt s
      → AllOk
          (λ (r : Session × List ℕ). IsOrderly bt r.0)
          (assign_seat order s table_id target from token seat_bot)
  unfolding assign_seat
  assign_seat-IsOrderly s table_id target from token seat_bot o =
      elim (Result-cases (table_named s table_id)) [
        | inl ((i, x), e) ↦
            rw (assign_seat, e)
              (assign_at-IsOrderly s i x target from token seat_bot
                (table_named-get s table_id i x e) o)
        | inr (code, e) ↦ rw (assign_seat, e) tt
      ]

  pub kick-IsOrderly :
      (s : Session) (token : String)
      → IsOrderly bt s
      → AllOk (λ (r : Session × List ℕ). IsOrderly bt r.0) (kick order s token)
  unfolding kick without IsOrderly
  kick-IsOrderly s token o =
      option-Holds (AllOk (λ (r : Session × List ℕ). IsOrderly bt r.0)) (conn_meta s token) _ _ tt
        λ (m : String × String) e.
          map-Orderly bt _ (λ x. refl)
            (λ x. same_table-Rooted bt x.inner _ (free_seats-table (held_in order x m.0) x.inner)) 1
            s.rooms _ o
