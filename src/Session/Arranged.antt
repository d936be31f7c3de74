-- ===== src/Session/Arranged.antt =====
-- Placement and the host's control leave the tables in order (src/sessions.rs).
use bridge_table_service.Bridge.{BridgeTypes, Direction}
use bridge_table_service.Prelude.{
  Bool-cases, List, List-cases, Option-cases, String, [], ap, false, get_elem?, inl, inr, length,
  nat_eq, not, ok, refl, string_eq, subst, suc, sym, zero, ℕ, ◌%◌, ◌&&◌, ◌+◌, ◌==◌, ◌>>=◌, ◌∙◌, ◌∷◌,
  ◌≡◌,
}
use bridge_table_service.Room.{Occupant, RoomInner}
use bridge_table_service.Room.Seats.{
  cancel_reservation, find_seat, reserved_seat_for, try_place, try_seat, vacate,
}
use bridge_table_service.Session.{
  SeatPolicy, Session, SessionRoom, add_room, first_free, manual, one_per_seat, pairs,
}
use bridge_table_service.Session.Arrivals.{
  at_room, fill_order, first_seat_of, round_robin, round_robin_from, seat_one, seat_round_robin,
  seats_of_sides, try_seat_existing, try_seats, watch_table,
}
use bridge_table_service.Session.Orderly.{
  AllOk, IsOrderly, Orderly, add_room-IsOrderly, any_ok, bind-AllOk, first_room-Orderly,
  same_table-Rooted, set_room-Orderly,
}
use bridge_table_service.Session.Place.{free_ghosts, reclaim, reconnect, redeem}
use bridge_table_service.Table.{BoardSetup}

pub try_seat-table :
    (r : RoomInner) (seat : Direction) (sub name : String)
    → (try_seat r seat sub name).0.table ≡ r.table
unfolding try_seat try_place
try_seat-table r seat sub name = elim (Option-cases (r.seats seat)) [
  | inl e ↦ rw (try_seat, try_place, e) refl
  | inr (o, e) ↦ rw (try_seat, try_place, e) refl
]

pub try_place-table :
    (r : RoomInner) (seat : Direction) (o : Occupant) → (try_place r seat o).0.table ≡ r.table
unfolding try_place
try_place-table r seat o = elim (Option-cases (r.seats seat)) [
  | inl e ↦ rw (try_place, e) refl
  | inr (o', e) ↦ rw (try_place, e) refl
]

pub try_seats-table :
    (seats : List Direction) (r : RoomInner) (sub name : String)
    → (try_seats seats r sub name).0.table ≡ r.table
unfolding try_seats
try_seats-table [] r sub name = refl
try_seats-table (seat ∷ seats) r sub name =
    let here = try_seat-table r seat sub name in
    elim (Bool-cases (try_seat r seat sub name).1) [
      | inl e ↦ rw (try_seats, e) here
      | inr e ↦
          rw (try_seats, e) (try_seats-table seats (try_seat r seat sub name).0 sub name ∙ here)
    ]

pub free_ghosts-table :
    (ghosts : List Direction) (r : RoomInner) → (free_ghosts ghosts r).table ≡ r.table
unfolding free_ghosts vacate
free_ghosts-table [] r = refl
free_ghosts-table (seat ∷ ghosts) r = free_ghosts-table ghosts (vacate r seat).0

pub reconnect-table :
    (order : SessionRoom → List Direction) (sub name : String) (x : SessionRoom)
    → (reconnect order sub name x).0.table ≡ x.inner.table
unfolding reconnect
reconnect-table order sub name x =
    elim (Option-cases (find_seat (order x) (λ (o : Occupant). o.sub == sub) x.inner.seats)) [
      | inl e ↦ rw (reconnect, e) refl
      | inr (d, e) ↦ rw (reconnect, e) refl
    ]

pub redeem-table :
    (order : SessionRoom → List Direction) (now : ℕ) (sub name : String) (x : SessionRoom)
    → (redeem order now sub name x).0.table ≡ x.inner.table
unfolding redeem cancel_reservation
redeem-table order now sub name x =
    elim (Option-cases (reserved_seat_for (order x) x.inner sub now)) [
      | inl e ↦ rw (redeem, e) refl
      | inr (d, e) ↦ rw (redeem, e) (try_seat-table (cancel_reservation x.inner d).0 d sub name)
    ]

pub reclaim-table :
    (order : SessionRoom → List Direction) (sub name : String) (x : SessionRoom)
    → (reclaim order sub name x).0.table ≡ x.inner.table
unfolding reclaim
reclaim-table order sub name x =
    elim (Option-cases
      (find_seat (order x) (λ (o : Occupant). not o.connected && o.name == name) x.inner.seats)) [
        | inl e ↦ rw (reclaim, e) refl
        | inr (d, e) ↦ rw (reclaim, e) refl
      ]

module _ (bt : BridgeTypes) (sub name : String) where
  round_robin_from-Orderly :
      (rooms : List SessionRoom) (cursor : ℕ) (seats : List Direction) (offset n m : ℕ)
      → Orderly bt 1 rooms m
      → Orderly bt 1 (round_robin_from rooms cursor seats sub name offset n).0 m
  unfolding round_robin_from
  round_robin_from-Orderly rooms cursor seats offset zero m o = o
  round_robin_from-Orderly rooms cursor seats offset (suc n) m o =
      elim (Option-cases (get_elem? rooms ((cursor + offset) % length rooms))) [
        | inl e ↦ rw (round_robin_from, e) o
        | inr (x, e) ↦ elim (Option-cases (try_seats seats x.inner sub name).1) [
          | inl e1 ↦
              rw (round_robin_from, e, e1)
                (round_robin_from-Orderly rooms cursor seats (offset + 1) n m o)
          | inr (seat, e1) ↦
              rw (round_robin_from, e, e1)
                (set_room-Orderly bt 1 rooms m _ x (try_seats seats x.inner sub name).0 e
                  (same_table-Rooted bt x.inner _ (try_seats-table seats x.inner sub name)) o)
        ]
      ]

  round_robin-IsOrderly :
      (s : Session) (seats : List Direction)
      → IsOrderly bt s
      → IsOrderly bt (round_robin s seats sub name).0
  unfolding round_robin seat_round_robin IsOrderly
  round_robin-IsOrderly s seats o = elim (Bool-cases (length s.rooms == 0)) [
    | inl e ↦ rw (round_robin, seat_round_robin, e) o
    | inr e ↦
        rw (round_robin, seat_round_robin, e)
          (round_robin_from-Orderly s.rooms s.next_arrival seats 0 (length s.rooms) _ o)
  ]

  try_seat_existing-IsOrderly :
      (s : Session) (shape : SeatPolicy)
      → IsOrderly bt s
      → IsOrderly bt (try_seat_existing s shape sub name).0
  unfolding try_seat_existing IsOrderly
  try_seat_existing-IsOrderly s manual o = o
  try_seat_existing-IsOrderly s (one_per_seat seats) o = round_robin-IsOrderly s seats o
  try_seat_existing-IsOrderly s first_free o = round_robin-IsOrderly s fill_order o
  try_seat_existing-IsOrderly s (pairs sides) o =
      first_room-Orderly bt (λ (x : SessionRoom). try_seats (seats_of_sides sides) x.inner sub name)
        (λ x. try_seats-table (seats_of_sides sides) x.inner sub name) 1 s.rooms _ o

-- A table to watch is made if there is none.
watch_table-none :
    (placeholder : BoardSetup) (s : Session)
    → s.rooms ≡ []
    → watch_table placeholder s
      ≡ (add_room placeholder s >>= λ (r : Session × SessionRoom). ok (r.0, r.1.id))
unfolding watch_table
watch_table-none placeholder s e =
    ap
      (λ (rs : List SessionRoom). elim rs [
        | x ∷ rooms ↦ ok (s, x.id)
        | [] ↦ add_room placeholder s >>= λ (r : Session × SessionRoom). ok (r.0, r.1.id)
      ])
      e

module _ (bt : BridgeTypes) where
  pub at_room-IsOrderly :
      {A : Type 0} (s : Session) (i : ℕ) (change : RoomInner → RoomInner × A) (absent : A)
      → ((r : RoomInner) → (change r).0.table ≡ r.table)
      → IsOrderly bt s
      → IsOrderly bt (at_room s i change absent).0
  unfolding at_room IsOrderly
  at_room-IsOrderly s i change absent same o = elim (Option-cases (get_elem? s.rooms i)) [
    | inl e ↦ rw (at_room, e) o
    | inr (x, e) ↦
        rw (at_room, e)
          (set_room-Orderly bt 1 s.rooms _ i x (change x.inner).0 e
            (same_table-Rooted bt x.inner _ (same x.inner)) o)
  ]

  pub watch_table-IsOrderly :
      (placeholder : BoardSetup) (s : Session)
      → IsOrderly bt s
      → AllOk (λ (r : Session × ℕ). IsOrderly bt r.0) (watch_table placeholder s)
  unfolding watch_table
  watch_table-IsOrderly placeholder s o = elim (List-cases s.rooms) [
    | inr (x, rooms, e) ↦ simp (watch_table, e) o
    | inl e ↦
        subst (AllOk (λ (r : Session × ℕ). IsOrderly bt r.0))
          (sym (watch_table-none placeholder s e))
          (bind-AllOk (λ (r : Session × SessionRoom). IsOrderly bt r.0)
            (λ (r : Session × ℕ). IsOrderly bt r.0) (add_room placeholder s) _
            (add_room-IsOrderly bt placeholder s o) λ r p. p)
  ]

  pub seat_one-IsOrderly :
      (placeholder : BoardSetup) (s : Session) (shape : SeatPolicy) (sub name : String)
      → IsOrderly bt s
      → AllOk
          (λ (r : Session × (ℕ × Direction)). IsOrderly bt r.0)
          (seat_one placeholder s shape sub name)
  unfolding seat_one
  seat_one-IsOrderly placeholder s shape sub name o =
      let o1 = try_seat_existing-IsOrderly bt sub name s shape o in
      let s1 = (try_seat_existing s shape sub name).0 in
      elim (Option-cases (try_seat_existing s shape sub name).1) [
        | inr (p, e) ↦ rw (seat_one, e) o1
        | inl e ↦
            rw (seat_one, e)
              (bind-AllOk (λ (r : Session × SessionRoom). IsOrderly bt r.0)
                (λ (r : Session × (ℕ × Direction)). IsOrderly bt r.0) (add_room placeholder s1) _
                (add_room-IsOrderly bt placeholder s1 o1)
                λ r o2.
                  bind-AllOk (λ d. Unit {0}) (λ (r : Session × (ℕ × Direction)). IsOrderly bt r.0)
                    (first_seat_of shape) _ (any_ok (first_seat_of shape))
                    λ seat u.
                      at_room-IsOrderly r.0 (length s1.rooms) (λ r. try_seat r seat sub name) false
                        (λ r. try_seat-table r seat sub name) o2)
      ]
