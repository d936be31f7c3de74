-- ===== src/Session/Specific.antt =====
-- The table to watch, a seat that is asked for, and the search for a seat (src/sessions.rs).
use bridge_table_service.Bridge.{Direction}
use bridge_table_service.Prelude.{
  Bool-cases, List, List-cases, Option-cases, String, [], get_elem?, inl, inr, length, none, ok,
  refl, some, subst, true, ℕ, ◌++◌, ◌∷◌, ◌≡◌,
}
use bridge_table_service.Room.{new_room}
use bridge_table_service.Room.Seats.{try_place, try_seat}
use bridge_table_service.Session.{
  SeatPolicy, Session, SessionRoom, add_room, room_for_new, with_room,
}
use bridge_table_service.Session.Arrivals.{
  at_room, first_seat_of, seat_one, set_room, try_seat_existing, try_seat_specific, watch_table,
}
use bridge_table_service.Session.Keeping.{
  HeldBy, Keeps, Keeps-append, Keeps-refl, Keeps-set_room, Keeps-trans, SomeRoom,
  get_elem-append_end,
}
use bridge_table_service.Session.Placed.{
  GoodRun, Settled, SomeRoom-set_room, Sound, may_wait, passes-Good, returns-Good,
  same_boards-Sound, try_seat_existing-Tried,
}
use bridge_table_service.Session.Range.{add_room-ok}
use bridge_table_service.Session.Seated.{try_seat-HeldBy, try_seat-KeepsSeats}
use bridge_table_service.Table.{BoardSetup}

-- What making sure of a table to watch leaves: the first table, with its number.
pub record Watched (placeholder : BoardSetup) (sub : String) (s : Session) : Type 0 where
  pub after : Session
  pub id : ℕ
  pub room : SessionRoom
  pub runs : watch_table placeholder s ≡ ok (after, id)
  pub keeps : Keeps sub s.rooms after.rooms
  pub sound : Sound after
  pub kibitzers : after.kibitzers ≡ s.kibitzers
  pub same_wait : may_wait sub after ≡ may_wait sub s
  pub first : get_elem? after.rooms 0 ≡ some room
  pub numbered : room.id ≡ id

add_room-Sound :
    (placeholder : BoardSetup) (s : Session) (x : SessionRoom)
    → Sound s
    → Sound (with_room placeholder s x)
unfolding with_room
add_room-Sound placeholder s x v = same_boards-Sound s _ refl refl refl v

watch_table-nil :
    (placeholder : BoardSetup) (s s1 : Session) (x : SessionRoom)
    → s.rooms ≡ []
    → add_room placeholder s ≡ ok (s1, x)
    → watch_table placeholder s ≡ ok (s1, x.id)
unfolding watch_table
watch_table-nil placeholder s s1 x e made = rw (watch_table, e, made) refl

get_elem-append_nil :
    (xs : List SessionRoom) (x : SessionRoom) → xs ≡ [] → get_elem? (xs ++ x ∷ []) 0 ≡ some x
get_elem-append_nil xs x e = rw e refl

pub watch_table-Watched :
    (placeholder : BoardSetup) (sub : String) (s : Session) → Sound s → Watched placeholder sub s
unfolding watch_table with_room
watch_table-Watched placeholder sub s v = elim (List-cases s.rooms) [
  | inr (x, rooms, e) ↦ record {
    after = s;
    id = x.id;
    room = x;
    runs = simp (watch_table, e);
    keeps = Keeps-refl sub s.rooms;
    sound = v;
    kibitzers = refl;
    same_wait = refl;
    first = rw e refl;
    numbered = refl;
  }
  | inl e ↦
      let (board, made) = add_room-ok placeholder s v.in_range in
      let x = room_for_new placeholder s board in
      record {
        after = with_room placeholder s x;
        id = x.id;
        room = x;
        runs = watch_table-nil placeholder s (with_room placeholder s x) x e made;
        keeps = Keeps-append sub s.rooms (x ∷ []);
        sound = add_room-Sound placeholder s x v;
        kibitzers = refl;
        same_wait = refl;
        first = get_elem-append_nil s.rooms x e;
        numbered = refl;
      }
]

module _ (placeholder : BoardSetup) (sub name : String) where
  -- Every seat of a new table is free.
  new_room-takes :
      (s : Session) (board : BoardSetup) (seat : Direction)
      → (try_seat (room_for_new placeholder s board).inner seat sub name).1 ≡ true
  unfolding room_for_new new_room try_seat try_place
  new_room-takes s board seat = refl

  -- A seat of the first table is taken, or its occupant stays.
  pub try_seat_specific-GoodRun :
      (s : Session) (seat : Direction)
      → Sound s
      → GoodRun sub s (try_seat_specific placeholder s seat sub name)
  unfolding try_seat_specific at_room GoodRun Settled
  try_seat_specific-GoodRun s seat v =
      let w = watch_table-Watched placeholder sub s v in
      let r = (try_seat w.room.inner seat sub name).0 in
      let s2 : Session = record w.after { rooms = set_room w.after.rooms 0 r } in
      let keeps = Keeps-trans sub s.rooms w.after.rooms s2.rooms w.keeps (
        Keeps-set_room sub w.after.rooms 0 w.room r w.first
          (try_seat-KeepsSeats sub w.room.inner seat name)) in
      let sound = same_boards-Sound w.after s2 refl refl refl w.sound in
      elim (Bool-cases (try_seat w.room.inner seat sub name).1) [
        | inl took ↦ (
          s2,
          some (record { room = w.id; seat = some seat }),
          rw (try_seat_specific, at_room, w.runs, w.first, took) refl,
          returns-Good sub s s2 (record { room = w.id; seat = some seat }) keeps sound w.same_wait
              (subst (λ id. SomeRoom s2.rooms id (λ r. HeldBy sub r seat)) w.numbered
                (SomeRoom-set_room w.after.rooms 0 w.room r (λ r. HeldBy sub r seat) w.first
                  (try_seat-HeldBy sub w.room.inner seat name took)))
              (λ h. absurd (cc)),
        )
        | inr e ↦ (
          s2,
          none,
          rw (try_seat_specific, at_room, w.runs, w.first, e) refl,
          passes-Good sub s s2 keeps sound w.same_wait,
        )
      ]

  -- An arrival that is seated by a shape gets a seat.
  pub seat_one-seats :
      (s : Session) (shape : SeatPolicy)
      → Sound s
      → (d : Direction) × (first_seat_of shape ≡ ok d)
      → (s' : Session) × (id : ℕ) × (d : Direction) × (seat_one placeholder s shape sub name
          ≡ ok (s', (id, d)))
        × Keeps sub s.rooms s'.rooms
        × Sound s'
        × SomeRoom s'.rooms id (λ r. HeldBy sub r d)
  unfolding seat_one at_room with_room
  seat_one-seats s shape v (seat, fits) =
      let s1 = (try_seat_existing s shape sub name).0 in
      let tried = try_seat_existing-Tried s shape sub name in
      let v1 = same_boards-Sound s s1 tried.deck tried.open_boards tried.seat_policy v in
      elim (Option-cases (try_seat_existing s shape sub name).1) [
        | inr ((id, d), e) ↦
            (s1, id, d, rw (seat_one, e) refl, tried.keeps, v1, tried.found_held id d e)
        | inl e ↦
            let (board, made) = add_room-ok placeholder s1 v1.in_range in
            let x = room_for_new placeholder s1 board in
            let there = get_elem-append_end s1.rooms x in
            let r = (try_seat x.inner seat sub name).0 in
            let s2 : Session = with_room placeholder s1 x in
            (
              record s2 { rooms = set_room s2.rooms (length s1.rooms) r },
              x.id,
              seat,
              rw (seat_one, at_room, e, made, fits, there) refl,
              Keeps-trans sub s.rooms s1.rooms _ tried.keeps (
                  Keeps-trans sub s1.rooms (s1.rooms ++ x ∷ []) _
                    (Keeps-append sub s1.rooms (x ∷ []))
                    (Keeps-set_room sub (s1.rooms ++ x ∷ []) (length s1.rooms) x r there
                      (try_seat-KeepsSeats sub x.inner seat name))),
              same_boards-Sound s1 _ refl refl refl v1,
              SomeRoom-set_room (s1.rooms ++ x ∷ []) (length s1.rooms) x r (λ r. HeldBy sub r seat)
                  there (try_seat-HeldBy sub x.inner seat name (new_room-takes s1 board seat)),
            )
      ]
