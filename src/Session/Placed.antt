-- ===== src/Session/Placed.antt =====
-- What `place_seat` and the ways in which it seats an arrival do to a session (src/sessions.rs).
use bridge_table_service.Bridge.{Direction}
use bridge_table_service.Prelude.{
  Bool, Bool-cases, List, Option, Option-cases, Result, String, get_elem?, inl, inr, is_some,
  length, nat_eq, none, ok, refl, some, some-injective, subst, suc, sym, true, zero, ℕ, ◌%◌, ◌+◌,
  ◌==◌, ◌||◌, ◌≡◌,
}
use bridge_table_service.Room.{RoomInner}
use bridge_table_service.Session.{
  Failure, Placement, SeatPolicy, Session, SessionRoom, first_free, manual, one_per_seat, pairs,
}
use bridge_table_service.Session.Arrivals.{
  fill_order, first_seat_of, round_robin, round_robin_from, seat_round_robin, seats_of_sides,
  set_room, try_seat_existing, try_seats,
}
use bridge_table_service.Session.Keeping.{
  HeldBy, Keeps, Keeps-first_room, Keeps-refl, Keeps-set_room, KeepsSeats, SomeRoom,
  first_room-holds, set_room-get,
}
use bridge_table_service.Session.Maps.{get}
use bridge_table_service.Session.Place.{is_manual}
use bridge_table_service.Session.Range.{IsInRange, same_boards-IsInRange}
use bridge_table_service.Session.Seated.{try_seats-Answers, try_seats-KeepsSeats}

-- The placement names a table of the session, at which `sub` is connected in the seat that it names, or,
-- if it names none, `sub` is in the lobby.
unfoldable pub Settled : String → Session → Placement → Type 0
Settled sub s p = elim p.seat [
  | some d ↦ SomeRoom s.rooms p.room (λ r. HeldBy sub r d)
  | none ↦ SomeRoom s.rooms p.room (λ r. Unit {0}) × (is_some (get sub s.kibitzers) ≡ true)
]

-- The participant is in the lobby already, or arrivals have to wait there.
abbrev pub may_wait : String → Session → Bool
may_wait sub s = is_some (get sub s.kibitzers) || s.wait_to_seat || is_manual s.seat_policy

-- The pointer is on a board, and the seat policy lists a seat.
pub record Sound (s : Session) : Type 0 where
  pub in_range : IsInRange s
  pub first_seat : (d : Direction) × (first_seat_of s.seat_policy ≡ ok d)

-- What a step of `place_seat` may leave.
pub record Good (sub : String) (s s' : Session) (answer : Option Placement) : Type 0 where
  pub keeps : Keeps sub s.rooms s'.rooms
  pub sound : Sound s'
  pub same_wait : may_wait sub s' ≡ may_wait sub s
  pub settled :
      (p : Placement) → answer ≡ some p → Settled sub s' p × (p.seat ≡ none → may_wait sub s ≡ true)

-- A run of a step that leaves something good.
unfoldable pub GoodRun : String → Session → Result Failure (Session × Option Placement) → Type 0
GoodRun sub s run =
    (s' : Session) × (answer : Option Placement) × (run ≡ ok (s', answer)) × Good sub s s' answer

-- A run of the whole that leaves the participant settled.
unfoldable pub Done : String → Session → Result Failure (Session × Placement) → Type 0
Done sub s run =
    (s' : Session) × (p : Placement) × (run ≡ ok (s', p))
    × Keeps sub s.rooms s'.rooms
    × Sound s'
    × Settled sub s' p
    × (p.seat ≡ none → may_wait sub s ≡ true)

pub same_boards-Sound :
    (s s' : Session)
    → s'.deck ≡ s.deck
    → s'.open_boards ≡ s.open_boards
    → s'.seat_policy ≡ s.seat_policy
    → Sound s
    → Sound s'
same_boards-Sound s s' e o p v = record {
  in_range = same_boards-IsInRange s s' e o v.in_range;
  first_seat = subst (λ q. (d : Direction) × (first_seat_of q ≡ ok d)) (sym p) v.first_seat;
}

-- A step that does not return.
pub passes-Good :
    (sub : String) (s s' : Session)
    → Keeps sub s.rooms s'.rooms
    → Sound s'
    → may_wait sub s' ≡ may_wait sub s
    → Good sub s s' none
passes-Good sub s s' k v m = record {
  keeps = k;
  sound = v;
  same_wait = m;
  settled = λ p h. absurd (cc);
}

-- A step that returns `p`.
pub returns-Good :
    (sub : String) (s s' : Session) (p : Placement)
    → Keeps sub s.rooms s'.rooms
    → Sound s'
    → may_wait sub s' ≡ may_wait sub s
    → Settled sub s' p
    → (p.seat ≡ none → may_wait sub s ≡ true)
    → Good sub s s' (some p)
returns-Good sub s s' p k v m t why = record {
  keeps = k;
  sound = v;
  same_wait = m;
  settled = λ q h.
      subst (λ p. Settled sub s' p × (p.seat ≡ none → may_wait sub s ≡ true)) (some-injective p q h)
        (t, why);
}

pub SomeRoom-set_room :
    (xs : List SessionRoom) (i : ℕ) (x : SessionRoom) (r : RoomInner) (P : RoomInner → Type 0)
    → get_elem? xs i ≡ some x
    → P r
    → SomeRoom (set_room xs i r) x.id P
unfolding SomeRoom
SomeRoom-set_room xs i x r P h held =
    (i, record x { inner = r }, set_room-get xs i x r h, refl, held)

module _ (sub name : String) (seats : List Direction) (rooms : List SessionRoom) (cursor : ℕ) where
  round_robin_from_lem :
      (offset n : ℕ)
      → Keeps sub rooms (round_robin_from rooms cursor seats sub name offset n).0
        × ((id : ℕ) (d : Direction)
            → (round_robin_from rooms cursor seats sub name offset n).1 ≡ some (id, d)
            → SomeRoom
                (round_robin_from rooms cursor seats sub name offset n).0
                id
                (λ r. HeldBy sub r d))
  unfolding round_robin_from
  round_robin_from_lem offset zero = (Keeps-refl sub rooms, (λ id d h. absurd (cc)))
  round_robin_from_lem offset (suc n) =
      elim (Option-cases (get_elem? rooms ((cursor + offset) % length rooms))) [
        | inl e ↦ rw (round_robin_from, e) (Keeps-refl sub rooms, (λ id d h. absurd (cc)))
        | inr (x, e) ↦ elim (Option-cases (try_seats seats x.inner sub name).1) [
          | inl none_free ↦
              rw (round_robin_from, e, none_free) (round_robin_from_lem (offset + 1) n)
          | inr (seat, taken) ↦
              let r = (try_seats seats x.inner sub name).0 in
              rw (round_robin_from, e, taken)
                (
                  Keeps-set_room sub rooms _ x r e (try_seats-KeepsSeats sub name seats x.inner),
                  (λ id d h.
                      let same = some-injective _ _ h in
                      subst
                        (λ (q : ℕ × Direction).
                          SomeRoom (set_room rooms ((cursor + offset) % length rooms) r) q.0
                            (λ r. HeldBy sub r q.1))
                        same
                        (SomeRoom-set_room rooms _ x r (λ r. HeldBy sub r seat) e
                          (try_seats-Answers sub name seats x.inner seat taken))),
                )
        ]
      ]

-- What looking for a seat at the tables that there are may leave.
pub record Tried (sub : String) (s s' : Session) (found : Option (ℕ × Direction)) : Type 0 where
  pub keeps : Keeps sub s.rooms s'.rooms
  pub deck : s'.deck ≡ s.deck
  pub open_boards : s'.open_boards ≡ s.open_boards
  pub seat_policy : s'.seat_policy ≡ s.seat_policy
  pub same_wait : may_wait sub s' ≡ may_wait sub s
  pub found_held :
      (id : ℕ) (d : Direction) → found ≡ some (id, d) → SomeRoom s'.rooms id (λ r. HeldBy sub r d)

round_robin-Tried :
    (s : Session) (seats : List Direction) (sub name : String)
    → Tried sub s (round_robin s seats sub name).0 (round_robin s seats sub name).1
unfolding round_robin seat_round_robin
round_robin-Tried s seats sub name = elim (Bool-cases (length s.rooms == 0)) [
  | inl e ↦
      rw (round_robin, seat_round_robin, e)
        (record {
          keeps = Keeps-refl sub s.rooms;
          deck = refl;
          open_boards = refl;
          seat_policy = refl;
          same_wait = refl;
          found_held = λ id d h. absurd (cc);
        })
  | inr e ↦
      let (k, h) = round_robin_from_lem sub name seats s.rooms s.next_arrival 0 (length s.rooms) in
      rw (round_robin, seat_round_robin, e)
        (record {
          keeps = k;
          deck = refl;
          open_boards = refl;
          seat_policy = refl;
          same_wait = refl;
          found_held = h;
        })
]

pub try_seat_existing-Tried :
    (s : Session) (shape : SeatPolicy) (sub name : String)
    → Tried sub s (try_seat_existing s shape sub name).0 (try_seat_existing s shape sub name).1
unfolding try_seat_existing
try_seat_existing-Tried s manual sub name = record {
  keeps = Keeps-refl sub s.rooms;
  deck = refl;
  open_boards = refl;
  seat_policy = refl;
  same_wait = refl;
  found_held = λ id d h. absurd (cc);
}
try_seat_existing-Tried s (one_per_seat seats) sub name = round_robin-Tried s seats sub name
try_seat_existing-Tried s first_free sub name = round_robin-Tried s fill_order sub name
try_seat_existing-Tried s (pairs sides) sub name =
    let try_room : SessionRoom → RoomInner × Option Direction =
      λ x. try_seats (seats_of_sides sides) x.inner sub name in
    let keeps : (x : SessionRoom) → KeepsSeats sub x.inner (try_room x).0 =
      λ x. try_seats-KeepsSeats sub name (seats_of_sides sides) x.inner in
    let answers = λ (x : SessionRoom). try_seats-Answers sub name (seats_of_sides sides) x.inner in
    record {
      keeps = Keeps-first_room sub try_room keeps answers s.rooms;
      deck = refl;
      open_boards = refl;
      seat_policy = refl;
      same_wait = refl;
      found_held = first_room-holds sub try_room keeps answers s.rooms;
    }
