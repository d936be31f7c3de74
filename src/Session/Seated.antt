-- ===== src/Session/Seated.antt =====
-- Taking a seat, or changing who holds it, at one room (src/sessions.rs).
-- What a step may answer with.
use bridge_table_service.Bridge.{Direction, direction_eq}
use bridge_table_service.Prelude.{
  Bool, Bool-cases, List, Option, Option-cases, String, [], false, inl, inr, none, refl, some,
  some-injective, string_eq, subst, true, ◌==◌, ◌∷◌, ◌≡◌, ◌⊎◌,
}
use bridge_table_service.Room.{Occupant, RoomInner}
use bridge_table_service.Room.Seats.{arrival, insert_at, try_place, try_seat, update_at}
use bridge_table_service.Session.Arrivals.{try_seats}
use bridge_table_service.Session.Keeping.{HeldBy, KeepsSeats, KeepsSeats-refl, KeepsSeats-trans}

abbrev pub Answers : String → RoomInner → Option Direction → Type 0
Answers sub r answer = (d : Direction) → answer ≡ some d → HeldBy sub r d

pub none-Answers : (sub : String) (r : RoomInner) → Answers sub r none
none-Answers sub r d h = absurd (cc)

pub insert_at-KeepsSeats :
    (sub : String) (r : RoomInner) (seat : Direction) (occ : Occupant) (no_bot : Direction → Bool)
    → r.seats seat ≡ none
    → KeepsSeats sub r (record r { seats = insert_at seat occ r.seats; no_bot = no_bot })
unfolding insert_at
insert_at-KeepsSeats sub r seat occ no_bot empty_seat = record {
  kept = λ d o h c n. elim (Bool-cases (d == seat)) [
    | inl e ↦ absurd (let same = (direction_eq.beq_iff d seat).0 e in cc)
    | inr e ↦ rw e h
  ];
}

-- `try_seat` keeps every occupant, and if it answers with true, the arrival holds the seat.
pub try_seat-KeepsSeats :
    (sub : String) (r : RoomInner) (seat : Direction) (name : String)
    → KeepsSeats sub r (try_seat r seat sub name).0
unfolding try_seat try_place
try_seat-KeepsSeats sub r seat name = elim (Option-cases (r.seats seat)) [
  | inl e ↦ rw (try_seat, try_place, e) (insert_at-KeepsSeats sub r seat _ _ e)
  | inr (o, e) ↦ rw (try_seat, try_place, e) (KeepsSeats-refl sub r)
]

pub try_seat-HeldBy :
    (sub : String) (r : RoomInner) (seat : Direction) (name : String)
    → (try_seat r seat sub name).1 ≡ true
    → HeldBy sub (try_seat r seat sub name).0 seat
unfolding try_seat try_place insert_at arrival HeldBy
try_seat-HeldBy sub r seat name h = elim (Option-cases (r.seats seat)) [
  | inl e ↦
      let here : (seat == seat) ≡ true = (direction_eq.beq_iff seat seat).1 refl in
      rw (try_seat, try_place, e, here) (arrival sub name, refl, refl, refl, refl)
  | inr (o, e) ↦ absurd (let no : false ≡ true = rw (try_seat, try_place, e) at h in cc)
]

pub try_seats-KeepsSeats :
    (sub name : String) (seats : List Direction) (r : RoomInner)
    → KeepsSeats sub r (try_seats seats r sub name).0
unfolding try_seats
try_seats-KeepsSeats sub name [] r = KeepsSeats-refl sub r
try_seats-KeepsSeats sub name (seat ∷ seats) r =
    let first = try_seat-KeepsSeats sub r seat name in
    elim (Bool-cases (try_seat r seat sub name).1) [
      | inl e ↦ rw (try_seats, e) first
      | inr e ↦
          rw (try_seats, e)
            (KeepsSeats-trans sub r _ _ first
              (try_seats-KeepsSeats sub name seats (try_seat r seat sub name).0))
    ]

pub try_seats-Answers :
    (sub name : String) (seats : List Direction) (r : RoomInner)
    → Answers sub (try_seats seats r sub name).0 (try_seats seats r sub name).1
unfolding try_seats
try_seats-Answers sub name [] r d h = absurd (cc)
try_seats-Answers sub name (seat ∷ seats) r d h = elim (Bool-cases (try_seat r seat sub name).1) [
  | inl e ↦
      let here : some seat ≡ some d = rw (try_seats, e) at h in
      rw (try_seats, e)
        (subst (HeldBy sub (try_seat r seat sub name).0) (some-injective seat d here)
          (try_seat-HeldBy sub r seat name e))
  | inr e ↦
      let there : (try_seats seats (try_seat r seat sub name).0 sub name).1 ≡ some d =
        rw (try_seats, e) at h in
      rw (try_seats, e) (try_seats-Answers sub name seats (try_seat r seat sub name).0 d there)
]

-- Changing the occupant of one seat keeps the others.
pub update_at-KeepsSeats :
    (sub : String) (r : RoomInner) (seat : Direction) (change : Occupant → Occupant)
    → ((o : Occupant) → r.seats seat ≡ some o → (o.connected ≡ false) ⊎ (o.sub ≡ sub))
    → KeepsSeats sub r (record r { seats = update_at seat change r.seats })
unfolding update_at
update_at-KeepsSeats sub r seat change only = record {
  kept = λ d o h c n. elim (Bool-cases (d == seat)) [
    | inl e ↦
        let same = (direction_eq.beq_iff d seat).0 e in
        elim (only o (subst (λ s. r.seats s ≡ some o) same h)) [
          | inl gone ↦ absurd (cc)
          | inr own ↦ absurd (cc ((string_eq.beq_iff o.sub sub).1 own))
        ]
    | inr e ↦ rw e h
  ];
}

pub update_at-HeldBy :
    (sub : String) (r : RoomInner) (seat : Direction) (change : Occupant → Occupant) (o : Occupant)
    → r.seats seat ≡ some o
    → (change o).sub ≡ sub
    → (change o).connected ≡ true
    → (change o).disconnected_at ≡ none
    → HeldBy sub (record r { seats = update_at seat change r.seats }) seat
unfolding update_at HeldBy
update_at-HeldBy sub r seat change o h s c t =
    let here : (seat == seat) ≡ true = (direction_eq.beq_iff seat seat).1 refl in
    (change o, rw (here, h) refl, s, c, t)
