-- ===== src/Room/Seating.antt =====
-- What seating does to a room (src/rooms.rs, `seat_or_rebind`).
use bridge_table_service.Bridge.{
  Direction, direction_beq, direction_beq_iff, direction_eq, east, north, south, west,
}
use bridge_table_service.Prelude.{
  Bool-cases, List, Option, Option-cases, String, [], arith, contains, false, find-none, find-some,
  inl, inr, is_some, is_some-cases, none, refl, some, string_eq, true, ◌==◌, ◌∷◌, ◌≡◌, ◌≢◌, ◌⊎◌,
}
use bridge_table_service.Room.{Occupant, RoomInner, SeatMap}
use bridge_table_service.Room.Seats.{
  arrival, drop_seat, entry_is, find_seat, first_vacant, insert_at, rebound, seat_or_rebind,
  update_at,
}

-- Nobody sits under `sub`.
pub IsAbsent : String → RoomInner → Type 0
IsAbsent sub r = (d : Direction) (o : Occupant) → r.seats d ≡ some o → o.sub ≢ sub

-- The occupant `sub`, `name` sits at `seat` in `r'`, connected; the seat was free or already theirs in
-- `r`, and nothing else about the seats has changed.
pub record SeatedAt (r r' : RoomInner) (seat : Direction) (sub name : String) : Type 0 where
  pub sits : r'.seats seat ≡ some (arrival sub name)
  pub displaces_nobody :
      ((r.seats seat ≡ none) × IsAbsent sub r)
      ⊎ ((o : Occupant) × (r.seats seat ≡ some o) × (o.sub ≡ sub))
  pub others_stay : (d : Direction) → d ≢ seat → r'.seats d ≡ r.seats d

-- Every seat is held by somebody else.
abbrev pub IsFullFor : String → RoomInner → Type 0
IsFullFor sub r = (d : Direction) → (o : Occupant) × (r.seats d ≡ some o) × (o.sub ≢ sub)

insert_at_self : {V : Type 0} (d : Direction) (v : V) (m : SeatMap V) → insert_at d v m d ≡ some v
unfolding insert_at
insert_at_self d v m = rw ((direction_beq_iff d d).1 refl)

insert_at-ne :
    {V : Type 0} (d e : Direction) (v : V) (m : SeatMap V) → e ≢ d → insert_at d v m e ≡ m e
unfolding insert_at
insert_at-ne d e v m ne = ground (arith, direction_beq_iff e d)

-- The first vacant seat is taken, and if none is vacant the room stays as it was.
first_vacant_cases :
    (r : RoomInner) (order : List Direction) (sub name : String)
    → IsAbsent sub r
    → ((d : Direction) × (r' : RoomInner) × (first_vacant r order sub name ≡ (r', some d))
        × SeatedAt r r' d sub name)
      ⊎ ((first_vacant r order sub name ≡ (r, none))
          × ((d : Direction) → contains order d ≡ true → is_some (r.seats d) ≡ true))
unfolding first_vacant
first_vacant_cases r [] sub name absent = inr (refl, (λ d h. absurd (cc)))
first_vacant_cases r (d ∷ order) sub name absent = elim (Option-cases (r.seats d)) [
  | inl free ↦ inl (
    d,
    record r { seats = insert_at d (arrival sub name) r.seats; no_bot = drop_seat d r.no_bot },
    rw (first_vacant, free) refl,
    record {
      sits = insert_at_self d (arrival sub name) r.seats;
      displaces_nobody = inl (free, absent);
      others_stay = λ e ne. insert_at-ne d e (arrival sub name) r.seats ne;
    },
  )
  | inr (o, held) ↦ elim (first_vacant_cases r order sub name absent) [
    | inl (e, r', found, s) ↦ inl (e, r', rw (first_vacant, held) found, s)
    | inr (full, every) ↦ inr (
      rw (first_vacant, held) full,
      (λ e h. elim (Bool-cases (d == e)) [
        | inl same ↦ ground (arith, direction_beq_iff d e, held)
        | inr other ↦ every e (ground arith)
      ]),
    )
  ]
]

-- What `find` by a ticket's subject gives is a seat that it holds.
pub held_by :
    (sub : String) (v : Option Occupant)
    → entry_is (λ o. o.sub == sub) v ≡ true
    → (o : Occupant) × (v ≡ some o) × (o.sub ≡ sub)
unfolding entry_is
held_by sub none h = absurd (cc)
held_by sub (some o) h = (o, refl, (string_eq.beq_iff o.sub sub).0 h)

rebind-SeatedAt :
    (r : RoomInner) (d : Direction) (o : Occupant) (sub name : String)
    → r.seats d ≡ some o
    → o.sub ≡ sub
    → SeatedAt r (record r { seats = update_at d (rebound name) r.seats }) d sub name
unfolding update_at rebound arrival
rebind-SeatedAt r d o sub name held same = record {
  sits = rw ((direction_beq_iff d d).1 refl, held, same) refl;
  displaces_nobody = inr (o, held, same);
  others_stay = λ e ne. ground (arith, direction_beq_iff e d);
}

not_held :
    (order : List Direction) (r : RoomInner) (sub : String)
    → find_seat order (λ o. o.sub == sub) r.seats ≡ none
    → ((d : Direction) → contains order d ≡ true)
    → IsAbsent sub r
unfolding find_seat entry_is IsAbsent
not_held order r sub absent lists d o held same =
    let no : entry_is (λ o'. o'.sub == sub) (r.seats d) ≡ false =
      find-none _ order d absent (lists d) in
    let no' : (o.sub == sub) ≡ false = rw held at no in
    absurd (cc (no', (string_eq.beq_iff o.sub sub).1 same))

found_held :
    (order : List Direction) (r : RoomInner) (sub : String) (d : Direction)
    → find_seat order (λ o. o.sub == sub) r.seats ≡ some d
    → (o : Occupant) × (r.seats d ≡ some o) × (o.sub ≡ sub)
unfolding find_seat
found_held order r sub d found = held_by sub (r.seats d) (find-some _ order d found)

all_listed : (d : Direction) → contains (north ∷ south ∷ west ∷ east ∷ []) d ≡ true
unfolding direction_beq
all_listed north = refl
all_listed east = refl
all_listed south = refl
all_listed west = refl

-- A seat is found for every ticket, its own if it has one and a free one if not, unless others hold all
-- four seats, and then the room stays as it was. `order` is the order in which the map is walked,
-- and lists every seat.
pub seat_or_rebind_lem :
    (order : List Direction) (r : RoomInner) (sub name : String)
    → ((d : Direction) → contains order d ≡ true)
    → ((d : Direction) × (r' : RoomInner) × (seat_or_rebind order r sub name ≡ (r', some d))
        × SeatedAt r r' d sub name)
      ⊎ ((seat_or_rebind order r sub name ≡ (r, none)) × IsFullFor sub r)
unfolding seat_or_rebind IsAbsent
seat_or_rebind_lem order r sub name lists =
    elim (Option-cases (find_seat order (λ o. o.sub == sub) r.seats)) [
      | inr (d, found) ↦
          let (o, held, same) = found_held order r sub d found in
          inl (d, _, rw (seat_or_rebind, found) refl, rebind-SeatedAt r d o sub name held same)
      | inl absent ↦
          let free = not_held order r sub absent lists in
          elim (first_vacant_cases r (north ∷ south ∷ west ∷ east ∷ []) sub name free) [
            | inl (d, r', taken, s) ↦ inl (d, r', rw (seat_or_rebind, absent) taken, s)
            | inr (same, held) ↦ inr (
              rw (seat_or_rebind, absent) same,
              (λ d.
                  let (o, e) = is_some-cases (r.seats d) (held d (all_listed d)) in
                  (o, e, free d o e)),
            )
          ]
    ]
