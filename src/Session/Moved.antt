-- ===== src/Session/Moved.antt =====
-- Where the occupants of a room are after a move, and whoever has lost a seat (src/sessions.rs,
-- `assign_seat`).
-- A room with an occupant put at `t` in the place of whoever was there.
use bridge_table_service.Bridge.{Direction, direction_eq}
use bridge_table_service.Prelude.{
  Bool-cases, List, Option, Option-cases, String, ap, arith, false, get_elem?, if◌then◌else◌, inl,
  inr, is_empty, is_some, none, refl, some, some-injective, string_eq, subst, sym, true, ℕ, ◌&&◌,
  ◌==◌, ◌∙◌, ◌≡◌,
}
use bridge_table_service.Room.{Occupant, RoomInner}
use bridge_table_service.Room.Seats.{arrival, insert_at, remove_at, try_place, vacate}
use bridge_table_service.Session.{Session, SessionRoom}
use bridge_table_service.Session.Arrivals.{set_room}
use bridge_table_service.Session.Control.{bench, moved, seated_at}
use bridge_table_service.Session.Entries.{get-insert}
use bridge_table_service.Session.Keeping.{set_room-get}
use bridge_table_service.Session.Maps.{get}
use bridge_table_service.Session.Members.{add_lobby, seats_of}
use bridge_table_service.Session.Present.{
  LiveIn, Present, PresentLive, Sits, SitsIn, find_all_seated-Sits, set_room-others,
}

pub seated_at_lem :
    (r : RoomInner) (t : Direction) (sub name : String) (d : Direction)
    → (seated_at r t sub name).seats d ≡ (if d == t then some (arrival sub name) else r.seats d)
unfolding seated_at vacate try_place remove_at insert_at
seated_at_lem r t sub name d =
    let here : (t == t) ≡ true = (direction_eq.beq_iff t t).1 refl in
    elim (Option-cases (r.seats t)) [
      | inl e ↦ rw (seated_at, try_place, e) (rw (try_place, e) refl)
      | inr (o, e) ↦
          rw (seated_at, try_place, e, here)
            (elim (Bool-cases (d == t)) [ inl e1 ↦ rw e1 refl | inr e1 ↦ rw e1 refl ])
    ]

try_place-free :
    (r : RoomInner) (t : Direction) (o : Occupant) (d : Direction)
    → r.seats t ≡ none
    → (try_place r t o).0.seats d ≡ (if d == t then some o else r.seats d)
unfolding try_place insert_at
try_place-free r t o d e = rw (try_place, e) refl

-- A move puts the one occupant in the place of the other.
moved_lem :
    (r : RoomInner) (f t : Direction) (o : Occupant) (d : Direction)
    → (f == t) ≡ false
    → (moved r f t o).seats d ≡ (if d == t then some o else if d == f then r.seats t else r.seats d)
unfolding moved vacate remove_at
moved_lem r f t o d differs =
    let differs' : (t == f) ≡ false =
      ground (arith, direction_eq.beq_iff f t, direction_eq.beq_iff t f) in
    elim (Option-cases (r.seats t)) [
      | inl e ↦ rw (moved, e) (try_place-free (vacate r f).0 t o d (rw (differs', e) refl))
      | inr (o', e) ↦
          let r2 = (vacate (vacate r f).0 t).0 in
          let here : (t == t) ≡ true = (direction_eq.beq_iff t t).1 refl in
          let here' : (f == f) ≡ true = (direction_eq.beq_iff f f).1 refl in
          let free_t : r2.seats t ≡ none = rw here refl in
          let free_f : (try_place r2 t o).0.seats f ≡ none =
            try_place-free r2 t o f free_t ∙ rw (differs, here') refl in
          let both : (if d == f then some o' else (try_place r2 t o).0.seats d)
              ≡ (if d == f then some o' else if d == t then some o else r2.seats d) =
            rw (try_place-free r2 t o d free_t) refl in
          rw (moved, e)
            (try_place-free (try_place r2 t o).0 f o' d free_f
              ∙ both
              ∙ (elim (Bool-cases (d == t)) [
                | inl e1 ↦
                    let e2 : (d == f) ≡ false = rw ((direction_eq.beq_iff d t).0 e1) differs' in
                    rw (e1, e2) refl
                | inr e1 ↦ (elim (Bool-cases (d == f)) [
                  | inl e2 ↦ rw (e1, e2) refl
                  | inr e2 ↦ rw (e1, e2) refl
                ])
              ]))
    ]

-- Whoever sat in the room sits in it after a move.
pub moved-SitsIn :
    (r : RoomInner) (f t : Direction) (o : Occupant) (q : String)
    → (f == t) ≡ false
    → r.seats f ≡ some o
    → SitsIn q r
    → SitsIn q (moved r f t o)
unfolding SitsIn
moved-SitsIn r f t o q differs held (d, o1, at_d, own) =
    let here : (t == t) ≡ true = (direction_eq.beq_iff t t).1 refl in
    let here' : (f == f) ≡ true = (direction_eq.beq_iff f f).1 refl in
    elim (Bool-cases (d == f)) [
      | inl e ↦
          let at_f = subst (λ d. r.seats d ≡ some o1) ((direction_eq.beq_iff d f).0 e) at_d in
          let same = some-injective o o1 (sym held ∙ at_f) in
          (
            t,
            o,
            moved_lem r f t o t differs ∙ rw here refl,
            ap (λ (o : Occupant). o.sub) same ∙ own,
          )
      | inr e ↦ (elim (Bool-cases (d == t)) [
        | inl e1 ↦
            let at_t = subst (λ d. r.seats d ≡ some o1) ((direction_eq.beq_iff d t).0 e1) at_d in
            (f, o1, moved_lem r f t o f differs ∙ rw (differs, here') at_t, own)
        | inr e1 ↦ (d, o1, moved_lem r f t o d differs ∙ rw (e, e1) at_d, own)
      ])
    ]

module _ (order : SessionRoom → List Direction) where
  pub bench-rooms :
      (s : Session) (id : ℕ) (removed : Option Occupant)
      → (bench order s id removed).rooms ≡ s.rooms
  unfolding bench add_lobby
  bench-rooms s id none = refl
  bench-rooms s id (some o) =
      elim (Bool-cases (o.connected && is_empty (seats_of order s.rooms o.sub))) [
        | inl e ↦ rw (bench, e) refl
        | inr e ↦ rw (bench, e) refl
      ]

  pub bench-Present :
      (s : Session) (id : ℕ) (removed : Option Occupant) (q : String)
      → Present q s
      → Present q (bench order s id removed)
  unfolding bench add_lobby Present
  bench-Present s id none q there = there
  bench-Present s id (some o) q there =
      elim (Bool-cases (o.connected && is_empty (seats_of order s.rooms o.sub))) [
        | inr e ↦ rw (bench, e) there
        | inl e ↦
            rw (bench, e)
              (elim there [
                | inl sits ↦ inl sits
                | inr waits ↦ inr (
                    ap is_some (get-insert q o.sub _ s.kibitzers)
                    ∙ elim (Bool-cases (q == o.sub)) [ inl e1 ↦ rw e1 refl | inr e1 ↦ rw e1 waits ])
              ])
      ]

  -- A connected occupant that loses a seat still sits somewhere, or goes to the lobby.
  pub bench-removed :
      (s : Session) (id : ℕ) (o : Occupant)
      → o.connected ≡ true
      → Present o.sub (bench order s id (some o))
  unfolding bench add_lobby Present
  bench-removed s id o live = elim (Bool-cases (is_empty (seats_of order s.rooms o.sub))) [
    | inl e ↦
        let here : (o.sub == o.sub) ≡ true = (string_eq.beq_iff o.sub o.sub).1 refl in
        rw (bench, live, e) (inr (ap is_some (get-insert o.sub o.sub _ s.kibitzers) ∙ rw here refl))
    | inr e ↦ rw (bench, live, e) (inl (find_all_seated-Sits order s.rooms o.sub e))
  ]

  -- Whoever was there before the room `x` became `r`, and before the occupant of `t` was benched.
  pub arm-Present :
      (s s1 : Session) (i : ℕ) (x : SessionRoom) (r : RoomInner) (t : Direction) (q : String)
      → get_elem? s.rooms i ≡ some x
      → s1.rooms ≡ set_room s.rooms i r
      → (is_some (get q s.kibitzers) ≡ true → Present q s1)
      → ((d : Direction) → (d == t) ≡ false → r.seats d ≡ x.inner.seats d)
      → PresentLive q s
      → Present q (bench order s1 x.id (x.inner.seats t))
  unfolding PresentLive LiveIn Present Sits SitsIn
  arm-Present s s1 i x r t q at_i same waits stays (inr lobby) =
      bench-Present s1 x.id (x.inner.seats t) q (waits lobby)
  arm-Present s s1 i x r t q at_i same waits stays (inl (j, y, at_j, (d, o, held, own, live))) =
      elim (set_room-others s.rooms i x r j y at_i at_j) [
        | inr still ↦
            bench-Present s1 x.id (x.inner.seats t) q
              (inl (j, y, ap (λ rooms. get_elem? rooms j) same ∙ still, (d, o, held, own)))
        | inl e ↦
            let here : x.inner.seats d ≡ some o =
              subst (λ (y : SessionRoom). y.inner.seats d ≡ some o) e held in
            elim (Bool-cases (d == t)) [
              | inr other ↦ bench-Present s1 x.id (x.inner.seats t) q (
                  inl (
                    i,
                    record x { inner = r },
                    ap (λ rooms. get_elem? rooms i) same ∙ set_room-get s.rooms i x r at_i,
                    (d, o, stays d other ∙ here, own),
                  ))
              | inl at_t ↦
                  let gone : x.inner.seats t ≡ some o =
                    subst (λ d. x.inner.seats d ≡ some o) ((direction_eq.beq_iff d t).0 at_t)
                      here in
                  rw gone (
                    subst (λ q. Present q (bench order s1 x.id (some o))) own
                      (bench-removed s1 x.id o live))
            ]
      ]
