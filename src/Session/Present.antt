-- ===== src/Session/Present.antt =====
-- Who is still there after `assign_seat` (src/sessions.rs).
use bridge_table_service.Bridge.{Direction, direction_eq}
use bridge_table_service.Prelude.{
  Bool-cases, List, List-cases, Option, Option-cases, String, [], ap, arith, contains,
  contains-filter, err, false, get_elem?, inl, inr, is_empty, is_some, nat_eq, none, ok,
  ok-injective, refl, some, some-injective, string_eq, subst, suc, sym, true, zero, ℕ, ◌==◌, ◌∙◌,
  ◌∷◌, ◌≡◌, ◌⊎◌,
}
use bridge_table_service.Room.{Occupant, RoomInner}
use bridge_table_service.Room.Seating.{held_by}
use bridge_table_service.Room.Seats.{entry_is, filter_seats}
use bridge_table_service.Session.{Session, SessionRoom}
use bridge_table_service.Session.Arrivals.{set_room}
use bridge_table_service.Session.Control.{find_room, no_tables, table_named, unknown_table}
use bridge_table_service.Session.Keeping.{set_room-get}
use bridge_table_service.Session.Maps.{get}
use bridge_table_service.Session.Members.{find_all_seated, held_in, seats_of}

-- A participant sits in the room.
unfoldable pub SitsIn : String → RoomInner → Type 0
SitsIn q r = (d : Direction) × (o : Occupant) × (r.seats d ≡ some o) × (o.sub ≡ q)

-- A participant sits in the room, connected.
unfoldable pub LiveIn : String → RoomInner → Type 0
LiveIn q r =
    (d : Direction) × (o : Occupant) × (r.seats d ≡ some o) × (o.sub ≡ q) × (o.connected ≡ true)

-- A participant sits at some table.
unfoldable pub Sits : String → List SessionRoom → Type 0
Sits q rooms = (i : ℕ) × (x : SessionRoom) × (get_elem? rooms i ≡ some x) × SitsIn q x.inner

-- A participant sits at some table or is in the lobby.
unfoldable pub Present : String → Session → Type 0
Present q s = Sits q s.rooms ⊎ (is_some (get q s.kibitzers) ≡ true)

-- A participant is connected at some table or is in the lobby.
unfoldable pub PresentLive : String → Session → Type 0
PresentLive q s =
    ((i : ℕ) × (x : SessionRoom) × (get_elem? s.rooms i ≡ some x) × LiveIn q x.inner)
    ⊎ (is_some (get q s.kibitzers) ≡ true)

pub find_room-get :
    (xs : List SessionRoom) (id i : ℕ) (x : SessionRoom)
    → find_room xs id ≡ some (i, x)
    → get_elem? xs i ≡ some x
unfolding find_room
find_room-get [] id i x h = absurd (cc)
find_room-get (y ∷ xs) id i x h = elim (Bool-cases (y.id == id)) [
  | inl e ↦
      let here : some (0, y) ≡ some (i, x) = rw (find_room, e) at h in
      let same = some-injective (0, y) (i, x) here in
      subst (λ (p : ℕ × SessionRoom). get_elem? (y ∷ xs) p.0 ≡ some p.1) same refl
  | inr e ↦ elim (Option-cases (find_room xs id)) [
    | inl e1 ↦ absurd (let no : none ≡ some (i, x) = rw (find_room, e, e1) at h in cc)
    | inr ((j, z), e1) ↦
        let there : some (suc j, z) ≡ some (i, x) = rw (find_room, e, e1) at h in
        subst (λ (p : ℕ × SessionRoom). get_elem? (y ∷ xs) p.0 ≡ some p.1)
          (some-injective (suc j, z) (i, x) there) (find_room-get xs id j z e1)
  ]
]

pub table_named-get :
    (s : Session) (named : Option ℕ) (i : ℕ) (x : SessionRoom)
    → table_named s named ≡ ok (i, x)
    → get_elem? s.rooms i ≡ some x
unfolding table_named
table_named-get s (some id) i x h = elim (Option-cases (find_room s.rooms id)) [
  | inl e ↦ absurd (let no : err (unknown_table id) ≡ ok (i, x) = rw (table_named, e) at h in cc)
  | inr ((j, y), e) ↦
      let same : ok (j, y) ≡ ok (i, x) = rw (table_named, e) at h in
      find_room-get s.rooms id i x (e ∙ ap some (ok-injective (j, y) (i, x) same))
]
table_named-get s none i x h = elim (List-cases s.rooms) [
  | inl e ↦ absurd (let no : err no_tables ≡ ok (i, x) = rw (table_named, e) at h in cc)
  | inr (y, rooms, e) ↦
      let same : ok (0, y) ≡ ok (i, x) = rw (table_named, e) at h in
      rw e (
        subst (λ (p : ℕ × SessionRoom). get_elem? (y ∷ rooms) p.0 ≡ some p.1)
          (ok-injective (0, y) (i, x) same) refl)
]

-- Whoever sat in a room before it was replaced sat in that one, or still sits.
pub set_room-others :
    (xs : List SessionRoom) (i : ℕ) (x : SessionRoom) (r : RoomInner) (j : ℕ) (y : SessionRoom)
    → get_elem? xs i ≡ some x
    → get_elem? xs j ≡ some y
    → (y ≡ x) ⊎ (get_elem? (set_room xs i r) j ≡ some y)
unfolding set_room
set_room-others [] i x r j y hi hj = absurd (cc)
set_room-others (z ∷ xs) zero x r zero y hi hj = inl (some-injective y x (sym hj ∙ hi))
set_room-others (z ∷ xs) zero x r (suc j) y hi hj = inr hj
set_room-others (z ∷ xs) (suc i) x r zero y hi hj = inr hj
set_room-others (z ∷ xs) (suc i) x r (suc j) y hi hj = set_room-others xs i x r j y hi hj

pub set_room-Sits :
    (q : String) (xs : List SessionRoom) (i : ℕ) (x : SessionRoom) (r : RoomInner)
    → get_elem? xs i ≡ some x
    → SitsIn q r
    → Sits q (set_room xs i r)
unfolding Sits
set_room-Sits q xs i x r h sits = (i, record x { inner = r }, set_room-get xs i x r h, sits)

-- The seats that `seats_of` lists are held.
pub find_all_seated-Sits :
    (order : SessionRoom → List Direction) (xs : List SessionRoom) (q : String)
    → is_empty (seats_of order xs q) ≡ false
    → Sits q xs
unfolding seats_of find_all_seated held_in filter_seats Sits SitsIn
find_all_seated-Sits order [] q h = absurd (cc)
find_all_seated-Sits order (x ∷ xs) q h = elim (List-cases (held_in order x q)) [
  | inl e ↦
      let (i, y, there, sits) =
        find_all_seated-Sits order xs q (rw (seats_of, find_all_seated, e) at h) in
      (suc i, y, there, sits)
  | inr (d, ds, e) ↦
      let listed : contains (held_in order x q) d ≡ true =
        rw e (ground (arith, direction_eq.beq_iff d d)) in
      let both =
        sym (
          contains-filter (λ d. entry_is (λ (o : Occupant). o.sub == q) (x.inner.seats d)) (order x)
            d)
        ∙ listed in
      let passes : entry_is (λ (o : Occupant). o.sub == q) (x.inner.seats d) ≡ true =
        ground arith in
      let (o, held, own) = held_by q (x.inner.seats d) passes in (0, x, refl, (d, o, held, own))
]

pub live-Present : (q : String) (s : Session) → PresentLive q s → Present q s
unfolding PresentLive LiveIn Present Sits SitsIn
live-Present q s (inl (i, x, h, (d, o, held, own, live))) = inl (i, x, h, (d, o, held, own))
live-Present q s (inr waits) = inr waits
