-- ===== src/Protocol/Rebinding.antt =====
-- What a connection holds after it has looked again (src/routes/ws.rs, `resolve_seats`).
use bridge_table_service.Bridge.{Direction, direction_beq, direction_eq, east, north, south, west}
use bridge_table_service.Prelude.{
  Bool, Bool-cases, List, List-cases, Option, String, [], all, ap, arith, contains, contains-filter,
  false, filter, get_elem?, if◌then◌else◌, inl, inr, is_empty, map, nat_eq, none, refl, some,
  some-injective, string_eq, subst, suc, sym, true, zero, ℕ, ◌&&◌, ◌++◌, ◌==◌, ◌||◌, ◌↔◌, ◌∙◌, ◌∷◌,
  ◌≡◌, ◌⊎◌,
}
use bridge_table_service.Protocol.Joining.{resolve_seats, sorted_seats}
use bridge_table_service.Room.{Occupant}
use bridge_table_service.Room.Seats.{entry_is}
use bridge_table_service.Session.{Session, SessionRoom}
use bridge_table_service.Session.Control.{moved}
use bridge_table_service.Session.Kicked.{contains-held_in}
use bridge_table_service.Session.Members.{find_all_seated, held_in}
use bridge_table_service.Table.Log.{at}

-- The participant sits in the seat at a table of the number.
pub SitsAt : String → ℕ → Direction → List SessionRoom → Type 0
SitsAt sub id d rooms =
    (i : ℕ) × (x : SessionRoom) × (get_elem? rooms i ≡ some x)
    × (x.id ≡ id)
    × ((o : Occupant) × (x.inner.seats d ≡ some o) × (o.sub ≡ sub))

-- The seats of a list that are at the table.
abbrev held_at : ℕ → List (ℕ × Direction) → List Direction
held_at id ps = map (λ (p : ℕ × Direction). p.1) (filter (λ (p : ℕ × Direction). p.0 == id) ps)

held_at-append :
    (id : ℕ) (ps qs : List (ℕ × Direction)) (d : Direction)
    → contains (held_at id (ps ++ qs)) d
      ≡ (contains (held_at id ps) d || contains (held_at id qs) d)
held_at-append id [] qs d = refl
held_at-append id (p ∷ ps) qs d =
    let rest = held_at-append id ps qs d in
    elim (Bool-cases (p.0 == id)) [ inl e ↦ rw e (ground (arith, rest)) | inr e ↦ rw e rest ]

held_at-map :
    (id n : ℕ) (ds : List Direction) (d : Direction)
    → contains (held_at id (map (λ d. (n, d)) ds)) d ≡ ((n == id) && contains ds d)
held_at-map id n [] d = ground arith
held_at-map id n (e ∷ ds) d =
    let rest = held_at-map id n ds d in
    elim (Bool-cases (n == id)) [
      | inl same ↦ rw same (ground (arith, rest, same))
      | inr other ↦ rw other (ground (arith, rest, other))
    ]

all_four :
    (seats : List Direction) (d : Direction)
    → (contains (east ∷ north ∷ south ∷ west ∷ []) d && contains seats d) ≡ contains seats d
unfolding direction_beq
all_four seats north = refl
all_four seats east = refl
all_four seats south = refl
all_four seats west = refl

contains-sorted_seats :
    (seats : List Direction) (d : Direction) → contains (sorted_seats seats) d ≡ contains seats d
unfolding sorted_seats
contains-sorted_seats seats d =
    contains-filter (λ d. contains seats d) (east ∷ north ∷ south ∷ west ∷ []) d ∙ all_four seats d

all-contains :
    (p : Direction → Bool) (ds : List Direction) (d : Direction)
    → all p ds ≡ true
    → contains ds d ≡ true
    → p d ≡ true
all-contains p [] d h c = absurd (cc)
all-contains p (e ∷ ds) d h c = ground (arith, all-contains p ds d, direction_eq.beq_iff e d)

entry-sub :
    (sub : String) (e : Option Occupant)
    → (entry_is (λ (o : Occupant). o.sub == sub) e ≡ true)
      ↔ ((o : Occupant) × (e ≡ some o) × (o.sub ≡ sub))
unfolding entry_is
entry-sub sub none = ((λ h. absurd (cc)), (λ (o, e, h). absurd (cc)))
entry-sub sub (some o) = (
  (λ h. (o, refl, (string_eq.beq_iff o.sub sub).0 h)),
  (λ (o', e, h).
      (string_eq.beq_iff o.sub sub).1 (ap (λ (o : Occupant). o.sub) (some-injective o o' e) ∙ h)),
)

if-Holds :
    {A : Type 0} (P : A → Type 0) (b : Bool) (x y : A)
    → (b ≡ true → P x)
    → (b ≡ false → P y)
    → P (if b then x else y)
if-Holds P true x y p q = p refl
if-Holds P false x y p q = q refl

same_truth : (a b : Bool) → (a ≡ true → b ≡ true) → (b ≡ true → a ≡ true) → a ≡ b
same_truth true b to from = sym (to refl)
same_truth false true to from = from refl
same_truth false false to from = refl

empty-contains : (ds : List Direction) (d : Direction) → is_empty ds ≡ true → contains ds d ≡ false
empty-contains [] d h = refl
empty-contains (e ∷ ds) d h = absurd (cc)

or_true : (a b : Bool) → (a || b) ≡ true → (a ≡ true) ⊎ (b ≡ true)
or_true true b h = inl refl
or_true false b h = inr h

or_right : (a b : Bool) → b ≡ true → (a || b) ≡ true
or_right true b h = refl
or_right false b h = h

and_true : (a b : Bool) → (a && b) ≡ true → (a ≡ true) × (b ≡ true)
and_true true b h = (refl, h)
and_true false b h = absurd (cc)

module _ (order : SessionRoom → List Direction)
    (lists : (x : SessionRoom) (d : Direction) → contains (order x) d ≡ true) (sub : String) where
  seated_one :
      (id : ℕ) (d : Direction) (x : SessionRoom) (rooms : List SessionRoom)
      → contains (held_at id (find_all_seated order (x ∷ rooms) sub)) d ≡ (
          ((x.id == id) && entry_is (λ (o : Occupant). o.sub == sub) (x.inner.seats d))
          || contains (held_at id (find_all_seated order rooms sub)) d)
  unfolding find_all_seated
  seated_one id d x rooms =
      let here = held_at-map id x.id (held_in order x sub) d in
      let sits = contains-held_in order lists x sub d in
      held_at-append id (map (λ d. (x.id, d)) (held_in order x sub))
        (find_all_seated order rooms sub) d
      ∙ rw (here, sits) refl

  seated_to :
      (id : ℕ) (d : Direction) (rooms : List SessionRoom)
      → contains (held_at id (find_all_seated order rooms sub)) d ≡ true
      → SitsAt sub id d rooms
  unfolding find_all_seated SitsAt
  seated_to id d [] h = absurd (cc)
  seated_to id d (x ∷ rooms) h =
      let split = sym (seated_one id d x rooms) ∙ h in
      elim (or_true _ _ split) [
        | inl here ↦
            (let (same, sits) = and_true _ _ here in
              (
                0,
                x,
                refl,
                (nat_eq.beq_iff x.id id).0 same,
                (entry-sub sub (x.inner.seats d)).0 sits,
              ))
        | inr elsewhere ↦
            (let (i, y, at, same, sits) = seated_to id d rooms elsewhere in
              (suc i, y, at, same, sits))
      ]

  seated_from :
      (id : ℕ) (d : Direction) (rooms : List SessionRoom) (i : ℕ) (y : SessionRoom)
      → get_elem? rooms i ≡ some y
      → y.id ≡ id
      → entry_is (λ (o : Occupant). o.sub == sub) (y.inner.seats d) ≡ true
      → contains (held_at id (find_all_seated order rooms sub)) d ≡ true
  unfolding find_all_seated
  seated_from id d [] i y at same sits = absurd (cc)
  seated_from id d (x ∷ rooms) zero y at same sits =
      let here = some-injective x y at in
      let same' : (x.id == id) ≡ true =
        (nat_eq.beq_iff x.id id).1 (ap (λ (z : SessionRoom). z.id) here ∙ same) in
      let sits' : entry_is (λ (o : Occupant). o.sub == sub) (x.inner.seats d) ≡ true =
        subst
          (λ (z : SessionRoom). entry_is (λ (o : Occupant). o.sub == sub) (z.inner.seats d) ≡ true)
          (sym here) sits in
      seated_one id d x rooms ∙ rw (same', sits') refl
  seated_from id d (x ∷ rooms) (suc i) y at same sits =
      let rest = seated_from id d rooms i y at same sits in
      seated_one id d x rooms ∙ or_right _ _ rest

  resolved :
      (s : Session) (room : ℕ) (seats : List Direction) (d : Direction)
      → let (s', room', seats', moved) = resolve_seats order s sub room seats in
        contains seats' d ≡ contains (held_at room' (find_all_seated order s.rooms sub)) d
  unfolding resolve_seats
  resolved s room seats d = elim (List-cases (find_all_seated order s.rooms sub)) [
    | inl e ↦ elim (Bool-cases (is_empty seats)) [
      | inl bare ↦ rw (resolve_seats, e, bare) (empty-contains seats d bare)
      | inr some_left ↦ rw (resolve_seats, e, some_left) refl
    ]
    | inr ((target, d0), others, e) ↦
        let ps = (target, d0) ∷ others in
        let held = held_at target ps in
        let Matches : Session × ℕ × List Direction × Bool → Type 0 =
          λ r. contains r.2 d ≡ contains (held_at r.1 ps) d in
        rw (resolve_seats, e)
          (if-Holds Matches
            (target == room && all (λ d. contains held d) seats && all (λ d. contains seats d) held)
            _ _
            (λ kept.
              let (agree, back) = and_true _ _ kept in
              let (same, forth) = and_true _ _ agree in
              subst (λ id. contains seats d ≡ contains (held_at id ps) d)
                ((nat_eq.beq_iff target room).0 same)
                (same_truth _ _ (all-contains (λ d. contains held d) seats d forth)
                  (all-contains (λ d. contains seats d) held d back)))
            (λ changes. contains-sorted_seats held d))
  ]

  -- After a connection has looked again, its seats are exactly those in which its participant sits at the
  -- table that it is at then: none if the participant sits nowhere. The order in which a room's seats
  -- are walked lists every seat.
  pub resolve_seats-SitsAt :
      (s : Session) (room : ℕ) (seats : List Direction) (d : Direction)
      → let (s', room', seats', moved) = resolve_seats order s sub room seats in
        (contains seats' d ≡ true) ↔ SitsAt sub room' d s.rooms
  unfolding SitsAt
  resolve_seats-SitsAt s room seats d =
      let id = (resolve_seats order s sub room seats).1 in
      let same = resolved s room seats d in
      (
        (λ h. seated_to id d s.rooms (sym same ∙ h)),
        (λ (i, y, at, e, sits).
            same ∙ seated_from id d s.rooms i y at e ((entry-sub sub (y.inner.seats d)).1 sits)),
      )
