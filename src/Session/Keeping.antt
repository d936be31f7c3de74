-- ===== src/Session/Keeping.antt =====
-- What a change of the tables of a session keeps (src/sessions.rs).
use bridge_table_service.Bridge.{Direction}
use bridge_table_service.Prelude.{
  List, Option, Option-cases, String, [], ap, false, get_elem?, inl, inr, length, map, none, refl,
  some, some-injective, string_eq, subst, suc, sym, true, zero, ℕ, ◌++◌, ◌==◌, ◌∙◌, ◌∷◌, ◌≡◌,
}
use bridge_table_service.Room.{Occupant, RoomInner}
use bridge_table_service.Session.{SessionRoom}
use bridge_table_service.Session.Arrivals.{first_room, set_room}

-- Every connected occupant but `sub` keeps the seat.
pub record KeepsSeats (sub : String) (r r' : RoomInner) : Type 0 where
  pub kept :
      (d : Direction) (o : Occupant)
      → r.seats d ≡ some o
      → o.connected ≡ true
      → (o.sub == sub) ≡ false
      → r'.seats d ≡ some o

-- Every room is still at its place, with its number, and keeps the connected occupants but `sub`.
pub Keeps : String → List SessionRoom → List SessionRoom → Type 0
Keeps sub rooms rooms' =
    (i : ℕ) (x : SessionRoom)
    → get_elem? rooms i ≡ some x
    → (y : SessionRoom) × (get_elem? rooms' i ≡ some y)
      × (y.id ≡ x.id)
      × KeepsSeats sub x.inner y.inner

-- A connected occupant `sub` holds the seat.
unfoldable pub HeldBy : String → RoomInner → Direction → Type 0
HeldBy sub r d =
    (o : Occupant) × (r.seats d ≡ some o)
    × (o.sub ≡ sub)
    × (o.connected ≡ true)
    × (o.disconnected_at ≡ none)

-- Some room has the number and the property.
unfoldable pub SomeRoom : List SessionRoom → ℕ → (RoomInner → Type 0) → Type 0
SomeRoom rooms id P =
    (i : ℕ) × (x : SessionRoom) × (get_elem? rooms i ≡ some x) × (x.id ≡ id) × P x.inner

pub KeepsSeats-refl : (sub : String) (r : RoomInner) → KeepsSeats sub r r
KeepsSeats-refl sub r = record { kept = λ d o h c n. h }

pub KeepsSeats-trans :
    (sub : String) (q r t : RoomInner)
    → KeepsSeats sub q r
    → KeepsSeats sub r t
    → KeepsSeats sub q t
KeepsSeats-trans sub q r t a b = record { kept = λ d o h c n. b.kept d o (a.kept d o h c n) c n }

pub Keeps-refl : (sub : String) (rooms : List SessionRoom) → Keeps sub rooms rooms
unfolding Keeps
Keeps-refl sub rooms i x h = (x, h, refl, KeepsSeats-refl sub x.inner)

pub Keeps-trans :
    (sub : String) (xs ys zs : List SessionRoom)
    → Keeps sub xs ys
    → Keeps sub ys zs
    → Keeps sub xs zs
unfolding Keeps
Keeps-trans sub xs ys zs a b i x h =
    let (y, hy, iy, ky) = a i x h in
    let (z, hz, iz, kz) = b i y hy in
    (z, hz, iz ∙ iy, KeepsSeats-trans sub x.inner y.inner z.inner ky kz)

pub Keeps-cons :
    (sub : String) (x : SessionRoom) (inner : RoomInner) (xs ys : List SessionRoom)
    → KeepsSeats sub x.inner inner
    → Keeps sub xs ys
    → Keeps sub (x ∷ xs) (record x { inner = inner } ∷ ys)
unfolding Keeps
Keeps-cons sub x inner xs ys k rest zero z h =
    let e = some-injective x z h in
    (
      record x { inner = inner },
      refl,
      ap (λ (w : SessionRoom). w.id) e,
      subst (λ (w : SessionRoom). KeepsSeats sub w.inner inner) e k,
    )
Keeps-cons sub x inner xs ys k rest (suc i) z h = rest i z h

pub Keeps-append : (sub : String) (xs ys : List SessionRoom) → Keeps sub xs (xs ++ ys)
unfolding Keeps
Keeps-append sub [] ys i x h = absurd (cc)
Keeps-append sub (x ∷ xs) ys zero z h = (z, h, refl, KeepsSeats-refl sub z.inner)
Keeps-append sub (x ∷ xs) ys (suc i) z h = Keeps-append sub xs ys i z h

pub Keeps-map :
    (sub : String) (change : SessionRoom → RoomInner)
    → ((x : SessionRoom) → KeepsSeats sub x.inner (change x))
    → (xs : List SessionRoom)
    → Keeps sub xs (map (λ (x : SessionRoom). record x { inner = change x }) xs)
unfolding Keeps
Keeps-map sub change k [] = Keeps-refl sub []
Keeps-map sub change k (x ∷ xs) = Keeps-cons sub x (change x) xs _ (k x) (Keeps-map sub change k xs)

pub Keeps-set_room :
    (sub : String) (xs : List SessionRoom) (i : ℕ) (x : SessionRoom) (inner : RoomInner)
    → get_elem? xs i ≡ some x
    → KeepsSeats sub x.inner inner
    → Keeps sub xs (set_room xs i inner)
unfolding set_room Keeps
Keeps-set_room sub [] i x inner h k = absurd (cc)
Keeps-set_room sub (y ∷ xs) zero x inner h k =
    Keeps-cons sub y inner xs xs
      (subst (λ (w : SessionRoom). KeepsSeats sub w.inner inner) (sym (some-injective y x h)) k)
      (Keeps-refl sub xs)
Keeps-set_room sub (y ∷ xs) (suc i) x inner h k =
    Keeps-cons sub y y.inner xs (set_room xs i inner) (KeepsSeats-refl sub y.inner)
      (Keeps-set_room sub xs i x inner h k)

pub set_room-get :
    (xs : List SessionRoom) (i : ℕ) (x : SessionRoom) (inner : RoomInner)
    → get_elem? xs i ≡ some x
    → get_elem? (set_room xs i inner) i ≡ some (record x { inner = inner })
unfolding set_room
set_room-get [] i x inner h = absurd (cc)
set_room-get (y ∷ xs) zero x inner h =
    ap (λ (w : SessionRoom). some (record w { inner = inner })) (some-injective y x h)
set_room-get (y ∷ xs) (suc i) x inner h = set_room-get xs i x inner h

pub get_elem-append_end :
    (xs : List SessionRoom) (x : SessionRoom) → get_elem? (xs ++ x ∷ []) (length xs) ≡ some x
get_elem-append_end [] x = refl
get_elem-append_end (y ∷ xs) x = get_elem-append_end xs x

module _ (sub : String) (try_room : SessionRoom → RoomInner × Option Direction)
    (keeps : (x : SessionRoom) → KeepsSeats sub x.inner (try_room x).0)
    (holds : (x : SessionRoom) (d : Direction)
      → (try_room x).1 ≡ some d
      → HeldBy sub (try_room x).0 d) where
  pub Keeps-first_room : (xs : List SessionRoom) → Keeps sub xs (first_room try_room xs).0
  unfolding first_room
  Keeps-first_room [] = Keeps-refl sub []
  Keeps-first_room (x ∷ xs) = elim (Option-cases (try_room x).1) [
    | inl e ↦
        rw (first_room, e) (Keeps-cons sub x (try_room x).0 xs _ (keeps x) (Keeps-first_room xs))
    | inr (a, e) ↦
        rw (first_room, e) (Keeps-cons sub x (try_room x).0 xs xs (keeps x) (Keeps-refl sub xs))
  ]

  pub first_room-holds :
      (xs : List SessionRoom) (id : ℕ) (d : Direction)
      → (first_room try_room xs).1 ≡ some (id, d)
      → SomeRoom (first_room try_room xs).0 id (λ r. HeldBy sub r d)
  unfolding first_room SomeRoom
  first_room-holds [] id d h = absurd (cc)
  first_room-holds (x ∷ xs) id d h = elim (Option-cases (try_room x).1) [
    | inl e ↦
        let there : (first_room try_room xs).1 ≡ some (id, d) = rw (first_room, e) at h in
        let (i, y, hy, iy, k) = first_room-holds xs id d there in
        rw (first_room, e) (suc i, y, hy, iy, k)
    | inr (a, e) ↦
        let here : some (x.id, a) ≡ some (id, d) = rw (first_room, e) at h in
        let same = some-injective _ _ here in
        rw (first_room, e)
          (
            0,
            record x { inner = (try_room x).0 },
            refl,
            ap (λ (p : ℕ × Direction). p.0) same,
            holds x d (e ∙ ap (λ (p : ℕ × Direction). some p.1) same),
          )
  ]
