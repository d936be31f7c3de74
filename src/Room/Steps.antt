-- ===== src/Room/Steps.antt =====
-- The steps of a room's seats, and what holds of every room that they reach (src/rooms.rs with its
-- callers in src/sessions.rs and src/routes/ws.rs).
use mathlib.Core.Option
use bridge_table_service.Bridge.{Direction, direction_eq, east, north, south, west}
use bridge_table_service.Prelude.{
  Bool-cases, List, Option-cases, String, [], arith, false, if◌then◌else◌, inl, inr, none, not,
  refl, some, some-injective, string_eq, subst, sym, true, ℕ, ◌&&◌, ◌==◌, ◌∷◌, ◌≡◌,
}
use bridge_table_service.Room.{Occupant, RoomInner, TakeoverGrace, new_room}
use bridge_table_service.Room.Seats.{
  add_seat, arrival, cancel_reservation, drop_seat, find_seat, first_vacant, insert_at,
  mark_disconnected, rebound, remove_at, reserved_seat_for, seat_or_rebind, set_bot, set_empty,
  sweep_reservations, try_place, try_reserve, try_seat, update_at, vacate,
}
use bridge_table_service.Session.{SessionRoom}
use bridge_table_service.Session.Control.{moved, seated_at}
use bridge_table_service.Session.Place.{reclaim, reconnect, redeem}
use bridge_table_service.Table.{BoardSetup}

-- An occupant who is away has the time of the disconnection noted, and one who is here has not.
pub record IsClocked (o : Occupant) : Type 0 where
  pub away : o.connected ≡ false → (t : ℕ) × (o.disconnected_at ≡ some t)
  pub here : o.connected ≡ true → o.disconnected_at ≡ none

-- A step of the seats: what the callers do under the lock of the room. `empty` and `bot_sits` are the arms
-- of `assign_seat` that vacate a seat, `move` its arm for moving and swapping, `assign` its arm for a
-- connection; `rebind`, `redeemed` and `claim_back` are the steps 1, 1.5 and 2.5 of `place_seat`, for which `x` is the
-- room with its number.
pub data SeatStep (r : RoomInner) : RoomInner → Type 0 where
  sit : (seat : Direction) (sub name : String) → SeatStep r (try_seat r seat sub name).0
  move : (f t : Direction) (o : Occupant) → r.seats f ≡ some o → SeatStep r (moved r f t o)
  assign : (seat : Direction) (sub name : String) → SeatStep r (seated_at r seat sub name)
  rebind :
      (order : SessionRoom → List Direction) (sub name : String) (x : SessionRoom)
      → x.inner ≡ r
      → SeatStep r (reconnect order sub name x).0
  redeemed :
      (order : SessionRoom → List Direction) (now : ℕ) (sub name : String) (x : SessionRoom)
      → x.inner ≡ r
      → SeatStep r (redeem order now sub name x).0
  claim_back :
      (order : SessionRoom → List Direction) (sub name : String) (x : SessionRoom)
      → x.inner ≡ r
      → SeatStep r (reclaim order sub name x).0
  rejoin :
      (order : List Direction) (sub name : String) → SeatStep r (seat_or_rebind order r sub name).0
  give_up : (seat : Direction) → SeatStep r (vacate r seat).0
  empty : (seat : Direction) → SeatStep r (set_empty (vacate r seat).0 seat)
  bot_sits : (seat : Direction) → SeatStep r (set_bot (vacate r seat).0 seat)
  hold :
      (seat : Direction) (sub name : String) (expires_at : ℕ)
      → SeatStep r (try_reserve r seat sub name expires_at).0
  release : (seat : Direction) → SeatStep r (cancel_reservation r seat).0
  sweep : (order : List Direction) (now : ℕ) → SeatStep r (sweep_reservations order r now).0
  drop : (sub : String) (now : ℕ) → SeatStep r (mark_disconnected r sub now)

-- The rooms that steps reach from a new one.
pub data RoomReach (board : BoardSetup) (grace : TakeoverGrace) : RoomInner → Type 0 where
  fresh : RoomReach board grace (new_room board grace)
  then_step :
      {r r' : RoomInner} → RoomReach board grace r → SeatStep r r' → RoomReach board grace r'

-- A seat that is kept empty has nobody in it, and every occupant is clocked.
pub record IsTidy (r : RoomInner) : Type 0 where
  pub kept_empty : (d : Direction) → r.no_bot d ≡ true → r.seats d ≡ none
  pub clocked : (d : Direction) (o : Occupant) → r.seats d ≡ some o → IsClocked o

arrival-IsClocked : (sub name : String) → IsClocked (arrival sub name)
unfolding arrival
arrival-IsClocked sub name = record { away = λ e. absurd (cc); here = λ e. refl }

seated-IsTidy :
    (r : RoomInner) (seat : Direction) (o : Occupant)
    → IsTidy r
    → IsClocked o
    → IsTidy (record r { seats = insert_at seat o r.seats; no_bot = drop_seat seat r.no_bot })
unfolding insert_at drop_seat
seated-IsTidy r seat o t c = record {
  kept_empty = λ d e. elim (Bool-cases (d == seat)) [
    | inl same ↦ absurd (ground arith)
    | inr other ↦ rw other (t.kept_empty d (ground arith))
  ];
  clocked = λ d o' e. elim (Bool-cases (d == seat)) [
    | inl same ↦
        (let e' : some o ≡ some o' = rw same at e in subst IsClocked (some-injective o o' e') c)
    | inr other ↦ (let e' : r.seats d ≡ some o' = rw other at e in t.clocked d o' e')
  ];
}

try_place-IsTidy :
    (r : RoomInner) (seat : Direction) (o : Occupant)
    → IsTidy r
    → IsClocked o
    → IsTidy (try_place r seat o).0
unfolding try_place
try_place-IsTidy r seat o t c = elim (Option-cases (r.seats seat)) [
  | inl e ↦ rw (try_place, e) (seated-IsTidy r seat o t c)
  | inr (p, e) ↦ rw (try_place, e) t
]

vacate-IsTidy : (r : RoomInner) (seat : Direction) → IsTidy r → IsTidy (vacate r seat).0
unfolding vacate remove_at
vacate-IsTidy r seat t = record {
  kept_empty = λ d e. ground (arith, t.kept_empty d);
  clocked = λ d o e. t.clocked d o (ground arith);
}

emptied-IsTidy :
    (r : RoomInner) (seat : Direction) → IsTidy r → IsTidy (set_empty (vacate r seat).0 seat)
unfolding set_empty vacate remove_at add_seat
emptied-IsTidy r seat t = record {
  kept_empty = λ d e. ground (arith, t.kept_empty d);
  clocked = λ d o e. t.clocked d o (ground arith);
}

set_bot-IsTidy : (r : RoomInner) (seat : Direction) → IsTidy r → IsTidy (set_bot r seat)
unfolding set_bot drop_seat
set_bot-IsTidy r seat t = record {
  kept_empty = λ d e. t.kept_empty d (ground arith);
  clocked = t.clocked;
}

try_reserve-IsTidy :
    (r : RoomInner) (seat : Direction) (sub name : String) (expires_at : ℕ)
    → IsTidy r
    → IsTidy (try_reserve r seat sub name expires_at).0
unfolding try_reserve drop_seat
try_reserve-IsTidy r seat sub name expires_at t = elim (Option-cases (r.seats seat)) [
  | inl e ↦
      rw (try_reserve, e)
        (record { kept_empty = λ d h. t.kept_empty d (ground arith); clocked = t.clocked })
  | inr (p, e) ↦ rw (try_reserve, e) t
]

-- A change to the occupants that keeps each seat's being held, and their clocks.
changed-IsTidy :
    (r : RoomInner) (change : Direction → Occupant → Occupant)
    → ((d : Direction) (o : Occupant) → IsClocked o → IsClocked (change d o))
    → IsTidy r
    → IsTidy (record r { seats = λ d. Option.map (change d) (r.seats d) })
changed-IsTidy r change keeps t = record {
  kept_empty = λ d e. rw (t.kept_empty d e) refl;
  clocked = λ d o e. elim (Option-cases (r.seats d)) [
    | inl vacant ↦ absurd (cc)
    | inr (p, held) ↦
        (let e' : some (change d p) ≡ some o = rw held at e in
          subst IsClocked (some-injective (change d p) o e') (keeps d p (t.clocked d p held)))
  ];
}

first_vacant-IsTidy :
    (r : RoomInner) (order : List Direction) (sub name : String)
    → IsTidy r
    → IsTidy (first_vacant r order sub name).0
unfolding first_vacant
first_vacant-IsTidy r [] sub name t = t
first_vacant-IsTidy r (d ∷ order) sub name t = elim (Option-cases (r.seats d)) [
  | inl e ↦
      rw (first_vacant, e) (seated-IsTidy r d (arrival sub name) t (arrival-IsClocked sub name))
  | inr (p, e) ↦ rw (first_vacant, e) (first_vacant-IsTidy r order sub name t)
]

rebound-IsClocked : (name : String) (o : Occupant) → IsClocked (rebound name o)
unfolding rebound
rebound-IsClocked name o = record { away = λ e. absurd (cc); here = λ e. refl }

updated-IsTidy :
    (r : RoomInner) (seat : Direction) (change : Occupant → Occupant)
    → ((o : Occupant) → IsClocked (change o))
    → IsTidy r
    → IsTidy (record r { seats = update_at seat change r.seats })
unfolding update_at
updated-IsTidy r seat change clocks t = record {
  kept_empty = λ d e. rw (t.kept_empty d e) (ground arith);
  clocked = λ d o e. elim (Bool-cases (d == seat)) [
    | inl same ↦ elim (Option-cases (r.seats d)) [
      | inl vacant ↦ absurd (cc)
      | inr (p, held) ↦
          (let e' : some (change p) ≡ some o = rw (same, held) at e in
            subst IsClocked (some-injective (change p) o e') (clocks p))
    ]
    | inr other ↦ (let e' : r.seats d ≡ some o = rw other at e in t.clocked d o e')
  ];
}

mark_disconnected-IsTidy :
    (r : RoomInner) (sub : String) (now : ℕ) → IsTidy r → IsTidy (mark_disconnected r sub now)
unfolding mark_disconnected
mark_disconnected-IsTidy r sub now t =
    changed-IsTidy r
      (λ d o.
        if o.sub == sub then record o { connected = false; disconnected_at = some now } else o)
      (λ d o c. elim (Bool-cases (o.sub == sub)) [
        | inl same ↦ rw same (record { away = λ e. (now, refl); here = λ e. absurd (cc) })
        | inr other ↦ rw other c
      ])
      t

seat_or_rebind-IsTidy :
    (order : List Direction) (r : RoomInner) (sub name : String)
    → IsTidy r
    → IsTidy (seat_or_rebind order r sub name).0
unfolding seat_or_rebind update_at rebound
seat_or_rebind-IsTidy order r sub name t =
    elim (Option-cases (find_seat order (λ o. o.sub == sub) r.seats)) [
      | inl e ↦
          rw (seat_or_rebind, e)
            (first_vacant-IsTidy r (north ∷ south ∷ west ∷ east ∷ []) sub name t)
      | inr (d, e) ↦
          rw (seat_or_rebind, e) (updated-IsTidy r d (rebound name) (rebound-IsClocked name) t)
    ]

try_seat-IsTidy :
    (r : RoomInner) (seat : Direction) (sub name : String)
    → IsTidy r
    → IsTidy (try_seat r seat sub name).0
unfolding try_seat
try_seat-IsTidy r seat sub name t =
    try_place-IsTidy r seat (arrival sub name) t (arrival-IsClocked sub name)

-- An occupant who is moved, and one who changes seats with it, were clocked where they sat.
moved-IsTidy :
    (r : RoomInner) (f t : Direction) (o : Occupant)
    → r.seats f ≡ some o
    → IsTidy r
    → IsTidy (moved r f t o)
unfolding moved
moved-IsTidy r f t o held tidy =
    let left = vacate-IsTidy r f tidy in
    let own = tidy.clocked f o held in
    elim (Option-cases (r.seats t)) [
      | inl e ↦ rw (moved, e) (try_place-IsTidy (vacate r f).0 t o left own)
      | inr (p, e) ↦
          rw (moved, e)
            (try_place-IsTidy (try_place (vacate (vacate r f).0 t).0 t o).0 f p
              (try_place-IsTidy (vacate (vacate r f).0 t).0 t o
                (vacate-IsTidy (vacate r f).0 t left) own)
              (tidy.clocked t p e))
    ]

seated_at-IsTidy :
    (r : RoomInner) (seat : Direction) (sub name : String)
    → IsTidy r
    → IsTidy (seated_at r seat sub name)
unfolding seated_at
seated_at-IsTidy r seat sub name t =
    let clock = arrival-IsClocked sub name in
    elim (Option-cases (r.seats seat)) [
      | inl e ↦ rw (seated_at, e) (try_place-IsTidy r seat (arrival sub name) t clock)
      | inr (p, e) ↦
          rw (seated_at, e)
            (try_place-IsTidy (vacate r seat).0 seat (arrival sub name) (vacate-IsTidy r seat t)
              clock)
    ]

module _ (order : SessionRoom → List Direction) (sub name : String) (x : SessionRoom) where
  reconnect-IsTidy : IsTidy x.inner → IsTidy (reconnect order sub name x).0
  unfolding reconnect
  reconnect-IsTidy t =
      elim (Option-cases (find_seat (order x) (λ (o : Occupant). o.sub == sub) x.inner.seats)) [
        | inl e ↦ rw (reconnect, e) t
        | inr (d, e) ↦
            rw (reconnect, e) (updated-IsTidy x.inner d (rebound name) (rebound-IsClocked name) t)
      ]

  redeem-IsTidy : (now : ℕ) → IsTidy x.inner → IsTidy (redeem order now sub name x).0
  unfolding redeem cancel_reservation
  redeem-IsTidy now t = elim (Option-cases (reserved_seat_for (order x) x.inner sub now)) [
    | inl e ↦ rw (redeem, e) t
    | inr (d, e) ↦
        rw (redeem, e)
          (try_seat-IsTidy (cancel_reservation x.inner d).0 d sub name
            (record { kept_empty = t.kept_empty; clocked = t.clocked }))
  ]

  reclaim-IsTidy : IsTidy x.inner → IsTidy (reclaim order sub name x).0
  unfolding reclaim
  reclaim-IsTidy t =
      let newcomer : Occupant → Occupant =
        λ o. record o { sub = sub; connected = true; disconnected_at = none } in
      elim (Option-cases
        (find_seat (order x) (λ (o : Occupant). not o.connected && o.name == name) x.inner.seats)) [
          | inl e ↦ rw (reclaim, e) t
          | inr (d, e) ↦
              rw (reclaim, e)
                (updated-IsTidy x.inner d newcomer
                  (λ o. record { away = λ e. absurd (cc); here = λ e. refl }) t)
        ]

step-IsTidy : (r r' : RoomInner) → SeatStep r r' → IsTidy r → IsTidy r'
unfolding cancel_reservation sweep_reservations
step-IsTidy r r' (sit seat sub name) t = try_seat-IsTidy r seat sub name t
step-IsTidy r r' (move f to o held) t = moved-IsTidy r f to o held t
step-IsTidy r r' (assign seat sub name) t = seated_at-IsTidy r seat sub name t
step-IsTidy r r' (rebind order sub name x e) t =
    reconnect-IsTidy order sub name x (subst IsTidy (sym e) t)
step-IsTidy r r' (redeemed order now sub name x e) t =
    redeem-IsTidy order sub name x now (subst IsTidy (sym e) t)
step-IsTidy r r' (claim_back order sub name x e) t =
    reclaim-IsTidy order sub name x (subst IsTidy (sym e) t)
step-IsTidy r r' (rejoin order sub name) t = seat_or_rebind-IsTidy order r sub name t
step-IsTidy r r' (give_up seat) t = vacate-IsTidy r seat t
step-IsTidy r r' (empty seat) t = emptied-IsTidy r seat t
step-IsTidy r r' (bot_sits seat) t = set_bot-IsTidy (vacate r seat).0 seat (vacate-IsTidy r seat t)
step-IsTidy r r' (hold seat sub name expires_at) t = try_reserve-IsTidy r seat sub name expires_at t
step-IsTidy r r' (release seat) t = record { kept_empty = t.kept_empty; clocked = t.clocked }
step-IsTidy r r' (sweep order now) t = record { kept_empty = t.kept_empty; clocked = t.clocked }
step-IsTidy r r' (drop sub now) t = mark_disconnected-IsTidy r sub now t

-- In every room that steps reach, a seat that is kept empty has nobody in it, and an occupant has the
-- time of a disconnection noted exactly while it is away.
pub RoomReach-IsTidy :
    (board : BoardSetup) (grace : TakeoverGrace) (r : RoomInner)
    → RoomReach board grace r
    → IsTidy r
unfolding new_room
RoomReach-IsTidy board grace r fresh = record {
  kept_empty = λ d e. refl;
  clocked = λ d o e. absurd (cc);
}
RoomReach-IsTidy board grace r (then_step {r = r0} reached s) =
    step-IsTidy r0 r s (RoomReach-IsTidy board grace r0 reached)
