-- ===== src/Session/Kicked.antt =====
-- What `kick` does to a session (src/sessions.rs).
use bridge_table_service.Bridge.{Direction, direction_eq}
use bridge_table_service.Prelude.{
  Bool-cases, List, String, [], ap, arith, contains, contains-filter, false, filter, get_elem?,
  if◌then◌else◌, inl, inr, is_empty, map, none, not, ok, refl, some, some-injective, string_eq, suc,
  sym, true, zero, ℕ, ◌&&◌, ◌==◌, ◌∙◌, ◌∷◌, ◌≡◌, ◌≢◌,
}
use bridge_table_service.Room.{Occupant, RoomInner}
use bridge_table_service.Room.Seats.{drop_seat, entry_is, filter_seats, remove_at, set_bot, vacate}
use bridge_table_service.Session.{ConnMeta, Session, SessionRoom}
use bridge_table_service.Session.Control.{free_seats, kick, without}
use bridge_table_service.Session.Entries.{get-remove, get-retain, retain-passes}
use bridge_table_service.Session.Maps.{get}
use bridge_table_service.Session.Members.{conn_meta, held_in}

-- The room without the participant `sub`: the seats that they held are free, and bots take them.
pub record LeftBy (sub : String) (r r' : RoomInner) : Type 0 where
  pub seats :
      (d : Direction)
      → r'.seats d
        ≡ (if entry_is (λ (o : Occupant). o.sub == sub) (r.seats d) then none else r.seats d)
  pub no_bot :
      (d : Direction)
      → r'.no_bot d ≡ (not (entry_is (λ (o : Occupant). o.sub == sub) (r.seats d)) && r.no_bot d)
  pub table : r'.table ≡ r.table
  pub reservations : r'.reservations ≡ r.reservations

-- The session without the participant, with everything else as it was.
pub record Removed (sub : String) (s s' : Session) : Type 0 where
  pub tables :
      (i : ℕ) (x : SessionRoom)
      → get_elem? s.rooms i ≡ some x
      → (y : SessionRoom) × (get_elem? s'.rooms i ≡ some y)
        × (y.id ≡ x.id)
        × LeftBy sub x.inner y.inner
  pub lobby : (q : String) → get q s'.kibitzers ≡ (if q == sub then none else get q s.kibitzers)
  pub disconnected :
      (token : String) (m : ConnMeta) → get token s'.connections ≡ some m → m.sub ≢ sub
  pub others_connected :
      (token : String) (m : ConnMeta)
      → get token s.connections ≡ some m
      → m.sub ≢ sub
      → get token s'.connections ≡ some m

-- What freeing seats leaves, seat by seat.
free_seats_lem :
    (held : List Direction) (r : RoomInner) (d : Direction)
    → ((free_seats held r).seats d ≡ (if contains held d then none else r.seats d))
      × ((free_seats held r).no_bot d ≡ (not (contains held d) && r.no_bot d))
unfolding free_seats vacate remove_at set_bot drop_seat
free_seats_lem [] r d = (refl, refl)
free_seats_lem (seat ∷ held) r d =
    let (seats, bots) = free_seats_lem held (set_bot (vacate r seat).0 seat) d in
    elim (Bool-cases (d == seat)) [
      | inl e ↦
          let e1 : (seat == d) ≡ true =
            (direction_eq.beq_iff seat d).1 (sym ((direction_eq.beq_iff d seat).0 e)) in
          (rw e1 (seats ∙ ground arith), rw e1 (bots ∙ ground arith))
      | inr e ↦
          let e1 : (seat == d) ≡ false =
            ground (arith, direction_eq.beq_iff seat d, direction_eq.beq_iff d seat) in
          (rw e1 (seats ∙ ground arith), rw e1 (bots ∙ ground arith))
    ]

free_seats-same :
    (held : List Direction) (r : RoomInner)
    → ((free_seats held r).table ≡ r.table) × ((free_seats held r).reservations ≡ r.reservations)
unfolding free_seats vacate set_bot
free_seats-same [] r = (refl, refl)
free_seats-same (seat ∷ held) r = free_seats-same held (set_bot (vacate r seat).0 seat)

module _ (order : SessionRoom → List Direction)
    (lists : (x : SessionRoom) (d : Direction) → contains (order x) d ≡ true) where
  pub contains-held_in :
      (x : SessionRoom) (sub : String) (d : Direction)
      → contains (held_in order x sub) d
        ≡ entry_is (λ (o : Occupant). o.sub == sub) (x.inner.seats d)
  unfolding held_in filter_seats
  contains-held_in x sub d =
      contains-filter (λ d. entry_is (λ (o : Occupant). o.sub == sub) (x.inner.seats d)) (order x) d
      ∙ rw (lists x d) refl

  freed-LeftBy :
      (x : SessionRoom) (sub : String)
      → LeftBy sub x.inner (free_seats (held_in order x sub) x.inner)
  freed-LeftBy x sub =
      let (table, reservations) = free_seats-same (held_in order x sub) x.inner in
      record {
        seats =
            λ d. rw⁻¹ (contains-held_in x sub d) (free_seats_lem (held_in order x sub) x.inner d).0;
        no_bot =
            λ d. rw⁻¹ (contains-held_in x sub d) (free_seats_lem (held_in order x sub) x.inner d).1;
        table = table;
        reservations = reservations;
      }

  get_elem-map :
      (change : SessionRoom → SessionRoom) (xs : List SessionRoom) (i : ℕ) (x : SessionRoom)
      → get_elem? xs i ≡ some x
      → get_elem? (map change xs) i ≡ some (change x)
  get_elem-map change [] i x h = absurd (cc)
  get_elem-map change (y ∷ xs) zero x h = ap (λ y. some (change y)) (some-injective y x h)
  get_elem-map change (y ∷ xs) (suc i) x h = get_elem-map change xs i x h

  -- Kicking a connection succeeds, and removes the participant behind it from the session: every seat that
  -- they hold is free with a bot in it, their place in the lobby is gone and so is each of their connections.
  -- All others keep their seats, their places in the lobby and their connections, and the tables go on.
  pub kick-Removed :
      (s : Session) (token : String) (m : ConnMeta)
      → get token s.connections ≡ some m
      → (s' : Session) × (changed : List ℕ) × (kick order s token ≡ ok (s', changed))
        × Removed m.sub s s'
  unfolding kick conn_meta without
  kick-Removed s token m h = (
    without order s m.sub,
    map (λ (x : SessionRoom). x.id)
        (filter (λ (x : SessionRoom). not (is_empty (held_in order x m.sub))) s.rooms),
    rw (kick, conn_meta, h) refl,
    record {
      tables = λ i x e. (
        record x { inner = free_seats (held_in order x m.sub) x.inner },
        get_elem-map (λ x. record x { inner = free_seats (held_in order x m.sub) x.inner }) s.rooms
            i x e,
        refl,
        freed-LeftBy x m.sub,
      );
      lobby = λ q. get-remove q m.sub s.kibitzers;
      disconnected = λ t c e same.
          let passes =
            retain-passes (λ t (c : ConnMeta). not (c.sub == m.sub)) t c s.connections e in
          absurd (let own = (string_eq.beq_iff c.sub m.sub).1 same in ground arith);
      others_connected = λ t c e differs.
          get-retain (λ t (c : ConnMeta). not (c.sub == m.sub)) t c s.connections e
            (ground (arith, string_eq.beq_iff c.sub m.sub));
    },
  )
