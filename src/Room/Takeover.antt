-- ===== src/Room/Takeover.antt =====
-- When a bot takes a seat over, and when it gives it back (src/rooms.rs, `seat_bot_controlled`).
use bridge_table_service.Bridge.{Direction, direction_eq}
use bridge_table_service.Prelude.{
  Bool, List, Option, Option-cases, Path, String, ap, arith, contains, false, if◌then◌else◌, inl,
  inr, none, refl, some, some-injective, subst, sym, true, ℕ, ◌+◌, ◌-◌, ◌↔◌, ◌∙◌, ◌≡◌, ◌≤◌,
}
use bridge_table_service.Room.{Occupant, RoomInner, TakeoverGrace}
use bridge_table_service.Room.Control.{occupant_bot_controlled, seat_bot_controlled}
use bridge_table_service.Room.Seating.{seat_or_rebind_lem}
use bridge_table_service.Room.Seats.{arrival, seat_or_rebind}
use bridge_table_service.Room.Steps.{RoomReach, RoomReach-IsTidy}
use bridge_table_service.Table.{BoardSetup}

-- The grace period that `seat_bot_controlled` waits for.
pub grace_for : TakeoverGrace → Bool → ℕ
grace_for grace on_turn = if on_turn then grace.on_turn else grace.off_turn

-- A bot may act for the seat: it is vacant and not kept empty, or its occupant has been away for the
-- grace period.
pub data BotMayAct (r : RoomInner) (seat : Direction) (on_turn : Bool) (now : ℕ) : Type 0 where
  vacant : r.seats seat ≡ none → r.no_bot seat ≡ false → BotMayAct r seat on_turn now
  away :
      (o : Occupant) (t : ℕ)
      → r.seats seat ≡ some o
      → o.connected ≡ false
      → o.disconnected_at ≡ some t
      → grace_for r.takeover on_turn ≤ now - t
      → BotMayAct r seat on_turn now

occupant_controlled-away :
    (grace : TakeoverGrace) (o : Occupant) (on_turn : Bool) (now : ℕ)
    → occupant_bot_controlled grace o on_turn now ≡ true
    → (o.connected ≡ false)
      × (t : ℕ) × (o.disconnected_at ≡ some t)
      × (grace_for grace on_turn ≤ now - t)
unfolding occupant_bot_controlled grace_for
occupant_controlled-away grace o on_turn now h = elim (Option-cases o.disconnected_at) [
  | inl e ↦ absurd (ground arith)
  | inr (t, e) ↦ (ground arith, t, e, ground arith)
]

-- A bot controls a seat exactly if the seat is vacant and not kept empty, or its occupant is not
-- connected and the grace period of the table has passed since the time noted.
pub seat_bot_controlled_iff :
    (r : RoomInner) (seat : Direction) (on_turn : Bool) (now : ℕ)
    → (seat_bot_controlled r seat on_turn now ≡ true) ↔ BotMayAct r seat on_turn now
unfolding seat_bot_controlled occupant_bot_controlled grace_for
seat_bot_controlled_iff r seat on_turn now = (to, from)
  where
    to : seat_bot_controlled r seat on_turn now ≡ true → BotMayAct r seat on_turn now
    to h = elim (Option-cases (r.seats seat)) [
      | inl e ↦ vacant e (ground arith)
      | inr (o, e) ↦
          (let h' : occupant_bot_controlled r.takeover o on_turn now ≡ true =
              rw (seat_bot_controlled, e) at h in
            let (gone, t, noted, passed) = occupant_controlled-away r.takeover o on_turn now h' in
            away o t e gone noted passed)
    ]

    from : BotMayAct r seat on_turn now → seat_bot_controlled r seat on_turn now ≡ true
    from (vacant e unkept) = ground arith
    from (away o t e gone noted passed) = ground arith

-- In every room that steps reach, a seat whose occupant is not connected is in a bot's hands at some
-- time, and at every later time for as long as the room stays as it is.
pub takeover_comes :
    (board : BoardSetup) (grace : TakeoverGrace) (r : RoomInner) (seat : Direction) (o : Occupant)
    (on_turn : Bool)
    → RoomReach board grace r
    → r.seats seat ≡ some o
    → o.connected ≡ false
    → (t : ℕ) × ((now : ℕ) → t ≤ now → seat_bot_controlled r seat on_turn now ≡ true)
unfolding grace_for
takeover_comes board grace r seat o on_turn reached held gone =
    let tidy = RoomReach-IsTidy board grace r reached in
    let (t, noted) = (tidy.clocked seat o held).away gone in
    (
      t + grace_for r.takeover on_turn,
      (λ now le.
          (seat_bot_controlled_iff r seat on_turn now).1 (away o t held gone noted (omega arith))),
    )

-- Whoever comes back is in control at once: after `seat_or_rebind`, the seat that it gives is not in a
-- bot's hands at any time, on turn or not. `order`, in which the map is walked, lists every seat.
pub seat_or_rebind-controls :
    (order : List Direction) (r r' : RoomInner) (sub name : String) (seat : Direction)
    (on_turn : Bool) (now : ℕ)
    → ((d : Direction) → contains order d ≡ true)
    → seat_or_rebind order r sub name ≡ (r', some seat)
    → seat_bot_controlled r' seat on_turn now ≡ false
unfolding seat_bot_controlled occupant_bot_controlled arrival
seat_or_rebind-controls order r r' sub name seat on_turn now lists h =
    elim (seat_or_rebind_lem order r sub name lists) [
      | inl (d, r'', e, s) ↦
          (let p : Path (RoomInner × Option Direction) (r'', some d) (r', some seat) = sym e ∙ h in
            let there : d ≡ seat =
              some-injective d seat (ap (λ (x : RoomInner × Option Direction). x.1) p) in
            let room : r'' ≡ r' = ap (λ (x : RoomInner × Option Direction). x.0) p in
            let sits : r'.seats seat ≡ some (arrival sub name) =
              subst (λ (x : RoomInner). x.seats seat ≡ some (arrival sub name)) room
                (subst (λ (x : Direction). r''.seats x ≡ some (arrival sub name)) there s.sits) in
            rw (seat_bot_controlled, sits) refl)
      | inr (e, full) ↦ absurd (cc)
    ]

-- A bot that controls a vacant seat or one whose occupant is away keeps it as time passes.
pub seat_bot_controlled-later :
    (r : RoomInner) (seat : Direction) (on_turn : Bool) (now later : ℕ)
    → now ≤ later
    → seat_bot_controlled r seat on_turn now ≡ true
    → seat_bot_controlled r seat on_turn later ≡ true
unfolding seat_bot_controlled occupant_bot_controlled
seat_bot_controlled-later r seat on_turn now later le h = ground arith
