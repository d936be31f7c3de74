-- ===== src/Session/Rebound.antt =====
-- The steps of `place_seat` at one room (src/sessions.rs): whose seats they keep, and who holds the seat
-- that they answer with.
-- The seat that a search by a test gives is held by somebody who passes it.
use bridge_table_service.Bridge.{Direction, direction_eq}
use bridge_table_service.Prelude.{
  Bool, Bool-cases, List, Option-cases, String, [], ap, arith, contains, false, find-some, inl, inr,
  none, not, refl, some, some-injective, string_eq, subst, sym, true, ℕ, ◌&&◌, ◌==◌, ◌∙◌, ◌∷◌, ◌≡◌,
}
use bridge_table_service.Room.{Occupant, RoomInner}
use bridge_table_service.Room.Seats.{
  cancel_reservation, entry_is, find_seat, rebound, remove_at, reserved_seat_for, try_seat,
  update_at, vacate,
}
use bridge_table_service.Session.{SessionRoom}
use bridge_table_service.Session.Keeping.{HeldBy, KeepsSeats, KeepsSeats-refl, KeepsSeats-trans}
use bridge_table_service.Session.Place.{free_ghosts, reclaim, reconnect, redeem}
use bridge_table_service.Session.Seated.{
  Answers, try_seat-HeldBy, try_seat-KeepsSeats, update_at-HeldBy, update_at-KeepsSeats,
}

found_by :
    (seats : List Direction) (p : Occupant → Bool) (r : RoomInner) (d : Direction)
    → find_seat seats p r.seats ≡ some d
    → (o : Occupant) × (r.seats d ≡ some o) × (p o ≡ true)
unfolding find_seat entry_is
found_by seats p r d h =
    let passes = find-some _ seats d h in
    elim (Option-cases (r.seats d)) [
      | inl e ↦ absurd (let no : false ≡ true = rw e at passes in cc)
      | inr (o, e) ↦ (o, e, rw e at passes)
    ]

same_occupant :
    (r : RoomInner) (d : Direction) (o o' : Occupant)
    → r.seats d ≡ some o
    → r.seats d ≡ some o'
    → o ≡ o'
same_occupant r d o o' h h' = some-injective o o' (sym h ∙ h')

module _ (order : SessionRoom → List Direction) (sub name : String) where
  pub reconnect-KeepsSeats :
      (x : SessionRoom) → KeepsSeats sub x.inner (reconnect order sub name x).0
  unfolding reconnect
  reconnect-KeepsSeats x =
      elim (Option-cases (find_seat (order x) (λ (o : Occupant). o.sub == sub) x.inner.seats)) [
        | inl e ↦ rw (reconnect, e) (KeepsSeats-refl sub x.inner)
        | inr (d, e) ↦
            let (o, held, own) = found_by (order x) (λ o. o.sub == sub) x.inner d e in
            rw (reconnect, e)
              (update_at-KeepsSeats sub x.inner d (rebound name) λ o' held'. inr (
                ap (λ (o : Occupant). o.sub) (same_occupant x.inner d o' o held' held)
                ∙ (string_eq.beq_iff o.sub sub).0 own))
      ]

  pub reconnect-Answers :
      (x : SessionRoom) → Answers sub (reconnect order sub name x).0 (reconnect order sub name x).1
  unfolding reconnect rebound
  reconnect-Answers x seat h =
      elim (Option-cases (find_seat (order x) (λ (o : Occupant). o.sub == sub) x.inner.seats)) [
        | inl e ↦ absurd (let no : none ≡ some seat = rw (reconnect, e) at h in cc)
        | inr (d, e) ↦
            let (o, held, own) = found_by (order x) (λ o. o.sub == sub) x.inner d e in
            let here : some d ≡ some seat = rw (reconnect, e) at h in
            rw (reconnect, e)
              (subst
                (HeldBy sub (record x.inner { seats = update_at d (rebound name) x.inner.seats }))
                (some-injective d seat here)
                (update_at-HeldBy sub x.inner d (rebound name) o held
                  ((string_eq.beq_iff o.sub sub).0 own) refl refl))
      ]

  pub redeem-KeepsSeats :
      (now : ℕ) (x : SessionRoom) → KeepsSeats sub x.inner (redeem order now sub name x).0
  unfolding redeem cancel_reservation
  redeem-KeepsSeats now x = elim (Option-cases (reserved_seat_for (order x) x.inner sub now)) [
    | inl e ↦ rw (redeem, e) (KeepsSeats-refl sub x.inner)
    | inr (d, e) ↦
        rw (redeem, e)
          (KeepsSeats-trans sub x.inner (cancel_reservation x.inner d).0 _
            (record { kept = λ d o h c n. h })
            (try_seat-KeepsSeats sub (cancel_reservation x.inner d).0 d name))
  ]

  pub redeem-Answers :
      (now : ℕ) (x : SessionRoom)
      → Answers sub (redeem order now sub name x).0 (redeem order now sub name x).1
  unfolding redeem
  redeem-Answers now x seat h = elim (Option-cases (reserved_seat_for (order x) x.inner sub now)) [
    | inl e ↦ absurd (let no : none ≡ some seat = rw (redeem, e) at h in cc)
    | inr (d, e) ↦
        let r = (cancel_reservation x.inner d).0 in
        elim (Bool-cases (try_seat r d sub name).1) [
          | inl took ↦
              let here : some d ≡ some seat = rw (redeem, e, took) at h in
              rw (redeem, e)
                (subst (HeldBy sub (try_seat r d sub name).0) (some-injective d seat here)
                  (try_seat-HeldBy sub r d name took))
          | inr e1 ↦ absurd (let no : none ≡ some seat = rw (redeem, e, e1) at h in cc)
        ]
  ]

  pub reclaim-KeepsSeats : (x : SessionRoom) → KeepsSeats sub x.inner (reclaim order sub name x).0
  unfolding reclaim
  reclaim-KeepsSeats x =
      elim (Option-cases
        (find_seat (order x) (λ (o : Occupant). not o.connected && o.name == name) x.inner.seats)) [
          | inl e ↦ rw (reclaim, e) (KeepsSeats-refl sub x.inner)
          | inr (d, e) ↦
              let (o, held, gone) =
                found_by (order x) (λ o. not o.connected && o.name == name) x.inner d e in
              rw (reclaim, e)
                (update_at-KeepsSeats sub x.inner d _ λ o' held'. inl (
                  ap (λ (o : Occupant). o.connected) (same_occupant x.inner d o' o held' held)
                  ∙ ground arith))
        ]

  pub reclaim-Answers :
      (x : SessionRoom) → Answers sub (reclaim order sub name x).0 (reclaim order sub name x).1
  unfolding reclaim
  reclaim-Answers x seat h =
      elim (Option-cases
        (find_seat (order x) (λ (o : Occupant). not o.connected && o.name == name) x.inner.seats)) [
          | inl e ↦ absurd (let no : none ≡ some seat = rw (reclaim, e) at h in cc)
          | inr (d, e) ↦
              let (o, held, _) =
                found_by (order x) (λ o. not o.connected && o.name == name) x.inner d e in
              let here : some d ≡ some seat = rw (reclaim, e) at h in
              rw (reclaim, e)
                (subst (HeldBy sub _) (some-injective d seat here)
                  (update_at-HeldBy sub x.inner d _ o held refl refl refl))
        ]

-- Vacating seats that nobody connected holds keeps every seat of the others.
pub free_ghosts-KeepsSeats :
    (sub : String) (ghosts : List Direction) (r : RoomInner)
    → ((d : Direction) (o : Occupant)
        → contains ghosts d ≡ true
        → r.seats d ≡ some o
        → o.connected ≡ false)
    → KeepsSeats sub r (free_ghosts ghosts r)
unfolding free_ghosts vacate remove_at
free_ghosts-KeepsSeats sub [] r gone = KeepsSeats-refl sub r
free_ghosts-KeepsSeats sub (seat ∷ ghosts) r gone =
    KeepsSeats-trans sub r (vacate r seat).0 _
      (record {
        kept = λ d o h c n. elim (Bool-cases (d == seat)) [
          | inl e ↦
              let listed : contains (seat ∷ ghosts) d ≡ true =
                ground (arith, direction_eq.beq_iff d seat, direction_eq.beq_iff seat d) in
              absurd (cc (gone d o listed h))
          | inr e ↦ rw e h
        ];
      })
      (free_ghosts-KeepsSeats sub ghosts (vacate r seat).0 λ d o listed h.
        elim (Bool-cases (d == seat)) [
          | inl e ↦ absurd (let no : none ≡ some o = rw e at h in cc)
          | inr e ↦ gone d o (ground arith) (rw e at h)
        ])
