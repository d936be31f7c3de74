-- ===== src/Session/Placing.antt =====
-- `place_seat` (src/sessions.rs), from the arrival to the placement.
use bridge_table_service.Bridge.{Direction, direction_eq}
use bridge_table_service.Prelude.{
  Bool-cases, List, Option, Result, String, arith, false, inl, inr, none, not, refl, some,
  string_eq, sym, true, ℕ, ◌&&◌, ◌==◌, ◌>>=◌, ◌∙◌, ◌≡◌,
}
use bridge_table_service.Session.{Failure, Placement, Session, SessionRoom}
use bridge_table_service.Session.Keeping.{Keeps-trans, SomeRoom}
use bridge_table_service.Session.Maps.{get, insert}
use bridge_table_service.Session.Members.{add_lobby}
use bridge_table_service.Session.Place.{
  arrives, is_manual, or_then, place_seat, reclaim, reconnect, redeem, seats_itself, waits_in_lobby,
}
use bridge_table_service.Session.Placed.{
  Done, Good, GoodRun, Settled, Sound, may_wait, same_boards-Sound,
}
use bridge_table_service.Session.Rebound.{
  reclaim-Answers, reclaim-KeepsSeats, reconnect-Answers, reconnect-KeepsSeats, redeem-Answers,
  redeem-KeepsSeats,
}
use bridge_table_service.Session.Specific.{seat_one-seats, watch_table-Watched}
use bridge_table_service.Session.Steps.{
  by_room-Good, host_resumes-GoodRun, returns-GoodRun, takes_requested-GoodRun,
}
use bridge_table_service.Table.{BoardSetup}
use bridge_table_service.Table.Fold.{settled}

module _ (placeholder : BoardSetup) (order : SessionRoom → List Direction) (sub name : String) where
  seats_itself-Done : (s : Session) → Sound s → Done sub s (seats_itself placeholder s sub name)
  unfolding seats_itself Done Settled
  seats_itself-Done s v =
      let (s', id, d, runs, keeps, v', held) =
        seat_one-seats placeholder sub name s s.seat_policy v v.first_seat in
      (
        s',
        record { room = id; seat = some d },
        rw (seats_itself, runs) refl,
        keeps,
        v',
        held,
        (λ h. absurd (cc)),
      )

  waits_in_lobby-Done :
      (s : Session)
      → Sound s
      → may_wait sub s ≡ true
      → Done sub s (waits_in_lobby placeholder s sub name)
  unfolding waits_in_lobby Done Settled SomeRoom add_lobby insert get
  waits_in_lobby-Done s v why =
      let w = watch_table-Watched placeholder sub s v in
      let here : (sub == sub) ≡ true = (string_eq.beq_iff sub sub).1 refl in
      (
        add_lobby w.after sub name (some w.id) false,
        record { room = w.id; seat = none },
        rw (waits_in_lobby, w.runs) refl,
        w.keeps,
        same_boards-Sound w.after _ refl refl refl w.sound,
        ((0, w.room, w.first, w.numbered, tt), rw (get, here) refl),
        (λ h. why),
      )

  arrives-Done : (s : Session) → Sound s → Done sub s (arrives placeholder s sub name)
  unfolding arrives
  arrives-Done s v = elim (Bool-cases (not s.wait_to_seat && not (is_manual s.seat_policy))) [
    | inl e ↦ rw (arrives, e) (seats_itself-Done s v)
    | inr e ↦ rw (arrives, e) (waits_in_lobby-Done s v (ground arith))
  ]

  -- A step that has been run, and then the next ones.
  or_then-Done :
      (s s' : Session) (answer : Option Placement)
      (next : Session → Result Failure (Session × Placement))
      → Good sub s s' answer
      → ((t : Session) → Sound t → Done sub t (next t))
      → Done sub s (or_then (s', answer) next)
  unfolding or_then Done
  or_then-Done s s' (some p) next good rest =
      let (settled, why) = good.settled p refl in
      (s', p, refl, good.keeps, good.sound, settled, why)
  or_then-Done s s' none next good rest =
      let (t, p, runs, keeps, v, settled, why) = rest s' good.sound in
      (
        t,
        p,
        runs,
        Keeps-trans sub s.rooms s'.rooms t.rooms good.keeps keeps,
        v,
        settled,
        (λ h. sym good.same_wait ∙ why h),
      )

  run-Done :
      (s : Session) (run : Result Failure (Session × Option Placement))
      (next : Session → Result Failure (Session × Placement))
      → GoodRun sub s run
      → ((t : Session) → Sound t → Done sub t (next t))
      → Done sub s (run >>= λ (r : Session × Option Placement). or_then r next)
  unfolding GoodRun
  run-Done s run next (s', answer, runs, good) rest =
      rw runs (or_then-Done s s' answer next good rest)

  -- In a session whose pointer is on a board and whose seat policy lists a seat, `place_seat` succeeds.
  -- The placement names a table of the session; the participant is connected in the seat that it names,
  -- or, if it names none, is in the lobby, and then was there before or has to wait, by the seat policy or
  -- the waiting room. No table is lost, and whoever else is connected in a seat keeps it.
  pub place_seat-Done :
      (s : Session) (requested : Option Direction) (now : ℕ)
      → Sound s
      → Done sub s (place_seat placeholder order s sub name requested now)
  unfolding place_seat
  place_seat-Done s requested now v =
      run-Done s _ _ (host_resumes-GoodRun placeholder order sub name s v) λ s1 v1.
        or_then-Done s1 _ _ _
          (by_room-Good placeholder order sub name (reconnect order sub name) s1
            (reconnect-KeepsSeats order sub name) (reconnect-Answers order sub name) v1)
          λ s2 v2.
            or_then-Done s2 _ _ _
              (by_room-Good placeholder order sub name (redeem order now sub name) s2
                (redeem-KeepsSeats order sub name now) (redeem-Answers order sub name now) v2)
              λ s3 v3. run-Done s3 _ _ (returns-GoodRun placeholder order sub name s3 v3) λ s4 v4.
                or_then-Done s4 _ _ _
                  (by_room-Good placeholder order sub name (reclaim order sub name) s4
                    (reclaim-KeepsSeats order sub name) (reclaim-Answers order sub name) v4)
                  λ s5 v5.
                    run-Done s5 _ _
                      (takes_requested-GoodRun placeholder order sub name s5 requested v5)
                      λ s6 v6. arrives-Done s6 v6
