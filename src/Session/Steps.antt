-- ===== src/Session/Steps.antt =====
-- The steps of `place_seat` before the last (src/sessions.rs), and what they leave.
use bridge_table_service.Bridge.{Direction, direction_eq, south}
use bridge_table_service.Prelude.{
  Bool, Bool-cases, List, Option, Option-cases, String, [], ap, arith, contains, contains-filter,
  find, find-get, inl, inr, is_some, none, not, refl, some, string_eq, sym, true, ◌==◌, ◌||◌, ◌∙◌,
  ◌∷◌, ◌≡◌,
}
use bridge_table_service.Room.{Occupant, RoomInner}
use bridge_table_service.Room.Seats.{entry_is, filter_seats}
use bridge_table_service.Session.{Kibitzer, Session, SessionRoom}
use bridge_table_service.Session.Arrivals.{first_room}
use bridge_table_service.Session.Keeping.{
  Keeps, Keeps-first_room, Keeps-map, Keeps-refl, Keeps-trans, KeepsSeats, SomeRoom,
  first_room-holds,
}
use bridge_table_service.Session.Maps.{get, update}
use bridge_table_service.Session.Place.{
  by_room, free_ghosts, ghosts_of, host_resumes, is_host_of_adhoc, is_manual, returns,
  takes_requested, watches, without_ghosts,
}
use bridge_table_service.Session.Placed.{
  Good, GoodRun, Settled, Sound, may_wait, passes-Good, returns-Good, same_boards-Sound,
}
use bridge_table_service.Session.Rebound.{free_ghosts-KeepsSeats}
use bridge_table_service.Session.Seated.{Answers}
use bridge_table_service.Session.Specific.{try_seat_specific-GoodRun, watch_table-Watched}
use bridge_table_service.Table.{BoardSetup}

module _ (placeholder : BoardSetup) (order : SessionRoom → List Direction) (sub name : String) where
  filter_seats-passes :
      (seats : List Direction) (p : Occupant → Bool) (r : RoomInner) (d : Direction) (o : Occupant)
      → contains (filter_seats seats p r.seats) d ≡ true
      → r.seats d ≡ some o
      → p o ≡ true
  unfolding filter_seats entry_is
  filter_seats-passes seats p r d o listed held =
      let both = sym (contains-filter (λ d. entry_is p (r.seats d)) seats d) ∙ listed in
      let passes : entry_is p (r.seats d) ≡ true = ground arith in rw held at passes

  without_ghosts-Keeps : (s : Session) → Keeps sub s.rooms (without_ghosts order s).rooms
  unfolding without_ghosts ghosts_of
  without_ghosts-Keeps s =
      Keeps-map sub (λ x. free_ghosts (ghosts_of order x) x.inner)
        (λ x. free_ghosts-KeepsSeats sub (ghosts_of order x) x.inner λ d o listed held.
          let gone = filter_seats-passes (order x) (λ o. not o.connected) x.inner d o listed held in
          ground arith)
        s.rooms

  pub host_resumes-GoodRun :
      (s : Session) → Sound s → GoodRun sub s (host_resumes placeholder order s sub name)
  unfolding host_resumes GoodRun without_ghosts
  host_resumes-GoodRun s v = elim (Bool-cases (is_host_of_adhoc s sub)) [
    | inr e ↦
        (s, none, rw (host_resumes, e) refl, passes-Good sub s s (Keeps-refl sub s.rooms) v refl)
    | inl e ↦
        let s0 = without_ghosts order s in
        let (s', answer, runs, good) =
          try_seat_specific-GoodRun placeholder sub name s0 south
            (same_boards-Sound s s0 refl refl refl v) in
        (
          s',
          answer,
          rw (host_resumes, e) runs,
          record {
            keeps = Keeps-trans sub s.rooms s0.rooms s'.rooms (without_ghosts-Keeps s) good.keeps;
            sound = good.sound;
            same_wait = good.same_wait;
            settled = good.settled;
          },
        )
  ]

  pub by_room-Good :
      (try_room : SessionRoom → RoomInner × Option Direction) (s : Session)
      → ((x : SessionRoom) → KeepsSeats sub x.inner (try_room x).0)
      → ((x : SessionRoom) → Answers sub (try_room x).0 (try_room x).1)
      → Sound s
      → Good sub s (by_room try_room s).0 (by_room try_room s).1
  unfolding by_room Settled
  by_room-Good try_room s keeps answers v =
      let k = Keeps-first_room sub try_room keeps answers s.rooms in
      let s' : Session = record s { rooms = (first_room try_room s.rooms).0 } in
      let v' = same_boards-Sound s s' refl refl refl v in
      elim (Option-cases (first_room try_room s.rooms).1) [
        | inl e ↦ rw (by_room, e) (passes-Good sub s s' k v' refl)
        | inr ((id, d), e) ↦
            rw (by_room, e)
              (returns-Good sub s s' (record { room = id; seat = some d }) k v' refl
                (first_room-holds sub try_room keeps answers s.rooms id d e) (λ h. absurd (cc)))
      ]

  update-is_some :
      {V : Type 0} (key : String) (change : V → V) (m : List (String × V))
      → is_some (get key (update key change m)) ≡ is_some (get key m)
  unfolding get update
  update-is_some key change [] = refl
  update-is_some key change ((k, v) ∷ m) = elim (Bool-cases (k == key)) [
    | inl e ↦ rw (get, update, e) (rw (get, e) refl)
    | inr e ↦ rw (get, update, e) (rw (get, e) (update-is_some key change m))
  ]

  pub returns-GoodRun : (s : Session) → Sound s → GoodRun sub s (returns placeholder s sub name)
  unfolding returns GoodRun Settled SomeRoom
  returns-GoodRun s v = elim (Option-cases (get sub s.kibitzers)) [
    | inl e ↦ (s, none, rw (returns, e) refl, passes-Good sub s s (Keeps-refl sub s.rooms) v refl)
    | inr (k, e) ↦
        let s1 : Session = record s {
          kibitzers = update sub (λ (k : Kibitzer). record k { name = name }) s.kibitzers;
        } in
        let v1 = same_boards-Sound s s1 refl refl refl v in
        let same_lobby =
          update-is_some sub (λ (k : Kibitzer). record k { name = name }) s.kibitzers in
        let in_lobby : is_some (get sub s1.kibitzers) ≡ true = same_lobby ∙ ap is_some e in
        let lobby_waits : may_wait sub s ≡ true =
          ap (λ b. b || s.wait_to_seat || is_manual s.seat_policy) (ap is_some e) in
        let same : may_wait sub s1 ≡ may_wait sub s =
          ap (λ b. b || s.wait_to_seat || is_manual s.seat_policy) same_lobby in
        elim (Option-cases (find (λ (x : SessionRoom). watches k.room_id x.id) s.rooms)) [
          | inr (x, found) ↦
              let (i, there) = find-get _ s.rooms x found in
              (
                s1,
                some (record { room = x.id; seat = none }),
                rw (returns, e, found) refl,
                returns-Good sub s s1 (record { room = x.id; seat = none }) (Keeps-refl sub s.rooms)
                    v1 same ((i, x, there, refl, tt), in_lobby) (λ h. lobby_waits),
              )
          | inl gone ↦
              let w = watch_table-Watched placeholder sub s1 v1 in
              (
                w.after,
                some (record { room = w.id; seat = none }),
                rw (returns, e, gone, w.runs) refl,
                returns-Good sub s w.after (record { room = w.id; seat = none }) w.keeps w.sound
                    (w.same_wait ∙ same)
                    (
                      (0, w.room, w.first, w.numbered, tt),
                      ap (λ m. is_some (get sub m)) w.kibitzers ∙ in_lobby,
                    )
                    (λ h. lobby_waits),
              )
        ]
  ]

  pub takes_requested-GoodRun :
      (s : Session) (requested : Option Direction)
      → Sound s
      → GoodRun sub s (takes_requested placeholder s sub name requested)
  unfolding takes_requested GoodRun
  takes_requested-GoodRun s none v =
      (s, none, refl, passes-Good sub s s (Keeps-refl sub s.rooms) v refl)
  takes_requested-GoodRun s (some seat) v = elim (Bool-cases (is_manual s.seat_policy)) [
    | inl e ↦ rw (takes_requested, e) (try_seat_specific-GoodRun placeholder sub name s seat v)
    | inr e ↦
        (s, none, rw (takes_requested, e) refl, passes-Good sub s s (Keeps-refl sub s.rooms) v refl)
  ]
