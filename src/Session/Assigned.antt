-- ===== src/Session/Assigned.antt =====
-- The arms of `assign_seat` (src/sessions.rs), and who is still there after each.
use bridge_table_service.Bridge.{Direction, direction_eq}
use bridge_table_service.Prelude.{
  Bool, Bool-cases, List, Option, Option-cases, String, [], ap, bind-ok, err, false, get_elem?, inl,
  inr, is_some, none, ok, ok-injective, refl, some, string_eq, subst, sym, true, ℕ, ◌==◌, ◌∙◌, ◌∷◌,
  ◌≡◌,
}
use bridge_table_service.Room.{Occupant}
use bridge_table_service.Room.Seats.{arrival, entry_is, remove_at, set_bot, set_empty, vacate}
use bridge_table_service.Session.{Session, SessionRoom}
use bridge_table_service.Session.Control.{
  assign_at, assign_seat, bench, move_seat, moved, seat_is_empty, seated_at, sit_down, table_named,
  unknown_token, vacate_seat, with_inner,
}
use bridge_table_service.Session.Entries.{get-remove}
use bridge_table_service.Session.Maps.{get}
use bridge_table_service.Session.Members.{conn_meta, remove_kibitzer}
use bridge_table_service.Session.Moved.{arm-Present, moved-SitsIn, seated_at_lem}
use bridge_table_service.Session.Present.{
  LiveIn, Present, PresentLive, Sits, SitsIn, live-Present, set_room-Sits, set_room-others,
  table_named-get,
}

module _ (order : SessionRoom → List Direction) where
  vacate_seat-Present :
      (s : Session) (i : ℕ) (x : SessionRoom) (f : Direction) (seat_bot : Bool) (q : String)
      → get_elem? s.rooms i ≡ some x
      → PresentLive q s
      → Present q (vacate_seat order s i x f seat_bot).0
  unfolding vacate_seat vacate with_inner Present set_bot set_empty remove_at
  vacate_seat-Present s i x f true q at_i there =
      arm-Present order s _ i x _ f q at_i refl inr (λ d e. rw e refl) there
  vacate_seat-Present s i x f false q at_i there =
      arm-Present order s _ i x _ f q at_i refl inr (λ d e. rw e refl) there

  sit_down-Present :
      (s s' : Session) (i : ℕ) (x : SessionRoom) (t : Direction) (token : String) (listed : List ℕ)
      (q : String)
      → get_elem? s.rooms i ≡ some x
      → sit_down order s i x t token ≡ ok (s', listed)
      → PresentLive q s
      → Present q s'
  unfolding sit_down conn_meta remove_kibitzer with_inner PresentLive LiveIn Present SitsIn
  sit_down-Present s s' i x t token listed q at_i h there =
      elim (Option-cases (get token s.connections)) [
        | inl e ↦ absurd (
            let no : err (unknown_token token) ≡ ok (s', listed) =
              rw (sit_down, conn_meta, e) at h in
            cc)
        | inr (m, e) ↦
            elim (Bool-cases (entry_is (λ (o : Occupant). o.sub == m.sub) (x.inner.seats t))) [
              | inl own ↦
                  let done : ok (s, []) ≡ ok (s', listed) = rw (sit_down, conn_meta, e, own) at h in
                  subst (Present q) (ap (λ (p : Session × List ℕ). p.0) (ok-injective _ _ done))
                    (live-Present q s there)
              | inr new ↦
                  let r = seated_at x.inner t m.sub m.name in
                  let s1 = with_inner (remove_kibitzer s m.sub) i r in
                  let done : ok (bench order s1 x.id (x.inner.seats t), x.id ∷ [])
                      ≡ ok (s', listed) =
                    rw (sit_down, conn_meta, e, new) at h in
                  subst (Present q) (ap (λ (p : Session × List ℕ). p.0) (ok-injective _ _ done)) (
                    arm-Present order s s1 i x r t q at_i refl
                      (λ waits. elim (Bool-cases (q == m.sub)) [
                        | inl e1 ↦
                            let here : (t == t) ≡ true = (direction_eq.beq_iff t t).1 refl in
                            inl (
                              set_room-Sits q s.rooms i x r at_i (
                                t,
                                arrival m.sub m.name,
                                seated_at_lem x.inner t m.sub m.name t ∙ rw here refl,
                                sym ((string_eq.beq_iff q m.sub).0 e1),
                              ))
                        | inr e1 ↦ inr (ap is_some (get-remove q m.sub s.kibitzers) ∙ rw e1 waits)
                      ])
                      (λ d e1. seated_at_lem x.inner t m.sub m.name d ∙ rw e1 refl) there)
            ]
      ]

  move_seat-Present :
      (s s' : Session) (i : ℕ) (x : SessionRoom) (f t : Direction) (listed : List ℕ) (q : String)
      → get_elem? s.rooms i ≡ some x
      → move_seat s i x f t ≡ ok (s', listed)
      → Present q s
      → Present q s'
  unfolding move_seat with_inner Present Sits
  move_seat-Present s s' i x f t listed q at_i h there = elim (Bool-cases (f == t)) [
    | inl e ↦
        let done : ok (s, []) ≡ ok (s', listed) = rw (move_seat, e) at h in
        subst (Present q) (ap (λ (p : Session × List ℕ). p.0) (ok-injective _ _ done)) there
    | inr e ↦ elim (Option-cases (x.inner.seats f)) [
      | inl e1 ↦
          absurd
            (let no : err (seat_is_empty f) ≡ ok (s', listed) = rw (move_seat, e, e1) at h in cc)
      | inr (o, e1) ↦
          let r = moved x.inner f t o in
          let done : ok (with_inner s i r, x.id ∷ []) ≡ ok (s', listed) =
            rw (move_seat, e, e1) at h in
          subst (Present q) (ap (λ (p : Session × List ℕ). p.0) (ok-injective _ _ done))
            (elim there [
              | inr waits ↦ inr waits
              | inl (j, y, at_j, sits) ↦ inl (elim (set_room-others s.rooms i x r j y at_i at_j) [
                | inr still ↦ (j, y, still, sits)
                | inl same ↦ set_room-Sits q s.rooms i x r at_i (
                    moved-SitsIn x.inner f t o q e e1
                      (subst (λ (y : SessionRoom). SitsIn q y.inner) same sits))
              ])
            ])
    ]
  ]

  assign_at-Present :
      (s s' : Session) (i : ℕ) (x : SessionRoom) (target from : Option Direction)
      (token : Option String) (seat_bot : Bool) (listed : List ℕ) (q : String)
      → get_elem? s.rooms i ≡ some x
      → assign_at order s i x target from token seat_bot ≡ ok (s', listed)
      → PresentLive q s
      → Present q s'
  unfolding assign_at
  assign_at-Present s s' i x none (some f) token seat_bot listed q at_i h there =
      subst (Present q) (ap (λ (p : Session × List ℕ). p.0) (ok-injective _ _ h))
        (vacate_seat-Present s i x f seat_bot q at_i there)
  assign_at-Present s s' i x (some t) (some f) token seat_bot listed q at_i h there =
      move_seat-Present s s' i x f t listed q at_i h (live-Present q s there)
  assign_at-Present s s' i x (some t) none (some token) seat_bot listed q at_i h there =
      sit_down-Present s s' i x t token listed q at_i h there
  assign_at-Present s s' i x (some t) none none seat_bot listed q at_i h there = absurd (cc)
  assign_at-Present s s' i x none none token seat_bot listed q at_i h there = absurd (cc)

  -- However the host assigns seats, nobody is lost: if `assign_seat` succeeds, whoever was connected in a
  -- seat of the session or in its lobby still sits at some table or is in the lobby.
  pub assign_seat-Present :
      (s s' : Session) (table_id : Option ℕ) (target from : Option Direction)
      (token : Option String) (seat_bot : Bool) (listed : List ℕ) (q : String)
      → assign_seat order s table_id target from token seat_bot ≡ ok (s', listed)
      → PresentLive q s
      → Present q s'
  unfolding assign_seat
  assign_seat-Present s s' table_id target from token seat_bot listed q h there =
      let ((i, x), named, run) = bind-ok (table_named s table_id) _ (s', listed) h in
      assign_at-Present s s' i x target from token seat_bot listed q
        (table_named-get s table_id i x named) run there
