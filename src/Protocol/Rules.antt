-- ===== src/Protocol/Rules.antt =====
-- What the frames of a socket do to the order of the tables (src/routes/ws.rs).
use bridge_table_service.Bridge.{BridgeTypes, Direction}
use bridge_table_service.Claim.{
  ClaimRequest, SolverAnswer, SolverRequest, before_check, judge, make_claim,
}
use bridge_table_service.Claim.Made.{after_check-ok}
use bridge_table_service.Prelude.{
  Bool, Bool-cases, List, Option, Option-cases, Result-cases, String, [], bind-ok, get_elem?, inl,
  inr, nat_eq, none, ok, refl, some, subst, sym, ℕ, ◌==◌, ◌∷◌, ◌≡◌,
}
use bridge_table_service.Protocol.{Reader}
use bridge_table_service.Protocol.Accounted.{
  Accounted, called, claimed, played, rewound_to, untouched,
}
use bridge_table_service.Protocol.Dealing.{DealSource}
use bridge_table_service.Protocol.Joining.{
  Hello, change_rooms, disconnect, join_player, leave, vacate_all, with_override,
}
use bridge_table_service.Protocol.Messages.{handle_client_msg-Fair}
use bridge_table_service.Protocol.Player.{handle_client_msg}
use bridge_table_service.Room.{BotMode, RoomInner}
use bridge_table_service.Room.Seats.{mark_disconnected, vacate}
use bridge_table_service.Session.{Placement, Session, SessionRoom}
use bridge_table_service.Session.Arrivals.{replace_room}
use bridge_table_service.Session.Members.{
  find_seated, mark_conn_disconnected, register_conn, remove_conn, remove_kibitzer,
}
use bridge_table_service.Session.Ordered.{place_seat-IsOrderly}
use bridge_table_service.Session.Orderly.{
  AllOk, IsOrderly, Rooted, bind-AllOk, map-Orderly, replace_room-Orderly, same_table-Rooted,
}
use bridge_table_service.Session.Place.{place_seat}
use bridge_table_service.Table.{Action, BoardSetup}
use bridge_table_service.Table.Apply.{apply}
use bridge_table_service.Table.Log.{applied, undone}

module _ (bt : BridgeTypes) where
  -- A room whose table the rules took from one state to the next.
  pub applied-Rooted :
      (r r' : RoomInner) (a : Action) (n : ℕ)
      → apply bt r.table a ≡ ok (r'.table, n)
      → Rooted bt r
      → Rooted bt r'
  unfolding Rooted
  applied-Rooted r r' a n h (board, reached) = (board, applied a reached h)

  make_claim-applied :
      (solve : SolverRequest → SolverAnswer) (verify : Bool) (earlier second made : RoomInner)
      (req : ClaimRequest) (n : ℕ)
      → make_claim bt solve verify earlier second req ≡ ok (made, n)
      → apply bt second.table (Action.claim req.seat req.tricks req.ruling) ≡ ok (made.table, n)
  unfolding make_claim
  make_claim-applied solve verify earlier second made req n h =
      let (q, _, rest) = bind-ok (before_check bt verify earlier req) _ (made, n) h in
      let (_, _, after) = bind-ok (judge bt solve q) _ (made, n) rest in
      let (_, accepted, _) = after_check-ok bt solve verify second req made n after in accepted

  pub make_claim-Rooted :
      (solve : SolverRequest → SolverAnswer) (verify : Bool) (r : RoomInner) (req : ClaimRequest)
      → AllOk
          (λ (p : RoomInner × ℕ). Rooted bt r → Rooted bt p.0)
          (make_claim bt solve verify r r req)
  make_claim-Rooted solve verify r req =
      let Stays : RoomInner × ℕ → Type 0 = λ p. Rooted bt r → Rooted bt p.0 in
      elim (Result-cases (make_claim bt solve verify r r req)) [
        | inl ((r', n), e) ↦ subst (AllOk Stays) (sym e) (
            applied-Rooted r r' (Action.claim req.seat req.tricks req.ruling) n
              (make_claim-applied solve verify r r r' req n e))
        | inr (code, e) ↦ subst (AllOk Stays) (sym e) tt
      ]

  Accounted-Rooted :
      (solve : SolverRequest → SolverAnswer) (verify : Bool) (seats : List Direction) (now : ℕ)
      (r r' : RoomInner)
      → Accounted bt solve verify seats now r r'
      → Rooted bt r
      → Rooted bt r'
  unfolding Rooted
  Accounted-Rooted solve verify seats now r r' untouched o = o
  Accounted-Rooted solve verify seats now r r' (called seat c _ _ h) o = applied-Rooted r r' _ _ h o
  Accounted-Rooted solve verify seats now r r' (played seat card _ _ h) o =
      applied-Rooted r r' _ _ h o
  Accounted-Rooted solve verify seats now r r' (claimed req _ _ h) o =
      applied-Rooted r r' _ _ (make_claim-applied solve verify r r r' req _ h) o
  Accounted-Rooted solve verify seats now r r' (rewound_to k h) (board, reached) =
      (board, undone k reached h)

  -- Each of the following keeps the tables in order.
  pub message-IsOrderly :
      {V : Type 0} (rd : Reader V) (outside : DealSource) (solve : SolverRequest → SolverAnswer)
      (verify : Bool) (seats : List Direction) (now : ℕ) (s : Session) (i : ℕ) (x : SessionRoom)
      (name : String) (v : V)
      → get_elem? s.rooms i ≡ some x
      → IsOrderly bt s
      → IsOrderly bt (record s {
        rooms =
            replace_room s.rooms i
              (handle_client_msg bt rd outside solve verify x (some s) name seats v now).room;
      })
  unfolding IsOrderly
  message-IsOrderly rd outside solve verify seats now s i x name v h o =
      let y = (handle_client_msg bt rd outside solve verify x (some s) name seats v now).room in
      let fair = handle_client_msg-Fair bt rd outside solve verify seats now x s name v in
      replace_room-Orderly bt 1 s.rooms _ i x y h fair.same_id
        (Accounted-Rooted solve verify seats now x.inner y.inner fair.accounted) o

  with_override-IsOrderly :
      (mode : Option BotMode) (id : ℕ) (s : Session)
      → IsOrderly bt s
      → IsOrderly bt (with_override mode id s)
  unfolding with_override IsOrderly
  with_override-IsOrderly none id s o = o
  with_override-IsOrderly (some mode) id s o =
      map-Orderly bt _
        (λ x. elim (Bool-cases (x.id == id)) [ inl e ↦ rw (e) refl | inr e ↦ rw (e) refl ])
        (λ x r. elim (Bool-cases (x.id == id)) [ inl e ↦ rw (e) r | inr e ↦ rw (e) r ]) 1 s.rooms _
        o

  pub join_player-IsOrderly :
      (placeholder : BoardSetup) (order : SessionRoom → List Direction) (s : Session)
      (hello : Hello) (token : String) (now : ℕ)
      → IsOrderly bt s
      → AllOk
          (λ (r : Session × ℕ × List Direction). IsOrderly bt r.0)
          (join_player placeholder order s hello token now)
  unfolding join_player register_conn IsOrderly
  join_player-IsOrderly placeholder order s hello token now o =
      bind-AllOk (λ (r : Session × Placement). IsOrderly bt r.0)
        (λ (r : Session × ℕ × List Direction). IsOrderly bt r.0)
        (place_seat placeholder order s hello.ticket.sub hello.ticket.name hello.requested_seat now)
        _
        (place_seat-IsOrderly bt placeholder order s hello.ticket.sub hello.ticket.name
          hello.requested_seat now o)
        λ r p.
          with_override-IsOrderly hello.bot_override r.1.room
            (register_conn r.0 token hello.ticket.sub hello.ticket.name) p

  vacate_all-table : (seats : List Direction) (r : RoomInner) → (vacate_all seats r).table ≡ r.table
  unfolding vacate_all vacate
  vacate_all-table [] r = refl
  vacate_all-table (seat ∷ seats) r = vacate_all-table seats (vacate r seat).0

  change_rooms-IsOrderly :
      (id : ℕ) (change : RoomInner → RoomInner) (s : Session)
      → ((r : RoomInner) → (change r).table ≡ r.table)
      → IsOrderly bt s
      → IsOrderly bt (change_rooms id change s)
  unfolding change_rooms IsOrderly
  change_rooms-IsOrderly id change s same o =
      map-Orderly bt _
        (λ x. elim (Bool-cases (x.id == id)) [ inl e ↦ rw (e) refl | inr e ↦ rw (e) refl ])
        (λ x r. elim (Bool-cases (x.id == id)) [
          | inl e ↦ rw (e) (same_table-Rooted bt x.inner (change x.inner) (same x.inner) r)
          | inr e ↦ rw (e) r
        ])
        1 s.rooms _ o

  pub leave-IsOrderly :
      (s : Session) (id : ℕ) (seats : List Direction)
      → IsOrderly bt s
      → IsOrderly bt (leave s id seats)
  unfolding leave
  leave-IsOrderly s id seats =
      change_rooms-IsOrderly id (vacate_all seats) s (vacate_all-table seats)

  pub disconnect-IsOrderly :
      (order : SessionRoom → List Direction) (s : Session) (token sub : String) (id now : ℕ)
      → IsOrderly bt s
      → IsOrderly bt (disconnect order s token sub id now)
  unfolding disconnect mark_conn_disconnected remove_conn remove_kibitzer mark_disconnected
      IsOrderly
  disconnect-IsOrderly order s token sub id now o =
      elim (Option-cases (find_seated order s.rooms sub)) [
        | inr (found, e) ↦
            rw (disconnect, e)
              (change_rooms-IsOrderly id (λ r. mark_disconnected r sub now)
                (mark_conn_disconnected s token) (λ r. refl) o)
        | inl e ↦ rw (disconnect, e) o
      ]
