-- ===== src/Protocol/Moves.antt =====
-- Which calls and cards of a player are taken (src/routes/ws.rs, `handle_client_msg`).
use bridge_table_service.Auction.{is_legal}
use bridge_table_service.Bridge.{BridgeTypes, Call, Card, Direction, direction_eq}
use bridge_table_service.Claim.{SolverAnswer, SolverRequest}
use bridge_table_service.Play.Following.{Among, Follows, IsVoid}
use bridge_table_service.Prelude.{
  Bool, List, List-cases, Option, Option-cases, Result, Result-cases, String, [], ap, arith,
  bind-ok, contains, err, expect, expect-ok, false, guard, guard-ok, inl, inr, is_empty, is_ok,
  is_ok-cases, none, not, ok, refl, some, true, ℕ, ◌↔◌, ◌∷◌, ◌≡◌, ◌⊎◌,
}
use bridge_table_service.Protocol.{
  Notice, Reader, answered, bid_made, card_played, parse_card, text_at,
}
use bridge_table_service.Protocol.Dealing.{DealSource}
use bridge_table_service.Protocol.Player.{handle_bid, handle_client_msg, handle_play, handle_typed}
use bridge_table_service.Protocol.Seats.{call_by, card_by, completion, entitled, trick_winner_shown}
use bridge_table_service.Room.{is_bid_only, is_play_only}
use bridge_table_service.Session.{Session, SessionRoom}
use bridge_table_service.Table.{Action, Phase}
use bridge_table_service.Table.Apply.{apply, current_lead_suit, push, remaining}
use bridge_table_service.Table.Fold.{fold}
use bridge_table_service.Table.Log.{apply-ok}
use bridge_table_service.Table.Rules.{call-accepted_iff, play-accepted_iff}

not-is_empty :
    (seats : List Direction) (d : Direction) → contains seats d ≡ true → is_empty seats ≡ false
not-is_empty [] d h = absurd (cc)
not-is_empty (s ∷ seats) d h = refl

answered-none :
    (x : SessionRoom) (r : Result String (SessionRoom × List Notice))
    → (answered x r).error ≡ none
    → (y : SessionRoom) × (ns : List Notice) × (r ≡ ok (y, ns))
unfolding answered
answered-none x (err code) h = absurd (cc)
answered-none x (ok (y, ns)) h = (y, ns, refl)

-- The table with one more action.
abbrev pub with_action : SessionRoom → Action → SessionRoom
with_action x a = record x { inner = record x.inner { table = push x.inner.table a } }

module _ {V : Type 0} (bt : BridgeTypes) (rd : Reader V) (seats : List Direction) (x : SessionRoom)
    (v : V) where
  -- The frame names a call that one of the sender's seats, which is on turn, may make.
  pub record CanBid : Type 0 where
    pub text : String
    pub c : Call
    pub seat : Direction
    pub named : text_at rd v "call" ≡ some text
    pub read : rd.call_of text ≡ some c
    pub with_auction : is_play_only x.inner.board_mode ≡ false
    pub phase : (fold bt x.inner.table).phase ≡ Phase.bidding
    pub turn : (fold bt x.inner.table).next_to_act ≡ some seat
    pub own : contains seats seat ≡ true
    pub legal : is_legal x.inner.table.board.dealer (fold bt x.inner.table).calls c ≡ true

  handle_bid-CanBid :
      (y : SessionRoom) (ns : List Notice) → handle_bid bt rd x seats v ≡ ok (y, ns) → CanBid
  unfolding handle_bid call_by
  handle_bid-CanBid y ns h =
      let (_, _, h1) = bind-ok (guard (not (is_empty seats)) "not_seated") _ (y, ns) h in
      let (text, named, h2) = bind-ok (expect (text_at rd v "call") "bad_call") _ (y, ns) h1 in
      let (c, read, h3) = bind-ok (expect (rd.call_of text) "bad_call") _ (y, ns) h2 in
      let (u, auction, h4) =
        bind-ok (guard (not (is_play_only x.inner.board_mode)) "play_only") _ (y, ns) h3 in
      let (seat, turn, h5) =
        bind-ok (expect (fold bt x.inner.table).next_to_act "rejected") _ (y, ns) h4 in
      let (u', own, h6) = bind-ok (guard (contains seats seat) "rejected") _ (y, ns) h5 in
      elim (Result-cases (apply bt x.inner.table (Action.call seat c))) [
        | inr (e, bad) ↦
            absurd (let no : err "rejected" ≡ ok (y, ns) = rw (call_by, bad) at h6 in cc)
        | inl (tn, good) ↦
            let (phase, on_turn, legal) =
              (call-accepted_iff bt x.inner.table seat c).0 (ap is_ok good) in
            record {
              text = text;
              c = c;
              seat = seat;
              named = expect-ok _ _ _ named;
              read = expect-ok _ _ _ read;
              with_auction = (let a = guard-ok _ _ u auction in ground arith);
              phase = phase;
              turn = on_turn;
              own = guard-ok _ _ u' own;
              legal = legal;
            }
      ]

  CanBid-handle_bid :
      (can : CanBid)
      → (ns : List Notice) × (handle_bid bt rd x seats v
          ≡ ok (with_action x (Action.call can.seat can.c), ns))
  unfolding handle_bid call_by
  CanBid-handle_bid can =
      let ((t, n), good) =
        is_ok-cases (apply bt x.inner.table (Action.call can.seat can.c)) (
          (call-accepted_iff bt x.inner.table can.seat can.c).1 (can.phase, can.turn, can.legal)) in
      let (_, pushed, _) = apply-ok bt x.inner.table _ good in
      (
        bid_made n can.seat can.c (fold bt t).next_to_act
            ∷ completion bt (record x.inner { table = t }),
        rw
            (
              handle_bid,
              not-is_empty seats can.seat can.own,
              can.named,
              can.read,
              can.with_auction,
              can.turn,
              can.own,
              call_by,
              good,
              pushed,
            )
            refl,
      )

  -- A bid frame is answered without an error exactly if it names a legal call, off a play-only board, in an
  -- open auction whose turn is at one of the sender's seats, and then the call of that seat is added to
  -- the table and nothing else of the room changes.
  pub handle_client_msg-bid :
      (outside : DealSource) (solve : SolverRequest → SolverAnswer) (verify : Bool)
      (session : Option Session) (name : String) (now : ℕ)
      → text_at rd v "t" ≡ some "bid"
      → ((handle_client_msg bt rd outside solve verify x session name seats v now).error ≡ none
          ↔ CanBid)
        × ((can : CanBid)
            → (handle_client_msg bt rd outside solve verify x session name seats v now).room
              ≡ with_action x (Action.call can.seat can.c))
  unfolding handle_client_msg handle_typed answered
  handle_client_msg-bid outside solve verify session name now e =
      rw (handle_client_msg, e)
        (
          (
            (λ h.
                let (y, ns, run) = answered-none x (handle_bid bt rd x seats v) h in
                handle_bid-CanBid y ns run),
            (λ can. let (ns, run) = CanBid-handle_bid can in rw (answered, run) refl),
          ),
          (λ can. let (ns, run) = CanBid-handle_bid can in rw (answered, run) refl),
        )

module _ {V : Type 0} (bt : BridgeTypes) (rd : Reader V) (seats : List Direction) (x : SessionRoom)
    (v : V) (now : ℕ) where
  -- The frame names a card that the sender may play for the seat on turn.
  pub record CanPlay : Type 0 where
    pub text : String
    pub card : Card
    pub seat : Direction
    pub named : text_at rd v "card" ≡ some text
    pub read : parse_card rd text ≡ some card
    pub with_cardplay : is_bid_only x.inner.board_mode ≡ false
    pub phase : (fold bt x.inner.table).phase ≡ Phase.play
    pub turn : (fold bt x.inner.table).next_to_act ≡ some seat
    pub own : entitled bt x.inner seats seat now ≡ true
    pub held : Among card (remaining x.inner.table seat (fold bt x.inner.table))
    pub follows :
        Follows (current_lead_suit (fold bt x.inner.table)) card
        ⊎ IsVoid
            (current_lead_suit (fold bt x.inner.table))
            (remaining x.inner.table seat (fold bt x.inner.table))

  -- Only somebody with a seat is entitled to act for one.
  entitled-is_empty :
      (seat : Direction) → entitled bt x.inner seats seat now ≡ true → is_empty seats ≡ false
  unfolding entitled
  entitled-is_empty seat h = elim (List-cases seats) [
    | inr (d, ds, e) ↦ rw e refl
    | inl e ↦ elim (Option-cases (fold bt x.inner.table).outcome) [
      | inl e1 ↦ absurd (let no : false ≡ true = rw (entitled, e, e1) at h in cc)
      | inr (c, e1) ↦ absurd (let no = rw (entitled, e, e1) at h in ground arith)
    ]
  ]

  handle_play-CanPlay :
      (y : SessionRoom) (ns : List Notice) → handle_play bt rd x seats v now ≡ ok (y, ns) → CanPlay
  unfolding handle_play card_by
  handle_play-CanPlay y ns h =
      let (_, _, h1) = bind-ok (guard (not (is_empty seats)) "not_seated") _ (y, ns) h in
      let (text, named, h2) = bind-ok (expect (text_at rd v "card") "bad_card") _ (y, ns) h1 in
      let (card, read, h3) = bind-ok (expect (parse_card rd text) "bad_card") _ (y, ns) h2 in
      let (u, cardplay, h4) =
        bind-ok (guard (not (is_bid_only x.inner.board_mode)) "bid_only") _ (y, ns) h3 in
      let (seat, turn, h5) =
        bind-ok (expect (fold bt x.inner.table).next_to_act "rejected") _ (y, ns) h4 in
      let (u', own, h6) =
        bind-ok (guard (entitled bt x.inner seats seat now) "rejected") _ (y, ns) h5 in
      elim (Result-cases (apply bt x.inner.table (Action.play seat card))) [
        | inr (e, bad) ↦
            absurd (let no : err "rejected" ≡ ok (y, ns) = rw (card_by, bad) at h6 in cc)
        | inl (tn, good) ↦
            let (phase, on_turn, held, follows) =
              (play-accepted_iff bt x.inner.table seat card).0 (ap is_ok good) in
            record {
              text = text;
              card = card;
              seat = seat;
              named = expect-ok _ _ _ named;
              read = expect-ok _ _ _ read;
              with_cardplay = (let a = guard-ok _ _ u cardplay in ground arith);
              phase = phase;
              turn = on_turn;
              own = guard-ok _ _ u' own;
              held = held;
              follows = follows;
            }
      ]

  CanPlay-handle_play :
      (can : CanPlay)
      → (ns : List Notice) × (handle_play bt rd x seats v now
          ≡ ok (with_action x (Action.play can.seat can.card), ns))
  unfolding handle_play card_by
  CanPlay-handle_play can =
      let ((t, n), good) = is_ok-cases (apply bt x.inner.table (Action.play can.seat can.card)) (
        (play-accepted_iff bt x.inner.table can.seat can.card).1
          (can.phase, can.turn, can.held, can.follows)) in
      let (_, pushed, _) = apply-ok bt x.inner.table _ good in
      let f = fold bt t in
      (
        card_played n can.seat can.card f.next_to_act (trick_winner_shown f) f.tricks_ns f.tricks_ew
            ∷ completion bt (record x.inner { table = t }),
        rw
            (
              handle_play,
              entitled-is_empty can.seat can.own,
              can.named,
              can.read,
              can.with_cardplay,
              can.turn,
              can.own,
              card_by,
              good,
              pushed,
            )
            refl,
      )

  -- A play frame is answered without an error exactly if it names a card, off a bid-only board, that the
  -- seat on turn holds and that follows suit if the seat can, and the sender holds that seat or controls
  -- it, and then the card of that seat is added to the table and nothing else of the room changes.
  pub handle_client_msg-play :
      (outside : DealSource) (solve : SolverRequest → SolverAnswer) (verify : Bool)
      (session : Option Session) (name : String)
      → text_at rd v "t" ≡ some "play"
      → ((handle_client_msg bt rd outside solve verify x session name seats v now).error ≡ none
          ↔ CanPlay)
        × ((can : CanPlay)
            → (handle_client_msg bt rd outside solve verify x session name seats v now).room
              ≡ with_action x (Action.play can.seat can.card))
  unfolding handle_client_msg handle_typed answered
  handle_client_msg-play outside solve verify session name e =
      rw (handle_client_msg, e)
        (
          (
            (λ h.
                let (y, ns, run) = answered-none x (handle_play bt rd x seats v now) h in
                handle_play-CanPlay y ns run),
            (λ can. let (ns, run) = CanPlay-handle_play can in rw (answered, run) refl),
          ),
          (λ can. let (ns, run) = CanPlay-handle_play can in rw (answered, run) refl),
        )
