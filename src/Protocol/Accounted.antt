-- ===== src/Protocol/Accounted.antt =====
-- What a player's message may do to a table (src/routes/ws.rs, `handle_client_msg`).
use bridge_table_service.Bridge.{BridgeTypes, Call, Card, Direction, direction_eq}
use bridge_table_service.Claim.{ClaimRequest, SolverAnswer, SolverRequest, make_claim}
use bridge_table_service.Prelude.{
  Bool, List, Option, Path, Result, Result-cases, String, ap, arith, bind-ok, contains, err, expect,
  false, guard, guard-ok, inl, inr, is_empty, none, not, ok, ok-injective, refl, some, subst, true,
  ℕ, ◌≡◌,
}
use bridge_table_service.Protocol.{Notice, Reader, claim_numbers, number_at, parse_card, text_at}
use bridge_table_service.Protocol.Player.{
  claiming_seat, handle_bid, handle_claim, handle_play, handle_undo, refusal_code,
}
use bridge_table_service.Protocol.Seats.{call_by, card_by, entitled, rewind, undo_target}
use bridge_table_service.Room.{RoomInner, is_bid_only, is_play_only}
use bridge_table_service.Session.{Session, SessionRoom}
use bridge_table_service.Table.{Action, TableState}
use bridge_table_service.Table.Apply.{apply, undo_to}
use bridge_table_service.Table.Fold.{fold}

first_of :
    (x y : SessionRoom) (ns ms : List Notice) (P : SessionRoom → Type 0)
    → Path (Result String (SessionRoom × List Notice)) (ok (x, ns)) (ok (y, ms))
    → P x
    → P y
first_of x y ns ms P h p =
    subst P (ap (λ (q : SessionRoom × List Notice). q.0) (ok-injective (x, ns) (y, ms) h)) p

module _ (bt : BridgeTypes) (solve : SolverRequest → SolverAnswer) (verify : Bool) where
  -- The ways in which a message of a player, who holds `seats`, may change a room: the call or the card of
  -- the seat on turn, a claim, or an undo.
  pub data Accounted (seats : List Direction) (now : ℕ) (r : RoomInner) : RoomInner → Type 0 where
    untouched : Accounted seats now r r
    called :
        {t : TableState} {n : ℕ} (seat : Direction) (c : Call)
        → contains seats seat ≡ true
        → is_play_only r.board_mode ≡ false
        → apply bt r.table (Action.call seat c) ≡ ok (t, n)
        → Accounted seats now r (record r { table = t })
    played :
        {t : TableState} {n : ℕ} (seat : Direction) (card : Card)
        → entitled bt r seats seat now ≡ true
        → is_bid_only r.board_mode ≡ false
        → apply bt r.table (Action.play seat card) ≡ ok (t, n)
        → Accounted seats now r (record r { table = t })
    claimed :
        {r' : RoomInner} {n : ℕ} (req : ClaimRequest)
        → entitled bt r seats req.seat now ≡ true
        → req.ruling ≡ false
        → make_claim bt solve verify r r req ≡ ok (r', n)
        → Accounted seats now r r'
    rewound_to :
        {t : TableState} {n : ℕ} (k : ℕ)
        → undo_to r.table k ≡ ok (t, n)
        → Accounted seats now r (record r { table = t })

  -- What a handler's success leaves: an accounted room, and otherwise at most the cache changed.
  pub record Fair (seats : List Direction) (now : ℕ) (x y : SessionRoom) : Type 0 where
    pub same_id : y.id ≡ x.id
    pub same_mode : y.bot_mode ≡ x.bot_mode
    pub accounted : Accounted seats now x.inner y.inner

module _ (bt : BridgeTypes) (solve : SolverRequest → SolverAnswer) (verify : Bool) {V : Type 0}
    (rd : Reader V) (seats : List Direction) (now : ℕ) (x : SessionRoom) where
  pub handle_bid-Fair :
      (v : V) (y : SessionRoom) (notices : List Notice)
      → handle_bid bt rd x seats v ≡ ok (y, notices)
      → Fair bt solve verify seats now x y
  unfolding handle_bid call_by
  handle_bid-Fair v y notices h =
      let (_, _, h1) = bind-ok (guard (not (is_empty seats)) "not_seated") _ (y, notices) h in
      let (text, _, h2) = bind-ok (expect (text_at rd v "call") "bad_call") _ (y, notices) h1 in
      let (c, _, h3) = bind-ok (expect (rd.call_of text) "bad_call") _ (y, notices) h2 in
      let (u, auction, h4) =
        bind-ok (guard (not (is_play_only x.inner.board_mode)) "play_only") _ (y, notices) h3 in
      let (turn, _, h5) =
        bind-ok (expect (fold bt x.inner.table).next_to_act "rejected") _ (y, notices) h4 in
      let (u', own, h6) = bind-ok (guard (contains seats turn) "rejected") _ (y, notices) h5 in
      elim (Result-cases (apply bt x.inner.table (Action.call turn c))) [
        | inr (e, bad) ↦
            absurd (let no : err "rejected" ≡ ok (y, notices) = rw (call_by, bad) at h6 in cc)
        | inl ((t, n), good) ↦
            first_of (record x { inner = record x.inner { table = t } }) y _ notices
              (Fair bt solve verify seats now x) (rw (call_by, good) at h6)
              (record {
                same_id = refl;
                same_mode = refl;
                accounted =
                    called turn c (guard-ok _ _ u' own)
                      (let a = guard-ok _ _ u auction in ground arith) good;
              })
      ]

  pub handle_play-Fair :
      (v : V) (y : SessionRoom) (notices : List Notice)
      → handle_play bt rd x seats v now ≡ ok (y, notices)
      → Fair bt solve verify seats now x y
  unfolding handle_play card_by
  handle_play-Fair v y notices h =
      let (_, _, h1) = bind-ok (guard (not (is_empty seats)) "not_seated") _ (y, notices) h in
      let (text, _, h2) = bind-ok (expect (text_at rd v "card") "bad_card") _ (y, notices) h1 in
      let (card, _, h3) = bind-ok (expect (parse_card rd text) "bad_card") _ (y, notices) h2 in
      let (u, cardplay, h4) =
        bind-ok (guard (not (is_bid_only x.inner.board_mode)) "bid_only") _ (y, notices) h3 in
      let (turn, _, h5) =
        bind-ok (expect (fold bt x.inner.table).next_to_act "rejected") _ (y, notices) h4 in
      let (u', own, h6) =
        bind-ok (guard (entitled bt x.inner seats turn now) "rejected") _ (y, notices) h5 in
      elim (Result-cases (apply bt x.inner.table (Action.play turn card))) [
        | inr (e, bad) ↦
            absurd (let no : err "rejected" ≡ ok (y, notices) = rw (card_by, bad) at h6 in cc)
        | inl ((t, n), good) ↦
            first_of (record x { inner = record x.inner { table = t } }) y _ notices
              (Fair bt solve verify seats now x) (rw (card_by, good) at h6)
              (record {
                same_id = refl;
                same_mode = refl;
                accounted =
                    played turn card (guard-ok _ _ u' own)
                      (let a = guard-ok _ _ u cardplay in ground arith) good;
              })
      ]

  pub handle_undo-Fair :
      (session : Option Session) (name : String) (v : V) (y : SessionRoom) (notices : List Notice)
      → handle_undo rd x session name v now ≡ ok (y, notices)
      → Fair bt solve verify seats now x y
  unfolding handle_undo rewind
  handle_undo-Fair session name v y notices h =
      let (k, _, h1) =
        bind-ok
          (undo_target x.inner (number_at rd v "to_seq")
            (elim session [ none ↦ false | some s ↦ s.bots_paused ]) now)
          _ (y, notices) h in
      elim (Result-cases (undo_to x.inner.table k)) [
        | inr (e, bad) ↦
            absurd (let no : err "rejected" ≡ ok (y, notices) = rw (rewind, bad) at h1 in cc)
        | inl ((t, n), good) ↦
            first_of (record x { inner = record x.inner { table = t }; bba_cache = none }) y _
              notices (Fair bt solve verify seats now x) (rw (rewind, good) at h1)
              (record { same_id = refl; same_mode = refl; accounted = rewound_to k good })
      ]

  pub handle_claim-Fair :
      (v : V) (y : SessionRoom) (notices : List Notice)
      → handle_claim bt rd solve verify x seats v now ≡ ok (y, notices)
      → Fair bt solve verify seats now x y
  unfolding handle_claim
  handle_claim-Fair v y notices h =
      let (_, _, h1) = bind-ok (guard (not (is_empty seats)) "not_seated") _ (y, notices) h in
      let ((tricks, seen), _, h2) =
        bind-ok (expect (claim_numbers rd v) "bad_claim") _ (y, notices) h1 in
      let (seat, _, h3) = bind-ok (claiming_seat rd seats v) _ (y, notices) h2 in
      let (u, own, h4) =
        bind-ok (guard (entitled bt x.inner seats seat now) "rejected") _ (y, notices) h3 in
      let req : ClaimRequest = record {
        seat = seat;
        tricks = tricks;
        plays_seen = seen;
        ruling = false;
      } in
      elim (Result-cases (make_claim bt solve verify x.inner x.inner req)) [
        | inr (e, bad) ↦
            absurd (let no : err (refusal_code e) ≡ ok (y, notices) = rw bad at h4 in cc)
        | inl ((r, n), good) ↦
            first_of (record x { inner = r }) y _ notices (Fair bt solve verify seats now x)
              (rw good at h4)
              (record {
                same_id = refl;
                same_mode = refl;
                accounted = claimed req (guard-ok _ _ u own) refl good;
              })
      ]
