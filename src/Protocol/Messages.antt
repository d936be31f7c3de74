-- ===== src/Protocol/Messages.antt =====
-- The messages of the players of a session (src/routes/ws.rs, `handle_client_msg`).
use bridge_table_service.Bridge.{BridgeTypes, Direction}
use bridge_table_service.Claim.{SolverAnswer, SolverRequest}
use bridge_table_service.Prelude.{
  Bool, Bool-cases, List, Option-cases, Result, String, [], contains, err, false, if◌then◌else◌,
  inl, inr, is_empty, ok, refl, some, string_eq, true, unwrap_or, ℕ, ◌==◌, ◌∷◌, ◌≡◌,
}
use bridge_table_service.Protocol.{Handled, Notice, Reader, answered, text_at}
use bridge_table_service.Protocol.Accounted.{
  Fair, handle_bid-Fair, handle_claim-Fair, handle_play-Fair, handle_undo-Fair, untouched,
}
use bridge_table_service.Protocol.Dealing.{DealSource, deal_allowed, handle_deal}
use bridge_table_service.Protocol.Player.{handle_client_msg, handle_typed}
use bridge_table_service.Session.{Session, SessionRoom}

module _ {V : Type 0} (bt : BridgeTypes) (rd : Reader V) (outside : DealSource)
    (solve : SolverRequest → SolverAnswer) (verify : Bool) (seats : List Direction) (now : ℕ) where
  -- What every arm leaves: a fair room, and nothing at all after an error.
  record IsFair (x : SessionRoom) (h : Handled) : Type 0 where
    fair : Fair bt solve verify seats now x h.room
    on_error : (code : String) → h.error ≡ some code → (h.room ≡ x) × (h.notices ≡ [])

  untouched-Fair : (x : SessionRoom) → Fair bt solve verify seats now x x
  untouched-Fair x = record { same_id = refl; same_mode = refl; accounted = untouched }

  answered-IsFair :
      (x : SessionRoom) (r : Result String (SessionRoom × List Notice))
      → ((y : SessionRoom) (ns : List Notice) → r ≡ ok (y, ns) → Fair bt solve verify seats now x y)
      → IsFair x (answered x r)
  unfolding answered
  answered-IsFair x (err code) fair = record {
    fair = untouched-Fair x;
    on_error = λ c h. (refl, refl);
  }
  answered-IsFair x (ok (y, ns)) fair = record {
    fair = fair y ns refl;
    on_error = λ c h. absurd (cc);
  }

  refused-IsFair : (x : SessionRoom) (code : String) → IsFair x (answered x (err code))
  refused-IsFair x code = answered-IsFair x (err code) λ y ns h. absurd (cc)

  if-IsFair :
      (x : SessionRoom) (b : Bool) (h k : Handled)
      → IsFair x h
      → IsFair x k
      → IsFair x (if b then h else k)
  if-IsFair x true h k p q = p
  if-IsFair x false h k p q = q

  deal-refused :
      (s : Session) (source : String) (v : V)
      → (code : String) × (deal_allowed bt rd outside (some s) seats source v ≡ err code)
  unfolding deal_allowed
  deal-refused s source v = elim (Bool-cases (is_empty seats)) [
    | inl e ↦ ("not_seated", rw (deal_allowed, e) refl)
    | inr e ↦ ("session_table", rw (deal_allowed, e) refl)
  ]

  handle_deal-IsFair :
      (x : SessionRoom) (s : Session) (name : String) (v : V)
      → IsFair x (handle_deal bt rd outside x (some s) name seats v)
  unfolding handle_deal
  handle_deal-IsFair x s name v =
      let (code, e) = deal-refused s (unwrap_or "" (text_at rd v "source")) v in
      rw (handle_deal, e) (refused-IsFair x code)

  handle_typed-IsFair :
      (t : String) (x : SessionRoom) (s : Session) (name : String) (v : V)
      → IsFair x (handle_typed bt rd outside solve verify t x (some s) name seats v now)
  unfolding handle_typed
  handle_typed-IsFair t x s name v =
      if-IsFair x (t == "pong") _ _
        (record { fair = untouched-Fair x; on_error = λ c h. absurd (cc) })
        (if-IsFair x
          (contains ("assign_seat" ∷ "boot" ∷ "force_advance" ∷ "kick" ∷ "set_pass_sides" ∷ []) t) _
          _ (refused-IsFair x "not_host")
          (if-IsFair x (t == "claim_ruling") _ _ (refused-IsFair x "not_host") (
            if-IsFair x (t == "claim") _ _
              (answered-IsFair x _ (handle_claim-Fair bt solve verify rd seats now x v))
              (if-IsFair x (t == "bid") _ _
                (answered-IsFair x _ (handle_bid-Fair bt solve verify rd seats now x v))
                (if-IsFair x (t == "play") _ _
                  (answered-IsFair x _ (handle_play-Fair bt solve verify rd seats now x v))
                  (if-IsFair x (t == "undo") _ _
                    (answered-IsFair x _
                      (handle_undo-Fair bt solve verify rd seats now x (some s) name v))
                    (if-IsFair x (t == "deal") _ _ (handle_deal-IsFair x s name v)
                      (refused-IsFair x "unknown"))))))))

  handle_client_msg-IsFair :
      (x : SessionRoom) (s : Session) (name : String) (v : V)
      → IsFair x (handle_client_msg bt rd outside solve verify x (some s) name seats v now)
  unfolding handle_client_msg
  handle_client_msg-IsFair x s name v = elim (Option-cases (text_at rd v "t")) [
    | inl e ↦ rw (handle_client_msg, e) (refused-IsFair x "unknown")
    | inr (t, e) ↦ rw (handle_client_msg, e) (handle_typed-IsFair t x s name v)
  ]

  pub handle_client_msg-refused :
      (x : SessionRoom) (s : Session) (name : String) (v : V) (code : String)
      → (handle_client_msg bt rd outside solve verify x (some s) name seats v now).error ≡ some code
      → (handle_client_msg bt rd outside solve verify x (some s) name seats v now).room ≡ x
  handle_client_msg-refused x s name v code h =
      ((handle_client_msg-IsFair x s name v).on_error code h).0

  -- Whatever a player of a session sends, the room is left as it was, or changed by one of these: a call
  -- that `apply` accepts for one of the sender's seats, off a play-only board; a card that it accepts
  -- for a seat that the sender holds or controls, off a bid-only board; a claim, no ruling, for such a seat,
  -- made as `make_claim` makes it; or an undo. The number of the table and its bots stay the same.
  pub handle_client_msg-Fair :
      (x : SessionRoom) (s : Session) (name : String) (v : V)
      → Fair bt solve verify seats now x
          (handle_client_msg bt rd outside solve verify x (some s) name seats v now).room
  handle_client_msg-Fair x s name v = (handle_client_msg-IsFair x s name v).fair
