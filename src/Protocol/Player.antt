-- ===== src/Protocol/Player.antt =====
-- The messages of a player (src/routes/ws.rs, `handle_client_msg`). The locks of a claim are taken on the
-- same room, one after the other.
use bridge_table_service.Bridge.{BridgeTypes, Direction, direction_eq}
use bridge_table_service.Claim.{
  ClaimRefused, ClaimRequest, SolverAnswer, SolverRequest, bid_only_board, checker_failed,
  claim_rejected, claim_stale, make_claim, moved_on,
}
use bridge_table_service.Prelude.{
  Bool, List, Option, Result, String, [], contains, err, expect, false, first, guard, if◌then◌else◌,
  is_empty, none, not, ok, some, string_eq, ℕ, ◌==◌, ◌>>=◌, ◌>>◌, ◌∷◌,
}
use bridge_table_service.Protocol.{
  Handled, Notice, Reader, answered, claim_numbers, first_direction, number_at, parse_card, text_at,
}
use bridge_table_service.Protocol.Dealing.{DealSource, handle_deal}
use bridge_table_service.Protocol.Seats.{call_by, card_by, entitled, rewind, undo_target}
use bridge_table_service.Room.{is_bid_only, is_play_only}
use bridge_table_service.Session.{Session, SessionRoom}
use bridge_table_service.Table.Fold.{fold}

-- The code of a refusal by `make_claim`: `check_failed` is an error of the checker or an answer that is no
-- JSON, `checker_failed` its panic.
unfoldable pub refusal_code : ClaimRefused → String
refusal_code bid_only_board = "bid_only"
refusal_code claim_stale = "claim_stale"
refusal_code moved_on = "claim_stale"
refusal_code (claim_rejected verdict) = "claim_rejected"
refusal_code checker_failed = "claim_rejected"
refusal_code _ = "rejected"

module _ {V : Type 0} (rd : Reader V) where
  -- The seat that a claim names, or the sender's first.
  pub claiming_seat : List Direction → V → Result String Direction
  unfolding text_at first_direction
  claiming_seat seats v = elim (text_at rd v "seat") [
    | some s ↦ expect (first_direction rd s) "bad_claim"
    | none ↦ expect (first seats) "not_seated"
  ]

  -- The arm for `undo`.
  unfoldable pub handle_undo :
      SessionRoom → Option Session → String → V → ℕ → Result String (SessionRoom × List Notice)
  unfolding number_at undo_target rewind
  handle_undo x session name v now = do
    let bots_paused : Bool = elim session [ none ↦ false | some s ↦ s.bots_paused ]
    to_seq ← undo_target x.inner (number_at rd v "to_seq") bots_paused now
    rewind x to_seq name

module _ {V : Type 0} (bt : BridgeTypes) (rd : Reader V) where
  -- The arm for `bid`.
  unfoldable pub handle_bid :
      SessionRoom → List Direction → V → Result String (SessionRoom × List Notice)
  unfolding text_at call_by
  handle_bid x seats v = do
    guard (not (is_empty seats)) "not_seated"
    text ← expect (text_at rd v "call") "bad_call"
    c ← expect (rd.call_of text) "bad_call"
    guard (not (is_play_only x.inner.board_mode)) "play_only"
    turn_seat ← expect (fold bt x.inner.table).next_to_act "rejected"
    guard (contains seats turn_seat) "rejected"
    call_by bt x turn_seat c

  -- The arm for `play`.
  unfoldable pub handle_play :
      SessionRoom → List Direction → V → ℕ → Result String (SessionRoom × List Notice)
  unfolding text_at card_by parse_card
  handle_play x seats v now = do
    guard (not (is_empty seats)) "not_seated"
    text ← expect (text_at rd v "card") "bad_card"
    card ← expect (parse_card rd text) "bad_card"
    guard (not (is_bid_only x.inner.board_mode)) "bid_only"
    turn_seat ← expect (fold bt x.inner.table).next_to_act "rejected"
    guard (entitled bt x.inner seats turn_seat now) "rejected"
    card_by bt x turn_seat card

module _ {V : Type 0} (bt : BridgeTypes) (rd : Reader V) (solve : SolverRequest → SolverAnswer)
    (verify : Bool) where
  -- The arm for `claim`; what `make_claim` sends is not modelled.
  unfoldable pub handle_claim :
      SessionRoom → List Direction → V → ℕ → Result String (SessionRoom × List Notice)
  unfolding claiming_seat claim_numbers refusal_code
  handle_claim x seats v now = do
    guard (not (is_empty seats)) "not_seated"
    (tricks, plays_seen) ← expect (claim_numbers rd v) "bad_claim"
    seat ← claiming_seat rd seats v
    guard (entitled bt x.inner seats seat now) "rejected"
    let req : ClaimRequest = record {
      seat = seat;
      tricks = tricks;
      plays_seen = plays_seen;
      ruling = false;
    }
    elim (make_claim bt solve verify x.inner x.inner req) [
      | err e ↦ err (refusal_code e)
      | ok (inner, n) ↦ ok (record x { inner = inner }, [])
    ]

module _ {V : Type 0} (bt : BridgeTypes) (rd : Reader V) (outside : DealSource)
    (solve : SolverRequest → SolverAnswer) (verify : Bool) where
  -- The match on the type of the frame.
  unfoldable pub handle_typed :
      String → SessionRoom → Option Session → String → List Direction → V → ℕ → Handled
  unfolding answered handle_claim handle_bid handle_play handle_undo handle_deal
  handle_typed t x session name seats v now =
      if t == "pong"
      then record { room = x; notices = []; error = none }
      else if contains ("assign_seat" ∷ "boot" ∷ "force_advance" ∷ "kick" ∷ "set_pass_sides" ∷ []) t
      then answered x (err "not_host")
      else if t == "claim_ruling"
      then answered x (err "not_host")
      else if t == "claim"
      then answered x (handle_claim bt rd solve verify x seats v now)
      else if t == "bid"
      then answered x (handle_bid bt rd x seats v)
      else if t == "play"
      then answered x (handle_play bt rd x seats v now)
      else if t == "undo"
      then answered x (handle_undo rd x session name v now)
      else if t == "deal"
      then handle_deal bt rd outside x session name seats v
      else answered x (err "unknown")

  -- `handle_client_msg`
  unfoldable pub handle_client_msg :
      SessionRoom → Option Session → String → List Direction → V → ℕ → Handled
  unfolding text_at handle_typed answered
  handle_client_msg x session name seats v now = elim (text_at rd v "t") [
    | none ↦ answered x (err "unknown")
    | some t ↦ handle_typed t x session name seats v now
  ]
