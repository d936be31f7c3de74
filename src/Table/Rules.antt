-- ===== src/Table/Rules.antt =====
-- What `apply` accepts, said without its guards, and how undo answers it (src/table.rs).
use bridge_table_service.Auction.{is_legal}
use bridge_table_service.Bridge.{BridgeTypes, Call, Card, Direction, direction_beq_iff}
use bridge_table_service.Play.{is_legal_play}
use bridge_table_service.Play.Following.{Among, Follows, IsVoid, is_legal_play_iff}
use bridge_table_service.Prelude.{
  Bool-cases, List, Option-cases, [], ap, arith, check-cases, err, if◌then◌else◌, inl, inr, is_ok,
  leb, length-append, length-take, ok, refl, some, suc, take, take-append_length, true, zero, ℕ,
  ◌↔◌, ◌∷◌, ◌≡◌, ◌≤◌, ◌⊎◌,
}
use bridge_table_service.Table.{Action, Folded, Phase, TableState, phase_beq_iff, seq}
use bridge_table_service.Table.Apply.{
  apply, check, current_lead_suit, is_turn, push, remaining, undo_forward, undo_to,
}
use bridge_table_service.Table.Fold.{fold}
use bridge_table_service.Table.Log.{apply-ok, undo_to-ok}

is_turn_iff :
    (f : Folded) (seat : Direction) → (is_turn f seat ≡ true) ↔ (f.next_to_act ≡ some seat)
unfolding is_turn
is_turn_iff f seat = elim (Option-cases f.next_to_act) [
  | inl e ↦ ((λ h. absurd (ground arith)), (λ h. absurd (ground arith)))
  | inr (d, e) ↦ (
    (λ h. ground (arith, direction_beq_iff d seat)),
    (λ h. ground (arith, direction_beq_iff d seat)),
  )
]

is_ok-apply :
    (bt : BridgeTypes) (t : TableState) (a : Action)
    → is_ok (apply bt t a) ≡ is_ok (check t (fold bt t) a)
unfolding apply
is_ok-apply bt t a = elim (check-cases (check t (fold bt t) a)) [ inl e ↦ rw e | inr (r, e) ↦ rw e ]

-- A call is accepted exactly when the auction is open, the seat is on turn and the call is legal.
pub call-accepted_iff :
    (bt : BridgeTypes) (t : TableState) (seat : Direction) (c : Call)
    → (is_ok (apply bt t (Action.call seat c)) ≡ true) ↔ (
        ((fold bt t).phase ≡ Phase.bidding)
        × ((fold bt t).next_to_act ≡ some seat)
        × (is_legal t.board.dealer (fold bt t).calls c ≡ true))
unfolding check
call-accepted_iff bt t seat c =
    let f = fold bt t in
    rw (is_ok-apply bt t (Action.call seat c)) (
      (λ h. ground (arith, phase_beq_iff f.phase Phase.bidding, is_turn_iff f seat)),
      (λ h. ground (arith, phase_beq_iff f.phase Phase.bidding, is_turn_iff f seat)),
    )

check-play_iff :
    (t : TableState) (f : Folded) (seat : Direction) (card : Card)
    → (is_ok (check t f (Action.play seat card)) ≡ true) ↔ (
        (f.phase ≡ Phase.play)
        × (f.next_to_act ≡ some seat)
        × (is_legal_play card (remaining t seat f) (current_lead_suit f) ≡ true))
unfolding check
check-play_iff t f seat card = (
  (λ h. ground (arith, phase_beq_iff f.phase Phase.play, is_turn_iff f seat)),
  (λ h. ground (arith, phase_beq_iff f.phase Phase.play, is_turn_iff f seat)),
)

-- A card is accepted exactly when the play is on, the seat is on turn, it still holds the card, and
-- the card follows the suit led, or nothing that the seat holds does.
pub play-accepted_iff :
    (bt : BridgeTypes) (t : TableState) (seat : Direction) (card : Card)
    → (is_ok (apply bt t (Action.play seat card)) ≡ true) ↔ (
        ((fold bt t).phase ≡ Phase.play)
        × ((fold bt t).next_to_act ≡ some seat)
        × Among card (remaining t seat (fold bt t))
        × (Follows (current_lead_suit (fold bt t)) card
            ⊎ IsVoid (current_lead_suit (fold bt t)) (remaining t seat (fold bt t))))
play-accepted_iff bt t seat card =
    let f = fold bt t in
    let rule = is_legal_play_iff card (remaining t seat f) (current_lead_suit f) in
    let (to, from) = check-play_iff t f seat card in
    rw (is_ok-apply bt t (Action.play seat card)) (
      (λ h. let (p, turn, fits) = to h in (p, turn, (rule.0 fits).0, (rule.0 fits).1)),
      (λ (p, turn, held, suit). from (p, turn, rule.1 (held, suit))),
    )

-- Undoing to the sequence number before an accepted action gives the table from before it back.
pub undo_to-apply :
    (bt : BridgeTypes) (t : TableState) (a : Action) {t' : TableState} {n : ℕ}
    → apply bt t a ≡ ok (t', n)
    → undo_to t' (seq t) ≡ ok (t, seq t)
unfolding undo_to seq push
undo_to-apply bt t a h =
    let (_, e, _) = apply-ok bt t a h in
    let n = length-append t.actions (a ∷ []) in
    let cut = take-append_length t.actions (a ∷ []) in rw e (ground (arith, n, cut))

take-take : (j k : ℕ) (xs : List Action) → j ≤ k → take j (take k xs) ≡ take j xs
take-take zero k xs h = refl
take-take (suc j) zero xs h = elim h [ ]
take-take (suc j) (suc k) [] h = refl
take-take (suc j) (suc k) (x ∷ xs) h = ap (◌∷◌ x) (take-take j k xs (omega arith))

-- Undo is absolute: going back in two steps is going back in one, and undo never goes forward.
pub undo_to-undo_to :
    (t : TableState) (j k : ℕ) {t' : TableState} {n : ℕ}
    → undo_to t k ≡ ok (t', n)
    → undo_to t' j ≡ (if leb j k then undo_to t j else err undo_forward)
unfolding undo_to seq
undo_to-undo_to t j k h =
    let (le, e, _) = undo_to-ok t k h in
    let n = length-take k t.actions in
    elim (Bool-cases (leb j k)) [
      | inl back ↦ rw (e, back) (ground (arith, n, take-take j k t.actions))
      | inr forward ↦ rw (e, forward) (ground (arith, n))
    ]
