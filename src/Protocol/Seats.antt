-- ===== src/Protocol/Seats.antt =====
-- Who may act for a seat, and what follows an action (src/routes/ws.rs, `handle_client_msg`).
use mathlib.Core.Option
use bridge_table_service.Auction.{dummy}
use bridge_table_service.Bridge.{BridgeTypes, Call, Card, Direction, direction_eq}
use bridge_table_service.Prelude.{
  Bool, List, Option, Result, String, [], contains, err, expect, false, guard, if◌then◌else◌,
  is_empty, last, nat_eq, none, not, ok, some, true, ℕ, ◌&&◌, ◌++◌, ◌-◌, ◌==◌, ◌>>◌, ◌||◌, ◌∷◌,
}
use bridge_table_service.Protocol.{
  Notice, bid_made, board_complete, bots_kicked, card_played, lobby_refresh, resync, rewound,
}
use bridge_table_service.Room.{RoomInner}
use bridge_table_service.Room.Control.{declarer_side_controller, last_human_action_seq, result_json}
use bridge_table_service.Session.{SessionRoom}
use bridge_table_service.Table.{Action, CompletedTrick, Folded, seq}
use bridge_table_service.Table.Apply.{apply, undo_to}
use bridge_table_service.Table.Fold.{fold}

-- `trick_winner`: of the last trick, if this card completed it.
pub trick_winner_shown : Folded → Option Direction
trick_winner_shown f =
    let trick_just_completed : Bool = elim f.current_trick [
      | none ↦ true
      | some (leader, plays) ↦ is_empty plays
    ] in
    if trick_just_completed
    then Option.map (λ (t : CompletedTrick). t.winner) (last f.completed_tricks)
    else none

module _ (bt : BridgeTypes) where
  -- The test `entitled`: a seat of one's own, or one of the declarer's side whom one controls.
  unfoldable pub entitled : RoomInner → List Direction → Direction → ℕ → Bool
  unfolding dummy
  entitled r seats seat now = contains seats seat || (elim (fold bt r.table).outcome [
    | none ↦ false
    | some c ↦
        (seat == c.declarer || seat == dummy bt c)
        && contains seats (declarer_side_controller bt r c.declarer true now)
  ])

  -- `board_complete_msg` and what follows it.
  pub completion : RoomInner → List Notice
  completion r =
      (elim (result_json bt r) [ none ↦ [] | some result ↦ board_complete result ∷ resync ∷ [] ])
      ++ lobby_refresh ∷ bots_kicked ∷ []

  -- The arm for a call that `apply` is asked for.
  unfoldable pub call_by :
      SessionRoom → Direction → Call → Result String (SessionRoom × List Notice)
  unfolding completion
  call_by x turn_seat c = elim (apply bt x.inner.table (Action.call turn_seat c)) [
    | err e ↦ err "rejected"
    | ok (t, n) ↦
        let inner = record x.inner { table = t } in
        ok (
          record x { inner = inner },
          bid_made n turn_seat c (fold bt t).next_to_act ∷ completion inner,
        )
  ]

  -- The arm for a card that `apply` is asked for.
  unfoldable pub card_by :
      SessionRoom → Direction → Card → Result String (SessionRoom × List Notice)
  unfolding completion trick_winner_shown
  card_by x turn_seat card = elim (apply bt x.inner.table (Action.play turn_seat card)) [
    | err e ↦ err "rejected"
    | ok (t, n) ↦
        let inner = record x.inner { table = t } in
        let f = fold bt t in
        ok (
          record x { inner = inner },
          card_played n turn_seat card f.next_to_act (trick_winner_shown f) f.tricks_ns f.tricks_ew
              ∷ completion inner,
        )
  ]

-- The table that an undo goes back to, and what is sent.
unfoldable pub rewind : SessionRoom → ℕ → String → Result String (SessionRoom × List Notice)
rewind x to_seq name = elim (undo_to x.inner.table to_seq) [
  | err e ↦ err "rejected"
  | ok (t, n) ↦ ok (
    record x { inner = record x.inner { table = t }; bba_cache = none },
    rewound n name ∷ resync ∷ lobby_refresh ∷ bots_kicked ∷ [],
  )
]

-- `to_seq` of an undo: as asked for, one back if the bots are paused, or the last human action.
unfoldable pub undo_target : RoomInner → Option ℕ → Bool → ℕ → Result String ℕ
undo_target r (some n) bots_paused now = ok n
undo_target r none true now = do
  guard (not (seq r.table == 0)) "nothing_to_undo"
  ok (seq r.table - 1)
undo_target r none false now = expect (last_human_action_seq r now) "no_human_action"
