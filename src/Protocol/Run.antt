-- ===== src/Protocol/Run.antt =====
-- The life of a session as steps, one for each frame of a socket (src/routes/ws.rs).
use bridge_table_service.Bridge.{BridgeTypes, Direction}
use bridge_table_service.Claim.{SolverAnswer, SolverRequest}
use bridge_table_service.Prelude.{Bool, List, Option, String, get_elem?, ok, some, subst, ℕ, ◌≡◌}
use bridge_table_service.Protocol.{Reader}
use bridge_table_service.Protocol.Dealing.{DealSource}
use bridge_table_service.Protocol.Joining.{Hello, disconnect, join_player, leave}
use bridge_table_service.Protocol.Orders.{Kept, handle_teacher_msg-Kept}
use bridge_table_service.Protocol.Player.{handle_client_msg}
use bridge_table_service.Protocol.Rules.{
  applied-Rooted, disconnect-IsOrderly, join_player-IsOrderly, leave-IsOrderly, message-IsOrderly,
}
use bridge_table_service.Protocol.Teacher.{handle_teacher_msg}
use bridge_table_service.Session.{SeatPolicy, Session, SessionKind, SessionRoom, new_session}
use bridge_table_service.Session.Arrivals.{replace_room}
use bridge_table_service.Session.Control.{with_inner}
use bridge_table_service.Session.Orderly.{AllOk, IsOrderly, new_session-IsOrderly, set_room-Orderly}
use bridge_table_service.Table.{Action, BoardSetup, TableState}
use bridge_table_service.Table.Apply.{apply}

module _ {V : Type 0} (bt : BridgeTypes) (rd : Reader V) (outside : DealSource)
    (solve : SolverRequest → SolverAnswer) (verify : Bool) (placeholder : BoardSetup)
    (order : SessionRoom → List Direction) where
  -- The sessions that come of a new one by steps in any order: somebody connects, a player of a table or
  -- the host sends a message, a bot adds an action to a table, somebody leaves or is disconnected.
  pub data SessionRun : Session → Type 0 where
    created :
        (kind : SessionKind) (owner : String) (policy : SeatPolicy) (boards : List BoardSetup)
        (tables : ℕ)
        → SessionRun (new_session placeholder kind owner policy boards tables)
    joined :
        {s s' : Session} {id : ℕ} {seats : List Direction} (hello : Hello) (token : String)
        (now : ℕ)
        → SessionRun s
        → join_player placeholder order s hello token now ≡ ok (s', id, seats)
        → SessionRun s'
    player_sent :
        {s : Session} {x : SessionRoom} (i : ℕ) (seats : List Direction) (name : String) (v : V)
        (now : ℕ)
        → SessionRun s
        → get_elem? s.rooms i ≡ some x
        → SessionRun (record s {
          rooms =
              replace_room s.rooms i
                (handle_client_msg bt rd outside solve verify x (some s) name seats v now).room;
        })
    host_sent :
        {s s' : Session} {answer : Option String} (kibitz : Option ℕ) (name : String) (v : V)
        (now : ℕ)
        → SessionRun s
        → handle_teacher_msg bt rd outside solve verify placeholder order s kibitz name v now
          ≡ ok (s', answer)
        → SessionRun s'
    bot_acted :
        {s : Session} {x : SessionRoom} {t : TableState} {n : ℕ} (i : ℕ) (a : Action)
        → SessionRun s
        → get_elem? s.rooms i ≡ some x
        → apply bt x.inner.table a ≡ ok (t, n)
        → SessionRun (with_inner s i (record x.inner { table = t }))
    has_left :
        {s : Session} (id : ℕ) (seats : List Direction)
        → SessionRun s
        → SessionRun (leave s id seats)
    has_gone :
        {s : Session} (token sub : String) (id now : ℕ)
        → SessionRun s
        → SessionRun (disconnect order s token sub id now)

  bot-IsOrderly :
      (s : Session) (x : SessionRoom) (t : TableState) (n i : ℕ) (a : Action)
      → get_elem? s.rooms i ≡ some x
      → apply bt x.inner.table a ≡ ok (t, n)
      → IsOrderly bt s
      → IsOrderly bt (with_inner s i (record x.inner { table = t }))
  unfolding with_inner IsOrderly
  bot-IsOrderly s x t n i a here done o =
      set_room-Orderly bt 1 s.rooms _ i x (record x.inner { table = t }) here
        (applied-Rooted bt x.inner (record x.inner { table = t }) a n done) o

  -- After any such steps, the tables of the session are numbered 1, 2, 3 and so on in the order in which
  -- they were added, up to the last number given out, and each of them is in a state that `apply` and `undo_to`
  -- reach from a fresh board.
  pub SessionRun-IsOrderly : (s : Session) → SessionRun s → IsOrderly bt s
  SessionRun-IsOrderly s (created kind owner policy boards tables) =
      new_session-IsOrderly bt placeholder kind owner policy boards tables
  SessionRun-IsOrderly s (joined {s = s0} hello token now run h) =
      subst (AllOk (λ (r : Session × ℕ × List Direction). IsOrderly bt r.0)) h (
        join_player-IsOrderly bt placeholder order s0 hello token now (SessionRun-IsOrderly s0 run))
  SessionRun-IsOrderly s (player_sent {s = s0} {x = x} i seats name v now run h) =
      message-IsOrderly bt rd outside solve verify seats now s0 i x name v h
        (SessionRun-IsOrderly s0 run)
  SessionRun-IsOrderly s (host_sent {s = s0} kibitz name v now run h) = subst (AllOk (Kept bt)) h (
      handle_teacher_msg-Kept bt rd outside solve verify placeholder order s0 kibitz name v now
        (SessionRun-IsOrderly s0 run))
  SessionRun-IsOrderly s (bot_acted {s = s0} {x = x} {t = t} {n = n} i a run here done) =
      bot-IsOrderly s0 x t n i a here done (SessionRun-IsOrderly s0 run)
  SessionRun-IsOrderly s (has_left {s = s0} id seats run) =
      leave-IsOrderly bt s0 id seats (SessionRun-IsOrderly s0 run)
  SessionRun-IsOrderly s (has_gone {s = s0} token sub id now run) =
      disconnect-IsOrderly bt order s0 token sub id now (SessionRun-IsOrderly s0 run)
