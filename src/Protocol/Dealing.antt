-- ===== src/Protocol/Dealing.antt =====
-- The deals of the demo room (src/routes/ws.rs, `deal`; src/rooms.rs, the boards).
use Prim.Native.String.{len}
use bridge_table_service.Bridge.{BridgeTypes, Deal, Direction, east, nobody, north, south, west}
use bridge_table_service.Prelude.{
  List, Option, Result, String, [], err, expect, first, guard, if◌then◌else◌, is_empty, is_some,
  leb, max, nat_eq, none, not, ok, some, string_eq, unwrap_or, ℕ, ◌%◌, ◌+◌, ◌-◌, ◌==◌, ◌>>=◌, ◌>>◌,
  ◌^◌, ◌∷◌,
}
use bridge_table_service.Protocol.{
  Handled, Reader, answered, board_advanced, bots_kicked, number_at, resync, text_at,
}
use bridge_table_service.Room.{RoomInner, parse_board_mode}
use bridge_table_service.Room.Boards.{rotate_board, vulnerability_for}
use bridge_table_service.Session.{Session, SessionRoom}
use bridge_table_service.Session.Policy.{PbnBoard}
use bridge_table_service.Table.{BoardSetup, TableState, new_table}
use bridge_table_service.Table.Apply.{undo_to}
use bridge_table_service.Table.Line.{from_sequence}

-- What dealing needs from outside: `read_pbn`, the cards that are shuffled and sorted into hands, and the
-- dealer service, if it is available.
pub record DealSource : Type 0 where
  pub read_pbn : String → Option (List PbnBoard)
  pub shuffled : Deal
  pub dealer_service : Option (String → Option String)

-- `random_board`; `CYCLE` has an entry for every number.
pub random_board : Deal → ℕ → BoardSetup
random_board deal number =
    let turn = (max number 1 - 1) % 4 in
    record {
      number = number;
      dealer =
          if turn == 0
          then north
          else if turn == 1
          then east
          else if turn == 2
          then south
          else west;
      vulnerable = unwrap_or nobody (vulnerability_for number);
      deal = deal;
      play_line = none;
    }

-- The board of `board_from_pbn`, before it is rotated.
pub single_board : PbnBoard → ℕ → BoardSetup
single_board b number = record {
  number = unwrap_or number b.number;
  dealer = unwrap_or north b.dealer;
  vulnerable = b.vulnerable;
  deal = b.deal;
  play_line = from_sequence b.play;
}

-- `board_from_pbn`, on what `read_pbn` gave
pub board_from_pbn : BridgeTypes → Option (List PbnBoard) → ℕ → ℕ → Result String BoardSetup
unfolding single_board
board_from_pbn bt read rotate number = do
  boards ← expect read "bad_pbn"
  b ← expect (first boards) "bad_pbn"
  guard (b.total_cards == 52) "bad_pbn"
  ok (rotate_board bt (rotate % 4) (single_board b number))

module _ {V : Type 0} (bt : BridgeTypes) (rd : Reader V) (outside : DealSource) where
  -- `script_pbn`, which is made before the lock is taken
  pub script_pbn : String → V → Result String (Option String)
  unfolding text_at
  script_pbn source v = if not (source == "script") then ok none else (do
    script ← expect (text_at rd v "script") "bad_script"
    service ← expect outside.dealer_service "dealer_unavailable"
    pbn ← expect (service script) "dealer_failed"
    ok (some pbn))

  -- `rotate` of the frame, modulo 4
  pub rotate_at : V → ℕ
  unfolding number_at
  rotate_at v = unwrap_or 0 (number_at rd v "rotate") % 4

  -- The match on the source; `number + 1` is a `u32`.
  pub table_from : String → Option String → RoomInner → V → Result String TableState
  unfolding text_at board_from_pbn random_board rotate_at
  table_from source script r v =
      let number = (r.table.board.number + 1) % 2 ^ 32 in
      if source == "replay"
      then ok (elim (undo_to r.table 0) [ err e ↦ r.table | ok (t, n) ↦ t ])
      else if source == "random"
      then ok (new_table (random_board outside.shuffled number))
      else if source == "pbn"
      then (do
        pbn ← expect (text_at rd v "pbn") "bad_pbn"
        guard (leb (len pbn) 65536) "bad_pbn"
        board ← board_from_pbn bt (outside.read_pbn pbn) (rotate_at v) number
        ok (new_table board))
      else if source == "script"
      then (do
        board ← board_from_pbn bt (outside.read_pbn (unwrap_or "" script)) (rotate_at v) number
        ok (new_table board))
      else err "bad_source"

  -- The optional board mode of the frame, set before the source is looked at.
  pub with_mode : RoomInner → V → RoomInner
  unfolding text_at
  with_mode r v = elim (text_at rd v "mode") [
    | none ↦ r
    | some s ↦ (elim (parse_board_mode s) [ none ↦ r | some m ↦ record r { board_mode = m } ])
  ]

  -- The lock of `deal`: the room, with its new mode if the source is refused.
  pub deal_locked : SessionRoom → String → Option String → String → V → Handled
  unfolding with_mode table_from
  deal_locked x source script name v =
      let r = with_mode x.inner v in
      elim (table_from source script r v) [
        | err code ↦ record { room = record x { inner = r }; notices = []; error = some code }
        | ok t ↦ record {
          room = record x { inner = record r { table = t }; bba_cache = none };
          notices = board_advanced t.board.number source name ∷ resync ∷ bots_kicked ∷ [];
          error = none;
        }
      ]

  -- The checks of `deal` before the lock, and the script's PBN.
  unfoldable pub deal_allowed :
      Option Session → List Direction → String → V → Result String (Option String)
  unfolding script_pbn
  deal_allowed session seats source v = do
    guard (not (is_empty seats)) "not_seated"
    guard (not (is_some session)) "session_table"
    script_pbn source v

  -- The arm for `deal`.
  unfoldable pub handle_deal : SessionRoom → Option Session → String → List Direction → V → Handled
  unfolding answered deal_allowed deal_locked text_at
  handle_deal x session name seats v =
      let source = unwrap_or "" (text_at rd v "source") in
      elim (deal_allowed session seats source v) [
        | err code ↦ answered x (err code)
        | ok script ↦ deal_locked x source script name v
      ]
