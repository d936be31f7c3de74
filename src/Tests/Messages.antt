-- ===== src/Tests/Messages.antt =====
-- Tests and witnesses for src/auth.rs and src/routes/ws.rs.
use bridge_table_service.Auth.{Codec, Ticket, pos, verify_ticket_at}
use bridge_table_service.Auth.Minted.{IsMac, IsSigned, verify_ticket_at-ok_iff}
use bridge_table_service.Bridge.{Direction, north, pass}
use bridge_table_service.Claim.{SolverAnswer, SolverRequest, response}
use bridge_table_service.Prelude.{
  List, Option, String, [], false, if◌then◌else◌, none, ok, refl, some, string_eq, true, ◌==◌, ◌↔◌,
  ◌∷◌, ◌≡◌,
}
use bridge_table_service.Protocol.{Handled, Reader, text_at}
use bridge_table_service.Protocol.Accounted.{Fair}
use bridge_table_service.Protocol.Dealing.{DealSource}
use bridge_table_service.Protocol.Messages.{handle_client_msg-Fair}
use bridge_table_service.Protocol.Moves.{
  CanBid, CanPlay, handle_client_msg-bid, handle_client_msg-play, with_action,
}
use bridge_table_service.Protocol.Player.{handle_client_msg}
use bridge_table_service.Protocol.Run.{SessionRun, SessionRun-IsOrderly, created, player_sent}
use bridge_table_service.Room.{default_grace, new_room, rules}
use bridge_table_service.Session.{Session, SessionRoom, first_free, new_session, teacher_set}
use bridge_table_service.Session.Arrivals.{replace_room}
use bridge_table_service.Session.Orderly.{IsOrderly}
use bridge_table_service.Table.{Action}
use bridge_table_service.Tests.{one_suit_each, reference_types, sample_board}
use bridge_table_service.Tests.Sessions.{two_boards}

abbrev sample_ticket : Ticket
sample_ticket = record {
  sub = "ann";
  name = "Ann";
  session_id = "demo";
  role = "student";
  exp = pos 100;
}

-- A codec that knows one token, and whose MAC is the secret.
abbrev one_token : Codec
one_token = record {
  Bytes = String;
  split_once = λ t. if t == "payload.key" then some ("payload", "key") else none;
  join = λ a b. a;
  encode = λ b. b;
  decode = λ b. some b;
  to_vec = λ t. "payload";
  from_slice = λ b. some sample_ticket;
  sign = λ secret payload. secret;
  verify_slice = λ secret payload sig. sig == secret;
}

one_token-IsMac : IsMac one_token
one_token-IsMac = record { verifies = λ secret payload sig. string_eq.beq_iff sig secret }

verify_ticket_at-ok_iff_example :
    (verify_ticket_at one_token "payload.key" "key" (pos 99) ≡ ok sample_ticket)
    ↔ IsSigned one_token "payload.key" "key" (pos 99) sample_ticket
verify_ticket_at-ok_iff_example =
    verify_ticket_at-ok_iff one_token "payload.key" "key" (pos 99) sample_ticket one_token-IsMac

-- Frames of texts.
data ToyJson : Type 0 where
  nothing : ToyJson
  text : String → ToyJson
  object : (String → Option String) → ToyJson

abbrev toy_member : ToyJson → String → ToyJson
toy_member (object f) key = elim (f key) [ none ↦ nothing | some s ↦ text s ]
toy_member _ key = nothing

abbrev toy_str : ToyJson → Option String
toy_str (text s) = some s
toy_str _ = none

abbrev toy_reader : Reader ToyJson
toy_reader = record {
  json = record {
    is_null = λ v. false;
    member = toy_member;
    as_str = toy_str;
    as_array = λ v. none;
    as_u64 = λ v. none;
    as_bool = λ v. none;
  };
  chars = λ s. [];
  direction_of = λ c. none;
  suit_of = λ c. none;
  rank_of = λ c. none;
  call_of = λ s. if s == "P" then some pass else none;
  table_no = λ s. none;
}

abbrev bid_frame : ToyJson
bid_frame =
    object λ key. if key == "t" then some "bid" else if key == "call" then some "P" else none

abbrev no_source : DealSource
no_source = record { read_pbn = λ s. none; shuffled = one_suit_each; dealer_service = none }

abbrev fresh_table : SessionRoom
fresh_table = record {
  id = 1;
  inner = new_room sample_board default_grace;
  bba_cache = none;
  bot_mode = rules;
}

abbrev any_verdict : SolverRequest → SolverAnswer
any_verdict request = response (some "valid")

abbrev after_bid : List Direction → Handled
after_bid seats =
    handle_client_msg reference_types toy_reader no_source any_verdict true fresh_table
      (some two_boards) "Ann" seats bid_frame 0

handle_client_msg-Fair_example :
    Fair reference_types any_verdict true (north ∷ []) 0 fresh_table (after_bid (north ∷ [])).room
handle_client_msg-Fair_example =
    handle_client_msg-Fair reference_types toy_reader no_source any_verdict true (north ∷ []) 0
      fresh_table two_boards "Ann" bid_frame

handle_client_msg-bid_example :
    (((after_bid (north ∷ [])).error ≡ none)
      ↔ CanBid reference_types toy_reader (north ∷ []) fresh_table bid_frame)
    × ((can : CanBid reference_types toy_reader (north ∷ []) fresh_table bid_frame)
        → (after_bid (north ∷ [])).room ≡ with_action fresh_table (Action.call can.seat can.c))
unfolding text_at
handle_client_msg-bid_example =
    handle_client_msg-bid reference_types toy_reader (north ∷ []) fresh_table bid_frame no_source
      any_verdict true (some two_boards) "Ann" 0 refl

abbrev play_frame : ToyJson
play_frame = object λ key. if key == "t" then some "play" else none

abbrev after_play : Handled
after_play =
    handle_client_msg reference_types toy_reader no_source any_verdict true fresh_table
      (some two_boards) "Ann" (north ∷ []) play_frame 0

handle_client_msg-play_example :
    ((after_play.error ≡ none)
      ↔ CanPlay reference_types toy_reader (north ∷ []) fresh_table play_frame 0)
    × ((can : CanPlay reference_types toy_reader (north ∷ []) fresh_table play_frame 0)
        → after_play.room ≡ with_action fresh_table (Action.play can.seat can.card))
unfolding text_at
handle_client_msg-play_example =
    handle_client_msg-play reference_types toy_reader (north ∷ []) fresh_table play_frame 0
      no_source any_verdict true (some two_boards) "Ann" refl

-- Any order of walking the seats.
abbrev no_order : SessionRoom → List Direction
no_order x = []

-- Two tables, after a call at the first.
abbrev after_call : Session
after_call = record two_boards {
  rooms = replace_room two_boards.rooms 0 (after_bid (north ∷ [])).room;
}

after_call-SessionRun :
    SessionRun reference_types toy_reader no_source any_verdict true sample_board no_order
      after_call
unfolding replace_room new_session
after_call-SessionRun =
    player_sent 0 (north ∷ []) "Ann" bid_frame 0
      (created teacher_set "owner" first_free (sample_board ∷ sample_board ∷ []) 2) refl

SessionRun-IsOrderly_example : IsOrderly reference_types after_call
SessionRun-IsOrderly_example =
    SessionRun-IsOrderly reference_types toy_reader no_source any_verdict true sample_board no_order
      after_call after_call-SessionRun

-- A kick that names nobody.
abbrev kick_frame : ToyJson
kick_frame = object λ key. if key == "t" then some "kick" else none
