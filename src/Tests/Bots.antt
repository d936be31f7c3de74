-- ===== src/Tests/Bots.antt =====
-- Tests and witnesses for src/bots.rs and src/claims.rs.
use bridge_table_service.Auction.{is_legal}
use bridge_table_service.Bot.{Clients, OnlyLegal, Pending, PlayPending, Rulebot, pending_bid}
use bridge_table_service.Bot.Acts.{
  Grown, decide-lands, one_more_action, suggestion-lands, unchanged,
}
use bridge_table_service.Bot.Alone.{DriverReach-IsExclusive, IsExclusive, idle, kicked, stepped}
use bridge_table_service.Bot.Cards.{bot_card_lem}
use bridge_table_service.Bot.Choices.{choose_call-is_legal}
use bridge_table_service.Bot.Choose.{choose_call}
use bridge_table_service.Bot.Driver.{
  Suggestion, bid_pending, bot_card, bot_turn_pending, controller_of, decide, is_bot_seat, land,
  landing_of, mode_allows_bot, mode_forces_bot, pending_in, stale, suggest, suggest_call,
}
use bridge_table_service.Bot.Loop.{Driver, Look, kick_driver, run_task}
use bridge_table_service.Bot.Safety.{MayAct, decide-MayAct}
use bridge_table_service.Bridge.{
  Card, Suit, bid, card_beq_iff, card_eq, east, no_trump, nobody, north, pass,
}
use bridge_table_service.Claim.{
  ClaimRequest, after_check, before_check, judge, judged, make_claim, response, solver_request,
  what_to_ask,
}
use bridge_table_service.Claim.Made.{IsMade, make_claim-IsMade}
use bridge_table_service.Prelude.{
  List, String, [], arith, contains, false, first, none, refl, some, true, ℕ, ◌<◌, ◌∷◌, ◌≡◌, ◌⊎◌,
}
use bridge_table_service.Room.{
  RoomInner, default_grace, is_bid_only, is_play_only, new_room, play_only, real,
}
use bridge_table_service.Room.Control.{occupant_bot_controlled, seat_bot_controlled}
use bridge_table_service.Room.Seats.{arrival, insert_at, try_place, try_seat}
use bridge_table_service.Table.{Action, seq}
use bridge_table_service.Table.Apply.{push}
use bridge_table_service.Table.Fold.{fold}
use bridge_table_service.Tests.{in_play, reference_types, sample_board, sample_calls, suit_hand}
use bridge_table_service.Tests.Tables.{claimed_nine, computing, in_play-Reach}

abbrev empty_room : RoomInner
empty_room = new_room sample_board default_grace

-- A rulebot that gives the first legal card.
abbrev first_card : Rulebot
first_card = record { choose_opening_lead = λ p. first p.legal; choose_card = λ p. first p.legal }

first-contains : (cards : List Card) (c : Card) → first cards ≡ some c → contains cards c ≡ true
first-contains [] c h = absurd (cc)
first-contains (x ∷ xs) c h = ground (arith, card_beq_iff x c)

first_card-OnlyLegal : OnlyLegal first_card
first_card-OnlyLegal = record {
  lead_among = λ p c h. first-contains p.legal c h;
  card_among = λ p c h. first-contains p.legal c h;
}

-- Services that answer nonsense.
abbrev wrong_clients : Clients
wrong_clients = record {
  auction = λ board calls. some (bid 9 no_trump ∷ []);
  ben_lead = λ p. none;
  ben_play = λ p. none;
}

choose_call-is_legal_example :
    is_legal north [] (choose_call (some wrong_clients) none sample_board []).chosen ≡ true
unfolding computing
choose_call-is_legal_example = choose_call-is_legal (some wrong_clients) none sample_board [] refl

abbrev lead_pending : PlayPending
lead_pending = record {
  seat = east;
  seq = 4;
  legal = suit_hand Suit.hearts 13;
  opening_lead = true;
  decision_maker = east;
  declarer = north;
  hand = suit_hand Suit.hearts 13;
  dealer = north;
  vul = nobody;
  remaining = suit_hand Suit.hearts 13;
  dummy_cards = suit_hand Suit.diamonds 13;
  calls = sample_calls;
  played_pairs = [];
  outcome = record {
    level = 1;
    strain = no_trump;
    doubled = false;
    redoubled = false;
    declarer = north;
  };
  line = none;
}

bot_card_lem_example :
    (c : Card) × (via : String) × (bot_card reference_types
        (some wrong_clients)
        first_card
        real
        lead_pending
      ≡ some (c, via))
    × (contains lead_pending.legal c ≡ true)
bot_card_lem_example =
    bot_card_lem first_card first_card-OnlyLegal reference_types (some wrong_clients) real
      lead_pending refl

abbrev dealer_bids : Pending
dealer_bids = pending_bid (bid_pending empty_room (fold reference_types empty_room.table) north)

decide-dealer : decide reference_types empty_room 0 0 ≡ some dealer_bids
unfolding computing decide mode_allows_bot mode_forces_bot is_bot_seat controller_of
    seat_bot_controlled pending_in bid_pending is_bid_only is_play_only new_room
decide-dealer = refl

decide-MayAct_example : MayAct reference_types empty_room 0 0 dealer_bids
decide-MayAct_example = decide-MayAct reference_types empty_room 0 0 dealer_bids decide-dealer

decide-lands_example :
    (s : Suggestion) × (n : ℕ) × (suggest reference_types
        (some wrong_clients)
        first_card
        real
        none
        dealer_bids
      ≡ some s)
    × (land reference_types empty_room s.seq s.action
        ≡ (record empty_room { table = push empty_room.table s.action }, landing_of s.action n))
decide-lands_example =
    decide-lands reference_types (some wrong_clients) first_card first_card-OnlyLegal empty_room 0 0
      real none dealer_bids decide-dealer

-- The suggestion of the dealer's bot, which is made without BBA.
abbrev dealer_passes : Suggestion
dealer_passes =
    suggest_call reference_types none first_card none
      (bid_pending empty_room (fold reference_types empty_room.table) north)

-- The room after a human has sat down and called in the meantime.
abbrev passed_meanwhile : RoomInner
passed_meanwhile = record (try_seat empty_room north "u1" "Alice").0 {
  table = push empty_room.table (Action.call north pass);
}

dealer_suggests : suggest reference_types none first_card real none dealer_bids ≡ some dealer_passes
unfolding suggest
dealer_suggests = refl

passed-Grown : Grown reference_types empty_room.table passed_meanwhile.table
unfolding computing new_room
passed-Grown = one_more_action {n = 1} (Action.call north pass) unchanged refl

suggestion-lands_example :
    ((passed_meanwhile.table ≡ empty_room.table)
      × (n : ℕ) × (land reference_types passed_meanwhile dealer_passes.seq dealer_passes.action ≡ (
        record passed_meanwhile { table = push empty_room.table dealer_passes.action },
        landing_of dealer_passes.action n,
      )))
    ⊎ ((seq empty_room.table < seq passed_meanwhile.table)
        × (land reference_types passed_meanwhile dealer_passes.seq dealer_passes.action
            ≡ (passed_meanwhile, stale)))
suggestion-lands_example =
    suggestion-lands reference_types none first_card first_card-OnlyLegal empty_room
      passed_meanwhile 0 0 real none dealer_bids dealer_passes decide-dealer dealer_suggests
      passed-Grown

abbrev claim_room : RoomInner
claim_room = record empty_room { table = in_play }

abbrev nine_claimed : ClaimRequest
nine_claimed = record { seat = north; tricks = 9; plays_seen = 1; ruling = false }

abbrev room_claimed : RoomInner
room_claimed = record empty_room { table = claimed_nine }

make_claim-IsMade_example :
    IsMade reference_types
      (λ q. response (some "valid"))
      true
      claim_room
      claim_room
      room_claimed
      nine_claimed
unfolding computing make_claim before_check what_to_ask solver_request judge judged after_check
    is_bid_only new_room
make_claim-IsMade_example =
    make_claim-IsMade reference_types (λ q. response (some "valid")) true claim_room claim_room
      room_claimed nine_claimed 6 in_play-Reach refl

-- A play-only room whose dealer, North, is a human: the bot bids, and the re-check does not see it.
abbrev play_only_room : RoomInner
play_only_room = record (try_seat empty_room north "u1" "Alice").0 { board_mode = play_only }

abbrev alice_bids : Pending
alice_bids =
    pending_bid (bid_pending play_only_room (fold reference_types play_only_room.table) north)

decide-alice : decide reference_types play_only_room 0 0 ≡ some alice_bids
unfolding computing decide mode_allows_bot mode_forces_bot is_bot_seat controller_of
    seat_bot_controlled occupant_bot_controlled pending_in bid_pending is_bid_only is_play_only
    new_room try_seat try_place arrival insert_at
decide-alice = refl

bot_turn_pending-alice : bot_turn_pending reference_types play_only_room 0 0 ≡ false
unfolding computing bot_turn_pending mode_allows_bot is_bot_seat controller_of seat_bot_controlled
    occupant_bot_controlled is_bid_only new_room try_seat try_place arrival insert_at
bot_turn_pending-alice = refl

-- Nothing to do for a bot.
abbrev quiet_look : Look
quiet_look = record { stays_off = false; has_acted = false; turn_pending = false }

-- A kick that comes while the first task looks again.
abbrev kicked_twice : Driver
kicked_twice = kick_driver (
    run_task
      (run_task (run_task (kick_driver (record { running = false; tasks = [] })) 0 quiet_look) 0
        quiet_look)
      0 quiet_look)

DriverReach-IsExclusive_example : IsExclusive kicked_twice
DriverReach-IsExclusive_example =
    DriverReach-IsExclusive kicked_twice
      (kicked (stepped 0 quiet_look (stepped 0 quiet_look (stepped 0 quiet_look (kicked idle)))))
