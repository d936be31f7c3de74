-- ===== src/Lib.antt =====
-- A verification library for bridge-table-service, the server that runs bridge tables: auctions, card
-- play, claims, undo, seats that humans and bots share, and the bots themselves.
--
-- A table is a log of actions on a board (src/table.rs). Everything that it shows is folded from the
-- log with the rules of the auction and of the play (src/engine/), and `apply` adds an action only if
-- the rules accept it in the folded state. A room (src/rooms.rs) puts seats around a table: occupants,
-- reservations, seats kept empty, and who controls a seat. The bots (src/bots.rs) decide under the
-- room's lock, choose without it, and land their action under it again. A claim (src/claims.rs) is
-- checked, judged and applied in the same way. A session (src/sessions.rs) has a set of boards and the
-- tables that play them, and it has participants: those who sit, those who wait in the lobby, and their
-- connections. It places arrivals, and its host moves them. A connection begins with a ticket (src/auth.rs),
-- and its messages (src/routes/ws.rs) act on a room, or, for a host, on the session.
--
-- Which file models which part:
--   Prelude       Boolean tests, lists by native numbers, `Result`, and the `u8` arithmetic
--   Bridge        the enums and functions that the service takes from the `bridge-types` crate
--   Auction       src/engine/auction.rs, function by function, but `to_pbn`; Auction/Legal,
--                 Auction/Bids and Auction/Bounds prove
--   Play          src/engine/play.rs; Play/Following and Play/Winner prove
--   Table         src/table.rs: the types; Table/Fold is `fold`, Table/Apply is `apply` and `undo_to`,
--                 Table/View the snapshot and the board result, Table/Line the recorded lines. The
--                 other files below Table prove
--   Room          src/rooms.rs: the types and modes; Room/Seats the seats and reservations,
--                 Room/Control who controls a seat, Room/Boards the rotation of boards. The others
--                 prove; Room/Steps has the step relation on rooms
--   Bot           src/bots.rs: the types; Bot/Bba and Bot/Ben the two clients, Bot/Choose the choices,
--                 Bot/Driver the phases of `act_once`, Bot/Loop the tasks of `kick`. The others prove
--   Claim         src/claims.rs; Claim/Made proves
--   Session       src/sessions.rs: the types; Session/Decks the board set, Session/Policy what is
--                 parsed, Session/Maps the maps by strings, Session/Members the participants,
--                 Session/Arrivals and Session/Place the placement, Session/Control reservations, the
--                 lobby, assign_seat and kick. The others prove
--   Auth          src/auth.rs; Auth/Minted proves
--   Protocol      src/routes/ws.rs: what is read of a frame; Protocol/Seats who may act,
--                 Protocol/Dealing the deals of the demo room, Protocol/Player the messages of a player,
--                 Protocol/Host and Protocol/Teacher those of a host, Protocol/Joining how a connection
--                 begins and ends. Protocol/Run has the step relation on sessions.
--                 The others prove
--   Tests         concrete boards and rooms, and the theorems at them
--
-- A function of the source has its own name here, and a loop or an arm that is a function of its own is
-- named for what it does. A method that changes its receiver returns the
-- changed value. An error is the `err` of a `Result`, a missing value and a panic are `none`, with the
-- comment saying which. A lock that is released and taken again gives a function two rooms, so that
-- anything may happen in between. Time is a number of milliseconds. A `HashMap` keyed by seats is a
-- function, and the order in which one is walked is an argument. One keyed by strings is the list of its
-- entries. The number n of a table stands for its id `<session>-t<n>`. Of what is sent to the clients, the
-- handlers of a player's messages give the events as data; the others leave it out.
--
-- Nothing runs on fuel: the loops of the source run over lists, and are recursions over them. `u8`
-- arithmetic has its wrap-around written out, and so has the 64-bit multiplication of `pick`.
--
-- Parameters, since they are not part of the repository: the functions of `bridge-types`
-- (`BridgeTypes`), the rulebot crate (`Rulebot`, of which the bots rely on `OnlyLegal`), the answers of
-- the BBA and BEN services (`Clients`, of which nothing is assumed), the claim checker of
-- `bridge_solver`, an argument of `make_claim`, the encodings and the MAC of a ticket (`Codec`, of which
-- `IsMac` is assumed), the readings of JSON and texts (`Json`, `Reader`), and where a deal comes from
-- (`DealSource`).
--
-- Not modelled: the loops of a connection over its socket and its channels, the watching of tables by a
-- teacher, the lobby frame, the registry of sessions, the admin handlers (src/routes/admin.rs), the HTTP
-- requests, the JSON and PBN texts, and startup, configuration, logging and metrics, which hold no rules of
-- the game. Placement runs under its own lock; that other messages may act between the locks of a claim is
-- modelled in Claim, and elsewhere a message is handled as a whole.
pub mod Prelude
pub mod Bridge
pub mod Auction
pub mod Play
pub mod Table
pub mod Room
pub mod Bot
pub mod Claim
pub mod Session
pub mod Auth
pub mod Protocol
pub mod Tests
