-- ===== src/Room/Undo.antt =====
-- How far an undo goes back (src/rooms.rs, `last_human_action_seq`, with `TableState::undo_to`).
use bridge_table_service.Bridge.{Direction}
use bridge_table_service.Prelude.{
  Bool-cases, List, Option-cases, [], ap, append-nil, append_assoc, arith, false, inl, inr, length,
  length-append, none, ok, refl, reverse, reverse-append, reverse-reverse, some, subst, sym,
  take-append_length, true, ℕ, ◌++◌, ◌-◌, ◌<◌, ◌∙◌, ◌∷◌, ◌≡◌, ◌⊎◌,
}
use bridge_table_service.Room.{Occupant, RoomInner}
use bridge_table_service.Room.Control.{
  actor, last_human_action_seq, last_human_from, occupant_bot_controlled, seat_bot_controlled,
}
use bridge_table_service.Room.Takeover.{BotMayAct, seat_bot_controlled_iff}
use bridge_table_service.Table.{Action, TableState, seq}
use bridge_table_service.Table.Apply.{undo_to}

length-reverse : (xs : List Action) → length (reverse xs) ≡ length xs
length-reverse [] = refl
length-reverse (x ∷ xs) =
    ap length (reverse-append (x ∷ []) xs)
    ∙ length-append (reverse xs) (x ∷ [])
    ∙ omega (arith, length-reverse xs)

-- The table waits for a seat, and no bot acts for it: whoever sits there is connected, has been away for
-- less than the grace period, or has no time noted; or nobody sits there and the seat is kept empty.
pub data WaitsFor (r : RoomInner) (seat : Direction) (now : ℕ) : Type 0 where
  present : (o : Occupant) → r.seats seat ≡ some o → o.connected ≡ true → WaitsFor r seat now
  unnoted : (o : Occupant) → r.seats seat ≡ some o → o.disconnected_at ≡ none → WaitsFor r seat now
  within_grace :
      (o : Occupant) (t : ℕ)
      → r.seats seat ≡ some o
      → o.disconnected_at ≡ some t
      → now - t < r.takeover.on_turn
      → WaitsFor r seat now
  left_open : r.seats seat ≡ none → r.no_bot seat ≡ true → WaitsFor r seat now

-- A property of all the elements.
abbrev pub Every : (Action → Type 0) → List Action → Type 0
Every P [] = Unit {0}
Every P (a ∷ actions) = P a × Every P actions

-- The actions are some earlier ones, an action by a seat that the table waits for, and later ones, all by
-- seats for which a bot may act.
pub record LastHuman (r : RoomInner) (now i : ℕ) : Type 0 where
  pub before : List Action
  pub action : Action
  pub after : List Action
  pub split : r.table.actions ≡ before ++ action ∷ after
  pub at_index : length before ≡ i
  pub waits : WaitsFor r (actor action) now
  pub bots_after : Every (λ a. BotMayAct r (actor a) true now) after

reverse-middle : (a : Action) (xs ys : List Action) → reverse (a ∷ xs) ++ ys ≡ reverse xs ++ a ∷ ys
reverse-middle a xs ys = rw (reverse-append (a ∷ []) xs) (append_assoc (reverse xs) (a ∷ []) ys)

not_controlled-WaitsFor :
    (r : RoomInner) (seat : Direction) (now : ℕ)
    → seat_bot_controlled r seat true now ≡ false
    → WaitsFor r seat now
unfolding seat_bot_controlled occupant_bot_controlled
not_controlled-WaitsFor r seat now h = elim (Option-cases (r.seats seat)) [
  | inl e ↦ left_open e (ground arith)
  | inr (o, e) ↦ elim (Bool-cases o.connected) [
    | inl here ↦ present o e here
    | inr gone ↦ elim (Option-cases o.disconnected_at) [
      | inl unknown ↦ unnoted o e unknown
      | inr (t, noted) ↦ within_grace o t e noted (ground arith)
    ]
  ]
]

-- The loop, over the log with the latest action first, when it has passed `after`.
from_cases :
    (r : RoomInner) (now : ℕ) (rest after : List Action)
    → Every (λ a. BotMayAct r (actor a) true now) after
    → r.table.actions ≡ reverse rest ++ after
    → ((i : ℕ) × (last_human_from r now rest ≡ some i) × LastHuman r now i)
      ⊎ ((last_human_from r now rest ≡ none)
          × Every (λ a. BotMayAct r (actor a) true now) r.table.actions)
unfolding last_human_from
from_cases r now [] after h e =
    inr (refl, subst (Every (λ a. BotMayAct r (actor a) true now)) (sym e) h)
from_cases r now (a ∷ earlier) after h e =
    let moved = e ∙ reverse-middle a earlier after in
    elim (Bool-cases (seat_bot_controlled r (actor a) true now)) [
      | inl by_bot ↦
          (let bot = (seat_bot_controlled_iff r (actor a) true now).0 by_bot in
            elim (from_cases r now earlier (a ∷ after) (bot, h) moved) [
              | inl (i, found, s) ↦ inl (i, rw (last_human_from, by_bot) found, s)
              | inr (none_found, bots) ↦ inr (rw (last_human_from, by_bot) none_found, bots)
            ])
      | inr person ↦ inl (
        length earlier,
        rw (last_human_from, person) refl,
        record {
          before = reverse earlier;
          action = a;
          after = after;
          split = moved;
          at_index = length-reverse earlier;
          waits = not_controlled-WaitsFor r (actor a) now person;
          bots_after = h;
        },
      )
    ]

undo_to-split :
    (t : TableState) (i : ℕ) (before : List Action) (a : Action) (after : List Action)
    → t.actions ≡ before ++ a ∷ after
    → length before ≡ i
    → undo_to t i ≡ ok (record t { actions = before }, i)
unfolding undo_to seq
undo_to-split t i before a after split at_index =
    let n = length-append before (a ∷ after) in
    let cut = take-append_length before (a ∷ after) in ground (arith, n, cut)

-- The number that `last_human_action_seq` gives is the length of the log before the last action of a
-- seat that the table waits for now, and without one a bot may act for every seat that acted. Undoing to
-- that number removes that action and the actions after it, all of seats that a bot may act for. The table waits for a seat if its
-- occupant is connected, away for less than the on-turn grace period or without a time noted, and also if
-- nobody sits there and the seat is kept empty.
pub last_human_action_seq_lem :
    (r : RoomInner) (now : ℕ)
    → ((i : ℕ) × (last_human_action_seq r now ≡ some i)
        × (s : LastHuman r now i) × (undo_to r.table i
            ≡ ok (record r.table { actions = s.before }, i)))
      ⊎ ((last_human_action_seq r now ≡ none)
          × Every (λ a. BotMayAct r (actor a) true now) r.table.actions)
unfolding last_human_action_seq
last_human_action_seq_lem r now =
    elim (from_cases r now (reverse r.table.actions) [] tt
      (sym (append-nil _ ∙ reverse-reverse r.table.actions))) [
        | inl (i, found, s) ↦
            inl (i, found, s, undo_to-split r.table i s.before s.action s.after s.split s.at_index)
        | inr stays ↦ inr stays
      ]
