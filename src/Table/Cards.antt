-- ===== src/Table/Cards.antt =====
-- Whose cards are played (src/table.rs, `apply` and `remaining`).
use bridge_table_service.Bridge.{
  BridgeTypes, Card, Direction, card_beq_iff, card_eq, direction_beq_iff, direction_eq,
}
use bridge_table_service.Play.Following.{is_legal_play_iff}
use bridge_table_service.Prelude.{
  Bool-cases, List, [], arith, contains, contains-filter, false, filter, if◌then◌else◌, inl, inr,
  not, ok, refl, subst, true, ◌&&◌, ◌++◌, ◌==◌, ◌||◌, ◌∷◌, ◌≡◌,
}
use bridge_table_service.Table.{Action, BoardSetup, TableState}
use bridge_table_service.Table.Apply.{check, current_lead_suit, remaining, without_played}
use bridge_table_service.Table.Cases.{calls-fold_gathered, check-play, gather-snoc}
use bridge_table_service.Table.Fold.{fold, gather, gather_from, gather_one}
use bridge_table_service.Table.Log.{Log, Reach, Reach-Log, at, empty, more}

-- The cards that a seat has played.
unfoldable pub hand_played : Direction → List (Direction × Card) → List Card
hand_played seat [] = []
hand_played seat ((s, c) ∷ played) =
    if s == seat then c ∷ hand_played seat played else hand_played seat played

abbrev pub IsDistinct : List Card → Type 0
IsDistinct [] = Unit {0}
IsDistinct (c ∷ cs) = (contains cs c ≡ false) × IsDistinct cs

abbrev pub AllDealt : List Card → List Card → Type 0
AllDealt hand [] = Unit {0}
AllDealt hand (c ∷ cs) = (contains hand c ≡ true) × AllDealt hand cs

hand_played-snoc :
    (seat s : Direction) (c : Card) (played : List (Direction × Card))
    → hand_played seat (played ++ (s, c) ∷ [])
      ≡ (if s == seat then hand_played seat played ++ c ∷ [] else hand_played seat played)
unfolding hand_played
hand_played-snoc seat s c [] = refl
hand_played-snoc seat s c ((t, d) ∷ played) = ground (arith, hand_played-snoc seat s c played)

contains-snoc :
    (cs : List Card) (a c : Card) → contains (cs ++ a ∷ []) c ≡ (contains cs c || a == c)
contains-snoc [] a c = ground arith
contains-snoc (b ∷ cs) a c = ground (arith, contains-snoc cs a c)

snoc-IsDistinct :
    (cs : List Card) (a : Card) → contains cs a ≡ false → IsDistinct cs → IsDistinct (cs ++ a ∷ [])
snoc-IsDistinct [] a h d = (refl, tt)
snoc-IsDistinct (c ∷ cs) a h d = (
  ground (arith, contains-snoc cs a c, card_beq_iff a c, card_beq_iff c a),
  snoc-IsDistinct cs a (ground arith) d.1,
)

snoc-AllDealt :
    (hand cs : List Card) (a : Card)
    → contains hand a ≡ true
    → AllDealt hand cs
    → AllDealt hand (cs ++ a ∷ [])
snoc-AllDealt hand [] a h d = (h, tt)
snoc-AllDealt hand (c ∷ cs) a h d = (d.0, snoc-AllDealt hand cs a h d.1)

-- `remaining` is the dealt hand less the cards played.
pub contains-without_played :
    (seat : Direction) (played : List (Direction × Card)) (cards : List Card) (c : Card)
    → contains (without_played seat played cards) c
      ≡ (contains cards c && not (contains (hand_played seat played) c))
unfolding without_played hand_played
contains-without_played seat [] cards c = ground arith
contains-without_played seat ((s, d) ∷ played) cards c = ground (
  arith,
  contains-without_played seat played cards c,
  contains-without_played seat played (filter (λ (x : Card). not (x == d)) cards) c,
  contains-filter (λ (x : Card). not (x == d)) cards c,
  card_beq_iff c d,
  card_beq_iff d c,
)

-- A seat's own cards, each at most once.
abbrev pub IsHonest : BoardSetup → List (Direction × Card) → Type 0
IsHonest board played =
    (seat : Direction)
    → AllDealt (board.deal seat) (hand_played seat played) × IsDistinct (hand_played seat played)

snoc-IsHonest :
    (board : BoardSetup) (played : List (Direction × Card)) (s : Direction) (c : Card)
    → contains (without_played s played (board.deal s)) c ≡ true
    → IsHonest board played
    → IsHonest board (played ++ (s, c) ∷ [])
snoc-IsHonest board played s c h ok_so_far seat =
    let held = contains-without_played s played (board.deal s) c in
    elim (Bool-cases (s == seat)) [
      | inr other ↦ rw (hand_played-snoc seat s c played, other) (ok_so_far seat)
      | inl same ↦
          let e : s ≡ seat = (direction_beq_iff s seat).0 same in
          rw (hand_played-snoc seat s c played, same)
            (
              snoc-AllDealt _ _ c (ground (arith, held, e)) (ok_so_far seat).0,
              snoc-IsDistinct _ c (ground (arith, held, e)) (ok_so_far seat).1,
            )
    ]

step-IsHonest :
    (bt : BridgeTypes) (board : BoardSetup) (actions : List Action) (a : Action)
    → check (at board actions) (fold bt (at board actions)) a ≡ ok tt
    → IsHonest board (gather actions).played
    → IsHonest board (gather_one (gather actions) a).played
unfolding gather_one fold remaining
step-IsHonest bt board actions (Action.call seat c) done h = h
step-IsHonest bt board actions (Action.claim seat n ruling) done h = h
step-IsHonest bt board actions (Action.play seat card) done h =
    let g = gather actions in
    let f = fold bt (at board actions) in
    let (_, _, fits) = check-play (at board actions) f seat card done in
    let (held, _) =
      (is_legal_play_iff card (remaining (at board actions) seat f) (current_lead_suit f)).0 fits in
    let same : f.played ≡ g.played = (calls-fold_gathered bt board.dealer g).1 in
    snoc-IsHonest board g.played seat card
      (subst (λ ps. contains (without_played seat ps (board.deal seat)) card ≡ true) same held) h

pub Log-IsHonest :
    (bt : BridgeTypes) (board : BoardSetup) {actions : List Action}
    → Log bt board actions
    → IsHonest board (gather actions).played
unfolding gather gather_from hand_played
Log-IsHonest bt board empty = λ seat. (tt, tt)
Log-IsHonest bt board (more {actions = before} a l done e) =
    rw (e, gather-snoc before a) (step-IsHonest bt board before a done (Log-IsHonest bt board l))

-- On every table that can be reached, whatever was undone in between, a seat has played only cards
-- that it was dealt, and none of them twice.
pub Reach-IsHonest :
    (bt : BridgeTypes) {board : BoardSetup} {t : TableState}
    → Reach bt board t
    → IsHonest board (fold bt t).played
unfolding fold
Reach-IsHonest bt {board} {t} r =
    rw ((calls-fold_gathered bt t.board.dealer (gather t.actions)).1)
      (Log-IsHonest bt board (Reach-Log bt r).1)
