-- ===== src/Auction/Bounds.antt =====
-- How long an auction can last. The measure of an auction is the value of its last bid (1 to 35),
-- whether that bid is doubled or redoubled, and the number of passes since the last other call.
use bridge_table_service.Auction.{
  LastAction, a_bid, a_double, bid_is_legal, call_is_legal, double_is_legal, is_complete_rev,
  last_action_rev, last_bid_rev, outbids, redouble_is_legal, strain_rank,
}
use bridge_table_service.Auction.Legal.{IsLegalAuction, LegalRev, length-reverse}
use bridge_table_service.Bridge.{
  Call, Direction, Strain, bid, blank, continue_, double, pass, redouble,
}
use bridge_table_service.Prelude.{
  List, Option-cases, [], arith, false, inl, inr, leb, length, none, refl, reverse, some, suc, true,
  ℕ, ◌&&◌, ◌*◌, ◌+◌, ◌-◌, ◌<◌, ◌∷◌, ◌≡◌, ◌≤◌, ◌⊎◌,
}

bid_value : ℕ → Strain → ℕ
bid_value level strain = 5 * level + strain_rank strain - 4

-- The value of the last bid, or 0.
top : List Call → ℕ
top [] = 0
top (bid level strain ∷ r) = bid_value level strain
top (_ ∷ r) = top r

-- 0, 1 or 2: undoubled, doubled, redoubled.
doubling : List Call → ℕ
doubling [] = 0
doubling (bid level strain ∷ r) = 0
doubling (double ∷ r) = 1
doubling (redouble ∷ r) = 2
doubling (_ ∷ r) = doubling r

passes : List Call → ℕ
passes [] = 0
passes (pass ∷ r) = suc (passes r)
passes (_ ∷ r) = 0

strain_rank-le : (s : Strain) → strain_rank s ≤ 4
unfolding strain_rank
strain_rank-le s = ground arith

-- The auction is over after four calls of which the last three are passes.
is_complete_rev-passes :
    (r : List Call) → is_complete_rev r ≡ (leb 4 (length r) && leb 3 (passes r))
unfolding is_complete_rev passes
is_complete_rev-passes [] = refl
is_complete_rev-passes (a ∷ []) = ground arith
is_complete_rev-passes (a ∷ b ∷ []) = ground arith
is_complete_rev-passes (a ∷ b ∷ c ∷ r) = ground arith

top-last_bid_rev :
    (r : List Call)
    → ((last_bid_rev r ≡ none) × (top r ≡ 0))
      ⊎ ((l : ℕ) × (s : Strain) × (i : ℕ) × (last_bid_rev r ≡ some (l, s, i))
          × (top r ≡ bid_value l s))
unfolding last_bid_rev top
top-last_bid_rev [] = inl (refl, refl)
top-last_bid_rev (bid l s ∷ r) = inr (l, s, length r, refl, refl)
top-last_bid_rev (pass ∷ r) = top-last_bid_rev r
top-last_bid_rev (double ∷ r) = top-last_bid_rev r
top-last_bid_rev (redouble ∷ r) = top-last_bid_rev r
top-last_bid_rev (continue_ ∷ r) = top-last_bid_rev r
top-last_bid_rev (blank ∷ r) = top-last_bid_rev r

-- What `last_action` finds says how the last bid stands.
doubling-last_action_rev :
    (r : List Call) (i : ℕ)
    → ((last_action_rev r ≡ some (i, a_bid)) → doubling r ≡ 0)
      × ((last_action_rev r ≡ some (i, a_double)) → doubling r ≡ 1)
unfolding last_action_rev doubling
doubling-last_action_rev [] i = ((λ e. cc), (λ e. cc))
doubling-last_action_rev (bid l s ∷ r) i = ((λ e. refl), (λ e. cc))
doubling-last_action_rev (double ∷ r) i = ((λ e. cc), (λ e. refl))
doubling-last_action_rev (redouble ∷ r) i = ((λ e. cc), (λ e. cc))
doubling-last_action_rev (pass ∷ r) i = doubling-last_action_rev r i
doubling-last_action_rev (continue_ ∷ r) i = doubling-last_action_rev r i
doubling-last_action_rev (blank ∷ r) i = doubling-last_action_rev r i

record IsBounded (r : List Call) : Type 0 where
  top_le : top r ≤ 35
  unbid : top r ≡ 0 → (length r ≡ passes r) × (last_action_rev r ≡ none)
  since : 0 < top r → length r ≤ 9 * top r - 5 + 3 * doubling r + passes r
  doubled : doubling r ≤ 2
  few : passes r ≤ 4
  settled : 0 < top r → (passes r ≤ 3) × (passes r < length r)

-- In an auction that goes on, fewer than three passes follow a bid, and fewer than four begin it.
open-passes :
    (r : List Call)
    → IsBounded r
    → is_complete_rev r ≡ false
    → (0 < top r → passes r ≤ 2) × (top r ≡ 0 → passes r ≤ 3)
open-passes r b still = (
  (λ h. ground (arith, is_complete_rev-passes r, b.settled h)),
  (λ h. ground (arith, is_complete_rev-passes r, b.unbid h)),
)

top-cases : (r : List Call) → (top r ≡ 0) ⊎ (0 < top r)
top-cases r = grind arith

-- A bid or double that may still be doubled or redoubled has a bid behind it.
top-pos :
    (r : List Call) (x : ℕ × LastAction) → IsBounded r → last_action_rev r ≡ some x → 0 < top r
top-pos r x b e = elim (top-cases r) [ inl z ↦ absurd (ground (arith, b.unbid z)) | inr h ↦ h ]

pass-IsBounded : (r : List Call) → IsBounded r → is_complete_rev r ≡ false → IsBounded (pass ∷ r)
unfolding top doubling passes last_action_rev
pass-IsBounded r b still =
    let (low, high) = open-passes r b still in
    record {
      top_le = b.top_le;
      unbid = λ h. (omega (arith, b.unbid h), (b.unbid h).1);
      since = λ h. omega (arith, b.since h);
      doubled = b.doubled;
      few = elim (top-cases r) [ inl z ↦ omega (arith, high z) | inr h ↦ omega (arith, low h) ];
      settled = λ h. omega (arith, low h, b.settled h);
    }

double-IsBounded :
    (r : List Call) (i : ℕ)
    → IsBounded r
    → is_complete_rev r ≡ false
    → last_action_rev r ≡ some (i, a_bid)
    → IsBounded (double ∷ r)
unfolding top doubling passes last_action_rev
double-IsBounded r i b still e =
    let h = top-pos r _ b e in
    let d = (doubling-last_action_rev r i).0 e in
    record {
      top_le = b.top_le;
      unbid = λ z. absurd (omega arith);
      since = λ _. omega (arith, b.since h, d, (open-passes r b still).0 h);
      doubled = omega arith;
      few = omega arith;
      settled = λ _. (omega arith, omega arith);
    }

redouble-IsBounded :
    (r : List Call) (i : ℕ)
    → IsBounded r
    → is_complete_rev r ≡ false
    → last_action_rev r ≡ some (i, a_double)
    → IsBounded (redouble ∷ r)
unfolding top doubling passes last_action_rev
redouble-IsBounded r i b still e =
    let h = top-pos r _ b e in
    let d = (doubling-last_action_rev r i).1 e in
    record {
      top_le = b.top_le;
      unbid = λ z. absurd (omega arith);
      since = λ _. omega (arith, b.since h, d, (open-passes r b still).0 h);
      doubled = omega arith;
      few = omega arith;
      settled = λ _. (omega arith, omega arith);
    }

bid-IsBounded :
    (r : List Call) (l : ℕ) (s : Strain)
    → IsBounded r
    → is_complete_rev r ≡ false
    → (1 ≤ l) × (l ≤ 7)
    → top r < bid_value l s
    → IsBounded (bid l s ∷ r)
unfolding top doubling passes last_action_rev bid_value
bid-IsBounded r l s b still range higher = record {
  top_le = omega (arith, strain_rank-le s);
  unbid = λ z. absurd (omega arith);
  since = λ _. elim (top-cases r) [
    | inl z ↦ omega (arith, b.unbid z, (open-passes r b still).1 z)
    | inr h ↦ omega (arith, b.since h, b.doubled, (open-passes r b still).0 h)
  ];
  doubled = omega arith;
  few = omega arith;
  settled = λ _. (omega arith, omega arith);
}

outbids-higher :
    (l' : ℕ) (s' : Strain) (i l : ℕ) (s : Strain)
    → outbids (some (l', s', i)) l s ≡ true
    → 1 ≤ l
    → bid_value l' s' < bid_value l s
unfolding outbids bid_value
outbids-higher l' s' i l s h p = ground (arith, strain_rank-le s, strain_rank-le s')

bid_is_legal-parts :
    (r : List Call) (l : ℕ) (s : Strain)
    → bid_is_legal r l s ≡ true
    → (1 ≤ l) × (l ≤ 7) × (outbids (last_bid_rev r) l s ≡ true)
unfolding bid_is_legal
bid_is_legal-parts r l s h = ground arith

-- A legal bid is worth more than the last one.
bid_is_legal-higher :
    (r : List Call) (l : ℕ) (s : Strain)
    → bid_is_legal r l s ≡ true
    → (1 ≤ l) × (l ≤ 7) × (top r < bid_value l s)
bid_is_legal-higher r l s h =
    let (lo, hi, out) = bid_is_legal-parts r l s h in
    elim (top-last_bid_rev r) [
      | inl (e, z) ↦ (lo, hi, rw z (unfold bid_value in omega arith))
      | inr (l', s', i, e, z) ↦ (lo, hi, rw z (outbids-higher l' s' i l s (rw e at out) lo))
    ]

double_is_legal-inv :
    (dealer : Direction) (r : List Call)
    → double_is_legal dealer r ≡ true
    → (i : ℕ) × (last_action_rev r ≡ some (i, a_bid))
unfolding double_is_legal
double_is_legal-inv dealer r h = elim (Option-cases (last_action_rev r)) [
  | inl e ↦ absurd (ground arith)
  | inr ((i, a_bid), e) ↦ (i, e)
  | inr ((i, a_double), e) ↦ absurd (ground arith)
]

redouble_is_legal-inv :
    (dealer : Direction) (r : List Call)
    → redouble_is_legal dealer r ≡ true
    → (i : ℕ) × (last_action_rev r ≡ some (i, a_double))
unfolding redouble_is_legal
redouble_is_legal-inv dealer r h = elim (Option-cases (last_action_rev r)) [
  | inl e ↦ absurd (ground arith)
  | inr ((i, a_bid), e) ↦ absurd (ground arith)
  | inr ((i, a_double), e) ↦ (i, e)
]

call-IsBounded :
    (dealer : Direction) (r : List Call) (c : Call)
    → IsBounded r
    → is_complete_rev r ≡ false
    → call_is_legal dealer r c ≡ true
    → IsBounded (c ∷ r)
unfolding call_is_legal
call-IsBounded dealer r pass b still h = pass-IsBounded r b still
call-IsBounded dealer r (bid l s) b still h =
    let (lo, hi, more) = bid_is_legal-higher r l s h in bid-IsBounded r l s b still (lo, hi) more
call-IsBounded dealer r double b still h =
    let (i, e) = double_is_legal-inv dealer r h in double-IsBounded r i b still e
call-IsBounded dealer r redouble b still h =
    let (i, e) = redouble_is_legal-inv dealer r h in redouble-IsBounded r i b still e
call-IsBounded dealer r continue_ b still h = cc
call-IsBounded dealer r blank b still h = cc

LegalRev-IsBounded : (dealer : Direction) (r : List Call) → LegalRev dealer r → IsBounded r
unfolding top doubling passes last_action_rev
LegalRev-IsBounded dealer [] legal = record {
  top_le = omega arith;
  unbid = λ _. (refl, refl);
  since = λ h. absurd (omega arith);
  doubled = omega arith;
  few = omega arith;
  settled = λ h. absurd (omega arith);
}
LegalRev-IsBounded dealer (c ∷ r) (still, rule, rest) =
    call-IsBounded dealer r c (LegalRev-IsBounded dealer r rest) still rule

-- An auction in which every call was legal has at most 319 calls.
pub length-IsLegalAuction :
    (dealer : Direction) (calls : List Call) → IsLegalAuction dealer calls → length calls ≤ 319
length-IsLegalAuction dealer calls legal =
    let b = LegalRev-IsBounded dealer (reverse calls) legal in
    elim (top-cases (reverse calls)) [
      | inl z ↦ omega (arith, b.unbid z, b.few, length-reverse calls)
      | inr h ↦ omega (arith, b.since h, b.settled h, b.doubled, b.top_le, length-reverse calls)
    ]
