-- ===== src/Auction/Bids.antt =====
-- A bid is held against the last bid only; in an auction of legal calls that is the highest one.
use bridge_table_service.Auction.{
  bid_is_legal, call_is_legal, is_complete, is_legal, last_bid_rev, outbids, strain_rank,
}
use bridge_table_service.Auction.Legal.{IsLegalAuction, LegalRev}
use bridge_table_service.Bridge.{
  Call, Direction, Strain, bid, blank, continue_, double, pass, redouble,
}
use bridge_table_service.Prelude.{
  Bool, List, [], arith, false, if◌then◌else◌, inl, inr, leb, length, refl, reverse, reverse-append,
  some, true, ℕ, ◌&&◌, ◌++◌, ◌<◌, ◌↔◌, ◌∷◌, ◌≡◌, ◌≤◌, ◌⊎◌,
}

-- A property of each call.
abbrev pub EachCall : (Call → Type 0) → List Call → Type 0
EachCall P [] = Unit {0}
EachCall P (c ∷ r) = P c × EachCall P r

-- The call, if it is a bid, is lower than the bid of the level and the strain.
abbrev pub IsUnder : ℕ → Strain → Call → Type 0
IsUnder level strain (bid l s) = (l < level) ⊎ ((l ≡ level) × (strain_rank s < strain_rank strain))
IsUnder level strain _ = Unit {0}

EachCall-map :
    (P Q : Call → Type 0) (r : List Call) → ((c : Call) → P c → Q c) → EachCall P r → EachCall Q r
EachCall-map P Q [] f h = tt
EachCall-map P Q (c ∷ r) f h = (f c h.0, EachCall-map P Q r f h.1)

EachCall-append :
    (P : Call → Type 0) (xs ys : List Call)
    → EachCall P (xs ++ ys) ↔ (EachCall P xs × EachCall P ys)
EachCall-append P [] ys = ((λ h. (tt, h)), (λ h. h.1))
EachCall-append P (x ∷ xs) ys = (
  (λ h. let (p, q) = (EachCall-append P xs ys).0 h.1 in ((h.0, p), q)),
  (λ h. (h.0.0, (EachCall-append P xs ys).1 (h.0.1, h.1))),
)

pub EachCall-reverse :
    (P : Call → Type 0) (xs : List Call) → EachCall P (reverse xs) ↔ EachCall P xs
EachCall-reverse P [] = ((λ h. tt), (λ h. tt))
EachCall-reverse P (x ∷ xs) = rw (reverse-append (x ∷ []) xs) (
  (λ h.
      let (p, q) = (EachCall-append P (reverse xs) (x ∷ [])).0 h in
      (q.0, (EachCall-reverse P xs).0 p)),
  (λ h. (EachCall-append P (reverse xs) (x ∷ [])).1 ((EachCall-reverse P xs).1 h.1, (h.0, tt))),
)

IsUnder-trans :
    (level l : ℕ) (strain s : Strain)
    → IsUnder level strain (bid l s)
    → (c : Call) → IsUnder l s c
    → IsUnder level strain c
IsUnder-trans level l strain s up (bid l' s') (inl lower) = elim up [
  | inl h ↦ inl (omega (arith, h, lower))
  | inr (e, h) ↦ inl (omega (arith, e, lower))
]
IsUnder-trans level l strain s up (bid l' s') (inr (e', lower)) = elim up [
  | inl h ↦ inl (omega (arith, h, e'))
  | inr (e, h) ↦ inr (omega (arith, e, e'), omega (arith, h, lower))
]
IsUnder-trans level l strain s up pass h = tt
IsUnder-trans level l strain s up double h = tt
IsUnder-trans level l strain s up redouble h = tt
IsUnder-trans level l strain s up continue_ h = tt
IsUnder-trans level l strain s up blank h = tt

outbids-IsUnder :
    (level l i : ℕ) (strain s : Strain)
    → (outbids (some (l, s, i)) level strain ≡ true) ↔ IsUnder level strain (bid l s)
unfolding outbids
outbids-IsUnder level l i strain s = ((λ h. ground arith), (λ h. ground arith))

outbids-all :
    (dealer : Direction) (r : List Call) (level : ℕ) (strain : Strain)
    → LegalRev dealer r
    → outbids (last_bid_rev r) level strain ≡ true
    → EachCall (IsUnder level strain) r
unfolding last_bid_rev call_is_legal bid_is_legal
outbids-all dealer [] level strain legal h = tt
outbids-all dealer (bid l s ∷ r) level strain (_, ruled, legal) h =
    let up = (outbids-IsUnder level l (length r) strain s).0 h in
    let earlier : outbids (last_bid_rev r) l s ≡ true = ground arith in
    (
      up,
      EachCall-map (IsUnder l s) (IsUnder level strain) r (IsUnder-trans level l strain s up)
          (outbids-all dealer r l s legal earlier),
    )
outbids-all dealer (pass ∷ r) level strain (_, _, legal) h =
    (tt, outbids-all dealer r level strain legal h)
outbids-all dealer (double ∷ r) level strain (_, _, legal) h =
    (tt, outbids-all dealer r level strain legal h)
outbids-all dealer (redouble ∷ r) level strain (_, _, legal) h =
    (tt, outbids-all dealer r level strain legal h)
outbids-all dealer (continue_ ∷ r) level strain (_, _, legal) h =
    (tt, outbids-all dealer r level strain legal h)
outbids-all dealer (blank ∷ r) level strain (_, _, legal) h =
    (tt, outbids-all dealer r level strain legal h)

all-outbids :
    (r : List Call) (level : ℕ) (strain : Strain)
    → EachCall (IsUnder level strain) r
    → outbids (last_bid_rev r) level strain ≡ true
unfolding last_bid_rev outbids
all-outbids [] level strain h = refl
all-outbids (bid l s ∷ r) level strain h = (outbids-IsUnder level l (length r) strain s).1 h.0
all-outbids (pass ∷ r) level strain h = all-outbids r level strain h.1
all-outbids (double ∷ r) level strain h = all-outbids r level strain h.1
all-outbids (redouble ∷ r) level strain h = all-outbids r level strain h.1
all-outbids (continue_ ∷ r) level strain h = all-outbids r level strain h.1
all-outbids (blank ∷ r) level strain h = all-outbids r level strain h.1

in_range :
    (level : ℕ) (b : Bool)
    → ((if leb 1 level && leb level 7 then b else false) ≡ true)
      ↔ ((1 ≤ level) × (level ≤ 7) × (b ≡ true))
in_range level b = ((λ h. ground arith), (λ h. ground arith))

bid-is_legal_lem :
    (dealer : Direction) (calls : List Call) (level : ℕ) (strain : Strain)
    → is_complete calls ≡ false
    → is_legal dealer calls (bid level strain) ≡ (
        if leb 1 level && leb level 7
        then outbids (last_bid_rev (reverse calls)) level strain
        else false)
unfolding is_legal call_is_legal bid_is_legal
bid-is_legal_lem dealer calls level strain going = rw (is_legal, going) refl

-- In an auction of legal calls that is not over, a bid is legal exactly if its level is one to seven and
-- it is higher than every bid made before.
pub bid-is_legal_iff :
    (dealer : Direction) (calls : List Call) (level : ℕ) (strain : Strain)
    → IsLegalAuction dealer calls
    → is_complete calls ≡ false
    → (is_legal dealer calls (bid level strain) ≡ true)
      ↔ ((1 ≤ level) × (level ≤ 7) × EachCall (IsUnder level strain) calls)
bid-is_legal_iff dealer calls level strain legal going =
    let r = reverse calls in
    let (to, from) = in_range level (outbids (last_bid_rev r) level strain) in
    let backwards = EachCall-reverse (IsUnder level strain) calls in
    rw (bid-is_legal_lem dealer calls level strain going) (
      (λ h.
          let (low, high, ruled) = to h in
          (low, high, backwards.0 (outbids-all dealer r level strain legal ruled))),
      (λ (low, high, under). from (low, high, all-outbids r level strain (backwards.1 under))),
    )
