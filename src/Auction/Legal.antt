-- ===== src/Auction/Legal.antt =====
-- Auctions in which every call was legal when it was made.
use bridge_table_service.Auction.{call_is_legal, is_complete, is_complete_rev, is_legal}
use bridge_table_service.Bridge.{Call, Direction}
use bridge_table_service.Prelude.{
  List, [], ap, arith, false, length, length-append, refl, reverse, reverse-append, true, ◌++◌, ◌∷◌,
  ◌≡◌,
}

-- The calls, latest first, were each legal after those before them.
abbrev pub LegalRev : Direction → List Call → Type 0
LegalRev dealer [] = Unit {0}
LegalRev dealer (c ∷ r) =
    (is_complete_rev r ≡ false) × (call_is_legal dealer r c ≡ true) × LegalRev dealer r

abbrev pub IsLegalAuction : Direction → List Call → Type 0
IsLegalAuction dealer calls = LegalRev dealer (reverse calls)

pub reverse-snoc {ℓ} : {A : Type ℓ} (xs : List A) (x : A) → reverse (xs ++ x ∷ []) ≡ x ∷ reverse xs
reverse-snoc xs x = rw (reverse-append xs (x ∷ []))

pub length-reverse {ℓ} : {A : Type ℓ} (xs : List A) → length (reverse xs) ≡ length xs
length-reverse [] = refl
length-reverse (x ∷ xs) = omega (
  arith,
  ap length (reverse-append (x ∷ []) xs),
  length-append (reverse xs) (x ∷ []),
  length-reverse xs,
)

-- `is_legal` accepts a call exactly when the auction is still open and the call's own rule holds.
pub is_legal-parts :
    (dealer : Direction) (calls : List Call) (c : Call)
    → is_legal dealer calls c ≡ true
    → (is_complete_rev (reverse calls) ≡ false) × (call_is_legal dealer (reverse calls) c ≡ true)
unfolding is_legal is_complete
is_legal-parts dealer calls c h = ground arith

-- A legal call extends a legal auction to a legal auction.
pub snoc-IsLegalAuction :
    (dealer : Direction) (calls : List Call) (c : Call)
    → IsLegalAuction dealer calls
    → is_legal dealer calls c ≡ true
    → IsLegalAuction dealer (calls ++ c ∷ [])
snoc-IsLegalAuction dealer calls c legal h =
    let (still_open, rule) = is_legal-parts dealer calls c h in
    rw (reverse-snoc calls c) (still_open, rule, legal)
