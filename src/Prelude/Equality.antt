-- ===== src/Prelude/Equality.antt =====
-- Equality tests (Rust's `PartialEq`) as an instance argument, and the searches that use it.
use Prim.Native.Nat.{ℕ}
use Prim.Native.String.{String}
use mathlib.Core.Path.{◌≡◌, refl}
use mathlib.Core.Logic.{◌↔◌}
use mathlib.Core.Bool.{Bool, true, false, ◌&&◌, ◌||◌}
use mathlib.Core.List.{List, [], ◌∷◌}
use mathlib.Core.Option.{none}
use text.Mathlib.Text.{◌==◌ as str_eq}
use text.Mathlib.TextEquality.{eq_iff}
use native.Mathlib.Omega.{arith}
use bridge_table_service.Prelude.Tests.{eqb, eqb_iff}
use bridge_table_service.Prelude.Lists.{filter, find}

-- Rust's `PartialEq`: a derived `eq` is true exactly of equal values.
pub record PartialEq {ℓ} (V : Type ℓ) : Type ℓ where
  pub same : V → V → Bool
  pub beq_iff : (x y : V) → (same x y ≡ true) ↔ (x ≡ y)

-- `a == b` on texts and numbers.
instance abbrev pub string_eq : PartialEq String
string_eq = record { same = str_eq; beq_iff = eq_iff }

instance abbrev pub nat_eq : PartialEq ℕ
nat_eq = record { same = eqb; beq_iff = eqb_iff }

infix 50 ◌==◌
abbrev pub ◌==◌ {κ} : {V : Type κ} ⦃p : PartialEq V⦄ → V → V → Bool
◌==◌ ⦃p⦄ x y = p.same x y

module _ {ℓ} {A : Type ℓ} ⦃e : PartialEq A⦄ where
  -- `slice.contains(&a)`
  abbrev pub contains : List A → A → Bool
  contains [] a = false
  contains (x ∷ xs) a = x == a || contains xs a

  pub contains-filter :
      (p : A → Bool) (xs : List A) (a : A) → contains (filter p xs) a ≡ (contains xs a && p a)
  contains-filter p [] a = refl
  contains-filter p (x ∷ xs) a =
      ground (arith, contains-filter p xs a, e.beq_iff x a, e.beq_iff a a)

  pub not-contains-nil : (xs : List A) → ((a : A) → contains xs a ≡ false) → xs ≡ []
  not-contains-nil [] h = refl
  not-contains-nil (x ∷ xs) h = ground (arith, h x, e.beq_iff x x)

  pub find-none :
      (p : A → Bool) (xs : List A) (a : A) → find p xs ≡ none → contains xs a ≡ true → p a ≡ false
  find-none p [] a h c = cc
  find-none p (x ∷ xs) a h c = ground (arith, find-none p xs a, e.beq_iff x a)
