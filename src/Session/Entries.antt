-- ===== src/Session/Entries.antt =====
-- Looking up in a map that has changed (src/sessions.rs: `kibitzers`, `connections`).
use bridge_table_service.Prelude.{
  Bool, Bool-cases, List, String, [], ap, arith, false, if◌then◌else◌, inl, inr, none, refl, some,
  some-injective, string_eq, subst, sym, true, ◌==◌, ◌∙◌, ◌∷◌, ◌≡◌,
}
use bridge_table_service.Session.Maps.{get, insert, remove, retain}

string_eq-sym : (a b : String) → (a == b) ≡ (b == a)
string_eq-sym a b = ground (arith, string_eq.beq_iff a b, string_eq.beq_iff b a)

module _ {V : Type 0} where
  -- What passes the test of `retain` stays.
  pub get-retain :
      (keep : String → V → Bool) (key : String) (v : V) (m : List (String × V))
      → get key m ≡ some v
      → keep key v ≡ true
      → get key (retain keep m) ≡ some v
  unfolding get retain
  get-retain keep key v [] h passes = h
  get-retain keep key v ((k, w) ∷ m) h passes = elim (Bool-cases (k == key)) [
    | inl e ↦
        let here : some w ≡ some v = rw (get, e) at h in
        let same = some-injective w v here in
        let kept : keep k w ≡ true =
          subst (λ k. keep k w ≡ true) (sym ((string_eq.beq_iff k key).0 e))
            (subst (λ w. keep key w ≡ true) (sym same) passes) in
        rw (retain, kept) (rw (get, e) (ap some same))
    | inr e ↦
        let there : get key m ≡ some v = rw (get, e) at h in
        let rest = get-retain keep key v m there passes in
        elim (Bool-cases (keep k w)) [
          | inl kept ↦ rw (retain, kept) (rw (get, e) rest)
          | inr gone ↦ rw (retain, gone) rest
        ]
  ]

  -- What `retain` leaves has passed its test.
  pub retain-passes :
      (keep : String → V → Bool) (key : String) (v : V) (m : List (String × V))
      → get key (retain keep m) ≡ some v
      → keep key v ≡ true
  unfolding get retain
  retain-passes keep key v [] h = absurd (cc)
  retain-passes keep key v ((k, w) ∷ m) h = elim (Bool-cases (keep k w)) [
    | inr gone ↦ retain-passes keep key v m (rw (retain, gone) at h)
    | inl kept ↦
        let h1 : get key ((k, w) ∷ retain keep m) ≡ some v = rw (retain, kept) at h in
        elim (Bool-cases (k == key)) [
          | inl e ↦
              let here : some w ≡ some v = rw (get, e) at h1 in
              subst (λ w. keep key w ≡ true) (some-injective w v here)
                (subst (λ k. keep k w ≡ true) ((string_eq.beq_iff k key).0 e) kept)
          | inr e ↦ retain-passes keep key v m (rw (get, e) at h1)
        ]
  ]

  -- `remove` takes the entry of the key, and only that.
  pub get-remove :
      (q key : String) (m : List (String × V))
      → get q (remove key m) ≡ (if q == key then none else get q m)
  unfolding remove retain get
  get-remove q key [] = ground arith
  get-remove q key ((k, v) ∷ m) = elim (Bool-cases (k == key)) [
    | inl e ↦
        let same = (string_eq.beq_iff k key).0 e in
        rw (remove, retain, e)
          (get-remove q key m ∙ elim (Bool-cases (q == key)) [
            | inl e1 ↦ rw e1 refl
            | inr e1 ↦
                let e2 : (k == q) ≡ false = rw same (string_eq-sym key q ∙ e1) in
                rw (e1, get, e2) refl
          ])
    | inr e ↦
        rw (remove, retain, e)
          (elim (Bool-cases (k == q)) [
            | inl e1 ↦
                let e2 : (q == key) ≡ false =
                  subst (λ k. (k == key) ≡ false) ((string_eq.beq_iff k q).0 e1) e in
                rw (e2, get, e1) refl
            | inr e1 ↦ rw (get, e1) (get-remove q key m)
          ])
  ]

  -- `insert` gives the key an entry, and leaves the others.
  pub get-insert :
      (q key : String) (v : V) (m : List (String × V))
      → get q (insert key v m) ≡ (if q == key then some v else get q m)
  unfolding insert get
  get-insert q key v m = elim (Bool-cases (key == q)) [
    | inl e ↦ rw (insert, get, e) (rw (string_eq-sym q key ∙ e) refl)
    | inr e ↦ rw (insert, get, e) (get-remove q key m ∙ rw (string_eq-sym q key ∙ e) refl)
  ]
