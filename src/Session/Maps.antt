-- ===== src/Session/Maps.antt =====
-- A `HashMap` keyed by strings, as the list of its entries (src/sessions.rs: `kibitzers`, `connections`).
use bridge_table_service.Prelude.{
  Bool, List, Option, String, [], filter, if◌then◌else◌, none, not, some, string_eq, ◌==◌, ◌∷◌,
}

module _ {V : Type 0} where
  -- `map.get(key)`
  unfoldable pub get : String → List (String × V) → Option V
  get key [] = none
  get key ((k, v) ∷ m) = if k == key then some v else get key m

  -- `map.retain(|k, v| keep(k, v))`
  unfoldable pub retain : (String → V → Bool) → List (String × V) → List (String × V)
  retain keep m = filter (λ e. keep e.0 e.1) m

  -- `map.remove(key)`
  unfoldable pub remove : String → List (String × V) → List (String × V)
  unfolding retain
  remove key m = retain (λ k v. not (k == key)) m

  -- `map.insert(key, v)`
  unfoldable pub insert : String → V → List (String × V) → List (String × V)
  unfolding remove
  insert key v m = (key, v) ∷ remove key m

  -- `map.get_mut(key)`, changed by `change`
  unfoldable pub update : String → (V → V) → List (String × V) → List (String × V)
  update key change [] = []
  update key change ((k, v) ∷ m) =
      if k == key then (k, change v) ∷ m else (k, v) ∷ update key change m
