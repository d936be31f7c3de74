-- ===== src/Session/Orderly.antt =====
-- The tables of a session, numbered as they were added, each of them played by the rules (src/sessions.rs).
use bridge_table_service.Bridge.{BridgeTypes}
use bridge_table_service.Prelude.{
  Bool, List, Option, Option-cases, Result, String, [], ap, arith, err, false, get_elem?,
  if◌then◌else◌, inl, inr, map, none, ok, refl, some, some-injective, subst, suc, sym, true, zero,
  ℕ, ◌++◌, ◌+◌, ◌>>=◌, ◌∙◌, ◌∷◌, ◌≡◌,
}
use bridge_table_service.Room.{RoomInner, TakeoverGrace, new_room}
use bridge_table_service.Session.{
  SeatPolicy, Session, SessionKind, SessionRoom, add_room, board_for_new, grace_of, new_session,
  room_for_new, seed_of, seeded, with_room,
}
use bridge_table_service.Session.Arrivals.{first_room, replace_room, set_room}
use bridge_table_service.Table.{BoardSetup, new_table}
use bridge_table_service.Table.Log.{Reach, start}

-- The table of the room is one that `apply` and `undo_to` reach from a fresh board.
unfoldable pub Rooted : BridgeTypes → RoomInner → Type 0
Rooted bt r = (board : BoardSetup) × Reach bt board r.table

-- Rooms numbered from `n`, up to `m`.
pub data Orderly (bt : BridgeTypes) : ℕ → List SessionRoom → ℕ → Type 0 where
  no_rooms : {n m : ℕ} → m ≡ n → Orderly bt n [] m
  one_more :
      {n m : ℕ} {xs : List SessionRoom} (x : SessionRoom)
      → x.id ≡ n
      → Rooted bt x.inner
      → Orderly bt (suc n) xs m
      → Orderly bt n (x ∷ xs) m

-- The rooms are numbered from 1 to the last number given out, and every table is played by the rules.
unfoldable pub IsOrderly : BridgeTypes → Session → Type 0
IsOrderly bt s = Orderly bt 1 s.rooms (suc s.next_table_no)

-- The property of a result, if there is one.
abbrev pub AllOk : {A E : Type 0} → (A → Type 0) → Result E A → Type 0
AllOk P (ok a) = P a
AllOk P (err e) = Unit {0}

pub bind-AllOk :
    {A B E : Type 0} (P : A → Type 0) (Q : B → Type 0) (m : Result E A) (f : A → Result E B)
    → AllOk P m
    → ((a : A) → P a → AllOk Q (f a))
    → AllOk Q (m >>= f)
bind-AllOk P Q (ok a) f p next = next a p
bind-AllOk P Q (err e) f p next = tt

pub if-AllOk :
    {A E : Type 0} (P : A → Type 0) (b : Bool) (r t : Result E A)
    → AllOk P r
    → AllOk P t
    → AllOk P (if b then r else t)
if-AllOk P true r t p q = p
if-AllOk P false r t p q = q

-- A property of what depends on an option.
pub option-Holds :
    {A B : Type 0} (P : B → Type 0) (o : Option A) (b : B) (f : A → B)
    → P b
    → ((a : A) → o ≡ some a → P (f a))
    → P (elim o [ none ↦ b | some a ↦ f a ])
option-Holds P none b f p q = p
option-Holds P (some a) b f p q = q a refl

-- A property of what depends on a result, of which another property is known.
pub result-Holds :
    {A B E : Type 0} (P : A → Type 0) (Q : B → Type 0) (r : Result E A) (f : E → B) (g : A → B)
    → AllOk P r
    → ((e : E) → Q (f e))
    → ((a : A) → P a → Q (g a))
    → Q (elim r [ err e ↦ f e | ok a ↦ g a ])
result-Holds P Q (ok a) f g p failed made = made a p
result-Holds P Q (err e) f g p failed made = failed e

pub any_ok : {A E : Type 0} (r : Result E A) → AllOk (λ a. Unit {0}) r
any_ok (ok a) = tt
any_ok (err e) = tt

pub same_table-Rooted :
    (bt : BridgeTypes) (r r' : RoomInner) → r'.table ≡ r.table → Rooted bt r → Rooted bt r'
unfolding Rooted
same_table-Rooted bt r r' e (board, reached) = (board, subst (Reach bt board) (sym e) reached)

pub new_table-Rooted :
    (bt : BridgeTypes) (r : RoomInner) (board : BoardSetup)
    → r.table ≡ new_table board
    → Rooted bt r
unfolding Rooted
new_table-Rooted bt r board e = (board, subst (Reach bt board) (sym e) start)

module _ (bt : BridgeTypes) where
  pub append-Orderly :
      (n : ℕ) (xs : List SessionRoom) (m : ℕ) (x : SessionRoom)
      → Orderly bt n xs m
      → x.id ≡ m
      → Rooted bt x.inner
      → Orderly bt n (xs ++ x ∷ []) (suc m)
  append-Orderly n [] m x (no_rooms e) here rooted =
      one_more x (here ∙ e) rooted (no_rooms (ap suc e))
  append-Orderly n (y ∷ xs) m x (one_more _ e r rest) here rooted =
      one_more y e r (append-Orderly (suc n) xs m x rest here rooted)

  pub map-Orderly :
      (change : SessionRoom → SessionRoom)
      → ((x : SessionRoom) → (change x).id ≡ x.id)
      → ((x : SessionRoom) → Rooted bt x.inner → Rooted bt (change x).inner)
      → (n : ℕ) (xs : List SessionRoom) (m : ℕ) → Orderly bt n xs m
      → Orderly bt n (map change xs) m
  map-Orderly change ids rooted n [] m (no_rooms e) = no_rooms e
  map-Orderly change ids rooted n (x ∷ xs) m (one_more _ e r rest) =
      one_more (change x) (ids x ∙ e) (rooted x r) (map-Orderly change ids rooted (suc n) xs m rest)

  pub replace_room-Orderly :
      (n : ℕ) (xs : List SessionRoom) (m i : ℕ) (x y : SessionRoom)
      → get_elem? xs i ≡ some x
      → y.id ≡ x.id
      → (Rooted bt x.inner → Rooted bt y.inner)
      → Orderly bt n xs m
      → Orderly bt n (replace_room xs i y) m
  unfolding replace_room
  replace_room-Orderly n [] m i x y h same rooted o = absurd (cc)
  replace_room-Orderly n (z ∷ xs) m zero x y h same rooted (one_more _ e r rest) =
      let at = some-injective z x h in
      one_more y (same ∙ sym (ap (λ (w : SessionRoom). w.id) at) ∙ e)
        (rooted (subst (λ (w : SessionRoom). Rooted bt w.inner) at r)) rest
  replace_room-Orderly n (z ∷ xs) m (suc i) x y h same rooted (one_more _ e r rest) =
      one_more z e r (replace_room-Orderly (suc n) xs m i x y h same rooted rest)

  pub set_room-Orderly :
      (n : ℕ) (xs : List SessionRoom) (m i : ℕ) (x : SessionRoom) (r' : RoomInner)
      → get_elem? xs i ≡ some x
      → (Rooted bt x.inner → Rooted bt r')
      → Orderly bt n xs m
      → Orderly bt n (set_room xs i r') m
  unfolding set_room
  set_room-Orderly n [] m i x r' h rooted o = absurd (cc)
  set_room-Orderly n (z ∷ xs) m zero x r' h rooted (one_more _ e r rest) =
      one_more (record z { inner = r' }) e
        (rooted (subst (λ (w : SessionRoom). Rooted bt w.inner) (some-injective z x h) r)) rest
  set_room-Orderly n (z ∷ xs) m (suc i) x r' h rooted (one_more _ e r rest) =
      one_more z e r (set_room-Orderly (suc n) xs m i x r' h rooted rest)

  pub first_room-Orderly :
      {A : Type 0} (try_room : SessionRoom → RoomInner × Option A)
      → ((x : SessionRoom) → (try_room x).0.table ≡ x.inner.table)
      → (n : ℕ) (xs : List SessionRoom) (m : ℕ) → Orderly bt n xs m
      → Orderly bt n (first_room try_room xs).0 m
  unfolding first_room
  first_room-Orderly try_room same n [] m (no_rooms e) = no_rooms e
  first_room-Orderly try_room same n (x ∷ xs) m (one_more _ e r rest) =
      let here = same_table-Rooted bt x.inner (try_room x).0 (same x) r in
      elim (Option-cases (try_room x).1) [
        | inl none_yet ↦
            rw (first_room, none_yet)
              (one_more (record x { inner = (try_room x).0 }) e here
                (first_room-Orderly try_room same (suc n) xs m rest))
        | inr (a, found) ↦
            rw (first_room, found) (one_more (record x { inner = (try_room x).0 }) e here rest)
      ]

  seeded-Orderly :
      (placeholder : BoardSetup) (grace : TakeoverGrace) (seed : BoardSetup) (n k m : ℕ)
      → m ≡ n + k
      → Orderly bt n (seeded placeholder grace seed n k) m
  unfolding seeded new_room
  seeded-Orderly placeholder grace seed n zero m e = no_rooms (omega (arith, e))
  seeded-Orderly placeholder grace seed n (suc k) m e =
      one_more _ refl (new_table-Rooted bt _ seed refl) (
        subst (λ j. Orderly bt j (seeded placeholder grace seed (n + 1) k) m) (omega arith)
          (seeded-Orderly placeholder grace seed (n + 1) k m (omega (arith, e))))

  pub new_session-IsOrderly :
      (placeholder : BoardSetup) (kind : SessionKind) (owner : String) (policy : SeatPolicy)
      (boards : List BoardSetup) (tables : ℕ)
      → IsOrderly bt (new_session placeholder kind owner policy boards tables)
  unfolding new_session IsOrderly
  new_session-IsOrderly placeholder kind owner policy boards tables =
      seeded-Orderly placeholder (grace_of kind) (seed_of placeholder boards) 1 tables (suc tables)
        (omega arith)

  pub add_room-IsOrderly :
      (placeholder : BoardSetup) (s : Session)
      → IsOrderly bt s
      → AllOk (λ (r : Session × SessionRoom). IsOrderly bt r.0) (add_room placeholder s)
  unfolding add_room with_room room_for_new new_room IsOrderly
  add_room-IsOrderly placeholder s o =
      bind-AllOk (λ board. Unit {0}) (λ (r : Session × SessionRoom). IsOrderly bt r.0)
        (board_for_new placeholder s.deck) _ (any_ok (board_for_new placeholder s.deck))
        λ board u.
          subst (λ k. Orderly bt 1 (s.rooms ++ room_for_new placeholder s board ∷ []) (suc k))
            (omega arith)
            (append-Orderly 1 s.rooms (suc s.next_table_no) (room_for_new placeholder s board) o
              (omega arith) (new_table-Rooted bt _ board refl))
