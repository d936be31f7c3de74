-- ===== src/Table/Log.antt =====
-- The logs that a table can reach, by actions that `apply` accepts and by undo (src/table.rs).
use bridge_table_service.Bridge.{BridgeTypes}
use bridge_table_service.Prelude.{
  List, [], arith, check-cases, dec_le, inl, inr, length, length-append, length-take, ok, refl,
  subst, suc, take, take-all, take-append, zero, ℕ, ◌++◌, ◌∷◌, ◌≡◌, ◌≤◌,
}
use bridge_table_service.Table.{Action, BoardSetup, TableState, new_table, seq}
use bridge_table_service.Table.Apply.{apply, check, push, undo_to}
use bridge_table_service.Table.Fold.{fold}

abbrev pub at : BoardSetup → List Action → TableState
at board actions = record { board = board; actions = actions }

-- Logs that grow one accepted action at a time.
pub data Log (bt : BridgeTypes) (board : BoardSetup) : List Action → Type 0 where
  empty : Log bt board []
  more :
      {actions longer : List Action} (a : Action)
      → Log bt board actions
      → check (at board actions) (fold bt (at board actions)) a ≡ ok tt
      → longer ≡ actions ++ a ∷ []
      → Log bt board longer

-- Tables that the calls of `apply` and `undo_to` reach from a fresh one.
pub data Reach (bt : BridgeTypes) (board : BoardSetup) : TableState → Type 0 where
  start : Reach bt board (new_table board)
  applied :
      {t t' : TableState} {n : ℕ} (a : Action)
      → Reach bt board t
      → apply bt t a ≡ ok (t', n)
      → Reach bt board t'
  undone :
      {t t' : TableState} {n : ℕ} (k : ℕ)
      → Reach bt board t
      → undo_to t k ≡ ok (t', n)
      → Reach bt board t'

-- What `undo_to` does when it succeeds.
pub undo_to-ok :
    (t : TableState) (k : ℕ) {t' : TableState} {n : ℕ}
    → undo_to t k ≡ ok (t', n)
    → (k ≤ seq t) × (t' ≡ record t { actions = take k t.actions }) × (n ≡ k)
unfolding undo_to seq
undo_to-ok t k h = ground (arith, length-take k t.actions)

module _ (bt : BridgeTypes) where
  -- What `apply` does when it succeeds.
  pub apply-ok :
      (t : TableState) (a : Action) {t' : TableState} {n : ℕ}
      → apply bt t a ≡ ok (t', n)
      → (check t (fold bt t) a ≡ ok tt) × (t' ≡ push t a) × (n ≡ suc (seq t))
  unfolding apply push seq
  apply-ok t a h = elim (check-cases (check t (fold bt t) a)) [
    | inl done ↦
        let h' = rw done at h in
        let n = length-append t.actions (a ∷ []) in (done, cc h', ground (arith, h', n))
    | inr (e, refused) ↦ absurd (cc (rw refused at h))
  ]

  -- A prefix of a log is a log.
  pub take-Log :
      {board : BoardSetup} {actions : List Action} (k : ℕ)
      → Log bt board actions
      → Log bt board (take k actions)
  take-Log zero l = empty
  take-Log (suc k) empty = empty
  take-Log {board} (suc k) (more {actions = before} a l done e) =
      elim (dec_le (suc k) (length before)) [
        | yes h ↦ rw (e, take-append (suc k) before (a ∷ []) h) (take-Log (suc k) l)
        | no h ↦
            rw
              (
                e,
                take-all (suc k) (before ++ a ∷ []) (omega (arith, length-append before (a ∷ []))),
              )
              (more a l done refl)
      ]

  -- Undo leads to no new log: whatever actions and undos reach, accepted actions alone reach.
  pub Reach-Log :
      {board : BoardSetup} {t : TableState}
      → Reach bt board t
      → (t.board ≡ board) × Log bt board t.actions
  unfolding new_table push
  Reach-Log start = (refl, empty)
  Reach-Log {board} (applied {t = t} a r e) =
      let (same, l) = Reach-Log r in
      let (done, grown, _) = apply-ok t a e in
      rw grown (
        same,
        more a l
            (subst (λ b. check (at b t.actions) (fold bt (at b t.actions)) a ≡ ok tt) same done)
            refl,
      )
  Reach-Log (undone {t = t} k r e) =
      let (same, l) = Reach-Log r in
      let (_, cut, _) = undo_to-ok t k e in rw cut (same, take-Log k l)
