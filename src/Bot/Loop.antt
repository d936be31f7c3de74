-- ===== src/Bot/Loop.antt =====
-- The tasks that drive the bots of a room, and the flag that they share (src/bots.rs, `kick`).
use bridge_table_service.Prelude.{
  Bool, List, Option, [], false, get_elem?, if◌then◌else◌, none, some, suc, true, zero, ℕ, ◌∷◌,
}

-- Where a task is: about to look at the session, about to clear the flag and end, in `act_once`, about to
-- clear the flag and look again, looking again, about to take the flag again.
pub data DriverPhase : Type 0 where
  gating stopping acting clearing rechecking retaking : DriverPhase

-- `bot_running`, and the tasks that have not ended.
pub record Driver : Type 0 where
  pub running : Bool
  pub tasks : List DriverPhase

-- What a task sees: whether the session keeps its bots off, what `act_once` returns, and
-- `bot_turn_pending`.
pub record Look : Type 0 where
  pub stays_off : Bool
  pub has_acted : Bool
  pub turn_pending : Bool

-- `kick`; a new task is put first.
unfoldable pub kick_driver : Driver → Driver
kick_driver d = if d.running then d else record { running = true; tasks = gating ∷ d.tasks }

-- What a task does next, from one access of what is shared to the next: the flag, and where the task is
-- then, unless it has ended.
unfoldable pub task_step : Bool → DriverPhase → Look → Bool × Option DriverPhase
task_step running gating look = (running, (if look.stays_off then some stopping else some acting))
task_step running stopping look = (false, none)
task_step running acting look = (running, (if look.has_acted then some gating else some clearing))
task_step running clearing look = (false, some rechecking)
task_step running rechecking look = (running, (if look.turn_pending then some retaking else none))
task_step running retaking look = (true, (if running then none else some gating))

-- The task of index `i`, moved on or taken away.
unfoldable pub put_task : List DriverPhase → ℕ → Option DriverPhase → List DriverPhase
put_task [] i q = []
put_task (p ∷ tasks) zero none = tasks
put_task (p ∷ tasks) zero (some q) = q ∷ tasks
put_task (p ∷ tasks) (suc i) q = p ∷ put_task tasks i q

-- A step of the task of index `i`.
unfoldable pub run_task : Driver → ℕ → Look → Driver
unfolding task_step put_task
run_task d i look = elim (get_elem? d.tasks i) [
  | none ↦ d
  | some p ↦
      let (running, q) = task_step d.running p look in
      record { running = running; tasks = put_task d.tasks i q }
]
