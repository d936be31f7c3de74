-- ===== src/Bot/Alone.antt =====
-- One task at a time drives the bots of a room (src/bots.rs, `kick`).
use bridge_table_service.Bot.Loop.{
  Driver, DriverPhase, Look, acting, clearing, gating, kick_driver, put_task, rechecking, retaking,
  run_task, stopping, task_step,
}
use bridge_table_service.Prelude.{
  Bool, Bool-cases, List, Option, Option-cases, [], arith, false, get_elem?, inl, inr, none, refl,
  some, some-injective, subst, suc, sym, true, zero, ℕ, ◌+◌, ◌∷◌, ◌≡◌, ◌≤◌,
}

-- Whether a task drives: from its start until it clears the flag, and again after it took it.
pub drives : DriverPhase → ℕ
drives gating = 1
drives stopping = 1
drives acting = 1
drives clearing = 1
drives rechecking = 0
drives retaking = 0

-- The number of tasks that drive.
pub drivers : List DriverPhase → ℕ
unfolding drives
drivers [] = 0
drivers (p ∷ tasks) = drives p + drivers tasks

pub flagged : Bool → ℕ
flagged true = 1
flagged false = 0

driving : Option DriverPhase → ℕ
unfolding drives
driving none = 0
driving (some p) = drives p

-- One task drives while the flag is set, and none while it is not.
pub IsExclusive : Driver → Type 0
IsExclusive d = drivers d.tasks ≡ flagged d.running

-- The states that kicks and steps of the tasks lead to, in any order.
pub data DriverReach : Driver → Type 0 where
  idle : DriverReach (record { running = false; tasks = [] })
  kicked : {d : Driver} → DriverReach d → DriverReach (kick_driver d)
  stepped : {d : Driver} (i : ℕ) (look : Look) → DriverReach d → DriverReach (run_task d i look)

put_task-drivers :
    (tasks : List DriverPhase) (i : ℕ) (p : DriverPhase) (q : Option DriverPhase)
    → get_elem? tasks i ≡ some p
    → drivers (put_task tasks i q) + drives p ≡ drivers tasks + driving q
unfolding put_task drivers driving
put_task-drivers [] i p q h = absurd (cc)
put_task-drivers (r ∷ tasks) zero p none h =
    subst (λ x. drivers tasks + drives x ≡ drives r + drivers tasks + 0) (some-injective r p h)
      (omega arith)
put_task-drivers (r ∷ tasks) zero p (some q) h =
    subst (λ x. drives q + drivers tasks + drives x ≡ drives r + drivers tasks + drives q)
      (some-injective r p h) (omega arith)
put_task-drivers (r ∷ tasks) (suc i) p q h =
    let rest = put_task-drivers tasks i p q h in omega (arith, rest)

-- A task that drives is one of the drivers.
drives-drivers :
    (tasks : List DriverPhase) (i : ℕ) (p : DriverPhase)
    → get_elem? tasks i ≡ some p
    → drives p ≤ drivers tasks
unfolding drivers
drives-drivers [] i p h = absurd (cc)
drives-drivers (r ∷ tasks) zero p h =
    subst (λ x. drives x ≤ drives r + drivers tasks) (some-injective r p h) (omega arith)
drives-drivers (r ∷ tasks) (suc i) p h =
    let rest = drives-drivers tasks i p h in omega (arith, rest)

-- A step passes the flag on together with the drive.
task_step-drives :
    (running : Bool) (p : DriverPhase) (look : Look)
    → drives p ≤ flagged running
    → driving (task_step running p look).1 + flagged running
      ≡ flagged (task_step running p look).0 + drives p
unfolding task_step driving flagged
task_step-drives true gating look h = elim (Bool-cases look.stays_off) [
  | inl e ↦ rw e refl
  | inr e ↦ rw e refl
]
task_step-drives false gating look h = absurd (omega (arith, h))
task_step-drives true stopping look h = refl
task_step-drives false stopping look h = absurd (omega (arith, h))
task_step-drives true acting look h = elim (Bool-cases look.has_acted) [
  | inl e ↦ rw e refl
  | inr e ↦ rw e refl
]
task_step-drives false acting look h = absurd (omega (arith, h))
task_step-drives true clearing look h = refl
task_step-drives false clearing look h = absurd (omega (arith, h))
task_step-drives true rechecking look h = elim (Bool-cases look.turn_pending) [
  | inl e ↦ rw e refl
  | inr e ↦ rw e refl
]
task_step-drives false rechecking look h = elim (Bool-cases look.turn_pending) [
  | inl e ↦ rw e refl
  | inr e ↦ rw e refl
]
task_step-drives true retaking look h = refl
task_step-drives false retaking look h = refl

kick_driver-IsExclusive : (d : Driver) → IsExclusive d → IsExclusive (kick_driver d)
unfolding kick_driver IsExclusive drivers flagged
kick_driver-IsExclusive d h = elim (Bool-cases d.running) [
  | inl e ↦
      let same : kick_driver d ≡ d = rw (kick_driver, e) refl in subst IsExclusive (sym same) h
  | inr e ↦
      let quiet : drivers d.tasks ≡ 0 = rw e at h in
      let woken : kick_driver d ≡ record { running = true; tasks = gating ∷ d.tasks } =
        rw (kick_driver, e) refl in
      subst IsExclusive (sym woken) (omega (arith, quiet))
]

run_task-IsExclusive :
    (d : Driver) (i : ℕ) (look : Look) → IsExclusive d → IsExclusive (run_task d i look)
unfolding run_task IsExclusive
run_task-IsExclusive d i look h = elim (Option-cases (get_elem? d.tasks i)) [
  | inl e ↦ rw (run_task, e) h
  | inr (p, e) ↦
      let own = drives-drivers d.tasks i p e in
      let put = put_task-drivers d.tasks i p (task_step d.running p look).1 e in
      let passed = task_step-drives d.running p look (omega (arith, own, h)) in
      rw (run_task, e) (omega (arith, put, passed, h))
]

-- However kicks and the steps of the tasks follow one another, exactly one task drives the bots while the
-- flag is set, and none while it is not.
pub DriverReach-IsExclusive : (d : Driver) → DriverReach d → IsExclusive d
unfolding IsExclusive drivers flagged
DriverReach-IsExclusive d idle = refl
DriverReach-IsExclusive d (kicked {d = before} run) =
    kick_driver-IsExclusive before (DriverReach-IsExclusive before run)
DriverReach-IsExclusive d (stepped {d = before} i look run) =
    run_task-IsExclusive before i look (DriverReach-IsExclusive before run)
