-- ===== src/Sched/Sleeping.antt =====
-- assignment3/schedule.c: from `do_sleep` to the timer ticks that follow.
use operating_systems_assign.Base.{ℕ, ◌≤◌, ◌<◌, ◌≡◌, ◌≢◌, refl, true, List, ◌∷◌, some, arith}
use operating_systems_assign.Sched.Context.{
  max_processes, ProcessState, running, waiting, Regs, Kernel, returns, set_ctx, set_state,
}
use operating_systems_assign.Sched.Pick.{sleeping, Choice, next, fall_back}
use operating_systems_assign.Sched.Pick.Rotation.{Picks, picks, falls_back, pick_next_context-Picks}
use operating_systems_assign.Sched.Calls.{states, run_next, sleep_regs, do_sleep}
use operating_systems_assign.Sched.Tick.{handle_timer_tick}
use operating_systems_assign.Sched.Tick.RoundRobin.{length}
use operating_systems_assign.Sched.Tick.Sleepers.{
  Sleeps, run_ticks, is_awake, run_ticks-waiting, sleeper_wakes,
}

somebody_runs :
    (current : ℕ) (state : ℕ → ProcessState) (c : Choice)
    → 1 ≤ current
    → Picks sleeping current state c
    → (q : ℕ) × (c ≡ next q) × (q < max_processes) × (current ≢ q)
unfolding fall_back
somebody_runs current state c pos (picks q o at nearer e) =
    (q, e, o.in_range, λ same. o.other (ground arith))
somebody_runs current state c pos (falls_back w nobody waits quiet e) =
    (0, e, omega arith, λ same. absurd (omega (arith, same)))

run_next-Sleeps :
    (k : Kernel) (m n q : ℕ) (c : Choice)
    → c ≡ next q
    → q < max_processes
    → m ≢ q
    → 1 ≤ m
    → m < max_processes
    → (k.ctx m).state ≡ waiting
    → (k.ctx m).ticks_to_sleep ≡ n
    → (t : Kernel) × (r : Regs) × (run_next k c ≡ returns t r) × Sleeps m n t
unfolding run_next
run_next-Sleeps k m n q c e q_lt other pos lt at left =
    let t = record (set_state q running k) { current = q } in
    (
      t,
      (t.ctx q).regs,
      rw e refl,
      record {
        in_range = q_lt;
        other = record { positive = pos; in_range = lt; other = other };
        state = ground arith;
        left = ground arith;
      },
    )

-- `do_sleep(n)` in a process other than the swapper puts that process to sleep with `n` ticks to
-- go, and returns to another process.
pub do_sleep-Sleeps :
    (n : ℕ) (k : Kernel)
    → 1 ≤ k.current
    → k.current < max_processes
    → (t : Kernel) × (r : Regs) × (do_sleep n k ≡ returns t r) × Sleeps k.current n t
unfolding do_sleep
do_sleep-Sleeps n k pos lt =
    let c = k.ctx k.current in
    let asleep = record c { ticks_to_sleep = n; state = waiting; regs = sleep_regs k.memory c } in
    let k' = set_ctx k.current asleep k in
    let (q, e, q_lt, other) =
      somebody_runs k.current (states k') _ pos
        (pick_next_context-Picks sleeping k.current (states k') lt) in
    run_next-Sleeps k' k.current n q _ e q_lt other pos lt (ground arith) (ground arith)

-- A process with a pid from 1 to 15 that calls `do_sleep(n)` with `n` at least 1 waits through the
-- first `n - 1` timer ticks after it, and is READY or RUNNING after the `n`-th.
pub do_sleep-wakes :
    (r : Regs) (rs : List Regs) (k : Kernel)
    → 1 ≤ k.current
    → k.current < max_processes
    → (s : Kernel) × (r' : Regs) × (do_sleep (length (r ∷ rs)) k ≡ returns s r')
      × ((t u : Kernel) × (run_ticks rs s ≡ some t)
          × ((t.ctx k.current).state ≡ waiting)
          × ((r'' : Regs) × (handle_timer_tick r t ≡ returns u r''))
          × (is_awake (u.ctx k.current).state ≡ true))
do_sleep-wakes r rs k pos lt =
    let (s, r', e, asleep) = do_sleep-Sleeps (length (r ∷ rs)) k pos lt in
    (s, r', e, sleeper_wakes r rs s k.current asleep)

-- A process with a pid from 1 to 15 that calls `do_sleep(0)` is never woken: after any number of
-- timer ticks it still waits.
pub do_sleep-zero :
    (rs : List Regs) (k : Kernel)
    → 1 ≤ k.current
    → k.current < max_processes
    → (s : Kernel) × (r : Regs) × (do_sleep 0 k ≡ returns s r)
      × ((t : Kernel) × (run_ticks rs s ≡ some t) × ((t.ctx k.current).state ≡ waiting))
do_sleep-zero rs k pos lt =
    let (s, r, e, asleep) = do_sleep-Sleeps 0 k pos lt in
    (s, r, e, run_ticks-waiting rs s k.current asleep)
