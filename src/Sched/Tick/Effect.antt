-- ===== src/Sched/Tick/Effect.antt =====
-- What one call of `handle_timer_tick` of assignment3/schedule.c does to every process.
use operating_systems_assign.Base.{
  ℕ, ◌+◌, ◌-◌, ◌<◌, ◌≡◌, refl, ◌∙◌, inl, inr, ◌==◌, Bool-cases, if◌then◌else◌, arith,
}
use mathlib.Core.Path.{subst}
use operating_systems_assign.Sched.Context.{
  max_processes, ProcessState, ready, running, Regs, Kernel, Run, returns, shutdown, set_state,
}
use operating_systems_assign.Sched.Pick.{timer, Choice, next, cleanup, pick_next_context}
use operating_systems_assign.Sched.Pick.Rotation.{Picks, Picks-same, pick_next_context-Picks}
use operating_systems_assign.Sched.Calls.{states}
use operating_systems_assign.Sched.Tick.{
  count_down, tick_sleepers, switch_to, reschedule, handle_timer_tick,
}
use operating_systems_assign.Sched.Tick.Alarm.{
  KeepsProcesses, tick_alarm-resumes, tick_sleepers_lem,
}

-- The state of process `m` once the sleepers have been counted down and the current process made
-- READY: what `pick_next_context` sees.
abbrev pub offered : Kernel → ℕ → ProcessState
offered k m =
    if m == k.current
    then ready
    else if (k.ctx m).ticks_to_sleep == 1
    then ready
    else (k.ctx m).state

-- The tick has brought process `q` to run.
pub record Ticked (k : Kernel) (q : ℕ) (t : Kernel) : Type 0 where
  pub current : t.current ≡ q
  pub state :
      (m : ℕ) → m < max_processes → (t.ctx m).state ≡ (if m == q then running else offered k m)
  pub sleep : (m : ℕ) → m < max_processes → (t.ctx m).ticks_to_sleep ≡ (k.ctx m).ticks_to_sleep - 1

-- What a run of the handler comes to, by the choice of the next process.
pub data Ticks (k : Kernel) : Choice → Run → Type 0 where
  ticks :
      {t : Kernel} {r : Regs} {c : Choice} (q : ℕ)
      → c ≡ next q
      → Ticked k q t
      → Ticks k c (returns t r)
  halts : {c : Choice} → c ≡ cleanup → Ticks k c shutdown

woken_lem :
    (k : Kernel) (m : ℕ)
    → m < max_processes
    → let c = tick_sleepers max_processes 0 k.ctx m in
      (c.ticks_to_sleep ≡ (k.ctx m).ticks_to_sleep - 1)
      × (c.state ≡ (if (k.ctx m).ticks_to_sleep == 1 then ready else (k.ctx m).state))
unfolding count_down
woken_lem k m lt = rw (tick_sleepers_lem max_processes 0 k.ctx m) (ground arith)

-- The kernel that `pick_next_context` and the switch meet.
abbrev rested : Kernel → Kernel
rested k = set_state k.current ready (record k { ctx = tick_sleepers max_processes 0 k.ctx })

rested-offered : (k : Kernel) (m : ℕ) → m < max_processes → states (rested k) m ≡ offered k m
rested-offered k m lt = ground (arith, woken_lem k m lt)

rested-sleep :
    (k : Kernel) (m : ℕ)
    → m < max_processes
    → ((rested k).ctx m).ticks_to_sleep ≡ (k.ctx m).ticks_to_sleep - 1
rested-sleep k m lt = ground (arith, woken_lem k m lt)

switch_to-Ticks : (r : Regs) (k : Kernel) (c : Choice) → Ticks k c (switch_to r (rested k) c)
unfolding switch_to
switch_to-Ticks r k cleanup = halts refl
switch_to-Ticks r k (next q) = elim (Bool-cases (q == k.current)) [
  | inl stays ↦ rw stays (
      ticks q refl (record {
        current = ground arith;
        state = λ m lt. ground (arith, rested-offered k m lt);
        sleep = λ m lt. ground (arith, rested-sleep k m lt);
      }))
  | inr switches ↦ rw switches (
      ticks q refl (record {
        current = refl;
        state = λ m lt. ground (arith, rested-offered k m lt);
        sleep = λ m lt. ground (arith, rested-sleep k m lt);
      }))
]

offered-kept : (k t : Kernel) (m : ℕ) → KeepsProcesses k t → offered t m ≡ offered k m
offered-kept k t m same = ground (arith, same.state m, same.sleep m, same.current)

Ticked-kept : (k t : Kernel) (q : ℕ) (u : Kernel) → KeepsProcesses k t → Ticked t q u → Ticked k q u
Ticked-kept k t q u same done = record {
  current = done.current;
  state = λ m lt. ground (arith, done.state m lt, offered-kept k t m same);
  sleep = λ m lt. ground (arith, done.sleep m lt, same.sleep m);
}

Ticks-kept :
    (k t : Kernel) (c : Choice) (run : Run) → KeepsProcesses k t → Ticks t c run → Ticks k c run
Ticks-kept k t c run same (ticks {t = u} q e done) = ticks q e (Ticked-kept k t q u same done)
Ticks-kept k t c run same (halts e) = halts e

Picks-offered :
    (k t : Kernel) (c : Choice)
    → KeepsProcesses k t
    → Picks timer t.current (states (rested t)) c
    → Picks timer k.current (offered k) c
Picks-offered k t c same p =
    Picks-same timer (offered k) (λ m lt. rested-offered t m lt ∙ offered-kept k t m same)
      (subst (λ n. Picks timer n (states (rested t)) c) same.current p)

-- With a current pid below 16, a timer tick makes the current process READY and wakes the sleepers
-- whose time has come; then it runs the READY process that is nearest behind the current one, the
-- current one if there is none, and shuts the machine down if the swapper is left alone and nobody
-- waits. Every other process keeps its state, and every sleeper has one tick less to go.
pub handle_timer_tick-Ticks :
    (r : Regs) (k : Kernel)
    → k.current < max_processes
    → (c : Choice) × Picks timer k.current (offered k) c × Ticks k c (handle_timer_tick r k)
unfolding handle_timer_tick reschedule
handle_timer_tick-Ticks r k lt =
    let k' = record k { numticks = k.numticks + 1 } in
    let (t, u, i, e, same) = tick_alarm-resumes r.entry_rsp r.entry_rip k' in
    let c = pick_next_context timer t.current (states (rested t)) in
    let kept : KeepsProcesses k t = record {
      current = same.current;
      state = same.state;
      sleep = same.sleep;
    } in
    (
      c,
      Picks-offered k t c kept
          (pick_next_context-Picks timer t.current (states (rested t)) (rw kept.current lt)),
      rw e (
          Ticks-kept k t c _ kept
            (switch_to-Ticks (record r { entry_rip = i; entry_rsp = u }) t c)),
    )
