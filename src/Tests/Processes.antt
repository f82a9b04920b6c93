-- ===== src/Tests/Processes.antt =====
-- The scheduler of assignment3/schedule.c at concrete inputs.
use operating_systems_assign.Base.{
  List, Option, none, ℕ, ◌≡◌, ◌≢◌, refl, true, [], ◌∷◌, some, ◌==◌, if◌then◌else◌, arith,
}
use operating_systems_assign.Base.{false}
use operating_systems_assign.Base.Arrays.{update}
use operating_systems_assign.Sched.Context.{
  ProcessState, unused, ready, running, waiting, Regs, Context, Kernel, set_ctx, Run, returns,
  shutdown,
}
use operating_systems_assign.Sched.Pick.{timer, Choice, pick_next_context}
use operating_systems_assign.Sched.Pick.Rotation.{IsOther, Picks, pick_next_context-Picks}
use operating_systems_assign.Sched.Calls.{do_sleep, do_signal, do_alarm}
use operating_systems_assign.Sched.Calls.Clone.{name_chars, digits, clone_name, do_clone}
use operating_systems_assign.Sched.Calls.Clone.Digits.{Spells, digits-Spells}
use operating_systems_assign.Sched.Calls.Clone.Named.{IsNamed, do_clone-IsNamed}
use operating_systems_assign.Sched.Tick.{
  handle_timer_tick, tick_alarm, reschedule, tick_sleepers, count_down, switch_to,
}
use operating_systems_assign.Sched.Tick.Effect.{offered, Ticks, handle_timer_tick-Ticks}
use operating_systems_assign.Sched.Tick.RoundRobin.{
  IsSound, Visits, ready_visited, handle_timer_tick-IsSound,
}
use operating_systems_assign.Sched.Tick.Sleepers.{run_ticks, is_awake}
use operating_systems_assign.Sched.Running.{ticks, here, step, sets_alarm, registers, Steps-IsSound}
use operating_systems_assign.Sched.Sleeping.{do_sleep-wakes, do_sleep-zero}

abbrev some_regs : Regs
some_regs = record {
  r15 = 15;
  r14 = 14;
  r13 = 13;
  r12 = 12;
  r11 = 11;
  r10 = 10;
  r9 = 9;
  r8 = 8;
  rbp = 7;
  rdi = 6;
  rsi = 5;
  rdx = 4;
  rcx = 3;
  rbx = 2;
  rax = 1;
  entry_rip = 4096;
  entry_cs = 0x23;
  entry_rflags = 0x200;
  entry_rsp = 8192;
  entry_ss = 0x2b;
}

abbrev context_in : ℕ → ProcessState → Context
context_in n st = record {
  pid = n;
  kind = 1;
  state = st;
  used_mem = 0;
  pgd = 100;
  os_stack_pfn = 200;
  os_rsp = 0;
  mms = λ _. record { start = 0; end_address = 0; next_free = 0; access_flags = 0 };
  name = λ _. 0;
  regs = some_regs;
  pending_signal_bitmap = 0;
  sighandlers = λ _. 0;
  ticks_to_sleep = if n == 1 then 2 else 0;
  alarm_config_time = 0;
  ticks_to_alarm = 0;
}

-- The swapper and processes 3 and 4 are READY, process 2 runs and process 1 sleeps.
abbrev state_of : ℕ → ProcessState
state_of n =
    if n == 0
    then ready
    else if n == 1
    then waiting
    else if n == 2
    then running
    else if n == 3
    then ready
    else if n == 4
    then ready
    else unused

abbrev five : Kernel
five = record {
  ctx = λ n. context_in n (state_of n);
  current = 2;
  memory = λ _. 0;
  freed = [];
  numticks = 0;
}

one_runs : (m : ℕ) → m ≢ 2 → state_of m ≢ running
one_runs m ne e = ground arith

five-IsSound : IsSound five
five-IsSound = record { in_range = omega arith; runs = refl; alone = λ m lt. one_runs m }

fourth-IsOther : IsOther 2 4
fourth-IsOther = record {
  positive = omega arith;
  in_range = omega arith;
  other = λ e. absurd (omega (arith, e));
}

ready_visited_example : Visits 4 five (some_regs ∷ some_regs ∷ [])
ready_visited_example =
    ready_visited 4 (some_regs ∷ some_regs ∷ []) five five-IsSound fourth-IsOther refl (omega arith)

pick_next_context-Picks_example : Picks timer 2 state_of (pick_next_context timer 2 state_of)
pick_next_context-Picks_example = pick_next_context-Picks timer 2 state_of (omega arith)

handle_timer_tick-Ticks_example :
    (c : Choice) × Picks timer 2 (offered five) c × Ticks five c (handle_timer_tick some_regs five)
handle_timer_tick-Ticks_example = handle_timer_tick-Ticks some_regs five (omega arith)

abbrev kernel_after : Run → Kernel
kernel_after shutdown = five
kernel_after (returns k r) = k

abbrev regs_after : Run → Regs
regs_after shutdown = some_regs
regs_after (returns k r) = r

abbrev ticked : Kernel
ticked = kernel_after (handle_timer_tick some_regs five)

five_ticks :
    handle_timer_tick some_regs five
    ≡ returns ticked (regs_after (handle_timer_tick some_regs five))
unfolding handle_timer_tick tick_alarm reschedule tick_sleepers count_down pick_next_context
    switch_to
five_ticks = refl

-- A tick, then an alarm is set and a handler is registered.
abbrev registered : Kernel
registered =
    let k = do_alarm 3 ticked in
    set_ctx 3 (record (k.ctx 3) { sighandlers = update (k.ctx 3).sighandlers 2 4096 }) k

registered_runs : do_signal 2 4096 (do_alarm 3 ticked) ≡ some registered
unfolding do_signal do_alarm handle_timer_tick tick_alarm reschedule tick_sleepers count_down
    pick_next_context switch_to
registered_runs = refl

Steps-IsSound_example : IsSound registered
Steps-IsSound_example =
    Steps-IsSound five registered
      (step (ticks some_regs _ five_ticks)
        (step (sets_alarm 3) (step (registers 2 4096 registered_runs) here)))
      five-IsSound

handle_timer_tick-IsSound_example : IsSound ticked
handle_timer_tick-IsSound_example =
    handle_timer_tick-IsSound some_regs five ticked _ five-IsSound five_ticks

tick_runs_third : ticked.current ≡ 3
unfolding handle_timer_tick tick_alarm reschedule tick_sleepers count_down pick_next_context
    switch_to
tick_runs_third = refl

do_sleep-wakes_example :
    (s : Kernel) × (r' : Regs) × (do_sleep 2 five ≡ returns s r')
    × ((t u : Kernel) × (run_ticks (some_regs ∷ []) s ≡ some t)
        × ((t.ctx 2).state ≡ waiting)
        × ((r'' : Regs) × (handle_timer_tick some_regs t ≡ returns u r''))
        × (is_awake (u.ctx 2).state ≡ true))
do_sleep-wakes_example = do_sleep-wakes some_regs (some_regs ∷ []) five (omega arith) (omega arith)

do_sleep-zero_example :
    (s : Kernel) × (r : Regs) × (do_sleep 0 five ≡ returns s r)
    × ((t : Kernel) × (run_ticks (some_regs ∷ []) s ≡ some t) × ((t.ctx 2).state ≡ waiting))
do_sleep-zero_example = do_sleep-zero (some_regs ∷ []) five (omega arith) (omega arith)

-- Init is called `i`, and process 3 is made anew.
abbrev with_name : Kernel
with_name = set_ctx 1 (record (five.ctx 1) { name = λ i. if i == 0 then b'i' else 0 }) five

abbrev cloned : Option Kernel → Kernel
cloned none = five
cloned (some k) = k

clone_runs :
    do_clone 4096 8192 3 300 (λ _. 7) with_name
    ≡ some (cloned (do_clone 4096 8192 3 300 (λ _. 7) with_name))
unfolding do_clone clone_name name_chars digits
clone_runs = refl

do_clone-IsNamed_example :
    (base ds : List ℕ) × IsNamed
      (with_name.ctx 1)
      3
      ((cloned (do_clone 4096 8192 3 300 (λ _. 7) with_name)).ctx 3).name
      base
      ds
do_clone-IsNamed_example =
    do_clone-IsNamed 4096 8192 3 300 (λ _. 7) with_name
      (cloned (do_clone 4096 8192 3 300 (λ _. 7) with_name)) (omega arith) clone_runs

digits-Spells_example : Spells 4096 10 (digits false 5000 4096 [])
digits-Spells_example = digits-Spells 5000 4096 (omega arith) (omega arith)
