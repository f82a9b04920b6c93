-- ===== src/Sched/Calls.antt =====
-- assignment3/schedule.c: `do_exit`, `do_sleep`, `do_signal` and `do_alarm`.
pub mod Clone
use operating_systems_assign.Base.{ℕ, ◌+◌, ◌-◌, ◌*◌, ◌∷◌, Option, none, some, ltb, if◌then◌else◌}
use operating_systems_assign.Base.Arrays.{update}
use operating_systems_assign.Sched.Context.{
  max_signals, ProcessState, unused, running, waiting, Regs, Context, Kernel, Run, returns,
  shutdown, set_ctx, set_state,
}
use operating_systems_assign.Sched.Pick.{
  Reason, sleeping, do_exit, Choice, next, cleanup, pick_next_context,
}

-- `OS_PT_REG`
abbrev pub os_pt_reg : ℕ
os_pt_reg = 1

abbrev pub states : Kernel → ℕ → ProcessState
states k i = (k.ctx i).state

-- `new->state = RUNNING; … set_current_ctx(new);` and the load of its registers
unfoldable pub run_next : Kernel → Choice → Run
run_next k cleanup = shutdown
run_next k (next q) =
    let t = record (set_state q running k) { current = q } in returns t (t.ctx q).regs

-- `os_pfn_free(OS_PT_REG,current->os_stack_pfn);`
abbrev pub free_os_stack : ℕ → Run → Run
free_os_stack cur shutdown = shutdown
free_os_stack cur (returns k r) =
    returns (record k { freed = (os_pt_reg, (k.ctx cur).os_stack_pfn) ∷ k.freed }) r

unfoldable pub exit_process : Kernel → Run
unfolding run_next
exit_process k =
    let k' = set_state k.current unused k in
    free_os_stack k.current (run_next k' (pick_next_context do_exit k.current (states k')))

-- The top word of the context's OS stack: `(((u64)current->os_stack_pfn+1)<<12)-8`.
abbrev pub stack_top : Context → ℕ
stack_top c = (c.os_stack_pfn + 1) * 4096 - 8

-- The registers that `do_sleep` takes from the OS stack; the others keep their last saved values.
abbrev pub sleep_regs : (ℕ → ℕ) → Context → Regs
sleep_regs memory c = record (c.regs) {
  rbp = memory (stack_top c - 80);
  entry_rip = memory (stack_top c - 32);
  entry_rflags = memory (stack_top c - 16);
  entry_rsp = memory (stack_top c - 8);
  entry_cs = 0x23;
  entry_ss = 0x2b;
}

unfoldable pub do_sleep : ℕ → Kernel → Run
unfolding run_next
do_sleep ticks k =
    let c = k.ctx k.current in
    let asleep = record c {
      ticks_to_sleep = ticks;
      state = waiting;
      regs = sleep_regs k.memory c;
    } in
    let k' = set_ctx k.current asleep k in
    run_next k' (pick_next_context sleeping k.current (states k'))

-- None where `signo` is out of the array, which the source does not test.
unfoldable pub do_signal : ℕ → ℕ → Kernel → Option Kernel
do_signal signo handler k =
    let c = k.ctx k.current in
    if ltb signo max_signals
    then some (set_ctx k.current (record c { sighandlers = update c.sighandlers signo handler }) k)
    else none

unfoldable pub do_alarm : ℕ → Kernel → Kernel
do_alarm ticks k =
    let c = k.ctx k.current in
    set_ctx k.current (record c { ticks_to_alarm = ticks; alarm_config_time = ticks }) k
