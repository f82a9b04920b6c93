-- ===== src/Sched/Signal.antt =====
-- assignment3/schedule.c: `invoke_sync_signal`.
use operating_systems_assign.Base.{ℕ, ◌+◌, ◌-◌, ◌%◌, ◌^◌, ◌==◌, if◌then◌else◌}
use operating_systems_assign.Base.Arrays.{update}
use operating_systems_assign.Sched.Context.{sigalrm, Kernel, Run}
use operating_systems_assign.Sched.Calls.{exit_process}

-- What becomes of the interrupted user code: it goes on with this stack pointer and instruction
-- pointer, or the process has exited.
pub data Delivery : Type 0 where
  resumes : Kernel → (ustackp urip : ℕ) → Delivery
  exits : Run → Delivery

-- `*a = *a - 1` on a pointer to 64-bit words
abbrev pub push_address : ℕ → ℕ
push_address ustackp = (ustackp + 2 ^ 64 - 8) % 2 ^ 64

-- `signo` is one of the three signals: the callers pass their names.
unfoldable pub invoke_sync_signal : ℕ → ℕ → ℕ → Kernel → Delivery
invoke_sync_signal signo ustackp urip k =
    let handler = (k.ctx k.current).sighandlers signo in
    if handler == 0
    then (if signo == sigalrm then resumes k ustackp urip else exits (exit_process k))
    else resumes (record k { memory = update k.memory (push_address ustackp) urip })
        (push_address ustackp) handler
