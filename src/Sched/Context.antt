-- ===== src/Sched/Context.antt =====
-- assignment3/include/context.h and schedule.h: `struct exec_context`, and the state that the
-- functions of schedule.c share.
use operating_systems_assign.Base.{ℕ, Bool, true, false, List}
use operating_systems_assign.Base.Arrays.{update}

-- `MAX_PROCESSES`
abbrev pub max_processes : ℕ
max_processes = 16

-- `enum process_state`
pub data ProcessState : Type 0 where
  unused new ready running waiting exiting : ProcessState

abbrev pub is_ready : ProcessState → Bool
is_ready ready = true
is_ready _ = false

abbrev pub is_waiting : ProcessState → Bool
is_waiting waiting = true
is_waiting _ = false

-- `enum signals`
abbrev pub sigsegv : ℕ
sigsegv = 0

abbrev pub sigfpe : ℕ
sigfpe = 1

abbrev pub sigalrm : ℕ
sigalrm = 2

abbrev pub max_signals : ℕ
max_signals = 3

-- `struct user_regs`
pub record Regs : Type 0 where
  pub r15 : ℕ
  pub r14 : ℕ
  pub r13 : ℕ
  pub r12 : ℕ
  pub r11 : ℕ
  pub r10 : ℕ
  pub r9 : ℕ
  pub r8 : ℕ
  pub rbp : ℕ
  pub rdi : ℕ
  pub rsi : ℕ
  pub rdx : ℕ
  pub rcx : ℕ
  pub rbx : ℕ
  pub rax : ℕ
  pub entry_rip : ℕ
  pub entry_cs : ℕ
  pub entry_rflags : ℕ
  pub entry_rsp : ℕ
  pub entry_ss : ℕ

-- `struct mm_segment`; `end` is reserved.
pub record Segment : Type 0 where
  pub start : ℕ
  pub end_address : ℕ
  pub next_free : ℕ
  pub access_flags : ℕ

-- `struct exec_context`; a null handler is 0.
pub record Context : Type 0 where
  pub pid : ℕ
  pub kind : ℕ
  pub state : ProcessState
  pub used_mem : ℕ
  pub pgd : ℕ
  pub os_stack_pfn : ℕ
  pub os_rsp : ℕ
  pub mms : ℕ → Segment
  pub name : ℕ → ℕ
  pub regs : Regs
  pub pending_signal_bitmap : ℕ
  pub sighandlers : ℕ → ℕ
  pub ticks_to_sleep : ℕ
  pub alarm_config_time : ℕ
  pub ticks_to_alarm : ℕ

-- The list of contexts by pid, the pid of the current one, the 64-bit words of memory, the pages
-- given back by `os_pfn_free`, and `numticks`.
pub record Kernel : Type 0 where
  pub ctx : ℕ → Context
  pub current : ℕ
  pub memory : ℕ → ℕ
  pub freed : List (ℕ × ℕ)
  pub numticks : ℕ

-- What a handler comes to: it returns to user mode with these registers, or `do_cleanup` has
-- shut the machine down.
pub data Run : Type 0 where
  returns : Kernel → Regs → Run
  shutdown : Run

abbrev pub set_ctx : ℕ → Context → Kernel → Kernel
set_ctx i c k = record k { ctx = update k.ctx i c }

abbrev pub set_state : ℕ → ProcessState → Kernel → Kernel
set_state i st k = set_ctx i (record (k.ctx i) { state = st }) k
