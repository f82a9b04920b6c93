-- ===== src/Sched/Calls/Clone.antt =====
-- assignment3/schedule.c: `do_clone`. The context that `get_new_ctx` gives and the page that
-- `os_pfn_alloc` gives are parameters.
pub mod Digits
pub mod Named
use operating_systems_assign.Base.{
  ℕ, zero, suc, ◌+◌, ◌-◌, ◌/◌, ◌%◌, List, [], ◌∷◌, ◌++◌, Option, none, some, ◌==◌, leb, ltb, ◌^◌,
  Bool, true, false, if◌then◌else◌,
}
use operating_systems_assign.ObjStore.Store.{length}
use operating_systems_assign.Sched.Context.{ready, Context, Kernel, set_ctx}
use operating_systems_assign.Sched.Calls.{stack_top}

-- `CNAME_MAX`
abbrev pub cname_max : ℕ
cname_max = 64

infixl 5 ◌>>=◌
abbrev ◌>>=◌ {ℓ κ} : {A : Type ℓ} {B : Type κ} → Option A → (A → Option B) → Option B
none >>= f = none
some a >>= f = f a

-- The characters of the name from `i` on, before the zero byte, with the bytes left; none where
-- the array ends first.
unfoldable pub name_chars : ℕ → ℕ → (ℕ → ℕ) → Option (List ℕ)
name_chars zero i name = none
name_chars (suc n) i name =
    let rest = name_chars n (i + 1) name in
    if name i == 0 then some [] else rest >>= λ cs. some (name i ∷ cs)

-- `str`: the decimal digits of the pid, none for 0. A number has fewer digits than its value.
-- The pid is an `int` there: of a negative one the remainders are negative, too.
abbrev pub digit : Bool → ℕ → ℕ
digit false rem = rem + b'0'
digit true rem = b'0' - rem

unfoldable pub digits : Bool → ℕ → ℕ → List ℕ → List ℕ
digits negative zero n cs = cs
digits negative (suc fuel) n cs =
    let rest = digits negative fuel (n / 10) (digit negative (n % 10) ∷ cs) in
    if n == 0 then cs else rest

-- `n = new->pid;`, where pids from 2 ^ 31 on become negative.
abbrev pub int_digits : ℕ → List ℕ
int_digits pid =
    if ltb pid (2 ^ 31)
    then digits false pid pid []
    else digits true (2 ^ 32 - pid) (2 ^ 32 - pid) []

-- The bytes of `temp` from 0 on, which hold what they held before behind the text.
abbrev pub text_over : List ℕ → (ℕ → ℕ) → ℕ → ℕ
text_over [] junk i = junk i
text_over (c ∷ cs) junk zero = c
text_over (c ∷ cs) junk (suc i) = text_over cs (λ j. junk (suc j)) i

-- The name of the new process: the name of init, the pid, a zero byte, then what the array
-- `temp` held (`junk`). None where `temp` is too short, which the source does not test.
unfoldable pub clone_name : Context → ℕ → (ℕ → ℕ) → Option (ℕ → ℕ)
unfolding name_chars digits
clone_name init pid junk = name_chars cname_max 0 init.name >>= λ cs.
    (let text = cs ++ int_digits pid ++ (0 ∷ []) in
      if leb (length text) cname_max then some (text_over text junk) else none)

-- What the source sets of the new context, besides the name.
abbrev pub clone_of : ℕ → ℕ → ℕ → (ℕ → ℕ) → Context → Context → Context
clone_of th_func user_stack os_pfn memory init new = record new {
  kind = init.kind;
  state = ready;
  used_mem = init.used_mem;
  pgd = init.pgd;
  os_stack_pfn = os_pfn;
  os_rsp = init.os_rsp;
  ticks_to_alarm = 0;
  ticks_to_sleep = 0;
  pending_signal_bitmap = 0;
  sighandlers = init.sighandlers;
  mms = init.mms;
  regs = record (init.regs) {
    entry_cs = 0x23;
    entry_ss = 0x2b;
    entry_rip = th_func;
    entry_rsp = user_stack;
    rbp = user_stack;
    entry_rflags = memory (stack_top init - 16);
  };
  alarm_config_time = 0;
}

unfoldable pub do_clone : ℕ → ℕ → ℕ → ℕ → (ℕ → ℕ) → Kernel → Option Kernel
unfolding clone_name
do_clone th_func user_stack new_pid os_pfn junk k =
    let init = k.ctx 1 in
    let new = k.ctx new_pid in
    clone_name init new.pid junk >>= λ name. some (
      set_ctx new_pid
        (record (clone_of th_func user_stack os_pfn k.memory init new) { name = name }) k)
