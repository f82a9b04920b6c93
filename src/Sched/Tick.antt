-- ===== src/Sched/Tick.antt =====
-- assignment3/schedule.c: `handle_timer_tick`. The interrupted code's registers stand on the
-- interrupt stack: six words from the frame at `rbp` up, and fourteen that the handler pushes.
pub mod Alarm
pub mod Effect
pub mod RoundRobin
pub mod Sleepers
use operating_systems_assign.Base.{ℕ, zero, suc, ◌+◌, ◌-◌, List, [], ◌∷◌, ◌==◌, ltb, if◌then◌else◌}
use operating_systems_assign.Base.Arrays.{update}
use operating_systems_assign.Sched.Context.{
  max_processes, ProcessState, ready, running, sigalrm, Regs, Context, Kernel, Run, returns,
  shutdown, set_ctx, set_state,
}
use operating_systems_assign.Sched.Pick.{timer, Choice, next, cleanup, pick_next_context}
use operating_systems_assign.Sched.Calls.{states}
use operating_systems_assign.Sched.Signal.{Delivery, resumes, exits, invoke_sync_signal}

-- Word `i` from the top of the stack, `8 * i (%save_rsp)` or `8 * i (%rbp)`.
abbrev pub word : List ℕ → ℕ → ℕ
word [] i = 0
word (w ∷ ws) zero = w
word (w ∷ ws) (suc i) = word ws i

-- `push %r8; … push %rsi;`, the top of the stack first
abbrev push_all : List ℕ → List ℕ → List ℕ
push_all [] stack = stack
push_all (r ∷ rs) stack = push_all rs (r ∷ stack)

abbrev pub pushed : Regs → List ℕ
pushed r =
    push_all
      (r.r8 ∷ r.r9 ∷ r.r10 ∷ r.r11 ∷ r.r12 ∷ r.r13 ∷ r.r14 ∷ r.r15 ∷ r.rax ∷ r.rbx ∷ r.rcx ∷ r.rdx
        ∷ r.rdi ∷ r.rsi ∷ [])
      []

-- `(%rbp)`, and what the interrupt put above it
abbrev pub frame : Regs → List ℕ
frame r = r.rbp ∷ r.entry_rip ∷ r.entry_cs ∷ r.entry_rflags ∷ r.entry_rsp ∷ r.entry_ss ∷ []

-- "SAVING THE CURRENT CONTEXT": the words of the stack, by their offsets.
unfoldable pub saved : List ℕ → List ℕ → Regs
saved stack rbp_words = record {
  rsi = word stack 0;
  rdi = word stack 1;
  rdx = word stack 2;
  rcx = word stack 3;
  rbx = word stack 4;
  rax = word stack 5;
  r15 = word stack 6;
  r14 = word stack 7;
  r13 = word stack 8;
  r12 = word stack 9;
  r11 = word stack 10;
  r10 = word stack 11;
  r9 = word stack 12;
  r8 = word stack 13;
  entry_ss = word rbp_words 5;
  entry_rsp = word rbp_words 4;
  entry_rflags = word rbp_words 3;
  entry_cs = word rbp_words 2;
  entry_rip = word rbp_words 1;
  rbp = word rbp_words 0;
}

-- `ticks_to_alarm` of the init process, and the signal when it has run out.
unfoldable pub tick_alarm : ℕ → ℕ → Kernel → Delivery
tick_alarm ustackp urip k =
    let init = k.ctx 1 in
    if init.ticks_to_alarm == 0
    then resumes k ustackp urip
    else if init.ticks_to_alarm - 1 == 0
    then invoke_sync_signal sigalrm ustackp urip
        (set_ctx 1 (record init { ticks_to_alarm = init.alarm_config_time }) k)
    else resumes (set_ctx 1 (record init { ticks_to_alarm = init.ticks_to_alarm - 1 }) k) ustackp
        urip

-- One round of the loop over the sleeping processes.
unfoldable pub count_down : Context → Context
count_down c = if c.ticks_to_sleep == 0 then c else record c {
  ticks_to_sleep = c.ticks_to_sleep - 1;
  state = if c.ticks_to_sleep - 1 == 0 then ready else c.state;
}

-- `for(int i=0;i<=15;i++)`, with the rounds left
unfoldable pub tick_sleepers : ℕ → ℕ → (ℕ → Context) → ℕ → Context
tick_sleepers zero i ctx = ctx
tick_sleepers (suc n) i ctx = tick_sleepers n (i + 1) (update ctx i (count_down (ctx i)))

-- `new->state = RUNNING;` and the switch, if it is another context; `r` are the registers that
-- the interrupt interrupted, as the signal left them.
unfoldable pub switch_to : Regs → Kernel → Choice → Run
switch_to r k cleanup = shutdown
switch_to r k (next q) =
    let t = set_state q running k in
    if q == k.current
    then returns t (saved (pushed r) (frame r))
    else (let u =
          set_ctx k.current (record (t.ctx k.current) { regs = saved (pushed r) (frame r) }) t in
        returns (record u { current = q }) (u.ctx q).regs)

-- From the sleeping processes on.
unfoldable pub reschedule : Regs → Kernel → Run
reschedule r k =
    let woken = record k { ctx = tick_sleepers max_processes 0 k.ctx } in
    let k' = set_state k.current ready woken in
    switch_to r k' (pick_next_context timer k.current (states k'))

abbrev pub after_alarm : Regs → Delivery → Run
after_alarm r (exits run) = run
after_alarm r (resumes k ustackp urip) =
    reschedule (record r { entry_rip = urip; entry_rsp = ustackp }) k

unfoldable pub handle_timer_tick : Regs → Kernel → Run
handle_timer_tick r k =
    after_alarm r (tick_alarm r.entry_rsp r.entry_rip (record k { numticks = k.numticks + 1 }))
