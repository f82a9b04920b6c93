-- ===== src/Sched/Running.antt =====
-- assignment3/schedule.c: the timer tick and the system calls one after the other, and the
-- process that is RUNNING meanwhile.
use operating_systems_assign.Base.{
  Option-cases, Bool-cases, ltb, ℕ, ◌<◌, ◌≡◌, ◌≢◌, refl, sym, ◌∙◌, inl, inr, Bool, none, some,
  arith,
}
use mathlib.Core.Path.{subst}
use operating_systems_assign.Base.Arrays.{update}
use operating_systems_assign.Sched.Context.{
  max_processes, max_signals, ProcessState, ready, running, Regs, Context, Kernel, Run, returns,
  shutdown, set_ctx,
}
use operating_systems_assign.Sched.Pick.{
  Reason, timer, sleeping, do_exit, Choice, next, cleanup, fall_back, pick_next_context,
}
use operating_systems_assign.Sched.Pick.Rotation.{Picks, picks, falls_back, pick_next_context-Picks}
use operating_systems_assign.Sched.Calls.{
  do_signal, do_alarm, run_next, free_os_stack, exit_process, do_sleep,
}
use operating_systems_assign.Sched.Calls.Clone.{do_clone, clone_name, clone_of}
use operating_systems_assign.Sched.Tick.{handle_timer_tick}
use operating_systems_assign.Sched.Tick.RoundRobin.{IsSound, handle_timer_tick-IsSound}

-- The current process of `k` has left the processor: nobody is RUNNING.
record IsIdle (k : Kernel) : Type 0 where
  in_range : k.current < max_processes
  nobody : (m : ℕ) → m < max_processes → (k.ctx m).state ≢ running

run_next-IsSound :
    (k t : Kernel) (r : Regs) (c : Choice)
    → IsIdle k
    → ((q : ℕ) → c ≡ next q → q < max_processes)
    → run_next k c ≡ returns t r
    → IsSound t
unfolding run_next
run_next-IsSound k t r cleanup idle lt e = cc
run_next-IsSound k t r (next q) idle lt e =
    let q_lt = lt q refl in
    record {
      in_range = ground (arith, q_lt);
      runs = ground (arith, q_lt);
      alone = λ m m_lt ne is. ground (arith, idle.nobody m m_lt);
    }

next-injective : {p q : ℕ} → next p ≡ next q → p ≡ q
next-injective e = ground arith

fall_back-in_range :
    (reason : Reason) (current q : ℕ) (w : Bool)
    → current < max_processes
    → fall_back reason current w ≡ next q
    → q < max_processes
unfolding fall_back
fall_back-in_range timer current q w lt e = ground arith
fall_back-in_range sleeping current q w lt e = ground arith
fall_back-in_range do_exit current q w lt e = ground arith

pick_next_context-in_range :
    (reason : Reason) (current : ℕ) (state : ℕ → ProcessState)
    → current < max_processes
    → (q : ℕ) → pick_next_context reason current state ≡ next q
    → q < max_processes
pick_next_context-in_range reason current state lt q e =
    go (pick_next_context-Picks reason current state lt) e
  where
    go : {c : Choice} → Picks reason current state c → c ≡ next q → q < max_processes
    go (picks p o at nearer f) e =
        subst (λ n. n < max_processes) (next-injective (sym f ∙ e)) o.in_range
    go (falls_back w nobody waits quiet f) e = fall_back-in_range reason current q w lt (sym f ∙ e)

put_down-IsIdle :
    (k : Kernel) (c : Context) → IsSound k → c.state ≢ running → IsIdle (set_ctx k.current c k)
put_down-IsIdle k c sound off = record {
  in_range = sound.in_range;
  nobody = λ m lt is. ground (arith, off, sound.alone m lt);
}

do_sleep-IsSound :
    (n : ℕ) (k t : Kernel) (r : Regs) → IsSound k → do_sleep n k ≡ returns t r → IsSound t
unfolding do_sleep
do_sleep-IsSound n k t r sound e =
    run_next-IsSound _ t r _ (put_down-IsIdle k _ sound (λ is. ground arith))
      (pick_next_context-in_range sleeping k.current _ sound.in_range) e

free_os_stack-IsSound :
    (cur : ℕ) (run : Run) (t : Kernel) (r : Regs)
    → ((t' : Kernel) (r' : Regs) → run ≡ returns t' r' → IsSound t')
    → free_os_stack cur run ≡ returns t r
    → IsSound t
free_os_stack-IsSound cur shutdown t r sound e = cc
free_os_stack-IsSound cur (returns k r') t r sound e =
    let s = sound k r' refl in
    record {
      in_range = ground (arith, s.in_range);
      runs = ground (arith, s.runs);
      alone = λ m lt ne is. ground (arith, s.alone m lt);
    }

exit_process-IsSound :
    (k t : Kernel) (r : Regs) → IsSound k → exit_process k ≡ returns t r → IsSound t
unfolding exit_process
exit_process-IsSound k t r sound e =
    free_os_stack-IsSound k.current _ t r
      (λ t' r'.
        run_next-IsSound _ t' r' _ (put_down-IsIdle k _ sound (λ is. ground arith))
          (pick_next_context-in_range do_exit k.current _ sound.in_range))
      e

-- One entry of the kernel and its return, from one state to the next.
pub data Step : Kernel → Kernel → Type 0 where
  ticks : {k t : Kernel} (r r' : Regs) → handle_timer_tick r k ≡ returns t r' → Step k t
  sleeps : {k t : Kernel} (n : ℕ) (r : Regs) → do_sleep n k ≡ returns t r → Step k t
  exits : {k t : Kernel} (r : Regs) → exit_process k ≡ returns t r → Step k t
  clones :
      {k t : Kernel} (th_func user_stack new_pid os_pfn : ℕ) (junk : ℕ → ℕ)
      → new_pid ≢ k.current
      → do_clone th_func user_stack new_pid os_pfn junk k ≡ some t
      → Step k t
  registers : {k t : Kernel} (signo handler : ℕ) → do_signal signo handler k ≡ some t → Step k t
  sets_alarm : {k : Kernel} (n : ℕ) → Step k (do_alarm n k)

pub data Steps : Kernel → Kernel → Type 0 where
  here : {k : Kernel} → Steps k k
  step : {k t u : Kernel} → Step k t → Steps t u → Steps k u

same_states-IsSound :
    (k t : Kernel)
    → t.current ≡ k.current
    → ((m : ℕ) → m < max_processes → m ≢ k.current → (t.ctx m).state ≢ running)
    → (t.ctx t.current).state ≡ running
    → IsSound k
    → IsSound t
same_states-IsSound k t same others runs sound = record {
  in_range = rw same sound.in_range;
  runs = runs;
  alone = λ m lt ne. others m lt (λ e. ne (e ∙ sym same));
}

none-≢-some : {t : Kernel} → none ≢ some t
none-≢-some e = cc

some-injective : {k t : Kernel} → some k ≡ some t → k ≡ t
some-injective e = ground arith

set_ready-IsSound :
    (k : Kernel) (i : ℕ) (c : Context)
    → i ≢ k.current
    → c.state ≡ ready
    → IsSound k
    → IsSound (set_ctx i c k)
set_ready-IsSound k i c other at sound =
    same_states-IsSound k (set_ctx i c k) refl (λ m lt ne is. ground (arith, sound.alone m lt))
      (ground (arith, sound.runs)) sound

do_clone-IsSound :
    (th_func user_stack new_pid os_pfn : ℕ) (junk : ℕ → ℕ) (k t : Kernel)
    → new_pid ≢ k.current
    → do_clone th_func user_stack new_pid os_pfn junk k ≡ some t
    → IsSound k
    → IsSound t
unfolding do_clone
do_clone-IsSound th_func user_stack new_pid os_pfn junk k t other e sound =
    elim (Option-cases (clone_name (k.ctx 1) (k.ctx new_pid).pid junk)) [
      | inl f ↦
          (let done : do_clone th_func user_stack new_pid os_pfn junk k ≡ none = rw f refl in
            absurd (none-≢-some (sym done ∙ e)))
      | inr (name, f) ↦
          (let c : Context =
              record (clone_of th_func user_stack os_pfn k.memory (k.ctx 1) (k.ctx new_pid)) {
                name = name;
              } in
            let done : do_clone th_func user_stack new_pid os_pfn junk k
                ≡ some (set_ctx new_pid c k) =
              rw f refl in
            subst IsSound (some-injective (sym done ∙ e))
              (set_ready-IsSound k new_pid c other refl sound))
    ]

do_signal-IsSound :
    (signo handler : ℕ) (k t : Kernel) → do_signal signo handler k ≡ some t → IsSound k → IsSound t
unfolding do_signal
do_signal-IsSound signo handler k t e sound = elim (Bool-cases (ltb signo max_signals)) [
  | inl inside ↦
      let c : Context = k.ctx k.current in
      let u : Kernel =
        set_ctx k.current (record c { sighandlers = update c.sighandlers signo handler }) k in
      subst IsSound (some-injective (rw inside at e)) (
        same_states-IsSound k u refl (λ m lt ne is. ground (arith, sound.alone m lt))
          (ground (arith, sound.runs)) sound)
  | inr outside ↦ absurd (none-≢-some (rw outside at e))
]

Step-IsSound : (k t : Kernel) → Step k t → IsSound k → IsSound t
unfolding do_alarm
Step-IsSound k t (ticks r r' e) sound = handle_timer_tick-IsSound r k t r' sound e
Step-IsSound k t (sleeps n r e) sound = do_sleep-IsSound n k t r sound e
Step-IsSound k t (exits r e) sound = exit_process-IsSound k t r sound e
Step-IsSound k t (clones f u p o junk ne e) sound = do_clone-IsSound f u p o junk k t ne e sound
Step-IsSound k t (registers signo handler e) sound = do_signal-IsSound signo handler k t e sound
Step-IsSound k t (sets_alarm n) sound =
    same_states-IsSound k t refl (λ m lt ne is. ground (arith, sound.alone m lt))
      (ground (arith, sound.runs)) sound

-- If only the current process is RUNNING, the same holds after any sequence of timer ticks and of
-- calls of `do_sleep`, `do_exit`, `do_clone`, `do_signal` and `do_alarm` that return, where the
-- signal is one of the three and no clone gets the context of the process that calls.
pub Steps-IsSound : (k t : Kernel) → Steps k t → IsSound k → IsSound t
Steps-IsSound k t here sound = sound
Steps-IsSound k u (step s rest) sound = Steps-IsSound _ u rest (Step-IsSound k _ s sound)
