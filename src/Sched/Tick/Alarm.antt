-- ===== src/Sched/Tick/Alarm.antt =====
-- The alarm and the sleepers in `handle_timer_tick` of assignment3/schedule.c.
use operating_systems_assign.Base.{
  ℕ, zero, suc, ◌+◌, ◌-◌, ◌≡◌, refl, ◌∙◌, inl, inr, ◌&&◌, ◌==◌, ltb, leb, Bool-cases, if◌then◌else◌,
  arith,
}
use operating_systems_assign.Base.Arrays.{update}
use operating_systems_assign.Sched.Context.{sigalrm, Regs, Context, Kernel, set_ctx}
use operating_systems_assign.Sched.Signal.{resumes, push_address, invoke_sync_signal}
use operating_systems_assign.Sched.Tick.{
  pushed, frame, saved, tick_alarm, count_down, tick_sleepers,
}

-- The words that the handler saves are the registers that were interrupted.
pub saved_lem : (r : Regs) → saved (pushed r) (frame r) ≡ r
unfolding saved
saved_lem r = refl

pub tick_sleepers_lem :
    (n i : ℕ) (ctx : ℕ → Context) (m : ℕ)
    → tick_sleepers n i ctx m ≡ (if leb i m && ltb m (i + n) then count_down (ctx m) else ctx m)
unfolding tick_sleepers
tick_sleepers_lem zero i ctx m = ground arith
tick_sleepers_lem (suc n) i ctx m =
    ground (arith, tick_sleepers_lem n (i + 1) (update ctx i (count_down (ctx i))) m)

-- The alarm leaves the current process and what the scheduler reads of the others.
pub record KeepsProcesses (k t : Kernel) : Type 0 where
  pub current : t.current ≡ k.current
  pub state : (m : ℕ) → (t.ctx m).state ≡ (k.ctx m).state
  pub sleep : (m : ℕ) → (t.ctx m).ticks_to_sleep ≡ (k.ctx m).ticks_to_sleep

alarm_signal-resumes :
    (ustackp urip : ℕ) (k : Kernel)
    → (t : Kernel) × (u : ℕ) × (i : ℕ) × (invoke_sync_signal sigalrm ustackp urip k ≡ resumes t u i)
      × KeepsProcesses k t
unfolding invoke_sync_signal
alarm_signal-resumes ustackp urip k =
    elim (Bool-cases ((k.ctx k.current).sighandlers sigalrm == 0)) [
      | inl ignored ↦ (
        k,
        ustackp,
        urip,
        rw ignored refl,
        record { current = refl; state = λ m. refl; sleep = λ m. refl },
      )
      | inr handled ↦ (
        record k { memory = update k.memory (push_address ustackp) urip },
        push_address ustackp,
        (k.ctx k.current).sighandlers sigalrm,
        rw handled refl,
        record { current = refl; state = λ m. refl; sleep = λ m. refl },
      )
    ]

KeepsProcesses-alarm :
    (k : Kernel) (t : ℕ) → KeepsProcesses k (set_ctx 1 (record (k.ctx 1) { ticks_to_alarm = t }) k)
KeepsProcesses-alarm k t = record {
  current = refl;
  state = λ m. ground arith;
  sleep = λ m. ground arith;
}

KeepsProcesses-trans :
    {k t u : Kernel} → KeepsProcesses k t → KeepsProcesses t u → KeepsProcesses k u
KeepsProcesses-trans a b = record {
  current = b.current ∙ a.current;
  state = λ m. b.state m ∙ a.state m;
  sleep = λ m. b.sleep m ∙ a.sleep m;
}

pub tick_alarm-resumes :
    (ustackp urip : ℕ) (k : Kernel)
    → (t : Kernel) × (u : ℕ) × (i : ℕ) × (tick_alarm ustackp urip k ≡ resumes t u i)
      × KeepsProcesses k t
unfolding tick_alarm
tick_alarm-resumes ustackp urip k = elim (Bool-cases ((k.ctx 1).ticks_to_alarm == 0)) [
  | inl off ↦ (
    k,
    ustackp,
    urip,
    rw off refl,
    record { current = refl; state = λ m. refl; sleep = λ m. refl },
  )
  | inr on ↦ elim (Bool-cases ((k.ctx 1).ticks_to_alarm - 1 == 0)) [
    | inl rings ↦
        let (t, u, i, e, same) =
          alarm_signal-resumes ustackp urip
            (set_ctx 1 (record (k.ctx 1) { ticks_to_alarm = (k.ctx 1).alarm_config_time }) k) in
        (t, u, i, rw (on, rings) e, KeepsProcesses-trans (KeepsProcesses-alarm k _) same)
    | inr later ↦ (
      set_ctx 1 (record (k.ctx 1) { ticks_to_alarm = (k.ctx 1).ticks_to_alarm - 1 }) k,
      ustackp,
      urip,
      rw (on, later) refl,
      KeepsProcesses-alarm k ((k.ctx 1).ticks_to_alarm - 1),
    )
  ]
]
