-- ===== src/Sched/Tick/Sleepers.antt =====
-- How long a process sleeps, by the timer ticks of assignment3/schedule.c.
use operating_systems_assign.Base.{
  ℕ, suc, ◌-◌, ◌<◌, ◌≡◌, ◌≢◌, refl, sym, ◌∙◌, ◌⊎◌, inl, inr, Bool, true, false, List, [], ◌∷◌,
  Option, none, some, ◌==◌, Bool-cases, arith,
}
use mathlib.Core.Path.{subst}
use operating_systems_assign.Sched.Context.{
  max_processes, ProcessState, ready, running, waiting, Regs, Kernel, Run, returns, shutdown,
  is_ready, is_waiting,
}
use operating_systems_assign.Sched.Pick.{timer, Choice, next, fall_back}
use operating_systems_assign.Sched.Pick.Rotation.{IsOther, Picks, picks, falls_back}
use operating_systems_assign.Sched.Tick.{handle_timer_tick}
use operating_systems_assign.Sched.Tick.Effect.{
  offered, Ticked, Ticks, ticks, halts, handle_timer_tick-Ticks,
}
use operating_systems_assign.Sched.Tick.RoundRobin.{length}

-- Timer ticks one after the other, each with the registers that it interrupts.
abbrev after_tick : (Kernel → Option Kernel) → Run → Option Kernel
after_tick rest shutdown = none
after_tick rest (returns t r) = rest t

unfoldable pub run_ticks : List Regs → Kernel → Option Kernel
run_ticks [] k = some k
run_ticks (r ∷ rs) k = after_tick (run_ticks rs) (handle_timer_tick r k)

-- Process `m` sleeps, with `n` ticks to go.
pub record Sleeps (m n : ℕ) (k : Kernel) : Type 0 where
  pub in_range : k.current < max_processes
  pub other : IsOther k.current m
  pub state : (k.ctx m).state ≡ waiting
  pub left : (k.ctx m).ticks_to_sleep ≡ n

abbrev pub is_awake : ProcessState → Bool
is_awake ready = true
is_awake running = true
is_awake _ = false

not_both : {b : Bool} → b ≡ true → b ≡ false → ⊥
not_both p q = cc

next-injective : {p q : ℕ} → next p ≡ next q → p ≡ q
next-injective e = ground arith

offered-due :
    (k : Kernel) (m : ℕ)
    → m ≢ k.current
    → (k.ctx m).ticks_to_sleep ≡ 1
    → is_ready (offered k m) ≡ true
offered-due k m ne e = ground arith

fewer : {m n : ℕ} {t : Kernel} → Sleeps m (suc (suc n) - 1) t → Sleeps m (suc n) t
fewer s = record {
  in_range = s.in_range;
  other = s.other;
  state = s.state;
  left = omega (arith, s.left);
}

waiting-not_ready : (a : ProcessState) → is_waiting a ≡ true → is_ready a ≡ false
waiting-not_ready a e = ground arith

wait_falls_back :
    (current : ℕ) (c : Choice)
    → c ≡ fall_back timer current true
    → current < max_processes
    → (q : ℕ) × (c ≡ next q) × (q < max_processes) × ((q ≡ current) ⊎ (q ≡ 0))
unfolding fall_back
wait_falls_back current c e lt = elim (Bool-cases (current == 0)) [
  | inl swapper ↦ (0, e ∙ rw swapper refl, omega arith, inr refl)
  | inr process ↦ (current, e ∙ rw process refl, lt, inl refl)
]

-- While a process waits the machine is not shut down, and the tick does not choose that process.
choice_while_waiting :
    (k : Kernel) (m : ℕ) (c : Choice)
    → k.current < max_processes
    → IsOther k.current m
    → is_waiting (offered k m) ≡ true
    → Picks timer k.current (offered k) c
    → (q : ℕ) × (c ≡ next q) × (q < max_processes) × (m ≢ q)
choice_while_waiting k m c lt o at (picks q o' ready_q nearer e) = (
  q,
  e,
  o'.in_range,
  λ same.
      not_both ready_q
        (subst (λ n. is_ready (offered k n) ≡ false) same (waiting-not_ready (offered k m) at)),
)
choice_while_waiting k m c lt o at (falls_back true nobody waits quiet e) =
    let (q, f, q_lt, which) = wait_falls_back k.current c e lt in
    (q, f, q_lt, λ same. absurd (omega (arith, which, o.other, o.positive)))
choice_while_waiting k m c lt o at (falls_back false nobody waits quiet e) =
    absurd (not_both at (quiet refl m o))

-- A process that has more than one tick to go, or none, still sleeps after the tick.
tick-Sleeps :
    (k t : Kernel) (m q n : ℕ)
    → q < max_processes
    → Sleeps m n k
    → n ≢ 1
    → m ≢ q
    → Ticked k q t
    → Sleeps m (n - 1) t
tick-Sleeps k t m q n lt s ne other done = record {
  in_range = rw done.current lt;
  other = record {
    positive = s.other.positive;
    in_range = s.other.in_range;
    other = ground (arith, done.current);
  };
  state = ground (arith, done.state m s.other.in_range, s.other.other, s.state, s.left);
  left = ground (arith, done.sleep m s.other.in_range, s.left);
}

sleeping_tick :
    (r : Regs) (k : Kernel) (m n : ℕ)
    → Sleeps m n k
    → n ≢ 1
    → (t : Kernel) × (r' : Regs) × (handle_timer_tick r k ≡ returns t r') × Sleeps m (n - 1) t
sleeping_tick r k m n s ne =
    let (c, pick, done) = handle_timer_tick-Ticks r k s.in_range in
    let (q, e, q_lt, other) =
      choice_while_waiting k m c s.in_range s.other (ground (arith, s.other.other, s.state, s.left))
        pick in
    go (handle_timer_tick r k) refl c q e q_lt other done
  where
    go :
        (run : Run)
        → handle_timer_tick r k ≡ run
        → (c : Choice) (q : ℕ) → c ≡ next q
        → q < max_processes
        → m ≢ q
        → Ticks k c run
        → (t : Kernel) × (r' : Regs) × (handle_timer_tick r k ≡ returns t r') × Sleeps m (n - 1) t
    go run e c q f q_lt other (halts h) = cc
    go run e c q f q_lt other (ticks {t} {r = r'} q' h done) =
        let same : q ≡ q' = next-injective (sym f ∙ h) in
        (
          t,
          r',
          e,
          tick-Sleeps k t m q' n (subst (λ j. j < max_processes) same q_lt) s ne
              (λ g. other (g ∙ sym same)) done,
        )

-- A process that sleeps with no tick to go, as after `sleep(0)`, is never woken: after any number
-- of ticks it still waits.
pub run_ticks-waiting :
    (rs : List Regs) (k : Kernel) (m : ℕ)
    → Sleeps m 0 k
    → (t : Kernel) × (run_ticks rs k ≡ some t) × ((t.ctx m).state ≡ waiting)
unfolding run_ticks
run_ticks-waiting [] k m s = (k, refl, s.state)
run_ticks-waiting (r ∷ rs) k m s =
    let (t, r', e, s') = sleeping_tick r k m 0 s (λ z. absurd (omega arith)) in
    rw e (run_ticks-waiting rs t m s')

waking_tick :
    (r : Regs) (k : Kernel) (m : ℕ)
    → Sleeps m 1 k
    → (t : Kernel) × (r' : Regs) × (handle_timer_tick r k ≡ returns t r')
      × (is_awake (t.ctx m).state ≡ true)
waking_tick r k m s =
    let (c, pick, done) = handle_timer_tick-Ticks r k s.in_range in
    go (handle_timer_tick r k) refl c pick done
  where
    go :
        (run : Run)
        → handle_timer_tick r k ≡ run
        → (c : Choice) → Picks timer k.current (offered k) c
        → Ticks k c run
        → (t : Kernel) × (r' : Regs) × (handle_timer_tick r k ≡ returns t r')
          × (is_awake (t.ctx m).state ≡ true)
    go run e c pick (ticks {t} {r = r'} q h done) =
        (t, r', e, ground (arith, done.state m s.other.in_range, s.other.other, s.state, s.left))
    go run e c (picks q o at nearer f) (halts h) = cc
    go run e c (falls_back w nobody waits quiet f) (halts h) =
        absurd (not_both (offered-due k m s.other.other s.left) (nobody m s.other))

-- A process that sleeps with `n` ticks to go waits through the first `n - 1` ticks, and is READY or
-- RUNNING after the `n`-th; none of them shuts the machine down.
pub sleeper_wakes :
    (r : Regs) (rs : List Regs) (k : Kernel) (m : ℕ)
    → Sleeps m (length (r ∷ rs)) k
    → (t u : Kernel) × (run_ticks rs k ≡ some t)
      × ((t.ctx m).state ≡ waiting)
      × ((r' : Regs) × (handle_timer_tick r t ≡ returns u r'))
      × (is_awake (u.ctx m).state ≡ true)
unfolding run_ticks
sleeper_wakes r [] k m s =
    let (u, r', e, awake) = waking_tick r k m s in (k, u, refl, s.state, (r', e), awake)
sleeper_wakes r (x ∷ rs) k m s =
    let (t, r', e, s') = sleeping_tick x k m _ s (λ z. absurd (omega arith)) in
    rw e (sleeper_wakes r rs t m (fewer s'))
