-- ===== src/Sched/Tick/RoundRobin.antt =====
-- Repeated timer ticks of assignment3/schedule.c: one process runs at a time, and every READY
-- process gets its turn.
use operating_systems_assign.Base.{
  ℕ, suc, ◌<◌, ◌≤◌, ◌≡◌, ◌≢◌, refl, sym, ap, ◌∙◌, Bool, true, false, List, [], ◌∷◌, arith,
}
use native.Mathlib.Decide.{ℕ_discrete, dec_lt}
use mathlib.Core.Path.{subst}
use operating_systems_assign.Sched.Context.{
  max_processes, running, Regs, Kernel, Run, returns, is_ready,
}
use operating_systems_assign.Sched.Pick.{timer, Choice, next, fall_back}
use operating_systems_assign.Sched.Pick.Rotation.{IsOther, distance, Picks, picks, falls_back}
use operating_systems_assign.Sched.Tick.{handle_timer_tick}
use operating_systems_assign.Sched.Tick.Effect.{
  offered, Ticked, Ticks, ticks, halts, handle_timer_tick-Ticks,
}

-- The current process is RUNNING, and no other one is.
pub record IsSound (k : Kernel) : Type 0 where
  pub in_range : k.current < max_processes
  pub runs : (k.ctx k.current).state ≡ running
  pub alone : (m : ℕ) → m < max_processes → m ≢ k.current → (k.ctx m).state ≢ running

abbrev pub length {ℓ} : {A : Type ℓ} → List A → ℕ
length [] = 0
length (x ∷ xs) = suc (length xs)

next-injective : {p q : ℕ} → next p ≡ next q → p ≡ q
next-injective e = ground arith

fall_back-in_range :
    (current q : ℕ) (w : Bool)
    → current < max_processes
    → next q ≡ fall_back timer current w
    → q < max_processes
unfolding fall_back
fall_back-in_range current q w lt e = ground arith

picked-in_range :
    (k : Kernel) {c : Choice} (q : ℕ)
    → k.current < max_processes
    → c ≡ next q
    → Picks timer k.current (offered k) c
    → q < max_processes
picked-in_range k q lt e (picks p o at nearer f) =
    subst (λ n. n < max_processes) (next-injective (sym f ∙ e)) o.in_range
picked-in_range k q lt e (falls_back w nobody waits quiet f) =
    fall_back-in_range k.current q w lt (sym e ∙ f)

Ticked-IsSound : (k t : Kernel) (q : ℕ) → q < max_processes → IsSound k → Ticked k q t → IsSound t
Ticked-IsSound k t q lt sound done = record {
  in_range = rw done.current lt;
  runs = ap (λ m. (t.ctx m).state) done.current ∙ done.state q lt ∙ ground arith;
  alone = λ m m_lt ne is. ground (arith, done.state m m_lt, done.current, sound.alone m m_lt);
}

-- After a timer tick that returns, again exactly the current process is RUNNING.
pub handle_timer_tick-IsSound :
    (r : Regs) (k t : Kernel) (r' : Regs)
    → IsSound k
    → handle_timer_tick r k ≡ returns t r'
    → IsSound t
handle_timer_tick-IsSound r k t r' sound e =
    let (c, p, done) = handle_timer_tick-Ticks r k sound.in_range in go (rw e at done) p
  where
    go : {c : Choice} → Ticks k c (returns t r') → Picks timer k.current (offered k) c → IsSound t
    go (ticks q f done) p = Ticked-IsSound k t q (picked-in_range k q sound.in_range f p) sound done

-- Process `p` becomes the current one after one of the ticks, which interrupt the registers `rs`.
pub data Visits (p : ℕ) : Kernel → List Regs → Type 0 where
  now :
      {k : Kernel} {r : Regs} {rs : List Regs} (t : Kernel) (r' : Regs)
      → handle_timer_tick r k ≡ returns t r'
      → t.current ≡ p
      → Visits p k (r ∷ rs)
  later :
      {k : Kernel} {r : Regs} {rs : List Regs} (t : Kernel) (r' : Regs)
      → handle_timer_tick r k ≡ returns t r'
      → Visits p t rs
      → Visits p k (r ∷ rs)

nearer_turn :
    (current p q : ℕ)
    → current < 16
    → IsOther current p
    → IsOther current q
    → distance current q ≤ distance current p
    → p ≢ q
    → distance q p < distance current p
nearer_turn current p q lt o o' le ne = omega arith

not_both : {b : Bool} → b ≡ true → b ≡ false → ⊥
not_both p q = cc

offered-ready :
    (k : Kernel) (p : ℕ)
    → p ≢ k.current
    → is_ready (k.ctx p).state ≡ true
    → is_ready (offered k p) ≡ true
offered-ready k p ne at = ground arith

-- While `p` is READY, the tick runs it or a process that is nearer.
chosen :
    (k : Kernel) (p : ℕ) (c : Choice)
    → k.current < 16
    → IsOther k.current p
    → is_ready (k.ctx p).state ≡ true
    → Picks timer k.current (offered k) c
    → (q : ℕ) × (c ≡ next q) × IsOther k.current q × (distance k.current q ≤ distance k.current p)
chosen k p c lt o at (picks q o' at' nearer e) = (
  q,
  e,
  o',
  elim (dec_lt (distance k.current p) (distance k.current q)) [
    | yes less ↦ absurd (not_both (offered-ready k p o.other at) (nearer p o less))
    | no more ↦ omega arith
  ],
)
chosen k p c lt o at (falls_back w nobody waits quiet e) =
    absurd (not_both (offered-ready k p o.other at) (nobody p o))

-- A READY process that is not chosen stays READY, and its turn has come nearer.
waits_on :
    (k t : Kernel) (p q : ℕ)
    → k.current < 16
    → IsOther k.current p
    → IsOther k.current q
    → is_ready (k.ctx p).state ≡ true
    → distance k.current q ≤ distance k.current p
    → p ≢ q
    → Ticked k q t
    → IsOther t.current p
      × (is_ready (t.ctx p).state ≡ true)
      × (distance t.current p < distance k.current p)
waits_on k t p q lt o o' at le ne done = (
  record { positive = o.positive; in_range = o.in_range; other = ground (arith, done.current) },
  ground (arith, done.state p o.in_range, o.other),
  rw done.current (nearer_turn k.current p q lt o o' le ne),
)

visit_step :
    (p n : ℕ) (k : Kernel) (r : Regs) (rs : List Regs) (run : Run) (c : Choice)
    → IsSound k
    → IsOther k.current p
    → is_ready (k.ctx p).state ≡ true
    → distance k.current p ≤ suc n
    → Picks timer k.current (offered k) c
    → handle_timer_tick r k ≡ run
    → Ticks k c run
    → ((t : Kernel)
        → IsSound t
        → IsOther t.current p
        → is_ready (t.ctx p).state ≡ true
        → distance t.current p ≤ n
        → Visits p t rs)
    → Visits p k (r ∷ rs)
visit_step p n k r rs run c sound o at le pick e (halts f) rest =
    let (q, g, o', d) = chosen k p c sound.in_range o at pick in cc
visit_step p n k r rs run c sound o at le pick e (ticks {t} {r = r'} q f done) rest =
    let (q', g, o', d) = chosen k p c sound.in_range o at pick in
    let same : q' ≡ q = next-injective (sym g ∙ f) in
    elim (ℕ_discrete p q) [
      | yes here ↦ now t r' e (done.current ∙ sym here)
      | no other ↦
          let (o'', at', near) =
            waits_on k t p q sound.in_range o (subst (IsOther k.current) same o') at
              (subst (λ m. distance k.current m ≤ distance k.current p) same d) other done in
          later t r' e (rest t (handle_timer_tick-IsSound r k t r' sound e) o'' at' (omega arith))
    ]

-- Round robin: from a state in which only the current process is RUNNING, a READY process besides
-- the swapper becomes the current one within as many timer ticks as it stands behind the current
-- one in the round, at most 15, whatever registers the ticks interrupt.
pub ready_visited :
    (p : ℕ) (rs : List Regs) (k : Kernel)
    → IsSound k
    → IsOther k.current p
    → is_ready (k.ctx p).state ≡ true
    → distance k.current p ≤ length rs
    → Visits p k rs
ready_visited p [] k sound o at le = absurd (omega (arith, o.other, o.in_range, sound.in_range))
ready_visited p (r ∷ rs) k sound o at le =
    let (c, pick, done) = handle_timer_tick-Ticks r k sound.in_range in
    visit_step p (length rs) k r rs (handle_timer_tick r k) c sound o at le pick refl done
      (ready_visited p rs)
