-- ===== src/Sched/Pick/Rotation.antt =====
-- What `pick_next_context` of assignment3/schedule.c chooses: the first READY process in the
-- cyclic order behind the current one.
use operating_systems_assign.Base.{
  ℕ, ◌+◌, ◌-◌, ◌%◌, ◌<◌, ◌≤◌, ◌≡◌, ◌≢◌, refl, sym, ap, ◌∙◌, ◌⊎◌, inl, inr, Bool, true, false,
  Option, none, some, arith,
}
use mathlib.Core.Path.{subst}
use native.Mathlib.Decide.{dec_lt}
use operating_systems_assign.Sched.Context.{ProcessState, is_ready, is_waiting}
use operating_systems_assign.Sched.Pick.{
  Reason, Choice, next, look, fall_back, settle, look_again, pick_next_context,
}
use operating_systems_assign.Sched.Pick.Loops.{Looks, found, missing, look-Looks}

-- How far `q` is behind `current` in the round.
abbrev pub distance : ℕ → ℕ → ℕ
distance current q = (q + 16 - current) % 16

-- A process other than the swapper and the current one.
pub record IsOther (current m : ℕ) : Type 0 where
  pub positive : 1 ≤ m
  pub in_range : m < 16
  pub other : m ≢ current

-- What `pick_next_context` chooses, over the processes other than the swapper and the current one:
-- the READY one that is nearest behind the current one, or else what is laid down for a waiting
-- process (`w`) or none.
pub data Picks (reason : Reason) (current : ℕ) (state : ℕ → ProcessState) (c : Choice)
    : Type 0 where
  picks :
      (q : ℕ)
      → IsOther current q
      → is_ready (state q) ≡ true
      → ((m : ℕ)
          → IsOther current m
          → distance current m < distance current q
          → is_ready (state m) ≡ false)
      → c ≡ next q
      → Picks reason current state c
  falls_back :
      (w : Bool)
      → ((m : ℕ) → IsOther current m → is_ready (state m) ≡ false)
      → (w ≡ true → (m : ℕ) × IsOther current m × (is_waiting (state m) ≡ true))
      → (w ≡ false → (m : ℕ) → IsOther current m → is_waiting (state m) ≡ false)
      → c ≡ fall_back reason current w
      → Picks reason current state c

settle-next :
    (reason : Reason) (current q : ℕ) (r : Option ℕ × Bool)
    → r.0 ≡ some q
    → settle reason current r ≡ next q
unfolding settle
settle-next reason current q (some i, w) e = ground arith
settle-next reason current q (none, w) e = cc

settle-fall_back :
    (reason : Reason) (current : ℕ) (r : Option ℕ × Bool)
    → r.0 ≡ none
    → settle reason current r ≡ fall_back reason current r.1
unfolding settle
settle-fall_back reason current (some i, w) e = cc
settle-fall_back reason current (none, w) e = refl

look_again-next :
    (reason : Reason) (current q : ℕ) (state : ℕ → ProcessState) (r : Option ℕ × Bool)
    → r.0 ≡ some q
    → look_again reason current state r ≡ next q
unfolding look_again
look_again-next reason current q state (some i, w) e = ground arith
look_again-next reason current q state (none, w) e = cc

look_again-settle :
    (reason : Reason) (current : ℕ) (state : ℕ → ProcessState) (r : Option ℕ × Bool)
    → r.0 ≡ none
    → look_again reason current state r ≡ settle reason current (look (current - 1) 1 state r.1)
unfolding look_again
look_again-settle reason current state (some i, w) e = cc
look_again-settle reason current state (none, w) e = refl

module _ (reason : Reason) (current : ℕ) (state : ℕ → ProcessState) (lt : current < 16) where
  to_end :
      {r : Option ℕ × Bool}
      → Looks state (current + 1) (current + 1 + (15 - current)) false r
      → Looks state (current + 1) 16 false r
  to_end {r} l = subst (λ hi. Looks state (current + 1) hi false r) (omega arith) l

  split :
      (P : ℕ → Type 0) (m : ℕ)
      → IsOther current m
      → ((k : ℕ) → 1 ≤ k → k < 1 + (current - 1) → P k)
      → ((k : ℕ) → current + 1 ≤ k → k < 16 → P k)
      → P m
  split P m o below above = elim (dec_lt m current) [
    | yes low ↦ below m o.positive (omega arith)
    | no high ↦ above m (omega (arith, o.other)) o.in_range
  ]

  someone_waits :
      {w : Bool}
      → (w ≡ true) ⊎ ((m : ℕ) × (1 ≤ m) × (m < 1 + (current - 1)) × (is_waiting (state m) ≡ true))
      → (w ≡ true
          → (false ≡ true)
            ⊎ ((m : ℕ) × (current + 1 ≤ m) × (m < 16) × (is_waiting (state m) ≡ true)))
      → (m : ℕ) × IsOther current m × (is_waiting (state m) ≡ true)
  someone_waits (inr (m, lo, hi, e)) later =
      (m, record { positive = lo; in_range = omega arith; other = omega arith }, e)
  someone_waits (inl f) later = elim (later f) [
    | inl bad ↦ cc
    | inr (m, lo, hi, e) ↦
        (m, record { positive = omega arith; in_range = hi; other = omega arith }, e)
  ]

  settle-Picks :
      (w : Bool) (r : Option ℕ × Bool)
      → ((m : ℕ) → current + 1 ≤ m → m < 16 → is_ready (state m) ≡ false)
      → (w ≡ false
          → (false ≡ false) × ((m : ℕ) → current + 1 ≤ m → m < 16 → is_waiting (state m) ≡ false))
      → (w ≡ true
          → (false ≡ true)
            ⊎ ((m : ℕ) × (current + 1 ≤ m) × (m < 16) × (is_waiting (state m) ≡ true)))
      → Looks state 1 (1 + (current - 1)) w r
      → Picks reason current state (settle reason current r)
  settle-Picks w r above quiet waits (found q lo hi at before e) =
      picks q (record { positive = lo; in_range = omega arith; other = omega arith }) at
        (λ m o d. elim (dec_lt m q) [
          | yes low ↦ before m o.positive low
          | no high ↦ above m (omega (arith, o.other)) o.in_range
        ])
        (settle-next reason current q r e)
  settle-Picks w r above quiet waits (missing below e quiet' waits') =
      falls_back r.1 (λ m o. split (λ k. is_ready (state k) ≡ false) m o below above)
        (λ f. someone_waits (waits' f) waits)
        (λ f.
          let (g, low) = quiet' f in
          λ m o. split (λ k. is_waiting (state k) ≡ false) m o low (quiet g).1)
        (settle-fall_back reason current r e)

  look_again-Picks :
      (r : Option ℕ × Bool)
      → Looks state (current + 1) 16 false r
      → Picks reason current state (look_again reason current state r)
  look_again-Picks r (found q lo hi at before e) =
      picks q (record { positive = omega arith; in_range = hi; other = omega arith }) at
        (λ m o d. before m (omega arith) (omega arith)) (look_again-next reason current q state r e)
  look_again-Picks r (missing nowhere e quiet waits) =
      subst (Picks reason current state) (sym (look_again-settle reason current state r e))
        (settle-Picks r.1 _ nowhere quiet waits (look-Looks state (current - 1) 1 r.1))

  -- With a current pid below 16: while some READY process is left besides the swapper and the
  -- current one, the one nearest behind the current one in the round is chosen; else the choice
  -- depends on whether one waits.
  pub pick_next_context-Picks : Picks reason current state (pick_next_context reason current state)
  unfolding pick_next_context
  pick_next_context-Picks =
      look_again-Picks _ (to_end (look-Looks state (15 - current) (current + 1) false))

-- Only the states of processes count.
pub Picks-same :
    (reason : Reason) {current : ℕ} {f : ℕ → ProcessState} (g : ℕ → ProcessState) {c : Choice}
    → ((m : ℕ) → m < 16 → f m ≡ g m)
    → Picks reason current f c
    → Picks reason current g c
Picks-same reason g same (picks q o at nearer e) =
    picks q o (ap is_ready (sym (same q o.in_range)) ∙ at)
      (λ m other d. ap is_ready (sym (same m other.in_range)) ∙ nearer m other d) e
Picks-same reason g same (falls_back w nobody waits quiet e) =
    falls_back w (λ m o. ap is_ready (sym (same m o.in_range)) ∙ nobody m o)
      (λ h. let (m, o, f) = waits h in (m, o, ap is_waiting (sym (same m o.in_range)) ∙ f))
      (λ h m o. ap is_waiting (sym (same m o.in_range)) ∙ quiet h m o) e
