-- ===== src/Sched/Pick/Loops.antt =====
-- The two loops of `pick_next_context` in assignment3/schedule.c.
use operating_systems_assign.Base.{
  ℕ, zero, suc, ◌+◌, ◌<◌, ◌≤◌, ◌≡◌, refl, sym, ◌⊎◌, inl, inr, Bool, true, false, ◌||◌, Option, none,
  some, Bool-cases, arith,
}
use mathlib.Core.Path.{subst}
use native.Mathlib.Decide.{ℕ_discrete}
use operating_systems_assign.Sched.Context.{ProcessState, is_ready, is_waiting}
use operating_systems_assign.Sched.Pick.{look}

module _ (state : ℕ → ProcessState) where
  -- The outcome of a loop over the pids from `lo` below `hi`.
  pub data Looks (lo hi : ℕ) (w : Bool) : Option ℕ × Bool → Type 0 where
    found :
        {r : Option ℕ × Bool} (q : ℕ)
        → lo ≤ q
        → q < hi
        → is_ready (state q) ≡ true
        → ((m : ℕ) → lo ≤ m → m < q → is_ready (state m) ≡ false)
        → r.0 ≡ some q
        → Looks lo hi w r
    missing :
        {r : Option ℕ × Bool}
        → ((m : ℕ) → lo ≤ m → m < hi → is_ready (state m) ≡ false)
        → r.0 ≡ none
        → (r.1 ≡ false → (w ≡ false) × ((m : ℕ) → lo ≤ m → m < hi → is_waiting (state m) ≡ false))
        → (r.1 ≡ true
            → (w ≡ true) ⊎ ((m : ℕ) × (lo ≤ m) × (m < hi) × (is_waiting (state m) ≡ true)))
        → Looks lo hi w r

  later_waits :
      (n i : ℕ) (w : Bool)
      → ((w || is_waiting (state i)) ≡ true)
        ⊎ ((m : ℕ) × (i + 1 ≤ m) × (m < i + 1 + n) × (is_waiting (state m) ≡ true))
      → (w ≡ true) ⊎ ((m : ℕ) × (i ≤ m) × (m < i + suc n) × (is_waiting (state m) ≡ true))
  later_waits n i true (inl e) = inl refl
  later_waits n i false (inl e) = inr (i, omega arith, omega arith, e)
  later_waits n i w (inr (m, lo, hi, e)) = inr (m, omega arith, omega arith, e)

  at_or_after :
      (P : ℕ → Type 0) (i : ℕ) {hi : ℕ}
      → P i
      → ((m : ℕ) → i + 1 ≤ m → m < hi → P m)
      → (m : ℕ) → i ≤ m
      → m < hi
      → P m
  at_or_after P i here after m lo lt = elim (ℕ_discrete m i) [
    | yes same ↦ subst P (sym same) here
    | no other ↦ after m (omega arith) lt
  ]

  later_Looks :
      (n i : ℕ) (w : Bool) {r : Option ℕ × Bool}
      → is_ready (state i) ≡ false
      → Looks (i + 1) (i + 1 + n) (w || is_waiting (state i)) r
      → Looks i (i + suc n) w r
  later_Looks n i w miss (found q lo hi at before e) =
      found q (omega arith) (omega arith) at
        (at_or_after (λ m. is_ready (state m) ≡ false) i miss before) e
  later_Looks n i w miss (missing nowhere e quiet waits) =
      missing
        (λ m lo hi. at_or_after (λ m. is_ready (state m) ≡ false) i miss nowhere m lo (omega arith))
        e
        (λ f.
          let (g, h) = quiet f in
          (
            ground arith,
            λ m lo hi.
                at_or_after (λ m. is_waiting (state m) ≡ false) i (ground arith) h m lo
                  (omega arith),
          ))
        (λ f. later_waits n i w (waits f))

  pub look-Looks : (n i : ℕ) (w : Bool) → Looks i (i + n) w (look n i state w)
  unfolding look
  look-Looks zero i w =
      missing (λ m lo hi. absurd (omega arith)) refl (λ e. (e, λ m lo hi. absurd (omega arith)))
        (λ e. inl e)
  look-Looks (suc n) i w = elim (Bool-cases (is_ready (state i))) [
    | inl here ↦
        rw here (found i (omega arith) (omega arith) here (λ m lo hi. absurd (omega arith)) refl)
    | inr later ↦
        rw later (later_Looks n i w later (look-Looks n (i + 1) (w || is_waiting (state i))))
  ]
