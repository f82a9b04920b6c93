-- ===== src/Sched/Pick.antt =====
-- assignment3/schedule.c: `pick_next_context`.
pub mod Loops
pub mod Rotation
use operating_systems_assign.Base.{
  ℕ, zero, suc, ◌+◌, ◌-◌, Bool, true, false, not, ◌||◌, Option, none, some, ◌==◌, if◌then◌else◌,
}
use operating_systems_assign.Sched.Context.{ProcessState, is_ready, is_waiting, Context, Kernel}

-- `enum type`
pub data Reason : Type 0 where
  timer sleeping do_exit : Reason

-- The context chosen, or the call of `do_cleanup`, which does not come back.
pub data Choice : Type 0 where
  next : ℕ → Choice
  cleanup : Choice

-- One of the two loops, with the rounds left: where it returns, and `is_wait` where it does not.
unfoldable pub look : ℕ → ℕ → (ℕ → ProcessState) → Bool → Option ℕ × Bool
look zero i state is_wait = (none, is_wait)
look (suc n) i state is_wait =
    let rest = look n (i + 1) state (is_wait || is_waiting (state i)) in
    if is_ready (state i) then (some i, is_wait) else rest

-- Behind the loops.
unfoldable pub fall_back : Reason → ℕ → Bool → Choice
fall_back timer current is_wait =
    if not (current == 0) then next current else if is_wait then next 0 else cleanup
fall_back sleeping current is_wait = next 0
fall_back do_exit current is_wait = if is_wait then next 0 else cleanup

settle : Reason → ℕ → Option ℕ × Bool → Choice
unfolding fall_back
settle reason current (some i, is_wait) = next i
settle reason current (none, is_wait) = fall_back reason current is_wait

-- Behind the first loop: the second, from 1 to `curr_pid - 1`.
look_again : Reason → ℕ → (ℕ → ProcessState) → Option ℕ × Bool → Choice
unfolding settle
look_again reason current state (some i, is_wait) = next i
look_again reason current state (none, is_wait) =
    settle reason current (look (current - 1) 1 state is_wait)

unfoldable pub pick_next_context : Reason → ℕ → (ℕ → ProcessState) → Choice
unfolding look_again look
pick_next_context reason current state =
    look_again reason current state (look (15 - current) (current + 1) state false)
