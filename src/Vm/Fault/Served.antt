-- ===== src/Vm/Fault/Served.antt =====
-- Which page faults `handle_page_fault` of assignment2/entry.c serves.
use operating_systems_assign.Base.{
  ℕ, bit_and, ◌<◌, ◌≤◌, ◌≡◌, ◌≢◌, refl, ◌⊎◌, inl, inr, Bool, true, false, ◌&&◌, ◌==◌, leb,
  Bool-cases, arith,
}
use operating_systems_assign.Sched.Context.{Segment}
use operating_systems_assign.Vm.Tables.{Space, Frames}
use operating_systems_assign.Vm.Fault.{
  is_in, Region, in_data, in_rodata, in_stack, nowhere, check_present, allocate, Handled, resumes,
  exits, serve, handle_page_fault,
}

-- The address is one that the segment has given out.
pub record Given (m : Segment) (va : ℕ) : Type 0 where
  pub lower : m.start ≤ va
  pub upper : va < m.next_free

-- The accesses that the kernel permits on the page not being there: in the data, reading in the
-- read-only data, and in the stack, the segments in this order.
pub data Permits (ctx : Space) (va error_code : ℕ) : Segment → Type 0 where
  data_access : Given ctx.data_segment va → Permits ctx va error_code ctx.data_segment
  rodata_access :
      ¬ Given ctx.data_segment va
      → Given ctx.rodata va
      → bit_and error_code 2 ≢ 2
      → Permits ctx va error_code ctx.rodata
  stack_access :
      ¬ Given ctx.data_segment va
      → ¬ Given ctx.rodata va
      → ctx.stack.start ≤ va
      → va ≤ ctx.stack.end_address
      → Permits ctx va error_code ctx.stack

is_in-Given : (m : Segment) (va : ℕ) → is_in m va ≡ true → Given m va
is_in-Given m va e = record { lower = ground arith; upper = ground arith }

is_in-outside : (m : Segment) (va : ℕ) → is_in m va ≡ false → ¬ Given m va
is_in-outside m va e g = ground (arith, g.lower, g.upper)

-- Where an address lies, by what `check_present` returns.
data Located (ctx : Space) (va : ℕ) (r : Region) : Type 0 where
  of_data : r ≡ in_data → Given ctx.data_segment va → Located ctx va r
  of_rodata : r ≡ in_rodata → ¬ Given ctx.data_segment va → Given ctx.rodata va → Located ctx va r
  of_stack :
      r ≡ in_stack
      → ¬ Given ctx.data_segment va
      → ¬ Given ctx.rodata va
      → ctx.stack.start ≤ va
      → va ≤ ctx.stack.end_address
      → Located ctx va r
  of_none :
      r ≡ nowhere
      → ¬ Given ctx.data_segment va
      → ¬ Given ctx.rodata va
      → (ctx.stack.start ≤ va → va ≤ ctx.stack.end_address → ⊥)
      → Located ctx va r

abbrev in_stack_test : Space → ℕ → Bool
in_stack_test ctx va = leb va ctx.stack.end_address && leb ctx.stack.start va

check_present-Located : (ctx : Space) (va : ℕ) → Located ctx va (check_present ctx va)
unfolding check_present
check_present-Located ctx va = elim (Bool-cases (is_in ctx.data_segment va)) [
  | inl a ↦ of_data (rw a refl) (is_in-Given _ va a)
  | inr a ↦ elim (Bool-cases (is_in ctx.rodata va)) [
    | inl b ↦ of_rodata (rw (a, b) refl) (is_in-outside _ va a) (is_in-Given _ va b)
    | inr b ↦ elim (Bool-cases (in_stack_test ctx va)) [
      | inl c ↦
          of_stack (rw (a, b, c) refl) (is_in-outside _ va a) (is_in-outside _ va b) (ground arith)
            (ground arith)
      | inr c ↦
          of_none (rw (a, b, c) refl) (is_in-outside _ va a) (is_in-outside _ va b)
            (λ lo hi. ground arith)
    ]
  ]
]

-- What `handle_page_fault` comes to: it serves the fault for a segment, or the process exits.
pub data Outcomes (frame : ℕ → ℕ) (ctx : Space) (va error_code : ℕ) (f : Frames) (r : Handled)
    : Type 0 where
  served :
      (m : Segment)
      → bit_and error_code 1 ≢ 1
      → Permits ctx va error_code m
      → r ≡ resumes (allocate frame ctx va m f)
      → Outcomes frame ctx va error_code f r
  refused :
      (bit_and error_code 1 ≡ 1) ⊎ ((m : Segment) → ¬ Permits ctx va error_code m)
      → r ≡ exits
      → Outcomes frame ctx va error_code f r

rodata-Permits :
    (ctx : Space) (va error_code : ℕ)
    → ¬ Given ctx.data_segment va
    → Given ctx.rodata va
    → bit_and error_code 2 ≡ 2
    → (m : Segment) → ¬ Permits ctx va error_code m
rodata-Permits ctx va error_code out here w m (data_access g) = out g
rodata-Permits ctx va error_code out here w m (rodata_access o g r) = r w
rodata-Permits ctx va error_code out here w m (stack_access o o' lo hi) = o' here

outside-Permits :
    (ctx : Space) (va error_code : ℕ)
    → ¬ Given ctx.data_segment va
    → ¬ Given ctx.rodata va
    → (ctx.stack.start ≤ va → va ≤ ctx.stack.end_address → ⊥)
    → (m : Segment) → ¬ Permits ctx va error_code m
outside-Permits ctx va error_code a b c m (data_access g) = a g
outside-Permits ctx va error_code a b c m (rodata_access o g r) = b g
outside-Permits ctx va error_code a b c m (stack_access o o' lo hi) = c lo hi

serve-Outcomes :
    (frame : ℕ → ℕ) (ctx : Space) (va error_code : ℕ) (f : Frames) (r : Region)
    → bit_and error_code 1 ≢ 1
    → Located ctx va r
    → Outcomes frame ctx va error_code f (serve frame ctx va error_code f r)
unfolding serve
serve-Outcomes frame ctx va error_code f r ok (of_data e g) =
    served ctx.data_segment ok (data_access g) (rw e refl)
serve-Outcomes frame ctx va error_code f r ok (of_rodata e out g) =
    elim (Bool-cases (bit_and error_code 2 == 2)) [
      | inl w ↦
          refused (inr (rodata-Permits ctx va error_code out g (ground arith))) (rw (e, w) refl)
      | inr w ↦ served ctx.rodata ok (rodata_access out g (λ h. ground arith)) (rw (e, w) refl)
    ]
serve-Outcomes frame ctx va error_code f r ok (of_stack e a b lo hi) =
    served ctx.stack ok (stack_access a b lo hi) (rw e refl)
serve-Outcomes frame ctx va error_code f r ok (of_none e a b c) =
    refused (inr (outside-Permits ctx va error_code a b c)) (rw e refl)

-- A page fault that is not a protection violation is served by `allocate` for the first segment that
-- permits the access; the process exits only when it is a protection violation or no segment
-- permits the access.
pub handle_page_fault-Outcomes :
    (frame : ℕ → ℕ) (ctx : Space) (va error_code : ℕ) (f : Frames)
    → Outcomes frame ctx va error_code f (handle_page_fault frame ctx va error_code f)
unfolding handle_page_fault
handle_page_fault-Outcomes frame ctx va error_code f =
    elim (Bool-cases (bit_and error_code 1 == 1)) [
      | inl violation ↦ refused (inl (ground arith)) (rw violation refl)
      | inr absent ↦ rw absent (
          serve-Outcomes frame ctx va error_code f _ (λ e. ground arith)
            (check_present-Located ctx va))
    ]
