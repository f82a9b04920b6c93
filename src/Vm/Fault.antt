-- ===== src/Vm/Fault.antt =====
-- assignment2/entry.c: `check_present`, `allocate` and `handle_page_fault`.
pub mod Served
pub mod Mapping
use operating_systems_assign.Base.{
  ℕ, bit_and, Bool, true, false, ◌&&◌, not, Option, none, some, ◌==◌, ltb, leb, if◌then◌else◌,
}
use operating_systems_assign.Sched.Context.{Segment}
use operating_systems_assign.Vm.Tables.{Space, Frames, map_page}

-- What `check_present` returns: 1, 2, 3 and -1.
pub data Region : Type 0 where
  in_data in_rodata in_stack nowhere : Region

abbrev pub is_in : Segment → ℕ → Bool
is_in m va = ltb va m.next_free && leb m.start va

unfoldable pub check_present : Space → ℕ → Region
check_present ctx va =
    if is_in ctx.data_segment va
    then in_data
    else if is_in ctx.rodata va
    then in_rodata
    else if leb va ctx.stack.end_address && leb ctx.stack.start va
    then in_stack
    else nowhere

unfoldable pub allocate : (ℕ → ℕ) → Space → ℕ → Segment → Frames → Frames
unfolding map_page
allocate frame ctx va m f = map_page frame none m.access_flags ctx.pgd va f

-- What a fault comes to: the interrupted instruction runs again, or `do_exit` ends the process.
pub data Handled : Type 0 where
  resumes : Frames → Handled
  exits : Handled

serve : (ℕ → ℕ) → Space → ℕ → ℕ → Frames → Region → Handled
unfolding allocate
serve frame ctx va error_code f in_data = resumes (allocate frame ctx va ctx.data_segment f)
serve frame ctx va error_code f in_rodata =
    if bit_and error_code 2 == 2 then exits else resumes (allocate frame ctx va ctx.rodata f)
serve frame ctx va error_code f in_stack = resumes (allocate frame ctx va ctx.stack f)
serve frame ctx va error_code f nowhere = exits

unfoldable pub handle_page_fault : (ℕ → ℕ) → Space → ℕ → ℕ → Frames → Handled
unfolding serve check_present
handle_page_fault frame ctx va error_code f =
    if bit_and error_code 1 == 1
    then exits
    else serve frame ctx va error_code f (check_present ctx va)
