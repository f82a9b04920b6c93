-- ===== src/Vm/Context.antt =====
-- assignment1/context_mm.c: the address space of a new process, and its removal.
pub mod Prepared
use operating_systems_assign.Base.{
  ℕ, ◌+◌, ◌-◌, ◌/◌, ◌%◌, ◌^◌, ◌==◌, ◌∷◌, Option, none, some, if◌then◌else◌,
}
use operating_systems_assign.Sched.Context.{Segment}
use operating_systems_assign.Vm.Tables.{
  Space, Frames, os_pt_region, user_region, l1_index, l2_index, l3_index, l4_index, is_present,
  frame_of, set_entry, clear_table, take_frame, map_page,
}

-- The character that `allocate` and `free_memory` get: 'c', 'd' and 's'.
pub data Kind : Type 0 where
  of_code of_data of_stack : Kind

abbrev pub address_of : Kind → Segment → ℕ
address_of of_stack m = (m.end_address + 2 ^ 64 - 0x1000) % 2 ^ 64
address_of kind m = m.start

-- The page at level 1: for the data it is `arg_pfn`.
abbrev pub given_page : Kind → ℕ → Option ℕ
given_page of_data arg_pfn = some arg_pfn
given_page kind arg_pfn = none

unfoldable pub allocate_segment : (ℕ → ℕ) → Kind → ℕ → Segment → ℕ → Frames → Frames
unfolding map_page
allocate_segment frame kind pgd m arg_pfn f =
    map_page frame (given_page kind arg_pfn) m.access_flags pgd (address_of kind m) f

unfoldable pub prepare_context_mm : (ℕ → ℕ) → Space → Frames → Space × Frames
unfolding allocate_segment
prepare_context_mm frame ctx f =
    let a = frame f.served in
    let f0 = clear_table a (take_frame f) in
    let f1 = allocate_segment frame of_code a ctx.code ctx.arg_pfn f0 in
    let f2 = allocate_segment frame of_data a ctx.data_segment ctx.arg_pfn f1 in
    (record ctx { pgd = a }, allocate_segment frame of_stack a ctx.stack ctx.arg_pfn f2)

abbrev pub release : ℕ → ℕ → Frames → Frames
release region pfn f = record f { released = (region, pfn) ∷ f.released }

-- The table below entry `i` of the table `p` is given back, and the entry cleared, if it is there.
abbrev pub close_table : ℕ → ℕ → Frames → Frames
close_table p i f =
    if is_present (f.tables p i)
    then set_entry p i 0 (release os_pt_region (frame_of (f.tables p i)) f)
    else f

-- Level 1: the page is given back, whatever the entry says.
abbrev pub close_page : Kind → ℕ → ℕ → ℕ → Frames → Frames
close_page of_data arg_pfn p i f = release user_region arg_pfn f
close_page kind arg_pfn p i f = release user_region (f.tables p i / 4096) f

-- The levels above `lower` are only walked down.
unfoldable pub free_memory : Segment → ℕ → Kind → ℕ → ℕ → Frames → Frames
free_memory m p4 kind lower arg_pfn f =
    let va = address_of kind m in
    let p3 = frame_of (f.tables p4 (l4_index va)) in
    let p2 = frame_of (f.tables p3 (l3_index va)) in
    let p1 = frame_of (f.tables p2 (l2_index va)) in
    if lower == 1
    then close_page kind arg_pfn p1 (l1_index va) f
    else if lower == 2
    then close_table p2 (l2_index va) f
    else if lower == 3
    then close_table p3 (l3_index va) f
    else close_table p4 (l4_index va) f

-- One round of the loop of `cleanup_context_mm`.
unfoldable pub free_level : Space → ℕ → Frames → Frames
unfolding free_memory
free_level ctx i f = free_memory ctx.data_segment ctx.pgd of_data i ctx.arg_pfn (
    free_memory ctx.code ctx.pgd of_code i ctx.arg_pfn
      (free_memory ctx.stack ctx.pgd of_stack i ctx.arg_pfn f))

unfoldable pub cleanup_context_mm : Space → Frames → Frames
unfolding free_level
cleanup_context_mm ctx f =
    release os_pt_region ctx.pgd
      (free_level ctx 4 (free_level ctx 3 (free_level ctx 2 (free_level ctx 1 f))))
