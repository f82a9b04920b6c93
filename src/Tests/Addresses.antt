-- ===== src/Tests/Addresses.antt =====
-- The address spaces of assignment2/entry.c and assignment1/context_mm.c at concrete inputs.
use operating_systems_assign.Base.{
  true, some, sym, ◌∙◌, ℕ, ◌+◌, ◌≡◌, ◌≢◌, refl, [], ◌∷◌, ◌^◌, false, arith,
}
use operating_systems_assign.Sched.Context.{Segment}
use operating_systems_assign.Vm.Tables.{
  Space, Frames, open_table, open_page, map_page, walk, is_mapped,
}
use operating_systems_assign.Vm.Tables.Forest.{IsForest}
use operating_systems_assign.Vm.Tables.Mapped.{map_page-is_mapped}
use operating_systems_assign.Vm.Fault.Mapping.{handle_page_fault-is_mapped}
use operating_systems_assign.Vm.Context.{prepare_context_mm, cleanup_context_mm}
use operating_systems_assign.Vm.Context.Prepared.{prepare_context_mm-is_mapped}
use operating_systems_assign.Vm.Fault.{Handled, resumes, exits, handle_page_fault}
use operating_systems_assign.Vm.Fault.Served.{Outcomes, handle_page_fault-Outcomes}
use operating_systems_assign.Vm.Syscall.{
  Process, returns, undefined, expand_call, write_call, set_next_free, expand, shrink, do_syscall,
  write, buffer_mapped, read_buffer,
}
use operating_systems_assign.Vm.Syscall.Segments.{IsLaidOut}
use operating_systems_assign.Vm.Syscall.Promises.{
  do_syscall-IsLaidOut, write-≢-length, shrink-expand, shrink-wraps,
}

abbrev segment : ℕ → ℕ → ℕ → Segment
segment start end_address flags = record {
  start = start;
  end_address = end_address;
  next_free = start;
  access_flags = flags;
}

abbrev space : Space
space = record {
  code = segment 0x1_0000_0000 0x1_0000_7fff 5;
  rodata = segment 0x1_4000_0000 0x1_7fff_ffff 1;
  data_segment = segment 0x1_8000_0000 0x1_ffff_ffff 3;
  stack = segment 0x7_ff00_0000 0x8_0000_0000 3;
  pgd = 10;
  arg_pfn = 77;
}

abbrev no_tables : Frames
no_tables = record { tables = λ _ _. 0; served = 0; released = [] }

abbrev frame : ℕ → ℕ
frame n = 100 + n

-- Every page is mapped, each table by itself.
abbrev process : Process
process = record {
  id = 1;
  space = space;
  frames = record { tables = λ _ _. 7; served = 0; released = [] };
  output = [];
}

process-IsLaidOut : IsLaidOut process
process-IsLaidOut = record {
  rodata = record {
    high = omega arith;
    lower = omega arith;
    upper = omega arith;
    low = omega arith;
  };
  data_segment = record {
    high = omega arith;
    lower = omega arith;
    upper = omega arith;
    low = omega arith;
  };
}

abbrev two_pages : Process
two_pages = set_next_free false 0x1_8000_2000 process

expand_two : expand 2 1 process ≡ returns 0x1_8000_0000 two_pages
unfolding expand
expand_two = refl

syscall_two : do_syscall (λ _. 65) expand_call 2 1 process ≡ returns 0x1_8000_0000 two_pages
unfolding do_syscall expand
syscall_two = refl

do_syscall-IsLaidOut_example : IsLaidOut two_pages
do_syscall-IsLaidOut_example =
    do_syscall-IsLaidOut (λ _. 65) expand_call 2 1 0x1_8000_0000 process two_pages process-IsLaidOut
      syscall_two

shrink-expand_example :
    (f : Frames) × (shrink 2 1 two_pages ≡ returns 0x1_8000_0000 (record process { frames = f }))
shrink-expand_example =
    shrink-expand 2 1 0x1_8000_0000 process two_pages process-IsLaidOut
      (λ e. absurd (omega (arith, e))) expand_two

shrink-wraps_example : shrink (2 ^ 20) 1 process ≡ undefined
shrink-wraps_example = shrink-wraps 1 process process-IsLaidOut

-- A buffer of three bytes in the data segment.
write_three :
    do_syscall (λ _. 65) write_call 0x1_8000_1000 3 process
    ≡ returns 0 (record process { output = 65 ∷ 65 ∷ 65 ∷ [] })
unfolding do_syscall write expand buffer_mapped is_mapped walk read_buffer
write_three = refl

write-≢-length_example : ◌≢◌ {A = ℕ} 0 3
write-≢-length_example =
    write-≢-length (λ _. 65) 0x1_8000_1000 3 0 process
      (record process { output = 65 ∷ 65 ∷ 65 ∷ [] }) process-IsLaidOut (omega arith) (omega arith)
      write_three

handle_page_fault-Outcomes_example :
    Outcomes frame space 0x7_ffff_f000 6 no_tables
      (handle_page_fault frame space 0x7_ffff_f000 6 no_tables)
handle_page_fault-Outcomes_example =
    handle_page_fault-Outcomes frame space 0x7_ffff_f000 6 no_tables

-- Ten frames are taken for a new process, a page that is given among its pages.
prepared : (prepare_context_mm frame space no_tables).1.served ≡ 10
unfolding prepare_context_mm map_page open_table open_page
prepared = refl

-- Every frame taken is given back, and the page that was given.
cleaned :
    (let (ctx, f) = prepare_context_mm frame space no_tables in (cleanup_context_mm ctx f).released)
    ≡ (1, 100)
      ∷ (1, 101)
      ∷ (1, 105)
      ∷ (1, 102)
      ∷ (1, 107)
      ∷ (1, 106)
      ∷ (1, 103)
      ∷ (1, 108)
      ∷ (2, 77)
      ∷ (2, 104)
      ∷ (2, 109)
      ∷ []
unfolding prepare_context_mm map_page open_table open_page cleanup_context_mm
cleaned = refl

-- The empty table in frame 10 is the one table in use.
abbrev OneTable : ℕ → ℕ → Type 0
OneTable l p = (l ≡ 4) × (p ≡ 10)

OneTable-IsForest : IsForest frame 1000 no_tables OneTable
OneTable-IsForest = record {
  small = λ n lt. omega arith;
  distinct = λ m n m_lt n_lt e. omega (arith, e);
  one_level = λ l m p o o'. o.0 ∙ sym o'.0;
  closed = λ l p i lt o h. cc;
  tidy = λ l p i lt o h. refl;
  fresh = λ l p n o le lt e. absurd (omega (arith, o.1, e));
}

map_page-is_mapped_example :
    is_mapped (map_page frame (some 77) 3 10 0x1_8000_0000 no_tables).tables 10 0x1_8000_0000 ≡ true
map_page-is_mapped_example =
    map_page-is_mapped frame 1000 OneTable (some 77) 3 10 0x1_8000_0000 no_tables OneTable-IsForest
      (refl, refl) (omega arith) (omega arith) (omega arith)

abbrev frames_after : Handled → Frames
frames_after exits = no_tables
frames_after (resumes f) = f

stack_served :
    handle_page_fault frame space 0x7_ffff_f000 6 no_tables
    ≡ resumes (frames_after (handle_page_fault frame space 0x7_ffff_f000 6 no_tables))
unfolding handle_page_fault
stack_served = refl

handle_page_fault-is_mapped_example :
    is_mapped
      (frames_after (handle_page_fault frame space 0x7_ffff_f000 6 no_tables)).tables
      10
      0x7_ffff_f000
    ≡ true
handle_page_fault-is_mapped_example =
    handle_page_fault-is_mapped frame 1000 OneTable space 0x7_ffff_f000 6 no_tables
      (frames_after (handle_page_fault frame space 0x7_ffff_f000 6 no_tables)) OneTable-IsForest
      (refl, refl) (omega arith) (omega arith) stack_served

prepare_context_mm-is_mapped_example :
    let (space', f) = prepare_context_mm frame space no_tables in
    (is_mapped f.tables space'.pgd 0x1_0000_0000 ≡ true)
    × (is_mapped f.tables space'.pgd 0x1_8000_0000 ≡ true)
    × (is_mapped f.tables space'.pgd 0x7_ffff_f000 ≡ true)
prepare_context_mm-is_mapped_example =
    prepare_context_mm-is_mapped frame 1000 space no_tables (λ n lt. omega arith)
      (λ m n m_lt n_lt e. omega (arith, e)) (omega arith) (omega arith) (omega arith) (omega arith)
      (omega arith)
