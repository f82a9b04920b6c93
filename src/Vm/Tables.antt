-- ===== src/Vm/Tables.antt =====
-- The page tables that assignment1/context_mm.c and assignment2/entry.c share: four levels of 512
-- entries of 64 bits. `osmap` gives the table in a frame, so a table is named by its frame. The
-- frame that `os_pfn_alloc` returns at its `n`-th call is the parameter `frame n`.
pub mod Entries
pub mod Opening
pub mod Forest
pub mod Mapped
pub mod Extended
pub mod Page
pub mod Grown
use operating_systems_assign.Base.{
  ℕ, suc, ◌*◌, ◌/◌, ◌%◌, ◌^◌, bit_and, bit_or, Bool, false, List, Option, none, some, ◌&&◌, ◌==◌,
  ltb, if◌then◌else◌,
}
use operating_systems_assign.Base.Arrays.{update}
use operating_systems_assign.Sched.Context.{Segment}

-- `mms` of `struct exec_context`, and what `arg_pfn` and `pgd` hold of it.
pub record Space : Type 0 where
  pub code : Segment
  pub rodata : Segment
  pub data_segment : Segment
  pub stack : Segment
  pub pgd : ℕ
  pub arg_pfn : ℕ

-- The entries of the table in each frame, the number of calls of `os_pfn_alloc` so far, and the
-- calls of `os_pfn_free`, the last one first.
pub record Frames : Type 0 where
  pub tables : ℕ → ℕ → ℕ
  pub served : ℕ
  pub released : List (ℕ × ℕ)

-- `OS_PT_REG` and `USER_REG`
abbrev pub os_pt_region : ℕ
os_pt_region = 1

abbrev pub user_region : ℕ
user_region = 2

-- `va>>12 & 0x1FF` and so on; the index at level 4 has no mask.
abbrev pub l1_index : ℕ → ℕ
l1_index va = va / 2 ^ 12 % 512

abbrev pub l2_index : ℕ → ℕ
l2_index va = va / 2 ^ 21 % 512

abbrev pub l3_index : ℕ → ℕ
l3_index va = va / 2 ^ 30 % 512

abbrev pub l4_index : ℕ → ℕ
l4_index va = va / 2 ^ 39

-- `(entry & 0x1) == 1`
abbrev pub is_present : ℕ → Bool
is_present entry = bit_and entry 1 == 1

-- `(u32)(entry>>12)`
abbrev pub frame_of : ℕ → ℕ
frame_of entry = entry / 4096 % 2 ^ 32

abbrev pub set_entry : ℕ → ℕ → ℕ → Frames → Frames
set_entry p i entry f = record f { tables = update f.tables p (update (f.tables p) i entry) }

-- `for(u32 i=0;i<512;i++) table[i]=0;`
abbrev pub clear_table : ℕ → Frames → Frames
clear_table p f = record f {
  tables = update f.tables p (λ i. if ltb i 512 then 0 else f.tables p i);
}

-- `entry |= a<<12; entry |= 0x5;` with a `u32` for `a`
abbrev pub link : ℕ → ℕ → ℕ → Frames → Frames
link p i a f = set_entry p i (bit_or (bit_or (f.tables p i) (a * 4096 % 2 ^ 32)) 5) f

-- `if((flag & 0x2) == 2) entry |= 0x2;`
abbrev pub grant : ℕ → ℕ → ℕ → Frames → Frames
grant flag p i f = if bit_and flag 2 == 2 then set_entry p i (bit_or (f.tables p i) 2) f else f

abbrev pub take_frame : Frames → Frames
take_frame f = record f { served = suc f.served }

-- Levels 4, 3 and 2: the table below entry `i` of the table `p`, which is made if it is not there.
unfoldable pub open_table : (ℕ → ℕ) → ℕ → ℕ → ℕ → Frames → Frames × ℕ
open_table frame flag p i f =
    if is_present (f.tables p i)
    then (grant flag p i f, frame_of (f.tables p i))
    else (let a = frame f.served in (grant flag p i (link p i a (clear_table a (take_frame f))), a))

-- Level 1: the page, from `os_pfn_alloc` or the one given.
unfoldable pub open_page : (ℕ → ℕ) → Option ℕ → ℕ → ℕ → ℕ → Frames → Frames
open_page frame given flag p i f = if is_present (f.tables p i) then f else elim given [
  | none ↦ grant flag p i (link p i (frame f.served) (take_frame f))
  | some a ↦ grant flag p i (link p i a f)
]

-- The loop `for(int level=4;level>=1;level--)` of both functions `allocate`.
unfoldable pub map_page : (ℕ → ℕ) → Option ℕ → ℕ → ℕ → ℕ → Frames → Frames
unfolding open_table open_page
map_page frame given flag pgd va f =
    let (f3, l3) = open_table frame flag pgd (l4_index va) f in
    let (f2, l2) = open_table frame flag l3 (l3_index va) f3 in
    let (f1, l1) = open_table frame flag l2 (l2_index va) f2 in
    open_page frame given flag l1 (l1_index va) f1

-- The walk of `do_syscall`: the frame and the index of the entry at level 1, if every table above
-- it is there.
unfoldable pub walk : (ℕ → ℕ → ℕ) → ℕ → ℕ → Option (ℕ × ℕ)
walk tables pgd va =
    let e4 = tables pgd (l4_index va) in
    let e3 = tables (frame_of e4) (l3_index va) in
    let e2 = tables (frame_of e3) (l2_index va) in
    if is_present e4 && (is_present e3 && is_present e2)
    then some (frame_of e2, l1_index va)
    else none

entry_present : (ℕ → ℕ → ℕ) → Option (ℕ × ℕ) → Bool
entry_present tables none = false
entry_present tables (some (p, i)) = is_present (tables p i)

-- Whether all four entries are present.
unfoldable pub is_mapped : (ℕ → ℕ → ℕ) → ℕ → ℕ → Bool
unfolding walk entry_present
is_mapped tables pgd va = entry_present tables (walk tables pgd va)
