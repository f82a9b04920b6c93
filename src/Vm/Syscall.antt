-- ===== src/Vm/Syscall.antt =====
-- assignment2/entry.c: `do_syscall`. User memory is a parameter; characters that `printf` writes
-- are listed in order.
pub mod Segments
pub mod Promises
use operating_systems_assign.Base.{
  ℕ, zero, suc, ◌+◌, ◌-◌, ◌*◌, ◌/◌, ◌%◌, ◌^◌, Bool, true, false, not, ◌&&◌, List, [], ◌∷◌, ◌++◌,
  Option, none, some, ◌==◌, ltb, leb, if◌then◌else◌,
}
use operating_systems_assign.Sched.Context.{Segment}
use operating_systems_assign.Vm.Tables.{
  Space, Frames, user_region, is_present, set_entry, walk, is_mapped,
}
use operating_systems_assign.Vm.Context.{release}

-- The calling process, its page tables and what has been printed.
pub record Process : Type 0 where
  pub id : ℕ
  pub space : Space
  pub frames : Frames
  pub output : List ℕ

pub data Result : Type 0 where
  returns : ℕ → Process → Result
  exits : Result
  undefined : Result

abbrev pub minus_one : ℕ
minus_one = 2 ^ 64 - 1

-- Sums and differences of `u64`.
abbrev pub plus : ℕ → ℕ → ℕ
plus a b = (a + b) % 2 ^ 64

abbrev pub minus : ℕ → ℕ → ℕ
minus a b = (a + 2 ^ 64 - b) % 2 ^ 64

-- `size*4096` with a `u32`
abbrev pub bytes_of : ℕ → ℕ
bytes_of size = size * 4096 % 2 ^ 32

-- `flags==MAP_RD`
abbrev pub is_map_rd : ℕ → Bool
is_map_rd param2 = param2 % 2 ^ 32 == 0

abbrev pub segment_for : Bool → Space → Segment
segment_for rd ctx = if rd then ctx.rodata else ctx.data_segment

abbrev pub set_next_free : Bool → ℕ → Process → Process
set_next_free true v p = record p {
  space = record (p.space) { rodata = record (p.space.rodata) { next_free = v } };
}
set_next_free false v p = record p {
  space = record (p.space) { data_segment = record (p.space.data_segment) { next_free = v } };
}

-- `case SYSCALL_EXPAND`
unfoldable pub expand : ℕ → ℕ → Process → Result
expand param1 param2 p =
    let size = param1 % 2 ^ 32 in
    let rd = is_map_rd param2 in
    let m = segment_for rd p.space in
    if ltb 512 size
    then returns 0 p
    else if ltb m.end_address (minus (plus m.next_free (bytes_of size)) 1)
    then returns 0 p
    else returns m.next_free (set_next_free rd (plus m.next_free (bytes_of size)) p)

-- One page of `case SYSCALL_SHRINK` is given back, if it is mapped.
abbrev pub drop_entry : Frames → Option (ℕ × ℕ) → Frames
drop_entry f none = f
drop_entry f (some (t, i)) =
    if is_present (f.tables t i)
    then set_entry t i 0 (release user_region (f.tables t i / 4096) f)
    else f

-- `for(int i=1;i<=size;i++)`, with the rounds left
unfoldable pub drop_pages : ℕ → ℕ → ℕ → ℕ → Frames → Frames
drop_pages zero i pgd next_free f = f
drop_pages (suc n) i pgd next_free f =
    drop_pages n (i + 1) pgd next_free
      (drop_entry f (walk f.tables pgd (minus next_free (i * 4096))))

-- `case SYSCALL_SHRINK`. From 2 ^ 19 pages on, `i*4096` overflows an `int`.
unfoldable pub shrink : ℕ → ℕ → Process → Result
unfolding drop_pages
shrink param1 param2 p =
    let size = param1 % 2 ^ 32 in
    let rd = is_map_rd param2 in
    let m = segment_for rd p.space in
    let lower = minus m.next_free (bytes_of size) in
    if ltb lower m.start
    then returns 0 p
    else if leb (2 ^ 19) size
    then undefined
    else returns lower (
        set_next_free rd lower
          (record p { frames = drop_pages size 1 p.space.pgd m.next_free p.frames }))

-- `for(int i=0;i<length;i++) printf("%c",buff[i]);`
unfoldable pub read_buffer : ℕ → ℕ → (ℕ → ℕ) → List ℕ
read_buffer zero at memory = []
read_buffer (suc n) at memory = memory at ∷ read_buffer n (at + 1) memory

-- Whether the pages of the first and of the last byte are mapped.
unfoldable pub buffer_mapped : ℕ → ℕ → Process → Bool
buffer_mapped buff length p =
    let last = minus (plus buff length) 1 in
    is_mapped p.frames.tables p.space.pgd buff
    && (if ltb (buff / 4096) (last / 4096)
        then is_mapped p.frames.tables p.space.pgd last
        else true)

-- `case SYSCALL_WRITE`, which has no `break`.
unfoldable pub write : (ℕ → ℕ) → ℕ → ℕ → Process → Result
unfolding expand buffer_mapped
write memory param1 param2 p =
    let length = param2 % 2 ^ 32 in
    if ltb 1024 length
    then returns minus_one p
    else if not (buffer_mapped param1 length p)
    then returns minus_one p
    else expand param1 param2 (record p { output = p.output ++ read_buffer length param1 memory })

-- `SYSCALL_EXIT` to `SYSCALL_SHRINK`, and the `default`.
pub data Call : Type 0 where
  exit getpid write_call expand_call shrink_call other : Call

unfoldable pub do_syscall : (ℕ → ℕ) → Call → ℕ → ℕ → Process → Result
unfolding write expand shrink
do_syscall memory exit param1 param2 p = exits
do_syscall memory getpid param1 param2 p = returns p.id p
do_syscall memory write_call param1 param2 p = write memory param1 param2 p
do_syscall memory expand_call param1 param2 p = expand param1 param2 p
do_syscall memory shrink_call param1 param2 p = shrink param1 param2 p
do_syscall memory other param1 param2 p = returns minus_one p
