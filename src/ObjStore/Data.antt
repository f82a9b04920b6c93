-- ===== src/ObjStore/Data.antt =====
-- assignment4/objstore.c: `objstore_write` and `objstore_read`. The flag `c` says whether the build
-- has the cache. `mmap` is taken to succeed, with a zeroed page at a block boundary; a block
-- number of -1 that is used as an index is undefined.
pub mod Ints
pub mod Direct
pub mod Layout
pub mod Reading
pub mod Behind
pub mod Opening
pub mod Room
pub mod Files
pub mod Writing
pub mod Forgotten
pub mod Refines
pub mod Since
pub mod Calls
pub mod Runs
pub mod RoundTrip
use operating_systems_assign.Base.{
  ℕ, zero, suc, ◌+◌, ◌-◌, ◌*◌, ◌/◌, ◌%◌, ◌^◌, Bool, true, false, not, Option, none, some, ◌==◌, ltb,
  if◌then◌else◌,
}
use operating_systems_assign.Base.Arrays.{update, copy_bytes}
use operating_systems_assign.ObjStore.Disk.{block_size, Area}
use operating_systems_assign.ObjStore.Cache.{cache_blk_read, cache_blk_write}
use operating_systems_assign.ObjStore.Store.{Object, Store, Outcome, done, undefined, ◌>>=◌}
use operating_systems_assign.ObjStore.Alloc.{free_data_block}
use operating_systems_assign.ObjStore.Lookup.{find_target}
use operating_systems_assign.ObjStore.Destroy.{load_int, fresh_page}

-- `indirect_block[i] = v`: the four bytes of an `int`, the lowest first.
unfoldable pub store_int : (ℕ → ℕ) → ℕ → ℕ → ℕ → ℕ
store_int bytes i v =
    update
      (update (update (update bytes (4 * i) (v % 256)) (4 * i + 1) (v / 256 % 256)) (4 * i + 2)
        (v / 65536 % 256))
      (4 * i + 3) (v / 16777216 % 256)

-- The page that holds the `size` bytes of `buff`, and zeros behind them.
abbrev pub page_of : (ℕ → ℕ) → ℕ → Area
page_of buff size = record fresh_page { bytes = copy_bytes size fresh_page.bytes 0 buff }

-- `temp`: `mmap` refuses a length of 0, and `malloc_4k` turns that into NULL, which is `none`.
abbrev pub temp_of : (ℕ → ℕ) → ℕ → Option Area
temp_of buff zero = none
temp_of buff (suc size) = some (page_of buff (suc size))

-- The ranges of the source: which entry of `indirect` governs page `a`, and the page at which
-- that indirect block begins.
abbrev pub indirect_entry : ℕ → ℕ
indirect_entry a = if ltb a 1028 then 0 else if ltb a 2052 then 1 else if ltb a 3076 then 2 else 3

abbrev pub indirect_start : ℕ → ℕ
indirect_start a =
    if ltb a 1028 then 4 else if ltb a 2052 then 1028 else if ltb a 3076 then 2052 else 3076

-- The first page that no block of an object can hold.
abbrev pub max_pages : ℕ
max_pages = 4100

-- `int a = offset/BLOCK_SIZE` of a write. A negative number passes `a <= 3` and is out of the array.
abbrev pub write_index : ℕ → Outcome ℕ
write_index offset =
    let a = offset / block_size % 2 ^ 32 in if ltb a (2 ^ 31) then done a else undefined

-- `int curr=(long)offset` and `int a = curr/BLOCK_SIZE` of a read, which rounds towards zero.
abbrev pub read_index : ℕ → Outcome ℕ
read_index offset =
    let curr = offset % 2 ^ 32 in
    if ltb curr (2 ^ 31)
    then done (curr / block_size)
    else if ltb (2 ^ 32 - curr) block_size
    then done 0
    else undefined

abbrev pub block_number : Option ℕ → Outcome ℕ
block_number none = undefined
block_number (some blk) = done blk

abbrev pub save_block : Bool → ℕ → Area → Store → Store
save_block c blk temp s = record s { blocks = cache_blk_write c s.blocks blk temp 0 }

-- `cache_blk_write(objfs,blk,temp)`. From NULL the cache copies through the null pointer; without
-- the cache `pwrite` fails, which is passed over.
abbrev pub save_temp : Option Area → Bool → ℕ → Store → Outcome Store
save_temp (some temp) c blk s = done (save_block c blk temp s)
save_temp none true blk s = undefined
save_temp none false blk s = done s

abbrev pub set_object : ℕ → Object → Store → Store
set_object n o s = record s { objects = update s.objects n o }

-- `a <= 3`
unfoldable pub write_direct : Bool → ℕ → ℕ → Option Area → Option ℕ → Store → Outcome Store
write_direct c n a temp data_1 s = block_number data_1 >>= λ blk. save_temp temp c blk s >>= λ t.
    let o = t.objects n in done (set_object n (record o { direct = update o.direct a blk }) t)

-- The first page of an indirect block: the block allocated is the indirect one, and one more is
-- taken for the data.
unfoldable pub write_first : Bool → ℕ → ℕ → Option Area → Option ℕ → Store → Outcome Store
write_first c n k temp data_1 s =
    let (s', data_2) = free_data_block s in
    block_number data_1 >>= λ blk_1. block_number data_2 >>= λ blk_2.
    let o = s'.objects n in
    let t = set_object n (record o { indirect = update o.indirect k blk_1 }) s' in
    let indirect_block = record fresh_page { bytes = store_int fresh_page.bytes 0 blk_2 } in
    save_temp temp c blk_2 (save_block c blk_1 indirect_block t)

-- A later page: the indirect block is read, changed and written.
unfoldable pub write_later : Bool → ℕ → ℕ → ℕ → Option Area → Option ℕ → Store → Outcome Store
write_later c n k i temp data_1 s = block_number data_1 >>= λ blk.
    let at = (s.objects n).indirect k in
    let (b, page) = cache_blk_read c s.blocks at fresh_page 0 in
    let t = record s { blocks = b } in
    let page' = record page { bytes = store_int page.bytes i blk } in
    save_temp temp c blk (save_block c at page' t)

unfoldable pub write_page : Bool → ℕ → ℕ → Option Area → Option ℕ → Store → Outcome Store
write_page c n a temp data_1 s =
    if ltb a 4
    then write_direct c n a temp data_1 s
    else if not (ltb a max_pages)
    then done s
    else if a == indirect_start a
    then write_first c n (indirect_entry a) temp data_1 s
    else write_later c n (indirect_entry a) (a - indirect_start a) temp data_1 s

pub write_target : Bool → (ℕ → ℕ) → ℕ → ℕ → Store → Option ℕ → Outcome (Store × Option ℕ)
write_target c buff size offset s none = done (s, none)
write_target c buff size offset s (some n) =
    let (s', data_1) = free_data_block s in
    let o = s'.objects n in
    let grown = set_object n (record o { size = o.size + size }) s' in
    write_index offset >>= λ a.
    write_page c n a (temp_of buff size) data_1 grown >>= λ t. done (t, some size)

-- `none` is the -1 of an unknown handle.
unfoldable pub objstore_write : Bool → ℕ → (ℕ → ℕ) → ℕ → ℕ → Store → Outcome (Store × Option ℕ)
unfolding write_target
objstore_write c objid buff size offset s =
    let (s', target) = find_target s objid true in write_target c buff size offset s' target

-- One round of the loop of `objstore_read`; `none` is the `break`.
unfoldable pub read_page : Bool → Option ℕ → ℕ → ℕ → Store → Area → Outcome (Option (Store × Area))
read_page c target a temp_off s temp = if not (ltb a max_pages) then done none else elim target [
  | none ↦ undefined
  | some n ↦
      let o = s.objects n in
      if ltb a 4
      then (let (b, temp') = cache_blk_read c s.blocks (o.direct a) temp temp_off in
          done (some (record s { blocks = b }, temp')))
      else (let (b, page) =
            cache_blk_read c s.blocks (o.indirect (indirect_entry a)) fresh_page 0 in
          let block_add = load_int page.bytes (a - indirect_start a) in
          let (b', temp') = cache_blk_read c b block_add temp temp_off in
          done (some (record s { blocks = b' }, temp')))
]

-- `while(blocks){ … blocks--; curr += BLOCK_SIZE; temp_off += BLOCK_SIZE; }`
unfoldable pub read_pages : Bool → Option ℕ → ℕ → ℕ → ℕ → Store → Area → Outcome (Store × Area)
read_pages c target zero curr temp_off s temp = done (s, temp)
read_pages c target (suc blocks) curr temp_off s temp = read_index curr >>= λ a.
    read_page c target a temp_off s temp >>= λ r. elim r [
      | none ↦ done (s, temp)
      | some (s', temp') ↦
          read_pages c target blocks (curr + block_size) (temp_off + block_size) s' temp'
    ]

-- The new contents of `buff`. It returns `size`.
unfoldable pub objstore_read : Bool → ℕ → (ℕ → ℕ) → ℕ → ℕ → Store → Outcome (Store × (ℕ → ℕ))
objstore_read c objid buff size offset s =
    let (s', target) = find_target s objid false in
    read_pages c target ((size + block_size - 1) / block_size) offset 0 s' fresh_page
    >>= λ (t, temp). done (t, copy_bytes size buff 0 temp.bytes)
