-- ===== src/ObjStore/Destroy.antt =====
-- assignment4/objstore.c: `destroy_object`. A write outside `data_bitmap` is undefined; `mmap`
-- for the indirect block is taken to succeed, and its page stands at a block boundary.
pub mod Faults
use operating_systems_assign.Base.{
  ℕ, zero, suc, ◌+◌, ◌-◌, ◌*◌, ◌/◌, ◌%◌, ◌^◌, ◌<◌, ◌≤◌, ◌≡◌, ◌≢◌, refl, ap, ◌∙◌, ◌⊎◌, inl, inr,
  Bool, true, false, not, ◌&&◌, List, Option, none, some, ◌==◌, ltb, if◌then◌else◌, arith,
  Bool-cases,
}
use operating_systems_assign.Base.Arrays.{update}
use operating_systems_assign.ObjStore.Disk.{block_size, Area, read_block}
use operating_systems_assign.ObjStore.Cache.{BlockStore, cache_blks}
use operating_systems_assign.ObjStore.Cache.View.{holds}
use operating_systems_assign.ObjStore.Scan.{
  Hit, scan_words, Finds, found, missing, scan_words-Finds, mask_of,
}
use operating_systems_assign.ObjStore.Bitmap.{toggle_bit, used, used-toggle_bit}
use operating_systems_assign.ObjStore.Store.{
  Object, Store, Outcome, done, undefined, ◌>>=◌, inode_words, data_words, data_block_offset,
}
use operating_systems_assign.ObjStore.Alloc.{data_blocks}
use operating_systems_assign.ObjStore.Lookup.{inodes, inodes_per_block, has_key, Holds}

-- `blk - data_block_offset`: the macro has no parentheses, so this is `blk - 22528 + 287`. `none`
-- is a negative number.
abbrev pub bit_position : ℕ → Option ℕ
bit_position blk = if ltb (blk + 287) 22528 then none else some (blk + 287 - 22528)

toggle_at : Store → Option ℕ → Outcome Store
toggle_at s none = undefined
toggle_at s (some pos) =
    let idx = pos / 32 in
    if ltb idx data_words
    then done (record s { data_bitmap = toggle_bit s.data_bitmap idx (2 ^ (31 - pos % 32)) })
    else undefined

-- `data_bitmap[idx] = data_bitmap[idx] ^ (1<<(31-bit_pos%32));`
unfoldable pub free_block : ℕ → Store → Outcome Store
unfolding toggle_at
free_block blk s = toggle_at s (bit_position blk)

-- A line that holds the block is given up, dirty or not.
unfoldable pub drop_cached : ℕ → Store → Store
drop_cached blk s =
    let c = s.blocks in
    let j = blk % cache_blks in
    if holds (c.cache_index j) (blk / cache_blks)
    then record s {
      blocks = record c {
        cache_index = update c.cache_index j none;
        cache_dirty = update c.cache_dirty j 0;
      };
    }
    else s

-- One entry of `direct`, and of an indirect block.
unfoldable pub free_entry : ℕ → Store → Outcome Store
free_entry blk s = if blk == 0 then done s else free_block blk (drop_cached blk s)

-- `for(int i=0;i<n;i++)` over the entries, from the first on.
unfoldable pub free_entries : ℕ → (ℕ → ℕ) → ℕ → Store → Outcome Store
free_entries zero entry i s = done s
free_entries (suc n) entry i s = free_entry (entry i) s >>= λ t. free_entries n entry (i + 1) t

-- The `int` at index `i` of a block.
abbrev pub load_int : (ℕ → ℕ) → ℕ → ℕ
load_int bytes i =
    bytes (4 * i)
    + 256 * bytes (4 * i + 1)
    + 65536 * bytes (4 * i + 2)
    + 16777216 * bytes (4 * i + 3)

abbrev pub fresh_page : Area
fresh_page = record { base = 0; bytes = λ _. 0 }

-- The indirect block as it is on the disk, whatever the cache holds.
unfoldable pub read_indirect : ℕ → Store → ℕ → ℕ
read_indirect blk s = load_int (read_block s.blocks.disk blk fresh_page 0).1.bytes

-- One entry of `indirect`: its own bit is toggled first, also if there is no block.
unfoldable pub free_indirect : ℕ → Store → Outcome Store
free_indirect blk s = free_block blk s >>= λ t.
    let t' = drop_cached blk t in
    if blk == 0 then done t' else free_entries 1024 (read_indirect blk t') 0 t'

unfoldable pub free_indirects : ℕ → (ℕ → ℕ) → ℕ → Store → Outcome Store
free_indirects zero entry i s = done s
free_indirects (suc n) entry i s =
    free_indirect (entry i) s >>= λ t. free_indirects n entry (i + 1) t

-- The object's bit is cleared, its inode block marked dirty, its id and size set to 0.
unfoldable pub drop_inode : Store → Hit → Store
drop_inode s h = record s {
  inode_bitmap = toggle_bit s.inode_bitmap h.word h.mask;
  dirty_array = update s.dirty_array (h.index / inodes_per_block) 1;
  objects = update s.objects h.index (record (s.objects h.index) { id = 0; size = 0 });
}

unfoldable pub clear_entries : ℕ → Store → Store
clear_entries n s = record s {
  objects = update s.objects n (record (s.objects n) { direct = λ _. 0; indirect = λ _. 0 });
}

destroy_at : Store → Option Hit → Outcome Store
destroy_at s none = undefined
destroy_at s (some h) =
    let o = s.objects h.index in
    free_entries 4 o.direct 0 (drop_inode s h) >>= λ t.
    free_indirects 4 o.indirect 0 t >>= λ u. done (clear_entries h.index u)

-- It returns 0 wherever it returns; with no object under the key it writes through NULL.
unfoldable pub destroy_object : List ℕ → Store → Outcome Store
unfolding destroy_at
destroy_object key s = destroy_at s (scan_words (has_key s key) inode_words 0 0)
