-- ===== src/ObjStore/Cache.antt =====
-- assignment4/objstore.c: `cache_blk_read` and `cache_blk_write`, the direct-mapped write-back
-- cache of 32768 blocks (built with -DCACHE), and the plain build without it. Each runs under
-- `cache_lock` from its first line to its last, so a call is one step.
pub mod View
pub mod Lines
pub mod Transparent
pub mod Runs
pub mod Flush
pub mod Reach
use operating_systems_assign.Base.{
  ℕ, ◌+◌, ◌*◌, ◌/◌, ◌%◌, Bool, true, false, Option, none, some, ◌==◌, if◌then◌else◌,
}
use operating_systems_assign.Base.Arrays.{copy_bytes, update}
use operating_systems_assign.ObjStore.Disk.{block_size, Device, Area, read_block, write_block}

abbrev pub cache_blks : ℕ
cache_blks = 32768

-- `cache` is the area at `cache_ptr`; an entry -1 of `cache_index` is `none`.
pub record BlockStore : Type 0 where
  pub disk : Device
  pub cache : Area
  pub cache_index : ℕ → Option ℕ
  pub cache_dirty : ℕ → ℕ

-- `write_block(objfs, cache_blks * cache_index[j] + j, start)`
unfoldable pub write_back : BlockStore → ℕ → ℕ → BlockStore
write_back s j k = record s {
  disk = (write_block s.disk (cache_blks * k + j) s.cache (block_size * j)).1;
}

-- `read_block(objfs, blk, start)`, and the line's new index
unfoldable pub fetch : BlockStore → ℕ → BlockStore
fetch s blk =
    let j = blk % cache_blks in
    record s {
      cache = (read_block s.disk blk s.cache (block_size * j)).1;
      cache_index = update s.cache_index j (some (blk / cache_blks));
    }

-- The three cases of `cache_blk_read`, by the line's index.
unfoldable pub load_line : BlockStore → ℕ → Option ℕ → BlockStore
unfolding fetch write_back
load_line s blk none = fetch s blk
load_line s blk (some k) =
    let j = blk % cache_blks in
    if k == blk / cache_blks
    then s
    else if s.cache_dirty j == 1
    then fetch (write_back s j k) blk
    else fetch s blk

-- `for(int i=0;i<BLOCK_SIZE;i++) *(temp+i) = *(start+i);`
unfoldable pub copy_out : BlockStore → ℕ → Area → ℕ → Area
copy_out s blk temp off = record temp {
  bytes =
      copy_bytes block_size temp.bytes off
        (λ i. s.cache.bytes (block_size * (blk % cache_blks) + i));
}

unfoldable pub cached_read : BlockStore → ℕ → Area → ℕ → BlockStore × Area
unfolding load_line copy_out
cached_read s blk temp off =
    let s' = load_line s blk (s.cache_index (blk % cache_blks)) in (s', copy_out s' blk temp off)

-- The old block goes to the disk first if the line holds another one and is dirty.
unfoldable pub save_line : BlockStore → ℕ → Option ℕ → BlockStore
unfolding write_back
save_line s blk none = s
save_line s blk (some k) =
    let j = blk % cache_blks in
    if k == blk / cache_blks then s else if s.cache_dirty j == 1 then write_back s j k else s

-- `for(int i=0;i<BLOCK_SIZE;i++) *(start+i) = *(temp+i);`, the new index and the dirty flag
unfoldable pub copy_in : BlockStore → ℕ → Area → ℕ → BlockStore
copy_in s blk temp off =
    let j = blk % cache_blks in
    record s {
      cache = record (s.cache) {
        bytes = copy_bytes block_size s.cache.bytes (block_size * j) (λ i. temp.bytes (off + i));
      };
      cache_index = update s.cache_index j (some (blk / cache_blks));
      cache_dirty = update s.cache_dirty j 1;
    }

unfoldable pub cached_write : BlockStore → ℕ → Area → ℕ → BlockStore
unfolding save_line copy_in
cached_write s blk temp off =
    copy_in (save_line s blk (s.cache_index (blk % cache_blks))) blk temp off

-- The `#else` branches: straight to the device.
unfoldable pub plain_read : BlockStore → ℕ → Area → ℕ → BlockStore × Area
plain_read s blk temp off = (s, (read_block s.disk blk temp off).1)

unfoldable pub plain_write : BlockStore → ℕ → Area → ℕ → BlockStore
plain_write s blk temp off = record s { disk = (write_block s.disk blk temp off).1 }

-- `#ifdef CACHE`
unfoldable pub cache_blk_read : Bool → BlockStore → ℕ → Area → ℕ → BlockStore × Area
unfolding cached_read plain_read
cache_blk_read true s blk temp off = cached_read s blk temp off
cache_blk_read false s blk temp off = plain_read s blk temp off

unfoldable pub cache_blk_write : Bool → BlockStore → ℕ → Area → ℕ → BlockStore
unfolding cached_write plain_write
cache_blk_write true s blk temp off = cached_write s blk temp off
cache_blk_write false s blk temp off = plain_write s blk temp off
