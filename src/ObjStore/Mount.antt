-- ===== src/ObjStore/Mount.antt =====
-- assignment4/objstore.c: `objstore_init` and `objstore_destroy`, and the table of objects and the
-- bitmaps as bytes, in memory and on the disk. Memory is taken to be there, at a block boundary and
-- filled with zeros. The cache below is in ObjStore/Cache/Flush.
pub mod Blocks
pub mod Objects
pub mod Image
pub mod Remount
pub mod Bytes
pub mod Survives
pub mod Session
use operating_systems_assign.Base.{
  ℕ, zero, suc, ◌+◌, ◌*◌, ◌^◌, Bool, List, [], ◌∷◌, none, ◌==◌, if◌then◌else◌,
}
use operating_systems_assign.Base.Arrays.{copy_bytes}
use operating_systems_assign.ObjStore.Disk.{block_size, Device, Area, read_block, write_block}
use operating_systems_assign.ObjStore.Cache.{BlockStore}
use operating_systems_assign.ObjStore.Cache.Flush.{flush_cache, empty_cache}
use operating_systems_assign.ObjStore.Store.{Object, Store}
use operating_systems_assign.ObjStore.Destroy.{load_int, fresh_page}

-- `INODE_BITMAP_SIZE`, `DATA_BITMAP_SIZE`, `INODE_BLOCKS`, and where the parts begin.
abbrev pub inode_bitmap_size : ℕ
inode_bitmap_size = 31

abbrev pub data_bitmap_size : ℕ
data_bitmap_size = 256

abbrev pub inode_blocks : ℕ
inode_blocks = 22528

abbrev pub data_bitmap_offset : ℕ
data_bitmap_offset = 31

abbrev pub inode_block_offset : ℕ
inode_block_offset = 287

-- The bytes of 46 objects of 88 bytes.
abbrev pub inode_bytes : ℕ
inode_bytes = 4048

-- The bytes at `a`, `inode_bitmap` and `data_bitmap`.
pub record Memory : Type 0 where
  pub table : ℕ → ℕ
  pub inode_bitmap : ℕ → ℕ
  pub data_bitmap : ℕ → ℕ

-- The text before the first NUL of the bytes from `at`, `n` of them at most.
unfoldable pub text_at : ℕ → (ℕ → ℕ) → ℕ → List ℕ
text_at zero bytes at = []
text_at (suc n) bytes at =
    let rest = text_at n bytes (at + 1) in if bytes at == 0 then [] else bytes at ∷ rest

-- A `long` that is not negative: two integers, the low one first.
abbrev pub load_long : (ℕ → ℕ) → ℕ → ℕ
load_long bytes i = load_int bytes i + 2 ^ 32 * load_int bytes (i + 1)

-- `struct object` number `n`: `id`, `size`, `cache_index` and `dirty`, which the program does not
-- use, four entries `direct`, four `indirect`, and the key.
unfoldable pub object_at : (ℕ → ℕ) → ℕ → Object
object_at bytes n = record {
  id = load_long bytes (22 * n);
  size = load_long bytes (22 * n + 2);
  direct = λ k. load_int bytes (22 * n + 6 + k);
  indirect = λ k. load_int bytes (22 * n + 10 + k);
  key = text_at 32 bytes (88 * n + 56);
}

-- `for(int i=0;i<n;i++) read_block(objfs, i+blk, buf + i*BLOCK_SIZE);`, with the rounds left
unfoldable pub read_blocks : ℕ → ℕ → Device → ℕ → Area → Area
read_blocks zero i d blk buf = buf
read_blocks (suc n) i d blk buf =
    read_blocks n (i + 1) d blk (read_block d (blk + i) buf (block_size * i)).1

-- `for(int i=0;i<n;i++) write_block(objfs, blk+i, buf + i*BLOCK_SIZE);`
unfoldable pub write_blocks : ℕ → ℕ → Device → ℕ → Area → Device
write_blocks zero i d blk buf = d
write_blocks (suc n) i d blk buf =
    write_blocks n (i + 1) (write_block d (blk + i) buf (block_size * i)).1 blk buf

-- The loop of `objstore_init` over the inode blocks: the page `temp` and the bytes at `b`.
unfoldable pub read_inodes : ℕ → ℕ → Device → Area → (ℕ → ℕ) → ℕ → ℕ
read_inodes zero i d temp b = b
read_inodes (suc n) i d temp b =
    let temp' = (read_block d (inode_block_offset + i) temp 0).1 in
    read_inodes n (i + 1) d temp' (copy_bytes inode_bytes b (inode_bytes * i) temp'.bytes)

-- A block of objects that is marked dirty goes to the disk, with the 48 bytes behind it.
unfoldable pub write_inode : ℕ → (ℕ → ℕ) → (ℕ → ℕ) → Device × Area → Device × Area
write_inode i b dirty (d, temp) =
    if dirty i == 0
    then (d, temp)
    else (let temp' = record temp {
      bytes = copy_bytes block_size temp.bytes 0 (λ j. b (inode_bytes * i + j));
    } in
        ((write_block d (inode_block_offset + i) temp' 0).1, temp'))

unfoldable pub write_inodes : ℕ → ℕ → (ℕ → ℕ) → (ℕ → ℕ) → Device × Area → Device × Area
write_inodes zero i b dirty s = s
write_inodes (suc n) i b dirty s = write_inodes n (i + 1) b dirty (write_inode i b dirty s)

-- What `objstore_init` reads.
unfoldable pub mount_memory : Device → Memory
mount_memory d = record {
  table = read_inodes inode_blocks 0 d fresh_page fresh_page.bytes;
  inode_bitmap = (read_blocks inode_bitmap_size 0 d 0 fresh_page).bytes;
  data_bitmap = (read_blocks data_bitmap_size 0 d data_bitmap_offset fresh_page).bytes;
}

-- The block store before its first use.
abbrev pub new_blocks : Device → Area → BlockStore
new_blocks d cache = record {
  disk = d;
  cache = cache;
  cache_index = λ _. none;
  cache_dirty = λ _. 0;
}

-- The state that `objstore_init` sets up on the image `d`, with the cache at `cache`.
unfoldable pub objstore_init : Device → Area → Store
unfolding mount_memory
objstore_init d cache =
    let m = mount_memory d in
    record {
      objects = object_at m.table;
      backup = none;
      inode_bitmap = load_int m.inode_bitmap;
      data_bitmap = load_int m.data_bitmap;
      dirty_array = λ _. 0;
      blocks = empty_cache (new_blocks d cache);
    }

-- The image before `objstore_destroy` comes to the cache.
unfoldable pub write_tables : Memory → (ℕ → ℕ) → Device → Device
write_tables m dirty d =
    let inodes_written =
      write_blocks inode_bitmap_size 0 d 0 (record fresh_page { bytes = m.inode_bitmap }) in
    let data_written =
      write_blocks data_bitmap_size 0 inodes_written data_bitmap_offset
        (record fresh_page { bytes = m.data_bitmap }) in
    (write_inodes inode_blocks 0 m.table dirty (data_written, fresh_page)).0

-- The image that `objstore_destroy` leaves, where the memory is `m`.
unfoldable pub objstore_destroy : Memory → Store → Device
unfolding write_tables
objstore_destroy m s =
    let disk = write_tables m s.dirty_array s.blocks.disk in
    (flush_cache (record (s.blocks) { disk = disk })).disk
