-- ===== src/Example/Content.antt =====
-- assignment4/example/objstore.c: `objstore_read`, `objstore_write` and what they call in the two
-- builds, `obj_sync` and `fillup_size_details`.
use operating_systems_assign.Base.{
  ℕ, ◌+◌, ◌-◌, ◌*◌, ◌/◌, Bool, true, false, not, ◌||◌, Option, none, some, ◌==◌, ltb, if◌then◌else◌,
}
use operating_systems_assign.Base.Arrays.{copy_bytes}
use operating_systems_assign.ObjStore.Disk.{
  block_size, Device, Area, Status, success, failure, read_block, write_block,
}
use operating_systems_assign.ObjStore.Store.{Outcome, done, undefined}
use operating_systems_assign.ObjStore.Lookup.{Stat}
use operating_systems_assign.Example.{Entry, Objfs, cache_size, page_entries, set_entry_at}

-- `cache_ptr - objfs->cache`
abbrev pub cache_ptr : Entry → ℕ
cache_ptr e = block_size * e.id

-- A page of zeros from `mmap`.
abbrev pub zero_page : ℕ → Area
zero_page page = record { base = page; bytes = λ i. 0 }

-- `if(read_block(..) < 0) return -1; obj->cache_index = obj->id;`
abbrev pub keep_block : ℕ → Objfs → Status × Area → Status × Objfs
keep_block n s (failure, cache) = (failure, record s { cache = cache })
keep_block n s (success, cache) = (
  success,
  set_entry_at n (record (s.objs n) { cache_index = some (s.objs n).id })
      (record s { cache = cache }),
)

-- An object that is not in the cache.
abbrev pub load_object : ℕ → Objfs → Status × Objfs
load_object n s = keep_block n s (read_block s.blkdev (s.objs n).id s.cache (cache_ptr (s.objs n)))

unfoldable pub in_cache : ℕ → Objfs → Status × Objfs
in_cache n s = elim (s.objs n).cache_index [ some k ↦ (success, s) | none ↦ load_object n s ]

-- `memcpy(user_buf, cache_ptr, size);`
abbrev pub take_cached : Entry → ℕ → (ℕ → ℕ) → Status × Objfs → Outcome (Objfs × Option (ℕ → ℕ))
take_cached e size user_buf (failure, s) = done (s, none)
take_cached e size user_buf (success, s) =
    if ltb cache_size (cache_ptr e + size)
    then undefined
    else done (s, some (copy_bytes size user_buf 0 (λ i. s.cache.bytes (cache_ptr e + i))))

-- `memcpy(user_buf, ptr, size);`
abbrev pub take_page : ℕ → (ℕ → ℕ) → Objfs → Status × Area → Outcome (Objfs × Option (ℕ → ℕ))
take_page size user_buf s (failure, ptr) = done (s, none)
take_page size user_buf s (success, ptr) =
    if ltb block_size size then undefined else done (s, some (copy_bytes size user_buf 0 ptr.bytes))

-- The buffer after the copy; `none` is the -1.
unfoldable pub find_read_cached :
    Bool → ℕ → ℕ → (ℕ → ℕ) → ℕ → Objfs → Outcome (Objfs × Option (ℕ → ℕ))
unfolding in_cache
find_read_cached true page n user_buf size s = take_cached (s.objs n) size user_buf (in_cache n s)
find_read_cached false page n user_buf size s =
    take_page size user_buf s (read_block s.blkdev (s.objs n).id (zero_page page) 0)

-- `memcpy(cache_ptr, user_buf, size); obj->dirty = 1;`
abbrev pub put_cached : ℕ → (ℕ → ℕ) → ℕ → Status × Objfs → Objfs × Status
put_cached n user_buf size (failure, s) = (s, failure)
put_cached n user_buf size (success, s) =
    let e = s.objs n in
    (
      set_entry_at n (record e { dirty = 1 })
          (record s {
            cache = record (s.cache) {
              bytes = copy_bytes size s.cache.bytes (cache_ptr e) user_buf;
            };
          }),
      success,
    )

-- The page that is written, zeros behind the bytes of the buffer.
abbrev pub filled_page : ℕ → (ℕ → ℕ) → ℕ → Area
filled_page page user_buf size = record { base = page; bytes = copy_bytes size (λ i. 0) 0 user_buf }

abbrev pub keep_device : Objfs → Status × Device → Objfs × Status
keep_device s (status, blkdev) = (record s { blkdev = blkdev }, status)

unfoldable pub find_write_cached : Bool → ℕ → ℕ → (ℕ → ℕ) → ℕ → Objfs → Objfs × Status
unfolding in_cache
find_write_cached true page n user_buf size s = put_cached n user_buf size (in_cache n s)
find_write_cached false page n user_buf size s =
    keep_device s (write_block s.blkdev (s.objs n).id (filled_page page user_buf size) 0)

-- `obj->size = size; return size;`
abbrev pub finish_write : ℕ → ℕ → Objfs × Status → Objfs × Option ℕ
finish_write n size (s, failure) = (s, none)
finish_write n size (s, success) = (set_entry_at n (record (s.objs n) { size = size }) s, some size)

-- The number of bytes; `none` is the -1. Outside the page `obj->id` is not defined.
unfoldable pub objstore_write : Bool → ℕ → ℕ → (ℕ → ℕ) → ℕ → Objfs → Outcome (Objfs × Option ℕ)
unfolding find_write_cached
objstore_write cached page objid buf size s =
    let n = objid - 2 in
    if ltb objid 2 || not (ltb n page_entries)
    then undefined
    else if not ((s.objs n).id == objid)
    then done (s, none)
    else if ltb block_size size
    then done (s, none)
    else done (finish_write n size (find_write_cached cached page n buf size s))

-- The buffer, and `size` as the result, or `none` for the -1.
unfoldable pub objstore_read : Bool → ℕ → ℕ → (ℕ → ℕ) → ℕ → Objfs → Outcome (Objfs × Option (ℕ → ℕ))
unfolding find_read_cached
objstore_read cached page objid buf size s =
    let n = objid - 2 in
    if ltb objid 2
    then done (s, none)
    else if not (ltb n page_entries)
    then undefined
    else if not ((s.objs n).id == objid)
    then done (s, none)
    else find_read_cached cached page n buf size s

-- `if(write_block(..) < 0) return -1; obj->dirty = 0; return 0;`
abbrev pub finish_sync : ℕ → Objfs × Status → Objfs × Status
finish_sync n (s, failure) = (s, failure)
finish_sync n (s, success) = (set_entry_at n (record (s.objs n) { dirty = 0 }) s, success)

unfoldable pub obj_sync : Bool → ℕ → Objfs → Objfs × Status
obj_sync false n s = (s, success)
obj_sync true n s =
    let e = s.objs n in
    if e.dirty == 0
    then (s, success)
    else finish_sync n (keep_device s (write_block s.blkdev e.id s.cache (cache_ptr e)))

-- `none` is the -1.
unfoldable pub fillup_size_details : Objfs → Stat → Outcome (Option Stat)
fillup_size_details s buf =
    let e = s.objs (buf.st_ino - 2) in
    if ltb buf.st_ino 2
    then done none
    else if not (ltb (buf.st_ino - 2) page_entries)
    then undefined
    else if not (e.id == buf.st_ino)
    then done none
    else done (
        some (record buf {
          st_size = e.size;
          st_blocks = if e.size / 512 * 512 == e.size then e.size / 512 else e.size / 512 + 1;
        }))
