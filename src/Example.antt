-- ===== src/Example.antt =====
-- assignment4/example/objstore.c: the object store that the course hands out, with one block for an
-- object, in the two builds, with the cache (-DCACHE) and without it. The block with the number of
-- the object's id is its content. `mmap` gives a page of zeros at the address `page`.
pub mod Content
pub mod Table
pub mod Creation
pub mod Bytes
pub mod Reading
pub mod Writing
pub mod RoundTrip
pub mod Mount
pub mod Synced
pub mod Remount
use operating_systems_assign.Base.{
  ℕ, zero, suc, ◌+◌, ◌-◌, ◌*◌, ◌/◌, Bool, true, false, not, ◌&&◌, List, Option, none, some, ◌==◌,
  ltb, if◌then◌else◌,
}
use operating_systems_assign.Base.Arrays.{copy_bytes, update}
use operating_systems_assign.ObjStore.Disk.{
  block_size, Device, Area, Status, success, failure, read_block, write_block,
}
use operating_systems_assign.ObjStore.Store.{Outcome, done, undefined, ◌>>=◌, same_text, length}
use operating_systems_assign.ObjStore.Lookup.{Stat}

-- `MAX_OBJS`
abbrev pub max_objs : ℕ
max_objs = 16

-- How many entries of `struct object`, of 88 bytes each, the page at `objs` has room for.
abbrev pub page_entries : ℕ
page_entries = 46

-- `CACHE_SIZE`
abbrev pub cache_size : ℕ
cache_size = 128 * 1024 * 1024

-- `struct object`; -1 in `cache_index` is `none`.
pub record Entry : Type 0 where
  pub id : ℕ
  pub size : ℕ
  pub cache_index : Option ℕ
  pub dirty : ℕ
  pub key : List ℕ

-- The page at `objs`, the cache of `struct objfs_state` and the device.
pub record Objfs : Type 0 where
  pub objs : ℕ → Entry
  pub cache : Area
  pub blkdev : Device

abbrev pub set_entry_at : ℕ → Entry → Objfs → Objfs
set_entry_at n e s = record s { objs = update s.objs n e }

-- Both `init_object_cached` and `remove_object_cached`.
abbrev pub reset_cached : Bool → Entry → Entry
reset_cached false e = e
reset_cached true e = record e { cache_index = none; dirty = 0 }

-- `!obj->id`
abbrev pub unused : Entry → Bool
unused e = e.id == 0

-- `obj->id && !strcmp(obj->key, key)`
abbrev pub held_as : List ℕ → Entry → Bool
held_as key e = not (unused e) && same_text e.key key

-- The loops of `find_object_id` and `destroy_object`: the first of `n` entries from entry `ctr` on
-- that is in use under the key.
unfoldable pub find_entry : (ℕ → Entry) → List ℕ → ℕ → ℕ → Option ℕ
find_entry objs key zero ctr = none
find_entry objs key (suc n) ctr =
    let rest = find_entry objs key n (suc ctr) in if held_as key (objs ctr) then some ctr else rest

unfoldable pub find_object_id : List ℕ → Objfs → Option ℕ
unfolding find_entry
find_object_id key s = elim (find_entry s.objs key max_objs 0) [
  | none ↦ none
  | some n ↦ some (s.objs n).id
]

-- `free->id = ctr+2;`
abbrev pub claim_entry : (ℕ → Entry) → ℕ → ℕ → Entry
claim_entry objs ctr = update objs ctr (record (objs ctr) { id = ctr + 2 })

-- What the loop of `create_object` leaves: a return of -1 for a key in use, or the entry `free`.
pub data Scan : Type 0 where
  duplicate : (ℕ → Entry) → Scan
  scanned : (ℕ → Entry) → Option ℕ → Scan

-- The loop once `free` is set.
unfoldable pub scan_taken : List ℕ → (ℕ → Entry) → ℕ → ℕ → ℕ → Scan
scan_taken key objs free zero ctr = scanned objs (some free)
scan_taken key objs free (suc n) ctr =
    let rest = scan_taken key objs free n (suc ctr) in
    if held_as key (objs ctr) then duplicate objs else rest

-- The loop while `free` is NULL.
unfoldable pub scan_free : List ℕ → (ℕ → Entry) → ℕ → ℕ → Scan
unfolding scan_taken
scan_free key objs zero ctr = scanned objs none
scan_free key objs (suc n) ctr =
    let rest = scan_free key objs n (suc ctr) in
    if unused (objs ctr)
    then scan_taken key (claim_entry objs ctr) ctr n (suc ctr)
    else if held_as key (objs ctr)
    then duplicate objs
    else rest

-- `strcpy(free->key, key); init_object_cached(obj); return free->id;` after the loop, where `obj`
-- stands behind the last entry. `char key[64]` has room for 63 characters.
abbrev pub finish_create : Bool → List ℕ → Objfs → Scan → Outcome (Objfs × Option ℕ)
finish_create cached key s (duplicate objs) = done (record s { objs = objs }, none)
finish_create cached key s (scanned objs none) = done (record s { objs = objs }, none)
finish_create cached key s (scanned objs (some n)) =
    if ltb (length key) 64
    then (let named = update objs n (record (objs n) { key = key }) in
        let after = update named max_objs (reset_cached cached (named max_objs)) in
        done (record s { objs = after }, some (after n).id))
    else undefined

-- The new object's id; `none` is the -1.
unfoldable pub create_object : Bool → List ℕ → Objfs → Outcome (Objfs × Option ℕ)
unfolding scan_free
create_object cached key s = finish_create cached key s (scan_free key s.objs max_objs 0)

unfoldable pub destroy_object : Bool → List ℕ → Objfs → Objfs × Status
unfolding find_entry
destroy_object cached key s = elim (find_entry s.objs key max_objs 0) [
  | none ↦ (s, failure)
  | some n ↦
      (set_entry_at n (record (reset_cached cached (s.objs n)) { id = 0; size = 0 }) s, success)
]
