-- ===== src/ObjStore/Data/Forgotten.antt =====
-- What `objstore_write` of assignment4/objstore.c leaves of the pages behind an indirect block
-- whose first page is written once more.
use operating_systems_assign.Base.{
  ℕ, ◌+◌, ◌-◌, ◌*◌, ◌/◌, ◌<◌, ◌≤◌, ◌≡◌, ◌≢◌, refl, sym, ap, ◌∙◌, Bool, true, false, some, ◌==◌, ltb,
  arith,
}
use operating_systems_assign.Base.Arrays.{update}
use operating_systems_assign.ObjStore.Disk.{block_size}
use operating_systems_assign.ObjStore.Cache.Transparent.{blocks, IsReady}
use operating_systems_assign.ObjStore.Bitmap.{used}
use operating_systems_assign.ObjStore.Store.{Store, done, data_block_offset}
use operating_systems_assign.ObjStore.Alloc.{Takes-result, free_data_block}
use operating_systems_assign.ObjStore.Lookup.{inodes, inodes_per_block, IsNumbered, find_target_lem}
use operating_systems_assign.ObjStore.Data.{
  max_pages, indirect_entry, indirect_start, objstore_write, objstore_read,
}
use operating_systems_assign.ObjStore.Data.Layout.{page_block, entry_in_range}
use operating_systems_assign.ObjStore.Data.Opening.{
  WritesFirst, after_first, grown_by, write_target-first, after_first-WritesFirst,
}
use operating_systems_assign.ObjStore.Data.Room.{Room, free_data_block-Room}
use operating_systems_assign.ObjStore.Data.Files.{is_behind}
use operating_systems_assign.ObjStore.Data.Reading.{objstore_read-ReadsPage}

-- Whether the dirty flags have changed makes no difference.
WritesFirst-dirty :
    (c : Bool) (s : Store) (d : ℕ → ℕ) (n a : ℕ) (buff : ℕ → ℕ) (size j k : ℕ) (t : Store)
    → WritesFirst c (record s { dirty_array = d }) n a buff size j k t
    → WritesFirst c s n a buff size j k t
WritesFirst-dirty c s d n a buff size j k t w = record {
  ready = w.ready;
  in_range = w.in_range;
  was_free = w.was_free;
  apart = w.apart;
  page = w.page;
  opened = w.opened;
  entries = w.entries;
  others = w.others;
  reaches = w.reaches;
  others_kept = w.others_kept;
  grown = w.grown;
  directs = w.directs;
  indirects = w.indirects;
  ids = w.ids;
  bitmap = w.bitmap;
  inodes_kept = w.inodes_kept;
}

objstore_write-WritesFirst :
    (c : Bool) (s : Store) (n a : ℕ) (buff : ℕ → ℕ) (size : ℕ)
    → IsReady c s.blocks
    → IsNumbered s
    → n < inodes
    → used s.inode_bitmap n ≡ 1
    → 0 < size
    → 4 ≤ a
    → a < max_pages
    → a ≡ indirect_start a
    → Room 2 (used s.data_bitmap)
    → (j k : ℕ) × (t : Store) × (objstore_write c (n + 2) buff size (block_size * a) s
        ≡ done (t, some size))
      × WritesFirst c s n a buff size j k t
unfolding objstore_write
objstore_write-WritesFirst c s n a buff size ready ok n_lt n_used some_bytes ge a_lt opens room =
    let d = update s.dirty_array (n / inodes_per_block) 1 in
    let s' = record s { dirty_array = d } in
    let (j, took, left) = free_data_block-Room 1 s' room in
    let r = free_data_block s' in
    let g = grown_by n size r.0.data_bitmap s' in
    let (k, took', left') = free_data_block-Room 0 g left in
    let r' = free_data_block g in
    let t =
      after_first c s' r'.0.data_bitmap n a (data_block_offset + j) (data_block_offset + k) buff
        size in
    (
      j,
      k,
      t,
      rw (find_target_lem s n true ok n_lt n_used) (
          write_target-first c s' n a buff size (data_block_offset + j) (data_block_offset + k)
            r.0.data_bitmap r'.0.data_bitmap some_bytes ge a_lt opens (Takes-result s' j r took)
            (Takes-result g k r' took')),
      WritesFirst-dirty c s d n a buff size j k t
          (after_first-WritesFirst c s' n a buff size j k r r' ready took took'),
    )

-- A page behind the new indirect block has no block of its own.
unplaced :
    (c : Bool) (s t : Store) (n a b : ℕ) (buff : ℕ → ℕ) (size j k : ℕ)
    → WritesFirst c s n a buff size j k t
    → 4 ≤ a
    → a ≡ indirect_start a
    → is_behind a b ≡ true
    → b ≢ a
    → b < max_pages
    → page_block c t n b ≡ 0
unfolding page_block
unplaced c s t n a b buff size j k w ge opens behind ne lt =
    let direct : ltb b 4 ≡ false = ground arith in
    let same : indirect_entry b ≡ indirect_entry a = ground arith in
    let later : (b - indirect_start b == 0) ≡ false = ground arith in
    rw (direct, same, w.opened)
      (w.entries (b - indirect_start b) (entry_in_range b (ground arith) lt) ∙ rw later refl)

-- On a well-numbered store with two free blocks, after a write of one byte or more to the first
-- page of an indirect block of an object in use, be it the first such write or not, every other page behind that block
-- reads as block 0 of the disk, where the first part of the inode bitmap is kept.
pub objstore_write-forgets :
    (c : Bool) (s : Store) (n a b : ℕ) (buff out : ℕ → ℕ) (size len : ℕ)
    → IsReady c s.blocks
    → IsNumbered s
    → n < inodes
    → used s.inode_bitmap n ≡ 1
    → 0 < size
    → 4 ≤ a
    → a < max_pages
    → a ≡ indirect_start a
    → Room 2 (used s.data_bitmap)
    → is_behind a b ≡ true
    → b ≢ a
    → b < max_pages
    → 0 < len
    → len ≤ block_size
    → (t : Store) × (r : Store × (ℕ → ℕ)) × (objstore_write c (n + 2) buff size (block_size * a) s
        ≡ done (t, some size))
      × (objstore_read c (n + 2) out len (block_size * b) t ≡ done r)
      × ((i : ℕ) → i < len → r.1 i ≡ blocks c s.blocks 0 i)
objstore_write-forgets c s n a b buff out size len ready ok n_lt n_used some_bytes ge a_lt opens
      room behind ne b_lt pos small =
    let (j, k, t, wrote, w) =
      objstore_write-WritesFirst c s n a buff size ready ok n_lt n_used some_bytes ge a_lt opens
        room in
    let (r, did, g) =
      objstore_read-ReadsPage c t n b len out w.ready
        (λ m lt u. w.ids m ∙ ok m lt (ap (λ f. used f m) (sym w.inodes_kept) ∙ u)) n_lt
        (ap (λ f. used f n) w.inodes_kept ∙ n_used) b_lt pos small in
    (
      t,
      r,
      wrote,
      did,
      λ i lt. ground (
        arith,
        g.got i,
        unplaced c s t n a b buff size j k w ge opens behind ne b_lt,
        w.others 0 i (omega arith),
      ),
    )
