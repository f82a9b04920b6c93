-- ===== src/ObjStore/Data/Refines.antt =====
-- `objstore_write` of assignment4/objstore.c, on every page, as a change of the files that the
-- store holds.
use operating_systems_assign.Base.{
  ℕ, suc, ◌/◌, ltb→lt, ◌+◌, ◌*◌, ◌<◌, ◌≤◌, ◌≡◌, ◌≢◌, refl, Bool, true, false, some, ◌==◌, ltb, inl,
  inr, Bool-cases, arith,
}
use operating_systems_assign.ObjStore.Disk.{block_size}
use operating_systems_assign.ObjStore.Cache.Reach.{HoldsFrom, Reaches}
use operating_systems_assign.ObjStore.Bitmap.{used}
use operating_systems_assign.ObjStore.Store.{data_block_offset, Store, done, data_block_offset}
use operating_systems_assign.ObjStore.Alloc.{Takes-result, free_data_block}
use operating_systems_assign.ObjStore.Lookup.{inodes, inodes_per_block, find_target_lem}
use operating_systems_assign.ObjStore.Data.{
  indirect_entry, indirect_start, write_target, objstore_write,
}
use operating_systems_assign.ObjStore.Data.Direct.{
  padded, after_write, write_target-step, after_write-WritesPage,
}
use operating_systems_assign.ObjStore.Data.Behind.{
  after_later, write_target-later, after_later-WritesLater,
}
use operating_systems_assign.ObjStore.Data.Layout.{
  Files, Represents, Taken-apart, table-Taken, Represents-objects,
}
use operating_systems_assign.Base.Arrays.{update}
use operating_systems_assign.ObjStore.Data.Opening.{
  after_first, grown_by, write_target-first, after_first-WritesFirst,
}
use operating_systems_assign.ObjStore.Data.Room.{Room, Room-less, free_data_block-Room}
use operating_systems_assign.ObjStore.Data.Files.{is_first, put, IsWritable, Adds-Represents}
use operating_systems_assign.ObjStore.Data.Writing.{direct-Adds}
use operating_systems_assign.ObjStore.Data.Writing.Later.{later-Adds}
use operating_systems_assign.ObjStore.Data.Writing.First.{first-Adds}

-- A write that succeeds: the store holds the files with the page in them, no object has come or
-- gone, only object `n` has changed, only data blocks were written, and the room for `room` more
-- blocks is left.
pub record WritesFile (c : Bool) (s : Store) (f : Files) (n a : ℕ) (buff : ℕ → ℕ) (size room : ℕ)
    (t : Store) : Type 0 where
  pub represents : Represents c t (put f n a (padded buff size))
  pub inodes_kept : t.inode_bitmap ≡ s.inode_bitmap
  pub dirty_kept : t.dirty_array ≡ s.dirty_array
  pub others_kept : (i : ℕ) → i ≢ n → t.objects i ≡ s.objects i
  pub reaches : HoldsFrom data_block_offset s.blocks → Reaches data_block_offset s.blocks t.blocks
  pub room_left : Room room (used t.data_bitmap)

module _ (c : Bool) (s : Store) (f : Files) (n a : ℕ) (buff : ℕ → ℕ) (size m : ℕ)
    (ok : Represents c s f) (may : IsWritable f n a) (pos : 0 < size) where
  abbrev WritesTarget : Type 0
  WritesTarget =
      (t : Store) × (write_target c buff size (block_size * a) s (some n) ≡ done (t, some size))
      × WritesFile c s f n a buff size m t

  writes_direct : a < 4 → Room (suc m) (used s.data_bitmap) → WritesTarget
  writes_direct lt room =
      let (k, took, left) = free_data_block-Room m s room in
      let r = free_data_block s in
      let t = after_write c s r.0.data_bitmap n a (data_block_offset + k) buff size in
      let w = after_write-WritesPage c s n a buff size k r ok.ready took in
      (
        t,
        write_target-step c s n a buff size (data_block_offset + k) r.0.data_bitmap pos lt
            (Takes-result s k r took),
        record {
          represents =
              Adds-Represents c s t f n a (padded buff size) ok may
                (direct-Adds c s t f n a buff size k ok lt w);
          inodes_kept = refl;
          dirty_kept = refl;
          others_kept = w.others_kept;
          reaches = w.reaches;
          room_left = left;
        },
      )

  writes_later : 4 ≤ a → is_first a ≡ false → Room (suc m) (used s.data_bitmap) → WritesTarget
  writes_later ge later room =
      let (k, took, left) = free_data_block-Room m s room in
      let r = free_data_block s in
      let t = after_later c s r.0.data_bitmap n a (data_block_offset + k) buff size in
      let there = may.table_ready ge later in
      let apart =
        Taken-apart s ((s.objects n).indirect (indirect_entry a)) k
          (table-Taken c s f ok n (indirect_entry a) there) took.was_free in
      let w = after_later-WritesLater c s n a buff size k r ok.ready ge may.in_range took apart in
      (
        t,
        write_target-later c s n a buff size (data_block_offset + k) r.0.data_bitmap pos ge
            may.in_range (ground (arith, later)) (Takes-result s k r took),
        record {
          represents =
              Adds-Represents c s t f n a (padded buff size) ok may
                (later-Adds c s t f n a buff size k ok ge may.in_range later there w);
          inodes_kept = refl;
          dirty_kept = refl;
          others_kept = w.others_kept;
          reaches = λ lines.
              w.reaches lines
                (omega (arith, (table-Taken c s f ok n (indirect_entry a) there).number));
          room_left = left;
        },
      )

  writes_first :
      4 ≤ a → a ≡ indirect_start a → Room (suc (suc m)) (used s.data_bitmap) → WritesTarget
  writes_first ge opens room =
      let (j, took, left) = free_data_block-Room (suc m) s room in
      let r = free_data_block s in
      let s' = grown_by n size r.0.data_bitmap s in
      let (k, took', left') = free_data_block-Room m s' left in
      let r' = free_data_block s' in
      let t =
        after_first c s r'.0.data_bitmap n a (data_block_offset + j) (data_block_offset + k) buff
          size in
      let w = after_first-WritesFirst c s n a buff size j k r r' ok.ready took took' in
      (
        t,
        write_target-first c s n a buff size (data_block_offset + j) (data_block_offset + k)
            r.0.data_bitmap r'.0.data_bitmap pos ge may.in_range opens (Takes-result s j r took)
            (Takes-result s' k r' took'),
        record {
          represents =
              Adds-Represents c s t f n a (padded buff size) ok may
                (first-Adds c s t f n a buff size j k ok ge opens w);
          inodes_kept = refl;
          dirty_kept = refl;
          others_kept = w.others_kept;
          reaches = w.reaches;
          room_left = left';
        },
      )

  write_target-WritesFile : Room (suc (suc m)) (used s.data_bitmap) → WritesTarget
  write_target-WritesFile room = elim (Bool-cases (ltb a 4)) [
    | inl direct ↦ writes_direct (ltb→lt a 4 direct) (Room-less (suc m) (used s.data_bitmap) room)
    | inr behind ↦ elim (Bool-cases (a == indirect_start a)) [
      | inl opens ↦ writes_first (ground arith) (ground arith) room
      | inr later ↦
          writes_later (ground arith) (ground arith) (Room-less (suc m) (used s.data_bitmap) room)
    ]
  ]

-- The inode block of object `n` is marked dirty.
abbrev pub marked : ℕ → Store → Store
marked n s = record s { dirty_array = update s.dirty_array (n / inodes_per_block) 1 }

-- On a store that holds the files `f` and has two free blocks, `objstore_write` of one byte or more
-- to a page of an object in use that can be written, be it direct, the first of an indirect block or a later one,
-- returns the size. The store then holds `f` with that page replaced by the bytes, padded with
-- zeros, where the first page of an indirect block takes the place of every page behind the old
-- one; the object's inode block is marked dirty, no object has come or gone and no other has
-- changed, only data blocks are written, and at most two blocks less are free.
pub objstore_write-WritesFile :
    (c : Bool) (s : Store) (f : Files) (n a : ℕ) (buff : ℕ → ℕ) (size m : ℕ)
    → Represents c s f
    → n < inodes
    → used s.inode_bitmap n ≡ 1
    → IsWritable f n a
    → 0 < size
    → Room (suc (suc m)) (used s.data_bitmap)
    → (t : Store) × (objstore_write c (n + 2) buff size (block_size * a) s ≡ done (t, some size))
      × WritesFile c (marked n s) f n a buff size m t
unfolding objstore_write
objstore_write-WritesFile c s f n a buff size m ok n_lt n_used may pos room =
    let (t, ran, w) =
      write_target-WritesFile c (marked n s) f n a buff size m
        (Represents-objects c s (marked n s) f refl refl (λ m b. refl) (λ m b. refl) ok.numbered ok)
        may pos room in
    (t, rw (find_target_lem s n true ok.numbered n_lt n_used) ran, w)
