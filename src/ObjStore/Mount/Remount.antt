-- ===== src/ObjStore/Mount/Remount.antt =====
-- `objstore_destroy` of assignment4/objstore.c and `objstore_init` on the image that it leaves.
use operating_systems_assign.Base.{
  ℕ, ◌+◌, ◌*◌, ◌/◌, ◌%◌, ◌<◌, ◌≤◌, ◌≡◌, refl, sym, ap, ◌∙◌, some, ◌==◌, if◌then◌else◌, Bool-cases,
  inl, inr, arith,
}
use operating_systems_assign.ObjStore.Disk.{block_size, Device, Area}
use operating_systems_assign.ObjStore.Cache.{BlockStore, cache_blks}
use operating_systems_assign.ObjStore.Cache.View.{view, IsCoherent}
use operating_systems_assign.ObjStore.Cache.Flush.{
  flush_cache-disk, flush_cache-IsCoherent, empty_cache-IsCoherent, view-empty_cache,
}
use operating_systems_assign.ObjStore.Store.{Store, data_block_offset, inode_words, data_words}
use operating_systems_assign.ObjStore.Destroy.{load_int}
use operating_systems_assign.ObjStore.Lookup.{inodes_per_block}
use operating_systems_assign.ObjStore.Mount.{
  Memory, inode_bitmap_size, data_bitmap_size, inode_blocks, data_bitmap_offset, inode_block_offset,
  inode_bytes, object_at, mount_memory, write_tables, objstore_init, objstore_destroy,
}
use operating_systems_assign.ObjStore.Mount.Image.{
  IsSound, mounted_inode_bitmap, mounted_data_bitmap, mounted_table, written_byte,
  write_tables-content, write_tables-IsSound,
}
use operating_systems_assign.ObjStore.Mount.Objects.{
  SameObject, SameObject_refl, SameObject_trans, load_int-bytes, object_at-bytes,
}

-- How many objects the inode blocks hold.
abbrev pub table_size : ℕ
table_size = inodes_per_block * inode_blocks

-- The bytes of the memory are those of the store's table and bitmaps.
pub record Shows (m : Memory) (s : Store) : Type 0 where
  pub objects : (n : ℕ) → n < table_size → SameObject (object_at m.table n) (s.objects n)
  pub inodes : (i : ℕ) → i < inode_words → load_int m.inode_bitmap i ≡ s.inode_bitmap i
  pub data_blocks : (i : ℕ) → i < data_words → load_int m.data_bitmap i ≡ s.data_bitmap i

-- What has to hold when the store is unmounted: the cache is coherent and holds data blocks only,
-- and an object whose inode block is not marked dirty is on the disk as it is in the table.
pub record IsClosable (s : Store) : Type 0 where
  pub coherent : IsCoherent s.blocks
  pub only_data :
      (j k : ℕ)
      → j < cache_blks
      → s.blocks.cache_index j ≡ some k
      → data_block_offset ≤ cache_blks * k + j
  pub marked :
      (n : ℕ)
      → n < table_size
      → s.dirty_array (n / inodes_per_block) ≡ 0
      → SameObject (object_at (mount_memory s.blocks.disk).table n) (s.objects n)

-- The store that is mounted is the one that was unmounted.
pub record Remounts (s t : Store) : Type 0 where
  pub coherent : IsCoherent t.blocks
  pub blocks :
      (b i : ℕ) → data_block_offset ≤ b → i < block_size → view t.blocks b i ≡ view s.blocks b i
  pub objects : (n : ℕ) → n < table_size → SameObject (t.objects n) (s.objects n)
  pub inodes : (i : ℕ) → i < inode_words → t.inode_bitmap i ≡ s.inode_bitmap i
  pub data_blocks : (i : ℕ) → i < data_words → t.data_bitmap i ≡ s.data_bitmap i

module _ (m : Memory) (s : Store) (shows : Shows m s) (ok : IsClosable s) where
  abbrev tables : Device
  tables = write_tables m s.dirty_array s.blocks.disk

  abbrev with_tables : BlockStore
  with_tables = record (s.blocks) { disk = tables }

  tables-content :
      (b j : ℕ)
      → j < block_size
      → tables.content (block_size * b + j) ≡ written_byte m s.dirty_array s.blocks.disk b j
  tables-content = write_tables-content m s.dirty_array s.blocks.disk ok.coherent.serves.no_faults

  with_tables-IsCoherent : IsCoherent with_tables
  with_tables-IsCoherent = record {
    serves = record {
      aligned = ok.coherent.serves.aligned;
      no_faults = write_tables-IsSound m s.dirty_array s.blocks.disk ok.coherent.serves.no_faults;
    };
    unused = ok.coherent.unused;
    clean = λ j lt d k i e h. ground (
      arith,
      ok.coherent.clean j lt d k i e h,
      ok.only_data j k lt e,
      tables-content (cache_blks * k + j) i h,
    );
  }

  -- A block of the tables is in no line, so it is on the disk as it was written.
  view-tables :
      (b i : ℕ)
      → b < data_block_offset
      → i < block_size
      → view with_tables b i ≡ written_byte m s.dirty_array s.blocks.disk b i
  unfolding view
  view-tables b i lt h =
      ground (arith, ok.only_data (b % cache_blks) (b / cache_blks), tables-content b i h)

  view-data :
      (b i : ℕ) → data_block_offset ≤ b → i < block_size → view with_tables b i ≡ view s.blocks b i
  unfolding view
  view-data b i ge h = ground (arith, tables-content b i h)

  abbrev pub image : Device
  image = objstore_destroy m s

  image-tables :
      (b i : ℕ)
      → b < data_block_offset
      → i < block_size
      → image.content (block_size * b + i) ≡ written_byte m s.dirty_array s.blocks.disk b i
  unfolding objstore_destroy
  image-tables b i lt h =
      flush_cache-disk with_tables with_tables-IsCoherent b i h ∙ view-tables b i lt h

  image-data :
      (b i : ℕ)
      → data_block_offset ≤ b
      → i < block_size
      → image.content (block_size * b + i) ≡ view s.blocks b i
  unfolding objstore_destroy
  image-data b i ge h =
      flush_cache-disk with_tables with_tables-IsCoherent b i h ∙ view-data b i ge h

  pub image-IsSound : IsSound image
  unfolding objstore_destroy
  image-IsSound = (flush_cache-IsCoherent with_tables with_tables-IsCoherent).serves.no_faults

  -- The bytes that are read back.
  inode_byte :
      (j : ℕ)
      → j < block_size * inode_bitmap_size
      → (mount_memory image).inode_bitmap j ≡ m.inode_bitmap j
  inode_byte j lt =
      let e : block_size * (j / block_size) + j % block_size ≡ j = omega arith in
      sym (ap (mount_memory image).inode_bitmap e)
      ∙ (mounted_inode_bitmap image image-IsSound (j / block_size) (j % block_size) (omega arith)
            (omega arith)
          ∙ ground (
            arith,
            image-tables (j / block_size) (j % block_size) (omega arith) (omega arith),
            ap m.inode_bitmap e,
          ))

  data_byte :
      (j : ℕ)
      → j < block_size * data_bitmap_size
      → (mount_memory image).data_bitmap j ≡ m.data_bitmap j
  data_byte j lt =
      let e : block_size * (j / block_size) + j % block_size ≡ j = omega arith in
      sym (ap (mount_memory image).data_bitmap e)
      ∙ (mounted_data_bitmap image image-IsSound (j / block_size) (j % block_size) (omega arith)
            (omega arith)
          ∙ ground (
            arith,
            image-tables (data_bitmap_offset + j / block_size) (j % block_size) (omega arith)
                (omega arith),
            ap m.data_bitmap e,
          ))

  table_byte :
      (b j : ℕ)
      → b < inode_blocks
      → j < inode_bytes
      → (mount_memory image).table (inode_bytes * b + j) ≡ (
          if s.dirty_array b == 0
          then (mount_memory s.blocks.disk).table (inode_bytes * b + j)
          else m.table (inode_bytes * b + j))
  table_byte b j b_lt lt = ground (
    arith,
    mounted_table image image-IsSound b j b_lt lt,
    image-tables (inode_block_offset + b) j (omega arith) (omega arith),
    mounted_table s.blocks.disk ok.coherent.serves.no_faults b j b_lt lt,
  )

  table_object :
      (n j : ℕ)
      → n < table_size
      → j < 88
      → (mount_memory image).table (88 * n + j) ≡ (
          if s.dirty_array (n / inodes_per_block) == 0
          then (mount_memory s.blocks.disk).table (88 * n + j)
          else m.table (88 * n + j))
  table_object n j n_lt lt =
      let e : inode_bytes * (n / inodes_per_block) + (88 * (n % inodes_per_block) + j)
          ≡ 88 * n + j =
        omega arith in
      rw e at (
        table_byte (n / inodes_per_block) (88 * (n % inodes_per_block) + j) (omega arith)
          (omega arith))

  object_back :
      (n : ℕ) → n < table_size → SameObject (object_at (mount_memory image).table n) (s.objects n)
  object_back n lt = elim (Bool-cases (s.dirty_array (n / inodes_per_block) == 0)) [
    | inl clean ↦
        SameObject_trans _ _ _
          (object_at-bytes (mount_memory image).table (mount_memory s.blocks.disk).table n
            (λ j j_lt. table_object n j lt j_lt ∙ rw clean refl))
          (ok.marked n lt (ground arith))
    | inr dirty ↦
        SameObject_trans _ _ _
          (object_at-bytes (mount_memory image).table m.table n
            (λ j j_lt. table_object n j lt j_lt ∙ rw dirty refl))
          (shows.objects n lt)
  ]

  -- Where the memory holds the bytes of the store's table and bitmaps, the cache is coherent and
  -- holds data blocks only, and an object whose inode block is not marked dirty is on the disk as it
  -- is in the table, `objstore_destroy` leaves an image from which `objstore_init` sets up the store
  -- that was unmounted: every object, both bitmaps and every data block are what they were.
  pub objstore_init-Remounts :
      (cache : Area)
      → cache.base % block_size ≡ 0
      → Remounts s (objstore_init (objstore_destroy m s) cache)
  unfolding objstore_init
  objstore_init-Remounts cache aligned = record {
    coherent = empty_cache-IsCoherent _ (record { aligned = aligned; no_faults = image-IsSound });
    blocks = λ b i ge h. view-empty_cache _ b i ∙ image-data b i ge h;
    objects = object_back;
    inodes = λ i lt.
        load_int-bytes (mount_memory image).inode_bitmap m.inode_bitmap i
          (λ j ge h. inode_byte j (omega arith))
        ∙ shows.inodes i lt;
    data_blocks = λ i lt.
        load_int-bytes (mount_memory image).data_bitmap m.data_bitmap i
          (λ j ge h. data_byte j (omega arith))
        ∙ shows.data_blocks i lt;
  }

-- The bytes that are read are those of the store that is set up.
pub objstore_init-Shows :
    (d : Device) (cache : Area) → Shows (mount_memory d) (objstore_init d cache)
unfolding objstore_init
objstore_init-Shows d cache = record {
  objects = λ n lt. SameObject_refl (object_at (mount_memory d).table n);
  inodes = λ i lt. refl;
  data_blocks = λ i lt. refl;
}
