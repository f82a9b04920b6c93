-- ===== src/ObjStore/Mount/Image.antt =====
-- What `objstore_init` of assignment4/objstore.c finds on an image, and what the image holds when
-- `objstore_destroy` has written the bitmaps and the table.
use operating_systems_assign.Base.{
  ℕ, ◌+◌, ◌-◌, ◌*◌, ◌<◌, ◌≡◌, refl, false, not, ◌&&◌, ◌==◌, ltb, if◌then◌else◌, arith,
}
use operating_systems_assign.ObjStore.Disk.{block_size, Device, Serves}
use operating_systems_assign.ObjStore.Store.{data_block_offset}
use operating_systems_assign.ObjStore.Destroy.{fresh_page}
use operating_systems_assign.ObjStore.Mount.{
  Memory, inode_bitmap_size, data_bitmap_size, inode_blocks, data_bitmap_offset, inode_block_offset,
  inode_bytes, write_blocks, mount_memory, write_tables,
}
use operating_systems_assign.ObjStore.Mount.Blocks.{
  read_blocks-bytes, write_blocks-Serves, write_blocks-content, read_inodes-bytes,
  write_inodes-content, write_inodes-Serves,
}

-- The device serves every request.
abbrev pub IsSound : Device → Type 0
IsSound d = (o : ℕ) → d.faulty o ≡ false

Serves-page :
    (d : Device) (bytes : ℕ → ℕ) → IsSound d → Serves d (record fresh_page { bytes = bytes })
Serves-page d bytes ok = record { aligned = refl; no_faults = ok }

module _ (d : Device) (ok : IsSound d) (m j : ℕ) where
  pub mounted_inode_bitmap :
      m < inode_bitmap_size
      → j < block_size
      → (mount_memory d).inode_bitmap (block_size * m + j) ≡ d.content (block_size * m + j)
  unfolding mount_memory
  mounted_inode_bitmap m_lt lt = ground (
    arith,
    read_blocks-bytes inode_bitmap_size 0 d 0 fresh_page m j (Serves-page d fresh_page.bytes ok) lt,
  )

  pub mounted_data_bitmap :
      m < data_bitmap_size
      → j < block_size
      → (mount_memory d).data_bitmap (block_size * m + j)
        ≡ d.content (block_size * (data_bitmap_offset + m) + j)
  unfolding mount_memory
  mounted_data_bitmap m_lt lt = ground (
    arith,
    read_blocks-bytes data_bitmap_size 0 d data_bitmap_offset fresh_page m j
        (Serves-page d fresh_page.bytes ok) lt,
  )

  pub mounted_table :
      m < inode_blocks
      → j < inode_bytes
      → (mount_memory d).table (inode_bytes * m + j)
        ≡ d.content (block_size * (inode_block_offset + m) + j)
  unfolding mount_memory
  mounted_table m_lt lt = ground (
    arith,
    read_inodes-bytes inode_blocks 0 d fresh_page fresh_page.bytes m j
        (Serves-page d fresh_page.bytes ok) lt,
  )

-- Byte `j` of block `b` once the bitmaps and the dirty blocks of the table are written.
abbrev pub written_byte : Memory → (ℕ → ℕ) → Device → ℕ → ℕ → ℕ
written_byte m dirty d b j =
    if ltb b inode_block_offset
    then (if ltb b data_bitmap_offset
        then m.inode_bitmap (block_size * b + j)
        else m.data_bitmap (block_size * (b - data_bitmap_offset) + j))
    else if ltb b data_block_offset && not (dirty (b - inode_block_offset) == 0)
    then m.table (inode_bytes * (b - inode_block_offset) + j)
    else d.content (block_size * b + j)

module _ (m : Memory) (dirty : ℕ → ℕ) (d : Device) (ok : IsSound d) where
  abbrev inodes_written : Device
  inodes_written =
      write_blocks inode_bitmap_size 0 d 0 (record fresh_page { bytes = m.inode_bitmap })

  abbrev data_written : Device
  data_written =
      write_blocks data_bitmap_size 0 inodes_written data_bitmap_offset
        (record fresh_page { bytes = m.data_bitmap })

  inodes_written-IsSound : IsSound inodes_written
  inodes_written-IsSound =
      (write_blocks-Serves inode_bitmap_size 0 d 0 (record fresh_page { bytes = m.inode_bitmap })
        (Serves-page d m.inode_bitmap ok)).no_faults

  data_written-IsSound : IsSound data_written
  data_written-IsSound =
      (write_blocks-Serves data_bitmap_size 0 inodes_written data_bitmap_offset
        (record fresh_page { bytes = m.data_bitmap })
        (Serves-page inodes_written m.data_bitmap inodes_written-IsSound)).no_faults

  pub write_tables-content :
      (b j : ℕ)
      → j < block_size
      → (write_tables m dirty d).content (block_size * b + j) ≡ written_byte m dirty d b j
  unfolding write_tables
  write_tables-content b j lt = ground (
    arith,
    write_inodes-content inode_blocks 0 m.table dirty (data_written, fresh_page) b j
        (Serves-page data_written fresh_page.bytes data_written-IsSound) lt,
    write_blocks-content data_bitmap_size 0 inodes_written data_bitmap_offset
        (record fresh_page { bytes = m.data_bitmap }) b j
        (Serves-page inodes_written m.data_bitmap inodes_written-IsSound) lt,
    write_blocks-content inode_bitmap_size 0 d 0 (record fresh_page { bytes = m.inode_bitmap }) b j
        (Serves-page d m.inode_bitmap ok) lt,
  )

  pub write_tables-IsSound : IsSound (write_tables m dirty d)
  unfolding write_tables
  write_tables-IsSound =
      (write_inodes-Serves inode_blocks 0 m.table dirty (data_written, fresh_page)
        (Serves-page data_written fresh_page.bytes data_written-IsSound)).no_faults
