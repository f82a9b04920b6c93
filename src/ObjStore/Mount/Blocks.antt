-- ===== src/ObjStore/Mount/Blocks.antt =====
-- The loops of `objstore_init` and `objstore_destroy` of assignment4/objstore.c over the blocks of
-- the bitmaps and of the table.
use operating_systems_assign.Base.{
  ℕ, zero, suc, ◌+◌, ◌-◌, ◌*◌, ◌<◌, ◌≡◌, refl, ap, Bool, not, ◌&&◌, ◌==◌, ltb, leb, if◌then◌else◌,
  Bool-cases, inl, inr, arith,
}
use operating_systems_assign.Base.Arrays.{copy_bytes, copy_bytes_lem}
use operating_systems_assign.ObjStore.Disk.{
  block_size, Device, Area, Serves, read_block-copies, write_block-copies, copy_bytes_block,
}
use operating_systems_assign.ObjStore.Mount.{
  inode_bytes, inode_block_offset, read_blocks, write_blocks, read_inodes, write_inode,
  write_inodes,
}

-- Which of `n` rounds from `i` on comes to `m`.
abbrev pub is_within : ℕ → ℕ → ℕ → Bool
is_within i n m = leb i m && ltb m (i + n)

pub read_blocks-bytes :
    (n i : ℕ) (d : Device) (blk : ℕ) (buf : Area) (m j : ℕ)
    → Serves d buf
    → j < block_size
    → (read_blocks n i d blk buf).bytes (block_size * m + j) ≡ (
        if is_within i n m
        then d.content (block_size * (blk + m) + j)
        else buf.bytes (block_size * m + j))
unfolding read_blocks
read_blocks-bytes zero i d blk buf m j ok lt = ground arith
read_blocks-bytes (suc n) i d blk buf m j ok lt =
    let from = λ (a : ℕ). d.content (block_size * (blk + i) + a) in
    let buf' = record buf { bytes = copy_bytes block_size buf.bytes (block_size * i) from } in
    rw (read_blocks, read_block-copies d buf ok (blk + i) (block_size * i) (omega arith))
      (ground (
        arith,
        read_blocks-bytes n (i + 1) d blk buf' m j
            (record { aligned = ok.aligned; no_faults = ok.no_faults }) lt,
        copy_bytes_block buf.bytes from i m j lt,
      ))

pub write_blocks-Serves :
    (n i : ℕ) (d : Device) (blk : ℕ) (buf : Area)
    → Serves d buf
    → Serves (write_blocks n i d blk buf) buf
unfolding write_blocks
write_blocks-Serves zero i d blk buf ok = ok
write_blocks-Serves (suc n) i d blk buf ok =
    rw (write_blocks, write_block-copies d buf ok (blk + i) (block_size * i) (omega arith))
      (write_blocks-Serves n (i + 1) _ blk buf
        (record { aligned = ok.aligned; no_faults = ok.no_faults }))

pub write_blocks-content :
    (n i : ℕ) (d : Device) (blk : ℕ) (buf : Area) (m j : ℕ)
    → Serves d buf
    → j < block_size
    → (write_blocks n i d blk buf).content (block_size * m + j) ≡ (
        if is_within (blk + i) n m
        then buf.bytes (block_size * (m - blk) + j)
        else d.content (block_size * m + j))
unfolding write_blocks
write_blocks-content zero i d blk buf m j ok lt = ground arith
write_blocks-content (suc n) i d blk buf m j ok lt =
    let from = λ (a : ℕ). buf.bytes (block_size * i + a) in
    let d' = record d { content = copy_bytes block_size d.content (block_size * (blk + i)) from } in
    rw (write_blocks, write_block-copies d buf ok (blk + i) (block_size * i) (omega arith))
      (ground (
        arith,
        write_blocks-content n (i + 1) d' blk buf m j
            (record { aligned = ok.aligned; no_faults = ok.no_faults }) lt,
        copy_bytes_block d.content from (blk + i) m j lt,
      ))

-- The copy of the 46 objects of a block into the table.
copy_inodes :
    (to from : ℕ → ℕ) (i m j : ℕ)
    → j < inode_bytes
    → copy_bytes inode_bytes to (inode_bytes * i) from (inode_bytes * m + j)
      ≡ (if m == i then from j else to (inode_bytes * m + j))
copy_inodes to from i m j lt =
    let here : (inode_bytes * i + j) - inode_bytes * i ≡ j = omega arith in
    ground (
      arith,
      copy_bytes_lem inode_bytes to (inode_bytes * i) from (inode_bytes * m + j),
      ap from here,
    )

pub read_inodes-bytes :
    (n i : ℕ) (d : Device) (temp : Area) (b : ℕ → ℕ) (m j : ℕ)
    → Serves d temp
    → j < inode_bytes
    → read_inodes n i d temp b (inode_bytes * m + j) ≡ (
        if is_within i n m
        then d.content (block_size * (inode_block_offset + m) + j)
        else b (inode_bytes * m + j))
unfolding read_inodes
read_inodes-bytes zero i d temp b m j ok lt = ground arith
read_inodes-bytes (suc n) i d temp b m j ok lt =
    let from = λ (a : ℕ). d.content (block_size * (inode_block_offset + i) + a) in
    let temp' = record temp { bytes = copy_bytes block_size temp.bytes 0 from } in
    let b' = copy_bytes inode_bytes b (inode_bytes * i) temp'.bytes in
    rw (read_inodes, read_block-copies d temp ok (inode_block_offset + i) 0 refl)
      (ground (
        arith,
        read_inodes-bytes n (i + 1) d temp' b' m j
            (record { aligned = ok.aligned; no_faults = ok.no_faults }) lt,
        copy_inodes b temp'.bytes i m j lt,
        copy_bytes_lem block_size temp.bytes 0 from j,
      ))

-- One round of the loop of `objstore_destroy` over the inode blocks.
record WritesInode (i : ℕ) (b dirty : ℕ → ℕ) (s t : Device × Area) : Type 0 where
  serves : Serves t.0 t.1
  put :
      (m j : ℕ)
      → j < block_size
      → t.0.content (block_size * m + j) ≡ (
          if m == inode_block_offset + i && not (dirty i == 0)
          then b (inode_bytes * i + j)
          else s.0.content (block_size * m + j))

write_inode-WritesInode :
    (i : ℕ) (b dirty : ℕ → ℕ) (s : Device × Area)
    → Serves s.0 s.1
    → WritesInode i b dirty s (write_inode i b dirty s)
unfolding write_inode
write_inode-WritesInode i b dirty (d, temp) ok = elim (Bool-cases (dirty i == 0)) [
  | inl clean ↦ rw (write_inode, clean) (record { serves = ok; put = λ m j lt. ground arith })
  | inr marked ↦
      let from = λ (a : ℕ). b (inode_bytes * i + a) in
      let temp' = record temp { bytes = copy_bytes block_size temp.bytes 0 from } in
      let ok' : Serves d temp' = record { aligned = ok.aligned; no_faults = ok.no_faults } in
      rw (write_inode, marked, write_block-copies d temp' ok' (inode_block_offset + i) 0 refl)
        (record {
          serves = record { aligned = ok.aligned; no_faults = ok.no_faults };
          put = λ m j lt. ground (
            arith,
            copy_bytes_block d.content (λ a. temp'.bytes (0 + a)) (inode_block_offset + i) m j lt,
            copy_bytes_lem block_size temp.bytes 0 from (0 + j),
          );
        })
]

pub write_inodes-content :
    (n i : ℕ) (b dirty : ℕ → ℕ) (s : Device × Area) (m j : ℕ)
    → Serves s.0 s.1
    → j < block_size
    → (write_inodes n i b dirty s).0.content (block_size * m + j) ≡ (
        if is_within (inode_block_offset + i) n m && not (dirty (m - inode_block_offset) == 0)
        then b (inode_bytes * (m - inode_block_offset) + j)
        else s.0.content (block_size * m + j))
unfolding write_inodes
write_inodes-content zero i b dirty s m j ok lt = ground arith
write_inodes-content (suc n) i b dirty s m j ok lt =
    let w = write_inode-WritesInode i b dirty s ok in
    ground (
      arith,
      write_inodes-content n (i + 1) b dirty (write_inode i b dirty s) m j w.serves lt,
      w.put m j lt,
    )

pub write_inodes-Serves :
    (n i : ℕ) (b dirty : ℕ → ℕ) (s : Device × Area)
    → Serves s.0 s.1
    → Serves (write_inodes n i b dirty s).0 (write_inodes n i b dirty s).1
unfolding write_inodes
write_inodes-Serves zero i b dirty s ok = ok
write_inodes-Serves (suc n) i b dirty s ok =
    write_inodes-Serves n (i + 1) b dirty (write_inode i b dirty s)
      (write_inode-WritesInode i b dirty s ok).serves
