-- ===== src/ObjStore/Disk.antt =====
-- assignment4/lib.c: `read_block` and `write_block`. The disk image is an array of bytes; which
-- transfers the system refuses is up to the environment (`faulty`). The image is taken to be long
-- enough: the end of the file, where `pread` returns fewer bytes and counts as a success, is not
-- modelled. A buffer is an area of memory at an address (`base`), and `buf` is a position in it.
use operating_systems_assign.Base.{
  ℕ, ◌+◌, ◌-◌, ◌*◌, ◌/◌, ◌%◌, ◌<◌, ◌≡◌, Bool, false, not, ◌==◌, if◌then◌else◌, arith, ap,
}
use operating_systems_assign.Base.Arrays.{copy_bytes, copy_bytes_lem}

abbrev pub block_size : ℕ
block_size = 4096

pub record Device : Type 0 where
  pub content : ℕ → ℕ
  pub faulty : ℕ → Bool

pub record Area : Type 0 where
  pub base : ℕ
  pub bytes : ℕ → ℕ

-- What the two functions return: 0 or -1.
pub data Status : Type 0 where
  success failure : Status

-- `((addr >> BLOCK_SHIFT) << BLOCK_SHIFT) == addr`
pub at_block_boundary : ℕ → Bool
at_block_boundary addr = addr / block_size * block_size == addr

unfoldable pub read_block : Device → ℕ → Area → ℕ → Status × Area
unfolding at_block_boundary
read_block d block_offset buf off =
    let start = block_size * block_offset in
    if not (at_block_boundary (buf.base + off))
    then (failure, buf)
    else if d.faulty start
    then (failure, buf)
    else (
      success,
      record buf { bytes = copy_bytes block_size buf.bytes off (λ i. d.content (start + i)) },
    )

unfoldable pub write_block : Device → ℕ → Area → ℕ → Status × Device
unfolding at_block_boundary
write_block d block_offset buf off =
    let start = block_size * block_offset in
    if not (at_block_boundary (buf.base + off))
    then (failure, d)
    else if d.faulty start
    then (failure, d)
    else (
      success,
      record d { content = copy_bytes block_size d.content start (λ i. buf.bytes (off + i)) },
    )

-- The device serves every request, and `m` stands at a block boundary.
pub record Serves (d : Device) (m : Area) : Type 0 where
  pub aligned : m.base % block_size ≡ 0
  pub no_faults : (o : ℕ) → d.faulty o ≡ false

module _ (d : Device) (m : Area) (ok : Serves d m) (blk off : ℕ) (at : off % block_size ≡ 0) where
  pub read_block-copies : read_block d blk m off ≡ (
    success,
    record m { bytes = copy_bytes block_size m.bytes off (λ i. d.content (block_size * blk + i)) },
  )
  unfolding read_block
  read_block-copies = ground (arith, ok.no_faults (block_size * blk))

  pub write_block-copies : write_block d blk m off ≡ (
    success,
    record d {
      content = copy_bytes block_size d.content (block_size * blk) (λ i. m.bytes (off + i));
    },
  )
  unfolding write_block
  write_block-copies = ground (arith, ok.no_faults (block_size * blk))

pub block_offset_cancel : (j i : ℕ) → block_size * j + i - block_size * j ≡ i
block_offset_cancel j i = omega arith

-- A copied block replaces the block at its place and no other.
pub copy_bytes_block :
    (to from : ℕ → ℕ) (j m i : ℕ)
    → i < block_size
    → copy_bytes block_size to (block_size * j) from (block_size * m + i)
      ≡ (if m == j then from i else to (block_size * m + i))
copy_bytes_block to from j m i h = ground (
  arith,
  copy_bytes_lem block_size to (block_size * j) from (block_size * m + i),
  ap from (block_offset_cancel j i),
)
