-- ===== src/ObjStore/Cache/View.antt =====
-- What the cache and the disk hold together: the block store that a client sees.
use operating_systems_assign.Base.{
  ℕ, ◌+◌, ◌*◌, ◌/◌, ◌%◌, ◌<◌, ◌≡◌, ◌≢◌, Bool, false, Option, none, some, ◌==◌, if◌then◌else◌, arith,
}
use operating_systems_assign.Base.Arrays.{copy_bytes, update}
use operating_systems_assign.ObjStore.Disk.{
  block_size, Serves, read_block-copies, write_block-copies, copy_bytes_block,
}
use operating_systems_assign.ObjStore.Cache.{BlockStore, cache_blks, fetch, write_back}

abbrev pub holds : Option ℕ → ℕ → Bool
holds none k = false
holds (some q) k = q == k

-- Byte `i` of block `b`: in its line if the line holds the block, else on the disk.
unfoldable pub view : BlockStore → ℕ → ℕ → ℕ
view s b i =
    if holds (s.cache_index (b % cache_blks)) (b / cache_blks)
    then s.cache.bytes (block_size * (b % cache_blks) + i)
    else s.disk.content (block_size * b + i)

-- Two stores that a client cannot tell apart.
abbrev pub SameView : BlockStore → BlockStore → Type 0
SameView s t = (b i : ℕ) → i < block_size → view s b i ≡ view t b i

-- Line `j` holds what the disk has for its block.
abbrev pub IsClean : BlockStore → ℕ → Type 0
IsClean s j =
    (k i : ℕ)
    → s.cache_index j ≡ some k
    → i < block_size
    → s.cache.bytes (block_size * j + i) ≡ s.disk.content (block_size * (cache_blks * k + j) + i)

pub record IsCoherent (s : BlockStore) : Type 0 where
  pub serves : Serves s.disk s.cache
  pub unused : (j : ℕ) → s.cache_index j ≡ none → s.cache_dirty j ≢ 1
  pub clean : (j : ℕ) → j < cache_blks → s.cache_dirty j ≢ 1 → IsClean s j

module _ (s : BlockStore) (ok : Serves s.disk s.cache) where
  pub fetch_lem :
      (blk : ℕ)
      → fetch s blk ≡ record s {
        cache = record (s.cache) {
          bytes =
              copy_bytes block_size s.cache.bytes
                (block_size * (blk % cache_blks))
                (λ i. s.disk.content (block_size * blk + i));
        };
        cache_index = update s.cache_index (blk % cache_blks) (some (blk / cache_blks));
      }
  unfolding fetch
  fetch_lem blk =
      rw (read_block-copies s.disk s.cache ok blk (block_size * (blk % cache_blks)) (omega arith))

  pub write_back_lem :
      (j k : ℕ)
      → write_back s j k ≡ record s {
        disk = record (s.disk) {
          content =
              copy_bytes block_size s.disk.content
                (block_size * (cache_blks * k + j))
                (λ i. s.cache.bytes (block_size * j + i));
        };
      }
  unfolding write_back
  write_back_lem j k =
      rw (write_block-copies s.disk s.cache ok (cache_blks * k + j) (block_size * j) (omega arith))

  -- A line that is clean can be replaced.
  pub view-fetch : (blk : ℕ) → IsClean s (blk % cache_blks) → SameView (fetch s blk) s
  unfolding view
  view-fetch blk clean b i h = rw (fetch_lem blk) (
      ground (
        arith,
        clean (b / cache_blks) i,
        copy_bytes_block s.cache.bytes (λ a. s.disk.content (block_size * blk + a))
            (blk % cache_blks) (b % cache_blks) i,
      ))

  -- Writing a line back changes nothing that a client sees, and leaves the line clean.
  pub view-write_back :
      (j k : ℕ) → j < cache_blks → s.cache_index j ≡ some k → SameView (write_back s j k) s
  unfolding view
  view-write_back j k lt at b i h = rw (write_back_lem j k) (
      ground (
        arith,
        copy_bytes_block s.disk.content (λ a. s.cache.bytes (block_size * j + a))
            (cache_blks * k + j) b i,
      ))
