-- ===== src/ObjStore/Cache/Transparent.antt =====
-- `cache_blk_read` and `cache_blk_write` implement an array of blocks, and a client cannot tell
-- the build with the cache from the one without.
use operating_systems_assign.Base.{
  ℕ, ◌+◌, ◌-◌, ◌*◌, ◌/◌, ◌%◌, ◌<◌, ◌≡◌, refl, Bool, true, false, some, ◌==◌, if◌then◌else◌, arith,
}
use operating_systems_assign.Base.Arrays.{copy_bytes_lem}
use operating_systems_assign.ObjStore.Disk.{
  block_size, Area, Serves, read_block, read_block-copies, write_block-copies, copy_bytes_block,
}
use operating_systems_assign.ObjStore.Cache.{
  BlockStore, cache_blks, copy_out, load_line, save_line, cached_read, cached_write, plain_read,
  plain_write, cache_blk_read, cache_blk_write,
}
use operating_systems_assign.ObjStore.Cache.View.{view, IsCoherent}
use operating_systems_assign.ObjStore.Cache.Lines.{
  load_line_lem, save_line_lem, view-copy_in, copy_in-IsCoherent,
}

-- The blocks that a client sees, in the build with the cache and in the plain one.
unfoldable pub blocks : Bool → BlockStore → ℕ → ℕ → ℕ
unfolding view
blocks true s b i = view s b i
blocks false s b i = s.disk.content (block_size * b + i)

-- What each build needs of its store.
abbrev pub IsReady : Bool → BlockStore → Type 0
IsReady true s = IsCoherent s
IsReady false s = Serves s.disk s.cache

-- A buffer at a block boundary, as `mmap` returns it.
pub record IsAligned (temp : Area) (off : ℕ) : Type 0 where
  pub base : temp.base % block_size ≡ 0
  pub offset : off % block_size ≡ 0

-- After the read the buffer holds block `blk`, the blocks are what they were and the store is fit
-- for the next call.
pub record ReadsBlock (c : Bool) (s : BlockStore) (blk off : ℕ) (r : BlockStore × Area)
    : Type 0 where
  pub ready : IsReady c r.0
  pub kept : (b i : ℕ) → i < block_size → blocks c r.0 b i ≡ blocks c s b i
  pub got : (i : ℕ) → i < block_size → r.1.bytes (off + i) ≡ blocks c s blk i

-- A write replaces block `blk` by the buffer's contents, and no other block.
pub record WritesBlock (c : Bool) (s : BlockStore) (blk : ℕ) (temp : Area) (off : ℕ)
    (t : BlockStore) : Type 0 where
  pub ready : IsReady c t
  pub put :
      (b i : ℕ)
      → i < block_size
      → blocks c t b i ≡ (if b == blk then temp.bytes (off + i) else blocks c s b i)

add_cancel : (off i : ℕ) → off + i - off ≡ i
add_cancel off i = omega arith

view-loaded :
    (s : BlockStore) (blk i : ℕ)
    → s.cache_index (blk % cache_blks) ≡ some (blk / cache_blks)
    → view s blk i ≡ s.cache.bytes (block_size * (blk % cache_blks) + i)
unfolding view
view-loaded s blk i e = ground arith

cached_read-ReadsBlock :
    (s : BlockStore) (blk : ℕ) (temp : Area) (off : ℕ)
    → IsCoherent s
    → ReadsBlock true s blk off (cached_read s blk temp off)
unfolding cached_read blocks
cached_read-ReadsBlock s blk temp off ok =
    let done = load_line_lem s ok blk (s.cache_index (blk % cache_blks)) refl in
    let t = load_line s blk (s.cache_index (blk % cache_blks)) in
    record {
      ready = done.coherent;
      kept = done.same;
      got = λ i h. ground (
        arith,
        copy_bytes_lem block_size temp.bytes off
            (λ a. t.cache.bytes (block_size * (blk % cache_blks) + a)) (off + i),
        add_cancel off i,
        view-loaded t blk i done.holds_it,
        done.same blk i h,
      );
    }

plain_read-ReadsBlock :
    (s : BlockStore) (blk : ℕ) (temp : Area) (off : ℕ)
    → Serves s.disk s.cache
    → IsAligned temp off
    → ReadsBlock false s blk off (plain_read s blk temp off)
unfolding plain_read blocks
plain_read-ReadsBlock s blk temp off ok at =
    rw
      (read_block-copies s.disk temp (record { aligned = at.base; no_faults = ok.no_faults }) blk
        off at.offset)
      (record {
        ready = ok;
        kept = λ b i h. refl;
        got = λ i h. ground (
          arith,
          copy_bytes_lem block_size temp.bytes off (λ a. s.disk.content (block_size * blk + a))
              (off + i),
          add_cancel off i,
        );
      })

-- In either build, on a store that is fit for it and with a buffer at a block boundary,
-- `cache_blk_read` fills the buffer with the block, leaves every block as it is and leaves a store
-- that is fit for the next call.
pub cache_blk_read-ReadsBlock :
    (c : Bool) (s : BlockStore) (blk : ℕ) (temp : Area) (off : ℕ)
    → IsReady c s
    → IsAligned temp off
    → ReadsBlock c s blk off (cache_blk_read c s blk temp off)
unfolding cache_blk_read
cache_blk_read-ReadsBlock true s blk temp off ok at = cached_read-ReadsBlock s blk temp off ok
cache_blk_read-ReadsBlock false s blk temp off ok at = plain_read-ReadsBlock s blk temp off ok at

-- The buffer stays where it is.
pub cache_blk_read-base :
    (c : Bool) (s : BlockStore) (blk : ℕ) (temp : Area) (off : ℕ)
    → (cache_blk_read c s blk temp off).1.base ≡ temp.base
unfolding cache_blk_read cached_read copy_out plain_read read_block
cache_blk_read-base true s blk temp off = refl
cache_blk_read-base false s blk temp off = ground arith

cached_write-WritesBlock :
    (s : BlockStore) (blk : ℕ) (temp : Area) (off : ℕ)
    → IsCoherent s
    → WritesBlock true s blk temp off (cached_write s blk temp off)
unfolding cached_write blocks
cached_write-WritesBlock s blk temp off ok =
    let t = save_line s blk (s.cache_index (blk % cache_blks)) in
    let saved = save_line_lem s ok blk (s.cache_index (blk % cache_blks)) refl in
    record {
      ready = copy_in-IsCoherent t saved.coherent blk temp off;
      put = λ b i h. ground (
        arith,
        saved.same b i h,
        view-copy_in t saved.coherent blk temp off
            (record { coherent = saved.coherent; same = λ b i h. refl; spare = saved.spare }) b i h,
      );
    }

plain_write-WritesBlock :
    (s : BlockStore) (blk : ℕ) (temp : Area) (off : ℕ)
    → Serves s.disk s.cache
    → IsAligned temp off
    → WritesBlock false s blk temp off (plain_write s blk temp off)
unfolding plain_write blocks
plain_write-WritesBlock s blk temp off ok at =
    rw
      (write_block-copies s.disk temp (record { aligned = at.base; no_faults = ok.no_faults }) blk
        off at.offset)
      (record {
        ready = record { aligned = ok.aligned; no_faults = ok.no_faults };
        put = λ b i h. copy_bytes_block s.disk.content (λ a. temp.bytes (off + a)) blk b i h;
      })

-- In either build, on a store that is fit for it and with a buffer at a block boundary,
-- `cache_blk_write` replaces the block by the buffer, leaves every other block and leaves a store
-- that is fit for the next call.
pub cache_blk_write-WritesBlock :
    (c : Bool) (s : BlockStore) (blk : ℕ) (temp : Area) (off : ℕ)
    → IsReady c s
    → IsAligned temp off
    → WritesBlock c s blk temp off (cache_blk_write c s blk temp off)
unfolding cache_blk_write
cache_blk_write-WritesBlock true s blk temp off ok at = cached_write-WritesBlock s blk temp off ok
cache_blk_write-WritesBlock false s blk temp off ok at =
    plain_write-WritesBlock s blk temp off ok at
