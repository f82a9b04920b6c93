-- ===== src/Tests/Storage.antt =====
-- The block store, the bitmaps and the object table of assignment4/objstore.c at concrete inputs.
use operating_systems_assign.Base.{
  ℕ, ◌+◌, ◌*◌, ◌<◌, ◌≡◌, refl, true, false, List, [], ◌∷◌, none, some, arith,
}
use operating_systems_assign.Base.Arrays.{update}
use operating_systems_assign.ObjStore.Disk.{block_size, Device, Area}
use operating_systems_assign.ObjStore.Cache.{BlockStore, cache_blk_read, cache_blk_write}
use operating_systems_assign.ObjStore.Cache.View.{view, IsCoherent}
use operating_systems_assign.ObjStore.Cache.Transparent.{
  blocks, IsAligned, ReadsBlock, WritesBlock, cache_blk_read-ReadsBlock,
  cache_blk_write-WritesBlock,
}
use operating_systems_assign.ObjStore.Cache.Runs.{
  Call, reads, writes, run, array_run, Agree, run-array_run, run-cached_plain,
}
use operating_systems_assign.ObjStore.Cache.Flush.{
  flush_cache, empty_cache, flush_cache-disk, empty_cache-IsCoherent, empty_cache-flush_cache,
}

abbrev zero_disk : Device
zero_disk = record { content = λ _. 0; faulty = λ _. false }

-- Line 0 holds block 32768, which is newer than the disk.
abbrev dirty_store : BlockStore
dirty_store = record {
  disk = zero_disk;
  cache = record { base = 8192; bytes = λ _. 7 };
  cache_index = update (λ _. none) 0 (some 1);
  cache_dirty = update (λ _. 0) 0 1;
}

dirty_store-IsCoherent : IsCoherent dirty_store
dirty_store-IsCoherent = record {
  serves = record { aligned = refl; no_faults = λ o. refl };
  unused = λ j e. ground arith;
  clean = λ j lt d k i e h. ground arith;
}

abbrev plain_store : BlockStore
plain_store = empty_cache dirty_store

abbrev page : Area
page = record { base = 4096; bytes = λ i. i }

page-IsAligned : IsAligned page 0
page-IsAligned = record { base = refl; offset = refl }

-- Blocks 0 and 32768 share a line.
abbrev calls : List Call
calls = writes 0 1 (λ i. i + 1) ∷ reads 32768 1 ∷ reads 0 2 ∷ []

run-array_run_example :
    Agree (run true dirty_store calls) (array_run (blocks true dirty_store) calls)
run-array_run_example =
    run-array_run true calls dirty_store (blocks true dirty_store) dirty_store-IsCoherent
      (λ b i h. refl)

clean_store-IsCoherent : IsCoherent (empty_cache dirty_store)
clean_store-IsCoherent = empty_cache-IsCoherent dirty_store dirty_store-IsCoherent.serves

same_blocks :
    (b i : ℕ)
    → i < block_size
    → blocks true (empty_cache dirty_store) b i ≡ blocks false dirty_store b i
unfolding blocks view empty_cache
same_blocks b i h = refl

run-cached_plain_example :
    Agree (run true (empty_cache dirty_store) calls) (run false dirty_store calls)
run-cached_plain_example =
    run-cached_plain calls (empty_cache dirty_store) dirty_store clean_store-IsCoherent
      dirty_store-IsCoherent.serves same_blocks

cache_blk_read-ReadsBlock_example :
    ReadsBlock true dirty_store 0 0 (cache_blk_read true dirty_store 0 page 0)
cache_blk_read-ReadsBlock_example =
    cache_blk_read-ReadsBlock true dirty_store 0 page 0 dirty_store-IsCoherent page-IsAligned

cache_blk_write-WritesBlock_example :
    WritesBlock true dirty_store 0 page 0 (cache_blk_write true dirty_store 0 page 0)
cache_blk_write-WritesBlock_example =
    cache_blk_write-WritesBlock true dirty_store 0 page 0 dirty_store-IsCoherent page-IsAligned

flush_cache-disk_example :
    (flush_cache dirty_store).disk.content (block_size * 32768 + 3) ≡ view dirty_store 32768 3
flush_cache-disk_example = flush_cache-disk dirty_store dirty_store-IsCoherent 32768 3 (omega arith)

empty_cache-flush_cache_example :
    view (empty_cache (flush_cache dirty_store)) 32768 3 ≡ view dirty_store 32768 3
empty_cache-flush_cache_example =
    empty_cache-flush_cache dirty_store dirty_store-IsCoherent 32768 3 (omega arith)
