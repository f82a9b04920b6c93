-- ===== src/ObjStore/Data/Direct.antt =====
-- Pages that an object holds directly: what `objstore_write` puts there, `objstore_read` returns.
use operating_systems_assign.Base.{
  ℕ, zero, suc, ◌+◌, ◌*◌, ◌/◌, ◌<◌, ◌≤◌, ◌-◌, ◌≡◌, ◌≢◌, refl, lt→ltb, ◌⊎◌, Bool, true, Option, some,
  ◌==◌, ltb, if◌then◌else◌, arith,
}
use operating_systems_assign.Base.Arrays.{update, copy_bytes_lem}
use operating_systems_assign.ObjStore.Disk.{block_size}
use operating_systems_assign.ObjStore.Cache.Transparent.{
  blocks, IsReady, IsAligned, cache_blk_write-WritesBlock,
}
use operating_systems_assign.ObjStore.Cache.Reach.{HoldsFrom, Reaches, cache_blk_write-Reaches}
use operating_systems_assign.ObjStore.Bitmap.{used}
use operating_systems_assign.ObjStore.Store.{Store, done, data_block_offset}
use operating_systems_assign.ObjStore.Alloc.{
  data_blocks, Takes, Takes-result, free_data_block, free_data_block-Takes,
}
use operating_systems_assign.ObjStore.Lookup.{inodes, inodes_per_block, IsNumbered, find_target_lem}
use operating_systems_assign.ObjStore.Destroy.{fresh_page}
use operating_systems_assign.ObjStore.Data.{
  max_pages, write_index, read_index, page_of, temp_of, set_object, save_block, write_direct,
  write_page, write_target, objstore_write,
}

-- What a successful write to page `a` of object `n` leaves: a block `k` that was free holds the
-- page, the object has grown, and every other block, entry and field is what it was.
pub record WritesPage (c : Bool) (s : Store) (n a : ℕ) (buff : ℕ → ℕ) (size k : ℕ) (t : Store)
    : Type 0 where
  pub ready : IsReady c t.blocks
  pub in_range : k < data_blocks
  pub was_free : used s.data_bitmap k ≡ 0
  pub entry : (t.objects n).direct a ≡ data_block_offset + k
  pub page :
      (i : ℕ)
      → i < block_size
      → blocks c t.blocks (data_block_offset + k) i ≡ (if ltb i size then buff i else 0)
  pub others :
      (b i : ℕ)
      → i < block_size
      → b ≢ data_block_offset + k
      → blocks c t.blocks b i ≡ blocks c s.blocks b i
  pub reaches : HoldsFrom data_block_offset s.blocks → Reaches data_block_offset s.blocks t.blocks
  pub others_kept : (m : ℕ) → m ≢ n → t.objects m ≡ s.objects m
  pub grown : (t.objects n).size ≡ (s.objects n).size + size
  pub entries : (m b : ℕ) → (m ≢ n) ⊎ (b ≢ a) → (t.objects m).direct b ≡ (s.objects m).direct b
  pub indirects : (m b : ℕ) → (t.objects m).indirect b ≡ (s.objects m).indirect b
  pub ids : (m : ℕ) → (t.objects m).id ≡ (s.objects m).id
  pub bitmap : (m : ℕ) → used t.data_bitmap m ≡ (if m == k then 1 else used s.data_bitmap m)
  pub inodes_kept : t.inode_bitmap ≡ s.inode_bitmap

-- The page that is written: the bytes of the caller, and zeros behind them.
abbrev pub padded : (ℕ → ℕ) → ℕ → ℕ → ℕ
padded buff size i = if ltb i size then buff i else 0

pub page_of-bytes :
    (buff : ℕ → ℕ) (size i : ℕ) → (page_of buff size).bytes (0 + i) ≡ padded buff size i
page_of-bytes buff size i = ground (arith, copy_bytes_lem size fresh_page.bytes 0 buff (0 + i))

pub temp_of-page_of :
    (buff : ℕ → ℕ) (size : ℕ) → 0 < size → temp_of buff size ≡ some (page_of buff size)
temp_of-page_of buff zero pos = absurd (omega arith)
temp_of-page_of buff (suc size) pos = refl

pub page_of-IsAligned : (buff : ℕ → ℕ) (size : ℕ) → IsAligned (page_of buff size) 0
page_of-IsAligned buff size = record { base = refl; offset = refl }

pub one_block : (size : ℕ) → 0 < size → size ≤ block_size → (size + block_size - 1) / block_size ≡ 1
one_block size p q = omega arith

-- The store after a page went into block `blk`.
abbrev pub after_write : Bool → Store → (ℕ → ℕ) → ℕ → ℕ → ℕ → (ℕ → ℕ) → ℕ → Store
after_write c s bm n a blk buff size =
    let s' = record s { data_bitmap = bm } in
    let o = s'.objects n in
    let grown = set_object n (record o { size = o.size + size }) s' in
    let t = save_block c blk (page_of buff size) grown in
    let o' = t.objects n in set_object n (record o' { direct = update o'.direct a blk }) t

pub write_index-page : (a : ℕ) → a < max_pages → write_index (block_size * a) ≡ done a
write_index-page a lt = ground arith

pub read_index-page : (a : ℕ) → a < max_pages → read_index (block_size * a) ≡ done a
read_index-page a lt = ground arith

pub write_target-step :
    (c : Bool) (s : Store) (n a : ℕ) (buff : ℕ → ℕ) (size blk : ℕ) (bm : ℕ → ℕ)
    → 0 < size
    → a < 4
    → free_data_block s ≡ (record s { data_bitmap = bm }, some blk)
    → write_target c buff size (block_size * a) s (some n)
      ≡ done (after_write c s bm n a blk buff size, some size)
unfolding write_target write_page write_direct
write_target-step c s n a buff size blk bm pos lt e =
    rw (temp_of-page_of buff size pos, e, write_index-page a (omega arith), lt→ltb a 4 lt) refl

pub after_write-WritesPage :
    (c : Bool) (s : Store) (n a : ℕ) (buff : ℕ → ℕ) (size k : ℕ) (r : Store × Option ℕ)
    → IsReady c s.blocks
    → Takes s k r
    → WritesPage c s n a buff size k
        (after_write c s r.0.data_bitmap n a (data_block_offset + k) buff size)
after_write-WritesPage c s n a buff size k r ready took =
    let w =
      cache_blk_write-WritesBlock c s.blocks (data_block_offset + k) (page_of buff size) 0 ready
        (page_of-IsAligned buff size) in
    record {
      ready = w.ready;
      in_range = took.in_range;
      was_free = took.was_free;
      entry = ground arith;
      page = λ i h. ground (arith, w.put (data_block_offset + k) i h, page_of-bytes buff size i);
      others = λ b i h ne. ground (arith, w.put b i h);
      reaches = λ lines.
          cache_blk_write-Reaches data_block_offset s.blocks (data_block_offset + k)
            (page_of buff size) 0 lines (omega arith) c ready (page_of-IsAligned buff size);
      others_kept = λ m ne. ground arith;
      grown = ground arith;
      entries = λ m b ne. ground arith;
      indirects = λ m b. ground arith;
      ids = λ m. ground arith;
      bitmap = took.taken;
      inodes_kept = refl;
    }

-- On a well-numbered store with a free block, a write of one byte or more to one of the first four pages of
-- an object succeeds and returns the size; the page is in a block that was free, padded with zeros, and
-- every other block, entry and field is what it was, but for the object's size.
pub objstore_write-WritesPage :
    (c : Bool) (s : Store) (n a : ℕ) (buff : ℕ → ℕ) (size free : ℕ)
    → IsReady c s.blocks
    → IsNumbered s
    → n < inodes
    → used s.inode_bitmap n ≡ 1
    → 0 < size
    → a < 4
    → free < data_blocks
    → used s.data_bitmap free ≡ 0
    → (k : ℕ) × (t : Store) × (objstore_write c (n + 2) buff size (block_size * a) s
        ≡ done (t, some size))
      × WritesPage c s n a buff size k t
unfolding objstore_write
objstore_write-WritesPage c s n a buff size free ready ok n_lt n_used pos a_lt free_lt at =
    let s' = record s { dirty_array = update s.dirty_array (n / inodes_per_block) 1 } in
    let (k, took) = free_data_block-Takes s' free free_lt at in
    let w = after_write-WritesPage c s' n a buff size k (free_data_block s') ready took in
    (
      k,
      after_write c s' (free_data_block s').0.data_bitmap n a (data_block_offset + k) buff size,
      rw (find_target_lem s n true ok n_lt n_used) (
          write_target-step c s' n a buff size _ _ pos a_lt
            (Takes-result s' k (free_data_block s') took)),
      record {
        ready = w.ready;
        in_range = w.in_range;
        was_free = w.was_free;
        entry = w.entry;
        page = w.page;
        others = w.others;
        reaches = w.reaches;
        others_kept = w.others_kept;
        grown = w.grown;
        entries = w.entries;
        indirects = w.indirects;
        ids = w.ids;
        bitmap = w.bitmap;
        inodes_kept = w.inodes_kept;
      },
    )
