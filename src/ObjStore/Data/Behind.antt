-- ===== src/ObjStore/Data/Behind.antt =====
-- `objstore_write` of assignment4/objstore.c on a page behind an indirect block that there is.
use operating_systems_assign.Base.{
  ℕ, ◌+◌, ◌-◌, ◌*◌, ◌<◌, ◌≤◌, ◌≡◌, ◌≢◌, refl, ap, ◌∙◌, lt→ltb, Bool, true, false, Option, some,
  ◌==◌, ltb, if◌then◌else◌, arith,
}
use operating_systems_assign.ObjStore.Disk.{block_size, Area}
use operating_systems_assign.ObjStore.Cache.{BlockStore, cache_blk_read, cache_blk_write}
use operating_systems_assign.ObjStore.Cache.Transparent.{
  blocks, IsReady, IsAligned, ReadsBlock, cache_blk_read-ReadsBlock, cache_blk_read-base,
  cache_blk_write-WritesBlock,
}
use operating_systems_assign.ObjStore.Cache.Reach.{
  HoldsFrom, Reaches, Reaches-trans, cache_blk_read-Reaches, cache_blk_write-Reaches,
}
use operating_systems_assign.ObjStore.Bitmap.{used}
use operating_systems_assign.ObjStore.Store.{Store, done, data_block_offset}
use operating_systems_assign.ObjStore.Alloc.{data_blocks, Takes, free_data_block}
use operating_systems_assign.ObjStore.Destroy.{load_int, fresh_page}
use operating_systems_assign.ObjStore.Data.{
  max_pages, indirect_entry, indirect_start, store_int, page_of, set_object, save_block,
  write_later, write_page, write_target,
}
use operating_systems_assign.ObjStore.Data.Ints.{load_int-store_int}
use operating_systems_assign.ObjStore.Data.Direct.{
  padded, page_of-bytes, temp_of-page_of, page_of-IsAligned, write_index-page,
}
use operating_systems_assign.ObjStore.Data.Layout.{load_int-same}

-- What a write to a later page leaves: the new block `k` holds the page, and its number stands in
-- the indirect block.
pub record WritesLater (c : Bool) (s : Store) (n a : ℕ) (buff : ℕ → ℕ) (size k : ℕ) (t : Store)
    : Type 0 where
  pub ready : IsReady c t.blocks
  pub in_range : k < data_blocks
  pub was_free : used s.data_bitmap k ≡ 0
  pub page :
      (i : ℕ) → i < block_size → blocks c t.blocks (data_block_offset + k) i ≡ padded buff size i
  pub entries :
      (j : ℕ)
      → j < 1024
      → load_int (blocks c t.blocks ((s.objects n).indirect (indirect_entry a))) j ≡ (
          if j == a - indirect_start a
          then data_block_offset + k
          else load_int (blocks c s.blocks ((s.objects n).indirect (indirect_entry a))) j)
  pub others :
      (b i : ℕ)
      → i < block_size
      → b ≢ data_block_offset + k
      → b ≢ (s.objects n).indirect (indirect_entry a)
      → blocks c t.blocks b i ≡ blocks c s.blocks b i
  pub reaches :
      HoldsFrom data_block_offset s.blocks
      → data_block_offset ≤ (s.objects n).indirect (indirect_entry a)
      → Reaches data_block_offset s.blocks t.blocks
  pub others_kept : (m : ℕ) → m ≢ n → t.objects m ≡ s.objects m
  pub grown : (t.objects n).size ≡ (s.objects n).size + size
  pub directs : (m b : ℕ) → (t.objects m).direct b ≡ (s.objects m).direct b
  pub indirects : (m b : ℕ) → (t.objects m).indirect b ≡ (s.objects m).indirect b
  pub ids : (m : ℕ) → (t.objects m).id ≡ (s.objects m).id
  pub bitmap : (m : ℕ) → used t.data_bitmap m ≡ (if m == k then 1 else used s.data_bitmap m)
  pub inodes_kept : t.inode_bitmap ≡ s.inode_bitmap

-- The indirect block with the new number in it.
abbrev new_entry : Area → ℕ → ℕ → Area
new_entry page j blk = record page { bytes = store_int page.bytes j blk }

-- The store after a write to a later page.
abbrev pub after_later : Bool → Store → (ℕ → ℕ) → ℕ → ℕ → ℕ → (ℕ → ℕ) → ℕ → Store
after_later c s bm n a blk buff size =
    let s' = record s { data_bitmap = bm } in
    let o = s'.objects n in
    let grown = set_object n (record o { size = o.size + size }) s' in
    let at = (s.objects n).indirect (indirect_entry a) in
    let r = cache_blk_read c s.blocks at fresh_page 0 in
    let t = record grown { blocks = r.0 } in
    save_block c blk (page_of buff size)
      (save_block c at (new_entry r.1 (a - indirect_start a) blk) t)

pub write_target-later :
    (c : Bool) (s : Store) (n a : ℕ) (buff : ℕ → ℕ) (size blk : ℕ) (bm : ℕ → ℕ)
    → 0 < size
    → 4 ≤ a
    → a < max_pages
    → a ≢ indirect_start a
    → free_data_block s ≡ (record s { data_bitmap = bm }, some blk)
    → write_target c buff size (block_size * a) s (some n)
      ≡ done (after_later c s bm n a blk buff size, some size)
unfolding write_target write_page write_later
write_target-later c s n a buff size blk bm pos ge lt later e =
    let direct : ltb a 4 ≡ false = ground arith in
    let first : (a == indirect_start a) ≡ false = ground arith in
    let here : (n == n) ≡ true = ground arith in
    rw
      (
        temp_of-page_of buff size pos,
        e,
        write_index-page a lt,
        direct,
        lt→ltb a max_pages lt,
        first,
        here,
      )
      refl

-- Two writes, one after the other.
abbrev pub write_both : Bool → BlockStore → ℕ → Area → ℕ → Area → BlockStore
write_both c b at table blk temp = cache_blk_write c (cache_blk_write c b at table 0) blk temp 0

pub record WritesBoth (c : Bool) (s : BlockStore) (at : ℕ) (table : Area) (blk : ℕ) (temp : Area)
    (t : BlockStore) : Type 0 where
  pub ready : IsReady c t
  pub put :
      (b i : ℕ)
      → i < block_size
      → blocks c t b i ≡ (
          if b == blk
          then temp.bytes (0 + i)
          else if b == at
          then table.bytes (0 + i)
          else blocks c s b i)
  pub reaches : (first : ℕ) → HoldsFrom first s → first ≤ at → first ≤ blk → Reaches first s t

pub write_both-WritesBoth :
    (c : Bool) (s : BlockStore) (at : ℕ) (table : Area) (blk : ℕ) (temp : Area)
    → IsReady c s
    → IsAligned table 0
    → IsAligned temp 0
    → WritesBoth c s at table blk temp (write_both c s at table blk temp)
write_both-WritesBoth c s at table blk temp ready a a' =
    let w = cache_blk_write-WritesBlock c s at table 0 ready a in
    let w' = cache_blk_write-WritesBlock c (cache_blk_write c s at table 0) blk temp 0 w.ready a' in
    record {
      ready = w'.ready;
      put = λ b i h. ground (arith, w'.put b i h, w.put b i h);
      reaches = λ first lines ge ge'.
          let u = cache_blk_write c s at table 0 in
          let r = cache_blk_write-Reaches first s at table 0 lines ge c ready a in
          Reaches-trans first s u (cache_blk_write c u blk temp 0) r
            (cache_blk_write-Reaches first u blk temp 0 r.holds_from ge' c w.ready a');
    }

module _ (c : Bool) (s : Store) (n a : ℕ) (buff : ℕ → ℕ) (size k : ℕ) (r : Store × Option ℕ)
    (ready : IsReady c s.blocks) (ge : 4 ≤ a) (lt : a < max_pages) (took : Takes s k r) where
  abbrev table_block : ℕ
  table_block = (s.objects n).indirect (indirect_entry a)

  abbrev table_read : BlockStore × Area
  table_read = cache_blk_read c s.blocks table_block fresh_page 0

  abbrev later_store : Store
  later_store = after_later c s r.0.data_bitmap n a (data_block_offset + k) buff size

  abbrev new_table : Area
  new_table = new_entry table_read.1 (a - indirect_start a) (data_block_offset + k)

  table_got : ReadsBlock c s.blocks table_block 0 table_read
  table_got =
      cache_blk_read-ReadsBlock c s.blocks table_block fresh_page 0 ready
        (record { base = refl; offset = refl })

  later_saved :
      WritesBoth c table_read.0 table_block new_table
        (data_block_offset + k)
        (page_of buff size)
        later_store.blocks
  later_saved =
      write_both-WritesBoth c table_read.0 table_block new_table (data_block_offset + k)
        (page_of buff size) table_got.ready
        (record {
          base = rw (cache_blk_read-base c s.blocks table_block fresh_page 0) refl;
          offset = refl;
        })
        (page_of-IsAligned buff size)

  later-entries :
      table_block ≢ data_block_offset + k
      → (j : ℕ) → j < 1024
      → load_int (blocks c later_store.blocks table_block) j ≡ (
          if j == a - indirect_start a
          then data_block_offset + k
          else load_int (blocks c s.blocks table_block) j)
  later-entries apart j h =
      let same : load_int (blocks c later_store.blocks table_block) j
          ≡ load_int (store_int table_read.1.bytes (a - indirect_start a) (data_block_offset + k))
              j =
        load_int-same (blocks c later_store.blocks table_block)
          (store_int table_read.1.bytes (a - indirect_start a) (data_block_offset + k)) j
          (λ i i_lt. ground (arith, later_saved.put table_block i i_lt)) h in
      let old : load_int table_read.1.bytes j ≡ load_int (blocks c s.blocks table_block) j =
        load_int-same table_read.1.bytes (blocks c s.blocks table_block) j
          (λ i i_lt. ground (arith, table_got.got i i_lt)) h in
      let stored =
        load_int-store_int table_read.1.bytes (a - indirect_start a) (data_block_offset + k) j
          (omega (arith, took.in_range)) in
      same ∙ (stored ∙ ap (λ x. if j == a - indirect_start a then data_block_offset + k else x) old)

  pub after_later-WritesLater :
      table_block ≢ data_block_offset + k → WritesLater c s n a buff size k later_store
  after_later-WritesLater apart = record {
    ready = later_saved.ready;
    in_range = took.in_range;
    was_free = took.was_free;
    page = λ i h.
        ground (arith, later_saved.put (data_block_offset + k) i h, page_of-bytes buff size i);
    entries = later-entries apart;
    others = λ b i h ne ne'. ground (arith, later_saved.put b i h, table_got.kept b i h);
    reaches = λ lines ge'.
        let reached =
          cache_blk_read-Reaches data_block_offset s.blocks table_block fresh_page 0 lines ge' c
            ready in
        Reaches-trans data_block_offset s.blocks table_read.0 later_store.blocks reached
          (later_saved.reaches data_block_offset reached.holds_from ge' (omega arith));
    others_kept = λ m ne. ground arith;
    grown = ground arith;
    directs = λ m b. ground arith;
    indirects = λ m b. ground arith;
    ids = λ m. ground arith;
    bitmap = took.taken;
    inodes_kept = refl;
  }
