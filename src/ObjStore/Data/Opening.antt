-- ===== src/ObjStore/Data/Opening.antt =====
-- `objstore_write` of assignment4/objstore.c on the first page behind an indirect block, for which
-- that block is made.
use operating_systems_assign.Base.{
  ℕ, ◌+◌, ◌*◌, ◌<◌, ◌≤◌, ◌≡◌, ◌≢◌, refl, ◌∙◌, ◌⊎◌, lt→ltb, Bool, true, false, Option, some, ◌==◌,
  ltb, if◌then◌else◌, arith,
}
use operating_systems_assign.Base.Arrays.{update}
use operating_systems_assign.ObjStore.Disk.{block_size, Area}
use operating_systems_assign.ObjStore.Cache.Transparent.{blocks, IsReady}
use operating_systems_assign.ObjStore.Cache.Reach.{HoldsFrom, Reaches}
use operating_systems_assign.ObjStore.Bitmap.{used}
use operating_systems_assign.ObjStore.Store.{Store, done, data_block_offset}
use operating_systems_assign.ObjStore.Alloc.{data_blocks, Takes, free_data_block}
use operating_systems_assign.ObjStore.Destroy.{load_int, fresh_page}
use operating_systems_assign.ObjStore.Data.{
  max_pages, indirect_entry, indirect_start, store_int, page_of, set_object, save_block,
  write_first, write_page, write_target,
}
use operating_systems_assign.ObjStore.Data.Ints.{load_int-store_int}
use operating_systems_assign.ObjStore.Data.Direct.{
  padded, page_of-bytes, temp_of-page_of, page_of-IsAligned, write_index-page,
}
use operating_systems_assign.ObjStore.Data.Behind.{WritesBoth, write_both-WritesBoth}
use operating_systems_assign.ObjStore.Data.Layout.{load_int-same}

-- What a write to the first page of an indirect block leaves: the new block `j` is the indirect
-- one; its first entry is the new block `k`, which holds the page, and the others are 0.
pub record WritesFirst (c : Bool) (s : Store) (n a : ℕ) (buff : ℕ → ℕ) (size j k : ℕ) (t : Store)
    : Type 0 where
  pub ready : IsReady c t.blocks
  pub in_range : (j < data_blocks) × (k < data_blocks)
  pub was_free : (used s.data_bitmap j ≡ 0) × (used s.data_bitmap k ≡ 0)
  pub apart : j ≢ k
  pub page :
      (i : ℕ) → i < block_size → blocks c t.blocks (data_block_offset + k) i ≡ padded buff size i
  pub opened : (t.objects n).indirect (indirect_entry a) ≡ data_block_offset + j
  pub entries :
      (i : ℕ)
      → i < 1024
      → load_int (blocks c t.blocks (data_block_offset + j)) i
        ≡ (if i == 0 then data_block_offset + k else 0)
  pub others :
      (b i : ℕ)
      → i < block_size
      → b ≢ data_block_offset + j
      → b ≢ data_block_offset + k
      → blocks c t.blocks b i ≡ blocks c s.blocks b i
  pub reaches : HoldsFrom data_block_offset s.blocks → Reaches data_block_offset s.blocks t.blocks
  pub others_kept : (m : ℕ) → m ≢ n → t.objects m ≡ s.objects m
  pub grown : (t.objects n).size ≡ (s.objects n).size + size
  pub directs : (m b : ℕ) → (t.objects m).direct b ≡ (s.objects m).direct b
  pub indirects :
      (m b : ℕ)
      → (m ≢ n) ⊎ (b ≢ indirect_entry a)
      → (t.objects m).indirect b ≡ (s.objects m).indirect b
  pub ids : (m : ℕ) → (t.objects m).id ≡ (s.objects m).id
  pub bitmap :
      (m : ℕ)
      → used t.data_bitmap m ≡ (if m == k then 1 else if m == j then 1 else used s.data_bitmap m)
  pub inodes_kept : t.inode_bitmap ≡ s.inode_bitmap

-- An indirect block with one entry.
abbrev first_table : ℕ → Area
first_table blk = record fresh_page { bytes = store_int fresh_page.bytes 0 blk }

-- The store between the two calls of `free_data_block`.
abbrev pub grown_by : ℕ → ℕ → (ℕ → ℕ) → Store → Store
grown_by n size bm s =
    let s' = record s { data_bitmap = bm } in
    let o = s'.objects n in set_object n (record o { size = o.size + size }) s'

abbrev pub after_first : Bool → Store → (ℕ → ℕ) → ℕ → ℕ → ℕ → ℕ → (ℕ → ℕ) → ℕ → Store
after_first c s bm n a blk_1 blk_2 buff size =
    let s' = grown_by n size bm s in
    let o = s'.objects n in
    let t = set_object n (record o { indirect = update o.indirect (indirect_entry a) blk_1 }) s' in
    save_block c blk_2 (page_of buff size) (save_block c blk_1 (first_table blk_2) t)

pub write_target-first :
    (c : Bool) (s : Store) (n a : ℕ) (buff : ℕ → ℕ) (size blk_1 blk_2 : ℕ) (bm bm' : ℕ → ℕ)
    → 0 < size
    → 4 ≤ a
    → a < max_pages
    → a ≡ indirect_start a
    → free_data_block s ≡ (record s { data_bitmap = bm }, some blk_1)
    → free_data_block (grown_by n size bm s) ≡ (grown_by n size bm' s, some blk_2)
    → write_target c buff size (block_size * a) s (some n)
      ≡ done (after_first c s bm' n a blk_1 blk_2 buff size, some size)
unfolding write_target write_page write_first
write_target-first c s n a buff size blk_1 blk_2 bm bm' pos ge lt opens e e' =
    let direct : ltb a 4 ≡ false = ground arith in
    let first : (a == indirect_start a) ≡ true = ground arith in
    rw
      (
        temp_of-page_of buff size pos,
        e,
        write_index-page a lt,
        direct,
        lt→ltb a max_pages lt,
        first,
        e',
      )
      refl

module _ (c : Bool) (s : Store) (n a : ℕ) (buff : ℕ → ℕ) (size j k : ℕ) (r r' : Store × Option ℕ)
    (ready : IsReady c s.blocks) (took : Takes s j r)
    (took' : Takes (grown_by n size r.0.data_bitmap s) k r') where
  abbrev opened_store : Store
  opened_store =
      after_first c s r'.0.data_bitmap n a (data_block_offset + j) (data_block_offset + k) buff size

  two_blocks : j ≢ k
  two_blocks e = absurd (ground (arith, took.taken k, took'.was_free, e))

  first_saved :
      WritesBoth c s.blocks
        (data_block_offset + j)
        (first_table (data_block_offset + k))
        (data_block_offset + k)
        (page_of buff size)
        opened_store.blocks
  first_saved =
      write_both-WritesBoth c s.blocks (data_block_offset + j) (first_table (data_block_offset + k))
        (data_block_offset + k) (page_of buff size) ready (record { base = refl; offset = refl })
        (page_of-IsAligned buff size)

  first-entries :
      (i : ℕ)
      → i < 1024
      → load_int (blocks c opened_store.blocks (data_block_offset + j)) i
        ≡ (if i == 0 then data_block_offset + k else 0)
  first-entries i lt =
      load_int-same (blocks c opened_store.blocks (data_block_offset + j))
        (store_int fresh_page.bytes 0 (data_block_offset + k)) i
        (λ b h. ground (arith, first_saved.put (data_block_offset + j) b h, two_blocks)) lt
      ∙ load_int-store_int fresh_page.bytes 0 (data_block_offset + k) i
          (omega (arith, took'.in_range))

  free_before : used s.data_bitmap k ≡ 0
  free_before = ground (arith, took.taken k, took'.was_free, two_blocks)

  pub after_first-WritesFirst : WritesFirst c s n a buff size j k opened_store
  after_first-WritesFirst = record {
    ready = first_saved.ready;
    in_range = (took.in_range, took'.in_range);
    was_free = (took.was_free, free_before);
    apart = two_blocks;
    page = λ i h.
        ground (arith, first_saved.put (data_block_offset + k) i h, page_of-bytes buff size i);
    opened = ground arith;
    entries = first-entries;
    others = λ b i h ne ne'. ground (arith, first_saved.put b i h);
    reaches = λ lines. first_saved.reaches data_block_offset lines (omega arith) (omega arith);
    others_kept = λ m ne. ground arith;
    grown = ground arith;
    directs = λ m b. ground arith;
    indirects = λ m b ne. ground arith;
    ids = λ m. ground arith;
    bitmap = λ m. ground (arith, took'.taken m, took.taken m);
    inodes_kept = refl;
  }
