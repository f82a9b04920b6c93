-- ===== src/ObjStore/Data/Reading.antt =====
-- `objstore_read` of assignment4/objstore.c on every page of an object, direct or behind an
-- indirect block.
use operating_systems_assign.Base.{
  ℕ, ◌+◌, ◌-◌, ◌*◌, ◌<◌, ◌≤◌, ◌≡◌, refl, ap, lt→ltb, ◌∙◌, Bool, true, false, some, inl, inr,
  Bool-cases, ltb, ltb→lt, if◌then◌else◌, arith,
}
use operating_systems_assign.Base.Arrays.{copy_bytes, copy_bytes_lem}
use operating_systems_assign.ObjStore.Disk.{block_size, Area}
use operating_systems_assign.ObjStore.Cache.{BlockStore, cache_blk_read}
use operating_systems_assign.ObjStore.Cache.Transparent.{
  blocks, IsReady, IsAligned, ReadsBlock, cache_blk_read-ReadsBlock,
}
use operating_systems_assign.ObjStore.Cache.Reach.{
  HoldsFrom, Reaches, Reaches-trans, cache_blk_read-Reaches,
}
use operating_systems_assign.ObjStore.Bitmap.{used}
use operating_systems_assign.ObjStore.Store.{data_block_offset, Store, done}
use operating_systems_assign.ObjStore.Lookup.{IsNumbered, inodes, find_target_lem}
use operating_systems_assign.ObjStore.Destroy.{fresh_page, load_int}
use operating_systems_assign.ObjStore.Data.{
  max_pages, indirect_entry, indirect_start, read_page, read_pages, objstore_read,
}
use operating_systems_assign.ObjStore.Data.Direct.{read_index-page, one_block}
use operating_systems_assign.ObjStore.Data.Layout.{
  page-Taken, table-Taken, Represents-kept, Place, page, table, page_block, place_block, Files,
  Live, Represents, load_int-same, entry_in_range,
}

fresh_page-IsAligned : IsAligned fresh_page 0
fresh_page-IsAligned = record { base = refl; offset = refl }

-- The page's block is a data block, and so is the indirect block that governs the page.
pub record InData (c : Bool) (s : Store) (n a : ℕ) : Type 0 where
  pub lines : HoldsFrom data_block_offset s.blocks
  pub page_in : data_block_offset ≤ page_block c s n a
  pub table_in : 4 ≤ a → data_block_offset ≤ (s.objects n).indirect (indirect_entry a)

-- A round on a page of an object: the buffer holds the page's block, and only the block store
-- below has changed, which no client can tell.
abbrev ReadsRound : Bool → Store → ℕ → ℕ → Type 0
ReadsRound c s n a =
    (r : BlockStore × Area) × (read_page c (some n) a 0 s fresh_page
      ≡ done (some (record s { blocks = r.0 }, r.1)))
    × ReadsBlock c s.blocks (page_block c s n a) 0 r
    × (InData c s n a → Reaches data_block_offset s.blocks r.0)

module _ (c : Bool) (s : Store) (n a : ℕ) (ready : IsReady c s.blocks) where
  read_page-direct : ltb a 4 ≡ true → ReadsRound c s n a
  unfolding read_page page_block
  read_page-direct lt =
      let r = cache_blk_read c s.blocks ((s.objects n).direct a) fresh_page 0 in
      rw (lt, lt→ltb a max_pages (ground (arith, ltb→lt a 4 lt)))
        (
          r,
          refl,
          cache_blk_read-ReadsBlock c s.blocks _ fresh_page 0 ready fresh_page-IsAligned,
          λ i.
              cache_blk_read-Reaches data_block_offset s.blocks ((s.objects n).direct a) fresh_page
                0 i.lines (rw lt at i.page_in) c ready,
        )

  read_page-behind : ltb a 4 ≡ false → a < max_pages → ReadsRound c s n a
  unfolding read_page page_block
  read_page-behind ge lt =
      let j = a - indirect_start a in
      let at = (s.objects n).indirect (indirect_entry a) in
      let r = cache_blk_read c s.blocks at fresh_page 0 in
      let w = cache_blk_read-ReadsBlock c s.blocks at fresh_page 0 ready fresh_page-IsAligned in
      let r' = cache_blk_read c r.0 (load_int r.1.bytes j) fresh_page 0 in
      let w' =
        cache_blk_read-ReadsBlock c r.0 (load_int r.1.bytes j) fresh_page 0 w.ready
          fresh_page-IsAligned in
      let same : load_int r.1.bytes j ≡ load_int (blocks c s.blocks at) j =
        load_int-same r.1.bytes (blocks c s.blocks at) j (λ i h. ground (arith, w.got i h))
          (entry_in_range a (ground arith) lt) in
      rw (ge, lt→ltb a max_pages lt)
        (
          r',
          refl,
          record {
            ready = w'.ready;
            kept = λ b i h. w'.kept b i h ∙ w.kept b i h;
            got = λ i h. w'.got i h ∙ (w.kept _ i h ∙ ap (λ b. blocks c s.blocks b i) same);
          },
          λ i.
              let reached =
                cache_blk_read-Reaches data_block_offset s.blocks at fresh_page 0 i.lines
                  (i.table_in (ground arith)) c ready in
              let in_data : data_block_offset ≤ load_int (blocks c s.blocks at) j =
                rw ge at i.page_in in
              Reaches-trans data_block_offset s.blocks r.0 r'.0 reached (
                cache_blk_read-Reaches data_block_offset r.0 (load_int r.1.bytes j) fresh_page 0
                  reached.holds_from (rw same in_data) c w.ready),
        )

  read_page_lem : a < max_pages → ReadsRound c s n a
  read_page_lem lt = elim (Bool-cases (ltb a 4)) [
    | inl direct ↦ read_page-direct direct
    | inr behind ↦ read_page-behind behind lt
  ]

-- A change of the block store below that no client can tell leaves the files as they are.
module _ (c : Bool) (s : Store) (f : Files) (ok : Represents c s f) (b : BlockStore)
    (same : (x i : ℕ) → i < block_size → blocks c b x i ≡ blocks c s.blocks x i) where
  page_block-same :
      (n a : ℕ) → a < max_pages → page_block c (record s { blocks = b }) n a ≡ page_block c s n a
  unfolding page_block
  page_block-same n a lt = elim (Bool-cases (ltb a 4)) [
    | inl direct ↦ rw direct refl
    | inr behind ↦ rw behind (
        load_int-same (blocks c b ((s.objects n).indirect (indirect_entry a)))
          (blocks c s.blocks ((s.objects n).indirect (indirect_entry a))) (a - indirect_start a)
          (same ((s.objects n).indirect (indirect_entry a))) (entry_in_range a (ground arith) lt))
  ]

  place_block-same :
      (p : Place) → Live f p → place_block c (record s { blocks = b }) p ≡ place_block c s p
  unfolding place_block
  place_block-same (page n a) h = page_block-same n a (ok.behind n a h).0
  place_block-same (table n k) h = refl

  pub Represents-same : IsReady c b → Represents c (record s { blocks = b }) f
  Represents-same ready =
      Represents-kept c s (record s { blocks = b }) f ok ready ok.numbered place_block-same
        (λ i lt u. u) (λ m a i h lt. same (page_block c s m a) i lt)

-- A read that succeeds: the buffer's first `size` bytes are those of the page's block, and a client
-- of the block store cannot tell that it took place.
pub record ReadsPage (c : Bool) (s : Store) (n a size : ℕ) (buff : ℕ → ℕ) (r : Store × (ℕ → ℕ))
    : Type 0 where
  pub ready : IsReady c r.0.blocks
  pub kept : (b i : ℕ) → i < block_size → blocks c r.0.blocks b i ≡ blocks c s.blocks b i
  pub table : r.0 ≡ record s { blocks = r.0.blocks }
  pub got :
      (i : ℕ) → r.1 i ≡ (if ltb i size then blocks c s.blocks (page_block c s n a) i else buff i)
  pub reaches : InData c s n a → Reaches data_block_offset s.blocks r.0.blocks

-- On a well-numbered store `objstore_read`, asked for 1 to 4096 bytes of a page of an object in use,
-- direct or behind an indirect block, returns what the page's block holds, up to the size that was
-- asked for, and it changes no block and no entry.
pub objstore_read-ReadsPage :
    (c : Bool) (s : Store) (n a size : ℕ) (buff : ℕ → ℕ)
    → IsReady c s.blocks
    → IsNumbered s
    → n < inodes
    → used s.inode_bitmap n ≡ 1
    → a < max_pages
    → 0 < size
    → size ≤ block_size
    → (r : Store × (ℕ → ℕ)) × (objstore_read c (n + 2) buff size (block_size * a) s ≡ done r)
      × ReadsPage c s n a size buff r
unfolding objstore_read read_pages
objstore_read-ReadsPage c s n a size buff ready ok n_lt n_used a_lt pos small =
    let (r, ran, w, reached) = read_page_lem c s n a ready a_lt in
    (
      (record s { blocks = r.0 }, copy_bytes size buff 0 r.1.bytes),
      rw
          (
            find_target_lem s n false ok n_lt n_used,
            one_block size pos small,
            read_index-page a a_lt,
            ran,
          )
          refl,
      record {
        ready = w.ready;
        kept = w.kept;
        table = refl;
        got = λ i. ground (arith, copy_bytes_lem size buff 0 r.1.bytes i, w.got i);
        reaches = reached;
      },
    )

-- The call reads the page from the specification, and the store still holds the same files.
pub record ReadsFile (c : Bool) (s : Store) (f : Files) (bytes buff : ℕ → ℕ) (size : ℕ)
    (r : Store × (ℕ → ℕ)) : Type 0 where
  pub represents : Represents c r.0 f
  pub same : r.0 ≡ record s { blocks = r.0.blocks }
  pub reaches : HoldsFrom data_block_offset s.blocks → Reaches data_block_offset s.blocks r.0.blocks
  pub inodes_kept : r.0.inode_bitmap ≡ s.inode_bitmap
  pub bitmap_kept : r.0.data_bitmap ≡ s.data_bitmap
  pub got : (i : ℕ) → r.1 i ≡ (if ltb i size then bytes i else buff i)

-- On a store that holds the files `f`, `objstore_read`, asked for 1 to 4096 bytes of a page that
-- `f` has of an object in use, be it direct or behind an indirect block, returns the page's bytes
-- up to the size, and the store still holds `f`.
pub objstore_read-ReadsFile :
    (c : Bool) (s : Store) (f : Files) (n a size : ℕ) (bytes buff : ℕ → ℕ)
    → Represents c s f
    → n < inodes
    → used s.inode_bitmap n ≡ 1
    → f.pages n a ≡ some bytes
    → 0 < size
    → size ≤ block_size
    → (r : Store × (ℕ → ℕ)) × (objstore_read c (n + 2) buff size (block_size * a) s ≡ done r)
      × ReadsFile c s f bytes buff size r
objstore_read-ReadsFile c s f n a size bytes buff ok n_lt n_used e pos small =
    let (r, ran, w) =
      objstore_read-ReadsPage c s n a size buff ok.ready ok.numbered n_lt n_used
        (ok.behind n a (rw e refl)).0 pos small in
    (
      r,
      ran,
      record {
        represents = rw w.table (Represents-same c s f ok r.0.blocks w.kept w.ready);
        same = w.table;
        reaches = λ lines. w.reaches (record {
          lines = lines;
          page_in = omega (arith, (page-Taken c s f ok n a (rw e refl)).number);
          table_in = λ ge. omega (
            arith,
            (table-Taken c s f ok n (indirect_entry a) ((ok.behind n a (rw e refl)).1 ge)).number,
          );
        });
        inodes_kept = ap (λ t. t.inode_bitmap) w.table;
        bitmap_kept = ap (λ t. t.data_bitmap) w.table;
        got = λ i. ground (arith, w.got i, ok.holds n a bytes e i);
      },
    )
