-- ===== src/ObjStore/Data/RoundTrip.antt =====
-- `objstore_read` of assignment4/objstore.c on pages that an object holds directly, and the round
-- trip with `objstore_write`.
use operating_systems_assign.Base.{
  refl, ℕ, ◌+◌, ◌*◌, ◌<◌, ◌≤◌, ◌≡◌, ◌≢◌, ap, lt→ltb, ◌∙◌, ◌⊎◌, Bool, some, arith,
}
use operating_systems_assign.ObjStore.Disk.{block_size}
use operating_systems_assign.ObjStore.Cache.Transparent.{IsReady}
use operating_systems_assign.ObjStore.Bitmap.{used}
use operating_systems_assign.ObjStore.Store.{Store, done, data_block_offset}
use operating_systems_assign.ObjStore.Alloc.{data_blocks}
use operating_systems_assign.ObjStore.Lookup.{inodes, IsNumbered}
use operating_systems_assign.ObjStore.Data.{objstore_write, objstore_read}
use operating_systems_assign.ObjStore.Data.Layout.{page_block}
use operating_systems_assign.ObjStore.Data.Reading.{objstore_read-ReadsPage}
use operating_systems_assign.ObjStore.Data.Direct.{WritesPage, objstore_write-WritesPage}

page_block-direct :
    (c : Bool) (s : Store) (n a : ℕ) → a < 4 → page_block c s n a ≡ (s.objects n).direct a
unfolding page_block
page_block-direct c s n a lt = rw (lt→ltb a 4 lt) refl

abbrev pub RoundTrips : Bool → ℕ → ℕ → (ℕ → ℕ) → ℕ → (ℕ → ℕ) → Store → Type 0
RoundTrips c objid offset buff size out t =
    (r : Store × (ℕ → ℕ)) × (objstore_read c objid out size offset t ≡ done r)
    × ((i : ℕ) → i < size → r.1 i ≡ buff i)

abbrev pub SameReads : Bool → ℕ → ℕ → ℕ → (ℕ → ℕ) → Store → Store → Type 0
SameReads c objid offset len out s t =
    (r r' : Store × (ℕ → ℕ)) × (objstore_read c objid out len offset s ≡ done r)
    × (objstore_read c objid out len offset t ≡ done r')
    × ((i : ℕ) → i < len → r.1 i ≡ r'.1 i)

module _ (c : Bool) (s t : Store) (n a k size : ℕ) (buff : ℕ → ℕ)
    (w : WritesPage c s n a buff size k t) where
  WritesPage-IsNumbered : IsNumbered s → IsNumbered t
  WritesPage-IsNumbered ok m lt u = w.ids m ∙ ok m lt (rw w.inodes_kept at u)

  -- The page just written is read back.
  read_after_write :
      (out : ℕ → ℕ)
      → IsNumbered s
      → n < inodes
      → used s.inode_bitmap n ≡ 1
      → a < 4
      → 0 < size
      → size ≤ block_size
      → RoundTrips c (n + 2) (block_size * a) buff size out t
  read_after_write out ok n_lt n_used a_lt pos small =
      let n_used' : used t.inode_bitmap n ≡ 1 = ap (λ f. used f n) w.inodes_kept ∙ n_used in
      let (r, did, g) =
        objstore_read-ReadsPage c t n a size out w.ready (WritesPage-IsNumbered ok) n_lt n_used'
          (omega arith) pos small in
      (
        r,
        did,
        λ i lt.
            g.got i
            ∙ ground (
              arith,
              page_block-direct c t n a a_lt,
              lt→ltb i size lt,
              w.entry,
              w.page i (omega arith),
            ),
      )

  -- A page in another entry, whose block was taken before the write, reads as it did.
  read_other_page :
      (m b j : ℕ) (out : ℕ → ℕ) (len : ℕ)
      → IsReady c s.blocks
      → IsNumbered s
      → m < inodes
      → used s.inode_bitmap m ≡ 1
      → b < 4
      → 0 < len
      → len ≤ block_size
      → (m ≢ n) ⊎ (b ≢ a)
      → (s.objects m).direct b ≡ data_block_offset + j
      → used s.data_bitmap j ≡ 1
      → SameReads c (m + 2) (block_size * b) len out s t
  read_other_page m b j out len ready ok m_lt m_used b_lt pos small other at taken =
      let m_used' : used t.inode_bitmap m ≡ 1 = ap (λ f. used f m) w.inodes_kept ∙ m_used in
      let (r, did, g) =
        objstore_read-ReadsPage c s m b len out ready ok m_lt m_used (omega arith) pos small in
      let (r', did', g') =
        objstore_read-ReadsPage c t m b len out w.ready (WritesPage-IsNumbered ok) m_lt m_used'
          (omega arith) pos small in
      let apart : j ≢ k =
        λ e. absurd (omega (arith, w.was_free, taken, ap (used s.data_bitmap) e)) in
      (
        r,
        r',
        did,
        did',
        λ i lt. ground (
          arith,
          page_block-direct c s m b b_lt,
          page_block-direct c t m b b_lt,
          g.got i,
          g'.got i,
          at,
          w.entries m b other,
          w.others (data_block_offset + j) i (omega arith),
        ),
      )

-- In either build, on a well-numbered store with a free block, 1 to 4096 bytes that are written to
-- one of the first four pages of an object in use are read back.
pub objstore_read-written :
    (c : Bool) (s : Store) (n a : ℕ) (buff out : ℕ → ℕ) (size free : ℕ)
    → IsReady c s.blocks
    → IsNumbered s
    → n < inodes
    → used s.inode_bitmap n ≡ 1
    → a < 4
    → 0 < size
    → size ≤ block_size
    → free < data_blocks
    → used s.data_bitmap free ≡ 0
    → (t : Store) × (objstore_write c (n + 2) buff size (block_size * a) s ≡ done (t, some size))
      × RoundTrips c (n + 2) (block_size * a) buff size out t
objstore_read-written c s n a buff out size free ready ok n_lt n_used a_lt pos small free_lt at =
    let (k, t, wrote, w) =
      objstore_write-WritesPage c s n a buff size free ready ok n_lt n_used pos a_lt free_lt at in
    (t, wrote, read_after_write c s t n a k size buff w out ok n_lt n_used a_lt pos small)

-- On a well-numbered store with a free block, a write of one byte or more to one of the
-- first four pages of an object leaves what is read of every other page that an object in use holds directly in a block marked
-- as taken, be it of the same object or of another one.
pub objstore_write-frame :
    (c : Bool) (s : Store) (n a : ℕ) (buff out : ℕ → ℕ) (size free m b j len : ℕ)
    → IsReady c s.blocks
    → IsNumbered s
    → n < inodes
    → used s.inode_bitmap n ≡ 1
    → 0 < size
    → a < 4
    → free < data_blocks
    → used s.data_bitmap free ≡ 0
    → m < inodes
    → used s.inode_bitmap m ≡ 1
    → b < 4
    → (m ≢ n) ⊎ (b ≢ a)
    → (s.objects m).direct b ≡ data_block_offset + j
    → used s.data_bitmap j ≡ 1
    → 0 < len
    → len ≤ block_size
    → (t : Store) × (objstore_write c (n + 2) buff size (block_size * a) s ≡ done (t, some size))
      × SameReads c (m + 2) (block_size * b) len out s t
objstore_write-frame c s n a buff out size free m b j len ready ok n_lt n_used written a_lt free_lt
      at m_lt m_used b_lt other entry taken pos small =
    let (k, t, wrote, w) =
      objstore_write-WritesPage c s n a buff size free ready ok n_lt n_used written a_lt free_lt
        at in
    (
      t,
      wrote,
      read_other_page c s t n a k size buff w m b j out len ready ok m_lt m_used b_lt pos small
          other entry taken,
    )
