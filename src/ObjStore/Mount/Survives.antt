-- ===== src/ObjStore/Mount/Survives.antt =====
-- The files of a store of assignment4/objstore.c after it has been unmounted and mounted again.
use operating_systems_assign.Base.{
  ℕ, ◌-◌, ◌/◌, ◌%◌, ◌<◌, ◌≤◌, ◌≡◌, refl, sym, ◌∙◌, true, ltb, ltb→lt, Bool-cases, inl, inr, arith,
}
use operating_systems_assign.ObjStore.Disk.{block_size, Area}
use operating_systems_assign.ObjStore.Cache.Transparent.{blocks}
use operating_systems_assign.ObjStore.Bitmap.{used}
use operating_systems_assign.ObjStore.Store.{Store, data_block_offset}
use operating_systems_assign.ObjStore.Alloc.{data_blocks}
use operating_systems_assign.ObjStore.Lookup.{inodes, IsNumbered}
use operating_systems_assign.ObjStore.Destroy.{load_int}
use operating_systems_assign.ObjStore.Data.{indirect_entry, indirect_start}
use operating_systems_assign.ObjStore.Data.Layout.{
  Place, page, table, page_block, place_block, Files, Live, Represents, Represents-kept,
  load_int-same, entry_in_range, page-Taken, table-Taken,
}
use operating_systems_assign.ObjStore.Data.Files.{IsOwned}
use operating_systems_assign.ObjStore.Mount.{Memory, objstore_init, objstore_destroy}
use operating_systems_assign.ObjStore.Mount.Remount.{
  Shows, IsClosable, Remounts, objstore_init-Remounts,
}

module _ (s t : Store) (f : Files) (ok : Represents true s f) (own : IsOwned f)
    (w : Remounts s t) where
  same_view :
      (b i : ℕ)
      → data_block_offset ≤ b
      → i < block_size
      → blocks true t.blocks b i ≡ blocks true s.blocks b i
  unfolding blocks
  same_view = w.blocks

  pub inode_marks : (n : ℕ) → n < inodes → used t.inode_bitmap n ≡ used s.inode_bitmap n
  unfolding used
  inode_marks n lt = rw (w.inodes (n / 32) (omega arith)) refl

  pub data_marks : (n : ℕ) → n < data_blocks → used t.data_bitmap n ≡ used s.data_bitmap n
  unfolding used
  data_marks n lt = rw (w.data_blocks (n / 32) (omega arith)) refl

  same_entry :
      (m b : ℕ)
      → 4 ≤ b
      → Live f (page m b)
      → load_int
          (blocks true t.blocks ((t.objects m).indirect (indirect_entry b)))
          (b - indirect_start b)
        ≡ load_int
            (blocks true s.blocks ((s.objects m).indirect (indirect_entry b)))
            (b - indirect_start b)
  same_entry m b ge h =
      let (b_lt, there) = ok.behind m b h in
      let taken = table-Taken true s f ok m (indirect_entry b) (there ge) in
      let at = (s.objects m).indirect (indirect_entry b) in
      let o = w.objects m (omega (arith, own.pages m b h)) in
      rw (o.indirects (indirect_entry b) (ground arith)) (
        load_int-same (blocks true t.blocks at) (blocks true s.blocks at) (b - indirect_start b)
          (λ i lt. same_view at i (omega (arith, taken.number)) lt) (entry_in_range b ge b_lt))

  same_page : (m b : ℕ) → Live f (page m b) → page_block true t m b ≡ page_block true s m b
  unfolding page_block
  same_page m b h = elim (Bool-cases (ltb b 4)) [
    | inl direct ↦
        rw direct ((w.objects m (omega (arith, own.pages m b h))).directs b (ltb→lt b 4 direct))
    | inr behind ↦ rw behind (same_entry m b (ground arith) h)
  ]

  same_place : (p : Place) → Live f p → place_block true t p ≡ place_block true s p
  unfolding place_block
  same_place (page m b) h = same_page m b h
  same_place (table m k) h =
      let (lt, k_lt) = own.tables m k h in (w.objects m (omega (arith, lt))).indirects k k_lt

  pub Remounts-IsNumbered : IsNumbered t
  Remounts-IsNumbered n lt u =
      (w.objects n (omega arith)).id ∙ ok.numbered n lt (sym (inode_marks n lt) ∙ u)

  -- A store that is mounted as it was unmounted holds the same files.
  pub Remounts-Represents : Represents true t f
  Remounts-Represents =
      Represents-kept true s t f ok w.coherent Remounts-IsNumbered same_place
        (λ i lt u. data_marks i lt ∙ u)
        (λ m b i h lt.
          same_view (page_block true s m b) i (omega (arith, (page-Taken true s f ok m b h).number))
            lt)

-- Where the memory holds the bytes of the store's table and bitmaps and the store can be closed,
-- the store that `objstore_init` sets up on the image that `objstore_destroy` leaves holds the
-- files that the store held.
pub objstore_init-Represents :
    (m : Memory) (s : Store) (f : Files) (cache : Area)
    → Shows m s
    → IsClosable s
    → Represents true s f
    → IsOwned f
    → cache.base % block_size ≡ 0
    → Represents true (objstore_init (objstore_destroy m s) cache) f
objstore_init-Represents m s f cache shows closable ok own aligned =
    Remounts-Represents s (objstore_init (objstore_destroy m s) cache) f ok own
      (objstore_init-Remounts m s shows closable cache aligned)
