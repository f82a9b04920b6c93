-- ===== src/ObjStore/Data/Writing.antt =====
-- The files that a store of assignment4/objstore.c holds after a write to a direct page.
pub mod Later
pub mod First
use operating_systems_assign.Base.{
  ℕ, ◌+◌, ◌-◌, ◌*◌, ◌<◌, ◌≤◌, ◌≡◌, ◌≢◌, refl, sym, ap, ◌∙◌, ◌⊎◌, Bool, true, false, not, ◌&&◌,
  Option, none, some, ◌==◌, ltb, inl, inr, Bool-cases, if◌then◌else◌, arith,
}
use operating_systems_assign.ObjStore.Disk.{block_size}
use operating_systems_assign.ObjStore.Cache.Transparent.{blocks, IsReady}
use operating_systems_assign.ObjStore.Bitmap.{used}
use operating_systems_assign.ObjStore.Store.{Store, data_block_offset}
use operating_systems_assign.ObjStore.Alloc.{data_blocks}
use operating_systems_assign.ObjStore.Lookup.{IsNumbered}
use operating_systems_assign.ObjStore.Destroy.{load_int}
use operating_systems_assign.ObjStore.Data.{max_pages, indirect_entry, indirect_start}
use operating_systems_assign.ObjStore.Data.Direct.{WritesPage, padded}
use operating_systems_assign.ObjStore.Data.Layout.{
  Place, page, table, page_block, place_block, Files, Live, Taken, Represents, load_int-same,
  entry_in_range, page_block-kept, Taken-apart, page-Taken, table-Taken,
}
use operating_systems_assign.ObjStore.Data.Files.{put, is_new, Fresh, Adds}

pub differ : (m n b a : ℕ) → (m == n && b == a) ≡ false → (m ≢ n) ⊎ (b ≢ a)
differ m n b a e = elim (Bool-cases (m == n)) [
  | inl same ↦ inr (λ q. absurd (ground arith))
  | inr other ↦ inl (λ q. absurd (ground arith))
]

module _ (c : Bool) (s t : Store) (f : Files) (n a : ℕ) (buff : ℕ → ℕ) (size k : ℕ)
    (ok : Represents c s f) (lt : a < 4) (w : WritesPage c s n a buff size k t) where
  direct-in_place :
      (p : Place) → Live f p → is_new n a p ≡ false → place_block c t p ≡ place_block c s p
  unfolding place_block
  direct-in_place (table m j) h old = w.indirects m j
  direct-in_place (page m b) h old =
      let (b_lt, there) = ok.behind m b h in
      page_block-kept c s t m b (λ d. w.entries m b (differ m n b a old))
        (λ d. w.indirects m (indirect_entry b))
        (λ d.
          load_int-same _ _ (b - indirect_start b)
            (λ i i_lt.
              w.others _ i i_lt (Taken-apart s _ k (table-Taken c s f ok m _ (there d)) w.was_free))
            (entry_in_range b d b_lt))

  direct-Fresh : (p : Place) → is_new n a p ≡ true → Fresh s t (place_block c t p)
  unfolding place_block page_block
  direct-Fresh (table m j) new = absurd (ground arith)
  direct-Fresh (page m b) new = record {
    index = k;
    number = ground (arith, w.entry);
    in_range = w.in_range;
    was_free = w.was_free;
    marked = ground (arith, w.bitmap k);
  }

  direct-separate : (p q : Place) → is_new n a p ≡ true → is_new n a q ≡ true → p ≡ q
  direct-separate (table m j) q new new' = absurd (ground arith)
  direct-separate (page m b) (table m' j) new new' = absurd (ground arith)
  direct-separate (page m b) (page m' b') new new' =
      let e : m ≡ m' = ground arith in let e' : b ≡ b' = ground arith in λ i. page (e i) (e' i)

  pub direct-Adds : Adds c s f n a (padded buff size) t
  unfolding page_block
  direct-Adds = record {
    ready = w.ready;
    numbered =
        λ m m_lt u. w.ids m ∙ ok.numbered m m_lt (ap (λ b. used b m) (sym w.inodes_kept) ∙ u);
    fresh = direct-Fresh;
    separate = λ p q new new' e. direct-separate p q new new';
    still_taken = λ m u. ground (arith, w.bitmap m);
    in_place = λ p h h'. direct-in_place p h;
    written = λ i i_lt. ground (arith, w.entry, w.page i i_lt);
    untouched = λ m b h old i i_lt.
        w.others _ i i_lt (Taken-apart s _ k (page-Taken c s f ok m b h) w.was_free);
  }
