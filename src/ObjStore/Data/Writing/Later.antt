-- ===== src/ObjStore/Data/Writing/Later.antt =====
-- The files that a store of assignment4/objstore.c holds after a write to a page behind an
-- indirect block that there is.
use operating_systems_assign.Base.{
  ℕ, ◌+◌, ◌-◌, ◌<◌, ◌≤◌, ◌≡◌, refl, sym, ap, ◌∙◌, Bool, true, false, ◌&&◌, ◌==◌, inl, inr,
  Bool-cases, arith,
}
use operating_systems_assign.ObjStore.Cache.Transparent.{blocks}
use operating_systems_assign.ObjStore.Bitmap.{used}
use operating_systems_assign.ObjStore.Store.{Store, data_block_offset}
use operating_systems_assign.ObjStore.Destroy.{load_int}
use operating_systems_assign.ObjStore.Data.{max_pages, indirect_entry, indirect_start}
use operating_systems_assign.ObjStore.Data.Direct.{padded}
use operating_systems_assign.ObjStore.Data.Behind.{WritesLater}
use operating_systems_assign.ObjStore.Data.Layout.{
  Place, page, table, page_block, place_block, Files, Live, Represents, load_int-same,
  entry_in_range, page_block-kept, Taken-apart, page-Taken, table-Taken, table-apart,
  page-table-apart,
}
use operating_systems_assign.ObjStore.Data.Files.{is_first, is_new, Fresh, Adds}

-- Two pages behind one indirect block stand in different entries of it.
entries_differ :
    (n a m b : ℕ)
    → 4 ≤ a
    → 4 ≤ b
    → m ≡ n
    → indirect_entry b ≡ indirect_entry a
    → (m == n && b == a) ≡ false
    → (b - indirect_start b == a - indirect_start a) ≡ false
entries_differ n a m b ge ge' e e' old = ground arith

module _ (c : Bool) (s t : Store) (f : Files) (n a : ℕ) (buff : ℕ → ℕ) (size k : ℕ)
    (ok : Represents c s f) (ge : 4 ≤ a) (lt : a < max_pages) (later : is_first a ≡ false)
    (there : Live f (table n (indirect_entry a))) (w : WritesLater c s n a buff size k t) where
  later-block : page_block c t n a ≡ data_block_offset + k
  unfolding page_block
  later-block = ground (
    arith,
    w.indirects n (indirect_entry a),
    w.entries (a - indirect_start a) (entry_in_range a ge lt),
  )

  -- An entry that is not written to is what it was.
  entry_kept :
      (m b : ℕ)
      → 4 ≤ b
      → b < max_pages
      → Live f (table m (indirect_entry b))
      → is_new n a (page m b) ≡ false
      → load_int
          (blocks c t.blocks ((s.objects m).indirect (indirect_entry b)))
          (b - indirect_start b)
        ≡ load_int
            (blocks c s.blocks ((s.objects m).indirect (indirect_entry b)))
            (b - indirect_start b)
  entry_kept m b ge' b_lt there' old =
      let at = (s.objects n).indirect (indirect_entry a) in
      let at' = (s.objects m).indirect (indirect_entry b) in
      elim (Bool-cases (at' == at)) [
        | inl e ↦
            let same : at' ≡ at = ground arith in
            let (e_m, e_k) =
              table-apart c s f ok m (indirect_entry b) n (indirect_entry a) there' there same in
            rw
              (
                same,
                w.entries (b - indirect_start b) (entry_in_range b ge' b_lt),
                entries_differ n a m b ge ge' e_m e_k old,
              )
              refl
        | inr ne ↦
            load_int-same (blocks c t.blocks at') (blocks c s.blocks at') (b - indirect_start b)
              (λ i i_lt.
                w.others at' i i_lt
                  (Taken-apart s at' k (table-Taken c s f ok m (indirect_entry b) there')
                    w.was_free)
                  (ground arith))
              (entry_in_range b ge' b_lt)
      ]

  later-in_place :
      (p : Place) → Live f p → is_new n a p ≡ false → place_block c t p ≡ place_block c s p
  unfolding place_block
  later-in_place (table m j) h old = w.indirects m j
  later-in_place (page m b) h old =
      let (b_lt, there') = ok.behind m b h in
      page_block-kept c s t m b (λ d. w.directs m b) (λ d. w.indirects m (indirect_entry b))
        (λ d. entry_kept m b d b_lt (there' d) old)

  later-Fresh : (p : Place) → is_new n a p ≡ true → Fresh s t (place_block c t p)
  unfolding place_block
  later-Fresh (table m j) new = absurd (ground (arith, later))
  later-Fresh (page m b) new =
      let e : m ≡ n = ground arith in
      let e' : b ≡ a = ground arith in
      record {
        index = k;
        number = rw (e, e') later-block;
        in_range = w.in_range;
        was_free = w.was_free;
        marked = ground (arith, w.bitmap k);
      }

  later-separate : (p q : Place) → is_new n a p ≡ true → is_new n a q ≡ true → p ≡ q
  later-separate (table m j) q new new' = absurd (ground (arith, later))
  later-separate (page m b) (table m' j) new new' = absurd (ground (arith, later))
  later-separate (page m b) (page m' b') new new' =
      let e : m ≡ m' = ground arith in let e' : b ≡ b' = ground arith in λ i. page (e i) (e' i)

  pub later-Adds : Adds c s f n a (padded buff size) t
  later-Adds = record {
    ready = w.ready;
    numbered =
        λ m m_lt u. w.ids m ∙ ok.numbered m m_lt (ap (λ b. used b m) (sym w.inodes_kept) ∙ u);
    fresh = later-Fresh;
    separate = λ p q new new' e. later-separate p q new new';
    still_taken = λ m u. ground (arith, w.bitmap m);
    in_place = λ p h h'. later-in_place p h;
    written = λ i i_lt. ap (λ b. blocks c t.blocks b i) later-block ∙ w.page i i_lt;
    untouched = λ m b h old i i_lt.
        w.others (page_block c s m b) i i_lt
          (Taken-apart s (page_block c s m b) k (page-Taken c s f ok m b h) w.was_free)
          (page-table-apart c s f ok m b n (indirect_entry a) h there);
  }
