-- ===== src/ObjStore/Data/Writing/First.antt =====
-- The files that a store of assignment4/objstore.c holds after a write to the first page
-- of an indirect block.
use operating_systems_assign.Base.{
  ℕ, ◌+◌, ◌-◌, ◌≤◌, ◌≡◌, ◌≢◌, sym, ap, ◌∙◌, ◌⊎◌, Bool, true, false, ltb, inl, inr, arith,
}
use operating_systems_assign.ObjStore.Cache.Transparent.{blocks}
use operating_systems_assign.ObjStore.Bitmap.{used}
use operating_systems_assign.ObjStore.Store.{Store, data_block_offset}
use operating_systems_assign.ObjStore.Data.{indirect_entry, indirect_start}
use operating_systems_assign.ObjStore.Data.Direct.{padded}
use operating_systems_assign.ObjStore.Data.Opening.{WritesFirst}
use operating_systems_assign.ObjStore.Data.Layout.{
  Place, page, table, page_block, place_block, Files, Live, Represents, load_int-same,
  entry_in_range, page_block-kept, Taken-apart, page-Taken, table-Taken,
}
use operating_systems_assign.ObjStore.Data.Writing.{differ}
use operating_systems_assign.ObjStore.Data.Files.{put, is_new, Fresh, Adds}

module _ (c : Bool) (s t : Store) (f : Files) (n a : ℕ) (buff : ℕ → ℕ) (size j k : ℕ)
    (ok : Represents c s f) (ge : 4 ≤ a) (opens : a ≡ indirect_start a)
    (w : WritesFirst c s n a buff size j k t) where
  first-block : page_block c t n a ≡ data_block_offset + k
  unfolding page_block
  first-block =
      let direct : ltb a 4 ≡ false = ground arith in
      let at : a - indirect_start a ≡ 0 = omega (arith, opens) in
      rw (direct, at, w.opened) (w.entries 0 (omega arith))

  -- A page that is still there is not behind the new indirect block.
  elsewhere :
      (m b : ℕ)
      → 4 ≤ b
      → Live (put f n a (padded buff size)) (page m b)
      → is_new n a (page m b) ≡ false
      → (m ≢ n) ⊎ (indirect_entry b ≢ indirect_entry a)
  elsewhere m b ge' h old =
      differ m n (indirect_entry b) (indirect_entry a) (ground (arith, ge, opens))

  first-in_place :
      (p : Place)
      → Live f p
      → Live (put f n a (padded buff size)) p
      → is_new n a p ≡ false
      → place_block c t p ≡ place_block c s p
  unfolding place_block
  first-in_place (table m i) h h' old =
      w.indirects m i (differ m n i (indirect_entry a) (ground (arith, ge, opens)))
  first-in_place (page m b) h h' old =
      let (b_lt, there) = ok.behind m b h in
      let at = (s.objects m).indirect (indirect_entry b) in
      page_block-kept c s t m b (λ d. w.directs m b)
        (λ d. w.indirects m (indirect_entry b) (elsewhere m b d h' old))
        (λ d.
          let taken = table-Taken c s f ok m (indirect_entry b) (there d) in
          load_int-same (blocks c t.blocks at) (blocks c s.blocks at) (b - indirect_start b)
            (λ i i_lt.
              w.others at i i_lt (Taken-apart s at j taken w.was_free.0)
                (Taken-apart s at k taken w.was_free.1))
            (entry_in_range b d b_lt))

  new_page : (p : Place) → is_new n a p ≡ true → (p ≡ page n a) ⊎ (p ≡ table n (indirect_entry a))
  new_page (page m b) new =
      let e : m ≡ n = ground arith in let e' : b ≡ a = ground arith in inl (λ i. page (e i) (e' i))
  new_page (table m b) new =
      let e : m ≡ n = ground arith in
      let e' : b ≡ indirect_entry a = ground arith in inr (λ i. table (e i) (e' i))

  page_number-new : place_block c t (page n a) ≡ data_block_offset + k
  unfolding place_block
  page_number-new = first-block

  table_number-new : place_block c t (table n (indirect_entry a)) ≡ data_block_offset + j
  unfolding place_block
  table_number-new = w.opened

  first-Fresh : (p : Place) → is_new n a p ≡ true → Fresh s t (place_block c t p)
  first-Fresh p new = elim (new_page p new) [
    | inl e ↦ record {
      index = k;
      number = ap (place_block c t) e ∙ page_number-new;
      in_range = w.in_range.1;
      was_free = w.was_free.1;
      marked = ground (arith, w.bitmap k);
    }
    | inr e ↦ record {
      index = j;
      number = ap (place_block c t) e ∙ table_number-new;
      in_range = w.in_range.0;
      was_free = w.was_free.0;
      marked = ground (arith, w.bitmap j);
    }
  ]

  page_is_not_table : place_block c t (page n a) ≢ place_block c t (table n (indirect_entry a))
  page_is_not_table e = w.apart (omega (arith, e, page_number-new, table_number-new))

  first-separate :
      (p q : Place)
      → is_new n a p ≡ true
      → is_new n a q ≡ true
      → place_block c t p ≡ place_block c t q
      → p ≡ q
  first-separate p q new new' e = elim (new_page p new) [
    | inl is_page ↦ elim (new_page q new') [
      | inl is_page' ↦ is_page ∙ sym is_page'
      | inr is_table ↦ absurd (page_is_not_table (cc))
    ]
    | inr is_table ↦ elim (new_page q new') [
      | inl is_page ↦ absurd (page_is_not_table (cc))
      | inr is_table' ↦ is_table ∙ sym is_table'
    ]
  ]

  pub first-Adds : Adds c s f n a (padded buff size) t
  first-Adds = record {
    ready = w.ready;
    numbered =
        λ m m_lt u. w.ids m ∙ ok.numbered m m_lt (ap (λ b. used b m) (sym w.inodes_kept) ∙ u);
    fresh = first-Fresh;
    separate = first-separate;
    still_taken = λ m u. ground (arith, w.bitmap m);
    in_place = first-in_place;
    written = λ i i_lt. ap (λ b. blocks c t.blocks b i) first-block ∙ w.page i i_lt;
    untouched = λ m b h old i i_lt.
        let taken = page-Taken c s f ok m b h in
        w.others (page_block c s m b) i i_lt
          (Taken-apart s (page_block c s m b) j taken w.was_free.0)
          (Taken-apart s (page_block c s m b) k taken w.was_free.1);
  }
