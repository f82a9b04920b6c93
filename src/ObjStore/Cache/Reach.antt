-- ===== src/ObjStore/Cache/Reach.antt =====
-- Calls of `cache_blk_read` and `cache_blk_write` of assignment4/objstore.c for data blocks leave
-- the blocks of the bitmaps and of the table alone.
use operating_systems_assign.Base.{
  ℕ, ◌+◌, ◌*◌, ◌/◌, ◌%◌, ◌<◌, ◌≤◌, ◌≡◌, refl, ◌∙◌, Bool, true, false, Option, none, some, ◌==◌, inl,
  inr, Bool-cases, arith,
}
use operating_systems_assign.ObjStore.Disk.{
  block_size, Area, Serves, write_block-copies, copy_bytes_block,
}
use operating_systems_assign.ObjStore.Cache.{
  BlockStore, cache_blks, fetch, write_back, load_line, save_line, copy_in, cached_read,
  cached_write, plain_read, plain_write, cache_blk_read, cache_blk_write,
}
use operating_systems_assign.ObjStore.Cache.View.{IsCoherent, fetch_lem, write_back_lem}
use operating_systems_assign.ObjStore.Cache.Lines.{write_back-IsCoherent}
use operating_systems_assign.ObjStore.Cache.Transparent.{IsReady, IsAligned}

module _ (first : ℕ) where
  -- Every line in use holds a block from `first` on.
  abbrev pub HoldsFrom : BlockStore → Type 0
  HoldsFrom s = (j k : ℕ) → j < cache_blks → s.cache_index j ≡ some k → first ≤ cache_blks * k + j

  -- The lines still do, and the blocks before `first` are on the disk as they were.
  pub record Reaches (s t : BlockStore) : Type 0 where
    pub holds_from : HoldsFrom t
    pub before :
        (b i : ℕ)
        → b < first
        → i < block_size
        → t.disk.content (block_size * b + i) ≡ s.disk.content (block_size * b + i)

  pub Reaches-refl : (s : BlockStore) → HoldsFrom s → Reaches s s
  Reaches-refl s h = record { holds_from = h; before = λ b i lt i_lt. refl }

  pub Reaches-trans : (s t u : BlockStore) → Reaches s t → Reaches t u → Reaches s u
  Reaches-trans s t u r r' = record {
    holds_from = r'.holds_from;
    before = λ b i lt i_lt. r'.before b i lt i_lt ∙ r.before b i lt i_lt;
  }

  module _ (s : BlockStore) (ok : Serves s.disk s.cache) (from : HoldsFrom s) where
    fetch-Reaches : (blk : ℕ) → first ≤ blk → Reaches s (fetch s blk)
    fetch-Reaches blk ge = rw (fetch_lem s ok blk) (record {
      holds_from = λ j k lt e. ground (arith, from j k lt);
      before = λ b i lt i_lt. refl;
    })

    write_back-Reaches :
        (j k : ℕ) → j < cache_blks → s.cache_index j ≡ some k → Reaches s (write_back s j k)
    write_back-Reaches j k lt e = rw (write_back_lem s ok j k) (record {
      holds_from = from;
      before = λ b i b_lt i_lt. ground (
        arith,
        from j k lt e,
        copy_bytes_block s.disk.content (λ a. s.cache.bytes (block_size * j + a))
            (cache_blks * k + j) b i i_lt,
      );
    })

  module _ (s : BlockStore) (ok : IsCoherent s) (from : HoldsFrom s) (blk : ℕ)
      (ge : first ≤ blk) where
    fetch_after-Reaches :
        (k : ℕ)
        → s.cache_index (blk % cache_blks) ≡ some k
        → Reaches s (fetch (write_back s (blk % cache_blks) k) blk)
    fetch_after-Reaches k e =
        let t = write_back s (blk % cache_blks) k in
        let r = write_back-Reaches s ok.serves from (blk % cache_blks) k (omega arith) e in
        let kept = write_back-IsCoherent s ok (blk % cache_blks) k (omega arith) e in
        Reaches-trans s t (fetch t blk) r (fetch-Reaches t kept.serves r.holds_from blk ge)

    load_line-Reaches :
        (o : Option ℕ) → s.cache_index (blk % cache_blks) ≡ o → Reaches s (load_line s blk o)
    unfolding load_line
    load_line-Reaches none e = fetch-Reaches s ok.serves from blk ge
    load_line-Reaches (some k) e = elim (Bool-cases (k == blk / cache_blks)) [
      | inl same ↦ rw same (Reaches-refl s from)
      | inr other ↦ elim (Bool-cases (s.cache_dirty (blk % cache_blks) == 1)) [
        | inl dirty ↦ rw (other, dirty) (fetch_after-Reaches k e)
        | inr clean ↦ rw (other, clean) (fetch-Reaches s ok.serves from blk ge)
      ]
    ]

    save_line-Reaches :
        (o : Option ℕ) → s.cache_index (blk % cache_blks) ≡ o → Reaches s (save_line s blk o)
    unfolding save_line
    save_line-Reaches none e = Reaches-refl s from
    save_line-Reaches (some k) e = elim (Bool-cases (k == blk / cache_blks)) [
      | inl same ↦ rw same (Reaches-refl s from)
      | inr other ↦ elim (Bool-cases (s.cache_dirty (blk % cache_blks) == 1)) [
        | inl dirty ↦
            rw (other, dirty)
              (write_back-Reaches s ok.serves from (blk % cache_blks) k (omega arith) e)
        | inr clean ↦ rw (other, clean) (Reaches-refl s from)
      ]
    ]

  copy_in-Reaches :
      (s : BlockStore) (blk : ℕ) (temp : Area) (off : ℕ)
      → HoldsFrom s
      → first ≤ blk
      → Reaches s (copy_in s blk temp off)
  unfolding copy_in
  copy_in-Reaches s blk temp off from ge = record {
    holds_from = λ j k lt e. ground (arith, from j k lt);
    before = λ b i lt i_lt. refl;
  }

  module _ (s : BlockStore) (blk : ℕ) (temp : Area) (off : ℕ) (from : HoldsFrom s)
      (ge : first ≤ blk) where
    pub cache_blk_read-Reaches :
        (c : Bool) → IsReady c s → Reaches s (cache_blk_read c s blk temp off).0
    unfolding cache_blk_read cached_read plain_read
    cache_blk_read-Reaches true ok =
        load_line-Reaches s ok from blk ge (s.cache_index (blk % cache_blks)) refl
    cache_blk_read-Reaches false ok = Reaches-refl s from

    cached_write-Reaches : IsCoherent s → Reaches s (cached_write s blk temp off)
    unfolding cached_write
    cached_write-Reaches ok =
        let o = s.cache_index (blk % cache_blks) in
        let r = save_line-Reaches s ok from blk ge o refl in
        Reaches-trans s (save_line s blk o) (copy_in (save_line s blk o) blk temp off) r
          (copy_in-Reaches (save_line s blk o) blk temp off r.holds_from ge)

    plain_write-Reaches :
        Serves s.disk s.cache → IsAligned temp off → Reaches s (plain_write s blk temp off)
    unfolding plain_write
    plain_write-Reaches ok at =
        rw
          (write_block-copies s.disk temp (record { aligned = at.base; no_faults = ok.no_faults })
            blk off at.offset)
          (record {
            holds_from = from;
            before = λ b i lt i_lt.
                ground
                  (arith, copy_bytes_block s.disk.content (λ a. temp.bytes (off + a)) blk b i i_lt);
          })

    -- A call for a block from `first` on, in either build.
    pub cache_blk_write-Reaches :
        (c : Bool) → IsReady c s → IsAligned temp off → Reaches s (cache_blk_write c s blk temp off)
    unfolding cache_blk_write
    cache_blk_write-Reaches true ok at = cached_write-Reaches ok
    cache_blk_write-Reaches false ok at = plain_write-Reaches ok at
