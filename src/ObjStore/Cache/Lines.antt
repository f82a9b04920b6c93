-- ===== src/ObjStore/Cache/Lines.antt =====
-- Each way in which the cache changes a line keeps the store coherent.
use operating_systems_assign.Base.{
  ℕ, ◌+◌, ◌*◌, ◌/◌, ◌%◌, ◌<◌, ◌≡◌, refl, ◌≢◌, Option, none, some, ◌==◌, if◌then◌else◌, inl, inr,
  ◌∙◌, Bool-cases, arith,
}
use operating_systems_assign.ObjStore.Disk.{block_size, Area, copy_bytes_block}
use operating_systems_assign.ObjStore.Cache.{
  BlockStore, cache_blks, fetch, write_back, load_line, save_line, copy_in,
}
use operating_systems_assign.ObjStore.Cache.View.{
  view, SameView, IsClean, IsCoherent, fetch_lem, write_back_lem, view-fetch, view-write_back,
}

fetch-index :
    (s : BlockStore) (blk : ℕ)
    → (fetch s blk).cache_index (blk % cache_blks) ≡ some (blk / cache_blks)
unfolding fetch
fetch-index s blk = ground arith

-- What a step that brings block `blk` into its line of the store `s` promises.
pub record Loaded (s : BlockStore) (blk : ℕ) (t : BlockStore) : Type 0 where
  pub coherent : IsCoherent t
  pub same : SameView t s
  pub holds_it : t.cache_index (blk % cache_blks) ≡ some (blk / cache_blks)

module _ (s : BlockStore) (ok : IsCoherent s) where
  fetch-IsCoherent : (blk : ℕ) → IsCoherent (fetch s blk)
  fetch-IsCoherent blk = rw (fetch_lem s ok.serves blk) (record {
    serves = record { aligned = ok.serves.aligned; no_faults = ok.serves.no_faults };
    unused = λ j e. ground (arith, ok.unused j);
    clean = λ j lt d k i e h. ground (
      arith,
      ok.clean j lt d k i,
      copy_bytes_block s.cache.bytes (λ a. s.disk.content (block_size * blk + a)) (blk % cache_blks)
          j i,
    );
  })

  pub write_back-IsCoherent :
      (j k : ℕ) → j < cache_blks → s.cache_index j ≡ some k → IsCoherent (write_back s j k)
  write_back-IsCoherent j k lt at = rw (write_back_lem s ok.serves j k) (record {
    serves = record { aligned = ok.serves.aligned; no_faults = ok.serves.no_faults };
    unused = ok.unused;
    clean = λ m l d q i e h. ground (
      arith,
      ok.clean m l d q i e h,
      copy_bytes_block s.disk.content (λ a. s.cache.bytes (block_size * j + a)) (cache_blks * k + j)
          (cache_blks * q + m) i,
    );
  })

  write_back-IsClean : (j k : ℕ) → s.cache_index j ≡ some k → IsClean (write_back s j k) j
  write_back-IsClean j k at = rw (write_back_lem s ok.serves j k) (λ q i e h. ground (
    arith,
    copy_bytes_block s.disk.content (λ a. s.cache.bytes (block_size * j + a)) (cache_blks * k + j)
        (cache_blks * q + j) i,
  ))

module _ (s : BlockStore) (ok : IsCoherent s) where
  -- After a write-back, replacing the line keeps the store as a client sees it.
  fetch_after :
      (blk k : ℕ)
      → s.cache_index (blk % cache_blks) ≡ some k
      → Loaded s blk (fetch (write_back s (blk % cache_blks) k) blk)
  fetch_after blk k e =
      let j = blk % cache_blks in
      let kept = write_back-IsCoherent s ok j k (omega arith) e in
      record {
        coherent = fetch-IsCoherent (write_back s j k) kept blk;
        same = λ b i h.
            view-fetch (write_back s j k) kept.serves blk (write_back-IsClean s ok j k e) b i h
            ∙ view-write_back s ok.serves j k (omega arith) e b i h;
        holds_it = fetch-index (write_back s j k) blk;
      }

  fetch_over : (blk : ℕ) → s.cache_dirty (blk % cache_blks) ≢ 1 → Loaded s blk (fetch s blk)
  fetch_over blk d = record {
    coherent = fetch-IsCoherent s ok blk;
    same = view-fetch s ok.serves blk (ok.clean (blk % cache_blks) (omega arith) d);
    holds_it = fetch-index s blk;
  }

  -- The line of a block that is read holds it afterwards, and nothing else has changed.
  pub load_line_lem :
      (blk : ℕ) (o : Option ℕ)
      → s.cache_index (blk % cache_blks) ≡ o
      → Loaded s blk (load_line s blk o)
  unfolding load_line
  load_line_lem blk none e = fetch_over blk (ok.unused (blk % cache_blks) e)
  load_line_lem blk (some k) e = elim (Bool-cases (k == blk / cache_blks)) [
    | inl same ↦ rw same (record { coherent = ok; same = λ b i h. refl; holds_it = ground arith })
    | inr other ↦ elim (Bool-cases (s.cache_dirty (blk % cache_blks) == 1)) [
      | inl dirty ↦ rw (other, dirty) (fetch_after blk k e)
      | inr clean ↦ rw (other, clean) (fetch_over blk (ground arith))
    ]
  ]

-- The old block of the line of `blk`, if it is another one, is on the disk.
pub record Saved (s : BlockStore) (blk : ℕ) (t : BlockStore) : Type 0 where
  pub coherent : IsCoherent t
  pub same : SameView t s
  pub spare :
      (k i : ℕ)
      → t.cache_index (blk % cache_blks) ≡ some k
      → k ≢ blk / cache_blks
      → i < block_size
      → t.cache.bytes (block_size * (blk % cache_blks) + i)
        ≡ t.disk.content (block_size * (cache_blks * k + blk % cache_blks) + i)

module _ (s : BlockStore) (ok : IsCoherent s) where
  pub save_line_lem :
      (blk : ℕ) (o : Option ℕ)
      → s.cache_index (blk % cache_blks) ≡ o
      → Saved s blk (save_line s blk o)
  unfolding save_line
  save_line_lem blk none e = record {
    coherent = ok;
    same = λ b i h. refl;
    spare = λ k i f ne h. cc;
  }
  save_line_lem blk (some k) e = elim (Bool-cases (k == blk / cache_blks)) [
    | inl same ↦
        rw same (record { coherent = ok; same = λ b i h. refl; spare = λ q i f ne h. ground arith })
    | inr other ↦ elim (Bool-cases (s.cache_dirty (blk % cache_blks) == 1)) [
      | inl dirty ↦
          rw (other, dirty)
            (record {
              coherent = write_back-IsCoherent s ok (blk % cache_blks) k (omega arith) e;
              same = view-write_back s ok.serves (blk % cache_blks) k (omega arith) e;
              spare = λ q i f ne. write_back-IsClean s ok (blk % cache_blks) k e q i f;
            })
      | inr clean ↦
          rw (other, clean)
            (record {
              coherent = ok;
              same = λ b i h. refl;
              spare = λ q i f ne. ok.clean (blk % cache_blks) (omega arith) (ground arith) q i f;
            })
    ]
  ]

  -- The copy into the line changes the view at `blk` alone.
  pub view-copy_in :
      (blk : ℕ) (temp : Area) (off : ℕ)
      → Saved s blk s
      → (b i : ℕ) → i < block_size
      → view (copy_in s blk temp off) b i ≡ (if b == blk then temp.bytes (off + i) else view s b i)
  unfolding view copy_in
  view-copy_in blk temp off saved b i h = ground (
    arith,
    saved.spare (b / cache_blks) i,
    copy_bytes_block s.cache.bytes (λ a. temp.bytes (off + a)) (blk % cache_blks) (b % cache_blks)
        i,
  )

  pub copy_in-IsCoherent : (blk : ℕ) (temp : Area) (off : ℕ) → IsCoherent (copy_in s blk temp off)
  unfolding copy_in
  copy_in-IsCoherent blk temp off = record {
    serves = record { aligned = ok.serves.aligned; no_faults = ok.serves.no_faults };
    unused = λ j e. ground (arith, ok.unused j);
    clean = λ j lt d k i e h. ground (
      arith,
      λ (n : s.cache_dirty j ≢ 1). ok.clean j lt n k i,
      copy_bytes_block s.cache.bytes (λ a. temp.bytes (off + a)) (blk % cache_blks) j i,
    );
  }
