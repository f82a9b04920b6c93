-- ===== src/Example/Reading.antt =====
-- `objstore_read` of assignment4/example/objstore.c gives the bytes of the object.
use operating_systems_assign.Base.{
  ℕ, ◌+◌, ◌*◌, ◌<◌, ◌≤◌, ◌≡◌, ◌≢◌, refl, ap, ◌∙◌, Bool, true, false, some, ltb, if◌then◌else◌,
  arith, inl, inr, Bool-cases, ltb→lt,
}
use operating_systems_assign.Base.Arrays.{copy_bytes, copy_bytes_lem}
use operating_systems_assign.ObjStore.Disk.{block_size, read_block-copies}
use operating_systems_assign.ObjStore.Store.{done}
use operating_systems_assign.Example.{Objfs}
use operating_systems_assign.Example.Content.{
  cache_ptr, zero_page, take_cached, take_page, find_read_cached, objstore_read,
}
use operating_systems_assign.Example.Bytes.{content, shown, CanServe, SameObjects, in_cache-Loads}

-- The buffer has the object's bytes, and every object shows the bytes that it had.
pub record ReadsBytes (c : Bool) (s : Objfs) (n : ℕ) (user : ℕ → ℕ) (size : ℕ) (t : Objfs)
    (got : ℕ → ℕ) : Type 0 where
  pub bytes : (i : ℕ) → got i ≡ (if ltb i size then content c s n i else user i)
  pub same : SameObjects s t
  pub here : (i : ℕ) → i < block_size → content c t n i ≡ content c s n i
  pub others :
      (m i : ℕ) → (s.objs m).id ≢ (s.objs n).id → i < block_size → content c t m i ≡ content c s m i

found_bytes :
    (size i : ℕ) (user from to : ℕ → ℕ)
    → ((j : ℕ) → j < size → from j ≡ to j)
    → copy_bytes size user 0 from i ≡ (if ltb i size then to i else user i)
found_bytes size i user from to same =
    copy_bytes_lem size user 0 from i ∙ elim (Bool-cases (ltb i size)) [
      | inl below ↦ ground (arith, same i (ltb→lt i size below))
      | inr above ↦ ground arith
    ]

module _ (c : Bool) (page n size : ℕ) (user : ℕ → ℕ) (s : Objfs) (ok : CanServe page n s)
    (fits : size ≤ block_size) where
  reads : objstore_read c page (n + 2) user size s ≡ find_read_cached c page n user size s
  unfolding objstore_read
  reads = ground (arith, ok.in_use, ok.in_table)

finds :
    (c : Bool) (page n size : ℕ) (user : ℕ → ℕ) (s : Objfs)
    → CanServe page n s
    → size ≤ block_size
    → (t : Objfs) × (got : ℕ → ℕ) × (find_read_cached c page n user size s ≡ done (t, some got))
      × ReadsBytes c s n user size t got
unfolding find_read_cached
finds false page n size user s ok fits =
    let from : ℕ → ℕ = λ i. s.blkdev.content (block_size * (s.objs n).id + i) in
    let page_bytes : ℕ → ℕ = copy_bytes block_size (λ i. 0) 0 from in
    (
      s,
      copy_bytes size user 0 page_bytes,
      ap (take_page size user s) (
            read_block-copies s.blkdev (zero_page page)
              (record { aligned = ok.page_aligned; no_faults = ok.serves.no_faults }) (s.objs n).id
              0 refl)
          ∙ ground arith,
      record {
        bytes = λ i.
            found_bytes size i user page_bytes from
              (λ j lt. copy_bytes_lem block_size (λ x. 0) 0 from j ∙ ground arith);
        same = record { ids = λ m. refl; serves = ok.serves };
        here = λ i lt. refl;
        others = λ m i ne lt. refl;
      },
    )
finds true page n size user s ok fits =
    let (t, e, l) = in_cache-Loads page n s ok in
    let (k, there) = l.there in
    (
      t,
      copy_bytes size user 0 (λ i. t.cache.bytes (cache_ptr (s.objs n) + i)),
      ap (take_cached (s.objs n) size user) e ∙ ground (arith, ok.in_use, ok.in_table),
      record {
        bytes = λ i. found_bytes size i user _ _ (λ j lt. l.cached j (omega arith));
        same = l.same;
        here = λ i lt.
            rw (there, shown)
              (ap (λ id. t.cache.bytes (block_size * id + i)) (l.same.ids n) ∙ l.cached i lt);
        others = l.others;
      },
    )

-- A read of up to 4096 bytes of an object in use, in either build, gives the object's first bytes
-- and leaves what every object shows, when the device serves every request and `mmap` gives pages
-- at block boundaries.
pub objstore_read-ReadsBytes :
    (c : Bool) (page n size : ℕ) (user : ℕ → ℕ) (s : Objfs)
    → CanServe page n s
    → size ≤ block_size
    → (t : Objfs) × (got : ℕ → ℕ) × (objstore_read c page (n + 2) user size s ≡ done (t, some got))
      × ReadsBytes c s n user size t got
objstore_read-ReadsBytes c page n size user s ok fits =
    let (t, got, e, r) = finds c page n size user s ok fits in
    (t, got, reads c page n size user s ok fits ∙ e, r)
