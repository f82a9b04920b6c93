-- ===== src/Example/Writing.antt =====
-- `objstore_write` of assignment4/example/objstore.c replaces the bytes of the object.
use operating_systems_assign.Base.{
  ℕ, ◌+◌, ◌*◌, ◌<◌, ◌≤◌, ◌≡◌, ◌≢◌, refl, ap, sym, ◌∙◌, Bool, true, false, some, ltb, ◌==◌, ◌&&◌,
  if◌then◌else◌, arith, inl, inr, Option-cases,
}
use native.Mathlib.Decide.{ℕ_discrete}
use operating_systems_assign.Base.Arrays.{copy_bytes, copy_bytes_lem, update}
use operating_systems_assign.ObjStore.Disk.{
  block_size, write_block-copies, block_offset_cancel, success,
}
use operating_systems_assign.ObjStore.Store.{done}
use operating_systems_assign.Example.{Entry, Objfs}
use operating_systems_assign.Example.Content.{
  cache_ptr, filled_page, put_cached, keep_device, finish_write, find_write_cached, objstore_write,
}
use operating_systems_assign.Example.Bytes.{content, shown, CanServe, SameObjects, in_cache-Loads}

-- What is behind the bytes written: with the cache, what was there; without it, zeros.
abbrev pub behind : Bool → Objfs → ℕ → ℕ → ℕ
behind true s n i = content true s n i
behind false s n i = 0

pub record WritesBytes (c : Bool) (s : Objfs) (n : ℕ) (buf : ℕ → ℕ) (size : ℕ) (t : Objfs)
    : Type 0 where
  pub here :
      (i : ℕ) → i < block_size → content c t n i ≡ (if ltb i size then buf i else behind c s n i)
  pub sized : (t.objs n).size ≡ size
  pub same : SameObjects s t
  pub others :
      (m i : ℕ) → (s.objs m).id ≢ (s.objs n).id → i < block_size → content c t m i ≡ content c s m i

writes :
    (c : Bool) (page n size : ℕ) (buf : ℕ → ℕ) (s : Objfs)
    → CanServe page n s
    → size ≤ block_size
    → objstore_write c page (n + 2) buf size s
      ≡ done (finish_write n size (find_write_cached c page n buf size s))
unfolding objstore_write
writes c page n size buf s ok fits = ground (arith, ok.in_use, ok.in_table)

-- A copy into one block, of no more than a block.
copied_part :
    (size : ℕ) (to from : ℕ → ℕ) (j m i : ℕ)
    → size ≤ block_size
    → i < block_size
    → copy_bytes size to (block_size * j) from (block_size * m + i)
      ≡ (if m == j && ltb i size then from i else to (block_size * m + i))
copied_part size to from j m i fits lt = ground (
  arith,
  copy_bytes_lem size to (block_size * j) from (block_size * m + i),
  ap from (block_offset_cancel j i),
)

at_other : (f : ℕ → Entry) (e : Entry) (m n : ℕ) → (f m).id ≢ (f n).id → update f n e m ≡ f m
at_other f e m n ne = elim (ℕ_discrete m n) [
  | yes same ↦ absurd (ne (ap (λ k. (f k).id) same))
  | no other ↦ ground arith
]

at_same : (f : ℕ → Entry) (e : Entry) (n : ℕ) → update f n e n ≡ e
at_same f e n = ground arith

abbrev plain_after : ℕ → ℕ → (ℕ → ℕ) → ℕ → Objfs → Objfs
plain_after page n buf size s =
    (finish_write n size (
      record s {
        blkdev = record (s.blkdev) {
          content =
              copy_bytes block_size s.blkdev.content (block_size * (s.objs n).id)
                (λ i. (filled_page page buf size).bytes (0 + i));
        };
      },
      success,
    )).0

abbrev cached_after : ℕ → (ℕ → ℕ) → ℕ → Objfs → Objfs
cached_after n buf size t = (finish_write n size (put_cached n buf size (success, t))).0

module _ (n size : ℕ) (buf : ℕ → ℕ) (t : Objfs) (fits : size ≤ block_size) where
  abbrev after : Objfs
  after = cached_after n buf size t

  marked : after.objs n ≡ record (t.objs n) { dirty = 1; size = size }
  marked = ground arith

  untouched : (m : ℕ) → (t.objs m).id ≢ (t.objs n).id → after.objs m ≡ t.objs m
  untouched m ne = elim (ℕ_discrete m n) [
    | yes same ↦ absurd (ne (ap (λ k. (t.objs k).id) same))
    | no other ↦ ground arith
  ]

  after-ids : (m : ℕ) → (after.objs m).id ≡ (t.objs m).id
  after-ids m = ground arith

  after-here :
      (k i : ℕ)
      → (t.objs n).cache_index ≡ some k
      → i < block_size
      → content true after n i
        ≡ (if ltb i size then buf i else t.cache.bytes (cache_ptr (t.objs n) + i))
  after-here k i there lt =
      ap (λ e. shown true after e i) marked
      ∙ rw (there, shown)
          (ground (arith, copied_part size t.cache.bytes buf (t.objs n).id (t.objs n).id i fits lt))

  after-others :
      (m i : ℕ)
      → (t.objs m).id ≢ (t.objs n).id
      → i < block_size
      → content true after m i ≡ content true t m i
  after-others m i ne lt =
      ap (λ e. shown true after e i) (untouched m ne) ∙ elim (Option-cases (t.objs m).cache_index) [
        | inl missing ↦ rw (missing, shown) refl
        | inr (k, e) ↦
            rw (e, shown)
              (ground
                (arith, copied_part size t.cache.bytes buf (t.objs n).id (t.objs m).id i fits lt))
      ]

finds :
    (c : Bool) (page n size : ℕ) (buf : ℕ → ℕ) (s : Objfs)
    → CanServe page n s
    → size ≤ block_size
    → (t : Objfs) × (finish_write n size (find_write_cached c page n buf size s) ≡ (t, some size))
      × WritesBytes c s n buf size t
unfolding find_write_cached
finds false page n size buf s ok fits = (
  plain_after page n buf size s,
  ap (λ r. finish_write n size (keep_device s r))
      (write_block-copies s.blkdev (filled_page page buf size)
        (record { aligned = ok.page_aligned; no_faults = ok.serves.no_faults }) (s.objs n).id 0
        refl),
  record {
    here = λ i lt.
        ap (λ e. shown false (plain_after page n buf size s) e i)
          (at_same s.objs (record (s.objs n) { size = size }) n)
        ∙ ground (
          arith,
          copied_part block_size s.blkdev.content (λ x. (filled_page page buf size).bytes (0 + x))
              (s.objs n).id (s.objs n).id i (omega arith) lt,
          copy_bytes_lem size (λ x. 0) 0 buf (0 + i),
        );
    sized = ap (λ e. e.size) (at_same s.objs (record (s.objs n) { size = size }) n);
    same = record {
      ids = λ m. ground arith;
      serves = record { aligned = ok.serves.aligned; no_faults = ok.serves.no_faults };
    };
    others = λ m i ne lt.
        ap (λ e. shown false (plain_after page n buf size s) e i)
          (at_other s.objs (record (s.objs n) { size = size }) m n ne)
        ∙ ground (
          arith,
          copied_part block_size s.blkdev.content (λ x. (filled_page page buf size).bytes (0 + x))
              (s.objs n).id (s.objs m).id i (omega arith) lt,
        );
  },
)
finds true page n size buf s ok fits =
    let (t, e, l) = in_cache-Loads page n s ok in
    let (k, there) = l.there in
    (
      cached_after n buf size t,
      ap (λ r. finish_write n size (put_cached n buf size r)) e,
      record {
        here = λ i lt.
            after-here n size buf t fits k i there lt
            ∙ ap (λ x. if ltb i size then buf i else x)
                (ap (λ id. t.cache.bytes (block_size * id + i)) (l.same.ids n) ∙ l.cached i lt);
        sized = ap (λ e. e.size) (marked n size buf t fits);
        same = record {
          ids = λ m. after-ids n size buf t fits m ∙ l.same.ids m;
          serves = record { aligned = l.same.serves.aligned; no_faults = l.same.serves.no_faults };
        };
        others = λ m i ne lt.
            after-others n size buf t fits m i
              (λ same. ne (sym (l.same.ids m) ∙ same ∙ l.same.ids n)) lt
            ∙ l.others m i ne lt;
      },
    )

-- A write of up to 4096 bytes to an object in use, in either build, replaces the object's first
-- bytes, sets its size and leaves what the other objects show, when the device serves every request
-- and `mmap` gives pages at block boundaries. Behind the bytes written the build with the cache
-- keeps what was there; the other build fills up with zeros.
pub objstore_write-WritesBytes :
    (c : Bool) (page n size : ℕ) (buf : ℕ → ℕ) (s : Objfs)
    → CanServe page n s
    → size ≤ block_size
    → (t : Objfs) × (objstore_write c page (n + 2) buf size s ≡ done (t, some size))
      × WritesBytes c s n buf size t
objstore_write-WritesBytes c page n size buf s ok fits =
    let (t, e, w) = finds c page n size buf s ok fits in
    (t, writes c page n size buf s ok fits ∙ ap done e, w)
