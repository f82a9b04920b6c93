-- ===== src/Example/Bytes.antt =====
-- What `objstore_read` and `objstore_write` of assignment4/example/objstore.c do to the bytes of
-- the objects.
use operating_systems_assign.Base.{
  ℕ, ◌+◌, ◌*◌, ◌%◌, ◌<◌, ◌≡◌, ◌≢◌, refl, ap, ◌∙◌, Bool, true, false, none, some, inl, inr,
  Option-cases, arith,
}
use native.Mathlib.Decide.{ℕ_discrete}
use operating_systems_assign.Base.Arrays.{copy_bytes}
use operating_systems_assign.ObjStore.Disk.{
  block_size, Serves, read_block-copies, success, copy_bytes_block,
}
use operating_systems_assign.Example.{Entry, Objfs, max_objs, set_entry_at}
use operating_systems_assign.Example.Content.{cache_ptr, keep_block, load_object, in_cache}

-- The bytes of an object, in the cache if it is there.
abbrev pub shown : Bool → Objfs → Entry → ℕ → ℕ
shown false s e i = s.blkdev.content (block_size * e.id + i)
shown true s e i = elim e.cache_index [
  | none ↦ s.blkdev.content (block_size * e.id + i)
  | some k ↦ s.cache.bytes (block_size * e.id + i)
]

abbrev pub content : Bool → Objfs → ℕ → ℕ → ℕ
content c s n i = shown c s (s.objs n) i

-- The store can serve calls for object `n`, which is in use, with pages from `mmap` at `page`.
pub record CanServe (page n : ℕ) (s : Objfs) : Type 0 where
  pub in_table : n < max_objs
  pub in_use : (s.objs n).id ≡ n + 2
  pub serves : Serves s.blkdev s.cache
  pub page_aligned : page % block_size ≡ 0

-- Nothing but the buffers, the cache's indices and the bytes of one object differ.
pub record SameObjects (s t : Objfs) : Type 0 where
  pub ids : (m : ℕ) → (t.objs m).id ≡ (s.objs m).id
  pub serves : Serves t.blkdev t.cache

-- A load brings the object's block into the cache and shows the same bytes of every object.
pub record Loads (s : Objfs) (n : ℕ) (t : Objfs) : Type 0 where
  pub cached :
      (i : ℕ) → i < block_size → t.cache.bytes (cache_ptr (s.objs n) + i) ≡ content true s n i
  pub there : (k : ℕ) × ((t.objs n).cache_index ≡ some k)
  pub same : SameObjects s t
  pub others :
      (m i : ℕ)
      → (s.objs m).id ≢ (s.objs n).id
      → i < block_size
      → content true t m i ≡ content true s m i

abbrev loaded : ℕ → Objfs → Objfs
loaded n s =
    let e = s.objs n in
    set_entry_at n (record e { cache_index = some e.id })
      (record s {
        cache = record (s.cache) {
          bytes =
              copy_bytes block_size s.cache.bytes (cache_ptr e)
                (λ i. s.blkdev.content (block_size * e.id + i));
        };
      })

load_object-loaded :
    (page n : ℕ) (s : Objfs) → CanServe page n s → load_object n s ≡ (success, loaded n s)
load_object-loaded page n s ok = ap (keep_block n s) (
    read_block-copies s.blkdev s.cache ok.serves (s.objs n).id (cache_ptr (s.objs n)) (omega arith))

at_other : (s : Objfs) (m n : ℕ) → (s.objs m).id ≢ (s.objs n).id → (loaded n s).objs m ≡ s.objs m
at_other s m n ne = elim (ℕ_discrete m n) [
  | yes same ↦ absurd (ne (ap (λ k. (s.objs k).id) same))
  | no other ↦ ground arith
]

loaded-others :
    (s : Objfs) (m n i : ℕ)
    → (s.objs m).id ≢ (s.objs n).id
    → i < block_size
    → content true (loaded n s) m i ≡ content true s m i
loaded-others s m n i ne lt =
    ap (λ e. shown true (loaded n s) e i) (at_other s m n ne)
    ∙ elim (Option-cases (s.objs m).cache_index) [
      | inl missing ↦ rw (missing, shown) refl
      | inr (k, e) ↦
          rw (e, shown)
            (ground (
              arith,
              copy_bytes_block s.cache.bytes
                  (λ j. s.blkdev.content (block_size * (s.objs n).id + j)) (s.objs n).id
                  (s.objs m).id i lt,
            ))
    ]

loaded-ids : (s : Objfs) (m n : ℕ) → ((loaded n s).objs m).id ≡ (s.objs m).id
loaded-ids s m n = ground arith

pub in_cache-Loads :
    (page n : ℕ) (s : Objfs)
    → CanServe page n s
    → (t : Objfs) × (in_cache n s ≡ (success, t)) × Loads s n t
unfolding in_cache
in_cache-Loads page n s ok = elim (Option-cases (s.objs n).cache_index) [
  | inl missing ↦ (
    loaded n s,
    rw (missing, in_cache) (load_object-loaded page n s ok),
    record {
      cached = λ i lt.
          rw (missing, shown)
            (ground (
              arith,
              copy_bytes_block s.cache.bytes
                  (λ i. s.blkdev.content (block_size * (s.objs n).id + i)) (s.objs n).id
                  (s.objs n).id i lt,
            ));
      there = ((s.objs n).id, ground arith);
      same = record {
        ids = λ m. loaded-ids s m n;
        serves = record { aligned = ok.serves.aligned; no_faults = ok.serves.no_faults };
      };
      others = λ m i. loaded-others s m n i;
    },
  )
  | inr (k, e) ↦ (
    s,
    rw (e, in_cache) refl,
    record {
      cached = λ i lt. rw (e, shown) refl;
      there = (k, e);
      same = record { ids = λ m. refl; serves = ok.serves };
      others = λ m i ne lt. refl;
    },
  )
]
