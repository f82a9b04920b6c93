-- ===== src/Example/Synced.antt =====
-- The loop of `objstore_destroy` of assignment4/example/objstore.c brings every object's bytes to
-- the disk.
use operating_systems_assign.Base.{
  ℕ, zero, suc, ◌+◌, ◌*◌, ◌<◌, ◌≤◌, ◌≡◌, ◌≢◌, ap, sym, ◌∙◌, Bool, true, false, if◌then◌else◌, arith,
  inl, inr, Bool-cases, ◌==◌,
}
use mathlib.Core.Path.{subst}
use native.Mathlib.Decide.{ℕ_discrete}
use operating_systems_assign.Base.Arrays.{copy_bytes}
use operating_systems_assign.ObjStore.Disk.{
  block_size, Serves, write_block-copies, copy_bytes_block,
}
use operating_systems_assign.Example.{Objfs, max_objs, unused, set_entry_at}
use operating_systems_assign.Example.Content.{cache_ptr, keep_device, finish_sync, obj_sync}
use operating_systems_assign.Example.Bytes.{content}
use operating_systems_assign.Example.Mount.{sync_entry, sync_entries}

-- The bytes of block `b` on the disk.
abbrev pub on_disk : Objfs → ℕ → ℕ → ℕ
on_disk s b i = s.blkdev.content (block_size * b + i)

-- The build with the cache: an object in use has the id of its place; one that is dirty is in the
-- cache, and one that is not shows what the disk has.
pub record IsCoherent (s : Objfs) : Type 0 where
  pub numbered : (m : ℕ) → m < max_objs → unused (s.objs m) ≡ false → (s.objs m).id ≡ m + 2
  pub clean :
      (m i : ℕ)
      → m < max_objs
      → i < block_size
      → unused (s.objs m) ≡ false
      → (s.objs m).dirty ≡ 0
      → content true s m i ≡ on_disk s (m + 2) i
  pub held :
      (m i : ℕ)
      → m < max_objs
      → i < block_size
      → unused (s.objs m) ≡ false
      → (s.objs m).dirty ≢ 0
      → content true s m i ≡ s.cache.bytes (block_size * (m + 2) + i)

-- Entries before `ctr` are on the disk, those from it on are as they were.
pub record SyncedTo (s : Objfs) (ctr : ℕ) (t : Objfs) : Type 0 where
  pub ids : (m : ℕ) → (t.objs m).id ≡ (s.objs m).id
  pub sizes : (m : ℕ) → (t.objs m).size ≡ (s.objs m).size
  pub keys : (m : ℕ) → (t.objs m).key ≡ (s.objs m).key
  pub serves : Serves t.blkdev t.cache
  pub cache : t.cache ≡ s.cache
  pub before :
      (m i : ℕ)
      → m < ctr
      → m < max_objs
      → i < block_size
      → unused (s.objs m) ≡ false
      → on_disk t (m + 2) i ≡ content true s m i
  pub later : (m : ℕ) → ctr ≤ m → t.objs m ≡ s.objs m
  pub later_disk : (m i : ℕ) → ctr ≤ m → i < block_size → on_disk t (m + 2) i ≡ on_disk s (m + 2) i

abbrev synced : ℕ → Objfs → Objfs
synced n t =
    set_entry_at n (record (t.objs n) { dirty = 0 })
      (record t {
        blkdev = record (t.blkdev) {
          content =
              copy_bytes block_size t.blkdev.content (block_size * (t.objs n).id)
                (λ i. t.cache.bytes (cache_ptr (t.objs n) + i));
        };
      })

obj_sync-synced :
    (n : ℕ) (t : Objfs)
    → Serves t.blkdev t.cache
    → ((t.objs n).dirty == 0) ≡ false
    → (obj_sync true n t).0 ≡ synced n t
unfolding obj_sync
obj_sync-synced n t ok dirty =
    rw (dirty, obj_sync)
      (ap (λ r. (finish_sync n (keep_device t r)).0)
        (write_block-copies t.blkdev t.cache ok (t.objs n).id (cache_ptr (t.objs n)) (omega arith)))

clash : {b : Bool} → b ≡ true → b ≡ false → ⊥
clash p q = cc

-- A round that changes nothing.
passed :
    (s t : Objfs) (ctr : ℕ)
    → SyncedTo s ctr t
    → ((i : ℕ)
        → i < block_size
        → unused (s.objs ctr) ≡ false
        → on_disk t (ctr + 2) i ≡ content true s ctr i)
    → SyncedTo s (suc ctr) t
passed s t ctr so_far here = record {
  ids = so_far.ids;
  sizes = so_far.sizes;
  keys = so_far.keys;
  serves = so_far.serves;
  cache = so_far.cache;
  before = λ m i lt in_table lt_i used. elim (ℕ_discrete m ctr) [
    | yes same ↦
        ap (λ x. on_disk t (x + 2) i) same
        ∙ here i lt_i (ap (λ x. unused (s.objs x)) (sym same) ∙ used)
        ∙ ap (λ x. content true s x i) (sym same)
    | no other ↦ so_far.before m i (omega (arith, other)) in_table lt_i used
  ];
  later = λ m le. so_far.later m (omega arith);
  later_disk = λ m i le. so_far.later_disk m i (omega arith);
}

-- A round that writes a block.
written :
    (s t : Objfs) (ctr : ℕ)
    → IsCoherent s
    → ctr < max_objs
    → SyncedTo s ctr t
    → unused (s.objs ctr) ≡ false
    → (s.objs ctr).dirty ≢ 0
    → SyncedTo s (suc ctr) (synced ctr t)
written s t ctr ok lt so_far used dirty =
    let id : (t.objs ctr).id ≡ ctr + 2 = so_far.ids ctr ∙ ok.numbered ctr lt used in
    let block : ℕ → ℕ = λ i. t.cache.bytes (cache_ptr (t.objs ctr) + i) in
    let disk : (m i : ℕ)
        → i < block_size
        → on_disk (synced ctr t) (m + 2) i ≡ (if m == ctr then block i else on_disk t (m + 2) i) =
      λ m i lt_i.
        copy_bytes_block t.blkdev.content block (t.objs ctr).id (m + 2) i lt_i
        ∙ ground (arith, id) in
    record {
      ids = λ m. ground arith ∙ so_far.ids m;
      sizes = λ m. ground arith ∙ so_far.sizes m;
      keys = λ m. ground arith ∙ so_far.keys m;
      serves = record { aligned = so_far.serves.aligned; no_faults = so_far.serves.no_faults };
      cache = so_far.cache;
      before = λ m i lt_m in_table lt_i used_m. elim (ℕ_discrete m ctr) [
        | yes same ↦
            disk m i lt_i
            ∙ ground (arith, same)
            ∙ ap (λ x. t.cache.bytes (block_size * x + i)) id
            ∙ ap (λ a. a.bytes (block_size * (ctr + 2) + i)) so_far.cache
            ∙ sym (ok.held ctr i lt lt_i used dirty)
            ∙ ap (λ x. content true s x i) (sym same)
        | no other ↦
            disk m i lt_i
            ∙ ground (arith, other)
            ∙ so_far.before m i (omega (arith, other)) in_table lt_i used_m
      ];
      later = λ m le. ground arith ∙ so_far.later m (omega arith);
      later_disk =
          λ m i le lt_i. disk m i lt_i ∙ ground arith ∙ so_far.later_disk m i (omega arith) lt_i;
    }

sync_entry-SyncedTo :
    (s t : Objfs) (ctr : ℕ)
    → IsCoherent s
    → ctr < max_objs
    → SyncedTo s ctr t
    → SyncedTo s (suc ctr) (sync_entry true ctr t)
unfolding obj_sync
sync_entry-SyncedTo s t ctr ok lt so_far =
    let at : t.objs ctr ≡ s.objs ctr = so_far.later ctr (omega arith) in
    elim (Bool-cases (unused (t.objs ctr))) [
      | inl free ↦
          rw (free, sync_entry)
            (passed s t ctr so_far (λ i lt_i used. absurd (clash (ap unused (sym at) ∙ free) used)))
      | inr used ↦
          let used' : unused (s.objs ctr) ≡ false = ap unused (sym at) ∙ used in
          elim (Bool-cases ((t.objs ctr).dirty == 0)) [
            | inl clean ↦
                rw (used, clean, sync_entry, obj_sync)
                  (passed s t ctr so_far (λ i lt_i used''.
                    so_far.later_disk ctr i (omega arith) lt_i
                    ∙ sym (
                        ok.clean ctr i lt lt_i used'
                          (ap (λ e. e.dirty) (sym at) ∙ ground (arith, clean)))))
            | inr dirty ↦
                rw (used, obj_sync-synced ctr t so_far.serves dirty, sync_entry)
                  (written s t ctr ok lt so_far used' (λ z. absurd (ground (arith, dirty, z, at))))
          ]
    ]

pub sync_entries-SyncedTo :
    (s t : Objfs) (n ctr : ℕ)
    → IsCoherent s
    → ctr + n ≡ max_objs
    → SyncedTo s ctr t
    → SyncedTo s max_objs (sync_entries true n ctr t)
unfolding sync_entries
sync_entries-SyncedTo s t zero ctr ok all so_far =
    subst (λ k. SyncedTo s k t) (omega (arith, all)) so_far
sync_entries-SyncedTo s t (suc n) ctr ok all so_far =
    sync_entries-SyncedTo s (sync_entry true ctr t) n (suc ctr) ok (omega (arith, all))
      (sync_entry-SyncedTo s t ctr ok (omega (arith, all)) so_far)
