-- ===== src/Example/Remount.antt =====
-- `objstore_destroy` and then `objstore_init` in assignment4/example/objstore.c.
use operating_systems_assign.Base.{
  ℕ, zero, suc, ◌+◌, ◌*◌, ◌%◌, ◌<◌, ◌≤◌, ◌≡◌, ◌≢◌, refl, ap, sym, ◌∙◌, true, false, none, ltb, ◌==◌,
  if◌then◌else◌, arith, inl, inr, Bool-cases, fun_ext, ltb→lt,
}
use native.Mathlib.Decide.{ℕ_discrete}
use operating_systems_assign.Base.Arrays.{copy_bytes, copy_bytes_lem, update}
use operating_systems_assign.ObjStore.Disk.{
  block_size, Serves, read_block-copies, write_block-copies, copy_bytes_block, success,
}
use operating_systems_assign.Example.{Entry, Objfs, max_objs, unused, reset_cached}
use operating_systems_assign.Example.Content.{zero_page, keep_device}
use operating_systems_assign.Example.Bytes.{content, shown}
use operating_systems_assign.Example.Mount.{
  entry_at, init_entries, finish_init, objstore_init, sync_entries, table_page, objstore_destroy,
}
use operating_systems_assign.Example.Synced.{IsCoherent, SyncedTo, on_disk, sync_entries-SyncedTo}

-- The bytes of a page that holds the table.
pub record HoldsTable (bytes : ℕ → ℕ) (objs : ℕ → Entry) : Type 0 where
  pub entries : (m : ℕ) → m < max_objs → entry_at bytes m ≡ objs m
  pub blank : (i : ℕ) → block_size ≤ i → bytes i ≡ 0

abbrev opened : Entry → Entry
opened e = if unused e then e else reset_cached true e

-- One round of the loop.
abbrev stepped : (ℕ → Entry) → ℕ → ℕ → Entry
stepped objs ctr =
    if unused (objs ctr) then objs else update objs ctr (reset_cached true (objs ctr))

stepped-other : (objs : ℕ → Entry) (ctr m : ℕ) → m ≢ ctr → stepped objs ctr m ≡ objs m
stepped-other objs ctr m ne = elim (Bool-cases (unused (objs ctr))) [
  | inl free ↦ rw free refl
  | inr used ↦ rw used (ground (arith, ne))
]

stepped-here : (objs : ℕ → Entry) (ctr : ℕ) → stepped objs ctr ctr ≡ opened (objs ctr)
stepped-here objs ctr = elim (Bool-cases (unused (objs ctr))) [
  | inl free ↦ rw free refl
  | inr used ↦ rw used (ground arith)
]

init_entries-others :
    (n ctr : ℕ) (objs : ℕ → Entry) (m : ℕ) → m < ctr → init_entries true n ctr objs m ≡ objs m
unfolding init_entries
init_entries-others zero ctr objs m lt = refl
init_entries-others (suc n) ctr objs m lt =
    init_entries-others n (suc ctr) (stepped objs ctr) m (omega arith)
    ∙ stepped-other objs ctr m (λ e. absurd (omega (arith, e)))

init_entries-opened :
    (n ctr : ℕ) (objs : ℕ → Entry) (m : ℕ)
    → ctr ≤ m
    → m < ctr + n
    → init_entries true n ctr objs m ≡ opened (objs m)
unfolding init_entries
init_entries-opened zero ctr objs m le lt = absurd (omega arith)
init_entries-opened (suc n) ctr objs m le lt = elim (ℕ_discrete m ctr) [
  | yes same ↦
      init_entries-others n (suc ctr) (stepped objs ctr) m (omega (arith, same))
      ∙ ap (stepped objs ctr) same
      ∙ stepped-here objs ctr
      ∙ ap (λ x. opened (objs x)) (sym same)
  | no other ↦
      init_entries-opened n (suc ctr) (stepped objs ctr) m (omega (arith, other)) (omega arith)
      ∙ ap opened (stepped-other objs ctr m other)
]

-- The object is there under its key, with its size and its bytes, and not in the cache.
pub record Kept (s u : Objfs) (m : ℕ) : Type 0 where
  pub id : (u.objs m).id ≡ (s.objs m).id
  pub size : (u.objs m).size ≡ (s.objs m).size
  pub key : (u.objs m).key ≡ (s.objs m).key
  pub fresh : (u.objs m).cache_index ≡ none
  pub bytes : (i : ℕ) → i < block_size → content true u m i ≡ content true s m i

SyncedTo-start : (s : Objfs) → Serves s.blkdev s.cache → SyncedTo s 0 s
SyncedTo-start s ok = record {
  ids = λ m. refl;
  sizes = λ m. refl;
  keys = λ m. refl;
  serves = ok;
  cache = refl;
  before = λ m i lt. absurd (omega arith);
  later = λ m le. refl;
  later_disk = λ m i le lt. refl;
}

abbrev synced : Objfs → Objfs
synced s = sync_entries true max_objs 0 s

above_page : (i : ℕ) → ltb i block_size ≡ false → block_size ≤ i
above_page i h = ground arith

-- The page that is read back.
read_back :
    (bytes : ℕ → ℕ) (objs : ℕ → Entry) (from : ℕ → ℕ)
    → HoldsTable bytes objs
    → ((i : ℕ) → i < block_size → from i ≡ bytes i)
    → copy_bytes block_size (λ i. 0) 0 from ≡ bytes
read_back bytes objs from ok same = fun_ext (λ i.
    copy_bytes_lem block_size (λ x. 0) 0 from i ∙ elim (Bool-cases (ltb i block_size)) [
      | inl below ↦ ground (arith, same i (ltb→lt i block_size below))
      | inr above ↦ ground (arith, ok.blank i (above_page i above))
    ])

-- The table is in block 0, the objects behind it.
first_block :
    (to bytes : ℕ → ℕ) (i : ℕ)
    → i < block_size
    → copy_bytes block_size to (block_size * 0) (λ j. bytes (0 + j)) (block_size * 0 + i) ≡ bytes i
first_block to bytes i lt =
    copy_bytes_block to (λ j. bytes (0 + j)) 0 0 i lt ∙ ap bytes (omega arith)

later_block :
    (to bytes : ℕ → ℕ) (m i : ℕ)
    → i < block_size
    → copy_bytes block_size to (block_size * 0) (λ j. bytes (0 + j)) (block_size * (m + 2) + i)
      ≡ to (block_size * (m + 2) + i)
later_block to bytes m i lt = copy_bytes_block to (λ j. bytes (0 + j)) 0 (m + 2) i lt ∙ ground arith

opened-used : (e : Entry) → unused e ≡ false → opened e ≡ reset_cached true e
opened-used e used = rw used refl

kept :
    (s t u : Objfs) (m : ℕ)
    → IsCoherent s
    → SyncedTo s max_objs t
    → m < max_objs
    → unused (s.objs m) ≡ false
    → u.objs m ≡ opened (t.objs m)
    → ((i : ℕ) → i < block_size → on_disk u (m + 2) i ≡ on_disk t (m + 2) i)
    → Kept s u m
kept s t u m ok st lt used entry disk =
    let reset : u.objs m ≡ reset_cached true (t.objs m) =
      entry ∙ opened-used (t.objs m) (ap (λ x. x == 0) (st.ids m) ∙ used) in
    record {
      id = ap (λ e. e.id) reset ∙ st.ids m;
      size = ap (λ e. e.size) reset ∙ st.sizes m;
      key = ap (λ e. e.key) reset ∙ st.keys m;
      fresh = ap (λ e. e.cache_index) reset;
      bytes = λ i lt_i.
          ap (λ e. shown true u e i) reset
          ∙ ap (λ x. on_disk u x i) (st.ids m ∙ ok.numbered m lt used)
          ∙ disk i lt_i
          ∙ st.before m i lt lt lt_i used;
    }

-- Unmounting and mounting again in the build with the cache: every object in use is there under its
-- key, with its size and its bytes, given objects whose ids are those of their places, clean ones
-- that show what the disk has and dirty ones in the cache, a device that serves every request, pages
-- of `mmap` at block boundaries, and a page at `objs` that holds the table as the loop leaves it.
pub objstore_init-Kept :
    (encode : (ℕ → Entry) → ℕ → ℕ) (page page' : ℕ) (s : Objfs)
    → IsCoherent s
    → Serves s.blkdev s.cache
    → page % block_size ≡ 0
    → page' % block_size ≡ 0
    → HoldsTable
        (encode (sync_entries true max_objs 0 s).objs)
        (sync_entries true max_objs 0 s).objs
    → (t u : Objfs) × (objstore_destroy true encode page s ≡ (t, success))
      × (objstore_init true page' t ≡ (u, success))
      × ((m : ℕ) → m < max_objs → unused (s.objs m) ≡ false → Kept s u m)
unfolding objstore_destroy objstore_init
objstore_init-Kept encode page page' s ok serves page_ok page_ok' holds =
    let t = synced s in
    let st = sync_entries-SyncedTo s s max_objs 0 ok refl (SyncedTo-start s serves) in
    let bytes : ℕ → ℕ = encode t.objs in
    let disk : ℕ → ℕ =
      copy_bytes block_size t.blkdev.content (block_size * 0) (λ i. bytes (0 + i)) in
    let t' : Objfs = record t { blkdev = record (t.blkdev) { content = disk } } in
    let table : ℕ → Entry =
      entry_at (copy_bytes block_size (λ i. 0) 0 (λ i. disk (block_size * 0 + i))) in
    let u : Objfs = record t' { objs = init_entries true max_objs 0 table } in
    let page_bytes =
      read_back bytes t.objs (λ i. disk (block_size * 0 + i)) holds
        (first_block t.blkdev.content bytes) in
    let entry : (m : ℕ) → m < max_objs → u.objs m ≡ opened (t.objs m) = λ m lt.
      init_entries-opened max_objs 0 table m (omega arith) (omega arith)
      ∙ ap opened (ap (λ b. entry_at b m) page_bytes ∙ holds.entries m lt) in
    (
      t',
      u,
      ap (keep_device t) (
          write_block-copies t.blkdev (table_page encode page t)
            (record { aligned = page_ok; no_faults = st.serves.no_faults }) 0 0 refl),
      ap (finish_init true t') (
          read_block-copies t'.blkdev (zero_page page')
            (record { aligned = page_ok'; no_faults = st.serves.no_faults }) 0 0 refl),
      λ m lt used. kept s t u m ok st lt used (entry m lt) (later_block t.blkdev.content bytes m),
    )
