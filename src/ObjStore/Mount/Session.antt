-- ===== src/ObjStore/Mount/Session.antt =====
-- A session of the object store of assignment4/objstore.c: it is mounted, called, unmounted and
-- mounted again.
use operating_systems_assign.Base.{
  ℕ, ◌+◌, ◌*◌, ◌/◌, ◌%◌, ◌<◌, ◌≡◌, refl, sym, ap, ◌∙◌, true, List, arith,
}
use mathlib.Core.Path.{subst}
use operating_systems_assign.ObjStore.Disk.{block_size, Device, Area}
use operating_systems_assign.ObjStore.Cache.Flush.{empty_cache}
use operating_systems_assign.ObjStore.Store.{Store, done, undefined, length}
use operating_systems_assign.ObjStore.Lookup.{inodes_per_block}
use operating_systems_assign.ObjStore.Data.Layout.{Files, Represents}
use operating_systems_assign.ObjStore.Data.Since.{Since}
use operating_systems_assign.ObjStore.Data.Calls.{Call, Answer, run, Behaves, ServesAll}
use operating_systems_assign.ObjStore.Data.Runs.{Keeps, run-ServesAll}
use operating_systems_assign.ObjStore.Mount.{
  Memory, inode_bytes, inode_block_offset, mount_memory, object_at, objstore_init, objstore_destroy,
}
use operating_systems_assign.ObjStore.Mount.Image.{IsSound, mounted_table}
use operating_systems_assign.ObjStore.Mount.Objects.{SameObject, object_at-bytes}
use operating_systems_assign.ObjStore.Mount.Remount.{table_size, Shows, IsClosable}
use operating_systems_assign.ObjStore.Mount.Survives.{objstore_init-Represents}

-- Nothing has been called yet.
pub objstore_init-Since :
    (d : Device) (cache : Area) → Since (objstore_init d cache) (objstore_init d cache)
unfolding objstore_init empty_cache
objstore_init-Since d cache = record {
  lines = λ j k lt e. cc;
  before = λ b i lt i_lt. refl;
  unmarked = λ n e. refl;
}

module _ (d : Device) (cache : Area) (sound : IsSound d) (s : Store)
    (since : Since (objstore_init d cache) s) where
  -- The table on the disk is the one that was mounted.
  table_kept :
      IsSound s.blocks.disk
      → (n j : ℕ) → n < table_size
      → j < 88
      → (mount_memory s.blocks.disk).table (88 * n + j) ≡ (mount_memory d).table (88 * n + j)
  unfolding objstore_init empty_cache
  table_kept sound' n j n_lt lt =
      let b = n / inodes_per_block in
      let r = 88 * (n % inodes_per_block) + j in
      let e : inode_bytes * b + r ≡ 88 * n + j = omega arith in
      rw e at (
        mounted_table s.blocks.disk sound' b r (omega arith) (omega arith)
        ∙ (since.before (inode_block_offset + b) r (omega arith) (omega arith)
            ∙ sym (mounted_table d sound b r (omega arith) (omega arith))))

  object_kept :
      IsSound s.blocks.disk
      → (n : ℕ) → n < table_size
      → s.dirty_array (n / inodes_per_block) ≡ 0
      → SameObject (object_at (mount_memory s.blocks.disk).table n) (s.objects n)
  unfolding objstore_init
  object_kept sound' n lt e = rw (since.unmarked n e) (
      object_at-bytes (mount_memory s.blocks.disk).table (mount_memory d).table n
        (λ j j_lt. table_kept sound' n j lt j_lt))

  pub Since-IsClosable : (f : Files) → Represents true s f → IsClosable s
  Since-IsClosable f ok = record {
    coherent = ok.ready;
    only_data = since.lines;
    marked = object_kept ok.ready.serves.no_faults;
  }

done-injective {ℓ} : {A : Type ℓ} (a b : A) → done a ≡ done b → a ≡ b
done-injective a b e = ap (λ o. elim o [ done x ↦ x | undefined ↦ a ]) e

session_end :
    (d : Device) (cache cache' : Area) (m : Memory) (t : Store) (u : ℕ → ℕ) (f : Files)
    → IsSound d
    → cache'.base % block_size ≡ 0
    → Shows m t
    → Keeps true (objstore_init d cache) t u f 0
    → Represents true (objstore_init (objstore_destroy m t) cache') f
session_end d cache cache' m t u f sound aligned shows k =
    objstore_init-Represents m t f cache' shows
      (Since-IsClosable d cache sound t k.since f k.represents) k.represents k.owned aligned

-- The build with the cache, on a sound image: the store that `objstore_init` sets up holds the
-- files `f`, with two free blocks for every call, and a sequence of permitted creations, reads and
-- writes takes it to `t`. Where the memory then holds the bytes of the table and of the bitmaps,
-- the answers are those of the specification, and the store that is mounted from the image that
-- `objstore_destroy` leaves holds the files that the specification has at the end.
pub session-Represents :
    (d : Device) (cache cache' : Area) (calls : List Call) (u : ℕ → ℕ) (f : Files) (t : Store)
    (answers : List Answer) (m : Memory)
    → IsSound d
    → cache'.base % block_size ≡ 0
    → Keeps true (objstore_init d cache) (objstore_init d cache) u f (2 * length calls)
    → Behaves u f calls
    → run true calls (objstore_init d cache) ≡ done (t, answers)
    → Shows m t
    → (u' : ℕ → ℕ) × (f' : Files) × ServesAll u f calls answers u' f'
      × Represents true (objstore_init (objstore_destroy m t) cache') f'
session-Represents d cache cache' calls u f t answers m sound aligned k well ran shows =
    let (t', answers', u', f', ran', served, kept) =
      run-ServesAll true calls (objstore_init d cache) (objstore_init d cache) u f k well in
    let e : (t', answers') ≡ (t, answers) =
      done-injective (t', answers') (t, answers) (sym ran' ∙ ran) in
    (
      u',
      f',
      subst (λ l. ServesAll u f calls l u' f') (ap (λ p. p.1) e) served,
      session_end d cache cache' m t u' f' sound aligned shows
          (subst (λ s. Keeps true (objstore_init d cache) s u' f' 0) (ap (λ p. p.0) e) kept),
    )
