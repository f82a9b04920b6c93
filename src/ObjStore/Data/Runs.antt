-- ===== src/ObjStore/Data/Runs.antt =====
-- Sequences of `create_object`, `objstore_write` and `objstore_read` of assignment4/objstore.c keep
-- the files and answer from them.
use operating_systems_assign.Base.{
  ℕ, suc, ◌+◌, ◌*◌, ◌<◌, ◌≤◌, ◌≡◌, refl, sym, ap, fun_ext, Bool, List, [], ◌∷◌, none, some, ltb,
  inl, inr, if◌then◌else◌, Option-cases, arith,
}
use operating_systems_assign.Base.Arrays.{update}
use operating_systems_assign.ObjStore.Disk.{block_size}
use operating_systems_assign.ObjStore.Bitmap.{used}
use operating_systems_assign.ObjStore.Store.{Store, done, length, key_size}
use operating_systems_assign.ObjStore.Lookup.{inodes}
use operating_systems_assign.ObjStore.Create.{create_object_lem, Creates-IsNumbered}
use operating_systems_assign.ObjStore.Data.Direct.{padded}
use operating_systems_assign.ObjStore.Data.Layout.{
  Files, Live, page, Represents, Represents-objects,
}
use operating_systems_assign.ObjStore.Data.Files.{IsOwned, put-IsOwned, put, IsWritable}
use operating_systems_assign.ObjStore.Data.Since.{
  Since, Since-Creates, Since-WritesFile, Since-reads,
}
use operating_systems_assign.ObjStore.Data.Room.{Room, Room-less}
use operating_systems_assign.ObjStore.Data.Reading.{objstore_read-ReadsFile}
use operating_systems_assign.ObjStore.Data.Refines.{objstore_write-WritesFile}
use operating_systems_assign.ObjStore.Data.Calls.{
  Call, create, write, read, Answer, created, wrote, got, perform, run, Permitted, may_create,
  may_write, may_read, Serves, creates, is_full, writes, reads, Behaves, ServesAll, nothing, first,
}

Room-less2 : (m : ℕ) (u : ℕ → ℕ) → Room (suc (suc m)) u → Room m u
Room-less2 m u h = Room-less m u (Room-less (suc m) u h)

double_suc : (n : ℕ) → 2 * suc n ≡ suc (suc (2 * n))
double_suc n = omega arith

-- The store holds the files, the objects marked by `u` are in use, and it has come from `first` by
-- calls.
pub record Keeps (c : Bool) (first s : Store) (u : ℕ → ℕ) (f : Files) (room : ℕ) : Type 0 where
  pub represents : Represents c s f
  pub owned : IsOwned f
  pub since : Since first s
  pub in_use : used s.inode_bitmap ≡ u
  pub room_left : Room room (used s.data_bitmap)

abbrev ServesCall : Bool → Store → Store → (ℕ → ℕ) → Files → ℕ → Call → Type 0
ServesCall c o s u f m call =
    (t : Store) × (answer : Answer) × (u' : ℕ → ℕ) × (f' : Files) × (perform c call s
      ≡ done (t, answer))
    × Serves u f call answer u' f'
    × Keeps c o t u' f' m

module _ (c : Bool) (o s : Store) (u : ℕ → ℕ) (f : Files) (m : ℕ)
    (k : Keeps c o s u f (suc (suc m))) where
  serves_create : (key : List ℕ) → length key < key_size → ServesCall c o s u f m (create key)
  unfolding perform
  serves_create key short = elim (create_object_lem s key short) [
    | inl (n, t, ran, new) ↦ (
      t,
      created (some (n + 2)),
      update u n 1,
      f,
      rw ran refl,
      creates n new.in_range (rw (sym k.in_use) new.was_free)
          (λ i lt. rw (sym k.in_use) (new.lowest i lt)),
      record {
        represents =
            Represents-objects c s t f new.below new.data_blocks
              (λ i b. ground (arith, new.object i)) (λ i b. ground (arith, new.object i))
              (Creates-IsNumbered s key n t new k.represents.numbered) k.represents;
        owned = k.owned;
        since = Since-Creates o s t k.since key n new;
        in_use = rw (sym k.in_use) (fun_ext new.taken);
        room_left = rw new.data_blocks (Room-less2 m (used s.data_bitmap) k.room_left);
      },
    )
    | inr (full, ran) ↦ (
      s,
      created none,
      u,
      f,
      rw ran refl,
      is_full (λ i lt. rw (sym k.in_use) (full i lt)),
      record {
        represents = k.represents;
        owned = k.owned;
        since = k.since;
        in_use = k.in_use;
        room_left = Room-less2 m (used s.data_bitmap) k.room_left;
      },
    )
  ]

  serves_write :
      (n a : ℕ) (buff : ℕ → ℕ) (size : ℕ)
      → n < inodes
      → u n ≡ 1
      → IsWritable f n a
      → 0 < size
      → ServesCall c o s u f m (write n a buff size)
  unfolding perform
  serves_write n a buff size n_lt n_used may pos =
      let (t, ran, w) =
        objstore_write-WritesFile c s f n a buff size m k.represents n_lt (rw k.in_use n_used) may
          pos k.room_left in
      (
        t,
        wrote (some size),
        u,
        put f n a (padded buff size),
        rw ran refl,
        writes,
        record {
          represents = w.represents;
          owned = put-IsOwned f n a (padded buff size) n_lt k.owned;
          since = Since-WritesFile o s t k.since c f n a buff size m w;
          in_use = rw w.inodes_kept k.in_use;
          room_left = w.room_left;
        },
      )

  serves_read :
      (n a : ℕ) (buff : ℕ → ℕ) (size : ℕ)
      → n < inodes
      → u n ≡ 1
      → Live f (page n a)
      → 0 < size
      → size ≤ block_size
      → ServesCall c o s u f m (read n a buff size)
  unfolding perform
  serves_read n a buff size n_lt n_used live pos small = elim (Option-cases (f.pages n a)) [
    | inl e ↦ absurd (ground (arith, live, e))
    | inr (bytes, e) ↦
        let (r, ran, w) =
          objstore_read-ReadsFile c s f n a size bytes buff k.represents n_lt (rw k.in_use n_used) e
            pos small in
        (
          r.0,
          got (λ i. if ltb i size then bytes i else buff i),
          u,
          f,
          rw ran (ap (λ b. done (r.0, got b)) (fun_ext w.got)),
          reads bytes e,
          record {
            represents = w.represents;
            owned = k.owned;
            since = Since-reads o s r.0 k.since w.same (w.reaches k.since.lines);
            in_use = rw w.inodes_kept k.in_use;
            room_left = rw w.bitmap_kept (Room-less2 m (used s.data_bitmap) k.room_left);
          },
        )
  ]

  serves_call : (call : Call) → Permitted u f call → ServesCall c o s u f m call
  serves_call (create key) (may_create short) = serves_create key short
  serves_call (write n a buff size) (may_write n_lt n_used may pos small) =
      serves_write n a buff size n_lt n_used may pos
  serves_call (read n a buff size) (may_read n_lt n_used live pos small) =
      serves_read n a buff size n_lt n_used live pos small

abbrev pub ServesCalls : Bool → Store → Store → (ℕ → ℕ) → Files → List Call → Type 0
ServesCalls c o s u f calls =
    (t : Store) × (answers : List Answer) × (u' : ℕ → ℕ) × (f' : Files) × (run c calls s
      ≡ done (t, answers))
    × ServesAll u f calls answers u' f'
    × Keeps c o t u' f' 0

Serves-first :
    (c : Bool) (call : Call) (calls : List Call) (o s t : Store) (u u' : ℕ → ℕ) (f f' : Files)
    (answer : Answer)
    → perform c call s ≡ done (t, answer)
    → Serves u f call answer u' f'
    → ServesCalls c o t u' f' calls
    → ServesCalls c o s u f (call ∷ calls)
unfolding run
Serves-first c call calls o s t u u' f f' answer ran served
      (t', answers, u'', f'', ran', served', kept) =
    (t', answer ∷ answers, u'', f'', rw (ran, ran') refl, first served served', kept)

-- On a store that holds the files `f`, with two free blocks for every call, any sequence of
-- `create_object`, `objstore_write` and `objstore_read` whose calls are permitted runs to its end.
-- Its answers are those of the specification, a table of pages, and the store then holds the files
-- that the specification has at the end. The calls leave the blocks of the bitmaps and of the table
-- on the disk alone, and every object whose inode block is not marked dirty.
pub run-ServesAll :
    (c : Bool) (calls : List Call) (o s : Store) (u : ℕ → ℕ) (f : Files)
    → Keeps c o s u f (2 * length calls)
    → Behaves u f calls
    → ServesCalls c o s u f calls
unfolding run Behaves
run-ServesAll c [] o s u f k well = (s, [], u, f, refl, nothing, k)
run-ServesAll c (call ∷ calls) o s u f k (may, well) =
    let k' : Keeps c o s u f (suc (suc (2 * length calls))) = rw (double_suc (length calls)) at k in
    let (t, answer, u', f', ran, served, kept) =
      serves_call c o s u f (2 * length calls) k' call may in
    Serves-first c call calls o s t u u' f f' answer ran served
      (run-ServesAll c calls o t u' f' kept (well answer u' f' served))
