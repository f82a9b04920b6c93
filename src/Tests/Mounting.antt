-- ===== src/Tests/Mounting.antt =====
-- An image of assignment4 that is written, mounted, read and mounted again.
use operating_systems_assign.Base.{
  ℕ, ◌+◌, ◌<◌, ◌*◌, ◌≡◌, refl, ◌∙◌, some, true, List, [], ◌∷◌, ◌==◌, Bool-cases, inl, inr, arith,
}
use native.Mathlib.Decide.{ℕ_discrete}
use operating_systems_assign.ObjStore.Disk.{block_size, Device, Area}
use operating_systems_assign.ObjStore.Alloc.{
  Takes, Takes-result, free_data_block, free_data_block-Takes, free_data_block-words,
}
use operating_systems_assign.ObjStore.Lookup.{find_target_lem}
use operating_systems_assign.ObjStore.Data.Direct.{
  WritesPage, after_write, write_target-step, after_write-WritesPage,
}
use operating_systems_assign.ObjStore.Data.Refines.{marked}
use operating_systems_assign.ObjStore.Mount.Objects.{SameObject}
use operating_systems_assign.ObjStore.Bitmap.{used}
use operating_systems_assign.ObjStore.Store.{Object, Store, done, data_block_offset}
use operating_systems_assign.ObjStore.Data.{objstore_read, objstore_write}
use operating_systems_assign.ObjStore.Data.Layout.{Files, Represents, Represents-objects}
use operating_systems_assign.ObjStore.Data.Files.{IsOwned, IsWritable}
use operating_systems_assign.ObjStore.Data.Reading.{ReadsFile, objstore_read-ReadsFile}
use operating_systems_assign.ObjStore.Data.Room.{Room}
use operating_systems_assign.ObjStore.Data.Calls.{
  Call, write, wrote, perform, run, may_write, Behaves, ServesAll,
}
use operating_systems_assign.ObjStore.Data.Runs.{Keeps}
use operating_systems_assign.ObjStore.Mount.{objstore_init, objstore_destroy}
use operating_systems_assign.ObjStore.Mount.Remount.{
  table_size, Shows, IsClosable, Remounts, image-IsSound, objstore_init-Remounts,
}
use operating_systems_assign.ObjStore.Mount.Bytes.{
  memory_of, Fits, IsStorable, IsText, no_text, one_more, memory_of-Shows,
}
use operating_systems_assign.ObjStore.Mount.Survives.{inode_marks, data_marks, Remounts-Represents}
use operating_systems_assign.ObjStore.Mount.Session.{objstore_init-Since, session-Represents}
use operating_systems_assign.Tests.Objects.{
  two_objects, two_objects-IsNumbered, first_used, no_blocks-IsCoherent,
}
use operating_systems_assign.Tests.Files.{
  one_page, one_page-Represents, Room-from, free_after_first,
}

abbrev closing : Store
closing = record two_objects { dirty_array = λ _. 1 }

closing-IsClosable : IsClosable closing
closing-IsClosable = record {
  coherent = no_blocks-IsCoherent;
  only_data = λ j k lt e. cc;
  marked = λ n lt e. absurd (omega (arith, e));
}

key-IsText : (n : ℕ) → IsText (two_objects.objects n).key
key-IsText n = elim (Bool-cases (n == 0)) [
  | inl first ↦ rw first (one_more (omega arith) no_text)
  | inr other ↦ elim (Bool-cases (n == 1)) [
    | inl second ↦ rw (other, second) (one_more (omega arith) no_text)
    | inr free ↦ rw (other, free) no_text
  ]
]

closing-IsStorable : IsStorable closing
closing-IsStorable = record {
  objects = λ n lt. record {
    id = omega (arith, lt);
    size = omega arith;
    directs = λ k k_lt. omega arith;
    indirects = λ k k_lt. omega arith;
    key_length = ground arith;
    key_text = key-IsText n;
  };
  inodes = λ i lt. ground arith;
  data_blocks = λ i lt. ground arith;
}

memory_of-Shows_example : Shows (memory_of closing) closing
memory_of-Shows_example = memory_of-Shows closing closing-IsStorable

closing-Shows : Shows (memory_of closing) closing
closing-Shows = memory_of-Shows closing closing-IsStorable

abbrev cache_area : Area
cache_area = record { base = 8192; bytes = λ i. i }

objstore_init-Remounts_example :
    Remounts closing (objstore_init (objstore_destroy (memory_of closing) closing) cache_area)
objstore_init-Remounts_example =
    objstore_init-Remounts (memory_of closing) closing closing-Shows closing-IsClosable cache_area
      refl

-- The image, and the store that is mounted from it.
abbrev written_image : Device
written_image = objstore_destroy (memory_of closing) closing

abbrev mounted : Store
mounted = objstore_init written_image cache_area

mounted-Remounts : Remounts closing mounted
mounted-Remounts =
    objstore_init-Remounts (memory_of closing) closing closing-Shows closing-IsClosable cache_area
      refl

closing-Represents : Represents true closing one_page
closing-Represents =
    Represents-objects true two_objects closing one_page refl refl (λ m b. refl) (λ m b. refl)
      two_objects-IsNumbered one_page-Represents

one_page-IsOwned : IsOwned one_page
one_page-IsOwned = record { pages = λ n a h. ground arith; tables = λ n k h. cc }

mounted-Represents : Represents true mounted one_page
mounted-Represents =
    Remounts-Represents closing mounted one_page closing-Represents one_page-IsOwned
      mounted-Remounts

mounted_used : used mounted.inode_bitmap 0 ≡ 1
mounted_used =
    inode_marks closing mounted one_page closing-Represents one_page-IsOwned mounted-Remounts 0
      (omega arith)
    ∙ first_used

mounted-Room : Room 2 (used mounted.data_bitmap)
mounted-Room =
    Room-from 2 32 (used mounted.data_bitmap)
      (λ i ge lt.
        data_marks closing mounted one_page closing-Represents one_page-IsOwned mounted-Remounts i
          lt
        ∙ free_after_first i ge)
      (omega arith)

abbrev reading :
    (r : Store × (ℕ → ℕ)) × (objstore_read true 2 (λ _. 9) 100 (block_size * 0) mounted ≡ done r)
    × ReadsFile true mounted one_page (λ _. 0) (λ _. 9) 100 r
reading =
    objstore_read-ReadsFile true mounted one_page 0 0 100 (λ _. 0) (λ _. 9) mounted-Represents
      (omega arith) mounted_used refl (omega arith) (omega arith)

mounted-Keeps : Keeps true mounted mounted (used mounted.inode_bitmap) one_page 2
mounted-Keeps = record {
  represents = mounted-Represents;
  owned = one_page-IsOwned;
  since = objstore_init-Since written_image cache_area;
  in_use = refl;
  room_left = mounted-Room;
}

-- One page is written: the table block is dirty, and so is a line of the cache.
abbrev writes_page : List Call
writes_page = write 0 1 (λ i. i) 100 ∷ []

page_1-IsWritable : IsWritable one_page 0 1
page_1-IsWritable = record {
  in_range = omega arith;
  table_ready = λ ge e. absurd (omega (arith, ge));
}

writes_page-Behaves : Behaves (used mounted.inode_bitmap) one_page writes_page
unfolding Behaves
writes_page-Behaves = (
  may_write (omega arith) mounted_used page_1-IsWritable (omega arith) (omega arith),
  λ a u f h. tt,
)

abbrev marked_store : Store
marked_store = marked 0 mounted

abbrev taken : (k : ℕ) × Takes marked_store k (free_data_block marked_store)
taken = free_data_block-Takes marked_store 40 (omega arith) (
    data_marks closing mounted one_page closing-Represents one_page-IsOwned mounted-Remounts 40
      (omega arith)
    ∙ free_after_first 40 (omega arith))

abbrev after_call : Store
after_call =
    after_write true marked_store (free_data_block marked_store).0.data_bitmap 0 1
      (data_block_offset + taken.0) (λ i. i) 100

page_written :
    objstore_write true 2 (λ i. i) 100 (block_size * 1) mounted ≡ done (after_call, some 100)
unfolding objstore_write
page_written =
    rw (find_target_lem mounted 0 true mounted-Represents.numbered (omega arith) mounted_used) (
      write_target-step true marked_store 0 1 (λ i. i) 100 _ _ (omega arith) (omega arith)
        (Takes-result marked_store taken.0 (free_data_block marked_store) taken.1))

writes_page_runs : run true writes_page mounted ≡ done (after_call, wrote (some 100) ∷ [])
unfolding run perform
writes_page_runs = rw page_written refl

after_call-WritesPage : WritesPage true marked_store 0 1 (λ i. i) 100 taken.0 after_call
after_call-WritesPage =
    after_write-WritesPage true marked_store 0 1 (λ i. i) 100 taken.0 (free_data_block marked_store)
      mounted-Represents.ready taken.1

SameObject-Fits : (o p : Object) → SameObject o p → Fits p → Fits o
SameObject-Fits o p same fits = record {
  id = rw same.id fits.id;
  size = rw same.size fits.size;
  directs = λ k lt. rw (same.directs k lt) (fits.directs k lt);
  indirects = λ k lt. rw (same.indirects k lt) (fits.indirects k lt);
  key_length = rw same.key fits.key_length;
  key_text = rw same.key fits.key_text;
}

mounted-Fits : (n : ℕ) → n < table_size → Fits (mounted.objects n)
mounted-Fits n lt =
    SameObject-Fits (mounted.objects n) (closing.objects n) (mounted-Remounts.objects n lt)
      (closing-IsStorable.objects n lt)

written-Fits : Fits (after_call.objects 0)
written-Fits =
    let w = after_call-WritesPage in
    let f = mounted-Fits 0 (omega arith) in
    let size : (mounted.objects 0).size ≡ 1000 = (mounted-Remounts.objects 0 (omega arith)).size in
    record {
      id = rw (w.ids 0) f.id;
      size = omega (arith, w.grown, size);
      directs = λ k lt. elim (ℕ_discrete k 1) [
        | yes here ↦ rw (here, w.entry) (omega (arith, w.in_range))
        | no other ↦ rw (w.entries 0 k (inr other)) (f.directs k lt)
      ];
      indirects = λ k lt. rw (w.indirects 0 k) (f.indirects k lt);
      key_length = f.key_length;
      key_text = f.key_text;
    }

after_call-IsStorable : IsStorable after_call
after_call-IsStorable = record {
  objects = λ n lt. elim (ℕ_discrete n 0) [
    | yes first ↦ rw first written-Fits
    | no other ↦ rw (after_call-WritesPage.others_kept n other) (mounted-Fits n lt)
  ];
  inodes = λ i lt. rw (mounted-Remounts.inodes i lt) (closing-IsStorable.inodes i lt);
  data_blocks =
      free_data_block-words marked_store
        (λ i lt. rw (mounted-Remounts.data_blocks i lt) (closing-IsStorable.data_blocks i lt));
}

session-Represents_example :
    (u : ℕ → ℕ) × (f : Files) × ServesAll
      (used mounted.inode_bitmap)
      one_page
      writes_page
      (wrote (some 100) ∷ [])
      u
      f
    × Represents true
        (objstore_init (objstore_destroy (memory_of after_call) after_call) cache_area)
        f
session-Represents_example =
    session-Represents written_image cache_area cache_area writes_page (used mounted.inode_bitmap)
      one_page after_call (wrote (some 100) ∷ []) (memory_of after_call)
      (image-IsSound (memory_of closing) closing closing-Shows closing-IsClosable) refl
      mounted-Keeps writes_page-Behaves writes_page_runs
      (memory_of-Shows after_call after_call-IsStorable)
