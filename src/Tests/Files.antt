-- ===== src/Tests/Files.antt =====
-- The pages that a store of assignment4/objstore.c holds, at concrete inputs.
use operating_systems_assign.Base.{
  ℕ, zero, suc, ◌+◌, ◌*◌, ◌/◌, ◌<◌, ◌≤◌, ◌≡◌, refl, sym, ap, ◌∙◌, ◌%◌, ◌-◌, Bool-cases, inl, inr,
  true, false, ◌&&◌, List, [], ◌∷◌, none, some, ◌==◌, if◌then◌else◌, arith,
}
use operating_systems_assign.Base.Bits.{bit}
use operating_systems_assign.Base.Arrays.{update}
use operating_systems_assign.ObjStore.Disk.{block_size}
use operating_systems_assign.ObjStore.Cache.Transparent.{blocks}
use operating_systems_assign.ObjStore.Cache.View.{view}
use operating_systems_assign.ObjStore.Bitmap.{used}
use operating_systems_assign.ObjStore.Store.{Store, done}
use operating_systems_assign.ObjStore.Alloc.{data_blocks}
use operating_systems_assign.ObjStore.Data.{objstore_write, objstore_read}
use operating_systems_assign.ObjStore.Data.Layout.{
  Place, page, table, Files, Live, Represents, no_files, no_files-Represents, page_block,
  place_block,
}
use operating_systems_assign.ObjStore.Data.Since.{Since}
use operating_systems_assign.ObjStore.Data.Room.{Room}
use operating_systems_assign.ObjStore.Data.Files.{no_files-IsOwned, bytes_at, put, IsWritable}
use operating_systems_assign.ObjStore.Data.Direct.{padded}
use operating_systems_assign.ObjStore.Data.Reading.{ReadsFile, objstore_read-ReadsFile}
use operating_systems_assign.ObjStore.Data.Refines.{marked, WritesFile, objstore_write-WritesFile}
use operating_systems_assign.ObjStore.Data.Forgotten.{objstore_write-forgets}
use operating_systems_assign.ObjStore.Data.Calls.{
  Call, create, write, read, Answer, created, got, wrote, Serves, writes, may_create, may_write,
  may_read, Behaves,
}
use operating_systems_assign.ObjStore.Data.Runs.{ServesCalls, run-ServesAll}
use operating_systems_assign.Tests.Objects.{
  name_a, two_objects, two_objects-IsNumbered, first_used, no_blocks-IsCoherent,
}

pub Room-from :
    (m b : ℕ) (u : ℕ → ℕ)
    → ((i : ℕ) → b ≤ i → i < data_blocks → u i ≡ 0)
    → b + m ≤ data_blocks
    → Room m u
unfolding Room
Room-from zero b u free le = tt
Room-from (suc m) b u free le = (
  b,
  omega arith,
  free b (omega arith) (omega arith),
  Room-from m (suc b) (update u b 1) (λ i ge lt. ground (arith, free i (omega arith) lt))
      (omega arith),
)

zero_bit : (k : ℕ) → bit 0 k ≡ 0
unfolding bit
zero_bit zero = refl
zero_bit (suc k) = zero_bit k

pub free_after_first : (i : ℕ) → 32 ≤ i → used two_objects.data_bitmap i ≡ 0
unfolding used bit
free_after_first i ge =
    let word : two_objects.data_bitmap (i / 32) ≡ 0 = ground arith in
    ap (λ w. bit w (31 - i % 32)) word ∙ zero_bit (31 - i % 32)

has-Room : (m : ℕ) → m < 1000 → Room m (used two_objects.data_bitmap)
has-Room m lt =
    Room-from m 32 (used two_objects.data_bitmap) (λ i ge i_lt. free_after_first i ge) (omega arith)

empty : Represents true two_objects no_files
empty = no_files-Represents true two_objects no_blocks-IsCoherent two_objects-IsNumbered

page_4-IsWritable : IsWritable no_files 0 4
page_4-IsWritable = record { in_range = omega arith; table_ready = λ ge e. cc }

objstore_write-WritesFile_example :
    (t : Store) × (objstore_write true 2 (λ i. i) 100 (block_size * 4) two_objects
      ≡ done (t, some 100))
    × WritesFile true (marked 0 two_objects) no_files 0 4 (λ i. i) 100 0 t
objstore_write-WritesFile_example =
    objstore_write-WritesFile true two_objects no_files 0 4 (λ i. i) 100 0 empty (omega arith)
      first_used page_4-IsWritable (omega arith) (has-Room 2 (omega arith))

objstore_write-forgets_example :
    (t : Store) × (r : Store × (ℕ → ℕ)) × (objstore_write true 2
        (λ i. i)
        100
        (block_size * 4)
        two_objects
      ≡ done (t, some 100))
    × (objstore_read true 2 (λ _. 0) 50 (block_size * 5) t ≡ done r)
    × ((i : ℕ) → i < 50 → r.1 i ≡ blocks true two_objects.blocks 0 i)
objstore_write-forgets_example =
    objstore_write-forgets true two_objects 0 4 5 (λ i. i) (λ _. 0) 100 50 no_blocks-IsCoherent
      two_objects-IsNumbered (omega arith) first_used (omega arith) (omega arith) (omega arith) refl
      (has-Room 2 (omega arith)) refl (omega arith) (omega arith) (omega arith) (omega arith)

-- The first page of the first object is there.
abbrev pub one_page : Files
one_page = record {
  pages = λ n a. if n == 0 && a == 0 then some (λ _. 0) else none;
  tables = λ n k. false;
}

one_page-only : (p : Place) → Live one_page p → p ≡ page 0 0
one_page-only (page n a) h =
    let e : n ≡ 0 = ground arith in let e' : a ≡ 0 = ground arith in λ i. page (e i) (e' i)
one_page-only (table n k) h = cc

one_page-bytes : (n a : ℕ) (bytes : ℕ → ℕ) → one_page.pages n a ≡ some bytes → (i : ℕ) → 0 ≡ bytes i
one_page-bytes n a bytes e i = elim (Bool-cases (n == 0 && a == 0)) [
  | inl here ↦ sym (bytes_at (λ _. 0) bytes i (rw here at e))
  | inr gone ↦ absurd (ground (arith, e, gone))
]

pub one_page-Represents : Represents true two_objects one_page
unfolding page_block place_block blocks view used bit
one_page-Represents = record {
  ready = no_blocks-IsCoherent;
  numbered = two_objects-IsNumbered;
  taken = λ p h.
      rw (one_page-only p h)
        (record { index = 0; number = refl; in_range = omega arith; marked = refl });
  apart = λ p q h h' e. one_page-only p h ∙ sym (one_page-only q h');
  behind = λ n a h. (ground arith, λ ge. ground arith);
  holds = λ n a bytes e i lt. one_page-bytes n a bytes e i;
}

objstore_read-ReadsFile_example :
    (r : Store × (ℕ → ℕ)) × (objstore_read true 2 (λ _. 9) 100 (block_size * 0) two_objects
      ≡ done r)
    × ReadsFile true two_objects one_page (λ _. 0) (λ _. 9) 100 r
objstore_read-ReadsFile_example =
    objstore_read-ReadsFile true two_objects one_page 0 0 100 (λ _. 0) (λ _. 9) one_page-Represents
      (omega arith) first_used refl (omega arith) (omega arith)

-- Two pages behind an indirect block are written, the second is read, and an object is created.
abbrev some_calls : List Call
some_calls =
    write 0 4 (λ i. i) 100 ∷ write 0 5 (λ i. i + 1) 200 ∷ read 0 5 (λ _. 0) 50 ∷ create name_a ∷ []

abbrev in_use : ℕ → ℕ
in_use = used two_objects.inode_bitmap

abbrev files_1 : Files
files_1 = put no_files 0 4 (padded (λ i. i) 100)

abbrev files_2 : Files
files_2 = put files_1 0 5 (padded (λ i. i + 1) 200)

page_5-IsWritable : IsWritable files_1 0 5
page_5-IsWritable = record { in_range = omega arith; table_ready = λ ge e. refl }

-- The last call may be made, whatever came before it.
then_create :
    (answer : Answer) (u' : ℕ → ℕ) (f' : Files)
    → Serves in_use files_2 (read 0 5 (λ _. 0) 50) answer u' f'
    → Behaves u' f' (create name_a ∷ [])
unfolding Behaves
then_create answer u' f' served = (may_create (omega arith), λ b v g s. tt)

then_read :
    (answer : Answer) (u' : ℕ → ℕ) (f' : Files)
    → Serves in_use files_1 (write 0 5 (λ i. i + 1) 200) answer u' f'
    → Behaves u' f' (read 0 5 (λ _. 0) 50 ∷ create name_a ∷ [])
unfolding Behaves
then_read (created o) u' f' served = elim served [ ]
then_read (got b) u' f' served = elim served [ ]
then_read (wrote o) u' f' writes =
    (may_read (omega arith) first_used refl (omega arith) (omega arith), then_create)

then_write :
    (answer : Answer) (u' : ℕ → ℕ) (f' : Files)
    → Serves in_use no_files (write 0 4 (λ i. i) 100) answer u' f'
    → Behaves u' f' (write 0 5 (λ i. i + 1) 200 ∷ read 0 5 (λ _. 0) 50 ∷ create name_a ∷ [])
unfolding Behaves
then_write (created o) u' f' served = elim served [ ]
then_write (got b) u' f' served = elim served [ ]
then_write (wrote o) u' f' writes =
    (may_write (omega arith) first_used page_5-IsWritable (omega arith) (omega arith), then_read)

some_calls-Behaves : Behaves in_use no_files some_calls
unfolding Behaves
some_calls-Behaves =
    (may_write (omega arith) first_used page_4-IsWritable (omega arith) (omega arith), then_write)

nothing_called : Since two_objects two_objects
nothing_called = record {
  lines = λ j k lt e. cc;
  before = λ b i lt i_lt. refl;
  unmarked = λ n e. refl;
}

run-ServesAll_example : ServesCalls true two_objects two_objects in_use no_files some_calls
run-ServesAll_example =
    run-ServesAll true some_calls two_objects two_objects in_use no_files
      (record {
        represents = empty;
        owned = no_files-IsOwned;
        since = nothing_called;
        in_use = refl;
        room_left = has-Room 8 (omega arith);
      })
      some_calls-Behaves
