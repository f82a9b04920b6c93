-- ===== src/Tests/Objects.antt =====
-- The objects of assignment4/objstore.c at concrete inputs.
use operating_systems_assign.Base.{
  ℕ, zero, suc, ◌+◌, ◌*◌, ◌^◌, ◌<◌, ◌≡◌, refl, ◌⊎◌, inr, true, false, List, [], ◌∷◌, none, some,
  ◌==◌, if◌then◌else◌, arith,
}
use operating_systems_assign.Base.Bits.{bit}
use operating_systems_assign.Base.Arrays.{update}
use operating_systems_assign.ObjStore.Disk.{block_size}
use operating_systems_assign.ObjStore.Cache.{BlockStore}
use operating_systems_assign.ObjStore.Cache.View.{IsCoherent}
use operating_systems_assign.ObjStore.Scan.{scan_words, scan_word}
use operating_systems_assign.ObjStore.Bitmap.{used, set_bit, used-set_bit}
use operating_systems_assign.ObjStore.Store.{Object, Store, done, data_block_offset, same_text}
use operating_systems_assign.ObjStore.Alloc.{
  data_blocks, Takes, free_data_block, free_data_block_lem,
}
use operating_systems_assign.ObjStore.Lookup.{
  inodes, find_target, find_object_id, Holds, FindsKey, IsNumbered, find_object_id_lem,
  find_target_lem,
}
use operating_systems_assign.ObjStore.Create.{
  create_object, Creates, create_object_lem, find_object_id-created, Creates-found,
  Creates-IsNumbered,
}
use operating_systems_assign.ObjStore.Data.{store_int, objstore_write, objstore_read}
use operating_systems_assign.ObjStore.Destroy.{load_int}
use operating_systems_assign.ObjStore.Data.Ints.{load_int-store_int}
use operating_systems_assign.ObjStore.Data.Direct.{WritesPage, objstore_write-WritesPage}
use operating_systems_assign.ObjStore.Data.Reading.{ReadsPage, objstore_read-ReadsPage}
use operating_systems_assign.ObjStore.Data.RoundTrip.{
  RoundTrips, SameReads, objstore_read-written, objstore_write-frame,
}

abbrev pub no_blocks : BlockStore
no_blocks = record {
  disk = record { content = λ _. 0; faulty = λ _. false };
  cache = record { base = 0; bytes = λ _. 0 };
  cache_index = λ _. none;
  cache_dirty = λ _. 0;
}

pub no_blocks-IsCoherent : IsCoherent no_blocks
no_blocks-IsCoherent = record {
  serves = record { aligned = refl; no_faults = λ o. refl };
  unused = λ j e. ground arith;
  clean = λ j lt d k i e h. cc;
}

abbrev pub name_a : List ℕ
name_a = b'a' ∷ []

abbrev pub name_b : List ℕ
name_b = b'b' ∷ []

-- The first two objects are in use, under the keys `a` and `b`; the first holds block 0.
abbrev pub two_objects : Store
two_objects = record {
  objects = λ n. record {
    id = n + 2;
    size = 1000;
    direct = λ _. data_block_offset;
    indirect = λ _. 0;
    key = if n == 0 then name_a else if n == 1 then name_b else [];
  };
  backup = none;
  inode_bitmap = update (λ _. 0) 0 0xc000_0000;
  data_bitmap = update (λ _. 0) 0 0x8000_0000;
  dirty_array = λ _. 0;
  blocks = no_blocks;
}

pub two_objects-IsNumbered : IsNumbered two_objects
two_objects-IsNumbered n lt u = refl

pub first_used : used two_objects.inode_bitmap 0 ≡ 1
unfolding used bit
first_used = refl

second_free : used two_objects.data_bitmap 1 ≡ 0
unfolding used bit
second_free = refl

first_block_used : used two_objects.data_bitmap 0 ≡ 1
unfolding used bit
first_block_used = refl

free_data_block_lem_example :
    ((n : ℕ) × Takes two_objects n (free_data_block two_objects))
    ⊎ (((m : ℕ) → m < data_blocks → used two_objects.data_bitmap m ≡ 1)
        × (free_data_block two_objects ≡ (two_objects, none)))
free_data_block_lem_example = free_data_block_lem two_objects

find_object_id_lem_example :
    ((n : ℕ) × FindsKey two_objects name_b n (find_object_id two_objects name_b))
    ⊎ (((m : ℕ) → ¬ Holds two_objects name_b m)
        × (find_object_id two_objects name_b ≡ (two_objects, none)))
find_object_id_lem_example = find_object_id_lem two_objects name_b

find_target_lem_example :
    find_target two_objects 2 true
    ≡ (record two_objects { dirty_array = update two_objects.dirty_array 0 1 }, some 0)
find_target_lem_example =
    find_target_lem two_objects 0 true two_objects-IsNumbered (omega arith) first_used

create_object_lem_example :
    ((n : ℕ) × (t : Store) × (create_object name_a two_objects ≡ done (t, some (n + 2)))
      × Creates two_objects name_a n t)
    ⊎ (((m : ℕ) → m < inodes → used two_objects.inode_bitmap m ≡ 1)
        × (create_object name_a two_objects ≡ done (two_objects, none)))
create_object_lem_example = create_object_lem two_objects name_a (omega arith)

objstore_write-WritesPage_example :
    (k : ℕ) × (t : Store) × (objstore_write true 2 (λ i. i) 4096 (block_size * 1) two_objects
      ≡ done (t, some 4096))
    × WritesPage true two_objects 0 1 (λ i. i) 4096 k t
objstore_write-WritesPage_example =
    objstore_write-WritesPage true two_objects 0 1 (λ i. i) 4096 1 no_blocks-IsCoherent
      two_objects-IsNumbered (omega arith) first_used (omega arith) (omega arith) (omega arith)
      second_free

objstore_read-ReadsPage_example :
    (r : Store × (ℕ → ℕ)) × (objstore_read true 2 (λ _. 0) 100 (block_size * 1) two_objects
      ≡ done r)
    × ReadsPage true two_objects 0 1 100 (λ _. 0) r
objstore_read-ReadsPage_example =
    objstore_read-ReadsPage true two_objects 0 1 100 (λ _. 0) no_blocks-IsCoherent
      two_objects-IsNumbered (omega arith) first_used (omega arith) (omega arith) (omega arith)

objstore_read-written_example :
    (t : Store) × (objstore_write true 2 (λ i. i) 100 (block_size * 1) two_objects
      ≡ done (t, some 100))
    × RoundTrips true 2 (block_size * 1) (λ i. i) 100 (λ _. 0) t
objstore_read-written_example =
    objstore_read-written true two_objects 0 1 (λ i. i) (λ _. 0) 100 1 no_blocks-IsCoherent
      two_objects-IsNumbered (omega arith) first_used (omega arith) (omega arith) (omega arith)
      (omega arith) second_free

objstore_write-frame_example :
    (t : Store) × (objstore_write true 2 (λ i. i) 100 (block_size * 1) two_objects
      ≡ done (t, some 100))
    × SameReads true 2 (block_size * 0) 50 (λ _. 0) two_objects t
objstore_write-frame_example =
    objstore_write-frame true two_objects 0 1 (λ i. i) (λ _. 0) 100 1 0 0 0 50 no_blocks-IsCoherent
      two_objects-IsNumbered (omega arith) first_used (omega arith) (omega arith) (omega arith)
      second_free (omega arith) first_used (omega arith) (inr (λ e. absurd (omega arith))) refl
      first_block_used (omega arith) (omega arith)

load_int-store_int_example :
    load_int (store_int (λ _. 0) 1 70000) 1 ≡ (if 1 == 1 then 70000 else load_int (λ _. 0) 1)
load_int-store_int_example = load_int-store_int (λ _. 0) 1 70000 1 (omega arith)

abbrev pub name_c : List ℕ
name_c = b'c' ∷ []

abbrev numbered : ℕ → Object
numbered = update two_objects.objects 2 (record (two_objects.objects 2) { id = 4 })

-- A third object, under the key `c`.
abbrev pub three_objects : Store
three_objects = record two_objects {
  inode_bitmap = set_bit two_objects.inode_bitmap 0 (2 ^ 29);
  dirty_array = update two_objects.dirty_array 0 1;
  objects = update numbered 2 (record (numbered 2) { key = name_c });
}

pub both_used : (m : ℕ) → m < 2 → used two_objects.inode_bitmap m ≡ 1
unfolding used bit
both_used zero lt = refl
both_used (suc zero) lt = refl
both_used (suc (suc m)) lt = absurd (omega arith)

pub three_objects-Creates : Creates two_objects name_c 2 three_objects
unfolding used bit
three_objects-Creates = record {
  in_range = omega arith;
  was_free = refl;
  lowest = both_used;
  taken = used-set_bit two_objects.inode_bitmap 2;
  object = λ m. ground arith;
  dirty = refl;
  data_blocks = refl;
  below = refl;
  last = refl;
}

c_is_new : (m : ℕ) → ¬ Holds two_objects name_c m
unfolding same_text
c_is_new m h = ground (arith, h.same)

third_created : create_object name_c two_objects ≡ done (three_objects, some 4)
unfolding create_object scan_words scan_word
third_created = refl

find_object_id-created_example :
    (n : ℕ) × (4 ≡ n + 2)
    × (find_object_id three_objects name_c ≡ (record three_objects { backup = some n }, some 4))
find_object_id-created_example =
    find_object_id-created two_objects three_objects name_c 4 (omega arith) c_is_new third_created

Creates-IsNumbered_example : (three_objects.objects 2).id ≡ 4
unfolding used bit
Creates-IsNumbered_example =
    Creates-IsNumbered two_objects name_c 2 three_objects three_objects-Creates
      two_objects-IsNumbered 2 (omega arith) refl

third_held : Holds three_objects name_c 2
unfolding used bit same_text
third_held = record {
  in_range = omega arith;
  taken = refl;
  named = λ e. absurd (omega (arith, e));
  same = refl;
}

third_first : (m : ℕ) → m < 2 → ¬ Holds three_objects name_c m
unfolding same_text
third_first m lt h = ground (arith, h.same)

pub third_found : FindsKey three_objects name_c 2 (find_object_id three_objects name_c)
third_found = record {
  held = third_held;
  first = third_first;
  result = Creates-found two_objects name_c 2 three_objects three_objects-Creates c_is_new;
}
