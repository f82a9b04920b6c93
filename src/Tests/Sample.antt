-- ===== src/Tests/Sample.antt =====
-- The object store of assignment4/example/objstore.c at concrete inputs.
use operating_systems_assign.Base.{
  ℕ, ◌<◌, ◌≤◌, ◌≡◌, ◌≢◌, refl, true, false, List, [], ◌∷◌, none, some, ◌==◌, ◌+◌, ◌*◌, ltb, sym,
  ◌∙◌, arith, zero, suc, if◌then◌else◌,
}
use operating_systems_assign.ObjStore.Disk.{block_size}
use operating_systems_assign.ObjStore.Store.{done, same_text}
use operating_systems_assign.Example.{
  Entry, Objfs, claim_entry, held_as, find_object_id, create_object,
}
use operating_systems_assign.Example.Content.{objstore_read, objstore_write}
use operating_systems_assign.Example.Bytes.{content}
use operating_systems_assign.Example.Writing.{behind}
use operating_systems_assign.Example.RoundTrip.{objstore_read-bytes_written}
use operating_systems_assign.Example.Table.{FirstFree}
use operating_systems_assign.Example.Creation.{Created, create_object-leaks, create_object-Created}
use operating_systems_assign.ObjStore.Disk.{write_block, success}
use operating_systems_assign.ObjStore.Destroy.{load_int}
use operating_systems_assign.ObjStore.Mount.{text_at}
use operating_systems_assign.Example.{max_objs, unused}
use operating_systems_assign.Example.Content.{obj_sync}
use operating_systems_assign.Example.Mount.{entry_at, sync_entries, objstore_init, objstore_destroy}
use operating_systems_assign.Example.Synced.{IsCoherent, on_disk}
use operating_systems_assign.Example.Remount.{HoldsTable, Kept, objstore_init-Kept}

abbrev entry : ℕ → List ℕ → Entry
entry id key = record { id = id; size = 0; cache_index = none; dirty = 0; key = key }

abbrev a_key : List ℕ
a_key = 97 ∷ []

abbrev b_key : List ℕ
b_key = 98 ∷ []

-- Entries 0 and 2 are in use, under "a" and "b".
abbrev two_objects : ℕ → Entry
two_objects zero = entry 2 a_key
two_objects (suc zero) = entry 0 []
two_objects (suc (suc zero)) = entry 4 b_key
two_objects (suc (suc (suc m))) = entry 0 []

abbrev sample : Objfs
sample = record {
  objs = two_objects;
  cache = record { base = 0; bytes = λ i. 1 };
  blkdev = record { content = λ i. 2; faulty = λ o. false };
}

sample-FirstFree : (key : List ℕ) → same_text a_key key ≡ false → FirstFree key two_objects 0 1
sample-FirstFree key differ = record { free = refl; taken = first_in_use; differ = first_differs }
  where
    first_in_use : (m : ℕ) → 0 ≤ m → m < 1 → ((two_objects m).id == 0) ≡ false
    first_in_use zero le lt = refl
    first_in_use (suc m) le lt = absurd (omega arith)

    first_differs : (m : ℕ) → 0 ≤ m → m < 1 → same_text (two_objects m).key key ≡ false
    first_differs zero le lt = differ
    first_differs (suc m) le lt = absurd (omega arith)

a_differs_from_b : same_text a_key b_key ≡ false
unfolding same_text
a_differs_from_b = refl

b_held : held_as b_key (two_objects 2) ≡ true
unfolding same_text
b_held = refl

create_object-leaks_example :
    create_object true b_key sample
    ≡ done (record sample { objs = claim_entry two_objects 1 }, none)
create_object-leaks_example =
    create_object-leaks true b_key sample 1 2 (sample-FirstFree b_key a_differs_from_b)
      (omega arith) (omega arith) b_held

abbrev c_key : List ℕ
c_key = 99 ∷ []

a_differs_from_c : same_text a_key c_key ≡ false
unfolding same_text
a_differs_from_c = refl

c_not_held : (m : ℕ) → 1 < m → held_as c_key (two_objects m) ≡ false
unfolding same_text
c_not_held zero lt = absurd (omega arith)
c_not_held (suc zero) lt = absurd (omega arith)
c_not_held (suc (suc zero)) lt = refl
c_not_held (suc (suc (suc m))) lt = refl

create_object-Created_example :
    (t : Objfs) × (create_object true c_key sample ≡ done (t, some 3))
    × Created sample c_key 1 t
    × (find_object_id c_key t ≡ some 3)
create_object-Created_example =
    create_object-Created true c_key sample 1 (sample-FirstFree c_key a_differs_from_c)
      (omega arith) (λ m lt in_table. c_not_held m lt) (omega arith)

objstore_read-bytes_written_example :
    (t u : Objfs) × (got : ℕ → ℕ) × (objstore_write true 4096 4 (λ i. 7) 3 sample
      ≡ done (t, some 3))
    × (objstore_read true 4096 4 (λ i. 0) 5 t ≡ done (u, some got))
    × ((i : ℕ) → i < 5 → got i ≡ (if ltb i 3 then 7 else behind true sample 2 i))
    × ((m i : ℕ)
        → (two_objects m).id ≢ 4
        → i < block_size
        → content true u m i ≡ content true sample m i)
objstore_read-bytes_written_example =
    objstore_read-bytes_written true 4096 2 3 5 (λ i. 7) (λ i. 0) sample
      (record {
        in_table = omega arith;
        in_use = refl;
        serves = record { aligned = refl; no_faults = λ o. refl };
        page_aligned = refl;
      })
      (omega arith) (omega arith)

-- One object, with a block in the cache that is not on the disk yet.
abbrev dirty_entry : Entry
dirty_entry = record { id = 2; size = 3; cache_index = some 2; dirty = 1; key = a_key }

abbrev blank_entry : Entry
blank_entry = record { id = 0; size = 0; cache_index = some 0; dirty = 0; key = [] }

abbrev one_object : ℕ → Entry
one_object zero = dirty_entry
one_object (suc m) = blank_entry

abbrev mounted : Objfs
mounted = record {
  objs = one_object;
  cache = record { base = 0; bytes = λ i. 1 };
  blkdev = record { content = λ i. 2; faulty = λ o. false };
}

mounted-IsCoherent : IsCoherent mounted
mounted-IsCoherent = record { numbered = ids; clean = on_the_disk; held = in_the_cache }
  where
    ids : (m : ℕ) → m < max_objs → unused (one_object m) ≡ false → (one_object m).id ≡ m + 2
    ids zero lt used = refl
    ids (suc m) lt used = absurd cc

    on_the_disk :
        (m i : ℕ)
        → m < max_objs
        → i < block_size
        → unused (one_object m) ≡ false
        → (one_object m).dirty ≡ 0
        → content true mounted m i ≡ on_disk mounted (m + 2) i
    on_the_disk zero i lt lt_i used clean = absurd (omega (arith, clean))
    on_the_disk (suc m) i lt lt_i used clean = absurd cc

    in_the_cache :
        (m i : ℕ)
        → m < max_objs
        → i < block_size
        → unused (one_object m) ≡ false
        → (one_object m).dirty ≢ 0
        → content true mounted m i ≡ 1
    in_the_cache zero i lt lt_i used dirty = refl
    in_the_cache (suc m) i lt lt_i used dirty = absurd cc

-- The bytes of the id, the size, the cache index and the key.
abbrev encode : (ℕ → Entry) → ℕ → ℕ
encode objs i =
    if i == 0 then 2 else if i == 8 then 3 else if i == 16 then 2 else if i == 24 then 97 else 0

blank_from_25 : (objs : ℕ → Entry) (i : ℕ) → 25 ≤ i → encode objs i ≡ 0
blank_from_25 objs i le = ground arith

blank_int : (objs : ℕ → Entry) (i : ℕ) → 7 ≤ i → load_int (encode objs) i ≡ 0
blank_int objs i le = ground (
  arith,
  blank_from_25 objs (4 * i),
  blank_from_25 objs (4 * i + 1),
  blank_from_25 objs (4 * i + 2),
  blank_from_25 objs (4 * i + 3),
)

read_first : (objs : ℕ → Entry) → entry_at (encode objs) 0 ≡ record dirty_entry { dirty = 0 }
unfolding entry_at text_at
read_first objs = refl

read_blank : (objs : ℕ → Entry) (m : ℕ) → entry_at (encode objs) (suc m) ≡ blank_entry
unfolding entry_at text_at
read_blank objs m =
    rw
      (
        blank_int objs (22 * suc m) (omega arith),
        blank_int objs (22 * suc m + 1) (omega arith),
        blank_int objs (22 * suc m + 2) (omega arith),
        blank_int objs (22 * suc m + 2 + 1) (omega arith),
        blank_int objs (22 * suc m + 4) (omega arith),
        blank_int objs (22 * suc m + 5) (omega arith),
        blank_from_25 objs (88 * suc m + 24) (omega arith),
      )
      refl

synced_first : (sync_entries true max_objs 0 mounted).objs 0 ≡ record dirty_entry { dirty = 0 }
unfolding sync_entries obj_sync write_block
synced_first = refl

synced_others : (m : ℕ) → (sync_entries true max_objs 0 mounted).objs (suc m) ≡ blank_entry
unfolding sync_entries obj_sync write_block
synced_others m = ground arith

mounted-HoldsTable :
    HoldsTable
      (encode (sync_entries true max_objs 0 mounted).objs)
      (sync_entries true max_objs 0 mounted).objs
mounted-HoldsTable = record {
  entries = holds;
  blank = λ i le. blank_from_25 (sync_entries true max_objs 0 mounted).objs i (omega arith);
}
  where
    holds :
        (m : ℕ)
        → m < max_objs
        → entry_at (encode (sync_entries true max_objs 0 mounted).objs) m
          ≡ (sync_entries true max_objs 0 mounted).objs m
    holds zero lt = read_first (sync_entries true max_objs 0 mounted).objs ∙ sym synced_first
    holds (suc m) lt =
        read_blank (sync_entries true max_objs 0 mounted).objs m ∙ sym (synced_others m)

objstore_init-Kept_example :
    (t u : Objfs) × (objstore_destroy true encode 4096 mounted ≡ (t, success))
    × (objstore_init true 8192 t ≡ (u, success))
    × ((m : ℕ) → m < 16 → unused (one_object m) ≡ false → Kept mounted u m)
objstore_init-Kept_example =
    objstore_init-Kept encode 4096 8192 mounted mounted-IsCoherent
      (record { aligned = refl; no_faults = λ o. refl }) refl refl mounted-HoldsTable
