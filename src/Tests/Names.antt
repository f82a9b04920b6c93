-- ===== src/Tests/Names.antt =====
-- Renaming and destroying objects of assignment4/objstore.c, and the callbacks of
-- assignment4/objfs.c, at concrete inputs.
use operating_systems_assign.Base.{
  ℕ, ◌-◌, ◌<◌, ◌≡◌, refl, false, List, [], ◌∷◌, none, some, ◌==◌, if◌then◌else◌, arith,
}
use operating_systems_assign.ObjStore.Bitmap.{used}
use operating_systems_assign.ObjStore.Store.{Store, done, undefined, data_block_offset, same_text}
use operating_systems_assign.ObjStore.Lookup.{HoldsFirst, IsNumbered}
use operating_systems_assign.ObjStore.Rename.{rename_object}
use operating_systems_assign.ObjStore.Rename.Named.{Named, renamed, rename_object-duplicate}
use operating_systems_assign.ObjStore.Destroy.{free_block, destroy_object}
use operating_systems_assign.ObjStore.Destroy.Faults.{
  destroy_object-undefined, free_block_misplaced,
}
use operating_systems_assign.Fuse.{
  ok, err, ebadf, Defaults, replied, turn_one, turn_two, take_turns, objfs_getattr,
}
use operating_systems_assign.Fuse.Attributes.{objfs_getattr-found}
use operating_systems_assign.Fuse.Race.{Names, both_asked, objfs_getattr-race}
use operating_systems_assign.Base.Bits.{bit}
use operating_systems_assign.ObjStore.Create.{Creates-IsNumbered}
use operating_systems_assign.Tests.Objects.{
  name_a, name_c, two_objects, three_objects, third_found, three_objects-Creates,
  two_objects-IsNumbered, both_used,
}

abbrev defaults : Defaults
defaults = record {
  def_dirstat = record { st_ino = 0; st_size = 0; st_blocks = 0 };
  def_fstat = record { st_ino = 0; st_size = 0; st_blocks = 0 };
}

abbrev path_c : List ℕ
path_c = b'/' ∷ name_c

path_c-not_root : same_text path_c (b'/' ∷ []) ≡ false
unfolding same_text
path_c-not_root = refl

third_is_first : HoldsFirst three_objects name_c 2
third_is_first = record { held = third_found.held; first = third_found.first }

three_objects-IsNumbered : IsNumbered three_objects
three_objects-IsNumbered =
    Creates-IsNumbered two_objects name_c 2 three_objects three_objects-Creates
      two_objects-IsNumbered

objfs_getattr-found_example : objfs_getattr defaults path_c three_objects ≡ (
  record three_objects { backup = some 2 },
  ok (record { st_ino = 4; st_size = 1000; st_blocks = 2 }),
)
objfs_getattr-found_example =
    objfs_getattr-found defaults path_c three_objects 2 three_objects-IsNumbered path_c-not_root
      third_is_first

path_c-Names : Names three_objects path_c 2
path_c-Names = record { not_root = path_c-not_root; held = third_is_first }

abbrev path_a : List ℕ
path_a = b'/' ∷ name_a

path_a-Names : Names three_objects path_a 0
unfolding same_text used bit
path_a-Names = record {
  not_root = refl;
  held = record {
    held = record {
      in_range = omega arith;
      taken = refl;
      named = λ e. absurd (omega (arith, e));
      same = refl;
    };
    first = λ m lt h. absurd (omega arith);
  };
}

objfs_getattr-race_example :
    (take_turns defaults
        (turn_one ∷ turn_one ∷ turn_two ∷ turn_two ∷ [])
        (both_asked three_objects path_a path_c)
      ≡ record {
        store = record three_objects { backup = some 2 };
        one = replied (objfs_getattr defaults path_a three_objects).1;
        two = replied (objfs_getattr defaults path_c three_objects).1;
      })
    × (take_turns defaults
          (turn_one ∷ turn_two ∷ turn_one ∷ turn_two ∷ [])
          (both_asked three_objects path_a path_c)
        ≡ record {
          store = record three_objects { backup = some 2 };
          one = replied (err ebadf);
          two = replied (objfs_getattr defaults path_c three_objects).1;
        })
objfs_getattr-race_example =
    objfs_getattr-race defaults path_a path_c three_objects 0 2 three_objects-IsNumbered
      path_a-Names path_c-Names (λ e. absurd (omega (arith, e)))

abbrev twins : Store
twins = record two_objects { objects = λ n. record (two_objects.objects n) { key = name_a } }

twin : (n : ℕ) → n < 2 → Named 0 twins name_a n
unfolding same_text
twin n lt = record { in_range = omega arith; taken = both_used n lt; same = refl }

rename_object-duplicate_example :
    rename_object 0 name_a name_c twins ≡ done (renamed twins 0 name_c, none)
rename_object-duplicate_example =
    rename_object-duplicate twins name_a name_c 0 (omega arith) (twin 0 (omega arith))
      (λ m lt h. absurd (omega arith)) 1 (omega arith) (twin 1 (omega arith))

destroy_object-undefined_example : destroy_object name_a two_objects ≡ undefined
destroy_object-undefined_example =
    destroy_object-undefined two_objects name_a (λ n h. (0, omega arith, refl))

free_block_misplaced_example :
    (t : Store) × (free_block data_block_offset two_objects ≡ done t)
    × ((m : ℕ)
        → used t.data_bitmap m ≡ (
            if m == 574
            then 1 - used two_objects.data_bitmap m
            else used two_objects.data_bitmap m))
free_block_misplaced_example = free_block_misplaced two_objects 0 (omega arith)
