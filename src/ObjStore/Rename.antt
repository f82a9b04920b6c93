-- ===== src/ObjStore/Rename.antt =====
-- assignment4/objstore.c: `rename_object`. Its counter `ctr` has no initial value: the value that
-- it happens to have is the argument `junk`.
pub mod Named
use operating_systems_assign.Base.{
  ℕ, ◌+◌, ◌/◌, ◌<◌, ◌≡◌, refl, ap, ◌∙◌, lt→ltb, Bool, true, false, ◌&&◌, List, Option, none, some,
  ◌==◌, ltb, if◌then◌else◌, arith,
}
use native.Mathlib.Decide.{dec_lt}
use Prim.Native.Nat.add
use operating_systems_assign.Base.Arrays.{update}
use operating_systems_assign.ObjStore.Scan.{
  Hit, scan_words, Finds, found, missing, scan_words-Finds, mask_of, at_bit,
}
use operating_systems_assign.ObjStore.Bitmap.{is_set, used, is_set-used, used-le-one}
use operating_systems_assign.ObjStore.Store.{
  Store, Outcome, done, undefined, ◌>>=◌, inode_words, key_size, length, same_text,
}
use operating_systems_assign.ObjStore.Lookup.{inodes, inodes_per_block}
use operating_systems_assign.ObjStore.Create.{strcpy_key}

-- `obj` is `a` in the first round, and `a + ctr` after each `ctr++`.
abbrev pub place : ℕ → ℕ → ℕ
place junk n = if n == 0 then 0 else junk + n

-- `(inode_bitmap[i]&b) && !strcmp(obj->key,key)`
abbrev pub is_named : ℕ → Store → List ℕ → ℕ → ℕ → ℕ → Bool
is_named junk s key i b n =
    is_set s.inode_bitmap i b && same_text (s.objects (place junk n)).key key

-- The test for a second object under the old key, in the rounds after `first`.
abbrev pub named_later : ℕ → ℕ → Store → List ℕ → ℕ → ℕ → ℕ → Bool
named_later junk first s key i b n = ltb first n && is_named junk s key i b n

-- `dirty_array[ctr/46] = 1; strcpy(obj->key,newname);`
unfoldable pub rename_at : ℕ → Store → List ℕ → Hit → Outcome Store
rename_at junk s newname h =
    let n = place junk h.index in
    strcpy_key (s.objects n) newname >>= λ o. done (record s {
      dirty_array = update s.dirty_array ((junk + h.index) / inodes_per_block) 1;
      objects = update s.objects n o;
    })

finish : ℕ → Store → Hit → Option Hit → Store × Option ℕ
finish junk s h none = (s, some (s.objects (place junk h.index)).id)
finish junk s h (some again) = (s, none)

rename_first : ℕ → List ℕ → List ℕ → Store → Option Hit → Outcome (Store × Option ℕ)
unfolding rename_at finish
rename_first junk key newname s none = undefined
rename_first junk key newname s (some h) = rename_at junk s newname h >>= λ t.
    done (finish junk t h (scan_words (named_later junk h.index t key) inode_words 0 0))

-- The id of the renamed object; `none` is the -1. Where no object is found, `actual` is read
-- without a value.
unfoldable pub rename_object : ℕ → List ℕ → List ℕ → Store → Outcome (Store × Option ℕ)
unfolding rename_first
rename_object junk key newname s =
    rename_first junk key newname s (scan_words (is_named junk s key) inode_words 0 0)
