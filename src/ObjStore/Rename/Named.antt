-- ===== src/ObjStore/Rename/Named.antt =====
-- Which objects `rename_object` of assignment4/objstore.c renames.
use operating_systems_assign.Base.{
  ℕ, ◌/◌, ◌<◌, ◌≡◌, refl, ap, ◌∙◌, lt→ltb, Bool, true, false, List, Option, none, some, arith,
}
use native.Mathlib.Decide.{dec_lt}
use Prim.Native.Nat.add
use operating_systems_assign.Base.Arrays.{update}
use operating_systems_assign.ObjStore.Scan.{
  Hit, scan_words, Finds, found, missing, scan_words-Finds, mask_of, at_bit,
}
use operating_systems_assign.ObjStore.Bitmap.{used, is_set-used, used-le-one}
use operating_systems_assign.ObjStore.Store.{
  Store, done, undefined, inode_words, key_size, length, same_text,
}
use operating_systems_assign.ObjStore.Lookup.{inodes, inodes_per_block}
use operating_systems_assign.ObjStore.Rename.{
  place, is_named, named_later, finish, rename_first, rename_object,
}

-- Entry `n` is in use, and the object looked at in its round has the key.
pub record Named (junk : ℕ) (s : Store) (key : List ℕ) (n : ℕ) : Type 0 where
  pub in_range : n < inodes
  pub taken : used s.inode_bitmap n ≡ 1
  pub same : same_text (s.objects (place junk n)).key key ≡ true

not_both : {b : Bool} → b ≡ true → b ≡ false → ⊥
not_both p q = cc

Named-test :
    (junk : ℕ) (s : Store) (key : List ℕ) (n : ℕ)
    → Named junk s key n
    → is_named junk s key (n / 32) (mask_of n) n ≡ true
Named-test junk s key n h = ground (arith, h.same, h.taken, is_set-used s.inode_bitmap n)

test-Named :
    (junk : ℕ) (s : Store) (key : List ℕ) (n : ℕ)
    → n < inodes
    → is_named junk s key (n / 32) (mask_of n) n ≡ true
    → Named junk s key n
test-Named junk s key n lt e = record {
  in_range = lt;
  taken = ground (arith, is_set-used s.inode_bitmap n, used-le-one s.inode_bitmap n);
  same = ground arith;
}

-- With no object under the key the call reads `actual` without a value.
pub rename_object-unnamed :
    (junk : ℕ) (key newname : List ℕ) (s : Store)
    → ((n : ℕ) → ¬ Named junk s key n)
    → rename_object junk key newname s ≡ undefined
unfolding rename_object
rename_object-unnamed junk key newname s nobody =
    go _ (scan_words-Finds (is_named junk s key) inode_words 0 0 refl)
  where
    go :
        (o : Option Hit)
        → Finds (is_named junk s key) 0 inodes o
        → rename_first junk key newname s o ≡ undefined
    go o (found n above below here before e) =
        absurd (nobody n (test-Named junk s key n below here))
    go o (missing nowhere e) = rw e refl

-- The store after object `n` got its new name.
unfoldable pub renamed : Store → ℕ → List ℕ → Store
renamed s n newname = record s {
  dirty_array = update s.dirty_array (n / inodes_per_block) 1;
  objects = update s.objects n (record (s.objects n) { key = newname });
}

place-zero : (n : ℕ) → place 0 n ≡ n
place-zero n = ground arith

abbrev hit_at : ℕ → Hit
hit_at n = record { word = n / 32; mask = mask_of n; index = n }

first_hit :
    (s : Store) (key : List ℕ) (n : ℕ) (o : Option Hit)
    → Named 0 s key n
    → ((m : ℕ) → m < n → ¬ Named 0 s key m)
    → Finds (is_named 0 s key) 0 inodes o
    → o ≡ some (hit_at n)
first_hit s key n o here first (found m above below at before e) = elim (dec_lt m n) [
  | yes early ↦ absurd (first m early (test-Named 0 s key m below at))
  | no late ↦ elim (dec_lt n m) [
    | yes early ↦ absurd (not_both (Named-test 0 s key n here) (before n (omega arith) early))
    | no same ↦ e ∙ ap (λ k. some (hit_at k)) (omega arith)
  ]
]
first_hit s key n o here first (missing nowhere e) =
    absurd (not_both (Named-test 0 s key n here) (nowhere n (omega arith) here.in_range))

abbrev later_scan : Store → List ℕ → List ℕ → ℕ → Option Hit
later_scan s key newname n = scan_words (named_later 0 n (renamed s n newname) key) inode_words 0 0

rename_first_lem :
    (s : Store) (key newname : List ℕ) (n : ℕ)
    → length newname < key_size
    → rename_first 0 key newname s (some (hit_at n))
      ≡ done (finish 0 (renamed s n newname) (hit_at n) (later_scan s key newname n))
unfolding rename_first renamed
rename_first_lem s key newname n short = rw (lt→ltb _ _ short, place-zero n, add.zero n) refl

module _ (s : Store) (key newname : List ℕ) (n : ℕ) (short : length newname < key_size)
    (here : Named 0 s key n) (first : (m : ℕ) → m < n → ¬ Named 0 s key m) where
  rename_object-step :
      rename_object 0 key newname s
      ≡ done (finish 0 (renamed s n newname) (hit_at n) (later_scan s key newname n))
  unfolding rename_object
  rename_object-step =
      ap (rename_first 0 key newname s)
        (first_hit s key n _ here first (scan_words-Finds (is_named 0 s key) inode_words 0 0 refl))
      ∙ rename_first_lem s key newname n short

  Named-later :
      (m : ℕ)
      → n < m
      → Named 0 s key m
      → at_bit (named_later 0 n (renamed s n newname) key) m ≡ true
  unfolding renamed
  Named-later m lt h = ground (arith, Named-test 0 s key m h)

  something_later :
      (o : Option Hit) (k : ℕ)
      → n < k
      → Named 0 s key k
      → Finds (named_later 0 n (renamed s n newname) key) 0 inodes o
      → (h : Hit) × (o ≡ some h)
  something_later o k lt again (found m above below at before e) = (hit_at m, e)
  something_later o k lt again (missing nowhere e) =
      absurd (not_both (Named-later k lt again) (nowhere k (omega arith) again.in_range))

  -- With a new name that fits, a counter that happens to start at 0 and a second object under the
  -- old key, `rename_object` returns -1 after it has renamed the first.
  pub rename_object-duplicate :
      (k : ℕ)
      → n < k
      → Named 0 s key k
      → rename_object 0 key newname s ≡ done (renamed s n newname, none)
  unfolding finish
  rename_object-duplicate k lt again =
      let (h, e) =
        something_later _ k lt again
          (scan_words-Finds (named_later 0 n (renamed s n newname) key) inode_words 0 0 refl) in
      rename_object-step ∙ ap (λ o. done (finish 0 (renamed s n newname) (hit_at n) o)) e
