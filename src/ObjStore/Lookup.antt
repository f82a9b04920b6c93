-- ===== src/ObjStore/Lookup.antt =====
-- assignment4/objstore.c: `find_target`, `find_object_id` and `fillup_size_details`.
use operating_systems_assign.Base.{
  ℕ, ◌+◌, ◌*◌, ◌/◌, ◌<◌, ◌≡◌, ◌≢◌, refl, ap, ◌∙◌, Bool-cases, ◌⊎◌, inl, inr, Bool, true, false, not,
  ◌&&◌, List, Option, none, some, ◌==◌, ltb, if◌then◌else◌, arith,
}
use native.Mathlib.Decide.{ℕ_discrete}
use operating_systems_assign.Base.Arrays.{update}
use operating_systems_assign.ObjStore.Scan.{
  Hit, scan_words, Finds, found, missing, scan_words-Finds, mask_of,
}
use operating_systems_assign.ObjStore.Bitmap.{is_set, used, is_set-used, used-le-one}
use operating_systems_assign.ObjStore.Store.{Store, inode_words, same_text}

-- `#define INODES_PER_BLOCK 46`
abbrev pub inodes_per_block : ℕ
inodes_per_block = 46

-- How many objects the bitmap governs.
abbrev pub inodes : ℕ
inodes = 32 * inode_words

-- `(inode_bitmap[i]&b) && obj->id==objid`
abbrev has_id : Store → ℕ → ℕ → ℕ → ℕ → Bool
has_id s objid i b ctr = is_set s.inode_bitmap i b && (s.objects ctr).id == objid

mark_target : Store → Bool → Option Hit → Store × Option ℕ
mark_target s set_dirty none = (s, none)
mark_target s set_dirty (some h) = (
  if set_dirty
      then record s { dirty_array = update s.dirty_array (h.index / inodes_per_block) 1 }
      else s,
  some h.index,
)

-- The object's number in the table; `none` is NULL.
unfoldable pub find_target : Store → ℕ → Bool → Store × Option ℕ
unfolding mark_target
find_target s objid set_dirty =
    mark_target s set_dirty (scan_words (has_id s objid) inode_words 0 0)

-- `(inode_bitmap[i]&b) && obj->id && !strcmp(obj->key,key)`
abbrev pub has_key : Store → List ℕ → ℕ → ℕ → ℕ → Bool
has_key s key i b ctr =
    is_set s.inode_bitmap i b
    && (not ((s.objects ctr).id == 0) && same_text (s.objects ctr).key key)

set_backup : Store → Option Hit → Store × Option ℕ
set_backup s none = (s, none)
set_backup s (some h) = (record s { backup = some h.index }, some (s.objects h.index).id)

-- The object's id; `none` is the -1.
unfoldable pub find_object_id : Store → List ℕ → Store × Option ℕ
unfolding set_backup
find_object_id s key = set_backup s (scan_words (has_key s key) inode_words 0 0)

-- The fields of `struct stat` that are read or written.
pub record Stat : Type 0 where
  pub st_ino : ℕ
  pub st_size : ℕ
  pub st_blocks : ℕ

-- The page that `backup` points at first is zero.
abbrev backup_id : Store → ℕ
backup_id s = elim s.backup [ none ↦ 0 | some n ↦ (s.objects n).id ]

abbrev backup_size : Store → ℕ
backup_size s = elim s.backup [ none ↦ 0 | some n ↦ (s.objects n).size ]

-- `none` is the -1.
unfoldable pub fillup_size_details : Store → Stat → Option Stat
fillup_size_details s buf =
    let size = backup_size s in
    if ltb buf.st_ino 2
    then none
    else if not (backup_id s == buf.st_ino)
    then none
    else some (record buf {
      st_size = size;
      st_blocks = if size / 512 * 512 == size then size / 512 else size / 512 + 1;
    })

-- Object `n` is in the table under the key.
pub record Holds (s : Store) (key : List ℕ) (n : ℕ) : Type 0 where
  pub in_range : n < inodes
  pub taken : used s.inode_bitmap n ≡ 1
  pub named : (s.objects n).id ≢ 0
  pub same : same_text (s.objects n).key key ≡ true

pub key-Holds :
    (s : Store) (key : List ℕ) (n : ℕ)
    → n < inodes
    → has_key s key (n / 32) (mask_of n) n ≡ true
    → Holds s key n
key-Holds s key n lt e = ground (arith, is_set-used s.inode_bitmap n, used-le-one s.inode_bitmap n)

pub Holds-key :
    (s : Store) (key : List ℕ) (n : ℕ) → Holds s key n → has_key s key (n / 32) (mask_of n) n ≡ true
Holds-key s key n h = ground (arith, is_set-used s.inode_bitmap n)

lt_or_eq_or_gt : (m n : ℕ) → (m < n) ⊎ (m ≡ n) ⊎ (n < m)
lt_or_eq_or_gt m n = elim (ℕ_discrete m n) [
  | yes same ↦ inr (inl same)
  | no other ↦ elim (Bool-cases (ltb m n)) [
    | inl below ↦ inl (ground arith)
    | inr above ↦ inr (inr (ground arith))
  ]
]

not_both : {b : Bool} → b ≡ true → b ≡ false → ⊥
not_both p q = cc

-- The first object under the key is found: its id is returned and `backup` points at it.
pub record FindsKey (s : Store) (key : List ℕ) (n : ℕ) (r : Store × Option ℕ) : Type 0 where
  pub held : Holds s key n
  pub first : (m : ℕ) → m < n → ¬ Holds s key m
  pub result : r ≡ (record s { backup = some n }, some (s.objects n).id)

set_backup-FindsKey :
    (s : Store) (key : List ℕ) (o : Option Hit)
    → Finds (has_key s key) 0 inodes o
    → ((n : ℕ) × FindsKey s key n (set_backup s o))
      ⊎ (((m : ℕ) → ¬ Holds s key m) × (set_backup s o ≡ (s, none)))
unfolding set_backup
set_backup-FindsKey s key o (found n above below here before e) = inl (
  n,
  rw e (record {
    held = key-Holds s key n below here;
    first = λ m lt h. not_both (Holds-key s key m h) (before m (omega arith) lt);
    result = refl;
  }),
)
set_backup-FindsKey s key o (missing nowhere e) =
    inr ((λ m h. not_both (Holds-key s key m h) (nowhere m (omega arith) h.in_range)), rw e refl)

-- `find_object_id` finds the first object under the key, and fails, changing nothing, exactly
-- when no object is held under it.
pub find_object_id_lem :
    (s : Store) (key : List ℕ)
    → ((n : ℕ) × FindsKey s key n (find_object_id s key))
      ⊎ (((m : ℕ) → ¬ Holds s key m) × (find_object_id s key ≡ (s, none)))
unfolding find_object_id
find_object_id_lem s key =
    set_backup-FindsKey s key _ (scan_words-Finds (has_key s key) inode_words 0 0 refl)

-- Object `n` is the first that is held under the key.
pub record HoldsFirst (s : Store) (key : List ℕ) (n : ℕ) : Type 0 where
  pub held : Holds s key n
  pub first : (m : ℕ) → m < n → ¬ Holds s key m

pub find_object_id-HoldsFirst :
    (s : Store) (key : List ℕ) (n : ℕ)
    → HoldsFirst s key n
    → find_object_id s key ≡ (record s { backup = some n }, some (s.objects n).id)
find_object_id-HoldsFirst s key n h = elim (find_object_id_lem s key) [
  | inr (nowhere, e) ↦ absurd (nowhere n h.held)
  | inl (m, got) ↦ elim (lt_or_eq_or_gt m n) [
    | inl less ↦ absurd (h.first m less got.held)
    | inr (inl same) ↦
        got.result ∙ ap (λ k. (record s { backup = some k }, some (s.objects k).id)) same
    | inr (inr more) ↦ absurd (got.first n more h.held)
  ]
]

-- Every object in the table carries the id of its place, counted from 2.
abbrev pub IsNumbered : Store → Type 0
IsNumbered s = (n : ℕ) → n < inodes → used s.inode_bitmap n ≡ 1 → (s.objects n).id ≡ n + 2

mark_target-lem :
    (s : Store) (n : ℕ) (d : Bool) (o : Option Hit)
    → IsNumbered s
    → n < inodes
    → used s.inode_bitmap n ≡ 1
    → Finds (has_id s (n + 2)) 0 inodes o
    → mark_target s d o ≡ (
      if d then record s { dirty_array = update s.dirty_array (n / inodes_per_block) 1 } else s,
      some n,
    )
unfolding mark_target
mark_target-lem s n d o ok lt at (found m above below here before e) =
    let same : m ≡ n =
      ground (arith, ok m below, is_set-used s.inode_bitmap m, used-le-one s.inode_bitmap m) in
    rw (e, same) refl
mark_target-lem s n d o ok lt at (missing nowhere e) =
    absurd (ground (arith, ok n lt at, nowhere n (omega arith) lt, is_set-used s.inode_bitmap n))

-- On a well-numbered store the handle of an object in use leads back to it, and marks its inode
-- block dirty if that is asked for.
pub find_target_lem :
    (s : Store) (n : ℕ) (d : Bool)
    → IsNumbered s
    → n < inodes
    → used s.inode_bitmap n ≡ 1
    → find_target s (n + 2) d ≡ (
      if d then record s { dirty_array = update s.dirty_array (n / inodes_per_block) 1 } else s,
      some n,
    )
unfolding find_target
find_target_lem s n d ok lt at =
    mark_target-lem s n d _ ok lt at (scan_words-Finds (has_id s (n + 2)) inode_words 0 0 refl)
