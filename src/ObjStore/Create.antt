-- ===== src/ObjStore/Create.antt =====
-- assignment4/objstore.c: `create_object`. The search and the change of the bitmap run under
-- `i_lock`; the copy of the key comes after it, and no other call is taken in between here.
use operating_systems_assign.Base.{
  ℕ, ◌+◌, ◌/◌, ◌<◌, ◌≡◌, refl, sym, ap, ◌∙◌, lt→ltb, ◌⊎◌, inl, inr, true, false, List, Option, none,
  some, ◌==◌, ltb, if◌then◌else◌, arith,
}
use native.Mathlib.Decide.{ℕ_discrete}
use operating_systems_assign.Base.Arrays.{update}
use operating_systems_assign.ObjStore.Scan.{
  Hit, scan_words, Finds, found, missing, scan_words-Finds, mask_of,
}
use operating_systems_assign.ObjStore.Bitmap.{is_free, free-used, set_bit, used, used-set_bit}
use operating_systems_assign.ObjStore.Store.{
  Object, Store, Outcome, done, undefined, ◌>>=◌, inode_words, key_size, length, same_text_refl,
}
use operating_systems_assign.ObjStore.Lookup.{
  inodes, inodes_per_block, Holds, IsNumbered, find_object_id, find_object_id_lem,
}

-- `strcpy` into `char key[32]`: a text of 32 characters or more runs over the end.
abbrev pub strcpy_key : Object → List ℕ → Outcome Object
strcpy_key o text = if ltb (length text) key_size then done (record o { key = text }) else undefined

-- The object at the hit is taken and gets its id.
unfoldable pub take_inode : Store → Hit → Store
take_inode s h = record s {
  inode_bitmap = set_bit s.inode_bitmap h.word h.mask;
  dirty_array = update s.dirty_array (h.index / inodes_per_block) 1;
  objects = update s.objects h.index (record (s.objects h.index) { id = h.index + 2 });
}

name_object : List ℕ → Store → Option Hit → Outcome (Store × Option ℕ)
unfolding take_inode
name_object key s none = done (s, none)
name_object key s (some h) =
    let t = take_inode s h in
    strcpy_key (t.objects h.index) key >>= λ o.
    done (record t { objects = update t.objects h.index o }, some o.id)

-- The new object's id; `none` is the -1 of a full table.
unfoldable pub create_object : List ℕ → Store → Outcome (Store × Option ℕ)
unfolding name_object
create_object key s = name_object key s (scan_words (is_free s.inode_bitmap) inode_words 0 0)

-- Object `n`, the first free one, now has the key and the id `n + 2`; its other fields are what
-- they were, and so is every other object.
pub record Creates (s : Store) (key : List ℕ) (n : ℕ) (t : Store) : Type 0 where
  pub in_range : n < inodes
  pub was_free : used s.inode_bitmap n ≡ 0
  pub lowest : (m : ℕ) → m < n → used s.inode_bitmap m ≡ 1
  pub taken : (m : ℕ) → used t.inode_bitmap m ≡ (if m == n then 1 else used s.inode_bitmap m)
  pub object :
      (m : ℕ)
      → t.objects m
        ≡ (if m == n then record (s.objects n) { id = n + 2; key = key } else s.objects m)
  pub dirty : t.dirty_array ≡ update s.dirty_array (n / inodes_per_block) 1
  pub data_blocks : t.data_bitmap ≡ s.data_bitmap
  pub below : t.blocks ≡ s.blocks
  pub last : t.backup ≡ s.backup

name_object-Creates :
    (s : Store) (key : List ℕ) (o : Option Hit)
    → length key < key_size
    → Finds (is_free s.inode_bitmap) 0 inodes o
    → ((n : ℕ) × (t : Store) × (name_object key s o ≡ done (t, some (n + 2))) × Creates s key n t)
      ⊎ (((m : ℕ) → m < inodes → used s.inode_bitmap m ≡ 1)
          × (name_object key s o ≡ done (s, none)))
unfolding name_object
name_object-Creates s key o short (found n above below here before e) = inl (
  n,
  after,
  rw (e, lt→ltb _ _ short) (ap (λ id. done (after, some id)) (ground arith)),
  record {
    in_range = below;
    was_free = free-used s.inode_bitmap n true here;
    lowest = λ m h. free-used s.inode_bitmap m false (before m (omega arith) h);
    taken = used-set_bit s.inode_bitmap n;
    object = λ m. ground arith;
    dirty = refl;
    data_blocks = refl;
    below = refl;
    last = refl;
  },
)
  where
    taken : Store
    taken = take_inode s (record { word = n / 32; mask = mask_of n; index = n })

    after : Store
    after = record taken {
      objects = update taken.objects n (record (taken.objects n) { key = key });
    }
name_object-Creates s key o short (missing nowhere e) =
    inr ((λ m h. free-used s.inode_bitmap m false (nowhere m (omega arith) h)), rw e refl)

-- Given a key that fits, `create_object` takes the first free object and names it, whatever
-- keys are in use, and fails, changing nothing, exactly when every object is taken.
pub create_object_lem :
    (s : Store) (key : List ℕ)
    → length key < key_size
    → ((n : ℕ) × (t : Store) × (create_object key s ≡ done (t, some (n + 2))) × Creates s key n t)
      ⊎ (((m : ℕ) → m < inodes → used s.inode_bitmap m ≡ 1)
          × (create_object key s ≡ done (s, none)))
unfolding create_object
create_object_lem s key short =
    name_object-Creates s key _ short
      (scan_words-Finds (is_free s.inode_bitmap) inode_words 0 0 refl)

module _ (s : Store) (key : List ℕ) (n : ℕ) (t : Store) (new : Creates s key n t) where
  -- A creation leaves a well-numbered store well-numbered: every object in use has the id of its
  -- place.
  pub Creates-IsNumbered : IsNumbered s → IsNumbered t
  Creates-IsNumbered ok m lt at = ground (arith, new.taken m, new.object m, ok m lt)

  -- What is held under another key is held as before.
  pub Creates-Holds : (k : List ℕ) (m : ℕ) → Holds t k m → (m ≡ n) ⊎ Holds s k m
  Creates-Holds k m h = elim (ℕ_discrete m n) [
    | yes same ↦ inl same
    | no other ↦ inr (record {
      in_range = h.in_range;
      taken = ground (arith, h.taken, new.taken m);
      named = ground (arith, h.named, new.object m);
      same = ground (arith, h.same, new.object m);
    })
  ]

  Creates-Holds_new : Holds t key n
  Creates-Holds_new = record {
    in_range = new.in_range;
    taken = ground (arith, new.taken n);
    named = ground (arith, new.object n);
    same = ground (arith, new.object n, same_text_refl key);
  }

  pub Creates-found :
      ((m : ℕ) → ¬ Holds s key m)
      → find_object_id t key ≡ (record t { backup = some n }, some (n + 2))
  Creates-found fresh = elim (find_object_id_lem t key) [
    | inl (m, got) ↦ elim (Creates-Holds key m got.held) [
      | inl same ↦ got.result ∙ ground (arith, new.object n)
      | inr old ↦ absurd (fresh m old)
    ]
    | inr (nowhere, e) ↦ absurd (nowhere n Creates-Holds_new)
  ]

abbrev part_of : Store × Option ℕ → Outcome (Store × Option ℕ) → Store × Option ℕ
part_of r (done a) = a
part_of r undefined = r

same_outcome :
    (s t : Store) (o p : Option ℕ)
    → ◌≡◌ {A = Outcome (Store × Option ℕ)} (done (s, o)) (done (t, p))
    → (s ≡ t) × (o ≡ p)
same_outcome s t o p e = let r = ap (part_of (s, o)) e in (ap (λ x. x.0) r, ap (λ x. x.1) r)

-- When `create_object` returns an id for a key that fits and that no object was held under, then
-- `find_object_id` finds that key: it returns the same id, and `backup` points at the object, whose
-- place the id counts from 2.
pub find_object_id-created :
    (s t : Store) (key : List ℕ) (id : ℕ)
    → length key < key_size
    → ((m : ℕ) → ¬ Holds s key m)
    → create_object key s ≡ done (t, some id)
    → (n : ℕ) × (id ≡ n + 2) × (find_object_id t key ≡ (record t { backup = some n }, some id))
find_object_id-created s t key id short fresh made = elim (create_object_lem s key short) [
  | inl (n, t', e, new) ↦
      let (same, ids) = same_outcome t t' (some id) (some (n + 2)) (sym made ∙ e) in
      let number : id ≡ n + 2 = ground (arith, ids) in
      (n, number, rw (same, number) (Creates-found s key n t' new fresh))
  | inr (full, e) ↦ let (same, ids) = same_outcome t s (some id) none (sym made ∙ e) in absurd cc
]
