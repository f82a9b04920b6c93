-- ===== src/Example/Creation.antt =====
-- `create_object` of assignment4/example/objstore.c: what it takes, and what a key that is in use
-- leaves behind.
use operating_systems_assign.Base.{
  ℕ, suc, ◌+◌, ◌-◌, ◌<◌, ◌≤◌, ◌≡◌, refl, ap, ◌∙◌, Bool, true, false, List, none, some, ◌==◌,
  if◌then◌else◌, arith, lt→ltb,
}
use operating_systems_assign.Base.Arrays.{update}
use operating_systems_assign.ObjStore.Store.{done, same_text_refl, length}
use operating_systems_assign.Example.{
  Entry, Objfs, max_objs, held_as, claim_entry, scanned, scan_free, find_object_id, finish_create,
  create_object, reset_cached,
}
use operating_systems_assign.Example.Table.{
  FirstFree, find_entry-first, scan_taken-duplicate, scan_taken-scanned, scan_free-first,
}

-- A key that is in use behind the first free entry: `create_object` returns -1, and yet that entry
-- is in use from now on, with an id and the key that it last had.
pub create_object-leaks :
    (c : Bool) (key : List ℕ) (s : Objfs) (f j : ℕ)
    → FirstFree key s.objs 0 f
    → f < j
    → j < max_objs
    → held_as key (s.objs j) ≡ true
    → create_object c key s ≡ done (record s { objs = claim_entry s.objs f }, none)
unfolding create_object
create_object-leaks c key s f j first lt in_table held = ap (finish_create c key s) (
    scan_free-first key s.objs max_objs 0 f (omega arith) (omega arith) first
    ∙ scan_taken-duplicate key (claim_entry s.objs f) (0 + max_objs - suc f) (suc f) f j
        (omega arith) (omega arith) (ground (arith, held)))

-- What a creation leaves: entry `f` has the key and the id `f + 2`, and the rest of it and every
-- other entry is what it was, its cache index too.
pub record Created (s : Objfs) (key : List ℕ) (f : ℕ) (t : Objfs) : Type 0 where
  pub entries :
      (m : ℕ)
      → m < max_objs
      → t.objs m ≡ (if m == f then record (s.objs f) { id = f + 2; key = key } else s.objs m)
  pub cache : t.cache ≡ s.cache
  pub blkdev : t.blkdev ≡ s.blkdev

find_object_id-Created :
    (key : List ℕ) (s t : Objfs) (f : ℕ)
    → FirstFree key s.objs 0 f
    → f < max_objs
    → Created s key f t
    → find_object_id key t ≡ some (f + 2)
unfolding find_object_id
find_object_id-Created key s t f first in_table made =
    let here : t.objs f ≡ record (s.objs f) { id = f + 2; key = key } =
      made.entries f in_table ∙ ground arith in
    let held : held_as key (t.objs f) ≡ true = rw here (ground (arith, same_text_refl key)) in
    let before : (m : ℕ) → 0 ≤ m → m < f → held_as key (t.objs m) ≡ false = λ m le lt.
      ap (held_as key) (made.entries m (omega arith))
      ∙ ground (arith, first.taken m le lt, first.differ m le lt) in
    rw
      (
        find_entry-first key t.objs max_objs 0 f (omega arith) (omega arith) held before,
        find_object_id,
      )
      (ap (λ e. some e.id) here)

-- A key that is not in use and has fewer than 64 characters: the first free entry is taken its id
-- returned, and the object found under its key.
pub create_object-Created :
    (c : Bool) (key : List ℕ) (s : Objfs) (f : ℕ)
    → FirstFree key s.objs 0 f
    → f < max_objs
    → ((m : ℕ) → f < m → m < max_objs → held_as key (s.objs m) ≡ false)
    → length key < 64
    → (t : Objfs) × (create_object c key s ≡ done (t, some (f + 2)))
      × Created s key f t
      × (find_object_id key t ≡ some (f + 2))
unfolding create_object
create_object-Created c key s f first in_table behind short =
    let objs : ℕ → Entry = claim_entry s.objs f in
    let named : ℕ → Entry = update objs f (record (objs f) { key = key }) in
    let after : ℕ → Entry = update named max_objs (reset_cached c (named max_objs)) in
    let scan : scan_free key s.objs max_objs 0 ≡ scanned objs (some f) =
      scan_free-first key s.objs max_objs 0 f (omega arith) (omega arith) first
      ∙ scan_taken-scanned key objs (0 + max_objs - suc f) (suc f) f
          (λ m le lt. ground (arith, behind m (omega arith) (omega arith))) in
    let id : (after f).id ≡ f + 2 = ground arith in
    let made : Created s key f (record s { objs = after }) = record {
      entries = λ m lt. ground arith;
      cache = refl;
      blkdev = refl;
    } in
    (
      record s { objs = after },
      ap (finish_create c key s) scan
          ∙ rw (lt→ltb _ _ short) (ap (λ n. done (record s { objs = after }, some n)) id),
      made,
      find_object_id-Created key s (record s { objs = after }) f first in_table made,
    )
