-- ===== src/ObjStore/Data/Files.antt =====
-- What `objstore_write` of assignment4/objstore.c does to the files that a store holds.
use operating_systems_assign.Base.{
  ℕ, ◌<◌, ◌≤◌, ◌≡◌, ◌≢◌, refl, sym, ap, ◌∙◌, Bool, true, false, not, ◌&&◌, ◌||◌, none, some, ◌==◌,
  ltb, inl, inr, Bool-cases, if◌then◌else◌, arith, ◌+◌,
}
use operating_systems_assign.ObjStore.Disk.{block_size}
use operating_systems_assign.ObjStore.Cache.Transparent.{blocks, IsReady}
use operating_systems_assign.ObjStore.Bitmap.{used}
use operating_systems_assign.ObjStore.Store.{Store, data_block_offset}
use operating_systems_assign.ObjStore.Alloc.{data_blocks}
use operating_systems_assign.ObjStore.Lookup.{inodes, IsNumbered}
use operating_systems_assign.ObjStore.Data.{max_pages, indirect_entry, indirect_start}
use operating_systems_assign.ObjStore.Data.Layout.{
  no_files, Place, page, table, page_block, place_block, Files, Live, Taken, Represents,
}

-- Whether a write to page `a` makes a new indirect block.
abbrev pub is_first : ℕ → Bool
is_first a = not (ltb a 4) && (a == indirect_start a)

-- Whether page `b` is behind the indirect block that governs page `a`.
abbrev pub is_behind : ℕ → ℕ → Bool
is_behind a b = not (ltb b 4) && (indirect_entry b == indirect_entry a)

-- Page `a` of object `n` becomes `bytes`. The first page of an indirect block comes with a new
-- such block, and the pages behind the old one are gone.
abbrev pub put : Files → ℕ → ℕ → (ℕ → ℕ) → Files
put f n a bytes = record {
  pages = λ m b.
      if m == n && b == a
      then some bytes
      else if m == n && (is_first a && is_behind a b)
      then none
      else f.pages m b;
  tables = λ m k. f.tables m k || m == n && (is_first a && k == indirect_entry a);
}

-- Page `a` can be written if it is direct, or opens an indirect block, or lies behind one that
-- there is.
pub record IsWritable (f : Files) (n a : ℕ) : Type 0 where
  pub in_range : a < max_pages
  pub table_ready : 4 ≤ a → is_first a ≡ false → Live f (table n (indirect_entry a))

-- The places that the write fills.
abbrev pub is_new : ℕ → ℕ → Place → Bool
is_new n a (page m b) = m == n && b == a
is_new n a (table m k) = m == n && (is_first a && k == indirect_entry a)

-- Block `b` was free in `s`, and is taken in `t`.
pub record Fresh (s t : Store) (b : ℕ) : Type 0 where
  pub index : ℕ
  pub number : b ≡ data_block_offset + index
  pub in_range : index < data_blocks
  pub was_free : used s.data_bitmap index ≡ 0
  pub marked : used t.data_bitmap index ≡ 1

-- The store `t` is `s` with page `a` of object `n` in a block that was free, as far as the files
-- `f` are concerned.
pub record Adds (c : Bool) (s : Store) (f : Files) (n a : ℕ) (bytes : ℕ → ℕ) (t : Store)
    : Type 0 where
  pub ready : IsReady c t.blocks
  pub numbered : IsNumbered t
  pub fresh : (p : Place) → is_new n a p ≡ true → Fresh s t (place_block c t p)
  pub separate :
      (p q : Place)
      → is_new n a p ≡ true
      → is_new n a q ≡ true
      → place_block c t p ≡ place_block c t q
      → p ≡ q
  pub still_taken : (m : ℕ) → used s.data_bitmap m ≡ 1 → used t.data_bitmap m ≡ 1
  pub in_place :
      (p : Place)
      → Live f p
      → Live (put f n a bytes) p
      → is_new n a p ≡ false
      → place_block c t p ≡ place_block c s p
  pub written : (i : ℕ) → i < block_size → blocks c t.blocks (page_block c t n a) i ≡ bytes i
  pub untouched :
      (m b : ℕ)
      → Live f (page m b)
      → is_new n a (page m b) ≡ false
      → (i : ℕ) → i < block_size
      → blocks c t.blocks (page_block c s m b) i ≡ blocks c s.blocks (page_block c s m b) i

pub bytes_at : (g h : ℕ → ℕ) (i : ℕ) → some g ≡ some h → h i ≡ g i
bytes_at g h i e = sym (ap (λ o. elim o [ none ↦ 0 | some k ↦ k i ]) e)

module _ (c : Bool) (s t : Store) (f : Files) (n a : ℕ) (bytes : ℕ → ℕ) (ok : Represents c s f)
    (may : IsWritable f n a) (w : Adds c s f n a bytes t) where
  Live-old : (p : Place) → Live (put f n a bytes) p → is_new n a p ≡ false → Live f p
  Live-old (page m b) h e = ground arith
  Live-old (table m k) h e = ground arith

  old_block :
      (p : Place)
      → Live (put f n a bytes) p
      → is_new n a p ≡ false
      → place_block c t p ≡ place_block c s p
  old_block p h e = w.in_place p (Live-old p h e) h e

  pages-Taken : (p : Place) → Live (put f n a bytes) p → Taken t (place_block c t p)
  pages-Taken p h = elim (Bool-cases (is_new n a p)) [
    | inl new ↦
        let b = w.fresh p new in
        record { index = b.index; number = b.number; in_range = b.in_range; marked = b.marked }
    | inr old ↦
        let b = ok.taken p (Live-old p h old) in
        record {
          index = b.index;
          number = old_block p h old ∙ b.number;
          in_range = b.in_range;
          marked = w.still_taken b.index b.marked;
        }
  ]

  -- A block that was free is none of those that hold something.
  new_elsewhere :
      (p q : Place)
      → is_new n a p ≡ true
      → Live (put f n a bytes) q
      → is_new n a q ≡ false
      → place_block c t p ≢ place_block c t q
  new_elsewhere p q new h old e =
      let b = w.fresh p new in
      let b' = ok.taken q (Live-old q h old) in
      let same : b.index ≡ b'.index = omega (arith, b.number, b'.number, old_block q h old, e) in
      absurd (omega (arith, b.was_free, b'.marked, ap (used s.data_bitmap) same))

  places_apart :
      (p q : Place)
      → Live (put f n a bytes) p
      → Live (put f n a bytes) q
      → place_block c t p ≡ place_block c t q
      → p ≡ q
  places_apart p q h h' e = elim (Bool-cases (is_new n a p)) [
    | inl new ↦ elim (Bool-cases (is_new n a q)) [
      | inl new' ↦ w.separate p q new new' e
      | inr old' ↦ absurd (new_elsewhere p q new h' old' e)
    ]
    | inr old ↦ elim (Bool-cases (is_new n a q)) [
      | inl new' ↦ absurd (new_elsewhere q p new' h old (sym e))
      | inr old' ↦
          ok.apart p q (Live-old p h old) (Live-old q h' old')
            (sym (old_block p h old) ∙ (e ∙ old_block q h' old'))
    ]
  ]

  pages_behind :
      (m b : ℕ)
      → Live (put f n a bytes) (page m b)
      → (b < max_pages) × (4 ≤ b → Live (put f n a bytes) (table m (indirect_entry b)))
  pages_behind m b h = elim (Bool-cases (is_new n a (page m b))) [
    | inl new ↦ (ground (arith, may.in_range), λ ge. ground (arith, may.table_ready))
    | inr old ↦
        let (lt, there) = ok.behind m b (Live-old (page m b) h old) in
        (lt, λ ge. ground (arith, there ge))
  ]

  page-old :
      (m b : ℕ) (what : ℕ → ℕ)
      → is_new n a (page m b) ≡ false
      → (put f n a bytes).pages m b ≡ some what
      → f.pages m b ≡ some what
  page-old m b what old e = ground arith

  page-in_place :
      (m b : ℕ)
      → is_new n a (page m b) ≡ false
      → Live (put f n a bytes) (page m b)
      → Live f (page m b)
      → page_block c t m b ≡ page_block c s m b
  unfolding place_block
  page-in_place m b old h h' = w.in_place (page m b) h' h old

  hold_new :
      (m b : ℕ) (what : ℕ → ℕ)
      → is_new n a (page m b) ≡ true
      → (put f n a bytes).pages m b ≡ some what
      → (i : ℕ) → i < block_size
      → blocks c t.blocks (page_block c t m b) i ≡ what i
  hold_new m b what new e i lt =
      let same : (m ≡ n) × (b ≡ a) = (ground arith, ground arith) in
      rw (same.0, same.1) (w.written i lt ∙ sym (bytes_at bytes what i (rw new at e)))

  pages_hold :
      (m b : ℕ) (what : ℕ → ℕ)
      → (put f n a bytes).pages m b ≡ some what
      → (i : ℕ) → i < block_size
      → blocks c t.blocks (page_block c t m b) i ≡ what i
  pages_hold m b what e i lt = elim (Bool-cases (is_new n a (page m b))) [
    | inl new ↦ hold_new m b what new e i lt
    | inr old ↦
        let e' = page-old m b what old e in
        ap (λ x. blocks c t.blocks x i) (page-in_place m b old (rw e refl) (rw e' refl))
        ∙ (w.untouched m b (rw e' refl) old i lt ∙ ok.holds m b what e' i lt)
  ]

  pub Adds-Represents : Represents c t (put f n a bytes)
  Adds-Represents = record {
    ready = w.ready;
    numbered = w.numbered;
    taken = pages-Taken;
    apart = places_apart;
    behind = pages_behind;
    holds = pages_hold;
  }

-- Only objects that the bitmap governs have pages, and each has four entries `indirect`.
pub record IsOwned (f : Files) : Type 0 where
  pub pages : (n a : ℕ) → Live f (page n a) → n < inodes
  pub tables : (n k : ℕ) → Live f (table n k) → (n < inodes) × (k < 4)

pub no_files-IsOwned : IsOwned no_files
no_files-IsOwned = record { pages = λ n a h. cc; tables = λ n k h. cc }

pub put-IsOwned :
    (f : Files) (n a : ℕ) (bytes : ℕ → ℕ) → n < inodes → IsOwned f → IsOwned (put f n a bytes)
put-IsOwned f n a bytes lt own = record {
  pages = λ m b h. ground (arith, own.pages m b, lt);
  tables = λ m k h. ground (arith, own.tables m k, lt);
}
