-- ===== src/ObjStore/Data/Layout.antt =====
-- Where the objects of assignment4/objstore.c keep their pages, and the files that a store stands for.
use operating_systems_assign.Base.{
  ◌≢◌, Bool-cases, inl, inr, ltb→lt, ℕ, ◌+◌, ◌-◌, ◌*◌, ◌<◌, ◌≤◌, ◌≡◌, refl, sym, ap, ◌∙◌, Bool,
  true, false, Option, none, some, ltb, if◌then◌else◌, arith,
}
use operating_systems_assign.ObjStore.Disk.{block_size}
use operating_systems_assign.ObjStore.Cache.Transparent.{blocks, IsReady}
use operating_systems_assign.ObjStore.Bitmap.{used}
use operating_systems_assign.ObjStore.Store.{Store, data_block_offset}
use operating_systems_assign.ObjStore.Alloc.{data_blocks}
use operating_systems_assign.ObjStore.Lookup.{IsNumbered}
use operating_systems_assign.ObjStore.Destroy.{load_int}
use operating_systems_assign.ObjStore.Data.{indirect_entry, indirect_start, max_pages}

-- Page `a` of object `n`, or the block that its entry `k` of `indirect` points at.
pub data Place : Type 0 where
  page : (n a : ℕ) → Place
  table : (n k : ℕ) → Place

-- The block that page `a` of object `n` lies in.
unfoldable pub page_block : Bool → Store → ℕ → ℕ → ℕ
page_block c s n a =
    if ltb a 4
    then (s.objects n).direct a
    else load_int (blocks c s.blocks ((s.objects n).indirect (indirect_entry a)))
        (a - indirect_start a)

unfoldable pub place_block : Bool → Store → Place → ℕ
unfolding page_block
place_block c s (page n a) = page_block c s n a
place_block c s (table n k) = (s.objects n).indirect k

-- The specification: the pages that have been written, by object and page number, and the indirect
-- blocks that there are.
pub record Files : Type 0 where
  pub pages : ℕ → ℕ → Option (ℕ → ℕ)
  pub tables : ℕ → ℕ → Bool

abbrev pub is_some {ℓ} : {A : Type ℓ} → Option A → Bool
is_some none = false
is_some (some x) = true

abbrev pub Live : Files → Place → Type 0
Live f (page n a) = is_some (f.pages n a) ≡ true
Live f (table n k) = f.tables n k ≡ true

-- A block of the data area that the bitmap marks as taken.
pub record Taken (s : Store) (b : ℕ) : Type 0 where
  pub index : ℕ
  pub number : b ≡ data_block_offset + index
  pub in_range : index < data_blocks
  pub marked : used s.data_bitmap index ≡ 1

-- The store holds the files: every page lies in a taken block of its own, with its contents.
pub record Represents (c : Bool) (s : Store) (f : Files) : Type 0 where
  pub ready : IsReady c s.blocks
  pub numbered : IsNumbered s
  pub taken : (p : Place) → Live f p → Taken s (place_block c s p)
  pub apart : (p q : Place) → Live f p → Live f q → place_block c s p ≡ place_block c s q → p ≡ q
  pub behind :
      (n a : ℕ)
      → Live f (page n a)
      → (a < max_pages) × (4 ≤ a → Live f (table n (indirect_entry a)))
  pub holds :
      (n a : ℕ) (bytes : ℕ → ℕ)
      → f.pages n a ≡ some bytes
      → (i : ℕ) → i < block_size
      → blocks c s.blocks (page_block c s n a) i ≡ bytes i

-- An integer of a block depends on the block's bytes only.
pub load_int-same :
    (f g : ℕ → ℕ) (i : ℕ)
    → ((j : ℕ) → j < block_size → f j ≡ g j)
    → i < 1024
    → load_int f i ≡ load_int g i
load_int-same f g i same lt =
    ground (arith, same (4 * i), same (4 * i + 1), same (4 * i + 2), same (4 * i + 3))

pub entry_in_range : (a : ℕ) → 4 ≤ a → a < max_pages → a - indirect_start a < 1024
entry_in_range a lo hi = ground arith

pub page_block-kept :
    (c : Bool) (s t : Store) (m b : ℕ)
    → (b < 4 → (t.objects m).direct b ≡ (s.objects m).direct b)
    → (4 ≤ b
        → (t.objects m).indirect (indirect_entry b) ≡ (s.objects m).indirect (indirect_entry b))
    → (4 ≤ b
        → load_int
            (blocks c t.blocks ((s.objects m).indirect (indirect_entry b)))
            (b - indirect_start b)
          ≡ load_int
              (blocks c s.blocks ((s.objects m).indirect (indirect_entry b)))
              (b - indirect_start b))
    → page_block c t m b ≡ page_block c s m b
unfolding page_block
page_block-kept c s t m b direct indirect entry = elim (Bool-cases (ltb b 4)) [
  | inl lt ↦ rw lt (direct (ltb→lt b 4 lt))
  | inr ge ↦ rw ge (
      ap (λ x. load_int (blocks c t.blocks x) (b - indirect_start b)) (indirect (ground arith))
      ∙ entry (ground arith))
]

-- A block that is taken is not one that is free.
pub Taken-apart :
    (s : Store) (b k : ℕ) → Taken s b → used s.data_bitmap k ≡ 0 → b ≢ data_block_offset + k
Taken-apart s b k t free e =
    let same : t.index ≡ k = omega (arith, t.number, e) in
    absurd (omega (arith, free, t.marked, ap (used s.data_bitmap) same))

module _ (c : Bool) (s : Store) (f : Files) (ok : Represents c s f) where
  pub page-Taken : (m b : ℕ) → Live f (page m b) → Taken s (page_block c s m b)
  unfolding place_block
  page-Taken m b h = ok.taken (page m b) h

  pub table-Taken : (m j : ℕ) → Live f (table m j) → Taken s ((s.objects m).indirect j)
  unfolding place_block
  table-Taken m j h = ok.taken (table m j) h

  pub table-apart :
      (m j n k : ℕ)
      → Live f (table m j)
      → Live f (table n k)
      → (s.objects m).indirect j ≡ (s.objects n).indirect k
      → (m ≡ n) × (j ≡ k)
  unfolding place_block
  table-apart m j n k h h' e = let same = ok.apart (table m j) (table n k) h h' e in (cc, cc)

  pub page-table-apart :
      (m b n k : ℕ)
      → Live f (page m b)
      → Live f (table n k)
      → page_block c s m b ≢ (s.objects n).indirect k
  unfolding place_block
  page-table-apart m b n k h h' e = let same = ok.apart (page m b) (table n k) h h' e in cc

-- Nothing has been written yet.
abbrev pub no_files : Files
no_files = record { pages = λ n a. none; tables = λ n k. false }

no_files-¬Live : (p : Place) → ¬ Live no_files p
no_files-¬Live (page n a) h = cc
no_files-¬Live (table n k) h = cc

pub no_files-Represents :
    (c : Bool) (s : Store) → IsReady c s.blocks → IsNumbered s → Represents c s no_files
no_files-Represents c s ready numbered = record {
  ready = ready;
  numbered = numbered;
  taken = λ p h. absurd (no_files-¬Live p h);
  apart = λ p q h h' e. absurd (no_files-¬Live p h);
  behind = λ n a h. absurd (no_files-¬Live (page n a) h);
  holds = λ n a bytes e. cc;
}

-- The files are still there if every place keeps its block, its mark and its contents.
pub Represents-kept :
    (c : Bool) (s t : Store) (f : Files)
    → Represents c s f
    → IsReady c t.blocks
    → IsNumbered t
    → ((p : Place) → Live f p → place_block c t p ≡ place_block c s p)
    → ((i : ℕ) → i < data_blocks → used s.data_bitmap i ≡ 1 → used t.data_bitmap i ≡ 1)
    → ((m b i : ℕ)
        → Live f (page m b)
        → i < block_size
        → blocks c t.blocks (page_block c s m b) i ≡ blocks c s.blocks (page_block c s m b) i)
    → Represents c t f
unfolding place_block
Represents-kept c s t f ok ready numbered same marks contents = record {
  ready = ready;
  numbered = numbered;
  taken = λ p h.
      let b = ok.taken p h in
      record {
        index = b.index;
        number = same p h ∙ b.number;
        in_range = b.in_range;
        marked = marks b.index b.in_range b.marked;
      };
  apart = λ p q h h' e. ok.apart p q h h' (sym (same p h) ∙ (e ∙ same q h'));
  behind = ok.behind;
  holds = λ n a bytes e i lt.
      ap (λ x. blocks c t.blocks x i) (same (page n a) (rw e refl))
      ∙ (contents n a i (rw e refl) lt ∙ ok.holds n a bytes e i lt);
}

-- Only the entries of the objects, their ids, the bitmaps and the blocks play a part.
module _ (c : Bool) (s t : Store) (f : Files) (below : t.blocks ≡ s.blocks)
    (bitmap : t.data_bitmap ≡ s.data_bitmap)
    (directs : (m b : ℕ) → (t.objects m).direct b ≡ (s.objects m).direct b)
    (indirects : (m b : ℕ) → (t.objects m).indirect b ≡ (s.objects m).indirect b) where
  page_block-objects : (m b : ℕ) → page_block c t m b ≡ page_block c s m b
  unfolding page_block
  page_block-objects m b = rw (below, directs m b, indirects m (indirect_entry b)) refl

  place_block-objects : (p : Place) → place_block c t p ≡ place_block c s p
  unfolding place_block
  place_block-objects (page m b) = page_block-objects m b
  place_block-objects (table m k) = indirects m k

  pub Represents-objects : IsNumbered t → Represents c s f → Represents c t f
  Represents-objects numbered ok =
      Represents-kept c s t f ok (rw below ok.ready) numbered (λ p h. place_block-objects p)
        (λ i lt u. rw bitmap u) (λ m b i h lt. rw below refl)
