-- ===== src/ObjStore/Alloc.antt =====
-- assignment4/objstore.c: `free_data_block`. It runs under `d_lock` as a whole, so it is one step.
use operating_systems_assign.Base.{
  ℕ, ◌+◌, ◌-◌, ◌%◌, ◌^◌, ◌*◌, ◌<◌, ◌≡◌, refl, ◌⊎◌, true, false, Option, none, some, ◌==◌,
  if◌then◌else◌, arith, inl, inr,
}
use operating_systems_assign.Base.Bits.{bit_or-below}
use operating_systems_assign.ObjStore.Scan.{
  Hit, scan_words, Finds, found, missing, scan_words-Finds,
}
use operating_systems_assign.ObjStore.Bitmap.{is_free, free-used, set_bit, used, used-set_bit}
use operating_systems_assign.ObjStore.Store.{Store, data_words, data_block_offset}

take_block : Store → Option Hit → Store × Option ℕ
take_block s none = (s, none)
take_block s (some h) = (
  record s { data_bitmap = set_bit s.data_bitmap h.word h.mask },
  some (data_block_offset + h.index),
)

-- The block's number; `none` is the -1 of a full bitmap.
unfoldable pub free_data_block : Store → Store × Option ℕ
unfolding take_block
free_data_block s = take_block s (scan_words (is_free s.data_bitmap) data_words 0 0)

-- How many blocks the bitmap governs.
abbrev pub data_blocks : ℕ
data_blocks = 32 * data_words

-- The first free block `n` is taken, no other entry changes, and the block's number on the disk
-- is returned.
pub record Takes (s : Store) (n : ℕ) (r : Store × Option ℕ) : Type 0 where
  pub in_range : n < data_blocks
  pub was_free : used s.data_bitmap n ≡ 0
  pub lowest : (m : ℕ) → m < n → used s.data_bitmap m ≡ 1
  pub number : r.1 ≡ some (data_block_offset + n)
  pub taken : (m : ℕ) → used r.0.data_bitmap m ≡ (if m == n then 1 else used s.data_bitmap m)
  pub rest : r.0 ≡ record s { data_bitmap = r.0.data_bitmap }

take_block-Takes :
    (s : Store) (o : Option Hit)
    → Finds (is_free s.data_bitmap) 0 data_blocks o
    → ((n : ℕ) × Takes s n (take_block s o))
      ⊎ (((m : ℕ) → m < data_blocks → used s.data_bitmap m ≡ 1) × (take_block s o ≡ (s, none)))
unfolding take_block
take_block-Takes s o (found n above below here before e) = inl (
  n,
  rw e (record {
    in_range = below;
    was_free = free-used s.data_bitmap n true here;
    lowest = λ m h. free-used s.data_bitmap m false (before m (omega arith) h);
    number = refl;
    taken = used-set_bit s.data_bitmap n;
    rest = refl;
  }),
)
take_block-Takes s o (missing nowhere e) =
    inr ((λ m h. free-used s.data_bitmap m false (nowhere m (omega arith) h)), rw e refl)

-- `free_data_block` takes the first free block, and fails, changing nothing, exactly when every
-- block is taken.
pub free_data_block_lem :
    (s : Store)
    → ((n : ℕ) × Takes s n (free_data_block s))
      ⊎ (((m : ℕ) → m < data_blocks → used s.data_bitmap m ≡ 1) × (free_data_block s ≡ (s, none)))
unfolding free_data_block
free_data_block_lem s =
    take_block-Takes s _ (scan_words-Finds (is_free s.data_bitmap) data_words 0 0 refl)

-- The whole result of a call that takes a block.
pub Takes-result :
    (s : Store) (n : ℕ) (r : Store × Option ℕ)
    → Takes s n r
    → r ≡ (record s { data_bitmap = r.0.data_bitmap }, some (data_block_offset + n))
Takes-result s n r got = λ i. (got.rest i, got.number i)

-- Where a block is free, one is taken.
pub free_data_block-Takes :
    (s : Store) (k : ℕ)
    → k < data_blocks
    → used s.data_bitmap k ≡ 0
    → (n : ℕ) × Takes s n (free_data_block s)
free_data_block-Takes s k lt free = elim (free_data_block_lem s) [
  | inl got ↦ got
  | inr (full, e) ↦ absurd (omega (arith, full k lt))
]

-- The words of the bitmap stay below 2 ^ 32.
take_block-words :
    (s : Store) (o : Option Hit)
    → ((i : ℕ) → i < data_words → s.data_bitmap i < 2 ^ 32)
    → Finds (is_free s.data_bitmap) 0 data_blocks o
    → (i : ℕ) → i < data_words
    → (take_block s o).0.data_bitmap i < 2 ^ 32
unfolding take_block
take_block-words s o small (missing nowhere e) i lt = rw e (small i lt)
take_block-words s o small (found n above below here before e) i lt = rw e (
    ground (
      arith,
      small i lt,
      bit_or-below 32 (s.data_bitmap i) (31 - n % 32) (omega arith) (small i lt),
    ))

pub free_data_block-words :
    (s : Store)
    → ((i : ℕ) → i < data_words → s.data_bitmap i < 2 ^ 32)
    → (i : ℕ) → i < data_words
    → (free_data_block s).0.data_bitmap i < 2 ^ 32
unfolding free_data_block
free_data_block-words s small =
    take_block-words s _ small (scan_words-Finds (is_free s.data_bitmap) data_words 0 0 refl)
