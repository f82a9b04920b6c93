-- ===== src/ObjStore/Destroy/Faults.antt =====
-- Where `destroy_object` of assignment4/objstore.c goes wrong: the unparenthesised macro
-- `data_block_offset` and the missing test of the indirect entries.
use operating_systems_assign.Base.{
  ℕ, zero, suc, ◌+◌, ◌-◌, ◌/◌, ◌<◌, ◌≤◌, ◌≡◌, refl, ap, lt→ltb, ◌∙◌, List, Option, some, ◌==◌,
  if◌then◌else◌, arith,
}
use native.Mathlib.Decide.{ℕ_discrete}
use operating_systems_assign.ObjStore.Scan.{Hit, Finds, found, missing, scan_words-Finds, mask_of}
use operating_systems_assign.ObjStore.Bitmap.{toggle_bit, used, used-toggle_bit}
use operating_systems_assign.ObjStore.Store.{
  Store, Outcome, done, undefined, ◌>>=◌, inode_words, data_words, data_block_offset,
}
use operating_systems_assign.ObjStore.Alloc.{data_blocks}
use operating_systems_assign.ObjStore.Lookup.{inodes, has_key, Holds, key-Holds}
use operating_systems_assign.ObjStore.Destroy.{
  bit_position, toggle_at, free_block, free_entries, free_indirect, free_indirects, destroy_at,
  destroy_object,
}

undefined_bind {ℓ κ} :
    {A : Type ℓ} {B : Type κ} (m : Outcome A) (f : A → Outcome B)
    → ((a : A) → f a ≡ undefined)
    → (m >>= f) ≡ undefined
undefined_bind (done a) f h = h a
undefined_bind undefined f h = refl

undefined_first {ℓ κ} :
    {A : Type ℓ} {B : Type κ} (m : Outcome A) (f : A → Outcome B)
    → m ≡ undefined
    → (m >>= f) ≡ undefined
undefined_first m f e = rw e refl

free_indirect-zero : (s : Store) → free_indirect 0 s ≡ undefined
unfolding free_indirect free_block
free_indirect-zero s = refl

free_indirects-undefined :
    (n : ℕ) (entry : ℕ → ℕ) (i j : ℕ) (s : Store)
    → i ≤ j
    → j < i + n
    → entry j ≡ 0
    → free_indirects n entry i s ≡ undefined
unfolding free_indirects
free_indirects-undefined zero entry i j s le lt e = absurd (omega arith)
free_indirects-undefined (suc n) entry i j s le lt e = elim (ℕ_discrete i j) [
  | yes same ↦ rw (same, e, free_indirect-zero) refl
  | no later ↦
      undefined_bind (free_indirect (entry i) s) _
        (λ t. free_indirects-undefined n entry (i + 1) j t (omega arith) (omega arith) e)
]

-- Every object that is held under the key lacks one of its four indirect blocks.
abbrev pub LacksIndirect : Store → List ℕ → Type 0
LacksIndirect s key = (n : ℕ) → Holds s key n → (j : ℕ) × (j < 4) × ((s.objects n).indirect j ≡ 0)

destroy_at-undefined :
    (s : Store) (key : List ℕ) (o : Option Hit)
    → LacksIndirect s key
    → Finds (has_key s key) 0 inodes o
    → destroy_at s o ≡ undefined
unfolding destroy_at
destroy_at-undefined s key o lacks (missing nowhere e) = rw e refl
destroy_at-undefined s key o lacks (found n above below here before e) =
    let (j, lt, zero_entry) = lacks n (key-Holds s key n below here) in
    rw e (
      undefined_bind (free_entries 4 (s.objects n).direct 0 _) _ (λ t.
        undefined_first (free_indirects 4 (s.objects n).indirect 0 t) _ (
          free_indirects-undefined 4 (s.objects n).indirect 0 j t (omega arith) (omega arith)
            zero_entry)))

-- `destroy_object` is undefined, a write before the start of `data_bitmap` or through NULL,
-- unless an object with all four indirect blocks is held under the key.
pub destroy_object-undefined :
    (s : Store) (key : List ℕ) → LacksIndirect s key → destroy_object key s ≡ undefined
unfolding destroy_object
destroy_object-undefined s key lacks =
    destroy_at-undefined s key _ lacks (scan_words-Finds (has_key s key) inode_words 0 0 refl)

-- Giving back the block that `free_data_block` numbered `n` toggles entry `n + 574` of the
-- bitmap, not entry `n`, and nothing else.
pub free_block_misplaced :
    (s : Store) (n : ℕ)
    → n + 574 < data_blocks
    → (t : Store) × (free_block (data_block_offset + n) s ≡ done t)
      × ((m : ℕ)
          → used t.data_bitmap m
            ≡ (if m == n + 574 then 1 - used s.data_bitmap m else used s.data_bitmap m))
unfolding free_block toggle_at
free_block_misplaced s n lt = (
  record s { data_bitmap = toggle_bit s.data_bitmap ((n + 574) / 32) (mask_of (n + 574)) },
  misplaced,
  λ m. ground (arith, used-toggle_bit s.data_bitmap (n + 574) m),
)
  where
    position : bit_position (data_block_offset + n) ≡ some (n + 574)
    position = ground arith

    misplaced :
        free_block (data_block_offset + n) s
        ≡ done (record s {
          data_bitmap = toggle_bit s.data_bitmap ((n + 574) / 32) (mask_of (n + 574));
        })
    misplaced =
        ap (toggle_at s) position ∙ rw (lt→ltb ((n + 574) / 32) data_words (omega arith)) refl
