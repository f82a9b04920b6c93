-- ===== src/ObjStore/Store.antt =====
-- The state of assignment4/objstore.c: the inode table `a`, the two bitmaps, the dirty flags of
-- the inode blocks, the object found last and the block store below. Calls that C leaves
-- undefined have the outcome `undefined`.
use operating_systems_assign.Base.{
  ℕ, suc, ◌≡◌, refl, Bool, true, false, ◌&&◌, List, [], ◌∷◌, Option, ◌==◌, arith,
}
use operating_systems_assign.ObjStore.Cache.{BlockStore}

-- `INODE_BITMAP_SIZE*BLOCK_SIZE/4` and `DATA_BITMAP_SIZE*BLOCK_SIZE/4`
abbrev pub inode_words : ℕ
inode_words = 31744

abbrev pub data_words : ℕ
data_words = 262144

-- `22528+287`
abbrev pub data_block_offset : ℕ
data_block_offset = 22815

-- A key is the text before its NUL; `char key[32]` has room for 31 characters.
abbrev pub key_size : ℕ
key_size = 32

pub record Object : Type 0 where
  pub id : ℕ
  pub size : ℕ
  pub direct : ℕ → ℕ
  pub indirect : ℕ → ℕ
  pub key : List ℕ

-- `backup` is the number of the object it points at; `none` is the empty page of `objstore_init`.
pub record Store : Type 0 where
  pub objects : ℕ → Object
  pub backup : Option ℕ
  pub inode_bitmap : ℕ → ℕ
  pub data_bitmap : ℕ → ℕ
  pub dirty_array : ℕ → ℕ
  pub blocks : BlockStore

pub data Outcome {ℓ} (A : Type ℓ) : Type ℓ where
  done : A → Outcome A
  undefined : Outcome A

infixl 5 ◌>>=◌
abbrev pub ◌>>=◌ {ℓ κ} : {A : Type ℓ} {B : Type κ} → Outcome A → (A → Outcome B) → Outcome B
done a >>= f = f a
undefined >>= f = undefined

-- `!strcmp(s, t)`
unfoldable pub same_text : List ℕ → List ℕ → Bool
same_text [] [] = true
same_text [] (d ∷ t) = false
same_text (c ∷ s) [] = false
same_text (c ∷ s) (d ∷ t) = c == d && same_text s t

pub same_text_refl : (s : List ℕ) → same_text s s ≡ true
unfolding same_text
same_text_refl [] = refl
same_text_refl (c ∷ s) = ground (arith, same_text_refl s)

pub eq_of_same_text : (s t : List ℕ) → same_text s t ≡ true → s ≡ t
unfolding same_text
eq_of_same_text [] [] e = refl
eq_of_same_text [] (d ∷ t) e = cc
eq_of_same_text (c ∷ s) [] e = cc
eq_of_same_text (c ∷ s) (d ∷ t) e = ground (arith, eq_of_same_text s t)

abbrev pub length {ℓ} : {A : Type ℓ} → List A → ℕ
length [] = 0
length (x ∷ xs) = suc (length xs)
