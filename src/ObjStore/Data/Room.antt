-- ===== src/ObjStore/Data/Room.antt =====
-- How many calls of `free_data_block` of assignment4/objstore.c are sure to find a free block.
use operating_systems_assign.Base.{
  ℕ, zero, suc, ◌<◌, ◌≡◌, sym, fun_ext, ◌==◌, inl, inr, Bool-cases, arith,
}
use operating_systems_assign.Base.Arrays.{update}
use operating_systems_assign.ObjStore.Bitmap.{used}
use operating_systems_assign.ObjStore.Store.{Store}
use operating_systems_assign.ObjStore.Alloc.{
  data_blocks, Takes, free_data_block, free_data_block-Takes,
}

-- At least so many blocks are free, by the marks `u`.
unfoldable pub Room : ℕ → (ℕ → ℕ) → Type 0
Room zero u = Unit
Room (suc m) u = (k : ℕ) × (k < data_blocks) × (u k ≡ 0) × Room m (update u k 1)

update_swap : (u : ℕ → ℕ) (j k : ℕ) → update (update u j 1) k 1 ≡ update (update u k 1) j 1
update_swap u j k = fun_ext (λ i. ground arith)

-- Whichever free block is taken, there is room for one less.
Room-taken : (m : ℕ) (u : ℕ → ℕ) (k : ℕ) → u k ≡ 0 → Room (suc m) u → Room m (update u k 1)
unfolding Room
Room-taken zero u k free h = tt
Room-taken (suc m) u k free (j, j_lt, j_free, rest) = elim (Bool-cases (j == k)) [
  | inl same ↦ let e : j ≡ k = ground arith in rw (sym e) rest
  | inr other ↦ (
    j,
    j_lt,
    ground arith,
    rw (update_swap u k j) (Room-taken m (update u j 1) k (ground arith) rest),
  )
]

pub Room-less : (m : ℕ) (u : ℕ → ℕ) → Room (suc m) u → Room m u
unfolding Room
Room-less zero u h = tt
Room-less (suc m) u (k, k_lt, free, rest) = (k, k_lt, free, Room-less m (update u k 1) rest)

-- With room for one more block, `free_data_block` takes one and leaves room for the rest.
pub free_data_block-Room :
    (m : ℕ) (s : Store)
    → Room (suc m) (used s.data_bitmap)
    → (k : ℕ) × Takes s k (free_data_block s) × Room m (used (free_data_block s).0.data_bitmap)
unfolding Room
free_data_block-Room m s room =
    let (j, j_lt, j_free, rest) = room in
    let (k, took) = free_data_block-Takes s j j_lt j_free in
    let e : used (free_data_block s).0.data_bitmap ≡ update (used s.data_bitmap) k 1 =
      fun_ext took.taken in
    (k, took, rw e (Room-taken m (used s.data_bitmap) k took.was_free room))
