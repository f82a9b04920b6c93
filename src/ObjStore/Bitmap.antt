-- ===== src/ObjStore/Bitmap.antt =====
-- The bitmaps of assignment4/objstore.c: words of 32 bits, the first bit at the top.
use operating_systems_assign.Base.{
  ℕ, ◌-◌, ◌/◌, ◌%◌, bit_and, bit_or, bit_xor, ◌≤◌, ◌≡◌, Bool, not, ◌==◌, if◌then◌else◌, arith,
}
use operating_systems_assign.Base.Arrays.{update}
use operating_systems_assign.Base.Bits.{bit, bit-or_mask, bit-xor_mask, bit-le-one, mask_test}
use operating_systems_assign.ObjStore.Scan.{mask_of}

-- `bitmap[i] & b`, as a test
abbrev pub is_set : (ℕ → ℕ) → ℕ → ℕ → Bool
is_set bitmap i b = not (bit_and (bitmap i) b == 0)

-- `!(bitmap[i] & b)`, as a test of the scan
abbrev pub is_free : (ℕ → ℕ) → ℕ → ℕ → ℕ → Bool
is_free bitmap i b ctr = not (is_set bitmap i b)

-- `bitmap[i] = bitmap[i] | b`
abbrev pub set_bit : (ℕ → ℕ) → ℕ → ℕ → ℕ → ℕ
set_bit bitmap i b = update bitmap i (bit_or (bitmap i) b)

-- `bitmap[i] = bitmap[i] ^ b`
abbrev pub toggle_bit : (ℕ → ℕ) → ℕ → ℕ → ℕ → ℕ
toggle_bit bitmap i b = update bitmap i (bit_xor (bitmap i) b)

-- Whether entry `n` of the bitmap is taken: 1 or 0.
unfoldable pub used : (ℕ → ℕ) → ℕ → ℕ
used bitmap n = bit (bitmap (n / 32)) (31 - n % 32)

module _ (bitmap : ℕ → ℕ) (n : ℕ) where
  pub used-le-one : used bitmap n ≤ 1
  unfolding used
  used-le-one = bit-le-one (bitmap (n / 32)) (31 - n % 32)

  pub is_set-used : is_set bitmap (n / 32) (mask_of n) ≡ not (used bitmap n == 0)
  unfolding used
  is_set-used = rw (mask_test (bitmap (n / 32)) (31 - n % 32))

  pub free-used :
      (b : Bool) → is_free bitmap (n / 32) (mask_of n) n ≡ b → used bitmap n ≡ (if b then 0 else 1)
  free-used b e = ground (arith, is_set-used, used-le-one)

  pub used-set_bit :
      (m : ℕ) → used (set_bit bitmap (n / 32) (mask_of n)) m ≡ (if m == n then 1 else used bitmap m)
  unfolding used
  used-set_bit m = ground (arith, bit-or_mask (bitmap (n / 32)) (31 - n % 32) (31 - m % 32))

  pub used-toggle_bit :
      (m : ℕ)
      → used (toggle_bit bitmap (n / 32) (mask_of n)) m
        ≡ (if m == n then 1 - used bitmap n else used bitmap m)
  unfolding used
  used-toggle_bit m = ground (arith, bit-xor_mask (bitmap (n / 32)) (31 - n % 32) (31 - m % 32))
