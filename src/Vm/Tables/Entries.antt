-- ===== src/Vm/Tables/Entries.antt =====
-- The entries of page tables as `link` and `grant` leave them.
use Prim.Native.Nat.{bit_or-bitwise, max}
use operating_systems_assign.Base.{
  ℕ, ◌+◌, ◌*◌, ◌/◌, ◌%◌, ◌^◌, ◌<◌, ◌≡◌, bit_and, bit_or, ◌==◌, arith,
}
use operating_systems_assign.Base.Bits.{bit_and_step, bit_or_step, bit_and-zero, bit_or-zero}
use operating_systems_assign.Vm.Tables.{is_present, frame_of}

bit_and-one : (e : ℕ) → bit_and e 1 ≡ e % 2
bit_and-one e = omega (arith, bit_and_step e 1, bit_and-zero (e / 2))

pub present_iff : (e : ℕ) → is_present e ≡ (e % 2 == 1)
present_iff e = ground (arith, bit_and-one e)

bit_or-zero_left : (x : ℕ) → bit_or 0 x ≡ x
bit_or-zero_left x = bit_or-bitwise 0 x

-- `x | 5`, above its three lowest bits.
bit_or-five : (x : ℕ) → (bit_or x 5 % 2 ≡ 1) × (bit_or x 5 / 8 ≡ x / 8)
bit_or-five x =
    let a : bit_or x 5 ≡ bit_or (x / 2) 2 * 2 + max (x % 2) 1 = bit_or_step x 5 in
    let b : bit_or (x / 2) 2 ≡ bit_or (x / 2 / 2) 1 * 2 + max (x / 2 % 2) 0 =
      bit_or_step (x / 2) 2 in
    let c : bit_or (x / 2 / 2) 1 ≡ bit_or (x / 2 / 2 / 2) 0 * 2 + max (x / 2 / 2 % 2) 1 =
      bit_or_step (x / 2 / 2) 1 in
    omega (arith, a, b, c, bit_or-zero (x / 2 / 2 / 2))

bit_or-two : (x : ℕ) → (bit_or x 2 % 2 ≡ x % 2) × (bit_or x 2 / 4 ≡ x / 4)
bit_or-two x =
    let a : bit_or x 2 ≡ bit_or (x / 2) 1 * 2 + max (x % 2) 0 = bit_or_step x 2 in
    let b : bit_or (x / 2) 1 ≡ bit_or (x / 2 / 2) 0 * 2 + max (x / 2 % 2) 1 =
      bit_or_step (x / 2) 1 in
    omega (arith, a, b, bit_or-zero (x / 2 / 2))

-- An empty entry that is linked is present, and leads to the frame.
pub linked :
    (e a : ℕ)
    → e ≡ 0
    → a < 2 ^ 20
    → (bit_or (bit_or e (a * 4096 % 2 ^ 32)) 5 % 2 ≡ 1)
      × (frame_of (bit_or (bit_or e (a * 4096 % 2 ^ 32)) 5) ≡ a)
linked e a z small =
    rw (z, bit_or-zero_left (a * 4096 % 2 ^ 32)) (omega (arith, bit_or-five (a * 4096 % 2 ^ 32)))

-- The write bit changes neither.
pub granted : (e : ℕ) → (bit_or e 2 % 2 ≡ e % 2) × (frame_of (bit_or e 2) ≡ frame_of e)
granted e = omega (arith, bit_or-two e)
