-- ===== src/Base/Bits.antt =====
-- Laws of the native bit operations for a mask of one bit.
use Prim.Native.Nat.{bit_or-bitwise, bit_xor-bitwise, bit_and-bitwise, digits, differ, min, max}
use native.Mathlib.Decide.{ℕ_discrete}
use native.Mathlib.Nat.{pow-suc, one-le-pow}
use operating_systems_assign.Base.{
  ℕ, zero, suc, ◌+◌, ◌-◌, ◌*◌, ◌/◌, ◌%◌, ◌^◌, ◌≤◌, ◌<◌, bit_and, bit_or, bit_xor, ◌≡◌, refl, ap,
  ◌∙◌, arith, ◌==◌, if◌then◌else◌,
}

-- The digit `k` of `w`, the lowest first.
unfoldable pub bit : ℕ → ℕ → ℕ
bit w zero = w % 2
bit w (suc k) = bit (w / 2) k

-- The library's operations go through the digits with a bound on their number. Any bound from `a`
-- up will do.
module _ (rest : ℕ → ℕ) (op : ℕ → ℕ → ℕ)
    (rest_step : (b : ℕ) → rest b ≡ rest (b / 2) * 2 + op 0 (b % 2)) where
  one_more : (bound a b : ℕ) → a ≤ bound → digits rest op (suc bound) a b ≡ digits rest op bound a b
  one_more (suc bound) (suc a) b le =
      omega (arith, one_more bound (suc a / 2) (b / 2) (omega arith))
  one_more (suc bound) zero b le = refl
  one_more zero zero b le = refl
  one_more zero (suc a) b le = absurd (omega arith)

  many_more :
      (bound low a b : ℕ)
      → a ≤ low
      → low ≤ bound
      → digits rest op bound a b ≡ digits rest op low a b
  many_more zero zero a b le more = refl
  many_more zero (suc low) a b le more = absurd (omega arith)
  many_more (suc bound) low a b le more = elim (ℕ_discrete (suc bound) low) [
    | yes same ↦ ap (λ n. digits rest op n a b) same
    | no above ↦ one_more bound a b (omega arith) ∙ many_more bound low a b le (omega arith)
  ]

  digits_step :
      (a b : ℕ)
      → digits rest op a a b ≡ digits rest op (a / 2) (a / 2) (b / 2) * 2 + op (a % 2) (b % 2)
  digits_step zero b = rest_step b
  digits_step (suc a) b =
      omega (arith, many_more a (suc a / 2) (suc a / 2) (b / 2) (omega arith) (omega arith))

pub bit_and_step : (a b : ℕ) → bit_and a b ≡ bit_and (a / 2) (b / 2) * 2 + min (a % 2) (b % 2)
bit_and_step a b = omega (
  arith,
  bit_and-bitwise a b,
  bit_and-bitwise (a / 2) (b / 2),
  digits_step (λ _. zero) min (λ b. omega arith) a b,
)

pub bit_or_step : (a b : ℕ) → bit_or a b ≡ bit_or (a / 2) (b / 2) * 2 + max (a % 2) (b % 2)
bit_or_step a b = omega (
  arith,
  bit_or-bitwise a b,
  bit_or-bitwise (a / 2) (b / 2),
  digits_step (λ low. low) max (λ low. omega arith) a b,
)

pub bit_xor_step : (a b : ℕ) → bit_xor a b ≡ bit_xor (a / 2) (b / 2) * 2 + differ (a % 2) (b % 2)
bit_xor_step a b = omega (
  arith,
  bit_xor-bitwise a b,
  bit_xor-bitwise (a / 2) (b / 2),
  digits_step (λ b. b) differ (λ b. omega arith) a b,
)

bit_and-zero_fuel : (n a : ℕ) → a ≤ n → bit_and a 0 ≡ 0
bit_and-zero_fuel zero (suc a) h = absurd (omega arith)
bit_and-zero_fuel (suc n) (suc a) h =
    omega (arith, bit_and-zero_fuel n (suc a / 2) (omega arith), bit_and_step (suc a) 0)
bit_and-zero_fuel n zero h = refl

bit_or-zero_fuel : (n a : ℕ) → a ≤ n → bit_or a 0 ≡ a
bit_or-zero_fuel n zero h = refl
bit_or-zero_fuel (suc n) (suc a) h =
    omega (arith, bit_or-zero_fuel n (suc a / 2) (omega arith), bit_or_step (suc a) 0)
bit_or-zero_fuel zero (suc a) h = absurd (omega arith)

differ-zero : (a : ℕ) → differ a 0 ≡ a
differ-zero zero = refl
differ-zero (suc a) = refl

bit_xor-zero_fuel : (n a : ℕ) → a ≤ n → bit_xor a 0 ≡ a
bit_xor-zero_fuel n zero h = refl
bit_xor-zero_fuel zero (suc a) h = absurd (omega arith)
bit_xor-zero_fuel (suc n) (suc a) h = omega (
  arith,
  bit_xor_step (suc a) 0,
  differ-zero (suc a % 2),
  bit_xor-zero_fuel n (suc a / 2) (omega arith),
)

pub bit_and-zero : (a : ℕ) → bit_and a 0 ≡ 0
bit_and-zero a = bit_and-zero_fuel a a (omega arith)

pub bit_or-zero : (a : ℕ) → bit_or a 0 ≡ a
bit_or-zero a = bit_or-zero_fuel a a (omega arith)

pub bit_xor-zero : (a : ℕ) → bit_xor a 0 ≡ a
bit_xor-zero a = bit_xor-zero_fuel a a (omega arith)

pub bit-le-one : (w k : ℕ) → bit w k ≤ 1
unfolding bit
bit-le-one w zero = omega arith
bit-le-one w (suc k) = bit-le-one (w / 2) k

pub half-pow : (k : ℕ) → (2 ^ suc k) / 2 ≡ 2 ^ k
half-pow k = omega (arith, pow-suc 2 k)

pub pow-positive : (k : ℕ) → 1 ≤ 2 ^ k
pow-positive k = one-le-pow k 2 (omega arith)

pub bit_and-mask : (w k : ℕ) → bit_and w (2 ^ k) ≡ bit w k * 2 ^ k
unfolding bit
bit_and-mask w zero = omega (arith, bit_and_step w 1, bit_and-zero (w / 2))
bit_and-mask w (suc k) = ground (
  arith,
  bit_and_step w (2 ^ suc k),
  half-pow k,
  pow-suc 2 k,
  ap (λ (t : ℕ). bit (w / 2) k * t) (pow-suc 2 k),
  bit_and-mask (w / 2) k,
)

-- The test of the source, `word & mask`, reads the bit.
pub mask_test : (w k : ℕ) → (bit_and w (2 ^ k) == 0) ≡ (bit w k == 0)
mask_test w k = grind (arith, bit_and-mask w k, bit-le-one w k, pow-positive k)

or_halves :
    (w k : ℕ)
    → (bit_or w (2 ^ suc k) / 2 ≡ bit_or (w / 2) (2 ^ k)) × (bit_or w (2 ^ suc k) % 2 ≡ w % 2)
or_halves w k = ground (arith, bit_or_step w (2 ^ suc k), half-pow k, pow-suc 2 k)

or_one : (w : ℕ) → (bit_or w 1 / 2 ≡ w / 2) × (bit_or w 1 % 2 ≡ 1)
or_one w = omega (arith, bit_or_step w 1, bit_or-zero (w / 2))

-- A bit set below `m` keeps a number below 2 ^ m.
pub bit_or-below : (m w k : ℕ) → k < m → w < 2 ^ m → bit_or w (2 ^ k) < 2 ^ m
bit_or-below zero w k k_lt lt = absurd (omega arith)
bit_or-below (suc m) w zero k_lt lt = omega (arith, or_one w, pow-suc 2 m)
bit_or-below (suc m) w (suc k) k_lt lt = omega (
  arith,
  or_halves w k,
  pow-suc 2 m,
  bit_or-below m (w / 2) k (omega arith) (omega (arith, pow-suc 2 m)),
)

pub bit-or_mask : (w k m : ℕ) → bit (bit_or w (2 ^ k)) m ≡ (if m == k then 1 else bit w m)
unfolding bit
bit-or_mask w zero zero = (or_one w).1
bit-or_mask w zero (suc m) = ground (arith, ap (λ t. bit t m) (or_one w).0)
bit-or_mask w (suc k) zero = ground (arith, (or_halves w k).1)
bit-or_mask w (suc k) (suc m) = rw ((or_halves w k).0) (ground (arith, bit-or_mask (w / 2) k m))

differ-parity : (a b : ℕ) → a ≤ 1 → b ≤ 1 → differ a b ≡ (a + b) % 2
differ-parity zero b p q = omega arith
differ-parity (suc zero) zero p q = refl
differ-parity (suc zero) (suc zero) p q = refl
differ-parity (suc zero) (suc (suc b)) p q = absurd (omega arith)
differ-parity (suc (suc a)) b p q = absurd (omega arith)

xor_halves :
    (w k : ℕ)
    → (bit_xor w (2 ^ suc k) / 2 ≡ bit_xor (w / 2) (2 ^ k)) × (bit_xor w (2 ^ suc k) % 2 ≡ w % 2)
xor_halves w k = ground (
  arith,
  bit_xor_step w (2 ^ suc k),
  half-pow k,
  pow-suc 2 k,
  differ-parity (w % 2) (2 ^ suc k % 2) (omega arith) (omega arith),
)

xor_one : (w : ℕ) → (bit_xor w 1 / 2 ≡ w / 2) × (bit_xor w 1 % 2 ≡ 1 - w % 2)
xor_one w = omega (
  arith,
  bit_xor_step w 1,
  bit_xor-zero (w / 2),
  differ-parity (w % 2) 1 (omega arith) (omega arith),
)

pub bit-xor_mask :
    (w k m : ℕ) → bit (bit_xor w (2 ^ k)) m ≡ (if m == k then 1 - bit w m else bit w m)
unfolding bit
bit-xor_mask w zero zero = (xor_one w).1
bit-xor_mask w zero (suc m) = ground (arith, ap (λ t. bit t m) (xor_one w).0)
bit-xor_mask w (suc k) zero = ground (arith, (xor_halves w k).1)
bit-xor_mask w (suc k) (suc m) = rw ((xor_halves w k).0) (ground (arith, bit-xor_mask (w / 2) k m))
