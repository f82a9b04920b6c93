-- ===== src/Sched/Calls/Clone/Digits.antt =====
-- The decimal digits that `do_clone` of assignment3/schedule.c puts behind a name.
use operating_systems_assign.Base.{
  ℕ, zero, suc, ◌+◌, ◌-◌, ◌*◌, ◌/◌, ◌%◌, ◌^◌, ◌<◌, ◌≤◌, ◌≡◌, refl, ◌∙◌, List, [], ◌∷◌, ◌==◌, false,
  Bool-cases, inl, inr, arith,
}
use native.Mathlib.Nat.{pow-suc}
use operating_systems_assign.ObjStore.Store.{length}
use operating_systems_assign.Sched.Calls.Clone.{digits}

-- The number that decimal characters stand for, behind those that stand for `n`.
unfoldable pub value : ℕ → List ℕ → ℕ
value n [] = n
value n (c ∷ cs) = value (10 * n + (c - b'0')) cs

pub data IsDecimal : List ℕ → Type 0 where
  no_digits : IsDecimal []
  one_more : {c : ℕ} {cs : List ℕ} → b'0' ≤ c → c ≤ b'9' → IsDecimal cs → IsDecimal (c ∷ cs)

-- The text of the number `n`: decimal digits that stand for it, `k` of them at most.
pub record Spells (n k : ℕ) (text : List ℕ) : Type 0 where
  pub decimal : IsDecimal text
  pub number : value 0 text ≡ n
  pub short : length text ≤ k

digits-value : (fuel n : ℕ) (cs : List ℕ) → n ≤ fuel → value 0 (digits false fuel n cs) ≡ value n cs
unfolding digits value
digits-value zero n cs le = let none : n ≡ 0 = omega arith in rw none refl
digits-value (suc fuel) n cs le = elim (Bool-cases (n == 0)) [
  | inl none ↦ let e : n ≡ 0 = ground arith in rw e refl
  | inr some ↦
      let e : 10 * (n / 10) + (n % 10 + b'0' - b'0') ≡ n = omega arith in
      rw some (digits-value fuel (n / 10) ((n % 10 + b'0') ∷ cs) (ground arith) ∙ rw e refl)
]

digits-IsDecimal : (fuel n : ℕ) (cs : List ℕ) → IsDecimal cs → IsDecimal (digits false fuel n cs)
unfolding digits
digits-IsDecimal zero n cs ok = ok
digits-IsDecimal (suc fuel) n cs ok = elim (Bool-cases (n == 0)) [
  | inl none ↦ rw none ok
  | inr some ↦ rw some (
      digits-IsDecimal fuel (n / 10) ((n % 10 + b'0') ∷ cs)
        (one_more (omega arith) (omega arith) ok))
]

digits-length :
    (fuel k n : ℕ) (cs : List ℕ) → n < 10 ^ k → length (digits false fuel n cs) ≤ k + length cs
unfolding digits
digits-length zero k n cs lt = omega arith
digits-length (suc fuel) zero n cs lt = let none : n ≡ 0 = omega arith in rw none (omega arith)
digits-length (suc fuel) (suc k) n cs lt = elim (Bool-cases (n == 0)) [
  | inl none ↦ rw none (omega arith)
  | inr some ↦
      let below : n / 10 < 10 ^ k = omega (arith, pow-suc 10 k) in
      rw some (ground (arith, digits-length fuel k (n / 10) ((n % 10 + b'0') ∷ cs) below))
]

-- The loops of `do_clone` over a pid below 2 ^ 31, run for as many rounds as the pid says or more,
-- leave its decimal digits, from which the pid can be read back: ten of them at most, so the array
-- of 20 characters has room for them and the zero behind.
pub digits-Spells : (fuel n : ℕ) → n ≤ fuel → n < 2 ^ 31 → Spells n 10 (digits false fuel n [])
unfolding value
digits-Spells fuel n le lt = record {
  decimal = digits-IsDecimal fuel n [] no_digits;
  number = digits-value fuel n [] le;
  short = omega (arith, digits-length fuel 10 n [] (omega arith));
}
