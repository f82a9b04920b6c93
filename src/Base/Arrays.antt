-- ===== src/Base/Arrays.antt =====
-- Arrays of C as functions from the index, and the loops that copy bytes between them.
use operating_systems_assign.Base.{
  ℕ, zero, suc, ◌+◌, ◌-◌, ◌≡◌, arith, ltb, leb, ◌==◌, ◌&&◌, if◌then◌else◌,
}

abbrev pub update {ℓ} : {A : Type ℓ} → (ℕ → A) → ℕ → A → ℕ → A
update f i a j = if j == i then a else f j

-- `for (i = 0; i < n; i++) *(to + off + i) = *(from + i);`
unfoldable pub copy_bytes : ℕ → (ℕ → ℕ) → ℕ → (ℕ → ℕ) → ℕ → ℕ
copy_bytes zero to off from = to
copy_bytes (suc n) to off from = update (copy_bytes n to off from) (off + n) (from n)

pub copy_bytes_lem :
    (n : ℕ) (to : ℕ → ℕ) (off : ℕ) (from : ℕ → ℕ) (a : ℕ)
    → copy_bytes n to off from a ≡ (if leb off a && ltb a (off + n) then from (a - off) else to a)
unfolding copy_bytes
copy_bytes_lem zero to off from a = ground arith
copy_bytes_lem (suc n) to off from a = ground (arith, copy_bytes_lem n to off from a)
