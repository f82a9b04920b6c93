-- ===== src/Example/Table.antt =====
-- The loops of `find_object_id` and `create_object` of assignment4/example/objstore.c.
use operating_systems_assign.Base.{
  ℕ, zero, suc, ◌+◌, ◌-◌, ◌<◌, ◌≤◌, ◌≡◌, ◌≢◌, refl, ap, ◌∙◌, Bool, true, false, List, some, arith,
  inl, inr, Bool-cases,
}
use native.Mathlib.Decide.{ℕ_discrete}
use operating_systems_assign.ObjStore.Store.{same_text}
use operating_systems_assign.Example.{
  Entry, unused, held_as, claim_entry, duplicate, scanned, scan_taken, scan_free, find_entry,
}

clash : {b : Bool} → b ≡ true → b ≡ false → ⊥
clash p q = cc

-- Entry `f` is the first of those from `from` on that is not in use, and no entry before it is held
-- under the key.
pub record FirstFree (key : List ℕ) (objs : ℕ → Entry) (from f : ℕ) : Type 0 where
  pub free : unused (objs f) ≡ true
  pub taken : (m : ℕ) → from ≤ m → m < f → unused (objs m) ≡ false
  pub differ : (m : ℕ) → from ≤ m → m < f → same_text (objs m).key key ≡ false

module _ (key : List ℕ) (objs : ℕ → Entry) where
  pub find_entry-first :
      (n ctr f : ℕ)
      → ctr ≤ f
      → f < ctr + n
      → held_as key (objs f) ≡ true
      → ((m : ℕ) → ctr ≤ m → m < f → held_as key (objs m) ≡ false)
      → find_entry objs key n ctr ≡ some f
  unfolding find_entry
  find_entry-first zero ctr f le lt held before = absurd (omega arith)
  find_entry-first (suc n) ctr f le lt held before = elim (ℕ_discrete ctr f) [
    | yes same ↦ rw (same, held) refl
    | no other ↦ rw (before ctr (omega arith) (omega (arith, other))) (
        find_entry-first n (suc ctr) f (omega (arith, other)) (omega arith) held
          (λ m le_m lt_m. before m (omega arith) lt_m))
  ]

  pub scan_taken-duplicate :
      (n ctr free j : ℕ)
      → ctr ≤ j
      → j < ctr + n
      → held_as key (objs j) ≡ true
      → scan_taken key objs free n ctr ≡ duplicate objs
  unfolding scan_taken
  scan_taken-duplicate zero ctr free j le lt held = absurd (omega arith)
  scan_taken-duplicate (suc n) ctr free j le lt held = elim (Bool-cases (held_as key (objs ctr))) [
    | inl here ↦ rw here refl
    | inr other ↦
        let apart : ctr ≢ j = λ e. clash (ap (λ m. held_as key (objs m)) e ∙ held) other in
        rw other (scan_taken-duplicate n (suc ctr) free j (omega (arith, apart)) (omega arith) held)
  ]

  pub scan_taken-scanned :
      (n ctr free : ℕ)
      → ((m : ℕ) → ctr ≤ m → m < ctr + n → held_as key (objs m) ≡ false)
      → scan_taken key objs free n ctr ≡ scanned objs (some free)
  unfolding scan_taken
  scan_taken-scanned zero ctr free none_held = refl
  scan_taken-scanned (suc n) ctr free none_held =
      rw (none_held ctr (omega arith) (omega arith))
        (scan_taken-scanned n (suc ctr) free (λ m le lt. none_held m (omega arith) (omega arith)))

  pub scan_free-first :
      (n ctr f : ℕ)
      → ctr ≤ f
      → f < ctr + n
      → FirstFree key objs ctr f
      → scan_free key objs n ctr ≡ scan_taken key (claim_entry objs f) f (ctr + n - suc f) (suc f)
  unfolding scan_free
  scan_free-first zero ctr f le lt first = absurd (omega arith)
  scan_free-first (suc n) ctr f le lt first = elim (ℕ_discrete ctr f) [
    | yes same ↦
        let left : ctr + suc n - suc f ≡ n = omega (arith, same) in rw (left, same, first.free) refl
    | no other ↦
        let left : suc ctr + n - suc f ≡ ctr + suc n - suc f = omega arith in
        rw
          (
            first.taken ctr (omega arith) (omega (arith, other)),
            first.differ ctr (omega arith) (omega (arith, other)),
          )
          (scan_free-first n (suc ctr) f (omega (arith, other)) (omega arith) (record {
            free = first.free;
            taken = λ m le_m lt_m. first.taken m (omega arith) lt_m;
            differ = λ m le_m lt_m. first.differ m (omega arith) lt_m;
          })
            ∙ ap (λ k. scan_taken key (claim_entry objs f) f k (suc f)) left)
  ]
