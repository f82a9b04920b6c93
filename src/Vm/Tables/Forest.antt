-- ===== src/Vm/Tables/Forest.antt =====
-- The page tables as a forest of frames by level, and what the loop of `allocate` in
-- assignment1/context_mm.c and assignment2/entry.c makes of it: the address is mapped.
use operating_systems_assign.Base.{
  ℕ, suc, ◌^◌, ◌<◌, ◌≤◌, ◌≡◌, ◌≢◌, sym, ap, ◌∙◌, ◌⊎◌, inl, inr, Bool, true, false, arith,
}
use native.Mathlib.Decide.{ℕ_discrete}
use mathlib.Core.Path.{subst}
use operating_systems_assign.Vm.Tables.{Frames, is_present, frame_of}
use operating_systems_assign.Vm.Tables.Opening.{Opened, old, new}

-- `Old l p`: frame `p` is in use as a page table of level `l`. An entry that is not present is zero, one
-- that is present leads to a table of the level below, and the frames that are still to come, of the
-- first `last` ones, are different, below 2 ^ 20 and not in use.
pub record IsForest (frame : ℕ → ℕ) (last : ℕ) (f : Frames) (Old : ℕ → ℕ → Type 0) : Type 0 where
  pub small : (n : ℕ) → n < last → frame n < 2 ^ 20
  pub distinct : (m n : ℕ) → m < last → n < last → frame m ≡ frame n → m ≡ n
  pub one_level : (l m p : ℕ) → Old l p → Old m p → l ≡ m
  pub closed :
      (l p i : ℕ)
      → i < 512
      → Old (suc (suc l)) p
      → is_present (f.tables p i) ≡ true
      → Old (suc l) (frame_of (f.tables p i))
  pub tidy : (l p i : ℕ) → i < 512 → Old l p → is_present (f.tables p i) ≡ false → f.tables p i ≡ 0
  pub fresh : (l p n : ℕ) → Old l p → f.served ≤ n → n < last → frame n ≢ p

-- The forest with one more table.
abbrev pub With : (ℕ → ℕ → Type 0) → ℕ → ℕ → ℕ → ℕ → Type 0
With Old l x m p = Old m p ⊎ ((m ≡ l) × (p ≡ x))

suc_injective : {m n : ℕ} → suc m ≡ suc n → m ≡ n
suc_injective e = omega arith

not_zero : (e : ℕ) → e ≡ 0 → is_present e ≡ true → ⊥
not_zero e z h = ground arith

not_both : {b : Bool} → b ≡ true → b ≡ false → ⊥
not_both p q = cc

module _ (frame : ℕ → ℕ) (last : ℕ) (f g : Frames) (Old : ℕ → ℕ → Type 0) (q j l k : ℕ)
    (ok : IsForest frame last f Old) (at : Old (suc (suc k)) q) (lt : j < 512)
    (present : is_present (g.tables q j) ≡ true) (leads : frame_of (g.tables q j) ≡ l)
    (how : Opened frame f q j g l) (room : f.served < last) where
  -- Tables in use keep all entries but the one that was opened.
  pub kept : (m p i : ℕ) → Old m p → (p ≢ q) ⊎ (i ≢ j) → g.tables p i ≡ f.tables p i
  kept m p i o other = elim how [
    | old a b c same ↦ same p i other
    | new absent a b c same ↦
        same p i (λ e. ok.fresh m p f.served o (omega arith) room (sym a ∙ sym e)) other
  ]

  -- The table opened was in use, or is empty and was the next frame.
  opened :
      (Old (suc k) l × (g.served ≡ f.served))
      ⊎ ((l ≡ frame f.served) × (g.served ≡ suc f.served) × ((i : ℕ) → i < 512 → g.tables l i ≡ 0))
  opened = elim how [
    | old a b c same ↦ inl (subst (Old (suc k)) (sym b) (ok.closed k q j lt at a), c)
    | new absent a b c same ↦ inr (a, b, c)
  ]

  opened-one_level : (m : ℕ) → Old m l → m ≡ suc k
  opened-one_level m o = elim opened [
    | inl (o', e) ↦ ok.one_level m (suc k) l o o'
    | inr (e, s, z) ↦ absurd (ok.fresh m l f.served o (omega arith) room (sym e))
  ]

  old-closed :
      (m p i : ℕ)
      → i < 512
      → Old (suc (suc m)) p
      → is_present (g.tables p i) ≡ true
      → With Old (suc k) l (suc m) (frame_of (g.tables p i))
  old-closed m p i i_lt o h = elim (ℕ_discrete p q) [
    | yes same ↦ elim (ℕ_discrete i j) [
      | yes same' ↦ inr (
        suc_injective
            (ok.one_level (suc (suc m)) (suc (suc k)) q (subst (Old (suc (suc m))) same o) at),
        ap (λ n. frame_of (g.tables n i)) same ∙ ap (λ n. frame_of (g.tables q n)) same' ∙ leads,
      )
      | no other ↦ unchanged (kept (suc (suc m)) p i o (inr other))
    ]
    | no other ↦ unchanged (kept (suc (suc m)) p i o (inl other))
  ]
    where
      unchanged : g.tables p i ≡ f.tables p i → With Old (suc k) l (suc m) (frame_of (g.tables p i))
      unchanged e = inl (
          subst (Old (suc m)) (ap frame_of (sym e))
            (ok.closed m p i i_lt o (ap is_present (sym e) ∙ h)))

  old-tidy : (m p i : ℕ) → i < 512 → Old m p → is_present (g.tables p i) ≡ false → g.tables p i ≡ 0
  old-tidy m p i i_lt o h = elim (ℕ_discrete p q) [
    | yes same ↦ elim (ℕ_discrete i j) [
      | yes same' ↦ absurd (
          not_both present (
            ap (λ n. is_present (g.tables q n)) (sym same')
            ∙ ap (λ n. is_present (g.tables n i)) (sym same)
            ∙ h))
      | no other ↦ unchanged (kept m p i o (inr other))
    ]
    | no other ↦ unchanged (kept m p i o (inl other))
  ]
    where
      unchanged : g.tables p i ≡ f.tables p i → g.tables p i ≡ 0
      unchanged e = e ∙ ok.tidy m p i i_lt o (ap is_present (sym e) ∙ h)

  new-closed :
      (m i : ℕ)
      → i < 512
      → suc (suc m) ≡ suc k
      → is_present (g.tables l i) ≡ true
      → With Old (suc k) l (suc m) (frame_of (g.tables l i))
  new-closed m i i_lt e h = elim opened [
    | inl (o, s) ↦ old-closed m l i i_lt (subst (λ n. Old n l) (sym e) o) h
    | inr (a, s, z) ↦ absurd (not_zero _ (z i i_lt) h)
  ]

  new-tidy : (i : ℕ) → i < 512 → is_present (g.tables l i) ≡ false → g.tables l i ≡ 0
  new-tidy i i_lt h = elim opened [
    | inl (o, s) ↦ old-tidy (suc k) l i i_lt o h
    | inr (a, s, z) ↦ z i i_lt
  ]

  served-grows : f.served ≤ g.served
  served-grows = elim opened [ inl (o, s) ↦ omega (arith, s) | inr (a, s, z) ↦ omega (arith, s) ]

  pub served-by_one : g.served ≤ suc f.served
  served-by_one = elim opened [ inl (o, s) ↦ omega (arith, s) | inr (a, s, z) ↦ omega (arith, s) ]

  new-fresh : (n : ℕ) → g.served ≤ n → n < last → frame n ≢ l
  new-fresh n le lt_n e = elim opened [
    | inl (o, s) ↦ ok.fresh (suc k) l n o (omega (arith, s)) lt_n e
    | inr (a, s, z) ↦ absurd (omega (arith, s, ok.distinct n f.served lt_n room (e ∙ a)))
  ]

  pub Opened-IsForest : IsForest frame last g (With Old (suc k) l)
  Opened-IsForest = record {
    small = ok.small;
    distinct = ok.distinct;
    one_level = levels;
    closed = λ m p i i_lt o h. elim o [
      | inl o' ↦ old-closed m p i i_lt o' h
      | inr (e, e') ↦
          subst (λ n. With Old (suc k) l (suc m) (frame_of (g.tables n i))) (sym e')
            (new-closed m i i_lt e (ap (λ n. is_present (g.tables n i)) (sym e') ∙ h))
    ];
    tidy = λ m p i i_lt o h. elim o [
      | inl o' ↦ old-tidy m p i i_lt o' h
      | inr (e, e') ↦
          ap (λ n. g.tables n i) e'
          ∙ new-tidy i i_lt (ap (λ n. is_present (g.tables n i)) (sym e') ∙ h)
    ];
    fresh = λ m p n o le lt_n e. elim o [
      | inl o' ↦ ok.fresh m p n o' (omega (arith, served-grows)) lt_n e
      | inr (e', e'') ↦ new-fresh n le lt_n (e ∙ e'')
    ];
  }
    where
      levels : (a b p : ℕ) → With Old (suc k) l a p → With Old (suc k) l b p → a ≡ b
      levels a b p (inl o) (inl o') = ok.one_level a b p o o'
      levels a b p (inl o) (inr (e, e')) = opened-one_level a (subst (Old a) e' o) ∙ sym e
      levels a b p (inr (e, e')) (inl o) = e ∙ sym (opened-one_level b (subst (Old b) e' o))
      levels a b p (inr (e, e')) (inr (d, d')) = e ∙ sym d
