-- ===== src/Vm/Tables/Page.antt =====
-- The last level of the loop of the functions `allocate` of assignment1/context_mm.c and
-- assignment2/entry.c: the page.
use operating_systems_assign.Base.{
  ℕ, suc, ◌^◌, ◌<◌, ◌≤◌, ◌≡◌, ◌≢◌, refl, sym, ap, ◌∙◌, ◌⊎◌, inl, inr, Bool, Bool-cases, true, false,
  Option, none, some, arith,
}
use mathlib.Core.Path.{subst}
use operating_systems_assign.Vm.Tables.{
  Frames, is_present, frame_of, open_page, link, grant, take_frame,
}
use operating_systems_assign.Vm.Tables.Opening.{link-entry, grant-entry, grant-others}
use operating_systems_assign.Vm.Tables.Forest.{IsForest}
use operating_systems_assign.Vm.Tables.Extended.{Extends, here_or_not}

-- The page given, if one is, has a number below 2 ^ 20.
abbrev pub IsSmall : Option ℕ → Type 0
IsSmall none = Unit
IsSmall (some a) = a < 2 ^ 20

-- The entry is present; if it was there before, nothing has changed, and no other entry has.
pub record HasPage (f : Frames) (q j : ℕ) (g : Frames) : Type 0 where
  pub present : is_present (g.tables q j) ≡ true
  pub others : (p i : ℕ) → (p ≢ q) ⊎ (i ≢ j) → g.tables p i ≡ f.tables p i
  pub same : is_present (f.tables q j) ≡ true → g.tables q j ≡ f.tables q j
  pub grows : (f.served ≤ g.served) × (g.served ≤ suc f.served)

both : {b : Bool} → b ≡ true → b ≡ false → ⊥
both p q = cc

linked-HasPage :
    (flag q j a : ℕ) (f f' : Frames)
    → f'.tables ≡ f.tables
    → (f.served ≤ f'.served) × (f'.served ≤ suc f.served)
    → is_present (f.tables q j) ≡ false
    → f.tables q j ≡ 0
    → a < 2 ^ 20
    → HasPage f q j (grant flag q j (link q j a f'))
linked-HasPage flag q j a f f' e served absent z small = record {
  present =
      (grant-entry flag q j (link q j a f')).0
      ∙ (link-entry q j a f' (ap (λ t. t q j) e ∙ z) small).0;
  others =
      λ p i ne. grant-others flag q j (link q j a f') p i ne ∙ (ground arith ∙ ap (λ t. t p i) e);
  same = λ there. absurd (both there absent);
  grows = ground (arith, served);
}

pub open_page-HasPage :
    (frame : ℕ → ℕ) (given : Option ℕ) (flag q j : ℕ) (f : Frames)
    → frame f.served < 2 ^ 20
    → IsSmall given
    → (is_present (f.tables q j) ≡ false → f.tables q j ≡ 0)
    → HasPage f q j (open_page frame given flag q j f)
unfolding open_page
open_page-HasPage frame none flag q j f small s empty =
    elim (Bool-cases (is_present (f.tables q j))) [
      | inl there ↦ rw there (record {
        present = there;
        others = λ p i ne. refl;
        same = λ h. refl;
        grows = (omega arith, omega arith);
      })
      | inr missing ↦ rw missing (
          linked-HasPage flag q j (frame f.served) f (take_frame f) refl (omega arith, omega arith)
            missing (empty missing) small)
    ]
open_page-HasPage frame (some a) flag q j f small s empty =
    elim (Bool-cases (is_present (f.tables q j))) [
      | inl there ↦ rw there (record {
        present = there;
        others = λ p i ne. refl;
        same = λ h. refl;
        grows = (omega arith, omega arith);
      })
      | inr missing ↦
          rw missing (
            linked-HasPage flag q j a f f refl (omega arith, omega arith) missing (empty missing) s)
    ]

module _ (frame : ℕ → ℕ) (last : ℕ) (f g : Frames) (Old : ℕ → ℕ → Type 0) (q j : ℕ)
    (ok : IsForest frame last f Old) (at : Old 1 q) (page : HasPage f q j g) where
  pub HasPage-Extends : Extends Old f g
  HasPage-Extends = record {
    present = λ m p i o h. elim (here_or_not q j p i) [
      | inl (e, e') ↦ rw (e, e') page.present
      | inr other ↦ ap is_present (page.others p i other) ∙ h
    ];
    leads = λ m p i o h. elim (here_or_not q j p i) [
      | inl (e, e') ↦
          rw (e, e')
            (ap frame_of (
              page.same (
                ap (λ x. is_present (f.tables x j)) (sym e)
                ∙ (ap (λ x. is_present (f.tables p x)) (sym e') ∙ h))))
      | inr other ↦ ap frame_of (page.others p i other)
    ];
  }

  -- Tables above level 1 are not touched.
  above : (l p i : ℕ) → Old (suc (suc l)) p → g.tables p i ≡ f.tables p i
  above l p i o = page.others p i (
      inl
        (λ e. absurd (omega (arith, ok.one_level (suc (suc l)) 1 p o (subst (Old 1) (sym e) at)))))

  pub HasPage-IsForest : IsForest frame last g Old
  HasPage-IsForest = record {
    small = ok.small;
    distinct = ok.distinct;
    one_level = ok.one_level;
    closed = λ l p i lt o h.
        subst (Old (suc l)) (sym (ap frame_of (above l p i o)))
          (ok.closed l p i lt o (ap is_present (sym (above l p i o)) ∙ h));
    tidy = λ l p i lt o h. elim (here_or_not q j p i) [
      | inl (e, e') ↦ absurd (
          both page.present (
            ap (λ x. is_present (g.tables x j)) (sym e)
            ∙ (ap (λ x. is_present (g.tables p x)) (sym e') ∙ h)))
      | inr other ↦
          page.others p i other
          ∙ ok.tidy l p i lt o (ap is_present (sym (page.others p i other)) ∙ h)
    ];
    fresh = λ l p n o le lt_n e. ok.fresh l p n o (omega (arith, page.grows)) lt_n e;
  }
