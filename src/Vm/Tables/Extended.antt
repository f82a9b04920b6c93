-- ===== src/Vm/Tables/Extended.antt =====
-- What the loop of the functions `allocate` of assignment1/context_mm.c and assignment2/entry.c
-- leaves of the page tables: a forest again, in which every address that was mapped still is.
use operating_systems_assign.Base.{
  ℕ, suc, ◌<◌, ◌≡◌, ◌≢◌, sym, ap, ◌∙◌, ◌⊎◌, inl, inr, Bool, true, false, arith,
}
use native.Mathlib.Decide.{ℕ_discrete}
use operating_systems_assign.Vm.Tables.{Frames, is_present, frame_of, open_table}
use operating_systems_assign.Vm.Tables.Opening.{old, new, Opens, open_table-Opens}
use operating_systems_assign.Vm.Tables.Forest.{IsForest, kept}

-- Entries of tables in use that are present still are, and lead where they led.
pub record Extends (Old : ℕ → ℕ → Type 0) (f g : Frames) : Type 0 where
  pub present :
      (m p i : ℕ) → Old m p → is_present (f.tables p i) ≡ true → is_present (g.tables p i) ≡ true
  pub leads :
      (m p i : ℕ)
      → Old m p
      → is_present (f.tables p i) ≡ true
      → frame_of (g.tables p i) ≡ frame_of (f.tables p i)

not_both : {b : Bool} → b ≡ true → b ≡ false → ⊥
not_both p q = cc

-- The entry that was opened, or another one.
pub here_or_not : (q j p i : ℕ) → ((p ≡ q) × (i ≡ j)) ⊎ ((p ≢ q) ⊎ (i ≢ j))
here_or_not q j p i = elim (ℕ_discrete p q) [
  | yes same ↦ elim (ℕ_discrete i j) [ yes same' ↦ inl (same, same') | no other ↦ inr (inr other) ]
  | no other ↦ inr (inl other)
]

module _ (frame : ℕ → ℕ) (last : ℕ) (f : Frames) (Old : ℕ → ℕ → Type 0) (flag q j k : ℕ)
    (ok : IsForest frame last f Old) (at : Old (suc (suc k)) q) (lt : j < 512)
    (room : f.served < last) where
  abbrev result : Frames × ℕ
  result = open_table frame flag q j f

  opens : Opens frame f q j result
  opens =
      open_table-Opens frame flag q j f (ok.small f.served room)
        (ok.fresh (suc (suc k)) q f.served at (omega arith) room) (ok.tidy (suc (suc k)) q j lt at)

  same_entry : (m p i : ℕ) → Old m p → (p ≢ q) ⊎ (i ≢ j) → result.0.tables p i ≡ f.tables p i
  same_entry =
      kept frame last f result.0 Old q j result.1 k ok at lt opens.present opens.leads opens.how
        room

  -- The entry opened leads where it led, if it was there.
  still_leads : is_present (f.tables q j) ≡ true → result.1 ≡ frame_of (f.tables q j)
  still_leads there = elim opens.how [
    | old a b c same ↦ b
    | new absent a b c same ↦ absurd (not_both there absent)
  ]

  pub open_table-Extends : Extends Old f result.0
  open_table-Extends = record {
    present = λ m p i o h. elim (here_or_not q j p i) [
      | inl (e, e') ↦ rw (e, e') opens.present
      | inr other ↦ ap is_present (same_entry m p i o other) ∙ h
    ];
    leads = λ m p i o h. elim (here_or_not q j p i) [
      | inl (e, e') ↦
          rw (e, e')
            (opens.leads
              ∙ still_leads (
                  ap (λ x. is_present (f.tables x j)) (sym e)
                  ∙ ap (λ x. is_present (f.tables p x)) (sym e')
                  ∙ h))
      | inr other ↦ ap frame_of (same_entry m p i o other)
    ];
  }
