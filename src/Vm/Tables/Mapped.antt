-- ===== src/Vm/Tables/Mapped.antt =====
-- The loop of the functions `allocate` of assignment1/context_mm.c and assignment2/entry.c maps the
-- address that it is called for.
use operating_systems_assign.Base.{
  ℕ, suc, ◌+◌, ◌^◌, ◌<◌, ◌≤◌, ◌≡◌, ◌≢◌, refl, ap, ◌∙◌, inl, inr, true, Option, arith,
}
use mathlib.Core.Path.{subst}
use operating_systems_assign.Vm.Tables.{
  Frames, is_present, frame_of, open_table, open_page, map_page, walk, is_mapped, entry_present,
  l1_index, l2_index, l3_index, l4_index,
}
use operating_systems_assign.Vm.Tables.Opening.{open_table-Opens}
use operating_systems_assign.Vm.Tables.Page.{IsSmall, open_page-HasPage}
use operating_systems_assign.Vm.Tables.Forest.{IsForest, With, kept, served-by_one, Opened-IsForest}

pub record Descends (frame : ℕ → ℕ) (last : ℕ) (Old : ℕ → ℕ → Type 0) (f : Frames) (q j k : ℕ)
    (r : Frames × ℕ) : Type 0 where
  pub forest : IsForest frame last r.0 (With Old (suc k) r.1)
  keeps : (m p i : ℕ) → Old m p → p ≢ q → r.0.tables p i ≡ f.tables p i
  present : is_present (r.0.tables q j) ≡ true
  leads : frame_of (r.0.tables q j) ≡ r.1
  pub by_one : r.0.served ≤ suc f.served

pub open_table-Descends :
    (frame : ℕ → ℕ) (last : ℕ) (Old : ℕ → ℕ → Type 0) (flag k q j : ℕ) (f : Frames)
    → IsForest frame last f Old
    → Old (suc (suc k)) q
    → j < 512
    → f.served < last
    → Descends frame last Old f q j k (open_table frame flag q j f)
open_table-Descends frame last Old flag k q j f ok at lt room =
    let r = open_table frame flag q j f in
    let d =
      open_table-Opens frame flag q j f (ok.small f.served room)
        (ok.fresh (suc (suc k)) q f.served at (omega arith) room)
        (ok.tidy (suc (suc k)) q j lt at) in
    record {
      forest = Opened-IsForest frame last f r.0 Old q j r.1 k ok at lt d.present d.leads d.how room;
      keeps = λ m p i o ne.
          kept frame last f r.0 Old q j r.1 k ok at lt d.present d.leads d.how room m p i o
            (inl ne);
      present = d.present;
      leads = d.leads;
      by_one = served-by_one frame last f r.0 Old q j r.1 k ok at lt d.present d.leads d.how room;
    }

-- The entries on the way, by level.
pub walked :
    (tables : ℕ → ℕ → ℕ) (pgd va l3 l2 l1 : ℕ)
    → is_present (tables pgd (l4_index va)) ≡ true
    → frame_of (tables pgd (l4_index va)) ≡ l3
    → is_present (tables l3 (l3_index va)) ≡ true
    → frame_of (tables l3 (l3_index va)) ≡ l2
    → is_present (tables l2 (l2_index va)) ≡ true
    → frame_of (tables l2 (l2_index va)) ≡ l1
    → is_present (tables l1 (l1_index va)) ≡ true
    → is_mapped tables pgd va ≡ true
unfolding is_mapped walk entry_present
walked tables pgd va l3 l2 l1 a b c d e f g = rw (b, d, f, a, c, e) g

differ_by_level :
    (frame : ℕ → ℕ) (last : ℕ) (f : Frames) (Old : ℕ → ℕ → Type 0) (a b p q : ℕ)
    → IsForest frame last f Old
    → Old a p
    → Old b q
    → a ≢ b
    → p ≢ q
differ_by_level frame last f Old a b p q ok at at' ne same =
    ne (ok.one_level a b q (subst (Old a) same at) at')

-- After the loop the walk of the system calls finds the address, at whatever level tables were
-- missing: given page tables whose entries are zero where they are not present and lead from level
-- to level, four more frames to come that are none of them, pairwise different and below 2 ^ 20, an
-- address of 48 bits, and a page, where one is given, below 2 ^ 20.
pub map_page-is_mapped :
    (frame : ℕ → ℕ) (last : ℕ) (Old : ℕ → ℕ → Type 0) (given : Option ℕ) (flag pgd va : ℕ)
    (f : Frames)
    → IsForest frame last f Old
    → Old 4 pgd
    → va < 2 ^ 48
    → IsSmall given
    → f.served + 4 ≤ last
    → is_mapped (map_page frame given flag pgd va f).tables pgd va ≡ true
unfolding map_page
map_page-is_mapped frame last Old given flag pgd va f ok at lt s room =
    let r3 = open_table frame flag pgd (l4_index va) f in
    let r2 = open_table frame flag r3.1 (l3_index va) r3.0 in
    let r1 = open_table frame flag r2.1 (l2_index va) r2.0 in
    let h = open_page frame given flag r1.1 (l1_index va) r1.0 in
    let d3 =
      open_table-Descends frame last Old flag 2 pgd (l4_index va) f ok at (omega arith)
        (omega arith) in
    let Old3 = With Old 3 r3.1 in
    let d2 =
      open_table-Descends frame last Old3 flag 1 r3.1 (l3_index va) r3.0 d3.forest
        (inr (refl, refl)) (omega arith) (omega (arith, d3.by_one)) in
    let Old2 = With Old3 2 r2.1 in
    let d1 =
      open_table-Descends frame last Old2 flag 0 r2.1 (l2_index va) r2.0 d2.forest
        (inr (refl, refl)) (omega arith) (omega (arith, d3.by_one, d2.by_one)) in
    let Old1 = With Old2 1 r1.1 in
    let p =
      open_page-HasPage frame given flag r1.1 (l1_index va) r1.0
        (d1.forest.small r1.0.served (omega (arith, d3.by_one, d2.by_one, d1.by_one))) s
        (d1.forest.tidy 1 r1.1 (l1_index va) (omega arith) (inr (refl, refl))) in
    let apart : (a b x y : ℕ) → Old1 a x → Old1 b y → a ≢ b → x ≢ y =
      λ a b x y. differ_by_level frame last r1.0 Old1 a b x y d1.forest in
    let in4 : Old1 4 pgd = inl (inl (inl at)) in
    let in3 : Old1 3 r3.1 = inl (inl (inr (refl, refl))) in
    let in2 : Old1 2 r2.1 = inl (inr (refl, refl)) in
    let in1 : Old1 1 r1.1 = inr (refl, refl) in
    let e4 : h.tables pgd (l4_index va) ≡ r3.0.tables pgd (l4_index va) =
      p.others pgd _ (inl (apart 4 1 _ _ in4 in1 (λ e. absurd (omega (arith, e)))))
      ∙ d1.keeps 4 pgd _ (inl (inl at)) (apart 4 2 _ _ in4 in2 (λ e. absurd (omega (arith, e))))
      ∙ d2.keeps 4 pgd _ (inl at) (apart 4 3 _ _ in4 in3 (λ e. absurd (omega (arith, e)))) in
    let e3 : h.tables r3.1 (l3_index va) ≡ r2.0.tables r3.1 (l3_index va) =
      p.others r3.1 _ (inl (apart 3 1 _ _ in3 in1 (λ e. absurd (omega (arith, e)))))
      ∙ d1.keeps 3 r3.1 _ (inl (inr (refl, refl)))
          (apart 3 2 _ _ in3 in2 (λ e. absurd (omega (arith, e)))) in
    let e2 : h.tables r2.1 (l2_index va) ≡ r1.0.tables r2.1 (l2_index va) =
      p.others r2.1 _ (inl (apart 2 1 _ _ in2 in1 (λ e. absurd (omega (arith, e))))) in
    walked h.tables pgd va r3.1 r2.1 r1.1 (ap is_present e4 ∙ d3.present)
      (ap frame_of e4 ∙ d3.leads) (ap is_present e3 ∙ d2.present) (ap frame_of e3 ∙ d2.leads)
      (ap is_present e2 ∙ d1.present) (ap frame_of e2 ∙ d1.leads) p.present
