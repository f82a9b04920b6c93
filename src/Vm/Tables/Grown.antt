-- ===== src/Vm/Tables/Grown.antt =====
-- Several addresses, mapped one after the other by the loop of the functions `allocate` of
-- assignment1/context_mm.c and assignment2/entry.c.
use operating_systems_assign.Base.{
  ℕ, ◌+◌, ◌^◌, ◌<◌, ◌≤◌, ◌≡◌, refl, ◌∙◌, inl, inr, Bool, true, false, ◌&&◌, if◌then◌else◌, Option,
  none, some, arith,
}
use operating_systems_assign.Vm.Tables.{
  Frames, is_present, frame_of, open_table, open_page, map_page, walk, is_mapped, entry_present,
  l1_index, l2_index, l3_index, l4_index,
}
use operating_systems_assign.Vm.Tables.Forest.{IsForest, With}
use operating_systems_assign.Vm.Tables.Page.{
  IsSmall, open_page-HasPage, HasPage-Extends, HasPage-IsForest,
}
use operating_systems_assign.Vm.Tables.Mapped.{walked, open_table-Descends}
use operating_systems_assign.Vm.Tables.Extended.{Extends, open_table-Extends}

-- The four entries on the way to an address that is mapped.
record WayTo (tables : ℕ → ℕ → ℕ) (pgd va : ℕ) : Type 0 where
  fourth : is_present (tables pgd (l4_index va)) ≡ true
  third : is_present (tables (frame_of (tables pgd (l4_index va))) (l3_index va)) ≡ true
  second :
      is_present (
        tables
          (frame_of (tables (frame_of (tables pgd (l4_index va))) (l3_index va)))
          (l2_index va))
      ≡ true
  first :
      is_present (
        tables
          (frame_of (
            tables
              (frame_of (tables (frame_of (tables pgd (l4_index va))) (l3_index va)))
              (l2_index va)))
          (l1_index va))
      ≡ true

walked_through :
    (tables : ℕ → ℕ → ℕ) (a b c : Bool) (p i : ℕ)
    → entry_present tables (if a && (b && c) then some (p, i) else none) ≡ true
    → (a ≡ true) × (b ≡ true) × (c ≡ true) × (is_present (tables p i) ≡ true)
unfolding entry_present
walked_through tables true true true p i h = (refl, refl, refl, h)
walked_through tables true true false p i h = absurd cc
walked_through tables true false c p i h = absurd cc
walked_through tables false b c p i h = absurd cc

is_mapped-WayTo :
    (tables : ℕ → ℕ → ℕ) (pgd va : ℕ) → is_mapped tables pgd va ≡ true → WayTo tables pgd va
unfolding is_mapped walk entry_present
is_mapped-WayTo tables pgd va h =
    let (a, b, c, d) = walked_through tables _ _ _ _ _ h in
    record { fourth = a; third = b; second = c; first = d }

Extends-trans :
    (Old New : ℕ → ℕ → Type 0) (f g h : Frames)
    → ((m p : ℕ) → Old m p → New m p)
    → Extends Old f g
    → Extends New g h
    → Extends Old f h
Extends-trans Old New f g h more e e' = record {
  present = λ m p i o x. e'.present m p i (more m p o) (e.present m p i o x);
  leads = λ m p i o x. e'.leads m p i (more m p o) (e.present m p i o x) ∙ e.leads m p i o x;
}

-- An address that is mapped stays so.
pub Extends-is_mapped :
    (frame : ℕ → ℕ) (last : ℕ) (Old : ℕ → ℕ → Type 0) (pgd va : ℕ) (f g : Frames)
    → IsForest frame last f Old
    → Old 4 pgd
    → va < 2 ^ 48
    → Extends Old f g
    → is_mapped f.tables pgd va ≡ true
    → is_mapped g.tables pgd va ≡ true
Extends-is_mapped frame last Old pgd va f g ok at lt e h =
    let w = is_mapped-WayTo f.tables pgd va h in
    let p3 = frame_of (f.tables pgd (l4_index va)) in
    let in3 : Old 3 p3 = ok.closed 2 pgd (l4_index va) (omega arith) at w.fourth in
    let p2 = frame_of (f.tables p3 (l3_index va)) in
    let in2 : Old 2 p2 = ok.closed 1 p3 (l3_index va) (omega arith) in3 w.third in
    let p1 = frame_of (f.tables p2 (l2_index va)) in
    let in1 : Old 1 p1 = ok.closed 0 p2 (l2_index va) (omega arith) in2 w.second in
    walked g.tables pgd va p3 p2 p1 (e.present 4 pgd (l4_index va) at w.fourth)
      (e.leads 4 pgd (l4_index va) at w.fourth) (e.present 3 p3 (l3_index va) in3 w.third)
      (e.leads 3 p3 (l3_index va) in3 w.third) (e.present 2 p2 (l2_index va) in2 w.second)
      (e.leads 2 p2 (l2_index va) in2 w.second) (e.present 1 p1 (l1_index va) in1 w.first)

-- What the loop leaves: a forest with the tables on the way, in which nothing is lost, after four
-- more frames at most.
pub record Maps (frame : ℕ → ℕ) (last : ℕ) (Old : ℕ → ℕ → Type 0) (f : Frames) (l3 l2 l1 : ℕ)
    (g : Frames) : Type 0 where
  pub forest : IsForest frame last g (With (With (With Old 3 l3) 2 l2) 1 l1)
  pub extends : Extends Old f g
  pub by_four : g.served ≤ f.served + 4

pub map_page-Maps :
    (frame : ℕ → ℕ) (last : ℕ) (Old : ℕ → ℕ → Type 0) (given : Option ℕ) (flag pgd va : ℕ)
    (f : Frames)
    → IsForest frame last f Old
    → Old 4 pgd
    → va < 2 ^ 48
    → IsSmall given
    → f.served + 4 ≤ last
    → (l3 l2 l1 : ℕ) × Maps frame last Old f l3 l2 l1 (map_page frame given flag pgd va f)
unfolding map_page
map_page-Maps frame last Old given flag pgd va f ok at lt s room =
    let r3 = open_table frame flag pgd (l4_index va) f in
    let r2 = open_table frame flag r3.1 (l3_index va) r3.0 in
    let r1 = open_table frame flag r2.1 (l2_index va) r2.0 in
    let h = open_page frame given flag r1.1 (l1_index va) r1.0 in
    let d3 =
      open_table-Descends frame last Old flag 2 pgd (l4_index va) f ok at (omega arith)
        (omega arith) in
    let e3 =
      open_table-Extends frame last f Old flag pgd (l4_index va) 2 ok at (omega arith)
        (omega arith) in
    let Old3 = With Old 3 r3.1 in
    let d2 =
      open_table-Descends frame last Old3 flag 1 r3.1 (l3_index va) r3.0 d3.forest
        (inr (refl, refl)) (omega arith) (omega (arith, d3.by_one)) in
    let e2 =
      open_table-Extends frame last r3.0 Old3 flag r3.1 (l3_index va) 1 d3.forest (inr (refl, refl))
        (omega arith) (omega (arith, d3.by_one)) in
    let Old2 = With Old3 2 r2.1 in
    let d1 =
      open_table-Descends frame last Old2 flag 0 r2.1 (l2_index va) r2.0 d2.forest
        (inr (refl, refl)) (omega arith) (omega (arith, d3.by_one, d2.by_one)) in
    let e1 =
      open_table-Extends frame last r2.0 Old2 flag r2.1 (l2_index va) 0 d2.forest (inr (refl, refl))
        (omega arith) (omega (arith, d3.by_one, d2.by_one)) in
    let Old1 = With Old2 1 r1.1 in
    let page =
      open_page-HasPage frame given flag r1.1 (l1_index va) r1.0
        (d1.forest.small r1.0.served (omega (arith, d3.by_one, d2.by_one, d1.by_one))) s
        (d1.forest.tidy 1 r1.1 (l1_index va) (omega arith) (inr (refl, refl))) in
    let e0 =
      HasPage-Extends frame last r1.0 h Old1 r1.1 (l1_index va) d1.forest (inr (refl, refl)) page in
    (
      r3.1,
      r2.1,
      r1.1,
      record {
        forest =
            HasPage-IsForest frame last r1.0 h Old1 r1.1 (l1_index va) d1.forest (inr (refl, refl))
              page;
        extends =
            Extends-trans Old Old3 f r3.0 h (λ m p o. inl o) e3
              (Extends-trans Old3 Old2 r3.0 r2.0 h (λ m p o. inl o) e2
                (Extends-trans Old2 Old1 r2.0 r1.0 h (λ m p o. inl o) e1 e0));
        by_four = omega (arith, d3.by_one, d2.by_one, d1.by_one, page.grows);
      },
    )
