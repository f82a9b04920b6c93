-- ===== src/Vm/Context/Prepared.antt =====
-- What `prepare_context_mm` of assignment1/context_mm.c leaves: the address space of a new process.
use operating_systems_assign.Base.{
  ℕ, ◌+◌, ◌^◌, ◌<◌, ◌≤◌, ◌≡◌, refl, sym, ap, ◌∙◌, inl, true, none, some, arith,
}
use operating_systems_assign.Vm.Tables.{
  Space, Frames, clear_table, take_frame, is_present, map_page, is_mapped,
}
use operating_systems_assign.Vm.Tables.Forest.{IsForest, With}
use operating_systems_assign.Vm.Tables.Mapped.{map_page-is_mapped}
use operating_systems_assign.Vm.Tables.Grown.{map_page-Maps, Extends-is_mapped}
use operating_systems_assign.Vm.Context.{
  of_code, of_data, of_stack, address_of, allocate_segment, prepare_context_mm,
}

-- The top table of a new space, and nothing else.
abbrev Root : ℕ → ℕ → ℕ → Type 0
Root a m p = (m ≡ 4) × (p ≡ a)

cleared : (a i : ℕ) (f : Frames) → i < 512 → (clear_table a (take_frame f)).tables a i ≡ 0
cleared a i f lt = ground arith

absent : (e : ℕ) → e ≡ 0 → is_present e ≡ true → ⊥
absent e z h = ground arith

Root-IsForest :
    (frame : ℕ → ℕ) (last : ℕ) (f : Frames)
    → ((n : ℕ) → n < last → frame n < 2 ^ 20)
    → ((m n : ℕ) → m < last → n < last → frame m ≡ frame n → m ≡ n)
    → f.served < last
    → IsForest frame last (clear_table (frame f.served) (take_frame f)) (Root (frame f.served))
Root-IsForest frame last f small distinct room =
    let a = frame f.served in
    let g = clear_table a (take_frame f) in
    let zero_at : (p i : ℕ) → p ≡ a → i < 512 → g.tables p i ≡ 0 =
      λ p i e lt. ap (λ q. g.tables q i) e ∙ cleared a i f lt in
    record {
      small = small;
      distinct = distinct;
      one_level = λ l m p o o'. o.0 ∙ sym o'.0;
      closed = λ l p i lt o h. absurd (absent (g.tables p i) (zero_at p i o.1 lt) h);
      tidy = λ l p i lt o h. zero_at p i o.1 lt;
      fresh = λ l p n o le lt e. absurd (omega (arith, le, distinct n f.served lt room (e ∙ o.1)));
    }

-- In the space of a new process the first pages of its code and of its data and the last page of
-- its stack are mapped, whatever tables the three have in common: given frames to come that are
-- pairwise different and below 2 ^ 20, thirteen of them, addresses of 48 bits, and a page for the
-- arguments below 2 ^ 20.
pub prepare_context_mm-is_mapped :
    (frame : ℕ → ℕ) (last : ℕ) (ctx : Space) (f : Frames)
    → ((n : ℕ) → n < last → frame n < 2 ^ 20)
    → ((m n : ℕ) → m < last → n < last → frame m ≡ frame n → m ≡ n)
    → f.served + 13 ≤ last
    → address_of of_code ctx.code < 2 ^ 48
    → address_of of_data ctx.data_segment < 2 ^ 48
    → address_of of_stack ctx.stack < 2 ^ 48
    → ctx.arg_pfn < 2 ^ 20
    → let (space, g) = prepare_context_mm frame ctx f in
      (is_mapped g.tables space.pgd (address_of of_code ctx.code) ≡ true)
      × (is_mapped g.tables space.pgd (address_of of_data ctx.data_segment) ≡ true)
      × (is_mapped g.tables space.pgd (address_of of_stack ctx.stack) ≡ true)
unfolding prepare_context_mm allocate_segment
prepare_context_mm-is_mapped frame last ctx f small distinct room c_lt d_lt s_lt arg =
    let a = frame f.served in
    let f0 = clear_table a (take_frame f) in
    let ok0 = Root-IsForest frame last f small distinct (omega arith) in
    let c = address_of of_code ctx.code in
    let d = address_of of_data ctx.data_segment in
    let s = address_of of_stack ctx.stack in
    let f1 = map_page frame none ctx.code.access_flags a c f0 in
    let f2 = map_page frame (some ctx.arg_pfn) ctx.data_segment.access_flags a d f1 in
    let (x3, x2, x1, m1) =
      map_page-Maps frame last (Root a) none ctx.code.access_flags a c f0 ok0 (refl, refl) c_lt tt
        (omega arith) in
    let Old1 = With (With (With (Root a) 3 x3) 2 x2) 1 x1 in
    let root1 : Old1 4 a = inl (inl (inl (refl, refl))) in
    let (y3, y2, y1, m2) =
      map_page-Maps frame last Old1 (some ctx.arg_pfn) ctx.data_segment.access_flags a d f1
        m1.forest root1 d_lt arg (omega (arith, m1.by_four)) in
    let Old2 = With (With (With Old1 3 y3) 2 y2) 1 y1 in
    let root2 : Old2 4 a = inl (inl (inl root1)) in
    let (z3, z2, z1, m3) =
      map_page-Maps frame last Old2 none ctx.stack.access_flags a s f2 m2.forest root2 s_lt tt
        (omega (arith, m1.by_four, m2.by_four)) in
    let f3 = map_page frame none ctx.stack.access_flags a s f2 in
    let code1 =
      map_page-is_mapped frame last (Root a) none ctx.code.access_flags a c f0 ok0 (refl, refl) c_lt
        tt (omega arith) in
    let code2 = Extends-is_mapped frame last Old1 a c f1 f2 m1.forest root1 c_lt m2.extends code1 in
    let data2 =
      map_page-is_mapped frame last Old1 (some ctx.arg_pfn) ctx.data_segment.access_flags a d f1
        m1.forest root1 d_lt arg (omega (arith, m1.by_four)) in
    (
      Extends-is_mapped frame last Old2 a c f2 f3 m2.forest root2 c_lt m3.extends code2,
      Extends-is_mapped frame last Old2 a d f2 f3 m2.forest root2 d_lt m3.extends data2,
      map_page-is_mapped frame last Old2 none ctx.stack.access_flags a s f2 m2.forest root2 s_lt tt
          (omega (arith, m1.by_four, m2.by_four)),
    )
