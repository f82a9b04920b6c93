-- ===== src/Vm/Tables/Opening.antt =====
-- What one level of the loop of `allocate` in assignment1/context_mm.c and assignment2/entry.c
-- does to the tables.
use operating_systems_assign.Base.{
  ℕ, suc, ◌*◌, ◌%◌, ◌^◌, ◌<◌, ◌≡◌, ◌≢◌, refl, ◌∙◌, ◌⊎◌, inl, inr, bit_or, Bool-cases, true, false,
  arith,
}
use operating_systems_assign.Vm.Tables.{
  Frames, is_present, frame_of, clear_table, link, grant, take_frame, open_table,
}
use operating_systems_assign.Vm.Tables.Entries.{present_iff, linked, granted}

-- What `grant` leaves.
pub grant-entry :
    (flag p i : ℕ) (f : Frames)
    → (is_present ((grant flag p i f).tables p i) ≡ is_present (f.tables p i))
      × (frame_of ((grant flag p i f).tables p i) ≡ frame_of (f.tables p i))
grant-entry flag p i f = ground (
  arith,
  granted (f.tables p i),
  present_iff (f.tables p i),
  present_iff (bit_or (f.tables p i) 2),
)

pub grant-others :
    (flag p i : ℕ) (f : Frames) (q j : ℕ)
    → (q ≢ p) ⊎ (j ≢ i)
    → (grant flag p i f).tables q j ≡ f.tables q j
grant-others flag p i f q j other = ground arith

grant-served : (flag p i : ℕ) (f : Frames) → (grant flag p i f).served ≡ f.served
grant-served flag p i f = ground arith

pub link-entry :
    (p i a : ℕ) (f : Frames)
    → f.tables p i ≡ 0
    → a < 2 ^ 20
    → (is_present ((link p i a f).tables p i) ≡ true) × (frame_of ((link p i a f).tables p i) ≡ a)
link-entry p i a f z small = ground (
  arith,
  linked (f.tables p i) a z small,
  present_iff (bit_or (bit_or (f.tables p i) (a * 4096 % 2 ^ 32)) 5),
)

-- The table that `open_table` opens at entry `j` of the table `q`: one that was there, or a new one.
pub data Opened (frame : ℕ → ℕ) (f : Frames) (q j : ℕ) (g : Frames) (l : ℕ) : Type 0 where
  old :
      is_present (f.tables q j) ≡ true
      → l ≡ frame_of (f.tables q j)
      → g.served ≡ f.served
      → ((p i : ℕ) → (p ≢ q) ⊎ (i ≢ j) → g.tables p i ≡ f.tables p i)
      → Opened frame f q j g l
  new :
      is_present (f.tables q j) ≡ false
      → l ≡ frame f.served
      → g.served ≡ suc f.served
      → ((i : ℕ) → i < 512 → g.tables l i ≡ 0)
      → ((p i : ℕ) → p ≢ l → (p ≢ q) ⊎ (i ≢ j) → g.tables p i ≡ f.tables p i)
      → Opened frame f q j g l

pub record Opens (frame : ℕ → ℕ) (f : Frames) (q j : ℕ) (r : Frames × ℕ) : Type 0 where
  pub present : is_present (r.0.tables q j) ≡ true
  pub leads : frame_of (r.0.tables q j) ≡ r.1
  pub how : Opened frame f q j r.0 r.1

pub open_table-Opens :
    (frame : ℕ → ℕ) (flag q j : ℕ) (f : Frames)
    → frame f.served < 2 ^ 20
    → frame f.served ≢ q
    → (is_present (f.tables q j) ≡ false → f.tables q j ≡ 0)
    → Opens frame f q j (open_table frame flag q j f)
unfolding open_table
open_table-Opens frame flag q j f small apart empty =
    elim (Bool-cases (is_present (f.tables q j))) [
      | inl there ↦ rw there (record {
        present = (grant-entry flag q j f).0 ∙ there;
        leads = (grant-entry flag q j f).1;
        how = old there refl (grant-served flag q j f) (grant-others flag q j f);
      })
      | inr missing ↦
          let a = frame f.served in
          let c = clear_table a (take_frame f) in
          let same : c.tables q j ≡ f.tables q j = ground arith in
          let (at, to) = link-entry q j a c (same ∙ empty missing) small in
          rw missing (record {
            present = (grant-entry flag q j (link q j a c)).0 ∙ at;
            leads = (grant-entry flag q j (link q j a c)).1 ∙ to;
            how =
                new missing refl (grant-served flag q j (link q j a c))
                  (λ i lt. grant-others flag q j (link q j a c) a i (inl apart) ∙ ground arith)
                  (λ p i ne other. grant-others flag q j (link q j a c) p i other ∙ ground arith);
          })
    ]
