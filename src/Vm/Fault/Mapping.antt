-- ===== src/Vm/Fault/Mapping.antt =====
-- A page fault that `handle_page_fault` of assignment2/entry.c serves is not raised again: the
-- address is mapped when the instruction runs again.
use operating_systems_assign.Base.{arith, ℕ, ◌+◌, ◌^◌, ◌<◌, ◌≤◌, ◌≡◌, ◌≢◌, sym, ◌∙◌, true, none}
use mathlib.Core.Path.{subst}
use operating_systems_assign.Sched.Context.{Segment}
use operating_systems_assign.Vm.Tables.{Space, Frames, is_mapped}
use operating_systems_assign.Vm.Tables.Forest.{IsForest}
use operating_systems_assign.Vm.Tables.Mapped.{map_page-is_mapped}
use operating_systems_assign.Vm.Fault.{allocate, resumes, exits, handle_page_fault}
use operating_systems_assign.Vm.Fault.Served.{Outcomes, served, refused, handle_page_fault-Outcomes}

resumed : {f g : Frames} → resumes f ≡ resumes g → f ≡ g
resumed e = ground arith

exits-≢-resumes : {g : Frames} → exits ≢ resumes g
exits-≢-resumes e = cc

allocate-is_mapped :
    (frame : ℕ → ℕ) (last : ℕ) (Old : ℕ → ℕ → Type 0) (ctx : Space) (va : ℕ) (m : Segment)
    (f : Frames)
    → IsForest frame last f Old
    → Old 4 ctx.pgd
    → va < 2 ^ 48
    → f.served + 4 ≤ last
    → is_mapped (allocate frame ctx va m f).tables ctx.pgd va ≡ true
unfolding allocate
allocate-is_mapped frame last Old ctx va m f ok at lt room =
    map_page-is_mapped frame last Old none m.access_flags ctx.pgd va f ok at lt tt room

-- When `handle_page_fault` lets the process go on, the address that faulted is mapped, given page
-- tables and frames to come as `IsForest` describes them, at least four of these, and an address
-- of 48 bits.
pub handle_page_fault-is_mapped :
    (frame : ℕ → ℕ) (last : ℕ) (Old : ℕ → ℕ → Type 0) (ctx : Space) (va error_code : ℕ)
    (f g : Frames)
    → IsForest frame last f Old
    → Old 4 ctx.pgd
    → va < 2 ^ 48
    → f.served + 4 ≤ last
    → handle_page_fault frame ctx va error_code f ≡ resumes g
    → is_mapped g.tables ctx.pgd va ≡ true
handle_page_fault-is_mapped frame last Old ctx va error_code f g ok at lt room e =
    go (handle_page_fault-Outcomes frame ctx va error_code f)
  where
    go :
        Outcomes frame ctx va error_code f (handle_page_fault frame ctx va error_code f)
        → is_mapped g.tables ctx.pgd va ≡ true
    go (served m ne permits d) =
        subst (λ h. is_mapped h.tables ctx.pgd va ≡ true) (resumed (sym d ∙ e))
          (allocate-is_mapped frame last Old ctx va m f ok at lt room)
    go (refused why d) = absurd (exits-≢-resumes (sym d ∙ e))
