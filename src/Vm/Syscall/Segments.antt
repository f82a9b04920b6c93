-- ===== src/Vm/Syscall/Segments.antt =====
-- How the calls of `do_syscall` of assignment2/entry.c move the ends of the segments.
use operating_systems_assign.Base.{
  ℕ, ◌+◌, ◌*◌, ◌%◌, ◌^◌, ◌<◌, ◌≤◌, ◌≡◌, ◌≢◌, refl, sym, ◌∙◌, inl, inr, Bool, true, false,
  Bool-cases, ltb, leb, arith,
}
use mathlib.Core.Path.{subst}
use operating_systems_assign.Sched.Context.{Segment}
use operating_systems_assign.Vm.Tables.{Frames}
use operating_systems_assign.Vm.Syscall.{
  Process, Result, returns, undefined, is_map_rd, segment_for, set_next_free, plus, minus, bytes_of,
  expand, shrink, drop_pages,
}

-- A segment that lies above the first 4 GB and below 2 ^ 63, as the kernel lays them out, with the
-- first free address inside or right behind it.
pub record IsBounded (m : Segment) : Type 0 where
  pub high : 2 ^ 32 ≤ m.start
  pub lower : m.start ≤ m.next_free
  pub upper : m.next_free ≤ m.end_address + 1
  pub low : m.end_address < 2 ^ 63

pub record IsLaidOut (p : Process) : Type 0 where
  pub rodata : IsBounded p.space.rodata
  pub data_segment : IsBounded p.space.data_segment

moved-IsBounded :
    (m : Segment) (v : ℕ)
    → IsBounded m
    → m.start ≤ v
    → v ≤ m.end_address + 1
    → IsBounded (record m { next_free = v })
moved-IsBounded m v ok lo hi = record { high = ok.high; lower = lo; upper = hi; low = ok.low }

pub set_next_free-IsLaidOut :
    (rd : Bool) (v : ℕ) (p : Process)
    → IsLaidOut p
    → (segment_for rd p.space).start ≤ v
    → v ≤ (segment_for rd p.space).end_address + 1
    → IsLaidOut (set_next_free rd v p)
set_next_free-IsLaidOut true v p ok lo hi = record {
  rodata = moved-IsBounded p.space.rodata v ok.rodata lo hi;
  data_segment = ok.data_segment;
}
set_next_free-IsLaidOut false v p ok lo hi = record {
  rodata = ok.rodata;
  data_segment = moved-IsBounded p.space.data_segment v ok.data_segment lo hi;
}

pub segment-IsBounded : (rd : Bool) (p : Process) → IsLaidOut p → IsBounded (segment_for rd p.space)
segment-IsBounded true p ok = ok.rodata
segment-IsBounded false p ok = ok.data_segment

grown :
    (m : Segment) (size : ℕ)
    → IsBounded m
    → size ≤ 512
    → plus m.next_free (bytes_of size) ≡ m.next_free + size * 4096
grown m size at small = omega (arith, at.upper, at.low)

grown-fits :
    (m : Segment) (size : ℕ)
    → IsBounded m
    → size ≤ 512
    → ltb m.end_address (minus (plus m.next_free (bytes_of size)) 1) ≡ false
    → m.next_free + size * 4096 ≤ m.end_address + 1
grown-fits m size at small e =
    ground (arith, grown m size at small, at.high, at.lower, at.upper, at.low)

-- What `expand` does, by its tests.
pub data Expands (size : ℕ) (rd : Bool) (p : Process) (r : Result) : Type 0 where
  refuses : r ≡ returns 0 p → Expands size rd p r
  grows :
      (w : ℕ)
      → size ≤ 512
      → w ≡ (segment_for rd p.space).next_free + size * 4096
      → w ≤ (segment_for rd p.space).end_address + 1
      → r ≡ returns (segment_for rd p.space).next_free (set_next_free rd w p)
      → Expands size rd p r

at_most : (b : ℕ) → ltb 512 b ≡ false → b ≤ 512
at_most b e = ground arith

pub expand-Expands :
    (a b : ℕ) (p : Process) → IsLaidOut p → Expands (a % 2 ^ 32) (is_map_rd b) p (expand a b p)
unfolding expand
expand-Expands a b p ok =
    let m = segment_for (is_map_rd b) p.space in
    let size = a % 2 ^ 32 in
    let at = segment-IsBounded (is_map_rd b) p ok in
    elim (Bool-cases (ltb 512 size)) [
      | inl large ↦ refuses (rw large refl)
      | inr small ↦
          elim (Bool-cases (ltb m.end_address (minus (plus m.next_free (bytes_of size)) 1))) [
            | inl over ↦ refuses (rw (small, over) refl)
            | inr fits ↦
                grows (plus m.next_free (bytes_of size)) (at_most size small)
                  (grown m size at (at_most size small))
                  (rw (grown m size at (at_most size small))
                    (grown-fits m size at (at_most size small) fits))
                  (rw (small, fits) refl)
          ]
    ]

pub returned : {v w : ℕ} {p q : Process} → returns v p ≡ returns w q → (v ≡ w) × (p ≡ q)
returned e = (ground arith, ground arith)

pub undefined-≢-returns : {v : ℕ} {p : Process} → undefined ≢ returns v p
undefined-≢-returns e = cc

pub expand-IsLaidOut :
    (a b v : ℕ) (p q : Process) → IsLaidOut p → expand a b p ≡ returns v q → IsLaidOut q
expand-IsLaidOut a b v p q ok e = go (expand-Expands a b p ok)
  where
    go : Expands (a % 2 ^ 32) (is_map_rd b) p (expand a b p) → IsLaidOut q
    go (refuses f) = subst IsLaidOut (returned (sym f ∙ e)).1 ok
    go (grows w small g hi f) = subst IsLaidOut (returned (sym f ∙ e)).1 (
        set_next_free-IsLaidOut (is_map_rd b) w p ok
          (omega (arith, g, (segment-IsBounded (is_map_rd b) p ok).lower)) hi)

-- Where `shrink` comes back, the segment ends `size` pages lower.
data Shrinks (size : ℕ) (rd : Bool) (p : Process) (r : Result) : Type 0 where
  keeps : r ≡ returns 0 p → Shrinks size rd p r
  overflows : r ≡ undefined → Shrinks size rd p r
  cuts :
      (w : ℕ) (f : Frames)
      → size < 2 ^ 19
      → w + size * 4096 ≡ (segment_for rd p.space).next_free
      → (segment_for rd p.space).start ≤ w
      → r ≡ returns w (set_next_free rd w (record p { frames = f }))
      → Shrinks size rd p r

cut :
    (m : Segment) (size : ℕ)
    → IsBounded m
    → size < 2 ^ 19
    → ltb (minus m.next_free (bytes_of size)) m.start ≡ false
    → (minus m.next_free (bytes_of size) + size * 4096 ≡ m.next_free)
      × (m.start ≤ minus m.next_free (bytes_of size))
cut m size at small e = (omega (arith, at.high, at.lower, at.upper, at.low), ground arith)

below : (size : ℕ) → leb (2 ^ 19) size ≡ false → size < 2 ^ 19
below size e = ground arith

shrink-Shrinks :
    (a b : ℕ) (p : Process) → IsLaidOut p → Shrinks (a % 2 ^ 32) (is_map_rd b) p (shrink a b p)
unfolding shrink
shrink-Shrinks a b p ok =
    let m = segment_for (is_map_rd b) p.space in
    let size = a % 2 ^ 32 in
    let at = segment-IsBounded (is_map_rd b) p ok in
    elim (Bool-cases (ltb (minus m.next_free (bytes_of size)) m.start)) [
      | inl under ↦ keeps (rw under refl)
      | inr above ↦ elim (Bool-cases (leb (2 ^ 19) size)) [
        | inl large ↦ overflows (rw (above, large) refl)
        | inr small ↦
            let (sum, lo) = cut m size at (below size small) above in
            cuts (minus m.next_free (bytes_of size))
              (drop_pages size 1 p.space.pgd m.next_free p.frames) (below size small) sum lo
              (rw (above, small) refl)
      ]
    ]

pub shrink-IsLaidOut :
    (a b v : ℕ) (p q : Process) → IsLaidOut p → shrink a b p ≡ returns v q → IsLaidOut q
shrink-IsLaidOut a b v p q ok e = go (shrink-Shrinks a b p ok)
  where
    go : Shrinks (a % 2 ^ 32) (is_map_rd b) p (shrink a b p) → IsLaidOut q
    go (keeps f) = subst IsLaidOut (returned (sym f ∙ e)).1 ok
    go (overflows f) = absurd (undefined-≢-returns (sym f ∙ e))
    go (cuts w f small sum lo g) = subst IsLaidOut (returned (sym g ∙ e)).1 (
        set_next_free-IsLaidOut (is_map_rd b) w (record p { frames = f })
          (record { rodata = ok.rodata; data_segment = ok.data_segment }) lo
          (omega (arith, sum, (segment-IsBounded (is_map_rd b) p ok).upper)))
