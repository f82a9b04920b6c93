-- ===== src/Vm/Syscall/Promises.antt =====
-- What the calls of `do_syscall` of assignment2/entry.c promise, and where they break it.
use operating_systems_assign.Base.{
  ℕ, ◌+◌, ◌*◌, ◌%◌, ◌^◌, ◌<◌, ◌≤◌, ◌≡◌, ◌≢◌, inl, inr, ap, refl, sym, ◌∙◌, ◌++◌, Bool, true, false,
  Bool-cases, ltb, leb, arith,
}
use mathlib.Core.Path.{subst}
use operating_systems_assign.Sched.Context.{Segment}
use operating_systems_assign.Vm.Tables.{Frames}
use operating_systems_assign.Vm.Syscall.{
  Process, Result, returns, undefined, is_map_rd, segment_for, set_next_free, minus, bytes_of,
  minus_one, Call, exit, getpid, write_call, expand_call, shrink_call, other, expand, shrink,
  drop_pages, buffer_mapped, read_buffer, write, do_syscall,
}
use operating_systems_assign.Vm.Syscall.Segments.{
  IsBounded, IsLaidOut, segment-IsBounded, set_next_free-IsLaidOut, Expands, refuses, grows,
  expand-Expands, returned, expand-IsLaidOut, shrink-IsLaidOut,
}

abbrev printed : (ℕ → ℕ) → ℕ → ℕ → Process → Process
printed memory a length p = record p { output = p.output ++ read_buffer length a memory }

printed-IsLaidOut :
    (memory : ℕ → ℕ) (a length : ℕ) (p : Process)
    → IsLaidOut p
    → IsLaidOut (printed memory a length p)
printed-IsLaidOut memory a length p ok = record {
  rodata = ok.rodata;
  data_segment = ok.data_segment;
}

-- What `write` comes to: -1 with nothing done, or what `expand` makes of the same arguments.
data Writes (memory : ℕ → ℕ) (a b : ℕ) (p : Process) (r : Result) : Type 0 where
  fails : r ≡ returns minus_one p → Writes memory a b p r
  falls_through : r ≡ expand a b (printed memory a (b % 2 ^ 32) p) → Writes memory a b p r

write-Writes : (memory : ℕ → ℕ) (a b : ℕ) (p : Process) → Writes memory a b p (write memory a b p)
unfolding write
write-Writes memory a b p = elim (Bool-cases (ltb 1024 (b % 2 ^ 32))) [
  | inl long ↦ fails (rw long refl)
  | inr short ↦ elim (Bool-cases (buffer_mapped a (b % 2 ^ 32) p)) [
    | inl there ↦ falls_through (rw (short, there) refl)
    | inr missing ↦ fails (rw (short, missing) refl)
  ]
]

write-IsLaidOut :
    (memory : ℕ → ℕ) (a b v : ℕ) (p q : Process)
    → IsLaidOut p
    → write memory a b p ≡ returns v q
    → IsLaidOut q
write-IsLaidOut memory a b v p q ok e = go (write-Writes memory a b p)
  where
    go : Writes memory a b p (write memory a b p) → IsLaidOut q
    go (fails f) = subst IsLaidOut (returned (sym f ∙ e)).1 ok
    go (falls_through f) =
        expand-IsLaidOut a b v (printed memory a (b % 2 ^ 32) p) q
          (printed-IsLaidOut memory a (b % 2 ^ 32) p ok) (sym f ∙ e)

-- Every system call that returns leaves the two segments that it can move within their bounds, if
-- they were.
pub do_syscall-IsLaidOut :
    (memory : ℕ → ℕ) (call : Call) (a b v : ℕ) (p q : Process)
    → IsLaidOut p
    → do_syscall memory call a b p ≡ returns v q
    → IsLaidOut q
unfolding do_syscall
do_syscall-IsLaidOut memory exit a b v p q ok e = cc
do_syscall-IsLaidOut memory getpid a b v p q ok e = subst IsLaidOut (returned e).1 ok
do_syscall-IsLaidOut memory write_call a b v p q ok e = write-IsLaidOut memory a b v p q ok e
do_syscall-IsLaidOut memory expand_call a b v p q ok e = expand-IsLaidOut a b v p q ok e
do_syscall-IsLaidOut memory shrink_call a b v p q ok e = shrink-IsLaidOut a b v p q ok e
do_syscall-IsLaidOut memory other a b v p q ok e = subst IsLaidOut (returned e).1 ok

-- With the segments within their bounds, a write of 1 to 1024 bytes never returns that number,
-- since its case runs on into that of expand.
pub write-≢-length :
    (memory : ℕ → ℕ) (a length v : ℕ) (p q : Process)
    → IsLaidOut p
    → 0 < length
    → length ≤ 1024
    → do_syscall memory write_call a length p ≡ returns v q
    → v ≢ length
unfolding do_syscall
write-≢-length memory a length v p q ok pos small e = go (write-Writes memory a length p)
  where
    through :
        Expands
          (a % 2 ^ 32)
          (is_map_rd length)
          (printed memory a (length % 2 ^ 32) p)
          (write memory a length p)
        → v ≢ length
    through (refuses f) = λ same. absurd (omega (arith, (returned (sym f ∙ e)).0, same))
    through (grows w s g hi f) = λ same.
        let at = segment-IsBounded (is_map_rd length) p ok in
        absurd (omega (arith, (returned (sym f ∙ e)).0, same, at.high, at.lower))

    go : Writes memory a length p (write memory a length p) → v ≢ length
    go (fails f) = λ same. absurd (omega (arith, (returned (sym f ∙ e)).0, same))
    go (falls_through f) = through (
        subst (Expands (a % 2 ^ 32) (is_map_rd length) (printed memory a (length % 2 ^ 32) p))
          (sym f)
          (expand-Expands a length (printed memory a (length % 2 ^ 32) p)
            (printed-IsLaidOut memory a (length % 2 ^ 32) p ok)))

back :
    (m : Segment) (size u : ℕ)
    → IsBounded m
    → size ≤ 512
    → m.next_free ≡ u + size * 4096
    → minus m.next_free (bytes_of size) ≡ u
back m size u at small e = omega (arith, at.high, at.lower, at.upper, at.low)

shrink-step :
    (a b u : ℕ) (p : Process)
    → IsBounded (segment_for (is_map_rd b) p.space)
    → a % 2 ^ 32 ≤ 512
    → (segment_for (is_map_rd b) p.space).next_free ≡ u + a % 2 ^ 32 * 4096
    → (segment_for (is_map_rd b) p.space).start ≤ u
    → (f : Frames) × (shrink a b p
        ≡ returns u (set_next_free (is_map_rd b) u (record p { frames = f })))
unfolding shrink
shrink-step a b u p at small e lo =
    let m = segment_for (is_map_rd b) p.space in
    let above : ltb u m.start ≡ false = ground arith in
    let few : leb (2 ^ 19) (a % 2 ^ 32) ≡ false = ground arith in
    (
      drop_pages (a % 2 ^ 32) 1 p.space.pgd m.next_free p.frames,
      rw (back m (a % 2 ^ 32) u at small e, above, few) refl,
    )

segment-set :
    (rd : Bool) (w : ℕ) (p : Process)
    → segment_for rd (set_next_free rd w p).space
      ≡ record (segment_for rd p.space) { next_free = w }
segment-set true w p = refl
segment-set false w p = refl

set_back :
    (rd : Bool) (w : ℕ) (p : Process) (f : Frames)
    → set_next_free rd
        (segment_for rd p.space).next_free
        (record (set_next_free rd w p) { frames = f })
      ≡ record p { frames = f }
set_back true w p f = refl
set_back false w p f = refl

shrink-set :
    (a b w : ℕ) (p : Process)
    → IsLaidOut p
    → a % 2 ^ 32 ≤ 512
    → w ≡ (segment_for (is_map_rd b) p.space).next_free + a % 2 ^ 32 * 4096
    → w ≤ (segment_for (is_map_rd b) p.space).end_address + 1
    → (f : Frames) × (shrink a b (set_next_free (is_map_rd b) w p)
        ≡ returns (segment_for (is_map_rd b) p.space).next_free (record p { frames = f }))
shrink-set a b w p ok small g hi =
    let rd = is_map_rd b in
    let at = segment-IsBounded rd p ok in
    let seg = segment-set rd w p in
    let grown_ok = set_next_free-IsLaidOut rd w p ok (omega (arith, g, at.lower)) hi in
    let (f, e) =
      shrink-step a b (segment_for rd p.space).next_free (set_next_free rd w p)
        (segment-IsBounded rd (set_next_free rd w p) grown_ok) small (ap (λ m. m.next_free) seg ∙ g)
        (subst (λ n. n ≤ (segment_for rd p.space).next_free) (sym (ap (λ m. m.start) seg))
          at.lower) in
    (f, e ∙ ap (returns (segment_for rd p.space).next_free) (set_back rd w p f))

-- With the segments within their bounds, a shrink after an expand that succeeded gives back what
-- the expand took: it returns the address that the expand returned, and all but the page tables is
-- what it was.
pub shrink-expand :
    (a b v : ℕ) (p q : Process)
    → IsLaidOut p
    → v ≢ 0
    → expand a b p ≡ returns v q
    → (f : Frames) × (shrink a b q ≡ returns v (record p { frames = f }))
shrink-expand a b v p q ok ne e = go (expand-Expands a b p ok)
  where
    go :
        Expands (a % 2 ^ 32) (is_map_rd b) p (expand a b p)
        → (f : Frames) × (shrink a b q ≡ returns v (record p { frames = f }))
    go (refuses f) = absurd (ne (sym (returned (sym f ∙ e)).0))
    go (grows w small g hi f) =
        let (same, to) = returned (sym f ∙ e) in
        let (fr, back_again) = shrink-set a b w p ok small g hi in
        (
          fr,
          subst (λ q'. shrink a b q' ≡ returns v (record p { frames = fr })) to
              (back_again ∙ ap (λ n. returns n (record p { frames = fr })) same),
        )

-- With the segments within their bounds, `shrink` does not refuse to give back 2 ^ 20 pages, 4 GB,
-- which the segment may not have: the product wraps to 0, and the loop over the pages overflows.
pub shrink-wraps : (b : ℕ) (p : Process) → IsLaidOut p → shrink (2 ^ 20) b p ≡ undefined
unfolding shrink
shrink-wraps b p ok =
    let at = segment-IsBounded (is_map_rd b) p ok in
    let m = segment_for (is_map_rd b) p.space in
    let same : minus m.next_free (bytes_of (2 ^ 20)) ≡ m.next_free =
      omega (arith, at.upper, at.low) in
    let above : ltb m.next_free m.start ≡ false = ground (arith, at.lower) in rw (same, above) refl
