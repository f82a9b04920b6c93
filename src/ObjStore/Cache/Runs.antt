-- ===== src/ObjStore/Cache/Runs.antt =====
-- Sequences of block reads and writes, as a client of assignment4/objstore.c's cache makes them.
use operating_systems_assign.Base.{
  ℕ, ◌*◌, ◌<◌, ◌≡◌, refl, sym, ◌∙◌, Bool, true, false, List, [], ◌∷◌, ◌==◌, if◌then◌else◌, arith,
}
use operating_systems_assign.ObjStore.Disk.{block_size, Area}
use operating_systems_assign.ObjStore.Cache.{BlockStore, cache_blk_read, cache_blk_write}
use operating_systems_assign.ObjStore.Cache.Transparent.{
  blocks, IsReady, IsAligned, cache_blk_read-ReadsBlock, cache_blk_write-WritesBlock,
}

-- A client's calls, each with a buffer of whole pages.
pub data Call : Type 0 where
  reads : (blk page : ℕ) → Call
  writes : (blk page : ℕ) → (ℕ → ℕ) → Call

abbrev pub buffer : ℕ → (ℕ → ℕ) → Area
buffer page bytes = record { base = block_size * page; bytes = bytes }

-- The buffers that the reads of a run return.
unfoldable pub run : Bool → BlockStore → List Call → List (ℕ → ℕ)
run c s [] = []
run c s (reads blk page ∷ cs) =
    let (t, temp) = cache_blk_read c s blk (buffer page (λ _. 0)) 0 in temp.bytes ∷ run c t cs
run c s (writes blk page bytes ∷ cs) = run c (cache_blk_write c s blk (buffer page bytes) 0) cs

-- Block for block the same, as far as a block goes.
abbrev pub Agree : List (ℕ → ℕ) → List (ℕ → ℕ) → Type 0
Agree [] [] = Unit
Agree [] (_ ∷ _) = ⊥
Agree (_ ∷ _) [] = ⊥
Agree (f ∷ fs) (g ∷ gs) = ((i : ℕ) → i < block_size → f i ≡ g i) × Agree fs gs

Agree-sym : (fs gs : List (ℕ → ℕ)) → Agree fs gs → Agree gs fs
Agree-sym [] [] a = tt
Agree-sym [] (g ∷ gs) a = a
Agree-sym (f ∷ fs) [] a = a
Agree-sym (f ∷ fs) (g ∷ gs) a = ((λ i h. sym (a.0 i h)), Agree-sym fs gs a.1)

Agree-trans : (fs gs hs : List (ℕ → ℕ)) → Agree fs gs → Agree gs hs → Agree fs hs
Agree-trans [] [] hs a b = b
Agree-trans [] (g ∷ gs) hs a b = absurd a
Agree-trans (f ∷ fs) [] hs a b = absurd a
Agree-trans (f ∷ fs) (g ∷ gs) [] a b = b
Agree-trans (f ∷ fs) (g ∷ gs) (h ∷ hs) a b =
    ((λ i l. a.0 i l ∙ b.0 i l), Agree-trans fs gs hs a.1 b.1)

-- The specification: an array of blocks, read and written whole.
unfoldable pub array_run : (ℕ → ℕ → ℕ) → List Call → List (ℕ → ℕ)
array_run f [] = []
array_run f (reads blk page ∷ cs) = f blk ∷ array_run f cs
array_run f (writes blk page bytes ∷ cs) = array_run (λ b i. if b == blk then bytes i else f b i) cs

whole : (page : ℕ) (bytes : ℕ → ℕ) → IsAligned (buffer page bytes) 0
whole page bytes = record { base = omega arith; offset = refl }

-- In either build, on a store that is fit for it, every sequence of reads and writes returns what
-- an array of blocks returns that starts with the store's blocks.
pub run-array_run :
    (c : Bool) (cs : List Call) (s : BlockStore) (f : ℕ → ℕ → ℕ)
    → IsReady c s
    → ((b i : ℕ) → i < block_size → blocks c s b i ≡ f b i)
    → Agree (run c s cs) (array_run f cs)
unfolding run array_run
run-array_run c [] s f ready same = tt
run-array_run c (reads blk page ∷ cs) s f ready same =
    let r = cache_blk_read-ReadsBlock c s blk _ 0 ready (whole page (λ _. 0)) in
    (
      (λ i h. ground (arith, r.got i h, same blk i h)),
      run-array_run c cs (cache_blk_read c s blk (buffer page (λ _. 0)) 0).0 f r.ready
          (λ b i h. r.kept b i h ∙ same b i h),
    )
run-array_run c (writes blk page bytes ∷ cs) s f ready same =
    let w = cache_blk_write-WritesBlock c s blk _ 0 ready (whole page bytes) in
    run-array_run c cs (cache_blk_write c s blk (buffer page bytes) 0) _ w.ready
      (λ b i h. ground (arith, w.put b i h, same b i h))

-- Started on stores that are fit for their builds and show the same blocks, the build with the
-- cache and the plain build return the same blocks to every sequence of reads and writes.
pub run-cached_plain :
    (cs : List Call) (s t : BlockStore)
    → IsReady true s
    → IsReady false t
    → ((b i : ℕ) → i < block_size → blocks true s b i ≡ blocks false t b i)
    → Agree (run true s cs) (run false t cs)
run-cached_plain cs s t p q same =
    Agree-trans (run true s cs) (array_run (blocks false t) cs) (run false t cs)
      (run-array_run true cs s (blocks false t) p same)
      (Agree-sym (run false t cs) _ (run-array_run false cs t (blocks false t) q (λ b i h. refl)))
