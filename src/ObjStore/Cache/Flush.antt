-- ===== src/ObjStore/Cache/Flush.antt =====
-- assignment4/objstore.c: the cache at mount and at unmount, the loops of `objstore_init` that
-- empty it and the last loop of `objstore_destroy` that writes the dirty lines to the disk.
use operating_systems_assign.Base.{
  ℕ, zero, suc, ◌+◌, ◌*◌, ◌/◌, ◌%◌, ◌<◌, ◌≡◌, refl, ◌∙◌, Option, none, some, ◌==◌, if◌then◌else◌,
  inl, inr, Bool-cases, Option-cases, arith,
}
use native.Mathlib.Decide.{ℕ_discrete}
use mathlib.Core.Path.{subst}
use operating_systems_assign.ObjStore.Disk.{block_size, Serves, copy_bytes_block}
use operating_systems_assign.ObjStore.Cache.{BlockStore, cache_blks, write_back}
use operating_systems_assign.ObjStore.Cache.View.{
  view, SameView, IsClean, IsCoherent, write_back_lem, view-write_back,
}
use operating_systems_assign.ObjStore.Cache.Lines.{write_back-IsCoherent}

-- `if(cache_dirty[i]==1) write_block(objfs, cache_blks*cache_index[i] + i, start);` A write at a
-- negative block is refused by the system.
abbrev flush_index : BlockStore → ℕ → Option ℕ → BlockStore
flush_index s i none = s
flush_index s i (some k) = write_back s i k

unfoldable pub flush_line : BlockStore → ℕ → BlockStore
flush_line s i = if s.cache_dirty i == 1 then flush_index s i (s.cache_index i) else s

-- `for(int i=0;i<cache_blks;i++)`, with the rounds left
unfoldable pub flush_lines : ℕ → ℕ → BlockStore → BlockStore
flush_lines zero i s = s
flush_lines (suc n) i s = flush_lines n (i + 1) (flush_line s i)

unfoldable pub flush_cache : BlockStore → BlockStore
flush_cache s = flush_lines cache_blks 0 s

-- `cache_index[i]=-1;` and `cache_dirty[i]=0;` for every line
unfoldable pub empty_cache : BlockStore → BlockStore
empty_cache s = record s { cache_index = λ _. none; cache_dirty = λ _. 0 }

-- The lines below `i` are on the disk, and a client sees what it saw of `s`.
record Flushed (s : BlockStore) (i : ℕ) (t : BlockStore) : Type 0 where
  coherent : IsCoherent t
  same : SameView t s
  clean_below : (j : ℕ) → j < i → IsClean t j

module _ (s : BlockStore) (ok : IsCoherent s) where
  write_back-keeps :
      (j k m : ℕ)
      → j < cache_blks
      → m < cache_blks
      → s.cache_index j ≡ some k
      → IsClean s m
      → IsClean (write_back s j k) m
  write_back-keeps j k m lt lt' at clean = rw (write_back_lem s ok.serves j k) (λ q i e h. ground (
    arith,
    clean q i e h,
    copy_bytes_block s.disk.content (λ a. s.cache.bytes (block_size * j + a)) (cache_blks * k + j)
        (cache_blks * q + m) i,
  ))

  write_back-cleans : (j k : ℕ) → s.cache_index j ≡ some k → IsClean (write_back s j k) j
  write_back-cleans j k at = rw (write_back_lem s ok.serves j k) (λ q i e h. ground (
    arith,
    copy_bytes_block s.disk.content (λ a. s.cache.bytes (block_size * j + a)) (cache_blks * k + j)
        (cache_blks * q + j) i,
  ))

IsClean-next :
    (t : BlockStore) (i : ℕ)
    → ((j : ℕ) → j < i → IsClean t j)
    → IsClean t i
    → (j : ℕ) → j < i + 1
    → IsClean t j
IsClean-next t i below at j lt = elim (ℕ_discrete j i) [
  | yes last ↦ rw last at
  | no before ↦ below j (omega arith)
]

flush_line-Flushed :
    (s t : BlockStore) (i : ℕ) → i < cache_blks → Flushed s i t → Flushed s (i + 1) (flush_line t i)
unfolding flush_line
flush_line-Flushed s t i lt f = elim (Bool-cases (t.cache_dirty i == 1)) [
  | inl dirty ↦ rw dirty (elim (Option-cases (t.cache_index i)) [
    | inl empty ↦ absurd (f.coherent.unused i empty (ground arith))
    | inr (k, at) ↦
        rw (at, flush_index)
          (record {
            coherent = write_back-IsCoherent t f.coherent i k lt at;
            same = λ b a h. view-write_back t f.coherent.serves i k lt at b a h ∙ f.same b a h;
            clean_below =
                IsClean-next (write_back t i k) i
                  (λ j below.
                    write_back-keeps t f.coherent i k j lt (omega arith) at (f.clean_below j below))
                  (write_back-cleans t f.coherent i k at);
          })
  ])
  | inr clean ↦ rw clean (record {
    coherent = f.coherent;
    same = f.same;
    clean_below = IsClean-next t i f.clean_below (f.coherent.clean i lt (ground arith));
  })
]

the_end : (i : ℕ) → i + 0 ≡ cache_blks → i ≡ cache_blks
the_end i e = omega arith

flush_lines-Flushed :
    (n i : ℕ) (s t : BlockStore)
    → i + n ≡ cache_blks
    → Flushed s i t
    → Flushed s cache_blks (flush_lines n i t)
unfolding flush_lines
flush_lines-Flushed zero i s t e f = subst (λ k. Flushed s k t) (the_end i e) f
flush_lines-Flushed (suc n) i s t e f =
    flush_lines-Flushed n (i + 1) s (flush_line t i) (omega arith)
      (flush_line-Flushed s t i (omega arith) f)

on_disk :
    (t : BlockStore)
    → ((j : ℕ) → j < cache_blks → IsClean t j)
    → (b i : ℕ) → i < block_size
    → t.disk.content (block_size * b + i) ≡ view t b i
unfolding view
on_disk t clean b i h = ground (arith, clean (b % cache_blks) (omega arith) (b / cache_blks) i)

flush_cache-Flushed : (s : BlockStore) → IsCoherent s → Flushed s cache_blks (flush_cache s)
unfolding flush_cache
flush_cache-Flushed s ok =
    flush_lines-Flushed cache_blks 0 s s refl
      (record { coherent = ok; same = λ b i h. refl; clean_below = λ j lt. absurd (omega arith) })

pub flush_cache-IsCoherent : (s : BlockStore) → IsCoherent s → IsCoherent (flush_cache s)
flush_cache-IsCoherent s ok = (flush_cache-Flushed s ok).coherent

-- After the flush of `objstore_destroy`, of a coherent cache, the disk holds every block as a
-- client saw it.
pub flush_cache-disk :
    (s : BlockStore)
    → IsCoherent s
    → (b i : ℕ) → i < block_size
    → (flush_cache s).disk.content (block_size * b + i) ≡ view s b i
flush_cache-disk s ok b i h =
    let f = flush_cache-Flushed s ok in on_disk (flush_cache s) f.clean_below b i h ∙ f.same b i h

-- The cache that `objstore_init` sets up is coherent, and shows the disk.
pub empty_cache-IsCoherent : (s : BlockStore) → Serves s.disk s.cache → IsCoherent (empty_cache s)
unfolding empty_cache
empty_cache-IsCoherent s ok = record {
  serves = ok;
  unused = λ j e. ground arith;
  clean = λ j lt d k i e h. cc;
}

pub view-empty_cache :
    (s : BlockStore) (b i : ℕ) → view (empty_cache s) b i ≡ s.disk.content (block_size * b + i)
unfolding view empty_cache
view-empty_cache s b i = refl

-- On a coherent cache, the loop of `objstore_destroy` over the cache, and then the start of
-- `objstore_init` with an empty one, leave what is seen of every block as it was. The writes of the
-- table and of the bitmaps that `objstore_destroy` makes before are not part of this.
pub empty_cache-flush_cache :
    (s : BlockStore) → IsCoherent s → SameView (empty_cache (flush_cache s)) s
empty_cache-flush_cache s ok b i h =
    view-empty_cache (flush_cache s) b i ∙ flush_cache-disk s ok b i h
