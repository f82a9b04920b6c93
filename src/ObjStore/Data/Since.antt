-- ===== src/ObjStore/Data/Since.antt =====
-- What the calls of assignment4/objstore.c leave alone: the blocks of the bitmaps and of the table
-- on the disk, and every object whose inode block is not marked dirty.
use operating_systems_assign.Base.{ℕ, ◌+◌, ◌*◌, ◌/◌, ◌<◌, ◌≡◌, sym, ap, ◌∙◌, Bool, List, arith}
use native.Mathlib.Decide.{ℕ_discrete}
use operating_systems_assign.Base.Arrays.{update}
use operating_systems_assign.ObjStore.Disk.{block_size}
use operating_systems_assign.ObjStore.Cache.Reach.{HoldsFrom, Reaches}
use operating_systems_assign.ObjStore.Store.{Store, data_block_offset}
use operating_systems_assign.ObjStore.Lookup.{inodes_per_block}
use operating_systems_assign.ObjStore.Create.{Creates}
use operating_systems_assign.ObjStore.Data.Layout.{Files}
use operating_systems_assign.ObjStore.Data.Refines.{WritesFile, marked}

-- The store `t` has come from `s` by calls.
pub record Since (s t : Store) : Type 0 where
  pub lines : HoldsFrom data_block_offset t.blocks
  pub before :
      (b i : ℕ)
      → b < data_block_offset
      → i < block_size
      → t.blocks.disk.content (block_size * b + i) ≡ s.blocks.disk.content (block_size * b + i)
  pub unmarked : (n : ℕ) → t.dirty_array (n / inodes_per_block) ≡ 0 → t.objects n ≡ s.objects n

module _ (s t u : Store) (so_far : Since s t) where
  pub Since-Creates : (key : List ℕ) (n : ℕ) → Creates t key n u → Since s u
  Since-Creates key n new = record {
    lines = rw new.below so_far.lines;
    before = λ b i lt i_lt. rw new.below (so_far.before b i lt i_lt);
    unmarked = λ m e. ground (arith, so_far.unmarked m, new.object m, new.dirty, e);
  }

  pub Since-WritesFile :
      (c : Bool) (f : Files) (n a : ℕ) (buff : ℕ → ℕ) (size room : ℕ)
      → WritesFile c (marked n t) f n a buff size room u
      → Since s u
  Since-WritesFile c f n a buff size room w =
      let r = w.reaches so_far.lines in
      record {
        lines = r.holds_from;
        before = λ b i lt i_lt. r.before b i lt i_lt ∙ so_far.before b i lt i_lt;
        unmarked = λ m e.
            let e' : update t.dirty_array (n / inodes_per_block) 1 (m / inodes_per_block) ≡ 0 =
              ap (λ d. d (m / inodes_per_block)) (sym w.dirty_kept) ∙ e in
            elim (ℕ_discrete m n) [
              | yes same ↦ absurd (ground (arith, e', same))
              | no other ↦ w.others_kept m other ∙ so_far.unmarked m (ground (arith, e'))
            ];
      }

  pub Since-reads :
      u ≡ record t { blocks = u.blocks } → Reaches data_block_offset t.blocks u.blocks → Since s u
  Since-reads same r = rw same (record {
    lines = r.holds_from;
    before = λ b i lt i_lt. r.before b i lt i_lt ∙ so_far.before b i lt i_lt;
    unmarked = so_far.unmarked;
  })
