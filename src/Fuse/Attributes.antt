-- ===== src/Fuse/Attributes.antt =====
-- What `objfs_getattr` of assignment4/objfs.c reports of an object.
use operating_systems_assign.Base.{ℕ, ◌+◌, ◌/◌, ◌<◌, ◌≡◌, ap, false, List, some, arith}
use operating_systems_assign.ObjStore.Store.{Store, same_text}
use operating_systems_assign.ObjStore.Lookup.{
  inodes, Stat, HoldsFirst, IsNumbered, find_object_id-HoldsFirst, fillup_size_details,
}
use operating_systems_assign.Fuse.{ok, key_of, root_path, Defaults, retval_of, fill, objfs_getattr}

-- The number of 512-byte units that hold `size` bytes.
abbrev pub units : ℕ → ℕ
units size = (size + 511) / 512

-- What is reported of object `n`.
abbrev pub report : Store → ℕ → Stat
report s n = record {
  st_ino = n + 2;
  st_size = (s.objects n).size;
  st_blocks = units (s.objects n).size;
}

pub fill-found :
    (s : Store) (def : Stat) (n : ℕ)
    → (s.objects n).id ≡ n + 2
    → fill (record s { backup = some n }) def (some (n + 2)) ≡ ok (report s n)
unfolding fill fillup_size_details
fill-found s def n h = ground (arith, h)

pub retval_of-small : (n : ℕ) → n < inodes → retval_of (some (n + 2)) ≡ some (n + 2)
retval_of-small n lt = ground arith

-- On a well-numbered store, for a path other than the root whose key an object is held under,
-- `objfs_getattr` that no other thread interrupts reports the id and the size of the first such
-- object, and the size in units of 512 bytes, rounded up.
pub objfs_getattr-found :
    (d : Defaults) (path : List ℕ) (s : Store) (n : ℕ)
    → IsNumbered s
    → same_text path root_path ≡ false
    → HoldsFirst s (key_of path) n
    → objfs_getattr d path s ≡ (record s { backup = some n }, ok (report s n))
unfolding objfs_getattr
objfs_getattr-found d path s n numbered not_root h =
    let id = numbered n h.held.in_range h.held.taken in
    rw
      (
        not_root,
        find_object_id-HoldsFirst s (key_of path) n h,
        id,
        retval_of-small n h.held.in_range,
      )
      (ap (λ r. (record s { backup = some n }, r)) (fill-found s d.def_fstat n id))
