-- ===== src/ObjStore/Data/Ints.antt =====
-- Integers in a block.
use operating_systems_assign.Base.{ℕ, ◌^◌, ◌<◌, ◌≡◌, ◌==◌, if◌then◌else◌, arith}
use operating_systems_assign.ObjStore.Destroy.{load_int}
use operating_systems_assign.ObjStore.Data.{store_int}

-- An `int` of 32 bits that is stored is read back, and the others are what they were.
pub load_int-store_int :
    (bytes : ℕ → ℕ) (i v j : ℕ)
    → v < 2 ^ 32
    → load_int (store_int bytes i v) j ≡ (if j == i then v else load_int bytes j)
unfolding store_int
load_int-store_int bytes i v j h = ground arith
