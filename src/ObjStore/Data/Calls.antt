-- ===== src/ObjStore/Data/Calls.antt =====
-- Sequences of `create_object`, `objstore_write` and `objstore_read` of assignment4/objstore.c, and
-- the table of pages that specifies their answers.
use operating_systems_assign.Base.{
  ℕ, ◌+◌, ◌*◌, ◌<◌, ◌≤◌, ◌≡◌, Bool, List, [], ◌∷◌, Option, none, some, ltb, if◌then◌else◌,
}
use operating_systems_assign.Base.Arrays.{update}
use operating_systems_assign.ObjStore.Disk.{block_size}
use operating_systems_assign.ObjStore.Store.{Store, Outcome, done, ◌>>=◌, length, key_size}
use operating_systems_assign.ObjStore.Lookup.{inodes}
use operating_systems_assign.ObjStore.Create.{create_object}
use operating_systems_assign.ObjStore.Data.{objstore_write, objstore_read}
use operating_systems_assign.ObjStore.Data.Direct.{padded}
use operating_systems_assign.ObjStore.Data.Layout.{Files, Live, page}
use operating_systems_assign.ObjStore.Data.Files.{put, IsWritable}

-- A call on the store; an object is named by its number and a page by its own.
pub data Call : Type 0 where
  create : (key : List ℕ) → Call
  write : (n a : ℕ) (buff : ℕ → ℕ) (size : ℕ) → Call
  read : (n a : ℕ) (buff : ℕ → ℕ) (size : ℕ) → Call

pub data Answer : Type 0 where
  created : Option ℕ → Answer
  wrote : Option ℕ → Answer
  got : (ℕ → ℕ) → Answer

unfoldable pub perform : Bool → Call → Store → Outcome (Store × Answer)
perform c (create key) s = create_object key s >>= λ (t, id). done (t, created id)
perform c (write n a buff size) s =
    objstore_write c (n + 2) buff size (block_size * a) s >>= λ (t, w). done (t, wrote w)
perform c (read n a buff size) s =
    objstore_read c (n + 2) buff size (block_size * a) s >>= λ (t, b). done (t, got b)

unfoldable pub run : Bool → List Call → Store → Outcome (Store × List Answer)
run c [] s = done (s, [])
run c (call ∷ calls) s =
    perform c call s >>= λ (t, answer). run c calls t >>= λ (u, answers). done (u, answer ∷ answers)

-- What a call asks for: an object in use, a page that can be written or that there is, a key that
-- fits and 1 to 4096 bytes. `u` marks the objects in use.
pub data Permitted (u : ℕ → ℕ) (f : Files) : Call → Type 0 where
  may_create : {key : List ℕ} → length key < key_size → Permitted u f (create key)
  may_write :
      {n a : ℕ} {buff : ℕ → ℕ} {size : ℕ}
      → n < inodes
      → u n ≡ 1
      → IsWritable f n a
      → 0 < size
      → size ≤ block_size
      → Permitted u f (write n a buff size)
  may_read :
      {n a : ℕ} {buff : ℕ → ℕ} {size : ℕ}
      → n < inodes
      → u n ≡ 1
      → Live f (page n a)
      → 0 < size
      → size ≤ block_size
      → Permitted u f (read n a buff size)

-- The specification: a call, its answer, and the objects and files afterwards.
pub data Serves (u : ℕ → ℕ) (f : Files) : Call → Answer → (ℕ → ℕ) → Files → Type 0 where
  creates :
      {key : List ℕ} (n : ℕ)
      → n < inodes
      → u n ≡ 0
      → ((m : ℕ) → m < n → u m ≡ 1)
      → Serves u f (create key) (created (some (n + 2))) (update u n 1) f
  is_full :
      {key : List ℕ} → ((m : ℕ) → m < inodes → u m ≡ 1) → Serves u f (create key) (created none) u f
  writes :
      {n a : ℕ} {buff : ℕ → ℕ} {size : ℕ}
      → Serves u f (write n a buff size) (wrote (some size)) u (put f n a (padded buff size))
  reads :
      {n a : ℕ} {buff : ℕ → ℕ} {size : ℕ} (bytes : ℕ → ℕ)
      → f.pages n a ≡ some bytes
      → Serves u f (read n a buff size) (got (λ i. if ltb i size then bytes i else buff i)) u f

-- The client keeps to what is permitted, whatever the specification answers.
unfoldable pub Behaves : (ℕ → ℕ) → Files → List Call → Type 0
Behaves u f [] = Unit
Behaves u f (call ∷ calls) =
    Permitted u f call
    × ((answer : Answer) (u' : ℕ → ℕ) (f' : Files)
        → Serves u f call answer u' f'
        → Behaves u' f' calls)

pub data ServesAll : (ℕ → ℕ) → Files → List Call → List Answer → (ℕ → ℕ) → Files → Type 0 where
  nothing : {u : ℕ → ℕ} {f : Files} → ServesAll u f [] [] u f
  first :
      {call : Call} {calls : List Call} {answer : Answer} {answers : List Answer} {u u' u'' : ℕ → ℕ}
      {f f' f'' : Files}
      → Serves u f call answer u' f'
      → ServesAll u' f' calls answers u'' f''
      → ServesAll u f (call ∷ calls) (answer ∷ answers) u'' f''
