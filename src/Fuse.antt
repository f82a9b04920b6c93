-- ===== src/Fuse.antt =====
-- assignment4/objfs.c: the FUSE callbacks over the object store. A path is the text of its
-- characters, and `key+1` leaves out the first. Owner and group, which `objfs_getattr` sets from
-- the process, are not modelled, nor is the log.
pub mod Attributes
pub mod Race
use operating_systems_assign.Base.{
  ℕ, ◌^◌, ◌%◌, ltb, Bool, List, [], ◌∷◌, Option, none, some, if◌then◌else◌,
}
use operating_systems_assign.ObjStore.Store.{Store, Outcome, done, ◌>>=◌, same_text}
use operating_systems_assign.ObjStore.Lookup.{Stat, find_object_id, fillup_size_details}
use operating_systems_assign.ObjStore.Create.{create_object}
use operating_systems_assign.ObjStore.Rename.{rename_object}
use operating_systems_assign.ObjStore.Destroy.{destroy_object}
use operating_systems_assign.ObjStore.Data.{objstore_read, objstore_write}

pub data Errno : Type 0 where
  enoent ebadf einval eexist : Errno

-- What a callback returns: a value, or a negative error number.
pub data Reply {ℓ} (A : Type ℓ) : Type ℓ where
  ok : A → Reply A
  err : Errno → Reply A

-- `key+1`
abbrev pub key_of : List ℕ → List ℕ
key_of [] = []
key_of (c ∷ cs) = cs

-- `"/"`
abbrev pub root_path : List ℕ
root_path = b'/' ∷ []

-- `def_dirstat` and `def_fstat`
pub record Defaults : Type 0 where
  pub def_dirstat : Stat
  pub def_fstat : Stat

-- `int retval = find_object_id(..)`: the low 32 bits of the `long`; `none` is below zero.
abbrev pub retval_of : Option ℕ → Option ℕ
retval_of none = none
retval_of (some id) = let low = id % 2 ^ 32 in if ltb low (2 ^ 31) then some low else none

-- What comes after the lookup.
unfoldable pub fill : Store → Stat → Option ℕ → Reply Stat
fill s def none = err enoent
fill s def (some retval) = elim (fillup_size_details s (record def { st_ino = retval })) [
  | none ↦ err ebadf
  | some st ↦ ok st
]

unfoldable pub objfs_getattr : Defaults → List ℕ → Store → Store × Reply Stat
unfolding fill
objfs_getattr d path s =
    if same_text path root_path
    then (s, ok (record (d.def_dirstat) { st_ino = 1 }))
    else (let (s', id) = find_object_id s (key_of path) in (s', fill s' d.def_fstat (retval_of id)))

-- A call of `objfs_getattr` under way: before its lookup, after it, and with its reply.
pub data Progress : Type 0 where
  asked : List ℕ → Progress
  looked : Option ℕ → Progress
  replied : Reply Stat → Progress

-- `find_object_id` runs under `i_lock`; between it and `fillup_size_details` there is no lock.
unfoldable pub getattr_step : Defaults → Progress → Store → Store × Progress
unfolding fill
getattr_step d (asked path) s =
    if same_text path root_path
    then (s, replied (ok (record (d.def_dirstat) { st_ino = 1 })))
    else (let (s', id) = find_object_id s (key_of path) in (s', looked (retval_of id)))
getattr_step d (looked retval) s = (s, replied (fill s d.def_fstat retval))
getattr_step d (replied r) s = (s, replied r)

-- Two calls in two threads; a turn is a step of the first one or of the second.
pub record Threads : Type 0 where
  pub store : Store
  pub one : Progress
  pub two : Progress

pub data Turn : Type 0 where
  turn_one turn_two : Turn

unfoldable pub take_turn : Defaults → Turn → Threads → Threads
unfolding getattr_step
take_turn d turn_one t =
    let (s, p) = getattr_step d t.one t.store in record t { store = s; one = p }
take_turn d turn_two t =
    let (s, p) = getattr_step d t.two t.store in record t { store = s; two = p }

unfoldable pub take_turns : Defaults → List Turn → Threads → Threads
unfolding take_turn
take_turns d [] t = t
take_turns d (turn ∷ turns) t = take_turns d turns (take_turn d turn t)

-- It returns 0 whatever `destroy_object` returns.
unfoldable pub objfs_unlink : List ℕ → Store → Outcome (Store × Reply ℕ)
objfs_unlink path s = destroy_object (key_of path) s >>= λ t. done (t, ok 0)

abbrev or_fail : Errno → Option ℕ → Reply ℕ
or_fail e none = err e
or_fail e (some id) = ok id

abbrev zero_if_ok : Reply ℕ → Reply ℕ
zero_if_ok (ok _) = ok 0
zero_if_ok (err e) = err e

-- `junk` is what `rename_object` finds in its counter.
unfoldable pub objfs_rename_key : ℕ → List ℕ → List ℕ → Store → Outcome (Store × Reply ℕ)
objfs_rename_key junk old new s = rename_object junk (key_of old) (key_of new) s >>= λ (t, id).
    done (t, zero_if_ok (or_fail einval id))

-- On success the reply is the new `fi->fh`.
unfoldable pub objfs_create : List ℕ → Store → Outcome (Store × Reply ℕ)
objfs_create path s = create_object (key_of path) s >>= λ (t, id). done (t, or_fail eexist id)

unfoldable pub objfs_open : List ℕ → Store → Store × Reply ℕ
objfs_open path s =
    let (t, id) = find_object_id s (key_of path) in (t, or_fail enoent (retval_of id))

-- The reply is `retval`, the size; the second part is the buffer.
unfoldable pub objfs_read : Bool → ℕ → (ℕ → ℕ) → ℕ → ℕ → Store → Outcome (Store × (ℕ → ℕ) × Reply ℕ)
objfs_read c fh buf size offset s =
    objstore_read c fh buf size offset s >>= λ (t, out). done (t, out, ok size)

unfoldable pub objfs_write : Bool → ℕ → (ℕ → ℕ) → ℕ → ℕ → Store → Outcome (Store × Reply ℕ)
objfs_write c fh buf size offset s =
    objstore_write c fh buf size offset s >>= λ (t, n). done (t, or_fail einval n)

-- `release_object` does nothing, and the reply is always -EINVAL.
unfoldable pub objfs_release : ℕ → Store → Store × Reply ℕ
objfs_release fh s = (s, err einval)
