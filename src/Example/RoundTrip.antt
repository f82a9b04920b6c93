-- ===== src/Example/RoundTrip.antt =====
-- `objstore_read` after `objstore_write` in assignment4/example/objstore.c.
use operating_systems_assign.Base.{
  ℕ, ◌+◌, ◌<◌, ◌≤◌, ◌≡◌, ◌≢◌, sym, ◌∙◌, Bool, some, ltb, arith, lt→ltb, if◌then◌else◌, ap,
}
use operating_systems_assign.ObjStore.Disk.{block_size}
use operating_systems_assign.ObjStore.Store.{done}
use operating_systems_assign.Example.{Objfs}
use operating_systems_assign.Example.Content.{objstore_read, objstore_write}
use operating_systems_assign.Example.Bytes.{content, CanServe, SameObjects}
use operating_systems_assign.Example.Reading.{objstore_read-ReadsBytes}
use operating_systems_assign.Example.Writing.{behind, objstore_write-WritesBytes}

SameObjects-CanServe :
    (page n : ℕ) (s t : Objfs) → SameObjects s t → CanServe page n s → CanServe page n t
SameObjects-CanServe page n s t same ok = record {
  in_table = ok.in_table;
  in_use = same.ids n ∙ ok.in_use;
  serves = same.serves;
  page_aligned = ok.page_aligned;
}

-- In either build, with a device that serves every request and pages of `mmap` at block boundaries,
-- up to 4096 bytes that are written to an object in use are read back, however many of the object's
-- bytes are asked for, and the other objects show what they did before the two calls. Behind the
-- bytes written, the build with the cache reads what was there before, the other build zeros.
pub objstore_read-bytes_written :
    (c : Bool) (page n size count : ℕ) (buf user : ℕ → ℕ) (s : Objfs)
    → CanServe page n s
    → size ≤ block_size
    → count ≤ block_size
    → (t u : Objfs) × (got : ℕ → ℕ) × (objstore_write c page (n + 2) buf size s
        ≡ done (t, some size))
      × (objstore_read c page (n + 2) user count t ≡ done (u, some got))
      × ((i : ℕ) → i < count → got i ≡ (if ltb i size then buf i else behind c s n i))
      × ((m i : ℕ)
          → (s.objs m).id ≢ (s.objs n).id
          → i < block_size
          → content c u m i ≡ content c s m i)
objstore_read-bytes_written c page n size count buf user s ok fits asked =
    let (t, e, w) = objstore_write-WritesBytes c page n size buf s ok fits in
    let (u, got, e', r) =
      objstore_read-ReadsBytes c page n count user t (SameObjects-CanServe page n s t w.same ok)
        asked in
    (
      t,
      u,
      got,
      e,
      e',
      λ i lt.
          r.bytes i
          ∙ ap (λ b. if b then content c t n i else user i) (lt→ltb i count lt)
          ∙ w.here i (omega arith),
      λ m i ne lt.
          r.others m i (λ same. ne (sym (w.same.ids m) ∙ same ∙ w.same.ids n)) lt
          ∙ w.others m i ne lt,
    )
