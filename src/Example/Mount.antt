-- ===== src/Example/Mount.antt =====
-- assignment4/example/objstore.c: `objstore_init` and `objstore_destroy`. The layout of
-- `struct object` in memory is the compiler's: `encode` gives the bytes of the page at `objs`.
use operating_systems_assign.Base.{
  ℕ, zero, suc, ◌+◌, ◌*◌, ◌^◌, Bool, Option, none, some, ltb, if◌then◌else◌,
}
use operating_systems_assign.Base.Arrays.{update}
use operating_systems_assign.ObjStore.Disk.{Area, Status, success, failure, read_block, write_block}
use operating_systems_assign.ObjStore.Destroy.{load_int}
use operating_systems_assign.ObjStore.Mount.{load_long, text_at}
use operating_systems_assign.Example.{Entry, Objfs, max_objs, unused, reset_cached}
use operating_systems_assign.Example.Content.{zero_page, keep_device, obj_sync}

-- An `int`, where -1 is `none`.
abbrev index_of : ℕ → Option ℕ
index_of x = if ltb x (2 ^ 31) then some x else none

-- `struct object` number `n` of a page.
unfoldable pub entry_at : (ℕ → ℕ) → ℕ → Entry
entry_at bytes n = record {
  id = load_long bytes (22 * n);
  size = load_long bytes (22 * n + 2);
  cache_index = index_of (load_int bytes (22 * n + 4));
  dirty = load_int bytes (22 * n + 5);
  key = text_at 64 bytes (88 * n + 24);
}

-- `for(ctr=0; ctr < MAX_OBJS; ctr++, obj++) if(obj->id) init_object_cached(obj);`
unfoldable pub init_entries : Bool → ℕ → ℕ → (ℕ → Entry) → ℕ → Entry
init_entries cached zero ctr objs = objs
init_entries cached (suc n) ctr objs =
    init_entries cached n (suc ctr)
      (if unused (objs ctr) then objs else update objs ctr (reset_cached cached (objs ctr)))

abbrev pub finish_init : Bool → Objfs → Status × Area → Objfs × Status
finish_init cached s (failure, objs) = (s, failure)
finish_init cached s (success, objs) =
    (record s { objs = init_entries cached max_objs 0 (entry_at objs.bytes) }, success)

unfoldable pub objstore_init : Bool → ℕ → Objfs → Objfs × Status
unfolding init_entries entry_at
objstore_init cached page s = finish_init cached s (read_block s.blkdev 0 (zero_page page) 0)

-- One round of the loop of `objstore_destroy`, where a sync that fails is passed over.
abbrev pub sync_entry : Bool → ℕ → Objfs → Objfs
sync_entry cached ctr s = if unused (s.objs ctr) then s else (obj_sync cached ctr s).0

unfoldable pub sync_entries : Bool → ℕ → ℕ → Objfs → Objfs
sync_entries cached zero ctr s = s
sync_entries cached (suc n) ctr s = sync_entries cached n (suc ctr) (sync_entry cached ctr s)

abbrev pub table_page : ((ℕ → Entry) → ℕ → ℕ) → ℕ → Objfs → Area
table_page encode page s = record { base = page; bytes = encode s.objs }

unfoldable pub objstore_destroy : Bool → ((ℕ → Entry) → ℕ → ℕ) → ℕ → Objfs → Objfs × Status
unfolding sync_entries
objstore_destroy cached encode page s =
    let t = sync_entries cached max_objs 0 s in
    keep_device t (write_block t.blkdev 0 (table_page encode page t) 0)
