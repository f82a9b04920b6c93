-- ===== src/Fuse/Race.antt =====
-- Two calls of `objfs_getattr` of assignment4/objfs.c at a time, step by step.
use operating_systems_assign.Base.{ℕ, ◌+◌, ◌≡◌, ◌≢◌, ap, ◌∙◌, false, List, some, arith, [], ◌∷◌}
use operating_systems_assign.ObjStore.Store.{Store, same_text}
use operating_systems_assign.ObjStore.Lookup.{
  Stat, HoldsFirst, IsNumbered, find_object_id-HoldsFirst, fillup_size_details,
}
use operating_systems_assign.Fuse.{
  ok, err, ebadf, key_of, root_path, Defaults, fill, Progress, asked, looked, replied, getattr_step,
  Threads, Turn, turn_one, turn_two, take_turn, take_turns, objfs_getattr,
}
use operating_systems_assign.Fuse.Attributes.{
  report, fill-found, retval_of-small, objfs_getattr-found,
}

fill-other :
    (s : Store) (def : Stat) (n m : ℕ)
    → (s.objects m).id ≡ m + 2
    → n ≢ m
    → fill (record s { backup = some m }) def (some (n + 2)) ≡ err ebadf
unfolding fill fillup_size_details
fill-other s def n m h ne = ground (arith, h)

HoldsFirst-backup :
    (s : Store) (key : List ℕ) (n m : ℕ)
    → HoldsFirst s key n
    → HoldsFirst (record s { backup = some m }) key n
HoldsFirst-backup s key n m h = record {
  held = record {
    in_range = h.held.in_range;
    taken = h.held.taken;
    named = h.held.named;
    same = h.held.same;
  };
  first = λ k lt g.
      h.first k lt
        (record { in_range = g.in_range; taken = g.taken; named = g.named; same = g.same });
}

-- An object whose key a path names.
pub record Names (s : Store) (path : List ℕ) (n : ℕ) : Type 0 where
  pub not_root : same_text path root_path ≡ false
  pub held : HoldsFirst s (key_of path) n

looks :
    (d : Defaults) (path : List ℕ) (s : Store) (n : ℕ)
    → IsNumbered s
    → Names s path n
    → getattr_step d (asked path) s ≡ (record s { backup = some n }, looked (some (n + 2)))
unfolding getattr_step
looks d path s n numbered h =
    rw
      (
        h.not_root,
        find_object_id-HoldsFirst s (key_of path) n h.held,
        numbered n h.held.held.in_range h.held.held.taken,
      )
      (ap (λ r. (record s { backup = some n }, looked r)) (retval_of-small n h.held.held.in_range))

looks_again :
    (d : Defaults) (path : List ℕ) (s : Store) (n m : ℕ)
    → IsNumbered s
    → Names s path m
    → getattr_step d (asked path) (record s { backup = some n })
      ≡ (record s { backup = some m }, looked (some (m + 2)))
looks_again d path s n m numbered h =
    looks d path (record s { backup = some n }) m numbered
      (record { not_root = h.not_root; held = HoldsFirst-backup s (key_of path) m n h.held })

reads :
    (d : Defaults) (s : Store) (id : ℕ) (st : Stat)
    → fill s d.def_fstat (some id) ≡ ok st
    → getattr_step d (looked (some id)) s ≡ (s, replied (ok st))
unfolding getattr_step
reads d s id st e = ap (λ r. (s, replied r)) e

fails :
    (d : Defaults) (s : Store) (id : ℕ)
    → fill s d.def_fstat (some id) ≡ err ebadf
    → getattr_step d (looked (some id)) s ≡ (s, replied (err ebadf))
unfolding getattr_step
fails d s id e = ap (λ r. (s, replied r)) e

abbrev at : Store → Progress → Progress → Threads
at s p q = record { store = s; one = p; two = q }

turns_one :
    (d : Defaults) (s s' : Store) (p p' q : Progress)
    → getattr_step d p s ≡ (s', p')
    → take_turn d turn_one (at s p q) ≡ at s' p' q
unfolding take_turn
turns_one d s s' p p' q e = ap (λ r. at r.0 r.1 q) e

turns_two :
    (d : Defaults) (s s' : Store) (p q q' : Progress)
    → getattr_step d q s ≡ (s', q')
    → take_turn d turn_two (at s p q) ≡ at s' p q'
unfolding take_turn
turns_two d s s' p q q' e = ap (λ r. at r.0 p r.1) e

four :
    (d : Defaults) (a b c e : Turn) (t t1 t2 t3 t4 : Threads)
    → take_turn d a t ≡ t1
    → take_turn d b t1 ≡ t2
    → take_turn d c t2 ≡ t3
    → take_turn d e t3 ≡ t4
    → take_turns d (a ∷ b ∷ c ∷ e ∷ []) t ≡ t4
unfolding take_turns
four d a b c e t t1 t2 t3 t4 p q r last =
    ap (λ x. take_turn d e (take_turn d c (take_turn d b x))) p
    ∙ ap (λ x. take_turn d e (take_turn d c x)) q
    ∙ ap (take_turn d e) r
    ∙ last

abbrev pub both_asked : Store → List ℕ → List ℕ → Threads
both_asked s path path' = record { store = s; one = asked path; two = asked path' }

-- Two threads call `objfs_getattr` on a well-numbered store for the paths of two objects. One after
-- the other, each gets the reply that it gets alone. If the second looks its object up between the
-- lookup of the first and the first one's reading of `backup`, which no lock prevents, the first
-- call fails with EBADF, although its object is there.
pub objfs_getattr-race :
    (d : Defaults) (path path' : List ℕ) (s : Store) (n m : ℕ)
    → IsNumbered s
    → Names s path n
    → Names s path' m
    → n ≢ m
    → (take_turns d (turn_one ∷ turn_one ∷ turn_two ∷ turn_two ∷ []) (both_asked s path path')
        ≡ record {
          store = record s { backup = some m };
          one = replied (objfs_getattr d path s).1;
          two = replied (objfs_getattr d path' s).1;
        })
      × (take_turns d (turn_one ∷ turn_two ∷ turn_one ∷ turn_two ∷ []) (both_asked s path path')
          ≡ record {
            store = record s { backup = some m };
            one = replied (err ebadf);
            two = replied (objfs_getattr d path' s).1;
          })
objfs_getattr-race d path path' s n m numbered h h' ne =
    let id = numbered n h.held.held.in_range h.held.held.taken in
    let id' = numbered m h'.held.held.in_range h'.held.held.taken in
    let after : ℕ → Store = λ k. record s { backup = some k } in
    let reply : Progress = replied (ok (report s n)) in
    let reply' : Progress = replied (ok (report s m)) in
    let alone : replied (objfs_getattr d path s).1 ≡ reply =
      ap (λ r. replied r.1) (objfs_getattr-found d path s n numbered h.not_root h.held) in
    let alone' : replied (objfs_getattr d path' s).1 ≡ reply' =
      ap (λ r. replied r.1) (objfs_getattr-found d path' s m numbered h'.not_root h'.held) in
    let first_looks =
      turns_one d s (after n) (asked path) (looked (some (n + 2))) (asked path')
        (looks d path s n numbered h) in
    let second_reads = reads d (after m) (m + 2) (report s m) (fill-found s d.def_fstat m id') in
    let second_looks = looks_again d path' s n m numbered h' in
    (
      rw (alone, alone')
          (four d _ _ _ _ _ _ _ _ _ first_looks
            (turns_one d (after n) (after n) _ reply (asked path')
              (reads d (after n) (n + 2) (report s n) (fill-found s d.def_fstat n id)))
            (turns_two d (after n) (after m) reply (asked path') _ second_looks)
            (turns_two d (after m) (after m) reply _ reply' second_reads)),
      rw alone' (
          four d _ _ _ _ _ _ _ _ _ first_looks
            (turns_two d (after n) (after m) (looked (some (n + 2))) (asked path') _ second_looks)
            (turns_one d (after m) (after m) _ (replied (err ebadf)) (looked (some (m + 2)))
              (fails d (after m) (n + 2) (fill-other s d.def_fstat n m id' ne)))
            (turns_two d (after m) (after m) (replied (err ebadf)) _ reply' second_reads)),
    )
