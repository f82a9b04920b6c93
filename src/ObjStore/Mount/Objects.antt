-- ===== src/ObjStore/Mount/Objects.antt =====
-- The integers, texts and objects that stand in the bytes of assignment4/objstore.c.
use operating_systems_assign.Base.{
  ◌-◌, ℕ, zero, suc, ◌+◌, ◌*◌, ◌<◌, ◌≤◌, ◌≡◌, refl, sym, ap, ◌∙◌, arith,
}
use operating_systems_assign.ObjStore.Store.{Object}
use operating_systems_assign.ObjStore.Destroy.{load_int}
use operating_systems_assign.ObjStore.Mount.{text_at, object_at}

-- Two objects that the program cannot tell apart: there are four entries of either kind.
pub record SameObject (o p : Object) : Type 0 where
  pub id : o.id ≡ p.id
  pub size : o.size ≡ p.size
  pub directs : (k : ℕ) → k < 4 → o.direct k ≡ p.direct k
  pub indirects : (k : ℕ) → k < 4 → o.indirect k ≡ p.indirect k
  pub key : o.key ≡ p.key

pub SameObject_refl : (o : Object) → SameObject o o
SameObject_refl o = record {
  id = refl;
  size = refl;
  directs = λ k lt. refl;
  indirects = λ k lt. refl;
  key = refl;
}

pub SameObject_trans : (o p q : Object) → SameObject o p → SameObject p q → SameObject o q
SameObject_trans o p q h h' = record {
  id = h.id ∙ h'.id;
  size = h.size ∙ h'.size;
  directs = λ k lt. h.directs k lt ∙ h'.directs k lt;
  indirects = λ k lt. h.indirects k lt ∙ h'.indirects k lt;
  key = h.key ∙ h'.key;
}

pub load_int-bytes :
    (f g : ℕ → ℕ) (i : ℕ)
    → ((j : ℕ) → 4 * i ≤ j → j < 4 * i + 4 → f j ≡ g j)
    → load_int f i ≡ load_int g i
load_int-bytes f g i same =
    ground (arith, same (4 * i), same (4 * i + 1), same (4 * i + 2), same (4 * i + 3))

text_at-bytes :
    (n : ℕ) (f g : ℕ → ℕ) (at : ℕ)
    → ((j : ℕ) → at ≤ j → j < at + n → f j ≡ g j)
    → text_at n f at ≡ text_at n g at
unfolding text_at
text_at-bytes zero f g at same = refl
text_at-bytes (suc n) f g at same =
    rw
      (
        same at (omega arith) (omega arith),
        text_at-bytes n f g (at + 1) (λ j ge lt. same j (omega arith) (omega arith)),
      )
      refl

-- An object depends on its 88 bytes only.
pub object_at-bytes :
    (f g : ℕ → ℕ) (n : ℕ)
    → ((j : ℕ) → j < 88 → f (88 * n + j) ≡ g (88 * n + j))
    → SameObject (object_at f n) (object_at g n)
unfolding object_at
object_at-bytes f g n same = record {
  id =
      rw (int (22 * n) (omega arith) (omega arith), int (22 * n + 1) (omega arith) (omega arith))
        refl;
  size =
      rw
        (
          int (22 * n + 2) (omega arith) (omega arith),
          int (22 * n + 2 + 1) (omega arith) (omega arith),
        )
        refl;
  directs = λ k lt. int (22 * n + 6 + k) (omega arith) (omega arith);
  indirects = λ k lt. int (22 * n + 10 + k) (omega arith) (omega arith);
  key = text_at-bytes 32 f g (88 * n + 56) (λ j ge lt. at j (omega arith) (omega arith));
}
  where
    at : (j : ℕ) → 88 * n ≤ j → j < 88 * n + 88 → f j ≡ g j
    at j ge lt =
        let e : 88 * n + (j - 88 * n) ≡ j = omega arith in
        sym (ap f e) ∙ (same (j - 88 * n) (omega arith) ∙ ap g e)

    int : (i : ℕ) → 22 * n ≤ i → i < 22 * n + 22 → load_int f i ≡ load_int g i
    int i ge lt = load_int-bytes f g i (λ j ge' h. at j (omega arith) (omega arith))
