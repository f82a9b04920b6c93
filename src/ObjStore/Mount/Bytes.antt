-- ===== src/ObjStore/Mount/Bytes.antt =====
-- The bytes in which assignment4/objstore.c keeps its table and its bitmaps: a memory for every
-- store whose numbers and keys fit.
use operating_systems_assign.Base.{
  ℕ, zero, suc, ◌+◌, ◌-◌, ◌*◌, ◌/◌, ◌%◌, ◌^◌, ◌<◌, ◌≡◌, ◌≢◌, refl, ap, ◌∙◌, true, false, List, [],
  ◌∷◌, ◌==◌, ltb, if◌then◌else◌, arith,
}
use operating_systems_assign.ObjStore.Store.{
  Object, Store, inode_words, data_words, length, key_size,
}
use operating_systems_assign.ObjStore.Destroy.{load_int}
use operating_systems_assign.ObjStore.Mount.{Memory, text_at, object_at}
use operating_systems_assign.ObjStore.Mount.Objects.{SameObject}
use operating_systems_assign.ObjStore.Mount.Remount.{table_size, Shows}

-- Byte `c` of an integer of 32 bits.
abbrev pub byte_of : ℕ → ℕ → ℕ
byte_of v c =
    if c == 0
    then v % 256
    else if c == 1
    then v / 256 % 256
    else if c == 2
    then v / 65536 % 256
    else v / 16777216 % 256

-- Integer `q` of an object, before its key.
unfoldable pub int_of : Object → ℕ → ℕ
int_of o q =
    if ltb q 2
    then (if q == 0 then o.id % 2 ^ 32 else o.id / 2 ^ 32)
    else if ltb q 4
    then (if q == 2 then o.size % 2 ^ 32 else o.size / 2 ^ 32)
    else if ltb q 6
    then 0
    else if ltb q 10
    then o.direct (q - 6)
    else if ltb q 14
    then o.indirect (q - 10)
    else 0

-- Character `i` of a text, and NUL behind it.
unfoldable pub char_of : List ℕ → ℕ → ℕ
char_of [] i = 0
char_of (x ∷ xs) zero = x
char_of (x ∷ xs) (suc i) = char_of xs i

unfoldable pub object_byte : Object → ℕ → ℕ
unfolding int_of char_of
object_byte o r = if ltb r 56 then byte_of (int_of o (r / 4)) (r % 4) else char_of o.key (r - 56)

unfoldable pub memory_of : Store → Memory
unfolding object_byte
memory_of s = record {
  table = λ j. object_byte (s.objects (j / 88)) (j % 88);
  inode_bitmap = λ j. byte_of (s.inode_bitmap (j / 4)) (j % 4);
  data_bitmap = λ j. byte_of (s.data_bitmap (j / 4)) (j % 4);
}

pub data IsText : List ℕ → Type 0 where
  no_text : IsText []
  one_more : {x : ℕ} {xs : List ℕ} → x ≢ 0 → IsText xs → IsText (x ∷ xs)

-- An object whose numbers are those of C and whose key has room for its NUL.
pub record Fits (o : Object) : Type 0 where
  pub id : o.id < 2 ^ 64
  pub size : o.size < 2 ^ 64
  pub directs : (k : ℕ) → k < 4 → o.direct k < 2 ^ 32
  pub indirects : (k : ℕ) → k < 4 → o.indirect k < 2 ^ 32
  pub key_length : length o.key < key_size
  pub key_text : IsText o.key

pub record IsStorable (s : Store) : Type 0 where
  pub objects : (n : ℕ) → n < table_size → Fits (s.objects n)
  pub inodes : (i : ℕ) → i < inode_words → s.inode_bitmap i < 2 ^ 32
  pub data_blocks : (i : ℕ) → i < data_words → s.data_bitmap i < 2 ^ 32

-- Four bytes of a number make the number.
load_int-byte_of :
    (f v : ℕ → ℕ) (i : ℕ)
    → ((c : ℕ) → c < 4 → f (4 * i + c) ≡ byte_of (v i) c)
    → v i < 2 ^ 32
    → load_int f i ≡ v i
load_int-byte_of f v i same lt =
    let zeroth : f (4 * i) ≡ v i % 256 = ground (arith, same 0 (omega arith)) in
    omega (arith, zeroth, same 1 (omega arith), same 2 (omega arith), same 3 (omega arith))

text_at-char_of :
    (n : ℕ) (f : ℕ → ℕ) (at : ℕ) (key : List ℕ)
    → length key < n
    → IsText key
    → ((i : ℕ) → i < n → f (at + i) ≡ char_of key i)
    → text_at n f at ≡ key
unfolding text_at char_of
text_at-char_of zero f at key lt ok same = absurd (omega arith)
text_at-char_of (suc n) f at [] lt ok same =
    let here : f at ≡ 0 = ground (arith, same 0 (omega arith)) in rw here refl
text_at-char_of (suc n) f at (x ∷ xs) lt (one_more ne ok) same =
    let here : f at ≡ x = ground (arith, same 0 (omega arith)) in
    let later : (i : ℕ) → i < n → f (at + 1 + i) ≡ char_of xs i =
      λ i i_lt. ground (arith, same (suc i) (omega arith)) in
    let rest = text_at-char_of n f (at + 1) xs (omega arith) ok later in
    let present : (x == 0) ≡ false = ground arith in rw (here, present, rest) refl

module _ (s : Store) (n : ℕ) where
  abbrev bytes : ℕ → ℕ
  bytes = (memory_of s).table

  table_byte : (r : ℕ) → r < 88 → bytes (88 * n + r) ≡ object_byte (s.objects n) r
  unfolding memory_of
  table_byte r lt =
      let e : (88 * n + r) / 88 ≡ n = omega arith in
      let e' : (88 * n + r) % 88 ≡ r = omega arith in rw (e, e') refl

  table_int :
      (q : ℕ)
      → q < 14
      → int_of (s.objects n) q < 2 ^ 32
      → load_int bytes (22 * n + q) ≡ int_of (s.objects n) q
  unfolding object_byte
  table_int q q_lt lt =
      load_int-byte_of bytes (λ _. int_of (s.objects n) q) (22 * n + q)
        (λ c c_lt.
          let e : 4 * (22 * n + q) + c ≡ 88 * n + (4 * q + c) = omega arith in
          let e_q : (4 * q + c) / 4 ≡ q = omega arith in
          let e_c : (4 * q + c) % 4 ≡ c = omega arith in
          let number : ltb (4 * q + c) 56 ≡ true = ground arith in
          ap bytes e ∙ (table_byte (4 * q + c) (omega arith) ∙ rw (number, e_q, e_c) refl))
        lt

  table_key : (i : ℕ) → i < 32 → bytes (88 * n + 56 + i) ≡ char_of (s.objects n).key i
  unfolding object_byte
  table_key i lt =
      let e : 88 * n + 56 + i ≡ 88 * n + (56 + i) = omega arith in
      let e_i : (56 + i) - 56 ≡ i = omega arith in
      let text : ltb (56 + i) 56 ≡ false = ground arith in
      ap bytes e ∙ (table_byte (56 + i) (omega arith) ∙ rw (text, e_i) refl)

  entry_direct : (k : ℕ) → k < 4 → int_of (s.objects n) (6 + k) ≡ (s.objects n).direct k
  unfolding int_of
  entry_direct k lt =
      let e : (6 + k) - 6 ≡ k = omega arith in ground (arith, ap (s.objects n).direct e)

  entry_indirect : (k : ℕ) → k < 4 → int_of (s.objects n) (10 + k) ≡ (s.objects n).indirect k
  unfolding int_of
  entry_indirect k lt =
      let e : (10 + k) - 10 ≡ k = omega arith in ground (arith, ap (s.objects n).indirect e)

  table_object : Fits (s.objects n) → SameObject (object_at bytes n) (s.objects n)
  unfolding object_at int_of
  table_object fits = record {
    id = ground (arith, table_int 0 (omega arith), table_int 1 (omega arith), fits.id);
    size =
        let hi : 22 * n + 2 + 1 ≡ 22 * n + 3 = omega arith in
        ground (
          arith,
          table_int 2 (omega arith),
          table_int 3 (omega arith),
          ap (load_int bytes) hi,
          fits.size,
        );
    directs = λ k lt.
        let e : 22 * n + 6 + k ≡ 22 * n + (6 + k) = omega arith in
        let v : int_of (s.objects n) (6 + k) ≡ (s.objects n).direct k = entry_direct k lt in
        ap (load_int bytes) e
        ∙ (table_int (6 + k) (omega arith) (omega (arith, v, fits.directs k lt)) ∙ v);
    indirects = λ k lt.
        let e : 22 * n + 10 + k ≡ 22 * n + (10 + k) = omega arith in
        let v : int_of (s.objects n) (10 + k) ≡ (s.objects n).indirect k = entry_indirect k lt in
        ap (load_int bytes) e
        ∙ (table_int (10 + k) (omega arith) (omega (arith, v, fits.indirects k lt)) ∙ v);
    key =
        text_at-char_of 32 bytes (88 * n + 56) (s.objects n).key fits.key_length fits.key_text
          table_key;
  }

word_byte :
    (w : ℕ → ℕ) (i c : ℕ)
    → c < 4
    → byte_of (w ((4 * i + c) / 4)) ((4 * i + c) % 4) ≡ byte_of (w i) c
word_byte w i c lt =
    let e : (4 * i + c) / 4 ≡ i = omega arith in
    let e' : (4 * i + c) % 4 ≡ c = omega arith in rw (e, e') refl

-- For every store whose numbers and keys fit there is a memory that holds the bytes of its table
-- and of its bitmaps: what is read from those bytes, field by field, is the store again.
pub memory_of-Shows : (s : Store) → IsStorable s → Shows (memory_of s) s
unfolding memory_of
memory_of-Shows s ok = record {
  objects = λ n lt. table_object s n (ok.objects n lt);
  inodes = λ i lt.
      load_int-byte_of (memory_of s).inode_bitmap s.inode_bitmap i
        (λ c c_lt. word_byte s.inode_bitmap i c c_lt) (ok.inodes i lt);
  data_blocks = λ i lt.
      load_int-byte_of (memory_of s).data_bitmap s.data_bitmap i
        (λ c c_lt. word_byte s.data_bitmap i c c_lt) (ok.data_blocks i lt);
}
