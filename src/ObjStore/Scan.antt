-- ===== src/ObjStore/Scan.antt =====
-- The loop that the functions of assignment4/objstore.c share: over the words of a bitmap, and in
-- each word from the top bit down, with a mask `b` and a counter `ctr`, up to the first hit.
use native.Mathlib.Decide.{ℕ_discrete, dec_lt}
use mathlib.Core.Path.{ap₂}
use operating_systems_assign.Base.{
  ℕ, zero, suc, ◌+◌, ◌-◌, ◌*◌, ◌/◌, ◌%◌, ◌^◌, ◌≤◌, ◌<◌, ◌≡◌, refl, sym, ap, ◌∙◌, Bool, true, false,
  Option, none, some, inl, inr, Bool-cases, Option-cases, if◌then◌else◌, arith,
}
use operating_systems_assign.Base.Bits.{half-pow}

-- Where the loop stops: `i`, `b` and `ctr`.
pub record Hit : Type 0 where
  pub word : ℕ
  pub mask : ℕ
  pub index : ℕ

abbrev hit : ℕ → ℕ → ℕ → Hit
hit i b ctr = record { word = i; mask = b; index = ctr }

-- `for(int j=0;j<32;j++){ if(test) stop; b = b>>1; ctr++; }`, with the rounds left.
unfoldable pub scan_word : (ℕ → ℕ → ℕ → Bool) → ℕ → ℕ → ℕ → ℕ → Option Hit
scan_word test zero i b ctr = none
scan_word test (suc n) i b ctr =
    let rest = scan_word test n i (b / 2) (ctr + 1) in
    if test i b ctr then some (hit i b ctr) else rest

abbrev first_hit : Option Hit → Option Hit → Option Hit
first_hit none rest = rest
first_hit (some h) rest = some h

-- `for(int i=0;i<words;i++){ b = 1<<31; … }`
unfoldable pub scan_words : (ℕ → ℕ → ℕ → Bool) → ℕ → ℕ → ℕ → Option Hit
unfolding scan_word
scan_words test zero i ctr = none
scan_words test (suc n) i ctr =
    let rest = scan_words test n (i + 1) (ctr + 32) in
    first_hit (scan_word test 32 i 0x8000_0000 ctr) rest

-- The mask of the bit `n` of a bitmap, within its word.
abbrev pub mask_of : ℕ → ℕ
mask_of n = 2 ^ (31 - n % 32)

-- The test at bit `n`.
abbrev pub at_bit : (ℕ → ℕ → ℕ → Bool) → ℕ → Bool
at_bit test n = test (n / 32) (mask_of n) n

-- The first of the bits from `lo` below `hi` that pass the test, or that none does.
pub data Finds (p : ℕ → ℕ → ℕ → Bool) (lo hi : ℕ) : Option Hit → Type 0 where
  found :
      (n : ℕ)
      → lo ≤ n
      → n < hi
      → at_bit p n ≡ true
      → ((m : ℕ) → lo ≤ m → m < n → at_bit p m ≡ false)
      → {o : Option Hit} → o ≡ some (hit (n / 32) (mask_of n) n)
      → Finds p lo hi o
  missing :
      ((m : ℕ) → lo ≤ m → m < hi → at_bit p m ≡ false)
      → {o : Option Hit} → o ≡ none
      → Finds p lo hi o

-- Where the counter stands, the word and the mask are the bit's own.
at_position :
    (n i b ctr : ℕ)
    → suc n ≤ 32
    → ctr + suc n ≡ 32 * i + 32
    → b ≡ 2 ^ suc n / 2
    → (i ≡ ctr / 32) × (b ≡ mask_of ctr)
at_position n i b ctr le sum e =
    let k : n ≡ 31 - ctr % 32 = omega arith in
    (omega arith, e ∙ half-pow n ∙ ap (λ (t : ℕ). 2 ^ t) k)

module _ (p : ℕ → ℕ → ℕ → Bool) where
  Finds-earlier :
      {lo hi : ℕ} {o : Option Hit} → at_bit p lo ≡ false → Finds p (lo + 1) hi o → Finds p lo hi o
  Finds-earlier {lo} miss (found n above below yes_here none_before e) =
      found n (omega arith) below yes_here
        (λ m a b. elim (ℕ_discrete m lo) [
          | yes first ↦ rw first miss
          | no after ↦ none_before m (omega arith) b
        ])
        e
  Finds-earlier {lo} miss (missing nowhere e) =
      missing
        (λ m a b. elim (ℕ_discrete m lo) [
          | yes first ↦ rw first miss
          | no after ↦ nowhere m (omega arith) b
        ])
        e

  scan_word-Finds :
      (n i b ctr : ℕ)
      → n ≤ 32
      → ctr + n ≡ 32 * i + 32
      → b ≡ 2 ^ n / 2
      → Finds p ctr (32 * i + 32) (scan_word p n i b ctr)
  unfolding scan_word
  scan_word-Finds zero i b ctr le sum e = missing (λ m lo hi. absurd (omega arith)) refl
  scan_word-Finds (suc n) i b ctr le sum e =
      let at = at_position n i b ctr le sum e in
      let same : p i b ctr ≡ at_bit p ctr = ap₂ (λ x y. p x y ctr) at.0 at.1 in
      elim (Bool-cases (p i b ctr)) [
        | inl here ↦ rw here (
            found ctr (omega arith) (omega arith) (sym same ∙ here)
              (λ m lo hi. absurd (omega arith)) (ap some (ap₂ (λ x y. hit x y ctr) at.0 at.1)))
        | inr later ↦ rw later (
            Finds-earlier (sym same ∙ later) (
              scan_word-Finds n i (b / 2) (ctr + 1) (omega arith) (omega arith)
                (ap (λ (t : ℕ). t / 2) (e ∙ half-pow n))))
      ]

  Finds-join :
      {lo mid hi : ℕ} {o : Option Hit}
      → lo ≤ mid
      → mid ≤ hi
      → ((m : ℕ) → lo ≤ m → m < mid → at_bit p m ≡ false)
      → Finds p mid hi o
      → Finds p lo hi o
  Finds-join {mid} a b before (found n above below yes_here none_before e) =
      found n (omega arith) below yes_here
        (λ m x y. elim (dec_lt m mid) [
          | yes early ↦ before m x early
          | no late ↦ none_before m (omega arith) y
        ])
        e
  Finds-join {mid} a b before (missing nowhere e) =
      missing
        (λ m x y. elim (dec_lt m mid) [
          | yes early ↦ before m x early
          | no late ↦ nowhere m (omega arith) y
        ])
        e

  Finds-widen :
      {lo mid hi : ℕ} {o : Option Hit} (h : Hit)
      → mid ≤ hi
      → Finds p lo mid o
      → o ≡ some h
      → Finds p lo hi (some h)
  Finds-widen h le (found n above below yes_here none_before e) f =
      found n above (omega arith) yes_here none_before (sym f ∙ e)
  Finds-widen h le (missing nowhere e) f = cc

  Finds-none :
      {lo hi : ℕ} {o : Option Hit}
      → Finds p lo hi o
      → o ≡ none
      → (m : ℕ) → lo ≤ m
      → m < hi
      → at_bit p m ≡ false
  Finds-none (found n above below yes_here none_before e) f m a b = cc
  Finds-none (missing nowhere e) f m a b = nowhere m a b

  Finds-bounds :
      {lo hi lo' hi' : ℕ} {o : Option Hit}
      → lo ≡ lo'
      → hi ≡ hi'
      → Finds p lo hi o
      → Finds p lo' hi' o
  Finds-bounds e f w = rw (← e, ← f) w

  -- The loop stops at the first bit that passes the test, with its word, mask and number, or
  -- passes over them all.
  pub scan_words-Finds :
      (n i ctr : ℕ) → ctr ≡ 32 * i → Finds p ctr (32 * i + 32 * n) (scan_words p n i ctr)
  unfolding scan_words
  scan_words-Finds zero i ctr e = missing (λ m lo hi. absurd (omega arith)) refl
  scan_words-Finds (suc n) i ctr e =
      let word = scan_word-Finds 32 i 0x8000_0000 ctr (omega arith) (omega arith) refl in
      elim (Option-cases (scan_word p 32 i 0x8000_0000 ctr)) [
        | inl nothing ↦
            rw (nothing, scan_words)
              (Finds-join (omega arith) (omega arith) (Finds-none word nothing) (
                Finds-bounds (omega arith) (omega arith)
                  (scan_words-Finds n (i + 1) (ctr + 32) (omega arith))))
        | inr (h, got) ↦ rw (got, scan_words) (Finds-widen h (omega arith) word got)
      ]
