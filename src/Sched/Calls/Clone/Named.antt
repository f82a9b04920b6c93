-- ===== src/Sched/Calls/Clone/Named.antt =====
-- The name that `do_clone` of assignment3/schedule.c gives a new process.
use operating_systems_assign.Base.{
  ℕ, zero, suc, ◌+◌, ◌^◌, ◌<◌, ◌≤◌, ◌≡◌, ◌≢◌, refl, sym, ap, ◌∙◌, false, List, [], ◌∷◌, ◌++◌, none,
  some, ◌==◌, leb, lt→ltb, Bool-cases, Option-cases, inl, inr, arith,
}
use operating_systems_assign.ObjStore.Store.{length}
use operating_systems_assign.Sched.Context.{Context, Kernel}
use operating_systems_assign.Sched.Calls.Clone.{
  do_clone, cname_max, name_chars, int_digits, text_over, clone_name,
}
use operating_systems_assign.Sched.Calls.Clone.Digits.{
  IsDecimal, no_digits, one_more, Spells, digits-Spells,
}

-- No character is NUL.
data IsText : List ℕ → Type 0 where
  no_text : IsText []
  one_char : {c : ℕ} {cs : List ℕ} → c ≢ 0 → IsText cs → IsText (c ∷ cs)

IsDecimal-IsText : (cs : List ℕ) → IsDecimal cs → IsText cs
IsDecimal-IsText [] no_digits = no_text
IsDecimal-IsText (c ∷ cs) (one_more lo hi ok) = one_char (omega arith) (IsDecimal-IsText cs ok)

++-IsText : (s t : List ℕ) → IsText s → IsText t → IsText (s ++ t)
++-IsText [] t no_text ok = ok
++-IsText (c ∷ s) t (one_char ne h) ok = one_char ne (++-IsText s t h ok)

some-injective {ℓ} : {A : Type ℓ} (s t : A) → some s ≡ some t → s ≡ t
some-injective s t e = ap (λ o. elim o [ none ↦ s | some x ↦ x ]) e

none-some {ℓ} : {A : Type ℓ} (t : A) → none ≢ some t
none-some t e = cc

name_chars-IsText :
    (n i : ℕ) (name : ℕ → ℕ) (cs : List ℕ) → name_chars n i name ≡ some cs → IsText cs
unfolding name_chars
name_chars-IsText zero i name cs e = cc
name_chars-IsText (suc n) i name cs e = elim (Bool-cases (name i == 0)) [
  | inl last ↦ rw (sym (some-injective [] cs (rw last at e))) no_text
  | inr more ↦ elim (Option-cases (name_chars n (i + 1) name)) [
    | inl none_left ↦ absurd (none-some cs (rw (more, none_left) at e))
    | inr (ds, rest) ↦
        rw (sym (some-injective (name i ∷ ds) cs (rw (more, rest) at e)))
          (one_char (ground arith) (name_chars-IsText n (i + 1) name ds rest))
  ]
]

-- The text is read back from the bytes that hold it and a zero behind it.
name_chars-text_over :
    (n i : ℕ) (name junk : ℕ → ℕ) (t : List ℕ)
    → IsText t
    → length t < n
    → ((j : ℕ) → name (i + j) ≡ text_over (t ++ 0 ∷ []) junk j)
    → name_chars n i name ≡ some t
unfolding name_chars
name_chars-text_over zero i name junk t ok lt same = absurd (omega arith)
name_chars-text_over (suc n) i name junk [] ok lt same =
    let here : name i ≡ 0 = ground (arith, same 0) in rw here refl
name_chars-text_over (suc n) i name junk (c ∷ t) (one_char ne ok) lt same =
    let here : name i ≡ c = ground (arith, same 0) in
    let some_char : (c == 0) ≡ false = ground arith in
    let rest =
      name_chars-text_over n (i + 1) name (λ j. junk (suc j)) t ok (omega arith)
        (λ j. ground (arith, same (suc j))) in
    rw (here, some_char, rest) refl

-- The name of a new process is that of init followed by a text of digits.
pub record IsNamed (init : Context) (pid : ℕ) (name : ℕ → ℕ) (base ds : List ℕ) : Type 0 where
  pub base_name : name_chars cname_max 0 init.name ≡ some base
  pub whole : name_chars cname_max 0 name ≡ some (base ++ ds)
  pub spelled : Spells pid 10 ds

length-++-end : (t : List ℕ) → length (t ++ 0 ∷ []) ≡ suc (length t)
length-++-end [] = refl
length-++-end (c ∷ t) = ap suc (length-++-end t)

whole_name :
    (base ds : List ℕ) (junk name : ℕ → ℕ)
    → IsText base
    → IsText ds
    → length (base ++ ds ++ 0 ∷ []) ≤ cname_max
    → some (text_over (base ++ ds ++ 0 ∷ []) junk) ≡ some name
    → name_chars cname_max 0 name ≡ some (base ++ ds)
whole_name base ds junk name ok ok' fits e =
    let same : text_over (base ++ ds ++ 0 ∷ []) junk ≡ name = some-injective _ name e in
    name_chars-text_over cname_max 0 name junk (base ++ ds) (++-IsText base ds ok ok')
      (omega (arith, length-++-end (base ++ ds)))
      (λ j. ap name (omega arith) ∙ ap (λ f. f j) (sym same))

int_digits-Spells : (pid : ℕ) → pid < 2 ^ 31 → Spells pid 10 (int_digits pid)
int_digits-Spells pid lt = rw (lt→ltb pid (2 ^ 31) lt) (digits-Spells pid pid (omega arith) lt)

clone_name-IsNamed :
    (init : Context) (pid : ℕ) (junk name : ℕ → ℕ)
    → pid < 2 ^ 31
    → clone_name init pid junk ≡ some name
    → (base ds : List ℕ) × IsNamed init pid name base ds
unfolding clone_name
clone_name-IsNamed init pid junk name lt e =
    elim (Option-cases (name_chars cname_max 0 init.name)) [
      | inl none_there ↦ absurd (none-some name (rw none_there at e))
      | inr (cs, chars) ↦
          elim (Bool-cases (leb (length (cs ++ int_digits pid ++ 0 ∷ [])) cname_max)) [
            | inl fits ↦ (
              cs,
              int_digits pid,
              record {
                base_name = chars;
                whole =
                    whole_name cs (int_digits pid) junk name
                      (name_chars-IsText cname_max 0 init.name cs chars)
                      (IsDecimal-IsText (int_digits pid) (int_digits-Spells pid lt).decimal)
                      (ground arith) (rw (chars, fits) at e);
                spelled = int_digits-Spells pid lt;
              },
            )
            | inr long ↦ absurd (none-some name (rw (chars, long) at e))
          ]
    ]

-- Where `do_clone` gives a new process with a pid below 2 ^ 31 a name, the name, up to its zero byte,
-- is the name of init followed by the decimal digits of the pid, ten of them at most.
pub do_clone-IsNamed :
    (th_func user_stack new_pid os_pfn : ℕ) (junk : ℕ → ℕ) (k k' : Kernel)
    → (k.ctx new_pid).pid < 2 ^ 31
    → do_clone th_func user_stack new_pid os_pfn junk k ≡ some k'
    → (base ds : List ℕ) × IsNamed (k.ctx 1) (k.ctx new_pid).pid (k'.ctx new_pid).name base ds
unfolding do_clone
do_clone-IsNamed th_func user_stack new_pid os_pfn junk k k' lt e =
    elim (Option-cases (clone_name (k.ctx 1) (k.ctx new_pid).pid junk)) [
      | inl none_there ↦ absurd (none-some k' (rw none_there at e))
      | inr (name, named) ↦
          let after = some-injective _ k' (rw named at e) in
          let same : name ≡ (k'.ctx new_pid).name =
            ground (arith, ap (λ x. (x.ctx new_pid).name) after) in
          rw (sym same) (clone_name-IsNamed (k.ctx 1) (k.ctx new_pid).pid junk name lt named)
    ]
