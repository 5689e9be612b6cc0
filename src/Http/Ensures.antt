-- ===== src/Http/Ensures.antt =====
-- What holds behind a step: `Q` of the value that it goes on with, or `R` of its function's result.
use elastos_net_hive_native.Base.{◌≡◌, refl, Bool, true, false, Option, none, some, ℤ}
use elastos_net_hive_native.Http.Step.{
  Res, ret, go, Step, follow, value, return_if, return_after, need_after,
}

pub data After {S A : Type 0} (Q : A → S → Type 0) (R : ℤ → S → Type 0) : Res A × S → Type 0 where
  ended : {r : ℤ} {s : S} → R r s → After Q R (ret r, s)
  goes_on : {a : A} {s : S} → Q a s → After Q R (go a, s)

module _ {S : Type 0} where
  -- For every state with `P`.
  abbrev pub Ensures :
      {A : Type 0} → (S → Type 0) → Step S A → (A → S → Type 0) → (ℤ → S → Type 0) → Type 0
  Ensures P m Q R = (s : S) → P s → After Q R (m s)

  pub follow-After :
      {A B : Type 0} {Q : A → S → Type 0} {Q' : B → S → Type 0} {R : ℤ → S → Type 0}
      (f : A → Step S B) (x : Res A × S)
      → After Q R x
      → ((a : A) → Ensures (Q a) (f a) Q' R)
      → After Q' R (follow f x)
  follow-After f (ret r, s) (ended x) h = ended x
  follow-After f (go a, s) (goes_on x) h = h a s x

  -- A test: behind it, it was false.
  pub return_after-After :
      {Q : Unit {0} → S → Type 0} {R : ℤ → S → Type 0} (test : Bool) (cleanup : S → S) (r : ℤ)
      (s : S)
      → (test ≡ true → R r (cleanup s))
      → (test ≡ false → Q tt s)
      → After Q R (return_after test cleanup r s)
  return_after-After true cleanup r s h k = ended (h refl)
  return_after-After false cleanup r s h k = goes_on (k refl)

  pub return_if-After :
      {Q : Unit {0} → S → Type 0} {R : ℤ → S → Type 0} (test : Bool) (r : ℤ) (s : S)
      → (test ≡ true → R r s)
      → (test ≡ false → Q tt s)
      → After Q R (return_if test r s)
  return_if-After true r s h k = ended (h refl)
  return_if-After false r s h k = goes_on (k refl)

  -- A pointer: behind it, it is the value.
  pub need_after-After :
      {A : Type 0} {Q : A → S → Type 0} {R : ℤ → S → Type 0} (pointer : Option A) (cleanup : S → S)
      (r : ℤ) (s : S)
      → R r (cleanup s)
      → ((a : A) → pointer ≡ some a → Q a s)
      → After Q R (need_after pointer cleanup r s)
  need_after-After none cleanup r s h k = ended h
  need_after-After (some a) cleanup r s h k = goes_on (k a refl)

  pub value-After : {R : ℤ → S → Type 0} (x : Res ℤ × S) → After R R x → R (value x).0 (value x).1
  value-After (ret r, s) (ended h) = h
  value-After (go r, s) (goes_on h) = h
