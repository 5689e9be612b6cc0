-- ===== src/Http/Keeps.antt =====
-- Properties of the state that steps keep.
use elastos_net_hive_native.Base.{Bool, true, false, Option, none, some, ℤ}
use elastos_net_hive_native.Http.Step.{
  Res, ret, go, Step, follow, value, return_if, return_after, need,
}

module _ {S : Type 0} (P : S → Type 0) where
  abbrev pub Keeps : {A : Type 0} → (S → A × S) → Type 0
  Keeps m = (s : S) → P s → P (m s).1

  pub follow-Keeps :
      {A B : Type 0} (f : A → Step S B) (x : Res A × S)
      → P x.1
      → ((a : A) → Keeps (f a))
      → P (follow f x).1
  follow-Keeps f (ret r, s) k h = k
  follow-Keeps f (go a, s) k h = h a s k

  pub return_after-Keeps :
      (test : Bool) (cleanup : S → S) (r : ℤ)
      → ((s : S) → P s → P (cleanup s))
      → Keeps (return_after test cleanup r)
  return_after-Keeps true cleanup r h s k = h s k
  return_after-Keeps false cleanup r h s k = k

  pub return_if-Keeps : (test : Bool) (r : ℤ) → Keeps (return_if {S = S} test r)
  return_if-Keeps true r s k = k
  return_if-Keeps false r s k = k

  pub need-Keeps : {A : Type 0} (pointer : Option A) (r : ℤ) → Keeps (need {S = S} pointer r)
  need-Keeps none r s k = k
  need-Keeps (some a) r s k = k

  pub value-Keeps : (x : Res ℤ × S) → P x.1 → P (value x).1
  value-Keeps (ret r, s) k = k
  value-Keeps (go r, s) k = k
