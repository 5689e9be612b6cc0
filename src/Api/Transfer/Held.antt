-- ===== src/Api/Transfer/Held.antt =====
-- What it means that a step gives back all that it acquires, and the wrappers that keep it so.
use elastos_net_hive_native.Base.{
  Bool, true, false, Bytes, Option, none, some, ℤ, is_neg, if◌then◌else◌, ◌≡◌, refl, inl, inr,
  Bool-cases,
}
use elastos_net_hive_native.Api.Connect.{Env, Action, report, report_size, supported}
use elastos_net_hive_native.Api.Os.{Os, Ledger}
use elastos_net_hive_native.Api.File.{report_stored, report_cid, supported_out}

module _ {W : Type 0} {os : Os W} (l : Ledger os) where
  -- The step uses the same resources after it as before.
  abbrev pub Balanced : {A : Type 0} → Action W A → Type 0
  Balanced m = (e : Env W) → l.held (m e).1.world ≡ l.held e.world

  pub report-Balanced : (m : Action W ℤ) → Balanced m → Balanced (report m)
  report-Balanced m k e = elim (Bool-cases (is_neg (m e).0)) [
    | inl bad ↦ rw (bad, report) (k e)
    | inr good ↦ rw (good, report) (k e)
  ]

  pub report_size-Balanced : (m : Action W ℤ) → Balanced m → Balanced (report_size m)
  report_size-Balanced m k e = elim (Bool-cases (is_neg (m e).0)) [
    | inl bad ↦ rw (bad, report_size) (k e)
    | inr good ↦ rw (good, report_size) (k e)
  ]

  pub report_stored-Balanced : (m : Action W (ℤ × Bytes)) → Balanced m → Balanced (report_stored m)
  unfolding report_stored
  report_stored-Balanced m k e = elim (Bool-cases (is_neg (m e).0.0)) [
    | inl bad ↦ rw (bad, report_stored) (k e)
    | inr good ↦ rw (good, report_stored) (k e)
  ]

  pub report_cid-Balanced : (m : Action W (ℤ × Option Bytes)) → Balanced m → Balanced (report_cid m)
  unfolding report_cid
  report_cid-Balanced m k e = elim (Bool-cases (is_neg (m e).0.0)) [
    | inl bad ↦ rw (bad, report_cid) (k e)
    | inr good ↦ rw (good, report_cid) (k e)
  ]

  pub if-Balanced :
      {A : Type 0} (b : Bool) (m n : Action W A)
      → Balanced m
      → Balanced n
      → Balanced (if b then m else n)
  if-Balanced true m n k j = k
  if-Balanced false m n k j = j

  pub supported-Balanced :
      {F : Type 0} (o : Option F) (run : F → Action W ℤ)
      → ((f : F) → o ≡ some f → Balanced (run f))
      → Balanced (supported o run)
  supported-Balanced none run k e = refl
  supported-Balanced (some f) run k e = k f refl e

  pub supported_out-Balanced :
      {F A : Type 0} (out : A) (o : Option F) (run : F → Action W (ℤ × A))
      → ((f : F) → o ≡ some f → Balanced (run f))
      → Balanced (supported_out out o run)
  supported_out-Balanced out none run k e = refl
  supported_out-Balanced out (some f) run k e = k f refl e
