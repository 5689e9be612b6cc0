-- ===== src/Api/Key/Contract.antt =====
-- What the public key-value functions of src/hive_key.c promise to their callers and to the backend.
use elastos_net_hive_native.Base.{
  ℕ, ◌≤◌, ◌<◌, Bool, true, Bytes, ◌∷◌, [], Option, none, some, ◌==◌, ltb, ◌||◌, ℤ, pos, negsuc,
  is_neg, ◌≡◌, ◌≢◌, ◌⊎◌, inl, inr, refl, arith, Bool-cases, Option-cases,
}
use elastos_net_hive_native.Error.Code.{hive_mk_error}
use elastos_net_hive_native.Api.Connect.{
  Env, Action, HiveConnect, KeyValuesIterateCallback, supported, report,
}
use elastos_net_hive_native.Api.Key.{
  hive_max_value_len, hive_put_value, hive_set_value, hive_get_values, hive_delete_key,
  hive_set_access_token_expired,
}

-- A call succeeds with 0, or fails with -1 and leaves a negative code as the last error.
abbrev pub Outcome : {W : Type 0} → ℤ × Env W → Type 0
Outcome r = (r.0 ≡ pos 0) ⊎ ((r.0 ≡ negsuc 0) × (is_neg r.1.hive_error ≡ true))

module _ {W : Type 0} where
  report-Outcome : (m : Action W ℤ) (e : Env W) → Outcome (report m e)
  report-Outcome m e = ground arith

  supported-Outcome :
      {F : Type 0} (o : Option F) (run : F → Action W ℤ) (e : Env W)
      → ((f : F) → Outcome (run f e))
      → Outcome (supported o run e)
  unfolding hive_mk_error
  supported-Outcome none run e h = inr (refl, refl)
  supported-Outcome (some f) run e h = h f

  put_value-Outcome :
      (c : Option (HiveConnect W)) (key value : Option Bytes) (length : ℕ) (x : Bool) (e : Env W)
      → Outcome (hive_put_value c key value length x e)
  unfolding hive_put_value hive_mk_error
  put_value-Outcome (some c) (some (k ∷ key)) (some value) length x e =
      elim (Bool-cases (length == 0 || ltb hive_max_value_len length)) [
        | inl bad ↦ rw bad (inr (refl, refl))
        | inr good ↦ rw good (
            supported-Outcome c.put_value _ e
              (λ put. report-Outcome (put (k ∷ key) value length x) e))
      ]
  put_value-Outcome _ _ _ length x e = inr (refl, refl)

  set_value-Outcome :
      (c : Option (HiveConnect W)) (key value : Option Bytes) (length : ℕ) (x : Bool) (e : Env W)
      → Outcome (hive_set_value c key value length x e)
  unfolding hive_set_value hive_mk_error
  set_value-Outcome (some c) (some (k ∷ key)) (some value) length x e =
      elim (Bool-cases (length == 0 || ltb hive_max_value_len length)) [
        | inl bad ↦ rw bad (inr (refl, refl))
        | inr good ↦ rw good (
            supported-Outcome c.set_value _ e
              (λ set. report-Outcome (set (k ∷ key) value length x) e))
      ]
  set_value-Outcome _ _ _ length x e = inr (refl, refl)

  get_values-Outcome :
      (c : Option (HiveConnect W)) (key : Option Bytes) (x : Bool)
      (callback : Option (KeyValuesIterateCallback W)) (e : Env W)
      → Outcome (hive_get_values c key x callback e)
  unfolding hive_get_values hive_mk_error
  get_values-Outcome (some c) (some (k ∷ key)) x (some callback) e =
      supported-Outcome c.get_values _ e (λ get. report-Outcome (get (k ∷ key) x callback) e)
  get_values-Outcome _ _ x _ e = inr (refl, refl)

  delete_key-Outcome :
      (c : Option (HiveConnect W)) (key : Option Bytes) (e : Env W)
      → Outcome (hive_delete_key c key e)
  unfolding hive_delete_key hive_mk_error
  delete_key-Outcome (some c) (some (k ∷ key)) e =
      supported-Outcome c.delete_key _ e (λ delete. report-Outcome (delete (k ∷ key)) e)
  delete_key-Outcome _ _ e = inr (refl, refl)

  token_expired-Outcome :
      (c : Option (HiveConnect W)) (e : Env W) → Outcome (hive_set_access_token_expired c e)
  unfolding hive_set_access_token_expired hive_mk_error
  token_expired-Outcome none e = inr (refl, refl)
  token_expired-Outcome (some c) e = elim (Option-cases c.expire_token) [
    | inl e0 ↦ rw (e0, hive_set_access_token_expired) (inl refl)
    | inr (f, e1) ↦ rw (e1, hive_set_access_token_expired) (report-Outcome f e)
  ]

  -- Each of the five functions either returns 0, or returns -1 and leaves a negative code as the last
  -- error, whatever its arguments and the backend are.
  pub key_functions-Outcome :
      (c : Option (HiveConnect W)) (key value : Option Bytes) (length : ℕ) (x : Bool)
      (callback : Option (KeyValuesIterateCallback W)) (e : Env W)
      → Outcome (hive_put_value c key value length x e)
        × Outcome (hive_set_value c key value length x e)
        × Outcome (hive_get_values c key x callback e)
        × Outcome (hive_delete_key c key e)
        × Outcome (hive_set_access_token_expired c e)
  key_functions-Outcome c key value length x callback e = (
    put_value-Outcome c key value length x e,
    set_value-Outcome c key value length x e,
    get_values-Outcome c key x callback e,
    delete_key-Outcome c key e,
    token_expired-Outcome c e,
  )

module _ {W : Type 0} (P : W → Type 0) where
  -- A backend's function keeps `P`, if its key is not empty and its value has 1 to 32768 bytes.
  abbrev pub KeepsIfValid : (Bytes → Bytes → ℕ → Bool → Action W ℤ) → Type 0
  KeepsIfValid f =
      (key value : Bytes) (length : ℕ) (x : Bool) (e : Env W)
      → key ≢ []
      → 0 < length
      → length ≤ 32768
      → P e.world
      → P (f key value length x e).1.world
