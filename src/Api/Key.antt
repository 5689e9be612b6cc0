-- ===== src/Api/Key.antt =====
-- src/hive_key.c. A pointer is an `Option`, a string its bytes, and `length` is a `size_t`.
pub mod Contract
use elastos_net_hive_native.Base.{
  ℕ, ◌*◌, Bool, ◌||◌, Bytes, ◌∷◌, Option, none, some, ◌==◌, ltb, ℤ, pos, if◌then◌else◌,
}
use elastos_net_hive_native.Api.Connect.{
  Action, HiveConnect, KeyValuesIterateCallback, invalid_args, supported, report, pure,
}

abbrev pub hive_max_value_len : ℕ
hive_max_value_len = 32 * 1024

module _ {W : Type 0} where
  unfoldable pub hive_put_value :
      Option (HiveConnect W) → Option Bytes → Option Bytes → ℕ → Bool → Action W ℤ
  hive_put_value (some connect) (some (k ∷ key)) (some value) length encrypt =
      if length == 0 || ltb hive_max_value_len length
      then invalid_args
      else supported connect.put_value (λ put. report (put (k ∷ key) value length encrypt))
  hive_put_value _ _ _ length encrypt = invalid_args

  unfoldable pub hive_set_value :
      Option (HiveConnect W) → Option Bytes → Option Bytes → ℕ → Bool → Action W ℤ
  hive_set_value (some connect) (some (k ∷ key)) (some value) length encrypt =
      if length == 0 || ltb hive_max_value_len length
      then invalid_args
      else supported connect.set_value (λ set. report (set (k ∷ key) value length encrypt))
  hive_set_value _ _ _ length encrypt = invalid_args

  unfoldable pub hive_get_values :
      Option (HiveConnect W)
      → Option Bytes
      → Bool
      → Option (KeyValuesIterateCallback W)
      → Action W ℤ
  hive_get_values (some connect) (some (k ∷ key)) decrypt (some callback) =
      supported connect.get_values (λ get. report (get (k ∷ key) decrypt callback))
  hive_get_values _ _ decrypt _ = invalid_args

  unfoldable pub hive_delete_key : Option (HiveConnect W) → Option Bytes → Action W ℤ
  hive_delete_key (some connect) (some (k ∷ key)) =
      supported connect.delete_key (λ delete. report (delete (k ∷ key)))
  hive_delete_key _ _ = invalid_args

  unfoldable pub hive_set_access_token_expired : Option (HiveConnect W) → Action W ℤ
  hive_set_access_token_expired none = invalid_args
  hive_set_access_token_expired (some connect) = elim connect.expire_token [
    | none ↦ pure (pos 0)
    | some expire ↦ report expire
  ]
