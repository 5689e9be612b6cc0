-- ===== src/Tests/Keys.antt =====
-- The key-value functions of src/hive_key.c over a backend that counts its calls.
use elastos_net_hive_native.Base.{ℕ, ◌≤◌, Bool, true, Bytes, codes, none, some, pos, ℤ}
use elastos_net_hive_native.Api.Connect.{Env, Action, HiveConnect}
use elastos_net_hive_native.Api.Key.{
  hive_put_value, hive_set_value, hive_get_values, hive_delete_key, hive_set_access_token_expired,
}
use elastos_net_hive_native.Api.Key.Contract.{Outcome, key_functions-Outcome}

-- The world is the greatest length that a value had.
abbrev store : Bytes → Bytes → ℕ → Bool → Action ℕ ℤ
store key value length encrypt e = (pos 0, record e { world = length })

abbrev backend : HiveConnect ℕ
backend = record {
  put_file_from_buffer = none;
  get_file_length = none;
  get_file_to_buffer = none;
  list_files = none;
  delete_file = none;
  ipfs_put_file_from_buffer = none;
  ipfs_get_file_length = none;
  ipfs_get_file_to_buffer = none;
  put_value = some store;
  set_value = some store;
  get_values = none;
  delete_key = none;
  disconnect = none;
  expire_token = none;
}

abbrev fresh : Env ℕ
fresh = record { hive_error = pos 0; world = 0 }

key_functions-Outcome_example :
    Outcome (hive_put_value (some backend) (some (codes "k")) (some (codes "v")) 1 true fresh)
    × Outcome (hive_set_value (some backend) (some (codes "k")) (some (codes "v")) 1 true fresh)
    × Outcome (hive_get_values (some backend) (some (codes "k")) true none fresh)
    × Outcome (hive_delete_key (some backend) (some (codes "k")) fresh)
    × Outcome (hive_set_access_token_expired (some backend) fresh)
key_functions-Outcome_example =
    key_functions-Outcome (some backend) (some (codes "k")) (some (codes "v")) 1 true none fresh

-- The greatest length stays in the bound.
abbrev InBound : ℕ → Type 0
InBound n = n ≤ 32768
