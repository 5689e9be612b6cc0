-- ===== src/Apps/Ops.antt =====
-- apps/cmd/cmd.c: what a command works on, and the two tables of operations that it calls.
use elastos_net_hive_native.Base.{
  ℕ, Bool, true, Bytes, List, [], ◌∷◌, Option, none, some, ℤ, pos, is_neg, if◌then◌else◌, codes,
}
use elastos_net_hive_native.Api.Connect.{
  Env, Action, HiveConnect, FilesIterateCallback, KeyValuesIterateCallback,
}
use elastos_net_hive_native.Api.Os.{Os}
use elastos_net_hive_native.Api.Key.{
  hive_put_value, hive_set_value, hive_get_values, hive_delete_key,
}
use elastos_net_hive_native.Api.File.{
  hive_put_file_from_buffer, hive_get_file_length, hive_get_file_to_buffer, hive_list_files,
  hive_delete_file, hive_ipfs_put_file_from_buffer, hive_ipfs_get_file_length,
  hive_ipfs_get_file_to_buffer,
}
use elastos_net_hive_native.Api.Transfer.{
  hive_put_file, hive_get_file, hive_ipfs_put_file, hive_ipfs_get_file,
}

-- `ops_t`; an operation that is `none` is NULL.
pub record Ops (W : Type 0) : Type 0 where
  pub put_file : Option (HiveConnect W → Bytes → Bool → Option Bytes → Action W ℤ)
  pub put_file_from_buffer : Option (HiveConnect W → Bytes → ℕ → Bool → Option Bytes → Action W ℤ)
  pub get_file_length : Option (HiveConnect W → Bytes → Action W ℤ)
  pub get_file : Option (HiveConnect W → Bytes → Bool → Bytes → Action W ℤ)
  pub get_file_to_buffer : Option (HiveConnect W → Bytes → Bool → ℕ → Action W (ℤ × Bytes))
  pub list_files : Option (HiveConnect W → FilesIterateCallback W → Action W ℤ)
  pub delete_file : Option (HiveConnect W → Bytes → Action W ℤ)
  pub put_value : Option (HiveConnect W → Bytes → Bytes → ℕ → Bool → Action W ℤ)
  pub set_value : Option (HiveConnect W → Bytes → Bytes → ℕ → Bool → Action W ℤ)
  pub get_values : Option (HiveConnect W → Bytes → Bool → KeyValuesIterateCallback W → Action W ℤ)
  pub delete_key : Option (HiveConnect W → Bytes → Action W ℤ)

-- `console` with its format and what is put into it, where a text may be NULL; `malloc` and `calloc`; %zd.
pub record Host (W : Type 0) : Type 0 where
  pub print : Bytes → List (Option Bytes) → W → W
  pub alloc : ℕ → W → Bool × W
  pub decimal : ℤ → Bytes

module _ {W : Type 0} (host : Host W) where
  abbrev pub console : Bytes → List (Option Bytes) → Action W (Unit {0})
  console format args e = (tt, record e { world = host.print format args e.world })

  -- A put's result and cid are told.
  abbrev pub tell_cid : Bytes → (ℤ × Option Bytes) × Env W → ℤ × Env W
  tell_cid failure ((rc, cid), e) =
      if is_neg rc
      then (rc, (console failure [] e).1)
      else (pos 0, (console (codes "CID: %s.") (cid ∷ []) e).1)

module _ {W : Type 0} (os : Os W) where
  unfoldable pub general_ops : Ops W
  unfolding hive_put_file hive_put_file_from_buffer hive_get_file_length hive_get_file
      hive_get_file_to_buffer hive_list_files hive_delete_file hive_put_value hive_set_value
      hive_get_values hive_delete_key
  general_ops = record {
    put_file = some (λ connect from encrypt filename.
        hive_put_file os (some connect) (some from) encrypt filename);
    put_file_from_buffer = some (λ connect from length encrypt filename.
        hive_put_file_from_buffer (some connect) (some from) length encrypt filename);
    get_file_length =
        some (λ connect filename. hive_get_file_length (some connect) (some filename));
    get_file = some (λ connect filename decrypt to.
        hive_get_file os (some connect) (some filename) decrypt (some to));
    get_file_to_buffer = some (λ connect filename decrypt buflen.
        hive_get_file_to_buffer (some connect) (some filename) decrypt true buflen);
    list_files = some (λ connect callback. hive_list_files (some connect) (some callback));
    delete_file = some (λ connect filename. hive_delete_file (some connect) (some filename));
    put_value = some (λ connect key value length encrypt.
        hive_put_value (some connect) (some key) (some value) length encrypt);
    set_value = some (λ connect key value length encrypt.
        hive_set_value (some connect) (some key) (some value) length encrypt);
    get_values = some (λ connect key decrypt callback.
        hive_get_values (some connect) (some key) decrypt (some callback));
    delete_key = some (λ connect key. hive_delete_key (some connect) (some key));
  }

module _ {W : Type 0} (os : Os W) (host : Host W) where
  -- The name for a put is not used, and a cid is the name of a file.
  unfoldable pub ipfs_put_file : HiveConnect W → Bytes → Bool → Option Bytes → Action W ℤ
  unfolding hive_ipfs_put_file
  ipfs_put_file connect from encrypt filename e =
      tell_cid host (codes "Error: failed to put file.")
        (hive_ipfs_put_file os (some connect) (some from) encrypt true e)

  unfoldable pub ipfs_put_file_from_buffer :
      HiveConnect W → Bytes → ℕ → Bool → Option Bytes → Action W ℤ
  unfolding hive_ipfs_put_file_from_buffer
  ipfs_put_file_from_buffer connect from length encrypt filename e =
      tell_cid host (codes "Error: failed to put file from buffer.")
        (hive_ipfs_put_file_from_buffer (some connect) (some from) length encrypt true e)

  unfoldable pub ipfs_ops : Ops W
  unfolding ipfs_put_file ipfs_put_file_from_buffer hive_ipfs_get_file_length hive_ipfs_get_file
      hive_ipfs_get_file_to_buffer
  ipfs_ops = record {
    put_file = some ipfs_put_file;
    put_file_from_buffer = some ipfs_put_file_from_buffer;
    get_file_length = some (λ connect cid. hive_ipfs_get_file_length (some connect) (some cid));
    get_file = some (λ connect cid decrypt to.
        hive_ipfs_get_file os (some connect) (some cid) decrypt (some to));
    get_file_to_buffer = some (λ connect cid decrypt buflen.
        hive_ipfs_get_file_to_buffer (some connect) (some cid) decrypt true buflen);
    list_files = none;
    delete_file = none;
    put_value = none;
    set_value = none;
    get_values = none;
    delete_key = none;
  }
