-- ===== src/Onedrive/Values.antt =====
-- `put_value`, `set_value`, `get_values` and `delete_key` of src/vendors/onedrive/onedrive.c. The
-- functions on whole files that they call are the operations of a store.
pub mod Walk
pub mod Kept
pub mod Public
use elastos_net_hive_native.Base.{
  ℕ, zero, suc, ◌+◌, ◌-◌, ◌%◌, Bool, true, false, not, ◌&&◌, ◌||◌, Bytes, codes, length, take, drop,
  List, [], ◌++◌, ltb, leb, ◌==◌, ℤ, pos, negsuc, is_neg, to_int, to_unsigned, if◌then◌else◌,
}
use elastos_net_hive_native.Error.Code.{
  as_int, hive_general_error, hive_http_status_error, hiveerr_out_of_memory,
  hiveerr_bad_persistent_data, hiveerr_invalid_persistence_file,
}
use elastos_net_hive_native.Http.Body.{size_mod}
use elastos_net_hive_native.Api.Connect.{
  Env, Action, ◌>>=◌, ◌>>◌, pure, call, KeyValuesIterateCallback,
}
use elastos_net_hive_native.Api.Os.{eq_ℤ}
use elastos_net_hive_native.Api.Key.{hive_max_value_len}
use elastos_net_hive_native.Onedrive.Entry.{kv_entry_size, ntohl, fill, entry}

-- `__get_file_length`, `__get_file_to_buffer` (with the bytes that it has stored),
-- `__put_file_from_buffer` and `__delete_file`, at a path; and whether `calloc` has given a block.
pub record Store (W : Type 0) : Type 0 where
  pub file_length : Bytes → Action W ℤ
  pub file_to_buffer : Bytes → Bool → ℕ → Action W (ℤ × Bytes)
  pub file_from_buffer : Bytes → ℕ → Bool → Bytes → Action W ℤ
  pub file_delete : Bytes → Action W ℤ
  pub calloc : ℕ → W → Bool × W

-- HttpStatus_NotFound
abbrev pub not_found : ℕ
not_found = hive_http_status_error 404

-- PATH_MAX of the platform's headers
abbrev pub path_max : ℕ
path_max = 4096

-- snprintf(path, PATH_MAX, "%s/%s", KEYS_DIR, key)
unfoldable pub key_path : Bytes → Bytes
key_path key = take (path_max - 1) (codes "/KeyValues" ++ codes "/" ++ key)

-- if ((int)size == HIVE_HTTP_STATUS_ERROR(HttpStatus_NotFound)) size = 0;
abbrev pub or_empty : ℤ → ℤ
or_empty size = if to_unsigned (to_int size) == not_found then pos 0 else size

module _ {W : Type 0} (store : Store W) where
  abbrev general : ℕ → Action W ℤ
  general code = pure (as_int (hive_general_error code))

  -- The file's bytes, which have to be `size` bytes, for the caller to go on with.
  unfoldable pub read_values : Bytes → Bool → ℕ → (Bytes → Action W ℤ) → Action W ℤ
  read_values path decrypt size next = do
    (rc, bytes) ← store.file_to_buffer path decrypt size
    if is_neg (to_int rc)
        then pure (to_int rc)
        else if not (eq_ℤ (to_int rc) (to_int (pos size)))
        then general hiveerr_invalid_persistence_file
        else next (fill size bytes)

  abbrev put_behind : Bytes → Bytes → ℕ → Bool → ℕ → Bytes → Action W ℤ
  put_behind path value length encrypt size old =
      store.file_from_buffer (old ++ entry value length)
        ((size + kv_entry_size + length) % size_mod) encrypt path

  unfoldable pub put_sized : Bytes → Bytes → ℕ → Bool → ℤ → Action W ℤ
  unfolding read_values entry
  put_sized path value length encrypt (negsuc n) = pure (to_int (negsuc n))
  put_sized path value length encrypt (pos size) = do
    made ← call (store.calloc ((size + kv_entry_size + length) % size_mod))
    if not made
        then general hiveerr_out_of_memory
        else if size == 0
        then put_behind path value length encrypt 0 []
        else read_values path encrypt size (put_behind path value length encrypt size)

  unfoldable pub put_value : Bytes → Bytes → ℕ → Bool → Action W ℤ
  unfolding put_sized key_path
  put_value key value length encrypt = do
    size ← store.file_length (key_path key)
    put_sized (key_path key) value length encrypt (or_empty size)

  unfoldable pub set_value : Bytes → Bytes → ℕ → Bool → Action W ℤ
  unfolding entry key_path
  set_value key value length encrypt = do
    made ← call (store.calloc ((kv_entry_size + length) % size_mod))
    if not made
        then general hiveerr_out_of_memory
        else store.file_from_buffer (entry value length) ((kv_entry_size + length) % size_mod)
            encrypt (key_path key)

  -- while (1) { … }, over the `data_len` bytes at `kv`. Each round takes at least four of them, so
  -- that as many rounds as there are bytes are enough.
  unfoldable pub walk : ℕ → Bytes → KeyValuesIterateCallback W → ℕ → Bytes → Action W ℤ
  walk zero key callback data_len kv = general hiveerr_bad_persistent_data
  walk (suc fuel) key callback data_len kv =
      let val_len = ntohl kv in
      let entry_len = kv_entry_size + val_len in
      let left = data_len - entry_len in
      let rest = walk fuel key callback left (drop entry_len kv) in
      if ltb hive_max_value_len val_len
      then general hiveerr_bad_persistent_data
      else if ltb data_len entry_len || ltb 0 left && leb left kv_entry_size
      then general hiveerr_bad_persistent_data
      else (do
        proceed ← callback key (take val_len (drop kv_entry_size kv))
        if left == 0 || not proceed then pure (pos 0) else rest)

  unfoldable pub get_sized : Bytes → Bool → KeyValuesIterateCallback W → ℤ → Action W ℤ
  unfolding walk key_path
  get_sized key decrypt callback (negsuc n) = pure (to_int (negsuc n))
  get_sized key decrypt callback (pos data_len) =
      if ltb 0 data_len && leb data_len kv_entry_size
      then general hiveerr_bad_persistent_data
      else if data_len == 0
      then pure (pos 0)
      else (do
        made ← call (store.calloc data_len)
        if not made then general hiveerr_out_of_memory else (do
          (rc, bytes) ← store.file_to_buffer (key_path key) decrypt data_len
          if is_neg rc
              then pure (to_int rc)
              else if not (eq_ℤ rc (pos data_len))
              then general hiveerr_invalid_persistence_file
              else walk data_len key callback data_len (fill data_len bytes)))

  unfoldable pub get_values : Bytes → Bool → KeyValuesIterateCallback W → Action W ℤ
  unfolding get_sized key_path
  get_values key decrypt callback = do
    data_len ← store.file_length (key_path key)
    get_sized key decrypt callback (or_empty data_len)

  unfoldable pub delete_key : Bytes → Action W ℤ
  unfolding key_path
  delete_key key = do
    rc ← store.file_delete (key_path key)
    if is_neg rc && not (to_unsigned rc == not_found) then pure rc else pure (pos 0)
