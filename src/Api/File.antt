-- ===== src/Api/File.antt =====
-- src/hive_file.c. Sizes follow the source's conversions: `off_t` to `size_t`, `ssize_t` to `size_t`
-- and back.
use elastos_net_hive_native.Base.{
  ℕ, ◌*◌, Bool, ◌||◌, ◌&&◌, not, Bytes, ◌∷◌, [], true, false, Option, none, some, is_some, ◌==◌,
  ltb, ℤ, pos, negsuc, is_neg, to_int, if◌then◌else◌,
}
use elastos_net_hive_native.Error.Code.{hive_general_error, hiveerr_not_supported}
use elastos_net_hive_native.Api.Connect.{
  Action, HiveConnect, FilesIterateCallback, invalid_args, supported, report, report_size, fail,
}

abbrev pub hive_max_file_size : ℕ
hive_max_file_size = 32 * 1024 * 1024

-- A string pointer that is NULL, or that of an empty string.
abbrev pub is_missing : Option Bytes → Bool
is_missing none = true
is_missing (some []) = true
is_missing (some (c ∷ s)) = false

abbrev pub bytes_of : Option Bytes → Bytes
bytes_of none = []
bytes_of (some s) = s

module _ {W : Type 0} where
  unfoldable pub hive_put_file_from_buffer :
      Option (HiveConnect W) → Option Bytes → ℕ → Bool → Option Bytes → Action W ℤ
  hive_put_file_from_buffer none from length encrypt filename = invalid_args
  hive_put_file_from_buffer (some connect) from length encrypt filename =
      if not (is_some from) && not (length == 0)
        || ltb hive_max_file_size length
        || is_missing filename
      then invalid_args
      else supported connect.put_file_from_buffer
          (λ put. report (put from length encrypt (bytes_of filename)))

  unfoldable pub hive_get_file_length : Option (HiveConnect W) → Option Bytes → Action W ℤ
  hive_get_file_length (some connect) (some (c ∷ filename)) =
      supported connect.get_file_length (λ get. report_size (get (c ∷ filename)))
  hive_get_file_length _ _ = invalid_args

  -- The caller's buffer is `to`, of `buflen` bytes; the result pairs the returned value with the
  -- bytes that were stored there.
  unfoldable pub report_stored : Action W (ℤ × Bytes) → Action W (ℤ × Bytes)
  report_stored m e =
      if is_neg (m e).0.0
      then ((negsuc 0, (m e).0.1), record (m e).1 { hive_error = to_int (m e).0.0 })
      else m e

  -- A refusal by a function that has an output besides its result.
  abbrev pub refuse : {A : Type 0} → A → Action W ℤ → Action W (ℤ × A)
  refuse out m e = (((m e).0, out), (m e).1)

  abbrev pub supported_out :
      {F A : Type 0} → A → Option F → (F → Action W (ℤ × A)) → Action W (ℤ × A)
  supported_out out none run = refuse out (fail (hive_general_error hiveerr_not_supported))
  supported_out out (some f) run = run f

  unfoldable pub hive_get_file_to_buffer :
      Option (HiveConnect W) → Option Bytes → Bool → Bool → ℕ → Action W (ℤ × Bytes)
  unfolding report_stored
  hive_get_file_to_buffer none filename decrypt has_to buflen = refuse [] invalid_args
  hive_get_file_to_buffer (some connect) filename decrypt has_to buflen =
      if is_missing filename || not has_to || buflen == 0
      then refuse [] invalid_args
      else supported_out [] connect.get_file_to_buffer
          (λ get. report_stored (get (bytes_of filename) decrypt buflen))

  unfoldable pub hive_delete_file : Option (HiveConnect W) → Option Bytes → Action W ℤ
  hive_delete_file (some connect) (some (c ∷ filename)) =
      supported connect.delete_file (λ delete. report (delete (c ∷ filename)))
  hive_delete_file _ _ = invalid_args

  unfoldable pub hive_list_files :
      Option (HiveConnect W) → Option (FilesIterateCallback W) → Action W ℤ
  hive_list_files (some connect) (some callback) =
      supported connect.list_files (λ list. report (list callback))
  hive_list_files _ _ = invalid_args

  -- The cid is given back through the caller's `cid`, whose presence is `has_cid`.
  unfoldable pub report_cid : Action W (ℤ × Option Bytes) → Action W (ℤ × Option Bytes)
  report_cid m e =
      if is_neg (m e).0.0
      then ((negsuc 0, (m e).0.1), record (m e).1 { hive_error = (m e).0.0 })
      else ((pos 0, (m e).0.1), (m e).1)

  unfoldable pub hive_ipfs_put_file_from_buffer :
      Option (HiveConnect W) → Option Bytes → ℕ → Bool → Bool → Action W (ℤ × Option Bytes)
  unfolding report_cid
  hive_ipfs_put_file_from_buffer none from length encrypt has_cid = refuse none invalid_args
  hive_ipfs_put_file_from_buffer (some connect) from length encrypt has_cid =
      if not (is_some from) && not (length == 0) || ltb hive_max_file_size length || not has_cid
      then refuse none invalid_args
      else supported_out none connect.ipfs_put_file_from_buffer
          (λ put. report_cid (put from length encrypt))

  -- A cid is NULL, or its content.
  unfoldable pub hive_ipfs_get_file_length : Option (HiveConnect W) → Option Bytes → Action W ℤ
  hive_ipfs_get_file_length (some connect) (some (c ∷ cid)) =
      supported connect.ipfs_get_file_length (λ get. report_size (get (c ∷ cid)))
  hive_ipfs_get_file_length _ _ = invalid_args

  unfoldable pub hive_ipfs_get_file_to_buffer :
      Option (HiveConnect W) → Option Bytes → Bool → Bool → ℕ → Action W (ℤ × Bytes)
  unfolding report_stored
  hive_ipfs_get_file_to_buffer none cid decrypt has_to buflen = refuse [] invalid_args
  hive_ipfs_get_file_to_buffer (some connect) cid decrypt has_to buflen =
      if is_missing cid || not has_to || buflen == 0
      then refuse [] invalid_args
      else supported_out [] connect.ipfs_get_file_to_buffer
          (λ get. report_stored (get (bytes_of cid) decrypt buflen))
