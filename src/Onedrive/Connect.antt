-- ===== src/Onedrive/Connect.antt =====
-- The functions that src/vendors/onedrive/onedrive.c puts into a connection's table, on files in the
-- folder of the files, and its functions on whole files as the store of the values.
use elastos_net_hive_native.Base.{
  ℕ, ◌-◌, Bool, leb, Bytes, codes, length, take, [], ◌++◌, Option, some, ℤ, pos, if◌then◌else◌,
}
use elastos_net_hive_native.Error.Code.{
  as_int, as_ssize, hive_general_error, hiveerr_buffer_too_small,
}
use elastos_net_hive_native.Http.Client.{Net}
use elastos_net_hive_native.Oauth.Token.{Session, Auth, outer, oauth_token_set_expired}
use elastos_net_hive_native.Api.Connect.{call}
use elastos_net_hive_native.Onedrive.Values.{Store, path_max}
use elastos_net_hive_native.Onedrive.Request.{Drive, files_dir}
use elastos_net_hive_native.Onedrive.Put.{put_whole}
use elastos_net_hive_native.Onedrive.Get.{get_whole_length, get_whole, delete_whole}

module _ {W J : Type 0} (net : Net W J) (auth : Auth W J) (drive : Drive W J) where
  abbrev S : Type 0
  S = Session W

  abbrev pub onedrive_store : Store S
  onedrive_store = record {
    file_length = λ path. call (get_whole_length net auth drive path);
    file_to_buffer = λ path decrypt buflen. call (get_whole net auth drive path buflen);
    file_from_buffer =
        λ from len encrypt path. call (put_whole net auth drive (some from) len path);
    file_delete = λ path. call (delete_whole net auth drive path);
    calloc = λ size. outer net auth (auth.calloc size);
  }

  -- "%s/%s", FILES_DIR, filename
  abbrev pub file_path : Bytes → Bytes
  file_path filename = files_dir ++ codes "/" ++ filename

  abbrev pub is_long : Bytes → Bool
  is_long path = leb path_max (length path)

  -- A path that is too long is cut here, and refused by the other functions.
  unfoldable pub put_file_from_buffer : Option Bytes → ℕ → Bool → Bytes → S → ℤ × S
  put_file_from_buffer from len encrypt filename =
      put_whole net auth drive from len (take (path_max - 1) (file_path filename))

  unfoldable pub get_file_length : Bytes → S → ℤ × S
  get_file_length filename s =
      if is_long (file_path filename)
      then (as_ssize (hive_general_error hiveerr_buffer_too_small), s)
      else get_whole_length net auth drive (file_path filename) s

  unfoldable pub get_file_to_buffer : Bytes → Bool → ℕ → S → (ℤ × Bytes) × S
  get_file_to_buffer filename decrypt buflen s =
      if is_long (file_path filename)
      then ((as_ssize (hive_general_error hiveerr_buffer_too_small), []), s)
      else get_whole net auth drive (file_path filename) buflen s

  unfoldable pub delete_file : Bytes → S → ℤ × S
  delete_file filename s =
      if is_long (file_path filename)
      then (as_int (hive_general_error hiveerr_buffer_too_small), s)
      else delete_whole net auth drive (file_path filename) s

  unfoldable pub expire_token : S → ℤ × S
  unfolding oauth_token_set_expired
  expire_token s = (pos 0, record s { token = oauth_token_set_expired net auth s.token })
