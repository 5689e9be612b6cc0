-- ===== src/Onedrive/Get.antt =====
-- How src/vendors/onedrive/onedrive.c reads and deletes a whole file.
use elastos_net_hive_native.Base.{
  ℕ, Bool, true, false, not, ◌&&◌, ◌==◌, Bytes, codes, [], ◌∷◌, ◌++◌, Option, none, some, ℤ, pos,
  is_neg, is_zero, ssize_of_size, if◌then◌else◌,
}
use elastos_net_hive_native.Error.Code.{
  as_int, as_ssize, hive_general_error, hive_http_status_error, hive_curl_error,
  hiveerr_out_of_memory, hiveerr_buffer_too_small, hiveerr_bad_json_format,
}
use elastos_net_hive_native.Http.Body.{http_client_move_response_body}
use elastos_net_hive_native.Http.Step.{
  Res, ret, go, Step, ◌>>=◌, ◌>>◌, return_if, return_after, continue, function,
}
use elastos_net_hive_native.Http.Client.{Sink, raw, Net}
use elastos_net_hive_native.Ipfs.Rpc.{is_empty}
use elastos_net_hive_native.Ipfs.Connect.{own_body}
use elastos_net_hive_native.Oauth.Time.{gt_ℤ}
use elastos_net_hive_native.Oauth.Token.{Session, Auth, outer}
use elastos_net_hive_native.Onedrive.Request.{
  Drive, app_root, is_ok, no_content, info_request, download_request, delete_request, close,
  check_token, new_http, printed, get_bearer_token, request, get_response_code, expect, parsed,
  general, closing, closing_failed,
}

-- strstr(text, word)
abbrev pub begins : Bytes → Bytes → Bool
begins [] text = true
begins (c ∷ word) [] = false
begins (c ∷ word) (d ∷ text) = c == d && begins word text

abbrev pub contains : Bytes → Bytes → Bool
contains word [] = begins word []
contains word (c ∷ text) = if begins word (c ∷ text) then true else contains word text

abbrev pub download_url : Bytes
download_url = codes "@microsoft.graph.downloadUrl"

module _ {W J : Type 0} (net : Net W J) (auth : Auth W J) (drive : Drive W J) where
  abbrev S : Type 0
  S = Session W

  abbrev pub is_size : Option J → Bool
  is_size none = false
  is_size (some size) = net.is_number size && not (is_neg (net.value_ssize size))

  abbrev pub is_url : Option J → Bool
  is_url none = false
  is_url (some url) = net.is_string url && net.has_name url && not (is_empty (net.valuestring url))

  -- The object that describes a file, with the members that the query names.
  unfoldable pub get_file_info : Bytes → Bytes → Step S J
  unfolding printed get_bearer_token request expect parsed
  get_file_info file_path query = do
    url ← printed net auth drive (app_root ++ codes ":" ++ file_path)
    bearer ← get_bearer_token net auth drive
    sink ← request net auth drive (info_request url bearer query)
    expect net auth drive is_ok
    resp ← parsed net auth drive (http_client_move_response_body (own_body sink) false)
    return_if (contains (codes "size") query && not (is_size (net.get_item resp (codes "size"))))
        (general net auth drive hiveerr_bad_json_format)
    return_if (contains download_url query && not (is_url (net.get_item resp download_url)))
        (general net auth drive hiveerr_bad_json_format)
    continue resp

  -- size->valuedouble, of a member that has been found.
  unfoldable pub file_size : J → Step S ℤ
  file_size resp s = elim (net.get_item resp (codes "size")) [
    | none ↦ let (r, s') = outer net auth net.null_store s in (ret r, s')
    | some size ↦ (go (net.value_ssize size), s)
  ]

  unfoldable pub url_of : J → Step S Bytes
  url_of resp s = elim (net.get_item resp download_url) [
    | none ↦ let (r, s') = outer net auth net.null_store s in (ret r, s')
    | some url ↦ (go (net.valuestring url), s)
  ]

  unfoldable pub get_whole_length_steps : Bytes → Step S ℤ
  unfolding check_token get_file_info file_size
  get_whole_length_steps file_path = do
    check_token net auth drive
    new_http net auth drive (as_ssize (hive_general_error hiveerr_out_of_memory))
    resp ← closing net auth drive (get_file_info file_path (codes "size"))
    file_size resp

  unfoldable pub get_whole_length : Bytes → S → ℤ × S
  unfolding get_whole_length_steps
  get_whole_length file_path = function (get_whole_length_steps file_path)

  -- The size and the address of a file that is to be fetched into a buffer; the client is still open.
  unfoldable pub prepare_get : Bytes → ℕ → Step S (ℤ × Bytes)
  unfolding check_token get_file_info file_size url_of
  prepare_get file_path buflen = do
    check_token net auth drive
    new_http net auth drive (as_ssize (hive_general_error hiveerr_out_of_memory))
    resp ← closing_failed net auth drive (get_file_info file_path (codes "size," ++ download_url))
    fsize ← file_size resp
    let room = ssize_of_size buflen
    return_after (gt_ℤ room (pos 0) && gt_ℤ fsize room) (close net auth drive)
        (as_ssize (hive_general_error hiveerr_buffer_too_small))
    return_after (is_zero fsize) (close net auth drive) (pos 0)
    url ← url_of resp
    continue (fsize, url)

  abbrev pub stored_raw : Sink → Bytes
  stored_raw (raw bytes) = bytes
  stored_raw other = []

  -- What follows the request of `__download_file`, whose CURLcode is given.
  unfoldable pub download_steps : ℕ → Step S ℤ
  unfolding get_response_code
  download_steps rc = do
    return_if (not (rc == 0)) (as_int (hive_curl_error rc))
    code ← get_response_code net auth drive
    return_if (not (is_ok code)) (as_int (hive_http_status_error code))
    continue (pos 0)

  -- The result, and the bytes that the callback has stored.
  unfoldable pub download_file : Bytes → S → (ℤ × Bytes) × S
  unfolding download_steps
  download_file url s =
      let ((rc, sink), s') = outer net auth (net.perform (download_request url)) s in
      let (result, s'') = function (download_steps rc) s' in ((result, stored_raw sink), s'')

  abbrev pub downloaded : ℤ → (ℤ × Bytes) × S → (ℤ × Bytes) × S
  downloaded fsize ((rc, bytes), s) =
      ((if is_neg rc then rc else fsize, bytes), close net auth drive s)

  abbrev pub fetched : Res (ℤ × Bytes) × S → (ℤ × Bytes) × S
  fetched (ret r, s) = ((r, []), s)
  fetched (go (fsize, url), s) = downloaded fsize (download_file url s)

  unfoldable pub get_whole : Bytes → ℕ → S → (ℤ × Bytes) × S
  unfolding prepare_get download_file
  get_whole file_path buflen s = fetched (prepare_get file_path buflen s)

  unfoldable pub delete_whole_steps : Bytes → Step S ℤ
  unfolding check_token printed get_bearer_token request expect
  delete_whole_steps file_path = do
    check_token net auth drive
    new_http net auth drive (general net auth drive hiveerr_out_of_memory)
    url ← printed net auth drive (app_root ++ codes ":" ++ file_path ++ codes ":")
    bearer ← get_bearer_token net auth drive
    sink ← closing_failed net auth drive (request net auth drive (delete_request url bearer))
    closing net auth drive (expect net auth drive no_content)
    continue (pos 0)

  unfoldable pub delete_whole : Bytes → S → ℤ × S
  unfolding delete_whole_steps
  delete_whole file_path = function (delete_whole_steps file_path)
