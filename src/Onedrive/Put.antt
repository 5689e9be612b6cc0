-- ===== src/Onedrive/Put.antt =====
-- How src/vendors/onedrive/onedrive.c stores a whole file: in one request, or in a session for a large one.
use elastos_net_hive_native.Base.{
  ℕ, ◌-◌, false, not, ◌&&◌, leb, Bytes, codes, str_eq, length, [], ◌++◌, Option, none, some, ℤ, pos,
  is_neg, if◌then◌else◌,
}
use elastos_net_hive_native.Error.Code.{
  as_int, hive_http_status_error, hiveerr_out_of_memory, hiveerr_buffer_too_small,
  hiveerr_bad_json_format,
}
use elastos_net_hive_native.Http.Body.{http_client_move_response_body}
use elastos_net_hive_native.Http.Step.{
  Step, ◌>>=◌, ◌>>◌, return_if, return_after, need, step, continue, function,
}
use elastos_net_hive_native.Http.Client.{Net}
use elastos_net_hive_native.Ipfs.Rpc.{is_empty}
use elastos_net_hive_native.Ipfs.Connect.{own_body}
use elastos_net_hive_native.Oauth.Token.{Session, Auth, outer}
use elastos_net_hive_native.Onedrive.Request.{
  Drive, app_root, is_done, is_ok, max_url_len, folder_request, upload_request, session_request,
  part_request, close, check_token, new_http, printed, get_bearer_token, request, get_response_code,
  expect, parsed, general, closing, closing_failed,
}

-- 4 * 1024 * 1024
abbrev pub direct_size : ℕ
direct_size = 0x400000

module _ {W J : Type 0} (net : Net W J) (auth : Auth W J) (drive : Drive W J) where
  abbrev S : Type 0
  S = Session W

  -- `__build_create_folder_request_body`; where it returns NULL its caller returns this error.
  unfoldable pub create_folder_body : Bytes → Step S Bytes
  create_folder_body fname = do
    let no_memory = general net auth drive hiveerr_out_of_memory
    made ← step (outer net auth auth.create_object)
    body ← need made no_memory
    (named, body) ← step (outer net auth (drive.add_string body (codes "name") fname))
    return_if (not named) no_memory
    (filled, body) ← step (outer net auth (drive.add_object body (codes "folder")))
    return_if (not filled) no_memory
    text ← step (outer net auth (drive.print body))
    need text no_memory

  unfoldable pub create_folder_steps : Bytes → Step S ℤ
  unfolding create_folder_body printed get_bearer_token request expect
  create_folder_steps path = do
    let dir = drive.dirname path
    let parent = if str_eq dir (codes "/") then [] else codes ":" ++ dir ++ codes ":"
    url ← printed net auth drive (app_root ++ parent ++ codes "/children")
    body ← create_folder_body (drive.basename path)
    bearer ← get_bearer_token net auth drive
    sink ← request net auth drive (folder_request url bearer body)
    expect net auth drive is_done
    continue (pos 0)

  unfoldable pub create_folder : Bytes → S → ℤ × S
  unfolding create_folder_steps
  create_folder path = function (create_folder_steps path)

  unfoldable pub upload_file : Bytes → Option Bytes → ℕ → S → ℤ × S
  unfolding printed get_bearer_token request expect
  upload_file file_path from length = function do
    url ← printed net auth drive (app_root ++ codes ":" ++ file_path ++ codes ":/content")
    bearer ← get_bearer_token net auth drive
    sink ← request net auth drive (upload_request url bearer from length)
    expect net auth drive is_done
    continue (pos 0)

  -- A string member that is there and not empty
  abbrev pub text_item : Option J → Option Bytes
  text_item none = none
  text_item (some item) =
      if net.is_string item && not (is_empty (net.valuestring item))
      then some (net.valuestring item)
      else none

  -- The URL of the session, behind a check that it fits into the caller's array.
  unfoldable pub create_upload_session : Bytes → Step S Bytes
  unfolding printed get_bearer_token request expect parsed
  create_upload_session file_path = do
    url ←
        printed net auth drive (app_root ++ codes ":" ++ file_path ++ codes ":/createUploadSession")
    bearer ← get_bearer_token net auth drive
    sink ← request net auth drive (session_request url bearer)
    expect net auth drive is_ok
    resp ← parsed net auth drive (http_client_move_response_body (own_body sink) false)
    upload_url ←
        need (text_item (net.get_item resp (codes "uploadUrl")))
          (general net auth drive hiveerr_bad_json_format)
    return_if (leb max_url_len (length upload_url))
        (general net auth drive hiveerr_buffer_too_small)
    continue upload_url

  unfoldable pub upload_to_session_steps : Bytes → Option Bytes → ℕ → Step S ℤ
  unfolding request get_response_code
  upload_to_session_steps upload_url buf len = do
    let size = net.decimal len
    let range = codes "bytes 0-" ++ net.decimal (len - 1) ++ codes "/" ++ size
    sink ← request net auth drive (part_request upload_url size range buf len)
    code ← get_response_code net auth drive
    return_if (not (is_done code)) (as_int (hive_http_status_error code))
    continue (pos 0)

  unfoldable pub upload_to_session : Bytes → Option Bytes → ℕ → S → ℤ × S
  unfolding upload_to_session_steps
  upload_to_session upload_url buf len = function (upload_to_session_steps upload_url buf len)

  -- rc = f(…); if (rc < 0) { http_client_close(httpc); return rc; }
  abbrev pub succeed : (S → ℤ × S) → Step S (Unit {0})
  succeed f = do rc ← step f; return_after (is_neg rc) (close net auth drive) rc

  unfoldable pub put_large_steps : Option Bytes → ℕ → Bytes → Step S ℤ
  unfolding create_folder create_upload_session upload_to_session
  put_large_steps from length path = do
    succeed (create_folder (drive.dirname path))
    url ← closing_failed net auth drive (create_upload_session path)
    rc ← closing net auth drive (step (upload_to_session url from length))
    return_if (is_neg rc) rc
    continue (pos 0)

  unfoldable pub put_large : Option Bytes → ℕ → Bytes → S → ℤ × S
  unfolding put_large_steps
  put_large from length path = function (put_large_steps from length path)

  unfoldable pub put_whole : Option Bytes → ℕ → Bytes → S → ℤ × S
  unfolding check_token upload_file put_large
  put_whole from length path = function do
    check_token net auth drive
    new_http net auth drive (general net auth drive hiveerr_out_of_memory)
    if leb length direct_size
        then closing net auth drive (step (upload_file path from length))
        else step (put_large from length path)
