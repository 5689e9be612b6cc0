-- ===== src/Onedrive/Request.antt =====
-- The requests of src/vendors/onedrive/onedrive.c, and what its functions share: the URL, the token, the
-- response's code.
use elastos_net_hive_native.Base.{
  ℕ, ◌≡◌, ap, Bool, not, ◌||◌, ◌==◌, leb, Bytes, codes, length, List, [], ◌++◌, Option, none, some,
  ℤ, is_neg, if◌then◌else◌,
}
use elastos_net_hive_native.Error.Code.{
  as_int, hive_general_error, hive_curl_error, hive_http_status_error, hiveerr_out_of_memory,
  hiveerr_try_again,
}
use elastos_net_hive_native.Http.Body.{Moved, null_store, nothing, moved}
use elastos_net_hive_native.Http.Step.{
  Res, ret, go, Step, ◌>>=◌, ◌>>◌, return_if, need, step, continue,
}
use elastos_net_hive_native.Http.Client.{
  HttpClient, HttpMethod, Sink, raw, Net, new_client, http_client_reset, http_client_set_url,
  http_client_set_query, http_client_set_method, http_client_set_header,
  http_client_set_request_body_instant, http_client_enable_response_body,
  http_client_set_response_body,
}
use elastos_net_hive_native.Oauth.Token.{Session, Auth, outer, oauth_token_set_expired}
use elastos_net_hive_native.Oauth.Exchange.{oauth_token_check_expire}

-- What the backend needs of the world outside, besides libcurl and the login.
pub record Drive (W J : Type 0) : Type 0 where
  pub dirname : Bytes → Bytes
  pub basename : Bytes → Bytes
  -- cJSON_AddStringToObject and cJSON_AddObjectToObject: whether the member was added, and the object
  pub add_string : J → Bytes → Bytes → W → (Bool × J) × W
  pub add_object : J → Bytes → W → (Bool × J) × W
  -- cJSON_PrintUnformatted
  pub print : J → W → Option Bytes × W
  -- cJSON_CreateArray, cJSON_IsArray and the items of an array
  pub create_array : W → Bool × W
  pub is_array : J → Bool
  pub items : J → List J
  -- A text that `sprintf` writes behind the end of its array, which is undefined in C. In the model the
  -- function ends there, with a result that the world chooses; the token stays.
  pub overrun : W → ℤ × W

-- The array `url`
abbrev pub max_url_len : ℕ
max_url_len = 1024

abbrev pub app_root : Bytes
app_root = codes "https://graph.microsoft.com/v1.0/me/drive" ++ codes "/special/approot"

abbrev pub files_dir : Bytes
files_dir = codes "/Files"

-- HttpStatus_Unauthorized, HttpStatus_Created, HttpStatus_OK, HttpStatus_NoContent
abbrev pub unauthorized : ℕ
unauthorized = 401

abbrev pub is_done : ℕ → Bool
is_done code = (code == 201) || (code == 200)

abbrev pub is_ok : ℕ → Bool
is_ok code = code == 200

abbrev pub no_content : ℕ → Bool
no_content code = code == 204

abbrev pub authorized_client : Bytes → Bytes → HttpClient → HttpClient
authorized_client url bearer client =
    http_client_set_header (codes "Authorization") bearer (http_client_set_url url client)

unfoldable pub folder_request : Bytes → Bytes → Bytes → HttpClient
unfolding new_client
folder_request url bearer body = http_client_set_request_body_instant (some body) (length body) (
    http_client_set_header (codes "Authorization") bearer (
      http_client_set_header (codes "Content-Type") (codes "application/json")
        (http_client_set_method HttpMethod.post (http_client_set_url url new_client))))

unfoldable pub upload_request : Bytes → Bytes → Option Bytes → ℕ → HttpClient
unfolding new_client
upload_request url bearer from len =
    http_client_set_request_body_instant (if len == 0 then none else from) len
      (http_client_set_method HttpMethod.put (authorized_client url bearer new_client))

unfoldable pub session_request : Bytes → Bytes → HttpClient
unfolding new_client http_client_reset
session_request url bearer = http_client_enable_response_body (
    http_client_set_request_body_instant none 0 (
      http_client_set_method HttpMethod.post
        (authorized_client url bearer (http_client_reset new_client))))

unfoldable pub part_request : Bytes → Bytes → Bytes → Option Bytes → ℕ → HttpClient
unfolding new_client http_client_reset
part_request url size range buf len = http_client_set_request_body_instant buf len (
    http_client_set_header (codes "Expect") [] (
      http_client_set_header (codes "Transfer-Encoding") [] (
        http_client_set_header (codes "Content-Range") range (
          http_client_set_header (codes "Content-Length") size (
            http_client_set_method HttpMethod.put
              (http_client_set_url url (http_client_reset new_client)))))))

unfoldable pub info_request : Bytes → Bytes → Bytes → HttpClient
unfolding new_client
info_request url bearer query = http_client_enable_response_body (
    http_client_set_method HttpMethod.get
      (http_client_set_query (codes "select") query (authorized_client url bearer new_client)))

unfoldable pub download_request : Bytes → HttpClient
unfolding new_client http_client_reset
download_request url = http_client_set_response_body (raw []) (
    http_client_enable_response_body (
      http_client_set_method HttpMethod.get
        (http_client_set_url url (http_client_reset new_client))))

unfoldable pub delete_request : Bytes → Bytes → HttpClient
unfolding new_client
delete_request url bearer =
    http_client_set_method HttpMethod.delete (authorized_client url bearer new_client)

unfoldable pub page_request : Bytes → Bytes → HttpClient
unfolding new_client http_client_reset
page_request url bearer = http_client_enable_response_body (
    http_client_set_method HttpMethod.get
      (authorized_client url bearer (http_client_reset new_client)))

module _ {W J : Type 0} (net : Net W J) (auth : Auth W J) (drive : Drive W J) where
  abbrev S : Type 0
  S = Session W

  abbrev pub close : S → S
  close s = record s { outside = net.http_client_close s.outside }

  -- rc = oauth_token_check_expire(connect->token); if (rc < 0) return rc;
  unfoldable pub check_token : Step S (Unit {0})
  check_token = do rc ← step (oauth_token_check_expire net auth); return_if (is_neg rc) rc

  -- httpc = http_client_new(); if (!httpc) return err;
  abbrev pub new_http : ℤ → Step S (Unit {0})
  new_http err = do made ← step (outer net auth net.http_client_new); return_if (not made) err

  -- sprintf(url, …)
  unfoldable pub printed : Bytes → Step S Bytes
  printed url s =
      let (r, s') = outer net auth drive.overrun s in
      if leb max_url_len (length url) then (ret r, s') else (go url, s)

  -- A header of a NULL value reads through NULL.
  abbrev pub header_value : Option Bytes → Step S Bytes
  header_value none s = let (r, s') = outer net auth net.null_store s in (ret r, s')
  header_value (some token) s = (go token, s)

  -- get_bearer_token(connect->token), as the value of a header
  unfoldable pub get_bearer_token : Step S Bytes
  get_bearer_token s = header_value s.token.access_token s

  -- rc = http_client_request(httpc); if (rc) return HIVE_CURL_ERROR(rc);
  unfoldable pub request : HttpClient → Step S Sink
  request client = do
    (rc, sink) ← step (outer net auth (net.perform client))
    return_if (not (rc == 0)) (as_int (hive_curl_error rc))
    continue sink

  -- rc = http_client_get_response_code(httpc, &resp_code); if (rc) return HIVE_CURL_ERROR(rc);
  unfoldable pub get_response_code : Step S ℕ
  get_response_code = do
    (rc, code) ← step (outer net auth (λ w. (net.response_code w, w)))
    return_if (not (rc == 0)) (as_int (hive_curl_error rc))
    continue code

  -- if (resp_code == HttpStatus_Unauthorized) { oauth_token_set_expired(…); return …TRY_AGAIN; }
  unfoldable pub authorized : ℕ → Step S (Unit {0})
  unfolding oauth_token_set_expired
  authorized code s =
      if code == unauthorized
      then (
        ret (as_int (hive_general_error hiveerr_try_again)),
        record s { token = oauth_token_set_expired net auth s.token },
      )
      else (go tt, s)

  -- The response of a request with the token has to have one of the given codes.
  unfoldable pub expect : (ℕ → Bool) → Step S (Unit {0})
  unfolding get_response_code authorized
  expect good = do
    code ← get_response_code
    authorized code
    return_if (not (good code)) (as_int (hive_http_status_error code))

  -- The object that a moved body is parsed to.
  unfoldable pub parsed : Moved → Step S J
  parsed null_store s = let (r, s') = outer net auth net.null_store s in (ret r, s')
  parsed (nothing b) s = (ret (as_int (hive_general_error hiveerr_out_of_memory)), s)
  parsed (moved text b) s =
      need (net.parse text) (as_int (hive_general_error hiveerr_out_of_memory)) s

  abbrev pub general : ℕ → ℤ
  general code = as_int (hive_general_error code)

  -- http_client_close(httpc), whatever a step has come to, or only where it has returned.
  abbrev pub closing : {A : Type 0} → Step S A → Step S A
  closing m s = ((m s).0, close (m s).1)

  abbrev pub close_returned : {A : Type 0} → Res A × S → Res A × S
  close_returned (ret r, s) = (ret r, close s)
  close_returned (go a, s) = (go a, s)

  abbrev pub closing_failed : {A : Type 0} → Step S A → Step S A
  closing_failed m s = close_returned (m s)

  pub get_bearer_token-some :
      (s : Session W) (bearer : Bytes)
      → s.token.access_token ≡ some bearer
      → get_bearer_token s ≡ (go bearer, s)
  unfolding get_bearer_token
  get_bearer_token-some s bearer has = ap (λ (value : Option Bytes). header_value value s) has
