-- ===== src/Oauth/Exchange.antt =====
-- How src/oauth/oauth_token.c gets a token from the server: the response's text, the code of a login
-- and the renewal of a token that has expired.
use elastos_net_hive_native.Base.{
  ℕ, ◌+◌, ◌≡◌, refl, Bool, true, false, not, ◌&&◌, ◌==◌, leb, Bytes, codes, length, ◌++◌, Option,
  none, some, ℤ, pos, is_neg, if◌then◌else◌,
}
use elastos_net_hive_native.Error.Code.{
  as_int, hive_general_error, hive_sys_error, hive_curl_error, hive_http_status_error,
  hiveerr_out_of_memory, hiveerr_buffer_too_small, hiveerr_bad_json_format,
}
use elastos_net_hive_native.Http.Body.{
  Moved, null_store, nothing, moved, http_client_move_response_body,
}
use elastos_net_hive_native.Http.Step.{
  ret, Step, ◌>>=◌, ◌>>◌, return_if, return_after, need, need_after, step, effect, continue,
  function,
}
use elastos_net_hive_native.Http.Client.{
  HttpClient, HttpMethod, Sink, own, Net, new_client, http_client_set_url, http_client_set_method,
  http_client_set_request_body_instant, http_client_enable_response_body,
}
use elastos_net_hive_native.Ipfs.Rpc.{http_status_ok, is_empty}
use elastos_net_hive_native.Ipfs.Connect.{own_body}
use elastos_net_hive_native.Oauth.Time.{timeradd}
use elastos_net_hive_native.Oauth.Token.{
  OauthToken, Session, Auth, outer, current, change, writeback_tokens, oauth_token_is_expired,
}

module _ {W J : Type 0} (net : Net W J) (auth : Auth W J) where
  abbrev S : Type 0
  S = Session W

  abbrev general : ℕ → ℤ
  general code = as_int (hive_general_error code)

  abbrev pub close : S → S
  close s = record s { outside = net.http_client_close s.outside }

  -- IS_STRING_NODE
  abbrev pub filled_item : Option J → Option Bytes
  filled_item none = none
  filled_item (some item) =
      if net.is_string item && not (is_empty (net.valuestring item))
      then some (net.valuestring item)
      else none

  abbrev pub filled_string : J → Bytes → Option Bytes
  filled_string json name = filled_item (net.get_item json name)

  abbrev pub period : J → Bytes → Option ℤ
  period json name = elim (net.get_item json name) [
    | none ↦ none
    | some item ↦
        if net.is_number item && not (is_neg (net.value_ssize item))
        then some (net.value_ssize item)
        else none
  ]

  -- strdup
  unfoldable pub copy : Bytes → Step S (Unit {0})
  copy text = do
    made ← step (outer net auth (auth.calloc (length text + 1)))
    errno ← step (λ s. (auth.errno s.outside, s))
    return_if (not made) (as_int (hive_sys_error errno))

  abbrev pub take_string : J → Bytes → Step S Bytes
  take_string json name = need (filled_string json name) (general hiveerr_bad_json_format)

  unfoldable pub copied_string : J → Bytes → Step S Bytes
  unfolding copy
  copied_string json name = do text ← take_string json name; copy text; continue text

  abbrev pub keep_tokens : Bytes → Bytes → Bytes → ℤ → Step S ℤ
  keep_tokens token_type access_token refresh_token expires_in = do
    change net auth (λ t. record t {
      token_type = some token_type;
      access_token = some access_token;
      refresh_token = some refresh_token;
    })
    now ← step (outer net auth auth.gettimeofday)
    change net auth
        (λ t. record t { expires_at = timeradd now (record { tv_sec = expires_in; tv_usec = 0 }) })
    continue (pos 0)

  unfoldable pub decode_access_token : Bytes → S → ℤ × S
  unfolding copied_string
  decode_access_token text = function do
    json ← need (net.parse text) (general hiveerr_bad_json_format)
    token_type ← copied_string json (codes "token_type")
    scope ← take_string json (codes "scope")
    access_token ← copied_string json (codes "access_token")
    refresh_token ← copied_string json (codes "refresh_token")
    expires_in ← need (period json (codes "expires_in")) (general hiveerr_bad_json_format)
    keep_tokens token_type access_token refresh_token expires_in

  -- A text that the client escapes; a text that is NULL is read through NULL.
  unfoldable pub escaped : Option Bytes → Step S Bytes
  escaped none s = let (r, s') = outer net auth net.null_store s in (ret r, s')
  escaped (some text) s =
      let (out, s') = outer net auth (auth.escape text) s in
      need_after out close (general hiveerr_out_of_memory) s'

  abbrev pub token_request : OauthToken → Bytes → HttpClient
  unfolding new_client
  token_request token buf = http_client_enable_response_body (
      http_client_set_request_body_instant (some buf) (length buf)
        (http_client_set_method HttpMethod.post (http_client_set_url token.token_url new_client)))

  -- The client keeps the response.
  pub token_request-own :
      (token : OauthToken) (buf : Bytes)
      → (token_request token buf).sink ≡ own (token_request token buf).response_body
  unfolding token_request
  token_request-own token buf = refl

  -- What follows the hand-over of the body.
  unfoldable pub decode_body : Moved → Step S ℤ
  unfolding decode_access_token
  decode_body null_store s = let (r, s') = outer net auth net.null_store s in (ret r, s')
  decode_body (nothing b) s = (ret (general hiveerr_out_of_memory), close s)
  decode_body (moved text b) s = step (decode_access_token text) (close s)

  -- The text of a request: what its buffer is printed from.
  unfoldable pub request_body : OauthToken → Bytes → Option Bytes → Bytes → Step S Bytes
  unfolding escaped
  request_body token name secret grant = do
    client_id ← escaped (some token.client_id)
    redirect_uri ← escaped (some token.redirect_url)
    secret ← escaped secret
    let start = codes "client_id=" ++ client_id ++ codes "&redirect_uri=" ++ redirect_uri
    let end_ = codes "&" ++ name ++ codes "=" ++ secret ++ codes "&grant_type=" ++ grant
    continue (start ++ end_)

  -- What follows the request: `rc` and `status` are the answer of curl_easy_getinfo.
  unfoldable pub answered : Bool → Sink → ℕ → ℕ → Step S ℤ
  unfolding decode_body
  answered checked sink rc status = do
    return_after (checked && not (rc == 0)) close (as_int (hive_curl_error rc))
    let resp_code = if rc == 0 then status else 0
    return_after (not (resp_code == http_status_ok)) close
        (as_int (hive_http_status_error resp_code))
    decode_body (http_client_move_response_body (own_body sink) false)

  unfoldable pub send : OauthToken → Bool → Bytes → Step S ℤ
  unfolding answered
  send token checked buf = do
    (rc, sink) ← step (outer net auth (net.perform (token_request token buf)))
    return_after (not (rc == 0)) close (as_int (hive_curl_error rc))
    (rc, status) ← step (outer net auth (λ w. (net.response_code w, w)))
    answered checked sink rc status

  -- The request of both exchanges, up to the result of `decode_access_token`. They differ in the
  -- secret that they send, the size of their buffer, and in whether a failure to get the response's
  -- code is noticed: the status stays 0 then.
  unfoldable pub exchange : Bytes → Option Bytes → Bytes → ℕ → Bool → Step S ℤ
  unfolding request_body send
  exchange name secret grant size checked = do
    made ← step (outer net auth net.http_client_new)
    return_if (not made) (general hiveerr_out_of_memory)
    token ← current net auth
    buf ← request_body token name secret grant
    return_after (leb size (length buf)) close (general hiveerr_buffer_too_small)
    send token checked buf

  unfoldable pub redeem_access_token : Bytes → S → ℤ × S
  unfolding exchange
  redeem_access_token code =
      function (exchange (codes "code") (some code) (codes "authorization_code") 512 false)

  -- if (rc < 0) return rc; writeback_tokens(token); return 0;
  unfoldable pub stored : ℤ → Step S ℤ
  stored rc = do return_if (is_neg rc) rc; effect (writeback_tokens net auth); continue (pos 0)

  unfoldable pub refresh_access_token : S → ℤ × S
  unfolding exchange stored
  refresh_access_token = function do
    token ← current net auth
    rc ← exchange (codes "refresh_token") token.refresh_token (codes "refresh_token") 4096 true
    stored rc

  unfoldable pub oauth_token_check_expire : S → ℤ × S
  unfolding refresh_access_token
  oauth_token_check_expire = function do
    expired ← step (oauth_token_is_expired net auth)
    return_if (not expired) (pos 0)
    rc ← step refresh_access_token
    return_if (is_neg rc) rc
    continue (pos 0)
