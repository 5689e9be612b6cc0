-- ===== src/Oauth/Authorize.antt =====
-- The login of src/oauth/oauth_token.c: a local server waits for the code that the login page sends
-- to the redirection's address.
use elastos_net_hive_native.Base.{
  Bool, true, false, not, ◌==◌, Bytes, codes, str_eq, List, [], ◌∷◌, Option, none, some, is_some, ℤ,
  pos, if◌then◌else◌,
}
use elastos_net_hive_native.Error.Code.{
  as_int, hive_general_error, hive_sys_error, hive_curlu_error, hiveerr_out_of_memory,
  hiveerr_bad_address, hiveerr_invalid_credential,
}
use elastos_net_hive_native.Api.Connect.{Env, call, hive_get_error}
use elastos_net_hive_native.Http.Step.{
  Res, ret, go, Step, ◌>>=◌, ◌>>◌, return_if, step, effect, function,
}
use elastos_net_hive_native.Http.Client.{
  HttpClient, Net, new_client, http_client_set_url, http_client_set_query, http_client_reset,
}
use elastos_net_hive_native.Ipfs.Rpc.{is_empty}
use elastos_net_hive_native.Oauth.Token.{
  OauthToken, Session, UrlPart, url_part, host_part, port_part, path_part, SbEvent, sb_request,
  sb_close, sb_other, Auth, outer,
}
use elastos_net_hive_native.Oauth.Exchange.{redeem_access_token, stored}

-- What `handle_auth_redirect` changes: `stopped` and `code_buf`, and the last error.
pub record Redirect : Type 0 where
  pub stopped : Bool
  pub code : Bytes
  pub error : ℤ

unfoldable pub handle_auth_redirect : Bytes → SbEvent → Redirect → Redirect
handle_auth_redirect path sb_other r = r
handle_auth_redirect path sb_close r = record r { stopped = true }
handle_auth_redirect path (sb_request request_path found code) r =
    if not (str_eq request_path path)
    then record r { error = as_int (hive_general_error hiveerr_bad_address) }
    else if not found
    then record r { code = code; error = as_int (hive_general_error hiveerr_invalid_credential) }
    else record r { code = code }

-- One call of `sb_poll_server`
unfoldable pub poll : Bytes → List SbEvent → Redirect → Redirect
unfolding handle_auth_redirect
poll path [] r = r
poll path (e ∷ events) r = poll path events (handle_auth_redirect path e r)

-- while (!stopped) sb_poll_server(…); `none` is a wait that has not ended.
unfoldable pub wait : Bytes → List (List SbEvent) → Redirect → Option Redirect
unfolding poll
wait path [] r = none
wait path (events ∷ polls) r =
    let r' = poll path events r in
    let rest = wait path polls r' in if r'.stopped then some r' else rest

module _ {W J : Type 0} (net : Net W J) (auth : Auth W J) where
  abbrev S : Type 0
  S = Env (Session W)

  abbrev pub outer_world : {A : Type 0} → (W → A × W) → S → A × S
  outer_world f = call (outer net auth f)

  abbrev pub after_world : (W → W) → S → S
  after_world f e = record e { world = record e.world { outside = f e.world.outside } }

  -- if (test) { hive_set_error(err); cleanup; return NULL; }
  abbrev pub null_after : {A : Type 0} → Bool → (W → W) → ℤ → Step S A → Step S A
  null_after test cleanup err next e =
      if test then (ret (pos 0), after_world cleanup (record e { hive_error = err })) else next e

  abbrev pub authorize_client : OauthToken → HttpClient
  unfolding new_client
  authorize_client token = http_client_set_query (codes "response_type") (codes "code") (
      http_client_set_query (codes "redirect_uri") token.redirect_url (
        http_client_set_query (codes "scope") token.scope (
          http_client_set_query (codes "client_id") token.client_id
            (http_client_set_url token.authorize_url new_client))))

  abbrev pub redirect_client : OauthToken → HttpClient
  unfolding new_client http_client_reset
  redirect_client token =
      http_client_set_url token.redirect_url (http_client_reset (authorize_client token))

  -- return (*code_buf ? code_buf : NULL);
  unfoldable pub received : Option Redirect → S → Option Bytes × S
  received none e = outer_world auth.waiting e
  received (some r) e = (
    if is_empty r.code then none else some r.code,
    after_world auth.sb_close_server (record e { hive_error = r.error }),
  )

  -- The wait for the code at a path
  unfoldable pub await_code : Bytes → Step S (Option Bytes)
  unfolding received wait
  await_code path = do
    polls ← step (outer_world auth.polls)
    error ← step hive_get_error
    step (received (wait path polls (record { stopped = false; code = []; error = error })))

  -- The server's part of `get_authorize_code`
  unfoldable pub listen : Bytes → Bytes → Bytes → Bytes → Step S (Option Bytes)
  unfolding await_code
  listen url host port path = do
    made ← step (outer_world (auth.sb_new_server host port))
    return_if (not made) (pos 0)
    started ← step (outer_world (auth.pthread_create url))
    errno ← step (λ e. (auth.errno e.world.outside, e))
    null_after (not started) auth.sb_close_server (as_int (hive_sys_error errno)) (await_code path)

  unfoldable pub url_text :
      UrlPart → HttpClient → (W → W) → (Bytes → Step S (Option Bytes)) → Step S (Option Bytes)
  url_text part client cleanup next e =
      let ((rc, text), e') = outer_world (auth.curl_url_get part client) e in
      null_after (not (rc == 0)) cleanup (as_int (hive_curlu_error rc)) (next text) e'

  -- The URL to show, and the parts of the redirection's address
  unfoldable pub locate : OauthToken → Step S (Option Bytes)
  unfolding listen url_text
  locate token =
      let client = redirect_client token in
      let close = net.http_client_close in
      url_text url_part (authorize_client token) close λ url.
        url_text host_part client close λ host. url_text port_part client close λ port.
          url_text path_part client close
            λ path. effect (after_world close) >> listen url host port path

  unfoldable pub authorize : Step S (Option Bytes)
  unfolding locate
  authorize = do
    made ← step (outer_world net.http_client_new)
    token ← step (λ e. (e.world.token, e))
    null_after (not made) (λ w. w) (as_int (hive_general_error hiveerr_out_of_memory))
        (locate token)

  -- A return in the steps is that of NULL.
  abbrev pub nullable : Res (Option Bytes) × S → Option Bytes × S
  nullable (ret r, e) = (none, e)
  nullable (go code, e) = (code, e)

  unfoldable pub get_authorize_code : S → Option Bytes × S
  unfolding authorize
  get_authorize_code e = nullable (authorize e)

  -- if (!code) return hive_get_error(); …
  unfoldable pub redeem_code : Option Bytes → S → ℤ × S
  redeem_code none = hive_get_error
  redeem_code (some code) =
      call (function do rc ← step (redeem_access_token net auth code); stored net auth rc)

  unfoldable pub oauth_token_request : S → ℤ × S
  unfolding get_authorize_code redeem_code
  oauth_token_request e =
      if is_some e.world.token.access_token
      then (pos 0, e)
      else let (code, e') = get_authorize_code e in redeem_code code e'
