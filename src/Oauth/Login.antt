-- ===== src/Oauth/Login.antt =====
-- The login of src/oauth/oauth_token.c leaves the token as it was, or gives it new strings.
use elastos_net_hive_native.Base.{
  ◌≡◌, ◌⊎◌, inl, inr, refl, Bool, true, false, not, ◌==◌, Bytes, [], Option, none, some, is_some, ℤ,
  pos, Bool-cases, Option-cases,
}
use elastos_net_hive_native.Api.Connect.{Env, hive_get_error}
use elastos_net_hive_native.Http.Step.{Res, ret, go, Step, follow, effect, ◌>>◌}
use elastos_net_hive_native.Http.Client.{HttpClient, Net}
use elastos_net_hive_native.Oauth.Token.{
  OauthToken, Session, UrlPart, url_part, host_part, port_part, path_part, Auth,
}
use elastos_net_hive_native.Oauth.Authorize.{
  Redirect, wait, received, await_code, listen, locate, after_world, redirect_client,
  authorize_client, authorize, url_text, null_after, get_authorize_code, redeem_code,
  oauth_token_request, nullable,
}
use elastos_net_hive_native.Oauth.Outcome.{Documented, Outcome}
use elastos_net_hive_native.Oauth.Renewal.{redeemed-Ends}

module _ {W J : Type 0} (net : Net W J) (auth : Auth W J) (t : OauthToken) where
  abbrev Kept : Env (Session W) → Type 0
  Kept e = e.world.token ≡ t

  abbrev Keeps : {A : Type 0} → (Env (Session W) → A × Env (Session W)) → Type 0
  Keeps m = (e : Env (Session W)) → Kept e → Kept (m e).1

  follow-Keeps :
      {A B : Type 0} (f : A → Step (Env (Session W)) B) (x : Res A × Env (Session W))
      → Kept x.1
      → ((a : A) → Keeps (f a))
      → Kept (follow f x).1
  follow-Keeps f (ret r, e) k h = k
  follow-Keeps f (go a, e) k h = h a e k

  null_after-Keeps :
      {A : Type 0} (test : Bool) (cleanup : W → W) (err : ℤ) (next : Step (Env (Session W)) A)
      → Keeps next
      → Keeps (null_after net auth test cleanup err next)
  null_after-Keeps true cleanup err next h e k = k
  null_after-Keeps false cleanup err next h e k = h e k

  received-Keeps : (r : Option Redirect) → Keeps (received net auth r)
  unfolding received
  received-Keeps none e k = k
  received-Keeps (some r) e k = k

  await_code-Keeps : (path : Bytes) → Keeps (await_code net auth path)
  unfolding await_code hive_get_error
  await_code-Keeps path e k =
      let (polls, w) = auth.polls e.world.outside in
      received-Keeps (wait path polls (record { stopped = false; code = []; error = e.hive_error }))
        _ k

  listen-Keeps : (url host port path : Bytes) → Keeps (listen net auth url host port path)
  unfolding listen
  listen-Keeps url host port path e k =
      let (made, w) = auth.sb_new_server host port e.world.outside in
      let (started, w') = auth.pthread_create url w in
      elim (Bool-cases (not made)) [
        | inl failed ↦ rw failed k
        | inr there ↦ rw there (
            null_after-Keeps (not started) auth.sb_close_server _ (await_code net auth path)
              (await_code-Keeps path) _ k)
      ]

  url_text-Keeps :
      (part : UrlPart) (client : HttpClient) (cleanup : W → W)
      (next : Bytes → Step (Env (Session W)) (Option Bytes))
      → ((text : Bytes) → Keeps (next text))
      → Keeps (url_text net auth part client cleanup next)
  unfolding url_text
  url_text-Keeps part client cleanup next h e k =
      let ((rc, text), w) = auth.curl_url_get part client e.world.outside in
      null_after-Keeps (not (rc == 0)) cleanup _ (next text) (h text) _ k

  nullable-Kept :
      (x : Res (Option Bytes) × Env (Session W)) → Kept x.1 → Kept (nullable net auth x).1
  nullable-Kept (ret r, e) k = k
  nullable-Kept (go code, e) k = k

  locate-Keeps : (token : OauthToken) → Keeps (locate net auth token)
  unfolding locate
  locate-Keeps token =
      let client = redirect_client net auth token in
      let closed = net.http_client_close in
      let Next : Type 0 = Bytes → Step (Env (Session W)) (Option Bytes) in
      let at_path : Bytes → Bytes → Bytes → Next = λ url host port path.
        effect (after_world net auth closed) >> listen net auth url host port path in
      let at_port : Bytes → Bytes → Next =
        λ url host port. url_text net auth path_part client closed (at_path url host port) in
      let at_host : Bytes → Next =
        λ url host. url_text net auth port_part client closed (at_port url host) in
      let at_url : Next = λ url. url_text net auth host_part client closed (at_host url) in
      url_text-Keeps url_part (authorize_client net auth token) closed at_url λ url.
        url_text-Keeps host_part client closed (at_host url) λ host.
          url_text-Keeps port_part client closed (at_port url host) λ port.
            url_text-Keeps path_part client closed (at_path url host port)
              λ path e k. listen-Keeps url host port path (after_world net auth closed e) k

  get_authorize_code-Keeps : Keeps (get_authorize_code net auth)
  unfolding get_authorize_code authorize
  get_authorize_code-Keeps e k = nullable-Kept (authorize net auth e) (
      null_after-Keeps (not (net.http_client_new e.world.outside).0) (λ w. w) _
        (locate net auth e.world.token) (locate-Keeps e.world.token) _ k)

-- Over a token's server whose answers with status 200 are not empty, and codes of errors of 24 bits,
-- whatever else it, the login page and the local server answer: with an access token the call does nothing and returns 0; without one, either the token stays as it was and the result is an
-- error or the thread's last error after the call, or the result is 0 and the token has three new
-- strings, of which none is empty, and else only a new time.
pub oauth_token_request-Outcome :
    {W J : Type 0} {net : Net W J} {auth : Auth W J}
    → Documented net auth
    → (e : Env (Session W))
    → let r = oauth_token_request net auth e in
      ((is_some e.world.token.access_token ≡ true) × (r ≡ (pos 0, e)))
      ⊎ ((is_some e.world.token.access_token ≡ false)
          × (((r.0 ≡ r.1.hive_error) × (r.1.world.token ≡ e.world.token))
              ⊎ Outcome e.world.token (r.0, r.1.world.token)))
unfolding oauth_token_request redeem_code hive_get_error
oauth_token_request-Outcome {net} {auth} known e =
    let t = e.world.token in
    let (code, e') = get_authorize_code net auth e in
    let kept = get_authorize_code-Keeps net auth t e refl in
    elim (Bool-cases (is_some t.access_token)) [
      | inl there ↦ inl (there, rw there refl)
      | inr missing ↦ elim (Option-cases code) [
        | inl none_sent ↦ inr (missing, rw (missing, none_sent) (inl (refl, kept)))
        | inr (text, sent) ↦
            inr (missing, rw (missing, sent) (inr (redeemed-Ends known t text e'.world kept)))
      ]
    ]
