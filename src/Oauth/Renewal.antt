-- ===== src/Oauth/Renewal.antt =====
-- The renewal of a token in src/oauth/oauth_token.c, from its request to the stored token.
use mathlib.Core.Path.{subst}
use elastos_net_hive_native.Base.{
  ℕ, ◌<◌, ◌≡◌, ◌⊎◌, inl, inr, refl, sym, ap, ◌∙◌, Bool, true, false, not, ◌==◌, leb, Bytes, codes,
  length, Option, none, some, is_some, ℤ, pos, is_neg, Bool-cases, ◌&&◌, arith, if◌then◌else◌,
}
use elastos_net_hive_native.Error.Code.{
  as_int, hive_general_error, hive_curl_error, hive_http_status_error, hiveerr_buffer_too_small,
}
use elastos_net_hive_native.Http.Step.{◌>>=◌, ◌>>◌, return_if, step, continue, function}
use elastos_net_hive_native.Http.Ensures.{ended, goes_on, Ensures, follow-After}
use elastos_net_hive_native.Http.Client.{Sink, Net}
use elastos_net_hive_native.Ipfs.Connect.{own_body}
use elastos_net_hive_native.Oauth.Token.{OauthToken, Session, Auth, oauth_token_is_expired}
use elastos_net_hive_native.Oauth.Exchange.{
  token_request, token_request-own, request_body, answered, send, exchange, stored,
  redeem_access_token, refresh_access_token, oauth_token_check_expire, close,
}
use elastos_net_hive_native.Oauth.Outcome.{
  Documented, Renewed, Outcome, error-neg, Kept, Fails, Ends, function-Ends, general_small,
  check-Fails, passed-Fails, no_memory, writeback_tokens-token, close-Kept, escaped-Fails,
  decode_body-Ends,
}

module _ {W J : Type 0} {net : Net W J} {auth : Auth W J} (known : Documented net auth)
    (t : OauthToken) where
  request_body-Fails :
      (token : OauthToken) (name secret grant : Bytes)
      → Ensures
          (Kept known t)
          (request_body net auth token name (some secret) grant)
          (λ _. Kept known t)
          (Fails known t)
  unfolding request_body
  request_body-Fails token name secret grant s k =
      follow-After _ _ (escaped-Fails known t token.client_id s k) λ id s1 k1.
        follow-After _ _ (escaped-Fails known t token.redirect_url s1 k1) λ uri s2 k2.
          follow-After _ _ (escaped-Fails known t secret s2 k2) λ text s3 k3. goes_on k3

  answered-Ends :
      (checked : Bool) (sink : Sink) (rc status : ℕ)
      → rc < 0x1000000
      → status < 0x1000000
      → (status ≡ 200 → ((own_body sink).used == 0) ≡ false)
      → Ensures
          (Kept known t)
          (answered net auth checked sink rc status)
          (Ends known t)
          (Fails known t)
  unfolding answered
  answered-Ends checked sink rc status small small' replied s k =
      let code = if rc == 0 then status else 0 in
      let fit : code < 0x1000000 = ground (arith, small') in
      follow-After _ _
        (check-Fails known t (checked && not (rc == 0)) (close net auth)
          (as_int (hive_curl_error rc)) (close-Kept known t) (error-neg 5 rc (omega arith) small) s
          k)
        λ _ s1 k1.
          follow-After _ _
            (passed-Fails known t (not (code == 200)) (close net auth)
              (as_int (hive_http_status_error code)) s1 (close-Kept known t)
              (error-neg 7 code (omega arith) fit) k1)
            λ _ s2 (k2, passed, _).
              let is_ok : status ≡ 200 = ground (arith, passed) in
              decode_body-Ends known t (own_body sink) (replied is_ok) s2 k2

  send-Ends :
      (token : OauthToken) (checked : Bool) (buf : Bytes)
      → Ensures (Kept known t) (send net auth token checked buf) (Ends known t) (Fails known t)
  unfolding send
  send-Ends token checked buf s k =
      let client = token_request net auth token buf in
      let rc = (net.perform client s.outside).0.0 in
      follow-After _ _
        (passed-Fails known t (not (rc == 0)) (close net auth) (as_int (hive_curl_error rc)) _
          (close-Kept known t) (error-neg 5 rc (omega arith) (known.perform_small client s.outside))
          k)
        λ _ s1 (k1, passed, same).
          let (small, small') = known.response_small s1.outside in
          let arrived : rc ≡ 0 = ground (arith, passed) in
          let code : W → ℕ = λ w. (net.response_code w).1 in
          answered-Ends checked (net.perform client s.outside).0.1 (net.response_code s1.outside).0
            (net.response_code s1.outside).1 small small'
            (λ is_ok.
              known.replies client client.response_body s.outside
                (token_request-own net auth token buf) arrived
                (sym (ap (λ (s' : Session W). code s'.outside) same) ∙ is_ok))
            s1 k1

  pub exchange-Ends :
      (name secret grant : Bytes) (size : ℕ) (checked : Bool)
      → Ensures
          (Kept known t)
          (exchange net auth name (some secret) grant size checked)
          (Ends known t)
          (Fails known t)
  unfolding exchange
  exchange-Ends name secret grant size checked s k =
      follow-After _ _
        (check-Fails known t (not (net.http_client_new s.outside).0) (λ s. s) _ (λ s k. k)
          (no_memory known t) _ k)
        λ _ s1 k1.
          follow-After _ _ (request_body-Fails s1.token name secret grant s1 k1) λ buf s2 k2.
            follow-After _ _
              (check-Fails known t (leb size (length buf)) (close net auth) _ (close-Kept known t)
                too_small s2 k2)
              λ _ s3 k3. send-Ends s1.token checked buf s3 k3
    where
      too_small : is_neg (as_int (hive_general_error hiveerr_buffer_too_small)) ≡ true
      too_small = general_small known t hiveerr_buffer_too_small (omega arith)

  redeem_access_token-Ends :
      (code : Bytes) (s : Session W)
      → Kept known t s
      → Ends known t (redeem_access_token net auth code s).0 (redeem_access_token net auth code s).1
  unfolding redeem_access_token
  redeem_access_token-Ends code s k =
      function-Ends known t _
        (exchange-Ends (codes "code") code (codes "authorization_code") 512 false s k)

  -- A renewed token that is stored is still renewed.
  stored-Ends :
      (rc : ℤ) → Ensures (Ends known t rc) (stored net auth rc) (Ends known t) (Fails known t)
  unfolding stored
  stored-Ends rc s (inl (neg, k)) = rw neg (ended (neg, k))
  stored-Ends rc s (inr (zero_rc, new)) =
      rw zero_rc
        (goes_on (inr (refl, subst (Renewed t) (sym (writeback_tokens-token known t s)) new)))

  secret-Ends :
      (name : Bytes) (secret : Option Bytes) (grant : Bytes) (size : ℕ) (checked : Bool)
      → is_some secret ≡ true
      → Ensures
          (Kept known t)
          (exchange net auth name secret grant size checked)
          (Ends known t)
          (Fails known t)
  secret-Ends name none grant size checked there = absurd (cc there)
  secret-Ends name (some secret) grant size checked there =
      exchange-Ends name secret grant size checked

  pub refresh_access_token-Ends :
      (s : Session W)
      → is_some t.refresh_token ≡ true
      → Kept known t s
      → Ends known t (refresh_access_token net auth s).0 (refresh_access_token net auth s).1
  unfolding refresh_access_token
  refresh_access_token-Ends s there k = function-Ends known t _ (
      follow-After _ _
        (secret-Ends (codes "refresh_token") s.token.refresh_token (codes "refresh_token") 4096 true
          (ap (λ (t' : OauthToken). is_some t'.refresh_token) k ∙ there) s k)
        stored-Ends)

  -- The exchange of a login's code, with what follows it.
  pub redeemed-Ends :
      (code : Bytes) (s : Session W)
      → Kept known t s
      → let r = function (step (redeem_access_token net auth code) >>= stored net auth) s in
        (Ends known t) r.0 r.1
  redeemed-Ends code s k =
      let (rc, s') = redeem_access_token net auth code s in
      function-Ends known t _ (stored-Ends rc s' (redeem_access_token-Ends code s k))

  returned-Ends :
      (rc : ℤ)
      → Ensures
          (Ends known t rc)
          (return_if (is_neg rc) rc >> continue (pos 0))
          (Ends known t)
          (Fails known t)
  returned-Ends rc s (inl (neg, k)) = rw neg (ended (neg, k))
  returned-Ends rc s (inr (zero_rc, new)) = rw zero_rc (goes_on (inr (refl, new)))

  -- Unless the token is not expired, `oauth_token_check_expire` is a renewal.
  pub check_expire-Ends :
      (s : Session W)
      → Kept known t s
      → is_some t.refresh_token ≡ true
      → (oauth_token_is_expired net auth s).0 ≡ true
      → Ends known t (oauth_token_check_expire net auth s).0 (oauth_token_check_expire net auth s).1
  unfolding oauth_token_check_expire oauth_token_is_expired
  check_expire-Ends s k there expired =
      let s1 = (oauth_token_is_expired net auth s).1 in
      let (rc, s2) = refresh_access_token net auth s1 in
      rw expired
        (function-Ends known t _ (returned-Ends rc s2 (refresh_access_token-Ends s1 there k)))

-- For a token with a refresh token, over a server whose answers with status 200 are not empty and codes
-- of errors of 24 bits: either the token is not expired, and the result is 0 and the token the same; or it is, and the result is an error and the token the same, or the result is 0 and the token
-- has three new strings, of which none is empty, and else only a new time.
pub oauth_token_check_expire-Outcome :
    {W J : Type 0} {net : Net W J} {auth : Auth W J}
    → Documented net auth
    → (s : Session W) → is_some s.token.refresh_token ≡ true
    → let r = oauth_token_check_expire net auth s in
      let expired = (oauth_token_is_expired net auth s).0 in
      ((expired ≡ false) × (r.0 ≡ pos 0) × (r.1.token ≡ s.token))
      ⊎ ((expired ≡ true) × Outcome s.token (r.0, r.1.token))
unfolding oauth_token_check_expire oauth_token_is_expired
oauth_token_check_expire-Outcome {net} {auth} known s there =
    elim (Bool-cases (oauth_token_is_expired net auth s).0) [
      | inl expired ↦ inr (expired, check_expire-Ends known s.token s refl there expired)
      | inr valid ↦ inl (valid, rw valid refl, rw valid refl)
    ]
