-- ===== src/Onedrive/Signed.antt =====
-- A connection of src/vendors/onedrive/onedrive.c that has a token keeps one.
pub mod Calls
pub mod Files
use mathlib.Core.Path.{subst}
use elastos_net_hive_native.Base.{
  ℕ, ◌≡◌, ◌⊎◌, inl, inr, refl, sym, Bool, true, false, not, ◌&&◌, ◌||◌, ◌==◌, leb, Bytes, codes,
  length, [], ◌++◌, Option, none, some, is_some, ℤ, pos, is_neg, Bool-cases, Option-cases,
  if◌then◌else◌,
}
use elastos_net_hive_native.Http.Body.{
  Moved, null_store, nothing, moved, http_client_move_response_body,
}
use elastos_net_hive_native.Http.Step.{
  Res, ret, go, Step, follow, value, ◌>>=◌, ◌>>◌, return_if, return_after, need, step, effect,
  continue, function,
}
use elastos_net_hive_native.Http.Keeps.{
  Keeps, follow-Keeps, return_after-Keeps, return_if-Keeps, need-Keeps, value-Keeps,
}
use elastos_net_hive_native.Http.Client.{HttpClient, Sink, Net}
use elastos_net_hive_native.Ipfs.Rpc.{is_empty}
use elastos_net_hive_native.Ipfs.Connect.{own_body}
use elastos_net_hive_native.Oauth.Time.{Timeval, zero_time}
use elastos_net_hive_native.Oauth.Token.{
  OauthToken, Session, Auth, outer, oauth_token_set_expired, oauth_token_is_expired,
}
use elastos_net_hive_native.Oauth.Exchange.{oauth_token_check_expire}
use elastos_net_hive_native.Oauth.Outcome.{Documented, Renewed, Outcome}
use elastos_net_hive_native.Oauth.Renewal.{oauth_token_check_expire-Outcome}
use elastos_net_hive_native.Onedrive.Request.{
  Drive, close, check_token, new_http, printed, header_value, get_bearer_token, request,
  get_response_code, authorized, expect, parsed, closing, closing_failed, close_returned, is_done,
  is_ok,
}

-- All three strings of a token are there, and none is empty.
abbrev pub Complete : OauthToken → Type 0
Complete t =
    (a : Bytes) × (b : Bytes) × (c : Bytes) × (t.token_type ≡ some a)
    × (t.access_token ≡ some b)
    × (t.refresh_token ≡ some c)
    × (is_empty a ≡ false)
    × (is_empty b ≡ false)
    × (is_empty c ≡ false)

-- A property of tokens that a renewal and an expiry leave, and that gives a refresh token.
pub record Lasts (P : OauthToken → Type 0) : Type 0 where
  pub renews : (t t' : OauthToken) → P t → Renewed t t' → P t'
  pub refreshes : (t : OauthToken) → P t → is_some t.refresh_token ≡ true
  pub expires : (t : OauthToken) → P t → P (record t { expires_at = zero_time })

pub Complete-Lasts : Lasts Complete
Complete-Lasts = record {
  renews = λ t t' k (a, b, c, at, ha, hb, hc, same).
      subst Complete (sym same) (a, b, c, refl, refl, refl, ha, hb, hc);
  refreshes = λ t (a, b, c, _, _, there, _, _, _). rw there refl;
  expires = λ t k. k;
}

abbrev pub Signed : {W : Type 0} → (OauthToken → Type 0) → Session W → Type 0
Signed P s = P s.token

module _ {W J : Type 0} {net : Net W J} {auth : Auth W J} (known : Documented net auth)
    (drive : Drive W J) {P : OauthToken → Type 0} (lasts : Lasts P) where
  Outcome-Lasts : (t t' : OauthToken) (r : ℤ) → P t → Outcome t (r, t') → P t'
  Outcome-Lasts t t' r k (inl (neg, same)) = subst P (sym same) k
  Outcome-Lasts t t' r k (inr (done, new)) = lasts.renews t t' k new

  check_expire-Signed : Keeps (Signed P) (oauth_token_check_expire net auth)
  check_expire-Signed s k =
      let r = oauth_token_check_expire net auth s in
      elim (oauth_token_check_expire-Outcome known s (lasts.refreshes s.token k)) [
        | inl (valid, done, same) ↦ subst P (sym same) k
        | inr (expired, out) ↦ Outcome-Lasts s.token r.1.token r.0 k out
      ]

  pub check_token-Signed : Keeps (Signed P) (check_token net auth drive)
  unfolding check_token
  check_token-Signed s k =
      let (rc, s') = oauth_token_check_expire net auth s in
      return_if-Keeps (Signed P) (is_neg rc) rc s' (check_expire-Signed s k)

  pub new_http-Signed : (err : ℤ) → Keeps (Signed P) (new_http net auth drive err)
  new_http-Signed err s k =
      return_if-Keeps (Signed P) (not (net.http_client_new s.outside).0) err _ k

  pub printed-Signed : (url : Bytes) → Keeps (Signed P) (printed net auth drive url)
  unfolding printed
  printed-Signed url s k = elim (Bool-cases (leb 1024 (length url))) [
    | inl long ↦ rw long k
    | inr fits ↦ rw fits k
  ]

  header_value-Signed :
      (value : Option Bytes) → Keeps (Signed P) (header_value net auth drive value)
  header_value-Signed none s k = k
  header_value-Signed (some token) s k = k

  pub bearer-Signed : Keeps (Signed P) (get_bearer_token net auth drive)
  unfolding get_bearer_token
  bearer-Signed s k = header_value-Signed s.token.access_token s k

  pub request-Signed : (client : HttpClient) → Keeps (Signed P) (request net auth drive client)
  unfolding request
  request-Signed client s k =
      let ((rc, sink), w) = net.perform client s.outside in
      follow-Keeps (Signed P) (λ _. continue sink)
        (return_if (not (rc == 0)) _ (record s { outside = w }))
        (return_if-Keeps (Signed P) (not (rc == 0)) _ (record s { outside = w }) k) (λ _ s k. k)

  pub get_response_code-Signed : Keeps (Signed P) (get_response_code net auth drive)
  unfolding get_response_code
  get_response_code-Signed s k =
      let (rc, code) = net.response_code s.outside in
      follow-Keeps (Signed P) (λ _. continue code) (return_if (not (rc == 0)) _ s)
        (return_if-Keeps (Signed P) (not (rc == 0)) _ s k) (λ _ s k. k)

  authorized-Signed : (code : ℕ) → Keeps (Signed P) (authorized net auth drive code)
  unfolding authorized oauth_token_set_expired
  authorized-Signed code s k = elim (Bool-cases (code == 401)) [
    | inl refused ↦ rw refused (lasts.expires s.token k)
    | inr other ↦ rw other k
  ]

  pub expect-Signed : (good : ℕ → Bool) → Keeps (Signed P) (expect net auth drive good)
  unfolding expect
  expect-Signed good s k =
      follow-Keeps (Signed P) _ (get_response_code net auth drive s) (get_response_code-Signed s k)
        λ code s1 k1.
          follow-Keeps (Signed P) _ (authorized net auth drive code s1)
            (authorized-Signed code s1 k1)
            λ _ s2 k2. return_if-Keeps (Signed P) (not (good code)) _ s2 k2

  pub parsed-Signed : (m : Moved) → Keeps (Signed P) (parsed net auth drive m)
  unfolding parsed
  parsed-Signed null_store s k = k
  parsed-Signed (nothing b) s k = k
  parsed-Signed (moved text b) s k = need-Keeps (Signed P) (net.parse text) _ s k

  pub closing-Signed :
      {A : Type 0} (m : Step (Session W) A)
      → Keeps (Signed P) m
      → Keeps (Signed P) (closing net auth drive m)
  closing-Signed m h s k = h s k

  close_returned-Signed :
      {A : Type 0} (x : Res A × Session W)
      → Signed P x.1
      → Signed P (close_returned net auth drive x).1
  close_returned-Signed (ret r, s) k = k
  close_returned-Signed (go a, s) k = k

  pub closing_failed-Signed :
      {A : Type 0} (m : Step (Session W) A)
      → Keeps (Signed P) m
      → Keeps (Signed P) (closing_failed net auth drive m)
  closing_failed-Signed m h s k = close_returned-Signed (m s) (h s k)
