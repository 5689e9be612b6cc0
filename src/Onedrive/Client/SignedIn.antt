-- ===== src/Onedrive/Client/SignedIn.antt =====
-- Which connections onedrive_client_connect of src/vendors/onedrive/onedrive.c returns.
use mathlib.Core.Option.{some-injective}
use elastos_net_hive_native.Base.{
  ℕ, ◌≡◌, ◌⊎◌, inl, inr, refl, sym, ap, ◌∙◌, Bool, true, false, not, Bytes, Option, some, none,
  is_some, ℤ, pos, is_neg, Bool-cases, arith, codes,
}
use elastos_net_hive_native.Error.Code.{as_int, hive_general_error, hiveerr_invalid_args}
use elastos_net_hive_native.Http.Step.{Res, ret, go, value}
use elastos_net_hive_native.Http.Ensures.{After, ended, goes_on, follow-After}
use elastos_net_hive_native.Http.Client.{Net}
use elastos_net_hive_native.Api.Connect.{Env, HiveConnect}
use elastos_net_hive_native.Client.Object.{HiveClient}
use elastos_net_hive_native.Oauth.Time.{zero_time}
use elastos_net_hive_native.Oauth.Token.{
  OauthToken, Session, Auth, oauth_token_new, restore_access_token, restore_members, same_text,
  string_item, number_item, block_size,
}
use elastos_net_hive_native.Oauth.Authorize.{oauth_token_request}
use elastos_net_hive_native.Oauth.Outcome.{Documented, Outcome}
use elastos_net_hive_native.Oauth.Login.{oauth_token_request-Outcome}
use elastos_net_hive_native.Onedrive.Request.{Drive}
use elastos_net_hive_native.Onedrive.Client.{
  OneDriveConnectOptions, Machine, Connected, refused, connected, are_valid, keystore_path, auth_at,
  new_token, make_token, prepare, refuse_if, or_null, signed_in, sign_in, onedrive_client_connect,
}

-- The fields of a token that its options give
abbrev pub settings : OauthToken → OauthToken
settings t = record t {
  token_type = none;
  access_token = none;
  refresh_token = none;
  expires_at = zero_time;
}

-- NULL; or a connection for options that are valid, whose token has what the options give, and has an
-- access token, or else the last error is no error.
pub data SignedIn {W : Type 0} (options : OneDriveConnectOptions) (fresh : OauthToken)
    : Connected W → Type 0 where
  not_signed : {e : Env W} → SignedIn options fresh (refused e)
  is_signed :
      {c : HiveConnect (Session W)} {e : Env (Session W)}
      → are_valid options ≡ true
      → settings e.world.token ≡ fresh
      → (is_some e.world.token.access_token ≡ true) ⊎ (is_neg e.hive_error ≡ false)
      → SignedIn options fresh (connected c e)

module _ {W J : Type 0} (net : Net W J) (auth : Auth W J) where
  restore_members-settings :
      (client_id a b c : Option Bytes) (n : Option ℤ) (s : Session W)
      → settings (restore_members net auth client_id a b c n s).1.token ≡ settings s.token
  unfolding restore_members
  restore_members-settings client_id (some a) (some b) (some c) (some n) s =
      elim (Bool-cases (same_text net auth s.token.client_id client_id)) [
        | inr other ↦ rw other refl
        | inl same ↦ elim (Bool-cases (auth.calloc (block_size net auth a b c) s.outside).0) [
          | inl made ↦ rw (same, made) refl
          | inr failed ↦ rw (same, failed) refl
        ]
      ]
  restore_members-settings client_id none b c n s =
      elim (Bool-cases (same_text net auth s.token.client_id client_id)) [
        | inl same ↦ rw same refl
        | inr other ↦ rw other refl
      ]
  restore_members-settings client_id (some a) none c n s =
      elim (Bool-cases (same_text net auth s.token.client_id client_id)) [
        | inl same ↦ rw same refl
        | inr other ↦ rw other refl
      ]
  restore_members-settings client_id (some a) (some b) none n s =
      elim (Bool-cases (same_text net auth s.token.client_id client_id)) [
        | inl same ↦ rw same refl
        | inr other ↦ rw other refl
      ]
  restore_members-settings client_id (some a) (some b) (some c) none s =
      elim (Bool-cases (same_text net auth s.token.client_id client_id)) [
        | inl same ↦ rw same refl
        | inr other ↦ rw other refl
      ]

  value-state : {S : Type 0} (x : Res ℤ × S) → (value x).1 ≡ x.1
  value-state (ret r, s) = refl
  value-state (go r, s) = refl

  restore-settings :
      (store : Option J) (s : Session W)
      → settings (restore_access_token net auth store s).1.token ≡ settings s.token
  unfolding restore_access_token
  restore-settings none s = refl
  restore-settings (some json) s =
      let member : Bytes → Option J = auth.get_item_any_case json in
      let text : Bytes → Option Bytes = λ name. string_item net auth (member name) in
      let id = text (codes "client_id") in
      let kind = text (codes "token_type") in
      let access = text (codes "access_token") in
      let refresh = text (codes "refresh_token") in
      let at = number_item net auth (member (codes "expires_at")) in
      ap (λ (s' : Session W). settings s'.token)
        (value-state (restore_members net auth id kind access refresh at s))
      ∙ restore_members-settings id kind access refresh at s

  oauth_token_new-settings :
      (made : Bool) (fresh token : OauthToken) (store : Option J) (w : W)
      → (oauth_token_new net auth made fresh store w).0.1 ≡ some token
      → settings token ≡ settings fresh
  unfolding oauth_token_new
  oauth_token_new-settings false fresh token store w h = absurd (cc h)
  oauth_token_new-settings true fresh token store w h =
      ap settings (sym (some-injective _ token h))
      ∙ restore-settings store (record { token = fresh; outside = w })

-- A result of oauth_token_request that is no error
request-Signed :
    {W : Type 0} (t : OauthToken) (e : Env (Session W)) (r : ℤ × Env (Session W))
    → e.world.token ≡ t
    → is_neg r.0 ≡ false
    → ((is_some t.access_token ≡ true) × (r ≡ (pos 0, e)))
      ⊎ ((is_some t.access_token ≡ false)
          × (((r.0 ≡ r.1.hive_error) × (r.1.world.token ≡ t)) ⊎ Outcome t (r.0, r.1.world.token)))
    → (settings r.1.world.token ≡ settings t)
      × ((is_some r.1.world.token.access_token ≡ true) ⊎ (is_neg r.1.hive_error ≡ false))
request-Signed t e r is ok (inl (there, same)) =
    let kept : r.1.world.token ≡ t = ap (λ (x : ℤ × Env (Session _)). x.1.world.token) same ∙ is in
    (ap settings kept, inl (rw kept there))
request-Signed t e r is ok (inr (missing, inl (stale, kept))) =
    (ap settings kept, inr (ap is_neg (sym stale) ∙ ok))
request-Signed t e r is ok (inr (missing, inr (inl (failed, kept)))) = absurd (cc (failed, ok))
request-Signed t e r is ok (inr (missing, inr (inr (zero, (a, b, c, at, fa, fb, fc, new))))) =
    (ap settings new, inl (ap (λ (t' : OauthToken). is_some t'.access_token) new))

any-After : {S A : Type 0} (x : Res A × S) → After (λ a s. Unit {0}) (λ r s. Unit {0}) x
any-After (ret r, s) = ended tt
any-After (go a, s) = goes_on tt

refuse_if-After :
    {W : Type 0} (test : Bool) (cleanup : W → W) (err : ℤ) (e : Env W)
    → After (λ u e'. test ≡ false) (λ r e'. Unit {0}) (refuse_if test cleanup err e)
refuse_if-After true cleanup err e = ended tt
refuse_if-After false cleanup err e = goes_on refl

or_null-After :
    {W A : Type 0} (Q : A → Type 0) (cleanup : W → W) (err : ℤ) (o : Option A) (e : Env W)
    → ((a : A) → o ≡ some a → Q a)
    → After (λ a e'. Q a) (λ r e'. Unit {0}) (or_null cleanup err o e)
or_null-After Q cleanup err none e h = ended tt
or_null-After Q cleanup err (some a) e h = goes_on (h a refl)

module _ {W J : Type 0} (net : Net W J) (auth : Auth W J) (drive : Drive W J)
    (machine : Machine W J) (fuel : ℕ) where
  abbrev own : Bytes → Auth W J
  own path = auth_at net auth drive machine fuel path

  abbrev fresh : OneDriveConnectOptions → OauthToken
  fresh options = new_token net auth drive machine fuel options

  abbrev Given : OneDriveConnectOptions → OauthToken → Type 0
  Given options token = (are_valid options ≡ true) × (settings token ≡ fresh options)

  make_token-settings :
      (path : Bytes) (options : OneDriveConnectOptions) (e : Env W)
      → After
          (λ token e'. Given options token)
          (λ r e'. Unit {0})
          (make_token net auth drive machine fuel path options e)
  unfolding make_token
  make_token-settings path options e =
      follow-After _ _
        (refuse_if-After (not (are_valid options)) (λ w. w)
          (as_int (hive_general_error hiveerr_invalid_args)) e)
        λ u e1 valid.
          follow-After _ _ (any-After (prepare net auth drive machine fuel path e1))
            λ keystore e2 u2.
              let (made, w) = machine.rc_zalloc e2.world in
              or_null-After (Given options) machine.deref _ _ _ λ token h. (
                ground (arith, valid),
                oauth_token_new-settings net (own path) made (fresh options) token keystore w h,
              )

  -- Over a world whose codes of errors have 24 bits, and a token's server whose answers with status 200
  -- are not empty: onedrive_client_connect returns NULL, or a connection. That is returned for valid options only. Its token has the URLs and the three texts of
  -- the options; and it has an access token, or the thread's last error is not negative, which a login
  -- page that was closed without a code leaves unset.
  pub onedrive_client_connect-SignedIn :
      (client : HiveClient) (options : OneDriveConnectOptions) (e : Env W)
      → Documented net (own (keystore_path client))
      → SignedIn options
          (fresh options)
          (onedrive_client_connect net auth drive machine fuel client options e)
  unfolding onedrive_client_connect
  onedrive_client_connect-SignedIn client options e known =
      sign_in-SignedIn (make_token net auth drive machine fuel path options e)
        (make_token-settings path options e)
    where
      path : Bytes
      path = keystore_path client

      by_result :
          (t : OauthToken) (r : ℤ × Env (Session W))
          → Given options t
          → (is_neg r.0 ≡ false
              → (settings r.1.world.token ≡ settings t)
                × ((is_some r.1.world.token.access_token ≡ true) ⊎ (is_neg r.1.hive_error ≡ false)))
          → SignedIn options (fresh options) (signed_in net auth drive machine fuel path r)
      by_result t r (valid, given) outcome = elim (Bool-cases (is_neg r.0)) [
        | inl failed ↦ rw failed not_signed
        | inr ok ↦ let (same, signs) = outcome ok in rw ok (is_signed valid (same ∙ given) signs)
      ]

      sign_in-SignedIn :
          (x : Res OauthToken × Env W)
          → After (λ token e'. Given options token) (λ r e'. Unit {0}) x
          → SignedIn options (fresh options) (sign_in net auth drive machine fuel path x)
      sign_in-SignedIn (ret err, e') after = not_signed
      sign_in-SignedIn (go t, e') (goes_on given) =
          let start : Env (Session W) = record {
            hive_error = e'.hive_error;
            world = record { token = t; outside = e'.world };
          } in
          by_result t (oauth_token_request net (own path) start) given
            λ ok. request-Signed t start _ refl ok (oauth_token_request-Outcome known start)
