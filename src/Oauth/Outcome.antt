-- ===== src/Oauth/Outcome.antt =====
-- What a renewal in src/oauth/oauth_token.c does to the token: all of it, or nothing.
use elastos_net_hive_native.Base.{
  ℕ, ◌+◌, ◌<◌, ◌≡◌, ◌⊎◌, inl, inr, refl, ap, Bool, true, false, not, Bytes, codes, length, Option,
  none, some, ℤ, pos, is_neg, Option-cases, arith, ◌==◌,
}
use elastos_net_hive_native.Error.Code.{
  as_int, hive_mk_error, hive_general_error, hive_sys_error, hiveerr_out_of_memory,
  hiveerr_bad_json_format,
}
use elastos_net_hive_native.Error.Fields.{hive_mk_error-signs}
use elastos_net_hive_native.Http.Body.{Body, http_client_move_response_body}
use elastos_net_hive_native.Http.Step.{Res, ret, go, value, return_after, need}
use elastos_net_hive_native.Http.Ensures.{
  After, ended, goes_on, Ensures, follow-After, return_after-After, need_after-After, value-After,
}
use elastos_net_hive_native.Http.Client.{HttpClient, own, Net}
use elastos_net_hive_native.Ipfs.Connect.{own_body}
use elastos_net_hive_native.Ipfs.Rpc.{is_empty}
use elastos_net_hive_native.Oauth.Time.{Timeval, timeradd}
use elastos_net_hive_native.Oauth.Token.{OauthToken, Session, Auth, writeback_tokens, add_tokens}
use elastos_net_hive_native.Oauth.Exchange.{
  filled_string, filled_item, decode_access_token, escaped, period, keep_tokens, copied_string,
  decode_body, close, copy,
}

-- What is known of the world outside: the codes of errors have 24 bits, and an answer with status 200
-- to a request whose response is kept is not empty. Over an empty one the C code stores through NULL.
pub record Documented {W J : Type 0} (net : Net W J) (auth : Auth W J) : Type 0 where
  pub errno_small : (w : W) → auth.errno w < 0x1000000
  pub perform_small : (c : HttpClient) (w : W) → (net.perform c w).0.0 < 0x1000000
  pub response_small :
      (w : W) → ((net.response_code w).0 < 0x1000000) × ((net.response_code w).1 < 0x1000000)
  pub replies :
      (c : HttpClient) (b : Body) (w : W)
      → c.sink ≡ own b
      → (net.perform c w).0.0 ≡ 0
      → (net.response_code (net.perform c w).1).1 ≡ 200
      → ((own_body (net.perform c w).0.1).used == 0) ≡ false

abbrev pub renewed : Bytes → Bytes → Bytes → Timeval → OauthToken → OauthToken
renewed a b c at t = record t {
  token_type = some a;
  access_token = some b;
  refresh_token = some c;
  expires_at = at;
}

-- All three strings are there, none is empty, and nothing else but the time has changed.
abbrev pub Renewed : OauthToken → OauthToken → Type 0
Renewed t t' =
    (a : Bytes) × (b : Bytes) × (c : Bytes) × (at : Timeval) × (is_empty a ≡ false)
    × (is_empty b ≡ false)
    × (is_empty c ≡ false)
    × (t' ≡ renewed a b c at t)

-- A failure that leaves the token as it was, or a success that renews it.
abbrev pub Outcome : OauthToken → ℤ × OauthToken → Type 0
Outcome t (r, t') = ((is_neg r ≡ true) × (t' ≡ t)) ⊎ ((r ≡ pos 0) × Renewed t t')

pub error-neg : (f c : ℕ) → f < 128 → c < 0x1000000 → is_neg (as_int (hive_mk_error f c)) ≡ true
error-neg f c p q = (hive_mk_error-signs f c p q).0

module _ {W J : Type 0} {net : Net W J} {auth : Auth W J} (known : Documented net auth)
    (t : OauthToken) where
  abbrev pub Kept : Session W → Type 0
  Kept s = s.token ≡ t

  abbrev pub Fails : ℤ → Session W → Type 0
  Fails r s = (is_neg r ≡ true) × Kept s

  abbrev pub Ends : ℤ → Session W → Type 0
  Ends r s = Outcome t (r, s.token)

  -- A failure is an end.
  Fails-Ends : (x : Res ℤ × Session W) → After Ends Fails x → After Ends Ends x
  Fails-Ends (ret r, s) (ended x) = ended (inl x)
  Fails-Ends (go r, s) (goes_on x) = goes_on x

  pub function-Ends : (x : Res ℤ × Session W) → After Ends Fails x → Ends (value x).0 (value x).1
  function-Ends x h = value-After x (Fails-Ends x h)

  pub general_small : (c : ℕ) → c < 0x1000000 → is_neg (as_int (hive_general_error c)) ≡ true
  general_small c h = error-neg 1 c (omega arith) h

  pub check-Fails :
      (test : Bool) (cleanup : Session W → Session W) (r : ℤ)
      → ((s : Session W) → Kept s → Kept (cleanup s))
      → is_neg r ≡ true
      → Ensures Kept (return_after test cleanup r) (λ _. Kept) Fails
  check-Fails test cleanup r c neg s k =
      return_after-After test cleanup r s (λ _. (neg, c s k)) (λ _. k)

  -- The same, with what a step that goes on knows of the test and of the state
  pub passed-Fails :
      (test : Bool) (cleanup : Session W → Session W) (r : ℤ) (s : Session W)
      → ((s : Session W) → Kept s → Kept (cleanup s))
      → is_neg r ≡ true
      → Kept s
      → After (λ _ s'. Kept s' × (test ≡ false) × (s' ≡ s)) Fails (return_after test cleanup r s)
  passed-Fails test cleanup r s c neg k =
      return_after-After test cleanup r s (λ _. (neg, c s k)) (λ e. (k, e, refl))

  pub need-Fails :
      {A : Type 0} (pointer : Option A) (r : ℤ)
      → is_neg r ≡ true
      → Ensures Kept (need {S = Session W} pointer r) (λ a s. Kept s × (pointer ≡ some a)) Fails
  need-Fails pointer r neg s k = need_after-After pointer (λ s. s) r s (neg, k) (λ a e. (k, e))

  filled_item-filled :
      (o : Option J) (a : Bytes) → filled_item net auth o ≡ some a → is_empty a ≡ false
  filled_item-filled none a h = absurd (cc h)
  filled_item-filled (some item) a h = ground (arith, h)

  copy-Fails : (text : Bytes) → Ensures Kept (copy net auth text) (λ _. Kept) Fails
  unfolding copy
  copy-Fails text s k =
      let (made, w) = auth.calloc (length text + 1) s.outside in
      check-Fails (not made) (λ s. s) (as_int (hive_sys_error (auth.errno w))) (λ s k. k)
        (error-neg 2 (auth.errno w) (omega arith) (known.errno_small w)) (record s { outside = w })
        k

  abbrev bad_json : is_neg (as_int (hive_general_error hiveerr_bad_json_format)) ≡ true
  bad_json = general_small hiveerr_bad_json_format (omega arith)

  abbrev pub no_memory : is_neg (as_int (hive_general_error hiveerr_out_of_memory)) ≡ true
  no_memory = general_small hiveerr_out_of_memory (omega arith)

  copied_string-Fails :
      (json : J) (name : Bytes)
      → Ensures Kept (copied_string net auth json name) (λ a s. Kept s × (is_empty a ≡ false)) Fails
  unfolding copied_string
  copied_string-Fails json name s k =
      follow-After _ _ (need-Fails (filled_string net auth json name) _ bad_json s k)
        λ a s1 (k1, a_is).
          follow-After _ _ (copy-Fails a s1 k1)
            λ _ s2 k2. goes_on (k2, filled_item-filled (net.get_item json name) a a_is)

  decode_access_token-Ends :
      (text : Bytes) (s : Session W)
      → Kept s
      → Ends (decode_access_token net auth text s).0 (decode_access_token net auth text s).1
  unfolding decode_access_token
  decode_access_token-Ends text s k = function-Ends _ (
      follow-After _ _ (need-Fails (net.parse text) _ bad_json s k) λ json s1 (k1, _).
        follow-After _ _ (copied_string-Fails json (codes "token_type") s1 k1) λ a s2 (k2, a_is).
          follow-After _ _ (need-Fails (scope json) _ bad_json s2 k2) λ _ s3 (k3, _).
            follow-After _ _ (copied_string-Fails json (codes "access_token") s3 k3)
              λ b s4 (k4, b_is).
                follow-After _ _ (copied_string-Fails json (codes "refresh_token") s4 k4)
                  λ c s5 (k5, c_is).
                    follow-After (keep_tokens net auth a b c) _
                      (need-Fails (period net auth json (codes "expires_in")) _ bad_json s5 k5)
                      λ n s6 (k6, _).
                        let at = until (auth.gettimeofday s6.outside).0 n in
                        goes_on (inr (refl, (a, b, c, at, a_is, b_is, c_is, same a b c at s6 k6))))
    where
      until : Timeval → ℤ → Timeval
      until now n = timeradd now (record { tv_sec = n; tv_usec = 0 })

      same :
          (a b c : Bytes) (at : Timeval) (s : Session W)
          → s.token ≡ t
          → renewed a b c at s.token ≡ renewed a b c at t
      same a b c at s k = ap (renewed a b c at) k

      scope : J → Option Bytes
      scope json = filled_string net auth json (codes "scope")

  pub writeback_tokens-token : (s : Session W) → (writeback_tokens net auth s).token ≡ s.token
  unfolding writeback_tokens add_tokens
  writeback_tokens-token s = elim (Option-cases (auth.create_object s.outside).0) [
    | inl e ↦ rw (writeback_tokens, e) refl
    | inr (json, e) ↦ elim (Option-cases s.token.token_type) [
      | inl none_kept ↦ rw (writeback_tokens, e, add_tokens, none_kept) refl
      | inr (kind, kept) ↦ rw (writeback_tokens, e, add_tokens, kept) refl
    ]
  ]

  pub close-Kept : (s : Session W) → Kept s → Kept (close net auth s)
  close-Kept s k = k

  pub escaped-Fails : (text : Bytes) → Ensures Kept (escaped net auth (some text)) (λ _. Kept) Fails
  unfolding escaped
  escaped-Fails text s k = need_after-After _ (close net auth) _ _ (no_memory, k) (λ _ _. k)

  pub decode_body-Ends :
      (b : Body)
      → (b.used == 0) ≡ false
      → Ensures Kept (decode_body net auth (http_client_move_response_body b false)) Ends Fails
  unfolding decode_body http_client_move_response_body
  decode_body-Ends b full s k =
      rw full (goes_on (decode_access_token-Ends b.stored (close net auth s) k))
