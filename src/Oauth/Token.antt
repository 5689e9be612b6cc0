-- ===== src/Oauth/Token.antt =====
-- The token of src/oauth/oauth_token.c: its fields, how it is stored and restored, and the world that
-- its functions call.
use elastos_net_hive_native.Base.{
  ℕ, ◌+◌, Bool, true, false, not, Bytes, codes, str_eq, length, Option, none, some, ℤ, pos,
  if◌then◌else◌, List,
}
use elastos_net_hive_native.Error.Code.{
  as_int, hive_general_error, hive_sys_error, hiveerr_out_of_memory, hiveerr_bad_persistent_data,
}
use elastos_net_hive_native.Http.Step.{
  go, Step, ◌>>=◌, ◌>>◌, return_if, need, step, effect, continue, function,
}
use elastos_net_hive_native.Http.Client.{HttpClient, Net}
use elastos_net_hive_native.Oauth.Time.{Timeval, zero_time, is_later}

-- The first five are given with the options.
pub record OauthToken : Type 0 where
  pub authorize_url : Bytes
  pub token_url : Bytes
  pub client_id : Bytes
  pub scope : Bytes
  pub redirect_url : Bytes
  pub token_type : Option Bytes
  pub access_token : Option Bytes
  pub refresh_token : Option Bytes
  pub expires_at : Timeval

-- A connection's token, and the world outside.
pub record Session (W : Type 0) : Type 0 where
  pub token : OauthToken
  pub outside : W

-- The parts of a URL that are asked for.
pub data UrlPart : Type 0 where
  url_part host_part port_part path_part : UrlPart

-- What the local server tells its handler: a request has its path, and what `sb_get_var` makes of the
-- variable `code`, whether it succeeds and what it leaves in the buffer.
pub data SbEvent : Type 0 where
  sb_request : Bytes → Bool → Bytes → SbEvent
  sb_close sb_other : SbEvent

-- What a login and a stored token need of the world outside.
pub record Auth (W J : Type 0) : Type 0 where
  -- curl_easy_escape
  pub escape : Bytes → W → Option Bytes × W
  -- curl_url_get: the CURLUcode and the text
  pub curl_url_get : UrlPart → HttpClient → W → (ℕ × Bytes) × W
  -- Whether `calloc` or `strdup` gives a block of this size.
  pub calloc : ℕ → W → Bool × W
  pub errno : W → ℕ
  pub gettimeofday : W → Timeval × W
  -- cJSON_CreateObject, cJSON_AddStringToObject, cJSON_AddNumberToObject: the object after the call
  pub create_object : W → Option J × W
  pub add_string : J → Bytes → Option Bytes → W → J × W
  pub add_number : J → Bytes → ℤ → W → J × W
  -- cJSON_GetObjectItem, which does not look at the case
  pub get_item_any_case : J → Bytes → Option J
  -- The owner's callback that stores the token.
  pub writeback_cb : J → W → ℤ × W
  -- sb_new_server with a host and a port, and pthread_create of the thread that shows a URL
  pub sb_new_server : Bytes → Bytes → W → Bool × W
  pub pthread_create : Bytes → W → Bool × W
  -- The events of each call of `sb_poll_server`. A wait that does not end: the world chooses
  -- what it comes to.
  pub polls : W → List (List SbEvent) × W
  pub waiting : W → Option Bytes × W
  pub sb_close_server : W → W

module _ {W J : Type 0} (net : Net W J) (auth : Auth W J) where
  abbrev pub outer : {A : Type 0} → (W → A × W) → Session W → A × Session W
  outer f s = ((f s.outside).0, record s { outside = (f s.outside).1 })

  abbrev pub current : Step (Session W) OauthToken
  current s = (go s.token, s)

  abbrev pub change : (OauthToken → OauthToken) → Step (Session W) (Unit {0})
  change f = effect (λ s. record s { token = f s.token })

  abbrev add_item : J → Bytes → Option Bytes → Step (Session W) J
  add_item json name text = step (outer (auth.add_string json name text))

  -- if (token->token_type) { … }
  unfoldable pub add_tokens : OauthToken → J → Step (Session W) J
  add_tokens token json = elim token.token_type [
    | none ↦ continue json
    | some kind ↦ do
      json ← add_item json (codes "token_type") (some kind)
      json ← add_item json (codes "access_token") token.access_token
      json ← add_item json (codes "refresh_token") token.refresh_token
      step (outer (auth.add_number json (codes "expires_at") token.expires_at.tv_sec))
  ]

  -- The result of the owner's callback is only logged.
  unfoldable pub writeback_tokens : Session W → Session W
  unfolding add_tokens
  writeback_tokens s =
      let run : Step (Session W) ℤ = do
        made ← step (outer auth.create_object)
        json ← need made (pos 0)
        token ← current
        json ← add_item json (codes "client_id") (some token.client_id)
        json ← add_tokens token json
        step (outer (auth.writeback_cb json))
      in (run s).1

  abbrev pub string_item : Option J → Option Bytes
  string_item none = none
  string_item (some item) = if net.is_string item then some (net.valuestring item) else none

  abbrev pub number_item : Option J → Option ℤ
  number_item none = none
  number_item (some item) = if net.is_number item then some (net.value_ssize item) else none

  abbrev pub same_text : Bytes → Option Bytes → Bool
  same_text text none = false
  same_text text (some other) = str_eq text other

  abbrev pub block_size : Bytes → Bytes → Bytes → ℕ
  block_size a b c = length a + 1 + (length b + 1) + (length c + 1)

  -- What follows the search for the members of the stored object.
  unfoldable pub restore_members :
      Option Bytes → Option Bytes → Option Bytes → Option Bytes → Option ℤ → Step (Session W) ℤ
  restore_members client_id token_type access_token refresh_token expires_at = do
    token ← current
    return_if (not (same_text token.client_id client_id))
        (as_int (hive_general_error hiveerr_bad_persistent_data))
    token_type ← need token_type (pos 0)
    access_token ← need access_token (pos 0)
    refresh_token ← need refresh_token (pos 0)
    expires_at ← need expires_at (pos 0)
    change (λ t. record t { expires_at = record t.expires_at { tv_sec = expires_at } })
    made ← step (outer (auth.calloc (block_size token_type access_token refresh_token)))
    errno ← step (λ s. (auth.errno s.outside, s))
    return_if (not made) (as_int (hive_sys_error errno))
    change (λ t. record t {
      token_type = some token_type;
      access_token = some access_token;
      refresh_token = some refresh_token;
    })
    continue (pos 0)

  unfoldable pub restore_access_token : Option J → Session W → ℤ × Session W
  unfolding restore_members
  restore_access_token none = function (continue (pos 0))
  restore_access_token (some json) =
      let member : Bytes → Option J = auth.get_item_any_case json in
      function (
        restore_members (string_item (member (codes "client_id")))
          (string_item (member (codes "token_type"))) (string_item (member (codes "access_token")))
          (string_item (member (codes "refresh_token")))
          (number_item (member (codes "expires_at"))))

  -- The options hold the first five fields of the token, and `store`.
  abbrev pub fresh_token : Bytes → Bytes → Bytes → Bytes → Bytes → OauthToken
  fresh_token authorize_url token_url client_id scope redirect_url = record {
    authorize_url = authorize_url;
    token_url = token_url;
    client_id = client_id;
    scope = scope;
    redirect_url = redirect_url;
    token_type = none;
    access_token = none;
    refresh_token = none;
    expires_at = zero_time;
  }

  -- A new token, or the error that has been set; `allocated` is the answer of `rc_zalloc`. The result
  -- of restoring the tokens is only logged.
  unfoldable pub oauth_token_new : Bool → OauthToken → Option J → W → (ℤ × Option OauthToken) × W
  unfolding restore_access_token
  oauth_token_new false fresh store w =
      ((as_int (hive_general_error hiveerr_out_of_memory), none), w)
  oauth_token_new true fresh store w =
      let restored = (restore_access_token store (record { token = fresh; outside = w })).1 in
      ((pos 0, some restored.token), restored.outside)

  unfoldable pub oauth_token_reset : Session W → ℤ × Session W
  unfolding writeback_tokens
  oauth_token_reset = function do
    change (λ t. record t { token_type = none; access_token = none; refresh_token = none })
    effect writeback_tokens
    continue (pos 0)

  unfoldable pub oauth_token_set_expired : OauthToken → OauthToken
  oauth_token_set_expired token = record token { expires_at = zero_time }

  unfoldable pub oauth_token_is_expired : Session W → Bool × Session W
  oauth_token_is_expired s =
      let (now, s') = outer auth.gettimeofday s in (is_later now s'.token.expires_at, s')
