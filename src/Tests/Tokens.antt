-- ===== src/Tests/Tokens.antt =====
-- The token over a server that renews it, a clock that stands still, and an owner that keeps the stored
-- object.
use elastos_net_hive_native.Base.{
  ℕ, ◌≡◌, ◌⊎◌, refl, true, false, codes, List, [], ◌∷◌, none, some, is_some, pos, arith,
}
use elastos_net_hive_native.Api.Connect.{Env}
use elastos_net_hive_native.Http.Body.{Body}
use elastos_net_hive_native.Http.Client.{Net, own}
use elastos_net_hive_native.Oauth.Token.{
  OauthToken, Session, SbEvent, sb_request, sb_close, sb_other, Auth, oauth_token_is_expired,
  oauth_token_set_expired, fresh_token,
}
use elastos_net_hive_native.Oauth.Exchange.{oauth_token_check_expire, keep_tokens}
use elastos_net_hive_native.Oauth.Authorize.{
  Redirect, handle_auth_redirect, poll, wait, oauth_token_request,
}
use elastos_net_hive_native.Oauth.Outcome.{Documented, Outcome}
use elastos_net_hive_native.Oauth.Renewal.{oauth_token_check_expire-Outcome}
use elastos_net_hive_native.Oauth.Wait.{no_polls, open_more, wait-first_close}
use elastos_net_hive_native.Oauth.Login.{oauth_token_request-Outcome}
use elastos_net_hive_native.Oauth.Expiry.{at_time, is_expired-keep_tokens, is_expired-set_expired}
use elastos_net_hive_native.Tests.Nodes.{network}

abbrev events : List SbEvent
events = sb_request (codes "/") true (codes "code") ∷ sb_close ∷ []

-- The login that is answered by a code, at 1000 seconds.
abbrev pub login : Auth (Unit {0}) ℕ
login = record {
  escape = λ text w. (some text, w);
  curl_url_get = λ part client w. ((0, codes "/"), w);
  calloc = λ size w. (true, w);
  errno = λ w. 0;
  gettimeofday = λ w. (at_time 1000 0, w);
  create_object = λ w. (some 0, w);
  add_string = λ json name text w. (json, w);
  add_number = λ json name n w. (json, w);
  get_item_any_case = λ json name. none;
  writeback_cb = λ json w. (pos 0, w);
  sb_new_server = λ host port w. (true, w);
  pthread_create = λ url w. (true, w);
  polls = λ w. ((sb_other ∷ []) ∷ events ∷ [], w);
  waiting = λ w. (none, w);
  sb_close_server = λ w. w;
}

abbrev three_bytes : Body
three_bytes = record { used = 3; sz = 512; stored = codes "abc" }

abbrev pub server : Net (Unit {0}) ℕ
server = record network { perform = λ c w. ((0, own three_bytes), w) }

pub documented : Documented server login
documented = record {
  errno_small = λ w. omega arith;
  perform_small = λ c w. omega arith;
  response_small = λ w. (omega arith, omega arith);
  replies = λ c b w sink arrived is_ok. refl;
}

abbrev pub new_token : OauthToken
new_token = fresh_token server login (codes "a") (codes "t") (codes "c") (codes "s") (codes "r")

abbrev fresh : Session (Unit {0})
fresh = record { token = new_token; outside = tt }

-- A token that can be renewed, and has expired
abbrev old : Session (Unit {0})
old = record { token = record new_token { refresh_token = some (codes "z") }; outside = tt }

oauth_token_check_expire-Outcome_example :
    let r = oauth_token_check_expire server login old in
    let expired = (oauth_token_is_expired server login old).0 in
    ((expired ≡ false) × (r.0 ≡ pos 0) × (r.1.token ≡ old.token))
    ⊎ ((expired ≡ true) × Outcome old.token (r.0, r.1.token))
oauth_token_check_expire-Outcome_example = oauth_token_check_expire-Outcome documented old refl

abbrev cleared : Env (Session (Unit {0}))
cleared = record { hive_error = pos 0; world = fresh }

oauth_token_request-Outcome_example :
    let r = oauth_token_request server login cleared in
    ((is_some new_token.access_token ≡ true) × (r ≡ (pos 0, cleared)))
    ⊎ ((is_some new_token.access_token ≡ false)
        × (((r.0 ≡ r.1.hive_error) × (r.1.world.token ≡ new_token))
            ⊎ Outcome new_token (r.0, r.1.world.token)))
oauth_token_request-Outcome_example = oauth_token_request-Outcome documented cleared

abbrev waiting : Redirect
waiting = record { stopped = false; code = []; error = pos 0 }

abbrev login_code : Redirect
login_code = record { stopped = true; code = codes "code"; error = pos 0 }

wait-first_close_example :
    wait (codes "/") ((sb_other ∷ []) ∷ events ∷ (sb_other ∷ []) ∷ []) waiting ≡ some login_code
unfolding wait poll handle_auth_redirect
wait-first_close_example =
    wait-first_close (codes "/") ((sb_other ∷ []) ∷ []) events ((sb_other ∷ []) ∷ []) waiting
      (open_more refl no_polls) refl refl

-- The clock's reading is 1000 seconds, and the token is kept for an hour.
abbrev kept : Session (Unit {0})
kept = (keep_tokens server login (codes "x") (codes "y") (codes "z") (pos 3600) fresh).1

is_expired-keep_tokens_example : (oauth_token_is_expired server login kept).0 ≡ false
is_expired-keep_tokens_example =
    is_expired-keep_tokens server login (codes "x") (codes "y") (codes "z") 3600 1000 0 1000 0 fresh
      kept refl refl refl (omega arith) (omega arith) (omega arith)

abbrev set_expired : Session (Unit {0})
set_expired = record kept { token = oauth_token_set_expired server login kept.token }

is_expired-set_expired_example : (oauth_token_is_expired server login set_expired).0 ≡ true
is_expired-set_expired_example =
    is_expired-set_expired server login kept set_expired 1000 0 refl refl (omega arith)
      (omega arith)
