-- ===== src/Tests/Handles.antt =====
-- A client of libcurl in a world that is the number of resources in use.
use elastos_net_hive_native.Base.{
  ℕ, ◌+◌, ◌-◌, ◌≡◌, refl, Bool, true, false, codes, List, [], ◌∷◌, none, some, arith,
}
use elastos_net_hive_native.Http.Body.{settle, grow}
use elastos_net_hive_native.Http.Client.{post}
use elastos_net_hive_native.Http.Handle.{Libcurl}
use elastos_net_hive_native.Http.Handle.Balanced.{Counts, Replaces}
use elastos_net_hive_native.Http.Handle.Session.{
  Call, set_url, set_method, set_header, enable_response_body, request, chunk, get_response_code,
  move_response_body, escape, reset, set_mime, memory_free, call, calls, session, Ends,
  session-Balanced,
}

abbrev replaced : Bool → ℕ → Bool × ℕ
replaced true w = (true, w)
replaced false w = (true, w + 1)

abbrev libcurl : Libcurl ℕ
libcurl = record {
  global_init = λ w. (0, w);
  rc_zalloc = λ w. (true, w + 1);
  release = λ w. w - 1;
  curl_url = λ w. (true, w + 1);
  url_cleanup = λ w. w - 1;
  easy_init = λ w. (true, w + 1);
  easy_cleanup = λ w. w - 1;
  easy_reset = λ w. w;
  setopt = λ option w. (0, w);
  url_set = λ part text w. (0, w);
  url_get = λ part w. (0, w + 1);
  slist_append = λ there text w. replaced there w;
  slist_free_all = λ w. w - 1;
  mime_init = λ w. (true, w + 1);
  mime_part = λ name buffer bufsz w. w;
  mime_free = λ w. w - 1;
  realloc = λ there size w. replaced there w;
  free = λ w. w - 1;
  perform = λ w. (0, w);
  response_code = λ w. ((0, 200), w);
  escape = λ text w. (some text, w + 1);
  unescape = λ text w. (none, w);
  curl_free = λ w. w - 1;
}

replaced-Replaces : Replaces (λ w. w) replaced
replaced-Replaces true w = (λ e. refl, λ e. refl)
replaced-Replaces false w = (λ e. omega arith, λ e. absurd (cc e))

libcurl-Counts : Counts libcurl (λ w. w)
libcurl-Counts = record {
  global_init = λ w. refl;
  rc_zalloc = λ w. refl;
  release = λ w n h. omega (arith, h);
  curl_url = λ w. refl;
  url_cleanup = λ w n h. omega (arith, h);
  easy_init = λ w. refl;
  easy_cleanup = λ w n h. omega (arith, h);
  easy_reset = λ w. refl;
  setopt = λ option w. refl;
  url_set = λ part text w. refl;
  url_get = λ part w. refl;
  slist_append = λ text. replaced-Replaces;
  slist_free_all = λ w n h. omega (arith, h);
  mime_init = λ w. refl;
  mime_part = λ name buffer bufsz w. refl;
  mime_free = λ w n h. omega (arith, h);
  realloc = λ size. replaced-Replaces;
  free = λ w n h. omega (arith, h);
  perform = λ w. refl;
  response_code = λ w. refl;
  escape = λ text w. refl;
  unescape = λ text w. omega arith;
  curl_free = λ w n h. omega (arith, h);
}

abbrev some_calls : List Call
some_calls =
    set_url (codes "http://a")
    ∷ set_method post
    ∷ set_header (codes "A") (codes "b")
    ∷ set_mime (codes "f") none 0
    ∷ enable_response_body
    ∷ request
    ∷ chunk 700
    ∷ get_response_code
    ∷ move_response_body false
    ∷ reset
    ∷ escape (codes "x")
    ∷ memory_free
    ∷ []

session-Balanced_example :
    Ends libcurl (λ w. w) libcurl-Counts 5 some_calls (session libcurl some_calls false 5)
session-Balanced_example = session-Balanced libcurl (λ w. w) libcurl-Counts some_calls false 5

some_calls_leave_one : session libcurl some_calls false 5 ≡ some (1, 6)
unfolding session calls call settle grow
some_calls_leave_one = refl
