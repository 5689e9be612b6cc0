-- ===== src/Oauth/Expiry.antt =====
-- When a token of src/oauth/oauth_token.c is expired.
use elastos_net_hive_native.Base.{
  ℕ, ◌+◌, ◌*◌, ◌^◌, ◌<◌, ◌≡◌, refl, ap, true, false, ltb, leb, Bytes, pos, arith,
}
use elastos_net_hive_native.Http.Client.{Net}
use elastos_net_hive_native.Oauth.Time.{Timeval, timeradd, is_later, long_add}
use elastos_net_hive_native.Oauth.Token.{
  Session, Auth, oauth_token_is_expired, oauth_token_set_expired,
}
use elastos_net_hive_native.Oauth.Exchange.{keep_tokens}

abbrev pub at_time : ℕ → ℕ → Timeval
at_time sec usec = record { tv_sec = pos sec; tv_usec = usec }

abbrev pub micros : ℕ → ℕ → ℕ
micros sec usec = sec * 1000000 + usec

long_add-pos : (m n : ℕ) → m + n < 2 ^ 63 → long_add (pos m) (pos n) ≡ pos (m + n)
long_add-pos m n h = ground arith

is_later-micros :
    (s u s' u' : ℕ)
    → u < 1000000
    → u' < 1000000
    → is_later (at_time s u) (at_time s' u') ≡ ltb (micros s' u') (micros s u)
unfolding is_later
is_later-micros s u s' u' h h' = ground (arith, h, h')

timeradd-period :
    (s u n : ℕ)
    → u < 1000000
    → s + n < 2 ^ 63
    → timeradd (at_time s u) (at_time n 0) ≡ at_time (s + n) u
unfolding timeradd
timeradd-period s u n h bound =
    let small : leb 1000000 (u + 0) ≡ false = ground arith in
    let same : u + 0 ≡ u = omega arith in rw (small, same, long_add-pos s n bound) refl

module _ {W J : Type 0} (net : Net W J) (auth : Auth W J) where
  -- A token that is kept at a reading of the clock, for a period of seconds, is expired at a later
  -- reading just when more than that period has gone by, to the microsecond. The times are not
  -- negative, and the time of the end is below 2^63 seconds.
  pub is_expired-keep_tokens :
      (a b c : Bytes) (n s u s' u' : ℕ) (before after : Session W)
      → (auth.gettimeofday before.outside).0 ≡ at_time s u
      → after.token ≡ (keep_tokens net auth a b c (pos n) before).1.token
      → (auth.gettimeofday after.outside).0 ≡ at_time s' u'
      → u < 1000000
      → u' < 1000000
      → s + n < 2 ^ 63
      → (oauth_token_is_expired net auth after).0 ≡ ltb (micros s u + n * 1000000) (micros s' u')
  unfolding oauth_token_is_expired
  is_expired-keep_tokens a b c n s u s' u' before after now kept later h h' bound =
      let sum : micros (s + n) u ≡ micros s u + n * 1000000 = omega arith in
      rw (kept, now, later, timeradd-period s u n h bound, is_later-micros s' u' (s + n) u h' h)
        (ap (λ (end_ : ℕ). ltb end_ (micros s' u')) sum)

  -- A token that has been set expired is expired at each reading of the clock behind the first
  -- microsecond of its count.
  pub is_expired-set_expired :
      (before after : Session W) (s u : ℕ)
      → after.token ≡ oauth_token_set_expired net auth before.token
      → (auth.gettimeofday after.outside).0 ≡ at_time s u
      → u < 1000000
      → 0 < micros s u
      → (oauth_token_is_expired net auth after).0 ≡ true
  unfolding oauth_token_is_expired oauth_token_set_expired
  is_expired-set_expired before after s u kept now h some_time =
      rw (kept, now, is_later-micros s u 0 0 h (omega arith)) (ground arith)
