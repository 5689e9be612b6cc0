-- ===== src/Oauth/Wait.antt =====
-- The wait for the code of a login, in `get_authorize_code` of src/oauth/oauth_token.c.
use elastos_net_hive_native.Base.{
  ◌≡◌, refl, sym, ap, ◌∙◌, Bool, true, false, ◌||◌, Bytes, List, [], ◌∷◌, ◌++◌, some, arith,
}
use elastos_net_hive_native.Oauth.Token.{SbEvent, sb_request, sb_close, sb_other}
use elastos_net_hive_native.Oauth.Authorize.{Redirect, handle_auth_redirect, poll, wait}

-- Whether the server has reported that the connection is closed.
abbrev pub has_close : List SbEvent → Bool
has_close [] = false
has_close (sb_close ∷ events) = true
has_close (e ∷ events) = has_close events

-- The events of several polls, in order
abbrev pub join : List (List SbEvent) → List SbEvent
join [] = []
join (events ∷ polls) = events ++ join polls

-- No poll reports it.
pub data AreOpen : List (List SbEvent) → Type 0 where
  no_polls : AreOpen []
  open_more :
      {events : List SbEvent} {polls : List (List SbEvent)}
      → has_close events ≡ false
      → AreOpen polls
      → AreOpen (events ∷ polls)

or_false : (b : Bool) → b ≡ (b || false)
or_false b = ground arith

or_true : (b : Bool) → (b || true) ≡ true
or_true b = ground arith

module _ (path : Bytes) where
  stopped-handle_request :
      (request : Bytes) (found : Bool) (code : Bytes) (r : Redirect)
      → (handle_auth_redirect path (sb_request request found code) r).stopped ≡ r.stopped
  unfolding handle_auth_redirect
  stopped-handle_request request found code r = ground arith

  stopped-poll :
      (events : List SbEvent) (r : Redirect)
      → (poll path events r).stopped ≡ (r.stopped || has_close events)
  unfolding poll
  stopped-poll [] r = or_false r.stopped
  stopped-poll (sb_close ∷ events) r =
      stopped-poll events (record r { stopped = true }) ∙ sym (or_true r.stopped)
  stopped-poll (sb_other ∷ events) r = stopped-poll events r
  stopped-poll (sb_request request found code ∷ events) r =
      let r' = handle_auth_redirect path (sb_request request found code) r in
      stopped-poll events r'
      ∙ ap (λ (b : Bool). b || has_close events) (stopped-handle_request request found code r)

  poll-append :
      (xs ys : List SbEvent) (r : Redirect) → poll path (xs ++ ys) r ≡ poll path ys (poll path xs r)
  unfolding poll
  poll-append [] ys r = refl
  poll-append (e ∷ xs) ys r = poll-append xs ys (handle_auth_redirect path e r)

  -- The wait ends with the first poll in which the connection is closed, whatever would follow; what
  -- it ends with is what the handler makes of all the events up to that poll, in order.
  pub wait-first_close :
      (before : List (List SbEvent)) (events : List SbEvent) (later : List (List SbEvent))
      (r : Redirect)
      → AreOpen before
      → has_close events ≡ true
      → r.stopped ≡ false
      → wait path (before ++ events ∷ later) r ≡ some (poll path (join before ++ events) r)
  unfolding wait
  wait-first_close [] events later r opened closed going =
      rw (stopped-poll events r, going, closed) refl
  wait-first_close (first ∷ before) events later r (open_more first_open opened) closed going =
      let state = poll path first r in
      let in_order : poll path (join before ++ events) state
          ≡ poll path (join (first ∷ before) ++ events) r =
        rw
          (
            poll-append (first ++ join before) events r,
            poll-append first (join before) r,
            poll-append (join before) events state,
          )
          refl in
      let first_going : (poll path first r).stopped ≡ false =
        stopped-poll first r ∙ ground (arith, going, first_open) in
      rw first_going
        (wait-first_close before events later state opened closed first_going ∙ ap some in_order)
