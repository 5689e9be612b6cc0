-- ===== src/Apps/Fine.antt =====
-- A command of apps/cmd/cmd.c uses no connection that is not there and calls no operation that the
-- command line's table lacks: what its parts need for that.
use mathlib.Core.Path.{subst}
use elastos_net_hive_native.Base.{
  ◌≡◌, sym, ◌∙◌, inl, inr, refl, true, Bytes, List, Option, none, some, is_some, ℤ, is_neg,
  Bool-cases, Option-cases,
}
use elastos_net_hive_native.Error.Strerror.{FacilityDesc}
use elastos_net_hive_native.Api.Connect.{Env, HiveConnect}
use elastos_net_hive_native.Apps.Ops.{Ops, Host}
use elastos_net_hive_native.Apps.Shell.{
  Shell, Run, follow, ◌>>=◌, done, operation, say, connected, run_connected, run_if_there,
  supporting, loaded, told,
}

-- The operations that are called without a check are there.
pub record IsComplete {W : Type 0} (ops : Ops W) : Type 0 where
  pub has_put_file : is_some ops.put_file ≡ true
  pub has_put_file_from_buffer : is_some ops.put_file_from_buffer ≡ true
  pub has_get_file_length : is_some ops.get_file_length ≡ true
  pub has_get_file : is_some ops.get_file ≡ true
  pub has_get_file_to_buffer : is_some ops.get_file_to_buffer ≡ true

-- The table in use has them, if there is a connection.
pub data IsReady {W : Type 0} (s : Shell W) : Type 0 where
  apart : s.connect ≡ none → IsReady s
  joined : (ops : Ops W) → s.ops ≡ some ops → IsComplete ops → IsReady s

-- A command has come to its end, ready for the next.
pub data Fine {W : Type 0} : Option (Unit {0} × Shell W) → Type 0 where
  fine : {s : Shell W} → IsReady s → Fine (some (tt, s))

pub env-IsReady :
    {W : Type 0} {s : Shell W} (e : Env W) → IsReady s → IsReady (record s { env = e })
env-IsReady e (apart h) = apart h
env-IsReady e (joined ops h c) = joined ops h c

pub done-Fine : {W : Type 0} (s : Shell W) → IsReady s → Fine (done s)
done-Fine s r = fine r

module _ {W F : Type 0} (field : Ops W → Option F) {ops : Ops W} where
  operation-some :
      (o : Option (Ops W)) (f : F) (s : Shell W)
      → o ≡ some ops
      → field ops ≡ some f
      → follow (λ (table : Ops W). loaded (field table)) (loaded o s) ≡ some (f, s)
  operation-some o f s has is = rw (has, is) refl

  -- An operation that is there is called.
  pub operation-Fine :
      (k : F → Run W) (s : Shell W)
      → s.ops ≡ some ops
      → is_some (field ops) ≡ true
      → ((f : F) → Fine (k f s))
      → Fine ((operation field >>= k) s)
  operation-Fine k s has there h = elim (Option-cases (field ops)) [
    | inl missing ↦ absurd (cc (rw missing at there))
    | inr (f, is) ↦
        subst (λ (x : Option (F × Shell W)). Fine (follow k x))
          (sym (operation-some s.ops f s has is)) (h f)
  ]

module _ {W : Type 0} (host : Host W) where
  pub say-Fine :
      (format : Bytes) (args : List (Option Bytes)) (s : Shell W)
      → IsReady s
      → Fine (say host format args s)
  say-Fine format args s r = fine (env-IsReady _ r)

  pub connected-Fine :
      (run : HiveConnect W → Run W) (s : Shell W)
      → IsReady s
      → ((connect : HiveConnect W) (ops : Ops W)
          → s.ops ≡ some ops
          → IsComplete ops
          → Fine (run connect s))
      → Fine (connected host run s)
  connected-Fine run s r h = at_connect s.connect refl r
    where
      at_connect :
          (o : Option (HiveConnect W))
          → s.connect ≡ o
          → IsReady s
          → Fine (run_connected host run o s)
      at_connect none is r' = fine (env-IsReady _ r')
      at_connect (some connect) is (apart none_made) = absurd (cc (sym none_made ∙ is))
      at_connect (some connect) is (joined ops has complete) = h connect ops has complete

  module _ {F : Type 0} (field : Ops W → Option F) (run : F → Run W) where
    run_if_there-Fine :
        (o : Option F) (s : Shell W)
        → IsReady s
        → ((f : F) → Fine (run f s))
        → Fine (run_if_there host o run s)
    run_if_there-Fine none s r h = fine (env-IsReady _ r)
    run_if_there-Fine (some f) s r h = h f

    supporting-loaded :
        {ops : Ops W} (o : Option (Ops W)) (s : Shell W)
        → o ≡ some ops
        → run_if_there host (field ops) run s
          ≡ follow (λ (table : Ops W). run_if_there host (field table) run) (loaded o s)
    supporting-loaded {ops} o s has = rw has refl

    pub supporting-Fine :
        {ops : Ops W} (s : Shell W)
        → IsReady s
        → s.ops ≡ some ops
        → ((f : F) → Fine (run f s))
        → Fine (supporting host field run s)
    supporting-Fine {ops} s r has h =
        subst Fine (supporting-loaded s.ops s has) (run_if_there-Fine (field ops) s r h)

  pub told-Fine :
      (facilities : List FacilityDesc) (format : Bytes) (rc : ℤ) (otherwise : Run W) (s : Shell W)
      → IsReady s
      → Fine (otherwise s)
      → Fine (told host facilities format rc otherwise s)
  unfolding told
  told-Fine facilities format rc otherwise s r h = elim (Bool-cases (is_neg rc)) [
    | inl failed ↦ rw failed (fine (env-IsReady _ r))
    | inr good ↦ rw good h
  ]
