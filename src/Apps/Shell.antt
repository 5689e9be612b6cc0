-- ===== src/Apps/Shell.antt =====
-- The state of apps/cmd/cmd.c, and what its commands share.
use elastos_net_hive_native.Base.{
  Bool, true, Bytes, codes, List, [], ◌∷◌, Option, none, some, ℤ, is_neg, if◌then◌else◌,
}
use elastos_net_hive_native.Error.Strerror.{FacilityDesc, hive_get_strerror}
use elastos_net_hive_native.Api.Connect.{Env, Action, HiveConnect}
use elastos_net_hive_native.Apps.Ops.{Ops, Host, console}

-- `cmd_ctx`, with the thread and the world behind it; the configuration and the client do not change.
pub record Shell (W : Type 0) : Type 0 where
  pub connect : Option (HiveConnect W)
  pub ops : Option (Ops W)
  pub stop : Bool
  pub env : Env W

-- `none` is a call or a load through NULL in a command itself, or a store behind an array's end. What an
-- operation of the library does inside is its own.
abbrev pub Command : Type 0 → Type 0 → Type 0
Command W A = Shell W → Option (A × Shell W)

abbrev pub Run : Type 0 → Type 0
Run W = Command W (Unit {0})

abbrev pub follow :
    {W A B : Type 0} → (A → Command W B) → Option (A × Shell W) → Option (B × Shell W)
follow f none = none
follow f (some (a, s)) = f a s

infixl 5 ◌>>=◌ ◌>>◌
abbrev pub ◌>>=◌ : {W A B : Type 0} → Command W A → (A → Command W B) → Command W B
◌>>=◌ m f s = follow f (m s)

abbrev pub ◌>>◌ : {W B : Type 0} → Command W (Unit {0}) → Command W B → Command W B
m >> k = m >>= λ _. k

abbrev pub done : {W : Type 0} → Command W (Unit {0})
done s = some (tt, s)

abbrev pub fault : {W A : Type 0} → Command W A
fault s = none

abbrev pub act : {W A : Type 0} → Action W A → Command W A
act m s = let (a, e) = m s.env in some (a, record s { env = e })

-- `ctx->ops->f`, called
abbrev pub loaded : {A : Type 0} {W : Type 0} → Option A → Command W A
loaded none s = none
loaded (some f) s = some (f, s)

abbrev pub operation : {W F : Type 0} → (Ops W → Option F) → Command W F
operation field s = follow (λ ops. loaded (field ops)) (loaded s.ops s)

module _ {W : Type 0} (host : Host W) where
  abbrev pub say : Bytes → List (Option Bytes) → Command W (Unit {0})
  say format args s = act (console host format args) s

  abbrev pub syntax_error : Command W (Unit {0})
  syntax_error = say (codes "Error: invalid command syntax.") []

  abbrev pub run_connected :
      (HiveConnect W → Command W (Unit {0})) → Option (HiveConnect W) → Command W (Unit {0})
  run_connected run none = say (codes "Error: No HiveConnect instance created.") []
  run_connected run (some connect) = run connect

  -- if (!ctx->connect) { console(…); return; }
  abbrev pub connected : (HiveConnect W → Command W (Unit {0})) → Command W (Unit {0})
  connected run s = run_connected run s.connect s

  -- if (!ctx->ops->f) { console(…); return; }
  abbrev pub run_if_there :
      {F : Type 0} → Option F → (F → Command W (Unit {0})) → Command W (Unit {0})
  run_if_there none run =
      say (codes "Error: HiveConnect instance does not support this operation.") []
  run_if_there (some f) run = run f

  abbrev pub supporting :
      {F : Type 0} → (Ops W → Option F) → (F → Command W (Unit {0})) → Command W (Unit {0})
  supporting field run s = follow (λ ops. run_if_there (field ops) run) (loaded s.ops s)

abbrev pub or_error : Option ℤ → ℤ → ℤ
or_error none error = error
or_error (some error) before = error

-- hive_get_strerror(hive_get_error(), errbuf, sizeof(errbuf))
unfoldable pub reason : {W : Type 0} → List FacilityDesc → Action W (Option Bytes)
unfolding hive_get_strerror
reason facilities e =
    let r = hive_get_strerror facilities e.hive_error true 1024 in
    (r.text, record e { hive_error = or_error r.error e.hive_error })

-- if (rc < 0) console(format, hive_get_strerror(…)); else …
unfoldable pub told :
    {W : Type 0}
    → Host W
    → List FacilityDesc
    → Bytes
    → ℤ
    → Command W (Unit {0})
    → Command W (Unit {0})
unfolding reason
told host facilities format rc otherwise =
    if is_neg rc
    then (do text ← act (reason facilities); say host format (text ∷ []))
    else otherwise

abbrev pub report_failure : {W : Type 0} → Host W → List FacilityDesc → Bytes → ℤ → Run W
report_failure host facilities format rc = told host facilities format rc done
