-- ===== src/Apps/Program.antt =====
-- `main` of apps/cmd/cmd.c behind its options: what is set up before the loop, and what is given back
-- behind it.
use elastos_net_hive_native.Base.{
  ℕ, Bool, false, not, ◌&&◌, ◌==◌, Bytes, Option, none, some, ℤ, pos, negsuc, if◌then◌else◌, List,
}
use elastos_net_hive_native.Error.Strerror.{FacilityDesc}
use elastos_net_hive_native.Api.Connect.{Env, HiveConnect}
use elastos_net_hive_native.Api.Os.{Os}
use elastos_net_hive_native.Client.Directories.{
  Found, stat_failed, directory, other_file, Files, eexist,
}
use elastos_net_hive_native.Client.Object.{
  HiveClient, FactoryMethod, hive_client_new, hive_client_disconnect, hive_client_close,
}
use elastos_net_hive_native.Apps.Ops.{Host}
use elastos_net_hive_native.Apps.Shell.{Shell}
use elastos_net_hive_native.Apps.Connecting.{ConnectOptions}
use elastos_net_hive_native.Apps.Commands.{main_loop}
use elastos_net_hive_native.Apps.Config.{Libconfig, Config, load_config}

module _ {W C : Type 0} (os : Os W) (host : Host W) (facilities : List FacilityDesc)
    (methods : List (FactoryMethod W ConnectOptions)) (files : Files W) (lib : Libconfig W C)
    (rc_zalloc : W → Bool × W) (deref : W → W) where
  -- if (cmd_ctx.connect) hive_client_disconnect(cmd_ctx.connect);
  abbrev pub leave : Option (HiveConnect W) → Env W → Env W
  unfolding hive_client_disconnect
  leave none e = e
  leave (some connect) e = (hive_client_disconnect (some connect) e).1

  -- The configuration, the connection and the client of what the loop leaves; the result of `main`
  unfoldable pub deinit : HiveClient → Option (Unit {0} × Shell W) → Option (ℤ × Env W)
  unfolding leave hive_client_close
  deinit client none = none
  deinit client (some (u, s)) =
      let e = leave s.connect (record s.env { world = deref s.env.world }) in
      let (rc, e') = hive_client_close deref (some client) e in some (pos 0, e')

  abbrev pub with_client : ℕ → Bytes → Config → Option HiveClient × Env W → Option (ℤ × Env W)
  with_client fuel input config (none, e) = some (negsuc 0, e)
  with_client fuel input config (some client, e) = deinit client (
      main_loop os host facilities methods client config.ipfs_rpc_nodes fuel input
        (record { connect = none; ops = none; stop = false; env = e }))

  -- A location that is NULL is no directory that `mkdir` could make.
  unfoldable pub with_config : ℕ → Bytes → Option Config × W → Env W → Option (ℤ × Env W)
  unfolding deinit main_loop hive_client_new
  with_config fuel input (none, w) e = some (negsuc 0, record e { world = w })
  with_config fuel input (some config, w) e = elim config.data_location [
    | none ↦ some (negsuc 0, record e { world = w })
    | some location ↦
        let (made, w') = files.mkdir location w in
        let e' = record e { world = w' } in
        if not made && not (files.errno w' == eexist)
        then some (negsuc 0, e')
        else with_client fuel input config (hive_client_new files rc_zalloc (some location) e')
  ]

  abbrev pub with_file : ℕ → Bytes → Bytes → Found × W → Env W → Option (ℤ × Env W)
  with_file fuel input path (stat_failed, w) e = some (negsuc 0, record e { world = w })
  with_file fuel input path (directory, w) e = with_config fuel input (load_config lib path w) e
  with_file fuel input path (other_file, w) e = with_config fuel input (load_config lib path w) e

  -- From the path of the configuration file on
  unfoldable pub main : ℕ → Bytes → Bytes → Env W → Option (ℤ × Env W)
  unfolding with_config load_config
  main fuel input path e = with_file fuel input path (files.stat path e.world) e
