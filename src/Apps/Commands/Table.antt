-- ===== src/Apps/Commands/Table.antt =====
-- No command of the table of apps/cmd/cmd.c uses a connection that is not there or calls an operation
-- that the command line's table lacks.
use elastos_net_hive_native.Base.{
  ◌*◌, refl, Bytes, codes, str_eq, length, List, [], ◌∷◌, Option, none, some, Bool-cases, inl, inr,
}
use elastos_net_hive_native.Error.Strerror.{FacilityDesc}
use elastos_net_hive_native.Api.Connect.{HiveConnect}
use elastos_net_hive_native.Api.Os.{Os}
use elastos_net_hive_native.Ipfs.Options.{IpfsNode}
use elastos_net_hive_native.Client.Object.{HiveClient, FactoryMethod}
use elastos_net_hive_native.Apps.Ops.{Ops, Host, general_ops, ipfs_ops}
use elastos_net_hive_native.Apps.Shell.{Shell, Run}
use elastos_net_hive_native.Apps.Fine.{IsComplete, IsReady, apart, joined, Fine, fine, env-IsReady}
use elastos_net_hive_native.Apps.Connecting.{
  ConnectOptions, client_connect, disconnect, connect_as, keep_connect, make_connect,
  onedrive_defaults,
}
use elastos_net_hive_native.Apps.Connecting.{ipfs_options, connect_unless, drop_connect}
use elastos_net_hive_native.Apps.Help.{help, exit_app, tell_usage, find_usage, usages}
use elastos_net_hive_native.Apps.Commands.Files.{
  put_file-Fine, get_length-Fine, get_file-Fine, delete_file-Fine, list_files-Fine, put_value-Fine,
  set_value-Fine, get_values-Fine, delete_key-Fine,
}
use elastos_net_hive_native.Apps.Commands.{commands, find_command, run_found, run_args}

module _ {W : Type 0} (os : Os W) (host : Host W) (methods : List (FactoryMethod W ConnectOptions))
    (client : HiveClient) (nodes : List IpfsNode) where
  general_ops-IsComplete : IsComplete (general_ops os)
  unfolding general_ops
  general_ops-IsComplete = record {
    has_put_file = refl;
    has_put_file_from_buffer = refl;
    has_get_file_length = refl;
    has_get_file = refl;
    has_get_file_to_buffer = refl;
  }

  ipfs_ops-IsComplete : IsComplete (ipfs_ops os host)
  unfolding ipfs_ops
  ipfs_ops-IsComplete = record {
    has_put_file = refl;
    has_put_file_from_buffer = refl;
    has_get_file_length = refl;
    has_get_file = refl;
    has_get_file_to_buffer = refl;
  }

  keep_connect-Fine :
      (ops : Ops W) (made : Option (HiveConnect W)) (s : Shell W)
      → IsComplete ops
      → IsReady s
      → Fine (keep_connect host ops made s)
  unfolding keep_connect
  keep_connect-Fine ops none s complete r = fine (env-IsReady _ r)
  keep_connect-Fine ops (some connect) s complete r = fine (joined ops refl complete)

  make_connect-Fine :
      (opts : ConnectOptions) (ops : Ops W) (s : Shell W)
      → IsComplete ops
      → IsReady s
      → Fine (make_connect os host methods client nodes opts ops s)
  make_connect-Fine opts ops s complete r = keep_connect-Fine ops _ _ complete (env-IsReady _ r)

  connect_as-Fine :
      (type : Bytes) (s : Shell W)
      → IsReady s
      → Fine (connect_as os host methods client nodes type s)
  unfolding connect_as
  connect_as-Fine type s r = elim (Bool-cases (str_eq type (codes "onedrive"))) [
    | inl onedrive ↦
        rw onedrive
          (make_connect-Fine onedrive_defaults (general_ops os) s general_ops-IsComplete r)
    | inr other ↦ elim (Bool-cases (str_eq type (codes "ipfs"))) [
      | inr unknown ↦ rw (other, unknown) (fine (env-IsReady _ r))
      | inl ipfs ↦ elim (Bool-cases (host.alloc (length nodes * 24) s.env.world).0) [
        | inr full ↦ rw (other, ipfs, full) (fine (env-IsReady _ r))
        | inl made ↦
            rw (other, ipfs, made)
              (make_connect-Fine (ipfs_options nodes) (ipfs_ops os host) _ ipfs_ops-IsComplete
                (env-IsReady _ r))
      ]
    ]
  ]

  connect_unless-Fine :
      (o : Option (HiveConnect W)) (type : Bytes) (s : Shell W)
      → IsReady s
      → Fine (connect_unless os host methods client nodes o type s)
  unfolding connect_unless
  connect_unless-Fine none type s r = connect_as-Fine type s r
  connect_unless-Fine (some connect) type s r = fine (env-IsReady _ r)

  client_connect-Fine :
      (args : List Bytes) (s : Shell W)
      → IsReady s
      → Fine (client_connect os host methods client nodes args s)
  unfolding client_connect
  client_connect-Fine (name ∷ type ∷ []) s r = connect_unless-Fine s.connect type s r
  client_connect-Fine [] s r = fine (env-IsReady _ r)
  client_connect-Fine (name ∷ []) s r = fine (env-IsReady _ r)
  client_connect-Fine (name ∷ a ∷ b ∷ more) s r = fine (env-IsReady _ r)

module _ {W : Type 0} (host : Host W) where
  drop_connect-Fine :
      (o : Option (HiveConnect W)) (s : Shell W) → IsReady s → Fine (drop_connect o s)
  unfolding drop_connect
  drop_connect-Fine none s r = fine r
  drop_connect-Fine (some connect) s r = fine (apart refl)

  disconnect-Fine : (args : List Bytes) (s : Shell W) → IsReady s → Fine (disconnect host args s)
  unfolding disconnect
  disconnect-Fine (name ∷ []) s r = drop_connect-Fine s.connect s r
  disconnect-Fine [] s r = fine (env-IsReady _ r)
  disconnect-Fine (name ∷ a ∷ more) s r = fine (env-IsReady _ r)

  tell_usage-Fine :
      (wanted : Bytes) (o : Option Bytes) (s : Shell W)
      → IsReady s
      → Fine (tell_usage host wanted o s)
  tell_usage-Fine wanted none s r = fine (env-IsReady _ r)
  tell_usage-Fine wanted (some usage) s r = fine (env-IsReady _ r)

  help-Fine : (args : List Bytes) (s : Shell W) → IsReady s → Fine (help host args s)
  unfolding help
  help-Fine (name ∷ wanted ∷ more) s r = tell_usage-Fine wanted (find_usage usages wanted) s r
  help-Fine [] s r = fine (env-IsReady _ r)
  help-Fine (name ∷ []) s r = fine (env-IsReady _ r)

  exit_app-Fine : (args : List Bytes) (s : Shell W) → IsReady s → Fine (exit_app args s)
  unfolding exit_app
  exit_app-Fine args s (apart h) = fine (apart h)
  exit_app-Fine args s (joined ops h c) = fine (joined ops h c)

  -- All commands of a table
  pub data AllFine : List (Bytes × (List Bytes → Run W)) → Type 0 where
    no_command : AllFine []
    command_more :
        {name : Bytes} {run : List Bytes → Run W} {rest : List (Bytes × (List Bytes → Run W))}
        → ((args : List Bytes) (s : Shell W) → IsReady s → Fine (run args s))
        → AllFine rest
        → AllFine ((name, run) ∷ rest)

  pub run_found-Fine :
      (table : List (Bytes × (List Bytes → Run W))) (wanted : Bytes) (args : List Bytes)
      (s : Shell W)
      → AllFine table
      → IsReady s
      → Fine (run_found host (find_command table wanted) args wanted s)
  unfolding find_command run_found
  run_found-Fine [] wanted args s all r = fine (env-IsReady _ r)
  run_found-Fine ((name, run) ∷ rest) wanted args s (command_more one all) r =
      elim (Bool-cases (str_eq wanted name)) [
        | inl same ↦ rw same (one args s r)
        | inr other ↦ rw other (run_found-Fine rest wanted args s all r)
      ]

module _ {W : Type 0} (os : Os W) (host : Host W) (facilities : List FacilityDesc)
    (methods : List (FactoryMethod W ConnectOptions)) (client : HiveClient)
    (nodes : List IpfsNode) where
  commands-AllFine : AllFine host (commands os host facilities methods client nodes)
  unfolding commands
  commands-AllFine =
      search
        (
          no_command,
          command_more,
          help-Fine host,
          client_connect-Fine os host methods client nodes,
          disconnect-Fine host,
          put_file-Fine host facilities,
          get_length-Fine host facilities,
          get_file-Fine host facilities,
          delete_file-Fine host facilities,
          list_files-Fine host facilities,
          put_value-Fine host facilities,
          set_value-Fine host facilities,
          get_values-Fine host facilities,
          delete_key-Fine host facilities,
          exit_app-Fine host,
        )
        depth 20

  pub run_args-Fine :
      (args : List Bytes) (s : Shell W)
      → IsReady s
      → Fine (run_args os host facilities methods client nodes (some args) s)
  unfolding run_args
  run_args-Fine [] s r = fine r
  run_args-Fine (wanted ∷ args) s r =
      run_found-Fine host (commands os host facilities methods client nodes) wanted (wanted ∷ args)
        s commands-AllFine r
