-- ===== src/Apps/Commands.antt =====
-- The table of the commands of apps/cmd/cmd.c, and the loop that runs them.
pub mod Files
pub mod Table
pub mod Loop
use elastos_net_hive_native.Base.{
  ℕ, zero, suc, Bytes, codes, str_eq, List, [], ◌∷◌, Option, none, some, if◌then◌else◌,
}
use elastos_net_hive_native.Error.Strerror.{FacilityDesc}
use elastos_net_hive_native.Api.Os.{Os}
use elastos_net_hive_native.Ipfs.Options.{IpfsNode}
use elastos_net_hive_native.Client.Object.{HiveClient, FactoryMethod}
use elastos_net_hive_native.Apps.Line.{Input, line, end, overrun, read_cmd, split_line}
use elastos_net_hive_native.Apps.Ops.{Host}
use elastos_net_hive_native.Apps.Shell.{Shell, done, fault, say, Run}
use elastos_net_hive_native.Apps.Connecting.{ConnectOptions, client_connect, disconnect}
use elastos_net_hive_native.Apps.Files.{put_file, get_length, get_file, delete_file, list_files}
use elastos_net_hive_native.Apps.Values.{put_value, set_value, get_values, delete_key}
use elastos_net_hive_native.Apps.Help.{help, exit_app}

unfoldable pub find_command :
    {W : Type 0} → List (Bytes × (List Bytes → Run W)) → Bytes → Option (List Bytes → Run W)
find_command [] wanted = none
find_command ((name, run) ∷ rest) wanted =
    if str_eq wanted name then some run else find_command rest wanted

unfoldable pub run_found :
    {W : Type 0} → Host W → Option (List Bytes → Run W) → List Bytes → Bytes → Run W
run_found host none args wanted = say host (codes "unknown command: %s") (some wanted ∷ [])
run_found host (some run) args wanted = run args

-- if (cmd_ctx.stop) break;
abbrev pub unless_stopped :
    {W : Type 0} → Run W → Option (Unit {0} × Shell W) → Option (Unit {0} × Shell W)
unless_stopped next none = none
unless_stopped next (some (u, s)) = if s.stop then some (u, s) else next s

module _ {W : Type 0} (os : Os W) (host : Host W) (facilities : List FacilityDesc)
    (methods : List (FactoryMethod W ConnectOptions)) (client : HiveClient)
    (nodes : List IpfsNode) where
  unfoldable pub commands : List (Bytes × (List Bytes → Run W))
  unfolding help client_connect disconnect put_file get_length get_file delete_file list_files
      put_value set_value get_values delete_key exit_app
  commands =
      (codes "help", help host)
      ∷ (codes "connect", client_connect os host methods client nodes)
      ∷ (codes "disconnect", disconnect host)
      ∷ (codes "put_file", put_file host facilities)
      ∷ (codes "get_len", get_length host facilities)
      ∷ (codes "get_file", get_file host facilities)
      ∷ (codes "del_file", delete_file host facilities)
      ∷ (codes "ls", list_files host facilities)
      ∷ (codes "put_val", put_value host facilities)
      ∷ (codes "set_val", set_value host facilities)
      ∷ (codes "get_val", get_values host facilities)
      ∷ (codes "del_key", delete_key host facilities)
      ∷ (codes "exit", exit_app)
      ∷ []

  unfoldable pub run_args : Option (List Bytes) → Run W
  unfolding commands find_command run_found
  run_args none = fault
  run_args (some []) = done
  run_args (some (wanted ∷ args)) =
      run_found host (find_command commands wanted) (wanted ∷ args) wanted

  unfoldable pub do_cmd : Bytes → Run W
  unfolding split_line run_args
  do_cmd text = run_args (split_line text)

  -- A round of the loop of `main`, without its prompts
  abbrev pub after_read : (Bytes → Run W) → Input → Run W
  after_read next end s = done s
  after_read next overrun s = none
  after_read next (line text rest) s = unless_stopped (next rest) (do_cmd text s)

  -- The fuel is spent by a round.
  unfoldable pub main_loop : ℕ → Bytes → Run W
  unfolding do_cmd read_cmd
  main_loop zero input s = none
  main_loop (suc fuel) input s = after_read (main_loop fuel) (read_cmd input) s
