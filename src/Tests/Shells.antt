-- ===== src/Tests/Shells.antt =====
-- What is typed to the command line, with a backend that lists the values that it is given.
use mathlib.Core.Option.{some-injective}
use elastos_net_hive_native.Apps.Config.{
  Libconfig, Config, load_config, qualified_path, before_slash,
}
use elastos_net_hive_native.Onedrive.Values.{path_max}
use mathlib.Core.Path.{subst}
use elastos_net_hive_native.Apps.Config.Loaded.{Loaded, load_config-Loaded}
use elastos_net_hive_native.Base.{
  leb, sym, ℕ, ◌≡◌, refl, Bool, true, false, Bytes, codes, length, List, [], ◌∷◌, ◌++◌, Option,
  none, some, ℤ, pos, negsuc, arith,
}
use elastos_net_hive_native.Api.Connect.{Action, HiveConnect}
use elastos_net_hive_native.Api.Os.{Os}
use elastos_net_hive_native.Client.Object.{HiveClient, FactoryMethod, hive_client_connect}
use elastos_net_hive_native.Api.Key.{hive_put_value}
use elastos_net_hive_native.Apps.Line.Typed.{Typed, read_cmd-Typed}
use elastos_net_hive_native.Apps.Ops.{Host, general_ops}
use elastos_net_hive_native.Apps.Shell.{Shell, told}
use elastos_net_hive_native.Apps.Fine.{apart, Fine}
use elastos_net_hive_native.Apps.Connecting.{
  ConnectOptions, client_connect, connect_unless, connect_as, keep_connect,
}
use elastos_net_hive_native.Apps.Values.{put_value}
use elastos_net_hive_native.Apps.Help.{exit_app}
use elastos_net_hive_native.Apps.Commands.{main_loop, run_args}
use elastos_net_hive_native.Apps.Commands.Loop.{typed_input, run_lines, main_loop-Typed}

-- No system call is made here.
abbrev idle : Os (List Bytes)
idle = record {
  open_read = λ path w. (negsuc 0, w);
  create_new = λ path w. (negsuc 0, w);
  seek_end = λ fd w. (pos 0, w);
  seek_start = λ fd w. w;
  calloc = λ size w. (none, w);
  free = λ a w. w;
  read = λ fd size w. ((pos 0, []), w);
  write = λ fd bytes size w. (pos size, w);
  close = λ fd w. w;
  unlink = λ path w. w;
  errno = λ w. 0;
  null_call = λ w. ((negsuc 0, []), w);
}

abbrev screen : Host (List Bytes)
screen = record {
  print = λ format args w. w;
  alloc = λ size w. (true, w);
  decimal = λ z. codes "0";
}

abbrev keep_value : Bytes → Bytes → ℕ → Bool → Action (List Bytes) ℤ
keep_value key value length encrypt e = (pos 0, record e { world = value ∷ e.world })

abbrev keeper : HiveConnect (List Bytes)
keeper = record {
  put_file_from_buffer = none;
  get_file_length = none;
  get_file_to_buffer = none;
  list_files = none;
  delete_file = none;
  ipfs_put_file_from_buffer = none;
  ipfs_get_file_length = none;
  ipfs_get_file_to_buffer = none;
  put_value = some keep_value;
  set_value = some keep_value;
  get_values = none;
  delete_key = none;
  disconnect = none;
  expire_token = none;
}

abbrev makers : List (FactoryMethod (List Bytes) ConnectOptions)
makers = record { backend_type = 0x10; connect = λ client opts e. (some keeper, e) } ∷ []

abbrev user : HiveClient
user = record { data_location = codes "/home/me" }

abbrev at_start : Shell (List Bytes)
at_start = record {
  connect = none;
  ops = none;
  stop = false;
  env = record { hive_error = pos 0; world = [] };
}

abbrev lines : List Bytes
lines =
    codes "connect onedrive"
    ∷ codes "  put_val  k v "
    ∷ codes "  "
    ∷ codes "exit"
    ∷ codes "put_val k w"
    ∷ []

-- The value that is kept after the lines
abbrev kept : Option (Unit {0} × Shell (List Bytes)) → List Bytes
kept none = []
kept (some (u, s)) = s.env.world

value_kept :
    kept (main_loop idle screen [] makers user [] 6 (typed_input lines) at_start)
    ≡ (codes "v" ++ 0 ∷ []) ∷ []
unfolding main_loop run_args client_connect connect_unless connect_as keep_connect put_value told
    exit_app general_ops hive_client_connect hive_put_value
value_kept = refl

read_cmd-Typed_example : Typed (codes "  put_val  k v ") (codes "exit")
read_cmd-Typed_example = read_cmd-Typed (codes "  put_val  k v ") (codes "exit") refl (omega arith)

main_loop-Typed_example :
    (main_loop idle screen [] makers user [] 6 (typed_input lines) at_start
      ≡ run_lines idle screen [] makers user [] lines at_start)
    × Fine (main_loop idle screen [] makers user [] 6 (typed_input lines) at_start)
main_loop-Typed_example =
    main_loop-Typed idle screen [] makers user [] lines at_start 6 (ground arith) (omega arith) refl
      (apart refl)

-- A file with one node; what is set is nothing else.
abbrev one_node : Libconfig (Unit {0}) (Unit {0})
one_node = record {
  read_file = λ path w. (some tt, w);
  lookup_int = λ c name. none;
  lookup_string = λ c name. some (codes "log");
  lookup = λ c name. some tt;
  is_list = λ c. true;
  elements = λ c. tt ∷ [];
  setting_string = λ c name. some (codes "1.2.3.4");
  setting_int = λ c name. some (pos 5001);
  alloc = λ size w. (true, w);
  strdup = λ text w. (some text, w);
  home = λ w. codes "/home/me";
  getcwd = λ w. codes "/";
  decimal = λ z. codes "5001";
  overrun = λ w. (none, w);
}

abbrev loaded_file : Config
loaded_file = record {
  loglevel = pos 3;
  logfile = some (codes "log");
  data_location = some (codes "/etc/log");
  ipfs_rpc_nodes =
      record {
        ipv4 = some (codes "1.2.3.4");
        ipv6 = some (codes "1.2.3.4");
        port = some (codes "5001");
      }
      ∷ [];
}

location_fits :
    (root : Unit {0}) (text : Bytes) (w : Unit {0})
    → some root ≡ some tt
    → some (codes "log") ≡ some text
    → leb path_max (length (qualified_path one_node text (some (codes "/etc/hive.conf")) w)) ≡ false
unfolding qualified_path before_slash
location_fits root text w is_root is_log =
    subst
      (λ (text : Bytes).
        leb path_max (length (qualified_path one_node text (some (codes "/etc/hive.conf")) w))
        ≡ false)
      (some-injective (codes "log") text is_log) refl

load_config-Loaded_example : Loaded loaded_file
unfolding load_config
load_config-Loaded_example =
    load_config-Loaded one_node (λ text copy w e. sym (some-injective text copy e))
      (codes "/etc/hive.conf") tt loaded_file location_fits refl
