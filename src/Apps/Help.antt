-- ===== src/Apps/Help.antt =====
-- The commands of apps/cmd/cmd.c that tell what there is and that end the program.
use elastos_net_hive_native.Base.{
  true, Bytes, codes, str_eq, List, [], ◌∷◌, ◌++◌, Option, none, some, if◌then◌else◌,
}
use elastos_net_hive_native.Apps.Ops.{Host}
use elastos_net_hive_native.Apps.Shell.{◌>>◌, say, Run}

-- The names of `commands` with their usage
unfoldable pub usages : List (Bytes × Bytes)
usages =
    (codes "help", codes "help [cmd]")
    ∷ (codes "connect", codes "connect type")
    ∷ (codes "disconnect", codes "disconnect")
    ∷ (codes "put_file", codes "put_file {string | < file} [to]")
    ∷ (codes "get_len", codes "get_len file")
    ∷ (codes "get_file", codes "get_file {file | cid} [to]")
    ∷ (codes "del_file", codes "del_file file")
    ∷ (codes "ls", codes "ls")
    ∷ (codes "put_val", codes "put_val key value")
    ∷ (codes "set_val", codes "set_val key value")
    ∷ (codes "get_val", codes "get_val key")
    ∷ (codes "del_key", codes "del_key key")
    ∷ (codes "exit", codes "exit")
    ∷ []

-- Each name with a blank behind it
unfoldable pub name_line : List (Bytes × Bytes) → Bytes
name_line [] = []
name_line ((name, usage) ∷ rest) = name ++ codes " " ++ name_line rest

unfoldable pub find_usage : List (Bytes × Bytes) → Bytes → Option Bytes
find_usage [] wanted = none
find_usage ((name, usage) ∷ rest) wanted =
    if str_eq wanted name then some usage else find_usage rest wanted

module _ {W : Type 0} (host : Host W) where
  abbrev pub tell_usage : Bytes → Option Bytes → Run W
  tell_usage wanted none = say host (codes "unknown command: %s\n") (some wanted ∷ [])
  tell_usage wanted (some usage) = say host (codes "usage: %s") (some usage ∷ [])

  unfoldable pub help : List Bytes → Run W
  unfolding usages name_line find_usage
  help (name ∷ wanted ∷ rest) = tell_usage wanted (find_usage usages wanted)
  help _ = do
    say host (codes "available commands list:") []
    say host (codes "  %s") (some (name_line usages) ∷ [])

unfoldable pub exit_app : {W : Type 0} → List Bytes → Run W
exit_app args s = some (tt, record s { stop = true })
