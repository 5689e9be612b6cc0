-- ===== src/Apps/Config.antt =====
-- apps/cmd/config.c: the configuration file, which libconfig reads.

pub mod Loaded
use elastos_net_hive_native.Base.{
  ℕ, ◌+◌, ◌*◌, Bool, true, false, not, ◌&&◌, ◌||◌, ◌==◌, leb, Bytes, codes, length, List, [], ◌∷◌,
  ◌++◌, Option, none, some, is_some, ℤ, pos, negsuc, is_zero, if◌then◌else◌,
}
use elastos_net_hive_native.Http.Step.{
  Res, ret, go, Step, ◌>>=◌, ◌>>◌, return_if, need, step, continue,
}
use elastos_net_hive_native.Ipfs.Options.{IpfsNode}
use elastos_net_hive_native.Onedrive.Values.{path_max}

-- `cmd_cfg_t`
pub record Config : Type 0 where
  pub loglevel : ℤ
  pub logfile : Option Bytes
  pub data_location : Option Bytes
  pub ipfs_rpc_nodes : List IpfsNode

-- libconfig, over its settings `C`, and the calls of the system.
pub record Libconfig (W C : Type 0) : Type 0 where
  -- config_read_file: the root, if the file was read
  pub read_file : Bytes → W → Option C × W
  -- config_lookup_int, config_lookup_string and config_lookup
  pub lookup_int : C → Bytes → Option ℤ
  pub lookup_string : C → Bytes → Option Bytes
  pub lookup : C → Bytes → Option C
  -- config_setting_is_list, and the elements that config_setting_length counts
  pub is_list : C → Bool
  pub elements : C → List C
  pub setting_string : C → Bytes → Option Bytes
  pub setting_int : C → Bytes → Option ℤ
  -- rc_zalloc and calloc
  pub alloc : ℕ → W → Bool × W
  pub strdup : Bytes → W → Option Bytes × W
  -- What `%s` prints of getenv("HOME"), and getcwd
  pub home : W → Bytes
  pub getcwd : W → Bytes
  -- %d
  pub decimal : ℤ → Bytes
  -- What the function comes to after a text was stored behind the end of its array
  pub overrun : W → Option Config × W

abbrev pub is_slash : ℕ → Bool
is_slash c = c == 47

abbrev pub has_slash : Bytes → Bool
has_slash [] = false
has_slash (c ∷ s) = is_slash c || has_slash s

-- What stands before the last slash; nothing, if there is none.
unfoldable pub before_slash : Bytes → Bytes
before_slash [] = []
before_slash (c ∷ s) = let rest = before_slash s in if has_slash s then c ∷ rest else []

abbrev pub below : Bytes → Bytes → Bytes
below [] path = path
below (c ∷ dir) path = (c ∷ dir) ++ codes "/" ++ path

module _ {W C : Type 0} (lib : Libconfig W C) where
  abbrev pub folder : Option Bytes → W → Bytes
  folder none w = lib.getcwd w
  folder (some ref) w = before_slash ref

  unfoldable pub qualified_path : Bytes → Option Bytes → W → Bytes
  unfolding before_slash
  qualified_path [] ref w = below (folder ref w) []
  qualified_path (c ∷ path) ref w =
      if is_slash c
      then c ∷ path
      else if c == 126
      then lib.home w ++ path
      else below (folder ref w) (c ∷ path)

  -- A text that is there and not empty is copied.
  unfoldable pub copied : Option Bytes → Step W (Option Bytes)
  copied none = continue none
  copied (some []) = continue none
  copied (some (c ∷ s)) = step (lib.strdup (c ∷ s))

  abbrev pub port_text : Option ℤ → Option Bytes
  port_text none = none
  port_text (some port) = if is_zero port then none else some (lib.decimal port)

  -- One round of the loop over the nodes; a return is that of NULL.
  unfoldable pub load_node : C → Step W IpfsNode
  unfolding copied
  load_node nd = do
    made ← step (lib.alloc 24)
    return_if (not made) (pos 0)
    ipv4 ← copied (lib.setting_string nd (codes "ipv4"))
    ipv6 ← copied (lib.setting_string nd (codes "ipv6"))
    return_if (not (is_some ipv4) && not (is_some ipv6)) (pos 0)
    port ← copied (port_text (lib.setting_int nd (codes "port")))
    continue (record { ipv4 = ipv4; ipv6 = ipv6; port = port })

  unfoldable pub load_nodes : List C → Step W (List IpfsNode)
  unfolding load_node
  load_nodes [] = continue []
  load_nodes (nd ∷ nds) = do node ← load_node nd; nodes ← load_nodes nds; continue (node ∷ nodes)

  abbrev pub or_default : Option ℤ → ℤ
  or_default none = pos 3
  or_default (some loglevel) = loglevel

  abbrev pub is_nil : {A : Type 0} → List A → Bool
  is_nil [] = true
  is_nil (x ∷ xs) = false

  -- The text is there and not empty.
  abbrev pub filled : Option Bytes → Option Bytes
  filled none = none
  filled (some []) = none
  filled (some (c ∷ s)) = some (c ∷ s)

  -- char path[PATH_MAX]; qualified_path(…). A path that is longer is stored behind the array's end.
  abbrev pub resolved : Bytes → Bytes → Step W Bytes
  unfolding qualified_path
  resolved text config_file w =
      let path = qualified_path text (some config_file) w in
      if leb path_max (length path) then (ret (negsuc 0), w) else (go path, w)

  unfoldable pub load_config_steps : Bytes → Step W Config
  unfolding load_nodes resolved
  load_config_steps config_file = do
    root ← step (lib.read_file config_file)
    root ← need root (pos 0)
    made ← step (lib.alloc 40)
    return_if (not made) (pos 0)
    logfile ← copied (lib.lookup_string root (codes "logfile"))
    text ← need (filled (lib.lookup_string root (codes "data_location"))) (pos 0)
    path ← resolved text config_file
    data_location ← step (lib.strdup path)
    rpc_nodes ← need (lib.lookup root (codes "ipfs_rpc_nodes")) (pos 0)
    return_if (not (lib.is_list rpc_nodes)) (pos 0)
    return_if (is_nil (lib.elements rpc_nodes)) (pos 0)
    made ← step (lib.alloc (length (lib.elements rpc_nodes) * 8))
    return_if (not made) (pos 0)
    nodes ← load_nodes (lib.elements rpc_nodes)
    continue (record {
      loglevel = or_default (lib.lookup_int root (codes "loglevel"));
      logfile = logfile;
      data_location = data_location;
      ipfs_rpc_nodes = nodes;
    })

  -- A return before the end is that of NULL, or that of an overrun.
  abbrev pub or_null : Res Config × W → Option Config × W
  or_null (ret (pos n), w) = (none, w)
  or_null (ret (negsuc n), w) = lib.overrun w
  or_null (go config, w) = (some config, w)

  -- `none` is NULL.
  unfoldable pub load_config : Bytes → W → Option Config × W
  unfolding load_config_steps
  load_config config_file w = or_null (load_config_steps config_file w)
