-- ===== src/Apps/Config/Loaded.antt =====
-- What a configuration that load_config of apps/cmd/config.c returns holds.
use mathlib.Core.Path.{subst}
use mathlib.Core.Option.{some-injective}
use elastos_net_hive_native.Base.{
  leb, suc, ◌*◌, ◌≤◌, ◌≡◌, refl, ap, Bool, true, false, not, ◌&&◌, ◌||◌, Bytes, codes, length, List,
  [], ◌∷◌, Option, none, some, is_some, pos, negsuc, arith,
}
use elastos_net_hive_native.Http.Step.{Res, ret, go, Step, need, return_if}
use elastos_net_hive_native.Http.Ensures.{
  After, ended, goes_on, follow-After, return_if-After, need_after-After,
}
use elastos_net_hive_native.Ipfs.Rpc.{is_empty}
use elastos_net_hive_native.Ipfs.Options.{IpfsNode}
use elastos_net_hive_native.Onedrive.Values.{path_max}
use elastos_net_hive_native.Apps.Config.{
  Libconfig, Config, copied, port_text, load_node, load_nodes, load_config_steps, load_config,
  or_null, filled, resolved, is_nil, qualified_path,
}

-- A text is NULL or not empty.
abbrev pub Filled : Option Bytes → Type 0
Filled none = Unit {0}
Filled (some text) = is_empty text ≡ false

-- A node has an address, and none of its texts is empty.
pub record Located (node : IpfsNode) : Type 0 where
  pub ipv4_filled : Filled node.ipv4
  pub ipv6_filled : Filled node.ipv6
  pub port_filled : Filled node.port
  pub some_address : (is_some node.ipv4 || is_some node.ipv6) ≡ true

pub data AreLocated : List IpfsNode → Type 0 where
  no_node : AreLocated []
  node_more :
      {node : IpfsNode} {nodes : List IpfsNode}
      → Located node
      → AreLocated nodes
      → AreLocated (node ∷ nodes)

abbrev Whatever : {A : Type 0} → A → Type 0
Whatever a = Unit {0}

-- There is a node, all nodes have an address, and the name of the log file is not empty.
abbrev pub Loaded : Config → Type 0
Loaded config =
    AreLocated config.ipfs_rpc_nodes × (1 ≤ length config.ipfs_rpc_nodes) × Filled config.logfile

module _ {W C : Type 0} (lib : Libconfig W C)
    -- strdup gives a copy, if it gives anything.
    (copies : (text copy : Bytes) (w : W) → (lib.strdup text w).0 ≡ some copy → copy ≡ text) where
  -- What a step goes on with has `Q`.
  abbrev Gives : {A : Type 0} → Step W A → (A → Type 0) → Type 0
  Gives m Q = (w : W) → After (λ a w'. Q a) (λ r w'. r ≡ pos 0) (m w)

  copied-Filled : (o : Option Bytes) → Gives (copied lib o) Filled
  unfolding copied
  copied-Filled none w = goes_on tt
  copied-Filled (some []) w = goes_on tt
  copied-Filled (some (c ∷ s)) w = goes_on (fits (lib.strdup (c ∷ s) w).0 refl)
    where
      fits : (o : Option Bytes) → (lib.strdup (c ∷ s) w).0 ≡ o → Filled o
      fits none e = tt
      fits (some copy) e = ap is_empty (copies (c ∷ s) copy w e)

  Gives-if : (test : Bool) → Gives (return_if test (pos 0)) (λ u. test ≡ false)
  Gives-if test w = return_if-After test (pos 0) w (λ e. refl) (λ e. e)

  Gives-need : {A : Type 0} (o : Option A) → Gives (need o (pos 0)) (λ a. o ≡ some a)
  Gives-need o w = need_after-After o (λ w'. w') (pos 0) w refl (λ a e. e)

  load_node-Located : (nd : C) → Gives (load_node lib nd) Located
  unfolding load_node
  load_node-Located nd w = follow-After _ _ (Gives-if (not (lib.alloc 24 w).0) _) λ u w1 e.
      follow-After _ _ (copied-Filled (lib.setting_string nd (codes "ipv4")) w1) λ ipv4 w2 f4.
        follow-After _ _ (copied-Filled (lib.setting_string nd (codes "ipv6")) w2) λ ipv6 w3 f6.
          follow-After _ _ (Gives-if (not (is_some ipv4) && not (is_some ipv6)) w3) λ u3 w4 there.
            follow-After _ _ (copied-Filled (port_text lib (lib.setting_int nd (codes "port"))) w4)
              λ port w5 f. goes_on (record {
                ipv4_filled = f4;
                ipv6_filled = f6;
                port_filled = f;
                some_address = ground (arith, there);
              })

  load_nodes-AreLocated :
      (nds : List C)
      → Gives (load_nodes lib nds) (λ nodes. AreLocated nodes × (length nodes ≡ length nds))
  unfolding load_nodes
  load_nodes-AreLocated [] w = goes_on (no_node, refl)
  load_nodes-AreLocated (nd ∷ nds) w = follow-After _ _ (load_node-Located nd w) λ node w1 located.
      follow-After _ _ (load_nodes-AreLocated nds w1)
        λ nodes w2 (all, size). goes_on (node_more located all, ap suc size)

  filled-eq : (o : Option Bytes) (text : Bytes) → filled lib o ≡ some text → o ≡ some text
  filled-eq none text e = absurd (cc e)
  filled-eq (some []) text e = absurd (cc e)
  filled-eq (some (c ∷ s)) text e = e

  -- The path that the file of this name gives for its data has less than PATH_MAX bytes, wherever the
  -- process runs.
  abbrev pub Fits : Bytes → W → Type 0
  Fits config_file w =
      (root : C) (text : Bytes) (w' : W)
      → (lib.read_file config_file w).0 ≡ some root
      → lib.lookup_string root (codes "data_location") ≡ some text
      → leb path_max (length (qualified_path lib text (some config_file) w')) ≡ false

  load_config_steps-Loaded :
      (config_file : Bytes) (w : W)
      → Fits config_file w
      → After (λ a w'. Loaded a) (λ r w'. r ≡ pos 0) (load_config_steps lib config_file w)
  unfolding load_config_steps
  load_config_steps-Loaded config_file w fits =
      follow-After _ _ (Gives-need (lib.read_file config_file w).0 _) λ root w1 e.
        follow-After _ _ (Gives-if (not (lib.alloc 40 w1).0) _) λ u2 w2 u3.
          follow-After _ _ (copied-Filled (lib.lookup_string root (codes "logfile")) w2)
            λ logfile w3 f.
              follow-After _ _
                (Gives-need (filled lib (lib.lookup_string root (codes "data_location"))) w3)
                λ text w4 e1. follow-After _ _ (resolved-Gives root text e e1 w4) λ path w5 u4.
                  follow-After _ _ (Gives-need (lib.lookup root (codes "ipfs_rpc_nodes")) _)
                    λ rpc_nodes w6 e2.
                      follow-After _ _ (Gives-if (not (lib.is_list rpc_nodes)) w6) λ u6 w7 u7.
                        follow-After _ _ (Gives-if (is_nil lib (lib.elements rpc_nodes)) w7)
                          λ u8 w8 some_node.
                            follow-After _ _
                              (Gives-if (not (lib.alloc (length (lib.elements rpc_nodes) * 8) w8).0)
                                _)
                              λ v1 w9 v2.
                                follow-After _ _ (load_nodes-AreLocated (lib.elements rpc_nodes) w9)
                                  λ nodes w10 (all, size). goes_on (
                                    all,
                                    omega (arith, size, one-le (lib.elements rpc_nodes) some_node),
                                    f,
                                  )
    where
      one-le : (nds : List C) → is_nil lib nds ≡ false → 1 ≤ length nds
      one-le [] h = absurd (cc h)
      one-le (nd ∷ nds) h = omega arith

      resolved-Gives :
          (root : C) (text : Bytes)
          → (lib.read_file config_file w).0 ≡ some root
          → filled lib (lib.lookup_string root (codes "data_location")) ≡ some text
          → Gives (resolved lib text config_file) Whatever
      resolved-Gives root text is_root is_text w' =
          rw (fits root text w' is_root (filled-eq _ text is_text)) (goes_on tt)

  or_null-Loaded :
      (x : Res Config × W) (config : Config)
      → After (λ a w. Loaded a) (λ r w. r ≡ pos 0) x
      → (or_null lib x).0 ≡ some config
      → Loaded config
  or_null-Loaded (ret (pos n), w) config after e = absurd (cc e)
  or_null-Loaded (ret (negsuc n), w) config (ended none_left) e = absurd (cc none_left)
  or_null-Loaded (go a, w) config (goes_on loaded) e =
      subst Loaded (some-injective a config e) loaded

  -- Where the path of the file's data_location fits into PATH_MAX bytes: a configuration that
  -- `load_config` returns has a node, each of its nodes has an address, and no address, port or name of
  -- a log file in it is empty; strdup is assumed to give copies.
  pub load_config-Loaded :
      (config_file : Bytes) (w : W) (config : Config)
      → Fits config_file w
      → (load_config lib config_file w).0 ≡ some config
      → Loaded config
  unfolding load_config
  load_config-Loaded config_file w config fits =
      or_null-Loaded (load_config_steps lib config_file w) config
        (load_config_steps-Loaded config_file w fits)
