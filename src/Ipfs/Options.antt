-- ===== src/Ipfs/Options.antt =====
-- `ipfs_client_connect` of src/vendors/ipfs/ipfs.c: the check of the nodes that a connection is given.
use elastos_net_hive_native.Base.{
  ℕ, Bool, true, false, not, ◌&&◌, ◌||◌, leb, Bytes, length, List, [], ◌∷◌, Option, none, some, ℤ,
  pos, negsuc, if◌then◌else◌,
}
use elastos_net_hive_native.Http.Client.{Net}
use elastos_net_hive_native.Ipfs.Rpc.{RpcNode, Rpc, ipfs_rpc_new, is_empty}

-- A node of the options: its texts may be NULL.
pub record IpfsNode : Type 0 where
  pub ipv4 : Option Bytes
  pub ipv6 : Option Bytes
  pub port : Option Bytes

-- inet_pton(family, address, …) > 0, and strtol(text, &end, 10) with the text that is left.
pub record Addresses : Type 0 where
  pub is_valid_ip : Bytes → Bool
  pub is_valid_ipv6 : Bytes → Bool
  pub strtol : Bytes → ℤ × Bytes

-- sizeof(node_options->ipv4), sizeof(node_options->ipv6)
abbrev pub ipv4_size : ℕ
ipv4_size = 16

abbrev pub ipv6_size : ℕ
ipv6_size = 48

-- A text that is NULL has the length 0.
abbrev pub text_or_empty : Option Bytes → Bytes
text_or_empty none = []
text_or_empty (some text) = text

-- An address that is given has to fit and to be valid.
abbrev pub address_fits : ℕ → (Bytes → Bool) → Bytes → Bool
address_fits size is_valid address =
    is_empty address || not (leb size (length address)) && is_valid address

abbrev pub port_number : ℤ → Bytes → Option ℕ
port_number (negsuc n) left = none
port_number (pos n) left = if is_empty left && leb 1 n && leb n 65535 then some n else none

module _ (addresses : Addresses) where
  abbrev pub check_port : Option Bytes → Option ℕ
  check_port none = none
  check_port (some text) =
      if is_empty text
      then none
      else let (number, left) = addresses.strtol text in port_number number left

  abbrev pub addresses_fit : Bytes → Bytes → Bool
  addresses_fit ipv4 ipv6 =
      not (is_empty ipv4 && is_empty ipv6)
      && address_fits ipv4_size addresses.is_valid_ip ipv4
      && address_fits ipv6_size addresses.is_valid_ipv6 ipv6

  -- One round of the loop; `none` is a return of NULL.
  unfoldable pub check_node : IpfsNode → Option RpcNode
  check_node node =
      let ipv4 = text_or_empty node.ipv4 in
      let ipv6 = text_or_empty node.ipv6 in
      if addresses_fit ipv4 ipv6
      then elim (check_port node.port) [
        | none ↦ none
        | some port ↦ some (record { ipv4 = ipv4; ipv6 = ipv6; port = port })
      ]
      else none

  unfoldable pub check_nodes : List IpfsNode → Option (List RpcNode)
  unfolding check_node
  check_nodes [] = some []
  check_nodes (node ∷ nodes) = elim (check_node node) [
    | none ↦ none
    | some checked ↦ elim (check_nodes nodes) [ none ↦ none | some rest ↦ some (checked ∷ rest) ]
  ]

module _ {W J : Type 0} (net : Net W J) (addresses : Addresses) where
  abbrev pub new_rpc : Bool → Option (List RpcNode) → W → Option Rpc × W
  new_rpc allocated none w = (none, w)
  new_rpc allocated (some nodes) w =
      let ((rc, rpc), w') = ipfs_rpc_new net allocated nodes w in (rpc, w')

  abbrev pub is_nil : List IpfsNode → Bool
  is_nil [] = true
  is_nil (node ∷ nodes) = false

  -- The state of the new connection, or NULL. The two flags are the answers of `rc_zalloc` for the
  -- connection and for its `rpc`.
  unfoldable pub ipfs_client_connect : Bool → Bool → List IpfsNode → W → Option Rpc × W
  unfolding check_nodes ipfs_rpc_new
  ipfs_client_connect made allocated nodes w =
      if is_nil nodes
      then (none, w)
      else if made
      then new_rpc allocated (check_nodes addresses nodes) w
      else (none, w)
