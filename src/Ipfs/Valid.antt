-- ===== src/Ipfs/Valid.antt =====
-- A connection that `ipfs_client_connect` of src/vendors/ipfs/ipfs.c returns has checked nodes only.
use mathlib.Core.Path.{subst}
use mathlib.Core.Option.{some-injective}
use elastos_net_hive_native.Base.{
  ℕ, zero, suc, ◌≤◌, ◌<◌, ◌≡◌, ◌⊎◌, inl, inr, refl, sym, ap, ◌∙◌, Bool, true, false, ◌&&◌, leb,
  Bytes, length, List, [], ◌∷◌, Option, none, some, get_elem?, ℤ, pos, negsuc, Bool-cases,
  Option-cases, arith,
}
use elastos_net_hive_native.Http.Client.{Net}
use elastos_net_hive_native.Ipfs.Rpc.{RpcNode, Rpc, ipfs_rpc_new, is_empty}
use elastos_net_hive_native.Ipfs.Node.{ipfs_rpc_new-Configured}
use elastos_net_hive_native.Ipfs.Options.{
  IpfsNode, Addresses, text_or_empty, addresses_fit, port_number, check_port, check_node,
  check_nodes, ipfs_client_connect, new_rpc,
}

module _ (addresses : Addresses) where
  -- An address that is given is valid and fits; one is given; the port is one of TCP.
  pub record ValidNode (node : RpcNode) : Type 0 where
    pub some_address : (is_empty node.ipv4 && is_empty node.ipv6) ≡ false
    pub ipv4_valid :
        is_empty node.ipv4 ≡ false
        → (length node.ipv4 < 16) × (addresses.is_valid_ip node.ipv4 ≡ true)
    pub ipv6_valid :
        is_empty node.ipv6 ≡ false
        → (length node.ipv6 < 48) × (addresses.is_valid_ipv6 node.ipv6 ≡ true)
    pub port_valid : (1 ≤ node.port) × (node.port ≤ 65535)

  pub data AreValid : List RpcNode → Type 0 where
    no_nodes : AreValid []
    node_more :
        {node : RpcNode} {nodes : List RpcNode}
        → ValidNode node
        → AreValid nodes
        → AreValid (node ∷ nodes)

  port_number-bounds :
      (z : ℤ) (left : Bytes) (n : ℕ) → port_number z left ≡ some n → (1 ≤ n) × (n ≤ 65535)
  port_number-bounds (negsuc m) left n h = absurd (cc h)
  port_number-bounds (pos m) left n h =
      elim (Bool-cases (is_empty left && leb 1 m && leb m 65535)) [
        | inl good ↦
            subst (λ (k : ℕ). (1 ≤ k) × (k ≤ 65535)) (some-injective m n (rw good at h))
              (ground (arith, good))
        | inr bad ↦ absurd (cc (rw bad at h))
      ]

  check_port-bounds :
      (port : Option Bytes) (n : ℕ) → check_port addresses port ≡ some n → (1 ≤ n) × (n ≤ 65535)
  check_port-bounds none n h = absurd (cc h)
  check_port-bounds (some text) n h = elim (Bool-cases (is_empty text)) [
    | inl empty ↦ absurd (cc (rw empty at h))
    | inr given ↦
        let (number, left) = addresses.strtol text in
        port_number-bounds number left n (rw given at h)
  ]

  check_node-ValidNode :
      (node : IpfsNode) (checked : RpcNode)
      → check_node addresses node ≡ some checked
      → ValidNode checked
  unfolding check_node
  check_node-ValidNode node checked h =
      let v4 = text_or_empty node.ipv4 in
      let v6 = text_or_empty node.ipv6 in
      elim (Bool-cases (addresses_fit addresses v4 v6)) [
        | inr bad ↦ absurd (cc (rw bad at h))
        | inl good ↦ elim (Option-cases (check_port addresses node.port)) [
          | inl no_port ↦ absurd (cc (rw (good, no_port) at h))
          | inr (port, is_port) ↦
              let valid : ValidNode (record { ipv4 = v4; ipv6 = v6; port = port }) = record {
                some_address = ground (arith, good);
                ipv4_valid = λ given. ground (arith, good, given);
                ipv6_valid = λ given. ground (arith, good, given);
                port_valid = check_port-bounds node.port port is_port;
              } in
              subst ValidNode (some-injective _ checked (rw (good, is_port) at h)) valid
        ]
      ]

  check_nodes-AreValid :
      (nodes : List IpfsNode) (checked : List RpcNode)
      → check_nodes addresses nodes ≡ some checked
      → AreValid checked × (length checked ≡ length nodes)
  unfolding check_nodes
  check_nodes-AreValid [] checked h =
      subst (λ (c : List RpcNode). AreValid c × (length c ≡ 0)) (some-injective [] checked h)
        (no_nodes, refl)
  check_nodes-AreValid (node ∷ nodes) checked h = elim (Option-cases (check_node addresses node)) [
    | inl bad ↦ absurd (cc (rw (check_nodes, bad) at h))
    | inr (first, is_first) ↦ elim (Option-cases (check_nodes addresses nodes)) [
      | inl bad ↦ absurd (cc (rw (check_nodes, is_first, bad) at h))
      | inr (rest, are_rest) ↦
          let (valid, size) = check_nodes-AreValid nodes rest are_rest in
          let all = node_more (check_node-ValidNode node first is_first) valid in
          subst (λ (c : List RpcNode). AreValid c × (length c ≡ suc (length nodes)))
            (some-injective (first ∷ rest) checked (rw (check_nodes, is_first, are_rest) at h))
            (all, ap suc size)
    ]
  ]

  -- A node of a list of valid nodes
  get-AreValid :
      (nodes : List RpcNode) (i : ℕ) (node : RpcNode)
      → AreValid nodes
      → get_elem? nodes i ≡ some node
      → ValidNode node
  get-AreValid [] i node valid h = absurd (cc h)
  get-AreValid (first ∷ nodes) zero node (node_more v valid) h =
      subst ValidNode (some-injective first node h) v
  get-AreValid (first ∷ nodes) (suc i) node (node_more v valid) h =
      get-AreValid nodes i node valid h

module _ {W J : Type 0} (net : Net W J) (addresses : Addresses) where
  -- A valid node whose address and port are in use
  abbrev pub UsesValid : Rpc → Type 0
  UsesValid rpc =
      (node : RpcNode) × ValidNode addresses node
      × ((rpc.current_node_ip ≡ node.ipv4) ⊎ (rpc.current_node_ip ≡ node.ipv6))
      × (rpc.current_node_port ≡ node.port)
      × (is_empty rpc.current_node_ip ≡ false)

  new_rpc-Valid :
      (allocated : Bool) (options : List IpfsNode) (o : Option (List RpcNode)) (w : W) (rpc : Rpc)
      → check_nodes addresses options ≡ o
      → (new_rpc net addresses allocated o w).0 ≡ some rpc
      → AreValid addresses rpc.rpc_nodes × (length rpc.rpc_nodes ≡ length options) × UsesValid rpc
  unfolding ipfs_rpc_new
  new_rpc-Valid allocated options none w rpc h e = absurd (cc e)
  new_rpc-Valid false options (some nodes) w rpc h e = absurd (cc e)
  new_rpc-Valid true options (some nodes) w rpc h e =
      let (same, (i, node, at_i, ip, port, there)) = ipfs_rpc_new-Configured net nodes w rpc e in
      let (valid, size) = check_nodes-AreValid addresses options nodes h in
      let valid' : AreValid addresses rpc.rpc_nodes = subst (AreValid addresses) (sym same) valid in
      (
        valid',
        ap (λ (ns : List RpcNode). length ns) same ∙ size,
        (node, get-AreValid addresses nodes i node valid at_i, ip, port, there),
      )

  -- The connection that `ipfs_client_connect` returns has as many nodes as its options, and all are
  -- valid: an address that is given fits and is accepted by inet_pton, one of the two is given, and
  -- the port is from 1 to 65535. The address in use is not
  -- empty, and it and the port in use are those of such a node.
  pub ipfs_client_connect-Valid :
      (made allocated : Bool) (options : List IpfsNode) (w : W) (rpc : Rpc)
      → (ipfs_client_connect net addresses made allocated options w).0 ≡ some rpc
      → AreValid addresses rpc.rpc_nodes × (length rpc.rpc_nodes ≡ length options) × UsesValid rpc
  unfolding ipfs_client_connect
  ipfs_client_connect-Valid made allocated [] w rpc e = absurd (cc e)
  ipfs_client_connect-Valid false allocated (node ∷ nodes) w rpc e = absurd (cc e)
  ipfs_client_connect-Valid true allocated (node ∷ nodes) w rpc e =
      new_rpc-Valid allocated (node ∷ nodes) (check_nodes addresses (node ∷ nodes)) w rpc refl e
