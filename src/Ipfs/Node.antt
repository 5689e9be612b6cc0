-- ===== src/Ipfs/Node.antt =====
-- The node in use of src/vendors/ipfs/ipfs_rpc.c is a configured one, through the search for a node.
pub mod Calls
use mathlib.Core.Path.{subst}
use mathlib.Core.Option.{some-injective}
use elastos_net_hive_native.Error.Code.{hive_mk_error}
use elastos_net_hive_native.Base.{
  ℕ, zero, suc, ◌+◌, ◌%◌, ◌≡◌, ◌⊎◌, inl, inr, refl, sym, Bool, true, false, not, Bytes, codes,
  length, List, [], ◌∷◌, Option, none, some, get_elem?, Bool-cases, ◌==◌, ℤ, pos, negsuc, is_neg,
  is_zero, if◌then◌else◌, arith, ltb, ◌&&◌, Option-cases,
}
use elastos_net_hive_native.Error.Code.{as_int, as_ssize, hive_general_error, hiveerr_out_of_memory}
use elastos_net_hive_native.Http.Body.{
  Moved, null_store, nothing, moved, http_client_move_response_body,
}
use elastos_net_hive_native.Http.Step.{
  Res, ret, go, Step, follow, value, ◌>>=◌, ◌>>◌, return_if, return_after, step, effect, continue,
  function,
}
use elastos_net_hive_native.Http.Client.{HttpClient, Sink, Net}
use elastos_net_hive_native.Ipfs.Rpc.{
  RpcNode, Rpc, Selected, selected, unreachable, stuck, is_empty, test_reachable, try_address,
  or_else, try_node, after_attempt, at_node, search_from, select_bootstrap, ipfs_rpc_new,
  keep_selected, ipfs_rpc_check_reachable, ipfs_rpc_mark_node_unreachable,
}
use elastos_net_hive_native.Ipfs.Connect.{
  Call, check_reachable, failed_request, request, expect_ok, parsed, member, check_size, finish,
  cat, put_file_from_buffer, get_file_length, get_file_to_buffer, rc_node_unreachable, stored_by,
  half_size, outer, current, own_body, is_cid, is_size, put_request, length_request, cat_request,
}

-- An address of a configured node, which is not the empty one that stands for no node
abbrev pub Configured : List RpcNode → Bytes → ℕ → Type 0
Configured nodes a p =
    (j : ℕ) × (node : RpcNode) × (get_elem? nodes j ≡ some node)
    × ((a ≡ node.ipv4) ⊎ (a ≡ node.ipv6))
    × (p ≡ node.port)
    × (is_empty a ≡ false)

-- No node is in use, or a configured one is.
abbrev pub InUse : Rpc → Type 0
InUse rpc =
    (rpc.current_node_ip ≡ []) ⊎ Configured rpc.rpc_nodes rpc.current_node_ip rpc.current_node_port

abbrev Chosen : List RpcNode → Selected → Type 0
Chosen nodes (selected a p) = Configured nodes a p
Chosen nodes other = Unit {0}

module _ {W J : Type 0} (net : Net W J) where
  abbrev Found : RpcNode → Option (Bytes × ℕ) → Type 0
  Found node none = Unit {0}
  Found node (some (a, p)) =
      ((a ≡ node.ipv4) ⊎ (a ≡ node.ipv6)) × (p ≡ node.port) × (is_empty a ≡ false)

  try_address-cases :
      (a : Bytes) (p : ℕ) (w : W)
      → ((try_address net a p w).0 ≡ none)
        ⊎ ((try_address net a p w).0 ≡ some (a, p)) × (is_empty a ≡ false)
  unfolding try_address
  try_address-cases a p w = elim (Bool-cases (is_empty a)) [
    | inl empty ↦ rw empty (inl refl)
    | inr there ↦ elim (Bool-cases (is_zero (test_reachable net a p w).0)) [
      | inl up ↦ rw (there, up) (inr (refl, refl))
      | inr down ↦ rw (there, down) (inl refl)
    ]
  ]

  or_else-Found :
      (node : RpcNode) (a : Option (Bytes × ℕ) × W) (next : W → Option (Bytes × ℕ) × W)
      → (a.0 ≡ none) ⊎ (a.0 ≡ some (node.ipv4, node.port)) × (is_empty node.ipv4 ≡ false)
      → ((w : W)
          → ((next w).0 ≡ none)
            ⊎ ((next w).0 ≡ some (node.ipv6, node.port)) × (is_empty node.ipv6 ≡ false))
      → Found node (or_else net a next).0
  or_else-Found node (some f, w) next (inl e) h = absurd (cc e)
  or_else-Found node (some f, w) next (inr (e, there)) h =
      subst (Found node) (sym e) (inl refl, refl, there)
  or_else-Found node (none, w) next first h = elim (h w) [
    | inl e ↦ rw e tt
    | inr (e, there) ↦ rw e (inr refl, refl, there)
  ]

  try_node-Found : (node : RpcNode) (w : W) → Found node (try_node net node w).0
  unfolding try_node
  try_node-Found node w =
      or_else-Found node (try_address net node.ipv4 node.port w)
        (try_address net node.ipv6 node.port) (try_address-cases node.ipv4 node.port w)
        (try_address-cases node.ipv6 node.port)

  after-Chosen :
      (nodes : List RpcNode) (i : ℕ) (node : RpcNode) (rest : W → Selected × W) (last : Bool)
      (a : Option (Bytes × ℕ) × W)
      → get_elem? nodes i ≡ some node
      → Found node a.0
      → ((w' : W) → Chosen nodes (rest w').0)
      → Chosen nodes (after_attempt net rest last a).0
  unfolding after_attempt
  after-Chosen nodes i node rest last (some (a, p), w) at_i (same, port, there) h =
      (i, node, at_i, same, port, there)
  after-Chosen nodes i node rest true (none, w) at_i found h = tt
  after-Chosen nodes i node rest false (none, w) at_i found h = h w

  at_node-Chosen :
      (nodes : List RpcNode) (i : ℕ) (rest : W → Selected × W) (last : Bool) (w : W)
      → ((w' : W) → Chosen nodes (rest w').0)
      → Chosen nodes (at_node net rest last (get_elem? nodes i) w).0
  unfolding at_node
  at_node-Chosen nodes i rest last w h = elim (Option-cases (get_elem? nodes i)) [
    | inl out ↦ rw (out, at_node) tt
    | inr (node, at_i) ↦
        rw (at_i, at_node)
          (after-Chosen nodes i node rest last (try_node net node w) at_i (try_node-Found node w) h)
  ]

  search_from-Chosen :
      (fuel : ℕ) (nodes : List RpcNode) (base i : ℕ) (w : W)
      → Chosen nodes (search_from net fuel nodes base i w).0
  unfolding search_from
  search_from-Chosen zero nodes base i w = tt
  search_from-Chosen (suc fuel) nodes base i w =
      let next = (i + 1) % length nodes in
      at_node-Chosen nodes i (search_from net fuel nodes base next) (next == base) w
        (search_from-Chosen fuel nodes base next)

  keep_selected-InUse :
      (rpc : Rpc) (r : Selected × W)
      → InUse rpc
      → Chosen rpc.rpc_nodes r.0
      → InUse (keep_selected net rpc r).0.1
  keep_selected-InUse rpc (selected a p, w) u c = inr c
  keep_selected-InUse rpc (unreachable, w) u c = u
  keep_selected-InUse rpc (stuck, w) u c = u

  pub check_reachable-InUse :
      (rpc : Rpc) (w : W) → InUse rpc → InUse (ipfs_rpc_check_reachable net rpc w).0.1
  unfolding ipfs_rpc_check_reachable select_bootstrap
  check_reachable-InUse rpc w u = elim (Bool-cases (not (is_empty rpc.current_node_ip))) [
    | inl there ↦ rw there u
    | inr missing ↦
        let (r, w') = net.rand w in
        rw missing (
          keep_selected-InUse rpc
            (search_from net (length rpc.rpc_nodes) rpc.rpc_nodes (r % length rpc.rpc_nodes)
              (r % length rpc.rpc_nodes) w')
            u
            (search_from-Chosen (length rpc.rpc_nodes) rpc.rpc_nodes (r % length rpc.rpc_nodes)
              (r % length rpc.rpc_nodes) w'))
  ]

  new_rpc-Configured :
      (nodes : List RpcNode) (r : Selected × W) (rpc : Rpc)
      → Chosen nodes r.0
      → let kept =
          keep_selected net
            (record { current_node_ip = []; current_node_port = 0; rpc_nodes = nodes })
            r in
        (if is_neg kept.0.0 then none else some kept.0.1) ≡ some rpc
        → (rpc.rpc_nodes ≡ nodes) × Configured nodes rpc.current_node_ip rpc.current_node_port
  unfolding hive_mk_error
  new_rpc-Configured nodes (selected a p, w) rpc c e =
      subst
        (λ (t : Rpc).
          (t.rpc_nodes ≡ nodes) × Configured nodes t.current_node_ip t.current_node_port)
        (some-injective _ rpc e) (refl, c)
  new_rpc-Configured nodes (unreachable, w) rpc c e = absurd (cc e)
  new_rpc-Configured nodes (stuck, w) rpc c e = absurd (cc e)

  -- A new `ipfs_rpc` that is returned has the configured nodes, and one of them is in use: the address
  -- in use is not empty, and it and the port are those of a configured node.
  pub ipfs_rpc_new-Configured :
      (nodes : List RpcNode) (w : W) (rpc : Rpc)
      → (ipfs_rpc_new net true nodes w).0.1 ≡ some rpc
      → (rpc.rpc_nodes ≡ nodes) × Configured nodes rpc.current_node_ip rpc.current_node_port
  unfolding ipfs_rpc_new select_bootstrap
  ipfs_rpc_new-Configured nodes w rpc e =
      let (r, w') = net.rand w in
      let base = r % length nodes in
      new_rpc-Configured nodes (search_from net (length nodes) nodes base base w') rpc
        (search_from-Chosen (length nodes) nodes base base w') e
