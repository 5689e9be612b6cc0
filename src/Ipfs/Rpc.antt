-- ===== src/Ipfs/Rpc.antt =====
-- src/vendors/ipfs/ipfs_rpc.c: the node in use, and the choice of a node that answers.
use elastos_net_hive_native.Base.{
  ℕ, zero, suc, ◌+◌, ◌%◌, Bool, true, false, not, Bytes, codes, length, List, [], ◌∷◌, ◌++◌, Option,
  none, some, get_elem?, ◌==◌, leb, ℤ, pos, is_neg, is_zero, if◌then◌else◌,
}
use elastos_net_hive_native.Error.Code.{
  as_int, hive_general_error, hive_curl_error, hive_http_status_error, hiveerr_out_of_memory,
  hiveerr_buffer_too_small, hiveerr_bad_bootstrap_host,
}
use elastos_net_hive_native.Http.Step.{
  ◌>>=◌, ◌>>◌, return_if, return_after, step, effect, continue, function,
}
use elastos_net_hive_native.Http.Client.{
  HttpClient, HttpMethod, Net, new_client, http_client_set_url, http_client_set_method,
  http_client_set_request_body_instant, http_client_set_timeout,
}

-- An empty address is one that is not configured.
pub record RpcNode : Type 0 where
  pub ipv4 : Bytes
  pub ipv6 : Bytes
  pub port : ℕ

-- `struct ipfs_rpc`. An empty address means that no node is in use.
pub record Rpc : Type 0 where
  pub current_node_ip : Bytes
  pub current_node_port : ℕ
  pub rpc_nodes : List RpcNode

abbrev pub is_empty : Bytes → Bool
is_empty [] = true
is_empty (c ∷ s) = false

-- MAXPATHLEN of the platform's headers
abbrev pub max_path_len : ℕ
max_path_len = 4096

abbrev pub http_status_ok : ℕ
http_status_ok = 200

-- What the search has come to. `stuck` would be a node out of bounds, or a loop that has not ended.
pub data Selected : Type 0 where
  selected : Bytes → ℕ → Selected
  unreachable : Selected
  stuck : Selected

module _ {W J : Type 0} (net : Net W J) where
  version_request : Bytes → HttpClient
  unfolding new_client
  version_request url = http_client_set_timeout 5 (
      http_client_set_request_body_instant none 0
        (http_client_set_method HttpMethod.post (http_client_set_url url new_client)))

  unfoldable pub test_reachable : Bytes → ℕ → W → ℤ × W
  unfolding version_request
  test_reachable ipaddr port = function do
    let url = codes "http://" ++ ipaddr ++ codes ":" ++ net.decimal port ++ codes "/version"
    return_if (leb (max_path_len + 1) (length url))
        (as_int (hive_general_error hiveerr_buffer_too_small))
    made ← step net.http_client_new
    return_if (not made) (as_int (hive_general_error hiveerr_out_of_memory))
    (code, sink) ← step (net.perform (version_request url))
    return_after (not (code == 0)) net.http_client_close (as_int (hive_curl_error code))
    (rc, resp_code) ← step (λ w. (net.response_code w, w))
    effect net.http_client_close
    return_if (not (rc == 0)) (as_int (hive_curl_error rc))
    return_if (not (resp_code == http_status_ok)) (as_int (hive_http_status_error resp_code))
    continue (pos 0)

  abbrev pub Attempt : Type 0
  Attempt = Option (Bytes × ℕ) × W

  -- if (addr[0]) { rc = test_reachable(addr, port); if (!rc) … }
  unfoldable pub try_address : Bytes → ℕ → W → Attempt
  try_address addr port w =
      if is_empty addr
      then (none, w)
      else let (rc, w') = test_reachable addr port w in
        (if is_zero rc then some (addr, port) else none, w')

  abbrev pub or_else : Attempt → (W → Attempt) → Attempt
  or_else (none, w) next = next w
  or_else (some found, w) next = (some found, w)

  unfoldable pub try_node : RpcNode → W → Attempt
  unfolding try_address
  try_node node w = or_else (try_address node.ipv4 node.port w) (try_address node.ipv6 node.port)

  -- Behind the attempt at a node: `last` tells whether the index has come round to the base.
  unfoldable pub after_attempt : (W → Selected × W) → Bool → Attempt → Selected × W
  after_attempt rest last (some (addr, port), w) = (selected addr port, w)
  after_attempt rest last (none, w) = if last then (unreachable, w) else rest w

  unfoldable pub at_node : (W → Selected × W) → Bool → Option RpcNode → W → Selected × W
  at_node rest last none w = (stuck, w)
  at_node rest last (some node) w = after_attempt rest last (try_node node w)

  -- do { … rpc_nodes[i] …; i = (i + 1) % nodes_cnt; } while (i != base);
  unfoldable pub search_from : ℕ → List RpcNode → ℕ → ℕ → W → Selected × W
  search_from zero nodes base i w = (stuck, w)
  search_from (suc fuel) nodes base i w =
      let next = (i + 1) % length nodes in
      at_node (search_from fuel nodes base next) (next == base) (get_elem? nodes i) w

  -- One round of fuel for each node.
  unfoldable pub select_bootstrap : List RpcNode → W → Selected × W
  unfolding search_from at_node after_attempt try_node
  select_bootstrap nodes w =
      let (r, w') = net.rand w in
      let base = r % length nodes in search_from (length nodes) nodes base base w'

  -- The result, and the struct after the call.
  abbrev pub keep_selected : Rpc → Selected × W → (ℤ × Rpc) × W
  keep_selected rpc (selected addr port, w) =
      ((pos 0, record rpc { current_node_ip = addr; current_node_port = port }), w)
  keep_selected rpc (unreachable, w) =
      ((as_int (hive_general_error hiveerr_bad_bootstrap_host), rpc), w)
  keep_selected rpc (stuck, w) = ((as_int (hive_general_error hiveerr_bad_bootstrap_host), rpc), w)

  unfoldable pub ipfs_rpc_check_reachable : Rpc → W → (ℤ × Rpc) × W
  unfolding select_bootstrap
  ipfs_rpc_check_reachable rpc w =
      if not (is_empty rpc.current_node_ip)
      then ((pos 0, rpc), w)
      else keep_selected rpc (select_bootstrap rpc.rpc_nodes w)

  -- A new struct, or the error that has been set; `allocated` is the answer of `rc_zalloc`.
  unfoldable pub ipfs_rpc_new : Bool → List RpcNode → W → (ℤ × Option Rpc) × W
  unfolding select_bootstrap
  ipfs_rpc_new false nodes w = ((as_int (hive_general_error hiveerr_out_of_memory), none), w)
  ipfs_rpc_new true nodes w =
      let rpc : Rpc = record { current_node_ip = []; current_node_port = 0; rpc_nodes = nodes } in
      let ((rc, rpc'), w') = keep_selected rpc (select_bootstrap nodes w) in
      ((rc, if is_neg rc then none else some rpc'), w')

unfoldable pub ipfs_rpc_mark_node_unreachable : Rpc → Rpc
ipfs_rpc_mark_node_unreachable rpc = record rpc { current_node_ip = [] }
