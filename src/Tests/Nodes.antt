-- ===== src/Tests/Nodes.antt =====
-- The IPFS backend over a network in which every node answers.
use elastos_net_hive_native.Base.{
  inl, inr, ℕ, ◌≤◌, ◌≡◌, ◌⊎◌, refl, Bool, true, Bytes, codes, length, List, [], ◌∷◌, none, some,
  get_elem?, pos, arith,
}
use elastos_net_hive_native.Http.Client.{Net, deliver, new_client}
use elastos_net_hive_native.Http.Body.{
  http_client_move_response_body, http_response_body_write_callback, resize, new_size, settle, grow,
}
use elastos_net_hive_native.Ipfs.Rpc.{
  Rpc, ipfs_rpc_new, search_from, at_node, after_attempt, try_node, try_address, RpcNode,
  unreachable, test_reachable, select_bootstrap, ipfs_rpc_check_reachable,
}
use elastos_net_hive_native.Ipfs.Bootstrap.{Chooses, Ruled, select_bootstrap-Decides}
use elastos_net_hive_native.Ipfs.Connect.{
  Call, get_file_to_buffer, get_file_length, check_size, cat, finish, check_reachable, request,
  expect_ok, parsed, member, node_url,
}
use elastos_net_hive_native.Ipfs.Connect.{put_file_from_buffer}
use elastos_net_hive_native.Ipfs.Options.{
  IpfsNode, Addresses, ipfs_client_connect, check_nodes, check_node,
}
use elastos_net_hive_native.Ipfs.Valid.{AreValid, UsesValid, ipfs_client_connect-Valid}
use elastos_net_hive_native.Ipfs.Node.{InUse, Configured, ipfs_rpc_new-Configured}
use elastos_net_hive_native.Ipfs.Node.Calls.{operations-InUse}
use elastos_net_hive_native.Ipfs.Fill.{
  deliver_all, AreChunks, none_left, chunk_more, get_file_to_buffer-Filled,
}

abbrev grants : ℕ → Bool
grants n = true

abbrev chunks : List Bytes
chunks = codes "ab" ∷ codes "c" ∷ []

-- Every request is answered by status 200 and three bytes, and every JSON text is the number 3.
abbrev pub network : Net (Unit {0}) ℕ
network = record {
  http_client_new = λ w. (true, w);
  http_client_close = λ w. w;
  perform = λ c w. ((0, deliver_all grants chunks c.sink), w);
  response_code = λ w. (0, 200);
  null_store = λ w. (pos 0, w);
  rand = λ w. (5, w);
  decimal = λ n. codes "9094";
  parse = λ text. some 0;
  get_item = λ j name. some j;
  is_string = λ j. true;
  is_number = λ j. true;
  is_object = λ j. true;
  has_name = λ j. true;
  valuestring = λ j. codes "Qm";
  value_ssize = λ j. pos 3;
}

abbrev node : RpcNode
node = record { ipv4 = codes "10.0.0.1"; ipv6 = []; port = 9094 }

abbrev nodes : List RpcNode
nodes = node ∷ node ∷ []

select_bootstrap-Decides_example :
    Chooses network nodes tt (select_bootstrap network nodes tt)
    ⊎ (((select_bootstrap network nodes tt).0 ≡ unreachable)
        × ((j : ℕ) (node : RpcNode) → get_elem? nodes j ≡ some node → Ruled network nodes tt node))
select_bootstrap-Decides_example = select_bootstrap-Decides network nodes tt (omega arith)

abbrev start : Call (Unit {0})
start = record {
  rpc = record { current_node_ip = codes "10.0.0.1"; current_node_port = 9094; rpc_nodes = nodes };
  out = [];
  outside = tt;
}

abbrev chunks-AreChunks : AreChunks chunks
chunks-AreChunks = chunk_more (omega arith) (chunk_more (omega arith) none_left)

got_three : (get_file_to_buffer network (codes "Qm") 10 start).0 ≡ pos 3
unfolding get_file_to_buffer get_file_length check_size cat finish check_reachable request expect_ok
    parsed member node_url ipfs_rpc_check_reachable new_client deliver_all deliver
    http_client_move_response_body http_response_body_write_callback resize new_size settle grow
got_three = refl

get_file_to_buffer-Filled_example :
    (length (get_file_to_buffer network (codes "Qm") 10 start).1.out ≡ 3) × (3 ≤ 10)
get_file_to_buffer-Filled_example =
    get_file_to_buffer-Filled network grants (λ c w. (chunks, chunks-AreChunks, refl))
      (λ c w. omega arith) (λ w. (omega arith, omega arith)) 10 (omega arith) (codes "Qm") start 3
      got_three (omega arith) (omega arith)

start-InUse : InUse start.rpc
start-InUse = inr (0, node, refl, inl refl, refl, refl)

operations-InUse_example :
    InUse (put_file_from_buffer network (some (codes "abc")) 3 start).1.rpc
    × InUse (get_file_length network (codes "Qm") start).1.rpc
    × InUse (get_file_to_buffer network (codes "Qm") 10 start).1.rpc
operations-InUse_example =
    operations-InUse network (some (codes "abc")) 3 (codes "Qm") 10 start start-InUse

abbrev chosen : Rpc
chosen = record { current_node_ip = codes "10.0.0.1"; current_node_port = 9094; rpc_nodes = nodes }

made : (ipfs_rpc_new network true nodes tt).0.1 ≡ some chosen
unfolding ipfs_rpc_new select_bootstrap search_from at_node after_attempt try_node try_address
    test_reachable deliver_all deliver new_client
made = refl

ipfs_rpc_new-Configured_example :
    (chosen.rpc_nodes ≡ nodes) × Configured nodes chosen.current_node_ip chosen.current_node_port
ipfs_rpc_new-Configured_example = ipfs_rpc_new-Configured network nodes tt chosen made

abbrev addresses : Addresses
addresses = record {
  is_valid_ip = λ ip. true;
  is_valid_ipv6 = λ ip. true;
  strtol = λ text. (pos 9094, []);
}

abbrev given_node : IpfsNode
given_node = record { ipv4 = some (codes "10.0.0.1"); ipv6 = none; port = some (codes "9094") }

abbrev connected : Rpc
connected = record {
  current_node_ip = codes "10.0.0.1";
  current_node_port = 9094;
  rpc_nodes = node ∷ node ∷ [];
}

connects :
    (ipfs_client_connect network addresses true true (given_node ∷ given_node ∷ []) tt).0
    ≡ some connected
unfolding ipfs_client_connect check_nodes check_node ipfs_rpc_new select_bootstrap search_from
    at_node after_attempt try_node try_address test_reachable
connects = refl

ipfs_client_connect-Valid_example :
    AreValid addresses (node ∷ node ∷ [])
    × (length connected.rpc_nodes ≡ 2)
    × UsesValid network addresses connected
ipfs_client_connect-Valid_example =
    ipfs_client_connect-Valid network addresses true true (given_node ∷ given_node ∷ []) tt
      connected connects
