-- ===== src/Ipfs/Connect.antt =====
-- src/vendors/ipfs/ipfs.c: storing and reading a file by its content identifier.
use elastos_net_hive_native.Base.{
  ℕ, ◌+◌, Bool, false, not, ◌&&◌, ◌||◌, Bytes, codes, length, [], ◌++◌, Option, none, some, ltb,
  leb, ◌==◌, ℤ, pos, is_neg, if◌then◌else◌,
}
use elastos_net_hive_native.Error.Code.{
  as_int, as_ssize, hive_general_error, hive_curl_error, hive_http_status_error,
  hiveerr_out_of_memory, hiveerr_buffer_too_small, hiveerr_bad_json_format,
  hiveerr_bad_persistent_data, hiveerr_try_again,
}
use elastos_net_hive_native.Http.Body.{
  Body, empty_body, Moved, null_store, nothing, moved, http_client_move_response_body,
}
use elastos_net_hive_native.Http.Step.{
  ret, go, Step, ◌>>=◌, ◌>>◌, return, return_if, return_after, step, effect, continue, function,
}
use elastos_net_hive_native.Http.Client.{
  HttpClient, HttpMethod, Sink, own, fixed, Net, new_client, http_client_set_url,
  http_client_set_query, http_client_set_method, http_client_set_request_body_instant,
  http_client_set_mime_instant, http_client_enable_response_body, http_client_set_response_body,
}
use elastos_net_hive_native.Ipfs.Rpc.{
  Rpc, http_status_ok, ipfs_rpc_check_reachable, ipfs_rpc_mark_node_unreachable,
}

-- The state of a call: the connection's `rpc`, the caller's object that the call fills (the content
-- identifier or the buffer), and the world outside.
pub record Call (W : Type 0) : Type 0 where
  pub rpc : Rpc
  pub out : Bytes
  pub outside : W

-- sizeof(cid->content)
abbrev pub cid_size : ℕ
cid_size = 64 + 1

-- CURLE_COULDNT_CONNECT, CURLE_REMOTE_ACCESS_DENIED and CURLE_OPERATION_TIMEDOUT
abbrev pub rc_node_unreachable : ℕ → Bool
rc_node_unreachable rc = (rc == 7) || (rc == 9) || (rc == 28)

-- The memory behind `http_client_move_response_body`
abbrev pub own_body : Sink → Body
own_body (own b) = b
own_body other = empty_body

-- What the caller's object holds when `get_response_body_cb` has stored in it.
abbrev pub stored_by : Sink → Bytes → Bytes
stored_by (fixed bufsz bytes) old = bytes
stored_by other old = old

abbrev pub half_size : ℕ
half_size = 0x8000000000000000

module _ {W J : Type 0} (net : Net W J) where
  abbrev pub S : Type 0
  S = Call W

  abbrev pub outer : {A : Type 0} → (W → A × W) → S → A × S
  outer f s = let (a, w) = f s.outside in (a, record s { outside = w })

  abbrev close : S → S
  close s = record s { outside = net.http_client_close s.outside }

  -- rc = ipfs_rpc_check_reachable(connect->rpc); if (rc < 0) return rc;
  unfoldable pub check_reachable : Step S (Unit {0})
  check_reachable s =
      let ((rc, rpc), w) = ipfs_rpc_check_reachable net s.rpc s.outside in
      return_if (is_neg rc) rc (record s { rpc = rpc; outside = w })

  unfoldable pub node_url : Bytes → Rpc → Bytes
  node_url path rpc =
      codes "http://"
      ++ rpc.current_node_ip
      ++ codes ":"
      ++ net.decimal rpc.current_node_port
      ++ codes "/api/v0/"
      ++ path

  -- if (RC_NODE_UNREACHABLE(rc)) { …; ipfs_rpc_mark_node_unreachable(…); } else …; goto error_exit;
  unfoldable pub failed_request : ℕ → S → ℤ × S
  failed_request rc s =
      if rc_node_unreachable rc
      then (
        as_int (hive_general_error hiveerr_try_again),
        close (record s { rpc = ipfs_rpc_mark_node_unreachable s.rpc }),
      )
      else (as_int (hive_curl_error rc), close s)

  unfoldable pub request : HttpClient → Step S Sink
  unfolding failed_request
  request client s =
      let ((rc, sink), w) = net.perform client s.outside in
      let s' : S = record s { out = stored_by sink s.out; outside = w } in
      if rc == 0 then (go sink, s') else let (r, s'') = failed_request rc s' in (ret r, s'')

  -- The response's code, where each error leads to `error_exit`.
  unfoldable pub expect_ok : Step S (Unit {0})
  expect_ok = do
    (rc, resp_code) ← step (outer (λ w. (net.response_code w, w)))
    return_after (not (rc == 0)) close (as_int (hive_curl_error rc))
    return_after (not (resp_code == http_status_ok)) close
        (as_int (hive_http_status_error resp_code))

  -- The JSON text behind a moved body. `error` converts a code to the function's type.
  unfoldable pub parsed : (ℕ → ℤ) → Moved → Step S J
  parsed error null_store s = let (r, s') = outer net.null_store s in (ret r, s')
  parsed error (nothing b) s = (ret (error (hive_general_error hiveerr_out_of_memory)), close s)
  parsed error (moved p b) s = elim (net.parse p) [
    | none ↦ (ret (error (hive_general_error hiveerr_out_of_memory)), close s)
    | some resp ↦ (go resp, close s)
  ]

  -- A member that has to be there and to pass a test.
  unfoldable pub member : (ℕ → ℤ) → (J → Bool) → J → Bytes → Step S J
  member error test object name s = elim (net.get_item object name) [
    | none ↦ (ret (error (hive_general_error hiveerr_bad_json_format)), s)
    | some item ↦
        if test item
        then (go item, s)
        else (ret (error (hive_general_error hiveerr_bad_json_format)), s)
  ]

  abbrev pub is_cid : J → Bool
  is_cid item =
      net.is_string item
      && net.has_name item
      && not (length (net.valuestring item) == 0)
      && not (leb cid_size (length (net.valuestring item)))

  abbrev pub is_size : J → Bool
  is_size item = net.is_number item && not (is_neg (net.value_ssize item))

  abbrev pub put_request : Rpc → Option Bytes → ℕ → HttpClient
  put_request rpc from len = http_client_enable_response_body (
      http_client_set_method HttpMethod.post (
        http_client_set_mime_instant (codes "file") from len
          (http_client_set_url (node_url (codes "add") rpc) new_client)))

  abbrev pub length_request : Rpc → Bytes → HttpClient
  length_request rpc cid = http_client_enable_response_body (
      http_client_set_method HttpMethod.post (
        http_client_set_query (codes "arg") cid
          (http_client_set_url (node_url (codes "file/ls") rpc) new_client)))

  abbrev pub cat_request : Rpc → Bytes → ℕ → HttpClient
  cat_request rpc cid buflen = http_client_set_response_body (fixed buflen []) (
      http_client_set_request_body_instant none 0 (
        http_client_set_method HttpMethod.post (
          http_client_set_query (codes "arg") cid
            (http_client_set_url (node_url (codes "cat") rpc) new_client))))

  abbrev pub current : Step S Rpc
  current s = (go s.rpc, s)

  -- `out` is `cid->content`.
  unfoldable pub put_file_from_buffer : Option Bytes → ℕ → S → ℤ × S
  unfolding check_reachable request expect_ok parsed member node_url new_client
  put_file_from_buffer from len = function do
    check_reachable
    rpc ← current
    made ← step (outer net.http_client_new)
    return_if (not made) (as_int (hive_general_error hiveerr_out_of_memory))
    sink ← request (put_request rpc from len)
    expect_ok
    resp ← parsed as_int (http_client_move_response_body (own_body sink) false)
    cid_json ← member as_int is_cid resp (codes "Hash")
    effect (λ s. record s { out = net.valuestring cid_json })
    continue (pos 0)

  unfoldable pub get_file_length : Bytes → S → ℤ × S
  unfolding check_reachable request expect_ok parsed member node_url new_client
  get_file_length cid = function do
    check_reachable
    rpc ← current
    made ← step (outer net.http_client_new)
    return_if (not made) (as_ssize (hive_general_error hiveerr_out_of_memory))
    sink ← request (length_request rpc cid)
    expect_ok
    resp ← parsed as_ssize (http_client_move_response_body (own_body sink) false)
    objects ← member as_ssize net.is_object resp (codes "Objects")
    cid_json ← member as_ssize net.is_object objects cid
    size ← member as_ssize is_size cid_json (codes "Size")
    continue (net.value_ssize size)

  -- if (fsize <= 0) return fsize; if ((ssize_t)buflen > 0 && fsize > (ssize_t)buflen) return …;
  unfoldable pub check_size : ℕ → ℤ → Step S ℕ
  check_size buflen (pos fsize) =
      if fsize == 0
      then return (pos 0)
      else if (ltb 0 buflen && ltb buflen half_size) && ltb buflen fsize
      then return (as_ssize (hive_general_error hiveerr_buffer_too_small))
      else continue fsize
  check_size buflen other = return other

  -- What follows the request for the file's bytes.
  unfoldable pub finish : ℕ → Sink → Step S ℤ
  finish fsize sink = do
    (rc, resp_code) ← step (outer (λ w. (net.response_code w, w)))
    effect close
    return_if (not (rc == 0)) (as_ssize (hive_curl_error rc))
    return_if (not (resp_code == http_status_ok)) (as_ssize (hive_http_status_error resp_code))
    return_if (not (fsize == length (stored_by sink [])))
        (as_ssize (hive_general_error hiveerr_bad_persistent_data))
    continue (pos fsize)

  -- What follows the tests of the file's length.
  unfoldable pub cat : Bytes → ℕ → ℕ → Step S ℤ
  unfolding check_reachable request node_url new_client finish
  cat cid buflen fsize = do
    check_reachable
    rpc ← current
    made ← step (outer net.http_client_new)
    return_if (not made) (as_ssize (hive_general_error hiveerr_out_of_memory))
    sink ← request (cat_request rpc cid buflen)
    finish fsize sink

  -- `out` is the buffer `to`, of `buflen` bytes.
  unfoldable pub get_file_to_buffer : Bytes → ℕ → S → ℤ × S
  unfolding get_file_length check_size cat
  get_file_to_buffer cid buflen =
      function (step (get_file_length cid) >>= check_size buflen >>= cat cid buflen)
