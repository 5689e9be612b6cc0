-- ===== src/Ipfs/Node/Calls.antt =====
-- The node in use of src/vendors/ipfs/ipfs_rpc.c, through the file operations of src/vendors/ipfs/ipfs.c.
use elastos_net_hive_native.Base.{
  ℕ, inl, inr, refl, Bool, true, false, not, Bytes, codes, length, [], Option, Bool-cases, ◌==◌, ℤ,
  pos, negsuc, is_neg, ltb, ◌&&◌, Option-cases,
}
use elastos_net_hive_native.Error.Code.{as_int, as_ssize, hive_general_error, hiveerr_out_of_memory}
use elastos_net_hive_native.Http.Body.{
  Moved, null_store, nothing, moved, http_client_move_response_body,
}
use elastos_net_hive_native.Http.Step.{
  Res, ret, go, Step, follow, value, ◌>>=◌, ◌>>◌, return_if, return_after, step, effect, continue,
  function,
}
use elastos_net_hive_native.Http.Client.{HttpClient, Sink, Net}
use elastos_net_hive_native.Ipfs.Rpc.{Rpc, ipfs_rpc_check_reachable, ipfs_rpc_mark_node_unreachable}
use elastos_net_hive_native.Ipfs.Connect.{
  Call, check_reachable, failed_request, request, expect_ok, parsed, member, check_size, finish,
  cat, put_file_from_buffer, get_file_length, get_file_to_buffer, rc_node_unreachable, stored_by,
  half_size, outer, current, own_body, is_cid, is_size, put_request, length_request, cat_request,
}
use elastos_net_hive_native.Ipfs.Node.{InUse, check_reachable-InUse}

module _ {W J : Type 0} (net : Net W J) where
  -- What a call keeps of the node in use
  abbrev Keeps : {A : Type 0} → Step (Call W) A → Type 0
  Keeps m = (s : Call W) → InUse s.rpc → InUse (m s).1.rpc

  follow-Keeps :
      {A B : Type 0} (f : A → Step (Call W) B) (x : Res A × Call W)
      → InUse x.1.rpc
      → ((a : A) → Keeps (f a))
      → InUse (follow f x).1.rpc
  follow-Keeps f (ret r, s) u h = u
  follow-Keeps f (go a, s) u h = h a s u

  return_after-Keeps :
      (test : Bool) (cleanup : Call W → Call W) (r : ℤ)
      → ((s : Call W) → InUse s.rpc → InUse (cleanup s).rpc)
      → Keeps (return_after test cleanup r)
  return_after-Keeps true cleanup r h s u = h s u
  return_after-Keeps false cleanup r h s u = u

  return_if-Keeps : (test : Bool) (r : ℤ) → Keeps (return_if {S = Call W} test r)
  return_if-Keeps true r s u = u
  return_if-Keeps false r s u = u

  check_reachable-Keeps : Keeps (check_reachable net)
  unfolding check_reachable
  check_reachable-Keeps s u =
      let ((rc, rpc), w) = ipfs_rpc_check_reachable net s.rpc s.outside in
      return_if-Keeps (is_neg rc) rc (record s { rpc = rpc; outside = w })
        (check_reachable-InUse net s.rpc s.outside u)

  request-Keeps : (c : HttpClient) → Keeps (request net c)
  unfolding request failed_request ipfs_rpc_mark_node_unreachable
  request-Keeps c s u =
      let rc = (net.perform c s.outside).0.0 in
      elim (Bool-cases (rc == 0)) [
        | inl ok ↦ rw ok u
        | inr failed ↦ elim (Bool-cases (rc_node_unreachable rc)) [
          | inl lost ↦ rw (failed, lost) (inl refl)
          | inr other ↦ rw (failed, other) u
        ]
      ]

  expect_ok-Keeps : Keeps (expect_ok net)
  unfolding expect_ok
  expect_ok-Keeps s u =
      let (rc, code) = net.response_code s.outside in
      elim (Bool-cases (rc == 0)) [
        | inr bad ↦ rw bad u
        | inl ok ↦ elim (Bool-cases (code == 200)) [
          | inr wrong ↦ rw (ok, wrong) u
          | inl right ↦ rw (ok, right) u
        ]
      ]

  parsed-Keeps : (error : ℕ → ℤ) (m : Moved) → Keeps (parsed net error m)
  unfolding parsed
  parsed-Keeps error null_store s u = u
  parsed-Keeps error (nothing b) s u = u
  parsed-Keeps error (moved p b) s u = elim (Option-cases (net.parse p)) [
    | inl bad ↦ rw (bad, parsed) u
    | inr (resp, good) ↦ rw (good, parsed) u
  ]

  member-Keeps :
      (error : ℕ → ℤ) (test : J → Bool) (object : J) (name : Bytes)
      → Keeps (member net error test object name)
  unfolding member
  member-Keeps error test object name s u = elim (Option-cases (net.get_item object name)) [
    | inl missing ↦ rw (missing, member) u
    | inr (item, there) ↦ elim (Bool-cases (test item)) [
      | inl good ↦ rw (there, member, good) u
      | inr bad ↦ rw (there, member, bad) u
    ]
  ]

  value-InUse : (x : Res ℤ × Call W) → InUse x.1.rpc → InUse (value x).1.rpc
  value-InUse (ret r, s) u = u
  value-InUse (go r, s) u = u

  -- The start of each operation, up to its request, and what follows it.
  started-Keeps :
      (err : ℤ) (client : Rpc → HttpClient) (next : Sink → Step (Call W) ℤ)
      → ((sink : Sink) → Keeps (next sink))
      → Keeps (do
        check_reachable net
        rpc ← current net
        made ← step (outer net net.http_client_new)
        return_if (not made) err
        sink ← request net (client rpc)
        next sink)
  started-Keeps err client next h s u =
      follow-Keeps _ (check_reachable net s) (check_reachable-Keeps s u) (λ t s1 u1.
        follow-Keeps _ (return_if (not (net.http_client_new s1.outside).0) err _)
          (return_if-Keeps _ err _ u1)
          (λ t s2 u2.
            follow-Keeps _ (request net (client s1.rpc) s2) (request-Keeps (client s1.rpc) s2 u2)
              h))

  -- Behind the request of the two operations that read a JSON text
  answered-Keeps :
      (error : ℕ → ℤ) (m : Moved) (next : J → Step (Call W) ℤ)
      → ((j : J) → Keeps (next j))
      → Keeps (expect_ok net >> (parsed net error m >>= next))
  answered-Keeps error m next h s u =
      follow-Keeps _ (expect_ok net s) (expect_ok-Keeps s u)
        (λ t s1 u1. follow-Keeps next (parsed net error m s1) (parsed-Keeps error m s1 u1) h)

  function-InUse :
      (m : Step (Call W) ℤ) → Keeps m → (s : Call W) → InUse s.rpc → InUse (function m s).1.rpc
  function-InUse m h s u = value-InUse (m s) (h s u)

  put_file_from_buffer-InUse :
      (from : Option Bytes) (len : ℕ) (s : Call W)
      → InUse s.rpc
      → InUse (put_file_from_buffer net from len s).1.rpc
  unfolding put_file_from_buffer
  put_file_from_buffer-InUse from len =
      let stored : J → Step (Call W) ℤ =
        λ j. effect (λ (s : Call W). record s { out = net.valuestring j }) >> continue (pos 0) in
      let parse : J → Step (Call W) ℤ =
        λ resp. member net as_int (is_cid net) resp (codes "Hash") >>= stored in
      let body : Sink → Moved = λ sink. http_client_move_response_body (own_body sink) false in
      function-InUse _ (
        started-Keeps (as_int (hive_general_error hiveerr_out_of_memory))
          (λ rpc. put_request net rpc from len)
          (λ sink. expect_ok net >> (parsed net as_int (body sink) >>= parse))
          (λ sink. answered-Keeps as_int (body sink) parse (λ resp s u.
            follow-Keeps stored (member net as_int (is_cid net) resp (codes "Hash") s)
              (member-Keeps as_int (is_cid net) resp (codes "Hash") s u) (λ j s1 u1. u1))))

  get_file_length-InUse :
      (cid : Bytes) (s : Call W) → InUse s.rpc → InUse (get_file_length net cid s).1.rpc
  unfolding get_file_length
  get_file_length-InUse cid =
      let size : J → Step (Call W) ℤ = λ c.
        member net as_ssize (is_size net) c (codes "Size") >>= λ j. continue (net.value_ssize j) in
      let file : J → Step (Call W) ℤ = λ o. member net as_ssize net.is_object o cid >>= size in
      let parse : J → Step (Call W) ℤ =
        λ resp. member net as_ssize net.is_object resp (codes "Objects") >>= file in
      let body : Sink → Moved = λ sink. http_client_move_response_body (own_body sink) false in
      function-InUse _ (
        started-Keeps (as_ssize (hive_general_error hiveerr_out_of_memory))
          (λ rpc. length_request net rpc cid)
          (λ sink. expect_ok net >> (parsed net as_ssize (body sink) >>= parse))
          (λ sink. answered-Keeps as_ssize (body sink) parse (λ resp s u.
            follow-Keeps file (member net as_ssize net.is_object resp (codes "Objects") s)
              (member-Keeps as_ssize net.is_object resp (codes "Objects") s u)
              (λ o s1 u1.
                follow-Keeps size (member net as_ssize net.is_object o cid s1)
                  (member-Keeps as_ssize net.is_object o cid s1 u1)
                  (λ c s2 u2.
                    follow-Keeps (λ j. continue (net.value_ssize j))
                      (member net as_ssize (is_size net) c (codes "Size") s2)
                      (member-Keeps as_ssize (is_size net) c (codes "Size") s2 u2)
                      (λ j s3 u3. u3))))))

  finish-Keeps : (fsize : ℕ) (sink : Sink) → Keeps (finish net fsize sink)
  unfolding finish
  finish-Keeps fsize sink s u =
      let (rc, code) = net.response_code s.outside in
      elim (Bool-cases (rc == 0)) [
        | inr bad ↦ rw bad u
        | inl ok ↦ elim (Bool-cases (code == 200)) [
          | inr wrong ↦ rw (ok, wrong) u
          | inl right ↦ elim (Bool-cases (fsize == length (stored_by sink []))) [
            | inr differ ↦ rw (ok, right, differ) u
            | inl same ↦ rw (ok, right, same) u
          ]
        ]
      ]

  check_size-Keeps : (buflen : ℕ) (x : ℤ) → Keeps (check_size net buflen x)
  unfolding check_size
  check_size-Keeps buflen (negsuc n) s u = u
  check_size-Keeps buflen (pos n) s u = elim (Bool-cases (n == 0)) [
    | inl none_left ↦ rw none_left u
    | inr some_left ↦ elim (Bool-cases ((ltb 0 buflen && ltb buflen half_size) && ltb buflen n)) [
      | inl large ↦ rw (some_left, large) u
      | inr fits ↦ rw (some_left, fits) u
    ]
  ]

  cat-Keeps : (cid : Bytes) (buflen fsize : ℕ) → Keeps (cat net cid buflen fsize)
  unfolding cat
  cat-Keeps cid buflen fsize =
      started-Keeps (as_ssize (hive_general_error hiveerr_out_of_memory))
        (λ rpc. cat_request net rpc cid buflen) (finish net fsize) (finish-Keeps fsize)

  get_file_to_buffer-InUse :
      (cid : Bytes) (buflen : ℕ) (s : Call W)
      → InUse s.rpc
      → InUse (get_file_to_buffer net cid buflen s).1.rpc
  unfolding get_file_to_buffer
  get_file_to_buffer-InUse cid buflen s u =
      let (fsize, s') = get_file_length net cid s in
      let sized : Res ℕ × Call W = check_size net buflen fsize s' in
      value-InUse (follow (cat net cid buflen) sized) (
        follow-Keeps (cat net cid buflen) sized
          (check_size-Keeps buflen fsize s' (get_file_length-InUse cid s u)) (cat-Keeps cid buflen))

  -- Through each of the three file operations, whatever the network answers: if no node or a
  -- configured one is in use before the call, then it is so after the call.
  pub operations-InUse :
      (from : Option Bytes) (len : ℕ) (cid : Bytes) (buflen : ℕ) (s : Call W)
      → InUse s.rpc
      → InUse (put_file_from_buffer net from len s).1.rpc
        × InUse (get_file_length net cid s).1.rpc
        × InUse (get_file_to_buffer net cid buflen s).1.rpc
  operations-InUse from len cid buflen s u = (
    put_file_from_buffer-InUse from len s u,
    get_file_length-InUse cid s u,
    get_file_to_buffer-InUse cid buflen s u,
  )
