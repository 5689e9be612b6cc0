-- ===== src/Apps/Prober.antt =====
-- apps/prober/prober.c: whether an IPFS node answers.
use elastos_net_hive_native.Base.{
  Bool, not, ◌==◌, Bytes, codes, take, ◌++◌, Option, none, some, if◌then◌else◌,
}
use elastos_net_hive_native.Http.Client.{
  HttpClient, HttpMethod, Net, new_client, http_client_set_url, http_client_set_method,
  http_client_set_request_body_instant, http_client_set_timeout,
}

-- What `probe` prints of a node
pub data Verdict : Type 0 where
  internal_error invalid_address unreachable reachable : Verdict

-- snprintf(url, sizeof(url), …)
abbrev pub in_url : Bytes → Bytes
in_url text = take 1023 text

abbrev pub probe_request : Bytes → HttpClient
unfolding new_client
probe_request url = http_client_set_timeout 5 (
    http_client_set_request_body_instant none 0
      (http_client_set_method HttpMethod.post (http_client_set_url url new_client)))

-- The address with the usual port, or as it is given, if libcurl accepts one of the two.
unfoldable pub probe_url : (Bytes → Bool) → Bytes → Option Bytes
probe_url accepts node =
    let with_port = in_url (codes "http://" ++ node ++ codes ":9095/version") in
    let as_given = in_url (codes "http://" ++ node ++ codes "/version") in
    if accepts with_port then some with_port else if accepts as_given then some as_given else none

module _ {W J : Type 0} (net : Net W J) (accepts : Bytes → Bool) where
  -- The client is closed behind a request that was answered only.
  abbrev pub answered : W → Verdict × W
  answered w =
      let (rc, code) = net.response_code w in
      let w' = net.http_client_close w in
      if not (rc == 0)
      then (unreachable, w')
      else if code == 200
      then (reachable, w')
      else (unreachable, w')

  abbrev pub ask : Option Bytes → W → Verdict × W
  ask none w = (invalid_address, w)
  ask (some url) w =
      let ((rc, sink), w') = net.perform (probe_request url) w in
      if rc == 0 then answered w' else (unreachable, w')

  unfoldable pub probe : Bytes → W → Verdict × W
  unfolding probe_url
  probe node w =
      let (made, w') = net.http_client_new w in
      if made then ask (probe_url accepts node) w' else (internal_error, w')
