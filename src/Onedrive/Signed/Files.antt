-- ===== src/Onedrive/Signed/Files.antt =====
-- The functions of src/vendors/onedrive/onedrive.c on whole files keep the token of a connection.
use elastos_net_hive_native.Base.{
  ℕ, suc, ◌≤◌, Bool, length, false, not, ◌&&◌, ◌==◌, Bytes, codes, take, ◌++◌, Option, ℤ, pos,
  is_zero, ssize_of_size, Bool-cases, inl, inr, Option-cases,
}
use elastos_net_hive_native.Error.Code.{as_ssize, hive_general_error, hiveerr_out_of_memory}
use elastos_net_hive_native.Http.Body.{http_client_move_response_body}
use elastos_net_hive_native.Http.Step.{Res, ret, go, ◌>>=◌, return_if, return_after}
use elastos_net_hive_native.Http.Keeps.{Keeps, follow-Keeps, return_after-Keeps, return_if-Keeps}
use elastos_net_hive_native.Http.Client.{Net}
use elastos_net_hive_native.Ipfs.Connect.{own_body}
use elastos_net_hive_native.Oauth.Time.{gt_ℤ}
use elastos_net_hive_native.Oauth.Token.{OauthToken, Session, Auth}
use elastos_net_hive_native.Oauth.Outcome.{Documented}
use elastos_net_hive_native.Onedrive.Request.{
  Drive, app_root, close, check_token, new_http, printed, get_bearer_token, request,
  get_response_code, expect, parsed, closing, closing_failed, is_ok, no_content, info_request,
  download_request, delete_request,
}
use elastos_net_hive_native.Onedrive.Get.{
  get_file_info, get_whole_length_steps, delete_whole_steps, file_size, url_of, get_whole_length,
  prepare_get, download_steps, download_file, get_whole, delete_whole, fetched, download_url,
  contains, is_size, is_url,
}
use elastos_net_hive_native.Onedrive.Signed.{
  Signed, Lasts, Complete, Complete-Lasts, check_token-Signed, new_http-Signed, printed-Signed,
  bearer-Signed, request-Signed, get_response_code-Signed, expect-Signed, parsed-Signed,
  closing_failed-Signed, closing-Signed,
}
use elastos_net_hive_native.Onedrive.Signed.Calls.{
  asked-Signed, function-Signed, started-Signed, put_whole-Signed,
}
use elastos_net_hive_native.Onedrive.Connect.{
  put_file_from_buffer, get_file_length, get_file_to_buffer, delete_file, file_path, is_long,
}

module _ {W J : Type 0} {net : Net W J} {auth : Auth W J} (known : Documented net auth)
    (drive : Drive W J) {P : OauthToken → Type 0} (lasts : Lasts P) where
  abbrev S : Type 0
  S = Session W

  abbrev Safe : {A : Type 0} → (S → A × S) → Type 0
  Safe m = Keeps (Signed P) m

  get_file_info-Signed : (path query : Bytes) → Safe (get_file_info net auth drive path query)
  unfolding get_file_info
  get_file_info-Signed path query =
      asked-Signed known drive lasts (app_root ++ codes ":" ++ path)
        (λ url bearer. info_request url bearer query) is_ok _
        λ sink s k.
          let m = http_client_move_response_body (own_body sink) false in
          follow-Keeps (Signed P) _ (parsed net auth drive m s)
            (parsed-Signed known drive lasts m s k)
            λ resp s1 k1.
              let test =
                contains (codes "size") query
                && not (is_size net auth drive (net.get_item resp (codes "size"))) in
              follow-Keeps (Signed P) _ (return_if test _ s1)
                (return_if-Keeps (Signed P) test _ s1 k1)
                λ _ s2 k2.
                  let test' =
                    contains download_url query
                    && not (is_url net auth drive (net.get_item resp download_url)) in
                  follow-Keeps (Signed P) _ (return_if test' _ s2)
                    (return_if-Keeps (Signed P) test' _ s2 k2) λ _ s3 k3. k3

  file_size-Signed : (resp : J) → Safe (file_size net auth drive resp)
  unfolding file_size
  file_size-Signed resp s k = elim (Option-cases (net.get_item resp (codes "size"))) [
    | inl missing ↦ rw (file_size, missing) k
    | inr (size, there) ↦ rw (file_size, there) k
  ]

  url_of-Signed : (resp : J) → Safe (url_of net auth drive resp)
  unfolding url_of
  url_of-Signed resp s k = elim (Option-cases (net.get_item resp download_url)) [
    | inl missing ↦ rw (url_of, missing) k
    | inr (url, there) ↦ rw (url_of, there) k
  ]

  get_whole_length_steps-Signed : (path : Bytes) → Safe (get_whole_length_steps net auth drive path)
  unfolding get_whole_length_steps
  get_whole_length_steps-Signed path =
      started-Signed known drive lasts (as_ssize (hive_general_error hiveerr_out_of_memory))
        (do
          resp ← closing net auth drive (get_file_info net auth drive path (codes "size"))
          file_size net auth drive resp)
        λ s k.
          follow-Keeps (Signed P) _
            (closing net auth drive (get_file_info net auth drive path (codes "size")) s)
            (get_file_info-Signed path (codes "size") s k) file_size-Signed

  get_whole_length-Signed : (path : Bytes) → Safe (get_whole_length net auth drive path)
  unfolding get_whole_length
  get_whole_length-Signed path =
      function-Signed known drive lasts (get_whole_length_steps net auth drive path)
        (get_whole_length_steps-Signed path)

  prepare_get-Signed : (path : Bytes) (buflen : ℕ) → Safe (prepare_get net auth drive path buflen)
  unfolding prepare_get
  prepare_get-Signed path buflen s k =
      let query = codes "size," ++ download_url in
      let info = get_file_info net auth drive path query in
      let closed = close net auth drive in
      let room = ssize_of_size buflen in
      follow-Keeps (Signed P) _ (check_token net auth drive s)
        (check_token-Signed known drive lasts s k)
        λ _ s1 k1.
          follow-Keeps (Signed P) _ (new_http net auth drive _ s1)
            (new_http-Signed known drive lasts _ s1 k1)
            λ _ s2 k2.
              follow-Keeps (Signed P) _ (closing_failed net auth drive info s2)
                (closing_failed-Signed known drive lasts info (get_file_info-Signed path query) s2
                  k2)
                λ resp s3 k3.
                  follow-Keeps (Signed P) _ (file_size net auth drive resp s3)
                    (file_size-Signed resp s3 k3)
                    λ fsize s4 k4.
                      let large = gt_ℤ room (pos 0) && gt_ℤ fsize room in
                      follow-Keeps (Signed P) _ (return_after large closed _ s4)
                        (return_after-Keeps (Signed P) large closed _ (λ s k. k) s4 k4)
                        λ _ s5 k5.
                          follow-Keeps (Signed P) _ (return_after (is_zero fsize) closed _ s5)
                            (return_after-Keeps (Signed P) (is_zero fsize) closed _ (λ s k. k) s5
                              k5)
                            λ _ s6 k6.
                              follow-Keeps (Signed P) _ (url_of net auth drive resp s6)
                                (url_of-Signed resp s6 k6) λ _ s7 k7. k7

  download_steps-Signed : (rc : ℕ) → Safe (download_steps net auth drive rc)
  unfolding download_steps
  download_steps-Signed rc s k =
      follow-Keeps (Signed P) _ (return_if (not (rc == 0)) _ s)
        (return_if-Keeps (Signed P) (not (rc == 0)) _ s k)
        λ _ s1 k1.
          follow-Keeps (Signed P) _ (get_response_code net auth drive s1)
            (get_response_code-Signed known drive lasts s1 k1)
            λ code s2 k2.
              follow-Keeps (Signed P) _ (return_if (not (is_ok code)) _ s2)
                (return_if-Keeps (Signed P) (not (is_ok code)) _ s2 k2) λ _ s3 k3. k3

  download_file-Signed : (url : Bytes) → Safe (download_file net auth drive url)
  unfolding download_file
  download_file-Signed url s k =
      let ((rc, sink), w) = net.perform (download_request url) s.outside in
      function-Signed known drive lasts (download_steps net auth drive rc)
        (download_steps-Signed rc) (record s { outside = w }) k

  fetched-Signed : (x : Res (ℤ × Bytes) × S) → P x.1.token → P (fetched net auth drive x).1.token
  fetched-Signed (ret r, s) k = k
  fetched-Signed (go (fsize, url), s) k = download_file-Signed url s k

  get_whole-Signed : (path : Bytes) (buflen : ℕ) → Safe (get_whole net auth drive path buflen)
  unfolding get_whole
  get_whole-Signed path buflen s k =
      fetched-Signed (prepare_get net auth drive path buflen s) (prepare_get-Signed path buflen s k)

  delete_whole_steps-Signed : (path : Bytes) → Safe (delete_whole_steps net auth drive path)
  unfolding delete_whole_steps
  delete_whole_steps-Signed path s k =
      let text = app_root ++ codes ":" ++ path ++ codes ":" in
      follow-Keeps (Signed P) _ (check_token net auth drive s)
        (check_token-Signed known drive lasts s k)
        λ _ s1 k1.
          follow-Keeps (Signed P) _ (new_http net auth drive _ s1)
            (new_http-Signed known drive lasts _ s1 k1)
            λ _ s2 k2.
              follow-Keeps (Signed P) _ (printed net auth drive text s2)
                (printed-Signed known drive lasts text s2 k2)
                λ url s3 k3.
                  follow-Keeps (Signed P) _ (get_bearer_token net auth drive s3)
                    (bearer-Signed known drive lasts s3 k3)
                    λ bearer s4 k4.
                      let sent = request net auth drive (delete_request url bearer) in
                      follow-Keeps (Signed P) _ (closing_failed net auth drive sent s4)
                        (closing_failed-Signed known drive lasts sent
                          (request-Signed known drive lasts (delete_request url bearer)) s4 k4)
                        λ _ s5 k5.
                          let seen = expect net auth drive no_content in
                          follow-Keeps (Signed P) _ (closing net auth drive seen s5)
                            (closing-Signed known drive lasts seen
                              (expect-Signed known drive lasts no_content) s5 k5)
                            λ _ s6 k6. k6

  delete_whole-Signed : (path : Bytes) → Safe (delete_whole net auth drive path)
  unfolding delete_whole
  delete_whole-Signed path =
      function-Signed known drive lasts (delete_whole_steps net auth drive path)
        (delete_whole_steps-Signed path)

-- The name of the file has at most 900 bytes, so that the URLs printed from it fit, and `dirname` of a
-- path that begins with a slash is not longer than the path; answers with status 200 are not empty, and codes of errors have 24
-- bits. Then a connection whose token has all three strings, none of them empty, has such a token after
-- each of the four functions on files.
pub files-Complete :
    {W J : Type 0} {net : Net W J} {auth : Auth W J}
    → Documented net auth
    → (drive : Drive W J) (from : Option Bytes) (len buflen : ℕ) (flag : Bool) (filename : Bytes)
      (s : Session W)
    → length filename ≤ 900
    → ((path : Bytes) → length (drive.dirname (codes "/" ++ path)) ≤ suc (length path))
    → Complete s.token
    → Complete (put_file_from_buffer net auth drive from len flag filename s).1.token
      × Complete (get_file_length net auth drive filename s).1.token
      × Complete (get_file_to_buffer net auth drive filename flag buflen s).1.token
      × Complete (delete_file net auth drive filename s).1.token
unfolding put_file_from_buffer get_file_length get_file_to_buffer delete_file
files-Complete {net} {auth} known drive from len buflen flag filename s short_name shortens k =
    let lasts = Complete-Lasts in
    let path = file_path net auth drive filename in
    let put = put_whole-Signed known drive lasts from len (take 4095 path) s k in
    elim (Bool-cases (is_long net auth drive path)) [
      | inl long ↦ (put, rw long k, rw long k, rw long k)
      | inr short ↦ (
        put,
        rw short (get_whole_length-Signed known drive lasts path s k),
        rw short (get_whole-Signed known drive lasts path buflen s k),
        rw short (delete_whole-Signed known drive lasts path s k),
      )
    ]
