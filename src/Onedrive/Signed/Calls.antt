-- ===== src/Onedrive/Signed/Calls.antt =====
-- The functions of src/vendors/onedrive/onedrive.c keep the token of a connection.
use elastos_net_hive_native.Base.{
  ℕ, ◌-◌, Bool, false, not, leb, Bytes, codes, str_eq, length, [], ◌++◌, Option, ℤ, pos, is_neg,
  Bool-cases, inl, inr, if◌then◌else◌,
}
use elastos_net_hive_native.Error.Code.{hiveerr_out_of_memory}
use elastos_net_hive_native.Http.Body.{http_client_move_response_body}
use elastos_net_hive_native.Http.Step.{
  Step, ◌>>=◌, ◌>>◌, return_if, return_after, need, step, continue, function,
}
use elastos_net_hive_native.Http.Keeps.{
  Keeps, follow-Keeps, return_after-Keeps, return_if-Keeps, need-Keeps, value-Keeps,
}
use elastos_net_hive_native.Http.Client.{HttpClient, Sink, Net}
use elastos_net_hive_native.Ipfs.Connect.{own_body}
use elastos_net_hive_native.Oauth.Token.{OauthToken, Session, Auth}
use elastos_net_hive_native.Oauth.Outcome.{Documented}
use elastos_net_hive_native.Onedrive.Request.{
  Drive, app_root, close, check_token, new_http, printed, get_bearer_token, request,
  get_response_code, expect, parsed, closing, closing_failed, general, is_done, is_ok,
  folder_request, upload_request, session_request, part_request,
}
use elastos_net_hive_native.Onedrive.Put.{
  create_folder_body, create_folder_steps, upload_to_session_steps, put_large_steps, create_folder,
  upload_file, create_upload_session, upload_to_session, put_large, put_whole, direct_size,
  text_item,
}
use elastos_net_hive_native.Onedrive.Signed.{
  Signed, Lasts, check_token-Signed, new_http-Signed, printed-Signed, bearer-Signed, request-Signed,
  get_response_code-Signed, expect-Signed, parsed-Signed, closing_failed-Signed,
}

module _ {W J : Type 0} {net : Net W J} {auth : Auth W J} (known : Documented net auth)
    (drive : Drive W J) {P : OauthToken → Type 0} (lasts : Lasts P) where
  abbrev S : Type 0
  S = Session W

  abbrev Safe : {A : Type 0} → (S → A × S) → Type 0
  Safe m = Keeps (Signed P) m

  -- The start of a function: the token, and the client.
  pub started-Signed :
      {A : Type 0} (err : ℤ) (next : Step S A)
      → Safe next
      → Safe (check_token net auth drive >> (new_http net auth drive err >> next))
  started-Signed err next h s k =
      follow-Keeps (Signed P) _ (check_token net auth drive s)
        (check_token-Signed known drive lasts s k)
        λ _ s1 k1.
          follow-Keeps (Signed P) _ (new_http net auth drive err s1)
            (new_http-Signed known drive lasts err s1 k1) λ _. h

  -- A request with the token that is answered well, and what follows it.
  answered-Signed :
      {A : Type 0} (client : HttpClient) (good : ℕ → Bool) (next : Sink → Step S A)
      → ((sink : Sink) → Safe (next sink))
      → Safe (do sink ← request net auth drive client; expect net auth drive good; next sink)
  answered-Signed client good next h s k =
      follow-Keeps (Signed P) _ (request net auth drive client s)
        (request-Signed known drive lasts client s k)
        λ sink s1 k1.
          follow-Keeps (Signed P) _ (expect net auth drive good s1)
            (expect-Signed known drive lasts good s1 k1) λ _. h sink

  pub asked-Signed :
      {A : Type 0} (text : Bytes) (client : Bytes → Bytes → HttpClient) (good : ℕ → Bool)
      (next : Sink → Step S A)
      → ((sink : Sink) → Safe (next sink))
      → Safe (do
        url ← printed net auth drive text
        bearer ← get_bearer_token net auth drive
        sink ← request net auth drive (client url bearer)
        expect net auth drive good
        next sink)
  asked-Signed text client good next h s k =
      follow-Keeps (Signed P) _ (printed net auth drive text s)
        (printed-Signed known drive lasts text s k)
        λ url s1 k1.
          follow-Keeps (Signed P) _ (get_bearer_token net auth drive s1)
            (bearer-Signed known drive lasts s1 k1)
            λ bearer. answered-Signed (client url bearer) good next h

  pub function-Signed : (m : Step S ℤ) → Safe m → Safe (function m)
  function-Signed m h s k = value-Keeps (Signed P) (m s) (h s k)

  upload_file-Signed :
      (path : Bytes) (from : Option Bytes) (len : ℕ)
      → Safe (upload_file net auth drive path from len)
  unfolding upload_file
  upload_file-Signed path from len = function-Signed _ (
      asked-Signed (app_root ++ codes ":" ++ path ++ codes ":/content")
        (λ url bearer. upload_request url bearer from len) is_done (λ _. continue (pos 0))
        (λ _ s k. k))

  folder_body-Signed : (fname : Bytes) → Safe (create_folder_body net auth drive fname)
  unfolding create_folder_body
  folder_body-Signed fname s k =
      let err = general net auth drive hiveerr_out_of_memory in
      let (made, w) = auth.create_object s.outside in
      let start : S = record s { outside = w } in
      follow-Keeps (Signed P) _ (need made err start) (need-Keeps (Signed P) made err start k)
        λ body s1 k1.
          let ((named, body1), w1) = drive.add_string body (codes "name") fname s1.outside in
          let with_name : S = record s1 { outside = w1 } in
          follow-Keeps (Signed P) _ (return_if (not named) err with_name)
            (return_if-Keeps (Signed P) (not named) err with_name k1)
            λ _ s2 k2.
              let ((filled, body2), w2) = drive.add_object body1 (codes "folder") s2.outside in
              let with_folder : S = record s2 { outside = w2 } in
              follow-Keeps (Signed P) _ (return_if (not filled) err with_folder)
                (return_if-Keeps (Signed P) (not filled) err with_folder k2)
                λ _ s3 k3.
                  let (text, w3) = drive.print body2 s3.outside in
                  need-Keeps (Signed P) text err (record s3 { outside = w3 }) k3

  create_folder_steps-Signed : (path : Bytes) → Safe (create_folder_steps net auth drive path)
  unfolding create_folder_steps
  create_folder_steps-Signed path =
      let dir = drive.dirname path in
      let parent = if str_eq dir (codes "/") then [] else codes ":" ++ dir ++ codes ":" in
      let text = app_root ++ parent ++ codes "/children" in
      λ s k.
        follow-Keeps (Signed P) _ (printed net auth drive text s)
          (printed-Signed known drive lasts text s k)
          λ url s1 k1.
            follow-Keeps (Signed P) _ (create_folder_body net auth drive (drive.basename path) s1)
              (folder_body-Signed (drive.basename path) s1 k1)
              λ body s2 k2.
                follow-Keeps (Signed P) _ (get_bearer_token net auth drive s2)
                  (bearer-Signed known drive lasts s2 k2)
                  λ bearer.
                    answered-Signed (folder_request url bearer body) is_done (λ _. continue (pos 0))
                      (λ _ s k. k)

  create_folder-Signed : (path : Bytes) → Safe (create_folder net auth drive path)
  unfolding create_folder
  create_folder-Signed path =
      function-Signed (create_folder_steps net auth drive path) (create_folder_steps-Signed path)

  create_upload_session-Signed : (path : Bytes) → Safe (create_upload_session net auth drive path)
  unfolding create_upload_session
  create_upload_session-Signed path =
      asked-Signed (app_root ++ codes ":" ++ path ++ codes ":/createUploadSession") session_request
        is_ok _
        λ sink s k.
          let m = http_client_move_response_body (own_body sink) false in
          follow-Keeps (Signed P) _ (parsed net auth drive m s)
            (parsed-Signed known drive lasts m s k)
            λ resp s1 k1.
              let url = text_item net auth drive (net.get_item resp (codes "uploadUrl")) in
              follow-Keeps (Signed P) _ (need url _ s1) (need-Keeps (Signed P) url _ s1 k1)
                λ text s2 k2.
                  follow-Keeps (Signed P) _ (return_if (leb 1024 (length text)) _ s2)
                    (return_if-Keeps (Signed P) (leb 1024 (length text)) _ s2 k2) λ _ s3 k3. k3

  upload_to_session_steps-Signed :
      (url : Bytes) (buf : Option Bytes) (len : ℕ)
      → Safe (upload_to_session_steps net auth drive url buf len)
  unfolding upload_to_session_steps
  upload_to_session_steps-Signed url buf len =
      let size = net.decimal len in
      let range = codes "bytes 0-" ++ net.decimal (len - 1) ++ codes "/" ++ size in
      let client = part_request url size range buf len in
      λ s k.
        follow-Keeps (Signed P) _ (request net auth drive client s)
          (request-Signed known drive lasts client s k)
          λ _ s1 k1.
            follow-Keeps (Signed P) _ (get_response_code net auth drive s1)
              (get_response_code-Signed known drive lasts s1 k1)
              λ code s2 k2.
                follow-Keeps (Signed P) _ (return_if (not (is_done code)) _ s2)
                  (return_if-Keeps (Signed P) (not (is_done code)) _ s2 k2) λ _ s3 k3. k3

  upload_to_session-Signed :
      (url : Bytes) (buf : Option Bytes) (len : ℕ)
      → Safe (upload_to_session net auth drive url buf len)
  unfolding upload_to_session
  upload_to_session-Signed url buf len =
      function-Signed (upload_to_session_steps net auth drive url buf len)
        (upload_to_session_steps-Signed url buf len)

  put_large_steps-Signed :
      (from : Option Bytes) (len : ℕ) (path : Bytes)
      → Safe (put_large_steps net auth drive from len path)
  unfolding put_large_steps
  put_large_steps-Signed from len path =
      let session = create_upload_session net auth drive path in
      λ s k.
        let (rc, s1) = create_folder net auth drive (drive.dirname path) s in
        follow-Keeps (Signed P) _ (return_after (is_neg rc) (close net auth drive) rc s1)
          (return_after-Keeps (Signed P) (is_neg rc) (close net auth drive) rc (λ s k. k) s1
            (create_folder-Signed (drive.dirname path) s k))
          λ _ s2 k2.
            follow-Keeps (Signed P) _ (closing_failed net auth drive session s2)
              (closing_failed-Signed known drive lasts session (create_upload_session-Signed path)
                s2 k2)
              λ url s3 k3.
                let (rc', s4) = upload_to_session net auth drive url from len s3 in
                follow-Keeps (Signed P) _ (return_if (is_neg rc') rc' (close net auth drive s4))
                  (return_if-Keeps (Signed P) (is_neg rc') rc' (close net auth drive s4)
                    (upload_to_session-Signed url from len s3 k3))
                  λ _ s5 k5. k5

  put_large-Signed :
      (from : Option Bytes) (len : ℕ) (path : Bytes) → Safe (put_large net auth drive from len path)
  unfolding put_large
  put_large-Signed from len path =
      function-Signed (put_large_steps net auth drive from len path)
        (put_large_steps-Signed from len path)

  pub put_whole-Signed :
      (from : Option Bytes) (len : ℕ) (path : Bytes) → Safe (put_whole net auth drive from len path)
  unfolding put_whole
  put_whole-Signed from len path = elim (Bool-cases (leb len direct_size)) [
    | inl direct ↦ rw direct (
        function-Signed _ (
          started-Signed (general net auth drive hiveerr_out_of_memory)
            (closing net auth drive (step (upload_file net auth drive path from len)))
            (upload_file-Signed path from len)))
    | inr large ↦ rw large (
        function-Signed _ (
          started-Signed (general net auth drive hiveerr_out_of_memory)
            (step (put_large net auth drive from len path)) (put_large-Signed from len path)))
  ]
