-- ===== src/Tests/Cloud.antt =====
-- A OneDrive connection over a server that keeps one file, whatever its path. The functions on whole
-- files of src/vendors/onedrive/onedrive.c make a store of it that keeps what it is given.
use elastos_net_hive_native.Base.{
  ℕ, ◌≤◌, ◌<◌, ◌≡◌, refl, sym, ap, ◌∙◌, true, false, leb, ◌==◌, ◌&&◌, Bytes, codes, inl, inr,
  is_zero, ssize_of_size, Option-cases, length, length-append, [], ◌∷◌, ◌++◌, Option, none, some,
  pos, negsuc, arith,
}
use mathlib.Core.Path.{subst}
use elastos_net_hive_native.Error.Code.{as_int}
use elastos_net_hive_native.Api.Connect.{HiveConnect}
use elastos_net_hive_native.Client.Directories.{Files, directory}
use elastos_net_hive_native.Http.Body.{Body, empty_body, http_client_move_response_body}
use elastos_net_hive_native.Http.Client.{
  HttpClient, Sink, eat, own, fixed, raw, Net, new_client, http_client_reset,
}
use elastos_net_hive_native.Oauth.Time.{is_later, gt_ℤ}
use elastos_net_hive_native.Oauth.Token.{OauthToken, Session, Auth, oauth_token_is_expired}
use elastos_net_hive_native.Oauth.Exchange.{oauth_token_check_expire}
use elastos_net_hive_native.Oauth.Expiry.{at_time}
use elastos_net_hive_native.Onedrive.Keystore.{Disk}
use elastos_net_hive_native.Onedrive.Request.{
  Drive, app_root, check_token, printed, get_bearer_token, request, get_response_code, authorized,
  expect, parsed, upload_request, info_request, download_request,
}
use elastos_net_hive_native.Onedrive.Put.{upload_file, put_whole, direct_size}
use elastos_net_hive_native.Onedrive.Get.{
  get_file_info, file_size, url_of, get_whole_length_steps, get_whole_length, prepare_get,
  download_steps, download_file, get_whole,
}
use elastos_net_hive_native.Onedrive.Connect.{onedrive_store}
use elastos_net_hive_native.Onedrive.Client.{Machine, auth_at, table}
use elastos_net_hive_native.Onedrive.Values.{Store, not_found, put_value, get_values}
use elastos_net_hive_native.Onedrive.Values.Kept.{Reliable}

-- The file of the server, and the status of its last answer
pub record Cloud : Type 0 where
  pub file : Option Bytes
  pub code : ℕ

-- A text that describes a file is one number, its size.
abbrev info : Bytes → Body
info b = record { used = 1; sz = 512; stored = length b ∷ [] }

abbrev sent : Option (Option Bytes × ℕ) → Bytes
sent (some (some b, n)) = b
sent other = []

abbrev told : Option Bytes → Sink × Cloud
told none = (own empty_body, record { file = none; code = 404 })
told (some b) = (own (info b), record { file = some b; code = 200 })

abbrev fetched : Option Bytes → Sink × Cloud
fetched none = (raw [], record { file = none; code = 404 })
fetched (some b) = (raw b, record { file = some b; code = 200 })

-- A response that is kept is the description of the file, one for a callback is its content, and a
-- request without a response replaces the file.
abbrev answered : Sink → HttpClient → Cloud → Sink × Cloud
answered (own body) client w = told w.file
answered (raw bytes) client w = fetched w.file
answered eat client w = (eat, record { file = some (sent client.body); code = 201 })
answered (fixed n bytes) client w = (fixed n bytes, w)

abbrev described : Bytes → Option ℕ
described [] = none
described (n ∷ text) = some n

abbrev pub cloud_net : Net Cloud ℕ
cloud_net = record {
  http_client_new = λ w. (true, w);
  http_client_close = λ w. w;
  perform = λ client w. let (sink, w') = answered client.sink client w in ((0, sink), w');
  response_code = λ w. (0, w.code);
  null_store = λ w. (negsuc 0, w);
  rand = λ w. (0, w);
  decimal = λ n. codes "0";
  parse = described;
  get_item = λ size name. some size;
  is_string = λ size. true;
  is_number = λ size. true;
  is_object = λ size. true;
  has_name = λ size. true;
  valuestring = λ size. codes "https://cloud/file";
  value_ssize = λ size. pos size;
}

-- The clock stands at 1000 seconds.
abbrev pub owner : Auth Cloud ℕ
owner = record {
  escape = λ text w. (some text, w);
  curl_url_get = λ part client w. ((0, []), w);
  calloc = λ size w. (true, w);
  errno = λ w. 0;
  gettimeofday = λ w. (at_time 1000 0, w);
  create_object = λ w. (none, w);
  add_string = λ json name text w. (json, w);
  add_number = λ json name n w. (json, w);
  get_item_any_case = λ json name. none;
  writeback_cb = λ json w. (pos 0, w);
  sb_new_server = λ host port w. (false, w);
  pthread_create = λ url w. (false, w);
  polls = λ w. ([], w);
  waiting = λ w. (none, w);
  sb_close_server = λ w. w;
}

abbrev pub cloud_drive : Drive Cloud ℕ
cloud_drive = record {
  dirname = λ path. codes "/";
  basename = λ path. path;
  add_string = λ json name text w. ((true, json), w);
  add_object = λ json name w. ((true, json), w);
  print = λ json w. (none, w);
  create_array = λ w. (true, w);
  is_array = λ json. true;
  items = λ json. [];
  overrun = λ w. (negsuc 0, w);
}

abbrev no_disk : Disk Cloud ℕ
no_disk = record {
  stat = λ path w. (none, w);
  open_read = λ path w. (negsuc 0, w);
  open_write = λ path w. (negsuc 0, w);
  read = λ fd size w. ((negsuc 0, []), w);
  write = λ fd bytes w. (negsuc 0, w);
  close = λ fd w. w;
  errno = λ w. 2;
  set_errno = λ e w. w;
  parse = λ s w. (none, w);
  print = λ json w. (none, w);
  overread = λ w. (none, w);
}

abbrev folders : Files Cloud
folders = record {
  stat = λ path w. (directory, w);
  mkdir = λ path w. (true, w);
  errno = λ w. 0;
  set_errno = λ e w. w;
}

abbrev pub machine : Machine Cloud ℕ
machine = record {
  files = folders;
  disk = no_disk;
  access = λ path w. (false, w);
  rc_zalloc = λ w. (true, w);
  delete_json = λ json w. w;
  deref = λ w. w;
  listing = λ e. (negsuc 0, e);
}

abbrev pub cloud_auth : Auth Cloud ℕ
cloud_auth = auth_at cloud_net owner cloud_drive machine 9 (codes "/h/onedrive.json")

-- A token that is valid up to 4600 seconds
abbrev pub valid_token : OauthToken
valid_token = record {
  authorize_url = codes "a";
  token_url = codes "t";
  client_id = codes "c";
  scope = codes "s";
  redirect_url = codes "r";
  token_type = some (codes "x");
  access_token = some (codes "y");
  refresh_token = some (codes "z");
  expires_at = at_time 4600 0;
}

abbrev pub at : Option Bytes → ℕ → Session Cloud
at file code = record { token = valid_token; outside = record { file = file; code = code } }

abbrev pub cloud_store : Store (Session Cloud)
cloud_store = onedrive_store cloud_net cloud_auth cloud_drive

fits_url :
    (path tail : Bytes)
    → length path ≤ 900
    → length tail ≤ 50
    → leb 1024 (length (app_root ++ codes ":" ++ path ++ tail)) ≡ false
fits_url path tail h k = let size = length-append path tail in ground (arith, size)

fits_whole :
    (path : Bytes) → length path ≤ 900 → leb 1024 (length (app_root ++ codes ":" ++ path)) ≡ false
fits_whole path h = ground arith

length_of_file :
    (path b : Bytes) (code : ℕ)
    → length path ≤ 900
    → get_whole_length cloud_net cloud_auth cloud_drive path (at (some b) code)
      ≡ (pos (length b), at (some b) 200)
unfolding get_whole_length get_whole_length_steps check_token oauth_token_check_expire
    oauth_token_is_expired is_later get_file_info printed get_bearer_token request expect
    get_response_code authorized parsed http_client_move_response_body file_size info_request
    new_client
length_of_file path b code h = rw (fits_whole path h) refl

length_of_none :
    (path : Bytes) (code : ℕ)
    → length path ≤ 900
    → get_whole_length cloud_net cloud_auth cloud_drive path (at none code)
      ≡ (as_int not_found, at none 404)
unfolding get_whole_length get_whole_length_steps check_token oauth_token_check_expire
    oauth_token_is_expired is_later get_file_info printed get_bearer_token request expect
    get_response_code authorized info_request new_client
length_of_none path code h = rw (fits_whole path h) refl

get_of_file :
    (path b : Bytes) (code : ℕ)
    → length path ≤ 900
    → 0 < length b
    → length b ≤ direct_size
    → get_whole cloud_net cloud_auth cloud_drive path (length b) (at (some b) code)
      ≡ ((pos (length b), b), at (some b) 200)
unfolding get_whole prepare_get check_token oauth_token_check_expire oauth_token_is_expired is_later
    get_file_info printed get_bearer_token request expect get_response_code authorized parsed
    http_client_move_response_body file_size url_of download_file download_steps info_request
    download_request new_client http_client_reset
get_of_file path b code h some_ small =
    let room : ssize_of_size (length b) ≡ pos (length b) = ground arith in
    let fits : (gt_ℤ (pos (length b)) (pos 0) && gt_ℤ (pos (length b)) (pos (length b))) ≡ false =
      ground arith in
    let more : is_zero (pos (length b)) ≡ false = ground arith in
    rw (fits_whole path h, room, fits, more) refl

put_at :
    (path b : Bytes) (n : ℕ) (file : Option Bytes) (code : ℕ)
    → length path ≤ 900
    → 0 < n
    → n ≤ direct_size
    → put_whole cloud_net cloud_auth cloud_drive (some b) n path (at file code)
      ≡ (pos 0, at (some b) 201)
unfolding put_whole upload_file check_token oauth_token_check_expire oauth_token_is_expired is_later
    printed get_bearer_token request expect get_response_code authorized upload_request new_client
put_at path b n file code h some_ small =
    let direct : leb n direct_size ≡ true = ground arith in
    let more : (n == 0) ≡ false = ground arith in
    rw (direct, fits_url path (codes ":/content") h (omega arith), more) refl

is_at :
    (s : Session Cloud) (file : Option Bytes)
    → s.token ≡ valid_token
    → s.outside.file ≡ file
    → s ≡ at file s.outside.code
is_at s file t f =
    ap (λ (token : OauthToken). record s { token = token }) t
    ∙ ap (λ (file : Option Bytes). at file s.outside.code) f

-- The result of a call, and what it leaves, where the file is this one
abbrev Gives : {A : Type 0} → A → Option Bytes → A × Session Cloud → Type 0
Gives a file r = (r.0 ≡ a) × (r.1.token ≡ valid_token) × (r.1.outside.file ≡ file)

module _ (path : Bytes) (fits : length path ≤ 900) (s : Session Cloud)
    (ready : s.token ≡ valid_token) where
  pub length_found :
      (b : Bytes)
      → s.outside.file ≡ some b
      → Gives (pos (length b)) (some b) (get_whole_length cloud_net cloud_auth cloud_drive path s)
  length_found b kept =
      subst
        (λ (s : Session Cloud).
          Gives (pos (length b)) (some b)
            (get_whole_length cloud_net cloud_auth cloud_drive path s))
        (sym (is_at s (some b) ready kept))
        (rw (length_of_file path b s.outside.code fits) (refl, refl, refl))

  pub length_missing :
      s.outside.file ≡ none
      → Gives (as_int not_found) none (get_whole_length cloud_net cloud_auth cloud_drive path s)
  length_missing missing =
      subst
        (λ (s : Session Cloud).
          Gives (as_int not_found) none (get_whole_length cloud_net cloud_auth cloud_drive path s))
        (sym (is_at s none ready missing))
        (rw (length_of_none path s.outside.code fits) (refl, refl, refl))

  pub after_length :
      let s' = (get_whole_length cloud_net cloud_auth cloud_drive path s).1 in
      (s'.token ≡ valid_token) × ((q : Bytes) → s'.outside.file ≡ s.outside.file)
  after_length = elim (Option-cases s.outside.file) [
    | inl missing ↦
        let (_, ready', same) = length_missing missing in (ready', λ q. same ∙ sym missing)
    | inr (b, kept) ↦ let (_, ready', same) = length_found b kept in (ready', λ q. same ∙ sym kept)
  ]

  pub get_found :
      (b : Bytes)
      → s.outside.file ≡ some b
      → 0 < length b
      → length b ≤ direct_size
      → Gives
          (pos (length b), b)
          (some b)
          (get_whole cloud_net cloud_auth cloud_drive path (length b) s)
  get_found b kept some_ small =
      subst
        (λ (s : Session Cloud).
          Gives (pos (length b), b) (some b)
            (get_whole cloud_net cloud_auth cloud_drive path (length b) s))
        (sym (is_at s (some b) ready kept))
        (rw (get_of_file path b s.outside.code fits some_ small) (refl, refl, refl))

  pub put_done :
      (b : Bytes) (n : ℕ)
      → 0 < n
      → n ≤ direct_size
      → Gives (pos 0) (some b) (put_whole cloud_net cloud_auth cloud_drive (some b) n path s)
  put_done b n some_ small =
      subst
        (λ (s : Session Cloud).
          Gives (pos 0) (some b) (put_whole cloud_net cloud_auth cloud_drive (some b) n path s))
        (sym (is_at s s.outside.file ready refl))
        (rw (put_at path b n s.outside.file s.outside.code fits some_ small) (refl, refl, refl))

-- The store of the connection's own functions, for paths whose URLs fit and for files that are put by
-- one request
abbrev pub cloud-Reliable : Reliable cloud_store
cloud-Reliable = record {
  content = λ q s. s.outside.file;
  Ready = λ s. s.token ≡ valid_token;
  Fits = λ path. length path ≤ 900;
  room = direct_size;
  room_small = omega arith;
  length_found = λ path e b fits ready kept le. (length_found path fits e.world ready b kept).0;
  length_missing = λ path e fits ready missing. (length_missing path fits e.world ready missing).0;
  after_length = λ path e fits ready. after_length path fits e.world ready;
  get_found = λ path x e b fits ready kept some_ le.
      let (done, ready', same) = get_found path fits e.world ready b kept some_ le in
      (done, ready', λ q. same ∙ sym kept);
  put_done = λ b n x path e fits ready sum some_ le.
      let (done, ready', same) = put_done path fits e.world ready b n some_ le in
      (done, same, ready');
  calloc_done = λ n s ready le. (refl, ready, λ q. refl);
}

-- The table of the connection
abbrev pub onedrive : HiveConnect (Session Cloud)
onedrive = table cloud_net owner cloud_drive machine 9 (codes "/h/onedrive.json")

pub onedrive_puts : onedrive.put_value ≡ some (put_value cloud_store)
unfolding table
onedrive_puts = refl

pub onedrive_gets : onedrive.get_values ≡ some (get_values cloud_store)
unfolding table
onedrive_gets = refl
