-- ===== src/Tests/Drives.antt =====
-- A connection of the OneDrive backend: a valid token, and a server that gives two pages of names.
use elastos_net_hive_native.Base.{
  ℕ, suc, ◌≤◌, length, take, ◌++◌, ◌≡◌, refl, true, false, ◌||◌, Bytes, codes, str_eq, [], ◌∷◌,
  none, some, pos, negsuc, if◌then◌else◌, Bool, arith,
}
use elastos_net_hive_native.Api.Connect.{Env, FilesIterateCallback}
use elastos_net_hive_native.Http.Body.{Body}
use elastos_net_hive_native.Http.Step.{go}
use elastos_net_hive_native.Http.Client.{own, Net}
use elastos_net_hive_native.Oauth.Time.{is_later}
use elastos_net_hive_native.Oauth.Token.{OauthToken, Session, oauth_token_is_expired}
use elastos_net_hive_native.Oauth.Exchange.{oauth_token_check_expire}
use elastos_net_hive_native.Oauth.Expiry.{at_time}
use elastos_net_hive_native.Onedrive.Request.{Drive, check_token}
use elastos_net_hive_native.Onedrive.Connect.{
  put_file_from_buffer, get_file_length, get_file_to_buffer, delete_file,
}
use elastos_net_hive_native.Onedrive.Listing.{
  notify_user_files, children_url, start_list, list_files, close_client,
}
use elastos_net_hive_native.Onedrive.Listing.Pages.{
  no_items, item_more, Answer, last_page, list_files-Served,
}
use elastos_net_hive_native.Onedrive.Signed.{Complete}
use elastos_net_hive_native.Onedrive.Signed.Files.{files-Complete}
use elastos_net_hive_native.Tests.Tokens.{server, login, documented, new_token}

abbrev drive : Drive (Unit {0}) ℕ
drive = record {
  dirname = take 1;
  basename = λ path. path;
  add_string = λ json name text w. ((true, json), w);
  add_object = λ json name w. ((true, json), w);
  print = λ json w. (some (codes "{}"), w);
  create_array = λ w. (true, w);
  is_array = λ json. true;
  items = λ json. 1 ∷ 2 ∷ [];
  overrun = λ w. (negsuc 0, w);
}

abbrev signed : OauthToken
signed = record new_token {
  token_type = some (codes "x");
  access_token = some (codes "y");
  refresh_token = some (codes "z");
  expires_at = at_time 4600 0;
}

abbrev session : Session (Unit {0})
session = record { token = signed; outside = tt }

complete : Complete signed
complete = (codes "x", codes "y", codes "z", refl, refl, refl, refl, refl, refl)

parent_fits : (path : Bytes) → length (take 1 (codes "/" ++ path)) ≤ suc (length path)
parent_fits path = omega arith

files-Complete_example :
    Complete
      (put_file_from_buffer server login drive
        (some (codes "abc"))
        3
        false
        (codes "f")
        session).1.token
    × Complete (get_file_length server login drive (codes "f") session).1.token
    × Complete (get_file_to_buffer server login drive (codes "f") false 9 session).1.token
    × Complete (delete_file server login drive (codes "f") session).1.token
files-Complete_example =
    files-Complete documented drive (some (codes "abc")) 3 9 false (codes "f") session (omega arith)
      parent_fits complete

-- One page with two names
abbrev is_absent : Bytes → Bool
is_absent name = str_eq name (codes "folder") || str_eq name (codes "@odata.nextLink")

abbrev body : Body
body = record { used = 2; sz = 512; stored = codes "{}" }

abbrev listing : Net (Unit {0}) ℕ
listing = record server {
  perform = λ client w. ((0, own body), w);
  get_item = λ json name. if is_absent name then none else some json;
  valuestring = λ json. json ∷ [];
}

answer : Answer listing login drive children_url session ((1 ∷ []) ∷ (2 ∷ []) ∷ []) none session
answer = record {
  bearer = codes "y";
  body = body;
  json = 0;
  items = 1 ∷ 2 ∷ [];
  has_token = refl;
  arrives = refl;
  accepted = refl;
  some_body = refl;
  parses = refl;
  has_items = refl;
  named = item_more refl (item_more refl no_items);
  has_next = refl;
  same_token = refl;
}

abbrev proceed : FilesIterateCallback (Session (Unit {0}))
proceed name e = (true, e)

abbrev cleared : Env (Session (Unit {0}))
cleared = record { hive_error = pos 0; world = session }

started : start_list listing login drive session ≡ (go tt, session)
unfolding start_list check_token oauth_token_check_expire oauth_token_is_expired is_later
started = refl

list_files-Served_example :
    list_files listing login drive 1 proceed cleared
    ≡ close_client listing login drive
        (some (pos 0), notify_user_files ((1 ∷ []) ∷ (2 ∷ []) ∷ []) proceed cleared)
list_files-Served_example =
    list_files-Served listing login drive proceed 1 (((1 ∷ []) ∷ (2 ∷ []) ∷ []) ∷ []) cleared
      session session started (last_page answer) (omega arith)
