-- ===== src/Tests/Reconnect.antt =====
-- A connection to OneDrive over a file that keeps a token.
use mathlib.Core.Option.{some-injective}
use elastos_net_hive_native.Base.{
  ◌<◌, ◌≡◌, refl, ap, true, Bytes, codes, length, [], ◌∷◌, ◌++◌, Option, none, some, pos, negsuc,
  arith,
}
use elastos_net_hive_native.Api.Connect.{Env}
use elastos_net_hive_native.Client.Directories.{Files, directory, mkdirs}
use elastos_net_hive_native.Client.Object.{HiveClient}
use elastos_net_hive_native.Oauth.Token.{Auth}
use elastos_net_hive_native.Oauth.Outcome.{Documented}
use elastos_net_hive_native.Oauth.Storage.{Objects, restored}
use elastos_net_hive_native.Onedrive.Keystore.{Disk}
use elastos_net_hive_native.Onedrive.Reload.{FileLaws}
use elastos_net_hive_native.Onedrive.Request.{Drive}
use elastos_net_hive_native.Onedrive.Client.{
  OneDriveConnectOptions, Machine, connected, are_valid, keystore_path, auth_at, new_token, table,
  onedrive_client_connect,
}
use elastos_net_hive_native.Onedrive.Client.Restored.{Undisturbed, onedrive_client_connect-Restored}
use elastos_net_hive_native.Onedrive.Client.SignedIn.{SignedIn, onedrive_client_connect-SignedIn}
use elastos_net_hive_native.Tests.Stores.{
  Members, World, objects_net, objects_auth, objects, string_member, number_member,
}

abbrev text : Bytes
text = codes "{...}"

abbrev kept : Members
kept =
    string_member (codes "client_id") (some (codes "c"))
    ∷ string_member (codes "token_type") (some (codes "x"))
    ∷ string_member (codes "access_token") (some (codes "y"))
    ∷ string_member (codes "refresh_token") (some (codes "z"))
    ∷ number_member (codes "expires_at") (pos 4600)
    ∷ []

-- Each file holds the text, which parses as the object, and none can be written.
abbrev disk : Disk World Members
disk = record {
  stat = λ path w. (some (length (text ++ 0 ∷ [])), w);
  open_read = λ path w. (pos 3, w);
  open_write = λ path w. (negsuc 0, w);
  read = λ fd size w. ((pos (length (text ++ 0 ∷ [])), text ++ 0 ∷ []), w);
  write = λ fd bytes w. (negsuc 0, w);
  close = λ fd w. w;
  errno = λ w. 0;
  set_errno = λ e w. w;
  parse = λ s w. (some kept, w);
  print = λ json w. (none, w);
  overread = λ w. (none, w);
}

abbrev content : Bytes → World → Option Bytes
content path w = some (text ++ 0 ∷ [])

disk-FileLaws : FileLaws disk content
disk-FileLaws = record {
  small = λ w. omega arith;
  stored = λ path bytes w opened whole. absurd (cc opened);
  size = λ path bytes w h. ap (λ (b : Bytes). (some (length b), w)) (some-injective _ bytes h);
  opens = λ path bytes w h. refl;
  reads = λ path bytes w h. ap (λ (b : Bytes). (pos (length b), b)) (some-injective _ bytes h);
}

abbrev files : Files World
files = record {
  stat = λ path w. (directory, w);
  mkdir = λ path w. (true, w);
  errno = λ w. 0;
  set_errno = λ e w. w;
}

abbrev machine : Machine World Members
machine = record {
  files = files;
  disk = disk;
  access = λ path w. (true, w);
  rc_zalloc = λ w. (true, w);
  delete_json = λ json w. w;
  deref = λ w. w;
  listing = λ e. (negsuc 0, e);
}

abbrev drive : Drive World Members
drive = record {
  dirname = λ path. codes "/h";
  basename = λ path. path;
  add_string = λ json name s w. ((true, json), w);
  add_object = λ json name w. ((true, json), w);
  print = λ json w. (none, w);
  create_array = λ w. (true, w);
  is_array = λ json. true;
  items = λ json. [];
  overrun = λ w. (negsuc 0, w);
}

abbrev client : HiveClient
client = record { data_location = codes "/h" }

abbrev options : OneDriveConnectOptions
options = record {
  backend_type = 0x10;
  redirect_url = some (codes "r");
  scope = some (codes "Files.ReadWrite.AppFolder offline_access");
  client_id = some (codes "c");
  callback = true;
}

abbrev own : Auth World Members
own = auth_at objects_net objects_auth drive machine 9 (keystore_path client)

own-Objects : Objects objects_net own
own-Objects = record {
  get-create = objects.get-create;
  get-add_string = objects.get-add_string;
  get-add_number = objects.get-add_number;
  get-add_string_other = objects.get-add_string_other;
  get-add_number_other = objects.get-add_number_other;
}

calm : Undisturbed drive machine content (keystore_path client)
unfolding mkdirs
calm = record {
  gives = λ w. refl;
  content-rc_zalloc = λ w. refl;
  makes = λ w. refl;
  content-mkdirs = λ w. refl;
  is_there = λ w bytes h. refl;
  content-access = λ w. refl;
}

is_valid : are_valid options ≡ true
unfolding are_valid
is_valid = refl

path_fits : length (keystore_path client) < 4096
unfolding keystore_path
path_fits = omega arith

abbrev thread : Env World
thread = record { hive_error = pos 0; world = none }

onedrive_client_connect-Restored_example :
    (w : World) × (onedrive_client_connect objects_net objects_auth drive machine 9 client options
        thread
      ≡ connected (table objects_net objects_auth drive machine 9 (keystore_path client)) (record {
        hive_error = pos 0;
        world = record {
          token =
              restored own-Objects
                (codes "x")
                (codes "y")
                (codes "z")
                4600
                (new_token objects_net objects_auth drive machine 9 options);
          outside = w;
        };
      }))
onedrive_client_connect-Restored_example =
    onedrive_client_connect-Restored objects_net objects_auth drive machine 9 content disk-FileLaws
      client options thread kept (codes "x") (codes "y") (codes "z") 4600 own-Objects is_valid
      path_fits calm (text, refl, omega arith, refl, λ w. refl)
      (
        (string_member (codes "client_id") (some (codes "c")) ∷ [], refl, refl, refl),
        (string_member (codes "token_type") (some (codes "x")) ∷ [], refl, refl, refl),
        (string_member (codes "access_token") (some (codes "y")) ∷ [], refl, refl, refl),
        (string_member (codes "refresh_token") (some (codes "z")) ∷ [], refl, refl, refl),
        (number_member (codes "expires_at") (pos 4600) ∷ [], refl, refl, refl),
      )
      (λ w. refl)

own-Documented : Documented objects_net own
own-Documented = record {
  errno_small = λ w. omega arith;
  perform_small = λ c w. omega arith;
  response_small = λ w. (omega arith, omega arith);
  replies = λ c b w sink arrived is_ok. refl;
}

onedrive_client_connect-SignedIn_example :
    SignedIn options
      (new_token objects_net objects_auth drive machine 9 options)
      (onedrive_client_connect objects_net objects_auth drive machine 9 client options thread)
onedrive_client_connect-SignedIn_example =
    onedrive_client_connect-SignedIn objects_net objects_auth drive machine 9 client options thread
      own-Documented
