-- ===== src/Onedrive/Client.antt =====
-- `onedrive_client_connect` of src/vendors/onedrive/onedrive.c: a connection with its token, which the
-- file that keeps it or a login gives.
pub mod Restored
pub mod SignedIn
use elastos_net_hive_native.Base.{
  ℕ, Bool, not, ◌&&◌, ◌==◌, leb, Bytes, codes, length, ◌++◌, Option, none, some, is_some, ℤ, pos,
  is_neg, if◌then◌else◌,
}
use elastos_net_hive_native.Error.Code.{
  as_int, hive_general_error, hive_sys_error, hiveerr_invalid_args, hiveerr_out_of_memory,
}
use elastos_net_hive_native.Http.Step.{Res, ret, go, Step, ◌>>=◌, ◌>>◌, step, effect, continue}
use elastos_net_hive_native.Http.Client.{Net}
use elastos_net_hive_native.Api.Connect.{Env, HiveConnect, call}
use elastos_net_hive_native.Ipfs.Rpc.{is_empty}
use elastos_net_hive_native.Ipfs.Options.{text_or_empty}
use elastos_net_hive_native.Client.Directories.{Files, eexist, mkdirs}
use elastos_net_hive_native.Client.Object.{HiveClient}
use elastos_net_hive_native.Oauth.Token.{OauthToken, Session, Auth, fresh_token, oauth_token_new}
use elastos_net_hive_native.Oauth.Authorize.{oauth_token_request}
use elastos_net_hive_native.Onedrive.Keystore.{Disk, load_keystore_in_json, oauth_writeback}
use elastos_net_hive_native.Onedrive.Request.{Drive}
use elastos_net_hive_native.Onedrive.Values.{path_max, put_value, set_value, get_values, delete_key}
use elastos_net_hive_native.Onedrive.Get.{contains}
use elastos_net_hive_native.Onedrive.Listing.{list_files}
use elastos_net_hive_native.Onedrive.Connect.{
  onedrive_store, put_file_from_buffer, get_file_length, get_file_to_buffer, delete_file,
  expire_token,
}

-- `callback` says whether the function is given that shows the login page.
pub record OneDriveConnectOptions : Type 0 where
  pub backend_type : ℕ
  pub redirect_url : Option Bytes
  pub scope : Option Bytes
  pub client_id : Option Bytes
  pub callback : Bool

-- The calls of the system that making a connection needs.
pub record Machine (W J : Type 0) : Type 0 where
  pub files : Files W
  pub disk : Disk W J
  -- access(path, F_OK) == 0
  pub access : Bytes → W → Bool × W
  pub rc_zalloc : W → Bool × W
  -- if (keystore) cJSON_Delete(keystore);
  pub delete_json : Option J → W → W
  pub deref : W → W
  -- A listing that does not end: the world chooses what it comes to.
  pub listing : Env (Session W) → ℤ × Env (Session W)

-- NULL, or the connection with its token
pub data Connected (W : Type 0) : Type 0 where
  refused : Env W → Connected W
  connected : HiveConnect (Session W) → Env (Session W) → Connected W

abbrev pub url_oauth : Bytes
url_oauth = codes "https://login.microsoftonline.com/common/oauth2/v2.0/"

abbrev pub is_given : Option Bytes → Bool
is_given text = not (is_empty (text_or_empty text))

unfoldable pub are_valid : OneDriveConnectOptions → Bool
are_valid options =
    is_given options.client_id
    && is_given options.redirect_url
    && is_given options.scope
    && contains (codes "Files.ReadWrite.AppFolder") (text_or_empty options.scope)
    && options.callback
    && options.backend_type == 0x10

unfoldable pub keystore_path : HiveClient → Bytes
keystore_path client = client.data_location ++ codes "/.data/onedrive.json"

-- if (test) { hive_set_error(err); cleanup; return NULL; }
abbrev pub refuse_if : {W : Type 0} → Bool → (W → W) → ℤ → Step (Env W) (Unit {0})
refuse_if test cleanup err e =
    if test then (ret err, record { hive_error = err; world = cleanup e.world }) else (go tt, e)

-- A pointer that is NULL is the end of the function, which another one has set the error for.
abbrev pub or_null : {W A : Type 0} → (W → W) → ℤ → Option A → Step (Env W) A
or_null cleanup err none e = (ret err, record { hive_error = err; world = cleanup e.world })
or_null cleanup err (some a) e = (go a, e)

-- The fuel is the number of rounds in a listing.
module _ {W J : Type 0} (net : Net W J) (auth : Auth W J) (drive : Drive W J)
    (machine : Machine W J) (fuel : ℕ) where
  -- The token of a connection is written to the file at its path.
  abbrev pub auth_at : Bytes → Auth W J
  auth_at path = record auth { writeback_cb = oauth_writeback machine.disk path }

  -- `oauth_opts` without its store
  abbrev pub new_token : OneDriveConnectOptions → OauthToken
  new_token options =
      fresh_token net auth (url_oauth ++ codes "authorize") (url_oauth ++ codes "token")
        (text_or_empty options.client_id) (text_or_empty options.scope)
        (text_or_empty options.redirect_url)

  abbrev pub or_listing : Option ℤ × Env (Session W) → ℤ × Env (Session W)
  or_listing (none, e) = machine.listing e
  or_listing (some rc, e) = (rc, e)

  -- if (connect->token) deref(connect->token); …
  abbrev pub disconnect : Env (Session W) → ℤ × Env (Session W)
  disconnect e =
      (pos 0, record e { world = record e.world { outside = machine.deref e.world.outside } })

  -- The functions on the keys are over those on whole files.
  unfoldable pub table : Bytes → HiveConnect (Session W)
  unfolding put_file_from_buffer get_file_length get_file_to_buffer list_files delete_file put_value
      set_value get_values delete_key expire_token
  table path =
      let own = auth_at path in
      let store = onedrive_store net own drive in
      record {
        put_file_from_buffer = some (λ from len encrypt filename.
            call (put_file_from_buffer net own drive from len encrypt filename));
        get_file_length = some (λ filename. call (get_file_length net own drive filename));
        get_file_to_buffer = some (λ filename decrypt buflen.
            call (get_file_to_buffer net own drive filename decrypt buflen));
        list_files = some (λ callback e. or_listing (list_files net own drive fuel callback e));
        delete_file = some (λ filename. call (delete_file net own drive filename));
        ipfs_put_file_from_buffer = none;
        ipfs_get_file_length = none;
        ipfs_get_file_to_buffer = none;
        put_value = some (put_value store);
        set_value = some (set_value store);
        get_values = some (get_values store);
        delete_key = some (delete_key store);
        disconnect = some disconnect;
        expire_token = some (call (expire_token net own drive));
      }

  -- The file's object, if the file is there
  unfoldable pub keystore_at : Bytes → Bool → Step (Env W) (Option J)
  unfolding load_keystore_in_json
  keystore_at path there =
      if there
      then (do
        keystore ← step (call (load_keystore_in_json machine.disk path))
        errno ← step (call (λ w. (machine.disk.errno w, w)))
        refuse_if (not (is_some keystore)) machine.deref (as_int (hive_sys_error errno))
        continue keystore)
      else continue none

  -- The memory, the directory and the file of a connection
  unfoldable pub prepare : Bytes → Step (Env W) (Option J)
  unfolding keystore_at mkdirs
  prepare path = do
    made ← step (call machine.rc_zalloc)
    refuse_if (not made) (λ w. w) (as_int (hive_general_error hiveerr_out_of_memory))
    refuse_if (leb path_max (length path)) machine.deref
        (as_int (hive_general_error hiveerr_invalid_args))
    rc ← step (call (mkdirs machine.files (drive.dirname path)))
    errno ← step (call (λ w. (machine.files.errno w, w)))
    refuse_if (is_neg rc && not (errno == eexist)) machine.deref (as_int (hive_sys_error errno))
    there ← step (call (machine.access path))
    keystore_at path there

  -- A token with what the file has kept
  unfoldable pub make_token : Bytes → OneDriveConnectOptions → Step (Env W) OauthToken
  unfolding prepare oauth_token_new
  make_token path options = do
    refuse_if (not (are_valid options)) (λ w. w) (as_int (hive_general_error hiveerr_invalid_args))
    keystore ← prepare path
    made ← step (call machine.rc_zalloc)
    (rc, token) ← step (call (oauth_token_new net (auth_at path) made (new_token options) keystore))
    effect (λ e. record e { world = machine.delete_json keystore e.world })
    or_null machine.deref rc token

  -- The result of the login
  abbrev pub signed_in : Bytes → ℤ × Env (Session W) → Connected W
  signed_in path (rc, e) =
      if is_neg rc
      then refused (record { hive_error = e.hive_error; world = machine.deref e.world.outside })
      else connected (table path) e

  abbrev pub sign_in : Bytes → Res OauthToken × Env W → Connected W
  sign_in path (ret err, e) = refused e
  sign_in path (go token, e) = signed_in path (
      oauth_token_request net (auth_at path)
        (record { hive_error = e.hive_error; world = record { token = token; outside = e.world } }))

  unfoldable pub onedrive_client_connect : HiveClient → OneDriveConnectOptions → Env W → Connected W
  unfolding keystore_path are_valid table make_token oauth_token_request
  onedrive_client_connect client options e =
      let path = keystore_path client in sign_in path (make_token path options e)
