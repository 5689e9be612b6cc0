-- ===== src/Onedrive/Client/Restored.antt =====
-- A connection of src/vendors/onedrive/onedrive.c over a file that keeps its token.
use elastos_net_hive_native.Base.{
  ℕ, ◌<◌, ◌≡◌, refl, ap, ◌∙◌, true, false, leb, Bytes, length, [], ◌∷◌, ◌++◌, Option, some, none,
  pos, arith,
}
use elastos_net_hive_native.Http.Step.{go}
use elastos_net_hive_native.Http.Client.{Net}
use elastos_net_hive_native.Api.Connect.{Env}
use elastos_net_hive_native.Ipfs.Options.{text_or_empty}
use elastos_net_hive_native.Client.Directories.{mkdirs}
use elastos_net_hive_native.Client.Object.{HiveClient}
use elastos_net_hive_native.Oauth.Token.{
  Session, Auth, block_size, oauth_token_new, restore_access_token,
}
use elastos_net_hive_native.Oauth.Authorize.{oauth_token_request}
use elastos_net_hive_native.Oauth.Storage.{Objects, Stored, restored, restore-Restores}
use elastos_net_hive_native.Onedrive.Keystore.{or_enomem, load_keystore_in_json}
use elastos_net_hive_native.Onedrive.Reload.{no_nul, FileLaws, load-Content}
use elastos_net_hive_native.Onedrive.Request.{Drive}
use elastos_net_hive_native.Onedrive.Client.{
  OneDriveConnectOptions, Machine, connected, are_valid, keystore_path, auth_at, new_token, table,
  keystore_at, prepare, make_token, onedrive_client_connect,
}

-- Memory is given and the directory made, which leaves the file at the path as it was, and so does the
-- question whether it is there.
pub record Undisturbed {W J : Type 0} (drive : Drive W J) (machine : Machine W J)
    (content : Bytes → W → Option Bytes) (path : Bytes) : Type 0 where
  pub gives : (w : W) → (machine.rc_zalloc w).0 ≡ true
  pub content-rc_zalloc : (w : W) → content path (machine.rc_zalloc w).1 ≡ content path w
  pub makes : (w : W) → (mkdirs machine.files (drive.dirname path) w).0 ≡ pos 0
  pub content-mkdirs :
      (w : W) → content path (mkdirs machine.files (drive.dirname path) w).1 ≡ content path w
  pub is_there :
      (w : W) (bytes : Bytes) → content path w ≡ some bytes → (machine.access path w).0 ≡ true
  pub content-access : (w : W) → content path (machine.access path w).1 ≡ content path w

module _ {W J : Type 0} (net : Net W J) (auth : Auth W J) (drive : Drive W J)
    (machine : Machine W J) (fuel : ℕ) (content : Bytes → W → Option Bytes)
    (laws : FileLaws machine.disk content) where
  or_enomem-some :
      (x : Option J × W) (json : J) → x.0 ≡ some json → or_enomem machine.disk x ≡ (some json, x.1)
  or_enomem-some (none, w) json h = absurd (cc h)
  or_enomem-some (some json', w) json h = ap (λ (o : Option J). (o, w)) h

  -- The file at the path holds a text that parses as the object.
  abbrev pub Keeps : Bytes → J → W → Type 0
  Keeps path json w =
      (text : Bytes) × (no_nul text ≡ true)
      × (length text < 4096)
      × (content path w ≡ some (text ++ 0 ∷ []))
      × ((w' : W) → (machine.disk.parse text w').0 ≡ some json)

  load-Keeps :
      (path : Bytes) (json : J) (w : W)
      → Keeps path json w
      → (load_keystore_in_json machine.disk path w).0 ≡ some json
  load-Keeps path json w (text, plain, small, holds, parses) =
      let (w', load) = load-Content machine.disk content laws path text w plain small holds in
      ap (λ (x : Option J × W). x.0)
        (load ∙ or_enomem-some (machine.disk.parse text w') json (parses w'))

  prepare-Keeps :
      (path : Bytes) (json : J) (e : Env W)
      → length path < 4096
      → Undisturbed drive machine content path
      → Keeps path json e.world
      → (w : W) × (prepare net auth drive machine fuel path e
          ≡ (go (some json), record e { world = w }))
  unfolding prepare keystore_at
  prepare-Keeps path json e fits calm (text, plain, small, holds, parses) =
      let w1 = (machine.rc_zalloc e.world).1 in
      let w2 = (mkdirs machine.files (drive.dirname path) w1).1 in
      let w3 = (machine.access path w2).1 in
      let holds2 : content path w2 ≡ some (text ++ 0 ∷ []) =
        calm.content-mkdirs w1 ∙ calm.content-rc_zalloc e.world ∙ holds in
      let holds3 = calm.content-access w2 ∙ holds2 in
      let short : leb 4096 (length path) ≡ false = ground (arith, fits) in
      let loaded = load-Keeps path json w3 (text, plain, small, holds3, parses) in
      (
        (load_keystore_in_json machine.disk path w3).1,
        rw (calm.gives e.world, short, calm.makes w1, calm.is_there w2 _ holds2, loaded) refl,
      )

  make_token-Restored :
      (path : Bytes) (options : OneDriveConnectOptions) (e : Env W) (json : J) (a b c : Bytes)
      (n : ℕ) (objects : Objects net (auth_at net auth drive machine fuel path))
      → are_valid options ≡ true
      → length path < 4096
      → Undisturbed drive machine content path
      → Keeps path json e.world
      → Stored objects json (text_or_empty options.client_id) a b c n
      → ((w : W) → (auth.calloc (block_size net auth a b c) w).0 ≡ true)
      → (w : W) × (make_token net auth drive machine fuel path options e ≡ (
        go (restored objects a b c n (new_token net auth drive machine fuel options)),
        record e { world = w },
      ))
  unfolding make_token oauth_token_new
  make_token-Restored path options e json a b c n objects valid fits calm keeps stored block =
      let own = auth_at net auth drive machine fuel path in
      let fresh = new_token net auth drive machine fuel options in
      let (w0, prepared) = prepare-Keeps path json e fits calm keeps in
      let w1 = (machine.rc_zalloc w0).1 in
      let start : Session W = record { token = fresh; outside = w1 } in
      let (done, same) = restore-Restores objects json a b c n start stored (block w1) in
      (
        machine.delete_json (some json) (restore_access_token net own (some json) start).1.outside,
        rw (valid, prepared, calm.gives w0, same) refl,
      )

  -- The options of a connection are valid, and the path of its file has less than 4096 bytes. The file
  -- holds a text without a NUL, of less than 4096 bytes, which parses as an object with the client's
  -- name, three strings and a number of seconds. Memory is given, and making the directory leaves the
  -- file alone. Then onedrive_client_connect returns a connection without a login, leaves the last
  -- error, and the token has the three strings and the seconds, and is else as the options make it.
  pub onedrive_client_connect-Restored :
      (client : HiveClient) (options : OneDriveConnectOptions) (e : Env W) (json : J)
      (a b c : Bytes) (n : ℕ)
      (objects : Objects net (auth_at net auth drive machine fuel (keystore_path client)))
      → are_valid options ≡ true
      → length (keystore_path client) < 4096
      → Undisturbed drive machine content (keystore_path client)
      → Keeps (keystore_path client) json e.world
      → Stored objects json (text_or_empty options.client_id) a b c n
      → ((w : W) → (auth.calloc (block_size net auth a b c) w).0 ≡ true)
      → (w : W) × (onedrive_client_connect net auth drive machine fuel client options e
          ≡ connected (table net auth drive machine fuel (keystore_path client)) (record {
            hive_error = e.hive_error;
            world = record {
              token = restored objects a b c n (new_token net auth drive machine fuel options);
              outside = w;
            };
          }))
  unfolding onedrive_client_connect oauth_token_request
  onedrive_client_connect-Restored client options e json a b c n objects valid fits calm keeps
        stored block =
      let (w, made) =
        make_token-Restored (keystore_path client) options e json a b c n objects valid fits calm
          keeps stored block in
      (w, rw made refl)
