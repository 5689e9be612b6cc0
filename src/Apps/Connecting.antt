-- ===== src/Apps/Connecting.antt =====
-- The commands of apps/cmd/cmd.c that make and drop a connection.
use elastos_net_hive_native.Base.{
  ℕ, ◌*◌, Bytes, codes, str_eq, length, List, [], ◌∷◌, Option, none, some, if◌then◌else◌,
}
use elastos_net_hive_native.Api.Connect.{HiveConnect}
use elastos_net_hive_native.Api.Os.{Os}
use elastos_net_hive_native.Ipfs.Options.{IpfsNode}
use elastos_net_hive_native.Client.Object.{
  HiveClient, FactoryMethod, hive_client_connect, hive_client_disconnect,
}
use elastos_net_hive_native.Apps.Ops.{Ops, Host, general_ops, ipfs_ops}
use elastos_net_hive_native.Apps.Shell.{◌>>=◌, done, act, say, syntax_error, Run}

-- The options of the two backends; the callback of OneDrive's opens the page in a browser.
pub data ConnectOptions : Type 0 where
  onedrive_options : Bytes → Bytes → Bytes → ConnectOptions
  ipfs_options : List IpfsNode → ConnectOptions

-- HiveBackendType_IPFS and HiveBackendType_OneDrive
abbrev pub backend_type : ConnectOptions → ℕ
backend_type (onedrive_options redirect_url scope client_id) = 0x10
backend_type (ipfs_options nodes) = 0x01

abbrev pub onedrive_defaults : ConnectOptions
onedrive_defaults =
    onedrive_options (codes "http://localhost:12345")
      (codes "Files.ReadWrite.AppFolder offline_access")
      (codes "afd3d647-a8b7-4723-bf9d-1b832f43b881")

-- The connection is kept with its table, if it was made.
unfoldable pub keep_connect : {W : Type 0} → Host W → Ops W → Option (HiveConnect W) → Run W
keep_connect host ops none s = say host (codes "create HiveConnect instance failure.\n") [] s
keep_connect host ops (some connect) s =
    some (tt, record s { connect = some connect; ops = some ops })

-- if (ctx->connect) { hive_client_disconnect(ctx->connect); ctx->connect = NULL; }
unfoldable pub drop_connect : {W : Type 0} → Option (HiveConnect W) → Run W
unfolding hive_client_disconnect
drop_connect none s = done s
drop_connect (some connect) s =
    let (rc, e) = hive_client_disconnect (some connect) s.env in
    some (tt, record s { connect = none; env = e })

unfoldable pub disconnect : {W : Type 0} → Host W → List Bytes → Run W
disconnect host (name ∷ []) s = drop_connect s.connect s
disconnect host _ s = syntax_error host s

module _ {W : Type 0} (os : Os W) (host : Host W) (methods : List (FactoryMethod W ConnectOptions))
    (client : HiveClient) (nodes : List IpfsNode) where
  abbrev pub make_connect : ConnectOptions → Ops W → Run W
  make_connect opts ops = do
    made ← act (hive_client_connect methods (some client) (some (backend_type opts, opts)))
    keep_connect host ops made

  unfoldable pub connect_as : Bytes → Run W
  connect_as type =
      if str_eq type (codes "onedrive")
      then make_connect onedrive_defaults (general_ops os)
      else if str_eq type (codes "ipfs")
      then (do
        made ← act (λ e.
            let (ok, w) = host.alloc (length nodes * 24) e.world in (ok, record e { world = w }))
        if made
            then make_connect (ipfs_options nodes) (ipfs_ops os host)
            else say host (codes "create HiveConnect instance failure.\n") [])
      else say host (codes "Error: unsupported backend type.") []

  unfoldable pub connect_unless : Option (HiveConnect W) → Bytes → Run W
  connect_unless none type = connect_as type
  connect_unless (some connect) type =
      say host (codes "Error: a HiveConnect instance already exists.") []

  unfoldable pub client_connect : List Bytes → Run W
  client_connect (name ∷ type ∷ []) s = connect_unless s.connect type s
  client_connect _ s = syntax_error host s
