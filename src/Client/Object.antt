-- ===== src/Client/Object.antt =====
-- src/hive_client.c: a client, and the connections that a table of methods makes for it.
use elastos_net_hive_native.Base.{
  ℕ, Bool, ◌==◌, Bytes, List, [], ◌∷◌, Option, none, some, ℤ, pos, is_neg, if◌then◌else◌,
}
use elastos_net_hive_native.Error.Code.{
  as_int, hive_general_error, hive_sys_error, hiveerr_invalid_args, hiveerr_out_of_memory,
  hiveerr_not_supported,
}
use elastos_net_hive_native.Api.Connect.{Action, ◌>>=◌, pure, call, HiveConnect, invalid_args}
use elastos_net_hive_native.Client.Directories.{
  Found, stat_failed, directory, other_file, Files, enoent, mkdirs,
}

pub record HiveClient : Type 0 where
  pub data_location : Bytes

-- hive_set_error(code); return NULL;
abbrev pub null_with : {W A : Type 0} → ℤ → Action W (Option A)
null_with err e = (none, record e { hive_error = err })

module _ {W : Type 0} (files : Files W) (rc_zalloc : W → Bool × W) where
  -- The client's memory
  unfoldable pub new_object : Bytes → Action W (Option HiveClient)
  new_object location = do
    made ← call rc_zalloc
    if made
        then pure (some (record { data_location = location }))
        else null_with (as_int (hive_general_error hiveerr_out_of_memory))

  unfoldable pub make_location : Bytes → Action W (Option HiveClient)
  unfolding new_object mkdirs
  make_location location = do
    rc ← call (mkdirs files location)
    errno ← call (λ w. (files.errno w, w))
    if is_neg rc then null_with (as_int (hive_sys_error errno)) else new_object location

  -- What `stat` finds at the location
  unfoldable pub at_location : Bytes → Found → Action W (Option HiveClient)
  unfolding make_location
  at_location location directory = new_object location
  at_location location other_file = null_with (as_int (hive_general_error hiveerr_invalid_args))
  at_location location stat_failed = do
    errno ← call (λ w. (files.errno w, w))
    if errno == enoent
        then make_location location
        else null_with (as_int (hive_general_error hiveerr_invalid_args))

  -- An `opts` that is NULL has no location either.
  unfoldable pub hive_client_new : Option Bytes → Action W (Option HiveClient)
  unfolding at_location
  hive_client_new none = null_with (as_int (hive_general_error hiveerr_invalid_args))
  hive_client_new (some []) = null_with (as_int (hive_general_error hiveerr_invalid_args))
  hive_client_new (some (c ∷ s)) = do found ← call (files.stat (c ∷ s)); at_location (c ∷ s) found

-- A row of `factory_methods`, for options of the type `O`.
pub record FactoryMethod (W O : Type 0) : Type 0 where
  pub backend_type : ℕ
  pub connect : HiveClient → O → Action W (Option (HiveConnect W))

-- for (; method->connect; method++) …; the row without a function ends the table.
unfoldable pub find_method :
    {W O : Type 0} → List (FactoryMethod W O) → ℕ → Option (FactoryMethod W O)
find_method [] backend_type = none
find_method (method ∷ methods) backend_type =
    if method.backend_type == backend_type then some method else find_method methods backend_type

abbrev pub by_method :
    {W O : Type 0} → Option (FactoryMethod W O) → HiveClient → O → Action W (Option (HiveConnect W))
by_method none client opts = null_with (as_int (hive_general_error hiveerr_not_supported))
by_method (some method) client opts = method.connect client opts

-- `backend_type` is that of the options.
unfoldable pub hive_client_connect :
    {W O : Type 0}
    → List (FactoryMethod W O)
    → Option HiveClient
    → Option (ℕ × O)
    → Action W (Option (HiveConnect W))
unfolding find_method
hive_client_connect methods (some client) (some (backend_type, opts)) =
    by_method (find_method methods backend_type) client opts
hive_client_connect methods _ _ = null_with (as_int (hive_general_error hiveerr_invalid_args))

abbrev pub ignoring : {W : Type 0} → Option (Action W ℤ) → Action W ℤ
ignoring none e = (pos 0, e)
ignoring (some disconnect) e = (pos 0, (disconnect e).1)

unfoldable pub hive_client_disconnect : {W : Type 0} → Option (HiveConnect W) → Action W ℤ
hive_client_disconnect none e = (pos 0, e)
hive_client_disconnect (some connect) e = ignoring connect.disconnect e

unfoldable pub hive_client_close : {W : Type 0} → (W → W) → Option HiveClient → Action W ℤ
hive_client_close deref none e = (pos 0, e)
hive_client_close deref (some client) e = (pos 0, record e { world = deref e.world })

unfoldable pub hive_set_encrypt_key :
    {W : Type 0} → Option (HiveConnect W) → Option Bytes → Action W ℤ
hive_set_encrypt_key (some connect) (some key) = pure (pos 0)
hive_set_encrypt_key _ _ = invalid_args
