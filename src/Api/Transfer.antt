-- ===== src/Api/Transfer.antt =====
-- The four functions of src/hive_file.c that move a whole file: `hive_put_file`,
-- `hive_ipfs_put_file`, `hive_get_file` and `hive_ipfs_get_file`. The source writes the two puts out
-- alike, and the two gets but for their error paths; here each pair shares its steps.
pub mod Held
pub mod Put
pub mod Get
pub mod Balance
use elastos_net_hive_native.Base.{
  ℕ, Bool, ◌||◌, not, true, Bytes, ◌∷◌, [], Option, none, some, is_some, ◌==◌, ltb, ℤ, pos, negsuc,
  is_neg, is_zero, to_int, to_size, if◌then◌else◌,
}
use elastos_net_hive_native.Error.Code.{
  hive_general_error, hive_sys_error, hiveerr_out_of_memory, hiveerr_limit_exceeded,
  hiveerr_not_supported, as_int,
}
use elastos_net_hive_native.Api.Connect.{
  Env, Action, ◌>>=◌, ◌>>◌, HiveConnect, invalid_args, pure, fail, call, effect, hive_set_error,
}
use elastos_net_hive_native.Api.Os.{Os, eq_ℤ}
use elastos_net_hive_native.Api.File.{
  hive_max_file_size, is_missing, bytes_of, refuse, hive_put_file_from_buffer,
  hive_ipfs_put_file_from_buffer, hive_get_file_length, hive_get_file_to_buffer,
  hive_ipfs_get_file_length,
}

module _ {W : Type 0} (os : Os W) where
  -- hive_set_error(HIVE_SYS_ERROR(errno)); return -1;
  abbrev fail_errno : Action W ℤ
  fail_errno e = fail (hive_sys_error (os.errno e.world)) e

  module _ {R : Type 0} (refused : ℤ → R) where
    abbrev refusing : Action W ℤ → Action W R
    refusing m e = (refused (m e).0, (m e).1)

    -- From the check of `calloc` on.
    put_block : (Option Bytes → ℕ → Action W R) → ℤ → ℕ → Option ℕ → Action W R
    put_block consume fd fsize none = do
      effect (os.close fd)
      refusing (fail (hive_general_error hiveerr_out_of_memory))
    put_block consume fd fsize (some buf) = do
      (nrd, bytes) ← call (os.read fd fsize)
      effect (os.close fd)
      if not (to_size nrd == fsize)
          then (do effect (os.free buf); refusing fail_errno)
          else (do rc ← consume (some bytes) fsize; effect (os.free buf); pure rc)

    put_opened : (Option Bytes → ℕ → Action W R) → ℤ → Action W R
    unfolding put_block
    put_opened consume fd = do
      end ← call (os.seek_end fd)
      effect (os.seek_start fd)
      if ltb hive_max_file_size (to_size end)
          then (do
            rc ← fail (hive_general_error hiveerr_limit_exceeded)
            effect (os.close fd)
            pure (refused rc))
          else (do buf ← call (os.calloc (to_size end)); put_block consume fd (to_size end) buf)

    unfoldable pub put_from : Bytes → (Option Bytes → ℕ → Action W R) → Action W R
    unfolding put_opened
    put_from from consume = do
      fd ← call (os.open_read from)
      if is_neg fd then refusing fail_errno else put_opened consume fd

  unfoldable pub hive_put_file :
      Option (HiveConnect W) → Option Bytes → Bool → Option Bytes → Action W ℤ
  unfolding put_from hive_put_file_from_buffer
  hive_put_file connect from encrypt filename =
      if not (is_some connect) || is_missing from || is_missing filename
      then invalid_args
      else put_from (λ rc. rc) (bytes_of from)
          (λ buf fsize. hive_put_file_from_buffer connect buf fsize encrypt filename)

  unfoldable pub hive_ipfs_put_file :
      Option (HiveConnect W) → Option Bytes → Bool → Bool → Action W (ℤ × Option Bytes)
  unfolding put_from hive_ipfs_put_file_from_buffer
  hive_ipfs_put_file connect from encrypt has_cid =
      if not (is_some connect) || is_missing from || not has_cid
      then refuse none invalid_args
      else put_from (λ rc. (rc, none)) (bytes_of from)
          (λ buf fsize. hive_ipfs_put_file_from_buffer connect buf fsize encrypt has_cid)

  -- What the two gets do differently: how the content is fetched, and what is done when that fails
  -- and when the write is short.
  pub record Getting : Type 0 where
    pub fetch : ℕ → Action W (ℤ × Bytes)
    pub fetch_failed : ℤ → Action W (Unit {0})
    pub write_failed : Action W (Unit {0})

  get_block : Getting → ℤ → ℤ → Option ℕ → Action W ℤ
  get_block g fd fsize none = do
    effect (os.close fd)
    fail (hive_general_error hiveerr_out_of_memory)
  get_block g fd fsize (some buf) = do
    (got, bytes) ← g.fetch (to_size fsize)
    if is_neg got
        then (do effect (os.close fd); effect (os.free buf); g.fetch_failed got; pure (negsuc 0))
        else (do
          nwr ← call (os.write fd bytes (to_size got))
          effect (os.free buf)
          effect (os.close fd)
          if eq_ℤ nwr got then pure got else (do g.write_failed; pure (negsuc 0)))

  get_created : Getting → ℤ → ℤ → Action W ℤ
  unfolding get_block
  get_created g fsize fd =
      if is_zero fsize
      then (do effect (os.close fd); pure (pos 0))
      else (do buf ← call (os.calloc (to_size fsize)); get_block g fd fsize buf)

  pub get_sized : Getting → Bytes → ℤ → Action W ℤ
  unfolding get_created
  get_sized g to fsize = if is_neg fsize then pure (negsuc 0) else (do
    fd ← call (os.create_new to)
    if is_neg fd then fail_errno else get_created g fsize fd)

  abbrev set_errno : Action W (Unit {0})
  set_errno e = hive_set_error (as_int (hive_sys_error (os.errno e.world))) e

  getting_file : Option (HiveConnect W) → Bytes → Bool → Getting
  unfolding hive_get_file_to_buffer hive_set_error
  getting_file connect filename decrypt = record {
    fetch = hive_get_file_to_buffer connect (some filename) decrypt true;
    fetch_failed = λ got. pure tt;
    write_failed = (do effect (os.unlink filename); set_errno);
  }

  unfoldable pub hive_get_file :
      Option (HiveConnect W) → Option Bytes → Bool → Option Bytes → Action W ℤ
  unfolding getting_file get_sized hive_get_file_length
  hive_get_file connect filename decrypt to =
      if not (is_some connect) || is_missing filename || is_missing to then invalid_args else (do
        fsize ← hive_get_file_length connect filename
        get_sized (getting_file connect (bytes_of filename) decrypt) (bytes_of to) fsize)

  -- The method is called with no check that it is there.
  abbrev fetch_ipfs :
      Option (Bytes → Bool → ℕ → Action W (ℤ × Bytes)) → Bytes → Bool → ℕ → Action W (ℤ × Bytes)
  fetch_ipfs none cid decrypt buflen = call os.null_call
  fetch_ipfs (some get) cid decrypt buflen = get cid decrypt buflen

  getting_ipfs : HiveConnect W → Bytes → Bool → Bytes → Getting
  unfolding hive_set_error
  getting_ipfs connect cid decrypt to = record {
    fetch = fetch_ipfs connect.ipfs_get_file_to_buffer cid decrypt;
    fetch_failed = λ got. hive_set_error (to_int got);
    write_failed = (do set_errno; effect (os.unlink to));
  }

  unfoldable pub hive_ipfs_get_file :
      Option (HiveConnect W) → Option Bytes → Bool → Option Bytes → Action W ℤ
  unfolding getting_ipfs get_sized hive_ipfs_get_file_length
  hive_ipfs_get_file none cid decrypt to = invalid_args
  hive_ipfs_get_file (some connect) cid decrypt to =
      if is_missing cid || is_missing to then invalid_args else (do
        fsize ← hive_ipfs_get_file_length (some connect) cid
        get_sized (getting_ipfs connect (bytes_of cid) decrypt (bytes_of to)) (bytes_of to) fsize)
