-- ===== src/Api/Connect.antt =====
-- The connection object of src/hive_client.h, the thread's last error of src/hive_error.c, and the
-- steps that the public functions share. `W` is the state of everything outside the library.
use elastos_net_hive_native.Base.{
  ℕ, Bool, Bytes, Option, none, some, ℤ, pos, negsuc, is_neg, to_int, if◌then◌else◌,
}
use elastos_net_hive_native.Error.Code.{
  as_int, hive_general_error, hiveerr_invalid_args, hiveerr_not_supported,
}

-- The thread-local `hive_error`, and the world.
pub record Env (W : Type 0) : Type 0 where
  pub hive_error : ℤ
  pub world : W

abbrev pub Action : Type 0 → Type 0 → Type 0
Action W A = Env W → A × Env W

infixl 5 ◌>>=◌ ◌>>◌
abbrev pub ◌>>=◌ : {W A B : Type 0} → Action W A → (A → Action W B) → Action W B
◌>>=◌ m f e = f (m e).0 (m e).1

abbrev pub ◌>>◌ : {W A B : Type 0} → Action W A → Action W B → Action W B
m >> k = m >>= λ _. k

abbrev pub pure : {W A : Type 0} → A → Action W A
pure a e = (a, e)

unfoldable pub hive_get_error : {W : Type 0} → Action W ℤ
hive_get_error e = (e.hive_error, e)

unfoldable pub hive_set_error : {W : Type 0} → ℤ → Action W (Unit {0})
hive_set_error err e = (tt, record e { hive_error = err })

unfoldable pub hive_clear_error : {W : Type 0} → Action W (Unit {0})
hive_clear_error e = (tt, record e { hive_error = pos 0 })

-- A call of the world outside.
abbrev pub call : {W A : Type 0} → (W → A × W) → Action W A
call f e = ((f e.world).0, record e { world = (f e.world).1 })

abbrev pub effect : {W : Type 0} → (W → W) → Action W (Unit {0})
effect f e = (tt, record e { world = f e.world })

-- What the callbacks are told: a file's name (`none` behind the last), a key's value.
abbrev pub FilesIterateCallback : Type 0 → Type 0
FilesIterateCallback W = Option Bytes → Action W Bool

abbrev pub KeyValuesIterateCallback : Type 0 → Type 0
KeyValuesIterateCallback W = Bytes → Bytes → Action W Bool

-- The table of functions; `none` is a NULL pointer. A function that fills the caller's buffer
-- returns the bytes that it stored there. (The field `state` of the source is never read.)
pub record HiveConnect (W : Type 0) : Type 0 where
  pub put_file_from_buffer : Option (Option Bytes → ℕ → Bool → Bytes → Action W ℤ)
  pub get_file_length : Option (Bytes → Action W ℤ)
  pub get_file_to_buffer : Option (Bytes → Bool → ℕ → Action W (ℤ × Bytes))
  pub list_files : Option (FilesIterateCallback W → Action W ℤ)
  pub delete_file : Option (Bytes → Action W ℤ)
  pub ipfs_put_file_from_buffer : Option (Option Bytes → ℕ → Bool → Action W (ℤ × Option Bytes))
  pub ipfs_get_file_length : Option (Bytes → Action W ℤ)
  pub ipfs_get_file_to_buffer : Option (Bytes → Bool → ℕ → Action W (ℤ × Bytes))
  pub put_value : Option (Bytes → Bytes → ℕ → Bool → Action W ℤ)
  pub set_value : Option (Bytes → Bytes → ℕ → Bool → Action W ℤ)
  pub get_values : Option (Bytes → Bool → KeyValuesIterateCallback W → Action W ℤ)
  pub delete_key : Option (Bytes → Action W ℤ)
  pub disconnect : Option (Action W ℤ)
  pub expire_token : Option (Action W ℤ)

-- hive_set_error(code); return -1;
abbrev pub fail : {W : Type 0} → ℕ → Action W ℤ
fail code e = (negsuc 0, record e { hive_error = as_int code })

abbrev pub invalid_args : {W : Type 0} → Action W ℤ
invalid_args = fail (hive_general_error hiveerr_invalid_args)

-- if (!connect->method) { hive_set_error(…NOT_SUPPORTED); return -1; }
abbrev pub supported : {W F : Type 0} → Option F → (F → Action W ℤ) → Action W ℤ
supported none run = fail (hive_general_error hiveerr_not_supported)
supported (some f) run = run f

-- if (rc < 0) { hive_set_error(rc); return -1; } return 0;
abbrev pub report : {W : Type 0} → Action W ℤ → Action W ℤ
report m e =
    if is_neg (m e).0 then (negsuc 0, record (m e).1 { hive_error = (m e).0 }) else (pos 0, (m e).1)

-- if (rc < 0) { hive_set_error((int)rc); return -1; } return rc;
abbrev pub report_size : {W : Type 0} → Action W ℤ → Action W ℤ
report_size m e =
    if is_neg (m e).0 then (negsuc 0, record (m e).1 { hive_error = to_int (m e).0 }) else m e
