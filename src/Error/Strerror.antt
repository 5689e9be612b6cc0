-- ===== src/Error/Strerror.antt =====
-- The text of an error: src/hive_error.c, `http_status_error` of src/http_status.c and
-- `curlu_strerror` of src/http/http_client.c. The texts of `strerror_r` and `curl_easy_strerror`
-- are parameters.
use elastos_net_hive_native.Base.{
  ℕ, zero, suc, ◌+◌, ◌-◌, ◌/◌, ◌^◌, bit_and, ◌||◌, not, Bool, Bytes, codes, length, List, [], ◌∷◌,
  ◌++◌, Option, none, some, get_elem?, ◌==◌, ltb, leb, if◌then◌else◌, ℤ, pos, negsuc, is_neg,
  to_unsigned,
}
use elastos_net_hive_native.Error.Code.{
  hive_general_error, hive_sys_error, hiveerr_invalid_args, hiveerr_buffer_too_small, as_int,
}
use elastos_net_hive_native.Error.Table.{find_desc, error_codes, status_codes, curlu_codes}

-- `strerror_func_t`: from a code and the room in the buffer to the returned status and to the
-- string that was stored, if one was.
abbrev pub StrerrorFunc : Type 0
StrerrorFunc = ℕ → ℕ → ℤ × Option Bytes

-- The common text of `general_error` and `http_status_error`, behind the loop.
unfoldable pub copy_desc : Option Bytes → ℕ → ℤ × Option Bytes
copy_desc none len = (as_int (hive_general_error hiveerr_invalid_args), none)
copy_desc (some errdesc) len =
    if leb len (length errdesc)
    then (as_int (hive_general_error hiveerr_invalid_args), none)
    else (pos 0, some errdesc)

unfoldable pub general_error : StrerrorFunc
unfolding copy_desc find_desc
general_error errcode len = copy_desc (find_desc error_codes errcode) len

unfoldable pub http_status_error : StrerrorFunc
unfolding copy_desc find_desc
http_status_error errcode len = copy_desc (find_desc status_codes errcode) len

-- The common text of `curl_error` and `curlu_error`, behind the call of the library.
unfoldable pub copy_errstr : Option Bytes → ℕ → ℤ × Option Bytes
copy_errstr none len = (as_int (hive_general_error hiveerr_invalid_args), none)
copy_errstr (some errstr) len =
    if leb len (length errstr)
    then (as_int (hive_general_error hiveerr_buffer_too_small), none)
    else (pos 0, some errstr)

unfoldable pub curl_error : (ℕ → Option Bytes) → StrerrorFunc
unfolding copy_errstr
curl_error curl_strerror errcode len = copy_errstr (curl_strerror errcode) len

unfoldable pub curlu_strerror : ℕ → Option Bytes
unfolding find_desc
curlu_strerror errcode = find_desc curlu_codes errcode

unfoldable pub curlu_error : StrerrorFunc
unfolding copy_errstr curlu_strerror
curlu_error errcode len = copy_errstr (curlu_strerror errcode) len

unfoldable pub system_error : StrerrorFunc → StrerrorFunc
system_error strerror_r errcode len =
    let (rc, text) = strerror_r errcode len in
    if is_neg rc then (as_int (hive_sys_error hiveerr_invalid_args), text) else (pos 0, text)

pub record FacilityDesc : Type 0 where
  pub desc : Bytes
  pub errstring : Option StrerrorFunc

module _ (strerror_r : StrerrorFunc) (curl_strerror : ℕ → Option Bytes) where
  unfoldable pub facility_codes : List FacilityDesc
  facility_codes =
      record { desc = codes "[General] "; errstring = some general_error }
      ∷ record { desc = codes "[System] "; errstring = some (system_error strerror_r) }
      ∷ record { desc = codes "Reserved facility"; errstring = none }
      ∷ record { desc = codes "Reserved facility"; errstring = none }
      ∷ record { desc = codes "[curl] "; errstring = some (curl_error curl_strerror) }
      ∷ record { desc = codes "[curlu] "; errstring = some curlu_error }
      ∷ record { desc = codes "[httpstat] "; errstring = some http_status_error }
      ∷ []

-- What a call of `hive_get_strerror` leaves: the string in the buffer (`none` for the result NULL),
-- how many bytes of the buffer it has written, and the error that it has set.
pub record Strerror : Type 0 where
  pub text : Option Bytes
  pub written : ℕ
  pub error : Option ℤ

abbrev pub refused : ℕ → Strerror
refused code = record { text = none; written = 0; error = some (as_int (hive_general_error code)) }

-- Behind the copy of the facility's name: `rc` and `stored` come from its function.
unfoldable pub append_text : Bytes → ℤ × Option Bytes → Strerror
append_text desc (pos rc, none) = record {
  text = some desc;
  written = length desc + 1;
  error = none;
}
append_text desc (pos rc, some stored) = record {
  text = some (desc ++ stored);
  written = length desc + length stored + 1;
  error = none;
}
append_text desc (negsuc rc, none) = record {
  text = none;
  written = length desc + 1;
  error = some (negsuc rc);
}
append_text desc (negsuc rc, some stored) = record {
  text = none;
  written = length desc + length stored + 1;
  error = some (negsuc rc);
}

unfoldable pub run_errstring : Option StrerrorFunc → ℕ → ℕ → ℤ × Option Bytes
run_errstring none errcode len = (pos 0, none)
run_errstring (some errstring) errcode len = errstring errcode len

unfoldable pub describe : FacilityDesc → ℕ → ℕ → Strerror
unfolding append_text run_errstring
describe f errcode len =
    if ltb len (length f.desc)
    then refused hiveerr_buffer_too_small
    else append_text f.desc (run_errstring f.errstring errcode (len - length f.desc))

unfoldable pub describe_at : Option FacilityDesc → ℕ → ℕ → Strerror
unfolding describe
describe_at none errcode len = refused hiveerr_invalid_args
describe_at (some f) errcode len = describe f errcode len

-- `has_buf` tells whether `buf` is not NULL.
unfoldable pub hive_get_strerror : List FacilityDesc → ℤ → Bool → ℕ → Strerror
unfolding describe_at
hive_get_strerror facilities errnum has_buf len =
    let u = to_unsigned errnum in
    let negative = not (bit_and u 0x80000000 == 0) in
    let facility = bit_and (u / 2 ^ 24) 0x0F in
    let errcode = bit_and u 0x00FFFFFF in
    if not has_buf || not negative || facility == 0 || ltb (length facilities) facility
    then refused hiveerr_invalid_args
    else describe_at (get_elem? facilities (facility - 1)) errcode len

unfoldable pub set_errstring : List FacilityDesc → ℕ → StrerrorFunc → List FacilityDesc
set_errstring [] i strerr = []
set_errstring (f ∷ fs) zero strerr = elim f.errstring [
  | none ↦ record f { errstring = some strerr } ∷ fs
  | some _ ↦ f ∷ fs
]
set_errstring (f ∷ fs) (suc i) strerr = f ∷ set_errstring fs i strerr

-- The table after the call, the result, and the error that it has set.
unfoldable pub hive_register_strerror :
    List FacilityDesc → ℤ → StrerrorFunc → List FacilityDesc × ℤ × Option ℤ
unfolding set_errstring
hive_register_strerror facilities (negsuc n) strerr =
    (facilities, negsuc 0, some (as_int (hive_general_error hiveerr_invalid_args)))
hive_register_strerror facilities (pos facility) strerr =
    if facility == 0 || ltb 0x07 facility
    then (facilities, negsuc 0, some (as_int (hive_general_error hiveerr_invalid_args)))
    else (set_errstring facilities (facility - 1) strerr, pos 0, none)
