-- ===== src/Tests/Errors.antt =====
-- The error codes and texts of src/hive_error.c at concrete codes.
use elastos_net_hive_native.Base.{
  inl, ℕ, ◌+◌, ◌*◌, ◌-◌, ◌≤◌, ◌≡◌, ◌≢◌, refl, true, Option, none, some, Bytes, codes, ◌++◌, length,
  List, [], ◌∷◌, get_elem?, ◌==◌, if◌then◌else◌, pos, is_neg, arith,
}
use elastos_net_hive_native.Error.Code.{hive_mk_error, hive_general_error, as_int, as_ssize}
use elastos_net_hive_native.Error.Table.{error_codes, find_desc}
use elastos_net_hive_native.Error.Strerror.{
  StrerrorFunc, FacilityDesc, facility_codes, general_error, http_status_error, curl_error,
  curlu_error, describe_at, run_errstring, hive_get_strerror, hive_register_strerror,
}
use elastos_net_hive_native.Error.Fields.{hive_mk_error-signs}
use elastos_net_hive_native.Error.Dispatch.{hive_get_strerror-hive_mk_error}
use elastos_net_hive_native.Error.Text.{
  StaysInRoom, HasRoom, errstrings-StaysInRoom, hive_get_strerror-written,
  hive_get_strerror-general,
}
use elastos_net_hive_native.Error.Register.{install, hive_register_strerror_entries}

abbrev no_text : StrerrorFunc
no_text code len = (pos 0, none)

abbrev no_curl_text : ℕ → Option Bytes
no_curl_text code = none

abbrev facilities : List FacilityDesc
facilities = facility_codes no_text no_curl_text

abbrev custom : FacilityDesc
custom = record { desc = codes "[IPFS] "; errstring = none }

hive_mk_error-signs_example :
    (is_neg (as_int (hive_mk_error 5 28)) ≡ true)
    × (as_ssize (hive_mk_error 5 28) ≡ pos (0x80000000 + 5 * 0x1000000 + 28))
hive_mk_error-signs_example = hive_mk_error-signs 5 28 (omega arith) (omega arith)

hive_get_strerror-hive_mk_error_example :
    hive_get_strerror facilities (as_int (hive_mk_error 7 404)) true 64
    ≡ describe_at (get_elem? facilities (7 - 1)) 404 64
unfolding facility_codes
hive_get_strerror-hive_mk_error_example =
    hive_get_strerror-hive_mk_error facilities 7 404 64 (omega arith) (omega arith) (omega arith)
      (omega arith)

errstrings-StaysInRoom_example :
    StaysInRoom general_error
    × StaysInRoom http_status_error
    × StaysInRoom (curl_error no_curl_text)
    × StaysInRoom curlu_error
errstrings-StaysInRoom_example = errstrings-StaysInRoom no_curl_text

custom-HasRoom : HasRoom custom
unfolding run_errstring
custom-HasRoom errcode len = tt

hive_get_strerror-written_example :
    let r = hive_get_strerror (custom ∷ []) (as_int (hive_mk_error 1 2)) true 7 in
    (length (codes "[IPFS] ") ≢ 7 → r.written ≤ 7)
    × (length (codes "[IPFS] ") ≡ 7 → r.written ≡ 7 + 1)
hive_get_strerror-written_example =
    hive_get_strerror-written (custom ∷ []) 1 2 7 custom (omega arith) (omega arith) (omega arith)
      (omega arith) refl custom-HasRoom

hive_get_strerror-general_example :
    (d : Bytes) × (find_desc error_codes 2 ≡ some d)
    × (hive_get_strerror facilities (as_int (hive_general_error 2)) true 64
        ≡ record { text = some (codes "[General] " ++ d); written = length d + 11; error = none })
hive_get_strerror-general_example =
    hive_get_strerror-general no_text no_curl_text 2 64 (inl (omega arith, omega arith))
      (omega arith)

hive_register_strerror_entries_example :
    let r = hive_register_strerror facilities (pos 3) no_text in
    (r.1 ≡ pos 0)
    × (r.2 ≡ none)
    × (get_elem? r.0 2
        ≡ (if 2 == 3 - 1 then install no_text (get_elem? facilities 2) else get_elem? facilities 2))
hive_register_strerror_entries_example =
    hive_register_strerror_entries facilities 3 2 no_text (omega arith) (omega arith)
