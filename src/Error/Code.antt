-- ===== src/Error/Code.antt =====
-- The error codes of src/ela_hive.h: how a code is made, and its value as `int` and as `ssize_t`.
use elastos_net_hive_native.Base.{
  ℕ, ◌*◌, ◌/◌, ◌^◌, bit_and, bit_or, ℤ, int_of_unsigned, ssize_of_size,
}

-- HIVE_MK_ERROR(facility, code), an `unsigned` (a `long` of the same value if the code is one)
unfoldable pub hive_mk_error : ℕ → ℕ → ℕ
hive_mk_error facility code =
    bit_or (bit_or 0x80000000 (facility * 2 ^ 24))
      (bit_or (bit_and code 0x80000000 / 2 ^ 8) (bit_and code 0x7FFFFFFF))

abbrev pub hive_general_error : ℕ → ℕ
hive_general_error = hive_mk_error 0x01

abbrev pub hive_sys_error : ℕ → ℕ
hive_sys_error = hive_mk_error 0x02

abbrev pub hive_curl_error : ℕ → ℕ
hive_curl_error = hive_mk_error 0x05

abbrev pub hive_curlu_error : ℕ → ℕ
hive_curlu_error = hive_mk_error 0x06

abbrev pub hive_http_status_error : ℕ → ℕ
hive_http_status_error = hive_mk_error 0x07

abbrev pub hiveerr_invalid_args : ℕ
hiveerr_invalid_args = 0x01

abbrev pub hiveerr_out_of_memory : ℕ
hiveerr_out_of_memory = 0x02

abbrev pub hiveerr_buffer_too_small : ℕ
hiveerr_buffer_too_small = 0x03

abbrev pub hiveerr_bad_persistent_data : ℕ
hiveerr_bad_persistent_data = 0x04

abbrev pub hiveerr_invalid_persistence_file : ℕ
hiveerr_invalid_persistence_file = 0x05

abbrev pub hiveerr_invalid_credential : ℕ
hiveerr_invalid_credential = 0x06

abbrev pub hiveerr_not_supported : ℕ
hiveerr_not_supported = 0x10

abbrev pub hiveerr_limit_exceeded : ℕ
hiveerr_limit_exceeded = 0x11

abbrev pub hiveerr_bad_bootstrap_host : ℕ
hiveerr_bad_bootstrap_host = 0x13

abbrev pub hiveerr_bad_address : ℕ
hiveerr_bad_address = 0x15

abbrev pub hiveerr_bad_json_format : ℕ
hiveerr_bad_json_format = 0x16

abbrev pub hiveerr_try_again : ℕ
hiveerr_try_again = 0x17

-- `return HIVE_…_ERROR(code)` in a function that returns `int`, and in one that returns `ssize_t`.
abbrev pub as_int : ℕ → ℤ
as_int = int_of_unsigned

abbrev pub as_ssize : ℕ → ℤ
as_ssize = ssize_of_size
