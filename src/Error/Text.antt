-- ===== src/Error/Text.antt =====
-- What `hive_get_strerror` of src/hive_error.c writes, and for which codes it has a text.
use elastos_net_hive_native.Base.{
  ℕ, zero, suc, ◌+◌, ◌-◌, ◌≤◌, ◌<◌, ◌≡◌, ◌≢◌, ◌⊎◌, inl, inr, refl, Bool, true, false, ◌&&◌, Option,
  none, some, List, ◌++◌, length, get_elem?, arith, ◌==◌, leb, Bytes, codes, ltb, Bool-cases,
  ==_iff, ℤ, pos, negsuc, if◌then◌else◌,
}
use elastos_net_hive_native.Error.Code.{hive_mk_error, hive_general_error, as_int}
use elastos_net_hive_native.Error.Table.{error_codes, find_desc}
use elastos_net_hive_native.Error.Dispatch.{hive_get_strerror-hive_mk_error}
use elastos_net_hive_native.Error.Strerror.{
  StrerrorFunc, FacilityDesc, describe, describe_at, hive_get_strerror, run_errstring, append_text,
  general_error, http_status_error, curl_error, curlu_error, copy_desc, copy_errstr, facility_codes,
}

-- A text function stores a string with its terminator in the room that it is given, or none.
abbrev pub Fits : ℕ → ℤ × Option Bytes → Type 0
Fits len (rc, none) = Unit {0}
Fits len (rc, some text) = length text < len

abbrev pub StaysInRoom : StrerrorFunc → Type 0
StaysInRoom g = (errcode len : ℕ) → Fits len (g errcode len)

copy_desc-Fits : (d : Option Bytes) (len : ℕ) → Fits len (copy_desc d len)
unfolding copy_desc
copy_desc-Fits none len = tt
copy_desc-Fits (some d) len = elim (Bool-cases (leb len (length d))) [
  | inl short ↦ rw (short, copy_desc) tt
  | inr room ↦ rw (room, copy_desc) (ground arith)
]

copy_errstr-Fits : (d : Option Bytes) (len : ℕ) → Fits len (copy_errstr d len)
unfolding copy_errstr
copy_errstr-Fits none len = tt
copy_errstr-Fits (some d) len = elim (Bool-cases (leb len (length d))) [
  | inl short ↦ rw (short, copy_errstr) tt
  | inr room ↦ rw (room, copy_errstr) (ground arith)
]

-- The text functions of the library's own tables stay in their room, whatever text libcurl gives.
pub errstrings-StaysInRoom :
    (curl_strerror : ℕ → Option Bytes)
    → StaysInRoom general_error
      × StaysInRoom http_status_error
      × StaysInRoom (curl_error curl_strerror)
      × StaysInRoom curlu_error
unfolding general_error http_status_error curl_error curlu_error
errstrings-StaysInRoom curl_strerror = (
  λ c len. copy_desc-Fits _ len,
  λ c len. copy_desc-Fits _ len,
  λ c len. copy_errstr-Fits _ len,
  λ c len. copy_errstr-Fits _ len,
)

append_text-written :
    (desc : Bytes) (r : ℤ × Option Bytes) (room : ℕ)
    → Fits room r
    → (append_text desc r).written ≤ length desc + (if room == 0 then 1 else room)
unfolding append_text
append_text-written desc (pos rc, none) room h = ground arith
append_text-written desc (pos rc, some t) room h = ground arith
append_text-written desc (negsuc rc, none) room h = ground arith
append_text-written desc (negsuc rc, some t) room h = ground arith

-- The text function of a facility, where it has one, stays in its room.
abbrev pub HasRoom : FacilityDesc → Type 0
HasRoom f = (errcode len : ℕ) → Fits len (run_errstring f.errstring errcode len)

describe-written :
    (f : FacilityDesc) (errcode len : ℕ)
    → HasRoom f
    → (describe f errcode len).written ≤ (if length f.desc == len then len + 1 else len)
unfolding describe
describe-written f errcode len h = elim (Bool-cases (ltb len (length f.desc))) [
  | inl short ↦ rw (short, describe) (omega arith)
  | inr room ↦
      rw (room, describe)
        (ground (
          arith,
          append_text-written f.desc (run_errstring f.errstring errcode (len - length f.desc))
              (len - length f.desc) (h errcode (len - length f.desc)),
        ))
]

append_text-no_room :
    (desc : Bytes) (r : ℤ × Option Bytes) (room : ℕ)
    → room ≡ 0
    → Fits room r
    → (append_text desc r).written ≡ length desc + 1
unfolding append_text
append_text-no_room desc (pos rc, none) room e h = refl
append_text-no_room desc (pos rc, some t) room e h = absurd (omega arith)
append_text-no_room desc (negsuc rc, none) room e h = refl
append_text-no_room desc (negsuc rc, some t) room e h = absurd (omega arith)

-- With no room behind the facility's name, its terminator is one byte too many.
describe-overflow :
    (f : FacilityDesc) (errcode len : ℕ)
    → HasRoom f
    → length f.desc ≡ len
    → (describe f errcode len).written ≡ len + 1
unfolding describe
describe-overflow f errcode len h e = ground (
  arith,
  append_text-no_room f.desc (run_errstring f.errstring errcode (len - length f.desc))
      (len - length f.desc) (omega arith) (h errcode (len - length f.desc)),
)

-- For an error of a facility of the table, whose text function stays in the room that it is given:
-- `hive_get_strerror` writes at most `len` bytes, unless `len` is exactly the length of the
-- facility's name; then it writes one byte more than the buffer has.
pub hive_get_strerror-written :
    (fs : List FacilityDesc) (facility c len : ℕ) (f : FacilityDesc)
    → 0 < facility
    → facility ≤ length fs
    → facility < 16
    → c < 0x1000000
    → get_elem? fs (facility - 1) ≡ some f
    → HasRoom f
    → let r = hive_get_strerror fs (as_int (hive_mk_error facility c)) true len in
      (length f.desc ≢ len → r.written ≤ len) × (length f.desc ≡ len → r.written ≡ len + 1)
unfolding describe_at
hive_get_strerror-written fs facility c len f low high p q at_f room =
    rw (hive_get_strerror-hive_mk_error fs facility c len low high p q, at_f)
      (λ ne. ground (arith, describe-written f c len room), λ e. describe-overflow f c len room e)

-- A text that, behind "[General] ", is at most 46 bytes long.
abbrev is_short : Option Bytes → Bool
is_short none = false
is_short (some d) = leb (length d) 36

-- The texts of `count` codes, from the code `from` on, are short.
are_short : (count from : ℕ) → Bool
are_short zero from = true
are_short (suc count) from = is_short (find_desc error_codes from) && are_short count (from + 1)

text_is_short :
    (count from c : ℕ)
    → are_short count from ≡ true
    → from ≤ c
    → c < from + count
    → is_short (find_desc error_codes c) ≡ true
unfolding are_short
text_is_short zero from c shorts low high = absurd (omega arith)
text_is_short (suc count) from c shorts low high = elim (Bool-cases (c == from)) [
  | inl same ↦ rw ((==_iff c from).0 same) (ground (arith, shorts))
  | inr later ↦
      text_is_short count (from + 1) c (ground (arith, shorts)) (ground arith) (omega arith)
]

general_texts : are_short 0x17 1 ≡ true
unfolding are_short find_desc
general_texts = refl

describe-general :
    (c len : ℕ) (o : Option Bytes)
    → find_desc error_codes c ≡ o
    → is_short o ≡ true
    → 47 ≤ len
    → (d : Bytes) × (find_desc error_codes c ≡ some d)
      × (describe (record { desc = codes "[General] "; errstring = some general_error }) c len
          ≡ record { text = some (codes "[General] " ++ d); written = length d + 11; error = none })
unfolding describe general_error
describe-general c len none found short room = cc
describe-general c len (some d) found short room = (d, found, rw found (ground arith))

unknown_text : is_short (find_desc error_codes 0xFF) ≡ true
unfolding find_desc
unknown_text = refl

general_text :
    (c : ℕ) → (0 < c) × (c ≤ 0x17) ⊎ (c ≡ 0xFF) → is_short (find_desc error_codes c) ≡ true
general_text c (inl (some_, low)) = text_is_short 0x17 1 c general_texts (omega arith) (omega arith)
general_text c (inr unknown) = rw unknown unknown_text

-- Every general error code of the table, from 1 to 0x17 and 0xFF, has a text: for
-- HIVE_GENERAL_ERROR(c) and a buffer of at least 47 bytes, `hive_get_strerror` returns "[General] "
-- with the text of the table behind it, writes that string and its terminator, and sets no error.
pub hive_get_strerror-general :
    (strerror_r : StrerrorFunc) (curl_strerror : ℕ → Option Bytes) (c len : ℕ)
    → (0 < c) × (c ≤ 0x17) ⊎ (c ≡ 0xFF)
    → 47 ≤ len
    → (d : Bytes) × (find_desc error_codes c ≡ some d)
      × (hive_get_strerror
            (facility_codes strerror_r curl_strerror)
            (as_int (hive_general_error c))
            true
            len
          ≡ record { text = some (codes "[General] " ++ d); written = length d + 11; error = none })
unfolding facility_codes describe_at
hive_get_strerror-general strerror_r curl_strerror c len listed room =
    rw
      (hive_get_strerror-hive_mk_error (facility_codes strerror_r curl_strerror) 1 c len
        (omega arith) (omega arith) (omega arith) (omega arith))
      (describe-general c len (find_desc error_codes c) refl (general_text c listed) room)
