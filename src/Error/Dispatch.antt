-- ===== src/Error/Dispatch.antt =====
-- `hive_get_strerror` of src/hive_error.c takes apart what HIVE_MK_ERROR put together.
use elastos_net_hive_native.Base.{
  ℕ, ◌+◌, ◌-◌, ◌*◌, ◌/◌, ◌^◌, ◌≤◌, ◌<◌, bit_and, ◌≡◌, ap, ◌∙◌, true, List, length, get_elem?, arith,
  to_unsigned,
}
use elastos_net_hive_native.Base.Bits.{bit_and-mask, bit_and-bit}
use elastos_net_hive_native.Error.Code.{hive_mk_error, as_int}
use elastos_net_hive_native.Error.Fields.{hive_mk_error-fields}
use elastos_net_hive_native.Error.Strerror.{FacilityDesc, describe_at, hive_get_strerror}

module _ (f c : ℕ) (p : f < 16) (q : c < 0x1000000) where
  abbrev packed : ℕ
  packed = hive_mk_error f c

  fields : packed ≡ 0x80000000 + f * 0x1000000 + c
  fields = hive_mk_error-fields f c (omega arith) q

  to_unsigned-as_int : to_unsigned (as_int packed) ≡ packed
  to_unsigned-as_int = ground (arith, fields)

  sign_bit : bit_and packed 0x80000000 ≡ 0x80000000
  sign_bit = omega (
    arith,
    ap (λ (t : ℕ). bit_and t 0x80000000) split,
    bit_and-bit 31 1 (f * 0x1000000 + c) (omega arith),
  )
    where
      split : packed ≡ 1 * 2 ^ 31 + (f * 0x1000000 + c)
      split = omega (arith, fields)

  facility_field : bit_and (packed / 2 ^ 24) 0x0F ≡ f
  facility_field = ap (λ (t : ℕ). bit_and t 0x0F) split ∙ bit_and-mask 4 8 f (omega arith)
    where
      split : packed / 2 ^ 24 ≡ 8 * 2 ^ 4 + f
      split = omega (arith, fields)

  code_field : bit_and packed 0x00FFFFFF ≡ c
  code_field = ap (λ (t : ℕ). bit_and t 0x00FFFFFF) split ∙ bit_and-mask 24 (128 + f) c q
    where
      split : packed ≡ (128 + f) * 2 ^ 24 + c
      split = omega (arith, fields)

-- For a facility of the table and a code of 24 bits, the text of HIVE_MK_ERROR(facility, code) is
-- the one that the facility's own entry of the table gives to that same code.
pub hive_get_strerror-hive_mk_error :
    (fs : List FacilityDesc) (f c len : ℕ)
    → 0 < f
    → f ≤ length fs
    → f < 16
    → c < 0x1000000
    → hive_get_strerror fs (as_int (hive_mk_error f c)) true len
      ≡ describe_at (get_elem? fs (f - 1)) c len
unfolding hive_get_strerror
hive_get_strerror-hive_mk_error fs f c len low high p q =
    rw (to_unsigned-as_int f c p q, sign_bit f c p q, facility_field f c p q, code_field f c p q)
      (ground arith)
