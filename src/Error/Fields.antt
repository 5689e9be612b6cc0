-- ===== src/Error/Fields.antt =====
-- The fields of an error code of src/ela_hive.h.
use mathlib.Core.Path.{ap₂}
use elastos_net_hive_native.Base.{
  ℕ, ◌+◌, ◌*◌, ◌/◌, ◌^◌, ◌<◌, bit_and, bit_or, ◌≡◌, sym, ap, ◌∙◌, true, arith, pos, is_neg,
}
use elastos_net_hive_native.Base.Bits.{bit_or-field, bit_and-mask, bit_and-bit}
use elastos_net_hive_native.Error.Code.{hive_mk_error, as_int, as_ssize}

-- A code below 2^24 passes both masks of the macro unchanged.
code-masks :
    (c : ℕ) → c < 0x1000000 → bit_or (bit_and c 0x80000000 / 2 ^ 8) (bit_and c 0x7FFFFFFF) ≡ c
code-masks c h = omega (arith, ap₂ bit_or no_sign low, bit_or-field 24 0 c h)
  where
    no_field : 0 * 2 ^ 31 + c ≡ c
    no_field = omega arith

    no_sign : bit_and c 0x80000000 / 2 ^ 8 ≡ 0
    no_sign =
        omega
          (arith, ap (λ (t : ℕ). bit_and t 0x80000000) no_field, bit_and-bit 31 0 c (omega arith))

    low : bit_and c 0x7FFFFFFF ≡ c
    low = sym (ap (λ (t : ℕ). bit_and t 0x7FFFFFFF) no_field) ∙ bit_and-mask 31 0 c (omega arith)

-- For a facility of seven bits and a code of 24 bits the fields of an error do not overlap.
pub hive_mk_error-fields :
    (f c : ℕ) → f < 128 → c < 0x1000000 → hive_mk_error f c ≡ 0x80000000 + f * 0x1000000 + c
unfolding hive_mk_error
hive_mk_error-fields f c p q =
    omega (arith, ap₂ bit_or high (code-masks c q), bit_or-field 24 (128 + f) c q)
  where
    high : bit_or 0x80000000 (f * 2 ^ 24) ≡ (128 + f) * 2 ^ 24
    high = omega (arith, bit_or-field 31 1 (f * 2 ^ 24) (omega arith))

-- As an `int` an error is negative; returned as an `ssize_t`, without a cast to `int`, it is not.
pub hive_mk_error-signs :
    (f c : ℕ)
    → f < 128
    → c < 0x1000000
    → (is_neg (as_int (hive_mk_error f c)) ≡ true)
      × (as_ssize (hive_mk_error f c) ≡ pos (0x80000000 + f * 0x1000000 + c))
hive_mk_error-signs f c p q = ground (arith, hive_mk_error-fields f c p q)
