-- ===== src/Base/Int.antt =====
-- Signed integers over the native numbers, and the conversions between C's integer types on a
-- 64-bit target: `int` and `unsigned` have 32 bits, `size_t` and `ssize_t` have 64.
use Prim.Native.Nat.{ℕ, ◌+◌, ◌-◌, ◌%◌}
use mathlib.Core.Path.{◌≡◌, refl}
use mathlib.Core.Logic.{◌⊎◌, inl, inr}
use mathlib.Core.Bool.{Bool, true, false}
use elastos_net_hive_native.Base.Tests.{ltb, ◌==◌, if◌then◌else◌}

-- `negsuc n` is -(n + 1).
pub data ℤ : Type 0 where
  pos : ℕ → ℤ
  negsuc : ℕ → ℤ

pub ℤ-cases : (x : ℤ) → ((n : ℕ) × (x ≡ pos n)) ⊎ ((n : ℕ) × (x ≡ negsuc n))
ℤ-cases (pos n) = inl (n, refl)
ℤ-cases (negsuc n) = inr (n, refl)

-- x < 0
abbrev pub is_neg : ℤ → Bool
is_neg (pos n) = false
is_neg (negsuc n) = true

-- x == 0
abbrev pub is_zero : ℤ → Bool
is_zero (pos n) = n == 0
is_zero (negsuc n) = false

-- An integer as an unsigned number of the given modulus.
abbrev pub wrap : ℕ → ℤ → ℕ
wrap m (pos n) = n % m
wrap m (negsuc n) = m - 1 - n % m

-- A pattern of bits read as a signed number.
abbrev pub sign : ℕ → ℕ → ℤ
sign half u = if ltb u half then pos u else negsuc (half + half - 1 - u)

-- (unsigned)x, (int)u, (int)x, (size_t)x, (ssize_t)u
abbrev pub to_unsigned : ℤ → ℕ
to_unsigned = wrap 0x100000000

abbrev pub int_of_unsigned : ℕ → ℤ
int_of_unsigned u = sign 0x80000000 (u % 0x100000000)

abbrev pub to_int : ℤ → ℤ
to_int x = int_of_unsigned (to_unsigned x)

abbrev pub to_size : ℤ → ℕ
to_size = wrap 0x10000000000000000

abbrev pub ssize_of_size : ℕ → ℤ
ssize_of_size u = sign 0x8000000000000000 (u % 0x10000000000000000)
