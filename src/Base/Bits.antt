-- ===== src/Base/Bits.antt =====
-- `bit_and` and `bit_or` against a shifted field: what a mask and a disjoint union compute to.
use Prim.Native.Nat.{max, min, digits, bit_and-bitwise, bit_or-bitwise}
use mathlib.Core.Path.{ap, ap₂, sym, ◌∙◌}
use native.Mathlib.Nat.{pow-suc}
use elastos_net_hive_native.Base.{
  ℕ, zero, suc, ◌+◌, ◌-◌, ◌*◌, ◌/◌, ◌%◌, ◌^◌, ◌≤◌, ◌<◌, bit_and, bit_or, ◌≡◌, refl, arith,
}

-- The recursion on binary digits behind both operations takes `op` of each pair of digits, and
-- `last` of the right number when the left one has run out. The left number is enough as its fuel.
module _ (last : ℕ → ℕ) (op : ℕ → ℕ → ℕ) where
  abbrev pairwise : ℕ → ℕ → ℕ → ℕ
  pairwise = digits last op

  pairwise-enough :
      (x y fuel more : ℕ) → x ≤ fuel → x ≤ more → pairwise fuel x y ≡ pairwise more x y
  pairwise-enough zero y zero zero low low' = refl
  pairwise-enough zero y zero (suc more) low low' = refl
  pairwise-enough zero y (suc fuel) zero low low' = refl
  pairwise-enough zero y (suc fuel) (suc more) low low' = refl
  pairwise-enough (suc x) y zero more low low' = absurd (omega arith)
  pairwise-enough (suc x) y (suc fuel) zero low low' = absurd (omega arith)
  pairwise-enough (suc x) y (suc fuel) (suc more) low low' =
      let fits : suc x / 2 ≤ fuel = omega arith in
      let fits' : suc x / 2 ≤ more = omega arith in
      omega (arith, pairwise-enough (suc x / 2) (y / 2) fuel more fits fits')

  -- One digit of an operation that the recursion computes.
  one_digit :
      (f : ℕ → ℕ → ℕ)
      → ((x y : ℕ) → f x y ≡ pairwise x x y)
      → (x y : ℕ) → f (suc x) y ≡ f (suc x / 2) (y / 2) * 2 + op (suc x % 2) (y % 2)
  one_digit f means x y =
      let half : pairwise x (suc x / 2) (y / 2) ≡ f (suc x / 2) (y / 2) =
        pairwise-enough (suc x / 2) (y / 2) x (suc x / 2) (omega arith) (omega arith)
        ∙ sym (means (suc x / 2) (y / 2)) in
      omega (arith, means (suc x) y, half)

-- Both operations split into their lowest digit and the rest.
bit_and_halves : (x y : ℕ) → bit_and x y ≡ bit_and (x / 2) (y / 2) * 2 + min (x % 2) (y % 2)
bit_and_halves (suc x) y = one_digit (λ d. 0) min bit_and bit_and-bitwise x y
bit_and_halves zero y = omega (arith, bit_and-bitwise 0 (y / 2), bit_and-bitwise 0 y)

bit_or_halves : (x y : ℕ) → bit_or x y ≡ bit_or (x / 2) (y / 2) * 2 + max (x % 2) (y % 2)
bit_or_halves (suc x) y = one_digit (λ d. d) max bit_or bit_or-bitwise x y
bit_or_halves zero y = omega (arith, bit_or-bitwise 0 (y / 2), bit_or-bitwise 0 y)

-- Nothing on the right.
no_bits : (bound x : ℕ) → x ≤ bound → (bit_and x 0 ≡ 0) × (bit_or x 0 ≡ x)
no_bits bound zero low = (refl, refl)
no_bits zero (suc x) low = absurd (omega arith)
no_bits (suc bound) (suc x) low =
    let (and, or) = no_bits bound (suc x / 2) (omega arith) in
    (omega (arith, and, bit_and_halves (suc x) 0), omega (arith, or, bit_or_halves (suc x) 0))

-- Halving a number of `suc k` bits with a field above them.
half-field : (k h l : ℕ) → (h * 2 ^ suc k + l) / 2 ≡ h * 2 ^ k + l / 2
half-field k h l = omega (arith, ap (λ (t : ℕ). h * t) (pow-suc 2 k))

parity-field : (k h l : ℕ) → (h * 2 ^ suc k + l) % 2 ≡ l % 2
parity-field k h l = omega (arith, ap (λ (t : ℕ). h * t) (pow-suc 2 k))

half-shift : (k h : ℕ) → h * 2 ^ suc k / 2 ≡ h * 2 ^ k
half-shift k h = omega (arith, ap (λ (t : ℕ). h * t) (pow-suc 2 k))

half-mask : (k : ℕ) → (2 ^ suc k - 1) / 2 ≡ 2 ^ k - 1
half-mask k = omega (arith, pow-suc 2 k)

half-pow : (k : ℕ) → 2 ^ suc k / 2 ≡ 2 ^ k
half-pow k = omega (arith, pow-suc 2 k)

one-le-pow-two : (k : ℕ) → 1 ≤ 2 ^ k
one-le-pow-two zero = omega arith
one-le-pow-two (suc k) = omega (arith, pow-suc 2 k, one-le-pow-two k)

-- h << k | l, where l has k bits.
pub bit_or-field : (k h l : ℕ) → l < 2 ^ k → bit_or (h * 2 ^ k) l ≡ h * 2 ^ k + l
bit_or-field zero h zero b = omega (arith, (no_bits (h * 1) (h * 1) (omega arith)).1)
bit_or-field zero h (suc l) b = absurd (omega arith)
bit_or-field (suc k) h l b = omega (
  arith,
  bit_or_halves (h * 2 ^ suc k) l,
  ap (λ (t : ℕ). bit_or t (l / 2)) (half-shift k h),
  bit_or-field k h (l / 2) (omega (arith, pow-suc 2 k)),
  ap (λ (t : ℕ). h * t) (pow-suc 2 k),
)

-- (h << k | l) & ((1 << k) - 1), where l has k bits.
pub bit_and-mask : (k h l : ℕ) → l < 2 ^ k → bit_and (h * 2 ^ k + l) (2 ^ k - 1) ≡ l
bit_and-mask zero h l b = omega (arith, (no_bits (h * 1 + l) (h * 1 + l) (omega arith)).0)
bit_and-mask (suc k) h l b = omega (
  arith,
  bit_and_halves (h * 2 ^ suc k + l) (2 ^ suc k - 1),
  ap₂ bit_and (half-field k h l) (half-mask k),
  parity-field k h l,
  bit_and-mask k h (l / 2) (omega (arith, pow-suc 2 k)),
  pow-suc 2 k,
  one-le-pow-two k,
)

-- (h << k | l) & (1 << k), where l has k bits: the lowest bit of h.
pub bit_and-bit : (k h l : ℕ) → l < 2 ^ k → bit_and (h * 2 ^ k + l) (2 ^ k) ≡ h % 2 * 2 ^ k
bit_and-bit zero h l b = omega (
  arith,
  bit_and_halves (h * 1 + l) 1,
  (no_bits ((h * 1 + l) / 2) ((h * 1 + l) / 2) (omega arith)).0,
)
bit_and-bit (suc k) h l b = omega (
  arith,
  bit_and_halves (h * 2 ^ suc k + l) (2 ^ suc k),
  ap₂ bit_and (half-field k h l) (half-pow k),
  bit_and-bit k h (l / 2) (omega (arith, pow-suc 2 k)),
  ap (λ (t : ℕ). h % 2 * t) (pow-suc 2 k),
  pow-suc 2 k,
)
