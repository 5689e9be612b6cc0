-- ===== src/Oauth/Time.antt =====
-- The times of src/oauth/oauth_token.c, `struct timeval`: the seconds and the microseconds behind
-- them. A `long` has 64 bits.
use elastos_net_hive_native.Base.{
  ℕ, ◌+◌, ◌-◌, Bool, true, false, ltb, ◌==◌, leb, ℤ, pos, negsuc, to_size, ssize_of_size,
  if◌then◌else◌,
}

pub record Timeval : Type 0 where
  pub tv_sec : ℤ
  pub tv_usec : ℕ

abbrev pub zero_time : Timeval
zero_time = record { tv_sec = pos 0; tv_usec = 0 }

-- The sum of two `long`s.
abbrev pub long_add : ℤ → ℤ → ℤ
long_add a b = ssize_of_size (to_size a + to_size b)

-- timeradd(a, b, result)
unfoldable pub timeradd : Timeval → Timeval → Timeval
timeradd a b =
    let sec = long_add a.tv_sec b.tv_sec in
    let usec = a.tv_usec + b.tv_usec in
    if leb 1000000 usec
    then record { tv_sec = long_add sec (pos 1); tv_usec = usec - 1000000 }
    else record { tv_sec = sec; tv_usec = usec }

-- a > b
abbrev pub gt_ℤ : ℤ → ℤ → Bool
gt_ℤ (pos m) (pos n) = ltb n m
gt_ℤ (pos m) (negsuc n) = true
gt_ℤ (negsuc m) (pos n) = false
gt_ℤ (negsuc m) (negsuc n) = ltb m n

abbrev same_ℤ : ℤ → ℤ → Bool
same_ℤ (pos m) (pos n) = m == n
same_ℤ (negsuc m) (negsuc n) = m == n
same_ℤ _ _ = false

-- timercmp(a, b, >)
unfoldable pub is_later : Timeval → Timeval → Bool
is_later a b = if same_ℤ a.tv_sec b.tv_sec then ltb b.tv_usec a.tv_usec else gt_ℤ a.tv_sec b.tv_sec
