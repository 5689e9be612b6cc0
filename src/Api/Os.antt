-- ===== src/Api/Os.antt =====
-- The system calls behind src/hive_file.c, and what is assumed of them: which descriptors and which
-- blocks of memory each call acquires or gives back.
use mathlib.Core.Path.{fun_ext}
use elastos_net_hive_native.Base.{
  ℕ, Bool, true, false, not, ◌&&◌, ◌||◌, Bytes, Option, none, some, ◌==◌, ◌≡◌, arith, ℤ, pos,
  negsuc,
}

-- A file descriptor below 0 is a failure; a block of memory is known by its address.
pub record Os (W : Type 0) : Type 0 where
  -- open(path, O_RDONLY)
  pub open_read : Bytes → W → ℤ × W
  -- open(path, O_WRONLY | O_CREAT | O_EXCL, S_IRUSR | S_IWUSR)
  pub create_new : Bytes → W → ℤ × W
  -- lseek(fd, 0, SEEK_END), lseek(fd, 0, SEEK_SET)
  pub seek_end : ℤ → W → ℤ × W
  pub seek_start : ℤ → W → W
  -- calloc(1, size), `none` for NULL
  pub calloc : ℕ → W → Option ℕ × W
  pub free : ℕ → W → W
  -- read(fd, buf, size): the result and the bytes stored in `buf`
  pub read : ℤ → ℕ → W → (ℤ × Bytes) × W
  -- write(fd, buf, size), of a buffer that holds these bytes
  pub write : ℤ → Bytes → ℕ → W → ℤ × W
  pub close : ℤ → W → W
  pub unlink : Bytes → W → W
  pub errno : W → ℕ
  -- A call through a NULL pointer is undefined in C. The model lets the world choose a result and goes
  -- on; theorems about the caller take the pointer to be there.
  pub null_call : W → (ℤ × Bytes) × W

pub data Resource : Type 0 where
  descriptor : ℤ → Resource
  block : ℕ → Resource

abbrev pub eq_ℤ : ℤ → ℤ → Bool
eq_ℤ (pos m) (pos n) = m == n
eq_ℤ (negsuc m) (negsuc n) = m == n
eq_ℤ _ _ = false

abbrev pub eq_resource : Resource → Resource → Bool
eq_resource (descriptor m) (descriptor n) = eq_ℤ m n
eq_resource (block m) (block n) = m == n
eq_resource _ _ = false

-- The resources in use.
abbrev pub Held : Type 0
Held = Resource → Bool

unfoldable pub acquire : Resource → Held → Held
acquire r h s = eq_resource r s || h s

unfoldable pub release : Resource → Held → Held
release r h s = not (eq_resource r s) && h s

eq_resource-eq : (r s : Resource) → eq_resource r s ≡ true → r ≡ s
eq_resource-eq r s h = ground arith

-- What is given back after it was acquired leaves what was there, also with another resource
-- acquired in between.
pub release-acquire : (r : Resource) (h : Held) → h r ≡ false → release r (acquire r h) ≡ h
unfolding release acquire
release-acquire r h free = fun_ext λ s. ground (arith, eq_resource-eq r s)

pub release-acquire_comm :
    (r s : Resource) (h : Held)
    → eq_resource r s ≡ false
    → h r ≡ false
    → release r (acquire s (acquire r h)) ≡ acquire s h
unfolding release acquire
release-acquire_comm r s h ne free =
    fun_ext λ t. ground (arith, eq_resource-eq r t, eq_resource-eq s t)

-- The documented effect of each call on the resources in use.
pub record Ledger {W : Type 0} (os : Os W) : Type 0 where
  pub held : W → Held
  pub open_read_ok :
      (path : Bytes) (w : W) (fd : ℕ)
      → (os.open_read path w).0 ≡ pos fd
      → (held w (descriptor (pos fd)) ≡ false)
        × (held (os.open_read path w).1 ≡ acquire (descriptor (pos fd)) (held w))
  pub open_read_failed :
      (path : Bytes) (w : W) (n : ℕ)
      → (os.open_read path w).0 ≡ negsuc n
      → held (os.open_read path w).1 ≡ held w
  pub create_new_ok :
      (path : Bytes) (w : W) (fd : ℕ)
      → (os.create_new path w).0 ≡ pos fd
      → (held w (descriptor (pos fd)) ≡ false)
        × (held (os.create_new path w).1 ≡ acquire (descriptor (pos fd)) (held w))
  pub create_new_failed :
      (path : Bytes) (w : W) (n : ℕ)
      → (os.create_new path w).0 ≡ negsuc n
      → held (os.create_new path w).1 ≡ held w
  pub calloc_ok :
      (size : ℕ) (w : W) (a : ℕ)
      → (os.calloc size w).0 ≡ some a
      → (held w (block a) ≡ false) × (held (os.calloc size w).1 ≡ acquire (block a) (held w))
  pub calloc_failed :
      (size : ℕ) (w : W) → (os.calloc size w).0 ≡ none → held (os.calloc size w).1 ≡ held w
  pub held-close : (fd : ℤ) (w : W) → held (os.close fd w) ≡ release (descriptor fd) (held w)
  pub held-free : (a : ℕ) (w : W) → held (os.free a w) ≡ release (block a) (held w)
  pub held-seek_end : (fd : ℤ) (w : W) → held (os.seek_end fd w).1 ≡ held w
  pub held-seek_start : (fd : ℤ) (w : W) → held (os.seek_start fd w) ≡ held w
  pub held-read : (fd : ℤ) (size : ℕ) (w : W) → held (os.read fd size w).1 ≡ held w
  pub held-write :
      (fd : ℤ) (bytes : Bytes) (size : ℕ) (w : W) → held (os.write fd bytes size w).1 ≡ held w
  pub held-unlink : (path : Bytes) (w : W) → held (os.unlink path w) ≡ held w
