-- ===== src/Onedrive/Entry.antt =====
-- `KVEntry` of src/vendors/onedrive/onedrive.c: a value behind its length in network byte order.
use elastos_net_hive_native.Base.{
  ℕ, zero, suc, ◌+◌, ◌*◌, ◌/◌, ◌%◌, ◌<◌, ◌≡◌, refl, ap, Bytes, [], ◌∷◌, ◌++◌, length, arith,
}

-- sizeof(KVEntry)
abbrev pub kv_entry_size : ℕ
kv_entry_size = 4

-- The bytes of htonl(n) in memory
unfoldable pub htonl : ℕ → Bytes
htonl n = n / 0x1000000 % 256 ∷ n / 0x10000 % 256 ∷ n / 256 % 256 ∷ n % 256 ∷ []

-- ntohl of the first four bytes
unfoldable pub ntohl : Bytes → ℕ
ntohl (a ∷ b ∷ c ∷ d ∷ rest) = a * 0x1000000 + b * 0x10000 + c * 256 + d
ntohl short = 0

-- The first `n` bytes of a block that `calloc` has zeroed and that begins with the given bytes.
unfoldable pub fill : ℕ → Bytes → Bytes
fill zero bytes = []
fill (suc n) [] = 0 ∷ fill n []
fill (suc n) (b ∷ bytes) = b ∷ fill n bytes

-- kv->val_len = htonl((uint32_t)length); memcpy(kv->val, value, length);
unfoldable pub entry : Bytes → ℕ → Bytes
unfolding htonl fill
entry value length = htonl length ++ fill length value

pub ntohl-htonl : (n : ℕ) (rest : Bytes) → n < 0x100000000 → ntohl (htonl n ++ rest) ≡ n
unfolding ntohl htonl
ntohl-htonl n rest h = omega arith

pub fill_whole : (bytes : Bytes) → fill (length bytes) bytes ≡ bytes
unfolding fill
fill_whole [] = refl
fill_whole (b ∷ bytes) = ap (λ (t : Bytes). b ∷ t) (fill_whole bytes)

pub length-fill : (n : ℕ) (bytes : Bytes) → length (fill n bytes) ≡ n
unfolding fill
length-fill zero bytes = refl
length-fill (suc n) [] = omega (arith, length-fill n [])
length-fill (suc n) (b ∷ bytes) = omega (arith, length-fill n bytes)
