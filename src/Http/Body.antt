-- ===== src/Http/Body.antt =====
-- The growing buffer for a response's body in src/http/http_client.c:
-- `http_response_body_write_callback` and `http_client_move_response_body`. A `size_t` has 64 bits;
-- `grant` tells which sizes `realloc` can give.
pub mod Growth
pub mod Content
use elastos_net_hive_native.Base.{
  ℕ, zero, suc, ◌+◌, ◌-◌, ◌*◌, ◌%◌, ◌^◌, Bool, true, false, ◌&&◌, Bytes, [], ◌++◌, length, List,
  ◌∷◌, Option, none, some, ◌==◌, ltb, leb, if◌then◌else◌,
}

abbrev pub size_mod : ℕ
size_mod = 0x10000000000000000

-- `http_response_body_t`; of `data`, the first `used` bytes.
pub record Body : Type 0 where
  pub used : ℕ
  pub sz : ℕ
  pub stored : Bytes

abbrev pub empty_body : Body
empty_body = record { used = 0; sz = 0; stored = [] }

-- for (…; new_sz > last_try && new_sz <= bound; last_try = new_sz, new_sz <<= 1) ;
-- The pair that the loop ends with; `none` if the fuel runs out.
unfoldable pub grow : ℕ → ℕ → ℕ → ℕ → Option (ℕ × ℕ)
grow zero new_sz last_try bound = none
grow (suc fuel) new_sz last_try bound =
    let rest = grow fuel (new_sz * 2 % size_mod) new_sz bound in
    if ltb last_try new_sz && leb new_sz bound then rest else some (new_sz, last_try)

-- A size doubles 64 times at most before it wraps.
abbrev pub grow_fuel : ℕ
grow_fuel = 66

-- if (new_sz <= last_try) new_sz = bound;
unfoldable pub settle : Option (ℕ × ℕ) → ℕ → Option ℕ
settle none bound = none
settle (some (new_sz, last_try)) bound = some (if leb new_sz last_try then bound else new_sz)

unfoldable pub new_size : ℕ → ℕ → Option ℕ
new_size sz length =
    settle (grow grow_fuel (if sz == 0 then 512 else sz * 2 % size_mod) sz (sz + length))
      (sz + length)

-- The number of bytes taken, which libcurl compares with those that it offered, and the body after
-- the call. A result `none` would be a loop that has not ended.
abbrev pub append_chunk : Bytes → Body → Option (ℕ × Body)
append_chunk chunk b =
    some (length chunk, record b { used = b.used + length chunk; stored = b.stored ++ chunk })

abbrev drop_body : Body → Option (ℕ × Body)
drop_body b = some (0, record b { used = 0; stored = [] })

unfoldable pub resize : (ℕ → Bool) → Bytes → Body → Option ℕ → Option (ℕ × Body)
resize grant chunk b none = none
resize grant chunk b (some new_sz) =
    if grant new_sz then append_chunk chunk (record b { sz = new_sz }) else drop_body b

unfoldable pub http_response_body_write_callback : (ℕ → Bool) → Bytes → Body → Option (ℕ × Body)
unfolding resize
http_response_body_write_callback grant chunk b =
    if ltb ((b.sz + size_mod - b.used) % size_mod) (length chunk)
    then (if ltb ((b.sz + length chunk) % size_mod) b.sz
        then drop_body b
        else resize grant chunk b (new_size b.sz (length chunk)))
    else append_chunk chunk b

-- `*len = 0` is a store through NULL where the caller passes none.
pub data Moved : Type 0 where
  null_store : Moved
  nothing : Body → Moved
  moved : Bytes → Body → Moved

unfoldable pub http_client_move_response_body : Body → Bool → Moved
http_client_move_response_body b has_len =
    if b.used == 0 then (if has_len then nothing b else null_store) else moved b.stored empty_body
