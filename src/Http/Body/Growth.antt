-- ===== src/Http/Body/Growth.antt =====
-- The growth loop in src/http/http_client.c ends, at a size with room for what is to be stored.
use native.Mathlib.Nat.{pow-suc, mod-eq_of_lt}
use native.Mathlib.Decide.{dec_lt}
use elastos_net_hive_native.Base.{
  ℕ, zero, suc, ◌+◌, ◌*◌, ◌%◌, ◌^◌, ◌≤◌, ◌<◌, ◌≡◌, inl, inr, refl, ap, ◌&&◌, ltb, leb, false, some,
  Bool-cases, arith, if◌then◌else◌, ◌==◌,
}
use elastos_net_hive_native.Http.Body.{size_mod, grow, settle, new_size}

-- Behind a size that has wrapped the loop stops at once.
grow_wrapped :
    (fuel new_sz last_try bound : ℕ)
    → new_sz ≤ last_try
    → grow (suc fuel) new_sz last_try bound ≡ some (new_sz, last_try)
unfolding grow
grow_wrapped fuel new_sz last_try bound h = ground arith

-- With fuel for a doubling up to 2^64 the loop ends, and the size that is settled on is below 2^64
-- and not below the bound.
grow_total :
    (fuel new_sz last_try bound : ℕ)
    → 0 < new_sz
    → new_sz < size_mod
    → bound < size_mod
    → size_mod ≤ new_sz * 2 ^ fuel
    → (r : ℕ) × (settle (grow (suc (suc fuel)) new_sz last_try bound) bound ≡ some r)
      × (bound ≤ r)
      × (r < size_mod)
unfolding settle grow
grow_total zero new_sz last_try bound p q b f = absurd (omega arith)
grow_total (suc fuel) new_sz last_try bound p q b f =
    elim (Bool-cases (ltb last_try new_sz && leb new_sz bound)) [
      | inl go ↦
          rw (go, grow)
            (elim (dec_lt (new_sz * 2) size_mod) [
              | yes fits ↦ rw (mod-eq_of_lt fits) (
                  grow_total fuel (new_sz * 2) new_sz bound (omega arith) fits b
                    (omega (arith, ap (λ (t : ℕ). new_sz * t) (pow-suc 2 fuel))))
              | no wraps ↦
                  rw (grow_wrapped (suc fuel) (new_sz * 2 % size_mod) new_sz bound (omega arith))
                    (bound, ground arith, omega arith, b)
            ])
      | inr stop ↦
          rw (stop, grow)
            ((if leb new_sz last_try then bound else new_sz), refl, ground arith, ground arith)
    ]

-- `realloc` is asked for enough: for a buffer of `sz` bytes and a chunk of `length` bytes whose sum
-- is a `size_t`, the loop ends, and the new size is a `size_t` that is at least that sum.
pub new_size_total :
    (sz length : ℕ)
    → sz + length < size_mod
    → (r : ℕ) × (new_size sz length ≡ some r) × (sz + length ≤ r) × (r < size_mod)
unfolding new_size settle
new_size_total zero length h =
    grow_total 64 512 0 (0 + length) (omega arith) (omega arith) h (omega arith)
new_size_total (suc sz) length h = elim (dec_lt (suc sz * 2) size_mod) [
  | yes fits ↦
      rw (not_empty, mod-eq_of_lt fits)
        (grow_total 64 (suc sz * 2) (suc sz) (suc sz + length) (omega arith) fits h (omega arith))
  | no wraps ↦
      rw
        (
          not_empty,
          grow_wrapped 65 (suc sz * 2 % size_mod) (suc sz) (suc sz + length) (omega arith),
        )
        (suc sz + length, ground arith, omega arith, h)
]
  where
    not_empty : (suc sz == 0) ≡ false
    not_empty = ground arith
