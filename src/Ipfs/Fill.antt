-- ===== src/Ipfs/Fill.antt =====
-- `get_file_to_buffer` of src/vendors/ipfs/ipfs.c: a size that it returns is what it has stored.
use elastos_net_hive_native.Base.{
  ℕ, ◌+◌, ◌*◌, sym, ◌∙◌, ◌%◌, ◌≤◌, ◌<◌, ◌≡◌, refl, Bool, true, false, ◌&&◌, Bytes, List, [], ◌∷◌,
  inl, inr, ◌^◌, length, length-append, ◌++◌, ltb, ◌==◌, ==_iff, Bool-cases, if◌then◌else◌, ℤ, pos,
  negsuc, is_neg, arith,
}
use elastos_net_hive_native.Error.Code.{hive_mk_error, as_ssize}
use elastos_net_hive_native.Error.Fields.{hive_mk_error-signs}
use elastos_net_hive_native.Http.Body.{size_mod}
use elastos_net_hive_native.Http.Step.{Res, ret, go, Step, follow, value}
use elastos_net_hive_native.Http.Client.{HttpClient, Sink, fixed, Net, deliver}
use elastos_net_hive_native.Ipfs.Rpc.{ipfs_rpc_check_reachable}
use elastos_net_hive_native.Ipfs.Connect.{
  Call, stored_by, half_size, check_reachable, failed_request, request, check_size, get_file_length,
  get_file_to_buffer, cat, finish, rc_node_unreachable,
}

-- What libcurl's write callbacks make of a sink, on to the first chunk that is not taken whole.
unfoldable pub deliver_all : (ℕ → Bool) → List Bytes → Sink → Sink
unfolding deliver
deliver_all grant [] s = s
deliver_all grant (chunk ∷ chunks) s =
    let (n, s') = deliver grant chunk s in
    let rest = deliver_all grant chunks s' in if n == length chunk then rest else s'

-- CURL_MAX_WRITE_SIZE
abbrev pub curl_max_write_size : ℕ
curl_max_write_size = 16384

-- Each chunk is of at most that size.
pub data AreChunks : List Bytes → Type 0 where
  none_left : AreChunks []
  chunk_more :
      {c : Bytes} {cs : List Bytes}
      → length c ≤ curl_max_write_size
      → AreChunks cs
      → AreChunks (c ∷ cs)

-- A sink of the given size that holds no more than it may.
abbrev Within : ℕ → Sink → Type 0
Within n s = (bytes : Bytes) × (s ≡ fixed n bytes) × (length bytes ≤ n)

not_ltb : (a b : ℕ) → ltb a b ≡ false → b ≤ a
not_ltb a b e = ground arith

deliver-Within :
    (grant : ℕ → Bool) (n : ℕ) (chunk bytes : Bytes)
    → n < half_size
    → length chunk ≤ curl_max_write_size
    → length bytes ≤ n
    → Within n (deliver grant chunk (fixed n bytes)).1
unfolding deliver
deliver-Within grant n chunk bytes small few h =
    elim (Bool-cases (ltb n ((length bytes + length chunk) % size_mod))) [
      | inl e ↦ rw e (bytes, refl, h)
      | inr e ↦ rw e (
        bytes ++ chunk,
        refl,
        omega (
          arith,
          length-append bytes chunk,
          not_ltb n ((length bytes + length chunk) % size_mod) e,
        ),
      )
    ]

deliver_all-Within :
    (grant : ℕ → Bool) (n : ℕ) (chunks : List Bytes) (bytes : Bytes)
    → n < half_size
    → AreChunks chunks
    → length bytes ≤ n
    → Within n (deliver_all grant chunks (fixed n bytes))
unfolding deliver_all
deliver_all-Within grant n [] bytes small few h = (bytes, refl, h)
deliver_all-Within grant n (c ∷ cs) bytes small (chunk_more few more) h =
    let (bytes', e, h') = deliver-Within grant n c bytes small few h in
    elim (Bool-cases ((deliver grant c (fixed n bytes)).0 == length c)) [
      | inl same ↦ rw (same, e) (deliver_all-Within grant n cs bytes' small more h')
      | inr differ ↦ rw (differ, e) (bytes', refl, h')
    ]

-- An early result: zero, negative, or the code of an error.
abbrev Fault : ℤ → Type 0
Fault r = (n : ℕ) → r ≡ pos n → 0 < n → 2 ^ 31 ≤ n

module _ {S : Type 0} where
  abbrev Ends : {A : Type 0} → (A → S → Type 0) → Res A × S → Type 0
  Ends P (ret r, s) = Fault r
  Ends P (go a, s) = P a s

  follow-Ends :
      {A B : Type 0} (P : A → S → Type 0) (Q : B → S → Type 0) (f : A → Step S B) (x : Res A × S)
      → Ends P x
      → ((a : A) (s : S) → P a s → Ends Q (f a s))
      → Ends Q (follow f x)
  follow-Ends P Q f (ret r, s) h k = h
  follow-Ends P Q f (go a, s) h k = k a s h

neg-Fault : (r : ℤ) → is_neg r ≡ true → Fault r
neg-Fault r e n same small = ground arith

error-Fault : (f c : ℕ) → f < 128 → c < 0x1000000 → Fault (as_ssize (hive_mk_error f c))
error-Fault f c p q n same small =
    let (x, y) = hive_mk_error-signs f c p q in
    let value : pos n ≡ pos (2147483648 + f * 16777216 + c) = sym same ∙ y in ground arith

module _ {W J : Type 0} (net : Net W J) (grant : ℕ → Bool)
    (delivers : (c : HttpClient) (w : W)
      → (chunks : List Bytes) × AreChunks chunks
        × ((net.perform c w).0.1 ≡ deliver_all grant chunks c.sink))
    (curl_code : (c : HttpClient) (w : W) → (net.perform c w).0.0 < 0x1000000)
    (status : (w : W)
      → ((net.response_code w).0 < 0x1000000) × ((net.response_code w).1 < 0x1000000)) where
  abbrev S : Type 0
  S = Call W

  module _ (buflen : ℕ) (small : buflen < half_size) where
    -- The bytes that have been stored, and no more of them than there is room.
    abbrev Kept : Sink → S → Type 0
    Kept sink s = (s.out ≡ stored_by sink []) × (length (stored_by sink []) ≤ buflen)

    abbrev Filled : ℤ → S → Type 0
    Filled r s = (n : ℕ) → r ≡ pos n → (length s.out ≡ n) × (n ≤ buflen)

    finish-Ends :
        (fsize : ℕ) (sink : Sink) (s : S) → Kept sink s → Ends Filled (finish net fsize sink s)
    unfolding finish
    finish-Ends fsize sink s (out, room) =
        let (rc, code) = net.response_code s.outside in
        let (rc_small, code_small) = status s.outside in
        elim (Bool-cases (rc == 0)) [
          | inr bad ↦ rw bad (error-Fault 5 rc (omega arith) rc_small)
          | inl ok ↦ elim (Bool-cases (code == 200)) [
            | inr bad ↦ rw (ok, bad) (error-Fault 7 code (omega arith) code_small)
            | inl fine ↦ elim (Bool-cases (fsize == length (stored_by sink []))) [
              | inr differ ↦ rw (ok, fine, differ) (error-Fault 1 4 (omega arith) (omega arith))
              | inl same ↦
                  rw (ok, fine, same)
                    (λ n e. ground (arith, (==_iff fsize (length (stored_by sink []))).0 same))
            ]
          ]
        ]

    kept :
        (t : Sink) (old : Bytes)
        → ((chunks : List Bytes) × AreChunks chunks
            × (t ≡ deliver_all grant chunks (fixed buflen [])))
        → (stored_by t old ≡ stored_by t []) × (length (stored_by t []) ≤ buflen)
    kept t old (chunks, few, e) =
        let (bytes, e', h) = deliver_all-Within grant buflen chunks [] small few (omega arith) in
        rw (e, e') (refl, h)

    failed_request-Fault : (rc : ℕ) (s : S) → rc < 0x1000000 → Fault (failed_request net rc s).0
    unfolding failed_request
    failed_request-Fault rc s h = elim (Bool-cases (rc_node_unreachable rc)) [
      | inl e ↦ rw e (neg-Fault _ (hive_mk_error-signs 1 0x17 (omega arith) (omega arith)).0)
      | inr e ↦ rw e (neg-Fault _ (hive_mk_error-signs 5 rc (omega arith) h).0)
    ]

    request-Ends : (c : HttpClient) (s : S) → c.sink ≡ fixed buflen [] → Ends Kept (request net c s)
    unfolding request failed_request
    request-Ends c s e = elim (Bool-cases ((net.perform c s.outside).0.0 == 0)) [
      | inl ok ↦
          rw ok (kept (net.perform c s.outside).0.1 s.out (rw (sym e) (delivers c s.outside)))
      | inr failed ↦ rw failed (failed_request-Fault _ _ (curl_code c s.outside))
    ]

    cat-Ends : (cid : Bytes) (fsize : ℕ) (s : S) → Ends Filled (cat net cid buflen fsize s)
    unfolding cat check_reachable
    cat-Ends cid fsize s =
        let ((rc, rpc), w) = ipfs_rpc_check_reachable net s.rpc s.outside in
        elim (Bool-cases (is_neg rc)) [
          | inl bad ↦ rw bad (neg-Fault rc bad)
          | inr ok ↦ rw ok (elim (Bool-cases (net.http_client_new w).0) [
            | inr none_made ↦ rw none_made (error-Fault 1 2 (omega arith) (omega arith))
            | inl made ↦ rw made (
                follow-Ends Kept Filled (finish net fsize) _ (request-Ends _ _ refl)
                  (finish-Ends fsize))
          ])
        ]

    check_size-Ends : (x : ℤ) (s : S) → Ends (λ n s. Unit) (check_size net buflen x s)
    unfolding check_size
    check_size-Ends (pos n) s = elim (Bool-cases (n == 0)) [
      | inl e ↦ rw e (λ m same. ground arith)
      | inr e ↦ elim (Bool-cases ((ltb 0 buflen && ltb buflen half_size) && ltb buflen n)) [
        | inl e' ↦ rw (e, e') (error-Fault 1 3 (omega arith) (omega arith))
        | inr e' ↦ rw (e, e') tt
      ]
    ]
    check_size-Ends (negsuc n) s = neg-Fault (negsuc n) refl

    value-Filled :
        (x : Res ℤ × S) (n : ℕ)
        → Ends Filled x
        → (value x).0 ≡ pos n
        → 0 < n
        → n < 2 ^ 31
        → (length (value x).1.out ≡ n) × (n ≤ buflen)
    value-Filled (ret r, s) n h e p q = absurd (omega (arith, h n e p))
    value-Filled (go r, s) n h e p q = h n e

    -- A positive result of `get_file_to_buffer` below 2^31 is the number of bytes that the call has
    -- stored in the buffer, and is at most the buffer's size, which is below 2^63: if libcurl hands
    -- over the body in chunks of at most CURL_MAX_WRITE_SIZE bytes, and its result codes and the
    -- response's status are below 2^24.
    pub get_file_to_buffer-Filled :
        (cid : Bytes) (s : S) (n : ℕ)
        → (get_file_to_buffer net cid buflen s).0 ≡ pos n
        → 0 < n
        → n < 2 ^ 31
        → (length (get_file_to_buffer net cid buflen s).1.out ≡ n) × (n ≤ buflen)
    unfolding get_file_to_buffer
    get_file_to_buffer-Filled cid s n =
        let (fsize, s') = get_file_length net cid s in
        let sized : Res ℕ × S = check_size net buflen fsize s' in
        value-Filled (follow (cat net cid buflen) sized) n (
          follow-Ends (λ k t. Unit) Filled (cat net cid buflen) sized (check_size-Ends fsize s')
            (λ k t h. cat-Ends cid k t))
