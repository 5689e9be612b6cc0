-- ===== src/Http/Body/Content.antt =====
-- What the body buffer in src/http/http_client.c holds after any sequence of chunks.
use mathlib.Core.Path.{subst}
use mathlib.Core.Option.{some-injective}
use mathlib.Core.List.{append_assoc, append-nil, flatten}
use elastos_net_hive_native.Base.{
  ℕ, ◌+◌, ◌-◌, ◌%◌, ◌≤◌, ◌<◌, ◌≡◌, ◌≢◌, ◌⊎◌, inl, inr, refl, sym, ap, ◌∙◌, ltb, Bool, false, Bytes,
  List, [], ◌∷◌, ◌++◌, length, length-append, Option, some, Bool-cases, arith,
}
use elastos_net_hive_native.Http.Body.{
  size_mod, Body, empty_body, resize, append_chunk, drop_body, http_response_body_write_callback,
  moved, null_store, http_client_move_response_body,
}
use elastos_net_hive_native.Http.Body.Growth.{new_size_total}

-- The bytes that are in use lie in the buffer, and the buffer's size is a `size_t`.
pub record IsValid (b : Body) : Type 0 where
  pub within : b.used ≤ b.sz
  pub bounded : b.sz < size_mod
  pub counted : length b.stored ≡ b.used

-- All of the chunk is behind what was there, or the buffer was dropped.
pub record Took (chunk : Bytes) (b : Body) (n : ℕ) (b' : Body) : Type 0 where
  pub valid : IsValid b'
  pub all_or_nothing :
      ((n ≡ length chunk) × (b'.stored ≡ b.stored ++ chunk))
      ⊎ ((n ≡ 0) × (b'.stored ≡ []) × (0 < length chunk))

abbrev pub Result : Bytes → Body → Option (ℕ × Body) → Type 0
Result chunk b o = (n : ℕ) × (b' : Body) × (o ≡ some (n, b')) × Took chunk b n b'

append_chunk-Result :
    (chunk : Bytes) (b : Body) (s : ℕ)
    → b.used + length chunk ≤ s
    → s < size_mod
    → length b.stored ≡ b.used
    → Result chunk b (append_chunk chunk (record b { sz = s }))
append_chunk-Result chunk b s fits bounded counted = (
  length chunk,
  record b { used = b.used + length chunk; sz = s; stored = b.stored ++ chunk },
  refl,
  record {
    valid = record {
      within = fits;
      bounded = bounded;
      counted = length-append b.stored chunk ∙ ap (λ (t : ℕ). t + length chunk) counted;
    };
    all_or_nothing = inl (refl, refl);
  },
)

drop_body-Result :
    (chunk : Bytes) (b : Body) → IsValid b → 0 < length chunk → Result chunk b (drop_body b)
drop_body-Result chunk b v pos = (
  0,
  record b { used = 0; stored = [] },
  refl,
  record {
    valid = record { within = omega arith; bounded = v.bounded; counted = refl };
    all_or_nothing = inr (refl, refl, pos);
  },
)

resize-Result :
    (grant : ℕ → Bool) (chunk : Bytes) (b : Body) (r : ℕ)
    → IsValid b
    → b.sz + length chunk ≤ r
    → r < size_mod
    → 0 < length chunk
    → Result chunk b (resize grant chunk b (some r))
unfolding resize
resize-Result grant chunk b r v fits bounded pos = elim (Bool-cases (grant r)) [
  | inl yes_ ↦
      rw (yes_, resize) (append_chunk-Result chunk b r (omega (arith, v.within)) bounded v.counted)
  | inr no_ ↦ rw (no_, resize) (drop_body-Result chunk b v pos)
]

-- For a valid buffer and a chunk that is shorter than 2^64 the callback ends. It either takes the
-- whole chunk, behind what was stored before, or takes nothing and drops what was stored; and the
-- buffer is valid again: what is in use lies within it.
pub write_callback-Took :
    (grant : ℕ → Bool) (chunk : Bytes) (b : Body)
    → IsValid b
    → length chunk < size_mod
    → Result chunk b (http_response_body_write_callback grant chunk b)
unfolding http_response_body_write_callback
write_callback-Took grant chunk b v short =
    elim (Bool-cases (ltb ((b.sz + size_mod - b.used) % size_mod) (length chunk))) [
      | inl full ↦ rw full (elim (Bool-cases (ltb ((b.sz + length chunk) % size_mod) b.sz)) [
        | inl overflow ↦ rw overflow (drop_body-Result chunk b v (ground arith))
        | inr sum ↦
            let (r, e, fits, bounded) = new_size_total b.sz (length chunk) (ground arith) in
            rw (sum, e) (resize-Result grant chunk b r v fits bounded (ground arith))
      ])
      | inr room ↦ rw room (append_chunk-Result chunk b b.sz (ground arith) v.bounded v.counted)
    ]

-- Chunks that the callback has taken whole, one after the other, as libcurl goes on to the next
-- only then.
pub data Accepts (grant : ℕ → Bool) : List Bytes → Body → Body → Type 0 where
  finished : {b : Body} → Accepts grant [] b b
  next :
      {chunk : Bytes} {chunks : List Bytes} {b b' b'' : Body}
      → length chunk < size_mod
      → http_response_body_write_callback grant chunk b ≡ some (length chunk, b')
      → Accepts grant chunks b' b''
      → Accepts grant (chunk ∷ chunks) b b''

Took-whole :
    (chunk : Bytes) (b b' mid : Body) (n : ℕ)
    → Took chunk b n b'
    → (n ≡ length chunk)
    → b' ≡ mid
    → IsValid mid × (mid.stored ≡ b.stored ++ chunk)
Took-whole chunk b b' mid n t e p = elim t.all_or_nothing [
  | inl (_, s) ↦ (subst IsValid p t.valid, subst (λ (x : Body). x.stored ≡ b.stored ++ chunk) p s)
  | inr (z, _, more) ↦ absurd (omega arith)
]

Accepts-stored :
    {grant : ℕ → Bool} {chunks : List Bytes} {b b' : Body}
    → Accepts grant chunks b b'
    → IsValid b
    → IsValid b' × (b'.stored ≡ b.stored ++ flatten chunks)
unfolding flatten
Accepts-stored {b} finished v = (v, sym (append-nil b.stored))
Accepts-stored {grant} {b' = last} (next {chunk} {chunks} {b} {b' = mid} short e more) v =
    let (n, b1, e1, took) = write_callback-Took grant chunk b v short in
    let same : some (n, b1) ≡ some (length chunk, mid) = sym e1 ∙ e in
    let pair = some-injective _ _ same in
    let (valid, stored) =
      Took-whole chunk b b1 mid n took (ap (λ (t : ℕ × Body). t.0) pair)
        (ap (λ (t : ℕ × Body). t.1) pair) in
    let (valid', rest) = Accepts-stored more valid in
    (
      valid',
      rest
          ∙ ap (λ (t : Bytes). t ++ flatten chunks) stored
          ∙ append_assoc b.stored chunk (flatten chunks),
    )

empty-IsValid : IsValid empty_body
empty-IsValid = record { within = omega arith; bounded = omega arith; counted = refl }

moved_all :
    (b : Body) (text : Bytes) (has_len : Bool)
    → IsValid b
    → b.stored ≡ text
    → text ≢ []
    → http_client_move_response_body b has_len ≡ moved text empty_body
unfolding http_client_move_response_body
moved_all b [] has_len v e h = absurd (h refl)
moved_all b (c ∷ text) has_len v e h = ground (arith, v.counted, ap (λ (t : Bytes). length t) e)

-- A body that arrives in chunks, all of them taken, is handed over as the chunks joined, and the
-- client's buffer is empty then; an empty response is no body, and where the caller asks for no
-- length, a store through a NULL pointer.
pub move-Accepts :
    (grant : ℕ → Bool) (chunks : List Bytes) (b : Body) (has_len : Bool)
    → Accepts grant chunks empty_body b
    → (flatten chunks ≢ []
        → http_client_move_response_body b has_len ≡ moved (flatten chunks) empty_body)
      × (flatten chunks ≡ [] → http_client_move_response_body b false ≡ null_store)
unfolding http_client_move_response_body
move-Accepts grant chunks b has_len a =
    let (v, stored) = Accepts-stored a empty-IsValid in
    (
      λ some_. ground (arith, moved_all b (flatten chunks) has_len v stored some_),
      λ none_. ground (arith, v.counted, ap (λ (t : Bytes). length t) (stored ∙ none_)),
    )
