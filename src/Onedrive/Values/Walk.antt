-- ===== src/Onedrive/Values/Walk.antt =====
-- The loop of `get_values` of src/vendors/onedrive/onedrive.c over a file that holds whole entries.
use elastos_net_hive_native.Base.{
  ℕ, zero, suc, ◌+◌, ◌-◌, ◌≤◌, ◌<◌, ◌≡◌, refl, ap, ◌∙◌, Bool, true, false, not, ◌||◌, Bytes, length,
  length-append, take, take-length_append, drop, drop-length_append, List, [], ◌∷◌, ◌++◌, ℤ, pos,
  ltb, leb, ◌==◌, ◌⊎◌, if◌then◌else◌, inl, inr, Bool-cases, arith, ◌&&◌,
}
use elastos_net_hive_native.Api.Connect.{Env, Action, ◌>>=◌, pure, KeyValuesIterateCallback}
use elastos_net_hive_native.Onedrive.Entry.{
  entry, fill, htonl, ntohl, ntohl-htonl, fill_whole, length-fill,
}
use elastos_net_hive_native.Onedrive.Values.{Store, walk}

-- The bytes of a file that holds these values.
abbrev pub entries : List Bytes → Bytes
entries [] = []
entries (v ∷ vs) = entry v (length v) ++ entries vs

-- Values that the public functions accept.
pub data AreValues : List Bytes → Type 0 where
  no_values : AreValues []
  value_more :
      {v : Bytes} {vs : List Bytes}
      → 0 < length v
      → length v ≤ 32768
      → AreValues vs
      → AreValues (v ∷ vs)

-- What a caller expects: the callback is told each value in order, until it asks to stop.
unfoldable pub visit : {W : Type 0} → KeyValuesIterateCallback W → Bytes → List Bytes → Action W ℤ
visit callback key [] = pure (pos 0)
visit callback key (v ∷ vs) = do
  proceed ← callback key v
  let rest = visit callback key vs
  if proceed then rest else pure (pos 0)

length-entry : (v : Bytes) → length (entry v (length v)) ≡ length v + 4
unfolding entry htonl
length-entry v = omega (arith, length-fill (length v) v)

pub length-entries_more :
    (v : Bytes) (vs : List Bytes) → length (entries (v ∷ vs)) ≡ length v + 4 + length (entries vs)
length-entries_more v vs =
    omega (arith, length-append (entry v (length v)) (entries vs), length-entry v)

ntohl-entry :
    (v : Bytes) (rest : Bytes) → length v ≤ 32768 → ntohl (entry v (length v) ++ rest) ≡ length v
unfolding entry htonl
ntohl-entry v rest h = ntohl-htonl (length v) (fill (length v) v ++ rest) (omega arith)

value-entry : (v rest : Bytes) → take (length v) (drop 4 (entry v (length v) ++ rest)) ≡ v
unfolding entry htonl
value-entry v rest = rw (fill_whole v) (take-length_append v rest)

drop-entry : (v rest : Bytes) → drop (4 + length v) (entry v (length v) ++ rest) ≡ rest
drop-entry v rest =
    let size : 4 + length v ≡ length (entry v (length v)) = omega (arith, length-entry v) in
    ap (λ (n : ℕ). drop n (entry v (length v) ++ rest)) size
    ∙ drop-length_append (entry v (length v)) rest

module _ {W : Type 0} (store : Store W) (key : Bytes) (callback : KeyValuesIterateCallback W) where
  abbrev Loop : Type 0
  Loop = ℕ → Bytes → Action W ℤ

  -- What follows the callback's answer.
  abbrev go_on : Loop → Bytes → Bool → Action W ℤ
  go_on rest next proceed =
      if length next == 0 || not proceed then pure (pos 0) else rest (length next) next

  round :
      (fuel n : ℕ) (kv v next : Bytes) (e : Env W)
      → ntohl kv ≡ n
      → n ≤ 32768
      → take n (drop 4 kv) ≡ v
      → drop (4 + n) kv ≡ next
      → (length next ≡ 0) ⊎ (4 < length next)
      → walk store (suc fuel) key callback (4 + n + length next) kv e
        ≡ (callback key v >>= go_on (walk store fuel key callback) next) e
  unfolding walk
  round fuel n kv v next e len small value tail ends =
      let fits : ltb 32768 n ≡ false = ground arith in
      let left : 4 + n + length next - (4 + n) ≡ length next = omega arith in
      let whole : (ltb (4 + n + length next) (4 + n) || ltb 0 (length next) && leb (length next) 4)
          ≡ false =
        ground (arith, ends) in
      rw (len, value, tail, left, fits, whole) refl

  -- The loop and the visit agree behind an answer, if they agree on the rest.
  go_on-visit :
      (rest : Loop) (vs : List Bytes) (next : Bytes) (p : Bool) (e : Env W)
      → ((vs ≡ []) × (length next ≡ 0))
        ⊎ ((0 < length next) × (rest (length next) next e ≡ visit callback key vs e))
      → go_on rest next p e ≡ (if p then visit callback key vs else pure (pos 0)) e
  unfolding visit
  go_on-visit rest vs next true e (inl (none_left, empty)) = rw (none_left, empty) refl
  go_on-visit rest vs next false e (inl (none_left, empty)) = rw empty refl
  go_on-visit rest vs next true e (inr (some_left, same)) =
      let more : (length next == 0) ≡ false = ground arith in rw more same
  go_on-visit rest vs next false e (inr (some_left, same)) =
      let more : (length next == 0) ≡ false = ground arith in rw more refl

  -- Over the entries of at least one value, with a round for each byte, the loop is a visit.
  pub walk-visit :
      (fuel : ℕ) (v : Bytes) (vs : List Bytes) (e : Env W)
      → AreValues (v ∷ vs)
      → length (entries (v ∷ vs)) ≤ fuel
      → walk store fuel key callback (length (entries (v ∷ vs))) (entries (v ∷ vs)) e
        ≡ visit callback key (v ∷ vs) e
  unfolding visit
  walk-visit zero v vs e valid enough = absurd (omega (arith, length-entries_more v vs))
  walk-visit (suc fuel) v [] e (value_more some_ small valid) enough =
      let total : length (entries (v ∷ [])) ≡ 4 + length v + 0 =
        omega (arith, length-entries_more v []) in
      let (p, e') = callback key v e in
      rw
        (
          total,
          round fuel (length v) (entries (v ∷ [])) v [] e (ntohl-entry v [] small) small
              (value-entry v []) (drop-entry v []) (inl refl),
        )
        (go_on-visit (walk store fuel key callback) [] [] p e' (inl (refl, refl)))
  walk-visit (suc fuel) v (u ∷ us) e (value_more some_ small (value_more some' small' valid))
        enough =
      let rest = entries (u ∷ us) in
      let size = length-entries_more u us in
      let total : length (entries (v ∷ u ∷ us)) ≡ 4 + length v + length rest =
        omega (arith, length-entries_more v (u ∷ us)) in
      let (p, e') = callback key v e in
      let same = walk-visit fuel u us e' (value_more some' small' valid) (omega arith) in
      rw
        (
          total,
          round fuel (length v) (entries (v ∷ u ∷ us)) v rest e (ntohl-entry v rest small) small
              (value-entry v rest) (drop-entry v rest) (inr (omega arith)),
        )
        (go_on-visit (walk store fuel key callback) (u ∷ us) rest p e' (inr (omega arith, same)))

  -- For at least one byte, two numbers of rounds that are both at least the number of bytes give the
  -- loop the same result and the same state, whatever the bytes and the callback are.
  pub walk_enough :
      (fuel more data_len : ℕ) (kv : Bytes) (e : Env W)
      → 0 < data_len
      → data_len ≤ fuel
      → data_len ≤ more
      → walk store fuel key callback data_len kv e ≡ walk store more key callback data_len kv e
  unfolding walk
  walk_enough zero more data_len kv e some_ low low' = absurd (omega arith)
  walk_enough (suc fuel) zero data_len kv e some_ low low' = absurd (omega arith)
  walk_enough (suc fuel) (suc more) data_len kv e some_ low low' =
      let n = ntohl kv in
      let left = data_len - (4 + n) in
      let (p, e') = callback key (take n (drop 4 kv)) e in
      elim (Bool-cases (ltb 32768 n)) [
        | inl long ↦ rw long refl
        | inr short ↦ elim (Bool-cases (ltb data_len (4 + n) || ltb 0 left && leb left 4)) [
          | inl cut ↦ rw (short, cut) refl
          | inr whole ↦ elim (Bool-cases (left == 0 || not p)) [
            | inl ends ↦ rw (short, whole, ends) refl
            | inr goes ↦
                let some_left : 0 < left = ground arith in
                rw (short, whole, goes)
                  (walk_enough fuel more left (drop (4 + n) kv) e' some_left (omega arith)
                    (omega arith))
          ]
        ]
      ]
