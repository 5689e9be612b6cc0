-- ===== src/Onedrive/Values/Kept.antt =====
-- What the values of a key are over a store that answers: `put_value` adds one, `set_value` leaves one,
-- and `get_values` of src/vendors/onedrive/onedrive.c tells them in order.
use mathlib.Core.List.{append_assoc, append-nil}
use elastos_net_hive_native.Base.{
  ℕ, ◌+◌, ◌%◌, ◌^◌, ◌<◌, ◌≤◌, ◌≡◌, ◌⊎◌, refl, sym, ap, ◌∙◌, Bool, true, false, Bytes, length,
  length-append, List, [], ◌∷◌, ◌++◌, Option, none, some, ℤ, pos, to_int, ◌==◌, ltb, leb, ◌&&◌, inl,
  inr, arith,
}
use elastos_net_hive_native.Error.Code.{hive_mk_error, as_int}
use elastos_net_hive_native.Api.Connect.{Env, Action, KeyValuesIterateCallback}
use elastos_net_hive_native.Http.Body.{size_mod}
use elastos_net_hive_native.Api.Os.{eq_ℤ}
use elastos_net_hive_native.Onedrive.Entry.{entry, htonl, fill_whole, length-fill}
use elastos_net_hive_native.Onedrive.Values.{
  Store, not_found, or_empty, key_path, put_behind, read_values, put_sized, put_value, set_value,
  get_sized, get_values,
}
use elastos_net_hive_native.Onedrive.Values.Walk.{
  entries, AreValues, value_more, visit, walk-visit, length-entries_more,
}

-- A store that keeps what it is given: at the paths that fit, from the states in which it is ready, and
-- for at most `room` bytes it answers each call, and is ready after it.
pub record Reliable {W : Type 0} (store : Store W) : Type 1 where
  pub content : Bytes → W → Option Bytes
  pub Ready : W → Type 0
  pub Fits : Bytes → Type 0
  pub room : ℕ
  pub room_small : room < 2 ^ 31
  pub length_found :
      (path : Bytes) (e : Env W) (b : Bytes)
      → Fits path
      → Ready e.world
      → content path e.world ≡ some b
      → length b ≤ room
      → (store.file_length path e).0 ≡ pos (length b)
  pub length_missing :
      (path : Bytes) (e : Env W)
      → Fits path
      → Ready e.world
      → content path e.world ≡ none
      → (store.file_length path e).0 ≡ as_int not_found
  pub after_length :
      (path : Bytes) (e : Env W)
      → Fits path
      → Ready e.world
      → let w = (store.file_length path e).1.world in
        Ready w × ((q : Bytes) → content q w ≡ content q e.world)
  pub get_found :
      (path : Bytes) (x : Bool) (e : Env W) (b : Bytes)
      → Fits path
      → Ready e.world
      → content path e.world ≡ some b
      → 0 < length b
      → length b ≤ room
      → let r = store.file_to_buffer path x (length b) e in
        (r.0 ≡ (pos (length b), b))
        × Ready r.1.world
        × ((q : Bytes) → content q r.1.world ≡ content q e.world)
  pub put_done :
      (b : Bytes) (n : ℕ) (x : Bool) (path : Bytes) (e : Env W)
      → Fits path
      → Ready e.world
      → length b ≡ n
      → 0 < n
      → n ≤ room
      → let r = store.file_from_buffer b n x path e in
        (r.0 ≡ pos 0) × (content path r.1.world ≡ some b) × Ready r.1.world
  pub calloc_done :
      (n : ℕ) (w : W)
      → Ready w
      → n ≤ room
      → let r = store.calloc n w in
        (r.0 ≡ true) × Ready r.1 × ((q : Bytes) → content q r.1 ≡ content q w)

or_empty-small : (n : ℕ) → n < 2 ^ 31 → or_empty (pos n) ≡ pos n
unfolding hive_mk_error
or_empty-small n h = ground arith

or_empty-missing : or_empty (as_int not_found) ≡ pos 0
unfolding hive_mk_error
or_empty-missing = refl

length-entry_size : (v : Bytes) → length (entry v (length v)) ≡ length v + 4
unfolding entry htonl
length-entry_size v = omega (arith, length-fill (length v) v)

entries-append :
    (vs : List Bytes) (v : Bytes) → entries (vs ++ v ∷ []) ≡ entries vs ++ entry v (length v)
entries-append [] v = append-nil (entry v (length v))
entries-append (u ∷ us) v =
    ap (λ (t : Bytes). entry u (length u) ++ t) (entries-append us v)
    ∙ sym (append_assoc (entry u (length u)) (entries us) (entry v (length v)))

module _ {W : Type 0} {store : Store W} (reliable : Reliable store) (x : Bool) where
  -- The result is 0, the file at the path has these bytes, and the store is ready.
  abbrev pub Stored : Bytes → Bytes → ℤ × Env W → Type 0
  Stored path b r =
      (r.0 ≡ pos 0) × (reliable.content path r.1.world ≡ some b) × reliable.Ready r.1.world

  -- Behind `read_values` stands what the store has kept.
  read_values-Stored :
      (path old result : Bytes) (next : Bytes → Action W ℤ) (e : Env W)
      → reliable.Fits path
      → reliable.Ready e.world
      → reliable.content path e.world ≡ some old
      → 0 < length old
      → length old ≤ reliable.room
      → ((e' : Env W) → reliable.Ready e'.world → Stored path result (next old e'))
      → Stored path result (read_values store path x (length old) next e)
  unfolding read_values
  read_values-Stored path old result next e fits ready kept some_ bound h =
      let (got, w) = store.file_to_buffer path x (length old) e in
      let (answer, ready', _) = reliable.get_found path x e old fits ready kept some_ bound in
      let small = reliable.room_small in
      let same : to_int (pos (length old)) ≡ pos (length old) = ground (arith, small) in
      let equal : eq_ℤ (pos (length old)) (pos (length old)) ≡ true = ground arith in
      rw (answer, same, equal, fill_whole old) (h w ready')

  put_sized-Stored :
      (path value old : Bytes) (e : Env W)
      → reliable.Fits path
      → reliable.Ready e.world
      → (reliable.content path e.world ≡ some old) ⊎ (old ≡ [])
      → length old + 4 + length value ≤ reliable.room
      → Stored path
          (old ++ entry value (length value))
          (put_sized store path value (length value) x (pos (length old)) e)
  unfolding put_sized
  put_sized-Stored path value [] e fits ready kept bound =
      let size = (0 + 4 + length value) % size_mod in
      let small = reliable.room_small in
      let in_room : size ≤ reliable.room = omega (arith, small) in
      let some_ : 0 < size = omega (arith, small) in
      let sum : length (entry value (length value)) ≡ size =
        omega (arith, length-entry_size value, small) in
      let (made, ready', same) = reliable.calloc_done size e.world ready in_room in
      rw made
        (reliable.put_done (entry value (length value)) size x path _ fits ready' sum some_ in_room)
  put_sized-Stored path value (c ∷ old) e fits ready kept bound =
      let all = c ∷ old in
      let size = (length all + 4 + length value) % size_mod in
      let small = reliable.room_small in
      let in_room : size ≤ reliable.room = omega (arith, small) in
      let some_ : 0 < size = omega (arith, small) in
      let (made, ready', same) = reliable.calloc_done size e.world ready in_room in
      let kept' : reliable.content path e.world ≡ some all = elim kept [
        | inl k ↦ k
        | inr none_kept ↦ absurd (cc none_kept)
      ] in
      let long : (length all == 0) ≡ false = ground arith in
      let sum : length (all ++ entry value (length value)) ≡ size =
        omega
          (arith, length-append all (entry value (length value)), length-entry_size value, small) in
      rw (made, long)
        (read_values-Stored path all (all ++ entry value (length value))
          (put_behind store path value (length value) x (length all)) _ fits ready'
          (same path ∙ kept') (omega arith) (omega arith)
          (λ e' ready2.
            reliable.put_done (all ++ entry value (length value)) size x path e' fits ready2 sum
              some_ in_room))

  -- The values that a key has: a file that is not there holds none.
  abbrev pub Holds : Bytes → List Bytes → W → Type 0
  Holds key vs w =
      (reliable.content (key_path key) w ≡ some (entries vs))
      ⊎ ((reliable.content (key_path key) w ≡ none) × (vs ≡ []))

  put_value-Stored :
      (key value : Bytes) (vs : List Bytes) (e : Env W)
      → reliable.Fits (key_path key)
      → reliable.Ready e.world
      → Holds key vs e.world
      → length (entries vs) + 4 + length value ≤ reliable.room
      → Stored
          (key_path key)
          (entries (vs ++ value ∷ []))
          (put_value store key value (length value) x e)
  unfolding put_value
  put_value-Stored key value vs e fits ready holds bound =
      let path = key_path key in
      let (size, e') = store.file_length path e in
      let (ready', same) = reliable.after_length path e fits ready in
      let small = reliable.room_small in
      elim holds [
        | inl kept ↦
            let found : size ≡ pos (length (entries vs)) =
              reliable.length_found path e (entries vs) fits ready kept (omega arith) in
            let kept' = same path ∙ kept in
            rw
              (
                found,
                or_empty-small (length (entries vs)) (omega (arith, small)),
                entries-append vs value,
              )
              (put_sized-Stored path value (entries vs) e' fits ready' (inl kept') bound)
        | inr (missing, none_kept) ↦
            let found : size ≡ as_int not_found =
              reliable.length_missing path e fits ready missing in
            rw (found, or_empty-missing, none_kept, append-nil (entry value (length value)))
              (put_sized-Stored path value [] e' fits ready' (inr refl) (omega arith))
      ]

  set_value-Stored :
      (key value : Bytes) (e : Env W)
      → reliable.Fits (key_path key)
      → reliable.Ready e.world
      → length value + 4 ≤ reliable.room
      → Stored (key_path key) (entries (value ∷ [])) (set_value store key value (length value) x e)
  unfolding set_value
  set_value-Stored key value e fits ready bound =
      let size = (4 + length value) % size_mod in
      let small = reliable.room_small in
      let in_room : size ≤ reliable.room = omega (arith, small) in
      let some_ : 0 < size = omega (arith, small) in
      let sum : length (entry value (length value)) ≡ size =
        omega (arith, length-entry_size value, small) in
      let (made, ready', same) = reliable.calloc_done size e.world ready in_room in
      rw (made, append-nil (entry value (length value)))
        (reliable.put_done (entry value (length value)) size x (key_path key) _ fits ready' sum
          some_ in_room)

  -- From a state in which the store is ready, for a key whose path fits, and while the file stays within
  -- the store's room, which is below 2^31 bytes: `put_value` returns 0 and adds its value behind those
  -- that the key has, of which there may be none; `set_value` returns 0 and leaves its value as the only
  -- one; and the store is ready after each.
  pub values-Stored :
      (key value : Bytes) (vs : List Bytes) (e : Env W)
      → reliable.Fits (key_path key)
      → reliable.Ready e.world
      → Holds key vs e.world
      → length (entries vs) + 4 + length value ≤ reliable.room
      → Stored
          (key_path key)
          (entries (vs ++ value ∷ []))
          (put_value store key value (length value) x e)
        × Stored
            (key_path key)
            (entries (value ∷ []))
            (set_value store key value (length value) x e)
  values-Stored key value vs e fits ready holds bound = (
    put_value-Stored key value vs e fits ready holds bound,
    set_value-Stored key value e fits ready (omega arith),
  )

  -- From a state in which the store is ready, for a key whose path fits and that has values, each of 1
  -- to 32768 bytes and together within the store's room: `get_values` tells the callback each value in
  -- order, until it asks to stop, and returns 0; the calls of the store before that leave its files as
  -- they were, and the store is ready after them.
  pub get_values-visit :
      (key : Bytes) (callback : KeyValuesIterateCallback W) (v : Bytes) (vs : List Bytes)
      (e : Env W)
      → reliable.Fits (key_path key)
      → reliable.Ready e.world
      → Holds key (v ∷ vs) e.world
      → AreValues (v ∷ vs)
      → length (entries (v ∷ vs)) ≤ reliable.room
      → (e' : Env W) × ((q : Bytes) → reliable.content q e'.world ≡ reliable.content q e.world)
        × reliable.Ready e'.world
        × (get_values store key x callback e ≡ visit callback key (v ∷ vs) e')
  unfolding get_values get_sized
  get_values-visit key callback v vs e fits ready (inr (missing, none_kept)) valid bound =
      absurd (cc none_kept)
  get_values-visit key callback v vs e fits ready (inl kept) (value_more some_ small valid) bound =
      let path = key_path key in
      let all = entries (v ∷ vs) in
      let n = length all in
      let below = reliable.room_small in
      let (size, e1) = store.file_length path e in
      let found : size ≡ pos n = reliable.length_found path e all fits ready kept bound in
      let (ready1, same1) = reliable.after_length path e fits ready in
      let e2 : Env W = record e1 { world = (store.calloc n e1.world).1 } in
      let (made, ready2, same2) = reliable.calloc_done n e1.world ready1 bound in
      let (got, e3) = store.file_to_buffer path x n e2 in
      let (answer, ready3, same3) =
        reliable.get_found path x e2 all fits ready2 (same2 path ∙ same1 path ∙ kept)
          (omega (arith, length-entries_more v vs)) bound in
      let long : (ltb 0 n && leb n 4) ≡ false = ground (arith, length-entries_more v vs) in
      let more : (n == 0) ≡ false = ground (arith, length-entries_more v vs) in
      let equal : eq_ℤ (pos n) (pos n) ≡ true = ground arith in
      (
        e3,
        λ q. same3 q ∙ same2 q ∙ same1 q,
        ready3,
        rw
            (
              found,
              or_empty-small n (omega (arith, below)),
              long,
              more,
              made,
              answer,
              equal,
              fill_whole all,
            )
            (walk-visit store key callback n v vs e3 (value_more some_ small valid) (omega arith)),
      )
