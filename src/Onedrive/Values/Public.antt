-- ===== src/Onedrive/Values/Public.antt =====
-- The public functions of src/hive_key.c over the OneDrive backend of src/vendors/onedrive/onedrive.c.
use elastos_net_hive_native.Base.{
  ℕ, ◌+◌, ◌≤◌, ◌<◌, ◌≡◌, refl, sym, ap, ◌∙◌, Bool, true, false, ◌||◌, Bytes, length, List, [], ◌∷◌,
  ◌++◌, some, ℤ, pos, is_neg, ltb, ◌==◌, if◌then◌else◌, inl, arith,
}
use elastos_net_hive_native.Api.Connect.{
  Env, Action, HiveConnect, KeyValuesIterateCallback, report, pure,
}
use elastos_net_hive_native.Api.Key.{hive_max_value_len, hive_put_value, hive_get_values}
use elastos_net_hive_native.Onedrive.Values.{Store, key_path, put_value, get_values}
use elastos_net_hive_native.Onedrive.Values.Walk.{
  entries, length-entries_more, AreValues, no_values, value_more, visit,
}
use elastos_net_hive_native.Onedrive.Values.Kept.{Reliable, Holds, values-Stored, get_values-visit}

AreValues-append :
    (vs : List Bytes) (v : Bytes)
    → AreValues vs
    → 0 < length v
    → length v ≤ 32768
    → AreValues (vs ++ v ∷ [])
AreValues-append [] v no_values some_ small = value_more some_ small no_values
AreValues-append (u ∷ us) v (value_more some' small' more) some_ small =
    value_more some' small' (AreValues-append us v more some_ small)

length-entries_append :
    (vs : List Bytes) (v : Bytes)
    → length (entries (vs ++ v ∷ [])) ≡ length (entries vs) + 4 + length v
length-entries_append [] v = omega (arith, length-entries_more v [])
length-entries_append (u ∷ us) v = omega (
  arith,
  length-entries_more u us,
  length-entries_more u (us ++ v ∷ []),
  length-entries_append us v,
)

module _ {W : Type 0} where
  visit_more :
      (callback : KeyValuesIterateCallback W) (key : Bytes) (vs : List Bytes) (p : Bool) (e : Env W)
      → ((e' : Env W) → (visit callback key vs e').0 ≡ pos 0)
      → ((if p then visit callback key vs else pure (pos 0)) e).0 ≡ pos 0
  visit_more callback key vs true e h = h e
  visit_more callback key vs false e h = refl

  visit_zero :
      (callback : KeyValuesIterateCallback W) (key : Bytes) (vs : List Bytes) (e : Env W)
      → (visit callback key vs e).0 ≡ pos 0
  unfolding visit
  visit_zero callback key [] e = refl
  visit_zero callback key (v ∷ vs) e =
      let (p, e') = callback key v e in visit_more callback key vs p e' (visit_zero callback key vs)

  report-pos : (m : Action W ℤ) (e : Env W) → (m e).0 ≡ pos 0 → report m e ≡ m e
  report-pos m e h = rw (ap is_neg h, report) (ap (λ (r : ℤ). (r, (m e).1)) (sym h))

module _ {W : Type 0} {store : Store W} (reliable : Reliable store) (c : HiveConnect W)
    (puts : c.put_value ≡ some (put_value store))
    (gets : c.get_values ≡ some (get_values store)) where
  -- `hive_put_value` with valid arguments is the backend's `put_value`, when that succeeds.
  hive_put_value-put_value :
      (k : ℕ) (ks value : Bytes) (x : Bool) (e : Env W)
      → 0 < length value
      → length value ≤ 32768
      → (put_value store (k ∷ ks) value (length value) x e).0 ≡ pos 0
      → hive_put_value (some c) (some (k ∷ ks)) (some value) (length value) x e
        ≡ put_value store (k ∷ ks) value (length value) x e
  unfolding hive_put_value
  hive_put_value-put_value k ks value x e some_ small ok =
      let valid : (length value == 0 || ltb hive_max_value_len (length value)) ≡ false =
        ground arith in
      rw (valid, puts) (report-pos (put_value store (k ∷ ks) value (length value) x) e ok)

  -- `hive_get_values` of a key that has values
  hive_get_values-visit :
      (k : ℕ) (ks v : Bytes) (vs : List Bytes) (x : Bool) (callback : KeyValuesIterateCallback W)
      (e : Env W)
      → reliable.Fits (key_path (k ∷ ks))
      → reliable.Ready e.world
      → reliable.content (key_path (k ∷ ks)) e.world ≡ some (entries (v ∷ vs))
      → AreValues (v ∷ vs)
      → length (entries (v ∷ vs)) ≤ reliable.room
      → (e' : Env W) × ((q : Bytes) → reliable.content q e'.world ≡ reliable.content q e.world)
        × reliable.Ready e'.world
        × (hive_get_values (some c) (some (k ∷ ks)) x (some callback) e
            ≡ visit callback (k ∷ ks) (v ∷ vs) e')
  unfolding hive_get_values
  hive_get_values-visit k ks v vs x callback e fits ready holds valid bound =
      let (e', same, ready', visits) =
        get_values-visit reliable x (k ∷ ks) callback v vs e fits ready (inl holds) valid bound in
      let ok : (get_values store (k ∷ ks) x callback e).0 ≡ pos 0 =
        ap (λ (r : ℤ × Env W). r.0) visits ∙ visit_zero callback (k ∷ ks) (v ∷ vs) e' in
      (e', same, ready', rw gets (report-pos (get_values store (k ∷ ks) x callback) e ok ∙ visits))

  -- Through the public functions and a connection that has the OneDrive functions over a store, from a
  -- state in which the store is ready: for a key that is not empty and whose path fits, and a value of 1
  -- to 32768 bytes, while the file stays within the store's room, `hive_put_value` returns 0, and
  -- `hive_get_values` after it tells the callback the values that the key had and then the new one, in
  -- order, until it asks to stop; its result and the state after it are those of that visit, from a
  -- state in which the store is ready and its files are those that `hive_put_value` left.
  pub put-get_values :
      (k : ℕ) (ks value : Bytes) (vs : List Bytes) (x : Bool)
      (callback : KeyValuesIterateCallback W) (e : Env W)
      → reliable.Fits (key_path (k ∷ ks))
      → reliable.Ready e.world
      → Holds reliable x (k ∷ ks) vs e.world
      → AreValues vs
      → 0 < length value
      → length value ≤ 32768
      → length (entries vs) + 4 + length value ≤ reliable.room
      → let r = hive_put_value (some c) (some (k ∷ ks)) (some value) (length value) x e in
        (r.0 ≡ pos 0)
        × ((e' : Env W) × ((q : Bytes) → reliable.content q e'.world ≡ reliable.content q r.1.world)
            × reliable.Ready e'.world
            × (hive_get_values (some c) (some (k ∷ ks)) x (some callback) r.1
                ≡ visit callback (k ∷ ks) (vs ++ value ∷ []) e'))
  put-get_values k ks value vs x callback e fits ready holds valid some_ small bound =
      let (ok, kept, ready') =
        (values-Stored reliable x (k ∷ ks) value vs e fits ready holds bound).0 in
      let put = hive_put_value-put_value k ks value x e some_ small ok in
      rw put
        (ok, got vs valid (put_value store (k ∷ ks) value (length value) x e).1 ready' kept bound)
    where
      got :
          (ws : List Bytes)
          → AreValues ws
          → (e1 : Env W) → reliable.Ready e1.world
          → reliable.content (key_path (k ∷ ks)) e1.world ≡ some (entries (ws ++ value ∷ []))
          → length (entries ws) + 4 + length value ≤ reliable.room
          → (e' : Env W) × ((q : Bytes) → reliable.content q e'.world ≡ reliable.content q e1.world)
            × reliable.Ready e'.world
            × (hive_get_values (some c) (some (k ∷ ks)) x (some callback) e1
                ≡ visit callback (k ∷ ks) (ws ++ value ∷ []) e')
      got [] ws_valid e1 ready1 kept1 room =
          hive_get_values-visit k ks value [] x callback e1 fits ready1 kept1
            (AreValues-append [] value ws_valid some_ small)
            (omega (arith, length-entries_append [] value))
      got (u ∷ us) ws_valid e1 ready1 kept1 room =
          hive_get_values-visit k ks u (us ++ value ∷ []) x callback e1 fits ready1 kept1
            (AreValues-append (u ∷ us) value ws_valid some_ small)
            (omega (arith, length-entries_append (u ∷ us) value))
