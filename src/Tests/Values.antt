-- ===== src/Tests/Values.antt =====
-- The values of a key over a OneDrive connection whose server keeps one file.
use elastos_net_hive_native.Base.{
  ◌≤◌, ◌≡◌, refl, true, false, Bytes, codes, length, [], ◌∷◌, ◌++◌, some, pos, inl, arith,
}
use elastos_net_hive_native.Oauth.Token.{Session}
use elastos_net_hive_native.Tests.Cloud.{
  Cloud, at, cloud_store, cloud-Reliable, onedrive, onedrive_puts, onedrive_gets,
}
use elastos_net_hive_native.Api.Connect.{Env, KeyValuesIterateCallback}
use elastos_net_hive_native.Api.Key.{hive_put_value, hive_get_values}
use elastos_net_hive_native.Onedrive.Entry.{entry, htonl, fill}
use elastos_net_hive_native.Onedrive.Values.{key_path, put_value, set_value, get_values, walk}
use elastos_net_hive_native.Onedrive.Values.Walk.{
  entries, no_values, value_more, visit, walk_enough,
}
use elastos_net_hive_native.Onedrive.Values.Kept.{Stored, values-Stored, get_values-visit}
use elastos_net_hive_native.Onedrive.Values.Public.{put-get_values}

abbrev one_value : Env (Session Cloud)
one_value = record { hive_error = pos 0; world = at (some (entries (codes "ab" ∷ []))) 200 }

key_fits : length (key_path (codes "k")) ≤ 900
unfolding key_path
key_fits = omega arith

values-Stored_example :
    Stored cloud-Reliable true
      (key_path (codes "k"))
      (entries ((codes "ab" ∷ []) ++ codes "c" ∷ []))
      (put_value cloud_store (codes "k") (codes "c") (length (codes "c")) true one_value)
    × Stored cloud-Reliable true
        (key_path (codes "k"))
        (entries (codes "c" ∷ []))
        (set_value cloud_store (codes "k") (codes "c") (length (codes "c")) true one_value)
unfolding entry htonl fill
values-Stored_example =
    values-Stored cloud-Reliable true (codes "k") (codes "c") (codes "ab" ∷ []) one_value key_fits
      refl (inl refl) (omega arith)

-- Asks to stop at the first value.
abbrev first_only : KeyValuesIterateCallback (Session Cloud)
first_only key value e = (false, e)

get_values-visit_example :
    (e' : Env (Session Cloud)) × ((q : Bytes)
      → cloud-Reliable.content q e'.world ≡ cloud-Reliable.content q one_value.world)
    × cloud-Reliable.Ready e'.world
    × (get_values cloud_store (codes "k") true first_only one_value
        ≡ visit first_only (codes "k") (codes "ab" ∷ []) e')
unfolding entry htonl fill
get_values-visit_example =
    get_values-visit cloud-Reliable true (codes "k") first_only (codes "ab") [] one_value key_fits
      refl (inl refl) (value_more (omega arith) (omega arith) no_values) (omega arith)

walk_enough_example :
    walk cloud_store 7 (codes "k") first_only 6 (entries (codes "ab" ∷ [])) one_value
    ≡ walk cloud_store 6 (codes "k") first_only 6 (entries (codes "ab" ∷ [])) one_value
walk_enough_example =
    walk_enough cloud_store (codes "k") first_only 7 6 6 (entries (codes "ab" ∷ [])) one_value
      (omega arith) (omega arith) (omega arith)

put-get_values_example :
    let r = hive_put_value (some onedrive) (some (codes "k")) (some (codes "c")) 1 true one_value in
    (r.0 ≡ pos 0)
    × ((e' : Env (Session Cloud)) × ((q : Bytes)
          → cloud-Reliable.content q e'.world ≡ cloud-Reliable.content q r.1.world)
        × cloud-Reliable.Ready e'.world
        × (hive_get_values (some onedrive) (some (codes "k")) true (some first_only) r.1
            ≡ visit first_only (codes "k") ((codes "ab" ∷ []) ++ codes "c" ∷ []) e'))
unfolding entry htonl fill
put-get_values_example =
    put-get_values cloud-Reliable onedrive onedrive_puts onedrive_gets 107 [] (codes "c")
      (codes "ab" ∷ []) true first_only one_value key_fits refl (inl refl)
      (value_more (omega arith) (omega arith) no_values) (omega arith) (omega arith) (omega arith)
