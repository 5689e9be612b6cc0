-- ===== src/Apps/Values.antt =====
-- The commands of apps/cmd/cmd.c on the values of a key.
use elastos_net_hive_native.Base.{◌+◌, true, Bytes, codes, length, List, [], ◌∷◌, ◌++◌, some}
use elastos_net_hive_native.Error.Strerror.{FacilityDesc}
use elastos_net_hive_native.Api.Connect.{KeyValuesIterateCallback}
use elastos_net_hive_native.Apps.Ops.{Ops, Host, console}
use elastos_net_hive_native.Apps.Shell.{
  ◌>>=◌, act, syntax_error, connected, supporting, Run, report_failure,
}

module _ {W : Type 0} (host : Host W) (facilities : List FacilityDesc) where
  -- The value is stored with its NUL.
  unfoldable pub put_value : List Bytes → Run W
  put_value (name ∷ key ∷ value ∷ []) = connected host λ connect.
      supporting host Ops.put_value λ put. do
        rc ← act (put connect key (value ++ 0 ∷ []) (length value + 1) true)
        report_failure host facilities (codes "Error: put value failed. Reason: %s.") rc
  put_value _ = syntax_error host

  unfoldable pub set_value : List Bytes → Run W
  set_value (name ∷ key ∷ value ∷ []) = connected host λ connect.
      supporting host Ops.set_value λ set. do
        rc ← act (set connect key (value ++ 0 ∷ []) (length value + 1) true)
        report_failure host facilities (codes "Error: set value failed. Reason: %s.") rc
  set_value _ = syntax_error host

  -- `%s` ends at the value's NUL; what it prints of a value without one is the host's to say.
  unfoldable pub get_values_cb : KeyValuesIterateCallback W
  get_values_cb key value e = (true, (console host (codes "%s") (some value ∷ []) e).1)

  unfoldable pub get_values : List Bytes → Run W
  get_values (name ∷ key ∷ []) = connected host λ connect. supporting host Ops.get_values λ get. do
    rc ← act (get connect key true get_values_cb)
    report_failure host facilities (codes "Error: get values failed. Reason: %s.") rc
  get_values _ = syntax_error host

  unfoldable pub delete_key : List Bytes → Run W
  delete_key (name ∷ key ∷ []) = connected host λ connect. supporting host Ops.delete_key λ delete.
      do
        rc ← act (delete connect key)
        report_failure host facilities (codes "Error: delete key failed. Reason: %s.") rc
  delete_key _ = syntax_error host
