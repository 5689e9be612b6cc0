-- ===== src/Apps/Files.antt =====
-- The commands of apps/cmd/cmd.c on files.
use elastos_net_hive_native.Base.{
  ◌+◌, true, Bytes, codes, str_eq, length, List, [], ◌∷◌, Option, none, some, ℤ, is_zero, to_size,
  if◌then◌else◌,
}
use elastos_net_hive_native.Error.Strerror.{FacilityDesc}
use elastos_net_hive_native.Api.Connect.{HiveConnect, FilesIterateCallback}
use elastos_net_hive_native.Apps.Ops.{Ops, Host, console}
use elastos_net_hive_native.Apps.Shell.{
  ◌>>=◌, act, operation, say, syntax_error, connected, supporting, told, Run, report_failure,
}

abbrev pub put_failed : Bytes
put_failed = codes "Error: put file failed. Reason: %s."

module _ {W : Type 0} (host : Host W) (facilities : List FacilityDesc) where
  abbrev pub put_text : Bytes → Option Bytes → Run W
  put_text from to = connected host λ connect. do
    put ← operation Ops.put_file_from_buffer
    rc ← act (put connect from (length from) true to)
    report_failure host facilities put_failed rc

  abbrev pub put_from : Bytes → Option Bytes → Run W
  put_from from to = connected host λ connect. do
    put ← operation Ops.put_file
    rc ← act (put connect from true to)
    report_failure host facilities put_failed rc

  unfoldable pub put_file : List Bytes → Run W
  put_file (name ∷ from ∷ []) = put_text from none
  put_file (name ∷ a ∷ b ∷ []) =
      if str_eq a (codes "<") then put_from b none else put_text a (some b)
  put_file (name ∷ mark ∷ from ∷ to ∷ []) = put_from from (some to)
  put_file _ = syntax_error host

  unfoldable pub get_length : List Bytes → Run W
  get_length (name ∷ file ∷ []) = connected host λ connect. do
    get ← operation Ops.get_file_length
    len ← act (get connect file)
    told host facilities (codes "Error: get length failed. Reason: %s.") len
        (say host (codes "file %s length is %zd bytes.") (some file ∷ some (host.decimal len) ∷ []))
  get_length _ = syntax_error host

  -- The text on the screen ends at the first NUL of the buffer.
  unfoldable pub show_file : HiveConnect W → Bytes → ℤ → Run W
  show_file connect file len =
      if is_zero len then say host (codes "file %s length is 0 bytes.") (some file ∷ []) else (do
        made ← act (λ e.
            let (ok, w) = host.alloc (to_size len + 1) e.world in (ok, record e { world = w }))
        if made
            then (do
              get ← operation Ops.get_file_to_buffer
              got ← act (get connect file true (to_size len))
              told host facilities (codes "Error: get file to buffer failed. Reason: %s.") (got.0)
                  (say host (codes "%s") (some (got.1) ∷ [])))
            else say host (codes "Error: OOM.") [])

  unfoldable pub get_file : List Bytes → Run W
  get_file (name ∷ file ∷ []) = connected host λ connect. do
    get ← operation Ops.get_file_length
    len ← act (get connect file)
    told host facilities (codes "Error: get length failed. Reason: %s.") len
        (show_file connect file len)
  get_file (name ∷ file ∷ to ∷ []) = connected host λ connect. do
    get ← operation Ops.get_file
    len ← act (get connect file true to)
    report_failure host facilities (codes "Error: get file failed. Reason: %s.") len
  get_file _ = syntax_error host

  unfoldable pub delete_file : List Bytes → Run W
  delete_file (name ∷ file ∷ []) = connected host λ connect.
      supporting host Ops.delete_file λ delete. do
        rc ← act (delete connect file)
        report_failure host facilities (codes "Error: delete file failed. Reason: %s.") rc
  delete_file _ = syntax_error host

  unfoldable pub list_files_cb : FilesIterateCallback W
  list_files_cb none e = (true, e)
  list_files_cb (some filename) e = (true, (console host (codes "%s") (some filename ∷ []) e).1)

  unfoldable pub list_files : List Bytes → Run W
  list_files (name ∷ []) = connected host λ connect. supporting host Ops.list_files λ list. do
    rc ← act (list connect list_files_cb)
    report_failure host facilities (codes "Error: list files failed. Reason: %s.") rc
  list_files _ = syntax_error host
