-- ===== src/Apps/Commands/Files.antt =====
-- The commands on files and values of apps/cmd/cmd.c use no connection that is not there and call no
-- operation that the command line's table lacks.
use elastos_net_hive_native.Base.{
  ◌≡◌, Bytes, codes, str_eq, List, [], ◌∷◌, Option, none, some, ℤ, ◌+◌, to_size, is_zero,
  Bool-cases, inl, inr,
}
use elastos_net_hive_native.Error.Strerror.{FacilityDesc}
use elastos_net_hive_native.Api.Connect.{HiveConnect}
use elastos_net_hive_native.Apps.Ops.{Ops, Host}
use elastos_net_hive_native.Apps.Shell.{Shell, Run, done, told, syntax_error, connected, supporting}
use elastos_net_hive_native.Apps.Fine.{
  IsComplete, IsReady, Fine, fine, env-IsReady, done-Fine, operation-Fine, say-Fine, connected-Fine,
  supporting-Fine, told-Fine,
}
use elastos_net_hive_native.Apps.Files.{
  put_text, put_from, put_failed, put_file, get_length, show_file, get_file, delete_file,
  list_files,
}
use elastos_net_hive_native.Apps.Values.{put_value, set_value, get_values, delete_key}

module _ {W : Type 0} (host : Host W) (facilities : List FacilityDesc) where
  reported-Fine :
      (format : Bytes) (rc : ℤ) (s : Shell W)
      → IsReady s
      → Fine (told host facilities format rc done s)
  reported-Fine format rc s r = told-Fine host facilities format rc done s r (done-Fine s r)

  put_text-Fine :
      (from : Bytes) (to : Option Bytes) (s : Shell W)
      → IsReady s
      → Fine (put_text host facilities from to s)
  put_text-Fine from to s r = connected-Fine host _ s r λ connect ops has complete.
      operation-Fine Ops.put_file_from_buffer _ s has complete.has_put_file_from_buffer
        λ put. reported-Fine put_failed _ _ (env-IsReady _ r)

  put_from-Fine :
      (from : Bytes) (to : Option Bytes) (s : Shell W)
      → IsReady s
      → Fine (put_from host facilities from to s)
  put_from-Fine from to s r = connected-Fine host _ s r λ connect ops has complete.
      operation-Fine Ops.put_file _ s has complete.has_put_file
        λ put. reported-Fine put_failed _ _ (env-IsReady _ r)

  invalid-Fine : (s : Shell W) → IsReady s → Fine (syntax_error host s)
  invalid-Fine s r = say-Fine host (codes "Error: invalid command syntax.") [] s r

  pub put_file-Fine :
      (args : List Bytes) (s : Shell W) → IsReady s → Fine (put_file host facilities args s)
  unfolding put_file
  put_file-Fine (name ∷ from ∷ []) s r = put_text-Fine from none s r
  put_file-Fine (name ∷ a ∷ b ∷ []) s r = elim (Bool-cases (str_eq a (codes "<"))) [
    | inl mark ↦ rw mark (put_from-Fine b none s r)
    | inr text ↦ rw text (put_text-Fine a (some b) s r)
  ]
  put_file-Fine (name ∷ mark ∷ from ∷ to ∷ []) s r = put_from-Fine from (some to) s r
  put_file-Fine [] s r = invalid-Fine s r
  put_file-Fine (name ∷ []) s r = invalid-Fine s r
  put_file-Fine (name ∷ a ∷ b ∷ c ∷ d ∷ more) s r = invalid-Fine s r

  pub get_length-Fine :
      (args : List Bytes) (s : Shell W) → IsReady s → Fine (get_length host facilities args s)
  unfolding get_length
  get_length-Fine (name ∷ file ∷ []) s r = connected-Fine host _ s r λ connect ops has complete.
      operation-Fine Ops.get_file_length _ s has complete.has_get_file_length
        λ get. told-Fine host facilities _ _ _ _ (env-IsReady _ r) (fine (env-IsReady _ r))
  get_length-Fine [] s r = invalid-Fine s r
  get_length-Fine (name ∷ []) s r = invalid-Fine s r
  get_length-Fine (name ∷ a ∷ b ∷ more) s r = invalid-Fine s r

  show_file-Fine :
      (connect : HiveConnect W) (file : Bytes) (len : ℤ) (s : Shell W) {ops : Ops W}
      → IsReady s
      → s.ops ≡ some ops
      → IsComplete ops
      → Fine (show_file host facilities connect file len s)
  unfolding show_file
  show_file-Fine connect file len s r has complete = elim (Bool-cases (is_zero len)) [
    | inl empty ↦ rw empty (fine (env-IsReady _ r))
    | inr more ↦ elim (Bool-cases (host.alloc (to_size len + 1) s.env.world).0) [
      | inr full ↦ rw (more, full) (fine (env-IsReady _ r))
      | inl made ↦
          rw (more, made)
            (operation-Fine Ops.get_file_to_buffer _ _ has complete.has_get_file_to_buffer
              λ get. told-Fine host facilities _ _ _ _ (env-IsReady _ r) (fine (env-IsReady _ r)))
    ]
  ]

  pub get_file-Fine :
      (args : List Bytes) (s : Shell W) → IsReady s → Fine (get_file host facilities args s)
  unfolding get_file
  get_file-Fine (name ∷ file ∷ []) s r = connected-Fine host _ s r λ connect ops has complete.
      operation-Fine Ops.get_file_length _ s has complete.has_get_file_length λ get.
        told-Fine host facilities _ _ _ _ (env-IsReady _ r)
          (show_file-Fine connect file _ _ (env-IsReady _ r) has complete)
  get_file-Fine (name ∷ file ∷ to ∷ []) s r = connected-Fine host _ s r λ connect ops has complete.
      operation-Fine Ops.get_file _ s has complete.has_get_file
        λ get. reported-Fine _ _ _ (env-IsReady _ r)
  get_file-Fine [] s r = invalid-Fine s r
  get_file-Fine (name ∷ []) s r = invalid-Fine s r
  get_file-Fine (name ∷ a ∷ b ∷ c ∷ more) s r = invalid-Fine s r

  -- A command on an operation that may be NULL
  optional-Fine :
      {F : Type 0} (field : Ops W → Option F) (run : HiveConnect W → F → Run W) (s : Shell W)
      → IsReady s
      → ((connect : HiveConnect W) (f : F) → Fine (run connect f s))
      → Fine (connected host (λ connect. supporting host field (run connect)) s)
  optional-Fine field run s r h =
      connected-Fine host _ s r
        λ connect ops has complete. supporting-Fine host field (run connect) s r has (h connect)

  pub delete_file-Fine :
      (args : List Bytes) (s : Shell W) → IsReady s → Fine (delete_file host facilities args s)
  unfolding delete_file
  delete_file-Fine (name ∷ file ∷ []) s r =
      optional-Fine Ops.delete_file _ s r λ connect delete. reported-Fine _ _ _ (env-IsReady _ r)
  delete_file-Fine [] s r = invalid-Fine s r
  delete_file-Fine (name ∷ []) s r = invalid-Fine s r
  delete_file-Fine (name ∷ a ∷ b ∷ more) s r = invalid-Fine s r

  pub list_files-Fine :
      (args : List Bytes) (s : Shell W) → IsReady s → Fine (list_files host facilities args s)
  unfolding list_files
  list_files-Fine (name ∷ []) s r =
      optional-Fine Ops.list_files _ s r λ connect list. reported-Fine _ _ _ (env-IsReady _ r)
  list_files-Fine [] s r = invalid-Fine s r
  list_files-Fine (name ∷ a ∷ more) s r = invalid-Fine s r

  pub put_value-Fine :
      (args : List Bytes) (s : Shell W) → IsReady s → Fine (put_value host facilities args s)
  unfolding put_value
  put_value-Fine (name ∷ key ∷ value ∷ []) s r =
      optional-Fine Ops.put_value _ s r λ connect put. reported-Fine _ _ _ (env-IsReady _ r)
  put_value-Fine [] s r = invalid-Fine s r
  put_value-Fine (name ∷ []) s r = invalid-Fine s r
  put_value-Fine (name ∷ a ∷ []) s r = invalid-Fine s r
  put_value-Fine (name ∷ a ∷ b ∷ c ∷ more) s r = invalid-Fine s r

  pub set_value-Fine :
      (args : List Bytes) (s : Shell W) → IsReady s → Fine (set_value host facilities args s)
  unfolding set_value
  set_value-Fine (name ∷ key ∷ value ∷ []) s r =
      optional-Fine Ops.set_value _ s r λ connect set. reported-Fine _ _ _ (env-IsReady _ r)
  set_value-Fine [] s r = invalid-Fine s r
  set_value-Fine (name ∷ []) s r = invalid-Fine s r
  set_value-Fine (name ∷ a ∷ []) s r = invalid-Fine s r
  set_value-Fine (name ∷ a ∷ b ∷ c ∷ more) s r = invalid-Fine s r

  pub get_values-Fine :
      (args : List Bytes) (s : Shell W) → IsReady s → Fine (get_values host facilities args s)
  unfolding get_values
  get_values-Fine (name ∷ key ∷ []) s r =
      optional-Fine Ops.get_values _ s r λ connect get. reported-Fine _ _ _ (env-IsReady _ r)
  get_values-Fine [] s r = invalid-Fine s r
  get_values-Fine (name ∷ []) s r = invalid-Fine s r
  get_values-Fine (name ∷ a ∷ b ∷ more) s r = invalid-Fine s r

  pub delete_key-Fine :
      (args : List Bytes) (s : Shell W) → IsReady s → Fine (delete_key host facilities args s)
  unfolding delete_key
  delete_key-Fine (name ∷ key ∷ []) s r =
      optional-Fine Ops.delete_key _ s r λ connect delete. reported-Fine _ _ _ (env-IsReady _ r)
  delete_key-Fine [] s r = invalid-Fine s r
  delete_key-Fine (name ∷ []) s r = invalid-Fine s r
  delete_key-Fine (name ∷ a ∷ b ∷ more) s r = invalid-Fine s r
