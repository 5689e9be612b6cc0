-- ===== src/Client/Create.antt =====
-- What `hive_client_new` of src/hive_client.c promises: a client at a directory, or an error.
use elastos_net_hive_native.Base.{
  ◌<◌, ◌≡◌, ◌⊎◌, inl, inr, refl, Bool, true, false, ◌==◌, Bytes, [], ◌∷◌, Option, none, some, ℤ,
  is_neg, Bool-cases, arith,
}
use elastos_net_hive_native.Error.Code.{hive_mk_error}
use elastos_net_hive_native.Error.Fields.{hive_mk_error-signs}
use elastos_net_hive_native.Api.Connect.{Env}
use elastos_net_hive_native.Client.Directories.{
  Found, stat_failed, directory, other_file, Files, enoent, mkdirs, is_nil,
}
use elastos_net_hive_native.Client.Object.{
  HiveClient, hive_client_new, at_location, make_location, new_object,
}

module _ {W : Type 0} (files : Files W) (rc_zalloc : W → Bool × W) where
  -- No client and a negative code as the last error; or a client with the location, the last error as
  -- it was, and `Why`.
  abbrev pub Created : Type 0 → ℤ → Bytes → Option HiveClient × Env W → Type 0
  Created Why before location r =
      ((r.0 ≡ none) × (is_neg r.1.hive_error ≡ true))
      ⊎ ((r.0 ≡ some (record { data_location = location })) × (r.1.hive_error ≡ before) × Why)

  -- The location is a directory, or there was nothing and mkdirs has made it.
  abbrev pub IsThere : Bytes → W → Type 0
  IsThere location w =
      let (found, w') = files.stat location w in
      (found ≡ directory) ⊎ ((found ≡ stat_failed) × (is_neg (mkdirs files location w').0 ≡ false))

  new_object-Created :
      {Why : Type 0} (location : Bytes) (e : Env W)
      → Why
      → Created Why e.hive_error location (new_object files rc_zalloc location e)
  unfolding new_object hive_mk_error
  new_object-Created location e why = elim (Bool-cases (rc_zalloc e.world).0) [
    | inl made ↦ rw made (inr (refl, refl, why))
    | inr full ↦ rw full (inl (refl, refl))
  ]

  module _ (small : (w : W) → files.errno w < 0x1000000) where
    make_location-Created :
        {Why : Type 0} (location : Bytes) (e : Env W)
        → (is_neg (mkdirs files location e.world).0 ≡ false → Why)
        → Created Why e.hive_error location (make_location files rc_zalloc location e)
    unfolding make_location
    make_location-Created location e why =
        let (rc, w) = mkdirs files location e.world in
        elim (Bool-cases (is_neg rc)) [
          | inl failed ↦
              rw failed
                (inl (refl, (hive_mk_error-signs 0x02 (files.errno w) (omega arith) (small w)).0))
          | inr made ↦ rw made (new_object-Created location (record e { world = w }) (why made))
        ]

    at_location-Created :
        {Why : Type 0} (location : Bytes) (found : Found) (e : Env W)
        → (found ≡ directory → Why)
        → (found ≡ stat_failed → is_neg (mkdirs files location e.world).0 ≡ false → Why)
        → Created Why e.hive_error location (at_location files rc_zalloc location found e)
    unfolding at_location hive_mk_error
    at_location-Created location directory e there made = new_object-Created location e (there refl)
    at_location-Created location other_file e there made = inl (refl, refl)
    at_location-Created location stat_failed e there made =
        elim (Bool-cases (files.errno e.world == enoent)) [
          | inr other ↦ rw other (inl (refl, refl))
          | inl absent ↦ rw absent (make_location-Created location e (made refl))
        ]

    -- A client is given for a location that is not empty, and only if the location is a directory or
    -- mkdirs has made it; the last error is then as it was. Without a client, the last error is a
    -- negative code. The numbers that errno takes are assumed to have 24 bits.
    pub hive_client_new-Created :
        (location : Bytes) (e : Env W)
        → Created
            ((is_nil location ≡ false) × IsThere location e.world)
            e.hive_error
            location
            (hive_client_new files rc_zalloc (some location) e)
    unfolding hive_client_new hive_mk_error
    hive_client_new-Created [] e = inl (refl, refl)
    hive_client_new-Created (c ∷ s) e =
        let (found, w) = files.stat (c ∷ s) e.world in
        at_location-Created (c ∷ s) found (record e { world = w }) (λ there. (refl, inl there))
          (λ absent made. (refl, inr (absent, made)))
