-- ===== src/Api/Transfer/Get.antt =====
-- The steps of `hive_get_file` and `hive_ipfs_get_file` in src/hive_file.c: on every path they give
-- back the descriptor and the memory that they acquired.
use elastos_net_hive_native.Base.{
  ℕ, false, Bytes, none, some, ℤ, pos, negsuc, is_neg, is_zero, to_size, ◌≡◌, refl, sym, ap, ◌∙◌,
  inl, inr, Bool-cases, Option-cases, ℤ-cases,
}
use elastos_net_hive_native.Api.Connect.{Env}
use elastos_net_hive_native.Api.Os.{
  eq_ℤ, Os, Ledger, Held, descriptor, block, acquire, release, release-acquire,
  release-acquire_comm,
}
use elastos_net_hive_native.Api.Transfer.{Getting, get_block, get_created, get_sized}
use elastos_net_hive_native.Api.Transfer.Held.{Balanced}

module _ {W : Type 0} {os : Os W} (l : Ledger os) where
  pub record Keeps (g : Getting os) : Type 0 where
    pub keeps_fetch : (n : ℕ) → Balanced l (g.fetch n)
    pub keeps_failed : (x : ℤ) → Balanced l (g.fetch_failed x)
    pub keeps_short : Balanced l g.write_failed

  module _ (g : Getting os) (k : Keeps g) (h : Held) (fd : ℕ) where
    get_block-held_none :
        (fsize : ℤ) (e : Env W)
        → h (descriptor (pos fd)) ≡ false
        → l.held e.world ≡ acquire (descriptor (pos fd)) h
        → l.held (get_block os g (pos fd) fsize none e).1.world ≡ h
    unfolding get_block
    get_block-held_none fsize e free start =
        l.held-close (pos fd) e.world ∙ ap (release _) start ∙ release-acquire _ h free

    get_block-held_some :
        (fsize : ℤ) (a : ℕ) (e : Env W)
        → h (descriptor (pos fd)) ≡ false
        → acquire (descriptor (pos fd)) h (block a) ≡ false
        → l.held e.world ≡ acquire (block a) (acquire (descriptor (pos fd)) h)
        → l.held (get_block os g (pos fd) fsize (some a) e).1.world ≡ h
    unfolding get_block acquire
    get_block-held_some fsize a e free free_a start = elim (Bool-cases (is_neg got)) [
      | inl failed ↦ rw failed (
          k.keeps_failed _ _
          ∙ l.held-free a _
          ∙ ap (release (block a)) closed
          ∙ release-acquire _ h free_a)
      | inr done ↦ rw done (elim (Bool-cases (eq_ℤ nwr got)) [
        | inl full ↦ rw full written
        | inr short ↦ rw short (k.keeps_short _ ∙ written)
      ])
    ]
      where
        got : ℤ
        got = (g.fetch (to_size fsize) e).0.0

        fetched :
            l.held (g.fetch (to_size fsize) e).1.world
            ≡ acquire (block a) (acquire (descriptor (pos fd)) h)
        fetched = k.keeps_fetch _ e ∙ start

        w : W
        w = (g.fetch (to_size fsize) e).1.world

        nwr : ℤ
        nwr = (os.write (pos fd) (g.fetch (to_size fsize) e).0.1 (to_size got) w).0

        closed : l.held (os.close (pos fd) w) ≡ acquire (block a) h
        closed =
            l.held-close (pos fd) _
            ∙ ap (release _) fetched
            ∙ release-acquire_comm _ (block a) h refl free

        written :
            l.held (
              os.close
                (pos fd)
                (os.free a (os.write (pos fd) (g.fetch (to_size fsize) e).0.1 (to_size got) w).1))
            ≡ h
        written =
            l.held-close (pos fd) _
            ∙ ap (release _) (
                l.held-free a _
                ∙ ap (release (block a)) (l.held-write _ _ _ _ ∙ fetched)
                ∙ release-acquire _ _ free_a)
            ∙ release-acquire _ h free

    get_created-held :
        (fsize : ℤ) (e : Env W)
        → h (descriptor (pos fd)) ≡ false
        → l.held e.world ≡ acquire (descriptor (pos fd)) h
        → l.held (get_created os g fsize (pos fd) e).1.world ≡ h
    unfolding get_created
    get_created-held fsize e free start = elim (Bool-cases (is_zero fsize)) [
      | inl empty ↦
          rw empty (l.held-close (pos fd) _ ∙ ap (release _) start ∙ release-acquire _ h free)
      | inr full ↦ rw full (elim (Option-cases (os.calloc n e.world).0) [
        | inl e0 ↦ rw e0 (
            get_block-held_none fsize (record e { world = (os.calloc n e.world).1 }) free
              (l.calloc_failed n e.world e0 ∙ start))
        | inr (a, e1) ↦
            let (new, got) = l.calloc_ok n e.world a e1 in
            rw e1 (
              get_block-held_some fsize a (record e { world = (os.calloc n e.world).1 }) free
                (sym (ap (λ (g : Held). g (block a)) start) ∙ new)
                (got ∙ ap (acquire (block a)) start))
      ])
    ]
      where
        n : ℕ
        n = to_size fsize

  pub get_sized-Balanced :
      (g : Getting os) (to : Bytes) (fsize : ℤ) → Keeps g → Balanced l (get_sized os g to fsize)
  unfolding get_sized
  get_sized-Balanced g to (negsuc n) k e = refl
  get_sized-Balanced g to (pos n) k e = elim (ℤ-cases (os.create_new to e.world).0) [
    | inl (fd, created) ↦
        let (new, got) = l.create_new_ok to e.world fd created in
        rw created (
          get_created-held g k _ fd (pos n) (record e { world = (os.create_new to e.world).1 }) new
            got)
    | inr (m, failed) ↦ rw failed (l.create_new_failed to e.world m failed)
  ]
