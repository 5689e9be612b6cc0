-- ===== src/Api/Transfer/Put.antt =====
-- The steps of `hive_put_file` and `hive_ipfs_put_file` in src/hive_file.c: on every path they give
-- back the descriptor and the memory that they acquired.
use elastos_net_hive_native.Base.{
  ℕ, not, false, Bytes, Option, none, some, ◌==◌, ltb, ℤ, pos, to_size, ◌≡◌, refl, sym, ap, ◌∙◌,
  inl, inr, Bool-cases, Option-cases, ℤ-cases,
}
use elastos_net_hive_native.Api.Connect.{Env, Action}
use elastos_net_hive_native.Api.Os.{
  Os, Ledger, Held, descriptor, block, acquire, release, release-acquire, release-acquire_comm,
}
use elastos_net_hive_native.Api.Transfer.{put_block, put_opened, put_from}
use elastos_net_hive_native.Api.File.{hive_max_file_size}
use elastos_net_hive_native.Api.Transfer.Held.{Balanced}

module _ {W : Type 0} {os : Os W} (l : Ledger os) where
  module _ {R : Type 0} (refused : ℤ → R) (consume : Option Bytes → ℕ → Action W R) (h : Held)
      (fd : ℕ) where
    put_block-held_none :
        (fsize : ℕ) (e : Env W)
        → h (descriptor (pos fd)) ≡ false
        → l.held e.world ≡ acquire (descriptor (pos fd)) h
        → l.held (put_block os refused consume (pos fd) fsize none e).1.world ≡ h
    unfolding put_block
    put_block-held_none fsize e free start =
        l.held-close (pos fd) e.world ∙ ap (release _) start ∙ release-acquire _ h free

    put_block-held_some :
        (fsize a : ℕ) (e : Env W)
        → ((b : Option Bytes) (n : ℕ) → Balanced l (consume b n))
        → h (descriptor (pos fd)) ≡ false
        → h (block a) ≡ false
        → l.held e.world ≡ acquire (block a) (acquire (descriptor (pos fd)) h)
        → l.held (put_block os refused consume (pos fd) fsize (some a) e).1.world ≡ h
    unfolding put_block
    put_block-held_some fsize a e keeps free free_a start =
        elim (Bool-cases (not (to_size (os.read (pos fd) fsize e.world).0.0 == fsize))) [
          | inl short ↦
              rw short
                (l.held-free a _ ∙ ap (release (block a)) closed ∙ release-acquire _ h free_a)
          | inr full ↦ rw full (
              l.held-free a _
              ∙ ap (release (block a)) (keeps _ _ _ ∙ closed)
              ∙ release-acquire _ h free_a)
        ]
      where
        closed : l.held (os.close (pos fd) (os.read (pos fd) fsize e.world).1) ≡ acquire (block a) h
        closed =
            l.held-close (pos fd) _
            ∙ ap (release _) (l.held-read _ _ _ ∙ start)
            ∙ release-acquire_comm _ (block a) h refl free

    put_opened-held :
        (e : Env W)
        → ((b : Option Bytes) (n : ℕ) → Balanced l (consume b n))
        → h (descriptor (pos fd)) ≡ false
        → l.held e.world ≡ acquire (descriptor (pos fd)) h
        → l.held (put_opened os refused consume (pos fd) e).1.world ≡ h
    unfolding put_opened acquire
    put_opened-held e keeps free start = elim (Bool-cases (ltb hive_max_file_size fsize)) [
      | inl large ↦
          rw large (l.held-close (pos fd) _ ∙ ap (release _) sought ∙ release-acquire _ h free)
      | inr fits ↦ rw fits (elim (Option-cases (os.calloc fsize w).0) [
        | inl e0 ↦ rw e0 (
            put_block-held_none fsize (record e { world = (os.calloc fsize w).1 }) free
              (l.calloc_failed fsize w e0 ∙ sought))
        | inr (a, e1) ↦
            let (new, got) = l.calloc_ok fsize w a e1 in
            rw e1 (
              put_block-held_some fsize a (record e { world = (os.calloc fsize w).1 }) keeps free
                (below a (sym (ap (λ (g : Held). g (block a)) sought) ∙ new))
                (got ∙ ap (acquire (block a)) sought))
      ])
    ]
      where
        w : W
        w = os.seek_start (pos fd) (os.seek_end (pos fd) e.world).1

        fsize : ℕ
        fsize = to_size (os.seek_end (pos fd) e.world).0

        sought : l.held w ≡ acquire (descriptor (pos fd)) h
        sought = l.held-seek_start _ _ ∙ l.held-seek_end _ _ ∙ start

        below : (a : ℕ) → acquire (descriptor (pos fd)) h (block a) ≡ false → h (block a) ≡ false
        below a p = p

  pub put_from-Balanced :
      {R : Type 0} (refused : ℤ → R) (from : Bytes) (consume : Option Bytes → ℕ → Action W R)
      → ((b : Option Bytes) (n : ℕ) → Balanced l (consume b n))
      → Balanced l (put_from os refused from consume)
  unfolding put_from
  put_from-Balanced refused from consume keeps e = elim (ℤ-cases (os.open_read from e.world).0) [
    | inl (fd, opened) ↦
        let (new, got) = l.open_read_ok from e.world fd opened in
        rw opened (
          put_opened-held refused consume _ fd (record e { world = (os.open_read from e.world).1 })
            keeps new got)
    | inr (n, failed) ↦ rw failed (l.open_read_failed from e.world n failed)
  ]
