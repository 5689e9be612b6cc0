-- ===== src/Api/Transfer/Balance.antt =====
-- The file transfers of src/hive_file.c as wholes: descriptors and memory are given back on every
-- path, errors included.
use mathlib.Core.Path.{subst}
use mathlib.Core.Option.{some-injective}
use elastos_net_hive_native.Base.{
  ℕ, Bool, true, Bytes, ◌∷◌, [], Option, none, some, ℤ, ◌≡◌, ◌≢◌, refl, ◌∙◌,
}
use elastos_net_hive_native.Api.Connect.{Action, HiveConnect, report, report_size}
use elastos_net_hive_native.Api.Os.{Os, Ledger}
use elastos_net_hive_native.Api.File.{
  bytes_of, hive_put_file_from_buffer, hive_ipfs_put_file_from_buffer, hive_get_file_length,
  hive_get_file_to_buffer, hive_ipfs_get_file_length, report_cid, report_stored,
}
use elastos_net_hive_native.Api.Transfer.{
  getting_file, getting_ipfs, hive_put_file, hive_ipfs_put_file, hive_get_file, hive_ipfs_get_file,
  fetch_ipfs,
}
use elastos_net_hive_native.Api.Transfer.Held.{
  Balanced, report-Balanced, report_size-Balanced, if-Balanced, supported-Balanced,
  supported_out-Balanced, report_stored-Balanced, report_cid-Balanced,
}
use elastos_net_hive_native.Api.Transfer.Put.{put_from-Balanced}
use elastos_net_hive_native.Api.Transfer.Get.{Keeps, get_sized-Balanced}

module _ {W : Type 0} {os : Os W} (l : Ledger os) where
  -- The file functions of a connection, where it has them, give back what they acquire.
  pub record BalancedConnect (c : HiveConnect W) : Type 0 where
    pub keeps_put :
        (put : Option Bytes → ℕ → Bool → Bytes → Action W ℤ)
        → c.put_file_from_buffer ≡ some put
        → (b : Option Bytes) (n : ℕ) (x : Bool) (s : Bytes) → Balanced l (put b n x s)
    pub keeps_length :
        (get : Bytes → Action W ℤ) → c.get_file_length ≡ some get → (s : Bytes) → Balanced l (get s)
    pub keeps_get :
        (get : Bytes → Bool → ℕ → Action W (ℤ × Bytes))
        → c.get_file_to_buffer ≡ some get
        → (s : Bytes) (x : Bool) (n : ℕ) → Balanced l (get s x n)
    pub keeps_ipfs_put :
        (put : Option Bytes → ℕ → Bool → Action W (ℤ × Option Bytes))
        → c.ipfs_put_file_from_buffer ≡ some put
        → (b : Option Bytes) (n : ℕ) (x : Bool) → Balanced l (put b n x)
    pub keeps_ipfs_length :
        (get : Bytes → Action W ℤ)
        → c.ipfs_get_file_length ≡ some get
        → (s : Bytes) → Balanced l (get s)
    pub keeps_ipfs_get :
        (get : Bytes → Bool → ℕ → Action W (ℤ × Bytes))
        → c.ipfs_get_file_to_buffer ≡ some get
        → (s : Bytes) (x : Bool) (n : ℕ) → Balanced l (get s x n)

  module _ (c : HiveConnect W) (k : BalancedConnect c) where
    hive_put_file_from_buffer-Balanced :
        (b : Option Bytes) (n : ℕ) (x : Bool) (name : Option Bytes)
        → Balanced l (hive_put_file_from_buffer (some c) b n x name)
    unfolding hive_put_file_from_buffer
    hive_put_file_from_buffer-Balanced b n x name =
        if-Balanced l _ _ _ (λ e. refl)
          (supported-Balanced l c.put_file_from_buffer (λ put. report (put b n x (bytes_of name)))
            (λ put e.
              report-Balanced l (put b n x (bytes_of name))
                (k.keeps_put put e b n x (bytes_of name))))

    hive_ipfs_put_file_from_buffer-Balanced :
        (b : Option Bytes) (n : ℕ) (x has_cid : Bool)
        → Balanced l (hive_ipfs_put_file_from_buffer (some c) b n x has_cid)
    unfolding hive_ipfs_put_file_from_buffer
    hive_ipfs_put_file_from_buffer-Balanced b n x has_cid =
        if-Balanced l _ _ _ (λ e. refl)
          (supported_out-Balanced l none c.ipfs_put_file_from_buffer (λ put. report_cid (put b n x))
            (λ put e. report_cid-Balanced l (put b n x) (k.keeps_ipfs_put put e b n x)))

    hive_get_file_length-Balanced :
        (name : Option Bytes) → Balanced l (hive_get_file_length (some c) name)
    unfolding hive_get_file_length
    hive_get_file_length-Balanced none = λ e. refl
    hive_get_file_length-Balanced (some []) = λ e. refl
    hive_get_file_length-Balanced (some (a ∷ s)) =
        supported-Balanced l c.get_file_length (λ get. report_size (get (a ∷ s)))
          (λ get e. report_size-Balanced l (get (a ∷ s)) (k.keeps_length get e (a ∷ s)))

    hive_ipfs_get_file_length-Balanced :
        (cid : Option Bytes) → Balanced l (hive_ipfs_get_file_length (some c) cid)
    unfolding hive_ipfs_get_file_length
    hive_ipfs_get_file_length-Balanced none = λ e. refl
    hive_ipfs_get_file_length-Balanced (some []) = λ e. refl
    hive_ipfs_get_file_length-Balanced (some (a ∷ s)) =
        supported-Balanced l c.ipfs_get_file_length (λ get. report_size (get (a ∷ s)))
          (λ get e. report_size-Balanced l (get (a ∷ s)) (k.keeps_ipfs_length get e (a ∷ s)))

    hive_get_file_to_buffer-Balanced :
        (name : Option Bytes) (x has_to : Bool) (n : ℕ)
        → Balanced l (hive_get_file_to_buffer (some c) name x has_to n)
    unfolding hive_get_file_to_buffer
    hive_get_file_to_buffer-Balanced name x has_to n =
        if-Balanced l _ _ _ (λ e. refl)
          (supported_out-Balanced l [] c.get_file_to_buffer
            (λ get. report_stored (get (bytes_of name) x n))
            (λ get e.
              report_stored-Balanced l (get (bytes_of name) x n)
                (k.keeps_get get e (bytes_of name) x n)))

    getting_file-Keeps : (name : Bytes) (x : Bool) → Keeps l (getting_file os (some c) name x)
    unfolding getting_file
    getting_file-Keeps name x = record {
      keeps_fetch = hive_get_file_to_buffer-Balanced (some name) x true;
      keeps_failed = λ _ e. refl;
      keeps_short = λ e. l.held-unlink name e.world;
    }

    fetch_ipfs-Balanced :
        (o : Option (Bytes → Bool → ℕ → Action W (ℤ × Bytes))) (s : Bytes) (x : Bool) (n : ℕ)
        → o ≢ none
        → ((get : Bytes → Bool → ℕ → Action W (ℤ × Bytes)) → o ≡ some get → Balanced l (get s x n))
        → Balanced l (fetch_ipfs os o s x n)
    fetch_ipfs-Balanced none s x n there keeps = absurd (there refl)
    fetch_ipfs-Balanced (some get) s x n there keeps = keeps get refl

    getting_ipfs-Keeps :
        (cid : Bytes) (x : Bool) (to : Bytes)
        → c.ipfs_get_file_to_buffer ≢ none
        → Keeps l (getting_ipfs os c cid x to)
    unfolding getting_ipfs
    getting_ipfs-Keeps cid x to there = record {
      keeps_fetch =
          λ n. fetch_ipfs-Balanced _ cid x n there (λ get e. k.keeps_ipfs_get get e cid x n);
      keeps_failed = λ _ e. refl;
      keeps_short = λ e. l.held-unlink to e.world;
    }

  put_file-BalancedConnect :
      (c : HiveConnect W) (from : Option Bytes) (encrypt has_cid : Bool) (filename : Option Bytes)
      → BalancedConnect c
      → Balanced l (hive_put_file os (some c) from encrypt filename)
        × Balanced l (hive_ipfs_put_file os (some c) from encrypt has_cid)
  unfolding hive_put_file hive_ipfs_put_file
  put_file-BalancedConnect c from encrypt has_cid filename k = (
    if-Balanced l _ _ _ (λ e. refl)
        (put_from-Balanced l (λ rc. rc) (bytes_of from)
          (λ b n. hive_put_file_from_buffer (some c) b n encrypt filename)
          (λ b n. hive_put_file_from_buffer-Balanced c k b n encrypt filename)),
    if-Balanced l _ _ _ (λ e. refl)
        (put_from-Balanced l (λ rc. (rc, none)) (bytes_of from)
          (λ b n. hive_ipfs_put_file_from_buffer (some c) b n encrypt has_cid)
          (λ b n. hive_ipfs_put_file_from_buffer-Balanced c k b n encrypt has_cid)),
  )

  hive_get_file-BalancedConnect :
      (c : HiveConnect W) (name : Option Bytes) (decrypt : Bool) (to : Option Bytes)
      → BalancedConnect c
      → Balanced l (hive_get_file os (some c) name decrypt to)
  unfolding hive_get_file
  hive_get_file-BalancedConnect c name decrypt to k =
      if-Balanced l _ _ _ (λ e. refl)
        (λ e.
          get_sized-Balanced l _ _ _ (getting_file-Keeps c k _ _) _
          ∙ hive_get_file_length-Balanced c k name e)

  hive_ipfs_get_file-BalancedConnect :
      (c : HiveConnect W) (cid : Option Bytes) (decrypt : Bool) (to : Option Bytes)
      → BalancedConnect c
      → c.ipfs_get_file_to_buffer ≢ none
      → Balanced l (hive_ipfs_get_file os (some c) cid decrypt to)
  unfolding hive_ipfs_get_file
  hive_ipfs_get_file-BalancedConnect c cid decrypt to k there =
      if-Balanced l _ _ _ (λ e. refl)
        (λ e.
          get_sized-Balanced l _ _ _ (getting_ipfs-Keeps c k _ _ _ there) _
          ∙ hive_ipfs_get_file_length-Balanced c k cid e)

-- A call of a backend, whose state is the second part of the world
abbrev pub apart : {L S A : Type 0} → Action S A → Action (L × S) A
apart m e =
    let r = m (record { hive_error = e.hive_error; world = e.world.1 }) in
    (r.0, record { hive_error = r.1.hive_error; world = (e.world.0, r.1.world) })

abbrev operation : {F G : Type 0} → (F → G) → Option F → Option G
operation f none = none
operation f (some a) = some (f a)

-- The connection whose functions work on the second part of the world. The transfers call these six.
abbrev pub beside : {L S : Type 0} → HiveConnect S → HiveConnect (L × S)
beside c = record {
  put_file_from_buffer =
      operation (λ put from len encrypt name. apart (put from len encrypt name))
        c.put_file_from_buffer;
  get_file_length = operation (λ get name. apart (get name)) c.get_file_length;
  get_file_to_buffer =
      operation (λ get name decrypt len. apart (get name decrypt len)) c.get_file_to_buffer;
  list_files = none;
  delete_file = none;
  ipfs_put_file_from_buffer =
      operation (λ put from len encrypt. apart (put from len encrypt)) c.ipfs_put_file_from_buffer;
  ipfs_get_file_length = operation (λ get cid. apart (get cid)) c.ipfs_get_file_length;
  ipfs_get_file_to_buffer =
      operation (λ get cid decrypt len. apart (get cid decrypt len)) c.ipfs_get_file_to_buffer;
  put_value = none;
  set_value = none;
  get_values = none;
  delete_key = none;
  disconnect = none;
  expire_token = none;
}

operation-all :
    {F G : Type 0} (P : G → Type 0) (f : F → G) (o : Option F) (g : G)
    → operation f o ≡ some g
    → ((a : F) → P (f a))
    → P g
operation-all P f none g e h = absurd (cc e)
operation-all P f (some a) g e h = subst P (some-injective (f a) g e) (h a)

operation-there : {F G : Type 0} (f : F → G) (o : Option F) → o ≢ none → operation f o ≢ none
operation-there f none there e = there refl
operation-there f (some a) there e = cc e

module _ {L S : Type 0} {os : Os (L × S)} (l : Ledger os)
    (tracked : (h : L) (s s' : S) → l.held (h, s) ≡ l.held (h, s')) where
  apart-Balanced : {A : Type 0} (m : Action S A) → Balanced l (apart m)
  apart-Balanced m e =
      tracked e.world.0 (m (record { hive_error = e.hive_error; world = e.world.1 })).1.world
        e.world.1

  beside-BalancedConnect : (c : HiveConnect S) → BalancedConnect l (beside c)
  beside-BalancedConnect c = record {
    keeps_put = λ put e.
        operation-all
          (λ g. (b : Option Bytes) (n : ℕ) (x : Bool) (s : Bytes) → Balanced l (g b n x s)) _
          c.put_file_from_buffer put e (λ f b n x s. apart-Balanced (f b n x s));
    keeps_length = λ get e.
        operation-all (λ g. (s : Bytes) → Balanced l (g s)) _ c.get_file_length get e
          (λ f s. apart-Balanced (f s));
    keeps_get = λ get e.
        operation-all (λ g. (s : Bytes) (x : Bool) (n : ℕ) → Balanced l (g s x n)) _
          c.get_file_to_buffer get e (λ f s x n. apart-Balanced (f s x n));
    keeps_ipfs_put = λ put e.
        operation-all (λ g. (b : Option Bytes) (n : ℕ) (x : Bool) → Balanced l (g b n x)) _
          c.ipfs_put_file_from_buffer put e (λ f b n x. apart-Balanced (f b n x));
    keeps_ipfs_length = λ get e.
        operation-all (λ g. (s : Bytes) → Balanced l (g s)) _ c.ipfs_get_file_length get e
          (λ f s. apart-Balanced (f s));
    keeps_ipfs_get = λ get e.
        operation-all (λ g. (s : Bytes) (x : Bool) (n : ℕ) → Balanced l (g s x n)) _
          c.ipfs_get_file_to_buffer get e (λ f s x n. apart-Balanced (f s x n));
  }

  -- Over any connection, whose state is apart from what the calls of src/hive_file.c hold: the two puts
  -- hold the same descriptors and the same memory of theirs after the call as before it, whatever their
  -- arguments, and however the system calls and the connection's functions answer.
  pub put_file-Balanced :
      (c : HiveConnect S) (from : Option Bytes) (encrypt has_cid : Bool) (filename : Option Bytes)
      → Balanced l (hive_put_file os (some (beside c)) from encrypt filename)
        × Balanced l (hive_ipfs_put_file os (some (beside c)) from encrypt has_cid)
  put_file-Balanced c from encrypt has_cid filename =
      put_file-BalancedConnect l (beside c) from encrypt has_cid filename (beside-BalancedConnect c)

  -- Over any connections, whose state is apart from what the calls of src/hive_file.c hold, and of which
  -- the one that `hive_ipfs_get_file` is called with has the function `ipfs_get_file_to_buffer`, which
  -- is called unchecked: the two gets hold the same descriptors and the same memory of theirs after the
  -- call as before it, whatever their arguments, and however the system calls and the connections'
  -- functions answer.
  pub get_file-Balanced :
      (c ipfs : HiveConnect S) (name : Option Bytes) (decrypt : Bool) (to : Option Bytes)
      → ipfs.ipfs_get_file_to_buffer ≢ none
      → Balanced l (hive_get_file os (some (beside c)) name decrypt to)
        × Balanced l (hive_ipfs_get_file os (some (beside ipfs)) name decrypt to)
  get_file-Balanced c ipfs name decrypt to there = (
    hive_get_file-BalancedConnect l (beside c) name decrypt to (beside-BalancedConnect c),
    hive_ipfs_get_file-BalancedConnect l (beside ipfs) name decrypt to (beside-BalancedConnect ipfs)
        (operation-there _ ipfs.ipfs_get_file_to_buffer there),
  )
