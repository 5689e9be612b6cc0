-- ===== src/Onedrive/Reload.antt =====
-- What load_keystore_in_json of src/vendors/onedrive/onedrive.c reads of a file that oauth_writeback
-- wrote.
use mathlib.Core.Path.{subst}
use mathlib.Core.Option.{some-injective}
use elastos_net_hive_native.Error.Fields.{hive_mk_error-signs}
use elastos_net_hive_native.Base.{
  ◌≢◌, ◌⊎◌, ℕ, zero, suc, ◌+◌, ◌<◌, ◌≤◌, ◌≡◌, refl, sym, ap, ◌∙◌, Bool, true, false, not, ◌&&◌,
  ◌||◌, ◌==◌, ltb, Bytes, length, length-append, [], ◌∷◌, ◌++◌, Option, none, some, ℤ, pos, is_neg,
  to_int, Bool-cases, inl, inr, arith,
}
use elastos_net_hive_native.Error.Code.{
  as_int, hive_general_error, hive_sys_error, hiveerr_out_of_memory, hive_mk_error,
}
use elastos_net_hive_native.Api.Os.{eq_ℤ}
use elastos_net_hive_native.Onedrive.Entry.{fill}
use elastos_net_hive_native.Onedrive.Keystore.{
  Disk, string_at, or_enomem, parse_file, read_file, load_keystore_in_json, write_file, write_text,
  oauth_writeback, erange,
}

abbrev pub no_nul : Bytes → Bool
no_nul [] = true
no_nul (c ∷ s) = not (c == 0) && no_nul s

string_at-fill :
    (n : ℕ) (text : Bytes)
    → no_nul text ≡ true
    → length text < n
    → string_at (fill n (text ++ 0 ∷ [])) ≡ some text
unfolding string_at fill
string_at-fill zero text plain h = absurd (omega (arith, h))
string_at-fill (suc n) [] plain h = refl
string_at-fill (suc n) (c ∷ s) plain h =
    let char : (c == 0) ≡ false = ground (arith, plain) in
    let rest : no_nul s ≡ true = ground (arith, plain) in
    rw (char, string_at-fill n s rest (omega (arith, h))) refl

-- What a file holds after it was written, and what a regular file that can be read tells of itself.
-- The numbers that `errno` takes have 24 bits.
pub record FileLaws {W J : Type 0} (disk : Disk W J) (content : Bytes → W → Option Bytes)
    : Type 0 where
  pub small : (w : W) → disk.errno w < 0x1000000
  pub stored :
      (path bytes : Bytes) (w : W)
      → is_neg (disk.open_write path w).0 ≡ false
      → to_int (disk.write (disk.open_write path w).0 bytes (disk.open_write path w).1).0
        ≡ pos (length bytes)
      → content path (
          disk.close
            (disk.open_write path w).0
            (disk.write (disk.open_write path w).0 bytes (disk.open_write path w).1).1)
        ≡ some bytes
  pub size :
      (path bytes : Bytes) (w : W)
      → content path w ≡ some bytes
      → disk.stat path w ≡ (some (length bytes), w)
  pub opens :
      (path bytes : Bytes) (w : W)
      → content path w ≡ some bytes
      → is_neg (disk.open_read path w).0 ≡ false
  pub reads :
      (path bytes : Bytes) (w : W)
      → content path w ≡ some bytes
      → (disk.read (disk.open_read path w).0 (length bytes) (disk.open_read path w).1).0
        ≡ (pos (length bytes), bytes)

eq_ℤ-eq : (a b : ℤ) → eq_ℤ a b ≡ true → a ≡ b
eq_ℤ-eq a b h = ground arith

module _ {W J : Type 0} (disk : Disk W J) where
  small_int : (n : ℕ) → n ≤ 4096 → to_int (pos n) ≡ pos n
  small_int n h = ground (arith, h)

  parse_file-text :
      (text : Bytes) (w : W)
      → no_nul text ≡ true
      → length text < 4096
      → parse_file disk (length (text ++ 0 ∷ [])) (pos (length (text ++ 0 ∷ []))) (text ++ 0 ∷ []) w
        ≡ or_enomem disk (disk.parse text w)
  unfolding parse_file
  parse_file-text text w plain h =
      let bytes = text ++ 0 ∷ [] in
      let fits : length bytes ≤ 4096 = omega (arith, h, length-append text (0 ∷ [])) in
      let same : (length bytes == length bytes) ≡ true = ground arith in
      rw (small_int (length bytes) fits, same, string_at-fill 4096 text plain h) refl

module _ {W J : Type 0} (disk : Disk W J) (content : Bytes → W → Option Bytes)
    (laws : FileLaws disk content) where
  -- A file that holds a text and its NUL
  pub load-Content :
      (path text : Bytes) (w : W)
      → no_nul text ≡ true
      → length text < 4096
      → content path w ≡ some (text ++ 0 ∷ [])
      → (w' : W) × (load_keystore_in_json disk path w ≡ or_enomem disk (disk.parse text w'))
  unfolding load_keystore_in_json read_file
  load-Content path text w plain h holds =
      let bytes = text ++ 0 ∷ [] in
      let len = length-append text (0 ∷ []) in
      let (fd, w1) = disk.open_read path w in
      let w' : W = disk.close fd (disk.read fd (length bytes) w1).1 in
      let in_range : ((length bytes == 0) || ltb 4096 (length bytes)) ≡ false =
        ground (arith, h, len) in
      (
        w',
        rw
            (
              laws.size path bytes w holds,
              in_range,
              laws.opens path bytes w holds,
              laws.reads path bytes w holds,
            )
            (parse_file-text disk text w' plain h),
      )

  load-Large :
      (path text : Bytes) (w : W)
      → 4096 ≤ length text
      → content path w ≡ some (text ++ 0 ∷ [])
      → load_keystore_in_json disk path w ≡ (none, disk.set_errno erange w)
  unfolding load_keystore_in_json
  load-Large path text w h holds =
      let bytes = text ++ 0 ∷ [] in
      let len = length-append text (0 ∷ []) in
      let too_large : ((length bytes == 0) || ltb 4096 (length bytes)) ≡ true =
        ground (arith, h, len) in
      rw (laws.size path bytes w holds, too_large) refl

  sys_error-fails : (w : W) → as_int (hive_sys_error (disk.errno w)) ≢ pos 0
  sys_error-fails w h =
      let negative = (hive_mk_error-signs 0x02 (disk.errno w) (omega arith) (laws.small w)).0 in
      absurd (cc (rw h at negative))

  write_file-Content :
      (path text : Bytes) (w : W)
      → (write_file disk text (disk.open_write path w)).0 ≡ pos 0
      → content path (write_file disk text (disk.open_write path w)).1 ≡ some (text ++ 0 ∷ [])
  unfolding write_file
  write_file-Content path text w ok =
      let bytes = text ++ 0 ∷ [] in
      let (fd, w1) = disk.open_write path w in
      let (n, w2) = disk.write fd bytes w1 in
      let len : length bytes ≡ length text + 1 = omega (arith, length-append text (0 ∷ [])) in
      elim (Bool-cases (is_neg fd)) [
        | inl failed ↦ absurd (sys_error-fails w1 (rw failed at ok))
        | inr opened ↦ elim (Bool-cases (eq_ℤ (to_int n) (pos (length text + 1)))) [
          | inr short ↦ absurd (sys_error-fails (disk.close fd w2) (rw (opened, short) at ok))
          | inl whole ↦
              let all : to_int n ≡ pos (length bytes) =
                eq_ℤ-eq (to_int n) _ whole ∙ ap pos (sym len) in
              rw (opened, whole) (laws.stored path bytes w opened all)
        ]
      ]

  no_memory : as_int (hive_general_error hiveerr_out_of_memory) ≢ pos 0
  unfolding hive_mk_error
  no_memory h = let clash : true ≡ false = ap is_neg h in absurd (cc clash)

  write_text-Content :
      (path text : Bytes) (o : Option Bytes) (w : W)
      → o ≡ some text
      → (write_text disk path (o, w)).0 ≡ pos 0
      → content path (write_text disk path (o, w)).1 ≡ some (text ++ 0 ∷ [])
  unfolding write_text
  write_text-Content path text none w is ok = absurd (cc is)
  write_text-Content path text (some []) w is ok = absurd (no_memory ok)
  write_text-Content path text (some (c ∷ s)) w is ok =
      subst
        (λ (t : Bytes).
          content path (write_file disk (c ∷ s) (disk.open_write path w)).1 ≡ some (t ++ 0 ∷ []))
        (some-injective (c ∷ s) text is) (write_file-Content path (c ∷ s) w ok)

  -- After oauth_writeback has written the text of an object and returned 0, load_keystore_in_json
  -- parses that text, if the text has less than 4096 bytes and no NUL. A longer text is written all the
  -- same, and then the load fails with ERANGE. The laws say what a file holds after a write, and that
  -- it can be read.
  pub load-writeback :
      (path text : Bytes) (json : J) (w : W)
      → no_nul text ≡ true
      → (disk.print json w).0 ≡ some text
      → (oauth_writeback disk path json w).0 ≡ pos 0
      → let w1 = (oauth_writeback disk path json w).1 in
        ((length text < 4096)
          × ((w' : W) × (load_keystore_in_json disk path w1 ≡ or_enomem disk (disk.parse text w'))))
        ⊎ ((4096 ≤ length text)
            × (load_keystore_in_json disk path w1 ≡ (none, disk.set_errno erange w1)))
  unfolding oauth_writeback write_text
  load-writeback path text json w plain printed ok =
      let holds =
        write_text-Content path text (disk.print json w).0 (disk.print json w).1 printed ok in
      let w1 = (oauth_writeback disk path json w).1 in
      elim (Bool-cases (ltb (length text) 4096)) [
        | inl below ↦
            let small : length text < 4096 = ground (arith, below) in
            inl (small, load-Content path text w1 plain small holds)
        | inr above ↦
            let large : 4096 ≤ length text = ground (arith, above) in
            inr (large, load-Large path text w1 large holds)
      ]
