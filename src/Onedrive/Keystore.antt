-- ===== src/Onedrive/Keystore.antt =====
-- The file in which src/vendors/onedrive/onedrive.c keeps a connection's token.
use elastos_net_hive_native.Base.{
  ℕ, ◌+◌, not, ◌||◌, ◌==◌, ltb, Bytes, length, [], ◌∷◌, ◌++◌, Option, none, some, ℤ, pos, is_neg,
  to_int, if◌then◌else◌,
}
use elastos_net_hive_native.Error.Code.{
  as_int, hive_general_error, hive_sys_error, hiveerr_out_of_memory,
}
use elastos_net_hive_native.Api.Os.{eq_ℤ}
use elastos_net_hive_native.Onedrive.Entry.{fill}

-- The calls of the system and of cJSON.
pub record Disk (W J : Type 0) : Type 0 where
  -- stat(path, &st): st.st_size, or its failure
  pub stat : Bytes → W → Option ℕ × W
  -- open(path, O_RDONLY)
  pub open_read : Bytes → W → ℤ × W
  -- open(path, O_WRONLY | O_TRUNC | O_CREAT, S_IRUSR | S_IWUSR)
  pub open_write : Bytes → W → ℤ × W
  -- read(fd, buf, size): the result and the bytes stored in `buf`
  pub read : ℤ → ℕ → W → (ℤ × Bytes) × W
  -- write(fd, buf, size), of all the bytes of a buffer
  pub write : ℤ → Bytes → W → ℤ × W
  pub close : ℤ → W → W
  pub errno : W → ℕ
  pub set_errno : ℕ → W → W
  -- cJSON_Parse of a string; cJSON_PrintUnformatted, whose texts are shorter than 2^31
  pub parse : Bytes → W → Option J × W
  pub print : J → W → Option Bytes × W
  -- cJSON_Parse of an array without a NUL: the world chooses the result.
  pub overread : W → Option J × W

-- sizeof(buf), ERANGE, ENOMEM
abbrev pub buf_size : ℕ
buf_size = 4096

abbrev pub erange : ℕ
erange = 34

abbrev pub enomem : ℕ
enomem = 12

-- The string that an array holds, up to its first NUL
unfoldable pub string_at : Bytes → Option Bytes
string_at [] = none
string_at (c ∷ s) =
    let rest = string_at s in
    if c == 0 then some [] else elim rest [ none ↦ none | some text ↦ some (c ∷ text) ]

module _ {W J : Type 0} (disk : Disk W J) where
  abbrev pub or_enomem : Option J × W → Option J × W
  or_enomem (none, w) = (none, disk.set_errno enomem w)
  or_enomem (some json, w) = (some json, w)

  abbrev pub parse_string : Option Bytes → W → Option J × W
  parse_string none w = disk.overread w
  parse_string (some text) w = disk.parse text w

  unfoldable pub parse_file : ℕ → ℤ → Bytes → W → Option J × W
  unfolding string_at
  parse_file size rc bytes w =
      if is_neg (to_int rc) || not (eq_ℤ (to_int rc) (pos size))
      then (none, w)
      else or_enomem (parse_string (string_at (fill buf_size bytes)) w)

  unfoldable pub read_file : ℕ → ℤ × W → Option J × W
  unfolding parse_file
  read_file size (fd, w) =
      if is_neg fd
      then (none, w)
      else let ((rc, bytes), w') = disk.read fd size w in
        parse_file size rc bytes (disk.close fd w')

  abbrev pub load_sized : Bytes → Option ℕ × W → Option J × W
  unfolding read_file
  load_sized path (none, w) = (none, w)
  load_sized path (some size, w) =
      if (size == 0) || ltb buf_size size
      then (none, disk.set_errno erange w)
      else read_file size (disk.open_read path w)

  -- `none` is NULL, with `errno` set.
  unfoldable pub load_keystore_in_json : Bytes → W → Option J × W
  unfolding read_file
  load_keystore_in_json path w = load_sized path (disk.stat path w)

  unfoldable pub write_file : Bytes → ℤ × W → ℤ × W
  write_file text (fd, w) =
      if is_neg fd
      then (as_int (hive_sys_error (disk.errno w)), w)
      else let (bytes, w1) = disk.write fd (text ++ 0 ∷ []) w in
        let w2 = disk.close fd w1 in
        if not (eq_ℤ (to_int bytes) (pos (length text + 1)))
        then (as_int (hive_sys_error (disk.errno w2)), w2)
        else (pos 0, w2)

  unfoldable pub write_text : Bytes → Option Bytes × W → ℤ × W
  unfolding write_file
  write_text path (none, w) = (as_int (hive_general_error hiveerr_out_of_memory), w)
  write_text path (some [], w) = (as_int (hive_general_error hiveerr_out_of_memory), w)
  write_text path (some (c ∷ s), w) = write_file (c ∷ s) (disk.open_write path w)

  unfoldable pub oauth_writeback : Bytes → J → W → ℤ × W
  unfolding write_text
  oauth_writeback path json w = write_text path (disk.print json w)
