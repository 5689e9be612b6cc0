-- ===== src/Client/Directories.antt =====
-- src/mkdirs.c: a directory is made with all those above it.
use elastos_net_hive_native.Base.{
  ℕ, ◌-◌, Bool, true, false, ◌==◌, Bytes, take, [], ◌∷◌, ◌++◌, ℤ, pos, negsuc, is_zero,
  if◌then◌else◌,
}
use elastos_net_hive_native.Onedrive.Values.{path_max}

-- What `stat` finds at a path: its failure, a directory, or another file.
pub data Found : Type 0 where
  stat_failed directory other_file : Found

pub record Files (W : Type 0) : Type 0 where
  pub stat : Bytes → W → Found × W
  -- mkdir(path, mode) == 0
  pub mkdir : Bytes → W → Bool × W
  pub errno : W → ℕ
  pub set_errno : ℕ → W → W

-- ENOENT, EEXIST and ENOTDIR of the platform's headers
abbrev pub enoent : ℕ
enoent = 2

abbrev pub eexist : ℕ
eexist = 17

abbrev pub enotdir : ℕ
enotdir = 20

abbrev pub slash : ℕ
slash = 47

abbrev pub is_nil : Bytes → Bool
is_nil [] = true
is_nil (c ∷ s) = false

module _ {W : Type 0} (files : Files W) where
  -- mkdir(path, mode) != 0 && errno != EEXIST
  abbrev pub made_or_there : Bool × W → ℤ × W
  made_or_there (true, w) = (pos 0, w)
  made_or_there (false, w) = (if files.errno w == eexist then pos 0 else negsuc 0, w)

  abbrev pub by_found : Bytes → Found × W → ℤ × W
  by_found path (stat_failed, w) = made_or_there (files.mkdir path w)
  by_found path (directory, w) = (pos 0, w)
  by_found path (other_file, w) = (negsuc 0, files.set_errno enotdir w)

  unfoldable pub mkdir_internal : Bytes → W → ℤ × W
  mkdir_internal path w = by_found path (files.stat path w)

  -- while (rc == 0 && (sp = strchr(pp, '/')) != 0) { … }: `before` are the characters before `pp`, and
  -- those behind it that are no slash join `between`, up to `sp`.
  abbrev pub Rest : Type 0
  Rest = W → ℤ × W

  abbrev pub then_if_zero : ℤ × W → Rest → ℤ × W
  then_if_zero (rc, w) rest = if is_zero rc then rest w else (rc, w)

  unfoldable pub make_parents : Bytes → Bytes → Bytes → W → ℤ × W
  unfolding mkdir_internal
  make_parents before between [] w = (pos 0, w)
  make_parents before between (c ∷ rest) w =
      let sp = before ++ between in
      let next = make_parents (sp ++ c ∷ []) [] rest in
      let further = make_parents before (between ++ c ∷ []) rest w in
      if c == slash
      then (if is_nil between then next w else then_if_zero (mkdir_internal sp w) next)
      else further

  -- The copy of the path is cut at PATH_MAX - 1 characters; the last directory has the whole path.
  unfoldable pub mkdirs : Bytes → W → ℤ × W
  unfolding make_parents
  mkdirs path w =
      then_if_zero (make_parents [] [] (take (path_max - 1) path) w) (mkdir_internal path)
