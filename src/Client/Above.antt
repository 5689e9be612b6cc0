-- ===== src/Client/Above.antt =====
-- The directories that `mkdirs` of src/mkdirs.c makes.
use mathlib.Core.Path.{fun_ext}
use mathlib.Core.List.{append_assoc, append-nil}
use elastos_net_hive_native.Base.{
  ℕ, zero, suc, ◌≡◌, refl, sym, ap, ◌∙◌, Bool, true, false, not, ◌&&◌, ◌==◌, Bytes, length,
  length-append, take, take-length_append, get_elem?, List, [], ◌∷◌, ◌++◌, Option, none, some, ℤ,
  pos, negsuc, is_zero, if◌then◌else◌, Bool-cases, inl, inr, arith,
}
use elastos_net_hive_native.Client.Directories.{
  Files, slash, is_nil, mkdir_internal, then_if_zero, make_parents, mkdirs,
}

-- Whether a path ends in a name, and not in a slash.
abbrev pub ends_in_name : Bytes → Bool
ends_in_name [] = false
ends_in_name (c ∷ []) = not (c == slash)
ends_in_name (c ∷ d ∷ s) = ends_in_name (d ∷ s)

abbrev pub is_slash : Option ℕ → Bool
is_slash none = false
is_slash (some c) = c == slash

-- The paths above a path: its first `i` characters, for each `i` from a start on where a slash follows
-- a name.
abbrev pub above : Bytes → ℕ → ℕ → List Bytes
above path i zero = []
above path i (suc n) =
    let rest = above path (suc i) n in
    if is_slash (get_elem? path i) && ends_in_name (take i path) then take i path ∷ rest else rest

abbrev pub all_above : Bytes → List Bytes
all_above path = above path 0 (length path)

get_elem?-append :
    (xs : Bytes) (c : ℕ) (rest : Bytes) → get_elem? (xs ++ c ∷ rest) (length xs) ≡ some c
get_elem?-append [] c rest = refl
get_elem?-append (x ∷ xs) c rest = get_elem?-append xs c rest

ends_in_name-append : (xs : Bytes) (c : ℕ) → ends_in_name (xs ++ c ∷ []) ≡ not (c == slash)
ends_in_name-append [] c = refl
ends_in_name-append (x ∷ []) c = refl
ends_in_name-append (x ∷ y ∷ xs) c = ends_in_name-append (y ∷ xs) c

length-append_one : (xs : Bytes) (c : ℕ) → length (xs ++ c ∷ []) ≡ suc (length xs)
length-append_one xs c = omega (arith, length-append xs (c ∷ []))

is_nil-append_one : (xs : Bytes) (c : ℕ) → is_nil (xs ++ c ∷ []) ≡ false
is_nil-append_one [] c = refl
is_nil-append_one (x ∷ xs) c = refl

-- The paths above, from behind `sp` on
abbrev above_from : Bytes → Bytes → List Bytes
above_from sp rest = above (sp ++ rest) (length sp) (length rest)

above_from_more :
    (sp : Bytes) (c : ℕ) (rest : Bytes)
    → above_from sp (c ∷ rest) ≡ (
        if (c == slash) && ends_in_name sp
        then sp ∷ above_from (sp ++ c ∷ []) rest
        else above_from (sp ++ c ∷ []) rest)
above_from_more sp c rest =
    let path = append_assoc sp (c ∷ []) rest in
    rw (get_elem?-append sp c rest, take-length_append sp (c ∷ rest), path, length-append_one sp c)
      refl

module _ {W : Type 0} (files : Files W) where
  -- What a caller expects: the paths are made one after the other, up to a failure.
  abbrev pub make_all : List Bytes → W → ℤ × W
  make_all [] w = (pos 0, w)
  make_all (path ∷ paths) w = then_if_zero files (mkdir_internal files path w) (make_all paths)

  make_parents-make_all :
      (before between rest : Bytes) (w : W)
      → ends_in_name (before ++ between) ≡ not (is_nil between)
      → make_parents files before between rest w ≡ make_all (above_from (before ++ between) rest) w
  unfolding make_parents
  make_parents-make_all before between [] w inv = refl
  make_parents-make_all before between (c ∷ rest) w inv =
      let sp = before ++ between in
      elim (Bool-cases (c == slash)) [
        | inr other ↦
            let one = append_assoc before between (c ∷ []) in
            let inv' : ends_in_name (before ++ (between ++ c ∷ []))
                ≡ not (is_nil (between ++ c ∷ [])) =
              ap ends_in_name (sym one)
              ∙ ends_in_name-append sp c
              ∙ ap not other
              ∙ sym (ap not (is_nil-append_one between c)) in
            let same : make_all (above_from (before ++ (between ++ c ∷ [])) rest) w
                ≡ make_all (above_from (sp ++ c ∷ []) rest) w =
              ap (λ (s : Bytes). make_all (above_from s rest) w) (sym one) in
            rw (above_from_more sp c rest, other)
              (make_parents-make_all before (between ++ c ∷ []) rest w inv' ∙ same)
        | inl is ↦
            let nil = append-nil (sp ++ c ∷ []) in
            let inv' : ends_in_name ((sp ++ c ∷ []) ++ []) ≡ false =
              ap ends_in_name nil ∙ ends_in_name-append sp c ∙ ap not is in
            let next : (w' : W)
                → make_parents files (sp ++ c ∷ []) [] rest w'
                  ≡ make_all (above_from (sp ++ c ∷ []) rest) w' =
              λ w'.
                make_parents-make_all (sp ++ c ∷ []) [] rest w' inv'
                ∙ ap (λ (s : Bytes). make_all (above_from s rest) w') nil in
            elim (Bool-cases (is_nil between)) [
              | inl empty ↦
                  let no_name : ends_in_name sp ≡ false = inv ∙ ap not empty in
                  rw (above_from_more sp c rest, is, empty, no_name) (next w)
              | inr name ↦
                  let is_name : ends_in_name sp ≡ true = inv ∙ ap not name in
                  rw (above_from_more sp c rest, is, name, is_name)
                    (ap (λ (k : W → ℤ × W). then_if_zero files (mkdir_internal files sp w) k)
                      (fun_ext next))
            ]
      ]

  make_all-append :
      (xs ys : List Bytes) (w : W)
      → then_if_zero files (make_all xs w) (make_all ys) ≡ make_all (xs ++ ys) w
  make_all-append [] ys w = refl
  make_all-append (x ∷ xs) ys w = elim (Bool-cases (is_zero (mkdir_internal files x w).0)) [
    | inl made ↦ rw made (make_all-append xs ys (mkdir_internal files x w).1)
    | inr failed ↦ rw (failed, failed) refl
  ]

  then_if_zero-end : (x : ℤ × W) → then_if_zero files x (λ w. (pos 0, w)) ≡ x
  then_if_zero-end (pos zero, w) = refl
  then_if_zero-end (pos (suc n), w) = let more : (suc n == 0) ≡ false = ground arith in rw more refl
  then_if_zero-end (negsuc n, w) = refl

  -- `mkdirs` makes the paths above the first 4095 bytes of its path, one after the other from the
  -- shortest on, each up to a slash that follows a name, and then the path itself; the first failure
  -- is its result.
  pub mkdirs-make_all :
      (path : Bytes) (w : W)
      → mkdirs files path w ≡ make_all (all_above (take 4095 path) ++ path ∷ []) w
  unfolding mkdirs
  mkdirs-make_all path w =
      let cut = take 4095 path in
      let last : W → ℤ × W = mkdir_internal files path in
      let ends : make_all (path ∷ []) ≡ last = fun_ext λ w'. then_if_zero-end (last w') in
      ap (λ (x : ℤ × W). then_if_zero files x last) (make_parents-make_all [] [] cut w refl)
      ∙ ap (λ (k : W → ℤ × W). then_if_zero files (make_all (all_above cut) w) k) (sym ends)
      ∙ make_all-append (all_above cut) (path ∷ []) w
