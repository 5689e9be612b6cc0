-- ===== src/Apps/Line/Words.antt =====
-- A line that is typed reaches a command of apps/cmd/cmd.c as its words.
use mathlib.Core.List.{append_assoc, append-nil}
use elastos_net_hive_native.Base.{
  ℕ, ◌+◌, ◌≤◌, ◌<◌, ◌≡◌, inl, inr, refl, sym, ap, ◌∙◌, Bool, true, false, not, leb, Bytes, length,
  length-append, List, [], ◌∷◌, ◌++◌, Option, none, some, Bool-cases, if◌then◌else◌, arith,
}
use elastos_net_hive_native.Apps.Line.{is_space, grow_last, split_from}

abbrev pub starts_word : Bytes → Bool
starts_word [] = false
starts_word (c ∷ s) = not (is_space c)

-- A text before the first word joins it.
abbrev pub glue : Bytes → List Bytes → List Bytes
glue w [] = w ∷ []
glue w (v ∷ vs) = (w ++ v) ∷ vs

-- What a reader expects: the longest pieces of a text that hold no space.
abbrev pub words : Bytes → List Bytes
words [] = []
words (c ∷ s) =
    let rest = words s in
    if is_space c then rest else if starts_word s then glue (c ∷ []) rest else (c ∷ []) ∷ rest

-- The words, if `args` has room for them
abbrev pub bounded : List Bytes → Option (List Bytes)
bounded ws = if leb (length ws) 64 then some ws else none

-- The words behind a space, or behind the beginning `w` of a word
abbrev extend : Bytes → Bytes → List Bytes
extend w s = if starts_word s then glue w (words s) else w ∷ words s

extend-cons :
    (w : Bytes) (c : ℕ) (s : Bytes) → is_space c ≡ false → extend w (c ∷ s) ≡ extend (w ++ c ∷ []) s
extend-cons w c s char = elim (Bool-cases (starts_word s)) [
  | inr alone ↦ rw (char, alone) refl
  | inl more ↦ rw (char, more) (glue_twice (words s))
]
  where
    glue_twice : (vs : List Bytes) → glue w (glue (c ∷ []) vs) ≡ glue (w ++ c ∷ []) vs
    glue_twice [] = refl
    glue_twice (v ∷ vs) = ap (λ (t : Bytes). t ∷ vs) (sym (append_assoc w (c ∷ []) v))

one-le-extend : (w s : Bytes) → 1 ≤ length (extend w s)
one-le-extend w s = elim (Bool-cases (starts_word s)) [
  | inr alone ↦ rw alone (omega arith)
  | inl more ↦ rw more (glued (words s))
]
  where
    glued : (vs : List Bytes) → 1 ≤ length (glue w vs)
    glued [] = omega arith
    glued (v ∷ vs) = omega arith

grow_last-append :
    (c : ℕ) (args : List Bytes) (w : Bytes)
    → grow_last c (args ++ w ∷ []) ≡ args ++ (w ++ c ∷ []) ∷ []
unfolding grow_last
grow_last-append c [] w = refl
grow_last-append c (v ∷ []) w = refl
grow_last-append c (v ∷ u ∷ args) w = ap (◌∷◌ v) (grow_last-append c (u ∷ args) w)

length-append_one : (args : List Bytes) (w : Bytes) → length (args ++ w ∷ []) ≡ length args + 1
length-append_one args w = omega (arith, length-append args (w ∷ []))

words-space : (c : ℕ) (s : Bytes) → is_space c ≡ true → words (c ∷ s) ≡ words s
words-space c s space = rw space refl

words-char : (c : ℕ) (s : Bytes) → is_space c ≡ false → words (c ∷ s) ≡ extend (c ∷ []) s
words-char c s char = rw char refl

extend-space : (w : Bytes) (c : ℕ) (s : Bytes) → is_space c ≡ true → extend w (c ∷ s) ≡ w ∷ words s
extend-space w c s space = rw space refl

-- One round of the loop
module _ (c : ℕ) (s : Bytes) (args : List Bytes) where
  split_from-space :
      (word : Bool) → is_space c ≡ true → split_from (c ∷ s) word args ≡ split_from s false args
  unfolding split_from
  split_from-space word space = rw (split_from, space) refl

  split_from-full :
      is_space c ≡ false → leb 64 (length args) ≡ true → split_from (c ∷ s) false args ≡ none
  unfolding split_from
  split_from-full char full = rw (split_from, char, full) refl

  split_from-new :
      is_space c ≡ false
      → leb 64 (length args) ≡ false
      → split_from (c ∷ s) false args ≡ split_from s true (args ++ (c ∷ []) ∷ [])
  unfolding split_from
  split_from-new char free = rw (split_from, char, free) refl

  split_from-more :
      is_space c ≡ false → split_from (c ∷ s) true args ≡ split_from s true (grow_last c args)
  unfolding split_from
  split_from-more char = rw (split_from, char) refl

bounded-fits : (ws : List Bytes) → length ws ≤ 64 → some ws ≡ bounded ws
bounded-fits ws fits = ground arith

bounded-full :
    (args ws : List Bytes) → 64 ≤ length args → 1 ≤ length ws → none ≡ bounded (args ++ ws)
bounded-full args ws full more = ground (arith, length-append args ws)

mutual
  unfolding split_from

  pub split_from-words :
      (s : Bytes) (args : List Bytes)
      → length args ≤ 64
      → split_from s false args ≡ bounded (args ++ words s)
  split_from-words [] args room = bounded-fits args room ∙ ap bounded (sym (append-nil args))
  split_from-words (c ∷ s) args room = elim (Bool-cases (is_space c)) [
    | inl space ↦
        split_from-space c s args false space
        ∙ split_from-words s args room
        ∙ ap (λ (ws : List Bytes). bounded (args ++ ws)) (sym (words-space c s space))
    | inr char ↦
        let same = ap (λ (ws : List Bytes). bounded (args ++ ws)) (sym (words-char c s char)) in
        elim (Bool-cases (leb 64 (length args))) [
          | inl full ↦
              split_from-full c s args char full
              ∙ bounded-full args (extend (c ∷ []) s) (ground arith) (one-le-extend (c ∷ []) s)
              ∙ same
          | inr free ↦
              split_from-new c s args char free
              ∙ split_from-extend s args (c ∷ []) (ground arith)
              ∙ same
        ]
  ]

  split_from-extend :
      (s : Bytes) (args : List Bytes) (w : Bytes)
      → length args < 64
      → split_from s true (args ++ w ∷ []) ≡ bounded (args ++ extend w s)
  split_from-extend [] args w room =
      bounded-fits (args ++ w ∷ []) (omega (arith, length-append_one args w))
  split_from-extend (c ∷ s) args w room = elim (Bool-cases (is_space c)) [
    | inl space ↦
        split_from-space c s (args ++ w ∷ []) true space
        ∙ split_from-words s (args ++ w ∷ []) (omega (arith, length-append_one args w))
        ∙ ap bounded (append_assoc args (w ∷ []) (words s))
        ∙ ap (λ (ws : List Bytes). bounded (args ++ ws)) (sym (extend-space w c s space))
    | inr char ↦
        split_from-more c s (args ++ w ∷ []) char
        ∙ ap (λ (ws : List Bytes). split_from s true ws) (grow_last-append c args w)
        ∙ split_from-extend s args (w ++ c ∷ []) room
        ∙ ap (λ (ws : List Bytes). bounded (args ++ ws)) (sym (extend-cons w c s char))
  ]
