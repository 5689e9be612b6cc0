-- ===== src/Apps/Line/Typed.antt =====
-- What read_cmd of apps/cmd/cmd.c makes of a line that is typed, and do_cmd of that.
use elastos_net_hive_native.Base.{
  ℕ, ◌+◌, ◌<◌, ◌≡◌, ◌⊎◌, inl, inr, refl, sym, ap, ◌∙◌, Bool, true, false, not, ◌&&◌, ◌==◌, leb,
  Bytes, length, length-append, [], ◌∷◌, ◌++◌, Bool-cases, arith,
}
use mathlib.Core.List.{append_assoc, append-nil}
use elastos_net_hive_native.Apps.Line.{
  is_print, is_space, is_newline, is_empty, drop_spaces, trim_end, trim_start, line, after_line,
  read_from, read_cmd, split_line,
}
use elastos_net_hive_native.Apps.Line.Words.{words, starts_word, bounded, split_from-words}

drop_spaces-words :
    (s : Bytes) → (words (drop_spaces s) ≡ words s) × (starts_word (drop_spaces s) ≡ starts_word s)
unfolding drop_spaces
drop_spaces-words [] = (refl, refl)
drop_spaces-words (c ∷ s) =
    let (same, starts) = drop_spaces-words s in
    elim (Bool-cases (is_space c && is_empty (drop_spaces s))) [
      | inr kept ↦ rw (drop_spaces, kept, same, starts) (refl, refl)
      | inl dropped ↦
          let space : is_space c ≡ true = ground (arith, dropped) in
          let empty : drop_spaces s ≡ [] = nothing (drop_spaces s) (ground (arith, dropped)) in
          rw (drop_spaces, dropped, space) (sym (ap words empty) ∙ same, refl)
    ]
  where
    nothing : (t : Bytes) → is_empty t ≡ true → t ≡ []
    nothing [] e = refl
    nothing (d ∷ t) e = absurd (cc e)

trim_end-words : (s : Bytes) → words (trim_end s) ≡ words s
unfolding trim_end
trim_end-words [] = refl
trim_end-words (c ∷ s) = let (same, starts) = drop_spaces-words s in rw (same, starts) refl

trim_start-words :
    (s : Bytes)
    → (words (trim_start s) ≡ words s) × ((trim_start s ≡ []) ⊎ (starts_word (trim_start s) ≡ true))
unfolding trim_start
trim_start-words [] = (refl, inl refl)
trim_start-words (c ∷ s) = elim (Bool-cases (is_space c)) [
  | inl space ↦ rw (trim_start, space) (trim_start-words s)
  | inr char ↦
      let whole : trim_start (c ∷ s) ≡ c ∷ s = rw (trim_start, char) refl in
      (ap words whole, inr (ap starts_word whole ∙ ap not char))
]

-- Only characters that `isprint` accepts
abbrev pub all_print : Bytes → Bool
all_print [] = true
all_print (c ∷ s) = is_print c && all_print s

abbrev trimmed : Bytes → Bytes
trimmed s = trim_start (trim_end s)

read_from-typed :
    (text cmd_line : Bytes) (newline : ℕ) (input : Bytes)
    → all_print text ≡ true
    → is_newline newline ≡ true
    → length cmd_line + length text < 1024
    → read_from (text ++ newline ∷ input) cmd_line
      ≡ after_line (trimmed (cmd_line ++ text)) input (read_from input [])
unfolding read_from
read_from-typed [] cmd_line newline input typed ends room =
    let some_char : (newline == 0) ≡ false = ground (arith, ends) in
    let no_print : is_print newline ≡ false = ground (arith, ends) in
    let fits : leb 1024 (length cmd_line) ≡ false = ground (arith, room) in
    let whole =
      ap (λ (t : Bytes). after_line (trimmed t) input (read_from input []))
        (sym (append-nil cmd_line)) in
    rw (some_char, no_print, ends, fits) whole
read_from-typed (c ∷ text) cmd_line newline input typed ends room =
    let print : is_print c ≡ true = ground (arith, typed) in
    let rest : all_print text ≡ true = ground (arith, typed) in
    let some_char : (c == 0) ≡ false = ground (arith, print) in
    let fits : leb 1024 (length cmd_line) ≡ false = ground (arith, room) in
    let step =
      read_from-typed text (cmd_line ++ c ∷ []) newline input rest ends
        (omega (arith, room, length-append cmd_line (c ∷ []))) in
    let same =
      ap (λ (t : Bytes). after_line (trimmed t) input (read_from input []))
        (append_assoc cmd_line (c ∷ []) text) in
    rw (some_char, print, fits) (step ∙ same)

-- The newline behind a text ends a line of its words, or a line of spaces.
abbrev pub Typed : Bytes → Bytes → Type 0
Typed text input =
    ((words text ≡ []) × (read_cmd (text ++ b'\n' ∷ input) ≡ read_cmd input))
    ⊎ ((l : Bytes) × (starts_word l ≡ true)
        × (read_cmd (text ++ b'\n' ∷ input) ≡ line l input)
        × (split_line l ≡ bounded (words text)))

after_line-Typed :
    (text input l : Bytes)
    → read_cmd (text ++ b'\n' ∷ input) ≡ after_line l input (read_cmd input)
    → words l ≡ words text
    → (l ≡ []) ⊎ (starts_word l ≡ true)
    → Typed text input
unfolding split_line
after_line-Typed text input [] read same starts = inl (sym same, read)
after_line-Typed text input (c ∷ s) read same (inl nil) = absurd (cc nil)
after_line-Typed text input (c ∷ s) read same (inr starts) =
    inr (c ∷ s, starts, read, split_from-words (c ∷ s) [] (omega arith) ∙ ap bounded same)

-- A text of less than 1024 printable characters is typed, and a newline. If it has words, `read_cmd`
-- returns a line that starts with no space, and `do_cmd` splits that into exactly the words of the
-- text, or finds no room for them if these are more than 64. If it has none, `read_cmd` goes on with
-- what follows.
pub read_cmd-Typed :
    (text input : Bytes) → all_print text ≡ true → length text < 1024 → Typed text input
unfolding read_cmd
read_cmd-Typed text input typed room =
    let (same, starts) = trim_start-words (trim_end text) in
    after_line-Typed text input (trimmed text)
      (read_from-typed text [] b'\n' input typed refl (omega (arith, room)))
      (same ∙ trim_end-words text) starts
