-- ===== src/Apps/Line.antt =====
-- read_cmd and do_cmd of apps/cmd/cmd.c: a line is read, trimmed and split into words.

pub mod Words
pub mod Typed
use elastos_net_hive_native.Base.{
  ℕ, Bool, true, false, ◌||◌, ◌&&◌, ◌==◌, leb, Bytes, length, List, [], ◌∷◌, ◌++◌, Option, none,
  some, if◌then◌else◌,
}

-- isprint and isspace of the "C" locale
abbrev pub is_print : ℕ → Bool
is_print c = leb 32 c && leb c 126

abbrev pub is_space : ℕ → Bool
is_space c = c == 32 || leb 9 c && leb c 13

abbrev pub is_newline : ℕ → Bool
is_newline c = c == 10 || c == 13

-- sizeof(cmd_line), and the room in `args`
abbrev pub cmd_line_size : ℕ
cmd_line_size = 1024

abbrev pub args_size : ℕ
args_size = 64

abbrev pub is_empty : {A : Type 0} → List A → Bool
is_empty [] = true
is_empty (c ∷ s) = false

-- The loop from the line's last character back
unfoldable pub drop_spaces : Bytes → Bytes
drop_spaces [] = []
drop_spaces (c ∷ s) =
    let rest = drop_spaces s in if is_space c && is_empty rest then [] else c ∷ rest

-- It does not look at the first character.
unfoldable pub trim_end : Bytes → Bytes
unfolding drop_spaces
trim_end [] = []
trim_end (c ∷ s) = c ∷ drop_spaces s

unfoldable pub trim_start : Bytes → Bytes
trim_start [] = []
trim_start (c ∷ s) = let rest = trim_start s in if is_space c then rest else c ∷ s

-- A line with the input behind it; NULL; or a character that is stored behind the end of `cmd_line`.
pub data Input : Type 0 where
  line : Bytes → Bytes → Input
  end : Input
  overrun : Input

-- A line of spaces is passed over.
abbrev pub after_line : Bytes → Bytes → Input → Input
after_line [] input next = next
after_line (c ∷ s) input next = line (c ∷ s) input

-- The characters of the standard input, and those that `cmd_line` holds: `cmd_len` is their number.
unfoldable pub read_from : Bytes → Bytes → Input
unfolding trim_end trim_start
read_from [] cmd_line = end
read_from (ch ∷ input) cmd_line =
    let go_on = read_from input (if is_print ch then cmd_line ++ ch ∷ [] else cmd_line) in
    let again = read_from input [] in
    if ch == 0
    then end
    else if (is_print ch || is_newline ch) && leb cmd_line_size (length cmd_line)
    then overrun
    else if is_print ch
    then go_on
    else if is_newline ch
    then after_line (trim_start (trim_end cmd_line)) input again
    else go_on

unfoldable pub read_cmd : Bytes → Input
unfolding read_from
read_cmd input = read_from input []

-- The last of the words is the one that `word` says is being read.
unfoldable pub grow_last : ℕ → List Bytes → List Bytes
grow_last c [] = []
grow_last c (w ∷ []) = (w ++ c ∷ []) ∷ []
grow_last c (w ∷ v ∷ ws) = w ∷ grow_last c (v ∷ ws)

-- One round of the loop of `do_cmd`; `none` is a word for which `args` has no room.
unfoldable pub place : ℕ → Bool → List Bytes → Option (Bool × List Bytes)
unfolding grow_last
place c word args =
    if is_space c
    then some (false, args)
    else if word
    then some (true, grow_last c args)
    else if leb args_size (length args)
    then none
    else some (true, args ++ (c ∷ []) ∷ [])

unfoldable pub split_from : Bytes → Bool → List Bytes → Option (List Bytes)
unfolding place
split_from [] word args = some args
split_from (c ∷ s) word args = elim (place c word args) [
  | none ↦ none
  | some (word', args') ↦ split_from s word' args'
]

-- The arguments that `do_cmd` finds in a line
unfoldable pub split_line : Bytes → Option (List Bytes)
unfolding split_from
split_line text = split_from text false []
