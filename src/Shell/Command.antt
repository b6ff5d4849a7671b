-- ===== src/Shell/Command.antt =====
-- `parseline` and `builtin_cmd` of C/CSAPPLab/shell/tsh.c. A string is the list of its characters
-- before the NUL.
pub mod Words
use code_snippet.Prelude.{
  ℕ, zero, suc, Option, none, some, Bool, true, false, ◌==◌, ltb, if◌then◌else◌, List, [], ◌∷◌,
  length,
}

abbrev pub space : ℕ
space = b' '

abbrev pub quote : ℕ
quote = b'\''

abbrev pub ampersand : ℕ
ampersand = b'&'

abbrev pub newline : ℕ
newline = 10

abbrev pub maxargs : ℕ
maxargs = 128

-- What stands before the first `c` and after it; `none` is NULL of strchr(3).
unfoldable pub split_at : ℕ → List ℕ → Option (List ℕ × List ℕ)
split_at c [] = none
split_at c (x ∷ xs) =
    let rest = split_at c xs in
    if x == c then some ([], xs) else elim rest [ none ↦ none | some p ↦ some (x ∷ p.0, p.1) ]

unfoldable pub skip_spaces : List ℕ → List ℕ
skip_spaces [] = []
skip_spaces (x ∷ xs) = let rest = skip_spaces xs in if x == space then rest else x ∷ xs

-- The next argument and what follows its delimiter.
unfoldable pub next_arg : List ℕ → Option (List ℕ × List ℕ)
next_arg [] = none
next_arg (x ∷ xs) = if x == quote then split_at quote xs else split_at space (x ∷ xs)

-- The loop that builds argv. Each round takes a character or more, so as many rounds as characters do.
unfoldable pub args_loop : ℕ → List ℕ → List (List ℕ)
args_loop zero buf = []
args_loop (suc fuel) buf = elim (next_arg (skip_spaces buf)) [
  | none ↦ []
  | some p ↦ p.0 ∷ args_loop fuel p.1
]

-- buf[strlen(buf)-1] = ' '; `none` is the empty string, where that is a store before the buffer.
unfoldable pub end_with_space : List ℕ → Option (List ℕ)
end_with_space [] = none
end_with_space (x ∷ []) = some (space ∷ [])
end_with_space (x ∷ (y ∷ ys)) = elim (end_with_space (y ∷ ys)) [
  | none ↦ none
  | some zs ↦ some (x ∷ zs)
]

abbrev pub starts_with : ℕ → List ℕ → Bool
starts_with c [] = false
starts_with c (x ∷ xs) = x == c

-- The arguments without a last one that begins with '&', and whether there is such a one.
unfoldable pub take_background : List (List ℕ) → List (List ℕ) × Bool
take_background [] = ([], true)
take_background (a ∷ []) = if starts_with ampersand a then ([], true) else (a ∷ [], false)
take_background (a ∷ (b ∷ bs)) = let rest = take_background (b ∷ bs) in (a ∷ rest.0, rest.1)

-- The arguments and the result. `none` is a store outside the buffer or outside argv.
unfoldable pub parseline : List ℕ → Option (List (List ℕ) × Bool)
parseline cmdline = elim (end_with_space cmdline) [
  | none ↦ none
  | some buf ↦
      (let args = args_loop (length buf) buf in
        if ltb (length args) maxargs then some (take_background args) else none)
]

unfoldable pub strings_equal : List ℕ → List ℕ → Bool
strings_equal [] [] = true
strings_equal [] (y ∷ ys) = false
strings_equal (x ∷ xs) [] = false
strings_equal (x ∷ xs) (y ∷ ys) = if x == y then strings_equal xs ys else false

-- What `builtin_cmd` does: it ends the shell, prints the jobs, runs `do_bgfg` for fg or for bg, or
-- leaves the command to be run as a program.
pub data Builtin : Type 0 where
  quit : Builtin
  jobs : Builtin
  bgfg : Bool → Builtin
  external : Builtin

unfoldable pub builtin_cmd : List ℕ → Builtin
builtin_cmd name =
    if strings_equal name (b'q' ∷ b'u' ∷ b'i' ∷ b't' ∷ [])
    then quit
    else if strings_equal name (b'j' ∷ b'o' ∷ b'b' ∷ b's' ∷ [])
    then jobs
    else if strings_equal name (b'f' ∷ b'g' ∷ [])
    then bgfg true
    else if strings_equal name (b'b' ∷ b'g' ∷ [])
    then bgfg false
    else external
