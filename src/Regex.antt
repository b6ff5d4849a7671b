-- ===== src/Regex.antt =====
-- The regular expressions of PL/Regex: the tree of AST.hpp, the empty-word check and the derivative of
-- Derivative.hpp, and the search of DerivativeEngine.hpp. A character is its code, a string a list of them.
-- The result field of a visitor is the result of the function.
pub mod Language
pub mod Engine
pub mod Search
mod Tests
use code_snippet.Prelude.{
  ℕ, zero, suc, ◌+◌, ◌-◌, Bool, true, false, ◌&&◌, ◌||◌, ◌==◌, ltb, if◌then◌else◌, List, [], ◌∷◌,
  take,
}

-- The base class and its heirs, with the fields that the matching reads.
pub data Regex : Type 0 where
  empty : Regex
  null : Regex
  char : (ch : ℕ) → Regex
  alt : (left right : Regex) → Regex
  seq : (first last : Regex) → Regex
  rep : (re : Regex) → Regex
  group : (re : Regex) (number : ℕ) → Regex

-- '.'
abbrev pub any : ℕ
any = 46

unfoldable pub null_check : Regex → Bool
null_check empty = false
null_check null = true
null_check (char ch) = false
null_check (alt left right) = null_check right || null_check left
null_check (seq first last) = null_check last && null_check first
null_check (rep re) = true
null_check (group re number) = null_check re

unfoldable pub drv : Regex → ℕ → Regex
drv empty c = empty
drv null c = empty
drv (char ch) c = if ch == c then null else if ch == any then null else empty
drv (alt left right) c = alt (drv left c) (drv right c)
drv (seq first last) c =
    let f = seq (drv first c) last in
    let r = alt f (drv last c) in if null_check first then r else f
drv (rep re) c = seq (drv re c) (rep re)
drv (group re number) c = drv re c

-- The helpers are on what is left of the string from the position on.
unfoldable pub match_helper : Regex → List ℕ → Bool
match_helper re [] = null_check re
match_helper re (c ∷ str) = match_helper (drv re c) str

unfoldable pub search_helper : Regex → List ℕ → ℕ → ℕ
search_helper re [] id = if null_check re then id else 0
search_helper re (c ∷ str) id =
    let result = if null_check re then id else 0 in
    let tmp = search_helper (drv re c) str (id + 1) in if ltb result tmp then tmp else result

unfoldable pub search_from : Regex → List ℕ → ℕ → List ℕ
search_from re [] i = []
search_from re (c ∷ str) i =
    let tail = search_helper re (c ∷ str) i in
    let rest = search_from re str (i + 1) in if ltb i tail then take (tail - i) (c ∷ str) else rest

unfoldable pub search : Regex → List ℕ → List ℕ
search re str = search_from re str 0
