-- ===== src/Shell/Command/Words.antt =====
-- `parseline` of C/CSAPPLab/shell/tsh.c gives back the words of a line.
use code_snippet.Prelude.{
  ℕ, zero, suc, ◌<◌, ◌≤◌, ◌≡◌, ◌≢◌, refl, none, some, Bool, true, false, ltb, if◌then◌else◌, arith,
  List, [], ◌∷◌, ◌++◌, All, length, ap, ◌∙◌, length-append,
}
use code_snippet.Shell.Command.{
  space, quote, ampersand, newline, maxargs, split_at, skip_spaces, next_arg, args_loop,
  end_with_space, starts_with, take_background, parseline,
}

-- A word begins with neither a space nor a quote, and holds no space.
abbrev pub IsWord : List ℕ → Type 0
IsWord [] = ⊥
IsWord (x ∷ xs) = (x ≢ quote) × All (λ c. c ≢ space) (x ∷ xs)

-- The words of a line, each followed by a space.
abbrev pub spaced : List (List ℕ) → List ℕ
spaced [] = []
spaced (w ∷ ws) = w ++ (space ∷ spaced ws)

-- The line as it is typed: spaces between the words and a newline at the end.
abbrev pub typed : List ℕ → List (List ℕ) → List ℕ
typed w [] = w ++ (newline ∷ [])
typed w (v ∷ vs) = w ++ (space ∷ typed v vs)

split_at-word :
    (c : ℕ) (w rest : List ℕ) → All (λ x. x ≢ c) w → split_at c (w ++ (c ∷ rest)) ≡ some (w, rest)
unfolding split_at
split_at-word c [] rest a = ground arith
split_at-word c (x ∷ w) rest a = ground (arith, a.0, split_at-word c w rest a.1)

next_arg-word :
    (w rest : List ℕ) → IsWord w → next_arg (skip_spaces (w ++ (space ∷ rest))) ≡ some (w, rest)
unfolding next_arg skip_spaces
next_arg-word [] rest wd = elim wd [ ]
next_arg-word (x ∷ w) rest wd = ground (arith, wd.0, wd.1.0, split_at-word space (x ∷ w) rest wd.1)

args_step :
    (n : ℕ) (buf w rest : List ℕ)
    → next_arg (skip_spaces buf) ≡ some (w, rest)
    → args_loop (suc n) buf ≡ w ∷ args_loop n rest
unfolding args_loop
args_step n buf w rest e = ground (arith, e)

parse_step :
    (cmdline buf : List ℕ) (args : List (List ℕ))
    → end_with_space cmdline ≡ some buf
    → args_loop (length buf) buf ≡ args
    → parseline cmdline ≡ (if ltb (length args) maxargs then some (take_background args) else none)
unfolding parseline
parse_step cmdline buf args e a = rw (parseline, e, a) refl

args_loop-spaced :
    (n : ℕ) (ws : List (List ℕ)) → length ws ≤ n → All IsWord ws → args_loop n (spaced ws) ≡ ws
unfolding args_loop next_arg skip_spaces
args_loop-spaced zero [] l a = refl
args_loop-spaced (suc n) [] l a = refl
args_loop-spaced zero (w ∷ ws) l a = absurd (omega (arith, l))
args_loop-spaced (suc n) (w ∷ ws) l a =
    args_step n (spaced (w ∷ ws)) w (spaced ws) (next_arg-word w (spaced ws) a.0)
    ∙ ap (λ (t : List (List ℕ)). w ∷ t) (args_loop-spaced n ws (omega (arith, l)) a.1)

length-spaced : (ws : List (List ℕ)) → length ws ≤ length (spaced ws)
length-spaced [] = omega arith
length-spaced (w ∷ ws) = omega (arith, length-spaced ws, length-append w (space ∷ spaced ws))

end_cons :
    (x : ℕ) (u u' : List ℕ) → end_with_space u ≡ some u' → end_with_space (x ∷ u) ≡ some (x ∷ u')
unfolding end_with_space
end_cons x [] u' e = ground (arith, e)
end_cons x (y ∷ u) u' e = rw e refl

end_append :
    (xs t t' : List ℕ) → end_with_space t ≡ some t' → end_with_space (xs ++ t) ≡ some (xs ++ t')
end_append [] t t' e = e
end_append (x ∷ xs) t t' e = end_cons x (xs ++ t) (xs ++ t') (end_append xs t t' e)

end_with_space-typed :
    (w : List ℕ) (ws : List (List ℕ)) → end_with_space (typed w ws) ≡ some (spaced (w ∷ ws))
unfolding end_with_space
end_with_space-typed w [] = end_append w (newline ∷ []) (space ∷ []) refl
end_with_space-typed w (v ∷ vs) =
    end_append w (space ∷ typed v vs) (space ∷ spaced (v ∷ vs))
      (end_cons space (typed v vs) (spaced (v ∷ vs)) (end_with_space-typed v vs))

parseline-typed :
    (w : List ℕ) (ws : List (List ℕ))
    → All IsWord (w ∷ ws)
    → length (w ∷ ws) < maxargs
    → parseline (typed w ws) ≡ some (take_background (w ∷ ws))
parseline-typed w ws a l =
    parse_step (typed w ws) (spaced (w ∷ ws)) (w ∷ ws) (end_with_space-typed w ws)
      (args_loop-spaced (length (spaced (w ∷ ws))) (w ∷ ws) (length-spaced (w ∷ ws)) a)
    ∙ ground (arith, l)

-- The word that ends a background command.
abbrev pub mark : Bool → List (List ℕ)
mark true = (ampersand ∷ []) ∷ []
mark false = []

take_background-mark :
    (b : Bool) (w : List ℕ) (ws : List (List ℕ))
    → All (λ v. starts_with ampersand v ≡ false) (w ∷ ws)
    → take_background (w ∷ (ws ++ mark b)) ≡ (w ∷ ws, b)
unfolding take_background
take_background-mark true w [] a = refl
take_background-mark false w [] a = ground (arith, a.0)
take_background-mark b w (v ∷ vs) a = rw (take_background-mark b v vs a.1) refl

All-mark : (b : Bool) (ws : List (List ℕ)) → All IsWord ws → All IsWord (ws ++ mark b)
All-mark true [] a = ((omega arith, (omega arith, tt)), tt)
All-mark false [] a = tt
All-mark b (w ∷ ws) a = (a.0, All-mark b ws a.1)

-- A line of words that begin with no quote and no '&' and hold no space, with one space between them and
-- a lone '&' after them or not, and with fewer than 128 words in all, is parsed into exactly these words,
-- as a background command if the '&' is there and as a foreground command if not.
pub parseline_words :
    (b : Bool) (w : List ℕ) (ws : List (List ℕ))
    → All IsWord (w ∷ ws)
    → All (λ v. starts_with ampersand v ≡ false) (w ∷ ws)
    → length (w ∷ (ws ++ mark b)) < maxargs
    → parseline (typed w (ws ++ mark b)) ≡ some (w ∷ ws, b)
parseline_words b w ws a plain l =
    parseline-typed w (ws ++ mark b) (a.0, All-mark b ws a.1) l
    ∙ ap some (take_background-mark b w ws plain)

-- A line of 128 such words or more makes `parseline` store past the end of argv.
pub parseline_overflows :
    (w : List ℕ) (ws : List (List ℕ))
    → All IsWord (w ∷ ws)
    → maxargs ≤ length (w ∷ ws)
    → parseline (typed w ws) ≡ none
parseline_overflows w ws a l =
    parse_step (typed w ws) (spaced (w ∷ ws)) (w ∷ ws) (end_with_space-typed w ws)
      (args_loop-spaced (length (spaced (w ∷ ws))) (w ∷ ws) (length-spaced (w ∷ ws)) a)
    ∙ ground (arith, l)
