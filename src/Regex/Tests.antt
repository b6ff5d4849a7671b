-- ===== src/Regex/Tests.antt =====
-- The expression a(b|.)* of PL/Regex on a few strings.
use code_snippet.Prelude.{
  ℕ, ◌<◌, ◌≤◌, ◌≡◌, refl, arith, true, ◌⊎◌, inl, ◌↔◌, List, [], ◌∷◌, ◌++◌, length,
}
use code_snippet.Regex.{
  Regex, char, alt, seq, rep, group, any, null_check, drv, match_helper, search, search_from,
  search_helper,
}
use code_snippet.Regex.Language.{InLanguage, Power}
use code_snippet.Regex.Engine.{match_decides}
use code_snippet.Regex.Search.{search_first_longest}

abbrev a_more : Regex
a_more = seq (char 97) (group (rep (alt (char 98) (char any))) 1)

abbrev xab : List ℕ
xab = 120 ∷ 97 ∷ 98 ∷ []

finds_ab : search a_more xab ≡ 97 ∷ 98 ∷ []
unfolding search search_from search_helper null_check drv
finds_ab = refl

match_decides_example : (match_helper a_more xab ≡ true) ↔ InLanguage a_more xab
match_decides_example = match_decides a_more xab

a_alone : InLanguage a_more (97 ∷ [])
unfolding InLanguage Power
a_alone = (97 ∷ [], [], refl, (97, refl, inl refl), (0, refl))

search_first_longest_example :
    (before : List ℕ) × (after : List ℕ) × (xab ≡ before ++ (search a_more xab ++ after))
    × InLanguage a_more (search a_more xab)
    × ((length before < 1) ⊎ ((length before ≡ 1) × (1 ≤ length (search a_more xab))))
search_first_longest_example =
    search_first_longest a_more xab (120 ∷ []) (97 ∷ []) (98 ∷ []) refl (λ e. ground (arith, e))
      a_alone
