-- ===== src/Regex/Engine.antt =====
-- The matching of PL/Regex/DerivativeEngine.hpp.
use code_snippet.Prelude.{
  ℕ, suc, ◌+◌, ◌≤◌, ◌≡◌, refl, ◌∙◌, sym, ap, arith, true, ◌⊎◌, inl, inr, ◌↔◌, List, [], ◌∷◌, ◌++◌,
  length, Bool-cases, if◌then◌else◌, ltb, if_both,
}
use mathlib.Core.Path.{subst}
use code_snippet.Regex.{Regex, null_check, drv, match_helper, search_helper}
use code_snippet.Regex.Language.{
  InLanguage, null_check_sound, null_check_complete, drv_sound, drv_complete, cons-append,
  nil-append,
}

match_sound : (re : Regex) (str : List ℕ) → match_helper re str ≡ true → InLanguage re str
unfolding match_helper
match_sound re [] e = null_check_sound re e
match_sound re (c ∷ str) e = drv_sound re c str (match_sound (drv re c) str e)

match_complete : (re : Regex) (str : List ℕ) → InLanguage re str → match_helper re str ≡ true
unfolding match_helper
match_complete re [] h = null_check_complete re h
match_complete re (c ∷ str) h = match_complete (drv re c) str (drv_complete re c str h)

-- The match answers true exactly on the words of the language of the expression.
pub match_decides : (re : Regex) (str : List ℕ) → (match_helper re str ≡ true) ↔ InLanguage re str
match_decides re str = (match_sound re str, match_complete re str)

-- The position that the helper returns is 0 or the end of a word of the language that begins at `id`, and no
-- such word ends behind it.
pub record Ends (re : Regex) (str : List ℕ) (id tail : ℕ) : Type 0 where
  pub attained :
      (tail ≡ 0)
      ⊎ ((u : List ℕ) × (v : List ℕ) × (str ≡ u ++ v) × InLanguage re u × (tail ≡ id + length u))
  pub greatest : (u v : List ℕ) → str ≡ u ++ v → InLanguage re u → id + length u ≤ tail

helper-nil : (re : Regex) (id : ℕ) → search_helper re [] id ≡ (if null_check re then id else 0)
unfolding search_helper
helper-nil re id = refl

helper-cons :
    (re : Regex) (c : ℕ) (str : List ℕ) (id : ℕ)
    → search_helper re (c ∷ str) id ≡ (
        if ltb (if null_check re then id else 0) (search_helper (drv re c) str (id + 1))
        then search_helper (drv re c) str (id + 1)
        else (if null_check re then id else 0))
unfolding search_helper
helper-cons re c str id = refl

-- The empty word.
empty-attained :
    (re : Regex) (str : List ℕ) (id : ℕ)
    → ((if null_check re then id else 0) ≡ 0)
      ⊎ ((u : List ℕ) × (v : List ℕ) × (str ≡ u ++ v)
          × InLanguage re u
          × ((if null_check re then id else 0) ≡ id + length u))
empty-attained re str id = elim (Bool-cases (null_check re)) [
  | inl e ↦ inr ([], str, refl, null_check_sound re e, rw e (omega arith))
  | inr e ↦ inl (rw e refl)
]

empty-first : (re : Regex) (id : ℕ) → InLanguage re [] → id ≤ (if null_check re then id else 0)
empty-first re id h = let e = null_check_complete re h in ground (arith, e)

greater-of : (a b : ℕ) → (a ≤ (if ltb a b then b else a)) × (b ≤ (if ltb a b then b else a))
greater-of a b = (ground arith, ground arith)

pub helper-Ends : (re : Regex) (str : List ℕ) (id : ℕ) → Ends re str id (search_helper re str id)
helper-Ends re [] id = subst (Ends re [] id) (sym (helper-nil re id)) (record {
  attained = empty-attained re [] id;
  greatest = λ u v e h.
      let parts = nil-append u v e in
      let first = empty-first re id (subst (InLanguage re) parts.0 h) in
      let none_left : length u ≡ 0 = ap length parts.0 in omega (arith, first, none_left);
})
helper-Ends re (c ∷ str) id =
    let rest = helper-Ends (drv re c) str (id + 1) in
    let result = if null_check re then id else 0 in
    let tmp = search_helper (drv re c) str (id + 1) in
    let most = greater-of result tmp in
    subst (Ends re (c ∷ str) id) (sym (helper-cons re c str id)) (record {
      attained =
          if_both
            (λ tail.
              (tail ≡ 0)
              ⊎ ((u : List ℕ) × (v : List ℕ) × (c ∷ str ≡ u ++ v)
                  × InLanguage re u
                  × (tail ≡ id + length u)))
            (ltb result tmp)
            (elim rest.attained [
              | inl e ↦ inl e
              | inr k ↦
                  inr (c ∷ k.0, k.1, ap (λ w. c ∷ w) k.2, drv_sound re c k.0 k.3, k.4 ∙ omega arith)
            ])
            (empty-attained re (c ∷ str) id);
      greatest = λ u v e h. elim (cons-append c str u v e) [
        | inl p ↦
            (let first = empty-first re id (subst (InLanguage re) p.0 h) in
              let none_left : length u ≡ 0 = ap length p.0 in omega (arith, first, none_left, most))
        | inr p ↦
            (let more =
                rest.greatest p.0 v p.2 (drv_complete re c p.0 (subst (InLanguage re) p.1 h)) in
              let longer : length u ≡ suc (length p.0) = ap length p.1 in
              omega (arith, more, longer, most))
      ];
    })
