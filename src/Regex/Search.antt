-- ===== src/Regex/Search.antt =====
-- The search of PL/Regex/DerivativeEngine.hpp.
use code_snippet.Prelude.{
  ℕ, ◌+◌, ◌-◌, ◌≤◌, ◌<◌, ◌≡◌, ◌≢◌, refl, ◌∙◌, sym, ap, arith, true, false, ◌⊎◌, inl, inr, List, [],
  ◌∷◌, ◌++◌, length, take, Bool-cases, ltb, ltb→lt,
}
use mathlib.Core.Path.{subst}
use code_snippet.Regex.{Regex, search_helper, search_from, search}
use code_snippet.Regex.Language.{InLanguage, cons-append}
use code_snippet.Regex.Engine.{helper-Ends}

search_from-found :
    (re : Regex) (c : ℕ) (str : List ℕ) (i : ℕ)
    → ltb i (search_helper re (c ∷ str) i) ≡ true
    → search_from re (c ∷ str) i ≡ take (search_helper re (c ∷ str) i - i) (c ∷ str)
unfolding search_from
search_from-found re c str i e = rw e refl

search_from-goes :
    (re : Regex) (c : ℕ) (str : List ℕ) (i : ℕ)
    → ltb i (search_helper re (c ∷ str) i) ≡ false
    → search_from re (c ∷ str) i ≡ search_from re str (i + 1)
unfolding search_from
search_from-goes re c str i e = rw e refl

take-append : (u v : List ℕ) → take (length u) (u ++ v) ≡ u
take-append [] v = refl
take-append (x ∷ u) v = ap (λ w. x ∷ w) (take-append u v)

nonempty : (w : List ℕ) → w ≢ [] → 0 < length w
nonempty [] h = absurd (h refl)
nonempty (x ∷ w) h = omega arith

-- What was found, at the place after `before`: a word of the language, which begins before the other word or
-- at the same place and is then not shorter.
pub record Found (re : Regex) (str a w found : List ℕ) : Type 0 where
  pub before : List ℕ
  pub after : List ℕ
  pub place : str ≡ before ++ (found ++ after)
  pub is_match : InLanguage re found
  pub first_longest :
      (length before < length a) ⊎ ((length before ≡ length a) × (length w ≤ length found))

-- The helper found an end behind its position.
here-Found :
    (re : Regex) (c : ℕ) (str : List ℕ) (i : ℕ) (a w b : List ℕ)
    → ltb i (search_helper re (c ∷ str) i) ≡ true
    → c ∷ str ≡ a ++ (w ++ b)
    → InLanguage re w
    → Found re (c ∷ str) a w (search_from re (c ∷ str) i)
here-Found re c str i a w b e place h =
    taken (helper-Ends re (c ∷ str) i).attained (helper-Ends re (c ∷ str) i).greatest
  where
    behind : i < search_helper re (c ∷ str) i
    behind = ltb→lt i (search_helper re (c ∷ str) i) e

    found :
        (u v : List ℕ)
        → c ∷ str ≡ u ++ v
        → search_helper re (c ∷ str) i ≡ i + length u
        → search_from re (c ∷ str) i ≡ u
    found u v p q =
        let size : search_helper re (c ∷ str) i - i ≡ length u = omega (arith, q) in
        search_from-found re c str i e
        ∙ ap (λ n. take n (c ∷ str)) size
        ∙ ap (take (length u)) p
        ∙ take-append u v

    order :
        (a1 u : List ℕ)
        → c ∷ str ≡ a1 ++ (w ++ b)
        → search_helper re (c ∷ str) i ≡ i + length u
        → ((u1 v1 : List ℕ)
            → c ∷ str ≡ u1 ++ v1
            → InLanguage re u1
            → i + length u1 ≤ search_helper re (c ∷ str) i)
        → (0 < length a1) ⊎ ((0 ≡ length a1) × (length w ≤ length u))
    order [] u p q most = let bound = most w b p h in inr (refl, omega (arith, bound, q))
    order (x ∷ a1) u p q most = inl (omega arith)

    taken :
        (search_helper re (c ∷ str) i ≡ 0)
          ⊎ ((u : List ℕ) × (v : List ℕ) × (c ∷ str ≡ u ++ v)
              × InLanguage re u
              × (search_helper re (c ∷ str) i ≡ i + length u))
        → ((u1 v1 : List ℕ)
            → c ∷ str ≡ u1 ++ v1
            → InLanguage re u1
            → i + length u1 ≤ search_helper re (c ∷ str) i)
        → Found re (c ∷ str) a w (search_from re (c ∷ str) i)
    taken (inl q) most = absurd (omega (arith, q, behind))
    taken (inr (u, v, p, k, q)) most =
        subst (Found re (c ∷ str) a w) (sym (found u v p q)) (record {
          before = [];
          after = v;
          place = p;
          is_match = k;
          first_longest = order a u place q most;
        })

further-Found :
    (re : Regex) (c : ℕ) (str a w found : List ℕ)
    → Found re str a w found
    → Found re (c ∷ str) (c ∷ a) w found
further-Found re c str a w found f = record {
  before = c ∷ f.before;
  after = f.after;
  place = ap (λ s. c ∷ s) f.place;
  is_match = f.is_match;
  first_longest = elim f.first_longest [
    | inl l ↦ inl (omega (arith, l))
    | inr p ↦ (let same = p.0 in inr (omega (arith, same), p.1))
  ];
}

search_from-Found :
    (re : Regex) (str : List ℕ) (i : ℕ) (a w b : List ℕ)
    → str ≡ a ++ (w ++ b)
    → w ≢ []
    → InLanguage re w
    → Found re str a w (search_from re str i)
search_from-Found re [] i a w b e ne h = absurd (none_in a w e ne)
  where
    none_in : (a w : List ℕ) → [] ≡ a ++ (w ++ b) → w ≢ [] → ⊥
    none_in [] [] e ne = ne refl
    none_in [] (x ∷ w) e ne = ground (arith, e)
    none_in (x ∷ a) w e ne = ground (arith, e)
search_from-Found re (c ∷ str) i a w b e ne h =
    elim (Bool-cases (ltb i (search_helper re (c ∷ str) i))) [
      | inl f ↦ here-Found re c str i a w b f e h
      | inr f ↦ subst (Found re (c ∷ str) a w) (sym (search_from-goes re c str i f)) (
          later (cons-append c str a (w ++ b) e) f
            (λ a1 p. search_from-Found re str (i + 1) a1 w b p ne h))
    ]
  where
    later :
        ((a ≡ []) × (w ++ b ≡ c ∷ str)) ⊎ ((a1 : List ℕ) × (a ≡ c ∷ a1) × (str ≡ a1 ++ (w ++ b)))
        → ltb i (search_helper re (c ∷ str) i) ≡ false
        → ((a1 : List ℕ) → str ≡ a1 ++ (w ++ b) → Found re str a1 w (search_from re str (i + 1)))
        → Found re (c ∷ str) a w (search_from re str (i + 1))
    later (inl p) f rest =
        let bound = (helper-Ends re (c ∷ str) i).greatest w b (sym p.1) h in
        let size = nonempty w ne in absurd (ground (arith, f, bound, size))
    later (inr p) f rest =
        subst (λ k. Found re (c ∷ str) k w (search_from re str (i + 1))) (sym p.1)
          (further-Found re c str p.0 w (search_from re str (i + 1)) (rest p.0 p.2))

-- If the string has a word `w` of the language that is not empty, behind `a`, the search returns a word of
-- the language from the string that begins before `w`, or at the same place and is then not shorter.
pub search_first_longest :
    (re : Regex) (str a w b : List ℕ)
    → str ≡ a ++ (w ++ b)
    → w ≢ []
    → InLanguage re w
    → (before : List ℕ) × (after : List ℕ) × (str ≡ before ++ (search re str ++ after))
      × InLanguage re (search re str)
      × ((length before < length a)
          ⊎ ((length before ≡ length a) × (length w ≤ length (search re str))))
unfolding search
search_first_longest re str a w b e ne h =
    let f = search_from-Found re str 0 a w b e ne h in
    (f.before, f.after, f.place, f.is_match, f.first_longest)
