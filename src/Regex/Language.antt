-- ===== src/Regex/Language.antt =====
-- The language of a regular expression of PL/Regex, and the derivative as an operation on it.
use code_snippet.Prelude.{
  ℕ, zero, suc, ◌≡◌, refl, sym, ap, arith, true, false, ◌==◌, ◌⊎◌, inl, inr, List, [], ◌∷◌, ◌++◌,
  Bool-cases,
}
use mathlib.Core.Path.{subst}
use code_snippet.Regex.{Regex, empty, null, char, alt, seq, rep, group, any, null_check, drv}

-- A concatenation of `n` words of a language.
unfoldable pub Power : (List ℕ → Type 0) → ℕ → List ℕ → Type 0
Power L zero s = s ≡ []
Power L (suc n) s = (u : List ℕ) × (v : List ℕ) × (s ≡ u ++ v) × L u × Power L n v

unfoldable pub InLanguage : Regex → List ℕ → Type 0
InLanguage empty s = ⊥
InLanguage null s = s ≡ []
InLanguage (char ch) s = (c : ℕ) × (s ≡ c ∷ []) × ((ch ≡ c) ⊎ (ch ≡ any))
InLanguage (alt left right) s = InLanguage left s ⊎ InLanguage right s
InLanguage (seq first last) s =
    (u : List ℕ) × (v : List ℕ) × (s ≡ u ++ v) × InLanguage first u × InLanguage last v
InLanguage (rep re) s = (n : ℕ) × Power (InLanguage re) n s
InLanguage (group re number) s = InLanguage re s

pub cons-append :
    (c : ℕ) (s u v : List ℕ)
    → c ∷ s ≡ u ++ v
    → ((u ≡ []) × (v ≡ c ∷ s)) ⊎ ((w : List ℕ) × (u ≡ c ∷ w) × (s ≡ w ++ v))
cons-append c s [] v e = inl (refl, sym e)
cons-append c s (x ∷ w) v e = inr (w, ground (arith, e), ground (arith, e))

pub nil-append : (u v : List ℕ) → [] ≡ u ++ v → (u ≡ []) × (v ≡ [])
nil-append [] v e = (refl, sym e)
nil-append (x ∷ u) v e = absurd (ground (arith, e))

-- The check is for the empty word.
pub null_check_sound : (re : Regex) → null_check re ≡ true → InLanguage re []
unfolding null_check InLanguage Power
null_check_sound empty e = absurd (ground (arith, e))
null_check_sound null e = refl
null_check_sound (char ch) e = absurd (ground (arith, e))
null_check_sound (alt left right) e = elim (Bool-cases (null_check left)) [
  | inl f ↦ inl (null_check_sound left f)
  | inr f ↦ inr (null_check_sound right (ground (arith, e, f)))
]
null_check_sound (seq first last) e = (
  [],
  [],
  refl,
  null_check_sound first (ground (arith, e)),
  null_check_sound last (ground (arith, e)),
)
null_check_sound (rep re) e = (0, refl)
null_check_sound (group re number) e = null_check_sound re e

pub null_check_complete : (re : Regex) → InLanguage re [] → null_check re ≡ true
unfolding null_check InLanguage Power
null_check_complete empty h = elim h [ ]
null_check_complete null h = refl
null_check_complete (char ch) h = let e = h.1 in absurd (ground (arith, e))
null_check_complete (alt left right) (inl h) =
    let e = null_check_complete left h in ground (arith, e)
null_check_complete (alt left right) (inr h) =
    let e = null_check_complete right h in ground (arith, e)
null_check_complete (seq first last) (u, v, e, f, l) =
    let parts = nil-append u v e in
    let first_null = null_check_complete first (subst (InLanguage first) parts.0 f) in
    let last_null = null_check_complete last (subst (InLanguage last) parts.1 l) in
    ground (arith, first_null, last_null)
null_check_complete (rep re) h = refl
null_check_complete (group re number) h = null_check_complete re h

drv-same : (ch c : ℕ) → (ch == c) ≡ true → drv (char ch) c ≡ null
unfolding drv
drv-same ch c e = rw e refl

drv-any : (ch c : ℕ) → (ch == any) ≡ true → drv (char ch) c ≡ null
unfolding drv
drv-any ch c e = elim (Bool-cases (ch == c)) [ inl f ↦ rw f refl | inr f ↦ rw (f, e) refl ]

drv-other : (ch c : ℕ) → (ch == c) ≡ false → (ch == any) ≡ false → drv (char ch) c ≡ empty
unfolding drv
drv-other ch c e f = rw (e, f) refl

drv-both :
    (first last : Regex) (c : ℕ)
    → null_check first ≡ true
    → drv (seq first last) c ≡ alt (seq (drv first c) last) (drv last c)
unfolding drv
drv-both first last c e = rw e refl

drv-first :
    (first last : Regex) (c : ℕ)
    → null_check first ≡ false
    → drv (seq first last) c ≡ seq (drv first c) last
unfolding drv
drv-first first last c e = rw e refl

char_sound : (ch c : ℕ) (s : List ℕ) → InLanguage (drv (char ch) c) s → InLanguage (char ch) (c ∷ s)
unfolding InLanguage
char_sound ch c s h = elim (Bool-cases (ch == c)) [
  | inl e ↦ (
    c,
    ap (λ w. c ∷ w) (subst (λ r. InLanguage r s) (drv-same ch c e) h),
    inl (ground (arith, e)),
  )
  | inr e ↦ elim (Bool-cases (ch == any)) [
    | inl f ↦ (
      c,
      ap (λ w. c ∷ w) (subst (λ r. InLanguage r s) (drv-any ch c f) h),
      inr (ground (arith, f)),
    )
    | inr f ↦ absurd (subst (λ r. InLanguage r s) (drv-other ch c e f) h)
  ]
]

char_complete :
    (ch c : ℕ) (s : List ℕ) → InLanguage (char ch) (c ∷ s) → InLanguage (drv (char ch) c) s
unfolding InLanguage
char_complete ch c s (x, e, inl p) =
    let same : (ch == c) ≡ true = ground (arith, e, p) in
    subst (λ r. InLanguage r s) (sym (drv-same ch c same)) (ground (arith, e))
char_complete ch c s (x, e, inr p) =
    let same : (ch == any) ≡ true = ground (arith, p) in
    subst (λ r. InLanguage r s) (sym (drv-any ch c same)) (ground (arith, e))

seq-first :
    (first last : Regex) (c : ℕ) (s : List ℕ)
    → ((u : List ℕ) → InLanguage (drv first c) u → InLanguage first (c ∷ u))
    → InLanguage (seq (drv first c) last) s
    → InLanguage (seq first last) (c ∷ s)
unfolding InLanguage
seq-first first last c s more k = (c ∷ k.0, k.1, ap (λ w. c ∷ w) k.2, more k.0 k.3, k.4)

seq_sound :
    (first last : Regex) (c : ℕ) (s : List ℕ)
    → ((u : List ℕ) → InLanguage (drv first c) u → InLanguage first (c ∷ u))
    → (InLanguage (drv last c) s → InLanguage last (c ∷ s))
    → null_check first ≡ true
    → InLanguage (alt (seq (drv first c) last) (drv last c)) s
    → InLanguage (seq first last) (c ∷ s)
unfolding InLanguage
seq_sound first last c s more less e (inl k) = seq-first first last c s more k
seq_sound first last c s more less e (inr k) = ([], c ∷ s, refl, null_check_sound first e, less k)

seq_complete :
    (first last : Regex) (c : ℕ) (s : List ℕ)
    → ((u : List ℕ) → InLanguage first (c ∷ u) → InLanguage (drv first c) u)
    → (InLanguage last (c ∷ s) → InLanguage (drv last c) s)
    → InLanguage (seq first last) (c ∷ s)
    → InLanguage (drv (seq first last) c) s
unfolding InLanguage
seq_complete first last c s more less (u, v, e, f, l) =
    sides (cons-append c s u v e) (Bool-cases (null_check first))
  where
    sides :
        ((u ≡ []) × (v ≡ c ∷ s)) ⊎ ((w : List ℕ) × (u ≡ c ∷ w) × (s ≡ w ++ v))
        → (null_check first ≡ true) ⊎ (null_check first ≡ false)
        → InLanguage (drv (seq first last) c) s
    sides (inl p) (inl n) =
        subst (λ r. InLanguage r s) (sym (drv-both first last c n))
          (inr (less (subst (InLanguage last) p.1 l)))
    sides (inl p) (inr n) =
        let full = null_check_complete first (subst (InLanguage first) p.0 f) in
        absurd (ground (arith, full, n))
    sides (inr p) (inl n) =
        subst (λ r. InLanguage r s) (sym (drv-both first last c n))
          (inl (p.0, v, p.2, more p.0 (subst (InLanguage first) p.1 f), l))
    sides (inr p) (inr n) =
        subst (λ r. InLanguage r s) (sym (drv-first first last c n))
          (p.0, v, p.2, more p.0 (subst (InLanguage first) p.1 f), l)

rep_complete :
    (re : Regex) (c : ℕ) (n : ℕ) (s : List ℕ)
    → ((u : List ℕ) → InLanguage re (c ∷ u) → InLanguage (drv re c) u)
    → Power (InLanguage re) n (c ∷ s)
    → InLanguage (seq (drv re c) (rep re)) s
unfolding InLanguage Power
rep_complete re c zero s more e = absurd (ground (arith, e))
rep_complete re c (suc n) s more p = elim (cons-append c s p.0 p.1 p.2) [
  | inl q ↦ rep_complete re c n s more (subst (Power (InLanguage re) n) q.1 p.4)
  | inr q ↦ (q.0, p.1, q.2, more q.0 (subst (InLanguage re) q.1 p.3), (n, p.4))
]

-- A word with its first character is in the language if the rest is in the derivative.
pub drv_sound : (re : Regex) (c : ℕ) (s : List ℕ) → InLanguage (drv re c) s → InLanguage re (c ∷ s)
unfolding drv InLanguage Power
drv_sound empty c s h = elim h [ ]
drv_sound null c s h = elim h [ ]
drv_sound (char ch) c s h = char_sound ch c s h
drv_sound (alt left right) c s (inl h) = inl (drv_sound left c s h)
drv_sound (alt left right) c s (inr h) = inr (drv_sound right c s h)
drv_sound (seq first last) c s h = elim (Bool-cases (null_check first)) [
  | inl e ↦
      seq_sound first last c s (drv_sound first c) (drv_sound last c s) e
        (subst (λ r. InLanguage r s) (drv-both first last c e) h)
  | inr e ↦
      seq-first first last c s (drv_sound first c)
        (subst (λ r. InLanguage r s) (drv-first first last c e) h)
]
drv_sound (rep re) c s h =
    (suc h.4.0, (c ∷ h.0, h.1, ap (λ w. c ∷ w) h.2, drv_sound re c h.0 h.3, h.4.1))
drv_sound (group re number) c s h = drv_sound re c s h

pub drv_complete :
    (re : Regex) (c : ℕ) (s : List ℕ) → InLanguage re (c ∷ s) → InLanguage (drv re c) s
unfolding drv InLanguage Power
drv_complete empty c s h = elim h [ ]
drv_complete null c s h = absurd (ground (arith, h))
drv_complete (char ch) c s h = char_complete ch c s h
drv_complete (alt left right) c s (inl h) = inl (drv_complete left c s h)
drv_complete (alt left right) c s (inr h) = inr (drv_complete right c s h)
drv_complete (seq first last) c s h =
    seq_complete first last c s (drv_complete first c) (drv_complete last c s) h
drv_complete (rep re) c s h = rep_complete re c h.0 s (drv_complete re c) h.1
drv_complete (group re number) c s h = drv_complete re c s h
