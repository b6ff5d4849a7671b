-- ===== src/Cache/Lru/Inclusion.antt =====
-- Sets with fewer lines hold the first tags of sets with more lines.
use code_snippet.Prelude.{
  ℕ, zero, suc, ◌+◌, ◌<◌, ◌≤◌, ◌≡◌, refl, ◌∙◌, ap, arith, true, false, ◌==◌, ltb, if◌then◌else◌,
  List, [], ◌∷◌, length, take, Bool-cases, inl, inr, update,
}
use code_snippet.Cache.{TraceResult, CacheArgs, Access, extract_set_bits, extract_tag_bits}
use code_snippet.Cache.Lru.{
  member, without, drop_last, lru_tags, lru_count, lru_extra, lru_step, lru_trace,
}

-- The tags of a set without a bound.
abbrev recent : ℕ → List ℕ → List ℕ
recent t all = t ∷ without t all

member-take :
    (c d t : ℕ) (all : List ℕ) → c ≤ d → member t (take c all) ≡ true → member t (take d all) ≡ true
unfolding member
member-take zero d t all l m = absurd (ground (arith, m))
member-take (suc c) zero t all l m = absurd (omega (arith, l))
member-take (suc c) (suc d) t [] l m = m
member-take (suc c) (suc d) t (u ∷ us) l m = elim (Bool-cases (u == t)) [
  | inl e ↦ rw e refl
  | inr e ↦ (let rest = member-take c d t us (omega (arith, l)) (rw e at m) in rw (e, rest) refl)
]

without-hit :
    (n t : ℕ) (all : List ℕ)
    → member t (take (suc n) all) ≡ true
    → without t (take (suc n) all) ≡ take n (without t all)
unfolding member without
without-hit n t [] m = absurd (ground (arith, m))
without-hit zero t (u ∷ us) m = elim (Bool-cases (u == t)) [
  | inl e ↦ rw e refl
  | inr e ↦ absurd (ground (arith, m, e))
]
without-hit (suc n) t (u ∷ us) m = elim (Bool-cases (u == t)) [
  | inl e ↦ rw e refl
  | inr e ↦ rw e (ap (λ (l : List ℕ). u ∷ l) (without-hit n t us (rw e at m)))
]

without-short :
    (n t : ℕ) (all : List ℕ)
    → member t (take (suc n) all) ≡ false
    → length (take (suc n) all) < suc n
    → take (suc n) all ≡ take n (without t all)
unfolding member without
without-short zero t [] m l = refl
without-short (suc n) t [] m l = refl
without-short zero t (u ∷ us) m l = absurd (omega (arith, l))
without-short (suc n) t (u ∷ us) m l = elim (Bool-cases (u == t)) [
  | inl e ↦ absurd (ground (arith, m, e))
  | inr e ↦ rw e (ap (λ (k : List ℕ). u ∷ k) (without-short n t us (rw e at m) (omega (arith, l))))
]

without-full :
    (n t : ℕ) (all : List ℕ)
    → member t (take (suc n) all) ≡ false
    → suc n ≤ length (take (suc n) all)
    → drop_last (take (suc n) all) ≡ take n (without t all)
unfolding member without drop_last
without-full n t [] m l = absurd (omega (arith, l))
without-full zero t (u ∷ us) m l = refl
without-full (suc n) t (u ∷ []) m l = absurd (omega (arith, l))
without-full (suc n) t (u ∷ (w ∷ ws)) m l = elim (Bool-cases (u == t)) [
  | inl e ↦ absurd (ground (arith, m, e))
  | inr e ↦
      rw e (ap (λ (k : List ℕ). u ∷ k) (without-full n t (w ∷ ws) (rw e at m) (omega (arith, l))))
]

-- An access keeps the first `c` tags.
lru_tags-take :
    (n t : ℕ) (all : List ℕ) → lru_tags (suc n) t (take (suc n) all) ≡ take (suc n) (recent t all)
unfolding lru_tags
lru_tags-take n t all = elim (Bool-cases (member t (take (suc n) all))) [
  | inl m ↦ rw m (ap (λ (k : List ℕ). t ∷ k) (without-hit n t all m))
  | inr m ↦ elim (Bool-cases (ltb (length (take (suc n) all)) (suc n))) [
    | inl l ↦ rw (m, l) (ap (λ (k : List ℕ). t ∷ k) (without-short n t all m (ground (arith, l))))
    | inr l ↦ rw (m, l) (ap (λ (k : List ℕ). t ∷ k) (without-full n t all m (ground (arith, l))))
  ]
]

lru_count-hit :
    (c t : ℕ) (ts : List ℕ) (r : TraceResult)
    → (lru_count c t ts r).hit ≡ (if member t ts then r.hit + 1 else r.hit)
unfolding lru_count
lru_count-hit c t ts r = ground arith

-- More lines hit at least as often.
count-more :
    (c d t op : ℕ) (all : List ℕ) (r s : TraceResult)
    → c ≤ d
    → r.hit ≤ s.hit
    → (lru_extra op (lru_count c t (take c all) r)).hit
      ≤ (lru_extra op (lru_count d t (take d all) s)).hit
unfolding lru_extra
count-more c d t op all r s l h =
    let a = lru_count-hit c t (take c all) r in
    let b = lru_count-hit d t (take d all) s in
    elim (Bool-cases (member t (take c all))) [
      | inl m ↦ (let m' = member-take c d t all l m in ground (arith, a, b, m, m', h))
      | inr m ↦ ground (arith, a, b, m, h)
    ]

-- Two states of the specification, with `suc c` and with `suc d` lines in a set.
record More (c d : ℕ) (x y : (ℕ → List ℕ) × TraceResult) : Type 0 where
  pub all : ℕ → List ℕ
  pub small : (i : ℕ) → x.0 i ≡ take (suc c) (all i)
  pub big : (i : ℕ) → y.0 i ≡ take (suc d) (all i)
  pub hits : x.1.hit ≤ y.1.hit

update-take :
    (n t i : ℕ) (ts all : ℕ → List ℕ)
    → ((j : ℕ) → ts j ≡ take (suc n) (all j))
    → (j : ℕ)
    → update ts i (lru_tags (suc n) t (ts i)) j ≡ take (suc n) (update all i (recent t (all i)) j)
update-take n t i ts all same j = elim (Bool-cases (i == j)) [
  | inl e ↦ rw e (ap (λ k. lru_tags (suc n) t k) (same i) ∙ lru_tags-take n t (all i))
  | inr e ↦ rw e (same j)
]

lru_step-skip :
    (cap : ℕ) (args : CacheArgs) (a : Access) (s : (ℕ → List ℕ) × TraceResult)
    → (a.op == b'I') ≡ true
    → lru_step cap args a s ≡ s
unfolding lru_step
lru_step-skip cap args a s e = rw (lru_step, e) refl

lru_step-runs :
    (cap : ℕ) (args : CacheArgs) (a : Access) (s : (ℕ → List ℕ) × TraceResult)
    → (a.op == b'I') ≡ false
    → lru_step cap args a s ≡ (
      update s.0
          (extract_set_bits args a.addr)
          (lru_tags cap (extract_tag_bits args a.addr) (s.0 (extract_set_bits args a.addr))),
      lru_extra a.op
          (lru_count cap (extract_tag_bits args a.addr) (s.0 (extract_set_bits args a.addr)) s.1),
    )
unfolding lru_step
lru_step-runs cap args a s e = rw (lru_step, e) refl

lru_step-More :
    (c d : ℕ) (args : CacheArgs) (a : Access) (x y : (ℕ → List ℕ) × TraceResult)
    → c ≤ d
    → More c d x y
    → More c d (lru_step (suc c) args a x) (lru_step (suc d) args a y)
lru_step-More c d args a x y l m = elim (Bool-cases (a.op == b'I')) [
  | inl e ↦ rw (lru_step-skip (suc c) args a x e, lru_step-skip (suc d) args a y e) m
  | inr e ↦
      (let i = extract_set_bits args a.addr in
        let t = extract_tag_bits args a.addr in
        rw (lru_step-runs (suc c) args a x e, lru_step-runs (suc d) args a y e)
          (record {
            all = update m.all i (recent t (m.all i));
            small = update-take c t i x.0 m.all m.small;
            big = update-take d t i y.0 m.all m.big;
            hits =
                rw (m.small i, m.big i)
                  (count-more (suc c) (suc d) t a.op (m.all i) x.1 y.1 (omega (arith, l)) m.hits);
          }))
]

lru_trace-More :
    (c d : ℕ) (args : CacheArgs) (trace : List Access) (x y : (ℕ → List ℕ) × TraceResult)
    → c ≤ d
    → More c d x y
    → (lru_trace (suc c) args trace x).1.hit ≤ (lru_trace (suc d) args trace y).1.hit
unfolding lru_trace
lru_trace-More c d args [] x y l m = m.hits
lru_trace-More c d args (a ∷ rest) x y l m =
    lru_trace-More c d args rest (lru_step (suc c) args a x) (lru_step (suc d) args a y) l
      (lru_step-More c d args a x y l m)

-- The number of lines of a set is no part of how an address is read.
abbrev pub with_lines : ℕ → CacheArgs → CacheArgs
with_lines e args = record args { total_lines_per_set = e }

lru_trace-lines :
    (cap e : ℕ) (args : CacheArgs) (trace : List Access) (s : (ℕ → List ℕ) × TraceResult)
    → lru_trace cap (with_lines e args) trace s ≡ lru_trace cap args trace s
unfolding lru_trace lru_step extract_set_bits extract_tag_bits
lru_trace-lines cap e args [] s = refl
lru_trace-lines cap e args (a ∷ rest) s = lru_trace-lines cap e args rest (lru_step cap args a s)

pub lru_trace-hits :
    (c d : ℕ) (args : CacheArgs) (trace : List Access) (r : TraceResult)
    → 0 < c
    → c ≤ d
    → (lru_trace c (with_lines c args) trace ((λ i. []), r)).1.hit
      ≤ (lru_trace d (with_lines d args) trace ((λ i. []), r)).1.hit
lru_trace-hits zero d args trace r pos l = absurd (omega (arith, pos))
lru_trace-hits (suc c) zero args trace r pos l = absurd (omega (arith, l))
lru_trace-hits (suc c) (suc d) args trace r pos l =
    rw
      (
        lru_trace-lines (suc c) (suc c) args trace ((λ i. []), r),
        lru_trace-lines (suc d) (suc d) args trace ((λ i. []), r),
      )
      (lru_trace-More c d args trace ((λ i. []), r) ((λ i. []), r) (omega (arith, l))
        (record { all = λ i. []; small = λ i. refl; big = λ i. refl; hits = omega arith }))
