-- ===== src/Cache/Lru/Search.antt =====
-- The search by tag of C/CSAPPLab/cache/csim.c on a chain of lines.
use code_snippet.Prelude.{
  ℕ, zero, suc, ◌<◌, ◌≡◌, refl, Option, none, some, true, false, ◌==◌, if◌then◌else◌, arith, List,
  [], ◌∷◌, ◌++◌, length, ap, NotIn, Bool-cases, inl, inr,
}
use code_snippet.Cache.{Heap, search_from}
use code_snippet.Cache.Chain.{Run}
use code_snippet.Cache.Lru.{member, without}

abbrev pub tags_of : Heap → List ℕ → List ℕ
tags_of h [] = []
tags_of h (x ∷ xs) = (h x).tag ∷ tags_of h xs

-- The first node with the tag.
unfoldable pub find : Heap → ℕ → List ℕ → Option ℕ
find h t [] = none
find h t (x ∷ xs) = if (h x).tag == t then some x else find h t xs

pub search_from-find :
    (fuel t tail p : ℕ) (h : Heap) (us : List ℕ)
    → Run h p (us ++ (tail ∷ []))
    → NotIn tail us
    → length us < fuel
    → search_from fuel t tail (h p).next h ≡ some (find h t us)
unfolding search_from find
search_from-find zero t tail p h us r o l = absurd (omega arith)
search_from-find (suc fuel) t tail p h [] r o l = ground (arith, r.0)
search_from-find (suc fuel) t tail p h (x ∷ us) r o l =
    ground (arith, r.0, o.0, search_from-find fuel t tail x h us r.2 o.1 (omega (arith, l)))

pub find-none :
    (h : Heap) (t : ℕ) (us : List ℕ) → find h t us ≡ none → member t (tags_of h us) ≡ false
unfolding find member
find-none h t [] e = refl
find-none h t (x ∷ us) e = ground (arith, e, find-none h t us)

-- Where the node that is found stands.
pub record Found (h : Heap) (t : ℕ) (us : List ℕ) (d : ℕ) : Type 0 where
  pub front : List ℕ
  pub back : List ℕ
  pub split : us ≡ front ++ (d ∷ back)
  pub tagged : (h d).tag ≡ t
  pub there : member t (tags_of h us) ≡ true
  pub others : without t (tags_of h us) ≡ tags_of h (front ++ back)

pub find-some : (h : Heap) (t : ℕ) (us : List ℕ) (d : ℕ) → find h t us ≡ some d → Found h t us d
unfolding find member without
find-some h t [] d e = absurd (ground (arith, e))
find-some h t (x ∷ us) d e = elim (Bool-cases ((h x).tag == t)) [
  | inl q ↦ record {
    front = [];
    back = us;
    split = ground (arith, e, q);
    tagged = ground (arith, e, q);
    there = ground (arith, q);
    others = ground (arith, q);
  }
  | inr q ↦
      (let f = find-some h t us d (rw q at e) in
        record {
          front = x ∷ f.front;
          back = f.back;
          split = ap (λ (l : List ℕ). x ∷ l) f.split;
          tagged = f.tagged;
          there = rw (q, f.there) refl;
          others = rw q (ap (λ (l : List ℕ). (h x).tag ∷ l) f.others);
        })
]
