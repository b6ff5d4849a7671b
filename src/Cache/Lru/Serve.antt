-- ===== src/Cache/Lru/Serve.antt =====
-- Each access of C/CSAPPLab/cache/csim.c to one set is the access of the specification.
use code_snippet.Prelude.{
  ℕ, ◌+◌, ◌<◌, ◌≡◌, refl, ◌∙◌, sym, Option, none, some, true, false, ltb, lt→ltb, arith, List, [],
  ◌∷◌, ◌++◌, length, NotIn, Distinct, NotIn-at, ◌⊎◌, inl, inr,
}
use mathlib.Core.Path.{subst}
use code_snippet.Cache.{
  Heap, CacheSet, TraceResult, insert_cache_line_after, delete_cache_line, set_tag,
  search_cache_line_by_tag, is_cache_lines_empty, recycle, on_hit, on_miss, access,
}
use code_snippet.Cache.Lru.{member, lru_tags, lru_count}
use code_snippet.Cache.Lru.Search.{tags_of, find, search_from-find, find-none, find-some, Found}
use code_snippet.Cache.Lru.Moves.{Chain, set_tag-SameAll}
use code_snippet.Cache.Lru.Refine.{
  Holds, Served, serve_same, serve_other, id-Relink, empty-true, empty-false, end_of,
  length-tags_of,
}

eq→ltb : (a b : ℕ) → a ≡ b → ltb a b ≡ false
eq→ltb a b e = ground (arith, e)

recycle-some :
    (d t p : ℕ) (h h1 h' : Heap)
    → delete_cache_line d h ≡ some h1
    → insert_cache_line_after d p (set_tag d t h1) ≡ some h'
    → recycle (some d) t p h ≡ some h'
unfolding recycle
recycle-some d t p h h1 h' a b = rw (recycle, a) b

on_hit-some :
    (d : ℕ) (set : CacheSet) (h h1 h' : Heap)
    → delete_cache_line d h ≡ some h1
    → insert_cache_line_after d set.lines_head_in_use h1 ≡ some h'
    → on_hit set d h ≡ some h'
unfolding on_hit
on_hit-some d set h h1 h' a b = rw (on_hit, a) b

set_tag-tag : (d t : ℕ) (k : Heap) → (set_tag d t k d).tag ≡ t
set_tag-tag d t k = ground arith

-- A miss while a line is free.
on_miss-free :
    (set : CacheSet) (t d : ℕ) (r : TraceResult) (h h' : Heap)
    → is_cache_lines_empty set.lines_head_free h ≡ some false
    → (h set.lines_head_free).next ≡ some d
    → recycle (some d) t set.lines_head_in_use h ≡ some h'
    → on_miss set t r h ≡ some (h', record r { miss = r.miss + 1 })
unfolding on_miss
on_miss-free set t d r h h' a b c = rw (on_miss, a, b, c) refl

on_miss-full :
    (set : CacheSet) (t d : ℕ) (r : TraceResult) (h h' : Heap)
    → is_cache_lines_empty set.lines_head_free h ≡ some true
    → (h set.lines_tail_in_use).prev ≡ some d
    → recycle (some d) t set.lines_head_in_use h ≡ some h'
    → on_miss set t r h ≡ some (h', record r { miss = r.miss + 1; eviction = r.eviction + 1 })
unfolding on_miss
on_miss-full set t d r h h' a b c = rw (on_miss, a, b, c) refl

access-hit :
    (fuel : ℕ) (set : CacheSet) (t d : ℕ) (r : TraceResult) (h h' : Heap)
    → search_cache_line_by_tag fuel t set.lines_head_in_use set.lines_tail_in_use h ≡ some (some d)
    → on_hit set d h ≡ some h'
    → access fuel set t r h ≡ some (h', record r { hit = r.hit + 1 })
unfolding access
access-hit fuel set t d r h h' a b = rw (access, a, b) refl

access-miss :
    (fuel : ℕ) (set : CacheSet) (t : ℕ) (r : TraceResult) (h : Heap)
    → search_cache_line_by_tag fuel t set.lines_head_in_use set.lines_tail_in_use h ≡ some none
    → access fuel set t r h ≡ on_miss set t r h
unfolding access
access-miss fuel set t r h a = rw (access, a) refl

search-find :
    (fuel t : ℕ) (set : CacheSet) (h : Heap) (us fs : List ℕ)
    → Holds h set us fs
    → length us < fuel
    → search_cache_line_by_tag fuel t set.lines_head_in_use set.lines_tail_in_use h
      ≡ some (find h t us)
unfolding search_cache_line_by_tag
search-find fuel t set h us fs o l =
    search_from-find fuel t set.lines_tail_in_use set.lines_head_in_use h us o.used
      (out us o.used_once.1) l
  where
    out :
        (zs : List ℕ)
        → Distinct (zs ++ (set.lines_tail_in_use ∷ []))
        → NotIn set.lines_tail_in_use zs
    out [] ds = tt
    out (z ∷ zs) ds = (λ e. NotIn-at z zs set.lines_tail_in_use [] ds.0 (sym e), out zs ds.1)

found-cases : (o : Option ℕ) → (o ≡ none) ⊎ ((d : ℕ) × (o ≡ some d))
found-cases none = inl refl
found-cases (some d) = inr (d, refl)

-- The outcome of an access: what it returns, and the set after it.
pub record Outcome (cap fuel t : ℕ) (set : CacheSet) (r : TraceResult) (h : Heap) (us fs : List ℕ)
    : Type 0 where
  pub heap : Heap
  pub used : List ℕ
  pub free : List ℕ
  pub ran : access fuel set t r h ≡ some (heap, lru_count cap t (tags_of h us) r)
  pub served : Served h set us fs (lru_tags cap t (tags_of h us)) heap used free

serve_hit :
    (cap fuel t : ℕ) (set : CacheSet) (r : TraceResult) (h : Heap) (us fs : List ℕ) (d : ℕ)
    → Holds h set us fs
    → search_cache_line_by_tag fuel t set.lines_head_in_use set.lines_tail_in_use h ≡ some (some d)
    → Found h t us d
    → Outcome cap fuel t set r h us fs
unfolding lru_tags lru_count
serve_hit cap fuel t set r h us fs d o s f =
    let k =
      serve_same (λ g. g) h set f.front d f.back fs t (id-Relink d) (λ g e. e ∙ f.tagged)
        (subst (λ l. Holds h set l fs) f.split o) in
    record {
      heap = k.1;
      used = d ∷ (f.front ++ f.back);
      free = fs;
      ran = rw f.there (access-hit fuel set t d r h k.1 s (on_hit-some d set h k.0 k.1 k.2 k.3));
      served =
          rw (f.there, f.others)
            (subst
              (λ l.
                Served h set l fs (t ∷ tags_of h (f.front ++ f.back)) k.1 (d ∷ (f.front ++ f.back))
                  fs)
              (sym f.split) k.4);
    }

last-prev :
    (h : Heap) (p : ℕ) (xs : List ℕ) (d b : ℕ) → Chain h p (xs ++ (d ∷ [])) b → (h b).prev ≡ some d
last-prev h p [] d b r = r.2.1
last-prev h p (x ∷ xs) d b r = last-prev h x xs d b r.2

serve_free :
    (cap fuel t : ℕ) (set : CacheSet) (r : TraceResult) (h : Heap) (us : List ℕ) (d : ℕ)
    (ys : List ℕ)
    → Holds h set us (d ∷ ys)
    → length us + length (d ∷ ys) ≡ cap
    → search_cache_line_by_tag fuel t set.lines_head_in_use set.lines_tail_in_use h ≡ some none
    → member t (tags_of h us) ≡ false
    → Outcome cap fuel t set r h us (d ∷ ys)
unfolding lru_tags lru_count
serve_free cap fuel t set r h us d ys o size s m =
    let k =
      serve_other (set_tag d t) h set us d ys t (set_tag-SameAll d t) (λ g e. set_tag-tag d t g)
        o in
    let room : ltb (length (tags_of h us)) cap ≡ true =
      lt→ltb (length (tags_of h us)) cap (omega (arith, size, length-tags_of h us)) in
    let ran =
      on_miss-free set t d r h k.1
        (empty-false h set.lines_head_free d ys set.lines_tail_free o.free) o.free.0
        (recycle-some d t set.lines_head_in_use h k.0 k.1 k.2 k.3) in
    record {
      heap = k.1;
      used = d ∷ us;
      free = ys;
      ran = rw (m, room) (access-miss fuel set t r h s ∙ ran);
      served = rw (m, room) k.4;
    }

serve_full :
    (cap fuel t : ℕ) (set : CacheSet) (r : TraceResult) (h : Heap) (u : ℕ) (us : List ℕ)
    → Holds h set (u ∷ us) []
    → length (u ∷ us) ≡ cap
    → search_cache_line_by_tag fuel t set.lines_head_in_use set.lines_tail_in_use h ≡ some none
    → member t (tags_of h (u ∷ us)) ≡ false
    → Outcome cap fuel t set r h (u ∷ us) []
unfolding lru_tags lru_count
serve_full cap fuel t set r h u us o size s m =
    let l = end_of h u us in
    let o2 = subst (λ k. Holds h set k []) l.split o in
    let d = l.node in
    let k =
      serve_same (set_tag d t) h set l.front d [] [] t (set_tag-SameAll d t)
        (λ g e. set_tag-tag d t g) o2 in
    let room : ltb (length (tags_of h (u ∷ us))) cap ≡ false =
      eq→ltb (length (tags_of h (u ∷ us))) cap (length-tags_of h (u ∷ us) ∙ size) in
    let back : (h set.lines_tail_in_use).prev ≡ some d =
      last-prev h set.lines_head_in_use l.front d set.lines_tail_in_use o2.used in
    let ran =
      on_miss-full set t d r h k.1
        (empty-true h set.lines_head_free set.lines_tail_free o.free o.ends) back
        (recycle-some d t set.lines_head_in_use h k.0 k.1 k.2 k.3) in
    record {
      heap = k.1;
      used = d ∷ (l.front ++ []);
      free = [];
      ran = rw (m, room) (access-miss fuel set t r h s ∙ ran);
      served =
          rw (m, room, l.dropped)
            (subst
              (λ z. Served h set z [] (t ∷ tags_of h (l.front ++ [])) k.1 (d ∷ (l.front ++ [])) [])
              (sym l.split) k.4);
    }

pub outcome :
    (cap fuel t : ℕ) (set : CacheSet) (r : TraceResult) (h : Heap) (us fs : List ℕ)
    → Holds h set us fs
    → length us + length fs ≡ cap
    → 0 < cap
    → cap < fuel
    → Outcome cap fuel t set r h us fs
outcome cap fuel t set r h us fs o size pos enough =
    let s = search-find fuel t set h us fs o (omega (arith, size, enough)) in
    elim (found-cases (find h t us)) [
      | inl e ↦ missed us fs o size (rw e at s) (find-none h t us e)
      | inr q ↦ serve_hit cap fuel t set r h us fs q.0 o (rw q.1 at s) (find-some h t us q.0 q.1)
    ]
  where
    missed :
        (us fs : List ℕ)
        → Holds h set us fs
        → length us + length fs ≡ cap
        → search_cache_line_by_tag fuel t set.lines_head_in_use set.lines_tail_in_use h ≡ some none
        → member t (tags_of h us) ≡ false
        → Outcome cap fuel t set r h us fs
    missed us (d ∷ ys) o size s m = serve_free cap fuel t set r h us d ys o size s m
    missed (u ∷ us) [] o size s m = serve_full cap fuel t set r h u us o (omega (arith, size)) s m
    missed [] [] o size s m = absurd (omega (arith, size, pos))

-- On a set whose `cap` lines hold `us` in use and `fs` free, with a line and with fuel for its lines, an
-- access succeeds, returns the counts of the specification, and the lines in use hold its tags: a hit goes
-- to the front, a miss takes a free line, and the least recently used one when none is free.
pub access-lru_tags :
    (cap fuel t : ℕ) (set : CacheSet) (r : TraceResult) (h : Heap) (us fs : List ℕ)
    → Holds h set us fs
    → length us + length fs ≡ cap
    → 0 < cap
    → cap < fuel
    → (h' : Heap) × (us' : List ℕ) × (fs' : List ℕ) × (access fuel set t r h
        ≡ some (h', lru_count cap t (tags_of h us) r))
      × Holds h' set us' fs'
      × (tags_of h' us' ≡ lru_tags cap t (tags_of h us))
      × (length us' + length fs' ≡ cap)
access-lru_tags cap fuel t set r h us fs o size pos enough =
    let k = outcome cap fuel t set r h us fs o size pos enough in
    (k.heap, k.used, k.free, k.ran, k.served.holds, k.served.tags, k.served.size ∙ size)
