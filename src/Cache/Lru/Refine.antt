-- ===== src/Cache/Lru/Refine.antt =====
-- The access of C/CSAPPLab/cache/csim.c to one set implements the specification: one lemma for each of
-- its branches.
use code_snippet.Prelude.{
  ℕ, suc, ◌+◌, ◌≡◌, ◌≢◌, refl, ◌∙◌, sym, none, some, true, false, arith, List, [], ◌∷◌, ◌++◌,
  length, ap, NotIn, Distinct, Apart, NotIn-middle, NotIn-at, Distinct-middle, NotIn-left,
  NotIn-right, moved-Apart,
}
use mathlib.Core.Path.{subst}
use mathlib.Core.List.{append_assoc}
use code_snippet.Cache.{
  Heap, CacheSet, insert_cache_line_after, delete_cache_line, is_cache_lines_empty,
}
use code_snippet.Cache.Chain.{Run}
use code_snippet.Cache.Lru.{drop_last}
use code_snippet.Cache.Lru.Search.{tags_of}
use code_snippet.Cache.Lru.Moves.{
  chain, Chain, Relink, front_same, front_other, Run-outside, tail-Apart,
}

-- The lines `us` of a set are in use, in this order, and the lines `fs` are free.
pub record Holds (h : Heap) (set : CacheSet) (us fs : List ℕ) : Type 0 where
  pub used : Chain h set.lines_head_in_use us set.lines_tail_in_use
  pub free : Chain h set.lines_head_free fs set.lines_tail_free
  pub ends : (h set.lines_tail_free).next ≡ none
  pub used_once : Distinct (chain set.lines_head_in_use us set.lines_tail_in_use)
  pub free_once : Distinct (chain set.lines_head_free fs set.lines_tail_free)
  pub apart :
      Apart
        (chain set.lines_head_free fs set.lines_tail_free)
        (chain set.lines_head_in_use us set.lines_tail_in_use)

-- All nodes of a set.
abbrev pub nodes : CacheSet → List ℕ → List ℕ → List ℕ
nodes set us fs =
    chain set.lines_head_free fs set.lines_tail_free
    ++ chain set.lines_head_in_use us set.lines_tail_in_use

cong2 : {a b : ℕ} {us vs : List ℕ} → a ≡ b → us ≡ vs → (a ∷ us) ≡ (b ∷ vs)
cong2 {a} {b} {us} {vs} p q = ap (λ x. x ∷ us) p ∙ ap (λ l. b ∷ l) q

tags_of-same :
    (h h' : Heap) (d : ℕ) (zs : List ℕ)
    → ((j : ℕ) → j ≢ d → (h' j).tag ≡ (h j).tag)
    → NotIn d zs
    → tags_of h' zs ≡ tags_of h zs
tags_of-same h h' d [] same o = refl
tags_of-same h h' d (z ∷ zs) same o =
    cong2 (same z (λ e. o.0 (sym e))) (tags_of-same h h' d zs same o.1)

NotIn-append : (j : ℕ) (xs ys : List ℕ) → NotIn j xs → NotIn j ys → NotIn j (xs ++ ys)
NotIn-append j [] ys a b = b
NotIn-append j (x ∷ xs) ys a b = (a.0, NotIn-append j xs ys a.1 b)

Apart-left : (xs ys zs : List ℕ) → Apart (xs ++ ys) zs → Apart xs zs
Apart-left [] ys zs a = tt
Apart-left (x ∷ xs) ys zs a = (a.0, Apart-left xs ys zs a.1)

-- `d` goes to the front of its list.
NotIn-front :
    (j : ℕ) (xs : List ℕ) (d : ℕ) (ys : List ℕ)
    → NotIn j (xs ++ (d ∷ ys))
    → NotIn j (d ∷ (xs ++ ys))
NotIn-front j xs d ys o = (
  NotIn-at j xs d ys o,
  NotIn-append j xs ys (NotIn-left j xs (d ∷ ys) o) (NotIn-right j xs (d ∷ ys) o).1,
)

Distinct-front :
    (xs : List ℕ) (d : ℕ) (ys : List ℕ) → Distinct (xs ++ (d ∷ ys)) → Distinct (d ∷ (xs ++ ys))
Distinct-front xs d ys ds = (NotIn-middle d xs d ys ds, Distinct-middle xs d ys ds)

-- What is left of a chain when its inner node goes to the front.
record Shifted (p : ℕ) (xs : List ℕ) (d : ℕ) (ys : List ℕ) (b : ℕ) : Type 0 where
  pub outside :
      (j : ℕ) → NotIn j (chain p (xs ++ (d ∷ ys)) b) → NotIn j (chain p (d ∷ (xs ++ ys)) b)
  pub once : Distinct (chain p (d ∷ (xs ++ ys)) b)
  pub inner : NotIn d (xs ++ ys)

chain-Shifted :
    (p : ℕ) (xs : List ℕ) (d : ℕ) (ys : List ℕ) (b : ℕ)
    → Distinct (chain p (xs ++ (d ∷ ys)) b)
    → Shifted p xs d ys b
chain-Shifted p xs d ys b ds = record {
  outside = λ j o. (o.0, move j (subst (λ l. NotIn j l) e o.1));
  once = (move p (subst (λ l. NotIn p l) e ds.0), subst (λ l. Distinct (d ∷ l)) back all_once);
  inner = NotIn-left d (xs ++ ys) (b ∷ []) (subst (λ l. NotIn d l) back all_once.0);
}
  where
    e : ((xs ++ (d ∷ ys)) ++ (b ∷ [])) ≡ (xs ++ (d ∷ (ys ++ (b ∷ []))))
    e = append_assoc xs (d ∷ ys) (b ∷ [])

    back : (xs ++ (ys ++ (b ∷ []))) ≡ ((xs ++ ys) ++ (b ∷ []))
    back = sym (append_assoc xs ys (b ∷ []))

    all_once : Distinct (d ∷ (xs ++ (ys ++ (b ∷ []))))
    all_once = Distinct-front xs d (ys ++ (b ∷ [])) (subst (λ l. Distinct l) e ds.1)

    move : (j : ℕ) → NotIn j (xs ++ (d ∷ (ys ++ (b ∷ [])))) → NotIn j (d ∷ ((xs ++ ys) ++ (b ∷ [])))
    move j o = subst (λ l. NotIn j (d ∷ l)) back (NotIn-front j xs d (ys ++ (b ∷ [])) o)

-- What one access leaves of a set: its lines, the tags in use, and every line of the other sets.
pub record Served (h : Heap) (set : CacheSet) (us fs : List ℕ) (ts : List ℕ) (h' : Heap)
    (us' fs' : List ℕ) : Type 0 where
  pub holds : Holds h' set us' fs'
  pub tags : tags_of h' us' ≡ ts
  pub size : length us' + length fs' ≡ length us + length fs
  pub others : (j : ℕ) → NotIn j (nodes set us fs) → h' j ≡ h j
  pub outside : (j : ℕ) → NotIn j (nodes set us fs) → NotIn j (nodes set us' fs')

length-middle :
    (xs : List ℕ) (d : ℕ) (ys : List ℕ) → length (xs ++ (d ∷ ys)) ≡ suc (length (xs ++ ys))
length-middle [] d ys = refl
length-middle (x ∷ xs) d ys = ap suc (length-middle xs d ys)

Apart-outside :
    (xs ys zs : List ℕ) → ((j : ℕ) → NotIn j ys → NotIn j zs) → Apart xs ys → Apart xs zs
Apart-outside [] ys zs f a = tt
Apart-outside (x ∷ xs) ys zs f a = (f x a.0, Apart-outside xs ys zs f a.1)

-- A line in use goes to the front.
pub serve_same :
    (g : Heap → Heap) (h : Heap) (set : CacheSet) (xs : List ℕ) (d : ℕ) (ys fs : List ℕ) (t : ℕ)
    → Relink d g
    → ((k : Heap) → (k d).tag ≡ (h d).tag → (g k d).tag ≡ t)
    → Holds h set (xs ++ (d ∷ ys)) fs
    → (h1 : Heap) × (h' : Heap) × (delete_cache_line d h ≡ some h1)
      × (insert_cache_line_after d set.lines_head_in_use (g h1) ≡ some h')
      × Served h set (xs ++ (d ∷ ys)) fs (t ∷ tags_of h (xs ++ ys)) h' (d ∷ (xs ++ ys)) fs
serve_same g h set xs d ys fs t same tagged o =
    let p = set.lines_head_in_use in
    let b = set.lines_tail_in_use in
    let f = front_same g h p xs d ys b same o.used o.used_once in
    let w = chain-Shifted p xs d ys b o.used_once in
    let far = o.apart in
    (
      f.0,
      f.1,
      f.2,
      f.3,
      record {
        holds = record {
          used = f.4;
          free =
              Run-outside h f.1 set.lines_head_free (fs ++ (set.lines_tail_free ∷ []))
                (chain p (xs ++ (d ∷ ys)) b) f.5.others far o.free;
          ends =
              ap (λ l. l.next)
                (f.5.others set.lines_tail_free (
                  tail-Apart set.lines_head_free fs set.lines_tail_free (chain p (xs ++ (d ∷ ys)) b)
                    far))
              ∙ o.ends;
          used_once = w.once;
          free_once = o.free_once;
          apart =
              Apart-outside (chain set.lines_head_free fs set.lines_tail_free)
                (chain p (xs ++ (d ∷ ys)) b) (chain p (d ∷ (xs ++ ys)) b) w.outside far;
        };
        tags = cong2 (f.6 ∙ tagged f.0 f.7) (tags_of-same h f.1 d (xs ++ ys) f.5.tags w.inner);
        size = ground (arith, length-middle xs d ys);
        others = λ j n. f.5.others j (
            NotIn-right j (chain set.lines_head_free fs set.lines_tail_free)
              (chain p (xs ++ (d ∷ ys)) b) n);
        outside = λ j n.
            NotIn-append j (chain set.lines_head_free fs set.lines_tail_free)
              (chain p (d ∷ (xs ++ ys)) b)
              (NotIn-left j (chain set.lines_head_free fs set.lines_tail_free)
                (chain p (xs ++ (d ∷ ys)) b) n)
              (w.outside j (
                NotIn-right j (chain set.lines_head_free fs set.lines_tail_free)
                  (chain p (xs ++ (d ∷ ys)) b) n));
      },
    )

-- The first free line comes into use.
pub serve_other :
    (g : Heap → Heap) (h : Heap) (set : CacheSet) (us : List ℕ) (d : ℕ) (ys : List ℕ) (t : ℕ)
    → Relink d g
    → ((k : Heap) → (k d).tag ≡ (h d).tag → (g k d).tag ≡ t)
    → Holds h set us (d ∷ ys)
    → (h1 : Heap) × (h' : Heap) × (delete_cache_line d h ≡ some h1)
      × (insert_cache_line_after d set.lines_head_in_use (g h1) ≡ some h')
      × Served h set us (d ∷ ys) (t ∷ tags_of h us) h' (d ∷ us) ys
serve_other g h set us d ys t same tagged o =
    let q = set.lines_head_free in
    let c = set.lines_tail_free in
    let p = set.lines_head_in_use in
    let b = set.lines_tail_in_use in
    let f = front_other g h q d ys c p us b same o.free o.used o.free_once o.used_once o.apart in
    let m =
      moved-Apart q [] d (ys ++ (c ∷ [])) p (us ++ (b ∷ [])) o.free_once o.apart o.used_once in
    (
      f.0,
      f.1,
      f.2,
      f.3,
      record {
        holds = record {
          used = f.5;
          free = f.4;
          ends = f.9 ∙ o.ends;
          used_once = m.1;
          free_once = m.0;
          apart = m.2;
        };
        tags =
            cong2 (f.7 ∙ tagged f.0 f.8)
              (tags_of-same h f.1 d us f.6.tags (NotIn-left d us (b ∷ []) o.apart.1.0.1));
        size = ground arith;
        others = f.6.others;
        outside = λ j n.
            (let l = NotIn-left j (chain q (d ∷ ys) c) (chain p us b) n in
              let r = NotIn-right j (chain q (d ∷ ys) c) (chain p us b) n in
              NotIn-append j (chain q ys c) (chain p (d ∷ us) b) (l.0, l.1.1) (r.0, (l.1.0, r.1)));
      },
    )

pub id-Relink : (d : ℕ) → Relink d (λ h. h)
id-Relink d h = (λ j. refl, λ j. refl, λ j ne. refl)

-- An emptiness test.
pub empty-true :
    (h : Heap) (p b : ℕ)
    → Run h p (b ∷ [])
    → (h b).next ≡ none
    → is_cache_lines_empty p h ≡ some true
unfolding is_cache_lines_empty
empty-true h p b r e = ground (arith, r.0, e)

pub empty-false :
    (h : Heap) (p d : ℕ) (ys : List ℕ) (b : ℕ)
    → Chain h p (d ∷ ys) b
    → is_cache_lines_empty p h ≡ some false
unfolding is_cache_lines_empty
empty-false h p d [] b r = ground (arith, r.0, r.2.0)
empty-false h p d (y ∷ ys) b r = ground (arith, r.0, r.2.0)

-- The last line in use.
pub record Last (h : Heap) (us : List ℕ) : Type 0 where
  pub front : List ℕ
  pub node : ℕ
  pub split : us ≡ front ++ (node ∷ [])
  pub dropped : drop_last (tags_of h us) ≡ tags_of h (front ++ [])

pub end_of : (h : Heap) (u : ℕ) (us : List ℕ) → Last h (u ∷ us)
unfolding drop_last
end_of h u [] = record { front = []; node = u; split = refl; dropped = refl }
end_of h u (v ∷ us) =
    let l = end_of h v us in
    record {
      front = u ∷ l.front;
      node = l.node;
      split = ap (λ (k : List ℕ). u ∷ k) l.split;
      dropped = ap (λ (k : List ℕ). (h u).tag ∷ k) l.dropped;
    }

pub length-tags_of : (h : Heap) (us : List ℕ) → length (tags_of h us) ≡ length us
length-tags_of h [] = refl
length-tags_of h (u ∷ us) = ap suc (length-tags_of h us)
