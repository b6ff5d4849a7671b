-- ===== src/Cache/Init/Fresh.antt =====
-- The sets that `init_cache_set` of C/CSAPPLab/cache/csim.c builds, when every call of malloc(3) succeeds
-- and no two calls return the same line.
use code_snippet.Prelude.{
  ℕ, zero, suc, ◌+◌, ◌≤◌, ◌<◌, ◌≡◌, ◌≢◌, refl, ◌∙◌, sym, Option, none, some, arith, List, [], ◌∷◌,
  ◌++◌, length, NotIn, NotIn-left, NotIn-right, Apart, Apart-sym, Apart-cons, All, NotIn-at, ◌⊎◌,
  inl, inr,
}
use mathlib.Core.Path.{subst}
use code_snippet.Cache.{Heap, CacheSet, insert_cache_line_after, set_next, set_prev}
use code_snippet.Cache.Init.{init_lines_head_tail, new_free_lines, init_one_set}
use code_snippet.Cache.Lru.Moves.{chain, Run-outside, insert-Chain}
use code_snippet.Cache.Lru.Refine.{Holds, nodes}

-- The addresses that the calls from `lo` up to `hi` return.
abbrev pub Among : (ℕ → ℕ) → ℕ → ℕ → List ℕ → Type 0
Among addr lo hi xs = All (λ x. (j : ℕ) × (lo ≤ j) × (j < hi) × (x ≡ addr j)) xs

module _ (addr : ℕ → ℕ) (once : (j k : ℕ) → j ≢ k → addr j ≢ addr k) where
  Among-NotIn :
      (lo hi n : ℕ) (xs : List ℕ) → Among addr lo hi xs → (n < lo) ⊎ (hi ≤ n) → NotIn (addr n) xs
  Among-NotIn lo hi n [] a o = tt
  Among-NotIn lo hi n (x ∷ xs) a o = (
    λ e. once n a.0.0 (ground (arith, a.0.1, a.0.2, o)) (e ∙ a.0.3),
    Among-NotIn lo hi n xs a.1 o,
  )

  pub Among-Apart :
      (lo mid hi : ℕ) (xs ys : List ℕ) → Among addr lo mid xs → Among addr mid hi ys → Apart xs ys
  Among-Apart lo mid hi [] ys a b = tt
  Among-Apart lo mid hi (x ∷ xs) ys a b = (
    subst (λ k. NotIn k ys) (sym a.0.3) (Among-NotIn mid hi a.0.0 ys b (inl a.0.2)),
    Among-Apart lo mid hi xs ys a.1 b,
  )

  pub Among-wider :
      (lo hi lo' hi' : ℕ) (xs : List ℕ)
      → lo' ≤ lo
      → hi ≤ hi'
      → Among addr lo hi xs
      → Among addr lo' hi' xs
  Among-wider lo hi lo' hi' [] p q a = tt
  Among-wider lo hi lo' hi' (x ∷ xs) p q a = (
    (a.0.0, omega (arith, p, a.0.1), omega (arith, q, a.0.2), a.0.3),
    Among-wider lo hi lo' hi' xs p q a.1,
  )

-- A new line becomes the first free one.
insert-Holds :
    (h : Heap) (set : CacheSet) (p : ℕ) (us fs : List ℕ)
    → Holds h set us fs
    → NotIn p (nodes set us fs)
    → (h' : Heap) × (insert_cache_line_after p set.lines_head_free h ≡ some h')
      × Holds h' set us (p ∷ fs)
      × ((j : ℕ) → NotIn j (nodes set us (p ∷ fs)) → h' j ≡ h j)
insert-Holds h set p us fs o out =
    let hf = set.lines_head_free in
    let tf = set.lines_tail_free in
    let cu = chain set.lines_head_in_use us set.lines_tail_in_use in
    let pf = NotIn-left p (chain hf fs tf) cu out in
    let pu = NotIn-right p (chain hf fs tf) cu out in
    let i = insert-Chain h p hf fs tf o.free pf o.free_once in
    (
      i.0,
      i.1,
      record {
        used =
            Run-outside h i.0 set.lines_head_in_use (us ++ (set.lines_tail_in_use ∷ []))
              (p ∷ chain hf fs tf) i.3.others
              (Apart-cons p (chain hf fs tf) cu pu (Apart-sym (chain hf fs tf) cu o.apart)) o.used;
        free = i.2;
        ends =
            i.3.nexts tf (
              (λ e. NotIn-at p fs tf [] pf.1 (sym e)),
              ((λ e. NotIn-at hf fs tf [] o.free_once.0 (sym e)), tt),
            )
            ∙ o.ends;
        used_once = o.used_once;
        free_once = (((λ e. pf.0 (sym e)), o.free_once.0), (pf.1, o.free_once.1));
        apart = (o.apart.0, (pu, o.apart.1));
      },
      λ j n.
          (let l = NotIn-left j (chain hf (p ∷ fs) tf) cu n in i.3.others j (l.1.0, (l.0, l.1.1))),
    )

from_none : (k l : ℕ) → k ≡ 0 + l → k ≡ l
from_none k l e = omega (arith, e)

base-Holds :
    (h : Heap) (hf tf hu tu : ℕ)
    → hf ≢ tf
    → hf ≢ hu
    → hf ≢ tu
    → tf ≢ hu
    → tf ≢ tu
    → hu ≢ tu
    → let h1 = set_next hf (some tf) (set_prev hf none h) in
      let h2 = set_next tf none (set_prev tf (some hf) h1) in
      let h3 = set_next hu (some tu) (set_prev hu none h2) in
      let h4 = set_next tu none (set_prev tu (some hu) h3) in
      Holds h4
        (record {
          lines_head_in_use = hu;
          lines_tail_in_use = tu;
          lines_head_free = hf;
          lines_tail_free = tf;
        })
        []
        []
      × ((j : ℕ) → j ≢ hf → j ≢ tf → j ≢ hu → j ≢ tu → h4 j ≡ h j)
base-Holds h hf tf hu tu a b c d e f = (
  record {
    used = (ground (arith, a, b, c, d, e, f), ground (arith, a, b, c, d, e, f), tt);
    free = (ground (arith, a, b, c, d, e, f), ground (arith, a, b, c, d, e, f), tt);
    ends = ground (arith, a, b, c, d, e, f);
    used_once = ((f, tt), (tt, tt));
    free_once = ((a, tt), (tt, tt));
    apart = ((b, (c, tt)), ((d, (e, tt)), tt));
  },
  λ j x y z w. ground (arith, x, y, z, w),
)

module _ (malloc : ℕ → Option ℕ) (addr : ℕ → ℕ) (given : (k : ℕ) → malloc k ≡ some (addr k))
    (once : (j k : ℕ) → j ≢ k → addr j ≢ addr k) where
  -- A set that is built from the calls from `lo` up to `n`.
  pub record Built (h0 h : Heap) (set : CacheSet) (fs : List ℕ) (lo n : ℕ) : Type 0 where
    pub holds : Holds h set [] fs
    pub among : Among addr lo n (nodes set [] fs)
    pub others : (j : ℕ) → NotIn j (nodes set [] fs) → h j ≡ h0 j

  new_free_lines-step :
      (k n head : ℕ) (h h1 : Heap)
      → insert_cache_line_after (addr n) head h ≡ some h1
      → new_free_lines malloc (suc k) n head h ≡ new_free_lines malloc k (n + 1) head h1
  unfolding new_free_lines
  new_free_lines-step k n head h h1 e = rw (new_free_lines, given n, e) refl

  more_lines :
      (k n lo : ℕ) (h0 h : Heap) (set : CacheSet) (fs : List ℕ)
      → lo ≤ n
      → Built h0 h set fs lo n
      → (h' : Heap) × (fs' : List ℕ) × (new_free_lines malloc k n set.lines_head_free h ≡ some h')
        × (length fs' ≡ length fs + k)
        × Built h0 h' set fs' lo (n + k)
  unfolding new_free_lines
  more_lines zero n lo h0 h set fs l b =
      (h, fs, refl, omega arith, subst (λ m. Built h0 h set fs lo m) (omega arith) b)
  more_lines (suc k) n lo h0 h set fs l b =
      let i =
        insert-Holds h set (addr n) [] fs b.holds
          (Among-NotIn addr once lo n n (nodes set [] fs) b.among (inr (omega arith))) in
      let w =
        Among-wider addr once lo n lo (n + 1) (nodes set [] fs) (omega arith) (omega arith)
          b.among in
      let next : Built h0 i.0 set (addr n ∷ fs) lo (n + 1) = record {
        holds = i.2;
        among = (w.0, ((n, l, omega arith, refl), w.1));
        others = λ j o. i.3 j o ∙ b.others j (o.0, o.1.1);
      } in
      let rest = more_lines k (n + 1) lo h0 i.0 set (addr n ∷ fs) (omega (arith, l)) next in
      let longer : length rest.1 ≡ length fs + suc k = omega (arith, rest.3) in
      let calls : n + 1 + k ≡ n + suc k = omega arith in
      (
        rest.0,
        rest.1,
        new_free_lines-step k n set.lines_head_free h i.0 i.1 ∙ rest.2,
        longer,
        subst (λ m. Built h0 rest.0 set rest.1 lo m) calls rest.4,
      )

  init_lines_head_tail-some :
      (n : ℕ) (h : Heap)
      → init_lines_head_tail malloc n h
        ≡ some (
          addr n,
          addr (n + 1),
          set_next (addr (n + 1)) none (
              set_prev
                (addr (n + 1))
                (some (addr n))
                (set_next (addr n) (some (addr (n + 1))) (set_prev (addr n) none h))),
        )
  unfolding init_lines_head_tail
  init_lines_head_tail-some n h = rw (init_lines_head_tail, given n, given (n + 1)) refl

  init_one_set-some :
      (lines n : ℕ) (h h2 h' : Heap) (hf tf hu tu : ℕ) (hm : Heap)
      → init_lines_head_tail malloc n h ≡ some (hf, tf, hm)
      → init_lines_head_tail malloc (n + 2) hm ≡ some (hu, tu, h2)
      → new_free_lines malloc lines (n + 4) hf h2 ≡ some h'
      → init_one_set malloc lines n h
        ≡ some (
          record {
            lines_head_in_use = hu;
            lines_tail_in_use = tu;
            lines_head_free = hf;
            lines_tail_free = tf;
          },
          h',
        )
  unfolding init_one_set
  init_one_set-some lines n h h2 h' hf tf hu tu hm a b c = rw (init_one_set, a, b, c) refl

  pub one_set :
      (lines n : ℕ) (h : Heap)
      → (set : CacheSet) × (h' : Heap) × (fs : List ℕ) × (init_one_set malloc lines n h
          ≡ some (set, h'))
        × (length fs ≡ lines)
        × Built h h' set fs n (n + 4 + lines)
  one_set lines n h =
      let hf = addr n in
      let tf = addr (n + 1) in
      let hu = addr (n + 2) in
      let tu = addr (n + 2 + 1) in
      let h2 =
        set_next tf none (set_prev tf (some hf) (set_next hf (some tf) (set_prev hf none h))) in
      let h4 =
        set_next tu none (set_prev tu (some hu) (set_next hu (some tu) (set_prev hu none h2))) in
      let set : CacheSet = record {
        lines_head_in_use = hu;
        lines_tail_in_use = tu;
        lines_head_free = hf;
        lines_tail_free = tf;
      } in
      let base =
        base-Holds h hf tf hu tu (once n (n + 1) (omega arith)) (once n (n + 2) (omega arith))
          (once n (n + 2 + 1) (omega arith)) (once (n + 1) (n + 2) (omega arith))
          (once (n + 1) (n + 2 + 1) (omega arith)) (once (n + 2) (n + 2 + 1) (omega arith)) in
      let built : Built h h4 set [] n (n + 4) = record {
        holds = base.0;
        among = (
          (n, omega arith, omega arith, refl),
          (
            (n + 1, omega arith, omega arith, refl),
            (
              (n + 2, omega arith, omega arith, refl),
              ((n + 2 + 1, omega arith, omega arith, refl), tt),
            ),
          ),
        );
        others = λ j o. base.1 j o.0 o.1.0 o.1.1.0 o.1.1.1.0;
      } in
      let m = more_lines lines (n + 4) n h h4 set [] (omega arith) built in
      (
        set,
        m.0,
        m.1,
        init_one_set-some lines n h h4 m.0 hf tf hu tu h2 (init_lines_head_tail-some n h)
            (init_lines_head_tail-some (n + 2) h2) m.2,
        from_none (length m.1) lines m.3,
        m.4,
      )
