-- ===== src/Cache/Lru/Trace.antt =====
-- The loop of `cache_trace` of C/CSAPPLab/cache/csim.c over all sets.
use code_snippet.Prelude.{
  ℕ, ◌+◌, ◌^◌, ◌<◌, ◌≡◌, ◌≢◌, refl, ◌∙◌, sym, Option, some, Bool, true, false, ◌==◌, if◌then◌else◌,
  arith, List, [], ◌∷◌, ◌++◌, length, ap, NotIn, Apart, Apart-sym, Bool-cases, inl, inr, update,
}
use mathlib.Core.Path.{subst}
use code_snippet.Cache.{
  Heap, CacheSet, CacheArgs, Access, TraceResult, access, extract_set_bits, extract_tag_bits,
  trace_one, trace_all,
}
use code_snippet.Cache.Address.{set-bound}
use code_snippet.Cache.Lru.{lru_tags, lru_count, lru_extra, lru_step, lru_trace}
use code_snippet.Cache.Lru.Search.{tags_of}
use code_snippet.Cache.Lru.Moves.{chain, Run-outside}
use code_snippet.Cache.Lru.Refine.{Holds, Served, nodes}
use code_snippet.Cache.Lru.Serve.{outcome}

-- The lines of all `n` sets, each with `cap` lines, hold the tags `ts`.
pub record World (h : Heap) (sets : ℕ → CacheSet) (n cap : ℕ) (us fs ts : ℕ → List ℕ) : Type 0 where
  pub holds : (i : ℕ) → i < n → Holds h (sets i) (us i) (fs i)
  pub sizes : (i : ℕ) → i < n → length (us i) + length (fs i) ≡ cap
  pub tags : (i : ℕ) → i < n → tags_of h (us i) ≡ ts i
  pub apart :
      (i j : ℕ)
      → i < n
      → j < n
      → i ≢ j
      → Apart (nodes (sets i) (us i) (fs i)) (nodes (sets j) (us j) (fs j))

Apart-front : (xs ys zs : List ℕ) → Apart (xs ++ ys) zs → Apart xs zs
Apart-front [] ys zs a = tt
Apart-front (x ∷ xs) ys zs a = (a.0, Apart-front xs ys zs a.1)

Apart-back : (xs ys zs : List ℕ) → Apart (xs ++ ys) zs → Apart ys zs
Apart-back [] ys zs a = a
Apart-back (x ∷ xs) ys zs a = Apart-back xs ys zs a.1

pub Apart-more :
    (xs ys zs : List ℕ) → ((j : ℕ) → NotIn j ys → NotIn j zs) → Apart xs ys → Apart xs zs
Apart-more [] ys zs f a = tt
Apart-more (x ∷ xs) ys zs f a = (f x a.0, Apart-more xs ys zs f a.1)

-- A set none of whose lines is changed.
pub Holds-outside :
    (h h' : Heap) (set : CacheSet) (us fs zs : List ℕ)
    → ((j : ℕ) → NotIn j zs → h' j ≡ h j)
    → Apart (nodes set us fs) zs
    → Holds h set us fs
    → Holds h' set us fs × (tags_of h' us ≡ tags_of h us)
Holds-outside h h' set us fs zs same a o =
    let f =
      Apart-front (chain set.lines_head_free fs set.lines_tail_free)
        (chain set.lines_head_in_use us set.lines_tail_in_use) zs a in
    let u =
      Apart-back (chain set.lines_head_free fs set.lines_tail_free)
        (chain set.lines_head_in_use us set.lines_tail_in_use) zs a in
    (
      record {
        used =
            Run-outside h h' set.lines_head_in_use (us ++ (set.lines_tail_in_use ∷ [])) zs same u
              o.used;
        free =
            Run-outside h h' set.lines_head_free (fs ++ (set.lines_tail_free ∷ [])) zs same f
              o.free;
        ends =
            ap (λ l. l.next)
              (same set.lines_tail_free (Apart-back fs (set.lines_tail_free ∷ []) zs f.1).0)
            ∙ o.ends;
        used_once = o.used_once;
        free_once = o.free_once;
        apart = o.apart;
      },
      kept us (Apart-front us (set.lines_tail_in_use ∷ []) zs u.1),
    )
  where
    kept : (xs : List ℕ) → Apart xs zs → tags_of h' xs ≡ tags_of h xs
    kept [] b = refl
    kept (x ∷ xs) b =
        ap (λ l. l.tag ∷ tags_of h' xs) (same x b.0) ∙ ap (λ ts. (h x).tag ∷ ts) (kept xs b.1)

-- An updated entry is the new one or an old one.
pick :
    (b : Bool) (P : List ℕ → List ℕ → List ℕ → Type 0) (u f t u' f' t' : List ℕ)
    → (b ≡ true → P u f t)
    → (b ≡ false → P u' f' t')
    → P (if b then u else u') (if b then f else f') (if b then t else t')
pick true P u f t u' f' t' new old = new refl
pick false P u f t u' f' t' new old = old refl

pub test-eq : (i j : ℕ) → (i == j) ≡ true → i ≡ j
test-eq i j e = ground (arith, e)

pub test-ne : (i j : ℕ) → (i == j) ≡ false → i ≢ j
test-ne i j e = ground (arith, e)

World-step :
    (h h' : Heap) (sets : ℕ → CacheSet) (n cap : ℕ) (us fs ts : ℕ → List ℕ) (i : ℕ) (u f t : List ℕ)
    → World h sets n cap us fs ts
    → i < n
    → Served h (sets i) (us i) (fs i) t h' u f
    → World h' sets n cap (update us i u) (update fs i f) (update ts i t)
World-step h h' sets n cap us fs ts i u f t w l s = record {
  holds = λ j lj.
      pick (i == j) (λ a b c. Holds h' (sets j) a b) u f t (us j) (fs j) (ts j)
        (λ e. subst (λ k. Holds h' (sets k) u f) (test-eq i j e) s.holds) (λ e. (outside j lj e).0);
  sizes = λ j lj.
      pick (i == j) (λ a b c. length a + length b ≡ cap) u f t (us j) (fs j) (ts j)
        (λ e. s.size ∙ w.sizes i l) (λ e. w.sizes j lj);
  tags = λ j lj.
      pick (i == j) (λ a b c. tags_of h' a ≡ c) u f t (us j) (fs j) (ts j) (λ e. s.tags)
        (λ e. (outside j lj e).1 ∙ w.tags j lj);
  apart = λ j k lj lk ne.
      pick (i == j)
        (λ a b c. Apart (nodes (sets j) a b) (nodes (sets k) (update us i u k) (update fs i f k))) u
        f t (us j) (fs j) (ts j)
        (λ e.
          pick (i == k) (λ a b c. Apart (nodes (sets j) u f) (nodes (sets k) a b)) u f t (us k)
            (fs k) (ts k) (λ e'. absurd (ne (sym (test-eq i j e) ∙ test-eq i k e')))
            (λ e'.
              subst (λ m. Apart (nodes (sets m) u f) (nodes (sets k) (us k) (fs k))) (test-eq i j e)
                (Apart-sym (nodes (sets k) (us k) (fs k)) (nodes (sets i) u f) (far k lk e'))))
        (λ e.
          pick (i == k) (λ a b c. Apart (nodes (sets j) (us j) (fs j)) (nodes (sets k) a b)) u f t
            (us k) (fs k) (ts k)
            (λ e'.
              subst (λ m. Apart (nodes (sets j) (us j) (fs j)) (nodes (sets m) u f))
                (test-eq i k e') (far j lj e))
            (λ e'. w.apart j k lj lk ne));
}
  where
    outside :
        (j : ℕ)
        → j < n
        → (i == j) ≡ false
        → Holds h' (sets j) (us j) (fs j) × (tags_of h' (us j) ≡ tags_of h (us j))
    outside j lj e =
        Holds-outside h h' (sets j) (us j) (fs j) (nodes (sets i) (us i) (fs i)) s.others
          (w.apart j i lj l (λ q. test-ne i j e (sym q))) (w.holds j lj)

    far :
        (j : ℕ)
        → j < n
        → (i == j) ≡ false
        → Apart (nodes (sets j) (us j) (fs j)) (nodes (sets i) u f)
    far j lj e =
        Apart-more (nodes (sets j) (us j) (fs j)) (nodes (sets i) (us i) (fs i))
          (nodes (sets i) u f) s.outside (w.apart j i lj l (λ q. test-ne i j e (sym q)))

-- What the loop leaves: it returns the counts of the specification, on lines that hold its tags.
pub record Traced (args : CacheArgs) (sets : ℕ → CacheSet) (n cap : ℕ)
    (done : Option (Heap × TraceResult)) (spec : (ℕ → List ℕ) × TraceResult) : Type 0 where
  pub heap : Heap
  pub used : ℕ → List ℕ
  pub free : ℕ → List ℕ
  pub ran : done ≡ some (heap, spec.1)
  pub world : World heap sets n cap used free spec.0

trace_one-skip :
    (fuel : ℕ) (args : CacheArgs) (sets : ℕ → CacheSet) (a : Access) (s : Heap × TraceResult)
    → (a.op == b'I') ≡ true
    → trace_one fuel args sets a s ≡ some s
unfolding trace_one
trace_one-skip fuel args sets a s e = ground (arith, e)

trace_one-access :
    (fuel : ℕ) (args : CacheArgs) (sets : ℕ → CacheSet) (a : Access) (s t : Heap × TraceResult)
    → (a.op == b'I') ≡ false
    → access fuel (sets (extract_set_bits args a.addr)) (extract_tag_bits args a.addr) s.1 s.0
      ≡ some t
    → trace_one fuel args sets a s ≡ some (t.0, lru_extra a.op t.1)
unfolding trace_one lru_extra
trace_one-access fuel args sets a s t e d = rw (trace_one, d) (ground (arith, e))

lru_step-skip :
    (cap : ℕ) (args : CacheArgs) (a : Access) (s : (ℕ → List ℕ) × TraceResult)
    → (a.op == b'I') ≡ true
    → lru_step cap args a s ≡ s
unfolding lru_step
lru_step-skip cap args a s e = ground (arith, e)

lru_step-access :
    (cap : ℕ) (args : CacheArgs) (a : Access) (s : (ℕ → List ℕ) × TraceResult)
    → (a.op == b'I') ≡ false
    → lru_step cap args a s ≡ (
      update s.0
          (extract_set_bits args a.addr)
          (lru_tags cap (extract_tag_bits args a.addr) (s.0 (extract_set_bits args a.addr))),
      lru_extra a.op
          (lru_count cap (extract_tag_bits args a.addr) (s.0 (extract_set_bits args a.addr)) s.1),
    )
unfolding lru_step
lru_step-access cap args a s e = ground (arith, e)

-- One line of the trace.
trace_one-Traced :
    (fuel cap : ℕ) (args : CacheArgs) (sets : ℕ → CacheSet) (a : Access) (h : Heap)
    (us fs ts : ℕ → List ℕ) (r : TraceResult)
    → args.bits_sets + args.bits_blocks_per_line < 64
    → 0 < cap
    → cap < fuel
    → World h sets (2 ^ args.bits_sets) cap us fs ts
    → Traced args sets
        (2 ^ args.bits_sets)
        cap
        (trace_one fuel args sets a (h, r))
        (lru_step cap args a (ts, r))
trace_one-Traced fuel cap args sets a h us fs ts r bits pos enough w =
    elim (Bool-cases (a.op == b'I')) [
      | inl e ↦
          subst
            (λ z. Traced args sets (2 ^ args.bits_sets) cap (trace_one fuel args sets a (h, r)) z)
            (sym (lru_step-skip cap args a (ts, r) e))
            (record {
              heap = h;
              used = us;
              free = fs;
              ran = trace_one-skip fuel args sets a (h, r) e;
              world = w;
            })
      | inr e ↦
          (let i = extract_set_bits args a.addr in
            let t = extract_tag_bits args a.addr in
            let l = set-bound args a.addr bits in
            let o =
              outcome cap fuel t (sets i) r h (us i) (fs i) (w.holds i l) (w.sizes i l) pos
                enough in
            subst
              (λ z. Traced args sets (2 ^ args.bits_sets) cap (trace_one fuel args sets a (h, r)) z)
              (sym (lru_step-access cap args a (ts, r) e))
              (record {
                heap = o.heap;
                used = update us i o.used;
                free = update fs i o.free;
                ran =
                    trace_one-access fuel args sets a (h, r) (o.heap, lru_count cap t (ts i) r) e
                      (subst (λ z. access fuel (sets i) t r h ≡ some (o.heap, lru_count cap t z r))
                        (w.tags i l) o.ran);
                world =
                    World-step h o.heap sets (2 ^ args.bits_sets) cap us fs ts i o.used o.free
                      (lru_tags cap t (ts i)) w l
                      (subst
                        (λ z.
                          Served h (sets i) (us i) (fs i) (lru_tags cap t z) o.heap o.used o.free)
                        (w.tags i l) o.served);
              }))
    ]

trace_all-step :
    (fuel : ℕ) (args : CacheArgs) (sets : ℕ → CacheSet) (a : Access) (rest : List Access)
    (s t : Heap × TraceResult)
    → trace_one fuel args sets a s ≡ some t
    → trace_all fuel args sets (a ∷ rest) s ≡ trace_all fuel args sets rest t
unfolding trace_all
trace_all-step fuel args sets a rest s t e = rw (trace_all, e) refl

pub trace_all-Traced :
    (fuel cap : ℕ) (args : CacheArgs) (sets : ℕ → CacheSet) (trace : List Access) (h : Heap)
    (us fs ts : ℕ → List ℕ) (r : TraceResult)
    → args.bits_sets + args.bits_blocks_per_line < 64
    → 0 < cap
    → cap < fuel
    → World h sets (2 ^ args.bits_sets) cap us fs ts
    → Traced args sets
        (2 ^ args.bits_sets)
        cap
        (trace_all fuel args sets trace (h, r))
        (lru_trace cap args trace (ts, r))
unfolding trace_all lru_trace
trace_all-Traced fuel cap args sets [] h us fs ts r bits pos enough w = record {
  heap = h;
  used = us;
  free = fs;
  ran = refl;
  world = w;
}
trace_all-Traced fuel cap args sets (a ∷ rest) h us fs ts r bits pos enough w =
    let one = trace_one-Traced fuel cap args sets a h us fs ts r bits pos enough w in
    let next = lru_step cap args a (ts, r) in
    let more =
      trace_all-Traced fuel cap args sets rest one.heap one.used one.free next.0 next.1 bits pos
        enough one.world in
    record {
      heap = more.heap;
      used = more.used;
      free = more.free;
      ran = trace_all-step fuel args sets a rest (h, r) (one.heap, next.1) one.ran ∙ more.ran;
      world = more.world;
    }
