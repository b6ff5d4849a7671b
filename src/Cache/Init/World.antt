-- ===== src/Cache/Init/World.antt =====
-- The loop of `init_cache_set` of C/CSAPPLab/cache/csim.c over the sets, and the whole simulation.
use code_snippet.Prelude.{
  ltb, ℕ, zero, suc, ◌+◌, ◌^◌, ◌≤◌, ◌<◌, ◌≡◌, ◌≢◌, refl, ◌∙◌, sym, Option, some, Bool, true, false,
  ◌==◌, if◌then◌else◌, arith, List, [], length, NotIn, Apart, Apart-sym, update,
}
use mathlib.Core.Path.{subst}
use code_snippet.Cache.{
  Heap, CacheSet, CacheArgs, Access, TraceResult, trace_all, cache_trace, no_result,
}
use code_snippet.Cache.Init.{init_one_set, init_sets, init_cache_set, simulate}
use code_snippet.Cache.Init.Fresh.{Among, Among-Apart, Among-wider, Built, one_set}
use code_snippet.Cache.Lru.{lru_trace}
use code_snippet.Cache.Lru.Refine.{Holds, nodes}
use code_snippet.Cache.Lru.Trace.{World, test-eq, Holds-outside, trace_all-Traced}

abbrev pub nothing : ℕ → List ℕ
nothing i = []

pick :
    (b : Bool) (P : CacheSet → List ℕ → Type 0) (s : CacheSet) (f : List ℕ) (s' : CacheSet)
    (f' : List ℕ)
    → (b ≡ true → P s f)
    → (b ≡ false → P s' f')
    → P (if b then s else s') (if b then f else f')
pick true P s f s' f' new old = new refl
pick false P s f s' f' new old = old refl

below : (i j : ℕ) → j < suc i → (i == j) ≡ false → j < i
below i j l e = ground (arith, l, e)

World-more :
    (h h' : Heap) (sets : ℕ → CacheSet) (i cap : ℕ) (fs : ℕ → List ℕ) (set : CacheSet) (f : List ℕ)
    → World h sets i cap nothing fs nothing
    → Holds h' set [] f
    → length f ≡ cap
    → ((j : ℕ) → NotIn j (nodes set [] f) → h' j ≡ h j)
    → ((j : ℕ) → j < i → Apart (nodes (sets j) [] (fs j)) (nodes set [] f))
    → World h' (update sets i set) (suc i) cap nothing (update fs i f) nothing
World-more h h' sets i cap fs set f w holds size others far = record {
  holds = λ j l.
      pick (i == j) (λ s g. Holds h' s [] g) set f (sets j) (fs j) (λ e. holds)
        (λ e.
          (Holds-outside h h' (sets j) [] (fs j) (nodes set [] f) others (far j (below i j l e))
            (w.holds j (below i j l e))).0);
  sizes = λ j l.
      pick (i == j) (λ s g. 0 + length g ≡ cap) set f (sets j) (fs j) (λ e. omega (arith, size))
        (λ e. w.sizes j (below i j l e));
  tags = λ j l. refl;
  apart = λ j k lj lk ne.
      pick (i == j) (λ s g. Apart (nodes s [] g) (nodes (update sets i set k) [] (update fs i f k)))
        set f (sets j) (fs j)
        (λ e.
          pick (i == k) (λ s g. Apart (nodes set [] f) (nodes s [] g)) set f (sets k) (fs k)
            (λ e'. absurd (ne (sym (test-eq i j e) ∙ test-eq i k e')))
            (λ e'. Apart-sym (nodes (sets k) [] (fs k)) (nodes set [] f) (far k (below i k lk e'))))
        (λ e.
          pick (i == k) (λ s g. Apart (nodes (sets j) [] (fs j)) (nodes s [] g)) set f (sets k)
            (fs k) (λ e'. far j (below i j lj e))
            (λ e'. w.apart j k (below i j lj e) (below i k lk e') ne));
}

module _ (malloc : ℕ → Option ℕ) (addr : ℕ → ℕ) (given : (k : ℕ) → malloc k ≡ some (addr k))
    (once : (j k : ℕ) → j ≢ k → addr j ≢ addr k) where
  -- The sets below `i` are built, from the calls below `n`.
  record Ready (h : Heap) (sets : ℕ → CacheSet) (i n cap : ℕ) : Type 0 where
    pub free : ℕ → List ℕ
    pub world : World h sets i cap nothing free nothing
    pub among : (j : ℕ) → j < i → Among addr 0 n (nodes (sets j) [] (free j))

  Ready-more :
      (h h' : Heap) (sets : ℕ → CacheSet) (i n cap n' : ℕ) (set : CacheSet) (f : List ℕ)
      → n ≤ n'
      → Ready h sets i n cap
      → length f ≡ cap
      → Built malloc addr given once h h' set f n n'
      → Ready h' (update sets i set) (suc i) n' cap
  Ready-more h h' sets i n cap n' set f l w size b = record {
    free = update w.free i f;
    world = World-more h h' sets i cap w.free set f w.world b.holds size b.others (λ j lj.
        Among-Apart addr once 0 n n' (nodes (sets j) [] (w.free j)) (nodes set [] f) (w.among j lj)
          b.among);
    among = λ j lj.
        pick (i == j) (λ s g. Among addr 0 n' (nodes s [] g)) set f (sets j) (w.free j)
          (λ e.
            Among-wider addr once n n' 0 n' (nodes set [] f) (omega arith) (omega arith) b.among)
          (λ e.
            Among-wider addr once 0 n 0 n' (nodes (sets j) [] (w.free j)) (omega arith) l
              (w.among j (below i j lj e)));
  }

  init_sets-step :
      (lines count i n : ℕ) (sets : ℕ → CacheSet) (h h' : Heap) (set : CacheSet)
      → init_one_set malloc lines n h ≡ some (set, h')
      → init_sets malloc lines (suc count) i n sets h
        ≡ init_sets malloc lines count (i + 1) (n + 4 + lines) (update sets i set) h'
  unfolding init_sets
  init_sets-step lines count i n sets h h' set e = rw (init_sets, e) refl

  all_sets :
      (lines count i n : ℕ) (sets : ℕ → CacheSet) (h : Heap)
      → Ready h sets i n lines
      → (sets' : ℕ → CacheSet) × (h' : Heap) × (n' : ℕ) × (init_sets malloc lines count i n sets h
          ≡ some (sets', h'))
        × Ready h' sets' (i + count) n' lines
  unfolding init_sets
  all_sets lines zero i n sets h w =
      (sets, h, n, refl, subst (λ k. Ready h sets k n lines) (omega arith) w)
  all_sets lines (suc count) i n sets h w =
      let o = one_set malloc addr given once lines n h in
      let next = Ready-more h o.1 sets i n lines (n + 4 + lines) o.0 o.2 (omega arith) w o.4 o.5 in
      let one : suc i ≡ i + 1 = omega arith in
      let rest =
        all_sets lines count (i + 1) (n + 4 + lines) (update sets i o.0) o.1
          (subst (λ k. Ready o.1 (update sets i o.0) k (n + 4 + lines) lines) one next) in
      let sum : i + 1 + count ≡ i + suc count = omega arith in
      (
        rest.0,
        rest.1,
        rest.2,
        init_sets-step lines count i n sets h o.1 o.0 o.3 ∙ rest.3,
        subst (λ k. Ready rest.1 rest.0 k rest.2 lines) sum rest.4,
      )

  init_cache_set-sets :
      (lines total : ℕ) (sets sets' : ℕ → CacheSet) (h h' : Heap)
      → init_sets malloc lines total 0 1 sets h ≡ some (sets', h')
      → init_cache_set malloc total lines sets h ≡ some (sets', h')
  unfolding init_cache_set
  init_cache_set-sets lines total sets sets' h h' e = rw (init_cache_set, given 0) e

  simulate-some :
      (args : CacheArgs) (trace : List Access) (sets sets' : ℕ → CacheSet) (h h1 h2 : Heap)
      (r : TraceResult)
      → args.bits_sets < 31
      → init_cache_set malloc (2 ^ args.bits_sets) args.total_lines_per_set sets h
        ≡ some (sets', h1)
      → trace_all (suc args.total_lines_per_set) args sets' trace (h1, no_result) ≡ some (h2, r)
      → simulate malloc args trace sets h ≡ some r
  unfolding simulate cache_trace
  simulate-some args trace sets sets' h h1 h2 r int_bits a b =
      let fits : ltb args.bits_sets 31 ≡ true = ground (arith, int_bits) in
      rw (simulate, fits, a, cache_trace, b) refl

  -- When every call of malloc succeeds and no two return the same line, the set bits are fewer than 31, the
  -- set and block bits are fewer than 64 and a set has a line, the program prints the counts of sets that each keep the most recently
  -- used tags: it never dereferences NULL, and its search always ends.
  pub simulate-lru_trace :
      (args : CacheArgs) (trace : List Access) (sets : ℕ → CacheSet) (h : Heap)
      → args.bits_sets < 31
      → args.bits_sets + args.bits_blocks_per_line < 64
      → 0 < args.total_lines_per_set
      → simulate malloc args trace sets h
        ≡ some (lru_trace args.total_lines_per_set args trace (nothing, no_result)).1
  simulate-lru_trace args trace sets h int_bits bits pos =
      let lines = args.total_lines_per_set in
      let empty : Ready h sets 0 1 lines = record {
        free = nothing;
        world = record {
          holds = λ i l. absurd (omega (arith, l));
          sizes = λ i l. absurd (omega (arith, l));
          tags = λ i l. refl;
          apart = λ i j l m ne. absurd (omega (arith, l));
        };
        among = λ i l. absurd (omega (arith, l));
      } in
      let all = all_sets lines (2 ^ args.bits_sets) 0 1 sets h empty in
      let whole : 0 + 2 ^ args.bits_sets ≡ 2 ^ args.bits_sets = omega arith in
      let ready : World all.1 all.0 (2 ^ args.bits_sets) lines nothing all.4.free nothing =
        subst (λ k. World all.1 all.0 k lines nothing all.4.free nothing) whole all.4.world in
      let traced =
        trace_all-Traced (suc lines) lines args all.0 trace all.1 nothing all.4.free nothing
          no_result bits pos (omega arith) ready in
      simulate-some args trace sets all.0 h all.1 traced.heap
        (lru_trace lines args trace (nothing, no_result)).1 int_bits
        (init_cache_set-sets lines (2 ^ args.bits_sets) sets all.0 h all.1 all.3) traced.ran
