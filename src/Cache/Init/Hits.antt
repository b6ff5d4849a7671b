-- ===== src/Cache/Init/Hits.antt =====
-- The hits of C/CSAPPLab/cache/csim.c for sets of different sizes.
use code_snippet.Prelude.{ℕ, ◌+◌, ◌<◌, ◌≤◌, ◌≡◌, ◌≢◌, arith, Option, some, List}
use code_snippet.Cache.{Heap, CacheSet, CacheArgs, Access, TraceResult, no_result}
use code_snippet.Cache.Init.{simulate}
use code_snippet.Cache.Init.World.{simulate-lru_trace, nothing}
use code_snippet.Cache.Lru.{lru_trace}
use code_snippet.Cache.Lru.Inclusion.{with_lines, lru_trace-hits}

-- When every call of malloc succeeds and no two return the same line, the set bits are fewer than 31, and
-- the set and block bits are fewer than 64, two runs on the same trace, with `c` and with no fewer `d` lines in a set and one at least, both
-- print their counts, and the one with `d` lines has no fewer hits.
pub more_lines_hit :
    (malloc : ℕ → Option ℕ) (addr : ℕ → ℕ)
    → ((k : ℕ) → malloc k ≡ some (addr k))
    → ((j k : ℕ) → j ≢ k → addr j ≢ addr k)
    → (args : CacheArgs) (trace : List Access) (sets : ℕ → CacheSet) (h : Heap) (c d : ℕ)
    → args.bits_sets < 31
    → args.bits_sets + args.bits_blocks_per_line < 64
    → 0 < c
    → c ≤ d
    → (r s : TraceResult) × (simulate malloc (with_lines c args) trace sets h ≡ some r)
      × (simulate malloc (with_lines d args) trace sets h ≡ some s)
      × (r.hit ≤ s.hit)
more_lines_hit malloc addr given once args trace sets h c d int_bits bits pos l = (
  (lru_trace c (with_lines c args) trace (nothing, no_result)).1,
  (lru_trace d (with_lines d args) trace (nothing, no_result)).1,
  simulate-lru_trace malloc addr given once (with_lines c args) trace sets h int_bits bits pos,
  simulate-lru_trace malloc addr given once (with_lines d args) trace sets h int_bits bits
      (omega (arith, pos, l)),
  lru_trace-hits c d args trace no_result pos l,
)
