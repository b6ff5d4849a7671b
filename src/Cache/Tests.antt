-- ===== src/Cache/Tests.antt =====
-- A small cache, and the theorems on C/CSAPPLab/cache/csim.c applied to it.
use code_snippet.Prelude.{
  ◌≤◌, ℕ, ◌+◌, ◌≡◌, ◌==◌, if◌then◌else◌, refl, arith, Option, some, none, List, [], ◌∷◌, length,
}
use code_snippet.Cache.{
  TraceResult, Heap, CacheSet, CacheArgs, Access, access, extract_set_bits, extract_tag_bits,
  no_result, cache_trace, trace_all, trace_one, on_hit, on_miss, recycle, search_cache_line_by_tag,
  search_from, is_cache_lines_empty, insert_cache_line_after, delete_cache_line,
}
use code_snippet.Cache.Init.{
  simulate, init_cache_set, init_sets, init_one_set, init_lines_head_tail, new_free_lines,
}
use code_snippet.Cache.Init.Hits.{more_lines_hit}
use code_snippet.Cache.Lru.Inclusion.{with_lines}
use code_snippet.Cache.Init.World.{simulate-lru_trace, nothing}
use code_snippet.Cache.Lru.{
  lru_trace, lru_tags, lru_count, lru_step, lru_extra, member, without, drop_last,
}
use code_snippet.Cache.Lru.Search.{tags_of}
use code_snippet.Cache.Lru.Refine.{Holds}
use code_snippet.Cache.Lru.Serve.{access-lru_tags}

abbrev malloc : ℕ → Option ℕ
malloc k = some k

abbrev args : CacheArgs
args = record { bits_sets = 1; total_lines_per_set = 2; bits_blocks_per_line = 2 }

abbrev load : ℕ → Access
load a = record { op = b'L'; addr = a }

abbrev modify : ℕ → Access
modify a = record { op = b'M'; addr = a }

abbrev fetch : ℕ → Access
fetch a = record { op = b'I'; addr = a }

-- Three tags in the set 0, of which the second one is evicted, and one in the set 1.
abbrev trace : List Access
trace = load 0 ∷ load 8 ∷ modify 3 ∷ fetch 8 ∷ load 16 ∷ load 4 ∷ load 1 ∷ load 8 ∷ []

abbrev garbage : Heap
garbage k = record { tag = 99; prev = none; next = some k }

abbrev no_sets : ℕ → CacheSet
no_sets k = record {
  lines_head_in_use = 0;
  lines_tail_in_use = 0;
  lines_head_free = 0;
  lines_tail_free = 0;
}

simulated :
    simulate malloc args trace no_sets garbage ≡ some (record { hit = 3; miss = 5; eviction = 2 })
unfolding simulate init_cache_set init_sets init_one_set init_lines_head_tail new_free_lines
    cache_trace trace_all trace_one access on_hit on_miss recycle search_cache_line_by_tag
    search_from is_cache_lines_empty insert_cache_line_after delete_cache_line extract_set_bits
    extract_tag_bits
simulated = refl

simulate-lru_trace_example :
    simulate malloc args trace no_sets garbage
    ≡ some (lru_trace 2 args trace (nothing, no_result)).1
simulate-lru_trace_example =
    simulate-lru_trace malloc (λ k. k) (λ k. refl) (λ j k ne. ne) args trace no_sets garbage
      (omega arith) (omega arith) (omega arith)

lru_counts :
    (lru_trace 2 args trace (nothing, no_result)).1 ≡ record { hit = 3; miss = 5; eviction = 2 }
unfolding lru_trace lru_step lru_extra lru_tags lru_count member without drop_last extract_set_bits
    extract_tag_bits
lru_counts = refl

-- One line in use, with the tag 7, and none free.
abbrev small : Heap
small k =
    if k == 0
    then record { tag = 0; prev = none; next = some 1 }
    else if k == 1
    then record { tag = 7; prev = some 0; next = some 2 }
    else if k == 2
    then record { tag = 0; prev = some 1; next = none }
    else if k == 3
    then record { tag = 0; prev = none; next = some 4 }
    else record { tag = 0; prev = some 3; next = none }

abbrev small_set : CacheSet
small_set = record {
  lines_head_in_use = 0;
  lines_tail_in_use = 2;
  lines_head_free = 3;
  lines_tail_free = 4;
}

small_set-Holds : Holds small small_set (1 ∷ []) []
small_set-Holds = record {
  used = (refl, refl, (refl, refl, tt));
  free = (refl, refl, tt);
  ends = refl;
  used_once = ground arith;
  free_once = ground arith;
  apart = ground arith;
}

access-lru_tags_example :
    (h' : Heap) × (us' : List ℕ) × (fs' : List ℕ) × (access 2 small_set 9 no_result small
      ≡ some (h', lru_count 1 9 (7 ∷ []) no_result))
    × Holds h' small_set us' fs'
    × (tags_of h' us' ≡ lru_tags 1 9 (7 ∷ []))
    × (length us' + length fs' ≡ 1)
access-lru_tags_example =
    access-lru_tags 1 2 9 small_set no_result small (1 ∷ []) [] small_set-Holds refl (omega arith)
      (omega arith)

more_lines_hit_example :
    (r s : TraceResult) × (simulate malloc (with_lines 1 args) trace no_sets garbage ≡ some r)
    × (simulate malloc (with_lines 2 args) trace no_sets garbage ≡ some s)
    × (r.hit ≤ s.hit)
more_lines_hit_example =
    more_lines_hit malloc (λ k. k) (λ k. refl) (λ j k ne. ne) args trace no_sets garbage 1 2
      (omega arith) (omega arith) (omega arith) (omega arith)
