-- ===== src/Cache/Init.antt =====
-- `init_cache_set` and `free_cache_set` of C/CSAPPLab/cache/csim.c. `malloc k` is the result of the k-th
-- call of malloc(3), which is not code of this program; a NULL that is written through is the result `none`.
pub mod Fresh
pub mod World
pub mod Hits
use code_snippet.Prelude.{
  ℕ, zero, suc, ◌+◌, ◌^◌, Option, none, some, List, [], ◌∷◌, ◌++◌, update, Bool, true, false, ltb,
}
use code_snippet.Cache.{
  Line, Heap, CacheSet, CacheArgs, Access, TraceResult, insert_cache_line_after, set_next, set_prev,
  cache_trace,
}

-- Init_Lines_Head_Tail: the head, the tail and the heap after it.
unfoldable pub init_lines_head_tail : (ℕ → Option ℕ) → ℕ → Heap → Option (ℕ × ℕ × Heap)
init_lines_head_tail malloc n h = elim (malloc n) [
  | none ↦ none
  | some head ↦ elim (malloc (n + 1)) [
    | none ↦ none
    | some tail ↦
        (let h1 = set_next head (some tail) (set_prev head none h) in
          some (head, tail, set_next tail none (set_prev tail (some head) h1)))
  ]
]

-- The loop over `total_lines_per_set`, with `k` rounds to go.
unfoldable pub new_free_lines : (ℕ → Option ℕ) → ℕ → ℕ → ℕ → Heap → Option Heap
new_free_lines malloc zero n lines_head_free h = some h
new_free_lines malloc (suc k) n lines_head_free h = elim (malloc n) [
  | none ↦ none
  | some new_free_line ↦ elim (insert_cache_line_after new_free_line lines_head_free h) [
    | none ↦ none
    | some h1 ↦ new_free_lines malloc k (n + 1) lines_head_free h1
  ]
]

-- One round of the loop over the sets.
unfoldable pub init_one_set : (ℕ → Option ℕ) → ℕ → ℕ → Heap → Option (CacheSet × Heap)
init_one_set malloc lines n h = elim (init_lines_head_tail malloc n h) [
  | none ↦ none
  | some f ↦ elim (init_lines_head_tail malloc (n + 2) f.2) [
    | none ↦ none
    | some u ↦ elim (new_free_lines malloc lines (n + 4) f.0 u.2) [
      | none ↦ none
      | some h1 ↦ some (
        record {
          lines_head_in_use = u.0;
          lines_tail_in_use = u.1;
          lines_head_free = f.0;
          lines_tail_free = f.1;
        },
        h1,
      )
    ]
  ]
]

-- The loop over the sets, with `count` rounds to go, at set `i` and at call `n`.
unfoldable pub init_sets :
    (ℕ → Option ℕ) → ℕ → ℕ → ℕ → ℕ → (ℕ → CacheSet) → Heap → Option ((ℕ → CacheSet) × Heap)
init_sets malloc lines zero i n sets h = some (sets, h)
init_sets malloc lines (suc count) i n sets h = elim (init_one_set malloc lines n h) [
  | none ↦ none
  | some s ↦ init_sets malloc lines count (i + 1) (n + 4 + lines) (update sets i s.0) s.1
]

-- The first call is the array's, whose contents `sets` are arbitrary; main passes at least one set.
unfoldable pub init_cache_set :
    (ℕ → Option ℕ) → ℕ → ℕ → (ℕ → CacheSet) → Heap → Option ((ℕ → CacheSet) × Heap)
init_cache_set malloc total_sets lines sets h = elim (malloc 0) [
  | none ↦ none
  | some array ↦ init_sets malloc lines total_sets 0 1 sets h
]

-- The lines that are freed, in this order; the loop follows `next` to NULL, and is cut off without fuel.
unfoldable pub free_cache_lines : ℕ → Option ℕ → Heap → Option (List ℕ)
free_cache_lines fuel none h = some []
free_cache_lines zero (some cur_line) h = none
free_cache_lines (suc fuel) (some cur_line) h = elim (free_cache_lines fuel (h cur_line).next h) [
  | none ↦ none
  | some freed ↦ some (cur_line ∷ freed)
]

-- The loop over the sets from set `i` on.
unfoldable pub free_cache_set : ℕ → ℕ → ℕ → (ℕ → CacheSet) → Heap → Option (List ℕ)
free_cache_set fuel zero i sets h = some []
free_cache_set fuel (suc count) i sets h =
    elim (free_cache_lines fuel (some (sets i).lines_head_free) h) [
      | none ↦ none
      | some f ↦ elim (free_cache_lines fuel (some (sets i).lines_head_in_use) h) [
        | none ↦ none
        | some u ↦ elim (free_cache_set fuel count (i + 1) sets h) [
          | none ↦ none
          | some rest ↦ some (f ++ (u ++ rest))
        ]
      ]
    ]

-- `main` up to printSummary: the counts that it prints, from malloc's results and arbitrary memory. The
-- search is given fuel for the lines of a set. The shift 1 << bits_sets of an int is undefined from 31 bits on:
-- there the result is `none`.
unfoldable pub simulate :
    (ℕ → Option ℕ) → CacheArgs → List Access → (ℕ → CacheSet) → Heap → Option TraceResult
simulate malloc args trace sets h = elim (ltb args.bits_sets 31) [
  | false ↦ none
  | true ↦ elim (init_cache_set malloc (2 ^ args.bits_sets) args.total_lines_per_set sets h) [
    | none ↦ none
    | some s ↦ elim (cache_trace (suc args.total_lines_per_set) args s.0 trace s.1) [
      | none ↦ none
      | some t ↦ some t.1
    ]
  ]
]
