-- ===== src/Cache.antt =====
-- The cache simulator C/CSAPPLab/cache/csim.c on an explicit heap of lines. A pointer is a number, and
-- NULL is `none`; the result `none` of an operation is a dereferenced NULL.
pub mod Chain
pub mod Lru
pub mod Init
pub mod Address
mod Tests
use code_snippet.Prelude.{
  ℕ, zero, suc, ◌+◌, ◌-◌, ◌*◌, ◌/◌, ◌%◌, ◌^◌, Option, none, some, Bool, true, false, ◌==◌,
  if◌then◌else◌, List, [], ◌∷◌, update,
}

-- `cache_line_t`
pub record Line : Type 0 where
  pub tag : ℕ
  pub prev : Option ℕ
  pub next : Option ℕ

abbrev pub Heap : Type 0
Heap = ℕ → Line

-- `cache_set_t`
pub record CacheSet : Type 0 where
  pub lines_head_in_use : ℕ
  pub lines_tail_in_use : ℕ
  pub lines_head_free : ℕ
  pub lines_tail_free : ℕ

-- `cache_trace_result_t`
pub record TraceResult : Type 0 where
  pub hit : ℕ
  pub miss : ℕ
  pub eviction : ℕ

abbrev pub set_next : ℕ → Option ℕ → Heap → Heap
set_next p q h = update h p (record (h p) { next = q })

abbrev pub set_prev : ℕ → Option ℕ → Heap → Heap
set_prev p q h = update h p (record (h p) { prev = q })

abbrev pub set_tag : ℕ → ℕ → Heap → Heap
set_tag p t h = update h p (record (h p) { tag = t })

unfoldable pub insert_cache_line_after : ℕ → ℕ → Heap → Option Heap
insert_cache_line_after new_line line h =
    let h1 = set_next new_line (h line).next h in
    let h2 = set_prev new_line (some line) h1 in
    let h3 = set_next line (some new_line) h2 in
    elim (h3 new_line).next [ none ↦ none | some after ↦ some (set_prev after (some new_line) h3) ]

-- del_line->next = del_line->prev = NULL;
abbrev pub detach : ℕ → Heap → Heap
detach p h = set_next p none (set_prev p none h)

unfoldable pub delete_cache_line : ℕ → Heap → Option Heap
delete_cache_line del_line h = elim (h del_line).prev [
  | none ↦ none
  | some before ↦
      (let h1 = set_next before (h del_line).next h in
        elim (h1 del_line).next [
          | none ↦ none
          | some after ↦ some (detach del_line (set_prev after (h1 del_line).prev h1))
        ])
]

-- The loop of the search from line `cur` on. In `some`, what is returned; a loop that is cut off or that
-- follows NULL is `none`.
unfoldable pub search_from : ℕ → ℕ → ℕ → Option ℕ → Heap → Option (Option ℕ)
search_from fuel tag tail none h = none
search_from zero tag tail (some cur) h = none
search_from (suc fuel) tag tail (some cur) h =
    let rest = search_from fuel tag tail (h cur).next h in
    if cur == tail then some none else if (h cur).tag == tag then some (some cur) else rest

unfoldable pub search_cache_line_by_tag : ℕ → ℕ → ℕ → ℕ → Heap → Option (Option ℕ)
search_cache_line_by_tag fuel tag lines_head lines_tail h =
    search_from fuel tag lines_tail (h lines_head).next h

unfoldable pub is_cache_lines_empty : ℕ → Heap → Option Bool
is_cache_lines_empty lines_head h = elim (h lines_head).next [
  | none ↦ none
  | some p ↦ elim (h p).next [ none ↦ some true | some q ↦ some false ]
]

-- line_found = delete_cache_line(p); line_found->tag = tag; insert_cache_line_after(line_found, head);
unfoldable pub recycle : Option ℕ → ℕ → ℕ → Heap → Option Heap
recycle none tag head h = none
recycle (some p) tag head h = elim (delete_cache_line p h) [
  | none ↦ none
  | some h1 ↦ insert_cache_line_after p head (set_tag p tag h1)
]

-- A line that is found is moved to the front.
unfoldable pub on_hit : CacheSet → ℕ → Heap → Option Heap
on_hit set line_found h = elim (delete_cache_line line_found h) [
  | none ↦ none
  | some h1 ↦ insert_cache_line_after line_found set.lines_head_in_use h1
]

-- A line from the free lines, or the last one in use.
unfoldable pub on_miss : CacheSet → ℕ → TraceResult → Heap → Option (Heap × TraceResult)
on_miss set tag r h = elim (is_cache_lines_empty set.lines_head_free h) [
  | none ↦ none
  | some full ↦
      (let free_line = recycle (h set.lines_head_free).next tag set.lines_head_in_use h in
        let last_line = recycle (h set.lines_tail_in_use).prev tag set.lines_head_in_use h in
        if full
        then elim last_line [
          | none ↦ none
          | some h1 ↦ some (h1, record r { miss = r.miss + 1; eviction = r.eviction + 1 })
        ]
        else elim free_line [ none ↦ none | some h1 ↦ some (h1, record r { miss = r.miss + 1 }) ])
]

-- The access to one set.
unfoldable pub access : ℕ → CacheSet → ℕ → TraceResult → Heap → Option (Heap × TraceResult)
access fuel set tag r h =
    elim (search_cache_line_by_tag fuel tag set.lines_head_in_use set.lines_tail_in_use h) [
      | none ↦ none
      | some found ↦ elim found [
        | none ↦ on_miss set tag r h
        | some p ↦ elim (on_hit set p h) [
          | none ↦ none
          | some h1 ↦ some (h1, record r { hit = r.hit + 1 })
        ]
      ]
    ]

-- `cache_args_t`, without the flag and the file.
pub record CacheArgs : Type 0 where
  pub bits_sets : ℕ
  pub total_lines_per_set : ℕ
  pub bits_blocks_per_line : ℕ

-- What sscanf(3) reads from a line of the trace: the operation and the address.
pub record Access : Type 0 where
  pub op : ℕ
  pub addr : ℕ

abbrev pub bits_tag : CacheArgs → ℕ
bits_tag a = 64 - a.bits_sets - a.bits_blocks_per_line

-- The mask clears the upper `bits_tag` bits.
unfoldable pub extract_set_bits : CacheArgs → ℕ → ℕ
extract_set_bits a addr = (addr % 2 ^ (64 - bits_tag a)) / 2 ^ a.bits_blocks_per_line

unfoldable pub extract_tag_bits : CacheArgs → ℕ → ℕ
extract_tag_bits a addr = addr / 2 ^ (64 - bits_tag a)

-- One line of the trace.
unfoldable pub trace_one :
    ℕ → CacheArgs → (ℕ → CacheSet) → Access → Heap × TraceResult → Option (Heap × TraceResult)
trace_one fuel args sets a s =
    let done =
      access fuel (sets (extract_set_bits args a.addr)) (extract_tag_bits args a.addr) s.1 s.0 in
    if a.op == b'I' then some s else elim done [
      | none ↦ none
      | some t ↦ some (t.0, if a.op == b'M' then record t.1 { hit = t.1.hit + 1 } else t.1)
    ]

unfoldable pub trace_all :
    ℕ → CacheArgs → (ℕ → CacheSet) → List Access → Heap × TraceResult → Option (Heap × TraceResult)
trace_all fuel args sets [] s = some s
trace_all fuel args sets (a ∷ rest) s = elim (trace_one fuel args sets a s) [
  | none ↦ none
  | some s' ↦ trace_all fuel args sets rest s'
]

abbrev pub no_result : TraceResult
no_result = record { hit = 0; miss = 0; eviction = 0 }

unfoldable pub cache_trace :
    ℕ → CacheArgs → (ℕ → CacheSet) → List Access → Heap → Option (Heap × TraceResult)
cache_trace fuel args sets trace h = trace_all fuel args sets trace (h, no_result)
