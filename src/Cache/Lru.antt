-- ===== src/Cache/Lru.antt =====
-- What the simulator C/CSAPPLab/cache/csim.c promises of one set: the tags of its lines, the most recently
-- used one first, at most `cap` of them.
pub mod Search
pub mod Moves
pub mod Refine
pub mod Serve
pub mod Trace
pub mod Inclusion
use code_snippet.Prelude.{
  ℕ, zero, suc, ◌+◌, Bool, true, false, ◌==◌, ltb, if◌then◌else◌, ◌||◌, List, [], ◌∷◌, length,
  update,
}
use code_snippet.Cache.{TraceResult, CacheArgs, Access, extract_set_bits, extract_tag_bits}

unfoldable pub member : ℕ → List ℕ → Bool
member t [] = false
member t (u ∷ us) = (u == t) || member t us

-- The list without the first `t`.
unfoldable pub without : ℕ → List ℕ → List ℕ
without t [] = []
without t (u ∷ us) = if u == t then us else u ∷ without t us

unfoldable pub drop_last : List ℕ → List ℕ
drop_last [] = []
drop_last (t ∷ []) = []
drop_last (t ∷ (u ∷ us)) = t ∷ drop_last (u ∷ us)

-- The tags after an access to `t`.
unfoldable pub lru_tags : ℕ → ℕ → List ℕ → List ℕ
lru_tags cap t ts =
    if member t ts
    then t ∷ without t ts
    else if ltb (length ts) cap
    then t ∷ ts
    else t ∷ drop_last ts

-- The counts after it.
unfoldable pub lru_count : ℕ → ℕ → List ℕ → TraceResult → TraceResult
lru_count cap t ts r =
    if member t ts
    then record r { hit = r.hit + 1 }
    else if ltb (length ts) cap
    then record r { miss = r.miss + 1 }
    else record r { miss = r.miss + 1; eviction = r.eviction + 1 }

-- The second access of a modification hits.
unfoldable pub lru_extra : ℕ → TraceResult → TraceResult
lru_extra op r = if op == b'M' then record r { hit = r.hit + 1 } else r

-- A line of the trace on the tags of all sets.
unfoldable pub lru_step :
    ℕ → CacheArgs → Access → (ℕ → List ℕ) × TraceResult → (ℕ → List ℕ) × TraceResult
lru_step cap args a s =
    let i = extract_set_bits args a.addr in
    let t = extract_tag_bits args a.addr in
    if a.op == b'I'
    then s
    else (update s.0 i (lru_tags cap t (s.0 i)), lru_extra a.op (lru_count cap t (s.0 i) s.1))

unfoldable pub lru_trace :
    ℕ → CacheArgs → List Access → (ℕ → List ℕ) × TraceResult → (ℕ → List ℕ) × TraceResult
lru_trace cap args [] s = s
lru_trace cap args (a ∷ rest) s = lru_trace cap args rest (lru_step cap args a s)
