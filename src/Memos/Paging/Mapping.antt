-- ===== src/Memos/Paging/Mapping.antt =====
-- `virtual_memory_map` and `virtual_memory_lookup` of OS/WeensyOS/MemOS/k-hardware.c on one page.
use code_snippet.Prelude.{
  ℕ, ◌+◌, ◌*◌, ◌/◌, ◌%◌, ◌<◌, ◌≡◌, ◌≢◌, refl, ◌∙◌, sym, ap, arith, Option, none, some, Bool, true,
  false, ◌==◌, if◌then◌else◌, update,
}
use code_snippet.Memos.Paging.{
  Memory, Vamapping, minus_one, pte_addr, entry, set_entry, has_p, has_w, has_u, level2, map_loop,
  can_map, virtual_memory_map, virtual_memory_lookup, through, walk, mapping_of, l1_page_index,
  l2_page_index,
}

-- The page table at `pagetable` has a level-2 table at page `t` for the first 4 MB, open to the user.
pub record HasLevel2 (mem : Memory) (pagetable t : ℕ) : Type 0 where
  pub aligned : pagetable % 4096 ≡ 0
  pub at : mem (pagetable / 4096) 0 / 4096 ≡ t
  pub flags : mem (pagetable / 4096) 0 % 8 ≡ 7
  pub low : t < 512
  pub apart : t ≢ pagetable / 4096

-- What an entry says of an aligned address.
abbrev pub seen : ℕ → Vamapping
seen e =
    if has_p e
    then record { pn = e / 4096; pa = (e / 4096) * 4096; perm = e % 4096 }
    else record { pn = minus_one; pa = minus_one; perm = 0 }

open_flags : (e : ℕ) → e % 8 ≡ 7 → (has_p e ≡ true) × (has_w e ≡ true) × (has_u e ≡ true)
open_flags e h = (ground (arith, h), ground (arith, h), ground (arith, h))

through-open : (pe e : ℕ) → pe % 8 ≡ 7 → through pe e ≡ e
unfolding through
through-open pe e h = let f = open_flags pe h in ground (arith, f)

-- The level-1 entry of an address below 4 MB.
first-entry :
    (mem : Memory) (pagetable v : ℕ)
    → v < 1024
    → entry mem pagetable (l1_page_index (v * 4096)) ≡ mem (pagetable / 4096) 0
first-entry mem pagetable v l = ap (λ i. mem (pagetable / 4096) i) (omega (arith, l))

walk-entry :
    (mem : Memory) (pagetable t v : ℕ)
    → HasLevel2 mem pagetable t
    → v < 1024
    → walk mem pagetable (v * 4096) ≡ mem t v
unfolding walk
walk-entry mem pagetable t v w l =
    ap (λ pe. through pe (entry mem (pte_addr pe) (l2_page_index (v * 4096))))
      (first-entry mem pagetable v l)
    ∙ through-open (mem (pagetable / 4096) 0) _ w.flags
    ∙ ap (λ q. mem q (l2_page_index (v * 4096))) (omega (arith, w.at))
    ∙ ap (λ i. mem t i) (omega (arith, l))

mapping_of-seen : (pe v : ℕ) → mapping_of pe (v * 4096) ≡ seen pe
unfolding mapping_of
mapping_of-seen pe v =
    ap
      (λ z.
        if has_p pe
        then record { pn = pe / 4096; pa = z; perm = pe % 4096 }
        else record { pn = minus_one; pa = minus_one; perm = 0 })
      (omega arith)

pub lookup-seen :
    (mem : Memory) (pagetable t v : ℕ)
    → HasLevel2 mem pagetable t
    → v < 1024
    → virtual_memory_lookup mem pagetable (v * 4096) ≡ seen (mem t v)
unfolding virtual_memory_lookup
lookup-seen mem pagetable t v w l =
    ap (λ pe. mapping_of pe (v * 4096)) (walk-entry mem pagetable t v w l)
    ∙ mapping_of-seen (mem t v) v

level2-open :
    (perm pte : ℕ) → pte % 8 ≡ 7 → pte / 4096 < 512 → level2 perm pte ≡ some (pte_addr pte)
unfolding level2
level2-open perm pte h l = let f = open_flags pte h in ground (arith, f, l)

can_map-page :
    (pagetable v n perm : ℕ)
    → pagetable % 4096 ≡ 0
    → v < 1024
    → n < 512
    → perm < 4096
    → can_map pagetable (v * 4096) (n * 4096) 4096 perm ≡ true
unfolding can_map
can_map-page pagetable v n perm a b c d = ground (arith, a, b, c, d)

-- One page.
abbrev pub mapped : Memory → ℕ → ℕ → ℕ → Memory
mapped mem t v e = update mem t (update (mem t) v e)

if-true : (b : Bool) (x : Option Memory) → b ≡ true → (if b then x else none) ≡ x
if-true true x e = refl
if-true false x e = absurd (ground (arith, e))

map_one :
    (pagetable va pa perm l2 : ℕ) (mem : Memory)
    → (l1_page_index va == minus_one) ≡ false
    → level2 perm (entry mem pagetable (l1_page_index va)) ≡ some l2
    → has_p perm ≡ true
    → map_loop 1 pagetable va pa perm minus_one 0 mem
      ≡ some (set_entry l2 (l2_page_index va) (pa + perm) mem)
unfolding map_loop
map_one pagetable va pa perm l2 mem a b c = ground (arith, a, b, c)

pub map-page :
    (mem : Memory) (pagetable t v n perm : ℕ)
    → HasLevel2 mem pagetable t
    → v < 1024
    → n < 512
    → perm < 4096
    → has_p perm ≡ true
    → virtual_memory_map pagetable (v * 4096) (n * 4096) 4096 perm mem
      ≡ some (mapped mem t v (n * 4096 + perm))
unfolding virtual_memory_map map_loop
map-page mem pagetable t v n perm w lv ln lp p =
    let opened = level2-open perm (mem (pagetable / 4096) 0) w.flags (omega (arith, w.at, w.low)) in
    let found : level2 perm (entry mem pagetable (l1_page_index (v * 4096)))
        ≡ some (pte_addr (mem (pagetable / 4096) 0)) =
      ap (λ e. level2 perm e) (first-entry mem pagetable v lv) ∙ opened in
    if-true (can_map pagetable (v * 4096) (n * 4096) 4096 perm) _
      (can_map-page pagetable v n perm w.aligned lv ln lp)
    ∙ map_one pagetable (v * 4096) (n * 4096) perm (pte_addr (mem (pagetable / 4096) 0)) mem
        (ground (arith, lv)) found p
    ∙ ap (λ q. some (mapped mem q (l2_page_index (v * 4096)) (n * 4096 + perm)))
        (omega (arith, w.at))
    ∙ ap (λ i. some (mapped mem t i (n * 4096 + perm))) (omega (arith, lv))

pub mapped-HasLevel2 :
    (mem : Memory) (pagetable t v e : ℕ)
    → HasLevel2 mem pagetable t
    → HasLevel2 (mapped mem t v e) pagetable t
mapped-HasLevel2 mem pagetable t v e w = record {
  aligned = w.aligned;
  at = ground (arith, w.at, w.apart);
  flags = ground (arith, w.flags, w.apart);
  low = w.low;
  apart = w.apart;
}

pub seen-new :
    (n perm : ℕ)
    → perm < 4096
    → has_p perm ≡ true
    → seen (n * 4096 + perm) ≡ record { pn = n; pa = n * 4096; perm = perm }
seen-new n perm l p =
    let odd : has_p (n * 4096 + perm) ≡ true = ground (arith, p) in
    let number : (n * 4096 + perm) / 4096 ≡ n = omega (arith, l) in
    let flags : (n * 4096 + perm) % 4096 ≡ perm = omega (arith, l) in rw (odd, number, flags) refl

-- A page below 4 MB of a table whose level-2 table is there and open to the user is mapped without a failed
-- assertion: the lookup of its address then gives the physical page, its address and the permissions, and
-- the lookup of another page `u` gives what it gave before.
pub lookup-map :
    (mem : Memory) (pagetable t v n perm u : ℕ)
    → HasLevel2 mem pagetable t
    → v < 1024
    → n < 512
    → perm < 4096
    → has_p perm ≡ true
    → u < 1024
    → u ≢ v
    → (mem' : Memory) × (virtual_memory_map pagetable (v * 4096) (n * 4096) 4096 perm mem
        ≡ some mem')
      × (virtual_memory_lookup mem' pagetable (v * 4096)
          ≡ record { pn = n; pa = n * 4096; perm = perm })
      × (virtual_memory_lookup mem' pagetable (u * 4096)
          ≡ virtual_memory_lookup mem pagetable (u * 4096))
lookup-map mem pagetable t v n perm u w lv ln lp p lu ne =
    let mem' = mapped mem t v (n * 4096 + perm) in
    let w' = mapped-HasLevel2 mem pagetable t v (n * 4096 + perm) w in
    (
      mem',
      map-page mem pagetable t v n perm w lv ln lp p,
      lookup-seen mem' pagetable t v w' lv ∙ ap seen (ground arith) ∙ seen-new n perm lp p,
      lookup-seen mem' pagetable t u w' lu
          ∙ ap seen (ground (arith, ne))
          ∙ sym (lookup-seen mem pagetable t u w lu),
    )
