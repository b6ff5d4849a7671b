-- ===== src/Memos/Kernel/Copying.antt =====
-- The whole loop of `copy_writable_page` of OS/WeensyOS/MemOS/kernel.c.
use code_snippet.Prelude.{
  ℕ, zero, suc, ◌+◌, ◌*◌, ◌/◌, ◌%◌, ◌≤◌, ◌<◌, ◌≡◌, ◌≢◌, refl, ◌∙◌, sym, ap, arith, Option, some,
  Bool, true, false, update, inl, inr, Bool-cases,
}
use mathlib.Core.Path.{subst}
use code_snippet.Memos.Paging.{Vamapping, pagesize, has_p, virtual_memory_lookup}
use code_snippet.Memos.Paging.Mapping.{seen, lookup-seen, mapped, map-page}
use code_snippet.Memos.Pages.{Pages, po_free, npages, set_info, find_free_physic_page}
use code_snippet.Memos.Pages.Counting.{
  writable, free_pages, writable_entries, free_pages-none, free_pages-same, free_pages-taken,
  writable_entries-one, writable_entries-skip,
}
use code_snippet.Memos.Pages.Owners.{owner_of, found, full, find_free_physic_page-Allocates}
use code_snippet.Memos.Kernel.{copy_one_page, copy_pages}
use code_snippet.Memos.Kernel.Forking.{
  Family, Going, given, shared_pages, one_page-skip, one_page-full, one_page-found, shared-memory,
  shared-owner, Going-parent, Going-skip, Going-page, writable-seen, seen-writable,
}

-- No page is free.
abbrev pub Full : Pages → Type 0
Full s = (q : ℕ) → q < npages → owner_of s q ≢ po_free

-- The free pages of a state.
abbrev pub free_count : Pages → ℕ
free_count s = free_pages npages (owner_of s)

pub Full-free_count : (s : Pages) → Full s → free_count s ≡ 0
Full-free_count s none_free = free_pages-none npages (owner_of s) none_free

pub free_count-taken :
    (s s' : Pages) (p : ℕ)
    → p < npages
    → owner_of s p ≡ po_free
    → owner_of s' p ≢ po_free
    → ((q : ℕ) → q ≢ p → owner_of s' q ≡ owner_of s q)
    → free_count s ≡ suc (free_count s')
free_count-taken s s' p l a b h = free_pages-taken npages p (owner_of s) (owner_of s') l a b h

-- A round goes on, with a page fewer if the entry is writable, or it finds no page for a writable entry.
data Round (s0 s : Pages) (pid new old t u first v : ℕ) (r : Option (Bool × Pages)) : Type 0 where
  goes :
      (s' : Pages)
      → r ≡ some (true, s')
      → Going s0 s' pid new old t u first (suc v)
      → ((rounds : ℕ)
          → writable_entries (s0.memory t) v (suc rounds) + free_count s'
            ≡ writable_entries (s0.memory t) (suc v) rounds + free_count s)
      → Round s0 s pid new old t u first v r
  stops :
      r ≡ some (false, s)
      → free_count s ≡ 0
      → ((rounds : ℕ) → 0 < writable_entries (s0.memory t) v (suc rounds))
      → Round s0 s pid new old t u first v r

one_page-Round :
    (s0 s : Pages) (pid new old t u first v : ℕ)
    → Family s0 pid new old t u
    → Going s0 s pid new old t u first v
    → v < 1024
    → Round s0 s pid new old t u first v (copy_one_page (v * 4096) pid new old s)
one_page-Round s0 s pid new old t u first v f g l =
    let e = s0.memory t v in
    let looked : virtual_memory_lookup s.memory old (v * 4096) ≡ seen e =
      lookup-seen s.memory old t v (Going-parent s0 s pid new old t u first v f g) l
      ∙ ap (λ w. seen (w v)) (g.kept t f.t_used f.t_u) in
    elim (Bool-cases (writable e)) [
      | inr no_w ↦
          goes (shared_pages (seen e) s)
            (one_page-skip (v * 4096) pid new old s (seen e) looked (writable-seen e ∙ no_w))
            (Going-skip s0 s (shared_pages (seen e) s) pid new old t u first v g no_w
              (shared-memory (seen e) s) (shared-owner (seen e) s))
            (λ rounds. skipped e no_w rounds)
      | inl w ↦ elim (find_free_physic_page-Allocates pid s) [
        | full none_free a ↦
            stops (one_page-full (v * 4096) pid new old s (seen e) looked (writable-seen e ∙ w) a)
              (Full-free_count s none_free)
              (λ rounds.
                let one = writable_entries-one (s0.memory t) v rounds w in omega (arith, one))
        | found p lp free a ↦
            goes (given s pid u v p (e / 4096) (p * 4096 + e % 4096)) (ran e p w lp a looked)
              (Going-page s0 s pid new old t u first v p f g w free)
              (λ rounds. taken p lp free w rounds)
      ]
    ]
  where
    skipped :
        (e : ℕ)
        → writable (s0.memory t v) ≡ false
        → (rounds : ℕ)
        → writable_entries (s0.memory t) v (suc rounds) + free_count (shared_pages (seen e) s)
          ≡ writable_entries (s0.memory t) (suc v) rounds + free_count s
    skipped e no_w rounds =
        let same : free_count (shared_pages (seen e) s) ≡ free_count s =
          free_pages-same npages (owner_of s) (owner_of (shared_pages (seen e) s))
            (λ q b. shared-owner (seen e) s q) in
        let skip = writable_entries-skip (s0.memory t) v rounds no_w in omega (arith, same, skip)

    taken :
        (p : ℕ)
        → p < npages
        → owner_of s p ≡ po_free
        → writable (s0.memory t v) ≡ true
        → (rounds : ℕ)
        → writable_entries (s0.memory t) v (suc rounds)
            + free_count
                (given s pid u v p (s0.memory t v / 4096) (p * 4096 + s0.memory t v % 4096))
          ≡ writable_entries (s0.memory t) (suc v) rounds + free_count s
    taken p lp free w rounds =
        let s' = given s pid u v p (s0.memory t v / 4096) (p * 4096 + s0.memory t v % 4096) in
        let mine : owner_of s' p ≡ pid = ground arith in
        let used : owner_of s' p ≢ po_free = λ c. f.pid-pos (sym mine ∙ c) in
        let fewer = free_count-taken s s' p lp free used (λ q ne. ground (arith, ne)) in
        let one = writable_entries-one (s0.memory t) v rounds w in omega (arith, fewer, one)

    ran :
        (e p : ℕ)
        → writable e ≡ true
        → p < 512
        → find_free_physic_page pid s
          ≡ (some (p * 4096), set_info p (record { owner = pid; refcount = 1 }) s)
        → virtual_memory_lookup s.memory old (v * 4096) ≡ seen e
        → copy_one_page (v * 4096) pid new old s
          ≡ some (true, given s pid u v p (e / 4096) (p * 4096 + e % 4096))
    ran e p w lp a looked =
        let vam : Vamapping = record { pn = e / 4096; pa = e / 4096 * 4096; perm = e % 4096 } in
        let s1 = set_info p (record { owner = pid; refcount = 1 }) s in
        let mem = mapped s.memory u v (p * 4096 + e % 4096) in
        let odd : has_p (e % 4096) ≡ true = ground (arith, w) in
        one_page-found (v * 4096) pid new old (p * 4096) s s1 vam mem (looked ∙ seen-writable e w)
          (ground (arith, w)) a
          (map-page s.memory new u v p (e % 4096) g.child l lp (omega arith) odd)
        ∙ ap (λ i. some (true, record s1 { memory = update mem i (mem (e / 4096 * 4096 / 4096)) }))
            (omega arith)
        ∙ ap (λ i. some (true, record s1 { memory = update mem p (mem i) })) (omega arith)

-- The loop over `rounds` pages ends at page `v` and took a page for each writable entry, or there were fewer
-- free pages than writable entries.
pub data Loop (s0 s : Pages) (pid new old t u first v start rounds : ℕ) (r : Option (Bool × Pages))
    : Type 0 where
  ends :
      (s' : Pages)
      → r ≡ some (true, s')
      → Going s0 s' pid new old t u first v
      → free_count s ≡ writable_entries (s0.memory t) start rounds + free_count s'
      → Loop s0 s pid new old t u first v start rounds r
  runs_out :
      (s' : Pages)
      → r ≡ some (false, s')
      → free_count s < writable_entries (s0.memory t) start rounds
      → (at : ℕ) → Going s0 s' pid new old t u first at
      → Loop s0 s pid new old t u first v start rounds r

copy_pages-goes :
    (rounds va pid new old : ℕ) (s s' : Pages)
    → copy_one_page va pid new old s ≡ some (true, s')
    → copy_pages (suc rounds) va pid new old s ≡ copy_pages rounds (va + pagesize) pid new old s'
unfolding copy_pages
copy_pages-goes rounds va pid new old s s' e = rw (copy_pages, e) refl

copy_pages-stops :
    (rounds va pid new old : ℕ) (s s' : Pages)
    → copy_one_page va pid new old s ≡ some (false, s')
    → copy_pages (suc rounds) va pid new old s ≡ some (false, s')
unfolding copy_pages
copy_pages-stops rounds va pid new old s s' e = rw (copy_pages, e) refl

pub copy_pages-Loop :
    (rounds : ℕ) (s0 s : Pages) (pid new old t u first v : ℕ)
    → Family s0 pid new old t u
    → Going s0 s pid new old t u first v
    → v + rounds ≤ 1024
    → Loop s0 s pid new old t u first
        (v + rounds)
        v
        rounds
        (copy_pages rounds (v * 4096) pid new old s)
unfolding copy_pages writable_entries
copy_pages-Loop zero s0 s pid new old t u first v f g l =
    ends s refl (subst (λ k. Going s0 s pid new old t u first k) (omega arith) g) (omega arith)
copy_pages-Loop (suc rounds) s0 s pid new old t u first v f g l =
    elim (one_page-Round s0 s pid new old t u first v f g (omega (arith, l))) [
      | stops e none_free some_writable ↦
          runs_out s (copy_pages-stops rounds (v * 4096) pid new old s s e)
            (omega (arith, none_free, some_writable rounds)) v g
      | goes s' e g' counts ↦
          (let next : suc v * 4096 ≡ v * 4096 + pagesize = omega arith in
            let stop : suc v + rounds ≡ v + suc rounds = omega arith in
            let runs =
              copy_pages-goes rounds (v * 4096) pid new old s s' e
              ∙ ap (λ a. copy_pages rounds a pid new old s') (sym next) in
            elim (copy_pages-Loop rounds s0 s' pid new old t u first (suc v) f g'
              (omega (arith, l))) [
                | ends s2 a g2 left ↦
                    ends s2 (runs ∙ a) (subst (λ k. Going s0 s2 pid new old t u first k) stop g2)
                      (omega (arith, left, counts rounds))
                | runs_out s2 a few at g2 ↦
                    runs_out s2 (runs ∙ a) (omega (arith, few, counts rounds)) at g2
              ])
    ]
